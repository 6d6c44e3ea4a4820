-- ===== src/Raft/Invariant/Growth.antt =====
-- A node stays sound, and neither its handlers nor its apply loop take back a term or a commit.
use vault_fs.Base.{
  ℕ, ◌+◌, ◌≤◌, ◌<◌, ◌≡◌, true, inl, inr, String, arith, List, some, two64, ltb, ltb→ge, Bool-cases,
}
use vault_fs.Raft.Types.{
  RequestVoteArgs, RequestVoteReply, AppendEntriesArgs, AppendEntriesReply, InstallSnapshotArgs,
  InstallSnapshotReply,
}
use vault_fs.Raft.Node.{Node, propose, advance_commit_index, is_leader}
use vault_fs.Raft.Node.Commit.{advance_commit_index_lem}
use vault_fs.Raft.Election.{
  Ballot, begin_election, win_alone, handle_vote_reply, handle_request_vote,
}
use vault_fs.Raft.Replication.{handle_append_reply, record_match, handle_append_entries}
use vault_fs.Raft.Replication.Follower.{handle_append_entries-terms}
use vault_fs.Raft.Snapshots.{
  handle_snapshot_reply, handle_install_snapshot, take_snapshot, install, acknowledge,
}
use vault_fs.Raft.Invariant.{
  IsSound, IsHonest, IsLoopSound, Step, Turn, handler, loop, Reach, vote, append_entries,
  install_snapshot, propose_command, election, alone, vote_reply, append_reply, snapshot_reply,
  snapshot, here, next,
}
use vault_fs.Raft.Invariant.Logs.{handle_append_entries-commits}
use vault_fs.Raft.Invariant.Steps.{acknowledge_lem, Step-IsSound}
use vault_fs.Raft.Invariant.Loop.{commits-IsLoopSound, piece-IsSound}
use vault_fs.Raft.Node.Loop.{Machine, run_loop}

-- The term and the commit index do not fall.
pub record Grows (n m : Node) : Type 0 where
  pub terms : n.current_term ≤ m.current_term
  pub commits : n.commit_index ≤ m.commit_index

vote-Grows : (n : Node) (args : RequestVoteArgs) → Grows n (handle_request_vote n args).0
unfolding handle_request_vote
vote-Grows n args = ground arith

append_entries-Grows :
    (n : Node) (args : AppendEntriesArgs)
    → ((handle_append_entries n args).1.success ≡ true → IsHonest n args)
    → IsSound n
    → Grows n (handle_append_entries n args).0
append_entries-Grows n args h s = record {
  terms = handle_append_entries-terms n args;
  commits = handle_append_entries-commits n args h s;
}

install-Grows : (n : Node) (args : InstallSnapshotArgs) → Grows n (install n args)
unfolding install
install-Grows n args = ground arith

advance_commit_index-Grows : (n : Node) → Grows n (advance_commit_index n)
advance_commit_index-Grows n = elim (advance_commit_index_lem n) [
  | inl same ↦ rw same (omega arith)
  | inr (grown, _, _, only) ↦ rw only (record { terms = omega arith; commits = omega arith })
]

election-Grows :
    (n m : Node) (b : Ballot) (args : RequestVoteArgs)
    → begin_election n ≡ some (m, b, args)
    → n.current_term + 1 < two64
    → Grows n m
unfolding begin_election
election-Grows n m b args e fits = ground arith

vote_reply-Grows :
    (n : Node) (b : Ballot) (r : RequestVoteReply) → Grows n (handle_vote_reply b n r).1
unfolding handle_vote_reply
vote_reply-Grows n b r = ground arith

alone-Grows : (n : Node) (b : Ballot) → Grows n (win_alone b n)
unfolding win_alone
alone-Grows n b = ground arith

snapshot_reply-Grows :
    (n : Node) (peer : String) (args : InstallSnapshotArgs) (r : InstallSnapshotReply)
    → Grows n (handle_snapshot_reply n peer args r)
unfolding handle_snapshot_reply
snapshot_reply-Grows n peer args r = ground arith

record_match-Grows :
    (n : Node) (peer : String) (args : AppendEntriesArgs) → Grows n (record_match n peer args)
unfolding record_match
record_match-Grows n peer args = record {
  terms = (advance_commit_index-Grows _).terms;
  commits = (advance_commit_index-Grows _).commits;
}

append_reply-Grows :
    (n : Node) (peer : String) (args : AppendEntriesArgs) (r : AppendEntriesReply)
    → Grows n (handle_append_reply n peer args r)
unfolding handle_append_reply
append_reply-Grows n peer args r = ground (arith, record_match-Grows n peer args)

propose-Grows : (n : Node) (command : List ℕ) → Grows n (propose n command).0
unfolding propose
propose-Grows n command = elim (Bool-cases (is_leader n.state)) [
  | inr other ↦ rw other (omega arith)
  | inl leads ↦ rw leads (record {
    terms = (advance_commit_index-Grows _).terms;
    commits = (advance_commit_index-Grows _).commits;
  })
]

take_snapshot-Grows : (n : Node) (contents : List ℕ) → Grows n (take_snapshot n contents).0
unfolding take_snapshot
take_snapshot-Grows n contents = ground arith

handle_install_snapshot-Grows :
    (n : Node) (args : InstallSnapshotArgs) → Grows n (handle_install_snapshot n args).0
unfolding handle_install_snapshot
handle_install_snapshot-Grows n args = elim (Bool-cases (ltb args.term n.current_term)) [
  | inl stale ↦ rw stale (omega arith)
  | inr current ↦
      let a = acknowledge_lem n args (ltb→ge _ _ current) in
      let g = install-Grows (acknowledge n args) args in
      rw current (record {
        terms = omega (arith, a.3, g.terms, ltb→ge _ _ current);
        commits = omega (arith, a.1, g.commits);
      })
]

-- No handler of a sound node takes back a term or a commit.
pub Step-Grows : {n m : Node} → Step n m → IsSound n → Grows n m
Step-Grows (vote n args) s = vote-Grows n args
Step-Grows (append_entries n args h) s = append_entries-Grows n args h s
Step-Grows (install_snapshot n args) s = handle_install_snapshot-Grows n args
Step-Grows (propose_command n command fits) s = propose-Grows n command
Step-Grows (election n m b args e fits) s = election-Grows n m b args e fits
Step-Grows (alone n b) s = alone-Grows n b
Step-Grows (vote_reply n b r) s = vote_reply-Grows n b r
Step-Grows (append_reply n peer args r) s = append_reply-Grows n peer args r
Step-Grows (snapshot_reply n peer args r) s = snapshot_reply-Grows n peer args r
Step-Grows (snapshot n contents) s = take_snapshot-Grows n contents

-- The node and its loop are sound.
pub record IsSoundMachine (m : Machine) : Type 0 where
  pub node_sound : IsSound m.node
  pub loop_sound : IsLoopSound m.node m.loop

Turn-IsSound : {m k : Machine} → Turn m k → IsSoundMachine m → IsSoundMachine k
Turn-IsSound (handler m {n} step) s = record {
  node_sound = Step-IsSound step s.node_sound;
  loop_sound =
      commits-IsLoopSound m.node n m.loop (Step-Grows step s.node_sound).commits s.loop_sound;
}
Turn-IsSound (loop m) s =
    let p = piece-IsSound m.node m.loop m.sent s.node_sound s.loop_sound in
    unfold run_loop in record { node_sound = p.0; loop_sound = p.1 }

-- Whatever handlers run between whatever pieces of the apply loop, from a sound node on the log keeps
-- its shape, what is compacted, applied or waits to be applied is committed, and what is committed is
-- in the log; where the AppendEntries requests that are accepted are numbered, start above the
-- snapshot and do not contradict what is committed, and no proposal or election overflows.
pub Reach-IsSound : {m k : Machine} → Reach m k → IsSoundMachine m → IsSoundMachine k
Reach-IsSound here s = s
Reach-IsSound (next r t) s = Turn-IsSound t (Reach-IsSound r s)

Turn-Grows : {m k : Machine} → Turn m k → IsSoundMachine m → Grows m.node k.node
Turn-Grows (handler m step) s = Step-Grows step s.node_sound
Turn-Grows (loop m) s =
    let p = piece-IsSound m.node m.loop m.sent s.node_sound s.loop_sound in
    unfold run_loop in record { terms = omega (arith, p.3); commits = omega (arith, p.2) }

-- Whatever handlers run between whatever pieces of the apply loop, from a sound node on the term and
-- the commit index only grow; where the AppendEntries requests that are accepted are numbered, start
-- above the snapshot and do not contradict what is committed, and no proposal or election overflows.
pub Reach-Grows : {m k : Machine} → Reach m k → IsSoundMachine m → Grows m.node k.node
Reach-Grows here s = record { terms = omega arith; commits = omega arith }
Reach-Grows (next r t) s =
    let a = Reach-Grows r s in let b = Turn-Grows t (Reach-IsSound r s) in omega (arith, a, b)
