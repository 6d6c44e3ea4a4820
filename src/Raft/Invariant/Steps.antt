-- ===== src/Raft/Invariant/Steps.antt =====
-- Every handler keeps a node sound.
use vault_fs.Base.{◌≤◌, ◌≡◌, refl, inl, inr, String, arith, some, ltb, ltb→ge, Bool-cases}
use vault_fs.Raft.Types.{
  RequestVoteArgs, RequestVoteReply, AppendEntriesArgs, AppendEntriesReply, InstallSnapshotArgs,
  InstallSnapshotReply,
}
use vault_fs.Raft.Node.{Node}
use vault_fs.Raft.Election.{
  Ballot, begin_election, win_alone, handle_vote_reply, handle_request_vote,
}
use vault_fs.Raft.Replication.{handle_append_reply, record_match}
use vault_fs.Raft.Snapshots.{handle_snapshot_reply, handle_install_snapshot, acknowledge}
use vault_fs.Raft.Invariant.{
  IsSound, Step, vote, append_entries, install_snapshot, propose_command, election, alone,
  vote_reply, append_reply, snapshot_reply, snapshot,
}
use vault_fs.Raft.Invariant.Logs.{
  same-IsSound, advance_commit_index-IsSound, propose-IsSound, handle_append_entries-IsSound,
  install-IsSound, take_snapshot-IsSound,
}

vote-IsSound :
    (n : Node) (args : RequestVoteArgs) → IsSound n → IsSound (handle_request_vote n args).0
unfolding handle_request_vote
vote-IsSound n args s = ground (arith, same-IsSound n (handle_request_vote n args).0)

vote_reply-IsSound :
    (n : Node) (b : Ballot) (r : RequestVoteReply) → IsSound n → IsSound (handle_vote_reply b n r).1
unfolding handle_vote_reply
vote_reply-IsSound n b r s = ground (arith, same-IsSound n (handle_vote_reply b n r).1)

alone-IsSound : (n : Node) (b : Ballot) → IsSound n → IsSound (win_alone b n)
unfolding win_alone
alone-IsSound n b s = ground (arith, same-IsSound n (win_alone b n))

election-IsSound :
    (n m : Node) (b : Ballot) (args : RequestVoteArgs)
    → begin_election n ≡ some (m, b, args)
    → IsSound n
    → IsSound m
unfolding begin_election
election-IsSound n m b args e s = ground (arith, same-IsSound n m)

snapshot_reply-IsSound :
    (n : Node) (peer : String) (args : InstallSnapshotArgs) (r : InstallSnapshotReply)
    → IsSound n
    → IsSound (handle_snapshot_reply n peer args r)
unfolding handle_snapshot_reply
snapshot_reply-IsSound n peer args r s =
    ground (arith, same-IsSound n (handle_snapshot_reply n peer args r))

record_match-IsSound :
    (n : Node) (peer : String) (args : AppendEntriesArgs)
    → IsSound n
    → IsSound (record_match n peer args)
unfolding record_match
record_match-IsSound n peer args s =
    advance_commit_index-IsSound _ (same-IsSound n _ refl refl refl s)

append_reply-IsSound :
    (n : Node) (peer : String) (args : AppendEntriesArgs) (r : AppendEntriesReply)
    → IsSound n
    → IsSound (handle_append_reply n peer args r)
unfolding handle_append_reply
append_reply-IsSound n peer args r s =
    ground
      (arith, same-IsSound n (handle_append_reply n peer args r), record_match-IsSound n peer args)

pub acknowledge_lem :
    (n : Node) (args : InstallSnapshotArgs)
    → n.current_term ≤ args.term
    → ((acknowledge n args).log ≡ n.log)
      × ((acknowledge n args).commit_index ≡ n.commit_index)
      × ((acknowledge n args).last_applied ≡ n.last_applied)
      × ((acknowledge n args).current_term ≡ args.term)
unfolding acknowledge
acknowledge_lem n args h = ground arith

handle_install_snapshot-IsSound :
    (n : Node) (args : InstallSnapshotArgs) → IsSound n → IsSound (handle_install_snapshot n args).0
unfolding handle_install_snapshot
handle_install_snapshot-IsSound n args s = elim (Bool-cases (ltb args.term n.current_term)) [
  | inl stale ↦ rw stale s
  | inr current ↦
      let a = acknowledge_lem n args (ltb→ge _ _ current) in
      rw current (install-IsSound (acknowledge n args) args (same-IsSound n _ a.0 a.1 a.2 s))
]

-- Every handler keeps a node sound.
pub Step-IsSound : {n m : Node} → Step n m → IsSound n → IsSound m
Step-IsSound (vote n args) s = vote-IsSound n args s
Step-IsSound (append_entries n args h) s = handle_append_entries-IsSound n args h s
Step-IsSound (install_snapshot n args) s = handle_install_snapshot-IsSound n args s
Step-IsSound (propose_command n command fits) s = propose-IsSound n command fits s
Step-IsSound (election n m b args e fits) s = election-IsSound n m b args e s
Step-IsSound (alone n b) s = alone-IsSound n b s
Step-IsSound (vote_reply n b r) s = vote_reply-IsSound n b r s
Step-IsSound (append_reply n peer args r) s = append_reply-IsSound n peer args r s
Step-IsSound (snapshot_reply n peer args r) s = snapshot_reply-IsSound n peer args r s
Step-IsSound (snapshot n contents) s = take_snapshot-IsSound n contents s
