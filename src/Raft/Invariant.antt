-- ===== src/Raft/Invariant.antt =====
-- What holds of a node between two of its handlers, and the steps that it takes.
pub mod Logs
pub mod Loop
pub mod Steps
pub mod Growth
use vault_fs.Base.{ℕ, ◌+◌, ◌≤◌, ◌<◌, ◌≡◌, true, String, List, some, two64, All}
use vault_fs.Raft.Types.{
  RequestVoteArgs, RequestVoteReply, AppendEntriesArgs, AppendEntriesReply, InstallSnapshotArgs,
  InstallSnapshotReply,
}
use vault_fs.Raft.Log.{last_index}
use vault_fs.Raft.Log.Shape.{IsWellFormed}
use vault_fs.Raft.Log.Merge.{AgreesUpTo}
use vault_fs.Raft.Node.{Node, propose}
use vault_fs.Raft.Node.Loop.{
  ApplyLoop, waiting, chosen, delivering, measured, compacting, Machine, run_loop,
}
use vault_fs.Raft.Election.{
  Ballot, begin_election, win_alone, handle_vote_reply, handle_request_vote,
}
use vault_fs.Raft.Replication.{handle_append_reply, handle_append_entries}
use vault_fs.Raft.Replication.Follower.{IsRequestFor}
use vault_fs.Raft.Snapshots.{handle_snapshot_reply, handle_install_snapshot, take_snapshot}

-- The log has the documented shape, what is compacted and what is applied is committed, and what is
-- committed is in the log.
pub record IsSound (n : Node) : Type 0 where
  pub well_formed : IsWellFormed n.log
  pub compacted_committed : n.log.snap_index ≤ n.commit_index
  pub applied_committed : n.last_applied ≤ n.commit_index
  pub committed_logged : n.commit_index ≤ last_index n.log

-- A request that Raft allows: numbered entries that do not contradict what is committed.
pub record IsHonest (n : Node) (args : AppendEntriesArgs) : Type 0 where
  pub request : IsRequestFor n args
  pub committed_agrees : AgreesUpTo n.log args.prev_log_index args.entries n.commit_index

-- The handlers that change a node, and the calls of its main loop.
pub data Step : Node → Node → Type 0 where
  vote : (n : Node) (args : RequestVoteArgs) → Step n (handle_request_vote n args).0
  append_entries :
      (n : Node) (args : AppendEntriesArgs)
      → ((handle_append_entries n args).1.success ≡ true → IsHonest n args)
      → Step n (handle_append_entries n args).0
  install_snapshot :
      (n : Node) (args : InstallSnapshotArgs) → Step n (handle_install_snapshot n args).0
  propose_command :
      (n : Node) (command : List ℕ) → last_index n.log + 1 < two64 → Step n (propose n command).0
  election :
      (n m : Node) (b : Ballot) (args : RequestVoteArgs)
      → begin_election n ≡ some (m, b, args)
      → n.current_term + 1 < two64
      → Step n m
  alone : (n : Node) (b : Ballot) → Step n (win_alone b n)
  vote_reply :
      (n : Node) (b : Ballot) (reply : RequestVoteReply) → Step n (handle_vote_reply b n reply).1
  append_reply :
      (n : Node) (peer : String) (args : AppendEntriesArgs) (reply : AppendEntriesReply)
      → Step n (handle_append_reply n peer args reply)
  snapshot_reply :
      (n : Node) (peer : String) (args : InstallSnapshotArgs) (reply : InstallSnapshotReply)
      → Step n (handle_snapshot_reply n peer args reply)
  snapshot : (n : Node) (contents : List ℕ) → Step n (take_snapshot n contents).0

-- What the apply loop holds is committed.
abbrev pub IsLoopSound : Node → ApplyLoop → Type 0
IsLoopSound n waiting = Unit {0}
IsLoopSound n (chosen from to) = to ≤ n.commit_index + 1
IsLoopSound n (delivering es) = All (λ e. e.index ≤ n.commit_index) es
IsLoopSound n measured = Unit {0}
IsLoopSound n (compacting last t) = last ≤ n.commit_index

-- A handler runs between two pieces of the apply loop, wherever that stands.
pub data Turn : Machine → Machine → Type 0 where
  handler : (m : Machine) {n : Node} → Step m.node n → Turn m (record m { node = n })
  loop : (m : Machine) → Turn m (run_loop m)

pub data Reach (m : Machine) : Machine → Type 0 where
  here : Reach m m
  next : {k l : Machine} → Reach m k → Turn k l → Reach m l
