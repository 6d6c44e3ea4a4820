-- ===== src/Raft/Types.antt =====
-- internal/raft/types.go: roles, log entries, RPC payloads and replies. A `[]byte` is the list of
-- its bytes.
use vault_fs.Base.{ℕ, String, Bool, List}

pub data NodeState : Type 0 where
  follower candidate leader : NodeState

pub record Entry : Type 0 where
  pub index : ℕ
  pub term : ℕ
  pub command : List ℕ

pub record RequestVoteArgs : Type 0 where
  pub term : ℕ
  pub candidate_id : String
  pub last_log_index : ℕ
  pub last_log_term : ℕ

pub record RequestVoteReply : Type 0 where
  pub term : ℕ
  pub vote_granted : Bool

pub record AppendEntriesArgs : Type 0 where
  pub term : ℕ
  pub leader_id : String
  pub prev_log_index : ℕ
  pub prev_log_term : ℕ
  pub entries : List Entry
  pub leader_commit : ℕ

pub record AppendEntriesReply : Type 0 where
  pub term : ℕ
  pub success : Bool
  pub conflict_index : ℕ
  pub conflict_term : ℕ

pub record InstallSnapshotArgs : Type 0 where
  pub term : ℕ
  pub leader_id : String
  pub last_included_index : ℕ
  pub last_included_term : ℕ
  pub contents : List ℕ
  pub offset : ℕ
  pub done : Bool

pub record InstallSnapshotReply : Type 0 where
  pub term : ℕ

pub record Snapshot : Type 0 where
  pub last_included_index : ℕ
  pub last_included_term : ℕ
  pub contents : List ℕ
