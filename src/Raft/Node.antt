-- ===== src/Raft/Node.antt =====
-- internal/raft/node.go: the state of a node, its role changes, proposals, and the apply loop.
-- A handler runs under the node's mutex, so it is a function from the node to the node. The three
-- signalling channels hold one token each: a send that would block is dropped, so each is a Boolean.
pub mod Commit
pub mod Apply
pub mod Loop
pub mod Rewind
use vault_fs.Base.{
  ℕ, ◌+◌, ◌-◌, ◌/◌, String, Bool, true, false, Option, none, some, List, [], ◌∷◌, ◌++◌, Result, ok,
  err, ltb, leb, ◌==◌, if◌then◌else◌, length, get_or, map, u64,
}
use vault_fs.GoMap.{Map, insert}
use vault_fs.Raft.Types.{NodeState, follower, candidate, leader, Entry}
use vault_fs.Raft.Log.{
  RaftLog, LogError, new_raft_log, last_index, term, append, slice, set_snapshot, len,
}

pub record Node : Type 0 where
  pub id : String
  pub peers : List String
  pub current_term : ℕ
  pub voted_for : String
  pub log : RaftLog
  pub state : NodeState
  pub leader_id : String
  pub commit_index : ℕ
  pub last_applied : ℕ
  pub next_index : Map ℕ
  pub match_index : Map ℕ
  pub election_reset : Bool
  pub heartbeat_sig : Bool
  pub apply_sig : Bool

unfoldable pub new : String → List String → Node
unfolding new_raft_log
new id peers = record {
  id = id;
  peers = peers;
  current_term = 0;
  voted_for = "";
  log = new_raft_log;
  state = follower;
  leader_id = "";
  commit_index = 0;
  last_applied = 0;
  next_index = [];
  match_index = [];
  election_reset = false;
  heartbeat_sig = false;
  apply_sig = false;
}

abbrev pub is_leader : NodeState → Bool
is_leader leader = true
is_leader _ = false

abbrev pub is_candidate : NodeState → Bool
is_candidate candidate = true
is_candidate _ = false

abbrev pub is_follower : NodeState → Bool
is_follower follower = true
is_follower _ = false

unfoldable pub become_follower : Node → ℕ → Node
become_follower n t = record n { state = follower; current_term = t; voted_for = "" }

-- The loop of becomeLeader over the peers.
unfoldable pub set_all : List String → ℕ → Map ℕ → Map ℕ
set_all [] v m = m
set_all (p ∷ ps) v m = set_all ps v (insert p v m)

unfoldable pub become_leader : Node → Node
become_leader n =
    if is_candidate n.state
    then (let last = last_index n.log in
        record n {
          state = leader;
          leader_id = n.id;
          next_index = set_all n.peers (u64 (last + 1)) [];
          match_index = insert n.id last (set_all n.peers 0 []);
          heartbeat_sig = true;
        })
    else n

-- sort.Slice with `>`: the values from the greatest down.
unfoldable pub insert_desc : ℕ → List ℕ → List ℕ
insert_desc a [] = a ∷ []
insert_desc a (b ∷ bs) = if leb b a then a ∷ b ∷ bs else b ∷ insert_desc a bs

unfoldable pub sort_desc : List ℕ → List ℕ
unfolding insert_desc
sort_desc [] = []
sort_desc (a ∷ as') = insert_desc a (sort_desc as')

abbrev pub values : Map ℕ → List ℕ
values m = map (λ e. e.1) m

-- `quorum` of advanceCommitIndex
unfoldable pub commit_quorum : Node → ℕ
commit_quorum n = (length n.peers + 1 + 1) / 2

-- The branch behind `newCommit > n.commitIndex`.
abbrev pub commit_at : Node → ℕ → Result LogError ℕ → Node
commit_at n new_commit (err _) = n
commit_at n new_commit (ok t) =
    if t == n.current_term then record n { commit_index = new_commit; apply_sig = true } else n

unfoldable pub advance_commit_index : Node → Node
unfolding commit_quorum
advance_commit_index n =
    let indices = sort_desc (values n.match_index) in
    if ltb (length indices) (commit_quorum n)
    then n
    else let new_commit = get_or indices (commit_quorum n - 1) 0 in
      if ltb n.commit_index new_commit then commit_at n new_commit (term n.log new_commit) else n

pub data ProposeError : Type 0 where
  not_leader : ProposeError

unfoldable pub propose : Node → List ℕ → Node × Option ProposeError
propose n command =
    if is_leader n.state
    then (let next = u64 (last_index n.log + 1) in
        let e : Entry = record { index = next; term = n.current_term; command = command } in
        let n' = record n {
          log = append n.log (e ∷ []);
          match_index = insert n.id next n.match_index;
        } in
        (record (advance_commit_index n') { heartbeat_sig = true }, none))
    else (n, some not_leader)

abbrev pub compact_threshold : ℕ
compact_threshold = 10000

-- The loop of applyCommitted, with a consumer that takes every entry: each one is sent on the
-- channel and `lastApplied` follows it.
unfoldable pub deliver : Node → List Entry → List Entry → Node × List Entry
deliver n sent [] = (n, sent)
deliver n sent (e ∷ es) = deliver (record n { last_applied = e.index }) (sent ++ e ∷ []) es

-- The compaction at the end of applyCommitted.
abbrev pub compact_to : Node → Result LogError ℕ → Node
compact_to n (err _) = n
compact_to n (ok t) = record n { log = set_snapshot n.log n.last_applied t }

unfoldable pub compact : Node → Node
compact n =
    if leb compact_threshold (len n.log) then compact_to n (term n.log n.last_applied) else n

-- A call with no handler in between: the entries that it sends, after the node that it leaves.
unfoldable pub apply_committed : Node → Node × List Entry
apply_committed n =
    if leb n.commit_index n.last_applied
    then (n, [])
    else let (n', sent) =
        deliver n [] (slice n.log (u64 (n.last_applied + 1)) (u64 (n.commit_index + 1))) in
      (compact n', sent)
