-- ===== src/Raft/Replication.antt =====
-- internal/raft/replication.go: what a leader sends, what it does with the reply, and the follower.
pub mod Follower
pub mod Conflict
pub mod Leader
pub mod Replies
use vault_fs.Base.{
  ℕ, zero, suc, ◌+◌, ◌-◌, String, true, false, not, ◌||◌, Result, ok, err, ltb, leb, ◌==◌,
  if◌then◌else◌, length, u64, sub64,
}
use vault_fs.GoMap.{lookup_or, insert}
use vault_fs.Raft.Types.{AppendEntriesArgs, AppendEntriesReply}
use vault_fs.Raft.Log.{RaftLog, LogError, last_index, term, slice, append_new}
use vault_fs.Raft.Node.{Node, is_leader, is_follower, become_follower, advance_commit_index}

-- What replicateTo does before it lets the mutex go.
pub data Outgoing : Type 0 where
  nothing : Outgoing
  needs_snapshot : Outgoing
  append_entries : AppendEntriesArgs → Outgoing

abbrev pub outgoing : Node → ℕ → Result LogError ℕ → Outgoing
outgoing n next (err _) = needs_snapshot
outgoing n next (ok prev_term) = append_entries (record {
  term = n.current_term;
  leader_id = n.id;
  prev_log_index = sub64 next 1;
  prev_log_term = prev_term;
  entries = slice n.log next (u64 (last_index n.log + 1));
  leader_commit = n.commit_index;
})

unfoldable pub prepare_append : Node → String → Outgoing
prepare_append n peer =
    let next = lookup_or 0 peer n.next_index in
    if is_leader n.state then outgoing n next (term n.log (sub64 next 1)) else nothing

-- The backward search for the last entry of the conflicting term, from index i down.
unfoldable pub search_back : RaftLog → ℕ → ℕ → ℕ → ℕ
search_back l conflict_term default zero = default
search_back l conflict_term default (suc i) =
    let rest = search_back l conflict_term default i in
    if leb (suc i) l.snap_index then default else elim (term l (suc i)) [
      | err _ ↦ default
      | ok t ↦
          if t == conflict_term
          then u64 (suc i + 1)
          else if ltb t conflict_term
          then default
          else rest
    ]

-- The next index after a rejected AppendEntries.
unfoldable pub back_up : Node → String → AppendEntriesReply → ℕ
unfolding search_back
back_up n peer reply =
    let next = lookup_or 0 peer n.next_index in
    if not (reply.conflict_term == 0)
    then search_back n.log reply.conflict_term reply.conflict_index (last_index n.log)
    else if ltb 0 reply.conflict_index
    then reply.conflict_index
    else if ltb 1 next
    then next - 1
    else next

-- The branch of an accepted AppendEntries.
unfoldable pub record_match : Node → String → AppendEntriesArgs → Node
unfolding advance_commit_index
record_match n peer args =
    let new_match = u64 (args.prev_log_index + length args.entries) in
    let old = lookup_or 0 peer n.match_index in
    let matched =
      if ltb old new_match then insert peer new_match n.match_index else n.match_index in
    advance_commit_index (record n {
      match_index = matched;
      next_index = insert peer (u64 (lookup_or 0 peer matched + 1)) n.next_index;
    })

-- replicateTo from the arrival of the reply.
unfoldable pub handle_append_reply : Node → String → AppendEntriesArgs → AppendEntriesReply → Node
unfolding become_follower record_match back_up
handle_append_reply n peer args reply =
    if ltb n.current_term reply.term
    then become_follower n reply.term
    else if not (is_leader n.state) || not (n.current_term == args.term)
    then n
    else if reply.success
    then record_match n peer args
    else record n { next_index = insert peer (back_up n peer reply) n.next_index }

-- The loop of conflictHint from index i down to the first entry of the term.
unfoldable pub walk_back : RaftLog → ℕ → ℕ → ℕ
walk_back l t zero = zero
walk_back l t (suc i) =
    let rest = walk_back l t i in
    if ltb (u64 (l.snap_index + 1)) (suc i)
    then elim (term l i) [ err _ ↦ suc i | ok t' ↦ if t' == t then rest else suc i ]
    else suc i

unfoldable pub conflict_hint : Node → ℕ → ℕ → ℕ × ℕ
unfolding walk_back
conflict_hint n prev_log_index prev_term =
    if ltb (last_index n.log) prev_log_index
    then (u64 (last_index n.log + 1), 0)
    else (walk_back n.log prev_term prev_log_index, prev_term)

abbrev pub reject : Node → ℕ × ℕ → Node × AppendEntriesReply
reject n (i, t) =
    (n, record { term = n.current_term; success = false; conflict_index = i; conflict_term = t })

-- The end of HandleAppendEntries: take the entries over and follow the leader's commit index.
unfoldable pub accept : Node → AppendEntriesArgs → Node × AppendEntriesReply
accept n args =
    let log' = append_new n.log args.entries in
    let last_new = last_index log' in
    let n' = record n { log = log' } in
    let reply : AppendEntriesReply = record {
      term = n.current_term;
      success = true;
      conflict_index = 0;
      conflict_term = 0;
    } in
    if ltb n.commit_index args.leader_commit
    then (
      record n' {
        commit_index = if ltb args.leader_commit last_new then args.leader_commit else last_new;
        apply_sig = true;
      },
      reply,
    )
    else (n', reply)

-- The comparison of prevLogIndex and prevLogTerm with the log.
unfoldable pub check_previous : Node → AppendEntriesArgs → Node × AppendEntriesReply
check_previous n args =
    if ltb 0 args.prev_log_index
    then elim (term n.log args.prev_log_index) [
      | err _ ↦ reject n (conflict_hint n args.prev_log_index 0)
      | ok t ↦
          if t == args.prev_log_term
          then accept n args
          else reject n (conflict_hint n args.prev_log_index t)
    ]
    else accept n args

-- The node as HandleAppendEntries leaves it when it has taken the sender for the leader.
unfoldable pub recognise : Node → AppendEntriesArgs → Node
unfolding become_follower
recognise n args =
    let n' =
      if ltb n.current_term args.term || not (is_follower n.state)
      then become_follower n args.term
      else n in
    record n' { leader_id = args.leader_id; election_reset = true }

unfoldable pub handle_append_entries : Node → AppendEntriesArgs → Node × AppendEntriesReply
handle_append_entries n args =
    if ltb args.term n.current_term
    then (
      n,
      record { term = n.current_term; success = false; conflict_index = 0; conflict_term = 0 },
    )
    else check_previous (recognise n args) args
