-- ===== src/Raft/Replication/Follower.antt =====
-- HandleAppendEntries: when it accepts, and what the log and the commit index are then.
use vault_fs.Base.{
  suc, ◌≤◌, ◌≡◌, refl, ◌⊎◌, inl, inr, true, false, arith, ◌∙◌, ap, sym, subst, ltb, if◌then◌else◌,
  ok, Result-cases, Bool-cases, ltb→lt, ge→ltb, ltb→ge,
}
use Prim.Native.Nat.{min}
use vault_fs.Raft.Types.{follower, AppendEntriesArgs}
use vault_fs.Raft.Log.{RaftLog, last_index, term, append_new}
use vault_fs.Raft.Log.Shape.{Indexed, IsWellFormed}
use vault_fs.Raft.Log.Access.{term_beyond}
use vault_fs.Raft.Log.Merge.{IsMerge, append_new-IsMerge}
use vault_fs.Raft.Node.{Node}
use vault_fs.Raft.Replication.{recognise, accept, check_previous, handle_append_entries}

-- The log holds the entry that the new ones follow, or they start the log.
abbrev pub Follows : RaftLog → AppendEntriesArgs → Type 0
Follows l args = (args.prev_log_index ≡ 0) ⊎ (term l args.prev_log_index ≡ ok args.prev_log_term)

pub log-recognise :
    (n : Node) (args : AppendEntriesArgs)
    → ((recognise n args).log ≡ n.log) × ((recognise n args).commit_index ≡ n.commit_index)
unfolding recognise
log-recognise n args = ground arith

pub success-accept : (n : Node) (args : AppendEntriesArgs) → (accept n args).1.success ≡ true
unfolding accept
success-accept n args = ground arith

check_previous_cases :
    (n : Node) (args : AppendEntriesArgs)
    → (((check_previous n args).1.success ≡ false) × ((check_previous n args).0 ≡ n))
      ⊎ (Follows n.log args × (check_previous n args ≡ accept n args))
unfolding check_previous
check_previous_cases n args = elim (Result-cases (term n.log args.prev_log_index)) [
  | inl (t, known) ↦ ground arith
  | inr (e, failed) ↦ ground arith
]

pub handle_current :
    (n : Node) (args : AppendEntriesArgs)
    → n.current_term ≤ args.term
    → handle_append_entries n args ≡ check_previous (recognise n args) args
unfolding handle_append_entries
handle_current n args h = rw (ge→ltb args.term n.current_term h)

-- A rejected request changes neither the log nor the commit index; an accepted one is not of an
-- older term, follows on the log, and is taken over by `accept`.
pub handle_append_entries_cases :
    (n : Node) (args : AppendEntriesArgs)
    → (((handle_append_entries n args).1.success ≡ false)
        × ((handle_append_entries n args).0.log ≡ n.log)
        × ((handle_append_entries n args).0.commit_index ≡ n.commit_index))
      ⊎ ((n.current_term ≤ args.term)
          × Follows n.log args
          × (handle_append_entries n args ≡ accept (recognise n args) args))
handle_append_entries_cases n args = elim (Bool-cases (ltb args.term n.current_term)) [
  | inl stale ↦ unfold handle_append_entries in rw stale (inl (refl, refl, refl))
  | inr current ↦
      rw (handle_current n args (ltb→ge _ _ current))
        (elim (check_previous_cases (recognise n args) args) [
          | inl (refused, same) ↦ inl (
            refused,
            ap (λ (m : Node). m.log) same ∙ (log-recognise n args).0,
            ap (λ (m : Node). m.commit_index) same ∙ (log-recognise n args).1,
          )
          | inr (follows, taken) ↦ inr (
            ltb→ge _ _ current,
            subst (λ l. Follows l args) (log-recognise n args).0 follows,
            taken,
          )
        ])
]

-- What `accept` leaves.
pub accept_lem :
    (n : Node) (args : AppendEntriesArgs)
    → ((accept n args).0.log ≡ append_new n.log args.entries)
      × ((accept n args).0.commit_index ≡ (
          if ltb n.commit_index args.leader_commit
          then min args.leader_commit (last_index (append_new n.log args.entries))
          else n.commit_index))
      × ((accept n args).0.current_term ≡ n.current_term)
      × ((accept n args).0.state ≡ n.state)
      × ((accept n args).0.leader_id ≡ n.leader_id)
unfolding accept
accept_lem n args = ground arith

-- A message as a leader builds it: the entries are numbered from behind prevLogIndex on, which the
-- follower has not compacted.
pub record IsRequestFor (n : Node) (args : AppendEntriesArgs) : Type 0 where
  pub above_snapshot : n.log.snap_index ≤ args.prev_log_index
  pub numbered : Indexed (suc args.prev_log_index) args.entries

-- The log reaches to prevLogIndex.
pub Follows-within :
    (n : Node) (args : AppendEntriesArgs)
    → IsWellFormed n.log
    → Follows n.log args
    → args.prev_log_index ≤ last_index n.log
Follows-within n args w (inl e) = omega arith
Follows-within n args w (inr e) = elim (Bool-cases (ltb (last_index n.log) args.prev_log_index)) [
  | inl past ↦ absurd (cc (e, term_beyond n.log args.prev_log_index w (ltb→lt _ _ past)))
  | inr within ↦ ltb→ge _ _ within
]

-- What an accepted request leaves.
pub record Replicated (n : Node) (args : AppendEntriesArgs) (m : Node) : Type 0 where
  pub of_term : m.current_term ≡ args.term
  pub follows : m.state ≡ follower
  pub leader : m.leader_id ≡ args.leader_id
  pub merged : IsMerge n.log args.prev_log_index args.entries m.log
  pub committed : m.commit_index ≡ (
      if ltb n.commit_index args.leader_commit
      then min args.leader_commit (last_index m.log)
      else n.commit_index)

pub recognise_lem :
    (n : Node) (args : AppendEntriesArgs)
    → n.current_term ≤ args.term
    → ((recognise n args).current_term ≡ args.term)
      × ((recognise n args).state ≡ follower)
      × ((recognise n args).leader_id ≡ args.leader_id)
unfolding recognise
recognise_lem n args h = ground arith

-- A node with a well-formed log that accepts numbered entries from above its snapshot is a
-- follower of the sender in its term; it has the leader's terms at every index that was sent and
-- its own up to prevLogIndex, in a well-formed log; and its commit index has moved up to the
-- leader's, as far as the log goes.
pub accepted_lem :
    (n : Node) (args : AppendEntriesArgs)
    → IsWellFormed n.log
    → IsRequestFor n args
    → (handle_append_entries n args).1.success ≡ true
    → Replicated n args (handle_append_entries n args).0
accepted_lem n args w r done = elim (handle_append_entries_cases n args) [
  | inl (refused, _, _) ↦ absurd (cc)
  | inr (current, follows, taken) ↦ rw taken (record {
    of_term = (accept_lem (recognise n args) args).2 ∙ (recognise_lem n args current).0;
    follows = (accept_lem (recognise n args) args).3 ∙ (recognise_lem n args current).1;
    leader = (accept_lem (recognise n args) args).4 ∙ (recognise_lem n args current).2;
    merged = subst (IsMerge n.log args.prev_log_index args.entries) (sym (log_taken n args)) (
        append_new-IsMerge n.log args.prev_log_index args.entries w r.above_snapshot
          (Follows-within n args w follows) r.numbered);
    committed = ground (arith, accept_lem (recognise n args) args, log-recognise n args);
  })
]
  where
    log_taken :
        (n : Node) (args : AppendEntriesArgs)
        → (accept (recognise n args) args).0.log ≡ append_new n.log args.entries
    log_taken n args =
        (accept_lem (recognise n args) args).0
        ∙ ap (λ l. append_new l args.entries) (log-recognise n args).0

last_applied-recognise :
    (n : Node) (args : AppendEntriesArgs) → (recognise n args).last_applied ≡ n.last_applied
unfolding recognise
last_applied-recognise n args = ground arith

last_applied-accept :
    (n : Node) (args : AppendEntriesArgs) → (accept n args).0.last_applied ≡ n.last_applied
unfolding accept
last_applied-accept n args = ground arith

pub last_applied-handle_append_entries :
    (n : Node) (args : AppendEntriesArgs)
    → (handle_append_entries n args).0.last_applied ≡ n.last_applied
last_applied-handle_append_entries n args = elim (Bool-cases (ltb args.term n.current_term)) [
  | inl stale ↦ unfold handle_append_entries in rw stale
  | inr current ↦
      rw (handle_current n args (ltb→ge _ _ current))
        (elim (check_previous_cases (recognise n args) args) [
          | inl (refused, same) ↦ rw same (last_applied-recognise n args)
          | inr (follows, taken) ↦
              rw taken (last_applied-accept (recognise n args) args ∙ last_applied-recognise n args)
        ])
]

-- The term does not fall.
pub handle_append_entries-terms :
    (n : Node) (args : AppendEntriesArgs)
    → n.current_term ≤ (handle_append_entries n args).0.current_term
handle_append_entries-terms n args = elim (Bool-cases (ltb args.term n.current_term)) [
  | inl stale ↦ unfold handle_append_entries in rw stale (omega arith)
  | inr current ↦
      let r = recognise_lem n args (ltb→ge _ _ current) in
      rw (handle_current n args (ltb→ge _ _ current))
        (elim (check_previous_cases (recognise n args) args) [
          | inl (refused, same) ↦ rw same (omega (arith, r.0, ltb→ge _ _ current))
          | inr (follows, taken) ↦
              rw taken
                (omega (arith, r.0, (accept_lem (recognise n args) args).2, ltb→ge _ _ current))
        ])
]
