-- ===== src/Raft/Hazards.antt =====
-- Where internal/raft departs from the Raft protocol that it cites.
use vault_fs.Base.{
  ℕ, suc, ◌+◌, ◌≤◌, ◌<◌, ◌≡◌, refl, inl, inr, true, false, not, ◌&&◌, String, arith, err, sym, ◌∙◌,
  ap, List, [], ◌∷◌, ◌++◌, length, str_eq, ge→ltb, Result-cases,
}
use vault_fs.Raft.Types.{candidate, Entry, RequestVoteArgs, AppendEntriesArgs, InstallSnapshotArgs}
use vault_fs.Raft.Log.{RaftLog, compacted, term, append, append_new}
use vault_fs.Raft.Log.Shape.{IsWellFormed, Indexed}
use vault_fs.Raft.Node.{Node}
use vault_fs.Raft.Election.{handle_request_vote}
use vault_fs.Raft.Election.Votes.{IsUpToDate}
use vault_fs.Raft.Replication.{handle_append_entries, recognise, accept, check_previous}
use vault_fs.Raft.Snapshots.{handle_install_snapshot, install, acknowledge}

voted_for-check_previous :
    (n : Node) (args : AppendEntriesArgs)
    → ((check_previous n args).0.voted_for ≡ n.voted_for)
      × ((check_previous n args).0.current_term ≡ n.current_term)
unfolding check_previous accept
voted_for-check_previous n args = elim (Result-cases (term n.log args.prev_log_index)) [
  | inl (t, known) ↦ ground arith
  | inr (e, failed) ↦ ground arith
]

recognise_candidate :
    (n : Node) (args : AppendEntriesArgs)
    → n.state ≡ candidate
    → args.term ≡ n.current_term
    → ((recognise n args).voted_for ≡ "") × ((recognise n args).current_term ≡ n.current_term)
unfolding recognise
recognise_candidate n args s t = ground arith

-- A candidate that hears from a leader of its own term forgets that it has voted in that term.
pub vote_forgotten :
    (n : Node) (args : AppendEntriesArgs)
    → n.state ≡ candidate
    → args.term ≡ n.current_term
    → ((handle_append_entries n args).0.voted_for ≡ "")
      × ((handle_append_entries n args).0.current_term ≡ n.current_term)
unfolding handle_append_entries
vote_forgotten n args s t = rw (ge→ltb args.term n.current_term (omega arith)) (
  (voted_for-check_previous (recognise n args) args).0 ∙ (recognise_candidate n args s t).0,
  (voted_for-check_previous (recognise n args) args).1 ∙ (recognise_candidate n args s t).1,
)

free_to_vote :
    (voted candidate_id : String)
    → voted ≡ ""
    → (not (str_eq voted "") && not (str_eq voted candidate_id)) ≡ false
free_to_vote voted candidate_id e = rw e

unvoted_grants :
    (n : Node) (v : RequestVoteArgs)
    → n.voted_for ≡ ""
    → v.term ≡ n.current_term
    → IsUpToDate n v
    → (handle_request_vote n v).1.vote_granted ≡ true
unfolding handle_request_vote
unvoted_grants n v e t up =
    rw
      (
        ge→ltb v.term n.current_term (omega arith),
        ge→ltb n.current_term v.term (omega arith),
        free_to_vote n.voted_for v.candidate_id e,
      )
      (ground arith)

-- A candidate that hears from a leader of its own term forgets that it has voted for itself, and
-- grants a second vote in that term to any candidate whose log is up to date.
pub second_vote :
    (n : Node) (args : AppendEntriesArgs) (v : RequestVoteArgs)
    → n.state ≡ candidate
    → args.term ≡ n.current_term
    → v.term ≡ n.current_term
    → IsUpToDate (handle_append_entries n args).0 v
    → (handle_request_vote (handle_append_entries n args).0 v).1.vote_granted ≡ true
second_vote n args v s t u up =
    unvoted_grants (handle_append_entries n args).0 v (vote_forgotten n args s t).0
      (u ∙ sym (vote_forgotten n args s t).1) up

-- A follower that installs a snapshot above its own and above what it has applied ends up the same
-- whatever the contents are, and takes the index of the snapshot for applied.
pub install_ignores_contents :
    (n : Node) (args : InstallSnapshotArgs) (contents : List ℕ)
    → n.current_term ≤ args.term
    → n.log.snap_index < args.last_included_index
    → n.last_applied < args.last_included_index
    → (handle_install_snapshot n args
        ≡ handle_install_snapshot n (record args { contents = contents }))
      × ((handle_install_snapshot n args).0.last_applied ≡ args.last_included_index)
unfolding handle_install_snapshot install acknowledge
install_ignores_contents n args contents t above behind =
    (refl, rw (ge→ltb args.term n.current_term t) (ground arith))

Indexed-middle :
    (k : ℕ) (xs : List Entry) (e : Entry) (es : List Entry)
    → Indexed k (xs ++ e ∷ es)
    → e.index ≡ k + length xs
Indexed-middle k [] e es h = omega (arith, h.0)
Indexed-middle k (x ∷ xs) e es h = omega (arith, Indexed-middle (suc k) xs e es h.1)

compacted_term : (l : RaftLog) (i : ℕ) → 0 < i → i < l.snap_index → term l i ≡ err compacted
unfolding term
compacted_term l i lo hi = ground arith

append_new-compacted :
    (l : RaftLog) (e : Entry) (es : List Entry)
    → term l e.index ≡ err compacted
    → append_new l (e ∷ es) ≡ record l { entries = l.entries ++ e ∷ es }
unfolding append_new append
append_new-compacted l e es c = rw (c, append_new)

accept-log :
    (n : Node) (args : AppendEntriesArgs) → (accept n args).0.log ≡ append_new n.log args.entries
unfolding accept
accept-log n args = ground arith

from_start :
    (n : Node) (args : AppendEntriesArgs)
    → n.current_term ≤ args.term
    → args.prev_log_index ≡ 0
    → (handle_append_entries n args).0.log ≡ append_new n.log args.entries
unfolding handle_append_entries check_previous recognise
from_start n args t z =
    rw (ge→ltb args.term n.current_term t, ge→ltb 0 args.prev_log_index (omega arith))
      (accept-log (recognise n args) args ∙ ap (λ l. append_new l args.entries) (ground arith))

-- A request of no older term from the start of the log, whose first entry the follower has
-- compacted, appends that entry behind the last one, and the log has lost its documented shape.
pub late_request_breaks_log :
    (n : Node) (args : AppendEntriesArgs) (e : Entry) (es : List Entry)
    → n.current_term ≤ args.term
    → args.prev_log_index ≡ 0
    → args.entries ≡ e ∷ es
    → 0 < e.index
    → e.index < n.log.snap_index
    → ((handle_append_entries n args).0.log.entries ≡ n.log.entries ++ e ∷ es)
      × ¬ IsWellFormed (handle_append_entries n args).0.log
late_request_breaks_log n args e es t z sent lo hi =
    let taken =
      from_start n args t z
      ∙ ap (append_new n.log) sent
      ∙ append_new-compacted n.log e es (compacted_term n.log e.index lo hi) in
    rw taken (
      refl,
      λ w. absurd (omega (arith, Indexed-middle (suc n.log.snap_index) n.log.entries e es w)),
    )
