-- ===== src/Raft/Node/Apply.antt =====
-- The apply loop sends every committed entry once, in the order of the log.
use vault_fs.Base.{
  ℕ, suc, ◌+◌, ◌-◌, ◌≤◌, ◌<◌, ◌≡◌, refl, ◌∙◌, arith, List, [], ◌∷◌, ◌++◌, length, get_elem?, take,
  drop, two64, leb, Bool-cases, inl, inr,
}
use vault_fs.Raft.Types.{Entry}
use vault_fs.Raft.Log.{last_index}
use vault_fs.Raft.Log.Shape.{Indexed, IsWellFormed}
use vault_fs.Raft.Node.{Node, deliver, compact, apply_committed}

deliver-terms :
    (n : Node) (sent es : List Entry) → (deliver n sent es).0.current_term ≡ n.current_term
unfolding deliver
deliver-terms n sent [] = refl
deliver-terms n sent (e ∷ es) =
    deliver-terms (record n { last_applied = e.index }) (sent ++ e ∷ []) es

compact-terms : (n : Node) → (compact n).current_term ≡ n.current_term
unfolding compact
compact-terms n = ground arith

-- The apply loop leaves the term alone.
pub apply_committed-terms : (n : Node) → (apply_committed n).0.current_term ≡ n.current_term
apply_committed-terms n = elim (Bool-cases (leb n.commit_index n.last_applied)) [
  | inl done ↦ unfold apply_committed in rw done
  | inr more ↦ unfold apply_committed in rw more (compact-terms _ ∙ deliver-terms n [] _)
]

pub record Delivery (n : Node) (m : Node) (sent : List Entry) : Type 0 where
  pub in_order : Indexed (suc n.last_applied) sent
  pub all_sent : length sent ≡ n.commit_index - n.last_applied
  pub from_log :
      (k : ℕ)
      → k < length sent
      → get_elem? sent k ≡ get_elem? n.log.entries (n.last_applied - n.log.snap_index + k)
  pub applied : m.last_applied ≡ n.commit_index
  pub committed : m.commit_index ≡ n.commit_index
  pub well_formed : IsWellFormed m.log
  pub compacted : m.log.snap_index ≤ m.last_applied
  pub reaches : last_index m.log ≡ last_index n.log

module _ (n : Node) (w : IsWellFormed n.log) (above : n.log.snap_index ≤ n.last_applied)
    (behind : n.last_applied < n.commit_index) (within : n.commit_index ≤ last_index n.log)
    (fits : n.commit_index + 1 < two64) where
  offset : ℕ
  offset = n.last_applied - n.log.snap_index

  pending : List Entry
  pending = take (n.commit_index - n.last_applied) (drop offset n.log.entries)

  delivered : Node
  delivered = record n { last_applied = n.commit_index }
