-- ===== src/Raft/Invariant/Loop.antt =====
-- A piece of the apply loop keeps a node sound, wherever the handlers have left it.
use vault_fs.Base.{
  ℕ, suc, ◌+◌, ◌-◌, ◌≤◌, ◌≡◌, refl, inl, inr, arith, List, [], ◌∷◌, subst, ◌==◌, ◌||◌, length, take,
  drop, u64, zero, ltb, leb, if◌then◌else◌, All, Bool-cases, Bool, true, false, Result, ok, err,
}
use vault_fs.Raft.Types.{Entry}
use vault_fs.Raft.Log.{RaftLog, LogError, term, slice, len}
use vault_fs.Raft.Log.Shape.{
  Indexed, IsWellFormed, Indexed-drop, set_snapshot-IsWellFormed, snap_index-set_snapshot,
  last_index-set_snapshot,
}
use vault_fs.Raft.Node.{Node, compact_threshold}
use vault_fs.Raft.Node.Loop.{
  ApplyLoop, waiting, chosen, delivering, measured, compacting, run_piece, read_term,
}
use vault_fs.Raft.Invariant.{IsSound, IsLoopSound}

All-le :
    (a b' : ℕ) (es : List Entry) → a ≤ b' → All (λ e. e.index ≤ a) es → All (λ e. e.index ≤ b') es
All-le a b' [] h all = tt
All-le a b' (e ∷ es) h (x, all) = (omega arith, All-le a b' es h all)

-- More commits leave the loop sound.
pub commits-IsLoopSound :
    (n m : Node) (l : ApplyLoop)
    → n.commit_index ≤ m.commit_index
    → IsLoopSound n l
    → IsLoopSound m l
commits-IsLoopSound n m waiting h s = tt
commits-IsLoopSound n m (chosen from to) h s = omega arith
commits-IsLoopSound n m (delivering es) h s = All-le n.commit_index m.commit_index es h s
commits-IsLoopSound n m measured h s = tt
commits-IsLoopSound n m (compacting last t) h s = omega arith

Indexed-below :
    (n k b' : ℕ) (xs : List Entry)
    → Indexed (suc n) xs
    → n + k ≤ b'
    → All (λ e. e.index ≤ b') (take k xs)
Indexed-below n zero b' xs h le = tt
Indexed-below n (suc k) b' [] h le = tt
Indexed-below n (suc k) b' (x ∷ xs) h le =
    (omega (arith, h.0), Indexed-below (suc n) k b' xs h.1 (omega arith))

module _ (l : RaftLog) (from to : ℕ) where
  abbrev start : ℕ
  start = from - l.snap_index - 1

  abbrev end : ℕ
  end =
      if ltb (length l.entries) (to - l.snap_index - 1)
      then length l.entries
      else to - l.snap_index - 1

  end_bounded :
      (b' : ℕ)
      → to ≤ b' + 1
      → (leb to from || leb from l.snap_index || length l.entries == 0) ≡ false
      → l.snap_index + start + (end - start) ≤ b'
  end_bounded b' le some_left = ground arith

-- No entry of a slice lies behind its end.
slice-below :
    (l : RaftLog) (from to b' : ℕ)
    → IsWellFormed l
    → to ≤ b' + 1
    → All (λ e. e.index ≤ b') (slice l from to)
unfolding slice
slice-below l from to b' w le =
    elim (Bool-cases (leb to from || leb from l.snap_index || length l.entries == 0)) [
      | inl nothing ↦ rw nothing tt
      | inr some_left ↦ rw some_left (elim (Bool-cases (leb (length l.entries) (start l from to))) [
        | inl past ↦ rw past tt
        | inr within ↦ rw within (
            Indexed-below (l.snap_index + start l from to) (end l from to - start l from to) b'
              (drop (start l from to) l.entries)
              (subst (λ k. Indexed k (drop (start l from to) l.entries)) (omega arith)
                (Indexed-drop (suc l.snap_index) (start l from to) l.entries w))
              (end_bounded l from to b' le some_left))
      ])
    ]

chosen-IsSound :
    (n : Node) (more : Bool) (from to : ℕ)
    → to ≤ n.commit_index + 1
    → IsLoopSound n (if more then waiting else chosen from to)
chosen-IsSound n true from to h = tt
chosen-IsSound n false from to h = h

measured-IsSound : (n : Node) (long : Bool) → IsLoopSound n (if long then measured else waiting)
measured-IsSound n true = tt
measured-IsSound n false = tt

read_term-IsSound :
    (n : Node) (r : Result LogError ℕ)
    → n.last_applied ≤ n.commit_index
    → IsLoopSound n (read_term n.last_applied r)
read_term-IsSound n (ok t) h = h
read_term-IsSound n (err e) h = tt

pub piece-IsSound :
    (n : Node) (l : ApplyLoop) (sent : List Entry)
    → IsSound n
    → IsLoopSound n l
    → IsSound (run_piece n l sent).node
      × IsLoopSound (run_piece n l sent).node (run_piece n l sent).loop
      × ((run_piece n l sent).node.commit_index ≡ n.commit_index)
      × ((run_piece n l sent).node.current_term ≡ n.current_term)
unfolding run_piece
piece-IsSound n waiting sent s h = (
  s,
  chosen-IsSound n (leb n.commit_index n.last_applied) (u64 (n.last_applied + 1))
      (u64 (n.commit_index + 1)) (omega arith),
  refl,
  refl,
)
piece-IsSound n (chosen from to) sent s h =
    (s, slice-below n.log from to n.commit_index s.well_formed h, refl, refl)
piece-IsSound n (delivering (e ∷ es)) sent s (x, h) = (
  record {
    well_formed = s.well_formed;
    compacted_committed = s.compacted_committed;
    applied_committed = x;
    committed_logged = s.committed_logged;
  },
  h,
  refl,
  refl,
)
piece-IsSound n (delivering []) sent s h =
    (s, measured-IsSound n (leb compact_threshold (len n.log)), refl, refl)
piece-IsSound n measured sent s h =
    (s, read_term-IsSound n (term n.log n.last_applied) s.applied_committed, refl, refl)
piece-IsSound n (compacting last t) sent s h = (
  record {
    well_formed = set_snapshot-IsWellFormed n.log last t s.well_formed;
    compacted_committed =
        omega (arith, snap_index-set_snapshot n.log last t, s.compacted_committed);
    applied_committed = s.applied_committed;
    committed_logged =
        omega (arith, last_index-set_snapshot n.log last t s.well_formed, s.committed_logged);
  },
  tt,
  refl,
  refl,
)
