-- ===== src/Raft/Log/Merge.antt =====
-- What the loop of HandleAppendEntries does to a well-formed log.
use vault_fs.Base.{
  length-append, length-drop, ◌<◌, get_elem?-drop, get_elem?-take, ℕ, suc, ◌+◌, ◌-◌, ◌≤◌, ◌<◌, ◌≡◌,
  refl, ap, subst, ◌∙◌, some, List, ◌++◌, arith, ok, length, get_elem?, take, drop, length-take,
  get_elem?-append_left, get_elem?-append_right,
}
use vault_fs.Raft.Types.{Entry}
use vault_fs.Raft.Log.{RaftLog, last_index, term, entry_term, append_new}
use vault_fs.Raft.Log.Shape.{
  IsWellFormed, Indexed, Indexed-append, Indexed-take, Indexed-drop, last_index_lem,
}
use vault_fs.Raft.Log.Splice.{
  splice, splice-Indexed, splice-Agrees, Agrees-get_elem?, length-splice, term_at,
  append_new-splice,
}

-- What a merge behind index `prev` does to a well-formed log.
pub record IsMerge (l : RaftLog) (prev : ℕ) (es : List Entry) (m : RaftLog) : Type 0 where
  pub well_formed : IsWellFormed m
  pub snapshot : (m.snap_index ≡ l.snap_index) × (m.snap_term ≡ l.snap_term)
  pub kept : (j : ℕ) → j ≤ prev → term m j ≡ term l j
  pub taken : (i : ℕ) {y : Entry} → get_elem? es i ≡ some y → term m (suc (prev + i)) ≡ ok y.term

-- The entries agree with the log up to index c.
abbrev pub AgreesUpTo : RaftLog → ℕ → List Entry → ℕ → Type 0
AgreesUpTo l prev es c =
    (i : ℕ) (y : Entry)
    → get_elem? es i ≡ some y
    → suc (prev + i) ≤ c
    → term l (suc (prev + i)) ≡ ok y.term

module _ (l : RaftLog) (prev : ℕ) (es : List Entry) (w : IsWellFormed l) (lo : l.snap_index ≤ prev)
    (hi : prev ≤ last_index l) (he : Indexed (suc prev) es) where
  offset : ℕ
  offset = prev - l.snap_index

  merged : RaftLog
  merged = record l { entries = take offset l.entries ++ splice (drop offset l.entries) es }

  append_new-merged : append_new l es ≡ merged
  unfolding offset merged
  append_new-merged =
      append_new-splice l es (prev - l.snap_index) (omega (arith, last_index_lem l w))
        (subst (λ n. Indexed n es) (omega arith) he)

  length_kept : length (take offset l.entries) ≡ offset
  unfolding offset
  length_kept = omega (arith, length-take (prev - l.snap_index) l.entries, last_index_lem l w)

  merged-IsWellFormed : IsWellFormed merged
  unfolding offset merged
  merged-IsWellFormed =
      Indexed-append (suc l.snap_index) (take offset l.entries) (splice (drop offset l.entries) es)
        (Indexed-take (suc l.snap_index) offset l.entries w)
        (subst (λ n. Indexed n (splice (drop offset l.entries) es)) (omega (arith, length_kept))
          (splice-Indexed (suc l.snap_index + offset) (drop offset l.entries) es
            (Indexed-drop (suc l.snap_index) offset l.entries w)
            (subst (λ n. Indexed n es) (omega arith) he)))

  term-merged_kept : (j : ℕ) → j ≤ prev → term merged j ≡ term l j
  unfolding offset merged term
  term-merged_kept j h = ground (
    arith,
    length_kept,
    get_elem?-append_left (take offset l.entries) (splice (drop offset l.entries) es)
        (j - l.snap_index - 1),
    get_elem?-take offset l.entries (j - l.snap_index - 1),
  )

  get_elem?-merged :
      (i : ℕ)
      → get_elem? merged.entries (offset + i) ≡ get_elem? (splice (drop offset l.entries) es) i
  unfolding merged
  get_elem?-merged i =
      subst
        (λ n.
          get_elem? (take offset l.entries ++ splice (drop offset l.entries) es) (n + i)
          ≡ get_elem? (splice (drop offset l.entries) es) i)
        length_kept
        (get_elem?-append_right (take offset l.entries) (splice (drop offset l.entries) es) i)

  term-merged_taken :
      (i : ℕ) {y : Entry} → get_elem? es i ≡ some y → term merged (suc (prev + i)) ≡ ok y.term
  unfolding offset merged
  term-merged_taken i {y} h =
      let r =
        Agrees-get_elem? (splice (drop offset l.entries) es) es i
          (splice-Agrees (drop offset l.entries) es) h in
      term_at merged (suc (prev + i)) (offset + i) (omega arith)
      ∙ ap entry_term (get_elem?-merged i ∙ r.1)
      ∙ ap ok r.2

  -- Numbered entries behind index prev of a well-formed log are merged so that the log stays
  -- well-formed, the terms up to prev stay, and each entry is at its index with its term.
  pub append_new-IsMerge : IsMerge l prev es (append_new l es)
  unfolding merged
  append_new-IsMerge = rw append_new-merged (record {
    well_formed = merged-IsWellFormed;
    snapshot = (refl, refl);
    kept = term-merged_kept;
    taken = term-merged_taken;
  })

  -- Where the entries agree with the log up to c, the merge does not cut it below c.
  pub last_index-append_new :
      (c : ℕ) → c ≤ last_index l → AgreesUpTo l prev es c → c ≤ last_index (append_new l es)
  unfolding merged offset
  last_index-append_new c within agree =
      rw (append_new-merged, last_index_lem merged merged-IsWellFormed)
        (omega (
          arith,
          length_kept,
          length-append (take offset l.entries) (splice (drop offset l.entries) es),
          length-drop offset l.entries,
          last_index_lem l w,
          length-splice (drop offset l.entries) es (c - prev)
              (omega (arith, length-drop (prev - l.snap_index) l.entries, last_index_lem l w))
              same_term,
        ))
    where
      same_term :
          (i : ℕ) (x y : Entry)
          → i < c - prev
          → get_elem? (drop offset l.entries) i ≡ some x
          → get_elem? es i ≡ some y
          → x.term ≡ y.term
      same_term i x y h at_x at_y = cc (
        agree i y at_y (omega arith),
        term_at l (suc (prev + i)) (prev - l.snap_index + i) (omega arith),
        get_elem?-drop (prev - l.snap_index) l.entries i,
      )
