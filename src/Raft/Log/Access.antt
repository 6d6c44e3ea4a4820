-- ===== src/Raft/Log/Access.antt =====
-- What `term` and `slice` return, before and after the log is cut at either end.
use vault_fs.Base.{
  ◌∙◌, ℕ, zero, suc, ◌+◌, ◌-◌, ◌≤◌, ◌<◌, ◌≡◌, refl, ap, none, List, [], arith, ok, err, length,
  take-ge, tests, get_elem?, take, drop, length-take, length-drop, Bool-cases, ltb, ◌==◌,
  if◌then◌else◌, get_elem?-take, get_elem?-drop, get_elem?-ge, get_elem?-lt, inl, inr, drop-ge, sym,
  true,
}
use vault_fs.Raft.Types.{Entry}
use vault_fs.Raft.Log.{
  RaftLog, compacted, index_not_found, last_index, term, entry_term, truncate_after, set_snapshot,
  slice,
}
use vault_fs.Raft.Log.Shape.{IsWellFormed, last_index_lem}

-- Above the snapshot `term` reads the array.
pub term_above :
    (l : RaftLog) (i : ℕ)
    → l.snap_index < i
    → term l i ≡ entry_term (get_elem? l.entries (i - l.snap_index - 1))
unfolding term
term_above l i h = ground arith

-- An index has a term exactly where it is 0 or lies in the log.
pub term_known :
    (l : RaftLog) (i : ℕ)
    → IsWellFormed l
    → l.snap_index ≤ i
    → i ≤ last_index l
    → (t : ℕ) × (term l i ≡ ok t)
term_known l i w lo hi = elim (Bool-cases (i == l.snap_index)) [
  | inl same ↦ at_snapshot same
  | inr above ↦
      let r = get_elem?-lt l.entries (i - l.snap_index - 1) (ground (arith, last_index_lem l w)) in
      (r.0.term, term_above l i (ground arith) ∙ ap entry_term r.1)
]
  where
    at_snapshot : (i == l.snap_index) ≡ true → (t : ℕ) × (term l i ≡ ok t)
    at_snapshot e = elim (Bool-cases (i == 0)) [
      | inl z ↦ (0, unfold term in rw z)
      | inr s ↦ (l.snap_term, unfold term in rw (s, e))
    ]

-- Past the end there is no term.
pub term_beyond :
    (l : RaftLog) (i : ℕ) → IsWellFormed l → last_index l < i → term l i ≡ err index_not_found
term_beyond l i w h =
    term_above l i (omega (arith, last_index_lem l w))
    ∙ ap entry_term
        (get_elem?-ge l.entries (i - l.snap_index - 1) (omega (arith, last_index_lem l w)))

-- TruncateAfter(i) removes the indices from i on and keeps the others.
pub term-truncate_after :
    (l : RaftLog) (i j : ℕ)
    → l.snap_index < i
    → 0 < j
    → term (truncate_after l i) j ≡ (if ltb j i then term l j else err index_not_found)
unfolding term truncate_after
term-truncate_after l i j hi hj = ground (
  arith,
  get_elem?-take (i - l.snap_index - 1) l.entries (j - l.snap_index - 1),
  get_elem?-ge (take (i - l.snap_index - 1) l.entries) (j - l.snap_index - 1),
  get_elem?-ge l.entries (j - l.snap_index - 1),
  length-take (i - l.snap_index - 1) l.entries,
)

shifted : (a b c : ℕ) → b < a → c < b → b - c + (a - b - 1) ≡ a - c - 1
shifted a b c h k = omega arith

drop_shifted :
    (xs : List Entry) (i j s : ℕ)
    → s < i
    → i < j
    → get_elem? (drop (i - s) xs) (j - i - 1) ≡ get_elem? xs (j - s - 1)
drop_shifted xs i j s h k =
    get_elem?-drop (i - s) xs (j - i - 1) ∙ ap (get_elem? xs) (shifted j i s k h)

-- SetSnapshot(i, t), where t is the term of an index i above the snapshot, loses the terms below i
-- and keeps the others.
pub term-set_snapshot :
    (l : RaftLog) (i t j : ℕ)
    → l.snap_index < i
    → term l i ≡ ok t
    → term (set_snapshot l i t) j
      ≡ (if j == 0 then ok 0 else if ltb j i then err compacted else term l j)
unfolding term set_snapshot
term-set_snapshot l i t j hi known =
    ground (
      arith,
      drop_shifted l.entries i j l.snap_index,
      get_elem?-ge l.entries (j - l.snap_index - 1),
    )

gap : (a b s : ℕ) → s < a → b - s - 1 - (a - s - 1) ≡ b - a
gap a b s h = omega arith

moved : (a k s : ℕ) → s < a → a - s - 1 + k ≡ a + k - s - 1
moved a k s h = omega arith

take_zero : (n : ℕ) (xs : List Entry) → n ≡ 0 → take n xs ≡ []
take_zero zero xs h = refl
take_zero (suc n) xs h = absurd (omega arith)

take_nil : (n : ℕ) (xs : List Entry) → xs ≡ [] → take n xs ≡ []
take_nil zero xs h = refl
take_nil (suc n) xs h = rw h

-- Clipping the end of a range to the length of the array changes nothing.
clip :
    (xs : List Entry) (m n : ℕ)
    → take ((if ltb (length xs) n then length xs else n) - m) (drop m xs) ≡ take (n - m) (drop m xs)
clip xs m n = elim (Bool-cases (ltb (length xs) n)) [
  | inl past ↦ rw past (
      take-ge (length xs - m) (drop m xs) (omega (arith, length-drop m xs))
      ∙ sym (take-ge (n - m) (drop m xs) (omega (tests, length-drop m xs))))
  | inr within ↦ rw within
]

-- Slice(from, to) is the array from `from` on, cut to the requested number of entries.
pub slice_lem :
    (l : RaftLog) (from to : ℕ)
    → l.snap_index < from
    → slice l from to ≡ take (to - from) (drop (from - l.snap_index - 1) l.entries)
unfolding slice
slice_lem l from to h = ground (
  arith,
  clip l.entries (from - l.snap_index - 1) (to - l.snap_index - 1),
  take_zero (to - from) (drop (from - l.snap_index - 1) l.entries),
  take_nil (to - from) (drop (from - l.snap_index - 1) l.entries),
  drop-ge (from - l.snap_index - 1) l.entries,
  ap (λ n. take n (drop (from - l.snap_index - 1) l.entries)) (gap from to l.snap_index h),
)

-- Slice(from, to) holds the entries from, from + 1, … below to, as far as the log goes.
pub get_elem?-slice :
    (l : RaftLog) (from to k : ℕ)
    → l.snap_index < from
    → get_elem? (slice l from to) k
      ≡ (if ltb (from + k) to then get_elem? l.entries (from + k - l.snap_index - 1) else none)
get_elem?-slice l from to k h = rw (slice_lem l from to h) (
    ground (
      arith,
      get_elem?-take (to - from) (drop (from - l.snap_index - 1) l.entries) k,
      get_elem?-drop (from - l.snap_index - 1) l.entries k,
      get_elem?-ge (take (to - from) (drop (from - l.snap_index - 1) l.entries)) k,
      length-take (to - from) (drop (from - l.snap_index - 1) l.entries),
      ap (get_elem? l.entries) (moved from k l.snap_index h),
    ))
