-- ===== src/Raft/Log/Splice.antt =====
-- The loop of HandleAppendEntries, whose index arithmetic implements a splice of two lists: keep
-- the longest run on which the terms agree, and from the first difference take the leader's entries.
use vault_fs.Base.{
  ==_iff, ◌<◌, ℕ, zero, suc, ◌+◌, ◌-◌, ◌≤◌, ◌<◌, ◌≡◌, refl, sym, ap, subst, ◌∙◌, some, List, [],
  ◌∷◌, ◌++◌, arith, length, get_elem?, take, drop, Bool-cases, Option-cases, ◌==◌, if◌then◌else◌,
  inl, inr, take-ge, take-append-drop, drop-ge, take-suc, drop-suc, get_elem?-none, get_elem?-some,
}
use mathlib.Core.List.{append_assoc}
use vault_fs.Raft.Types.{Entry}
use vault_fs.Raft.Log.{RaftLog, term, entry_term, append, truncate_after, append_new}
use vault_fs.Raft.Log.Shape.{Indexed}
use vault_fs.Raft.Log.Access.{term_above}

-- The abstract merge of a log suffix with the entries of a leader.
unfoldable pub splice : List Entry → List Entry → List Entry
splice xs [] = xs
splice [] (y ∷ ys) = y ∷ ys
splice (x ∷ xs) (y ∷ ys) = let rest = splice xs ys in if x.term == y.term then x ∷ rest else y ∷ ys

pub splice-Indexed :
    (n : ℕ) (xs ys : List Entry) → Indexed n xs → Indexed n ys → Indexed n (splice xs ys)
unfolding splice
splice-Indexed n xs [] hx hy = hx
splice-Indexed n [] (y ∷ ys) hx hy = hy
splice-Indexed n (x ∷ xs) (y ∷ ys) hx hy = ground (arith, splice-Indexed (suc n) xs ys hx.1 hy.1)

-- A log that already agrees with every entry is left as it is: a late RPC takes nothing away.
abbrev pub Agrees : List Entry → List Entry → Type 0
Agrees xs [] = Unit {0}
Agrees [] (y ∷ ys) = ⊥
Agrees (x ∷ xs) (y ∷ ys) = (x.term ≡ y.term) × Agrees xs ys

pub splice_agreed : (xs ys : List Entry) → Agrees xs ys → splice xs ys ≡ xs
unfolding splice
splice_agreed xs [] h = refl
splice_agreed [] (y ∷ ys) h = absurd h
splice_agreed (x ∷ xs) (y ∷ ys) h = ground (arith, splice_agreed xs ys h.1)

pub Agrees-refl : (zs : List Entry) → Agrees zs zs
Agrees-refl [] = tt
Agrees-refl (z ∷ zs) = (refl, Agrees-refl zs)

pub splice-Agrees : (xs ys : List Entry) → Agrees (splice xs ys) ys
unfolding splice
splice-Agrees xs [] = tt
splice-Agrees [] (y ∷ ys) = Agrees-refl (y ∷ ys)
splice-Agrees (x ∷ xs) (y ∷ ys) = elim (Bool-cases (x.term == y.term)) [
  | inl same ↦ rw same (ground arith, splice-Agrees xs ys)
  | inr other ↦ rw other (Agrees-refl (y ∷ ys))
]

-- The merged list has the leader's term wherever the leader sent an entry.
pub Agrees-get_elem? :
    (xs ys : List Entry) (i : ℕ) {y : Entry}
    → Agrees xs ys
    → get_elem? ys i ≡ some y
    → (x : Entry) × (get_elem? xs i ≡ some x) × (x.term ≡ y.term)
Agrees-get_elem? xs [] i a h = absurd (cc)
Agrees-get_elem? [] (z ∷ zs) i a h = absurd a
Agrees-get_elem? (x ∷ xs) (z ∷ zs) zero a h = (x, refl, ground arith)
Agrees-get_elem? (x ∷ xs) (z ∷ zs) (suc i) a h = Agrees-get_elem? xs zs i a.1 h

-- Where the first k entries agree, the merge keeps at least k.
pub length-splice :
    (xs ys : List Entry) (k : ℕ)
    → k ≤ length xs
    → ((i : ℕ) (x y : Entry)
        → i < k
        → get_elem? xs i ≡ some x
        → get_elem? ys i ≡ some y
        → x.term ≡ y.term)
    → k ≤ length (splice xs ys)
unfolding splice
length-splice xs ys zero h agree = omega arith
length-splice xs [] (suc k) h agree = h
length-splice [] (y ∷ ys) (suc k) h agree = absurd (omega arith)
length-splice (x ∷ xs) (y ∷ ys) (suc k) h agree =
    let rest =
      length-splice xs ys k (omega arith) (λ i a b lt p q. agree (suc i) a b (omega arith) p q) in
    rw ((==_iff x.term y.term).1 (agree 0 x y (omega arith) refl refl)) (omega (arith, rest))

-- In a well-formed log the entry at offset k has the index snap_index + 1 + k.
pub term_at :
    (l : RaftLog) (i k : ℕ)
    → i ≡ suc (l.snap_index + k)
    → term l i ≡ entry_term (get_elem? l.entries k)
term_at l i k e =
    term_above l i (omega arith) ∙ ap (λ n. entry_term (get_elem? l.entries n)) (omega arith)

pub truncate_at :
    (l : RaftLog) (i k : ℕ)
    → i ≡ suc (l.snap_index + k)
    → k < length l.entries
    → truncate_after l i ≡ record l { entries = take k l.entries }
unfolding truncate_after
truncate_at l i k e h = ground (arith, ap (λ n. take n l.entries) (offset i k l.snap_index e))
  where
    offset : (i k s : ℕ) → i ≡ suc (s + k) → i - s - 1 ≡ k
    offset i k s e = omega arith

-- The loop at offset k of the array.
pub append_new-splice :
    (l : RaftLog) (es : List Entry) (k : ℕ)
    → k ≤ length l.entries
    → Indexed (suc (l.snap_index + k)) es
    → append_new l es ≡ record l { entries = take k l.entries ++ splice (drop k l.entries) es }
unfolding append_new splice append
append_new-splice l [] k h he =
    ap (λ xs. record l { entries = xs }) (sym (take-append-drop k l.entries))
append_new-splice l (e ∷ es) k h he = elim (Option-cases (get_elem? l.entries k)) [
  | inl missing ↦
      rw (term_at l e.index k he.0 ∙ ap entry_term missing, append_new)
        (kept_whole (get_elem?-none l.entries k missing))
  | inr (x, found) ↦
      rw (term_at l e.index k he.0 ∙ ap entry_term found, append_new, drop-suc l.entries k found)
        (elim (Bool-cases (x.term == e.term)) [
          | inl same ↦ rw same (
              append_new-splice l es (suc k) (get_elem?-some l.entries k found) he'
              ∙ ap (λ xs. record l { entries = xs }) (regroup x found))
          | inr other ↦
              rw (other, truncate_at l e.index k he.0 (get_elem?-some l.entries k found)) refl
        ])
]
  where
    he' : Indexed (suc (l.snap_index + suc k)) es
    he' = subst (λ n. Indexed n es) (omega arith) he.1

    regroup :
        (x : Entry)
        → get_elem? l.entries k ≡ some x
        → take (suc k) l.entries ++ splice (drop (suc k) l.entries) es
          ≡ take k l.entries ++ x ∷ splice (drop (suc k) l.entries) es
    regroup x found =
        rw (take-suc l.entries k found)
          (append_assoc (take k l.entries) (x ∷ []) (splice (drop (suc k) l.entries) es))

    kept_whole :
        length l.entries ≤ k
        → append l (e ∷ es)
          ≡ record l { entries = take k l.entries ++ splice (drop k l.entries) (e ∷ es) }
    kept_whole over = rw (take-ge k l.entries over, drop-ge k l.entries over)
