-- ===== src/Raft/Node/Commit.antt =====
-- When the commit index advances: a quorum of the nodes has the entry, and it is of this term.
use vault_fs.Base.{
  ℕ, zero, suc, ◌+◌, ◌-◌, ◌≤◌, ◌<◌, ◌≡◌, refl, ◌⊎◌, true, arith, List, [], ◌∷◌, ◌∙◌, ap, leb,
  if◌then◌else◌, length, get_or, inl, inr, ok, Result-cases,
}
use vault_fs.Raft.Log.{term}
use vault_fs.Raft.Node.{Node, insert_desc, sort_desc, values, commit_quorum, advance_commit_index}

-- How many of the values are at least c.
abbrev pub count_ge : ℕ → List ℕ → ℕ
count_ge c [] = 0
count_ge c (a ∷ as') = (if leb c a then 1 else 0) + count_ge c as'

abbrev IsDesc : List ℕ → Type 0
IsDesc [] = Unit {0}
IsDesc (a ∷ []) = Unit {0}
IsDesc (a ∷ b ∷ bs) = (b ≤ a) × IsDesc (b ∷ bs)

count_ge-insert_desc :
    (c a : ℕ) (bs : List ℕ)
    → count_ge c (insert_desc a bs) ≡ (if leb c a then 1 else 0) + count_ge c bs
unfolding insert_desc
count_ge-insert_desc c a [] = refl
count_ge-insert_desc c a (b ∷ bs) = ground (arith, count_ge-insert_desc c a bs)

pub count_ge-sort_desc : (c : ℕ) (as' : List ℕ) → count_ge c (sort_desc as') ≡ count_ge c as'
unfolding sort_desc
count_ge-sort_desc c [] = refl
count_ge-sort_desc c (a ∷ as') =
    count_ge-insert_desc c a (sort_desc as')
    ∙ ap (λ n. (if leb c a then 1 else 0) + n) (count_ge-sort_desc c as')

length-insert_desc : (a : ℕ) (bs : List ℕ) → length (insert_desc a bs) ≡ suc (length bs)
unfolding insert_desc
length-insert_desc a [] = refl
length-insert_desc a (b ∷ bs) = ground (arith, length-insert_desc a bs)

pub length-sort_desc : (as' : List ℕ) → length (sort_desc as') ≡ length as'
unfolding sort_desc
length-sort_desc [] = refl
length-sort_desc (a ∷ as') = length-insert_desc a (sort_desc as') ∙ ap suc (length-sort_desc as')

insert_desc-IsDesc : (a : ℕ) (bs : List ℕ) → IsDesc bs → IsDesc (insert_desc a bs)
unfolding insert_desc
insert_desc-IsDesc a [] h = tt
insert_desc-IsDesc a (b ∷ []) h = ground arith
insert_desc-IsDesc a (b ∷ d ∷ bs) h = ground (arith, insert_desc-IsDesc a (d ∷ bs) h.1)

pub sort_desc-IsDesc : (as' : List ℕ) → IsDesc (sort_desc as')
unfolding sort_desc
sort_desc-IsDesc [] = tt
sort_desc-IsDesc (a ∷ as') = insert_desc-IsDesc a (sort_desc as') (sort_desc-IsDesc as')

-- In a falling list the value at offset k is reached by k + 1 of the values.
head_bound : (a : ℕ) (bs : List ℕ) (k : ℕ) → IsDesc (a ∷ bs) → get_or (a ∷ bs) k 0 ≤ a
head_bound a bs zero h = omega arith
head_bound a [] (suc k) h = omega arith
head_bound a (b ∷ bs) (suc k) h = omega (arith, head_bound b bs k h.1)

IsDesc-tail : (a : ℕ) (bs : List ℕ) → IsDesc (a ∷ bs) → IsDesc bs
IsDesc-tail a [] h = tt
IsDesc-tail a (b ∷ bs) h = h.1

count_ge-get_or :
    (as' : List ℕ) (k : ℕ) → IsDesc as' → k < length as' → k < count_ge (get_or as' k 0) as'
count_ge-get_or [] k h lt = absurd (omega arith)
count_ge-get_or (a ∷ as') zero h lt = ground arith
count_ge-get_or (a ∷ as') (suc k) h lt =
    ground (arith, count_ge-get_or as' k (IsDesc-tail a as' h), head_bound a as' (suc k) h)

-- And a value that k + 1 of them reach is at most it.
below_head : (c a : ℕ) (bs : List ℕ) → IsDesc (a ∷ bs) → a < c → count_ge c (a ∷ bs) ≡ 0
below_head c a [] h lt = ground arith
below_head c a (b ∷ bs) h lt = ground (arith, below_head c b bs h.1)

le-get_or : (c : ℕ) (as' : List ℕ) (k : ℕ) → IsDesc as' → k < count_ge c as' → c ≤ get_or as' k 0
le-get_or c [] k h lt = absurd (omega arith)
le-get_or c (a ∷ as') zero h lt = ground (arith, below_head c a as' h)
le-get_or c (a ∷ as') (suc k) h lt = ground (arith, le-get_or c as' k (IsDesc-tail a as' h))

quorum_pos : (n : Node) → 0 < commit_quorum n
unfolding commit_quorum
quorum_pos n = omega arith

-- The value that advanceCommitIndex takes: a quorum has reached it, and nothing above it.
candidate_index : Node → ℕ
candidate_index n = get_or (sort_desc (values n.match_index)) (commit_quorum n - 1) 0

candidate_reached :
    (n : Node)
    → commit_quorum n ≤ length (sort_desc (values n.match_index))
    → commit_quorum n ≤ count_ge (candidate_index n) (values n.match_index)
unfolding candidate_index
candidate_reached n h = omega (
  arith,
  quorum_pos n,
  count_ge-sort_desc (get_or (sort_desc (values n.match_index)) (commit_quorum n - 1) 0)
      (values n.match_index),
  count_ge-get_or (sort_desc (values n.match_index)) (commit_quorum n - 1)
      (sort_desc-IsDesc (values n.match_index)) (omega (arith, quorum_pos n)),
)

candidate_greatest :
    (n : Node) (c : ℕ) → commit_quorum n ≤ count_ge c (values n.match_index) → c ≤ candidate_index n
unfolding candidate_index
candidate_greatest n c h =
    le-get_or c (sort_desc (values n.match_index)) (commit_quorum n - 1)
      (sort_desc-IsDesc (values n.match_index))
      (omega (arith, quorum_pos n, count_ge-sort_desc c (values n.match_index)))

count_ge-le-length : (c : ℕ) (as' : List ℕ) → count_ge c as' ≤ length as'
count_ge-le-length c [] = omega arith
count_ge-le-length c (a ∷ as') = ground (arith, count_ge-le-length c as')

-- The commit index advances only to an entry of the current term that a quorum has, and nothing
-- else but the signal to the apply loop changes.
pub advance_commit_index_lem :
    (n : Node)
    → let m = advance_commit_index n in
      (m ≡ n)
      ⊎ ((n.commit_index < m.commit_index)
          × (commit_quorum n ≤ count_ge m.commit_index (values n.match_index))
          × (term n.log m.commit_index ≡ ok n.current_term)
          × (m ≡ record n { commit_index = m.commit_index; apply_sig = true }))
unfolding advance_commit_index candidate_index
advance_commit_index_lem n = elim (Result-cases (term n.log (candidate_index n))) [
  | inl (t, known) ↦ ground (arith, candidate_reached n)
  | inr (e, failed) ↦ ground arith
]

-- If, from an index above the commit index on, all that a quorum has reached is of the current
-- term, and a quorum has reached that index, then it is committed.
pub advance_commit_index_complete :
    (n : Node) (c : ℕ)
    → commit_quorum n ≤ count_ge c (values n.match_index)
    → ((j : ℕ)
        → c ≤ j
        → commit_quorum n ≤ count_ge j (values n.match_index)
        → term n.log j ≡ ok n.current_term)
    → c ≤ (advance_commit_index n).commit_index
unfolding advance_commit_index candidate_index
advance_commit_index_complete n c q current = ground (
  arith,
  candidate_reached n,
  candidate_greatest n c,
  current (candidate_index n),
  count_ge-le-length c (values n.match_index),
  length-sort_desc (values n.match_index),
)
