-- ===== src/Clock/Vector/Compare.antt =====
-- Equal and Concurrent, and where increments and merges stand in the causal order.
use vault_fs.Base.{
  ◌+◌, ◌<◌, ◌≡◌, refl, ◌⊎◌, inl, inr, ◌↔◌, subst, String, Bool, true, false, [], ◌∷◌, arith, two64,
  ==_iff, if◌then◌else◌, Bool-cases, str_eq, eq_iff, eq_refl,
}
use vault_fs.GoMap.{Map, IsMap, lookup, lookup_or, contains, insert}
use vault_fs.GoMap.Laws.{lookup-insert}
use vault_fs.Clock.Vector.{
  VectorClock, at, happens_before, add_ids, same_at, equal, concurrent, increment, merge,
}
use vault_fs.Clock.Vector.Join.{at-increment, at-merge, increment-IsMap}
use vault_fs.Clock.Vector.Scan.{IsBelow, HasLess, Precedes}
use vault_fs.Clock.Vector.Order.{happens_before_cases, happens_before_iff, not_above}

contains-add_ids :
    (ids : Map Bool) (vc : VectorClock) (id : String)
    → contains id (add_ids ids vc) ≡ (if contains id ids then true else contains id vc)
unfolding add_ids contains lookup
contains-add_ids ids [] id = ground arith
contains-add_ids ids ((k, v) ∷ vc) id =
    ground
      (arith, contains-add_ids (insert k true ids) vc id, lookup-insert k id true ids, eq_iff k id)

same_at-head :
    (a b : VectorClock) (k : String) (v : Bool) (ids : Map Bool)
    → same_at a b ((k, v) ∷ ids) ≡ true
    → (at k a ≡ at k b) × (same_at a b ids ≡ true)
unfolding same_at
same_at-head a b k v ids h = ground (arith, ==_iff (at k a) (at k b))

contains-cons :
    (k id : String) (v : Bool) (ids : Map Bool)
    → contains id ((k, v) ∷ ids) ≡ (if str_eq k id then true else contains id ids)
unfolding contains lookup
contains-cons k id v ids = ground arith

same_at_all :
    (a b : VectorClock) (ids : Map Bool)
    → same_at a b ids ≡ true
    → (id : String) → contains id ids ≡ true
    → at id a ≡ at id b
same_at_all a b [] h id c = unfold contains lookup in absurd (ground arith)
same_at_all a b ((k, v) ∷ ids) h id c = elim (Bool-cases (str_eq k id)) [
  | inl same ↦ subst (λ j. at j a ≡ at j b) ((eq_iff k id).0 same) (same_at-head a b k v ids h).0
  | inr other ↦
      same_at_all a b ids (same_at-head a b k v ids h).1 id
        (ground (arith, contains-cons k id v ids))
]

all_same_at :
    (a b : VectorClock) (ids : Map Bool)
    → ((id : String) → at id a ≡ at id b)
    → same_at a b ids ≡ true
unfolding same_at
all_same_at a b [] h = refl
all_same_at a b ((k, v) ∷ ids) h = ground (arith, all_same_at a b ids h, h k)

at-absent : (id : String) (a : VectorClock) → contains id a ≡ false → at id a ≡ 0
unfolding contains lookup_or
at-absent id a h = ground arith

-- Equal says whether all counters are the same, a missing one being 0.
pub equal_iff : (a b : VectorClock) → (equal a b ≡ true) ↔ ((id : String) → at id a ≡ at id b)
unfolding equal
equal_iff a b = (
  λ h id. elim (Bool-cases (contains id (add_ids (add_ids [] a) b))) [
    | inl c ↦ same_at_all a b _ h id c
    | inr c ↦ ground (
      arith,
      contains-add_ids (add_ids [] a) b id,
      contains-add_ids [] a id,
      at-absent id a,
      at-absent id b,
    )
  ],
  all_same_at a b _,
)

equal-false : (a b : VectorClock) → HasLess a b ⊎ HasLess b a → equal a b ≡ false
unfolding HasLess
equal-false a b less = elim (Bool-cases (equal a b)) [
  | inr f ↦ f
  | inl t ↦ elim less [
    | inl (id, h) ↦ absurd (omega (arith, (equal_iff a b).0 t id))
    | inr (id, h) ↦ absurd (omega (arith, (equal_iff a b).0 t id))
  ]
]

equal-true : (a b : VectorClock) → IsBelow a b → IsBelow b a → equal a b ≡ true
unfolding IsBelow
equal-true a b le ge = (equal_iff a b).1 (λ id. omega (arith, le id, ge id))

not_before : (a b : VectorClock) → IsMap a → IsMap b → HasLess b a → happens_before a b ≡ false
unfolding Precedes
not_before a b ha hb less = elim (Bool-cases (happens_before a b)) [
  | inr f ↦ f
  | inl t ↦ absurd (not_above a b ((happens_before_iff a b ha hb).0 t).0 less)
]

same_not_before : (a b : VectorClock) → IsMap a → IsMap b → IsBelow b a → happens_before a b ≡ false
unfolding Precedes
same_not_before a b ha hb le = elim (Bool-cases (happens_before a b)) [
  | inr f ↦ f
  | inl t ↦ absurd (not_above b a le ((happens_before_iff a b ha hb).0 t).1)
]

-- Exactly one holds of two clocks: the first is before the second, the second before the first, they
-- are equal, or they are concurrent, which is to say that each has a counter above the other's.
pub concurrent_cases :
    (a b : VectorClock)
    → IsMap a
    → IsMap b
    → (Precedes a b × (happens_before b a ≡ false) × (equal a b ≡ false) × (concurrent a b ≡ false))
      ⊎ ((Precedes b a
            × (happens_before a b ≡ false)
            × (equal a b ≡ false)
            × (concurrent a b ≡ false))
          ⊎ (((equal a b ≡ true)
                × (happens_before a b ≡ false)
                × (happens_before b a ≡ false)
                × (concurrent a b ≡ false))
              ⊎ ((concurrent a b ≡ true) × HasLess a b × HasLess b a)))
unfolding Precedes
concurrent_cases a b ha hb = elim (happens_before_cases a b ha hb) [
  | inr (inl (t, p)) ↦
      inl
        (p, not_before b a hb ha p.1, equal-false a b (inl p.1), unfold concurrent in ground arith)
  | inr (inr (f, le, ge)) ↦
      let g = same_not_before b a hb ha le in
      inr (
        inr (
          inl (
            equal-true a b le ge,
            f,
            g,
            unfold concurrent in rw (f, g, equal-true a b le ge) refl,
          )))
  | inl (f, above) ↦ elim (happens_before_cases b a hb ha) [
    | inr (inl (t, p)) ↦
        inr (inl (p, f, equal-false a b (inr p.1), unfold concurrent in rw (f, t) refl))
    | inr (inr (g, le, ge)) ↦ absurd (not_above a b ge above)
    | inl (g, less) ↦
        inr
          (inr (inr (unfold concurrent in rw (f, g, equal-false a b (inl less)) refl, less, above)))
  ]
]

-- An event at a node that does not overflow its counter puts the clock after what it was.
pub increment_later :
    (id : String) (a : VectorClock)
    → IsMap a
    → at id a + 1 < two64
    → happens_before a (increment id a) ≡ true
unfolding Precedes IsBelow HasLess
increment_later id a ha fits = (happens_before_iff a (increment id a) ha (increment-IsMap id a)).1 (
  λ j. ground (arith, at-increment id j a ha, eq_iff id j),
  (id, ground (arith, at-increment id id a ha, eq_refl id)),
)

-- A merge is at or after both clocks, and at or before any clock that is.
pub merge_least :
    (a b c : VectorClock)
    → IsMap a
    → IsMap b
    → IsBelow a c
    → IsBelow b c
    → IsBelow a (merge a b) × IsBelow b (merge a b) × IsBelow (merge a b) c
unfolding IsBelow
merge_least a b c ha hb le le' = (
  λ id. ground (arith, at-merge a b id ha hb),
  λ id. ground (arith, at-merge a b id ha hb),
  λ id. ground (arith, at-merge a b id ha hb, le id, le' id),
)
