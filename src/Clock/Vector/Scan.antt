-- ===== src/Clock/Vector/Scan.antt =====
-- What the two loops of HappensBefore find.
use vault_fs.Base.{
  ℕ, ◌≤◌, ◌<◌, ◌≡◌, refl, ◌⊎◌, inl, inr, String, Bool, true, false, not, ◌&&◌, ◌||◌, Option, none,
  some, [], ◌∷◌, arith, ltb, if◌then◌else◌, Bool-cases, ltb→ge, str_eq, eq_iff, eq_refl,
}
use vault_fs.GoMap.{IsMap, lookup, lookup_or, contains}
use vault_fs.Clock.Vector.{VectorClock, at, scan_own, scan_other}

-- No counter of the one is above that of the other.
unfoldable pub IsBelow : VectorClock → VectorClock → Type 0
IsBelow a b = (id : String) → at id a ≤ at id b

-- The one has a counter that is smaller.
unfoldable pub HasLess : VectorClock → VectorClock → Type 0
HasLess a b = (id : String) × (at id a < at id b)

-- The causal order of the package comment.
unfoldable pub Precedes : VectorClock → VectorClock → Type 0
Precedes a b = IsBelow a b × HasLess a b

abbrev pub OwnStrict : VectorClock → VectorClock → Bool → Bool → Type 0
OwnStrict a b strict s =
    ((s ≡ true)
      × ((strict ≡ true) ⊎ ((id : String) × (contains id a ≡ true) × (at id a < at id b))))
    ⊎ ((s ≡ false) × (strict ≡ false) × ((id : String) → contains id a ≡ true → at id b ≤ at id a))

abbrev pub OwnScan : VectorClock → VectorClock → Bool → Option Bool → Type 0
OwnScan a b strict r =
    ((r ≡ none) × HasLess b a) ⊎ ((s : Bool) × (r ≡ some s) × IsBelow a b × OwnStrict a b strict s)

pub at-cons :
    (k id : String) (v : ℕ) (a : VectorClock)
    → at id ((k, v) ∷ a) ≡ (if str_eq k id then v else at id a)
unfolding lookup_or lookup
at-cons k id v a = ground arith

pub contains-cons :
    (k id : String) (v : ℕ) (a : VectorClock)
    → contains id ((k, v) ∷ a) ≡ (if str_eq k id then true else contains id a)
unfolding contains lookup
contains-cons k id v a = ground arith

pub at-missing : (k : String) (a : VectorClock) → lookup k a ≡ none → at k a ≡ 0
unfolding lookup_or
at-missing k a h = ground arith

pub contains-absent : (k : String) (a : VectorClock) → lookup k a ≡ none → contains k a ≡ false
unfolding contains
contains-absent k a h = ground arith

pub HasLess-cons :
    (k : String) (v : ℕ) (a b : VectorClock)
    → lookup k a ≡ none
    → HasLess b a
    → HasLess b ((k, v) ∷ a)
unfolding HasLess
HasLess-cons k v a b m (id, h) =
    (id, ground (arith, at-cons k id v a, eq_iff k id, at-missing k a m))

pub own_step :
    (k : String) (v : ℕ) (a b : VectorClock) (strict s : Bool)
    → lookup k a ≡ none
    → v ≤ at k b
    → IsBelow a b
    → OwnStrict a b (strict || ltb v (at k b)) s
    → OwnStrict ((k, v) ∷ a) b strict s
unfolding IsBelow HasLess
own_step k v a b strict s m le below (inr (sf, st, all)) = inr (
  sf,
  ground arith,
  λ id c. ground (arith, at-cons k id v a, contains-cons k id v a, eq_iff k id, all id),
)
own_step k v a b strict s m le below (inl (st, inr (id, c, h))) = inl (
  st,
  inr (
    id,
    ground (arith, contains-cons k id v a),
    ground (arith, at-cons k id v a, eq_iff k id, contains-absent k a m),
  ),
)
own_step k v a b true s m le below (inl (st, inl e)) = inl (st, inl refl)
own_step k v a b false s m le below (inl (st, inl e)) = inl (
  st,
  inr (
    k,
    ground (arith, contains-cons k k v a, eq_refl k),
    ground (arith, at-cons k k v a, eq_refl k),
  ),
)

pub scan_own_lem :
    (a b : VectorClock) (strict : Bool) → IsMap a → OwnScan a b strict (scan_own b strict a)
unfolding scan_own IsBelow
scan_own_lem [] b strict h = elim (Bool-cases strict) [
  | inl t ↦ inr (strict, refl, λ id. unfold lookup_or lookup in omega arith, inl (t, inl t))
  | inr f ↦ inr (
    strict,
    refl,
    λ id. unfold lookup_or lookup in omega arith,
    inr (f, f, λ id c. unfold contains lookup in ground arith),
  )
]
scan_own_lem ((k, v) ∷ a) b strict h = elim (Bool-cases (ltb (at k b) v)) [
  | inl above ↦
      rw above (inl (refl, unfold HasLess in (k, ground (arith, at-cons k k v a, eq_refl k))))
  | inr within ↦ rw within (elim (scan_own_lem a b (strict || ltb v (at k b)) h.1) [
    | inl (e, less) ↦ inl (e, HasLess-cons k v a b h.0 less)
    | inr (s, e, below, st) ↦ inr (
      s,
      e,
      λ id. ground (arith, at-cons k id v a, eq_iff k id, below id),
      own_step k v a b strict s h.0 (ltb→ge _ _ within) below st,
    )
  ])
]

-- The second loop: a key that only the other clock has, with a counter above zero.
abbrev pub OtherScan : VectorClock → VectorClock → Bool → Bool → Type 0
OtherScan a b strict r =
    ((r ≡ true) × ((strict ≡ true) ⊎ ((id : String) × (contains id a ≡ false) × (0 < at id b))))
    ⊎ ((r ≡ false) × (strict ≡ false) × ((id : String) → contains id a ≡ false → at id b ≡ 0))

pub other_step :
    (k : String) (v : ℕ) (a b : VectorClock) (strict r : Bool)
    → lookup k b ≡ none
    → OtherScan a b (strict || (not (contains k a) && ltb 0 v)) r
    → OtherScan a ((k, v) ∷ b) strict r
other_step k v a b strict r m (inr (rf, st, all)) =
    inr (rf, ground arith, λ id c. ground (arith, at-cons k id v b, eq_iff k id, all id))
other_step k v a b strict r m (inl (rt, inr (id, c, p))) =
    inl (rt, inr (id, c, ground (arith, at-cons k id v b, eq_iff k id, at-missing k b m)))
other_step k v a b true r m (inl (rt, inl e)) = inl (rt, inl refl)
other_step k v a b false r m (inl (rt, inl e)) =
    inl (rt, inr (k, ground arith, ground (arith, at-cons k k v b, eq_refl k)))

pub scan_other_lem :
    (a b : VectorClock) (strict : Bool) → IsMap b → OtherScan a b strict (scan_other a strict b)
unfolding scan_other
scan_other_lem a [] strict h = elim (Bool-cases strict) [
  | inl t ↦ inl (t, inl t)
  | inr f ↦ inr (f, f, λ id c. unfold lookup_or lookup in refl)
]
scan_other_lem a ((k, v) ∷ b) strict h =
    other_step k v a b strict _ h.0
      (scan_other_lem a b (strict || (not (contains k a) && ltb 0 v)) h.1)

pub at-absent : (id : String) (a : VectorClock) → contains id a ≡ false → at id a ≡ 0
unfolding contains lookup_or
at-absent id a h = ground arith
