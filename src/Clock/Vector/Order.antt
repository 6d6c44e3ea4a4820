-- ===== src/Clock/Vector/Order.antt =====
-- HappensBefore decides the pointwise order of the counters.
use vault_fs.Base.{◌≡◌, refl, ◌⊎◌, inl, inr, ◌↔◌, Bool, true, false, arith, Bool-cases}
use vault_fs.GoMap.{IsMap, contains}
use vault_fs.Clock.Vector.{VectorClock, scan_other, happens_before}
use vault_fs.Clock.Vector.Scan.{
  IsBelow, HasLess, Precedes, OwnStrict, scan_own_lem, OtherScan, scan_other_lem, at-absent,
}

decided :
    (a b : VectorClock) (s : Bool)
    → IsBelow a b
    → OwnStrict a b false s
    → OtherScan a b s (scan_other a s b)
    → ((scan_other a s b ≡ true) × (IsBelow a b × HasLess a b))
      ⊎ ((scan_other a s b ≡ false) × IsBelow a b × IsBelow b a)
unfolding HasLess IsBelow
decided a b s below own (inl (r, inr (id, c, p))) =
    inl (r, (below, (id, ground (arith, at-absent id a c))))
decided a b s below (inl (st, inr (id, c, p))) (inl (r, inl e)) = inl (r, (below, (id, p)))
decided a b s below (inl (st, inl f)) o = absurd (ground arith)
decided a b s below (inr (sf, st, all)) (inl (r, inl e)) = absurd (ground arith)
decided a b s below (inr (sf, st, all)) (inr (r, se, none_other)) = inr (
  r,
  below,
  λ id. elim (Bool-cases (contains id a)) [
    | inl c ↦ all id c
    | inr c ↦ ground (arith, none_other id c)
  ],
)
decided a b s below (inl (st, inr (id, c, p))) (inr (r, se, none_other)) = absurd (ground arith)

-- Of two clocks, the first has a counter above the second, or HappensBefore says whether the second
-- has one above the first.
pub happens_before_cases :
    (a b : VectorClock)
    → IsMap a
    → IsMap b
    → ((happens_before a b ≡ false) × HasLess b a)
      ⊎ (((happens_before a b ≡ true) × Precedes a b)
          ⊎ ((happens_before a b ≡ false) × IsBelow a b × IsBelow b a))
unfolding Precedes happens_before HasLess IsBelow
happens_before_cases a b ha hb = elim (scan_own_lem a b false ha) [
  | inl (e, less) ↦ rw (happens_before, e) (inl (refl, less))
  | inr (s, e, below, st) ↦
      rw (happens_before, e) (inr (decided a b s below st (scan_other_lem a b s hb)))
]

pub not_above : (a b : VectorClock) → IsBelow a b → ¬ HasLess b a
unfolding IsBelow HasLess
not_above a b le (id, h) = omega (arith, le id)

joined : (a b c : VectorClock) → Precedes a b → Precedes b c → Precedes a c
unfolding Precedes IsBelow HasLess
joined a b c (le, (id, h)) (le', less) =
    (λ j. omega (arith, le j, le' j), (id, omega (arith, le' id)))

-- HappensBefore decides the causal order of two clocks: no counter of the first is above that of
-- the second, and one is below.
pub happens_before_iff :
    (a b : VectorClock) → IsMap a → IsMap b → (happens_before a b ≡ true) ↔ Precedes a b
unfolding Precedes
happens_before_iff a b ha hb = elim (happens_before_cases a b ha hb) [
  | inl (f, above) ↦ (λ t. absurd (ground arith), λ p. absurd (not_above a b p.0 above))
  | inr (inl (t, p)) ↦ (λ _. p, λ _. t)
  | inr (inr (f, le, ge)) ↦ (λ t. absurd (ground arith), λ p. absurd (not_above b a ge p.1))
]

-- HappensBefore is transitive, and if one clock is before another then the other is not before it.
pub happens_before_trans :
    (a b c : VectorClock)
    → IsMap a
    → IsMap b
    → IsMap c
    → happens_before a b ≡ true
    → happens_before b c ≡ true
    → (happens_before a c ≡ true) × (happens_before b a ≡ false)
unfolding Precedes
happens_before_trans a b c ha hb hc p q =
    let x = (happens_before_iff a b ha hb).0 p in
    let y = (happens_before_iff b c hb hc).0 q in
    (
      (happens_before_iff a c ha hc).1 (joined a b c x y),
      elim (Bool-cases (happens_before b a)) [
        | inr f ↦ f
        | inl t ↦ absurd (not_above b a (((happens_before_iff b a hb ha).0 t).0) x.1)
      ],
    )
