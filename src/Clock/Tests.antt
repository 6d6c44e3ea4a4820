-- ===== src/Clock/Tests.antt =====
-- Runs of the clocks, and the theorems at concrete inputs.
use vault_fs.Base.{ℕ, ◌≡◌, refl, ◌⊎◌, ◌↔◌, String, true, false, [], ◌∷◌}
use vault_fs.GoMap.{IsMap, lookup, lookup_or, contains, insert}
use vault_fs.Clock.Vector.{
  VectorClock, at, happens_before, scan_own, scan_other, equal, add_ids, same_at, concurrent,
}
use vault_fs.Clock.Vector.Scan.{Precedes, HasLess, IsBelow}
use vault_fs.Clock.Vector.Order.{happens_before_iff}
use vault_fs.Clock.Vector.Compare.{equal_iff, concurrent_cases}

abbrev early : VectorClock
early = ("a", 1) ∷ []

abbrev left : VectorClock
left = ("a", 2) ∷ []

abbrev right : VectorClock
right = ("b", 1) ∷ ("a", 1) ∷ []

abbrev both : VectorClock
both = ("b", 1) ∷ ("a", 2) ∷ []

right-IsMap : IsMap right
unfolding lookup
right-IsMap = (refl, (refl, tt))

both-IsMap : IsMap both
unfolding lookup
both-IsMap = (refl, (refl, tt))

one-IsMap : (n : ℕ) → IsMap (("a", n) ∷ [])
unfolding lookup
one-IsMap n = (refl, tt)

run_before : happens_before early right ≡ true
unfolding happens_before scan_own scan_other lookup_or lookup contains
run_before = refl

run_before_both : happens_before right both ≡ true
unfolding happens_before scan_own scan_other lookup_or lookup contains
run_before_both = refl

run_concurrent : concurrent left right ≡ true
unfolding concurrent equal add_ids same_at happens_before scan_own scan_other lookup_or lookup
    contains insert
run_concurrent = refl

happens_before_iff_example : (happens_before early right ≡ true) ↔ Precedes early right
happens_before_iff_example = happens_before_iff early right (one-IsMap 1) right-IsMap

equal_iff_example : (equal left right ≡ true) ↔ ((id : String) → at id left ≡ at id right)
equal_iff_example = equal_iff left right

concurrent_cases_example :
    (Precedes left right
      × (happens_before right left ≡ false)
      × (equal left right ≡ false)
      × (concurrent left right ≡ false))
    ⊎ ((Precedes right left
          × (happens_before left right ≡ false)
          × (equal left right ≡ false)
          × (concurrent left right ≡ false))
        ⊎ (((equal left right ≡ true)
              × (happens_before left right ≡ false)
              × (happens_before right left ≡ false)
              × (concurrent left right ≡ false))
            ⊎ ((concurrent left right ≡ true) × HasLess left right × HasLess right left)))
concurrent_cases_example = concurrent_cases left right (one-IsMap 2) right-IsMap

left-IsBelow : IsBelow left both
unfolding Precedes happens_before scan_own scan_other lookup_or lookup contains
left-IsBelow = ((happens_before_iff left both (one-IsMap 2) both-IsMap).0 refl).0

right-IsBelow : IsBelow right both
unfolding Precedes
right-IsBelow = ((happens_before_iff right both right-IsMap both-IsMap).0 run_before_both).0
