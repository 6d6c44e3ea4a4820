-- ===== src/Clock/Vector.antt =====
-- internal/clock/vector.go: a counter for each node; every operation makes a new map.
pub mod Scan
pub mod Order
pub mod Join
pub mod Compare
use vault_fs.Base.{
  ℕ, ◌+◌, String, Bool, true, false, not, ◌&&◌, ◌||◌, Option, none, some, List, [], ◌∷◌, u64, ltb,
  ◌==◌, if◌then◌else◌,
}
use vault_fs.GoMap.{Map, lookup_or, insert, contains}

abbrev pub VectorClock : Type 0
VectorClock = Map ℕ

-- vc[id], which is 0 where the key is missing
abbrev pub at : String → VectorClock → ℕ
at id vc = lookup_or 0 id vc

-- The loop of clone.
unfoldable pub copy_into : VectorClock → VectorClock → VectorClock
copy_into c [] = c
copy_into c ((k, v) ∷ vc) = copy_into (insert k v c) vc

unfoldable pub clone : VectorClock → VectorClock
clone vc = copy_into [] vc

unfoldable pub increment : String → VectorClock → VectorClock
increment id vc = let next = clone vc in insert id (u64 (at id next + 1)) next

-- The loop of Merge.
unfoldable pub merge_into : VectorClock → VectorClock → VectorClock
merge_into result [] = result
merge_into result ((id, val) ∷ other) =
    merge_into (if ltb (at id result) val then insert id val result else result) other

unfoldable pub merge : VectorClock → VectorClock → VectorClock
merge vc other = merge_into (clone vc) other

-- The first loop of HappensBefore; `none` is its `return false`.
unfoldable pub scan_own : VectorClock → Bool → VectorClock → Option Bool
scan_own other strict [] = some strict
scan_own other strict ((id, val) ∷ vc) =
    let rest = scan_own other (strict || ltb val (at id other)) vc in
    if ltb (at id other) val then none else rest

-- The second loop of HappensBefore.
unfoldable pub scan_other : VectorClock → Bool → VectorClock → Bool
scan_other vc strict [] = strict
scan_other vc strict ((id, val) ∷ other) =
    scan_other vc (strict || (not (contains id vc) && ltb 0 val)) other

unfoldable pub happens_before : VectorClock → VectorClock → Bool
happens_before vc other = elim (scan_own other false vc) [
  | none ↦ false
  | some strict ↦ scan_other vc strict other
]

-- The keys of a clock into the set of all keys.
unfoldable pub add_ids : Map Bool → VectorClock → Map Bool
add_ids ids [] = ids
add_ids ids ((id, val) ∷ vc) = add_ids (insert id true ids) vc

-- The last loop of Equal.
unfoldable pub same_at : VectorClock → VectorClock → Map Bool → Bool
same_at vc other [] = true
same_at vc other ((id, present) ∷ ids) =
    let rest = same_at vc other ids in if at id vc == at id other then rest else false

unfoldable pub equal : VectorClock → VectorClock → Bool
equal vc other = same_at vc other (add_ids (add_ids [] vc) other)

unfoldable pub concurrent : VectorClock → VectorClock → Bool
concurrent vc other =
    not (happens_before vc other) && not (happens_before other vc) && not (equal vc other)
