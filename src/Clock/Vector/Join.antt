-- ===== src/Clock/Vector/Join.antt =====
-- Copies, increments and merges, counter by counter.
use vault_fs.Base.{
  ◌+◌, ◌≡◌, refl, String, none, some, [], ◌∷◌, arith, u64, ltb, if◌then◌else◌, str_eq, eq_iff,
}
use vault_fs.GoMap.{IsMap, lookup, lookup_or, insert}
use vault_fs.GoMap.Laws.{lookup-insert, lookup_or-insert, insert-IsMap}
use vault_fs.Clock.Vector.{VectorClock, at, copy_into, clone, increment, merge_into, merge}

at-copy_into :
    (c vc : VectorClock) (id : String)
    → IsMap vc
    → lookup id (copy_into c vc) ≡ elim (lookup id vc) [ none ↦ lookup id c | some v ↦ some v ]
unfolding copy_into lookup
at-copy_into c [] id h = refl
at-copy_into c ((k, v) ∷ vc) id h =
    ground (arith, at-copy_into (insert k v c) vc id h.1, lookup-insert k id v c, eq_iff k id)

pub at-clone : (vc : VectorClock) (id : String) → IsMap vc → at id (clone vc) ≡ at id vc
unfolding clone lookup_or lookup
at-clone vc id h = ground (arith, at-copy_into [] vc id h)

copy_into-IsMap : (c vc : VectorClock) → IsMap c → IsMap (copy_into c vc)
unfolding copy_into
copy_into-IsMap c [] h = h
copy_into-IsMap c ((k, v) ∷ vc) h = copy_into-IsMap (insert k v c) vc (insert-IsMap k v c h)

pub clone-IsMap : (vc : VectorClock) → IsMap (clone vc)
unfolding clone
clone-IsMap vc = copy_into-IsMap [] vc tt

-- An increment adds one to the counter of its node, wrapping around, and leaves the others.
pub at-increment :
    (id j : String) (vc : VectorClock)
    → IsMap vc
    → at j (increment id vc) ≡ (if str_eq id j then u64 (at id vc + 1) else at j vc)
unfolding increment
at-increment id j vc h = ground (
  arith,
  lookup_or-insert 0 id j (u64 (at id (clone vc) + 1)) (clone vc),
  at-clone vc id h,
  at-clone vc j h,
)

pub increment-IsMap : (id : String) (vc : VectorClock) → IsMap (increment id vc)
unfolding increment
increment-IsMap id vc = insert-IsMap id _ (clone vc) (clone-IsMap vc)

at-merge_into :
    (a b : VectorClock) (id : String)
    → IsMap b
    → at id (merge_into a b) ≡ (if ltb (at id a) (at id b) then at id b else at id a)
unfolding merge_into lookup_or lookup
at-merge_into a [] id h = ground arith
at-merge_into a ((k, v) ∷ b) id h = ground (
  arith,
  at-merge_into a b id h.1,
  at-merge_into (insert k v a) b id h.1,
  lookup-insert k id v a,
  eq_iff k id,
)

-- The merge of two clocks has at each node the greater of their counters.
pub at-merge :
    (a b : VectorClock) (id : String)
    → IsMap a
    → IsMap b
    → at id (merge a b) ≡ (if ltb (at id a) (at id b) then at id b else at id a)
unfolding merge
at-merge a b id ha hb = ground (arith, at-merge_into (clone a) b id hb, at-clone a id ha)

merge_into-IsMap : (a b : VectorClock) → IsMap a → IsMap (merge_into a b)
unfolding merge_into
merge_into-IsMap a [] h = h
merge_into-IsMap a ((k, v) ∷ b) h =
    ground (arith, merge_into-IsMap a b h, merge_into-IsMap (insert k v a) b (insert-IsMap k v a h))

pub merge-IsMap : (a b : VectorClock) → IsMap (merge a b)
unfolding merge
merge-IsMap a b = merge_into-IsMap (clone a) b (clone-IsMap a)
