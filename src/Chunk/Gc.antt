-- ===== src/Chunk/Gc.antt =====
-- internal/chunk/gc.go. The reference checker that the master implements is an argument, and so is
-- the time; the context is not cancelled.
pub mod Sweep
pub mod Timers
use vault_fs.Base.{ℕ, ◌-◌, String, Bool, true, false, not, List, [], ◌∷◌, leb, if◌then◌else◌}
use vault_fs.GoMap.{Map, lookup_or, insert, erase, contains}
use vault_fs.Chunk.Store.{Store, list_chunks, delete_chunk}

pub record Gc : Type 0 where
  pub grace : ℕ
  pub orphaned_at : Map ℕ

abbrev pub new_gc : ℕ → Gc
new_gc grace = record { grace = grace; orphaned_at = [] }

-- What one chunk does to the store and to the orphan timers.
unfoldable pub collect_one : (String → Bool) → ℕ → Gc → Store → String → Gc × Store
collect_one is_referenced now g store id =
    if is_referenced id
    then (record g { orphaned_at = erase id g.orphaned_at }, store)
    else let first = lookup_or now id g.orphaned_at in
      let timed =
        if contains id g.orphaned_at then g.orphaned_at else insert id now g.orphaned_at in
      if not (leb g.grace (now - first))
      then (record g { orphaned_at = timed }, store)
      else (record g { orphaned_at = erase id timed }, (delete_chunk false store id).0)

-- The loop of Sweep over the chunks.
unfoldable pub collect : (String → Bool) → ℕ → Gc → Store → List String → Gc × Store
collect is_referenced now g store [] = (g, store)
collect is_referenced now g store (id ∷ ids) =
    let (g', store') = collect_one is_referenced now g store id in
    collect is_referenced now g' store' ids

-- The set of the chunks that the sweep has seen.
unfoldable pub live_set : List String → Map Bool → Map Bool
live_set [] live = live
live_set (id ∷ ids) live = live_set ids (insert id true live)

-- The loop that forgets the timers of chunks that are gone.
unfoldable pub forget : Map Bool → Map ℕ → Map ℕ
forget live [] = []
forget live ((id, first) ∷ timers) =
    let rest = forget live timers in if contains id live then (id, first) ∷ rest else rest

unfoldable pub sweep_chunks : (String → Bool) → ℕ → Gc → Store → Gc × Store
unfolding collect live_set forget
sweep_chunks is_referenced now g store =
    let ids = list_chunks store in
    let (g', store') = collect is_referenced now g store ids in
    (record g' { orphaned_at = forget (live_set ids []) g'.orphaned_at }, store')
