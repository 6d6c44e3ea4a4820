-- ===== src/Chunk/Gc/Timers.antt =====
-- The orphan timers over the sweeps of a collector, and what they say of a chunk that is deleted.
use vault_fs.Base.{
  ℕ, ◌-◌, ◌≤◌, ◌≡◌, ◌⊎◌, refl, inl, inr, ◌∙◌, ap, subst, String, Bool, true, false, ◌&&◌, ◌||◌,
  Option, none, some, List, [], ◌∷◌, arith, if◌then◌else◌, Bool-cases, Option-cases, str_eq, eq_iff,
  eq_refl, All,
}
use vault_fs.GoMap.{Map, IsMap, lookup, lookup_or, insert, contains, listed}
use vault_fs.GoMap.Laws.{lookup-insert, lookup-erase}
use vault_fs.Chunk.Store.{Store, valid, valid_names, list_chunks}
use vault_fs.Chunk.Gc.{Gc, new_gc, collect_one, collect, live_set, forget, sweep_chunks}
use vault_fs.Chunk.Gc.Sweep.{
  IsDistinct, is_due, is_due-other, collect_one-other, listed-valid_names, valid_names-IsDistinct,
  sweep_chunks_lem,
}

lookup-forget :
    (live : Map Bool) (timers : Map ℕ) (j : String)
    → lookup j (forget live timers) ≡ (if contains j live then lookup j timers else none)
unfolding forget lookup
lookup-forget live [] j = ground arith
lookup-forget live ((k, first) ∷ timers) j = ground (arith, lookup-forget live timers j, eq_iff k j)

contains-live_set :
    (ids : List String) (live : Map Bool) (j : String)
    → contains j (live_set ids live) ≡ (listed j ids || contains j live)
unfolding live_set contains
contains-live_set [] live j = refl
contains-live_set (id ∷ ids) live j =
    ground (arith, contains-live_set ids (insert id true live) j, lookup-insert id j true live)

module _ (is_referenced : String → Bool) (now : ℕ) where
  -- The timer of a chunk that is seen: it runs on only while the chunk is an orphan that is not due.
  abbrev timer : Gc → String → Option ℕ
  timer g j =
      if is_referenced j || is_due is_referenced now g j
      then none
      else some (lookup_or now j g.orphaned_at)

  collect_one-timer :
      (g : Gc) (store : Store) (id : String)
      → lookup id (collect_one is_referenced now g store id).0.orphaned_at ≡ timer g id
  unfolding collect_one is_due contains lookup_or
  collect_one-timer g store id = ground (
    arith,
    lookup-insert id id now g.orphaned_at,
    lookup-erase id id g.orphaned_at,
    lookup-erase id id (insert id now g.orphaned_at),
    eq_refl id,
  )

  collect_one-grace :
      (g : Gc) (store : Store) (id : String)
      → (collect_one is_referenced now g store id).0.grace ≡ g.grace
  unfolding collect_one
  collect_one-grace g store id = ground arith

  collect-grace :
      (g : Gc) (store : Store) (ids : List String)
      → (collect is_referenced now g store ids).0.grace ≡ g.grace
  unfolding collect
  collect-grace g store [] = refl
  collect-grace g store (id ∷ ids) =
      let (g', store') = collect_one is_referenced now g store id in
      collect-grace g' store' ids ∙ collect_one-grace g store id

  collect-unseen :
      (g : Gc) (store : Store) (ids : List String) (j : String)
      → listed j ids ≡ false
      → lookup j (collect is_referenced now g store ids).0.orphaned_at ≡ lookup j g.orphaned_at
  unfolding collect
  collect-unseen g store [] j h = refl
  collect-unseen g store (id ∷ ids) j h =
      let (g', store') = collect_one is_referenced now g store id in
      collect-unseen g' store' ids j (ground arith)
      ∙ (collect_one-other is_referenced now g store id j (ground arith)).0

  timer-other :
      (g : Gc) (store : Store) (id j : String)
      → str_eq id j ≡ false
      → timer (collect_one is_referenced now g store id).0 j ≡ timer g j
  unfolding lookup_or
  timer-other g store id j ne = ground (
    arith,
    is_due-other is_referenced now g store id j ne,
    collect_one-other is_referenced now g store id j ne,
  )

  collect-timer :
      (g : Gc) (store : Store) (ids : List String) (j : String)
      → IsDistinct ids
      → listed j ids ≡ true
      → lookup j (collect is_referenced now g store ids).0.orphaned_at ≡ timer g j
  unfolding collect
  collect-timer g store [] j d h = absurd (ground arith)
  collect-timer g store (id ∷ ids) j d h =
      let (g', store') = collect_one is_referenced now g store id in
      elim (Bool-cases (str_eq id j)) [
        | inl same ↦
            subst
              (λ k. lookup k (collect is_referenced now g' store' ids).0.orphaned_at ≡ timer g k)
              ((eq_iff id j).0 same)
              (collect-unseen g' store' ids id d.0 ∙ collect_one-timer g store id)
        | inr apart ↦
            collect-timer g' store' ids j d.1 (ground arith) ∙ timer-other g store id j apart
      ]

  sweep-grace :
      (g : Gc) (store : Store) → (sweep_chunks is_referenced now g store).0.grace ≡ g.grace
  unfolding sweep_chunks
  sweep-grace g store = collect-grace g store (list_chunks store)

  -- After a sweep only the chunks of the store have timers, and of these only the orphans that are
  -- not due.
  pub sweep_timers_lem :
      (g : Gc) (store : Store) (j : String)
      → IsMap store.files
      → lookup j (sweep_chunks is_referenced now g store).0.orphaned_at
        ≡ (if valid j && contains j store.files then timer g j else none)
  unfolding sweep_chunks list_chunks contains lookup
  sweep_timers_lem g store j w = elim (Bool-cases (listed j (valid_names store.files))) [
    | inl seen ↦ ground (
      arith,
      lookup-forget (live_set (valid_names store.files) [])
          (collect is_referenced now g store (valid_names store.files)).0.orphaned_at j,
      contains-live_set (valid_names store.files) [] j,
      listed-valid_names store.files j,
      collect-timer g store (valid_names store.files) j (valid_names-IsDistinct store.files w) seen,
    )
    | inr unseen ↦ ground (
      arith,
      lookup-forget (live_set (valid_names store.files) [])
          (collect is_referenced now g store (valid_names store.files)).0.orphaned_at j,
      contains-live_set (valid_names store.files) [] j,
      listed-valid_names store.files j,
    )
  ]

-- One sweep: what the namespace refers to, the time, and the store as it is then.
pub record SweepAt : Type 0 where
  pub is_referenced : String → Bool
  pub now : ℕ
  pub store : Store

-- A new collector after its sweeps, the last one first. The store may change between them.
unfoldable pub run_sweeps : ℕ → List SweepAt → Gc
run_sweeps grace [] = new_gc grace
run_sweeps grace (s ∷ before) =
    (sweep_chunks s.is_referenced s.now (run_sweeps grace before) s.store).0

-- There was a sweep at time t, and it and each one since then found the chunk in the store and no
-- file that has it.
abbrev pub OrphanSince : String → ℕ → List SweepAt → Type 0
OrphanSince j t [] = ⊥
OrphanSince j t (s ∷ before) =
    (s.is_referenced j ≡ false)
    × (contains j s.store.files ≡ true)
    × ((s.now ≡ t) ⊎ OrphanSince j t before)

run_sweeps-grace : (grace : ℕ) (sweeps : List SweepAt) → (run_sweeps grace sweeps).grace ≡ grace
unfolding run_sweeps
run_sweeps-grace grace [] = refl
run_sweeps-grace grace (s ∷ before) =
    sweep-grace s.is_referenced s.now (run_sweeps grace before) s.store
    ∙ run_sweeps-grace grace before

timer-OrphanSince :
    (grace : ℕ) (sweeps : List SweepAt) (j : String) (t : ℕ)
    → All (λ s. IsMap s.store.files) sweeps
    → lookup j (run_sweeps grace sweeps).orphaned_at ≡ some t
    → OrphanSince j t sweeps
unfolding run_sweeps lookup lookup_or
timer-OrphanSince grace [] j t w h = absurd (ground arith)
timer-OrphanSince grace (s ∷ before) j t (m, w) h =
    let g = run_sweeps grace before in
    let after = sweep_timers_lem s.is_referenced s.now g s.store j m in
    elim (Option-cases (lookup j g.orphaned_at)) [
      | inl new ↦ (ground (arith, after), ground (arith, after), inl (ground (arith, after)))
      | inr (u, old) ↦
          let same : u ≡ t = ground (arith, after) in
          (
            ground (arith, after),
            ground (arith, after),
            inr (timer-OrphanSince grace before j t w (old ∙ ap some same)),
          )
    ]

-- A chunk that a sweep of a collector deletes has been an orphan for the grace period, where all sweeps
-- since the collector was made have run to their end: there was a sweep, this one or one before it,
-- at a time at least the grace period before now, and that sweep and each one since then, this one
-- included, found the chunk in the store and in no file of the namespace.
pub collected_lem :
    (grace : ℕ) (s : SweepAt) (before : List SweepAt) (j : String)
    → All (λ s. IsMap s.store.files) (s ∷ before)
    → contains j s.store.files ≡ true
    → contains j (sweep_chunks s.is_referenced s.now (run_sweeps grace before) s.store).1.files
      ≡ false
    → (t : ℕ) × OrphanSince j t (s ∷ before) × (grace ≤ s.now - t)
unfolding is_due contains lookup_or
collected_lem grace s before j (m, w) here_now gone =
    let g = run_sweeps grace before in
    let swept = sweep_chunks_lem s.is_referenced s.now g s.store j m in
    let kept = run_sweeps-grace grace before in
    elim (Option-cases (lookup j g.orphaned_at)) [
      | inl new ↦ (s.now, (ground (arith, swept), here_now, inl refl), ground (arith, swept, kept))
      | inr (t, old) ↦ (
        t,
        (ground (arith, swept), here_now, inr (timer-OrphanSince grace before j t w old)),
        ground (arith, swept, kept),
      )
    ]
