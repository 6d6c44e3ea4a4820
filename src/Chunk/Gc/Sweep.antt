-- ===== src/Chunk/Gc/Sweep.antt =====
-- What a sweep deletes, and what it keeps.
use vault_fs.Base.{
  ℕ, ◌-◌, ◌≡◌, refl, inl, inr, ◌∙◌, ap, ap₂, subst, sym, String, Bool, true, false, not, ◌&&◌, none,
  some, List, [], ◌∷◌, arith, leb, if◌then◌else◌, Bool-cases, Option-cases, str_eq, eq_iff, eq_refl,
}
use vault_fs.GoMap.{Map, IsMap, lookup, lookup_or, insert, contains, listed}
use vault_fs.GoMap.Laws.{lookup-insert, lookup-erase}
use vault_fs.Chunk.Store.{Store, valid, has_path, list_chunks, valid_names, delete_chunk}
use vault_fs.Chunk.Gc.{Gc, collect_one, collect, sweep_chunks}

-- No file has the chunk, and its timer has run for the grace period.
unfoldable pub is_due : (String → Bool) → ℕ → Gc → String → Bool
is_due is_referenced now g id =
    not (is_referenced id) && leb g.grace (now - lookup_or now id g.orphaned_at)

-- No name stands twice.
abbrev pub IsDistinct : List String → Type 0
IsDistinct [] = Unit {0}
IsDistinct (id ∷ ids) = (listed id ids ≡ false) × IsDistinct ids

module _ (is_referenced : String → Bool) (now : ℕ) where
  -- One chunk does not change what the sweep knows and has of the others.
  pub collect_one-other :
      (g : Gc) (store : Store) (id j : String)
      → str_eq id j ≡ false
      → let (g', store') = collect_one is_referenced now g store id in
        (lookup j g'.orphaned_at ≡ lookup j g.orphaned_at)
        × (lookup j store'.files ≡ lookup j store.files)
        × (g'.grace ≡ g.grace)
  unfolding collect_one delete_chunk
  collect_one-other g store id j ne = (
    ground (
      arith,
      lookup-insert id j now g.orphaned_at,
      lookup-erase id j g.orphaned_at,
      lookup-erase id j (insert id now g.orphaned_at),
    ),
    ground (arith, lookup-erase id j store.files),
    ground arith,
  )

  collect_one-own :
      (g : Gc) (store : Store) (id : String)
      → has_path id ≡ true
      → lookup id (collect_one is_referenced now g store id).1.files
        ≡ (if is_due is_referenced now g id then none else lookup id store.files)
  unfolding collect_one delete_chunk is_due
  collect_one-own g store id named = ground (arith, lookup-erase id id store.files, eq_refl id)

  collect-unlisted :
      (g : Gc) (store : Store) (ids : List String) (j : String)
      → listed j ids ≡ false
      → lookup j (collect is_referenced now g store ids).1.files ≡ lookup j store.files
  unfolding collect
  collect-unlisted g store [] j h = refl
  collect-unlisted g store (id ∷ ids) j h =
      let (g', store') = collect_one is_referenced now g store id in
      collect-unlisted g' store' ids j (ground arith)
      ∙ (collect_one-other g store id j (ground arith)).1

  pub is_due-other :
      (g : Gc) (store : Store) (id j : String)
      → str_eq id j ≡ false
      → is_due is_referenced now (collect_one is_referenced now g store id).0 j
        ≡ is_due is_referenced now g j
  unfolding is_due lookup_or
  is_due-other g store id j ne =
      let (timers, files, grace) = collect_one-other g store id j ne in ground arith

  collect-listed :
      (g : Gc) (store : Store) (ids : List String) (j : String)
      → IsDistinct ids
      → has_path j ≡ true
      → listed j ids ≡ true
      → lookup j (collect is_referenced now g store ids).1.files
        ≡ (if is_due is_referenced now g j then none else lookup j store.files)
  unfolding collect
  collect-listed g store [] j d named h = absurd (ground arith)
  collect-listed g store (id ∷ ids) j d named h =
      let (g', store') = collect_one is_referenced now g store id in
      elim (Bool-cases (str_eq id j)) [
        | inl same ↦
            let e = (eq_iff id j).0 same in
            subst
              (λ k.
                lookup k (collect is_referenced now g' store' ids).1.files
                ≡ (if is_due is_referenced now g k then none else lookup k store.files))
              e
              (collect-unlisted g' store' ids id d.0
                ∙ collect_one-own g store id (ap has_path e ∙ named))
        | inr apart ↦
            collect-listed g' store' ids j d.1 named (ground arith)
            ∙ ap₂ (λ b o. if b then none else o) (is_due-other g store id j apart)
                (collect_one-other g store id j apart).1
      ]

pub listed-valid_names :
    (files : Map (List ℕ)) (j : String)
    → listed j (valid_names files) ≡ (valid j && contains j files)
unfolding valid_names contains lookup
listed-valid_names [] j = ground arith
listed-valid_names ((k, c) ∷ files) j = ground (arith, listed-valid_names files j, eq_iff k j)

pub valid_names-IsDistinct : (files : Map (List ℕ)) → IsMap files → IsDistinct (valid_names files)
unfolding valid_names contains
valid_names-IsDistinct [] h = tt
valid_names-IsDistinct ((k, c) ∷ files) h =
    ground (arith, listed-valid_names files k, valid_names-IsDistinct files h.1)

has_path-valid : (j : String) → valid j ≡ true → has_path j ≡ true
unfolding valid
has_path-valid j h = ground arith

-- A sweep deletes exactly the chunks with a well-formed name that no file of the namespace has and
-- whose timers, which start now where there is none, have run for the grace period; it keeps every
-- other chunk.
pub sweep_chunks_lem :
    (is_referenced : String → Bool) (now : ℕ) (g : Gc) (store : Store) (j : String)
    → IsMap store.files
    → lookup j (sweep_chunks is_referenced now g store).1.files
      ≡ (if valid j && is_due is_referenced now g j then none else lookup j store.files)
unfolding sweep_chunks list_chunks
sweep_chunks_lem is_referenced now g store j w =
    elim (Bool-cases (listed j (valid_names store.files))) [
      | inl seen ↦
          let named : valid j ≡ true = ground (arith, listed-valid_names store.files j) in
          collect-listed is_referenced now g store (valid_names store.files) j
            (valid_names-IsDistinct store.files w) (has_path-valid j named) seen
          ∙ ap (λ v. if v && is_due is_referenced now g j then none else lookup j store.files)
              (sym named)
      | inr unseen ↦
          collect-unlisted is_referenced now g store (valid_names store.files) j unseen
          ∙ kept unseen
    ]
  where
    kept :
        listed j (valid_names store.files) ≡ false
        → lookup j store.files
          ≡ (if valid j && is_due is_referenced now g j then none else lookup j store.files)
    kept unseen = elim (Option-cases (lookup j store.files)) [
      | inl missing ↦ ground arith
      | inr (c, found) ↦ ground (arith, listed-valid_names store.files j, there c found)
    ]
      where
        there : (c : List ℕ) → lookup j store.files ≡ some c → contains j store.files ≡ true
        there c found = unfold contains in ground arith
