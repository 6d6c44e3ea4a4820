-- ===== src/Master/Agree.antt =====
-- Masters that apply the same commands hold the same namespace, whatever their clocks say.
use vault_fs.Base.{
  ℕ, List, [], none, Result, ok, err, Result-cases, Option-cases, inl, inr, ◌≡◌, refl, ap, subst,
  Text, text_eq, text_eq_iff, if◌then◌else◌, arith,
}
use vault_fs.Metadata.Store.{Badger}
use vault_fs.Metadata.Namespace.{
  NamespaceError, FileInfo, Codec, not_found, stat, create_file, update_file, delete_file,
}
use vault_fs.Metadata.Namespace.Effects.{stat-create_file, update_file_lem, stat-delete_file}
use vault_fs.Master.{
  Command, Server, command_inode, ensure_parents, create_at, apply_create, write_file,
  apply_finalize, placement, deleted, record_chunk_locations,
}
use vault_fs.Master.Parents.{parents_of, Extends, ensure_parents_lem}
use vault_fs.Master.Applied.{delete_file-absent}

-- What Stat gives, but for the times.
abbrev pub timeless : Result NamespaceError FileInfo → Result NamespaceError FileInfo
timeless (ok fi) = ok (record fi { created_at = none; updated_at = none })
timeless (err e) = err e

module _ {Blob : Type 0} (b : Badger Blob) (c : Codec Blob) where
  abbrev pub AreSimilar : b.Db → b.Db → Type 0
  AreSimilar ns other = (q : Text) → timeless (stat b c ns q) ≡ timeless (stat b c other q)

  Extends-AreSimilar :
      {dirs : List Text} {ns ns' other other' : b.Db}
      → Extends b c dirs ns ns'
      → Extends b c dirs other other'
      → AreSimilar ns other
      → AreSimilar ns' other'
  Extends-AreSimilar x y same q = elim (x.adds q) [
    | inl e ↦ elim (y.adds q) [
      | inl f ↦ rw (e, f) (same q)
      | inr (i, gone, new) ↦
          let (fi, found) = x.has q i in
          absurd (ground (arith, same q, Result-cases (stat b c _ q)))
    ]
    | inr (i, gone, (now, new)) ↦ elim (y.adds q) [
      | inl f ↦ let (fi, found) = y.has q i in absurd (ground (arith, same q))
      | inr (j, lost, (later, made)) ↦ rw (new, made) refl
    ]
  ]

  create_at-parts :
      (ns ns' : b.Db) (clock : ℕ → ℕ) (now : ℕ) (fi : FileInfo)
      → create_at b c ns clock now fi ≡ (ns', none)
      → (mid : b.Db) × Extends b c (parents_of fi.path) ns mid
        × (create_file b c mid now fi ≡ ok ns')
  unfolding create_at
  create_at-parts ns ns' clock now fi h =
      let run = ensure_parents b c ns clock fi.path in
      elim (Option-cases (run.1)) [
        | inr (x, e) ↦ absurd (ground arith)
        | inl e ↦ (
          run.0,
          ensure_parents_lem b c ns (run.0) clock fi.path (ap (λ o. (run.0, o)) e),
          ground (arith, Result-cases (create_file b c (run.0) now fi)),
        )
      ]

  create_at-AreSimilar :
      (ns ns' other other' : b.Db) (clock clock' : ℕ → ℕ) (now now' : ℕ) (fi : FileInfo)
      → create_at b c ns clock now fi ≡ (ns', none)
      → create_at b c other clock' now' fi ≡ (other', none)
      → AreSimilar ns other
      → AreSimilar ns' other'
  create_at-AreSimilar ns ns' other other' clock clock' now now' fi h h' same q =
      let (mid, x, e) = create_at-parts ns ns' clock now fi h in
      let (mid', x', e') = create_at-parts other other' clock' now' fi h' in
      ground (
        arith,
        stat-create_file b c mid ns' now fi q e,
        stat-create_file b c mid' other' now' fi q e',
        Extends-AreSimilar x x' same q,
      )

  -- Two masters with the same configuration whose namespaces differ in times at most.
  pub record Agrees (s t : Server b.Db) : Type 0 where
    pub namespaces : AreSimilar s.ns t.ns
    pub chunk_maps : s.chunk_map ≡ t.chunk_map
    pub nodes : s.chunk_nodes ≡ t.chunk_nodes
    pub factors : s.rf ≡ t.rf

  pub create-Agrees :
      (s s' t t' : Server b.Db) (clock clock' : ℕ → ℕ) (now now' : ℕ) (cmd : Command)
      → apply_create b c s clock now cmd ≡ (s', none)
      → apply_create b c t clock' now' cmd ≡ (t', none)
      → Agrees s t
      → Agrees s' t'
  unfolding apply_create
  create-Agrees s s' t t' clock clock' now now' cmd h h' a =
      elim (Result-cases (stat b c s.ns cmd.path)) [
        | inl (fi, e) ↦ elim (Result-cases (stat b c t.ns cmd.path)) [
          | inl (gi, f) ↦
              let same : s ≡ s' = ground arith in
              let same' : t ≡ t' = ground arith in
              subst (λ u. Agrees u t') same (subst (Agrees s) same' a)
          | inr (x, f) ↦ absurd (ground (arith, a.namespaces cmd.path))
        ]
        | inr (x, e) ↦ elim (Result-cases (stat b c t.ns cmd.path)) [
          | inl (gi, f) ↦ absurd (ground (arith, a.namespaces cmd.path))
          | inr (y, f) ↦
              let fi = command_inode cmd.path 0 [] in
              record {
                namespaces =
                    create_at-AreSimilar s.ns s'.ns t.ns t'.ns clock clock' now now' fi
                      (ground arith) (ground arith) a.namespaces;
                chunk_maps = ground (arith, a.chunk_maps);
                nodes = ground (arith, a.nodes);
                factors = ground (arith, a.factors);
              }
        ]
      ]

  write_file-AreSimilar :
      (ns ns' other other' : b.Db) (clock clock' : ℕ → ℕ) (now now' : ℕ) (fi : FileInfo)
      → write_file b c ns clock now fi ≡ (ns', none)
      → write_file b c other clock' now' fi ≡ (other', none)
      → AreSimilar ns other
      → AreSimilar ns' other'
  unfolding write_file
  write_file-AreSimilar ns ns' other other' clock clock' now now' fi h h' same =
      elim (Result-cases (stat b c ns fi.path)) [
        | inl (old, e) ↦ elim (Result-cases (stat b c other fi.path)) [
          | inl (old', f) ↦
              let u =
                (update_file_lem b c ns ns' now fi
                  (ground (arith, Result-cases (update_file b c ns now fi)))).1 in
              let u' =
                (update_file_lem b c other other' now' fi
                  (ground (arith, Result-cases (update_file b c other now' fi)))).1 in
              λ q. ground (arith, u q, u' q, same q)
          | inr (x, f) ↦ absurd (ground (arith, same fi.path))
        ]
        | inr (x, e) ↦ elim (Result-cases (stat b c other fi.path)) [
          | inl (old', f) ↦ absurd (ground (arith, same fi.path))
          | inr (y, f) ↦
              create_at-AreSimilar ns ns' other other' clock clock' now now' fi (ground arith)
                (ground arith) same
        ]
      ]

  pub finalize-Agrees :
      (s s' t t' : Server b.Db) (clock clock' : ℕ → ℕ) (now now' : ℕ) (cmd : Command)
      → apply_finalize b c s clock now cmd ≡ (s', none)
      → apply_finalize b c t clock' now' cmd ≡ (t', none)
      → Agrees s t
      → Agrees s' t'
  unfolding apply_finalize record_chunk_locations placement
  finalize-Agrees s s' t t' clock clock' now now' cmd h h' a =
      let fi = command_inode cmd.path cmd.size cmd.chunk_ids in
      elim (Option-cases (write_file b c s.ns clock now fi).1) [
        | inr (x, e) ↦ absurd (ground arith)
        | inl e ↦ elim (Option-cases (write_file b c t.ns clock' now' fi).1) [
          | inr (x, f) ↦ absurd (ground arith)
          | inl f ↦ record {
            namespaces =
                write_file-AreSimilar s.ns s'.ns t.ns t'.ns clock clock' now now' fi
                  (ground (arith, Option-cases s.chunk_map))
                  (ground (arith, Option-cases t.chunk_map)) a.namespaces;
            chunk_maps = ground (arith, a.chunk_maps, a.nodes, a.factors);
            nodes = ground (arith, a.nodes);
            factors = ground (arith, a.factors);
          }
        ]
      ]

  delete-stat :
      (s s' : Server b.Db) (cmd : Command) (q : Text)
      → deleted b c s (delete_file b c s.ns cmd.path) ≡ (s', none)
      → stat b c s'.ns q ≡ (if text_eq cmd.path q then err not_found else stat b c s.ns q)
  delete-stat s s' cmd q h = elim (Result-cases (delete_file b c s.ns cmd.path)) [
    | inl (new, e) ↦ ground (arith, stat-delete_file b c s.ns new cmd.path q e)
    | inr (not_found, e) ↦
        ground (arith, delete_file-absent b c s.ns cmd.path e, text_eq_iff cmd.path q)
    | inr (x, e) ↦ absurd (ground arith)
  ]

  pub delete-Agrees :
      (s s' t t' : Server b.Db) (cmd : Command)
      → deleted b c s (delete_file b c s.ns cmd.path) ≡ (s', none)
      → deleted b c t (delete_file b c t.ns cmd.path) ≡ (t', none)
      → Agrees s t
      → Agrees s' t'
  delete-Agrees s s' t t' cmd h h' a = record {
    namespaces =
        λ q. ground (arith, delete-stat s s' cmd q h, delete-stat t t' cmd q h', a.namespaces q);
    chunk_maps = ground (arith, a.chunk_maps);
    nodes = ground (arith, a.nodes);
    factors = ground (arith, a.factors);
  }
