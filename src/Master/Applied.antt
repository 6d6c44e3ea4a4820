-- ===== src/Master/Applied.antt =====
-- What a committed command does to the namespace of a master.
use vault_fs.Base.{
  ℕ, [], ◌++◌, Option, none, some, ok, err, Result-cases, Option-cases, Bool-cases, inl, inr, ◌≡◌,
  ◌⊎◌, ap, subst, Text, text_eq, text_eq_iff, if◌then◌else◌, In, arith,
}
use vault_fs.Metadata.Store.{Badger, delete_key}
use vault_fs.Metadata.Namespace.{
  FileInfo, Codec, ns_prefix, not_found, stat, create_file, update_file, delete_file,
}
use vault_fs.Metadata.Namespace.Effects.{stat-create_file, update_file_lem, stat-delete_file}
use vault_fs.Master.{
  Command, Server, op_create, op_finalize, op_delete, command_inode, ensure_parents, create_at,
  apply_create, write_file, apply_finalize, record_chunk_locations, apply,
}
use vault_fs.Master.Parents.{parents_of, Found, ensure_parents_lem}

-- The path and the directories above it.
abbrev pub Touched : Text → Text → Type 0
Touched path q = (path ≡ q) ⊎ In q (parents_of path)

module _ {Blob : Type 0} (b : Badger Blob) (c : Codec Blob) where
  -- Every directory above the path is there, and what is found elsewhere is as before.
  pub record Placed (path : Text) (ns ns' : b.Db) : Type 0 where
    pub parents : (d : Text) → In d (parents_of path) → Found b c ns' d
    pub elsewhere : (q : Text) → (stat b c ns' q ≡ stat b c ns q) ⊎ Touched path q

  create_at_lem :
      (ns ns' : b.Db) (clock : ℕ → ℕ) (now : ℕ) (fi : FileInfo)
      → create_at b c ns clock now fi ≡ (ns', none)
      → (stat b c ns' fi.path ≡ ok (record fi { created_at = some now; updated_at = some now }))
        × Placed fi.path ns ns'
  unfolding create_at
  create_at_lem ns ns' clock now fi h =
      let run = ensure_parents b c ns clock fi.path in
      elim (Option-cases (run.1)) [
        | inr (x, e) ↦ absurd (ground arith)
        | inl e ↦
            let mid = run.0 in
            let x = ensure_parents_lem b c ns mid clock fi.path (ap (λ o. (mid, o)) e) in
            elim (Result-cases (create_file b c mid now fi)) [
              | inr (y, f) ↦ absurd (ground arith)
              | inl (new, f) ↦
                  let same : new ≡ ns' = ground arith in
                  let at = λ (q : Text).
                    stat-create_file b c mid ns' now fi q
                      (subst (λ n. create_file b c mid now fi ≡ ok n) same f) in
                  (
                    ground (arith, at fi.path, text_eq_iff fi.path fi.path),
                    record {
                      parents = λ d i.
                          let (got, g) = x.has d i in
                          elim (Bool-cases (text_eq fi.path d)) [
                            | inl t ↦ (
                              record fi { created_at = some now; updated_at = some now },
                              ground (arith, at d),
                            )
                            | inr t ↦ (got, ground (arith, at d))
                          ];
                      elsewhere = λ q. elim (Bool-cases (text_eq fi.path q)) [
                        | inl t ↦ inr (inl ((text_eq_iff fi.path q).0 t))
                        | inr t ↦ elim (x.adds q) [
                          | inl k ↦ inl (ground (arith, at q))
                          | inr w ↦ inr (inr w.0)
                        ]
                      ];
                    },
                  )
            ]
      ]

  -- A creation that is applied without an error leaves the server as it is where the path is taken.
  -- Where it is free, the empty inode with the time of the call is at the path, every directory
  -- above the path is there, and nothing is found otherwise than before anywhere else.
  pub apply_create_lem :
      (s s' : Server b.Db) (clock : ℕ → ℕ) (now : ℕ) (cmd : Command)
      → cmd.kind ≡ op_create
      → apply b c s clock now cmd ≡ (s', none)
      → (Found b c s.ns cmd.path × (s' ≡ s))
        ⊎ ((¬ Found b c s.ns cmd.path)
            × (stat b c s'.ns cmd.path
                ≡ ok (record (command_inode cmd.path 0 []) {
                  created_at = some now;
                  updated_at = some now;
                }))
            × Placed cmd.path s.ns s'.ns)
  unfolding apply apply_create
  apply_create_lem s s' clock now cmd k h = elim (Result-cases (stat b c s.ns cmd.path)) [
    | inl (fi, e) ↦ inl ((fi, e), ground arith)
    | inr (x, e) ↦
        let run = create_at b c s.ns clock now (command_inode cmd.path 0 []) in
        elim (Option-cases (run.1)) [
          | inr (y, f) ↦ absurd (ground arith)
          | inl f ↦
              let made =
                create_at_lem s.ns (run.0) clock now (command_inode cmd.path 0 [])
                  (ap (λ o. (run.0, o)) f) in
              let same : run.0 ≡ s'.ns = ground arith in
              inr (
                (λ (fi, g). ground arith),
                subst
                    (λ n.
                      stat b c n cmd.path
                      ≡ ok (record (command_inode cmd.path 0 []) {
                        created_at = some now;
                        updated_at = some now;
                      }))
                    same made.0,
                subst (Placed cmd.path s.ns) same made.1,
              )
        ]
  ]

  write_file_lem :
      (ns ns' : b.Db) (clock : ℕ → ℕ) (now : ℕ) (fi : FileInfo)
      → write_file b c ns clock now fi ≡ (ns', none)
      → (Found b c ns fi.path
          × ((q : Text)
              → stat b c ns' q ≡ (
                  if text_eq fi.path q
                  then ok (record fi { updated_at = some now })
                  else stat b c ns q)))
        ⊎ ((¬ Found b c ns fi.path)
            × (stat b c ns' fi.path
                ≡ ok (record fi { created_at = some now; updated_at = some now }))
            × Placed fi.path ns ns')
  unfolding write_file
  write_file_lem ns ns' clock now fi h = elim (Result-cases (stat b c ns fi.path)) [
    | inr (x, e) ↦
        let made = create_at_lem ns ns' clock now fi (ground arith) in
        inr ((λ (old, g). ground arith), made.0, made.1)
    | inl (old, e) ↦ elim (Result-cases (update_file b c ns now fi)) [
      | inr (y, f) ↦ absurd (ground arith)
      | inl (new, f) ↦ inl ((old, e), (update_file_lem b c ns ns' now fi (ground arith)).1)
    ]
  ]

  -- A finalised write, applied without an error, leaves a file at its path with the size and the
  -- chunks of the command and the time of the call. Nothing is found otherwise than before at a
  -- path that is neither this one nor a directory above it.
  pub apply_finalize_lem :
      (s s' : Server b.Db) (clock : ℕ → ℕ) (now : ℕ) (cmd : Command)
      → cmd.kind ≡ op_finalize
      → apply b c s clock now cmd ≡ (s', none)
      → ((created : Option ℕ) × (stat b c s'.ns cmd.path
            ≡ ok (record (command_inode cmd.path cmd.size cmd.chunk_ids) {
              created_at = created;
              updated_at = some now;
            })))
        × ((q : Text) → (stat b c s'.ns q ≡ stat b c s.ns q) ⊎ Touched cmd.path q)
  unfolding apply apply_finalize record_chunk_locations
  apply_finalize_lem s s' clock now cmd k h =
      let fi = command_inode cmd.path cmd.size cmd.chunk_ids in
      let run = write_file b c s.ns clock now fi in
      elim (Option-cases (run.1)) [
        | inr (x, e) ↦ absurd (ground arith)
        | inl e ↦
            let same : run.0 ≡ s'.ns = ground (arith, Option-cases s.chunk_map) in
            let written =
              write_file_lem s.ns s'.ns clock now fi
                (subst (λ n. run ≡ (n, none)) same (ap (λ o. (run.0, o)) e)) in
            elim written [
              | inl (found, after) ↦ (
                (none, ground (arith, after cmd.path, text_eq_iff cmd.path cmd.path)),
                λ q. elim (Bool-cases (text_eq cmd.path q)) [
                  | inl t ↦ inr (inl ((text_eq_iff cmd.path q).0 t))
                  | inr t ↦ inl (ground (arith, after q))
                ],
              )
              | inr (free, new, placed) ↦ ((some now, new), placed.elsewhere)
            ]
      ]

  pub delete_file-absent :
      (ns : b.Db) (path : Text)
      → delete_file b c ns path ≡ err not_found
      → stat b c ns path ≡ err not_found
  unfolding delete_file
  delete_file-absent ns path h = elim (Result-cases (stat b c ns path)) [
    | inr (x, e) ↦ ground arith
    | inl (fi, e) ↦ absurd (ground (arith, Result-cases (delete_key b ns (ns_prefix ++ path))))
  ]

  -- A deletion that is applied without an error leaves nothing at its path, and everything else as
  -- it was.
  pub apply_delete_lem :
      (s s' : Server b.Db) (clock : ℕ → ℕ) (now : ℕ) (cmd : Command)
      → cmd.kind ≡ op_delete
      → apply b c s clock now cmd ≡ (s', none)
      → (q : Text)
      → stat b c s'.ns q ≡ (if text_eq cmd.path q then err not_found else stat b c s.ns q)
  unfolding apply
  apply_delete_lem s s' clock now cmd k h q = elim (Result-cases (delete_file b c s.ns cmd.path)) [
    | inl (new, e) ↦ ground (arith, stat-delete_file b c s.ns new cmd.path q e)
    | inr (not_found, e) ↦
        ground (arith, delete_file-absent s.ns cmd.path e, text_eq_iff cmd.path q)
    | inr (x, e) ↦ absurd (ground arith)
  ]
