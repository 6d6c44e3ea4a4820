-- ===== src/Metadata/Namespace/Effects.antt =====
-- What Stat finds after each operation that changes the namespace.
use vault_fs.Base.{
  ℕ, [], ◌++◌, some, Option-cases, ok, err, Result-cases, inl, inr, ◌≡◌, ◌>>=◌, true, Bool-cases,
  subst, sym, ◌∙◌, Text, text_eq, text_eq_iff, if◌then◌else◌, arith, wrap,
}
use vault_fs.Metadata.Store.{Badger, put_key, delete_key, txn_set, txn_delete, txn_commit}
use vault_fs.Metadata.Store.Laws.{get_key-put_key, get_key-delete_key, get_key-move}
use vault_fs.Metadata.Namespace.{
  not_found, FileInfo, Codec, ns_prefix, from_store, stat, write, create_file, create_dir,
  update_file, delete_file, rename,
}

abbrev pub directory : ℕ → Text → FileInfo
directory now path = record {
  path = path;
  is_dir = true;
  size = 0;
  chunk_ids = [];
  mode = 493;
  created_at = some now;
  updated_at = some now;
}

module _ {Blob : Type 0} (b : Badger Blob) (c : Codec Blob) where
  stat-write :
      (ns ns' : b.Db) (info : FileInfo) (q : Text)
      → write b c ns info ≡ ok ns'
      → stat b c ns' q ≡ (if text_eq info.path q then ok info else stat b c ns q)
  unfolding write stat
  stat-write ns ns' info q h = elim (Option-cases (c.marshal info)) [
    | inl e ↦ absurd (ground arith)
    | inr (val, e) ↦ elim (Result-cases (put_key b ns (ns_prefix ++ info.path) val)) [
      | inr (x, p) ↦ absurd (ground arith)
      | inl (new, p) ↦ ground (
        arith,
        get_key-put_key b ns new (ns_prefix ++ info.path) (ns_prefix ++ q) val p,
        c.unmarshal-marshal info val e,
      )
    ]
  ]

  -- After CreateFile, Stat finds the inode with the time of the call at its path, and what was
  -- found before at every other path.
  pub stat-create_file :
      (ns ns' : b.Db) (now : ℕ) (info : FileInfo) (q : Text)
      → create_file b c ns now info ≡ ok ns'
      → stat b c ns' q ≡ (
          if text_eq info.path q
          then ok (record info { created_at = some now; updated_at = some now })
          else stat b c ns q)
  unfolding create_file
  stat-create_file ns ns' now info q h = elim (Result-cases (stat b c ns info.path)) [
    | inl (fi, e) ↦ absurd (ground arith)
    | inr (x, e) ↦
        stat-write ns ns' (record info { created_at = some now; updated_at = some now }) q
          (ground arith)
  ]

  pub stat-delete_file :
      (ns ns' : b.Db) (path q : Text)
      → delete_file b c ns path ≡ ok ns'
      → stat b c ns' q ≡ (if text_eq path q then err not_found else stat b c ns q)
  unfolding delete_file
  stat-delete_file ns ns' path q h = elim (Result-cases (stat b c ns path)) [
    | inr (x, e) ↦ absurd (ground arith)
    | inl (fi, e) ↦ elim (Result-cases (delete_key b ns (ns_prefix ++ path))) [
      | inr (x, p) ↦ absurd (ground arith)
      | inl (new, p) ↦
          unfold stat in
          ground (arith, get_key-delete_key b ns new (ns_prefix ++ path) (ns_prefix ++ q) p)
    ]
  ]

  pub stat-create_dir :
      (ns ns' : b.Db) (now : ℕ) (path q : Text)
      → create_dir b c ns now path ≡ ok ns'
      → stat b c ns' q ≡ (if text_eq path q then ok (directory now path) else stat b c ns q)
  unfolding create_dir
  stat-create_dir ns ns' now path q h = elim (Result-cases (stat b c ns path)) [
    | inl (fi, e) ↦ absurd (ground arith)
    | inr (x, e) ↦ stat-write ns ns' (directory now path) q (ground arith)
  ]

  -- UpdateFile, where it succeeds, has found an inode at the path; after it, Stat finds the new one
  -- with the time of the call there, and what was found before at every other path.
  pub update_file_lem :
      (ns ns' : b.Db) (now : ℕ) (info : FileInfo)
      → update_file b c ns now info ≡ ok ns'
      → ((old : FileInfo) × (stat b c ns info.path ≡ ok old))
        × ((q : Text)
            → stat b c ns' q ≡ (
                if text_eq info.path q
                then ok (record info { updated_at = some now })
                else stat b c ns q))
  unfolding update_file
  update_file_lem ns ns' now info h = elim (Result-cases (stat b c ns info.path)) [
    | inr (x, e) ↦ absurd (ground arith)
    | inl (fi, e) ↦
        ((fi, e), λ q. stat-write ns ns' (record info { updated_at = some now }) q (ground arith))
  ]

  stat-moved :
      (ns ns' : b.Db) (fi moved : FileInfo) (to from : Text) (val : Blob) (q : Text)
      → stat b c ns from ≡ ok fi
      → ((other : FileInfo) → ¬ (stat b c ns to ≡ ok other))
      → c.marshal moved ≡ some val
      → wrap from_store (do
        t ← txn_set b (b.begin ns) (ns_prefix ++ to) val
        u ← txn_delete b t (ns_prefix ++ from)
        txn_commit b u)
        ≡ ok ns'
      → stat b c ns' q ≡ (
          if text_eq to q
          then ok moved
          else if text_eq from q
          then err not_found
          else stat b c ns q)
  stat-moved ns ns' fi moved to from val q e free m h =
      let once = (do
        t ← txn_set b (b.begin ns) (ns_prefix ++ to) val
        u ← txn_delete b t (ns_prefix ++ from)
        txn_commit b u) in
      elim (Result-cases once) [
        | inr (x, p) ↦ absurd (ground arith)
        | inl (new, p) ↦
            let found =
              get_key-move b ns new (ns_prefix ++ to) (ns_prefix ++ from) (ns_prefix ++ q) val p in
            elim (Bool-cases (text_eq to q)) [
              | inl same ↦ elim (Bool-cases (text_eq from q)) [
                | inl again ↦ absurd (
                    free fi (
                      subst (λ p. stat b c ns p ≡ ok fi)
                        ((text_eq_iff from q).0 again ∙ sym ((text_eq_iff to q).0 same)) e))
                | inr other ↦ unfold stat in ground (arith, found, c.unmarshal-marshal moved val m)
              ]
              | inr other ↦ unfold stat in ground (arith, found)
            ]
      ]

  -- Rename, where it succeeds, has found an inode at the old path and none that can be read at the
  -- new one. After it, Stat finds the inode at the new path, with that path and the time of the
  -- call, nothing at the old path, and what was found before at every other path.
  pub rename_lem :
      (ns ns' : b.Db) (now : ℕ) (from to : Text)
      → rename b c ns now from to ≡ ok ns'
      → (fi : FileInfo) × (stat b c ns from ≡ ok fi)
        × ((other : FileInfo) → ¬ (stat b c ns to ≡ ok other))
        × ((q : Text)
            → stat b c ns' q ≡ (
                if text_eq to q
                then ok (record fi { path = to; updated_at = some now })
                else if text_eq from q
                then err not_found
                else stat b c ns q))
  unfolding rename
  rename_lem ns ns' now from to h = elim (Result-cases (stat b c ns from)) [
    | inr (x, e) ↦ absurd (ground arith)
    | inl (fi, e) ↦ elim (Result-cases (stat b c ns to)) [
      | inl (taken, f) ↦ absurd (ground arith)
      | inr (x, f) ↦
          let moved = record fi { path = to; updated_at = some now } in
          elim (Option-cases (c.marshal moved)) [
            | inl m ↦ absurd (ground arith)
            | inr (val, m) ↦ (
              fi,
              e,
              (λ other g. ground arith),
              λ q.
                  stat-moved ns ns' fi moved to from val q e (λ other g. ground arith) m
                    (ground arith),
            )
          ]
    ]
  ]
