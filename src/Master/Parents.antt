-- ===== src/Master/Parents.antt =====
-- The directories that ensureParents makes.
use vault_fs.Base.{
  ℕ, suc, List, [], ◌∷◌, ◌++◌, none, ok, err, Result-cases, Option-cases, Bool-cases, inl, inr, ◌≡◌,
  ◌⊎◌, refl, ◌∙◌, sym, ap, subst, Text, text_eq, text_eq_iff, slash, trim, split, In, arith,
}
use vault_fs.Metadata.Store.{Badger}
use vault_fs.Metadata.Namespace.{
  FileInfo, Codec, not_found, already_exists, stat, create_dir, write,
}
use vault_fs.Metadata.Namespace.Effects.{stat-create_dir, directory}
use vault_fs.Master.{ensure_dir, ensure_dirs, ensure_parents}

-- The directories above a path whose parts are given, the highest first.
unfoldable pub dirs_from : Text → List Text → List Text
dirs_from cur [] = []
dirs_from cur (part ∷ parts) =
    let rest = dirs_from (cur ++ slash ∷ part) parts in
    elim parts [ [] ↦ [] | _ ↦ (cur ++ slash ∷ part) ∷ rest ]

unfoldable pub parents_of : Text → List Text
unfolding dirs_from
parents_of path = dirs_from [] (split slash (trim slash path))

module _ {Blob : Type 0} (b : Badger Blob) (c : Codec Blob) where
  abbrev pub Found : b.Db → Text → Type 0
  Found ns q = (fi : FileInfo) × (stat b c ns q ≡ ok fi)

  -- The second namespace has the directories, all that the first one has, and nothing else that is
  -- new: what differs is a directory of the list that was absent.
  pub record Extends (dirs : List Text) (ns ns' : b.Db) : Type 0 where
    pub has : (d : Text) → In d dirs → Found ns' d
    pub keeps : (q : Text) (fi : FileInfo) → stat b c ns q ≡ ok fi → stat b c ns' q ≡ ok fi
    pub adds :
        (q : Text)
        → (stat b c ns' q ≡ stat b c ns q)
          ⊎ (In q dirs
              × (stat b c ns q ≡ err not_found)
              × ((now : ℕ) × (stat b c ns' q ≡ ok (directory now q))))

  create_dir-absent :
      (ns : b.Db) (now : ℕ) (cur : Text)
      → stat b c ns cur ≡ err not_found
      → ¬ (create_dir b c ns now cur ≡ err already_exists)
  unfolding create_dir write
  create_dir-absent ns now cur e h = ground arith

  ensure_dir-cases :
      (ns ns' : b.Db) (now : ℕ) (cur : Text)
      → ensure_dir b c ns now cur ≡ (ns', none)
      → (Found ns cur × (ns' ≡ ns))
        ⊎ ((stat b c ns cur ≡ err not_found) × (create_dir b c ns now cur ≡ ok ns'))
  unfolding ensure_dir
  ensure_dir-cases ns ns' now cur h = elim (Result-cases (stat b c ns cur)) [
    | inl (fi, e) ↦ inl ((fi, e), ground arith)
    | inr (not_found, e) ↦ elim (Result-cases (create_dir b c ns now cur)) [
      | inl (new, f) ↦ inr (e, ground arith)
      | inr (already_exists, f) ↦ absurd (create_dir-absent ns now cur e f)
      | inr (x, f) ↦ absurd (ground arith)
    ]
    | inr (x, e) ↦ absurd (ground arith)
  ]

  ensure_dir_lem :
      (ns ns' : b.Db) (now : ℕ) (cur : Text)
      → ensure_dir b c ns now cur ≡ (ns', none)
      → Extends (cur ∷ []) ns ns'
  ensure_dir_lem ns ns' now cur h = elim (ensure_dir-cases ns ns' now cur h) [
    | inl (found, e) ↦ record {
      has = λ d i. elim i [
        | inl q ↦ subst (Found ns') q (rw e found)
        | inr none_left ↦ absurd none_left
      ];
      keeps = λ q fi f. rw e f;
      adds = λ q. inl (ap (λ n. stat b c n q) e);
    }
    | inr (gone, e) ↦ record {
      has = λ d i. elim i [
        | inl q ↦ (
          directory now d,
          ground (arith, stat-create_dir b c ns ns' now cur d e, text_eq_iff cur d),
        )
        | inr none_left ↦ absurd none_left
      ];
      keeps = λ q fi f. ground (arith, stat-create_dir b c ns ns' now cur q e, text_eq_iff cur q);
      adds = λ q. elim (Bool-cases (text_eq cur q)) [
        | inl same ↦ inr (
          inl ((text_eq_iff cur q).0 same),
          ground (arith, text_eq_iff cur q),
          (now, ground (arith, text_eq_iff cur q, stat-create_dir b c ns ns' now cur q e)),
        )
        | inr other ↦ inl (ground (arith, stat-create_dir b c ns ns' now cur q e))
      ];
    }
  ]

  Extends-trans :
      (d : Text) (dirs : List Text) {ns mid ns' : b.Db}
      → Extends (d ∷ []) ns mid
      → Extends dirs mid ns'
      → Extends (d ∷ dirs) ns ns'
  Extends-trans d dirs x y = record {
    has = λ q i. elim i [
      | inl e ↦ let (fi, f) = x.has q (inl e) in (fi, y.keeps q fi f)
      | inr i ↦ y.has q i
    ];
    keeps = λ q fi f. y.keeps q fi (x.keeps q fi f);
    adds = λ q. elim (x.adds q) [
      | inl same ↦ elim (y.adds q) [
        | inl again ↦ inl (again ∙ same)
        | inr (i, gone, new) ↦ inr (inr i, sym same ∙ gone, new)
      ]
      | inr (inl i, gone, (now, e)) ↦ inr (inl i, gone, (now, y.keeps q (directory now q) e))
      | inr (inr i, gone, new) ↦ absurd i
    ];
  }

  Extends-refl : (ns : b.Db) → Extends [] ns ns
  Extends-refl ns = record { has = λ d i. absurd i; keeps = λ q fi f. f; adds = λ q. inl refl }

  ensure_dirs_lem :
      (ns ns' : b.Db) (clock : ℕ → ℕ) (i : ℕ) (cur : Text) (parts : List Text)
      → ensure_dirs b c ns clock i cur parts ≡ (ns', none)
      → Extends (dirs_from cur parts) ns ns'
  unfolding ensure_dirs dirs_from
  ensure_dirs_lem ns ns' clock i cur [] h =
      subst (Extends [] ns) (ap (λ r. r.0) h) (Extends-refl ns)
  ensure_dirs_lem ns ns' clock i cur (part ∷ []) h =
      subst (Extends [] ns) (ap (λ r. r.0) h) (Extends-refl ns)
  ensure_dirs_lem ns ns' clock i cur (part ∷ next ∷ parts) h =
      let cur' = cur ++ slash ∷ part in
      let made = ensure_dir b c ns (clock i) cur' in
      elim (Option-cases (made.1)) [
        | inr (x, e) ↦ absurd (ground arith)
        | inl e ↦
            Extends-trans cur' (dirs_from cur' (next ∷ parts))
              (ensure_dir_lem ns (made.0) (clock i) cur' (ap (λ o. (made.0, o)) e))
              (ensure_dirs_lem (made.0) ns' clock (suc i) cur' (next ∷ parts) (ground arith))
      ]

  -- Where ensureParents succeeds, every directory above the path is there, each inode that was
  -- there is as it was, and whatever else is new is a directory above the path, made in the call.
  pub ensure_parents_lem :
      (ns ns' : b.Db) (clock : ℕ → ℕ) (path : Text)
      → ensure_parents b c ns clock path ≡ (ns', none)
      → Extends (parents_of path) ns ns'
  unfolding ensure_parents parents_of
  ensure_parents_lem ns ns' clock path h =
      ensure_dirs_lem ns ns' clock 0 [] (split slash (trim slash path)) h
