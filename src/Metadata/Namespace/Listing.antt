-- ===== src/Metadata/Namespace/Listing.antt =====
-- ListDir gives the direct children of a directory, and nothing else.
use vault_fs.Base.{
  true, false, List, [], ◌∷◌, ◌++◌, some, Option-cases, Bool-cases, Result, ok, err, inl, inr, ◌≡◌,
  ◌⊎◌, ◌↔◌, refl, Text, text_eq_iff, has_char, slash, ◌∙◌, trim_suffix, arith, drop, length, In,
  In-append, ap, sym, subst,
}
use vault_fs.Metadata.Store.{Badger, BadgerError, Item, walk, scan, get_key}
use vault_fs.Metadata.Namespace.{
  FileInfo, Codec, broken_store, stat, list_step, scan_prefix, children, list_dir,
}
use vault_fs.Metadata.Namespace.Items.{
  has_prefix-split, has_prefix-append, drop-append, child_key, stat_iff, item-get_key, item-read,
  IsReadable,
}

module _ {Blob : Type 0} (b : Badger Blob) (c : Codec Blob) where
  -- The inode is the value of an item whose key has no slash behind the prefix.
  IsEntry : Text → FileInfo → List (Item Blob) → Type 0
  IsEntry prefix fi items =
      (k : Text) × (v : Blob) × In (k, ok v) items
      × (has_char slash (drop (length prefix) k) ≡ false)
      × (c.unmarshal v ≡ some fi)

  IsEntry-cons :
      (prefix : Text) (fi : FileInfo) (k : Text) (v : Blob) (items : List (Item Blob))
      → IsEntry prefix fi ((k, ok v) ∷ items) ↔ (
          ((has_char slash (drop (length prefix) k) ≡ false) × (c.unmarshal v ≡ some fi))
          ⊎ IsEntry prefix fi items)
  unfolding IsEntry
  IsEntry-cons prefix fi k v items = (
    λ w. elim w.2 [
      | inl e ↦ inl (
        subst (λ t. has_char slash (drop (length prefix) t) ≡ false) (sym (ap (λ r. r.0) e)) w.3,
        ground (arith, ap (λ r. r.1) e),
      )
      | inr i ↦ inr (w.0, w.1, i, w.3, w.4)
    ],
    λ h. elim h [
      | inl (flat, e) ↦ (k, v, inl refl, flat, e)
      | inr (j, w, i, flat, e) ↦ (j, w, inr i, flat, e)
    ],
  )

  walk-entries :
      (prefix : Text) (fi : FileInfo) (items : List (Item Blob)) (seen out : List FileInfo)
      → walk b broken_store (list_step b c prefix) items seen ≡ ok out
      → In fi out ↔ (In fi seen ⊎ IsEntry prefix fi items)
  unfolding walk list_step
  walk-entries prefix fi [] seen out h = (
    λ i. inl (subst (In fi) (ground arith) i),
    λ r. elim r [ inl i ↦ subst (In fi) (ground arith) i | inr w ↦ unfold IsEntry in absurd w.2 ],
  )
  walk-entries prefix fi ((k, err e) ∷ items) seen out h = absurd (cc)
  walk-entries prefix fi ((k, ok v) ∷ items) seen out h =
      elim (Bool-cases (has_char slash (drop (length prefix) k))) [
        | inl deep ↦
            ground (arith, IsEntry-cons prefix fi k v items, walk-entries prefix fi items seen out)
        | inr flat ↦ elim (Option-cases (c.unmarshal v)) [
          | inl bad ↦ absurd (ground arith)
          | inr (found, e) ↦ ground (
            arith,
            IsEntry-cons prefix fi k v items,
            walk-entries prefix fi items (seen ++ found ∷ []) out,
            In-append fi seen (found ∷ []),
          )
        ]
      ]

  -- The inode stands directly in the directory.
  abbrev pub IsChild : b.Db → Text → FileInfo → Type 0
  IsChild ns dir fi =
      (name : Text) × (has_char slash name ≡ false)
      × (stat b c ns (trim_suffix slash dir ++ slash ∷ name) ≡ ok fi)

  walk-total :
      (prefix : Text) (items : List (Item Blob)) (seen : List FileInfo)
      → ((k : Text) (r : Result BadgerError Blob)
          → In (k, r) items
          → (v : Blob) × (r ≡ ok v) × ((fi : FileInfo) × (c.unmarshal v ≡ some fi)))
      → (out : List FileInfo) × (walk b broken_store (list_step b c prefix) items seen ≡ ok out)
  unfolding walk list_step
  walk-total prefix [] seen good = (seen, refl)
  walk-total prefix ((k, r) ∷ items) seen good =
      let (v, e, (fi, d)) = good k r (inl refl) in
      elim (Bool-cases (has_char slash (drop (length prefix) k))) [
        | inl deep ↦
            rw (e, walk, list_step, deep) (walk-total prefix items seen (λ j s i. good j s (inr i)))
        | inr flat ↦
            rw (e, walk, list_step, flat, d)
              (walk-total prefix items (seen ++ fi ∷ []) (λ j s i. good j s (inr i)))
      ]

  IsEntry-IsChild :
      (ns : b.Db) (dir : Text) (fi : FileInfo)
      → IsEntry (scan_prefix dir) fi (b.items (b.begin ns) (scan_prefix dir)) ↔ IsChild ns dir fi
  unfolding IsEntry
  IsEntry-IsChild ns dir fi =
      let prefix = scan_prefix dir in
      (
        λ (k, v, i, flat, d).
            let (h, e) = (item-get_key b c ns prefix k v).0 i in
            let name = drop (length prefix) k in
            let key = has_prefix-split k prefix h ∙ child_key dir name in
            (
              name,
              flat,
              (stat_iff b c ns (trim_suffix slash dir ++ slash ∷ name) fi).1
                  (v, subst (λ j. get_key b ns j ≡ ok v) key e, d),
            ),
        λ (name, flat, s).
            let (v, e, d) = (stat_iff b c ns (trim_suffix slash dir ++ slash ∷ name) fi).0 s in
            (
              prefix ++ name,
              v,
              (item-get_key b c ns prefix (prefix ++ name) v).1 (
                has_prefix-append prefix name,
                subst (λ j. get_key b ns j ≡ ok v) (sym (child_key dir name)) e,
              ),
              subst (λ t. has_char slash t ≡ false) (sym (drop-append prefix name)) flat,
              d,
            ),
      )

  children_lem :
      (ns : b.Db) (dir : Text)
      → IsReadable b c ns
      → (out : List FileInfo) × (children b c ns dir ≡ ok out)
        × ((fi : FileInfo) → In fi out ↔ IsChild ns dir fi)
  unfolding children scan
  children_lem ns dir good =
      let prefix = scan_prefix dir in
      let items = b.items (b.begin ns) prefix in
      let (out, e) = walk-total prefix items [] (λ k r. item-read b c ns prefix k r good) in
      (
        out,
        e,
        λ fi.
            let (to, fro) = walk-entries prefix fi items [] out e in
            (
              λ i. elim (to i) [
                | inl none_yet ↦ absurd none_yet
                | inr w ↦ (IsEntry-IsChild ns dir fi).0 w
              ],
              λ child. fro (inr ((IsEntry-IsChild ns dir fi).1 child)),
            ),
      )

  -- In a namespace whose values can be read, ListDir succeeds on the root and on every directory
  -- that Stat finds, and gives exactly the inodes at the paths that are the directory's, without
  -- its last slash, a slash, and a name that has no slash.
  pub list_dir_lem :
      (ns : b.Db) (dir : Text)
      → IsReadable b c ns
      → (dir ≡ slash ∷ [])
        ⊎ ((info : FileInfo) × (stat b c ns dir ≡ ok info) × (info.is_dir ≡ true))
      → (out : List FileInfo) × (list_dir b c ns dir ≡ ok out)
        × ((fi : FileInfo) → In fi out ↔ IsChild ns dir fi)
  unfolding list_dir
  list_dir_lem ns dir good at =
      let (out, e, all) = children_lem ns dir good in
      (out, ground (arith, text_eq_iff dir (slash ∷ [])), all)
