-- ===== src/Metadata/Namespace/Items.antt =====
-- The items of an iterator as what Stat finds.
use vault_fs.Base.{
  true, List, [], ◌∷◌, ◌++◌, none, some, Option-cases, Bool-cases, Result, ok, err, Result-cases,
  inl, inr, ◌≡◌, ◌⊎◌, ◌↔◌, refl, Text, text_eq, text_eq_iff, has_prefix, slash, trim_suffix, arith,
  drop, length, In, ap, ap₂, subst, text_eq_refl,
}
use vault_fs.Metadata.Store.{
  Badger, BadgerError, badger_key_not_found, badger_failed, Item, item_at, IsListing, get_key,
  key_not_found, store_failed, store_error,
}
use vault_fs.Metadata.Namespace.{FileInfo, Codec, ns_prefix, decoded, stat, scan_prefix}

pub has_prefix-split : (s p : Text) → has_prefix s p ≡ true → s ≡ p ++ drop (length p) s
has_prefix-split s [] h = refl
has_prefix-split [] (c ∷ p) h = absurd (cc)
has_prefix-split (d ∷ s) (c ∷ p) h = ground (arith, has_prefix-split s p)

pub has_prefix-append : (p s : Text) → has_prefix (p ++ s) p ≡ true
has_prefix-append [] s = ground arith
has_prefix-append (c ∷ p) s = ground (arith, has_prefix-append p s)

pub drop-append : (p s : Text) → drop (length p) (p ++ s) ≡ s
drop-append [] s = refl
drop-append (c ∷ p) s = drop-append p s

pub snoc-append : {A : Type 0} (xs ys : List A) (x : A) → (xs ++ x ∷ []) ++ ys ≡ xs ++ x ∷ ys
snoc-append [] ys x = refl
snoc-append (z ∷ xs) ys x = ap (λ t. z ∷ t) (snoc-append xs ys x)

pub child_key :
    (dir name : Text)
    → scan_prefix dir ++ name ≡ ns_prefix ++ (trim_suffix slash dir ++ slash ∷ name)
unfolding scan_prefix
child_key dir name = ap (λ t. ns_prefix ++ t) (snoc-append (trim_suffix slash dir) name slash)

module _ {Blob : Type 0} where
  pub item_at-key :
      (items : List (Item Blob)) (k : Text) (v : Result BadgerError Blob)
      → In (k, v) items
      → ¬ (item_at k items ≡ none)
  item_at-key [] k v i = absurd i
  item_at-key ((j, w) ∷ items) k v (inl e) =
      ground (arith, ap (λ r. r.0) e, text_eq_refl k, text_eq_iff j k)
  item_at-key ((j, w) ∷ items) k v (inr i) = ground (arith, item_at-key items k v i)

  pub item_at-In :
      (items : List (Item Blob)) (k : Text) (v : Result BadgerError Blob)
      → item_at k items ≡ some v
      → In (k, v) items
  item_at-In [] k v e = absurd (cc)
  item_at-In ((j, w) ∷ items) k v e = elim (Bool-cases (text_eq j k)) [
    | inl same ↦ inl (ap₂ (λ x y. (x, y)) ((text_eq_iff j k).0 same) (ground arith))
    | inr other ↦ inr (item_at-In items k v (ground arith))
  ]

  pub In-item_at :
      (items : List (Item Blob)) (k : Text) (v : Result BadgerError Blob)
      → IsListing items
      → In (k, v) items
      → item_at k items ≡ some v
  In-item_at [] k v l i = absurd i
  In-item_at ((j, w) ∷ items) k v (gone, l) (inl e) =
      ground (arith, ap (λ r. r.0) e, ap (λ r. r.1) e, text_eq_iff j k)
  In-item_at ((j, w) ∷ items) k v (gone, l) (inr i) = elim (Bool-cases (text_eq j k)) [
    | inl same ↦ absurd (
        item_at-key items k v i
          (subst (λ t. item_at t items ≡ none) ((text_eq_iff j k).0 same) gone))
    | inr other ↦ rw other (In-item_at items k v l i)
  ]

module _ {Blob : Type 0} (b : Badger Blob) (c : Codec Blob) where
  -- Every read succeeds or finds nothing, and every value is an inode.
  unfoldable pub IsReadable : b.Db → Type 0
  IsReadable ns =
      (k : Text)
      → (get_key b ns k ≡ err key_not_found)
        ⊎ ((v : Blob) × (get_key b ns k ≡ ok v) × ((fi : FileInfo) × (c.unmarshal v ≡ some fi)))

  pub stat_iff :
      (ns : b.Db) (q : Text) (fi : FileInfo)
      → (stat b c ns q ≡ ok fi)
        ↔ ((v : Blob) × (get_key b ns (ns_prefix ++ q) ≡ ok v) × (c.unmarshal v ≡ some fi))
  unfolding stat
  stat_iff ns q fi = (
    λ h. elim (Result-cases (get_key b ns (ns_prefix ++ q))) [
      | inr (key_not_found, e) ↦ absurd (ground arith)
      | inr (store_failed, e) ↦ absurd (ground arith)
      | inl (v, e) ↦ (v, e, ground (arith, Option-cases (c.unmarshal v)))
    ],
    λ (v, e, d). rw (stat, e, decoded, d) refl,
  )

  pub item-get_key :
      (ns : b.Db) (p k : Text) (v : Blob)
      → In (k, ok v) (b.items (b.begin ns) p) ↔ ((has_prefix k p ≡ true) × (get_key b ns k ≡ ok v))
  unfolding get_key
  item-get_key ns p k v = (
    λ i.
        let found =
          In-item_at (b.items (b.begin ns) p) k (ok v) (b.items-IsListing (b.begin ns) p) i in
        elim (Result-cases (b.read (b.begin ns) k)) [
          | inl (w, e) ↦ ground (arith, b.item_at-items (b.begin ns) p k, found)
          | inr (badger_key_not_found, e) ↦
              absurd (ground (arith, b.item_at-items (b.begin ns) p k, found))
          | inr (badger_failed, e) ↦
              absurd (ground (arith, b.item_at-items (b.begin ns) p k, found))
        ],
    λ (h, e). elim (Result-cases (b.read (b.begin ns) k)) [
      | inl (w, r) ↦
          item_at-In (b.items (b.begin ns) p) k (ok v)
            (ground (arith, b.item_at-items (b.begin ns) p k))
      | inr (x, r) ↦ absurd (ground arith)
    ],
  )

  pub item-read :
      (ns : b.Db) (p k : Text) (r : Result BadgerError Blob)
      → IsReadable ns
      → In (k, r) (b.items (b.begin ns) p)
      → (v : Blob) × (r ≡ ok v) × ((fi : FileInfo) × (c.unmarshal v ≡ some fi))
  unfolding IsReadable get_key store_error
  item-read ns p k r good i =
      let found = In-item_at (b.items (b.begin ns) p) k r (b.items-IsListing (b.begin ns) p) i in
      elim (Result-cases (b.read (b.begin ns) k)) [
        | inl (w, e) ↦ elim (good k) [
          | inl missing ↦ absurd (ground arith)
          | inr (v, g, known) ↦ (v, ground (arith, b.item_at-items (b.begin ns) p k, found), known)
        ]
        | inr (badger_key_not_found, e) ↦
            absurd (ground (arith, b.item_at-items (b.begin ns) p k, found))
        | inr (badger_failed, e) ↦ elim (good k) [
          | inl missing ↦ absurd (ground arith)
          | inr (v, g, known) ↦ absurd (ground arith)
        ]
      ]
