-- ===== src/Metadata/Store/Log.antt =====
-- A database that keeps the log of its writes, the newest first: the interface can be met.
use vault_fs.Base.{
  List, [], ◌∷◌, Option, none, some, Result, ok, err, ◌≡◌, refl, Bool, true, false, Bool-cases,
  Option-cases, ◌⊎◌, inl, inr, Text, text_eq, text_eq_iff, text_eq_refl, has_prefix, if◌then◌else◌,
  arith,
}
use vault_fs.Metadata.Store.{
  Badger, BadgerError, badger_key_not_found, Item, item_at, as_item, IsListing,
}

module _ (Blob : Type 0) where
  abbrev Log : Type 0
  Log = List (Text × Option Blob)

  abbrev found : Option Blob → Result BadgerError Blob
  found none = err badger_key_not_found
  found (some v) = ok v

  abbrev log_read : Log → Text → Result BadgerError Blob
  log_read [] j = err badger_key_not_found
  log_read ((k, o) ∷ log) j = if text_eq k j then found o else log_read log j

  abbrev drop_key : Text → List (Item Blob) → List (Item Blob)
  drop_key k [] = []
  drop_key k ((j, r) ∷ items) =
      let rest = drop_key k items in if text_eq k j then rest else (j, r) ∷ rest

  abbrev add_item : Bool → Text → Option Blob → List (Item Blob) → List (Item Blob)
  add_item true k (some v) items = (k, ok v) ∷ items
  add_item true k none items = items
  add_item false k o items = items

  abbrev log_items : Log → Text → List (Item Blob)
  log_items [] p = []
  log_items ((k, o) ∷ log) p = add_item (has_prefix k p) k o (drop_key k (log_items log p))

  item_at-drop_key :
      (k j : Text) (items : List (Item Blob))
      → item_at j (drop_key k items) ≡ (if text_eq k j then none else item_at j items)
  item_at-drop_key k j [] = ground arith
  item_at-drop_key k j ((i, r) ∷ items) =
      ground (arith, item_at-drop_key k j items, text_eq_iff k i, text_eq_iff i j, text_eq_iff k j)

  drop_key-IsListing :
      (k : Text) (items : List (Item Blob)) → IsListing items → IsListing (drop_key k items)
  drop_key-IsListing k [] l = tt
  drop_key-IsListing k ((i, r) ∷ items) (gone, l) =
      ground (arith, drop_key-IsListing k items l, item_at-drop_key k i items)

  pub item_at-log_items :
      (log : Log) (p k : Text)
      → item_at k (log_items log p) ≡ (if has_prefix k p then as_item (log_read log k) else none)
  item_at-log_items [] p k = ground arith
  item_at-log_items ((j, none) ∷ log) p k = ground (
    arith,
    Bool-cases (has_prefix j p),
    item_at-drop_key j k (log_items log p),
    item_at-log_items log p k,
    text_eq_iff j k,
  )
  item_at-log_items ((j, some v) ∷ log) p k = ground (
    arith,
    Bool-cases (has_prefix j p),
    item_at-drop_key j k (log_items log p),
    item_at-log_items log p k,
    text_eq_iff j k,
  )

  pub log_items-IsListing : (log : Log) (p : Text) → IsListing (log_items log p)
  log_items-IsListing [] p = tt
  log_items-IsListing ((j, none) ∷ log) p = ground (
    arith,
    Bool-cases (has_prefix j p),
    drop_key-IsListing j (log_items log p) (log_items-IsListing log p),
  )
  log_items-IsListing ((j, some v) ∷ log) p = ground (
    arith,
    Bool-cases (has_prefix j p),
    item_at-drop_key j j (log_items log p),
    text_eq_refl j,
    drop_key-IsListing j (log_items log p) (log_items-IsListing log p),
  )

  pub log_read-set :
      (t : Log) (k j : Text) (v : Blob) (u : Log)
      → ◌≡◌ {A = Result BadgerError Log} (ok ((k, some v) ∷ t)) (ok u)
      → log_read u j ≡ (if text_eq k j then ok v else log_read t j)
  log_read-set t k j v u e = ground arith

  pub log_read-delete :
      (t : Log) (k j : Text) (u : Log)
      → ◌≡◌ {A = Result BadgerError Log} (ok ((k, none) ∷ t)) (ok u)
      → log_read u j ≡ (if text_eq k j then err badger_key_not_found else log_read t j)
  log_read-delete t k j u e = ground arith

  pub log_read-commit :
      (t db : Log) (j : Text)
      → ◌≡◌ {A = Result BadgerError Log} (ok t) (ok db)
      → log_read db j ≡ log_read t j
  log_read-commit t db j e = ground arith

  -- A read never fails.
  pub log_read-cases :
      (log : Log) (k : Text)
      → (log_read log k ≡ err badger_key_not_found) ⊎ ((v : Blob) × (log_read log k ≡ ok v))
  log_read-cases [] k = inl refl
  log_read-cases ((j, o) ∷ log) k = elim (Bool-cases (text_eq j k)) [
    | inl e ↦ elim (Option-cases o) [
      | inl f ↦ inl (ground arith)
      | inr (v, f) ↦ inr (v, ground arith)
    ]
    | inr e ↦ elim (log_read-cases log k) [
      | inl f ↦ inl (ground arith)
      | inr (v, f) ↦ inr (v, ground arith)
    ]
  ]

  abbrev pub log_badger : Badger Blob
  log_badger = record {
    Db = Log;
    Txn = Log;
    begin = λ db. db;
    read = log_read;
    set = λ t k v. ok ((k, some v) ∷ t);
    delete = λ t k. ok ((k, none) ∷ t);
    commit = ok;
    items = log_items;
    read-set = log_read-set;
    read-delete = log_read-delete;
    read-commit = log_read-commit;
    item_at-items = item_at-log_items;
    items-IsListing = log_items-IsListing;
  }
