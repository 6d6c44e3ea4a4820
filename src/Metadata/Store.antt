-- ===== src/Metadata/Store.antt =====
-- internal/metadata/store.go: the key-value store over BadgerDB, whose transactions, iterators and
-- commits are an interface. One transaction runs at a time. A key is a list of characters; the
-- stored values are of a type `Blob` of byte strings that this layer does not look into.
pub mod Laws
pub mod Log
use vault_fs.Base.{
  Bool, true, false, List, [], ◌∷◌, Option, none, some, Result, ok, err, ◌>>=◌, wrap, ◌≡◌, Text,
  text_eq, has_prefix, if◌then◌else◌,
}

pub data BadgerError : Type 0 where
  badger_key_not_found badger_failed : BadgerError

-- One pair of an iterator: its key, and what reading the value gives.
abbrev pub Item : Type 0 → Type 0
Item Blob = Text × Result BadgerError Blob

module _ {Blob : Type 0} where
  -- The first item with the key.
  abbrev pub item_at : Text → List (Item Blob) → Option (Result BadgerError Blob)
  item_at k [] = none
  item_at k ((j, v) ∷ items) = if text_eq j k then some v else item_at k items

  -- What a read of a key says of the items of an iterator.
  abbrev pub as_item : Result BadgerError Blob → Option (Result BadgerError Blob)
  as_item (ok v) = some (ok v)
  as_item (err badger_key_not_found) = none
  as_item (err badger_failed) = some (err badger_failed)

  -- No two items have one key.
  abbrev pub IsListing : List (Item Blob) → Type 0
  IsListing [] = Unit
  IsListing ((k, v) ∷ items) = (item_at k items ≡ none) × IsListing items

-- BadgerDB as the program uses it. A transaction reads its own writes; a commit that succeeds makes
-- a database that reads as the transaction did; an iterator gives each key with the prefix once.
pub record Badger (Blob : Type 0) : Type 1 where
  pub Db : Type 0
  pub Txn : Type 0
  pub begin : Db → Txn
  pub read : Txn → Text → Result BadgerError Blob
  pub set : Txn → Text → Blob → Result BadgerError Txn
  pub delete : Txn → Text → Result BadgerError Txn
  pub commit : Txn → Result BadgerError Db
  pub items : Txn → Text → List (Item Blob)
  pub read-set :
      (t : Txn) (k j : Text) (v : Blob) (u : Txn)
      → set t k v ≡ ok u
      → read u j ≡ (if text_eq k j then ok v else read t j)
  pub read-delete :
      (t : Txn) (k j : Text) (u : Txn)
      → delete t k ≡ ok u
      → read u j ≡ (if text_eq k j then err badger_key_not_found else read t j)
  pub read-commit : (t : Txn) (db : Db) (j : Text) → commit t ≡ ok db → read (begin db) j ≡ read t j
  pub item_at-items :
      (t : Txn) (p k : Text)
      → item_at k (items t p) ≡ (if has_prefix k p then as_item (read t k) else none)
  pub items-IsListing : (t : Txn) (p : Text) → IsListing (items t p)

pub data KeyError : Type 0 where
  key_not_found store_failed : KeyError

-- The test on badger.ErrKeyNotFound in Store.Get and Txn.Get.
unfoldable pub store_error : BadgerError → KeyError
store_error badger_key_not_found = key_not_found
store_error badger_failed = store_failed

-- The wrapping of any error in the other operations.
abbrev pub failure : BadgerError → KeyError
failure e = store_failed

module _ {Blob : Type 0} (b : Badger Blob) where
  unfoldable pub txn_get : b.Txn → Text → Result KeyError Blob
  unfolding store_error
  txn_get t k = wrap store_error (b.read t k)

  unfoldable pub txn_set : b.Txn → Text → Blob → Result KeyError b.Txn
  txn_set t k v = wrap failure (b.set t k v)

  unfoldable pub txn_delete : b.Txn → Text → Result KeyError b.Txn
  txn_delete t k = wrap failure (b.delete t k)

  unfoldable pub txn_commit : b.Txn → Result KeyError b.Db
  txn_commit t = wrap failure (b.commit t)

  -- db.View runs its function on a transaction that is then discarded.
  unfoldable pub get_key : b.Db → Text → Result KeyError Blob
  unfolding store_error
  get_key db k = wrap store_error (b.read (b.begin db) k)

  -- db.Update runs its function on a transaction and commits it, unless the function fails.
  unfoldable pub put_key : b.Db → Text → Blob → Result KeyError b.Db
  put_key db k v = wrap failure (do t ← b.set (b.begin db) k v; b.commit t)

  unfoldable pub delete_key : b.Db → Text → Result KeyError b.Db
  delete_key db k = wrap failure (do t ← b.delete (b.begin db) k; b.commit t)

  module _ {S E : Type 0} (failed : E) (step : S → Text → Blob → Result E S) where
    -- The loop of Scan. The callback's variables are the state S.
    unfoldable pub walk : List (Item Blob) → S → Result E S
    walk [] s = ok s
    walk ((k, err e) ∷ items) s = err failed
    walk ((k, ok v) ∷ items) s = step s k v >>= walk items

    unfoldable pub scan : b.Db → Text → S → Result E S
    unfolding walk
    scan db prefix s = walk (b.items (b.begin db) prefix) s
