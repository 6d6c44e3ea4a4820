-- ===== src/Metadata/Store/Laws.antt =====
-- What a read finds after each operation of the store.
use vault_fs.Base.{ok, err, ◌>>=◌, Result-cases, inl, inr, ◌≡◌, Text, text_eq, if◌then◌else◌, arith}
use vault_fs.Metadata.Store.{
  Badger, key_not_found, store_error, get_key, put_key, delete_key, txn_set, txn_delete, txn_commit,
}

module _ {Blob : Type 0} (b : Badger Blob) where
  pub get_key-put_key :
      (db db' : b.Db) (k j : Text) (v : Blob)
      → put_key b db k v ≡ ok db'
      → get_key b db' j ≡ (if text_eq k j then ok v else get_key b db j)
  unfolding put_key get_key
  get_key-put_key db db' k j v h = elim (Result-cases (b.set (b.begin db) k v)) [
    | inr (e, q) ↦ absurd (ground arith)
    | inl (t, q) ↦ elim (Result-cases (b.commit t)) [
      | inr (e, r) ↦ absurd (ground arith)
      | inl (new, r) ↦ ground (arith, b.read-set (b.begin db) k j v t q, b.read-commit t new j r)
    ]
  ]

  pub get_key-delete_key :
      (db db' : b.Db) (k j : Text)
      → delete_key b db k ≡ ok db'
      → get_key b db' j ≡ (if text_eq k j then err key_not_found else get_key b db j)
  unfolding delete_key get_key store_error
  get_key-delete_key db db' k j h = elim (Result-cases (b.delete (b.begin db) k)) [
    | inr (e, q) ↦ absurd (ground arith)
    | inl (t, q) ↦ elim (Result-cases (b.commit t)) [
      | inr (e, r) ↦ absurd (ground arith)
      | inl (new, r) ↦ ground (arith, b.read-delete (b.begin db) k j t q, b.read-commit t new j r)
    ]
  ]

  -- A transaction that sets one key and then deletes another.
  pub get_key-move :
      (db db' : b.Db) (to from j : Text) (v : Blob)
      → (do t ← txn_set b (b.begin db) to v; u ← txn_delete b t from; txn_commit b u) ≡ ok db'
      → get_key b db' j ≡ (
          if text_eq from j
          then err key_not_found
          else if text_eq to j
          then ok v
          else get_key b db j)
  unfolding txn_set txn_delete txn_commit get_key store_error
  get_key-move db db' to from j v h = elim (Result-cases (b.set (b.begin db) to v)) [
    | inr (e, q) ↦ absurd (ground arith)
    | inl (t, q) ↦ elim (Result-cases (b.delete t from)) [
      | inr (e, q') ↦ absurd (ground arith)
      | inl (u, q') ↦ elim (Result-cases (b.commit u)) [
        | inr (e, r) ↦ absurd (ground arith)
        | inl (new, r) ↦ ground (
          arith,
          b.read-set (b.begin db) to j v t q,
          b.read-delete t from j u q',
          b.read-commit u new j r,
        )
      ]
    ]
  ]
