-- ===== src/Metadata/Namespace.antt =====
-- internal/metadata/namespace.go: the tree of files and directories over the store. encoding/json
-- is an interface; a time.Time is `none` for the zero value, and what time.Now gives is an
-- argument; sizes below 0 are not modelled.
pub mod Effects
pub mod Items
pub mod Reach
pub mod Examples
mod Tests
pub mod Listing
pub mod Totals
use vault_fs.Base.{
  ℕ, suc, String, Bool, true, false, List, [], ◌∷◌, ◌++◌, Option, none, some, Result, ok, err,
  ◌>>=◌, wrap, ◌≡◌, not, Text, text_eq, chars, has_char, slash, trim_suffix, if◌then◌else◌, length,
  drop,
}
use vault_fs.GoMap.{Map, insert}
use vault_fs.Metadata.Store.{
  Badger, KeyError, key_not_found, store_failed, get_key, put_key, delete_key, scan, txn_set,
  txn_delete, txn_commit,
}

pub data NamespaceError : Type 0 where
  not_found already_exists not_directory broken_store bad_json : NamespaceError

pub record FileInfo : Type 0 where
  pub path : Text
  pub is_dir : Bool
  pub size : ℕ
  pub chunk_ids : List String
  pub mode : ℕ
  pub created_at : Option ℕ
  pub updated_at : Option ℕ

-- json.Marshal and json.Unmarshal on inodes: what was written is read back.
pub record Codec (Blob : Type 0) : Type 0 where
  pub marshal : FileInfo → Option Blob
  pub unmarshal : Blob → Option FileInfo
  pub unmarshal-marshal : (fi : FileInfo) (v : Blob) → marshal fi ≡ some v → unmarshal v ≡ some fi

abbrev pub ns_prefix : Text
ns_prefix = chars "ns:"

-- What Stats counts: the files, and the chunks seen.
pub record Tally : Type 0 where
  pub files : ℕ
  pub seen : Map (Unit {0})

-- The loop of Stats over the chunks of one file.
unfoldable pub note_chunks : List String → Map (Unit {0}) → Map (Unit {0})
note_chunks [] seen = seen
note_chunks (id ∷ ids) seen = note_chunks ids (insert id tt seen)

abbrev pub from_store : KeyError → NamespaceError
from_store e = broken_store

unfoldable pub scan_prefix : Text → Text
scan_prefix dir = ns_prefix ++ trim_suffix slash dir ++ slash ∷ []

module _ {Blob : Type 0} (b : Badger Blob) (c : Codec Blob) where
  abbrev pub decoded : Blob → Result NamespaceError FileInfo
  decoded val = elim (c.unmarshal val) [ none ↦ err bad_json | some fi ↦ ok fi ]

  unfoldable pub stat : b.Db → Text → Result NamespaceError FileInfo
  stat ns path = elim (get_key b ns (ns_prefix ++ path)) [
    | err key_not_found ↦ err not_found
    | err store_failed ↦ err broken_store
    | ok val ↦ decoded val
  ]

  unfoldable pub write : b.Db → FileInfo → Result NamespaceError b.Db
  write ns info = elim (c.marshal info) [
    | none ↦ err bad_json
    | some val ↦ wrap from_store (put_key b ns (ns_prefix ++ info.path) val)
  ]

  unfoldable pub create_file : b.Db → ℕ → FileInfo → Result NamespaceError b.Db
  unfolding write
  create_file ns now info = elim (stat ns info.path) [
    | ok fi ↦ err already_exists
    | err e ↦ write ns (record info { created_at = some now; updated_at = some now })
  ]

  -- A new directory has the mode 0o755.
  unfoldable pub create_dir : b.Db → ℕ → Text → Result NamespaceError b.Db
  unfolding write
  create_dir ns now path = elim (stat ns path) [
    | ok fi ↦ err already_exists
    | err e ↦ write ns (record {
      path = path;
      is_dir = true;
      size = 0;
      chunk_ids = [];
      mode = 493;
      created_at = some now;
      updated_at = some now;
    })
  ]

  unfoldable pub update_file : b.Db → ℕ → FileInfo → Result NamespaceError b.Db
  unfolding write
  update_file ns now info = elim (stat ns info.path) [
    | err e ↦ err e
    | ok fi ↦ write ns (record info { updated_at = some now })
  ]

  unfoldable pub delete_file : b.Db → Text → Result NamespaceError b.Db
  delete_file ns path = elim (stat ns path) [
    | err e ↦ err e
    | ok fi ↦ wrap from_store (delete_key b ns (ns_prefix ++ path))
  ]

  -- The callback of ListDir.
  unfoldable pub list_step :
      Text → List FileInfo → Text → Blob → Result NamespaceError (List FileInfo)
  list_step prefix results key val =
      if has_char slash (drop (length prefix) key)
      then ok results
      else elim (c.unmarshal val) [ none ↦ err bad_json | some fi ↦ ok (results ++ fi ∷ []) ]

  -- The entries of a directory, without the test that it is one.
  unfoldable pub children : b.Db → Text → Result NamespaceError (List FileInfo)
  unfolding list_step scan_prefix
  children ns dir = scan b broken_store (list_step (scan_prefix dir)) ns (scan_prefix dir) []

  unfoldable pub list_dir : b.Db → Text → Result NamespaceError (List FileInfo)
  unfolding children
  list_dir ns dir =
      if text_eq dir (slash ∷ [])
      then children ns dir
      else (stat ns dir >>= λ fi. if fi.is_dir then children ns dir else err not_directory)

  -- The callback of Stats.
  unfoldable pub stats_step : Tally → Text → Blob → Result NamespaceError Tally
  unfolding note_chunks
  stats_step t key val = elim (c.unmarshal val) [
    | none ↦ err bad_json
    | some fi ↦
        if fi.is_dir
        then ok t
        else ok (record { files = suc t.files; seen = note_chunks fi.chunk_ids t.seen })
  ]

  unfoldable pub stats : b.Db → Result NamespaceError (ℕ × ℕ)
  unfolding stats_step
  stats ns = scan b broken_store stats_step ns ns_prefix (record { files = 0; seen = [] }) >>= λ t.
      ok (t.files, length t.seen)

  unfoldable pub rename : b.Db → ℕ → Text → Text → Result NamespaceError b.Db
  rename ns now from to = elim (stat ns from) [
    | err e ↦ err e
    | ok fi ↦ elim (stat ns to) [
      | ok taken ↦ err already_exists
      | err e ↦ elim (c.marshal (record fi { path = to; updated_at = some now })) [
        | none ↦ err bad_json
        | some val ↦ wrap from_store (do
          t ← txn_set b (b.begin ns) (ns_prefix ++ to) val
          u ← txn_delete b t (ns_prefix ++ from)
          txn_commit b u)
      ]
    ]
  ]
