-- ===== src/Metadata/Namespace/Examples.antt =====
-- A namespace over the logging database, whose values are the inodes themselves.
use vault_fs.Base.{
  String, Bool, true, false, List, [], ◌∷◌, none, some, inl, inr, ◌≡◌, refl, sym, sym, Text, chars,
}
use vault_fs.Metadata.Store.{Badger, get_key, store_error}
use vault_fs.Metadata.Store.Log.{log_badger, log_read-cases}
use vault_fs.Metadata.Namespace.{FileInfo, Codec}
use vault_fs.Metadata.Namespace.Items.{IsReadable}

abbrev pub db : Badger FileInfo
db = log_badger FileInfo

pub kept : (fi v : FileInfo) → some fi ≡ some v → some v ≡ some fi
kept fi v e = sym e

abbrev pub same : Codec FileInfo
same = record { marshal = some; unmarshal = some; unmarshal-marshal = kept }

readable_value : (v : FileInfo) → (fi : FileInfo) × (same.unmarshal v ≡ some fi)
readable_value v = (v, refl)

pub readable : (ns : db.Db) → IsReadable db same ns
unfolding IsReadable get_key store_error
readable ns k = elim (log_read-cases FileInfo ns k) [
  | inl e ↦ inl (rw (get_key, e) refl)
  | inr (v, e) ↦ inr (v, rw (get_key, e) refl, readable_value v)
]

abbrev pub inode : Text → Bool → List String → FileInfo
inode path is_dir ids = record {
  path = path;
  is_dir = is_dir;
  size = 3;
  chunk_ids = ids;
  mode = 420;
  created_at = none;
  updated_at = none;
}

-- A directory with two files, which share a chunk.
abbrev pub tree : db.Db
tree =
    (chars "ns:/a/y", some (inode (chars "/a/y") false ("c2" ∷ "c1" ∷ [])))
    ∷ (chars "ns:/a/x", some (inode (chars "/a/x") false ("c1" ∷ [])))
    ∷ (chars "ns:/a", some (inode (chars "/a") true []))
    ∷ []
