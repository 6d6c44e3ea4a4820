-- ===== src/Metadata/Namespace/Tests.antt =====
-- The namespace on a small tree.
use vault_fs.Base.{
  String, true, false, List, [], ◌∷◌, ◌++◌, none, some, ok, err, inr, ◌≡◌, ◌↔◌, refl, Text, text_eq,
  chars, length, In, Distinct, if◌then◌else◌,
}
use vault_fs.GoMap.{Map, IsMap, contains, insert}
use vault_fs.Metadata.Store.{
  get_key, put_key, store_error, txn_set, txn_delete, txn_commit, scan, walk,
}
use vault_fs.Metadata.Namespace.{
  FileInfo, not_found, not_directory, ns_prefix, stat, write, create_dir, list_dir, children,
  list_step, scan_prefix, stats_step, note_chunks, stats, rename,
}
use vault_fs.Metadata.Namespace.Examples.{db, same, tree, inode, readable}
use vault_fs.Metadata.Namespace.Listing.{list_dir_lem, IsChild}
use vault_fs.Metadata.Namespace.Effects.{rename_lem}
use vault_fs.Metadata.Namespace.Totals.{stats_lem}
use vault_fs.Metadata.Namespace.Reach.{IsKeyed}

abbrev moved : db.Db
moved =
    (chars "ns:/a/x", none)
    ∷ (chars "ns:/b", some (record (inode (chars "/b") false ("c1" ∷ [])) { updated_at = some 9 }))
    ∷ tree

rename_run : rename db same tree 9 (chars "/a/x") (chars "/b") ≡ ok moved
unfolding rename stat get_key store_error txn_set txn_delete txn_commit
rename_run = refl

rename_example :
    (fi : FileInfo) × (stat db same tree (chars "/a/x") ≡ ok fi)
    × ((other : FileInfo) → ¬ (stat db same tree (chars "/b") ≡ ok other))
    × ((q : Text)
        → stat db same moved q ≡ (
            if text_eq (chars "/b") q
            then ok (record fi { path = chars "/b"; updated_at = some 9 })
            else if text_eq (chars "/a/x") q
            then err not_found
            else stat db same tree q))
rename_example = rename_lem db same tree moved 9 (chars "/a/x") (chars "/b") rename_run

rename_missing : rename db same tree 9 (chars "/z") (chars "/b") ≡ err not_found
unfolding rename stat get_key store_error
rename_missing = refl

list_run :
    list_dir db same tree (chars "/a")
    ≡ ok (
        inode (chars "/a/y") false ("c2" ∷ "c1" ∷ []) ∷ inode (chars "/a/x") false ("c1" ∷ []) ∷ [])
unfolding list_dir stat get_key store_error children scan walk list_step scan_prefix
list_run = refl

a_is_dir : (info : FileInfo) × (stat db same tree (chars "/a") ≡ ok info) × (info.is_dir ≡ true)
unfolding stat get_key store_error
a_is_dir = (inode (chars "/a") true [], refl, refl)

list_dir_example :
    (out : List FileInfo) × (list_dir db same tree (chars "/a") ≡ ok out)
    × ((fi : FileInfo) → In fi out ↔ IsChild db same tree (chars "/a") fi)
list_dir_example = list_dir_lem db same tree (chars "/a") (readable tree) (inr a_is_dir)

list_file : list_dir db same tree (chars "/a/x") ≡ err not_directory
unfolding list_dir stat get_key store_error
list_file = refl

stats_run : stats db same tree ≡ ok (2, 2)
unfolding stats scan walk stats_step note_chunks insert
stats_run = refl

stats_example :
    (entries : List (Text × FileInfo)) × (seen : Map (Unit {0})) × (stats db same tree
      ≡ ok (length entries, length seen))
    × Distinct entries
    × ((k : Text) (fi : FileInfo)
        → In (k, fi) entries ↔ (
            (path : Text) × (k ≡ ns_prefix ++ path)
            × (stat db same tree path ≡ ok fi)
            × (fi.is_dir ≡ false)))
    × IsMap seen
    × ((id : String)
        → (contains id seen ≡ true) ↔ (
            (path : Text) × (fi : FileInfo) × (stat db same tree path ≡ ok fi)
            × (fi.is_dir ≡ false)
            × In id fi.chunk_ids))
stats_example = stats_lem db same tree (readable tree)

nothing-IsKeyed : IsKeyed db same []
unfolding stat get_key store_error
nothing-IsKeyed q fi e = absurd (cc)

made :
    create_dir db same [] 4 (chars "/a")
    ≡ ok (
        (
          chars "ns:/a",
          some (record (inode (chars "/a") true []) {
            size = 0;
            mode = 493;
            created_at = some 4;
            updated_at = some 4;
          }),
        )
        ∷ [])
unfolding create_dir stat get_key store_error write put_key
made = refl
