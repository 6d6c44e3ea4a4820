-- ===== src/Metadata/Namespace/Reach.antt =====
-- The namespace under any sequence of its operations.
use vault_fs.Base.{ℕ, ok, ◌≡◌, Text, text_eq_iff, arith}
use vault_fs.Metadata.Store.{Badger}
use vault_fs.Metadata.Namespace.{
  FileInfo, Codec, stat, create_file, create_dir, update_file, delete_file, rename,
}
use vault_fs.Metadata.Namespace.Effects.{
  stat-create_file, stat-create_dir, stat-delete_file, update_file_lem, rename_lem,
}

module _ {Blob : Type 0} (b : Badger Blob) (c : Codec Blob) where
  -- One operation that succeeds, at any time.
  pub data Step : b.Db → b.Db → Type 0 where
    creates :
        {ns ns' : b.Db} (now : ℕ) (info : FileInfo)
        → create_file b c ns now info ≡ ok ns'
        → Step ns ns'
    makes_dir :
        {ns ns' : b.Db} (now : ℕ) (path : Text) → create_dir b c ns now path ≡ ok ns' → Step ns ns'
    updates :
        {ns ns' : b.Db} (now : ℕ) (info : FileInfo)
        → update_file b c ns now info ≡ ok ns'
        → Step ns ns'
    deletes : {ns ns' : b.Db} (path : Text) → delete_file b c ns path ≡ ok ns' → Step ns ns'
    renames :
        {ns ns' : b.Db} (now : ℕ) (from to : Text)
        → rename b c ns now from to ≡ ok ns'
        → Step ns ns'

  pub data Reach : b.Db → b.Db → Type 0 where
    start : {ns : b.Db} → Reach ns ns
    next : {ns mid ns' : b.Db} → Reach ns mid → Step mid ns' → Reach ns ns'

  -- Each inode says the path that it is found at.
  abbrev pub IsKeyed : b.Db → Type 0
  IsKeyed ns = (q : Text) (fi : FileInfo) → stat b c ns q ≡ ok fi → fi.path ≡ q

  pub Step-IsKeyed : {ns ns' : b.Db} → IsKeyed ns → Step ns ns' → IsKeyed ns'
  Step-IsKeyed {ns} {ns'} k (creates now info h) q fi e =
      ground (arith, stat-create_file b c ns ns' now info q h, k q fi, text_eq_iff info.path q)
  Step-IsKeyed {ns} {ns'} k (makes_dir now path h) q fi e =
      ground (arith, stat-create_dir b c ns ns' now path q h, k q fi, text_eq_iff path q)
  Step-IsKeyed {ns} {ns'} k (updates now info h) q fi e =
      ground (arith, (update_file_lem b c ns ns' now info h).1 q, k q fi, text_eq_iff info.path q)
  Step-IsKeyed {ns} {ns'} k (deletes path h) q fi e =
      ground (arith, stat-delete_file b c ns ns' path q h, k q fi)
  Step-IsKeyed {ns} {ns'} k (renames now from to h) q fi e =
      let (old, found, free, after) = rename_lem b c ns ns' now from to h in
      ground (arith, after q, k q fi, text_eq_iff to q)

  -- From a namespace in which each inode says its own path, every sequence of creations, updates,
  -- deletions and renamings that succeed leads to one again.
  pub Reach-IsKeyed : {ns ns' : b.Db} → Reach ns ns' → IsKeyed ns → IsKeyed ns'
  Reach-IsKeyed start k = k
  Reach-IsKeyed (next before step) k = Step-IsKeyed (Reach-IsKeyed before k) step
