-- ===== src/Chunk/Store/Access.antt =====
-- Reading, writing and deleting chunks by the digest of their contents.
use vault_fs.Base.{
  ℕ, ◌≡◌, ◌≢◌, refl, inl, inr, String, Bool, true, false, some, List, arith, ok, err, Option-cases,
  eq_iff, eq_refl,
}
use vault_fs.GoMap.{lookup, contains}
use vault_fs.GoMap.Laws.{lookup-insert}
use vault_fs.Chunk.Store.{
  Store, checksum_failed, has_path, write_chunk, begin_write, finish_write, read_chunk,
}

-- Every file has the digest that it is named for.
abbrev pub IsVerified : (List ℕ → String) → Store → Type 0
IsVerified hash s = (id : String) (c : List ℕ) → lookup id s.files ≡ some c → hash c ≡ id

module _ (hash : List ℕ → String) where
  -- A write keeps every file under its own digest.
  pub write_chunk-IsVerified :
      (done : Bool) (s : Store) (contents : List ℕ)
      → IsVerified hash s
      → IsVerified hash (write_chunk hash done s contents).0
  unfolding write_chunk begin_write finish_write
  write_chunk-IsVerified done s contents v id c h =
      ground (
        arith,
        lookup-insert (hash contents) id contents s.files,
        eq_iff (hash contents) id,
        v id c,
      )

  -- On a store whose files have the digests that they are named for, what is written while nobody
  -- else writes it can be read back as contents of the same digest, and another chunk reads as
  -- before.
  pub read-write_chunk :
      (s : Store) (contents : List ℕ) (other : String)
      → IsVerified hash s
      → has_path (hash contents) ≡ true
      → contains (hash contents) s.writing ≡ false
      → hash contents ≢ other
      → let s' = (write_chunk hash false s contents).0 in
        ((c : List ℕ) × (read_chunk hash false s' (hash contents) ≡ ok c)
          × (hash c ≡ hash contents))
        × (read_chunk hash false s' other ≡ read_chunk hash false s other)
  unfolding write_chunk begin_write finish_write read_chunk contains
  read-write_chunk s contents other v named free apart =
      elim (Option-cases (lookup (hash contents) s.files)) [
        | inr (c, found) ↦ (
          (
            c,
            ground (arith, v (hash contents) c, eq_iff (hash c) (hash contents)),
            v (hash contents) c found,
          ),
          ground arith,
        )
        | inl missing ↦ (
          (
            contents,
            ground (
              arith,
              lookup-insert (hash contents) (hash contents) contents s.files,
              eq_refl (hash contents),
            ),
            refl,
          ),
          ground (
            arith,
            lookup-insert (hash contents) other contents s.files,
            eq_iff (hash contents) other,
          ),
        )
      ]

  -- Contents that are written again while nobody else writes them do not replace a file that has
  -- been corrupted: the write reports success, and the chunk is as unreadable as before.
  pub corrupt_stays :
      (s : Store) (contents bad : List ℕ)
      → has_path (hash contents) ≡ true
      → contains (hash contents) s.writing ≡ false
      → lookup (hash contents) s.files ≡ some bad
      → hash bad ≢ hash contents
      → ((write_chunk hash false s contents).1 ≡ ok (hash contents))
        × (read_chunk hash false (write_chunk hash false s contents).0 (hash contents)
            ≡ err checksum_failed)
  unfolding write_chunk begin_write finish_write read_chunk contains
  corrupt_stays s contents bad named free there differs =
      ground (arith, eq_iff (hash bad) (hash contents))
