-- ===== src/Client/Operations/Durable.antt =====
-- Put finalises a file only when all its chunks are stored.
use vault_fs.Base.{
  ℕ, ==_iff, String, List, [], ◌∷◌, none, ok, Result-cases, Bool-cases, inl, inr, ◌≡◌, ◌∙◌, subst,
  Text, In, arith, ◌==◌, length,
}
use vault_fs.Master.{NodeInfo}
use vault_fs.Master.Reads.{ChunkLocation}
use vault_fs.Client.File.{Chunk, split_chunks}
use vault_fs.Client.Operations.{
  Network, Client, chunk_ids, total_size, addresses, try_call, retries, call_master, write_chunk_to,
  write_chunks, upload, put_file,
}
use vault_fs.Client.Operations.Writing.{
  Keeps, try_call-holds, call_master-holds, write_chunks-keeps,
}

module _ (n : Network) (Stored : n.World → String → String → Type 0) where
  -- A chunk server that acknowledges a chunk has stored it, and no call and no wait loses a chunk.
  pub record Durable : Type 0 where
    pub stores :
        (v : n.World) (addr id : String) (contents : List ℕ) (rest : List String)
        → (n.send_chunk v addr id contents rest).1 ≡ ok tt
        → Stored (n.send_chunk v addr id contents rest).0 addr id
    pub keeps_send :
        (at k addr id : String) (contents : List ℕ) (rest : List String)
        → Keeps n (λ v. Stored v at k) (λ v. n.send_chunk v addr id contents rest)
    pub keeps_finalize :
        (at k addr : String) (path : Text) (ids : List String) (size : ℕ)
        → Keeps n (λ v. Stored v at k) (λ v. n.finalize_write v addr path ids size)
    pub keeps_pause : (at k : String) (v : n.World) → Stored v at k → Stored (n.pause v).0 at k

  -- Each chunk is stored at some server.
  abbrev pub AllStored : List Chunk → n.World → Type 0
  AllStored [] v = Unit
  AllStored (ch ∷ chunks) v = ((at : String) × Stored v at ch.id) × AllStored chunks v

  AllStored-map :
      (chunks : List Chunk) (v v' : n.World)
      → ((at k : String) → Stored v at k → Stored v' at k)
      → AllStored chunks v
      → AllStored chunks v'
  AllStored-map [] v v' f s = tt
  AllStored-map (ch ∷ chunks) v v' f ((at, s), rest) =
      ((at, f at ch.id s), AllStored-map chunks v v' f rest)

  write_chunk_to-Stored :
      (nodes : List NodeInfo) (ch : Chunk) (w : n.World)
      → Durable
      → (write_chunk_to n nodes ch w).1 ≡ ok tt
      → (at : String) × Stored (write_chunk_to n nodes ch w).0 at ch.id
  unfolding write_chunk_to
  write_chunk_to-Stored [] ch w d h = absurd (ground arith)
  write_chunk_to-Stored (node ∷ nodes) ch w d h =
      let op = λ (v : n.World). n.send_chunk v node.address ch.id ch.contents (addresses nodes) in
      elim (Bool-cases (n.connects w node.address)) [
        | inr down ↦ absurd (ground arith)
        | inl up ↦ elim (Result-cases (try_call n retries op w).1) [
          | inr (x, e) ↦ absurd (ground arith)
          | inl (tt, e) ↦
              let (v, p, r, s) =
                try_call-holds n (λ v. Unit) (λ v p. tt) retries op w tt (λ v p. tt) tt e in
              (
                node.address,
                subst (λ u. Stored u node.address ch.id) (s ∙ ground arith)
                    (d.stores v node.address ch.id ch.contents (addresses nodes) r),
              )
        ]
      ]

  write_chunks-Stored :
      (plan : List ChunkLocation) (chunks : List Chunk) (w : n.World)
      → Durable
      → length plan ≡ length chunks
      → (write_chunks n plan chunks w).1 ≡ ok tt
      → AllStored chunks (write_chunks n plan chunks w).0
  unfolding write_chunks
  write_chunks-Stored [] [] w d l h = tt
  write_chunks-Stored [] (ch ∷ chunks) w d l h = absurd (omega arith)
  write_chunks-Stored (place ∷ plan) [] w d l h = absurd (omega arith)
  write_chunks-Stored (place ∷ plan) (ch ∷ chunks) w d l h =
      let first = write_chunk_to n place.nodes ch w in
      elim (Result-cases first.1) [
        | inr (x, e) ↦ absurd (ground arith)
        | inl (tt, e) ↦
            let (at, s) = write_chunk_to-Stored place.nodes ch w d e in
            let kept =
              write_chunks-keeps n (λ v. Stored v at ch.id) (d.keeps_pause at ch.id) plan chunks
                first.0 (d.keeps_send at ch.id) s in
            rw (write_chunks, e)
              ((at, kept), write_chunks-Stored plan chunks first.0 d (omega arith) (ground arith))
      ]

  -- Where chunk servers store what they acknowledge and nothing loses a stored chunk, a Put that
  -- succeeds has been finalised by one of its masters with the ids of all chunks of the input and
  -- their total size, at a moment when every one of those chunks was stored.
  pub put_file_lem :
      (hash : List ℕ → String) (c : Client) (input : List ℕ) (path : Text) (w : n.World)
      → Durable
      → (put_file n hash c input path w).1 ≡ ok tt
      → (addr : String) × (v : n.World) × In addr c.master_addrs
        × AllStored (split_chunks hash input c.chunk_size) v
        × ((n.finalize_write v addr path
              (chunk_ids (split_chunks hash input c.chunk_size))
              (total_size (split_chunks hash input c.chunk_size))).1
            ≡ ok tt)
  unfolding put_file upload
  put_file_lem hash c input path w d h =
      let chunks = split_chunks hash input c.chunk_size in
      let opened =
        call_master n c.master_addrs (λ addr v. n.open_for_write v addr path (chunk_ids chunks))
          none w in
      elim (Result-cases opened.1) [
        | inr (x, e) ↦ absurd (ground arith)
        | inl (plan, e) ↦ elim (Bool-cases (length plan == length chunks)) [
          | inr f ↦ absurd (ground arith)
          | inl f ↦
              let sent = write_chunks n plan chunks opened.0 in
              elim (Result-cases sent.1) [
                | inr (x, g) ↦ absurd (ground arith)
                | inl (tt, g) ↦
                    let stored =
                      write_chunks-Stored plan chunks opened.0 d
                        ((==_iff (length plan) (length chunks)).0 f) g in
                    let (addr, v, i, q, r, s) =
                      call_master-holds n (AllStored chunks)
                        (λ v. AllStored-map chunks v (n.pause v).0 (λ at k. d.keeps_pause at k v))
                        c.master_addrs
                        (λ addr v.
                          n.finalize_write v addr path (chunk_ids chunks) (total_size chunks))
                        none sent.0 tt
                        (λ addr v.
                          AllStored-map chunks v
                            (n.finalize_write v addr path (chunk_ids chunks) (total_size chunks)).0
                            (λ at k.
                              d.keeps_finalize at k addr path (chunk_ids chunks) (total_size chunks)
                                v))
                        stored (ground arith) in
                    (addr, v, i, q, r)
              ]
        ]
      ]
