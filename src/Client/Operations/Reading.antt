-- ===== src/Client/Operations/Reading.antt =====
-- What Get gives back, whatever the servers answer.
use mathlib.Core.List.{append-nil, append_assoc}
use vault_fs.Base.{
  ℕ, zero, suc, String, List, [], ◌∷◌, ◌++◌, Option, none, some, Result, ok, Result-cases,
  Bool-cases, inl, inr, ◌≡◌, refl, sym, ◌∙◌, ap, ap₂, subst, Text, In, arith, str_eq, eq_iff,
}
use vault_fs.Master.Requests.{FileReply}
use vault_fs.Master.{NodeInfo}
use vault_fs.Master.Reads.{ChunkLocation}
use vault_fs.Client.File.{Chunk, split_chunks, split_chunks_lem, joined, verify_chunk}
use vault_fs.Client.Retry.{CallError, is_transient}
use vault_fs.Client.Operations.{
  Network, ClientError, cannot_connect, rpc_failed, bad_checksum, Client, chunk_ids, try_call,
  retries, call_master, read_replicas, read_chunks, get_file,
}

module _ (n : Network) where
  -- A call that succeeds in the end has an attempt that does.
  pub try_call-ok :
      {A : Type 0} (more : ℕ) (op : n.World → n.World × Result CallError A) (w w' : n.World) (a : A)
      → try_call n more op w ≡ (w', ok a)
      → (v : n.World) × ((op v).1 ≡ ok a)
  unfolding try_call
  try_call-ok zero op w w' a h = (w, ap (λ r. r.1) h)
  try_call-ok (suc more) op w w' a h = elim (Result-cases (op w).1) [
    | inl (x, e) ↦ (w, ground arith)
    | inr (x, e) ↦ elim (Bool-cases (is_transient x)) [
      | inr f ↦ absurd (ground arith)
      | inl f ↦ elim (Bool-cases (n.pause (op w).0).1) [
        | inl p ↦ absurd (ground arith)
        | inr p ↦ try_call-ok more op (n.pause (op w).0).0 w' a (ground arith)
      ]
    ]
  ]

  pub call_master-ok :
      {A : Type 0} (addrs : List String) (fn : String → n.World → n.World × Result CallError A)
      (last : Option ClientError) (w w' : n.World) (a : A)
      → call_master n addrs fn last w ≡ (w', ok a)
      → (addr : String) × (v : n.World) × In addr addrs × ((fn addr v).1 ≡ ok a)
  unfolding call_master
  call_master-ok [] fn last w w' a h = absurd (ground arith)
  call_master-ok (addr ∷ addrs) fn last w w' a h = elim (Bool-cases (n.ended w)) [
    | inl over ↦ absurd (ground arith)
    | inr on ↦ elim (Bool-cases (n.connects w addr)) [
      | inr down ↦
          let (found, v, i, e) =
            call_master-ok addrs fn (some cannot_connect) w w' a (ground arith) in
          (found, v, inr i, e)
      | inl up ↦
          let run = try_call n retries (fn addr) w in
          elim (Result-cases run.1) [
            | inl (x, e) ↦
                let (v, f) = try_call-ok retries (fn addr) w run.0 x (ap (λ r. (run.0, r)) e) in
                (addr, v, inl refl, f ∙ ground arith)
            | inr (x, e) ↦ elim (Bool-cases (is_transient x)) [
              | inr f ↦ absurd (ground arith)
              | inl f ↦
                  let (found, v, i, g) =
                    call_master-ok addrs fn (some (rpc_failed x)) run.0 w' a (ground arith) in
                  (found, v, inr i, g)
            ]
          ]
    ]
  ]

  module _ (hash : List ℕ → String) where
    -- The contents are those of the chunks with the ids, by their digests.
    abbrev pub Verified : List String → List (List ℕ) → Type 0
    Verified [] [] = Unit
    Verified [] (x ∷ xs) = ⊥
    Verified (id ∷ ids) [] = ⊥
    Verified (id ∷ ids) (x ∷ xs) = (hash x ≡ id) × Verified ids xs

    abbrev pub concat : List (List ℕ) → List ℕ
    concat [] = []
    concat (x ∷ xs) = x ++ concat xs

    -- readChunk gives no bytes but those that have the digest that was asked for.
    pub read_replicas-ok :
        (id : String) (nodes : List NodeInfo) (last : Option ClientError) (w w' : n.World)
        (contents : List ℕ)
        → read_replicas n hash id nodes last w ≡ (w', ok contents)
        → hash contents ≡ id
    unfolding read_replicas verify_chunk
    read_replicas-ok id [] last w w' contents h = absurd (ground arith)
    read_replicas-ok id (node ∷ nodes) last w w' contents h =
        elim (Bool-cases (n.connects w node.address)) [
          | inr down ↦ read_replicas-ok id nodes (some cannot_connect) w w' contents (ground arith)
          | inl up ↦
              let run = try_call n retries (λ v. n.fetch_chunk v node.address id) w in
              elim (Result-cases run.1) [
                | inr (x, e) ↦
                    read_replicas-ok id nodes (some (rpc_failed x)) run.0 w' contents (ground arith)
                | inl (got, e) ↦ elim (Bool-cases (str_eq (hash got) id)) [
                  | inl good ↦ ground (arith, eq_iff (hash got) id)
                  | inr bad ↦
                      read_replicas-ok id nodes (some bad_checksum) run.0 w' contents (ground arith)
                ]
              ]
        ]

    read_chunks-ok :
        (ids : List String) (locations : List ChunkLocation) (out bytes : List ℕ) (w w' : n.World)
        → read_chunks n hash ids locations out w ≡ (w', bytes, none)
        → (pieces : List (List ℕ)) × Verified ids pieces × (bytes ≡ out ++ concat pieces)
    unfolding read_chunks
    read_chunks-ok [] locations out bytes w w' h =
        ([], tt, ap (λ r. r.1) (sym h) ∙ sym (append-nil out))
    read_chunks-ok (id ∷ ids) [] out bytes w w' h = absurd (ground arith)
    read_chunks-ok (id ∷ ids) (loc ∷ locations) out bytes w w' h =
        let run = read_replicas n hash id loc.nodes none w in
        elim (Result-cases run.1) [
          | inr (x, e) ↦ absurd (ground arith)
          | inl (got, e) ↦
              let (pieces, v, same) =
                read_chunks-ok ids locations (out ++ got) bytes run.0 w' (ground arith) in
              (
                got ∷ pieces,
                (read_replicas-ok id loc.nodes none w run.0 got (ap (λ r. (run.0, r)) e), v),
                same ∙ append_assoc out got (concat pieces),
              )
        ]

    -- No other bytes have the digest of one of the chunks.
    abbrev pub NoCollision : List Chunk → Type 0
    NoCollision [] = Unit
    NoCollision (ch ∷ chunks) =
        ((other : List ℕ) → hash other ≡ ch.id → other ≡ ch.contents) × NoCollision chunks

    Verified-joined :
        (chunks : List Chunk) (pieces : List (List ℕ))
        → NoCollision chunks
        → Verified (chunk_ids chunks) pieces
        → concat pieces ≡ joined hash chunks
    unfolding chunk_ids joined
    Verified-joined [] [] nc v = refl
    Verified-joined [] (x ∷ xs) nc v = absurd v
    Verified-joined (ch ∷ chunks) [] nc v = absurd v
    Verified-joined (ch ∷ chunks) (x ∷ xs) (only, nc) (e, v) =
        ap₂ (λ a r. a ++ r) (only x e) (Verified-joined chunks xs nc v)

    -- If a master that the client is configured with can only answer that the file has the chunks
    -- into which the client splits the input, and no other bytes have the digest of one of them,
    -- then a Get that succeeds has written exactly the input, whatever the chunk servers answer.
    pub get_file_lem :
        (c : Client) (size : ℕ) (path : Text) (input bytes : List ℕ) (w w' : n.World)
        → ((addr : String) (v : n.World) (file : FileReply) (locations : List ChunkLocation)
            → In addr c.master_addrs
            → (n.open_for_read v addr path).1 ≡ ok (file, locations)
            → file.chunk_ids ≡ chunk_ids (split_chunks hash input size))
        → NoCollision (split_chunks hash input size)
        → get_file n hash c path w ≡ (w', bytes, none)
        → bytes ≡ input
    unfolding get_file
    get_file_lem c size path input bytes w w' masters nc h =
        let run = call_master n c.master_addrs (λ addr v. n.open_for_read v addr path) none w in
        elim (Result-cases run.1) [
          | inr (x, e) ↦ absurd (ground arith)
          | inl ((file, locations), e) ↦
              let (addr, v, i, f) =
                call_master-ok c.master_addrs (λ addr v. n.open_for_read v addr path) none w run.0
                  (file, locations) (ap (λ r. (run.0, r)) e) in
              let (pieces, good, same) =
                read_chunks-ok file.chunk_ids locations [] bytes run.0 w' (ground arith) in
              let ids = masters addr v file locations i f in
              same
              ∙ Verified-joined (split_chunks hash input size) pieces nc
                  (subst (λ ks. Verified ks pieces) ids good)
              ∙ (split_chunks_lem hash input size).0
        ]
