-- ===== src/Client/Operations/Writing.antt =====
-- What Put has done when it succeeds.
use vault_fs.Base.{
  ℕ, zero, suc, String, List, [], ◌∷◌, Option, some, Result, ok, Result-cases, Bool-cases, inl, inr,
  ◌≡◌, refl, ◌∙◌, In, arith,
}
use vault_fs.Master.{NodeInfo}
use vault_fs.Master.Reads.{ChunkLocation}
use vault_fs.Client.File.{Chunk}
use vault_fs.Client.Retry.{CallError, is_transient}
use vault_fs.Client.Operations.{
  Network, ClientError, cannot_connect, rpc_failed, addresses, try_call, retries, call_master,
  write_chunk_to, write_chunks,
}

module _ (n : Network) (P : n.World → Type 0) where
  -- The call keeps what holds of the world.
  abbrev pub Keeps : {A : Type 0} → (n.World → n.World × Result CallError A) → Type 0
  Keeps op = (v : n.World) → P v → P (op v).0

  module _ (rests : (v : n.World) → P v → P (n.pause v).0) where
    pub try_call-keeps :
        {A : Type 0} (more : ℕ) (op : n.World → n.World × Result CallError A) (w : n.World)
        → Keeps op
        → P w
        → P (try_call n more op w).0
    unfolding try_call
    try_call-keeps zero op w k p = k w p
    try_call-keeps (suc more) op w k p =
        let after = k w p in
        let rested = rests (op w).0 after in
        elim (Result-cases (op w).1) [
          | inl (a, e) ↦ rw (try_call, e) after
          | inr (x, e) ↦ elim (Bool-cases (is_transient x)) [
            | inr f ↦ rw (try_call, e, f) after
            | inl f ↦ elim (Bool-cases (n.pause (op w).0).1) [
              | inl g ↦ rw (try_call, e, f, g) rested
              | inr g ↦
                  rw (try_call, e, f, g) (try_call-keeps more op (n.pause (op w).0).0 k rested)
            ]
          ]
        ]

    -- The attempt that succeeds is made in a world in which it still holds.
    pub try_call-holds :
        {A : Type 0} (more : ℕ) (op : n.World → n.World × Result CallError A) (w : n.World) (a : A)
        → Keeps op
        → P w
        → (try_call n more op w).1 ≡ ok a
        → (v : n.World) × P v × ((op v).1 ≡ ok a) × ((op v).0 ≡ (try_call n more op w).0)
    unfolding try_call
    try_call-holds zero op w a k p h = (w, p, h, refl)
    try_call-holds (suc more) op w a k p h = elim (Result-cases (op w).1) [
      | inl (x, e) ↦ (w, p, ground arith, ground arith)
      | inr (x, e) ↦ elim (Bool-cases (is_transient x)) [
        | inr f ↦ absurd (ground arith)
        | inl f ↦ elim (Bool-cases (n.pause (op w).0).1) [
          | inl g ↦ absurd (ground arith)
          | inr g ↦
              let (v, q, r, s) =
                try_call-holds more op (n.pause (op w).0).0 a k (rests (op w).0 (k w p))
                  (ground arith) in
              (v, q, r, s ∙ ground arith)
        ]
      ]
    ]

    pub call_master-holds :
        {A : Type 0} (addrs : List String) (fn : String → n.World → n.World × Result CallError A)
        (last : Option ClientError) (w : n.World) (a : A)
        → ((addr : String) → Keeps (fn addr))
        → P w
        → (call_master n addrs fn last w).1 ≡ ok a
        → (addr : String) × (v : n.World) × In addr addrs
          × P v
          × ((fn addr v).1 ≡ ok a)
          × ((fn addr v).0 ≡ (call_master n addrs fn last w).0)
    unfolding call_master
    call_master-holds [] fn last w a k p h = absurd (ground arith)
    call_master-holds (addr ∷ addrs) fn last w a k p h = elim (Bool-cases (n.ended w)) [
      | inl over ↦ absurd (ground arith)
      | inr on ↦ elim (Bool-cases (n.connects w addr)) [
        | inr down ↦
            let (at, v, i, q, r, s) =
              call_master-holds addrs fn (some cannot_connect) w a k p (ground arith) in
            (at, v, inr i, q, r, s ∙ ground arith)
        | inl up ↦
            let run = try_call n retries (fn addr) w in
            elim (Result-cases run.1) [
              | inl (x, e) ↦
                  let (v, q, r, s) = try_call-holds retries (fn addr) w x (k addr) p e in
                  (addr, v, inl refl, q, r ∙ ground arith, s ∙ ground arith)
              | inr (x, e) ↦ elim (Bool-cases (is_transient x)) [
                | inr f ↦ absurd (ground arith)
                | inl f ↦
                    let after = try_call-keeps retries (fn addr) w (k addr) p in
                    let (at, v, i, q, r, s) =
                      call_master-holds addrs fn (some (rpc_failed x)) run.0 a k after
                        (ground arith) in
                    (at, v, inr i, q, r, s ∙ ground arith)
              ]
            ]
      ]
    ]

    pub write_chunk_to-keeps :
        (nodes : List NodeInfo) (ch : Chunk) (w : n.World)
        → ((addr id : String) (contents : List ℕ) (rest : List String)
            → Keeps (λ v. n.send_chunk v addr id contents rest))
        → P w
        → P (write_chunk_to n nodes ch w).0
    unfolding write_chunk_to
    write_chunk_to-keeps [] ch w k p = p
    write_chunk_to-keeps (node ∷ nodes) ch w k p =
        let op = λ (v : n.World). n.send_chunk v node.address ch.id ch.contents (addresses nodes) in
        let after =
          try_call-keeps retries op w (k node.address ch.id ch.contents (addresses nodes)) p in
        elim (Bool-cases (n.connects w node.address)) [
          | inr down ↦ rw (write_chunk_to, down) p
          | inl up ↦ elim (Result-cases (try_call n retries op w).1) [
            | inl (x, e) ↦ rw (write_chunk_to, up, e) after
            | inr (x, e) ↦ rw (write_chunk_to, up, e) after
          ]
        ]

    pub write_chunks-keeps :
        (plan : List ChunkLocation) (chunks : List Chunk) (w : n.World)
        → ((addr id : String) (contents : List ℕ) (rest : List String)
            → Keeps (λ v. n.send_chunk v addr id contents rest))
        → P w
        → P (write_chunks n plan chunks w).0
    unfolding write_chunks
    write_chunks-keeps [] chunks w k p = p
    write_chunks-keeps (place ∷ plan) [] w k p = p
    write_chunks-keeps (place ∷ plan) (ch ∷ chunks) w k p =
        let after = write_chunk_to-keeps place.nodes ch w k p in
        elim (Result-cases (write_chunk_to n place.nodes ch w).1) [
          | inr (x, e) ↦ rw (write_chunks, e) after
          | inl (x, e) ↦
              rw (write_chunks, e)
                (write_chunks-keeps plan chunks (write_chunk_to n place.nodes ch w).0 k after)
        ]
