-- ===== src/Client/Operations/Fallback.antt =====
-- A read goes on to the next replica where one fails or is corrupt.
use vault_fs.Base.{
  ℕ, zero, suc, String, true, List, [], ◌∷◌, Option, some, Result, ok, Result-cases, Bool-cases,
  inl, inr, ◌≡◌, refl, sym, subst, In, arith, str_eq, eq_iff,
}
use vault_fs.Master.{NodeInfo}
use vault_fs.Client.File.{verify_chunk}
use vault_fs.Client.Retry.{CallError}
use vault_fs.Client.Operations.{
  Network, ClientError, cannot_connect, rpc_failed, bad_checksum, try_call, retries, read_replicas,
}

module _ (n : Network) where
  try_call-always :
      {A : Type 0} (more : ℕ) (op : n.World → n.World × Result CallError A) (w : n.World) (a : A)
      → ((v : n.World) → (op v).1 ≡ ok a)
      → (try_call n more op w).1 ≡ ok a
  unfolding try_call
  try_call-always zero op w a h = h w
  try_call-always (suc more) op w a h = rw (try_call, h w) refl

  module _ (hash : List ℕ → String) where
    -- The server can be reached and answers with the chunk's bytes.
    pub record Serves (id : String) (contents : List ℕ) (node : NodeInfo) : Type 0 where
      pub reached : (v : n.World) → n.connects v node.address ≡ true
      pub answers : (v : n.World) → (n.fetch_chunk v node.address id).1 ≡ ok contents

    -- Where one of the replicas always serves bytes with the digest of the chunk, readChunk succeeds
    -- with such bytes, whatever the replicas before it do.
    pub read_replicas_lem :
        (id : String) (contents : List ℕ) (node : NodeInfo) (nodes : List NodeInfo)
        (last : Option ClientError) (w : n.World)
        → In node nodes
        → Serves id contents node
        → hash contents ≡ id
        → (bytes : List ℕ) × ((read_replicas n hash id nodes last w).1 ≡ ok bytes)
          × (hash bytes ≡ id)
    unfolding read_replicas verify_chunk
    read_replicas_lem id contents node [] last w i s good = absurd i
    read_replicas_lem id contents node (m ∷ nodes) last w (inl e) s good =
        let s' = subst (Serves id contents) (sym e) s in
        (
          contents,
          ground (
            arith,
            s'.reached w,
            try_call-always retries (λ v. n.fetch_chunk v m.address id) w contents s'.answers,
            eq_iff (hash contents) id,
          ),
          good,
        )
    read_replicas_lem id contents node (m ∷ nodes) last w (inr i) s good =
        elim (Bool-cases (n.connects w m.address)) [
          | inr down ↦
              let (bytes, e, f) =
                read_replicas_lem id contents node nodes (some cannot_connect) w i s good in
              (bytes, ground arith, f)
          | inl up ↦
              let run = try_call n retries (λ v. n.fetch_chunk v m.address id) w in
              elim (Result-cases run.1) [
                | inr (x, e) ↦
                    let (bytes, f, g) =
                      read_replicas_lem id contents node nodes (some (rpc_failed x)) run.0 i s
                        good in
                    (bytes, ground arith, g)
                | inl (got, e) ↦ elim (Bool-cases (str_eq (hash got) id)) [
                  | inl same ↦ (got, ground arith, (eq_iff (hash got) id).0 same)
                  | inr bad ↦
                      let (bytes, f, g) =
                        read_replicas_lem id contents node nodes (some bad_checksum) run.0 i s
                          good in
                      (bytes, ground arith, g)
                ]
              ]
        ]
