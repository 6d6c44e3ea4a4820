-- ===== src/Chunkserver/Chain.antt =====
-- A write that the primary acknowledges is on every server of its chain.
use vault_fs.Base.{
  ℕ, ◌≡◌, inl, inr, ◌∙◌, subst, sym, String, Bool, true, false, none, some, List, [], ◌∷◌, arith,
  Result-cases, ok, if◌then◌else◌, Bool-cases, Option-cases, str_eq, eq_iff, eq_refl,
}
use vault_fs.GoMap.{lookup, insert, contains}
use vault_fs.GoMap.Laws.{lookup-insert, lookup-erase}
use vault_fs.Chunk.Store.{Store, write_chunk, begin_write, finish_write, verify}
use vault_fs.Chunkserver.{Cluster, write_chain}

-- No server is in the middle of another write of the chunk.
abbrev pub IsIdle : Cluster → String → Type 0
IsIdle cluster id =
    (node : String) (s : Store) → lookup node cluster ≡ some s → contains id s.writing ≡ false

module _ (hash : List ℕ → String) where
  -- The store has a file of the chunk, and its bytes have the digest that is the chunk's name.
  unfoldable pub is_intact : String → Store → Bool
  is_intact id s = elim (lookup id s.files) [
    | none ↦ false
    | some contents ↦ verify hash id contents
  ]

  -- The server has the chunk, intact.
  unfoldable pub has_chunk : Cluster → String → String → Bool
  unfolding is_intact
  has_chunk cluster id node = elim (lookup node cluster) [
    | none ↦ false
    | some store ↦ is_intact id store
  ]

  -- Every server of the list has the chunk, intact.
  abbrev pub AllHave : Cluster → String → List String → Type 0
  AllHave cluster id [] = Unit {0}
  AllHave cluster id (n ∷ ns) = (has_chunk cluster id n ≡ true) × AllHave cluster id ns

  -- No server has other bytes under the name of the chunk.
  abbrev pub IsClean : Cluster → String → Type 0
  IsClean cluster id =
      (node : String) (s : Store)
      → lookup node cluster ≡ some s
      → contains id s.files ≡ true
      → is_intact id s ≡ true

  files-kept :
      (s : Store) (contents : List ℕ) (id : String)
      → is_intact id s ≡ true
      → is_intact id (write_chunk hash false s contents).0 ≡ true
  unfolding write_chunk begin_write finish_write contains is_intact
  files-kept s contents id h = ground (arith, lookup-insert (hash contents) id contents s.files)

  idle-kept :
      (s : Store) (contents : List ℕ) (id : String)
      → contains id s.writing ≡ false
      → contains id (write_chunk hash false s contents).0.writing ≡ false
  unfolding write_chunk begin_write finish_write contains
  idle-kept s contents id h = ground (
    arith,
    lookup-insert (hash contents) id true s.writing,
    lookup-erase (hash contents) id (insert (hash contents) true s.writing),
  )

  clean-kept :
      (s : Store) (contents : List ℕ) (id : String)
      → (contains id s.files ≡ true → is_intact id s ≡ true)
      → contains id (write_chunk hash false s contents).0.files ≡ true
      → is_intact id (write_chunk hash false s contents).0 ≡ true
  unfolding write_chunk begin_write finish_write contains is_intact
  clean-kept s contents id clean h = ground (
    arith,
    lookup-insert (hash contents) id contents s.files,
    eq_iff (hash contents) id,
    eq_refl id,
  )

  written :
      (s : Store) (contents : List ℕ) (id : String)
      → contains (hash contents) s.writing ≡ false
      → (contains (hash contents) s.files ≡ true → is_intact (hash contents) s ≡ true)
      → (write_chunk hash false s contents).1 ≡ ok id
      → (id ≡ hash contents) × (is_intact id (write_chunk hash false s contents).0 ≡ true)
  unfolding write_chunk begin_write finish_write contains is_intact
  written s contents id free clean h = ground (
    arith,
    lookup-insert (hash contents) (hash contents) contents s.files,
    eq_refl (hash contents),
  )

  has_chunk-insert :
      (cluster : Cluster) (node n id : String) (s : Store)
      → has_chunk (insert node s cluster) id n
        ≡ (if str_eq node n then is_intact id s else has_chunk cluster id n)
  unfolding has_chunk
  has_chunk-insert cluster node n id s = ground (arith, lookup-insert node n s cluster)

  has_chunk-at :
      (cluster : Cluster) (node id : String) (s : Store)
      → lookup node cluster ≡ some s
      → has_chunk cluster id node ≡ is_intact id s
  unfolding has_chunk
  has_chunk-at cluster node id s there = ground arith

  stored-kept :
      (cluster : Cluster) (node : String) (s : Store) (contents : List ℕ) (id n : String)
      → lookup node cluster ≡ some s
      → has_chunk cluster id n ≡ true
      → has_chunk (insert node (write_chunk hash false s contents).0 cluster) id n ≡ true
  stored-kept cluster node s contents id n there h = ground (
    arith,
    has_chunk-insert cluster node n id (write_chunk hash false s contents).0,
    files-kept s contents id,
    has_chunk-at cluster node id s there,
    eq_iff node n,
  )

  stored-IsIdle :
      (cluster : Cluster) (node : String) (s : Store) (contents : List ℕ) (id : String)
      → lookup node cluster ≡ some s
      → IsIdle cluster id
      → IsIdle (insert node (write_chunk hash false s contents).0 cluster) id
  stored-IsIdle cluster node s contents id there idle n t h = ground (
    arith,
    lookup-insert node n (write_chunk hash false s contents).0 cluster,
    idle-kept s contents id (idle node s there),
    idle n t,
  )

  stored-IsClean :
      (cluster : Cluster) (node : String) (s : Store) (contents : List ℕ) (id : String)
      → lookup node cluster ≡ some s
      → IsClean cluster id
      → IsClean (insert node (write_chunk hash false s contents).0 cluster) id
  stored-IsClean cluster node s contents id there clean n t h c = ground (
    arith,
    lookup-insert node n (write_chunk hash false s contents).0 cluster,
    clean-kept s contents id (clean node s there),
    clean n t,
  )

  -- No write takes an intact chunk from a server.
  write_chain-kept :
      (cluster : Cluster) (node id : String) (contents : List ℕ) (chain : List String)
      (j n : String)
      → has_chunk cluster j n ≡ true
      → has_chunk (write_chain hash cluster node id contents chain).0 j n ≡ true
  unfolding write_chain
  write_chain-kept cluster node id contents [] j n h = elim (Option-cases (lookup node cluster)) [
    | inl e ↦ rw (write_chain, e) h
    | inr (s, e) ↦
        rw (write_chain, e)
          (elim (Bool-cases (verify hash id contents)) [
            | inr bad ↦ rw bad h
            | inl good ↦ rw good (ground (arith, stored-kept cluster node s contents j n e h))
          ])
  ]
  write_chain-kept cluster node id contents (next ∷ chain) j n h =
      elim (Option-cases (lookup node cluster)) [
        | inl e ↦ rw (write_chain, e) h
        | inr (s, e) ↦
            rw (write_chain, e)
              (elim (Bool-cases (verify hash id contents)) [
                | inr bad ↦ rw bad h
                | inl good ↦
                    let kept = stored-kept cluster node s contents j n e h in
                    let later =
                      write_chain-kept (insert node (write_chunk hash false s contents).0 cluster)
                        next id contents chain j n kept in
                    rw good (ground arith)
              ])
      ]

  stored-has :
      (cluster : Cluster) (node id : String) (s : Store) (contents : List ℕ) (reply : String)
      → lookup node cluster ≡ some s
      → IsIdle cluster id
      → IsClean cluster id
      → verify hash id contents ≡ true
      → (write_chunk hash false s contents).1 ≡ ok reply
      → (reply ≡ id)
        × (has_chunk (insert node (write_chunk hash false s contents).0 cluster) id node ≡ true)
  stored-has cluster node id s contents reply there idle clean good stored =
      let same = (eq_iff (hash contents) id).0 good in
      let (e, h) =
        written s contents reply
          (subst (λ k. contains k s.writing ≡ false) (sym same) (idle node s there))
          (subst (λ k. contains k s.files ≡ true → is_intact k s ≡ true) (sym same)
            (clean node s there))
          stored in
      (
        e ∙ same,
        has_chunk-insert cluster node node id (write_chunk hash false s contents).0
            ∙ ground (arith, eq_refl node, h, e ∙ same),
      )

  -- What the last server has done when it acknowledges, and what one in the middle has done.
  acked_last :
      (cluster : Cluster) (node id : String) (contents : List ℕ) (reply : String)
      → (write_chain hash cluster node id contents []).1 ≡ ok reply
      → (s : Store) × (lookup node cluster ≡ some s)
        × (verify hash id contents ≡ true)
        × ((write_chunk hash false s contents).1 ≡ ok reply)
        × ((write_chain hash cluster node id contents []).0
            ≡ insert node (write_chunk hash false s contents).0 cluster)
  unfolding write_chain
  acked_last cluster node id contents reply done = elim (Option-cases (lookup node cluster)) [
    | inl e ↦ absurd (ground arith)
    | inr (s, e) ↦ (s, e, ground arith, ground arith, ground arith)
  ]

  acked_next :
      (cluster : Cluster) (node id : String) (contents : List ℕ) (next : String)
      (chain : List String) (reply : String)
      → (write_chain hash cluster node id contents (next ∷ chain)).1 ≡ ok reply
      → (s : Store) × (lookup node cluster ≡ some s)
        × (verify hash id contents ≡ true)
        × ((write_chunk hash false s contents).1 ≡ ok reply)
        × (let stored = insert node (write_chunk hash false s contents).0 cluster in
            (later : String) × ((write_chain hash stored next id contents chain).1 ≡ ok later)
            × ((write_chain hash cluster node id contents (next ∷ chain)).0
                ≡ (write_chain hash stored next id contents chain).0))
  unfolding write_chain
  acked_next cluster node id contents next chain reply done =
      elim (Option-cases (lookup node cluster)) [
        | inl e ↦ absurd (ground arith)
        | inr (s, e) ↦
            elim (Result-cases
              (write_chain hash (insert node (write_chunk hash false s contents).0 cluster) next id
                contents chain).1) [
                  | inl (later, ack) ↦
                      (s, e, ground arith, ground arith, (later, ack, ground arith))
                  | inr (f, refused) ↦ absurd (ground arith)
                ]
      ]

  -- If no other write of the chunk is under way, and no server has a file of its name with other
  -- bytes, then a write that the first server acknowledges has its chunk on that server and on every
  -- one of the chain, each with bytes that have the chunk's digest.
  pub write_chain_lem :
      (cluster : Cluster) (node id : String) (contents : List ℕ) (chain : List String)
      (reply : String)
      → IsIdle cluster id
      → IsClean cluster id
      → (write_chain hash cluster node id contents chain).1 ≡ ok reply
      → (reply ≡ id)
        × (hash contents ≡ id)
        × AllHave (write_chain hash cluster node id contents chain).0 id (node ∷ chain)
  write_chain_lem cluster node id contents [] reply idle clean done =
      let (s, there, good, stored, after) = acked_last cluster node id contents reply done in
      let (e, h) = stored-has cluster node id s contents reply there idle clean good stored in
      (e, (eq_iff (hash contents) id).0 good, rw after (h, tt))
  write_chain_lem cluster node id contents (next ∷ chain) reply idle clean done =
      let (s, there, good, stored, (later, ack, after)) =
        acked_next cluster node id contents next chain reply done in
      let (e, h) = stored-has cluster node id s contents reply there idle clean good stored in
      let mid = insert node (write_chunk hash false s contents).0 cluster in
      let (_, _, all) =
        write_chain_lem mid next id contents chain later
          (stored-IsIdle cluster node s contents id there idle)
          (stored-IsClean cluster node s contents id there clean) ack in
      (
        e,
        (eq_iff (hash contents) id).0 good,
        subst (λ c. AllHave c id (node ∷ next ∷ chain)) (sym after)
            (write_chain-kept mid next id contents chain id node h, all),
      )
