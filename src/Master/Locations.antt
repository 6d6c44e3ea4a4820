-- ===== src/Master/Locations.antt =====
-- Where the master places chunks, and what it notes of it.
use vault_fs.Base.{
  String, List, [], ◌∷◌, none, some, inl, inr, ◌≡◌, refl, ap, subst, In, arith, eq_refl,
}
use vault_fs.Metadata.ChunkMap.{Location, ChunkMap, add_location}
use vault_fs.Metadata.ChunkMap.Replicas.{replica, replica-add_location}
use vault_fs.Master.{NodeInfo, Server, placement, add_nodes, add_chunks, record_chunk_locations}

Listed : ChunkMap → String → List NodeInfo → Type 0
Listed cm id nodes = (n : NodeInfo) → In n nodes → ¬ (replica cm id n.node_id ≡ none)

-- The replica of a chunk that is added stays.
add_nodes-keeps :
    (nodes : List NodeInfo) (cm : ChunkMap) (id chunk_id node_id : String)
    → ¬ (replica cm chunk_id node_id ≡ none)
    → ¬ (replica (add_nodes cm id nodes) chunk_id node_id ≡ none)
unfolding add_nodes
add_nodes-keeps [] cm id chunk_id node_id h = h
add_nodes-keeps (n ∷ nodes) cm id chunk_id node_id h =
    let loc : Location = record { node_id = n.node_id; address = n.address } in
    add_nodes-keeps nodes (add_location cm id loc) id chunk_id node_id
      (λ e. ground (arith, replica-add_location cm id loc chunk_id node_id))

add_nodes-Listed :
    (nodes : List NodeInfo) (cm : ChunkMap) (id : String) → Listed (add_nodes cm id nodes) id nodes
unfolding add_nodes Listed
add_nodes-Listed [] cm id n i = absurd i
add_nodes-Listed (m ∷ nodes) cm id n (inl e) =
    let loc : Location = record { node_id = m.node_id; address = m.address } in
    add_nodes-keeps nodes (add_location cm id loc) id id n.node_id (λ h. ground (
      arith,
      replica-add_location cm id loc id n.node_id,
      eq_refl id,
      eq_refl n.node_id,
      ap (λ x. x.node_id) e,
    ))
add_nodes-Listed (m ∷ nodes) cm id n (inr i) =
    let loc : Location = record { node_id = m.node_id; address = m.address } in
    add_nodes-Listed nodes (add_location cm id loc) id n i

add_chunks-keeps :
    (ids : List String) (nodes : List NodeInfo) (cm : ChunkMap) (chunk_id node_id : String)
    → ¬ (replica cm chunk_id node_id ≡ none)
    → ¬ (replica (add_chunks cm ids nodes) chunk_id node_id ≡ none)
unfolding add_chunks
add_chunks-keeps [] nodes cm chunk_id node_id h = h
add_chunks-keeps (id ∷ ids) nodes cm chunk_id node_id h =
    add_chunks-keeps ids nodes (add_nodes cm id nodes) chunk_id node_id
      (add_nodes-keeps nodes cm id chunk_id node_id h)

add_chunks-Listed :
    (ids : List String) (nodes : List NodeInfo) (cm : ChunkMap) (id : String)
    → In id ids
    → Listed (add_chunks cm ids nodes) id nodes
unfolding add_chunks Listed
add_chunks-Listed [] nodes cm id i n j = absurd i
add_chunks-Listed (k ∷ ids) nodes cm id (inl e) n j =
    add_chunks-keeps ids nodes (add_nodes cm k nodes) id n.node_id (
      subst (λ x. ¬ (replica (add_nodes cm k nodes) x n.node_id ≡ none)) e
        (add_nodes-Listed nodes cm k n j))
add_chunks-Listed (k ∷ ids) nodes cm id (inr i) n j =
    add_chunks-Listed ids nodes (add_nodes cm k nodes) id i n j

-- Where the master has a chunk map, recording the chunks of a file leaves a replica of each of them
-- on each server that the chunks are placed on, takes no replica of any chunk away, and leaves the
-- namespace as it was.
pub record_chunk_locations_lem :
    {Db : Type 0} (s : Server Db) (cm : ChunkMap) (ids : List String)
    → s.chunk_map ≡ some cm
    → (cm' : ChunkMap) × ((record_chunk_locations s ids).chunk_map ≡ some cm')
      × ((record_chunk_locations s ids).ns ≡ s.ns)
      × ((id : String) (n : NodeInfo)
          → In id ids
          → In n (placement s)
          → ¬ (replica cm' id n.node_id ≡ none))
      × ((id node_id : String)
          → ¬ (replica cm id node_id ≡ none)
          → ¬ (replica cm' id node_id ≡ none))
unfolding record_chunk_locations Listed
record_chunk_locations_lem s cm ids h = (
  add_chunks cm ids (placement s),
  rw h refl,
  rw h refl,
  (λ id n i. add_chunks-Listed ids (placement s) cm id i n),
  λ id node_id. add_chunks-keeps ids (placement s) cm id node_id,
)
