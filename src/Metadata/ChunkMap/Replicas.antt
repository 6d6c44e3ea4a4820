-- ===== src/Metadata/ChunkMap/Replicas.antt =====
-- The chunk map as a relation between chunks and nodes: what each operation does to it.
use vault_fs.Base.{
  ℕ, ◌<◌, ◌≡◌, refl, inl, inr, String, ◌&&◌, Option, none, some, List, [], ◌∷◌, arith, ltb,
  if◌then◌else◌, Option-cases, length, str_eq, eq_iff,
}
use vault_fs.GoMap.{Map, IsMap, lookup, lookup_or}
use vault_fs.GoMap.Laws.{lookup_or-insert, lookup_or-erase}
use vault_fs.Metadata.ChunkMap.{
  Location, ChunkMap, put, add_location, without, remove_location, get_locations, remove_node,
  below_factor, under_replicated,
}
use vault_fs.Metadata.ChunkMap.Shape.{IsTidy, on_node, on_node-put, on_node-without, lookup-evict}

-- The replica of the chunk on the node.
unfoldable pub replica : ChunkMap → String → String → Option Location
replica cm chunk_id node_id = on_node node_id (get_locations cm chunk_id)

-- AddLocation sets the replica of one chunk on one node and no other.
pub replica-add_location :
    (cm : ChunkMap) (id : String) (loc : Location) (chunk_id node_id : String)
    → replica (add_location cm id loc) chunk_id node_id ≡ (
        if str_eq id chunk_id && str_eq loc.node_id node_id
        then some loc
        else replica cm chunk_id node_id)
unfolding replica add_location get_locations
replica-add_location cm id loc chunk_id node_id = ground (
  arith,
  lookup_or-insert [] id chunk_id (put (lookup_or [] id cm.locations) loc) cm.locations,
  on_node-put (lookup_or [] id cm.locations) loc node_id,
  eq_iff id chunk_id,
)

empty_list : (locs : List Location) → length locs ≡ 0 → locs ≡ []
empty_list [] h = refl
empty_list (l ∷ locs) h = absurd (omega arith)

-- RemoveLocation takes the replica of one chunk on one node away and no other.
pub replica-remove_location :
    (cm : ChunkMap) (id gone chunk_id node_id : String)
    → replica (remove_location cm id gone) chunk_id node_id
      ≡ (if str_eq id chunk_id && str_eq gone node_id then none else replica cm chunk_id node_id)
unfolding replica remove_location get_locations on_node
replica-remove_location cm id gone chunk_id node_id =
    let locs = lookup_or [] id cm.locations in
    ground (
      arith,
      lookup_or-erase [] id chunk_id cm.locations,
      lookup_or-insert [] id chunk_id (without gone locs) cm.locations,
      on_node-without gone locs node_id,
      empty_list (without gone locs),
      eq_iff id chunk_id,
    )

-- On a tidy chunk map, RemoveNode takes all replicas on the node away and no others.
pub replica-remove_node :
    (cm : ChunkMap) (gone chunk_id node_id : String)
    → IsTidy cm
    → replica (remove_node cm gone) chunk_id node_id
      ≡ (if str_eq gone node_id then none else replica cm chunk_id node_id)
unfolding replica remove_node get_locations lookup_or
replica-remove_node cm gone chunk_id node_id t =
    elim (Option-cases (lookup chunk_id cm.locations)) [
      | inl e ↦ unfold on_node in ground (arith, lookup-evict gone chunk_id cm.locations t.map)
      | inr (locs, e) ↦ ground (
        arith,
        lookup-evict gone chunk_id cm.locations t.map,
        on_node-without gone locs node_id,
        empty_list (without gone locs),
      )
    ]

pub lookup-below_factor :
    (factor : ℕ) (m : Map (List Location)) (id : String)
    → IsMap m
    → lookup id (below_factor factor m) ≡ elim (lookup id m) [
      | none ↦ none
      | some locs ↦ if ltb (length locs) factor then some locs else none
    ]
unfolding below_factor lookup
lookup-below_factor factor [] id h = refl
lookup-below_factor factor ((k, locs) ∷ m) id h =
    ground (arith, lookup-below_factor factor m id h.1, eq_iff k id)

-- UnderReplicated has the chunks with fewer replicas than the factor, each with its replicas, of
-- which there is at least one.
pub under_replicated_lem :
    (cm : ChunkMap) (factor : ℕ) (id : String) (locs : List Location)
    → IsTidy cm
    → lookup id (under_replicated cm factor) ≡ some locs
    → (get_locations cm id ≡ locs) × (0 < length locs) × (length locs < factor)
unfolding under_replicated get_locations lookup_or
under_replicated_lem cm factor id locs t h =
    ground (arith, lookup-below_factor factor cm.locations id t.map, t.inhabited id locs)
