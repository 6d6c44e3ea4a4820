-- ===== src/Metadata/ChunkMap.antt =====
-- internal/metadata/chunkmap.go: where the replicas of each chunk are. The loops that filter a list
-- in place write over an array that only the map refers to.
pub mod Shape
pub mod Replicas
use vault_fs.Base.{
  ℕ, String, not, Option, none, some, List, [], ◌∷◌, ◌++◌, ltb, ◌==◌, if◌then◌else◌, length, str_eq,
}
use vault_fs.GoMap.{Map, lookup_or, insert, erase}

pub record Location : Type 0 where
  pub node_id : String
  pub address : String

pub record ChunkMap : Type 0 where
  pub locations : Map (List Location)

unfoldable pub new_chunk_map : ChunkMap
new_chunk_map = record { locations = [] }

-- The loop of AddLocation with the append behind it.
unfoldable pub put : List Location → Location → List Location
put [] loc = loc ∷ []
put (l ∷ locs) loc =
    let rest = put locs loc in if str_eq l.node_id loc.node_id then loc ∷ locs else l ∷ rest

unfoldable pub add_location : ChunkMap → String → Location → ChunkMap
unfolding put
add_location cm chunk_id loc = record {
  locations = insert chunk_id (put (lookup_or [] chunk_id cm.locations) loc) cm.locations;
}

-- The loop that keeps the replicas on other nodes.
unfoldable pub without : String → List Location → List Location
without node_id [] = []
without node_id (l ∷ locs) =
    let rest = without node_id locs in if not (str_eq l.node_id node_id) then l ∷ rest else rest

unfoldable pub remove_location : ChunkMap → String → String → ChunkMap
unfolding without
remove_location cm chunk_id node_id =
    let out = without node_id (lookup_or [] chunk_id cm.locations) in
    record {
      locations =
          if length out == 0 then erase chunk_id cm.locations else insert chunk_id out cm.locations;
    }

unfoldable pub get_locations : ChunkMap → String → List Location
get_locations cm chunk_id = lookup_or [] chunk_id cm.locations

-- The loop of RemoveNode.
unfoldable pub evict : String → Map (List Location) → Map (List Location)
unfolding without
evict node_id [] = []
evict node_id ((chunk_id, locs) ∷ m) =
    let rest = evict node_id m in
    let out = without node_id locs in if length out == 0 then rest else (chunk_id, out) ∷ rest

unfoldable pub remove_node : ChunkMap → String → ChunkMap
unfolding evict
remove_node cm node_id = record { locations = evict node_id cm.locations }

unfoldable pub chunk_count : ChunkMap → ℕ
chunk_count cm = length cm.locations

-- The loop of UnderReplicated.
unfoldable pub below_factor : ℕ → Map (List Location) → Map (List Location)
below_factor factor [] = []
below_factor factor ((id, locs) ∷ m) =
    let rest = below_factor factor m in if ltb (length locs) factor then (id, locs) ∷ rest else rest

unfoldable pub under_replicated : ChunkMap → ℕ → Map (List Location)
unfolding below_factor
under_replicated cm factor = below_factor factor cm.locations
