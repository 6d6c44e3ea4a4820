-- ===== src/Metadata/Monitor.antt =====
-- internal/metadata/heartbeat.go: which chunk servers live, and what the death of one means for the
-- chunks. A time is not before a heartbeat that was recorded, so `-` is Go's Sub.
pub mod Liveness
pub mod Sweep
use vault_fs.Base.{
  ℕ, ◌-◌, String, Bool, ◌&&◌, Option, none, some, false, List, [], ◌∷◌, ltb, leb, ◌==◌,
  if◌then◌else◌, length,
}
use vault_fs.GoMap.{Map, lookup, insert}
use vault_fs.Metadata.ChunkMap.{Location, ChunkMap, remove_node, under_replicated}

abbrev pub default_dead_timeout : ℕ
default_dead_timeout = 15000000000

abbrev pub default_replication_factor : ℕ
default_replication_factor = 3

pub record ReplicationTask : Type 0 where
  pub chunk_id : String
  pub sources : List Location
  pub need : ℕ

pub record Monitor : Type 0 where
  pub last_seen : Map ℕ
  pub chunk_map : ChunkMap
  pub timeout : ℕ
  pub replication_factor : ℕ

unfoldable pub new_monitor : ChunkMap → ℕ → ℕ → Monitor
new_monitor chunk_map timeout factor = record {
  last_seen = [];
  chunk_map = chunk_map;
  timeout = if leb timeout 0 then default_dead_timeout else timeout;
  replication_factor = if leb factor 0 then default_replication_factor else factor;
}

unfoldable pub record_heartbeat : Monitor → ℕ → String → Monitor
record_heartbeat m now node_id = record m { last_seen = insert node_id now m.last_seen }

unfoldable pub last_seen_at : Monitor → String → Option ℕ
last_seen_at m node_id = lookup node_id m.last_seen

unfoldable pub is_alive : Monitor → ℕ → String → Bool
is_alive m now node_id = elim (lookup node_id m.last_seen) [
  | none ↦ false
  | some ts ↦ leb (now - ts) m.timeout
]

-- The loop of LiveNodes.
unfoldable pub live_among : ℕ → ℕ → Map ℕ → List String
live_among timeout now [] = []
live_among timeout now ((id, ts) ∷ seen) =
    let rest = live_among timeout now seen in if leb (now - ts) timeout then id ∷ rest else rest

unfoldable pub live_nodes : Monitor → ℕ → List String
unfolding live_among
live_nodes m now = live_among m.timeout now m.last_seen

-- The first loop of Sweep: the nodes that are left, and the dead ones.
unfoldable pub split_dead : ℕ → ℕ → Map ℕ → Map ℕ × List String
split_dead timeout now [] = ([], [])
split_dead timeout now ((id, ts) ∷ seen) =
    let (left, dead) = split_dead timeout now seen in
    if ltb timeout (now - ts) then (left, id ∷ dead) else ((id, ts) ∷ left, dead)

-- The second loop of Sweep.
unfoldable pub remove_nodes : ChunkMap → List String → ChunkMap
remove_nodes cm [] = cm
remove_nodes cm (id ∷ dead) = remove_nodes (remove_node cm id) dead

-- The last loop of Sweep.
unfoldable pub tasks_for : ℕ → Map (List Location) → List ReplicationTask
tasks_for factor [] = []
tasks_for factor ((id, locs) ∷ m) =
    record { chunk_id = id; sources = locs; need = factor - length locs } ∷ tasks_for factor m

unfoldable pub sweep : Monitor → ℕ → Monitor × List String × List ReplicationTask
unfolding split_dead remove_nodes tasks_for
sweep m now =
    let (left, dead) = split_dead m.timeout now m.last_seen in
    let m' = record m { last_seen = left; chunk_map = remove_nodes m.chunk_map dead } in
    (
      m',
      dead,
      if length dead == 0
          then []
          else tasks_for m.replication_factor (under_replicated m'.chunk_map m.replication_factor),
    )
