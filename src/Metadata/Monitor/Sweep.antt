-- ===== src/Metadata/Monitor/Sweep.antt =====
-- What a sweep does to the liveness table and to the replicas, and the work that it hands out.
use vault_fs.Base.{
  ℕ, ◌-◌, ◌≡◌, refl, inl, inr, ◌∙◌, ap, String, Bool, false, not, ◌&&◌, Option, none, some, List,
  [], ◌∷◌, arith, ltb, ◌==◌, if◌then◌else◌, Bool-cases, Option-cases, length, str_eq, eq_iff,
}
use vault_fs.GoMap.{listed, Map, IsMap, lookup, lookup_or}
use vault_fs.Metadata.ChunkMap.{Location, ChunkMap, get_locations, remove_node, under_replicated}
use vault_fs.Metadata.ChunkMap.Shape.{IsTidy, remove_node-IsTidy}
use vault_fs.Metadata.ChunkMap.Replicas.{replica, replica-remove_node, lookup-below_factor}
use vault_fs.Metadata.Monitor.{Monitor, ReplicationTask, split_dead, remove_nodes, tasks_for, sweep}

-- The node is known and its last heartbeat is older than the timeout.
unfoldable pub is_dead : ℕ → ℕ → Map ℕ → String → Bool
is_dead timeout now seen id = elim (lookup id seen) [
  | none ↦ false
  | some ts ↦ ltb timeout (now - ts)
]

lookup-split_dead :
    (timeout now : ℕ) (seen : Map ℕ) (id : String)
    → IsMap seen
    → (lookup id (split_dead timeout now seen).0
        ≡ (if is_dead timeout now seen id then none else lookup id seen))
      × (listed id (split_dead timeout now seen).1 ≡ is_dead timeout now seen id)
unfolding split_dead lookup is_dead
lookup-split_dead timeout now [] id h = (refl, refl)
lookup-split_dead timeout now ((k, ts) ∷ seen) id h =
    ground (arith, lookup-split_dead timeout now seen id h.1, eq_iff k id)

remove_nodes-IsTidy :
    (cm : ChunkMap) (dead : List String) → IsTidy cm → IsTidy (remove_nodes cm dead)
unfolding remove_nodes
remove_nodes-IsTidy cm [] t = t
remove_nodes-IsTidy cm (d ∷ dead) t =
    remove_nodes-IsTidy (remove_node cm d) dead (remove_node-IsTidy cm d t)

replica-remove_nodes :
    (cm : ChunkMap) (dead : List String) (chunk_id node_id : String)
    → IsTidy cm
    → replica (remove_nodes cm dead) chunk_id node_id
      ≡ (if listed node_id dead then none else replica cm chunk_id node_id)
unfolding remove_nodes
replica-remove_nodes cm [] chunk_id node_id t = refl
replica-remove_nodes cm (d ∷ dead) chunk_id node_id t = ground (
  arith,
  replica-remove_nodes (remove_node cm d) dead chunk_id node_id (remove_node-IsTidy cm d t),
  replica-remove_node cm d chunk_id node_id t,
)

-- On a tidy chunk map, a sweep forgets exactly the nodes whose last heartbeat is older than the
-- timeout, takes exactly their replicas out of the chunk map, and leaves it tidy.
pub sweep_lem :
    (m : Monitor) (now : ℕ) (chunk_id node_id : String)
    → IsTidy m.chunk_map
    → IsMap m.last_seen
    → let m' = (sweep m now).0 in
      let dead = is_dead m.timeout now m.last_seen node_id in
      (lookup node_id m'.last_seen ≡ (if dead then none else lookup node_id m.last_seen))
      × (replica m'.chunk_map chunk_id node_id
          ≡ (if dead then none else replica m.chunk_map chunk_id node_id))
      × IsTidy m'.chunk_map
unfolding sweep
sweep_lem m now chunk_id node_id t w =
    let dead = (split_dead m.timeout now m.last_seen).1 in
    let (left, same) = lookup-split_dead m.timeout now m.last_seen node_id w in
    (
      left,
      replica-remove_nodes m.chunk_map dead chunk_id node_id t
          ∙ ap (λ d. if d then none else replica m.chunk_map chunk_id node_id) same,
      remove_nodes-IsTidy m.chunk_map dead t,
    )

-- The first task for a chunk.
unfoldable pub task_of : String → List ReplicationTask → Option ReplicationTask
task_of id [] = none
task_of id (t ∷ ts) = let rest = task_of id ts in if str_eq t.chunk_id id then some t else rest

task_of-tasks_for :
    (factor : ℕ) (m : Map (List Location)) (id : String)
    → task_of id (tasks_for factor m) ≡ elim (lookup id m) [
      | none ↦ none
      | some locs ↦ some (record { chunk_id = id; sources = locs; need = factor - length locs })
    ]
unfolding task_of tasks_for lookup
task_of-tasks_for factor [] id = refl
task_of-tasks_for factor ((k, locs) ∷ m) id =
    ground (arith, task_of-tasks_for factor m id, eq_iff k id)

-- The task that a chunk with these replicas calls for.
abbrev pub task_due : ℕ → String → List Location → Option ReplicationTask
task_due factor id locs =
    if not (length locs == 0) && ltb (length locs) factor
    then some (record { chunk_id = id; sources = locs; need = factor - length locs })
    else none

due-under_replicated :
    (factor : ℕ) (cm : ChunkMap) (id : String)
    → IsTidy cm
    → elim (lookup id (under_replicated cm factor)) [
      | none ↦ none
      | some locs ↦ some (record { chunk_id = id; sources = locs; need = factor - length locs })
    ]
      ≡ task_due factor id (get_locations cm id)
unfolding under_replicated get_locations lookup_or
due-under_replicated factor cm id t = elim (Option-cases (lookup id cm.locations)) [
  | inl e ↦ ground (arith, lookup-below_factor factor cm.locations id t.map)
  | inr (locs, e) ↦
      ground (arith, lookup-below_factor factor cm.locations id t.map, t.inhabited id locs e)
]

-- A sweep that finds a dead node hands out, for a chunk that is left with fewer replicas than the
-- factor but with at least one, a task with these replicas and the number of those that are
-- missing, and none for any other chunk; a sweep that finds no dead node hands out nothing.
pub sweep_tasks :
    (m : Monitor) (now : ℕ) (id : String)
    → IsTidy m.chunk_map
    → let (m', dead, tasks) = sweep m now in
      task_of id tasks ≡ (
        if length dead == 0
        then none
        else task_due m.replication_factor id (get_locations m'.chunk_map id))
unfolding sweep
sweep_tasks m now id t =
    let dead = (split_dead m.timeout now m.last_seen).1 in
    elim (Bool-cases (length dead == 0)) [
      | inl e ↦ rw e (unfold task_of in refl)
      | inr e ↦ rw e (
          task_of-tasks_for m.replication_factor
            (under_replicated (remove_nodes m.chunk_map dead) m.replication_factor) id
          ∙ due-under_replicated m.replication_factor (remove_nodes m.chunk_map dead) id
              (remove_nodes-IsTidy m.chunk_map dead t))
    ]
