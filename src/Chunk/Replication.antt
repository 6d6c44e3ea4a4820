-- ===== src/Chunk/Replication.antt =====
-- internal/chunk/replication.go and heartbeat.go: what a chunk server sends to others. The sender and
-- the reporter are interfaces: a call changes a world `W` of theirs and may fail with an `E`.
use vault_fs.Base.{
  ℕ, String, false, List, [], ◌∷◌, Option, none, some, Result, ok, err, leb, if◌then◌else◌,
}
use vault_fs.Chunk.Store.{Store, StoreError, write_chunk, list_chunks}

pub data ReplicateError (E : Type 0) : Type 0 where
  not_written : StoreError → ReplicateError E
  not_sent : E → ReplicateError E

-- SendChunk of a ChunkSender: the target, the chunk, its bytes, and the rest of the chain.
abbrev pub Sender : Type 0 → Type 0 → Type 0
Sender W E = W → String → String → List ℕ → List String → W × Option E

-- Replicate, with the store and the world that it leaves.
unfoldable pub replicate :
    {W E : Type 0}
    → (List ℕ → String)
    → Sender W E
    → Store
    → W
    → List ℕ
    → List String
    → Store × W × Result (ReplicateError E) String
replicate hash send store w contents chain =
    let (store', written) = write_chunk hash false store contents in
    elim written [
      | err e ↦ (store', w, err (not_written e))
      | ok id ↦ elim chain [
        | [] ↦ (store', w, ok id)
        | next ∷ downstream ↦
            let (w', failed) = send w next id contents downstream in
            elim failed [ some e ↦ (store', w', err (not_sent e)) | none ↦ (store', w', ok id) ]
      ]
    ]

abbrev pub default_heartbeat_interval : ℕ
default_heartbeat_interval = 5000000000

-- The fields of a HeartbeatSender that are not interfaces.
pub record HeartbeatSender : Type 0 where
  pub node_id : String
  pub interval : ℕ

-- An interval below 0 is 0.
unfoldable pub new_heartbeat_sender : String → ℕ → HeartbeatSender
new_heartbeat_sender node_id interval = record {
  node_id = node_id;
  interval = if leb interval 0 then default_heartbeat_interval else interval;
}

-- One report of the inventory. Listing the chunks does not fail.
unfoldable pub report :
    {W E : Type 0}
    → (W → String → List String → W × Option E)
    → HeartbeatSender
    → Store
    → W
    → W × Option E
report send h store w = send w h.node_id (list_chunks store)
