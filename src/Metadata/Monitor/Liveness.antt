-- ===== src/Metadata/Monitor/Liveness.antt =====
-- Which nodes are alive: LiveNodes against IsAlive, and what a heartbeat does.
use vault_fs.Base.{
  ℕ, ◌-◌, ◌≡◌, refl, String, false, none, some, [], ◌∷◌, arith, leb, if◌then◌else◌, str_eq, eq_iff,
}
use vault_fs.GoMap.{listed, Map, IsMap, lookup}
use vault_fs.GoMap.Laws.{lookup-insert}
use vault_fs.Metadata.Monitor.{Monitor, is_alive, live_among, live_nodes, record_heartbeat}

listed-live_among :
    (timeout now : ℕ) (seen : Map ℕ) (id : String)
    → IsMap seen
    → listed id (live_among timeout now seen)
      ≡ elim (lookup id seen) [ none ↦ false | some ts ↦ leb (now - ts) timeout ]
unfolding live_among lookup
listed-live_among timeout now [] id h = refl
listed-live_among timeout now ((k, ts) ∷ seen) id h =
    ground (arith, listed-live_among timeout now seen id h.1, eq_iff k id)

-- LiveNodes lists exactly the nodes that IsAlive accepts; a heartbeat makes its node one of them
-- until the timeout is over and changes nothing for the others.
pub live_nodes_lem :
    (m : Monitor) (beat now : ℕ) (node_id id : String)
    → IsMap m.last_seen
    → (listed id (live_nodes m now) ≡ is_alive m now id)
      × (is_alive (record_heartbeat m beat node_id) now id
          ≡ (if str_eq node_id id then leb (now - beat) m.timeout else is_alive m now id))
unfolding live_nodes is_alive record_heartbeat
live_nodes_lem m beat now node_id id w = (
  listed-live_among m.timeout now m.last_seen id w,
  ground (arith, lookup-insert node_id id beat m.last_seen),
)
