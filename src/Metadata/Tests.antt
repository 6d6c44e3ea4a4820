-- ===== src/Metadata/Tests.antt =====
-- Runs of leases, chunk maps and the monitor, and the theorems at concrete inputs.
use vault_fs.Base.{
  ◌≡◌, ◌≢◌, refl, inr, String, none, [], ◌∷◌, arith, List, err, if◌then◌else◌, eq_iff,
}
use mathlib.Core.Bool.{false≢true}
use vault_fs.GoMap.{IsMap, lookup, lookup_or, insert}
use vault_fs.Metadata.Lease.{LeaseManager, lease_held, lease_not_held, grant, renew, held_by_other}
use vault_fs.Metadata.Lease.Shape.{IsShaped}
use vault_fs.Metadata.Lease.Exclusive.{Call, grants, renews, revokes, sweeps, run, lease_excludes}
use vault_fs.Metadata.ChunkMap.{Location, ChunkMap, new_chunk_map, add_location, put}
use vault_fs.Metadata.ChunkMap.Shape.{IsTidy, add_location-IsTidy}
use vault_fs.Metadata.ChunkMap.Replicas.{replica}
use vault_fs.Metadata.Monitor.{Monitor, sweep}
use vault_fs.Metadata.Monitor.Sweep.{is_dead, sweep_lem}

abbrev manager : LeaseManager
manager = record { leases = []; ttl = 10 }

manager-IsShaped : IsShaped manager
unfolding lookup
manager-IsShaped = record { map = tt; keyed = λ id l h. absurd (ground arith) }

-- The node a is granted the chunk at time 5; then b asks in vain, and a renews.
abbrev calls : List Call
calls = grants 6 "x" "b" ∷ revokes 7 "x" "b" ∷ renews 9 "x" "a" ∷ sweeps 10 ∷ []

b≢a : ◌≢◌ {A = String} "a" "b"
b≢a e = false≢true ((eq_iff "a" "b").1 e)

lease_excludes_example :
    let m' = run (grant manager 5 "x" "a").0 calls in
    ((grant m' 12 "x" "b").1 ≡ err lease_held) × ((renew m' 12 "x" "b").1 ≡ err lease_not_held)
unfolding grant held_by_other lookup
lease_excludes_example =
    lease_excludes manager 5 12 "x" "a" "b" (record { chunk_id = "x"; holder = "a"; expiry = 15 })
      calls manager-IsShaped refl
      (
        (omega arith, omega arith),
        (
          (omega arith, omega arith, inr b≢a),
          ((omega arith, omega arith), ((omega arith, omega arith), tt)),
        ),
      )
      (omega arith) b≢a

abbrev two_leases : LeaseManager
two_leases = record {
  leases =
      ("x", record { chunk_id = "x"; holder = "a"; expiry = 3 })
      ∷ ("y", record { chunk_id = "y"; holder = "b"; expiry = 9 })
      ∷ [];
  ttl = 10;
}

abbrev on : String → Location
on node_id = record { node_id = node_id; address = "host" }

-- Chunk x on the nodes a and b, chunk y on a.
abbrev chunks : ChunkMap
chunks = record { locations = ("x", on "a" ∷ on "b" ∷ []) ∷ ("y", on "a" ∷ []) ∷ [] }

no_chunks-IsTidy : IsTidy new_chunk_map
unfolding new_chunk_map lookup
no_chunks-IsTidy = record {
  map = tt;
  spread = λ id locs h. absurd (ground arith);
  inhabited = λ id locs h. absurd (ground arith);
}

abbrev built : ChunkMap
unfolding new_chunk_map add_location
built =
    add_location (add_location (add_location new_chunk_map "x" (on "a")) "x" (on "b")) "y" (on "a")

chunks-IsTidy : IsTidy built
unfolding built
chunks-IsTidy =
    add_location-IsTidy _ "y" (on "a")
      (add_location-IsTidy _ "x" (on "b") (add_location-IsTidy _ "x" (on "a") no_chunks-IsTidy))

run_built : built ≡ chunks
unfolding built new_chunk_map add_location put insert lookup_or lookup
run_built = refl

-- The node a was last heard of at time 1, and b at time 8.
abbrev monitor : Monitor
monitor = record {
  last_seen = ("a", 1) ∷ ("b", 8) ∷ [];
  chunk_map = built;
  timeout = 5;
  replication_factor = 3;
}

seen-IsMap : IsMap monitor.last_seen
unfolding lookup
seen-IsMap = (refl, (refl, tt))

sweep_lem_example :
    let m' = (sweep monitor 10).0 in
    let dead = is_dead 5 10 monitor.last_seen "a" in
    (lookup "a" m'.last_seen ≡ (if dead then none else lookup "a" monitor.last_seen))
    × (replica m'.chunk_map "x" "a" ≡ (if dead then none else replica built "x" "a"))
    × IsTidy m'.chunk_map
sweep_lem_example = sweep_lem monitor 10 "x" "a" chunks-IsTidy seen-IsMap
