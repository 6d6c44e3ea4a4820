-- ===== src/Master/Tests.antt =====
-- Masters on a small tree.
use vault_fs.Base.{
  ℕ, ◌+◌, String, true, false, [], ◌∷◌, Option, none, some, ok, inl, ◌≡◌, ◌≢◌, ◌⊎◌, refl, ap, Text,
  chars, In, arith,
}
use vault_fs.Metadata.ChunkMap.{ChunkMap}
use vault_fs.Metadata.ChunkMap.Replicas.{replica}
use vault_fs.Metadata.Store.{get_key, put_key, store_error}
use vault_fs.Metadata.Namespace.{stat, write, create_file, create_dir}
use vault_fs.Metadata.Namespace.Examples.{db, same, tree, inode}
use vault_fs.Master.{
  Command, NodeInfo, Server, op_create, op_finalize, op_delete, command_inode, placement,
  record_chunk_locations, ensure_dir, ensure_dirs, ensure_parents, create_at, write_file,
  apply_create, apply_finalize, apply,
}
use vault_fs.Master.Parents.{Found}
use vault_fs.Master.Applied.{Placed, Touched, apply_create_lem, apply_finalize_lem}
use vault_fs.Master.Locations.{record_chunk_locations_lem}
use vault_fs.Master.Agree.{Agrees, AreSimilar}
use vault_fs.Master.Replicas.{Runs, Runs-Agrees}
use vault_fs.Master.Requests.{
  waiter, FileReply, run_entry, await, file_end, finalize_write_start, propose_command,
}
use vault_fs.Master.Waiting.{reported, run_entry_lem}
use vault_fs.Master.Finalizing.{finalize_write_lem}
use vault_fs.Raft.Types.{Entry}
use vault_fs.Raft.Log.{last_entry}
use vault_fs.Raft.Node.{propose}
use vault_fs.Master.Reads.{heartbeat}
use vault_fs.Master.Examples.{gob, master}

abbrev creation : Command
creation = record { op_id = 7; kind = op_create; path = chars "/b/c/d"; chunk_ids = []; size = 0 }

abbrev finalization : Command
finalization = record {
  op_id = 7;
  kind = op_finalize;
  path = chars "/b/c/d";
  chunk_ids = "c1" ∷ [];
  size = 12;
}

abbrev clock : ℕ → ℕ
clock i = i + 100

abbrev after : Command → Server db.Db
after cmd = (apply db same master clock 200 cmd).0

creation_run : (apply db same master clock 200 creation).1 ≡ none
unfolding apply apply_create create_at ensure_parents ensure_dirs ensure_dir stat get_key
    store_error create_dir write put_key create_file
creation_run = refl

finalization_run : (apply db same master clock 200 finalization).1 ≡ none
unfolding apply apply_finalize write_file create_at ensure_parents ensure_dirs ensure_dir stat
    get_key store_error create_dir write put_key create_file
finalization_run = refl

create_example :
    (Found db same master.ns (chars "/b/c/d") × (after creation ≡ master))
    ⊎ ((¬ Found db same master.ns (chars "/b/c/d"))
        × (stat db same (after creation).ns (chars "/b/c/d")
            ≡ ok (record (command_inode (chars "/b/c/d") 0 []) {
              created_at = some 200;
              updated_at = some 200;
            }))
        × Placed db same (chars "/b/c/d") master.ns (after creation).ns)
create_example =
    apply_create_lem db same master (after creation) clock 200 creation refl
      (ap (λ o. (after creation, o)) creation_run)

finalize_example :
    ((created : Option ℕ) × (stat db same (after finalization).ns (chars "/b/c/d")
        ≡ ok (record (command_inode (chars "/b/c/d") 12 ("c1" ∷ [])) {
          created_at = created;
          updated_at = some 200;
        })))
    × ((q : Text)
        → (stat db same (after finalization).ns q ≡ stat db same master.ns q)
          ⊎ Touched (chars "/b/c/d") q)
finalize_example =
    apply_finalize_lem db same master (after finalization) clock 200 finalization refl
      (ap (λ o. (after finalization, o)) finalization_run)

locations_example :
    (cm' : ChunkMap) × ((record_chunk_locations master ("c1" ∷ [])).chunk_map ≡ some cm')
    × ((record_chunk_locations master ("c1" ∷ [])).ns ≡ tree)
    × ((id : String) (n : NodeInfo)
        → In id ("c1" ∷ [])
        → In n (placement master)
        → ¬ (replica cm' id n.node_id ≡ none))
    × ((id node_id : String)
        → ¬ (replica (record { locations = [] }) id node_id ≡ none)
        → ¬ (replica cm' id node_id ≡ none))
locations_example = record_chunk_locations_lem master (record { locations = [] }) ("c1" ∷ []) refl

waiting : waiter 7 master.waiters ≡ some none
unfolding waiter
waiting = refl

deliver_example :
    ((run_entry db same gob master clock 200 (1 ∷ 7 ∷ 1 ∷ 12 ∷ chars "/b/c/d")).1 ≡ true)
    × ((t : Server db.Db) × (await db same gob
            (run_entry db same gob master clock 200 (1 ∷ 7 ∷ 1 ∷ 12 ∷ chars "/b/c/d")).0
            7
            false
          ≡ some (t, reported (apply db same master clock 200 finalization).1))
        × (t.ns ≡ (after finalization).ns)
        × (waiter 7 t.waiters ≡ none))
    × ((j : ℕ)
        → j ≢ 7
        → waiter j
            (run_entry db same gob master clock 200 (1 ∷ 7 ∷ 1 ∷ 12 ∷ chars "/b/c/d")).0.waiters
          ≡ waiter j master.waiters)
deliver_example =
    run_entry_lem db same gob master clock 200 (1 ∷ 7 ∷ 1 ∷ 12 ∷ chars "/b/c/d") finalization refl
      waiting

abbrev started : Server db.Db
started = (finalize_write_start db same gob master (chars "/b/c/d") ("c1" ∷ []) 12).0

started_run :
    finalize_write_start db same gob master (chars "/b/c/d") ("c1" ∷ []) 12 ≡ (started, ok 7)
unfolding finalize_write_start propose_command propose
started_run = refl

finalize_write_example :
    (waiter 7 started.waiters ≡ some none)
    × ((e : Entry) × (last_entry started.node.log.entries ≡ some e)
        × ((u : Server db.Db) × (reply : FileReply) × (file_end db same gob
                (run_entry db same gob master clock 200 e.command).0
                7
                false
                (chars "/b/c/d")
              ≡ some (u, ok reply))
            × (reply.path ≡ chars "/b/c/d")
            × (reply.size ≡ 12)
            × (reply.chunk_ids ≡ "c1" ∷ [])
            × (reply.is_dir ≡ false)))
finalize_write_example =
    finalize_write_lem db same gob master started master (chars "/b/c/d") ("c1" ∷ []) 12 7 clock 200
      started_run waiting finalization_run

accepted : (heartbeat master 1000000000 "n1" 5).1 ≡ none
unfolding heartbeat
accepted = refl

abbrev fresh : Command
fresh = record { op_id = 0; kind = op_delete; path = chars "/a/x"; chunk_ids = []; size = 0 }

-- The same tree with other times.
abbrev twin : Server db.Db
twin = record master {
  ns =
      (
        chars "ns:/a/y",
        some (record (inode (chars "/a/y") false ("c2" ∷ "c1" ∷ [])) { updated_at = some 8 }),
      )
      ∷ (chars "ns:/a/x", some (inode (chars "/a/x") false ("c1" ∷ [])))
      ∷ (chars "ns:/a", some (inode (chars "/a") true []))
      ∷ [];
  op_seq = 0;
  waiters = [];
}

similar : AreSimilar db same master.ns twin.ns
unfolding stat get_key store_error
similar q = ground arith

twins : Agrees db same master twin
twins = record { namespaces = similar; chunk_maps = refl; nodes = refl; factors = refl }

abbrev later : ℕ → ℕ
later i = i + 900

twin_run : (apply db same twin later 990 finalization).1 ≡ none
unfolding apply apply_finalize write_file create_at ensure_parents ensure_dirs ensure_dir stat
    get_key store_error create_dir write put_key create_file
twin_run = refl

one_run : Runs db same master (finalization ∷ []) (after finalization)
one_run =
    Runs.go finalization clock 200 none (ap (λ o. (after finalization, o)) finalization_run)
      (inl refl) Runs.stop

other_run : Runs db same twin (finalization ∷ []) (apply db same twin later 990 finalization).0
other_run =
    Runs.go finalization later 990 none
      (ap (λ o. ((apply db same twin later 990 finalization).0, o)) twin_run) (inl refl) Runs.stop

replicas_example : Agrees db same (after finalization) (apply db same twin later 990 finalization).0
replicas_example = Runs-Agrees db same one_run other_run twins
