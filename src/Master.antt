-- ===== src/Master.antt =====
-- internal/master/server.go: the state of a master, and what a committed command does to it. The
-- chunk map of the server and that of its monitor are one object, so a change of it shows in both.
-- Metrics take no part. What time.Now gives in one call of apply is an argument: the readings in
-- the loop over the parents by its index, and the one of the inode itself.
mod Tests
pub mod Parents
pub mod Examples
pub mod Reads
pub mod Waiting
pub mod Finalizing
pub mod Requests
pub mod Replicas
pub mod Agree
pub mod Locations
pub mod Applied
use vault_fs.Base.{
  ℕ, zero, suc, ◌≤◌, arith, ◌==◌, String, Bool, true, false, List, [], ◌∷◌, ◌++◌, Option, none,
  some, Result, ok, err, Text, slash, trim, split, if◌then◌else◌, length, take, ltb, leb,
}
use vault_fs.GoMap.{Map}
use vault_fs.Metadata.Lease.{LeaseManager}
use vault_fs.Metadata.ChunkMap.{Location, ChunkMap, add_location}
use vault_fs.Metadata.Monitor.{Monitor, default_replication_factor}
use vault_fs.Metadata.Store.{Badger}
use vault_fs.Metadata.Namespace.{
  NamespaceError, FileInfo, Codec, not_found, already_exists, stat, create_file, create_dir,
  update_file, delete_file,
}
use vault_fs.Raft.Node.{Node}

abbrev pub op_create : ℕ
op_create = 0

abbrev pub op_finalize : ℕ
op_finalize = 1

abbrev pub op_delete : ℕ
op_delete = 2

-- An operation id is the decimal text of a counter; the counter stands for it.
pub record Command : Type 0 where
  pub op_id : ℕ
  pub kind : ℕ
  pub path : Text
  pub chunk_ids : List String
  pub size : ℕ

pub record NodeInfo : Type 0 where
  pub node_id : String
  pub address : String

pub data ApplyError : Type 0 where
  namespace_failed : NamespaceError → ApplyError
  unknown_kind : ApplyError

-- A waiter's channel holds one result at most; a result is the error of the command, if any.
abbrev pub Channel : Type 0
Channel = Option (Option ApplyError)

pub record Server (Db : Type 0) : Type 0 where
  pub ns : Db
  pub leases : LeaseManager
  pub chunk_nodes : List NodeInfo
  pub rf : ℕ
  pub node : Node
  pub monitor : Option Monitor
  pub chunk_map : Option ChunkMap
  pub op_seq : ℕ
  pub waiters : List (ℕ × Channel)
  pub chunk_counts : Map ℕ

-- A factor below 1 is 0. The options are the monitor and the chunk map.
unfoldable pub new_server :
    {Db : Type 0}
    → Db
    → LeaseManager
    → Node
    → List NodeInfo
    → ℕ
    → Option Monitor
    → Option ChunkMap
    → Server Db
new_server ns leases node chunk_nodes rf monitor chunk_map = record {
  ns = ns;
  leases = leases;
  chunk_nodes = chunk_nodes;
  rf = if leb rf 0 then default_replication_factor else rf;
  node = node;
  monitor = monitor;
  chunk_map = chunk_map;
  op_seq = 0;
  waiters = [];
  chunk_counts = [];
}

-- xs[:n] of a slice. Past the length it may panic, so its caller shows that n is within it.
abbrev pub slice_to : {A : Type 0} (xs : List A) (n : ℕ) → n ≤ length xs → List A
slice_to xs n within = take n xs

pub within_nodes : (rf count : ℕ) → (if ltb count rf then count else rf) ≤ count
within_nodes rf count = ground arith

unfoldable pub placement : {Db : Type 0} → Server Db → List NodeInfo
placement s =
    let n = if ltb (length s.chunk_nodes) s.rf then length s.chunk_nodes else s.rf in
    slice_to s.chunk_nodes n (within_nodes s.rf (length s.chunk_nodes))

-- The inner loop of recordChunkLocations.
unfoldable pub add_nodes : ChunkMap → String → List NodeInfo → ChunkMap
add_nodes cm id [] = cm
add_nodes cm id (n ∷ nodes) =
    add_nodes (add_location cm id (record { node_id = n.node_id; address = n.address })) id nodes

-- The outer loop.
unfoldable pub add_chunks : ChunkMap → List String → List NodeInfo → ChunkMap
unfolding add_nodes
add_chunks cm [] nodes = cm
add_chunks cm (id ∷ ids) nodes = add_chunks (add_nodes cm id nodes) ids nodes

-- The monitor that holds the same chunk map.
abbrev pub share : ChunkMap → Option Monitor → Option Monitor
share cm none = none
share cm (some m) = some (record m { chunk_map = cm })

unfoldable pub record_chunk_locations : {Db : Type 0} → Server Db → List String → Server Db
unfolding add_chunks
record_chunk_locations s ids = elim s.chunk_map [
  | none ↦ s
  | some cm ↦
      let cm' = add_chunks cm ids (placement s) in
      record s { chunk_map = some cm'; monitor = share cm' s.monitor }
]

-- The inode of a command: the fields that it does not set have their zero values.
abbrev pub command_inode : Text → ℕ → List String → FileInfo
command_inode path size ids = record {
  path = path;
  is_dir = false;
  size = size;
  chunk_ids = ids;
  mode = 0;
  created_at = none;
  updated_at = none;
}

module _ {Blob : Type 0} (b : Badger Blob) (c : Codec Blob) where
  -- What CreateDir leaves: the namespace as it was where it fails.
  abbrev pub made : b.Db → Result NamespaceError b.Db → b.Db × Option NamespaceError
  made ns (ok ns') = (ns', none)
  made ns (err already_exists) = (ns, none)
  made ns (err e) = (ns, some e)

  -- One round of the loop of ensureParents.
  unfoldable pub ensure_dir : b.Db → ℕ → Text → b.Db × Option NamespaceError
  ensure_dir ns now cur = elim (stat b c ns cur) [
    | ok fi ↦ (ns, none)
    | err not_found ↦ made ns (create_dir b c ns now cur)
    | err e ↦ (ns, some e)
  ]

  -- The loop, over all parts but the last.
  unfoldable pub ensure_dirs : b.Db → (ℕ → ℕ) → ℕ → Text → List Text → b.Db × Option NamespaceError
  unfolding ensure_dir
  ensure_dirs ns clock i cur [] = (ns, none)
  ensure_dirs ns clock i cur (part ∷ parts) =
      let cur' = cur ++ slash ∷ part in
      let (ns', e) = ensure_dir ns (clock i) cur' in
      let rest = ensure_dirs ns' clock (suc i) cur' parts in
      elim parts [ [] ↦ (ns, none) | _ ↦ elim e [ none ↦ rest | some x ↦ (ns', some x) ] ]

  unfoldable pub ensure_parents : b.Db → (ℕ → ℕ) → Text → b.Db × Option NamespaceError
  unfolding ensure_dirs
  ensure_parents ns clock path = ensure_dirs ns clock 0 [] (split slash (trim slash path))

  -- The server with the namespace that an operation leaves.
  abbrev pub settle : Server b.Db → b.Db × Option NamespaceError → Server b.Db × Option ApplyError
  settle s (ns, none) = (record s { ns = ns }, none)
  settle s (ns, some e) = (record s { ns = ns }, some (namespace_failed e))

  -- What a call leaves that changes nothing where it fails.
  abbrev pub left : b.Db → Result NamespaceError b.Db → b.Db × Option NamespaceError
  left ns (ok ns') = (ns', none)
  left ns (err e) = (ns, some e)

  -- ensureParents and CreateFile behind it.
  unfoldable pub create_at : b.Db → (ℕ → ℕ) → ℕ → FileInfo → b.Db × Option NamespaceError
  unfolding ensure_parents
  create_at ns clock now fi =
      let (ns', e) = ensure_parents ns clock fi.path in
      elim e [ some x ↦ (ns', some x) | none ↦ left ns' (create_file b c ns' now fi) ]

  unfoldable pub apply_create :
      Server b.Db → (ℕ → ℕ) → ℕ → Command → Server b.Db × Option ApplyError
  unfolding create_at
  apply_create s clock now cmd = elim (stat b c s.ns cmd.path) [
    | ok fi ↦ (s, none)
    | err e ↦ settle s (create_at s.ns clock now (command_inode cmd.path 0 []))
  ]

  -- The namespace after the file is written, before its chunks are recorded.
  unfoldable pub write_file : b.Db → (ℕ → ℕ) → ℕ → FileInfo → b.Db × Option NamespaceError
  unfolding create_at
  write_file ns clock now fi = elim (stat b c ns fi.path) [
    | ok old ↦ left ns (update_file b c ns now fi)
    | err e ↦ create_at ns clock now fi
  ]

  unfoldable pub apply_finalize :
      Server b.Db → (ℕ → ℕ) → ℕ → Command → Server b.Db × Option ApplyError
  unfolding write_file record_chunk_locations
  apply_finalize s clock now cmd =
      let (s', e) =
        settle s (write_file s.ns clock now (command_inode cmd.path cmd.size cmd.chunk_ids)) in
      elim e [ some x ↦ (s', some x) | none ↦ (record_chunk_locations s' cmd.chunk_ids, none) ]

  -- An absent path is no error.
  abbrev pub deleted : Server b.Db → Result NamespaceError b.Db → Server b.Db × Option ApplyError
  deleted s (ok ns') = (record s { ns = ns' }, none)
  deleted s (err not_found) = (s, none)
  deleted s (err e) = (s, some (namespace_failed e))

  unfoldable pub apply : Server b.Db → (ℕ → ℕ) → ℕ → Command → Server b.Db × Option ApplyError
  unfolding apply_create apply_finalize
  apply s clock now cmd =
      if cmd.kind == op_create
      then apply_create s clock now cmd
      else if cmd.kind == op_finalize
      then apply_finalize s clock now cmd
      else if cmd.kind == op_delete
      then deleted s (delete_file b c s.ns cmd.path)
      else (s, some unknown_kind)
