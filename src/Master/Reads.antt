-- ===== src/Master/Reads.antt =====
-- internal/master/server.go: the calls that read, and those of the chunk servers. Expiry and
-- heartbeat times go out in seconds.
use vault_fs.Base.{
  ℕ, ◌-◌, ◌/◌, ◌≤◌, String, Bool, true, List, [], ◌∷◌, Option, none, some, Result, ok, err, ◌≡◌,
  inl, inr, ◌==◌, Text, str_eq, if◌then◌else◌, length, map, arith, Bool-cases,
}
use vault_fs.GoMap.{Map, insert, lookup_or}
use vault_fs.GoMap.Laws.{lookup-insert, lookup_or-insert}
use vault_fs.Metadata.Lease.{grant, count}
use vault_fs.Metadata.Monitor.{Monitor, record_heartbeat, is_alive, last_seen_at}
use vault_fs.Metadata.Store.{Badger}
use vault_fs.Metadata.Namespace.{NamespaceError, not_found, Codec, stat, list_dir, stats}
use vault_fs.Master.{NodeInfo, Server, placement}
use vault_fs.Master.Requests.{
  RpcError, internal, unavailable, not_found_status, failed_precondition, invalid_argument,
  FileReply, file_info_to_proto,
}

pub record ChunkLocation : Type 0 where
  pub chunk_id : String
  pub nodes : List NodeInfo

pub record LeaseReply : Type 0 where
  pub chunk_id : String
  pub holder : String
  pub expiry_unix : ℕ

-- The state of a node is whether it is alive; `last_heartbeat_unix` is 0 where none is known.
pub record NodeStatus : Type 0 where
  pub node : NodeInfo
  pub alive : Bool
  pub last_heartbeat_unix : ℕ
  pub chunk_count : ℕ

pub record StatusReply : Type 0 where
  pub leader_id : String
  pub term : ℕ
  pub file_count : ℕ
  pub chunk_count : ℕ
  pub nodes : List NodeStatus

-- The loops over chunk ids in OpenForRead and OpenForWrite.
unfoldable pub locate : List NodeInfo → List String → List ChunkLocation
locate nodes [] = []
locate nodes (id ∷ ids) = record { chunk_id = id; nodes = nodes } ∷ locate nodes ids

unfoldable pub get_lease :
    {Db : Type 0} → Server Db → ℕ → String → String → Server Db × Result RpcError LeaseReply
get_lease s now chunk_id holder =
    let (leases, r) = grant s.leases now chunk_id holder in
    (
      record s { leases = leases },
      elim r [
        | err e ↦ err failed_precondition
        | ok lease ↦ ok (record {
          chunk_id = lease.chunk_id;
          holder = lease.holder;
          expiry_unix = lease.expiry / 1000000000;
        })
      ],
    )

abbrev pub beat : Option Monitor → ℕ → String → Option Monitor
beat none now id = none
beat (some m) now id = some (record_heartbeat m now id)

unfoldable pub heartbeat : {Db : Type 0} → Server Db → ℕ → String → ℕ → Server Db × Option RpcError
heartbeat s now id chunk_count = if str_eq id "" then (s, some invalid_argument) else (
  record s { monitor = beat s.monitor now id; chunk_counts = insert id chunk_count s.chunk_counts },
  none,
)

-- The loop body of nodeStatuses.
unfoldable pub node_status : Map ℕ → Option Monitor → ℕ → NodeInfo → NodeStatus
node_status counts none now n = record {
  node = n;
  alive = true;
  last_heartbeat_unix = 0;
  chunk_count = lookup_or 0 n.node_id counts;
}
node_status counts (some m) now n = record {
  node = n;
  alive = is_alive m now n.node_id;
  last_heartbeat_unix = elim (last_seen_at m n.node_id) [ none ↦ 0 | some ts ↦ ts / 1000000000 ];
  chunk_count = lookup_or 0 n.node_id counts;
}

unfoldable pub statuses : Map ℕ → Option Monitor → ℕ → List NodeInfo → List NodeStatus
unfolding node_status
statuses counts monitor now [] = []
statuses counts monitor now (n ∷ nodes) =
    node_status counts monitor now n ∷ statuses counts monitor now nodes

unfoldable pub node_statuses : {Db : Type 0} → Server Db → ℕ → List NodeStatus
unfolding statuses
node_statuses s now = statuses s.chunk_counts s.monitor now s.chunk_nodes

unfoldable pub open_for_write :
    {Db : Type 0} → Server Db → List String → Result RpcError (List ChunkLocation)
unfolding locate
open_for_write s ids =
    if length s.chunk_nodes == 0 then err unavailable else ok (locate (placement s) ids)

unfoldable pub list_nodes : {Db : Type 0} → Server Db → ℕ → List NodeStatus
list_nodes s now = node_statuses s now

module _ {Blob : Type 0} (b : Badger Blob) (c : Codec Blob) where
  -- The status of an error of the namespace's Stat.
  abbrev pub stat_error : NamespaceError → RpcError
  stat_error not_found = not_found_status
  stat_error e = internal

  unfoldable pub stat_file : Server b.Db → Text → Result RpcError FileReply
  stat_file s path = elim (stat b c s.ns path) [
    | err e ↦ err (stat_error e)
    | ok fi ↦ ok (file_info_to_proto fi)
  ]

  unfoldable pub list_files : Server b.Db → Text → Result RpcError (List FileReply)
  list_files s path = elim (list_dir b c s.ns path) [
    | err e ↦ err internal
    | ok entries ↦ ok (map file_info_to_proto entries)
  ]

  unfoldable pub open_for_read :
      Server b.Db → Text → Result RpcError (FileReply × List ChunkLocation)
  unfolding locate
  open_for_read s path = elim (stat b c s.ns path) [
    | err e ↦ err (stat_error e)
    | ok fi ↦ ok (file_info_to_proto fi, locate (placement s) fi.chunk_ids)
  ]

  unfoldable pub cluster_status : Server b.Db → ℕ → Result RpcError StatusReply
  cluster_status s now = elim (stats b c s.ns) [
    | err e ↦ err internal
    | ok (files, chunks) ↦ ok (record {
      leader_id = s.node.leader_id;
      term = s.node.current_term;
      file_count = files;
      chunk_count = chunks;
      nodes = node_statuses s now;
    })
  ]

-- The chunk server that has just reported is listed as alive, with the count that it reported, until
-- the monitor's timeout has passed; what is listed of every other server is as before.
pub heartbeat_lem :
    {Db : Type 0} (s : Server Db) (m : Monitor) (now later : ℕ) (id : String) (count : ℕ)
    (n : NodeInfo)
    → s.monitor ≡ some m
    → (heartbeat s now id count).1 ≡ none
    → later - now ≤ m.timeout
    → node_status
        (heartbeat s now id count).0.chunk_counts
        (heartbeat s now id count).0.monitor
        later
        n
      ≡ (if str_eq id n.node_id
          then record {
            node = n;
            alive = true;
            last_heartbeat_unix = now / 1000000000;
            chunk_count = count;
          }
          else node_status s.chunk_counts s.monitor later n)
unfolding heartbeat node_status record_heartbeat is_alive last_seen_at
heartbeat_lem s m now later id count n h e soon = elim (Bool-cases (str_eq id "")) [
  | inl empty ↦ absurd (ground arith)
  | inr named ↦
      rw (named, h) ground
        (
          arith,
          lookup-insert id n.node_id now m.last_seen,
          lookup_or-insert 0 id n.node_id count s.chunk_counts,
        )
]
