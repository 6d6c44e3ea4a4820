-- ===== src/Master/Examples.antt =====
-- A master of one, whose log entries hold the commands with no chunk or with the chunk "c1".
use vault_fs.Base.{
  ℕ, String, List, [], ◌∷◌, Option, none, some, ◌≡◌, str_eq, eq_iff, Text, if◌then◌else◌, arith,
  ◌==◌,
}
use vault_fs.Metadata.Lease.{new_lease_manager}
use vault_fs.Metadata.Namespace.Examples.{db, tree}
use vault_fs.Raft.Types.{leader}
use vault_fs.Raft.Node.{Node, new as new_node}
use vault_fs.Master.{Command, NodeInfo, Server}
use vault_fs.Master.Requests.{Gob}

abbrev pub command_entry : Command → Option (List ℕ)
command_entry cmd = elim cmd.chunk_ids [
  | [] ↦ some (0 ∷ cmd.op_id ∷ cmd.kind ∷ cmd.size ∷ cmd.path)
  | id ∷ [] ↦ if str_eq id "c1" then some (1 ∷ cmd.op_id ∷ cmd.kind ∷ cmd.size ∷ cmd.path) else none
  | _ ↦ none
]

abbrev pub entry_command : List ℕ → Option Command
entry_command (n ∷ id ∷ kind ∷ size ∷ path) = some (record {
  op_id = id;
  kind = kind;
  path = path;
  chunk_ids = if n == 0 then [] else "c1" ∷ [];
  size = size;
})
entry_command _ = none

with_ids :
    (ids : List String) (op_id kind size : ℕ) (path : Text) (entry : List ℕ)
    → command_entry
        (record { op_id = op_id; kind = kind; path = path; chunk_ids = ids; size = size })
      ≡ some entry
    → entry_command entry
      ≡ some (record { op_id = op_id; kind = kind; path = path; chunk_ids = ids; size = size })
with_ids [] op_id kind size path entry h = ground arith
with_ids (id ∷ []) op_id kind size path entry h = ground (arith, eq_iff id "c1")
with_ids (id ∷ j ∷ ids) op_id kind size path entry h = absurd (cc)

pub entry_command-command_entry :
    (cmd : Command) (entry : List ℕ)
    → command_entry cmd ≡ some entry
    → entry_command entry ≡ some cmd
entry_command-command_entry cmd entry h =
    with_ids cmd.chunk_ids cmd.op_id cmd.kind cmd.size cmd.path entry h

abbrev pub gob : Gob
gob = record {
  encode = command_entry;
  decode = entry_command;
  decode-encode = entry_command-command_entry;
}

abbrev pub n1 : NodeInfo
n1 = record { node_id = "n1"; address = "a1" }

abbrev pub n2 : NodeInfo
n2 = record { node_id = "n2"; address = "a2" }

abbrev pub raft : Node
raft = record (new_node "m1" []) { state = leader }

abbrev pub master : Server db.Db
master = record {
  ns = tree;
  leases = new_lease_manager 0;
  chunk_nodes = n1 ∷ n2 ∷ [];
  rf = 3;
  node = raft;
  monitor = some (record {
    last_seen = [];
    chunk_map = record { locations = [] };
    timeout = 10;
    replication_factor = 3;
  });
  chunk_map = some (record { locations = [] });
  op_seq = 6;
  waiters = (7, none) ∷ (9, none) ∷ [];
  chunk_counts = [];
}
