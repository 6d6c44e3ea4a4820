-- ===== src/Raft/Network.antt =====
-- internal/raft/transport.go: the in-process network. The handlers are the nodes themselves, each
-- under its id, and a message is a call of the receiver's handler.
pub mod Links
pub mod Rounds
use vault_fs.Base.{
  ℕ, String, Bool, true, false, not, ◌&&◌, ◌||◌, List, [], ◌∷◌, Option, none, some, Result, ok, err,
  str_eq, if◌then◌else◌,
}
use vault_fs.GoMap.{Map, lookup, insert}
use vault_fs.Raft.Types.{
  RequestVoteArgs, RequestVoteReply, AppendEntriesArgs, AppendEntriesReply, InstallSnapshotArgs,
  InstallSnapshotReply,
}
use vault_fs.Raft.Node.{Node}
use vault_fs.Raft.Election.{handle_request_vote}
use vault_fs.Raft.Replication.{
  Outgoing, nothing, needs_snapshot, append_entries, prepare_append, handle_append_entries,
  handle_append_reply,
}
use vault_fs.Raft.Snapshots.{handle_install_snapshot, prepare_snapshot, handle_snapshot_reply}

pub data TransportError : Type 0 where
  partitioned not_registered : TransportError

-- The blocked pairs are the keys of a map to an empty struct: a list that stands for a set.
pub record InMemNetwork : Type 0 where
  pub handlers : Map Node
  pub partitions : List (String × String)

unfoldable pub new_network : InMemNetwork
new_network = record { handlers = []; partitions = [] }

unfoldable pub register : InMemNetwork → String → Node → InMemNetwork
register net id h = record net { handlers = insert id h net.handlers }

abbrev pub same_pair : String × String → String → String → Bool
same_pair (x, y) from to = str_eq x from && str_eq y to

-- n.partitions[[2]string{from, to}]
unfoldable pub blocked : List (String × String) → String → String → Bool
blocked [] from to = false
blocked (p ∷ ps) from to = same_pair p from to || blocked ps from to

-- delete(n.partitions, [2]string{from, to})
unfoldable pub unblock : List (String × String) → String → String → List (String × String)
unblock [] from to = []
unblock (p ∷ ps) from to =
    let rest = unblock ps from to in if same_pair p from to then rest else p ∷ rest

unfoldable pub partition : InMemNetwork → String → String → InMemNetwork
partition net a b' = record net { partitions = (b', a) ∷ (a, b') ∷ net.partitions }

unfoldable pub heal : InMemNetwork → String → String → InMemNetwork
unfolding unblock
heal net a b' = record net { partitions = unblock (unblock net.partitions a b') b' a }

unfoldable pub heal_all : InMemNetwork → InMemNetwork
heal_all net = record net { partitions = [] }

unfoldable pub reach : InMemNetwork → String → String → Result TransportError Node
unfolding blocked
reach net from peer =
    if blocked net.partitions from peer
    then err partitioned
    else elim (lookup peer net.handlers) [ none ↦ err not_registered | some h ↦ ok h ]

-- The network after the peer has handled a call, and the reply.
abbrev pub handled :
    {Reply : Type 0}
    → InMemNetwork
    → String
    → Node × Reply
    → InMemNetwork × Result TransportError Reply
handled net peer (h, reply) = (register net peer h, ok reply)

unfoldable pub send_request_vote :
    InMemNetwork
    → String
    → String
    → RequestVoteArgs
    → InMemNetwork × Result TransportError RequestVoteReply
unfolding reach register
send_request_vote net from peer args = elim (reach net from peer) [
  | err e ↦ (net, err e)
  | ok h ↦ handled net peer (handle_request_vote h args)
]

unfoldable pub send_append_entries :
    InMemNetwork
    → String
    → String
    → AppendEntriesArgs
    → InMemNetwork × Result TransportError AppendEntriesReply
unfolding reach register
send_append_entries net from peer args = elim (reach net from peer) [
  | err e ↦ (net, err e)
  | ok h ↦ handled net peer (handle_append_entries h args)
]

unfoldable pub send_install_snapshot :
    InMemNetwork
    → String
    → String
    → InstallSnapshotArgs
    → InMemNetwork × Result TransportError InstallSnapshotReply
unfolding reach register
send_install_snapshot net from peer args = elim (reach net from peer) [
  | err e ↦ (net, err e)
  | ok h ↦ handled net peer (handle_install_snapshot h args)
]

-- What sendSnapshot does over the network, between two times that it holds the leader's mutex.
unfoldable pub send_snapshot : InMemNetwork → String → String → Node → InMemNetwork
unfolding send_install_snapshot
send_snapshot net id peer n = elim (prepare_snapshot n) [
  | none ↦ net
  | some args ↦
      let (net', r) = send_install_snapshot net id peer args in
      elim r [
        | err e ↦ net'
        | ok reply ↦ elim (lookup id net'.handlers) [
          | none ↦ net'
          | some n' ↦ register net' id (handle_snapshot_reply n' peer args reply)
        ]
      ]
]

-- replicateTo of the node with the id, over the network, with nothing else in between.
unfoldable pub replicate_to : InMemNetwork → String → String → InMemNetwork
unfolding send_append_entries send_snapshot register
replicate_to net id peer = elim (lookup id net.handlers) [
  | none ↦ net
  | some n ↦ elim (prepare_append n peer) [
    | nothing ↦ net
    | needs_snapshot ↦ send_snapshot net id peer n
    | append_entries args ↦
        let (net', r) = send_append_entries net id peer args in
        elim r [
          | err e ↦ net'
          | ok reply ↦ elim (lookup id net'.handlers) [
            | none ↦ net'
            | some n' ↦ register net' id (handle_append_reply n' peer args reply)
          ]
        ]
  ]
]
