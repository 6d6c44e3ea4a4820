-- ===== src/Raft/Network/Rounds.antt =====
-- One round of replication over the network.
use vault_fs.Base.{
  ℕ, ◌+◌, ap, ◌∙◌, ◌≤◌, ◌<◌, String, true, false, some, ok, ◌≡◌, refl, arith, str_eq, eq_iff,
  eq_refl, two64,
}
use vault_fs.GoMap.{lookup, lookup_or, insert}
use vault_fs.GoMap.Laws.{lookup-insert}
use vault_fs.Raft.Types.{AppendEntriesArgs, leader}
use vault_fs.Raft.Log.{last_index, term}
use vault_fs.Raft.Log.Shape.{IsWellFormed}
use vault_fs.Raft.Node.{Node}
use vault_fs.Raft.Replication.{
  append_entries, prepare_append, handle_append_entries, handle_append_reply, record_match,
}
use vault_fs.Raft.Replication.Leader.{
  accepted_matches_leader, prepare_append-whole, prepare_append-previous,
}
use vault_fs.Raft.Network.{InMemNetwork, reach, register, send_append_entries, replicate_to}
use vault_fs.Raft.Replication.Replies.{
  accepted-term, record_match-peer, handle_append_reply-accepted, refused_short, backed_up,
  back-peer,
}

sent-ok :
    (net : InMemNetwork) (id peer : String) (f : Node) (args : AppendEntriesArgs)
    → reach net id peer ≡ ok f
    → send_append_entries net id peer args
      ≡ (register net peer (handle_append_entries f args).0, ok (handle_append_entries f args).1)
unfolding send_append_entries
sent-ok net id peer f args there = rw (send_append_entries, there) refl

round-ok :
    (net : InMemNetwork) (id peer : String) (n f : Node) (args : AppendEntriesArgs)
    → lookup id net.handlers ≡ some n
    → reach net id peer ≡ ok f
    → prepare_append n peer ≡ append_entries args
    → lookup id (register net peer (handle_append_entries f args).0).handlers ≡ some n
    → replicate_to net id peer
      ≡ register
          (register net peer (handle_append_entries f args).0)
          id
          (handle_append_reply n peer args (handle_append_entries f args).1)
unfolding replicate_to
round-ok net id peer n f args at there e still = ground (arith, sent-ok net id peer f args there)

-- Both ends of a round in which the peer has replied.
ends :
    (net : InMemNetwork) (id peer : String) (n f : Node) (args : AppendEntriesArgs)
    → str_eq peer id ≡ false
    → lookup id net.handlers ≡ some n
    → reach net id peer ≡ ok f
    → prepare_append n peer ≡ append_entries args
    → (lookup peer (replicate_to net id peer).handlers ≡ some (handle_append_entries f args).0)
      × (lookup id (replicate_to net id peer).handlers
          ≡ some (handle_append_reply n peer args (handle_append_entries f args).1))
unfolding register
ends net id peer n f args other at there e =
    let f' = (handle_append_entries f args).0 in
    let n' = handle_append_reply n peer args (handle_append_entries f args).1 in
    let mid = insert peer f' net.handlers in
    let still : lookup id mid ≡ some n = ground (arith, lookup-insert peer id f' net.handlers) in
    let round = round-ok net id peer n f args at there e still in
    (
      rw round (
          ground (
            arith,
            lookup-insert id peer n' mid,
            lookup-insert peer peer f' net.handlers,
            eq_iff id peer,
            eq_iff peer id,
            eq_refl peer,
          )),
      rw round (ground (arith, lookup-insert id id n' mid, eq_refl id)),
    )

-- A round of a leader with a well-formed log to another node that it reaches over the network, which
-- has a well-formed log that is compacted below what the leader sends: where the node accepts the
-- request, the network then has it with the leader's term at every index from the one that it missed
-- to the end of the leader's log, and has the leader with the end of its log for what the peer
-- matches, and the index behind it for what comes next.
pub replicate_to_lem :
    (net : InMemNetwork) (id peer : String) (n f : Node) (args : AppendEntriesArgs)
    → str_eq peer id ≡ false
    → lookup id net.handlers ≡ some n
    → reach net id peer ≡ ok f
    → n.state ≡ leader
    → IsWellFormed n.log
    → last_index n.log + 1 < two64
    → n.log.snap_index < lookup_or 0 peer n.next_index
    → lookup_or 0 peer n.next_index ≤ last_index n.log + 1
    → lookup_or 0 peer n.match_index ≤ last_index n.log
    → prepare_append n peer ≡ append_entries args
    → IsWellFormed f.log
    → f.log.snap_index < lookup_or 0 peer n.next_index
    → (handle_append_entries f args).1.success ≡ true
    → ((f' : Node) × (lookup peer (replicate_to net id peer).handlers ≡ some f')
        × ((j : ℕ)
            → lookup_or 0 peer n.next_index ≤ j
            → j ≤ last_index n.log
            → term f'.log j ≡ term n.log j))
      × ((n' : Node) × (lookup id (replicate_to net id peer).handlers ≡ some n')
          × (lookup_or 0 peer n'.match_index ≡ last_index n.log)
          × (lookup_or 0 peer n'.next_index ≡ last_index n.log + 1))
replicate_to_lem net id peer n f args other at there leads w fits above within behind e fw under
      done =
    let (peer_end, leader_end) = ends net id peer n f args other at there e in
    let (t, whole) = prepare_append-whole n peer leads w fits above within args e in
    let noted = record_match-peer n peer args (last_index n.log) whole fits behind in
    let replied =
      handle_append_reply-accepted n peer args (handle_append_entries f args).1 leads t
        (accepted-term f args done) done in
    (
      (
        (handle_append_entries f args).0,
        peer_end,
        accepted_matches_leader n peer leads w fits above within f args e fw under done,
      ),
      (record_match n peer args, leader_end ∙ ap some replied, noted.0, noted.1),
    )

-- A round of a leader with a well-formed log to another node of no later term that it reaches over
-- the network, whose log is well formed and ends before the entry that the new ones follow: the
-- network then has the leader with the index behind the end of the peer's log for what comes next,
-- which is less than before, and otherwise as it was.
pub replicate_to_short_lem :
    (net : InMemNetwork) (id peer : String) (n f : Node) (args : AppendEntriesArgs)
    → str_eq peer id ≡ false
    → lookup id net.handlers ≡ some n
    → reach net id peer ≡ ok f
    → n.state ≡ leader
    → IsWellFormed n.log
    → last_index n.log + 1 < two64
    → n.log.snap_index < lookup_or 0 peer n.next_index
    → lookup_or 0 peer n.next_index ≤ last_index n.log + 1
    → prepare_append n peer ≡ append_entries args
    → IsWellFormed f.log
    → f.current_term ≤ n.current_term
    → last_index f.log + 1 < lookup_or 0 peer n.next_index
    → (lookup id (replicate_to net id peer).handlers
        ≡ some (record n { next_index = insert peer (last_index f.log + 1) n.next_index }))
      × (lookup_or 0 peer (insert peer (last_index f.log + 1) n.next_index)
          < lookup_or 0 peer n.next_index)
replicate_to_short_lem net id peer n f args other at there leads w fits above within e fw older
      short =
    let (_, leader_end) = ends net id peer n f args other at there e in
    let (t, whole) = prepare_append-whole n peer leads w fits above within args e in
    let before = prepare_append-previous n peer leads w fits above within args e in
    let refused = refused_short f args fw (omega arith) (omega arith) (omega arith) in
    (
      leader_end
          ∙ ap some (
              backed_up n peer args (handle_append_entries f args).1 (last_index f.log) leads t
                refused),
      omega (arith, back-peer peer (last_index f.log + 1) n.next_index),
    )
