-- ===== src/Master/Waiting.antt =====
-- The handlers that wait for their command: who is woken, and with what.
use vault_fs.Base.{
  ℕ, ◌+◌, ◌==◌, u64, true, false, List, [], ◌∷◌, Option, none, some, Result, ok, err, Result-cases,
  Option-cases, Bool-cases, inl, inr, ◌≡◌, ◌≢◌, ◌⊎◌, refl, sym, subst, if◌then◌else◌, arith,
}
use vault_fs.Metadata.Store.{Badger}
use vault_fs.Metadata.Namespace.{Codec, not_found, stat, delete_file}
use vault_fs.Raft.Types.{NodeState, leader, follower, candidate}
use vault_fs.Raft.Node.{Node, is_leader, propose as raft_propose}
use vault_fs.Master.{
  Command, Channel, ApplyError, Server, op_finalize, op_create, op_delete, command_inode, create_at,
  write_file, apply_create, apply_finalize, record_chunk_locations, apply,
}
use vault_fs.Master.Requests.{
  RpcError, internal, unavailable, Gob, waiter, set_waiter, drop_waiter, propose_command, run_entry,
  await,
}

pub waiter-set_waiter :
    (id j : ℕ) (ch : Channel) (ws : List (ℕ × Channel))
    → waiter j (set_waiter id ch ws) ≡ (if id == j then some ch else waiter j ws)
unfolding waiter set_waiter
waiter-set_waiter id j ch [] = refl
waiter-set_waiter id j ch ((k, old) ∷ ws) = ground (arith, waiter-set_waiter id j ch ws)

pub waiter-drop_waiter :
    (id j : ℕ) (ws : List (ℕ × Channel))
    → waiter j (drop_waiter id ws) ≡ (if id == j then none else waiter j ws)
unfolding waiter drop_waiter
waiter-drop_waiter id j [] = ground arith
waiter-drop_waiter id j ((k, old) ∷ ws) = ground (arith, waiter-drop_waiter id j ws)

leader_only : (r : NodeState) → is_leader r ≡ true → r ≡ leader
leader_only leader h = refl
leader_only follower h = absurd (cc)
leader_only candidate h = absurd (cc)

accepted-leader : (n : Node) (entry : List ℕ) → (raft_propose n entry).1 ≡ none → n.state ≡ leader
unfolding raft_propose
accepted-leader n entry h = elim (Bool-cases (is_leader n.state)) [
  | inl e ↦ leader_only n.state e
  | inr e ↦ absurd (ground arith)
]

-- The end of the wait, as the handler sees the result of its command.
abbrev pub reported : Option ApplyError → Option RpcError
reported none = none
reported (some e) = some internal

module _ {Blob : Type 0} (b : Badger Blob) (c : Codec Blob) (g : Gob) where
  apply-waiters :
      (s : Server b.Db) (clock : ℕ → ℕ) (now : ℕ) (cmd : Command)
      → (apply b c s clock now cmd).0.waiters ≡ s.waiters
  unfolding apply apply_create apply_finalize record_chunk_locations
  apply-waiters s clock now cmd = elim (Bool-cases (cmd.kind == op_create)) [
    | inl k ↦ ground (
      arith,
      Result-cases (stat b c s.ns cmd.path),
      Option-cases (create_at b c s.ns clock now (command_inode cmd.path 0 [])).1,
    )
    | inr k ↦ elim (Bool-cases (cmd.kind == op_finalize)) [
      | inl l ↦ ground (
        arith,
        Option-cases
            (write_file b c s.ns clock now (command_inode cmd.path cmd.size cmd.chunk_ids)).1,
        Option-cases s.chunk_map,
      )
      | inr l ↦ elim (Bool-cases (cmd.kind == op_delete)) [
        | inr m ↦ ground arith
        | inl m ↦ elim (Result-cases (delete_file b c s.ns cmd.path)) [
          | inl (ns, f) ↦ ground arith
          | inr (not_found, f) ↦ ground arith
          | inr (x, f) ↦ ground arith
        ]
      ]
    ]
  ]

  -- A proposal that a leader accepts waits under the next operation id, and its entry in the leader's
  -- log decodes to the command with that id. One that is not accepted leaves no waiter.
  pub propose_command_lem :
      (s s' : Server b.Db) (cmd : Command) (r : Result RpcError ℕ)
      → propose_command b c g s cmd ≡ (s', r)
      → ((id : ℕ) × (r ≡ ok id)
          × (id ≡ u64 (s.op_seq + 1))
          × (waiter id s'.waiters ≡ some none)
          × (s.node.state ≡ leader)
          × ((entry : List ℕ) × (g.decode entry ≡ some (record cmd { op_id = id }))
              × (s'.node ≡ (raft_propose s.node entry).0)))
        ⊎ ((e : RpcError) × (r ≡ err e) × (waiter (u64 (s.op_seq + 1)) s'.waiters ≡ none))
  unfolding propose_command
  propose_command_lem s s' cmd r h =
      let id = u64 (s.op_seq + 1) in
      elim (Option-cases (g.encode (record cmd { op_id = id }))) [
        | inl e ↦ inr (
          internal,
          ground arith,
          ground (arith, waiter-drop_waiter id id (set_waiter id none s.waiters)),
        )
        | inr (entry, e) ↦ elim (Option-cases (raft_propose s.node entry).1) [
          | inl f ↦ inl (
            id,
            ground arith,
            refl,
            ground (arith, waiter-set_waiter id id none s.waiters),
            accepted-leader s.node entry f,
            (entry, g.decode-encode (record cmd { op_id = id }) entry e, ground arith),
          )
          | inr (x, f) ↦ inr (
            unavailable,
            ground arith,
            ground (arith, waiter-drop_waiter id id (set_waiter id none s.waiters)),
          )
        ]
      ]

  -- The server after the entry of a command that a handler waits for.
  abbrev pub woken : Server b.Db → (ℕ → ℕ) → ℕ → Command → Server b.Db
  woken s clock now cmd =
      let (s', e) = apply b c s clock now cmd in
      record s' { waiters = set_waiter cmd.op_id (some e) s'.waiters }

  pub run_entry-woken :
      (s : Server b.Db) (clock : ℕ → ℕ) (now : ℕ) (entry : List ℕ) (cmd : Command)
      → g.decode entry ≡ some cmd
      → waiter cmd.op_id s.waiters ≡ some none
      → run_entry b c g s clock now entry ≡ (woken s clock now cmd, true)
  unfolding run_entry
  run_entry-woken s clock now entry cmd d w =
      let w' =
        subst (λ ws. waiter cmd.op_id ws ≡ some none) (sym (apply-waiters s clock now cmd)) w in
      rw (run_entry, d, w') refl

  pub await-woken :
      (s : Server b.Db) (clock : ℕ → ℕ) (now : ℕ) (cmd : Command)
      → await b c g (woken s clock now cmd) cmd.op_id false
        ≡ some (
          record (woken s clock now cmd) {
            waiters = drop_waiter cmd.op_id (woken s clock now cmd).waiters;
          },
          reported (apply b c s clock now cmd).1,
        )
  unfolding await
  await-woken s clock now cmd =
      let s' = (apply b c s clock now cmd).0 in
      let e = (apply b c s clock now cmd).1 in
      ground (arith, waiter-set_waiter cmd.op_id cmd.op_id (some e) s'.waiters, Option-cases e)

  -- When an entry is applied, the handler that waits under the operation id of its command is woken
  -- with the result of that command, whichever master proposed the entry; all other waiters keep
  -- waiting or keep the results that they have.
  pub run_entry_lem :
      (s : Server b.Db) (clock : ℕ → ℕ) (now : ℕ) (entry : List ℕ) (cmd : Command)
      → g.decode entry ≡ some cmd
      → waiter cmd.op_id s.waiters ≡ some none
      → ((run_entry b c g s clock now entry).1 ≡ true)
        × ((t : Server b.Db) × (await b c g (run_entry b c g s clock now entry).0 cmd.op_id false
              ≡ some (t, reported (apply b c s clock now cmd).1))
            × (t.ns ≡ (apply b c s clock now cmd).0.ns)
            × (waiter cmd.op_id t.waiters ≡ none))
        × ((j : ℕ)
            → j ≢ cmd.op_id
            → waiter j (run_entry b c g s clock now entry).0.waiters ≡ waiter j s.waiters)
  run_entry_lem s clock now entry cmd d w =
      let after = woken s clock now cmd in
      let e = (apply b c s clock now cmd).1 in
      rw (run_entry-woken s clock now entry cmd d w) (
        refl,
        (
          record after { waiters = drop_waiter cmd.op_id after.waiters },
          await-woken s clock now cmd,
          refl,
          ground (arith, waiter-drop_waiter cmd.op_id cmd.op_id after.waiters),
        ),
        λ j other. ground (
          arith,
          waiter-set_waiter cmd.op_id j (some e) (apply b c s clock now cmd).0.waiters,
          apply-waiters s clock now cmd,
        ),
      )
