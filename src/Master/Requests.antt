-- ===== src/Master/Requests.antt =====
-- internal/master/server.go: the calls that change the namespace, which go through the Raft log. A
-- handler runs in steps: it proposes its command, Run applies the entry when it is committed, and
-- the handler ends with the result or with the end of its context. encoding/gob is an interface,
-- and the other goroutines run between the steps.
use vault_fs.Base.{
  ℕ, ◌+◌, ◌/◌, ◌==◌, u64, String, Bool, true, false, List, [], ◌∷◌, Option, none, some, Result, ok,
  err, ◌≡◌, Text, if◌then◌else◌,
}
use vault_fs.Metadata.Store.{Badger}
use vault_fs.Metadata.Namespace.{FileInfo, Codec, stat}
use vault_fs.Raft.Node.{ProposeError, propose as raft_propose}
use vault_fs.Master.{Command, Channel, Server, op_create, op_finalize, op_delete, apply}

pub data RpcError : Type 0 where
  unavailable internal not_found_status failed_precondition invalid_argument context_ended :
      RpcError

-- gob.Encode and gob.Decode on commands.
pub record Gob : Type 0 where
  pub encode : Command → Option (List ℕ)
  pub decode : List ℕ → Option Command
  pub decode-encode :
      (cmd : Command) (entry : List ℕ) → encode cmd ≡ some entry → decode entry ≡ some cmd

-- s.waiters[id]
unfoldable pub waiter : ℕ → List (ℕ × Channel) → Option Channel
waiter id [] = none
waiter id ((j, ch) ∷ ws) = if j == id then some ch else waiter id ws

-- s.waiters[id] = ch
unfoldable pub set_waiter : ℕ → Channel → List (ℕ × Channel) → List (ℕ × Channel)
set_waiter id ch [] = (id, ch) ∷ []
set_waiter id ch ((j, old) ∷ ws) = if j == id then (id, ch) ∷ ws else (j, old) ∷ set_waiter id ch ws

-- delete(s.waiters, id)
unfoldable pub drop_waiter : ℕ → List (ℕ × Channel) → List (ℕ × Channel)
drop_waiter id [] = []
drop_waiter id ((j, ch) ∷ ws) =
    let rest = drop_waiter id ws in if j == id then rest else (j, ch) ∷ rest

-- A time in seconds. `none` stands for the second of the zero time.
abbrev pub unix : Option ℕ → Option ℕ
unix none = none
unix (some t) = some (t / 1000000000)

pub record FileReply : Type 0 where
  pub path : Text
  pub is_dir : Bool
  pub size : ℕ
  pub chunk_ids : List String
  pub mode : ℕ
  pub created_at_unix : Option ℕ
  pub updated_at_unix : Option ℕ

unfoldable pub file_info_to_proto : FileInfo → FileReply
file_info_to_proto fi = record {
  path = fi.path;
  is_dir = fi.is_dir;
  size = fi.size;
  chunk_ids = fi.chunk_ids;
  mode = fi.mode;
  created_at_unix = unix fi.created_at;
  updated_at_unix = unix fi.updated_at;
}

module _ {Blob : Type 0} (b : Badger Blob) (c : Codec Blob) (g : Gob) where
  -- The result of Raft for the entry; the waiter goes where the proposal fails.
  abbrev pub proposed : Server b.Db → ℕ → Option ProposeError → Server b.Db × Result RpcError ℕ
  proposed s id none = (s, ok id)
  proposed s id (some e) = (record s { waiters = drop_waiter id s.waiters }, err unavailable)

  -- propose up to its `select`, with the id that it waits for.
  unfoldable pub propose_command : Server b.Db → Command → Server b.Db × Result RpcError ℕ
  unfolding set_waiter drop_waiter
  propose_command s cmd =
      let id = u64 (s.op_seq + 1) in
      let waiting = record s { op_seq = id; waiters = set_waiter id none s.waiters } in
      elim (g.encode (record cmd { op_id = id })) [
        | none ↦ (record waiting { waiters = drop_waiter id waiting.waiters }, err internal)
        | some entry ↦
            let (node, e) = raft_propose s.node entry in
            proposed (record waiting { node = node }) id e
      ]

  -- One round of Run on a committed entry. The Boolean is false where the send blocks, since the
  -- channel is full.
  unfoldable pub run_entry : Server b.Db → (ℕ → ℕ) → ℕ → List ℕ → Server b.Db × Bool
  unfolding waiter set_waiter
  run_entry s clock now entry = elim (g.decode entry) [
    | none ↦ (s, true)
    | some cmd ↦
        let (s', e) = apply b c s clock now cmd in
        elim (waiter cmd.op_id s'.waiters) [
          | none ↦ (s', true)
          | some none ↦ (record s' { waiters = set_waiter cmd.op_id (some e) s'.waiters }, true)
          | some (some old) ↦ (s', false)
        ]
  ]

  -- The `select` of propose, on a result or on the end of the context, and the deferred deletion.
  -- `none` while it waits.
  unfoldable pub await : Server b.Db → ℕ → Bool → Option (Server b.Db × Option RpcError)
  unfolding waiter drop_waiter
  await s id ended =
      let done = record s { waiters = drop_waiter id s.waiters } in
      if ended then some (done, some context_ended) else elim (waiter id s.waiters) [
        | some (some none) ↦ some (done, none)
        | some (some (some e)) ↦ some (done, some internal)
        | some none ↦ none
        | none ↦ none
      ]

  abbrev pub command : ℕ → Text → List String → ℕ → Command
  command kind path ids size = record {
    op_id = 0;
    kind = kind;
    path = path;
    chunk_ids = ids;
    size = size;
  }

  -- CreateFile, FinalizeWrite and DeleteFile up to the wait.
  unfoldable pub create_file_start : Server b.Db → Text → Server b.Db × Result RpcError ℕ
  unfolding propose_command
  create_file_start s path = propose_command s (command op_create path [] 0)

  unfoldable pub finalize_write_start :
      Server b.Db → Text → List String → ℕ → Server b.Db × Result RpcError ℕ
  unfolding propose_command
  finalize_write_start s path ids size = propose_command s (command op_finalize path ids size)

  unfoldable pub delete_file_start : Server b.Db → Text → Server b.Db × Result RpcError ℕ
  unfolding propose_command
  delete_file_start s path = propose_command s (command op_delete path [] 0)

  -- The end of CreateFile and of FinalizeWrite, which read the inode for the answer.
  unfoldable pub file_end :
      Server b.Db → ℕ → Bool → Text → Option (Server b.Db × Result RpcError FileReply)
  unfolding await file_info_to_proto
  file_end s id ended path = elim (await s id ended) [
    | none ↦ none
    | some (s', some e) ↦ some (s', err e)
    | some (s', none) ↦ elim (stat b c s'.ns path) [
      | err e ↦ some (s', err internal)
      | ok fi ↦ some (s', ok (file_info_to_proto fi))
    ]
  ]

  unfoldable pub delete_file_end : Server b.Db → ℕ → Bool → Option (Server b.Db × Option RpcError)
  unfolding await
  delete_file_end s id ended = await s id ended
