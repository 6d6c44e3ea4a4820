-- ===== src/Master/Finalizing.antt =====
-- internal/master/server.go: FinalizeWrite from the request to the answer.
use vault_fs.Base.{
  ℕ, false, List, [], ◌∷◌, ◌++◌, String, none, some, ok, inl, inr, ◌≡◌, refl, ap, ◌∙◌, subst, Text,
  arith, u64, ◌+◌,
}
use vault_fs.Metadata.Store.{Badger}
use vault_fs.Metadata.Namespace.{FileInfo, Codec, stat}
use vault_fs.Raft.Types.{Entry, leader}
use vault_fs.Raft.Log.{last_entry, append, last_index}
use vault_fs.Raft.Node.{Node, propose as raft_propose, advance_commit_index}
use vault_fs.Raft.Node.Commit.{advance_commit_index_lem}
use vault_fs.Master.{Command, Server, op_finalize, command_inode, apply}
use vault_fs.Master.Applied.{apply_finalize_lem}
use vault_fs.Master.Requests.{
  Gob, waiter, drop_waiter, FileReply, file_info_to_proto, run_entry, await, file_end, command,
  finalize_write_start,
}
use vault_fs.Master.Waiting.{reported, woken, run_entry-woken, await-woken, propose_command_lem}

last_entry-append : (es : List Entry) (e : Entry) → last_entry (es ++ e ∷ []) ≡ some e
unfolding last_entry
last_entry-append [] e = refl
last_entry-append (x ∷ []) e = refl
last_entry-append (x ∷ y ∷ es) e = last_entry-append (y ∷ es) e

log-advance_commit_index : (n : Node) → (advance_commit_index n).log ≡ n.log
log-advance_commit_index n = elim (advance_commit_index_lem n) [
  | inl same ↦ ap (λ (m : Node). m.log) same
  | inr (_, _, _, only) ↦ ap (λ (m : Node). m.log) only
]

-- What a leader proposes is the last entry of its log.
last_entry-propose :
    (n : Node) (entry : List ℕ)
    → n.state ≡ leader
    → (e : Entry) × (last_entry (raft_propose n entry).0.log.entries ≡ some e) × (e.command ≡ entry)
unfolding raft_propose append
last_entry-propose n entry leads =
    let e : Entry = record {
      index = u64 (last_index n.log + 1);
      term = n.current_term;
      command = entry;
    } in
    (
      e,
      rw leads (
          ap (λ l. last_entry l.entries) (log-advance_commit_index _)
          ∙ last_entry-append n.log.entries e),
      refl,
    )

module _ {Blob : Type 0} (b : Badger Blob) (c : Codec Blob) (g : Gob) where
  file_end-awaited :
      (s s' : Server b.Db) (id : ℕ) (path : Text) (fi : FileInfo)
      → await b c g s id false ≡ some (s', none)
      → stat b c s'.ns path ≡ ok fi
      → file_end b c g s id false path ≡ some (s', ok (file_info_to_proto fi))
  unfolding file_end
  file_end-awaited s s' id path fi h st = ground arith

  -- The answer of a handler whose command is an op_finalize that is applied without an error.
  applied_answer :
      (s : Server b.Db) (clock : ℕ → ℕ) (now : ℕ) (entry : List ℕ) (cmd : Command)
      → g.decode entry ≡ some cmd
      → cmd.kind ≡ op_finalize
      → waiter cmd.op_id s.waiters ≡ some none
      → (apply b c s clock now cmd).1 ≡ none
      → (t : Server b.Db) × (reply : FileReply) × (file_end b c g
            (run_entry b c g s clock now entry).0
            cmd.op_id
            false
            cmd.path
          ≡ some (t, ok reply))
        × (reply.path ≡ cmd.path)
        × (reply.size ≡ cmd.size)
        × (reply.chunk_ids ≡ cmd.chunk_ids)
        × (reply.is_dir ≡ false)
  unfolding file_info_to_proto
  applied_answer s clock now entry cmd d k w none_wrong =
      let after = woken b c g s clock now cmd in
      let s' = (apply b c s clock now cmd).0 in
      let ((created, found), others) =
        apply_finalize_lem b c s s' clock now cmd k (ap (λ o. (s', o)) none_wrong) in
      let fi = record (command_inode cmd.path cmd.size cmd.chunk_ids) {
        created_at = created;
        updated_at = some now;
      } in
      let done = record after { waiters = drop_waiter cmd.op_id after.waiters } in
      (
        done,
        file_info_to_proto fi,
        rw (run_entry-woken b c g s clock now entry cmd d w) (
            file_end-awaited after done cmd.op_id cmd.path fi
              (await-woken b c g s clock now cmd ∙ ap (λ o. some (done, reported o)) none_wrong)
              found),
        refl,
        refl,
        refl,
        refl,
      )

  -- A FinalizeWrite that a leader takes waits under an operation id, and its command is the last entry
  -- of the leader's log. Whenever a master that has a handler waiting under that id applies that
  -- entry without an error, and nothing else before the handler reads the inode, the handler answers
  -- with the path, the size and the chunks of the request.
  pub finalize_write_lem :
      (s s' t : Server b.Db) (path : Text) (ids : List String) (size id : ℕ) (clock : ℕ → ℕ)
      (now : ℕ)
      → finalize_write_start b c g s path ids size ≡ (s', ok id)
      → waiter id t.waiters ≡ some none
      → (apply b c t clock now (record (command b c g op_finalize path ids size) { op_id = id })).1
        ≡ none
      → (waiter id s'.waiters ≡ some none)
        × ((e : Entry) × (last_entry s'.node.log.entries ≡ some e)
            × ((u : Server b.Db) × (reply : FileReply) × (file_end b c g
                    (run_entry b c g t clock now e.command).0
                    id
                    false
                    path
                  ≡ some (u, ok reply))
                × (reply.path ≡ path)
                × (reply.size ≡ size)
                × (reply.chunk_ids ≡ ids)
                × (reply.is_dir ≡ false)))
  unfolding finalize_write_start
  finalize_write_lem s s' t path ids size id clock now h w none_wrong =
      let cmd = command b c g op_finalize path ids size in
      elim (propose_command_lem b c g s s' cmd (ok id) h) [
        | inr (e, refused, _) ↦ absurd (ground arith)
        | inl (id', taken, _, waits, leads, (entry, decodes, node)) ↦
            let (e, last, same) = last_entry-propose s.node entry leads in
            let agree : id' ≡ id = ground arith in
            (
              subst (λ k. waiter k s'.waiters ≡ some none) agree waits,
              (
                e,
                ap (λ (n : Node). last_entry n.log.entries) node ∙ last,
                applied_answer t clock now e.command (record cmd { op_id = id })
                    (ap g.decode same ∙ decodes ∙ ap (λ k. some (record cmd { op_id = k })) agree)
                    refl w none_wrong,
              ),
            )
      ]
