-- ===== src/Master/Replicas.antt =====
-- The replicated state machine: the namespaces of masters that apply one log.
use vault_fs.Base.{
  ℕ, List, [], ◌∷◌, Option, none, some, Bool-cases, Result-cases, Option-cases, inl, inr, ◌≡◌, ◌⊎◌,
  subst, ◌==◌, arith,
}
use vault_fs.Metadata.Store.{Badger}
use vault_fs.Metadata.Namespace.{Codec, not_found, stat, delete_file}
use vault_fs.Master.{
  Command, Server, ApplyError, op_create, op_finalize, op_delete, unknown_kind, command_inode,
  create_at, write_file, apply_create, apply_finalize, deleted, apply,
}
use vault_fs.Master.Agree.{Agrees, create-Agrees, finalize-Agrees, delete-Agrees}

-- The command did what it is for, or is of a kind that no master knows.
abbrev pub Unfailing : Option ApplyError → Type 0
Unfailing e = (e ≡ none) ⊎ (e ≡ some unknown_kind)

module _ {Blob : Type 0} (b : Badger Blob) (c : Codec Blob) where
  -- A master applies the commands one by one, at any times, and its store does not fail.
  pub data Runs : Server b.Db → List Command → Server b.Db → Type 0 where
    stop : {s : Server b.Db} → Runs s [] s
    go :
        {s mid s' : Server b.Db} {cmds : List Command} (cmd : Command) (clock : ℕ → ℕ) (now : ℕ)
        (e : Option ApplyError)
        → apply b c s clock now cmd ≡ (mid, e)
        → Unfailing e
        → Runs mid cmds s'
        → Runs s (cmd ∷ cmds) s'

  create-none :
      (s s' : Server b.Db) (clock : ℕ → ℕ) (now : ℕ) (cmd : Command) (e : Option ApplyError)
      → apply_create b c s clock now cmd ≡ (s', e)
      → Unfailing e
      → apply_create b c s clock now cmd ≡ (s', none)
  unfolding apply_create
  create-none s s' clock now cmd e h u = ground (
    arith,
    Result-cases (stat b c s.ns cmd.path),
    Option-cases (create_at b c s.ns clock now (command_inode cmd.path 0 [])).1,
  )

  finalize-none :
      (s s' : Server b.Db) (clock : ℕ → ℕ) (now : ℕ) (cmd : Command) (e : Option ApplyError)
      → apply_finalize b c s clock now cmd ≡ (s', e)
      → Unfailing e
      → apply_finalize b c s clock now cmd ≡ (s', none)
  unfolding apply_finalize
  finalize-none s s' clock now cmd e h u = ground (
    arith,
    Option-cases (write_file b c s.ns clock now (command_inode cmd.path cmd.size cmd.chunk_ids)).1,
  )

  delete-none :
      (s s' : Server b.Db) (cmd : Command) (e : Option ApplyError)
      → deleted b c s (delete_file b c s.ns cmd.path) ≡ (s', e)
      → Unfailing e
      → deleted b c s (delete_file b c s.ns cmd.path) ≡ (s', none)
  delete-none s s' cmd e h u = elim (Result-cases (delete_file b c s.ns cmd.path)) [
    | inl (ns, f) ↦ ground arith
    | inr (not_found, f) ↦ ground arith
    | inr (x, f) ↦ absurd (ground arith)
  ]

  apply-Agrees :
      (s s' t t' : Server b.Db) (clock clock' : ℕ → ℕ) (now now' : ℕ) (cmd : Command)
      (e e' : Option ApplyError)
      → apply b c s clock now cmd ≡ (s', e)
      → apply b c t clock' now' cmd ≡ (t', e')
      → Unfailing e
      → Unfailing e'
      → Agrees b c s t
      → Agrees b c s' t'
  unfolding apply
  apply-Agrees s s' t t' clock clock' now now' cmd e e' h h' u u' a =
      elim (Bool-cases (cmd.kind == op_create)) [
        | inl k ↦
            create-Agrees b c s s' t t' clock clock' now now' cmd
              (create-none s s' clock now cmd e (ground arith) u)
              (create-none t t' clock' now' cmd e' (ground arith) u') a
        | inr k ↦ elim (Bool-cases (cmd.kind == op_finalize)) [
          | inl l ↦
              finalize-Agrees b c s s' t t' clock clock' now now' cmd
                (finalize-none s s' clock now cmd e (ground arith) u)
                (finalize-none t t' clock' now' cmd e' (ground arith) u') a
          | inr l ↦ elim (Bool-cases (cmd.kind == op_delete)) [
            | inl m ↦
                delete-Agrees b c s s' t t' cmd (delete-none s s' cmd e (ground arith) u)
                  (delete-none t t' cmd e' (ground arith) u') a
            | inr m ↦
                subst (λ x. Agrees b c x t') (ground arith) (subst (Agrees b c s) (ground arith) a)
          ]
        ]
      ]

  -- Two masters with the same servers, replication factor and chunk map, whose namespaces differ in
  -- times at most, apply the same commands, each at its own times and without a failure of its
  -- store. Then they have the same servers, factor and chunk map again, and namespaces that differ
  -- in times at most.
  pub Runs-Agrees :
      {s s' t t' : Server b.Db} {cmds : List Command}
      → Runs s cmds s'
      → Runs t cmds t'
      → Agrees b c s t
      → Agrees b c s' t'
  Runs-Agrees stop stop a = a
  Runs-Agrees (go {s = s} {mid = mid} cmd clock now e h u rest)
        (go {s = t} {mid = mid'} _ clock' now' e' h' u' rest') a =
      Runs-Agrees rest rest' (apply-Agrees s mid t mid' clock clock' now now' cmd e e' h h' u u' a)
