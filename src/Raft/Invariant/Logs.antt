-- ===== src/Raft/Invariant/Logs.antt =====
-- The handlers that write the log, the commit index or lastApplied keep a node sound.
use Prim.Native.Nat.{min}
use vault_fs.Base.{
  ℕ, ◌+◌, ◌≤◌, ◌<◌, ◌≡◌, refl, true, ap, ◌∙◌, inl, inr, arith, List, [], ◌∷◌, ok, two64, u64,
  u64_small, ltb, leb, ltb→lt, ltb→ge, if◌then◌else◌, Bool-cases, Result-cases, length-append,
}
use vault_fs.Raft.Types.{AppendEntriesReply, Entry, AppendEntriesArgs, InstallSnapshotArgs}
use vault_fs.Raft.Log.{RaftLog, last_index, term, append, append_new}
use vault_fs.Raft.Log.Shape.{
  IsWellFormed, last_index_lem, append-IsWellFormed, set_snapshot-IsWellFormed,
  snap_index-set_snapshot, last_index-set_snapshot,
}
use vault_fs.Raft.Log.Access.{term_beyond}
use vault_fs.Raft.Log.Merge.{IsMerge, append_new-IsMerge, last_index-append_new}
use vault_fs.Raft.Node.{Node, advance_commit_index, propose, is_leader}
use vault_fs.Raft.Node.Commit.{advance_commit_index_lem}
use vault_fs.Raft.Replication.{handle_append_entries, recognise, accept}
use vault_fs.Raft.Replication.Follower.{
  handle_append_entries_cases, Follows-within, accept_lem, log-recognise,
  last_applied-handle_append_entries, Follows, success-accept,
}
use vault_fs.Raft.Snapshots.{take_snapshot, install}
use vault_fs.Raft.Invariant.{IsSound, IsHonest}

-- Only what the invariant speaks of matters.
pub same-IsSound :
    (n m : Node)
    → m.log ≡ n.log
    → m.commit_index ≡ n.commit_index
    → m.last_applied ≡ n.last_applied
    → IsSound n
    → IsSound m
same-IsSound n m l c a s = record {
  well_formed = rw l s.well_formed;
  compacted_committed = rw (l, c) s.compacted_committed;
  applied_committed = rw (a, c) s.applied_committed;
  committed_logged = rw (l, c) s.committed_logged;
}

-- What has a term lies in the log.
known_within : (l : RaftLog) (i : ℕ) {t : ℕ} → IsWellFormed l → term l i ≡ ok t → i ≤ last_index l
known_within l i w h = elim (Bool-cases (ltb (last_index l) i)) [
  | inl past ↦ absurd (cc (h, term_beyond l i w (ltb→lt _ _ past)))
  | inr within ↦ ltb→ge _ _ within
]

pub advance_commit_index-IsSound : (n : Node) → IsSound n → IsSound (advance_commit_index n)
advance_commit_index-IsSound n s = elim (advance_commit_index_lem n) [
  | inl same ↦ rw same s
  | inr (grown, _, known, only) ↦ rw only (record {
    well_formed = s.well_formed;
    compacted_committed = omega (arith, s.compacted_committed);
    applied_committed = omega (arith, s.applied_committed);
    committed_logged = known_within n.log (advance_commit_index n).commit_index s.well_formed known;
  })
]

-- The node behind the append of Propose.
proposed-IsSound :
    (n : Node) (e : Entry)
    → e.index ≡ last_index n.log + 1
    → IsSound n
    → IsSound (record n { log = append n.log (e ∷ []) })
proposed-IsSound n e at s = record {
  well_formed = well_formed;
  compacted_committed = unfold append in s.compacted_committed;
  applied_committed = s.applied_committed;
  committed_logged = rw (last_index_lem (append n.log (e ∷ [])) well_formed) (
      unfold append in
      omega (
        arith,
        s.committed_logged,
        last_index_lem n.log s.well_formed,
        length-append n.log.entries (e ∷ []),
      ));
}
  where
    well_formed : IsWellFormed (append n.log (e ∷ []))
    well_formed = append-IsWellFormed n.log (e ∷ []) s.well_formed (omega arith)

pub propose-IsSound :
    (n : Node) (command : List ℕ)
    → last_index n.log + 1 < two64
    → IsSound n
    → IsSound (propose n command).0
unfolding propose
propose-IsSound n command fits s = elim (Bool-cases (is_leader n.state)) [
  | inr other ↦ rw other s
  | inl leads ↦ rw leads (
      same-IsSound _ _ refl refl refl (
        advance_commit_index-IsSound _ (
          same-IsSound _ _ refl refl refl (
            proposed-IsSound n
              (record {
                index = u64 (last_index n.log + 1);
                term = n.current_term;
                command = command;
              })
              (u64_small (last_index n.log + 1) fits) s))))
]

-- An accepted request, seen from the follower that it reaches.
module _ (n : Node) (args : AppendEntriesArgs) (h : IsHonest n args) (s : IsSound n)
    (follows : Follows n.log args)
    (taken : handle_append_entries n args ≡ accept (recognise n args) args) where
  log_taken : (handle_append_entries n args).0.log ≡ append_new n.log args.entries
  log_taken =
      ap (λ (p : Node × AppendEntriesReply). p.0.log) taken
      ∙ (accept_lem (recognise n args) args).0
      ∙ ap (λ l. append_new l args.entries) (log-recognise n args).0

  commit_taken : (handle_append_entries n args).0.commit_index ≡ (
      if ltb n.commit_index args.leader_commit
      then min args.leader_commit (last_index (append_new n.log args.entries))
      else n.commit_index)
  commit_taken =
      ap (λ (p : Node × AppendEntriesReply). p.0.commit_index) taken
      ∙ ground (arith, accept_lem (recognise n args) args, log-recognise n args)

  merge : IsMerge n.log args.prev_log_index args.entries (append_new n.log args.entries)
  merge =
      append_new-IsMerge n.log args.prev_log_index args.entries s.well_formed
        h.request.above_snapshot (Follows-within n args s.well_formed follows) h.request.numbered

  kept : n.commit_index ≤ last_index (append_new n.log args.entries)
  kept =
      last_index-append_new n.log args.prev_log_index args.entries s.well_formed
        h.request.above_snapshot (Follows-within n args s.well_formed follows) h.request.numbered
        n.commit_index s.committed_logged h.committed_agrees

  taken_grows : n.commit_index ≤ (handle_append_entries n args).0.commit_index
  taken_grows = ground (arith, commit_taken, kept)

  taken-IsSound : IsSound (handle_append_entries n args).0
  taken-IsSound = record {
    well_formed = rw log_taken merge.well_formed;
    compacted_committed =
        rw log_taken (omega (arith, merge.snapshot.0, taken_grows, s.compacted_committed));
    applied_committed =
        ground (arith, commit_taken, last_applied-handle_append_entries n args, kept);
    committed_logged = rw log_taken (ground (arith, commit_taken, kept));
  }

pub handle_append_entries-IsSound :
    (n : Node) (args : AppendEntriesArgs)
    → ((handle_append_entries n args).1.success ≡ true → IsHonest n args)
    → IsSound n
    → IsSound (handle_append_entries n args).0
handle_append_entries-IsSound n args h s = elim (handle_append_entries_cases n args) [
  | inl (_, same_log, same_commit) ↦
      same-IsSound n _ same_log same_commit (last_applied-handle_append_entries n args) s
  | inr (current, follows, taken) ↦
      taken-IsSound n args (h (rw taken (success-accept (recognise n args) args))) s follows taken
]

pub handle_append_entries-commits :
    (n : Node) (args : AppendEntriesArgs)
    → ((handle_append_entries n args).1.success ≡ true → IsHonest n args)
    → IsSound n
    → n.commit_index ≤ (handle_append_entries n args).0.commit_index
handle_append_entries-commits n args h s = elim (handle_append_entries_cases n args) [
  | inl (_, _, same_commit) ↦ omega arith
  | inr (current, follows, taken) ↦
      taken_grows n args (h (rw taken (success-accept (recognise n args) args))) s follows taken
]

pub install-IsSound : (n : Node) (args : InstallSnapshotArgs) → IsSound n → IsSound (install n args)
unfolding install
install-IsSound n args s = elim (Bool-cases (leb args.last_included_index n.log.snap_index)) [
  | inl older ↦ rw older s
  | inr newer ↦ rw newer (record {
    well_formed =
        set_snapshot-IsWellFormed n.log args.last_included_index args.last_included_term
          s.well_formed;
    compacted_committed = ground (
      arith,
      snap_index-set_snapshot n.log args.last_included_index args.last_included_term,
      s.compacted_committed,
    );
    applied_committed = ground arith;
    committed_logged = ground (
      arith,
      last_index-set_snapshot n.log args.last_included_index args.last_included_term s.well_formed,
    );
  })
]

pub take_snapshot-IsSound :
    (n : Node) (contents : List ℕ) → IsSound n → IsSound (take_snapshot n contents).0
unfolding take_snapshot
take_snapshot-IsSound n contents s = elim (Result-cases (term n.log n.last_applied)) [
  | inr (e, failed) ↦ rw failed s
  | inl (t, known) ↦ rw known (record {
    well_formed = set_snapshot-IsWellFormed n.log n.last_applied t s.well_formed;
    compacted_committed = omega (
      arith,
      snap_index-set_snapshot n.log n.last_applied t,
      s.applied_committed,
      s.compacted_committed,
    );
    applied_committed = s.applied_committed;
    committed_logged = omega (arith, last_index-set_snapshot n.log n.last_applied t s.well_formed);
  })
]
