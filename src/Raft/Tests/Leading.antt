-- ===== src/Raft/Tests/Leading.antt =====
-- Runs of a leader, of its peer, and of the log that both keep.
use vault_fs.Base.{
  ℕ, zero, suc, ◌+◌, ◌*◌, ◌≤◌, ◌<◌, ◌≡◌, ◌⊎◌, refl, true, arith, [], ◌∷◌, ok, err, some, length,
  ◌%◌,
}
use vault_fs.GoMap.{lookup, lookup_or, insert}
use vault_fs.Raft.Types.{AppendEntriesArgs}
use vault_fs.Raft.Log.{new_raft_log, RaftLog, last_index, last_entry, append_new, term, slice}
use vault_fs.Raft.Node.{Node, new, advance_commit_index, commit_quorum, values}
use vault_fs.Raft.Node.Commit.{count_ge, advance_commit_index_lem}
use vault_fs.Raft.Election.{election_quorum}
use vault_fs.Raft.Election.Quorum.{commit_quorum_lem}
use vault_fs.Raft.Replication.{
  prepare_append, append_entries, handle_append_entries, recognise, check_previous, accept,
  conflict_hint,
}
use vault_fs.Raft.Replication.Leader.{accepted_matches_leader}
use vault_fs.Raft.Network.{InMemNetwork, partitioned, blocked, reach, partition, replicate_to}
use vault_fs.Raft.Network.Rounds.{replicate_to_lem, replicate_to_short_lem}
use vault_fs.Raft.Tests.{entry, node_a, node_l}

-- The leader that has the peer b at its second entry.
abbrev node_s : Node
unfolding node_l node_a new
node_s = record node_l { next_index = ("b", 2) ∷ [] }

abbrev sent : AppendEntriesArgs
sent = record {
  term = 1;
  leader_id = "a";
  prev_log_index = 1;
  prev_log_term = 1;
  entries = entry 2 1 ∷ [];
  leader_commit = 1;
}

run_prepare : prepare_append node_s "b" ≡ append_entries sent
unfolding prepare_append node_s node_l node_a new term slice last_index last_entry lookup_or lookup
run_prepare = refl

-- A peer with the first entry only.
abbrev node_b : Node
unfolding new
node_b = record (new "b" ("a" ∷ "c" ∷ [])) {
  log = record { entries = entry 1 1 ∷ []; snap_index = 0; snap_term = 0 };
}

accepted_matches_leader_example :
    term (handle_append_entries node_b sent).0.log 2 ≡ term node_s.log 2
unfolding node_s node_l node_a node_b new last_index last_entry handle_append_entries recognise
    check_previous accept term lookup_or lookup append_new
accepted_matches_leader_example =
    accepted_matches_leader node_s "b" refl (omega arith) (omega arith) (omega arith) (omega arith)
      node_b sent run_prepare (omega arith) (omega arith) refl 2 (omega arith) (omega arith)

advance_commit_index_lem_example :
    let m = advance_commit_index node_l in
    (m ≡ node_l)
    ⊎ ((node_l.commit_index < m.commit_index)
        × (commit_quorum node_l ≤ count_ge m.commit_index (values node_l.match_index))
        × (term node_l.log m.commit_index ≡ ok node_l.current_term)
        × (m ≡ record node_l { commit_index = m.commit_index; apply_sig = true }))
advance_commit_index_lem_example = advance_commit_index_lem node_l

commit_quorum_lem_example :
    (((length node_l.peers + 1) % 2 ≡ 1) × (commit_quorum node_l ≡ election_quorum node_l))
    ⊎ (((length node_l.peers + 1) % 2 ≡ 0)
        × (2 * commit_quorum node_l ≡ length node_l.peers + 1)
        × (election_quorum node_l ≡ commit_quorum node_l + 1))
commit_quorum_lem_example = commit_quorum_lem node_l

run_hint : conflict_hint node_a 2 1 ≡ (1, 1)
unfolding conflict_hint node_a new last_index last_entry term
run_hint = refl

abbrev three_terms : RaftLog
three_terms = record {
  entries = entry 1 1 ∷ entry 2 2 ∷ entry 3 4 ∷ [];
  snap_index = 0;
  snap_term = 0;
}

later_terms : (j : ℕ) → 2 < j → j ≤ 3 → (u : ℕ) × (term three_terms j ≡ ok u) × (2 < u)
unfolding term
later_terms zero lo hi = absurd (omega arith)
later_terms (suc zero) lo hi = absurd (omega arith)
later_terms (suc (suc zero)) lo hi = absurd (omega arith)
later_terms (suc (suc (suc zero))) lo hi = (4, refl, omega arith)
later_terms (suc (suc (suc (suc j)))) lo hi = absurd (omega arith)

abbrev net : InMemNetwork
unfolding node_s node_l node_a node_b new
net = record { handlers = ("a", node_s) ∷ ("b", node_b) ∷ []; partitions = [] }

replicate_to_lem_example :
    ((f' : Node) × (lookup "b" (replicate_to net "a" "b").handlers ≡ some f')
      × ((j : ℕ) → 2 ≤ j → j ≤ 2 → term f'.log j ≡ term node_s.log j))
    × ((n' : Node) × (lookup "a" (replicate_to net "a" "b").handlers ≡ some n')
        × (lookup_or 0 "b" n'.match_index ≡ 2)
        × (lookup_or 0 "b" n'.next_index ≡ 3))
unfolding node_s node_l node_a node_b new last_index last_entry handle_append_entries recognise
    check_previous accept term lookup_or lookup append_new net reach blocked
replicate_to_lem_example =
    replicate_to_lem net "a" "b" node_s node_b sent refl refl refl refl (omega arith) (omega arith)
      (omega arith) (omega arith) (omega arith) run_prepare (omega arith) (omega arith) refl

-- A peer with an empty log.
abbrev node_e : Node
unfolding new
node_e = new "b" ("a" ∷ "c" ∷ [])

abbrev net_e : InMemNetwork
unfolding node_s node_l node_a node_e new
net_e = record { handlers = ("a", node_s) ∷ ("b", node_e) ∷ []; partitions = [] }

replicate_to_short_lem_example :
    (lookup "a" (replicate_to net_e "a" "b").handlers
      ≡ some (record node_s { next_index = insert "b" 1 node_s.next_index }))
    × (lookup_or 0 "b" (insert "b" 1 node_s.next_index) < lookup_or 0 "b" node_s.next_index)
unfolding node_s node_l node_a node_e new new_raft_log last_index last_entry lookup_or lookup net_e
    reach blocked
replicate_to_short_lem_example =
    replicate_to_short_lem net_e "a" "b" node_s node_e sent refl refl refl refl (omega arith)
      (omega arith) (omega arith) (omega arith) run_prepare (omega arith) (omega arith)
      (omega arith)

cut_off : reach (partition net "a" "b") "b" "a" ≡ err partitioned
unfolding net node_s node_l node_a node_b new reach partition blocked
cut_off = refl
