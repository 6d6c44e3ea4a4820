-- ===== src/Raft/Tests.antt =====
-- Runs of the raft handlers on small clusters, and the theorems at concrete inputs.
mod Leading
mod Hazards
mod Loop
use vault_fs.Base.{ℕ, zero, suc, ◌≤◌, ◌≡◌, refl, true, false, arith, List, [], ◌∷◌, ok, eq_iff}
use mathlib.Core.Bool.{false≢true}
use vault_fs.Raft.Types.{
  candidate, leader, Entry, RequestVoteArgs, RequestVoteReply, AppendEntriesArgs,
}
use vault_fs.Raft.Log.{RaftLog, last_index, last_term, term, append_new, last_entry}
use vault_fs.Raft.Log.Merge.{IsMerge, append_new-IsMerge}
use vault_fs.Raft.Node.{
  Node, new, is_leader, advance_commit_index, sort_desc, values, commit_quorum,
}
use vault_fs.Raft.Node.Commit.{count_ge, advance_commit_index_complete}
use vault_fs.Raft.Election.{Ballot, handle_request_vote}
use vault_fs.Raft.Election.Votes.{IsUpToDate, granted_lem, one_vote_per_term}
use vault_fs.Raft.Election.Quorum.{run_election, elected_iff}
use vault_fs.Raft.Replication.{handle_append_entries, recognise, check_previous, accept}
use vault_fs.Raft.Replication.Follower.{Replicated, accepted_lem}

abbrev pub entry : ℕ → ℕ → Entry
entry i t = record { index = i; term = t; command = i ∷ [] }

abbrev pub two_entries : RaftLog
two_entries = record { entries = entry 1 1 ∷ entry 2 1 ∷ []; snap_index = 0; snap_term = 0 }

abbrev pub node_a : Node
unfolding new
node_a = record (new "a" ("b" ∷ "c" ∷ [])) { log = two_entries; current_term = 1; commit_index = 1 }

-- A leader of term 2 replaces the second entry and adds a third.
abbrev pub request : AppendEntriesArgs
request = record {
  term = 2;
  leader_id = "b";
  prev_log_index = 1;
  prev_log_term = 1;
  entries = entry 2 2 ∷ entry 3 2 ∷ [];
  leader_commit = 9;
}

run_request :
    let m = (handle_append_entries node_a request).0 in
    (m.log.entries ≡ entry 1 1 ∷ entry 2 2 ∷ entry 3 2 ∷ []) × (m.commit_index ≡ 3)
unfolding handle_append_entries recognise check_previous accept append_new term last_index
    last_entry node_a new
run_request = (refl, refl)

append_new-IsMerge_example :
    IsMerge two_entries 1 request.entries (append_new two_entries request.entries)
unfolding last_index last_entry
append_new-IsMerge_example =
    append_new-IsMerge two_entries 1 request.entries (omega arith) (omega arith) (omega arith)
      (omega arith)

accepted_lem_example : Replicated node_a request (handle_append_entries node_a request).0
unfolding handle_append_entries recognise check_previous accept append_new term last_index
    last_entry node_a new
accepted_lem_example = accepted_lem node_a request (omega arith) (omega arith) refl

abbrev pub ballot_request : RequestVoteArgs
ballot_request = record { term = 2; candidate_id = "b"; last_log_index = 2; last_log_term = 1 }

run_vote : (handle_request_vote node_a ballot_request).1.vote_granted ≡ true
unfolding handle_request_vote node_a new last_index last_term last_entry
run_vote = refl

abbrev second_request : RequestVoteArgs
second_request = record ballot_request { last_log_index = 5 }

one_vote_per_term_example : ballot_request.candidate_id ≡ second_request.candidate_id
unfolding handle_request_vote node_a new last_index last_term last_entry
one_vote_per_term_example =
    one_vote_per_term node_a ballot_request second_request (λ e. false≢true ((eq_iff "b" "").1 e))
      refl refl refl

-- A candidate of a cluster of three with one vote.
abbrev pub node_c : Node
unfolding node_a new
node_c = record node_a { state = candidate; current_term = 2; voted_for = "a" }

abbrev own_vote : Ballot
own_vote = record { term = 2; quorum = 2; votes = 1; once = false }

abbrev replies : List RequestVoteReply
replies = record { term = 2; vote_granted = false } ∷ record { term = 2; vote_granted = true } ∷ []

elected_iff_example : is_leader (run_election own_vote node_c replies).1.state ≡ true
unfolding node_c node_a new
elected_iff_example = elected_iff own_vote node_c replies refl refl refl (omega arith) (omega arith)

-- A leader of term 1 whose second entry one of two peers has.
abbrev pub node_l : Node
unfolding node_a new
node_l = record node_a { state = leader; match_index = ("a", 2) ∷ ("b", 2) ∷ ("c", 0) ∷ [] }

run_commit : (advance_commit_index node_l).commit_index ≡ 2
unfolding advance_commit_index node_l node_a new sort_desc term last_index last_entry
run_commit = refl

reached :
    (j : ℕ)
    → 2 ≤ j
    → commit_quorum node_l ≤ count_ge j (values node_l.match_index)
    → term node_l.log j ≡ ok node_l.current_term
unfolding node_l node_a new commit_quorum term
reached zero h q = absurd (omega arith)
reached (suc zero) h q = absurd (omega arith)
reached (suc (suc zero)) h q = refl
reached (suc (suc (suc j))) h q = absurd (ground arith)
