-- ===== src/Raft/Tests/Hazards.antt =====
-- Where internal/raft departs from the protocol, at concrete inputs.
use vault_fs.Base.{◌≡◌, inr, refl, true, arith, [], ◌∷◌, ◌++◌}
use vault_fs.Raft.Types.{AppendEntriesArgs, RequestVoteArgs, InstallSnapshotArgs}
use vault_fs.Raft.Log.{last_index, last_term, last_entry, append_new}
use vault_fs.Raft.Log.Shape.{IsWellFormed}
use vault_fs.Raft.Node.{Node, new}
use vault_fs.Raft.Election.{handle_request_vote}
use vault_fs.Raft.Replication.{handle_append_entries, recognise, check_previous, accept}
use vault_fs.Raft.Hazards.{second_vote, late_request_breaks_log}
use vault_fs.Raft.Tests.{entry, node_a, node_c}

-- A heartbeat of term 2 that another node sends to the candidate of that term.
abbrev heartbeat : AppendEntriesArgs
heartbeat = record {
  term = 2;
  leader_id = "b";
  prev_log_index = 0;
  prev_log_term = 0;
  entries = [];
  leader_commit = 0;
}

abbrev third_candidate : RequestVoteArgs
third_candidate = record { term = 2; candidate_id = "c"; last_log_index = 2; last_log_term = 1 }

second_vote_example :
    (handle_request_vote (handle_append_entries node_c heartbeat).0 third_candidate).1.vote_granted
    ≡ true
unfolding handle_append_entries recognise check_previous accept node_c node_a new last_index
    last_term last_entry append_new
second_vote_example =
    second_vote node_c heartbeat third_candidate refl refl refl (inr (omega arith, omega arith))

abbrev snapshot : InstallSnapshotArgs
snapshot = record {
  term = 3;
  leader_id = "b";
  last_included_index = 9;
  last_included_term = 2;
  contents = [];
  offset = 0;
  done = true;
}

-- A follower that has compacted the indices up to 2.
abbrev compacted_node : Node
unfolding node_a new
compacted_node = record node_a {
  log = record { entries = entry 3 1 ∷ []; snap_index = 2; snap_term = 1 };
}

abbrev late : AppendEntriesArgs
late = record heartbeat { entries = entry 1 1 ∷ entry 2 1 ∷ entry 3 1 ∷ [] }

late_request_breaks_log_example :
    let m = (handle_append_entries compacted_node late).0 in
    (m.log.entries ≡ compacted_node.log.entries ++ entry 1 1 ∷ entry 2 1 ∷ entry 3 1 ∷ [])
    × ¬ IsWellFormed m.log
unfolding compacted_node node_a new
late_request_breaks_log_example =
    late_request_breaks_log compacted_node late (entry 1 1) (entry 2 1 ∷ entry 3 1 ∷ [])
      (omega arith) refl refl (omega arith) (omega arith)
