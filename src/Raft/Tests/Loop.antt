-- ===== src/Raft/Tests/Loop.antt =====
-- The apply loop of a node with handlers between its pieces.
use vault_fs.Base.{◌≡◌, refl, true, arith, [], ◌∷◌}
use vault_fs.Raft.Types.{InstallSnapshotArgs}
use vault_fs.Raft.Log.{last_index, last_term, last_entry, slice}
use vault_fs.Raft.Node.{new}
use vault_fs.Raft.Node.Loop.{Machine, waiting, run_piece, run_loop}
use vault_fs.Raft.Election.{handle_request_vote}
use vault_fs.Raft.Invariant.{Reach, here, next, handler, loop, vote}
use vault_fs.Raft.Invariant.Growth.{IsSoundMachine, Grows, Reach-IsSound, Reach-Grows}
use vault_fs.Raft.Tests.{entry, node_a, ballot_request}

abbrev begin : Machine
begin = record { node = node_a; loop = waiting; sent = [] }

begin-IsSound : IsSoundMachine begin
unfolding node_a new last_index last_entry
begin-IsSound = record {
  node_sound = record {
    well_formed = omega arith;
    compacted_committed = omega arith;
    applied_committed = omega arith;
    committed_logged = omega arith;
  };
  loop_sound = tt;
}

-- The node votes for b when its loop has chosen what to send; then the loop goes on.
abbrev voted : Machine
voted = record (run_loop begin) {
  node = (handle_request_vote (run_loop begin).node ballot_request).0;
}

abbrev run : Reach begin (run_loop (run_loop voted))
run =
    next
      (next
        (next (next here (loop begin))
          (handler (run_loop begin) (vote (run_loop begin).node ballot_request)))
        (loop voted))
      (loop (run_loop voted))

run_sends : (run_loop (run_loop voted)).sent ≡ entry 1 1 ∷ []
unfolding run_loop run_piece node_a new slice handle_request_vote last_term last_entry last_index
run_sends = refl

Reach-IsSound_example : IsSoundMachine (run_loop (run_loop voted))
Reach-IsSound_example = Reach-IsSound run begin-IsSound

Reach-Grows_example : Grows begin.node (run_loop (run_loop voted)).node
Reach-Grows_example = Reach-Grows run begin-IsSound

abbrev snapshot : InstallSnapshotArgs
snapshot = record {
  term = 3;
  leader_id = "b";
  last_included_index = 9;
  last_included_term = 2;
  contents = [];
  offset = 0;
  done = true;
}
