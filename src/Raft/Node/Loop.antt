-- ===== src/Raft/Node/Loop.antt =====
-- internal/raft/node.go: applyCommitted in the pieces between which it lets the node's mutex go. The
-- consumer takes every entry. SetSnapshot runs outside the node's mutex, and is taken to fall between
-- two handlers.
use vault_fs.Base.{ℕ, ◌+◌, List, [], ◌∷◌, ◌++◌, Result, ok, err, leb, if◌then◌else◌, u64}
use vault_fs.Raft.Types.{Entry}
use vault_fs.Raft.Log.{LogError, term, slice, set_snapshot, len}
use vault_fs.Raft.Node.{Node, compact_threshold}

-- Where the loop stands: it waits for a signal, has chosen the bounds of the entries, has entries left
-- to send, is about to read the term for a compaction, or is about to compact.
pub data ApplyLoop : Type 0 where
  waiting : ApplyLoop
  chosen : ℕ → ℕ → ApplyLoop
  delivering : List Entry → ApplyLoop
  measured : ApplyLoop
  compacting : ℕ → ℕ → ApplyLoop

-- A node, its apply loop, and all that the loop has sent.
pub record Machine : Type 0 where
  pub node : Node
  pub loop : ApplyLoop
  pub sent : List Entry

abbrev pub read_term : ℕ → Result LogError ℕ → ApplyLoop
read_term last (err _) = waiting
read_term last (ok t) = compacting last t

unfoldable pub run_piece : Node → ApplyLoop → List Entry → Machine
run_piece n waiting sent = record {
  node = n;
  loop =
      if leb n.commit_index n.last_applied
      then waiting
      else chosen (u64 (n.last_applied + 1)) (u64 (n.commit_index + 1));
  sent = sent;
}
run_piece n (chosen from to) sent = record {
  node = n;
  loop = delivering (slice n.log from to);
  sent = sent;
}
run_piece n (delivering (e ∷ es)) sent = record {
  node = record n { last_applied = e.index };
  loop = delivering es;
  sent = sent ++ e ∷ [];
}
run_piece n (delivering []) sent = record {
  node = n;
  loop = if leb compact_threshold (len n.log) then measured else waiting;
  sent = sent;
}
run_piece n measured sent = record {
  node = n;
  loop = read_term n.last_applied (term n.log n.last_applied);
  sent = sent;
}
run_piece n (compacting last t) sent = record {
  node = record n { log = set_snapshot n.log last t };
  loop = waiting;
  sent = sent;
}

unfoldable pub run_loop : Machine → Machine
unfolding run_piece
run_loop m = run_piece m.node m.loop m.sent
