-- ===== src/Raft/Node/Rewind.antt =====
-- The apply loop when nothing comes between its pieces, and when a snapshot does.
use vault_fs.Base.{ℕ, zero, suc}
use vault_fs.Raft.Node.{Node}
use vault_fs.Raft.Node.Loop.{Machine, run_loop}

-- A number of pieces, one behind the other.
unfoldable pub pieces : ℕ → Machine → Machine
pieces zero m = m
pieces (suc k) m = pieces k (run_loop m)
