-- ===== src/Wal/Recovery.antt =====
-- internal/wal/recovery.go: the replay of one segment file, given as its bytes.
pub mod Replay
use vault_fs.Base.{
  ℕ, zero, suc, ◌+◌, Bool, true, false, Option, none, some, List, [], ◌∷◌, Result, ok, err,
  if◌then◌else◌, length,
}
use vault_fs.Wal.Entry.{
  Entry, DecodeError, eof, unexpected_eof, too_large, too_small, checksum_mismatch, decode,
  encoded_size,
}

-- The errors at which the loop of replayFile breaks.
abbrev pub stops : DecodeError → Bool
stops eof = true
stops unexpected_eof = true
stops checksum_mismatch = true
stops _ = false

-- The loop of replayFile: the entries, the offset behind the last one, and the error, if any.
unfoldable pub replay : ℕ → List ℕ → List Entry × ℕ × Option DecodeError
replay zero bytes = ([], 0, none)
replay (suc fuel) bytes = elim (decode bytes) [
  | err e ↦ ([], 0, if stops e then none else some e)
  | ok (entry, rest) ↦
      let (entries, offset, failure) = replay fuel rest in
      (entry ∷ entries, encoded_size (length entry.contents) + offset, failure)
]

-- Each entry takes bytes away, so this fuel is enough.
unfoldable pub replay_file : List ℕ → List Entry × ℕ × Option DecodeError
unfolding replay
replay_file bytes = replay (suc (length bytes)) bytes
