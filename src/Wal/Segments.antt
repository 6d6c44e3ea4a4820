-- ===== src/Wal/Segments.antt =====
-- internal/wal/wal.go, segment.go and `recover` of recovery.go: the log as rolling segment files.
-- A segment has the bytes of its file with it. The names of segment files order them by their
-- numbers, so the directory is the list of the files in that order. The calls of package os succeed;
-- what a crash leaves of a write is a prefix of it.
pub mod Contents
pub mod Reopen
pub mod Oversized
use vault_fs.Base.{
  ℕ, ◌+◌, Bool, true, false, Option, none, some, List, [], ◌∷◌, ◌++◌, Result, ok, err, ltb, ◌==◌,
  if◌then◌else◌, length, take, u64,
}
use vault_fs.Wal.Entry.{Entry, DecodeError, encode}
use vault_fs.Wal.Recovery.{replay_file}

abbrev pub default_max_segment_size : ℕ
default_max_segment_size = 67108864

pub record Segment : Type 0 where
  pub id : ℕ
  pub file : List ℕ
  pub is_open : Bool
  pub size : ℕ

-- `segments` without its last element, and that element.
pub record Wal : Type 0 where
  pub older : List Segment
  pub active : Segment
  pub last_idx : ℕ
  pub max_seg_sz : ℕ

abbrev pub create_segment : ℕ → Segment
create_segment id = record { id = id; file = []; is_open = true; size = 0 }

abbrev pub open_segment_for_write : ℕ → List ℕ → ℕ → Segment
open_segment_for_write id file valid_bytes = record {
  id = id;
  file = take valid_bytes file;
  is_open = true;
  size = valid_bytes;
}

abbrev pub write_segment : Segment → List ℕ → Segment
write_segment s p = record s { file = s.file ++ p; size = s.size + length p }

abbrev pub close_segment : Segment → Segment
close_segment s = record s { is_open = false }

unfoldable pub rotate : Wal → Wal
rotate w = record w {
  older = w.older ++ close_segment w.active ∷ [];
  active = create_segment (u64 (w.active.id + 1));
}

-- Append with its encoded entry on the segment that it has chosen.
abbrev pub write_entry : Wal → Entry → Wal
write_entry w e = record w {
  active = write_segment w.active (encode e);
  last_idx = if ltb w.last_idx e.index then e.index else w.last_idx;
}

unfoldable pub append_entry : Wal → Entry → Wal
unfolding rotate
append_entry w e =
    write_entry (if ltb w.max_seg_sz (w.active.size + length (encode e)) then rotate w else w) e

-- The loop of ReadAll.
unfoldable pub read_segments : List Segment → Result DecodeError (List Entry)
read_segments [] = ok []
read_segments (seg ∷ segs) =
    let (entries, offset, failure) = replay_file seg.file in
    elim failure [
      | some e ↦ err e
      | none ↦ elim (read_segments segs) [ err e ↦ err e | ok all ↦ ok (entries ++ all) ]
    ]

unfoldable pub read_all : Wal → Result DecodeError (List Entry)
unfolding read_segments
read_all w = read_segments (w.older ++ w.active ∷ [])

-- The loop of recover that raises lastIdx.
unfoldable pub last_after : ℕ → List Entry → ℕ
last_after last [] = last
last_after last (e ∷ es) = last_after (if ltb last e.index then e.index else last) es

-- The loop of recover over the files, with the segments so far.
unfoldable pub recover_files : ℕ → List Segment → ℕ → List (ℕ × List ℕ) → Result DecodeError Wal
unfolding last_after
recover_files max_seg_sz older last [] =
    ok (record {
      older = older;
      active = create_segment 1;
      last_idx = last;
      max_seg_sz = max_seg_sz;
    })
recover_files max_seg_sz older last ((id, file) ∷ files) =
    let (entries, valid_end, failure) = replay_file file in
    let seg : Segment = record { id = id; file = file; is_open = false; size = length file } in
    let rest = recover_files max_seg_sz (older ++ seg ∷ []) (last_after last entries) files in
    elim failure [
      | some e ↦ err e
      | none ↦
          if length files == 0
          then ok (record {
            older = older;
            active = open_segment_for_write id file valid_end;
            last_idx = last_after last entries;
            max_seg_sz = max_seg_sz;
          })
          else rest
    ]

-- Open, on the segment files of the directory.
unfoldable pub open_dir : ℕ → List (ℕ × List ℕ) → Result DecodeError Wal
unfolding recover_files
open_dir max_seg_sz files = recover_files max_seg_sz [] 0 files

unfoldable pub close : Wal → Wal
close w = record w { active = close_segment w.active }
