-- ===== src/Wal/Tests.antt =====
-- Runs of the log, and the theorems at concrete inputs.
use vault_fs.Base.{ℕ, zero, suc, ◌≡◌, refl, [], ◌∷◌, ◌++◌, arith, List, ok, err, length, take, ap}
use vault_fs.Wal.Crc.{crc32, crc_over, shift, xor}
use vault_fs.Wal.Entry.{Entry, too_large, encode, decode}
use vault_fs.Wal.Entry.Format.{IsStorable, decode-encode, length-encode}
use vault_fs.Wal.Recovery.Replay.{encode_all}
use vault_fs.Wal.Segments.{Wal, create_segment, append_entry, open_dir, last_after}
use vault_fs.Wal.Segments.Contents.{Holds, Represents, append_entry_lem}
use vault_fs.Wal.Segments.Reopen.{crashed, open_dir_lem}
use vault_fs.Wal.Segments.Oversized.{open_dir-large}

-- The check value of CRC-32, for the digits from 1 to 9.
run_crc32 : crc32 (49 ∷ 50 ∷ 51 ∷ 52 ∷ 53 ∷ 54 ∷ 55 ∷ 56 ∷ 57 ∷ []) ≡ 3421780262
unfolding crc32 crc_over shift xor
run_crc32 = refl

abbrev first : Entry
first = record { index = 1; contents = 7 ∷ 8 ∷ [] }

abbrev second : Entry
second = record { index = 2; contents = 9 ∷ [] }

first-IsStorable : IsStorable first
first-IsStorable = record { index_fits = omega arith; data_fits = omega arith }

second-IsStorable : IsStorable second
second-IsStorable = record { index_fits = omega arith; data_fits = omega arith }

decode-encode_example : decode (encode first ++ encode second) ≡ ok (first, encode second)
decode-encode_example = decode-encode first (encode second) first-IsStorable

abbrev empty_log : Wal
empty_log = record { older = []; active = create_segment 1; last_idx = 0; max_seg_sz = 30 }

empty-Represents : Represents empty_log []
unfolding Holds encode_all last_after
empty-Represents = record {
  holds = ([], [], refl, record { storable = tt; records = refl; sized = refl }, refl);
  last = refl;
}

append_entry_lem_example : Represents (append_entry empty_log first) (first ∷ [])
append_entry_lem_example = append_entry_lem empty_log [] first empty-Represents first-IsStorable

-- The second entry goes into a new segment.
two-Represents :
    Represents (append_entry (append_entry empty_log first) second) (first ∷ second ∷ [])
two-Represents =
    append_entry_lem (append_entry empty_log first) (first ∷ []) second
      (append_entry_lem empty_log [] first empty-Represents first-IsStorable) second-IsStorable

open_dir_lem_example :
    (w' : Wal) × (open_dir 30 (crashed (append_entry empty_log first) (take 15 (encode second)))
      ≡ ok w')
    × Represents w' (first ∷ [])
open_dir_lem_example =
    open_dir_lem (append_entry empty_log first) (first ∷ []) second 15 30
      (append_entry_lem empty_log [] first empty-Represents first-IsStorable) second-IsStorable
      (omega (arith, length-encode second))

unfoldable zeros : ℕ → List ℕ
zeros zero = []
zeros (suc n) = 0 ∷ zeros n

length-zeros : (n : ℕ) → length (zeros n) ≡ n
unfolding zeros
length-zeros zero = refl
length-zeros (suc n) = ap suc (length-zeros n)

-- One byte more than Decode accepts.
abbrev oversized : Entry
oversized = record { index = 2; contents = zeros 134217721 }

open_dir-large_example :
    open_dir 30 ((1, encode_all (first ∷ []) ++ (encode oversized ++ [])) ∷ []) ≡ err too_large
open_dir-large_example =
    open_dir-large 30 1 (first ∷ []) oversized [] (first-IsStorable, tt)
      (omega (arith, length-zeros 134217721)) (omega (arith, length-zeros 134217721))
