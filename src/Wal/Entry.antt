-- ===== src/Wal/Entry.antt =====
-- internal/wal/entry.go: one record of the log as bytes.
pub mod Format
pub mod Torn
use vault_fs.Base.{
  ℕ, ◌+◌, ◌*◌, Bool, not, List, ◌++◌, Result, ok, err, ltb, ◌==◌, if◌then◌else◌, length, take, drop,
}
use vault_fs.Wal.Bytes.{put_le, get_le}
use vault_fs.Wal.Crc.{crc32}

abbrev pub idx_field_size : ℕ
idx_field_size = 8

-- headerSize, of which 8 bytes are the length and 4 the checksum
abbrev pub header_size : ℕ
header_size = 12

abbrev pub max_payload_size : ℕ
max_payload_size = 134217728

pub record Entry : Type 0 where
  pub index : ℕ
  pub contents : List ℕ

-- Where Decode stops, and why.
pub data DecodeError : Type 0 where
  eof unexpected_eof too_large too_small checksum_mismatch : DecodeError

unfoldable pub payload_of : Entry → List ℕ
payload_of e = put_le 8 e.index ++ e.contents

unfoldable pub encode : Entry → List ℕ
encode e = (put_le 8 (length (payload_of e)) ++ put_le 4 (crc32 (payload_of e))) ++ payload_of e

-- Decode behind the header, with the length and the checksum that it holds.
unfoldable pub decode_payload : ℕ → ℕ → List ℕ → Result DecodeError (Entry × List ℕ)
decode_payload payload_len stored_crc r =
    if ltb max_payload_size payload_len
    then err too_large
    else if ltb payload_len idx_field_size
    then err too_small
    else if ltb (length r) payload_len
    then err unexpected_eof
    else let payload = take payload_len r in
      if not (crc32 payload == stored_crc)
      then err checksum_mismatch
      else ok (
        record {
          index = get_le (take idx_field_size payload);
          contents = drop idx_field_size payload;
        },
        drop payload_len r,
      )

-- The entry and the bytes behind it.
unfoldable pub decode : List ℕ → Result DecodeError (Entry × List ℕ)
decode r =
    if length r == 0
    then err eof
    else if ltb (length r) header_size
    then err unexpected_eof
    else let header = take header_size r in
      decode_payload (get_le (take 8 header)) (get_le (drop 8 header)) (drop header_size r)

abbrev pub encoded_size : ℕ → ℕ
encoded_size data_len = header_size + idx_field_size + data_len
