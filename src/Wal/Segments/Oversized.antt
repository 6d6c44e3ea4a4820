-- ===== src/Wal/Segments/Oversized.antt =====
-- Encode writes records that Decode refuses.
use vault_fs.Base.{
  ℕ, zero, suc, ◌+◌, ◌<◌, ◌≡◌, refl, ◌∙◌, ap, some, List, [], ◌∷◌, ◌++◌, arith, err, length, lt→ltb,
  All, length-append, two64,
}
use mathlib.Core.List.{append_assoc}
use vault_fs.Wal.Crc.{crc32, crc32-bound}
use vault_fs.Wal.Entry.{
  Entry, too_large, encode, decode, decode_payload, payload_of, max_payload_size,
}
use vault_fs.Wal.Entry.Format.{
  IsStorable, decode-encode, length-encode, length-payload_of, header, decode_header,
}
use vault_fs.Wal.Recovery.{replay, replay_file}
use vault_fs.Wal.Recovery.Replay.{encode_all}
use vault_fs.Wal.Segments.{recover_files, open_dir}

large_payload :
    (len crc : ℕ) (r : List ℕ) → 134217728 < len → decode_payload len crc r ≡ err too_large
unfolding decode_payload
large_payload len crc r h = rw (lt→ltb 134217728 len h) refl

decode-large :
    (e : Entry) (rest : List ℕ)
    → max_payload_size < 8 + length e.contents
    → 8 + length e.contents < two64
    → decode (encode e ++ rest) ≡ err too_large
unfolding encode
decode-large e rest large fits =
    ap decode (append_assoc (header e) (payload_of e) rest)
    ∙ decode_header (length (payload_of e)) (crc32 (payload_of e)) (payload_of e ++ rest)
        (omega (arith, length-payload_of e, fits)) (crc32-bound (payload_of e))
    ∙ large_payload (length (payload_of e)) (crc32 (payload_of e)) (payload_of e ++ rest)
        (omega (arith, length-payload_of e, large))

replay-large :
    (k : ℕ) (es : List Entry) (e : Entry) (rest : List ℕ)
    → All IsStorable es
    → max_payload_size < 8 + length e.contents
    → 8 + length e.contents < two64
    → length es < k
    → (replay k (encode_all es ++ (encode e ++ rest))).2 ≡ some too_large
unfolding replay encode_all
replay-large zero es e rest ss large fits lt = absurd (omega arith)
replay-large (suc k) [] e rest ss large fits lt = rw (replay, decode-large e rest large fits) refl
replay-large (suc k) (x ∷ xs) e rest ss large fits lt =
    rw (append_assoc (encode x) (encode_all xs) (encode e ++ rest)) (
      rw (replay, decode-encode x (encode_all xs ++ (encode e ++ rest)) ss.0)
        (replay-large k xs e rest ss.1 large fits (omega arith)))

more_bytes :
    (es : List Entry) (e : Entry) (rest : List ℕ)
    → length es < suc (length (encode_all es ++ (encode e ++ rest)))
unfolding encode_all
more_bytes [] e rest = omega arith
more_bytes (x ∷ xs) e rest = omega (
  arith,
  more_bytes xs e rest,
  length-append (encode x ++ encode_all xs) (encode e ++ rest),
  length-append (encode x) (encode_all xs),
  length-append (encode_all xs) (encode e ++ rest),
  length-encode x,
)

-- A directory with one file, in which an entry whose payload is over the maximum of Decode follows
-- any entries that are not, cannot be opened, whatever comes after.
pub open_dir-large :
    (max id : ℕ) (es : List Entry) (e : Entry) (rest : List ℕ)
    → All IsStorable es
    → max_payload_size < 8 + length e.contents
    → 8 + length e.contents < two64
    → open_dir max ((id, encode_all es ++ (encode e ++ rest)) ∷ []) ≡ err too_large
unfolding open_dir recover_files replay_file
open_dir-large max id es e rest ss large fits =
    let stuck =
      replay-large (suc (length (encode_all es ++ (encode e ++ rest)))) es e rest ss large fits
        (more_bytes es e rest) in
    rw (open_dir, recover_files, stuck) refl
