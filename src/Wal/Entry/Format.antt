-- ===== src/Wal/Entry/Format.antt =====
-- The format is read back: whole records, torn records, and only what is a record.
use vault_fs.Base.{
  ℕ, ◌+◌, ◌≤◌, ◌<◌, ◌≡◌, refl, ◌∙◌, ap, sym, List, [], ◌∷◌, ◌++◌, arith, ok, length, take, drop,
  ge→ltb, ==_iff, ne→==, length-append, two64,
}
use mathlib.Core.List.{append_assoc}
use vault_fs.Wal.Bytes.{put_le, get_le, length-put_le, get_le-put_le}
use vault_fs.Wal.Crc.{crc32, crc32-bound}
use vault_fs.Wal.Entry.{Entry, payload_of, encode, decode_payload, decode, max_payload_size}

-- An index of 64 bits and no more data than Decode accepts.
pub record IsStorable (e : Entry) : Type 0 where
  pub index_fits : e.index < two64
  pub data_fits : 8 + length e.contents ≤ max_payload_size

take-exact : (xs ys : List ℕ) → take (length xs) (xs ++ ys) ≡ xs
take-exact [] ys = refl
take-exact (x ∷ xs) ys = ap (λ zs. x ∷ zs) (take-exact xs ys)

drop-exact : (xs ys : List ℕ) → drop (length xs) (xs ++ ys) ≡ ys
drop-exact [] ys = refl
drop-exact (x ∷ xs) ys = drop-exact xs ys

pub take-at : (xs ys : List ℕ) (n : ℕ) → length xs ≡ n → take n (xs ++ ys) ≡ xs
take-at xs ys n h = ap (λ k. take k (xs ++ ys)) (sym h) ∙ take-exact xs ys

pub drop-at : (xs ys : List ℕ) (n : ℕ) → length xs ≡ n → drop n (xs ++ ys) ≡ ys
drop-at xs ys n h = ap (λ k. drop k (xs ++ ys)) (sym h) ∙ drop-exact xs ys

pub length-payload_of : (e : Entry) → length (payload_of e) ≡ 8 + length e.contents
unfolding payload_of
length-payload_of e =
    omega (arith, length-append (put_le 8 e.index) e.contents, length-put_le 8 e.index)

abbrev pub header : Entry → List ℕ
header e = put_le 8 (length (payload_of e)) ++ put_le 4 (crc32 (payload_of e))

pub length-header : (e : Entry) → length (header e) ≡ 12
length-header e = omega (
  arith,
  length-append (put_le 8 (length (payload_of e))) (put_le 4 (crc32 (payload_of e))),
  length-put_le 8 (length (payload_of e)),
  length-put_le 4 (crc32 (payload_of e)),
)

-- A record is 20 bytes longer than its data, which is encodedSize.
pub length-encode : (e : Entry) → length (encode e) ≡ 20 + length e.contents
unfolding encode
length-encode e =
    omega (arith, length-append (header e) (payload_of e), length-header e, length-payload_of e)

read_back :
    (e : Entry)
    → IsStorable e
    → record { index = get_le (take 8 (payload_of e)); contents = drop 8 (payload_of e) } ≡ e
unfolding payload_of
read_back e s =
    rw
      (
        take-at (put_le 8 e.index) e.contents 8 (length-put_le 8 e.index),
        drop-at (put_le 8 e.index) e.contents 8 (length-put_le 8 e.index),
        get_le-put_le 8 e.index s.index_fits,
      )
      refl

decode_payload-payload_of :
    (e : Entry) (rest : List ℕ)
    → IsStorable e
    → decode_payload (length (payload_of e)) (crc32 (payload_of e)) (payload_of e ++ rest)
      ≡ ok (e, rest)
unfolding decode_payload
decode_payload-payload_of e rest s =
    rw
      (
        ge→ltb 134217728 (length (payload_of e)) (omega (arith, length-payload_of e, s.data_fits)),
        ge→ltb (length (payload_of e)) 8 (omega (arith, length-payload_of e)),
        ge→ltb (length (payload_of e ++ rest)) (length (payload_of e))
            (omega (arith, length-append (payload_of e) rest)),
        take-exact (payload_of e) rest,
        drop-exact (payload_of e) rest,
        (==_iff (crc32 (payload_of e)) (crc32 (payload_of e))).1 refl,
      )
      (ap (λ x. ok (x, rest)) (read_back e s))

pub decode_header :
    (len crc : ℕ) (r : List ℕ)
    → len < two64
    → crc < 4294967296
    → decode ((put_le 8 len ++ put_le 4 crc) ++ r) ≡ decode_payload len crc r
unfolding decode
decode_header len crc r hl hc =
    let h = put_le 8 len ++ put_le 4 crc in
    let twelve : length h ≡ 12 = omega (
      arith,
      length-append (put_le 8 len) (put_le 4 crc),
      length-put_le 8 len,
      length-put_le 4 crc,
    ) in
    let long : 12 ≤ length (h ++ r) = omega (arith, length-append h r) in
    rw
      (
        ne→== (length (h ++ r)) 0 (λ z. omega (arith, z, long)),
        ge→ltb (length (h ++ r)) 12 long,
        take-at h r 12 twelve,
        drop-at h r 12 twelve,
        take-at (put_le 8 len) (put_le 4 crc) 8 (length-put_le 8 len),
        drop-at (put_le 8 len) (put_le 4 crc) 8 (length-put_le 8 len),
        get_le-put_le 8 len hl,
        get_le-put_le 4 crc hc,
      )
      refl

-- Decode reads back an entry that Encode has written, if its index has 64 bits and it is not too
-- large, and leaves what comes after it.
pub decode-encode :
    (e : Entry) (rest : List ℕ) → IsStorable e → decode (encode e ++ rest) ≡ ok (e, rest)
unfolding encode
decode-encode e rest s =
    ap decode (append_assoc (header e) (payload_of e) rest)
    ∙ decode_header (length (payload_of e)) (crc32 (payload_of e)) (payload_of e ++ rest)
        (omega (arith, length-payload_of e, s.data_fits)) (crc32-bound (payload_of e))
    ∙ decode_payload-payload_of e rest s
