-- ===== src/Wal/Entry/Torn.antt =====
-- Records that a crash has cut short, and how far Decode reads.
use vault_fs.Base.{
  ℕ, zero, suc, ◌-◌, ◌≤◌, ◌<◌, ◌≡◌, refl, ◌⊎◌, inl, inr, ◌∙◌, ap, List, [], ◌∷◌, ◌++◌, arith, ok,
  err, ltb, length, take, drop, Bool-cases, ltb→ge, ltb→lt, ge→ltb, lt→ltb, ne→==, length-take,
  length-drop,
}
use vault_fs.Wal.Bytes.{get_le}
use vault_fs.Wal.Crc.{crc32, crc32-bound}
use vault_fs.Wal.Entry.{Entry, unexpected_eof, eof, payload_of, encode, decode_payload, decode}
use vault_fs.Wal.Entry.Format.{
  IsStorable, length-payload_of, length-encode, header, length-header, decode_header,
}

take-append :
    (xs ys : List ℕ) (n : ℕ) → length xs ≤ n → take n (xs ++ ys) ≡ xs ++ take (n - length xs) ys
take-append [] ys n h = ap (λ k. take k ys) (omega arith)
take-append (x ∷ xs) ys zero h = absurd (omega arith)
take-append (x ∷ xs) ys (suc n) h =
    ap (λ zs. x ∷ zs) (take-append xs ys n (omega arith) ∙ ap (λ k. xs ++ take k ys) (omega arith))

short_header : (bs : List ℕ) → 0 < length bs → length bs < 12 → decode bs ≡ err unexpected_eof
unfolding decode
short_header bs lo hi =
    rw (ne→== (length bs) 0 (λ z. omega (arith, z, lo)), lt→ltb (length bs) 12 hi) refl

short_payload :
    (len crc : ℕ) (r : List ℕ)
    → 8 ≤ len
    → len ≤ 134217728
    → length r < len
    → decode_payload len crc r ≡ err unexpected_eof
unfolding decode_payload
short_payload len crc r lo hi short =
    rw (ge→ltb 134217728 len hi, ge→ltb len 8 lo, lt→ltb (length r) len short) refl

cut_encode :
    (e : Entry) (n : ℕ)
    → 12 ≤ n
    → take n (encode e) ≡ header e ++ take (n - length (header e)) (payload_of e)
unfolding encode
cut_encode e n lo = take-append (header e) (payload_of e) n (omega (arith, length-header e))

-- A record of which a crash has left only the first n bytes is read as the end of the file, clean
-- or unexpected.
pub decode_torn :
    (e : Entry) (n : ℕ)
    → IsStorable e
    → n < length (encode e)
    → (decode (take n (encode e)) ≡ err eof) ⊎ (decode (take n (encode e)) ≡ err unexpected_eof)
decode_torn e zero s h = inl (unfold decode in refl)
decode_torn e (suc k) s h = elim (Bool-cases (ltb (suc k) 12)) [
  | inl short ↦ inr (
      short_header (take (suc k) (encode e)) (omega (arith, length-take (suc k) (encode e)))
        (omega (arith, length-take (suc k) (encode e), ltb→lt _ _ short)))
  | inr long ↦ inr (cut_payload (suc k) h (ltb→ge _ _ long))
]
  where
    cut_payload :
        (n : ℕ) → n < length (encode e) → 12 ≤ n → decode (take n (encode e)) ≡ err unexpected_eof
    cut_payload n h lo =
        ap decode (cut_encode e n lo)
        ∙ decode_header (length (payload_of e)) (crc32 (payload_of e))
            (take (n - length (header e)) (payload_of e))
            (omega (arith, length-payload_of e, s.data_fits)) (crc32-bound (payload_of e))
        ∙ short_payload (length (payload_of e)) (crc32 (payload_of e))
            (take (n - length (header e)) (payload_of e)) (omega (arith, length-payload_of e))
            (omega (arith, length-payload_of e, s.data_fits))
            (omega (
              arith,
              length-take (n - length (header e)) (payload_of e),
              length-header e,
              length-encode e,
              length-payload_of e,
            ))

payload-shorter :
    (len crc : ℕ) (r rest : List ℕ) (e : Entry)
    → decode_payload len crc r ≡ ok (e, rest)
    → length rest ≤ length r
unfolding decode_payload
payload-shorter len crc r rest e h = ground (arith, length-drop len r)

-- A record takes bytes away.
pub decode-shorter :
    (bs rest : List ℕ) (e : Entry) → decode bs ≡ ok (e, rest) → length rest < length bs
unfolding decode
decode-shorter bs rest e h = ground (
  arith,
  payload-shorter (get_le (take 8 (take 12 bs))) (get_le (drop 8 (take 12 bs))) (drop 12 bs) rest e,
  length-drop 12 bs,
)
