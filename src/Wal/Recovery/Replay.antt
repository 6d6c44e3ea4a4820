-- ===== src/Wal/Recovery/Replay.antt =====
-- What the replay of a file finds.
use vault_fs.Base.{
  ℕ, zero, suc, ◌+◌, ◌≤◌, ◌<◌, ◌≡◌, refl, inl, inr, ◌∙◌, ap, sym, none, List, [], ◌∷◌, ◌++◌, arith,
  Result-cases, length, take, All, length-append,
}
use mathlib.Core.List.{append_assoc, append-nil}
use vault_fs.Wal.Entry.{Entry, encode, decode}
use vault_fs.Wal.Entry.Format.{IsStorable, decode-encode, length-encode}
use vault_fs.Wal.Entry.Torn.{decode_torn, decode-shorter}
use vault_fs.Wal.Recovery.{replay, replay_file}

replay_any : (k m : ℕ) (bs : List ℕ) → length bs < k → length bs < m → replay k bs ≡ replay m bs
unfolding replay
replay_any zero m bs h h' = absurd (omega arith)
replay_any (suc k) zero bs h h' = absurd (omega arith)
replay_any (suc k) (suc m) bs h h' = elim (Result-cases (decode bs)) [
  | inr (e, failed) ↦ rw (replay, failed) refl
  | inl ((e, rest), read) ↦
      let shorter = decode-shorter bs rest e read in
      rw (replay, read, replay_any k m rest (omega arith) (omega arith)) refl
]

-- Any fuel above the number of bytes gives the same replay of a file.
pub replay_file-fuel : (k : ℕ) (bs : List ℕ) → length bs < k → replay k bs ≡ replay_file bs
unfolding replay_file
replay_file-fuel k bs h = replay_any k (suc (length bs)) bs h (omega arith)

unfoldable pub encode_all : List Entry → List ℕ
encode_all [] = []
encode_all (e ∷ es) = encode e ++ encode_all es

pub encode_all-append :
    (xs ys : List Entry) → encode_all (xs ++ ys) ≡ encode_all xs ++ encode_all ys
unfolding encode_all
encode_all-append [] ys = refl
encode_all-append (x ∷ xs) ys =
    ap (λ bs. encode x ++ bs) (encode_all-append xs ys)
    ∙ sym (append_assoc (encode x) (encode_all xs) (encode_all ys))

replay_tail :
    (k : ℕ) (e : Entry) (n : ℕ)
    → IsStorable e
    → n < length (encode e)
    → replay (suc k) (take n (encode e)) ≡ ([], 0, none)
unfolding replay
replay_tail k e n s h = elim (decode_torn e n s h) [
  | inl stop ↦ rw (replay, stop) refl
  | inr stop ↦ rw (replay, stop) refl
]

replay-encode_all :
    (k : ℕ) (es : List Entry) (e : Entry) (n : ℕ)
    → All IsStorable es
    → IsStorable e
    → n < length (encode e)
    → length es < k
    → replay k (encode_all es ++ take n (encode e)) ≡ (es, length (encode_all es), none)
unfolding replay encode_all
replay-encode_all zero es e n ss s h lt = absurd (omega arith)
replay-encode_all (suc k) [] e n ss s h lt = replay_tail k e n s h
replay-encode_all (suc k) (x ∷ xs) e n ss s h lt =
    rw (append_assoc (encode x) (encode_all xs) (take n (encode e))) (
      rw
        (
          replay,
          decode-encode x (encode_all xs ++ take n (encode e)) ss.0,
          replay-encode_all k xs e n ss.1 s h (omega arith),
        )
        (λ i. (x ∷ xs, sizes i, none)))
  where
    sizes : 12 + 8 + length x.contents + length (encode_all xs) ≡ length (encode x ++ encode_all xs)
    sizes = omega (arith, length-append (encode x) (encode_all xs), length-encode x)

length-encode_all : (es : List Entry) → length es ≤ length (encode_all es)
unfolding encode_all
length-encode_all [] = omega arith
length-encode_all (e ∷ es) =
    omega (arith, length-encode_all es, length-append (encode e) (encode_all es), length-encode e)

-- A file of whole records that are not too large, behind which a crash has left a part of another
-- one, is replayed to the entries of the whole records, and the valid bytes are those of these
-- records.
pub replay_file_lem :
    (es : List Entry) (e : Entry) (n : ℕ)
    → All IsStorable es
    → IsStorable e
    → n < length (encode e)
    → replay_file (encode_all es ++ take n (encode e)) ≡ (es, length (encode_all es), none)
unfolding replay_file
replay_file_lem es e n ss s h =
    replay-encode_all (suc (length (encode_all es ++ take n (encode e)))) es e n ss s h
      (omega (arith, length-append (encode_all es) (take n (encode e)), length-encode_all es))

-- A file of whole records is replayed to its end.
pub replay_file_whole :
    (es : List Entry)
    → All IsStorable es
    → replay_file (encode_all es) ≡ (es, length (encode_all es), none)
replay_file_whole es ss =
    ap replay_file (sym (append-nil (encode_all es)))
    ∙ replay_file_lem es (record { index = 0; contents = [] }) 0 ss
        (record { index_fits = omega arith; data_fits = omega arith })
        (omega (arith, length-encode (record { index = 0; contents = [] })))
