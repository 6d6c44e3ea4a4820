-- ===== src/Wal/Bytes.antt =====
-- encoding/binary.LittleEndian: a number as the list of its bytes, the lowest first.
use vault_fs.Base.{
  ℕ, zero, suc, ◌+◌, ◌*◌, ◌/◌, ◌%◌, ◌<◌, ◌≡◌, refl, ◌∙◌, ap, ap₂, List, [], ◌∷◌, arith, length, All,
}

unfoldable pub put_le : ℕ → ℕ → List ℕ
put_le zero v = []
put_le (suc n) v = v % 256 ∷ put_le n (v / 256)

unfoldable pub get_le : List ℕ → ℕ
get_le [] = 0
get_le (b ∷ bs) = b + 256 * get_le bs

pub length-put_le : (n v : ℕ) → length (put_le n v) ≡ n
unfolding put_le
length-put_le zero v = refl
length-put_le (suc n) v = ap suc (length-put_le n (v / 256))

-- The greatest number of n bytes, plus one.
abbrev pub bound : ℕ → ℕ
bound zero = 1
bound (suc n) = 256 * bound n

pub get_le-put_le : (n v : ℕ) → v < bound n → get_le (put_le n v) ≡ v
unfolding put_le get_le
get_le-put_le zero v h = omega arith
get_le-put_le (suc n) v h = omega (arith, get_le-put_le n (v / 256) (omega arith))

-- A byte.
abbrev pub IsByte : ℕ → Type 0
IsByte b = b < 256

pub put_le-get_le : (bs : List ℕ) → All IsByte bs → put_le (length bs) (get_le bs) ≡ bs
unfolding put_le get_le
put_le-get_le [] h = refl
put_le-get_le (b ∷ bs) h =
    ap₂ (λ x xs. x ∷ xs) (omega arith)
      (ap (put_le (length bs)) (omega arith) ∙ put_le-get_le bs h.1)
