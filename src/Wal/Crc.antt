-- ===== src/Wal/Crc.antt =====
-- hash/crc32.ChecksumIEEE, bit by bit with the reversed polynomial.
use vault_fs.Base.{ℕ, zero, suc, ◌+◌, ◌*◌, ◌/◌, ◌%◌, ◌<◌, List, [], ◌∷◌, arith, ◌==◌, if◌then◌else◌}

-- Exclusive or of the lowest w bits.
unfoldable pub xor : ℕ → ℕ → ℕ → ℕ
xor zero a b = 0
xor (suc w) a b = (a % 2 + b % 2) % 2 + 2 * xor w (a / 2) (b / 2)

abbrev polynomial : ℕ
polynomial = 3988292384

-- n steps of the division.
unfoldable pub shift : ℕ → ℕ → ℕ
unfolding xor
shift zero crc = crc
shift (suc n) crc = shift n (if crc % 2 == 1 then xor 32 (crc / 2) polynomial else crc / 2)

unfoldable pub crc_over : ℕ → List ℕ → ℕ
unfolding shift xor
crc_over crc [] = crc
crc_over crc (b ∷ bs) = crc_over (shift 8 (xor 32 crc b)) bs

unfoldable pub crc32 : List ℕ → ℕ
unfolding crc_over xor
crc32 bs = xor 32 (crc_over 4294967295 bs) 4294967295

abbrev two_to : ℕ → ℕ
two_to zero = 1
two_to (suc w) = 2 * two_to w

xor-bound : (w a b : ℕ) → xor w a b < two_to w
unfolding xor
xor-bound zero a b = omega arith
xor-bound (suc w) a b = omega (arith, xor-bound w (a / 2) (b / 2))

pub crc32-bound : (bs : List ℕ) → crc32 bs < 4294967296
unfolding crc32
crc32-bound bs = xor-bound 32 (crc_over 4294967295 bs) 4294967295
