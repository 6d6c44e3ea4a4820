-- ===== src/Client/Tests.antt =====
-- A file of five bytes in chunks of two, and a call that succeeds at the third attempt.
use vault_fs.Base.{
  ℕ, zero, suc, ◌≡◌, refl, String, Bool, false, Option, none, some, List, [], ◌∷◌, leb,
  if◌then◌else◌, length,
}
use vault_fs.Client.File.{
  default_chunk_size, split_chunks, split_from, joined, AreChunks, split_chunks_lem,
}
use vault_fs.Client.Retry.{CallError, unavailable, aborted, default_retry_policy, FailsUntil}

abbrev digest : List ℕ → String
digest [] = "none"
digest (b ∷ bs) = "some"

abbrev bytes : List ℕ
bytes = 1 ∷ 2 ∷ 3 ∷ 4 ∷ 5 ∷ []

run_split : length (split_chunks digest bytes 2) ≡ 3
unfolding split_chunks split_from
run_split = refl

split_chunks_lem_example :
    (joined digest (split_chunks digest bytes 2) ≡ bytes)
    × AreChunks digest (if leb 2 0 then default_chunk_size else 2) (split_chunks digest bytes 2)
split_chunks_lem_example = split_chunks_lem digest bytes 2

abbrev outcomes : ℕ → Option CallError
outcomes zero = some unavailable
outcomes (suc zero) = some aborted
outcomes _ = none

abbrev never : ℕ → Bool
never n = false

outcomes-FailsUntil : FailsUntil default_retry_policy outcomes never 0 2
unfolding FailsUntil
outcomes-FailsUntil = ((unavailable, refl, refl), refl, ((aborted, refl, refl), refl, refl))
