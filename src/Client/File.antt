-- ===== src/Client/File.antt =====
-- pkg/client/file.go. The input is the list of its bytes, and reading it does not fail; the digest is
-- an argument.
use mathlib.Core.List.{append-nil}
use vault_fs.Base.{
  ℕ, zero, suc, ◌≤◌, ◌<◌, ◌≡◌, refl, ◌∙◌, ap, String, Bool, List, [], ◌∷◌, ◌++◌, arith, ltb, leb,
  if◌then◌else◌, length, take, drop, str_eq, inl, inr, Bool-cases, ltb→lt, ltb→ge, lt→ltb,
  length-take, length-drop, take-append-drop, take-ge,
}

abbrev pub default_chunk_size : ℕ
default_chunk_size = 4194304

pub record Chunk : Type 0 where
  pub id : String
  pub contents : List ℕ

module _ (hash : List ℕ → String) where
  -- The loop of splitChunks. A read that does not fill the buffer is the last one.
  unfoldable pub split_from : ℕ → ℕ → List ℕ → List Chunk
  split_from zero size input = []
  split_from (suc fuel) size input =
      let piece = take size input in
      let rest = split_from fuel size (drop size input) in
      let more = if ltb (length piece) size then [] else rest in
      if ltb 0 (length piece) then record { id = hash piece; contents = piece } ∷ more else more

  -- Each round but the last takes bytes away, so this fuel is enough. A size below 1 is 0.
  unfoldable pub split_chunks : List ℕ → ℕ → List Chunk
  unfolding split_from
  split_chunks input size =
      split_from (suc (length input)) (if leb size 0 then default_chunk_size else size) input

  unfoldable pub verify_chunk : String → List ℕ → Bool
  verify_chunk expected_id contents = str_eq (hash contents) expected_id

  -- The bytes of the chunks, one after the other.
  unfoldable pub joined : List Chunk → List ℕ
  joined [] = []
  joined (c ∷ cs) = c.contents ++ joined cs

  -- No chunk is empty or longer than the size, and each has the digest of its contents.
  abbrev pub AreChunks : ℕ → List Chunk → Type 0
  AreChunks size [] = Unit {0}
  AreChunks size (c ∷ cs) =
      (0 < length c.contents)
      × (length c.contents ≤ size)
      × (c.id ≡ hash c.contents)
      × AreChunks size cs

  nil_of : (xs : List ℕ) → length xs ≡ 0 → [] ≡ xs
  nil_of [] h = refl
  nil_of (x ∷ xs) h = absurd (omega arith)

  split_from_lem :
      (fuel size : ℕ) (input : List ℕ)
      → 0 < size
      → length input < fuel
      → (joined (split_from fuel size input) ≡ input) × AreChunks size (split_from fuel size input)
  unfolding split_from joined
  split_from_lem zero size input pos enough = absurd (omega arith)
  split_from_lem (suc fuel) size input pos enough =
      elim (Bool-cases (ltb (length (take size input)) size)) [
        | inl last ↦
            let short : length input ≤ size =
              omega (arith, length-take size input, ltb→lt _ _ last) in
            elim (Bool-cases (ltb 0 (length (take size input)))) [
              | inl some_left ↦
                  rw (last, some_left)
                    (
                      append-nil (take size input) ∙ take-ge size input short,
                      (ltb→lt _ _ some_left, omega (arith, ltb→lt _ _ last), refl, tt),
                    )
              | inr empty ↦
                  rw (last, empty)
                    (
                      nil_of input (omega (arith, length-take size input, ltb→ge _ _ empty, pos)),
                      tt,
                    )
            ]
        | inr full ↦
            let (same, good) =
              split_from_lem fuel size (drop size input) pos
                (omega (arith, length-take size input, length-drop size input, ltb→ge _ _ full)) in
            let some_left : 0 < length (take size input) = omega (arith, ltb→ge _ _ full) in
            rw (full, lt→ltb 0 (length (take size input)) some_left)
              (
                ap (λ bs. take size input ++ bs) same ∙ take-append-drop size input,
                (some_left, omega (arith, length-take size input), refl, good),
              )
      ]

  -- The chunks of a file are its bytes, cut into pieces that are not empty and no longer than the
  -- size, or than the default size where it is 0, each under the digest of its bytes.
  pub split_chunks_lem :
      (input : List ℕ) (size : ℕ)
      → (joined (split_chunks input size) ≡ input)
        × AreChunks (if leb size 0 then default_chunk_size else size) (split_chunks input size)
  unfolding split_chunks
  split_chunks_lem input size =
      split_from_lem (suc (length input)) (if leb size 0 then default_chunk_size else size) input
        (ground arith) (omega arith)
