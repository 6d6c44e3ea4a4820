-- ===== src/Client/Retry.antt =====
-- pkg/client/retry.go: calls that are retried with exponential back-off.
use vault_fs.Base.{
  ℕ, zero, suc, ◌+◌, ◌*◌, ◌<◌, ne→==, ◌≡◌, refl, Bool, true, false, Option, none, some, List, [],
  ◌∷◌, arith, ltb, if◌then◌else◌, ◌==◌, length, not,
}

pub record RetryPolicy : Type 0 where
  pub max_attempts : ℕ
  pub base_delay : ℕ
  pub max_delay : ℕ

abbrev pub default_retry_policy : RetryPolicy
default_retry_policy = record { max_attempts = 4; base_delay = 50000000; max_delay = 1000000000 }

-- The status codes that are told apart, and the end of the context.
pub data CallError : Type 0 where
  unavailable deadline_exceeded aborted permanent context_done : CallError

abbrev pub is_transient : CallError → Bool
is_transient unavailable = true
is_transient deadline_exceeded = true
is_transient aborted = true
is_transient _ = false

-- The loop of do over the attempts that are left, with the error of the one before. The outcome of
-- each attempt is `none` for success; `done` says of each wait whether the context ends in it. The
-- waits come with the result.
unfoldable pub attempt :
    RetryPolicy
    → (ℕ → Option CallError)
    → (ℕ → Bool)
    → ℕ
    → ℕ
    → ℕ
    → Option CallError
    → Option CallError × List ℕ
attempt rp op done n delay zero last = (last, [])
attempt rp op done n delay (suc left) last =
    let doubled = delay * 2 in
    let later =
      attempt rp op done (n + 1) (if ltb rp.max_delay doubled then rp.max_delay else doubled) left
        (op n) in
    elim (op n) [
      | none ↦ (none, [])
      | some e ↦
          if not (is_transient e)
          then (some e, [])
          else if left == 0
          then (some e, [])
          else if done n
          then (some context_done, delay ∷ [])
          else (later.0, delay ∷ later.1)
    ]

unfoldable pub retry : RetryPolicy → (ℕ → Option CallError) → (ℕ → Bool) → Option CallError × List ℕ
unfolding attempt
retry rp op done = attempt rp op done 0 rp.base_delay rp.max_attempts none

module _ (rp : RetryPolicy) (op : ℕ → Option CallError) (done : ℕ → Bool) where
  -- The attempts before the k-th have failed, each with an error that is worth another one, and the
  -- context has not ended in the waits.
  unfoldable pub FailsUntil : ℕ → ℕ → Type 0
  FailsUntil n zero = op n ≡ none
  FailsUntil n (suc k) =
      ((e : CallError) × (op n ≡ some e) × (is_transient e ≡ true))
      × (done n ≡ false)
      × FailsUntil (n + 1) k

  attempt_lem :
      (k n delay left : ℕ) (last : Option CallError)
      → FailsUntil n k
      → k < left
      → ((attempt rp op done n delay left last).0 ≡ none)
        × (length (attempt rp op done n delay left last).1 ≡ k)
  unfolding attempt FailsUntil
  attempt_lem k n delay zero last h lt = absurd (omega arith)
  attempt_lem zero n delay (suc left) last h lt = rw (attempt, h) (refl, refl)
  attempt_lem (suc k) n delay (suc left) last ((e, failed, again), more, rest) lt =
      let next = if ltb rp.max_delay (delay * 2) then rp.max_delay else delay * 2 in
      let (good, waits) = attempt_lem k (n + 1) next left (op n) rest (omega arith) in
      rw (attempt, failed, again, ne→== left 0 (λ z. omega (arith, z, lt)), more) (ground arith)

  -- If the first k attempts fail with errors that are worth another one, the next one succeeds, and
  -- it is one that the policy allows, then the call succeeds after k waits.
  pub retry_lem :
      (k : ℕ)
      → FailsUntil 0 k
      → k < rp.max_attempts
      → ((retry rp op done).0 ≡ none) × (length (retry rp op done).1 ≡ k)
  unfolding retry
  retry_lem k h lt = attempt_lem k 0 rp.base_delay rp.max_attempts none h lt
