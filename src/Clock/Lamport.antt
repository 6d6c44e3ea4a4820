-- ===== src/Clock/Lamport.antt =====
-- internal/clock/lamport.go. The atomic counter is its value; each operation gives the new value,
-- which it also returns.
use vault_fs.Base.{ℕ, ◌+◌, ◌≤◌, ◌<◌, List, [], ◌∷◌, arith, two64, u64, leb, ◌==◌, if◌then◌else◌}

unfoldable pub tick : ℕ → ℕ
tick counter = u64 (counter + 1)

-- The value that an attempt of Update computes from what it has loaded.
unfoldable pub next_after : ℕ → ℕ → ℕ
next_after cur received = if leb cur received then u64 (received + 1) else u64 (cur + 1)

-- Update, where the list has for each attempt the value that the counter has when the attempt comes
-- to its CompareAndSwap; once the list is over no other goroutine interferes.
unfoldable pub update : List ℕ → ℕ → ℕ → ℕ
unfolding next_after
update [] cur received = next_after cur received
update (found ∷ later) cur received =
    let retry = update later found received in
    if found == cur then next_after cur received else retry

-- Other goroutines only advance the counter, and not to its last value.
abbrev pub Advances : ℕ → List ℕ → Type 0
Advances cur [] = cur + 1 < two64
Advances cur (found ∷ later) = (cur ≤ found) × Advances found later

Advances-fits : (cur : ℕ) (found : List ℕ) → Advances cur found → cur + 1 < two64
Advances-fits cur [] h = h
Advances-fits cur (f ∷ later) h = omega (arith, Advances-fits f later h.1)

-- Where other goroutines only advance the counter and nothing overflows, Update ends above what it
-- received and above what the counter was, so clocks respect the order of messages.
pub update_lem :
    (found : List ℕ) (cur received : ℕ)
    → Advances cur found
    → received + 1 < two64
    → (received < update found cur received) × (cur < update found cur received)
unfolding update
update_lem [] cur received h r = ground arith
update_lem (f ∷ later) cur received h r =
    ground (arith, update_lem later f received h.1 r, Advances-fits f later h.1)
