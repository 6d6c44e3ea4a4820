-- ===== src/Raft/Log/Shape.antt =====
-- The documented invariant `entries[i].Index == snapIndex + 1 + i`, and that the operations keep it.
use Prim.Native.Nat.{max}
use vault_fs.Base.{
  ◌∙◌, length-drop, ℕ, zero, suc, ◌+◌, ◌-◌, ◌≡◌, refl, none, some, List, [], ◌∷◌, ◌++◌, arith,
  length, get_elem?, take, drop, Bool-cases, leb, inl, inr, subst,
}
use vault_fs.Raft.Types.{Entry}
use vault_fs.Raft.Log.{RaftLog, last_entry, last_index, append, truncate_after, set_snapshot}

-- The entries carry the indices n, n + 1, ….
abbrev pub Indexed : ℕ → List Entry → Type 0
Indexed n [] = Unit {0}
Indexed n (e ∷ es) = (e.index ≡ n) × Indexed (suc n) es

abbrev pub IsWellFormed : RaftLog → Type 0
IsWellFormed l = Indexed (suc l.snap_index) l.entries

pub Indexed-append :
    (n : ℕ) (xs ys : List Entry) → Indexed n xs → Indexed (n + length xs) ys → Indexed n (xs ++ ys)
Indexed-append n [] ys hx hy = subst (λ k. Indexed k ys) (omega arith) hy
Indexed-append n (x ∷ xs) ys hx hy =
    (hx.0, Indexed-append (suc n) xs ys hx.1 (subst (λ k. Indexed k ys) (omega arith) hy))

pub Indexed-take : (n k : ℕ) (xs : List Entry) → Indexed n xs → Indexed n (take k xs)
Indexed-take n zero xs h = tt
Indexed-take n (suc k) [] h = tt
Indexed-take n (suc k) (x ∷ xs) h = (h.0, Indexed-take (suc n) k xs h.1)

pub Indexed-drop : (n k : ℕ) (xs : List Entry) → Indexed n xs → Indexed (n + k) (drop k xs)
Indexed-drop n zero xs h = subst (λ m. Indexed m xs) (omega arith) h
Indexed-drop n (suc k) [] h = tt
Indexed-drop n (suc k) (x ∷ xs) h =
    subst (λ m. Indexed m (drop k xs)) (omega arith) (Indexed-drop (suc n) k xs h.1)

pub Indexed-get_elem? :
    (n k : ℕ) (xs : List Entry) {e : Entry}
    → Indexed n xs
    → get_elem? xs k ≡ some e
    → e.index ≡ n + k
Indexed-get_elem? n k [] h g = absurd (cc)
Indexed-get_elem? n zero (x ∷ xs) h g = ground arith
Indexed-get_elem? n (suc k) (x ∷ xs) h g = omega (arith, Indexed-get_elem? (suc n) k xs h.1 g)

last_entry-Indexed :
    (n : ℕ) (e : Entry) (es : List Entry)
    → Indexed n (e ∷ es)
    → (x : Entry) × (last_entry (e ∷ es) ≡ some x) × (x.index ≡ n + length es)
unfolding last_entry
last_entry-Indexed n e [] h = (e, refl, omega arith)
last_entry-Indexed n e (f ∷ es) h =
    let r = last_entry-Indexed (suc n) f es h.1 in (r.0, r.1, omega (arith, r.2))

-- The index of the last entry is what the invariant says.
pub last_index_lem : (l : RaftLog) → IsWellFormed l → last_index l ≡ l.snap_index + length l.entries
unfolding last_index last_entry
last_index_lem l h = last_of l.snap_index l.entries h
  where
    last_of :
        (s : ℕ) (es : List Entry)
        → Indexed (suc s) es
        → elim (last_entry es) [ none ↦ s | some e ↦ e.index ] ≡ s + length es
    last_of s [] h = omega arith
    last_of s (e ∷ es) h = ground (arith, last_entry-Indexed (suc s) e es h)

pub append-IsWellFormed :
    (l : RaftLog) (es : List Entry)
    → IsWellFormed l
    → Indexed (suc (last_index l)) es
    → IsWellFormed (append l es)
unfolding append
append-IsWellFormed l es h he =
    Indexed-append (suc l.snap_index) l.entries es h
      (subst (λ k. Indexed k es) (omega (arith, last_index_lem l h)) he)

pub truncate_after-IsWellFormed :
    (l : RaftLog) (i : ℕ) → IsWellFormed l → IsWellFormed (truncate_after l i)
unfolding truncate_after
truncate_after-IsWellFormed l i h =
    ground (arith, Indexed-take (suc l.snap_index) (i - l.snap_index - 1) l.entries h)

pub set_snapshot-IsWellFormed :
    (l : RaftLog) (i t : ℕ) → IsWellFormed l → IsWellFormed (set_snapshot l i t)
unfolding set_snapshot
set_snapshot-IsWellFormed l i t h = elim (Bool-cases (leb i l.snap_index)) [
  | inl old ↦ rw old h
  | inr new ↦ rw new (elim (Bool-cases (leb (length l.entries) (i - l.snap_index))) [
    | inl all ↦ rw all tt
    | inr some_left ↦ rw some_left (
        subst (λ k. Indexed k (drop (i - l.snap_index) l.entries)) (ground arith)
          (Indexed-drop (suc l.snap_index) (i - l.snap_index) l.entries h))
  ])
]

pub snap_index-set_snapshot :
    (l : RaftLog) (i t : ℕ) → (set_snapshot l i t).snap_index ≡ max l.snap_index i
unfolding set_snapshot
snap_index-set_snapshot l i t = ground arith

-- A snapshot at i does not shorten the log, and reaches to i.
pub last_index-set_snapshot :
    (l : RaftLog) (i t : ℕ)
    → IsWellFormed l
    → last_index (set_snapshot l i t) ≡ max i (last_index l)
last_index-set_snapshot l i t w =
    last_index_lem (set_snapshot l i t) (set_snapshot-IsWellFormed l i t w) ∙ reaches
  where
    reaches :
        (set_snapshot l i t).snap_index + length (set_snapshot l i t).entries ≡ max i (last_index l)
    reaches =
        unfold set_snapshot in
        ground (arith, length-drop (i - l.snap_index) l.entries, last_index_lem l w)
