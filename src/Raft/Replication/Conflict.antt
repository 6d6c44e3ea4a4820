-- ===== src/Raft/Replication/Conflict.antt =====
-- The fast back-up: the hint of the follower, and the search of the leader.
use vault_fs.Base.{
  ℕ, zero, suc, ◌+◌, ◌-◌, ◌≤◌, ◌<◌, ◌≡◌, ◌≢◌, refl, ◌⊎◌, inl, inr, false, arith, ok, subst, sym,
  ◌∙◌, ap, two64, u64_small, ltb, leb, ◌==◌, ==_iff, Bool-cases, Result, Result-cases, ltb→lt,
  ltb→ge, ge→ltb, gt→leb, leb→gt, leb→le,
}
use vault_fs.Raft.Log.{RaftLog, LogError, last_index, term}
use vault_fs.Raft.Node.{Node}
use vault_fs.Raft.Replication.{walk_back, conflict_hint, search_back}

ok_eq : (a b : ℕ) → (let x : Result LogError ℕ = ok a in x ≡ ok b) → a ≡ b
ok_eq a b e = cc

-- All indices from r to i have term t, and the one before r does not, unless it is compacted.
pub record IsRun (l : RaftLog) (t r i : ℕ) : Type 0 where
  pub up_to : r ≤ i
  pub same : (j : ℕ) → r ≤ j → j ≤ i → term l j ≡ ok t
  pub first : (r ≤ l.snap_index + 1) ⊎ (term l (r - 1) ≢ ok t)

run_at : (l : RaftLog) (t i : ℕ) → term l i ≡ ok t → (j : ℕ) → i ≤ j → j ≤ i → term l j ≡ ok t
run_at l t i h j lo hi = subst (λ k. term l k ≡ ok t) (omega arith) h

walk_back-IsRun :
    (l : RaftLog) (t i : ℕ)
    → l.snap_index + 1 < two64
    → term l i ≡ ok t
    → IsRun l t (walk_back l t i) i
unfolding walk_back
walk_back-IsRun l t zero fits h = record {
  up_to = omega arith;
  same = run_at l t zero h;
  first = inl (omega arith);
}
walk_back-IsRun l t (suc i) fits h =
    rw (u64_small (l.snap_index + 1) fits) (elim (Bool-cases (ltb (l.snap_index + 1) (suc i))) [
      | inr start ↦ rw start (stop (inl (ltb→ge _ _ start)))
      | inl inside ↦ rw inside (elim (Result-cases (term l i)) [
        | inr (e, failed) ↦ rw failed (stop (inr (λ p. cc (p, failed))))
        | inl (t', known) ↦ rw known (elim (Bool-cases (t' == t)) [
          | inr other ↦ rw other (stop (inr (λ p. different t' other (ok_eq t' t (sym known ∙ p)))))
          | inl same ↦
              rw same (longer (walk_back-IsRun l t i fits (known ∙ ap ok ((==_iff t' t).0 same))))
        ])
      ])
    ])
  where
    stop : (suc i ≤ l.snap_index + 1) ⊎ (term l i ≢ ok t) → IsRun l t (suc i) (suc i)
    stop f = record {
      up_to = omega arith;
      same = run_at l t (suc i) h;
      first = elim f [
        | inl c ↦ inl c
        | inr c ↦ inr (λ p. c (subst (λ k. term l k ≡ ok t) (omega arith) p))
      ];
    }

    longer : {r : ℕ} → IsRun l t r i → IsRun l t r (suc i)
    longer {r} run = record {
      up_to = omega (arith, run.up_to);
      same = λ j lo hi. elim (Bool-cases (leb j i)) [
        | inl before ↦ run.same j lo (leb→le _ _ before)
        | inr last ↦ subst (λ k. term l k ≡ ok t) (omega (arith, leb→gt _ _ last)) h
      ];
      first = run.first;
    }

    different : (a : ℕ) → (a == t) ≡ false → a ≢ t
    different a other e = ground arith

-- The hint of a follower whose log is too short is the index behind its last entry; otherwise,
-- where t is the term that it has at prevLogIndex, it is t with the first index of the run of
-- entries of term t, down from prevLogIndex.
pub conflict_hint_lem :
    (n : Node) (prev t : ℕ)
    → n.log.snap_index + 1 < two64
    → last_index n.log + 1 < two64
    → (prev ≤ last_index n.log → term n.log prev ≡ ok t)
    → ((last_index n.log < prev) × (conflict_hint n prev t ≡ (last_index n.log + 1, 0)))
      ⊎ ((prev ≤ last_index n.log)
          × ((conflict_hint n prev t).1 ≡ t)
          × IsRun n.log t (conflict_hint n prev t).0 prev)
unfolding conflict_hint
conflict_hint_lem n prev t fits room known = elim (Bool-cases (ltb (last_index n.log) prev)) [
  | inl short ↦ rw short (inl (ltb→lt _ _ short, λ i. (u64_small (last_index n.log + 1) room i, 0)))
  | inr within ↦
      rw within (
        inr
          (ltb→ge _ _ within, refl, walk_back-IsRun n.log t prev fits (known (ltb→ge _ _ within))))
]

-- r is d, or lies behind an entry of term t behind which, up to i, every entry has a greater term.
abbrev pub Found : RaftLog → ℕ → ℕ → ℕ → ℕ → Type 0
Found l t d i r =
    (r ≡ d)
    ⊎ ((k : ℕ) × (r ≡ k + 1)
        × (k ≤ i)
        × (term l k ≡ ok t)
        × ((j : ℕ) → k < j → j ≤ i → (u : ℕ) × (term l j ≡ ok u) × (t < u)))

search_further :
    (l : RaftLog) (t d i r u : ℕ)
    → term l (suc i) ≡ ok u
    → t < u
    → Found l t d i r
    → Found l t d (suc i) r
search_further l t d i r u known greater (inl same) = inl same
search_further l t d i r u known greater (inr (k, at, before, has, rest)) = inr (
  k,
  at,
  omega arith,
  has,
  λ j lo hi. elim (Bool-cases (leb j i)) [
    | inl below ↦ rest j lo (leb→le _ _ below)
    | inr top ↦ (u, subst (λ m. term l m ≡ ok u) (omega (arith, leb→gt _ _ top)) known, greater)
  ],
)

-- What the leader's search over the terms from i down finds.
pub search_back_lem :
    (l : RaftLog) (t d i : ℕ) → i + 1 < two64 → Found l t d i (search_back l t d i)
unfolding search_back
search_back_lem l t d zero fits = inl refl
search_back_lem l t d (suc i) fits = elim (Bool-cases (leb (suc i) l.snap_index)) [
  | inl compacted ↦ rw compacted (inl refl)
  | inr held ↦ rw held (elim (Result-cases (term l (suc i))) [
    | inr (e, failed) ↦ rw failed (inl refl)
    | inl (u, known) ↦ rw known (elim (Bool-cases (u == t)) [
      | inl same ↦ rw same (
          inr (
            suc i,
            u64_small (suc i + 1) fits,
            omega arith,
            known ∙ ap ok ((==_iff u t).0 same),
            λ j lo hi. absurd (omega arith),
          ))
      | inr other ↦ rw other (elim (Bool-cases (ltb u t)) [
        | inl less ↦ rw less (inl refl)
        | inr more ↦ rw more (
            search_further l t d i (search_back l t d i) u known (ground arith)
              (search_back_lem l t d i (omega arith)))
      ])
    ])
  ])
]

-- Where the leader has an entry of the follower's term at index k above its snapshot, and only
-- greater terms from there up to i, the search from i down finds k + 1.
pub search_back_finds :
    (l : RaftLog) (t d i k : ℕ)
    → i + 1 < two64
    → l.snap_index < k
    → k ≤ i
    → term l k ≡ ok t
    → ((j : ℕ) → k < j → j ≤ i → (u : ℕ) × (term l j ≡ ok u) × (t < u))
    → search_back l t d i ≡ k + 1
unfolding search_back
search_back_finds l t d zero k fits above within has rest = absurd (omega arith)
search_back_finds l t d (suc i) k fits above within has rest =
    rw (gt→leb (suc i) l.snap_index (omega arith)) (elim (Bool-cases (leb k i)) [
      | inr top ↦
          let at : k ≡ suc i = omega (arith, leb→gt _ _ top) in
          rw (subst (λ m. term l m ≡ ok t) at has, (==_iff t t).1 refl)
            (u64_small (suc i + 1) fits ∙ omega arith)
      | inl below ↦
          let (u, known, greater) = rest (suc i) (omega (arith, leb→le _ _ below)) (omega arith) in
          rw (known, differs u greater, ge→ltb u t (omega arith))
            (search_back_finds l t d i k (omega arith) above (leb→le _ _ below) has
              (λ j lo hi. rest j lo (omega arith)))
    ])
  where
    differs : (u : ℕ) → t < u → (u == t) ≡ false
    differs u h = ground arith
