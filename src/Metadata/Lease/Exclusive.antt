-- ===== src/Metadata/Lease/Exclusive.antt =====
-- A chunk has one primary: what a valid lease of one node rules out for the others.
use vault_fs.Base.{
  ℕ, ◌+◌, ◌≤◌, ◌<◌, ◌≡◌, ◌≢◌, refl, ◌⊎◌, inl, inr, ◌∙◌, sym, subst, String, Option, none, some,
  List, [], ◌∷◌, arith, ok, err, Option-cases, eq_iff, eq_refl,
}
use vault_fs.GoMap.{IsMap, lookup}
use vault_fs.GoMap.Laws.{lookup-insert, lookup-erase}
use vault_fs.Metadata.Lease.Shape.{
  lookup-sweep_leases, IsShaped, grant-IsShaped, renew-IsShaped, revoke-IsShaped,
  sweep_expired-IsShaped,
}
use vault_fs.Metadata.Lease.{
  Lease, LeaseManager, lease_held, lease_not_held, grant, renew, revoke, sweep_expired,
  held_by_other,
}

-- The calls that change the leases, each at its time.
pub data Call : Type 0 where
  grants renews revokes : ℕ → String → String → Call
  sweeps : ℕ → Call

abbrev pub time : Call → ℕ
time (grants now _ _) = now
time (renews now _ _) = now
time (revokes now _ _) = now
time (sweeps now) = now

-- A lease of the holder that lasts for as long as one that was granted at time `from`.
abbrev HeldBy : ℕ → ℕ → String → Option Lease → Type 0
HeldBy from ttl holder none = ⊥
HeldBy from ttl holder (some l) = (l.holder ≡ holder) × (from + ttl ≤ l.expiry)

-- The holder has the chunk since time `from`.
unfoldable pub IsHeld : ℕ → String → String → LeaseManager → Type 0
IsHeld from id holder m = HeldBy from m.ttl holder (lookup id m.leases)

-- A call while a lease lasts that was granted at time `from`, other than the holder's own Revoke.
abbrev pub Within : ℕ → ℕ → String → String → Call → Type 0
Within from ttl id holder (revokes now id' holder') =
    (from ≤ now) × (now < from + ttl) × ((id ≢ id') ⊎ (holder ≢ holder'))
Within from ttl id holder call = (from ≤ time call) × (time call < from + ttl)

abbrev pub AllWithin : ℕ → ℕ → String → String → List Call → Type 0
AllWithin from ttl id holder [] = Unit {0}
AllWithin from ttl id holder (c ∷ cs) =
    Within from ttl id holder c × AllWithin from ttl id holder cs

grant-IsHeld :
    (from : ℕ) (id holder : String) (m : LeaseManager) (now : ℕ) (id' holder' : String)
    → IsHeld from id holder m
    → from ≤ now
    → now < from + m.ttl
    → IsHeld from id holder (grant m now id' holder').0
unfolding grant held_by_other IsHeld
grant-IsHeld from id holder m now id' holder' h lo hi = elim (Option-cases (lookup id m.leases)) [
  | inl free ↦ absurd (ground arith)
  | inr (l, found) ↦ ground (
    arith,
    eq_iff id' id,
    eq_iff l.holder holder',
    lookup-insert id' id (record { chunk_id = id'; holder = holder'; expiry = now + m.ttl })
        m.leases,
  )
]

renew-IsHeld :
    (from : ℕ) (id holder : String) (m : LeaseManager) (now : ℕ) (id' holder' : String)
    → IsHeld from id holder m
    → from ≤ now
    → now < from + m.ttl
    → IsHeld from id holder (renew m now id' holder').0
unfolding renew IsHeld
renew-IsHeld from id holder m now id' holder' h lo hi = elim (Option-cases (lookup id' m.leases)) [
  | inl free ↦ ground arith
  | inr (l, found) ↦
      ground
        (arith, eq_iff id' id, lookup-insert id' id (record l { expiry = now + m.ttl }) m.leases)
]

revoke-IsHeld :
    (from : ℕ) (id holder : String) (m : LeaseManager) (now : ℕ) (id' holder' : String)
    → IsHeld from id holder m
    → (id ≢ id') ⊎ (holder ≢ holder')
    → IsHeld from id holder (revoke m now id' holder').0
unfolding revoke IsHeld
revoke-IsHeld from id holder m now id' holder' h other =
    ground (arith, eq_iff id' id, eq_iff holder holder', lookup-erase id' id m.leases)

sweep-IsHeld :
    (from : ℕ) (id holder : String) (m : LeaseManager) (now : ℕ)
    → IsHeld from id holder m
    → IsMap m.leases
    → now < from + m.ttl
    → IsHeld from id holder (sweep_expired m now).0
unfolding sweep_expired IsHeld
sweep-IsHeld from id holder m now h w hi = ground (arith, lookup-sweep_leases now m.leases id w)

-- One call.
abbrev pub run_call : LeaseManager → Call → LeaseManager
run_call m (grants now id holder) = (grant m now id holder).0
run_call m (renews now id holder) = (renew m now id holder).0
run_call m (revokes now id holder) = (revoke m now id holder).0
run_call m (sweeps now) = (sweep_expired m now).0

run_call-IsShaped : (m : LeaseManager) (c : Call) → IsShaped m → IsShaped (run_call m c)
run_call-IsShaped m (grants now id holder) s = grant-IsShaped m now id holder s
run_call-IsShaped m (renews now id holder) s = renew-IsShaped m now id holder s
run_call-IsShaped m (revokes now id holder) s = revoke-IsShaped m now id holder s
run_call-IsShaped m (sweeps now) s = sweep_expired-IsShaped m now s

ttl-run_call : (m : LeaseManager) (c : Call) → (run_call m c).ttl ≡ m.ttl
unfolding grant renew revoke sweep_expired
ttl-run_call m (grants now id holder) = ground arith
ttl-run_call m (renews now id holder) = ground arith
ttl-run_call m (revokes now id holder) = ground arith
ttl-run_call m (sweeps now) = refl

run_call-IsHeld :
    (from : ℕ) (id holder : String) (m : LeaseManager) (c : Call)
    → IsShaped m
    → IsHeld from id holder m
    → Within from m.ttl id holder c
    → IsHeld from id holder (run_call m c)
run_call-IsHeld from id holder m (grants now id' holder') s h w =
    grant-IsHeld from id holder m now id' holder' h w.0 w.1
run_call-IsHeld from id holder m (renews now id' holder') s h w =
    renew-IsHeld from id holder m now id' holder' h w.0 w.1
run_call-IsHeld from id holder m (revokes now id' holder') s h w =
    revoke-IsHeld from id holder m now id' holder' h w.2
run_call-IsHeld from id holder m (sweeps now) s h w = sweep-IsHeld from id holder m now h s.map w.1

-- The calls of several clients in the order in which they get the mutex.
unfoldable pub run : LeaseManager → List Call → LeaseManager
run m [] = m
run m (c ∷ cs) = run (run_call m c) cs

run-IsHeld :
    (from : ℕ) (id holder : String) (m : LeaseManager) (cs : List Call)
    → IsShaped m
    → IsHeld from id holder m
    → AllWithin from m.ttl id holder cs
    → IsHeld from id holder (run m cs) × ((run m cs).ttl ≡ m.ttl)
unfolding run
run-IsHeld from id holder m [] s h w = (h, refl)
run-IsHeld from id holder m (c ∷ cs) s h w =
    let (held, same) =
      run-IsHeld from id holder (run_call m c) cs (run_call-IsShaped m c s)
        (run_call-IsHeld from id holder m c s h w.0)
        (subst (λ t. AllWithin from t id holder cs) (sym (ttl-run_call m c)) w.1) in
    (held, same ∙ ttl-run_call m c)

granted-IsHeld :
    (m : LeaseManager) (from : ℕ) (id holder : String) (l : Lease)
    → (grant m from id holder).1 ≡ ok l
    → IsHeld from id holder (grant m from id holder).0
unfolding grant IsHeld
granted-IsHeld m from id holder l h = ground (
  arith,
  lookup-insert id id (record { chunk_id = id; holder = holder; expiry = from + m.ttl }) m.leases,
  eq_refl id,
)

refused_other :
    (m : LeaseManager) (from later : ℕ) (id holder other : String)
    → IsHeld from id holder m
    → later < from + m.ttl
    → holder ≢ other
    → ((grant m later id other).1 ≡ err lease_held)
      × ((renew m later id other).1 ≡ err lease_not_held)
unfolding grant renew held_by_other IsHeld
refused_other m from later id holder other h lt ne = elim (Option-cases (lookup id m.leases)) [
  | inl free ↦ absurd (ground arith)
  | inr (l, found) ↦ (ground (arith, eq_iff l.holder other), ground (arith, eq_iff l.holder other))
]

-- After a grant at time `from`, whatever calls come in before the lease is over, except that the
-- holder gives it back, no other node is granted the chunk or can renew a lease on it until then.
pub lease_excludes :
    (m : LeaseManager) (from later : ℕ) (id holder other : String) (l : Lease) (cs : List Call)
    → IsShaped m
    → (grant m from id holder).1 ≡ ok l
    → AllWithin from m.ttl id holder cs
    → later < from + m.ttl
    → holder ≢ other
    → let m' = run (grant m from id holder).0 cs in
      ((grant m' later id other).1 ≡ err lease_held)
      × ((renew m' later id other).1 ≡ err lease_not_held)
lease_excludes m from later id holder other l cs s granted w lt ne =
    let start = (grant m from id holder).0 in
    let same : start.ttl ≡ m.ttl = ttl-run_call m (grants from id holder) in
    let (held, kept) =
      run-IsHeld from id holder start cs (grant-IsShaped m from id holder s)
        (granted-IsHeld m from id holder l granted)
        (subst (λ t. AllWithin from t id holder cs) (sym same) w) in
    refused_other (run start cs) from later id holder other held (omega (arith, kept, same)) ne
