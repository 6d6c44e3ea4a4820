-- ===== src/Metadata/Lease.antt =====
-- internal/metadata/lease.go. Times and durations count nanoseconds; the injected clock is an
-- argument of each operation. The map holds pointers to leases, but every operation gives out copies.
pub mod Shape
pub mod Exclusive
use vault_fs.Base.{
  ℕ, suc, ◌+◌, String, Bool, true, false, not, ◌&&◌, ◌||◌, Option, none, some, [], ◌∷◌, Result, ok,
  err, ltb, leb, if◌then◌else◌, str_eq,
}
use vault_fs.GoMap.{Map, lookup, insert, erase}

abbrev pub default_lease_ttl : ℕ
default_lease_ttl = 60000000000

pub data LeaseError : Type 0 where
  lease_held lease_not_held : LeaseError

pub record Lease : Type 0 where
  pub chunk_id : String
  pub holder : String
  pub expiry : ℕ

abbrev pub expired : Lease → ℕ → Bool
expired l now = not (ltb now l.expiry)

pub record LeaseManager : Type 0 where
  pub leases : Map Lease
  pub ttl : ℕ

-- A duration below zero is taken for 0, which gives the same manager.
unfoldable pub new_lease_manager : ℕ → LeaseManager
new_lease_manager ttl = record { leases = []; ttl = if leb ttl 0 then default_lease_ttl else ttl }

-- The test of Grant: another node holds a valid lease.
unfoldable pub held_by_other : Option Lease → ℕ → String → Bool
held_by_other none now holder = false
held_by_other (some existing) now holder =
    not (expired existing now) && not (str_eq existing.holder holder)

unfoldable pub grant : LeaseManager → ℕ → String → String → LeaseManager × Result LeaseError Lease
unfolding held_by_other
grant m now chunk_id holder =
    if held_by_other (lookup chunk_id m.leases) now holder
    then (m, err lease_held)
    else let lease : Lease = record {
      chunk_id = chunk_id;
      holder = holder;
      expiry = now + m.ttl;
    } in
      (record m { leases = insert chunk_id lease m.leases }, ok lease)

unfoldable pub renew : LeaseManager → ℕ → String → String → LeaseManager × Result LeaseError Lease
renew m now chunk_id holder = elim (lookup chunk_id m.leases) [
  | none ↦ (m, err lease_not_held)
  | some existing ↦
      if expired existing now || not (str_eq existing.holder holder)
      then (m, err lease_not_held)
      else let lease = record existing { expiry = now + m.ttl } in
        (record m { leases = insert chunk_id lease m.leases }, ok lease)
]

unfoldable pub revoke : LeaseManager → ℕ → String → String → LeaseManager × Option LeaseError
revoke m now chunk_id holder = elim (lookup chunk_id m.leases) [
  | none ↦ (m, some lease_not_held)
  | some existing ↦
      if expired existing now || not (str_eq existing.holder holder)
      then (m, some lease_not_held)
      else (record m { leases = erase chunk_id m.leases }, none)
]

unfoldable pub check : LeaseManager → ℕ → String → Option Lease
check m now chunk_id = elim (lookup chunk_id m.leases) [
  | none ↦ none
  | some existing ↦ if expired existing now then none else some existing
]

-- The loop of Count.
unfoldable pub count_valid : ℕ → Map Lease → ℕ
count_valid now [] = 0
count_valid now ((id, lease) ∷ leases) =
    let rest = count_valid now leases in if expired lease now then rest else suc rest

unfoldable pub count : LeaseManager → ℕ → ℕ
unfolding count_valid
count m now = count_valid now m.leases

-- The loop of SweepExpired: the leases that are left, and how many are gone.
unfoldable pub sweep_leases : ℕ → Map Lease → Map Lease × ℕ
sweep_leases now [] = ([], 0)
sweep_leases now ((id, lease) ∷ leases) =
    let (kept, n) = sweep_leases now leases in
    if expired lease now then (kept, suc n) else ((id, lease) ∷ kept, n)

unfoldable pub sweep_expired : LeaseManager → ℕ → LeaseManager × ℕ
unfolding sweep_leases
sweep_expired m now = let (kept, n) = sweep_leases now m.leases in (record m { leases = kept }, n)
