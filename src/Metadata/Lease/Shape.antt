-- ===== src/Metadata/Lease/Shape.antt =====
-- What the lease map looks like, and that the expired leases in it do not matter.
use vault_fs.Base.{
  ℕ, ◌+◌, ◌≤◌, ◌≡◌, refl, inl, inr, String, not, none, some, [], ◌∷◌, arith, if◌then◌else◌,
  Bool-cases, Option-cases, ◌||◌, length, str_eq, eq_iff,
}
use vault_fs.GoMap.{Map, IsMap, lookup}
use vault_fs.GoMap.Laws.{lookup-insert, lookup-erase, insert-IsMap, erase-IsMap}
use vault_fs.Metadata.Lease.{
  Lease, LeaseManager, expired, grant, renew, revoke, check, count_valid, count, sweep_leases,
  sweep_expired, held_by_other,
}

pub lookup-sweep_leases :
    (now : ℕ) (leases : Map Lease) (id : String)
    → IsMap leases
    → lookup id (sweep_leases now leases).0
      ≡ elim (lookup id leases) [ none ↦ none | some l ↦ if expired l now then none else some l ]
unfolding sweep_leases lookup
lookup-sweep_leases now [] id h = refl
lookup-sweep_leases now ((k, l) ∷ leases) id h =
    ground (arith, lookup-sweep_leases now leases id h.1, eq_iff k id)

sweep_leases-length :
    (now : ℕ) (leases : Map Lease)
    → (length (sweep_leases now leases).0 ≡ count_valid now leases)
      × (length (sweep_leases now leases).0 + (sweep_leases now leases).1 ≡ length leases)
unfolding sweep_leases count_valid
sweep_leases-length now [] = (refl, refl)
sweep_leases-length now ((k, l) ∷ leases) = ground (arith, sweep_leases-length now leases)

-- A sweep leaves as many leases as Count counts, gives the number of the others, and no Check at
-- that time or later can tell that it has been.
pub sweep_expired_lem :
    (m : LeaseManager) (now later : ℕ) (id : String)
    → IsMap m.leases
    → now ≤ later
    → (length (sweep_expired m now).0.leases ≡ count m now)
      × (length (sweep_expired m now).0.leases + (sweep_expired m now).1 ≡ length m.leases)
      × (check (sweep_expired m now).0 later id ≡ check m later id)
unfolding sweep_expired count check
sweep_expired_lem m now later id h le = (
  (sweep_leases-length now m.leases).0,
  (sweep_leases-length now m.leases).1,
  ground (arith, lookup-sweep_leases now m.leases id h),
)

pub sweep_leases-IsMap :
    (now : ℕ) (leases : Map Lease) → IsMap leases → IsMap (sweep_leases now leases).0
unfolding sweep_leases
sweep_leases-IsMap now [] h = tt
sweep_leases-IsMap now ((k, l) ∷ leases) h =
    ground (arith, sweep_leases-IsMap now leases h.1, lookup-sweep_leases now leases k h.1)

-- Each lease stands under the chunk that it is for.
pub record IsShaped (m : LeaseManager) : Type 0 where
  pub map : IsMap m.leases
  pub keyed : (id : String) (l : Lease) → lookup id m.leases ≡ some l → l.chunk_id ≡ id

pub grant-IsShaped :
    (m : LeaseManager) (now : ℕ) (id holder : String)
    → IsShaped m
    → IsShaped (grant m now id holder).0
unfolding grant
grant-IsShaped m now id holder s =
    elim (Bool-cases (held_by_other (lookup id m.leases) now holder)) [
      | inl held ↦ rw held s
      | inr free ↦ rw free (record {
        map = insert-IsMap id _ m.leases s.map;
        keyed = λ j l h. ground (
          arith,
          lookup-insert id j (record { chunk_id = id; holder = holder; expiry = now + m.ttl })
              m.leases,
          eq_iff id j,
          s.keyed j l,
        );
      })
    ]

pub renew-IsShaped :
    (m : LeaseManager) (now : ℕ) (id holder : String)
    → IsShaped m
    → IsShaped (renew m now id holder).0
unfolding renew
renew-IsShaped m now id holder s = elim (Option-cases (lookup id m.leases)) [
  | inl e ↦ rw (renew, e) s
  | inr (l, e) ↦
      rw (renew, e)
        (elim (Bool-cases (expired l now || not (str_eq l.holder holder))) [
          | inl refused ↦ rw refused s
          | inr held ↦ rw held (record {
            map = insert-IsMap id _ m.leases s.map;
            keyed = λ j k h. ground (
              arith,
              lookup-insert id j (record l { expiry = now + m.ttl }) m.leases,
              eq_iff id j,
              s.keyed j k,
              s.keyed id l e,
            );
          })
        ])
]

pub revoke-IsShaped :
    (m : LeaseManager) (now : ℕ) (id holder : String)
    → IsShaped m
    → IsShaped (revoke m now id holder).0
unfolding revoke
revoke-IsShaped m now id holder s = elim (Option-cases (lookup id m.leases)) [
  | inl e ↦ rw (revoke, e) s
  | inr (l, e) ↦
      rw (revoke, e)
        (elim (Bool-cases (expired l now || not (str_eq l.holder holder))) [
          | inl refused ↦ rw refused s
          | inr held ↦ rw held (record {
            map = erase-IsMap id m.leases s.map;
            keyed = λ j k h. ground (arith, lookup-erase id j m.leases, s.keyed j k);
          })
        ])
]

pub sweep_expired-IsShaped :
    (m : LeaseManager) (now : ℕ) → IsShaped m → IsShaped (sweep_expired m now).0
unfolding sweep_expired
sweep_expired-IsShaped m now s = record {
  map = sweep_leases-IsMap now m.leases s.map;
  keyed = λ j k h. ground (arith, lookup-sweep_leases now m.leases j s.map, s.keyed j k);
}
