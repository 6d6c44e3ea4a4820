-- ===== src/GoMap/Laws.antt =====
-- The laws of reading after writing, and that each key goes on standing once.
use vault_fs.Base.{
  String, ◌≡◌, refl, Option, none, some, List, [], ◌∷◌, if◌then◌else◌, str_eq, eq_iff, eq_refl,
  arith,
}
use vault_fs.GoMap.{Map, lookup, insert, erase, lookup_or, IsMap}

module _ {ℓ} {V : Type ℓ} where
  pub lookup-insert :
      (key k : String) (value : V) (m : Map V)
      → lookup k (insert key value m) ≡ (if str_eq key k then some value else lookup k m)
  unfolding lookup insert
  lookup-insert key k value [] = refl
  lookup-insert key k value ((i, v) ∷ rest) =
      ground (arith, eq_iff key k, eq_iff i key, eq_iff i k, lookup-insert key k value rest)

  pub lookup-erase :
      (k j : String) (m : Map V) → lookup j (erase k m) ≡ (if str_eq k j then none else lookup j m)
  unfolding lookup erase
  lookup-erase k j [] = ground arith
  lookup-erase k j ((i, w) ∷ m) =
      ground (arith, eq_iff k j, eq_iff i k, eq_iff i j, lookup-erase k j m)

  pub lookup_or-insert :
      (d : V) (k j : String) (v : V) (m : Map V)
      → lookup_or d j (insert k v m) ≡ (if str_eq k j then v else lookup_or d j m)
  unfolding lookup_or
  lookup_or-insert d k j v m = ground (arith, lookup-insert k j v m)

  pub lookup_or-erase :
      (d : V) (k j : String) (m : Map V)
      → lookup_or d j (erase k m) ≡ (if str_eq k j then d else lookup_or d j m)
  unfolding lookup_or
  lookup_or-erase d k j m = ground (arith, lookup-erase k j m)

  pub lookup-insert_self : (k : String) (v : V) (m : Map V) → lookup k (insert k v m) ≡ some v
  lookup-insert_self k v m = simp (lookup-insert, eq_refl)

  pub lookup-erase_self : (k : String) (m : Map V) → lookup k (erase k m) ≡ none
  lookup-erase_self k m = simp (lookup-erase, eq_refl)

  pub insert-IsMap : (k : String) (v : V) (m : Map V) → IsMap m → IsMap (insert k v m)
  unfolding lookup insert
  insert-IsMap k v [] h = (refl, tt)
  insert-IsMap k v ((i, w) ∷ m) h =
      ground (arith, eq_iff i k, eq_iff k i, lookup-insert k i v m, insert-IsMap k v m h.1)

  pub erase-IsMap : (k : String) (m : Map V) → IsMap m → IsMap (erase k m)
  unfolding lookup erase
  erase-IsMap k [] h = tt
  erase-IsMap k ((i, w) ∷ m) h = ground (arith, lookup-erase k i m, erase-IsMap k m h.1)

pub ruleset map_laws = (lookup-insert, lookup-erase, eq_refl)
