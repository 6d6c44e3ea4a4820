-- ===== src/GoMap.antt =====
-- Go's `map[string]V`: an association list in which each key stands once. `range` over a map goes
-- in an unspecified order; a loop of the model goes through the entries in list order, and no
-- theorem of the development depends on which order that is.
pub mod Laws
use vault_fs.Base.{
  String, ◌≡◌, Option, none, some, List, [], ◌∷◌, if◌then◌else◌, str_eq, Bool, true, false, ◌||◌,
}

abbrev pub Map {ℓ} : Type ℓ → Type ℓ
Map V = List (String × V)

module _ {ℓ} {V : Type ℓ} where
  -- v, ok := m[k]
  unfoldable pub lookup : String → Map V → Option V
  lookup key [] = none
  lookup key ((k, v) ∷ rest) = if str_eq k key then some v else lookup key rest

  -- m[k] = v
  unfoldable pub insert : String → V → Map V → Map V
  insert key value [] = (key, value) ∷ []
  insert key value ((k, v) ∷ rest) =
      if str_eq k key then (key, value) ∷ rest else (k, v) ∷ insert key value rest

  -- delete(m, k)
  unfoldable pub erase : String → Map V → Map V
  erase key [] = []
  erase key ((k, v) ∷ rest) =
      let erased = erase key rest in if str_eq k key then erased else (k, v) ∷ erased

  -- m[k], the zero value `d` where the key is missing
  unfoldable pub lookup_or : V → String → Map V → V
  lookup_or d k m = elim (lookup k m) [ none ↦ d | some v ↦ v ]

  -- _, ok := m[k]
  unfoldable pub contains : String → Map V → Bool
  contains k m = elim (lookup k m) [ none ↦ false | some v ↦ true ]

  -- Each key stands once.
  abbrev pub IsMap : Map V → Type ℓ
  IsMap [] = Unit
  IsMap ((k, v) ∷ m) = (lookup k m ≡ none) × IsMap m

-- The string is one of the list.
abbrev pub listed : String → List String → Bool
listed id [] = false
listed id (j ∷ ids) = str_eq j id || listed id ids
