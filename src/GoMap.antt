-- ===== src/GoMap.antt =====
-- Go maps with string keys, as association lists with one entry for each key. `range` visits the
-- entries in the order of the list; Go leaves that order open.
pub mod Laws
pub mod Merge
use skytap.Common.{◌≡◌, List, [], ◌∷◌, ◌++◌, Option, none, some, map, if◌then◌else◌}
use skytap.Text.{Str, ◌==◌}

abbrev pub GoMap {ℓ} : Type ℓ → Type ℓ
GoMap V = List (Str × V)

module _ {ℓ} {V : Type ℓ} where
  -- v, ok := m[k]
  unfoldable pub get : GoMap V → Str → Option V
  get [] k = none
  get ((j, v) ∷ m) k = if j == k then some v else get m k

  -- m[k] = v
  unfoldable pub put : GoMap V → Str → V → GoMap V
  put [] k v = (k, v) ∷ []
  put ((j, w) ∷ m) k v = if j == k then (k, v) ∷ m else (j, w) ∷ put m k v

  -- delete(m, k)
  unfoldable pub delete : GoMap V → Str → GoMap V
  delete [] k = []
  delete ((j, w) ∷ m) k = let rest = delete m k in if j == k then rest else (j, w) ∷ rest

  -- for k, v := range m { base[k] = v }
  unfoldable pub merge : GoMap V → GoMap V → GoMap V
  merge base [] = base
  merge base ((k, v) ∷ m) = merge (put base k v) m

  -- No entry has this key.
  abbrev NotIn : Str → GoMap V → Type ℓ
  NotIn k m = get m k ≡ none

  -- Every key has one entry.
  abbrev pub IsMap : GoMap V → Type ℓ
  IsMap [] = Unit
  IsMap ((k, v) ∷ m) = NotIn k m × IsMap m
