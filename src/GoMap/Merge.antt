-- ===== src/GoMap/Merge.antt =====
-- Copying one map over another.
use skytap.Common.{◌≡◌, refl, Option, none, some, [], ◌∷◌, arith}
use skytap.Text.{Str}
use skytap.Text.Equality.{eq_iff}
use skytap.GoMap.{GoMap, get, merge, put, IsMap}
use skytap.GoMap.Laws.{get-put, put-IsMap}

-- The first of two readings that found a value.
abbrev pub or_else {ℓ} : {V : Type ℓ} → Option V → Option V → Option V
or_else none b = b
or_else (some v) b = some v

module _ {ℓ} {V : Type ℓ} where
  pub get-merge :
      (base m : GoMap V) (k : Str) → IsMap m → get (merge base m) k ≡ or_else (get m k) (get base k)
  unfolding get merge
  get-merge base [] k h = refl
  get-merge base ((j, v) ∷ m) k (new, h) =
      ground (arith, get-merge (put base j v) m k h, get-put base j k v, eq_iff j k)

  pub merge-IsMap : (base m : GoMap V) → IsMap base → IsMap (merge base m)
  unfolding merge
  merge-IsMap base [] h = h
  merge-IsMap base ((j, v) ∷ m) h = merge-IsMap (put base j v) m (put-IsMap base j v h)

  -- Copied into an empty map, a map reads the same.
  pub get-merge_nil : (m : GoMap V) (k : Str) → IsMap m → get (merge [] m) k ≡ get m k
  unfolding get
  get-merge_nil m k h = ground (arith, get-merge [] m k h)
