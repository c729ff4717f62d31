-- ===== src/GoMap/Laws.antt =====
-- Reading a map after a write or a deletion, and its entries against its reads.
use mathlib.Core.List.{Memᴰ}
use skytap.Common.{
  ◌≡◌, ◌≢◌, refl, ap, Bool-cases, none, some, [], ◌∷◌, arith, inl, inr, if◌then◌else◌,
}
use skytap.Text.{Str, ◌==◌}
use skytap.Text.Equality.{eq_iff, eq_refl}
use skytap.GoMap.{GoMap, get, put, delete, IsMap}

module _ {ℓ} {V : Type ℓ} where
  pub get-put :
      (m : GoMap V) (k j : Str) (v : V) → get (put m k v) j ≡ (if k == j then some v else get m j)
  unfolding get put
  get-put [] k j v = refl
  get-put ((i, w) ∷ m) k j v = ground (arith, eq_iff i k, eq_iff i j, eq_iff k j, get-put m k j v)

  pub get-delete :
      (m : GoMap V) (k j : Str) → get (delete m k) j ≡ (if k == j then none else get m j)
  unfolding get delete
  get-delete [] k j = ground arith
  get-delete ((i, w) ∷ m) k j = ground (arith, eq_iff i k, eq_iff i j, eq_iff k j, get-delete m k j)

  pub get-put_self : (m : GoMap V) (k : Str) (v : V) → get (put m k v) k ≡ some v
  get-put_self m k v = ground (arith, get-put m k k v, eq_refl k)

  pub put-put_self : (m : GoMap V) (k : Str) (v w : V) → put (put m k v) k w ≡ put m k w
  unfolding put
  put-put_self [] k v w = ground (arith, eq_refl k)
  put-put_self ((j, x) ∷ m) k v w = ground (arith, eq_refl k, put-put_self m k v w)

  pub get-delete_self : (m : GoMap V) (k : Str) → get (delete m k) k ≡ none
  get-delete_self m k = ground (arith, get-delete m k k, eq_refl k)

  pub get-put_ne : (m : GoMap V) (k j : Str) (v : V) → k ≢ j → get (put m k v) j ≡ get m j
  get-put_ne m k j v h = ground (arith, get-put m k j v, eq_iff k j)

  pub get-delete_ne : (m : GoMap V) (k j : Str) → k ≢ j → get (delete m k) j ≡ get m j
  get-delete_ne m k j h = ground (arith, get-delete m k j, eq_iff k j)

  pub put-IsMap : (m : GoMap V) (k : Str) (v : V) → IsMap m → IsMap (put m k v)
  unfolding get put
  put-IsMap [] k v h = (refl, tt)
  put-IsMap ((j, w) ∷ m) k v (new, h) =
      ground (arith, eq_iff j k, eq_iff k j, get-put m k j v, put-IsMap m k v h)

  pub delete-IsMap : (m : GoMap V) (k : Str) → IsMap m → IsMap (delete m k)
  unfolding get delete
  delete-IsMap [] k h = tt
  delete-IsMap ((j, w) ∷ m) k (new, h) = ground (arith, get-delete m k j, delete-IsMap m k h)

  -- An entry is what a read of its key gives.
  pub get_of_entry : (m : GoMap V) (k : Str) (v : V) → IsMap m → Memᴰ (k, v) m → get m k ≡ some v
  unfolding get
  get_of_entry [] k v h i = elim i [ ]
  get_of_entry ((j, w) ∷ m) k v (new, h) (Memᴰ.head e) =
      ground (arith, eq_refl k, ap (λ (p : Str × V). p.0) e, ap (λ (p : Str × V). p.1) e)
  get_of_entry ((j, w) ∷ m) k v (new, h) (Memᴰ.tail i) =
      ground (arith, eq_iff j k, get_of_entry m k v h i)

  pub entry_of_get : (m : GoMap V) (k : Str) (v : V) → get m k ≡ some v → Memᴰ (k, v) m
  unfolding get
  entry_of_get [] k v e = absurd (cc)
  entry_of_get ((j, w) ∷ m) k v e = elim (Bool-cases (j == k)) [
    | inl same ↦ Memᴰ.head (cc ((eq_iff j k).0 same, rw same at e))
    | inr other ↦ Memᴰ.tail (entry_of_get m k v (rw other at e))
  ]

pub ruleset map_laws = (get-put, get-delete)
