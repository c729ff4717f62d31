-- ===== src/Ws/Ending.antt =====
-- The loop of a connection ends, whatever the client sends.
use skytap.Common.{
  ℕ, zero, suc, ◌+◌, ◌≤◌, ◌<◌, ◌≡◌, refl, ap, arith, Bool, true, false, [], ◌∷◌, some, length, leb,
  eqb, ◌⊎◌, Bool-cases, inl, inr, length-drop,
}
use mathlib.Core.Path.{subst}
use Prim.Native.Nat.{bit_and}
use skytap.Text.{Str}
use skytap.Ws.{
  Failure, Read, got, failed, ◌>>=◌, read_full, read_length, read_mask, read_payload, read_frame,
  make_limit,
}
use skytap.Ws.Session.{read_loop}

-- What a chain that succeeds has gone through.
bind-got {ℓ κ μ} :
    {A : Type ℓ} {B : Type κ} {P : Type μ} (m : Read A) (f : A → Read B) (b : B)
    → (m >>= f) ≡ got b
    → ((a : A) → m ≡ got a → f a ≡ got b → P)
    → P
bind-got (got a) f b h k = k a refl h
bind-got (failed e) f b h k = absurd (cc)

got-inj {ℓ} : {A : Type ℓ} (a b : A) → got a ≡ got b → a ≡ b
got-inj a b h = cc

read_full-shrinks :
    (n : ℕ) (s t rest : Str) → read_full n s ≡ got (t, rest) → length rest ≤ length s
unfolding read_full
read_full-shrinks n s t rest h = elim (Bool-cases (leb n (length s))) [
  | inr short ↦ absurd (cc (rw (read_full, short) at h))
  | inl enough ↦
      subst (λ (r : Str). length r ≤ length s)
        (ap (λ (p : Str × Str). p.1) (got-inj _ _ (rw (read_full, enough) at h)))
        (omega (arith, length-drop n s))
]

read_length-shrinks :
    (n k : ℕ) (s rest : Str) → read_length n s ≡ got (k, rest) → length rest ≤ length s
unfolding read_length
read_length-shrinks n k s rest h = elim (Bool-cases (eqb n 126)) [
  | inl medium ↦
      bind-got (read_full 2 s) _ (k, rest) (rw (read_length, medium) at h)
        (λ x ext e.
          let tail : x.1 ≡ rest = ap (λ (p : ℕ × Str). p.1) (got-inj _ _ e) in
          subst (λ r. length r ≤ length s) tail (read_full-shrinks 2 s x.0 x.1 ext))
  | inr medium ↦ elim (Bool-cases (eqb n 127)) [
    | inl large ↦
        bind-got (read_full 8 s) _ (k, rest) (rw (read_length, medium, large) at h)
          (λ x ext e.
            let tail : x.1 ≡ rest = ap (λ (p : ℕ × Str). p.1) (got-inj _ _ e) in
            subst (λ r. length r ≤ length s) tail (read_full-shrinks 8 s x.0 x.1 ext))
    | inr large ↦
        let tail : s ≡ rest =
          ap (λ (p : ℕ × Str). p.1) (got-inj _ _ (rw (read_length, medium, large) at h)) in
        subst (λ r. length r ≤ length s) tail (omega arith)
  ]
]

read_mask-shrinks :
    (masked : Bool) (s mask rest : Str)
    → read_mask masked s ≡ got (mask, rest)
    → length rest ≤ length s
unfolding read_mask
read_mask-shrinks true s mask rest h = read_full-shrinks 4 s mask rest h
read_mask-shrinks false s mask rest h =
    subst (λ r. length r ≤ length s) (ap (λ (p : Str × Str). p.1) (got-inj _ _ h)) (omega arith)

read_payload-shrinks :
    (h0 n : ℕ) (masked : Bool) (s payload rest : Str)
    → read_payload h0 masked n s ≡ got (payload, rest)
    → length rest ≤ length s
unfolding read_payload
read_payload-shrinks h0 n masked s payload rest h =
    bind-got (read_mask masked s) _ (payload, rest) h
      (λ x mask e. elim (Bool-cases (leb make_limit n)) [
        | inl negative ↦ absurd (cc (rw (negative) at e))
        | inr fits ↦
            bind-got (read_full n x.1) _ (payload, rest) (rw (fits) at e)
              (λ y body e'. elim (Bool-cases (eqb (bit_and h0 0x0f) 8)) [
                | inl close ↦ absurd (cc (rw (close) at e'))
                | inr open_frame ↦
                    let tail : y.1 ≡ rest =
                      ap (λ (p : Str × Str). p.1) (got-inj _ _ (rw (open_frame) at e')) in
                    let step = read_full-shrinks n x.1 y.0 y.1 body in
                    let before = read_mask-shrinks masked s x.0 x.1 mask in
                    subst (λ r. length r ≤ length s) tail (omega arith)
              ])
      ])

-- A frame takes at least two bytes.
pub read_frame-shrinks :
    (s payload rest : Str) → read_frame s ≡ got (payload, rest) → length rest + 2 ≤ length s
unfolding read_frame
read_frame-shrinks [] payload rest h = absurd (cc)
read_frame-shrinks (h0 ∷ []) payload rest h = absurd (cc)
read_frame-shrinks (h0 ∷ h1 ∷ s) payload rest h =
    bind-got (read_length (bit_and h1 0x7f) s) _ (payload, rest) h
      (λ x size e.
        let step = read_payload-shrinks h0 x.0 _ x.1 payload rest e in
        let before = read_length-shrinks (bit_and h1 0x7f) x.0 s x.1 size in omega arith)

Read-cases {ℓ} :
    {A : Type ℓ} (m : Read A) → ((a : A) × (m ≡ got a)) ⊎ ((e : Failure) × (m ≡ failed e))
Read-cases (got a) = inl (a, refl)
Read-cases (failed e) = inr (e, refl)

-- Fuel above the number of bytes is enough: the loop ends.
pub read_loop-ends :
    (fuel : ℕ) (s : Str) → length s < fuel → (e : Failure) × (read_loop fuel s ≡ some e)
unfolding read_loop
read_loop-ends zero s h = absurd (omega arith)
read_loop-ends (suc fuel) s h = elim (Read-cases (read_frame s)) [
  | inr (e, stops) ↦ (e, rw (read_loop, stops) refl)
  | inl (x, frame) ↦
      let shorter = read_frame-shrinks s x.0 x.1 frame in
      let (e, ends) = read_loop-ends fuel x.1 (omega arith) in (e, rw (read_loop, frame) ends)
]
