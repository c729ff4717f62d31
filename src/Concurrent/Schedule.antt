-- ===== src/Concurrent/Schedule.antt =====
-- Threads that are picked several times in a row.
use mathlib.Core.Path.{subst}
use skytap.Common.{ℕ, zero, suc, ◌≡◌, ◌≢◌, refl, ap, ◌∙◌, arith, eqb, Bool-cases, inl, inr}
use skytap.Text.{Str}
use skytap.Config.{Codec}
use skytap.Concurrent.{Shared, Pc, idle, save_step, save_steps, Threads, update, save, Reach, later}

pub update_self : (f : ℕ → Pc) (i : ℕ) (p : Pc) → update f i p i ≡ p
update_self f i p = ground arith

pub update_ne : (f : ℕ → Pc) (i : ℕ) (p : Pc) (j : ℕ) → i ≢ j → update f i p j ≡ f j
update_ne f i p j ne = ground arith

pub both_idle :
    (f : ℕ → Pc)
    → f 0 ≡ idle
    → f 1 ≡ idle
    → ((i : ℕ) → 0 ≢ i → 1 ≢ i → f i ≡ idle)
    → (i : ℕ) → f i ≡ idle
both_idle f zeroth first others i = elim (Bool-cases (eqb 0 i)) [
  | inl at ↦ let same : 0 ≡ i = ground arith in subst (λ j. f j ≡ idle) same zeroth
  | inr ne ↦ elim (Bool-cases (eqb 1 i)) [
    | inl at ↦ let same : 1 ≡ i = ground arith in subst (λ j. f j ≡ idle) same first
    | inr ne' ↦ others i (ground arith) (ground arith)
  ]
]

pub apart : ◌≢◌ {A = ℕ} 0 1
apart = omega arith

pub apart' : ◌≢◌ {A = ℕ} 1 0
apart' = omega arith

module _ {F : Type 0} (host_of : F → Str) (codec : Codec) (dir : Str) where
  abbrev pub To : Threads F → Threads F → Type 0
  To = Reach host_of codec dir

  -- What one thread does from `s` on when it is picked several times in a row: it leaves `m` and
  -- stands at `p`.
  pub record Ran (i : ℕ) (s : Threads F) (m : Shared F) (p : Pc) (t : Threads F) : Type 0 where
    pub shared : t.shared ≡ m
    pub here : t.pc i ≡ p
    pub others : (j : ℕ) → i ≢ j → t.pc j ≡ s.pc j

  pub runs :
      (n i : ℕ) {r : Threads F} (s : Threads F) (m : Shared F) (p : Pc)
      → To r s
      → save_steps codec dir n s.shared (s.pc i) ≡ (m, p)
      → (t : Threads F) × To r t × Ran i s m p t
  unfolding save_steps
  runs zero i s m p reach ends = (
    s,
    reach,
    record { shared = ap (λ x. x.0) ends; here = ap (λ x. x.1) ends; others = λ j ne. refl },
  )
  runs (suc n) i s m p reach ends =
      let next : Threads F = record {
        shared = (save_step codec dir s.shared (s.pc i)).0;
        pc = update s.pc i (save_step codec dir s.shared (s.pc i)).1;
      } in
      let (t, reached, ran) =
        runs n i next m p (later reach (save i))
          (ap (save_steps codec dir n next.shared) (update_self s.pc i _) ∙ ends) in
      (
        t,
        reached,
        record {
          shared = ran.shared;
          here = ran.here;
          others = λ j ne. ran.others j ne ∙ update_ne s.pc i _ j ne;
        },
      )
