-- ===== src/Base/Below.antt =====
-- Tests below a bound.
use Prim.Native.Nat.{ℕ, zero, suc, ◌<◌}
use mathlib.Core.Path.{◌≡◌, sym, ap, ◌∙◌}
use mathlib.Core.Logic.{inl, inr}
use mathlib.Core.Bool.{Bool, true, false, true≢false}
use native.Mathlib.Omega.{arith}
use asiaccs.Base.Num.{all_below, ◌==◌, ==_iff, Bool-cases, if◌then◌else◌}

-- A test passed below a bound holds at each number below it.
pub all_below-elim : (n : ℕ) (p : ℕ → Bool) → all_below n p ≡ true → (j : ℕ) → j < n → p j ≡ true
all_below-elim zero p e j h = absurd (omega (arith, h))
all_below-elim (suc n) p e j h = elim (Bool-cases (p n)) [
  | inl t ↦ elim (Bool-cases (j == n)) [
    | inl same ↦ ap p ((==_iff j n).0 same) ∙ t
    | inr apart ↦
        let rest : all_below n p ≡ true =
          sym (ap (λ b. if b then all_below n p else false) t) ∙ e in
        all_below-elim n p rest j (ground (arith, h, apart))
  ]
  | inr f ↦ absurd (true≢false (sym e ∙ ap (λ b. if b then all_below n p else false) f))
]
