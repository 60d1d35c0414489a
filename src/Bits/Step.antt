-- ===== src/Bits/Step.antt =====
-- One equation for the lowest binary digit of each native bit operation, without the fuel of the
-- definition that it stands for.
use Prim.Native.Nat.{min, max, differ, digits, bitwise}
use Prim.Native.Nat.{bit_and-bitwise, bit_or-bitwise, bit_xor-bitwise}
use mathlib.Core.WellFounded.{Acc, WellFounded}
use native.Mathlib.Nat.{le_refl}
use asiaccs.Base.{
  ℕ, zero, suc, ◌+◌, ◌-◌, ◌*◌, ◌/◌, ◌%◌, ◌≤◌, ◌<◌, bit_and, bit_or, bit_xor, ◌≡◌, refl,
}
use asiaccs.Base.{arith, ap, ◌∙◌}

below_Acc : (k n : ℕ) → n < k → Acc ◌<◌ n
below_Acc zero n h = absurd (omega arith)
below_Acc (suc k) n h = Acc.intro n (λ m p. below_Acc k m (omega arith))

pub lt_wf : WellFounded ◌<◌
lt_wf = record { apply = λ n. below_Acc (suc n) n (le_refl _) }

-- What the lowest digits of two numbers, and all above them, contribute to an operation.
module _ (unit : ℕ → ℕ) (op : ℕ → ℕ → ℕ) where
  -- More fuel than the first number changes nothing.
  one_more : (fuel x y : ℕ) → x ≤ fuel → digits unit op (suc fuel) x y ≡ digits unit op fuel x y
  one_more zero zero y h = refl
  one_more zero (suc x) y h = absurd (omega (arith, h))
  one_more (suc fuel) zero y h = refl
  one_more (suc fuel) (suc x) y h =
      ap (λ (t : ℕ). t * 2 + op (suc x % 2) (y % 2))
        (one_more fuel (suc x / 2) (y / 2) (omega (arith, h)))

  spare : (extra x y : ℕ) → digits unit op (extra + x) x y ≡ digits unit op x x y
  spare zero x y = ap (λ (k : ℕ). digits unit op k x y) (omega arith)
  spare (suc extra) x y =
      ap (λ (k : ℕ). digits unit op k x y) (suc_out extra x)
      ∙ one_more (extra + x) x y (omega arith)
      ∙ spare extra x y
    where
      suc_out : (m n : ℕ) → suc m + n ≡ suc (m + n)
      suc_out m n = omega arith

  lowest_digit :
      (x y : ℕ)
      → bitwise unit op (suc x) y ≡ bitwise unit op (suc x / 2) (y / 2) * 2 + op (suc x % 2) (y % 2)
  lowest_digit x y =
      let half = suc x / 2 in
      ap (λ (t : ℕ). t * 2 + op (suc x % 2) (y % 2))
        (ap (λ (k : ℕ). digits unit op k half (y / 2)) (omega arith)
          ∙ spare (x - half) half (y / 2))
    where
      filled : (n : ℕ) → n ≡ n - suc n / 2 + suc n / 2
      filled n = omega arith

pub bit_and_step : (x y : ℕ) → bit_and x y ≡ bit_and (x / 2) (y / 2) * 2 + min (x % 2) (y % 2)
bit_and_step zero y = simp bit_and-bitwise (omega arith)
bit_and_step (suc x) y = simp bit_and-bitwise (lowest_digit (λ d. 0) min x y)

pub bit_or_step : (x y : ℕ) → bit_or x y ≡ bit_or (x / 2) (y / 2) * 2 + max (x % 2) (y % 2)
bit_or_step zero y = simp bit_or-bitwise (omega arith)
bit_or_step (suc x) y = simp bit_or-bitwise (lowest_digit (λ d. d) max x y)

-- The difference of two binary digits.
digit : (x y : ℕ) → x < 2 → y < 2 → differ x y ≡ (x + y) % 2
digit zero y p q = omega arith
digit (suc zero) zero p q = refl
digit (suc zero) (suc zero) p q = refl
digit (suc zero) (suc (suc y)) p q = absurd (omega arith)
digit (suc (suc x)) y p q = absurd (omega arith)

pub bit_xor_step : (a b : ℕ) → bit_xor a b ≡ bit_xor (a / 2) (b / 2) * 2 + (a + b) % 2
bit_xor_step zero b = simp bit_xor-bitwise (omega arith)
bit_xor_step (suc a) b = simp bit_xor-bitwise (
    omega (
      arith,
      lowest_digit (λ d. d) differ a b,
      digit (suc a % 2) (b % 2) (omega arith) (omega arith),
    ))
