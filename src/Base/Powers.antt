-- ===== src/Base/Powers.antt =====
-- Powers of two: sums of exponents, order, and powers of 256 as powers of two.
use Prim.Native.Nat.{ℕ, zero, suc, ◌+◌, ◌*◌, ◌/◌, ◌^◌, ◌≤◌, ◌<◌}
use mathlib.Core.Path.{◌≡◌, ap, sym, ◌∙◌}
use native.Mathlib.Nat.{pow-le-pow_right, pow-suc, one-le-pow, add-zero, add-suc}
use native.Mathlib.Omega.{arith}

pub pow_le : (a b : ℕ) → a ≤ b → 2 ^ a ≤ 2 ^ b
pow_le a b h = pow-le-pow_right (omega arith) h

pub pow_pos : (a : ℕ) → 0 < 2 ^ a
pow_pos a = one-le-pow a 2 (omega arith)

pub pow_add : (a b : ℕ) → 2 ^ (a + b) ≡ 2 ^ a * 2 ^ b
pow_add a zero = rw add-zero (omega arith)
pow_add a (suc b) =
    rw add-suc
      (omega (arith, pow-suc 2 (a + b), pow_add a b, ap (λ (t : ℕ). 2 ^ a * t) (pow-suc 2 b)))

pub pow_256 : (k : ℕ) → 256 ^ k ≡ 2 ^ (8 * k)
pow_256 zero = omega arith
pow_256 (suc k) =
    pow-suc 256 k
    ∙ ap (λ (t : ℕ). t * 256) (pow_256 k)
    ∙ sym (pow_add (8 * k) 8)
    ∙ ap (λ (t : ℕ). 2 ^ t) (add_eight k)
  where
    add_eight : (n : ℕ) → 8 * n + 8 ≡ 8 * suc n
    add_eight n = omega arith

-- The bytes that hold `n` bits hold every number of `n` bits.
pub bytes_hold : (n : ℕ) {x : ℕ} → x < 2 ^ n → x < 256 ^ ((n + 7) / 8)
bytes_hold n h =
    let wide : 2 ^ n ≤ 2 ^ (8 * ((n + 7) / 8)) = pow_le n (8 * ((n + 7) / 8)) (omega arith) in
    omega (arith, wide, pow_256 ((n + 7) / 8))

-- A product of numbers below two powers, with a rest below the second, is below their product.
pub pair_lt : {m n l r : ℕ} → l < m → r < n → l * n + r < m * n
pair_lt h k = grind arith
