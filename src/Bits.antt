-- ===== src/Bits.antt =====
-- Laws of `&`, `|` and `^` at variables, at every width: the bit operations that the Feistel
-- network, the block masks and the proxy's index masks use.
pub mod Step
pub mod Xor
use Step.{bit_or_step, bit_and_step}
use mathlib.Core.Path.{ap, sym, ◌∙◌}
use native.Mathlib.Nat.{pow-suc, one-le-pow, div-one, div-div-eq-div-mul}
use asiaccs.Base.{ℕ, zero, suc, ◌+◌, ◌-◌, ◌*◌, ◌/◌, ◌%◌, ◌^◌, ◌<◌, bit_and, bit_or, ◌≡◌, refl}
use asiaccs.Base.{arith}

-- Zero on the right, by induction on a bound of the number.
zero_right : (bound n : ℕ) → n < bound → (bit_or n 0 ≡ n) × (bit_and n 0 ≡ 0)
zero_right zero n h = absurd (omega (arith, h))
zero_right (suc bound) zero h = (refl, refl)
zero_right (suc bound) (suc n) h =
    let (above_or, above_and) = zero_right bound (suc n / 2) (omega (arith, h)) in
    (
      omega (arith, bit_or_step (suc n) 0, above_or),
      omega (arith, bit_and_step (suc n) 0, above_and),
    )

bit_or-zero : (n : ℕ) → bit_or n 0 ≡ n
bit_or-zero n = (zero_right (suc n) n (omega arith)).0

bit_and-zero : (n : ℕ) → bit_and n 0 ≡ 0
bit_and-zero n = (zero_right (suc n) n (omega arith)).1

double : (hi w : ℕ) → hi * 2 ^ suc w ≡ 2 * (hi * 2 ^ w)
double hi w = ap (λ (t : ℕ). hi * t) (pow-suc 2 w) ∙ regroup hi (2 ^ w)
  where
    regroup : (m n : ℕ) → m * (n * 2) ≡ 2 * (m * n)
    regroup m n = omega arith

-- `(hi << w) | lo` is a sum when `lo` has at most `w` bits.
pub bit_or-disjoint : (w hi lo : ℕ) → lo < 2 ^ w → bit_or (hi * 2 ^ w) lo ≡ hi * 2 ^ w + lo
bit_or-disjoint zero hi lo small = ground (arith, bit_or-zero hi)
bit_or-disjoint (suc w) hi lo small =
    let halved : lo / 2 < 2 ^ w = omega (arith, pow-suc 2 w) in
    let above = bit_or-disjoint w hi (lo / 2) halved in
    ground (arith, above, double hi w, bit_or_step (hi * 2 ^ suc w) lo)

bit_and-split : (w hi lo : ℕ) → lo < 2 ^ w → bit_and (hi * 2 ^ w + lo) (2 ^ w - 1) ≡ lo
bit_and-split zero hi lo small = rw bit_and-zero (omega arith)
bit_and-split (suc w) hi lo small =
    let halved : lo / 2 < 2 ^ w = omega (arith, pow-suc 2 w) in
    let above = bit_and-split w hi (lo / 2) halved in
    ground (
      arith,
      above,
      one-le-pow w 2,
      pow-suc 2 w,
      double hi w,
      bit_and_step (hi * 2 ^ suc w + lo) (2 ^ suc w - 1),
    )

-- Masking with `w` ones is the remainder by `2 ^ w`.
pub bit_and_mask : (w x : ℕ) → bit_and x (2 ^ w - 1) ≡ x % 2 ^ w
bit_and_mask w x =
    let below = one-le-pow w 2 in ground (arith, bit_and-split w (x / 2 ^ w) (x % 2 ^ w), below)

-- A mask that is shifted to the left can be applied after a shift to the right.
pub bit_and_shifted : (k a m : ℕ) → bit_and a (m * 2 ^ k) / 2 ^ k ≡ bit_and (a / 2 ^ k) m
bit_and_shifted zero a m = ground (arith, div-one a, div-one (bit_and a (m * 1)))
bit_and_shifted (suc k) a m =
    let low : bit_and a (m * 2 ^ suc k) / 2 ≡ bit_and (a / 2) (m * 2 ^ k) =
      ground (arith, bit_and_step a (m * 2 ^ suc k), double m k) in
    by_halves k (bit_and a (m * 2 ^ suc k))
    ∙ ap (λ (t : ℕ). t / 2 ^ k) low
    ∙ bit_and_shifted k (a / 2) m
    ∙ ap (λ (t : ℕ). bit_and t m) (sym (by_halves k a))
  where
    by_halves : (n x : ℕ) → x / 2 ^ suc n ≡ x / 2 / 2 ^ n
    by_halves n x = ap (λ (t : ℕ). x / t) (pow_step n) ∙ sym (div-div-eq-div-mul x 2 (2 ^ n))
      where
        pow_step : (j : ℕ) → 2 ^ suc j ≡ 2 * 2 ^ j
        pow_step j = omega (arith, pow-suc 2 j)
