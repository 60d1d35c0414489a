-- ===== src/Bits/Xor.antt =====
-- Exclusive or is a commutative group operation on the numbers below `2 ^ k`, in which every
-- element is its own inverse, and it is made digit by digit.
use mathlib.Core.WellFounded
use native.Mathlib.Nat.{pow-suc, one-le-pow, mod-lt, mod-one, div-add-mod'}
use asiaccs.Base.{ℕ, zero, suc, ◌+◌, ◌*◌, ◌/◌, ◌%◌, ◌^◌, ◌≤◌, ◌<◌, bit_xor}
use asiaccs.Base.{◌≡◌, refl, sym, ap, ap₂, ◌∙◌, arith, mod_of_split}
use asiaccs.Bits.Step.{bit_xor_step, lt_wf}

pub zero-xor : (b : ℕ) → bit_xor 0 b ≡ b
zero-xor b = WellFounded.induction lt_wf {C = λ n. bit_xor 0 n ≡ n} b λ n ih. by_case n ih
  where
    by_case : (n : ℕ) → ((m : ℕ) → m < n → bit_xor 0 m ≡ m) → bit_xor 0 n ≡ n
    by_case zero ih = refl
    by_case (suc n) ih = omega (arith, bit_xor_step 0 (suc n), ih (suc n / 2) (omega arith))

-- Each law is an induction on a bound that halving keeps going down.
xor_comm_below : (f a b : ℕ) → a ≤ f → b ≤ f → bit_xor a b ≡ bit_xor b a
xor_comm_below zero zero zero p q = refl
xor_comm_below zero zero (suc b) p q = absurd (omega arith)
xor_comm_below zero (suc a) b p q = absurd (omega arith)
xor_comm_below (suc f) a b p q = omega (
  arith,
  bit_xor_step a b,
  bit_xor_step b a,
  xor_comm_below f (a / 2) (b / 2) (omega arith) (omega arith),
)

pub xor_comm : (a b : ℕ) → bit_xor a b ≡ bit_xor b a
xor_comm a b = xor_comm_below (a + b) a b (omega arith) (omega arith)

pub xor-zero : (a : ℕ) → bit_xor a 0 ≡ a
xor-zero a = xor_comm a 0 ∙ zero-xor a

-- A mask that is applied twice cancels.
xor_cancel_below : (f a b : ℕ) → a ≤ f → b ≤ f → bit_xor (bit_xor a b) b ≡ a
xor_cancel_below zero zero zero p q = refl
xor_cancel_below zero zero (suc b) p q = absurd (omega arith)
xor_cancel_below zero (suc a) b p q = absurd (omega arith)
xor_cancel_below (suc f) a b p q =
    let half : bit_xor a b / 2 ≡ bit_xor (a / 2) (b / 2) = omega (arith, bit_xor_step a b) in
    let cancelled : bit_xor (bit_xor a b / 2) (b / 2) ≡ a / 2 =
      rw half (xor_cancel_below f (a / 2) (b / 2) (omega arith) (omega arith)) in
    omega (arith, bit_xor_step (bit_xor a b) b, bit_xor_step a b, cancelled)

pub xor_cancel : (a b : ℕ) → bit_xor (bit_xor a b) b ≡ a
xor_cancel a b = xor_cancel_below (a + b) a b (omega arith) (omega arith)

pub xor_self : (a : ℕ) → bit_xor a a ≡ 0
xor_self a = ap (λ (t : ℕ). bit_xor t a) (sym (zero-xor a)) ∙ xor_cancel 0 a

pub xor_cancel_left : (a b : ℕ) → bit_xor a (bit_xor a b) ≡ b
xor_cancel_left a b =
    xor_comm a (bit_xor a b) ∙ ap (λ (t : ℕ). bit_xor t a) (xor_comm a b) ∙ xor_cancel b a

-- Two values with one difference to a third are one value.
pub xor_injective : (a b c : ℕ) → bit_xor a c ≡ bit_xor b c → a ≡ b
xor_injective a b c e = sym (xor_cancel a c) ∙ ap (λ (t : ℕ). bit_xor t c) e ∙ xor_cancel b c

-- The difference of two values of at most `k` bits has at most `k` bits.
pub xor-lt : (k a b : ℕ) → a < 2 ^ k → b < 2 ^ k → bit_xor a b < 2 ^ k
xor-lt zero zero zero p q = omega arith
xor-lt zero zero (suc b) p q = absurd (omega arith)
xor-lt zero (suc a) b p q = absurd (omega arith)
xor-lt (suc k) a b p q =
    let p2 = pow-suc 2 k in
    omega (
      arith,
      p2,
      bit_xor_step a b,
      xor-lt k (a / 2) (b / 2) (omega (arith, p2)) (omega (arith, p2)),
    )

mod_double : (a k : ℕ) → a % 2 ^ suc k ≡ a / 2 % 2 ^ k * 2 + a % 2
mod_double a k =
    let q = a / 2 / 2 ^ k in
    let r = a / 2 % 2 ^ k in
    let small : r < 2 ^ k = mod-lt (a / 2) (one-le-pow k 2 (omega arith)) in
    let split : a ≡ q * 2 ^ suc k + (r * 2 + a % 2) =
      omega (arith, div-add-mod' (a / 2) (2 ^ k), ap (λ (t : ℕ). q * t) (pow-suc 2 k)) in
    ap (λ (t : ℕ). t % 2 ^ suc k) split
    ∙ mod_of_split (2 ^ suc k) q (r * 2 + a % 2) (omega (arith, pow-suc 2 k))

-- The low bits of a difference are the difference of the low bits.
pub xor-mod : (k a b : ℕ) → bit_xor a b % 2 ^ k ≡ bit_xor (a % 2 ^ k) (b % 2 ^ k)
xor-mod zero a b = mod-one (bit_xor a b) ∙ sym (ap₂ bit_xor (mod-one a) (mod-one b))
xor-mod (suc k) a b =
    let half : bit_xor a b / 2 ≡ bit_xor (a / 2) (b / 2) = omega (arith, bit_xor_step a b) in
    let a' = a % 2 ^ suc k in
    let b' = b % 2 ^ suc k in
    let da = mod_double a k in
    let db = mod_double b k in
    let ah : a' / 2 ≡ a / 2 % 2 ^ k = omega (arith, da) in
    let bh : b' / 2 ≡ b / 2 % 2 ^ k = omega (arith, db) in
    let low : bit_xor (a' / 2) (b' / 2) ≡ bit_xor a b / 2 % 2 ^ k =
      rw (ah, bh, half) (sym (xor-mod k (a / 2) (b / 2))) in
    omega (arith, mod_double (bit_xor a b) k, bit_xor_step a' b', bit_xor_step a b, low, da, db)
