-- ===== src/Caravel/BlindSign/Modular.antt =====
-- Powers modulo a number, for Caravel/RSABlindSign.cpp.
use native.Mathlib.Nat.{add-mul-mod_self_right, mod-add-div', mul_comm, pow-suc, pow-zero}
use asiaccs.Base.{ℕ, zero, suc, ◌+◌, ◌*◌, ◌/◌, ◌%◌, ◌^◌, ◌≡◌, refl, sym, ap, ◌∙◌, arith}

module _ (n : ℕ) where
  pub mod-mul_left : (a b : ℕ) → (a % n * b) % n ≡ (a * b) % n
  mod-mul_left a b =
      let split : a * b ≡ a % n * b + (a / n * b) * n =
        ap (λ (x : ℕ). x * b) (sym (mod-add-div' a n)) ∙ grind arith in
      sym (ap (λ (x : ℕ). x % n) split ∙ add-mul-mod_self_right (a % n * b) (a / n * b) n)

  pub mod-mul_right : (a b : ℕ) → (a * (b % n)) % n ≡ (a * b) % n
  mod-mul_right a b =
      ap (λ (x : ℕ). x % n) (mul_comm a (b % n))
      ∙ mod-mul_left b a
      ∙ ap (λ (x : ℕ). x % n) (mul_comm b a)

  pub mod-pow : (a k : ℕ) → (a % n) ^ k % n ≡ a ^ k % n
  mod-pow a zero = rw (pow-zero (a % n), pow-zero a) refl
  mod-pow a (suc k) =
      ap (λ (x : ℕ). x % n) (pow-suc (a % n) k)
      ∙ sym (mod-mul_left ((a % n) ^ k) (a % n))
      ∙ ap (λ (x : ℕ). (x * (a % n)) % n) (mod-pow a k)
      ∙ mod-mul_left (a ^ k) (a % n)
      ∙ mod-mul_right (a ^ k) a
      ∙ ap (λ (x : ℕ). x % n) (sym (pow-suc a k))

pub mul-pow : (a b k : ℕ) → (a * b) ^ k ≡ a ^ k * b ^ k
mul-pow a b zero = rw (pow-zero (a * b), pow-zero a, pow-zero b) refl
mul-pow a b (suc k) = rw (pow-suc (a * b) k, pow-suc a k, pow-suc b k, mul-pow a b k) (grind arith)

pow-plus : (a j k : ℕ) → a ^ (j + k) ≡ a ^ j * a ^ k
pow-plus a j zero =
    let none_more : j + zero ≡ j = omega arith in
    ap (λ (x : ℕ). a ^ x) none_more ∙ rw (pow-zero a) (grind arith)
pow-plus a j (suc k) =
    let next : j + suc k ≡ suc (j + k) = omega arith in
    ap (λ (x : ℕ). a ^ x) next ∙ rw (pow-suc a (j + k), pow-suc a k, pow-plus a j k) (grind arith)

pub pow-pow : (a j k : ℕ) → (a ^ j) ^ k ≡ a ^ (j * k)
pow-pow a j zero = rw (pow-zero (a ^ j)) (sym (ap (λ (x : ℕ). a ^ x) (omega arith) ∙ pow-zero a))
pow-pow a j (suc k) =
    let split : j * k + j ≡ j * suc k = grind arith in
    rw (pow-suc (a ^ j) k, pow-pow a j k) (sym (pow-plus a (j * k) j) ∙ ap (λ (x : ℕ). a ^ x) split)

-- A number that is blinded, signed and freed of its blinding is the signature of the number.
pub unblind :
    (n e d h r inverse : ℕ)
    → ((x : ℕ) → x ^ (e * d) % n ≡ x % n)
    → (r * inverse) % n ≡ 1 % n
    → ((((r ^ e % n) * h % n) ^ d % n) * inverse) % n ≡ h ^ d % n
unblind n e d h r inverse key inverts =
    let shape : (r ^ e * h) ^ d * inverse ≡ h ^ d * (r ^ (e * d) * inverse) =
      rw (mul-pow (r ^ e) h d, pow-pow r e d) (grind arith) in
    let freed : (r ^ (e * d) * inverse) % n ≡ 1 % n =
      sym (mod-mul_left n (r ^ (e * d)) inverse)
      ∙ ap (λ (x : ℕ). (x * inverse) % n) (key r)
      ∙ mod-mul_left n r inverse
      ∙ inverts in
    let one : h ^ d * 1 ≡ h ^ d = omega arith in
    ap (λ (x : ℕ). (x ^ d % n * inverse) % n) (mod-mul_left n (r ^ e) h)
    ∙ ap (λ (x : ℕ). (x * inverse) % n) (mod-pow n (r ^ e * h) d)
    ∙ mod-mul_left n ((r ^ e * h) ^ d) inverse
    ∙ ap (λ (x : ℕ). x % n) shape
    ∙ sym (mod-mul_right n (h ^ d) (r ^ (e * d) * inverse))
    ∙ ap (λ (x : ℕ). (h ^ d * x) % n) freed
    ∙ mod-mul_right n (h ^ d) 1
    ∙ ap (λ (x : ℕ). x % n) one

-- The check accepts the signature of a number below `n`.
pub sign_check : (n e d h : ℕ) → ((x : ℕ) → x ^ (e * d) % n ≡ x % n) → (h ^ d % n) ^ e % n ≡ h % n
sign_check n e d h key =
    mod-pow n (h ^ d) e
    ∙ ap (λ (x : ℕ). x % n) (pow-pow h d e ∙ ap (λ (x : ℕ). h ^ x) (mul_comm d e))
    ∙ key h
