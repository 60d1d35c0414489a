-- ===== src/Caravel/BukHash/Primes.antt =====
-- Caravel/BukHash.h, `bPrime` and `InitPrime`: the sizes of the floors.
use mathlib.Core.Bool.{true≢false}
use native.Mathlib.Nat.{mod_self}
use asiaccs.Base.{ℕ, zero, suc, ◌+◌, ◌-◌, ◌*◌, ◌%◌, ◌^◌, ◌≤◌, ◌<◌}
use asiaccs.Base.{◌≡◌, refl, sym, ap, ◌∙◌, ◌≢◌, ◌⊎◌, inl, inr, arith}
use asiaccs.Base.{Bool, true, false, Option, none, some, List, [], ◌∷◌}
use asiaccs.Base.{ltb, ◌==◌, if◌then◌else◌, ==_iff, Bool-cases}
use asiaccs.Base.{u32}

-- `while (i * i < uiBase)` for at most `fuel` rounds; `none` when they did not suffice.
unfoldable pub prime_loop : (fuel : ℕ) → ℕ → ℕ → Option Bool
prime_loop zero base i = none
prime_loop (suc fuel) base i =
    let rest = prime_loop fuel base (u32 (i + 2)) in
    if ltb (u32 (i * i)) base then (if base % i == 0 then some false else rest) else some true

-- `bPrime`, with fuel for all candidates up to the number itself.
unfoldable pub b_prime : ℕ → Option Bool
unfolding prime_loop
b_prime base = let answer = prime_loop base base 3 in if ltb base 9 then some false else answer

-- `InitPrime` from `uiW` down, with `left` floors to go. At zero it gives up, also when the last
-- floor was found in this round.
unfoldable pub init_primes : (w : ℕ) → ℕ → Option (List ℕ)
unfolding b_prime
init_primes zero left = none
init_primes (suc w) zero = some []
init_primes (suc w) (suc left) =
    let taken = init_primes w left in
    let passed = init_primes w (suc left) in
    let good = if suc w % 2 == 0 then some false else b_prime (suc w) in
    elim good [
      | none ↦ none
      | some take ↦
          if w == 0
          then none
          else if take
          then elim taken [ none ↦ none | some ps ↦ some (suc w ∷ ps) ]
          else passed
    ]

-- The loop of `bPrime` on an odd number below 2^32 - 2 ends: the candidates reach the number itself.
prime_loop-ends :
    (fuel base i : ℕ)
    → base < 2 ^ 32 - 2
    → base % 2 ≡ 1
    → i % 2 ≡ 1
    → i ≤ base
    → base < i + 2 * fuel
    → (b : Bool) × (prime_loop fuel base i ≡ some b)
unfolding prime_loop
prime_loop-ends zero base i small ob oi le enough = absurd (omega (arith, le, enough))
prime_loop-ends (suc fuel) base i small ob oi le enough =
    let next : u32 (i + 2) ≡ i + 2 = omega (arith, small, le) in
    elim (Bool-cases (ltb (u32 (i * i)) base)) [
      | inr e ↦ (true, rw e refl)
      | inl e ↦ elim (Bool-cases (base % i == 0)) [
        | inl d ↦ (false, rw (e, d) refl)
        | inr d ↦
            let less : i < base = below (Nat_cases i base) d in
            let (b, runs) =
              prime_loop-ends fuel base (i + 2) small ob (omega (arith, oi))
                (omega (arith, less, ob, oi)) (omega (arith, enough)) in
            (b, rw (e, d) (ap (prime_loop fuel base) next ∙ runs))
      ]
    ]
  where
    Nat_cases : (a c : ℕ) → (a ≡ c) ⊎ (a ≢ c)
    Nat_cases a c = elim (Bool-cases (a == c)) [
      | inl e ↦ inl ((==_iff a c).0 e)
      | inr e ↦ inr (ground (arith, e))
    ]

    below : (i ≡ base) ⊎ (i ≢ base) → (base % i == 0) ≡ false → i < base
    below (inl same) d = absurd (
        true≢false
          (sym (ap (λ (t : ℕ). t == 0) (ap (λ (t : ℕ). base % t) same ∙ mod_self base)) ∙ d))
    below (inr apart) d = omega (arith, apart, le)

-- `bPrime` decides every odd number below 2^32 - 2: its loop ends.
pub b_prime-ends :
    (base : ℕ) → base < 2 ^ 32 - 2 → base % 2 ≡ 1 → (b : Bool) × (b_prime base ≡ some b)
unfolding b_prime
b_prime-ends base small odd = elim (Bool-cases (ltb base 9)) [
  | inl e ↦ (false, rw e refl)
  | inr e ↦
      let (b, runs) =
        prime_loop-ends base base 3 small odd refl (ground (arith, e)) (ground (arith, e)) in
      (b, rw e runs)
]
