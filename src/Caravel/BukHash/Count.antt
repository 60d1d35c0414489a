-- ===== src/Caravel/BukHash/Count.antt =====
-- Caravel/BukHash.h: the counter of the table.
use asiaccs.Base.{ℕ, zero, suc, ◌^◌, ◌≤◌, ◌<◌}
use asiaccs.Base.{◌≡◌, refl, sym, ap, ◌∙◌, subst, ◌≢◌, inl, inr, arith}
use asiaccs.Base.{Bool, true, false}
use asiaccs.Base.{◌==◌, if◌then◌else◌, ==_iff, Bool-cases}
use asiaccs.Caravel.BukHash.{
  BukHash, probe, sum, end_of, sum-end_of, used, occupy, new_item, get_item, set_item, get_real_num,
}
use asiaccs.Caravel.BukHash.Probes.{HasFloors, AnswersAt, probe-AnswersAt, Probe-cases}

-- One item changed from free to used is counted once.
used_below :
    (keys : ℕ → ℕ) (n pos key : ℕ)
    → n ≤ pos
    → used (λ i. if i == pos then key else keys i) n ≡ used keys n
unfolding used
used_below keys zero pos key h = refl
used_below keys (suc n) pos key h =
    let other : (n == pos) ≡ false = ground (arith, h) in
    rw (other, used_below keys n pos key (omega (arith, h))) refl

used_occupy :
    (keys : ℕ → ℕ) (n pos key : ℕ)
    → pos < n
    → keys pos ≡ 0
    → key ≢ 0
    → used (λ i. if i == pos then key else keys i) n ≡ suc (used keys n)
unfolding used
used_occupy keys zero pos key h free nonzero = absurd (omega (arith, h))
used_occupy keys (suc n) pos key h free nonzero = elim (Bool-cases (n == pos)) [
  | inl e ↦
      let same : n ≡ pos = (==_iff n pos).0 e in
      let there : (key == 0) ≡ false = ground (arith, nonzero) in
      let before : (keys n == 0) ≡ true =
        ap (λ k. keys k == 0) same ∙ ap (λ (k : ℕ). k == 0) free in
      rw (e, there, before, used_below keys n pos key (omega (arith, same))) refl
  | inr e ↦
      let below : pos < n = ground (arith, e, h) in
      let rest = used_occupy keys n pos key below free nonzero in
      elim (Bool-cases (keys n == 0)) [
        | inl f ↦ rw (e, f, rest) refl
        | inr f ↦ rw (e, f, rest) refl
      ]
]

used_le : (keys : ℕ → ℕ) (n : ℕ) → used keys n ≤ n
unfolding used
used_le keys zero = omega arith
used_le keys (suc n) = elim (Bool-cases (keys n == 0)) [
  | inl e ↦ rw e (omega (arith, used_le keys n))
  | inr e ↦ rw e (omega (arith, used_le keys n))
]

-- A free item leaves room.
used_lt : (keys : ℕ → ℕ) (n pos : ℕ) → pos < n → keys pos ≡ 0 → used keys n < n
used_lt keys n pos inside free =
    let more = used_occupy keys n pos 1 inside free (omega arith) in
    omega (arith, more, used_le (λ i. if i == pos then 1 else keys i) n)

-- The counter is the number of items in use.
abbrev pub IsCounted {ℓ} : {T : Type ℓ} → BukHash T → Type 0
IsCounted h = h.num ≡ used h.keys (sum h.primes)

module _ {ℓ} {T : Type ℓ} where
  occupy-IsCounted :
      (h : BukHash T) (pos key : ℕ)
      → sum h.primes < 2 ^ 32
      → pos < sum h.primes
      → h.keys pos ≡ 0
      → key ≢ 0
      → used h.keys (sum h.primes) < sum h.primes
      → IsCounted h
      → IsCounted (occupy h pos key)
  occupy-IsCounted h pos key small inside free nonzero room counted =
      let more = used_occupy h.keys (sum h.primes) pos key inside free nonzero in
      omega (arith, more, counted, small, room)

  -- On a table with items on every floor, fewer than 2^32 in all, that is counted, and for a key that is
  -- not zero: `New`, `Get` and `Set` keep the counter equal to the number of items in use, and
  -- `GetRealNum` returns the counter and changes nothing.
  pub num-IsCounted :
      (h : BukHash T) (key : ℕ) (v : T) (create : Bool)
      → HasFloors h.primes
      → end_of h.primes < 2 ^ 32
      → key ≢ 0
      → IsCounted h
      → IsCounted (new_item h key).1
        × IsCounted (get_item h key create).1
        × IsCounted (set_item h key v).1
        × (get_real_num h ≡ (h.num, h))
  unfolding new_item get_item set_item get_real_num
  num-IsCounted h key v create floors small nonzero counted =
      let counter : get_real_num h ≡ (h.num, h) =
        ap (λ n. (n, record h { num = n })) (sym counted) in
      elim (Probe-cases (probe h.keys h.primes 0 key)) [
        | inl (pos, e) ↦ rw (e, new_item, get_item, set_item) (counted, counted, counted, counter)
        | inr (inl (pos, e)) ↦
            let (_, below, free) =
              subst (AnswersAt h.keys h.primes 0 key (sum h.primes)) e
                (probe-AnswersAt h.keys h.primes key floors small) in
            let fits : sum h.primes < 2 ^ 32 = omega (arith, sum-end_of h.primes small, small) in
            let more =
              occupy-IsCounted h pos key fits below free nonzero
                (used_lt h.keys (sum h.primes) pos below free) counted in
            rw (e, new_item, get_item, set_item)
              (
                more,
                elim (Bool-cases create) [ inl c ↦ rw c more | inr c ↦ rw c counted ],
                more,
                counter,
              )
        | inr (inr e) ↦ rw (e, new_item, get_item, set_item) (counted, counted, counted, counter)
      ]
