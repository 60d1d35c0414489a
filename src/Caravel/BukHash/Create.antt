-- ===== src/Caravel/BukHash/Create.antt =====
-- Caravel/BukHash.h, `Create` and the cursor.
use asiaccs.Base.{ℕ, zero, suc, ◌-◌, ◌*◌, ◌%◌, ◌^◌, ◌≤◌, ◌<◌, ◌≡◌, refl, sym, ◌∙◌, arith, inl, inr}
use asiaccs.Base.{
  Bool, true, false, ◌&&◌, Option, none, some, List, [], ◌∷◌, Bool-cases, Option-cases,
}
use asiaccs.Base.{subst, ◌==◌, ltb, ltb_iff, if◌then◌else◌, length}
use asiaccs.Caravel.BukHash.{BukHash, sum, end_of, sum-end_of, used}
use asiaccs.Caravel.BukHash.Primes.{b_prime, init_primes}
use asiaccs.Caravel.BukHash.Probes.{HasFloors}
use asiaccs.Caravel.BukHash.Count.{IsCounted}

-- `InitPrime`; from a width of 0 it goes on at 2^32 - 1.
unfoldable pub init_prime : ℕ → ℕ → Option (List ℕ)
unfolding init_primes
init_prime w l = if w == 0 then init_primes (2 ^ 32 - 1) l else init_primes w l

module _ {ℓ} {T : Type ℓ} where
  -- `Create` on memory with the given keys and values; `memset` covers `uiSum` items, and `empty` is the
  -- value of zero bytes. `none` when it returns false.
  unfoldable pub create : T → (ℕ → ℕ) → (ℕ → T) → Bool → ℕ → ℕ → Option (BukHash T)
  unfolding init_prime sum
  create empty keys values zeroed w l = elim (init_prime w l) [
    | none ↦ none
    | some primes ↦
        let h : BukHash T = record {
          keys = λ i. if zeroed && ltb i (sum primes) then 0 else keys i;
          values = λ i. if zeroed && ltb i (sum primes) then empty else values i;
          primes = primes;
          num = 0;
        } in
        if sum primes == 0 then none else some h
  ]

  -- `Next` from the cursor on: the key, the value and the cursor after it.
  abbrev pub next : BukHash T → ℕ → ((ℕ × T) × ℕ)
  next h cur = ((h.keys cur, h.values cur), suc cur)

module _ {ℓ} {T : Type ℓ} where
  -- `NextVal` with `left` items to the end: items that are free are passed over. `none` when it reads
  -- behind the end.
  unfoldable pub next_val : BukHash T → (left : ℕ) → ℕ → Option ((ℕ × T) × ℕ)
  next_val h zero cur = none
  next_val h (suc left) cur =
      let rest = next_val h left (suc cur) in if h.keys cur == 0 then rest else some (next h cur)

-- Floors in descending order, each odd, above 8 and at most `top`.
abbrev pub Descending : ℕ → List ℕ → Type 0
Descending top [] = Unit {0}
Descending top (p ∷ ps) = (p ≤ top) × (8 < p) × (p % 2 ≡ 1) × Descending (p - 1) ps

Descending-weaken : (a c : ℕ) (ps : List ℕ) → a ≤ c → Descending a ps → Descending c ps
Descending-weaken a c [] le d = tt
Descending-weaken a c (p ∷ ps) le (top, big, odd, d) = (omega (arith, le, top), big, odd, d)

Descending-HasFloors : (top : ℕ) (ps : List ℕ) → Descending top ps → HasFloors ps
Descending-HasFloors top [] d = tt
Descending-HasFloors top (p ∷ ps) (le, big, odd, d) =
    (omega (arith, big), Descending-HasFloors (p - 1) ps d)

b_prime-big : (n : ℕ) → b_prime n ≡ some true → 8 < n
unfolding b_prime
b_prime-big n h = elim (Bool-cases (ltb n 9)) [
  | inl e ↦ let small : some false ≡ some true = rw e at h in absurd (cc small)
  | inr e ↦ ground (arith, e)
]

-- A floor in front of the ones below it.
Descending-cons :
    (w : ℕ) (qs ps : List ℕ)
    → 8 < suc w
    → suc w % 2 ≡ 1
    → Descending w qs
    → some (suc w ∷ qs) ≡ some ps
    → Descending (suc w) ps × (length ps ≡ suc (length qs))
Descending-cons w qs ps big odd d e =
    let it : suc w ∷ qs ≡ ps = cc e in
    subst (λ l. Descending (suc w) l × (length l ≡ suc (length qs))) it
      ((omega arith, big, odd, Descending-weaken w (suc w - 1) qs (omega arith) d), refl)

init_primes-Descending :
    (w left : ℕ) (ps : List ℕ) → init_primes w left ≡ some ps → Descending w ps × (length ps ≡ left)
unfolding init_primes
init_primes-Descending zero left ps h = absurd (cc h)
init_primes-Descending (suc w) zero ps h =
    let it : [] ≡ ps = cc h in subst (λ l. Descending (suc w) l × (length l ≡ 0)) it (tt, refl)
init_primes-Descending (suc w) (suc left) ps h = elim (Bool-cases (suc w % 2 == 0)) [
  | inl even ↦ elim (Bool-cases (w == 0)) [
    | inl z ↦ let ended : none ≡ some ps = rw (even, z, init_primes) at h in absurd (cc ended)
    | inr nz ↦ skipped (init_primes-Descending w (suc left) ps (rw (even, nz, init_primes) at h))
  ]
  | inr odd ↦ elim (Option-cases (b_prime (suc w))) [
    | inl b ↦ let ended : none ≡ some ps = rw (odd, b, init_primes) at h in absurd (cc ended)
    | inr (true, b) ↦ elim (Bool-cases (w == 0)) [
      | inl z ↦ let ended : none ≡ some ps = rw (odd, b, z, init_primes) at h in absurd (cc ended)
      | inr nz ↦ elim (Option-cases (init_primes w left)) [
        | inl t ↦
            let ended : none ≡ some ps = rw (odd, b, nz, t, init_primes) at h in absurd (cc ended)
        | inr (qs, t) ↦
            let (d, size) = init_primes-Descending w left qs t in
            let (d', size') =
              Descending-cons w qs ps (b_prime-big (suc w) b) (ground (arith, odd)) d
                (rw (odd, b, nz, t, init_primes) at h) in
            (d', omega (arith, size, size'))
      ]
    ]
    | inr (false, b) ↦ elim (Bool-cases (w == 0)) [
      | inl z ↦ let ended : none ≡ some ps = rw (odd, b, z, init_primes) at h in absurd (cc ended)
      | inr nz ↦
          skipped (init_primes-Descending w (suc left) ps (rw (odd, b, nz, init_primes) at h))
    ]
  ]
]
  where
    skipped :
        Descending w ps × (length ps ≡ suc left) → Descending (suc w) ps × (length ps ≡ suc left)
    skipped (d, size) = (Descending-weaken w (suc w) ps (omega arith) d, size)

-- Descending floors from `top` on end before `top` times their number.
Descending-end_of : (top : ℕ) (ps : List ℕ) → Descending top ps → end_of ps ≤ top * length ps
unfolding end_of
Descending-end_of top [] d = omega arith
Descending-end_of top (p ∷ ps) (le, big, odd, d) =
    let rest = Descending-end_of top ps (Descending-weaken (p - 1) top ps (omega (arith, le)) d) in
    grind (arith, rest, le)

not_below : (i m : ℕ) → m ≤ i → ltb i m ≡ false
not_below i m le = ground (arith, le)

used-free : (keys : ℕ → ℕ) (n m : ℕ) → n ≤ m → used (λ i. if ltb i m then 0 else keys i) n ≡ 0
unfolding used
used-free keys zero m le = refl
used-free keys (suc n) m le =
    let inside : ltb n m ≡ true = ground (arith, le) in
    rw inside (used-free keys n m (omega (arith, le)))

init_prime-init_primes : (w l : ℕ) → 0 < w → init_prime w l ≡ init_primes w l
unfolding init_prime
init_prime-init_primes w l positive =
    let other : (w == 0) ≡ false = ground (arith, positive) in rw other refl

-- What holds of a new table on memory that had the given keys: its floors, which fit in 32 bits; every
-- item is free, the memory behind them is left alone, and the table is counted.
abbrev pub IsNew {ℓ} : {T : Type ℓ} → (ℕ → ℕ) → ℕ → ℕ → BukHash T → Type 0
IsNew keys w l h =
    Descending w h.primes
    × HasFloors h.primes
    × (length h.primes ≡ l)
    × (end_of h.primes < 2 ^ 32)
    × ((i : ℕ) → i < end_of h.primes → h.keys i ≡ 0)
    × ((i : ℕ) → end_of h.primes ≤ i → h.keys i ≡ keys i)
    × (h.num ≡ 0)
    × IsCounted h

-- For a width that is not zero, with width times floors below 2^32, a table that `Create` makes on
-- memory that it zeroes has the wanted number of floors, in descending order, each odd, above 8 and at
-- most `w`, with fewer than 2^32 items in all. Every item is free, the memory behind the floors has the
-- keys it had, and the counter is zero, which is the number of items in use.
pub create-IsNew {ℓ} :
    {T : Type ℓ} (empty : T) (keys : ℕ → ℕ) (values : ℕ → T) (w l : ℕ) (h : BukHash T)
    → 0 < w
    → w * l < 2 ^ 32
    → create empty keys values true w l ≡ some h
    → IsNew keys w l h
unfolding create
create-IsNew {T} empty keys values w l h positive small made =
    elim (Option-cases (init_prime w l)) [
      | inl e ↦ let failed : none ≡ some h = rw (e, create) at made in absurd (cc failed)
      | inr (ps, e) ↦ elim (Bool-cases (sum ps == 0)) [
        | inl f ↦ let failed : none ≡ some h = rw (e, create, f) at made in absurd (cc failed)
        | inr f ↦
            let it : some (zeroed ps) ≡ some h = rw (e, create, f) at made in
            let which : zeroed ps ≡ h = cc it in
            subst (IsNew keys w l) which (
              zeroed-IsNew ps
                (init_primes-Descending w l ps (sym (init_prime-init_primes w l positive) ∙ e)))
      ]
    ]
  where
    zeroed : List ℕ → BukHash T
    zeroed ps = record {
      keys = λ i. if ltb i (sum ps) then 0 else keys i;
      values = λ i. if ltb i (sum ps) then empty else values i;
      primes = ps;
      num = 0;
    }

    zeroed-IsNew : (ps : List ℕ) → Descending w ps × (length ps ≡ l) → IsNew keys w l (zeroed ps)
    zeroed-IsNew ps (d, size) =
        let bound : end_of ps ≤ w * length ps = Descending-end_of w ps d in
        let fits : end_of ps < 2 ^ 32 = grind (arith, bound, size, small) in
        let exact = sum-end_of ps fits in
        (
          d,
          Descending-HasFloors w ps d,
          size,
          fits,
          λ i less.
              let inside : ltb i (sum ps) ≡ true =
                (ltb_iff i (sum ps)).1 (omega (arith, exact, less)) in
              rw inside refl,
          λ i le.
              let behind : ltb i (sum ps) ≡ false =
                not_below i (sum ps) (omega (arith, exact, le)) in
              rw behind refl,
          refl,
          sym (used-free keys (sum ps) (sum ps) (omega arith)),
        )
