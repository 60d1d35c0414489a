-- ===== src/Caravel/BukHash/Probes.antt =====
-- Caravel/BukHash.h: the search stays inside the table, and finds what was set.
use asiaccs.Base.{ℕ, ◌+◌, ◌%◌, ◌^◌, ◌≤◌, ◌<◌}
use asiaccs.Base.{◌≡◌, ◌≢◌, refl, sym, ap, ◌∙◌, subst, ◌⊎◌, inl, inr, arith}
use asiaccs.Base.{true, false, some, List, [], ◌∷◌}
use asiaccs.Base.{◌==◌, if◌then◌else◌, ==_iff, Bool-cases}
use native.Mathlib.Nat.{mod-lt}
use asiaccs.Caravel.BukHash.{
  BukHash, Probe, hit, vacant, full, probe, sum, end_of, sum-end_of, set_item, get_item, lookup,
}
use asiaccs.Caravel.BukHash.{occupy, put_value}

-- Every floor has an item.
abbrev pub HasFloors : List ℕ → Type 0
HasFloors [] = Unit {0}
HasFloors (p ∷ ps) = (0 < p) × HasFloors ps

-- The place of the key on every floor holds another key.
abbrev pub AllHeld : (ℕ → ℕ) → List ℕ → ℕ → ℕ → Type 0
AllHeld keys [] base key = Unit {0}
AllHeld keys (p ∷ ps) base key =
    (keys (base + key % p) ≢ key) × (keys (base + key % p) ≢ 0) × AllHeld keys ps (base + p) key

-- What a probe says of its position: where it is, and what it holds.
abbrev pub AnswersAt : (ℕ → ℕ) → List ℕ → ℕ → ℕ → ℕ → Probe → Type 0
AnswersAt keys ps base key end (hit pos) = (base ≤ pos) × (pos < end) × (keys pos ≡ key)
AnswersAt keys ps base key end (vacant pos) = (base ≤ pos) × (pos < end) × (keys pos ≡ 0)
AnswersAt keys ps base key end full = AllHeld keys ps base key

-- When every floor has an item, a search ends at an item of its floors that holds the key or is free,
-- or every floor's place holds another key.
pub probe-AnswersAt_from :
    (keys : ℕ → ℕ) (ps : List ℕ) (base key : ℕ)
    → HasFloors ps
    → AnswersAt keys ps base key (base + end_of ps) (probe keys ps base key)
unfolding probe end_of
probe-AnswersAt_from keys [] base key floors = tt
probe-AnswersAt_from keys (p ∷ ps) base key (pos, floors) =
    let at = base + key % p in
    let inside : key % p < p = mod-lt key pos in
    elim (Bool-cases (keys at == key)) [
      | inl e ↦ rw e (omega arith, omega (arith, inside), (==_iff (keys at) key).0 e)
      | inr e ↦ elim (Bool-cases (keys at == 0)) [
        | inl z ↦ rw (e, z) (omega arith, omega (arith, inside), (==_iff (keys at) 0).0 z)
        | inr z ↦
            rw (e, z)
              (later (ground (arith, e)) (ground (arith, z)) (probe keys ps (base + p) key)
                (probe-AnswersAt_from keys ps (base + p) key floors))
      ]
    ]
  where
    later :
        keys (base + key % p) ≢ key
        → keys (base + key % p) ≢ 0
        → (r : Probe) → AnswersAt keys ps (base + p) key (base + p + end_of ps) r
        → AnswersAt keys (p ∷ ps) base key (base + (p + end_of ps)) r
    later other held (hit k) (le, less, e) = (omega (arith, le), omega (arith, less), e)
    later other held (vacant k) (le, less, e) = (omega (arith, le), omega (arith, less), e)
    later other held full h = (other, held, h)

-- When every floor has an item and the floors have fewer than 2^32 items in all, the search of `New`,
-- `Get` and `Set` ends at one of the `m_uiAllNum` items of the table, which holds the key or is free,
-- or the place of the key on every floor holds another key.
pub probe-AnswersAt :
    (keys : ℕ → ℕ) (ps : List ℕ) (key : ℕ)
    → HasFloors ps
    → end_of ps < 2 ^ 32
    → AnswersAt keys ps 0 key (sum ps) (probe keys ps 0 key)
probe-AnswersAt keys ps key floors small =
    let size : 0 + end_of ps ≡ sum ps = omega (arith, sum-end_of ps small) in
    subst (λ n. AnswersAt keys ps 0 key n (probe keys ps 0 key)) size
      (probe-AnswersAt_from keys ps 0 key floors)

-- A probe only changes when an item at or after its floors does; once its free place holds the key
-- it ends there.
probe_after_occupy :
    (keys : ℕ → ℕ) (ps : List ℕ) (base key at : ℕ)
    → HasFloors ps
    → probe keys ps base key ≡ vacant at
    → probe (λ i. if i == at then key else keys i) ps base key ≡ hit at
unfolding probe
probe_after_occupy keys [] base key at floors e = cc
probe_after_occupy keys (p ∷ ps) base key at (pos, floors) e =
    let here = base + key % p in
    let inside : key % p < p = mod-lt key pos in
    elim (Bool-cases (keys here == key)) [
      | inl found ↦ absurd (hit≢vacant (sym (first_hit found) ∙ e))
      | inr lost ↦ elim (Bool-cases (keys here == 0)) [
        | inl free ↦
            let same : here ≡ at = vacant_at (sym (first_free lost free) ∙ e) in
            let taken : (here == at) ≡ true = (==_iff here at).1 same in
            let again : (key == key) ≡ true = (==_iff key key).1 refl in
            rw (taken, again) (ap hit same)
        | inr held ↦
            let later : probe keys ps (base + p) key ≡ vacant at = sym (passed lost held) ∙ e in
            let beyond : base + p ≤ at =
              (subst (AnswersAt keys ps (base + p) key (base + p + end_of ps)) later
                (probe-AnswersAt_from keys ps (base + p) key floors)).0 in
            let other : (here == at) ≡ false = ground (arith, beyond, inside) in
            rw (other, lost, held) (probe_after_occupy keys ps (base + p) key at floors later)
      ]
    ]
  where
    hit≢vacant : {a c : ℕ} → hit a ≡ vacant c → ⊥
    hit≢vacant h = cc

    vacant_at : {a c : ℕ} → vacant a ≡ vacant c → a ≡ c
    vacant_at h = cc

    first_hit :
        (keys (base + key % p) == key) ≡ true → probe keys (p ∷ ps) base key ≡ hit (base + key % p)
    first_hit h = rw h refl

    first_free :
        (keys (base + key % p) == key) ≡ false
        → (keys (base + key % p) == 0) ≡ true
        → probe keys (p ∷ ps) base key ≡ vacant (base + key % p)
    first_free h z = rw (h, z) refl

    passed :
        (keys (base + key % p) == key) ≡ false
        → (keys (base + key % p) == 0) ≡ false
        → probe keys (p ∷ ps) base key ≡ probe keys ps (base + p) key
    passed h z = rw (h, z) refl

pub Probe-cases :
    (r : Probe) → ((pos : ℕ) × (r ≡ hit pos)) ⊎ (((pos : ℕ) × (r ≡ vacant pos)) ⊎ (r ≡ full))
Probe-cases (hit pos) = inl (pos, refl)
Probe-cases (vacant pos) = inr (inl (pos, refl))
Probe-cases full = inr (inr refl)

lookup-hit {ℓ} :
    {T : Type ℓ} (h : BukHash T) (key pos : ℕ)
    → probe h.keys h.primes 0 key ≡ hit pos
    → lookup h key ≡ some (h.values pos)
unfolding lookup get_item
lookup-hit h key pos e = rw (e, get_item, lookup) refl

-- A value that `Set` has stored is what `Get` then points to, in a table whose floors have items;
-- `Set` fails exactly when the search finds no place, and then changes nothing.
pub set-lookup {ℓ} :
    {T : Type ℓ} (h : BukHash T) (key : ℕ) (v : T)
    → HasFloors h.primes
    → (((set_item h key v).0 ≡ true) × (lookup (set_item h key v).1 key ≡ some v))
      ⊎ ((probe h.keys h.primes 0 key ≡ full) × (set_item h key v ≡ (false, h)))
unfolding set_item
set-lookup h key v floors = elim (Probe-cases (probe h.keys h.primes 0 key)) [
  | inl (pos, e) ↦
      let stored : set_item h key v ≡ (true, put_value h pos v) = rw (e, set_item) refl in
      inl (
        ap (λ r. r.0) stored,
        ap (λ r. lookup r.1 key) stored ∙ lookup-hit (put_value h pos v) key pos e ∙ at_pos pos,
      )
  | inr (inl (pos, e)) ↦
      let filled = put_value (occupy h pos key) pos v in
      let stored : set_item h key v ≡ (true, filled) = rw (e, set_item) refl in
      let after = probe_after_occupy h.keys h.primes 0 key pos floors e in
      inl (
        ap (λ r. r.0) stored,
        ap (λ r. lookup r.1 key) stored ∙ lookup-hit filled key pos after ∙ at_pos pos,
      )
  | inr (inr e) ↦ inr (e, rw (e, set_item) refl)
]
  where
    at_pos : (pos : ℕ) → some (if pos == pos then v else h.values pos) ≡ some v
    at_pos pos = let same : (pos == pos) ≡ true = (==_iff pos pos).1 refl in rw same refl
