-- ===== src/Caravel/BukHash.antt =====
-- Caravel/BukHash.h: a hash table of several floors. A floor has a prime number of items, and a key has
-- one place on each floor.
pub mod Probes
pub mod Count
pub mod Create
pub mod Primes
use asiaccs.Base.{ℕ, zero, suc, ◌+◌, ◌-◌, ◌*◌, ◌/◌, ◌%◌, ◌^◌, ◌≤◌, ◌<◌, bit_and, bit_or, bit_xor}
use asiaccs.Base.{◌≡◌, refl, sym, ap, ap₂, ◌∙◌, subst, ◌≢◌, ◌↔◌, ◌⊎◌, inl, inr, arith}
use asiaccs.Base.{Bool, true, false, ◌&&◌, ◌||◌, not, Option, none, some, List, [], ◌∷◌, ◌++◌, map}
use asiaccs.Base.{ltb, leb, ◌==◌, if◌then◌else◌, ==_iff, ltb_iff, Bool-cases, Option-cases}
use asiaccs.Base.{u8, u32, u64, sub32, shl64, shr, all_below, length, get_or, get_elem?, set}
use asiaccs.Base.{tabulate, length-append, length-tabulate, get_or-tabulate, length-map, get_or-map}
use asiaccs.Base.{map-tabulate, mod_of_split, div_of_split, pow_le, pow_pos, pow_add, pow_256}
use asiaccs.Base.{
  bytes_hold, pair_lt, ErrorCode, Outcome, ok, err, fault, ◌>>=◌, ◌>>◌, guard, require,
}
use asiaccs.Base.{guard_pass, guard_stop, get_or-tabulate_zero}

-- The place a search for a key ends at: it holds the key, it is free, or there is none.
pub data Probe : Type 0 where
  hit vacant : ℕ → Probe
  full : Probe

-- The key and the value of each item, the floors and the count; a key of 0 is a free item.
pub record BukHash {ℓ} (T : Type ℓ) : Type ℓ where
  pub keys : ℕ → ℕ
  pub values : ℕ → T
  pub primes : List ℕ
  pub num : ℕ

-- The search through the floors that `New`, `Get` and `Set` make, from the floor at `base` on.
unfoldable pub probe : (ℕ → ℕ) → List ℕ → ℕ → ℕ → Probe
probe keys [] base key = full
probe keys (p ∷ ps) base key =
    let pos = base + key % p in
    let rest = probe keys ps (base + p) key in
    if keys pos == key then hit pos else if keys pos == 0 then vacant pos else rest

-- `uiSum` of `InitPrime`, which is `m_uiAllNum`: the floors summed up in 32 bits.
unfoldable pub sum : List ℕ → ℕ
sum [] = 0
sum (p ∷ ps) = u32 (p + sum ps)

-- Where the floors end, with no wrap-around.
unfoldable pub end_of : List ℕ → ℕ
end_of [] = 0
end_of (p ∷ ps) = p + end_of ps

-- Without wrap-around the sum is where the floors end.
pub sum-end_of : (ps : List ℕ) → end_of ps < 2 ^ 32 → sum ps ≡ end_of ps
unfolding sum end_of
sum-end_of [] small = refl
sum-end_of (p ∷ ps) small =
    let rest = sum-end_of ps (omega (arith, small)) in omega (arith, rest, small)

-- The items in use among the first `n`.
unfoldable pub used : (ℕ → ℕ) → (n : ℕ) → ℕ
used keys zero = 0
used keys (suc n) = let before = used keys n in if keys n == 0 then before else suc before

module _ {ℓ} {T : Type ℓ} where
  -- `pItem->key = key; m_uiNum++`
  abbrev pub occupy : BukHash T → ℕ → ℕ → BukHash T
  occupy h pos key = record h {
    keys = λ i. if i == pos then key else h.keys i;
    num = u32 (h.num + 1);
  }

  abbrev pub put_value : BukHash T → ℕ → T → BukHash T
  put_value h pos v = record h { values = λ i. if i == pos then v else h.values i }

  -- `New`: the item and whether it is new, or nothing when no floor has room.
  unfoldable pub new_item : BukHash T → ℕ → Option (ℕ × Bool) × BukHash T
  unfolding probe
  new_item h key = elim (probe h.keys h.primes 0 key) [
    | hit pos ↦ (some (pos, false), h)
    | vacant pos ↦ (some (pos, true), occupy h pos key)
    | full ↦ (none, h)
  ]

  -- `Get`: the item of a key, made if asked for.
  unfoldable pub get_item : BukHash T → ℕ → Bool → Option ℕ × BukHash T
  unfolding probe
  get_item h key create = elim (probe h.keys h.primes 0 key) [
    | hit pos ↦ (some pos, h)
    | vacant pos ↦ if create then (some pos, occupy h pos key) else (none, h)
    | full ↦ (none, h)
  ]

  -- `Set`
  unfoldable pub set_item : BukHash T → ℕ → T → Bool × BukHash T
  unfolding probe
  set_item h key v = elim (probe h.keys h.primes 0 key) [
    | hit pos ↦ (true, put_value h pos v)
    | vacant pos ↦ (true, put_value (occupy h pos key) pos v)
    | full ↦ (false, h)
  ]

  -- The value that `Get` without creation points to.
  unfoldable pub lookup : BukHash T → ℕ → Option T
  unfolding get_item
  lookup h key = elim ((get_item h key false).0) [ none ↦ none | some pos ↦ some (h.values pos) ]

  -- `GetRealNum`
  unfoldable pub get_real_num : BukHash T → ℕ × BukHash T
  unfolding used sum
  get_real_num h = let n = used h.keys (sum h.primes) in (n, record h { num = n })
