-- ===== src/Fastore/Prp/Inverse.antt =====
-- The permutation as arithmetic on the two halves, and that each direction undoes the other.
use native.Mathlib.Nat.{mod-lt, mod-eq_of_lt, div-add-mod', div-lt_iff_lt-mul}
use asiaccs.Base.{ℕ, ◌+◌, ◌-◌, ◌*◌, ◌/◌, ◌%◌, ◌^◌, ◌≤◌, ◌<◌, bit_and, bit_or}
use asiaccs.Base.{◌≡◌, ap, ◌∙◌, arith}
use asiaccs.Base.{Bool, true, false, ◌&&◌, not, [], ◌∷◌}
use asiaccs.Base.{leb, ◌==◌}
use asiaccs.Base.{shl64}
use asiaccs.Base.{mod_of_split, div_of_split, pow_le, pow_pos, pow_add}
use asiaccs.Base.{bytes_hold, pair_lt, ok, ◌>>=◌}
use asiaccs.Bits.{bit_and_mask, bit_and_shifted, bit_or-disjoint}
use asiaccs.Fastore.Platform.{Platform}
use asiaccs.Fastore.Aes.{OreAesKey}
use asiaccs.Fastore.Prp.{extract_blocks, join_blocks, ones64, swap_if, in_order, rounds}
use asiaccs.Fastore.Prp.{feistel_round, prp_key_expand, prp_eval_helper, prp_eval}
use asiaccs.Fastore.Prp.Feistel.{shl64_one, InRange, swap, feistel_round_undo, rounds-InRange}

-- The two halves of a number of `nbits` bits.
abbrev pub halves : ℕ → ℕ → ℕ × ℕ
halves nbits x = (x / 2 ^ (nbits / 2), x % 2 ^ (nbits / 2))

abbrev pub whole : ℕ → ℕ × ℕ → ℕ
whole nbits s = s.0 * 2 ^ (nbits / 2) + s.1

pub square_pow : (nbits : ℕ) → nbits % 2 ≡ 0 → 2 ^ nbits ≡ 2 ^ (nbits / 2) * 2 ^ (nbits / 2)
square_pow nbits even = ap (λ (t : ℕ). 2 ^ t) (omega arith) ∙ pow_add (nbits / 2) (nbits / 2)

pub ones64_lem : (len : ℕ) → len < 64 → ones64 len ≡ 2 ^ len - 1
ones64_lem len h =
    let small : 2 ^ len ≤ 2 ^ 63 = pow_le len 63 (omega arith) in
    omega (arith, shl64_one len h, pow_pos len)

module _ (nbits : ℕ) (even : nbits % 2 ≡ 0) (fits : nbits ≤ 64) where
  pub halves-InRange : (x : ℕ) → x < 2 ^ nbits → InRange nbits (halves nbits x)
  halves-InRange x h = (
    (div-lt_iff_lt-mul (pow_pos (nbits / 2))).1 (omega (arith, square_pow nbits even)),
    mod-lt x (pow_pos (nbits / 2)),
  )

  pub whole-lt : (s : ℕ × ℕ) → InRange nbits s → whole nbits s < 2 ^ nbits
  whole-lt s h = omega (arith, square_pow nbits even, pair_lt h.0 h.1)

  pub halves-whole : (s : ℕ × ℕ) → InRange nbits s → halves nbits (whole nbits s) ≡ s
  halves-whole s h = λ i. (div_of_split _ s.0 s.1 h.1 i, mod_of_split _ s.0 s.1 h.1 i)

  pub whole-halves : (x : ℕ) → whole nbits (halves nbits x) ≡ x
  whole-halves x = div-add-mod' x (2 ^ (nbits / 2))

  -- `mask_r << len` keeps all its bits.
  mask_l-eq : shl64 (2 ^ (nbits / 2) - 1) (nbits / 2) ≡ (2 ^ (nbits / 2) - 1) * 2 ^ (nbits / 2)
  mask_l-eq =
      let pos = pow_pos (nbits / 2) in
      let below : (2 ^ (nbits / 2) - 1) * 2 ^ (nbits / 2) + 0 < 2 ^ (nbits / 2) * 2 ^ (nbits / 2) =
        pair_lt (omega (arith, pos)) pos in
      mod-eq_of_lt (omega (arith, below, square_pow nbits even, pow_le nbits 64 fits))

  pub extract_blocks-halves : (x : ℕ) → x < 2 ^ nbits → extract_blocks x nbits ≡ halves nbits x
  unfolding extract_blocks
  extract_blocks-halves x h =
      let len = nbits / 2 in
      rw (mod-eq_of_lt (bytes_hold nbits h), ones64_lem len (omega arith), mask_l-eq)
        (λ i. (left i, bit_and_mask len x i))
    where
      left :
          bit_and x ((2 ^ (nbits / 2) - 1) * 2 ^ (nbits / 2)) / 2 ^ (nbits / 2)
          ≡ x / 2 ^ (nbits / 2)
      left =
          bit_and_shifted (nbits / 2) x (2 ^ (nbits / 2) - 1)
          ∙ bit_and_mask (nbits / 2) (x / 2 ^ (nbits / 2))
          ∙ mod-eq_of_lt (halves-InRange x h).0

  pub join_blocks-whole : (s : ℕ × ℕ) → InRange nbits s → join_blocks nbits s ≡ whole nbits s
  join_blocks-whole s h =
      let small = whole-lt s h in
      let room : s.0 * 2 ^ (nbits / 2) < 2 ^ 64 = omega (arith, small, pow_le nbits 64 fits) in
      ap (λ (t : ℕ). bit_or t s.1) (mod-eq_of_lt room) ∙ bit_or-disjoint (nbits / 2) s.0 s.1 h.1

width_ok : (nbits : ℕ) → nbits % 2 ≡ 0 → nbits ≤ 64 → (nbits % 2 == 0 && leb nbits 64) ≡ true
width_ok nbits even fits = ground arith

module _ ⦃p : Platform⦄ where
  -- Three rounds with the keys in reverse order undo three rounds.
  rounds_undo :
      (nbits : ℕ) (a b c : OreAesKey) (s : ℕ × ℕ)
      → rounds nbits (c ∷ b ∷ a ∷ []) (swap (rounds nbits (a ∷ b ∷ c ∷ []) s)) ≡ swap s
  unfolding rounds
  rounds_undo nbits a b c s =
      let after_a = feistel_round a nbits s in
      let after_b = feistel_round b nbits after_a in
      ap (λ t. feistel_round a nbits (feistel_round b nbits t)) (feistel_round_undo c nbits after_b)
      ∙ ap (feistel_round a nbits) (feistel_round_undo b nbits after_a)
      ∙ feistel_round_undo a nbits s

  -- The permutation as a function, in either direction.
  unfoldable pub perm : OreAesKey → ℕ → Bool → ℕ → ℕ
  perm key nbits inv x = whole nbits (
      swap_if inv (rounds nbits (in_order inv (prp_key_expand key)) (swap_if inv (halves nbits x))))

  swap_if-InRange :
      (nbits : ℕ) (inv : Bool) (s : ℕ × ℕ) → InRange nbits s → InRange nbits (swap_if inv s)
  swap_if-InRange nbits true s h = (h.1, h.0)
  swap_if-InRange nbits false s h = h

  module _ (key : OreAesKey) (nbits : ℕ) (even : nbits % 2 ≡ 0) (fits : nbits ≤ 64) where
    pub perm_halves-InRange :
        (inv : Bool) (x : ℕ)
        → x < 2 ^ nbits
        → InRange nbits (
            swap_if inv
              (rounds nbits (in_order inv (prp_key_expand key)) (swap_if inv (halves nbits x))))
    perm_halves-InRange inv x h = swap_if-InRange nbits inv _ (
        rounds-InRange nbits _ _ fits
          (swap_if-InRange nbits inv _ (halves-InRange nbits even fits x h)))

    pub perm-lt : (inv : Bool) (x : ℕ) → x < 2 ^ nbits → perm key nbits inv x < 2 ^ nbits
    unfolding perm
    perm-lt inv x h = whole-lt nbits even fits _ (perm_halves-InRange inv x h)

    -- On an even width of at most 64 bits the code returns the permutation.
    pub prp_eval_helper-perm :
        (inv : Bool) (x : ℕ)
        → x < 2 ^ nbits
        → prp_eval_helper key x nbits inv ≡ ok (perm key nbits inv x)
    unfolding prp_eval_helper perm
    prp_eval_helper-perm inv x h =
        rw
          (
            width_ok nbits even fits,
            extract_blocks-halves nbits even fits x h,
            join_blocks-whole nbits even fits _ (perm_halves-InRange inv x h),
          )
          (ap ok (
            mod-eq_of_lt
              (bytes_hold nbits (whole-lt nbits even fits _ (perm_halves-InRange inv x h)))))

    pub prp_eval-perm : (x : ℕ) → x < 2 ^ nbits → prp_eval key x nbits ≡ ok (perm key nbits false x)
    unfolding prp_eval
    prp_eval-perm x h = prp_eval_helper-perm false x h

    -- The other direction undoes it.
    pub perm_undo :
        (inv : Bool) (x : ℕ) → x < 2 ^ nbits → perm key nbits (not inv) (perm key nbits inv x) ≡ x
    unfolding perm
    perm_undo true x h =
        let (a, b, c) = prp_key_expand key in
        rw
          (
            halves-whole nbits even fits _ (perm_halves-InRange true x h),
            rounds_undo nbits c b a (swap (halves nbits x)),
          )
          (whole-halves nbits even fits x)
    perm_undo false x h =
        let (a, b, c) = prp_key_expand key in
        ap (λ s. whole nbits (swap (rounds nbits (c ∷ b ∷ a ∷ []) (swap s))))
          (halves-whole nbits even fits _ (perm_halves-InRange false x h))
        ∙ ap (λ s. whole nbits (swap s)) (rounds_undo nbits a b c (halves nbits x))
        ∙ whole-halves nbits even fits x

    -- For an even width of at most 64 bits and a value of that width, the permutation and its inverse,
    -- in either order, give the value back, and neither returns an error.
    pub prp_eval_undo :
        (inv : Bool) (x : ℕ)
        → x < 2 ^ nbits
        → (prp_eval_helper key x nbits inv >>= λ y. prp_eval_helper key y nbits (not inv)) ≡ ok x
    prp_eval_undo inv x h = rw (prp_eval_helper-perm inv x h) (
        prp_eval_helper-perm (not inv) (perm key nbits inv x) (perm-lt inv x h)
        ∙ ap ok (perm_undo inv x h))
