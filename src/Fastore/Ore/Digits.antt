-- ===== src/Fastore/Ore/Digits.antt =====
-- The blocks of a plaintext as its digits in base `2 ^ block_len`, most significant first: what the
-- mask and the prefix of the set-up loops hold.
use asiaccs.Base.{ℕ, zero, suc, ◌+◌, ◌-◌, ◌*◌, ◌/◌, ◌%◌, ◌^◌, ◌≤◌, ◌<◌, bit_or}
use asiaccs.Base.{◌≡◌, sym, ap, ◌∙◌, arith}
use asiaccs.Base.{shr}
use asiaccs.Base.{pow_le, pow_pos, pow_add}
use asiaccs.Base.{pair_lt}
use native.Mathlib.Nat.{
  mod-eq_of_lt, div-div-eq-div-mul, div-add-mod', div-le_self, mod-lt, div-eq_of_lt,
}
use native.Mathlib.Nat.{mul-suc, mul-div_cancel, div-one, mul-zero, mul-one}
use asiaccs.Bits.{bit_and_mask, bit_and_shifted, bit_or-disjoint}
use asiaccs.Fastore.Prp.Inverse.{ones64_lem}
use asiaccs.Fastore.Ore.{OreParams, blocks}
use asiaccs.Fastore.Ore.Sizes.{IsUsable}
use asiaccs.Fastore.Ore.Setup.{top_mask, cut_block, next_prefix}

module _ (bl : ℕ) where
  -- The value above its last `left` digits.
  pub lead : ℕ → ℕ → ℕ
  lead x left = x / 2 ^ (bl * left)

  -- The digit that follows `lead x (suc left)`.
  pub digit : ℕ → ℕ → ℕ
  unfolding lead
  digit x left = lead x left % 2 ^ bl

  -- The mask with `left` rounds to go.
  pub mask_at : ℕ → ℕ
  mask_at zero = 0
  mask_at (suc left) = (2 ^ bl - 1) * 2 ^ (bl * left)

  pub digit-lt : (x left : ℕ) → digit x left < 2 ^ bl
  unfolding digit
  digit-lt x left = mod-lt (lead x left) (pow_pos bl)

  lead-div : (x left : ℕ) → lead x left / 2 ^ bl ≡ lead x (suc left)
  unfolding lead
  lead-div x left =
      div-div-eq-div-mul x (2 ^ (bl * left)) (2 ^ bl)
      ∙ ap (λ (t : ℕ). x / t)
          (sym (pow_add (bl * left) bl) ∙ ap (λ (t : ℕ). 2 ^ t) (sym (mul-suc bl left)))

  -- A value is its prefix followed by its digit.
  pub lead_split : (x left : ℕ) → lead x left ≡ lead x (suc left) * 2 ^ bl + digit x left
  unfolding digit
  lead_split x left =
      sym (div-add-mod' (lead x left) (2 ^ bl))
      ∙ ap (λ (t : ℕ). t * 2 ^ bl + lead x left % 2 ^ bl) (lead-div x left)

  pub lead-zero : (x : ℕ) → lead x 0 ≡ x
  unfolding lead
  lead-zero x = ap (λ (t : ℕ). x / 2 ^ t) (mul-zero bl) ∙ div-one x

  pub lead_top : (x n : ℕ) → x < 2 ^ (bl * n) → lead x n ≡ 0
  unfolding lead
  lead_top x n h = div-eq_of_lt h

  pub lead-le : (x left : ℕ) → lead x left ≤ x
  unfolding lead
  lead-le x left = div-le_self x (2 ^ (bl * left))

  pub mask_at_next : (left : ℕ) → shr (mask_at (suc left)) bl ≡ mask_at left
  unfolding mask_at
  mask_at_next zero =
      let pos = pow_pos bl in
      ap (λ (t : ℕ). (2 ^ bl - 1) * 2 ^ t / 2 ^ bl) (mul-zero bl)
      ∙ ap (λ (t : ℕ). t / 2 ^ bl) (mul-one (2 ^ bl - 1))
      ∙ div-eq_of_lt (omega (arith, pos))
  mask_at_next (suc left) =
      ap (λ (t : ℕ). (2 ^ bl - 1) * t / 2 ^ bl)
        (ap (λ (t : ℕ). 2 ^ t) (mul-suc bl left) ∙ pow_add (bl * left) bl)
      ∙ ap (λ (t : ℕ). t / 2 ^ bl) (regroup (2 ^ bl - 1) (2 ^ (bl * left)) (2 ^ bl))
      ∙ mul-div_cancel ((2 ^ bl - 1) * 2 ^ (bl * left)) (pow_pos bl)
    where
      regroup : (a b c : ℕ) → a * (b * c) ≡ a * b * c
      regroup a b c = omega arith

module _ (params : OreParams) (u : IsUsable params) where
  pub top_mask-mask_at :
      (n : ℕ) → blocks params ≡ suc n → top_mask params ≡ mask_at params.block_len (suc n)
  unfolding mask_at
  top_mask-mask_at n e =
      let bl = params.block_len in
      let pos = pow_pos (bl * n) in
      let below : (2 ^ bl - 1) * 2 ^ (bl * n) + 0 < 2 ^ bl * 2 ^ (bl * n) =
        pair_lt (omega (arith, pow_pos bl)) pos in
      let exponent : bl * n + bl ≤ 64 =
        omega (arith, sym (mul-suc bl n), ap (λ (t : ℕ). bl * t) e, u.room) in
      let fits = pow_le (bl * n + bl) 64 exponent in
      let room : (2 ^ bl - 1) * 2 ^ (bl * n) < 2 ^ 64 =
        omega (arith, below, pow_add (bl * n) bl, fits) in
      rw (ones64_lem bl (omega (arith, u.block_max)), less_one) (mod-eq_of_lt room)
    where
      less_one : blocks params - 1 ≡ n
      less_one = omega (arith, e)

  pub cut_block-digit :
      (x left : ℕ)
      → cut_block params x (mask_at params.block_len (suc left)) left
        ≡ digit params.block_len x left
  unfolding mask_at digit lead
  cut_block-digit x left =
      let bl = params.block_len in
      bit_and_shifted (bl * left) x (2 ^ bl - 1) ∙ bit_and_mask bl (x / 2 ^ (bl * left))

  pub next_prefix-lead :
      (x left : ℕ)
      → x < 2 ^ 64
      → next_prefix params (lead params.block_len x (suc left)) (digit params.block_len x left)
        ≡ lead params.block_len x left
  next_prefix-lead x left small =
      let bl = params.block_len in
      let split = lead_split bl x left in
      let room : lead bl x (suc left) * 2 ^ bl < 2 ^ 64 = omega (arith, split, lead-le bl x left) in
      ap (λ (t : ℕ). bit_or t (digit bl x left)) (mod-eq_of_lt room)
      ∙ bit_or-disjoint bl (lead bl x (suc left)) (digit bl x left) (digit-lt bl x left)
      ∙ sym split
