-- ===== src/Fastore/Ore/Sizes.antt =====
-- Parameters that the scheme works for, and the sizes of the buffers at such parameters: no
-- product wraps around.
use asiaccs.Base.{ℕ, suc, ◌+◌, ◌-◌, ◌*◌, ◌/◌, ◌%◌, ◌^◌, ◌≤◌, ◌<◌, bit_and}
use asiaccs.Base.{◌≡◌, ap, ◌∙◌, inl, inr, arith}
use asiaccs.Base.{true}
use asiaccs.Base.{◌==◌, ==_iff, Bool-cases}
use asiaccs.Base.{u32}
use asiaccs.Base.{pow_le}
use native.Mathlib.Nat.{mod-eq_of_lt, le-div_iff_mul-le}
use asiaccs.Bits.{bit_and_mask}
use asiaccs.Fastore.Prp.Inverse.{ones64_lem}
use asiaccs.Fastore.Ore.{OreParams, ore_is_valid_params, slots, blocks, cmp_bytes, ceil}
use asiaccs.Fastore.Ore.{left_block, right_block, ore_query_left_len, ore_index_right_len}
use asiaccs.Fastore.Ore.Hash.{mask64}

-- What the code checks, an even block length, and a plaintext that fits 64 bits.
pub record IsUsable (params : OreParams) : Type 0 where
  pub ready : params.initialized ≡ true
  pub block_pos : 0 < params.block_len
  pub block_max : params.block_len ≤ 16
  pub block_fits : params.block_len ≤ params.nbits
  pub block_even : params.block_len % 2 ≡ 0
  pub cmp_max : params.cmp_len ≤ 64
  pub nbits_max : params.nbits ≤ 64
  pub room : params.block_len * blocks params ≤ 64

-- A mask keeps the low bits.
pub bit_and-mask64 : (c x : ℕ) → c ≤ 64 → bit_and x (mask64 c) ≡ x % 2 ^ c
bit_and-mask64 c x h = elim (Bool-cases (c == 64)) [
  | inl full ↦ let e : c ≡ 64 = (==_iff c 64).0 full in rw (full, e) (bit_and_mask 64 x)
  | inr part ↦ let small : c < 64 = ground arith in rw (part, ones64_lem c small) (bit_and_mask c x)
]

mul_le : (m n : ℕ) {a b : ℕ} → a ≤ m → b ≤ n → a * b ≤ m * n
mul_le m n h k = grind arith

module _ (params : OreParams) (u : IsUsable params) where
  pub is_valid : ore_is_valid_params params ≡ true
  unfolding ore_is_valid_params
  is_valid = ground (arith, u.ready, u.block_pos, u.block_max, u.cmp_max)

  pub slots-eq : slots params ≡ 2 ^ params.block_len
  slots-eq =
      let small = pow_le params.block_len 16 u.block_max in mod-eq_of_lt (omega (arith, small))

  pub slots-le : slots params ≤ 65536
  slots-le = omega (arith, slots-eq, pow_le params.block_len 16 u.block_max)

  pub cmp_bytes-eq : cmp_bytes params ≡ (params.cmp_len + 7) / 8
  cmp_bytes-eq = omega (arith, u.cmp_max)

  pub left_block-eq : left_block params ≡ 32 + (params.nbits + 7) / 8
  left_block-eq = omega (arith, u.nbits_max)

  pub blocks-le : blocks params ≤ 64
  blocks-le = factor (blocks params) params.block_len u.block_pos u.room
    where
      factor : (n k : ℕ) → 0 < k → k * n ≤ 64 → n ≤ 64
      factor n k pos h = grind arith

  pub blocks_pos : blocks params ≡ suc (blocks params - 1)
  blocks_pos =
      let rounded : u32 (params.nbits + params.block_len + 2 ^ 32 - 1)
          ≡ params.nbits + params.block_len - 1 =
        omega (arith, u.block_pos, u.block_max, u.nbits_max) in
      let enough : 1 ≤ u32 (params.nbits + params.block_len + 2 ^ 32 - 1) / params.block_len =
        (le-div_iff_mul-le u.block_pos).1 (omega (arith, rounded, u.block_fits, u.block_pos)) in
      omega (arith, enough)

  pub pix_bytes-le : ceil params.block_len 8 ≤ 2
  pix_bytes-le = omega (arith, u.block_max)

  -- The permuted value fits the space behind the two blocks.
  pub pix_fits : 32 + ceil params.block_len 8 ≤ left_block params
  pix_fits = omega (arith, u.block_max, u.block_fits, u.nbits_max)

  pub right_block-eq : right_block params ≡ cmp_bytes params * 2 ^ params.block_len
  right_block-eq =
      let bound : cmp_bytes params * slots params ≤ 8 * 65536 =
        mul_le 8 65536 (omega (arith, cmp_bytes-eq, u.cmp_max)) slots-le in
      mod-eq_of_lt {n = cmp_bytes params * slots params} (omega (arith, bound))
      ∙ ap (λ (t : ℕ). cmp_bytes params * t) slots-eq

  right_block-le : right_block params ≤ 8 * 65536
  right_block-le =
      let bound : cmp_bytes params * 2 ^ params.block_len ≤ 8 * 65536 =
        mul_le 8 65536 (omega (arith, cmp_bytes-eq, u.cmp_max))
          (omega (arith, slots-eq, slots-le)) in
      omega (arith, right_block-eq, bound)

  -- At usable parameters the size of a query is the size of a block times the number of blocks:
  -- nothing wraps around.
  pub left_len-eq : ore_query_left_len params ≡ left_block params * blocks params
  unfolding ore_query_left_len
  left_len-eq =
      let bound : left_block params * blocks params ≤ 40 * 64 =
        mul_le 40 64 (omega (arith, left_block-eq, u.nbits_max)) blocks-le in
      mod-eq_of_lt {n = left_block params * blocks params} (omega (arith, bound))

  -- At usable parameters the size of an index is 16 and the size of a block times the number of
  -- blocks: nothing wraps around.
  pub right_len-eq : ore_index_right_len params ≡ 16 + right_block params * blocks params
  unfolding ore_index_right_len
  right_len-eq =
      let bound : right_block params * blocks params ≤ 8 * 65536 * 64 =
        mul_le (8 * 65536) 64 right_block-le blocks-le in
      let inner : u32 (right_block params * blocks params) ≡ right_block params * blocks params =
        mod-eq_of_lt {n = right_block params * blocks params} (omega (arith, bound)) in
      rw inner (mod-eq_of_lt {n = 16 + right_block params * blocks params} (omega (arith, bound)))
