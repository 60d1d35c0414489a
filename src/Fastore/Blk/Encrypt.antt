-- ===== src/Fastore/Blk/Encrypt.antt =====
-- fastore/ore_blk.cpp: when `ore_blk_encrypt_ui` succeeds.
use asiaccs.Base.{ℕ, ◌+◌, ◌-◌, ◌*◌, ◌^◌, ◌≤◌, ◌<◌}
use asiaccs.Base.{◌≡◌, refl, ap, ◌∙◌, inl, inr, arith}
use asiaccs.Base.{true, Option, List}
use asiaccs.Base.{ltb, ◌==◌, if◌then◌else◌, Bool-cases}
use asiaccs.Base.{u32, sub32}
use asiaccs.Base.{ok}
use native.Mathlib.Nat.{mod-eq_of_lt}
use asiaccs.Memory.{Buf}
use asiaccs.Fastore.Platform.{Platform, Block, to_value}
use asiaccs.Fastore.Ore.{OreParams, blocks, right_block}
use asiaccs.Fastore.Ore.Sizes.{IsUsable, blocks-le, blocks_pos}
use asiaccs.Fastore.Ore.Hash.{Prg, next_prg_block, seed_prg}
use asiaccs.Fastore.Blk.{
  after_guards, BlkKey, BlkCiphertext, blk_left_block, blk_encrypt_guards, blk_encrypt_body,
  blk_top_mask, ore_blk_encrypt_ui, eq_blk_params, is_valid_blk_params,
}
use asiaccs.Fastore.Blk.Memory.{IsWide, stored, blk_encrypt_loop-ok}

-- A key and a ciphertext with the same parameters and buffers of the sizes for them.
pub record BlkReady (sk : BlkKey) (ctxt : BlkCiphertext) : Type 0 where
  pub key_set : sk.initialized ≡ true
  pub set : ctxt.initialized ≡ true
  pub same : ctxt.params ≡ sk.params
  pub left_room : blk_left_block sk.params * blocks sk.params ≤ ctxt.comp_left.size
  pub right_room : 16 + right_block sk.params * blocks sk.params ≤ ctxt.comp_right.size

-- The generator, seeded when that was not done.
abbrev pub seeded : ⦃p : Platform⦄ → Option (List ℕ) → Prg → Prg
seeded urandom prg = if prg.initialized then prg else seed_prg urandom prg

eq_blk_params_self : (params : OreParams) → eq_blk_params params params ≡ true
unfolding eq_blk_params
eq_blk_params_self params =
    let bits : (params.nbits == params.nbits) ≡ true = ground arith in
    let length_same : (params.block_len == params.block_len) ≡ true = ground arith in
    elim (Bool-cases params.initialized) [
      | inl e ↦ rw (e, bits, length_same) refl
      | inr e ↦ rw (e, bits, length_same) refl
    ]

pub blk_top_mask-ok :
    (params : OreParams)
    → IsUsable params
    → params.block_len * (blocks params - 1) < 32
    → (mask : ℕ) × (blk_top_mask params ≡ ok mask)
unfolding blk_top_mask
blk_top_mask-ok params u narrow =
    let one_less : sub32 (blocks params) 1 ≡ blocks params - 1 =
      omega (arith, blocks-le params u, blocks_pos params u) in
    let shift : u32 (params.block_len * (blocks params - 1))
        ≡ params.block_len * (blocks params - 1) =
      mod-eq_of_lt {n = params.block_len * (blocks params - 1)} (omega (arith, narrow)) in
    let short : ltb params.block_len 31 ≡ true = ground (arith, u.block_max) in
    let small : ltb (params.block_len * (blocks params - 1)) 32 ≡ true = ground (arith, narrow) in
    (
      u32 ((2 ^ params.block_len - 1) * 2 ^ u32 (params.block_len * sub32 (blocks params) 1)),
      rw (one_less, shift, short, small) refl,
    )

module _ ⦃p : Platform⦄ (sk : BlkKey) (ctxt : BlkCiphertext) where
  pub blk_encrypt_guards-ok :
      IsUsable sk.params → BlkReady sk ctxt → blk_encrypt_guards ctxt sk ≡ ok tt
  unfolding blk_encrypt_guards is_valid_blk_params
  blk_encrypt_guards-ok u r =
      let valid : is_valid_blk_params sk.params ≡ true =
        ground (arith, u.ready, u.block_pos, u.block_max, u.cmp_max) in
      rw (r.key_set, r.set, r.same, eq_blk_params_self sk.params, valid) refl

  blk_encrypt_body-ok :
      (msg : ℕ) (cname : List ℕ) (rnum : ℕ) (nonce : Block)
      → IsWide sk.params
      → BlkReady sk ctxt
      → (done : Buf × Buf) × (blk_encrypt_body true ctxt sk msg cname rnum nonce
          ≡ ok (record ctxt { comp_left = done.0; comp_right = done.1 }))
        × (done.0.size ≡ ctxt.comp_left.size)
        × (done.1.size ≡ ctxt.comp_right.size)
  unfolding blk_encrypt_body
  blk_encrypt_body-ok msg cname rnum nonce u r =
      let (mask, top) = blk_top_mask-ok sk.params u.usable u.narrow in
      let (b1, head, same) =
        stored ctxt.comp_right 0 16 (to_value nonce) (omega (arith, r.right_room)) in
      let (done, runs, size_l, size_r) =
        blk_encrypt_loop-ok sk u nonce cname rnum msg (blocks sk.params) 0 mask 0 0 16
          ctxt.comp_left b1 (omega (arith, r.left_room)) (omega (arith, r.right_room, same)) in
      (done, rw (r.same, top, head, runs) refl, size_l, size_r ∙ same)

  -- With usable parameters for at most 32 bits in the shifts, eight bytes for each slot, and a ciphertext with
  -- the parameters of the key and buffers at least of the sizes for them, when `malloc` succeeds:
  -- `ore_blk_encrypt_ui` succeeds, steps the generator once, after its seeding if need be, writes only
  -- inside the buffers, and keeps their sizes and the parameters.
  pub ore_blk_encrypt_ui-ok :
      (urandom : Option (List ℕ)) (prg : Prg) (msg : ℕ) (cname : List ℕ) (rnum : ℕ)
      → IsWide sk.params
      → BlkReady sk ctxt
      → (c : BlkCiphertext) × (ore_blk_encrypt_ui urandom true prg ctxt sk msg cname rnum
          ≡ (ok c, (next_prg_block (seeded urandom prg)).1))
        × (c.initialized ≡ true)
        × (c.params ≡ sk.params)
        × (c.comp_left.size ≡ ctxt.comp_left.size)
        × (c.comp_right.size ≡ ctxt.comp_right.size)
  unfolding ore_blk_encrypt_ui
  ore_blk_encrypt_ui-ok urandom prg msg cname rnum u r =
      let (done, runs, size_l, size_r) =
        blk_encrypt_body-ok msg cname rnum (next_prg_block (seeded urandom prg)).0 u r in
      (
        record ctxt { comp_left = done.0; comp_right = done.1 },
        ap
              (λ g.
                after_guards g
                  (blk_encrypt_body true ctxt sk msg cname rnum
                    (next_prg_block (seeded urandom prg)).0)
                  (next_prg_block (seeded urandom prg)).1 prg)
              (blk_encrypt_guards-ok u.usable r)
            ∙ ap (λ o. (o, (next_prg_block (seeded urandom prg)).1)) runs,
        r.set,
        r.same,
        size_l,
        size_r,
      )
