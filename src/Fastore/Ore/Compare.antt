-- ===== src/Fastore/Ore/Compare.antt =====
-- fastore/ore_blk.cpp: `ore_compare`, and the functions on raw buffers `ore_query_ui`,
-- `ore_index_ui` and `ore_compare_ui`.
pub mod Blocks
pub mod Order
use asiaccs.Base.{ℕ, zero, suc, ◌+◌, ◌-◌, ◌*◌, ◌/◌, ◌%◌, ◌^◌, ◌≤◌, ◌<◌, bit_and, bit_or, bit_xor}
use asiaccs.Base.{◌≡◌, refl, sym, ap, ap₂, ◌∙◌, subst, ◌≢◌, ◌↔◌, ◌⊎◌, inl, inr, arith}
use asiaccs.Base.{Bool, true, false, ◌&&◌, ◌||◌, not, Option, none, some, List, [], ◌∷◌, ◌++◌, map}
use asiaccs.Base.{ltb, leb, ◌==◌, if◌then◌else◌, ==_iff, ltb_iff, Bool-cases, Option-cases}
use asiaccs.Base.{u8, u32, u64, sub32, shl64, shr, all_below, length, get_or, get_elem?, set}
use asiaccs.Base.{tabulate, length-append, length-tabulate, get_or-tabulate, length-map, get_or-map}
use asiaccs.Base.{map-tabulate, mod_of_split, div_of_split, pow_le, pow_pos, pow_add, pow_256}
use asiaccs.Base.{
  bytes_hold, pair_lt, ErrorCode, Outcome, ok, err, fault, ◌>>=◌, ◌>>◌, guard, require,
}
use asiaccs.Memory.{Buf, load}
use asiaccs.Fastore.Platform.{Platform, Block, make_block, of_value}
use asiaccs.Fastore.Aes.{OreAesKey, ecb_encrypt_blk}
use asiaccs.Fastore.Crypto.{setup_aes_key}
use asiaccs.Fastore.Ore.{
  OreParams, OreKey, OreQuery, OreIndex, Malloc, ore_is_valid_params, null_buf,
}
use asiaccs.Fastore.Ore.{slots, blocks, cmp_bytes, left_block, right_block, ceil}
use asiaccs.Fastore.Ore.{ore_query_left_len, ore_index_right_len, ore_query_init, ore_index_init}
use asiaccs.Fastore.Ore.Hash.{Prg, eval_keyed_hash, mask64}
use asiaccs.Fastore.Ore.Setup.{ore_query_setup, ore_index_setup}

-- `*result_p`: 1, 0 and -1.
pub data Answer : Type 0 where
  one nought minus_one : Answer

module _ ⦃p : Platform⦄ where
  -- One round of the loop; `none` means that the loop goes on.
  unfoldable pub compare_block :
      OreParams → OreAesKey → Block → Buf → Buf → ℕ → ℕ → Outcome (Option Answer)
  compare_block params cmp_key_row nonce comp_left comp_right offset_left offset_right = do
    index ← load comp_left (offset_left + 16 * 2) (ceil params.block_len 8)
    fcmp ← load comp_left (offset_left + 16) 16
    key_block ← load comp_left offset_left 16
    h ← eval_keyed_hash params.cmp_len (of_value key_block) nonce
    let g_mask = mask64 params.cmp_len
    right ← load comp_right (offset_right + index * cmp_bytes params) (cmp_bytes params)
    let r = bit_xor h (bit_and right g_mask)
    let gcmp = ecb_encrypt_blk cmp_key_row (of_value fcmp)
    let g = bit_and gcmp.lo g_mask
    ok (if r == 0 then none else if g == r then some one else some minus_one)

  unfoldable pub compare_loop :
      OreParams → OreAesKey → Block → Buf → Buf → (left : ℕ) → ℕ → ℕ → Outcome Answer
  compare_loop params row nonce comp_left comp_right zero offset_left offset_right = ok nought
  compare_loop params row nonce comp_left comp_right (suc left) offset_left offset_right =
      let rest =
        compare_loop params row nonce comp_left comp_right left (offset_left + left_block params)
          (offset_right + right_block params) in
      compare_block params row nonce comp_left comp_right offset_left offset_right
      >>= elim [ none ↦ rest | some answer ↦ ok answer ]

  unfoldable pub ore_compare : OreQuery → OreIndex → OreParams → ℕ → Outcome Answer
  unfolding setup_aes_key
  ore_compare ctxt1 ctxt2 params rnum = do
    guard (ctxt1.initialized && ctxt2.initialized) ErrorCode.ctxt_not_initialized
    guard (ore_is_valid_params params) ErrorCode.params_invalid
    nonce ← load ctxt2.comp_right 0 16
    cmp_key_row ← setup_aes_key (make_block rnum 0) 16
    compare_loop params cmp_key_row (of_value nonce) ctxt1.comp_left ctxt2.comp_right
        (blocks params) 0 16

  -- The local structure is not written before `ore_query_init` writes it.
  unfoldable pub ore_query_ui : Malloc → ℕ → OreKey → List ℕ → ℕ → Outcome (Buf × ℕ)
  ore_query_ui malloc src sk cname aim = do
    let blank : OreQuery = record { initialized = false; comp_left = null_buf }
    query_tmp ← ore_query_init malloc (some blank) (some sk.params)
    filled ← ore_query_setup (some query_tmp) sk src cname aim
    ok (filled.comp_left, ore_query_left_len sk.params)

  unfoldable pub ore_index_ui :
      Malloc → Bool → Prg → ℕ → OreKey → List ℕ → ℕ → Outcome (Buf × ℕ) × Prg
  ore_index_ui malloc allocated prg src sk cname rnum =
      let blank : OreIndex = record { initialized = false; comp_right = null_buf } in
      elim (ore_index_init malloc (some blank) (some sk.params)) [
        | ok index_tmp ↦
            let (filled, prg') = ore_index_setup allocated prg index_tmp sk src cname rnum in
            (filled >>= (λ c. ok (c.comp_right, ore_index_right_len sk.params)), prg')
        | err e ↦ (err e, prg)
        | fault ↦ (fault, prg)
      ]

  -- The buffer from `offset` on, as the moved pointer sees it.
  abbrev pub advance : Buf → ℕ → Buf
  advance b n = record { size = b.size - n; at = λ o. b.at (n + o) }

  unfoldable pub compare_ui_loop : OreParams → ℕ → (times : ℕ) → Buf → Buf → Outcome Answer
  compare_ui_loop params rnum zero query index = ok nought
  compare_ui_loop params rnum (suc times) query index =
      let rest =
        compare_ui_loop params rnum times (advance query (ore_query_left_len params))
          (advance index (ore_index_right_len params)) in
      ore_compare (record { initialized = true; comp_left = query })
        (record { initialized = true; comp_right = index }) params rnum
      >>= elim [ nought ↦ rest | one ↦ ok one | minus_one ↦ ok minus_one ]

  -- The parameters are not checked before they divide: a zero block length or an empty query block
  -- is a fault.
  unfoldable pub ore_compare_ui : Buf → ℕ → Buf → ℕ → OreParams → ℕ → Outcome Answer
  ore_compare_ui query querylen index indexlen params rnum = do
    require (not (params.block_len == 0))
    require (not (ore_query_left_len params == 0))
    require (not (ore_index_right_len params == 0))
    let times_query = querylen / ore_query_left_len params
    let times_index = indexlen / ore_index_right_len params
    let times = if ltb times_index times_query then times_index else times_query
    compare_ui_loop params rnum times query index
