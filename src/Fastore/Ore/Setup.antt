-- ===== src/Fastore/Ore/Setup.antt =====
-- fastore/ore_blk.cpp: `ore_setup_helper`, which fills a query or an index block by block, and the
-- functions that call it.
pub mod Query
pub mod Index
pub mod Rows
use asiaccs.Base.{ℕ, zero, suc, ◌+◌, ◌-◌, ◌*◌, ◌/◌, ◌%◌, ◌^◌, ◌≤◌, ◌<◌, bit_and, bit_or, bit_xor}
use asiaccs.Base.{◌≡◌, refl, sym, ap, ap₂, ◌∙◌, subst, ◌≢◌, ◌↔◌, ◌⊎◌, inl, inr, arith}
use asiaccs.Base.{Bool, true, false, ◌&&◌, ◌||◌, not, Option, none, some, List, [], ◌∷◌, ◌++◌, map}
use asiaccs.Base.{ltb, leb, ◌==◌, if◌then◌else◌, ==_iff, ltb_iff, Bool-cases, Option-cases}
use asiaccs.Base.{u8, u32, u64, sub32, shl64, shr, all_below, length, get_or, get_elem?, set}
use asiaccs.Base.{tabulate, length-append, length-tabulate, get_or-tabulate, length-map, get_or-map}
use asiaccs.Base.{map-tabulate, mod_of_split, div_of_split, pow_le, pow_pos, pow_add, pow_256}
use asiaccs.Base.{
  bytes_hold, pair_lt, ErrorCode, Outcome, ok, err, fault, ◌>>=◌, ◌>>◌, guard, require,
}
use asiaccs.Memory.{Buf, store, load}
use asiaccs.Fastore.Platform.{Platform, Block, make_block, to_value, of_value}
use asiaccs.Fastore.Aes.{OreAesKey, ecb_encrypt_blk}
use asiaccs.Fastore.Crypto.{setup_aes_key, aes_eval, aes_eval_blocks, sha_256, aes_key_bytes}
use asiaccs.Fastore.Crypto.{aes_block_len, sha256_output_bytes}
use asiaccs.Fastore.Prp.{prp_eval, prp_inv_eval_all, ones64}
use asiaccs.Fastore.Ore.{OreParams, OreKey, OreQuery, OreIndex, ore_is_valid_params, c_string}
use asiaccs.Fastore.Ore.{ore_small, ore_equal, ore_large, slots, blocks, cmp_bytes}
use asiaccs.Fastore.Ore.{left_block, right_block, ceil}
use asiaccs.Fastore.Ore.Hash.{Prg, next_prg_block, eval_keyed_hash_batch, mask64}

-- The first mask: `(1 << block_len) - 1`, shifted to the top block.
abbrev pub top_mask : OreParams → ℕ
top_mask params = shl64 (ones64 params.block_len) (params.block_len * (blocks params - 1))

-- `msg & block_mask`, shifted down.
abbrev pub cut_block : OreParams → ℕ → ℕ → ℕ → ℕ
cut_block params msg mask left = shr (bit_and msg mask) (params.block_len * left)

-- `prefix <<= block_len; prefix |= cur_block`
abbrev pub next_prefix : OreParams → ℕ → ℕ → ℕ
next_prefix params prefix cur = bit_or (shl64 prefix params.block_len) cur

-- `v` of the slot whose value is `inverse`.
abbrev pub flag_of : ℕ → ℕ → ℕ
flag_of inverse cur =
    if inverse == cur then ore_equal else if ltb inverse cur then ore_small else ore_large

module _ ⦃p : Platform⦄ where
  -- The key of the permutation of one block.
  unfoldable pub block_prp_key : OreKey → ℕ → ℕ → Outcome OreAesKey
  unfolding aes_eval setup_aes_key
  block_prp_key sk i prefix = do
    prp_key_buf ← aes_eval sk.prp_key (make_block i prefix)
    setup_aes_key prp_key_buf 16

  -- One round of the loop for a query, at `comp_left`.
  unfoldable pub query_block : OreKey → ℕ → ℕ → ℕ → ℕ → ℕ → ℕ → Buf → Outcome Buf
  unfolding block_prp_key aes_eval setup_aes_key
  query_block sk hash_name aim i prefix cur_block comp_left buf = do
    let block_len = sk.params.block_len
    prp_key ← block_prp_key sk i prefix
    pix ← prp_eval prp_key cur_block block_len
    key ← aes_eval sk.prf_key (make_block i (bit_or (shl64 prefix block_len) pix))
    cmp_key_name ← setup_aes_key (of_value hash_name) aes_key_bytes
    fcmp ← aes_eval cmp_key_name (make_block hash_name (bit_or (shl64 pix 8) aim))
    b1 ← store buf comp_left aes_block_len (to_value key)
    b2 ← store b1 (comp_left + 16) aes_block_len (to_value fcmp)
    store b2 (comp_left + 16 * 2) (ceil block_len 8) pix

  unfoldable pub query_loop : OreKey → ℕ → ℕ → ℕ → (left : ℕ) → ℕ → ℕ → ℕ → ℕ → Buf → Outcome Buf
  query_loop sk hash_name aim msg zero i mask prefix comp_left buf = ok buf
  query_loop sk hash_name aim msg (suc left) i mask prefix comp_left buf =
      let cur_block = cut_block sk.params msg mask left in
      query_block sk hash_name aim i prefix cur_block comp_left buf
      >>= query_loop sk hash_name aim msg left (suc i) (shr mask sk.params.block_len)
          (next_prefix sk.params prefix cur_block) (comp_left + left_block sk.params)

  -- The comparison vector of one block: slot `j` is written at `comp_right + cmp_len * j`.
  unfoldable pub slot_loop :
      OreParams
      → OreAesKey
      → OreAesKey
      → ℕ
      → ℕ
      → List ℕ
      → List ℕ
      → (left : ℕ) → ℕ
      → ℕ
      → Buf
      → Outcome Buf
  slot_loop params cmp_key_name cmp_key_row hash_name cur_block pi_inv r zero j comp_right buf =
      ok buf
  slot_loop params cmp_key_name cmp_key_row hash_name cur_block pi_inv r (suc left) j comp_right
        buf =
      let v = flag_of (get_or pi_inv j 0) cur_block in
      let input = make_block hash_name (bit_or (j * 2 ^ 8) v) in
      let fcmp = ecb_encrypt_blk cmp_key_row (ecb_encrypt_blk cmp_key_name input) in
      let masked = bit_xor (get_or r j 0) (bit_and fcmp.lo (mask64 params.cmp_len)) in
      let value = if v == ore_equal then get_or r j 0 else masked in
      store buf (comp_right + cmp_bytes params * j) (cmp_bytes params) value
      >>= slot_loop params cmp_key_name cmp_key_row hash_name cur_block pi_inv r left (suc j)
          comp_right

  -- One round of the loop for an index, at `comp_right`. The arrays of the round are not checked
  -- for null, so that a failed `malloc` ends in a fault.
  unfoldable pub index_block : Bool → OreKey → ℕ → ℕ → Block → ℕ → ℕ → ℕ → ℕ → Buf → Outcome Buf
  unfolding block_prp_key aes_eval_blocks setup_aes_key
  index_block allocated sk hash_name rnum nonce i prefix cur_block comp_right buf = do
    let params = sk.params
    let nslots = slots params
    prp_key ← block_prp_key sk i prefix
    require allocated
    let prefix_shifted = shl64 prefix params.block_len
    let inputs = tabulate nslots 0 (λ j. make_block i (bit_or prefix_shifted j))
    keys ← aes_eval_blocks sk.prf_key inputs
    pi_inv ← prp_inv_eval_all allocated prp_key params.block_len
    r ← eval_keyed_hash_batch params.cmp_len keys nonce
    cmp_key_name ← setup_aes_key (of_value hash_name) aes_key_bytes
    cmp_key_row ← setup_aes_key (make_block rnum 0) aes_key_bytes
    slot_loop params cmp_key_name cmp_key_row hash_name cur_block pi_inv r nslots 0 comp_right buf

  unfoldable pub index_loop :
      Bool → OreKey → ℕ → ℕ → Block → ℕ → (left : ℕ) → ℕ → ℕ → ℕ → ℕ → Buf → Outcome Buf
  index_loop allocated sk hash_name rnum nonce msg zero i mask prefix comp_right buf = ok buf
  index_loop allocated sk hash_name rnum nonce msg (suc left) i mask prefix comp_right buf =
      let cur_block = cut_block sk.params msg mask left in
      index_block allocated sk hash_name rnum nonce i prefix cur_block comp_right buf
      >>= index_loop allocated sk hash_name rnum nonce msg left (suc i)
          (shr mask sk.params.block_len) (next_prefix sk.params prefix cur_block)
          (comp_right + right_block sk.params)

  -- `ore_setup_helper` with a null `ctxt`, as `ore_query_setup` calls it.
  unfoldable pub ore_query_setup : Option OreQuery → OreKey → ℕ → List ℕ → ℕ → Outcome OreQuery
  unfolding sha_256
  ore_query_setup cque sk msg cname aim = do
    guard sk.initialized ErrorCode.sk_not_initialized
    q ← elim cque [ none ↦ err ErrorCode.null_pointer | some q ↦ ok q ]
    guard q.initialized ErrorCode.ctxt_not_initialized
    guard (ore_is_valid_params sk.params) ErrorCode.params_invalid
    hash_name ← sha_256 sha256_output_bytes (c_string cname)
    buf ← query_loop sk hash_name aim msg (blocks sk.params) 0 (top_mask sk.params) 0 0 q.comp_left
    ok (record q { comp_left = buf })

  -- The checks before the first change of state.
  unfoldable pub index_guards : OreKey → OreIndex → Outcome (Unit {0})
  index_guards sk ctxt = do
    guard sk.initialized ErrorCode.sk_not_initialized
    guard ctxt.initialized ErrorCode.ctxt_not_initialized
    guard (ore_is_valid_params sk.params) ErrorCode.params_invalid

  -- The rest, with the nonce drawn.
  unfoldable pub index_body : Bool → OreIndex → OreKey → ℕ → List ℕ → ℕ → Block → Outcome OreIndex
  unfolding sha_256
  index_body allocated ctxt sk msg cname rnum nonce = do
    b ← store ctxt.comp_right 0 aes_block_len (to_value nonce)
    hash_name ← sha_256 sha256_output_bytes (c_string cname)
    buf ←
        index_loop allocated sk hash_name rnum nonce msg (blocks sk.params) 0 (top_mask sk.params) 0
          aes_block_len b
    ok (record ctxt { comp_right = buf })

  -- `ore_setup_helper` with an index, as `ore_index_setup` calls it. The nonce comes from the static
  -- generator, whose state is the second part of the result.
  unfoldable pub ore_index_setup :
      Bool → Prg → OreIndex → OreKey → ℕ → List ℕ → ℕ → Outcome OreIndex × Prg
  ore_index_setup allocated prg ctxt sk msg cname rnum =
      let (nonce, prg') = next_prg_block prg in
      let body = index_body allocated ctxt sk msg cname rnum nonce in
      elim (index_guards sk ctxt) [
        | ok _ ↦ (body, prg')
        | err e ↦ (err e, prg)
        | fault ↦ (fault, prg)
      ]
