-- ===== src/Fastore/Blk.antt =====
-- fastore/ore_blk.cpp, the functions `ore_blk_*`: the first form of the scheme, whose ciphertexts have a
-- left and a right part each. `ore_blk_params` has the fields of `ore_params`.
pub mod Memory
pub mod Encrypt
pub mod Short
use asiaccs.Base.{ℕ, zero, suc, ◌+◌, ◌-◌, ◌*◌, ◌/◌, ◌%◌, ◌^◌, ◌≤◌, ◌<◌, bit_and, bit_or, bit_xor}
use asiaccs.Base.{◌≡◌, refl, sym, ap, ap₂, ◌∙◌, subst, ◌≢◌, ◌↔◌, ◌⊎◌, inl, inr, arith}
use asiaccs.Base.{Bool, true, false, ◌&&◌, ◌||◌, not, Option, none, some, List, [], ◌∷◌, ◌++◌, map}
use asiaccs.Base.{ltb, leb, ◌==◌, if◌then◌else◌, ==_iff, ltb_iff, Bool-cases, Option-cases}
use asiaccs.Base.{u8, u32, u64, sub32, shl64, shr, all_below, length, get_or, get_elem?, set}
use asiaccs.Base.{tabulate, length-append, length-tabulate, get_or-tabulate, length-map, get_or-map}
use asiaccs.Base.{map-tabulate, mod_of_split, div_of_split, pow_le, pow_pos, pow_add, pow_256}
use asiaccs.Base.{
  bytes_hold, pair_lt, ErrorCode, Outcome, ok, err, fault, ◌>>=◌, ◌>>◌, guard, require,
}
use asiaccs.Base.{guard_pass, guard_stop, get_or-tabulate_zero}
use asiaccs.Memory.{Buf, load, store, clear}
use asiaccs.Fastore.Platform.{Platform, Block, make_block, of_value, to_value}
use asiaccs.Fastore.Aes.{OreAesKey, ecb_encrypt_blk}
use asiaccs.Fastore.Crypto.{
  generate_aes_key, setup_aes_key, aes_eval, aes_eval_blocks, sha_256, aes_key_bytes, aes_block_len,
  sha256_output_bytes,
}
use asiaccs.Fastore.Prp.{prp_eval, prp_inv_eval_all}
use asiaccs.Fastore.Ore.{
  OreParams, Malloc, allocate, null_buf, no_params, no_aes_key, c_string, ceil, slots, blocks,
  cmp_bytes, max_block_len, max_cmp_len, right_block,
}
use asiaccs.Fastore.Ore.Hash.{
  Prg, seed_prg, next_prg_block, eval_keyed_hash, eval_keyed_hash_batch, mask64,
}
use asiaccs.Fastore.Ore.Setup.{flag_of}

pub record BlkKey : Type 0 where
  pub initialized : Bool
  pub prf_key : OreAesKey
  pub prp_key : OreAesKey
  pub params : OreParams

pub record BlkCiphertext : Type 0 where
  pub initialized : Bool
  pub comp_left : Buf
  pub comp_right : Buf
  pub params : OreParams

abbrev same_bool : Bool → Bool → Bool
same_bool true b = b
same_bool false b = not b

-- `_eq_ore_blk_params`, which leaves out `cmp_len`.
unfoldable pub eq_blk_params : OreParams → OreParams → Bool
eq_blk_params a c =
    same_bool a.initialized c.initialized && a.nbits == c.nbits && a.block_len == c.block_len

-- `_is_valid_params`
unfoldable pub is_valid_blk_params : OreParams → Bool
is_valid_blk_params params =
    if not params.initialized
    then false
    else if params.block_len == 0
        || ltb max_block_len params.block_len
        || ltb max_cmp_len params.cmp_len
    then false
    else true

unfoldable pub init_ore_blk_params : ℕ → ℕ → ℕ → Outcome OreParams
unfolding is_valid_blk_params
init_ore_blk_params nbits block_len cmp_len = do
  let params : OreParams = record {
    initialized = true;
    nbits = nbits;
    block_len = block_len;
    cmp_len = cmp_len;
  }
  guard (is_valid_blk_params params) ErrorCode.params_invalid
  ok params

-- `uint32_t block_mask = (1 << block_len) - 1; block_mask <<= (block_len * (nblocks - 1))`. A shift by 32 bits
-- or more is undefined.
unfoldable pub blk_top_mask : OreParams → Outcome ℕ
blk_top_mask params = do
  require (ltb params.block_len 31)
  let shift = u32 (params.block_len * sub32 (blocks params) 1)
  require (ltb shift 32)
  ok (u32 ((2 ^ params.block_len - 1) * 2 ^ shift))

-- The bytes of one block of a left part.
abbrev pub blk_left_block : OreParams → ℕ
blk_left_block params = u32 (aes_block_len + ceil params.nbits 8)

-- `_ore_blk_ciphertext_len_left` and `_ore_blk_ciphertext_len_right`
unfoldable pub blk_len_left : OreParams → ℕ
blk_len_left params = u32 (u32 (aes_block_len + ceil params.nbits 8) * blocks params)

unfoldable pub blk_len_right : OreParams → ℕ
blk_len_right params =
    u32 (aes_block_len + u32 (u32 (cmp_bytes params * slots params) * blocks params))

unfoldable pub ore_blk_ciphertext_size : OreParams → ℕ
unfolding blk_len_left blk_len_right
ore_blk_ciphertext_size params = u32 (blk_len_left params + blk_len_right params)

-- The parameters are read before the test for null.
unfoldable pub init_ore_blk_ciphertext :
    Malloc → Option BlkCiphertext → Option OreParams → Outcome BlkCiphertext
unfolding is_valid_blk_params blk_len_left blk_len_right
init_ore_blk_ciphertext malloc ctxt none = fault
init_ore_blk_ciphertext malloc ctxt (some params) = do
  guard (is_valid_blk_params params) ErrorCode.params_invalid
  _ ← elim ctxt [ none ↦ err ErrorCode.null_pointer | some c ↦ ok c ]
  left ← allocate malloc (blk_len_left params)
  right ← allocate malloc (blk_len_right params)
  ok (record { initialized = true; comp_left = left; comp_right = right; params = params })

unfoldable pub clear_ore_blk_ciphertext : Option BlkCiphertext → Outcome (Option BlkCiphertext)
unfolding is_valid_blk_params blk_len_left blk_len_right clear
clear_ore_blk_ciphertext none = ok none
clear_ore_blk_ciphertext (some ctxt) = do
  guard (is_valid_blk_params ctxt.params) ErrorCode.params_invalid
  _ ← clear ctxt.comp_left (blk_len_left ctxt.params)
  _ ← clear ctxt.comp_right (blk_len_right ctxt.params)
  ok (
      some record {
        initialized = false;
        comp_left = null_buf;
        comp_right = null_buf;
        params = no_params;
      })

-- `memset(sk, 0, sizeof(ore_blk_secret_key))`
unfoldable pub ore_blk_cleanup : BlkKey → Outcome BlkKey
ore_blk_cleanup sk =
    ok (record {
      initialized = false;
      prf_key = no_aes_key;
      prp_key = no_aes_key;
      params = no_params;
    })

module _ ⦃p : Platform⦄ where
  -- The two reads of /dev/urandom are arguments.
  unfoldable pub ore_blk_setup : Option (List ℕ) → Option (List ℕ) → OreParams → Outcome BlkKey
  unfolding is_valid_blk_params generate_aes_key
  ore_blk_setup urandom urandom' params = do
    guard (is_valid_blk_params params) ErrorCode.params_invalid
    prf ← generate_aes_key urandom
    prp ← generate_aes_key urandom'
    ok (record { initialized = true; prf_key = prf; prp_key = prp; params = params })

  -- The slots of one block of a right part: `memcpy` copies eight bytes for each, whatever `cmp_len` is.
  unfoldable pub blk_slot_loop :
      OreParams
      → OreAesKey
      → OreAesKey
      → ℕ
      → ℕ
      → List ℕ
      → List ℕ
      → (left : ℕ) → ℕ
      → ℕ
      → Buf
      → Outcome Buf
  blk_slot_loop params name row hash_name val pi_inv r zero j comp_right buf = ok buf
  blk_slot_loop params name row hash_name val pi_inv r (suc left) j comp_right buf =
      let v = flag_of (get_or pi_inv j 0) val in
      let input = make_block hash_name (bit_or (j * 2) v) in
      let out = ecb_encrypt_blk row (ecb_encrypt_blk name input) in
      let value = bit_xor (get_or r j 0) (bit_and out.lo (mask64 params.cmp_len)) in
      store buf (comp_right + cmp_bytes params * j) 8 value
      >>= blk_slot_loop params name row hash_name val pi_inv r left (suc j) comp_right

  -- The left part of a block in `_ore_blk_encrypt_block`, with the key of its permutation.
  unfoldable pub blk_left_part : BlkKey → ℕ → ℕ → ℕ → ℕ → Buf → Outcome (Buf × OreAesKey)
  unfolding aes_eval setup_aes_key
  blk_left_part sk i prefix val comp_left buf = do
    let block_len = sk.params.block_len
    prp_key_buf ← aes_eval sk.prp_key (make_block i prefix)
    prp_key ← setup_aes_key prp_key_buf 16
    pix ← prp_eval prp_key val block_len
    key ← aes_eval sk.prf_key (make_block i (bit_or (shl64 prefix block_len) pix))
    b1 ← store buf comp_left 16 (to_value key)
    b2 ← store b1 (comp_left + 16) (ceil block_len 8) pix
    ok (b2, prp_key)

  -- The right part. The arrays are not checked for null, so that a failed `malloc` ends in a fault.
  unfoldable pub blk_right_part :
      Bool → BlkKey → OreAesKey → Block → ℕ → ℕ → ℕ → List ℕ → ℕ → ℕ → Buf → Outcome Buf
  unfolding aes_eval_blocks sha_256 setup_aes_key
  blk_right_part allocated sk prp_key nonce i prefix val cname rnum comp_right buf = do
    let params = sk.params
    let nslots = slots params
    require allocated
    let prefix_shifted = shl64 prefix params.block_len
    let inputs = tabulate nslots 0 (λ j. make_block i (bit_or prefix_shifted j))
    keys ← aes_eval_blocks sk.prf_key inputs
    pi_inv ← prp_inv_eval_all allocated prp_key params.block_len
    r ← eval_keyed_hash_batch params.cmp_len keys nonce
    hash_name ← sha_256 sha256_output_bytes (c_string cname)
    name ← setup_aes_key (of_value hash_name) aes_key_bytes
    row ← setup_aes_key (make_block 0 rnum) 16
    blk_slot_loop params name row hash_name val pi_inv r nslots 0 comp_right buf

  -- `_ore_blk_encrypt_block`
  unfoldable pub blk_encrypt_block :
      Bool → BlkKey → Block → ℕ → ℕ → ℕ → List ℕ → ℕ → ℕ → ℕ → Buf → Buf → Outcome (Buf × Buf)
  unfolding blk_left_part blk_right_part
  blk_encrypt_block allocated sk nonce i prefix val cname rnum comp_left comp_right bl br = do
    made ← blk_left_part sk i prefix val comp_left bl
    right ← blk_right_part allocated sk made.1 nonce i prefix val cname rnum comp_right br
    ok (made.0, right)

  -- The loop over the blocks.
  unfoldable pub blk_encrypt_loop :
      Bool
      → BlkKey
      → Block
      → List ℕ
      → ℕ
      → ℕ
      → (left : ℕ) → ℕ
      → ℕ
      → ℕ
      → ℕ
      → ℕ
      → Buf
      → Buf
      → Outcome (Buf × Buf)
  blk_encrypt_loop allocated sk nonce cname rnum msg zero i mask prefix ol or bl br = ok (bl, br)
  blk_encrypt_loop allocated sk nonce cname rnum msg (suc left) i mask prefix ol or bl br =
      let params = sk.params in
      let cur_block = shr (bit_and msg mask) (params.block_len * left) in
      blk_encrypt_block allocated sk nonce i prefix cur_block cname rnum ol or bl br >>= λ done.
      blk_encrypt_loop allocated sk nonce cname rnum msg left (suc i) (shr mask params.block_len)
        (bit_or (shl64 prefix params.block_len) cur_block) (ol + blk_left_block params)
        (or + right_block params) done.0 done.1

  -- The checks of `ore_blk_encrypt_ui`, which come before any change of state.
  unfoldable pub blk_encrypt_guards : BlkCiphertext → BlkKey → Outcome (Unit {0})
  unfolding eq_blk_params is_valid_blk_params
  blk_encrypt_guards ctxt sk = do
    guard sk.initialized ErrorCode.sk_not_initialized
    guard ctxt.initialized ErrorCode.ctxt_not_initialized
    guard (eq_blk_params ctxt.params sk.params) ErrorCode.params_mismatch
    guard (is_valid_blk_params ctxt.params) ErrorCode.params_invalid

  -- The rest, with the nonce drawn.
  unfoldable pub blk_encrypt_body :
      Bool → BlkCiphertext → BlkKey → ℕ → List ℕ → ℕ → Block → Outcome BlkCiphertext
  unfolding blk_encrypt_loop blk_top_mask
  blk_encrypt_body allocated ctxt sk msg cname rnum nonce = do
    mask ← blk_top_mask ctxt.params
    right ← store ctxt.comp_right 0 16 (to_value nonce)
    done ←
        blk_encrypt_loop allocated sk nonce cname rnum msg (blocks ctxt.params) 0 mask 0 0 16
          ctxt.comp_left right
    ok (record ctxt { comp_left = done.0; comp_right = done.1 })

  -- An error of the checks leaves the generator as it was.
  abbrev pub after_guards :
      Outcome (Unit {0}) → Outcome BlkCiphertext → Prg → Prg → Outcome BlkCiphertext × Prg
  after_guards (ok _) body new old = (body, new)
  after_guards (err e) body new old = (err e, old)
  after_guards fault body new old = (fault, old)

  -- `ore_blk_encrypt_ui`, which seeds the static generator when that was not done.
  unfoldable pub ore_blk_encrypt_ui :
      Option (List ℕ)
      → Bool
      → Prg
      → BlkCiphertext
      → BlkKey
      → ℕ
      → List ℕ
      → ℕ
      → Outcome BlkCiphertext × Prg
  ore_blk_encrypt_ui urandom allocated prg ctxt sk msg cname rnum =
      let seeded = if prg.initialized then prg else seed_prg urandom prg in
      let drawn = next_prg_block seeded in
      let body = blk_encrypt_body allocated ctxt sk msg cname rnum drawn.0 in
      after_guards (blk_encrypt_guards ctxt sk) body drawn.1 prg

  -- One block of `ore_blk_query`, at `comp + i` of the destination.
  unfoldable pub blk_query_block : BlkKey → ℕ → List ℕ → ℕ → ℕ → ℕ → Buf → Outcome Buf
  unfolding aes_eval setup_aes_key sha_256
  blk_query_block sk aim cname i prefix cur_block buf = do
    prp_key_buf ← aes_eval sk.prp_key (make_block i prefix)
    prp_key ← setup_aes_key prp_key_buf 16
    pix ← prp_eval prp_key cur_block sk.params.block_len
    hash_name ← sha_256 sha256_output_bytes (c_string cname)
    name ← setup_aes_key (of_value hash_name) aes_key_bytes
    comp ← aes_eval name (make_block hash_name (bit_or (shl64 pix 1) aim))
    store buf (16 * i) 16 (to_value comp)

  unfoldable pub blk_query_loop :
      BlkKey → ℕ → List ℕ → ℕ → (left : ℕ) → ℕ → ℕ → ℕ → Buf → Outcome Buf
  blk_query_loop sk aim cname msg zero i mask prefix buf = ok buf
  blk_query_loop sk aim cname msg (suc left) i mask prefix buf =
      let cur_block = shr (bit_and msg mask) (sk.params.block_len * left) in
      blk_query_block sk aim cname i prefix cur_block buf
      >>= blk_query_loop sk aim cname msg left (suc i) (shr mask sk.params.block_len)
          (bit_or (shl64 prefix sk.params.block_len) cur_block)

  -- `ore_blk_query`. It does not check the parameters of the key or the length of the destination; a block
  -- length of zero is a division by zero.
  unfoldable pub ore_blk_query : Buf → BlkKey → ℕ → ℕ → List ℕ → Outcome Buf
  unfolding blk_query_loop blk_top_mask
  ore_blk_query dst sk aim msg cname = do
    guard sk.initialized ErrorCode.sk_not_initialized
    require (not (sk.params.block_len == 0))
    mask ← blk_top_mask sk.params
    blk_query_loop sk aim cname msg (blocks sk.params) 0 mask 0 dst

  -- The loop of `ore_blk_compare`, which returns the number of the first block that answers, or zero.
  unfoldable pub blk_compare_loop :
      OreParams → OreAesKey → Block → Buf → Buf → Buf → (left : ℕ) → ℕ → ℕ → ℕ → Outcome ℕ
  blk_compare_loop params row nonce cmp_query bl br zero i ol or = ok 0
  blk_compare_loop params row nonce cmp_query bl br (suc left) i ol or =
      let rest =
        blk_compare_loop params row nonce cmp_query bl br left (suc i) (ol + blk_left_block params)
          (or + right_block params) in
      load bl (ol + aes_key_bytes) (ceil params.block_len 8) >>= λ index.
      load bl ol 16 >>= λ key_block.
      eval_keyed_hash params.cmp_len (of_value key_block) nonce >>= λ r.
      load cmp_query (16 * i) 16 >>= λ query. load br (or + index * cmp_bytes params) 8 >>= λ g_num.
      (let g_mask = mask64 params.cmp_len in
        let gres = ecb_encrypt_blk row (of_value query) in
        if bit_and gres.lo g_mask == bit_xor r (bit_and g_num g_mask) then ok (i + 1) else rest)

  -- `ore_blk_compare`. The row is always number 1.
  unfoldable pub ore_blk_compare : Buf → BlkCiphertext → BlkCiphertext → Outcome ℕ
  unfolding eq_blk_params is_valid_blk_params setup_aes_key blk_compare_loop
  ore_blk_compare cmp_query ctxt1 ctxt2 = do
    guard (ctxt1.initialized && ctxt2.initialized) ErrorCode.ctxt_not_initialized
    guard (eq_blk_params ctxt1.params ctxt2.params) ErrorCode.params_mismatch
    guard (is_valid_blk_params ctxt1.params) ErrorCode.params_invalid
    nonce ← load ctxt2.comp_right 0 16
    row ← setup_aes_key (make_block 0 1) 16
    blk_compare_loop ctxt1.params row (of_value nonce) cmp_query ctxt1.comp_left ctxt2.comp_right
        (blocks ctxt1.params) 0 0 16
