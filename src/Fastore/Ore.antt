-- ===== src/Fastore/Ore.antt =====
-- fastore/ore_blk.cpp, the functions `ore_*`: parameters, keys, queries (left ciphertexts) and
-- indexes (right ciphertexts), their sizes, and their set-up and clean-up.
pub mod Hash
pub mod Setup
pub mod Compare
pub mod Sizes
pub mod Digits
pub mod Cells
use asiaccs.Base.{ℕ, zero, suc, ◌+◌, ◌-◌, ◌*◌, ◌/◌, ◌%◌, ◌^◌, ◌≤◌, ◌<◌, bit_and, bit_or, bit_xor}
use asiaccs.Base.{◌≡◌, refl, sym, ap, ap₂, ◌∙◌, subst, ◌≢◌, ◌↔◌, ◌⊎◌, inl, inr, arith}
use asiaccs.Base.{Bool, true, false, ◌&&◌, ◌||◌, not, Option, none, some, List, [], ◌∷◌, ◌++◌, map}
use asiaccs.Base.{ltb, leb, ◌==◌, if◌then◌else◌, ==_iff, ltb_iff, Bool-cases, Option-cases}
use asiaccs.Base.{u8, u32, u64, sub32, shl64, shr, all_below, length, get_or, get_elem?, set}
use asiaccs.Base.{tabulate, length-append, length-tabulate, get_or-tabulate, length-map, get_or-map}
use asiaccs.Base.{map-tabulate, mod_of_split, div_of_split, pow_le, pow_pos, pow_add, pow_256}
use asiaccs.Base.{
  bytes_hold, pair_lt, ErrorCode, Outcome, ok, err, fault, ◌>>=◌, ◌>>◌, guard, require,
}
use asiaccs.Memory.{Buf, clear}
use asiaccs.Fastore.Platform.{Platform, Block, make_block, of_value}
use asiaccs.Fastore.Aes.{OreAesKey}
use asiaccs.Fastore.Crypto.{setup_aes_key, sha_256, aes_block_len, sha256_output_bytes, from_bytes}

-- `CEIL` on `uint32_t` operands.
abbrev pub ceil : ℕ → ℕ → ℕ
ceil x y = u32 (x + y + 2 ^ 32 - 1) / y

abbrev pub ore_small : ℕ
ore_small = 1

abbrev pub ore_equal : ℕ
ore_equal = 2

abbrev pub ore_large : ℕ
ore_large = 3

abbrev pub max_block_len : ℕ
max_block_len = 16

abbrev pub max_cmp_len : ℕ
max_cmp_len = 64

pub record OreParams : Type 0 where
  pub initialized : Bool
  pub nbits : ℕ
  pub block_len : ℕ
  pub cmp_len : ℕ

pub record OreKey : Type 0 where
  pub initialized : Bool
  pub org_key : List ℕ
  pub prf_key : OreAesKey
  pub prp_key : OreAesKey
  pub prg_key : OreAesKey
  pub prg_counter : ℕ
  pub params : OreParams

pub record OreQuery : Type 0 where
  pub initialized : Bool
  pub comp_left : Buf

pub record OreIndex : Type 0 where
  pub initialized : Bool
  pub comp_right : Buf

-- `1 << block_len`, kept in a `uint32_t`.
abbrev pub slots : OreParams → ℕ
slots params = u32 (2 ^ params.block_len)

abbrev pub blocks : OreParams → ℕ
blocks params = ceil params.nbits params.block_len

abbrev pub cmp_bytes : OreParams → ℕ
cmp_bytes params = ceil params.cmp_len 8

unfoldable pub ore_is_valid_params : OreParams → Bool
ore_is_valid_params params =
    if not params.initialized
    then false
    else if params.block_len == 0
        || ltb max_block_len params.block_len
        || ltb max_cmp_len params.cmp_len
    then false
    else true

unfoldable pub init_ore_params : ℕ → ℕ → ℕ → Outcome OreParams
unfolding ore_is_valid_params
init_ore_params nbits block_len cmp_len = do
  let params : OreParams = record {
    initialized = true;
    nbits = nbits;
    block_len = block_len;
    cmp_len = cmp_len;
  }
  guard (ore_is_valid_params params) ErrorCode.params_invalid
  ok params

-- The characters up to the first NUL.
unfoldable pub c_string : List ℕ → List ℕ
c_string [] = []
c_string (c ∷ cs) = if c == 0 then [] else c ∷ c_string cs

-- `char org_key[128]` after `memset` and `strcpy`.
abbrev pub pad_to : ℕ → List ℕ → List ℕ
pad_to zero s = []
pad_to (suc n) [] = 0 ∷ pad_to n []
pad_to (suc n) (c ∷ cs) = c ∷ pad_to n cs

module _ ⦃p : Platform⦄ where
  -- `middle` is the value of a local variable that the function never writes: both `memcpy` calls
  -- after the first one write to `right`.
  unfoldable pub ore_key_setup : Block → List ℕ → OreParams → Outcome OreKey
  unfolding ore_is_valid_params c_string setup_aes_key sha_256
  ore_key_setup middle input params = do
    guard (ore_is_valid_params params) ErrorCode.params_invalid
    let text = c_string input
    require (ltb (length text) 128)
    res256 ← sha_256 sha256_output_bytes (pad_to 128 text)
    prf ← setup_aes_key (of_value res256) aes_block_len
    prp ← setup_aes_key (of_value (res256 / 2 ^ 64)) aes_block_len
    prg ← setup_aes_key middle aes_block_len
    ok (record {
      initialized = true;
      org_key = pad_to 128 text;
      prf_key = prf;
      prp_key = prp;
      prg_key = prg;
      prg_counter = 0;
      params = params;
    })

-- `memset(params, 0, sizeof)`
abbrev pub no_params : OreParams
no_params = record { initialized = false; nbits = 0; block_len = 0; cmp_len = 0 }

abbrev pub no_aes_key : OreAesKey
no_aes_key = record { rd_key = []; rounds = 0 }

-- `memset(sk, 0, sizeof(ore_key))`
unfoldable pub ore_key_cleanup : OreKey → Outcome OreKey
ore_key_cleanup sk = ok (record {
  initialized = false;
  org_key = pad_to 128 [];
  prf_key = no_aes_key;
  prp_key = no_aes_key;
  prg_key = no_aes_key;
  prg_counter = 0;
  params = no_params;
})

-- The bytes of one block of a query, and of one block of an index.
abbrev pub left_block : OreParams → ℕ
left_block params = u32 (aes_block_len * 2 + ceil params.nbits 8)

abbrev pub right_block : OreParams → ℕ
right_block params = u32 (cmp_bytes params * slots params)

unfoldable pub ore_query_left_len : OreParams → ℕ
ore_query_left_len params =
    u32 (u32 (aes_block_len + aes_block_len + ceil params.nbits 8) * blocks params)

unfoldable pub ore_index_right_len : OreParams → ℕ
ore_index_right_len params =
    u32 (aes_block_len + u32 (u32 (cmp_bytes params * slots params) * blocks params))

-- What `malloc` gives for a size: nothing, or a buffer.
abbrev pub Malloc : Type 0
Malloc = ℕ → Option Buf

abbrev pub allocate : Malloc → ℕ → Outcome Buf
allocate malloc n = elim (malloc n) [ none ↦ err ErrorCode.memory_allocation | some b ↦ ok b ]

-- A null `ctxt` or `params` is `none`.
unfoldable pub ore_query_init : Malloc → Option OreQuery → Option OreParams → Outcome OreQuery
unfolding ore_is_valid_params ore_query_left_len
ore_query_init malloc none params = err ErrorCode.null_pointer
ore_query_init malloc (some ctxt) none = err ErrorCode.null_pointer
ore_query_init malloc (some ctxt) (some params) = do
  guard (ore_is_valid_params params) ErrorCode.params_invalid
  buf ← allocate malloc (ore_query_left_len params)
  ok (record { initialized = true; comp_left = buf })

unfoldable pub ore_index_init : Malloc → Option OreIndex → Option OreParams → Outcome OreIndex
unfolding ore_is_valid_params ore_index_right_len
ore_index_init malloc none params = err ErrorCode.null_pointer
ore_index_init malloc (some ctxt) none = err ErrorCode.null_pointer
ore_index_init malloc (some ctxt) (some params) = do
  guard (ore_is_valid_params params) ErrorCode.params_invalid
  buf ← allocate malloc (ore_index_right_len params)
  ok (record { initialized = true; comp_right = buf })

-- A null pointer: every access through it is a fault.
abbrev pub null_buf : Buf
null_buf = record { size = 0; at = λ o. 0 }

-- The bytes are cleared and freed, then `memset` clears the structure with its pointer.
unfoldable pub ore_query_cleanup : Option OreQuery → OreParams → Outcome (Option OreQuery)
unfolding ore_is_valid_params ore_query_left_len clear
ore_query_cleanup none params = ok none
ore_query_cleanup (some ctxt) params = do
  guard (ore_is_valid_params params) ErrorCode.params_invalid
  _ ← clear ctxt.comp_left (ore_query_left_len params)
  ok (some (record { initialized = false; comp_left = null_buf }))

unfoldable pub ore_index_cleanup : Option OreIndex → OreParams → Outcome (Option OreIndex)
unfolding ore_is_valid_params ore_index_right_len clear
ore_index_cleanup none params = ok none
ore_index_cleanup (some ctxt) params = do
  guard (ore_is_valid_params params) ErrorCode.params_invalid
  _ ← clear ctxt.comp_right (ore_index_right_len params)
  ok (some (record { initialized = false; comp_right = null_buf }))
