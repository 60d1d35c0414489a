-- ===== src/Tests/Blocks.antt =====
-- The first form of the scheme on values of eight bits, and a helper with an odd block length.
use asiaccs.Base.{ℕ}
use asiaccs.Base.{◌≡◌, refl, arith}
use asiaccs.Base.{true, none, [], ◌∷◌}
use asiaccs.Base.{tabulate}
use asiaccs.Base.{ok, fault}
use asiaccs.Fastore.Ore.{OreParams, ore_is_valid_params, ore_query_left_len}
use asiaccs.Fastore.Ore.Hash.{next_prg_block}
use asiaccs.Fastore.Blk.{BlkKey, BlkCiphertext, ore_blk_encrypt_ui, blk_len_right}
use asiaccs.Fastore.Blk.Memory.{IsWide}
use asiaccs.Fastore.Blk.Encrypt.{BlkReady, seeded, ore_blk_encrypt_ui-ok}
use asiaccs.Fastore.Blk.Short.{IsShort, ore_blk_encrypt_ui-fault}
use asiaccs.Fastore.Helper.{OreHelper, create_left}
use asiaccs.Fastore.Helper.Odd.{IsOdd, create_left-odd}
use asiaccs.Tests.Toy.{toy, key_of, zeros, some_prg, wide_key}

abbrev params_with : ℕ → OreParams
params_with cmp = record { initialized = true; nbits = 8; block_len = 4; cmp_len = cmp }

abbrev blk_key : ℕ → BlkKey
blk_key cmp = record {
  initialized = true;
  prf_key = key_of 3;
  prp_key = key_of 4;
  params = params_with cmp;
}

abbrev blank : ℕ → ℕ → BlkCiphertext
blank cmp right = record {
  initialized = true;
  comp_left = zeros 34;
  comp_right = zeros right;
  params = params_with cmp;
}

eight_bytes-IsWide : IsWide (params_with 64)
eight_bytes-IsWide = record {
  usable = record {
    ready = refl;
    block_pos = omega arith;
    block_max = omega arith;
    block_fits = omega arith;
    block_even = refl;
    cmp_max = omega arith;
    nbits_max = omega arith;
    room = omega arith;
  };
  eight = refl;
  narrow = omega arith;
}

blank-BlkReady : BlkReady (blk_key 64) (blank 64 272)
blank-BlkReady = record {
  key_set = refl;
  set = refl;
  same = refl;
  left_room = omega arith;
  right_room = omega arith;
}

ore_blk_encrypt_ui-ok_example :
    (c : BlkCiphertext) × (ore_blk_encrypt_ui none true some_prg
        (blank 64 272)
        (blk_key 64)
        200
        (97 ∷ [])
        1
      ≡ (ok c, (next_prg_block (seeded none some_prg)).1))
    × (c.initialized ≡ true)
    × (c.params ≡ params_with 64)
    × (c.comp_left.size ≡ 34)
    × (c.comp_right.size ≡ 272)
ore_blk_encrypt_ui-ok_example =
    ore_blk_encrypt_ui-ok (blk_key 64) (blank 64 272) none some_prg 200 (97 ∷ []) 1
      eight_bytes-IsWide blank-BlkReady

four_bytes-IsShort : IsShort (params_with 32)
four_bytes-IsShort = record {
  usable = record {
    ready = refl;
    block_pos = omega arith;
    block_max = omega arith;
    block_fits = omega arith;
    block_even = refl;
    cmp_max = omega arith;
    nbits_max = omega arith;
    room = omega arith;
  };
  few = omega arith;
  narrow = omega arith;
}

short-BlkReady : BlkReady (blk_key 32) (blank 32 144)
short-BlkReady = record {
  key_set = refl;
  set = refl;
  same = refl;
  left_room = omega arith;
  right_room = omega arith;
}

ore_blk_encrypt_ui-fault_example :
    (ore_blk_encrypt_ui none true some_prg (blank 32 144) (blk_key 32) 200 (97 ∷ []) 1).0 ≡ fault
unfolding blk_len_right
ore_blk_encrypt_ui-fault_example =
    ore_blk_encrypt_ui-fault (blk_key 32) four_bytes-IsShort (blank 32 144) none some_prg 200
      (97 ∷ []) 1 short-BlkReady refl

abbrev odd_helper : OreHelper
odd_helper = record {
  params = record { initialized = true; nbits = 32; block_len = 5; cmp_len = 64 };
  key = record wide_key {
    params = record { initialized = true; nbits = 32; block_len = 5; cmp_len = 64 };
  };
  query = record { initialized = true; comp_left = zeros 252 };
  index = record { initialized = true; comp_right = zeros 16 };
}

odd_helper-IsOdd : IsOdd odd_helper
unfolding ore_is_valid_params ore_query_left_len
odd_helper-IsOdd = record {
  valid = refl;
  odd = refl;
  some_blocks = omega arith;
  key_set = refl;
  key_params = refl;
  query_set = refl;
  query_room = omega arith;
}

create_left-odd_example :
    create_left odd_helper 1088 true (80 ∷ []) (97 ∷ []) 41
    ≡ ok (
      tabulate (ore_query_left_len odd_helper.params) 0 odd_helper.query.comp_left.at,
      odd_helper,
    )
unfolding ore_query_left_len
create_left-odd_example =
    create_left-odd odd_helper 1088 true (80 ∷ []) (97 ∷ []) 41 odd_helper-IsOdd (omega arith)
