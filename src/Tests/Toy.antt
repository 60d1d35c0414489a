-- ===== src/Tests/Toy.antt =====
-- A platform to compute with in place of the processor and of OpenSSL, and keys over it.
use asiaccs.Base.{ℕ, ◌+◌, ◌*◌, ◌%◌, ◌^◌, bit_xor, true, ◌&&◌, List, [], ◌∷◌}
use asiaccs.Base.{◌≡◌, ◌≢◌, ◌==◌, not, arith}
use native.Mathlib.Nat.{mod-lt}
use asiaccs.Fastore.Platform.{Platform, Block, make_block}
use asiaccs.Base.{refl}
use asiaccs.Memory.{Buf}
use asiaccs.Fastore.Aes.{OreAesKey, key_expansion}
use asiaccs.Fastore.Ore.{OreParams, OreKey, ore_query_left_len, ore_index_right_len}
use asiaccs.Fastore.Ore.Hash.{Prg}
use asiaccs.Fastore.Ore.Sizes.{IsUsable}
use asiaccs.Fastore.Helper.{OreHelper}
use asiaccs.Fastore.Helper.Parts.{IsReady}

abbrev pub mix : Block → Block → Block
mix a b = record { hi = bit_xor a.hi b.hi; lo = bit_xor a.lo b.lo }

abbrev pub stir : Block → Block → Block
stir a b = make_block (bit_xor a.hi b.hi * 5 + a.lo * 2) (bit_xor a.lo b.lo * 3 + a.hi * 7 + 11)

instance abbrev pub toy : Platform
toy = record {
  xor_si128 = mix;
  aesenc_si128 = stir;
  aesenclast_si128 = stir;
  aeskeygenassist_si128 = λ b c. make_block (b.hi + c) b.lo;
  shuffle_ps = λ a b c. make_block a.lo b.hi;
  shuffle_epi32 = λ b c. make_block b.lo b.hi;
  setzero_si128 = make_block 0 0;
  aesenclast_width = λ a b. (mod-lt _ (omega arith), mod-lt _ (omega arith));
  sha256 = digest;
}
  where
    digest : List ℕ → ℕ
    digest [] = 7
    digest (c ∷ cs) = (digest cs * 257 + c + 1) % 2 ^ 256

pub apart :
    (a b : ℕ) → (not (a == 0) && not (b == 0) && not (a == b)) ≡ true → (a ≢ 0) × (b ≢ 0) × (a ≢ b)
apart a b e = ground (arith, e)

abbrev pub key_of : ℕ → OreAesKey
key_of n = key_expansion (make_block n (n * 77))

abbrev pub zeros : ℕ → Buf
zeros n = record { size = n; at = λ o. 0 }

abbrev pub some_prg : Prg
some_prg = record { initialized = true; key = key_of 6; counter = 0 }

-- Values of 32 bits in blocks of two.
abbrev pub wide_params : OreParams
wide_params = record { initialized = true; nbits = 32; block_len = 2; cmp_len = 64 }

abbrev pub wide_key : OreKey
wide_key = record {
  initialized = true;
  org_key = [];
  prf_key = key_of 3;
  prp_key = key_of 4;
  prg_key = key_of 5;
  prg_counter = 0;
  params = wide_params;
}

-- A helper after `Init`.
abbrev pub toy_helper : OreHelper
toy_helper = record {
  params = wide_params;
  key = wide_key;
  query = record { initialized = true; comp_left = zeros 576 };
  index = record { initialized = true; comp_right = zeros 528 };
}

pub wide_params-IsUsable : IsUsable wide_params
wide_params-IsUsable = record {
  ready = refl;
  block_pos = omega arith;
  block_max = omega arith;
  block_fits = omega arith;
  block_even = refl;
  cmp_max = omega arith;
  nbits_max = omega arith;
  room = omega arith;
}

pub toy_helper-IsReady : IsReady toy_helper
unfolding ore_query_left_len ore_index_right_len
toy_helper-IsReady = record {
  usable = wide_params-IsUsable;
  key_set = refl;
  key_params = refl;
  query_set = refl;
  index_set = refl;
  query_room = omega arith;
  index_room = omega arith;
}
