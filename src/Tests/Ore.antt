-- ===== src/Tests/Ore.antt =====
-- The order-revealing scheme on four values of two bits.
use asiaccs.Base.{all_below-elim}
use asiaccs.Base.{ℕ, Bool, true, ◌&&◌, List, [], ◌∷◌}
use asiaccs.Base.{◌≡◌, refl, inl, ◌==◌, not, all_below, arith}
use asiaccs.Base.{some, ok}
use asiaccs.Memory.{read}
use asiaccs.Fastore.Ore.Setup.{ore_query_setup, ore_index_setup}
use asiaccs.Fastore.Ore.Setup.Query.{QueryReady, QueryCells, ore_query_setup-QueryCells}
use asiaccs.Fastore.Ore.Setup.Rows.{IndexReady, IndexCells, ore_index_setup-IndexCells}
use asiaccs.Fastore.Ore.Compare.Blocks.{Separates}
use asiaccs.Fastore.Platform.{of_value}
use asiaccs.Fastore.Aes.{key_expansion, ecb_encrypt_blk, middle_rounds, expand_from, expand_assist}
use asiaccs.Fastore.Ore.{OreParams, OreKey, OreQuery, OreIndex}
use asiaccs.Fastore.Ore.{c_string}
use asiaccs.Fastore.Ore.Hash.{next_prg_block}
use asiaccs.Fastore.Ore.Cells.{row_token, token}
use asiaccs.Fastore.Ore.Compare.{ore_compare}
use asiaccs.Fastore.Ore.Compare.Order.{order, ore_compare-order}
use asiaccs.Fastore.Ore.Sizes.{IsUsable}
use asiaccs.Tests.Toy.{toy, apart, key_of, zeros, some_prg}

abbrev two_bits : OreParams
two_bits = record { initialized = true; nbits = 4; block_len = 2; cmp_len = 16 }

abbrev some_key : OreKey
some_key = record {
  initialized = true;
  org_key = [];
  prf_key = key_of 3;
  prp_key = key_of 4;
  prg_key = key_of 5;
  prg_counter = 0;
  params = two_bits;
}

abbrev age : List ℕ
age = 97 ∷ 103 ∷ 101 ∷ 0 ∷ []

abbrev row_test : ℕ → Bool
row_test j =
    let low = row_token some_key (toy.sha256 (c_string age)) 9 j 1 in
    let high = row_token some_key (toy.sha256 (c_string age)) 9 j 3 in
    not (low == 0) && not (high == 0) && not (low == high)

row_tests : all_below 4 row_test ≡ true
unfolding row_token token c_string key_expansion expand_from expand_assist ecb_encrypt_blk
    middle_rounds
row_tests = refl

some_key-Separates : Separates some_key (toy.sha256 (c_string age)) 9
some_key-Separates j h =
    let low = row_token some_key (toy.sha256 (c_string age)) 9 j 1 in
    let high = row_token some_key (toy.sha256 (c_string age)) 9 j 3 in
    apart low high (all_below-elim 4 row_test row_tests j h)

two_bits-IsUsable : IsUsable two_bits
two_bits-IsUsable = record {
  ready = refl;
  block_pos = omega arith;
  block_max = omega arith;
  block_fits = omega arith;
  block_even = refl;
  cmp_max = omega arith;
  nbits_max = omega arith;
  room = omega arith;
}

abbrev fresh_query : OreQuery
fresh_query = record { initialized = true; comp_left = zeros 66 }

abbrev fresh_index : OreIndex
fresh_index = record { initialized = true; comp_right = zeros 32 }

fresh_query-QueryReady : QueryReady some_key 6 fresh_query
fresh_query-QueryReady = record {
  key_set = refl;
  set = refl;
  fits = omega arith;
  room = omega arith;
}

fresh_index-IndexReady : IndexReady some_key 9 fresh_index
fresh_index-IndexReady = record {
  key_set = refl;
  set = refl;
  fits = omega arith;
  room = omega arith;
}

ore_compare-order_example :
    (q : OreQuery) × (c : OreIndex) × (ore_query_setup (some fresh_query) some_key 6 age 1 ≡ ok q)
    × ((ore_index_setup true some_prg fresh_index some_key 9 age 9).0 ≡ ok c)
    × (ore_compare q c two_bits 9 ≡ ok (order 1 6 9))
ore_compare-order_example =
    ore_compare-order some_key two_bits-IsUsable 6 9 1 9 age some_prg fresh_query fresh_index
      fresh_query-QueryReady fresh_index-IndexReady (inl refl) some_key-Separates

ore_query_setup-QueryCells_example :
    (q : OreQuery) × (ore_query_setup (some fresh_query) some_key 6 age 1 ≡ ok q)
    × (q.initialized ≡ true)
    × (q.comp_left.size ≡ 66)
    × QueryCells some_key two_bits-IsUsable (toy.sha256 (c_string age)) 1 6 2 0 0 q.comp_left.at
ore_query_setup-QueryCells_example =
    ore_query_setup-QueryCells some_key two_bits-IsUsable 6 1 age fresh_query fresh_query-QueryReady

ore_index_setup-IndexCells_example :
    (c : OreIndex) × (ore_index_setup true some_prg fresh_index some_key 9 age 9
      ≡ (ok c, (next_prg_block some_prg).1))
    × (c.initialized ≡ true)
    × (c.comp_right.size ≡ 32)
    × (of_value (read c.comp_right.at 0 16) ≡ (next_prg_block some_prg).0)
    × IndexCells some_key two_bits-IsUsable
        (toy.sha256 (c_string age))
        9
        (next_prg_block some_prg).0
        9
        2
        0
        16
        c.comp_right.at
ore_index_setup-IndexCells_example =
    ore_index_setup-IndexCells some_key two_bits-IsUsable some_prg fresh_index 9 9 age
      fresh_index-IndexReady
