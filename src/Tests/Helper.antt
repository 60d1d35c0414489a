-- ===== src/Tests/Helper.antt =====
-- The helper of the client and the proxy on values of 32 bits in blocks of two.
use asiaccs.Base.{all_below-elim}
use asiaccs.Base.{ℕ}
use asiaccs.Base.{◌≡◌, refl, arith}
use asiaccs.Base.{Bool, true, ◌&&◌, not, some, List, [], ◌∷◌, ◌++◌}
use asiaccs.Base.{◌==◌}
use asiaccs.Base.{all_below}
use asiaccs.Base.{ok}
use asiaccs.Fastore.Ore.{c_string}
use asiaccs.Fastore.Ore.Compare.Blocks.{Separates}
use asiaccs.Fastore.Ore.Compare.Order.{order}
use asiaccs.Fastore.Ore.Cells.{row_token, token}
use asiaccs.Fastore.Ore.{ore_query_left_len, ore_index_right_len}
use asiaccs.Fastore.Aes.{key_expansion, ecb_encrypt_blk, middle_rounds, expand_from, expand_assist}
use asiaccs.Fastore.Helper.{OreHelper, create_left, create_right, compare_ore}
use asiaccs.Fastore.Helper.Order.{compare_ore-order}
use asiaccs.Tests.Toy.{toy, toy_helper, toy_helper-IsReady, some_prg, wide_key, apart}

abbrev people : List ℕ
people = 80 ∷ []

abbrev age : List ℕ
age = 97 ∷ []

abbrev row_test : ℕ → Bool
row_test j =
    let low = row_token wide_key (toy.sha256 (c_string (people ++ age))) 3 j 1 in
    let high = row_token wide_key (toy.sha256 (c_string (people ++ age))) 3 j 3 in
    not (low == 0) && not (high == 0) && not (low == high)

row_tests : all_below 4 row_test ≡ true
unfolding row_token token c_string key_expansion expand_from expand_assist ecb_encrypt_blk
    middle_rounds
row_tests = refl

wide_key-Separates : Separates wide_key (toy.sha256 (c_string (people ++ age))) 3
wide_key-Separates j h =
    let low = row_token wide_key (toy.sha256 (c_string (people ++ age))) 3 j 1 in
    let high = row_token wide_key (toy.sha256 (c_string (people ++ age))) 3 j 3 in
    apart low high (all_below-elim 4 row_test row_tests j h)

compare_ore-order_example :
    (left right : List ℕ) × (hc' hc'' hp' : OreHelper) × (create_left toy_helper 576 true people age
        3000000000
      ≡ ok (left, hc'))
    × ((create_right true some_prg toy_helper 528 people age 3 41).0 ≡ ok (right, hc''))
    × (compare_ore toy_helper left right 3 ≡ ok (some (order 3 3000000000 41), hp'))
unfolding ore_query_left_len ore_index_right_len
compare_ore-order_example =
    compare_ore-order toy_helper toy_helper some_prg 576 528 true people age 3 3000000000 41
      toy_helper-IsReady toy_helper-IsReady refl (omega arith) (omega arith) (omega arith)
      (omega arith) (omega arith) wide_key-Separates
