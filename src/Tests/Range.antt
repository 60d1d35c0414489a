-- ===== src/Tests/Range.antt =====
-- Two rows put with the order index and searched for by their order.
use asiaccs.Base.{all_below-elim}
use asiaccs.Base.{ℕ, ◌+◌, ◌<◌}
use asiaccs.Base.{◌≡◌, refl, arith}
use asiaccs.Base.{Bool, true, ◌&&◌, not, some, [], ◌∷◌, ◌++◌}
use asiaccs.Base.{◌==◌}
use asiaccs.Base.{all_below}
use asiaccs.Base.{tabulate}
use asiaccs.Base.{ok}
use asiaccs.Fastore.Ore.{c_string, Malloc}
use asiaccs.Fastore.Ore.Compare.Blocks.{Separates}
use asiaccs.Fastore.Ore.Cells.{row_token, token}
use asiaccs.Fastore.Ore.{ore_query_left_len, ore_index_right_len}
use asiaccs.Fastore.Platform.{make_block}
use asiaccs.Fastore.Aes.{key_expansion, ecb_encrypt_blk, middle_rounds, expand_from, expand_assist}
use asiaccs.Fastore.Helper.{OreHelper, create_left}
use asiaccs.Proxy.Services.{Bytes, equal_bytes, concat}
use asiaccs.Proxy.Order.{order_search}
use asiaccs.Client.{trapdoor}
use asiaccs.Client.Log.{Row}
use asiaccs.Client.Put.{Session, max_ore_left}
use asiaccs.Client.Range.{
  IsOrderKey, NoClash, Written, put_rows, put_rows-order_search, answer, place, label, cipher,
}
use asiaccs.Tests.Toy.{
  toy, toy_helper, toy_helper-IsReady, wide_key, wide_params-IsUsable, apart, zeros,
}
use asiaccs.Tests.Pairs.{pair_test, two-Apart}
use asiaccs.Tests.Store.{some_keys, people, age, seal, start, map_backend, toy_hmac}

abbrev words : ℕ → Row
words i = record { key = i ∷ []; val = (40 + i) ∷ 0 ∷ 0 ∷ 0 ∷ [] }

wide_key-IsOrderKey : IsOrderKey wide_key
unfolding ore_query_left_len ore_index_right_len
wide_key-IsOrderKey = record {
  usable = wide_params-IsUsable;
  wide = omega arith;
  right_fits = omega arith;
  left_fits = omega arith;
}

abbrev here : ℕ → Bytes
here = place wide_key wide_key-IsOrderKey some_keys people age words seal

abbrev name : ℕ → Bytes
name = label wide_key wide_key-IsOrderKey some_keys people age words seal

pair_tests : all_below 3 (λ i. all_below 3 (λ j. pair_test here name i j)) ≡ true
unfolding equal_bytes trapdoor
pair_tests = refl

abbrev row_test : ℕ → ℕ → Bool
row_test i j =
    let low = row_token wide_key (toy.sha256 (c_string (people ++ age))) i j 1 in
    let high = row_token wide_key (toy.sha256 (c_string (people ++ age))) i j 3 in
    not (low == 0) && not (high == 0) && not (low == high)

row_tests : all_below 2 (λ i. all_below 4 (λ j. row_test i j)) ≡ true
unfolding row_token token c_string key_expansion expand_from expand_assist ecb_encrypt_blk
    middle_rounds
row_tests = refl

words-Separates : (i : ℕ) → i < 2 → Separates wide_key (toy.sha256 (c_string (people ++ age))) i
words-Separates i h j k =
    apart (row_token wide_key (toy.sha256 (c_string (people ++ age))) i j 1)
      (row_token wide_key (toy.sha256 (c_string (people ++ age))) i j 3)
      (all_below-elim 4 (λ j. row_test i j)
        (all_below-elim 2 (λ i. all_below 4 (λ j. row_test i j)) row_tests i h) j k)

words-NoClash : NoClash wide_key wide_key-IsOrderKey some_keys people age words seal 2
words-NoClash = record {
  names =
      two-Apart here name (cipher wide_key wide_key-IsOrderKey some_keys people age words seal)
        pair_tests;
  four_bytes = λ i h. omega arith;
  small = λ i h. omega (arith, h);
  full = λ i h. omega arith;
  tokens = words-Separates;
}

start-Written : Written wide_key wide_key-IsOrderKey some_keys people age words seal 0 2 0 start
start-Written = record {
  same_keys = refl;
  same_key = refl;
  ready = toy_helper-IsReady;
  known = omega arith;
  counter = refl;
  log = record {
    entry = λ i h. absurd (omega (arith, h));
    stored = λ i h. absurd (omega (arith, h));
    free = λ j h k. refl;
  };
}

abbrev always : Malloc
always n = some (zeros n)

put_rows-order_search_example :
    (done : Session) × (put_rows wide_key wide_key-IsOrderKey some_keys people age words seal 0 2
        start
      ≡ ok done)
    × (left : Bytes) × (helper : OreHelper) × (create_left done.0.ore_helper max_ore_left true
          people age 41
        ≡ ok (left, helper))
    × (order_search always
          (make_block 0 0)
          toy_helper
          2
          3
          done.1
          (toy_hmac (10 ∷ []) (80 ∷ 97 ∷ []))
          left
        ≡ ok (
            some (
              concat (
                tabulate 2 0
                  (answer wide_key wide_key-IsOrderKey some_keys people age words seal true 41)))))
put_rows-order_search_example =
    put_rows-order_search wide_key wide_key-IsOrderKey some_keys people age words seal 0 2 3 2 start
      true 41 always (make_block 0 0) toy_helper words-NoClash start-Written refl
      (λ n. (zeros n, refl, omega arith)) (omega arith) (omega arith)
