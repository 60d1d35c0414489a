-- ===== src/Tests/Ranked.antt =====
-- Two rows put with the second equality index, and with the column index, and searched for.
use asiaccs.Base.{all_below-elim}
use asiaccs.Base.{ℕ, ◌+◌, ◌%◌, ◌≤◌}
use asiaccs.Base.{◌≡◌, refl, sym, ap, ◌∙◌, arith}
use asiaccs.Base.{Bool, true, ◌||◌, not, some, [], ◌∷◌}
use asiaccs.Base.{all_below}
use asiaccs.Base.{tabulate}
use asiaccs.Base.{ok}
use asiaccs.Proxy.Services.{Bytes, equal_bytes, concat}
use asiaccs.Proxy.Search.{equal_bytes_refl, equal_bytes_eq}
use asiaccs.Proxy.{equal_search_2, proxy_get_column}
use asiaccs.Client.{trapdoor}
use asiaccs.Client.Log.{Row}
use asiaccs.Client.Put.{Session}
use asiaccs.Client.Ranked
use asiaccs.Client.Ranked.{put_rows-equal_search_2, answer, rank}
use asiaccs.Client.Column
use asiaccs.Client.Column.{put_rows-proxy_get_column}
use asiaccs.Tests.Toy.{toy}
use asiaccs.Tests.Pairs.{pair_test, two-Apart}
use asiaccs.Tests.Store.{some_keys, people, age, seal, start, map_backend, toy_hmac}

-- Row 2 has the value of row 0.
abbrev turns : ℕ → Row
turns i = record { key = i ∷ []; val = (40 + i % 2) ∷ [] }

abbrev here : ℕ → Bytes
here = Ranked.place some_keys people age turns seal

abbrev name : ℕ → Bytes
name = Ranked.label some_keys people age turns seal

pair_tests : all_below 3 (λ i. all_below 3 (λ j. pair_test here name i j)) ≡ true
unfolding equal_bytes trapdoor
pair_tests = refl

abbrev value_name : ℕ → Bytes
value_name i = Ranked.name some_keys people age turns seal (turns i).val

abbrev value_test : ℕ → ℕ → Bool
value_test i j =
    not (equal_bytes (value_name i) (value_name j)) || equal_bytes (turns i).val (turns j).val

value_tests : all_below 3 (λ i. all_below 3 (λ j. value_test i j)) ≡ true
unfolding equal_bytes
value_tests = refl

turns_values :
    (i j : ℕ) → i ≤ 2 → j ≤ 2 → value_name i ≡ value_name j → (turns i).val ≡ (turns j).val
turns_values i j h k same =
    let passed : value_test i j ≡ true =
      all_below-elim 3 (λ j. value_test i j)
        (all_below-elim 3 (λ i. all_below 3 (λ j. value_test i j)) value_tests i (omega (arith, h)))
        j (omega (arith, k)) in
    let met : equal_bytes (value_name i) (value_name j) ≡ true =
      ap (equal_bytes (value_name i)) (sym same) ∙ equal_bytes_refl (value_name i) in
    equal_bytes_eq (turns i).val (turns j).val
      (sym (ap (λ t. not t || equal_bytes (turns i).val (turns j).val) met) ∙ passed)

turns-NoClash : Ranked.NoClash some_keys people age turns seal 2
turns-NoClash = record {
  names = two-Apart here name (Ranked.cipher some_keys people age turns seal) pair_tests;
  values = turns_values;
  short = λ i h. omega arith;
  full = λ i h. omega arith;
}

start-Ranked : Ranked.Written some_keys people age turns seal 0 2 0 start
start-Ranked = record {
  same_keys = refl;
  known = omega arith;
  counters = λ i h. refl;
  log = record {
    entry = λ i h. absurd (omega (arith, h));
    stored = λ i h. absurd (omega (arith, h));
    free = λ j h k. refl;
  };
}

put_rows-equal_search_2_example :
    (done : Session) × (Ranked.put_rows some_keys people age turns seal true 0 2 start ≡ ok done)
    × (equal_search_2 3 done.1
          (toy_hmac (8 ∷ []) (80 ∷ 97 ∷ 40 ∷ []))
          (toy_hmac (9 ∷ []) (80 ∷ 97 ∷ 40 ∷ []))
        ≡ ok (some (concat (tabulate 2 0 (answer some_keys people age turns seal (40 ∷ []))))))
put_rows-equal_search_2_example =
    put_rows-equal_search_2 some_keys people age turns seal true 0 2 3 start turns-NoClash
      start-Ranked (omega arith)

column_tests :
    all_below 3
      (λ i. all_below 3 (λ j. pair_test (Column.place some_keys people age turns seal) name i j))
    ≡ true
unfolding equal_bytes trapdoor
column_tests = refl

column-NoClash : Column.NoClash some_keys people age turns seal 2
column-NoClash = record {
  names =
      two-Apart (Column.place some_keys people age turns seal) name
        (Column.cipher some_keys people age turns seal) column_tests;
  full = λ i h. omega arith;
}

start-Column : Column.Written some_keys people age turns seal 0 2 0 start
start-Column = record {
  same_keys = refl;
  known = omega arith;
  counter = refl;
  log = record {
    entry = λ i h. absurd (omega (arith, h));
    stored = λ i h. absurd (omega (arith, h));
    free = λ j h k. refl;
  };
}

put_rows-proxy_get_column_example :
    (done : Session) × (Column.put_rows some_keys people age turns seal true 0 2 start ≡ ok done)
    × (proxy_get_column done.1
          (toy_hmac (3 ∷ []) (80 ∷ 97 ∷ []))
          (toy_hmac (4 ∷ []) (80 ∷ 97 ∷ []))
          2
        ≡ ok (concat (tabulate 2 0 (λ i. seal (5 ∷ []) ((40 + i % 2) ∷ []) ∷ []))))
put_rows-proxy_get_column_example =
    put_rows-proxy_get_column some_keys people age turns seal true 0 2 2 start column-NoClash
      start-Column (omega arith)
