-- ===== src/Tests/Store.antt =====
-- A store and a digest to compute with, and two rows put and searched for.
use asiaccs.Base.{ℕ, ◌+◌, ◌*◌, ◌/◌, ◌%◌, ◌^◌, ◌≡◌, ◌≢◌, refl, sym, ap, arith}
use asiaccs.Base.{Bool, true, false, not, some, [], ◌∷◌, ◌++◌, if◌then◌else◌}
use asiaccs.Base.{tabulate, length-tabulate, ok, Bool-cases, inl, inr, all_below, zero, suc}
use mathlib.Core.Bool.{true≢false}
use asiaccs.Proxy.Services.{Bytes, Backend, equal_bytes, concat}
use asiaccs.Proxy.{equal_search_1}
use asiaccs.Proxy.Search.{equal_bytes_refl, equal_bytes_eq}
use asiaccs.Client.{Keys, trapdoor}
use asiaccs.Client.Put.{Session}
use asiaccs.Client.Log.{Row}
use asiaccs.Client.Index.{NoClash, Written, TellsApart, put_rows, put_rows-equal_search_1}
use asiaccs.Client.Index.{place, tag, label, answer}
use asiaccs.Tests.Toy.{toy, toy_helper, some_prg}
use asiaccs.Tests.Pairs.{pair_test, differ, two-Apart}
use asiaccs.Client.Index.{cipher}

abbrev digest : Bytes → ℕ
digest [] = 7
digest (c ∷ cs) = (digest cs * 257 + c + 1) % 2 ^ 64

abbrev pub toy_hmac : Bytes → Bytes → Bytes
toy_hmac k d = let h = digest (d ++ k) in tabulate 32 0 (λ i. h / 256 ^ i % 256)

instance abbrev pub map_backend : Backend
map_backend = record {
  hmac = toy_hmac;
  hmac_length = λ k d. length-tabulate 32 0 (λ i. digest (d ++ k) / 256 ^ i % 256);
  Store = Bytes → Bytes;
  pool_get = λ s k. s k;
  pool_put = λ s k v k'. if equal_bytes k k' then v else s k';
  get_put = λ s k v. read_back s k v (equal_bytes k k) (equal_bytes_refl k);
  get_put_other = other;
}
  where
    read_back : (s : Bytes → Bytes) (k v : Bytes) (t : Bool) → t ≡ true → (if t then v else s k) ≡ v
    read_back s k v true e = refl
    read_back s k v false e = absurd (true≢false (sym e))

    other :
        (s : Bytes → Bytes) (k k' v : Bytes)
        → k ≢ k'
        → (if equal_bytes k k' then v else s k') ≡ s k'
    other s k k' v apart = elim (Bool-cases (equal_bytes k k')) [
      | inl e ↦ absurd (apart (equal_bytes_eq k k' e))
      | inr e ↦ ap (λ t. if t then v else s k') e
    ]

abbrev pub some_keys : Keys
some_keys = record {
  pk1 = 1 ∷ [];
  pk2 = 2 ∷ [];
  pk3 = 3 ∷ [];
  pk4 = 4 ∷ [];
  pk5 = 5 ∷ [];
  pk6 = 6 ∷ [];
  pk7 = 7 ∷ [];
  pk8 = 8 ∷ [];
  pk9 = 9 ∷ [];
  pk10 = 10 ∷ [];
}

abbrev pub people : Bytes
people = 80 ∷ []

abbrev pub age : Bytes
age = 97 ∷ []

abbrev pub rows : ℕ → Row
rows i = record { key = i ∷ []; val = (40 + i) ∷ [] }

abbrev pub seal : Bytes → Bytes → Bytes
seal key val = key ++ val

abbrev pub start : Session
start = (
  record {
    keys = some_keys;
    column_counter = λ i l. 0;
    equal_v1_counter = λ i l. 0;
    equal_v2_counter = λ i l. 0;
    order_counter = λ i l. 0;
    ring = record { nodes = [] };
    ore_helper = toy_helper;
    prg = some_prg;
  },
  λ k. [],
)

abbrev here : ℕ → Bytes
here = place some_keys people age rows seal

abbrev name : ℕ → Bytes
name = label some_keys people age rows seal

pair_tests : all_below 3 (λ i. all_below 3 (λ j. pair_test here name i j)) ≡ true
unfolding equal_bytes trapdoor
pair_tests = refl

rows-NoClash : NoClash some_keys people age rows seal 2
rows-NoClash = record {
  names = two-Apart here name (λ i. cipher some_keys people age rows seal i) pair_tests;
  short = λ i h. omega arith;
  full = λ i h. omega arith;
}

start-Written : Written some_keys people age rows seal 0 2 0 start
start-Written = record {
  same_keys = refl;
  known = omega arith;
  counter = refl;
  log = record {
    entry = λ i h. absurd (omega (arith, h));
    stored = λ i h. absurd (omega (arith, h));
    free = λ j h k. refl;
  };
}

tag_test :
    not (
      equal_bytes
        (tag some_keys people age rows seal (41 ∷ []) 0)
        (tag some_keys people age rows seal (40 ∷ []) 0))
    ≡ true
unfolding equal_bytes
tag_test = refl

rows-TellsApart : TellsApart some_keys people age rows seal 2 (41 ∷ [])
rows-TellsApart zero h same = absurd (differ _ _ tag_test same)
rows-TellsApart (suc i) h same = ap (λ (n : ℕ). n ∷ []) (omega (arith, h))

put_rows-equal_search_1_example :
    (done : Session) × (put_rows some_keys people age rows seal true 0 2 start ≡ ok done)
    × (equal_search_1 3 done.1
          (toy_hmac (6 ∷ []) (80 ∷ 97 ∷ []))
          (toy_hmac (7 ∷ []) (80 ∷ 97 ∷ 41 ∷ []))
        ≡ ok (some (concat (tabulate 2 0 (answer some_keys people age rows seal (41 ∷ []))))))
put_rows-equal_search_1_example =
    put_rows-equal_search_1 some_keys people age rows seal true 0 2 3 start (41 ∷ []) rows-NoClash
      start-Written rows-TellsApart (omega arith)
