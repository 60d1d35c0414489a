-- ===== src/Tests/Sorted.antt =====
-- Rows put in plaintext, and found by the sorted set.
use asiaccs.Base.{◌≡◌, refl, none, some, List, [], ◌∷◌, ◌++◌, map}
use asiaccs.Base.{if◌then◌else◌, length}
use asiaccs.Base.Int.{ℤ, pos, scan_int, int_to_string, scan_int-int_to_string}
use asiaccs.Proxy.Services.{Bytes, codes, equal_bytes}
use asiaccs.Caravel.Redis.{
  done, Reply, text, nil, status, array, Address, Network, RedisHelper, get_word, set_word,
}
use asiaccs.Proxy.Plain.{equal_search_2_plain_text}
use asiaccs.Proxy.Plain.Server.{texts}
use asiaccs.Client.{ClientCpp, trapdoor, put_route}
use asiaccs.Client.Routing.{query, query_from}
use asiaccs.Client.Plain.{Worlds}
use asiaccs.Client.Plain.Ranked.{
  RankedServer, same_int, zadd_words, zrange_words, rows_of, has_key, Separate,
}
use asiaccs.Client.Plain.Ranked.Search.{put_plain_rows, put_plain_rows-equal_search_2_plain_text}
use asiaccs.Tests.Store.{start, people, age, map_backend}

abbrev Rows : Type 0
Rows = (Bytes → Bytes) × List (Bytes × ℤ)

unfoldable members : ℤ → List (Bytes × ℤ) → List Bytes
members u [] = []
members u ((k, n) ∷ l) = let rest = members u l in if same_int n u then k ∷ rest else rest

-- GET, SET, ZADD and ZRANGEBYSCORE.
sorted : List Bytes → Rows → Reply × Rows
unfolding members
sorted [] w = (nil, w)
sorted (c ∷ []) w = (nil, w)
sorted (c ∷ (k ∷ [])) w = (text (w.0 k), w)
sorted (c ∷ (k ∷ (v ∷ []))) w =
    (status (codes "OK"), (λ j. if equal_bytes k j then v else w.0 j, w.1))
sorted (c ∷ (k ∷ (v ∷ (m ∷ rest)))) w = elim (scan_int v) [
  | none ↦ (nil, w)
  | some n ↦
      if equal_bytes c (codes "ZADD")
      then (text (codes "1"), (w.0, (m, n) ∷ w.1))
      else (array (texts (members n w.1)), w)
]

instance abbrev one_server : Network
one_server = record {
  World = Rows;
  run_with_connection = λ a times words w. some (sorted words w);
  run = λ a words w. some (sorted words w);
}

sorted_get : (k : Bytes) (w : Rows) → some (sorted (get_word ∷ k ∷ []) w) ≡ some (text (w.0 k), w)
unfolding sorted
sorted_get k w = refl

sorted_zrange :
    (n : ℤ) (w : Rows) → some (sorted (zrange_words n) w) ≡ some (array (texts (members n w.1)), w)
unfolding sorted equal_bytes
sorted_zrange n w = rw (scan_int-int_to_string n, sorted) refl

sorted_set :
    (k v : Bytes) (w : Rows)
    → some (sorted (set_word ∷ k ∷ v ∷ []) w)
      ≡ some (status (codes "OK"), (λ j. if equal_bytes k j then v else w.0 j, w.1))
unfolding sorted
sorted_set k v w = refl

sorted_zadd :
    (k : Bytes) (n : ℤ) (w : Rows)
    → some (sorted (zadd_words k n) w) ≡ some (text (codes "1"), (w.0, (k, n) ∷ w.1))
unfolding sorted equal_bytes
sorted_zadd k n w = rw (scan_int-int_to_string n, sorted) refl

added :
    (k : Bytes) (n u : ℤ) (l : List (Bytes × ℤ))
    → members u ((k, n) ∷ l) ≡ (if same_int n u then [] ++ (k ∷ members u l) else [] ++ members u l)
unfolding members
added k n u l = refl

abbrev local : Address
local = (codes "localhost", 6379)

abbrev server : RankedServer one_server
server = record {
  at = local;
  value = λ w. w.0;
  ranked = λ w u. members u w.1;
  get = sorted_get;
  zrange = sorted_zrange;
  set = λ k v w apart. (
    status (codes "OK"),
    (λ j. if equal_bytes k j then v else w.0 j, w.1),
    sorted_set k v w,
    λ j. refl,
    λ u. refl,
  );
  zadd = λ k n w new. (
    text (codes "1"),
    (w.0, (k, n) ∷ w.1),
    sorted_zadd k n w,
    λ j. refl,
    λ u. ([], members u w.1, refl, added k n u w.1),
  );
}

abbrev helper : RedisHelper
helper = record {
  ptr_connection = none;
  map_ptr_connection = [];
  ptr_pool = some local;
  ptr_cluster_pool = none;
  map_ptr_pool = [];
}

abbrev one_proxy : ClientCpp
one_proxy = record start.0 { ring = record { nodes = 4000000000 ∷ [] } }

abbrev two_rows : List (Bytes × ℤ)
two_rows = (codes "12", pos 40) ∷ (codes "7", pos 40) ∷ []

abbrev no_rows : Worlds
no_rows id = (λ k. [], [])

empty : (v : ℤ) → members v [] ≡ []
unfolding members
empty v = refl

two_rows-Separate : Separate two_rows
unfolding has_key equal_bytes
two_rows-Separate = (refl, refl, (refl, refl, tt))

put_plain_rows-equal_search_2_plain_text_example :
    (after : Worlds) × (found : List Bytes) × (put_plain_rows one_proxy
        (λ id. helper)
        people
        age
        two_rows
        no_rows
      ≡ done after)
    × (equal_search_2_plain_text helper (int_to_string (pos 40)) (after 0)
        ≡ done (map (λ k. int_to_string (pos 40)) found, after 0))
    × (length found ≡ rows_of (pos 40) two_rows)
unfolding query query_from trapdoor put_route
put_plain_rows-equal_search_2_plain_text_example =
    put_plain_rows-equal_search_2_plain_text one_proxy (λ id. helper) people age 0 server refl
      two_rows no_rows (pos 40) empty two_rows-Separate (refl, (refl, tt))
