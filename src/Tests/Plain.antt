-- ===== src/Tests/Plain.antt =====
-- Plaintext queries on three proxies.
use mathlib.Core.Bool.{true≢false}
use asiaccs.Base.{sym, ◌≡◌, ◌≢◌, refl, arith, false, Option, none, some, List, [], ◌∷◌, map, ◌&&◌}
use asiaccs.Base.{if◌then◌else◌, u32, length}
use asiaccs.Base.Decimal.{to_string}
use asiaccs.Base.Int.{ℤ, pos, negsuc, scan_int, int_to_string}
use asiaccs.Base.Occurs.{sum_over}
use asiaccs.Proxy.Services.{Bytes, codes, equal_bytes}
use asiaccs.Caravel.Redis.{done, Reply, text, nil, array, str, Address, Network, RedisHelper}
use asiaccs.Proxy.Plain.{
  all_digits, starts_with_digit, equal_search_1_plain_text, order_search_plain_text,
}
use asiaccs.Proxy.Plain.Server.{RedisServer, texts}
use asiaccs.Proxy.Plain.Filter.{keep, is_wanted, HoldsInts, order_search_plain_text-keep}
use asiaccs.Proxy.Plain.Scan.{all_keys, scan_reply, IsScan, equal_search_1_plain_text-ends}
use asiaccs.Client.{ClientCpp}
use asiaccs.Client.Spread.Each.{servers}
use asiaccs.Client.Plain.{range_query_plain_text, search_plain_text}
use asiaccs.Client.Plain.Total.{
  rows_in_range, rows_equal, range_query_plain_text-total, search_plain_text-total,
}
use asiaccs.Tests.Store.{start}
use asiaccs.Tests.Spread.{counting, counting-ComesUp}

abbrev row_keys : List Bytes
row_keys = codes "1" ∷ codes "2" ∷ codes "index" ∷ []

abbrev row : Bytes → Reply
row k =
    if equal_bytes k (codes "1")
    then text (codes "5")
    else if equal_bytes k (codes "2")
    then text (codes "-3")
    else nil

-- KEYS, GET and the two pages of a SCAN; every server has the same rows.
abbrev answer : List Bytes → Reply
answer [] = nil
answer (c ∷ []) = nil
answer (c ∷ (k ∷ [])) = if equal_bytes c (codes "KEYS") then array (texts row_keys) else row k
answer (c ∷ (k ∷ (more ∷ rest))) =
    if equal_bytes k (codes "0")
    then scan_reply (codes "7") (codes "1" ∷ [])
    else scan_reply (codes "0") (codes "2" ∷ codes "index" ∷ [])

instance abbrev rows : Network
rows = record {
  World = Unit {0};
  run_with_connection = λ a times words w. some (answer words, w);
  run = λ a words w. some (answer words, w);
}

abbrev local : Address
local = (codes "localhost", 6379)

server_get :
    (k : Bytes) (w : Unit {0})
    → ◌≡◌ {A = Option (Reply × Unit {0})}
        (some (answer (codes "GET" ∷ k ∷ []), w))
        (some (row k, w))
unfolding equal_bytes
server_get k w = refl

server_keys :
    (w : Unit {0})
    → ◌≡◌ {A = Option (Reply × Unit {0})}
        (some (answer (codes "KEYS" ∷ codes "*" ∷ []), w))
        (some (array (texts row_keys), w))
unfolding equal_bytes
server_keys w = refl

abbrev server : RedisServer rows
server = record {
  at = local;
  reply = λ w k. row k;
  keys = λ w. row_keys;
  get = server_get;
  keys_all = server_keys;
}

abbrev helper : RedisHelper
helper = record {
  ptr_connection = none;
  map_ptr_connection = [];
  ptr_pool = some local;
  ptr_cluster_pool = none;
  map_ptr_pool = [];
}

abbrev number : Bytes → ℤ
number k = if equal_bytes k (codes "1") then pos 5 else negsuc 2

holds : HoldsInts server number row_keys tt
unfolding equal_bytes int_to_string all_digits to_string
holds = (λ e. (refl, refl), (λ e. (refl, refl), (λ e. absurd (true≢false (sym e)), tt)))

abbrev two_pages : List (Bytes × List Bytes)
two_pages = (codes "7", codes "1" ∷ []) ∷ (codes "0", codes "2" ∷ codes "index" ∷ []) ∷ []

scans : IsScan server tt (codes "0") two_pages
unfolding equal_bytes scan_int
scans = (refl, (pos 7, refl, refl, seven), (refl, refl))
  where
    seven : pos 7 ≢ pos 0
    seven e = ground arith

order_search_plain_text-keep_example :
    order_search_plain_text helper (int_to_string (pos 2)) (codes "1") tt
    ≡ done (
      map
          (λ k. int_to_string (number k))
          (keep
            (λ k.
              all_digits k && is_wanted (equal_bytes (codes "1") (codes "1")) (pos 2) (number k))
            row_keys),
      tt,
    )
order_search_plain_text-keep_example =
    order_search_plain_text-keep server helper refl (pos 2) (codes "1") number tt refl holds

equal_search_1_plain_text-ends_example :
    equal_search_1_plain_text 2 helper (codes "5") tt
    ≡ done (
        some (
          map
              (λ k. str (row k))
              (keep
                (λ k. starts_with_digit k && equal_bytes (codes "5") (str (row k)))
                (all_keys two_pages)),
          tt,
        ))
equal_search_1_plain_text-ends_example =
    equal_search_1_plain_text-ends server helper refl 2 (codes "5") two_pages tt (omega arith) scans

-- Two of the three rows of each server have a number for a key, and one of them is above 2.
abbrev three : ClientCpp
three = record start.0 { ring = record { nodes = 10 ∷ 20 ∷ 30 ∷ [] } }

range_query_plain_text-total_example :
    range_query_plain_text 3 counting three (λ id. helper) (pos 1) 2 (λ id. tt)
    ≡ done (
        some (
          u32 (
              sum_over
                (λ id. length (rows_in_range (λ i. server) (λ i. tt) (pos 1) 2 (λ i. number) id))
                (servers 3)),
          λ id. tt,
        ))
range_query_plain_text-total_example =
    range_query_plain_text-total 3 counting three (λ i. helper) (λ i. server) (λ i. tt)
      (omega arith) counting-ComesUp (λ i h. refl) (pos 1) 2 (λ i. number) (omega arith)
      (λ i h. holds)

search_plain_text-total_example :
    search_plain_text 2 3 counting three (λ id. helper) (pos 5) false (λ id. tt)
    ≡ done (
        some (
          u32 (
              sum_over
                (λ id. length (rows_equal (λ i. server) (λ i. tt) (pos 5) (λ i. two_pages) id))
                (servers 3)),
          λ id. tt,
        ))
search_plain_text-total_example =
    search_plain_text-total 3 counting three (λ i. helper) (λ i. server) (λ i. tt) (omega arith)
      counting-ComesUp (λ i h. refl) 2 (pos 5) (λ i. two_pages) (λ i h. (omega arith, scans))
