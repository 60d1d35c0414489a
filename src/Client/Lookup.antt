-- ===== src/Client/Lookup.antt =====
-- Client/ClientCpp.cpp: `Get` and the searches on the encrypted indexes.
use asiaccs.Base.{ℕ, zero, suc, ◌+◌}
use asiaccs.Base.{Bool, Option, none, some, List, [], ◌++◌}
use asiaccs.Base.{leb, ◌==◌, if◌then◌else◌}
use asiaccs.Base.{length}
use asiaccs.Base.{Outcome, ok, fault, ◌>>=◌, ◌>>◌, require}
use asiaccs.Proxy.Services.{Bytes, Backend}
use asiaccs.Proxy.{proxy_get, equal_search_1, equal_search_2}
use asiaccs.Client.Routing.{query}
use asiaccs.Fastore.Platform.{Platform, Block}
use asiaccs.Fastore.Ore.{Malloc}
use asiaccs.Proxy.Order.{order_search}
use asiaccs.Fastore.Helper.{OreHelper, create_left}
use asiaccs.Client.Put.{max_ore_left}
use asiaccs.Base.{◌/◌, map}
use asiaccs.Proxy.{proxy_get_column}
use asiaccs.Client.{ClientCpp, Keys, get_route, trapdoor, max_tdvalue_size}

module _ ⦃b : Backend⦄ where
  -- `Get`: an empty answer leaves the result as it was.
  unfoldable pub get :
      (Bytes → Bytes → Bytes)
      → Bytes
      → Bytes
      → Bytes
      → Bytes
      → ClientCpp
      → (ℕ → b.Store)
      → Outcome Bytes
  unfolding trapdoor
  get decrypt old table key col client servers = do
    let td = trapdoor client.keys table key col
    id ← elim (query client.ring (get_route td)) [ none ↦ fault | some node ↦ ok node ]
    let ret = proxy_get (servers id) td
    ok (if length ret == 0 then old else decrypt client.keys.pk5 ret)

  -- What `Search` sends to each proxy: where the index is, and what to compare with.
  unfoldable pub search_tokens : Keys → Bytes → Bytes → Bytes → Bool → Outcome (Bytes × Bytes)
  search_tokens keys table col val index_v2 = do
    require (leb (length (table ++ col) + length val) max_tdvalue_size)
    let v1 : Bytes × Bytes =
        (b.hmac keys.pk6 (table ++ col), b.hmac keys.pk7 ((table ++ col) ++ val))
    let v2 : Bytes × Bytes =
        (b.hmac keys.pk8 ((table ++ col) ++ val), b.hmac keys.pk9 ((table ++ col) ++ val))
    ok (if index_v2 then v2 else v1)

  -- The answers of the proxies in turn, put together.
  unfoldable pub ask_all :
      (ℕ → Outcome (Option (List Bytes))) → (left : ℕ) → ℕ → Outcome (Option (List Bytes))
  ask_all ask zero id = ok (some [])
  ask_all ask (suc left) id =
      let rest = ask_all ask left (suc id) in
      ask id >>= elim [
        | none ↦ ok none
        | some found ↦ rest >>= elim [ none ↦ ok none | some more ↦ ok (some (found ++ more)) ]
      ]

  -- `Search`, with the number of the results. The proxies get `fuel` rounds each.
  unfoldable pub search :
      ℕ → ClientCpp → (ℕ → b.Store) → Bytes → Bytes → Bytes → Bool → Outcome (Option ℕ)
  unfolding search_tokens ask_all
  search fuel client servers table col val index_v2 = do
    (index_trapdoor, index_val) ← search_tokens client.keys table col val index_v2
    let one_server = λ (id : ℕ).
        if index_v2
        then equal_search_2 fuel (servers id) index_trapdoor index_val
        else equal_search_1 fuel (servers id) index_trapdoor index_val
    found ← ask_all one_server (length client.ring.nodes) 0
    ok (elim found [ none ↦ none | some all ↦ some (length all) ])

  -- `RangeQuery`, with the number of the results, to which the order of the proxies does not matter. Each
  -- proxy makes its helper from `malloc`, `middle` and `blank` for its own block size.
  unfoldable pub range_query :
      ⦃p : Platform⦄
      → Malloc
      → Block
      → OreHelper
      → ℕ
      → ℕ
      → ClientCpp
      → (ℕ → b.Store)
      → Bytes
      → Bytes
      → Bool
      → ℕ
      → Outcome (Option ℕ × ClientCpp)
  unfolding ask_all
  range_query malloc middle blank block_size fuel client servers table col above val = do
    made ← create_left client.ore_helper max_ore_left above table col val
    let one_server = λ (id : ℕ).
        order_search malloc middle blank block_size fuel (servers id)
          (b.hmac client.keys.pk10 (table ++ col)) made.0
    found ← ask_all one_server (length client.ring.nodes) 0
    ok (
      elim found [ none ↦ none | some all ↦ some (length all) ],
      record client { ore_helper = made.1 },
    )

  -- The columns of the proxies in turn, each in front of the ones before.
  unfoldable pub all_columns :
      (ℕ → Outcome (List Bytes)) → (left : ℕ) → ℕ → List Bytes → Outcome (List Bytes)
  all_columns ask zero id found = ok found
  all_columns ask (suc left) id found =
      ask id >>= λ column. all_columns ask left (suc id) (column ++ found)

  -- `GetCol`: each proxy is asked for its share of the number. The plaintexts go behind the ones that the caller has.
  unfoldable pub get_col :
      (Bytes → Bytes → Bytes)
      → List Bytes
      → Bytes
      → Bytes
      → ℕ
      → ClientCpp
      → (ℕ → b.Store)
      → Outcome (List Bytes)
  unfolding all_columns
  get_col decrypt old table col num client servers = do
    let count = length client.ring.nodes
    let share = num / count
    let one_server = λ (id : ℕ).
        proxy_get_column (servers id) (b.hmac client.keys.pk3 (table ++ col))
          (b.hmac client.keys.pk4 (table ++ col)) share
    found ← all_columns one_server count 0 []
    ok (old ++ map (decrypt client.keys.pk5) found)
