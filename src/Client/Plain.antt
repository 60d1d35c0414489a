-- ===== src/Client/Plain.antt =====
-- Client/ClientCpp.cpp: the operations on plaintext, over the proxies with their Redis servers.
pub mod Total
pub mod Ranked
use asiaccs.Base.{ℕ, zero, suc, ◌^◌, Bool, true, false, Option, none, some, List, [], ◌∷◌, ◌++◌}
use asiaccs.Base.{◌==◌, if◌then◌else◌, u32, length, Outcome, ok, err, fault}
use asiaccs.Base.Decimal.{to_string}
use asiaccs.Base.Int.{ℤ, int_to_string}
use asiaccs.Proxy.Services.{Bytes, Backend, codes}
use asiaccs.Caravel.Redis.{Run, done, thrown, undefined, ◌>>=◌, Network, RedisHelper, run_outcome}
use asiaccs.Proxy.Plain.{
  run_command, plain_put, equal_search_1_plain_text, equal_search_2_plain_text,
  order_search_plain_text,
}
use asiaccs.Client.{ClientCpp, trapdoor, put_route}
use asiaccs.Client.Routing.{query}
use asiaccs.Client.Spread.{server_order}

module _ ⦃net : Network⦄ where
  -- The Redis servers of the proxies, by the number of the proxy.
  abbrev pub Worlds : Type 0
  Worlds = ℕ → net.World

  abbrev pub update : Worlds → ℕ → net.World → Worlds
  update worlds id w j = if id == j then w else worlds j

  -- The proxies in the order of a list; `join` puts an answer to the ones before. `none` when the loop of
  -- a proxy needs more rounds than it has.
  unfoldable pub ask_in_order :
      (ℕ → net.World → Run (Option (List Bytes × net.World)))
      → (List Bytes → List Bytes → List Bytes)
      → List ℕ
      → List Bytes
      → Worlds
      → Run (Option (List Bytes × Worlds))
  ask_in_order ask join [] all worlds = done (some (all, worlds))
  ask_in_order ask join (id ∷ ids) all worlds = ask id (worlds id) >>= elim [
    | none ↦ done none
    | some (found, w) ↦ ask_in_order ask join ids (join all found) (update worlds id w)
  ]

  -- The random sequence of the proxies, the loop over them, and the number of the results. Each place of
  -- the sequence takes at most `draws` random numbers.
  unfoldable pub ask_at_random :
      (ℕ → net.World → Run (Option (List Bytes × net.World)))
      → (List Bytes → List Bytes → List Bytes)
      → ℕ
      → (ℕ → ℕ)
      → ClientCpp
      → Worlds
      → Run (Option (ℕ × Worlds))
  unfolding server_order ask_in_order
  ask_at_random ask join draws rand client worlds =
      run_outcome (server_order draws rand (length client.ring.nodes)) >>= elim [
        | none ↦ done none
        | some order ↦ ask_in_order ask join order [] worlds >>= elim [
          | none ↦ done none
          | some (all, worlds1) ↦ done (some (u32 (length all), worlds1))
        ]
      ]

  -- `SearchPlainText`; the proxies have `fuel` rounds each for their cursors.
  unfoldable pub search_plain_text :
      ℕ
      → ℕ
      → (ℕ → ℕ)
      → ClientCpp
      → (ℕ → RedisHelper)
      → ℤ
      → Bool
      → Worlds
      → Run (Option (ℕ × Worlds))
  unfolding ask_at_random
  search_plain_text fuel draws rand client helpers val index_v2 worlds =
      let key = int_to_string val in
      let ask = λ (id : ℕ) (w : net.World).
        if index_v2
        then (equal_search_2_plain_text (helpers id) key w >>= λ r. done (some r))
        else equal_search_1_plain_text fuel (helpers id) key w in
      ask_at_random ask (λ all found. all ++ found) draws rand client worlds

  -- `RangeQueryPlainText`; `val` is a `uint32_t`.
  unfoldable pub range_query_plain_text :
      ℕ → (ℕ → ℕ) → ClientCpp → (ℕ → RedisHelper) → ℤ → ℕ → Worlds → Run (Option (ℕ × Worlds))
  unfolding ask_at_random
  range_query_plain_text draws rand client helpers cmp val worlds =
      let ask = λ (id : ℕ) (w : net.World).
        order_search_plain_text (helpers id) (to_string val) (int_to_string cmp) w >>= λ r.
        done (some r) in
      ask_at_random ask (λ all found. found ++ all) draws rand client worlds

  -- One row of `PutPlainText` under its plain key.
  abbrev pub put_row : RedisHelper → Bytes → Bytes → net.World → Run net.World
  put_row h key val w = plain_put h key val [] [] w

  -- `PutPlainText`: the proxy is chosen as `Put` chooses it; the flags are for the two equality
  -- indexes and the order index.
  unfoldable pub put_plain_text :
      ⦃b : Backend⦄
      → ClientCpp
      → (ℕ → RedisHelper)
      → Bytes
      → Bytes
      → Bytes
      → ℤ
      → Bool
      → Bool
      → Bool
      → Worlds
      → Run Worlds
  unfolding trapdoor put_route plain_put
  put_plain_text client helpers table key col val equal_v1 equal_v2 ore worlds = do
    id ← elim (query client.ring (put_route (trapdoor client.keys table key col))) [
      | none ↦ undefined
      | some node ↦ done node
    ]
    let send_val = int_to_string val
    w1 ← if equal_v1 then put_row (helpers id) key send_val (worlds id) else done (worlds id)
    let add = codes "ZADD" ∷ codes "index" ∷ send_val ∷ key ∷ []
    w2 ←
        if equal_v2
        then (run_command (helpers id) add w1 >>= λ r. put_row (helpers id) key send_val r.1)
        else done w1
    w3 ← if ore then put_row (helpers id) key send_val w2 else done w2
    done (update worlds id w3)
