-- ===== src/Client/Plain/Total.antt =====
-- Client/ClientCpp.cpp: a plaintext query counts the rows of all proxies, in whichever order it asks.
use mathlib.Core.Path.{fun_ext}
use mathlib.Core.List.{◌++◌}
use asiaccs.Base.{ℕ, ◌+◌, ◌^◌, ◌≤◌, ◌<◌, ◌≡◌, refl, ap, ◌∙◌, arith, inl, inr}
use asiaccs.Base.{false, ◌&&◌, Option, some, List, [], ◌∷◌, map}
use asiaccs.Base.{◌==◌, ==_iff, Bool-cases, u32, length, length-append, length-map}
use asiaccs.Base.Int.{ℤ, pos, int_to_string}
use asiaccs.Base.Occurs.{occurs, occurs-cons_self, sum_over, sum_over-congr}
use asiaccs.Proxy.Services.{Bytes, codes, equal_bytes}
use asiaccs.Caravel.Redis.{Run, done, ◌>>=◌, Network, RedisHelper, str}
use asiaccs.Proxy.Plain.{
  all_digits, starts_with_digit, order_search_plain_text, equal_search_1_plain_text,
}
use asiaccs.Proxy.Plain.Server.{RedisServer}
use asiaccs.Proxy.Plain.Filter.{keep, is_wanted, HoldsInts, order_search_plain_text-keep}
use asiaccs.Proxy.Plain.Scan.{all_keys, IsScan, equal_search_1_plain_text-ends}
use asiaccs.Client.{ClientCpp}
use asiaccs.Client.Spread.{max_servers}
use asiaccs.Client.Spread.Each.{ComesUp, servers, occurs-le-one, server_order-each}
use asiaccs.Client.Plain.{
  Worlds, update, ask_in_order, ask_at_random, search_plain_text, range_query_plain_text,
}

occurs-cons_le : (k x : ℕ) (xs : List ℕ) → occurs k xs ≤ occurs k (x ∷ xs)
unfolding occurs
occurs-cons_le k x xs = ground arith

module _ ⦃net : Network⦄ (redis : ℕ → RedisServer net) (worlds : Worlds) where
  -- The rows of a proxy that a range query counts.
  abbrev pub rows_in_range : ℤ → ℕ → (ℕ → Bytes → ℤ) → ℕ → List Bytes
  rows_in_range cmp val number id =
      keep
        (λ k.
          all_digits k
          && is_wanted (equal_bytes (int_to_string cmp) (codes "1")) (pos val) (number id k))
        ((redis id).keys (worlds id))

  -- The rows of a proxy that hold a value under a key that begins with a digit.
  abbrev pub rows_equal : ℤ → (ℕ → List (Bytes × List Bytes)) → ℕ → List Bytes
  rows_equal val pages id =
      keep
        (λ k.
          starts_with_digit k
          && equal_bytes (int_to_string val) (str ((redis id).reply (worlds id) k)))
        (all_keys (pages id))

module _ ⦃net : Network⦄ where
  update_same : (worlds : Worlds) (id : ℕ) → update worlds id (worlds id) ≡ worlds
  update_same worlds id = fun_ext λ j. elim (Bool-cases (id == j)) [
    | inl e ↦ rw e (ap worlds ((==_iff id j).0 e))
    | inr e ↦ rw e refl
  ]

  module _ (ask : ℕ → net.World → Run (Option (List Bytes × net.World)))
      (join : List Bytes → List Bytes → List Bytes) (found : ℕ → List Bytes) (worlds : Worlds)
      (adds : (a c : List Bytes) → length (join a c) ≡ length a + length c) where
    -- A proxy that answers and changes nothing.
    abbrev pub Answers : ℕ → Type 0
    Answers id = ask id (worlds id) ≡ done (some (found id, worlds id))

    ask_in_order-total :
        (ids : List ℕ) (all : List Bytes)
        → ((id : ℕ) → 0 < occurs id ids → Answers id)
        → (out : List Bytes) × (ask_in_order ask join ids all worlds ≡ done (some (out, worlds)))
          × (length out ≡ length all + sum_over (λ id. length (found id)) ids)
    unfolding ask_in_order sum_over
    ask_in_order-total [] all answers = (all, refl, omega arith)
    ask_in_order-total (id ∷ ids) all answers =
        let (out, asked, total) =
          ask_in_order-total ids (join all (found id))
            (λ j h. answers j (omega (arith, h, occurs-cons_le j id ids))) in
        (
          out,
          rw (answers id (occurs-cons_self id ids), update_same worlds id) asked,
          omega (arith, total, adds all (found id)),
        )

    ask_at_random-total :
        (draws : ℕ) (rand : ℕ → ℕ) (client : ClientCpp)
        → length client.ring.nodes ≤ max_servers
        → ComesUp rand (length client.ring.nodes) draws
        → ((id : ℕ) → id < length client.ring.nodes → Answers id)
        → ask_at_random ask join draws rand client worlds
          ≡ done (
              some (
                u32 (sum_over (λ id. length (found id)) (servers (length client.ring.nodes))),
                worlds,
              ))
    unfolding ask_at_random
    ask_at_random-total draws rand client small fair answers =
        let num = length client.ring.nodes in
        let (order, ordered, each) = server_order-each rand num draws fair small in
        let (out, asked, total) =
          ask_in_order-total order []
            (λ id h. answers id (ground (arith, h, each id, occurs-le-one id num))) in
        let same = sum_over-congr (λ id. length (found id)) order (servers num) each in
        let size : length out ≡ sum_over (λ id. length (found id)) (servers num) =
          omega (arith, total, same) in
        rw (ordered, asked, size) refl

  module _ (draws : ℕ) (rand : ℕ → ℕ) (client : ClientCpp) (helpers : ℕ → RedisHelper)
      (redis : ℕ → RedisServer net) (worlds : Worlds)
      (small : length client.ring.nodes ≤ max_servers)
      (fair : ComesUp rand (length client.ring.nodes) draws)
      (opened : (id : ℕ)
        → id < length client.ring.nodes
        → (helpers id).ptr_pool ≡ some (redis id).at) where
    -- With at most 16 proxies, each with an open pool to its Redis server, random numbers among
    -- which every proxy comes up within any `draws` draws, a value below 2^31, and `int`s in every
    -- row whose key is all digits: `RangeQueryPlainText` ends, returns the number (modulo 2^32) of
    -- the rows on all proxies that are greater, if `cmp` is written "1", or else less than the
    -- value, and changes nothing.
    pub range_query_plain_text-total :
        (cmp : ℤ) (val : ℕ) (number : ℕ → Bytes → ℤ)
        → val < 2 ^ 31
        → ((id : ℕ)
            → id < length client.ring.nodes
            → HoldsInts (redis id) (number id) ((redis id).keys (worlds id)) (worlds id))
        → range_query_plain_text draws rand client helpers cmp val worlds
          ≡ done (
              some (
                u32 (
                    sum_over
                      (λ id. length (rows_in_range redis worlds cmp val number id))
                      (servers (length client.ring.nodes))),
                worlds,
              ))
    unfolding range_query_plain_text int_to_string
    range_query_plain_text-total cmp val number below holds =
        let found = λ (id : ℕ).
          map (λ k. int_to_string (number id k)) (rows_in_range redis worlds cmp val number id) in
        let ask = λ (id : ℕ) (w : net.World).
          order_search_plain_text (helpers id) (int_to_string (pos val)) (int_to_string cmp) w
          >>= λ r. done (some r) in
        ask_at_random-total ask (λ all more. more ++ all) found worlds
          (λ a c. omega (arith, length-append c a)) draws rand client small fair
          (λ id inside.
            ap (λ r. r >>= λ x. done (some x))
              (order_search_plain_text-keep (redis id) (helpers id) (opened id inside) (pos val)
                (int_to_string cmp) (number id) (worlds id) (ground (arith, below))
                (holds id inside)))
        ∙ ap (λ f. done (some (u32 (sum_over f (servers (length client.ring.nodes))), worlds)))
            (fun_ext λ id.
              length-map (rows_in_range redis worlds cmp val number id)
                (λ k. int_to_string (number id k)))

    -- With at most 16 proxies, each with an open pool to its Redis server, random numbers among
    -- which every proxy comes up within any `draws` draws, and servers that walk their keys in at
    -- most `fuel` pages: `SearchPlainText` by the first index ends, returns the number (modulo
    -- 2^32) of the rows on all proxies that hold the value under a key that begins with a digit,
    -- and changes nothing.
    pub search_plain_text-total :
        (fuel : ℕ) (val : ℤ) (pages : ℕ → List (Bytes × List Bytes))
        → ((id : ℕ)
            → id < length client.ring.nodes
            → (length (pages id) ≤ fuel) × IsScan (redis id) (worlds id) (codes "0") (pages id))
        → search_plain_text fuel draws rand client helpers val false worlds
          ≡ done (
              some (
                u32 (
                    sum_over
                      (λ id. length (rows_equal redis worlds val pages id))
                      (servers (length client.ring.nodes))),
                worlds,
              ))
    unfolding search_plain_text
    search_plain_text-total fuel val pages scans =
        let found = λ (id : ℕ).
          map (λ k. str ((redis id).reply (worlds id) k)) (rows_equal redis worlds val pages id) in
        let ask = λ (id : ℕ) (w : net.World).
          equal_search_1_plain_text fuel (helpers id) (int_to_string val) w in
        ask_at_random-total ask (λ all more. all ++ more) found worlds (λ a c. length-append a c)
          draws rand client small fair
          (λ id inside.
            equal_search_1_plain_text-ends (redis id) (helpers id) (opened id inside) fuel
              (int_to_string val) (pages id) (worlds id) (scans id inside).0 (scans id inside).1)
        ∙ ap (λ f. done (some (u32 (sum_over f (servers (length client.ring.nodes))), worlds)))
            (fun_ext λ id.
              length-map (rows_equal redis worlds val pages id)
                (λ k. str ((redis id).reply (worlds id) k)))
