-- ===== src/Proxy/Plain.antt =====
-- Proxy/TProxy.cpp: `RunCommand` and the searches on plaintext, over `RedisHelper`.
pub mod Server
pub mod Filter
pub mod Scan
use asiaccs.Base.{ℕ, zero, suc, Bool, true, false, ◌&&◌, Option, none, some, List, [], ◌∷◌, ◌++◌}
use asiaccs.Base.{ltb, leb, ◌==◌, if◌then◌else◌, get_or, length}
use asiaccs.Base.Decimal.{is_digit, to_string}
use asiaccs.Base.Int.{ℤ, pos, ltb_ℤ, is_int, scan_int, int_to_string}
use asiaccs.Proxy.Services.{Bytes, codes, equal_bytes}
use asiaccs.Caravel.Redis.{
  Run, done, thrown, undefined, ◌>>=◌, Network, RedisHelper, pool_get, pool_put, pool_run,
}

-- `sscanf` with "%d": a text without a number leaves the variable as it was, and C++ leaves a
-- number undefined that is no `int`.
unfoldable pub scan_into : Bytes → Option ℤ → Run (Option ℤ)
unfolding scan_int
scan_into s old = elim (scan_int s) [
  | none ↦ done old
  | some n ↦ if is_int n then done (some n) else undefined
]

-- `stoi`
unfoldable pub stoi : Bytes → Run ℤ
unfolding scan_int
stoi s = elim (scan_int s) [ none ↦ thrown | some n ↦ if is_int n then done n else thrown ]

-- A variable that is read.
abbrev pub is_set : Option ℤ → Run ℤ
is_set none = undefined
is_set (some n) = done n

-- `isdigit(s.c_str()[0])`, and the loop over `j` that tests all characters.
abbrev pub starts_with_digit : Bytes → Bool
starts_with_digit s = is_digit (get_or s 0 0)

unfoldable pub all_digits : Bytes → Bool
all_digits [] = true
all_digits (c ∷ s) = let rest = all_digits s in if is_digit c then rest else false

module _ ⦃net : Network⦄ where
  abbrev pub run_command : RedisHelper → List Bytes → net.World → Run (List Bytes × net.World)
  run_command h cmd w = pool_run h cmd w

  -- The loop over `i` of `EqualSearch1PlainText`, over the keys of one answer.
  unfoldable pub scan_rows :
      RedisHelper → Bytes → List Bytes → net.World → Run (List Bytes × net.World)
  unfolding pool_get equal_bytes
  scan_rows h key [] w = done ([], w)
  scan_rows h key (k ∷ ks) w =
      let row = (do
        ((size, val), w1) ← pool_get h k w
        (more, w2) ← scan_rows h key ks w1
        done ((if equal_bytes key val then val ∷ more else more), w2)) in
      let rest = scan_rows h key ks w in if starts_with_digit k then row else rest

  -- The `do` loop with the cursor of `SCAN`, for at most `fuel` rounds: `none` when they did not suffice.
  unfoldable pub scan_loop :
      ℕ → RedisHelper → Bytes → Option ℤ → Bytes → net.World → Run (Option (List Bytes × net.World))
  unfolding pool_run scan_rows scan_into
  scan_loop zero h key counter cursor w = done none
  scan_loop (suc fuel) h key counter cursor w = do
    (res, w1) ← pool_run h (codes "SCAN" ∷ cursor ∷ codes "COUNT" ∷ codes "10000" ∷ []) w
    elim res [
      | [] ↦ done (some ([], w1))
      | next ∷ ks ↦ do
        counter1 ← scan_into next counter
        n ← is_set counter1
        (found, w2) ← scan_rows h key ks w1
        let rest =
            scan_loop fuel h key counter1 next w2
            >>= elim [ none ↦ done none | some (more, w3) ↦ done (some (found ++ more, w3)) ]
        elim n [ pos zero ↦ done (some (found, w2)) | _ ↦ rest ]
    ]

  unfoldable pub equal_search_1_plain_text :
      ℕ → RedisHelper → Bytes → net.World → Run (Option (List Bytes × net.World))
  unfolding scan_loop
  equal_search_1_plain_text fuel h key w = scan_loop fuel h key (some (pos 0)) (codes "0") w

  -- The loop of `EqualSearch2PlainText` over the keys of the sorted set.
  unfoldable pub index_rows :
      RedisHelper → Bytes → List Bytes → net.World → Run (List Bytes × net.World)
  unfolding pool_get equal_bytes
  index_rows h value [] w = done ([], w)
  index_rows h value (k ∷ ks) w = do
    ((size, val), w1) ← pool_get h k w
    (more, w2) ← index_rows h value ks w1
    done ((if equal_bytes value val then value ∷ more else more), w2)

  unfoldable pub equal_search_2_plain_text :
      RedisHelper → Bytes → net.World → Run (List Bytes × net.World)
  unfolding pool_run index_rows
  equal_search_2_plain_text h value w = do
    (res, w1) ← pool_run h (codes "ZRANGEBYSCORE" ∷ codes "index" ∷ value ∷ value ∷ []) w
    index_rows h value res w1

  -- The loop of `OrderSearchPlainText`; `val` keeps its value from row to row.
  unfoldable pub order_rows :
      RedisHelper → Bool → ℤ → Option ℤ → List Bytes → net.World → Run (List Bytes × net.World)
  unfolding pool_get all_digits scan_into int_to_string
  order_rows h above key val [] w = done ([], w)
  order_rows h above key val (k ∷ ks) w =
      let row = (do
        ((size, strvalue), w1) ← pool_get h k w
        val1 ← scan_into strvalue val
        v ← is_set val1
        (more, w2) ← order_rows h above key val1 ks w1
        let hit = if above then ltb_ℤ key v else ltb_ℤ v key
        done ((if hit then int_to_string v ∷ more else more), w2)) in
      let rest = order_rows h above key val ks w in if all_digits k then row else rest

  unfoldable pub order_search_plain_text :
      RedisHelper → Bytes → Bytes → net.World → Run (List Bytes × net.World)
  unfolding stoi pool_run order_rows equal_bytes
  order_search_plain_text h key cmp w = do
    ikey ← stoi key
    (res, w1) ← pool_run h (codes "KEYS" ∷ codes "*" ∷ []) w
    order_rows h (equal_bytes cmp (codes "1")) ikey none res w1

  -- `ProxyPut` over the pool of the helper.
  unfoldable pub plain_put : RedisHelper → Bytes → Bytes → Bytes → Bytes → net.World → Run net.World
  unfolding pool_put
  plain_put h trapdoor val index_trapdoor index_val w = do
    w1 ← pool_put h trapdoor val w
    if length index_trapdoor == 0 then done w1 else pool_put h index_trapdoor index_val w1
