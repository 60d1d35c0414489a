-- ===== src/Proxy.antt =====
-- Proxy/TProxy.cpp: the handler of the proxy, over its Redis server and HMAC-SHA256.
pub mod Services
pub mod Search
pub mod Order
pub mod Column
pub mod Plain
pub mod OnCluster
use asiaccs.Base.{ℕ, zero, suc, ◌+◌, ◌-◌, ◌*◌, ◌/◌, ◌%◌, ◌^◌, ◌≤◌, ◌<◌, bit_and, bit_or, bit_xor}
use asiaccs.Base.{◌≡◌, refl, sym, ap, ap₂, ◌∙◌, subst, ◌≢◌, ◌↔◌, ◌⊎◌, inl, inr, arith}
use asiaccs.Base.{Bool, true, false, ◌&&◌, ◌||◌, not, Option, none, some, List, [], ◌∷◌, ◌++◌, map}
use asiaccs.Base.{ltb, leb, ◌==◌, if◌then◌else◌, ==_iff, ltb_iff, Bool-cases, Option-cases}
use asiaccs.Base.{u8, u32, u64, sub32, shl64, shr, all_below, length, get_or, get_elem?, set}
use asiaccs.Base.{tabulate, length-append, length-tabulate, get_or-tabulate, length-map, get_or-map}
use asiaccs.Base.{map-tabulate, mod_of_split, div_of_split, pow_le, pow_pos, pow_add, pow_256}
use asiaccs.Base.{
  bytes_hold, pair_lt, ErrorCode, Outcome, ok, err, fault, ◌>>=◌, ◌>>◌, guard, require,
}
use asiaccs.Base.{guard_pass, guard_stop, get_or-tabulate_zero}
use asiaccs.Base.{get_or-tabulate_zero}
use asiaccs.Proxy.Services.{
  Bytes, Backend, equal_bytes, memcmp, substr, counter_bytes, word32, concat,
}

-- SHA256_DIGEST_LENGTH and INDEX_STOP_FLAG.
abbrev pub digest_length : ℕ
digest_length = 32

abbrev pub index_stop_flag : ℕ
index_stop_flag = 1234567890

-- Little-endian bytes of INDEX_STOP_FLAG.
abbrev pub flag_bytes : Bytes
flag_bytes =
    index_stop_flag % 256
    ∷ index_stop_flag / 256 % 256
    ∷ index_stop_flag / 2 ^ 16 % 256
    ∷ index_stop_flag / 2 ^ 24 % 256
    ∷ []

-- What a round of a `while (true)` loop does: stop, or add to the result and go on.
abbrev pub Round : Type 0
Round = Outcome (Option (List Bytes))

module _ ⦃b : Backend⦄ where
  unfoldable pub proxy_get : b.Store → Bytes → Bytes
  proxy_get s trapdoor = let v = b.pool_get s trapdoor in if length v == 0 then [] else v

  unfoldable pub proxy_put : b.Store → Bytes → Bytes → Bytes → Bytes → b.Store
  proxy_put s trapdoor val index_trapdoor index_val =
      let s' = b.pool_put s trapdoor val in
      if length index_trapdoor == 0 then s' else b.pool_put s' index_trapdoor index_val

  -- The data that a trapdoor leads to, when there is any.
  abbrev pub fetch : b.Store → Bytes → List Bytes
  fetch s trapdoor = let v = b.pool_get s trapdoor in if length v == 0 then [] else v ∷ []

  -- The place of entry `c` of an index, and the value to compare or to mask with.
  abbrev pub at_counter : Bytes → ℕ → Bytes
  at_counter base c = b.hmac (counter_bytes c) base

  -- One round of `EqualSearch1`, and of `EqualSearch2`, which has the same text.
  unfoldable pub equal_round : b.Store → Bytes → Bytes → ℕ → Round
  equal_round s index_trapdoor index_mask c =
      let index_val = b.pool_get s (at_counter index_trapdoor c) in
      let found = (do
        same ← memcmp (at_counter index_mask c) index_val digest_length
        let hit = substr index_val digest_length digest_length >>= λ t. ok (some (fetch s t))
        if same then hit else ok (some [])) in
      if length index_val == 0 then ok none else found

  -- One round of `ProxyGetColumn`. The test is `FLAG == a ^ b`, which C reads as `(FLAG == a) ^ b`.
  unfoldable pub column_round : b.Store → Bytes → Bytes → ℕ → Round
  column_round s index_trapdoor index_mask c =
      let index_val = b.pool_get s (at_counter index_trapdoor c) in
      let mask = at_counter index_mask c in
      let unmask = λ (i : ℕ).
        bit_xor (get_or (mask ++ (0 ∷ 0 ∷ 0 ∷ 0 ∷ [])) (4 + i) 0) (get_or index_val (4 + i) 0) in
      let found = (do
        first ← word32 index_val
        first_mask ← word32 mask
        let test = bit_xor (if index_stop_flag == first then 1 else 0) first_mask
        let hit = require (leb (4 + digest_length) (length index_val + 1)) >>= λ _.
            ok (some (fetch s (tabulate digest_length 0 unmask)))
        if test == 0 then ok none else hit) in
      if length index_val == 0 then ok (some []) else found

-- The result so far, in front of what the later rounds add.
abbrev pub add_found : List Bytes → Option (List Bytes) → Option (List Bytes)
add_found out none = none
add_found out (some more) = some (out ++ more)

-- `while (true)` with the counter from `c` on, for at most `fuel` rounds: `ok none` when they did
-- not suffice. The counter is a `uint32_t`.
unfoldable pub search_loop : (ℕ → Round) → (fuel : ℕ) → ℕ → Outcome (Option (List Bytes))
search_loop round zero c = ok none
search_loop round (suc fuel) c =
    let rest = search_loop round fuel (u32 (c + 1)) in
    round c >>= elim [ none ↦ ok (some []) | some out ↦ rest >>= λ r. ok (add_found out r) ]

-- `for (uiCounter = 0; uiCounter < GetNum; uiCounter++)`, left by a `return`.
unfoldable pub counted_loop : (ℕ → Round) → (left : ℕ) → ℕ → Outcome (List Bytes)
counted_loop round zero c = ok []
counted_loop round (suc left) c =
    let rest = counted_loop round left (c + 1) in
    round c >>= elim [ none ↦ ok [] | some out ↦ rest >>= λ more. ok (out ++ more) ]

module _ ⦃b : Backend⦄ where
  unfoldable pub equal_search_1 : ℕ → b.Store → Bytes → Bytes → Outcome (Option (List Bytes))
  unfolding search_loop equal_round
  equal_search_1 fuel s index_trapdoor index_mask =
      search_loop (equal_round s index_trapdoor index_mask) fuel 0

  unfoldable pub equal_search_2 : ℕ → b.Store → Bytes → Bytes → Outcome (Option (List Bytes))
  unfolding search_loop equal_round
  equal_search_2 fuel s index_trapdoor index_mask =
      search_loop (equal_round s index_trapdoor index_mask) fuel 0

  unfoldable pub proxy_get_column : b.Store → Bytes → Bytes → ℕ → Outcome (List Bytes)
  unfolding counted_loop column_round
  proxy_get_column s index_trapdoor index_mask num =
      counted_loop (column_round s index_trapdoor index_mask) num 0
