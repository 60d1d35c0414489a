-- ===== src/Client.antt =====
-- Client/ClientCpp.cpp: the client, which derives labels and index entries from its keys, keeps the
-- counters of its indexes, and sends each row to one proxy.
pub mod Routing
pub mod Spread
pub mod Put
pub mod Lookup
pub mod Log
pub mod Index
pub mod Range
pub mod Readback
pub mod Ranked
pub mod Column
pub mod Plain
use asiaccs.Base.{ℕ, zero, suc, ◌+◌, ◌-◌, ◌*◌, ◌/◌, ◌%◌, ◌^◌, ◌≤◌, ◌<◌, bit_and, bit_or, bit_xor}
use asiaccs.Base.{◌≡◌, refl, sym, ap, ap₂, ◌∙◌, subst, ◌≢◌, ◌↔◌, ◌⊎◌, inl, inr, arith}
use asiaccs.Base.{Bool, true, false, ◌&&◌, ◌||◌, not, Option, none, some, List, [], ◌∷◌, ◌++◌, map}
use asiaccs.Base.{ltb, leb, ◌==◌, if◌then◌else◌, ==_iff, ltb_iff, Bool-cases, Option-cases}
use asiaccs.Base.{u8, u32, u64, sub32, shl64, shr, all_below, length, get_or, get_elem?, set}
use asiaccs.Base.{tabulate, length-append, length-tabulate, get_or-tabulate, length-map, get_or-map}
use asiaccs.Base.{map-tabulate, mod_of_split, div_of_split, pow_le, pow_pos, pow_add, pow_256}
use asiaccs.Base.{
  bytes_hold, pair_lt, ErrorCode, Outcome, ok, err, fault, ◌>>=◌, ◌>>◌, guard, require,
}
use asiaccs.Base.{guard_pass, guard_stop, get_or-tabulate_zero}
use asiaccs.Proxy.Services.{Bytes, Backend, equal_bytes, take_bytes}
use asiaccs.Proxy.{
  flag_bytes, proxy_get, proxy_put, equal_search_1, equal_search_2, index_stop_flag,
}
use asiaccs.Proxy.{at_counter, digest_length, proxy_get_column}
use asiaccs.Fastore.Helper.{OreHelper}
use asiaccs.Fastore.Ore.Hash.{Prg}
use asiaccs.Client.Routing.{SimConHash, query}

-- DEF_MAX_TDVALUE_SIZE
abbrev pub max_tdvalue_size : ℕ
max_tdvalue_size = 10240

-- The keys `m_szPk1` to `m_szPk10`.
pub record Keys : Type 0 where
  pub pk1 : Bytes
  pub pk2 : Bytes
  pub pk3 : Bytes
  pub pk4 : Bytes
  pub pk5 : Bytes
  pub pk6 : Bytes
  pub pk7 : Bytes
  pub pk8 : Bytes
  pub pk9 : Bytes
  pub pk10 : Bytes

-- A counter for each server and label, zero when there is none yet.
abbrev pub Counters : Type 0
Counters = ℕ → Bytes → ℕ

-- `map[id][label]++`
unfoldable pub bump : Counters → ℕ → Bytes → Counters
bump m id label i l = if i == id && equal_bytes l label then u32 (m id label + 1) else m i l

-- The member variables that `Put` changes, with the keys and the ring.
pub record ClientCpp : Type 0 where
  pub keys : Keys
  pub column_counter : Counters
  pub equal_v1_counter : Counters
  pub equal_v2_counter : Counters
  pub order_counter : Counters
  pub ring : SimConHash
  pub ore_helper : OreHelper
  -- the static generator of fastore/ore_blk.cpp, which `CreateRight` uses
  pub prg : Prg

-- `InitKey`: the keys are digests of the main key with a suffix.
unfoldable pub init_key : (Bytes → Bytes) → Bytes → Keys
init_key sha256 key =
    let derive = λ (suffix : Bytes). sha256 (key ++ (80 ∷ 75 ∷ suffix)) in
    record {
      pk1 = derive (49 ∷ []);
      pk2 = derive (50 ∷ []);
      pk3 = derive (51 ∷ []);
      pk4 = derive (52 ∷ []);
      pk5 = derive (53 ∷ []);
      pk6 = derive (54 ∷ []);
      pk7 = derive (55 ∷ []);
      pk8 = derive (56 ∷ []);
      pk9 = derive (57 ∷ []);
      pk10 = derive (49 ∷ 48 ∷ []);
    }

-- The 32-bit word at an offset of a digest.
abbrev pub word_at : Bytes → ℕ → ℕ
word_at s o =
    get_or s o 0
    + get_or s (o + 1) 0 * 2 ^ 8
    + get_or s (o + 2) 0 * 2 ^ 16
    + get_or s (o + 3) 0 * 2 ^ 24

-- What `Get` and `Put` ask the ring for. `Put` leaves out the word at 12.
unfoldable pub get_route : Bytes → ℕ
get_route td = word_at td 0

unfoldable pub put_route : Bytes → ℕ
put_route td =
    let a = bit_xor (bit_xor (word_at td 0) (word_at td 4)) (word_at td 8) in
    let c = bit_xor (bit_xor a (word_at td 16)) (word_at td 20) in
    bit_xor (bit_xor c (word_at td 24)) (word_at td 28)

module _ ⦃b : Backend⦄ (keys : Keys) where
  unfoldable pub trapdoor : Bytes → Bytes → Bytes → Bytes
  trapdoor table key col = b.hmac keys.pk1 (table ++ (key ++ col))

  -- The entry of the column index: the flag and the trapdoor under the mask and four zeros.
  unfoldable pub column_entry : Bytes → Bytes → Bytes → ℕ → Bytes × Bytes
  column_entry table col td c =
      let mask = at_counter (b.hmac keys.pk4 (table ++ col)) c ++ (0 ∷ 0 ∷ 0 ∷ 0 ∷ []) in
      let plain = flag_bytes ++ td in
      (
        at_counter (b.hmac keys.pk3 (table ++ col)) c,
        tabulate 36 0 (λ i. bit_xor (get_or mask i 0) (get_or plain i 0)),
      )

  -- The entries of the equality indexes: a tag of the value, then the trapdoor.
  unfoldable pub equal_v1_entry : Bytes → Bytes → Bytes → Bytes → ℕ → Bytes × Bytes
  equal_v1_entry table col val td c = (
    at_counter (b.hmac keys.pk6 (table ++ col)) c,
    at_counter (b.hmac keys.pk7 ((table ++ col) ++ val)) c ++ td,
  )

  unfoldable pub equal_v2_entry : Bytes → Bytes → Bytes → Bytes → ℕ → Bytes × Bytes
  equal_v2_entry table col val td c = (
    at_counter (b.hmac keys.pk8 ((table ++ col) ++ val)) c,
    at_counter (b.hmac keys.pk9 ((table ++ col) ++ val)) c ++ td,
  )

  -- The entry of the order index: the trapdoor, then the right part of the encrypted value.
  unfoldable pub order_entry : Bytes → Bytes → Bytes → Bytes → ℕ → Bytes × Bytes
  order_entry table col right td c = (at_counter (b.hmac keys.pk10 (table ++ col)) c, td ++ right)
