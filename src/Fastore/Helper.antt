-- ===== src/Fastore/Helper.antt =====
-- fastore/OREHelper.cpp: the order-revealing scheme on strings, as the client and the proxy use it. It
-- does not look at the error codes of the functions it calls.
pub mod Parts
pub mod Order
pub mod Init
pub mod Odd
use asiaccs.Base.{ℕ, zero, suc, ◌+◌, ◌-◌, ◌*◌, ◌/◌, ◌%◌, ◌^◌, ◌≤◌, ◌<◌, bit_and, bit_or, bit_xor}
use asiaccs.Base.{◌≡◌, refl, sym, ap, ap₂, ◌∙◌, subst, ◌≢◌, ◌↔◌, ◌⊎◌, inl, inr, arith}
use asiaccs.Base.{Bool, true, false, ◌&&◌, ◌||◌, not, Option, none, some, List, [], ◌∷◌, ◌++◌, map}
use asiaccs.Base.{ltb, leb, ◌==◌, if◌then◌else◌, ==_iff, ltb_iff, Bool-cases, Option-cases}
use asiaccs.Base.{u8, u32, u64, sub32, shl64, shr, all_below, length, get_or, get_elem?, set}
use asiaccs.Base.{tabulate, length-append, length-tabulate, get_or-tabulate, length-map, get_or-map}
use asiaccs.Base.{map-tabulate, mod_of_split, div_of_split, pow_le, pow_pos, pow_add, pow_256}
use asiaccs.Base.{
  bytes_hold, pair_lt, ErrorCode, Outcome, ok, err, fault, ◌>>=◌, ◌>>◌, guard, require,
}
use asiaccs.Base.{guard_pass, guard_stop, get_or-tabulate_zero}
use asiaccs.Memory.{Buf, store}
use asiaccs.Fastore.Platform.{Platform, Block, to_value}
use asiaccs.Fastore.Ore.{OreParams, OreKey, OreQuery, OreIndex, Malloc, null_buf, init_ore_params}
use asiaccs.Fastore.Ore.{ore_key_setup, ore_query_init, ore_index_init, ore_query_left_len}
use asiaccs.Fastore.Ore.{ore_index_right_len, ore_small, ore_large, ore_key_cleanup}
use asiaccs.Fastore.Ore.{ore_query_cleanup, ore_index_cleanup}
use asiaccs.Fastore.Ore.Hash.{Prg, next_prg_block}
use asiaccs.Fastore.Ore.Setup.{ore_query_setup, ore_index_setup, index_guards}
use asiaccs.Fastore.Ore.Compare.{Answer, ore_compare}

-- DEF_PLAINTEXT_SIZE_INBIT and DEF_COMPARE_SIZE_INBIT, as `Init` writes them.
abbrev pub plaintext_bits : ℕ
plaintext_bits = 32

abbrev pub compare_bits : ℕ
compare_bits = 64

-- `m_params`, `m_key`, `m_query` and `m_index`.
pub record OreHelper : Type 0 where
  pub params : OreParams
  pub key : OreKey
  pub query : OreQuery
  pub index : OreIndex

-- A call whose error code is dropped: on an error the state is the given one.
abbrev pub dropped {ℓ} : {A : Type ℓ} → Outcome A → (ErrorCode → A) → Outcome A
dropped (ok a) old = ok a
dropped (err e) old = ok (old e)
dropped fault old = fault

-- A buffer pointer that `malloc` may have set to null before the error was found.
abbrev pub after_error : ErrorCode → Buf → Buf
after_error ErrorCode.memory_allocation b = null_buf
after_error _ b = b

-- `memcpy(p, buf, n)` into a string, and `memcpy(buf, p, n)` out of one.
unfoldable pub copy_out : Buf → ℕ → Outcome (List ℕ)
copy_out b n = do require (leb n b.size); ok (tabulate n 0 b.at)

unfoldable pub copy_in : Buf → List ℕ → ℕ → Outcome Buf
copy_in b s n = do
  require (leb n b.size && leb n (length s))
  ok (record { size = b.size; at = λ k. if ltb k n then get_or s k 0 else b.at k })

module _ ⦃p : Platform⦄ where
  -- `Init`, from the fields as they are. `middle` is the unwritten variable of `ore_key_setup`.
  unfoldable pub helper_init : Malloc → Block → List ℕ → ℕ → OreHelper → Outcome OreHelper
  helper_init malloc middle main_key block_size h = do
    let params : OreParams = record {
      initialized = true;
      nbits = plaintext_bits;
      block_len = block_size;
      cmp_len = compare_bits;
    }
    params' ← dropped (init_ore_params plaintext_bits block_size compare_bits) (λ e. params)
    key ← dropped (ore_key_setup middle main_key params') (λ e. h.key)
    query ← dropped (ore_query_init malloc (some h.query) (some params')) (λ e. record {
      initialized = h.query.initialized;
      comp_left = after_error e h.query.comp_left;
    })
    index ← dropped (ore_index_init malloc (some h.index) (some params')) (λ e. record {
      initialized = h.index.initialized;
      comp_right = after_error e h.index.comp_right;
    })
    ok (record { params = params'; key = key; query = query; index = index })

  -- `CreateLeft`; `above` is `iCmp > 0`. An error of `ore_query_setup` comes before its first write,
  -- so that the old bytes are copied then. A block length of zero is a division by zero.
  unfoldable pub create_left :
      OreHelper → ℕ → Bool → List ℕ → List ℕ → ℕ → Outcome (List ℕ × OreHelper)
  create_left h len above table col val = do
    require (not (h.params.block_len == 0))
    let len_left = ore_query_left_len h.params
    require (leb len_left len)
    let cmp = if above then ore_large else ore_small
    query ← dropped (ore_query_setup (some h.query) h.key val (table ++ col) cmp) (λ e. h.query)
    left ← copy_out query.comp_left len_left
    ok (left, record h { query = query })

  -- The index after an error: past the checks the nonce is written.
  unfoldable pub index_after_error : OreHelper → Block → Outcome OreIndex
  index_after_error h nonce = elim (index_guards h.key h.index) [
    | ok _ ↦ store h.index.comp_right 0 16 (to_value nonce) >>= λ b.
        ok (record { initialized = h.index.initialized; comp_right = b })
    | _ ↦ ok h.index
  ]

  abbrev pub dropped_index : OreHelper → Block → Outcome OreIndex → Outcome OreIndex
  dropped_index h nonce (ok c) = ok c
  dropped_index h nonce (err e) = index_after_error h nonce
  dropped_index h nonce fault = fault

  -- `CreateRight`, with the state of the static generator.
  unfoldable pub create_right :
      Bool → Prg → OreHelper → ℕ → List ℕ → List ℕ → ℕ → ℕ → Outcome (List ℕ × OreHelper) × Prg
  create_right allocated prg h len table col counter val =
      let (filled, prg') = ore_index_setup allocated prg h.index h.key val (table ++ col) counter in
      let run = (do
        index ← dropped_index h (next_prg_block prg).0 filled
        right ← copy_out index.comp_right (ore_index_right_len h.params)
        ok (right, record h { index = index })) in
      if h.params.block_len == 0 || ltb len (ore_index_right_len h.params)
      then (fault, prg)
      else (run, prg')

  -- `CompareORE`: the answer is not written when `ore_compare` returns an error.
  unfoldable pub compare_ore : OreHelper → List ℕ → List ℕ → ℕ → Outcome (Option Answer × OreHelper)
  compare_ore h left right counter = do
    require (not (h.params.block_len == 0))
    let len_left = ore_query_left_len h.params
    let len_right = ore_index_right_len h.params
    require (leb len_left (length left))
    require (leb len_right (length right))
    l ← copy_in h.query.comp_left left len_left
    r ← copy_in h.index.comp_right right len_right
    let query = record h.query { comp_left = l }
    let index = record h.index { comp_right = r }
    let compared = ore_compare query index h.params counter >>= λ a. ok (some a)
    answer ← dropped compared (λ e. none)
    ok (answer, record h { query = query; index = index })

-- The destructor, which cleans up after a set-up key.
unfoldable pub helper_cleanup : OreHelper → Outcome OreHelper
helper_cleanup h =
    let run = (do
      key ← dropped (ore_key_cleanup h.key) (λ e. h.key)
      q ← dropped (ore_query_cleanup (some h.query) h.params) (λ e. some h.query)
      c ← dropped (ore_index_cleanup (some h.index) h.params) (λ e. some h.index)
      ok (record {
        params = h.params;
        key = key;
        query = elim q [ none ↦ h.query | some v ↦ v ];
        index = elim c [ none ↦ h.index | some v ↦ v ];
      })) in
    if h.key.initialized then run else ok h
