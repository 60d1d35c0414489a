-- ===== src/Fastore/Helper/Init.antt =====
-- fastore/OREHelper.cpp: what `Init` establishes.
use asiaccs.Base.{ℕ, ◌/◌, ◌^◌, ◌≤◌, ◌<◌}
use asiaccs.Base.{◌≡◌, refl, arith}
use asiaccs.Base.{true, some, List}
use asiaccs.Base.{ltb}
use asiaccs.Base.{length}
use asiaccs.Base.{ok}
use asiaccs.Memory.{Buf}
use asiaccs.Fastore.Platform.{Platform, Block, of_value}
use asiaccs.Fastore.Aes.{key_expansion}
use asiaccs.Fastore.Crypto.{setup_aes_key, sha_256}
use asiaccs.Fastore.Ore.{
  OreParams, OreKey, OreQuery, OreIndex, Malloc, init_ore_params, ore_key_setup,
}
use asiaccs.Fastore.Ore.{ore_query_init, ore_index_init, ore_query_left_len, ore_index_right_len}
use asiaccs.Fastore.Ore.{c_string, allocate, pad_to}
use asiaccs.Fastore.Ore.Sizes.{IsUsable, is_valid}
use asiaccs.Fastore.Helper.{OreHelper, helper_init, plaintext_bits, compare_bits}
use asiaccs.Fastore.Helper.Parts.{IsReady}

-- The parameters of `Init`.
abbrev pub params_of : ℕ → OreParams
params_of block_size = record {
  initialized = true;
  nbits = plaintext_bits;
  block_len = block_size;
  cmp_len = compare_bits;
}

-- `malloc` gives a buffer of at least the size asked for.
abbrev pub Allocates : Malloc → Type 0
Allocates malloc = (n : ℕ) → (b : Buf) × (malloc n ≡ some b) × (n ≤ b.size)

module _ ⦃p : Platform⦄ where
  init_ore_params-ok :
      (bs : ℕ)
      → IsUsable (params_of bs)
      → init_ore_params plaintext_bits bs compare_bits ≡ ok (params_of bs)
  unfolding init_ore_params
  init_ore_params-ok bs u = rw (is_valid (params_of bs) u) refl

  ore_key_setup-ok :
      (middle : Block) (key : List ℕ) (params : OreParams)
      → IsUsable params
      → length (c_string key) < 128
      → (sk : OreKey) × (ore_key_setup middle key params ≡ ok sk)
        × (sk.initialized ≡ true)
        × (sk.params ≡ params)
  unfolding ore_key_setup
  ore_key_setup-ok middle key params u short =
      let fits : ltb (length (c_string key)) 128 ≡ true = ground (arith, short) in
      (
        record {
          initialized = true;
          org_key = pad_to 128 (c_string key);
          prf_key = key_expansion (of_value (p.sha256 (pad_to 128 (c_string key))));
          prp_key = key_expansion (of_value (p.sha256 (pad_to 128 (c_string key)) / 2 ^ 64));
          prg_key = key_expansion middle;
          prg_counter = 0;
          params = params;
        },
        rw (is_valid params u, fits) (unfold setup_aes_key sha_256 in refl),
        refl,
        refl,
      )

  ore_query_init-ok :
      (malloc : Malloc) (q : OreQuery) (params : OreParams)
      → IsUsable params
      → Allocates malloc
      → (q' : OreQuery) × (ore_query_init malloc (some q) (some params) ≡ ok q')
        × (q'.initialized ≡ true)
        × (ore_query_left_len params ≤ q'.comp_left.size)
  unfolding ore_query_init
  ore_query_init-ok malloc q params u gives =
      let (b, e, room) = gives (ore_query_left_len params) in
      (
        record { initialized = true; comp_left = b },
        rw (is_valid params u, e, allocate) refl,
        refl,
        room,
      )

  ore_index_init-ok :
      (malloc : Malloc) (c : OreIndex) (params : OreParams)
      → IsUsable params
      → Allocates malloc
      → (c' : OreIndex) × (ore_index_init malloc (some c) (some params) ≡ ok c')
        × (c'.initialized ≡ true)
        × (ore_index_right_len params ≤ c'.comp_right.size)
  unfolding ore_index_init
  ore_index_init-ok malloc c params u gives =
      let (b, e, room) = gives (ore_index_right_len params) in
      (
        record { initialized = true; comp_right = b },
        rw (is_valid params u, e, allocate) refl,
        refl,
        room,
      )

  -- With an even block size of at most 16 bits whose blocks fit 64 bits, a main key of fewer than 128
  -- characters and a `malloc` that succeeds, `Init` leaves the helper ready, with parameters for 32
  -- bits, whatever it held before.
  pub helper_init-IsReady :
      (malloc : Malloc) (middle : Block) (main_key : List ℕ) (block_size : ℕ) (h : OreHelper)
      → IsUsable (params_of block_size)
      → length (c_string main_key) < 128
      → Allocates malloc
      → (h' : OreHelper) × (helper_init malloc middle main_key block_size h ≡ ok h')
        × IsReady h'
        × (h'.params ≡ params_of block_size)
  unfolding helper_init
  helper_init-IsReady malloc middle main_key block_size h u short gives =
      let params = params_of block_size in
      let (sk, made, sk_set, sk_params) = ore_key_setup-ok middle main_key params u short in
      let (q, q_runs, q_set, q_room) = ore_query_init-ok malloc h.query params u gives in
      let (c, c_runs, c_set, c_room) = ore_index_init-ok malloc h.index params u gives in
      (
        record { params = params; key = sk; query = q; index = c },
        rw (init_ore_params-ok block_size u, made, q_runs, c_runs) refl,
        record {
          usable = u;
          key_set = sk_set;
          key_params = sk_params;
          query_set = q_set;
          index_set = c_set;
          query_room = q_room;
          index_room = c_room;
        },
        refl,
      )
