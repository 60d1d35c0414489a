-- ===== src/Fastore/Ore/Cells.antt =====
-- What one block of a query and one slot of an index hold, as values: the result of the loops of
-- `ore_setup_helper`, without their buffers.
use asiaccs.Base.{ℕ, ◌+◌, ◌*◌, ◌^◌, ◌≤◌, ◌<◌, bit_and, bit_or, bit_xor}
use asiaccs.Base.{◌≡◌, sym, ap, ◌∙◌, arith}
use asiaccs.Base.{true, false}
use asiaccs.Base.{◌==◌, if◌then◌else◌}
use asiaccs.Base.{shl64}
use asiaccs.Memory.{read}
use asiaccs.Memory.Laws.{read_congr}
use asiaccs.Fastore.Platform.{Platform, Block, make_block, of_value}
use asiaccs.Fastore.Aes.{OreAesKey, ecb_encrypt_blk, key_expansion}
use asiaccs.Fastore.Prp.Inverse.{perm}
use asiaccs.Fastore.Ore.{OreKey, ceil, cmp_bytes, left_block}
use asiaccs.Fastore.Ore.Hash.{mask64}
use asiaccs.Fastore.Ore.Setup.{flag_of}

module _ ⦃p : Platform⦄ (sk : OreKey) (hash_name : ℕ) where
  -- The key of the permutation of the block after `prefix`.
  unfoldable pub prp_of : ℕ → ℕ → OreAesKey
  prp_of i prefix = key_expansion (ecb_encrypt_blk sk.prp_key (make_block i prefix))

  unfoldable pub pix_of : ℕ → ℕ → ℕ → ℕ
  unfolding prp_of
  pix_of i prefix cur = perm (prp_of i prefix) sk.params.block_len false cur

  -- The key of slot `j`.
  unfoldable pub slot_key : ℕ → ℕ → ℕ → Block
  slot_key i prefix j =
      ecb_encrypt_blk sk.prf_key (make_block i (bit_or (shl64 prefix sk.params.block_len) j))

  -- The token of slot `j` with flag `v`, under the key of the column.
  unfoldable pub token : ℕ → ℕ → Block
  token j v =
      ecb_encrypt_blk (key_expansion (of_value hash_name))
        (make_block hash_name (bit_or (j * 2 ^ 8) v))

  -- The token under the key of the row as well, cut to the width of a comparison.
  unfoldable pub row_token : ℕ → ℕ → ℕ → ℕ
  unfolding token
  row_token rnum j v =
      bit_and (ecb_encrypt_blk (key_expansion (make_block rnum 0)) (token j v)).lo
        (mask64 sk.params.cmp_len)

  -- The hash of a slot key at a nonce.
  unfoldable pub hash_at : Block → Block → ℕ
  hash_at nonce key =
      bit_and (ecb_encrypt_blk (key_expansion nonce) key).lo (mask64 sk.params.cmp_len)

  unfoldable pub slot_value : ℕ → Block → ℕ → ℕ → ℕ → ℕ → ℕ
  unfolding hash_at slot_key row_token prp_of
  slot_value rnum nonce i prefix cur j =
      let v = flag_of (perm (prp_of i prefix) sk.params.block_len true j) cur in
      let h = hash_at nonce (slot_key i prefix j) in
      if v == 2 then h else bit_xor h (row_token rnum j v)

  -- Block `i` of a query at `o`: the slot key, the token of the aim, and the permuted value.
  pub record QueryCell (aim i prefix cur o : ℕ) (m : ℕ → ℕ) : Type 0 where
    pub key : of_value (read m o 16) ≡ slot_key i prefix (pix_of i prefix cur)
    pub aimed : of_value (read m (o + 16) 16) ≡ token (pix_of i prefix cur) aim
    pub pix : read m (o + 16 * 2) (ceil sk.params.block_len 8) ≡ pix_of i prefix cur

  -- The slots of block `i` of an index, from `o` on.
  abbrev pub IndexCell : ℕ → Block → ℕ → ℕ → ℕ → ℕ → (ℕ → ℕ) → Type 0
  IndexCell rnum nonce i prefix cur o m =
      (j : ℕ)
      → j < 2 ^ sk.params.block_len
      → read m (o + cmp_bytes sk.params * j) (cmp_bytes sk.params)
        ≡ slot_value rnum nonce i prefix cur j

  -- A cell only looks at its own bytes.
  pub QueryCell-congr :
      (aim i prefix cur o : ℕ) (m m' : ℕ → ℕ)
      → ((k : ℕ) → k < o + left_block sk.params → m k ≡ m' k)
      → 32 + ceil sk.params.block_len 8 ≤ left_block sk.params
      → QueryCell aim i prefix cur o m
      → QueryCell aim i prefix cur o m'
  QueryCell-congr aim i prefix cur o m m' same fits c = record {
    key =
        ap of_value (read_congr m' m 16 o (λ k a b. sym (same k (omega (arith, fits, b))))) ∙ c.key;
    aimed =
        ap of_value (read_congr m' m 16 (o + 16) (λ k a b. sym (same k (omega (arith, fits, b)))))
        ∙ c.aimed;
    pix =
        read_congr m' m (ceil sk.params.block_len 8) (o + 16 * 2)
          (λ k a b. sym (same k (omega (arith, fits, b))))
        ∙ c.pix;
  }
