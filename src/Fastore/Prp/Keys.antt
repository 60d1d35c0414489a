-- ===== src/Fastore/Prp/Keys.antt =====
-- The bytes that the round keys of the network are made of.
use asiaccs.Base.{ℕ, ◌+◌, ◌*◌, ◌/◌, ◌%◌, ◌^◌}
use asiaccs.Base.{◌≡◌, ap, arith}
use asiaccs.Fastore.Platform.{Platform, Block, make_block, to_value, of_value}
use asiaccs.Fastore.Aes.{OreAesKey, ecb_encrypt_blk, key_expansion}
use asiaccs.Fastore.Aes.Batch.{encrypt_blks_3-eq}
use asiaccs.Fastore.Prp.{prp_key_expand, bytes_at}

-- 16 bytes from byte `i` on, of a block and the first two bytes of the next.
abbrev pub window : Block → Block → ℕ → Block
window a b i = of_value ((to_value a + 2 ^ 128 * (to_value b % 2 ^ 16)) / 256 ^ i % 2 ^ 128)

bytes_at-window_0 : (a b c : Block) → bytes_at (a, b, c) 0 ≡ window a b 0
bytes_at-window_0 a b c = ap of_value (omega arith)

bytes_at-window_1 : (a b c : Block) → bytes_at (a, b, c) 1 ≡ window a b 1
bytes_at-window_1 a b c = ap of_value (omega arith)

bytes_at-window_2 : (a b c : Block) → bytes_at (a, b, c) 2 ≡ window a b 2
bytes_at-window_2 a b c = ap of_value (omega arith)

module _ ⦃p : Platform⦄ where
  -- The round keys are the expansions of three windows, one byte apart, on the encryption of 0
  -- followed by the encryption of 1.
  pub prp_key_expand-window :
      (key : OreAesKey)
      → let zero_block = ecb_encrypt_blk key (make_block 0 0) in
        let one_block = ecb_encrypt_blk key (make_block 0 1) in
        prp_key_expand key ≡ (
          key_expansion (window zero_block one_block 0),
          key_expansion (window zero_block one_block 1),
          key_expansion (window zero_block one_block 2),
        )
  unfolding prp_key_expand
  prp_key_expand-window key =
      let a = ecb_encrypt_blk key (make_block 0 0) in
      let b = ecb_encrypt_blk key (make_block 0 1) in
      let c = ecb_encrypt_blk key (make_block 0 2) in
      rw encrypt_blks_3-eq (λ i. (
        key_expansion (bytes_at-window_0 a b c i),
        key_expansion (bytes_at-window_1 a b c i),
        key_expansion (bytes_at-window_2 a b c i),
      ))
