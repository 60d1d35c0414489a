-- ===== src/Fastore/Crypto.antt =====
-- fastore/crypto.cpp and the inline functions of fastore/crypto.h, with `USE_AES` set: keys, the
-- pseudo-random function, AES on blocks, and the digest.
use asiaccs.Base.{ℕ, ◌+◌, ◌*◌, List, Option, none, some, ◌==◌, length}
use asiaccs.Base.{Outcome, ok, err, ErrorCode, ◌>>◌, guard, [], ◌∷◌}
use asiaccs.Fastore.Platform.{Platform, Block, of_value}
use asiaccs.Fastore.Aes.{OreAesKey, key_expansion, ecb_encrypt_blk, ecb_encrypt_blks}

abbrev pub aes_key_bytes : ℕ
aes_key_bytes = 16

abbrev pub aes_block_len : ℕ
aes_block_len = 16

abbrev pub sha256_output_bytes : ℕ
sha256_output_bytes = 32

abbrev pub prf_input_bytes : ℕ
prf_input_bytes = 16

abbrev pub prf_output_bytes : ℕ
prf_output_bytes = 16

-- The little-endian number of the bytes.
abbrev pub from_bytes : List ℕ → ℕ
from_bytes [] = 0
from_bytes (b ∷ bs) = b + 256 * from_bytes bs

module _ ⦃p : Platform⦄ where
  -- What `fopen` and `fread` of /dev/urandom give is the argument: no file, or the bytes read.
  unfoldable pub generate_aes_key : Option (List ℕ) → Outcome OreAesKey
  generate_aes_key none = err ErrorCode.randomness
  generate_aes_key (some keybuf) = do
    guard (length keybuf == aes_key_bytes) ErrorCode.randomness
    ok (key_expansion (of_value (from_bytes keybuf)))

  -- With `USE_AES` a PRF key is an AES key.
  unfoldable pub generate_prf_key : Option (List ℕ) → Outcome OreAesKey
  unfolding generate_aes_key
  generate_prf_key urandom = generate_aes_key urandom

  -- The buffer is the block that its first 16 bytes hold.
  unfoldable pub setup_aes_key : Block → ℕ → Outcome OreAesKey
  setup_aes_key buf buflen = do
    guard (buflen == aes_key_bytes) ErrorCode.prf_keylen_invalid
    ok (key_expansion buf)

  unfoldable pub aes_eval_in_place : Block → OreAesKey → Outcome Block
  aes_eval_in_place dst key = ok (ecb_encrypt_blk key dst)

  unfoldable pub aes_eval : OreAesKey → Block → Outcome Block
  unfolding aes_eval_in_place
  aes_eval key src = aes_eval_in_place src key

  unfoldable pub aes_eval_blocks : OreAesKey → List Block → Outcome (List Block)
  aes_eval_blocks key src = ok (ecb_encrypt_blks key src)

  unfoldable pub prf_eval : ℕ → OreAesKey → Block → ℕ → Outcome Block
  unfolding aes_eval
  prf_eval dstlen key src srclen = do
    guard (dstlen == prf_output_bytes) ErrorCode.dstlen_invalid
    guard (srclen == prf_input_bytes) ErrorCode.srclen_invalid
    aes_eval key src

  -- The digest, as the little-endian number of its 32 bytes.
  unfoldable pub sha_256 : ℕ → List ℕ → Outcome ℕ
  sha_256 dstlen src = do
    guard (dstlen == sha256_output_bytes) ErrorCode.dstlen_invalid
    ok (p.sha256 src)
