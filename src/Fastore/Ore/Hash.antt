-- ===== src/Fastore/Ore/Hash.antt =====
-- fastore/ore_blk.cpp: the keyed hash (the build has `USE_AES_RO` set, and a version over SHA-256
-- that it leaves out), and the static generator of nonces.
use asiaccs.Base.{ℕ, zero, suc, ◌+◌, ◌-◌, ◌/◌, ◌%◌, ◌^◌, bit_and}
use asiaccs.Base.{Bool, true, Option, List, [], ◌∷◌, ◌++◌, map}
use asiaccs.Base.{◌==◌, if◌then◌else◌}
use asiaccs.Base.{u32, u64, shl64}
use asiaccs.Base.{Outcome, ok, ◌>>=◌}
use asiaccs.Fastore.Platform.{Platform, Block, make_block, to_value}
use asiaccs.Fastore.Aes.{OreAesKey, ecb_encrypt_blk}
use asiaccs.Fastore.Crypto.{setup_aes_key, aes_eval, aes_eval_blocks, generate_aes_key, sha_256}
use asiaccs.Fastore.Crypto.{sha256_output_bytes}

-- `outlen == 64 ? 0xffffffffffffffff : ((uint64_t)1 << outlen) - 1`
abbrev pub mask64 : ℕ → ℕ
mask64 outlen = if outlen == 64 then 0xffff_ffff_ffff_ffff else u64 (shl64 1 outlen + 2 ^ 64 - 1)

-- `_prg_initialized`, `_prg_key` and `_counter`
pub record Prg : Type 0 where
  pub initialized : Bool
  pub key : OreAesKey
  pub counter : ℕ

-- The byte string of a block, for the digest.
abbrev pub bytes_of : ℕ → ℕ → List ℕ
bytes_of zero v = []
bytes_of (suc n) v = v % 256 ∷ bytes_of n (v / 256)

module _ ⦃p : Platform⦄ where
  -- `_seed_prg`; the result of `generate_aes_key` is not looked at, and a key that was not
  -- generated stays as it was.
  unfoldable pub seed_prg : Option (List ℕ) → Prg → Prg
  unfolding generate_aes_key
  seed_prg urandom prg = elim (generate_aes_key urandom) [
    | ok k ↦ record { initialized = true; key = k; counter = 0 }
    | _ ↦ record { initialized = true; key = prg.key; counter = 0 }
  ]

  -- `_next_prg_block`
  unfoldable pub next_prg_block : Prg → Block × Prg
  next_prg_block prg = (
    ecb_encrypt_blk prg.key (make_block 0 prg.counter),
    record prg { counter = u64 (prg.counter + 1) },
  )

  -- `_eval_keyed_hash_aes_ro`
  unfoldable pub eval_keyed_hash_aes_ro : ℕ → Block → Block → Outcome ℕ
  unfolding setup_aes_key aes_eval
  eval_keyed_hash_aes_ro outlen key val = do
    aes_key ← setup_aes_key val 16
    output ← aes_eval aes_key key
    ok (bit_and output.lo (mask64 outlen))

  -- `_eval_keyed_hash_batch_aes_ro`
  unfoldable pub eval_keyed_hash_batch_aes_ro : ℕ → List Block → Block → Outcome (List ℕ)
  unfolding setup_aes_key aes_eval_blocks
  eval_keyed_hash_batch_aes_ro outlen keys val = do
    aes_key ← setup_aes_key val 16
    outputs ← aes_eval_blocks aes_key keys
    ok (map (λ o. bit_and o.lo (mask64 outlen)) outputs)

  -- `_eval_keyed_hash_sha256`. Its mask is `(uint64_t)1 << outlen - 1`, a shift by `outlen - 1`.
  unfoldable pub eval_keyed_hash_sha256 : ℕ → Block → Block → Outcome ℕ
  unfolding sha_256
  eval_keyed_hash_sha256 outlen key val = do
    let inputbuf = bytes_of 16 (to_value key) ++ bytes_of 16 (to_value val)
    dst ← sha_256 sha256_output_bytes inputbuf
    let outmask =
        if outlen == 64 then 0xffff_ffff_ffff_ffff else shl64 1 (u32 (outlen + 2 ^ 32 - 1))
    ok (bit_and (dst % 2 ^ 64) outmask)

  -- `_eval_keyed_hash` and `_eval_keyed_hash_batch`, with the flag `USE_AES_RO`.
  unfoldable pub eval_keyed_hash : ℕ → Block → Block → Outcome ℕ
  unfolding eval_keyed_hash_aes_ro
  eval_keyed_hash outlen key val = eval_keyed_hash_aes_ro outlen key val

  unfoldable pub eval_keyed_hash_batch : ℕ → List Block → Block → Outcome (List ℕ)
  unfolding eval_keyed_hash_batch_aes_ro
  eval_keyed_hash_batch outlen keys val = eval_keyed_hash_batch_aes_ro outlen keys val
