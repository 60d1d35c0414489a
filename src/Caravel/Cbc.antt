-- ===== src/Caravel/Cbc.antt =====
-- Caravel/AES.cpp: AES-256-CBC over the cipher of OpenSSL, as `m_Encrypt` and `m_Decrypt` of
-- Client/ClientCpp.cpp use it.
pub mod Roundtrip
use asiaccs.Base.{ℕ, zero, suc, ◌+◌, ◌-◌, ◌*◌, ◌/◌, ◌%◌, ◌^◌, ◌≤◌, ◌<◌, bit_and, bit_or, bit_xor}
use asiaccs.Base.{◌≡◌, refl, sym, ap, ap₂, ◌∙◌, subst, ◌≢◌, ◌↔◌, ◌⊎◌, inl, inr, arith}
use asiaccs.Base.{Bool, true, false, ◌&&◌, ◌||◌, not, Option, none, some, List, [], ◌∷◌, ◌++◌, map}
use asiaccs.Base.{ltb, leb, ◌==◌, if◌then◌else◌, ==_iff, ltb_iff, Bool-cases, Option-cases}
use asiaccs.Base.{u8, u32, u64, sub32, shl64, shr, all_below, length, get_or, get_elem?, set}
use asiaccs.Base.{tabulate, length-append, length-tabulate, get_or-tabulate, length-map, get_or-map}
use asiaccs.Base.{map-tabulate, mod_of_split, div_of_split, pow_le, pow_pos, pow_add, pow_256}
use asiaccs.Base.{
  bytes_hold, pair_lt, ErrorCode, Outcome, ok, err, fault, ◌>>=◌, ◌>>◌, guard, require,
}
use asiaccs.Base.{guard_pass, guard_stop, get_or-tabulate_zero}
use asiaccs.Proxy.Services.{Bytes, take_bytes, drop_bytes}

abbrev pub aes_block_size : ℕ
aes_block_size = 16

-- `EVP_aes_256_cbc` under a key and an initial vector: what `Update` and what `Final` write, or nothing when
-- a call fails.
pub record Evp : Type 0 where
  pub encrypt : (key iv plain : Bytes) → Option (Bytes × Bytes)
  pub decrypt : (key iv cipher : Bytes) → Option (Bytes × Bytes)

-- `CbcMaxsize`, on `uint32_t`.
unfoldable pub cbc_maxsize : ℕ → ℕ
cbc_maxsize size =
    let rest = size % aes_block_size in
    if rest == 0
    then u32 (size + 2 * aes_block_size)
    else u32 (size + (aes_block_size - rest) + aes_block_size)

-- A run of `Update` and `Final` into a buffer of `room` bytes; a failure returns the length 0.
abbrev pub run_cipher : Option (Bytes × Bytes) → ℕ → Outcome Bytes
run_cipher none room = ok []
run_cipher (some (updated, final)) room = do
  require (leb (length updated + length final) room)
  ok (updated ++ final)

-- `CbcEncrypt256` without an initial vector: `iv` is what `rand` gives, and is written in
-- front. Lengths are `int`.
unfoldable pub cbc_encrypt_256 : Evp → Bytes → Bytes → Bytes → ℕ → Outcome Bytes
cbc_encrypt_256 evp iv plain key room = do
  require (leb aes_block_size room && ltb (length plain) (2 ^ 31))
  written ← run_cipher (evp.encrypt key iv plain) (room - aes_block_size)
  ok (iv ++ written)

-- `CbcDecrypt256` without an initial vector, which stands in front of the ciphertext.
unfoldable pub cbc_decrypt_256 : Evp → Bytes → Bytes → ℕ → Outcome Bytes
unfolding take_bytes drop_bytes
cbc_decrypt_256 evp cipher key room = do
  require (leb aes_block_size (length cipher) && ltb (length cipher) (2 ^ 31))
  run_cipher (evp.decrypt key (take_bytes aes_block_size cipher) (drop_bytes aes_block_size cipher))
      room

-- `m_Encrypt` and `m_Decrypt`, with their buffers.
unfoldable pub m_encrypt : Evp → Bytes → Bytes → Bytes → Outcome Bytes
unfolding cbc_encrypt_256 cbc_maxsize
m_encrypt evp iv key plain = cbc_encrypt_256 evp iv plain key (cbc_maxsize (length plain))

unfoldable pub m_decrypt : Evp → Bytes → Bytes → Outcome Bytes
unfolding cbc_decrypt_256 cbc_maxsize
m_decrypt evp key cipher = do
  let room = cbc_maxsize (length cipher)
  require (leb (length cipher) room)
  cbc_decrypt_256 evp cipher key room
