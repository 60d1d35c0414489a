-- ===== src/Fastore/Platform.antt =====
-- What fastore/ takes from the compiler and from OpenSSL: the SSE and AES-NI intrinsics of
-- fastore/aes.h and the digest of fastore/crypto.cpp. Of these it is only assumed that
-- an AES block is 128 bits wide.
use asiaccs.Base.{ℕ, ◌+◌, ◌*◌, ◌/◌, ◌%◌, ◌^◌, ◌<◌, ◌≡◌, arith, List, u64}

-- `__m128i`, as its two 64-bit halves.
pub record Block : Type 0 where
  pub hi : ℕ
  pub lo : ℕ

-- `MAKE_BLOCK`
abbrev pub make_block : ℕ → ℕ → Block
make_block x y = record { hi = u64 x; lo = u64 y }

-- The 16 bytes of a block as a little-endian number, and back.
abbrev pub to_value : Block → ℕ
to_value b = b.hi * 2 ^ 64 + b.lo

abbrev pub of_value : ℕ → Block
of_value v = make_block (v / 2 ^ 64) v

abbrev pub IsWide : Block → Type 0
IsWide b = (b.hi < 2 ^ 64) × (b.lo < 2 ^ 64)

-- A block that went through memory comes back.
pub of_value-to_value : (b : Block) → IsWide b → of_value (to_value b % 256 ^ 16) ≡ b
of_value-to_value b h = ground arith

pub record Platform : Type 0 where
  pub xor_si128 : Block → Block → Block
  pub aesenc_si128 : Block → Block → Block
  pub aesenclast_si128 : Block → Block → Block
  pub aeskeygenassist_si128 : Block → ℕ → Block
  pub shuffle_ps : Block → Block → ℕ → Block
  pub shuffle_epi32 : Block → ℕ → Block
  pub setzero_si128 : Block
  -- a result is 128 bits wide
  pub aesenclast_width : (a b : Block) → IsWide (aesenclast_si128 a b)
  -- the 32 bytes of SHA-256 of a message, as a little-endian number
  pub sha256 : List ℕ → ℕ
