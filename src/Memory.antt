-- ===== src/Memory.antt =====
-- Byte buffers of C: a size and the byte at each offset. `memcpy` into a buffer writes the bytes of
-- a little-endian number; an access that leaves the buffer is a fault.
pub mod Laws
use asiaccs.Base.{ℕ, zero, suc, ◌+◌, ◌-◌, ◌*◌, ◌/◌, ◌%◌, ◌^◌, Bool, ◌&&◌, leb, ltb, if◌then◌else◌}
use asiaccs.Base.{Outcome, ok, fault}

pub record Buf : Type 0 where
  pub size : ℕ
  pub at : ℕ → ℕ

-- Byte `k` of a little-endian number.
abbrev pub byte : ℕ → ℕ → ℕ
byte v k = v / 256 ^ k % 256

-- The number whose `n` little-endian bytes stand at `off`.
pub read : (ℕ → ℕ) → ℕ → ℕ → ℕ
read m off zero = 0
read m off (suc n) = m off + 256 * read m (suc off) n

-- The bytes after the low `n` bytes of `v` have been copied to `off`.
pub write : (ℕ → ℕ) → ℕ → ℕ → ℕ → ℕ → ℕ
write m off n v o = if leb off o && ltb o (off + n) then byte v (o - off) else m o

-- `memcpy(&v, buf + off, n)`
unfoldable pub load : Buf → ℕ → ℕ → Outcome ℕ
load b off n = if leb (off + n) b.size then ok (read b.at off n) else fault

-- `memcpy(buf + off, &v, n)`
unfoldable pub store : Buf → ℕ → ℕ → ℕ → Outcome Buf
store b off n v =
    if leb (off + n) b.size then ok (record { size = b.size; at = write b.at off n v }) else fault

-- `memset(buf, 0, n)`
unfoldable pub clear : Buf → ℕ → Outcome Buf
clear b n = store b 0 n 0
