-- ===== src/Caravel/Digest.antt =====
-- Caravel/Digest.cpp, Caravel/PRF.cpp and Caravel/BitConvert.cpp: the wrappers of OpenSSL, over its
-- SHA-256 and HMAC as parameters, and bytes as text.
pub mod Text
use asiaccs.Base.{
  ℕ, zero, suc, ◌+◌, ◌-◌, ◌*◌, Bool, true, false, Option, none, some, List, [], ◌∷◌, ◌++◌,
}
use asiaccs.Base.{ltb, leb, ◌==◌, if◌then◌else◌, u32, length, tabulate}
use asiaccs.Base.{Outcome, ok, ◌>>=◌, ◌>>◌, require}
use asiaccs.Proxy.Services.{Bytes, take_bytes, drop_bytes}

abbrev pub zero_bytes : ℕ → Bytes
zero_bytes n = tabulate n 0 (λ i. 0)

-- `Sha256` of a string into a buffer of `len` bytes: `none` when it returns -1, and leaves the buffer alone.
unfoldable pub sha256_into : (Bytes → Bytes) → Bytes → ℕ → Option Bytes
unfolding take_bytes
sha256_into sha msg len =
    if ltb len 32
    then none
    else some (sha (take_bytes (u32 (length msg)) msg) ++ zero_bytes (len - 32))

-- `Sha256` into a string.
unfoldable pub sha256_string : (Bytes → Bytes) → Bytes → Bytes
unfolding sha256_into take_bytes
sha256_string sha msg = elim (sha256_into sha msg 32) [ none ↦ [] | some buf ↦ take_bytes 32 buf ]

-- `PRF::Sha256`: OpenSSL writes 32 bytes, whatever the length of the buffer.
unfoldable pub prf_sha256 : (Bytes → Bytes → Bytes) → Bytes → Bytes → ℕ → Outcome Bytes
prf_sha256 hmac key msg len = do require (leb 32 len); ok (hmac key msg ++ zero_bytes (len - 32))

-- Characters written to a buffer.
unfoldable pub put_text : Bytes → ℕ → Bytes → Outcome Bytes
unfolding take_bytes drop_bytes
put_text buf at t = do
  require (leb (at + length t) (length buf))
  ok (take_bytes at buf ++ (t ++ drop_bytes (at + length t) buf))

-- `snprintf` of a text that the format gives, with a NUL behind what there is room for.
unfoldable pub snprintf : Bytes → ℕ → ℕ → Bytes → Outcome Bytes
unfolding put_text take_bytes
snprintf buf at size t =
    if size == 0 then ok buf else put_text buf at (take_bytes (size - 1) t ++ (0 ∷ []))

-- The first `toString`: the loop from byte `cur` on.
unfoldable pub format_bytes : (ℕ → Bytes) → ℕ → Bytes → ℕ → Bytes → Outcome Bytes
unfolding snprintf
format_bytes format len [] cur buf = ok buf
format_bytes format len (c ∷ src) cur buf =
    snprintf buf (u32 (cur * len)) (u32 (len + 1)) (format c)
    >>= format_bytes format len src (suc cur)

-- `assign` of a buffer to a string: the text up to the first NUL.
unfoldable pub assign : Bytes → Bytes
assign [] = []
assign (c ∷ s) = let rest = assign s in if c == 0 then [] else c ∷ rest

-- The second `toString`; `fresh` gives the bytes of a new array.
unfoldable pub to_text : (ℕ → Bytes) → (ℕ → Bytes) → ℕ → Bytes → Outcome Bytes
unfolding format_bytes put_text assign
to_text fresh format len src = do
  let real_len = u32 (length src * len)
  filled ← format_bytes format len src 0 (fresh (u32 (real_len + 1)))
  ended ← put_text filled real_len (0 ∷ [])
  ok (assign ended)
