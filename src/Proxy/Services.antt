-- ===== src/Proxy/Services.antt =====
-- What the client and the proxy take from OpenSSL and from Redis, and byte strings.
use Prim.Native.Char.{code}
use Prim.Native.String.{String}
use asiaccs.Base.{ℕ, zero, suc, ◌+◌, ◌*◌, ◌/◌, ◌%◌, ◌^◌}
use asiaccs.Base.{◌≡◌, ◌≢◌}
use asiaccs.Base.{Bool, true, false, ◌&&◌, List, [], ◌∷◌, ◌++◌}
use asiaccs.Base.{leb, ◌==◌, if◌then◌else◌}
use asiaccs.Base.{length, get_or}
use asiaccs.Base.{Outcome, ok, ◌>>◌, require}

-- `std::string`
abbrev pub Bytes : Type 0
Bytes = List ℕ

-- The bytes of a text literal.
abbrev pub codes : String → Bytes
codes String.[] = []
codes (String.◌∷◌ c s) = code c ∷ codes s

-- The first `n` bytes.
unfoldable pub take_bytes : ℕ → Bytes → Bytes
take_bytes zero s = []
take_bytes (suc n) [] = []
take_bytes (suc n) (x ∷ xs) = x ∷ take_bytes n xs

unfoldable pub drop_bytes : ℕ → Bytes → Bytes
drop_bytes zero s = s
drop_bytes (suc n) [] = []
drop_bytes (suc n) (x ∷ xs) = drop_bytes n xs

unfoldable pub equal_bytes : Bytes → Bytes → Bool
equal_bytes [] [] = true
equal_bytes [] (y ∷ ys) = false
equal_bytes (x ∷ xs) [] = false
equal_bytes (x ∷ xs) (y ∷ ys) = let rest = equal_bytes xs ys in if x == y then rest else false

-- What `c_str()` points to: the string and a NUL.
abbrev pub c_str : Bytes → Bytes
c_str s = s ++ (0 ∷ [])

-- `memcmp(a.c_str(), b.c_str(), n) == 0`
unfoldable pub memcmp : Bytes → Bytes → ℕ → Outcome Bool
unfolding take_bytes equal_bytes
memcmp a c n = do
  require (leb n (length a + 1) && leb n (length c + 1))
  ok (equal_bytes (take_bytes n (c_str a)) (take_bytes n (c_str c)))

-- `string(s.c_str() + off, n)`
unfoldable pub substr : Bytes → ℕ → ℕ → Outcome Bytes
unfolding take_bytes drop_bytes
substr s off n = do
  require (leb (off + n) (length s + 1))
  ok (take_bytes n (drop_bytes off (c_str s)))

-- `*(uint32_t*)s.c_str()`
unfoldable pub word32 : Bytes → Outcome ℕ
word32 s = do
  require (leb 4 (length s + 1))
  ok (get_or s 0 0 + get_or s 1 0 * 2 ^ 8 + get_or s 2 0 * 2 ^ 16 + get_or s 3 0 * 2 ^ 24)

-- The bytes of a `uint32_t` counter.
abbrev pub counter_bytes : ℕ → Bytes
counter_bytes c = c % 256 ∷ c / 256 % 256 ∷ c / 2 ^ 16 % 256 ∷ c / 2 ^ 24 % 256 ∷ []

unfoldable pub concat {ℓ} : {A : Type ℓ} → List (List A) → List A
concat [] = []
concat (x ∷ xs) = x ++ concat xs

-- HMAC-SHA256, and a Redis server behind `RedisHelper::PoolGet` and `PoolPut`: a missing key reads as
-- the empty string, a value that was put is read back, and no other key changes.
pub record Backend : Type 1 where
  pub hmac : Bytes → Bytes → Bytes
  pub hmac_length : (k d : Bytes) → length (hmac k d) ≡ 32
  pub Store : Type 0
  pub pool_get : Store → Bytes → Bytes
  pub pool_put : Store → Bytes → Bytes → Store
  pub get_put : (s : Store) (k v : Bytes) → pool_get (pool_put s k v) k ≡ v
  pub get_put_other :
      (s : Store) (k k' v : Bytes) → k ≢ k' → pool_get (pool_put s k v) k' ≡ pool_get s k'
