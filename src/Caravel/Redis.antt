-- ===== src/Caravel/Redis.antt =====
-- Caravel/RedisHelper.cpp: the connections to Redis, over the library redis3m as a parameter.
pub mod Moved
pub mod Cluster
use asiaccs.Base.{
  ℕ, zero, suc, ◌+◌, ◌-◌, ◌^◌, Bool, true, false, Option, none, some, List, [], ◌∷◌, ◌++◌,
}
use asiaccs.Base.{ltb, leb, ◌==◌, if◌then◌else◌, u32, u64, sub32, length}
use asiaccs.Base.{Outcome, ok, err, fault}
use asiaccs.Base.Decimal.{scan_number}
use asiaccs.Base.Int.{ℤ, int_to_string}
use asiaccs.Proxy.Services.{Bytes, codes, take_bytes, drop_bytes, equal_bytes}

-- What a call does: it returns, it throws an exception, or C++ leaves it undefined.
pub data Run {ℓ} (A : Type ℓ) : Type ℓ where
  done : A → Run A
  thrown : Run A
  undefined : Run A

infixl 5 ◌>>=◌ ◌>>◌
abbrev pub ◌>>=◌ {ℓ κ} : {A : Type ℓ} {B : Type κ} → Run A → (A → Run B) → Run B
done a >>= f = f a
thrown >>= f = thrown
undefined >>= f = undefined

abbrev pub ◌>>◌ {ℓ} : {B : Type ℓ} → Run (Unit {0}) → Run B → Run B
m >> k = m >>= λ _. k

-- The outcome of code that does not throw, as a call.
abbrev pub run_outcome {ℓ} : {A : Type ℓ} → Outcome A → Run A
run_outcome (ok a) = done a
run_outcome (err e) = thrown
run_outcome fault = undefined

-- `redis3m::reply`, by its types.
mutual
  pub data Reply : Type 0 where
    text error status : Bytes → Reply
    integer : ℤ → Reply
    nil : Reply
    array : Replies → Reply

  pub data Replies : Type 0 where
    end : Replies
    more : Reply → Replies → Replies

-- `reply::str()`, which is empty for a reply without a text.
abbrev pub str : Reply → Bytes
str (text s) = s
str (error s) = s
str (status s) = s
str (integer n) = []
str nil = []
str (array rs) = []

-- Host and port.
abbrev pub Address : Type 0
Address = Bytes × ℕ

-- `run_with_connection` on the pool of an address, with so many repetitions: `none` when none of them
-- reaches the server, which is an exception; and `run` on one connection.
pub record Network : Type 1 where
  pub World : Type 0
  pub run_with_connection : Address → ℕ → List Bytes → World → Option (Reply × World)
  pub run : Address → List Bytes → World → Option (Reply × World)

-- The pools and connections, by the address that each was created with; none is a null pointer.
pub record RedisHelper : Type 0 where
  pub ptr_connection : Option Address
  pub map_ptr_connection : List (Bytes × Address)
  pub ptr_pool : Option Address
  pub ptr_cluster_pool : Option Address
  pub map_ptr_pool : List (Bytes × Address)

-- DEF_REP_TIMES
abbrev pub def_rep_times : ℕ
def_rep_times = 10

abbrev pub get_word : Bytes
get_word = codes "GET"

abbrev pub set_word : Bytes
set_word = codes "SET"

-- The text "MOVED ".
abbrev pub moved_word : Bytes
moved_word = codes "MOVED "

-- `find_last_of` a character: its position, or `npos`.
unfoldable pub find_last_of : Bytes → ℕ → Option ℕ
find_last_of [] c = none
find_last_of (x ∷ s) c = elim (find_last_of s c) [
  | none ↦ if x == c then some 0 else none
  | some i ↦ some (suc i)
]

-- A position in a `uint32_t`, and the next one.
abbrev pub position : Option ℕ → ℕ
position none = 2 ^ 32 - 1
position (some i) = u32 i

abbrev pub next_position : Option ℕ → ℕ
next_position none = 0
next_position (some i) = u32 (i + 1)

-- `substr`: at most `n` bytes, from a place that is not behind the end.
unfoldable pub substr : Bytes → ℕ → ℕ → Run Bytes
unfolding take_bytes drop_bytes
substr s at n = if leb at (length s) then done (take_bytes n (drop_bytes at s)) else thrown

-- `sscanf` with "%u" into a variable that is not set.
unfoldable pub scan_port : Bytes → Run ℕ
unfolding scan_number
scan_port s = elim (scan_number s) [
  | none ↦ undefined
  | some (negative, n) ↦
      if ltb n (2 ^ 32) then done (if negative then sub32 0 n else n) else undefined
]

-- The address in a text "MOVED <slot> <IP>:<port>".
unfoldable pub moved_address : Bytes → Run Address
unfolding find_last_of substr scan_port
moved_address val = do
  let ip_beg = next_position (find_last_of val b' ')
  let ip_end = position (find_last_of val b':')
  ip ← substr val ip_beg (sub32 ip_end ip_beg)
  port ← substr val (u32 (ip_end + 1)) (u64 (length val + 2 ^ 64 - ip_end))
  number ← scan_port port
  done (ip, number)

-- The pool of an IP: the map has one for each IP.
unfoldable pub find_pool : Bytes → List (Bytes × Address) → Option Address
unfolding equal_bytes
find_pool ip [] = none
find_pool ip ((ip', pool) ∷ pools) =
    let rest = find_pool ip pools in if equal_bytes ip' ip then some pool else rest

abbrev pub is_moved : Bytes → Bool
is_moved val = equal_bytes (take_bytes 6 val) moved_word

-- A pointer that is followed.
abbrev pub deref : Option Address → Run Address
deref none = undefined
deref (some pool) = done pool

-- The pool of an IP, created and put into the map when there is none.
unfoldable pub remember_pool : List (Bytes × Address) → Address → Address × List (Bytes × Address)
unfolding find_pool
remember_pool pools (ip, port) = elim (find_pool ip pools) [
  | some pool ↦ (pool, pools)
  | none ↦ ((ip, port), (ip, (ip, port)) ∷ pools)
]

-- What comes of a command that a server was sent.
abbrev pub answered {ℓ} : {A : Type ℓ} → Option A → Run A
answered none = thrown
answered (some answer) = done answer

module _ ⦃net : Network⦄ where
  -- One command on a pool.
  abbrev pub command : Option Address → List Bytes → net.World → Run (Reply × net.World)
  command pool words w =
      deref pool >>= λ a. answered (net.run_with_connection a def_rep_times words w)

  -- `ClusterPoolGet`: the length that it returns and the value, with the helper and the world after it.
  unfoldable pub cluster_pool_get :
      RedisHelper → Bytes → net.World → Run ((ℕ × Bytes) × (RedisHelper × net.World))
  unfolding moved_address remember_pool equal_bytes take_bytes
  cluster_pool_get h key w = do
    (reply, w1) ← command h.ptr_cluster_pool (get_word ∷ key ∷ []) w
    let val = str reply
    let second = (do
      address ← moved_address val
      let (pool, pools) = remember_pool h.map_ptr_pool address
      (reply2, w2) ← command (some pool) (get_word ∷ key ∷ []) w1
      done ((u32 (length (str reply2)), str reply2), (record h { map_ptr_pool = pools }, w2)))
    if is_moved val then second else done ((u32 (length val), val), (h, w1))

  unfoldable pub cluster_pool_put : RedisHelper → Bytes → Bytes → net.World → Run net.World
  cluster_pool_put h key val w = do
    (reply, w1) ← command h.ptr_cluster_pool (set_word ∷ key ∷ val ∷ []) w
    done w1

  -- `Get` and `Put` on single connections.
  unfoldable pub connection_get :
      RedisHelper → Bytes → net.World → Run ((ℕ × Bytes) × (RedisHelper × net.World))
  unfolding moved_address remember_pool equal_bytes take_bytes
  connection_get h key w = do
    connection ← deref h.ptr_connection
    (reply, w1) ← answered (net.run connection (get_word ∷ key ∷ []) w)
    let val = str reply
    let second = (do
      address ← moved_address val
      let (server, servers) = remember_pool h.map_ptr_connection address
      (reply2, w2) ← answered (net.run server (get_word ∷ key ∷ []) w1)
      done (
        (u32 (length (str reply2)), str reply2),
        (record h { map_ptr_connection = servers }, w2),
      ))
    if is_moved val then second else done ((u32 (length val), val), (h, w1))

  unfoldable pub connection_put : RedisHelper → Bytes → Bytes → net.World → Run net.World
  connection_put h key val w = do
    connection ← deref h.ptr_connection
    (reply, w1) ← answered (net.run connection (set_word ∷ key ∷ val ∷ []) w)
    done w1

  unfoldable pub pool_get : RedisHelper → Bytes → net.World → Run ((ℕ × Bytes) × net.World)
  pool_get h key w = do
    (reply, w1) ← command h.ptr_pool (get_word ∷ key ∷ []) w
    done ((u32 (length (str reply)), str reply), w1)

  unfoldable pub pool_put : RedisHelper → Bytes → Bytes → net.World → Run net.World
  pool_put h key val w = do (reply, w1) ← command h.ptr_pool (set_word ∷ key ∷ val ∷ []) w; done w1

-- `OpenClusterPool` and `OpenPool`
abbrev pub open_cluster_pool : RedisHelper → Bytes → ℕ → RedisHelper
open_cluster_pool h host port = record h { ptr_cluster_pool = some (host, port) }

abbrev pub open_pool : RedisHelper → Bytes → ℕ → RedisHelper
open_pool h host port = record h { ptr_pool = some (host, port) }

-- `ins`: the texts and numbers of a reply in order, behind those that are there.
unfoldable mutual
  pub ins : List Bytes → Reply → List Bytes
  ins res (text s) = res ++ (s ∷ [])
  ins res (integer n) = res ++ (int_to_string n ∷ [])
  ins res (array rs) = ins_all res rs
  ins res (error s) = res
  ins res (status s) = res
  ins res nil = res

  pub ins_all : List Bytes → Replies → List Bytes
  ins_all res end = res
  ins_all res (more r rs) = ins_all (ins res r) rs

module _ ⦃net : Network⦄ where
  unfoldable pub pool_run : RedisHelper → List Bytes → net.World → Run (List Bytes × net.World)
  unfolding ins ins_all
  pool_run h cmd w = do (reply, w1) ← command h.ptr_pool cmd w; done (ins [] reply, w1)
