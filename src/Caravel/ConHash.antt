-- ===== src/Caravel/ConHash.antt =====
-- Caravel/ConHash.h: one block of the shared array, with its version byte and the semaphore of the
-- writers. Threads interleave between accesses to the memory, a byte at a time, in any order; the accesses
-- of one thread stay in the order of the program.
pub mod Invariant
pub mod Steps
pub mod Safety
pub mod Liveness
pub mod Returns
pub mod Moves
use asiaccs.Base.{ℕ, zero, suc, ◌+◌, ◌-◌, ◌*◌, ◌/◌, ◌%◌, ◌^◌, ◌≤◌, ◌<◌, bit_and, bit_or, bit_xor}
use asiaccs.Base.{◌≡◌, refl, sym, ap, ap₂, ◌∙◌, subst, ◌≢◌, ◌↔◌, ◌⊎◌, inl, inr, arith}
use asiaccs.Base.{Bool, true, false, ◌&&◌, ◌||◌, not, Option, none, some, List, [], ◌∷◌, ◌++◌, map}
use asiaccs.Base.{ltb, leb, ◌==◌, if◌then◌else◌, ==_iff, ltb_iff, Bool-cases, Option-cases}
use asiaccs.Base.{u8, u32, u64, sub32, shl64, shr, all_below, length, get_or, get_elem?, set}
use asiaccs.Base.{tabulate, length-append, length-tabulate, get_or-tabulate, length-map, get_or-map}
use asiaccs.Base.{map-tabulate, mod_of_split, div_of_split, pow_le, pow_pos, pow_add, pow_256}
use asiaccs.Base.{
  bytes_hold, pair_lt, ErrorCode, Outcome, ok, err, fault, ◌>>=◌, ◌>>◌, guard, require,
}
use asiaccs.Base.{guard_pass, guard_stop, get_or-tabulate_zero}

-- The bytes of a `T`.
abbrev pub Bytes : Type 0
Bytes = ℕ → ℕ

-- `SemCtl`, which the repository does not have: the value of a semaphore after `SetSem`, after
-- `ModSem(-1)`, where `none` says that the caller waits, and after `ModSem(1)`.
pub record SemCtl : Type 0 where
  pub set_sem : ℕ → ℕ
  pub take_sem : ℕ → Option ℕ
  pub give_sem : ℕ → ℕ

-- A counting semaphore, as the remarks `lock()` and `unlock()` beside the calls ask for: a call does not
-- fail, and waits for a value above zero to take one from.
pub record IsSemaphore (ctl : SemCtl) : Type 0 where
  pub sets : (n : ℕ) → ctl.set_sem n ≡ n
  pub waits : ctl.take_sem 0 ≡ none
  pub takes : (n : ℕ) → ctl.take_sem (suc n) ≡ some n
  pub gives : (n : ℕ) → ctl.give_sem n ≡ suc n

-- What the threads share: the block, its entry of `m_cV`, and the value of the semaphore.
pub record Shared : Type 0 where
  pub cells : Bytes
  pub version : ℕ
  pub semaphore : ℕ

-- Where a thread is in `SafeSet`: not in a call, at the `ModSem` that takes the semaphore, at the
-- `memcmp`, at byte `k` of the `memcpy`, and before the semaphore is given back.
pub data Writer : Type 0 where
  outside : Writer
  waiting testing : Bytes → Writer
  copying : Bytes → ℕ → Writer
  leaving : Bool → Writer

-- Where a thread is in `SafeGet`: not in a call, at the load of `vs`, at byte `k` of the `memcmp`, at byte
-- `k` of the `memcpy` into its buffer, and after it returned true with the buffer, or false.
pub data Reader : Type 0 where
  away : Reader
  loading : Reader
  comparing : (vs k : ℕ) → Reader
  reading : (vs : ℕ) → Bytes → ℕ → Reader
  got : Bytes → Reader
  missed : Reader

abbrev pub write_byte : Bytes → ℕ → ℕ → Bytes
write_byte m k v i = if i == k then v else m i

-- A function of threads with one changed.
abbrev pub assign : {A : Type 0} → (ℕ → A) → ℕ → A → ℕ → A
assign f t a u = if u == t then a else f u

-- The whole system: threads that set, and threads that get.
pub record System : Type 0 where
  pub shared : Shared
  pub writers : ℕ → Writer
  pub readers : ℕ → Reader

-- After `Init` on memory that is zero: the semaphore is 1 and no thread is in a call.
abbrev pub init : SemCtl → System
init ctl = record {
  shared = record { cells = λ k. 0; version = 0; semaphore = ctl.set_sem 1 };
  writers = λ t. outside;
  readers = λ r. away;
}

module _ (size : ℕ) where
  -- `memcmp(pBlock, &m_Empty, sizeof(T)) == 0`
  unfoldable pub is_empty : Bytes → Bool
  is_empty m = all_below size (λ k. m k == 0)

  -- The next access of a reader. `vs & 1 == 1` is `vs & (1 == 1)`.
  unfoldable pub reader_step : Shared → Reader → Reader
  reader_step s away = away
  reader_step s loading = comparing s.version 0
  reader_step s (comparing vs k) =
      if ltb k size
      then (if s.cells k == 0 then comparing vs (suc k) else reading vs (λ i. 0) 0)
      else missed
  reader_step s (reading vs buf k) =
      if ltb k size
      then reading vs (write_byte buf k (s.cells k)) (suc k)
      else if bit_and vs 1 == 1 || not (vs == s.version)
      then loading
      else got buf
  reader_step s (got buf) = got buf
  reader_step s missed = missed

  -- Data that is not all zero.
  abbrev pub IsData : Bytes → Type 0
  IsData d = (k : ℕ) × (k < size) × (d k ≢ 0)

module _ (ctl : SemCtl) (size : ℕ) where
  -- The next access of a writer that has the semaphore. `SafeSet` compares under the semaphore, so that
  -- its `memcmp` is one step.
  unfoldable pub writer_step : Shared → Writer → Shared × Writer
  unfolding is_empty
  writer_step s outside = (s, outside)
  writer_step s (waiting d) = (s, waiting d)
  writer_step s (testing d) =
      if is_empty size s.cells
      then (record s { version = u8 (s.version + 1) }, copying d 0)
      else (s, leaving false)
  writer_step s (copying d k) =
      if ltb k size
      then (record s { cells = write_byte s.cells k (d k) }, copying d (suc k))
      else (record s { version = u8 (s.version + 1) }, leaving true)
  writer_step s (leaving done) = (record s { semaphore = ctl.give_sem s.semaphore }, outside)

  -- A step of one thread. A thread calls `SafeGet` at any time; a writer calls `SafeSet` with data that is
  -- not all zero, and goes on when `ModSem(m_iSem, -1)` returns.
  pub data Step (s : System) : System → Type 0 where
    call_set :
        (t : ℕ) (d : Bytes)
        → IsData size d
        → s.writers t ≡ outside
        → Step s record s { writers = assign s.writers t (waiting d) }
    take :
        (t : ℕ) (d : Bytes) (left : ℕ)
        → s.writers t ≡ waiting d
        → ctl.take_sem s.shared.semaphore ≡ some left
        → Step s record s {
          shared = record s.shared { semaphore = left };
          writers = assign s.writers t (testing d);
        }
    write :
        (t : ℕ)
        → Step s record s {
          shared = (writer_step s.shared (s.writers t)).0;
          writers = assign s.writers t (writer_step s.shared (s.writers t)).1;
        }
    call_get : (r : ℕ) → Step s record s { readers = assign s.readers r loading }
    look :
        (r : ℕ)
        → Step s record s { readers = assign s.readers r (reader_step size s.shared (s.readers r)) }

  -- The states that steps lead to.
  pub data Reach (s : System) : System → Type 0 where
    here : Reach s s
    later : {t u : System} → Reach s t → Step t u → Reach s u
