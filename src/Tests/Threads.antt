-- ===== src/Tests/Threads.antt =====
-- Two threads on a block of two bytes: one sets it, and two get it.
use asiaccs.Base.{ℕ, zero, suc, ◌+◌, ◌-◌, ◌*◌, ◌≤◌, ◌<◌}
use asiaccs.Base.{◌≡◌, refl, ap, ◌⊎◌, inr, arith}
use asiaccs.Base.{false, none, some, ◌==◌, if◌then◌else◌}
use asiaccs.Caravel.ConHash.{
  Bytes, SemCtl, IsSemaphore, Shared, System, write_byte, assign, is_empty, writer_step,
  reader_step, Step, Reach, init,
}
use asiaccs.Caravel.ConHash.Writer.{waiting, testing}
use asiaccs.Caravel.ConHash.Reader.{loading, got, missed}
use asiaccs.Caravel.ConHash.Safety.{got_stays}
use asiaccs.Caravel.ConHash.Liveness.{run_alone_ends, run_alone}
use asiaccs.Caravel.ConHash.Returns.{Reach-Ends, Ends}

abbrev some_data : Bytes
some_data k = k + 1

-- A semaphore that counts.
abbrev counting : SemCtl
counting = record {
  set_sem = λ n. n;
  take_sem = λ n. if n == 0 then none else some (n - 1);
  give_sem = suc;
}

counting-IsSemaphore : IsSemaphore counting
counting-IsSemaphore = record {
  sets = λ n. refl;
  waits = refl;
  takes = λ n.
      let positive : (suc n == 0) ≡ false = ground arith in rw positive (ap some (omega arith));
  gives = λ n. refl;
}

abbrev set_called : ℕ → System → System
set_called t s = record s { writers = assign s.writers t (waiting some_data) }

abbrev taken : System → System
taken s = record s {
  shared = record s.shared { semaphore = 0 };
  writers = assign s.writers 0 (testing some_data);
}

abbrev written : System → System
unfolding writer_step is_empty
written s = record s {
  shared = (writer_step counting 2 s.shared (s.writers 0)).0;
  writers = assign s.writers 0 (writer_step counting 2 s.shared (s.writers 0)).1;
}

abbrev get_called : ℕ → System → System
get_called r s = record s { readers = assign s.readers r loading }

abbrev looked : ℕ → System → System
unfolding reader_step
looked r s = record s { readers = assign s.readers r (reader_step 2 s.shared (s.readers r)) }

abbrev times : ℕ → (System → System) → System → System
times zero f s = s
times (suc n) f s = times n f (f s)

times-Reach :
    {o : System} (f : System → System)
    → ((s : System) → Reach counting 2 o s → Reach counting 2 o (f s))
    → (n : ℕ) (s : System) → Reach counting 2 o s
    → Reach counting 2 o (times n f s)
times-Reach f keeps zero s r = r
times-Reach f keeps (suc n) s r = times-Reach f keeps n (f s) (keeps s r)

abbrev begun : System
begun = taken (set_called 0 (init counting))

abbrev set_done : System
set_done = times 5 written begun

abbrev first_got : System
first_got = times 5 (looked 0) (get_called 0 set_done)

abbrev second_got : System
second_got = times 5 (looked 1) (get_called 1 first_got)

begun-Reach : Reach counting 2 (init counting) begun
begun-Reach =
    Reach.later
      (Reach.later Reach.here (Step.call_set 0 some_data (0, omega arith, omega arith) refl))
      (Step.take 0 some_data 0 refl refl)

-- Thread 1 waits for the semaphore that thread 0 has.
both-Reach : Reach counting 2 (init counting) (set_called 1 begun)
both-Reach = Reach.later begun-Reach (Step.call_set 1 some_data (0, omega arith, omega arith) refl)

first_got-Reach : Reach counting 2 (init counting) first_got
unfolding looked written
first_got-Reach =
    times-Reach (looked 0) (λ s r. Reach.later r (Step.look 0)) 5 _
      (Reach.later (times-Reach written (λ s r. Reach.later r (Step.write 0)) 5 _ begun-Reach)
        (Step.call_get 0))

second_got-Reach : Reach counting 2 first_got second_got
unfolding looked
second_got-Reach =
    times-Reach (looked 1) (λ s r. Reach.later r (Step.look 1)) 5 _
      (Reach.later Reach.here (Step.call_get 1))

abbrev copied : Bytes
copied = write_byte (write_byte (λ i. 0) 0 1) 1 2

first_got-eq : first_got.readers 0 ≡ got copied
unfolding looked written
first_got-eq = refl

second_got-eq : second_got.readers 1 ≡ got copied
unfolding looked written
second_got-eq = refl

got_stays_example : copied 1 ≡ copied 1
got_stays_example =
    got_stays counting counting-IsSemaphore 2 first_got second_got 0 1 copied copied first_got-Reach
      first_got-eq second_got-Reach second_got-eq 1 (omega arith)

Reach-Ends_example : Ends counting 2 (set_called 1 begun) 1
Reach-Ends_example = Reach-Ends counting counting-IsSemaphore 2 (set_called 1 begun) 1 both-Reach

abbrev whole_block : Shared
whole_block = record { cells = some_data; version = 2; semaphore = 1 }

run_alone_ends_example :
    (fuel : ℕ) × (fuel ≤ 2 * 2 + 2)
    × (((whole_block.version ≡ 0) × (run_alone 2 fuel whole_block loading ≡ missed))
        ⊎ ((whole_block.version ≡ 2)
            × (buf : Bytes) × (run_alone 2 fuel whole_block loading ≡ got buf)
            × ((j : ℕ) → j < 2 → buf j ≡ whole_block.cells j)))
run_alone_ends_example =
    run_alone_ends 2 whole_block (inr (refl, some_data, (0, omega arith, omega arith), λ k h. refl))
