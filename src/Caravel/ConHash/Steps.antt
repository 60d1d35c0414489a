-- ===== src/Caravel/ConHash/Steps.antt =====
-- Caravel/ConHash.h: every step keeps the invariant.
use asiaccs.Base.{ℕ}
use asiaccs.Base.{◌≡◌, refl, sym, ap, ◌∙◌, subst, ◌≢◌, inl, inr, arith}
use asiaccs.Base.{true, false, none, some}
use asiaccs.Base.{◌==◌, ==_iff, Bool-cases}
use mathlib.Core.Bool.{true≢false}
use asiaccs.Caravel.ConHash.{
  Bytes, Shared, SemCtl, IsSemaphore, Writer, System, assign, writer_step, IsData, Step, Reach,
  init,
}
use asiaccs.Caravel.ConHash.Writer.{outside, waiting, testing}
use asiaccs.Caravel.ConHash.Invariant.{Agrees, Given, is_inside, ReaderInv, WriterInv, Inv}
use asiaccs.Caravel.ConHash.Invariant.{WriterInv-Bounded, ReaderInv-Later, reader_step-ReaderInv}
use asiaccs.Caravel.ConHash.Moves.{
  assign_same, assign_other, writer_step-idle, writer_step-Agrees, writer_step-Moves,
  writer_step-Given, Agrees-idle, assign-Given, Moves, write-Later,
}

module _ (ctl : SemCtl) (law : IsSemaphore ctl) (size : ℕ) where
  -- A step of thread `t` keeps the invariant of the writers.
  write-WriterInv :
      (s : Shared) (ws : ℕ → Writer) (t : ℕ)
      → WriterInv size s ws
      → WriterInv size
          (writer_step ctl size s (ws t)).0
          (assign ws t (writer_step ctl size s (ws t)).1)
  unfolding Moves
  write-WriterInv s ws t (inl f) = rw (writer_step-idle ctl size s (ws t) (f.nobody t)) (
      inl record {
        one = f.one;
        nobody = λ u. elim (Bool-cases (u == t)) [
          | inl e ↦ rw e (f.nobody t)
          | inr e ↦ rw e (f.nobody u)
        ];
        settled = f.settled;
      })
  write-WriterInv s ws t (inr (o, own)) = elim (Bool-cases (t == o)) [
    | inl e ↦
        let same : t ≡ o = (==_iff t o).0 e in
        let held = subst (λ k. is_inside (ws k) ≡ true) (sym same) own.inside in
        let agrees = subst (λ k. Agrees size (ws k) s) (sym same) own.agrees in
        let after = writer_step-Agrees ctl size s (ws t) agrees in
        let others : (u : ℕ) → u ≢ t → is_inside (ws u) ≡ false =
          λ u apart. own.others u (λ x. apart (x ∙ sym same)) in
        moved t others own.taken (writer_step ctl size s (ws t)).0 (writer_step ctl size s (ws t)).1
          after (writer_step-Moves ctl size s (ws t) held)
    | inr e ↦
        let apart : t ≢ o = ground (arith, e) in
        let kept : assign ws t (ws t) o ≡ ws o = assign_other ws t o (ws t) (λ y. apart (sym y)) in
        rw (writer_step-idle ctl size s (ws t) (own.others t apart)) (
          inr (
            o,
            record {
              taken = own.taken;
              inside = ap is_inside kept ∙ own.inside;
              others = λ u other. elim (Bool-cases (u == t)) [
                | inl f ↦ rw f (own.others t apart)
                | inr f ↦ rw f (own.others u other)
              ];
              agrees = subst (λ w. Agrees size w s) (sym kept) own.agrees;
            },
          ))
  ]
    where
      moved :
          (t : ℕ)
          → ((u : ℕ) → u ≢ t → is_inside (ws u) ≡ false)
          → s.semaphore ≡ 0
          → (s' : Shared) (w' : Writer) → Agrees size w' s'
          → Moves ctl size s s' w'
          → WriterInv size s' (assign ws t w')
      moved t others taken s' w' agrees (inl (out, back)) = inl record {
        one = back ∙ ap ctl.give_sem taken ∙ law.gives 0;
        nobody = λ u. elim (Bool-cases (u == t)) [
          | inl e ↦ rw e out
          | inr e ↦ rw e (others u (ground (arith, e)))
        ];
        settled = Agrees-idle ctl size s' w' out agrees;
      }
      moved t others taken s' w' agrees (inr (inside, kept)) = inr (
        t,
        record {
          taken = kept ∙ taken;
          inside = ap is_inside (assign_same ws t w') ∙ inside;
          others = λ u other. ap is_inside (assign_other ws t u w' other) ∙ others u other;
          agrees = subst (λ x. Agrees size x s') (sym (assign_same ws t w')) agrees;
        },
      )

  -- A call of `SafeSet` that waits changes nothing.
  call_set-WriterInv :
      (s : Shared) (ws : ℕ → Writer) (t : ℕ) (d : Bytes)
      → ws t ≡ outside
      → WriterInv size s ws
      → WriterInv size s (assign ws t (waiting d))
  call_set-WriterInv s ws t d out (inl f) = inl record {
    one = f.one;
    nobody = λ u. elim (Bool-cases (u == t)) [ inl e ↦ rw e refl | inr e ↦ rw e (f.nobody u) ];
    settled = f.settled;
  }
  call_set-WriterInv s ws t d out (inr (o, own)) =
      let apart : o ≢ t =
        λ e. true≢false (sym own.inside ∙ ap (λ k. is_inside (ws k)) e ∙ ap is_inside out) in
      let kept = assign_other ws t o (waiting d) apart in
      inr (
        o,
        record {
          taken = own.taken;
          inside = ap is_inside kept ∙ own.inside;
          others = λ u other. elim (Bool-cases (u == t)) [
            | inl e ↦ rw e refl
            | inr e ↦ rw e (own.others u other)
          ];
          agrees = subst (λ w. Agrees size w s) (sym kept) own.agrees;
        },
      )

  -- `ModSem(-1)` returns for one thread only, on a free semaphore.
  take-WriterInv :
      (s : Shared) (ws : ℕ → Writer) (t left : ℕ) (d : Bytes)
      → IsData size d
      → ctl.take_sem s.semaphore ≡ some left
      → WriterInv size s ws
      → WriterInv size (record s { semaphore = left }) (assign ws t (testing d))
  take-WriterInv s ws t left d nonzero took (inl f) =
      let one_less : some 0 ≡ some left = sym (law.takes 0) ∙ ap ctl.take_sem (sym f.one) ∙ took in
      let none_left : left ≡ 0 = cc one_less in
      inr (
        t,
        record {
          taken = none_left;
          inside = ap is_inside (assign_same ws t (testing d));
          others = λ u other. ap is_inside (assign_other ws t u (testing d) other) ∙ f.nobody u;
          agrees =
              subst (λ w. Agrees size w (record s { semaphore = left }))
                (sym (assign_same ws t (testing d))) (f.settled, nonzero);
        },
      )
  take-WriterInv s ws t left d nonzero took (inr (o, own)) =
      let waits : none ≡ some left = sym law.waits ∙ ap ctl.take_sem (sym own.taken) ∙ took in
      absurd (cc waits)

  unchanged :
      (s : System) (left r : ℕ)
      → Inv size s
      → ReaderInv size (s.readers r) (record s.shared { semaphore = left })
  unchanged s left r i =
      ReaderInv-Later size (s.readers r) s.shared _
        record {
          up = omega arith;
          top = (WriterInv-Bounded size s.shared s.writers i.writers).top;
          same = λ e j h. refl;
        }
        (i.readers r)

  -- Every step keeps the invariant.
  pub Step-Inv : {s s' : System} → Step ctl size s s' → Inv size s → Inv size s'
  Step-Inv {s} (Step.call_set t d nonzero out) i = record {
    writers = call_set-WriterInv s.shared s.writers t d out i.writers;
    given = assign-Given ctl size s.writers t (waiting d) nonzero i.given;
    readers = i.readers;
  }
  Step-Inv {s} (Step.take t d left at took) i = record {
    writers =
        take-WriterInv s.shared s.writers t left d (subst (Given size) at (i.given t)) took
          i.writers;
    given = assign-Given ctl size s.writers t (testing d) tt i.given;
    readers = λ r. unchanged s left r i;
  }
  Step-Inv {s} (Step.write t) i = record {
    writers = write-WriterInv s.shared s.writers t i.writers;
    given =
        assign-Given ctl size s.writers t (writer_step ctl size s.shared (s.writers t)).1
          (writer_step-Given ctl size s.shared (s.writers t) (i.given t)) i.given;
    readers = λ r.
        ReaderInv-Later size (s.readers r) s.shared _
          (write-Later ctl size s.shared s.writers t i.writers) (i.readers r);
  }
  Step-Inv {s} (Step.call_get r) i = record {
    writers = i.writers;
    given = i.given;
    readers = λ q. elim (Bool-cases (q == r)) [ inl e ↦ rw e tt | inr e ↦ rw e (i.readers q) ];
  }
  Step-Inv {s} (Step.look r) i = record {
    writers = i.writers;
    given = i.given;
    readers = λ q. elim (Bool-cases (q == r)) [
      | inl e ↦ rw e (
          reader_step-ReaderInv size s.shared (s.readers r)
            (WriterInv-Bounded size s.shared s.writers i.writers) (i.readers r))
      | inr e ↦ rw e (i.readers q)
    ];
  }

  -- The invariant holds in the first state, and so in every state that steps lead to.
  pub init-Inv : Inv size (init ctl)
  init-Inv = record {
    writers =
        inl record { one = law.sets 1; nobody = λ u. refl; settled = inl (refl, λ k h. refl) };
    given = λ t. tt;
    readers = λ r. tt;
  }

  pub Reach-Inv : {s t : System} → Reach ctl size s t → Inv size s → Inv size t
  Reach-Inv Reach.here i = i
  Reach-Inv (Reach.later r st) i = Step-Inv st (Reach-Inv r i)
