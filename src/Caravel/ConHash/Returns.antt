-- ===== src/Caravel/ConHash/Returns.antt =====
-- Caravel/ConHash.h: a call of `SafeSet` returns, and gives the semaphore back.
use asiaccs.Base.{ℕ, zero, suc, ◌+◌, ◌-◌}
use asiaccs.Base.{◌≡◌, refl, sym, ap, ◌∙◌, subst, ◌≢◌, inl, inr, arith}
use asiaccs.Base.{Bool, true, false, some}
use asiaccs.Base.{ltb, ◌==◌, ==_iff, Bool-cases}
use mathlib.Core.Bool.{true≢false}
use asiaccs.Caravel.ConHash.{
  Bytes, SemCtl, IsSemaphore, Writer, System, assign, is_empty, writer_step, Step, Reach, init,
}
use asiaccs.Caravel.ConHash.Writer.{outside, waiting, testing, copying, leaving}
use asiaccs.Caravel.ConHash.Invariant.{Agrees, Inv, is_inside}
use asiaccs.Caravel.ConHash.Steps.{init-Inv, Reach-Inv}
use asiaccs.Caravel.ConHash.Moves.{assign_same, assign_other}

module _ (ctl : SemCtl) (size : ℕ) where
  -- A step before others.
  first : {s t u : System} → Step ctl size s t → Reach ctl size t u → Reach ctl size s u
  first st Reach.here = Reach.later Reach.here st
  first st (Reach.later r more) = Reach.later (first st r) more

  append : {s t u : System} → Reach ctl size s t → Reach ctl size t u → Reach ctl size s u
  append r Reach.here = r
  append r (Reach.later q st) = Reach.later (append r q) st

  -- The system after the next access of a writer.
  abbrev written : System → ℕ → System
  written s t = record s {
    shared = (writer_step ctl size s.shared (s.writers t)).0;
    writers = assign s.writers t (writer_step ctl size s.shared (s.writers t)).1;
  }

  -- A state from which the thread comes out.
  abbrev pub Ends : System → ℕ → Type 0
  Ends s t = (s' : System) × Reach ctl size s s' × (s'.writers t ≡ outside)

  -- It comes out while the other writers stay where they are.
  abbrev EndsAlone : System → ℕ → Type 0
  EndsAlone s t =
      (s' : System) × Reach ctl size s s'
      × (s'.writers t ≡ outside)
      × ((u : ℕ) → u ≢ t → s'.writers u ≡ s.writers u)

  one_more : (s : System) (t : ℕ) → EndsAlone (written s t) t → EndsAlone s t
  one_more s t (s', r, out, others) = (
    s',
    first (Step.write t) r,
    out,
    λ u other.
        others u other
        ∙ assign_other s.writers t u (writer_step ctl size s.shared (s.writers t)).1 other,
  )

  -- Where a writer is after its next access.
  next_place :
      (s : System) (t : ℕ) (w : Writer)
      → s.writers t ≡ w
      → (written s t).writers t ≡ (writer_step ctl size s.shared w).1
  next_place s t w e =
      assign_same s.writers t (writer_step ctl size s.shared (s.writers t)).1
      ∙ ap (λ w. (writer_step ctl size s.shared w).1) e

  leaving-EndsAlone :
      (s : System) (t : ℕ) (done : Bool) → s.writers t ≡ leaving done → EndsAlone s t
  unfolding writer_step
  leaving-EndsAlone s t done e =
      one_more s t (written s t, Reach.here, next_place s t (leaving done) e, λ u other. refl)

  copying-EndsAlone :
      (left : ℕ) (s : System) (t : ℕ) (d : Bytes) (k : ℕ)
      → s.writers t ≡ copying d k
      → k + left ≡ size
      → EndsAlone s t
  unfolding writer_step
  copying-EndsAlone zero s t d k e sum =
      let end : ltb k size ≡ false = ground (arith, sum) in
      let next : (written s t).writers t ≡ leaving true =
        next_place s t (copying d k) e ∙ rw end refl in
      one_more s t (leaving-EndsAlone (written s t) t true next)
  copying-EndsAlone (suc left) s t d k e sum =
      let more : ltb k size ≡ true = ground (arith, sum) in
      let next : (written s t).writers t ≡ copying d (suc k) =
        next_place s t (copying d k) e ∙ rw more refl in
      one_more s t (copying-EndsAlone left (written s t) t d (suc k) next (omega (arith, sum)))

  testing-EndsAlone : (s : System) (t : ℕ) (d : Bytes) → s.writers t ≡ testing d → EndsAlone s t
  unfolding writer_step
  testing-EndsAlone s t d e = elim (Bool-cases (is_empty size s.shared.cells)) [
    | inl empty ↦ one_more s t (
        copying-EndsAlone size (written s t) t d 0 (next_place s t (testing d) e ∙ rw empty refl)
          (omega arith))
    | inr full ↦
        one_more s t
          (leaving-EndsAlone (written s t) t false (next_place s t (testing d) e ∙ rw full refl))
  ]

  -- A thread that has the semaphore comes out.
  inside-EndsAlone :
      (s : System) (t : ℕ) (w : Writer)
      → s.writers t ≡ w
      → is_inside w ≡ true
      → Agrees size w s.shared
      → EndsAlone s t
  inside-EndsAlone s t outside e inside a = absurd (true≢false (sym inside))
  inside-EndsAlone s t (waiting d) e inside a = absurd (true≢false (sym inside))
  inside-EndsAlone s t (testing d) e inside a = testing-EndsAlone s t d e
  inside-EndsAlone s t (copying d k) e inside a =
      copying-EndsAlone (size - k) s t d k e (omega (arith, a.inside))
  inside-EndsAlone s t (leaving done) e inside a = leaving-EndsAlone s t done e

module _ (ctl : SemCtl) (law : IsSemaphore ctl) (size : ℕ) where
  -- On a free semaphore a thread that waits takes it and comes out.
  taking-Ends :
      (s : System) (t : ℕ) (d : Bytes)
      → s.writers t ≡ waiting d
      → s.shared.semaphore ≡ 1
      → Ends ctl size s t
  taking-Ends s t d e one =
      let took : ctl.take_sem s.shared.semaphore ≡ some 0 = ap ctl.take_sem one ∙ law.takes 0 in
      let (s', r, out, _) =
        testing-EndsAlone ctl size
          (record s {
            shared = record s.shared { semaphore = 0 };
            writers = assign s.writers t (testing d);
          })
          t d (assign_same s.writers t (testing d)) in
      (s', first ctl size (Step.take t d 0 e took) r, out)

  -- A thread that waits comes out: the one that has the semaphore gives it back first.
  waiting-Ends :
      (s : System) (t : ℕ) (d : Bytes) → s.writers t ≡ waiting d → Inv size s → Ends ctl size s t
  waiting-Ends s t d e i = elim i.writers [
    | inl f ↦ taking-Ends s t d e f.one
    | inr (o, own) ↦
        let apart : t ≢ o = λ same.
          true≢false
            (sym own.inside ∙ ap (λ k. is_inside (s.writers k)) (sym same) ∙ ap is_inside e) in
        let (s1, r1, out1, kept) =
          inside-EndsAlone ctl size s o (s.writers o) refl own.inside own.agrees in
        let one : s1.shared.semaphore ≡ 1 = elim (Reach-Inv ctl law size r1 i).writers [
          | inl f ↦ f.one
          | inr (q, held) ↦ elim (Bool-cases (q == o)) [
            | inl same ↦ absurd (
                true≢false (
                  sym held.inside
                  ∙ ap (λ k. is_inside (s1.writers k)) ((==_iff q o).0 same)
                  ∙ ap is_inside out1))
            | inr other ↦
                let different : q ≢ o = ground (arith, other) in
                absurd (
                  true≢false
                    (sym held.inside ∙ ap is_inside (kept q different) ∙ own.others q different))
          ]
        ] in
        let (s2, r2, out2) = taking-Ends s1 t d (kept t apart ∙ e) one in
        (s2, append ctl size r1 r2, out2)
  ]

  -- With `SemCtl` a counting semaphore, from every state that threads reach from `Init` on zeroed memory,
  -- with data that is not all zero, steps lead to one in which a given call of `SafeSet` has returned,
  -- also when it waits for the semaphore that another thread has.
  pub Reach-Ends : (s : System) (t : ℕ) → Reach ctl size (init ctl) s → Ends ctl size s t
  Reach-Ends s t reach =
      let i = Reach-Inv ctl law size reach (init-Inv ctl law size) in by_place i (s.writers t) refl
    where
      agrees : Inv size s → is_inside (s.writers t) ≡ true → Agrees size (s.writers t) s.shared
      agrees i inside = elim i.writers [
        | inl f ↦ absurd (true≢false (sym inside ∙ f.nobody t))
        | inr (o, own) ↦ elim (Bool-cases (t == o)) [
          | inl e ↦
              subst (λ k. Agrees size (s.writers k) s.shared) (sym ((==_iff t o).0 e)) own.agrees
          | inr e ↦ absurd (true≢false (sym inside ∙ own.others t (ground (arith, e))))
        ]
      ]

      inside_ends :
          Inv size s → (w : Writer) → s.writers t ≡ w → is_inside w ≡ true → Ends ctl size s t
      inside_ends i w e inside =
          let there : is_inside (s.writers t) ≡ true = ap is_inside e ∙ inside in
          let (s', r, out, _) =
            inside-EndsAlone ctl size s t (s.writers t) refl there (agrees i there) in
          (s', r, out)

      by_place : Inv size s → (w : Writer) → s.writers t ≡ w → Ends ctl size s t
      by_place i outside e = (s, Reach.here, e)
      by_place i (waiting d) e = waiting-Ends s t d e i
      by_place i (testing d) e = inside_ends i (testing d) e refl
      by_place i (copying d k) e = inside_ends i (copying d k) e refl
      by_place i (leaving done) e = inside_ends i (leaving done) e refl
