-- ===== src/Caravel/ConHash/Moves.antt =====
-- Caravel/ConHash.h: what a step of one writer does to the block, the readers and the semaphore.
use asiaccs.Base.{ℕ, ◌≤◌, ◌<◌}
use asiaccs.Base.{◌≡◌, refl, sym, ap, ◌∙◌, subst, ◌≢◌, ◌⊎◌, inl, inr, arith}
use asiaccs.Base.{true, false}
use asiaccs.Base.{ltb, ◌==◌, ==_iff, ltb_iff, Bool-cases}
use mathlib.Core.Bool.{true≢false}
use asiaccs.Caravel.ConHash.{Shared, SemCtl, Writer, assign, is_empty, writer_step}
use asiaccs.Caravel.ConHash.Writer.{outside, waiting, testing, copying, leaving}
use asiaccs.Base.{all_below-elim}
use asiaccs.Caravel.ConHash.Invariant.{
  Untouched, Settled, Agrees, Given, is_inside, WriterInv, Later,
}
use asiaccs.Caravel.ConHash.Invariant.{Settled-Bounded, WriterInv-Bounded}

pub assign_same : {A : Type 0} (f : ℕ → A) (t : ℕ) (a : A) → assign f t a t ≡ a
assign_same f t a = let same : (t == t) ≡ true = ground arith in rw same refl

pub assign_other : {A : Type 0} (f : ℕ → A) (t u : ℕ) (a : A) → u ≢ t → assign f t a u ≡ f u
assign_other f t u a apart = let other : (u == t) ≡ false = ground (arith, apart) in rw other refl

module _ (size : ℕ) where
  -- A settled block that compares equal to zeros is untouched.
  empty-Untouched : (s : Shared) → Settled size s → is_empty size s.cells ≡ true → Untouched size s
  unfolding is_empty
  empty-Untouched s (inl u) e = u
  empty-Untouched s (inr (two, d, (k, below, full), whole)) e =
      let zero_byte : (s.cells k == 0) ≡ true =
        all_below-elim size (λ k. s.cells k == 0) e k below in
      absurd (full (sym (whole k below) ∙ (==_iff _ 0).0 zero_byte))

module _ (ctl : SemCtl) (size : ℕ) where
  -- A step of a writer: readers survive the change, and it agrees with the block again.
  pub writer_step-Later :
      (s : Shared) (w : Writer) → Agrees size w s → Later size s (writer_step ctl size s w).0
  unfolding writer_step
  writer_step-Later s outside a = record {
    up = omega arith;
    top = (Settled-Bounded size s a).top;
    same = λ e j h. refl;
  }
  writer_step-Later s (waiting d) a = record {
    up = omega arith;
    top = (Settled-Bounded size s a).top;
    same = λ e j h. refl;
  }
  writer_step-Later s (testing d) a = elim (Bool-cases (is_empty size s.cells)) [
    | inl empty ↦
        let zero_version = (empty-Untouched size s a.0 empty).0 in
        rw empty record {
          up = omega (arith, zero_version);
          top = omega (arith, zero_version);
          same = λ e j h. refl;
        }
    | inr full ↦
        rw full
          record { up = omega arith; top = (Settled-Bounded size s a.0).top; same = λ e j h. refl }
  ]
  writer_step-Later s (copying d k) a = elim (Bool-cases (ltb k size)) [
    | inl more ↦ rw more record {
      up = omega arith;
      top = omega (arith, a.odd);
      same = λ e j h. absurd (omega (arith, e, a.odd));
    }
    | inr end ↦
        rw end
          record { up = omega (arith, a.odd); top = omega (arith, a.odd); same = λ e j h. refl }
  ]
  writer_step-Later s (leaving done) a = record {
    up = omega arith;
    top = (Settled-Bounded size s a).top;
    same = λ e j h. refl;
  }

  pub writer_step-Agrees :
      (s : Shared) (w : Writer)
      → Agrees size w s
      → Agrees size (writer_step ctl size s w).1 (writer_step ctl size s w).0
  unfolding writer_step
  writer_step-Agrees s outside a = a
  writer_step-Agrees s (waiting d) a = a
  writer_step-Agrees s (testing d) a = elim (Bool-cases (is_empty size s.cells)) [
    | inl empty ↦
        let (zero_version, zeros) = empty-Untouched size s a.0 empty in
        rw empty record {
          odd = omega (arith, zero_version);
          given = a.1;
          inside = omega arith;
          front = λ j h. absurd (omega (arith, h));
          back = λ j l h. zeros j h;
        }
    | inr full ↦ rw full a.0
  ]
  writer_step-Agrees s (copying d k) a = elim (Bool-cases (ltb k size)) [
    | inl more ↦
        let below : k < size = (ltb_iff k size).0 more in
        rw more record {
          odd = a.odd;
          given = a.given;
          inside = omega (arith, below);
          front = λ j h. elim (Bool-cases (j == k)) [
            | inl same ↦ rw same (ap d (sym ((==_iff j k).0 same)))
            | inr other ↦ rw other (a.front j (ground (arith, other, h)))
          ];
          back = λ j l h.
              let other : (j == k) ≡ false = ground (arith, l) in
              rw other (a.back j (omega (arith, l)) h);
        }
    | inr end ↦
        let all : size ≤ k = ground (arith, end) in
        rw end (inr (omega (arith, a.odd), d, a.given, λ j h. a.front j (omega (arith, h, all))))
  ]
  writer_step-Agrees s (leaving done) a = a

  -- A writer that waits, or is not in a call, does not move.
  pub writer_step-idle :
      (s : Shared) (w : Writer) → is_inside w ≡ false → writer_step ctl size s w ≡ (s, w)
  unfolding writer_step
  writer_step-idle s outside idle = refl
  writer_step-idle s (waiting d) idle = refl
  writer_step-idle s (testing d) idle = absurd (true≢false idle)
  writer_step-idle s (copying d k) idle = absurd (true≢false idle)
  writer_step-idle s (leaving done) idle = absurd (true≢false idle)

  pub Agrees-idle :
      (s : Shared) (w : Writer) → is_inside w ≡ false → Agrees size w s → Settled size s
  Agrees-idle s outside idle a = a
  Agrees-idle s (waiting d) idle a = a
  Agrees-idle s (testing d) idle a = absurd (true≢false idle)
  Agrees-idle s (copying d k) idle a = absurd (true≢false idle)
  Agrees-idle s (leaving done) idle a = a

  -- The data of a writer that waits is not all zero.
  pub writer_step-Given :
      (s : Shared) (w : Writer) → Given size w → Given size (writer_step ctl size s w).1
  unfolding writer_step
  writer_step-Given s outside g = tt
  writer_step-Given s (waiting d) g = g
  writer_step-Given s (testing d) g = elim (Bool-cases (is_empty size s.cells)) [
    | inl e ↦ rw e tt
    | inr e ↦ rw e tt
  ]
  writer_step-Given s (copying d k) g = elim (Bool-cases (ltb k size)) [
    | inl e ↦ rw e tt
    | inr e ↦ rw e tt
  ]
  writer_step-Given s (leaving done) g = tt

  pub assign-Given :
      (ws : ℕ → Writer) (t : ℕ) (w : Writer)
      → Given size w
      → ((u : ℕ) → Given size (ws u))
      → (u : ℕ) → Given size (assign ws t w u)
  assign-Given ws t w g all u = elim (Bool-cases (u == t)) [ inl e ↦ rw e g | inr e ↦ rw e (all u) ]

  -- A writer inside stays inside, or leaves and gives the semaphore back.
  unfoldable pub Moves : Shared → Shared → Writer → Type 0
  Moves s s' w' =
      ((is_inside w' ≡ false) × (s'.semaphore ≡ ctl.give_sem s.semaphore))
      ⊎ ((is_inside w' ≡ true) × (s'.semaphore ≡ s.semaphore))

  pub writer_step-Moves :
      (s : Shared) (w : Writer)
      → is_inside w ≡ true
      → Moves s (writer_step ctl size s w).0 (writer_step ctl size s w).1
  unfolding writer_step Moves
  writer_step-Moves s outside inside = absurd (true≢false (sym inside))
  writer_step-Moves s (waiting d) inside = absurd (true≢false (sym inside))
  writer_step-Moves s (testing d) inside = elim (Bool-cases (is_empty size s.cells)) [
    | inl e ↦ rw e (inr (refl, refl))
    | inr e ↦ rw e (inr (refl, refl))
  ]
  writer_step-Moves s (copying d k) inside = elim (Bool-cases (ltb k size)) [
    | inl e ↦ rw e (inr (refl, refl))
    | inr e ↦ rw e (inr (refl, refl))
  ]
  writer_step-Moves s (leaving done) inside = inl (refl, refl)

  pub write-Later :
      (s : Shared) (ws : ℕ → Writer) (t : ℕ)
      → WriterInv size s ws
      → Later size s (writer_step ctl size s (ws t)).0
  write-Later s ws t (inl f) =
      writer_step-Later s (ws t) (settled_idle (ws t) (f.nobody t) f.settled)
    where
      settled_idle : (w : Writer) → is_inside w ≡ false → Settled size s → Agrees size w s
      settled_idle outside idle a = a
      settled_idle (waiting d) idle a = a
      settled_idle (testing d) idle a = absurd (true≢false idle)
      settled_idle (copying d k) idle a = absurd (true≢false idle)
      settled_idle (leaving done) idle a = a
  write-Later s ws t (inr (o, own)) = elim (Bool-cases (t == o)) [
    | inl e ↦
        writer_step-Later s (ws t)
          (subst (λ k. Agrees size (ws k) s) (sym ((==_iff t o).0 e)) own.agrees)
    | inr e ↦ rw (writer_step-idle s (ws t) (own.others t (ground (arith, e)))) record {
      up = omega arith;
      top = (WriterInv-Bounded size s ws (inr (o, own))).top;
      same = λ e j h. refl;
    }
  ]
