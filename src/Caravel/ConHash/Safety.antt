-- ===== src/Caravel/ConHash/Safety.antt =====
-- Caravel/ConHash.h: what `SafeGet` and `SafeSet` promise.
use asiaccs.Base.{ℕ, ◌<◌}
use asiaccs.Base.{◌≡◌, refl, sym, ◌∙◌, subst, arith}
use asiaccs.Caravel.ConHash.{Bytes, SemCtl, IsSemaphore, Writer, System, Step, Reach, init}
use asiaccs.Caravel.ConHash.Reader.{got}
use asiaccs.Caravel.ConHash.Invariant.{ReaderInv, Inv}
use asiaccs.Caravel.ConHash.Steps.{init-Inv, Reach-Inv}
use asiaccs.Caravel.ConHash.Moves.{write-Later}

module _ (ctl : SemCtl) (law : IsSemaphore ctl) (size : ℕ) where
  Step-same :
      (s s' : System)
      → Step ctl size s s'
      → Inv size s
      → s.shared.version ≡ 2
      → (s'.shared.version ≡ 2) × ((k : ℕ) → k < size → s'.shared.cells k ≡ s.shared.cells k)
  Step-same s s' (Step.call_set t d nonzero out) i two = (two, λ k h. refl)
  Step-same s s' (Step.take t d left at took) i two = (two, λ k h. refl)
  Step-same s s' (Step.write t) i two =
      let l = write-Later ctl size s.shared s.writers t i.writers in
      (omega (arith, two, l.up, l.top), λ k h. l.same two k h)
  Step-same s s' (Step.call_get r) i two = (two, λ k h. refl)
  Step-same s s' (Step.look r) i two = (two, λ k h. refl)

  Reach-same :
      (s s' : System)
      → Reach ctl size s s'
      → Inv size s
      → s.shared.version ≡ 2
      → (s'.shared.version ≡ 2) × ((k : ℕ) → k < size → s'.shared.cells k ≡ s.shared.cells k)
  Reach-same s s' Reach.here i two = (two, λ k h. refl)
  Reach-same s s' (Reach.later {t} r st) i two =
      let (still, same) = Reach-same s t r i two in
      let (last, same') = Step-same t s' st (Reach-Inv ctl law size r i) still in
      (last, λ k h. same' k h ∙ same k h)

  -- The block is written once. With `SemCtl` a counting semaphore, in states that threads reach from `Init` on zeroed memory, with data that
  -- is not all zero: what `SafeGet` returned to a thread, it returns to every thread later.
  pub got_stays :
      (s s' : System) (r q : ℕ) (buf buf' : Bytes)
      → Reach ctl size (init ctl) s
      → s.readers r ≡ got buf
      → Reach ctl size s s'
      → s'.readers q ≡ got buf'
      → (k : ℕ) → k < size
      → buf' k ≡ buf k
  got_stays s s' r q buf buf' reach e further e' k h =
      let i = Reach-Inv ctl law size reach (init-Inv ctl law size) in
      let (two, same) = subst (λ x. ReaderInv size x s.shared) e (i.readers r) in
      let i' = Reach-Inv ctl law size further i in
      let (_, same') = subst (λ x. ReaderInv size x s'.shared) e' (i'.readers q) in
      same' k h ∙ (Reach-same s s' further i two).1 k h ∙ sym (same k h)
