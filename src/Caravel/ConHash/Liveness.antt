-- ===== src/Caravel/ConHash/Liveness.antt =====
-- Caravel/ConHash.h: `SafeGet` ends when no writer is in a copy.
use asiaccs.Base.{ℕ, zero, suc, ◌+◌, ◌*◌, ◌≤◌, ◌<◌}
use asiaccs.Base.{◌≡◌, refl, sym, ap, ◌∙◌, ◌≢◌, ◌⊎◌, inl, inr, arith}
use asiaccs.Base.{true, false}
use asiaccs.Base.{ltb, ◌==◌, ==_iff, Bool-cases}
use asiaccs.Caravel.ConHash.{Bytes, Shared, Reader, write_byte, reader_step}
use asiaccs.Caravel.ConHash.Reader.{loading, comparing, reading, got, missed}
use asiaccs.Caravel.ConHash.Invariant.{Settled}

module _ (size : ℕ) where
  -- A reader that runs alone.
  unfoldable pub run_alone : (fuel : ℕ) → Shared → Reader → Reader
  run_alone zero s r = r
  run_alone (suc fuel) s r = run_alone fuel s (reader_step size s r)

  reading_ends :
      (left : ℕ) (s : Shared) (buf : Bytes) (k : ℕ)
      → s.version ≡ 2
      → k + left ≡ size
      → ((j : ℕ) → j < k → buf j ≡ s.cells j)
      → (buf' : Bytes) × (run_alone (suc left) s (reading 2 buf k) ≡ got buf')
        × ((j : ℕ) → j < size → buf' j ≡ s.cells j)
  unfolding run_alone reader_step
  reading_ends zero s buf k two sum front =
      let end : ltb k size ≡ false = ground (arith, sum) in
      (buf, rw (end, two) refl, λ j h. front j (omega (arith, h, sum)))
  reading_ends (suc left) s buf k two sum front =
      let more : ltb k size ≡ true = ground (arith, sum) in
      let (buf', runs, all) =
        reading_ends left s (write_byte buf k (s.cells k)) (suc k) two (omega (arith, sum)) (λ j h.
          elim (Bool-cases (j == k)) [
            | inl same ↦ rw same (ap s.cells (sym ((==_iff j k).0 same)))
            | inr other ↦ rw other (front j (ground (arith, other, h)))
          ]) in
      (buf', rw more runs, all)

  comparing_ends :
      (left : ℕ) (s : Shared) (k : ℕ)
      → s.version ≡ 2
      → k + left ≡ size
      → (j : ℕ) × (k ≤ j) × (j < size) × (s.cells j ≢ 0)
      → (fuel : ℕ) × (fuel ≤ left + size + 1)
        × (buf : Bytes) × (run_alone fuel s (comparing 2 k) ≡ got buf)
        × ((j : ℕ) → j < size → buf j ≡ s.cells j)
  unfolding run_alone reader_step
  comparing_ends zero s k two sum (j, low, high, full) = absurd (omega (arith, sum, low, high))
  comparing_ends (suc left) s k two sum (j, low, high, full) =
      let more : ltb k size ≡ true = ground (arith, sum) in
      elim (Bool-cases (s.cells k == 0)) [
        | inl e ↦
            let apart : k ≢ j = λ same. full (sym (ap s.cells same) ∙ (==_iff _ 0).0 e) in
            let (fuel, bound, buf, runs, all) =
              comparing_ends left s (suc k) two (omega (arith, sum))
                (j, omega (arith, low, apart), high, full) in
            (suc fuel, omega (arith, bound), buf, rw (more, e) runs, all)
        | inr e ↦
            let (buf, runs, all) =
              reading_ends size s (λ i. 0) 0 two (omega arith) (λ j h. absurd (omega (arith, h))) in
            let move : reader_step size s (comparing 2 k) ≡ reading 2 (λ i. 0) 0 =
              rw (more, e) refl in
            (suc (suc size), omega arith, buf, ap (run_alone (suc size) s) move ∙ runs, all)
      ]

  comparing_missed :
      (left : ℕ) (s : Shared) (k : ℕ)
      → ((j : ℕ) → j < size → s.cells j ≡ 0)
      → k + left ≡ size
      → run_alone (suc left) s (comparing s.version k) ≡ missed
  unfolding run_alone reader_step
  comparing_missed zero s k empty sum =
      let end : ltb k size ≡ false = ground (arith, sum) in rw end refl
  comparing_missed (suc left) s k empty sum =
      let more : ltb k size ≡ true = ground (arith, sum) in
      rw (more, empty k (omega (arith, sum)))
        (comparing_missed left s (suc k) empty (omega (arith, sum)))

  -- On a block that no writer is copying, `SafeGet` run alone ends within two steps for each byte and two
  -- more: it misses a block that was not set, and gets all bytes of one that was.
  pub run_alone_ends :
      (s : Shared)
      → Settled size s
      → (fuel : ℕ) × (fuel ≤ 2 * size + 2)
        × (((s.version ≡ 0) × (run_alone fuel s loading ≡ missed))
            ⊎ ((s.version ≡ 2)
                × (buf : Bytes) × (run_alone fuel s loading ≡ got buf)
                × ((j : ℕ) → j < size → buf j ≡ s.cells j)))
  unfolding run_alone reader_step
  run_alone_ends s (inl (zero_version, empty)) = (
    suc (suc size),
    omega arith,
    inl (zero_version, comparing_missed size s 0 empty (omega arith)),
  )
  run_alone_ends s (inr (two, d, (k, below, full), whole)) =
      let (fuel, bound, buf, runs, all) =
        comparing_ends size s 0 two (omega arith)
          (k, omega arith, below, λ z. full (sym (whole k below) ∙ z)) in
      (
        suc fuel,
        omega (arith, bound),
        inr (two, buf, ap (λ v. run_alone fuel s (comparing v 0)) two ∙ runs, all),
      )
