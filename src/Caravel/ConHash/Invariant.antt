-- ===== src/Caravel/ConHash/Invariant.antt =====
-- Caravel/ConHash.h: what holds of the block, the semaphore and the threads in every state.
use asiaccs.Base.{ℕ, ◌≤◌, ◌<◌, bit_and}
use asiaccs.Base.{◌≡◌, refl, sym, ap, ◌∙◌, ◌≢◌, ◌⊎◌, inl, inr, arith}
use asiaccs.Base.{Bool, true, false, ◌||◌, not}
use asiaccs.Base.{ltb, ◌==◌, ==_iff, ltb_iff, Bool-cases}
use mathlib.Core.Bool.{true≢false}
use asiaccs.Caravel.ConHash.{Bytes, Shared, Writer, Reader, System, reader_step, IsData}
use asiaccs.Caravel.ConHash.Writer.{outside, waiting, testing, copying, leaving}
use asiaccs.Caravel.ConHash.Reader.{away, loading, comparing, reading, got, missed}

-- Both parts of a false disjunction are false.
or_false : (x y : Bool) → (x || y) ≡ false → (x ≡ false) × (y ≡ false)
or_false false y e = (refl, e)
or_false true y e = absurd (true≢false e)

-- A reader stops at an even version that has not changed.
settled_version :
    (vs v : ℕ) → v ≤ 2 → 1 ≤ v → (bit_and vs 1 == 1 || not (vs == v)) ≡ false → (vs ≡ 2) × (v ≡ 2)
settled_version vs v top low e =
    let (even, kept) = or_false (bit_and vs 1 == 1) (not (vs == v)) e in
    let same : vs ≡ v = ground (arith, kept) in
    elim (Bool-cases (v == 1)) [
      | inl odd ↦
          let one : vs ≡ 1 = same ∙ (==_iff v 1).0 odd in
          absurd (true≢false (sym (ap (λ (n : ℕ). bit_and n 1 == 1) one) ∙ even))
      | inr other ↦ let two : v ≡ 2 = ground (arith, other, top, low) in (same ∙ two, two)
    ]

-- A writer that has the semaphore.
abbrev pub is_inside : Writer → Bool
is_inside outside = false
is_inside (waiting d) = false
is_inside (testing d) = true
is_inside (copying d k) = true
is_inside (leaving done) = true

module _ (size : ℕ) where
  -- The block between copies: untouched, or whole.
  abbrev pub Untouched : Shared → Type 0
  Untouched s = (s.version ≡ 0) × ((k : ℕ) → k < size → s.cells k ≡ 0)

  abbrev pub Whole : Shared → Type 0
  Whole s = (s.version ≡ 2) × (d : Bytes) × IsData size d × ((k : ℕ) → k < size → s.cells k ≡ d k)

  abbrev pub Settled : Shared → Type 0
  Settled s = Untouched s ⊎ Whole s

  -- The block in a copy: the first `k` bytes are there and the others are zero.
  pub record Half (d : Bytes) (k : ℕ) (s : Shared) : Type 0 where
    pub odd : s.version ≡ 1
    pub given : IsData size d
    pub inside : k ≤ size
    pub front : (j : ℕ) → j < k → s.cells j ≡ d j
    pub back : (j : ℕ) → k ≤ j → j < size → s.cells j ≡ 0

  -- The data of a writer that waits for the semaphore.
  abbrev pub Given : Writer → Type 0
  Given outside = Unit
  Given (waiting d) = IsData size d
  Given (testing d) = Unit
  Given (copying d k) = Unit
  Given (leaving done) = Unit

  -- What the place of the writer that may have the semaphore says of the block.
  abbrev pub Agrees : Writer → Shared → Type 0
  Agrees outside s = Settled s
  Agrees (waiting d) s = Settled s
  Agrees (testing d) s = Settled s × IsData size d
  Agrees (copying d k) s = Half d k s
  Agrees (leaving done) s = Settled s

  -- The semaphore is free and no writer is inside, or it is taken and one writer is.
  pub record Owned (s : Shared) (writers : ℕ → Writer) (t : ℕ) : Type 0 where
    pub taken : s.semaphore ≡ 0
    pub inside : is_inside (writers t) ≡ true
    pub others : (u : ℕ) → u ≢ t → is_inside (writers u) ≡ false
    pub agrees : Agrees (writers t) s

  pub record Free (s : Shared) (writers : ℕ → Writer) : Type 0 where
    pub one : s.semaphore ≡ 1
    pub nobody : (u : ℕ) → is_inside (writers u) ≡ false
    pub settled : Settled s

  abbrev pub WriterInv : Shared → (ℕ → Writer) → Type 0
  WriterInv s writers = Free s writers ⊎ ((t : ℕ) × Owned s writers t)

  -- What the place of a reader says: it has seen no later version, and what it has copied from a whole
  -- block is what stands there.
  abbrev pub ReaderInv : Reader → Shared → Type 0
  ReaderInv away s = Unit
  ReaderInv loading s = Unit
  ReaderInv (comparing vs k) s = vs ≤ s.version
  ReaderInv (reading vs buf k) s =
      (vs ≤ s.version)
      × (1 ≤ s.version)
      × (k ≤ size)
      × (vs ≡ 2 → (j : ℕ) → j < k → buf j ≡ s.cells j)
  ReaderInv (got buf) s = (s.version ≡ 2) × ((j : ℕ) → j < size → buf j ≡ s.cells j)
  ReaderInv missed s = Unit

  pub record Inv (s : System) : Type 0 where
    pub writers : WriterInv s.shared s.writers
    pub given : (t : ℕ) → Given (s.writers t)
    pub readers : (r : ℕ) → ReaderInv (s.readers r) s.shared

  -- What is known of the version in any state.
  pub record Bounded (s : Shared) : Type 0 where
    pub top : s.version ≤ 2
    pub zero_empty : s.version ≡ 0 → (k : ℕ) → k < size → s.cells k ≡ 0

  pub Settled-Bounded : (s : Shared) → Settled s → Bounded s
  Settled-Bounded s (inl u) = record { top = omega (arith, u.0); zero_empty = λ e. u.1 }
  Settled-Bounded s (inr w) = record {
    top = omega (arith, w.0);
    zero_empty = λ e k h. absurd (omega (arith, e, w.0));
  }

  pub Agrees-Bounded : (w : Writer) (s : Shared) → Agrees w s → Bounded s
  Agrees-Bounded outside s a = Settled-Bounded s a
  Agrees-Bounded (waiting d) s a = Settled-Bounded s a
  Agrees-Bounded (testing d) s a = Settled-Bounded s a.0
  Agrees-Bounded (copying d k) s a = record {
    top = omega (arith, a.odd);
    zero_empty = λ e k h. absurd (omega (arith, e, a.odd));
  }
  Agrees-Bounded (leaving done) s a = Settled-Bounded s a

  pub WriterInv-Bounded : (s : Shared) (ws : ℕ → Writer) → WriterInv s ws → Bounded s
  WriterInv-Bounded s ws (inl f) = Settled-Bounded s f.settled
  WriterInv-Bounded s ws (inr (t, o)) = Agrees-Bounded (ws t) s o.agrees

  -- A change of the block that readers survive: the version does not go down, and a whole block stays.
  pub record Later (s s' : Shared) : Type 0 where
    pub up : s.version ≤ s'.version
    pub top : s'.version ≤ 2
    pub same : s.version ≡ 2 → (j : ℕ) → j < size → s'.cells j ≡ s.cells j

  pub ReaderInv-Later : (r : Reader) (s s' : Shared) → Later s s' → ReaderInv r s → ReaderInv r s'
  ReaderInv-Later away s s' l i = tt
  ReaderInv-Later loading s s' l i = tt
  ReaderInv-Later (comparing vs k) s s' l i = omega (arith, i, l.up)
  ReaderInv-Later (reading vs buf k) s s' l i = (
    omega (arith, i.0, l.up),
    omega (arith, i.1, l.up),
    i.2,
    λ e j h.
        i.3 e j h ∙ sym (l.same (omega (arith, e, i.0, l.up, l.top)) j (omega (arith, h, i.2))),
  )
  ReaderInv-Later (got buf) s s' l i =
      (omega (arith, i.0, l.up, l.top), λ j h. i.1 j h ∙ sym (l.same i.0 j h))
  ReaderInv-Later missed s s' l i = tt

  -- A look keeps what is known of the reader.
  pub reader_step-ReaderInv :
      (s : Shared) (r : Reader) → Bounded s → ReaderInv r s → ReaderInv (reader_step size s r) s
  unfolding reader_step
  reader_step-ReaderInv s away b i = tt
  reader_step-ReaderInv s loading b i = omega arith
  reader_step-ReaderInv s (comparing vs k) b i = elim (Bool-cases (ltb k size)) [
    | inl more ↦ elim (Bool-cases (s.cells k == 0)) [
      | inl e ↦ rw (more, e) i
      | inr e ↦
          let seen : s.version ≢ 0 =
            λ z. ground (arith, e, b.zero_empty z k ((ltb_iff k size).0 more)) in
          rw (more, e) (i, omega (arith, seen), omega arith, λ f j h. absurd (omega (arith, h)))
    ]
    | inr end ↦ rw end tt
  ]
  reader_step-ReaderInv s (reading vs buf k) b i = elim (Bool-cases (ltb k size)) [
    | inl more ↦
        let inside : k < size = (ltb_iff k size).0 more in
        rw more (
          i.0,
          i.1,
          omega (arith, inside),
          λ e j h. elim (Bool-cases (j == k)) [
            | inl same ↦ rw same (ap s.cells (sym ((==_iff j k).0 same)))
            | inr other ↦ rw other (i.3 e j (ground (arith, other, h)))
          ],
        )
    | inr end ↦ elim (Bool-cases (bit_and vs 1 == 1 || not (vs == s.version))) [
      | inl again ↦ rw (end, again) tt
      | inr stop ↦
          let (two, whole) = settled_version vs s.version b.top i.1 stop in
          let last : size ≤ k = ground (arith, end) in
          rw (end, stop) (whole, λ j h. i.3 two j (omega (arith, h, last)))
    ]
  ]
  reader_step-ReaderInv s (got buf) b i = i
  reader_step-ReaderInv s missed b i = tt
