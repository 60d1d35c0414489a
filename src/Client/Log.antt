-- ===== src/Client/Log.antt =====
-- What `Put` leaves in a store when each row writes one entry at the next place of an index and its data
-- at its label: the invariant of every index with a counter.
use asiaccs.Base.{Outcome, ok, ◌>>=◌, zero}
use asiaccs.Base.{ℕ, suc, ◌+◌, ◌^◌, ◌≤◌, ◌<◌}
use asiaccs.Base.{◌≡◌, refl, sym, ap, ◌∙◌, subst, ◌≢◌, inl, inr, arith}
use asiaccs.Base.{true, []}
use asiaccs.Base.{ltb, ◌==◌, ==_iff, ltb_iff, Bool-cases}
use asiaccs.Base.{u32}
use asiaccs.Proxy.Services.{Bytes, Backend}
use asiaccs.Proxy.Search.{equal_bytes_refl}
use asiaccs.Client.{Counters, bump}

-- A row: its key and its value.
pub record Row : Type 0 where
  pub key : Bytes
  pub val : Bytes

pub bump_same :
    (m : Counters) (id : ℕ) (label : Bytes) → bump m id label id label ≡ u32 (m id label + 1)
unfolding bump
bump_same m id label =
    let same : (id == id) ≡ true = ground arith in rw (same, equal_bytes_refl label) refl

-- The counter after the row that it counts.
pub bump_next :
    (m : Counters) (id k : ℕ) (label : Bytes)
    → m id label ≡ k
    → k + 1 < 2 ^ 32
    → bump m id label id label ≡ suc k
bump_next m id k label e small =
    bump_same m id label ∙ ap (λ (t : ℕ). u32 (t + 1)) e ∙ omega (arith, small)

-- A step for each row in turn, from row `m` on.
module _ {S : Type 0} (step : ℕ → S → Outcome S) where
  pub repeat : (left : ℕ) → ℕ → S → Outcome S
  repeat zero m s = ok s
  repeat (suc left) m s = step m s >>= repeat left (suc m)

  -- Steps that succeed and keep an invariant take it from the first row to the last one.
  pub repeat-keeps :
      (Inv : ℕ → S → Type 0) (n left m : ℕ) (s : S)
      → ((i : ℕ) (r : S) → i < n → Inv i r → (next : S) × (step i r ≡ ok next) × Inv (suc i) next)
      → m + left ≡ n
      → Inv m s
      → (done : S) × (repeat left m s ≡ ok done) × Inv n done
  unfolding repeat
  repeat-keeps Inv n zero m s keeps e inv = (s, refl, subst (λ k. Inv k s) (omega (arith, e)) inv)
  repeat-keeps Inv n (suc left) m s keeps e inv =
      let (next, runs, more) = keeps m s (omega (arith, e)) inv in
      let (done, rest, all) = repeat-keeps Inv n left (suc m) next keeps (omega (arith, e)) more in
      (done, ap (λ o. o >>= repeat left (suc m)) runs ∙ rest, all)

module _ ⦃b : Backend⦄ (place label cipher : ℕ → Bytes) where
  -- The places of `n` rows, the one after them, and the labels do not collide.
  pub record Apart (n : ℕ) : Type 0 where
    pub few : n < 2 ^ 32
    pub places : (i j : ℕ) → i < j → j ≤ n → place i ≢ place j
    pub apart : (i j : ℕ) → i < n → j ≤ n → label i ≢ place j
    pub labels : (i j : ℕ) → i < j → j < n → label i ≢ label j

  -- The first `m` of `n` rows are in the store, with entries that fit, and the next places are free.
  pub record Stored (Fits : ℕ → Bytes → Type 0) (n m : ℕ) (s : b.Store) : Type 0 where
    pub entry : (i : ℕ) → i < m → (e : Bytes) × (b.pool_get s (place i) ≡ e) × Fits i e
    pub stored : (i : ℕ) → i < m → b.pool_get s (label i) ≡ cipher i
    pub free : (j : ℕ) → m ≤ j → j ≤ n → b.pool_get s (place j) ≡ []

  -- The store after a row.
  abbrev pub put_row : b.Store → ℕ → Bytes → b.Store
  put_row s m e = b.pool_put (b.pool_put s (place m) e) (label m) (cipher m)

  pub put_row-Stored :
      (Fits : ℕ → Bytes → Type 0) (n m : ℕ) (s : b.Store) (e : Bytes)
      → Apart n
      → m < n
      → Fits m e
      → Stored Fits n m s
      → Stored Fits n (suc m) (put_row s m e)
  put_row-Stored Fits n m s e clash h fit w =
      let s1 = b.pool_put s (place m) e in
      let other_place : (i : ℕ) → i ≤ n → i ≢ m → place m ≢ place i = λ i le apart.
        elim (Bool-cases (ltb i m)) [
          | inl less ↦ λ e. clash.places i m ((ltb_iff i m).0 less) (omega (arith, h)) (sym e)
          | inr more ↦ clash.places m i (ground (arith, more, apart)) le
        ] in
      record {
        entry = λ i less. elim (Bool-cases (i == m)) [
          | inl same ↦
              subst (λ k. (f : Bytes) × (b.pool_get (put_row s m e) (place k) ≡ f) × Fits k f)
                (sym ((==_iff i m).0 same))
                (
                  e,
                  b.get_put_other s1 (label m) (place m) (cipher m)
                        (clash.apart m m h (omega (arith, h)))
                      ∙ b.get_put s (place m) e,
                  fit,
                )
          | inr other ↦
              let below : i < m = ground (arith, other, less) in
              let (f, found, fits) = w.entry i below in
              (
                f,
                b.get_put_other s1 (label m) (place i) (cipher m)
                      (clash.apart m i h (omega (arith, below, h)))
                    ∙ b.get_put_other s (place m) (place i) e
                        (other_place i (omega (arith, below, h)) (omega (arith, below)))
                    ∙ found,
                fits,
              )
        ];
        stored = λ i less. elim (Bool-cases (i == m)) [
          | inl same ↦
              subst (λ k. b.pool_get (put_row s m e) (label k) ≡ cipher k)
                (sym ((==_iff i m).0 same)) (b.get_put s1 (label m) (cipher m))
          | inr other ↦
              let below : i < m = ground (arith, other, less) in
              b.get_put_other s1 (label m) (label i) (cipher m)
                (λ same. clash.labels i m below h (sym same))
              ∙ b.get_put_other s (place m) (label i) e
                  (λ same. clash.apart i m (omega (arith, below, h)) (omega (arith, h)) (sym same))
              ∙ w.stored i below
        ];
        free = λ j le top.
            b.get_put_other s1 (label m) (place j) (cipher m) (clash.apart m j h top)
            ∙ b.get_put_other s (place m) (place j) e (other_place j top (omega (arith, le)))
            ∙ w.free j (omega (arith, le)) top;
      }
