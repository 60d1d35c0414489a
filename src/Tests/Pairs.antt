-- ===== src/Tests/Pairs.antt =====
-- Two places and two labels that a computation tells apart.
use asiaccs.Base.{all_below-elim}
use asiaccs.Base.{ℕ, ◌<◌}
use asiaccs.Base.{◌≡◌, refl, sym, ap, ap₂, ◌∙◌, ◌≢◌, arith}
use asiaccs.Base.{Bool, true, false, ◌&&◌, not}
use asiaccs.Base.{ltb, if◌then◌else◌, ltb_iff}
use asiaccs.Base.{all_below}
use mathlib.Core.Bool.{true≢false}
use asiaccs.Proxy.Services.{Bytes, Backend, equal_bytes}
use asiaccs.Proxy.Search.{equal_bytes_refl}
use asiaccs.Client.Log.{Apart}

-- For all pairs of numbers to 2: places differ, and no label of the two rows is a place or the
-- label of another row.
abbrev pub pair_test : (here name : ℕ → Bytes) → ℕ → ℕ → Bool
pair_test here name i j =
    let places = if ltb i j then not (equal_bytes (here i) (here j)) else true in
    let apart = if ltb i 2 then not (equal_bytes (name i) (here j)) else true in
    let labels = if ltb i j && ltb j 2 then not (equal_bytes (name i) (name j)) else true in
    (places && apart) && labels

-- What a passed test says.
pub differ : (s t : Bytes) → not (equal_bytes s t) ≡ true → s ≢ t
differ s t e same =
    true≢false (sym e ∙ ap (λ x. not x) (ap (λ u. equal_bytes s u) (sym same) ∙ equal_bytes_refl s))

both : (x y : Bool) → (x && y) ≡ true → (x ≡ true) × (y ≡ true)
both true true e = (refl, refl)
both true false e = absurd (true≢false (sym e))
both false y e = absurd (true≢false (sym e))

under : (c x : Bool) → (if c then x else true) ≡ true → (c ≡ true) → x ≡ true
under true x e h = e
under false x e h = absurd (true≢false (sym h))

all_three :
    (c d f x y z : Bool)
    → (((if c then x else true) && (if d then y else true)) && (if f then z else true)) ≡ true
    → ((c ≡ true) → x ≡ true) × ((d ≡ true) → y ≡ true) × ((f ≡ true) → z ≡ true)
all_three c d f x y z e =
    let (front, last) = both _ _ e in
    let (first, second) = both _ _ front in (under c x first, under d y second, under f z last)

-- Passed tests of all pairs.
pub two-Apart :
    ⦃b : Backend⦄ (here name cipher : ℕ → Bytes)
    → all_below 3 (λ i. all_below 3 (λ j. pair_test here name i j)) ≡ true
    → Apart here name cipher 2
two-Apart here name cipher tests = record {
  few = omega arith;
  places = λ i j h k.
      differ (here i) (here j)
        ((passed i j (omega (arith, h, k)) (omega (arith, k))).0 ((ltb_iff i j).1 h));
  apart = λ i j h k.
      differ (name i) (here j)
        ((passed i j (omega (arith, h)) (omega (arith, k))).1 ((ltb_iff i 2).1 h));
  labels = λ i j h k. differ (name i) (name j) (
      (passed i j (omega (arith, h, k)) (omega (arith, k))).2
        (ap₂ ◌&&◌ ((ltb_iff i j).1 h) ((ltb_iff j 2).1 k)));
}
  where
    passed :
        (i j : ℕ)
        → i < 3
        → j < 3
        → ((ltb i j ≡ true) → not (equal_bytes (here i) (here j)) ≡ true)
          × ((ltb i 2 ≡ true) → not (equal_bytes (name i) (here j)) ≡ true)
          × (((ltb i j && ltb j 2) ≡ true) → not (equal_bytes (name i) (name j)) ≡ true)
    passed i j h k = all_three (ltb i j) (ltb i 2) (ltb i j && ltb j 2) _ _ _ (
        all_below-elim 3 (λ j. pair_test here name i j)
          (all_below-elim 3 (λ i. all_below 3 (λ j. pair_test here name i j)) tests i h) j k)
