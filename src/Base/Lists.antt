-- ===== src/Base/Lists.antt =====
-- Lists measured and indexed by native numbers, under the library's names.
use Prim.Native.Nat.{ℕ, zero, suc, ◌+◌, ◌<◌, ◌≤◌}
use mathlib.Core.Path.{◌≡◌, refl, ap, ap₂, ◌∙◌}
use mathlib.Core.List.{List, [], ◌∷◌, ◌++◌, map}
use mathlib.Core.Option.{Option, none, some}
use native.Mathlib.Omega.{arith}

module _ {ℓ} {A : Type ℓ} where
  abbrev pub length : List A → ℕ
  length [] = 0
  length (x ∷ xs) = suc (length xs)

  abbrev pub get_or : List A → ℕ → A → A
  get_or [] i d = d
  get_or (x ∷ xs) zero d = x
  get_or (x ∷ xs) (suc i) d = get_or xs i d

  abbrev pub get_elem? : List A → ℕ → Option A
  get_elem? [] i = none
  get_elem? (x ∷ xs) zero = some x
  get_elem? (x ∷ xs) (suc i) = get_elem? xs i

  abbrev pub set : List A → ℕ → A → List A
  set [] i v = []
  set (x ∷ xs) zero v = v ∷ xs
  set (x ∷ xs) (suc i) v = x ∷ set xs i v

  pub length-append : (xs ys : List A) → length (xs ++ ys) ≡ length xs + length ys
  length-append [] ys = omega arith
  length-append (x ∷ xs) ys = omega (arith, length-append xs ys)

  -- `f start, f (start + 1), …`, the array that a loop over `n` indices fills.
  abbrev pub tabulate : ℕ → ℕ → (ℕ → A) → List A
  tabulate zero start f = []
  tabulate (suc n) start f = f start ∷ tabulate n (suc start) f

  pub length-tabulate : (n start : ℕ) (f : ℕ → A) → length (tabulate n start f) ≡ n
  length-tabulate zero start f = refl
  length-tabulate (suc n) start f = ap suc (length-tabulate n (suc start) f)

  pub get_or-tabulate :
      (n start i : ℕ) (f : ℕ → A) (d : A) → i < n → get_or (tabulate n start f) i d ≡ f (start + i)
  get_or-tabulate zero start i f d h = absurd (omega arith)
  get_or-tabulate (suc n) start zero f d h = ap f (omega arith)
  get_or-tabulate (suc n) start (suc i) f d h =
      get_or-tabulate n (suc start) i f d (omega arith) ∙ ap f (omega arith)

module _ {ℓ} {A : Type ℓ} where
  pub get_or-tabulate_zero :
      (n i : ℕ) (f : ℕ → A) (d : A) → i < n → get_or (tabulate n 0 f) i d ≡ f i
  get_or-tabulate_zero n i f d h = get_or-tabulate n 0 i f d h ∙ ap f (omega arith)

module _ {ℓ κ} {A : Type ℓ} {B : Type κ} where
  pub length-map : (xs : List A) (f : A → B) → length (map f xs) ≡ length xs
  length-map [] f = refl
  length-map (x ∷ xs) f = ap suc (length-map xs f)

  pub get_or-map :
      (xs : List A) (f : A → B) (i : ℕ) (d : A) (e : B)
      → i < length xs
      → get_or (map f xs) i e ≡ f (get_or xs i d)
  get_or-map [] f i d e h = absurd (omega arith)
  get_or-map (x ∷ xs) f zero d e h = refl
  get_or-map (x ∷ xs) f (suc i) d e h = get_or-map xs f i d e (omega arith)

  pub map-tabulate :
      (n start : ℕ) (g : ℕ → A) (f : A → B)
      → map f (tabulate n start g) ≡ tabulate n start (λ i. f (g i))
  map-tabulate zero start g f = refl
  map-tabulate (suc n) start g f = ap (◌∷◌ (f (g start))) (map-tabulate n (suc start) g f)

-- Lists of the same entries are equal.
pub tabulate_congr {ℓ} :
    {A : Type ℓ} (n start : ℕ) (f g : ℕ → A)
    → ((i : ℕ) → start ≤ i → i < start + n → f i ≡ g i)
    → tabulate n start f ≡ tabulate n start g
tabulate_congr zero start f g h = refl
tabulate_congr (suc n) start f g h =
    ap₂ ◌∷◌ (h start (omega arith) (omega arith))
      (tabulate_congr n (suc start) f g (λ i p q. h i (omega arith) (omega arith)))
