-- ===== src/Base/Occurs.antt =====
-- How often numbers occur in a list, and lists that differ in order only.
use Prim.Native.Nat.{ℕ, zero, suc, ◌+◌, ◌<◌}
use mathlib.Core.Path.{◌≡◌, refl, subst}
use mathlib.Core.Logic.{inl, inr}
use mathlib.Core.List.{List, [], ◌∷◌, ◌++◌}
use mathlib.Core.List.{Perm}
use mathlib.Core.List.Perm
use native.Mathlib.Omega.{arith}
use asiaccs.Base.Num.{ltb, ◌==◌, if◌then◌else◌, ==_iff, Bool-cases}
use asiaccs.Base.Lists.{length, tabulate}

-- How often a number is in a list, and the list without one of them.
unfoldable pub occurs : ℕ → List ℕ → ℕ
occurs k [] = 0
occurs k (x ∷ xs) = let rest = occurs k xs in if x == k then suc rest else rest

pub remove : ℕ → List ℕ → List ℕ
remove k [] = []
remove k (x ∷ xs) = let rest = remove k xs in if x == k then xs else x ∷ rest

pub occurs-append : (k : ℕ) (xs ys : List ℕ) → occurs k (xs ++ ys) ≡ occurs k xs + occurs k ys
unfolding occurs
occurs-append k [] ys = omega arith
occurs-append k (x ∷ xs) ys = ground (arith, occurs-append k xs ys)

pub occurs-remove :
    (k j : ℕ) (xs : List ℕ)
    → 0 < occurs k xs
    → occurs j xs ≡ (if k == j then 1 else 0) + occurs j (remove k xs)
unfolding occurs remove
occurs-remove k j [] h = absurd (omega (arith, h))
occurs-remove k j (x ∷ xs) h = ground (arith, occurs-remove k j xs)

pub length-remove : (k : ℕ) (xs : List ℕ) → 0 < occurs k xs → length xs ≡ suc (length (remove k xs))
unfolding occurs remove
length-remove k [] h = absurd (omega (arith, h))
length-remove k (x ∷ xs) h = ground (arith, length-remove k xs)

pub occurs-tabulate :
    (k n start : ℕ)
    → occurs k (tabulate n start (λ i. i))
      ≡ (if ltb k start then 0 else if ltb k (start + n) then 1 else 0)
unfolding occurs
occurs-tabulate k zero start = ground arith
occurs-tabulate k (suc n) start = ground (arith, occurs-tabulate k n (suc start))

-- Lists with the same numbers as often are permutations of one another.
remove-perm : (k : ℕ) (xs : List ℕ) → 0 < occurs k xs → Perm xs (k ∷ remove k xs)
unfolding occurs remove
remove-perm k [] h = absurd (omega (arith, h))
remove-perm k (x ∷ xs) h = elim (Bool-cases (x == k)) [
  | inl e ↦ rw (e, (==_iff x k).0 e) (Perm.refl _)
  | inr e ↦
      rw e (Perm.trans (Perm.cons x (remove-perm k xs (rw e at h))) (Perm.swap k x (remove k xs)))
]

pub occurs-cons_self : (x : ℕ) (xs : List ℕ) → 0 < occurs x (x ∷ xs)
unfolding occurs
occurs-cons_self x xs = ground (arith, ==_iff x x)

pub perm_of_occurs : (xs ys : List ℕ) → ((k : ℕ) → occurs k xs ≡ occurs k ys) → Perm xs ys
unfolding occurs
perm_of_occurs [] [] h = Perm.refl []
perm_of_occurs [] (y ∷ ys) h = absurd (omega (arith, h y, occurs-cons_self y ys))
perm_of_occurs (x ∷ xs) ys h =
    let there : 0 < occurs x ys = subst (λ n. 0 < n) (h x) (occurs-cons_self x xs) in
    Perm.trans
      (Perm.cons x
        (perm_of_occurs xs (remove x ys) (λ k. ground (arith, h k, occurs-remove x k ys there))))
      (Perm.symm (remove-perm x ys there))

-- A sum over a list does not depend on its order.
unfoldable pub sum_over : (ℕ → ℕ) → List ℕ → ℕ
sum_over f [] = 0
sum_over f (x ∷ xs) = f x + sum_over f xs

sum_over-remove :
    (f : ℕ → ℕ) (k : ℕ) (xs : List ℕ)
    → 0 < occurs k xs
    → sum_over f xs ≡ f k + sum_over f (remove k xs)
unfolding sum_over occurs remove
sum_over-remove f k [] h = absurd (omega (arith, h))
sum_over-remove f k (x ∷ xs) h = elim (Bool-cases (x == k)) [
  | inl e ↦ rw (e, (==_iff x k).0 e) refl
  | inr e ↦ rw e (omega (arith, sum_over-remove f k xs (rw e at h)))
]

pub sum_over-congr :
    (f : ℕ → ℕ) (xs ys : List ℕ)
    → ((k : ℕ) → occurs k xs ≡ occurs k ys)
    → sum_over f xs ≡ sum_over f ys
unfolding occurs sum_over
sum_over-congr f [] [] h = refl
sum_over-congr f [] (y ∷ ys) h = absurd (omega (arith, h y, occurs-cons_self y ys))
sum_over-congr f (x ∷ xs) ys h =
    let there : 0 < occurs x ys = subst (λ n. 0 < n) (h x) (occurs-cons_self x xs) in
    let rest =
      sum_over-congr f xs (remove x ys) (λ k. ground (arith, h k, occurs-remove x k ys there)) in
    omega (arith, rest, sum_over-remove f x ys there)
