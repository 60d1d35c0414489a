-- ===== src/Base/Int.antt =====
-- Signed integers over the native numbers, and the decimal text of an `int`.
use Prim.Native.Nat.{ℕ, suc, ◌+◌, ◌-◌, ◌^◌}
use mathlib.Core.Bool.{Bool, false}
use mathlib.Core.Option.{Option, none, some}
use mathlib.Core.List.{List, ◌∷◌}
use asiaccs.Base.Num.{ltb, leb, if◌then◌else◌}
use asiaccs.Base.Decimal.{
  to_string, scan_number, scan_number-to_string, scan_number-minus_to_string,
}
use mathlib.Core.Path.{◌≡◌, refl}
use native.Mathlib.Omega.{arith}

-- `negsuc n` is -(n + 1).
pub data ℤ : Type 0 where
  pos : ℕ → ℤ
  negsuc : ℕ → ℤ

abbrev pub pos_part : ℤ → ℕ
pos_part (pos n) = n
pos_part (negsuc n) = 0

abbrev pub neg_part : ℤ → ℕ
neg_part (pos n) = 0
neg_part (negsuc n) = suc n

abbrev pub ltb_ℤ : ℤ → ℤ → Bool
ltb_ℤ a b = ltb (pos_part a + neg_part b) (pos_part b + neg_part a)

-- A number with the sign in front of it.
abbrev pub with_sign : Bool → ℕ → ℤ
with_sign negative n = if negative then (if leb n 0 then pos 0 else negsuc (n - 1)) else pos n

-- The range of a 32-bit `int`.
abbrev pub is_int : ℤ → Bool
is_int (pos n) = ltb n (2 ^ 31)
is_int (negsuc n) = ltb n (2 ^ 31)

-- `to_string`
unfoldable pub int_to_string : ℤ → List ℕ
unfolding to_string
int_to_string (pos n) = to_string n
int_to_string (negsuc n) = b'-' ∷ to_string (suc n)

-- The number at the front of a text.
unfoldable pub scan_int : List ℕ → Option ℤ
unfolding scan_number
scan_int s = elim (scan_number s) [ none ↦ none | some (negative, n) ↦ some (with_sign negative n) ]

-- An integer that was written is read back.
pub scan_int-int_to_string : (n : ℤ) → scan_int (int_to_string n) ≡ some n
unfolding scan_int int_to_string
scan_int-int_to_string (pos n) = rw (scan_number-to_string n, scan_int) refl
scan_int-int_to_string (negsuc n) =
    let same : suc n - 1 ≡ n = omega arith in
    let positive : leb (suc n) 0 ≡ false = ground arith in
    rw (scan_number-minus_to_string (suc n), scan_int, positive, same) refl
