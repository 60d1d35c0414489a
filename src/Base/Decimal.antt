-- ===== src/Base/Decimal.antt =====
-- Numbers in decimal, as `to_string` of C++ writes them and `sscanf` and `stoi` read them.
use Prim.Native.Nat.{ℕ, zero, suc, ◌+◌, ◌-◌, ◌*◌, ◌/◌, ◌%◌, ◌<◌}
use mathlib.Core.Path.{◌≡◌, refl, sym, ap, ◌∙◌}
use mathlib.Core.Logic.{inl, inr}
use mathlib.Core.Bool.{Bool, true, false, ◌&&◌, ◌||◌}
use mathlib.Core.Option.{Option, none, some}
use mathlib.Core.List.{List, [], ◌∷◌, ◌++◌, append_assoc, append-nil}
use native.Mathlib.Omega.{arith}
use asiaccs.Base.Num.{ltb, leb, ◌==◌, if◌then◌else◌, Bool-cases}
use asiaccs.Base.Lists.{length, length-append}

-- `isdigit` and `isspace`
abbrev pub is_digit : ℕ → Bool
is_digit c = leb b'0' c && leb c b'9'

abbrev pub is_space : ℕ → Bool
is_space c = c == 32 || leb 9 c && leb c 13

-- `to_string` of an unsigned number; there are at most `fuel` digits.
unfoldable pub digits_of : (fuel : ℕ) → ℕ → List ℕ
digits_of zero n = []
digits_of (suc fuel) n =
    let front = digits_of fuel (n / 10) in
    if ltb n 10 then (b'0' + n) ∷ [] else front ++ ((b'0' + n % 10) ∷ [])

unfoldable pub to_string : ℕ → List ℕ
unfolding digits_of
to_string n = digits_of (suc n) n

-- The digits at the front of a text, after a number that is read already.
unfoldable pub scan_digits : List ℕ → ℕ → ℕ
scan_digits [] n = n
scan_digits (c ∷ s) n =
    let rest = scan_digits s (n * 10 + (c - b'0')) in if is_digit c then rest else n

unfoldable pub skip_space : List ℕ → List ℕ
skip_space [] = []
skip_space (c ∷ s) = let rest = skip_space s in if is_space c then rest else c ∷ s

-- What `%d` and `%u` read: white space, a sign, and one digit at least. The sign, and the number.
unfoldable pub scan_unsigned : List ℕ → Option ℕ
unfolding scan_digits
scan_unsigned [] = none
scan_unsigned (c ∷ s) = if is_digit c then some (scan_digits (c ∷ s) 0) else none

unfoldable pub scan_signed : List ℕ → Option (Bool × ℕ)
unfolding scan_unsigned
scan_signed [] = none
scan_signed (c ∷ s) =
    let negated = elim (scan_unsigned s) as (λ _. Option (Bool × ℕ)) [
      | none ↦ none
      | some n ↦ some (true, n)
    ] in
    let signed = elim (scan_unsigned s) as (λ _. Option (Bool × ℕ)) [
      | none ↦ none
      | some n ↦ some (false, n)
    ] in
    let plain = elim (scan_unsigned (c ∷ s)) as (λ _. Option (Bool × ℕ)) [
      | none ↦ none
      | some n ↦ some (false, n)
    ] in
    if c == b'-' then negated else if c == b'+' then signed else plain

unfoldable pub scan_number : List ℕ → Option (Bool × ℕ)
unfolding skip_space scan_signed
scan_number s = scan_signed (skip_space s)

-- A text of digits, followed by `rest`, that stands for `n`.
abbrev pub AllDigits : List ℕ → Type 0
AllDigits [] = Unit {0}
AllDigits (c ∷ s) = (is_digit c ≡ true) × AllDigits s

AllDigits-append : (s t : List ℕ) → AllDigits s → AllDigits t → AllDigits (s ++ t)
AllDigits-append [] t h k = k
AllDigits-append (c ∷ s) t (h, hs) k = (h, AllDigits-append s t hs k)

pub digits_of-AllDigits : (fuel n : ℕ) → AllDigits (digits_of fuel n)
unfolding digits_of
digits_of-AllDigits zero n = tt
digits_of-AllDigits (suc fuel) n = elim (Bool-cases (ltb n 10)) [
  | inl e ↦ rw e (ground (arith, e), tt)
  | inr e ↦ rw e (
      AllDigits-append (digits_of fuel (n / 10)) ((b'0' + n % 10) ∷ [])
        (digits_of-AllDigits fuel (n / 10)) (ground arith, tt))
]

scan_digits-digits_of :
    (fuel n : ℕ) (rest : List ℕ)
    → n < fuel
    → scan_digits (digits_of fuel n ++ rest) 0 ≡ scan_digits rest n
unfolding digits_of scan_digits
scan_digits-digits_of zero n rest h = absurd (omega (arith, h))
scan_digits-digits_of (suc fuel) n rest h = elim (Bool-cases (ltb n 10)) [
  | inl e ↦
      let digit : is_digit (b'0' + n) ≡ true = ground (arith, e) in
      let value : 0 * 10 + (b'0' + n - b'0') ≡ n = omega arith in rw (e, digit, value) refl
  | inr e ↦
      let digit : is_digit (b'0' + n % 10) ≡ true = ground arith in
      let value : n / 10 * 10 + (b'0' + n % 10 - b'0') ≡ n = omega arith in
      let shorter : n / 10 < fuel = ground (arith, e, h) in
      rw (e, append_assoc (digits_of fuel (n / 10)) ((b'0' + n % 10) ∷ []) rest)
        (scan_digits-digits_of fuel (n / 10) ((b'0' + n % 10) ∷ rest) shorter
          ∙ rw (digit, value) refl)
]

scan_unsigned-AllDigits :
    (s : List ℕ) → AllDigits s → 0 < length s → scan_unsigned s ≡ some (scan_digits s 0)
unfolding scan_unsigned
scan_unsigned-AllDigits [] h long = absurd (omega (arith, long))
scan_unsigned-AllDigits (c ∷ s) (digit, h) long = rw digit refl

scan_number-AllDigits :
    (s : List ℕ) → AllDigits s → 0 < length s → scan_number s ≡ some (false, scan_digits s 0)
unfolding scan_number skip_space scan_signed scan_unsigned
scan_number-AllDigits [] h long = absurd (omega (arith, long))
scan_number-AllDigits (c ∷ s) (digit, h) long =
    let solid : is_space c ≡ false = ground (arith, digit) in
    let unsigned : (c == b'-') ≡ false = ground (arith, digit) in
    let no_plus : (c == b'+') ≡ false = ground (arith, digit) in
    rw (solid, unsigned, no_plus, digit) refl

scan_number-minus :
    (s : List ℕ)
    → AllDigits s
    → 0 < length s
    → scan_number (b'-' ∷ s) ≡ some (true, scan_digits s 0)
unfolding scan_number skip_space scan_signed
scan_number-minus s h long = rw (scan_unsigned-AllDigits s h long) refl

pub to_string-ne-nil : (n : ℕ) → 0 < length (to_string n)
unfolding to_string digits_of
to_string-ne-nil n = elim (Bool-cases (ltb n 10)) [
  | inl e ↦ rw e (omega arith)
  | inr e ↦ rw e (omega (arith, length-append (digits_of n (n / 10)) ((b'0' + n % 10) ∷ [])))
]

pub to_string-AllDigits : (n : ℕ) → AllDigits (to_string n)
unfolding to_string
to_string-AllDigits n = digits_of-AllDigits (suc n) n

pub scan_digits-to_string : (n : ℕ) → scan_digits (to_string n) 0 ≡ n
unfolding to_string scan_digits
scan_digits-to_string n =
    ap (λ s. scan_digits s 0) (sym (append-nil (to_string n)))
    ∙ scan_digits-digits_of (suc n) n [] (omega arith)

-- A number that was written is read back.
pub scan_number-to_string : (n : ℕ) → scan_number (to_string n) ≡ some (false, n)
scan_number-to_string n =
    scan_number-AllDigits (to_string n) (to_string-AllDigits n) (to_string-ne-nil n)
    ∙ ap (λ k. some (false, k)) (scan_digits-to_string n)

pub scan_number-minus_to_string : (n : ℕ) → scan_number (b'-' ∷ to_string n) ≡ some (true, n)
scan_number-minus_to_string n =
    scan_number-minus (to_string n) (to_string-AllDigits n) (to_string-ne-nil n)
    ∙ ap (λ k. some (true, k)) (scan_digits-to_string n)
