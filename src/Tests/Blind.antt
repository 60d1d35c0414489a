-- ===== src/Tests/Blind.antt =====
-- A blind signature with the modulus 15.
use native.Mathlib.Nat.{mod-mod}
use asiaccs.Base.{ℕ, ◌+◌, ◌-◌, ◌*◌, ◌/◌, ◌%◌, ◌^◌, ◌<◌, ◌≡◌, refl, sym, ◌∙◌, arith}
use asiaccs.Base.{true, false, [], ◌∷◌, ltb, ◌==◌, if◌then◌else◌, tabulate, length, length-tabulate}
use asiaccs.Base.{all_below, all_below-elim, ok}
use asiaccs.Base.Decimal.{to_string, scan_digits, scan_digits-to_string, to_string-AllDigits}
use asiaccs.Proxy.Services.{Bytes}
use asiaccs.Caravel.Redis.Moved.{AllDigits-Lacks}
use asiaccs.Caravel.Digest.Text.{HasWidth-all}
use asiaccs.Caravel.BlindSign.{
  Gmp, RsaBlindSign, digests, blind_hash, sig_gen, remove_blinding, check_sign,
}
use asiaccs.Caravel.BlindSign.Modular.{mod-pow}
use asiaccs.Caravel.BlindSign.Accepts.{IsGmp, check_sign-remove_blinding}
use asiaccs.Tests.Digest.{hex_digit, hex}

abbrev hex_value : Bytes → ℕ → ℕ
hex_value [] n = n
hex_value (c ∷ s) n = hex_value s (n * 16 + (if ltb c 58 then c - 48 else c - 87))

abbrev small_numbers : Gmp
small_numbers = record {
  set_str = λ b t. if b == 10 then scan_digits t 0 else hex_value t 0;
  get_str = λ b x. to_string x;
  size_in_base = λ x b. length (to_string x);
  mul = λ a b. a * b;
  modulo = λ a n. a % n;
  powm = λ a k n. a ^ k % n;
  invert = λ a n. a ^ 3 % n;
  urandomm = λ n. 7;
  fresh = λ k. tabulate k 0 (λ i. 205);
}

small_numbers-IsGmp : IsGmp small_numbers
small_numbers-IsGmp = record {
  mul_is = λ a b. refl;
  modulo_is = λ a n. refl;
  powm_is = λ a k n. refl;
  reads = scan_digits-to_string;
  no_nul = λ x. AllDigits-Lacks 0 (to_string x) refl (to_string-AllDigits x);
  fits = λ x. omega arith;
  sized = λ k. length-tabulate k 0 (λ i. 205);
}

abbrev toy_sha : Bytes → Bytes
toy_sha msg = tabulate 32 0 (λ i. (i * 7 + length msg) % 256)

abbrev hi : Bytes
hi = 104 ∷ 105 ∷ []

abbrev client : RsaBlindSign
client = record { n = 15; e = 3; d = 0; r = 0; h = 0 }

abbrev server : RsaBlindSign
server = record { n = 15; e = 0; d = 3; r = 0; h = 0 }

powers : all_below 15 (λ j. j ^ 9 % 15 == j % 15) ≡ true
powers = refl

exponents : (x : ℕ) → x ^ 9 % 15 ≡ x % 15
exponents x =
    let test = all_below-elim 15 (λ j. j ^ 9 % 15 == j % 15) powers (x % 15) (omega arith) in
    let same : (x % 15) ^ 9 % 15 ≡ x % 15 % 15 = ground (arith, test) in
    sym (mod-pow 15 x 9) ∙ same ∙ mod-mod x 15

short_texts : all_below 15 (λ j. ltb (length (to_string j) + 2) (2 ^ 32)) ≡ true
unfolding to_string
short_texts = refl

short_text : (x : ℕ) → length (to_string (x % 15)) + 2 < 2 ^ 32
short_text x =
    let test =
      all_below-elim 15 (λ j. ltb (length (to_string j) + 2) (2 ^ 32)) short_texts (x % 15)
        (omega arith) in
    ground (arith, test)

digit_solid : (d : ℕ) → (hex_digit d == 0) ≡ false
digit_solid d = ground arith

length-digests : length (digests small_numbers toy_sha hi) ≡ 256
unfolding digests
length-digests = refl

check_sign-remove_blinding_example :
    (client' : RsaBlindSign) × (blinded : Bytes) × (signed : Bytes) × (signature : Bytes)
    × (blind_hash small_numbers toy_sha hex hi client ≡ ok (client', blinded))
    × (sig_gen small_numbers blinded server ≡ ok signed)
    × (remove_blinding small_numbers signed client' ≡ ok signature)
    × (check_sign small_numbers signature client' ≡ true)
check_sign-remove_blinding_example =
    check_sign-remove_blinding small_numbers small_numbers-IsGmp toy_sha hex hi client server refl
      exponents refl short_text
      (HasWidth-all hex 2 (λ c. (refl, (digit_solid (c / 16), (digit_solid (c % 16), tt))))
        (digests small_numbers toy_sha hi))
      (omega (arith, length-digests))
