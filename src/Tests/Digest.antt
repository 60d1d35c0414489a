-- ===== src/Tests/Digest.antt =====
-- Two bytes as hexadecimal text.
use asiaccs.Base.{ℕ, ◌+◌, ◌-◌, ◌/◌, ◌%◌, ◌≡◌, refl, arith, [], ◌∷◌, ok}
use asiaccs.Base.{ltb, if◌then◌else◌, tabulate, length-tabulate}
use asiaccs.Proxy.Services.{Bytes, codes, concat}
use asiaccs.Caravel.Digest.{to_text}
use asiaccs.Caravel.Digest.Text.{to_text-concat}

abbrev pub hex_digit : ℕ → ℕ
hex_digit d = if ltb d 10 then b'0' + d else b'a' + (d - 10)

-- The format "%02x".
abbrev pub hex : ℕ → Bytes
hex c = hex_digit (c / 16) ∷ hex_digit (c % 16) ∷ []

abbrev fresh : ℕ → Bytes
fresh n = tabulate n 0 (λ i. 205)

to_text-concat_example : to_text fresh hex 2 (10 ∷ 255 ∷ []) ≡ ok (codes "0aff")
unfolding concat
to_text-concat_example =
    to_text-concat fresh hex 2 (10 ∷ 255 ∷ []) (λ n. length-tabulate n 0 (λ i. 205))
      (refl, (refl, (refl, tt)), (refl, (refl, (refl, tt)), tt)) (omega arith) (omega arith)
