-- ===== src/Tests/Cbc.antt =====
-- A cipher that puts its padding in front, and a value encrypted and decrypted with it.
use asiaccs.Base.{ℕ, ◌-◌, ◌*◌, ◌%◌}
use asiaccs.Base.{◌≡◌, refl, arith}
use asiaccs.Base.{some, [], ◌∷◌, ◌++◌}
use asiaccs.Base.{length, get_or}
use asiaccs.Base.{tabulate}
use asiaccs.Base.{ok}
use asiaccs.Proxy.Services.{Bytes, drop_bytes}
use asiaccs.Caravel.Cbc.{Evp, cbc_maxsize, m_encrypt, m_decrypt}
use asiaccs.Caravel.Cbc.Roundtrip.{Works, m_decrypt-m_encrypt}

-- `n` bytes of padding, the number first.
abbrev padding : ℕ → Bytes
padding n = tabulate n 0 (λ i. n)

abbrev front_padded : Evp
unfolding drop_bytes
front_padded = record {
  encrypt = λ key iv plain. some (padding (16 - length plain % 16) ++ plain, []);
  decrypt = λ key iv cipher. some (drop_bytes (get_or cipher 0 0) cipher, []);
}

abbrev some_plain : Bytes
some_plain = 1 ∷ 2 ∷ 3 ∷ []

abbrev vector : Bytes
vector = tabulate 16 0 (λ i. i * 7)

front_padded-Works : Works front_padded (9 ∷ []) vector some_plain
unfolding front_padded
front_padded-Works = record {
  updated = padding 13 ++ some_plain;
  final = [];
  encrypts = refl;
  padded = refl;
  updated' = some_plain;
  final' = [];
  decrypts = refl;
  same = refl;
}

m_decrypt-m_encrypt_example :
    (cipher : Bytes) × (m_encrypt front_padded vector (9 ∷ []) some_plain ≡ ok cipher)
    × (length cipher ≡ cbc_maxsize 3)
    × (m_decrypt front_padded (9 ∷ []) cipher ≡ ok some_plain)
m_decrypt-m_encrypt_example =
    m_decrypt-m_encrypt front_padded vector (9 ∷ []) some_plain refl (omega arith)
      front_padded-Works
