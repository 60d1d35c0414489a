-- ===== src/Caravel/Cbc/Roundtrip.antt =====
-- Caravel/AES.cpp: the buffers are large enough, and what was encrypted is decrypted again.
use asiaccs.Base.{ℕ, ◌+◌, ◌-◌, ◌*◌, ◌/◌, ◌%◌, ◌^◌, ◌<◌}
use asiaccs.Base.{◌≡◌, refl, sym, ap, ◌∙◌, inl, inr, arith}
use asiaccs.Base.{true, ◌&&◌, some, ◌++◌}
use asiaccs.Base.{ltb, leb, ◌==◌, ==_iff, Bool-cases}
use asiaccs.Base.{length}
use asiaccs.Base.{length-append}
use asiaccs.Base.{ok}
use asiaccs.Proxy.Services.{Bytes, take_bytes, drop_bytes}
use asiaccs.Proxy.Search.{take_bytes-append, drop_bytes-append}
use asiaccs.Caravel.Cbc.{Evp, cbc_maxsize, cbc_encrypt_256, cbc_decrypt_256, m_encrypt, m_decrypt}

-- What the cipher does when no call fails: it fills the last block, or adds one, and the decryption under the
-- same key and vector writes the plaintext.
pub record Works (evp : Evp) (key iv plain : Bytes) : Type 0 where
  pub updated : Bytes
  pub final : Bytes
  pub encrypts : evp.encrypt key iv plain ≡ some (updated, final)
  pub padded : length updated + length final ≡ 16 * (length plain / 16 + 1)
  pub updated' : Bytes
  pub final' : Bytes
  pub decrypts : evp.decrypt key iv (updated ++ final) ≡ some (updated', final')
  pub same : updated' ++ final' ≡ plain

-- The vector and the padded plaintext.
pub cbc_maxsize-eq : (n : ℕ) → n + 32 < 2 ^ 32 → cbc_maxsize n ≡ 16 + 16 * (n / 16 + 1)
unfolding cbc_maxsize
cbc_maxsize-eq n small = elim (Bool-cases (n % 16 == 0)) [
  | inl e ↦ let whole : n % 16 ≡ 0 = (==_iff _ 0).0 e in rw e (omega (arith, small, whole))
  | inr e ↦ rw e (omega (arith, small))
]

-- With a vector of 16 bytes, a plaintext of fewer than 2^31 - 128 bytes and a cipher that works,
-- `m_Encrypt` writes exactly the buffer that `CbcMaxsize` asks for, and `m_Decrypt` under the same key stays
-- inside its own and gives the plaintext back.
pub m_decrypt-m_encrypt :
    (evp : Evp) (iv key plain : Bytes)
    → length iv ≡ 16
    → length plain + 128 < 2 ^ 31
    → Works evp key iv plain
    → (cipher : Bytes) × (m_encrypt evp iv key plain ≡ ok cipher)
      × (length cipher ≡ cbc_maxsize (length plain))
      × (m_decrypt evp key cipher ≡ ok plain)
unfolding m_encrypt m_decrypt cbc_encrypt_256 cbc_decrypt_256
m_decrypt-m_encrypt evp iv key plain vector small w =
    let size = cbc_maxsize-eq (length plain) (omega (arith, small)) in
    let cipher = iv ++ (w.updated ++ w.final) in
    let all : length cipher ≡ 16 + 16 * (length plain / 16 + 1) = omega (
      arith,
      length-append iv (w.updated ++ w.final),
      length-append w.updated w.final,
      vector,
      w.padded,
    ) in
    let room : (leb 16 (cbc_maxsize (length plain)) && ltb (length plain) (2 ^ 31)) ≡ true =
      ground (arith, size, small) in
    let fits : leb (length w.updated + length w.final) (cbc_maxsize (length plain) - 16) ≡ true =
      ground (arith, size, w.padded) in
    let later = cbc_maxsize-eq (length cipher) (omega (arith, all, small)) in
    let inside : leb (length cipher) (cbc_maxsize (length cipher)) ≡ true = ground (arith, later) in
    let whole : (leb 16 (length cipher) && ltb (length cipher) (2 ^ 31)) ≡ true =
      ground (arith, all, small) in
    let front : take_bytes 16 cipher ≡ iv =
      ap (λ n. take_bytes n cipher) (sym vector) ∙ take_bytes-append iv (w.updated ++ w.final) in
    let back : drop_bytes 16 cipher ≡ w.updated ++ w.final =
      ap (λ n. drop_bytes n cipher) (sym vector) ∙ drop_bytes-append iv (w.updated ++ w.final) in
    let plain_size : length w.updated' + length w.final' ≡ length plain =
      sym (length-append w.updated' w.final') ∙ ap length w.same in
    let fits' : leb (length w.updated' + length w.final') (cbc_maxsize (length cipher)) ≡ true =
      ground (arith, later, all, plain_size) in
    (
      cipher,
      rw (room, w.encrypts, fits) refl,
      all ∙ sym size,
      rw (inside, whole, front, back, w.decrypts, fits') (ap ok w.same),
    )
