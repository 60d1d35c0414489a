-- ===== src/Caravel/BlindSign.antt =====
-- Caravel/RSABlindSign.cpp: blind signatures, over the numbers of GMP and SHA-256 as parameters.
pub mod Modular
pub mod Accepts
use asiaccs.Base.{ℕ, zero, suc, ◌+◌, Bool, List, [], ◌∷◌, ◌++◌, ◌==◌, u32, tabulate}
use asiaccs.Base.{Outcome, ok, ◌>>=◌, ◌>>◌, require}
use asiaccs.Proxy.Services.{Bytes, concat}
use asiaccs.Caravel.Digest.{zero_bytes, put_text, assign, sha256_string, to_text}

-- What the code uses of GMP, and `new char[]`; `urandomm` is the first number that a new generator
-- draws below its argument.
pub record Gmp : Type 0 where
  pub set_str : ℕ → Bytes → ℕ
  pub get_str : ℕ → ℕ → Bytes
  pub size_in_base : ℕ → ℕ → ℕ
  pub mul : ℕ → ℕ → ℕ
  pub modulo : ℕ → ℕ → ℕ
  pub powm : ℕ → ℕ → ℕ → ℕ
  pub invert : ℕ → ℕ → ℕ
  pub urandomm : ℕ → ℕ
  pub fresh : ℕ → Bytes

pub record RsaBlindSign : Type 0 where
  pub n : ℕ
  pub e : ℕ
  pub d : ℕ
  pub r : ℕ
  pub h : ℕ

module _ (gmp : Gmp) where
  unfoldable pub read_client_conf : Bytes → Bytes → RsaBlindSign → RsaBlindSign
  read_client_conf n e s = record s { n = gmp.set_str 10 n; e = gmp.set_str 10 e }

  unfoldable pub read_server_conf : Bytes → Bytes → RsaBlindSign → RsaBlindSign
  read_server_conf n d s = record s { n = gmp.set_str 10 n; d = gmp.set_str 10 d }

  -- The decimal text of a result, through an array of zeros.
  unfoldable pub result_text : ℕ → Outcome Bytes
  unfolding put_text assign
  result_text x = do
    written ←
        put_text (zero_bytes (u32 (gmp.size_in_base x 10 + 2))) 0 (gmp.get_str 10 x ++ (0 ∷ []))
    ok (assign written)

  -- The digests of the message behind each of the digits 0 to 7.
  unfoldable pub digests : (Bytes → Bytes) → Bytes → Bytes
  unfolding sha256_string concat
  digests sha msg = concat (tabulate 8 0 (λ (i : ℕ). sha256_string sha ((b'0' + i) ∷ msg)))

  unfoldable pub blind_hash :
      (Bytes → Bytes) → (ℕ → Bytes) → Bytes → RsaBlindSign → Outcome (RsaBlindSign × Bytes)
  unfolding to_text digests result_text
  blind_hash sha hex msg s = do
    text ← to_text gmp.fresh hex 2 (digests sha msg)
    let h = gmp.modulo (gmp.set_str 16 text) s.n
    let r = gmp.urandomm s.n
    out ← result_text (gmp.modulo (gmp.mul (gmp.powm r s.e s.n) h) s.n)
    ok (record s { r = r; h = h }, out)

  unfoldable pub sig_gen : Bytes → RsaBlindSign → Outcome Bytes
  unfolding result_text
  sig_gen msg s = result_text (gmp.powm (gmp.set_str 10 msg) s.d s.n)

  unfoldable pub remove_blinding : Bytes → RsaBlindSign → Outcome Bytes
  unfolding result_text
  remove_blinding msg s =
      result_text (gmp.modulo (gmp.mul (gmp.set_str 10 msg) (gmp.invert s.r s.n)) s.n)

  unfoldable pub check_sign : Bytes → RsaBlindSign → Bool
  check_sign msg s = gmp.powm (gmp.set_str 10 msg) s.e s.n == s.h
