-- ===== src/Caravel/BlindSign/Accepts.antt =====
-- Caravel/RSABlindSign.cpp: a blind signature is accepted by the check.
use mathlib.Core.List.{append_assoc}
use native.Mathlib.Nat.{mod-mod}
use asiaccs.Base.{ℕ, ◌+◌, ◌*◌, ◌%◌, ◌^◌, ◌≤◌, ◌<◌, ◌≡◌, refl, ap, ◌∙◌, arith}
use asiaccs.Base.{true, [], ◌∷◌, ◌++◌, map, u32, length, length-append, length-tabulate}
use asiaccs.Base.{Outcome, ok, ◌>>=◌}
use asiaccs.Proxy.Services.{Bytes, concat, drop_bytes}
use asiaccs.Caravel.Redis.Moved.{Lacks}
use asiaccs.Caravel.Digest.{zero_bytes, assign, to_text}
use asiaccs.Caravel.Digest.Text.{HasWidth, to_text-concat, put_text-append, assign-append}
use asiaccs.Caravel.BlindSign.{
  Gmp, RsaBlindSign, result_text, digests, blind_hash, sig_gen, remove_blinding, check_sign,
}
use asiaccs.Caravel.BlindSign.Modular.{unblind, sign_check}

-- What the manual of GMP says of the functions that are used.
pub record IsGmp (gmp : Gmp) : Type 0 where
  pub mul_is : (a b : ℕ) → gmp.mul a b ≡ a * b
  pub modulo_is : (a n : ℕ) → gmp.modulo a n ≡ a % n
  pub powm_is : (a k n : ℕ) → gmp.powm a k n ≡ a ^ k % n
  pub reads : (x : ℕ) → gmp.set_str 10 (gmp.get_str 10 x) ≡ x
  pub no_nul : (x : ℕ) → Lacks 0 (gmp.get_str 10 x)
  pub fits : (x : ℕ) → length (gmp.get_str 10 x) ≤ gmp.size_in_base x 10
  pub sized : (k : ℕ) → length (gmp.fresh k) ≡ k

module _ (gmp : Gmp) (law : IsGmp gmp) (n : ℕ)
    (small : (x : ℕ) → gmp.size_in_base (x % n) 10 + 2 < 2 ^ 32) where
  result_text-ok : (x : ℕ) → result_text gmp (x % n) ≡ ok (gmp.get_str 10 (x % n))
  unfolding result_text
  result_text-ok x =
      let t = gmp.get_str 10 (x % n) in
      let k = gmp.size_in_base (x % n) 10 in
      let exact : u32 (k + 2) ≡ k + 2 = omega (arith, small x) in
      let size = length-tabulate {A = ℕ} (k + 2) 0 (λ i. 0) in
      let marked : length (t ++ (0 ∷ [])) ≡ length t + 1 =
        omega (arith, length-append t (0 ∷ [])) in
      let room : length (t ++ (0 ∷ [])) ≤ length (zero_bytes (k + 2)) =
        omega (arith, marked, size, law.fits (x % n)) in
      let written = put_text-append [] (zero_bytes (k + 2)) (t ++ (0 ∷ [])) room in
      let left = drop_bytes (length (t ++ (0 ∷ []))) (zero_bytes (k + 2)) in
      let back : assign ((t ++ (0 ∷ [])) ++ left) ≡ t =
        ap assign (append_assoc t (0 ∷ []) left) ∙ assign-append t left (law.no_nul (x % n)) in
      rw exact (ap (λ o. o >>= λ (w : Bytes). ok (assign w)) written ∙ ap ok back)

  sig_gen-ok :
      (m : ℕ) (server : RsaBlindSign)
      → server.n ≡ n
      → sig_gen gmp (gmp.get_str 10 m) server ≡ ok (gmp.get_str 10 (m ^ server.d % n))
  unfolding sig_gen
  sig_gen-ok m server same =
      ap (λ (x : ℕ). result_text gmp (gmp.powm x server.d server.n)) (law.reads m)
      ∙ ap (λ (k : ℕ). result_text gmp (gmp.powm m server.d k)) same
      ∙ ap (result_text gmp) (law.powm_is m server.d n)
      ∙ result_text-ok (m ^ server.d)

  remove_blinding-ok :
      (m : ℕ) (client : RsaBlindSign)
      → client.n ≡ n
      → remove_blinding gmp (gmp.get_str 10 m) client
        ≡ ok (gmp.get_str 10 (m * gmp.invert client.r n % n))
  unfolding remove_blinding
  remove_blinding-ok m client same =
      ap
        (λ (x : ℕ).
          result_text gmp (gmp.modulo (gmp.mul x (gmp.invert client.r client.n)) client.n))
        (law.reads m)
      ∙ ap (λ (k : ℕ). result_text gmp (gmp.modulo (gmp.mul m (gmp.invert client.r k)) k)) same
      ∙ ap (λ (x : ℕ). result_text gmp (gmp.modulo x n)) (law.mul_is m (gmp.invert client.r n))
      ∙ ap (result_text gmp) (law.modulo_is (m * gmp.invert client.r n) n)
      ∙ result_text-ok (m * gmp.invert client.r n)

  check_sign-ok :
      (m : ℕ) (client : RsaBlindSign)
      → client.n ≡ n
      → m ^ client.e % n ≡ client.h
      → check_sign gmp (gmp.get_str 10 m) client ≡ true
  unfolding check_sign
  check_sign-ok m client same hit =
      let power : gmp.powm (gmp.set_str 10 (gmp.get_str 10 m)) client.e client.n ≡ client.h =
        ap (λ (x : ℕ). gmp.powm x client.e client.n) (law.reads m)
        ∙ ap (gmp.powm m client.e) same
        ∙ law.powm_is m client.e n
        ∙ hit in
      ground (arith, power)

  blind_hash-ok :
      (sha : Bytes → Bytes) (hex : ℕ → Bytes) (msg text : Bytes) (client : RsaBlindSign)
      → client.n ≡ n
      → to_text gmp.fresh hex 2 (digests gmp sha msg) ≡ ok text
      → let h = gmp.set_str 16 text % n in
        let r = gmp.urandomm n in
        blind_hash gmp sha hex msg client
        ≡ ok (record client { r = r; h = h }, gmp.get_str 10 ((r ^ client.e % n) * h % n))
  unfolding blind_hash
  blind_hash-ok sha hex msg text client same read =
      let r = gmp.urandomm n in
      let h = gmp.set_str 16 text % n in
      let from : (k g : ℕ) (o : Outcome Bytes) → Outcome (RsaBlindSign × Bytes) =
        λ k g o. o >>= λ (out : Bytes). ok (record client { r = gmp.urandomm k; h = g }, out) in
      let after : ℕ → Bytes → Outcome (RsaBlindSign × Bytes) = λ k t.
        let g = gmp.modulo (gmp.set_str 16 t) k in
        from k g
          (result_text gmp (gmp.modulo (gmp.mul (gmp.powm (gmp.urandomm k) client.e k) g) k)) in
      let product : gmp.mul (gmp.powm r client.e n) h ≡ (r ^ client.e % n) * h =
        ap (λ (x : ℕ). gmp.mul x h) (law.powm_is r client.e n) ∙ law.mul_is (r ^ client.e % n) h in
      let sent =
        ap (λ (x : ℕ). gmp.modulo x n) product ∙ law.modulo_is ((r ^ client.e % n) * h) n in
      ap (λ (o : Outcome Bytes). o >>= after client.n) read
      ∙ ap (λ (k : ℕ). after k text) same
      ∙ ap
          (λ (g : ℕ). from n g (result_text gmp (gmp.modulo (gmp.mul (gmp.powm r client.e n) g) n)))
          (law.modulo_is (gmp.set_str 16 text) n)
      ∙ ap (λ (x : ℕ). from n h (result_text gmp x)) sent
      ∙ ap (from n h) (result_text-ok ((r ^ client.e % n) * h))

module _ (gmp : Gmp) (law : IsGmp gmp) where
  -- With GMP as its manual says, a client and a server of one modulus, exponents that undo each other
  -- on all numbers, a blinding number that has an inverse, bytes formatted as two characters without
  -- NUL and texts of less than 4 GB, the client blinds the hash of a message, the server signs it and
  -- the client removes the blinding without error, and CheckSign accepts the result.
  pub check_sign-remove_blinding :
      (sha : Bytes → Bytes) (hex : ℕ → Bytes) (msg : Bytes) (client server : RsaBlindSign)
      → server.n ≡ client.n
      → ((x : ℕ) → x ^ (client.e * server.d) % client.n ≡ x % client.n)
      → (gmp.urandomm client.n * gmp.invert (gmp.urandomm client.n) client.n) % client.n
        ≡ 1 % client.n
      → ((x : ℕ) → gmp.size_in_base (x % client.n) 10 + 2 < 2 ^ 32)
      → HasWidth hex 2 (digests gmp sha msg)
      → length (digests gmp sha msg) * 2 + 1 < 2 ^ 32
      → (client' : RsaBlindSign) × (blinded : Bytes) × (signed : Bytes) × (signature : Bytes)
        × (blind_hash gmp sha hex msg client ≡ ok (client', blinded))
        × (sig_gen gmp blinded server ≡ ok signed)
        × (remove_blinding gmp signed client' ≡ ok signature)
        × (check_sign gmp signature client' ≡ true)
  check_sign-remove_blinding sha hex msg client server same key inverts small wide short =
      let n = client.n in
      let text = concat (map hex (digests gmp sha msg)) in
      let h = gmp.set_str 16 text % n in
      let r = gmp.urandomm n in
      let blinded = (r ^ client.e % n) * h % n in
      let signed = blinded ^ server.d % n in
      let signature = signed * gmp.invert r n % n in
      let read =
        to_text-concat gmp.fresh hex 2 (digests gmp sha msg) law.sized wide (omega arith) short in
      let freed : signature ≡ h ^ server.d % n =
        unblind n client.e server.d h r (gmp.invert r n) key inverts in
      let accepted : signature ^ client.e % n ≡ h =
        ap (λ (x : ℕ). x ^ client.e % n) freed
        ∙ sign_check n client.e server.d h key
        ∙ mod-mod (gmp.set_str 16 text) n in
      let client' = record client { r = r; h = h } in
      (
        client',
        gmp.get_str 10 blinded,
        gmp.get_str 10 signed,
        gmp.get_str 10 signature,
        blind_hash-ok gmp law n small sha hex msg text client refl read,
        sig_gen-ok gmp law n small blinded server same,
        remove_blinding-ok gmp law n small signed client' refl,
        check_sign-ok gmp law n small signature client' refl accepted,
      )
