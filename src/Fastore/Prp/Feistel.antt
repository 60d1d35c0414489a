-- ===== src/Fastore/Prp/Feistel.antt =====
-- One round of the network, undone by the round with its halves exchanged; the halves stay in range.
use native.Mathlib.Nat.{mod-lt, one-le-pow}
use asiaccs.Base.{ℕ, ◌/◌, ◌%◌, ◌^◌, ◌≤◌, ◌<◌}
use asiaccs.Base.{◌≡◌, arith}
use asiaccs.Base.{List, [], ◌∷◌}
use asiaccs.Base.{shl64}
use asiaccs.Base.{pow_le}
use asiaccs.Bits.Xor.{xor_cancel, xor-lt}
use asiaccs.Fastore.Platform.{Platform, make_block}
use asiaccs.Fastore.Aes.{OreAesKey, ecb_encrypt_blk}
use asiaccs.Fastore.Prp.{feistel_round, rounds}

-- `1 << len` is a power of two while it fits 64 bits.
pub shl64_one : (len : ℕ) → len < 64 → shl64 1 len ≡ 2 ^ len
shl64_one len h = let small : 2 ^ len ≤ 2 ^ 63 = pow_le len 63 (omega arith) in omega arith

-- Both halves have `nbits / 2` bits.
abbrev pub InRange : ℕ → ℕ × ℕ → Type 0
InRange nbits s = (s.0 < 2 ^ (nbits / 2)) × (s.1 < 2 ^ (nbits / 2))

abbrev pub swap : ℕ × ℕ → ℕ × ℕ
swap (l, r) = (r, l)

module _ ⦃p : Platform⦄ where
  pub feistel_round-InRange :
      (key : OreAesKey) (nbits : ℕ) (s : ℕ × ℕ)
      → nbits ≤ 64
      → InRange nbits s
      → InRange nbits (feistel_round key nbits s)
  unfolding feistel_round
  feistel_round-InRange key nbits (l, r) fits (hl, hr) =
      let one = one-le-pow (nbits / 2) 2 (omega arith) in
      let out = (ecb_encrypt_blk key (make_block 0 r)).lo in
      (hr, rw (shl64_one (nbits / 2) (omega arith)) (xor-lt (nbits / 2) l _ hl (mod-lt out one)))

  -- The same round on the exchanged halves gives the start, exchanged.
  pub feistel_round_undo :
      (key : OreAesKey) (nbits : ℕ) (s : ℕ × ℕ)
      → feistel_round key nbits (swap (feistel_round key nbits s)) ≡ swap s
  unfolding feistel_round
  feistel_round_undo key nbits (l, r) =
      let out = (ecb_encrypt_blk key (make_block 0 r)).lo % shl64 1 (nbits / 2) in
      λ i. (r, xor_cancel l out i)

  pub rounds-InRange :
      (nbits : ℕ) (ks : List OreAesKey) (s : ℕ × ℕ)
      → nbits ≤ 64
      → InRange nbits s
      → InRange nbits (rounds nbits ks s)
  unfolding rounds
  rounds-InRange nbits [] s fits h = h
  rounds-InRange nbits (k ∷ ks) s fits h =
      rounds-InRange nbits ks (feistel_round k nbits s) fits
        (feistel_round-InRange k nbits s fits h)
