-- ===== src/Fastore/Prp.antt =====
-- fastore/crypto.cpp: the permutation of `nbits`-bit numbers, a Feistel network of three rounds over
-- AES, on one value and on all of them.
pub mod Feistel
pub mod Inverse
pub mod All
pub mod Keys
use asiaccs.Base.{ℕ, zero, suc, ◌+◌, ◌-◌, ◌*◌, ◌/◌, ◌%◌, ◌^◌, bit_and, bit_or, bit_xor}
use asiaccs.Base.{Bool, true, false, not, ◌&&◌, ◌==◌, leb, if◌then◌else◌, List, [], ◌∷◌, map, u64}
use asiaccs.Base.{shl64, shr, tabulate, Outcome, ok, ErrorCode, ◌>>=◌, ◌>>◌, guard}
use asiaccs.Fastore.Platform.{Platform, Block, make_block, to_value, of_value}
use asiaccs.Fastore.Aes.{OreAesKey, key_expansion, ecb_encrypt_blk, ecb_encrypt_blks}
use asiaccs.Fastore.Aes.{ecb_encrypt_blks_3}

-- `((uint64_t)1 << len) - 1`
abbrev pub ones64 : ℕ → ℕ
ones64 len = u64 (shl64 1 len + 2 ^ 64 - 1)

-- `_extract_blocks`: `memcpy` takes the low `(nbits + 7) / 8` bytes of the source. The parts are
-- returned left first.
unfoldable pub extract_blocks : ℕ → ℕ → ℕ × ℕ
extract_blocks src nbits =
    let val = src % 256 ^ ((nbits + 7) / 8) in
    let len = nbits / 2 in
    let mask_r = ones64 len in
    let mask_l = shl64 mask_r len in (shr (bit_and val mask_l) len, bit_and val mask_r)

-- `(val_l << (nbits / 2)) | val_r`
abbrev pub join_blocks : ℕ → ℕ × ℕ → ℕ
join_blocks nbits (l, r) = bit_or (shl64 l (nbits / 2)) r

-- The three blocks as one run of 48 bytes, and the 16 bytes of it from byte `i` on.
abbrev pub bytes_at : Block × Block × Block → ℕ → Block
bytes_at (a, b, c) i =
    of_value ((to_value a + 2 ^ 128 * to_value b + 2 ^ 256 * to_value c) / 256 ^ i % 2 ^ 128)

-- `std::swap` of the two halves, or of the two arrays.
abbrev pub swap_if {ℓ} : {A : Type ℓ} → Bool → A × A → A × A
swap_if true (l, r) = (r, l)
swap_if false (l, r) = (l, r)

-- The round keys in the order in which the loop takes them.
abbrev pub in_order : {A : Type 0} → Bool → A × A × A → List A
in_order true (a, b, c) = c ∷ b ∷ a ∷ []
in_order false (a, b, c) = a ∷ b ∷ c ∷ []

abbrev pub xor_masked : ℕ → List ℕ → List Block → List ℕ
xor_masked mask [] outs = []
xor_masked mask (l ∷ ls) [] = []
xor_masked mask (l ∷ ls) (o ∷ os) = bit_xor l (bit_and o.lo mask) ∷ xor_masked mask ls os

abbrev pub join_all : ℕ → List ℕ → List ℕ → List ℕ
join_all nbits [] rs = []
join_all nbits (l ∷ ls) [] = []
join_all nbits (l ∷ ls) (r ∷ rs) = join_blocks nbits (l, r) ∷ join_all nbits ls rs

module _ ⦃p : Platform⦄ where
  -- `_feistel_round`
  unfoldable pub feistel_round : OreAesKey → ℕ → ℕ × ℕ → ℕ × ℕ
  feistel_round key nbits (src_l, src_r) =
      let prf_out = ecb_encrypt_blk key (make_block 0 src_r) in
      let r = prf_out.lo % shl64 1 (nbits / 2) in (src_r, bit_xor src_l r)

  -- `_feistel_round_batch`; the first argument says whether its `malloc` calls succeed.
  unfoldable pub feistel_round_batch :
      Bool → OreAesKey → ℕ → List ℕ × List ℕ → Outcome (List ℕ × List ℕ)
  feistel_round_batch allocated key nbits (src_l, src_r) = do
    guard allocated ErrorCode.memory_allocation
    let prf_outputs = ecb_encrypt_blks key (map (make_block 0) src_r)
    ok (src_r, xor_masked (ones64 (nbits / 2)) src_l prf_outputs)

  -- `_prp_key_expand`. The cast binds tighter than `+ i`, so round key `i` is read at byte `i`.
  unfoldable pub prp_key_expand : OreAesKey → OreAesKey × OreAesKey × OreAesKey
  prp_key_expand prp_key =
      let feistel_keys =
        ecb_encrypt_blks_3 prp_key (make_block 0 0, make_block 0 1, make_block 0 2) in
      (
        key_expansion (bytes_at feistel_keys 0),
        key_expansion (bytes_at feistel_keys 1),
        key_expansion (bytes_at feistel_keys 2),
      )

  pub rounds : ℕ → List OreAesKey → ℕ × ℕ → ℕ × ℕ
  rounds nbits [] s = s
  rounds nbits (k ∷ ks) s = rounds nbits ks (feistel_round k nbits s)

  -- `_prp_eval_helper`; the result is what `memcpy` puts into a destination of zeros.
  unfoldable pub prp_eval_helper : OreAesKey → ℕ → ℕ → Bool → Outcome ℕ
  unfolding rounds
  prp_eval_helper key src nbits inv = do
    guard (nbits % 2 == 0 && leb nbits 64) ErrorCode.prp_bitlen_invalid
    let keys = prp_key_expand key
    let start = swap_if inv (extract_blocks src nbits)
    let end = swap_if inv (rounds nbits (in_order inv keys) start)
    ok (join_blocks nbits end % 256 ^ ((nbits + 7) / 8))

  unfoldable pub prp_eval : OreAesKey → ℕ → ℕ → Outcome ℕ
  unfolding prp_eval_helper
  prp_eval key src nbits = prp_eval_helper key src nbits false

  unfoldable pub prp_inv_eval : OreAesKey → ℕ → ℕ → Outcome ℕ
  unfolding prp_eval_helper
  prp_inv_eval key src nbits = prp_eval_helper key src nbits true

  pub rounds_batch : Bool → ℕ → List OreAesKey → List ℕ × List ℕ → Outcome (List ℕ × List ℕ)
  rounds_batch allocated nbits [] s = ok s
  rounds_batch allocated nbits (k ∷ ks) s =
      feistel_round_batch allocated k nbits s >>= rounds_batch allocated nbits ks

  -- `_prp_eval_all_helper`
  unfoldable pub prp_eval_all_helper : Bool → OreAesKey → ℕ → Bool → Outcome (List ℕ)
  unfolding rounds_batch
  prp_eval_all_helper allocated key nbits inv = do
    guard (nbits % 2 == 0 && leb nbits 16) ErrorCode.prp_bitlen_invalid
    let keys = prp_key_expand key
    let nblocks = 2 ^ nbits
    guard allocated ErrorCode.memory_allocation
    let val_l = tabulate nblocks 0 (λ i. (extract_blocks i nbits).0)
    let val_r = tabulate nblocks 0 (λ i. (extract_blocks i nbits).1)
    s ← rounds_batch allocated nbits (in_order inv keys) (swap_if inv (val_l, val_r))
    let end = swap_if inv s
    ok (join_all nbits end.0 end.1)

  unfoldable pub prp_eval_all : Bool → OreAesKey → ℕ → Outcome (List ℕ)
  unfolding prp_eval_all_helper
  prp_eval_all allocated key nbits = prp_eval_all_helper allocated key nbits false

  unfoldable pub prp_inv_eval_all : Bool → OreAesKey → ℕ → Outcome (List ℕ)
  unfolding prp_eval_all_helper
  prp_inv_eval_all allocated key nbits = prp_eval_all_helper allocated key nbits true
