-- ===== src/Fastore/Blk/Memory.antt =====
-- fastore/ore_blk.cpp: the writes of `ore_blk_encrypt_ui` and the buffers of `init_ore_blk_ciphertext`.
use asiaccs.Base.{ℕ, zero, suc, ◌+◌, ◌-◌, ◌*◌, ◌/◌, ◌%◌, ◌^◌, ◌≤◌, ◌<◌, bit_and, bit_or, bit_xor}
use asiaccs.Base.{◌≡◌, refl, sym, ap, ◌∙◌, inl, inr, arith}
use asiaccs.Base.{true, false, ◌&&◌, List, map}
use asiaccs.Base.{leb, ◌==◌, Bool-cases}
use asiaccs.Base.{shl64, shr, get_or}
use asiaccs.Base.{tabulate}
use asiaccs.Base.{Outcome, ok, fault, ◌>>=◌}
use native.Mathlib.Nat.{mul-suc}
use asiaccs.Memory.{Buf, write, store}
use asiaccs.Memory.Laws.{store-ok}
use asiaccs.Fastore.Platform.{Platform, Block, make_block, of_value, to_value}
use asiaccs.Fastore.Aes.{OreAesKey, key_expansion, ecb_encrypt_blk, ecb_encrypt_blks}
use asiaccs.Fastore.Crypto.{setup_aes_key, aes_eval, aes_eval_blocks, sha_256}
use asiaccs.Fastore.Prp.{
  extract_blocks, join_blocks, swap_if, in_order, rounds, prp_key_expand, prp_eval, prp_eval_helper,
}
use asiaccs.Fastore.Prp.All.{prp_inv_eval_all-perm}
use asiaccs.Fastore.Prp.Inverse.{perm}
use asiaccs.Fastore.Ore.{c_string, OreParams, blocks, cmp_bytes, slots, right_block, ceil}
use asiaccs.Fastore.Ore.Sizes.{IsUsable, slots-eq, right_block-eq, pix_fits, left_block-eq}
use asiaccs.Fastore.Ore.Hash.{eval_keyed_hash_batch, eval_keyed_hash_batch_aes_ro}
use asiaccs.Fastore.Ore.Hash.{mask64}
use asiaccs.Fastore.Ore.Setup.{flag_of}
use asiaccs.Fastore.Blk.{
  BlkKey, blk_slot_loop, blk_left_part, blk_right_part, blk_encrypt_block, blk_encrypt_loop,
  blk_left_block,
}

-- What a run that does not fault leaves: a buffer of the same size.
abbrev pub Keeps : Buf → Outcome Buf → Type 0
Keeps b o = (b' : Buf) × (o ≡ ok b') × (b'.size ≡ b.size)

-- A permutation of an even width answers for every value.
prp_eval-ok :
    ⦃p : Platform⦄ (key : OreAesKey) (x n : ℕ)
    → n % 2 ≡ 0
    → n ≤ 64
    → (y : ℕ) × (prp_eval key x n ≡ ok y)
unfolding prp_eval prp_eval_helper
prp_eval-ok key x n even narrow =
    let fine : (n % 2 == 0 && leb n 64) ≡ true = ground (arith, even, narrow) in
    let start = swap_if false (extract_blocks x n) in
    let end = swap_if false (rounds n (in_order false (prp_key_expand key)) start) in
    (join_blocks n end % 256 ^ ((n + 7) / 8), rw fine refl)

-- A write inside a buffer.
pub stored : (b : Buf) (off n v : ℕ) → off + n ≤ b.size → Keeps b (store b off n v)
stored b off n v h = (record { size = b.size; at = write b.at off n v }, store-ok b off n v h, refl)

module _ ⦃p : Platform⦄ (params : OreParams) (name row : OreAesKey) (hash_name val : ℕ)
    (pi_inv r : List ℕ) where
  -- What is written for slot `j`.
  abbrev pub slot_value : ℕ → ℕ
  slot_value j =
      let input = make_block hash_name (bit_or (j * 2) (flag_of (get_or pi_inv j 0) val)) in
      bit_xor (get_or r j 0)
        (bit_and (ecb_encrypt_blk row (ecb_encrypt_blk name input)).lo (mask64 params.cmp_len))

  -- With eight bytes for each slot the slots stay inside.
  blk_slot_loop-ok :
      (left j off : ℕ) (b : Buf)
      → cmp_bytes params ≡ 8
      → off + 8 * (j + left) ≤ b.size
      → Keeps b (blk_slot_loop params name row hash_name val pi_inv r left j off b)
  unfolding blk_slot_loop
  blk_slot_loop-ok zero j off b eight room = (b, refl, refl)
  blk_slot_loop-ok (suc left) j off b eight room =
      let at : off + cmp_bytes params * j ≡ off + 8 * j = ap (λ (c : ℕ). off + c * j) eight in
      let (b1, write_ok, same) =
        stored b (off + cmp_bytes params * j) 8 (slot_value j) (omega (arith, at, room)) in
      let (b2, runs, size) =
        blk_slot_loop-ok left (suc j) off b1 eight (omega (arith, room, same)) in
      (
        b2,
        ap (λ o. o >>= blk_slot_loop params name row hash_name val pi_inv r left (suc j) off)
              write_ok
            ∙ runs,
        size ∙ same,
      )

  -- With fewer the loop faults when nothing follows its last slot: the copy of it leaves the buffer.
  pub blk_slot_loop-fault :
      (left j off : ℕ) (b : Buf)
      → b.size < off + cmp_bytes params * (j + left) + 8
      → blk_slot_loop params name row hash_name val pi_inv r (suc left) j off b ≡ fault
  unfolding blk_slot_loop store
  blk_slot_loop-fault zero j off b short =
      let at : off + cmp_bytes params * (j + 0) ≡ off + cmp_bytes params * j =
        ap (λ (k : ℕ). off + cmp_bytes params * k) (omega arith) in
      let outside : leb (off + cmp_bytes params * j + 8) b.size ≡ false =
        ground (arith, at, short) in
      rw outside refl
  blk_slot_loop-fault (suc left) j off b short =
      let at : off + cmp_bytes params * (j + suc left) ≡ off + cmp_bytes params * (suc j + left) =
        ap (λ (k : ℕ). off + cmp_bytes params * k) (omega arith) in
      elim (Bool-cases (leb (off + cmp_bytes params * j + 8) b.size)) [
        | inl inside ↦ rw inside (
            blk_slot_loop-fault left (suc j) off
              (record {
                size = b.size;
                at = write b.at (off + cmp_bytes params * j) 8 (slot_value j);
              })
              (omega (arith, at, short)))
        | inr outside ↦ rw outside refl
      ]

-- Usable parameters with eight bytes for each slot, whose values have at most 32 bits in the shifts.
pub record IsWide (params : OreParams) : Type 0 where
  pub usable : IsUsable params
  pub eight : cmp_bytes params ≡ 8
  pub narrow : params.block_len * (blocks params - 1) < 32

module _ ⦃p : Platform⦄ (sk : BlkKey) (u : IsUsable sk.params) where
  pub blk_left_part-ok :
      (i prefix val off : ℕ) (b : Buf)
      → off + blk_left_block sk.params ≤ b.size
      → (b' : Buf) × (key : OreAesKey) × (blk_left_part sk i prefix val off b ≡ ok (b', key))
        × (b'.size ≡ b.size)
  unfolding blk_left_part aes_eval setup_aes_key
  blk_left_part-ok i prefix val off b room =
      let params = sk.params in
      let prp_key = key_expansion (ecb_encrypt_blk sk.prp_key (make_block i prefix)) in
      let (pix, permuted) =
        prp_eval-ok prp_key val params.block_len u.block_even (omega (arith, u.block_max)) in
      let key =
        ecb_encrypt_blk sk.prf_key (make_block i (bit_or (shl64 prefix params.block_len) pix)) in
      let inside : 16 + ceil params.block_len 8 ≤ blk_left_block params =
        omega (arith, pix_fits params u, left_block-eq params u, u.nbits_max) in
      let (b1, first, same) = stored b off 16 (to_value key) (omega (arith, room, inside)) in
      let (b2, second, same') =
        stored b1 (off + 16) (ceil params.block_len 8) pix (omega (arith, room, inside, same)) in
      (b2, prp_key, rw (permuted, first, second) refl, same' ∙ same)

module _ ⦃p : Platform⦄ (sk : BlkKey) (u : IsWide sk.params) where
  blk_right_part-ok :
      (key : OreAesKey) (nonce : Block) (i prefix val : ℕ) (cname : List ℕ) (rnum off : ℕ) (b : Buf)
      → off + right_block sk.params ≤ b.size
      → Keeps b (blk_right_part true sk key nonce i prefix val cname rnum off b)
  unfolding blk_right_part aes_eval_blocks sha_256 setup_aes_key eval_keyed_hash_batch
      eval_keyed_hash_batch_aes_ro
  blk_right_part-ok key nonce i prefix val cname rnum off b room =
      let params = sk.params in
      let table =
        prp_inv_eval_all-perm params.block_len u.usable.block_max key u.usable.block_even in
      let width : right_block params ≡ 8 * slots params =
        right_block-eq params u.usable
        ∙ ap (λ (c : ℕ). c * 2 ^ params.block_len) u.eight
        ∙ ap (λ (n : ℕ). 8 * n) (sym (slots-eq params u.usable)) in
      let inputs =
        tabulate (slots params) 0 (λ j. make_block i (bit_or (shl64 prefix params.block_len) j)) in
      let hash_name = p.sha256 (c_string cname) in
      let (b', runs, same) =
        blk_slot_loop-ok params (key_expansion (of_value hash_name))
          (key_expansion (make_block 0 rnum)) hash_name val
          (tabulate (2 ^ params.block_len) 0 (perm key params.block_len true))
          (map (λ o. bit_and o.lo (mask64 params.cmp_len))
            (ecb_encrypt_blks (key_expansion nonce) (ecb_encrypt_blks sk.prf_key inputs)))
          (slots params) 0 off b u.eight (omega (arith, width, room)) in
      (b', rw table runs, same)

  -- The two parts of all blocks are written inside their buffers.
  pub blk_encrypt_loop-ok :
      (nonce : Block) (cname : List ℕ) (rnum msg left i mask prefix ol or : ℕ) (bl br : Buf)
      → ol + blk_left_block sk.params * left ≤ bl.size
      → or + right_block sk.params * left ≤ br.size
      → (done : Buf × Buf) × (blk_encrypt_loop true sk nonce cname rnum msg left i mask prefix ol or
            bl br
          ≡ ok done)
        × (done.0.size ≡ bl.size)
        × (done.1.size ≡ br.size)
  unfolding blk_encrypt_loop blk_encrypt_block
  blk_encrypt_loop-ok nonce cname rnum msg zero i mask prefix ol or bl br room_l room_r =
      ((bl, br), refl, refl, refl)
  blk_encrypt_loop-ok nonce cname rnum msg (suc left) i mask prefix ol or bl br room_l room_r =
      let params = sk.params in
      let cur_block = shr (bit_and msg mask) (params.block_len * left) in
      let all_l = mul-suc (blk_left_block params) left in
      let all_r = mul-suc (right_block params) left in
      let (l, key, made, same_l) =
        blk_left_part-ok sk u.usable i prefix cur_block ol bl (omega (arith, room_l, all_l)) in
      let (r, runs, same_r) =
        blk_right_part-ok key nonce i prefix cur_block cname rnum or br
          (omega (arith, room_r, all_r)) in
      let (done, rest, size_l, size_r) =
        blk_encrypt_loop-ok nonce cname rnum msg left (suc i) (shr mask params.block_len)
          (bit_or (shl64 prefix params.block_len) cur_block) (ol + blk_left_block params)
          (or + right_block params) l r (omega (arith, room_l, all_l, same_l))
          (omega (arith, room_r, all_r, same_r)) in
      (done, rw (made, runs) rest, size_l ∙ same_l, size_r ∙ same_r)
