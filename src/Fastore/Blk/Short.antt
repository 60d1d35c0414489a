-- ===== src/Fastore/Blk/Short.antt =====
-- fastore/ore_blk.cpp: `ore_blk_encrypt_ui` leaves the buffer of the right part when `cmp_len` is short.
use asiaccs.Base.{ℕ, zero, suc, ◌+◌, ◌-◌, ◌*◌, ◌^◌, ◌≤◌, ◌<◌, bit_and, bit_or}
use asiaccs.Base.{◌≡◌, refl, sym, ap, ◌∙◌, ◌⊎◌, inl, inr, arith}
use asiaccs.Base.{true, Option, List, map}
use asiaccs.Base.{leb, Bool-cases}
use asiaccs.Base.{shl64, shr}
use asiaccs.Base.{tabulate}
use asiaccs.Base.{pow_pos}
use asiaccs.Base.{Outcome, fault}
use native.Mathlib.Nat.{mul-suc}
use asiaccs.Memory.{Buf, write, store}
use asiaccs.Fastore.Platform.{Platform, Block, make_block, of_value, to_value}
use asiaccs.Fastore.Aes.{OreAesKey, key_expansion, ecb_encrypt_blks}
use asiaccs.Fastore.Crypto.{setup_aes_key, aes_eval_blocks, sha_256}
use asiaccs.Fastore.Prp.All.{prp_inv_eval_all-perm}
use asiaccs.Fastore.Prp.Inverse.{perm}
use asiaccs.Fastore.Ore.Sizes.{right_len-eq}
use asiaccs.Fastore.Ore.{
  ore_index_right_len, c_string, OreParams, blocks, cmp_bytes, slots, right_block,
}
use asiaccs.Fastore.Ore.Sizes.{IsUsable, slots-eq, right_block-eq, blocks_pos}
use asiaccs.Fastore.Ore.Hash.{
  Prg, next_prg_block, mask64, eval_keyed_hash_batch, eval_keyed_hash_batch_aes_ro,
}
use asiaccs.Fastore.Blk.{
  blk_len_right, after_guards, BlkKey, BlkCiphertext, blk_slot_loop, blk_right_part,
  blk_encrypt_block, blk_encrypt_loop, blk_left_block, blk_encrypt_body, ore_blk_encrypt_ui,
}
use asiaccs.Fastore.Blk.Memory.{slot_value, blk_slot_loop-fault, Keeps, stored, blk_left_part-ok}
use asiaccs.Fastore.Blk.Encrypt.{BlkReady, seeded, blk_top_mask-ok, blk_encrypt_guards-ok}

-- Usable parameters with fewer than eight bytes for each slot.
pub record IsShort (params : OreParams) : Type 0 where
  pub usable : IsUsable params
  pub few : cmp_bytes params < 8
  pub narrow : params.block_len * (blocks params - 1) < 32

abbrev IsFault : Outcome Buf → Type 0
IsFault o = o ≡ fault

module _ ⦃p : Platform⦄ (sk : BlkKey) (u : IsShort sk.params) where
  -- Slots that end with the buffer leave it.
  blk_slot_loop-short :
      (name row : OreAesKey) (hash_name val : ℕ) (pi_inv r : List ℕ) (n off : ℕ) (b : Buf)
      → 0 < n
      → b.size ≡ off + cmp_bytes sk.params * n
      → blk_slot_loop sk.params name row hash_name val pi_inv r n 0 off b ≡ fault
  blk_slot_loop-short name row hash_name val pi_inv r zero off b positive end =
      absurd (omega (arith, positive))
  blk_slot_loop-short name row hash_name val pi_inv r (suc left) off b positive end =
      let from : cmp_bytes sk.params * (0 + left) ≡ cmp_bytes sk.params * left =
        ap (λ (n : ℕ). cmp_bytes sk.params * n) (omega arith) in
      blk_slot_loop-fault sk.params name row hash_name val pi_inv r left 0 off b
        (omega (arith, end, from, mul-suc (cmp_bytes sk.params) left, u.few))

  blk_slot_loop-either :
      (name row : OreAesKey) (hash_name val : ℕ) (pi_inv r : List ℕ) (left j off : ℕ) (b : Buf)
      → IsFault (blk_slot_loop sk.params name row hash_name val pi_inv r left j off b)
        ⊎ Keeps b (blk_slot_loop sk.params name row hash_name val pi_inv r left j off b)
  unfolding blk_slot_loop store
  blk_slot_loop-either name row hash_name val pi_inv r zero j off b = inr (b, refl, refl)
  blk_slot_loop-either name row hash_name val pi_inv r (suc left) j off b =
      elim (Bool-cases (leb (off + cmp_bytes sk.params * j + 8) b.size)) [
        | inl inside ↦ rw inside (
            blk_slot_loop-either name row hash_name val pi_inv r left (suc j) off (record {
              size = b.size;
              at =
                  write b.at (off + cmp_bytes sk.params * j) 8
                    (slot_value sk.params name row hash_name val pi_inv r j);
            }))
        | inr outside ↦ rw outside (inl refl)
      ]

  -- The right part of a block whose slots end with the buffer.
  abbrev right_run : OreAesKey → Block → ℕ → ℕ → ℕ → List ℕ → ℕ → ℕ → Buf → Outcome Buf
  right_run key nonce i prefix val cname rnum off b =
      let params = sk.params in
      let inputs =
        tabulate (slots params) 0 (λ j. make_block i (bit_or (shl64 prefix params.block_len) j)) in
      blk_slot_loop params (key_expansion (of_value (p.sha256 (c_string cname))))
        (key_expansion (make_block 0 rnum)) (p.sha256 (c_string cname)) val
        (tabulate (2 ^ params.block_len) 0 (perm key params.block_len true))
        (map (λ o. bit_and o.lo (mask64 params.cmp_len))
          (ecb_encrypt_blks (key_expansion nonce) (ecb_encrypt_blks sk.prf_key inputs)))
        (slots params) 0 off b

  blk_right_part-run :
      (key : OreAesKey) (nonce : Block) (i prefix val : ℕ) (cname : List ℕ) (rnum off : ℕ) (b : Buf)
      → blk_right_part true sk key nonce i prefix val cname rnum off b
        ≡ right_run key nonce i prefix val cname rnum off b
  unfolding blk_right_part aes_eval_blocks sha_256 setup_aes_key eval_keyed_hash_batch
      eval_keyed_hash_batch_aes_ro
  blk_right_part-run key nonce i prefix val cname rnum off b =
      rw (prp_inv_eval_all-perm sk.params.block_len u.usable.block_max key u.usable.block_even) refl

  right_run-fault :
      (key : OreAesKey) (nonce : Block) (i prefix val : ℕ) (cname : List ℕ) (rnum off : ℕ) (b : Buf)
      → b.size ≡ off + right_block sk.params
      → right_run key nonce i prefix val cname rnum off b ≡ fault
  right_run-fault key nonce i prefix val cname rnum off b end =
      let params = sk.params in
      let width : right_block params ≡ cmp_bytes params * slots params =
        right_block-eq params u.usable
        ∙ ap (λ (n : ℕ). cmp_bytes params * n) (sym (slots-eq params u.usable)) in
      blk_slot_loop-short _ _ _ _ _ _ (slots params) off b
        (omega (arith, slots-eq params u.usable, pow_pos params.block_len))
        (omega (arith, end, width))

  -- The loop over the blocks faults at its last block, when it comes to it.
  blk_encrypt_loop-fault :
      (nonce : Block) (cname : List ℕ) (rnum msg left i mask prefix ol or : ℕ) (bl br : Buf)
      → 0 < left
      → ol + blk_left_block sk.params * left ≤ bl.size
      → br.size ≡ or + right_block sk.params * left
      → blk_encrypt_loop true sk nonce cname rnum msg left i mask prefix ol or bl br ≡ fault
  unfolding blk_encrypt_loop blk_encrypt_block
  blk_encrypt_loop-fault nonce cname rnum msg zero i mask prefix ol or bl br some_left room end =
      absurd (omega (arith, some_left))
  blk_encrypt_loop-fault nonce cname rnum msg (suc zero) i mask prefix ol or bl br some_left room
        end =
      let params = sk.params in
      let cur_block = shr (bit_and msg mask) (params.block_len * 0) in
      let (l, key, made, same_l) =
        blk_left_part-ok sk u.usable i prefix cur_block ol bl
          (omega (arith, room, mul-suc (blk_left_block params) 0)) in
      let stops =
        blk_right_part-run key nonce i prefix cur_block cname rnum or br
        ∙ right_run-fault key nonce i prefix cur_block cname rnum or br
            (omega (arith, end, mul-suc (right_block params) 0)) in
      rw (made, stops) refl
  blk_encrypt_loop-fault nonce cname rnum msg (suc (suc left)) i mask prefix ol or bl br some_left
        room end =
      let params = sk.params in
      let cur_block = shr (bit_and msg mask) (params.block_len * suc left) in
      let all_l = mul-suc (blk_left_block params) (suc left) in
      let all_r = mul-suc (right_block params) (suc left) in
      let (l, key, made, same_l) =
        blk_left_part-ok sk u.usable i prefix cur_block ol bl (omega (arith, room, all_l)) in
      let run = blk_right_part-run key nonce i prefix cur_block cname rnum or br in
      elim (blk_slot_loop-either _ _ _ _ _ _ (slots params) 0 or br) [
        | inl stops ↦ rw (made, run ∙ stops) refl
        | inr (r, runs, same_r) ↦
            let rest =
              blk_encrypt_loop-fault nonce cname rnum msg (suc left) (suc i)
                (shr mask params.block_len) (bit_or (shl64 prefix params.block_len) cur_block)
                (ol + blk_left_block params) (or + right_block params) l r (omega arith)
                (omega (arith, room, all_l, same_l)) (omega (arith, end, all_r, same_r)) in
            rw (made, run ∙ runs) rest
      ]

  blk_len_right-eq : blk_len_right sk.params ≡ 16 + right_block sk.params * blocks sk.params
  unfolding blk_len_right ore_index_right_len
  blk_len_right-eq = right_len-eq sk.params u.usable

  -- With usable parameters for at most 32 bits in the shifts and a key and a ciphertext that are set up with
  -- them, but fewer than eight bytes for each slot and a right buffer of just the size that
  -- `init_ore_blk_ciphertext` asks for: `ore_blk_encrypt_ui` writes behind the end of the buffer, since
  -- it copies eight bytes for the last slot of the last block.
  pub ore_blk_encrypt_ui-fault :
      (ctxt : BlkCiphertext) (urandom : Option (List ℕ)) (prg : Prg) (msg : ℕ) (cname : List ℕ)
      (rnum : ℕ)
      → BlkReady sk ctxt
      → ctxt.comp_right.size ≡ blk_len_right sk.params
      → (ore_blk_encrypt_ui urandom true prg ctxt sk msg cname rnum).0 ≡ fault
  unfolding ore_blk_encrypt_ui blk_encrypt_body
  ore_blk_encrypt_ui-fault ctxt urandom prg msg cname rnum r exact =
      let nonce = (next_prg_block (seeded urandom prg)).0 in
      let (mask, top) = blk_top_mask-ok sk.params u.usable u.narrow in
      let (b1, head, same) =
        stored ctxt.comp_right 0 16 (to_value nonce) (omega (arith, r.right_room)) in
      let stops =
        blk_encrypt_loop-fault nonce cname rnum msg (blocks sk.params) 0 mask 0 0 16 ctxt.comp_left
          b1 (omega (arith, blocks_pos sk.params u.usable)) (omega (arith, r.left_room))
          (omega (arith, same, exact, blk_len_right-eq)) in
      let body : blk_encrypt_body true ctxt sk msg cname rnum nonce ≡ fault =
        rw (r.same, top, head, stops) refl in
      ap
        (λ g.
          (after_guards g (blk_encrypt_body true ctxt sk msg cname rnum nonce)
            (next_prg_block (seeded urandom prg)).1 prg).0)
        (blk_encrypt_guards-ok sk ctxt u.usable r)
      ∙ body
