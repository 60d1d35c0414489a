-- ===== src/Fastore/Prp/All.antt =====
-- The evaluation of the permutation on its whole domain, array by array, is the evaluation value by
-- value.
use asiaccs.Base.{ℕ, zero, suc, ◌/◌, ◌%◌, ◌^◌, ◌≤◌, ◌<◌, bit_and, bit_xor}
use asiaccs.Base.{◌≡◌, refl, ap, ◌∙◌, arith}
use asiaccs.Base.{Bool, true, false, ◌&&◌, List, [], ◌∷◌, map}
use asiaccs.Base.{leb, ◌==◌}
use asiaccs.Base.{tabulate, tabulate_congr}
use asiaccs.Base.{map-tabulate}
use asiaccs.Base.{ok}
use asiaccs.Bits.{bit_and_mask}
use asiaccs.Fastore.Platform.{Platform, Block, make_block}
use asiaccs.Fastore.Aes.{OreAesKey, ecb_encrypt_blk, ecb_encrypt_blks}
use asiaccs.Fastore.Aes.Batch.{encrypt_blks-map}
use asiaccs.Fastore.Prp.{extract_blocks, join_blocks, ones64, swap_if, in_order, rounds, xor_masked}
use asiaccs.Fastore.Prp.{feistel_round, feistel_round_batch, rounds_batch, join_all, prp_key_expand}
use asiaccs.Fastore.Prp.{prp_eval_all_helper, prp_inv_eval_all}
use asiaccs.Fastore.Prp.Feistel.{shl64_one}
use asiaccs.Fastore.Prp.Inverse.{perm, extract_blocks-halves, join_blocks-whole, ones64_lem}
use asiaccs.Fastore.Prp.Inverse.{perm_halves-InRange}

xor_masked-tabulate :
    (mask n start : ℕ) (l : ℕ → ℕ) (o : ℕ → Block)
    → xor_masked mask (tabulate n start l) (tabulate n start o)
      ≡ tabulate n start (λ i. bit_xor (l i) (bit_and (o i).lo mask))
xor_masked-tabulate mask zero start l o = refl
xor_masked-tabulate mask (suc n) start l o =
    ap (◌∷◌ (bit_xor (l start) (bit_and (o start).lo mask)))
      (xor_masked-tabulate mask n (suc start) l o)

join_all-tabulate :
    (nbits n start : ℕ) (l r : ℕ → ℕ)
    → join_all nbits (tabulate n start l) (tabulate n start r)
      ≡ tabulate n start (λ i. join_blocks nbits (l i, r i))
join_all-tabulate nbits zero start l r = refl
join_all-tabulate nbits (suc n) start l r =
    ap (◌∷◌ (join_blocks nbits (l start, r start))) (join_all-tabulate nbits n (suc start) l r)

-- The two arrays of a family of states.
abbrev pub arrays : ℕ → (ℕ → ℕ × ℕ) → List ℕ × List ℕ
arrays n s = (tabulate n 0 (λ i. (s i).0), tabulate n 0 (λ i. (s i).1))

swap_if-arrays :
    (inv : Bool) (n : ℕ) (s : ℕ → ℕ × ℕ)
    → swap_if inv (arrays n s) ≡ arrays n (λ i. swap_if inv (s i))
swap_if-arrays true n s = refl
swap_if-arrays false n s = refl

module _ ⦃p : Platform⦄ (nbits : ℕ) (fits : nbits ≤ 16) where
  masked :
      (key : OreAesKey) (s : ℕ × ℕ)
      → bit_xor s.0 (bit_and (ecb_encrypt_blk key (make_block 0 s.1)).lo (ones64 (nbits / 2)))
        ≡ (feistel_round key nbits s).1
  unfolding feistel_round
  masked key (l, r) =
      let len = nbits / 2 in
      rw (ones64_lem len (omega arith), shl64_one len (omega arith))
        (ap (bit_xor l) (bit_and_mask len (ecb_encrypt_blk key (make_block 0 r)).lo))

  feistel_round_batch-arrays :
      (key : OreAesKey) (n : ℕ) (s : ℕ → ℕ × ℕ)
      → feistel_round_batch true key nbits (arrays n s)
        ≡ ok (arrays n (λ i. feistel_round key nbits (s i)))
  unfolding feistel_round_batch
  feistel_round_batch-arrays key n s =
      let outputs : ecb_encrypt_blks key (map (make_block 0) (arrays n s).1)
          ≡ tabulate n 0 (λ i. ecb_encrypt_blk key (make_block 0 (s i).1)) =
        encrypt_blks-map key (map (make_block 0) (arrays n s).1)
        ∙ ap (map (ecb_encrypt_blk key)) (map-tabulate n 0 (λ i. (s i).1) (make_block 0))
        ∙ map-tabulate n 0 (λ i. make_block 0 (s i).1) (ecb_encrypt_blk key) in
      rw outputs (λ i. ok (
        left_kept i,
        (xor_masked-tabulate _ n 0 (λ j. (s j).0) (λ j. ecb_encrypt_blk key (make_block 0 (s j).1))
              ∙ tabulate_congr n 0 _ _ (λ j a b. masked key (s j)))
            i,
      ))
    where
      left_kept : (arrays n s).1 ≡ tabulate n 0 (λ i. (feistel_round key nbits (s i)).0)
      left_kept = unfold feistel_round in refl

  rounds_batch-arrays :
      (ks : List OreAesKey) (n : ℕ) (s : ℕ → ℕ × ℕ)
      → rounds_batch true nbits ks (arrays n s) ≡ ok (arrays n (λ i. rounds nbits ks (s i)))
  unfolding rounds_batch rounds
  rounds_batch-arrays [] n s = refl
  rounds_batch-arrays (k ∷ ks) n s =
      rw (feistel_round_batch-arrays k n s)
        (rounds_batch-arrays ks n (λ i. feistel_round k nbits (s i)))

  pub eval_all-perm :
      (key : OreAesKey) (inv : Bool)
      → nbits % 2 ≡ 0
      → prp_eval_all_helper true key nbits inv ≡ ok (tabulate (2 ^ nbits) 0 (perm key nbits inv))
  unfolding prp_eval_all_helper perm
  eval_all-perm key inv even =
      let n = 2 ^ nbits in
      let ks = in_order inv (prp_key_expand key) in
      let start = λ (i : ℕ). swap_if inv (extract_blocks i nbits) in
      let end = λ (i : ℕ). swap_if inv (rounds nbits ks (start i)) in
      rw
        (
          narrow_ok,
          swap_if-arrays inv n (λ i. extract_blocks i nbits),
          rounds_batch-arrays ks n start,
          swap_if-arrays inv n (λ i. rounds nbits ks (start i)),
          join_all-tabulate nbits n 0 (λ i. (end i).0) (λ i. (end i).1),
        )
        (ap ok (tabulate_congr n 0 _ _ (λ i a b. pointwise i (omega arith))))
    where
      narrow_ok : (nbits % 2 == 0 && leb nbits 16) ≡ true
      narrow_ok = ground arith

      pointwise :
          (i : ℕ)
          → i < 2 ^ nbits
          → join_blocks nbits (
              swap_if inv (
                rounds nbits
                  (in_order inv (prp_key_expand key))
                  (swap_if inv (extract_blocks i nbits))))
            ≡ perm key nbits inv i
      pointwise i b = rw (extract_blocks-halves nbits even (omega arith) i b) (
          join_blocks-whole nbits even (omega arith) _
            (perm_halves-InRange key nbits even (omega arith) inv i b))

  -- For an even width of at most 16 bits and memory at hand, the batch inverse is the table of the
  -- single inverse permutation over the whole domain.
  pub prp_inv_eval_all-perm :
      (key : OreAesKey)
      → nbits % 2 ≡ 0
      → prp_inv_eval_all true key nbits ≡ ok (tabulate (2 ^ nbits) 0 (perm key nbits true))
  unfolding prp_inv_eval_all
  prp_inv_eval_all-perm key even = eval_all-perm key true even
