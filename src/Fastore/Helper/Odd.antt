-- ===== src/Fastore/Helper/Odd.antt =====
-- fastore/OREHelper.cpp: odd block lengths, which pass every check of the parameters.
use asiaccs.Base.{ℕ, zero, suc, ◌%◌, ◌≤◌, ◌<◌}
use asiaccs.Base.{◌≡◌, refl, sym, ap, ◌∙◌, subst, arith}
use asiaccs.Base.{Bool, true, false, ◌&&◌, some, List, ◌++◌}
use asiaccs.Base.{leb, ◌==◌}
use asiaccs.Base.{tabulate}
use asiaccs.Base.{ErrorCode, ok, err}
use asiaccs.Memory.{Buf}
use asiaccs.Fastore.Platform.{Platform, make_block}
use asiaccs.Fastore.Aes.{OreAesKey, key_expansion, ecb_encrypt_blk}
use asiaccs.Fastore.Crypto.{setup_aes_key, aes_eval, sha_256}
use asiaccs.Fastore.Prp.{prp_eval, prp_eval_helper}
use asiaccs.Fastore.Ore.{
  OreParams, OreKey, blocks, c_string, ore_is_valid_params, ore_query_left_len,
}
use asiaccs.Fastore.Ore.Setup.{
  block_prp_key, query_block, query_loop, ore_query_setup, cut_block, top_mask,
}
use asiaccs.Fastore.Helper.{OreHelper, create_left, copy_out}
use asiaccs.Fastore.Helper.Parts.{aim_of}

-- A helper after `Init` with an odd block length: the parameters are valid, and there is a block to cut.
pub record IsOdd (h : OreHelper) : Type 0 where
  pub valid : ore_is_valid_params h.params ≡ true
  pub odd : h.params.block_len % 2 ≡ 1
  pub some_blocks : 0 < blocks h.params
  pub key_set : h.key.initialized ≡ true
  pub key_params : h.key.params ≡ h.params
  pub query_set : h.query.initialized ≡ true
  pub query_room : ore_query_left_len h.params ≤ h.query.comp_left.size

module _ ⦃p : Platform⦄ where
  prp_eval-odd :
      (key : OreAesKey) (x n : ℕ) → n % 2 ≡ 1 → prp_eval key x n ≡ err ErrorCode.prp_bitlen_invalid
  unfolding prp_eval prp_eval_helper
  prp_eval-odd key x n odd =
      let refused : (n % 2 == 0 && leb n 64) ≡ false = ground (arith, odd) in rw refused refl

  query_loop-odd :
      (sk : OreKey) (hash_name aim msg left i mask prefix o : ℕ) (b : Buf)
      → sk.params.block_len % 2 ≡ 1
      → 0 < left
      → query_loop sk hash_name aim msg left i mask prefix o b ≡ err ErrorCode.prp_bitlen_invalid
  unfolding query_loop query_block block_prp_key aes_eval setup_aes_key
  query_loop-odd sk hash_name aim msg zero i mask prefix o b odd some_left =
      absurd (omega (arith, some_left))
  query_loop-odd sk hash_name aim msg (suc left) i mask prefix o b odd some_left =
      let prp_key = key_expansion (ecb_encrypt_blk sk.prp_key (make_block i prefix)) in
      rw (prp_eval-odd prp_key (cut_block sk.params msg mask left) sk.params.block_len odd) refl

  ore_query_setup-odd :
      (h : OreHelper) (x aim : ℕ) (cname : List ℕ)
      → IsOdd h
      → ore_query_setup (some h.query) h.key x cname aim ≡ err ErrorCode.prp_bitlen_invalid
  unfolding ore_query_setup sha_256
  ore_query_setup-odd h x aim cname o =
      let refused =
        query_loop-odd h.key (p.sha256 (c_string cname)) aim x (blocks h.key.params) 0
          (top_mask h.key.params) 0 0 h.query.comp_left
          (ap (λ (z : OreParams). z.block_len % 2) o.key_params ∙ o.odd)
          (subst (λ z. 0 < blocks z) (sym o.key_params) o.some_blocks) in
      let valid : ore_is_valid_params h.key.params ≡ true =
        ap ore_is_valid_params o.key_params ∙ o.valid in
      rw (refused, o.key_set, o.query_set, valid) refl

  -- With an odd block length that the parameters are valid for, and a buffer of the caller that is
  -- large enough, `CreateLeft` succeeds and gives the old bytes of its buffer, whatever the value, the
  -- table, the column and the comparison are, and changes nothing: the error of `ore_query_setup` is lost.
  pub create_left-odd :
      (h : OreHelper) (len : ℕ) (above : Bool) (table col : List ℕ) (x : ℕ)
      → IsOdd h
      → ore_query_left_len h.params ≤ len
      → create_left h len above table col x
        ≡ ok (tabulate (ore_query_left_len h.params) 0 h.query.comp_left.at, h)
  unfolding create_left copy_out
  create_left-odd h len above table col x o room =
      let some_block : (h.params.block_len == 0) ≡ false = ground (arith, o.odd) in
      let long : leb (ore_query_left_len h.params) len ≡ true = ground (arith, room) in
      let inside : leb (ore_query_left_len h.params) h.query.comp_left.size ≡ true =
        ground (arith, o.query_room) in
      rw (some_block, long, ore_query_setup-odd h x (aim_of above) (table ++ col) o, inside) refl
