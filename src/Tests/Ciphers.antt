-- ===== src/Tests/Ciphers.antt =====
-- The block cipher and the permutation, with a key of the toy platform.
use asiaccs.Base.{◌≡◌, refl, arith, true, false}
use asiaccs.Base.{tabulate, ok, ◌>>=◌}
use asiaccs.Fastore.Platform.{make_block}
use asiaccs.Fastore.Aes.{OreAesKey, key_expansion, ecb_encrypt_blk}
use asiaccs.Fastore.Prp.{prp_eval_helper, prp_key_expand, prp_inv_eval_all}
use asiaccs.Fastore.Prp.Inverse.{perm, prp_eval_undo}
use asiaccs.Fastore.Prp.All.{prp_inv_eval_all-perm}
use asiaccs.Fastore.Prp.Keys.{window, prp_key_expand-window}
use asiaccs.Tests.Toy.{toy}

abbrev some_aes_key : OreAesKey
some_aes_key = key_expansion (make_block 3 231)

prp_eval_undo_example :
    (prp_eval_helper some_aes_key 5 4 false >>= λ y. prp_eval_helper some_aes_key y 4 true) ≡ ok 5
prp_eval_undo_example = prp_eval_undo some_aes_key 4 refl (omega arith) false 5 (omega arith)

prp_inv_eval_all-perm_example :
    prp_inv_eval_all true some_aes_key 4 ≡ ok (tabulate 16 0 (perm some_aes_key 4 true))
prp_inv_eval_all-perm_example = prp_inv_eval_all-perm 4 (omega arith) some_aes_key refl

prp_key_expand-window_example : prp_key_expand some_aes_key ≡ (
  key_expansion (
      window
        (ecb_encrypt_blk some_aes_key (make_block 0 0))
        (ecb_encrypt_blk some_aes_key (make_block 0 1))
        0),
  key_expansion (
      window
        (ecb_encrypt_blk some_aes_key (make_block 0 0))
        (ecb_encrypt_blk some_aes_key (make_block 0 1))
        1),
  key_expansion (
      window
        (ecb_encrypt_blk some_aes_key (make_block 0 0))
        (ecb_encrypt_blk some_aes_key (make_block 0 1))
        2),
)
prp_key_expand-window_example = prp_key_expand-window some_aes_key
