-- ===== src/Fastore/Aes/Batch.antt =====
-- The array and the three-block versions of AES against the version for one block.
use asiaccs.Base.{ℕ, zero, suc, List, [], ◌∷◌, map, ◌≡◌, refl, ap, ◌∙◌}
use asiaccs.Fastore.Platform.{Platform, Block}
use asiaccs.Fastore.Aes.{OreAesKey, middle_rounds, middle_rounds_blks, middle_rounds_blks_3}
use asiaccs.Fastore.Aes.{ecb_encrypt_blk, ecb_encrypt_blks, ecb_encrypt_blks_3, sched}

map-map :
    {A B C : Type 0} (g : B → C) (f : A → B) (xs : List A)
    → map g (map f xs) ≡ map (λ x. g (f x)) xs
map-map g f [] = refl
map-map g f (x ∷ xs) = ap (◌∷◌ (g (f x))) (map-map g f xs)

map_id : {A : Type 0} (xs : List A) → xs ≡ map (λ x. x) xs
map_id [] = refl
map_id (x ∷ xs) = ap (◌∷◌ x) (map_id xs)

module _ ⦃p : Platform⦄ where
  middle_rounds_blks-map :
      (key : OreAesKey) (left j : ℕ) (bs : List Block)
      → middle_rounds_blks key left j bs ≡ map (middle_rounds key left j) bs
  unfolding middle_rounds_blks middle_rounds
  middle_rounds_blks-map key zero j bs = map_id bs
  middle_rounds_blks-map key (suc left) j bs =
      middle_rounds_blks-map key left (suc j) (map (λ b. p.aesenc_si128 b (sched key j)) bs)
      ∙ map-map (middle_rounds key left (suc j)) (λ b. p.aesenc_si128 b (sched key j)) bs

  -- `AES_ecb_encrypt_blks`, which goes round by round over the array, encrypts each block as
  -- `AES_ecb_encrypt_blk` does.
  pub encrypt_blks-map :
      (key : OreAesKey) (bs : List Block) → ecb_encrypt_blks key bs ≡ map (ecb_encrypt_blk key) bs
  unfolding ecb_encrypt_blks ecb_encrypt_blk
  encrypt_blks-map key bs = rw middle_rounds_blks-map (ap (map _) (map-map _ _ bs) ∙ map-map _ _ bs)

  middle_rounds_blks_3_lem :
      (key : OreAesKey) (left j : ℕ) (a b c : Block)
      → middle_rounds_blks_3 key left j (a, b, c)
        ≡ (middle_rounds key left j a, middle_rounds key left j b, middle_rounds key left j c)
  unfolding middle_rounds_blks_3 middle_rounds
  middle_rounds_blks_3_lem key zero j a b c = refl
  middle_rounds_blks_3_lem key (suc left) j a b c = middle_rounds_blks_3_lem key left (suc j) _ _ _

  pub encrypt_blks_3-eq :
      (key : OreAesKey) (a b c : Block)
      → ecb_encrypt_blks_3 key (a, b, c)
        ≡ (ecb_encrypt_blk key a, ecb_encrypt_blk key b, ecb_encrypt_blk key c)
  unfolding ecb_encrypt_blks_3 ecb_encrypt_blk
  encrypt_blks_3-eq key a b c = rw middle_rounds_blks_3_lem
