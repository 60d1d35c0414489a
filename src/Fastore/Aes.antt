-- ===== src/Fastore/Aes.antt =====
-- fastore/aes.h: the key schedule and AES-128 on one block, on an array and on three blocks, over
-- the intrinsics.
pub mod Batch
use asiaccs.Base.{ℕ, zero, suc, ◌-◌, List, [], ◌∷◌, ◌++◌, map, get_or}
use asiaccs.Fastore.Platform.{Platform, Block}

-- `ORE_AES_KEY`. The schedule holds the blocks that the expansion writes, 11 of the 15.
pub record OreAesKey : Type 0 where
  pub rd_key : List Block
  pub rounds : ℕ

module _ ⦃p : Platform⦄ where
  -- `EXPAND_ASSIST(x0, x1, x2, x0, 255, c)` on `(x0, x2)`; `x1` is written before it is read.
  unfoldable pub expand_assist : Block × Block → ℕ → Block × Block
  expand_assist (x0, x2) c =
      let v2 = p.aeskeygenassist_si128 x0 c in
      let v3 = p.shuffle_ps x2 x0 16 in
      let v1 = p.xor_si128 x0 v3 in
      let v3' = p.shuffle_ps v3 v1 140 in
      let v1' = p.xor_si128 v1 v3' in (p.xor_si128 v1' (p.shuffle_epi32 v2 255), v3')

  unfoldable pub expand_from : Block × Block → List ℕ → List Block
  expand_from s [] = s.0 ∷ []
  expand_from s (c ∷ cs) = s.0 ∷ expand_from (expand_assist s c) cs

  abbrev aes_constants : List ℕ
  aes_constants = 1 ∷ 2 ∷ 4 ∷ 8 ∷ 16 ∷ 32 ∷ 64 ∷ 128 ∷ 27 ∷ 54 ∷ []

  -- `AES_128_Key_Expansion`
  unfoldable pub key_expansion : Block → OreAesKey
  unfolding expand_from expand_assist
  key_expansion userkey = record {
    rd_key = expand_from (userkey, p.setzero_si128) aes_constants;
    rounds = 10;
  }

  abbrev pub sched : OreAesKey → ℕ → Block
  sched key j = get_or key.rd_key j p.setzero_si128

  -- `for (j = ...; j < rnds; ++j) *blk = aesenc(*blk, sched[j])`, `left` rounds from `j`.
  unfoldable pub middle_rounds : OreAesKey → ℕ → ℕ → Block → Block
  middle_rounds key zero j b = b
  middle_rounds key (suc left) j b = middle_rounds key left (suc j) (p.aesenc_si128 b (sched key j))

  -- The value of `j` after the loop, which starts at 1.
  abbrev pub last_round : OreAesKey → ℕ
  last_round key = suc (key.rounds - 1)

  -- `AES_ecb_encrypt_blk`
  unfoldable pub ecb_encrypt_blk : OreAesKey → Block → Block
  ecb_encrypt_blk key b =
      p.aesenclast_si128 (middle_rounds key (key.rounds - 1) 1 (p.xor_si128 b (sched key 0)))
        (sched key (last_round key))

  pub middle_rounds_blks : OreAesKey → ℕ → ℕ → List Block → List Block
  middle_rounds_blks key zero j bs = bs
  middle_rounds_blks key (suc left) j bs =
      middle_rounds_blks key left (suc j) (map (λ b. p.aesenc_si128 b (sched key j)) bs)

  -- `AES_ecb_encrypt_blks`: each round goes over the whole array.
  unfoldable pub ecb_encrypt_blks : OreAesKey → List Block → List Block
  unfolding middle_rounds_blks
  ecb_encrypt_blks key bs =
      map (λ b. p.aesenclast_si128 b (sched key (last_round key)))
        (middle_rounds_blks key (key.rounds - 1) 1 (map (λ b. p.xor_si128 b (sched key 0)) bs))

  pub middle_rounds_blks_3 : OreAesKey → ℕ → ℕ → Block × Block × Block → Block × Block × Block
  middle_rounds_blks_3 key zero j s = s
  middle_rounds_blks_3 key (suc left) j (a, b, c) =
      let k = sched key j in
      middle_rounds_blks_3 key left (suc j)
        (p.aesenc_si128 a k, p.aesenc_si128 b k, p.aesenc_si128 c k)

  -- `AES_ecb_encrypt_blks_3`
  unfoldable pub ecb_encrypt_blks_3 : OreAesKey → Block × Block × Block → Block × Block × Block
  unfolding middle_rounds_blks_3
  ecb_encrypt_blks_3 key (a, b, c) =
      let k = sched key 0 in
      let last = sched key (last_round key) in
      let (x, y, z) =
        middle_rounds_blks_3 key (key.rounds - 1) 1
          (p.xor_si128 a k, p.xor_si128 b k, p.xor_si128 c k) in
      (p.aesenclast_si128 x last, p.aesenclast_si128 y last, p.aesenclast_si128 z last)
