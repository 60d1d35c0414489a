-- ===== src/Fastore/Ore/Compare/Blocks.antt =====
-- One round of `ore_compare` on a block of a query and the same block of an index.
use asiaccs.Base.{ℕ, suc, ◌+◌, ◌*◌, ◌^◌, ◌≤◌, ◌<◌, bit_and, bit_xor}
use asiaccs.Base.{◌≡◌, refl, ap, ◌∙◌, ◌≢◌, ◌⊎◌, inl, inr, arith}
use asiaccs.Base.{true, false, Option, none, some}
use asiaccs.Base.{ltb, ◌==◌, if◌then◌else◌, Bool-cases}
use asiaccs.Base.{ok}
use native.Mathlib.Nat.{mod-eq_of_lt, mul-suc, mul_comm, mul-le-mul_left}
use asiaccs.Memory.{Buf, load}
use asiaccs.Memory.Laws.{load-ok}
use asiaccs.Bits.Xor.{xor_self, xor_cancel_left}
use asiaccs.Fastore.Platform.{Platform, Block, make_block}
use asiaccs.Fastore.Aes.{key_expansion}
use asiaccs.Fastore.Prp.Inverse.{perm, perm_undo}
use asiaccs.Fastore.Ore.{OreKey, ceil, cmp_bytes, left_block, right_block}
use asiaccs.Fastore.Ore.Hash.{mask64, eval_keyed_hash}
use asiaccs.Fastore.Ore.Sizes.{IsUsable, pix_fits, right_block-eq, bit_and-mask64}
use asiaccs.Fastore.Ore.Cells.{prp_of, pix_of, slot_key, row_token, hash_at, slot_value}
use asiaccs.Fastore.Ore.Cells.{QueryCell, IndexCell}
use asiaccs.Fastore.Ore.Setup.{flag_of}
use asiaccs.Fastore.Ore.Setup.Query.{pix_of-lt}
use asiaccs.Fastore.Ore.Setup.Index.{slot_value-lt}
use asiaccs.Fastore.Ore.Compare.{Answer, one, minus_one, compare_block}

-- The answer of a block: go on at equal values, else say whether the flag is the aim.
abbrev pub block_answer : ℕ → ℕ → ℕ → Option Answer
block_answer aim x y =
    if x == y then none else if flag_of x y == aim then some one else some minus_one

-- No two tokens of a slot collide after the cut, and none is cut to zero.
abbrev pub Separates : ⦃p : Platform⦄ → OreKey → ℕ → ℕ → Type 0
Separates sk hash_name rnum =
    (j : ℕ)
    → j < 2 ^ sk.params.block_len
    → (row_token sk hash_name rnum j 1 ≢ 0)
      × (row_token sk hash_name rnum j 3 ≢ 0)
      × (row_token sk hash_name rnum j 1 ≢ row_token sk hash_name rnum j 3)

-- A query asks for smaller or for larger.
abbrev pub IsAim : ℕ → Type 0
IsAim aim = (aim ≡ 1) ⊎ (aim ≡ 3)

-- The decision of a round, from the value under the mask and the token.
abbrev pub decide : ℕ → ℕ → Option Answer
decide r g = if r == 0 then none else if g == r then some one else some minus_one

-- With tokens that differ the decision is the answer of the block.
decide-block_answer :
    (t : ℕ → ℕ) (aim x y : ℕ)
    → IsAim aim
    → t 1 ≢ 0
    → t 3 ≢ 0
    → t 1 ≢ t 3
    → decide (if flag_of x y == 2 then 0 else t (flag_of x y)) (t aim) ≡ block_answer aim x y
decide-block_answer t aim x y ia n1 n3 n13 = elim (Bool-cases (x == y)) [
  | inl e ↦ rw e
  | inr e ↦ elim (Bool-cases (ltb x y)) [
    | inl l ↦ elim ia [ inl a ↦ rw (e, l, a) (ground arith) | inr a ↦ rw (e, l, a) (ground arith) ]
    | inr l ↦ elim ia [ inl a ↦ rw (e, l, a) (ground arith) | inr a ↦ rw (e, l, a) (ground arith) ]
  ]
]

module _ ⦃p : Platform⦄ (sk : OreKey) (u : IsUsable sk.params) (hash_name rnum aim : ℕ) where
  -- The hash of the slot key takes the mask of the slot off again.
  unmasked :
      (nonce : Block) (i prefix cur j : ℕ)
      → let v = flag_of (perm (prp_of sk hash_name i prefix) sk.params.block_len true j) cur in
        bit_xor
          (hash_at sk hash_name nonce (slot_key sk hash_name i prefix j))
          (bit_and (slot_value sk hash_name rnum nonce i prefix cur j) (mask64 sk.params.cmp_len))
        ≡ (if v == 2 then 0 else row_token sk hash_name rnum j v)
  unmasked nonce i prefix cur j =
      let value = slot_value sk hash_name rnum nonce i prefix cur j in
      ap (bit_xor (hash_at sk hash_name nonce (slot_key sk hash_name i prefix j))) (
        bit_and-mask64 sk.params.cmp_len value u.cmp_max
        ∙ mod-eq_of_lt (slot_value-lt sk u hash_name rnum nonce i prefix cur j))
      ∙ cancelled
    where
      cancelled :
          bit_xor
            (hash_at sk hash_name nonce (slot_key sk hash_name i prefix j))
            (slot_value sk hash_name rnum nonce i prefix cur j)
          ≡ (if flag_of (perm (prp_of sk hash_name i prefix) sk.params.block_len true j) cur == 2
              then 0
              else row_token sk hash_name rnum j
                  (flag_of (perm (prp_of sk hash_name i prefix) sk.params.block_len true j) cur))
      cancelled =
          unfold slot_value in
          let v = flag_of (perm (prp_of sk hash_name i prefix) sk.params.block_len true j) cur in
          elim (Bool-cases (v == 2)) [
            | inl e ↦ rw e (xor_self _)
            | inr e ↦ rw e (xor_cancel_left _ _)
          ]

  -- The slot of a permuted value carries the flag of that value.
  slot_of_pix :
      (i prefix x : ℕ)
      → x < 2 ^ sk.params.block_len
      → perm
          (prp_of sk hash_name i prefix)
          sk.params.block_len
          true
          (pix_of sk hash_name i prefix x)
        ≡ x
  unfolding pix_of
  slot_of_pix i prefix x h =
      perm_undo (prp_of sk hash_name i prefix) sk.params.block_len u.block_even
        (omega (arith, u.block_max)) false x h

  -- The loads of a round and what it computes from them.
  compare_block-decide :
      (nonce : Block) (i prefix x y o1 o2 : ℕ) (bq bi : Buf)
      → x < 2 ^ sk.params.block_len
      → o1 + left_block sk.params ≤ bq.size
      → o2 + right_block sk.params ≤ bi.size
      → QueryCell sk hash_name aim i prefix x o1 bq.at
      → IndexCell sk hash_name rnum nonce i prefix y o2 bi.at
      → let j = pix_of sk hash_name i prefix x in
        compare_block sk.params (key_expansion (make_block rnum 0)) nonce bq bi o1 o2
        ≡ ok (
            decide
              (bit_xor (hash_at sk hash_name nonce (slot_key sk hash_name i prefix j)) (
                bit_and
                  (slot_value sk hash_name rnum nonce i prefix y j)
                  (mask64 sk.params.cmp_len)))
              (row_token sk hash_name rnum j aim))
  unfolding compare_block hash_at row_token eval_keyed_hash
  compare_block-decide nonce i prefix x y o1 o2 bq bi small room1 room2 q c =
      let j = pix_of sk hash_name i prefix x in
      let bytes = cmp_bytes sk.params in
      let fits = pix_fits sk.params u in
      let j-lt : j < 2 ^ sk.params.block_len = pix_of-lt sk u hash_name aim i prefix x small in
      let inside : bytes * suc j ≤ bytes * 2 ^ sk.params.block_len = mul-le-mul_left bytes j-lt in
      let index : load bq (o1 + 16 * 2) (ceil sk.params.block_len 8) ≡ ok j =
        load-ok bq (o1 + 16 * 2) (ceil sk.params.block_len 8) (omega (arith, room1, fits))
        ∙ ap ok q.pix in
      let fcmp = load-ok bq (o1 + 16) 16 (omega (arith, room1, fits)) in
      let key_block = load-ok bq o1 16 (omega (arith, room1, fits)) in
      let right : load bi (o2 + j * bytes) bytes
          ≡ ok (slot_value sk hash_name rnum nonce i prefix y j) =
        ap (λ (t : ℕ). load bi (o2 + t) bytes) (mul_comm j bytes)
        ∙ load-ok bi (o2 + bytes * j) bytes
            (omega (arith, room2, inside, mul-suc bytes j, right_block-eq sk.params u))
        ∙ ap ok (c j j-lt) in
      rw (index, fcmp, key_block, q.aimed, q.key, right) refl

  -- One round gives the answer of the block.
  pub compare_block-answer :
      (nonce : Block) (i prefix x y o1 o2 : ℕ) (bq bi : Buf)
      → IsAim aim
      → Separates sk hash_name rnum
      → x < 2 ^ sk.params.block_len
      → o1 + left_block sk.params ≤ bq.size
      → o2 + right_block sk.params ≤ bi.size
      → QueryCell sk hash_name aim i prefix x o1 bq.at
      → IndexCell sk hash_name rnum nonce i prefix y o2 bi.at
      → compare_block sk.params (key_expansion (make_block rnum 0)) nonce bq bi o1 o2
        ≡ ok (block_answer aim x y)
  compare_block-answer nonce i prefix x y o1 o2 bq bi ia apart small room1 room2 q c =
      let j = pix_of sk hash_name i prefix x in
      let (n1, n3, n13) = apart j (pix_of-lt sk u hash_name aim i prefix x small) in
      compare_block-decide nonce i prefix x y o1 o2 bq bi small room1 room2 q c
      ∙ ap ok (
          ap (λ t. decide t (row_token sk hash_name rnum j aim)) (unmasked nonce i prefix y j)
          ∙ rw (slot_of_pix i prefix x small)
              (decide-block_answer (row_token sk hash_name rnum j) aim x y ia n1 n3 n13))
