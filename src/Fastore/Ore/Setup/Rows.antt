-- ===== src/Fastore/Ore/Setup/Rows.antt =====
-- The whole index: the loop over the blocks and `ore_index_setup`.
use asiaccs.Base.{ℕ, zero, suc, ◌+◌, ◌-◌, ◌*◌, ◌%◌, ◌^◌, ◌≤◌, ◌<◌}
use asiaccs.Base.{◌≡◌, refl, sym, ap, ◌∙◌, arith}
use asiaccs.Base.{true, List}
use asiaccs.Base.{ErrorCode, Outcome, ok, ◌>>=◌, guard}
use asiaccs.Base.{guard_pass}
use native.Mathlib.Nat.{mul-suc, mul-le-mul_left}
use asiaccs.Memory.{Buf, read, write}
use asiaccs.Memory.Laws.{read-write_self, read_congr, store-ok}
use asiaccs.Fastore.Platform.{Platform, Block, make_block, to_value, of_value, of_value-to_value}
use asiaccs.Fastore.Ore.{OreKey, OreIndex, blocks, right_block}
use asiaccs.Fastore.Ore.{cmp_bytes, c_string}
use asiaccs.Fastore.Ore.Hash.{Prg, next_prg_block}
use asiaccs.Fastore.Ore.Sizes.{IsUsable, is_valid, blocks_pos, right_block-eq}
use asiaccs.Fastore.Ore.Digits.{lead, digit, mask_at, mask_at_next, cut_block-digit}
use asiaccs.Fastore.Ore.Digits.{next_prefix-lead, top_mask-mask_at, lead_top}
use asiaccs.Fastore.Ore.Cells.{IndexCell}
use asiaccs.Fastore.Ore.Setup.{index_loop, index_body, index_guards, ore_index_setup, top_mask}
use asiaccs.Fastore.Ore.Setup.Query.{encrypt-IsWide, fits-64}
use asiaccs.Fastore.Ore.Setup.Index.{index_block-IndexCell}

module _ ⦃p : Platform⦄ (sk : OreKey) (u : IsUsable sk.params) (hash_name rnum : ℕ)
    (nonce : Block) where
  pub IndexCell-congr :
      (i prefix cur o : ℕ) (m m' : ℕ → ℕ)
      → ((k : ℕ) → k < o + right_block sk.params → m k ≡ m' k)
      → IndexCell sk hash_name rnum nonce i prefix cur o m
      → IndexCell sk hash_name rnum nonce i prefix cur o m'
  IndexCell-congr i prefix cur o m m' same cell j h =
      let bytes = cmp_bytes sk.params in
      let inside : bytes * suc j ≤ bytes * 2 ^ sk.params.block_len = mul-le-mul_left bytes h in
      read_congr m' m bytes (o + bytes * j) (λ k a b.
        sym (same k (omega (arith, b, inside, mul-suc bytes j, right_block-eq sk.params u))))
      ∙ cell j h

  -- The cells of the blocks with `left` to go, from `o` on.
  abbrev pub IndexCells : ℕ → (left : ℕ) → ℕ → ℕ → (ℕ → ℕ) → Type 0
  IndexCells y zero i o m = Unit {0}
  IndexCells y (suc left) i o m =
      IndexCell sk hash_name rnum nonce i (lead sk.params.block_len y (suc left))
        (digit sk.params.block_len y left) o m
      × IndexCells y left (suc i) (o + right_block sk.params) m

  index_loop-IndexCells :
      (y left i o : ℕ) (buf : Buf)
      → y < 2 ^ 64
      → o + right_block sk.params * left ≤ buf.size
      → (buf' : Buf) × (index_loop true sk hash_name rnum nonce y left i
            (mask_at sk.params.block_len left)
            (lead sk.params.block_len y left)
            o
            buf
          ≡ ok buf')
        × (buf'.size ≡ buf.size)
        × IndexCells y left i o buf'.at
        × ((k : ℕ) → k < o → buf'.at k ≡ buf.at k)
  unfolding index_loop
  index_loop-IndexCells y zero i o buf small room = (buf, refl, refl, tt, λ k h. refl)
  index_loop-IndexCells y (suc left) i o buf small room =
      let bl = sk.params.block_len in
      let prefix = lead bl y (suc left) in
      let cur = digit bl y left in
      let (b1, runs, size, cell, below) =
        index_block-IndexCell sk u hash_name rnum nonce i prefix cur o buf
          (omega (arith, room, mul-suc (right_block sk.params) left)) in
      let (b2, runs', size', cells, below') =
        index_loop-IndexCells y left (suc i) (o + right_block sk.params) b1 small
          (omega (arith, size, room, mul-suc (right_block sk.params) left)) in
      (
        b2,
        rw
            (
              cut_block-digit sk.params u y left,
              mask_at_next bl left,
              next_prefix-lead sk.params u y left small,
              runs,
            )
            runs',
        size' ∙ size,
        (IndexCell-congr i prefix cur o b1.at b2.at (λ k h. sym (below' k h)) cell, cells),
        λ k h. below' k (omega arith) ∙ below k h,
      )

-- The fields that a caller has to set up.
pub record IndexReady (sk : OreKey) (y : ℕ) (c : OreIndex) : Type 0 where
  pub key_set : sk.initialized ≡ true
  pub set : c.initialized ≡ true
  pub fits : y < 2 ^ (sk.params.block_len * blocks sk.params)
  pub room : 16 + right_block sk.params * blocks sk.params ≤ c.comp_right.size

module _ ⦃p : Platform⦄ (sk : OreKey) (u : IsUsable sk.params) where
  -- The nonce that the generator gives next.
  abbrev pub nonce_of : Prg → Block
  nonce_of prg = (next_prg_block prg).0

  nonce-of_value : (prg : Prg) → of_value (to_value (nonce_of prg) % 256 ^ 16) ≡ nonce_of prg
  unfolding next_prg_block
  nonce-of_value prg = of_value-to_value _ (encrypt-IsWide prg.key (make_block 0 prg.counter))

  index_guards-ok : (y : ℕ) (c : OreIndex) → IndexReady sk y c → index_guards sk c ≡ ok tt
  unfolding index_guards
  index_guards-ok y c ready =
      guard_pass sk.initialized _ _ ready.key_set
      ∙ guard_pass c.initialized _ _ ready.set
      ∙ ap (λ b. guard b ErrorCode.params_invalid) (is_valid sk.params u)

  -- The checks passed, the nonce is drawn and the body runs.
  ore_index_setup-body :
      (prg : Prg) (c : OreIndex) (y rnum : ℕ) (cname : List ℕ)
      → index_guards sk c ≡ ok tt
      → ore_index_setup true prg c sk y cname rnum
        ≡ (index_body true c sk y cname rnum (nonce_of prg), (next_prg_block prg).1)
  unfolding ore_index_setup
  ore_index_setup-body prg c y rnum cname e = rw (e, ore_index_setup)

  index_body-loop :
      (c : OreIndex) (y rnum : ℕ) (cname : List ℕ) (nonce : Block) (b : Buf)
      → IndexReady sk y c
      → index_loop true sk
          (p.sha256 (c_string cname))
          rnum
          nonce
          y
          (blocks sk.params)
          0
          (mask_at sk.params.block_len (blocks sk.params))
          (lead sk.params.block_len y (blocks sk.params))
          16
          (record { size = c.comp_right.size; at = write c.comp_right.at 0 16 (to_value nonce) })
        ≡ ok b
      → index_body true c sk y cname rnum nonce ≡ ok (record c { comp_right = b })
  unfolding index_body
  index_body-loop c y rnum cname nonce b ready runs =
      let n = blocks sk.params in
      let bl = sk.params.block_len in
      let hash_name = p.sha256 (c_string cname) in
      let b0 : Buf = record {
        size = c.comp_right.size;
        at = write c.comp_right.at 0 16 (to_value nonce);
      } in
      let mask : top_mask sk.params ≡ mask_at bl n =
        top_mask-mask_at sk.params u (n - 1) (blocks_pos sk.params u)
        ∙ ap (mask_at bl) (sym (blocks_pos sk.params u)) in
      ap
        (λ s. s >>= λ x.
          index_loop true sk hash_name rnum nonce y n 0 (top_mask sk.params) 0 16 x >>= keep)
        (store-ok c.comp_right 0 16 (to_value nonce) (omega (arith, ready.room)))
      ∙ ap (λ m. index_loop true sk hash_name rnum nonce y n 0 m 0 16 b0 >>= keep) mask
      ∙ ap (λ z. index_loop true sk hash_name rnum nonce y n 0 (mask_at bl n) z 16 b0 >>= keep)
          (sym (lead_top bl y n ready.fits))
      ∙ ap (λ o. o >>= keep) runs
    where
      keep : Buf → Outcome OreIndex
      keep buf = ok (record c { comp_right = buf })

  -- With usable parameters, a key and an index that are set up, a buffer of at least the needed size,
  -- a value that fits the blocks and memory at hand: `ore_index_setup` succeeds, steps the generator
  -- once, keeps the index set up and its buffer as large, and leaves the nonce of the generator
  -- followed, for each block from the top one on and each slot, by the hash of the key of the slot at
  -- the nonce, masked by the token of the slot and the row unless the slot stands for the digit.
  pub ore_index_setup-IndexCells :
      (prg : Prg) (c : OreIndex) (y rnum : ℕ) (cname : List ℕ)
      → IndexReady sk y c
      → (c' : OreIndex) × (ore_index_setup true prg c sk y cname rnum
          ≡ (ok c', (next_prg_block prg).1))
        × (c'.initialized ≡ true)
        × (c'.comp_right.size ≡ c.comp_right.size)
        × (of_value (read c'.comp_right.at 0 16) ≡ nonce_of prg)
        × IndexCells sk u
            (p.sha256 (c_string cname))
            rnum
            (nonce_of prg)
            y
            (blocks sk.params)
            0
            16
            c'.comp_right.at
  ore_index_setup-IndexCells prg c y rnum cname ready =
      let n = blocks sk.params in
      let bl = sk.params.block_len in
      let hash_name = p.sha256 (c_string cname) in
      let nonce = nonce_of prg in
      let b0 : Buf = record {
        size = c.comp_right.size;
        at = write c.comp_right.at 0 16 (to_value nonce);
      } in
      let (b, runs, size, cells, below) =
        index_loop-IndexCells sk u hash_name rnum nonce y n 0 16 b0 (fits-64 sk u y ready.fits)
          ready.room in
      (
        record c { comp_right = b },
        ore_index_setup-body prg c y rnum cname (index_guards-ok y c ready)
            ∙ ap (λ r. (r, (next_prg_block prg).1))
                (index_body-loop c y rnum cname nonce b ready runs),
        ready.set,
        size,
        ap of_value (
              read_congr b.at b0.at 16 0 (λ k x z. below k z)
              ∙ read-write_self c.comp_right.at 0 16 (to_value nonce))
            ∙ nonce-of_value prg,
        cells,
      )
