-- ===== src/Fastore/Ore/Setup/Query.antt =====
-- What `ore_query_setup` leaves in the buffer of a query.
use asiaccs.Base.{ℕ, zero, suc, ◌+◌, ◌-◌, ◌*◌, ◌/◌, ◌^◌, ◌≤◌, ◌<◌}
use asiaccs.Base.{◌≡◌, refl, sym, ap, ◌∙◌, inl, arith}
use asiaccs.Base.{true, false, some, List}
use asiaccs.Base.{shl64}
use asiaccs.Base.{pow_le}
use asiaccs.Base.{bytes_hold, Outcome, ok, ◌>>=◌}
use asiaccs.Base.{guard_pass}
use native.Mathlib.Nat.{mod-eq_of_lt, mul-suc}
use asiaccs.Memory.{Buf, write}
use asiaccs.Memory.Laws.{read-write_self, read-write_disjoint, write_outside, store-ok}
use asiaccs.Fastore.Platform.{Platform, Block, IsWide, to_value, of_value}
use asiaccs.Fastore.Platform.{of_value-to_value}
use asiaccs.Fastore.Aes.{OreAesKey, ecb_encrypt_blk}
use asiaccs.Fastore.Prp.Inverse.{perm, perm-lt, prp_eval-perm}
use asiaccs.Fastore.Ore.{OreKey, OreQuery, ore_is_valid_params, ceil, blocks, left_block, c_string}
use asiaccs.Fastore.Ore.Sizes.{IsUsable, pix_fits, is_valid, blocks_pos}
use asiaccs.Fastore.Ore.Digits.{lead, digit, mask_at, digit-lt, mask_at_next, cut_block-digit}
use asiaccs.Fastore.Ore.Digits.{next_prefix-lead, top_mask-mask_at, lead_top}
use asiaccs.Fastore.Ore.Cells.{prp_of, pix_of, slot_key, token, QueryCell, QueryCell-congr}
use asiaccs.Fastore.Ore.Setup.{query_block, query_loop, ore_query_setup, top_mask}

-- The encryption of a block fills its 128 bits.
pub encrypt-IsWide : ⦃p : Platform⦄ (key : OreAesKey) (b : Block) → IsWide (ecb_encrypt_blk key b)
unfolding ecb_encrypt_blk
encrypt-IsWide ⦃p⦄ key b = p.aesenclast_width _ _

module _ ⦃p : Platform⦄ (sk : OreKey) (u : IsUsable sk.params) (hash_name aim : ℕ) where
  abbrev width : ℕ
  width = ceil sk.params.block_len 8

  -- The buffer after the three copies of one round.
  three_writes : Block → Block → ℕ → ℕ → (ℕ → ℕ) → ℕ → ℕ
  three_writes key fcmp pix o m =
      write (write (write m o 16 (to_value key)) (o + 16) 16 (to_value fcmp)) (o + 16 * 2) width pix

  query_block-writes :
      (i prefix cur o : ℕ) (buf : Buf)
      → cur < 2 ^ sk.params.block_len
      → o + left_block sk.params ≤ buf.size
      → query_block sk hash_name aim i prefix cur o buf
        ≡ ok (record {
          size = buf.size;
          at =
              three_writes
                (slot_key sk hash_name i prefix (pix_of sk hash_name i prefix cur))
                (token sk hash_name (pix_of sk hash_name i prefix cur) aim)
                (pix_of sk hash_name i prefix cur)
                o
                buf.at;
        })
  unfolding query_block three_writes slot_key token pix_of prp_of
  query_block-writes i prefix cur o buf small room =
      let bl = sk.params.block_len in
      let prp_key = prp_of sk hash_name i prefix in
      let narrow : bl ≤ 64 = omega (arith, u.block_max) in
      let pix = perm prp_key bl false cur in
      let pix-lt : pix < 2 ^ bl = perm-lt prp_key bl u.block_even narrow false cur small in
      let shifted : shl64 pix 8 ≡ pix * 2 ^ 8 =
        mod-eq_of_lt (omega (arith, pix-lt, pow_le bl 16 u.block_max)) in
      let fits = pix_fits sk.params u in
      let key = to_value (slot_key sk hash_name i prefix pix) in
      let fcmp = to_value (token sk hash_name pix aim) in
      let b1 : Buf = record { size = buf.size; at = write buf.at o 16 key } in
      let b2 : Buf = record { size = buf.size; at = write b1.at (o + 16) 16 fcmp } in
      rw
        (
          prp_eval-perm prp_key bl u.block_even narrow cur small,
          shifted,
          store-ok buf o 16 key (omega (arith, room, fits)),
          store-ok b1 (o + 16) 16 fcmp (omega (arith, room, fits)),
          store-ok b2 (o + 16 * 2) width pix (omega (arith, room, fits)),
        )
        refl

  pub pix_of-lt :
      (i prefix cur : ℕ)
      → cur < 2 ^ sk.params.block_len
      → pix_of sk hash_name i prefix cur < 2 ^ sk.params.block_len
  unfolding pix_of
  pix_of-lt i prefix cur small =
      perm-lt (prp_of sk hash_name i prefix) sk.params.block_len u.block_even
        (omega (arith, u.block_max)) false cur small

  pix_of-fits :
      (i prefix cur : ℕ)
      → cur < 2 ^ sk.params.block_len
      → pix_of sk hash_name i prefix cur < 256 ^ width
  pix_of-fits i prefix cur small =
      rw width-eq (bytes_hold sk.params.block_len (pix_of-lt i prefix cur small))
    where
      width-eq : width ≡ (sk.params.block_len + 7) / 8
      width-eq = omega (arith, u.block_max)

  -- The three values are read back, and nothing before `o` has changed.
  three_writes-QueryCell :
      (i prefix cur o : ℕ) (m : ℕ → ℕ)
      → cur < 2 ^ sk.params.block_len
      → QueryCell sk hash_name aim i prefix cur o (
          three_writes
            (slot_key sk hash_name i prefix (pix_of sk hash_name i prefix cur))
            (token sk hash_name (pix_of sk hash_name i prefix cur) aim)
            (pix_of sk hash_name i prefix cur)
            o
            m)
  unfolding three_writes
  three_writes-QueryCell i prefix cur o m small =
      let pix = pix_of sk hash_name i prefix cur in
      let key = slot_key sk hash_name i prefix pix in
      let fcmp = token sk hash_name pix aim in
      let m1 = write m o 16 (to_value key) in
      let m2 = write m1 (o + 16) 16 (to_value fcmp) in
      record {
        key =
            ap of_value (
              read-write_disjoint m2 (o + 16 * 2) width pix o 16 (inl (omega arith))
              ∙ read-write_disjoint m1 (o + 16) 16 (to_value fcmp) o 16 (inl (omega arith))
              ∙ read-write_self m o 16 (to_value key))
            ∙ of_value-to_value key (unfold slot_key in encrypt-IsWide _ _);
        aimed =
            ap of_value (
              read-write_disjoint m2 (o + 16 * 2) width pix (o + 16) 16 (inl (omega arith))
              ∙ read-write_self m1 (o + 16) 16 (to_value fcmp))
            ∙ of_value-to_value fcmp (unfold token in encrypt-IsWide _ _);
        pix =
            read-write_self m2 (o + 16 * 2) width pix
            ∙ mod-eq_of_lt (pix_of-fits i prefix cur small);
      }

  three_writes_below :
      (key fcmp : Block) (pix o : ℕ) (m : ℕ → ℕ) (k : ℕ)
      → k < o
      → three_writes key fcmp pix o m k ≡ m k
  unfolding three_writes
  three_writes_below key fcmp pix o m k h =
      let m1 = write m o 16 (to_value key) in
      let m2 = write m1 (o + 16) 16 (to_value fcmp) in
      write_outside m2 (o + 16 * 2) width pix k (inl (omega arith))
      ∙ write_outside m1 (o + 16) 16 (to_value fcmp) k (inl (omega arith))
      ∙ write_outside m o 16 (to_value key) k (inl h)

  -- Block `i` after its round, with the blocks before it unchanged.
  query_block-QueryCell :
      (i prefix cur o : ℕ) (buf : Buf)
      → cur < 2 ^ sk.params.block_len
      → o + left_block sk.params ≤ buf.size
      → (buf' : Buf) × (query_block sk hash_name aim i prefix cur o buf ≡ ok buf')
        × (buf'.size ≡ buf.size)
        × QueryCell sk hash_name aim i prefix cur o buf'.at
        × ((k : ℕ) → k < o → buf'.at k ≡ buf.at k)
  query_block-QueryCell i prefix cur o buf small room =
      let pix = pix_of sk hash_name i prefix cur in
      let key = slot_key sk hash_name i prefix pix in
      let fcmp = token sk hash_name pix aim in
      (
        record { size = buf.size; at = three_writes key fcmp pix o buf.at },
        query_block-writes i prefix cur o buf small room,
        refl,
        three_writes-QueryCell i prefix cur o buf.at small,
        λ k h. three_writes_below key fcmp pix o buf.at k h,
      )

  -- The cells of the blocks with `left` to go, from `o` on.
  abbrev pub QueryCells : ℕ → (left : ℕ) → ℕ → ℕ → (ℕ → ℕ) → Type 0
  QueryCells x zero i o m = Unit {0}
  QueryCells x (suc left) i o m =
      QueryCell sk hash_name aim i (lead sk.params.block_len x (suc left))
        (digit sk.params.block_len x left) o m
      × QueryCells x left (suc i) (o + left_block sk.params) m

  query_loop-QueryCells :
      (x left i o : ℕ) (buf : Buf)
      → x < 2 ^ 64
      → o + left_block sk.params * left ≤ buf.size
      → (buf' : Buf) × (query_loop sk hash_name aim x left i
            (mask_at sk.params.block_len left)
            (lead sk.params.block_len x left)
            o
            buf
          ≡ ok buf')
        × (buf'.size ≡ buf.size)
        × QueryCells x left i o buf'.at
        × ((k : ℕ) → k < o → buf'.at k ≡ buf.at k)
  unfolding query_loop
  query_loop-QueryCells x zero i o buf small room = (buf, refl, refl, tt, λ k h. refl)
  query_loop-QueryCells x (suc left) i o buf small room =
      let bl = sk.params.block_len in
      let prefix = lead bl x (suc left) in
      let cur = digit bl x left in
      let (b1, runs, size, cell, below) =
        query_block-QueryCell i prefix cur o buf (digit-lt bl x left)
          (omega (arith, room, mul-suc (left_block sk.params) left)) in
      let (b2, runs', size', cells, below') =
        query_loop-QueryCells x left (suc i) (o + left_block sk.params) b1 small
          (omega (arith, size, room, mul-suc (left_block sk.params) left)) in
      (
        b2,
        rw
            (
              cut_block-digit sk.params u x left,
              mask_at_next bl left,
              next_prefix-lead sk.params u x left small,
              runs,
            )
            runs',
        size' ∙ size,
        (
          QueryCell-congr sk hash_name aim i prefix cur o b1.at b2.at (λ k h. sym (below' k h))
              (pix_fits sk.params u) cell,
          cells,
        ),
        λ k h. below' k (omega arith) ∙ below k h,
      )

-- The fields that a caller has to set up.
pub record QueryReady (sk : OreKey) (x : ℕ) (q : OreQuery) : Type 0 where
  pub key_set : sk.initialized ≡ true
  pub set : q.initialized ≡ true
  pub fits : x < 2 ^ (sk.params.block_len * blocks sk.params)
  pub room : left_block sk.params * blocks sk.params ≤ q.comp_left.size

module _ ⦃p : Platform⦄ (sk : OreKey) (u : IsUsable sk.params) where
  pub fits-64 : (x : ℕ) → x < 2 ^ (sk.params.block_len * blocks sk.params) → x < 2 ^ 64
  fits-64 x h = omega (arith, h, pow_le (sk.params.block_len * blocks sk.params) 64 u.room)

  -- With usable parameters, a key and a query that are set up, a buffer of at least the needed size
  -- and a value that fits the blocks: `ore_query_setup` succeeds, keeps the query set up and its
  -- buffer as large, and leaves for each block, from the top one on, the key of the slot of its digit
  -- after the prefix, the token of that slot for the aim, and the permuted digit.
  pub ore_query_setup-QueryCells :
      (x aim : ℕ) (cname : List ℕ) (q : OreQuery)
      → QueryReady sk x q
      → (q' : OreQuery) × (ore_query_setup (some q) sk x cname aim ≡ ok q')
        × (q'.initialized ≡ true)
        × (q'.comp_left.size ≡ q.comp_left.size)
        × QueryCells sk u (p.sha256 (c_string cname)) aim x (blocks sk.params) 0 0 q'.comp_left.at
  unfolding ore_query_setup
  ore_query_setup-QueryCells x aim cname q ready =
      let n = blocks sk.params in
      let bl = sk.params.block_len in
      let hash_name = p.sha256 (c_string cname) in
      let (b, runs, size, cells, below) =
        query_loop-QueryCells sk u hash_name aim x n 0 0 q.comp_left (fits-64 x ready.fits)
          (omega (arith, ready.room)) in
      let mask : top_mask sk.params ≡ mask_at bl n =
        top_mask-mask_at sk.params u (n - 1) (blocks_pos sk.params u)
        ∙ ap (mask_at bl) (sym (blocks_pos sk.params u)) in
      (
        record q { comp_left = b },
        guard_pass sk.initialized _ _ ready.key_set
            ∙ guard_pass q.initialized _ _ ready.set
            ∙ guard_pass (ore_is_valid_params sk.params) _ _ (is_valid sk.params u)
            ∙ ap (λ m. query_loop sk hash_name aim x n 0 m 0 0 q.comp_left >>= keep) mask
            ∙ ap (λ z. query_loop sk hash_name aim x n 0 (mask_at bl n) z 0 q.comp_left >>= keep)
                (sym (lead_top bl x n ready.fits))
            ∙ ap (λ o. o >>= keep) runs,
        ready.set,
        size,
        cells,
      )
    where
      keep : Buf → Outcome OreQuery
      keep buf = ok (record q { comp_left = buf })
