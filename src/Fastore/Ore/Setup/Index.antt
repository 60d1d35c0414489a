-- ===== src/Fastore/Ore/Setup/Index.antt =====
-- What `ore_index_setup` leaves in the buffer of an index.
use asiaccs.Base.{ℕ, zero, suc, ◌+◌, ◌*◌, ◌^◌, ◌≤◌, ◌<◌, bit_and, bit_or}
use asiaccs.Base.{◌≡◌, refl, ap, ◌∙◌, subst, ◌⊎◌, inl, inr, arith}
use asiaccs.Base.{true, List}
use asiaccs.Base.{◌==◌, Bool-cases}
use asiaccs.Base.{shl64, get_or}
use asiaccs.Base.{tabulate}
use asiaccs.Base.{map-tabulate, pow_pos}
use asiaccs.Base.{bytes_hold, ok}
use asiaccs.Base.{get_or-tabulate_zero}
use native.Mathlib.Nat.{mod-eq_of_lt, mod-lt, mul-suc, mul-le-mul_left}
use asiaccs.Memory.{Buf, read, write}
use asiaccs.Memory.Laws.{read-write_self, write_outside, store-ok, read_congr}
use asiaccs.Bits.Xor.{xor-lt}
use asiaccs.Fastore.Platform.{Platform, Block, make_block, of_value}
use asiaccs.Fastore.Aes.{ecb_encrypt_blks, key_expansion}
use asiaccs.Fastore.Aes.Batch.{encrypt_blks-map}
use asiaccs.Fastore.Prp.Inverse.{perm}
use asiaccs.Fastore.Prp.All.{prp_inv_eval_all-perm}
use asiaccs.Fastore.Ore.{OreKey, right_block}
use asiaccs.Fastore.Ore.{cmp_bytes}
use asiaccs.Fastore.Ore.Hash.{eval_keyed_hash_batch, mask64}
use asiaccs.Fastore.Ore.Sizes.{IsUsable, slots-eq, cmp_bytes-eq}
use asiaccs.Fastore.Ore.Sizes.{right_block-eq, bit_and-mask64}
use asiaccs.Fastore.Ore.Cells.{prp_of, slot_key, token, row_token, hash_at, slot_value, IndexCell}
use asiaccs.Fastore.Ore.Setup.{index_block, slot_loop}
use asiaccs.Fastore.Ore.Setup.{flag_of}

first_or_later : (j k : ℕ) → j ≤ k → (j ≡ k) ⊎ (suc j ≤ k)
first_or_later j k h = ground arith

module _ ⦃p : Platform⦄ (sk : OreKey) (u : IsUsable sk.params) (hash_name rnum : ℕ) where
  abbrev bytes : ℕ
  bytes = cmp_bytes sk.params

  cut-lt : (x : ℕ) → bit_and x (mask64 sk.params.cmp_len) < 2 ^ sk.params.cmp_len
  cut-lt x =
      rw (bit_and-mask64 sk.params.cmp_len x u.cmp_max) (mod-lt x (pow_pos sk.params.cmp_len))

  pub slot_value-lt :
      (nonce : Block) (i prefix cur j : ℕ)
      → slot_value sk hash_name rnum nonce i prefix cur j < 2 ^ sk.params.cmp_len
  unfolding slot_value hash_at row_token
  slot_value-lt nonce i prefix cur j =
      let v = flag_of (perm (prp_of sk hash_name i prefix) sk.params.block_len true j) cur in
      elim (Bool-cases (v == 2)) [
        | inl e ↦ rw e (cut-lt _)
        | inr e ↦ rw e (xor-lt sk.params.cmp_len _ _ (cut-lt _) (cut-lt _))
      ]

  pub slot_value-fits :
      (nonce : Block) (i prefix cur j : ℕ)
      → slot_value sk hash_name rnum nonce i prefix cur j < 256 ^ bytes
  slot_value-fits nonce i prefix cur j =
      rw (cmp_bytes-eq sk.params u)
        (bytes_hold sk.params.cmp_len (slot_value-lt nonce i prefix cur j))

  -- The slots from `j` on are written in order, and nothing before them changes.
  slot_loop-values :
      (nonce : Block) (i prefix cur : ℕ) (pi_inv r : List ℕ) (left j o : ℕ) (buf : Buf)
      → ((k : ℕ)
          → j ≤ k
          → k < j + left
          → (get_or pi_inv k 0 ≡ perm (prp_of sk hash_name i prefix) sk.params.block_len true k)
            × (get_or r k 0 ≡ hash_at sk hash_name nonce (slot_key sk hash_name i prefix k)))
      → o + bytes * (j + left) ≤ buf.size
      → (buf' : Buf) × (slot_loop sk.params
            (key_expansion (of_value hash_name))
            (key_expansion (make_block rnum 0))
            hash_name
            cur
            pi_inv
            r
            left
            j
            o
            buf
          ≡ ok buf')
        × (buf'.size ≡ buf.size)
        × ((k : ℕ)
            → j ≤ k
            → k < j + left
            → read buf'.at (o + bytes * k) bytes
              ≡ slot_value sk hash_name rnum nonce i prefix cur k)
        × ((k : ℕ) → k < o + bytes * j → buf'.at k ≡ buf.at k)
  unfolding slot_loop slot_value row_token token
  slot_loop-values nonce i prefix cur pi_inv r zero j o buf arrays room =
      (buf, refl, refl, λ k a b. absurd (omega arith), λ k h. refl)
  slot_loop-values nonce i prefix cur pi_inv r (suc left) j o buf arrays room =
      let value = slot_value sk hash_name rnum nonce i prefix cur j in
      let at = o + bytes * j in
      let b1 : Buf = record { size = buf.size; at = write buf.at at bytes value } in
      let next = mul-suc bytes j in
      let total : bytes * (j + suc left) ≡ bytes * (suc j + left) =
        ap (λ (t : ℕ). bytes * t) (shift j left) in
      let enough : bytes * suc j ≤ bytes * (suc j + left) = mul-le-mul_left bytes (omega arith) in
      let (b2, runs, size, values, below) =
        slot_loop-values nonce i prefix cur pi_inv r left (suc j) o b1
          (λ k a b. arrays k (omega arith) (omega arith)) (omega (arith, room, total)) in
      (
        b2,
        rw
            (
              (arrays j (omega arith) (omega arith)).0,
              (arrays j (omega arith) (omega arith)).1,
              store-ok buf at bytes value (omega (arith, room, total, enough, next)),
            )
            runs,
        size,
        λ k a b. elim (first_or_later j k a) [
          | inl e ↦
              subst
                (λ t.
                  read b2.at (o + bytes * t) bytes
                  ≡ slot_value sk hash_name rnum nonce i prefix cur t)
                e
                (read_congr b2.at (write buf.at at bytes value) bytes at
                    (λ c x y. below c (omega (arith, y, next)))
                  ∙ read-write_self buf.at at bytes value
                  ∙ mod-eq_of_lt (slot_value-fits nonce i prefix cur j))
          | inr h ↦ values k h (omega arith)
        ],
        λ k h. below k (omega (arith, next)) ∙ write_outside buf.at at bytes value k (inl h),
      )
    where
      shift : (a b : ℕ) → a + suc b ≡ suc a + b
      shift a b = omega arith

  -- The hashes of all slots of a block.
  hashes :
      (nonce : Block) (n i prefix : ℕ)
      → eval_keyed_hash_batch sk.params.cmp_len
          (ecb_encrypt_blks sk.prf_key
            (tabulate n 0 (λ j. make_block i (bit_or (shl64 prefix sk.params.block_len) j))))
          nonce
        ≡ ok (tabulate n 0 (λ j. hash_at sk hash_name nonce (slot_key sk hash_name i prefix j)))
  unfolding eval_keyed_hash_batch hash_at slot_key
  hashes nonce n i prefix = simp (encrypt_blks-map, map-tabulate)

  index_block-slot_loop :
      (nonce : Block) (i prefix cur o : ℕ) (buf : Buf)
      → index_block true sk hash_name rnum nonce i prefix cur o buf
        ≡ slot_loop sk.params
            (key_expansion (of_value hash_name))
            (key_expansion (make_block rnum 0))
            hash_name
            cur
            (tabulate
              (2 ^ sk.params.block_len)
              0
              (perm (prp_of sk hash_name i prefix) sk.params.block_len true))
            (tabulate
              (2 ^ sk.params.block_len)
              0
              (λ j. hash_at sk hash_name nonce (slot_key sk hash_name i prefix j)))
            (2 ^ sk.params.block_len)
            0
            o
            buf
  unfolding index_block prp_of
  index_block-slot_loop nonce i prefix cur o buf =
      rw
        (
          slots-eq sk.params u,
          prp_inv_eval_all-perm sk.params.block_len u.block_max (prp_of sk hash_name i prefix)
              u.block_even,
          hashes nonce (2 ^ sk.params.block_len) i prefix,
        )
        refl

  -- Block `i` after its round, with what is before it unchanged.
  pub index_block-IndexCell :
      (nonce : Block) (i prefix cur o : ℕ) (buf : Buf)
      → o + right_block sk.params ≤ buf.size
      → (buf' : Buf) × (index_block true sk hash_name rnum nonce i prefix cur o buf ≡ ok buf')
        × (buf'.size ≡ buf.size)
        × IndexCell sk hash_name rnum nonce i prefix cur o buf'.at
        × ((k : ℕ) → k < o → buf'.at k ≡ buf.at k)
  index_block-IndexCell nonce i prefix cur o buf room =
      let n = 2 ^ sk.params.block_len in
      let prp_key = prp_of sk hash_name i prefix in
      let pi_inv = tabulate n 0 (perm prp_key sk.params.block_len true) in
      let r = tabulate n 0 (λ j. hash_at sk hash_name nonce (slot_key sk hash_name i prefix j)) in
      let (b, runs, size, values, below) =
        slot_loop-values nonce i prefix cur pi_inv r n 0 o buf
          (λ k a b. (
            get_or-tabulate_zero n k (perm prp_key sk.params.block_len true) 0 (omega arith),
            get_or-tabulate_zero n k
                (λ j. hash_at sk hash_name nonce (slot_key sk hash_name i prefix j)) 0
                (omega arith),
          ))
          (omega (arith, room, right_block-eq sk.params u)) in
      (
        b,
        index_block-slot_loop nonce i prefix cur o buf ∙ runs,
        size,
        λ j h. values j (omega arith) (omega arith),
        λ k h. below k (omega arith),
      )
