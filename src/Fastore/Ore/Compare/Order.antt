-- ===== src/Fastore/Ore/Compare/Order.antt =====
-- The whole comparison: the loop over the blocks, and set-up followed by `ore_compare`.
use asiaccs.Base.{ℕ, zero, suc, ◌+◌, ◌*◌, ◌^◌, ◌≤◌, ◌<◌}
use asiaccs.Base.{◌≡◌, refl, sym, ap, ◌∙◌, subst, ◌≢◌, inl, inr, arith}
use asiaccs.Base.{Bool, true, false, ◌&&◌, Option, none, some, List}
use asiaccs.Base.{ltb, ◌==◌, if◌then◌else◌, ==_iff, Bool-cases}
use asiaccs.Base.{set}
use asiaccs.Base.{pair_lt, Outcome, ok, ◌>>=◌}
use asiaccs.Base.{guard_pass}
use asiaccs.Base.{guard_pass}
use native.Mathlib.Nat.{mul-suc}
use asiaccs.Fastore.Ore.Cells.{IndexCell}
use asiaccs.Memory.{Buf, read}
use asiaccs.Memory.Laws.{load-ok}
use asiaccs.Fastore.Platform.{Platform, Block, make_block, of_value}
use asiaccs.Fastore.Aes.{key_expansion}
use asiaccs.Fastore.Ore.{OreKey, OreQuery, OreIndex, blocks, c_string}
use asiaccs.Fastore.Ore.{left_block, right_block, ore_is_valid_params}
use asiaccs.Fastore.Ore.Hash.{Prg}
use asiaccs.Fastore.Ore.Sizes.{IsUsable, is_valid}
use asiaccs.Fastore.Ore.Digits.{lead, digit, digit-lt, lead_split, lead-zero, lead_top}
use asiaccs.Fastore.Ore.Setup.{flag_of, ore_query_setup, ore_index_setup}
use asiaccs.Fastore.Ore.Setup.Query.{QueryCells, QueryReady, ore_query_setup-QueryCells}
use asiaccs.Fastore.Ore.Setup.Rows.{IndexCells, IndexReady, nonce_of, ore_index_setup-IndexCells}
use asiaccs.Fastore.Ore.Compare.{Answer, one, nought, minus_one, compare_loop, ore_compare}
use asiaccs.Fastore.Ore.Compare.Blocks.{block_answer, Separates, IsAim, compare_block-answer}

-- What the comparison of a query of `x` with the aim and an index of `y` is to say: 1 for "smaller"
-- and 3 for "larger".
unfoldable pub order : ℕ → ℕ → ℕ → Answer
order aim x y =
    if x == y
    then nought
    else if ltb x y
    then (if aim == 1 then one else minus_one)
    else (if aim == 3 then one else minus_one)

abbrev order_by_flag : ℕ → ℕ → ℕ → Answer
order_by_flag aim x y = if x == y then nought else if flag_of x y == aim then one else minus_one

order_by_flag-order : (aim x y : ℕ) → order_by_flag aim x y ≡ order aim x y
unfolding order
order_by_flag-order aim x y = ground arith

-- A smaller lead makes a smaller value.
lt_of_lead : (bl x y left : ℕ) → lead bl x left < lead bl y left → x < y
lt_of_lead bl x y zero h = omega (arith, h, lead-zero bl x, lead-zero bl y)
lt_of_lead bl x y (suc left) h =
    let below : lead bl x (suc left) * 2 ^ bl + digit bl x left < lead bl y (suc left) * 2 ^ bl =
      pair_lt h (digit-lt bl x left) in
    lt_of_lead bl x y left (omega (arith, below, lead_split bl x left, lead_split bl y left))

-- The first block that differs decides, since the values above it agree.
order_of_block :
    (bl aim x y left : ℕ)
    → lead bl x (suc left) ≡ lead bl y (suc left)
    → digit bl x left ≢ digit bl y left
    → (x ≢ y) × (flag_of (digit bl x left) (digit bl y left) ≡ flag_of x y)
order_of_block bl aim x y left same differ =
    let sx = lead_split bl x left in
    let sy = lead_split bl y left in
    let prefix : lead bl x (suc left) * 2 ^ bl ≡ lead bl y (suc left) * 2 ^ bl =
      ap (λ (t : ℕ). t * 2 ^ bl) same in
    elim (Bool-cases (ltb (digit bl x left) (digit bl y left))) [
      | inl l ↦
          let dl : digit bl x left < digit bl y left = ground arith in
          let less = lt_of_lead bl x y left (omega (arith, sx, sy, prefix, dl)) in
          (ground (arith, less), ground (arith, less, dl))
      | inr l ↦
          let dl : digit bl y left < digit bl x left = ground arith in
          let more = lt_of_lead bl y x left (omega (arith, sx, sy, prefix, dl)) in
          (ground (arith, more), ground (arith, more, dl))
    ]

last_block :
    (aim a b x y : ℕ)
    → (a == b) ≡ false
    → (x == y) ≡ false
    → flag_of a b ≡ flag_of x y
    → block_answer aim a b ≡ some (order_by_flag aim x y)
last_block aim a b x y e e' flags =
    ap (λ t. if t then none else if flag_of a b == aim then some one else some minus_one) e
    ∙ ap (λ (f : ℕ). if f == aim then some one else some minus_one) flags
    ∙ picked (flag_of x y == aim)
    ∙ ap (λ t. some (if t then nought else if flag_of x y == aim then one else minus_one)) (sym e')
  where
    picked :
        (b : Bool) → (if b then some one else some minus_one) ≡ some (if b then one else minus_one)
    picked true = refl
    picked false = refl

module _ ⦃p : Platform⦄ (sk : OreKey) (u : IsUsable sk.params) (hash_name rnum aim : ℕ)
    (nonce : Block) where
  compare_loop-order :
      (x y left i o1 o2 : ℕ) (bq bi : Buf)
      → IsAim aim
      → Separates sk hash_name rnum
      → lead sk.params.block_len x left ≡ lead sk.params.block_len y left
      → o1 + left_block sk.params * left ≤ bq.size
      → o2 + right_block sk.params * left ≤ bi.size
      → QueryCells sk u hash_name aim x left i o1 bq.at
      → IndexCells sk u hash_name rnum nonce y left i o2 bi.at
      → compare_loop sk.params (key_expansion (make_block rnum 0)) nonce bq bi left o1 o2
        ≡ ok (order_by_flag aim x y)
  unfolding compare_loop
  compare_loop-order x y zero i o1 o2 bq bi ia apart same room1 room2 qs cs =
      let e : x ≡ y =
        sym (lead-zero sk.params.block_len x) ∙ same ∙ lead-zero sk.params.block_len y in
      let equal = (==_iff x y).1 e in rw equal refl
  compare_loop-order x y (suc left) i o1 o2 bq bi ia apart same room1 room2 (q, qs) (c, cs) =
      let bl = sk.params.block_len in
      let row = key_expansion (make_block rnum 0) in
      let one_round =
        compare_block-answer sk u hash_name rnum aim nonce i (lead bl x (suc left))
          (digit bl x left) (digit bl y left) o1 o2 bq bi ia apart (digit-lt bl x left)
          (omega (arith, room1, mul-suc (left_block sk.params) left))
          (omega (arith, room2, mul-suc (right_block sk.params) left)) q
          (subst (λ z. IndexCell sk hash_name rnum nonce i z (digit bl y left) o2 bi.at) (sym same)
            c) in
      elim (Bool-cases (digit bl x left == digit bl y left)) [
        | inl e ↦
            let digits : digit bl x left ≡ digit bl y left = ground arith in
            let same' : lead bl x left ≡ lead bl y left = omega (
              arith,
              lead_split bl x left,
              lead_split bl y left,
              digits,
              ap (λ (t : ℕ). t * 2 ^ bl) same,
            ) in
            let rest =
              compare_loop-order x y left (suc i) (o1 + left_block sk.params)
                (o2 + right_block sk.params) bq bi ia apart same'
                (omega (arith, room1, mul-suc (left_block sk.params) left))
                (omega (arith, room2, mul-suc (right_block sk.params) left)) qs cs in
            rw (one_round, e) rest
        | inr e ↦
            let (apart_values, flags) = order_of_block bl aim x y left same (ground arith) in
            let unequal : (x == y) ≡ false = ground (arith, apart_values) in
            let last = last_block aim (digit bl x left) (digit bl y left) x y e unequal flags in
            ap (λ o. o >>= go_on) (one_round ∙ ap ok last)
      ]
    where
      go_on : Option Answer → Outcome Answer
      go_on = elim [
        | none ↦
            compare_loop sk.params (key_expansion (make_block rnum 0)) nonce bq bi left
              (o1 + left_block sk.params) (o2 + right_block sk.params)
        | some answer ↦ ok answer
      ]

module _ ⦃p : Platform⦄ (sk : OreKey) (u : IsUsable sk.params) where
  -- The checks passed, `ore_compare` is its loop.
  ore_compare-loop :
      (q : OreQuery) (c : OreIndex) (rnum : ℕ)
      → q.initialized ≡ true
      → c.initialized ≡ true
      → 16 ≤ c.comp_right.size
      → ore_compare q c sk.params rnum
        ≡ compare_loop sk.params
            (key_expansion (make_block rnum 0))
            (of_value (read c.comp_right.at 0 16))
            q.comp_left
            c.comp_right
            (blocks sk.params)
            0
            16
  unfolding ore_compare
  ore_compare-loop q c rnum qi ci room =
      let both : (q.initialized && c.initialized) ≡ true = ap (λ b. b && c.initialized) qi ∙ ci in
      guard_pass (q.initialized && c.initialized) _ _ both
      ∙ guard_pass (ore_is_valid_params sk.params) _ _ (is_valid sk.params u)
      ∙ ap (λ l. l >>= next) (load-ok c.comp_right 0 16 room)
    where
      next : ℕ → Outcome Answer
      next nonce =
          compare_loop sk.params (key_expansion (make_block rnum 0)) (of_value nonce) q.comp_left
            c.comp_right (blocks sk.params) 0 16

  -- Cells of two values at one nonce compare to the order of the values.
  pub ore_compare-cells :
      (hash_name x y aim rnum : ℕ) (nonce : Block) (q : OreQuery) (c : OreIndex)
      → (x < 2 ^ (sk.params.block_len * blocks sk.params))
        × (y < 2 ^ (sk.params.block_len * blocks sk.params))
      → (q.initialized ≡ true) × (c.initialized ≡ true)
      → left_block sk.params * blocks sk.params ≤ q.comp_left.size
      → 16 + right_block sk.params * blocks sk.params ≤ c.comp_right.size
      → of_value (read c.comp_right.at 0 16) ≡ nonce
      → IsAim aim
      → Separates sk hash_name rnum
      → QueryCells sk u hash_name aim x (blocks sk.params) 0 0 q.comp_left.at
      → IndexCells sk u hash_name rnum nonce y (blocks sk.params) 0 16 c.comp_right.at
      → ore_compare q c sk.params rnum ≡ ok (order aim x y)
  ore_compare-cells hash_name x y aim rnum nonce q c (fx, fy) (qi, ci) qroom croom e ia apart qs
        cs =
      let n = blocks sk.params in
      let bl = sk.params.block_len in
      ore_compare-loop q c rnum qi ci (omega (arith, croom))
      ∙ ap
          (λ b.
            compare_loop sk.params (key_expansion (make_block rnum 0)) b q.comp_left c.comp_right n
              0 16)
          e
      ∙ compare_loop-order sk u hash_name rnum aim nonce x y n 0 0 16 q.comp_left c.comp_right ia
          apart (lead_top bl x n fx ∙ sym (lead_top bl y n fy)) (omega (arith, qroom))
          (omega (arith, croom)) qs cs
      ∙ ap ok (order_by_flag-order aim x y)

  -- With usable parameters, a key, a query and an index that are set up, with buffers of at least
  -- the needed sizes, values `x` and `y` that fit the blocks, an aim of 1 or 3, and tokens of the row
  -- that neither collide nor are cut to zero: both set-ups succeed for one key and one column name,
  -- and `ore_compare` of their results under the row number of the index answers 0 if `x` is `y`, 1 if
  -- `x` is below `y` and the aim is 1 or `x` is above `y` and the aim is 3, and -1 otherwise.
  pub ore_compare-order :
      (x y aim rnum : ℕ) (cname : List ℕ) (prg : Prg) (q : OreQuery) (c : OreIndex)
      → QueryReady sk x q
      → IndexReady sk y c
      → IsAim aim
      → Separates sk (p.sha256 (c_string cname)) rnum
      → (q' : OreQuery) × (c' : OreIndex) × (ore_query_setup (some q) sk x cname aim ≡ ok q')
        × ((ore_index_setup true prg c sk y cname rnum).0 ≡ ok c')
        × (ore_compare q' c' sk.params rnum ≡ ok (order aim x y))
  ore_compare-order x y aim rnum cname prg q c qr ir ia apart =
      let (q', runs, set, size, cells) = ore_query_setup-QueryCells sk u x aim cname q qr in
      let (c', runs', set', size', nonce, cells') =
        ore_index_setup-IndexCells sk u prg c y rnum cname ir in
      (
        q',
        c',
        runs,
        ap (λ r. r.0) runs',
        ore_compare-cells (p.sha256 (c_string cname)) x y aim rnum (nonce_of sk u prg) q' c'
            (qr.fits, ir.fits) (set, set') (omega (arith, size, qr.room))
            (omega (arith, size', ir.room)) nonce ia apart cells cells',
      )
