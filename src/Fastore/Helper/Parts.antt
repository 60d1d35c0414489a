-- ===== src/Fastore/Helper/Parts.antt =====
-- fastore/OREHelper.cpp: what a ready helper is, and the left and right parts that it makes.
use asiaccs.Base.{ℕ, zero, suc, ◌+◌, ◌*◌, ◌^◌, ◌≤◌, ◌<◌}
use asiaccs.Base.{◌≡◌, refl, sym, ap, ◌∙◌, inl, inr, arith}
use asiaccs.Base.{Bool, true, false, some, List, ◌++◌}
use asiaccs.Base.{ltb, leb, ◌==◌, if◌then◌else◌, ltb_iff}
use asiaccs.Base.{get_or, set}
use asiaccs.Base.{tabulate}
use asiaccs.Base.{pow_le}
use asiaccs.Base.{ok}
use asiaccs.Base.{get_or-tabulate_zero}
use native.Mathlib.Nat.{mul-suc}
use asiaccs.Memory.{read}
use asiaccs.Fastore.Platform.{Platform, Block, of_value}
use asiaccs.Fastore.Ore.{OreParams, OreKey, OreQuery, OreIndex, blocks, c_string, left_block}
use asiaccs.Fastore.Ore.{right_block, ore_query_left_len, ore_index_right_len, ore_small, ore_large}
use asiaccs.Fastore.Ore.Hash.{Prg, next_prg_block}
use asiaccs.Fastore.Ore.Sizes.{IsUsable, left_len-eq, right_len-eq, pix_fits}
use asiaccs.Fastore.Ore.Cells.{QueryCell-congr}
use asiaccs.Fastore.Ore.Digits.{lead, digit}
use asiaccs.Fastore.Ore.Setup.{ore_query_setup, ore_index_setup}
use asiaccs.Fastore.Ore.Setup.Query.{QueryCells, ore_query_setup-QueryCells}
use asiaccs.Fastore.Ore.Setup.Rows.{
  IndexCells, nonce_of, ore_index_setup-IndexCells, IndexCell-congr,
}
use asiaccs.Fastore.Ore.Compare.Blocks.{IsAim}
use asiaccs.Fastore.Helper.{OreHelper, copy_out, create_left, create_right}

-- A helper after a successful `Init`: usable parameters, and buffers of the needed sizes.
pub record IsReady (h : OreHelper) : Type 0 where
  pub usable : IsUsable h.params
  pub key_set : h.key.initialized ≡ true
  pub key_params : h.key.params ≡ h.params
  pub query_set : h.query.initialized ≡ true
  pub index_set : h.index.initialized ≡ true
  pub query_room : ore_query_left_len h.params ≤ h.query.comp_left.size
  pub index_room : ore_index_right_len h.params ≤ h.index.comp_right.size

-- What `iCmp` asks for.
abbrev pub aim_of : Bool → ℕ
aim_of above = if above then ore_large else ore_small

pub is_aim : (above : Bool) → IsAim (aim_of above)
is_aim true = inr refl
is_aim false = inl refl

-- A string that went out of one buffer and into another is read as before.
pub copied :
    (m m' : ℕ → ℕ) (n k : ℕ) → k < n → (if ltb k n then get_or (tabulate n 0 m) k 0 else m' k) ≡ m k
copied m m' n k h =
    let inside : ltb k n ≡ true = (ltb_iff k n).1 h in rw inside (get_or-tabulate_zero n k m 0 h)

module _ ⦃p : Platform⦄ (sk : OreKey) (u : IsUsable sk.params) (hash_name : ℕ) where
  pub QueryCells-congr :
      (aim x left i o : ℕ) (m m' : ℕ → ℕ)
      → ((k : ℕ) → k < o + left_block sk.params * left → m k ≡ m' k)
      → QueryCells sk u hash_name aim x left i o m
      → QueryCells sk u hash_name aim x left i o m'
  QueryCells-congr aim x zero i o m m' same cells = tt
  QueryCells-congr aim x (suc left) i o m m' same (c, cells) = (
    QueryCell-congr sk hash_name aim i (lead sk.params.block_len x (suc left))
        (digit sk.params.block_len x left) o m m'
        (λ k h. same k (omega (arith, h, mul-suc (left_block sk.params) left)))
        (pix_fits sk.params u) c,
    QueryCells-congr aim x left (suc i) (o + left_block sk.params) m m'
        (λ k h. same k (omega (arith, h, mul-suc (left_block sk.params) left))) cells,
  )

  pub IndexCells-congr :
      (rnum : ℕ) (nonce : Block) (y left i o : ℕ) (m m' : ℕ → ℕ)
      → ((k : ℕ) → k < o + right_block sk.params * left → m k ≡ m' k)
      → IndexCells sk u hash_name rnum nonce y left i o m
      → IndexCells sk u hash_name rnum nonce y left i o m'
  IndexCells-congr rnum nonce y zero i o m m' same cells = tt
  IndexCells-congr rnum nonce y (suc left) i o m m' same (c, cells) = (
    IndexCell-congr sk u hash_name rnum nonce i (lead sk.params.block_len y (suc left))
        (digit sk.params.block_len y left) o m m'
        (λ k h. same k (omega (arith, h, mul-suc (right_block sk.params) left))) c,
    IndexCells-congr rnum nonce y left (suc i) (o + right_block sk.params) m m'
        (λ k h. same k (omega (arith, h, mul-suc (right_block sk.params) left))) cells,
  )

-- The values of 32 bits fit the blocks.
pub bits_fit :
    (params : OreParams) (x : ℕ)
    → 32 ≤ params.block_len * blocks params
    → x < 2 ^ 32
    → x < 2 ^ (params.block_len * blocks params)
bits_fit params x wide small =
    omega (arith, small, pow_le 32 (params.block_len * blocks params) wide)

module _ ⦃p : Platform⦄ where
  -- `CreateLeft` of a ready helper succeeds and gives the string of the query's bytes.
  create_left-ok :
      (h : OreHelper) (len : ℕ) (above : Bool) (table col : List ℕ) (x : ℕ) (q : OreQuery)
      → IsReady h
      → ore_query_left_len h.params ≤ len
      → ore_query_setup (some h.query) h.key x (table ++ col) (aim_of above) ≡ ok q
      → ore_query_left_len h.params ≤ q.comp_left.size
      → create_left h len above table col x
        ≡ ok (tabulate (ore_query_left_len h.params) 0 q.comp_left.at, record h { query = q })
  unfolding create_left copy_out
  create_left-ok h len above table col x q ready room runs fits =
      let some_block : (h.params.block_len == 0) ≡ false = ground (arith, ready.usable.block_pos) in
      let long : leb (ore_query_left_len h.params) len ≡ true = ground (arith, room) in
      let inside : leb (ore_query_left_len h.params) q.comp_left.size ≡ true =
        ground (arith, fits) in
      rw (some_block, long, runs, inside) refl

  create_right-ok :
      (prg : Prg) (h : OreHelper) (len : ℕ) (table col : List ℕ) (counter y : ℕ) (c : OreIndex)
      → IsReady h
      → ore_index_right_len h.params ≤ len
      → ore_index_setup true prg h.index h.key y (table ++ col) counter
        ≡ (ok c, (next_prg_block prg).1)
      → ore_index_right_len h.params ≤ c.comp_right.size
      → create_right true prg h len table col counter y ≡ (
        ok (tabulate (ore_index_right_len h.params) 0 c.comp_right.at, record h { index = c }),
        (next_prg_block prg).1,
      )
  unfolding create_right copy_out
  create_right-ok prg h len table col counter y c ready room runs fits =
      let some_block : (h.params.block_len == 0) ≡ false = ground (arith, ready.usable.block_pos) in
      let long : ltb len (ore_index_right_len h.params) ≡ false = ground (arith, room) in
      let inside : leb (ore_index_right_len h.params) c.comp_right.size ≡ true =
        ground (arith, fits) in
      rw (some_block, long, runs, inside) refl

  -- A left part, a right part: strings of the bytes of cells.
  pub record LeftPart (sk : OreKey) (u : IsUsable sk.params) (hash_name aim x : ℕ) (left : List ℕ)
      : Type 0 where
    pub bytes : ℕ → ℕ
    pub all : left ≡ tabulate (ore_query_left_len sk.params) 0 bytes
    pub cells : QueryCells sk u hash_name aim x (blocks sk.params) 0 0 bytes

  pub record RightPart (sk : OreKey) (u : IsUsable sk.params) (hash_name counter y : ℕ)
      (right : List ℕ) : Type 0 where
    pub bytes : ℕ → ℕ
    pub nonce : Block
    pub all : right ≡ tabulate (ore_index_right_len sk.params) 0 bytes
    pub start : of_value (read bytes 0 16) ≡ nonce
    pub cells : IndexCells sk u hash_name counter nonce y (blocks sk.params) 0 16 bytes

  -- `CreateLeft` of a ready helper makes a left part, and the helper stays ready.
  pub create_left-LeftPart :
      (sk : OreKey) (u : IsUsable sk.params) (h : OreHelper) (len : ℕ) (above : Bool)
      (table col : List ℕ) (x : ℕ)
      → IsReady h
      → h.key ≡ sk
      → ore_query_left_len h.params ≤ len
      → x < 2 ^ (sk.params.block_len * blocks sk.params)
      → (left : List ℕ) × (h' : OreHelper) × (create_left h len above table col x ≡ ok (left, h'))
        × LeftPart sk u (p.sha256 (c_string (table ++ col))) (aim_of above) x left
        × (h'.key ≡ sk)
        × IsReady h'
  create_left-LeftPart sk u h len above table col x ready same room fits =
      let e : h.params ≡ sk.params = sym ready.key_params ∙ ap (λ k. k.params) same in
      let len_l = ap ore_query_left_len e ∙ left_len-eq sk.params u in
      let (q, runs, set, size, cells) =
        ore_query_setup-QueryCells sk u x (aim_of above) (table ++ col) h.query (record {
          key_set = ap (λ k. k.initialized) (sym same) ∙ ready.key_set;
          set = ready.query_set;
          fits = fits;
          room = omega (arith, len_l, ready.query_room);
        }) in
      (
        tabulate (ore_query_left_len h.params) 0 q.comp_left.at,
        record h { query = q },
        create_left-ok h len above table col x q ready room
            (ap (λ k. ore_query_setup (some h.query) k x (table ++ col) (aim_of above)) same ∙ runs)
            (omega (arith, size, ready.query_room)),
        record {
          bytes = q.comp_left.at;
          all = ap (λ z. tabulate (ore_query_left_len z) 0 q.comp_left.at) e;
          cells = cells;
        },
        same,
        record {
          usable = ready.usable;
          key_set = ready.key_set;
          key_params = ready.key_params;
          query_set = set;
          index_set = ready.index_set;
          query_room = omega (arith, size, ready.query_room);
          index_room = ready.index_room;
        },
      )

  -- `CreateRight` of a ready helper makes a right part, and the helper stays ready.
  pub create_right-RightPart :
      (sk : OreKey) (u : IsUsable sk.params) (prg : Prg) (h : OreHelper) (len : ℕ)
      (table col : List ℕ) (counter y : ℕ)
      → IsReady h
      → h.key ≡ sk
      → ore_index_right_len h.params ≤ len
      → y < 2 ^ (sk.params.block_len * blocks sk.params)
      → (right : List ℕ) × (h' : OreHelper) × (prg' : Prg) × (create_right true prg h len table col
            counter y
          ≡ (ok (right, h'), prg'))
        × RightPart sk u (p.sha256 (c_string (table ++ col))) counter y right
        × (h'.key ≡ sk)
        × IsReady h'
  create_right-RightPart sk u prg h len table col counter y ready same room fits =
      let e : h.params ≡ sk.params = sym ready.key_params ∙ ap (λ k. k.params) same in
      let len_r = ap ore_index_right_len e ∙ right_len-eq sk.params u in
      let (c, runs, set, size, nonce, cells) =
        ore_index_setup-IndexCells sk u prg h.index y counter (table ++ col) (record {
          key_set = ap (λ k. k.initialized) (sym same) ∙ ready.key_set;
          set = ready.index_set;
          fits = fits;
          room = omega (arith, len_r, ready.index_room);
        }) in
      (
        tabulate (ore_index_right_len h.params) 0 c.comp_right.at,
        record h { index = c },
        (next_prg_block prg).1,
        create_right-ok prg h len table col counter y c ready room
            (ap (λ k. ore_index_setup true prg h.index k y (table ++ col) counter) same ∙ runs)
            (omega (arith, size, ready.index_room)),
        record {
          bytes = c.comp_right.at;
          nonce = nonce_of sk u prg;
          all = ap (λ z. tabulate (ore_index_right_len z) 0 c.comp_right.at) e;
          start = nonce;
          cells = cells;
        },
        same,
        record {
          usable = ready.usable;
          key_set = ready.key_set;
          key_params = ready.key_params;
          query_set = ready.query_set;
          index_set = set;
          query_room = ready.query_room;
          index_room = omega (arith, size, ready.index_room);
        },
      )
