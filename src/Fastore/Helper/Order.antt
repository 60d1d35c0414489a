-- ===== src/Fastore/Helper/Order.antt =====
-- fastore/OREHelper.cpp: a left and a right part that one helper makes, compared by another one with the
-- same parameters.
use asiaccs.Base.{ℕ, ◌+◌, ◌*◌, ◌^◌, ◌≤◌, ◌<◌}
use asiaccs.Base.{◌≡◌, refl, sym, ap, ◌∙◌, subst, arith}
use asiaccs.Base.{Bool, true, false, some, List, ◌++◌}
use asiaccs.Base.{ltb, leb, ◌==◌, if◌then◌else◌}
use asiaccs.Base.{length, get_or}
use asiaccs.Base.{tabulate, length-tabulate}
use asiaccs.Base.{ok}
use asiaccs.Memory.{Buf}
use asiaccs.Memory.Laws.{read_congr}
use asiaccs.Fastore.Platform.{Platform, of_value}
use asiaccs.Fastore.Ore.{OreKey, OreQuery, OreIndex, blocks, c_string, left_block}
use asiaccs.Fastore.Ore.{right_block, ore_query_left_len, ore_index_right_len}
use asiaccs.Fastore.Ore.Hash.{Prg}
use asiaccs.Fastore.Ore.Sizes.{IsUsable, left_len-eq, right_len-eq}
use asiaccs.Fastore.Ore.Compare.{ore_compare}
use asiaccs.Fastore.Ore.Compare.Blocks.{Separates, IsAim}
use asiaccs.Fastore.Ore.Compare.Order.{order, ore_compare-cells}
use asiaccs.Fastore.Helper.{OreHelper, copy_in, create_left, create_right, compare_ore}
use asiaccs.Fastore.Helper.Parts.{
  IsReady, aim_of, is_aim, copied, QueryCells-congr, IndexCells-congr, bits_fit, LeftPart,
  RightPart, create_left-LeftPart, create_right-RightPart,
}

-- The buffer of a helper after a string was copied in.
abbrev filled : Buf → ℕ → (ℕ → ℕ) → Buf
filled b n m = record {
  size = b.size;
  at = λ k. if ltb k n then get_or (tabulate n 0 m) k 0 else b.at k;
}

module _ ⦃p : Platform⦄ where
  -- A ready helper with the parameters of the key compares a left and a right part: the answer is the
  -- order of their values, and the helper stays ready.
  pub compare_ore-parts :
      (h : OreHelper) (sk : OreKey) (u : IsUsable sk.params) (hash_name x y aim counter : ℕ)
      (left right : List ℕ)
      → IsReady h
      → h.params ≡ sk.params
      → (x < 2 ^ (sk.params.block_len * blocks sk.params))
        × (y < 2 ^ (sk.params.block_len * blocks sk.params))
      → IsAim aim
      → Separates sk hash_name counter
      → LeftPart sk u hash_name aim x left
      → RightPart sk u hash_name counter y right
      → (h' : OreHelper) × (compare_ore h left right counter ≡ ok (some (order aim x y), h'))
        × (h'.params ≡ sk.params)
        × IsReady h'
  unfolding compare_ore copy_in
  compare_ore-parts h sk u hash_name x y aim counter left right ready e fits ia apart l r =
      let ml = l.bytes in
      let mr = r.bytes in
      let nl = ore_query_left_len h.params in
      let nr = ore_index_right_len h.params in
      let len_l : nl ≡ left_block sk.params * blocks sk.params =
        ap ore_query_left_len e ∙ left_len-eq sk.params u in
      let len_r : nr ≡ 16 + right_block sk.params * blocks sk.params =
        ap ore_index_right_len e ∙ right_len-eq sk.params u in
      let q : OreQuery = record h.query { comp_left = filled h.query.comp_left nl ml } in
      let c : OreIndex = record h.index { comp_right = filled h.index.comp_right nr mr } in
      let same_l : (k : ℕ) → k < nl → q.comp_left.at k ≡ ml k = copied ml h.query.comp_left.at nl in
      let same_r : (k : ℕ) → k < nr → c.comp_right.at k ≡ mr k =
        copied mr h.index.comp_right.at nr in
      let compared : ore_compare q c h.params counter ≡ ok (order aim x y) =
        ap (λ z. ore_compare q c z counter) e
        ∙ ore_compare-cells sk u hash_name x y aim counter r.nonce q c fits
            (ready.query_set, ready.index_set) (omega (arith, len_l, ready.query_room))
            (omega (arith, len_r, ready.index_room))
            (ap of_value
                (read_congr c.comp_right.at mr 16 0 (λ k a b. same_r k (omega (arith, b, len_r))))
              ∙ r.start)
            ia apart
            (QueryCells-congr sk u hash_name aim x (blocks sk.params) 0 0 ml q.comp_left.at
              (λ k b. sym (same_l k (omega (arith, b, len_l)))) l.cells)
            (IndexCells-congr sk u hash_name counter r.nonce y (blocks sk.params) 0 16 mr
              c.comp_right.at (λ k b. sym (same_r k (omega (arith, b, len_r)))) r.cells) in
      let some_block : (h.params.block_len == 0) ≡ false = ground (arith, ready.usable.block_pos) in
      let whole_l : leb nl (length (tabulate nl 0 ml)) ≡ true =
        ground (arith, length-tabulate nl 0 ml) in
      let whole_r : leb nr (length (tabulate nr 0 mr)) ≡ true =
        ground (arith, length-tabulate nr 0 mr) in
      let inside_l : leb nl h.query.comp_left.size ≡ true = ground (arith, ready.query_room) in
      let inside_r : leb nr h.index.comp_right.size ≡ true = ground (arith, ready.index_room) in
      let left-eq : left ≡ tabulate nl 0 ml =
        l.all ∙ ap (λ z. tabulate (ore_query_left_len z) 0 ml) (sym e) in
      let right-eq : right ≡ tabulate nr 0 mr =
        r.all ∙ ap (λ z. tabulate (ore_index_right_len z) 0 mr) (sym e) in
      (
        record h { query = q; index = c },
        rw (left-eq, right-eq, some_block, whole_l, whole_r, inside_l, inside_r, compared) refl,
        e,
        record {
          usable = ready.usable;
          key_set = ready.key_set;
          key_params = ready.key_params;
          query_set = ready.query_set;
          index_set = ready.index_set;
          query_room = ready.query_room;
          index_room = ready.index_room;
        },
      )

  -- Two ready helpers with the same parameters, of at least 32 bits in even blocks, buffers of the
  -- caller that are large enough, values of 32 bits, and tokens of the counter that neither collide
  -- nor are cut to zero: `CreateLeft` and `CreateRight` of the first helper succeed for a table and a
  -- column, and `CompareORE` of the second one under the counter answers 0 for equal values, 1 if the
  -- left value is above the right one and the comparison asks for above or below it and it asks for
  -- below, and else -1.
  pub compare_ore-order :
      (hc hp : OreHelper) (prg : Prg) (len_left len_right : ℕ) (above : Bool) (table col : List ℕ)
      (counter x y : ℕ)
      → IsReady hc
      → IsReady hp
      → hp.params ≡ hc.params
      → 32 ≤ hc.params.block_len * blocks hc.params
      → ore_query_left_len hc.params ≤ len_left
      → ore_index_right_len hc.params ≤ len_right
      → x < 2 ^ 32
      → y < 2 ^ 32
      → Separates hc.key (p.sha256 (c_string (table ++ col))) counter
      → (left right : List ℕ) × (hc' hc'' hp' : OreHelper) × (create_left hc len_left above table
            col x
          ≡ ok (left, hc'))
        × ((create_right true prg hc len_right table col counter y).0 ≡ ok (right, hc''))
        × (compare_ore hp left right counter ≡ ok (some (order (aim_of above) x y), hp'))
  compare_ore-order hc hp prg len_left len_right above table col counter x y rc rp same wide room_l
        room_r sx sy apart =
      let sk = hc.key in
      let e : hc.params ≡ sk.params = sym rc.key_params in
      let u = subst IsUsable e rc.usable in
      let wide' = subst (λ z. 32 ≤ z.block_len * blocks z) e wide in
      let fx = bits_fit sk.params x wide' sx in
      let fy = bits_fit sk.params y wide' sy in
      let hash_name = p.sha256 (c_string (table ++ col)) in
      let (left, hc', runs, l, same_l, _) =
        create_left-LeftPart sk u hc len_left above table col x rc refl room_l fx in
      let (right, hc'', prg', runs', r, same_r, _) =
        create_right-RightPart sk u prg hc len_right table col counter y rc refl room_r fy in
      let (hp', answer, _, _) =
        compare_ore-parts hp sk u hash_name x y (aim_of above) counter left right rp (same ∙ e)
          (fx, fy) (is_aim above) apart l r in
      (left, right, hc', hc'', hp', runs, ap (λ z. z.0) runs', answer)
