-- ===== src/Client/Range.antt =====
-- The order index end to end: rows that `Put` has written to a server with their right parts, and what
-- `OrderSearch` returns there for the tokens of `RangeQuery`.
use asiaccs.Base.{ℕ, suc, ◌*◌, ◌^◌, ◌≤◌, ◌<◌}
use asiaccs.Base.{◌≡◌, refl, sym, ap, ◌∙◌, subst, ◌≢◌, arith}
use asiaccs.Base.{Bool, true, false, some, List, [], ◌∷◌, ◌++◌}
use asiaccs.Base.{ltb, leb, ◌==◌, if◌then◌else◌}
use asiaccs.Base.{length}
use asiaccs.Base.{tabulate}
use asiaccs.Base.{Outcome, ok}
use asiaccs.Fastore.Platform.{Platform, Block}
use asiaccs.Fastore.Ore.{OreKey, Malloc, blocks, c_string, ore_query_left_len, ore_index_right_len}
use asiaccs.Fastore.Ore.Sizes.{IsUsable}
use asiaccs.Fastore.Ore.Compare.Blocks.{Separates}
use asiaccs.Fastore.Ore.Compare.Order.{order}
use asiaccs.Fastore.Helper.{OreHelper, create_left}
use asiaccs.Fastore.Helper.Parts.{
  IsReady, aim_of, is_aim, bits_fit, LeftPart, RightPart, create_left-LeftPart,
  create_right-RightPart,
}
use asiaccs.Fastore.Helper.Order.{compare_ore-parts}
use asiaccs.Fastore.Helper.Init.{helper_init-IsReady, params_of, Allocates}
use asiaccs.Proxy.Services.{Bytes, Backend, concat}
use asiaccs.Proxy.{at_counter, fetch, proxy_put}
use asiaccs.Proxy.Order.{order_search, order_round}
use asiaccs.Proxy.Order.Loop.{is_one, order_round-entry, order_loop-rounds}
use asiaccs.Client.{Keys, ClientCpp, bump, trapdoor, word_at, order_entry}
use asiaccs.Client.Put.{
  PutFlags, put_order, put_on, Session, demo_server_num, max_ore_right, max_ore_left,
}
use asiaccs.Client.Log.{
  Row, bump_next, Apart, Stored, put_row, put_row-Stored, repeat, repeat-keeps,
}

abbrev pub only_order : PutFlags
only_order = record {
  column_index = false;
  equal_index_v1 = false;
  equal_index_v2 = false;
  ore_index = true;
}

-- A key of the scheme for 32 bits whose parts fit the buffers of the client.
pub record IsOrderKey (sk : OreKey) : Type 0 where
  pub usable : IsUsable sk.params
  pub wide : 32 ≤ sk.params.block_len * blocks sk.params
  pub right_fits : ore_index_right_len sk.params ≤ max_ore_right
  pub left_fits : ore_query_left_len sk.params ≤ max_ore_left

module _ ⦃b : Backend⦄ ⦃p : Platform⦄ (sk : OreKey) (is_key : IsOrderKey sk) (keys : Keys)
    (table col : Bytes) (rows : ℕ → Row) (encrypt : Bytes → Bytes → Bytes) where
  abbrev pub place : ℕ → Bytes
  place i = at_counter (b.hmac keys.pk10 (table ++ col)) i

  abbrev pub label : ℕ → Bytes
  label i = trapdoor keys table (rows i).key col

  abbrev pub cipher : ℕ → Bytes
  cipher i = encrypt keys.pk5 (rows i).val

  -- The number that is ordered: the first four bytes of a value.
  abbrev pub number : ℕ → ℕ
  number i = word_at (rows i).val 0

  abbrev pub column_hash : ℕ
  column_hash = p.sha256 (c_string (table ++ col))

  -- The entry of a row.
  abbrev pub IsEntry : ℕ → Bytes → Type 0
  IsEntry i e =
      (right : Bytes) × (e ≡ label i ++ right)
      × RightPart sk is_key.usable column_hash i (number i) right

  -- The first `n` rows have numbers of 32 bits and ciphertexts that are not empty, the digests that name
  -- their places and labels do not collide, and neither do the tokens of their counters.
  pub record NoClash (n : ℕ) : Type 0 where
    pub names : Apart place label cipher n
    pub four_bytes : (i : ℕ) → i < n → 4 ≤ length (rows i).val
    pub small : (i : ℕ) → i < n → number i < 2 ^ 32
    pub full : (i : ℕ) → i < n → length (cipher i) ≢ 0
    pub tokens : (i : ℕ) → i < n → Separates sk column_hash i

  -- The first `m` of `n` rows are on a server that has counters.
  pub record Written (id n m : ℕ) (session : Session) : Type 0 where
    pub same_keys : session.0.keys ≡ keys
    pub same_key : session.0.ore_helper.key ≡ sk
    pub ready : IsReady session.0.ore_helper
    pub known : id < demo_server_num
    pub counter : session.0.order_counter id (table ++ col) ≡ m
    pub log : Stored place label cipher IsEntry n m session.1

  same_params :
      (id n m : ℕ) (session : Session)
      → Written id n m session
      → session.0.ore_helper.params ≡ sk.params
  same_params id n m session w = sym w.ready.key_params ∙ ap (λ k. k.params) w.same_key

  put_on-Written :
      (id n m : ℕ) (session : Session)
      → NoClash n
      → m < n
      → Written id n m session
      → (next : Session) × (put_on encrypt true id only_order table
            (rows m).key
            col
            (rows m).val
            session
          ≡ ok next)
        × Written id n (suc m) next
  unfolding put_on put_order order_entry proxy_put
  put_on-Written id n m (client, s) clash h w =
      let same = same_params id n m (client, s) w in
      let (right, helper, prg, runs, part, same_key, ready) =
        create_right-RightPart sk is_key.usable client.prg client.ore_helper max_ore_right table col
          m (number m) w.ready w.same_key
          (subst (λ z. ore_index_right_len z ≤ max_ore_right) (sym same) is_key.right_fits)
          (bits_fit sk.params (number m) is_key.wide (clash.small m h)) in
      let counted : ltb id demo_server_num ≡ true = ground (arith, w.known) in
      let enough : leb 4 (length (rows m).val) ≡ true = ground (arith, clash.four_bytes m h) in
      let next : ClientCpp = record client {
        order_counter = bump client.order_counter id (table ++ col);
        ore_helper = helper;
        prg = prg;
      } in
      (
        (next, put_row place label cipher s m (label m ++ right)),
        rw (w.same_keys, w.counter, counted, enough, runs) refl,
        record {
          same_keys = w.same_keys;
          same_key = same_key;
          ready = ready;
          known = w.known;
          counter =
              bump_next client.order_counter id m (table ++ col) w.counter
                (omega (arith, clash.names.few, h));
          log =
              put_row-Stored place label cipher IsEntry n m s _ clash.names h (right, refl, part)
                w.log;
        },
      )

  -- Rows put one after the other on one server.
  abbrev pub put_rows : ℕ → ℕ → Session → Outcome Session
  put_rows id n =
      repeat (λ m. put_on encrypt true id only_order table (rows m).key col (rows m).val) n 0

  put_rows-Written :
      (id n : ℕ) (session : Session)
      → NoClash n
      → Written id n 0 session
      → (done : Session) × (put_rows id n session ≡ ok done) × Written id n n done
  put_rows-Written id n session clash w =
      repeat-keeps (λ m. put_on encrypt true id only_order table (rows m).key col (rows m).val)
        (Written id n) n n 0 session (λ m r h. put_on-Written id n m r clash h) (omega arith) w

  -- What row `i` adds to the result of a query above or below `x`.
  abbrev pub answer : Bool → ℕ → ℕ → List Bytes
  answer above x i =
      if (if above then ltb (number i) x else ltb x (number i)) then cipher i ∷ [] else []

  is_one-order :
      (above : Bool) (x y : ℕ)
      → is_one (order (aim_of above) x y) ≡ (if above then ltb y x else ltb x y)
  unfolding order
  is_one-order true x y = ground arith
  is_one-order false x y = ground arith

  -- A round of the search on the entry of a row.
  order_round-answer :
      (id n : ℕ) (session : Session) (above : Bool) (x : ℕ) (left : Bytes)
      → NoClash n
      → Written id n n session
      → x < 2 ^ 32
      → LeftPart sk is_key.usable column_hash (aim_of above) x left
      → (i : ℕ) → i < n
      → (h : OreHelper) → IsReady h × (h.params ≡ sk.params)
      → (h' : OreHelper) × (order_round session.1 (b.hmac keys.pk10 (table ++ col)) left i h
          ≡ ok (some (answer above x i), h'))
        × (IsReady h' × (h'.params ≡ sk.params))
  unfolding trapdoor
  order_round-answer id n (client, s) above x left clash w small part i h helper (ready, same) =
      let (e, found, fit) = w.log.entry i h in
      let (right, shape, right_part) = fit in
      let (helper', compared, same', ready') =
        compare_ore-parts helper sk is_key.usable column_hash x (number i) (aim_of above) i left
          right ready same
          (
            bits_fit sk.params x is_key.wide small,
            bits_fit sk.params (number i) is_key.wide (clash.small i h),
          )
          (is_aim above) (clash.tokens i h) part right_part in
      let long : (length (cipher i) == 0) ≡ false = ground (arith, clash.full i h) in
      let there : fetch s (label i) ≡ cipher i ∷ [] = rw (w.log.stored i h, long) refl in
      (
        helper',
        order_round-entry s (b.hmac keys.pk10 (table ++ col)) left i (label i) right
              (order (aim_of above) x (number i)) helper helper' (b.hmac_length _ _) (found ∙ shape)
              compared
            ∙ rw (is_one-order above x (number i), there) refl,
        (ready', same'),
      )

  -- Start with the order index of the column and its counter empty and put `n` rows, indexed for order,
  -- whose digests and tokens do not collide: all are put. For the left part that `CreateLeft` of the
  -- client makes from a number of 32 bits, `OrderSearch` with the parameters of the client, a
  -- `malloc` that succeeds and more fuel than rows ends and returns the ciphertexts of exactly the rows
  -- whose number is below `x`, or above it, as the query asks, in the order of the puts.
  pub put_rows-order_search :
      (id n fuel block_size : ℕ) (session : Session) (above : Bool) (x : ℕ) (malloc : Malloc)
      (middle : Block) (blank : OreHelper)
      → NoClash n
      → Written id n 0 session
      → sk.params ≡ params_of block_size
      → Allocates malloc
      → x < 2 ^ 32
      → n < fuel
      → (done : Session) × (put_rows id n session ≡ ok done)
        × (left : Bytes) × (helper : OreHelper) × (create_left done.0.ore_helper max_ore_left above
              table col x
            ≡ ok (left, helper))
        × (order_search malloc middle blank block_size fuel done.1
              (b.hmac keys.pk10 (table ++ col))
              left
            ≡ ok (some (concat (tabulate n 0 (answer above x)))))
  unfolding order_search c_string
  put_rows-order_search id n fuel block_size session above x malloc middle blank clash empty params
        gives small enough =
      let (done, runs, w) = put_rows-Written id n session clash empty in
      let same = same_params id n n done w in
      let (left, helper, made, part, _, _) =
        create_left-LeftPart sk is_key.usable done.0.ore_helper max_ore_left above table col x
          w.ready w.same_key
          (subst (λ z. ore_query_left_len z ≤ max_ore_left) (sym same) is_key.left_fits)
          (bits_fit sk.params x is_key.wide small) in
      let (proxy, set_up, ready, proxy_params) =
        helper_init-IsReady malloc middle (65 ∷ []) block_size blank
          (subst IsUsable params is_key.usable) (omega arith) gives in
      (
        done,
        runs,
        left,
        helper,
        made,
        rw set_up (
            order_loop-rounds done.1 (b.hmac keys.pk10 (table ++ col)) left
              (λ h. IsReady h × (h.params ≡ sk.params)) (answer above x) n 0 fuel proxy
              (omega (arith, clash.names.few)) enough (ready, proxy_params ∙ sym params)
              (λ i h.
                order_round-answer id n done above x left clash w small part i (omega (arith, h)))
              (ap (λ (k : ℕ). b.pool_get done.1 (place k)) (omega arith)
                ∙ w.log.free n (omega arith) (omega arith))),
      )
