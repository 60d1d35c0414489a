-- ===== src/Client/Readback.antt =====
-- Client/ClientCpp.cpp: `Put` succeeds with any indexes, and `Get` reads the row back.
use asiaccs.Base.{ℕ, ◌+◌, ◌*◌, ◌^◌, ◌≤◌, ◌<◌}
use asiaccs.Base.{◌≡◌, refl, sym, ap, ◌∙◌, subst, ◌≢◌, arith}
use asiaccs.Base.{Bool, true, false, ◌||◌, not, some, ◌++◌}
use asiaccs.Base.{ltb, leb, ◌==◌, if◌then◌else◌}
use asiaccs.Base.{length}
use asiaccs.Base.{Outcome, ok, ◌>>=◌, ◌>>◌, require}
use asiaccs.Fastore.Platform.{Platform}
use asiaccs.Fastore.Ore.{blocks, ore_index_right_len}
use asiaccs.Fastore.Helper.Parts.{IsReady, bits_fit, create_right-RightPart}
use asiaccs.Proxy.Services.{Bytes, Backend}
use asiaccs.Proxy.{proxy_get, proxy_put}
use asiaccs.Client.Routing.{query}
use asiaccs.Client.{ClientCpp, bump, trapdoor, word_at, get_route, put_route, max_tdvalue_size}
use asiaccs.Client.Put.{
  PutFlags, Session, demo_server_num, max_ore_right, send, put, put_on, put_column, put_equal_v1,
  put_equal_v2, put_order,
}
use asiaccs.Client.Lookup.{get}
use asiaccs.Client.{order_entry}
use asiaccs.Fastore.Ore.Sizes.{IsUsable}

-- A client whose helper is ready for numbers of 32 bits, and a value that fits its buffers.
pub record CanPut (client : ClientCpp) (table col val : Bytes) : Type 0 where
  pub ready : IsReady client.ore_helper
  pub wide : 32 ≤ client.ore_helper.params.block_len * blocks client.ore_helper.params
  pub right_fits : ore_index_right_len client.ore_helper.params ≤ max_ore_right
  pub four_bytes : 4 ≤ length val
  pub small : word_at val 0 < 2 ^ 32
  pub fits : length (table ++ col) + length val ≤ max_tdvalue_size

module _ ⦃b : Backend⦄ where
  -- The client after the first three indexes.
  abbrev three : PutFlags → ℕ → Bytes → Bytes → Bytes → Bytes → Session → Session
  three flags id table col val td session =
      let s1 = if flags.column_index then put_column id table col td session else session in
      let s2 = if flags.equal_index_v1 then put_equal_v1 id table col val td s1 else s1 in
      if flags.equal_index_v2 then put_equal_v2 id table col val td s2 else s2

  -- What they leave as it is.
  record Keeps (old new : ClientCpp) : Type 0 where
    keys : new.keys ≡ old.keys
    ring : new.ring ≡ old.ring
    ore_helper : new.ore_helper ≡ old.ore_helper

  Keeps-refl : (c : ClientCpp) → Keeps c c
  Keeps-refl c = record { keys = refl; ring = refl; ore_helper = refl }

  Keeps-trans : (c d e : ClientCpp) → Keeps c d → Keeps d e → Keeps c e
  Keeps-trans c d e k l = record {
    keys = l.keys ∙ k.keys;
    ring = l.ring ∙ k.ring;
    ore_helper = l.ore_helper ∙ k.ore_helper;
  }

  put_column-Keeps :
      (on : Bool) (id : ℕ) (table col td : Bytes) (s : Session)
      → Keeps s.0 (if on then put_column id table col td s else s).0
  unfolding put_column
  put_column-Keeps true id table col td s = record { keys = refl; ring = refl; ore_helper = refl }
  put_column-Keeps false id table col td s = record { keys = refl; ring = refl; ore_helper = refl }

  put_equal_v1-Keeps :
      (on : Bool) (id : ℕ) (table col val td : Bytes) (s : Session)
      → Keeps s.0 (if on then put_equal_v1 id table col val td s else s).0
  unfolding put_equal_v1
  put_equal_v1-Keeps true id table col val td s = record {
    keys = refl;
    ring = refl;
    ore_helper = refl;
  }
  put_equal_v1-Keeps false id table col val td s = record {
    keys = refl;
    ring = refl;
    ore_helper = refl;
  }

  put_equal_v2-Keeps :
      (on : Bool) (id : ℕ) (table col val td : Bytes) (s : Session)
      → Keeps s.0 (if on then put_equal_v2 id table col val td s else s).0
  unfolding put_equal_v2
  put_equal_v2-Keeps true id table col val td s = record {
    keys = refl;
    ring = refl;
    ore_helper = refl;
  }
  put_equal_v2-Keeps false id table col val td s = record {
    keys = refl;
    ring = refl;
    ore_helper = refl;
  }

  three-Keeps :
      (flags : PutFlags) (id : ℕ) (table col val td : Bytes) (s : Session)
      → Keeps s.0 (three flags id table col val td s).0
  three-Keeps flags id table col val td s =
      let s1 : Session = if flags.column_index then put_column id table col td s else s in
      let s2 : Session = if flags.equal_index_v1 then put_equal_v1 id table col val td s1 else s1 in
      Keeps-trans s.0 s2.0 (three flags id table col val td s).0
        (Keeps-trans s.0 s1.0 s2.0 (put_column-Keeps flags.column_index id table col td s)
          (put_equal_v1-Keeps flags.equal_index_v1 id table col val td s1))
        (put_equal_v2-Keeps flags.equal_index_v2 id table col val td s2)

  -- The order index takes the row too.
  put_order-Keeps :
      ⦃p : Platform⦄ (on : Bool) (id : ℕ) (table col val td : Bytes) (s : Session)
      → CanPut s.0 table col val
      → (done : Session) × ((if on then put_order true id table col val td s else ok s) ≡ ok done)
        × (done.0.keys ≡ s.0.keys)
        × (done.0.ring ≡ s.0.ring)
  unfolding put_order
  put_order-Keeps false id table col val td s can = (s, refl, refl, refl)
  put_order-Keeps true id table col val td (client, s) can =
      let same = can.ready.key_params in
      let (right, helper, prg, runs, _, _, _) =
        create_right-RightPart client.ore_helper.key (subst IsUsable (sym same) can.ready.usable)
          client.prg client.ore_helper max_ore_right table col
          (client.order_counter id (table ++ col)) (word_at val 0) can.ready refl can.right_fits
          (bits_fit client.ore_helper.key.params (word_at val 0)
            (subst (λ z. 32 ≤ z.block_len * blocks z) (sym same) can.wide) can.small) in
      let enough : leb 4 (length val) ≡ true = ground (arith, can.four_bytes) in
      let next : ClientCpp = record client {
        order_counter = bump client.order_counter id (table ++ col);
        ore_helper = helper;
        prg = prg;
      } in
      (
        (
          next,
          send s
              (order_entry client.keys table col right td (client.order_counter id (table ++ col))),
        ),
        rw (enough, runs) refl,
        refl,
        refl,
      )

  CanPut-Keeps :
      (old new : ClientCpp) (table col val : Bytes)
      → Keeps old new
      → CanPut old table col val
      → CanPut new table col val
  CanPut-Keeps old new table col val k can =
      let e = sym k.ore_helper in
      record {
        ready = subst IsReady e can.ready;
        wide = subst (λ h. 32 ≤ h.params.block_len * blocks h.params) e can.wide;
        right_fits = subst (λ h. ore_index_right_len h.params ≤ max_ore_right) e can.right_fits;
        four_bytes = can.four_bytes;
        small = can.small;
        fits = can.fits;
      }

  -- `Put` on a server leaves the ciphertext at the label, whatever the indexes.
  put_on-ok :
      ⦃p : Platform⦄ (encrypt : Bytes → Bytes → Bytes) (id : ℕ) (flags : PutFlags)
      (table key col val : Bytes) (session : Session)
      → CanPut session.0 table col val
      → id < demo_server_num
      → (done : Session) × (put_on encrypt true id flags table key col val session ≡ ok done)
        × (done.0.keys ≡ session.0.keys)
        × (done.0.ring ≡ session.0.ring)
        × (b.pool_get done.1 (trapdoor session.0.keys table key col)
            ≡ encrypt session.0.keys.pk5 val)
  unfolding put_on proxy_put
  put_on-ok encrypt id flags table key col val session can known =
      let td = trapdoor session.0.keys table key col in
      let s3 = three flags id table col val td session in
      let kept = three-Keeps flags id table col val td session in
      let (s4, runs, keys, ring) =
        put_order-Keeps flags.ore_index id table col val td s3
          (CanPut-Keeps session.0 s3.0 table col val kept can) in
      let counted : ltb id demo_server_num ≡ true = ground (arith, known) in
      let fits : leb (length (table ++ col) + length val) max_tdvalue_size ≡ true =
        ground (arith, can.fits) in
      (
        (s4.0, send s4.1 (td, encrypt session.0.keys.pk5 val)),
        rw (counted, fits)
            (guards
                (flags.column_index
                  || (flags.equal_index_v1 || flags.equal_index_v2)
                  || flags.ore_index)
                (flags.equal_index_v1 || flags.equal_index_v2)
                ((if flags.ore_index then put_order true id table col val td s3 else ok s3) >>= λ s.
                  ok (s.0, send s.1 (td, encrypt session.0.keys.pk5 val)))
              ∙ ap (λ o. o >>= λ s. ok (s.0, send s.1 (td, encrypt session.0.keys.pk5 val))) runs),
        keys ∙ kept.keys,
        ring ∙ kept.ring,
        b.get_put s4.1 td (encrypt session.0.keys.pk5 val),
      )
    where
      guards :
          (x y : Bool) (k : Outcome Session)
          → (require (not x || true) >> (require (not y || true) >> k)) ≡ k
      guards true true k = refl
      guards true false k = refl
      guards false true k = refl
      guards false false k = refl

  -- With a client whose helper is ready for numbers of 32 bits, a value of at least four bytes that fits its
  -- buffers, `malloc` succeeding, a server of fewer than nine that the ring names for both `Put` and
  -- `Get`, and a cipher that is not empty and that is decrypted to the value: `Put` succeeds with every
  -- choice of indexes, and `Get` then returns the value.
  pub put-get :
      ⦃p : Platform⦄ (encrypt decrypt : Bytes → Bytes → Bytes) (flags : PutFlags) (id : ℕ)
      (table key col val old : Bytes) (client : ClientCpp) (servers : ℕ → b.Store)
      → CanPut client table col val
      → id < demo_server_num
      → query client.ring (put_route (trapdoor client.keys table key col)) ≡ some id
      → query client.ring (get_route (trapdoor client.keys table key col)) ≡ some id
      → length (encrypt client.keys.pk5 val) ≢ 0
      → decrypt client.keys.pk5 (encrypt client.keys.pk5 val) ≡ val
      → (done : ClientCpp × (ℕ → b.Store)) × (put encrypt true flags table key col val client
            servers
          ≡ ok done)
        × (get decrypt old table key col done.0 done.1 ≡ ok val)
  unfolding put get proxy_get
  put-get encrypt decrypt flags id table key col val old client servers can known route route' full
        back =
      let (done, runs, keys, ring, there) =
        put_on-ok encrypt id flags table key col val (client, servers id) can known in
      let long : (length (encrypt client.keys.pk5 val) == 0) ≡ false = ground (arith, full) in
      let same : (id == id) ≡ true = ground arith in
      (
        (done.0, λ i. if i == id then done.1 else servers i),
        rw (route, runs) refl,
        rw (keys, ring, route', same, there, long) (rw long (ap ok back)),
      )
