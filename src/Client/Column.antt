-- ===== src/Client/Column.antt =====
-- The column index end to end: rows that `Put` has written to a server, and what `ProxyGetColumn`
-- returns there for the tokens of `GetCol`.
use asiaccs.Base.{ℕ, suc, ◌≤◌, ◌<◌}
use asiaccs.Base.{◌≡◌, refl, ap, ◌∙◌, ◌≢◌, arith}
use asiaccs.Base.{Bool, true, false, [], ◌∷◌, ◌++◌}
use asiaccs.Base.{ltb, ◌==◌}
use asiaccs.Base.{length}
use asiaccs.Base.{tabulate}
use asiaccs.Base.{Outcome, ok}
use asiaccs.Base.{tabulate_congr}
use asiaccs.Fastore.Platform.{Platform}
use asiaccs.Proxy.Services.{Bytes, Backend, concat}
use asiaccs.Proxy.{at_counter, fetch, proxy_put, proxy_get_column}
use asiaccs.Proxy.Column.{hidden, proxy_get_column-entries}
use asiaccs.Client.{Keys, bump, trapdoor, column_entry}
use asiaccs.Client.Put.{PutFlags, put_column, put_on, Session, demo_server_num}
use asiaccs.Client.Log.{
  Row, bump_next, Apart, Stored, put_row, put_row-Stored, repeat, repeat-keeps,
}

abbrev pub only_column : PutFlags
only_column = record {
  column_index = true;
  equal_index_v1 = false;
  equal_index_v2 = false;
  ore_index = false;
}

module _ ⦃b : Backend⦄ (keys : Keys) (table col : Bytes) (rows : ℕ → Row)
    (encrypt : Bytes → Bytes → Bytes) where
  abbrev pub place : ℕ → Bytes
  place i = at_counter (b.hmac keys.pk3 (table ++ col)) i

  abbrev pub mask : ℕ → Bytes
  mask i = at_counter (b.hmac keys.pk4 (table ++ col)) i

  abbrev pub label : ℕ → Bytes
  label i = trapdoor keys table (rows i).key col

  abbrev pub cipher : ℕ → Bytes
  cipher i = encrypt keys.pk5 (rows i).val

  -- The entry of a row.
  abbrev pub IsEntry : ℕ → Bytes → Type 0
  IsEntry i e = e ≡ hidden (mask i) (label i)

  -- The ciphertexts of the first `n` rows are not empty, and the digests that name their places and
  -- labels do not collide.
  pub record NoClash (n : ℕ) : Type 0 where
    pub names : Apart place label cipher n
    pub full : (i : ℕ) → i < n → length (cipher i) ≢ 0

  -- The first `m` of `n` rows are on a server that has counters.
  pub record Written (id n m : ℕ) (session : Session) : Type 0 where
    pub same_keys : session.0.keys ≡ keys
    pub known : id < demo_server_num
    pub counter : session.0.column_counter id (table ++ col) ≡ m
    pub log : Stored place label cipher IsEntry n m session.1

  put_on-Written :
      ⦃p : Platform⦄ (allocated : Bool) (id n m : ℕ) (session : Session)
      → NoClash n
      → m < n
      → Written id n m session
      → (next : Session) × (put_on encrypt allocated id only_column table
            (rows m).key
            col
            (rows m).val
            session
          ≡ ok next)
        × Written id n (suc m) next
  unfolding put_on put_column column_entry proxy_put
  put_on-Written allocated id n m (client, s) clash h w =
      let counted : ltb id demo_server_num ≡ true = ground (arith, w.known) in
      (
        (
          record client { column_counter = bump client.column_counter id (table ++ col) },
          put_row place label cipher s m (hidden (mask m) (label m)),
        ),
        rw (w.same_keys, w.counter, counted) refl,
        record {
          same_keys = w.same_keys;
          known = w.known;
          counter =
              bump_next client.column_counter id m (table ++ col) w.counter
                (omega (arith, clash.names.few, h));
          log = put_row-Stored place label cipher IsEntry n m s _ clash.names h refl w.log;
        },
      )

  -- Rows put one after the other on one server.
  abbrev pub put_rows : ⦃p : Platform⦄ → Bool → ℕ → ℕ → Session → Outcome Session
  put_rows allocated id n =
      repeat (λ m. put_on encrypt allocated id only_column table (rows m).key col (rows m).val) n 0

  -- Start with the index of the column and its counter empty and put `n` rows, indexed by column,
  -- whose digests do not collide: all are put, and for the tokens of `GetCol` and a number up to `n`
  -- `ProxyGetColumn` returns the ciphertexts of exactly that many rows, in the order of the puts.
  pub put_rows-proxy_get_column :
      ⦃p : Platform⦄ (allocated : Bool) (id n num : ℕ) (session : Session)
      → NoClash n
      → Written id n 0 session
      → num ≤ n
      → (done : Session) × (put_rows allocated id n session ≡ ok done)
        × (proxy_get_column done.1
              (b.hmac keys.pk3 (table ++ col))
              (b.hmac keys.pk4 (table ++ col))
              num
            ≡ ok (concat (tabulate num 0 (λ i. cipher i ∷ []))))
  unfolding trapdoor
  put_rows-proxy_get_column allocated id n num session clash empty le =
      let (done, runs, w) =
        repeat-keeps
          (λ m. put_on encrypt allocated id only_column table (rows m).key col (rows m).val)
          (Written id n) n n 0 session (λ m r h. put_on-Written allocated id n m r clash h)
          (omega arith) empty in
      (
        done,
        runs,
        proxy_get_column-entries done.1 (b.hmac keys.pk3 (table ++ col))
              (b.hmac keys.pk4 (table ++ col)) label num
              (λ i. b.hmac_length keys.pk1 (table ++ ((rows i).key ++ col)))
              (λ i h. let (e, found, shape) = w.log.entry i (omega (arith, h, le)) in found ∙ shape)
            ∙ ap (λ l. ok (concat l))
                (tabulate_congr num 0 (λ i. fetch done.1 (label i)) (λ i. cipher i ∷ [])
                  (λ i l h.
                    let below : i < n = omega (arith, h, le) in
                    let long : (length (cipher i) == 0) ≡ false =
                      ground (arith, clash.full i below) in
                    rw (w.log.stored i below, long) refl)),
      )
