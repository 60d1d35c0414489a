-- ===== src/Client/Index.antt =====
-- The first equality index end to end: rows that `Put` has written to a server, and what the
-- server returns for the tokens of `Search`.
use asiaccs.Base.{ℕ, suc, ◌+◌, ◌≤◌, ◌<◌}
use asiaccs.Base.{◌≡◌, refl, sym, ap, ◌∙◌, ◌≢◌, inl, inr, arith}
use asiaccs.Base.{Bool, true, false, some, List, [], ◌∷◌, ◌++◌}
use asiaccs.Base.{ltb, leb, ◌==◌, if◌then◌else◌, Bool-cases}
use asiaccs.Base.{length}
use asiaccs.Base.{tabulate}
use asiaccs.Base.{Outcome, ok}
use asiaccs.Base.{tabulate_congr}
use mathlib.Core.Bool.{true≢false}
use asiaccs.Fastore.Platform.{Platform}
use asiaccs.Proxy.Services.{Bytes, Backend, equal_bytes, concat}
use asiaccs.Proxy.{at_counter, equal_search_1, fetch, proxy_put}
use asiaccs.Proxy.Search.{HasEntries, equal_search_1-matched, equal_bytes_refl, equal_bytes_eq}
use asiaccs.Client.{Keys, bump, trapdoor, equal_v1_entry, max_tdvalue_size}
use asiaccs.Client.Put.{PutFlags, put_equal_v1, put_on, Session, demo_server_num}
use asiaccs.Client.Log.{
  Row, bump_next, Apart, Stored, put_row, put_row-Stored, repeat, repeat-keeps,
}

abbrev pub only_v1 : PutFlags
only_v1 = record {
  column_index = false;
  equal_index_v1 = true;
  equal_index_v2 = false;
  ore_index = false;
}

module _ ⦃b : Backend⦄ (keys : Keys) (table col : Bytes) (rows : ℕ → Row)
    (encrypt : Bytes → Bytes → Bytes) where
  abbrev pub place : ℕ → Bytes
  place i = at_counter (b.hmac keys.pk6 (table ++ col)) i

  abbrev pub tag : Bytes → ℕ → Bytes
  tag v i = at_counter (b.hmac keys.pk7 ((table ++ col) ++ v)) i

  abbrev pub label : ℕ → Bytes
  label i = trapdoor keys table (rows i).key col

  abbrev pub cipher : ℕ → Bytes
  cipher i = encrypt keys.pk5 (rows i).val

  -- The entry of a row.
  abbrev pub IsEntry : ℕ → Bytes → Type 0
  IsEntry i e = e ≡ tag (rows i).val i ++ label i

  -- The first `n` rows fit the buffer of the client, their ciphertexts are not empty, and the digests
  -- that name their places and labels do not collide.
  pub record NoClash (n : ℕ) : Type 0 where
    pub names : Apart place label cipher n
    pub short : (i : ℕ) → i < n → length (table ++ col) + length (rows i).val ≤ max_tdvalue_size
    pub full : (i : ℕ) → i < n → length (cipher i) ≢ 0

  -- The first `m` of `n` rows are on a server that has counters.
  pub record Written (id n m : ℕ) (session : Session) : Type 0 where
    pub same_keys : session.0.keys ≡ keys
    pub known : id < demo_server_num
    pub counter : session.0.equal_v1_counter id (table ++ col) ≡ m
    pub log : Stored place label cipher IsEntry n m session.1

  -- The session after a row.
  abbrev next_session : ℕ → ℕ → Session → Session
  next_session id m (client, s) = (
    record client { equal_v1_counter = bump client.equal_v1_counter id (table ++ col) },
    put_row place label cipher s m (tag (rows m).val m ++ label m),
  )

  put_on-next :
      ⦃p : Platform⦄ (allocated : Bool) (id n m : ℕ) (session : Session)
      → NoClash n
      → m < n
      → Written id n m session
      → put_on encrypt allocated id only_v1 table (rows m).key col (rows m).val session
        ≡ ok (next_session id m session)
  unfolding put_on put_equal_v1 equal_v1_entry proxy_put
  put_on-next allocated id n m (client, s) clash h w =
      let fits : leb (length (table ++ col) + length (rows m).val) max_tdvalue_size ≡ true =
        ground (arith, clash.short m h) in
      let counted : ltb id demo_server_num ≡ true = ground (arith, w.known) in
      rw (w.same_keys, w.counter, counted, fits) refl

  next_session-Written :
      (id n m : ℕ) (session : Session)
      → NoClash n
      → m < n
      → Written id n m session
      → Written id n (suc m) (next_session id m session)
  next_session-Written id n m (client, s) clash h w = record {
    same_keys = w.same_keys;
    known = w.known;
    counter =
        bump_next client.equal_v1_counter id m (table ++ col) w.counter
          (omega (arith, clash.names.few, h));
    log = put_row-Stored place label cipher IsEntry n m s _ clash.names h refl w.log;
  }

  -- Rows put one after the other on one server.
  abbrev pub put_rows : ⦃p : Platform⦄ → Bool → ℕ → ℕ → Session → Outcome Session
  put_rows allocated id n =
      repeat (λ m. put_on encrypt allocated id only_v1 table (rows m).key col (rows m).val) n 0

  put_rows-Written :
      ⦃p : Platform⦄ (allocated : Bool) (id n : ℕ) (session : Session)
      → NoClash n
      → Written id n 0 session
      → (done : Session) × (put_rows allocated id n session ≡ ok done) × Written id n n done
  put_rows-Written allocated id n session clash w =
      repeat-keeps (λ m. put_on encrypt allocated id only_v1 table (rows m).key col (rows m).val)
        (Written id n) n n 0 session
        (λ m r h v. (
          next_session id m r,
          put_on-next allocated id n m r clash h v,
          next_session-Written id n m r clash h v,
        ))
        (omega arith) w

  Written-HasEntries :
      (id n : ℕ) (session : Session)
      → NoClash n
      → Written id n n session
      → HasEntries session.1 (b.hmac keys.pk6 (table ++ col)) (λ i. tag (rows i).val i) label n
  unfolding trapdoor
  Written-HasEntries id n session clash w = record {
    few = clash.names.few;
    tag_length = λ i. b.hmac_length _ _;
    td_length = λ i. b.hmac_length _ _;
    entry = λ i h. (w.log.entry i h).1 ∙ (w.log.entry i h).2;
    last = w.log.free n (omega arith) (omega arith);
  }

  -- What row `i` adds to the result of a search for `q`.
  abbrev pub answer : Bytes → ℕ → List Bytes
  answer q i = if equal_bytes (rows i).val q then cipher i ∷ [] else []

  -- Tags of different values differ at the counter of a row.
  abbrev pub TellsApart : ℕ → Bytes → Type 0
  TellsApart n q = (i : ℕ) → i < n → tag q i ≡ tag (rows i).val i → (rows i).val ≡ q

  -- Start with the index of the column and its counter empty and put `n` rows, indexed for equality
  -- by the first strategy, whose digests do not collide: all are put, and for the tokens of a search
  -- for `q`, whose tags differ from those of other values, and more fuel than rows, `EqualSearch1`
  -- ends and returns the ciphertexts of exactly the rows whose value is `q`, in the order of the puts.
  pub put_rows-equal_search_1 :
      ⦃p : Platform⦄ (allocated : Bool) (id n fuel : ℕ) (session : Session) (q : Bytes)
      → NoClash n
      → Written id n 0 session
      → TellsApart n q
      → n < fuel
      → (done : Session) × (put_rows allocated id n session ≡ ok done)
        × (equal_search_1 fuel done.1
              (b.hmac keys.pk6 (table ++ col))
              (b.hmac keys.pk7 ((table ++ col) ++ q))
            ≡ ok (some (concat (tabulate n 0 (answer q)))))
  put_rows-equal_search_1 allocated id n fuel session q clash empty tells enough =
      let (done, runs, w) = put_rows-Written allocated id n session clash empty in
      let entries = Written-HasEntries id n done clash w in
      (
        done,
        runs,
        equal_search_1-matched done.1 (b.hmac keys.pk6 (table ++ col)) (λ i. tag (rows i).val i)
              label n entries fuel (b.hmac keys.pk7 ((table ++ col) ++ q)) enough
            ∙ ap (λ l. ok (some (concat l)))
                (tabulate_congr n 0 _ (answer q)
                  (λ i a h. same_answer done w i (omega (arith, h)))),
      )
    where
      same_answer :
          (done : Session)
          → Written id n n done
          → (i : ℕ) → i < n
          → (if equal_bytes (tag q i) (tag (rows i).val i) then fetch done.1 (label i) else [])
            ≡ answer q i
      same_answer done w i h = elim (Bool-cases (equal_bytes (rows i).val q)) [
        | inl e ↦
            let same = equal_bytes_eq (rows i).val q e in
            let tags : equal_bytes (tag q i) (tag (rows i).val i) ≡ true =
              ap (λ v. equal_bytes (tag q i) (tag v i)) same ∙ equal_bytes_refl (tag q i) in
            let long : (length (cipher i) == 0) ≡ false = ground (arith, clash.full i h) in
            rw (tags, e, w.log.stored i h, long) refl
        | inr e ↦ elim (Bool-cases (equal_bytes (tag q i) (tag (rows i).val i))) [
          | inl t ↦
              let same = tells i h (equal_bytes_eq (tag q i) (tag (rows i).val i) t) in
              absurd (true≢false (sym (ap (λ v. equal_bytes v q) same ∙ equal_bytes_refl q) ∙ e))
          | inr t ↦ rw (t, e) refl
        ]
      ]
