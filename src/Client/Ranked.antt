-- ===== src/Client/Ranked.antt =====
-- The second equality index end to end: each value has its own counter, and the search for a value
-- reads only the entries of that value.
use asiaccs.Base.{ℕ, zero, suc, ◌+◌, ◌≤◌, ◌<◌}
use asiaccs.Base.{◌≡◌, refl, sym, ap, ◌∙◌, ◌≢◌, inl, inr, arith}
use asiaccs.Base.{Bool, true, false, some, List, [], ◌∷◌, ◌++◌}
use asiaccs.Base.{ltb, leb, ◌==◌, if◌then◌else◌, Bool-cases}
use asiaccs.Base.{length}
use asiaccs.Base.{tabulate}
use asiaccs.Base.{Outcome, ok}
use mathlib.Core.Bool.{true≢false}
use asiaccs.Fastore.Platform.{Platform}
use asiaccs.Proxy.Services.{Bytes, Backend, concat, equal_bytes}
use asiaccs.Proxy.{at_counter, proxy_put, equal_search_2, equal_round}
use asiaccs.Proxy.Search.{
  equal_round-entry, equal_round-last, equal_bytes_refl, equal_bytes_eq, search_loop-ranked,
}
use asiaccs.Client.{Keys, Counters, bump, trapdoor, equal_v2_entry, max_tdvalue_size}
use asiaccs.Client.Put.{PutFlags, put_equal_v2, put_on, Session, demo_server_num}
use asiaccs.Client.Log.{
  Row, bump_next, Apart, Stored, put_row, put_row-Stored, repeat, repeat-keeps,
}

abbrev pub only_v2 : PutFlags
only_v2 = record {
  column_index = false;
  equal_index_v1 = false;
  equal_index_v2 = true;
  ore_index = false;
}

-- A counter of another label stays.
bump_other :
    (m : Counters) (id : ℕ) (name other : Bytes)
    → other ≢ name
    → bump m id name id other ≡ m id other
unfolding bump
bump_other m id name other apart = elim (Bool-cases (equal_bytes other name)) [
  | inl same ↦ absurd (apart (equal_bytes_eq other name same))
  | inr differ ↦ let here : (id == id) ≡ true = ground arith in rw (here, differ) refl
]

module _ ⦃b : Backend⦄ (keys : Keys) (table col : Bytes) (rows : ℕ → Row)
    (encrypt : Bytes → Bytes → Bytes) where
  -- The rows before row `m` whose value is `v`.
  abbrev pub rank : Bytes → ℕ → ℕ
  rank v zero = 0
  rank v (suc m) = if equal_bytes (rows m).val v then suc (rank v m) else rank v m

  -- The label of the counter of a value, and its tags.
  abbrev pub name : Bytes → Bytes
  name v = b.hmac keys.pk8 ((table ++ col) ++ v)

  abbrev pub tag : Bytes → ℕ → Bytes
  tag v c = at_counter (b.hmac keys.pk9 ((table ++ col) ++ v)) c

  abbrev pub place : ℕ → Bytes
  place i = at_counter (name (rows i).val) (rank (rows i).val i)

  abbrev pub label : ℕ → Bytes
  label i = trapdoor keys table (rows i).key col

  abbrev pub cipher : ℕ → Bytes
  cipher i = encrypt keys.pk5 (rows i).val

  -- The entry of a row.
  abbrev pub IsEntry : ℕ → Bytes → Type 0
  IsEntry i e = e ≡ tag (rows i).val (rank (rows i).val i) ++ label i

  -- The first `n` rows fit the buffer of the client, their ciphertexts are not empty, and neither the
  -- digests that name their places and labels nor those of their values, nor those of row `n`,
  -- collide.
  pub record NoClash (n : ℕ) : Type 0 where
    pub names : Apart place label cipher n
    pub values :
        (i j : ℕ)
        → i ≤ n
        → j ≤ n
        → name (rows i).val ≡ name (rows j).val
        → (rows i).val ≡ (rows j).val
    pub short : (i : ℕ) → i < n → length (table ++ col) + length (rows i).val ≤ max_tdvalue_size
    pub full : (i : ℕ) → i < n → length (cipher i) ≢ 0

  -- The first `m` of `n` rows are on a server that has counters.
  pub record Written (id n m : ℕ) (session : Session) : Type 0 where
    pub same_keys : session.0.keys ≡ keys
    pub known : id < demo_server_num
    pub counters :
        (i : ℕ) → i ≤ n → session.0.equal_v2_counter id (name (rows i).val) ≡ rank (rows i).val m
    pub log : Stored place label cipher IsEntry n m session.1

  rank-le : (v : Bytes) (m : ℕ) → rank v m ≤ m
  rank-le v zero = omega arith
  rank-le v (suc m) = elim (Bool-cases (equal_bytes (rows m).val v)) [
    | inl e ↦ rw e (omega (arith, rank-le v m))
    | inr e ↦ rw e (omega (arith, rank-le v m))
  ]

  -- The session after a row.
  abbrev next_session : ℕ → ℕ → Session → Session
  next_session id m (client, s) = (
    record client { equal_v2_counter = bump client.equal_v2_counter id (name (rows m).val) },
    put_row place label cipher s m (tag (rows m).val (rank (rows m).val m) ++ label m),
  )

  put_on-next :
      ⦃p : Platform⦄ (allocated : Bool) (id n m : ℕ) (session : Session)
      → NoClash n
      → m < n
      → Written id n m session
      → put_on encrypt allocated id only_v2 table (rows m).key col (rows m).val session
        ≡ ok (next_session id m session)
  unfolding put_on put_equal_v2 equal_v2_entry proxy_put
  put_on-next allocated id n m (client, s) clash h w =
      let fits : leb (length (table ++ col) + length (rows m).val) max_tdvalue_size ≡ true =
        ground (arith, clash.short m h) in
      let counted : ltb id demo_server_num ≡ true = ground (arith, w.known) in
      rw (w.same_keys, w.counters m (omega (arith, h)), counted, fits) refl

  counters-next :
      (id n m : ℕ) (session : Session)
      → NoClash n
      → m < n
      → Written id n m session
      → (i : ℕ) → i ≤ n
      → bump session.0.equal_v2_counter id (name (rows m).val) id (name (rows i).val)
        ≡ rank (rows i).val (suc m)
  counters-next id n m (client, s) clash h w i le =
      elim (Bool-cases (equal_bytes (rows m).val (rows i).val)) [
        | inl e ↦
            let same = equal_bytes_eq (rows m).val (rows i).val e in
            ap (λ v. bump client.equal_v2_counter id (name v) id (name (rows i).val)) same
            ∙ bump_next client.equal_v2_counter id (rank (rows i).val m) (name (rows i).val)
                (w.counters i le) (omega (arith, clash.names.few, h, rank-le (rows i).val m))
            ∙ rw e refl
        | inr e ↦
            bump_other client.equal_v2_counter id (name (rows m).val) (name (rows i).val) (λ same.
              let values = clash.values i m le (omega (arith, h)) same in
              true≢false (
                sym (equal_bytes_refl (rows m).val)
                ∙ ap (equal_bytes (rows m).val) (sym values)
                ∙ e))
            ∙ w.counters i le
            ∙ rw e refl
      ]

  put_on-Written :
      ⦃p : Platform⦄ (allocated : Bool) (id n m : ℕ) (session : Session)
      → NoClash n
      → m < n
      → Written id n m session
      → (next : Session) × (put_on encrypt allocated id only_v2 table
            (rows m).key
            col
            (rows m).val
            session
          ≡ ok next)
        × Written id n (suc m) next
  put_on-Written allocated id n m session clash h w = (
    next_session id m session,
    put_on-next allocated id n m session clash h w,
    record {
      same_keys = w.same_keys;
      known = w.known;
      counters = counters-next id n m session clash h w;
      log = put_row-Stored place label cipher IsEntry n m session.1 _ clash.names h refl w.log;
    },
  )

  -- Rows put one after the other on one server.
  abbrev pub put_rows : ⦃p : Platform⦄ → Bool → ℕ → ℕ → Session → Outcome Session
  put_rows allocated id n =
      repeat (λ m. put_on encrypt allocated id only_v2 table (rows m).key col (rows m).val) n 0

  -- What row `i` adds to the result of a search for `q`.
  abbrev pub answer : Bytes → ℕ → List Bytes
  answer q i = if equal_bytes (rows i).val q then cipher i ∷ [] else []

  -- A round of the search at a row of the value.
  equal_round-hit :
      (id n : ℕ) (session : Session) (q : Bytes)
      → NoClash n
      → Written id n n session
      → (i : ℕ) → i < n
      → equal_bytes (rows i).val q ≡ true
      → equal_round session.1 (name q) (b.hmac keys.pk9 ((table ++ col) ++ q)) (rank q i)
        ≡ ok (some (cipher i ∷ []))
  unfolding trapdoor
  equal_round-hit id n (client, s) q clash w i h hit =
      let same = equal_bytes_eq (rows i).val q hit in
      let (e, found, shape) = w.log.entry i h in
      let long : (length (cipher i) == 0) ≡ false = ground (arith, clash.full i h) in
      let round =
        equal_round-entry s (name (rows i).val) (b.hmac keys.pk9 ((table ++ col) ++ (rows i).val))
          (rank (rows i).val i) (tag (rows i).val (rank (rows i).val i)) (label i)
          (b.hmac_length _ _) (b.hmac_length _ _) (found ∙ shape) in
      ap (λ v. equal_round s (name v) (b.hmac keys.pk9 ((table ++ col) ++ v)) (rank v i)) (sym same)
      ∙ round
      ∙ rw (equal_bytes_refl (tag (rows i).val (rank (rows i).val i)), w.log.stored i h, long) refl

  -- Start with the index and its counters empty and put `n` rows, indexed for equality by the second
  -- strategy, whose digests, with those of row `n`, do not collide: all are put, and for the tokens of a
  -- search for the value of row `n`, which is not put, and more fuel than rows, `EqualSearch2` ends
  -- and returns the ciphertexts of exactly the rows that have that value, in the order of the puts.
  pub put_rows-equal_search_2 :
      ⦃p : Platform⦄ (allocated : Bool) (id n fuel : ℕ) (session : Session)
      → NoClash n
      → Written id n 0 session
      → n < fuel
      → (done : Session) × (put_rows allocated id n session ≡ ok done)
        × (equal_search_2 fuel done.1
              (b.hmac keys.pk8 ((table ++ col) ++ (rows n).val))
              (b.hmac keys.pk9 ((table ++ col) ++ (rows n).val))
            ≡ ok (some (concat (tabulate n 0 (answer (rows n).val)))))
  unfolding equal_search_2
  put_rows-equal_search_2 allocated id n fuel session clash empty enough =
      let q = (rows n).val in
      let (done, runs, w) =
        repeat-keeps (λ m. put_on encrypt allocated id only_v2 table (rows m).key col (rows m).val)
          (Written id n) n n 0 session (λ m r h. put_on-Written allocated id n m r clash h)
          (omega arith) empty in
      (
        done,
        runs,
        search_loop-ranked (equal_round done.1 (name q) (b.hmac keys.pk9 ((table ++ col) ++ q)))
            (rank q) (λ i. equal_bytes (rows i).val q) (λ i. cipher i ∷ []) n n 0 fuel (λ i. refl)
            (λ i h. omega (arith, h, rank-le q i, clash.names.few))
            (λ i h hit. equal_round-hit id n done q clash w i h hit)
            (equal_round-last done.1 (name q) (b.hmac keys.pk9 ((table ++ col) ++ q)) (rank q n)
              (w.log.free n (omega arith) (omega arith)))
            (omega arith) enough,
      )
