-- ===== src/Client/Plain/Ranked/Search.antt =====
-- Client/ClientCpp.cpp, `PutPlainText`: rows that are put are found by the second equality search.
use asiaccs.Base.{ℕ, ◌≡◌, refl, sym, ap, subst, arith}
use asiaccs.Base.{true, false, some, List, [], ◌∷◌, map}
use asiaccs.Base.{◌==◌, length}
use asiaccs.Base.Int.{ℤ, int_to_string}
use asiaccs.Proxy.Services.{Bytes, Backend}
use asiaccs.Caravel.Redis.{Run, done, ◌>>=◌, Network, RedisHelper}
use asiaccs.Proxy.Plain.{run_command, equal_search_2_plain_text}
use asiaccs.Proxy.Plain.Server.{pool_run-texts}
use asiaccs.Client.{ClientCpp, trapdoor, put_route}
use asiaccs.Client.Routing.{query}
use asiaccs.Client.Plain.{Worlds, update, put_row, put_plain_text}
use asiaccs.Client.Plain.Ranked.{
  zadd_words, zrange_words, RankedServer, rows_of, Separate, AllHold, IsRanked,
}
use asiaccs.Client.Plain.Ranked.Rows.{rank_row, index_rows-all}

-- `PutPlainText` of rows with the second equality index, the first of the list last.
unfoldable pub put_plain_rows :
    ⦃net : Network⦄ ⦃b : Backend⦄
    → ClientCpp
    → (ℕ → RedisHelper)
    → Bytes
    → Bytes
    → List (Bytes × ℤ)
    → Worlds
    → Run Worlds
put_plain_rows client helpers table col [] worlds = done worlds
put_plain_rows client helpers table col ((key, n) ∷ rows) worlds =
    put_plain_rows client helpers table col rows worlds >>= λ later.
    put_plain_text client helpers table key col n false true false later

module _ ⦃net : Network⦄ ⦃b : Backend⦄ (client : ClientCpp) (helpers : ℕ → RedisHelper)
    (table col : Bytes) (id : ℕ) (s : RankedServer net)
    (opened : (helpers id).ptr_pool ≡ some s.at) where
  -- The ring names one proxy for all rows.
  abbrev pub Routed : List (Bytes × ℤ) → Type 0
  Routed [] = Unit {0}
  Routed ((key, n) ∷ rows) =
      (query client.ring (put_route (trapdoor client.keys table key col)) ≡ some id) × Routed rows

  put_plain_text-second :
      (key : Bytes) (n : ℤ) (worlds : Worlds) (w : net.World)
      → query client.ring (put_route (trapdoor client.keys table key col)) ≡ some id
      → (run_command (helpers id) (zadd_words key n) (worlds id) >>= λ r.
          put_row (helpers id) key (int_to_string n) r.1)
        ≡ done w
      → put_plain_text client helpers table key col n false true false worlds
        ≡ done (update worlds id w)
  unfolding put_plain_text
  put_plain_text-second key n worlds w route puts = rw (route, puts) refl

  put_plain_rows-IsRanked :
      (rows : List (Bytes × ℤ)) (worlds : Worlds)
      → ((u : ℤ) → s.ranked (worlds id) u ≡ [])
      → Separate rows
      → Routed rows
      → (after : Worlds) × (put_plain_rows client helpers table col rows worlds ≡ done after)
        × IsRanked s (after id) rows
  unfolding put_plain_rows rows_of
  put_plain_rows-IsRanked [] worlds empty separate routed = (
    worlds,
    refl,
    λ u. (subst (AllHold s (worlds id) [] u) (sym (empty u)) tt, ap length (empty u)),
  )
  put_plain_rows-IsRanked ((key, n) ∷ rows) worlds empty (new, apart, separate) (route, routed) =
      let (before, puts, ranked) = put_plain_rows-IsRanked rows worlds empty separate routed in
      let (w, one, ranked') =
        rank_row s (helpers id) opened (before id) rows key n ranked new apart in
      let self : (id == id) ≡ true = ground arith in
      let at_id : update before id w id ≡ w = rw self refl in
      (
        update before id w,
        rw puts (put_plain_text-second key n before w route one),
        subst (λ v. IsRanked s v ((key, n) ∷ rows)) (sym at_id) ranked',
      )

  -- Put rows with `PutPlainText` and the second equality index, under keys that are different and
  -- not that of the index, all of which the ring sends to one proxy with an open pool, where the
  -- index is empty: all are put, and `EqualSearch2PlainText` of that proxy for any value returns
  -- it once for each row that has it, and changes nothing.
  pub put_plain_rows-equal_search_2_plain_text :
      (rows : List (Bytes × ℤ)) (worlds : Worlds) (u : ℤ)
      → ((v : ℤ) → s.ranked (worlds id) v ≡ [])
      → Separate rows
      → Routed rows
      → (after : Worlds) × (found : List Bytes) × (put_plain_rows client helpers table col rows
            worlds
          ≡ done after)
        × (equal_search_2_plain_text (helpers id) (int_to_string u) (after id)
            ≡ done (map (λ k. int_to_string u) found, after id))
        × (length found ≡ rows_of u rows)
  unfolding equal_search_2_plain_text
  put_plain_rows-equal_search_2_plain_text rows worlds u empty separate routed =
      let (after, puts, ranked) = put_plain_rows-IsRanked rows worlds empty separate routed in
      let (holds, size) = ranked u in
      let found = s.ranked (after id) u in
      let listed =
        pool_run-texts (helpers id) s.at (zrange_words u) found (after id) (after id) opened
          (s.zrange u (after id)) in
      (
        after,
        found,
        puts,
        rw listed (index_rows-all s (helpers id) opened (after id) rows u found holds),
        size,
      )
