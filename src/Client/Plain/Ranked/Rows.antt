-- ===== src/Client/Plain/Ranked/Rows.antt =====
-- Client/ClientCpp.cpp, `PutPlainText`: a row more in the index of a proxy.
use asiaccs.Base.{◌≡◌, refl, sym, ap, ◌∙◌, subst, arith, inl, inr}
use asiaccs.Base.{true, false, some, List, [], ◌∷◌, ◌++◌, map}
use asiaccs.Base.{if◌then◌else◌, Bool-cases, length, length-append}
use asiaccs.Base.Int.{ℤ, int_to_string}
use asiaccs.Proxy.Services.{Bytes, equal_bytes}
use asiaccs.Proxy.Search.{equal_bytes_refl, equal_bytes_eq}
use asiaccs.Caravel.Redis.{
  done, ◌>>=◌, Reply, text, Network, RedisHelper, def_rep_times, set_word, pool_put, pool_run, ins,
}
use asiaccs.Proxy.Plain.{run_command, plain_put, index_rows}
use asiaccs.Proxy.Plain.Server.{pool_get-reply}
use asiaccs.Client.Plain.{put_row}
use asiaccs.Client.Plain.Ranked.{
  index_key, zadd_words, same_int, RankedServer, rows_of, has_key, AllHold, IsRanked,
  AllHold-append, AllHold-join, AllHold-NotIn, AllHold-more,
}

module _ ⦃net : Network⦄ (s : RankedServer net) where
  module _ (h : RedisHelper) (opened : h.ptr_pool ≡ some s.at) where
    pool_run-done :
        (cmd : List Bytes) (w w1 : net.World) (r : Reply)
        → net.run_with_connection s.at def_rep_times cmd w ≡ some (r, w1)
        → (out : List Bytes) × (run_command h cmd w ≡ done (out, w1))
    unfolding pool_run
    pool_run-done cmd w w1 r answer = (ins [] r, rw (opened, answer) refl)

    put_row-done :
        (k v : Bytes) (w w1 : net.World) (r : Reply)
        → net.run_with_connection s.at def_rep_times (set_word ∷ k ∷ v ∷ []) w ≡ some (r, w1)
        → put_row h k v w ≡ done w1
    unfolding plain_put pool_put
    put_row-done k v w w1 r answer = rw (opened, answer) refl

    -- The index after a row more, under one score.
    ranked_more :
        (w w' : net.World) (rows : List (Bytes × ℤ)) (key : Bytes) (n u : ℤ)
        (front back after : List Bytes)
        → ((k : Bytes)
            → s.value w' k ≡ (if equal_bytes key k then int_to_string n else s.value w k))
        → has_key rows key ≡ false
        → AllHold s w rows u (front ++ back)
        → length (front ++ back) ≡ rows_of u rows
        → after ≡ (if same_int n u then front ++ (key ∷ back) else front ++ back)
        → AllHold s w' ((key, n) ∷ rows) u after × (length after ≡ rows_of u ((key, n) ∷ rows))
    unfolding rows_of has_key
    ranked_more w w' rows key n u front back after same new holds size is =
        let (in_front, in_back) = AllHold-append s w rows u front back holds in
        let v = int_to_string n in
        let a =
          AllHold-more s w w' rows u n key v front same
            (AllHold-NotIn s w rows u key front new in_front) in_front in
        let c =
          AllHold-more s w w' rows u n key v back same
            (AllHold-NotIn s w rows u key back new in_back) in_back in
        let self = equal_bytes_refl key in
        elim (Bool-cases (same_int n u)) [
          | inl e ↦
              let shape : after ≡ front ++ (key ∷ back) = rw e at is in
              let held : s.value w' key ≡ int_to_string u =
                same key ∙ rw self (equal_bytes_eq (int_to_string n) (int_to_string u) e) in
              let known : has_key ((key, n) ∷ rows) key ≡ true = rw self refl in
              let sizes = length-append front (key ∷ back) in
              let sizes' = length-append front back in
              (
                subst (AllHold s w' ((key, n) ∷ rows) u) (sym shape)
                    (AllHold-join s w' ((key, n) ∷ rows) u front (key ∷ back) a (held, known, c)),
                rw e (omega (arith, ap length shape, sizes, sizes', size)),
              )
          | inr e ↦
              let shape : after ≡ front ++ back = rw e at is in
              (
                subst (AllHold s w' ((key, n) ∷ rows) u) (sym shape)
                    (AllHold-join s w' ((key, n) ∷ rows) u front back a c),
                rw e (ap length shape ∙ size),
              )
        ]

    pub rank_row :
        (w : net.World) (rows : List (Bytes × ℤ)) (key : Bytes) (n : ℤ)
        → IsRanked s w rows
        → has_key rows key ≡ false
        → equal_bytes key index_key ≡ false
        → (w' : net.World) × ((run_command h (zadd_words key n) w >>= λ r.
              put_row h key (int_to_string n) r.1)
            ≡ done w')
          × IsRanked s w' ((key, n) ∷ rows)
    rank_row w rows key n ranked new apart =
        let (r1, w1, added, kept, places) =
          s.zadd key n w (λ u. AllHold-NotIn s w rows u key (s.ranked w u) new (ranked u).0) in
        let (r2, w2, stored, changed, same_ranks) = s.set key (int_to_string n) w1 apart in
        let (out, ran) = pool_run-done (zadd_words key n) w w1 r1 added in
        (
          w2,
          ap (λ x. x >>= λ r. put_row h key (int_to_string n) r.1) ran
              ∙ put_row-done key (int_to_string n) w1 w2 r2 stored,
          λ u.
              let (front, back, before, after) = places u in
              ranked_more w w2 rows key n u front back (s.ranked w2 u)
                (λ k.
                  changed k ∙ ap (λ x. if equal_bytes key k then int_to_string n else x) (kept k))
                new (subst (AllHold s w rows u) before (ranked u).0)
                (sym (ap length before) ∙ (ranked u).1) (same_ranks u ∙ after),
        )

    -- The search finds the members of a score, all of which hold the value.
    pub index_rows-all :
        (w : net.World) (rows : List (Bytes × ℤ)) (u : ℤ) (ks : List Bytes)
        → AllHold s w rows u ks
        → index_rows h (int_to_string u) ks w ≡ done (map (λ k. int_to_string u) ks, w)
    unfolding index_rows
    index_rows-all w rows u [] holds = refl
    index_rows-all w rows u (k ∷ ks) (value, key, holds) =
        let got = pool_get-reply h s.at k w w (text (s.value w k)) opened (s.get k w) in
        let rest = index_rows-all w rows u ks holds in
        let self = equal_bytes_refl (int_to_string u) in rw (got, value, rest, self) refl
