-- ===== src/Proxy/Plain/Scan.antt =====
-- Proxy/TProxy.cpp: the first plaintext equality search, which walks the keys with a cursor.
use asiaccs.Base.{ℕ, zero, suc, ◌≤◌, ◌≡◌, refl, sym, ap, ◌∙◌, ◌≢◌, arith, inl, inr}
use asiaccs.Base.{Bool, true, ◌&&◌, Option, some, List, [], ◌∷◌, ◌++◌, map}
use asiaccs.Base.{Bool-cases, length}
use asiaccs.Base.Int.{ℤ, pos, negsuc, is_int, scan_int}
use mathlib.Core.List.{append-nil, map-append}
use asiaccs.Proxy.Services.{Bytes, codes, equal_bytes}
use asiaccs.Caravel.Redis.{
  done, Reply, text, array, end, more, str, Network, RedisHelper, def_rep_times, pool_run, ins,
  ins_all,
}
use asiaccs.Proxy.Plain.{
  scan_into, starts_with_digit, scan_rows, scan_loop, equal_search_1_plain_text,
}
use asiaccs.Proxy.Plain.Filter.{keep}
use asiaccs.Proxy.Plain.Server.{RedisServer, texts, ins_all-texts, pool_get-reply}

keep-append {ℓ} :
    {A : Type ℓ} (p : A → Bool) (xs ys : List A) → keep p (xs ++ ys) ≡ keep p xs ++ keep p ys
unfolding keep
keep-append p [] ys = refl
keep-append p (x ∷ xs) ys = elim (Bool-cases (p x)) [
  | inl e ↦ rw e (ap (λ t. x ∷ t) (keep-append p xs ys))
  | inr e ↦ rw e (keep-append p xs ys)
]

-- The command of a round, and its answer: the next cursor and some keys.
abbrev pub scan_words : Bytes → List Bytes
scan_words cursor = codes "SCAN" ∷ cursor ∷ codes "COUNT" ∷ codes "10000" ∷ []

abbrev pub scan_reply : Bytes → List Bytes → Reply
scan_reply next page = array (more (text next) (more (array (texts page)) end))

-- The keys of some answers.
unfoldable pub all_keys : List (Bytes × List Bytes) → List Bytes
all_keys [] = []
all_keys ((next, page) ∷ pages) = page ++ all_keys pages

scan_into-number :
    (s : Bytes) (n : ℤ) (old : Option ℤ)
    → scan_int s ≡ some n
    → is_int n ≡ true
    → scan_into s old ≡ done (some n)
unfolding scan_into
scan_into-number s n old e small = rw (e, scan_into, small) refl

module _ ⦃net : Network⦄ (s : RedisServer net) where
  -- From a cursor on, the server answers with the cursors and the keys of `pages`; all cursors but
  -- the last are `int`s other than 0, and the last is 0.
  abbrev pub IsScan : net.World → Bytes → List (Bytes × List Bytes) → Type 0
  IsScan w cursor [] = ⊥
  IsScan w cursor ((next, page) ∷ []) =
      (net.run_with_connection s.at def_rep_times (scan_words cursor) w
        ≡ some (scan_reply next page, w))
      × (scan_int next ≡ some (pos 0))
  IsScan w cursor ((next, page) ∷ (p ∷ pages)) =
      (net.run_with_connection s.at def_rep_times (scan_words cursor) w
        ≡ some (scan_reply next page, w))
      × ((n : ℤ) × (scan_int next ≡ some n) × (is_int n ≡ true) × (n ≢ pos 0))
      × IsScan w next (p ∷ pages)

module _ ⦃net : Network⦄ (s : RedisServer net) (h : RedisHelper)
    (opened : h.ptr_pool ≡ some s.at) where
  pool_run-scan :
      (cmd : List Bytes) (next : Bytes) (page : List Bytes) (w : net.World)
      → net.run_with_connection s.at def_rep_times cmd w ≡ some (scan_reply next page, w)
      → pool_run h cmd w ≡ done (next ∷ page, w)
  unfolding pool_run ins ins_all
  pool_run-scan cmd next page w answer = rw (opened, answer, ins_all-texts (next ∷ []) page) refl

  -- The rows of a page that hold the value.
  abbrev pub rows_with : Bytes → net.World → List Bytes → List Bytes
  rows_with key w ks =
      map (λ k. str (s.reply w k))
        (keep (λ k. starts_with_digit k && equal_bytes key (str (s.reply w k))) ks)

  scan_rows-keep :
      (key : Bytes) (ks : List Bytes) (w : net.World)
      → scan_rows h key ks w ≡ done (rows_with key w ks, w)
  unfolding scan_rows keep
  scan_rows-keep key [] w = refl
  scan_rows-keep key (k ∷ ks) w =
      let rest = scan_rows-keep key ks w in
      elim (Bool-cases (starts_with_digit k)) [
        | inl e ↦
            let got = pool_get-reply h s.at k w w (s.reply w k) opened (s.get k w) in
            elim (Bool-cases (equal_bytes key (str (s.reply w k)))) [
              | inl hit ↦ rw (e, got, rest, hit) refl
              | inr miss ↦ rw (e, got, rest, miss) refl
            ]
        | inr e ↦ rw (e, rest) refl
      ]

  rows_with-append :
      (key : Bytes) (w : net.World) (xs ys : List Bytes)
      → rows_with key w (xs ++ ys) ≡ rows_with key w xs ++ rows_with key w ys
  rows_with-append key w xs ys =
      let p = λ (k : Bytes). starts_with_digit k && equal_bytes key (str (s.reply w k)) in
      ap (map (λ k. str (s.reply w k))) (keep-append p xs ys)
      ∙ map-append (λ k. str (s.reply w k)) (keep p xs) (keep p ys)

  scan_loop-last :
      (fuel : ℕ) (key : Bytes) (old : Option ℤ) (cursor next : Bytes) (page : List Bytes)
      (w : net.World)
      → net.run_with_connection s.at def_rep_times (scan_words cursor) w
        ≡ some (scan_reply next page, w)
      → scan_int next ≡ some (pos 0)
      → scan_loop (suc fuel) h key old cursor w ≡ done (some (rows_with key w page, w))
  unfolding scan_loop
  scan_loop-last fuel key old cursor next page w answer last =
      let ran = pool_run-scan (scan_words cursor) next page w answer in
      let read = scan_into-number next (pos 0) old last refl in
      rw (ran, read, scan_rows-keep key page w) refl

  scan_loop-more :
      (fuel : ℕ) (key : Bytes) (old : Option ℤ) (cursor next : Bytes) (page rest : List Bytes)
      (n : ℤ) (w : net.World)
      → net.run_with_connection s.at def_rep_times (scan_words cursor) w
        ≡ some (scan_reply next page, w)
      → scan_int next ≡ some n
      → is_int n ≡ true
      → n ≢ pos 0
      → scan_loop fuel h key (some n) next w ≡ done (some (rest, w))
      → scan_loop (suc fuel) h key old cursor w ≡ done (some (rows_with key w page ++ rest, w))
  unfolding scan_loop
  scan_loop-more fuel key old cursor next page rest (pos zero) w answer number small going later =
      absurd (going refl)
  scan_loop-more fuel key old cursor next page rest (pos (suc n)) w answer number small going
        later =
      let ran = pool_run-scan (scan_words cursor) next page w answer in
      let read = scan_into-number next (pos (suc n)) old number small in
      rw (ran, read, scan_rows-keep key page w, later) refl
  scan_loop-more fuel key old cursor next page rest (negsuc n) w answer number small going later =
      let ran = pool_run-scan (scan_words cursor) next page w answer in
      let read = scan_into-number next (negsuc n) old number small in
      rw (ran, read, scan_rows-keep key page w, later) refl

  scan_loop-keep :
      (fuel : ℕ) (key : Bytes) (old : Option ℤ) (cursor : Bytes) (pages : List (Bytes × List Bytes))
      (w : net.World)
      → length pages ≤ fuel
      → IsScan s w cursor pages
      → scan_loop fuel h key old cursor w ≡ done (some (rows_with key w (all_keys pages), w))
  unfolding all_keys
  scan_loop-keep fuel key old cursor [] w enough scan = absurd scan
  scan_loop-keep zero key old cursor (p ∷ pages) w enough scan = absurd (omega (arith, enough))
  scan_loop-keep (suc fuel) key old cursor ((next, page) ∷ []) w enough (answer, last) =
      scan_loop-last fuel key old cursor next page w answer last
      ∙ ap (λ ks. done (some (rows_with key w ks, w))) (sym (append-nil page))
  scan_loop-keep (suc fuel) key old cursor ((next, page) ∷ (p ∷ pages)) w enough
        (answer, (n, number, small, going), scan) =
      let later =
        scan_loop-keep fuel key (some n) next (p ∷ pages) w (omega (arith, enough)) scan in
      scan_loop-more fuel key old cursor next page (rows_with key w (all_keys (p ∷ pages))) n w
        answer number small going later
      ∙ ap (λ t. done (some (t, w))) (sym (rows_with-append key w page (all_keys (p ∷ pages))))

  -- Through an open pool to a server that walks its keys in some pages, with cursors that are
  -- `int`s, not 0 before the last page and 0 on it, `EqualSearch1PlainText` ends after as many
  -- rounds as there are pages. It returns the values of exactly the keys that begin with a digit
  -- and hold the searched value, page by page, and changes nothing on the server.
  pub equal_search_1_plain_text-ends :
      (fuel : ℕ) (key : Bytes) (pages : List (Bytes × List Bytes)) (w : net.World)
      → length pages ≤ fuel
      → IsScan s w (codes "0") pages
      → equal_search_1_plain_text fuel h key w
        ≡ done (
            some (
              map
                  (λ k. str (s.reply w k))
                  (keep
                    (λ k. starts_with_digit k && equal_bytes key (str (s.reply w k)))
                    (all_keys pages)),
              w,
            ))
  unfolding equal_search_1_plain_text
  equal_search_1_plain_text-ends fuel key pages w enough scan =
      scan_loop-keep fuel key (some (pos 0)) (codes "0") pages w enough scan
