-- ===== src/Proxy/Plain/Filter.antt =====
-- Proxy/TProxy.cpp: the plaintext order search, and the second equality search, as filters of the rows.
use asiaccs.Base.{◌≡◌, refl, ap, ◌∙◌, inl, inr}
use asiaccs.Base.{Bool, true, ◌&&◌, Option, none, some, List, [], ◌∷◌, map}
use asiaccs.Base.{if◌then◌else◌, Bool-cases}
use asiaccs.Base.Int.{ℤ, ltb_ℤ, is_int, int_to_string, scan_int-int_to_string}
use asiaccs.Proxy.Services.{Bytes, codes, equal_bytes}
use asiaccs.Caravel.Redis.{done, str, Network, RedisHelper}
use asiaccs.Proxy.Plain.{
  scan_into, stoi, all_digits, order_rows, order_search_plain_text, index_rows,
}
use asiaccs.Proxy.Plain.Server.{RedisServer, pool_run-texts, pool_get-reply}

-- The items that pass a test.
unfoldable pub keep {ℓ} : {A : Type ℓ} → (A → Bool) → List A → List A
keep p [] = []
keep p (x ∷ xs) = let rest = keep p xs in if p x then x ∷ rest else rest

-- `iCmp` is 1 for the rows above a value, and anything else for those below.
abbrev pub is_wanted : Bool → ℤ → ℤ → Bool
is_wanted above key n = if above then ltb_ℤ key n else ltb_ℤ n key

scan_into-int_to_string :
    (n : ℤ) (old : Option ℤ) → is_int n ≡ true → scan_into (int_to_string n) old ≡ done (some n)
unfolding scan_into
scan_into-int_to_string n old small = rw (scan_int-int_to_string n, scan_into, small) refl

stoi-int_to_string : (n : ℤ) → is_int n ≡ true → stoi (int_to_string n) ≡ done n
unfolding stoi
stoi-int_to_string n small = rw (scan_int-int_to_string n, stoi, small) refl

module _ ⦃net : Network⦄ (s : RedisServer net) where
  -- Every row whose key is all digits holds the text of an `int`.
  abbrev pub HoldsInts : (Bytes → ℤ) → List Bytes → net.World → Type 0
  HoldsInts number [] w = Unit {0}
  HoldsInts number (k ∷ ks) w =
      (all_digits k ≡ true
        → (str (s.reply w k) ≡ int_to_string (number k)) × (is_int (number k) ≡ true))
      × HoldsInts number ks w

module _ ⦃net : Network⦄ (s : RedisServer net) (h : RedisHelper)
    (opened : h.ptr_pool ≡ some s.at) where
  order_rows-keep :
      (above : Bool) (key : ℤ) (number : Bytes → ℤ) (val : Option ℤ) (ks : List Bytes)
      (w : net.World)
      → HoldsInts s number ks w
      → order_rows h above key val ks w
        ≡ done (
          map
              (λ k. int_to_string (number k))
              (keep (λ k. all_digits k && is_wanted above key (number k)) ks),
          w,
        )
  unfolding order_rows keep
  order_rows-keep above key number val [] w rows = refl
  order_rows-keep above key number val (k ∷ ks) w (row, rows) = elim (Bool-cases (all_digits k)) [
    | inl e ↦
        let (holds, small) = row e in
        let got = pool_get-reply h s.at k w w (s.reply w k) opened (s.get k w) in
        let read = ap (λ t. scan_into t val) holds ∙ scan_into-int_to_string (number k) val small in
        let rest = order_rows-keep above key number (some (number k)) ks w rows in
        elim (Bool-cases (is_wanted above key (number k))) [
          | inl hit ↦ rw (e, got, read, rest, hit) refl
          | inr miss ↦ rw (e, got, read, rest, miss) refl
        ]
    | inr e ↦ rw e (order_rows-keep above key number val ks w rows)
  ]

  -- Through an open pool to a server where every row whose key is all digits holds an `int`,
  -- `OrderSearchPlainText` for an `int` returns the values of exactly the rows with such keys that
  -- are greater, if `cmp` is "1", or else less than it, in the order of the keys, and changes
  -- nothing on the server.
  pub order_search_plain_text-keep :
      (key : ℤ) (cmp : Bytes) (number : Bytes → ℤ) (w : net.World)
      → is_int key ≡ true
      → HoldsInts s number (s.keys w) w
      → order_search_plain_text h (int_to_string key) cmp w
        ≡ done (
          map
              (λ k. int_to_string (number k))
              (keep
                (λ k. all_digits k && is_wanted (equal_bytes cmp (codes "1")) key (number k))
                (s.keys w)),
          w,
        )
  unfolding order_search_plain_text
  order_search_plain_text-keep key cmp number w small rows =
      let all =
        pool_run-texts h s.at (codes "KEYS" ∷ codes "*" ∷ []) (s.keys w) w w opened
          (s.keys_all w) in
      rw (stoi-int_to_string key small, all)
        (order_rows-keep (equal_bytes cmp (codes "1")) key number none (s.keys w) w rows)

  index_rows-keep :
      (value : Bytes) (ks : List Bytes) (w : net.World)
      → index_rows h value ks w
        ≡ done (map (λ k. value) (keep (λ k. equal_bytes value (str (s.reply w k))) ks), w)
  unfolding index_rows keep
  index_rows-keep value [] w = refl
  index_rows-keep value (k ∷ ks) w =
      let got = pool_get-reply h s.at k w w (s.reply w k) opened (s.get k w) in
      let rest = index_rows-keep value ks w in
      elim (Bool-cases (equal_bytes value (str (s.reply w k)))) [
        | inl hit ↦ rw (got, rest, hit) refl
        | inr miss ↦ rw (got, rest, miss) refl
      ]
