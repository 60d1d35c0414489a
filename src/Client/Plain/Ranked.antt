-- ===== src/Client/Plain/Ranked.antt =====
-- Client/ClientCpp.cpp, `PutPlainText` with the second equality index, and its search on the proxy.
pub mod Rows
pub mod Search
use mathlib.Core.Bool.{true≢false}
use asiaccs.Base.{ℕ, zero, suc, ◌+◌, ◌≡◌, refl, sym, ap, ◌∙◌, subst, arith, inl, inr}
use asiaccs.Base.{Bool, true, false, Option, none, some, List, [], ◌∷◌, ◌++◌, map}
use asiaccs.Base.{◌==◌, if◌then◌else◌, Bool-cases, u32, length, length-append, length-map}
use asiaccs.Base.Int.{ℤ, int_to_string}
use asiaccs.Proxy.Services.{Bytes, Backend, codes, equal_bytes}
use asiaccs.Proxy.Search.{equal_bytes_refl, equal_bytes_eq}
use asiaccs.Caravel.Redis.{
  Run, done, ◌>>=◌, Reply, text, array, Address, Network, RedisHelper, def_rep_times, get_word,
  set_word, pool_get, pool_put, pool_run, ins, str,
}
use asiaccs.Proxy.Plain.{run_command, plain_put, index_rows, equal_search_2_plain_text}
use asiaccs.Proxy.Plain.Server.{texts, pool_run-texts, pool_get-reply}
use asiaccs.Client.{ClientCpp, trapdoor, put_route}
use asiaccs.Client.Routing.{query}
use asiaccs.Client.Plain.{Worlds, update, put_row, put_plain_text}

-- The sorted set of the index.
abbrev pub index_key : Bytes
index_key = codes "index"

abbrev pub zadd_words : Bytes → ℤ → List Bytes
zadd_words k n = codes "ZADD" ∷ index_key ∷ int_to_string n ∷ k ∷ []

abbrev pub zrange_words : ℤ → List Bytes
zrange_words n = codes "ZRANGEBYSCORE" ∷ index_key ∷ int_to_string n ∷ int_to_string n ∷ []

-- Scores are equal when their texts are.
abbrev pub same_int : ℤ → ℤ → Bool
same_int n u = equal_bytes (int_to_string n) (int_to_string u)

-- A text is not in a list.
abbrev pub NotIn : Bytes → List Bytes → Type 0
NotIn k [] = Unit {0}
NotIn k (j ∷ js) = (equal_bytes k j ≡ false) × NotIn k js

-- A Redis server with texts, and the members of the index by their score. SET changes one text; ZADD puts
-- a new member among those of its score. The server is reached within the repetitions.
pub record RankedServer (net : Network) : Type 1 where
  pub at : Address
  pub value : net.World → Bytes → Bytes
  pub ranked : net.World → ℤ → List Bytes
  pub get :
      (k : Bytes) (w : net.World)
      → net.run_with_connection at def_rep_times (get_word ∷ k ∷ []) w ≡ some (text (value w k), w)
  pub zrange :
      (n : ℤ) (w : net.World)
      → net.run_with_connection at def_rep_times (zrange_words n) w
        ≡ some (array (texts (ranked w n)), w)
  pub set :
      (k v : Bytes) (w : net.World)
      → equal_bytes k index_key ≡ false
      → (r : Reply) × (w' : net.World) × (net.run_with_connection at def_rep_times
            (set_word ∷ k ∷ v ∷ [])
            w
          ≡ some (r, w'))
        × ((j : Bytes) → value w' j ≡ (if equal_bytes k j then v else value w j))
        × ((u : ℤ) → ranked w' u ≡ ranked w u)
  pub zadd :
      (k : Bytes) (n : ℤ) (w : net.World)
      → ((u : ℤ) → NotIn k (ranked w u))
      → (r : Reply) × (w' : net.World) × (net.run_with_connection at def_rep_times
            (zadd_words k n)
            w
          ≡ some (r, w'))
        × ((j : Bytes) → value w' j ≡ value w j)
        × ((u : ℤ)
            → (front : List Bytes) × (back : List Bytes) × (ranked w u ≡ front ++ back)
              × (ranked w' u ≡ (if same_int n u then front ++ (k ∷ back) else front ++ back)))

-- How many rows have a value, and whether a key is among them.
unfoldable pub rows_of : ℤ → List (Bytes × ℤ) → ℕ
rows_of u [] = 0
rows_of u ((k, n) ∷ rows) = let rest = rows_of u rows in if same_int n u then suc rest else rest

unfoldable pub has_key : List (Bytes × ℤ) → Bytes → Bool
has_key [] j = false
has_key ((k, n) ∷ rows) j = let rest = has_key rows j in if equal_bytes k j then true else rest

-- Keys that are different, and none of them is that of the index.
abbrev pub Separate : List (Bytes × ℤ) → Type 0
Separate [] = Unit {0}
Separate ((k, n) ∷ rows) =
    (has_key rows k ≡ false) × (equal_bytes k index_key ≡ false) × Separate rows

module _ ⦃net : Network⦄ (s : RankedServer net) where
  -- Members of the index: rows that hold the value.
  abbrev pub AllHold : net.World → List (Bytes × ℤ) → ℤ → List Bytes → Type 0
  AllHold w rows u [] = Unit {0}
  AllHold w rows u (k ∷ ks) =
      (s.value w k ≡ int_to_string u) × (has_key rows k ≡ true) × AllHold w rows u ks

  -- The index has all rows under their values.
  abbrev pub IsRanked : net.World → List (Bytes × ℤ) → Type 0
  IsRanked w rows =
      (u : ℤ) → AllHold w rows u (s.ranked w u) × (length (s.ranked w u) ≡ rows_of u rows)

  pub AllHold-append :
      (w : net.World) (rows : List (Bytes × ℤ)) (u : ℤ) (front back : List Bytes)
      → AllHold w rows u (front ++ back)
      → AllHold w rows u front × AllHold w rows u back
  AllHold-append w rows u [] back h = (tt, h)
  AllHold-append w rows u (k ∷ front) back (value, key, h) =
      let (a, c) = AllHold-append w rows u front back h in ((value, key, a), c)

  pub AllHold-join :
      (w : net.World) (rows : List (Bytes × ℤ)) (u : ℤ) (front back : List Bytes)
      → AllHold w rows u front
      → AllHold w rows u back
      → AllHold w rows u (front ++ back)
  AllHold-join w rows u [] back a c = c
  AllHold-join w rows u (k ∷ front) back (value, key, a) c =
      (value, key, AllHold-join w rows u front back a c)

  -- A key that no row has is no member.
  pub AllHold-NotIn :
      (w : net.World) (rows : List (Bytes × ℤ)) (u : ℤ) (j : Bytes) (ks : List Bytes)
      → has_key rows j ≡ false
      → AllHold w rows u ks
      → NotIn j ks
  AllHold-NotIn w rows u j [] new h = tt
  AllHold-NotIn w rows u j (k ∷ ks) new (value, key, h) = (
    elim (Bool-cases (equal_bytes j k)) [
      | inl e ↦ absurd (true≢false (sym key ∙ ap (has_key rows) (sym (equal_bytes_eq j k e)) ∙ new))
      | inr e ↦ e
    ],
    AllHold-NotIn w rows u j ks new h,
  )

  -- A row more, under a new key, leaves the others.
  pub AllHold-more :
      (w w' : net.World) (rows : List (Bytes × ℤ)) (u n : ℤ) (j v : Bytes) (ks : List Bytes)
      → ((k : Bytes) → s.value w' k ≡ (if equal_bytes j k then v else s.value w k))
      → NotIn j ks
      → AllHold w rows u ks
      → AllHold w' ((j, n) ∷ rows) u ks
  unfolding has_key
  AllHold-more w w' rows u n j v [] same apart h = tt
  AllHold-more w w' rows u n j v (k ∷ ks) same (other, apart) (value, key, h) =
      (same k ∙ rw other value, rw other key, AllHold-more w w' rows u n j v ks same apart h)
