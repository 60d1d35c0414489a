-- ===== src/Proxy/Search.antt =====
-- Proxy/TProxy.cpp: what the searches return for the index that a client has written.
use asiaccs.Base.{ℕ, zero, suc, ◌+◌, ◌^◌, ◌≤◌, ◌<◌}
use asiaccs.Base.{◌≡◌, refl, sym, ap, ap₂, ◌∙◌, inl, inr, arith}
use asiaccs.Base.{Bool, true, false, ◌&&◌, Option, none, some, List, [], ◌∷◌, ◌++◌}
use asiaccs.Base.{leb, ◌==◌, if◌then◌else◌, ==_iff, Bool-cases}
use asiaccs.Base.{u32, length}
use asiaccs.Base.{tabulate, length-append}
use asiaccs.Base.{Outcome, ok, ◌>>=◌}
use mathlib.Core.Bool.{true≢false}
use mathlib.Core.List.{append_assoc}
use asiaccs.Proxy.Services.{Bytes, Backend, memcmp, substr, take_bytes, drop_bytes, equal_bytes}
use asiaccs.Proxy.Services.{concat}
use asiaccs.Proxy.{Round, search_loop, equal_round, equal_search_1, at_counter, fetch, add_found}

-- The loop collects the rounds up to the first that stops; one round more than there are entries is
-- enough fuel.
search_loop-rounds :
    (round : ℕ → Round) (out : ℕ → List Bytes) (n c fuel : ℕ)
    → c + n < 2 ^ 32
    → n < fuel
    → ((i : ℕ) → i < c + n → round i ≡ ok (some (out i)))
    → round (c + n) ≡ ok none
    → search_loop round fuel c ≡ ok (some (concat (tabulate n c out)))
unfolding search_loop concat
search_loop-rounds round out n c zero small enough runs stops = absurd (omega (arith, enough))
search_loop-rounds round out zero c (suc fuel) small enough runs stops =
    let here : round c ≡ ok none = ap round (omega arith) ∙ stops in rw here refl
search_loop-rounds round out (suc n) c (suc fuel) small enough runs stops =
    let next : u32 (c + 1) ≡ suc c = omega (arith, small) in
    let rest =
      search_loop-rounds round out n (suc c) fuel (omega (arith, small)) (omega (arith, enough))
        (λ i h. runs i (omega (arith, h))) (ap round (omega arith) ∙ stops) in
    ap (λ o. o >>= go_on (search_loop round fuel (u32 (c + 1)))) (runs c (omega arith))
    ∙ ap (λ r. r >>= λ more. ok (add_found (out c) more)) (ap (search_loop round fuel) next ∙ rest)
  where
    go_on : Outcome (Option (List Bytes)) → Option (List Bytes) → Outcome (Option (List Bytes))
    go_on later = elim [
      | none ↦ ok (some [])
      | some found ↦ later >>= λ more. ok (add_found found more)
    ]

-- The loop on an index that counts only some of `n` rows, those that are hit: `rank i` of them come
-- before row `i`.
pub search_loop-ranked :
    (round : ℕ → Round) (rank : ℕ → ℕ) (hit : ℕ → Bool) (out : ℕ → List Bytes) (n left m fuel : ℕ)
    → ((i : ℕ) → rank (suc i) ≡ (if hit i then suc (rank i) else rank i))
    → ((i : ℕ) → i ≤ n → rank i < 2 ^ 32)
    → ((i : ℕ) → i < n → hit i ≡ true → round (rank i) ≡ ok (some (out i)))
    → round (rank n) ≡ ok none
    → m + left ≡ n
    → left < fuel
    → search_loop round fuel (rank m)
      ≡ ok (some (concat (tabulate left m (λ i. if hit i then out i else []))))
unfolding search_loop concat
search_loop-ranked round rank hit out n left m zero step small runs stops e enough =
    absurd (omega (arith, enough))
search_loop-ranked round rank hit out n zero m (suc fuel) step small runs stops e enough =
    let here : round (rank m) ≡ ok none = ap (λ k. round (rank k)) (omega (arith, e)) ∙ stops in
    rw here refl
search_loop-ranked round rank hit out n (suc left) m (suc fuel) step small runs stops e enough =
    elim (Bool-cases (hit m)) [
      | inl yes_hit ↦
          let up : rank (suc m) ≡ suc (rank m) =
            step m ∙ ap (λ t. if t then suc (rank m) else rank m) yes_hit in
          let next : u32 (rank m + 1) ≡ rank (suc m) =
            omega (arith, up, small (suc m) (omega (arith, e))) in
          let rest =
            ap (search_loop round fuel) next
            ∙ search_loop-ranked round rank hit out n left (suc m) fuel step small runs stops
                (omega (arith, e)) (omega (arith, enough)) in
          rw (runs m (omega (arith, e)) yes_hit, rest, yes_hit) refl
      | inr no_hit ↦
          let up : rank (suc m) ≡ rank m =
            step m ∙ ap (λ t. if t then suc (rank m) else rank m) no_hit in
          let rest =
            ap (search_loop round (suc fuel)) (sym up)
            ∙ search_loop-ranked round rank hit out n left (suc m) (suc fuel) step small runs stops
                (omega (arith, e)) (omega (arith, enough)) in
          rest
          ∙ ap
              (λ t. ok (
                some (
                  (if t then out m else [])
                  ++ concat (tabulate left (suc m) (λ i. if hit i then out i else [])))))
              (sym no_hit)
    ]

-- The first 32 bytes of a string decide a comparison, and the next 32 are cut out.
pub take_bytes-append : (a c : Bytes) → take_bytes (length a) (a ++ c) ≡ a
unfolding take_bytes
take_bytes-append [] c = refl
take_bytes-append (x ∷ a) c = ap (λ t. x ∷ t) (take_bytes-append a c)

pub drop_bytes-append : (a c : Bytes) → drop_bytes (length a) (a ++ c) ≡ c
unfolding drop_bytes
drop_bytes-append [] c = refl
drop_bytes-append (x ∷ a) c = drop_bytes-append a c

length-take_bytes : (n : ℕ) (a : Bytes) → n ≤ length a → length (take_bytes n a) ≡ n
unfolding take_bytes
length-take_bytes zero a h = refl
length-take_bytes (suc n) [] h = absurd (omega (arith, h))
length-take_bytes (suc n) (x ∷ a) h = ap suc (length-take_bytes n a (omega (arith, h)))

pub equal_bytes_refl : (a : Bytes) → equal_bytes a a ≡ true
unfolding equal_bytes
equal_bytes_refl [] = refl
equal_bytes_refl (x ∷ a) =
    let same : (x == x) ≡ true = ground arith in rw (same, equal_bytes_refl a) refl

pub equal_bytes_eq : (a c : Bytes) → equal_bytes a c ≡ true → a ≡ c
unfolding equal_bytes
equal_bytes_eq [] [] e = refl
equal_bytes_eq [] (y ∷ c) e = absurd (true≢false (sym e))
equal_bytes_eq (x ∷ a) [] e = absurd (true≢false (sym e))
equal_bytes_eq (x ∷ a) (y ∷ c) e = elim (Bool-cases (x == y)) [
  | inl same ↦
      ap₂ ◌∷◌ ((==_iff x y).0 same)
        (equal_bytes_eq a c (sym (ap (λ b. if b then equal_bytes a c else false) same) ∙ e))
  | inr apart ↦ absurd (true≢false (sym e ∙ ap (λ b. if b then equal_bytes a c else false) apart))
]

-- An entry of an equality index: 32 bytes to compare, then the 32 bytes of a trapdoor.
memcmp-entry :
    (a tag td : Bytes)
    → length a ≡ 32
    → length tag ≡ 32
    → memcmp a (tag ++ td) 32 ≡ ok (equal_bytes a tag)
unfolding memcmp
memcmp-entry a tag td ha ht =
    let room : (leb 32 (length a + 1) && leb 32 (length (tag ++ td) + 1)) ≡ true =
      ground (arith, ha, ht, length-append tag td) in
    let left : take_bytes 32 (a ++ (0 ∷ [])) ≡ a =
      ap (λ n. take_bytes n (a ++ (0 ∷ []))) (sym ha) ∙ take_bytes-append a (0 ∷ []) in
    let right : take_bytes 32 ((tag ++ td) ++ (0 ∷ [])) ≡ tag =
      ap (take_bytes 32) (append_assoc tag td (0 ∷ []))
      ∙ ap (λ n. take_bytes n (tag ++ (td ++ (0 ∷ [])))) (sym ht)
      ∙ take_bytes-append tag (td ++ (0 ∷ [])) in
    rw (room, left, right) refl

substr-entry :
    (tag td : Bytes) → length tag ≡ 32 → length td ≡ 32 → substr (tag ++ td) 32 32 ≡ ok td
unfolding substr
substr-entry tag td ht hd =
    let room : leb (32 + 32) (length (tag ++ td) + 1) ≡ true =
      ground (arith, hd, ht, length-append tag td) in
    let rest : drop_bytes 32 ((tag ++ td) ++ (0 ∷ [])) ≡ td ++ (0 ∷ []) =
      ap (drop_bytes 32) (append_assoc tag td (0 ∷ []))
      ∙ ap (λ n. drop_bytes n (tag ++ (td ++ (0 ∷ [])))) (sym ht)
      ∙ drop_bytes-append tag (td ++ (0 ∷ [])) in
    let cut : take_bytes 32 (td ++ (0 ∷ [])) ≡ td =
      ap (λ n. take_bytes n (td ++ (0 ∷ []))) (sym hd) ∙ take_bytes-append td (0 ∷ []) in
    rw (room, rest, cut) refl

module _ ⦃b : Backend⦄ (s : b.Store) (index_trapdoor mask : Bytes) (i : ℕ) where
  -- A round on an entry adds its data when its tag is the mask at the counter.
  pub equal_round-entry :
      (tag td : Bytes)
      → length tag ≡ 32
      → length td ≡ 32
      → b.pool_get s (at_counter index_trapdoor i) ≡ tag ++ td
      → equal_round s index_trapdoor mask i
        ≡ ok (some (if equal_bytes (at_counter mask i) tag then fetch s td else []))
  unfolding equal_round
  equal_round-entry tag td ht hd entry =
      let long : (length (tag ++ td) == 0) ≡ false = ground (arith, length-append tag td, ht, hd) in
      rw
        (
          entry,
          long,
          memcmp-entry (at_counter mask i) tag td (b.hmac_length _ _) ht,
          substr-entry tag td ht hd,
        )
        (picked (equal_bytes (at_counter mask i) tag))
    where
      picked :
          (t : Bool)
          → (if t then ok (some (fetch s td)) else ok (some []))
            ≡ ok (some (if t then fetch s td else []))
      picked true = refl
      picked false = refl

  pub equal_round-last :
      b.pool_get s (at_counter index_trapdoor i) ≡ []
      → equal_round s index_trapdoor mask i ≡ ok none
  unfolding equal_round
  equal_round-last last = rw last refl

-- An equality index of `n` entries at `index_trapdoor`.
pub record HasEntries ⦃b : Backend⦄ (s : b.Store) (index_trapdoor : Bytes) (tag td : ℕ → Bytes)
    (n : ℕ) : Type 0 where
  pub few : n < 2 ^ 32
  pub tag_length : (i : ℕ) → length (tag i) ≡ 32
  pub td_length : (i : ℕ) → length (td i) ≡ 32
  pub entry : (i : ℕ) → i < n → b.pool_get s (at_counter index_trapdoor i) ≡ tag i ++ td i
  pub last : b.pool_get s (at_counter index_trapdoor n) ≡ []

module _ ⦃b : Backend⦄ (s : b.Store) (index_trapdoor : Bytes) (tag td : ℕ → Bytes) (n : ℕ)
    (entries : HasEntries s index_trapdoor tag td n) where
  -- What entry `i` adds for a mask.
  abbrev pub matched : Bytes → ℕ → List Bytes
  matched mask i = if equal_bytes (at_counter mask i) (tag i) then fetch s (td i) else []

  equal_round-matched :
      (mask : Bytes) (i : ℕ)
      → i < n
      → equal_round s index_trapdoor mask i ≡ ok (some (matched mask i))
  equal_round-matched mask i h =
      equal_round-entry s index_trapdoor mask i (tag i) (td i) (entries.tag_length i)
        (entries.td_length i) (entries.entry i h)

  -- `EqualSearch1` on an index of `n` entries, fewer than 2^32, with more fuel than entries, ends
  -- and returns the data of exactly the entries whose tag is the mask at their counter, in order.
  pub equal_search_1-matched :
      (fuel : ℕ) (mask : Bytes)
      → n < fuel
      → equal_search_1 fuel s index_trapdoor mask ≡ ok (some (concat (tabulate n 0 (matched mask))))
  unfolding equal_search_1
  equal_search_1-matched fuel mask enough =
      search_loop-rounds (equal_round s index_trapdoor mask) (matched mask) n 0 fuel
        (omega (arith, entries.few)) enough (λ i h. equal_round-matched mask i (omega (arith, h)))
        (ap (equal_round s index_trapdoor mask) (omega arith)
          ∙ equal_round-last s index_trapdoor mask n entries.last)
