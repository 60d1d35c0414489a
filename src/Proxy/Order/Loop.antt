-- ===== src/Proxy/Order/Loop.antt =====
-- Proxy/TProxy.cpp: what the rounds of `OrderSearch` find on entries that have a trapdoor and a right part.
use asiaccs.Base.{Option}
use asiaccs.Proxy.{add_found}
use asiaccs.Base.{Outcome, ◌>>=◌}
use asiaccs.Base.{ℕ, zero, suc, ◌+◌, ◌-◌, ◌^◌, ◌<◌}
use asiaccs.Base.{◌≡◌, refl, sym, ap, ◌∙◌, arith}
use asiaccs.Base.{Bool, true, false, none, some, List, [], ◌∷◌, ◌++◌}
use asiaccs.Base.{leb, ◌==◌, if◌then◌else◌}
use asiaccs.Base.{u32, length}
use asiaccs.Base.{tabulate, length-append}
use asiaccs.Base.{ok}
use mathlib.Core.List.{append_assoc}
use asiaccs.Fastore.Platform.{Platform}
use asiaccs.Fastore.Ore.Compare.{Answer, one, nought, minus_one}
use asiaccs.Fastore.Helper.{OreHelper, compare_ore}
use asiaccs.Proxy.Services.{Bytes, Backend, substr, concat, take_bytes, drop_bytes}
use asiaccs.Proxy.Search.{take_bytes-append, drop_bytes-append}
use asiaccs.Proxy.{at_counter, fetch}
use asiaccs.Proxy.Order.{order_round, order_loop, says_yes}

-- The trapdoor of an entry and what comes after it.
substr-front : (td right : Bytes) → length td ≡ 32 → substr (td ++ right) 0 32 ≡ ok td
unfolding substr drop_bytes
substr-front td right ht =
    let room : leb (0 + 32) (length (td ++ right) + 1) ≡ true =
      ground (arith, ht, length-append td right) in
    let cut : take_bytes 32 ((td ++ right) ++ (0 ∷ [])) ≡ td =
      ap (take_bytes 32) (append_assoc td right (0 ∷ []))
      ∙ ap (λ n. take_bytes n (td ++ (right ++ (0 ∷ [])))) (sym ht)
      ∙ take_bytes-append td (right ++ (0 ∷ [])) in
    rw (room, cut) refl

substr-rest :
    (td right : Bytes)
    → length td ≡ 32
    → substr (td ++ right) 32 (length (td ++ right) - 32) ≡ ok right
unfolding substr
substr-rest td right ht =
    let size : length (td ++ right) - 32 ≡ length right =
      omega (arith, ht, length-append td right) in
    let room : leb (32 + length right) (length (td ++ right) + 1) ≡ true =
      ground (arith, ht, length-append td right) in
    let rest : drop_bytes 32 ((td ++ right) ++ (0 ∷ [])) ≡ right ++ (0 ∷ []) =
      ap (drop_bytes 32) (append_assoc td right (0 ∷ []))
      ∙ ap (λ n. drop_bytes n (td ++ (right ++ (0 ∷ [])))) (sym ht)
      ∙ drop_bytes-append td (right ++ (0 ∷ [])) in
    rw (size, room, rest, take_bytes-append right (0 ∷ [])) refl

-- The test of an answer that was written.
abbrev pub is_one : Answer → Bool
is_one one = true
is_one nought = false
is_one minus_one = false

says_yes-some : (a : Answer) → says_yes (some a) ≡ ok (is_one a)
unfolding says_yes
says_yes-some one = refl
says_yes-some nought = refl
says_yes-some minus_one = refl

module _ ⦃b : Backend⦄ ⦃p : Platform⦄ (s : b.Store) (index_trapdoor left : Bytes) where
  -- A round on an entry whose right part is compared with the left part.
  pub order_round-entry :
      (i : ℕ) (td right : Bytes) (a : Answer) (h h' : OreHelper)
      → length td ≡ 32
      → b.pool_get s (at_counter index_trapdoor i) ≡ td ++ right
      → compare_ore h left right i ≡ ok (some a, h')
      → order_round s index_trapdoor left i h ≡ ok (some (if is_one a then fetch s td else []), h')
  unfolding order_round
  order_round-entry i td right a h h' ht entry compared =
      let long : (length (td ++ right) == 0) ≡ false = ground (arith, ht, length-append td right) in
      let whole : leb 32 (length (td ++ right)) ≡ true =
        ground (arith, ht, length-append td right) in
      rw
        (
          entry,
          long,
          whole,
          substr-rest td right ht,
          compared,
          says_yes-some a,
          substr-front td right ht,
        )
        (picked (is_one a))
    where
      found_or_not : Bool → Outcome (Option (List Bytes) × OreHelper)
      found_or_not t = ok (some (if t then fetch s td else []), h')

      picked :
          (t : Bool)
          → if◌then◌else◌ {A = Outcome (Option (List Bytes) × OreHelper)} t
              (ok (some (fetch s td), h'))
              (ok (some [], h'))
            ≡ found_or_not t
      picked true = refl
      picked false = refl

  pub order_round-last :
      (i : ℕ) (h : OreHelper)
      → b.pool_get s (at_counter index_trapdoor i) ≡ []
      → order_round s index_trapdoor left i h ≡ ok (none, h)
  unfolding order_round
  order_round-last i h last = rw last refl

  -- The loop collects what the rounds find, with a helper that each round leaves good.
  pub order_loop-rounds :
      (Good : OreHelper → Type 0) (out : ℕ → List Bytes) (n c fuel : ℕ) (h : OreHelper)
      → c + n < 2 ^ 32
      → n < fuel
      → Good h
      → ((i : ℕ)
          → i < c + n
          → (g : OreHelper) → Good g
          → (g' : OreHelper) × (order_round s index_trapdoor left i g ≡ ok (some (out i), g'))
            × Good g')
      → b.pool_get s (at_counter index_trapdoor (c + n)) ≡ []
      → order_loop s index_trapdoor left fuel c h ≡ ok (some (concat (tabulate n c out)))
  unfolding order_loop concat
  order_loop-rounds Good out n c zero h small enough good runs last = absurd (omega (arith, enough))
  order_loop-rounds Good out zero c (suc fuel) h small enough good runs last =
      let here : b.pool_get s (at_counter index_trapdoor c) ≡ [] =
        ap (λ (k : ℕ). b.pool_get s (at_counter index_trapdoor k)) (omega arith) ∙ last in
      rw (order_round-last c h here) refl
  order_loop-rounds Good out (suc n) c (suc fuel) h small enough good runs last =
      let next : u32 (c + 1) ≡ suc c = omega (arith, small) in
      let (h', found, good') = runs c (omega arith) h good in
      let rest =
        order_loop-rounds Good out n (suc c) fuel h' (omega (arith, small)) (omega (arith, enough))
          good' (λ i k. runs i (omega (arith, k)))
          (ap (λ (k : ℕ). b.pool_get s (at_counter index_trapdoor k)) (omega arith) ∙ last) in
      rw found (
        ap (λ r. r >>= λ more. ok (add_found (out c) more))
          (ap (λ (k : ℕ). order_loop s index_trapdoor left fuel k h') next ∙ rest))
