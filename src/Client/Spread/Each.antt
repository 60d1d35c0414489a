-- ===== src/Client/Spread/Each.antt =====
-- Client/ClientCpp.cpp: the random sequence asks every server once.
use mathlib.Core.List.{Perm}
use asiaccs.Base.{length-tabulate}
use asiaccs.Base.{ℕ, zero, suc, ◌+◌, ◌%◌, ◌≤◌, ◌<◌}
use asiaccs.Base.{◌≡◌, refl, ap, ◌∙◌, ◌⊎◌, inl, inr, arith}
use asiaccs.Base.{true, false, some, List, [], ◌∷◌, ◌++◌}
use asiaccs.Base.{ltb, ◌==◌, ltb_iff, Bool-cases, length, tabulate}
use asiaccs.Base.{length-append, ok, fault}
use native.Mathlib.Nat.{mod-lt}
use asiaccs.Base.Occurs.{
  occurs, remove, occurs-append, occurs-remove, length-remove, occurs-tabulate, occurs-cons_self,
  perm_of_occurs,
}
use asiaccs.Client.Spread.{max_servers, taken, draw_server, fill_order, server_order}

taken-occurs :
    (xs : List ℕ) (k : ℕ)
    → (taken xs k ≡ true) × (0 < occurs k xs) ⊎ (taken xs k ≡ false) × (occurs k xs ≡ 0)
unfolding taken occurs
taken-occurs [] k = inr (refl, refl)
taken-occurs (x ∷ xs) k = elim (Bool-cases (x == k)) [
  | inl e ↦ rw e (inl (refl, omega arith))
  | inr e ↦ rw e (taken-occurs xs k)
]

-- A draw among enough numbers ends, with a server that is not there yet.
draw_server-fresh :
    (fuel : ℕ) (rand : ℕ → ℕ) (pos num d : ℕ) (ids : List ℕ)
    → 0 < num
    → d < fuel
    → taken ids (rand (pos + d) % num) ≡ false
    → (sid : ℕ) × (used : ℕ) × (draw_server fuel rand pos num ids ≡ some (sid, used))
      × (sid < num)
      × (taken ids sid ≡ false)
unfolding draw_server
draw_server-fresh zero rand pos num d ids some_server below free = absurd (omega (arith, below))
draw_server-fresh (suc fuel) rand pos num zero ids some_server below free =
    let here : taken ids (rand pos % num) ≡ false =
      ap (λ (n : ℕ). taken ids (rand n % num)) (omega arith) ∙ free in
    rw here (rand pos % num, suc pos, refl, mod-lt (rand pos) some_server, here)
draw_server-fresh (suc fuel) rand pos num (suc d) ids some_server below free =
    elim (Bool-cases (taken ids (rand pos % num))) [
      | inl t ↦
          let later : taken ids (rand (suc pos + d) % num) ≡ false =
            ap (λ (n : ℕ). taken ids (rand n % num)) (omega arith) ∙ free in
          rw t (
            draw_server-fresh fuel rand (suc pos) num d ids some_server (omega (arith, below))
              later)
      | inr t ↦ rw t (rand pos % num, suc pos, refl, mod-lt (rand pos) some_server, t)
    ]

-- Every server comes up among any `fuel` numbers of `rand` in a row.
abbrev pub ComesUp : (ℕ → ℕ) → ℕ → ℕ → Type 0
ComesUp rand num fuel = (pos k : ℕ) → k < num → (d : ℕ) × (d < fuel) × (rand (pos + d) % num ≡ k)

abbrev pub servers : ℕ → List ℕ
servers num = tabulate num 0 (λ i. i)

-- The filled places and the servers still to come are all servers.
abbrev Split : ℕ → List ℕ → List ℕ → Type 0
Split num ids free = (k : ℕ) → occurs k ids + occurs k free ≡ occurs k (servers num)

pub occurs-le-one :
    (k num : ℕ)
    → (occurs k (servers num) ≡ 1) × (k < num) ⊎ (occurs k (servers num) ≡ 0) × (num ≤ k)
occurs-le-one k num = ground (arith, occurs-tabulate k num 0)

not_taken : (ids : List ℕ) (k : ℕ) → occurs k ids ≡ 0 → taken ids k ≡ false
not_taken ids k h = ground (arith, taken-occurs ids k)

module _ (rand : ℕ → ℕ) (num fuel : ℕ) (fair : ComesUp rand num fuel) where
  next_server :
      (pos left : ℕ) (ids free : List ℕ)
      → Split num ids free
      → length free ≡ suc left
      → (sid : ℕ) × (used : ℕ) × (draw_server fuel rand pos num ids ≡ some (sid, used))
        × (length (remove sid free) ≡ left)
        × Split num (ids ++ (sid ∷ [])) (remove sid free)
  unfolding occurs
  next_server pos left ids [] split size = absurd (omega (arith, size))
  next_server pos left ids (k ∷ free) split size =
      let known = occurs-le-one k num in
      let self = occurs-cons_self k free in
      let below : k < num = ground (arith, split k, known, self) in
      let absent : occurs k ids ≡ 0 = ground (arith, split k, known, self) in
      let (d, soon, comes) = fair pos k below in
      let at_d : taken ids (rand (pos + d) % num) ≡ false =
        ap (taken ids) comes ∙ not_taken ids k absent in
      let (sid, used, drawn, inside, fresh) =
        draw_server-fresh fuel rand pos num d ids (omega (arith, below)) soon at_d in
      let waiting : 0 < occurs sid (k ∷ free) =
        ground (arith, split sid, occurs-le-one sid num, taken-occurs ids sid) in
      (
        sid,
        used,
        drawn,
        omega (arith, length-remove sid (k ∷ free) waiting, size),
        λ j. ground (
          arith,
          split j,
          occurs-append j ids (sid ∷ []),
          occurs-remove sid j (k ∷ free) waiting,
        ),
      )

  fill_order-all :
      (left pos : ℕ) (ids free : List ℕ)
      → Split num ids free
      → length free ≡ left
      → length ids + left ≤ max_servers
      → (order : List ℕ) × (fill_order left fuel rand pos num ids ≡ ok (some order))
        × ((k : ℕ) → occurs k order ≡ occurs k (servers num))
  unfolding fill_order occurs
  fill_order-all zero pos ids [] split size room = (ids, refl, λ k. omega (arith, split k))
  fill_order-all zero pos ids (k ∷ free) split size room = absurd (omega (arith, size))
  fill_order-all (suc left) pos ids free split size room =
      let (sid, used, drawn, size', split') = next_server pos left ids free split size in
      let inside : ltb (length ids) max_servers ≡ true = ground (arith, room) in
      rw (inside, drawn)
        (fill_order-all left used (ids ++ (sid ∷ [])) (remove sid free) split' size'
          (omega (arith, length-append ids (sid ∷ []), room)))

  fill_order-full :
      (left pos : ℕ) (ids free : List ℕ)
      → Split num ids free
      → length free ≡ left
      → length ids ≤ max_servers
      → max_servers < length ids + left
      → fill_order left fuel rand pos num ids ≡ fault
  unfolding fill_order
  fill_order-full zero pos ids free split size fits over = absurd (omega (arith, fits, over))
  fill_order-full (suc left) pos ids free split size fits over =
      elim (Bool-cases (ltb (length ids) max_servers)) [
        | inl inside ↦
            let (sid, used, drawn, size', split') = next_server pos left ids free split size in
            let longer = length-append ids (sid ∷ []) in
            let small : length ids < max_servers = (ltb_iff (length ids) max_servers).0 inside in
            rw (inside, drawn)
              (fill_order-full left used (ids ++ (sid ∷ [])) (remove sid free) split' size'
                (omega (arith, longer, small)) (omega (arith, longer, over)))
        | inr outside ↦ rw outside refl
      ]

  pub server_order-each :
      num ≤ max_servers
      → (order : List ℕ) × (server_order fuel rand num ≡ ok (some order))
        × ((k : ℕ) → occurs k order ≡ occurs k (servers num))
  unfolding server_order occurs
  server_order-each small =
      fill_order-all num 0 [] (servers num) (λ k. omega arith) (length-tabulate num 0 (λ i. i))
        (omega (arith, small))

  -- With at most 16 servers, and random numbers among which every server comes up within any `fuel`
  -- draws, the loops end, and the sequence has each server exactly once.
  pub server_order-perm :
      num ≤ max_servers
      → (order : List ℕ) × (server_order fuel rand num ≡ ok (some order)) × Perm order (servers num)
  server_order-perm small =
      let (order, done, each) = server_order-each small in
      (order, done, perm_of_occurs order (servers num) each)

  -- With more than 16 servers, and random numbers among which every server comes up within any `fuel`
  -- draws, the sequence is written behind the end of its array.
  pub server_order-fault : max_servers < num → server_order fuel rand num ≡ fault
  unfolding server_order occurs
  server_order-fault many =
      fill_order-full num 0 [] (servers num) (λ k. omega arith) (length-tabulate num 0 (λ i. i))
        (omega arith) (omega (arith, many))
