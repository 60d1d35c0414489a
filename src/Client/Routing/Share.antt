-- ===== src/Client/Routing/Share.antt =====
-- Which server a key goes to, on the ring that `ClientCpp::Init` builds.
use asiaccs.Base.{ℕ, zero, suc, ◌+◌, ◌-◌, ◌*◌, ◌/◌, ◌^◌, ◌≤◌, ◌<◌}
use asiaccs.Base.{◌≡◌, refl, sym, ap, ap₂, ◌∙◌, inl, inr, arith}
use asiaccs.Base.{true, false, not, none, some, List, [], ◌∷◌, ◌++◌}
use asiaccs.Base.{ltb, ◌==◌, if◌then◌else◌, Bool-cases}
use asiaccs.Base.{u32, length}
use asiaccs.Base.{tabulate, length-append, length-tabulate}
use asiaccs.Base.{ok, ◌>>=◌, require}
use mathlib.Core.List.{append_assoc, append-nil}
use native.Mathlib.Nat.{
  mod-eq_of_lt, div-le_self, div-lt_iff_lt-mul, div-mul-le_self, mul_comm, mul-le-mul_left,
  le-div_iff_mul-le,
}
use asiaccs.Client.Routing.{
  SimConHash, query, query_from, insert_node, insert_all, interval, init_ring,
}
use asiaccs.Client.Routing.{max_node_num}

-- The bounds that are inserted.
abbrev bounds : ℕ → ℕ → ℕ → List ℕ
bounds step left cur = tabulate left cur (λ i. step * (i + 1))

insert_all-bounds :
    (step left cur : ℕ) (nodes : List ℕ)
    → length nodes ≡ cur
    → cur + left ≤ max_node_num
    → step * (cur + left) < 2 ^ 32
    → insert_all step left cur (record { nodes = nodes })
      ≡ ok (record { nodes = nodes ++ bounds step left cur })
unfolding insert_all insert_node
insert_all-bounds step zero cur nodes len room small =
    ap (λ l. ok (record { nodes = l })) (sym (append-nil nodes))
insert_all-bounds step (suc left) cur nodes len room small =
    let free : ltb (length nodes) max_node_num ≡ true = ground (arith, len, room) in
    let smaller : step * (cur + 1) ≤ step * (cur + suc left) = mul-le-mul_left step (omega arith) in
    let exact : u32 (step * (cur + 1)) ≡ step * (cur + 1) =
      mod-eq_of_lt (omega (arith, smaller, small)) in
    let same : step * (suc cur + left) ≡ step * (cur + suc left) =
      ap (λ (t : ℕ). step * t) (omega arith) in
    ap
      (λ t.
        (require t >>= λ _. ok (record { nodes = nodes ++ (u32 (step * (cur + 1)) ∷ []) }))
        >>= insert_all step left (suc cur))
      free
    ∙ ap (λ (k : ℕ). insert_all step left (suc cur) (record { nodes = nodes ++ (k ∷ []) })) exact
    ∙ insert_all-bounds step left (suc cur) (nodes ++ (step * (cur + 1) ∷ []))
        (omega (arith, length-append nodes (step * (cur + 1) ∷ []), len)) (omega (arith, room))
        (omega (arith, same, small))
    ∙ ap (λ l. ok (record { nodes = l }))
        (append_assoc nodes (step * (cur + 1) ∷ []) (bounds step left (suc cur)))

-- With the bounds before `cur` passed, the search ends at the quotient, or at the last position.
query_from-bounds :
    (step left cur key : ℕ)
    → 0 < step
    → cur ≤ key / step
    → query_from (bounds step left cur) key cur
      ≡ (if ltb (key / step) (cur + left) then key / step else cur + left - 1)
unfolding query_from
query_from-bounds step zero cur key pos past =
    let stop : ltb (key / step) (cur + zero) ≡ false = ground (arith, past) in rw stop (omega arith)
query_from-bounds step (suc left) cur key pos past =
    let rest = query_from-bounds step left (suc cur) key pos in
    elim (Bool-cases (ltb key (step * (cur + 1)))) [
      | inl e ↦
          let below : key / step < suc cur =
            (div-lt_iff_lt-mul pos).1 (ground (arith, e, mul_comm step (cur + 1))) in
          let here : ltb (key / step) (cur + suc left) ≡ true = ground (arith, below) in
          rw (e, here) (omega (arith, below, past))
      | inr e ↦
          let above : suc cur ≤ key / step =
            (le-div_iff_mul-le pos).1 (ground (arith, e, mul_comm step (cur + 1))) in
          rw e (
            rest above
            ∙ ap₂ (λ (t u : ℕ). if ltb (key / step) t then key / step else u) (omega arith)
                (omega arith))
    ]

-- For 1 to 100 servers `Init` succeeds, with one node each, and a key goes to the server whose number
-- is the quotient of the key by the interval, the last server taking what is beyond.
pub query-init_ring :
    (server_num key : ℕ)
    → 0 < server_num
    → server_num ≤ max_node_num
    → (ring : SimConHash) × (init_ring server_num ≡ ok ring)
      × (length ring.nodes ≡ server_num)
      × (0 < interval server_num)
      × (query ring key
          ≡ some (
              if ltb (key / interval server_num) server_num
              then key / interval server_num
              else server_num - 1))
unfolding init_ring query
query-init_ring server_num key pos room =
    let q = (2 ^ 32 - 1) / server_num in
    let least : 42949672 ≤ q = (le-div_iff_mul-le pos).1 (omega (arith, room)) in
    let most : q * server_num ≤ 2 ^ 32 - 1 = div-mul-le_self (2 ^ 32 - 1) server_num in
    let whole : q ≤ 2 ^ 32 - 1 = div-le_self (2 ^ 32 - 1) server_num in
    let step = interval server_num in
    let step-eq : step ≡ q - 5 = omega (arith, least, whole) in
    let fewer : server_num * step ≤ server_num * q =
      mul-le-mul_left server_num (omega (arith, step-eq)) in
    let small : step * (0 + server_num) < 2 ^ 32 = omega (
      arith,
      fewer,
      most,
      mul_comm server_num step,
      mul_comm server_num q,
      ap (λ (t : ℕ). step * t) (zero_add server_num),
    ) in
    let some_server : (server_num == 0) ≡ false = ground (arith, pos) in
    let len = length-tabulate server_num 0 (λ i. step * (i + 1)) in
    let some_node : (length (bounds step server_num 0) == 0) ≡ false = ground (arith, pos, len) in
    (
      record { nodes = bounds step server_num 0 },
      ap (λ t. require (not t) >>= λ _. insert_all step server_num 0 (record { nodes = [] }))
            some_server
          ∙ insert_all-bounds step server_num 0 [] refl (omega (arith, room)) small,
      len,
      omega (arith, step-eq, least),
      ap (λ t. if t then none else some (query_from (bounds step server_num 0) key 0)) some_node
          ∙ ap some (
              query_from-bounds step server_num 0 key (omega (arith, step-eq, least)) (omega arith)
              ∙ ap (λ (t : ℕ). if ltb (key / step) t then key / step else t - 1)
                  (zero_add server_num)),
    )
  where
    zero_add : (n : ℕ) → 0 + n ≡ n
    zero_add n = omega arith
