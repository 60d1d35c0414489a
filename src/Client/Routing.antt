-- ===== src/Client/Routing.antt =====
-- Client/SimConHash.h, and the ring that `ClientCpp::Init` builds with it.
pub mod Share
use asiaccs.Base.{ℕ, zero, suc, ◌+◌, ◌-◌, ◌*◌, ◌/◌, ◌%◌, ◌^◌, ◌≤◌, ◌<◌, bit_and, bit_or, bit_xor}
use asiaccs.Base.{◌≡◌, refl, sym, ap, ap₂, ◌∙◌, subst, ◌≢◌, ◌↔◌, ◌⊎◌, inl, inr, arith}
use asiaccs.Base.{Bool, true, false, ◌&&◌, ◌||◌, not, Option, none, some, List, [], ◌∷◌, ◌++◌, map}
use asiaccs.Base.{ltb, leb, ◌==◌, if◌then◌else◌, ==_iff, ltb_iff, Bool-cases, Option-cases}
use asiaccs.Base.{u8, u32, u64, sub32, shl64, shr, all_below, length, get_or, get_elem?, set}
use asiaccs.Base.{tabulate, length-append, length-tabulate, get_or-tabulate, length-map, get_or-map}
use asiaccs.Base.{map-tabulate, mod_of_split, div_of_split, pow_le, pow_pos, pow_add, pow_256}
use asiaccs.Base.{
  bytes_hold, pair_lt, ErrorCode, Outcome, ok, err, fault, ◌>>=◌, ◌>>◌, guard, require,
}
use asiaccs.Base.{guard_pass, guard_stop, get_or-tabulate_zero}
use native.Mathlib.Nat.{mul-suc}

-- MaxNodeNum
abbrev pub max_node_num : ℕ
max_node_num = 100

-- `m_arCondition` up to `m_uiNodeNum`; the node of an entry is its position.
pub record SimConHash : Type 0 where
  pub nodes : List ℕ

-- The first position whose bound is above the key, else the last one.
unfoldable pub query_from : List ℕ → ℕ → ℕ → ℕ
query_from [] key i = i - 1
query_from (c ∷ cs) key i = let rest = query_from cs key (suc i) in if ltb key c then i else rest

-- `Query`
unfoldable pub query : SimConHash → ℕ → Option ℕ
unfolding query_from
query ring key = if length ring.nodes == 0 then none else some (query_from ring.nodes key 0)

-- `InsertNode`: the arrays have room for 100 nodes, which nothing checks.
unfoldable pub insert_node : SimConHash → ℕ → Outcome SimConHash
insert_node ring key_beg = do
  require (ltb (length ring.nodes) max_node_num)
  ok (record { nodes = ring.nodes ++ (key_beg ∷ []) })

-- `uiMax / uiServerNum - 5`, on `uint32_t`.
abbrev pub interval : ℕ → ℕ
interval server_num = sub32 ((2 ^ 32 - 1) / server_num) 5

unfoldable pub insert_all : ℕ → (left : ℕ) → ℕ → SimConHash → Outcome SimConHash
insert_all step zero cur ring = ok ring
insert_all step (suc left) cur ring =
    insert_node ring (u32 (step * (cur + 1))) >>= insert_all step left (suc cur)

-- The loop of `Init`, from an empty ring: no server at all is a division by zero.
unfoldable pub init_ring : ℕ → Outcome SimConHash
unfolding insert_all insert_node
init_ring server_num = do
  require (not (server_num == 0))
  insert_all (interval server_num) server_num 0 (record { nodes = [] })
