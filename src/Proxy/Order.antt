-- ===== src/Proxy/Order.antt =====
-- Proxy/TProxy.cpp: `OrderSearch`, with the helper that it makes for one search.
pub mod Loop
use asiaccs.Base.{ℕ, zero, suc, ◌+◌, ◌-◌}
use asiaccs.Base.{Bool, true, false, Option, none, some, List, [], ◌∷◌}
use asiaccs.Base.{leb, ◌==◌, if◌then◌else◌}
use asiaccs.Base.{u32, length}
use asiaccs.Base.{Outcome, ok, fault, ◌>>=◌, ◌>>◌, require}
use asiaccs.Fastore.Platform.{Platform, Block}
use asiaccs.Fastore.Ore.{Malloc}
use asiaccs.Fastore.Ore.Compare.{Answer, one, nought, minus_one}
use asiaccs.Fastore.Helper.{OreHelper, helper_init, compare_ore}
use asiaccs.Proxy.Services.{Bytes, Backend, substr}
use asiaccs.Proxy.{at_counter, fetch, add_found, digest_length}

-- `1 == CompareORE(...)`; to read an answer that was not written is a fault.
unfoldable pub says_yes : Option Answer → Outcome Bool
says_yes none = fault
says_yes (some one) = ok true
says_yes (some nought) = ok false
says_yes (some minus_one) = ok false

module _ ⦃b : Backend⦄ ⦃p : Platform⦄ where
  -- What a round finds, or nothing at the end, with the helper after it.
  unfoldable pub order_round :
      b.Store → Bytes → Bytes → ℕ → OreHelper → Outcome (Option (List Bytes) × OreHelper)
  unfolding says_yes
  order_round s index_trapdoor order_left c h =
      let index_val = b.pool_get s (at_counter index_trapdoor c) in
      let found = (do
        require (leb digest_length (length index_val))
        right ← substr index_val digest_length (length index_val - digest_length)
        compared ← compare_ore h order_left right c
        in_order ← says_yes compared.0
        let hit = substr index_val 0 digest_length >>= λ t. ok (some (fetch s t), compared.1)
        if in_order then hit else ok (some [], compared.1)) in
      if length index_val == 0 then ok (none, h) else found

  -- `while (true)` with the counter from `c` on, for at most `fuel` rounds.
  unfoldable pub order_loop :
      b.Store → Bytes → Bytes → (fuel : ℕ) → ℕ → OreHelper → Outcome (Option (List Bytes))
  order_loop s index_trapdoor order_left zero c h = ok none
  order_loop s index_trapdoor order_left (suc fuel) c h =
      order_round s index_trapdoor order_left c h >>= λ r. elim r.0 [
        | none ↦ ok (some [])
        | some out ↦ order_loop s index_trapdoor order_left fuel (u32 (c + 1)) r.1 >>= λ more.
            ok (add_found out more)
      ]

  -- The main key of the helper on the proxy is "A". `blank` is the helper before `Init`.
  unfoldable pub order_search :
      Malloc → Block → OreHelper → ℕ → ℕ → b.Store → Bytes → Bytes → Outcome (Option (List Bytes))
  unfolding order_loop
  order_search malloc middle blank block_size fuel s index_trapdoor order_left =
      helper_init malloc middle (65 ∷ []) block_size blank
      >>= order_loop s index_trapdoor order_left fuel 0
