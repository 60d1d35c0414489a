-- ===== src/Proxy/OnCluster.antt =====
-- Proxy/TProxyCluster.cpp: the handler of the proxy over a cluster of Redis servers. The searches of this
-- handler only print their names.
pub mod Same
use asiaccs.Base.{
  ℕ, zero, suc, ◌+◌, bit_xor, Bool, true, false, Option, none, some, List, [], ◌∷◌, ◌++◌,
}
use asiaccs.Base.{leb, ◌==◌, if◌then◌else◌, length, get_or, tabulate}
use asiaccs.Base.{Outcome, ok, require}
use asiaccs.Base.Errors
use asiaccs.Proxy.Services.{Bytes, Backend, word32}
use asiaccs.Proxy.{at_counter, digest_length, index_stop_flag}
use asiaccs.Caravel.Redis.{
  Run, done, ◌>>=◌, Network, RedisHelper, run_outcome, cluster_pool_get, cluster_pool_put,
}

-- The trapdoor in an entry of a column index, or nothing when the test of its flag ends the loop.
unfoldable pub entry_trapdoor : Bytes → Bytes → Outcome (Option Bytes)
unfolding word32
entry_trapdoor index_val mask =
    let unmask = λ (i : ℕ).
      bit_xor (get_or (mask ++ (0 ∷ 0 ∷ 0 ∷ 0 ∷ [])) (4 + i) 0) (get_or index_val (4 + i) 0) in
    Errors.◌>>=◌ (word32 index_val) λ first. Errors.◌>>=◌ (word32 mask) λ first_mask.
      let test = bit_xor (if index_stop_flag == first then 1 else 0) first_mask in
      let hit : Outcome (Option Bytes) =
        Errors.◌>>=◌ (require (leb (4 + digest_length) (length index_val + 1)))
          λ _. ok (some (tabulate digest_length 0 unmask)) in
      if test == 0 then ok none else hit

module _ ⦃b : Backend⦄ ⦃net : Network⦄ where
  -- The helper and the world after a call.
  abbrev pub After : Type 0 → Type 0
  After A = Run (A × (RedisHelper × net.World))

  unfoldable pub on_cluster_get : RedisHelper → Bytes → net.World → After Bytes
  unfolding cluster_pool_get
  on_cluster_get h trapdoor w = do
    ((size, val), after) ← cluster_pool_get h trapdoor w
    done ((if size == 0 then [] else val), after)

  unfoldable pub on_cluster_put :
      RedisHelper → Bytes → Bytes → Bytes → Bytes → net.World → Run net.World
  unfolding cluster_pool_put
  on_cluster_put h trapdoor val index_trapdoor index_val w = do
    w1 ← cluster_pool_put h trapdoor val w
    if length index_trapdoor == 0 then done w1 else cluster_pool_put h index_trapdoor index_val w1

  -- One round of `ProxyGetColumn`: nothing when it returns, or what it adds to the result.
  unfoldable pub on_cluster_round :
      RedisHelper → net.World → Bytes → Bytes → ℕ → After (Option (List Bytes))
  unfolding cluster_pool_get entry_trapdoor
  on_cluster_round h w index_trapdoor index_mask c = do
    ((size, index_val), (h1, w1)) ← cluster_pool_get h (at_counter index_trapdoor c) w
    let found : After (Option (List Bytes)) =
        run_outcome (entry_trapdoor index_val (at_counter index_mask c)) >>= elim [
          | none ↦ done (none, (h1, w1))
          | some trapdoor ↦ cluster_pool_get h1 trapdoor w1 >>= λ r.
              done (some (if length (r.0).1 == 0 then [] else (r.0).1 ∷ []), r.1)
        ]
    if length index_val == 0 then done (some [], (h1, w1)) else found

  unfoldable pub on_cluster_loop :
      (left : ℕ) → RedisHelper → net.World → Bytes → Bytes → ℕ → After (List Bytes)
  unfolding on_cluster_round
  on_cluster_loop zero h w index_trapdoor index_mask c = done ([], (h, w))
  on_cluster_loop (suc left) h w index_trapdoor index_mask c =
      on_cluster_round h w index_trapdoor index_mask c >>= λ r. elim r.0 [
        | none ↦ done ([], r.1)
        | some out ↦
            on_cluster_loop left (r.1).0 (r.1).1 index_trapdoor index_mask (c + 1) >>= λ rest.
            done (out ++ rest.0, rest.1)
      ]

  unfoldable pub on_cluster_get_column :
      RedisHelper → Bytes → Bytes → ℕ → net.World → After (List Bytes)
  unfolding on_cluster_loop
  on_cluster_get_column h index_trapdoor index_mask num w =
      on_cluster_loop num h w index_trapdoor index_mask 0
