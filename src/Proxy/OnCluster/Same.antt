-- ===== src/Proxy/OnCluster/Same.antt =====
-- Proxy/TProxyCluster.cpp: on a cluster the handler answers as that of Proxy/TProxy.cpp does on one server.
use asiaccs.Base.{ℕ, zero, suc, ◌+◌, bit_xor, ◌≡◌, refl, ap, ◌∙◌, inl, inr}
use asiaccs.Base.{Bool, false, Option, none, some, List, [], ◌∷◌, ◌++◌, Bool-cases}
use asiaccs.Base.{leb, ◌==◌, if◌then◌else◌, length, get_or, u32}
use asiaccs.Base.{◌⊎◌, ErrorCode, tabulate, Outcome, ok, err, fault, require}
use asiaccs.Base.Errors
use asiaccs.Proxy.Services.{Bytes, Backend, word32}
use asiaccs.Proxy.{
  Round, at_counter, index_stop_flag, digest_length, fetch, column_round, counted_loop,
  proxy_get_column,
}
use asiaccs.Caravel.Redis.{
  done, ◌>>=◌, str, Address, Network, RedisHelper, run_outcome, is_moved, cluster_pool_get,
}
use asiaccs.Caravel.Redis.Cluster.{RedisCluster, KnowsOwners, OnePort, cluster_pool_get-owner}
use asiaccs.Proxy.OnCluster.{
  entry_trapdoor, on_cluster_round, on_cluster_loop, on_cluster_get_column,
}

Outcome-cases {ℓ} :
    {A : Type ℓ} (o : Outcome A)
    → ((a : A) × (o ≡ ok a)) ⊎ (((e : ErrorCode) × (o ≡ err e)) ⊎ (o ≡ fault))
Outcome-cases (ok a) = inl (a, refl)
Outcome-cases (err e) = inr (inl (e, refl))
Outcome-cases fault = inr (inr refl)

module _ ⦃b : Backend⦄ where
  -- What a round of the loop adds for the trapdoor of an entry.
  abbrev fetch_entry : b.Store → Outcome (Option Bytes) → Round
  fetch_entry s (ok none) = ok none
  fetch_entry s (ok (some t)) = ok (some (fetch s t))
  fetch_entry s (err e) = err e
  fetch_entry s fault = fault

  fetch_bind :
      (s : b.Store) (o m : Outcome ℕ) (test : ℕ → ℕ → Bool) (r : Outcome (Unit {0})) (z : Bytes)
      → Errors.◌>>=◌ o (λ a. Errors.◌>>=◌ m (λ c.
        let hit : Round = Errors.◌>>=◌ r (λ _. ok (some (fetch s z))) in
        if test a c then ok none else hit))
        ≡ fetch_entry s (
            Errors.◌>>=◌ o (λ a. Errors.◌>>=◌ m (λ c.
              let hit : Outcome (Option Bytes) = Errors.◌>>=◌ r (λ _. ok (some z)) in
              if test a c then ok none else hit)))
  fetch_bind s (ok a) (ok c) test r z = elim (Bool-cases (test a c)) [
    | inl e ↦ rw e refl
    | inr e ↦ rw e (last r)
  ]
    where
      last :
          (r : Outcome (Unit {0}))
          → (let hit : Round = Errors.◌>>=◌ r (λ _. ok (some (fetch s z))) in hit)
            ≡ fetch_entry s (Errors.◌>>=◌ r (λ _. ok (some z)))
      last (ok u) = refl
      last (err e) = refl
      last fault = refl
  fetch_bind s (ok a) (err e) test r z = refl
  fetch_bind s (ok a) fault test r z = refl
  fetch_bind s (err e) m test r z = refl
  fetch_bind s fault m test r z = refl

  column_round-entry_trapdoor :
      (s : b.Store) (td mask_td : Bytes) (c : ℕ)
      → column_round s td mask_td c ≡ (
          if length (b.pool_get s (at_counter td c)) == 0
          then ok (some [])
          else fetch_entry s
              (entry_trapdoor (b.pool_get s (at_counter td c)) (at_counter mask_td c)))
  unfolding column_round entry_trapdoor
  column_round-entry_trapdoor s td mask_td c =
      let index_val = b.pool_get s (at_counter td c) in
      let mask = at_counter mask_td c in
      ap (λ x. if length index_val == 0 then ok (some []) else x)
        (fetch_bind s (word32 index_val) (word32 mask)
          (λ first first_mask. bit_xor (if index_stop_flag == first then 1 else 0) first_mask == 0)
          (require (leb (4 + digest_length) (length index_val + 1)))
          (tabulate digest_length 0 (λ i.
            bit_xor (get_or (mask ++ (0 ∷ 0 ∷ 0 ∷ 0 ∷ [])) (4 + i) 0)
              (get_or index_val (4 + i) 0))))

module _ ⦃b : Backend⦄ ⦃net : Network⦄ (cl : RedisCluster net) (s : b.Store) (w : net.World)
    (h : RedisHelper) (a : Address) (opened : h.ptr_cluster_pool ≡ some a) (one : OnePort cl)
    (plain : (k : Bytes) → is_moved (str (cl.reply w k)) ≡ false)
    (same : (k : Bytes) → str (cl.reply w k) ≡ b.pool_get s k) where
  abbrev helper_with : List (Bytes × Address) → RedisHelper
  helper_with pools = record h { map_ptr_pool = pools }

  -- A read on the cluster is the read on the one server.
  cluster_read :
      (pools : List (Bytes × Address)) (k : Bytes)
      → KnowsOwners cl pools
      → (pools' : List (Bytes × Address)) × (cluster_pool_get (helper_with pools) k w
          ≡ done ((u32 (length (b.pool_get s k)), b.pool_get s k), (helper_with pools', w)))
        × KnowsOwners cl pools'
  cluster_read pools k knows =
      let (pools', got, knows') =
        cluster_pool_get-owner cl (helper_with pools) a k w opened one knows (plain k) in
      (pools', got ∙ ap (λ v. done ((u32 (length v), v), (helper_with pools', w))) (same k), knows')

  on_cluster_round-same :
      (pools : List (Bytes × Address)) (td mask_td : Bytes) (c : ℕ)
      → KnowsOwners cl pools
      → (pools' : List (Bytes × Address)) × (on_cluster_round (helper_with pools) w td mask_td c
          ≡ (run_outcome (column_round s td mask_td c) >>= λ r. done (r, (helper_with pools', w))))
        × KnowsOwners cl pools'
  unfolding on_cluster_round
  on_cluster_round-same pools td mask_td c knows =
      let index_val = b.pool_get s (at_counter td c) in
      let (p1, got, knows1) = cluster_read pools (at_counter td c) knows in
      let shape = column_round-entry_trapdoor s td mask_td c in
      elim (Bool-cases (length index_val == 0)) [
        | inl e ↦ (p1, rw (got, shape, e) refl, knows1)
        | inr e ↦ elim (Outcome-cases (entry_trapdoor index_val (at_counter mask_td c))) [
          | inl (none, f) ↦ (p1, rw (got, shape, e, f) refl, knows1)
          | inl (some t, f) ↦
              let (p2, got2, knows2) = cluster_read p1 t knows1 in
              (p2, rw (got, shape, e, f, got2) refl, knows2)
          | inr (inl (code, f)) ↦ (p1, rw (got, shape, e, f) refl, knows1)
          | inr (inr f) ↦ (p1, rw (got, shape, e, f) refl, knows1)
        ]
      ]

  on_cluster_loop-same :
      (left : ℕ) (pools : List (Bytes × Address)) (td mask_td : Bytes) (c : ℕ)
      → KnowsOwners cl pools
      → (pools' : List (Bytes × Address)) × (on_cluster_loop left (helper_with pools) w td mask_td c
          ≡ (run_outcome (counted_loop (column_round s td mask_td) left c) >>= λ r.
              done (r, (helper_with pools', w))))
        × KnowsOwners cl pools'
  unfolding on_cluster_loop counted_loop
  on_cluster_loop-same zero pools td mask_td c knows = (pools, refl, knows)
  on_cluster_loop-same (suc left) pools td mask_td c knows =
      let (p1, round, knows1) = on_cluster_round-same pools td mask_td c knows in
      let (p2, rest, knows2) = on_cluster_loop-same left p1 td mask_td (c + 1) knows1 in
      elim (Outcome-cases (column_round s td mask_td c)) [
        | inl (none, f) ↦ (p1, rw (round, f) refl, knows1)
        | inl (some out, f) ↦
            elim (Outcome-cases (counted_loop (column_round s td mask_td) left (c + 1))) [
              | inl (more, g) ↦ (p2, rw (round, f, rest, g) refl, knows2)
              | inr (inl (code, g)) ↦ (p2, rw (round, f, rest, g) refl, knows2)
              | inr (inr g) ↦ (p2, rw (round, f, rest, g) refl, knows2)
            ]
        | inr (inl (code, f)) ↦ (p1, rw (round, f) refl, knows1)
        | inr (inr f) ↦ (p1, rw (round, f) refl, knows1)
      ]

  -- On a cluster in which no two servers share an IP, with pools that lead to the owners and no
  -- value that begins with "MOVED ": `ProxyGetColumn` of the cluster handler returns what
  -- `ProxyGetColumn` of the other handler returns on one server with the same values, and is
  -- undefined when that one is. It changes nothing on the servers, and the pools lead to the
  -- owners again.
  pub on_cluster_get_column-same :
      (td mask_td : Bytes) (num : ℕ)
      → KnowsOwners cl h.map_ptr_pool
      → (pools : List (Bytes × Address)) × (on_cluster_get_column h td mask_td num w ≡ (
          run_outcome (proxy_get_column s td mask_td num) >>= λ r.
          done (r, (record h { map_ptr_pool = pools }, w))))
        × KnowsOwners cl pools
  unfolding on_cluster_get_column proxy_get_column
  on_cluster_get_column-same td mask_td num knows =
      on_cluster_loop-same num h.map_ptr_pool td mask_td 0 knows
