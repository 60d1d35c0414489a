-- ===== src/Tests/Column.antt =====
-- A column index of one row on a cluster.
use asiaccs.Base.{◌≡◌, refl, inl, inr, true, false, List, [], Bool-cases, if◌then◌else◌, tabulate}
use asiaccs.Proxy.Services.{Bytes, codes, equal_bytes, take_bytes}
use asiaccs.Proxy.{at_counter, proxy_get_column}
use asiaccs.Proxy.Column.{hidden}
use asiaccs.Proxy.OnCluster.{on_cluster_get_column}
use asiaccs.Proxy.OnCluster.Same.{on_cluster_get_column-same}
use asiaccs.Caravel.Redis.{done, ◌>>=◌, run_outcome, is_moved, Address}
use asiaccs.Caravel.Redis.Cluster.{KnowsOwners}
use asiaccs.Tests.Store.{map_backend}
use asiaccs.Tests.Cluster.{two_servers, cluster, node, fresh, one_port, no_pools}

abbrev label : Bytes
label = tabulate 32 0 (λ i. i)

abbrev column : Bytes → Bytes
column k =
    if equal_bytes k (at_counter (codes "column") 0)
    then hidden (at_counter (codes "mask") 0) label
    else if equal_bytes k label
    then codes "40"
    else []

column_plain : (k : Bytes) → is_moved (column k) ≡ false
unfolding equal_bytes take_bytes
column_plain k = elim (Bool-cases (equal_bytes k (at_counter (codes "column") 0))) [
  | inl e ↦ rw e refl
  | inr e ↦ elim (Bool-cases (equal_bytes k label)) [
    | inl f ↦ rw (e, f) refl
    | inr f ↦ rw (e, f) refl
  ]
]

on_cluster_get_column-same_example :
    (pools : List (Bytes × Address)) × (on_cluster_get_column fresh
        (codes "column")
        (codes "mask")
        1
        column
      ≡ (run_outcome (proxy_get_column column (codes "column") (codes "mask") 1) >>= λ r.
          done (r, (record fresh { map_ptr_pool = pools }, column))))
    × KnowsOwners cluster pools
on_cluster_get_column-same_example =
    on_cluster_get_column-same cluster column column fresh (node true) refl one_port column_plain
      (λ k. refl) (codes "column") (codes "mask") 1 no_pools
