-- ===== src/Tests/Cluster.antt =====
-- A cluster of two servers.
use asiaccs.Base.{◌%◌, ◌^◌, ◌<◌, ◌≡◌, refl, ap, arith, Bool, true, false, none, some, List, [], ◌∷◌}
use asiaccs.Base.{◌==◌, if◌then◌else◌, get_or, u32, length}
use asiaccs.Base.Decimal.{to_string}
use asiaccs.Proxy.Services.{Bytes, codes, equal_bytes, take_bytes}
use asiaccs.Proxy.Search.{equal_bytes_refl}
use asiaccs.Caravel.Redis.{
  done, Reply, text, error, status, nil, Address, Network, RedisHelper, is_moved, find_pool,
  cluster_pool_get, cluster_pool_put,
}
use asiaccs.Caravel.Redis.Moved.{moved_text, Lacks}
use asiaccs.Caravel.Redis.Cluster.{
  same_address, RedisCluster, KnowsOwners, OnePort, cluster_pool_get-owner,
  cluster_pool_get-cluster_pool_put,
}

-- Keys with an even first byte belong to the first server.
abbrev pub node : Bool → Address
node true = (codes "10.0.0.1", 7000)
node false = (codes "10.0.0.2", 7001)

abbrev pub owner_of : Bytes → Address
owner_of k = node (get_or k 0 0 % 2 == 0)

abbrev pub some_slot : Bytes → Bytes
some_slot k = codes "42"

abbrev pub Values : Type 0
Values = Bytes → Bytes

-- A put without a value, or with more words than these, is not sent.
abbrev pub respond : Address → List Bytes → Values → Reply × Values
respond a [] w = (nil, w)
respond a (c ∷ []) w = (nil, w)
respond a (c ∷ (k ∷ [])) w =
    if same_address a (owner_of k)
    then (text (w k), w)
    else (error (moved_text (some_slot k) (owner_of k)), w)
respond a (c ∷ (k ∷ (v ∷ rest))) w =
    if same_address a (owner_of k)
    then (status (codes "OK"), λ j. if equal_bytes k j then v else w j)
    else (error (moved_text (some_slot k) (owner_of k)), w)

instance abbrev pub two_servers : Network
two_servers = record {
  World = Values;
  run_with_connection = λ a times words w. some (respond a words w);
  run = λ a words w. some (respond a words w);
}

pub own : (b : Bool) → same_address (node b) (node b) ≡ true
unfolding same_address equal_bytes
own true = refl
own false = refl

pub solid : (b : Bool) → Lacks b' ' (node b).0
solid true = (refl, (refl, (refl, (refl, (refl, (refl, (refl, (refl, tt))))))))
solid false = (refl, (refl, (refl, (refl, (refl, (refl, (refl, (refl, tt))))))))

pub small : (b : Bool) → (node b).1 < 2 ^ 32
small true = omega arith
small false = omega arith

pub short : (b : Bool) → length (moved_text (codes "42") (node b)) < 2 ^ 32
unfolding to_string
short true = omega arith
short false = omega arith

pub stored : (k v : Bytes) (w : Values) → (if equal_bytes k k then v else w k) ≡ v
stored k v w = rw (equal_bytes_refl k) refl

abbrev pub cluster : RedisCluster two_servers
cluster = record {
  owner = owner_of;
  slot = some_slot;
  reply = λ w k. text (w k);
  get_own = λ k w. rw (own (get_or k 0 0 % 2 == 0)) refl;
  get_other = λ a k w other. rw other refl;
  set_own = λ k v w. (
    status (codes "OK"),
    λ j. if equal_bytes k j then v else w j,
    rw (own (get_or k 0 0 % 2 == 0)) refl,
    stored k v w,
  );
  set_other = λ a k v w other. rw other refl;
  plain_ip = λ k. solid (get_or k 0 0 % 2 == 0);
  small_port = λ k. small (get_or k 0 0 % 2 == 0);
  short_text = λ k. short (get_or k 0 0 % 2 == 0);
}

pub same_ip : (b c : Bool) → (node b).0 ≡ (node c).0 → node b ≡ node c
same_ip true true e = refl
same_ip false false e = refl
same_ip true false e = absurd (omega (arith, ap (λ s. get_or s 7 0) e))
same_ip false true e = absurd (omega (arith, ap (λ s. get_or s 7 0) e))

pub one_port : OnePort cluster
one_port k k' e = same_ip (get_or k 0 0 % 2 == 0) (get_or k' 0 0 % 2 == 0) e

abbrev pub fresh : RedisHelper
fresh = record {
  ptr_connection = none;
  map_ptr_connection = [];
  ptr_pool = none;
  ptr_cluster_pool = some (node true);
  map_ptr_pool = [];
}

pub no_pools : KnowsOwners cluster []
unfolding find_pool
no_pools k a e = cc

abbrev start : Values
start k = codes "old"

start_plain : is_moved (codes "old") ≡ false
unfolding equal_bytes take_bytes
start_plain = refl

new_plain : is_moved (codes "new") ≡ false
unfolding equal_bytes take_bytes
new_plain = refl

cluster_pool_get-owner_example :
    (pools : List (Bytes × Address)) × (cluster_pool_get fresh (codes "a") start
      ≡ done ((3, codes "old"), (record fresh { map_ptr_pool = pools }, start)))
    × KnowsOwners cluster pools
cluster_pool_get-owner_example =
    cluster_pool_get-owner cluster fresh (node true) (codes "a") start refl one_port no_pools
      start_plain

cluster_pool_get-cluster_pool_put_example :
    (w' : Values) × (pools : List (Bytes × Address)) × (cluster_pool_put fresh
        (codes "a")
        (codes "new")
        start
      ≡ done w')
    × (let val =
          if same_address (node true) (owner_of (codes "a")) then codes "new" else codes "old" in
        cluster_pool_get fresh (codes "a") w'
        ≡ done ((u32 (length val), val), (record fresh { map_ptr_pool = pools }, w')))
cluster_pool_get-cluster_pool_put_example =
    cluster_pool_get-cluster_pool_put cluster fresh (node true) (codes "a") (codes "new") start refl
      one_port no_pools new_plain start_plain
