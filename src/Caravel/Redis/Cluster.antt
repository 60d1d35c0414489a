-- ===== src/Caravel/Redis/Cluster.antt =====
-- Caravel/RedisHelper.cpp: values read and written on a cluster of Redis servers.
use mathlib.Core.Bool.{true≢false}
use asiaccs.Base.{◌^◌, ◌<◌, ◌≡◌, refl, sym, ap, ap₂, ◌∙◌}
use asiaccs.Base.{Bool, true, false, ◌&&◌, none, some, List, [], ◌∷◌, inl, inr}
use asiaccs.Base.{◌==◌, ==_iff, if◌then◌else◌, u32, length, Bool-cases, Option-cases}
use asiaccs.Proxy.Services.{Bytes, equal_bytes, take_bytes}
use asiaccs.Proxy.Search.{equal_bytes_eq}
use asiaccs.Caravel.Redis.Moved.{Lacks, moved_text, moved_address-moved_text}
use asiaccs.Caravel.Redis.{
  done, Reply, error, str, Address, Network, RedisHelper, def_rep_times, get_word, set_word,
  is_moved, find_pool, remember_pool, moved_address, cluster_pool_get, cluster_pool_put,
}

-- `a` and `c` are one address.
unfoldable pub same_address : Address → Address → Bool
unfolding equal_bytes
same_address (ip, port) (ip', port') = equal_bytes ip ip' && (port == port')

pub same_address-eq : (a c : Address) → same_address a c ≡ true → a ≡ c
unfolding same_address
same_address-eq (ip, port) (ip', port') h = elim (Bool-cases (equal_bytes ip ip')) [
  | inl e ↦ elim (Bool-cases (port == port')) [
    | inl f ↦ ap₂ (λ x y. (x, y)) (equal_bytes_eq ip ip' e) ((==_iff port port').0 f)
    | inr f ↦ absurd (true≢false (sym (rw (e, f) at h)))
  ]
  | inr e ↦ absurd (true≢false (sym (rw e at h)))
]

-- A Redis cluster: every key belongs to one server, which answers for it. The others send an error reply
-- that names the owner, and change nothing. Every server is reached within the repetitions.
pub record RedisCluster (net : Network) : Type 1 where
  pub owner : Bytes → Address
  pub slot : Bytes → Bytes
  pub reply : net.World → Bytes → Reply
  pub get_own :
      (k : Bytes) (w : net.World)
      → net.run_with_connection (owner k) def_rep_times (get_word ∷ k ∷ []) w ≡ some (reply w k, w)
  pub get_other :
      (a : Address) (k : Bytes) (w : net.World)
      → same_address a (owner k) ≡ false
      → net.run_with_connection a def_rep_times (get_word ∷ k ∷ []) w
        ≡ some (error (moved_text (slot k) (owner k)), w)
  pub set_own :
      (k v : Bytes) (w : net.World)
      → (r : Reply) × (w' : net.World) × (net.run_with_connection
            (owner k)
            def_rep_times
            (set_word ∷ k ∷ v ∷ [])
            w
          ≡ some (r, w'))
        × (str (reply w' k) ≡ v)
  pub set_other :
      (a : Address) (k v : Bytes) (w : net.World)
      → same_address a (owner k) ≡ false
      → net.run_with_connection a def_rep_times (set_word ∷ k ∷ v ∷ []) w
        ≡ some (error (moved_text (slot k) (owner k)), w)
  pub plain_ip : (k : Bytes) → Lacks b' ' (owner k).0
  pub small_port : (k : Bytes) → (owner k).1 < 2 ^ 32
  pub short_text : (k : Bytes) → length (moved_text (slot k) (owner k)) < 2 ^ 32

moved_text-is_moved : (slot : Bytes) (a : Address) → is_moved (moved_text slot a) ≡ true
unfolding equal_bytes take_bytes
moved_text-is_moved slot (ip, port) = refl

remember_pool-none :
    (pools : List (Bytes × Address)) (a : Address)
    → find_pool a.0 pools ≡ none
    → remember_pool pools a ≡ (a, (a.0, a) ∷ pools)
unfolding remember_pool
remember_pool-none pools (ip, port) e = rw (e, remember_pool) refl

remember_pool-some :
    (pools : List (Bytes × Address)) (a pool : Address)
    → find_pool a.0 pools ≡ some pool
    → remember_pool pools a ≡ (pool, pools)
unfolding remember_pool
remember_pool-some pools (ip, port) pool e = rw (e, remember_pool) refl

cluster_pool_get-second :
    ⦃net : Network⦄ (h : RedisHelper) (a address pool : Address) (k : Bytes) (w w1 w2 : net.World)
    (first second : Reply) (pools : List (Bytes × Address))
    → h.ptr_cluster_pool ≡ some a
    → net.run_with_connection a def_rep_times (get_word ∷ k ∷ []) w ≡ some (first, w1)
    → is_moved (str first) ≡ true
    → moved_address (str first) ≡ done address
    → remember_pool h.map_ptr_pool address ≡ (pool, pools)
    → net.run_with_connection pool def_rep_times (get_word ∷ k ∷ []) w1 ≡ some (second, w2)
    → cluster_pool_get h k w
      ≡ done ((u32 (length (str second)), str second), (record h { map_ptr_pool = pools }, w2))
unfolding cluster_pool_get
cluster_pool_get-second h a address pool k w w1 w2 first second pools opened asked moved read known
      again =
    rw (opened, asked, moved, read, known, again) refl

module _ ⦃net : Network⦄ (c : RedisCluster net) where
  -- The pools of a helper lead to the owners.
  abbrev pub KnowsOwners : List (Bytes × Address) → Type 0
  KnowsOwners pools =
      (k : Bytes) (a : Address) → find_pool (c.owner k).0 pools ≡ some a → a ≡ c.owner k

  -- Servers with the same IP are the same.
  abbrev pub OnePort : Type 0
  OnePort = (k k' : Bytes) → (c.owner k).0 ≡ (c.owner k').0 → c.owner k ≡ c.owner k'

  KnowsOwners-cons :
      (pools : List (Bytes × Address)) (k : Bytes)
      → OnePort
      → KnowsOwners pools
      → KnowsOwners (((c.owner k).0, c.owner k) ∷ pools)
  unfolding find_pool
  KnowsOwners-cons pools k one knows k' a found =
      elim (Bool-cases (equal_bytes (c.owner k).0 (c.owner k').0)) [
        | inl e ↦
            let it : some (c.owner k) ≡ some a = rw e at found in
            let which : c.owner k ≡ a = cc it in
            sym which ∙ one k k' (equal_bytes_eq (c.owner k).0 (c.owner k').0 e)
        | inr e ↦ knows k' a (rw e at found)
      ]

  remember_pool-KnowsOwners :
      (pools : List (Bytes × Address)) (k : Bytes)
      → OnePort
      → KnowsOwners pools
      → (pools' : List (Bytes × Address)) × (remember_pool pools (c.owner k) ≡ (c.owner k, pools'))
        × KnowsOwners pools'
  remember_pool-KnowsOwners pools k one knows =
      elim (Option-cases (find_pool (c.owner k).0 pools)) [
        | inl e ↦ (
          ((c.owner k).0, c.owner k) ∷ pools,
          remember_pool-none pools (c.owner k) e,
          KnowsOwners-cons pools k one knows,
        )
        | inr (a, e) ↦ (
          pools,
          remember_pool-some pools (c.owner k) a e ∙ ap (λ x. (x, pools)) (knows k a e),
          knows,
        )
      ]

  moved_address-owner :
      (k : Bytes) → moved_address (moved_text (c.slot k) (c.owner k)) ≡ done (c.owner k)
  moved_address-owner k =
      moved_address-moved_text (c.slot k) (c.owner k).0 (c.owner k).1 (c.plain_ip k)
        (c.small_port k) (c.short_text k)

  -- With an open cluster pool, on a cluster in which no two servers share an IP, from pools that
  -- lead to the owners, and for a key whose value does not begin with "MOVED ", `ClusterPoolGet`
  -- returns the value that the owner of the key has, whichever server it asks first, changes
  -- nothing on the servers, and its pools lead to the owners again.
  pub cluster_pool_get-owner :
      (h : RedisHelper) (a : Address) (k : Bytes) (w : net.World)
      → h.ptr_cluster_pool ≡ some a
      → OnePort
      → KnowsOwners h.map_ptr_pool
      → is_moved (str (c.reply w k)) ≡ false
      → (pools : List (Bytes × Address)) × (cluster_pool_get h k w
          ≡ done (
            (u32 (length (str (c.reply w k))), str (c.reply w k)),
            (record h { map_ptr_pool = pools }, w),
          ))
        × KnowsOwners pools
  unfolding cluster_pool_get
  cluster_pool_get-owner h a k w opened one knows plain =
      elim (Bool-cases (same_address a (c.owner k))) [
        | inl e ↦
            let own =
              ap (λ x. net.run_with_connection x def_rep_times (get_word ∷ k ∷ []) w)
                (same_address-eq a (c.owner k) e)
              ∙ c.get_own k w in
            (h.map_ptr_pool, rw (opened, own, plain) refl, knows)
        | inr e ↦
            let moved = moved_text-is_moved (c.slot k) (c.owner k) in
            let (pools, remembered, knows') =
              remember_pool-KnowsOwners h.map_ptr_pool k one knows in
            (
              pools,
              cluster_pool_get-second h a (c.owner k) (c.owner k) k w w w
                  (error (moved_text (c.slot k) (c.owner k))) (c.reply w k) pools opened
                  (c.get_other a k w e) moved (moved_address-owner k) remembered (c.get_own k w),
              knows',
            )
      ]

  -- With an open cluster pool, on a cluster in which no two servers share an IP, from pools that
  -- lead to the owners: after `ClusterPoolPut` of a value, `ClusterPoolGet` returns it if the
  -- server of the cluster pool owns the key. If not, the put has returned too, but the redirection
  -- is not followed: `ClusterPoolGet` returns the value from before. Neither value begins with
  -- "MOVED ".
  pub cluster_pool_get-cluster_pool_put :
      (h : RedisHelper) (a : Address) (k v : Bytes) (w : net.World)
      → h.ptr_cluster_pool ≡ some a
      → OnePort
      → KnowsOwners h.map_ptr_pool
      → is_moved v ≡ false
      → is_moved (str (c.reply w k)) ≡ false
      → (w' : net.World) × (pools : List (Bytes × Address)) × (cluster_pool_put h k v w ≡ done w')
        × (let val = if same_address a (c.owner k) then v else str (c.reply w k) in
            cluster_pool_get h k w'
            ≡ done ((u32 (length val), val), (record h { map_ptr_pool = pools }, w')))
  unfolding cluster_pool_put
  cluster_pool_get-cluster_pool_put h a k v w opened one knows plain old =
      elim (Bool-cases (same_address a (c.owner k))) [
        | inl e ↦
            let (r, w', stored, new) = c.set_own k v w in
            let own =
              ap (λ x. net.run_with_connection x def_rep_times (set_word ∷ k ∷ v ∷ []) w)
                (same_address-eq a (c.owner k) e)
              ∙ stored in
            let (pools, got, _) =
              cluster_pool_get-owner h a k w' opened one knows (ap is_moved new ∙ plain) in
            (
              w',
              pools,
              rw (opened, own) refl,
              rw e (
                  got
                  ∙ ap (λ x. done ((u32 (length x), x), (record h { map_ptr_pool = pools }, w')))
                      new),
            )
        | inr e ↦
            let (pools, got, _) = cluster_pool_get-owner h a k w opened one knows old in
            (w, pools, rw (opened, c.set_other a k v w e) refl, rw e got)
      ]
