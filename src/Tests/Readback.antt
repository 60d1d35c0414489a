-- ===== src/Tests/Readback.antt =====
-- A row put with all four indexes and read back.
use asiaccs.Base.{ℕ}
use asiaccs.Base.{◌≡◌, refl, arith}
use asiaccs.Base.{true, [], ◌∷◌}
use asiaccs.Base.{length}
use asiaccs.Base.{ok}
use asiaccs.Fastore.Ore.{ore_index_right_len}
use asiaccs.Proxy.Services.{Bytes, drop_bytes}
use asiaccs.Client.{ClientCpp, trapdoor, get_route, put_route}
use asiaccs.Client.Routing.{query, query_from}
use asiaccs.Client.Put.{PutFlags, put}
use asiaccs.Client.Lookup.{get}
use asiaccs.Client.Readback.{CanPut, put-get}
use asiaccs.Tests.Toy.{toy, toy_helper-IsReady}
use asiaccs.Tests.Store.{people, age, seal, start, map_backend}

abbrev client : ClientCpp
client = record start.0 { ring = record { nodes = 4000000000 ∷ [] } }

abbrev all_indexes : PutFlags
all_indexes = record {
  column_index = true;
  equal_index_v1 = true;
  equal_index_v2 = true;
  ore_index = true;
}

abbrev forty : Bytes
forty = 40 ∷ 0 ∷ 0 ∷ 0 ∷ []

abbrev unseal : Bytes → Bytes → Bytes
unfolding drop_bytes
unseal key sealed = drop_bytes (length key) sealed

client-CanPut : CanPut client people age forty
unfolding ore_index_right_len
client-CanPut = record {
  ready = toy_helper-IsReady;
  wide = omega arith;
  right_fits = omega arith;
  four_bytes = omega arith;
  small = omega arith;
  fits = omega arith;
}

put-get_example :
    (done : ClientCpp × (ℕ → Bytes → Bytes)) × (put seal true all_indexes people
        (1 ∷ [])
        age
        forty
        client
        (λ i k. [])
      ≡ ok done)
    × (get unseal [] people (1 ∷ []) age done.0 done.1 ≡ ok forty)
unfolding query query_from trapdoor get_route put_route unseal
put-get_example =
    put-get seal unseal all_indexes 0 people (1 ∷ []) age forty [] client (λ i k. []) client-CanPut
      (omega arith) refl refl (omega arith) refl
