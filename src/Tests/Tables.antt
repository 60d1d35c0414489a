-- ===== src/Tests/Tables.antt =====
-- The hash table and the ring of servers.
use asiaccs.Base.{ℕ, ◌/◌, ◌<◌, ◌≡◌, refl, arith, Bool, true, false, some}
use asiaccs.Base.{◌⊎◌, List, [], ◌∷◌, length, ltb, if◌then◌else◌, ok}
use asiaccs.Client.Routing.{SimConHash, query, interval, init_ring}
use asiaccs.Client.Routing.Share.{query-init_ring}
use asiaccs.Caravel.BukHash.{
  BukHash, full, probe, sum, end_of, used, new_item, get_item, set_item, lookup, get_real_num,
}
use asiaccs.Caravel.BukHash.Primes.{b_prime, b_prime-ends}
use asiaccs.Caravel.BukHash.Create.{create, IsNew, create-IsNew}
use asiaccs.Caravel.BukHash.Probes.{AnswersAt, probe-AnswersAt, set-lookup}
use asiaccs.Caravel.BukHash.Count.{IsCounted, num-IsCounted}

query-init_ring_example :
    (ring : SimConHash) × (init_ring 3 ≡ ok ring)
    × (length ring.nodes ≡ 3)
    × (0 < interval 3)
    × (query ring 2000000000
        ≡ some (if ltb (2000000000 / interval 3) 3 then 2000000000 / interval 3 else 2))
query-init_ring_example = query-init_ring 3 2000000000 (omega arith) (omega arith)

abbrev floors : List ℕ
floors = 13 ∷ 11 ∷ []

abbrev some_keys : ℕ → ℕ
some_keys i = if ltb i 4 then 17 else 0

probe-AnswersAt_example : AnswersAt some_keys floors 0 30 (sum floors) (probe some_keys floors 0 30)
unfolding end_of
probe-AnswersAt_example =
    probe-AnswersAt some_keys floors 30 (omega arith, (omega arith, tt)) (omega arith)

abbrev some_table : BukHash ℕ
some_table = record { keys = some_keys; values = λ i. i; primes = floors; num = 4 }

set-lookup_example :
    (((set_item some_table 30 5).0 ≡ true) × (lookup (set_item some_table 30 5).1 30 ≡ some 5))
    ⊎ ((probe some_keys floors 0 30 ≡ full) × (set_item some_table 30 5 ≡ (false, some_table)))
set-lookup_example = set-lookup some_table 30 5 (omega arith, (omega arith, tt))

num-IsCounted_example :
    IsCounted (new_item some_table 30).1
    × IsCounted (get_item some_table 30 true).1
    × IsCounted (set_item some_table 30 5).1
    × (get_real_num some_table ≡ (4, some_table))
unfolding sum end_of used
num-IsCounted_example =
    num-IsCounted some_table 30 5 true (omega arith, (omega arith, tt)) (omega arith) (omega arith)
      refl

b_prime-ends_example : (b : Bool) × (b_prime 101 ≡ some b)
b_prime-ends_example = b_prime-ends 101 (omega arith) refl

abbrev two_floors : BukHash ℕ
two_floors = record {
  keys = λ i. if ltb i 30 then 0 else i;
  values = λ i. if ltb i 30 then 0 else i;
  primes = 17 ∷ 13 ∷ [];
  num = 0;
}

create_run : create 0 (λ i. i) (λ i. i) true 17 2 ≡ some two_floors
unfolding create
create_run = refl

create-IsNew_example : IsNew (λ i. i) 17 2 two_floors
create-IsNew_example =
    create-IsNew 0 (λ i. i) (λ i. i) 17 2 two_floors (omega arith) (omega arith) create_run
