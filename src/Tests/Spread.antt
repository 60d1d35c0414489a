-- ===== src/Tests/Spread.antt =====
-- The random sequence of the servers, and redirections.
use mathlib.Core.List.{Perm}
use asiaccs.Base.{ℕ, ◌+◌, ◌-◌, ◌%◌, ◌≡◌, refl, arith, List, [], ◌∷◌, some, ok, fault}
use asiaccs.Base.Decimal.{to_string}
use asiaccs.Proxy.Services.{codes}
use asiaccs.Caravel.Redis.{done, moved_address}
use asiaccs.Caravel.Redis.Moved.{moved_text, moved_address-moved_text}
use asiaccs.Client.Spread.{server_order}
use asiaccs.Client.Spread.Each.{ComesUp, servers, server_order-perm, server_order-fault}

abbrev pub counting : ℕ → ℕ
counting i = i

pub counting-ComesUp : ComesUp counting 3 3
counting-ComesUp pos k below = ((k + 3 - pos % 3) % 3, omega arith, omega (arith, below))

many-ComesUp : ComesUp counting 17 17
many-ComesUp pos k below = ((k + 17 - pos % 17) % 17, omega arith, omega (arith, below))

server_order_run : server_order 3 (λ i. i + 1) 3 ≡ ok (some (1 ∷ 2 ∷ 0 ∷ []))
unfolding server_order
server_order_run = refl

server_order-perm_example :
    (order : List ℕ) × (server_order 3 counting 3 ≡ ok (some order)) × Perm order (servers 3)
server_order-perm_example = server_order-perm counting 3 3 counting-ComesUp (omega arith)

server_order-fault_example : server_order 17 counting 17 ≡ fault
server_order-fault_example = server_order-fault counting 17 17 many-ComesUp (omega arith)

moved_address-moved_text_example :
    moved_address (moved_text (codes "3999") (codes "127.0.0.1", 6381))
    ≡ done (codes "127.0.0.1", 6381)
unfolding to_string
moved_address-moved_text_example =
    moved_address-moved_text (codes "3999") (codes "127.0.0.1") 6381
      (refl, (refl, (refl, (refl, (refl, (refl, (refl, (refl, (refl, tt))))))))) (omega arith)
      (omega arith)
