-- ===== src/Client/Spread.antt =====
-- Client/ClientCpp.cpp: the random sequence in which the plaintext queries ask the servers.
pub mod Each
use asiaccs.Base.{
  ℕ, zero, suc, ◌+◌, ◌%◌, Bool, true, false, Option, none, some, List, [], ◌∷◌, ◌++◌,
}
use asiaccs.Base.{ltb, ◌==◌, if◌then◌else◌, length, Outcome, ok, fault, ◌>>=◌}

-- `int serverID[16]`
abbrev pub max_servers : ℕ
max_servers = 16

-- The loop over `j`: whether an earlier place of the array has the number.
unfoldable pub taken : List ℕ → ℕ → Bool
taken [] sid = false
taken (x ∷ xs) sid = let rest = taken xs sid in if x == sid then true else rest

-- `while (serverID[i] < 0)`: draws from `rand`, of which `pos` are used up, until one gives a server
-- that is not in the filled places. `none` when `fuel` draws do not suffice.
unfoldable pub draw_server : (fuel : ℕ) → (ℕ → ℕ) → ℕ → ℕ → List ℕ → Option (ℕ × ℕ)
unfolding taken
draw_server zero rand pos num ids = none
draw_server (suc fuel) rand pos num ids =
    let sid = rand pos % num in
    let again = draw_server fuel rand (suc pos) num ids in
    if taken ids sid then again else some (sid, suc pos)

-- The loop over `i` with `left` rounds to go. `ids` are the filled places of the array, and all behind
-- them are -1; a write behind its end is a fault.
unfoldable pub fill_order : (left : ℕ) → ℕ → (ℕ → ℕ) → ℕ → ℕ → List ℕ → Outcome (Option (List ℕ))
unfolding draw_server
fill_order zero fuel rand pos num ids = ok (some ids)
fill_order (suc left) fuel rand pos num ids =
    let next : Outcome (Option (List ℕ)) = elim (draw_server fuel rand pos num ids) [
      | none ↦ ok none
      | some (sid, used) ↦ fill_order left fuel rand used num (ids ++ (sid ∷ []))
    ] in
    if ltb (length ids) max_servers then next else fault

unfoldable pub server_order : ℕ → (ℕ → ℕ) → ℕ → Outcome (Option (List ℕ))
unfolding fill_order
server_order fuel rand num = fill_order num fuel rand 0 num []
