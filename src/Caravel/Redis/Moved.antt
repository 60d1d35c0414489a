-- ===== src/Caravel/Redis/Moved.antt =====
-- Caravel/RedisHelper.cpp: the address in a redirection.
use asiaccs.Base.{ℕ, zero, suc, ◌+◌, ◌-◌, ◌^◌, ◌≤◌, ◌<◌, ◌≡◌, refl, sym, ap, ap₂, ◌∙◌, arith}
use asiaccs.Base.{true, false, none, some, [], ◌∷◌, ◌++◌}
use asiaccs.Base.{ltb, leb, ◌==◌, u32, u64, sub32, length, length-append}
use asiaccs.Base.Decimal.{
  to_string, AllDigits, is_digit, scan_number-to_string, to_string-AllDigits,
}
use asiaccs.Proxy.Services.{Bytes, take_bytes, drop_bytes}
use asiaccs.Caravel.Redis.{
  Address, done, moved_word, find_last_of, substr, scan_port, moved_address,
}
use mathlib.Core.List.{append_assoc}

-- A text without a character.
abbrev pub Lacks : ℕ → Bytes → Type 0
Lacks c [] = Unit {0}
Lacks c (x ∷ s) = ((x == c) ≡ false) × Lacks c s

pub Lacks-append : (c : ℕ) (s t : Bytes) → Lacks c s → Lacks c t → Lacks c (s ++ t)
Lacks-append c [] t h k = k
Lacks-append c (x ∷ s) t (h, hs) k = (h, Lacks-append c s t hs k)

pub AllDigits-Lacks : (c : ℕ) (s : Bytes) → is_digit c ≡ false → AllDigits s → Lacks c s
AllDigits-Lacks c [] other h = tt
AllDigits-Lacks c (x ∷ s) other (h, hs) = (ground (arith, other, h), AllDigits-Lacks c s other hs)

find_last_of-Lacks : (s : Bytes) (c : ℕ) → Lacks c s → find_last_of s c ≡ none
unfolding find_last_of
find_last_of-Lacks [] c h = refl
find_last_of-Lacks (x ∷ s) c (h, hs) = rw (find_last_of-Lacks s c hs, h) refl

find_last_of-append :
    (s t : Bytes) (c : ℕ) → Lacks c t → find_last_of (s ++ (c ∷ t)) c ≡ some (length s)
unfolding find_last_of
find_last_of-append [] t c h =
    let same : (c == c) ≡ true = ground arith in rw (find_last_of-Lacks t c h, same) refl
find_last_of-append (x ∷ s) t c h = rw (find_last_of-append s t c h) refl

drop_bytes-append : (s t : Bytes) (c : ℕ) → drop_bytes (suc (length s)) (s ++ (c ∷ t)) ≡ t
unfolding drop_bytes
drop_bytes-append [] t c = refl
drop_bytes-append (x ∷ s) t c = drop_bytes-append s t c

pub take_bytes-append : (s t : Bytes) → take_bytes (length s) (s ++ t) ≡ s
unfolding take_bytes
take_bytes-append [] t = refl
take_bytes-append (x ∷ s) t = ap (λ r. x ∷ r) (take_bytes-append s t)

pub take_bytes-all : (n : ℕ) (s : Bytes) → length s ≤ n → take_bytes n s ≡ s
unfolding take_bytes
take_bytes-all zero [] h = refl
take_bytes-all zero (x ∷ s) h = absurd (omega (arith, h))
take_bytes-all (suc n) [] h = refl
take_bytes-all (suc n) (x ∷ s) h = ap (λ r. x ∷ r) (take_bytes-all n s (omega (arith, h)))

-- The two cuts of a text at a character.
substr-middle :
    (s t r : Bytes) (c : ℕ) → substr (s ++ (c ∷ (t ++ r))) (suc (length s)) (length t) ≡ done t
unfolding substr
substr-middle s t r c =
    let inside : leb (suc (length s)) (length (s ++ (c ∷ (t ++ r)))) ≡ true =
      ground (arith, length-append s (c ∷ (t ++ r))) in
    rw (inside, drop_bytes-append s (t ++ r) c, take_bytes-append t r) refl

substr-end :
    (s t : Bytes) (c n : ℕ) → length t ≤ n → substr (s ++ (c ∷ t)) (suc (length s)) n ≡ done t
unfolding substr
substr-end s t c n long =
    let inside : leb (suc (length s)) (length (s ++ (c ∷ t))) ≡ true =
      ground (arith, length-append s (c ∷ t)) in
    rw (inside, drop_bytes-append s t c, take_bytes-all n t long) refl

scan_port-to_string : (port : ℕ) → port < 2 ^ 32 → scan_port (to_string port) ≡ done port
unfolding scan_port
scan_port-to_string port small =
    let fits : ltb port (2 ^ 32) ≡ true = ground (arith, small) in
    rw (scan_number-to_string port, scan_port, fits) refl

-- The redirection that a server of a cluster sends.
abbrev pub moved_text : Bytes → Address → Bytes
moved_text slot (ip, port) = (moved_word ++ slot) ++ (b' ' ∷ (ip ++ (b':' ∷ to_string port)))

moved_address-parts :
    (val ip port_text : Bytes) (b e port : ℕ)
    → find_last_of val b' ' ≡ some b
    → find_last_of val b':' ≡ some e
    → substr val (u32 (b + 1)) (sub32 (u32 e) (u32 (b + 1))) ≡ done ip
    → substr val (u32 (u32 e + 1)) (u64 (length val + 2 ^ 64 - u32 e)) ≡ done port_text
    → scan_port port_text ≡ done port
    → moved_address val ≡ done (ip, port)
unfolding moved_address
moved_address-parts val ip port_text b e port at_space at_colon host rest number =
    rw (at_space, at_colon, host, rest, number) refl

-- From a redirection of less than 4 GB, with an IP that has no space in it and a 32-bit port,
-- the IP and the port are read as the server wrote them, whatever the slot is.
pub moved_address-moved_text :
    (slot ip : Bytes) (port : ℕ)
    → Lacks b' ' ip
    → port < 2 ^ 32
    → length (moved_text slot (ip, port)) < 2 ^ 32
    → moved_address (moved_text slot (ip, port)) ≡ done (ip, port)
moved_address-moved_text slot ip port solid small short =
    let front = moved_word ++ slot in
    let digits = to_string port in
    let val = moved_text slot (ip, port) in
    let size_back = length-append ip (b':' ∷ digits) in
    let size = length-append front (b' ' ∷ (ip ++ (b':' ∷ digits))) in
    let no_space = AllDigits-Lacks b' ' digits refl (to_string-AllDigits port) in
    let no_colon = AllDigits-Lacks b':' digits refl (to_string-AllDigits port) in
    let at_space : find_last_of val b' ' ≡ some (length front) =
      find_last_of-append front (ip ++ (b':' ∷ digits)) b' '
        (Lacks-append b' ' ip (b':' ∷ digits) solid (refl, no_space)) in
    let regroup : val ≡ (front ++ (b' ' ∷ ip)) ++ (b':' ∷ digits) =
      sym (append_assoc front (b' ' ∷ ip) (b':' ∷ digits)) in
    let at_colon : find_last_of val b':' ≡ some (length (front ++ (b' ' ∷ ip))) =
      ap (λ v. find_last_of v b':') regroup
      ∙ find_last_of-append (front ++ (b' ' ∷ ip)) digits b':' no_colon in
    let size_ip = length-append front (b' ' ∷ ip) in
    let beg : u32 (length front + 1) ≡ suc (length front) = omega (arith, short, size, size_back) in
    let span : sub32 (u32 (length (front ++ (b' ' ∷ ip)))) (u32 (length front + 1)) ≡ length ip =
      omega (arith, short, size, size_back, size_ip) in
    let after : u32 (u32 (length (front ++ (b' ' ∷ ip))) + 1)
        ≡ suc (length (front ++ (b' ' ∷ ip))) =
      omega (arith, short, size, size_back, size_ip) in
    let n = u64 (length val + 2 ^ 64 - u32 (length (front ++ (b' ' ∷ ip)))) in
    let enough : length digits ≤ n = omega (arith, short, size, size_back, size_ip) in
    moved_address-parts val ip digits (length front) (length (front ++ (b' ' ∷ ip))) port at_space
      at_colon (ap₂ (substr val) beg span ∙ substr-middle front ip (b':' ∷ digits) b' ')
      (ap (λ a. substr val a n) after
        ∙ ap (λ v. substr v (suc (length (front ++ (b' ' ∷ ip)))) n) regroup
        ∙ substr-end (front ++ (b' ' ∷ ip)) digits b':' n enough)
      (scan_port-to_string port small)
