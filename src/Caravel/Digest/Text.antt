-- ===== src/Caravel/Digest/Text.antt =====
-- Caravel/BitConvert.cpp: the text of bytes fits its buffer, and is that of one byte after the other.
use mathlib.Core.List.{append_assoc}
use asiaccs.Base.{ℕ, zero, suc, ◌+◌, ◌-◌, ◌*◌, ◌^◌, ◌≤◌, ◌<◌, ◌≡◌, refl, sym, ap, ◌∙◌, arith}
use asiaccs.Base.{true, false, [], ◌∷◌, ◌++◌, map}
use asiaccs.Base.{leb, ◌==◌, u32, length, length-append}
use asiaccs.Base.{ok}
use asiaccs.Proxy.Services.{Bytes, drop_bytes, concat}
use asiaccs.Caravel.Redis.Moved.{Lacks, Lacks-append, take_bytes-append, take_bytes-all}
use asiaccs.Caravel.Digest.{put_text, snprintf, format_bytes, assign, to_text}

-- Each byte is formatted as `len` characters, none of them NUL.
abbrev pub HasWidth : (ℕ → Bytes) → ℕ → Bytes → Type 0
HasWidth format len [] = Unit {0}
HasWidth format len (c ∷ src) =
    (length (format c) ≡ len) × Lacks 0 (format c) × HasWidth format len src

pub HasWidth-all :
    (format : ℕ → Bytes) (len : ℕ)
    → ((c : ℕ) → (length (format c) ≡ len) × Lacks 0 (format c))
    → (src : Bytes) → HasWidth format len src
HasWidth-all format len each [] = tt
HasWidth-all format len each (c ∷ src) =
    let (size, solid) = each c in (size, solid, HasWidth-all format len each src)

drop_bytes-more : (s t : Bytes) (n : ℕ) → drop_bytes (length s + n) (s ++ t) ≡ drop_bytes n t
unfolding drop_bytes
drop_bytes-more [] t n = ap (λ (k : ℕ). drop_bytes k t) (omega arith)
drop_bytes-more (x ∷ s) t n =
    let next : length (x ∷ s) + n ≡ suc (length s + n) = omega arith in
    ap (λ (k : ℕ). drop_bytes k (x ∷ (s ++ t))) next ∙ drop_bytes-more s t n

length-drop_bytes : (n : ℕ) (t : Bytes) → n ≤ length t → length (drop_bytes n t) + n ≡ length t
unfolding drop_bytes
length-drop_bytes zero t h = omega arith
length-drop_bytes (suc n) [] h = absurd (omega (arith, h))
length-drop_bytes (suc n) (x ∷ t) h = omega (arith, length-drop_bytes n t (omega (arith, h)))

pub put_text-append :
    (pre tail t : Bytes)
    → length t ≤ length tail
    → put_text (pre ++ tail) (length pre) t ≡ ok (pre ++ (t ++ drop_bytes (length t) tail))
unfolding put_text
put_text-append pre tail t room =
    let inside : leb (length pre + length t) (length (pre ++ tail)) ≡ true =
      ground (arith, length-append pre tail, room) in
    rw (inside, take_bytes-append pre tail, drop_bytes-more pre tail (length t)) refl

pub assign-append : (s t : Bytes) → Lacks 0 s → assign (s ++ (0 ∷ t)) ≡ s
unfolding assign
assign-append [] t h = refl
assign-append (x ∷ s) t (solid, h) = rw solid (ap (λ r. x ∷ r) (assign-append s t h))

Lacks-concat :
    (format : ℕ → Bytes) (len : ℕ) (src : Bytes)
    → HasWidth format len src
    → Lacks 0 (concat (map format src)) × (length (concat (map format src)) ≡ length src * len)
unfolding concat
Lacks-concat format len [] h = (tt, omega arith)
Lacks-concat format len (c ∷ src) (size, solid, h) =
    let (lacks, whole) = Lacks-concat format len src h in
    (
      Lacks-append 0 (format c) (concat (map format src)) solid lacks,
      grind (arith, length-append (format c) (concat (map format src)), whole, size),
    )

-- A text that fits is written with its NUL.
snprintf-append :
    (pre tail t : Bytes)
    → length t + 1 ≤ length tail
    → snprintf (pre ++ tail) (length pre) (length t + 1) t
      ≡ ok ((pre ++ t) ++ (0 ∷ drop_bytes (length t + 1) tail))
unfolding snprintf
snprintf-append pre tail t room =
    let some_room : (length t + 1 == 0) ≡ false = ground arith in
    let size : length (t ++ (0 ∷ [])) ≡ length t + 1 = omega (arith, length-append t (0 ∷ [])) in
    let less : length t + 1 - 1 ≡ length t = omega arith in
    let written = put_text-append pre tail (t ++ (0 ∷ [])) (omega (arith, size, room)) in
    rw (some_room, less, take_bytes-all (length t) t (omega arith))
      (written ∙ ap ok (rw size (simp append_assoc)))

u32-small : (n : ℕ) → n < 2 ^ 32 → u32 n ≡ n
u32-small n small = omega (arith, small)

-- The loop leaves what is in front of it, and one byte behind the text.
format_bytes-append :
    (format : ℕ → Bytes) (len : ℕ) (src : Bytes) (cur : ℕ) (pre tail : Bytes)
    → HasWidth format len src
    → len + 1 < 2 ^ 32
    → (cur + length src) * len < 2 ^ 32
    → length pre ≡ cur * len
    → length tail ≡ length src * len + 1
    → (last : ℕ) × (format_bytes format len src cur (pre ++ tail)
        ≡ ok (pre ++ (concat (map format src) ++ (last ∷ []))))
unfolding format_bytes concat
format_bytes-append format len [] cur pre [] h small fits at room = absurd (omega (arith, room))
format_bytes-append format len [] cur pre (last ∷ []) h small fits at room = (last, refl)
format_bytes-append format len [] cur pre (x ∷ y ∷ tail) h small fits at room =
    absurd (omega (arith, room))
format_bytes-append format len (c ∷ src) cur pre tail (size, solid, h) small fits at room =
    let D = drop_bytes (length (format c) + 1) tail in
    let many : length (format c) + 1 ≤ length tail = grind (arith, size, room) in
    let rest = length-drop_bytes (length (format c) + 1) tail many in
    let at_next : length (pre ++ format c) ≡ suc cur * len =
      grind (arith, length-append pre (format c), at, size) in
    let (last, e) =
      format_bytes-append format len src (suc cur) (pre ++ format c) (0 ∷ D) h small
        (grind (arith, fits)) at_next (grind (arith, rest, room, size)) in
    let where_to : u32 (cur * len) ≡ length pre =
      ap u32 (sym at) ∙ u32-small (length pre) (grind (arith, at, fits)) in
    let how_much : u32 (len + 1) ≡ length (format c) + 1 =
      u32-small (len + 1) small ∙ ap (λ n. n + 1) (sym size) in
    (
      last,
      rw (where_to, how_much, snprintf-append pre tail (format c) many)
          (e ∙ ap ok (simp append_assoc)),
    )

-- When each byte is formatted as exactly `len` characters, none of them NUL, the array is given with
-- the size asked for, and sizes stay below 2 ^ 32, `toString` stays inside its array, though each byte
-- is written with a NUL behind it, and gives the texts of all bytes one after the other.
pub to_text-concat :
    (fresh : ℕ → Bytes) (format : ℕ → Bytes) (len : ℕ) (src : Bytes)
    → ((n : ℕ) → length (fresh n) ≡ n)
    → HasWidth format len src
    → len + 1 < 2 ^ 32
    → length src * len + 1 < 2 ^ 32
    → to_text fresh format len src ≡ ok (concat (map format src))
unfolding to_text
to_text-concat fresh format len src sized h small fits =
    let (solid, size) = Lacks-concat format len src h in
    let T = concat (map format src) in
    let whole : u32 (length src * len) ≡ length T =
      u32-small (length src * len) (omega (arith, fits)) ∙ sym size in
    let room : u32 (length T + 1) ≡ length T + 1 =
      u32-small (length T + 1) (omega (arith, size, fits)) in
    let (last, filled) =
      format_bytes-append format len src 0 [] (fresh (length T + 1)) h small (grind (arith, fits))
        (omega arith) (sized (length T + 1) ∙ ap (λ n. n + 1) size) in
    let ended = put_text-append T (last ∷ []) (0 ∷ []) (omega arith) in
    rw (whole, room, filled) (rw ended (ap ok (assign-append T [] solid)))
