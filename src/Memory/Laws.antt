-- ===== src/Memory/Laws.antt =====
-- Reading back what was written, and what a write leaves alone.
use native.Mathlib.Nat.{pow-suc, div-div-eq-div-mul, one-le-pow, mod-lt, div-add-mod', div-one}
use native.Mathlib.Nat.{add-zero}
use asiaccs.Base.{
  ℕ, zero, suc, ◌+◌, ◌-◌, ◌*◌, ◌/◌, ◌%◌, ◌^◌, ◌≤◌, ◌<◌, ◌≡◌, refl, sym, ap, ◌∙◌, ◌⊎◌,
}
use asiaccs.Base.{arith, mod_of_split, ok, fault}
use asiaccs.Memory.{Buf, byte, read, write, load, store}

-- The low digit of a remainder in base 256, and the others.
mod_bytes : (v n : ℕ) → v % 256 ^ suc n ≡ v % 256 + 256 * (v / 256 % 256 ^ n)
mod_bytes v n =
    let q = v / 256 / 256 ^ n in
    let r = v / 256 % 256 ^ n in
    let small : r < 256 ^ n = mod-lt (v / 256) (one-le-pow n 256 (omega arith)) in
    let split : v ≡ q * 256 ^ suc n + (v % 256 + 256 * r) =
      omega (arith, div-add-mod' (v / 256) (256 ^ n), ap (λ (t : ℕ). q * t) (pow-suc 256 n)) in
    ap (λ (t : ℕ). t % 256 ^ suc n) split
    ∙ mod_of_split (256 ^ suc n) q (v % 256 + 256 * r) (omega (arith, pow-suc 256 n))

byte-suc : (v k : ℕ) → byte v (suc k) ≡ byte (v / 256) k
byte-suc v k =
    ap (λ (t : ℕ). t % 256)
      (ap (λ (t : ℕ). v / t) (omega (arith, pow-suc 256 k))
        ∙ sym (div-div-eq-div-mul v 256 (256 ^ k)))

shift : (a b : ℕ) → suc a + b ≡ a + suc b
shift a b = omega arith

-- A run of the bytes of a number reads as its remainder.
pub read_bytes :
    (m : ℕ → ℕ) (n off v : ℕ)
    → ((i : ℕ) → i < n → m (off + i) ≡ byte v i)
    → read m off n ≡ v % 256 ^ n
unfolding read
read_bytes m zero off v h = omega arith
read_bytes m (suc n) off v h =
    let here : m off ≡ v % 256 =
      ap m (sym (add-zero off)) ∙ h 0 (omega arith) ∙ ap (λ (t : ℕ). t % 256) (div-one v) in
    let there : (i : ℕ) → i < n → m (suc off + i) ≡ byte (v / 256) i =
      λ i p. ap m (shift off i) ∙ h (suc i) (omega arith) ∙ byte-suc v i in
    omega (arith, mod_bytes v n, here, read_bytes m n (suc off) (v / 256) there)

-- Memory that agrees on a range reads the same there.
pub read_congr :
    (m m' : ℕ → ℕ) (n off : ℕ)
    → ((o : ℕ) → off ≤ o → o < off + n → m o ≡ m' o)
    → read m off n ≡ read m' off n
unfolding read
read_congr m m' zero off h = refl
read_congr m m' (suc n) off h = omega (
  arith,
  h off (omega arith) (omega arith),
  read_congr m m' n (suc off) (λ o p q. h o (omega arith) (omega arith)),
)

pub write_inside : (m : ℕ → ℕ) (off n v i : ℕ) → i < n → write m off n v (off + i) ≡ byte v i
unfolding write
write_inside m off n v i h = ground (arith, ap (byte v) (in_place off i))
  where
    in_place : (a b : ℕ) → a + b - a ≡ b
    in_place a b = omega arith

pub write_outside :
    (m : ℕ → ℕ) (off n v o : ℕ) → (o < off) ⊎ (off + n ≤ o) → write m off n v o ≡ m o
unfolding write
write_outside m off n v o h = ground arith

-- What was written is read back, cut to the bytes that were copied.
pub read-write_self : (m : ℕ → ℕ) (off n v : ℕ) → read (write m off n v) off n ≡ v % 256 ^ n
read-write_self m off n v = read_bytes (write m off n v) n off v (λ i p. write_inside m off n v i p)

-- A write elsewhere is not seen.
pub read-write_disjoint :
    (m : ℕ → ℕ) (off n v at len : ℕ)
    → (at + len ≤ off) ⊎ (off + n ≤ at)
    → read (write m off n v) at len ≡ read m at len
read-write_disjoint m off n v at len apart =
    read_congr (write m off n v) m len at (λ o p q. write_outside m off n v o (ground arith))

-- Accesses within the buffer.
pub store-ok :
    (b : Buf) (off n v : ℕ)
    → off + n ≤ b.size
    → store b off n v ≡ ok (record { size = b.size; at = write b.at off n v })
unfolding store
store-ok b off n v h = ground arith

pub load-ok : (b : Buf) (off n : ℕ) → off + n ≤ b.size → load b off n ≡ ok (read b.at off n)
unfolding load
load-ok b off n h = ground arith

-- An access that leaves the buffer is a fault.
pub store-fault : (b : Buf) (off n v : ℕ) → b.size < off + n → store b off n v ≡ fault
unfolding store
store-fault b off n v h = ground arith
