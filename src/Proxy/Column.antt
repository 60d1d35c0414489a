-- ===== src/Proxy/Column.antt =====
-- Proxy/TProxy.cpp: what `ProxyGetColumn` finds for the entries of a column index.
use asiaccs.Base.{ℕ, zero, suc, ◌+◌, ◌*◌, ◌^◌, ◌<◌, bit_xor}
use asiaccs.Base.{◌≡◌, refl, sym, ap, ◌∙◌, ◌≢◌, inl, inr, arith}
use asiaccs.Base.{true, false, Option, some, List, [], ◌∷◌, ◌++◌}
use asiaccs.Base.{leb, ◌==◌, if◌then◌else◌, ==_iff, Bool-cases}
use asiaccs.Base.{length, get_or}
use asiaccs.Base.{tabulate}
use asiaccs.Base.{Outcome, ok}
use asiaccs.Base.{get_or-tabulate_zero}
use asiaccs.Bits.Xor.{xor_cancel_left, xor_injective, xor_self}
use asiaccs.Base.{tabulate_congr}
use asiaccs.Proxy.Services.{Bytes, Backend, word32, concat, counter_bytes}
use asiaccs.Proxy.{
  at_counter, fetch, index_stop_flag, flag_bytes, column_round, counted_loop, proxy_get_column,
}

-- A mask with the zeros after it, and an entry: the flag and a trapdoor under it.
abbrev padded : Bytes → Bytes
padded mask = mask ++ (0 ∷ 0 ∷ 0 ∷ 0 ∷ [])

abbrev hidden_byte : Bytes → Bytes → ℕ → ℕ
hidden_byte mask td i = bit_xor (get_or (padded mask) i 0) (get_or (flag_bytes ++ td) i 0)

abbrev pub hidden : Bytes → Bytes → Bytes
hidden mask td = tabulate 36 0 (hidden_byte mask td)

-- Lists of bytes by their elements.
get_or-append : (xs ys : Bytes) (i : ℕ) → i < length xs → get_or (xs ++ ys) i 0 ≡ get_or xs i 0
get_or-append [] ys i h = absurd (omega (arith, h))
get_or-append (x ∷ xs) ys zero h = refl
get_or-append (x ∷ xs) ys (suc i) h = get_or-append xs ys i (omega (arith, h))

tabulate_shift : (n k : ℕ) (f : ℕ → ℕ) → tabulate n (suc k) f ≡ tabulate n k (λ i. f (suc i))
tabulate_shift zero k f = refl
tabulate_shift (suc n) k f = ap (λ t. f (suc k) ∷ t) (tabulate_shift n (suc k) f)

tabulate-get_or : (xs : Bytes) → tabulate (length xs) 0 (λ i. get_or xs i 0) ≡ xs
tabulate-get_or [] = refl
tabulate-get_or (x ∷ xs) =
    ap (λ t. x ∷ t) (tabulate_shift (length xs) 0 (λ i. get_or (x ∷ xs) i 0) ∙ tabulate-get_or xs)

-- The first word of a mask, and of an entry under it.
abbrev word_of : ℕ → ℕ → ℕ → ℕ → ℕ
word_of a c d e = a + c * 2 ^ 8 + d * 2 ^ 16 + e * 2 ^ 24

abbrev hidden_word : ℕ → ℕ → ℕ → ℕ → ℕ
hidden_word a c d e = word_of (bit_xor a 210) (bit_xor c 2) (bit_xor d 150) (bit_xor e 73)

-- The test `(FLAG == a) ^ b` is passed by every entry, whatever its mask.
test-passes :
    (a c d e : ℕ)
    → (bit_xor (if index_stop_flag == hidden_word a c d e then 1 else 0) (word_of a c d e) == 0)
      ≡ false
test-passes a c d e = elim (Bool-cases (index_stop_flag == hidden_word a c d e)) [
  | inl same ↦ elim (Bool-cases (word_of a c d e == 1)) [
    | inl one ↦
        let is_one : word_of a c d e ≡ 1 = (==_iff _ 1).0 one in
        let xa : a ≡ 1 = omega (arith, is_one) in
        let xc : c ≡ 0 = omega (arith, is_one) in
        let xd : d ≡ 0 = omega (arith, is_one) in
        let xe : e ≡ 0 = omega (arith, is_one) in
        let word : index_stop_flag ≡ hidden_word 1 0 0 0 =
          (==_iff _ _).0 same
          ∙ ap (λ (t : ℕ). hidden_word t c d e) xa
          ∙ ap (λ (t : ℕ). hidden_word 1 t d e) xc
          ∙ ap (λ (t : ℕ). hidden_word 1 0 t e) xd
          ∙ ap (λ (t : ℕ). hidden_word 1 0 0 t) xe in
        absurd (omega (arith, word))
    | inr other ↦ rw same (nonzero 1 (word_of a c d e) (ground (arith, other)))
  ]
  | inr apart ↦ elim (Bool-cases (word_of a c d e == 0)) [
    | inl empty ↦
        let is_zero : word_of a c d e ≡ 0 = (==_iff _ 0).0 empty in
        let xa : a ≡ 0 = omega (arith, is_zero) in
        let xc : c ≡ 0 = omega (arith, is_zero) in
        let xd : d ≡ 0 = omega (arith, is_zero) in
        let xe : e ≡ 0 = omega (arith, is_zero) in
        let word : hidden_word a c d e ≡ index_stop_flag =
          ap (λ (t : ℕ). hidden_word t c d e) xa
          ∙ ap (λ (t : ℕ). hidden_word 0 t d e) xc
          ∙ ap (λ (t : ℕ). hidden_word 0 0 t e) xd
          ∙ ap (λ (t : ℕ). hidden_word 0 0 0 t) xe in
        absurd (ground (arith, apart, word))
    | inr other ↦ rw apart (nonzero 0 (word_of a c d e) (ground (arith, other)))
  ]
]
  where
    nonzero : (x y : ℕ) → x ≢ y → (bit_xor x y == 0) ≡ false
    nonzero x y different = elim (Bool-cases (bit_xor x y == 0)) [
      | inl z ↦ absurd (different (xor_injective x y y ((==_iff _ 0).0 z ∙ sym (xor_self y))))
      | inr f ↦ f
    ]

-- The mask takes itself off.
unmasked :
    (mask td : Bytes)
    → length td ≡ 32
    → tabulate 32 0
        (λ i. bit_xor (get_or (padded mask) (4 + i) 0) (get_or (hidden mask td) (4 + i) 0))
      ≡ td
unmasked mask td size =
    tabulate_congr 32 0
      (λ i. bit_xor (get_or (padded mask) (4 + i) 0) (get_or (hidden mask td) (4 + i) 0))
      (λ i. get_or td i 0)
      (λ i l h.
        let later : 4 + i ≡ suc (suc (suc (suc i))) = omega arith in
        ap (bit_xor (get_or (padded mask) (4 + i) 0))
          (get_or-tabulate_zero 36 (4 + i) (hidden_byte mask td) 0 (omega (arith, h)))
        ∙ xor_cancel_left (get_or (padded mask) (4 + i) 0) (get_or (flag_bytes ++ td) (4 + i) 0)
        ∙ ap (λ (k : ℕ). get_or (flag_bytes ++ td) k 0) later)
    ∙ ap (λ (n : ℕ). tabulate n 0 (λ i. get_or td i 0)) (sym size)
    ∙ tabulate-get_or td

module _ ⦃b : Backend⦄ (s : b.Store) (index_trapdoor index_mask : Bytes) where
  -- A round on an entry that is hidden under its mask.
  column_round-entry :
      (c : ℕ) (td : Bytes)
      → length td ≡ 32
      → b.pool_get s (at_counter index_trapdoor c) ≡ hidden (at_counter index_mask c) td
      → column_round s index_trapdoor index_mask c ≡ ok (some (fetch s td))
  unfolding column_round word32
  column_round-entry c td size entry =
      let mask = at_counter index_mask c in
      let long : length mask ≡ 32 = b.hmac_length (counter_bytes c) index_mask in
      let at = λ (i : ℕ). get_or mask i 0 in
      let some_mask : leb 4 (length mask + 1) ≡ true = ground (arith, long) in
      let front : (i : ℕ) → i < 32 → get_or (padded mask) i 0 ≡ at i =
        λ i h. get_or-append mask (0 ∷ 0 ∷ 0 ∷ 0 ∷ []) i (omega (arith, h, long)) in
      let f0 = front 0 (omega arith) in
      let f1 = front 1 (omega arith) in
      let f2 = front 2 (omega arith) in
      let f3 = front 3 (omega arith) in
      let test = test-passes (at 0) (at 1) (at 2) (at 3) in
      let found = unmasked mask td size in rw (entry, some_mask, f0, f1, f2, f3, test, found) refl

-- The loop puts together what its rounds give when each of them goes on.
counted_loop-rounds :
    (round : ℕ → Outcome (Option (List Bytes))) (out : ℕ → List Bytes) (left c : ℕ)
    → ((i : ℕ) → i < c + left → round i ≡ ok (some (out i)))
    → counted_loop round left c ≡ ok (concat (tabulate left c out))
unfolding counted_loop concat
counted_loop-rounds round out zero c runs = refl
counted_loop-rounds round out (suc left) c runs =
    let next : counted_loop round left (c + 1) ≡ ok (concat (tabulate left (suc c) out)) =
      ap (counted_loop round left) (omega arith)
      ∙ counted_loop-rounds round out left (suc c) (λ i h. runs i (omega (arith, h))) in
    rw (runs c (omega arith), next) refl

module _ ⦃b : Backend⦄ where
  -- On a column index with `num` entries from counter 0 on, each hidden under its mask,
  -- `ProxyGetColumn` returns the data of all of them in order.
  pub proxy_get_column-entries :
      (s : b.Store) (index_trapdoor index_mask : Bytes) (td : ℕ → Bytes) (num : ℕ)
      → ((i : ℕ) → length (td i) ≡ 32)
      → ((i : ℕ)
          → i < num
          → b.pool_get s (at_counter index_trapdoor i) ≡ hidden (at_counter index_mask i) (td i))
      → proxy_get_column s index_trapdoor index_mask num
        ≡ ok (concat (tabulate num 0 (λ i. fetch s (td i))))
  unfolding proxy_get_column
  proxy_get_column-entries s index_trapdoor index_mask td num size entries =
      counted_loop-rounds (column_round s index_trapdoor index_mask) (λ i. fetch s (td i)) num 0
        (λ i h.
          column_round-entry s index_trapdoor index_mask i (td i) (size i)
            (entries i (omega (arith, h))))
