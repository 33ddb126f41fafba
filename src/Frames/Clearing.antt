-- ===== src/Frames/Clearing.antt =====
-- Clearing the lowest bit of a word: the arithmetic of the loop over the bits in `fetch_frame`.
use Prim.Native.Nat.{differ, bit_xor-bitwise}
use native.Mathlib.Nat.{pow-suc, mul_left_comm}
use eurali_os.Prelude.{
  ℕ, zero, suc, ◌+◌, ◌*◌, ◌/◌, ◌%◌, ◌^◌, ◌≤◌, ◌<◌, ◌≡◌, refl, sym, ap, ◌∙◌, inl, inr, arith,
  Bool-cases, bit_xor, ◌==◌,
}
use eurali_os.Prelude.Digits.{bit_xor_halves}
use eurali_os.Frames.{bit_scan, nonzero_bit_index}

bit_xor-by_zero : (n a : ℕ) → a ≤ n → bit_xor a 0 ≡ a
bit_xor-by_zero n zero h = bit_xor-bitwise 0 0
bit_xor-by_zero zero (suc a) h = absurd (omega arith)
bit_xor-by_zero (suc n) (suc a) h = omega (
  arith,
  bit_xor_halves (suc a) 0,
  bit_xor-by_zero n (suc a / 2) (omega arith),
  differ_zero (suc a % 2),
)
  where
    differ_zero : (x : ℕ) → differ x 0 ≡ x
    differ_zero zero = refl
    differ_zero (suc x) = refl

-- The same with the halves and the last digits given.
bit_xor_parts :
    (a b x y r s : ℕ)
    → a / 2 ≡ x
    → b / 2 ≡ y
    → a % 2 ≡ r
    → b % 2 ≡ s
    → bit_xor a b ≡ bit_xor x y * 2 + differ r s
bit_xor_parts a b x y r s ea eb ec ed = rw (← ea, ← eb, ← ec, ← ed) (bit_xor_halves a b)

pow_double : (i x : ℕ) → 2 ^ suc i * x ≡ 2 * (2 ^ i * x)
pow_double i x = rw (pow-suc 2 i) (omega arith)

-- Clearing the lowest bit that is set.
bit_xor_lowest : (i m : ℕ) → bit_xor (2 ^ i * (2 * m + 1)) (2 ^ i) ≡ 2 ^ i * (2 * m)
bit_xor_lowest zero m = omega (
  arith,
  bit_xor_parts (2 ^ 0 * (2 * m + 1)) (2 ^ 0) m 0 1 1 (omega arith) refl (omega arith) refl,
  bit_xor-by_zero m m (omega arith),
)
bit_xor_lowest (suc i) m =
    let a = pow_double i (2 * m + 1) in
    omega (
      arith,
      bit_xor_lowest i m,
      pow_double i (2 * m),
      bit_xor_parts (2 ^ suc i * (2 * m + 1)) (2 ^ suc i) (2 ^ i * (2 * m + 1)) (2 ^ i) 0 0
          (omega arith) (omega (arith, pow-suc 2 i)) (omega arith) (omega (arith, pow-suc 2 i)),
    )

-- The index found is below `n`, and the rest of the number above that bit is `m`.
bit_scan-Odd :
    (n b : ℕ)
    → b < 2 ^ n
    → 0 < b
    → (m w : ℕ) × (suc (bit_scan n b + w) ≡ n) × (m < 2 ^ w) × (b ≡ 2 ^ bit_scan n b * (2 * m + 1))
unfolding bit_scan
bit_scan-Odd zero b small pos = absurd (omega arith)
bit_scan-Odd (suc n) b small pos = elim (Bool-cases (b % 2 == 1)) [
  | inl odd ↦ rw odd (b / 2, n, omega arith, ground (arith, pow-suc 2 n), ground arith)
  | inr even ↦
      (let (m, w, fits, below, e) =
          bit_scan-Odd n (b / 2) (ground (arith, pow-suc 2 n)) (ground arith) in
        let zero_digit : b % 2 ≡ 0 = ground arith in
        rw even
          (m, w, omega arith, below, omega (arith, pow_double (bit_scan n (b / 2)) (2 * m + 1))))
]

bit_scan-shifted : (c w q : ℕ) → bit_scan (c + w) (2 ^ c * q) ≡ c + bit_scan w q
unfolding bit_scan
bit_scan-shifted zero w q =
    let a : 0 + w ≡ w = omega arith in
    let b : 2 ^ 0 * q ≡ q = omega arith in rw (a, b) (omega arith)
bit_scan-shifted (suc c) w q =
    let even : 2 ^ suc c * q % 2 ≡ 0 = omega (arith, pow_double c q) in
    let half : 2 ^ suc c * q / 2 ≡ 2 ^ c * q = omega (arith, pow_double c q) in
    let longer : suc c + w ≡ suc (c + w) = omega arith in
    rw (longer, even, half, bit_scan-shifted c w q) (omega arith)

index_lem : (b : ℕ) → nonzero_bit_index b ≡ bit_scan 32 b
unfolding nonzero_bit_index
index_lem b = refl

pow_add : (c j x : ℕ) → 2 ^ c * (2 ^ j * x) ≡ 2 ^ (c + j) * x
pow_add zero j x = let a : 0 + j ≡ j = omega arith in rw a (omega arith)
pow_add (suc c) j x =
    let a : suc c + j ≡ suc (c + j) = omega arith in
    rw a (omega (arith, pow_double c (2 ^ j * x), pow_add c j x, pow_double (c + j) x))

-- One round of `drain`, on a word whose `c` lowest bits are clear and whose others are `q`.
pub one_round :
    (c w q : ℕ)
    → c + w ≡ 32
    → q < 2 ^ w
    → 0 < q
    → (c' w' m : ℕ) × (c < c')
      × (c' + w' ≡ 32)
      × (m < 2 ^ w')
      × (nonzero_bit_index (2 ^ c * q) < 32)
      × (bit_xor (2 ^ c * q) (2 ^ nonzero_bit_index (2 ^ c * q)) ≡ 2 ^ c' * m)
one_round c w q sum small pos =
    let (m, w', fits, below, e) = bit_scan-Odd w q small pos in
    let j = bit_scan w q in
    let i = c + j in
    let at : nonzero_bit_index (2 ^ c * q) ≡ i =
      index_lem (2 ^ c * q)
      ∙ (ap (λ n. bit_scan n (2 ^ c * q)) (sym sum) ∙ bit_scan-shifted c w q) in
    let shape : 2 ^ c * q ≡ 2 ^ i * (2 * m + 1) = ap (λ x. 2 ^ c * x) e ∙ pow_add c j (2 * m + 1) in
    (
      suc i,
      w',
      m,
      omega arith,
      omega arith,
      below,
      omega (arith, at),
      ap (λ x. bit_xor (2 ^ c * q) (2 ^ x)) at
          ∙ (ap (λ x. bit_xor x (2 ^ i)) shape
              ∙ (bit_xor_lowest i m ∙ omega (arith, pow_double i m, mul_left_comm (2 ^ i) 2 m))),
    )
