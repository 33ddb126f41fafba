-- ===== src/Frames/WordBits.antt =====
-- Single bits of `bit_xor` and `bit_and`, for the words of the bitmaps.
use Prim.Native.Nat.{differ, min}
use native.Mathlib.Nat.{pow-suc}
use eurali_os.Prelude.{
  ℕ, zero, suc, ◌+◌, ◌*◌, ◌/◌, ◌%◌, ◌^◌, ◌≤◌, ◌<◌, ◌≡◌, ◌≢◌, refl, ap, ◌∙◌, ◌⊎◌, inl, inr, arith,
  bit_xor, bit_and,
}
use eurali_os.Prelude.Digits.{bit_xor_halves, bit_and_halves, bit_and-above, bit_and-zero}
use eurali_os.Frames.{flip_bits}
use eurali_os.Frames.Bits.{bit}

-- A digit is 0 or 1.
pub bit-two : (b j : ℕ) → (bit b j ≡ 0) ⊎ (bit b j ≡ 1)
unfolding bit
bit-two b zero = if_two (b % 2) (omega arith)
  where
    if_two : (x : ℕ) → x < 2 → (x ≡ 0) ⊎ (x ≡ 1)
    if_two zero h = inl refl
    if_two (suc zero) h = inr refl
    if_two (suc (suc x)) h = absurd (omega arith)
bit-two b (suc j) = bit-two (b / 2) j

pub bit-zero : (j : ℕ) → bit 0 j ≡ 0
unfolding bit
bit-zero zero = refl
bit-zero (suc j) = bit-zero j

pub bit-pos : (b j : ℕ) → bit b j ≡ 1 → 0 < b
unfolding bit
bit-pos zero j h = absurd (omega (arith, bit-zero j))
bit-pos (suc b) j h = omega arith

differ-small : (x y : ℕ) → x < 2 → y < 2 → differ x y < 2
differ-small zero zero p q = omega arith
differ-small zero (suc y) p q = omega arith
differ-small (suc x) zero p q = omega arith
differ-small (suc zero) (suc zero) p q = omega arith
differ-small (suc zero) (suc (suc y)) p q = absurd (omega arith)
differ-small (suc (suc x)) (suc y) p q = absurd (omega arith)

digit_xor : (a b : ℕ) → differ (a % 2) (b % 2) < 2
digit_xor a b = differ-small (a % 2) (b % 2) (omega arith) (omega arith)

pub bit-bit_xor : (a b j : ℕ) → bit (bit_xor a b) j ≡ differ (bit a j) (bit b j)
unfolding bit
bit-bit_xor a b zero = omega (arith, bit_xor_halves a b, digit_xor a b)
bit-bit_xor a b (suc j) =
    let half : bit_xor a b / 2 ≡ bit_xor (a / 2) (b / 2) =
      omega (arith, bit_xor_halves a b, digit_xor a b) in
    rw half (bit-bit_xor (a / 2) (b / 2) j)

digit_and : (x y : ℕ) → x < 2 → min x y < 2
digit_and x y h = omega arith

pub bit-bit_and : (a b j : ℕ) → bit (bit_and a b) j ≡ min (bit a j) (bit b j)
unfolding bit
bit-bit_and a b zero = omega (arith, bit_and_halves a b)
bit-bit_and a b (suc j) =
    let half : bit_and a b / 2 ≡ bit_and (a / 2) (b / 2) = omega (arith, bit_and_halves a b) in
    rw half (bit-bit_and (a / 2) (b / 2) j)

pub bit-pow : (i : ℕ) → bit (2 ^ i) i ≡ 1
unfolding bit
bit-pow zero = refl
bit-pow (suc i) =
    let half : 2 ^ suc i / 2 ≡ 2 ^ i = omega (arith, pow-suc 2 i) in rw half (bit-pow i)

pub bit-pow_other : (i j : ℕ) → i ≢ j → bit (2 ^ i) j ≡ 0
unfolding bit
bit-pow_other zero zero h = absurd (h refl)
bit-pow_other zero (suc j) h = bit-zero j
bit-pow_other (suc i) zero h = omega (arith, pow-suc 2 i)
bit-pow_other (suc i) (suc j) h =
    let half : 2 ^ suc i / 2 ≡ 2 ^ i = omega (arith, pow-suc 2 i) in
    rw half (bit-pow_other i j (λ e. h (ap suc e)))

differ-zero : (x : ℕ) → differ x 0 ≡ x
differ-zero zero = refl
differ-zero (suc x) = refl

-- `bitmap ^= 1 << index` for a bit that is set.
pub bit_xor-at : (b i : ℕ) → bit b i ≡ 1 → bit (bit_xor b (2 ^ i)) i ≡ 0
bit_xor-at b i h = bit-bit_xor b (2 ^ i) i ∙ rw (h, bit-pow i) refl

pub bit_xor-other : (b i j : ℕ) → i ≢ j → bit (bit_xor b (2 ^ i)) j ≡ bit b j
bit_xor-other b i j h = bit-bit_xor b (2 ^ i) j ∙ rw (bit-pow_other i j h) (differ-zero (bit b j))

pub bit_xor-small : (w a b : ℕ) → a < 2 ^ w → b < 2 ^ w → bit_xor a b < 2 ^ w
bit_xor-small zero a b p q =
    let e : a ≡ 0 = omega arith in let f : b ≡ 0 = omega arith in rw (e, f) (omega arith)
bit_xor-small (suc w) a b p q = omega (
  arith,
  bit_xor_halves a b,
  digit_xor a b,
  pow-suc 2 w,
  bit_xor-small w (a / 2) (b / 2) (omega (arith, pow-suc 2 w)) (omega (arith, pow-suc 2 w)),
)

pub pow-small : (w i : ℕ) → i < w → 2 ^ i < 2 ^ w
pow-small zero i h = absurd (omega arith)
pow-small (suc w) zero h = omega (arith, pow-suc 2 w, pow-pos w)
  where
    pow-pos : (n : ℕ) → 0 < 2 ^ n
    pow-pos zero = omega arith
    pow-pos (suc n) = omega (arith, pow-suc 2 n, pow-pos n)
pow-small (suc w) (suc i) h = omega (arith, pow-suc 2 w, pow-suc 2 i, pow-small w i (omega arith))

-- `bitmap &= mask` sets no bit and makes no word larger.
pub bit_and-subset : (a m j : ℕ) → bit (bit_and a m) j ≡ 1 → bit a j ≡ 1
bit_and-subset a m j h = elim (bit-two a j) [
  | inl low ↦ absurd (omega (arith, bit-bit_and a m j))
  | inr high ↦ high
]

pub bit_and-le : (n a m : ℕ) → a ≤ n → bit_and a m ≤ a
bit_and-le zero a m h = let e : a ≡ 0 = omega arith in rw e (omega (arith, bit_and-zero m))
bit_and-le (suc n) zero m h = omega (arith, bit_and-zero m)
bit_and-le (suc n) (suc a) m h =
    omega (arith, bit_and_halves (suc a) m, bit_and-le n (suc a / 2) (m / 2) (omega arith))

-- All bits below `w`.
pub bit-ones : (w m j : ℕ) → m + 1 ≡ 2 ^ w → j < w → bit m j ≡ 1
unfolding bit
bit-ones zero m j e h = absurd (omega arith)
bit-ones (suc w) m zero e h = omega (arith, pow-suc 2 w)
bit-ones (suc w) m (suc j) e h = bit-ones w (m / 2) j (omega (arith, pow-suc 2 w)) (omega arith)

-- `bitmap &= !(1 << index)` clears one bit.
pub cleared-at : (b i : ℕ) → i < 32 → bit (bit_and b (flip_bits (2 ^ i))) i ≡ 0
cleared-at b i h =
    let off : bit (flip_bits (2 ^ i)) i ≡ 0 =
      bit_xor-at 0xFFFF_FFFF i (bit-ones 32 0xFFFF_FFFF i (omega arith) h) in
    bit-bit_and b (flip_bits (2 ^ i)) i ∙ rw off (omega arith)

pub cleared-other : (b i j : ℕ) → j < 32 → i ≢ j → bit (bit_and b (flip_bits (2 ^ i))) j ≡ bit b j
cleared-other b i j h other =
    let on : bit (flip_bits (2 ^ i)) j ≡ 1 =
      bit_xor-other 0xFFFF_FFFF i j other ∙ bit-ones 32 0xFFFF_FFFF j (omega arith) h in
    bit-bit_and b (flip_bits (2 ^ i)) j
    ∙ rw on (elim (bit-two b j) [ inl low ↦ rw low refl | inr high ↦ rw high refl ])

-- A mask of ones is a remainder.
ones-below : (w a m : ℕ) → m + 1 ≡ 2 ^ w → a < 2 ^ w → bit_and a m ≡ a
ones-below zero a m e h = let z : a ≡ 0 = omega arith in rw z (bit_and-zero m)
ones-below (suc w) a m e h = omega (
  arith,
  pow-suc 2 w,
  bit_and_halves a m,
  ones-below w (a / 2) (m / 2) (omega (arith, pow-suc 2 w)) (omega (arith, pow-suc 2 w)),
)

pub bit_and-low_five : (a : ℕ) → bit_and a 31 ≡ a % 32
bit_and-low_five a =
    let split : a ≡ a % 32 + a / 32 * 2 ^ 5 = omega arith in
    ap (λ x. bit_and x 31) split
    ∙ (bit_and-above 5 (a % 32) (a / 32) 31 (omega arith)
        ∙ ones-below 5 (a % 32) 31 refl (omega arith))

-- A bit that is set is one of the `w` bits of the number.
pub bit-below : (w b i : ℕ) → b < 2 ^ w → bit b i ≡ 1 → i < w
unfolding bit
bit-below zero b i small set =
    let e : b ≡ 0 = omega arith in absurd (omega (arith, bit-zero i, ap (λ x. bit x i) e))
bit-below (suc w) b zero small set = omega arith
bit-below (suc w) b (suc i) small set =
    omega (arith, bit-below w (b / 2) i (omega (arith, pow-suc 2 w)) set)
