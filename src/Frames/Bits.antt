-- ===== src/Frames/Bits.antt =====
-- The bits of a number, and those of `bit_and`, `bit_or` and `bit_xor`.
use native.Mathlib.Nat.{pow-suc}
use eurali_os.Prelude.{
  ℕ, zero, suc, ◌/◌, ◌%◌, ◌^◌, ◌<◌, ◌≡◌, inl, inr, arith, false, Bool-cases, ◌==◌,
}
use eurali_os.Frames.{bit_scan, nonzero_bit_index}

-- Bit `i` of a number, 0 or 1.
unfoldable pub bit : ℕ → ℕ → ℕ
bit x zero = x % 2
bit x (suc i) = bit (x / 2) i

bit_scan_lem :
    (n b : ℕ)
    → b < 2 ^ n
    → 0 < b
    → (bit_scan n b < n) × (bit b (bit_scan n b) ≡ 1) × ((j : ℕ) → j < bit_scan n b → bit b j ≡ 0)
unfolding bit_scan bit
bit_scan_lem zero b small pos = absurd (omega arith)
bit_scan_lem (suc n) b small pos = elim (Bool-cases (b % 2 == 1)) [
  | inl odd ↦ rw odd (omega arith, ground arith, λ j h. absurd (omega arith))
  | inr even ↦
      (let (low, one, zeros) =
          bit_scan_lem n (b / 2) (ground (arith, pow-suc 2 n)) (ground arith) in
        rw even (omega arith, one, below even zeros))
]
  where
    below :
        (b % 2 == 1) ≡ false
        → ((j : ℕ) → j < bit_scan n (b / 2) → bit (b / 2) j ≡ 0)
        → (j : ℕ) → j < suc (bit_scan n (b / 2))
        → bit b j ≡ 0
    below even zeros zero h = ground arith
    below even zeros (suc j) h = zeros j (omega arith)

-- `nonzero_bit_index` finds the lowest bit that is set in a 32-bit word other than 0: the bit at the
-- index it returns, which is below 32, is 1, and all bits below are 0.
pub nonzero_bit_index_lem :
    (b : ℕ)
    → b < 2 ^ 32
    → 0 < b
    → (nonzero_bit_index b < 32)
      × (bit b (nonzero_bit_index b) ≡ 1)
      × ((j : ℕ) → j < nonzero_bit_index b → bit b j ≡ 0)
unfolding nonzero_bit_index
nonzero_bit_index_lem b small pos = bit_scan_lem 32 b small pos
