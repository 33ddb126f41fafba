-- ===== src/Frames/Reserved.antt =====
-- What `init` writes to mark the frames of the bitmaps as taken.
use eurali_os.Frames.Bits.{bit}
use eurali_os.Prelude.{
  ℕ, suc, ◌+◌, ◌*◌, ◌/◌, ◌^◌, ◌<◌, ◌≡◌, ◌≢◌, refl, sym, subst, ◌∙◌, arith, true, false, update, ltb,
  bit_and, ◌==◌, ℕ_discrete, all_below, all_below_lem, ◌&&◌, Bool, leb, leb→le, ==_iff,
  if◌then◌else◌, ◌≤◌, ◌↔◌, Bool-cases, inl, inr,
}
use eurali_os.Frames.WordBits.{bit_and-low_five}
use eurali_os.Frames.Init.{write_words, clear_low, reserve}
use eurali_os.Frames.InitWords.{update-here, update-away, update-small}

abbrev reserved : ℕ → ℕ
reserved r = bit_and (0xFFFF_FFFF * 2 ^ r) 0xFFFF_FFFF

all_reserved : all_below 32 (λ r. ltb 0 (reserved r) && ltb (reserved r) 0x1_0000_0000) ≡ true
unfolding all_below
all_reserved = refl

reserved_lem : (r : ℕ) → r < 32 → (0 < reserved r) × (reserved r < 2 ^ 32)
reserved_lem r h =
    let e =
      all_below_lem 32 (λ x. ltb 0 (reserved x) && ltb (reserved x) 0x1_0000_0000) r all_reserved
        h in
    (ground arith, ground arith)

-- The bits of a reserved word: those from `r` on.
abbrev bit_from : ℕ → ℕ → Bool
bit_from r i = bit (reserved r) i == (if leb r i then 1 else 0)

all_bits_from : all_below 32 (λ r. all_below 32 (bit_from r)) ≡ true
unfolding all_below bit
all_bits_from = refl

reserved_bits : (r i : ℕ) → r < 32 → i < 32 → (bit (reserved r) i ≡ 1) ↔ (r ≤ i)
reserved_bits r i h low =
    let row = all_below_lem 32 (λ x. all_below 32 (bit_from x)) r all_bits_from h in
    let e : bit (reserved r) i ≡ (if leb r i then 1 else 0) =
      (==_iff _ _).0 (all_below_lem 32 (bit_from r) i row low) in
    elim (Bool-cases (leb r i)) [
      | inl from ↦
          (let f : bit (reserved r) i ≡ 1 = e ∙ rw from refl in
            ((λ set. leb→le r i from), (λ le. f)))
      | inr under ↦
          (let f : bit (reserved r) i ≡ 0 = e ∙ rw under refl in
            ((λ set. absurd (omega (arith, f, set))), (λ le. absurd (ground arith))))
    ]

-- Only the lowest word changes when less than 32 frames are reserved.
pub record Reserved (ptr r : ℕ) (words w : ℕ → ℕ) : Type 0 where
  pub others : (x : ℕ) → ptr ≢ x → w x ≡ words x
  pub small : ((x : ℕ) → words x < 2 ^ 32) → (x : ℕ) → w x < 2 ^ 32
  pub pos : 0 < words ptr → 0 < w ptr
  pub bits : (i : ℕ) → 0 < r → i < 32 → (bit (w ptr) i ≡ 1) ↔ (r ≤ i)

clear_low-Reserved :
    (ptr r : ℕ) (words : ℕ → ℕ) → r < 32 → Reserved ptr r words (clear_low ptr r words)
unfolding clear_low write_words
clear_low-Reserved ptr r words h =
    let full : r / 32 ≡ 0 = omega arith in
    let extra : bit_and r 31 ≡ r = bit_and-low_five r ∙ omega arith in
    let base : ptr + 4 * 0 ≡ ptr = omega arith in
    elim (ℕ_discrete r 0) [
      | yes none_left ↦
          (let test : ltb 0 r ≡ false = ground arith in
            let same : clear_low ptr r words ≡ words = rw (clear_low, full, extra, test) refl in
            subst (Reserved ptr r words) (sym same) (record {
              others = λ x other. refl;
              small = λ s. s;
              pos = λ p. p;
              bits = λ i pos h. absurd (omega arith);
            }))
      | no some_bits ↦
          (let test : ltb 0 r ≡ true = ground arith in
            let (positive, below) = reserved_lem r h in
            let same : clear_low ptr r words ≡ update words ptr (reserved r) =
              rw (clear_low, full, extra, test, base) refl in
            subst (Reserved ptr r words) (sym same) (record {
              others = λ x other. update-away words ptr (reserved r) x other;
              small = λ s. update-small words ptr (reserved r) below s;
              pos = λ p. omega (arith, update-here words ptr (reserved r) ptr refl);
              bits = λ i pos low.
                  subst (λ v. (bit v i ≡ 1) ↔ (r ≤ i))
                    (sym (update-here words ptr (reserved r) ptr refl)) (reserved_bits r i h low);
            }))
    ]

pub reserve-Reserved :
    (rounds r : ℕ) (addrs words : ℕ → ℕ)
    → r < 32
    → Reserved (addrs 0) r words (reserve (suc rounds) 0 addrs r words)
unfolding reserve
reserve-Reserved rounds r addrs words h =
    let test : (r / 32 == 0) ≡ true = ground arith in
    let same : reserve (suc rounds) 0 addrs r words ≡ clear_low (addrs 0) r words =
      rw (reserve, test) refl in
    subst (Reserved (addrs 0) r words) (sym same) (clear_low-Reserved (addrs 0) r words h)
