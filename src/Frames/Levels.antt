-- ===== src/Frames/Levels.antt =====
-- `num_levels_needed`: how many levels of bitmaps.
use eurali_os.Prelude.{
  ℕ, zero, suc, ◌+◌, ◌-◌, ◌*◌, ◌%◌, ◌^◌, ◌≤◌, ◌<◌, ◌≡◌, refl, ◌⊎◌, inl, inr, arith, true, false,
  Bool-cases, none, some, ltb, ltb→lt, subst,
}
use native.Mathlib.Nat.{pow-suc, add-zero}
use native.Mathlib.Numerals.{add-one}
use eurali_os.Frames.{count_levels, num_levels_needed}

-- What `levels` levels promise: they are enough for `num` frames, and one less would not be.
pub record Suffices (num levels : ℕ) : Type 0 where
  pub fits : num ≤ 32 ^ levels
  pub least : (levels ≡ 1) ⊎ (32 ^ (levels - 1) < num)

pub pow_mono : (n k : ℕ) → 32 ^ n ≤ 32 ^ (n + k)
pow_mono n zero = rw add-zero (omega arith)
pow_mono n (suc k) =
    let e : n + suc k ≡ suc (n + k) = omega arith in
    rw e (omega (arith, pow-suc 32 (n + k), pow_mono n k))

-- As long as another round may come, the product does not wrap.
next_power : (n fuel max : ℕ) → max ≡ 32 ^ n → n + suc fuel ≡ 12 → max * 32 % 2 ^ 64 ≡ 32 ^ (n + 1)
next_power n fuel max e rounds =
    let f : n + 1 + fuel ≡ 12 = omega arith in
    let next : 32 ^ (n + 1) ≡ 32 ^ n * 32 = rw (add-one, pow-suc) refl in
    let small : 32 ^ (n + 1) ≤ 32 ^ 12 =
      subst (λ x. 32 ^ (n + 1) ≤ 32 ^ x) f (pow_mono (n + 1) fuel) in
    omega arith

count_levels_lem :
    (fuel num n max : ℕ)
    → max ≡ 32 ^ n
    → n + fuel ≡ 12
    → num ≤ 2 ^ 60
    → (n ≡ 1) ⊎ (32 ^ (n - 1) < num)
    → (l : ℕ) × (count_levels (suc fuel) num max n ≡ some l) × Suffices num l
unfolding count_levels
count_levels_lem zero num n max e rounds small least =
    let last : n ≡ 12 = omega arith in
    let fits : num ≤ 32 ^ n = rw last small in
    (n, ground arith, record { fits = fits; least = least })
count_levels_lem (suc fuel) num n max e rounds small least = elim (Bool-cases (ltb max num)) [
  | inl more ↦
      (let e' = next_power n fuel max e rounds in
        let least' : 32 ^ (n + 1 - 1) < num =
          subst (λ x. 32 ^ x < num) (omega arith) (rw e at (ltb→lt max num more)) in
        let (l, found, suffices) =
          count_levels_lem fuel num (n + 1) (max * 32 % 2 ^ 64) e' (omega arith) small
            (inr least') in
        (l, rw more found, suffices))
  | inr done ↦ (n, rw done refl, record { fits = rw e at (ltb-false max num done); least = least })
]
  where
    ltb-false : (a b : ℕ) → ltb a b ≡ false → b ≤ a
    ltb-false a b h = ground arith

-- For at most `2 ^ 60` frames `num_levels_needed` ends and returns the least number of levels, at
-- least one, whose bitmaps have room: `levels` levels hold `32 ^ levels` frames.
pub num_levels_needed-Suffices :
    (num_frames : ℕ)
    → num_frames ≤ 2 ^ 60
    → (levels : ℕ) × (num_levels_needed num_frames ≡ some levels) × Suffices num_frames levels
unfolding num_levels_needed
num_levels_needed-Suffices num_frames h = count_levels_lem 11 num_frames 1 32 refl refl h (inl refl)

-- For more than `2 ^ 60` frames the loop does not end, whatever the fuel is.
never_ends : (fuel num n : ℕ) → 0 < num → count_levels fuel num 0 n ≡ none
unfolding count_levels
never_ends zero num n h = refl
never_ends (suc fuel) num n h =
    let test : ltb 0 num ≡ true = ground arith in rw test (never_ends fuel num (n + 1) h)
