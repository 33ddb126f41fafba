-- ===== src/Frames/InitWords.antt =====
-- What the loops of `init` write to the bitmaps.
use eurali_os.Prelude.{
  ℕ, zero, suc, ◌+◌, ◌-◌, ◌*◌, ◌/◌, ◌%◌, ◌^◌, ◌≤◌, ◌<◌, ◌≡◌, ◌≢◌, ◌⊎◌, refl, sym, ap, subst, ◌∙◌,
  inl, inr, arith, true, false, update, ltb, ◌==◌, if◌then◌else◌, ℕ_discrete, ==_iff, all_below,
  all_below_lem,
}
use eurali_os.Frames.Bits.{bit}
use eurali_os.Frames.WordBits.{pow-small, bit-ones, bit-below, bit_and-low_five}
use eurali_os.Frames.Init.{write_words, fill_level}

-- The rule of the code for the last word of a level.
all_partial : all_below 32 (λ e. 0xFFFF_FFFF / 2 ^ (32 - e) + 1 == 2 ^ e) ≡ true
unfolding all_below
all_partial = refl

partial_ones : (e : ℕ) → e < 32 → 0xFFFF_FFFF / 2 ^ (32 - e) + 1 ≡ 2 ^ e
partial_ones e h = (==_iff _ _).0 (all_below_lem 32 _ e all_partial h)

-- A word of a bitmap with `nbits` bits: the bits of its frames are set, and no other.
pub record IsFull (nbits chunk word : ℕ) : Type 0 where
  pub small : word < 2 ^ 32
  pub inside : (i : ℕ) → bit word i ≡ 1 → chunk * 32 + i < nbits
  pub set : (i : ℕ) → i < 32 → chunk * 32 + i < nbits → bit word i ≡ 1

whole-IsFull : (nbits chunk : ℕ) → chunk < nbits / 32 → IsFull nbits chunk 0xFFFF_FFFF
whole-IsFull nbits chunk h = record {
  small = omega arith;
  inside = λ i set. omega (arith, bit-below 32 0xFFFF_FFFF i (omega arith) set);
  set = λ i low inside. bit-ones 32 0xFFFF_FFFF i refl low;
}

partial-IsFull :
    (nbits : ℕ) → 0 < nbits % 32 → IsFull nbits (nbits / 32) (0xFFFF_FFFF / 2 ^ (32 - nbits % 32))
partial-IsFull nbits h =
    let e = nbits % 32 in
    let ones = partial_ones e (omega arith) in
    record {
      small = omega (arith, pow-small 32 e (omega arith));
      inside = λ i set. omega (arith, bit-below e (0xFFFF_FFFF / 2 ^ (32 - e)) i (omega arith) set);
      set = λ i low inside. bit-ones e (0xFFFF_FFFF / 2 ^ (32 - e)) i ones (omega arith);
    }

pub update-here : (words : ℕ → ℕ) (addr v x : ℕ) → addr ≡ x → update words addr v x ≡ v
update-here words addr v x e = ground arith

pub update-away : (words : ℕ → ℕ) (addr v x : ℕ) → addr ≢ x → update words addr v x ≡ words x
update-away words addr v x other = ground arith

pub update-small :
    (words : ℕ → ℕ) (addr v : ℕ)
    → v < 2 ^ 32
    → ((x : ℕ) → words x < 2 ^ 32)
    → (x : ℕ) → update words addr v x < 2 ^ 32
update-small words addr v h small x = elim (ℕ_discrete addr x) [
  | yes e ↦ omega (arith, update-here words addr v x e)
  | no e ↦ (let same : update words addr v x ≡ words x = ground arith in omega (arith, small x))
]

pub write_words-outside :
    (rounds addr v : ℕ) (words : ℕ → ℕ) (x : ℕ)
    → (x < addr) ⊎ (addr + 4 * rounds ≤ x)
    → write_words rounds addr v words x ≡ words x
unfolding write_words
write_words-outside zero addr v words x side = refl
write_words-outside (suc rounds) addr v words x (inl low) =
    write_words-outside rounds (addr + 4) v (update words addr v) x (inl (omega arith))
    ∙ ground arith
write_words-outside (suc rounds) addr v words x (inr high) =
    write_words-outside rounds (addr + 4) v (update words addr v) x (inr (omega arith))
    ∙ ground arith

-- The loop over whole words.
write_words-at :
    (rounds addr v : ℕ) (words : ℕ → ℕ) (c : ℕ)
    → c < rounds
    → write_words rounds addr v words (addr + 4 * c) ≡ v
unfolding write_words
write_words-at zero addr v words c h = absurd (omega arith)
write_words-at (suc rounds) addr v words zero h =
    write_words-outside rounds (addr + 4) v (update words addr v) (addr + 4 * 0) (inl (omega arith))
    ∙ update-here words addr v (addr + 4 * 0) (omega arith)
write_words-at (suc rounds) addr v words (suc c) h =
    let e : addr + 4 * suc c ≡ addr + 4 + 4 * c = omega arith in
    ap (write_words rounds (addr + 4) v (update words addr v)) e
    ∙ write_words-at rounds (addr + 4) v (update words addr v) c (omega arith)

pub write_words-small :
    (rounds addr v : ℕ) (words : ℕ → ℕ)
    → v < 2 ^ 32
    → ((x : ℕ) → words x < 2 ^ 32)
    → (x : ℕ) → write_words rounds addr v words x < 2 ^ 32
unfolding write_words
write_words-small zero addr v words h small x = small x
write_words-small (suc rounds) addr v words h small x =
    write_words-small rounds (addr + 4) v (update words addr v) h
      (update-small words addr v h small) x

-- One level.
module _ (ptr nbits : ℕ) (words : ℕ → ℕ) where
  abbrev whole_words : ℕ → ℕ
  whole_words = write_words (nbits / 32) ptr 0xFFFF_FFFF words

  abbrev last_word : ℕ
  last_word = 0xFFFF_FFFF / 2 ^ (32 - nbits % 32)

  extra_bits : fill_level ptr nbits words ≡ (
      if ltb 0 (nbits % 32)
      then update whole_words (ptr + 4 * (nbits / 32)) last_word
      else whole_words)
  unfolding fill_level
  extra_bits =
      ap
        (λ e.
          if ltb 0 e
          then update whole_words (ptr + 4 * (nbits / 32)) (0xFFFF_FFFF / 2 ^ (32 - e))
          else whole_words)
        (bit_and-low_five nbits)

  fill_level-partial :
      0 < nbits % 32
      → fill_level ptr nbits words ≡ update whole_words (ptr + 4 * (nbits / 32)) last_word
  fill_level-partial h =
      let test : ltb 0 (nbits % 32) ≡ true = ground arith in extra_bits ∙ rw test refl

  fill_level-whole : nbits % 32 ≡ 0 → fill_level ptr nbits words ≡ whole_words
  fill_level-whole h =
      let test : ltb 0 (nbits % 32) ≡ false = ground arith in extra_bits ∙ rw test refl

  pub fill_level-outside :
      (x : ℕ)
      → (x < ptr) ⊎ (ptr + 4 * ((nbits + 31) / 32) ≤ x)
      → fill_level ptr nbits words x ≡ words x
  fill_level-outside x side = elim (ℕ_discrete (nbits % 32) 0) [
    | yes none_left ↦
        ap (λ (w : ℕ → ℕ). w x) (fill_level-whole none_left)
        ∙ write_words-outside (nbits / 32) ptr 0xFFFF_FFFF words x (before side)
    | no extra ↦
        ap (λ (w : ℕ → ℕ). w x) (fill_level-partial (omega arith))
        ∙ (update-away whole_words (ptr + 4 * (nbits / 32)) last_word x (apart side (omega arith))
            ∙ write_words-outside (nbits / 32) ptr 0xFFFF_FFFF words x (before side))
  ]
    where
      before :
          (x < ptr) ⊎ (ptr + 4 * ((nbits + 31) / 32) ≤ x) → (x < ptr) ⊎ (ptr + 4 * (nbits / 32) ≤ x)
      before (inl low) = inl low
      before (inr high) = inr (omega arith)

      apart :
          (x < ptr) ⊎ (ptr + 4 * ((nbits + 31) / 32) ≤ x)
          → 0 < nbits % 32
          → ptr + 4 * (nbits / 32) ≢ x
      apart (inl low) h e = absurd (omega arith)
      apart (inr high) h e = absurd (omega arith)

  pub fill_level-IsFull :
      (c : ℕ) → c < (nbits + 31) / 32 → IsFull nbits c (fill_level ptr nbits words (ptr + 4 * c))
  fill_level-IsFull c h = elim (ℕ_discrete c (nbits / 32)) [
    | yes last ↦
        (let extra : 0 < nbits % 32 = omega arith in
          subst (λ w. IsFull nbits c (w (ptr + 4 * c))) (sym (fill_level-partial extra))
            (subst (IsFull nbits c)
              (sym (
                update-here whole_words (ptr + 4 * (nbits / 32)) last_word (ptr + 4 * c)
                  (omega arith)))
              (subst (λ d. IsFull nbits d last_word) (sym last) (partial-IsFull nbits extra))))
    | no inner ↦
        subst (IsFull nbits c) (sym (at_whole (omega arith))) (whole-IsFull nbits c (omega arith))
  ]
    where
      at_whole : c < nbits / 32 → fill_level ptr nbits words (ptr + 4 * c) ≡ 0xFFFF_FFFF
      at_whole low = elim (ℕ_discrete (nbits % 32) 0) [
        | yes none_left ↦
            ap (λ (w : ℕ → ℕ). w (ptr + 4 * c)) (fill_level-whole none_left)
            ∙ write_words-at (nbits / 32) ptr 0xFFFF_FFFF words c low
        | no extra ↦
            ap (λ (w : ℕ → ℕ). w (ptr + 4 * c)) (fill_level-partial (omega arith))
            ∙ (update-away whole_words (ptr + 4 * (nbits / 32)) last_word (ptr + 4 * c)
                  (λ e. absurd (omega arith))
                ∙ write_words-at (nbits / 32) ptr 0xFFFF_FFFF words c low)
      ]

  pub fill_level-small :
      ((x : ℕ) → words x < 2 ^ 32) → (x : ℕ) → fill_level ptr nbits words x < 2 ^ 32
  fill_level-small small x =
      let whole = write_words-small (nbits / 32) ptr 0xFFFF_FFFF words (omega arith) small in
      elim (ℕ_discrete (nbits % 32) 0) [
        | yes none_left ↦ subst (λ w. w x < 2 ^ 32) (sym (fill_level-whole none_left)) (whole x)
        | no extra ↦
            (let full = partial-IsFull nbits (omega arith) in
              subst (λ w. w x < 2 ^ 32) (sym (fill_level-partial (omega arith)))
                (update-small whole_words (ptr + 4 * (nbits / 32)) last_word full.small whole x))
      ]
