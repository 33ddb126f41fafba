-- ===== src/Frames/Boot.antt =====
-- The state that `init` leaves is a proper one.
use eurali_os.Prelude.{
  ℕ, zero, suc, ◌+◌, ◌*◌, ◌/◌, ◌%◌, ◌^◌, ◌≤◌, ◌<◌, ◌≡◌, refl, sym, ap, subst, ◌∙◌, inl, arith, true,
  false, update, ltb, if◌then◌else◌, ℕ_discrete, Option, some,
}
use eurali_os.Frames.WordBits.{bit_and-low_five}
use eurali_os.Frames.Layout.{limit}
use eurali_os.Frames.Init.{chunk_count, fill_levels, fill_level}
use eurali_os.Frames.InitWords.{
  IsFull, update-here, update-away, fill_level-outside, fill_level-IsFull, fill_level-small,
}

chunk_count_lem : (nbits : ℕ) → chunk_count nbits ≡ (nbits + 31) / 32
unfolding chunk_count
chunk_count_lem nbits =
    ap (λ e. nbits / 32 + (if ltb 0 e then 1 else 0)) (bit_and-low_five nbits)
    ∙ elim (ℕ_discrete (nbits % 32) 0) [
      | yes whole ↦ (let test : ltb 0 (nbits % 32) ≡ false = ground arith in rw test (omega arith))
      | no extra ↦ (let test : ltb 0 (nbits % 32) ≡ true = ground arith in rw test (omega arith))
    ]

limit-chunk_count : (nbits k : ℕ) → limit (chunk_count nbits) k ≡ limit nbits (suc k)
unfolding limit
limit-chunk_count nbits zero = chunk_count_lem nbits
limit-chunk_count nbits (suc k) = ap (λ x. (x + 31) / 32) (limit-chunk_count nbits k)

-- What `fill_levels` returns for `rounds` levels from `level` on.
pub record Filled (rounds level offset start nbits : ℕ) (addrs words : ℕ → ℕ)
    (result : (ℕ → ℕ) × (ℕ → ℕ) × ℕ) : Type 0 where
  pub lower_addrs : (m : ℕ) → m < level → result.0 m ≡ addrs m
  pub lower_words : (x : ℕ) → x < offset + start → result.1 x ≡ words x
  pub first : 0 < rounds → result.0 level ≡ offset + start
  pub spaced :
      (k : ℕ)
      → suc k < rounds
      → result.0 (level + suc k) ≡ result.0 (level + k) + 4 * limit nbits (suc k)
  pub full :
      (k c : ℕ)
      → k < rounds
      → c < limit nbits (suc k)
      → IsFull (limit nbits k) c (result.1 (result.0 (level + k) + 4 * c))
  pub within :
      (k c : ℕ)
      → k < rounds
      → c < limit nbits (suc k)
      → (offset + start ≤ result.0 (level + k) + 4 * c)
        × (result.0 (level + k) + 4 * c + 4 ≤ offset + result.2)
  pub small : (x : ℕ) → result.1 x < 2 ^ 32
  pub grows : start ≤ result.2
  pub bounded : result.2 ≤ start + 4 * (nbits / 24 + rounds)

module _ (rounds level offset start nbits : ℕ) (addrs words : ℕ → ℕ)
    (result : (ℕ → ℕ) × (ℕ → ℕ) × ℕ)
    (rest : Filled rounds
      (level + 1)
      offset
      (start + chunk_count nbits * 4)
      (chunk_count nbits)
      (update addrs level (offset + start))
      (fill_level (offset + start) nbits words)
      result) where
  here : result.0 level ≡ offset + start
  here = rest.lower_addrs level (omega arith) ∙ update-here addrs level (offset + start) level refl

  next_spaced :
      (k : ℕ)
      → suc k < suc rounds
      → result.0 (level + suc k) ≡ result.0 (level + k) + 4 * limit nbits (suc k)
  unfolding limit
  next_spaced zero h =
      let e : level + 1 ≡ level + suc zero = omega arith in
      let f : level + zero ≡ level = omega arith in
      let g = rest.first (omega arith) in
      let at = ap result.0 e in
      let from = ap result.0 f in omega (arith, here, chunk_count_lem nbits)
  next_spaced (suc k) h =
      let e : level + suc (suc k) ≡ level + 1 + suc k = omega arith in
      let f : level + suc k ≡ level + 1 + k = omega arith in
      let at = ap result.0 e in
      let from = ap result.0 f in
      omega (arith, rest.spaced k (omega arith), limit-chunk_count nbits (suc k))

  next-IsFull :
      (k c : ℕ)
      → k < suc rounds
      → c < limit nbits (suc k)
      → IsFull (limit nbits k) c (result.1 (result.0 (level + k) + 4 * c))
  unfolding limit
  next-IsFull zero c h low =
      let f : level + zero ≡ level = omega arith in
      let at : result.0 (level + zero) ≡ offset + start = ap result.0 f ∙ here in
      let word : result.1 (result.0 (level + zero) + 4 * c)
          ≡ fill_level (offset + start) nbits words (offset + start + 4 * c) =
        ap (λ p. result.1 (p + 4 * c)) at
        ∙ rest.lower_words (offset + start + 4 * c) (omega (arith, chunk_count_lem nbits)) in
      subst (IsFull nbits c) (sym word) (fill_level-IsFull (offset + start) nbits words c low)
  next-IsFull (suc k) c h low =
      let f : level + 1 + k ≡ level + suc k = omega arith in
      subst (λ p. IsFull (limit nbits (suc k)) c (result.1 (result.0 p + 4 * c))) f
        (subst (λ n. IsFull n c (result.1 (result.0 (level + 1 + k) + 4 * c)))
          (limit-chunk_count nbits k)
          (rest.full k c (omega arith) (omega (arith, limit-chunk_count nbits (suc k)))))

  next_within :
      (k c : ℕ)
      → k < suc rounds
      → c < limit nbits (suc k)
      → (offset + start ≤ result.0 (level + k) + 4 * c)
        × (result.0 (level + k) + 4 * c + 4 ≤ offset + result.2)
  unfolding limit
  next_within zero c h low =
      let f : level + zero ≡ level = omega arith in
      let at : result.0 (level + zero) ≡ offset + start = ap result.0 f ∙ here in
      let g = rest.grows in (omega arith, omega (arith, chunk_count_lem nbits))
  next_within (suc k) c h low =
      let f : level + suc k ≡ level + 1 + k = omega arith in
      let at = ap result.0 f in
      let (over, under) =
        rest.within k c (omega arith) (omega (arith, limit-chunk_count nbits (suc k))) in
      (omega arith, omega arith)

  next_level : Filled (suc rounds) level offset start nbits addrs words result
  next_level = record {
    lower_addrs = λ m h.
        rest.lower_addrs m (omega arith)
        ∙ update-away addrs level (offset + start) m (λ e. absurd (omega arith));
    lower_words = λ x h.
        rest.lower_words x (omega arith)
        ∙ fill_level-outside (offset + start) nbits words x (inl h);
    first = λ h. here;
    spaced = next_spaced;
    full = next-IsFull;
    within = next_within;
    small = rest.small;
    grows = (let g = rest.grows in omega arith);
    bounded = (let b = rest.bounded in omega (arith, chunk_count_lem nbits));
  }

-- What `fill_levels` computes where no address panics and no sum wraps.
unfoldable pub filled_from : ℕ → ℕ → ℕ → ℕ → ℕ → (ℕ → ℕ) → (ℕ → ℕ) → (ℕ → ℕ) × (ℕ → ℕ) × ℕ
filled_from zero level offset start nbits addrs words = (addrs, words, start)
filled_from (suc rounds) level offset start nbits addrs words =
    filled_from rounds (level + 1) offset (start + chunk_count nbits * 4) (chunk_count nbits)
      (update addrs level (offset + start)) (fill_level (offset + start) nbits words)

pub fill_levels-filled_from :
    (virt_addr_add : ℕ → ℕ → Option ℕ) (rounds level offset start nbits last : ℕ)
    (addrs words : ℕ → ℕ)
    → start + 4 * (nbits / 24 + rounds) ≤ last
    → last < 2 ^ 64
    → ((x : ℕ) → x ≤ last → virt_addr_add offset x ≡ some (offset + x))
    → fill_levels virt_addr_add rounds level offset start nbits addrs words
      ≡ some (filled_from rounds level offset start nbits addrs words)
unfolding fill_levels filled_from
fill_levels-filled_from virt_addr_add zero level offset start nbits last addrs words h small add =
    refl
fill_levels-filled_from virt_addr_add (suc rounds) level offset start nbits last addrs words h small
      add =
    let here = add start (omega arith) in
    let sum : (start + chunk_count nbits * 4) % 2 ^ 64 ≡ start + chunk_count nbits * 4 =
      omega (arith, chunk_count_lem nbits) in
    let chunks = chunk_count nbits in
    let addrs' = update addrs level (offset + start) in
    let words' = fill_level (offset + start) nbits words in
    let result = filled_from rounds (level + 1) offset (start + chunks * 4) chunks addrs' words' in
    rw (fill_levels, here)
      (subst
        (λ x.
          fill_levels virt_addr_add rounds (level + 1) offset x chunks addrs' words' ≡ some result)
        (sym sum)
        (fill_levels-filled_from virt_addr_add rounds (level + 1) offset (start + chunks * 4) chunks
          last addrs' words' (omega (arith, chunk_count_lem nbits)) small add))

pub filled_from-Filled :
    (rounds level offset start nbits : ℕ) (addrs words : ℕ → ℕ)
    → ((x : ℕ) → words x < 2 ^ 32)
    → Filled rounds level offset start nbits addrs words
        (filled_from rounds level offset start nbits addrs words)
unfolding filled_from
filled_from-Filled zero level offset start nbits addrs words small = record {
  lower_addrs = λ m h. refl;
  lower_words = λ x h. refl;
  first = λ h. absurd (omega arith);
  spaced = λ k h. absurd (omega arith);
  full = λ k c h low. absurd (omega arith);
  within = λ k c h low. absurd (omega arith);
  small = small;
  grows = omega arith;
  bounded = omega arith;
}
filled_from-Filled (suc rounds) level offset start nbits addrs words small =
    next_level rounds level offset start nbits addrs words
      (filled_from (suc rounds) level offset start nbits addrs words)
      (filled_from-Filled rounds (level + 1) offset (start + chunk_count nbits * 4)
        (chunk_count nbits) (update addrs level (offset + start))
        (fill_level (offset + start) nbits words)
        (fill_level-small (offset + start) nbits words small))
