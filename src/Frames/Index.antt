-- ===== src/Frames/Index.antt =====
-- The upper bitmaps as an index of the lower ones, and how `clear_upwards` keeps it.
use eurali_os.Prelude.{
  ℕ, zero, suc, ◌+◌, ◌-◌, ◌/◌, ◌%◌, ◌^◌, ◌<◌, ◌≡◌, ◌≢◌, ◌↔◌, refl, sym, ap, subst, ◌∙◌, inl, inr,
  arith, Bool-cases, bit_and, update, ◌==◌, ℕ_discrete, dec_lt,
}
use eurali_os.Frames.Bits.{bit}
use eurali_os.Frames.WordBits.{cleared-at, cleared-other, bit_and-low_five, bit_and-le}
use eurali_os.Frames.Layout.{limit, IsLaidOut, level_above, rewritten}
use eurali_os.Frames.{Allocator, word_addr, flip_bits, clear_upwards}

-- The bit of a word one level up is set exactly when the word is not 0.
abbrev pub Agree : Allocator → ℕ → ℕ → Type 0
Agree a level chunk =
    (bit (a.words (word_addr a (suc level) (chunk / 32))) (chunk % 32) ≡ 1)
    ↔ (0 < a.words (word_addr a level chunk))

abbrev pub IsIndexed : Allocator → Type 0
IsIndexed a =
    (level chunk : ℕ)
    → suc level < a.nlevels
    → chunk < limit a.nframes (suc level)
    → Agree a level chunk

-- The same with one word left out.
abbrev pub IsIndexedBut : Allocator → ℕ → ℕ → Type 0
IsIndexedBut a k e =
    (level chunk : ℕ)
    → suc level < a.nlevels
    → chunk < limit a.nframes (suc level)
    → ¬ ((level ≡ k) × (chunk ≡ e))
    → Agree a level chunk

pub limit-up :
    (nframes level chunk : ℕ) → chunk < limit nframes level → chunk / 32 < limit nframes (suc level)
unfolding limit
limit-up nframes level chunk h = omega arith

-- Words of two levels have different addresses.
word_addr-below :
    (a : Allocator) (l m c d : ℕ)
    → IsLaidOut a
    → l < m
    → m < a.nlevels
    → c < limit a.nframes (suc l)
    → word_addr a l c < word_addr a m d
word_addr-below a l m c d laid h top low =
    let e : suc (l + (m - suc l)) ≡ m = omega arith in
    let f : word_addr a l c < a.bitmap_virt_addr m =
      subst (λ x. word_addr a l c < a.bitmap_virt_addr x) e
        (level_above a (m - suc l) l c laid (omega arith) low) in
    omega arith

pub word_addr-inj :
    (a : Allocator) (l m c d : ℕ)
    → IsLaidOut a
    → l < a.nlevels
    → m < a.nlevels
    → c < limit a.nframes (suc l)
    → d < limit a.nframes (suc m)
    → word_addr a l c ≡ word_addr a m d
    → (l ≡ m) × (c ≡ d)
word_addr-inj a l m c d laid hl hm hc hd same = elim (dec_lt l m) [
  | yes under ↦ absurd (omega (arith, word_addr-below a l m c d laid under hm hc))
  | no over ↦ elim (dec_lt m l) [
    | yes above ↦ absurd (omega (arith, word_addr-below a m l d c laid above hl hd))
    | no level_up ↦ (let e : l ≡ m = omega arith in (e, omega (arith, ap a.bitmap_virt_addr e)))
  ]
]

pub Agree-same :
    (a : Allocator) (w : ℕ → ℕ) (level chunk : ℕ)
    → bit (w (word_addr a (suc level) (chunk / 32))) (chunk % 32)
      ≡ bit (a.words (word_addr a (suc level) (chunk / 32))) (chunk % 32)
    → w (word_addr a level chunk) ≡ a.words (word_addr a level chunk)
    → Agree a level chunk
    → Agree (rewritten a w) level chunk
Agree-same a w level chunk above here (up, down) =
    ((λ set. rw here (up (sym above ∙ set))), (λ pos. above ∙ down (rw here at pos)))

-- The word above word `chunk` of level `k`, its value with the bit of `chunk` cleared, and the memory
-- that has it.
abbrev addr_above : Allocator → ℕ → ℕ → ℕ
addr_above a k chunk = word_addr a (suc k) (chunk / 32)

abbrev cleared_above : Allocator → ℕ → ℕ → ℕ
cleared_above a k chunk =
    bit_and (a.words (addr_above a k chunk)) (flip_bits (2 ^ bit_and chunk 31))

abbrev written : Allocator → ℕ → ℕ → ℕ → ℕ
written a k chunk = update a.words (addr_above a k chunk) (cleared_above a k chunk)

module _ (a : Allocator) (k chunk : ℕ) (laid : IsLaidOut a) (high : suc k < a.nlevels)
    (low : chunk < limit a.nframes (suc k)) (indexed : IsIndexedBut a k chunk)
    (empty : a.words (word_addr a k chunk) ≡ 0) where
  elsewhere :
      (l c : ℕ)
      → l < a.nlevels
      → c < limit a.nframes (suc l)
      → ¬ ((l ≡ suc k) × (c ≡ chunk / 32))
      → (written a k chunk) (word_addr a l c) ≡ a.words (word_addr a l c)
  elsewhere l c hl hc other = elim (ℕ_discrete (addr_above a k chunk) (word_addr a l c)) [
    | yes same ↦ absurd (
        other (
          word_addr-inj a l (suc k) c (chunk / 32) laid hl high hc
            (limit-up a.nframes (suc k) chunk low) (sym same)))
    | no apart ↦ ground arith
  ]

  at_written :
      (x : ℕ) → (addr_above a k chunk) ≡ x → (written a k chunk) x ≡ (cleared_above a k chunk)
  at_written x e = ground arith

  -- The other bits of the word above are as before.
  bit_elsewhere :
      (l c : ℕ)
      → suc l < a.nlevels
      → c < limit a.nframes (suc l)
      → ¬ ((l ≡ k) × (c ≡ chunk))
      → bit ((written a k chunk) (word_addr a (suc l) (c / 32))) (c % 32)
        ≡ bit (a.words (word_addr a (suc l) (c / 32))) (c % 32)
  bit_elsewhere l c hl hc other =
      elim (ℕ_discrete (addr_above a k chunk) (word_addr a (suc l) (c / 32))) [
        | no apart ↦
            (let e : (written a k chunk) (word_addr a (suc l) (c / 32))
                  ≡ a.words (word_addr a (suc l) (c / 32)) =
                ground arith in
              ap (λ x. bit x (c % 32)) e)
        | yes same ↦
            (let (e, f) =
                word_addr-inj a (suc k) (suc l) (chunk / 32) (c / 32) laid high hl
                  (limit-up a.nframes (suc k) chunk low) (limit-up a.nframes (suc l) c hc) same in
              let apart : bit_and chunk 31 ≢ c % 32 =
                λ g. other (omega arith, omega (arith, bit_and-low_five chunk)) in
              ap (λ x. bit x (c % 32)) (at_written (word_addr a (suc l) (c / 32)) same)
              ∙ (cleared-other (a.words (addr_above a k chunk)) (bit_and chunk 31) (c % 32)
                    (omega arith) apart
                  ∙ ap (λ x. bit (a.words x) (c % 32)) same))
      ]

  one_up : IsIndexedBut (rewritten a (written a k chunk)) (suc k) (chunk / 32)
  one_up l c hl hc other = elim (ℕ_discrete l k) [
    | no up ↦
        Agree-same a (written a k chunk) l c (bit_elsewhere l c hl hc (λ e. up e.0))
          (elsewhere l c (omega arith) hc other) (indexed l c hl hc (λ e. up e.0))
    | yes e ↦ elim (ℕ_discrete c chunk) [
      | no next ↦
          Agree-same a (written a k chunk) l c (bit_elsewhere l c hl hc (λ e. next e.1))
            (elsewhere l c (omega arith) hc other) (indexed l c hl hc (λ e. next e.1))
      | yes f ↦
          (let z = zero_here l c hl hc other e f in
            let b = bit_here l c e f in
            ((λ set. absurd (omega arith)), (λ pos. absurd (omega arith))))
    ]
  ]
    where
      zero_here :
          (l c : ℕ)
          → suc l < a.nlevels
          → c < limit a.nframes (suc l)
          → ¬ ((l ≡ suc k) × (c ≡ chunk / 32))
          → l ≡ k
          → c ≡ chunk
          → (written a k chunk) (word_addr a l c) ≡ 0
      zero_here l c hl hc other e f =
          elsewhere l c (omega arith) hc other
          ∙ (ap (λ x. a.words (word_addr a x c)) e
              ∙ (ap (λ x. a.words (word_addr a k x)) f ∙ empty))

      bit_here :
          (l c : ℕ)
          → l ≡ k
          → c ≡ chunk
          → bit ((written a k chunk) (word_addr a (suc l) (c / 32))) (c % 32) ≡ 0
      bit_here l c e f =
          rw (e, f)
            (ap (λ x. bit x (chunk % 32)) (at_written (addr_above a k chunk) refl)
              ∙ subst
                  (λ i.
                    bit
                      (bit_and (a.words (addr_above a k chunk)) (flip_bits (2 ^ bit_and chunk 31)))
                      i
                    ≡ 0)
                  (bit_and-low_five chunk)
                  (cleared-at (a.words (addr_above a k chunk)) (bit_and chunk 31)
                    (omega (arith, bit_and-low_five chunk))))

  -- A word that is not 0 after its bit was cleared still agrees with the one above it.
  still_agrees :
      suc (suc k) < a.nlevels
      → 0 < (cleared_above a k chunk)
      → Agree (rewritten a (written a k chunk)) (suc k) (chunk / 32)
  still_agrees h pos =
      let up = limit-up a.nframes (suc k) chunk low in
      let less =
        bit_and-le (a.words (addr_above a k chunk)) (a.words (addr_above a k chunk))
          (flip_bits (2 ^ bit_and chunk 31)) (omega arith) in
      let (_, down) = indexed (suc k) (chunk / 32) h up (λ e. absurd (omega (arith, e.0))) in
      let same = bit_elsewhere (suc k) (chunk / 32) h up (λ e. absurd (omega (arith, e.0))) in
      ((λ set. rw (at_written (addr_above a k chunk) refl) pos), (λ p. same ∙ down (omega arith)))

  all_up : 0 < (cleared_above a k chunk) → IsIndexed (rewritten a (written a k chunk))
  all_up pos l c hl hc = elim (ℕ_discrete l (suc k)) [
    | no away ↦ one_up l c hl hc (λ e. away e.0)
    | yes e ↦ elim (ℕ_discrete c (chunk / 32)) [
      | no away ↦ one_up l c hl hc (λ f. away f.1)
      | yes f ↦ rw (e, f) (still_agrees (omega arith) pos)
    ]
  ]

-- When word `chunk` of level `k` is the only one the index is wrong about, because it is empty now,
-- `clear_upwards` from the level above corrects the index.
pub clear_upwards-IsIndexed :
    (rounds k chunk : ℕ) (a : Allocator)
    → IsLaidOut a
    → suc k + rounds ≡ a.nlevels
    → chunk < limit a.nframes (suc k)
    → IsIndexedBut a k chunk
    → a.words (word_addr a k chunk) ≡ 0
    → IsIndexed (clear_upwards rounds (suc k) chunk a)
unfolding clear_upwards
clear_upwards-IsIndexed zero k chunk a laid sum low indexed empty =
    λ l c hl hc. indexed l c hl hc (λ e. absurd (omega (arith, e.0)))
clear_upwards-IsIndexed (suc rounds) k chunk a laid sum low indexed empty =
    let high : suc k < a.nlevels = omega arith in
    let up = one_up a k chunk laid high low indexed empty in
    let at = at_written a k chunk laid high low indexed empty (addr_above a k chunk) refl in
    elim (Bool-cases (cleared_above a k chunk == 0)) [
      | inl none_left ↦
          (let e : suc k + 1 ≡ suc (suc k) = omega arith in
            let gone : cleared_above a k chunk ≡ 0 = ground arith in
            rw (none_left, e)
              (clear_upwards-IsIndexed rounds (suc k) (chunk / 32) (rewritten a (written a k chunk))
                laid (omega arith) (limit-up a.nframes (suc k) chunk low) up (at ∙ gone)))
      | inr some_left ↦
          (let pos : 0 < cleared_above a k chunk = ground arith in
            rw some_left (all_up a k chunk laid high low indexed empty pos))
    ]
