-- ===== src/Frames/Layout.antt =====
-- Where the bitmaps of the levels lie, and what `clear_upwards` writes to.
use eurali_os.Prelude.{
  ℕ, zero, suc, ◌+◌, ◌*◌, ◌/◌, ◌^◌, ◌≤◌, ◌<◌, ◌≡◌, refl, ◌∙◌, inl, inr, arith, Bool-cases, bit_and,
  update, ◌==◌, ℕ_discrete,
}
use eurali_os.Frames.Bits.{bit}
use eurali_os.Frames.WordBits.{bit_and-subset, bit_and-le}
use eurali_os.Frames.{Allocator, word_addr, flip_bits, clear_upwards}

-- How many bits a level has: one for each frame at the lowest, and above it one for each word of the
-- level below.
unfoldable pub limit : ℕ → ℕ → ℕ
limit nframes zero = nframes
limit nframes (suc level) = (limit nframes level + 31) / 32

-- The allocator with other words in memory.
abbrev pub rewritten : Allocator → (ℕ → ℕ) → Allocator
rewritten a w = record a { words = w }

-- The bitmap of each level lies directly behind the one of the level below.
abbrev pub IsLaidOut : Allocator → Type 0
IsLaidOut a =
    (level : ℕ)
    → suc level < a.nlevels
    → a.bitmap_virt_addr (suc level) ≡ a.bitmap_virt_addr level + 4 * limit a.nframes (suc level)

pub level_above :
    (a : Allocator) (k level chunk : ℕ)
    → IsLaidOut a
    → suc (level + k) < a.nlevels
    → chunk < limit a.nframes (suc level)
    → word_addr a level chunk < a.bitmap_virt_addr (suc (level + k))
level_above a zero level chunk laid h low =
    let e : level + 0 ≡ level = omega arith in rw e (omega (arith, laid level (omega arith)))
level_above a (suc k) level chunk laid h low =
    let e : level + suc k ≡ suc (level + k) = omega arith in
    rw e (
      omega (
        arith,
        laid (suc (level + k)) (omega arith),
        level_above a k level chunk laid (omega arith) low,
      ))

-- Only words of the levels from `level` on are written.
pub clear_upwards-under :
    (rounds level chunk : ℕ) (a : Allocator) (x : ℕ)
    → ((l : ℕ) → level ≤ l → l < level + rounds → x < a.bitmap_virt_addr l)
    → (clear_upwards rounds level chunk a).words x ≡ a.words x
unfolding clear_upwards
clear_upwards-under zero level chunk a x under = refl
clear_upwards-under (suc rounds) level chunk a x under =
    let addr = word_addr a level (chunk / 32) in
    let cleared = bit_and (a.words addr) (flip_bits (2 ^ bit_and chunk 31)) in
    let w = update a.words addr cleared in
    let same : w x ≡ a.words x =
      (let h = under level (omega arith) (omega arith) in ground arith) in
    elim (Bool-cases (cleared == 0)) [
      | inl none_left ↦ rw none_left (
          clear_upwards-under rounds (level + 1) (chunk / 32) (rewritten a w) x
            (λ l p q. under l (omega arith) (omega arith))
          ∙ same)
      | inr some_left ↦ rw some_left same
    ]

-- No bit is set, no word gets larger, and all but the words stays.
pub record Clears (a : Allocator) (w : ℕ → ℕ) : Type 0 where
  pub subset : (x j : ℕ) → bit (w x) j ≡ 1 → bit (a.words x) j ≡ 1
  pub smaller : (x : ℕ) → w x ≤ a.words x

pub update-Clears :
    (a : Allocator) (addr v : ℕ)
    → ((j : ℕ) → bit v j ≡ 1 → bit (a.words addr) j ≡ 1)
    → v ≤ a.words addr
    → Clears a (update a.words addr v)
update-Clears a addr v sub le = record {
  subset = λ x j h. elim (Bool-cases (addr == x)) [
    | inl here ↦ (let e : addr ≡ x = ground arith in at_word x j e (rw here at h))
    | inr there ↦ rw there at h
  ];
  smaller = λ x. elim (ℕ_discrete addr x) [ yes e ↦ ground arith | no e ↦ ground arith ];
}
  where
    at_word : (x j : ℕ) → addr ≡ x → bit v j ≡ 1 → bit (a.words x) j ≡ 1
    at_word x j e h = rw (← e) (sub j h)

pub Clears-then : (a : Allocator) (w v : ℕ → ℕ) → Clears a w → Clears (rewritten a w) v → Clears a v
Clears-then a w v p q = record {
  subset = λ x j h. p.subset x j (q.subset x j h);
  smaller = λ x. (let f = p.smaller x in let g = q.smaller x in omega arith);
}

pub clear_upwards-Clears :
    (rounds level chunk : ℕ) (a : Allocator)
    → (w : ℕ → ℕ) × (clear_upwards rounds level chunk a ≡ rewritten a w) × Clears a w
unfolding clear_upwards
clear_upwards-Clears zero level chunk a =
    (a.words, refl, record { subset = λ x j h. h; smaller = λ x. omega arith })
clear_upwards-Clears (suc rounds) level chunk a =
    let addr = word_addr a level (chunk / 32) in
    let mask = flip_bits (2 ^ bit_and chunk 31) in
    let cleared = bit_and (a.words addr) mask in
    let w = update a.words addr cleared in
    let first : Clears a w =
      update-Clears a addr cleared (λ j h. bit_and-subset (a.words addr) mask j h)
        (bit_and-le (a.words addr) (a.words addr) mask (omega arith)) in
    elim (Bool-cases (cleared == 0)) [
      | inl none_left ↦
          (let (v, same, more) =
              clear_upwards-Clears rounds (level + 1) (chunk / 32) (rewritten a w) in
            rw none_left (v, same, Clears-then a w v first more))
      | inr some_left ↦ rw some_left (w, refl, first)
    ]
