-- ===== src/Frames/Proper.antt =====
-- The state of the frame allocator between calls: which frames are free, and what the stack and the
-- bitmaps promise.
use eurali_os.Prelude.{
  ℕ, zero, suc, ◌+◌, ◌-◌, ◌*◌, ◌/◌, ◌%◌, ◌^◌, ◌≤◌, ◌<◌, ◌≡◌, ◌≢◌, ◌⊎◌, sym, ap, subst, ◌∙◌, inl,
  inr, arith, Bool-cases, some, Option-cases, update, ◌==◌,
}
use eurali_os.Frames.Bits.{bit, nonzero_bit_index_lem}
use eurali_os.Frames.WordBits.{bit-zero}
use eurali_os.Frames.Layout.{
  limit, IsLaidOut, Clears, Clears-then, level_above, update-Clears, clear_upwards-Clears,
  clear_upwards-under, rewritten,
}
use eurali_os.Frames.Moves.{Moves, restacked, drain-Moves}
use eurali_os.Frames.Drain.{refilled, refill_unique}
use eurali_os.Frames.{Allocator, word_addr, nonzero_bit_index, descend, drain, refill}

abbrev pub Stacked : Allocator → ℕ → Type 0
Stacked a frame = (i : ℕ) × (i < a.frame_stack_number) × (a.frame_stack i ≡ frame)

abbrev pub InBitmap : Allocator → ℕ → Type 0
InBitmap a frame = bit (a.words (word_addr a 0 (frame / 32))) (frame % 32) ≡ 1

-- A frame is free when it is on the stack or its bit is set.
abbrev pub IsFree : Allocator → ℕ → Type 0
IsFree a frame = Stacked a frame ⊎ InBitmap a frame

-- The stack has frames of the region, each once, and their bits are clear. The bitmaps lie one behind
-- the other, their words have 32 bits, and no bit is set beyond the end of its level.
pub record IsProper (a : Allocator) : Type 0 where
  pub laid_out : IsLaidOut a
  pub some_levels : 0 < a.nlevels
  pub one_chunk : limit a.nframes a.nlevels ≡ 1
  pub words_small : (x : ℕ) → a.words x < 2 ^ 32
  pub in_range :
      (level chunk i : ℕ)
      → level < a.nlevels
      → chunk < limit a.nframes (suc level)
      → bit (a.words (word_addr a level chunk)) i ≡ 1
      → chunk * 32 + i < limit a.nframes level
  pub in_region : (i : ℕ) → i < a.frame_stack_number → a.frame_stack i < a.nframes
  pub apart : (i k : ℕ) → i < k → k < a.frame_stack_number → a.frame_stack i ≢ a.frame_stack k
  pub taken : (i : ℕ) → i < a.frame_stack_number → ¬ InBitmap a (a.frame_stack i)

pub descend-below :
    (a : Allocator) (level chunk c : ℕ)
    → IsProper a
    → level < a.nlevels
    → chunk < limit a.nframes (suc level)
    → descend a level chunk ≡ some c
    → c < limit a.nframes 1
unfolding descend
descend-below a zero chunk c p h low e = ground arith
descend-below a (suc level) chunk c p h low e =
    let bitmap = a.words (word_addr a (suc level) chunk) in
    let index = nonzero_bit_index bitmap in
    elim (Bool-cases (bitmap == 0)) [
      | inl empty ↦ absurd (ground arith)
      | inr full ↦
          (let rest : descend a level (chunk * 32 + nonzero_bit_index bitmap) ≡ some c =
              ground arith in
            let (_, one, _) =
              nonzero_bit_index_lem bitmap (p.words_small (word_addr a (suc level) chunk))
                (ground arith) in
            descend-below a level (chunk * 32 + index) c p (omega arith)
              (p.in_range (suc level) chunk index h low one) rest)
    ]

abbrev pub filled : Allocator → (ℕ → ℕ) → ℕ → (ℕ → ℕ) → Allocator
filled a s n w = record a { frame_stack = s; frame_stack_number = n; words = w }

-- What `refill` does to the lowest bitmap and to the stack.
pub record Refills (a : Allocator) (chunk : ℕ) (s : ℕ → ℕ) (n : ℕ) (w : ℕ → ℕ) : Type 0 where
  pub moves : Moves (a.words (word_addr a 0 chunk)) chunk a.frame_stack_number a.frame_stack n s
  pub clears : Clears a w
  pub emptied : w (word_addr a 0 chunk) ≡ 0
  pub others :
      (c : ℕ) → c < limit a.nframes 1 → c ≢ chunk → w (word_addr a 0 c) ≡ a.words (word_addr a 0 c)

refilled-Refills :
    (a : Allocator) (chunk n : ℕ) (s : ℕ → ℕ)
    → IsProper a
    → chunk < limit a.nframes 1
    → Moves (a.words (word_addr a 0 chunk)) chunk a.frame_stack_number a.frame_stack n s
    → (w : ℕ → ℕ) × (refilled chunk a (restacked a s n) ≡ filled a s n w) × Refills a chunk s n w
refilled-Refills a chunk n s p low moves =
    let addr = word_addr a 0 chunk in
    let wiped = update a.words addr 0 in
    let a₂ = rewritten (restacked a s n) wiped in
    let (w, same, clears) = clear_upwards-Clears (a.nlevels - 1) 1 chunk a₂ in
    let first : Clears a wiped =
      update-Clears a addr 0 (λ j h. absurd (omega (arith, bit-zero j))) (omega arith) in
    let kept : (c : ℕ) → c < limit a.nframes 1 → w (word_addr a 0 c) ≡ wiped (word_addr a 0 c) =
      λ c h.
        ap (λ (x : Allocator). x.words (word_addr a 0 c)) (sym same)
        ∙ clear_upwards-under (a.nlevels - 1) 1 chunk a₂ (word_addr a 0 c)
            (λ l q r. beyond c l h q r) in
    (
      w,
      same,
      record {
        moves = moves;
        clears =
            Clears-then a wiped w first
              (record { subset = clears.subset; smaller = clears.smaller });
        emptied = kept chunk low ∙ ground arith;
        others = λ c h other. kept c h ∙ ground arith;
      },
    )
  where
    beyond :
        (c l : ℕ)
        → c < limit a.nframes 1
        → 1 ≤ l
        → l < 1 + (a.nlevels - 1)
        → word_addr a 0 c < a.bitmap_virt_addr l
    beyond c zero h q r = absurd (omega arith)
    beyond c (suc l) h q r =
        let e : 0 + l ≡ l = omega arith in
        subst (λ k. word_addr a 0 c < a.bitmap_virt_addr (suc k)) e
          (level_above a l 0 c p.laid_out (omega arith) h)

pub refill-Refills :
    (a r : Allocator) (chunk : ℕ)
    → IsProper a
    → chunk < limit a.nframes 1
    → refill a chunk ≡ some r
    → (s : ℕ → ℕ) × (n : ℕ) × (w : ℕ → ℕ) × (r ≡ filled a s n w) × Refills a chunk s n w
unfolding refill
refill-Refills a r chunk p low done =
    elim (Option-cases (drain 33 (a.words (word_addr a 0 chunk)) chunk a)) [
      | inl nothing ↦ absurd (ground arith)
      | inr (a₁, drained) ↦
          (let (n, s, same, moves) =
              drain-Moves 33 (a.words (word_addr a 0 chunk)) chunk a a₁
                (p.words_small (word_addr a 0 chunk)) drained in
            let (w, shape, all) = refilled-Refills a chunk n s p low moves in
            let result = refill_unique a a₁ r chunk drained done in
            (s, n, w, result ∙ (ap (refilled chunk a) same ∙ shape), all))
    ]
