-- ===== src/Frames/Returns.antt =====
-- `return_frame`: the stack of ready frames, and what happens once it is full.
use eurali_os.Frames.Bits.{bit}
use eurali_os.Frames.Layout.{limit, rewritten, level_above}
use eurali_os.Frames.Proper.{IsFree, IsProper}
use eurali_os.Frames.InitWords.{update-away}
use eurali_os.Prelude.{
  ℕ, ◌/◌, ◌^◌, ◌<◌, ◌≡◌, refl, arith, some, update, bit_and, bit_or, ltb, false, zero, suc, ◌+◌,
  ◌-◌, ◌≤◌, inl, inr, Bool-cases, ◌==◌, ap, sym, subst, ◌∙◌, ◌%◌,
}
use eurali_os.Frames.{
  Allocator, stack_size, word_addr, return_frame, set_upwards, fetch_frame, pop_frame,
}

-- A frame that comes back while the stack has room is the next one to be handed out; the bitmaps are
-- not read or written, and the stack then has its old depth with every entry below it unchanged.
pub fetch_frame-return_frame :
    (a : Allocator) (frame : ℕ)
    → a.frame_stack_number < stack_size
    → (a' : Allocator) × (fetch_frame (return_frame a frame) ≡ some (some frame, a'))
      × (a'.frame_stack_number ≡ a.frame_stack_number)
      × (a'.words ≡ a.words)
      × ((i : ℕ) → i < a.frame_stack_number → a'.frame_stack i ≡ a.frame_stack i)
unfolding fetch_frame return_frame pop_frame
fetch_frame-return_frame a frame h = (
  record a { frame_stack = update a.frame_stack a.frame_stack_number frame },
  ground arith,
  refl,
  refl,
  λ i lt. ground arith,
)

-- Only words of the levels from `level` on are written.
set_upwards-under :
    (rounds level chunk : ℕ) (a : Allocator) (x : ℕ)
    → ((l : ℕ) → level ≤ l → l < level + rounds → x < a.bitmap_virt_addr l)
    → (set_upwards rounds level chunk a).words x ≡ a.words x
unfolding set_upwards
set_upwards-under zero level chunk a x under = refl
set_upwards-under (suc rounds) level chunk a x under =
    let addr = word_addr a level chunk in
    let w = update a.words addr (bit_or (a.words addr) (2 ^ bit_and chunk 31)) in
    let same : w x ≡ a.words x =
      (let h = under level (omega arith) (omega arith) in ground arith) in
    elim (Bool-cases (a.words addr == 0)) [
      | inl empty ↦ rw empty (
          set_upwards-under rounds (level + 1) (chunk / 32) (rewritten a w) x
            (λ l p q. under l (omega arith) (omega arith))
          ∙ same)
      | inr full ↦ rw full same
    ]

set_upwards-keeps_stack :
    (rounds level chunk : ℕ) (a : Allocator)
    → (w : ℕ → ℕ) × (set_upwards rounds level chunk a ≡ rewritten a w)
unfolding set_upwards
set_upwards-keeps_stack zero level chunk a = (a.words, refl)
set_upwards-keeps_stack (suc rounds) level chunk a =
    let addr = word_addr a level chunk in
    let w = update a.words addr (bit_or (a.words addr) (2 ^ bit_and chunk 31)) in
    elim (Bool-cases (a.words addr == 0)) [
      | inl empty ↦
          (let (v, same) =
              set_upwards-keeps_stack rounds (level + 1) (chunk / 32) (rewritten a w) in
            rw empty (v, same))
      | inr full ↦ rw full (w, refl)
    ]

-- The word of the frame's chunk keeps its value.
own_word_kept :
    (rounds : ℕ) (a : Allocator) (frame : ℕ)
    → IsProper a
    → suc rounds ≡ a.nlevels
    → 0 < frame
    → frame < a.nframes
    → (set_upwards (suc rounds) 0 frame a).words (word_addr a 0 (frame / 32))
      ≡ a.words (word_addr a 0 (frame / 32))
unfolding set_upwards limit
own_word_kept rounds a frame p levels pos inside =
    let addr = word_addr a 0 frame in
    let w = update a.words addr (bit_or (a.words addr) (2 ^ bit_and frame 31)) in
    let x = word_addr a 0 (frame / 32) in
    let same : w x ≡ a.words x = update-away a.words addr _ x (λ e. absurd (omega arith)) in
    elim (Bool-cases (a.words addr == 0)) [
      | inl empty ↦ rw empty (
          set_upwards-under rounds 1 (frame / 32) (rewritten a w) x (λ l low high. above l low high)
          ∙ same)
      | inr full ↦ rw full same
    ]
  where
    above : (l : ℕ) → 1 ≤ l → l < 1 + rounds → word_addr a 0 (frame / 32) < a.bitmap_virt_addr l
    above zero h q = absurd (omega arith)
    above (suc l) h q =
        let e : 0 + l ≡ l = omega arith in
        subst (λ k. word_addr a 0 (frame / 32) < a.bitmap_virt_addr (suc k)) e
          (level_above a l 0 (frame / 32) p.laid_out (omega arith) (omega arith))

-- With a full stack `return_frame` goes by the frame number, where it should go by the number of the
-- frame's chunk: a frame that is out of a proper allocator with a full stack, other than frame 0, is
-- not free after it was returned.
pub return_frame_lost :
    (a : Allocator) (frame : ℕ)
    → IsProper a
    → a.frame_stack_number ≡ stack_size
    → 0 < frame
    → frame < a.nframes
    → ¬ IsFree a frame
    → ¬ IsFree (return_frame a frame) frame
unfolding return_frame
return_frame_lost a frame p full pos inside out freed =
    let levels = p.some_levels in
    let e : suc (a.nlevels - 1) ≡ a.nlevels = omega arith in
    let test : ltb a.frame_stack_number stack_size ≡ false = ground arith in
    let (w, shape) = set_upwards-keeps_stack a.nlevels 0 frame a in
    let result : return_frame a frame ≡ rewritten a w = rw (return_frame, test) shape in
    let kept : w (word_addr a 0 (frame / 32)) ≡ a.words (word_addr a 0 (frame / 32)) =
      ap (λ (b : Allocator). b.words (word_addr a 0 (frame / 32))) (sym shape)
      ∙ subst
          (λ n.
            (set_upwards n 0 frame a).words (word_addr a 0 (frame / 32))
            ≡ a.words (word_addr a 0 (frame / 32)))
          e (own_word_kept (a.nlevels - 1) a frame p e pos inside) in
    elim (subst (λ b. IsFree b frame) result freed) [
      | inl stacked ↦ out (inl stacked)
      | inr set ↦ out (inr (subst (λ v. bit v (frame % 32) ≡ 1) kept set))
    ]
