-- ===== src/Frames/SetAside.antt =====
-- Which frames are free after `init`: those that the bitmaps do not lie in.
use eurali_os.Prelude.{
  ℕ, suc, ◌+◌, ◌-◌, ◌*◌, ◌/◌, ◌%◌, ◌≤◌, ◌<◌, ◌≡◌, ◌≢◌, ◌↔◌, sym, ap, subst, ◌∙◌, inl, inr, arith,
  ℕ_discrete,
}
use eurali_os.Frames.Bits.{bit}
use eurali_os.Frames.Layout.{limit}
use eurali_os.Frames.Proper.{IsFree, InBitmap}
use eurali_os.Frames.Reserved.{Reserved}
use eurali_os.Frames.Boot.{Filled}
use eurali_os.Frames.{Allocator, word_addr}

-- The first `count` frames are taken and the others free. All words of the bitmaps lie in the first
-- `count` frames, where `offset + start` is the address of the first frame, and `count` is no more
-- than the bitmaps need, whose words are at most one for every 24 frames and one for each level.
pub record IsSetAside (a : Allocator) (offset start : ℕ) : Type 0 where
  pub count : ℕ
  pub free : (frame : ℕ) → frame < a.nframes → IsFree a frame ↔ (count ≤ frame)
  pub holds :
      (level chunk : ℕ)
      → level < a.nlevels
      → chunk < limit a.nframes (suc level)
      → (offset + start ≤ word_addr a level chunk)
        × (word_addr a level chunk + 4 ≤ offset + start + count * 4096)
  pub fewest : count * 4096 < 4 * (a.nframes / 24 + a.nlevels) + 4096

module _ (a : Allocator) (offset start r : ℕ) (addrs words : ℕ → ℕ) (filled : (ℕ → ℕ) × (ℕ → ℕ) × ℕ)
    (levels : 0 < a.nlevels) (enough : 32 ≤ a.nframes)
    (fills : Filled a.nlevels 0 offset start a.nframes addrs words filled)
    (at : a.bitmap_virt_addr ≡ filled.0) (low : Reserved (filled.0 0) r filled.1 a.words)
    (few : r < 32) (empty : a.frame_stack_number ≡ 0)
    (rounded : r ≡ (filled.2 - start + 4095) / 4096) where
  address : (level chunk : ℕ) → word_addr a level chunk ≡ filled.0 (0 + level) + 4 * chunk
  address level chunk =
      let e : level ≡ 0 + level = omega arith in
      ap (λ (f : ℕ → ℕ). f level + 4 * chunk) at ∙ ap (λ l. filled.0 l + 4 * chunk) e

  lies :
      (level chunk : ℕ)
      → level < a.nlevels
      → chunk < limit a.nframes (suc level)
      → (offset + start ≤ word_addr a level chunk)
        × (word_addr a level chunk + 4 ≤ offset + start + r * 4096)
  lies level chunk h inside =
      let (over, under) = fills.within level chunk h inside in
      let grows = fills.grows in
      (omega (arith, address level chunk), omega (arith, address level chunk))

  some_reserved : 0 < r
  unfolding limit
  some_reserved =
      let (over, under) = fills.within 0 0 levels (omega arith) in
      let (_, last) = lies 0 0 levels (omega arith) in
      let (first, _) = lies 0 0 levels (omega arith) in omega arith

  base : (frame : ℕ) → word_addr a 0 (frame / 32) ≡ filled.0 0 + 4 * (frame / 32)
  base frame =
      let e : 0 + 0 ≡ 0 = omega arith in
      address 0 (frame / 32) ∙ ap (λ l. filled.0 l + 4 * (frame / 32)) e

  at_lowest : (frame : ℕ) → frame / 32 ≡ 0 → InBitmap a frame ↔ (r ≤ frame)
  at_lowest frame lowest =
      let e : filled.0 0 ≡ word_addr a 0 (frame / 32) = omega (arith, base frame) in
      let f : frame ≡ frame % 32 = omega arith in
      subst (λ i. (bit (a.words (word_addr a 0 (frame / 32))) i ≡ 1) ↔ (r ≤ frame)) f
        (subst (λ x. (bit (a.words x) frame ≡ 1) ↔ (r ≤ frame)) e
          (low.bits frame some_reserved (omega arith)))

  at_higher : (frame : ℕ) → frame < a.nframes → frame / 32 ≢ 0 → InBitmap a frame
  unfolding limit
  at_higher frame h higher =
      let other : filled.0 0 ≢ word_addr a 0 (frame / 32) =
        λ same. absurd (omega (arith, base frame, higher)) in
      let full = fills.full 0 (frame / 32) levels (omega arith) in
      let e : word_addr a 0 (frame / 32) ≡ filled.0 (0 + 0) + 4 * (frame / 32) =
        address 0 (frame / 32) in
      subst (λ v. bit v (frame % 32) ≡ 1)
        (sym (low.others (word_addr a 0 (frame / 32)) other ∙ ap filled.1 e))
        (full.set (frame % 32) (omega arith) (omega arith))

  at_free : (frame : ℕ) → frame < a.nframes → InBitmap a frame ↔ (r ≤ frame)
  at_free frame h = elim (ℕ_discrete (frame / 32) 0) [
    | yes lowest ↦ at_lowest frame lowest
    | no higher ↦ ((λ set. omega (arith, few, higher)), (λ le. at_higher frame h higher))
  ]

  pub started-IsSetAside : IsSetAside a offset start
  started-IsSetAside = record {
    count = r;
    free = λ frame h.
        (let (to, from) = at_free frame h in
          (
            (λ (s : IsFree a frame). elim s [
              | inl (i, depth, _) ↦ absurd (omega arith)
              | inr set ↦ to set
            ]),
            (λ le. inr (from le)),
          ));
    holds = lies;
    fewest = (let b = fills.bounded in omega arith);
  }
