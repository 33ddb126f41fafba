-- ===== src/Frames/Ownership.antt =====
-- `fetch_frame` and `return_frame` as operations on the set of free frames.
use eurali_os.Prelude.{
  ℕ, ◌+◌, ◌-◌, ◌*◌, ◌/◌, ◌%◌, ◌<◌, ◌≡◌, ◌≢◌, ◌↔◌, refl, sym, ap, subst, ◌∙◌, inl, inr, arith,
  ℕ_discrete,
}
use eurali_os.Frames.Bits.{bit}
use eurali_os.Frames.WordBits.{bit-zero}
use eurali_os.Frames.Layout.{limit}
use eurali_os.Frames.Proper.{InBitmap, IsFree, IsProper, Refills, filled}
use eurali_os.Frames.{Allocator, word_addr}

-- Of the frames of the region the same are free.
abbrev pub SameFree : Allocator → Allocator → Type 0
SameFree a a' = (g : ℕ) → g < a.nframes → IsFree a g ↔ IsFree a' g

pub chunk_in_range : (nframes g : ℕ) → g < nframes → g / 32 < limit nframes 1
unfolding limit
chunk_in_range nframes g h = omega arith

in_chunk :
    (a : Allocator) (chunk g : ℕ)
    → g / 32 ≡ chunk
    → InBitmap a g
    → bit (a.words (word_addr a 0 chunk)) (g % 32) ≡ 1
in_chunk a chunk g e set = subst (λ c. bit (a.words (word_addr a 0 c)) (g % 32) ≡ 1) e set

module _ (a : Allocator) (chunk n : ℕ) (s w : ℕ → ℕ) (empty : a.frame_stack_number ≡ 0)
    (p : IsProper a) (low : chunk < limit a.nframes 1) (refills : Refills a chunk s n w) where
  -- A frame that was put on the stack.
  moved :
      (i : ℕ)
      → i < n
      → (j : ℕ) × (j < 32) × (bit (a.words (word_addr a 0 chunk)) j ≡ 1) × (s i ≡ chunk * 32 + j)
  moved i h = refills.moves.sound i (omega arith) h

  not_in_chunk : (g : ℕ) → g / 32 ≡ chunk → ¬ InBitmap (filled a s n w) g
  not_in_chunk g e set = absurd (
      omega (
        arith,
        bit-zero (g % 32),
        subst (λ x. bit x (g % 32) ≡ 1) refills.emptied (in_chunk (filled a s n w) chunk g e set),
      ))

  pub filled-SameFree : SameFree a (filled a s n w)
  filled-SameFree g h = (there, back)
    where
      there : IsFree a g → IsFree (filled a s n w) g
      there (inl (i, under, at)) = absurd (omega arith)
      there (inr set) = elim (ℕ_discrete (g / 32) chunk) [
        | yes e ↦
            (let (i, _, under, at) = refills.moves.complete (g % 32) (in_chunk a chunk g e set) in
              inl (i, under, omega arith))
        | no e ↦ inr (
            subst (λ x. bit x (g % 32) ≡ 1)
              (sym (refills.others (g / 32) (chunk_in_range a.nframes g h) e)) set)
      ]

      back : IsFree (filled a s n w) g → IsFree a g
      back (inl (i, under, at)) =
          let (j, small, set, e) = moved i under in
          let word : g / 32 ≡ chunk = omega arith in
          let pos : g % 32 ≡ j = omega arith in inr (rw (word, pos) set)
      back (inr set) = elim (ℕ_discrete (g / 32) chunk) [
        | yes e ↦ absurd (not_in_chunk g e set)
        | no e ↦ inr (
            subst (λ x. bit x (g % 32) ≡ 1)
              (refills.others (g / 32) (chunk_in_range a.nframes g h) e) set)
      ]

  pub filled-IsProper : IsProper (filled a s n w)
  unfolding limit
  filled-IsProper = record {
    laid_out = p.laid_out;
    some_levels = p.some_levels;
    one_chunk = p.one_chunk;
    words_small = λ x. (let f = refills.clears.smaller x in let g = p.words_small x in omega arith);
    in_range = λ level c i h q set. p.in_range level c i h q (refills.clears.subset _ i set);
    in_region = λ i h.
        (let (j, small, set, e) = moved i h in
          let f = p.in_range 0 chunk j p.some_levels low set in omega arith);
    apart = λ i k h q same. (let f = refills.moves.rising i k (omega arith) h q in omega arith);
    taken = λ i h. (let (j, small, set, e) = moved i h in not_in_chunk (s i) (omega arith));
  }

-- What it means that `frame` was handed out: it was free, it is not free any more, all other frames
-- are as before, and the state is again a proper one.
pub record Fetched (a : Allocator) (frame : ℕ) (a' : Allocator) : Type 0 where
  pub was_free : IsFree a frame
  pub in_region : frame < a.nframes
  pub not_free : ¬ IsFree a' frame
  pub others : (g : ℕ) → g < a.nframes → g ≢ frame → IsFree a g ↔ IsFree a' g
  pub proper : IsProper a'
  pub same_region : a'.nframes ≡ a.nframes
  pub same_levels : a'.nlevels ≡ a.nlevels

abbrev pub top_of : Allocator → ℕ
top_of a = a.frame_stack_number - 1

abbrev pub popped : Allocator → Allocator
popped a = record a { frame_stack_number = a.frame_stack_number - 1 }

pub pop-Fetched :
    (a : Allocator)
    → IsProper a
    → 0 < a.frame_stack_number
    → Fetched a (a.frame_stack (top_of a)) (popped a)
pop-Fetched a p pos = record {
  was_free = inl ((top_of a), omega arith, refl);
  in_region = p.in_region (top_of a) (omega arith);
  not_free = gone;
  others = λ g h other. (there g other, back g);
  proper = record {
    laid_out = p.laid_out;
    some_levels = p.some_levels;
    one_chunk = p.one_chunk;
    words_small = p.words_small;
    in_range = p.in_range;
    in_region = λ i h. p.in_region i (omega arith);
    apart = λ i k h q. p.apart i k h (omega arith);
    taken = λ i h. p.taken i (omega arith);
  };
  same_region = refl;
  same_levels = refl;
}
  where
    gone : ¬ IsFree (popped a) (a.frame_stack (top_of a))
    gone (inl (i, under, at)) = p.apart i (top_of a) under (omega arith) at
    gone (inr set) = p.taken (top_of a) (omega arith) set

    there : (g : ℕ) → g ≢ a.frame_stack (top_of a) → IsFree a g → IsFree (popped a) g
    there g other (inl (i, under, at)) = elim (ℕ_discrete i (top_of a)) [
      | yes e ↦ absurd (other (sym at ∙ ap a.frame_stack e))
      | no e ↦ inl (i, omega arith, at)
    ]
    there g other (inr set) = inr set

    back : (g : ℕ) → IsFree (popped a) g → IsFree a g
    back g (inl (i, under, at)) = inl (i, omega arith, at)
    back g (inr set) = inr set
