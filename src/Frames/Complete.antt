-- ===== src/Frames/Complete.antt =====
-- `fetch_frame` finds a frame whenever one is free, and does not panic with two or more levels.
use eurali_os.Prelude.{
  ℕ, zero, suc, ◌+◌, ◌-◌, ◌*◌, ◌/◌, ◌%◌, ◌<◌, ◌≡◌, refl, sym, ap, subst, ◌∙◌, inl, inr, arith,
  Option, none, some, Option-cases, update, ℕ_discrete, ==_iff,
}
use eurali_os.Frames.Bits.{bit, nonzero_bit_index_lem}
use eurali_os.Frames.WordBits.{bit-pos}
use eurali_os.Frames.Layout.{limit, rewritten}
use eurali_os.Frames.Moves.{restacked, drain-Moves}
use eurali_os.Frames.Proper.{IsFree, IsProper}
use eurali_os.Frames.Index.{
  IsIndexed, IsIndexedBut, Agree-same, limit-up, word_addr-inj, clear_upwards-IsIndexed,
}
use eurali_os.Frames.Ownership.{chunk_in_range}
use eurali_os.Frames.Fetches.{top_chunk}
use eurali_os.Frames.Drain.{
  refilled, refill_unique, fetch_frame-empty, fetch_frame-Refills, pop_frame-none, pop_frame_lem,
}
use eurali_os.Frames.{
  Allocator, word_addr, nonzero_bit_index, descend, drain, refill, pop_frame, fetch_frame,
}

module _ (a : Allocator) (p : IsProper a) (indexed : IsIndexed a) where
  -- From a word that is not 0 the walk ends at a word of the lowest level that is not 0.
  descend-finds :
      (level chunk : ℕ)
      → level < a.nlevels
      → chunk < limit a.nframes (suc level)
      → 0 < a.words (word_addr a level chunk)
      → (c : ℕ) × (descend a level chunk ≡ some c)
        × (c < limit a.nframes 1)
        × (0 < a.words (word_addr a 0 c))
  unfolding descend
  descend-finds zero chunk h low pos = (chunk, refl, low, pos)
  descend-finds (suc level) chunk h low pos =
      let bitmap = a.words (word_addr a (suc level) chunk) in
      let index = nonzero_bit_index bitmap in
      let (small, one, _) =
        nonzero_bit_index_lem bitmap (p.words_small (word_addr a (suc level) chunk)) pos in
      let below = p.in_range (suc level) chunk index h low one in
      let q : (chunk * 32 + index) / 32 ≡ chunk = omega arith in
      let r : (chunk * 32 + index) % 32 ≡ index = omega arith in
      let (up, _) = indexed level (chunk * 32 + index) h below in
      let (c, found, rest, some_there) =
        descend-finds level (chunk * 32 + index) (omega arith) below (up (rw (q, r) one)) in
      (c, ground arith, rest, some_there)

  -- A word that is not 0 is seen at the top.
  climb :
      (k level chunk : ℕ)
      → suc (level + k) ≡ a.nlevels
      → chunk < limit a.nframes (suc level)
      → 0 < a.words (word_addr a level chunk)
      → 0 < a.words (word_addr a (a.nlevels - 1) 0)
  climb zero level chunk top low pos =
      let l : a.nlevels - 1 ≡ level = omega arith in
      let n : suc level ≡ a.nlevels = omega arith in
      let one = p.one_chunk in
      let c : chunk ≡ 0 = omega (arith, ap (limit a.nframes) n) in
      rw l (subst (λ x. 0 < a.words (word_addr a level x)) c pos)
  climb (suc k) level chunk top low pos =
      let (_, down) = indexed level chunk (omega arith) low in
      climb k (suc level) (chunk / 32) (omega arith) (limit-up a.nframes (suc level) chunk low)
        (bit-pos (a.words (word_addr a (suc level) (chunk / 32))) (chunk % 32) (down pos))

  nothing-IsFree :
      a.frame_stack_number ≡ 0
      → a.words (word_addr a (a.nlevels - 1) 0) ≡ 0
      → (g : ℕ) → g < a.nframes
      → ¬ IsFree a g
  nothing-IsFree empty top g inside (inl (i, under, at)) = absurd (omega arith)
  nothing-IsFree empty top g inside (inr set) =
      let levels = p.some_levels in
      absurd (
        omega (
          arith,
          climb (a.nlevels - 1) 0 (g / 32) (omega arith) (chunk_in_range a.nframes g inside)
              (bit-pos (a.words (word_addr a 0 (g / 32))) (g % 32) set),
        ))

  module _ (chunk : ℕ) (low : chunk < limit a.nframes 1) where
    abbrev wiped : ℕ → ℕ
    wiped = update a.words (word_addr a 0 chunk) 0

    kept_word :
        (l c : ℕ)
        → l < a.nlevels
        → c < limit a.nframes (suc l)
        → ¬ ((l ≡ 0) × (c ≡ chunk))
        → wiped (word_addr a l c) ≡ a.words (word_addr a l c)
    kept_word l c hl hc other = elim (ℕ_discrete (word_addr a 0 chunk) (word_addr a l c)) [
      | yes same ↦
          absurd (other (word_addr-inj a l 0 c chunk p.laid_out hl p.some_levels hc low (sym same)))
      | no apart ↦ ground arith
    ]

    at_wiped : wiped (word_addr a 0 chunk) ≡ 0
    at_wiped = rw ((==_iff (word_addr a 0 chunk) (word_addr a 0 chunk)).1 refl) refl

    wiped-IsIndexedBut : IsIndexedBut (rewritten a wiped) 0 chunk
    wiped-IsIndexedBut l c hl hc other =
        let up =
          kept_word (suc l) (c / 32) hl (limit-up a.nframes (suc l) c hc)
            (λ e. absurd (omega (arith, e.0))) in
        Agree-same a wiped l c (ap (λ x. bit x (c % 32)) up) (kept_word l c (omega arith) hc other)
          (indexed l c hl hc)

    refill-IsIndexed : (r : Allocator) → refill a chunk ≡ some r → IsIndexed r
    unfolding refill
    refill-IsIndexed r done =
        elim (Option-cases (drain 33 (a.words (word_addr a 0 chunk)) chunk a)) [
          | inl nothing ↦ absurd (ground arith)
          | inr (a₁, drained) ↦
              (let levels = p.some_levels in
                let (n, s, same, _) =
                  drain-Moves 33 (a.words (word_addr a 0 chunk)) chunk a a₁
                    (p.words_small (word_addr a 0 chunk)) drained in
                let result = refill_unique a a₁ r chunk drained done in
                subst IsIndexed (sym (result ∙ ap (refilled chunk a) same)) (
                  clear_upwards-IsIndexed (a.nlevels - 1) 0 chunk
                    (rewritten (restacked a s n) wiped) p.laid_out (omega arith) low
                    wiped-IsIndexedBut at_wiped))
        ]

-- A call that serves the caller: it does not panic, and it returns `None` only when no frame of the
-- region is free.
abbrev pub Serves : Allocator → Option (Option ℕ × Allocator) → Type 0
Serves a none = ⊥
Serves a (some (none, a')) = (g : ℕ) → g < a.nframes → ¬ IsFree a g
Serves a (some (some frame, a')) = IsIndexed a'

pop_frame-Serves :
    (a r : Allocator) → IsIndexed r → 0 < r.frame_stack_number → Serves a (pop_frame r)
pop_frame-Serves a r indexed pos = subst (Serves a) (sym (pop_frame_lem r pos)) indexed

refilled-Serves :
    (a r a' : Allocator) (frame : ℕ)
    → IsIndexed r
    → pop_frame r ≡ some (some frame, a')
    → Serves a (pop_frame r)
refilled-Serves a r a' frame indexed e = elim (ℕ_discrete r.frame_stack_number 0) [
  | yes empty ↦ absurd (ground (arith, pop_frame-none r empty))
  | no some_left ↦ pop_frame-Serves a r indexed (omega arith)
]

descend-none :
    (a : Allocator) (level : ℕ)
    → 0 < level
    → a.words (word_addr a level 0) ≡ 0
    → descend a level 0 ≡ none
unfolding descend
descend-none a zero pos top = absurd (omega arith)
descend-none a (suc level) pos top = ground arith

-- The call with an empty stack and a frame in the bitmaps.
found-Serves :
    (a : Allocator) (chunk : ℕ)
    → IsProper a
    → IsIndexed a
    → a.frame_stack_number ≡ 0
    → descend a (a.nlevels - 1) 0 ≡ some chunk
    → chunk < limit a.nframes 1
    → 0 < a.words (word_addr a 0 chunk)
    → Serves a (fetch_frame a)
unfolding fetch_frame
found-Serves a chunk p indexed empty found low pos =
    let (frame, a', returned, _, _, _, _) =
      fetch_frame-Refills a chunk empty found pos (p.words_small (word_addr a 0 chunk)) in
    elim (Option-cases (refill a chunk)) [
      | inl panics ↦ absurd (ground arith)
      | inr (r, refills) ↦
          (let same = fetch_frame-empty a r chunk empty found refills in
            subst (Serves a) (sym same) (
              refilled-Serves a r a' frame (refill-IsIndexed a p indexed chunk low r refills)
                (sym same ∙ returned)))
    ]

-- With two or more levels `fetch_frame` does not panic, it returns `None` only when no frame of the
-- region is free, and the upper bitmaps stay an index of the lower ones.
pub fetch_frame-Serves :
    (a : Allocator) → IsProper a → IsIndexed a → 1 < a.nlevels → Serves a (fetch_frame a)
unfolding fetch_frame
fetch_frame-Serves a p indexed levels = elim (ℕ_discrete a.frame_stack_number 0) [
  | no some_left ↦
      (let same : fetch_frame a ≡ pop_frame a = ground arith in
        subst (Serves a) (sym same) (pop_frame-Serves a a indexed (omega arith)))
  | yes empty ↦ elim (ℕ_discrete (a.words (word_addr a (a.nlevels - 1) 0)) 0) [
    | yes top ↦
        (let nothing = descend-none a (a.nlevels - 1) (omega arith) top in
          let same : fetch_frame a ≡ some (none, a) = ground arith in
          subst (Serves a) (sym same) (nothing-IsFree a p indexed empty top))
    | no top ↦
        (let (chunk, found, low, pos) =
            descend-finds a p indexed (a.nlevels - 1) 0 (omega arith) (top_chunk a p)
              (omega arith) in
          found-Serves a chunk p indexed empty found low pos)
  ]
]
