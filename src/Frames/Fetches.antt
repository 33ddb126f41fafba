-- ===== src/Frames/Fetches.antt =====
-- `fetch_frame` from any proper state, as an operation on the set of free frames.
use eurali_os.Prelude.{
  ℕ, suc, ◌-◌, ◌<◌, ◌≡◌, refl, sym, subst, ◌∙◌, inl, inr, arith, Option, none, some, Option-cases,
  ℕ_discrete,
}
use eurali_os.Frames.Proper.{IsProper, filled, descend-below, refill-Refills}
use eurali_os.Frames.Ownership.{
  SameFree, Fetched, filled-SameFree, filled-IsProper, pop-Fetched, popped, top_of,
}
use eurali_os.Frames.Layout.{limit}
use eurali_os.Frames.Drain.{fetch_frame-empty, pop_frame-none, pop_frame_lem}
use eurali_os.Frames.{Allocator, descend, refill, pop_frame, fetch_frame}

-- A call that panics promises nothing, and one that returns `None` changes nothing.
abbrev pub Answers : Allocator → Option (Option ℕ × Allocator) → Type 0
Answers a none = Unit
Answers a (some (none, a')) = a' ≡ a
Answers a (some (some frame, a')) = Fetched a frame a'

pop_frame-Answers : (a : Allocator) → IsProper a → Answers a (pop_frame a)
pop_frame-Answers a p = elim (ℕ_discrete a.frame_stack_number 0) [
  | yes empty ↦ subst (Answers a) (sym (pop_frame-none a empty)) tt
  | no some_left ↦
      (let pos : 0 < a.frame_stack_number = omega arith in
        subst (Answers a) (sym (pop_frame_lem a pos)) (pop-Fetched a p pos))
]

Fetched-through :
    (a r : Allocator) (frame : ℕ) (r' : Allocator)
    → r.nframes ≡ a.nframes
    → r.nlevels ≡ a.nlevels
    → SameFree a r
    → Fetched r frame r'
    → Fetched a frame r'
Fetched-through a r frame r' same levels free f =
    let region = f.in_region in
    let levels' = f.same_levels in
    let same' = f.same_region in
    let inside : frame < a.nframes = omega arith in
    record {
      was_free = (free frame inside).1 f.was_free;
      in_region = inside;
      not_free = f.not_free;
      others = λ g h other.
          (let (to, from) = free g h in
            let (to', from') = f.others g (omega arith) other in
            (λ x. to' (to x), λ x. from (from' x)));
      proper = f.proper;
      same_region = same' ∙ same;
      same_levels = levels' ∙ levels;
    }

-- The end of a call that had to refill the stack.
refilled-Answers :
    (a r : Allocator)
    → r.nframes ≡ a.nframes
    → r.nlevels ≡ a.nlevels
    → SameFree a r
    → IsProper r
    → Answers a (pop_frame r)
refilled-Answers a r same levels free p = elim (ℕ_discrete r.frame_stack_number 0) [
  | yes empty ↦ subst (Answers a) (sym (pop_frame-none r empty)) tt
  | no some_left ↦
      (let pos : 0 < r.frame_stack_number = omega arith in
        subst (Answers a) (sym (pop_frame_lem r pos)) (
          Fetched-through a r (r.frame_stack (top_of r)) (popped r) same levels free
            (pop-Fetched r p pos)))
]

refill-Answers :
    (a r : Allocator) (chunk : ℕ)
    → IsProper a
    → a.frame_stack_number ≡ 0
    → chunk < limit a.nframes 1
    → refill a chunk ≡ some r
    → Answers a (pop_frame r)
refill-Answers a r chunk p empty low done =
    let (s, n, w, shape, refills) = refill-Refills a r chunk p low done in
    subst (λ x. Answers a (pop_frame x)) (sym shape)
      (refilled-Answers a (filled a s n w) refl refl
        (filled-SameFree a chunk n s w empty p low refills)
        (filled-IsProper a chunk n s w empty p low refills))

pub top_chunk : (a : Allocator) → IsProper a → 0 < limit a.nframes (suc (a.nlevels - 1))
top_chunk a p =
    let pos = p.some_levels in
    let e : suc (a.nlevels - 1) ≡ a.nlevels = omega arith in rw (e, p.one_chunk) (omega arith)

-- `fetch_frame` hands out a frame of the region that was free and is not free any more, and does not
-- change which of the other frames are free; when it returns `None` the allocator is as before. In
-- both cases the state stays proper.
pub fetch_frame-Answers : (a : Allocator) → IsProper a → Answers a (fetch_frame a)
unfolding fetch_frame
fetch_frame-Answers a p = elim (ℕ_discrete a.frame_stack_number 0) [
  | no some_left ↦
      (let same : fetch_frame a ≡ pop_frame a = ground arith in
        subst (Answers a) (sym same) (pop_frame-Answers a p))
  | yes empty ↦ elim (Option-cases (descend a (a.nlevels - 1) 0)) [
    | inl nothing ↦
        (let same : fetch_frame a ≡ some (none, a) = ground arith in
          subst (Answers a) (sym same) refl)
    | inr (chunk, found) ↦ elim (Option-cases (refill a chunk)) [
      | inl panics ↦
          (let same : fetch_frame a ≡ none = ground arith in subst (Answers a) (sym same) tt)
      | inr (r, refills) ↦
          (let pos = p.some_levels in
            let low : chunk < limit a.nframes 1 =
              descend-below a (a.nlevels - 1) 0 chunk p (omega arith) (top_chunk a p) found in
            subst (Answers a) (sym (fetch_frame-empty a r chunk empty found refills))
              (refill-Answers a r chunk p empty low refills))
    ]
  ]
]
