-- ===== src/Frames/Runs.antt =====
-- `return_frame` as an operation on the set of free frames, and sequences of calls with the frames
-- that are out.
use eurali_os.Prelude.{
  ℕ, ◌<◌, ◌≡◌, ◌≢◌, ◌↔◌, refl, sym, subst, ◌∙◌, inl, inr, arith, none, some, ℕ_discrete, List, [],
  ◌∷◌, ◌++◌,
}
use eurali_os.Frames.Proper.{InBitmap, IsFree, IsProper}
use eurali_os.Frames.Ownership.{Fetched}
use eurali_os.Frames.Fetches.{Answers, fetch_frame-Answers}
use eurali_os.Frames.Drain.{pushed}
use eurali_os.Frames.{Allocator, stack_size, fetch_frame, return_frame}

module _ (a : Allocator) (frame : ℕ) where
  top_there : (x : ℕ) → x ≡ a.frame_stack_number → (pushed frame a).frame_stack x ≡ frame
  top_there x e = ground arith

  under_there :
      (x : ℕ) → x < a.frame_stack_number → (pushed frame a).frame_stack x ≡ a.frame_stack x
  under_there x h = ground arith

  pushed-IsFree : (g : ℕ) → g ≢ frame → IsFree a g ↔ IsFree (pushed frame a) g
  pushed-IsFree g other = (there, back)
    where
      there : IsFree a g → IsFree (pushed frame a) g
      there (inl (i, under, at)) = inl (i, omega arith, under_there i under ∙ at)
      there (inr set) = inr set

      back : IsFree (pushed frame a) g → IsFree a g
      back (inl (i, under, at)) = elim (ℕ_discrete i a.frame_stack_number) [
        | yes e ↦ absurd (other (sym at ∙ top_there i e))
        | no e ↦
            (let h : i < a.frame_stack_number = omega arith in
              inl (i, h, sym (under_there i h) ∙ at))
      ]
      back (inr set) = inr set

  pushed-IsProper :
      IsProper a
      → a.frame_stack_number < stack_size
      → frame < a.nframes
      → ¬ IsFree a frame
      → IsProper (pushed frame a)
  pushed-IsProper p room inside out = record {
    laid_out = p.laid_out;
    some_levels = p.some_levels;
    one_chunk = p.one_chunk;
    words_small = p.words_small;
    in_range = p.in_range;
    in_region = λ i h. elim (ℕ_discrete i a.frame_stack_number) [
      | yes e ↦ omega (arith, top_there i e)
      | no e ↦ omega (arith, under_there i (omega arith), p.in_region i (omega arith))
    ];
    apart = λ i k h q same. elim (ℕ_discrete k a.frame_stack_number) [
      | yes e ↦
          out (inl (i, omega arith, sym (under_there i (omega arith)) ∙ (same ∙ top_there k e)))
      | no e ↦
          p.apart i k h (omega arith)
            (sym (under_there i (omega arith)) ∙ (same ∙ under_there k (omega arith)))
    ];
    taken = λ i h set. elim (ℕ_discrete i a.frame_stack_number) [
      | yes e ↦ out (inr (subst (λ g. InBitmap a g) (top_there i e) set))
      | no e ↦ p.taken i (omega arith) (subst (λ g. InBitmap a g) (under_there i (omega arith)) set)
    ];
  }

  pub return_frame-pushed :
      a.frame_stack_number < stack_size → return_frame a frame ≡ pushed frame a
  unfolding return_frame
  return_frame-pushed room = ground arith

-- What a frame that comes back does to the set of free frames.
pub record Returned (a : Allocator) (frame : ℕ) (a' : Allocator) : Type 0 where
  pub proper : IsProper a'
  pub freed : IsFree a' frame
  pub others : (g : ℕ) → g ≢ frame → IsFree a g ↔ IsFree a' g
  pub same_region : a'.nframes ≡ a.nframes

-- While the stack has room, `return_frame` on a frame of the region that is not free makes this frame
-- free and no other, and the state stays proper.
pub return_frame-Returned :
    (a : Allocator) (frame : ℕ)
    → IsProper a
    → a.frame_stack_number < stack_size
    → frame < a.nframes
    → ¬ IsFree a frame
    → Returned a frame (return_frame a frame)
return_frame-Returned a frame p room inside out =
    subst (Returned a frame) (sym (return_frame-pushed a frame room)) (record {
      proper = pushed-IsProper a frame p room inside out;
      freed = inl (a.frame_stack_number, omega arith, top_there a frame a.frame_stack_number refl);
      others = pushed-IsFree a frame;
      same_region = refl;
    })

-- One call; the list has the frames that are out.
pub data Step (a : Allocator) (out : List ℕ) : Allocator → List ℕ → Type 0 where
  fetches :
      (frame : ℕ) (a' : Allocator)
      → fetch_frame a ≡ some (some frame, a')
      → Step a out a' (frame ∷ out)
  finds_none : (a' : Allocator) → fetch_frame a ≡ some (none, a') → Step a out a' out
  returns :
      (frame : ℕ) (before after : List ℕ)
      → out ≡ before ++ (frame ∷ after)
      → a.frame_stack_number < stack_size
      → Step a out (return_frame a frame) (before ++ after)

pub data Reach (a : Allocator) (out : List ℕ) : Allocator → List ℕ → Type 0 where
  here : Reach a out a out
  next : {b c : Allocator} {xs ys : List ℕ} → Reach a out b xs → Step b xs c ys → Reach a out c ys

abbrev pub All {ℓ} : (ℕ → Type ℓ) → List ℕ → Type ℓ
All P [] = Unit
All P (x ∷ xs) = P x × All P xs

-- The frames that are out: they lie in the region, they are not free, and none is out twice.
abbrev pub AreOut : Allocator → List ℕ → Type 0
AreOut a [] = Unit
AreOut a (f ∷ fs) = (f < a.nframes) × (¬ IsFree a f) × All (λ g. g ≢ f) fs × AreOut a fs

AreOut-kept :
    (a a' : Allocator) (out : List ℕ) (frame : ℕ)
    → a'.nframes ≡ a.nframes
    → ((g : ℕ) → g < a.nframes → g ≢ frame → ¬ IsFree a g → ¬ IsFree a' g)
    → All (λ g. g ≢ frame) out
    → AreOut a out
    → AreOut a' out
AreOut-kept a a' [] frame same stays other held = tt
AreOut-kept a a' (f ∷ fs) frame same stays (o, other) (inside, out, once, held) =
    (omega arith, stays f inside o out, once, AreOut-kept a a' fs frame same stays other held)

-- A frame that was free is none of those that are out.
AreOut-free :
    (a : Allocator) (out : List ℕ) (frame : ℕ)
    → IsFree a frame
    → AreOut a out
    → All (λ g. g ≢ frame) out
AreOut-free a [] frame free held = tt
AreOut-free a (f ∷ fs) frame free (inside, out, once, held) =
    (λ e. out (subst (IsFree a) (sym e) free), AreOut-free a fs frame free held)

All-drop :
    (P : ℕ → Type 0) (before after : List ℕ) (frame : ℕ)
    → All P (before ++ (frame ∷ after))
    → All P (before ++ after) × P frame
All-drop P [] after frame (p, ps) = (ps, p)
All-drop P (x ∷ xs) after frame (p, ps) =
    let (rest, at) = All-drop P xs after frame ps in ((p, rest), at)

pub AreOut-drop :
    (a : Allocator) (before after : List ℕ) (frame : ℕ)
    → AreOut a (before ++ (frame ∷ after))
    → AreOut a (before ++ after)
      × (frame < a.nframes)
      × (¬ IsFree a frame)
      × All (λ g. g ≢ frame) (before ++ after)
AreOut-drop a [] after frame (inside, out, once, held) = (held, inside, out, once)
AreOut-drop a (x ∷ xs) after frame (inside, out, once, held) =
    let (rest, inside', out', others) = AreOut-drop a xs after frame held in
    let (once', other) = All-drop (λ g. g ≢ x) xs after frame once in
    ((inside, out, once', rest), inside', out', (λ e. other (sym e), others))

-- What holds between calls.
abbrev pub Owned : Allocator → List ℕ → Type 0
Owned a out = IsProper a × AreOut a out

pub Step-Owned : {a b : Allocator} {xs ys : List ℕ} → Step a xs b ys → Owned a xs → Owned b ys
Step-Owned {a} {b} {xs} {ys} (fetches frame a' e) (p, held) =
    let f : Fetched a frame a' = subst (Answers a) e (fetch_frame-Answers a p) in
    let same = f.same_region in
    let inside = f.in_region in
    let others = AreOut-free a xs frame f.was_free held in
    (
      f.proper,
      (
        omega arith,
        f.not_free,
        others,
        AreOut-kept a a' xs frame same (λ g h o out free. out ((f.others g h o).1 free)) others
            held,
      ),
    )
Step-Owned {a} {b} {xs} {ys} (finds_none a' e) owned =
    let same : a' ≡ a = subst (Answers a) e (fetch_frame-Answers a owned.0) in
    subst (λ c. Owned c xs) (sym same) owned
Step-Owned {a} {b} {xs} {ys} (returns frame before after e room) (p, held) =
    let (rest, inside, out, others) = AreOut-drop a before after frame (subst (AreOut a) e held) in
    let r = return_frame-Returned a frame p room inside out in
    (
      r.proper,
      AreOut-kept a (return_frame a frame) (before ++ after) frame r.same_region
          (λ g h o gone free. gone ((r.others g o).1 free)) others rest,
    )

-- No frame is handed out twice: from a proper state with no frame out, after any sequence of calls of
-- `fetch_frame`, and of `return_frame` for frames that are out while the stack has room, all frames
-- that are out lie in the region, are different from each other and are not free, and the state is
-- proper.
pub Reach-Owned :
    (a b : Allocator) (out : List ℕ) → Reach a [] b out → IsProper a → IsProper b × AreOut b out
Reach-Owned a b out run p = from run (p, tt)
  where
    from : {c : Allocator} {xs : List ℕ} → Reach a [] c xs → Owned a [] → Owned c xs
    from here owned = owned
    from (next r s) owned = Step-Owned s (from r owned)
