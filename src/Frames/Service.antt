-- ===== src/Frames/Service.antt =====
-- Sequences of calls of the frame allocator: no frame gets lost, and every call is served.
use eurali_os.Prelude.{
  ℕ, ◌<◌, ◌≡◌, ◌≢◌, ◌⊎◌, ◌↔◌, refl, sym, ap, subst, ◌∙◌, inl, inr, arith, ℕ_discrete, List, [], ◌∷◌,
  ◌++◌,
}
use eurali_os.Frames.Proper.{IsFree, IsProper}
use eurali_os.Frames.Index.{IsIndexed}
use eurali_os.Frames.Complete.{Serves, fetch_frame-Serves}
use eurali_os.Frames.Ownership.{Fetched}
use eurali_os.Frames.Fetches.{Answers, fetch_frame-Answers}
use eurali_os.Frames.Runs.{
  Step, fetches, finds_none, returns, Reach, here, next, Owned, Step-Owned, AreOut, AreOut-drop,
  return_frame-Returned, return_frame-pushed,
}
use eurali_os.Frames.{Allocator, fetch_frame, return_frame}

-- The frame is in the list.
abbrev pub Among : ℕ → List ℕ → Type 0
Among g [] = ⊥
Among g (f ∷ fs) = (g ≡ f) ⊎ Among g fs

Among-drop :
    (before after : List ℕ) (frame g : ℕ)
    → g ≢ frame
    → Among g (before ++ (frame ∷ after))
    → Among g (before ++ after)
Among-drop [] after frame g other (inl e) = absurd (other e)
Among-drop [] after frame g other (inr m) = m
Among-drop (x ∷ xs) after frame g other (inl e) = inl e
Among-drop (x ∷ xs) after frame g other (inr m) = inr (Among-drop xs after frame g other m)

Among-add :
    (before after : List ℕ) (frame g : ℕ)
    → Among g (before ++ after)
    → Among g (before ++ (frame ∷ after))
Among-add [] after frame g m = inr m
Among-add (x ∷ xs) after frame g (inl e) = inl e
Among-add (x ∷ xs) after frame g (inr m) = inr (Among-add xs after frame g m)

Among-middle :
    (before after : List ℕ) (frame g : ℕ)
    → g ≢ frame
    → Among g (before ++ (frame ∷ after)) ↔ Among g (before ++ after)
Among-middle before after frame g other =
    (Among-drop before after frame g other, Among-add before after frame g)

Among-there : (before after : List ℕ) (frame : ℕ) → Among frame (before ++ (frame ∷ after))
Among-there [] after frame = inl refl
Among-there (x ∷ xs) after frame = inr (Among-there xs after frame)

-- The frames that a client could have: free, or out.
abbrev pub Exists : Allocator → List ℕ → ℕ → Type 0
Exists a out g = IsFree a g ⊎ Among g out

Exists-both : {A B C D : Type 0} → A ↔ C → B ↔ D → (A ⊎ B) ↔ (C ⊎ D)
Exists-both {A = A} {B = B} {C = C} {D = D} (f, f') (g, g') = (there, back)
  where
    there : A ⊎ B → C ⊎ D
    there (inl x) = inl (f x)
    there (inr y) = inr (g y)

    back : C ⊎ D → A ⊎ B
    back (inl x) = inl (f' x)
    back (inr y) = inr (g' y)

Step-Exists :
    {a b : Allocator} {xs ys : List ℕ}
    → Step a xs b ys
    → Owned a xs
    → (g : ℕ) → g < a.nframes
    → Exists a xs g ↔ Exists b ys g
Step-Exists {a} {b} {xs} {ys} (fetches frame a' e) (p, held) g h =
    let f : Fetched a frame a' = subst (Answers a) e (fetch_frame-Answers a p) in
    elim (ℕ_discrete g frame) [
      | yes same ↦ ((λ x. inr (inl same)), (λ x. inl (subst (IsFree a) (sym same) f.was_free)))
      | no other ↦
          (let (there, back) = Among-middle [] xs frame g other in
            Exists-both (f.others g h other) (back, there))
    ]
Step-Exists {a} {b} {xs} {ys} (finds_none a' e) (p, held) g h =
    let same : a' ≡ a = subst (Answers a) e (fetch_frame-Answers a p) in
    subst (λ c. Exists a xs g ↔ Exists c xs g) (sym same) ((λ x. x), (λ x. x))
Step-Exists {a} {b} {xs} {ys} (returns frame before after e room) (p, held) g h =
    let (_, inside, out, _) = AreOut-drop a before after frame (subst (AreOut a) e held) in
    let r = return_frame-Returned a frame p room inside out in
    subst (λ zs. Exists a zs g ↔ Exists (return_frame a frame) (before ++ after) g) (sym e)
      (elim (ℕ_discrete g frame) [
        | yes same ↦ (
          (λ x. inl (subst (IsFree (return_frame a frame)) (sym same) r.freed)),
          (λ x. inr (
              subst (λ y. Among y (before ++ (frame ∷ after))) (sym same)
                (Among-there before after frame))),
        )
        | no other ↦ Exists-both (r.others g other) (Among-middle before after frame g other)
      ])

Step-Same :
    {a b : Allocator} {xs ys : List ℕ}
    → Step a xs b ys
    → Owned a xs
    → (b.nframes ≡ a.nframes) × (b.nlevels ≡ a.nlevels)
Step-Same {a} {b} {xs} {ys} (fetches frame a' e) (p, held) =
    let f : Fetched a frame a' = subst (Answers a) e (fetch_frame-Answers a p) in
    (f.same_region, f.same_levels)
Step-Same {a} {b} {xs} {ys} (finds_none a' e) (p, held) =
    let same : a' ≡ a = subst (Answers a) e (fetch_frame-Answers a p) in
    (ap (λ (c : Allocator). c.nframes) same, ap (λ (c : Allocator). c.nlevels) same)
Step-Same {a} {b} {xs} {ys} (returns frame before after e room) (p, held) =
    let same = return_frame-pushed a frame room in
    (ap (λ (c : Allocator). c.nframes) same, ap (λ (c : Allocator). c.nlevels) same)

Step-IsIndexed :
    {a b : Allocator} {xs ys : List ℕ}
    → Step a xs b ys
    → Owned a xs
    → 1 < a.nlevels
    → IsIndexed a
    → IsIndexed b
Step-IsIndexed {a} {b} {xs} {ys} (fetches frame a' e) (p, held) levels indexed =
    subst (Serves a) e (fetch_frame-Serves a p indexed levels)
Step-IsIndexed {a} {b} {xs} {ys} (finds_none a' e) (p, held) levels indexed =
    let same : a' ≡ a = subst (Answers a) e (fetch_frame-Answers a p) in
    subst IsIndexed (sym same) indexed
Step-IsIndexed {a} {b} {xs} {ys} (returns frame before after e room) (p, held) levels indexed =
    subst IsIndexed (sym (return_frame-pushed a frame room)) indexed

-- What a run keeps, from the allocator `a` it started with.
record Runs (a b : Allocator) (out : List ℕ) : Type 0 where
  owned : Owned b out
  same_region : b.nframes ≡ a.nframes
  same_levels : b.nlevels ≡ a.nlevels
  exists : (g : ℕ) → g < a.nframes → IsFree a g ↔ Exists b out g

Runs-here : (a : Allocator) → IsProper a → Runs a a []
Runs-here a p = record {
  owned = (p, tt);
  same_region = refl;
  same_levels = refl;
  exists = λ g h. (inl, back g);
}
  where
    back : (g : ℕ) → Exists a [] g → IsFree a g
    back g (inl x) = x
    back g (inr m) = absurd m

Runs-next : (a b c : Allocator) (xs ys : List ℕ) → Runs a b xs → Step b xs c ys → Runs a c ys
Runs-next a b c xs ys r s =
    let (region, levels) = Step-Same s r.owned in
    let region' = r.same_region in
    record {
      owned = Step-Owned s r.owned;
      same_region = region ∙ region';
      same_levels = levels ∙ r.same_levels;
      exists = λ g h.
          (let (there, back) = r.exists g h in
            let (there', back') = Step-Exists s r.owned g (omega arith) in
            (λ x. there' (there x), λ x. back (back' x)));
    }

Reach-Runs : {a b : Allocator} {out : List ℕ} → Reach a [] b out → IsProper a → Runs a b out
Reach-Runs {a} here p = Runs-here a p
Reach-Runs {a = a} {b = c} {out = ys} (next {b = b} {xs = xs} r s) p =
    Runs-next a b c xs ys (Reach-Runs r p) s

-- No frame gets lost and none appears: from a proper state, after any sequence of calls of
-- `fetch_frame`, and of `return_frame` for frames that are out while the stack has room, the frames of
-- the region that were free at the start are those that are free or out.
pub Reach-Exists :
    (a b : Allocator) (out : List ℕ)
    → Reach a [] b out
    → IsProper a
    → (g : ℕ) → g < a.nframes
    → IsFree a g ↔ Exists b out g
Reach-Exists a b out run p = (Reach-Runs run p).exists

Reach-IsIndexed :
    {a b : Allocator} {out : List ℕ}
    → Reach a [] b out
    → IsProper a
    → IsIndexed a
    → 1 < a.nlevels
    → IsIndexed b
Reach-IsIndexed here p indexed levels = indexed
Reach-IsIndexed (next r s) p indexed levels =
    let runs = Reach-Runs r p in
    let same = runs.same_levels in
    Step-IsIndexed s runs.owned (omega arith) (Reach-IsIndexed r p indexed levels)

-- For an allocator of two or more levels, in a proper state whose upper bitmaps are an index of the
-- lower ones: after any sequence of calls of `fetch_frame`, and of `return_frame` for frames that are
-- out while the stack has room, the next `fetch_frame` does not panic, and it returns `None` only when
-- no frame of the region is free.
pub Reach-Serves :
    (a b : Allocator) (out : List ℕ)
    → Reach a [] b out
    → IsProper a
    → IsIndexed a
    → 1 < a.nlevels
    → Serves b (fetch_frame b)
Reach-Serves a b out run p indexed levels =
    let runs = Reach-Runs run p in
    let same = runs.same_levels in
    let (proper, _) = runs.owned in
    fetch_frame-Serves b proper (Reach-IsIndexed run p indexed levels) (omega arith)
