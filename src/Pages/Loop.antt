-- ===== src/Pages/Loop.antt =====
-- Steps that give back frames, and the loop over the entries of a table.
use eurali_os.Prelude.{
  ℕ, zero, suc, ◌+◌, ◌≤◌, ◌<◌, ◌≡◌, ◌⊎◌, ◌↔◌, refl, sym, ap, subst, ◌∙◌, inl, inr, arith, Option,
  none, some, Bool, true, false, List, [], ◌∷◌, ◌++◌, ℕ_discrete,
}
use eurali_os.Frames.{Allocator, deallocate_frame}
use eurali_os.Frames.Service.{Among}
use eurali_os.Pages.{PageOps, each_entry}

-- `deallocate_frame` for each of the frames, in order.
unfoldable pub deallocate_all : Allocator → List ℕ → Allocator
deallocate_all a [] = a
deallocate_all a (start ∷ starts) = deallocate_all (deallocate_frame a start) starts

pub deallocate_all-append :
    (xs ys : List ℕ) (a : Allocator)
    → deallocate_all a (xs ++ ys) ≡ deallocate_all (deallocate_all a xs) ys
unfolding deallocate_all
deallocate_all-append [] ys a = refl
deallocate_all-append (x ∷ xs) ys a = deallocate_all-append xs ys (deallocate_frame a x)

pub Among-append : (xs ys : List ℕ) (x : ℕ) → Among x (xs ++ ys) → Among x xs ⊎ Among x ys
Among-append [] ys x m = inr m
Among-append (z ∷ xs) ys x (inl e) = inl (inl e)
Among-append (z ∷ xs) ys x (inr m) = elim (Among-append xs ys x m) [
  | inl l ↦ inl (inr l)
  | inr r ↦ inr r
]

pub Among-left : (xs ys : List ℕ) (x : ℕ) → Among x xs → Among x (xs ++ ys)
Among-left [] ys x m = absurd m
Among-left (z ∷ xs) ys x (inl e) = inl e
Among-left (z ∷ xs) ys x (inr m) = inr (Among-left xs ys x m)

pub Among-right : (xs ys : List ℕ) (x : ℕ) → Among x ys → Among x (xs ++ ys)
Among-right [] ys x m = m
Among-right (z ∷ xs) ys x m = inr (Among-right xs ys x m)

pub not_both : {b : Bool} → b ≡ true → b ≡ false → ⊥
not_both e f = ground arith

-- A step that gives back the frames of `Q`, and no other.
abbrev pub GivesBack : (Allocator → Option Allocator) → (ℕ → Type 0) → Type 0
GivesBack step Q =
    (a : Allocator)
    → (starts : List ℕ) × (step a ≡ some (deallocate_all a starts))
      × ((x : ℕ) → Among x starts ↔ Q x)

pub nothing :
    (step : Allocator → Option Allocator) (Q : ℕ → Type 0)
    → ((a : Allocator) → step a ≡ some a)
    → ((x : ℕ) → ¬ Q x)
    → GivesBack step Q
unfolding deallocate_all
nothing step Q same none_there a = ([], same a, λ x. ((λ m. absurd m), none_there x))

pub one :
    (step : Allocator → Option Allocator) (Q : ℕ → Type 0) (start : ℕ)
    → ((a : Allocator) → step a ≡ some (deallocate_frame a start))
    → ((x : ℕ) → (x ≡ start) ↔ Q x)
    → GivesBack step Q
unfolding deallocate_all
one step Q start same only a = (start ∷ [], same a, λ x. (there x, λ q. inl ((only x).1 q)))
  where
    there : (x : ℕ) → Among x (start ∷ []) → Q x
    there x (inl e) = (only x).0 e
    there x (inr m) = absurd m

module _ {Entry : Type 0} (ops : PageOps Entry) where
  each_entry-next :
      (step : Allocator → Entry → Option Allocator) (table : ℕ → Entry) (rounds ind : ℕ)
      (a a' : Allocator)
      → step a (table ind) ≡ some a'
      → each_entry ops step table (suc rounds) ind a ≡ each_entry ops step table rounds (ind + 1) a'
  unfolding each_entry
  each_entry-next step table rounds ind a a' e =
      ap
        (λ (o : Option Allocator). elim o as (λ _. Option Allocator) [
          | none ↦ none
          | some b ↦ each_entry ops step table rounds (ind + 1) b
        ])
        e

  pub each_entry-GivesBack :
      (step : Allocator → Entry → Option Allocator) (table : ℕ → Entry) (Q : Entry → ℕ → Type 0)
      → ((ind : ℕ) → GivesBack (λ a. step a (table ind)) (Q (table ind)))
      → (rounds first : ℕ)
      → GivesBack
          (each_entry ops step table rounds first)
          (λ x. (ind : ℕ) × (first ≤ ind) × (ind < first + rounds) × Q (table ind) x)
  unfolding each_entry deallocate_all
  each_entry-GivesBack step table Q one_step zero first a =
      ([], refl, λ x. ((λ m. absurd m), λ (ind, lo, hi, q). absurd (omega arith)))
  each_entry-GivesBack step table Q one_step (suc rounds) first a =
      let (xs, stepped, these) = one_step first a in
      let (ys, rest, those) =
        each_entry-GivesBack step table Q one_step rounds (first + 1) (deallocate_all a xs) in
      (
        xs ++ ys,
        each_entry-next step table rounds first a (deallocate_all a xs) stepped
            ∙ (rest ∙ ap some (sym (deallocate_all-append xs ys a))),
        λ x. (there xs ys these those x, back xs ys these those x),
      )
    where
      there :
          (xs ys : List ℕ)
          → ((x : ℕ) → Among x xs ↔ Q (table first) x)
          → ((x : ℕ)
              → Among x ys
                ↔ ((ind : ℕ) × (first + 1 ≤ ind) × (ind < first + 1 + rounds) × Q (table ind) x))
          → (x : ℕ) → Among x (xs ++ ys)
          → (ind : ℕ) × (first ≤ ind) × (ind < first + suc rounds) × Q (table ind) x
      there xs ys these those x m = elim (Among-append xs ys x m) [
        | inl l ↦ (first, omega arith, omega arith, (these x).0 l)
        | inr r ↦ (let (ind, lo, hi, q) = (those x).0 r in (ind, omega arith, omega arith, q))
      ]

      back :
          (xs ys : List ℕ)
          → ((x : ℕ) → Among x xs ↔ Q (table first) x)
          → ((x : ℕ)
              → Among x ys
                ↔ ((ind : ℕ) × (first + 1 ≤ ind) × (ind < first + 1 + rounds) × Q (table ind) x))
          → (x : ℕ) → (ind : ℕ) × (first ≤ ind) × (ind < first + suc rounds) × Q (table ind) x
          → Among x (xs ++ ys)
      back xs ys these those x (ind, lo, hi, q) = elim (ℕ_discrete first ind) [
        | yes e ↦ Among-left xs ys x ((these x).1 (subst (λ i. Q (table i) x) (sym e) q))
        | no e ↦ Among-right xs ys x ((those x).1 (ind, omega arith, omega arith, q))
      ]
