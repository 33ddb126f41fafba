-- ===== src/Threads/Handles.antt =====
-- The handle table of a process, kernel/src/process.rs.
use eurali_os.Prelude.{
  ℕ, zero, suc, ◌+◌, ◌<◌, ◌≡◌, refl, ◌≢◌, Option, none, some, List, [], ◌∷◌, set, arith,
  length-append, get_elem?-set_ne, sym, ap, ◌∙◌, ℕ_discrete,
}
use eurali_os.Threads.{
  position_none, add_handle, first_empty_from, give_handle, get_handle, take_handle,
}

first_empty_from_lem :
    (pos : ℕ) (hs : List (Option ℕ))
    → first_empty_from pos hs ≡ (elim (position_none hs) [ none ↦ none | some i ↦ some (pos + i) ])
unfolding first_empty_from position_none
first_empty_from_lem pos [] = refl
first_empty_from_lem pos (none ∷ hs) = ground arith
first_empty_from_lem pos (some r ∷ hs) = ground (arith, first_empty_from_lem (pos + 1) hs)

-- The two functions that add a handle, `Process::add_handle` and `Thread::give_rendezvous`, agree:
-- on every table they return the same handle and leave the same table.
pub give_handle-add_handle : (hs : List (Option ℕ)) (r : ℕ) → give_handle hs r ≡ add_handle hs r
unfolding give_handle add_handle
give_handle-add_handle hs r = ground (arith, first_empty_from_lem 0 hs)

add_handle-used :
    (x : ℕ) (hs : List (Option ℕ)) (r : ℕ)
    → add_handle (some x ∷ hs) r ≡ (some x ∷ (add_handle hs r).0, suc (add_handle hs r).1)
unfolding add_handle
add_handle-used x hs r = ground (arith, length-append hs (some r ∷ []))

-- What adding the rendezvous `r` to a table does, as a relation on the tables and the new handle.
pub record Adds (r : ℕ) (hs hs' : List (Option ℕ)) (i : ℕ) : Type 0 where
  pub was_free : get_handle hs i ≡ none
  pub stored : get_handle hs' i ≡ some r
  pub others_kept : (j : ℕ) → j ≢ i → get_handle hs' j ≡ get_handle hs j
  pub lowest : (j : ℕ) → j < i → get_handle hs j ≢ none

add_handle-Adds : (hs : List (Option ℕ)) (r : ℕ) → Adds r hs (add_handle hs r).0 (add_handle hs r).1
unfolding add_handle get_handle
add_handle-Adds [] r = record {
  was_free = refl;
  stored = refl;
  others_kept = elim [ zero ↦ (λ h. absurd (h refl)) | suc j ↦ (λ h. refl) ];
  lowest = λ j h. absurd (omega arith);
}
add_handle-Adds (none ∷ hs) r = record {
  was_free = refl;
  stored = refl;
  others_kept = elim [ zero ↦ (λ h. absurd (h refl)) | suc j ↦ (λ h. refl) ];
  lowest = λ j h. absurd (omega arith);
}
add_handle-Adds (some x ∷ hs) r =
    let rest = add_handle-Adds hs r in
    rw (add_handle-used x hs r) (record {
      was_free = rest.was_free;
      stored = rest.stored;
      others_kept = elim [
        | zero ↦ (λ h. refl)
        | suc j ↦ (λ h. rest.others_kept j (λ e. h (ap suc e)))
      ];
      lowest = elim [ zero ↦ (λ h. λ e. cc) | suc j ↦ (λ h. rest.lowest j (omega arith)) ];
    })

-- Giving a rendezvous to a process uses the lowest free handle: that handle named nothing before
-- and names the rendezvous afterwards, each lower handle was in use, and all others are unchanged.
pub give_handle_lem :
    (hs : List (Option ℕ)) (r : ℕ) → Adds r hs (give_handle hs r).0 (give_handle hs r).1
give_handle_lem hs r = rw (give_handle-add_handle hs r) (add_handle-Adds hs r)

-- Taking a handle returns what it named, leaves it empty, and changes no other handle.
pub take_handle_lem :
    (hs : List (Option ℕ)) (i : ℕ)
    → ((take_handle hs i).1 ≡ get_handle hs i)
      × (get_handle (take_handle hs i).0 i ≡ none)
      × ((j : ℕ) → j ≢ i → get_handle (take_handle hs i).0 j ≡ get_handle hs j)
unfolding take_handle get_handle
take_handle_lem hs i =
    (refl, set_none hs i, λ j h. rw (get_elem?-set_ne hs i j none (λ e. h (sym e)), get_handle))
  where
    set_none : (hs : List (Option ℕ)) (i : ℕ) → get_handle (set hs i none) i ≡ none
    set_none [] i = refl
    set_none (x ∷ hs) zero = refl
    set_none (x ∷ hs) (suc i) = set_none hs i

-- A handle that is given and then taken leads back to the rendezvous, and every handle then names
-- what it named before.
pub take-give :
    (hs : List (Option ℕ)) (r j : ℕ)
    → let (hs', i) = give_handle hs r in
      ((take_handle hs' i).1 ≡ some r) × (get_handle (take_handle hs' i).0 j ≡ get_handle hs j)
take-give hs r j =
    let given = give_handle_lem hs r in
    let taken = take_handle_lem (give_handle hs r).0 (give_handle hs r).1 in
    (
      taken.0 ∙ given.stored,
      elim (ℕ_discrete j (give_handle hs r).1) [
        | yes e ↦ rw e (taken.1 ∙ sym given.was_free)
        | no h ↦ taken.2 j h ∙ given.others_kept j h
      ],
    )
