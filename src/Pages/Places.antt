-- ===== src/Pages/Places.antt =====
-- Which slot and which frame `allocate_user_stack` takes.
use eurali_os.Prelude.{
  ℕ, zero, suc, ◌+◌, ◌*◌, ◌%◌, ◌≤◌, ◌<◌, ◌≡◌, ◌⊎◌, refl, sym, subst, inl, inr, arith, Option, none,
  some, Option-cases, true, false, Bool-cases, ℕ_discrete,
}
use eurali_os.Frames.{Allocator, allocate_frame}
use eurali_os.Chunks.{Tables}
use eurali_os.Pages.{PageOps}
use eurali_os.Pages.Written.{HasStack, write_stack-HasStack}
use eurali_os.Pages.Stacks.{
  StackResult, done, failed, slots_full, failed_to_allocate, stack_slot_address, write_stack,
  find_stack_slot, place_stack,
}

module _ {Entry : Type 0} (ops : PageOps Entry) where
  -- The slot found is the first that is not used, from slot `n_start % 64` on and around.
  abbrev pub IsFirst : ℕ → ℕ → (ℕ → Entry) → ℕ → Type 0
  IsFirst first n_start table n =
      (i : ℕ) × (first ≤ i)
      × (i < 64)
      × (n ≡ (n_start + i) % 64)
      × (ops.table_ops.is_unused (table (n * 8 + 1)) ≡ true)
      × ((j : ℕ)
          → first ≤ j
          → j < i
          → ops.table_ops.is_unused (table ((n_start + j) % 64 * 8 + 1)) ≡ false)

  find_stack_slot-IsFirst :
      (rounds first n_start : ℕ) (table : ℕ → Entry) (n : ℕ)
      → first + rounds ≡ 64
      → find_stack_slot ops rounds first n_start table ≡ some n
      → IsFirst first n_start table n
  unfolding find_stack_slot
  find_stack_slot-IsFirst zero first n_start table n sum e = absurd (ground arith)
  find_stack_slot-IsFirst (suc rounds) first n_start table n sum e =
      elim (Bool-cases (ops.table_ops.is_unused (table ((n_start + first) % 64 * 8 + 1)))) [
        | inl unused ↦
            (let same : (n_start + first) % 64 ≡ n = ground arith in
              (
                first,
                omega arith,
                omega arith,
                sym same,
                subst (λ x. ops.table_ops.is_unused (table (x * 8 + 1)) ≡ true) same unused,
                λ j lo hi. absurd (omega arith),
              ))
        | inr used ↦
            (let rest : find_stack_slot ops rounds (first + 1) n_start table ≡ some n =
                ground arith in
              let (i, lo, hi, at, unused, before) =
                find_stack_slot-IsFirst rounds (first + 1) n_start table n (omega arith) rest in
              (
                i,
                omega arith,
                hi,
                at,
                unused,
                λ j low under. elim (ℕ_discrete first j) [
                  | yes e ↦
                      subst
                        (λ x. ops.table_ops.is_unused (table ((n_start + x) % 64 * 8 + 1)) ≡ false)
                        e used
                  | no e ↦ before j (omega arith) under
                ],
              ))
      ]

  -- What a stack that was allocated looks like.
  pub record Placed (t : Tables Entry) (table n_start stack_start stack_end : ℕ) (t' : Tables Entry)
      : Type 0 where
    pub slot : ℕ
    pub frame : ℕ
    pub rest : Allocator
    pub first : IsFirst 0 n_start (t.entries table) slot
    pub allocated : allocate_frame t.frame_allocator ≡ some (some frame, rest)
    pub starts : stack_start ≡ stack_slot_address slot + 4096
    pub ends : stack_end ≡ stack_slot_address slot + 8 * 4096
    pub written : HasStack ops slot table frame (record t { frame_allocator = rest }) t'

  abbrev pub Places : Tables Entry → ℕ → ℕ → Option (StackResult (ℕ × ℕ) × Tables Entry) → Type 0
  Places t table n_start none = Unit
  Places t table n_start (some (failed e, t')) = t'.entries ≡ t.entries
  Places t table n_start (some (done (stack_start, stack_end), t')) =
      Placed t table n_start stack_start stack_end t'

  pub frame_cases :
      (o : Option (Option ℕ × Allocator))
      → (o ≡ none)
        ⊎ (((a : Allocator) × (o ≡ some (none, a)))
            ⊎ ((frame : ℕ) × (a : Allocator) × (o ≡ some (some frame, a))))
  frame_cases none = inl refl
  frame_cases (some (none, a)) = inr (inl (a, refl))
  frame_cases (some (some frame, a)) = inr (inr (frame, a, refl))

  placed_in :
      (t : Tables Entry) (table n_start n frame : ℕ) (a : Allocator)
      → find_stack_slot ops 64 0 n_start (t.entries table) ≡ some n
      → allocate_frame t.frame_allocator ≡ some (some frame, a)
      → Places t table n_start (place_stack ops t table n_start)
  unfolding place_stack
  placed_in t table n_start n frame a found allocated =
      let t₁ = record t { frame_allocator = a } in
      elim (Option-cases (write_stack ops n table frame t₁)) [
        | inl panics ↦
            (let same : place_stack ops t table n_start ≡ none = ground arith in
              subst (Places t table n_start) (sym same) tt)
        | inr (t', writes) ↦
            (let result : Option (StackResult (ℕ × ℕ) × Tables Entry) =
                some (done (stack_slot_address n + 4096, stack_slot_address n + 8 * 4096), t') in
              let same : place_stack ops t table n_start ≡ result = ground arith in
              subst (Places t table n_start) (sym same) (record {
                slot = n;
                frame = frame;
                rest = a;
                first = find_stack_slot-IsFirst 64 0 n_start (t.entries table) n refl found;
                allocated = allocated;
                starts = refl;
                ends = refl;
                written = write_stack-HasStack ops n table frame t₁ t' writes;
              }))
      ]

  -- The stack that `allocate_user_stack` puts in the level 1 table of the stacks: it takes the first
  -- slot that is not used, around from `n_start`, and one frame; the pages of the slot but the guard
  -- map that frame, the last one writable and the others read-only; no other entry changes. On an
  -- error no entry changes at all.
  pub place_stack-Places :
      (t : Tables Entry) (table n_start : ℕ)
      → Places t table n_start (place_stack ops t table n_start)
  unfolding place_stack
  place_stack-Places t table n_start =
      elim (Option-cases (find_stack_slot ops 64 0 n_start (t.entries table))) [
        | inl full ↦
            (let same : place_stack ops t table n_start ≡ some (failed slots_full, t) =
                ground arith in
              subst (Places t table n_start) (sym same) refl)
        | inr (n, found) ↦ elim (frame_cases (allocate_frame t.frame_allocator)) [
          | inl panics ↦
              (let same : place_stack ops t table n_start ≡ none = ground arith in
                subst (Places t table n_start) (sym same) tt)
          | inr (inl (a, empty)) ↦
              (let same : place_stack ops t table n_start
                    ≡ some (failed failed_to_allocate, record t { frame_allocator = a }) =
                  ground arith in
                subst (Places t table n_start) (sym same) refl)
          | inr (inr (frame, a, allocated)) ↦ placed_in t table n_start n frame a found allocated
        ]
      ]
