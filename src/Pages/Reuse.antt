-- ===== src/Pages/Reuse.antt =====
-- A stack that is allocated and freed again.
use eurali_os.Prelude.{
  ℕ, zero, suc, ◌+◌, ◌-◌, ◌*◌, ◌≤◌, ◌<◌, ◌≡◌, refl, sym, ap, subst, ◌∙◌, inl, inr, arith, Option,
  none, some, true, false, Bool-cases, ◌==◌, ltb, ℕ_discrete,
}
use eurali_os.Frames.{Allocator, allocate_frame, deallocate_frame}
use eurali_os.Chunks.{Tables, write_entry}
use eurali_os.Pages.{PageOps}
use eurali_os.Pages.Written.{HasStack, same_entry, other_entry}
use eurali_os.Pages.Places.{IsFirst, Placed, Places, place_stack-Places}
use eurali_os.Pages.Stacks.{
  done, stack_slot_address, place_stack, free_stack_page, free_stack_pages, free_user_stack,
  active_level_1_table_containing,
}

module _ {Entry : Type 0} (ops : PageOps Entry) where
  -- A page keeps its address when its flags are cleared.
  cleared_addr :
      (t : Tables Entry) (table index k : ℕ)
      → ops.table_ops.addr
          ((write_entry t table index (ops.set_flags (t.entries table index) 0)).entries table k)
        ≡ ops.table_ops.addr (t.entries table k)
  cleared_addr t table index k =
      let e = ops.set_flags (t.entries table index) 0 in
      elim (ℕ_discrete index k) [
        | yes same ↦
            ap ops.table_ops.addr (same_entry ops t table index e k same)
            ∙ (ops.addr-set_flags (t.entries table index) 0
                ∙ ap (λ x. ops.table_ops.addr (t.entries table x)) same)
        | no other ↦ ap ops.table_ops.addr (other_entry ops t table index e k other)
      ]

  next_page :
      (rounds index table : ℕ) (t t₁ : Tables Entry)
      → free_stack_page ops t table index ≡ some t₁
      → free_stack_pages ops (suc rounds) index t table
        ≡ free_stack_pages ops rounds (index - 1) t₁ table
  unfolding free_stack_pages
  next_page rounds index table t t₁ first =
      ap
        (λ (o : Option (Tables Entry)). elim o as (λ _. Option (Tables Entry)) [
          | none ↦ none
          | some u ↦ free_stack_pages ops rounds (index - 1) u table
        ])
        first

  -- Read-only pages: no frame is given back.
  free_read_only :
      (rounds index table : ℕ) (t : Tables Entry)
      → rounds ≤ index + 1
      → ((k : ℕ)
          → k ≤ index
          → index < k + rounds
          → ops.flags (t.entries table k) ≡ ops.read_only_flags)
      → (t' : Tables Entry) × (free_stack_pages ops rounds index t table ≡ some t')
        × (t'.frame_allocator ≡ t.frame_allocator)
        × ((k : ℕ)
            → ops.table_ops.addr (t'.entries table k) ≡ ops.table_ops.addr (t.entries table k))
  unfolding free_stack_pages free_stack_page
  free_read_only zero index table t fits shared = (t, refl, refl, λ k. refl)
  free_read_only (suc rounds) index table t fits shared =
      let entry = t.entries table index in
      let kept : ops.contains (ops.flags entry) ops.writable ≡ false =
        ap (λ f. ops.contains f ops.writable) (shared index (omega arith) (omega arith))
        ∙ ops.contains-read_only_flags in
      let t₁ = write_entry t table index (ops.set_flags entry 0) in
      let first : free_stack_page ops t table index ≡ some t₁ = ground arith in
      let (t', rest, same, addrs) =
        free_read_only rounds (index - 1) table t₁ (omega arith) (λ k low high.
          ap ops.flags
            (other_entry ops t table index (ops.set_flags entry 0) k (λ q. absurd (omega arith)))
          ∙ shared k (omega arith) (omega arith)) in
      (
        t',
        next_page rounds index table t t₁ first ∙ rest,
        same,
        λ k. addrs k ∙ cleared_addr t table index k,
      )

  -- The whole stack: one frame is given back.
  free_slot :
      (n table frame : ℕ) (t t' : Tables Entry)
      → HasStack ops n table frame t t'
      → (t₂ : Tables Entry) × (free_stack_pages ops 7 (n * 8 + 7) t' table ≡ some t₂)
        × (t₂.frame_allocator ≡ deallocate_frame t'.frame_allocator frame)
        × ((k : ℕ)
            → ops.table_ops.addr (t₂.entries table k) ≡ ops.table_ops.addr (t'.entries table k))
  unfolding free_stack_page
  free_slot n table frame t t' stack =
      let entry = t'.entries table (n * 8 + 7) in
      let (at, flags) = stack.top in
      let owned : ops.contains (ops.flags entry) ops.writable ≡ true =
        ap (λ f. ops.contains f ops.writable) flags ∙ ops.contains-user_flags in
      let start : ops.frame entry ≡ some frame = ops.frame-user_flags entry flags ∙ ap some at in
      let t₁ =
        write_entry (record t' { frame_allocator = deallocate_frame t'.frame_allocator frame })
          table (n * 8 + 7) (ops.set_flags entry 0) in
      let first : free_stack_page ops t' table (n * 8 + 7) ≡ some t₁ = ground arith in
      let (t₂, rest, same, addrs) =
        free_read_only 6 (n * 8 + 7 - 1) table t₁ (omega arith)
          (λ k low high. flags_below k low high) in
      (
        t₂,
        next_page 6 (n * 8 + 7) table t' t₁ first ∙ rest,
        same,
        λ k. addrs k ∙ cleared_addr t' table (n * 8 + 7) k,
      )
    where
      flags_below :
          (k : ℕ)
          → k ≤ n * 8 + 7 - 1
          → n * 8 + 7 - 1 < k + 6
          → ops.flags (
              (write_entry
                  (record t' { frame_allocator = deallocate_frame t'.frame_allocator frame })
                  table
                  (n * 8 + 7)
                  (ops.set_flags (t'.entries table (n * 8 + 7)) 0)).entries
                table k)
            ≡ ops.read_only_flags
      flags_below k low high =
          let e : n * 8 + (k - n * 8) ≡ k = omega arith in
          let (_, shared) = stack.shared (k - n * 8) (omega arith) (omega arith) in
          ap ops.flags (
            other_entry ops t' table (n * 8 + 7) (ops.set_flags (t'.entries table (n * 8 + 7)) 0) k
              (λ q. absurd (omega arith)))
          ∙ subst (λ x. ops.flags (t'.entries table x) ≡ ops.read_only_flags) e shared

  p1_of_end : (n : ℕ) → n < 64 → ops.p1_index (stack_slot_address n + 8 * 4096 - 1) ≡ n * 8 + 7
  unfolding stack_slot_address
  p1_of_end n h = ops.p1_index_lem (stack_slot_address n + 8 * 4096 - 1) ∙ omega arith

  not_zero : (v : ℕ) → 0 < v → (v == 0) ≡ false
  not_zero v pos = ground arith

  not_low : (i : ℕ) → 6 ≤ i → ltb i 6 ≡ false
  not_low i h = ground arith

  free_user_stack-pages :
      (t : Tables Entry) (l4 v iend table : ℕ)
      → 0 < v
      → ops.p1_index (v - 1) ≡ iend
      → 6 ≤ iend
      → active_level_1_table_containing ops t l4 (v - 1) ≡ table
      → free_user_stack ops t l4 v ≡ free_stack_pages ops 7 iend t table
  unfolding free_user_stack
  free_user_stack-pages t l4 v iend table pos at high walk =
      let nonzero = not_zero v pos in
      let enough = not_low iend high in rw (free_user_stack, nonzero, at, enough, walk) refl

  slot_small :
      (first n_start : ℕ) (table : ℕ → Entry) (n : ℕ) → IsFirst ops first n_start table n → n < 64
  slot_small first n_start table n (i, _, _, at, _, _) = omega arith

  -- Freeing a stack directly after it was allocated, in a page table that leads to it:
  -- `free_user_stack` does not panic and gives back the one frame that was allocated, but the first
  -- page of the slot, which `allocate_user_stack` looks at, is not unused afterwards when the address
  -- of the frame is not 0.
  pub free_user_stack-place_stack :
      (t t' : Tables Entry) (table n_start stack_start stack_end l4 : ℕ)
      → place_stack ops t table n_start ≡ some (done (stack_start, stack_end), t')
      → active_level_1_table_containing ops t' l4 (stack_end - 1) ≡ table
      → (n : ℕ) × (frame : ℕ) × (a : Allocator) × (t₂ : Tables Entry) × (allocate_frame
            t.frame_allocator
          ≡ some (some frame, a))
        × (free_user_stack ops t' l4 stack_end ≡ some t₂)
        × (t₂.frame_allocator ≡ deallocate_frame a frame)
        × (stack_end ≡ stack_slot_address n + 8 * 4096)
        × (0 < frame → ops.table_ops.is_unused (t₂.entries table (n * 8 + 1)) ≡ false)
  free_user_stack-place_stack t t' table n_start stack_start stack_end l4 placed walk =
      let p : Placed ops t table n_start stack_start stack_end t' =
        subst (Places ops t table n_start) placed (place_stack-Places ops t table n_start) in
      let n = p.slot in
      let stack = p.written in
      let small = slot_small 0 n_start (t.entries table) n p.first in
      let end = p.ends in
      let at : ops.p1_index (stack_end - 1) ≡ n * 8 + 7 =
        subst (λ v. ops.p1_index (v - 1) ≡ n * 8 + 7) (sym end) (p1_of_end n small) in
      let (t₂, freed, back, addrs) =
        free_slot n table p.frame (record t { frame_allocator = p.rest }) t' stack in
      let (shared, _) = stack.shared 1 (omega arith) (omega arith) in
      (
        n,
        p.frame,
        p.rest,
        t₂,
        p.allocated,
        free_user_stack-pages t' l4 stack_end (n * 8 + 7) table (omega arith) at (omega arith) walk
            ∙ freed,
        back ∙ ap (λ a. deallocate_frame a p.frame) stack.allocator,
        end,
        λ pos. still_used (t₂.entries table (n * 8 + 1)) (p.frame) (addrs (n * 8 + 1) ∙ shared) pos,
      )
    where
      still_used :
          (e : Entry) (frame : ℕ)
          → ops.table_ops.addr e ≡ frame
          → 0 < frame
          → ops.table_ops.is_unused e ≡ false
      still_used e frame addr pos = elim (Bool-cases (ops.table_ops.is_unused e)) [
        | inl unused ↦ absurd (omega (arith, addr, pos, ops.addr-is_unused e unused))
        | inr used ↦ used
      ]
