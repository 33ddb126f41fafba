-- ===== src/Pages/Stacks.antt =====
-- The stacks of user threads, in kernel/src/memory.rs: a slot of eight pages in the level 1 table of
-- the stacks, with one frame that is shared by all of its pages until they are written to.
use eurali_os.Prelude.{
  ℕ, zero, suc, ◌+◌, ◌-◌, ◌*◌, ◌%◌, ◌^◌, Option, none, some, not, ◌==◌, ltb, if◌then◌else◌, List,
  [], ◌∷◌,
}
use eurali_os.Frames.{Allocator, allocate_frame, deallocate_frame}
use eurali_os.Chunks.{Tables, write_entry, create_empty_pagetable}
use eurali_os.Pages.{PageOps}

pub data StackError : Type 0 where
  failed_to_allocate slots_full unexpected_flags no_frame : StackError

pub data StackResult (A : Type 0) : Type 0 where
  done : A → StackResult A
  failed : StackError → StackResult A

-- THREAD_STACK_PAGE_INDEX
abbrev pub thread_stack_page_index : List ℕ
thread_stack_page_index = 5 ∷ 0 ∷ 0 ∷ []

-- `slot_address` in `allocate_user_stack`.
unfoldable pub stack_slot_address : ℕ → ℕ
stack_slot_address n = 5 * 2 ^ 39 + 0 * 2 ^ 30 + 0 * 2 ^ 21 + n * 8 * 2 ^ 12

module _ {Entry : Type 0} (ops : PageOps Entry) where
  -- The table that an entry points to, which is made where there is none.
  unfoldable pub child_table : Tables Entry → ℕ → ℕ → Option (ℕ × Tables Entry)
  unfolding create_empty_pagetable
  child_table t table index =
      let entry = t.entries table index in
      if ops.table_ops.is_unused entry
      then (elim (create_empty_pagetable ops.table_ops t) [
        | none ↦ none
        | some (phys, t₁) ↦
            elim (ops.table_ops.set_addr (t₁.entries table index) phys ops.table_ops.user_flags) [
              | none ↦ none
              | some e ↦ some (ops.table_ops.addr e, write_entry t₁ table index e)
            ]
      ])
      else some (ops.table_ops.addr entry, t)

  -- `for index in THREAD_STACK_PAGE_INDEX`
  unfoldable pub stack_table : List ℕ → ℕ → Tables Entry → Option (ℕ × Tables Entry)
  unfolding child_table
  stack_table [] table t = some (table, t)
  stack_table (index ∷ indices) table t = elim (child_table t table index) [
    | none ↦ none
    | some (table', t') ↦ stack_table indices table' t'
  ]

  -- `for j in j..7` with `rounds` to go: the pages that are read-only.
  unfoldable pub write_read_only : ℕ → ℕ → ℕ → ℕ → ℕ → Tables Entry → Option (Tables Entry)
  write_read_only zero j n table frame t = some t
  write_read_only (suc rounds) j n table frame t =
      elim (ops.table_ops.set_addr (t.entries table (n * 8 + j)) frame ops.read_only_flags) [
        | none ↦ none
        | some e ↦ write_read_only rounds (j + 1) n table frame (write_entry t table (n * 8 + j) e)
      ]

  unfoldable pub write_stack : ℕ → ℕ → ℕ → Tables Entry → Option (Tables Entry)
  unfolding write_read_only
  write_stack n table frame t = elim (write_read_only 6 1 n table frame t) [
    | none ↦ none
    | some t' ↦
        elim (ops.table_ops.set_addr (t'.entries table (n * 8 + 7)) frame
          ops.table_ops.user_flags) [
            | none ↦ none
            | some e ↦ some (write_entry t' table (n * 8 + 7) e)
          ]
  ]

  -- `for i in i..64` with `rounds` to go: the first slot that is not used.
  unfoldable pub find_stack_slot : ℕ → ℕ → ℕ → (ℕ → Entry) → Option ℕ
  find_stack_slot zero i n_start table = none
  find_stack_slot (suc rounds) i n_start table =
      let n = (n_start + i) % 64 in
      let rest = find_stack_slot rounds (i + 1) n_start table in
      if ops.table_ops.is_unused (table (n * 8 + 1)) then some n else rest

  -- The part of `allocate_user_stack` with the level 1 table, and `n_start` from `unique_id`.
  unfoldable pub place_stack : Tables Entry → ℕ → ℕ → Option (StackResult (ℕ × ℕ) × Tables Entry)
  unfolding find_stack_slot write_stack stack_slot_address
  place_stack t table n_start = elim (find_stack_slot 64 0 n_start (t.entries table)) [
    | none ↦ some (failed slots_full, t)
    | some n ↦ elim (allocate_frame t.frame_allocator) [
      | none ↦ none
      | some (none, a) ↦ some (failed failed_to_allocate, record t { frame_allocator = a })
      | some (some frame, a) ↦ elim (write_stack n table frame (record t { frame_allocator = a })) [
        | none ↦ none
        | some t' ↦ some (done (stack_slot_address n + 4096, stack_slot_address n + 8 * 4096), t')
      ]
    ]
  ]

  unfoldable pub allocate_user_stack :
      Tables Entry → ℕ → ℕ → Option (StackResult (ℕ × ℕ) × Tables Entry)
  unfolding stack_table place_stack
  allocate_user_stack t l4 n_start = elim (stack_table thread_stack_page_index l4 t) [
    | none ↦ none
    | some (table, t') ↦ place_stack t' table n_start
  ]

  -- The active level 4 table is at `l4`.
  unfoldable pub active_level_1_table_containing : Tables Entry → ℕ → ℕ → ℕ
  active_level_1_table_containing t l4 addr =
      let l3 = ops.table_ops.addr (t.entries l4 (ops.table_ops.p4_index addr)) in
      let l2 = ops.table_ops.addr (t.entries l3 (ops.table_ops.p3_index addr)) in
      ops.table_ops.addr (t.entries l2 (ops.p2_index addr))

  -- The page fault handler's answer to a write to a read-only page.
  unfoldable pub allocate_missing_ondemand_frame :
      Tables Entry → ℕ → ℕ → Option (StackResult (Unit {0}) × Tables Entry)
  unfolding active_level_1_table_containing
  allocate_missing_ondemand_frame t l4 addr =
      let table = active_level_1_table_containing t l4 addr in
      let ind = ops.p1_index addr in
      let entry = t.entries table ind in
      if not (ops.flags entry == ops.read_only_flags)
      then some (failed unexpected_flags, t)
      else (elim (allocate_frame t.frame_allocator) [
        | none ↦ none
        | some (none, a) ↦ some (failed no_frame, record t { frame_allocator = a })
        | some (some frame, a) ↦
            elim (ops.table_ops.set_addr entry frame ops.table_ops.user_flags) [
              | none ↦ none
              | some e ↦ some (done tt, write_entry (record t { frame_allocator = a }) table ind e)
            ]
      ])

  -- One page of a stack that is freed.
  unfoldable pub free_stack_page : Tables Entry → ℕ → ℕ → Option (Tables Entry)
  free_stack_page t table index =
      let entry = t.entries table index in
      let clear : Allocator → Tables Entry =
        λ a. write_entry (record t { frame_allocator = a }) table index (ops.set_flags entry 0) in
      if ops.contains (ops.flags entry) ops.writable
      then (elim (ops.frame entry) [
        | none ↦ none
        | some start ↦ some (clear (deallocate_frame t.frame_allocator start))
      ])
      else some (clear t.frame_allocator)

  -- `for index in ((iend - 6)..=iend).rev()`, with `rounds` to go.
  unfoldable pub free_stack_pages : ℕ → ℕ → Tables Entry → ℕ → Option (Tables Entry)
  unfolding free_stack_page
  free_stack_pages zero index t table = some t
  free_stack_pages (suc rounds) index t table = elim (free_stack_page t table index) [
    | none ↦ none
    | some t' ↦ free_stack_pages rounds (index - 1) t' table
  ]

  -- `iend - 6` below 0 is a panic, as is an end of 0.
  unfoldable pub free_user_stack : Tables Entry → ℕ → ℕ → Option (Tables Entry)
  unfolding active_level_1_table_containing free_stack_pages
  free_user_stack t l4 stack_end =
      if stack_end == 0
      then none
      else (let addr = stack_end - 1 in
          let iend = ops.p1_index addr in
          if ltb iend 6
          then none
          else free_stack_pages 7 iend t (active_level_1_table_containing t l4 addr))
