-- ===== src/Launch/Loader.antt =====
-- kernel/src/process.rs: `new_user_thread` behind its header check, which maps the segments of a
-- program and makes its first thread, with the page tables of Pages. The binary is parsed by the
-- object crate, whose result is the parameter `parse`.
pub mod Segments
use eurali_os.Prelude.{
  ℕ, zero, suc, ◌+◌, ◌*◌, ◌%◌, ◌^◌, ◌<◌, ◌≤◌, Option, none, some, Bool, true, false, ◌||◌, List, [],
  ◌∷◌, update, ltb, leb, length, ◌==◌, if◌then◌else◌,
}
use eurali_os.State.{Context, Process, Thread, Kernel, M}
use eurali_os.Scheduler.{first_context}
use eurali_os.Chunks.{Tables}
use eurali_os.Pages.{PageOps}
use eurali_os.Pages.Stacks.{done, failed, allocate_user_stack}
use eurali_os.Pages.Mapping.{
  Mapper, mapped, refused, allocate_pages_mapper, create_user_ondemand_pages,
  create_new_user_pagetable,
}

-- What the object crate finds in a file: the bytes of a segment can fail.
pub record Segment : Type 0 where
  pub address : ℕ
  pub size : ℕ
  pub contents : Option (List ℕ)

pub record Elf : Type 0 where
  pub entry : ℕ
  pub segments : List Segment

pub data LoadError : Type 0 where
  no_heap segment_outside no_memory data_too_long no_data no_stack not_parsed : LoadError

pub data LoadResult (A : Type 0) : Type 0 where
  loaded : A → LoadResult A
  not_loaded : LoadError → LoadResult A

abbrev pub user_code_start : ℕ
user_code_start = 0x20_0000

abbrev pub user_code_end : ℕ
user_code_end = 0x5000_0000

abbrev pub user_heap_start : ℕ
user_heap_start = 0x280_0060_0000

abbrev pub user_heap_size : ℕ
user_heap_size = 4 * 1024 * 1024

module _ {Entry : Type 0} (ops : PageOps Entry) (mapper : Mapper Entry)
    (write_bytes : ℕ → List ℕ → Tables Entry → Tables Entry) where
  -- The bytes of a segment, written through the new page table, which is active then.
  unfoldable pub copy_data : Segment → Tables Entry → LoadResult (Unit {0}) × Tables Entry
  copy_data s t = elim s.contents [
    | none ↦ (not_loaded no_data, t)
    | some bytes ↦
        if ltb s.size (length bytes)
        then (not_loaded data_too_long, t)
        else (loaded tt, write_bytes s.address bytes t)
  ]

  -- The sum of the address and the size has 64 bits and wraps.
  unfoldable pub load_segment :
      ℕ → Segment → Tables Entry → Option (LoadResult (Unit {0}) × Tables Entry)
  unfolding copy_data
  load_segment l4 s t = elim (ops.table_ops.virt_addr_new s.address) [
    | none ↦ none
    | some start_address ↦ elim (ops.table_ops.virt_addr_new ((start_address + s.size) % 2 ^ 64)) [
      | none ↦ none
      | some end_address ↦
          if ltb start_address user_code_start || leb user_code_end end_address
          then some (not_loaded segment_outside, t)
          else (elim (allocate_pages_mapper ops mapper t l4 start_address s.size
              ops.table_ops.user_flags) [
                | none ↦ none
                | some (refused e, t') ↦ some (not_loaded no_memory, t')
                | some (mapped _, t') ↦ some (copy_data s t')
              ])
    ]
  ]

  -- `for segment in obj.segments()`
  unfoldable pub load_segments :
      ℕ → List Segment → Tables Entry → Option (LoadResult (Unit {0}) × Tables Entry)
  unfolding load_segment
  load_segments l4 [] t = some (loaded tt, t)
  load_segments l4 (s ∷ ss) t = elim (load_segment l4 s t) [
    | none ↦ none
    | some (not_loaded e, t') ↦ some (not_loaded e, t')
    | some (loaded _, t') ↦ load_segments l4 ss t'
  ]

  -- Page table, heap, segments and the stack: the address of the table, and the ends of the stack.
  -- `n_start` is what `unique_id` gives to `allocate_user_stack`.
  unfoldable pub load_image :
      ℕ → ℕ → ℕ → List Segment → Tables Entry → Option (LoadResult (ℕ × ℕ) × Tables Entry)
  unfolding load_segments
  load_image kernel_l4_table frame_physaddr n_start segments t =
      elim (create_new_user_pagetable ops mapper t kernel_l4_table frame_physaddr) [
        | none ↦ none
        | some (l4, t₁) ↦
            elim (create_user_ondemand_pages ops mapper t₁ l4 user_heap_start user_heap_size) [
              | none ↦ none
              | some (refused e, t₂) ↦ some (not_loaded no_heap, t₂)
              | some (mapped _, t₂) ↦ elim (load_segments l4 segments t₂) [
                | none ↦ none
                | some (not_loaded e, t₃) ↦ some (not_loaded e, t₃)
                | some (loaded _, t₃) ↦ elim (allocate_user_stack ops t₃ l4 n_start) [
                  | none ↦ none
                  | some (failed e, t₄) ↦ some (not_loaded no_stack, t₄)
                  | some (done (stack_start, stack_end), t₄) ↦ some (loaded (l4, stack_end), t₄)
                ]
              ]
            ]
      ]

  -- The registers that the new thread starts with.
  abbrev pub user_context : Context → ℕ → ℕ × ℕ → Bool → ℕ → Context
  user_context c entry (code_selector, data_selector) io_privileges stack_end = record c {
    rip = entry;
    rflags = if io_privileges then 0x200 + 0x3000 else 0x200;
    cs = code_selector;
    ss = data_selector;
    rsp = stack_end;
    rax = user_heap_start;
    rcx = user_heap_size;
  }

  module _ (parse : List ℕ → Option Elf) (kernel_l4_table frame_physaddr kernel_stack_end : ℕ)
      (user_segments : ℕ × ℕ) where
    -- The process and its first thread; `allocate_user_stack` takes a unique number, then the thread.
    unfoldable pub start_process : ℕ → ℕ → ℕ → ℕ → ℕ → Bool → ℕ → M (Tables Entry) (Option Thread)
    start_process entry l4 stack_end stdin stdout io_privileges mounts k =
        let tid = k.unique_counter + 1 in
        let address = first_context kernel_stack_end in
        let thread : Thread = record {
          tid = tid;
          process = k.process_count;
          page_table_physaddr = l4;
          kernel_stack_end = kernel_stack_end;
          user_stack_end = stack_end;
          context = address;
        } in
        some (
          some thread,
          record k {
            unique_counter = tid;
            process_count = k.process_count + 1;
            processes = update k.processes k.process_count (record {
              page_table_physaddr = l4;
              handles = some stdin ∷ some stdout ∷ [];
              mounts = mounts;
            });
            contexts =
                update k.contexts address
                  (user_context (k.contexts address) entry user_segments io_privileges stack_end);
          },
        )

    -- An error leaves the memory as it is then: nothing is given back. `allocate_user_stack` is the
    -- last step that can fail, and takes its unique number before it looks for a slot.
    unfoldable pub load : List ℕ → ℕ → ℕ → Bool → ℕ → M (Tables Entry) (Option Thread)
    unfolding load_image start_process
    load bin stdin stdout io_privileges mounts k = elim (parse bin) [
      | none ↦ some (none, k)
      | some elf ↦
          (let n_start = k.unique_counter + 1 in
            elim (load_image kernel_l4_table frame_physaddr n_start elf.segments k.mem) [
              | none ↦ none
              | some (not_loaded no_stack, m) ↦
                  some (none, record k { mem = m; unique_counter = n_start })
              | some (not_loaded e, m) ↦ some (none, record k { mem = m })
              | some (loaded (l4, stack_end), m) ↦
                  start_process elf.entry l4 stack_end stdin stdout io_privileges mounts
                    (record k { mem = m; unique_counter = n_start })
            ])
    ]
