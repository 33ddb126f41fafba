-- ===== src/Pages/Interface.antt =====
-- The memory manager that the other parts of the kernel call, filled with the functions of this
-- folder: kernel/src/memory.rs behind the interface `MemoryOps`.
use eurali_os.Prelude.{arith, ℕ, ◌≡◌, Option, none, some, Bool, true, false}
use eurali_os.State.{MemoryOps}
use eurali_os.Chunks.{Tables, get_page_chunk, put_page_chunk, find_available_page_chunk}
use eurali_os.Pages.{PageOps, free_page_chunk}
use eurali_os.Pages.Stacks.{StackResult, done, failed, allocate_user_stack}
use eurali_os.Pages.Mapping.{
  Mapper, MapResult, mapped, refused, create_consecutive_pages, create_user_ondemand_pages,
}

-- What callers do with a result: `is_err`, or a match that drops the error.
abbrev mapped_value : {A B : Type 0} → Option (MapResult A × B) → Option (Option A × B)
mapped_value none = none
mapped_value (some (refused e, b)) = some (none, b)
mapped_value (some (mapped a, b)) = some (some a, b)

abbrev is_mapped : {A B : Type 0} → Option (MapResult A × B) → Option (Bool × B)
is_mapped none = none
is_mapped (some (refused e, b)) = some (false, b)
is_mapped (some (mapped a, b)) = some (true, b)

abbrev stack_value : {A B : Type 0} → Option (StackResult A × B) → Option (Option A × B)
stack_value none = none
stack_value (some (failed e, b)) = some (none, b)
stack_value (some (done a, b)) = some (some a, b)

module _ {Entry : Type 0} (ops : PageOps Entry) (mapper : Mapper Entry) where
  pub peek_keeps_lem :
      (l4 address : ℕ) (t : Tables Entry) → (get_page_chunk ops.table_ops t l4 address false).1 ≡ t
  unfolding get_page_chunk
  peek_keeps_lem l4 address t = ground arith

  -- The page tables and the frame allocator as the memory manager of the kernel's model.
  unfoldable pub memory_manager : MemoryOps (Tables Entry)
  memory_manager = record {
    virt_addr_new = ops.table_ops.virt_addr_new;
    get_page_chunk = λ l4 address take t. get_page_chunk ops.table_ops t l4 address take;
    put_page_chunk = λ l4 physaddr t. put_page_chunk ops.table_ops t l4 physaddr;
    find_available_page_chunk = λ l4 t. find_available_page_chunk ops.table_ops t l4;
    create_consecutive_pages = λ l4 start num_frames max_physaddr t.
        mapped_value (create_consecutive_pages ops mapper t l4 start num_frames max_physaddr);
    create_user_ondemand_pages =
        λ l4 start size t. is_mapped (create_user_ondemand_pages ops mapper t l4 start size);
    free_page_chunk = λ l4 address t. free_page_chunk ops t l4 address;
    allocate_user_stack = λ l4 n_start t. stack_value (allocate_user_stack ops t l4 n_start);
    peek_keeps = peek_keeps_lem;
  }
