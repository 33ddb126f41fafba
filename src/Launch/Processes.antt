-- ===== src/Launch/Processes.antt =====
-- How processes and threads start in the kernel and how they end: `new_kernel_thread`,
-- `with_pagetable`, `exit_current_thread` and the `Drop` instances of kernel/src/process.rs, over the
-- page tables of Pages.
use eurali_os.Prelude.{ℕ, ◌+◌, ◌*◌, Option, none, some, List, [], ◌∷◌, update, ◌==◌, if◌then◌else◌}
use eurali_os.State.{
  Process, Thread, Rendezvous, empty, sending, receiving, send_receiving, Result, ok, err, Kernel,
  M,
}
use eurali_os.Constants.{error_memory, error_thread}
use eurali_os.Scheduler.{first_context, schedule_thread}
use eurali_os.Syscalls.{sum_below}
use eurali_os.Chunks.{Tables, find_available_page_chunk}
use eurali_os.Pages.{PageOps, free_user_pagetables, free_page_chunk}
use eurali_os.Pages.Stacks.{free_user_stack}
use eurali_os.Pages.Mapping.{Mapper, mapped, refused, create_physical_range_pages}

abbrev pub kernel_stack_size : ℕ
kernel_stack_size = 4096 * 2

abbrev pub user_stack_size : ℕ
user_stack_size = 4096 * 5

-- The threads of process `p` among the given ones.
unfoldable pub count_threads : ℕ → List Thread → ℕ
count_threads p [] = 0
count_threads p (t ∷ ts) = (if t.process == p then 1 else 0) + count_threads p ts

unfoldable pub count_current : ℕ → Option Thread → ℕ
count_current p none = 0
count_current p (some t) = if t.process == p then 1 else 0

unfoldable pub count_blocked : ℕ → Rendezvous → ℕ
unfolding count_current
count_blocked p empty = 0
count_blocked p (sending t m) = count_current p t
count_blocked p (receiving t from) = count_current p (some t)
count_blocked p (send_receiving t m) = count_current p (some t)

-- The references to a process that the threads of the kernel's state hold.
unfoldable pub process_references : {Mem : Type 0} → ℕ → Kernel Mem → ℕ
unfolding count_threads count_current count_blocked sum_below
process_references p k =
    count_current p k.current_thread
    + count_threads p k.running_queue
    + count_threads p k.interrupt_waiting
    + sum_below k.rendezvous_count (λ r. count_blocked p (k.rendezvous_cells r))

-- `with_pagetable`: the closure runs on the given page table, and the old one is active again.
unfoldable pub with_pagetable : {Mem A : Type 0} → ℕ → M Mem A → M Mem A
with_pagetable page_table_physaddr func k =
    elim (func (record k { active_pagetable = page_table_physaddr })) [
      | none ↦ none
      | some (result, k') ↦ some (result, record k' { active_pagetable = k.active_pagetable })
    ]

-- The heap gives both stacks from `kernel_stack_start` on.
unfoldable pub new_kernel_thread : {Mem : Type 0} → ℕ × ℕ → ℕ → ℕ → List (Option ℕ) → M Mem ℕ
unfolding schedule_thread
new_kernel_thread (code_selector, data_selector) kernel_stack_start function handles k =
    let tid = k.unique_counter + 1 in
    let kernel_stack_end = kernel_stack_start + kernel_stack_size in
    let user_stack_end = kernel_stack_end + user_stack_size in
    let address = first_context kernel_stack_end in
    let thread : Thread = record {
      tid = tid;
      process = k.process_count;
      page_table_physaddr = 0;
      kernel_stack_end = kernel_stack_end;
      user_stack_end = user_stack_end;
      context = address;
    } in
    let process : Process = record {
      page_table_physaddr = 0;
      handles = handles;
      mounts = k.mount_table_count;
    } in
    let started = record k {
      unique_counter = tid;
      process_count = k.process_count + 1;
      processes = update k.processes k.process_count process;
      mount_tables = update k.mount_tables k.mount_table_count [];
      mount_table_count = k.mount_table_count + 1;
      contexts = update k.contexts address (record (k.contexts address) {
        rip = function;
        rflags = 0x200;
        cs = code_selector;
        ss = data_selector;
        rsp = user_stack_end;
      });
    } in
    elim (schedule_thread thread started) [ none ↦ none | some (_, k') ↦ some (tid, k') ]

module _ {Entry : Type 0} (ops : PageOps Entry) (mapper : Mapper Entry) (kernel_l4_table : ℕ) where
  -- `Process::drop`
  unfoldable pub drop_process : Process → M (Tables Entry) (Unit {0})
  drop_process p k = elim (free_user_pagetables ops k.mem p.page_table_physaddr) [
    | none ↦ none
    | some m ↦ some (
      tt,
      record k {
        mem = m;
        active_pagetable =
            if p.page_table_physaddr == k.active_pagetable
            then kernel_l4_table
            else k.active_pagetable;
      },
    )
  ]

  -- `Thread::drop`, and the reference to the process that goes with the thread.
  unfoldable pub drop_thread : Thread → M (Tables Entry) (Unit {0})
  unfolding drop_process process_references
  drop_thread t k = elim (ops.table_ops.virt_addr_new t.user_stack_end) [
    | none ↦ none
    | some stack_end ↦ elim (free_user_stack ops k.mem k.active_pagetable stack_end) [
      | none ↦ none
      | some m ↦
          (let k' = record k { mem = m } in
            if process_references t.process k == 0
            then drop_process (k.processes t.process) k'
            else some (tt, k'))
    ]
  ]

  -- `exit_current_thread`, which then waits for an interrupt.
  unfoldable pub exit_and_drop : M (Tables Entry) (Unit {0})
  unfolding drop_thread
  exit_and_drop k = elim k.current_thread [
    | none ↦ some (tt, k)
    | some t ↦ drop_thread t (record k { current_thread = none })
  ]

  unfoldable pub special_memory_chunk : Thread → ℕ → ℕ → M (Tables Entry) (Result (ℕ × ℕ))
  special_memory_chunk t num_pages start_physaddr k =
      elim (find_available_page_chunk ops.table_ops k.mem t.page_table_physaddr) [
        | none ↦ none
        | some (none, m) ↦ some (err error_memory, record k { mem = m })
        | some (some start_virtaddr, m) ↦ elim (mapper.phys_addr_new start_physaddr) [
          | none ↦ none
          | some physaddr ↦
              elim (create_physical_range_pages ops mapper m t.page_table_physaddr start_virtaddr
                num_pages physaddr) [
                  | none ↦ none
                  | some (refused e, m') ↦ some (err error_memory, record k { mem = m' })
                  | some (mapped at, m') ↦ some (ok (start_virtaddr, at), record k { mem = m' })
                ]
        ]
      ]

  unfoldable pub free_memory_chunk : ℕ → M (Tables Entry) (Result (Unit {0}))
  free_memory_chunk address k = elim k.current_thread [
    | none ↦ some (err error_thread, k)
    | some t ↦ elim (free_page_chunk ops k.mem t.page_table_physaddr address) [
      | none ↦ none
      | some (r, m) ↦ some (r, record k { mem = m })
    ]
  ]
