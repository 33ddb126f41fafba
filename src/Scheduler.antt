-- ===== src/Scheduler.antt =====
-- The run queue of kernel/src/process.rs, and the interrupt handlers of kernel/src/interrupts.rs
-- that switch threads. An entry of a handler is given the address of the saved registers and
-- returns the address of those to load.
pub mod Rounds
use eurali_os.Prelude.{
  ℕ, ◌+◌, ◌-◌, Option, none, some, List, [], ◌∷◌, ◌++◌, update, ◌==◌, if◌then◌else◌,
}
use eurali_os.State.{Context, Thread, Kernel, M, pure, ◌>>=◌, ◌>>◌, MemoryOps}
use eurali_os.Constants.{error_memalloc}
use eurali_os.Threads.{modify_context}

-- `for thread in INTERRUPT_WAITING.write().drain(..) { schedule_thread(thread) }`
unfoldable pub schedule_all : List Thread → List Thread → List Thread
schedule_all [] q = q
schedule_all (t ∷ ts) q = schedule_all ts (t ∷ q)

-- The address of the first `Context` on a kernel stack; `INTERRUPT_CONTEXT_SIZE` is 20 words.
abbrev pub first_context : ℕ → ℕ
first_context kernel_stack_end = kernel_stack_end - 160

module _ {Mem : Type 0} where
  unfoldable pub unique_id : M Mem ℕ
  unique_id k = some (k.unique_counter + 1, record k { unique_counter = k.unique_counter + 1 })

  unfoldable pub schedule_thread : Thread → M Mem (Unit {0})
  schedule_thread t k = some (tt, record k { running_queue = t ∷ k.running_queue })

  unfoldable pub take_current_thread : M Mem (Option Thread)
  take_current_thread k = some (k.current_thread, record k { current_thread = none })

  unfoldable pub set_current_thread : Thread → M Mem (Unit {0})
  unfolding schedule_thread
  set_current_thread t k = elim k.current_thread [
    | none ↦ some (tt, record k { current_thread = some t })
    | some old ↦ schedule_thread old (record k { current_thread = some t })
  ]

  -- The thread that was interrupted, with its registers' address and the active page table.
  abbrev pub saved : ℕ → Kernel Mem → Thread → Thread
  saved context_addr k t = record t {
    context = context_addr;
    page_table_physaddr = k.active_pagetable;
  }

  -- The first half of `schedule_next`: the current thread goes to the back of the queue.
  abbrev pub queue_current : ℕ → Kernel Mem → List Thread
  queue_current context_addr k = elim k.current_thread [
    | none ↦ k.running_queue
    | some t ↦ k.running_queue ++ saved context_addr k t ∷ []
  ]

  -- The second half: the front of the queue becomes current.
  abbrev pub run_front : List Thread → Kernel Mem → ℕ × Kernel Mem
  run_front [] k = (0, record k { current_thread = none; running_queue = [] })
  run_front (t ∷ q) k = (
    t.context,
    record k {
      current_thread = some t;
      running_queue = q;
      interrupt_stack = t.kernel_stack_end;
      active_pagetable =
          if t.page_table_physaddr == 0 then k.active_pagetable else t.page_table_physaddr;
    },
  )

  unfoldable pub schedule_next : ℕ → Kernel Mem → ℕ × Kernel Mem
  schedule_next context_addr k = run_front (queue_current context_addr k) k

  unfoldable pub await_interrupt : Thread → M Mem (Unit {0})
  await_interrupt t k = some (tt, record k { interrupt_waiting = k.interrupt_waiting ++ t ∷ [] })

  abbrev wake_waiting : List Thread → ℕ → Kernel Mem → ℕ × Kernel Mem
  wake_waiting [] context_addr k = (context_addr, k)
  wake_waiting (t ∷ ts) context_addr k =
      schedule_next context_addr
        (record k { running_queue = schedule_all (t ∷ ts) k.running_queue; interrupt_waiting = [] })

  unfoldable pub keyboard_handler_inner : ℕ → Kernel Mem → ℕ × Kernel Mem
  keyboard_handler_inner context_addr k = wake_waiting k.interrupt_waiting context_addr k

  -- `exit_current_thread` takes the current thread and waits for an interrupt.
  unfoldable pub exit_current_thread : M Mem (Unit {0})
  exit_current_thread k = some (tt, record k { current_thread = none })

module _ {Mem : Type 0} (ops : MemoryOps Mem) where
  -- `stack` is the end of the kernel stack that the heap gives to the new thread. The search for a
  -- user stack takes a unique number for where to start.
  unfoldable pub fork_thread : Thread → ℕ → ℕ → M Mem (Unit {0})
  fork_thread current context_ptr stack k =
      let n_start = k.unique_counter + 1 in
      elim (ops.allocate_user_stack k.active_pagetable n_start k.mem) [
        | none ↦ none
        | some (none, m) ↦
            modify_context context_ptr (λ c. record c { rax = error_memalloc })
              (record k { mem = m; unique_counter = n_start })
        | some (some (user_start, user_end), m) ↦
            (let tid = n_start + 1 in
              let child = record current {
                tid = tid;
                kernel_stack_end = stack;
                user_stack_end = user_end;
                context = first_context stack;
              } in
              let frame = record (k.contexts context_ptr) { rsp = user_end; rax = 0; rdi = 0 } in
              let contexts = update k.contexts (first_context stack) frame in
              some (
                tt,
                record k {
                  mem = m;
                  unique_counter = tid;
                  contexts =
                      update contexts context_ptr
                        (record (contexts context_ptr) { rax = 0; rdi = tid });
                  running_queue = k.running_queue ++ child ∷ [];
                },
              ))
      ]

  unfoldable pub fork_current_thread : ℕ → ℕ → M Mem (Unit {0})
  unfolding fork_thread
  fork_current_thread context_ptr stack k = elim k.current_thread [
    | none ↦ modify_context context_ptr (λ c. record c { rax = 2 }) k
    | some current ↦ fork_thread current context_ptr stack k
  ]
