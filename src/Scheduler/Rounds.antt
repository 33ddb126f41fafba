-- ===== src/Scheduler/Rounds.antt =====
-- Round robin: no thread is lost, each gets its turn, and a thread resumes where it stopped.
use mathlib.Core.List.{Perm, map, map-append, perm_append_comm}
use mathlib.Core.List.Perm
use eurali_os.Prelude.{
  subst, ℕ, ◌≡◌, ◌≢◌, refl, arith, Option, none, some, List, [], ◌∷◌, ◌++◌, length, get_elem?,
  get_elem?-append, get_elem?-append_last, to_list, sym,
}
use eurali_os.State.{Thread, Kernel}
use eurali_os.Scheduler.{schedule_next, queue_current, run_front, saved}

-- The threads that can run, by their ids.
abbrev pub runnable : {Mem : Type 0} → Kernel Mem → List ℕ
runnable k = map (λ t. t.tid) (to_list k.current_thread ++ k.running_queue)

module _ {Mem : Type 0} where
  run_front_threads :
      (q : List Thread) (k : Kernel Mem)
      → to_list (run_front q k).1.current_thread ++ (run_front q k).1.running_queue ≡ q
  run_front_threads [] k = refl
  run_front_threads (t ∷ q) k = refl

  queue_current-perm :
      (a : ℕ) (k : Kernel Mem) (c : Option Thread)
      → k.current_thread ≡ c
      → Perm (map (λ t. t.tid) (queue_current a k)) (runnable k)
  queue_current-perm a k none e = rw e (Perm.refl _)
  queue_current-perm a k (some t) e =
      rw (e, map-append (λ (t : Thread). t.tid) k.running_queue (saved a k t ∷ []))
        (perm_append_comm _ (t.tid ∷ []))

  -- A switch of threads loses no thread and adds none: those that can run are the same before and
  -- after, whichever is current.
  pub schedule_next-perm :
      (a : ℕ) (k : Kernel Mem) → Perm (runnable (schedule_next a k).1) (runnable k)
  unfolding schedule_next
  schedule_next-perm a k =
      rw (run_front_threads (queue_current a k) k) (queue_current-perm a k k.current_thread refl)

  -- Timer interrupts in a row, the addresses being those of the registers saved by each; the result
  -- of the last.
  pub ticks : ℕ → List ℕ → Kernel Mem → ℕ × Kernel Mem
  ticks a [] k = schedule_next a k
  ticks a (b ∷ bs) k = ticks b bs (schedule_next a k).1

  -- The thread `t` runs, from its own registers, with its own page table.
  pub record Runs (t : Thread) (addr : ℕ) (k : Kernel Mem) : Type 0 where
    pub current : k.current_thread ≡ some t
    pub registers : addr ≡ t.context
    pub kernel_stack : k.interrupt_stack ≡ t.kernel_stack_end
    pub page_table : t.page_table_physaddr ≢ 0 → k.active_pagetable ≡ t.page_table_physaddr

  front_Runs :
      (t : Thread) (q : List Thread) (k : Kernel Mem)
      → Runs t (run_front (t ∷ q) k).0 (run_front (t ∷ q) k).1
  front_Runs t q k = record {
    current = refl;
    registers = refl;
    kernel_stack = refl;
    page_table = λ h. ground arith;
  }

  turn :
      (t : Thread) (a : ℕ) (bs : List ℕ) (q : List Thread) (k : Kernel Mem)
      → queue_current a k ≡ q
      → get_elem? q (length bs) ≡ some t
      → Runs t (ticks a bs k).0 (ticks a bs k).1
  unfolding ticks schedule_next
  turn t a bs [] k e h = cc
  turn t a [] (x ∷ q) k e h =
      let same : x ≡ t = cc in
      rw e (
        subst (λ y. Runs y (run_front (x ∷ q) k).0 (run_front (x ∷ q) k).1) same (front_Runs x q k))
  turn t a (b ∷ bs) (x ∷ q) k e h =
      subst
        (λ front. Runs t (ticks b bs (run_front front k).1).0 (ticks b bs (run_front front k).1).1)
        (sym e)
        (turn t b bs (q ++ saved b (run_front (x ∷ q) k).1 x ∷ []) (run_front (x ∷ q) k).1 refl
          (get_elem?-append q _ (length bs) t h))

  -- Every thread gets its turn: the thread that stands behind `i` others in the run queue runs after
  -- `i + 1` timer interrupts, from its own registers, kernel stack and page table.
  pub queued-Runs :
      (t : Thread) (a : ℕ) (bs : List ℕ) (k : Kernel Mem)
      → get_elem? k.running_queue (length bs) ≡ some t
      → Runs t (ticks a bs k).0 (ticks a bs k).1
  queued-Runs t a bs k h = turn t a bs (queue_current a k) k refl (in_queue k.current_thread refl)
    where
      in_queue :
          (c : Option Thread)
          → k.current_thread ≡ c
          → get_elem? (queue_current a k) (length bs) ≡ some t
      in_queue none e = rw e h
      in_queue (some x) e = rw e (get_elem?-append k.running_queue _ (length bs) t h)

  -- A thread that is interrupted resumes where it was: when the timer has fired once for it and once
  -- for each thread that was waiting in the queue, it runs again, from the registers that were saved
  -- when it was interrupted and with the page table that was active then.
  pub interrupted_resumes :
      (t : Thread) (a : ℕ) (bs : List ℕ) (k : Kernel Mem)
      → k.current_thread ≡ some t
      → length bs ≡ length k.running_queue
      → Runs (saved a k t) (ticks a bs k).0 (ticks a bs k).1
  interrupted_resumes t a bs k e n =
      turn (saved a k t) a bs (k.running_queue ++ saved a k t ∷ []) k (rw e)
        (rw n (get_elem?-append_last k.running_queue (saved a k t)))
