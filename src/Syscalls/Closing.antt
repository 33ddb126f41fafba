-- ===== src/Syscalls/Closing.antt =====
-- `sys_close`: the handle goes, and a thread that waits in a rendezvous nobody else holds is released.
use mathlib.Core.List.{Perm}
use mathlib.Core.List.Perm
use eurali_os.Prelude.{
  ℕ, ◌≡◌, refl, inl, inr, arith, Bool-cases, Option, none, some, List, [], ◌∷◌, ◌++◌, to_list, ◌==◌,
  ◌+◌, ◌<◌, ◌⊎◌, ◌≢◌, ap, sym, ◌∙◌, subst, false, update,
}
use eurali_os.State.{Thread, Kernel, M, ◌>>=◌, MemoryOps, Rendezvous, empty}
use eurali_os.Threads.{get_handle, take_handle, take_rendezvous, set_handles}
use eurali_os.Messages.Delivery.{Completes, panicked, returned, Completes-then}
use eurali_os.Channels.Moves.{woken, holds_memory, Keeps, unchanged, waiting}
use eurali_os.Channels.Ownership.{close-Keeps}
use eurali_os.Scheduler.{take_current_thread, set_current_thread, schedule_thread, schedule_next}
use eurali_os.Syscalls.{
  Exit, returns, launches, with_context, sys_close, close_if_last, strong_count, references, let_go,
  drop_rendezvous,
}
use eurali_os.Syscalls.Settling.{
  Population, Settles, ids, Settles-trans, schedule-Settles, set_current-Settles, switch-Settles,
  later_Population,
}

-- A thread that was given and a thread that was woken, together.
perm_woken :
    (t : Thread) (w : Option Thread) (wait wait' : List Thread)
    → Perm (to_list w ++ wait') wait
    → Perm (woken (w, some t) ++ wait') (t ∷ wait)
perm_woken t none wait wait' h = Perm.cons t h
perm_woken t (some u) wait wait' h = Perm.trans (Perm.swap t u wait') (Perm.cons t h)

module _ {Mem : Type 0} (ops : MemoryOps Mem) where
  -- The state in which the current thread and its handle were taken.
  abbrev pub without : Thread → ℕ → Kernel Mem → Kernel Mem
  without t handle k =
      set_handles t.process (take_handle (k.processes t.process).handles handle).0
        (record k { current_thread = none })

  -- `sys_close` from where it knows the thread to wake.
  abbrev after_close : ℕ → Thread → Option Thread → M Mem Exit
  after_close context_ptr t none k = elim (set_current_thread t k) [
    | none ↦ none
    | some (_, k') ↦ some (returns, k')
  ]
  after_close context_ptr t (some waiter) k =
      let k' = record k { running_queue = waiter ∷ t ∷ k.running_queue } in
      some (launches (schedule_next context_ptr k').0, (schedule_next context_ptr k').1)

  sys_close_found :
      (context_ptr handle r : ℕ) (caller : Thread) (k : Kernel Mem)
      → k.current_thread ≡ some caller
      → get_handle (k.processes caller.process).handles handle ≡ some r
      → sys_close ops context_ptr handle k
        ≡ (let_go ops r >>= λ w. after_close context_ptr (with_context context_ptr caller) w)
            (without caller handle k)
  unfolding sys_close take_current_thread take_rendezvous take_handle schedule_thread let_go
  sys_close_found context_ptr handle r caller k e f = ground arith

  abbrev emptied : ℕ → Kernel Mem → Kernel Mem
  emptied r k = record k { rendezvous_cells = update k.rendezvous_cells r empty }

  -- Dropping a reference loses no thread where another one is left or no thread waits.
  drop-Keeps :
      (r : ℕ) (back : List Thread) (k k₂ : Kernel Mem)
      → (0 < references r k₂) ⊎ (waiting (k₂.rendezvous_cells r) ≡ [])
      → Keeps r [] k back k₂
      → (k' : Kernel Mem) × (drop_rendezvous ops r k₂ ≡ some (tt, k')) × Keeps r [] k back k'
  unfolding drop_rendezvous
  drop-Keeps r back k k₂ (inl held) keeps =
      let test : (references r k₂ == 0) ≡ false = ground arith in (k₂, rw test refl, keeps)
  drop-Keeps r back k k₂ (inr alone) keeps = elim (Bool-cases (references r k₂ == 0)) [
    | inr more ↦ (k₂, rw more refl, keeps)
    | inl last ↦
        (let same : waiting ((emptied r k₂).rendezvous_cells r) ≡ waiting (k₂.rendezvous_cells r) =
            ap waiting (update_at k₂.rendezvous_cells) ∙ sym alone in
          (
            emptied r k₂,
            rw last refl,
            record {
              conserved =
                  subst (λ ts. Perm (back ++ ts) ([] ++ waiting (k.rendezvous_cells r))) (sym same)
                    keeps.conserved;
              others = λ q n. update_off k₂.rendezvous_cells q n ∙ keeps.others q n;
              same_queue = keeps.same_queue;
              same_current = keeps.same_current;
            },
          ))
  ]
    where
      update_at : (cells : ℕ → Rendezvous) → update cells r empty r ≡ empty
      update_at cells = ground arith

      update_off : (cells : ℕ → Rendezvous) (q : ℕ) → q ≢ r → update cells r empty q ≡ cells q
      update_off cells q n = ground arith

  let_go-none :
      (r : ℕ) (k k₂ k' : Kernel Mem)
      → close_if_last ops r k ≡ some (none, k₂)
      → drop_rendezvous ops r k₂ ≡ some (tt, k')
      → let_go ops r k ≡ some (none, k')
  unfolding let_go
  let_go-none r k k₂ k' e f = ground arith

  let_go-some :
      (r : ℕ) (u : Thread) (k k₂ : Kernel Mem)
      → close_if_last ops r k ≡ some (some u, k₂)
      → let_go ops r k ≡ some (some u, k₂)
  unfolding let_go
  let_go-some r u k k₂ e = ground arith

  let_go-panics : (r : ℕ) (k : Kernel Mem) → close_if_last ops r k ≡ none → let_go ops r k ≡ none
  unfolding let_go
  let_go-panics r k e = ground arith

  let_go-Keeps :
      (r : ℕ) (k : Kernel Mem)
      → (0 < references r k) ⊎ (waiting (k.rendezvous_cells r) ≡ [])
      → Completes
          (holds_memory (k.rendezvous_cells r))
          (let_go ops r k)
          (λ w k'. Keeps r [] k (to_list w) k')
  unfolding close_if_last strong_count
  let_go-Keeps r k side = elim (Bool-cases (references r k + 1 == 2)) [
    | inr more ↦
        (let (k', d, keeps) = drop-Keeps r [] k k side (unchanged r [] k) in
          returned none k' (let_go-none r k k k' (rw more refl) d) keeps)
    | inl last ↦ elim (close-Keeps ops r k) [
      | panicked h p ↦ panicked h (let_go-panics r k (rw last p))
      | returned none k₂ p (keeps, cell) ↦
          (let (k', d, after) = drop-Keeps r [] k k₂ (inr (ap waiting cell)) keeps in
            returned none k' (let_go-none r k k₂ k' (rw last p) d) after)
      | returned (some u) k₂ p (keeps, _) ↦
          returned (some u) k₂ (let_go-some r u k k₂ (rw last p)) keeps
    ]
  ]

  after_close-Settles :
      (context_ptr : ℕ) (t : Thread) (w : Option Thread) (k : Kernel Mem)
      → (e : Exit) × (k' : Kernel Mem) × (after_close context_ptr t w k ≡ some (e, k'))
        × Settles (ids (woken (w, some t))) k k'
  after_close-Settles context_ptr t none k =
      let (k', e, s) = set_current-Settles t k in (returns, k', ground arith, s)
  after_close-Settles context_ptr t (some u) k =
      let k₁ = record k { running_queue = t ∷ k.running_queue } in
      let k₂ = record k { running_queue = u ∷ t ∷ k.running_queue } in
      (
        launches (schedule_next context_ptr k₂).0,
        (schedule_next context_ptr k₂).1,
        refl,
        switch-Settles context_ptr _ k k₂ (
            Settles-trans (u ∷ []) (t ∷ []) k k₁ k₂ (schedule-Settles t k) (schedule-Settles u k₁)),
      )

  -- The system call `close`, made by the current thread with a handle that names a rendezvous, loses no
  -- thread if a reference to the rendezvous is left without this handle, or no thread waits there:
  -- the threads that are current, queued or waiting in that rendezvous are the same before and after,
  -- by their ids, and no other rendezvous changes. The call returns or switches to another thread then;
  -- it can panic only while it hands back a waiting message that carries a memory chunk.
  pub sys_close-Population :
      (context_ptr handle r : ℕ) (caller : Thread) (k : Kernel Mem)
      → k.current_thread ≡ some caller
      → get_handle (k.processes caller.process).handles handle ≡ some r
      → (0 < references r (without caller handle k)) ⊎ (waiting (k.rendezvous_cells r) ≡ [])
      → Completes
          (holds_memory (k.rendezvous_cells r))
          (sys_close ops context_ptr handle k)
          (λ _ k'. Population r k k')
  sys_close-Population context_ptr handle r caller k e f side =
      rw (sys_close_found context_ptr handle r caller k e f) (
        Completes-then (let_go ops r) _ (without caller handle k)
          (let_go-Keeps r (without caller handle k) side)
          (λ w k₂ keeps.
            let t = with_context context_ptr caller in
            let (x, k', d, s) = after_close-Settles context_ptr t w k₂ in
            (
              x,
              k',
              d,
              later_Population r context_ptr caller k (without caller handle k) k₂ k' (w, some t) e
                  (ground arith)
                  (record {
                    conserved = perm_woken t w _ _ keeps.conserved;
                    others = keeps.others;
                    same_queue = keeps.same_queue;
                    same_current = keeps.same_current;
                  })
                  s,
            )))
