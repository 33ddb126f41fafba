-- ===== src/Syscalls/Settling.antt =====
-- How a system call places threads: each that an operation gave back becomes current or goes to the
-- run queue. Helpers for the proofs that no thread is lost.
use mathlib.Core.List.{Perm, map, map-append, append_assoc, perm_append_comm}
use mathlib.Core.List.Perm
use eurali_os.Prelude.{
  ℕ, ◌≡◌, refl, ap, ◌≢◌, inl, inr, arith, Bool, true, false, Bool-cases, Option, none, some, List,
  [], ◌∷◌, ◌++◌, to_list, ◌==◌, ◌∙◌, update, bit_and,
}
use eurali_os.State.{Thread, Rendezvous, Kernel}
use eurali_os.Constants.{syscall_error_mask}
use eurali_os.Threads.{return_error}
use eurali_os.Messages.Delivery.{SameThreads}
use eurali_os.Channels.{Woken}
use eurali_os.Channels.Moves.{waiting, woken, Keeps}
use eurali_os.Scheduler.{
  set_current_thread, schedule_thread, schedule_next, queue_current, run_front,
}
use eurali_os.Scheduler.Rounds.{runnable, schedule_next-perm}
use eurali_os.Syscalls.{
  Exit, returns, launches, with_context, dispatch_thread, dispatch_woken, fail_with,
}

abbrev pub ids : List Thread → List ℕ
ids = map (λ t. t.tid)

-- The threads of the state, by their ids, as far as they can run or wait in the rendezvous `r`.
abbrev pub population : {Mem : Type 0} → ℕ → Kernel Mem → List ℕ
population r k = runnable k ++ ids (waiting (k.rendezvous_cells r))

-- What a system call on the rendezvous `r` keeps.
pub record Population {Mem : Type 0} (r : ℕ) (k k' : Kernel Mem) : Type 0 where
  pub kept : Perm (population r k') (population r k)
  pub others : (q : ℕ) → q ≢ r → k'.rendezvous_cells q ≡ k.rendezvous_cells q

-- The threads `back` were made able to run, and no rendezvous changed.
pub record Settles {Mem : Type 0} (back : List ℕ) (k k' : Kernel Mem) : Type 0 where
  pub threads : Perm (runnable k') (back ++ runnable k)
  pub same_cells : k'.rendezvous_cells ≡ k.rendezvous_cells

perm_exchange :
    (run run' back wait wait' caller : List ℕ)
    → Perm run' (back ++ run)
    → Perm (back ++ wait') (caller ++ wait)
    → Perm (run' ++ wait') ((caller ++ run) ++ wait)
perm_exchange run run' back wait wait' caller h₁ h₂ =
    Perm.trans (Perm.append h₁ (Perm.refl wait')) (
      Perm.trans (Perm.append (perm_append_comm back run) (Perm.refl wait')) (
        rw append_assoc (
          Perm.trans (Perm.append (Perm.refl run) h₂) (
            rw (← append_assoc run caller wait)
              (Perm.append (perm_append_comm run caller) (Perm.refl wait))))))

module _ {Mem : Type 0} where
  pub schedule-Settles :
      (t : Thread) (k : Kernel Mem)
      → Settles (t.tid ∷ []) k (record k { running_queue = t ∷ k.running_queue })
  schedule-Settles t k = record { threads = middle k.current_thread refl; same_cells = refl }
    where
      middle :
          (c : Option Thread)
          → k.current_thread ≡ c
          → Perm (ids (to_list k.current_thread ++ (t ∷ k.running_queue))) (t.tid ∷ runnable k)
      middle none e = rw e (Perm.refl _)
      middle (some x) e = rw e (Perm.swap t.tid x.tid _)

  pub set_current-Settles :
      (t : Thread) (k : Kernel Mem)
      → (k' : Kernel Mem) × (set_current_thread t k ≡ some (tt, k')) × Settles (t.tid ∷ []) k k'
  unfolding set_current_thread
  set_current-Settles t k = by_current k.current_thread refl
    where
      by_current :
          (c : Option Thread)
          → k.current_thread ≡ c
          → (k' : Kernel Mem) × (set_current_thread t k ≡ some (tt, k')) × Settles (t.tid ∷ []) k k'
      by_current none e = (
        record k { current_thread = some t },
        rw (e, set_current_thread) refl,
        record { threads = rw e (Perm.refl _); same_cells = refl },
      )
      by_current (some x) e = (
        record k { current_thread = some t; running_queue = x ∷ k.running_queue },
        rw (e, set_current_thread) refl,
        record { threads = rw e (Perm.refl _); same_cells = refl },
      )

  dispatch_thread-Settles :
      (tid : ℕ) (o : Option Thread) (k : Kernel Mem)
      → (b : Bool) × (k' : Kernel Mem) × (dispatch_thread tid o k ≡ some (b, k'))
        × Settles (ids (to_list o)) k k'
  unfolding dispatch_thread schedule_thread
  dispatch_thread-Settles tid none k =
      (false, k, refl, record { threads = Perm.refl _; same_cells = refl })
  dispatch_thread-Settles tid (some t) k = elim (Bool-cases (t.tid == tid)) [
    | inl h ↦ (let (k', e, s) = set_current-Settles t k in (true, k', ground arith, s))
    | inr h ↦ (
      false,
      record k { running_queue = t ∷ k.running_queue },
      ground arith,
      schedule-Settles t k,
    )
  ]

  pub Settles-trans :
      (t1 t2 : List Thread) (k k2 k1 : Kernel Mem)
      → Settles (ids t2) k k2
      → Settles (ids t1) k2 k1
      → Settles (ids (t1 ++ t2)) k k1
  Settles-trans t1 t2 k k2 k1 s2 s1 = record {
    threads =
        rw (map-append (λ (t : Thread). t.tid) t1 t2, append_assoc)
          (Perm.trans s1.threads (Perm.append (Perm.refl _) s2.threads));
    same_cells = s1.same_cells ∙ s2.same_cells;
  }

  schedule_next_cells :
      (a : ℕ) (k : Kernel Mem) → (schedule_next a k).1.rendezvous_cells ≡ k.rendezvous_cells
  unfolding schedule_next
  schedule_next_cells a k = front (queue_current a k)
    where
      front : (q : List Thread) → (run_front q k).1.rendezvous_cells ≡ k.rendezvous_cells
      front [] = refl
      front (t ∷ q) = refl

  pub switch-Settles :
      (a : ℕ) (back : List ℕ) (k k' : Kernel Mem)
      → Settles back k k'
      → Settles back k (schedule_next a k').1
  switch-Settles a back k k' s = record {
    threads = Perm.trans (schedule_next-perm a k') s.threads;
    same_cells = schedule_next_cells a k' ∙ s.same_cells;
  }

  -- The last part of `dispatch_woken`, where both threads have been placed.
  after_dispatch : ℕ → Bool → Bool → Kernel Mem → Exit × Kernel Mem
  after_dispatch context_ptr true b1 k = (returns, k)
  after_dispatch context_ptr false true k = (returns, k)
  after_dispatch context_ptr false false k =
      (launches (schedule_next context_ptr k).0, (schedule_next context_ptr k).1)

  dispatch_woken_lem :
      (context_ptr tid : ℕ) (t1 t2 : Option Thread) (b2 b1 : Bool) (k k2 k1 : Kernel Mem)
      → dispatch_thread tid t2 k ≡ some (b2, k2)
      → dispatch_thread tid t1 k2 ≡ some (b1, k1)
      → dispatch_woken context_ptr tid (t1, t2) k ≡ some (after_dispatch context_ptr b2 b1 k1)
  unfolding dispatch_woken after_dispatch
  dispatch_woken_lem context_ptr tid t1 t2 true b1 k k2 k1 e2 e1 = ground arith
  dispatch_woken_lem context_ptr tid t1 t2 false true k k2 k1 e2 e1 = ground arith
  dispatch_woken_lem context_ptr tid t1 t2 false false k k2 k1 e2 e1 = ground arith

  pub dispatch_woken-Settles :
      (context_ptr tid : ℕ) (back : Woken) (k : Kernel Mem)
      → (e : Exit) × (k' : Kernel Mem) × (dispatch_woken context_ptr tid back k ≡ some (e, k'))
        × Settles (ids (woken back)) k k'
  unfolding after_dispatch
  dispatch_woken-Settles context_ptr tid (t1, t2) k =
      let (b2, k2, e2, s2) = dispatch_thread-Settles tid t2 k in
      let (b1, k1, e1, s1) = dispatch_thread-Settles tid t1 k2 in
      ends b2 b1 k2 k1 e2 e1 (Settles-trans (to_list t1) (to_list t2) k k2 k1 s2 s1)
    where
      ends :
          (b2 b1 : Bool) (k2 k1 : Kernel Mem)
          → dispatch_thread tid t2 k ≡ some (b2, k2)
          → dispatch_thread tid t1 k2 ≡ some (b1, k1)
          → Settles (ids (to_list t1 ++ to_list t2)) k k1
          → (e : Exit) × (k' : Kernel Mem) × (dispatch_woken context_ptr tid (t1, t2) k
              ≡ some (e, k'))
            × Settles (ids (to_list t1 ++ to_list t2)) k k'
      ends true b1 k2 k1 e2 e1 s =
          (returns, k1, dispatch_woken_lem context_ptr tid t1 t2 true b1 k k2 k1 e2 e1, s)
      ends false true k2 k1 e2 e1 s =
          (returns, k1, dispatch_woken_lem context_ptr tid t1 t2 false true k k2 k1 e2 e1, s)
      ends false false k2 k1 e2 e1 s = (
        launches (schedule_next context_ptr k1).0,
        (schedule_next context_ptr k1).1,
        dispatch_woken_lem context_ptr tid t1 t2 false false k k2 k1 e2 e1,
        switch-Settles context_ptr _ k k1 s,
      )

  pub fail_with-Settles :
      (t : Thread) (code : ℕ) (k : Kernel Mem)
      → (e : Exit) × (k' : Kernel Mem) × (fail_with t code k ≡ some (e, k'))
        × Settles (t.tid ∷ []) k k'
  unfolding fail_with return_error
  fail_with-Settles t code k =
      let (k', e, s) = set_current-Settles t (record k {
        contexts =
            update k.contexts t.context
              (record (k.contexts t.context) { rax = bit_and code syscall_error_mask });
      }) in
      (returns, k', ground arith, record { threads = s.threads; same_cells = s.same_cells })

  -- A call that hands the caller back, after nothing but `Settles` of it.
  pub caller_Population :
      (r : ℕ) (caller : Thread) (k k' : Kernel Mem)
      → k.current_thread ≡ some caller
      → Settles (caller.tid ∷ []) (record k { current_thread = none }) k'
      → Population r k k'
  caller_Population r caller k k' e s = record {
    kept = rw (e, s.same_cells) (Perm.append s.threads (Perm.refl _));
    others = λ q h. ground (arith, s.same_cells);
  }

  -- The threads that an operation on `r` gave back are made able to run.
  pub operation_Population :
      (r context_ptr : ℕ) (caller : Thread) (k k₁ k' : Kernel Mem) (back : Woken)
      → k.current_thread ≡ some caller
      → Keeps r
          (with_context context_ptr caller ∷ [])
          (record k { current_thread = none })
          (woken back)
          k₁
      → Settles (ids (woken back)) k₁ k'
      → Population r k k'
  operation_Population r context_ptr caller k k₁ k' back e keeps s = record {
    kept =
        rw (e, s.same_cells)
          (perm_exchange (ids k.running_queue) (runnable k') (ids (woken back))
            (ids (waiting (k.rendezvous_cells r))) (ids (waiting (k₁.rendezvous_cells r)))
            (caller.tid ∷ []) (rw (keeps.same_current, keeps.same_queue) at s.threads)
            (rw
              (← map-append (λ (t : Thread). t.tid) (woken back) (waiting (k₁.rendezvous_cells r)))
              (Perm.map _ keeps.conserved)));
    others = λ q h. ap (λ (cells : ℕ → Rendezvous). cells q) s.same_cells ∙ keeps.others q h;
  }

  -- The same, after steps that moved no thread.
  pub refused_Population :
      (r : ℕ) (caller : Thread) (k k₁ k' : Kernel Mem)
      → k.current_thread ≡ some caller
      → SameThreads (record k { current_thread = none }) k₁
      → Settles (caller.tid ∷ []) k₁ k'
      → Population r k k'
  refused_Population r caller k k₁ k' e same s = caller_Population r caller k k' e (record {
    threads = rw (same.same_current, same.same_queue) at s.threads;
    same_cells = s.same_cells ∙ same.same_cells;
  })

  -- The operation follows steps that moved no thread.
  pub later_Population :
      (r context_ptr : ℕ) (caller : Thread) (k k₁ k₂ k' : Kernel Mem) (back : Woken)
      → k.current_thread ≡ some caller
      → SameThreads (record k { current_thread = none }) k₁
      → Keeps r (with_context context_ptr caller ∷ []) k₁ (woken back) k₂
      → Settles (ids (woken back)) k₂ k'
      → Population r k k'
  later_Population r context_ptr caller k k₁ k₂ k' back e same keeps s =
      operation_Population r context_ptr caller k k₂ k' back e
        (record {
          conserved = rw same.same_cells at keeps.conserved;
          others =
              λ q h. keeps.others q h ∙ ap (λ (cells : ℕ → Rendezvous). cells q) same.same_cells;
          same_queue = keeps.same_queue ∙ same.same_queue;
          same_current = keeps.same_current ∙ same.same_current;
        })
        s
