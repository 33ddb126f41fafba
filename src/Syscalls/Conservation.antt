-- ===== src/Syscalls/Conservation.antt =====
-- No system call on a rendezvous loses a thread or runs it twice: the threads that are current, in
-- the run queue or waiting in the rendezvous are the same before and after.
use eurali_os.Prelude.{
  ℕ, ◌/◌, ◌^◌, ◌≡◌, refl, ◌∙◌, ◌≢◌, ◌⊎◌, inl, inr, arith, Bool, not, none, some, [], ◌∷◌, ◌==◌,
  bit_and, ℕ_discrete,
}
use eurali_os.State.{Thread, Message, Kernel, M, ◌>>=◌, MemoryOps, ok, err}
use eurali_os.Constants.{
  message_long, syscall_mask, syscall_send, syscall_sendreceive, error_closed,
}
use eurali_os.Threads.{get_handle, take_handle, take_rendezvous}
use eurali_os.Threads
use eurali_os.Messages.{from_values}
use eurali_os.Messages.Delivery.{Completes, panicked, returned, Completes-then, carries_memory}
use eurali_os.Messages.Transfer.{from_values-Completes}
use eurali_os.Channels.{receive}
use eurali_os.Channels.Moves.{woken, holds_memory, Keeps}
use eurali_os.Channels.Ownership.{receive-Keeps, send-Keeps, send_receive-Keeps}
use eurali_os.Scheduler.{take_current_thread}
use eurali_os.Syscalls.{
  Exit, with_context, dispatch_woken, fail_with, sys_receive, sys_send, send_message, strong_count,
  references,
}
use eurali_os.Syscalls.Settling.{
  Population, caller_Population, operation_Population, dispatch_woken-Settles, fail_with-Settles,
  refused_Population, later_Population,
}

module _ {Mem : Type 0} (ops : MemoryOps Mem) where
  -- The state in which the current thread was taken.
  abbrev taken : Kernel Mem → Kernel Mem
  taken k = record k { current_thread = none }

  receive_found :
      (context_ptr handle r : ℕ) (caller : Thread) (k : Kernel Mem)
      → k.current_thread ≡ some caller
      → get_handle (k.processes caller.process).handles handle ≡ some r
      → sys_receive ops context_ptr handle k
        ≡ (receive ops r (with_context context_ptr caller) >>= λ back.
              dispatch_woken context_ptr caller.tid back)
            (taken k)
  unfolding sys_receive take_current_thread Threads.rendezvous
  receive_found context_ptr handle r caller k e f = ground arith

  -- The system call `receive`, made by the current thread with a handle that names a rendezvous, loses
  -- no thread: those that are current, queued or waiting in that rendezvous are the same before and after, by their ids, and no other rendezvous
  -- changes. The call returns or switches to another thread on every input; it can panic only while
  -- it delivers a waiting message that carries a memory chunk.
  pub sys_receive-Population :
      (context_ptr handle r : ℕ) (caller : Thread) (k : Kernel Mem)
      → k.current_thread ≡ some caller
      → get_handle (k.processes caller.process).handles handle ≡ some r
      → Completes
          (holds_memory (k.rendezvous_cells r))
          (sys_receive ops context_ptr handle k)
          (λ _ k'. Population r k k')
  sys_receive-Population context_ptr handle r caller k e f =
      rw (receive_found context_ptr handle r caller k e f) (
        Completes-then (receive ops r (with_context context_ptr caller)) _ (taken k)
          (receive-Keeps ops r (with_context context_ptr caller) (taken k))
          (λ back k₁ keeps.
            let (x, k', d, s) = dispatch_woken-Settles context_ptr caller.tid back k₁ in
            (x, k', d, operation_Population r context_ptr caller k k₁ k' back e keeps s)))

  send_message-Keeps :
      (call r : ℕ) (t : Thread) (m : Message) (k : Kernel Mem)
      → (call ≡ syscall_send) ⊎ (call ≡ syscall_sendreceive)
      → Completes
          (carries_memory m)
          (send_message ops call r t m k)
          (λ b k'. Keeps r (t ∷ []) k (woken b) k')
  unfolding send_message
  send_message-Keeps call r t m k (inl e) = rw e (send-Keeps ops r (some t) m k)
  send_message-Keeps call r t m k (inr e) = rw e (send_receive-Keeps ops r t m k)

  abbrev is_long : ℕ → Bool
  is_long syscall_id = not (bit_and syscall_id message_long == 0)

  -- `sys_send` from where the handle was found and its channel is open.
  abbrev send_open : ℕ → ℕ → ℕ → ℕ → ℕ → ℕ → Thread → M Mem Exit
  send_open context_ptr syscall_id d1 d2 d3 r t =
      from_values ops t syscall_id d1 d2 d3 >>= λ created. elim created [
        | err code ↦ fail_with t code
        | ok message ↦ send_message ops (bit_and syscall_id syscall_mask) r t message >>= λ back.
            dispatch_woken context_ptr t.tid back
      ]

  sys_send_open :
      (context_ptr syscall_id d1 d2 d3 r : ℕ) (caller : Thread) (k : Kernel Mem)
      → k.current_thread ≡ some caller
      → get_handle (k.processes caller.process).handles (syscall_id / 2 ^ 32) ≡ some r
      → references r (taken k) ≢ 1
      → sys_send ops context_ptr syscall_id d1 d2 d3 k
        ≡ send_open context_ptr syscall_id d1 d2 d3 r (with_context context_ptr caller) (taken k)
  unfolding sys_send take_current_thread Threads.rendezvous strong_count
  sys_send_open context_ptr syscall_id d1 d2 d3 r caller k e f n = ground arith

  sys_send_closed :
      (context_ptr syscall_id d1 d2 d3 r : ℕ) (caller : Thread) (k : Kernel Mem)
      → k.current_thread ≡ some caller
      → get_handle (k.processes caller.process).handles (syscall_id / 2 ^ 32) ≡ some r
      → references r (taken k) ≡ 1
      → sys_send ops context_ptr syscall_id d1 d2 d3 k
        ≡ fail_with (with_context context_ptr caller) error_closed (taken k)
  unfolding sys_send take_current_thread Threads.rendezvous strong_count
  sys_send_closed context_ptr syscall_id d1 d2 d3 r caller k e f n = ground arith

  send_open-Population :
      (context_ptr syscall_id d1 d2 d3 r : ℕ) (caller : Thread) (k : Kernel Mem)
      → k.current_thread ≡ some caller
      → (bit_and syscall_id syscall_mask ≡ syscall_send)
        ⊎ (bit_and syscall_id syscall_mask ≡ syscall_sendreceive)
      → Completes
          (is_long syscall_id)
          (send_open context_ptr syscall_id d1 d2 d3 r (with_context context_ptr caller) (taken k))
          (λ _ k'. Population r k k')
  send_open-Population context_ptr syscall_id d1 d2 d3 r caller k e call =
      let t = with_context context_ptr caller in
      elim (from_values-Completes ops t syscall_id d1 d2 d3 (taken k)) [
        | panicked c p ↦ panicked c (ground arith)
        | returned (err code) k₁ p (same, _) ↦
            (let (x, k', f, s) = fail_with-Settles t code k₁ in
              returned x k' (ground arith) (refused_Population r caller k k₁ k' e same s))
        | returned (ok m) k₁ p (same, long) ↦
            elim (Completes-then (send_message ops (bit_and syscall_id syscall_mask) r t m)
              (λ back. dispatch_woken context_ptr t.tid back) k₁
              (send_message-Keeps (bit_and syscall_id syscall_mask) r t m k₁ call)
              (λ back k₂ keeps.
                let (x, k', d, s) = dispatch_woken-Settles context_ptr caller.tid back k₂ in
                (x, k', d, later_Population r context_ptr caller k k₁ k₂ k' back e same keeps s))) [
                  | panicked c q ↦ panicked (long m refl c) (ground arith)
                  | returned x k' q h ↦ returned x k' (ground arith) h
                ]
      ]

  -- The system calls `send` and `send_receive`, made by the current thread with a handle that names
  -- a rendezvous, lose no thread: those that are current, queued or waiting in that rendezvous are the
  -- same before and after, by their ids, and no other rendezvous changes. This holds whatever comes of
  -- the message: delivered, left waiting, handed back with an error, refused because its handles are
  -- not valid, or refused because nobody else holds the rendezvous. Only a long message can panic.
  pub sys_send-Population :
      (context_ptr syscall_id d1 d2 d3 r : ℕ) (caller : Thread) (k : Kernel Mem)
      → k.current_thread ≡ some caller
      → get_handle (k.processes caller.process).handles (syscall_id / 2 ^ 32) ≡ some r
      → (bit_and syscall_id syscall_mask ≡ syscall_send)
        ⊎ (bit_and syscall_id syscall_mask ≡ syscall_sendreceive)
      → Completes
          (is_long syscall_id)
          (sys_send ops context_ptr syscall_id d1 d2 d3 k)
          (λ _ k'. Population r k k')
  sys_send-Population context_ptr syscall_id d1 d2 d3 r caller k e f call =
      elim (ℕ_discrete (references r (taken k)) 1) [
        | yes last ↦
            (let (x, k', g, s) =
                fail_with-Settles (with_context context_ptr caller) error_closed (taken k) in
              returned x k'
                (sys_send_closed context_ptr syscall_id d1 d2 d3 r caller k e f last ∙ g)
                (caller_Population r caller k k' e s))
        | no more ↦
            rw (sys_send_open context_ptr syscall_id d1 d2 d3 r caller k e f more)
              (send_open-Population context_ptr syscall_id d1 d2 d3 r caller k e call)
      ]
