-- ===== src/Channels/Ownership.antt =====
-- Which threads a rendezvous holds, before and after each operation.
use mathlib.Core.List.{perm_append_comm, append-nil}
use mathlib.Core.List.Perm
use eurali_os.Prelude.{
  ℕ, ◌≡◌, refl, arith, Bool-cases, Option, none, some, inl, inr, sym, List, [], ◌∷◌, to_list,
  update, ◌==◌,
}
use eurali_os.State.{
  Thread, Message, Rendezvous, empty, sending, receiving, send_receiving, Kernel, pure, ◌>>◌,
  MemoryOps,
}
use eurali_os.Constants.{error_send_blocking, error_recv_blocking, error_closed}
use eurali_os.Threads.{return_error}
use eurali_os.Messages.{return_error_message, return_message}
use eurali_os.Messages.Delivery.{
  carries_memory, SameThreads-refl, SameThreads-trans, Completes, panicked, returned,
  return_error_message-Completes,
}
use eurali_os.Channels.{
  set_cell, send, send_to, complete_send, Woken, receive, receive_from, send_receive,
  send_receive_to, complete_call, close, close_of,
}
use eurali_os.Channels.Moves.{
  waiting, holds_memory, woken, Keeps, perm_of_eq, Moves-Keeps, SameThreads-Moves, set_cell-Moves,
  Moves-again, unchanged, return_success_lem,
}

module _ {Mem : Type 0} (ops : MemoryOps Mem) where
  -- A message is returned to the sender with an error, and nothing else happens.
  bounce-Keeps :
      (r e : ℕ) (given : List Thread) (t : Thread) (back : Woken) (m : Message) (k : Kernel Mem)
      → woken back ≡ given
      → Completes
          (carries_memory m)
          ((return_error_message ops t e m >> pure back) k)
          (λ b k'. Keeps r given k (woken b) k')
  bounce-Keeps r e given t back m k h = elim (return_error_message-Completes ops t e m k) [
    | panicked c p ↦ panicked c (ground arith)
    | returned _ k' p q ↦ returned back k' (ground arith) (
        Moves-Keeps r given (woken back) (k.rendezvous_cells r) (k.rendezvous_cells r) refl
          (rw h (Perm.refl _)) (SameThreads-Moves r _ refl q))
  ]

  complete_send-Keeps :
      (r : ℕ) (receiver : Thread) (o : Option ℕ) (t : Option Thread) (m : Message) (k : Kernel Mem)
      → k.rendezvous_cells r ≡ receiving receiver o
      → Completes
          (carries_memory m)
          (complete_send ops r receiver t m k)
          (λ b k'. Keeps r (to_list t) k (woken b) k')
  unfolding complete_send return_message return_error
  complete_send-Keeps r receiver o t m k e =
      elim (return_error_message-Completes ops receiver 0 m
        (record k { rendezvous_cells = update k.rendezvous_cells r empty })) [
          | panicked c p ↦ panicked c (ground arith)
          | returned _ k' p q ↦
              (let (k'', p', q') = return_success_lem t k' in
                returned (some receiver, t) k'' (ground arith)
                  (Moves-Keeps r (to_list t) (receiver ∷ to_list t) (receiving receiver o) empty e
                    (Perm.trans (perm_of_eq (append-nil _))
                      (perm_append_comm (receiver ∷ []) (to_list t)))
                    (set_cell-Moves r empty (SameThreads-trans q q'))))
        ]

  send_to-Keeps :
      (r : ℕ) (s : Rendezvous) (t : Option Thread) (m : Message) (k : Kernel Mem)
      → k.rendezvous_cells r ≡ s
      → Completes
          (carries_memory m)
          (send_to ops r s t m k)
          (λ b k'. Keeps r (to_list t) k (woken b) k')
  unfolding send_to
  send_to-Keeps r empty t m k e =
      returned (none, none) _ refl
        (Moves-Keeps r (to_list t) [] empty (sending t m) e (perm_of_eq (sym (append-nil _)))
          (set_cell-Moves r (sending t m) SameThreads-refl))
  send_to-Keeps r (sending u n) none m k e = returned (none, none) k refl (unchanged r [] k)
  send_to-Keeps r (sending u n) (some t) m k e =
      bounce-Keeps r error_send_blocking (t ∷ []) t (some t, none) m k refl
  send_to-Keeps r (receiving u none) t m k e = complete_send-Keeps r u none t m k e
  send_to-Keeps r (receiving u (some tid)) none m k e =
      returned (none, none) k refl (unchanged r [] k)
  send_to-Keeps r (receiving u (some tid)) (some t) m k e = elim (Bool-cases (t.tid == tid)) [
    | inl h ↦ rw h (complete_send-Keeps r u (some tid) (some t) m k e)
    | inr h ↦ rw h (bounce-Keeps r error_recv_blocking (t ∷ []) t (some t, none) m k refl)
  ]
  send_to-Keeps r (send_receiving u n) none m k e = returned (none, none) k refl (unchanged r [] k)
  send_to-Keeps r (send_receiving u n) (some t) m k e =
      bounce-Keeps r error_send_blocking (t ∷ []) t (some t, none) m k refl

  -- Sending, blocking or not, conserves the threads: those that `send` returns and those that wait
  -- in the rendezvous afterwards are the sender and those that waited before, each as often. Other
  -- rendezvous, the run queue and the current thread are unchanged. `send` returns on every input;
  -- only a message that carries a memory chunk can make it panic, in the memory manager.
  pub send-Keeps :
      (r : ℕ) (t : Option Thread) (m : Message) (k : Kernel Mem)
      → Completes (carries_memory m) (send ops r t m k) (λ b k'. Keeps r (to_list t) k (woken b) k')
  unfolding send
  send-Keeps r t m k = send_to-Keeps r (k.rendezvous_cells r) t m k refl

  receive_from-Keeps :
      (r : ℕ) (s : Rendezvous) (t : Thread) (k : Kernel Mem)
      → k.rendezvous_cells r ≡ s
      → Completes
          (holds_memory s)
          (receive_from ops r s t k)
          (λ b k'. Keeps r (t ∷ []) k (woken b) k')
  unfolding receive_from return_message return_error
  receive_from-Keeps r empty t k e =
      returned (none, none) _ refl
        (Moves-Keeps r (t ∷ []) [] empty (receiving t none) e (Perm.refl _)
          (set_cell-Moves r (receiving t none) SameThreads-refl))
  receive_from-Keeps r (sending u m) t k e =
      elim (return_error_message-Completes ops t 0 m
        (record k { rendezvous_cells = update k.rendezvous_cells r empty })) [
          | panicked c p ↦ panicked c (ground arith)
          | returned _ k' p q ↦
              (let (k'', p', q') = return_success_lem u k' in
                returned (some t, u) k'' (ground arith)
                  (Moves-Keeps r (t ∷ []) (t ∷ to_list u) (sending u m) empty e
                    (perm_of_eq (append-nil _)) (set_cell-Moves r empty (SameThreads-trans q q'))))
        ]
  receive_from-Keeps r (receiving u o) t k e =
      returned (some t, none) _ refl
        (Moves-Keeps r (t ∷ []) (t ∷ []) (receiving u o) (receiving u o) e (Perm.refl _)
          (SameThreads-Moves r _ e (ground arith)))
  receive_from-Keeps r (send_receiving u m) t k e =
      elim (return_error_message-Completes ops t 0 m
        (record k { rendezvous_cells = update k.rendezvous_cells r empty })) [
          | panicked c p ↦ panicked c (ground arith)
          | returned _ k' p q ↦
              returned (some t, none) _ (ground arith)
                (Moves-Keeps r (t ∷ []) (t ∷ []) (send_receiving u m) (receiving u (some t.tid)) e
                  (Perm.refl _) (Moves-again (set_cell-Moves r empty q) (receiving u (some t.tid))))
        ]

  -- Receiving conserves the threads: those that `receive` returns and those that wait in the
  -- rendezvous afterwards are the receiver and those that waited before, each as often; other
  -- rendezvous, the run queue and the current thread are unchanged. It returns on every input; it can
  -- panic only while it delivers a waiting message that carries a memory chunk.
  pub receive-Keeps :
      (r : ℕ) (t : Thread) (k : Kernel Mem)
      → Completes
          (holds_memory (k.rendezvous_cells r))
          (receive ops r t k)
          (λ b k'. Keeps r (t ∷ []) k (woken b) k')
  unfolding receive
  receive-Keeps r t k = receive_from-Keeps r (k.rendezvous_cells r) t k refl

  complete_call-Keeps :
      (r : ℕ) (receiver : Thread) (o : Option ℕ) (t : Thread) (m : Message) (k : Kernel Mem)
      → k.rendezvous_cells r ≡ receiving receiver o
      → Completes
          (carries_memory m)
          (complete_call ops r receiver t m k)
          (λ b k'. Keeps r (t ∷ []) k (woken b) k')
  unfolding complete_call return_message
  complete_call-Keeps r receiver o t m k e =
      elim (return_error_message-Completes ops receiver 0 m
        (record k { rendezvous_cells = update k.rendezvous_cells r empty })) [
          | panicked c p ↦ panicked c (ground arith)
          | returned _ k' p q ↦
              returned (some receiver, none) _ (ground arith)
                (Moves-Keeps r (t ∷ []) (receiver ∷ []) (receiving receiver o)
                  (receiving t (some receiver.tid)) e (Perm.swap t receiver [])
                  (Moves-again (set_cell-Moves r empty q) (receiving t (some receiver.tid))))
        ]

  send_receive_to-Keeps :
      (r : ℕ) (s : Rendezvous) (t : Thread) (m : Message) (k : Kernel Mem)
      → k.rendezvous_cells r ≡ s
      → Completes
          (carries_memory m)
          (send_receive_to ops r s t m k)
          (λ b k'. Keeps r (t ∷ []) k (woken b) k')
  unfolding send_receive_to
  send_receive_to-Keeps r empty t m k e =
      returned (none, none) _ refl
        (Moves-Keeps r (t ∷ []) [] empty (send_receiving t m) e (Perm.refl _)
          (set_cell-Moves r (send_receiving t m) SameThreads-refl))
  send_receive_to-Keeps r (sending u n) t m k e =
      bounce-Keeps r error_send_blocking (t ∷ []) t (some t, none) m k refl
  send_receive_to-Keeps r (receiving u none) t m k e = complete_call-Keeps r u none t m k e
  send_receive_to-Keeps r (receiving u (some tid)) t m k e = elim (Bool-cases (t.tid == tid)) [
    | inl h ↦ rw h (complete_call-Keeps r u (some tid) t m k e)
    | inr h ↦ rw h (bounce-Keeps r error_recv_blocking (t ∷ []) t (some t, none) m k refl)
  ]
  send_receive_to-Keeps r (send_receiving u n) t m k e =
      bounce-Keeps r error_send_blocking (t ∷ []) t (some t, none) m k refl

  -- A call conserves the threads: those that `send_receive` returns and those that wait in the
  -- rendezvous afterwards are the caller and those that waited before, each as often; other
  -- rendezvous, the run queue and the current thread are unchanged. It returns on every input; it can
  -- panic only while it delivers or hands back a message that carries a memory chunk.
  pub send_receive-Keeps :
      (r : ℕ) (t : Thread) (m : Message) (k : Kernel Mem)
      → Completes
          (carries_memory m)
          (send_receive ops r t m k)
          (λ b k'. Keeps r (t ∷ []) k (woken b) k')
  unfolding send_receive
  send_receive-Keeps r t m k = send_receive_to-Keeps r (k.rendezvous_cells r) t m k refl

  close_waiting-Keeps :
      (r : ℕ) (s : Rendezvous) (t : Thread) (m : Message) (k : Kernel Mem)
      → k.rendezvous_cells r ≡ s
      → waiting s ≡ t ∷ []
      → Completes
          (carries_memory m)
          ((set_cell r empty >> (return_error_message ops t error_closed m >> pure (some t))) k)
          (λ b k'. Keeps r [] k (to_list b) k' × (k'.rendezvous_cells r ≡ empty))
  close_waiting-Keeps r s t m k e w =
      elim (return_error_message-Completes ops t error_closed m
        (record k { rendezvous_cells = update k.rendezvous_cells r empty })) [
          | panicked c p ↦ panicked c (ground arith)
          | returned _ k' p q ↦ returned (some t) k' (ground arith) (
            Moves-Keeps r [] (t ∷ []) s empty e (rw w (Perm.refl _)) (set_cell-Moves r empty q),
            (set_cell-Moves r empty q).cell_now,
          )
        ]

  close_of-Keeps :
      (r : ℕ) (s : Rendezvous) (k : Kernel Mem)
      → k.rendezvous_cells r ≡ s
      → Completes
          (holds_memory s)
          (close_of ops r s k)
          (λ b k'. Keeps r [] k (to_list b) k' × (k'.rendezvous_cells r ≡ empty))
  unfolding close_of return_error
  close_of-Keeps r empty k e = returned none k refl (unchanged r [] k, e)
  close_of-Keeps r (sending none m) k e = returned none _ refl (
    Moves-Keeps r [] [] (sending none m) empty e (Perm.refl _)
        (set_cell-Moves r empty SameThreads-refl),
    ground arith,
  )
  close_of-Keeps r (sending (some u) m) k e =
      close_waiting-Keeps r (sending (some u) m) u m k e refl
  close_of-Keeps r (receiving u o) k e = returned (some u) _ refl (
    Moves-Keeps r [] (u ∷ []) (receiving u o) empty e (Perm.refl _)
        (set_cell-Moves r empty (ground arith)),
    ground arith,
  )
  close_of-Keeps r (send_receiving u m) k e =
      close_waiting-Keeps r (send_receiving u m) u m k e refl

  -- Closing empties the rendezvous and hands back the thread that waited there, if any; nothing
  -- else changes hands. It returns on every input; it can panic only while it hands back a message
  -- that carries a memory chunk.
  pub close-Keeps :
      (r : ℕ) (k : Kernel Mem)
      → Completes
          (holds_memory (k.rendezvous_cells r))
          (close ops r k)
          (λ b k'. Keeps r [] k (to_list b) k' × (k'.rendezvous_cells r ≡ empty))
  unfolding close
  close-Keeps r k = close_of-Keeps r (k.rendezvous_cells r) k refl
