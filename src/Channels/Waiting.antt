-- ===== src/Channels/Waiting.antt =====
-- A caller that waits for the reply of one thread, and what all other threads do to the rendezvous.
use eurali_os.Prelude.{ℕ, ◌≡◌, ◌≢◌, refl, arith, Bool, false, Option, none, some, ◌==◌}
use eurali_os.State.{Thread, Message, receiving, Kernel, MemoryOps, pure, ◌>>◌}
use eurali_os.Messages.{return_error_message}
use eurali_os.Messages.Delivery.{
  carries_memory, Completes, panicked, returned, return_error_message-Completes,
}
use eurali_os.Constants.{error_recv_blocking}
use eurali_os.Threads.{return_error}
use eurali_os.Channels.{Woken, send, send_to, send_receive, send_receive_to, receive, receive_from}

module _ {Mem : Type 0} (ops : MemoryOps Mem) where
  -- An operation that hands the thread `t` back to its caller, wakes nobody, and leaves all
  -- rendezvous, the run queue and the current thread as they were. It panics only if `risk` is true.
  abbrev pub HandsBack : Bool → Thread → Kernel Mem → Option (Woken × Kernel Mem) → Type 0
  HandsBack risk t k result = Completes risk result (λ back k'.
      (back ≡ (some t, none))
      × (k'.rendezvous_cells ≡ k.rendezvous_cells)
      × (k'.running_queue ≡ k.running_queue)
      × (k'.current_thread ≡ k.current_thread))

  -- A message that comes back with an error.
  bounce-HandsBack :
      (error : ℕ) (t : Thread) (m : Message) (k : Kernel Mem)
      → HandsBack
          (carries_memory m)
          t
          k
          ((return_error_message ops t error m >> pure (some t, none)) k)
  bounce-HandsBack error t m k = elim (return_error_message-Completes ops t error m k) [
    | panicked c p ↦ panicked c (ground arith)
    | returned _ k' p q ↦
        returned (some t, none) k' (ground arith) (refl, q.same_cells, q.same_queue, q.same_current)
  ]

  send-HandsBack :
      (r tid : ℕ) (t caller : Thread) (m : Message) (k : Kernel Mem)
      → t.tid ≢ tid
      → HandsBack (carries_memory m) t k (send_to ops r (receiving caller (some tid)) (some t) m k)
  unfolding send_to
  send-HandsBack r tid t caller m k other =
      let test : (t.tid == tid) ≡ false = ground arith in
      rw test (bounce-HandsBack error_recv_blocking t m k)

  send_receive-HandsBack :
      (r tid : ℕ) (t caller : Thread) (m : Message) (k : Kernel Mem)
      → t.tid ≢ tid
      → HandsBack (carries_memory m) t k (send_receive_to ops r (receiving caller (some tid)) t m k)
  unfolding send_receive_to
  send_receive-HandsBack r tid t caller m k other =
      let test : (t.tid == tid) ≡ false = ground arith in
      rw test (bounce-HandsBack error_recv_blocking t m k)

  receive-HandsBack :
      (r tid : ℕ) (t caller : Thread) (k : Kernel Mem)
      → HandsBack false t k (receive_from ops r (receiving caller (some tid)) t k)
  unfolding receive_from return_error
  receive-HandsBack r tid t caller k = returned (some t, none) _ refl (refl, refl, refl, refl)

  -- While a caller waits for the reply of thread `tid`, no other thread can answer or take its place:
  -- that thread is handed back from `send`, `send_receive` and `receive`, whatever the message is,
  -- nobody is woken, and no rendezvous, the run queue and the current thread change. `receive` always
  -- returns, and the other two panic at most on a message that carries a memory chunk.
  pub caller_waits :
      (r tid : ℕ) (t caller : Thread) (m : Message) (k : Kernel Mem)
      → k.rendezvous_cells r ≡ receiving caller (some tid)
      → t.tid ≢ tid
      → HandsBack (carries_memory m) t k (send ops r (some t) m k)
        × HandsBack (carries_memory m) t k (send_receive ops r t m k)
        × HandsBack false t k (receive ops r t k)
  unfolding send send_receive receive
  caller_waits r tid t caller m k e other = rw e (
    send-HandsBack r tid t caller m k other,
    send_receive-HandsBack r tid t caller m k other,
    receive-HandsBack r tid t caller k,
  )
