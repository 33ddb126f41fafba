-- ===== src/Messages/Delivery.antt =====
-- Returning a message to a thread, `Thread::return_error_message`: it always completes for a message
-- without memory chunks, and touches no thread but through its registers, handles and page table.
use eurali_os.Prelude.{
  ◌≡◌, refl, inl, inr, Bool, true, false, ◌||◌, Option, none, some, arith, Option-cases, update,
  bit_or, ℕ,
}
use eurali_os.State.{
  Thread, MessageData, value, rendezvous, memory, Message, short, long, Kernel, MemoryOps, M, ok,
  err, pure, ◌>>=◌,
}
use eurali_os.Constants.{
  message_long, message_data2_rdv, message_data2_mem, message_data2_err, message_data3_rdv,
  message_data3_mem, message_data3_err,
}
use eurali_os.Threads.{give_rendezvous, give_memory_chunk}
use eurali_os.Messages.{data_to_value, to_values, return_error_message, load_values}

abbrev pub is_memory : MessageData → Bool
is_memory (memory p) = true
is_memory _ = false

abbrev pub carries_memory : Message → Bool
carries_memory (short d1 d2 d3) = false
carries_memory (long d1 d2 d3) = is_memory d2 || is_memory d3

-- What message passing leaves alone: the cells of the rendezvous, the threads that run or wait, and
-- the mount tables.
pub record SameThreads {Mem : Type 0} (k k' : Kernel Mem) : Type 0 where
  pub same_cells : k'.rendezvous_cells ≡ k.rendezvous_cells
  pub same_queue : k'.running_queue ≡ k.running_queue
  pub same_current : k'.current_thread ≡ k.current_thread
  pub same_waiting : k'.interrupt_waiting ≡ k.interrupt_waiting
  pub same_mounts : k'.mount_tables ≡ k.mount_tables

module _ {Mem : Type 0} where
  -- A computation returns, in a state that satisfies `P`; it may panic only if `risk` is true.
  pub data Completes {A : Type 0} (risk : Bool) (r : Option (A × Kernel Mem))
      (P : A → Kernel Mem → Type 0) : Type 0 where
    panicked : risk ≡ true → r ≡ none → Completes risk r P
    returned : (a : A) (k' : Kernel Mem) → r ≡ some (a, k') → P a k' → Completes risk r P

  pub Completes-bind :
      {A B : Type 0} {risk risk' : Bool} {P : A → Kernel Mem → Type 0} {Q : B → Kernel Mem → Type 0}
      (m : M Mem A) (f : A → M Mem B) (k : Kernel Mem)
      → Completes risk (m k) P
      → ((a : A) (k' : Kernel Mem) → P a k' → Completes risk' (f a k') Q)
      → Completes (risk || risk') ((m >>= f) k) Q
  Completes-bind m f k (panicked h e) next = panicked (ground arith) (ground arith)
  Completes-bind m f k (returned a k' e p) next = elim (next a k' p) [
    | panicked h e' ↦ panicked (ground arith) (ground arith)
    | returned b k'' e' q ↦ returned b k'' (ground arith) q
  ]

  pub Completes-then :
      {A B : Type 0} {risk : Bool} {P : A → Kernel Mem → Type 0} {Q : B → Kernel Mem → Type 0}
      (m : M Mem A) (f : A → M Mem B) (k : Kernel Mem)
      → Completes risk (m k) P
      → ((a : A) (k' : Kernel Mem)
          → P a k'
          → (b : B) × (k'' : Kernel Mem) × (f a k' ≡ some (b, k'')) × Q b k'')
      → Completes risk ((m >>= f) k) Q
  Completes-then m f k (panicked h e) next = panicked h (ground arith)
  Completes-then m f k (returned a k' e p) next =
      let (b, k'', e', q) = next a k' p in returned b k'' (ground arith) q

  -- A step that cannot panic and returns at once, after one that completes.
  pub Completes-map :
      {A B : Type 0} {risk : Bool} {P : A → Kernel Mem → Type 0} {Q : Kernel Mem → Type 0}
      (m : M Mem A) (f : A → B) (k : Kernel Mem)
      → Completes risk (m k) P
      → ((a : A) (k' : Kernel Mem) → P a k' → Q k')
      → Completes risk ((m >>= λ a. pure (f a)) k) (λ _. Q)
  Completes-map m f k (panicked h e) next = panicked h (ground arith)
  Completes-map m f k (returned a k' e p) next = returned (f a) k' (ground arith) (next a k' p)

  pub SameThreads-refl : {k : Kernel Mem} → SameThreads k k
  SameThreads-refl = ground arith

  pub SameThreads-trans :
      {k k' k'' : Kernel Mem} → SameThreads k k' → SameThreads k' k'' → SameThreads k k''
  SameThreads-trans h h' = ground arith

module _ {Mem : Type 0} (ops : MemoryOps Mem) where
  data_to_value-Completes :
      (b c e : ℕ) (d : MessageData) (t : Thread) (k : Kernel Mem)
      → Completes (is_memory d) (data_to_value ops b c e d t k) (λ _ k'. SameThreads k k')
  unfolding data_to_value give_rendezvous give_memory_chunk
  data_to_value-Completes b c e (value v) t k = returned _ _ refl (ground arith)
  data_to_value-Completes b c e (rendezvous r) t k = returned _ _ refl (ground arith)
  data_to_value-Completes b c e (memory p) t k =
      elim (Option-cases (ops.put_page_chunk t.page_table_physaddr p k.mem)) [
        | inl h ↦ panicked refl (ground arith)
        | inr ((ok v, m), h) ↦
            returned (bit_or c message_long, v) (record k { mem = m }) (ground arith) (ground arith)
        | inr ((err v, m), h) ↦
            returned (bit_or e message_long, v) (record k { mem = m }) (ground arith) (ground arith)
      ]

  to_values-Completes :
      (m : Message) (t : Thread) (k : Kernel Mem)
      → Completes (carries_memory m) (to_values ops m t k) (λ _ k'. SameThreads k k')
  unfolding to_values
  to_values-Completes (short d1 d2 d3) t k = returned _ _ refl (ground arith)
  to_values-Completes (long d1 d2 d3) t k =
      Completes-bind (data_to_value ops message_data2_rdv message_data2_mem message_data2_err d2 t)
        _ k (data_to_value-Completes message_data2_rdv message_data2_mem message_data2_err d2 t k)
        (λ a k' h.
          Completes-map
            (data_to_value ops message_data3_rdv message_data3_mem message_data3_err d3 t) _ k'
            (data_to_value-Completes message_data3_rdv message_data3_mem message_data3_err d3 t k')
            (λ b k'' h'. SameThreads-trans h h'))

  pub return_error_message-Completes :
      (t : Thread) (e : ℕ) (m : Message) (k : Kernel Mem)
      → Completes (carries_memory m) (return_error_message ops t e m k) (λ _ k'. SameThreads k k')
  unfolding return_error_message
  return_error_message-Completes t e m k = elim (to_values-Completes m t k) [
    | panicked h p ↦ panicked h (ground arith)
    | returned a k' p q ↦
        returned tt
          (record k' {
            contexts = update k'.contexts t.context (load_values e a (k'.contexts t.context));
          })
          (ground arith) (ground arith)
  ]
