-- ===== src/Messages/Transfer.antt =====
-- What happens to handles and memory chunks when a message enters the kernel, `from_values`, and
-- when it leaves it, `to_values`.
use eurali_os.Messages.Delivery.{
  Completes, panicked, returned, Completes-bind, Completes-map, SameThreads, SameThreads-refl,
  SameThreads-trans, carries_memory,
}
use eurali_os.Prelude.{
  ℕ, ◌+◌, ◌≡◌, refl, ◌≢◌, ◌⊎◌, inl, inr, arith, Bool, true, false, Bool-cases, none, some,
  Option-cases, ◌==◌, bit_and, not,
}
use eurali_os.State.{
  Thread, MessageData, value, rendezvous, memory, Message, short, long, Result, ok, err, Kernel,
  pure, ◌>>◌, MemoryOps,
}
use eurali_os.Constants.{
  error_invalid_handle, message_long, message_data2_rdv, message_data2_mem, message_data2_type,
  message_data3_rdv, message_data3_mem, message_data3_type,
}
use eurali_os.Threads.{
  take_rendezvous, give_rendezvous, virt_addr, memory_chunk, take_memory_chunk, get_handle,
  take_handle, give_handle, set_handles,
}
use eurali_os.Threads
use eurali_os.Threads.Handles.{give_handle_lem, take_handle_lem}
use eurali_os.Messages.{
  Values, value_to_data, remove_moved, from_long, from_values, to_values, data_to_value,
}

module _ {Mem : Type 0} (ops : MemoryOps Mem) where
  -- Looking up what a message names changes nothing.
  value_to_data-same :
      (is_rdv is_mem : Bool) (v : ℕ) (t : Thread) (k : Kernel Mem)
      → (value_to_data ops is_rdv is_mem v t k ≡ none)
        ⊎ ((r : Result MessageData) × (value_to_data ops is_rdv is_mem v t k ≡ some (r, k)))
  unfolding value_to_data virt_addr memory_chunk Threads.rendezvous
  value_to_data-same true is_mem v t k =
      elim (Option-cases (get_handle (k.processes t.process).handles v)) [
        | inl e ↦ inr (err error_invalid_handle, ground arith)
        | inr (r, e) ↦ inr (ok (rendezvous r), ground arith)
      ]
  value_to_data-same false false v t k = inr (ok (value v), refl)
  value_to_data-same false true v t k = elim (Option-cases (ops.virt_addr_new v)) [
    | inl e ↦ inl (ground arith)
    | inr (a, e) ↦ peek (ops.get_page_chunk t.page_table_physaddr a false k.mem).0 a e refl
  ]
    where
      peek :
          (r : Result (ℕ × ℕ)) (a : ℕ)
          → ops.virt_addr_new v ≡ some a
          → (ops.get_page_chunk t.page_table_physaddr a false k.mem).0 ≡ r
          → (value_to_data ops false true v t k ≡ none)
            ⊎ ((r : Result MessageData) × (value_to_data ops false true v t k ≡ some (r, k)))
      peek (err c) a e h = inr (err c, ground (arith, ops.peek_keeps t.page_table_physaddr a k.mem))
      peek (ok (p, level)) a e h =
          inr (ok (memory p), ground (arith, ops.peek_keeps t.page_table_physaddr a k.mem))

  from_long-err :
      (rdv2 mem2 rdv3 mem3 : Bool) (d1 d2 d3 : ℕ) (t : Thread) (k k' : Kernel Mem) (e : ℕ)
      → from_long ops rdv2 mem2 rdv3 mem3 d1 d2 d3 t k ≡ some (err e, k')
      → k' ≡ k
  unfolding from_long
  from_long-err rdv2 mem2 rdv3 mem3 d1 d2 d3 t k k' e h =
      ground (arith, value_to_data-same rdv2 mem2 d2 t k, value_to_data-same rdv3 mem3 d3 t k)

  -- A message that is refused costs its sender nothing: where `from_values` returns an error, the
  -- state of the kernel, with every handle and every memory chunk, is what it was.
  pub from_values-err :
      (t : Thread) (syscall_id d1 d2 d3 : ℕ) (k k' : Kernel Mem) (e : ℕ)
      → from_values ops t syscall_id d1 d2 d3 k ≡ some (err e, k')
      → k' ≡ k
  unfolding from_values
  from_values-err t syscall_id d1 d2 d3 k k' e h =
      elim (Bool-cases (bit_and syscall_id message_long == 0)) [
        | inl s ↦ ground arith
        | inr l ↦
            from_long-err (bit_and syscall_id message_data2_type == message_data2_rdv)
              (bit_and syscall_id message_data2_type == message_data2_mem)
              (bit_and syscall_id message_data3_type == message_data3_rdv)
              (bit_and syscall_id message_data3_type == message_data3_mem) d1 d2 d3 t k k' e
              (ground arith)
      ]

  -- A handle that is sent moves. Thread `t` names its handle `i` in the second value of a message, and
  -- thread `u` of another process gets the message: the message is accepted, `u` finds the first and
  -- third value as they were sent and, in place of the second, a handle of its own that was free and
  -- now names the rendezvous, with control bits that say so; the handle `i` of `t` is empty, and the
  -- other handles of both processes name what they named before.
  pub handle_moves :
      (t u : Thread) (syscall_id i r d1 d3 : ℕ) (k : Kernel Mem)
      → t.process ≢ u.process
      → get_handle (k.processes t.process).handles i ≡ some r
      → bit_and syscall_id message_long ≡ message_long
      → bit_and syscall_id message_data2_type ≡ message_data2_rdv
      → bit_and syscall_id message_data3_type ≡ 0
      → (m : Message) × (v : Values) × (k₁ k₂ : Kernel Mem) × (from_values ops t syscall_id d1 i d3
            k
          ≡ some (ok m, k₁))
        × (to_values ops m u k₁ ≡ some (v, k₂))
        × ((v.ctrl ≡ message_data2_rdv + message_long) × (v.data1 ≡ d1) × (v.data3 ≡ d3))
        × (get_handle (k.processes u.process).handles v.data2 ≡ none)
        × (get_handle (k₂.processes u.process).handles v.data2 ≡ some r)
        × (get_handle (k₂.processes t.process).handles i ≡ none)
        × ((j : ℕ)
            → j ≢ i
            → get_handle (k₂.processes t.process).handles j
              ≡ get_handle (k.processes t.process).handles j)
        × ((j : ℕ)
            → j ≢ v.data2
            → get_handle (k₂.processes u.process).handles j
              ≡ get_handle (k.processes u.process).handles j)
  unfolding from_values from_long value_to_data remove_moved to_values data_to_value
      Threads.rendezvous take_rendezvous give_rendezvous
  handle_moves t u syscall_id i r d1 d3 k n e long2 type2 type3 =
      let taken = take_handle (k.processes t.process).handles i in
      let given = give_handle (k.processes u.process).handles r in
      let k₁ = set_handles t.process taken.0 k in
      let given_lem = give_handle_lem (k.processes u.process).handles r in
      let taken_lem = take_handle_lem (k.processes t.process).handles i in
      (
        long d1 (rendezvous r) (value d3),
        record { ctrl = message_data2_rdv + message_long; data1 = d1; data2 = given.1; data3 = d3 },
        k₁,
        set_handles u.process given.0 k₁,
        ground arith,
        ground arith,
        (refl, refl, refl),
        given_lem.was_free,
        ground (arith, given_lem.stored),
        ground (arith, taken_lem.1),
        λ j h. ground (arith, taken_lem.2 j h),
        λ j h. ground (arith, given_lem.others_kept j h),
      )

  -- The same memory chunk may be named twice in one message. It is looked up twice before it is taken,
  -- so the message carries its frames twice.
  pub chunk_sent_twice :
      (t : Thread) (syscall_id a v p level d1 : ℕ) (k : Kernel Mem)
      → ops.virt_addr_new a ≡ some v
      → (ops.get_page_chunk t.page_table_physaddr v false k.mem).0 ≡ ok (p, level)
      → bit_and syscall_id message_long ≡ message_long
      → bit_and syscall_id message_data2_type ≡ message_data2_mem
      → bit_and syscall_id message_data3_type ≡ message_data3_mem
      → (k' : Kernel Mem) × (from_values ops t syscall_id d1 a a k
          ≡ some (ok (long d1 (memory p) (memory p)), k'))
  unfolding from_values from_long value_to_data remove_moved virt_addr memory_chunk
      take_memory_chunk
  chunk_sent_twice t syscall_id a v p level d1 k ea ep long2 type2 type3 =
      let pt = t.page_table_physaddr in
      let m₁ = (ops.get_page_chunk pt v true k.mem).1 in
      let m₂ = (ops.get_page_chunk pt v true m₁).1 in
      (record k { mem = m₂ }, ground (arith, ops.peek_keeps pt v k.mem))

  -- A thread can stop the kernel: a send that names, as a memory chunk, an address that is not
  -- canonical panics, whatever the thread holds.
  pub not_canonical_panics :
      (t : Thread) (syscall_id a d1 d3 : ℕ) (k : Kernel Mem)
      → ops.virt_addr_new a ≡ none
      → bit_and syscall_id message_long ≡ message_long
      → bit_and syscall_id message_data2_type ≡ message_data2_mem
      → from_values ops t syscall_id d1 a d3 k ≡ none
  unfolding from_values from_long value_to_data virt_addr
  not_canonical_panics t syscall_id a d1 d3 k e long2 type2 = ground arith

  remove_moved-Completes :
      (is_rdv is_mem : Bool) (v : ℕ) (t : Thread) (k : Kernel Mem)
      → Completes true (remove_moved ops is_rdv is_mem v t k) (λ _ k'. SameThreads k k')
  unfolding remove_moved take_rendezvous virt_addr take_memory_chunk
  remove_moved-Completes true is_mem v t k = returned tt _ refl (ground arith)
  remove_moved-Completes false false v t k = returned tt k refl SameThreads-refl
  remove_moved-Completes false true v t k = elim (Option-cases (ops.virt_addr_new v)) [
    | inl e ↦ panicked refl (ground arith)
    | inr (a, e) ↦
        returned tt (record k { mem = (ops.get_page_chunk t.page_table_physaddr a true k.mem).1 })
          (ground arith) (ground arith)
  ]

  removals-Completes :
      (rdv2 mem2 rdv3 mem3 : Bool) (d1 d2 d3 : ℕ) (m2 m3 : MessageData) (t : Thread)
      (k : Kernel Mem)
      → Completes true
          ((remove_moved ops rdv2 mem2 d2 t
              >> (remove_moved ops rdv3 mem3 d3 t >> pure (ok (long d1 m2 m3))))
            k)
          (λ _ k'. SameThreads k k')
  removals-Completes rdv2 mem2 rdv3 mem3 d1 d2 d3 m2 m3 t k =
      Completes-bind (remove_moved ops rdv2 mem2 d2 t) _ k (remove_moved-Completes rdv2 mem2 d2 t k)
        (λ _ k' h.
          Completes-map (remove_moved ops rdv3 mem3 d3 t) (λ _. ok (long d1 m2 m3)) k'
            (remove_moved-Completes rdv3 mem3 d3 t k') (λ _ k'' h'. SameThreads-trans h h'))

  from_long-Completes :
      (rdv2 mem2 rdv3 mem3 : Bool) (d1 d2 d3 : ℕ) (t : Thread) (k : Kernel Mem)
      → Completes true (from_long ops rdv2 mem2 rdv3 mem3 d1 d2 d3 t k) (λ _ k'. SameThreads k k')
  unfolding from_long
  from_long-Completes rdv2 mem2 rdv3 mem3 d1 d2 d3 t k =
      elim (value_to_data-same rdv2 mem2 d2 t k) [
        | inl e ↦ panicked refl (ground arith)
        | inr (err c, e) ↦ returned (err c) k (ground arith) SameThreads-refl
        | inr (ok m2, e) ↦ elim (value_to_data-same rdv3 mem3 d3 t k) [
          | inl e' ↦ panicked refl (ground arith)
          | inr (err c, e') ↦ returned (err c) k (ground arith) SameThreads-refl
          | inr (ok m3, e') ↦ elim (removals-Completes rdv2 mem2 rdv3 mem3 d1 d2 d3 m2 m3 t k) [
            | panicked c p ↦ panicked c (ground arith)
            | returned a k' p q ↦ returned a k' (ground arith) q
          ]
        ]
      ]

  -- The threads are left alone, and only a long message can make the kernel panic.
  pub from_values-Completes :
      (t : Thread) (syscall_id d1 d2 d3 : ℕ) (k : Kernel Mem)
      → Completes
          (not (bit_and syscall_id message_long == 0))
          (from_values ops t syscall_id d1 d2 d3 k)
          (λ r k'.
            SameThreads k k'
            × ((m : Message)
                → r ≡ ok m
                → carries_memory m ≡ true
                → not (bit_and syscall_id message_long == 0) ≡ true))
  unfolding from_values
  from_values-Completes t syscall_id d1 d2 d3 k =
      elim (Bool-cases (bit_and syscall_id message_long == 0)) [
        | inl h ↦
            returned (ok (short d1 d2 d3)) k (ground arith)
              (SameThreads-refl, λ m e c. ground arith)
        | inr h ↦
            rw h
              (elim (from_long-Completes
                (bit_and syscall_id message_data2_type == message_data2_rdv)
                (bit_and syscall_id message_data2_type == message_data2_mem)
                (bit_and syscall_id message_data3_type == message_data3_rdv)
                (bit_and syscall_id message_data3_type == message_data3_mem) d1 d2 d3 t k) [
                  | panicked c p ↦ panicked refl p
                  | returned a k' p q ↦ returned a k' p (q, λ m e c. refl)
                ])
      ]
