-- ===== src/Syscalls.antt =====
-- kernel/src/syscalls.rs: the system calls that pass messages, and those that give up the processor.
-- `context_ptr` is the address of the caller's saved registers. A call ends by a return to the
-- caller, or by a switch to the registers at another address.
pub mod Settling
pub mod Conservation
pub mod Closing
use eurali_os.Prelude.{
  ℕ, ◌+◌, ◌*◌, ◌/◌, ◌^◌, Option, none, some, Bool, true, false, List, [], ◌∷◌, update, bit_and,
  ◌==◌, if◌then◌else◌, ◌&&◌, length,
}
use eurali_os.State.{
  Str, Context, Thread, MessageData, rendezvous, memory, value, Message, short, long, Rendezvous,
  empty, sending, receiving, send_receiving, Result, ok, err, Kernel, M, pure, ◌>>=◌, ◌>>◌,
  MemoryOps,
}
use eurali_os.Constants.{
  syscall_mask, syscall_send, syscall_sendreceive, error_invalid_handle, error_closed, error_param,
  error_utf8, error_notfound, error_memory, error_thread,
}
use eurali_os.Threads.{
  modify_context, return_error, take_rendezvous, give_rendezvous, virt_addr, add_handle,
  set_handles,
}
use eurali_os.Threads
use eurali_os.Messages.{from_values}
use eurali_os.Channels.{Woken, set_cell, send, receive, send_receive, close}
use eurali_os.Mounts.{Mounts, mount, umount, open_mount}
use eurali_os.Scheduler.{
  schedule_thread, take_current_thread, set_current_thread, schedule_next, await_interrupt,
}

-- How a system call ends.
pub data Exit : Type 0 where
  returns : Exit
  launches : ℕ → Exit

-- The handles of the list that name `r`.
unfoldable pub count_handles : ℕ → List (Option ℕ) → ℕ
count_handles r [] = 0
count_handles r (none ∷ hs) = count_handles r hs
count_handles r (some q ∷ hs) = (if q == r then 1 else 0) + count_handles r hs

unfoldable pub count_mounts : ℕ → Mounts → ℕ
count_mounts r [] = 0
count_mounts r ((p, q) ∷ ms) = (if q == r then 1 else 0) + count_mounts r ms

unfoldable pub count_data : ℕ → MessageData → ℕ
count_data r (rendezvous q) = if q == r then 1 else 0
count_data r _ = 0

unfoldable pub count_message : ℕ → Message → ℕ
unfolding count_data
count_message r (short a b c) = 0
count_message r (long a d e) = count_data r d + count_data r e

unfoldable pub count_cell : ℕ → Rendezvous → ℕ
unfolding count_message
count_cell r empty = 0
count_cell r (sending t m) = count_message r m
count_cell r (receiving t o) = 0
count_cell r (send_receiving t m) = count_message r m

-- The sum of `f` below `n`.
unfoldable pub sum_below : ℕ → (ℕ → ℕ) → ℕ
sum_below ℕ.zero f = 0
sum_below (ℕ.suc n) f = f n + sum_below n f

-- `thread.set_context(context_ptr)`
abbrev pub with_context : ℕ → Thread → Thread
with_context context_ptr t = record t { context = context_ptr }

module _ {Mem : Type 0} where
  -- `Arc::strong_count`, as far as the kernel's state holds references: process handles, mount
  -- points, and messages that wait in a rendezvous.
  unfoldable pub references : ℕ → Kernel Mem → ℕ
  unfolding count_handles count_mounts count_cell sum_below
  references r k =
      sum_below k.process_count (λ p. count_handles r (k.processes p).handles)
      + sum_below k.mount_table_count (λ v. count_mounts r (k.mount_tables v))
      + sum_below k.rendezvous_count (λ q. count_cell r (k.rendezvous_cells q))

  -- The count while a local variable holds one more reference.
  unfoldable pub strong_count : ℕ → M Mem ℕ
  strong_count r k = some (references r k + 1, k)

  -- `if t.tid() == current_tid { set_current_thread(t) } else { schedule_thread(t) }`; the result
  -- says whether the caller runs on.
  unfoldable pub dispatch_thread : ℕ → Option Thread → M Mem Bool
  dispatch_thread current_tid none = pure false
  dispatch_thread current_tid (some t) =
      if t.tid == current_tid
      then (do set_current_thread t; pure true)
      else (do schedule_thread t; pure false)

  abbrev pub switch : ℕ → M Mem Exit
  switch context_ptr k = let (addr, k') = schedule_next context_ptr k in some (launches addr, k')

  -- The loop over `[thread2, thread1]`, and the switch where the caller waits.
  unfoldable pub dispatch_woken : ℕ → ℕ → Woken → M Mem Exit
  unfolding dispatch_thread
  dispatch_woken context_ptr current_tid (thread1, thread2) = do
    returning2 ← dispatch_thread current_tid thread2
    returning1 ← dispatch_thread current_tid thread1
    elim returning2 [
      | true ↦ pure returns
      | false ↦ (elim returning1 [ true ↦ pure returns | false ↦ switch context_ptr ])
    ]

  -- `thread.return_error(code); set_current_thread(thread)`
  unfoldable pub fail_with : Thread → ℕ → M Mem Exit
  fail_with t code = do return_error t code; set_current_thread t; pure returns

  unfoldable pub sys_yield : ℕ → M Mem Exit
  sys_yield context_ptr = switch context_ptr

  unfoldable pub sys_await_interrupt : ℕ → M Mem Exit
  sys_await_interrupt context_ptr = do
    current ← take_current_thread
    elim current [
      | none ↦ pure returns
      | some t ↦ (do await_interrupt (with_context context_ptr t); switch context_ptr)
    ]

module _ {Mem : Type 0} (ops : MemoryOps Mem) where
  unfoldable pub sys_receive : ℕ → ℕ → M Mem Exit
  sys_receive context_ptr handle = do
    current ← take_current_thread
    elim current [
      | none ↦ pure returns
      | some caller ↦ (do
        let t = with_context context_ptr caller
        found ← Threads.rendezvous t handle
        elim found [
          | none ↦ fail_with t error_invalid_handle
          | some r ↦ (do back ← receive ops r t; dispatch_woken context_ptr t.tid back)
        ])
    ]

  -- The `match` on the call number where a message is ready.
  unfoldable pub send_message : ℕ → ℕ → Thread → Message → M Mem Woken
  send_message call r t message k =
      if call == syscall_send
      then send ops r (some t) message k
      else if call == syscall_sendreceive
      then send_receive ops r t message k
      else none

  unfoldable pub sys_send : ℕ → ℕ → ℕ → ℕ → ℕ → M Mem Exit
  unfolding send_message
  sys_send context_ptr syscall_id data1 data2 data3 = do
    current ← take_current_thread
    elim current [
      | none ↦ pure returns
      | some caller ↦ (do
        let t = with_context context_ptr caller
        found ← Threads.rendezvous t (syscall_id / 2 ^ 32)
        elim found [
          | none ↦ fail_with t error_invalid_handle
          | some r ↦ (do
            count ← strong_count r
            if count == 2 then fail_with t error_closed else (do
              created ← from_values ops t syscall_id data1 data2 data3
              elim created [
                | err code ↦ fail_with t code
                | ok message ↦ (do
                  back ← send_message (bit_and syscall_id syscall_mask) r t message
                  dispatch_woken context_ptr t.tid back)
              ]))
        ])
    ]

  -- `if strong_count == 2` in `sys_close`: the waiting thread, if any.
  unfoldable pub close_if_last : ℕ → M Mem (Option Thread)
  close_if_last r = do count ← strong_count r; if count == 2 then close ops r else pure none

  -- A reference that is dropped: where it was the last one, the Rendezvous goes, and with it the thread
  -- that waits there, if any. What the thread and its message own then is not followed here.
  unfoldable pub drop_rendezvous : ℕ → M Mem (Unit {0})
  drop_rendezvous r k =
      if references r k == 0
      then some (tt, record k { rendezvous_cells = update k.rendezvous_cells r empty })
      else some (tt, k)

  -- What `sys_close` does with `rdv`, to the end of its scope. Where a thread is woken, another handle
  -- holds the Rendezvous.
  unfoldable pub let_go : ℕ → M Mem (Option Thread)
  unfolding close_if_last drop_rendezvous
  let_go r = do
    woken ← close_if_last r
    elim woken [ none ↦ (do drop_rendezvous r; pure none) | some waiter ↦ pure (some waiter) ]

  unfoldable pub sys_close : ℕ → ℕ → M Mem Exit
  unfolding let_go
  sys_close context_ptr handle = do
    current ← take_current_thread
    elim current [
      | none ↦ pure returns
      | some caller ↦ (do
        let t = with_context context_ptr caller
        taken ← take_rendezvous t handle
        elim taken [
          | none ↦ (do set_current_thread t; pure returns)
          | some r ↦ (do
            woken ← let_go r
            elim woken [
              | none ↦ (do set_current_thread t; pure returns)
              | some waiter ↦ (do schedule_thread t; schedule_thread waiter; switch context_ptr)
            ])
        ])
    ]
