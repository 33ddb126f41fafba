-- ===== src/Messages.antt =====
-- kernel/src/message.rs: messages to register values and back.
pub mod Transfer
pub mod Delivery
use eurali_os.Prelude.{
  ℕ, bit_and, bit_or, Option, none, some, Bool, true, false, ◌==◌, if◌then◌else◌,
}
use eurali_os.State.{
  Thread, MessageData, value, rendezvous, memory, Message, short, long, Result, ok, err, Kernel, M,
  pure, ◌>>=◌, ◌>>◌, MemoryOps, Context,
}
use eurali_os.Constants.{
  syscall_error_mask, syscall_error_contains_message, error_invalid_handle, message_long,
  message_data2_rdv, message_data2_mem, message_data2_err, message_data2_type, message_data3_rdv,
  message_data3_mem, message_data3_err, message_data3_type,
}
use eurali_os.Threads.{
  modify_context, take_rendezvous, give_rendezvous, virt_addr, memory_chunk, take_memory_chunk,
  give_memory_chunk,
}
use eurali_os.Threads

-- The registers that a message is returned in: control bits and three values.
pub record Values : Type 0 where
  pub ctrl : ℕ
  pub data1 : ℕ
  pub data2 : ℕ
  pub data3 : ℕ

-- The registers of a thread that receives a message, with an error unless `error` is 0.
unfoldable pub load_values : ℕ → Values → Context → Context
load_values error v c = record c {
  rax =
      if error == 0
      then v.ctrl
      else bit_or v.ctrl (bit_or syscall_error_contains_message (bit_and error syscall_error_mask));
  rdi = v.data1;
  rsi = v.data2;
  rdx = v.data3;
}

module _ {Mem : Type 0} (ops : MemoryOps Mem) where
  -- The `match` on `data2` (and on `data3`, with other bits) in `to_values`: the bits that are set
  -- in `ctrl` and the value.
  unfoldable pub data_to_value : ℕ → ℕ → ℕ → MessageData → Thread → M Mem (ℕ × ℕ)
  data_to_value rdv_bit mem_bit err_bit (value v) t = pure (0, v)
  data_to_value rdv_bit mem_bit err_bit (rendezvous r) t = do
    i ← give_rendezvous t r
    pure (bit_or rdv_bit message_long, i)
  data_to_value rdv_bit mem_bit err_bit (memory p) t = do
    r ← give_memory_chunk ops t p
    elim r [
      | ok virtaddr ↦ pure (bit_or mem_bit message_long, virtaddr)
      | err code ↦ pure (bit_or err_bit message_long, code)
    ]

  unfoldable pub to_values : Message → Thread → M Mem Values
  to_values (short d1 d2 d3) t = pure (record { ctrl = 0; data1 = d1; data2 = d2; data3 = d3 })
  to_values (long d1 d2 d3) t = do
    (c2, v2) ← data_to_value message_data2_rdv message_data2_mem message_data2_err d2 t
    (c3, v3) ← data_to_value message_data3_rdv message_data3_mem message_data3_err d3 t
    pure (record { ctrl = bit_or (bit_or 0 c2) c3; data1 = d1; data2 = v2; data3 = v3 })

  -- `match syscall_id & MESSAGE_DATA2_TYPE` where the message is built: handles are looked up.
  unfoldable pub value_to_data : Bool → Bool → ℕ → Thread → M Mem (Result MessageData)
  value_to_data true is_mem v t = do
    found ← Threads.rendezvous t v
    elim found [ none ↦ pure (err error_invalid_handle) | some r ↦ pure (ok (rendezvous r)) ]
  value_to_data false true v t = do
    a ← virt_addr ops v
    r ← memory_chunk ops t a
    elim r [ err e ↦ pure (err e) | ok (physaddr, level) ↦ pure (ok (memory physaddr)) ]
  value_to_data false false v t = pure (ok (value v))

  -- The same `match` where the handles being moved are removed.
  unfoldable pub remove_moved : Bool → Bool → ℕ → Thread → M Mem (Unit {0})
  remove_moved true is_mem v t = do _ ← take_rendezvous t v; pure tt
  remove_moved false true v t = do a ← virt_addr ops v; _ ← take_memory_chunk ops t a; pure tt
  remove_moved false false v t = pure tt

  unfoldable pub from_long : Bool → Bool → Bool → Bool → ℕ → ℕ → ℕ → Thread → M Mem (Result Message)
  from_long rdv2 mem2 rdv3 mem3 data1 data2 data3 t = do
    r2 ← value_to_data rdv2 mem2 data2 t
    elim r2 [
      | err e ↦ pure (err e)
      | ok d2 ↦ (do
        r3 ← value_to_data rdv3 mem3 data3 t
        elim r3 [
          | err e ↦ pure (err e)
          | ok d3 ↦ (do
            remove_moved rdv2 mem2 data2 t
            remove_moved rdv3 mem3 data3 t
            pure (ok (long data1 d2 d3)))
        ])
    ]

  unfoldable pub from_values : Thread → ℕ → ℕ → ℕ → ℕ → M Mem (Result Message)
  from_values t syscall_id data1 data2 data3 =
      if bit_and syscall_id message_long == 0
      then pure (ok (short data1 data2 data3))
      else (let type2 = bit_and syscall_id message_data2_type in
          let type3 = bit_and syscall_id message_data3_type in
          from_long (type2 == message_data2_rdv) (type2 == message_data2_mem)
            (type3 == message_data3_rdv) (type3 == message_data3_mem) data1 data2 data3 t)

  -- `Thread::return_error_message` of kernel/src/process.rs.
  unfoldable pub return_error_message : Thread → ℕ → Message → M Mem (Unit {0})
  return_error_message t error message = do
    v ← to_values message t
    modify_context t.context (load_values error v)

  unfoldable pub return_message : Thread → Message → M Mem (Unit {0})
  unfolding return_error_message
  return_message t message = return_error_message t 0 message
