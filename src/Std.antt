-- ===== src/Std.antt =====
-- The messages of euralios_std as user programs see them: euralios_std/src/message.rs, with the system
-- calls of euralios_std/src/syscalls.rs that carry them. The `syscall` instruction is a parameter, a
-- function from the registers that a call reads to those that it returns.
pub mod Encoding
pub mod Agreement
pub mod Namespace
pub mod Files
pub mod Directories
use eurali_os.Prelude.{
  ℕ, zero, suc, ◌+◌, ◌*◌, ◌/◌, ◌%◌, ◌^◌, Option, none, some, Bool, true, false, bit_and, bit_or,
  ◌==◌, if◌then◌else◌,
}
use eurali_os.State.{Result, ok, err}
use eurali_os.Constants.{
  syscall_send, syscall_sendreceive, syscall_error_mask, syscall_error_contains_message,
  error_send_blocking, error_recv_blocking,
}

-- A `CommHandle`, a `MemoryHandle` and a `SyscallError` are the number that they hold.
pub data MessageData : Type 0 where
  value memory_handle comm_handle error : ℕ → MessageData

pub data Message : Type 0 where
  short : ℕ → ℕ → ℕ → Message
  long : ℕ → MessageData → MessageData → Message

abbrev pub message_long : ℕ
message_long = 2 ^ 8

abbrev pub message_data2_rdv : ℕ
message_data2_rdv = 1 * 2 ^ 9

abbrev pub message_data2_mem : ℕ
message_data2_mem = 2 * 2 ^ 9

abbrev pub message_data2_err : ℕ
message_data2_err = 3 * 2 ^ 9

abbrev pub message_data2_type : ℕ
message_data2_type = bit_or (bit_or message_data2_rdv message_data2_mem) message_data2_err

abbrev pub message_data3_rdv : ℕ
message_data3_rdv = 1 * 2 ^ 11

abbrev pub message_data3_mem : ℕ
message_data3_mem = 2 * 2 ^ 11

abbrev pub message_data3_err : ℕ
message_data3_err = 3 * 2 ^ 11

abbrev pub message_data3_type : ℕ
message_data3_type = bit_or (bit_or message_data3_rdv message_data3_mem) message_data3_err

-- The control bits and the value of a part of a message.
abbrev pub data_values : ℕ → ℕ → ℕ → MessageData → ℕ × ℕ
data_values rdv mem er (value v) = (0, v)
data_values rdv mem er (comm_handle h) = (rdv, h)
data_values rdv mem er (memory_handle h) = (mem, h)
data_values rdv mem er (error e) = (er, e)

pub record Values : Type 0 where
  pub ctrl : ℕ
  pub data1 : ℕ
  pub data2 : ℕ
  pub data3 : ℕ

-- `Message::to_values`, which always succeeds.
unfoldable pub to_values : Message → Values
to_values (short d1 d2 d3) = record { ctrl = 0; data1 = d1; data2 = d2; data3 = d3 }
to_values (long d1 d2 d3) =
    let (bits2, value2) = data_values message_data2_rdv message_data2_mem message_data2_err d2 in
    let (bits3, value3) = data_values message_data3_rdv message_data3_mem message_data3_err d3 in
    record {
      ctrl = bit_or (bit_or message_long bits2) bits3;
      data1 = d1;
      data2 = value2;
      data3 = value3;
    }

-- `match ctrl & MESSAGE_DATA2_TYPE` and the same for the third value; a communication handle has 32
-- bits.
abbrev pub values_data : ℕ → ℕ → ℕ → ℕ → ℕ → MessageData
values_data rdv mem er kind v =
    if kind == rdv
    then comm_handle (v % 2 ^ 32)
    else if kind == mem
    then memory_handle v
    else if kind == er
    then error v
    else value v

unfoldable pub from_values : Values → Message
from_values v =
    if bit_and v.ctrl message_long == 0
    then short v.data1 v.data2 v.data3
    else long v.data1
        (values_data message_data2_rdv message_data2_mem message_data2_err
          (bit_and v.ctrl message_data2_type) v.data2)
        (values_data message_data3_rdv message_data3_mem message_data3_err
          (bit_and v.ctrl message_data3_type) v.data3)

-- A message that fails to go out comes back with its error.
pub data Sent (A : Type 0) : Type 0 where
  sent : A → Sent A
  refused : ℕ → Message → Sent A

-- rax of a call that carries a message.
unfoldable pub call_register : ℕ → ℕ → ℕ → ℕ
call_register number ctrl handle = bit_or (bit_or number ctrl) (handle * 2 ^ 32)

module _ {S : Type 0} (syscall : Values → S → Values × S) where
  -- The error branches of `send` and `send_receive`, with the values that were sent and returned.
  abbrev pub refusal : {A : Type 0} → Values → Values → Sent A
  refusal v back =
      if bit_and back.ctrl syscall_error_contains_message == 0
      then refused (bit_and back.ctrl syscall_error_mask) (from_values v)
      else refused (bit_and back.ctrl syscall_error_mask) (from_values back)

  unfoldable pub send : ℕ → Message → S → Sent (Unit {0}) × S
  unfolding to_values from_values call_register
  send handle message s =
      let v = to_values message in
      let (back, s') = syscall (record v { ctrl = call_register syscall_send v.ctrl handle }) s in
      (if bit_and back.ctrl syscall_error_mask == 0 then sent tt else refusal v back, s')

  unfoldable pub send_receive : ℕ → Message → S → Sent Message × S
  unfolding to_values from_values call_register
  send_receive handle message s =
      let v = to_values message in
      let (back, s') =
        syscall (record v { ctrl = call_register syscall_sendreceive v.ctrl handle }) s in
      (
        if bit_and back.ctrl syscall_error_mask == 0
            then sent (from_values back)
            else refusal v back,
        s',
      )

  unfoldable pub receive : ℕ → S → Result Message × S
  unfolding from_values
  receive handle s =
      let (back, s') = syscall (record { ctrl = 3; data1 = handle; data2 = 0; data3 = 0 }) s in
      (
        if bit_and back.ctrl 0xFF == 0 then ok (from_values back) else err (bit_and back.ctrl 0xFF),
        s',
      )

  -- `SYSCALL_YIELD`
  abbrev pub thread_yield : S → S
  thread_yield s = (syscall (record { ctrl = 9; data1 = 0; data2 = 0; data3 = 0 }) s).1

  abbrev pub error_message : ℕ
  error_message = 129

  -- What `rcall` makes of an answer.
  unfoldable pub answer : Option ℕ → Message → Sent (ℕ × MessageData × MessageData)
  answer expected (short d1 d2 d3) =
      if d1 == error_message then refused d2 (short error_message d2 d3) else (elim expected [
        | none ↦ sent (d1, value d2, value d3)
        | some e ↦ (if d1 == e then sent (d1, value d2, value d3) else refused 0 (short d1 d2 d3))
      ])
  answer expected (long d1 d2 d3) = elim expected [
    | none ↦ sent (d1, d2, d3)
    | some e ↦ (if d1 == e then sent (d1, d2, d3) else refused 0 (long d1 d2 d3))
  ]

  abbrev pub is_blocking : ℕ → Bool
  is_blocking e = if e == error_send_blocking then true else e == error_recv_blocking

  -- The loop of `rcall`, with `left` of the MAX_RETRIES to go.
  unfoldable pub call_loop :
      ℕ → ℕ → Option ℕ → Message → S → Sent (ℕ × MessageData × MessageData) × S
  unfolding send_receive answer
  call_loop zero handle expected message s =
      let (result, s') = send_receive handle message s in
      elim result [
        | sent m ↦ (answer expected m, s')
        | refused e m ↦ (refused (if is_blocking e then error_send_blocking else e) m, s')
      ]
  call_loop (suc left) handle expected message s =
      let (result, s') = send_receive handle message s in
      elim result [
        | sent m ↦ (answer expected m, s')
        | refused e m ↦ (elim (is_blocking e) [
          | true ↦ call_loop left handle expected m (thread_yield s')
          | false ↦ (refused e m, s')
        ])
      ]

  abbrev pub call_message : ℕ → MessageData → MessageData → Message
  call_message d1 (value v2) (value v3) = short d1 v2 v3
  call_message d1 d2 d3 = long d1 d2 d3

  unfoldable pub rcall :
      ℕ → ℕ → MessageData → MessageData → Option ℕ → S → Sent (ℕ × MessageData × MessageData) × S
  unfolding call_loop
  rcall handle d1 d2 d3 expected s = call_loop 100 handle expected (call_message d1 d2 d3) s
