-- ===== src/Std/Encoding.antt =====
-- `from_values` reads back the values that `to_values` makes of a message.
use eurali_os.Prelude.{ℕ, ◌^◌, ◌<◌, ◌≡◌, refl, ap, arith, false, bit_and, bit_or, ◌==◌}
use eurali_os.Std.{
  MessageData, value, memory_handle, comm_handle, error, Message, short, long, to_values,
  from_values, data_values, values_data, message_data2_rdv, message_data2_mem, message_data2_err,
  message_data3_rdv, message_data3_mem, message_data3_err, message_long, message_data2_type,
  message_data3_type,
}

-- A communication handle is a u32.
abbrev pub HasHandle : MessageData → Type 0
HasHandle (comm_handle h) = h < 2 ^ 32
HasHandle (value v) = Unit
HasHandle (memory_handle h) = Unit
HasHandle (error e) = Unit

abbrev pub HasHandles : Message → Type 0
HasHandles (short d1 d2 d3) = Unit
HasHandles (long d1 d2 d3) = HasHandle d2 × HasHandle d3

abbrev pub data2 : MessageData → ℕ × ℕ
data2 = data_values message_data2_rdv message_data2_mem message_data2_err

abbrev pub data3 : MessageData → ℕ × ℕ
data3 = data_values message_data3_rdv message_data3_mem message_data3_err

second_part :
    (d : MessageData)
    → HasHandle d
    → values_data message_data2_rdv message_data2_mem message_data2_err (data2 d).0 (data2 d).1 ≡ d
second_part (value x) h = refl
second_part (memory_handle x) h = refl
second_part (comm_handle x) h = ap comm_handle (omega arith)
second_part (error x) h = refl

third_part :
    (d : MessageData)
    → HasHandle d
    → values_data message_data3_rdv message_data3_mem message_data3_err (data3 d).0 (data3 d).1 ≡ d
third_part (value x) h = refl
third_part (memory_handle x) h = refl
third_part (comm_handle x) h = ap comm_handle (omega arith)
third_part (error x) h = refl

abbrev pub control : MessageData → MessageData → ℕ
control d2 d3 = bit_or (bit_or message_long (data2 d2).0) (data3 d3).0

-- The bits of the two parts do not meet.
control_lem :
    (d2 d3 : MessageData)
    → ((bit_and (control d2 d3) message_long == 0) ≡ false)
      × (bit_and (control d2 d3) message_data2_type ≡ (data2 d2).0)
      × (bit_and (control d2 d3) message_data3_type ≡ (data3 d3).0)
control_lem (value x) (value y) = (refl, refl, refl)
control_lem (value x) (memory_handle y) = (refl, refl, refl)
control_lem (value x) (comm_handle y) = (refl, refl, refl)
control_lem (value x) (error y) = (refl, refl, refl)
control_lem (memory_handle x) (value y) = (refl, refl, refl)
control_lem (memory_handle x) (memory_handle y) = (refl, refl, refl)
control_lem (memory_handle x) (comm_handle y) = (refl, refl, refl)
control_lem (memory_handle x) (error y) = (refl, refl, refl)
control_lem (comm_handle x) (value y) = (refl, refl, refl)
control_lem (comm_handle x) (memory_handle y) = (refl, refl, refl)
control_lem (comm_handle x) (comm_handle y) = (refl, refl, refl)
control_lem (comm_handle x) (error y) = (refl, refl, refl)
control_lem (error x) (value y) = (refl, refl, refl)
control_lem (error x) (memory_handle y) = (refl, refl, refl)
control_lem (error x) (comm_handle y) = (refl, refl, refl)
control_lem (error x) (error y) = (refl, refl, refl)

-- A message that goes through the registers comes out as it was.
pub from_values-to_values : (m : Message) → HasHandles m → from_values (to_values m) ≡ m
unfolding from_values to_values
from_values-to_values (short d1 d2 d3) h = refl
from_values-to_values (long d1 d2 d3) (h, k) =
    let (is_long, kind2, kind3) = control_lem d2 d3 in
    rw (is_long, kind2, kind3) (cc (second_part d2 h, third_part d3 k))
