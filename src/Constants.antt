-- ===== src/Constants.antt =====
-- The constants of kernel/src/syscalls.rs and of kernel/src/message.rs.
use eurali_os.Prelude.{ℕ}

abbrev pub syscall_mask : ℕ
syscall_mask = 0xFF

abbrev pub syscall_send : ℕ
syscall_send = 4

abbrev pub syscall_sendreceive : ℕ
syscall_sendreceive = 5

abbrev pub syscall_error_mask : ℕ
syscall_error_mask = 127

abbrev pub syscall_error_contains_message : ℕ
syscall_error_contains_message = 128

abbrev pub error_send_blocking : ℕ
error_send_blocking = 1

abbrev pub error_recv_blocking : ℕ
error_recv_blocking = 2

abbrev pub error_invalid_handle : ℕ
error_invalid_handle = 3

abbrev pub error_memalloc : ℕ
error_memalloc = 4

abbrev pub error_param : ℕ
error_param = 5

abbrev pub error_utf8 : ℕ
error_utf8 = 6

abbrev pub error_notfound : ℕ
error_notfound = 7

abbrev pub error_thread : ℕ
error_thread = 8

abbrev pub error_memory : ℕ
error_memory = 9

abbrev pub error_doublefree : ℕ
error_doublefree = 10

abbrev pub error_nomemslots : ℕ
error_nomemslots = 11

abbrev pub error_closed : ℕ
error_closed = 12

abbrev pub message_long : ℕ
message_long = 0x100

abbrev pub message_data2_rdv : ℕ
message_data2_rdv = 0x200

abbrev pub message_data2_mem : ℕ
message_data2_mem = 0x400

abbrev pub message_data2_err : ℕ
message_data2_err = 0x600

abbrev pub message_data2_type : ℕ
message_data2_type = 0x600

abbrev pub message_data3_rdv : ℕ
message_data3_rdv = 0x800

abbrev pub message_data3_mem : ℕ
message_data3_mem = 0x1000

abbrev pub message_data3_err : ℕ
message_data3_err = 0x1800

abbrev pub message_data3_type : ℕ
message_data3_type = 0x1800
