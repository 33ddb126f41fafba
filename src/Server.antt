-- ===== src/Server.antt =====
-- euralios_std/src/server.rs: the threads that serve files and directories. The traits `FileLike` and
-- `DirLike` are the interface `FileSystem`, and the system calls that a handler makes the interface
-- `Calls`. `none` is a panic.
pub mod Handlers
pub mod Paths
pub mod ReadOnly
use eurali_os.Prelude.{
  ℕ, ◌+◌, Option, none, some, Bool, true, false, List, [], ◌∷◌, ◌==◌, if◌then◌else◌, ltb, not,
  bit_and, length,
}
use eurali_os.State.{Str, Result, ok, err}
use eurali_os.Std.{Message, short, long, MessageData, value, memory_handle, comm_handle}

-- An `Arc<RwLock<dyn DirLike>>` or `Arc<RwLock<dyn FileLike>>` is a number in a store of type `F`.
pub record FileSystem (F : Type 0) : Type 0 where
  pub get_dir : F → ℕ → Str → Result ℕ
  pub get_file : F → ℕ → Str → Result ℕ
  pub query : F → ℕ → Str
  pub make_dir : ℕ → Str → F → Result ℕ × F
  pub make_file : ℕ → Str → F → Result ℕ × F
  pub remove_file : ℕ → Str → F → Result ℕ × F
  pub len : F → ℕ → ℕ
  -- `read start buffer_len`: the bytes that are put into the buffer.
  pub read : F → ℕ → ℕ → ℕ → Result (List ℕ)
  pub write : ℕ → ℕ → List ℕ → F → Result ℕ × F
  pub clear : ℕ → F → Result (Unit {0}) × F

-- The rest of a server's process, of type `C`: system calls and memory. `as_slice handle length` is
-- what memory holds there; `put handle bytes` writes it. Text functions are the core library's, and
-- `components` is `Path::iter`.
pub record Calls (C : Type 0) : Type 0 where
  pub new_rendezvous : C → Result (ℕ × ℕ) × C
  pub spawn : C → Result (Unit {0}) × C
  pub malloc : ℕ → C → Result ℕ × C
  pub as_slice : C → ℕ → ℕ → List ℕ
  pub put : ℕ → List ℕ → C → C
  pub from_utf8 : List ℕ → Option Str
  pub as_bytes : Str → List ℕ
  pub components : Str → List Str

-- What a thread that was started serves, and on which handle.
pub data Service : Type 0 where
  directory : ℕ → ℕ → Bool → Service
  file_readwrite file_readonly : ℕ → ℕ → Service

-- The store, the process, the threads started and the replies sent, each the last first.
pub record World (F C : Type 0) : Type 0 where
  pub fs : F
  pub process : C
  pub started : List Service
  pub replies : List Message

abbrev pub msg_read : ℕ
msg_read = 1

abbrev pub msg_write : ℕ
msg_write = 2

abbrev pub msg_data : ℕ
msg_data = 2

abbrev pub msg_json : ℕ
msg_json = 4

abbrev pub msg_comm_handle : ℕ
msg_comm_handle = 6

abbrev pub msg_query : ℕ
msg_query = 7

abbrev pub msg_ok : ℕ
msg_ok = 8

abbrev pub msg_open : ℕ
msg_open = 16

abbrev pub open_flags_mask : ℕ
open_flags_mask = 15

abbrev pub o_read : ℕ
o_read = 0

abbrev pub o_write : ℕ
o_write = 1

abbrev pub o_create : ℕ
o_create = 2

abbrev pub o_truncate : ℕ
o_truncate = 4

abbrev pub msg_close : ℕ
msg_close = 32

abbrev pub msg_delete : ℕ
msg_delete = 33

abbrev pub msg_mkdir : ℕ
msg_mkdir = 64

abbrev pub msg_error : ℕ
msg_error = 129

abbrev pub msg_error_invalid_utf8 : ℕ
msg_error_invalid_utf8 = 131

abbrev pub msg_error_denied : ℕ
msg_error_denied = 134

abbrev pub error_notfound : ℕ
error_notfound = 7

abbrev pub error_not_dir : ℕ
error_not_dir = 15

abbrev pub error_no_data : ℕ
error_no_data = 16

abbrev pub has_flag : ℕ → ℕ → Bool
has_flag flags flag = bit_and flags flag == flag

-- `path.trim_start_matches('/')`
unfoldable pub trim_slashes : Str → Str
trim_slashes [] = []
trim_slashes (c ∷ s) = if c == b'/' then trim_slashes s else c ∷ s

-- What a call of `receive` in `dispatch_loop` brings.
pub data Received : Type 0 where
  message : Message → Received
  failed : ℕ → Received

abbrev pub error_recv_blocking : ℕ
error_recv_blocking = 2

abbrev pub error_closed : ℕ
error_closed = 12

abbrev pub is_close : Message → Bool
is_close (short tag d2 d3) = tag == msg_close
is_close (long tag d2 d3) = false

module _ {F C : Type 0} where
  -- The loop over what is received, to where it returns.
  unfoldable pub dispatch_loop :
      (Message → World F C → Option (World F C)) → List Received → World F C → Option (World F C)
  dispatch_loop f [] w = some w
  dispatch_loop f (message m ∷ rest) w =
      let next : Option (World F C) = elim (f m w) [
        | none ↦ none
        | some w' ↦ dispatch_loop f rest w'
      ] in
      if is_close m then some w else next
  dispatch_loop f (failed e ∷ rest) w =
      let waits = dispatch_loop f rest (record w { replies = short msg_error 0 0 ∷ w.replies }) in
      let again = dispatch_loop f rest w in
      if e == error_recv_blocking then waits else if e == error_closed then some w else again
