-- ===== src/Std/Files.antt =====
-- euralios_std/src/fs.rs and the calls of euralios_std/src/syscalls.rs that it makes: how a program opens,
-- reads and writes files. `none` is a panic. A handle that goes out of scope is closed, and memory is
-- freed.
use eurali_os.Prelude.{
  ℕ, ◌+◌, ◌/◌, ◌^◌, Option, none, some, Bool, true, false, ◌||◌, List, [], ◌∷◌, ◌==◌, if◌then◌else◌,
  ltb, bit_and, length, drop,
}
use eurali_os.State.{Result, ok, err}
use eurali_os.Std.{
  Message, short, long, MessageData, value, memory_handle, comm_handle, Values, sent, refused,
  rcall,
}
use eurali_os.Server.{
  msg_read, msg_write, msg_data, msg_comm_handle, msg_ok, msg_open, o_read, o_write, o_create,
  o_truncate,
}
use eurali_os.Ramdisk.{error_param}

pub record OpenOptions : Type 0 where
  pub write : Bool
  pub append : Bool
  pub create : Bool
  pub truncate : Bool

abbrev pub no_options : OpenOptions
no_options = record { write = false; append = false; create = false; truncate = false }

abbrev pub when : Bool → ℕ → ℕ
when b flag = if b then flag else 0

unfoldable pub open_flags : OpenOptions → ℕ
open_flags o =
    o_read
    + when (o.write || o.append) o_write
    + when o.create o_create
    + when o.truncate o_truncate

abbrev pub open_readonly : ℕ
open_readonly = msg_open + o_read

abbrev pub max_size : ℕ
max_size = 0xFFFF_FFFF_FFFF_FFFF

-- Where a string may be cut.
abbrev pub is_char_boundary : List ℕ → Bool
is_char_boundary [] = true
is_char_boundary (c ∷ s) = if bit_and c 0xC0 == 0x80 then false else true

-- The kernel is `syscall`. `put` and `as_slice` write and read the program's memory, `address` is where
-- a string is.
module _ {S : Type 0} (syscall : Values → S → Values × S) (put : ℕ → List ℕ → S → S)
    (as_slice : S → ℕ → ℕ → List ℕ) (address : List ℕ → ℕ) where
  -- `CommHandle::drop` and `MemoryHandle::drop`
  unfoldable pub close_handle : ℕ → S → S
  close_handle h s =
      if h == 0 then s else (syscall (record { ctrl = 16; data1 = h; data2 = 0; data3 = 0 }) s).1

  unfoldable pub free_memory : ℕ → S → S
  free_memory h s =
      if h == 0 then s else (syscall (record { ctrl = 8; data1 = h; data2 = 0; data3 = 0 }) s).1

  unfoldable pub drop_part : MessageData → S → S
  unfolding close_handle free_memory
  drop_part (memory_handle h) s = free_memory h s
  drop_part (comm_handle h) s = close_handle h s
  drop_part d s = s

  unfoldable pub drop_message : Message → S → S
  unfolding drop_part
  drop_message (short d1 d2 d3) s = s
  drop_message (long d1 d2 d3) s = drop_part d3 (drop_part d2 s)

  -- `malloc`: an address and a physical address.
  unfoldable pub malloc : ℕ → ℕ → S → Result (ℕ × ℕ) × S
  malloc num_bytes max_physaddr s =
      let num_pages = num_bytes / 2 ^ 12 + (if bit_and num_bytes 4095 == 0 then 0 else 1) in
      let (back, s') =
        syscall (record { ctrl = 7; data1 = num_pages; data2 = max_physaddr; data3 = 0 }) s in
      if num_bytes == 0
      then (err error_param, s)
      else (if back.ctrl == 0 then ok (back.data1, back.data2) else err back.ctrl, s')

  -- `MemoryHandle::from_u8_slice`
  unfoldable pub from_u8_slice : List ℕ → S → Option (ℕ × S)
  unfolding malloc
  from_u8_slice values s =
      let (memory, s') = malloc (length values) 0 s in
      elim memory [ err _ ↦ none | ok (mem, physical) ↦ some (mem, put mem values s') ]

  -- `_open`: the kernel finds the mount point, and its server gets the rest of the path.
  unfoldable pub open_below : ℕ → ℕ → List ℕ → S → Option (Result ℕ × S)
  unfolding from_u8_slice drop_part drop_message close_handle
  open_below handle flags bytes s = elim (from_u8_slice bytes s) [
    | none ↦ none
    | some (mem, s') ↦
        (let (answer, s'') =
            rcall syscall handle (open_readonly + flags) (value (length bytes)) (memory_handle mem)
              none s' in
          some (elim answer [
            | sent (tag, comm_handle h, d3) ↦
                (if tag == msg_comm_handle
                  then (ok h, close_handle handle (drop_part d3 s''))
                  else (err 0, close_handle handle (drop_part d3 (close_handle h s''))))
            | sent (tag, d2, d3) ↦ (err 0, close_handle handle (drop_part d3 (drop_part d2 s'')))
            | refused e m ↦ (err e, close_handle handle (drop_message m s''))
          ]))
  ]

  unfoldable pub open_path : List ℕ → ℕ → S → Option (Result ℕ × S)
  unfolding open_below
  open_path path flags s =
      let (back, s') =
        syscall (record { ctrl = 6; data1 = address path; data2 = length path; data3 = 0 }) s in
      let subpath = drop back.data2 path in
      let below = open_below back.data1 flags subpath s' in
      if back.ctrl == 0
      then (if ltb (length path) back.data2
          then none
          else if is_char_boundary subpath
          then (if length subpath == 0 then some (ok back.data1, s') else below)
          else none)
      else some (err back.ctrl, s')

  -- `File::write`
  unfoldable pub write_file : ℕ → List ℕ → S → Option (Result ℕ × S)
  unfolding from_u8_slice drop_part drop_message
  write_file handle buf s = elim (from_u8_slice buf s) [
    | none ↦ none
    | some (mem, s') ↦
        (let (answer, s'') =
            rcall syscall handle msg_write (value (length buf)) (memory_handle mem) none s' in
          some (elim answer [
            | sent (tag, value sent_length, d3) ↦
                (if tag == msg_ok then ok sent_length else err error_param, drop_part d3 s'')
            | sent (tag, d2, d3) ↦ (err error_param, drop_part d3 (drop_part d2 s''))
            | refused e m ↦ (err e, drop_message m s'')
          ]))
  ]

  -- `File::read_to_end`: what is added to the buffer.
  unfoldable pub read_to_end : ℕ → S → Result (List ℕ) × S
  unfolding drop_part drop_message
  read_to_end handle s =
      let (answer, s') = rcall syscall handle msg_read (value 0) (value max_size) none s in
      elim answer [
        | sent (tag, value length, memory_handle mem) ↦ (
          if tag == msg_data then ok (as_slice s' mem length) else err error_param,
          drop_part (memory_handle mem) s',
        )
        | sent (tag, d2, d3) ↦ (err error_param, drop_part d3 (drop_part d2 s'))
        | refused e m ↦ (err e, drop_message m s')
      ]
