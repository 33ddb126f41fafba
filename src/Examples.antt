-- ===== src/Examples.antt =====
-- The concrete states that the tests use.
mod Calls
mod Tables
mod Memory
mod Frames
mod Pages
mod Screen
mod Servers
use Prim.Native.Char.{code}
use Prim.Native.String.{String}
use mathlib.Core.List.{Perm}
use eurali_os.Frames.Bits.{bit, nonzero_bit_index_lem}
use eurali_os.Frames.Levels.{Suffices, num_levels_needed-Suffices}
use eurali_os.Frames.Returns.{return_frame_lost, fetch_frame-return_frame}
use eurali_os.Frames.{
  Allocator, fetch_frame, return_frame, consecutive_frames, num_levels_needed, nonzero_bit_index,
}
use eurali_os.Prelude.{
  ℕ, ◌+◌, to_list, ◌≡◌, refl, ◌≢◌, inr, arith, true, false, Option, none, some, List, [], ◌∷◌, ltb,
  ◌==◌, if◌then◌else◌, ◌<◌, ◌^◌, bit_or, bit_and,
}
use eurali_os.State.{
  Context, Thread, value, memory, Message, short, long, Rendezvous, empty, sending, receiving,
  send_receiving, ok, Kernel, MemoryOps,
}
use eurali_os.Constants.{
  error_recv_blocking, syscall_error_contains_message, message_long, message_data2_rdv,
}
use eurali_os.Threads
use eurali_os.Threads.{give_handle, take_handle, get_handle, add_handle}
use eurali_os.Threads.Handles.{Adds, give_handle_lem, take-give, give_handle-add_handle}
use eurali_os.Messages.{from_values, to_values, Values, from_long, value_to_data}
use eurali_os.Messages.Delivery.{Completes}
use eurali_os.Messages.Transfer.{
  from_values-err, handle_moves, chunk_sent_twice, not_canonical_panics,
}
use eurali_os.Channels.{send, receive, send_receive, close}
use eurali_os.Channels.Moves.{Keeps, woken}
use eurali_os.Channels.Ownership.{send-Keeps, receive-Keeps, send_receive-Keeps, close-Keeps}
use eurali_os.Channels.Protocol.{Got, send-delivers, receive-delivers, call_reply}
use eurali_os.Mounts.{
  open_mount, mount, umount, normalise, byte_len, as_bytes, encode_utf8, starts_with,
}
use eurali_os.Mounts.Open.{Opens, open_mount-Opens}
use eurali_os.Mounts.Change.{Umounts, umount-Umounts, open_mount-mount}
use eurali_os.Scheduler.{schedule_next, saved}
use eurali_os.Scheduler.Rounds.{
  runnable, schedule_next-perm, ticks, Runs, queued-Runs, interrupted_resumes,
}
use eurali_os.Syscalls.{sys_send, sys_receive}
use eurali_os.Syscalls.Settling.{Population}
use eurali_os.Syscalls.Conservation.{sys_receive-Population, sys_send-Population}

abbrev pub blank : Context
blank = record {
  r15 = 0;
  r14 = 0;
  r13 = 0;
  r12 = 0;
  r11 = 0;
  r10 = 0;
  r9 = 0;
  r8 = 0;
  rbp = 0;
  rsi = 0;
  rdi = 0;
  rdx = 0;
  rcx = 0;
  rbx = 0;
  rax = 0;
  rip = 0;
  cs = 0;
  rflags = 0;
  rsp = 0;
  ss = 0;
}

abbrev pub client : Thread
client = record {
  tid = 1;
  process = 0;
  page_table_physaddr = 0x1000;
  kernel_stack_end = 0x9000;
  user_stack_end = 0xA000;
  context = 0x8000;
}

abbrev pub server : Thread
server = record {
  tid = 2;
  process = 1;
  page_table_physaddr = 0x2000;
  kernel_stack_end = 0x19000;
  user_stack_end = 0x1A000;
  context = 0x18000;
}

abbrev pub third : Thread
third = record {
  tid = 3;
  process = 0;
  page_table_physaddr = 0x1000;
  kernel_stack_end = 0x29000;
  user_stack_end = 0x2A000;
  context = 0x28000;
}

-- Every address names one chunk at 0x5000; the memory has no state.
abbrev pub one_chunk : MemoryOps (Unit {0})
one_chunk = record {
  virt_addr_new = λ a. if ltb a 0x8000_0000_0000 then some a else none;
  get_page_chunk = λ pt a take m. (ok (0x5000, 2), tt);
  put_page_chunk = λ pt p m. some (ok 0x280_4000_0000, tt);
  find_available_page_chunk = λ pt m. some (some 0x280_4000_0000, tt);
  create_consecutive_pages = λ pt a n max m. some (some 0x5000, tt);
  create_user_ondemand_pages = λ pt a n m. some (true, tt);
  free_page_chunk = λ pt a m. some (ok tt, tt);
  allocate_user_stack = λ pt n m. some (some (0xB000, 0xC000), tt);
  peek_keeps = λ pt a m. refl;
}

-- The client holds the channel 0 and, under handle 1, the channel 1; the server holds the channel 0.
abbrev pub machine : Rendezvous → Kernel (Unit {0})
machine cell = record {
  contexts = λ a. blank;
  processes = λ p.
      if p == 0
      then record { page_table_physaddr = 0x1000; handles = some 0 ∷ some 1 ∷ []; mounts = 0 }
      else record { page_table_physaddr = 0x2000; handles = some 0 ∷ none ∷ []; mounts = 0 };
  rendezvous_cells = λ r. if r == 0 then cell else empty;
  mount_tables = λ v. [];
  rendezvous_count = 2;
  process_count = 2;
  mount_table_count = 1;
  current_thread = some client;
  running_queue = third ∷ [];
  interrupt_waiting = [];
  unique_counter = 3;
  active_pagetable = 0x1000;
  interrupt_stack = 0x9000;
  mem = tt;
}
