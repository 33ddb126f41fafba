-- ===== src/Vga/Driver.antt =====
-- vga_driver/src/main.rs: the main loop, which opens writers and switches between them, and the threads
-- that write for the clients. A writer that several threads share is a number in `writers`; all writers
-- share video memory and the device. `none` is a panic.
use eurali_os.Prelude.{
  ℕ, ◌+◌, ◌%◌, ◌^◌, Option, none, some, List, [], ◌∷◌, ◌++◌, ◌==◌, if◌then◌else◌, length, get_elem?,
  set,
}
use eurali_os.State.{ok, err}
use eurali_os.Std.{Message, short, long, value, memory_handle, comm_handle}
use eurali_os.Server.{
  Calls, Received, message, failed, error_recv_blocking, msg_write, msg_ok, msg_error,
  msg_comm_handle, msg_open, o_write,
}
use eurali_os.Vga.{Geometry, Writer, ScreenCharacter, ScreenCall, new_writer, activate, deactivate}
use eurali_os.Vga.Escapes.{write_string}

abbrev pub msg_char : ℕ
msg_char = 3

abbrev pub msg_error_unknown_message : ℕ
msg_error_unknown_message = 133

abbrev pub open_readwrite : ℕ
open_readwrite = msg_open + o_write

abbrev pub stdin : ℕ
stdin = 0

-- Where the main loop is: it locks the old writer and the new one after each other, and other threads
-- may run in between.
pub data Phase : Type 0 where
  receiving : Phase
  switching : ℕ → Phase

-- `handlers` has, for each thread that was started, its writer and its handle; `replies` has the handle
-- and the message of each one sent, the last first.
pub record Display (C : Type 0) : Type 0 where
  pub frame : ℕ → ScreenCharacter
  pub screen_calls : List ScreenCall
  pub writers : List Writer
  pub active_writer : Option ℕ
  pub phase : Phase
  pub handlers : List (ℕ × ℕ)
  pub process : C
  pub replies : List (ℕ × Message)

module _ {C : Type 0} where
  -- A locked writer sees video memory and the device as they are; what it does to them stays.
  abbrev pub locked : Display C → Writer → Writer
  locked d w = record w { frame = d.frame; calls = d.screen_calls }

  abbrev pub unlocked : ℕ → Writer → Display C → Display C
  unlocked i w d = record d { writers = set d.writers i w; frame = w.frame; screen_calls = w.calls }

  abbrev pub tell : ℕ → Message → Display C → Display C
  tell handle m d = record d { replies = (handle, m) ∷ d.replies }

  -- `if let Some(writer) = active_writer.as_ref() { writer.write().deactivate(); }`
  unfoldable pub deactivate_current : Display C → Display C
  deactivate_current d = elim d.active_writer [
    | none ↦ d
    | some i ↦ (elim (get_elem? d.writers i) [
      | none ↦ d
      | some w ↦ unlocked i (deactivate (locked d w)) d
    ])
  ]

  -- `if let Some(writer) = writers.get(writer_id as usize)`
  unfoldable pub finish_switch : ℕ → Display C → Display C
  finish_switch writer_id d = elim (get_elem? d.writers writer_id) [
    | none ↦ record d { phase = receiving }
    | some w ↦ record (unlocked writer_id (activate (locked d w)) d) {
      active_writer = some writer_id;
      phase = receiving;
    }
  ]

module _ (g : Geometry) {C : Type 0} where
  -- `writer.write().write_string(data)`
  unfoldable pub write_locked : ℕ → List ℕ → Display C → Option (Display C)
  write_locked i bytes d = elim (get_elem? d.writers i) [
    | none ↦ none
    | some w ↦ (elim (write_string g bytes (locked d w)) [
      | none ↦ none
      | some w' ↦ some (unlocked i w' d)
    ])
  ]

module _ (g : Geometry) {C : Type 0} (calls : Calls C) where
  -- `OPEN_READWRITE`. A thread that does not start is not noticed.
  unfoldable pub open_writer : Display C → Option (Display C)
  open_writer d =
      let (pair, p) = calls.new_rendezvous d.process in
      let (spawned, p') = calls.spawn p in
      let writer = new_writer g d.frame d.screen_calls in
      let writer_id = length d.writers in
      elim pair [
        | err _ ↦ none
        | ok (handle, client_handle) ↦ some (record d {
          writers = d.writers ++ (writer ∷ []);
          screen_calls = writer.calls;
          process = p';
          handlers = elim spawned [ err _ ↦ d.handlers | ok _ ↦ (writer_id, handle) ∷ d.handlers ];
          replies =
              (stdin, long msg_comm_handle (comm_handle client_handle) (value writer_id))
              ∷ d.replies;
        })
      ]

  -- A round of the main loop.
  unfoldable pub main_loop : Received → Display C → Option (Display C)
  unfolding open_writer deactivate_current
  main_loop (message (long tag d2 d3)) d = if tag == open_readwrite then open_writer d else some d
  main_loop (message (short tag d2 d3)) d =
      if tag == open_readwrite
      then open_writer d
      else if tag == msg_write
      then some (record (deactivate_current d) { phase = switching d2 })
      else some d
  main_loop (failed e) d =
      if e == error_recv_blocking then some (tell stdin (short msg_error 0 0) d) else some d

  -- A round of the loop of `writer_handler`.
  unfoldable pub writer_handler : ℕ → ℕ → Received → Display C → Option (Display C)
  unfolding write_locked
  writer_handler i handle (message (long tag (value length) (memory_handle data_handle))) d =
      if tag == msg_write
      then (elim (write_locked g i (calls.as_slice d.process data_handle length) d) [
        | none ↦ none
        | some d' ↦ some (tell handle (short msg_ok 0 0) d')
      ])
      else some (tell handle (short msg_error_unknown_message 0 0) d)
  writer_handler i handle (message (short tag ch d3)) d =
      if tag == msg_char
      then write_locked g i (ch % 2 ^ 8 ∷ []) d
      else some (tell handle (short msg_error_unknown_message 0 0) d)
  writer_handler i handle (message m) d = some (tell handle (short msg_error_unknown_message 0 0) d)
  writer_handler i handle (failed e) d =
      if e == error_recv_blocking then some (tell stdin (short msg_error 0 0) d) else some d
