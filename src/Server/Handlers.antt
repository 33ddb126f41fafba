-- ===== src/Server/Handlers.antt =====
-- euralios_std/src/server.rs: `open`, and what the threads that serve files and directories do with one
-- message. `none` is a panic.
use eurali_os.Prelude.{
  ℕ, Option, none, some, Bool, List, [], ◌∷◌, ◌==◌, if◌then◌else◌, ltb, bit_and, length,
}
use eurali_os.State.{Str, Result, ok, err}
use eurali_os.Std.{Message, short, long, value, memory_handle, comm_handle}
use eurali_os.Server.{
  FileSystem, Calls, Service, directory, file_readwrite, file_readonly, World, msg_read, msg_write,
  msg_data, msg_json, msg_comm_handle, msg_query, msg_ok, msg_open, open_flags_mask, o_read,
  o_write, o_create, o_truncate, msg_delete, msg_mkdir, msg_error, msg_error_invalid_utf8,
  msg_error_denied, error_notfound, error_not_dir, error_no_data, has_flag, trim_slashes,
}

module _ {F C : Type 0} (files : FileSystem F) (calls : Calls C) where
  abbrev pub reply : Message → World F C → World F C
  reply m w = record w { replies = m ∷ w.replies }

  -- A new pair of handles, and a thread that serves one of them; the client gets the other.
  unfoldable pub start : (ℕ → Service) → World F C → Result ℕ × World F C
  start service w =
      let (pair, p) = calls.new_rendezvous w.process in
      elim pair [
        | err e ↦ (err e, record w { process = p })
        | ok (handle, client_handle) ↦
            (let (spawned, p') = calls.spawn p in
              elim spawned [
                | err e ↦ (err e, record w { process = p' })
                | ok _ ↦ (
                  ok client_handle,
                  record w { process = p'; started = service handle ∷ w.started },
                )
              ])
      ]

  -- Opening a file that is there.
  unfoldable pub open_file : ℕ → ℕ → World F C → Result ℕ × World F C
  unfolding start
  open_file file flags w =
      let service : ℕ → Service =
        λ h. if has_flag flags o_write then file_readwrite file h else file_readonly file h in
      if has_flag flags o_truncate
      then (let (cleared, fs') = files.clear file w.fs in
          elim cleared [
            | err e ↦ (err e, record w { fs = fs' })
            | ok _ ↦ start service (record w { fs = fs' })
          ])
      else start service w

  unfoldable pub create_file : ℕ → Str → World F C → Result ℕ × World F C
  unfolding start
  create_file dir key w =
      let (made, fs') = files.make_file dir key w.fs in
      elim made [
        | err e ↦ (err e, record w { fs = fs' })
        | ok new_file ↦ start (λ h. file_readwrite new_file h) (record w { fs = fs' })
      ]

  -- The loop of `open` over the components of the path.
  unfoldable pub open_from : ℕ → List Str → ℕ → World F C → Result ℕ × World F C
  unfolding open_file create_file start
  open_from dir [] flags w = (err error_notfound, w)
  open_from dir (key ∷ []) flags w = elim (files.get_dir w.fs dir key) [
    | ok subdir ↦ start (λ h. directory subdir h (has_flag flags o_write)) w
    | err _ ↦ (elim (files.get_file w.fs dir key) [
      | ok file ↦ open_file file flags w
      | err _ ↦ (if has_flag flags o_create then create_file dir key w else (err error_notfound, w))
    ])
  ]
  open_from dir (key ∷ next ∷ rest) flags w = elim (files.get_dir w.fs dir key) [
    | ok subdir ↦ open_from subdir (next ∷ rest) flags w
    | err _ ↦ (elim (files.get_file w.fs dir key) [
      | ok file ↦ (err error_not_dir, w)
      | err _ ↦ (err error_notfound, w)
    ])
  ]

  -- `Message::Short(READ, start, length)` to a file.
  unfoldable pub read_file : ℕ → ℕ → ℕ → World F C → Option (World F C)
  read_file file first wanted w =
      let size = files.len w.fs file in
      let len = if ltb wanted size then wanted else size in
      if len == 0
      then some (reply (short msg_error error_no_data 0) w)
      else (let (allocated, p) = calls.malloc len w.process in
          elim allocated [
            | err _ ↦ none
            | ok mem ↦ (elim (files.read w.fs file first len) [
              | ok bytes ↦ some (
                  reply (long msg_data (value (length bytes)) (memory_handle mem))
                    (record w { process = calls.put mem bytes p }))
              | err e ↦ some (reply (short msg_error e 0) (record w { process = p }))
            ])
          ])

  -- `handle_file_readwrite` and `handle_file_readonly`: one message.
  unfoldable pub handle_file_readwrite : ℕ → Message → World F C → Option (World F C)
  unfolding read_file
  handle_file_readwrite file (long tag (value length) (memory_handle handle)) w =
      let (written, fs') = files.write file 0 (calls.as_slice w.process handle length) w.fs in
      if tag == msg_write
      then some (elim written [
        | ok n ↦ reply (short msg_ok n 0) (record w { fs = fs' })
        | err e ↦ reply (short msg_error e 0) (record w { fs = fs' })
      ])
      else some w
  handle_file_readwrite file (short tag first length) w =
      if tag == msg_read then read_file file first length w else some w
  handle_file_readwrite file m w = some w

  unfoldable pub handle_file_readonly : ℕ → Message → World F C → Option (World F C)
  unfolding read_file
  handle_file_readonly file (short tag first length) w =
      if tag == msg_read then read_file file first length w else some w
  handle_file_readonly file m w = some w

  -- The path that a message holds in memory.
  abbrev pub with_path : ℕ → ℕ → (Str → World F C → World F C) → World F C → World F C
  with_path handle length serve w =
      elim (calls.from_utf8 (calls.as_slice w.process handle length)) [
        | none ↦ reply (short msg_error_invalid_utf8 0 0) w
        | some path ↦ serve path w
      ]

  -- The branches of `handle_directory`.
  unfoldable pub delete_entry : ℕ → Str → World F C → World F C
  delete_entry dir path w =
      let (removed, fs') = files.remove_file dir path w.fs in
      let w' = record w { fs = fs' } in
      elim removed [ ok _ ↦ reply (short msg_ok 0 0) w' | err e ↦ reply (short msg_error e 0) w' ]

  unfoldable pub make_directory : ℕ → Str → World F C → World F C
  make_directory dir path w =
      let (made, fs') = files.make_dir dir path w.fs in
      let w' = record w { fs = fs' } in
      elim made [ ok _ ↦ reply (short msg_ok 0 0) w' | err e ↦ reply (short msg_error e 0) w' ]

  unfoldable pub open_entry : ℕ → Bool → ℕ → Str → World F C → World F C
  unfolding open_from trim_slashes
  open_entry dir readwrite flags path w =
      let opened : ℕ → Result ℕ × World F C =
        λ f. open_from dir (calls.components (trim_slashes path)) f w in
      let answer : Result ℕ × World F C → World F C = λ r. elim (r.0) [
        | ok handle ↦ reply (long msg_comm_handle (comm_handle handle) (value 0)) r.1
        | err e ↦ reply (short msg_error e 0) r.1
      ] in
      if flags == o_read
      then answer (opened o_read)
      else if readwrite
      then answer (opened flags)
      else reply (short msg_error_denied 0 0) w

  -- The description of a directory is put into new memory; `from_u8_slice` panics without any.
  unfoldable pub query_directory : ℕ → World F C → Option (World F C)
  query_directory dir w =
      let info = calls.as_bytes (files.query w.fs dir) in
      let (allocated, p) = calls.malloc (length info) w.process in
      elim allocated [
        | err _ ↦ none
        | ok mem ↦ some (
            reply (long msg_json (value (length info)) (memory_handle mem))
              (record w { process = calls.put mem info p }))
      ]

  -- One message to a directory; `handler` gets those that are left.
  unfoldable pub handle_directory :
      (Message → World F C → World F C) → ℕ → Bool → Message → World F C → Option (World F C)
  unfolding delete_entry make_directory open_entry query_directory
  handle_directory handler dir readwrite (long tag (value length) (memory_handle handle)) w =
      if tag == msg_delete
      then some (
          if readwrite
          then with_path handle length (delete_entry dir) w
          else reply (short msg_error_denied 0 0) w)
      else if tag == msg_mkdir
      then some (
          if readwrite
          then with_path handle length (make_directory dir) w
          else reply (short msg_error_denied 0 0) w)
      else if bit_and tag msg_open == 0
      then some (handler (long tag (value length) (memory_handle handle)) w)
      else some (with_path handle length (open_entry dir readwrite (bit_and tag open_flags_mask)) w)
  handle_directory handler dir readwrite (short tag d2 d3) w =
      if tag == msg_query then query_directory dir w else some (handler (short tag d2 d3) w)
  handle_directory handler dir readwrite m w = some (handler m w)

  -- A thread that `open` starts gives other messages to a closure that only prints them.
  unfoldable pub serve : Service → Message → World F C → Option (World F C)
  unfolding handle_directory handle_file_readwrite handle_file_readonly
  serve (directory dir h readwrite) m w = handle_directory (λ m' w'. w') dir readwrite m w
  serve (file_readwrite file h) m w = handle_file_readwrite file m w
  serve (file_readonly file h) m w = handle_file_readonly file m w
