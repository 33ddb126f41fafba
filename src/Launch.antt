-- ===== src/Launch.antt =====
-- kernel/src/syscalls.rs: `sys_exec`, which starts a process, with the header check of
-- `process::new_user_thread`. Text of the caller is its bytes, and `from_utf8` a parameter.
pub mod Parameters
pub mod Loader
pub mod Processes
use eurali_os.Prelude.{
  ℕ, ◌+◌, ◌-◌, ◌*◌, ◌/◌, ◌%◌, ◌^◌, Option, none, some, Bool, true, false, ◌&&◌, List, [], ◌∷◌, ◌++◌,
  update, bit_and, leb, ltb, ◌==◌, if◌then◌else◌, take, length, same_codes,
}
use eurali_os.State.{Str, Thread, Result, ok, err, Kernel, M, pure, ◌>>=◌, ◌>>◌}
use eurali_os.Constants.{error_invalid_handle, error_param, error_utf8, error_memory, error_thread}
use eurali_os.Threads.{modify_context, take_rendezvous}
use eurali_os.Mounts.{mount, umount}
use eurali_os.Scheduler.{take_current_thread, set_current_thread, schedule_thread}
use eurali_os.Syscalls.{Exit, returns, with_context, fail_with}
use eurali_os.Services.{copy_mounts}

abbrev pub exec_perm_io : ℕ
exec_perm_io = 1

-- What the loop over the parameter string reads: the start of a request, a path to remove, the number
-- of a handle, or the path at which a rendezvous is mounted; with what was read of it.
pub data ParamMode : Type 0 where
  control : ParamMode
  removing : List ℕ → ParamMode
  number : ℕ → ParamMode
  mounting : ℕ → List ℕ → ParamMode

module _ {Mem : Type 0} where
  -- An error ends the loop.
  abbrev pub and_then :
      M Mem (Result (Unit {0})) → M Mem (Result (Unit {0})) → M Mem (Result (Unit {0}))
  and_then first rest k = elim (first k) [
    | none ↦ none
    | some (err e, k') ↦ some (err e, k')
    | some (ok _, k') ↦ rest k'
  ]

  -- `thread.take_rendezvous(handle)` and what is done with the rendezvous.
  abbrev pub with_handle : Thread → ℕ → (ℕ → M Mem (Result (Unit {0}))) → M Mem (Result (Unit {0}))
  with_handle t handle use_it k = elim (take_rendezvous t handle k) [
    | none ↦ none
    | some (none, k') ↦ some (err error_invalid_handle, k')
    | some (some r, k') ↦ use_it r k'
  ]

  -- The first byte says which table to start with.
  unfoldable pub start_mounts : Thread → ℕ → M Mem (Result ℕ)
  start_mounts t c k =
      let shared = (k.processes t.process).mounts in
      let fresh = k.mount_table_count in
      if c == b'S'
      then some (ok shared, k)
      else if c == b'C'
      then (elim (copy_mounts shared k) [ none ↦ none | some (v, k') ↦ some (ok v, k') ])
      else if c == b'N'
      then some (
        ok fresh,
        record k { mount_tables = update k.mount_tables fresh []; mount_table_count = fresh + 1 },
      )
      else some (err error_param, k)

module _ {Mem : Type 0} (from_utf8 : List ℕ → Option Str) where
  unfoldable pub remove_path : ℕ → List ℕ → M Mem (Result (Unit {0}))
  remove_path v path_u8 k = elim (from_utf8 path_u8) [
    | none ↦ some (err error_utf8, k)
    | some path ↦ (elim (umount (k.mount_tables v) path) [
      | none ↦ some (err error_param, k)
      | some ms ↦ some (ok tt, record k { mount_tables = update k.mount_tables v ms })
    ])
  ]

  unfoldable pub mount_path : ℕ → ℕ → List ℕ → M Mem (Result (Unit {0}))
  mount_path v r path_u8 k = elim (from_utf8 path_u8) [
    | none ↦ some (err error_utf8, k)
    | some path ↦ some (
      ok tt,
      record k { mount_tables = update k.mount_tables v (mount (k.mount_tables v) path r) },
    )
  ]

  -- The loop over the parameter string, from its second byte, with the table `v` of mount points. A
  -- path or a number ends at its delimiter or at the end of the string.
  unfoldable pub read_params : Thread → ℕ → ParamMode → List ℕ → M Mem (Result (Unit {0}))
  unfolding remove_path mount_path
  read_params t v control [] = pure (ok tt)
  read_params t v control (c ∷ cs) =
      let removal = read_params t v (removing []) cs in
      let mounting_at = read_params t v (number 0) cs in
      if c == b'-' then removal else if c == b'm' then mounting_at else pure (err error_param)
  read_params t v (removing p) [] = remove_path v p
  read_params t v (removing p) (c ∷ cs) =
      let more = read_params t v (removing (p ++ c ∷ [])) cs in
      let next = read_params t v control cs in
      if c == b':' then and_then (remove_path v p) next else more
  read_params t v (number n) [] = with_handle t n (λ r. mount_path v r [])
  read_params t v (number n) (c ∷ cs) =
      let more = read_params t v (number ((n * 10 + (c - b'0')) % 2 ^ 64)) cs in
      let path : ℕ → M Mem (Result (Unit {0})) = λ r. read_params t v (mounting r []) cs in
      if leb b'0' c && leb c b'9' then more else with_handle t n path
  read_params t v (mounting r p) [] = mount_path v r p
  read_params t v (mounting r p) (c ∷ cs) =
      let more = read_params t v (mounting r (p ++ c ∷ [])) cs in
      let next = read_params t v control cs in
      if c == b':' then and_then (mount_path v r p) next else more

  -- The table of mount points of the new process; without parameters it is the caller's.
  unfoldable pub exec_mounts : Thread → List ℕ → M Mem (Result ℕ)
  unfolding start_mounts read_params
  exec_mounts t [] k = some (ok (k.processes t.process).mounts, k)
  exec_mounts t (c ∷ cs) k = elim (start_mounts t c k) [
    | none ↦ none
    | some (err e, k') ↦ some (err e, k')
    | some (ok v, k') ↦ (elim (read_params t v control cs k') [
      | none ↦ none
      | some (err e, k'') ↦ some (err e, k'')
      | some (ok _, k'') ↦ some (ok v, k'')
    ])
  ]

-- `bytes_at` is user memory, an address and a length; `try_reserve` says whether the kernel's heap has
-- room; `load` is `new_user_thread` behind its header check, which reads the binary by the object crate
-- and maps its pages.
module _ {Mem : Type 0} (from_utf8 : List ℕ → Option Str) (bytes_at : ℕ → ℕ → List ℕ)
    (try_reserve : ℕ → Bool) (load : List ℕ → ℕ → ℕ → Bool → ℕ → M Mem (Option Thread)) where
  -- `bin[0..4] != ELF_MAGIC`: a shorter slice is a panic.
  unfoldable pub new_user_thread : List ℕ → ℕ → ℕ → Bool → ℕ → M Mem (Option Thread)
  new_user_thread bin stdin stdout io_privileges mounts k =
      let loaded = load bin stdin stdout io_privileges mounts k in
      if ltb (length bin) 4
      then none
      else if same_codes (take 4 bin) (0x7f ∷ b'E' ∷ b'L' ∷ b'F' ∷ [])
      then loaded
      else some (none, k)

  -- From the parameter string on, where both handles are taken.
  unfoldable pub exec_process : ℕ → Thread → ℕ → ℕ → Bool → List ℕ → List ℕ → M Mem Exit
  unfolding new_user_thread exec_mounts
  exec_process context_ptr t stdin stdout io_privileges params bin = do
    mounts ← exec_mounts from_utf8 t params
    elim mounts [
      | err code ↦ fail_with t code
      | ok v ↦
          if try_reserve (length bin)
          then (do
            made ← new_user_thread bin stdin stdout io_privileges v
            elim made [
              | none ↦ fail_with t error_thread
              | some new_thread ↦ (do
                schedule_thread new_thread
                modify_context context_ptr (λ c. record c { rax = 0; rdi = new_thread.tid })
                set_current_thread t
                pure returns)
            ])
          else fail_with t error_memory
    ]

  unfoldable pub sys_exec : ℕ → ℕ → ℕ → ℕ → ℕ → M Mem Exit
  unfolding exec_process
  sys_exec context_ptr syscall_id bin stdio param k =
      let bin_length = syscall_id / 2 ^ 32 in
      let param_length = bit_and (syscall_id / 2 ^ 16) 0xFFFF in
      let flags = bit_and (syscall_id / 2 ^ 8) 0xFF in
      let stdin_handle = bit_and (stdio / 2 ^ 32) 0xFFFF_FFFF in
      let stdout_handle = bit_and stdio 0xFFFF_FFFF in
      let io_privileges =
        (bit_and flags exec_perm_io == exec_perm_io)
        && (bit_and (k.contexts context_ptr).rflags 0x3000 == 0x3000) in
      (do
        current ← take_current_thread
        elim current [
          | none ↦ pure returns
          | some caller ↦
              let t = with_context context_ptr caller in
              if bin_length == 0 then fail_with t error_param else (do
                found_in ← take_rendezvous t stdin_handle
                elim found_in [
                  | none ↦ fail_with t error_invalid_handle
                  | some stdin ↦ (do
                    found_out ← take_rendezvous t stdout_handle
                    elim found_out [
                      | none ↦ fail_with t error_invalid_handle
                      | some stdout ↦
                          exec_process context_ptr t stdin stdout io_privileges
                            (if param_length == 0 then [] else bytes_at param param_length)
                            (bytes_at bin bin_length)
                    ])
                ])
        ])
        k
