-- ===== src/Services.antt =====
-- kernel/src/syscalls.rs: the system calls that manage a process's handles, mount points and memory,
-- with the functions of kernel/src/process.rs that they call and `VFS::copy`.
use eurali_os.Prelude.{
  ℕ, ◌+◌, ◌*◌, ◌/◌, ◌^◌, Option, none, some, Bool, true, false, update, ◌==◌, if◌then◌else◌,
}
use eurali_os.State.{Str, Thread, empty, Result, ok, err, M, pure, ◌>>=◌, ◌>>◌, MemoryOps}
use eurali_os.Constants.{
  error_invalid_handle, error_param, error_utf8, error_notfound, error_memory, error_thread,
}
use eurali_os.Threads.{
  modify_context, return_error, take_rendezvous, give_rendezvous, virt_addr, add_handle,
  set_handles,
}
use eurali_os.Threads
use eurali_os.Channels.{set_cell}
use eurali_os.Mounts.{mount, umount, open_mount}
use eurali_os.Scheduler.{take_current_thread, set_current_thread}
use eurali_os.Syscalls.{Exit, returns, with_context, fail_with}

module _ {Mem : Type 0} where
  abbrev pub current_thread_ref : M Mem (Option Thread)
  current_thread_ref k = some (k.current_thread, k)

  abbrev pub on_memory : {A : Type 0} → (Mem → Option (A × Mem)) → M Mem A
  on_memory f k = elim (f k.mem) [ none ↦ none | some (a, m) ↦ some (a, record k { mem = m }) ]

  -- `thread.vfs()` is the table that the process shares: a change is seen by all that share it.
  unfoldable pub add_mount : Str → ℕ → Thread → M Mem (Unit {0})
  add_mount path r t k =
      let v = (k.processes t.process).mounts in
      some
        (tt, record k { mount_tables = update k.mount_tables v (mount (k.mount_tables v) path r) })

  unfoldable pub remove_mount : Str → Thread → M Mem Bool
  remove_mount path t k =
      let v = (k.processes t.process).mounts in
      elim (umount (k.mount_tables v) path) [
        | none ↦ some (false, k)
        | some ms ↦ some (true, record k { mount_tables = update k.mount_tables v ms })
      ]

  -- `VFS::copy`: the index of a new table with the same mount points.
  unfoldable pub copy_mounts : ℕ → M Mem ℕ
  copy_mounts v k =
      let new = k.mount_table_count in
      some (
        new,
        record k {
          mount_tables = update k.mount_tables new (k.mount_tables v);
          mount_table_count = new + 1;
        },
      )

  unfoldable pub new_rendezvous : Thread → M Mem (ℕ × ℕ)
  new_rendezvous t k =
      (do
        set_cell k.rendezvous_count empty
        handle1 ← give_rendezvous t k.rendezvous_count
        handle2 ← give_rendezvous t k.rendezvous_count
        pure (handle1, handle2))
        (record k { rendezvous_count = k.rendezvous_count + 1 })

  unfoldable pub sys_new_rendezvous : ℕ → M Mem Exit
  unfolding new_rendezvous
  sys_new_rendezvous context_ptr k = elim k.current_thread [
    | none ↦ (do modify_context context_ptr (λ c. record c { rax = error_thread }); pure returns) k
    | some t ↦
        (do
          (handle1, handle2) ← new_rendezvous t
          modify_context context_ptr (λ c. record c { rax = 0; rdi = handle1; rsi = handle2 })
          pure returns)
          k
  ]

  unfoldable pub sys_copy_rendezvous : ℕ → ℕ → M Mem Exit
  sys_copy_rendezvous context_ptr handle = do
    current ← take_current_thread
    elim current [
      | none ↦ pure returns
      | some caller ↦ (do
        let t = with_context context_ptr caller
        found ← Threads.rendezvous t handle
        elim found [
          | none ↦ fail_with t error_invalid_handle
          | some r ↦ (do
            new_handle ← give_rendezvous t r
            modify_context context_ptr (λ c. record c { rax = 0; rdi = new_handle })
            set_current_thread t
            pure returns)
        ])
    ]

  -- The path is the result of `str::from_utf8` on the caller's bytes.
  unfoldable pub open_path : Thread → Str → M Mem (Result (ℕ × ℕ))
  open_path t path k =
      let p = k.processes t.process in
      elim (open_mount (k.mount_tables p.mounts) path) [
        | none ↦ some (err error_notfound, k)
        | some (r, match_len) ↦
            (let (hs, handle) = add_handle p.handles r in
              some (ok (handle, match_len), set_handles t.process hs k))
      ]

  unfoldable pub sys_open : ℕ → Option Str → ℕ → M Mem Exit
  unfolding open_path
  sys_open context_ptr utf8 len k =
      if len == 0
      then (do modify_context context_ptr (λ c. record c { rax = error_param }); pure returns) k
      else (elim utf8 [
        | none ↦
            (do modify_context context_ptr (λ c. record c { rax = error_utf8 }); pure returns) k
        | some path ↦ (elim k.current_thread [
          | none ↦ (do modify_context context_ptr (λ c. record c { rax = 0 }); pure returns) k
          | some t ↦
              (do
                opened ← open_path t path
                elim opened [
                  | err code ↦ modify_context context_ptr (λ c. record c { rax = code })
                  | ok (handle, match_len) ↦
                      modify_context context_ptr
                        (λ c. record c { rax = 0; rdi = handle; rsi = match_len })
                ]
                pure returns)
                k
        ])
      ])

  unfoldable pub sys_mount : ℕ → ℕ → Option Str → M Mem Exit
  unfolding add_mount
  sys_mount context_ptr syscall_id none = do
    modify_context context_ptr (λ c. record c { rax = error_utf8 })
    pure returns
  sys_mount context_ptr syscall_id (some path) = do
    current ← take_current_thread
    elim current [
      | none ↦ pure returns
      | some caller ↦ (do
        let t = with_context context_ptr caller
        found ← take_rendezvous t (syscall_id / 2 ^ 32)
        elim found [
          | none ↦ fail_with t error_invalid_handle
          | some r ↦ (do
            add_mount path r t
            modify_context context_ptr (λ c. record c { rax = 0 })
            set_current_thread t
            pure returns)
        ])
    ]

  unfoldable pub sys_umount : ℕ → Option Str → M Mem Exit
  unfolding remove_mount
  sys_umount context_ptr none = do
    modify_context context_ptr (λ c. record c { rax = error_utf8 })
    pure returns
  sys_umount context_ptr (some path) = do
    current ← take_current_thread
    elim current [
      | none ↦ pure returns
      | some caller ↦ (do
        let t = with_context context_ptr caller
        done ← remove_mount path t
        modify_context context_ptr (λ c. record c { rax = if done then 0 else error_notfound })
        set_current_thread t
        pure returns)
    ]

module _ {Mem : Type 0} (ops : MemoryOps Mem) where
  -- `process::new_memory_chunk`
  unfoldable pub new_memory_chunk : Thread → ℕ → ℕ → M Mem (Result (ℕ × ℕ))
  new_memory_chunk t num_pages max_physaddr = do
    chunk ← on_memory (ops.find_available_page_chunk t.page_table_physaddr)
    elim chunk [
      | none ↦ pure (err error_memory)
      | some start ↦
          if max_physaddr == 0
          then (do
            done ←
                on_memory
                  (ops.create_user_ondemand_pages t.page_table_physaddr start (num_pages * 4096))
            if done then pure (ok (start, 0)) else pure (err error_memory))
          else (do
            made ←
                on_memory
                  (ops.create_consecutive_pages t.page_table_physaddr start num_pages max_physaddr)
            elim made [
              | none ↦ pure (err error_memory)
              | some physaddr ↦ pure (ok (start, physaddr))
            ])
    ]

  unfoldable pub sys_malloc : ℕ → ℕ → ℕ → M Mem Exit
  unfolding new_memory_chunk
  sys_malloc context_ptr num_pages max_physaddr = do
    current ← current_thread_ref
    result ← elim current [
      | none ↦ pure (err error_thread)
      | some t ↦ new_memory_chunk t num_pages max_physaddr
    ]
    elim result [
      | ok (virtaddr, physaddr) ↦
          modify_context context_ptr (λ c. record c { rax = 0; rdi = virtaddr; rsi = physaddr })
      | err code ↦
          modify_context context_ptr (λ c. record c { rax = code; rdi = 0; rsi = 0; rdx = 0 })
    ]
    pure returns

  unfoldable pub sys_free : ℕ → ℕ → M Mem Exit
  sys_free context_ptr virtaddr = do
    a ← virt_addr ops virtaddr
    current ← current_thread_ref
    result ← elim current [
      | none ↦ pure (err error_thread)
      | some t ↦ on_memory (ops.free_page_chunk t.page_table_physaddr a)
    ]
    elim result [
      | ok _ ↦ modify_context context_ptr (λ c. record c { rax = 0 })
      | err code ↦ modify_context context_ptr (λ c. record c { rax = code })
    ]
    pure returns
