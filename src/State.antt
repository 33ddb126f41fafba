-- ===== src/State.antt =====
-- The data that the kernel's modules share: `Context` of kernel/src/interrupts.rs, `Process` and
-- `Thread` of kernel/src/process.rs, `MessageData` and `Message` of kernel/src/message.rs,
-- `Rendezvous` of kernel/src/rendezvous.rs and the error codes of kernel/src/syscalls.rs.
--
-- An `Arc<RwLock<T>>` is the number of a cell in a store; cloning the `Arc` copies the number. A
-- `Context` lies in memory at the address that a thread's `context` field holds, so the register
-- frames are a store too. A `Box<Thread>` has one owner and is a value.
use eurali_os.Prelude.{ℕ, ◌≡◌, Bool, false, Option, none, some, List}

-- A `&str` or a `String`: its characters.
abbrev pub Str : Type 0
Str = List ℕ

-- The registers in the order in which the handlers push them.
pub record Context : Type 0 where
  pub r15 : ℕ
  pub r14 : ℕ
  pub r13 : ℕ
  pub r12 : ℕ
  pub r11 : ℕ
  pub r10 : ℕ
  pub r9 : ℕ
  pub r8 : ℕ
  pub rbp : ℕ
  pub rsi : ℕ
  pub rdi : ℕ
  pub rdx : ℕ
  pub rcx : ℕ
  pub rbx : ℕ
  pub rax : ℕ
  pub rip : ℕ
  pub cs : ℕ
  pub rflags : ℕ
  pub rsp : ℕ
  pub ss : ℕ

-- `handles` holds numbers of rendezvous, `mounts` the number of a mount table.
pub record Process : Type 0 where
  pub page_table_physaddr : ℕ
  pub handles : List (Option ℕ)
  pub mounts : ℕ

-- The bytes of `kernel_stack` are represented by its end address alone.
pub record Thread : Type 0 where
  pub tid : ℕ
  pub process : ℕ
  pub page_table_physaddr : ℕ
  pub kernel_stack_end : ℕ
  pub user_stack_end : ℕ
  pub context : ℕ

pub data MessageData : Type 0 where
  value : ℕ → MessageData
  rendezvous : ℕ → MessageData
  memory : ℕ → MessageData

pub data Message : Type 0 where
  short : ℕ → ℕ → ℕ → Message
  long : ℕ → MessageData → MessageData → Message

pub data Rendezvous : Type 0 where
  empty : Rendezvous
  sending : Option Thread → Message → Rendezvous
  receiving : Thread → Option ℕ → Rendezvous
  send_receiving : Thread → Message → Rendezvous

pub data Result (A : Type 0) : Type 0 where
  ok : A → Result A
  err : ℕ → Result A

-- The state that the kernel's functions share. `Mem` is the state of kernel/src/memory.rs.
pub record Kernel (Mem : Type 0) : Type 0 where
  pub contexts : ℕ → Context
  pub processes : ℕ → Process
  pub rendezvous_cells : ℕ → Rendezvous
  pub mount_tables : ℕ → List (Str × ℕ)
  pub rendezvous_count : ℕ
  pub process_count : ℕ
  pub mount_table_count : ℕ
  pub current_thread : Option Thread
  pub running_queue : List Thread
  pub interrupt_waiting : List Thread
  pub unique_counter : ℕ
  pub active_pagetable : ℕ
  pub interrupt_stack : ℕ
  pub mem : Mem

-- A computation on the kernel's state; `none` is a kernel panic.
abbrev pub M : Type 0 → Type 0 → Type 0
M Mem A = Kernel Mem → Option (A × Kernel Mem)

abbrev pub pure : {Mem A : Type 0} → A → M Mem A
pure a k = some (a, k)

infixl 5 ◌>>=◌ ◌>>◌
abbrev pub ◌>>=◌ : {Mem A B : Type 0} → M Mem A → (A → M Mem B) → M Mem B
◌>>=◌ m f k = elim (m k) [ none ↦ none | some (a, k') ↦ f a k' ]

abbrev pub ◌>>◌ : {Mem B : Type 0} → M Mem (Unit {0}) → M Mem B → M Mem B
m >> n = m >>= λ _. n

-- What the other parts of the kernel ask of kernel/src/memory.rs, and the crate's `VirtAddr::new`.
-- An outer `none` is a panic: `VirtAddr::new` panics at an address that is not canonical, the
-- functions on page tables where they cannot allocate a frame for a table. Looking a chunk up
-- without taking it changes nothing.
pub record MemoryOps (Mem : Type 0) : Type 0 where
  pub virt_addr_new : ℕ → Option ℕ
  pub get_page_chunk : ℕ → ℕ → Bool → Mem → Result (ℕ × ℕ) × Mem
  pub put_page_chunk : ℕ → ℕ → Mem → Option (Result ℕ × Mem)
  pub find_available_page_chunk : ℕ → Mem → Option (Option ℕ × Mem)
  pub create_consecutive_pages : ℕ → ℕ → ℕ → ℕ → Mem → Option (Option ℕ × Mem)
  pub create_user_ondemand_pages : ℕ → ℕ → ℕ → Mem → Option (Bool × Mem)
  pub free_page_chunk : ℕ → ℕ → Mem → Option (Result (Unit {0}) × Mem)
  pub allocate_user_stack : ℕ → ℕ → Mem → Option (Option (ℕ × ℕ) × Mem)
  pub peek_keeps : (pt a : ℕ) (m : Mem) → (get_page_chunk pt a false m).1 ≡ m
