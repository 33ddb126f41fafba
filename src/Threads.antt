-- ===== src/Threads.antt =====
-- The methods of `Process` and `Thread` in kernel/src/process.rs that the message passing uses:
-- saved registers, communication handles and memory chunks.
pub mod Handles
use eurali_os.Prelude.{
  ℕ, zero, suc, ◌+◌, ◌-◌, bit_and, Option, none, some, Bool, true, false, List, [], ◌∷◌, ◌++◌,
  length, get_elem?, set, update, ◌==◌, if◌then◌else◌,
}
use eurali_os.State.{
  Context, Process, Thread, Result, ok, err, Kernel, M, pure, ◌>>=◌, ◌>>◌, MemoryOps,
}
use eurali_os.Constants.{syscall_error_mask}

-- The position of the first empty slot, `position(|handle| handle.is_none())`.
unfoldable pub position_none : List (Option ℕ) → Option ℕ
position_none [] = none
position_none (none ∷ hs) = some 0
position_none (some r ∷ hs) = elim (position_none hs) [ none ↦ none | some i ↦ some (suc i) ]

-- Both functions that add a handle fill the first empty slot, or else push.
unfoldable pub add_handle : List (Option ℕ) → ℕ → List (Option ℕ) × ℕ
unfolding position_none
add_handle hs r = elim (position_none hs) [
  | some i ↦ (set hs i (some r), i)
  | none ↦ (hs ++ some r ∷ [], length (hs ++ some r ∷ []) - 1)
]

-- `for (pos, handle) in handles.iter().enumerate()`, from position `pos` on.
unfoldable pub first_empty_from : ℕ → List (Option ℕ) → Option ℕ
first_empty_from pos [] = none
first_empty_from pos (none ∷ hs) = some pos
first_empty_from pos (some r ∷ hs) = first_empty_from (pos + 1) hs

unfoldable pub give_handle : List (Option ℕ) → ℕ → List (Option ℕ) × ℕ
unfolding first_empty_from
give_handle hs r = elim (first_empty_from 0 hs) [
  | some pos ↦ (set hs pos (some r), pos)
  | none ↦ (hs ++ some r ∷ [], length (hs ++ some r ∷ []) - 1)
]

-- `handles.get(id).unwrap_or(&None)`
unfoldable pub get_handle : List (Option ℕ) → ℕ → Option ℕ
get_handle hs i = elim (get_elem? hs i) [ none ↦ none | some h ↦ h ]

unfoldable pub take_handle : List (Option ℕ) → ℕ → List (Option ℕ) × Option ℕ
unfolding get_handle
take_handle hs i = (set hs i none, get_handle hs i)

module _ {Mem : Type 0} where
  abbrev pub modify_context : ℕ → (Context → Context) → M Mem (Unit {0})
  modify_context addr f k =
      some (tt, record k { contexts = update k.contexts addr (f (k.contexts addr)) })

  abbrev pub set_handles : ℕ → List (Option ℕ) → Kernel Mem → Kernel Mem
  set_handles p hs k = record k {
    processes = update k.processes p (record (k.processes p) { handles = hs });
  }

  unfoldable pub return_error : Thread → ℕ → M Mem (Unit {0})
  return_error t code =
      modify_context t.context (λ c. record c { rax = bit_and code syscall_error_mask })

  unfoldable pub rendezvous : Thread → ℕ → M Mem (Option ℕ)
  rendezvous t i k = some (get_handle (k.processes t.process).handles i, k)

  unfoldable pub take_rendezvous : Thread → ℕ → M Mem (Option ℕ)
  take_rendezvous t i k =
      let (hs, taken) = take_handle (k.processes t.process).handles i in
      some (taken, set_handles t.process hs k)

  unfoldable pub give_rendezvous : Thread → ℕ → M Mem ℕ
  give_rendezvous t r k =
      let (hs, i) = give_handle (k.processes t.process).handles r in
      some (i, set_handles t.process hs k)

module _ {Mem : Type 0} (ops : MemoryOps Mem) where
  -- `VirtAddr::new(data)`
  unfoldable pub virt_addr : ℕ → M Mem ℕ
  virt_addr a k = elim (ops.virt_addr_new a) [ none ↦ none | some v ↦ some (v, k) ]

  unfoldable pub memory_chunk : Thread → ℕ → M Mem (Result (ℕ × ℕ))
  memory_chunk t a k =
      let (r, m) = ops.get_page_chunk t.page_table_physaddr a false k.mem in
      some (r, record k { mem = m })

  unfoldable pub take_memory_chunk : Thread → ℕ → M Mem (Result (ℕ × ℕ))
  take_memory_chunk t a k =
      let (r, m) = ops.get_page_chunk t.page_table_physaddr a true k.mem in
      some (r, record k { mem = m })

  unfoldable pub give_memory_chunk : Thread → ℕ → M Mem (Result ℕ)
  give_memory_chunk t p k = elim (ops.put_page_chunk t.page_table_physaddr p k.mem) [
    | none ↦ none
    | some (r, m) ↦ some (r, record k { mem = m })
  ]
