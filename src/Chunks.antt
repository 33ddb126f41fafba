-- ===== src/Chunks.antt =====
-- The slots for memory chunks of a page table, in kernel/src/memory.rs. A slot is an entry of the
-- level 3 table that entry 5 of the level 4 table points to. Page tables are a map from the physical
-- address of a table and an index to an entry; the entries are the x86_64 crate's. `none` is a panic.
pub mod Slots
use eurali_os.Prelude.{
  ℕ, zero, suc, ◌+◌, ◌*◌, ◌/◌, ◌%◌, ◌^◌, ◌<◌, ◌≡◌, ltb, Option, none, some, Bool, true, false, not,
  ◌||◌, update, bit_or, ◌==◌, if◌then◌else◌,
}
use eurali_os.State.{Result, ok, err}
use eurali_os.Constants.{error_param, error_memory, error_doublefree, error_nomemslots}
use eurali_os.Frames.{Allocator, allocate_frame}

-- What the code uses of the x86_64 crate, as the crate documents it: an entry is unused when it is
-- zero, `set_addr` panics where the address is no multiple of the page size or has more than 52 bits
-- (`PhysAddr::new`), and the index of an address at a level is nine of its bits. `user_flags` is PRESENT | WRITABLE | USER_ACCESSIBLE.
pub record TableOps (Entry : Type 0) : Type 0 where
  pub empty_entry : Entry
  pub is_unused : Entry → Bool
  pub addr : Entry → ℕ
  pub set_addr : Entry → ℕ → ℕ → Option Entry
  pub set_unused : Entry → Entry
  pub user_flags : ℕ
  pub p4_index : ℕ → ℕ
  pub p3_index : ℕ → ℕ
  pub virt_addr_new : ℕ → Option ℕ
  pub set_addr-Used :
      (e : Entry) (a : ℕ) (e' : Entry)
      → set_addr e a user_flags ≡ some e'
      → (is_unused e' ≡ false) × (addr e' ≡ a)
  pub set_addr-some :
      (e : Entry) (a : ℕ)
      → a % 4096 ≡ 0
      → a < 2 ^ 52
      → (e' : Entry) × (set_addr e a user_flags ≡ some e')
  pub is_unused-set_unused : (e : Entry) → is_unused (set_unused e) ≡ true
  pub is_unused-empty_entry : is_unused empty_entry ≡ true
  pub p4_index_lem : (v : ℕ) → p4_index v ≡ v / 2 ^ 39 % 512
  pub p3_index_lem : (v : ℕ) → p3_index v ≡ v / 2 ^ 30 % 512
  pub virt_addr_new_lem : (v : ℕ) → v < 2 ^ 47 → virt_addr_new v ≡ some v

pub record Tables (Entry : Type 0) : Type 0 where
  pub entries : ℕ → ℕ → Entry
  pub frame_allocator : Allocator

abbrev pub chunk_l4_entry : ℕ
chunk_l4_entry = 5

abbrev pub chunk_l3_first : ℕ
chunk_l3_first = 1

abbrev pub chunk_l3_last : ℕ
chunk_l3_last = 511

-- The address of slot `ind`: MEMORY_CHUNK_L4_ENTRY << 39 | ind << 30.
unfoldable pub slot_address : ℕ → ℕ
slot_address ind = bit_or (chunk_l4_entry * 2 ^ 39) (ind * 2 ^ 30)

abbrev pub write_entry : {Entry : Type 0} → Tables Entry → ℕ → ℕ → Entry → Tables Entry
write_entry t table ind e = record t {
  entries = update t.entries table (update (t.entries table) ind e);
}

module _ {Entry : Type 0} (ops : TableOps Entry) where
  unfoldable pub create_empty_pagetable : Tables Entry → Option (ℕ × Tables Entry)
  create_empty_pagetable t = elim (allocate_frame t.frame_allocator) [
    | none ↦ none
    | some (none, a) ↦ none
    | some (some phys, a) ↦ some (
      phys,
      record { entries = update t.entries phys (λ ind. ops.empty_entry); frame_allocator = a },
    )
  ]

  -- The level 3 table, which is made where there is none.
  unfoldable pub l3_table : Tables Entry → ℕ → Option (ℕ × Tables Entry)
  unfolding create_empty_pagetable
  l3_table t l4 =
      let entry = t.entries l4 chunk_l4_entry in
      if ops.is_unused entry
      then (elim (create_empty_pagetable t) [
        | none ↦ none
        | some (phys, t₁) ↦
            (elim (ops.set_addr (t₁.entries l4 chunk_l4_entry) phys ops.user_flags) [
              | none ↦ none
              | some e ↦ some (ops.addr e, write_entry t₁ l4 chunk_l4_entry e)
            ])
      ])
      else some (ops.addr entry, t)

  -- `for ind in MEMORY_CHUNK_L3_FIRST..=MEMORY_CHUNK_L3_LAST`, with `rounds` to go.
  unfoldable pub first_unused : ℕ → ℕ → (ℕ → Entry) → Option ℕ
  first_unused zero ind table = none
  first_unused (suc rounds) ind table =
      let rest = first_unused rounds (ind + 1) table in
      if ops.is_unused (table ind) then some ind else rest

  unfoldable pub find_available_page_chunk : Tables Entry → ℕ → Option (Option ℕ × Tables Entry)
  unfolding l3_table first_unused
  find_available_page_chunk t l4 = elim (l3_table t l4) [
    | none ↦ none
    | some (l3, t₁) ↦ (elim (first_unused chunk_l3_last chunk_l3_first (t₁.entries l3)) [
      | none ↦ some (none, t₁)
      | some ind ↦ (elim (ops.virt_addr_new (slot_address ind)) [
        | none ↦ none
        | some v ↦ some (some v, t₁)
      ])
    ])
  ]

  unfoldable pub get_page_chunk : Tables Entry → ℕ → ℕ → Bool → Result (ℕ × ℕ) × Tables Entry
  get_page_chunk t l4 address take =
      let ind = ops.p3_index address in
      let l4_entry = t.entries l4 chunk_l4_entry in
      let l3 = ops.addr l4_entry in
      let l3_entry = t.entries l3 ind in
      if not (ops.p4_index address == chunk_l4_entry)
      then (err error_param, t)
      else if ltb ind chunk_l3_first || ltb chunk_l3_last ind
      then (err error_param, t)
      else if ops.is_unused l4_entry
      then (err error_memory, t)
      else if ops.is_unused l3_entry
      then (err error_doublefree, t)
      else (
        ok (ops.addr l3_entry, 2),
        if take then write_entry t l3 ind (ops.set_unused l3_entry) else t,
      )

  unfoldable pub put_page_chunk : Tables Entry → ℕ → ℕ → Option (Result ℕ × Tables Entry)
  unfolding l3_table first_unused
  put_page_chunk t l4 physaddr = elim (l3_table t l4) [
    | none ↦ none
    | some (l3, t₁) ↦ (elim (first_unused chunk_l3_last chunk_l3_first (t₁.entries l3)) [
      | none ↦ some (err error_nomemslots, t₁)
      | some ind ↦ (elim (ops.set_addr (t₁.entries l3 ind) physaddr ops.user_flags) [
        | none ↦ none
        | some e ↦ (elim (ops.virt_addr_new (slot_address ind)) [
          | none ↦ none
          | some v ↦ some (ok v, write_entry t₁ l3 ind e)
        ])
      ])
    ])
  ]
