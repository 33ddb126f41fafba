-- ===== src/Pages.antt =====
-- Page tables as trees, in kernel/src/memory.rs: copying one, and giving back the frames of one. Page
-- tables are the map of Chunks, whose entries are the x86_64 crate's; `none` is a panic.
pub mod Loop
pub mod Freed
pub mod Stacks
pub mod Written
pub mod Places
pub mod Reuse
pub mod Mapping
pub mod Interface
use eurali_os.Prelude.{
  ℕ, zero, suc, ◌+◌, ◌*◌, ◌/◌, ◌%◌, ◌≡◌, Option, none, some, Bool, true, false, ◌||◌, ◌&&◌, ◌==◌,
  ◌-◌, if◌then◌else◌,
}
use eurali_os.State.{Result, ok, err}
use eurali_os.Frames.{Allocator, deallocate_frame}
use eurali_os.Chunks.{TableOps, Tables, write_entry, create_empty_pagetable, get_page_chunk}

-- What the code uses of the x86_64 crate beyond TableOps, as the crate documents it. Flags are a
-- number with a bit for each flag, and `contains` asks for all bits of another one. An unused entry is
-- zero, so it has no address. `frame` is `None` where the entry's frame is not present or huge.
pub record PageOps (Entry : Type 0) : Type 0 where
  pub table_ops : TableOps Entry
  pub flags : Entry → ℕ
  pub contains : ℕ → ℕ → Bool
  pub set_flags : Entry → ℕ → Entry
  pub frame : Entry → Option ℕ
  pub containing_address : ℕ → ℕ
  pub from_start_address : ℕ → Option ℕ
  pub p2_index : ℕ → ℕ
  pub p1_index : ℕ → ℕ
  -- PRESENT | USER_ACCESSIBLE
  pub read_only_flags : ℕ
  pub writable : ℕ
  pub huge_page : ℕ
  pub set_addr-Has :
      (e : Entry) (a flag : ℕ) (e' : Entry)
      → (flag == table_ops.user_flags || flag == read_only_flags) ≡ true
      → table_ops.set_addr e a flag ≡ some e'
      → (table_ops.addr e' ≡ a) × (flags e' ≡ flag)
  pub addr-set_flags : (e : Entry) (flag : ℕ) → table_ops.addr (set_flags e flag) ≡ table_ops.addr e
  pub addr-is_unused : (e : Entry) → table_ops.is_unused e ≡ true → table_ops.addr e ≡ 0
  pub contains-user_flags : contains table_ops.user_flags writable ≡ true
  pub contains-read_only_flags : contains read_only_flags writable ≡ false
  pub frame-user_flags :
      (e : Entry) → flags e ≡ table_ops.user_flags → frame e ≡ some (table_ops.addr e)
  pub frame-user :
      (e : Entry)
      → contains (flags e) table_ops.user_flags ≡ true
      → contains (flags e) huge_page ≡ false
      → frame e ≡ some (table_ops.addr e)
  pub from_start_address-addr :
      (e : Entry) → from_start_address (table_ops.addr e) ≡ some (table_ops.addr e)
  pub p2_index_lem : (v : ℕ) → p2_index v ≡ v / 2097152 % 512
  pub p1_index_lem : (v : ℕ) → p1_index v ≡ v / 4096 % 512

module _ {Entry : Type 0} (ops : PageOps Entry) where
  -- `for entry in table.iter()` with `rounds` to go, and `entry_step` for the body.
  unfoldable pub each_entry :
      (Allocator → Entry → Option Allocator) → (ℕ → Entry) → ℕ → ℕ → Allocator → Option Allocator
  each_entry entry_step table zero ind a = some a
  each_entry entry_step table (suc rounds) ind a = elim (entry_step a (table ind)) [
    | none ↦ none
    | some a' ↦ each_entry entry_step table rounds (ind + 1) a'
  ]

  -- An entry that maps a frame: level 1, or a huge page.
  abbrev pub maps_frame : ℕ → Entry → Bool
  maps_frame level e = level == 1 || ops.contains (ops.flags e) ops.huge_page

  -- A frame of the user is given back.
  unfoldable pub free_mapped : Allocator → Entry → Option Allocator
  free_mapped a e =
      if ops.contains (ops.flags e) ops.table_ops.user_flags
      then (elim (ops.frame e) [ none ↦ none | some start ↦ some (deallocate_frame a start) ])
      else some a

  -- The body of the loop at a level, with what frees the table an entry points to.
  unfoldable pub free_entry :
      ℕ → (Allocator → ℕ → Option Allocator) → Allocator → Entry → Option Allocator
  unfolding free_mapped
  free_entry level free_below a e = elim (ops.table_ops.is_unused e) [
    | true ↦ some a
    | false ↦ elim (maps_frame level e) [
      | true ↦ free_mapped a e
      | false ↦ free_below a (ops.table_ops.addr e)
    ]
  ]

  -- The frame of a table; an address that is not aligned is a panic.
  unfoldable pub free_table : Allocator → ℕ → Option Allocator
  free_table a physaddr = elim (ops.from_start_address physaddr) [
    | none ↦ none
    | some start ↦ some (deallocate_frame a start)
  ]

  unfoldable pub free_pages_rec : (ℕ → ℕ → Entry) → ℕ → Allocator → ℕ → Option Allocator
  unfolding each_entry free_entry free_table
  free_pages_rec entries zero a physaddr =
      some (deallocate_frame a (ops.containing_address physaddr))
  free_pages_rec entries (suc level) a physaddr =
      elim (each_entry (free_entry (suc level) (free_pages_rec entries level)) (entries physaddr)
        512 0 a) [ none ↦ none | some a' ↦ free_table a' physaddr ]

  unfoldable pub free_user_pagetables : Tables Entry → ℕ → Option (Tables Entry)
  unfolding free_pages_rec
  free_user_pagetables t l4 = elim (free_pages_rec t.entries 4 t.frame_allocator l4) [
    | none ↦ none
    | some a ↦ some (record t { frame_allocator = a })
  ]

  unfoldable pub free_page_chunk : Tables Entry → ℕ → ℕ → Option (Result Unit × Tables Entry)
  unfolding get_page_chunk free_pages_rec
  free_page_chunk t l4 address =
      let (found, t₁) = get_page_chunk ops.table_ops t l4 address true in
      elim found [
        | err e ↦ some (err e, t₁)
        | ok (physaddr, level) ↦
            elim (free_pages_rec t₁.entries level t₁.frame_allocator physaddr) [
              | none ↦ none
              | some a ↦ some (ok tt, record t₁ { frame_allocator = a })
            ]
      ]

  -- An entry that points to a new table, and the table.
  unfoldable pub copy_entry :
      ℕ
      → (ℕ → ℕ → Tables Entry → Option (Tables Entry))
      → ℕ
      → ℕ
      → ℕ
      → Tables Entry
      → Option (Tables Entry)
  unfolding create_empty_pagetable
  copy_entry level copy_below from to ind t =
      let entry = t.entries from ind in
      elim (ops.table_ops.is_unused entry) [
        | true ↦ some t
        | false ↦ elim (maps_frame level entry) [
          | true ↦
              elim (ops.table_ops.set_addr (t.entries to ind) (ops.table_ops.addr entry)
                (ops.flags entry)) [ none ↦ none | some e ↦ some (write_entry t to ind e) ]
          | false ↦ elim (create_empty_pagetable ops.table_ops t) [
            | none ↦ none
            | some (phys, t₁) ↦
                elim (ops.table_ops.set_addr (t₁.entries to ind) phys (ops.flags entry)) [
                  | none ↦ none
                  | some e ↦ copy_below (ops.table_ops.addr entry) phys (write_entry t₁ to ind e)
                ]
          ]
        ]
      ]

  -- `for (i, entry) in from_table.iter().enumerate()`
  unfoldable pub copy_entries :
      (ℕ → Tables Entry → Option (Tables Entry)) → ℕ → ℕ → Tables Entry → Option (Tables Entry)
  copy_entries copy_at zero ind t = some t
  copy_entries copy_at (suc rounds) ind t = elim (copy_at ind t) [
    | none ↦ none
    | some t' ↦ copy_entries copy_at rounds (ind + 1) t'
  ]

  -- Level 0 is never asked for.
  unfoldable pub copy_pages_rec : ℕ → ℕ → ℕ → Tables Entry → Option (Tables Entry)
  unfolding copy_entry copy_entries
  copy_pages_rec zero from to t = none
  copy_pages_rec (suc level) from to t =
      copy_entries (copy_entry (suc level) (copy_pages_rec level) from to) 512 0 t

  unfoldable pub copy_pagetables : Tables Entry → ℕ → Option (ℕ × Tables Entry)
  unfolding create_empty_pagetable copy_pages_rec
  copy_pagetables t level_4_table = elim (create_empty_pagetable ops.table_ops t) [
    | none ↦ none
    | some (table, t₁) ↦ elim (copy_pages_rec 4 level_4_table table t₁) [
      | none ↦ none
      | some t₂ ↦ some (table, t₂)
    ]
  ]
