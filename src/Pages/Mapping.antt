-- ===== src/Pages/Mapping.antt =====
-- Pages that are mapped through the x86_64 crate's `Mapper`, in kernel/src/memory.rs and
-- kernel/src/memory/kernel_info.rs. A page is its number, a frame its address.
pub mod Ranges
use eurali_os.Prelude.{
  ℕ, zero, suc, ◌+◌, ◌-◌, ◌*◌, ◌/◌, ◌%◌, ◌^◌, ◌≡◌, ◌≢◌, Option, none, some, Bool, true, false, ◌==◌,
  not, if◌then◌else◌,
}
use eurali_os.Frames.{Allocator, allocate_frame, allocate_consecutive_frames}
use eurali_os.Chunks.{TableOps, Tables}
use eurali_os.Pages.{PageOps, copy_pagetables}

-- MapToError
pub data MapError : Type 0 where
  frame_allocation_failed parent_entry_huge_page page_already_mapped : MapError

pub data MapResult (A : Type 0) : Type 0 where
  mapped : A → MapResult A
  refused : MapError → MapResult A

-- A mapper of the level 4 table at an address: `lookup` is the frame and the flags of a page.
pub record Mapper (Entry : Type 0) : Type 0 where
  pub map_to_with_table_flags :
      Tables Entry → ℕ → ℕ → ℕ → ℕ → ℕ → Option (MapResult (Unit {0}) × Tables Entry)
  pub map_to : Tables Entry → ℕ → ℕ → ℕ → ℕ → Option (MapResult (Unit {0}) × Tables Entry)
  pub update_flags : Tables Entry → ℕ → ℕ → ℕ → Bool × Tables Entry
  pub phys_addr_new : ℕ → Option ℕ
  pub lookup : Tables Entry → ℕ → ℕ → Option (ℕ × ℕ)
  pub lookup_allocator :
      (t : Tables Entry) (a : Allocator) (l4 page : ℕ)
      → lookup (record t { frame_allocator = a }) l4 page ≡ lookup t l4 page
  pub map_to_with_table_flags_lem :
      (t t' : Tables Entry) (l4 page frame flags parent : ℕ)
      → map_to_with_table_flags t l4 page frame flags parent ≡ some (mapped tt, t')
      → (lookup t' l4 page ≡ some (frame, flags))
        × ((q : ℕ) → q ≢ page → lookup t' l4 q ≡ lookup t l4 q)
  pub map_to_lem :
      (t t' : Tables Entry) (l4 page frame flags : ℕ)
      → map_to t l4 page frame flags ≡ some (mapped tt, t')
      → (lookup t' l4 page ≡ some (frame, flags))
        × ((q : ℕ) → q ≢ page → lookup t' l4 q ≡ lookup t l4 q)
  pub map_to-refused :
      (t t' : Tables Entry) (l4 page frame flags : ℕ) (e : MapError)
      → map_to t l4 page frame flags ≡ some (refused e, t')
      → (q : ℕ) → lookup t' l4 q ≡ lookup t l4 q
  pub update_flags_lem :
      (t t' : Tables Entry) (l4 page frame old flags : ℕ)
      → lookup t l4 page ≡ some (frame, old)
      → update_flags t l4 page flags ≡ (true, t')
      → (lookup t' l4 page ≡ some (frame, flags))
        × ((q : ℕ) → q ≢ page → lookup t' l4 q ≡ lookup t l4 q)

abbrev pub kernelinfo_virtaddr : ℕ
kernelinfo_virtaddr = 0x4fff000

module _ {Entry : Type 0} (ops : PageOps Entry) (mapper : Mapper Entry) where
  -- The first page and the number of pages of `Page::range_inclusive` over `size` bytes. The sum and
  -- the difference of 64 bits wrap, and an end below the start gives no page.
  unfoldable pub page_range : ℕ → ℕ → Option (ℕ × ℕ)
  page_range start_addr size = elim (ops.table_ops.virt_addr_new ((start_addr + size) % 2 ^ 64)) [
    | none ↦ none
    | some past ↦ elim (ops.table_ops.virt_addr_new ((past + (2 ^ 64 - 1)) % 2 ^ 64)) [
      | none ↦ none
      | some end_addr ↦ some (start_addr / 4096, end_addr / 4096 + 1 - start_addr / 4096)
    ]
  ]

  -- `for page in page_range` of `allocate_pages_mapper`, with `rounds` to go.
  unfoldable pub map_new_frames :
      ℕ → ℕ → ℕ → ℕ → Tables Entry → Option (MapResult (Unit {0}) × Tables Entry)
  map_new_frames zero page l4 flags t = some (mapped tt, t)
  map_new_frames (suc rounds) page l4 flags t = elim (allocate_frame t.frame_allocator) [
    | none ↦ none
    | some (none, a) ↦ some (refused frame_allocation_failed, record t { frame_allocator = a })
    | some (some frame, a) ↦
        elim (mapper.map_to (record t { frame_allocator = a }) l4 page frame flags) [
          | none ↦ none
          | some (refused e, t') ↦ some (refused e, t')
          | some (mapped _, t') ↦ map_new_frames rounds (page + 1) l4 flags t'
        ]
  ]

  unfoldable pub allocate_pages_mapper :
      Tables Entry → ℕ → ℕ → ℕ → ℕ → Option (MapResult (Unit {0}) × Tables Entry)
  unfolding page_range map_new_frames
  allocate_pages_mapper t l4 start_addr size flags = elim (page_range start_addr size) [
    | none ↦ none
    | some (page, count) ↦ map_new_frames count page l4 flags t
  ]

  -- `for page in page_range` of `create_user_ondemand_pages`: all pages get the same frame.
  unfoldable pub map_shared_frame :
      ℕ → ℕ → ℕ → ℕ → Tables Entry → Option (MapResult (Unit {0}) × Tables Entry)
  map_shared_frame zero page l4 frame t = some (mapped tt, t)
  map_shared_frame (suc rounds) page l4 frame t =
      elim (mapper.map_to_with_table_flags t l4 page frame ops.read_only_flags
        ops.table_ops.user_flags) [
          | none ↦ none
          | some (refused e, t') ↦ some (refused e, t')
          | some (mapped _, t') ↦ map_shared_frame rounds (page + 1) l4 frame t'
        ]

  -- The first page is made writable.
  unfoldable pub own_first_page : ℕ → ℕ → Tables Entry → MapResult (Unit {0}) × Tables Entry
  own_first_page page l4 t =
      let (updated, t') = mapper.update_flags t l4 page ops.table_ops.user_flags in
      if updated then (mapped tt, t') else (refused frame_allocation_failed, t')

  unfoldable pub create_user_ondemand_pages :
      Tables Entry → ℕ → ℕ → ℕ → Option (MapResult (Unit {0}) × Tables Entry)
  unfolding page_range map_shared_frame own_first_page
  create_user_ondemand_pages t l4 start_addr size = elim (page_range start_addr size) [
    | none ↦ none
    | some (page, count) ↦ elim (allocate_frame t.frame_allocator) [
      | none ↦ none
      | some (none, a) ↦ some (refused frame_allocation_failed, record t { frame_allocator = a })
      | some (some frame, a) ↦
          elim (map_shared_frame count page l4 frame (record t { frame_allocator = a })) [
            | none ↦ none
            | some (refused e, t') ↦ some (refused e, t')
            | some (mapped _, t') ↦ some (own_first_page page l4 t')
          ]
    ]
  ]

  -- `for (page, frame) in page_range.zip(frame_range)`, with `rounds` to go.
  unfoldable pub map_frames :
      ℕ → ℕ → ℕ → ℕ → Tables Entry → Option (MapResult (Unit {0}) × Tables Entry)
  map_frames zero page l4 frame t = some (mapped tt, t)
  map_frames (suc rounds) page l4 frame t =
      elim (mapper.map_to_with_table_flags t l4 page frame ops.table_ops.user_flags
        ops.table_ops.user_flags) [
          | none ↦ none
          | some (refused e, t') ↦ some (refused e, t')
          | some (mapped _, t') ↦ map_frames rounds (page + 1) l4 (frame + 4096) t'
        ]

  unfoldable pub map_consecutive_pages :
      Tables Entry → ℕ → ℕ → ℕ → ℕ → Option (MapResult ℕ × Tables Entry)
  unfolding map_frames
  map_consecutive_pages t l4 start_page start_frame num_frames =
      elim (mapper.phys_addr_new (start_frame + num_frames * 4096)) [
        | none ↦ none
        | some _ ↦ elim (ops.table_ops.virt_addr_new ((start_page + num_frames) * 4096)) [
          | none ↦ none
          | some _ ↦ elim (map_frames num_frames start_page l4 start_frame t) [
            | none ↦ none
            | some (refused e, t') ↦ some (refused e, t')
            | some (mapped _, t') ↦ some (mapped start_frame, t')
          ]
        ]
      ]

  unfoldable pub create_consecutive_pages :
      Tables Entry → ℕ → ℕ → ℕ → ℕ → Option (MapResult ℕ × Tables Entry)
  unfolding map_consecutive_pages
  create_consecutive_pages t l4 start_addr num_frames max_physaddr =
      let (found, a) = allocate_consecutive_frames t.frame_allocator num_frames max_physaddr in
      let t₁ = record t { frame_allocator = a } in
      elim found [
        | none ↦ some (refused frame_allocation_failed, t₁)
        | some start_frame ↦ map_consecutive_pages t₁ l4 (start_addr / 4096) start_frame num_frames
      ]

  unfoldable pub create_physical_range_pages :
      Tables Entry → ℕ → ℕ → ℕ → ℕ → Option (MapResult ℕ × Tables Entry)
  unfolding map_consecutive_pages
  create_physical_range_pages t l4 start_virtaddr num_frames start_physaddr =
      if not (start_virtaddr % 4096 == 0)
      then some (refused frame_allocation_failed, t)
      else (elim (ops.from_start_address start_physaddr) [
        | none ↦ some (refused frame_allocation_failed, t)
        | some start_frame ↦
            map_consecutive_pages t l4 (start_virtaddr / 4096) start_frame num_frames
      ])

  -- kernel_info.rs; `frame_physaddr` is what `init` stored in FRAME_PHYSADDR.
  unfoldable pub add_to_user_table :
      Tables Entry → ℕ → ℕ → Option (MapResult (Unit {0}) × Tables Entry)
  add_to_user_table t l4 frame_physaddr =
      mapper.map_to t l4 (kernelinfo_virtaddr / 4096) (ops.containing_address frame_physaddr)
        ops.read_only_flags

  unfoldable pub create_new_user_pagetable : Tables Entry → ℕ → ℕ → Option (ℕ × Tables Entry)
  unfolding copy_pagetables add_to_user_table
  create_new_user_pagetable t kernel_l4_table frame_physaddr =
      elim (copy_pagetables ops t kernel_l4_table) [
        | none ↦ none
        | some (l4, t₁) ↦ elim (add_to_user_table t₁ l4 frame_physaddr) [
          | none ↦ none
          | some (_, t₂) ↦ some (l4, t₂)
        ]
      ]
