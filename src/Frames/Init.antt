-- ===== src/Frames/Init.antt =====
-- `MultilevelBitmapFrameAllocator::init`: the bitmaps of a region of memory, with the frames that the
-- bitmaps themselves lie in marked as taken.
use eurali_os.Prelude.{
  ℕ, zero, suc, ◌+◌, ◌-◌, ◌*◌, ◌/◌, ◌%◌, ◌^◌, Option, none, some, Bool, List, [], ◌∷◌, update, ltb,
  bit_and, ◌==◌, if◌then◌else◌,
}
use eurali_os.Frames.{Allocator, num_levels_needed}

-- A region of the bootloader's memory map, with its range of frames.
pub record Region : Type 0 where
  pub is_usable : Bool
  pub start_frame_number : ℕ
  pub end_frame_number : ℕ
  pub start_addr : ℕ
  pub end_addr : ℕ

unfoldable pub usable_regions : List Region → List Region
usable_regions [] = []
usable_regions (r ∷ rs) = let rest = usable_regions rs in if r.is_usable then r ∷ rest else rest

-- The first usable region is discarded.
unfoldable pub second_region : List Region → Option Region
second_region [] = none
second_region (_ ∷ []) = none
second_region (_ ∷ r ∷ rs) = some r

-- `for i in 0..num_full_chunks`, with `rounds` to go: the words from `addr` on get the value `v`.
unfoldable pub write_words : ℕ → ℕ → ℕ → (ℕ → ℕ) → ℕ → ℕ
write_words zero addr v words = words
write_words (suc rounds) addr v words = write_words rounds (addr + 4) v (update words addr v)

-- All bits of a level: whole words, and one that is filled in part.
unfoldable pub fill_level : ℕ → ℕ → (ℕ → ℕ) → ℕ → ℕ
unfolding write_words
fill_level level_ptr nbits words =
    let num_full_chunks = nbits / 32 in
    let num_extra_bits = bit_and nbits 31 in
    let filled = write_words num_full_chunks level_ptr 0xFFFF_FFFF words in
    if ltb 0 num_extra_bits
    then update filled (level_ptr + 4 * num_full_chunks) (0xFFFF_FFFF / 2 ^ (32 - num_extra_bits))
    else filled

-- The number of words of a level, which is the number of bits of the level above.
unfoldable pub chunk_count : ℕ → ℕ
chunk_count nbits = nbits / 32 + (if ltb 0 (bit_and nbits 31) then 1 else 0)

-- The lowest `nbits` bits of a level are cleared; the rest of the last word is set.
unfoldable pub clear_low : ℕ → ℕ → (ℕ → ℕ) → ℕ → ℕ
unfolding write_words
clear_low ptr nbits words =
    let num_full_chunks = nbits / 32 in
    let num_extra_bits = bit_and nbits 31 in
    let cleared = write_words num_full_chunks ptr 0 words in
    if ltb 0 num_extra_bits
    then update cleared (ptr + 4 * num_full_chunks)
        (bit_and (0xFFFF_FFFF * 2 ^ num_extra_bits) 0xFFFF_FFFF)
    else cleared

-- `for level in level..nlevels`, with `rounds` to go, until no whole word is cleared.
unfoldable pub reserve : ℕ → ℕ → (ℕ → ℕ) → ℕ → (ℕ → ℕ) → ℕ → ℕ
unfolding clear_low
reserve zero level addrs nbits words = words
reserve (suc rounds) level addrs nbits words =
    let words' = clear_low (addrs level) nbits words in
    let rest = reserve rounds (level + 1) addrs (nbits / 32) words' in
    if nbits / 32 == 0 then words' else rest

-- The array of bitmap addresses has room for FRAME_ALLOCATOR_MAX_LEVELS levels.
abbrev pub max_levels : ℕ
max_levels = 6

-- `VirtAddr + u64` panics where the sum is not an address.
module _ (virt_addr_add : ℕ → ℕ → Option ℕ) where
  -- `for level in level..nlevels`, with `rounds` to go: the addresses of the bitmaps, the words, and
  -- the address behind the last bitmap.
  unfoldable pub fill_levels :
      ℕ → ℕ → ℕ → ℕ → ℕ → (ℕ → ℕ) → (ℕ → ℕ) → Option ((ℕ → ℕ) × (ℕ → ℕ) × ℕ)
  unfolding fill_level chunk_count
  fill_levels zero level offset level_start_addr nbits addrs words =
      some (addrs, words, level_start_addr)
  fill_levels (suc rounds) level offset level_start_addr nbits addrs words =
      elim (virt_addr_add offset level_start_addr) [
        | none ↦ none
        | some level_ptr ↦
            fill_levels rounds (level + 1) offset
              ((level_start_addr + chunk_count nbits * 4) % 2 ^ 64) (chunk_count nbits)
              (update addrs level level_ptr) (fill_level level_ptr nbits words)
      ]

  -- `PhysAddr::new` panics at what is not an address.
  module _ (phys_addr_new : ℕ → Option ℕ) where
    unfoldable pub init_region : Region → ℕ → (ℕ → ℕ) → Option Allocator
    unfolding fill_levels reserve
    init_region region physical_memory_offset words =
        let nframes = region.end_frame_number - region.start_frame_number in
        elim (num_levels_needed nframes) [
          | none ↦ none
          | some nlevels ↦
              if ltb max_levels nlevels
              then none
              else elim (fill_levels nlevels 0 physical_memory_offset region.start_addr nframes
                  (λ level. 0) words) [
                    | none ↦ none
                    | some (addrs, filled, past) ↦ elim (phys_addr_new region.start_addr) [
                      | none ↦ none
                      | some frame_phys_addr ↦ some (record {
                        bitmap_virt_addr = addrs;
                        nframes = nframes;
                        nlevels = nlevels;
                        frame_phys_addr = frame_phys_addr;
                        frame_stack = λ i. 0;
                        frame_stack_number = 0;
                        words =
                            reserve nlevels 0 addrs ((past - region.start_addr + 4095) / 4096)
                              filled;
                      })
                    ]
                  ]
        ]

    unfoldable pub init : List Region → ℕ → (ℕ → ℕ) → Option Allocator
    unfolding usable_regions second_region init_region
    init memory_map physical_memory_offset words =
        elim (second_region (usable_regions memory_map)) [
          | none ↦ none
          | some region ↦ init_region region physical_memory_offset words
        ]
