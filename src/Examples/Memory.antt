-- ===== src/Examples/Memory.antt =====
-- Tests of the frame allocator and of memory chunks, and their theorems at concrete memories.
use eurali_os.Constants.{error_doublefree}
use eurali_os.State.{ok, err}
use eurali_os.Chunks.{
  TableOps, Tables, write_entry, l3_table, put_page_chunk, get_page_chunk, slot_address,
}
use eurali_os.Chunks.Slots.{Puts, put_page_chunk-Puts, get_page_chunk-put_page_chunk, put_address}
use eurali_os.Frames.Levels.{Suffices, num_levels_needed-Suffices}
use eurali_os.Frames.{
  Allocator, fetch_frame, consecutive_frames, num_levels_needed, nonzero_bit_index, allocate_frame,
}
use eurali_os.Prelude.{
  ℕ, ◌≡◌, refl, arith, Option, none, some, List, [], ◌∷◌, ◌==◌, if◌then◌else◌, ◌^◌, ◌+◌, ◌*◌, ◌/◌,
  ◌%◌, ltb, ◌&&◌, true, false,
}

-- Forty frames from address 0x100000, all free, with bitmaps at 0x100000 and 0x100008.
abbrev pub forty_frames : ℕ → Allocator
forty_frames stacked = record {
  bitmap_virt_addr = λ level. if level == 0 then 0x100000 else 0x100008;
  nframes = 40;
  nlevels = 2;
  frame_phys_addr = 0x100000;
  frame_stack = λ i. i;
  frame_stack_number = stacked;
  words = λ a.
      if a == 0x100000
      then 0xFFFF_FFFE
      else if a == 0x100004
      then 0xFF
      else if a == 0x100008
      then 3
      else 0;
}

abbrev fetched : Option (Option ℕ × Allocator) → List ℕ
fetched none = []
fetched (some (none, a)) = []
fetched (some (some frame, a)) =
    frame ∷ a.frame_stack_number ∷ a.words 0x100000 ∷ a.words 0x100008 ∷ []

fetches_chunk : fetched (fetch_frame (forty_frames 0)) ≡ 31 ∷ 30 ∷ 0 ∷ 2 ∷ []
unfolding fetch_frame nonzero_bit_index
fetches_chunk = refl

finds_run : (consecutive_frames (forty_frames 0) 8 0xFFFF_FFFF).0 ≡ some 1
unfolding consecutive_frames
finds_run = refl

num_levels_needed-Suffices_example :
    (levels : ℕ) × (num_levels_needed 33554432 ≡ some levels) × Suffices 33554432 levels
num_levels_needed-Suffices_example = num_levels_needed-Suffices 33554432 (omega arith)

five_levels : num_levels_needed 33554432 ≡ some 5
unfolding num_levels_needed
five_levels = refl

no_end_above : num_levels_needed (2 ^ 60 + 1) ≡ none
unfolding num_levels_needed
no_end_above = refl

-- Entries as the crate has them: an address in the bits 12 to 51, flags in the bits below.
abbrev pub address_bits : ℕ → ℕ
address_bits e = e / 4096 % 2 ^ 40 * 4096

abbrev pub set_bits : ℕ → ℕ → ℕ → Option ℕ
set_bits e a flags = if a % 4096 == 0 && ltb a (2 ^ 52) then some (a + flags) else none

pub set_bits-Used :
    (e a e' : ℕ) → set_bits e a 7 ≡ some e' → ((e' == 0) ≡ false) × (address_bits e' ≡ a)
set_bits-Used e a e' h = (ground arith, ground arith)

abbrev pub table_ops : TableOps ℕ
table_ops = record {
  empty_entry = 0;
  is_unused = λ e. e == 0;
  addr = address_bits;
  set_addr = set_bits;
  set_unused = λ e. 0;
  user_flags = 7;
  p4_index = λ v. v / 2 ^ 39 % 512;
  p3_index = λ v. v / 2 ^ 30 % 512;
  virt_addr_new = λ v. if ltb v (2 ^ 47) then some v else none;
  set_addr-Used = set_bits-Used;
  set_addr-some = λ e a aligned small. (a + 7, ground arith);
  is_unused-set_unused = λ e. refl;
  is_unused-empty_entry = refl;
  p4_index_lem = λ v. refl;
  p3_index_lem = λ v. refl;
  virt_addr_new_lem = λ v small. ground arith;
}

-- A level 4 table at 0x1000, its level 3 table at 0x2000 and a chunk at 0x5000 in slot 1.
abbrev page_tables : Tables ℕ
page_tables = record {
  entries = λ table ind.
      if table == 0x1000 && ind == 5
      then 0x2007
      else if table == 0x2000 && ind == 1
      then 0x5007
      else 0;
  frame_allocator = forty_frames 3;
}

put_page_chunk-Puts_example :
    Puts table_ops 0x9000 page_tables 0x2000 (put_page_chunk table_ops page_tables 0x1000 0x9000)
unfolding l3_table
put_page_chunk-Puts_example =
    put_page_chunk-Puts table_ops page_tables 0x1000 0x9000 0x2000 page_tables refl refl
      (omega arith)

get_page_chunk-put_page_chunk_example :
    (get_page_chunk table_ops (write_entry page_tables 0x2000 2 0x9007) 0x1000 0x28080000000 false
      ≡ (ok (0x9000, 2), write_entry page_tables 0x2000 2 0x9007))
    × ((t₂ : Tables ℕ) × (get_page_chunk table_ops
            (write_entry page_tables 0x2000 2 0x9007)
            0x1000
            0x28080000000
            true
          ≡ (ok (0x9000, 2), t₂))
        × (get_page_chunk table_ops t₂ 0x1000 0x28080000000 true ≡ (err error_doublefree, t₂)))
unfolding l3_table put_page_chunk slot_address
get_page_chunk-put_page_chunk_example =
    get_page_chunk-put_page_chunk table_ops page_tables 0x1000 0x9000 0x2000 page_tables
      0x28080000000 (write_entry page_tables 0x2000 2 0x9007) refl (omega arith) refl

-- In an empty page table the level 3 table is made first, in the frame that is ready.
makes_table :
    put_address table_ops (put_page_chunk table_ops page_tables 0x8000 0x9000)
    ≡ some (ok 0x28040000000)
unfolding put_page_chunk slot_address allocate_frame
makes_table = refl

-- One level and no frame left.
abbrev no_frames : Allocator
no_frames = record (forty_frames 0) { nframes = 16; nlevels = 1; words = λ a. 0 }
