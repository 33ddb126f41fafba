-- ===== src/Examples/Frames.antt =====
-- Sequences of calls of the frame allocator on a concrete region.
use eurali_os.Frames.Returns.{return_frame_lost}
use eurali_os.Frames.SetAside.{IsSetAside}
use eurali_os.Prelude.{
  ℕ, zero, suc, ◌+◌, ◌*◌, ◌<◌, ◌≡◌, ◌↔◌, refl, arith, Option, none, some, [], ◌∷◌, ◌==◌,
  if◌then◌else◌, List, true, ltb, ◌^◌, inl, inr, ◌-◌, ◌%◌,
}
use eurali_os.Frames.Init.{Region, init, init_region}
use eurali_os.Frames.Started.{init_region-IsProper}
use eurali_os.Frames.Bits.{bit}
use eurali_os.Frames.WordBits.{bit-below, bit-zero}
use eurali_os.Frames.Layout.{limit, IsLaidOut}
use eurali_os.Frames.Proper.{IsFree, IsProper}
use eurali_os.Frames.Index.{IsIndexed}
use eurali_os.Frames.Complete.{Serves}
use eurali_os.Frames.Runs.{Reach, here, next, fetches, returns, AreOut, Reach-Owned}
use eurali_os.Frames.Service.{Exists, Reach-Exists, Reach-Serves}
use eurali_os.Frames.{num_levels_needed, Allocator, fetch_frame, return_frame, nonzero_bit_index}

-- Forty frames from address 0x100000, the first in use, with bitmaps at 0x100000 and 0x100008.
abbrev region : Allocator
region = record {
  bitmap_virt_addr = λ level. if level == 0 then 0x100000 else 0x100008;
  nframes = 40;
  nlevels = 2;
  frame_phys_addr = 0x100000;
  frame_stack = λ i. 0;
  frame_stack_number = 0;
  words = λ a.
      if a == 0x100000
      then 0xFFFF_FFFE
      else if a == 0x100004
      then 0xFF
      else if a == 0x100008
      then 3
      else 0;
}

region_in_range :
    (level chunk i : ℕ)
    → level < 2
    → chunk < limit 40 (suc level)
    → bit (region.words (region.bitmap_virt_addr level + 4 * chunk)) i ≡ 1
    → chunk * 32 + i < limit 40 level
unfolding limit
region_in_range zero zero i h low set = omega (arith, bit-below 32 0xFFFF_FFFE i (omega arith) set)
region_in_range zero (suc zero) i h low set = omega (arith, bit-below 8 0xFF i (omega arith) set)
region_in_range zero (suc (suc chunk)) i h low set = absurd (omega arith)
region_in_range (suc zero) zero i h low set = omega (arith, bit-below 2 3 i (omega arith) set)
region_in_range (suc zero) (suc chunk) i h low set = absurd (omega arith)
region_in_range (suc (suc level)) chunk i h low set = absurd (omega arith)

region-IsLaidOut : IsLaidOut region
unfolding limit
region-IsLaidOut zero h = refl
region-IsLaidOut (suc level) h = absurd (omega arith)

region-IsProper : IsProper region
unfolding limit
region-IsProper = record {
  laid_out = region-IsLaidOut;
  some_levels = omega arith;
  one_chunk = refl;
  words_small = λ x. ground arith;
  in_range = region_in_range;
  in_region = λ i h. absurd (omega arith);
  apart = λ i k h q. absurd (omega arith);
  taken = λ i h. absurd (omega arith);
}

region-IsIndexed : IsIndexed region
unfolding limit bit
region-IsIndexed zero zero h low = ((λ set. omega arith), (λ pos. refl))
region-IsIndexed zero (suc zero) h low = ((λ set. omega arith), (λ pos. refl))
region-IsIndexed zero (suc (suc chunk)) h low = absurd (omega arith)
region-IsIndexed (suc level) chunk h low = absurd (omega arith)

abbrev state_of : Option (Option ℕ × Allocator) → Allocator
state_of none = region
state_of (some (frame, a)) = a

-- Frame 31, then frame 30 is fetched, and frame 31 comes back.
abbrev one_out : Allocator
one_out = state_of (fetch_frame region)

abbrev two_out : Allocator
two_out = state_of (fetch_frame one_out)

run : Reach region [] (return_frame two_out 31) (30 ∷ [])
unfolding fetch_frame nonzero_bit_index
run =
    next (next (next here (fetches 31 one_out refl)) (fetches 30 two_out refl))
      (returns 31 (30 ∷ []) [] refl (omega arith))

Reach-Owned_example :
    IsProper (return_frame two_out 31) × AreOut (return_frame two_out 31) (30 ∷ [])
Reach-Owned_example = Reach-Owned region (return_frame two_out 31) (30 ∷ []) run region-IsProper

Reach-Exists_example : IsFree region 39 ↔ Exists (return_frame two_out 31) (30 ∷ []) 39
Reach-Exists_example =
    Reach-Exists region (return_frame two_out 31) (30 ∷ []) run region-IsProper 39 (omega arith)

Reach-Serves_example : Serves (return_frame two_out 31) (fetch_frame (return_frame two_out 31))
Reach-Serves_example =
    Reach-Serves region (return_frame two_out 31) (30 ∷ []) run region-IsProper region-IsIndexed
      (omega arith)

-- A region of `frames` frames from address 0x100000.
abbrev boot_region : ℕ → Region
boot_region frames = record {
  is_usable = true;
  start_frame_number = 0x100;
  end_frame_number = 0x100 + frames;
  start_addr = 0x100000;
  end_addr = 0x100000 + frames * 4096;
}

-- Addresses in the lower half, and physical addresses of 52 bits.
abbrev add_address : ℕ → ℕ → Option ℕ
add_address v d = if ltb (v + d) (2 ^ 47) then some (v + d) else none

abbrev physical_address : ℕ → Option ℕ
physical_address a = if ltb a (2 ^ 52) then some a else none

init_region-IsProper_example :
    (a : Allocator) × (init_region add_address physical_address
        (boot_region 40)
        0x180_0000_0000
        (λ x. 0)
      ≡ some a)
    × (a.nframes ≡ 40)
    × (a.frame_phys_addr ≡ 0x100000)
    × IsProper a
    × IsIndexed a
    × IsSetAside a 0x180_0000_0000 0x100000
init_region-IsProper_example =
    init_region-IsProper add_address physical_address (boot_region 40) 0x180_0000_0000 (λ x. 0)
      (omega arith) (omega arith) (omega arith) (λ x. omega arith) refl (λ x h. ground arith)

-- The region of this file, as `init` makes it.
abbrev boot_map : ℕ → List Region
boot_map frames =
    record {
      is_usable = true;
      start_frame_number = 0;
      end_frame_number = 0x9F;
      start_addr = 0;
      end_addr = 0x9F000;
    }
    ∷ boot_region frames
    ∷ []

abbrev words_at : List ℕ → Option Allocator → List ℕ
words_at addrs none = []
words_at addrs (some a) = map_words addrs
  where
    map_words : List ℕ → List ℕ
    map_words [] = []
    map_words (x ∷ xs) = a.words x ∷ map_words xs

init_as_region :
    words_at
      (0x100000 ∷ 0x100004 ∷ 0x100008 ∷ 0x10000C ∷ [])
      (init add_address physical_address (boot_map 40) 0 (λ x. 0))
    ≡ 0xFFFF_FFFE ∷ 0xFF ∷ 3 ∷ 0 ∷ []
unfolding init num_levels_needed
init_as_region = refl

-- In a region of less than 32 frames the bits behind the last frame are set.
init_sets_more :
    words_at (0x100000 ∷ []) (init add_address physical_address (boot_map 16) 0 (λ x. 0))
    ≡ 0xFFFF_FFFE ∷ []
unfolding init num_levels_needed
init_sets_more = refl

-- All frames of chunk 0 and frame 39 were fetched, and frames 1 to 25 came back.
abbrev full_stack : Allocator
full_stack = record region {
  frame_stack = λ i. if ltb i 7 then 32 + i else i - 6;
  frame_stack_number = 32;
  words = λ x. 0;
}

full_stack-IsProper : IsProper full_stack
unfolding limit
full_stack-IsProper = record {
  laid_out = region-IsLaidOut;
  some_levels = omega arith;
  one_chunk = refl;
  words_small = λ x. omega arith;
  in_range = λ level chunk i h low set. absurd (omega (arith, bit-zero i));
  in_region = λ i h. ground arith;
  apart = λ i k h q same. absurd (ground arith);
  taken = λ i h set. absurd (omega (arith, bit-zero (full_stack.frame_stack i % 32)));
}

frame_out : ¬ IsFree full_stack 26
frame_out (inl (i, h, same)) = absurd (ground arith)
frame_out (inr set) = absurd (omega (arith, bit-zero 26))

return_frame_lost_example : ¬ IsFree (return_frame full_stack 26) 26
return_frame_lost_example =
    return_frame_lost full_stack 26 full_stack-IsProper refl (omega arith) (omega arith) frame_out
