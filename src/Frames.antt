-- ===== src/Frames.antt =====
-- kernel/src/memory/frame_allocator.rs: free frames in bitmaps of several levels, behind a stack of
-- frames that are ready. The bitmaps lie in memory, which is a map from the addresses of 32-bit words
-- to their values. `none` is `None` in a frame search, and an outer `none` a panic.
pub mod Levels
pub mod Bits
pub mod WordBits
pub mod Moves
pub mod Layout
pub mod Proper
pub mod Ownership
pub mod Fetches
pub mod Runs
pub mod Index
pub mod Complete
pub mod Service
pub mod Init
pub mod InitWords
pub mod Boot
pub mod Reserved
pub mod SetAside
pub mod Started
pub mod Returns
pub mod Clearing
pub mod Drain
use eurali_os.Prelude.{
  ℕ, zero, suc, ◌+◌, ◌-◌, ◌*◌, ◌/◌, ◌%◌, ◌^◌, ltb, Option, none, some, Bool, true, false, ◌&&◌,
  List, [], ◌∷◌, update, bit_and, bit_or, bit_xor, ◌==◌, if◌then◌else◌,
}

-- `bsf`: the number of zero bits below the lowest one, of the `n` bits of `bitmap`.
unfoldable pub bit_scan : ℕ → ℕ → ℕ
bit_scan zero bitmap = 0
bit_scan (suc n) bitmap =
    let rest = suc (bit_scan n (bitmap / 2)) in if bitmap % 2 == 1 then 0 else rest

unfoldable pub nonzero_bit_index : ℕ → ℕ
unfolding bit_scan
nonzero_bit_index bitmap = bit_scan 32 bitmap

-- `while num_frames > max_frames`, with fuel.
unfoldable pub count_levels : ℕ → ℕ → ℕ → ℕ → Option ℕ
count_levels zero num_frames max_frames levels = none
count_levels (suc fuel) num_frames max_frames levels =
    let rest = count_levels fuel num_frames (max_frames * 32 % 2 ^ 64) (levels + 1) in
    if ltb max_frames num_frames then rest else some levels

-- Twelve levels are enough for `2 ^ 60` frames. For more, `max_frames` wraps to 0 after them and the
-- loop does not end, which is `none` here.
unfoldable pub num_levels_needed : ℕ → Option ℕ
unfolding count_levels
num_levels_needed num_frames = count_levels 12 num_frames 32 1

abbrev pub stack_size : ℕ
stack_size = 32

pub record Allocator : Type 0 where
  pub bitmap_virt_addr : ℕ → ℕ
  pub nframes : ℕ
  pub nlevels : ℕ
  pub frame_phys_addr : ℕ
  pub frame_stack : ℕ → ℕ
  pub frame_stack_number : ℕ
  pub words : ℕ → ℕ

-- The address of word `chunk` of a level's bitmap.
abbrev pub word_addr : Allocator → ℕ → ℕ → ℕ
word_addr a level chunk = a.bitmap_virt_addr level + 4 * chunk

abbrev pub flip_bits : ℕ → ℕ
flip_bits x = bit_xor 0xFFFF_FFFF x

-- `frame_stack[frame_stack_number] = frame; frame_stack_number += 1`; `none` is out of bounds.
unfoldable pub push_frame : Allocator → ℕ → Option Allocator
push_frame a frame =
    if ltb a.frame_stack_number stack_size
    then some (record a {
      frame_stack = update a.frame_stack a.frame_stack_number frame;
      frame_stack_number = a.frame_stack_number + 1;
    })
    else none

-- The walk from the top level down to a chunk of the lowest, over levels `level` to 1.
unfoldable pub descend : Allocator → ℕ → ℕ → Option ℕ
descend a zero chunk = some chunk
descend a (suc level) chunk =
    let bitmap = a.words (word_addr a (suc level) chunk) in
    let rest = descend a level (chunk * 32 + nonzero_bit_index bitmap) in
    if bitmap == 0 then none else rest

-- `while bitmap != 0`, with fuel: all frames of a chunk go on the stack.
unfoldable pub drain : ℕ → ℕ → ℕ → Allocator → Option Allocator
unfolding push_frame
drain zero bitmap chunk a = none
drain (suc fuel) bitmap chunk a =
    let index = nonzero_bit_index bitmap in
    let rest : Option Allocator = elim (push_frame a (chunk * 32 + index)) [
      | none ↦ none
      | some a' ↦ drain fuel (bit_xor bitmap (2 ^ index)) chunk a'
    ] in
    if bitmap == 0 then some a else rest

-- `for level in level..nlevels`, with `rounds` levels to go: the bit of an empty chunk is cleared.
unfoldable pub clear_upwards : ℕ → ℕ → ℕ → Allocator → Allocator
clear_upwards zero level chunk a = a
clear_upwards (suc rounds) level chunk a =
    let index = bit_and chunk 31 in
    let above = chunk / 32 in
    let addr = word_addr a level above in
    let bitmap = bit_and (a.words addr) (flip_bits (2 ^ index)) in
    let a' = record a { words = update a.words addr bitmap } in
    let rest = clear_upwards rounds (level + 1) above a' in if bitmap == 0 then rest else a'

-- The part of `fetch_frame` for an empty stack.
unfoldable pub refill : Allocator → ℕ → Option Allocator
unfolding drain clear_upwards
refill a chunk =
    let addr = word_addr a 0 chunk in
    elim (drain 33 (a.words addr) chunk a) [
      | none ↦ none
      | some a₁ ↦
          some
            (clear_upwards (a₁.nlevels - 1) 1 chunk (record a₁ { words = update a₁.words addr 0 }))
    ]

-- The end of `fetch_frame`; an empty stack is a panic.
unfoldable pub pop_frame : Allocator → Option (Option ℕ × Allocator)
pop_frame a =
    if a.frame_stack_number == 0
    then none
    else some (
      some (a.frame_stack (a.frame_stack_number - 1)),
      record a { frame_stack_number = a.frame_stack_number - 1 },
    )

unfoldable pub fetch_frame : Allocator → Option (Option ℕ × Allocator)
unfolding descend refill pop_frame
fetch_frame a =
    if a.frame_stack_number == 0
    then (elim (descend a (a.nlevels - 1) 0) [
      | none ↦ some (none, a)
      | some chunk ↦ (elim (refill a chunk) [ none ↦ none | some a' ↦ pop_frame a' ])
    ])
    else pop_frame a

-- The loop of `return_frame` over the levels, with `rounds` to go.
unfoldable pub set_upwards : ℕ → ℕ → ℕ → Allocator → Allocator
set_upwards zero level chunk_number a = a
set_upwards (suc rounds) level chunk_number a =
    let addr = word_addr a level chunk_number in
    let index = bit_and chunk_number 31 in
    let a' = record a { words = update a.words addr (bit_or (a.words addr) (2 ^ index)) } in
    let rest = set_upwards rounds (level + 1) (chunk_number / 32) a' in
    if a.words addr == 0 then rest else a'

unfoldable pub return_frame : Allocator → ℕ → Allocator
unfolding set_upwards
return_frame a frame =
    if ltb a.frame_stack_number stack_size
    then record a {
      frame_stack = update a.frame_stack a.frame_stack_number frame;
      frame_stack_number = a.frame_stack_number + 1;
    }
    else set_upwards a.nlevels 0 frame a

unfoldable pub deallocate_frame : Allocator → ℕ → Allocator
unfolding return_frame
deallocate_frame a start_address =
    if ltb start_address a.frame_phys_addr
    then a
    else return_frame a ((start_address - a.frame_phys_addr) / 4096)

unfoldable pub allocate_frame : Allocator → Option (Option ℕ × Allocator)
unfolding fetch_frame
allocate_frame a = elim (fetch_frame a) [
  | none ↦ none
  | some (none, a') ↦ some (none, a')
  | some (some frame, a') ↦ some (some (a'.frame_phys_addr + frame * 4096), a')
]

-- `for pos in pos..32`: the count so far, or the position at which the run is long enough.
unfoldable pub search_word : ℕ → ℕ → ℕ → ℕ → ℕ → Option ℕ × ℕ
search_word zero pos bitmap needed count = (none, count)
search_word (suc rounds) pos bitmap needed count =
    let taken = bit_and bitmap (2 ^ pos) == 0 in
    let count' = if taken then 0 else count + 1 in
    let rest = search_word rounds (pos + 1) bitmap needed count' in
    if taken then rest else if count' == needed then (some pos, count') else rest

-- `for chunk in chunk..nchunks`: the first frame of a run.
unfoldable pub search_chunks : ℕ → ℕ → Allocator → ℕ → ℕ → Option ℕ
unfolding search_word
search_chunks zero chunk a needed count = none
search_chunks (suc rounds) chunk a needed count =
    let (hit, count') = search_word 32 0 (a.words (word_addr a 0 chunk)) needed count in
    let rest = search_chunks rounds (chunk + 1) a needed count' in
    elim hit [ none ↦ rest | some pos ↦ some (chunk * 32 + pos + 1 - count') ]

-- `for frame in start_frame..(start_frame + needed_frames)`
unfoldable pub mark_taken : ℕ → ℕ → Allocator → Allocator
unfolding clear_upwards
mark_taken zero frame a = a
mark_taken (suc rounds) frame a = mark_taken rounds (frame + 1) (clear_upwards a.nlevels 0 frame a)

unfoldable pub consecutive_frames : Allocator → ℕ → ℕ → Option ℕ × Allocator
unfolding search_chunks mark_taken
consecutive_frames a needed max_address =
    if ltb max_address (a.frame_phys_addr + 4095)
    then (none, a)
    else (let max_frames = (max_address + 1 - a.frame_phys_addr) / 4096 in
        let nframes = if ltb max_frames a.nframes then max_frames else a.nframes in
        let nchunks = nframes / 32 + (if bit_and nframes 31 == 0 then 0 else 1) in
        elim (search_chunks nchunks 0 a needed 0) [
          | none ↦ (none, a)
          | some start ↦ (some start, mark_taken needed start a)
        ])

unfoldable pub allocate_consecutive_frames : Allocator → ℕ → ℕ → Option ℕ × Allocator
unfolding consecutive_frames
allocate_consecutive_frames a needed max_address =
    let (found, a') = consecutive_frames a needed max_address in
    elim found [ none ↦ (none, a') | some frame ↦ (some (a'.frame_phys_addr + frame * 4096), a') ]
