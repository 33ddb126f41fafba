-- ===== src/Frames/Drain.antt =====
-- `fetch_frame` with an empty stack: the frames of a chunk go on the stack, and one of them is handed
-- out.
use eurali_os.Prelude.{
  ℕ, zero, suc, ◌+◌, ◌-◌, ◌*◌, ◌/◌, ◌^◌, ◌≤◌, ◌<◌, ◌≡◌, refl, ap, ◌∙◌, inl, inr, arith, Bool,
  Bool-cases, Option, none, some, bit_xor, ◌==◌, if◌then◌else◌, update, bit_and, ==_iff,
}
use eurali_os.Frames.Clearing.{one_round}
use eurali_os.Frames.{
  Allocator, word_addr, nonzero_bit_index, push_frame, drain, descend, refill, clear_upwards,
  pop_frame, fetch_frame, flip_bits,
}

factor_pos : (p q b : ℕ) → b ≡ p * q → 0 < b → 0 < q
factor_pos p zero b e h = absurd (omega arith)
factor_pos p (suc q) b e h = omega arith

width_pos : (w q : ℕ) → q < 2 ^ w → 0 < q → 0 < w
width_pos zero q small pos = absurd (omega arith)
width_pos (suc w) q small pos = omega arith

-- The frames on the stack are frames of the chunk.
abbrev pub Holds : ℕ → Allocator → Type 0
Holds chunk a =
    (j : ℕ)
    → j < a.frame_stack_number
    → (chunk * 32 ≤ a.frame_stack j) × (a.frame_stack j < chunk * 32 + 32)

abbrev pub pushed : ℕ → Allocator → Allocator
pushed frame a = record a {
  frame_stack = update a.frame_stack a.frame_stack_number frame;
  frame_stack_number = a.frame_stack_number + 1;
}

pushed-Holds :
    (chunk index : ℕ) (a : Allocator)
    → index < 32
    → Holds chunk a
    → Holds chunk (pushed (chunk * 32 + index) a)
pushed-Holds chunk index a low all j h = elim (Bool-cases (a.frame_stack_number == j)) [
  | inl top ↦ rw top (omega arith, omega arith)
  | inr under ↦ rw under (all j (ground arith))
]

-- What draining a word leaves of the allocator.
abbrev pub Drained : Allocator → Allocator → Type 0
Drained a a' =
    (a'.words ≡ a.words)
    × (a'.nlevels ≡ a.nlevels)
    × (a.frame_stack_number ≤ a'.frame_stack_number)
    × (a'.frame_stack_number ≤ 32)

drain_shifted :
    (fuel c w q b chunk : ℕ) (a : Allocator)
    → c + w ≡ 32
    → q < 2 ^ w
    → b ≡ 2 ^ c * q
    → w < fuel
    → a.frame_stack_number ≤ c
    → Holds chunk a
    → (a' : Allocator) × (drain fuel b chunk a ≡ some a')
      × Drained a a'
      × (0 < b → 0 < a'.frame_stack_number)
      × Holds chunk a'
unfolding drain push_frame
drain_shifted zero c w q b chunk a sum small shape enough room all = absurd (omega arith)
drain_shifted (suc fuel) c w q b chunk a sum small shape enough room all =
    elim (Bool-cases (b == 0)) [
      | inl empty ↦
          (a, ground arith, (refl, refl, omega arith, omega arith), λ pos. ground arith, all)
      | inr more ↦
          (let pos : 0 < q = factor_pos (2 ^ c) q b shape (ground arith) in
            let (c', w', m, further, sum', small', low, cleared) = one_round c w q sum small pos in
            let room' : a.frame_stack_number < 32 = omega (arith, width_pos w q small pos) in
            let index = nonzero_bit_index b in
            let low' : index < 32 = rw shape low in
            let a₁ = pushed (chunk * 32 + index) a in
            let (a', rest, (same, levels, grows, fits), _, all') =
              drain_shifted fuel c' w' m (bit_xor b (2 ^ nonzero_bit_index b)) chunk a₁ sum' small'
                (ap (λ x. bit_xor x (2 ^ nonzero_bit_index x)) shape ∙ cleared) (omega arith)
                (omega arith) (pushed-Holds chunk index a low' all) in
            (a', ground arith, (same, levels, omega arith, fits), λ h. omega arith, all'))
    ]

clear_upwards-Stack :
    (rounds level chunk : ℕ) (a : Allocator)
    → ((clear_upwards rounds level chunk a).frame_stack ≡ a.frame_stack)
      × ((clear_upwards rounds level chunk a).frame_stack_number ≡ a.frame_stack_number)
unfolding clear_upwards
clear_upwards-Stack zero level chunk a = (refl, refl)
clear_upwards-Stack (suc rounds) level chunk a =
    let cleared =
      bit_and (a.words (word_addr a level (chunk / 32))) (flip_bits (2 ^ bit_and chunk 31)) in
    let a₁ = record a { words = update a.words (word_addr a level (chunk / 32)) cleared } in
    let (stack, number) = clear_upwards-Stack rounds (level + 1) (chunk / 32) a₁ in
    elim (Bool-cases (cleared == 0)) [
      | inl none_left ↦ rw none_left (stack, number)
      | inr some_left ↦ rw some_left (refl, refl)
    ]

-- The allocator after a refill, from the one after `drain`.
abbrev pub refilled : ℕ → Allocator → Allocator → Allocator
refilled chunk a a₁ =
    clear_upwards (a₁.nlevels - 1) 1 chunk
      (record a₁ { words = update a₁.words (word_addr a 0 chunk) 0 })

pub refill_lem :
    (a a₁ : Allocator) (chunk : ℕ)
    → drain 33 (a.words (word_addr a 0 chunk)) chunk a ≡ some a₁
    → refill a chunk ≡ some (refilled chunk a a₁)
unfolding refill
refill_lem a a₁ chunk drained =
    ap (λ (o : Option Allocator). elim o [ none ↦ none | some a₂ ↦ some (refilled chunk a a₂) ])
      drained

pub refill_unique :
    (a a₁ r : Allocator) (chunk : ℕ)
    → drain 33 (a.words (word_addr a 0 chunk)) chunk a ≡ some a₁
    → refill a chunk ≡ some r
    → r ≡ refilled chunk a a₁
refill_unique a a₁ r chunk drained done = ground (arith, refill_lem a a₁ chunk drained)

pub pop_frame_lem :
    (a : Allocator)
    → 0 < a.frame_stack_number
    → pop_frame a
      ≡ some (
        some (a.frame_stack (a.frame_stack_number - 1)),
        record a { frame_stack_number = a.frame_stack_number - 1 },
      )
unfolding pop_frame
pop_frame_lem a pos = ground arith

pub fetch_frame-empty :
    (a a₁ : Allocator) (chunk : ℕ)
    → a.frame_stack_number ≡ 0
    → descend a (a.nlevels - 1) 0 ≡ some chunk
    → refill a chunk ≡ some a₁
    → fetch_frame a ≡ pop_frame a₁
unfolding fetch_frame
fetch_frame-empty a a₁ chunk empty found refills =
    ap
      (λ (b : Bool).
        if b
        then elim (descend a (a.nlevels - 1) 0) [
          | none ↦ some (none, a)
          | some c ↦ elim (refill a c) [ none ↦ none | some a' ↦ pop_frame a' ]
        ]
        else pop_frame a)
      ((==_iff _ _).1 empty)
    ∙ (ap
          (λ (o : Option ℕ). elim o as (λ _. Option (Option ℕ × Allocator)) [
            | none ↦ some (none, a)
            | some c ↦ elim (refill a c) [ none ↦ none | some a' ↦ pop_frame a' ]
          ])
          found
        ∙ ap
            (λ (o : Option Allocator). elim o as (λ _. Option (Option ℕ × Allocator)) [
              | none ↦ none
              | some a' ↦ pop_frame a'
            ])
            refills)

-- With an empty stack and a chunk whose word is not 0, `fetch_frame` ends and returns a frame of that
-- chunk, and at most 31 frames, all of that chunk, stay on the stack. The 33 rounds that the model
-- gives to the loop over the bits are enough, and the stack is never full.
pub fetch_frame-Refills :
    (a : Allocator) (chunk : ℕ)
    → a.frame_stack_number ≡ 0
    → descend a (a.nlevels - 1) 0 ≡ some chunk
    → 0 < a.words (word_addr a 0 chunk)
    → a.words (word_addr a 0 chunk) < 2 ^ 32
    → (frame : ℕ) × (a' : Allocator) × (fetch_frame a ≡ some (some frame, a'))
      × (chunk * 32 ≤ frame)
      × (frame < chunk * 32 + 32)
      × (a'.frame_stack_number < 32)
      × Holds chunk a'
fetch_frame-Refills a chunk empty found pos small =
    let word = a.words (word_addr a 0 chunk) in
    let (a₁, drained, (_, _, _, fits), filled, all) =
      drain_shifted 33 0 32 word word chunk a refl small (omega arith) (omega arith) (omega arith)
        (λ j h. absurd (omega arith)) in
    let wiped = record a₁ { words = update a₁.words (word_addr a 0 chunk) 0 } in
    let r = refilled chunk a a₁ in
    let (stack, number) = clear_upwards-Stack (a₁.nlevels - 1) 1 chunk wiped in
    let top = r.frame_stack_number - 1 in
    let some_there = filled pos in
    let held : Holds chunk r = rw (stack, number) all in
    let (low, high) = held top (omega arith) in
    (
      r.frame_stack top,
      record r { frame_stack_number = top },
      fetch_frame-empty a r chunk empty found (refill_lem a a₁ chunk drained)
          ∙ pop_frame_lem r (omega arith),
      low,
      high,
      omega arith,
      λ j h. held j (omega arith),
    )

pub pop_frame-none : (a : Allocator) → a.frame_stack_number ≡ 0 → pop_frame a ≡ none
unfolding pop_frame
pop_frame-none a empty = ground arith

drain_nothing :
    (fuel chunk : ℕ) (a : Allocator) (w : ℕ) → w ≡ 0 → drain (suc fuel) w chunk a ≡ some a
unfolding drain
drain_nothing fuel chunk a w e = ground arith

-- An allocator with one level does not look whether a frame is left: with an empty stack and no bit
-- set, `fetch_frame` panics, where with more levels it returns `None`.
pub fetch_frame_exhausted :
    (a : Allocator)
    → a.frame_stack_number ≡ 0
    → a.nlevels ≡ 1
    → a.words (word_addr a 0 0) ≡ 0
    → fetch_frame a ≡ none
unfolding descend
fetch_frame_exhausted a empty one word =
    let found : descend a (a.nlevels - 1) 0 ≡ some 0 = ap (λ n. descend a (n - 1) 0) one in
    let refills = refill_lem a a 0 (drain_nothing 32 0 a (a.words (word_addr a 0 0)) word) in
    let wiped = record a { words = update a.words (word_addr a 0 0) 0 } in
    let (_, number) = clear_upwards-Stack (a.nlevels - 1) 1 0 wiped in
    fetch_frame-empty a (refilled 0 a a) 0 empty found refills
    ∙ pop_frame-none (refilled 0 a a) (number ∙ empty)
