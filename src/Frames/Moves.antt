-- ===== src/Frames/Moves.antt =====
-- The loop over the bits of a chunk in `fetch_frame`: which frames it puts on the stack.
use eurali_os.Prelude.{
  ℕ, zero, suc, ◌+◌, ◌*◌, ◌^◌, ◌≤◌, ◌<◌, ◌≡◌, refl, sym, subst, ◌∙◌, inl, inr, arith, Bool-cases,
  some, bit_xor, ◌==◌, ltb, update, dec_lt, ℕ_discrete,
}
use eurali_os.Frames.Bits.{bit, nonzero_bit_index_lem}
use eurali_os.Frames.WordBits.{bit_xor-at, bit_xor-other, bit_xor-small, pow-small, bit-zero}
use eurali_os.Frames.{Allocator, stack_size, nonzero_bit_index, push_frame, drain}

-- The allocator with another stack.
abbrev pub restacked : Allocator → (ℕ → ℕ) → ℕ → Allocator
restacked a s n = record a { frame_stack = s; frame_stack_number = n }

-- Between `m` and `n` the stack `s` has the frames of the bits of `b`, each once; below `m` it is `r`.
pub record Moves (b chunk m : ℕ) (r : ℕ → ℕ) (n : ℕ) (s : ℕ → ℕ) : Type 0 where
  pub grows : m ≤ n
  pub kept : (i : ℕ) → i < m → s i ≡ r i
  pub sound : (i : ℕ) → m ≤ i → i < n → (j : ℕ) × (j < 32) × (bit b j ≡ 1) × (s i ≡ chunk * 32 + j)
  pub complete : (j : ℕ) → bit b j ≡ 1 → (i : ℕ) × (m ≤ i) × (i < n) × (s i ≡ chunk * 32 + j)
  pub rising : (i k : ℕ) → m ≤ i → i < k → k < n → s i < s k

Moves-none : (chunk m : ℕ) (r : ℕ → ℕ) (b : ℕ) → b ≡ 0 → Moves b chunk m r m r
Moves-none chunk m r b e = record {
  grows = omega arith;
  kept = λ i h. refl;
  sound = λ i h k. absurd (omega arith);
  complete = λ j h. absurd (omega (arith, bit-zero j, subst (λ x. bit x j ≡ 1) e h));
  rising = λ i k p q o. absurd (omega arith);
}

-- The bits that are left when the lowest is cleared.
Moves-one :
    (chunk m : ℕ) (r : ℕ → ℕ) (b n : ℕ) (s : ℕ → ℕ)
    → b < 2 ^ 32
    → 0 < b
    → Moves
        (bit_xor b (2 ^ nonzero_bit_index b))
        chunk
        (m + 1)
        (update r m (chunk * 32 + nonzero_bit_index b))
        n
        s
    → Moves b chunk m r n s
Moves-one chunk m r b n s small pos rest =
    let index = nonzero_bit_index b in
    let b' = bit_xor b (2 ^ index) in
    let (low, one, zeros) = nonzero_bit_index_lem b small pos in
    let grown = rest.grows in
    let top : s m ≡ chunk * 32 + index = rest.kept m (omega arith) ∙ ground arith in
    let above : (i : ℕ)
        → m + 1 ≤ i
        → i < n
        → (j : ℕ) × (j < 32) × (bit b j ≡ 1) × (s i ≡ chunk * 32 + j) × (index < j) =
      λ i p q.
        let (j, lj, set, at) = rest.sound i p q in
        elim (ℕ_discrete index j) [
          | yes e ↦
              absurd (omega (arith, bit_xor-at b index one, subst (λ x. bit b' x ≡ 1) (sym e) set))
          | no e ↦
              (let set' : bit b j ≡ 1 = sym (bit_xor-other b index j e) ∙ set in
                elim (dec_lt j index) [
                  | yes under ↦ absurd (omega (arith, zeros j under))
                  | no over ↦ (j, lj, set', at, omega arith)
                ])
        ] in
    record {
      grows = omega arith;
      kept = λ i h. rest.kept i (omega arith) ∙ ground arith;
      sound = λ i p q. elim (ℕ_discrete m i) [
        | yes e ↦ (index, low, one, subst (λ x. s x ≡ chunk * 32 + index) e top)
        | no e ↦ (let (j, lj, set, at, _) = above i (omega arith) q in (j, lj, set, at))
      ];
      complete = λ j set. elim (ℕ_discrete index j) [
        | yes e ↦ (m, omega arith, omega arith, omega arith)
        | no e ↦
            (let (i, p, q, at) = rest.complete j (bit_xor-other b index j e ∙ set) in
              (i, omega arith, q, at))
      ];
      rising = λ i k p q o. elim (ℕ_discrete m i) [
        | yes e ↦
            (let (j, _, _, at, more) = above k (omega arith) o in
              subst (λ x. s x < s k) e (omega arith))
        | no e ↦ rest.rising i k (omega arith) q o
      ];
    }

-- What `drain` leaves, whenever it ends.
pub drain-Moves :
    (fuel b chunk : ℕ) (a a' : Allocator)
    → b < 2 ^ 32
    → drain fuel b chunk a ≡ some a'
    → (n : ℕ) × (s : ℕ → ℕ) × (a' ≡ restacked a s n)
      × Moves b chunk a.frame_stack_number a.frame_stack n s
unfolding drain push_frame
drain-Moves zero b chunk a a' small done = absurd (ground arith)
drain-Moves (suc fuel) b chunk a a' small done = elim (Bool-cases (b == 0)) [
  | inl empty ↦ (
    a.frame_stack_number,
    a.frame_stack,
    ground arith,
    Moves-none chunk a.frame_stack_number a.frame_stack b (ground arith),
  )
  | inr more ↦ elim (Bool-cases (ltb a.frame_stack_number stack_size)) [
    | inr full ↦ absurd (ground arith)
    | inl room ↦
        (let index = nonzero_bit_index b in
          let m = a.frame_stack_number in
          let frame = chunk * 32 + index in
          let a₁ = restacked a (update a.frame_stack m frame) (m + 1) in
          let pos : 0 < b = ground arith in
          let (low, _, _) = nonzero_bit_index_lem b small pos in
          let small' = bit_xor-small 32 b (2 ^ index) small (pow-small 32 index low) in
          let rest : drain fuel (bit_xor b (2 ^ nonzero_bit_index b)) chunk a₁ ≡ some a' =
            ground arith in
          let (n, s, same, moves) =
            drain-Moves fuel (bit_xor b (2 ^ index)) chunk a₁ a' small' rest in
          (n, s, same, Moves-one chunk m a.frame_stack b n s small pos moves))
  ]
]
