-- ===== src/Chunks/Slots.antt =====
-- Which slot `put_page_chunk` fills, and that `get_page_chunk` leads back to the chunk.
use eurali_os.Prelude.{
  all_below, all_below_lem, ℕ, zero, suc, ◌+◌, ◌*◌, ◌%◌, ◌^◌, ◌≤◌, ◌<◌, ◌≡◌, ◌≢◌, refl, ◌⊎◌, inl,
  inr, arith, Option, none, some, Option-cases, Bool, true, false, Bool-cases, ◌==◌, ==_iff,
  if◌then◌else◌,
}
use eurali_os.State.{Result, ok, err}
use eurali_os.Constants.{error_doublefree, error_nomemslots}
use eurali_os.Chunks.{
  TableOps, Tables, slot_address, write_entry, l3_table, first_unused, find_available_page_chunk,
  get_page_chunk, put_page_chunk,
}

slot_addresses : all_below 512 (λ ind. slot_address ind == 5 * 2 ^ 39 + ind * 2 ^ 30) ≡ true
unfolding all_below slot_address
slot_addresses = refl

slot_address_lem : (ind : ℕ) → ind < 512 → slot_address ind ≡ 5 * 2 ^ 39 + ind * 2 ^ 30
slot_address_lem ind h = (==_iff _ _).0 (all_below_lem 512 _ ind slot_addresses h)

module _ {Entry : Type 0} (ops : TableOps Entry) where
  -- The slot `ind` is the lowest of the `rounds` slots from `first` that is unused.
  abbrev pub IsLowest : ℕ → ℕ → (ℕ → Entry) → ℕ → Type 0
  IsLowest first rounds table ind =
      (first ≤ ind)
      × (ind < first + rounds)
      × (ops.is_unused (table ind) ≡ true)
      × ((j : ℕ) → first ≤ j → j < ind → ops.is_unused (table j) ≡ false)

  abbrev pub AreUsed : ℕ → ℕ → (ℕ → Entry) → Type 0
  AreUsed first rounds table =
      (j : ℕ) → first ≤ j → j < first + rounds → ops.is_unused (table j) ≡ false

  first_unused-Cases :
      (rounds first : ℕ) (table : ℕ → Entry)
      → ((ind : ℕ) × (first_unused ops rounds first table ≡ some ind)
          × IsLowest first rounds table ind)
        ⊎ ((first_unused ops rounds first table ≡ none) × AreUsed first rounds table)
  unfolding first_unused
  first_unused-Cases zero first table = inr (refl, λ j lo hi. absurd (omega arith))
  first_unused-Cases (suc rounds) first table = elim (Bool-cases (ops.is_unused (table first))) [
    | inl unused ↦
        inl (
          first,
          rw unused refl,
          (omega arith, omega arith, unused, λ j lo hi. absurd (omega arith)),
        )
    | inr used ↦ (elim (first_unused-Cases rounds (first + 1) table) [
      | inl (ind, found, (lo, hi, unused, below)) ↦
          inl (ind, rw used found, (omega arith, omega arith, unused, step used ind below))
      | inr (nothing, all) ↦ inr (rw used nothing, λ j lo hi. step_all used all j lo hi)
    ])
  ]
    where
      step :
          ops.is_unused (table first) ≡ false
          → (ind : ℕ) → ((j : ℕ) → first + 1 ≤ j → j < ind → ops.is_unused (table j) ≡ false)
          → (j : ℕ) → first ≤ j
          → j < ind
          → ops.is_unused (table j) ≡ false
      step used ind below j lo hi = elim (Bool-cases (j == first)) [
        | inl same ↦ rw ((==_iff j first).0 same) used
        | inr differs ↦ below j (ground arith) hi
      ]

      step_all :
          ops.is_unused (table first) ≡ false
          → AreUsed (first + 1) rounds table
          → AreUsed first (suc rounds) table
      step_all used all j lo hi =
          step used (first + suc rounds) (λ i l h. all i l (omega arith)) j lo hi

  -- The level 3 table found or made is the one that the entry of the level 4 table points to.
  l3_table-Points :
      (t : Tables Entry) (l4 l3 : ℕ) (t₁ : Tables Entry)
      → l3_table ops t l4 ≡ some (l3, t₁)
      → (ops.is_unused (t₁.entries l4 5) ≡ false) × (ops.addr (t₁.entries l4 5) ≡ l3)
  unfolding l3_table
  l3_table-Points t l4 l3 t₁ h = grind (arith, ops.set_addr-Used)

  -- What `put_page_chunk` does with the level 3 table `l3` of the memory `t₁`: it fills the lowest of
  -- the slots 1 to 511 that is unused, or finds all of them used.
  abbrev pub Puts : ℕ → Tables Entry → ℕ → Option (Result ℕ × Tables Entry) → Type 0
  Puts physaddr t₁ l3 o =
      ((ind : ℕ) × (e : Entry) × IsLowest 1 511 (t₁.entries l3) ind
        × (ops.addr e ≡ physaddr)
        × (o ≡ some (ok (slot_address ind), write_entry t₁ l3 ind e)))
      ⊎ ((o ≡ some (err error_nomemslots, t₁)) × AreUsed 1 511 (t₁.entries l3))

  -- Where the level 3 table is found or can be made, and for a physical address that is a multiple of
  -- the page size below 2 ^ 52, `put_page_chunk` does not panic. In the memory with that table it
  -- writes an entry with the address into the lowest unused slot from 1 to 511, changes no other entry
  -- and returns the address of the slot; or, with all these slots used, it changes nothing more and
  -- returns NOMEMSLOTS.
  pub put_page_chunk-Puts :
      (t : Tables Entry) (l4 physaddr l3 : ℕ) (t₁ : Tables Entry)
      → l3_table ops t l4 ≡ some (l3, t₁)
      → physaddr % 4096 ≡ 0
      → physaddr < 2 ^ 52
      → Puts physaddr t₁ l3 (put_page_chunk ops t l4 physaddr)
  unfolding put_page_chunk
  put_page_chunk-Puts t l4 physaddr l3 t₁ table aligned small =
      elim (first_unused-Cases 511 1 (t₁.entries l3)) [
        | inr (nothing, all) ↦ inr (ground arith, all)
        | inl (ind, found, lowest) ↦
            (let (e, set) = ops.set_addr-some (t₁.entries l3 ind) physaddr aligned small in
              let (_, points) = ops.set_addr-Used (t₁.entries l3 ind) physaddr e set in
              let fits : slot_address ind < 2 ^ 47 =
                omega (arith, slot_address_lem ind (omega (arith, lowest.1))) in
              let canonical = ops.virt_addr_new_lem (slot_address ind) fits in
              inl (ind, e, lowest, points, ground arith))
      ]

  put_page_chunk-Written :
      (t : Tables Entry) (l4 physaddr l3 : ℕ) (t₁ : Tables Entry) (v : ℕ) (t' : Tables Entry)
      → l3_table ops t l4 ≡ some (l3, t₁)
      → put_page_chunk ops t l4 physaddr ≡ some (ok v, t')
      → (ind : ℕ) × (e : Entry) × (1 ≤ ind)
        × (ind < 512)
        × (ops.is_unused e ≡ false)
        × (ops.addr e ≡ physaddr)
        × (v ≡ slot_address ind)
        × (t' ≡ write_entry t₁ l3 ind e)
  unfolding put_page_chunk
  put_page_chunk-Written t l4 physaddr l3 t₁ v t' table h =
      elim (first_unused-Cases 511 1 (t₁.entries l3)) [
        | inr (nothing, all) ↦ absurd (ground arith)
        | inl (ind, found, lowest) ↦
            (elim (Option-cases (ops.set_addr (t₁.entries l3 ind) physaddr ops.user_flags)) [
              | inl panics ↦ absurd (ground arith)
              | inr (e, set) ↦
                  (let (used, points) = ops.set_addr-Used (t₁.entries l3 ind) physaddr e set in
                    let canonical =
                      ops.virt_addr_new_lem (slot_address ind)
                        (omega (arith, slot_address_lem ind lowest.1)) in
                    (ind, e, lowest.0, lowest.1, used, points, ground arith, ground arith))
            ])
      ]

  slot_indices :
      (ind : ℕ)
      → ind < 512
      → (ops.p4_index (slot_address ind) ≡ 5) × (ops.p3_index (slot_address ind) ≡ ind)
  slot_indices ind h = (
    omega (arith, slot_address_lem ind h, ops.p4_index_lem (slot_address ind)),
    omega (arith, slot_address_lem ind h, ops.p3_index_lem (slot_address ind)),
  )

  -- Looking up the slot `ind` whose entry is `e`.
  get_page_chunk-slot :
      (t : Tables Entry) (l4 l3 ind : ℕ) (e : Entry) (take : Bool)
      → ops.is_unused (t.entries l4 5) ≡ false
      → ops.addr (t.entries l4 5) ≡ l3
      → l3 ≢ l4
      → 1 ≤ ind
      → ind < 512
      → get_page_chunk ops (write_entry t l3 ind e) l4 (slot_address ind) take ≡ (
          if ops.is_unused e then (err error_doublefree, write_entry t l3 ind e) else (
            ok (ops.addr e, 2),
            if take
                then write_entry (write_entry t l3 ind e) l3 ind (ops.set_unused e)
                else write_entry t l3 ind e,
          ))
  unfolding get_page_chunk
  get_page_chunk-slot t l4 l3 ind e take used points apart lo hi =
      let (i4, i3) = slot_indices ind hi in
      let same : (l3 == l4) ≡ false = ground arith in ground arith

  -- After `put_page_chunk` has returned the address `v`, looking up the chunk at `v` gives the physical
  -- address that was put there, whether it is taken or not; a look-up that takes nothing changes
  -- nothing; and once it is taken, taking it again is refused as a double free. The level 4 table is
  -- not its own level 3 table.
  pub get_page_chunk-put_page_chunk :
      (t : Tables Entry) (l4 physaddr l3 : ℕ) (t₁ : Tables Entry) (v : ℕ) (t' : Tables Entry)
      → l3_table ops t l4 ≡ some (l3, t₁)
      → l3 ≢ l4
      → put_page_chunk ops t l4 physaddr ≡ some (ok v, t')
      → (get_page_chunk ops t' l4 v false ≡ (ok (physaddr, 2), t'))
        × ((t₂ : Tables Entry) × (get_page_chunk ops t' l4 v true ≡ (ok (physaddr, 2), t₂))
            × (get_page_chunk ops t₂ l4 v true ≡ (err error_doublefree, t₂)))
  get_page_chunk-put_page_chunk t l4 physaddr l3 t₁ v t' table apart h =
      let (ind, e, lo, hi, used, points, at, written) =
        put_page_chunk-Written t l4 physaddr l3 t₁ v t' table h in
      let (used₄, points₄) = l3_table-Points t l4 l3 t₁ table in
      let looked = get_page_chunk-slot t₁ l4 l3 ind e false used₄ points₄ apart lo hi in
      let took = get_page_chunk-slot t₁ l4 l3 ind e true used₄ points₄ apart lo hi in
      let filled = write_entry t₁ l3 ind e in
      let empty = ops.set_unused e in
      let again =
        get_page_chunk-slot filled l4 l3 ind empty true (ground arith) (ground arith) apart lo hi in
      let unused = ops.is_unused-set_unused e in
      (ground arith, (write_entry filled l3 ind empty, ground arith, ground arith))

  -- The address that `find_available_page_chunk` gives, or the error where it gives none.
  abbrev pub found_address : Option (Option ℕ × Tables Entry) → Option (Result ℕ)
  found_address none = none
  found_address (some (none, t)) = some (err error_nomemslots)
  found_address (some (some v, t)) = some (ok v)

  abbrev pub put_address : Option (Result ℕ × Tables Entry) → Option (Result ℕ)
  put_address none = none
  put_address (some (o, t)) = some o

  -- `put_page_chunk` returns the address that `find_available_page_chunk` gives, fails with
  -- NOMEMSLOTS where that gives none, and panics where that panics, for a physical address that is a
  -- multiple of the page size below 2 ^ 52.
  pub put_page_chunk-find_available_page_chunk :
      (t : Tables Entry) (l4 physaddr : ℕ)
      → physaddr % 4096 ≡ 0
      → physaddr < 2 ^ 52
      → put_address (put_page_chunk ops t l4 physaddr)
        ≡ found_address (find_available_page_chunk ops t l4)
  unfolding put_page_chunk find_available_page_chunk
  put_page_chunk-find_available_page_chunk t l4 physaddr aligned small =
      elim (Option-cases (l3_table ops t l4)) [
        | inl panics ↦ ground arith
        | inr ((l3, t₁), table) ↦ (elim (first_unused-Cases 511 1 (t₁.entries l3)) [
          | inr (nothing, all) ↦ ground arith
          | inl (ind, found, lowest) ↦
              (let (e, set) = ops.set_addr-some (t₁.entries l3 ind) physaddr aligned small in
                let canonical =
                  ops.virt_addr_new_lem (slot_address ind)
                    (omega (arith, slot_address_lem ind lowest.1)) in
                ground arith)
        ])
      ]
