-- ===== src/Pages/Freed.antt =====
-- Which frames `free_pages_rec` gives back.
use eurali_os.Prelude.{
  ℕ, zero, suc, ◌+◌, ◌≤◌, ◌<◌, ◌≡◌, ◌⊎◌, ◌↔◌, refl, sym, ap, ◌∙◌, inl, inr, arith, Option, none,
  some, true, false, Bool-cases, List, [], ◌∷◌, ◌++◌,
}
use eurali_os.Frames.{Allocator, deallocate_frame}
use eurali_os.Frames.Service.{Among}
use eurali_os.Pages.Loop.{
  deallocate_all, deallocate_all-append, Among-append, Among-left, Among-right, GivesBack, not_both,
  nothing, one, each_entry-GivesBack,
}
use eurali_os.Pages.{
  PageOps, maps_frame, free_mapped, free_entry, free_table, each_entry, free_pages_rec,
}

module _ {Entry : Type 0} (ops : PageOps Entry) where
  -- What belongs to an entry: the frame of a user's page, or what belongs to the table it points to.
  abbrev pub Owns : ℕ → (ℕ → ℕ → Type 0) → Entry → ℕ → Type 0
  Owns level below e x =
      (ops.table_ops.is_unused e ≡ false)
      × (((maps_frame ops level e ≡ true)
            × (ops.contains (ops.flags e) ops.table_ops.user_flags ≡ true)
            × (x ≡ ops.table_ops.addr e))
          ⊎ ((maps_frame ops level e ≡ false) × below (ops.table_ops.addr e) x))

  -- The frames below a table, with the one of the table itself.
  unfoldable pub IsPart : (ℕ → ℕ → Entry) → ℕ → ℕ → ℕ → Type 0
  IsPart entries zero physaddr x = x ≡ ops.containing_address physaddr
  IsPart entries (suc level) physaddr x =
      ((ind : ℕ) × (ind < 512) × Owns (suc level) (IsPart entries level) (entries physaddr ind) x)
      ⊎ (x ≡ physaddr)

  -- No huge page is a user's.
  abbrev pub NoHugeUser : Entry → Type 0
  NoHugeUser e =
      ops.contains (ops.flags e) ops.table_ops.user_flags ≡ true
      → ops.contains (ops.flags e) ops.huge_page ≡ false

  free_mapped-freed :
      (a : Allocator) (e : Entry)
      → ops.contains (ops.flags e) ops.table_ops.user_flags ≡ true
      → ops.frame e ≡ some (ops.table_ops.addr e)
      → free_mapped ops a e ≡ some (deallocate_frame a (ops.table_ops.addr e))
  unfolding free_mapped
  free_mapped-freed a e user start = ground arith

  free_mapped-kept :
      (a : Allocator) (e : Entry)
      → ops.contains (ops.flags e) ops.table_ops.user_flags ≡ false
      → free_mapped ops a e ≡ some a
  unfolding free_mapped
  free_mapped-kept a e other = ground arith

  -- The three kinds of entries.
  free_entry-unused :
      (level : ℕ) (free_below : Allocator → ℕ → Option Allocator) (a : Allocator) (e : Entry)
      → ops.table_ops.is_unused e ≡ true
      → free_entry ops level free_below a e ≡ some a
  unfolding free_entry
  free_entry-unused level free_below a e unused = rw (free_entry, unused) refl

  free_entry-mapped :
      (level : ℕ) (free_below : Allocator → ℕ → Option Allocator) (a : Allocator) (e : Entry)
      → ops.table_ops.is_unused e ≡ false
      → maps_frame ops level e ≡ true
      → free_entry ops level free_below a e ≡ free_mapped ops a e
  unfolding free_entry
  free_entry-mapped level free_below a e used mapped = rw (free_entry, used, mapped) refl

  free_entry-table :
      (level : ℕ) (free_below : Allocator → ℕ → Option Allocator) (a : Allocator) (e : Entry)
      → ops.table_ops.is_unused e ≡ false
      → maps_frame ops level e ≡ false
      → free_entry ops level free_below a e ≡ free_below a (ops.table_ops.addr e)
  unfolding free_entry
  free_entry-table level free_below a e used table = rw (free_entry, used, table) refl

  free_entry-GivesBack :
      (level : ℕ) (free_below : Allocator → ℕ → Option Allocator) (below : ℕ → ℕ → Type 0)
      (e : Entry)
      → NoHugeUser e
      → GivesBack (λ a. free_below a (ops.table_ops.addr e)) (below (ops.table_ops.addr e))
      → GivesBack (λ a. free_entry ops level free_below a e) (Owns level below e)
  free_entry-GivesBack level free_below below e no_huge rec =
      elim (Bool-cases (ops.table_ops.is_unused e)) [
        | inl unused ↦
            nothing (λ a. free_entry ops level free_below a e) (Owns level below e)
              (λ a. free_entry-unused level free_below a e unused)
              (λ x (used, _). not_both unused used)
        | inr used ↦ elim (Bool-cases (maps_frame ops level e)) [
          | inl mapped ↦ elim (Bool-cases (ops.contains (ops.flags e) ops.table_ops.user_flags)) [
            | inl user ↦
                one (λ a. free_entry ops level free_below a e) (Owns level below e)
                  (ops.table_ops.addr e)
                  (λ a.
                    free_entry-mapped level free_below a e used mapped
                    ∙ free_mapped-freed a e user (ops.frame-user e user (no_huge user)))
                  (λ x. (
                    (λ same. (used, inl (mapped, user, same))),
                    (λ owned. of_mapped used mapped x owned),
                  ))
            | inr other ↦
                nothing (λ a. free_entry ops level free_below a e) (Owns level below e)
                  (λ a.
                    free_entry-mapped level free_below a e used mapped ∙ free_mapped-kept a e other)
                  (λ x owned. not_user mapped other x owned)
          ]
          | inr table ↦ λ a.
              (let (starts, done, these) = rec a in
                (
                  starts,
                  free_entry-table level free_below a e used table ∙ done,
                  λ x. (
                    (λ m. (used, inr (table, (these x).0 m))),
                    (λ owned. (these x).1 (of_table table x owned)),
                  ),
                ))
        ]
      ]
    where
      of_mapped :
          ops.table_ops.is_unused e ≡ false
          → maps_frame ops level e ≡ true
          → (x : ℕ) → Owns level below e x
          → x ≡ ops.table_ops.addr e
      of_mapped used mapped x (_, inl (_, _, same)) = same
      of_mapped used mapped x (_, inr (table, _)) = absurd (not_both mapped table)

      not_user :
          maps_frame ops level e ≡ true
          → ops.contains (ops.flags e) ops.table_ops.user_flags ≡ false
          → (x : ℕ) → ¬ Owns level below e x
      not_user mapped other x (_, inl (_, user, _)) = not_both user other
      not_user mapped other x (_, inr (table, _)) = not_both mapped table

      of_table :
          maps_frame ops level e ≡ false
          → (x : ℕ) → Owns level below e x
          → below (ops.table_ops.addr e) x
      of_table table x (_, inl (mapped, _, _)) = absurd (not_both mapped table)
      of_table table x (_, inr (_, under)) = under

  free_pages_rec-table :
      (entries : ℕ → ℕ → Entry) (level : ℕ) (a a' : Allocator) (physaddr : ℕ)
      → each_entry ops
          (free_entry ops (suc level) (free_pages_rec ops entries level))
          (entries physaddr)
          512
          0
          a
        ≡ some a'
      → ops.from_start_address physaddr ≡ some physaddr
      → free_pages_rec ops entries (suc level) a physaddr ≡ some (deallocate_frame a' physaddr)
  unfolding free_pages_rec free_table
  free_pages_rec-table entries level a a' physaddr done aligned =
      ap
        (λ (o : Option Allocator). elim o as (λ _. Option Allocator) [
          | none ↦ none
          | some b ↦ free_table ops b physaddr
        ])
        done
      ∙ ap
          (λ (o : Option ℕ). elim o as (λ _. Option Allocator) [
            | none ↦ none
            | some start ↦ some (deallocate_frame a' start)
          ])
          aligned

  -- For page tables in which no huge page is a user's, `free_pages_rec` on a table at an aligned
  -- address ends without a panic, and the frames it gives back are exactly those that belong to the
  -- table: the tables below it, itself, and the frames of the entries that are present, writable and
  -- for the user. Frames of the kernel's pages and of read-only pages are not given back.
  pub free_pages_rec-GivesBack :
      (entries : ℕ → ℕ → Entry) (level physaddr : ℕ)
      → ((table ind : ℕ) → NoHugeUser (entries table ind))
      → ops.from_start_address physaddr ≡ some physaddr
      → GivesBack (λ a. free_pages_rec ops entries level a physaddr) (IsPart entries level physaddr)
  unfolding free_pages_rec IsPart deallocate_all
  free_pages_rec-GivesBack entries zero physaddr no_huge aligned a =
      one (λ a. free_pages_rec ops entries zero a physaddr) (IsPart entries zero physaddr)
        (ops.containing_address physaddr) (λ b. refl) (λ x. ((λ e. e), (λ e. e))) a
  free_pages_rec-GivesBack entries (suc level) physaddr no_huge aligned a =
      let step = free_entry ops (suc level) (free_pages_rec ops entries level) in
      let (starts, done, these) =
        each_entry-GivesBack ops step (entries physaddr) (Owns (suc level) (IsPart entries level))
          (λ ind.
            free_entry-GivesBack (suc level) (free_pages_rec ops entries level)
              (IsPart entries level) (entries physaddr ind) (no_huge physaddr ind)
              (free_pages_rec-GivesBack entries level (ops.table_ops.addr (entries physaddr ind))
                no_huge (ops.from_start_address-addr (entries physaddr ind))))
          512 0 a in
      (
        starts ++ (physaddr ∷ []),
        free_pages_rec-table entries level a (deallocate_all a starts) physaddr done aligned
            ∙ ap some (sym (deallocate_all-append starts (physaddr ∷ []) a)),
        λ x. (there starts these x, back starts these x),
      )
    where
      there :
          (starts : List ℕ)
          → ((x : ℕ)
              → Among x starts ↔ (
                  (ind : ℕ) × (0 ≤ ind)
                  × (ind < 0 + 512)
                  × Owns (suc level) (IsPart entries level) (entries physaddr ind) x))
          → (x : ℕ) → Among x (starts ++ (physaddr ∷ []))
          → IsPart entries (suc level) physaddr x
      there starts these x m = elim (Among-append starts (physaddr ∷ []) x m) [
        | inl l ↦ (let (ind, _, hi, owned) = (these x).0 l in inl (ind, omega arith, owned))
        | inr (inl e) ↦ inr e
        | inr (inr n) ↦ absurd n
      ]

      back :
          (starts : List ℕ)
          → ((x : ℕ)
              → Among x starts ↔ (
                  (ind : ℕ) × (0 ≤ ind)
                  × (ind < 0 + 512)
                  × Owns (suc level) (IsPart entries level) (entries physaddr ind) x))
          → (x : ℕ) → IsPart entries (suc level) physaddr x
          → Among x (starts ++ (physaddr ∷ []))
      back starts these x (inl (ind, hi, owned)) =
          Among-left starts (physaddr ∷ []) x ((these x).1 (ind, omega arith, omega arith, owned))
      back starts these x (inr e) = Among-right starts (physaddr ∷ []) x (inl e)
