-- ===== src/Launch/Loader/Segments.antt =====
-- Where the segments of a program can be mapped.
use eurali_os.Prelude.{ℕ, ◌+◌, ◌^◌, ◌≤◌, ◌<◌, ◌≡◌, ◌⊎◌, some, List, [], ◌∷◌, ◌%◌}
use eurali_os.Chunks.{Tables}
use eurali_os.Pages.{PageOps}
use eurali_os.Pages.Mapping.{Mapper}
use eurali_os.Launch.Loader.{Segment}

-- `VirtAddr::new` keeps an address or extends its sign; writing bytes through a page table does not
-- change what the table maps.
module _ {Entry : Type 0} (ops : PageOps Entry) (mapper : Mapper Entry)
    (write_bytes : ℕ → List ℕ → Tables Entry → Tables Entry)
    (virt_addr_new-High : (a v : ℕ)
      → ops.table_ops.virt_addr_new a ≡ some v
      → (v ≡ a) ⊎ (2 ^ 47 ≤ v))
    (write_bytes-Keeps : (a : ℕ) (bytes : List ℕ) (t : Tables Entry) (l4 q : ℕ)
      → mapper.lookup (write_bytes a bytes t) l4 q ≡ mapper.lookup t l4 q) where
  -- The pages from `first` on and below `past` are all that may change.
  abbrev pub Confined : ℕ → ℕ → ℕ → Tables Entry → Tables Entry → Type 0
  Confined l4 first past t t' =
      (q : ℕ) → (q < first) ⊎ (past ≤ q) → mapper.lookup t' l4 q ≡ mapper.lookup t l4 q

  -- The end of the segment is not the end of the address space, where the sum wraps to 0.
  abbrev pub EndsInside : Segment → Type 0
  EndsInside s =
      (start : ℕ)
      → ops.table_ops.virt_addr_new s.address ≡ some start
      → 0 < (start + s.size) % 2 ^ 64

  abbrev pub AllEndInside : List Segment → Type 0
  AllEndInside [] = Unit
  AllEndInside (s ∷ ss) = EndsInside s × AllEndInside ss
