-- ===== src/Pages/Mapping/Ranges.antt =====
-- What a range of pages maps to once it was created.
use eurali_os.Prelude.{
  ℕ, zero, suc, ◌+◌, ◌*◌, ◌≤◌, ◌<◌, ◌≡◌, ◌≢◌, ◌⊎◌, refl, sym, ap, subst, ◌∙◌, inl, inr, arith,
  Option, none, some, Option-cases, Bool-cases,
}
use eurali_os.Frames.{Allocator, allocate_frame}
use eurali_os.Chunks.{Tables}
use eurali_os.Pages.{PageOps}
use eurali_os.Pages.Places.{frame_cases}
use eurali_os.Pages.Mapping.{
  MapError, MapResult, mapped, refused, Mapper, page_range, map_shared_frame, own_first_page,
  create_user_ondemand_pages, map_frames, map_consecutive_pages,
}

pub result_cases :
    {A B : Type 0} (o : Option (MapResult A × B))
    → (o ≡ none)
      ⊎ (((e : MapError) × (b : B) × (o ≡ some (refused e, b)))
          ⊎ ((a : A) × (b : B) × (o ≡ some (mapped a, b))))
result_cases none = inl refl
result_cases (some (refused e, b)) = inr (inl (e, b, refl))
result_cases (some (mapped a, b)) = inr (inr (a, b, refl))

module _ {Entry : Type 0} (ops : PageOps Entry) (mapper : Mapper Entry) where
  -- From `t` to `t'` the `count` pages from `page` on got the frames and flags of `f`, and the others
  -- are as before.
  abbrev pub MapsRange : ℕ → ℕ → ℕ → (ℕ → ℕ × ℕ) → Tables Entry → Tables Entry → Type 0
  MapsRange l4 page count f t t' =
      ((i : ℕ) → i < count → mapper.lookup t' l4 (page + i) ≡ some (f i))
      × ((q : ℕ) → (q < page) ⊎ (page + count ≤ q) → mapper.lookup t' l4 q ≡ mapper.lookup t l4 q)

  MapsRange-next :
      (l4 page rounds : ℕ) (f g : ℕ → ℕ × ℕ) (t t₁ t' : Tables Entry)
      → f 0 ≡ g 0
      → ((i : ℕ) → f (suc i) ≡ g (suc i))
      → mapper.lookup t₁ l4 page ≡ some (g 0)
      → ((q : ℕ) → q ≢ page → mapper.lookup t₁ l4 q ≡ mapper.lookup t l4 q)
      → MapsRange l4 (page + 1) rounds (λ i. f (suc i)) t₁ t'
      → MapsRange l4 page (suc rounds) g t t'
  MapsRange-next l4 page rounds f g t t₁ t' first later here others (rest, outside) =
      (at, λ q side. off q side)
    where
      at : (i : ℕ) → i < suc rounds → mapper.lookup t' l4 (page + i) ≡ some (g i)
      at zero h =
          let e : page + 0 ≡ page = omega arith in
          ap (mapper.lookup t' l4) e ∙ (outside page (inl (omega arith)) ∙ here)
      at (suc i) h =
          let e : page + suc i ≡ page + 1 + i = omega arith in
          ap (mapper.lookup t' l4) e ∙ (rest i (omega arith) ∙ ap some (later i))

      off :
          (q : ℕ)
          → (q < page) ⊎ (page + suc rounds ≤ q)
          → mapper.lookup t' l4 q ≡ mapper.lookup t l4 q
      off q (inl low) = outside q (inl (omega arith)) ∙ others q (λ e. absurd (omega arith))
      off q (inr high) = outside q (inr (omega arith)) ∙ others q (λ e. absurd (omega arith))

  map_frames-MapsRange :
      (rounds page l4 frame : ℕ) (t t' : Tables Entry)
      → map_frames ops mapper rounds page l4 frame t ≡ some (mapped tt, t')
      → MapsRange l4 page rounds (λ i. (frame + i * 4096, ops.table_ops.user_flags)) t t'
  unfolding map_frames
  map_frames-MapsRange zero page l4 frame t t' e =
      let same : t ≡ t' = ground arith in
      subst (λ u. MapsRange l4 page 0 (λ i. (frame + i * 4096, ops.table_ops.user_flags)) t u) same
        ((λ i h. absurd (omega arith)), λ q h. refl)
  map_frames-MapsRange (suc rounds) page l4 frame t t' e =
      let flags = ops.table_ops.user_flags in
      elim (result_cases (mapper.map_to_with_table_flags t l4 page frame flags flags)) [
        | inl panics ↦ absurd (ground arith)
        | inr (inl (err, t₁, fails)) ↦ absurd (ground arith)
        | inr (inr (_, t₁, maps)) ↦
            (let rest : map_frames ops mapper rounds (page + 1) l4 (frame + 4096) t₁
                  ≡ some (mapped tt, t') =
                ground arith in
              let (here, others) =
                mapper.map_to_with_table_flags_lem t t₁ l4 page frame flags flags maps in
              let first : frame ≡ frame + 0 * 4096 = omega arith in
              let (each, outside) =
                map_frames-MapsRange rounds (page + 1) l4 (frame + 4096) t₁ t' rest in
              MapsRange-next l4 page rounds (λ i. (frame + i * 4096, flags))
                (λ i. (frame + i * 4096, flags)) t t₁ t' refl (λ i. refl)
                (here ∙ ap (λ x. some (x, flags)) first) others
                ((λ i h. each i h ∙ ap (λ x. some (x, flags)) (omega arith)), outside))
      ]

  -- When `map_consecutive_pages` returns an address, this is the one of the first frame, page number
  -- `start_page + i` maps the frame `i` frames behind it for all `i` below `num_frames`, writable by
  -- the user, and no other page changes.
  pub map_consecutive_pages-MapsRange :
      (t t' : Tables Entry) (l4 start_page start_frame num_frames physaddr : ℕ)
      → map_consecutive_pages ops mapper t l4 start_page start_frame num_frames
        ≡ some (mapped physaddr, t')
      → (physaddr ≡ start_frame)
        × MapsRange l4 start_page num_frames
            (λ i. (start_frame + i * 4096, ops.table_ops.user_flags))
            t
            t'
  unfolding map_consecutive_pages
  map_consecutive_pages-MapsRange t t' l4 start_page start_frame num_frames physaddr e =
      elim (Option-cases (mapper.phys_addr_new (start_frame + num_frames * 4096))) [
        | inl panics ↦ absurd (ground arith)
        | inr (p, phys) ↦
            elim (Option-cases (ops.table_ops.virt_addr_new ((start_page + num_frames) * 4096))) [
              | inl panics ↦ absurd (ground arith)
              | inr (v, virt) ↦
                  elim (result_cases
                    (map_frames ops mapper num_frames start_page l4 start_frame t)) [
                      | inl panics ↦ absurd (ground arith)
                      | inr (inl (err, t₁, fails)) ↦ absurd (ground arith)
                      | inr (inr (u, t₁, maps)) ↦
                          (let same : t₁ ≡ t' = ground arith in
                            let at : physaddr ≡ start_frame = ground arith in
                            (
                              at,
                              map_frames-MapsRange num_frames start_page l4 start_frame t t' (
                                  subst
                                    (λ x.
                                      map_frames ops mapper num_frames start_page l4 start_frame t
                                      ≡ some (mapped tt, x))
                                    same maps),
                            ))
                    ]
            ]
      ]

  map_shared_frame-MapsRange :
      (rounds page l4 frame : ℕ) (t t' : Tables Entry)
      → map_shared_frame ops mapper rounds page l4 frame t ≡ some (mapped tt, t')
      → MapsRange l4 page rounds (λ i. (frame, ops.read_only_flags)) t t'
  unfolding map_shared_frame
  map_shared_frame-MapsRange zero page l4 frame t t' e =
      let same : t ≡ t' = ground arith in
      subst (λ u. MapsRange l4 page 0 (λ i. (frame, ops.read_only_flags)) t u) same
        ((λ i h. absurd (omega arith)), λ q h. refl)
  map_shared_frame-MapsRange (suc rounds) page l4 frame t t' e =
      let flags = ops.read_only_flags in
      let parent = ops.table_ops.user_flags in
      elim (result_cases (mapper.map_to_with_table_flags t l4 page frame flags parent)) [
        | inl panics ↦ absurd (ground arith)
        | inr (inl (err, t₁, fails)) ↦ absurd (ground arith)
        | inr (inr (_, t₁, maps)) ↦
            (let rest : map_shared_frame ops mapper rounds (page + 1) l4 frame t₁
                  ≡ some (mapped tt, t') =
                ground arith in
              let (here, others) =
                mapper.map_to_with_table_flags_lem t t₁ l4 page frame flags parent maps in
              MapsRange-next l4 page rounds (λ i. (frame, flags)) (λ i. (frame, flags)) t t₁ t' refl
                (λ i. refl) here others
                (map_shared_frame-MapsRange rounds (page + 1) l4 frame t₁ t' rest))
      ]

  own_first_page-Owns :
      (page l4 frame old : ℕ) (t t' : Tables Entry)
      → mapper.lookup t l4 page ≡ some (frame, old)
      → own_first_page ops mapper page l4 t ≡ (mapped tt, t')
      → (mapper.lookup t' l4 page ≡ some (frame, ops.table_ops.user_flags))
        × ((q : ℕ) → q ≢ page → mapper.lookup t' l4 q ≡ mapper.lookup t l4 q)
  unfolding own_first_page
  own_first_page-Owns page l4 frame old t t' there e =
      let flags = ops.table_ops.user_flags in
      let (ok, t₁) = mapper.update_flags t l4 page flags in
      elim (Bool-cases (mapper.update_flags t l4 page flags).0) [
        | inl fine ↦
            (let same : (mapper.update_flags t l4 page flags).1 ≡ t' = ground arith in
              mapper.update_flags_lem t t' l4 page frame old flags there (ground arith))
        | inr fails ↦ absurd (ground arith)
      ]

  -- The pages of an on-demand range, for all pages of the range `page_range` gives.
  abbrev pub OnDemand : ℕ → ℕ → ℕ → ℕ → Tables Entry → Tables Entry → Type 0
  OnDemand l4 page count frame t t' =
      (mapper.lookup t' l4 page ≡ some (frame, ops.table_ops.user_flags))
      × ((i : ℕ)
          → 0 < i
          → i < count
          → mapper.lookup t' l4 (page + i) ≡ some (frame, ops.read_only_flags))
      × ((q : ℕ) → (q < page) ⊎ (page + count ≤ q) → mapper.lookup t' l4 q ≡ mapper.lookup t l4 q)

  shared-OnDemand :
      (l4 page count frame : ℕ) (t t₁ t' : Tables Entry)
      → 0 < count
      → MapsRange l4 page count (λ i. (frame, ops.read_only_flags)) t t₁
      → own_first_page ops mapper page l4 t₁ ≡ (mapped tt, t')
      → OnDemand l4 page count frame t t'
  shared-OnDemand l4 page count frame t t₁ t' some_pages (each, outside) owned =
      let e : page + 0 ≡ page = omega arith in
      let (here, others) =
        own_first_page-Owns page l4 frame ops.read_only_flags t₁ t'
          (ap (mapper.lookup t₁ l4) (sym e) ∙ each 0 some_pages) owned in
      (
        here,
        (λ i pos h. others (page + i) (λ q. absurd (omega arith)) ∙ each i h),
        λ q side. others q (λ e. apart q side e) ∙ outside q side,
      )
    where
      apart : (q : ℕ) → (q < page) ⊎ (page + count ≤ q) → ¬ (q ≡ page)
      apart q (inl low) e = absurd (omega arith)
      apart q (inr high) e = absurd (omega arith)

  -- When `create_user_ondemand_pages` succeeds for a range of at least one page, it took one frame,
  -- all pages of the range map this frame, the first one writable and the others read-only, and no
  -- other page changes.
  pub create_user_ondemand_pages-OnDemand :
      (t t' : Tables Entry) (l4 start_addr size page count : ℕ)
      → page_range ops mapper start_addr size ≡ some (page, count)
      → 0 < count
      → create_user_ondemand_pages ops mapper t l4 start_addr size ≡ some (mapped tt, t')
      → (frame : ℕ) × (a : Allocator) × (allocate_frame t.frame_allocator ≡ some (some frame, a))
        × OnDemand l4 page count frame (record t { frame_allocator = a }) t'
  unfolding create_user_ondemand_pages
  create_user_ondemand_pages-OnDemand t t' l4 start_addr size page count range some_pages e =
      elim (frame_cases ops (allocate_frame t.frame_allocator)) [
        | inl panics ↦ absurd (ground arith)
        | inr (inl (a, empty)) ↦ absurd (ground arith)
        | inr (inr (frame, a, allocated)) ↦
            elim (result_cases (
              map_shared_frame ops mapper count page l4 frame (record t { frame_allocator = a }))) [
                | inl panics ↦ absurd (ground arith)
                | inr (inl (err, t₁, fails)) ↦ absurd (ground arith)
                | inr (inr (u, t₁, maps)) ↦
                    (let owned : own_first_page ops mapper page l4 t₁ ≡ (mapped tt, t') =
                        ground arith in
                      (
                        frame,
                        a,
                        allocated,
                        shared-OnDemand l4 page count frame (record t { frame_allocator = a }) t₁ t'
                            some_pages
                            (map_shared_frame-MapsRange count page l4 frame
                              (record t { frame_allocator = a }) t₁ maps)
                            owned,
                      ))
              ]
      ]
