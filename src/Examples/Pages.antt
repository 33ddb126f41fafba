-- ===== src/Examples/Pages.antt =====
-- Tests of page tables, stacks and mapped ranges, and their theorems at concrete tables.
use eurali_os.Prelude.{
  ℕ, ◌+◌, ◌*◌, ◌/◌, ◌%◌, ◌^◌, ◌<◌, ◌≡◌, ◌≢◌, ◌↔◌, refl, arith, Option, none, some, List, ◌==◌,
  if◌then◌else◌, Bool, true, false, bit_and, ◌&&◌, ◌||◌, ap, ltb, sym, subst, ◌∙◌, [], ◌∷◌,
}
use eurali_os.Frames.{Allocator, allocate_frame, deallocate_frame}
use eurali_os.Frames.Service.{Among}
use eurali_os.Chunks.{Tables, write_entry}
use eurali_os.Examples.Memory.{table_ops, address_bits, set_bits, forty_frames}
use eurali_os.Pages.{PageOps, free_pages_rec}
use eurali_os.Pages.Loop.{deallocate_all}
use eurali_os.Pages.Freed.{IsPart, NoHugeUser, free_pages_rec-GivesBack}
use eurali_os.Pages.Stacks.{
  StackResult, place_stack, free_user_stack, stack_slot_address, active_level_1_table_containing,
}
use eurali_os.Pages.Places.{Places, place_stack-Places}
use eurali_os.Pages.Written.{same_entry, other_entry, other_table}
use eurali_os.Pages.Reuse.{free_user_stack-place_stack}
use eurali_os.Pages.Mapping.{
  Mapper, MapResult, mapped, map_consecutive_pages, create_user_ondemand_pages,
  allocate_pages_mapper,
}
use eurali_os.Launch.Loader.{Segment, LoadResult, load_segments}
use eurali_os.Pages.Mapping.Ranges.{
  MapsRange, OnDemand, map_consecutive_pages-MapsRange, create_user_ondemand_pages-OnDemand,
}

abbrev has_flags : ℕ → ℕ → Bool
has_flags f g = bit_and f g == g

abbrev entry_frame : ℕ → Option ℕ
entry_frame e =
    if has_flags (e % 4096) 128
    then none
    else if has_flags (e % 4096) 7 || e % 2 == 1
    then some (address_bits e)
    else none

set_bits-Has :
    (e a flag e' : ℕ)
    → (flag == 7 || flag == 5) ≡ true
    → set_bits e a flag ≡ some e'
    → (address_bits e' ≡ a) × (e' % 4096 ≡ flag)
set_bits-Has e a flag e' known h = (ground arith, ground arith)

entry_frame-user :
    (e : ℕ)
    → has_flags (e % 4096) 7 ≡ true
    → has_flags (e % 4096) 128 ≡ false
    → entry_frame e ≡ some (address_bits e)
entry_frame-user e user small = rw (small, user) refl

abbrev page_ops : PageOps ℕ
page_ops = record {
  table_ops = table_ops;
  flags = λ e. e % 4096;
  contains = has_flags;
  set_flags = λ e f. address_bits e + f % 4096;
  frame = entry_frame;
  containing_address = λ a. a / 4096 * 4096;
  from_start_address = λ a. if a % 4096 == 0 then some a else none;
  p2_index = λ v. v / 2097152 % 512;
  p1_index = λ v. v / 4096 % 512;
  read_only_flags = 5;
  writable = 2;
  huge_page = 128;
  set_addr-Has = set_bits-Has;
  addr-set_flags = λ e f. omega arith;
  addr-is_unused = λ e h. ground arith;
  contains-user_flags = refl;
  contains-read_only_flags = refl;
  frame-user_flags = λ e h. entry_frame-user e (rw h refl) (rw h refl);
  frame-user = entry_frame-user;
  from_start_address-addr = λ e. ground arith;
  p2_index_lem = λ v. refl;
  p1_index_lem = λ v. refl;
}

-- A level 2 table at 0x5000 with one level 1 table, which maps a user's page and a read-only one.
abbrev entry_at : ℕ → ℕ → ℕ
entry_at table ind =
    if table == 0x5000
    then (if ind == 0 then 0x6007 else 0)
    else if table == 0x6000
    then (if ind == 0 then 0x9007 else if ind == 1 then 0xA005 else 0)
    else 0

if_all {ℓ} : {A : Type 0} (P : A → Type ℓ) (b : Bool) (x y : A) → P x → P y → P (if b then x else y)
if_all P true x y p q = p
if_all P false x y p q = q

entry_at-NoHugeUser : (table ind : ℕ) → NoHugeUser page_ops (entry_at table ind)
entry_at-NoHugeUser table ind user =
    let small : ℕ → Type 0 = λ e. has_flags (e % 4096) 128 ≡ false in
    if_all small (table == 0x5000) (if ind == 0 then 0x6007 else 0)
      (if table == 0x6000 then (if ind == 0 then 0x9007 else if ind == 1 then 0xA005 else 0) else 0)
      (if_all small (ind == 0) 0x6007 0 refl refl)
      (if_all small (table == 0x6000) (if ind == 0 then 0x9007 else if ind == 1 then 0xA005 else 0)
        0
        (if_all small (ind == 0) 0x9007 (if ind == 1 then 0xA005 else 0) refl
          (if_all small (ind == 1) 0xA005 0 refl refl))
        refl)

free_pages_rec-GivesBack_example :
    (starts : List ℕ) × (free_pages_rec page_ops entry_at 2 (forty_frames 3) 0x5000
      ≡ some (deallocate_all (forty_frames 3) starts))
    × ((x : ℕ) → Among x starts ↔ IsPart page_ops entry_at 2 0x5000 x)
free_pages_rec-GivesBack_example =
    free_pages_rec-GivesBack page_ops entry_at 2 0x5000 entry_at-NoHugeUser refl (forty_frames 3)

-- A level 4 table at 0x1000 that leads to the level 1 table of the stacks at 0x3000, which is empty.
abbrev stack_tables : Tables ℕ
stack_tables = record {
  entries = λ table ind.
      if table == 0x1000 && ind == 5
      then 0x2007
      else if table == 0x2000 && ind == 0
      then 0x4007
      else if table == 0x4000 && ind == 0
      then 0x3007
      else 0;
  frame_allocator = forty_frames 3;
}

place_stack-Places_example :
    Places page_ops stack_tables 0x3000 67 (place_stack page_ops stack_tables 0x3000 67)
place_stack-Places_example = place_stack-Places page_ops stack_tables 0x3000 67

abbrev tables_of : Option (StackResult (ℕ × ℕ) × Tables ℕ) → Tables ℕ
tables_of none = stack_tables
tables_of (some (r, t)) = t

abbrev with_stack : Tables ℕ
with_stack = tables_of (place_stack page_ops stack_tables 0x3000 67)

free_user_stack-place_stack_example :
    (n : ℕ) × (frame : ℕ) × (a : Allocator) × (t₂ : Tables ℕ) × (allocate_frame (forty_frames 3)
      ≡ some (some frame, a))
    × (free_user_stack page_ops with_stack 0x1000 (5 * 2 ^ 39 + 0x20000) ≡ some t₂)
    × (t₂.frame_allocator ≡ deallocate_frame a frame)
    × (5 * 2 ^ 39 + 0x20000 ≡ stack_slot_address n + 8 * 4096)
    × (0 < frame → (t₂.entries 0x3000 (n * 8 + 1) == 0) ≡ false)
unfolding place_stack active_level_1_table_containing allocate_frame
free_user_stack-place_stack_example =
    free_user_stack-place_stack page_ops stack_tables with_stack 0x3000 67 (5 * 2 ^ 39 + 0x19000)
      (5 * 2 ^ 39 + 0x20000) 0x1000 refl refl

-- A mapper that keeps the frames and the flags of pages in two tables of their own.
abbrev map_page : Tables ℕ → ℕ → ℕ → ℕ → ℕ → Tables ℕ
map_page t l4 page frame flags =
    write_entry (write_entry t (2 * l4) page frame) (2 * l4 + 1) page flags

abbrev page_of : Tables ℕ → ℕ → ℕ → Option (ℕ × ℕ)
page_of t l4 page = some (t.entries (2 * l4) page, t.entries (2 * l4 + 1) page)

page_of-map_page :
    (t : Tables ℕ) (l4 page frame flags : ℕ)
    → (page_of (map_page t l4 page frame flags) l4 page ≡ some (frame, flags))
      × ((q : ℕ) → q ≢ page → page_of (map_page t l4 page frame flags) l4 q ≡ page_of t l4 q)
page_of-map_page t l4 page frame flags =
    let t₁ = write_entry t (2 * l4) page frame in
    (
      rw
          (
            other_table page_ops t₁ (2 * l4 + 1) page flags (2 * l4) page
                (λ e. absurd (omega arith)),
            same_entry page_ops t (2 * l4) page frame page refl,
            same_entry page_ops t₁ (2 * l4 + 1) page flags page refl,
          )
          refl,
      λ q other.
          rw
            (
              other_table page_ops t₁ (2 * l4 + 1) page flags (2 * l4) q
                  (λ e. absurd (omega arith)),
              other_entry page_ops t (2 * l4) page frame q (λ e. other (sym e)),
              other_entry page_ops t₁ (2 * l4 + 1) page flags q (λ e. other (sym e)),
              other_table page_ops t (2 * l4) page frame (2 * l4 + 1) q (λ e. absurd (omega arith)),
            )
            refl,
    )

abbrev map_answer : Tables ℕ → ℕ → ℕ → ℕ → ℕ → Option (MapResult (Unit {0}) × Tables ℕ)
map_answer t l4 page frame flags = some (mapped tt, map_page t l4 page frame flags)

abbrev update_answer : Tables ℕ → ℕ → ℕ → ℕ → Bool × Tables ℕ
update_answer t l4 page flags = (true, map_page t l4 page (t.entries (2 * l4) page) flags)

-- What the mapper returns when it maps.
maps_lem :
    (t t' : Tables ℕ) (l4 page frame flags : ℕ)
    → map_answer t l4 page frame flags ≡ some (mapped tt, t')
    → (page_of t' l4 page ≡ some (frame, flags))
      × ((q : ℕ) → q ≢ page → page_of t' l4 q ≡ page_of t l4 q)
maps_lem t t' l4 page frame flags e =
    let same : map_page t l4 page frame flags ≡ t' =
      ap
        (λ (o : Option (MapResult (Unit {0}) × Tables ℕ)). elim o as (λ _. Tables ℕ) [
          | none ↦ t
          | some (r, u) ↦ u
        ])
        e in
    subst
      (λ u.
        (page_of u l4 page ≡ some (frame, flags))
        × ((q : ℕ) → q ≢ page → page_of u l4 q ≡ page_of t l4 q))
      same (page_of-map_page t l4 page frame flags)

update_lem :
    (t t' : Tables ℕ) (l4 page frame old flags : ℕ)
    → page_of t l4 page ≡ some (frame, old)
    → update_answer t l4 page flags ≡ (true, t')
    → (page_of t' l4 page ≡ some (frame, flags))
      × ((q : ℕ) → q ≢ page → page_of t' l4 q ≡ page_of t l4 q)
update_lem t t' l4 page frame old flags here e =
    let at : t.entries (2 * l4) page ≡ frame = ground arith in
    let same : map_page t l4 page (t.entries (2 * l4) page) flags ≡ t' = ap (λ p. p.1) e in
    maps_lem t t' l4 page frame flags (
      ap (λ (u : Tables ℕ). some (mapped tt, u))
        (ap (λ f. map_page t l4 page f flags) (sym at) ∙ same))

abbrev two_tables : Mapper ℕ
two_tables = record {
  map_to_with_table_flags = λ t l4 page frame flags parent. map_answer t l4 page frame flags;
  map_to = map_answer;
  update_flags = update_answer;
  phys_addr_new = λ a. if ltb a (2 ^ 52) then some a else none;
  lookup = page_of;
  lookup_allocator = λ t a l4 page. refl;
  map_to_with_table_flags_lem =
      λ t t' l4 page frame flags parent e. maps_lem t t' l4 page frame flags e;
  map_to_lem = maps_lem;
  map_to-refused = λ t t' l4 page frame flags err e q. absurd (ground arith);
  update_flags_lem = update_lem;
}

abbrev empty_tables : Tables ℕ
empty_tables = record stack_tables { entries = λ table ind. 0 }

abbrev mapped_tables : {A : Type 0} → Option (MapResult A × Tables ℕ) → Tables ℕ
mapped_tables none = empty_tables
mapped_tables (some (r, t)) = t

abbrev three_pages : Tables ℕ
three_pages =
    mapped_tables (map_consecutive_pages page_ops two_tables empty_tables 0x1000 16 0xB8000 3)

map_consecutive_pages-MapsRange_example :
    let start : ℕ = 0xB8000 in
    (start ≡ 0xB8000)
    × MapsRange page_ops two_tables 0x1000 16 3
        (λ i. (0xB8000 + i * 4096, 7))
        empty_tables
        three_pages
unfolding map_consecutive_pages
map_consecutive_pages-MapsRange_example =
    map_consecutive_pages-MapsRange page_ops two_tables empty_tables three_pages 0x1000 16 0xB8000 3
      0xB8000 refl

abbrev demand_pages : Tables ℕ
demand_pages =
    mapped_tables (create_user_ondemand_pages page_ops two_tables empty_tables 0x1000 0x8000 0x5000)

create_user_ondemand_pages-OnDemand_example :
    (frame : ℕ) × (a : Allocator) × (allocate_frame (forty_frames 3) ≡ some (some frame, a))
    × OnDemand page_ops two_tables 0x1000 8 5 frame
        (record empty_tables { frame_allocator = a })
        demand_pages
unfolding create_user_ondemand_pages allocate_frame
create_user_ondemand_pages-OnDemand_example =
    create_user_ondemand_pages-OnDemand page_ops two_tables empty_tables demand_pages 0x1000 0x8000
      0x5000 8 5 refl (omega arith) refl

-- A program with one segment of five bytes, two of them given.
abbrev program : List Segment
program = record { address = 0x20_0000; size = 5; contents = some (1 ∷ 2 ∷ []) } ∷ []

abbrev write_nothing : ℕ → List ℕ → Tables ℕ → Tables ℕ
write_nothing a bytes t = t

abbrev loaded_tables : Option (LoadResult (Unit {0}) × Tables ℕ) → Tables ℕ
loaded_tables none = empty_tables
loaded_tables (some (r, t)) = t

abbrev with_program : Tables ℕ
with_program =
    loaded_tables (load_segments page_ops two_tables write_nothing 0x1000 program empty_tables)

-- The page of the segment is mapped.
program_page : page_of with_program 0x1000 0x200 ≡ some (0x102000, 7)
unfolding load_segments allocate_frame allocate_pages_mapper
program_page = refl
