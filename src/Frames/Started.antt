-- ===== src/Frames/Started.antt =====
-- The allocator that `init` returns.
use eurali_os.Frames.SetAside.{IsSetAside, started-IsSetAside}
use eurali_os.Prelude.{
  ℕ, zero, suc, ◌+◌, ◌-◌, ◌*◌, ◌/◌, ◌%◌, ◌^◌, ◌≤◌, ◌<◌, ◌≡◌, ◌≢◌, refl, sym, ap, subst, ◌∙◌, inl,
  inr, arith, some, false, ltb, ℕ_discrete, dec_lt, Option,
}
use native.Mathlib.Nat.{pow-suc}
use eurali_os.Frames.Bits.{bit}
use eurali_os.Frames.WordBits.{bit-below, bit-pos}
use eurali_os.Frames.Layout.{limit}
use eurali_os.Frames.Levels.{Suffices, num_levels_needed-Suffices, pow_mono}
use eurali_os.Frames.Proper.{IsProper}
use eurali_os.Frames.Index.{IsIndexed, limit-up, word_addr-inj}
use eurali_os.Frames.Init.{Region, reserve, fill_levels, init_region}
use eurali_os.Frames.InitWords.{IsFull}
use eurali_os.Frames.Reserved.{Reserved, reserve-Reserved}
use eurali_os.Frames.Boot.{Filled, filled_from, filled_from-Filled, fill_levels-filled_from}
use eurali_os.Frames.{Allocator, word_addr, num_levels_needed}

limit-fits : (nframes l m : ℕ) → nframes ≤ 32 ^ (l + m) → limit nframes l ≤ 32 ^ m
unfolding limit
limit-fits nframes zero m h =
    let e : zero + m ≡ m = omega arith in subst (λ x. nframes ≤ 32 ^ x) e h
limit-fits nframes (suc l) m h =
    let e : suc l + m ≡ l + suc m = omega arith in
    omega (arith, pow-suc 32 m, limit-fits nframes l (suc m) (subst (λ x. nframes ≤ 32 ^ x) e h))

limit-pos : (nframes l : ℕ) → 0 < nframes → 0 < limit nframes l
unfolding limit
limit-pos nframes zero h = h
limit-pos nframes (suc l) h = omega (arith, limit-pos nframes l h)

module _ (a : Allocator) (offset start r : ℕ) (addrs words : ℕ → ℕ) (filled : (ℕ → ℕ) × (ℕ → ℕ) × ℕ)
    (levels : 0 < a.nlevels) (enough : 32 ≤ a.nframes) (fits : a.nframes ≤ 32 ^ a.nlevels)
    (fills : Filled a.nlevels 0 offset start a.nframes addrs words filled)
    (at : a.bitmap_virt_addr ≡ filled.0) (low : Reserved (filled.0 0) r filled.1 a.words)
    (empty : a.frame_stack_number ≡ 0) where
  from_zero : (k : ℕ) → 0 + k ≡ k
  from_zero k = omega arith

  laid :
      (k : ℕ)
      → suc k < a.nlevels
      → a.bitmap_virt_addr (suc k) ≡ a.bitmap_virt_addr k + 4 * limit a.nframes (suc k)
  laid k h =
      let spaced = fills.spaced k h in
      let e = ap filled.0 (from_zero k) in
      let f = ap filled.0 (from_zero (suc k)) in rw at (omega arith)

  full :
      (k c : ℕ)
      → k < a.nlevels
      → c < limit a.nframes (suc k)
      → IsFull (limit a.nframes k) c (filled.1 (word_addr a k c))
  full k c h inside =
      subst (λ p. IsFull (limit a.nframes k) c (filled.1 (p + 4 * c)))
        (ap filled.0 (from_zero k) ∙ ap (λ (f : ℕ → ℕ). f k) (sym at)) (fills.full k c h inside)

  lowest :
      (k c : ℕ)
      → k < a.nlevels
      → c < limit a.nframes (suc k)
      → filled.0 0 ≡ word_addr a k c
      → (k ≡ 0) × (c ≡ 0)
  unfolding limit
  lowest k c h inside same =
      let base : word_addr a 0 0 ≡ filled.0 0 = ap (λ (f : ℕ → ℕ). f 0 + 4 * 0) at ∙ omega arith in
      let (e, f) = word_addr-inj a 0 k 0 c laid levels h (omega arith) inside (base ∙ same) in
      (sym e, sym f)

  words_small : (x : ℕ) → a.words x < 2 ^ 32
  words_small x = low.small fills.small x

  in_range :
      (k c i : ℕ)
      → k < a.nlevels
      → c < limit a.nframes (suc k)
      → bit (a.words (word_addr a k c)) i ≡ 1
      → c * 32 + i < limit a.nframes k
  unfolding limit
  in_range k c i h inside set = elim (ℕ_discrete (filled.0 0) (word_addr a k c)) [
    | yes same ↦
        (let (e, f) = lowest k c h inside same in
          let bits =
            bit-below 32 (a.words (word_addr a k c)) i (words_small (word_addr a k c)) set in
          rw (e, f) (omega arith))
    | no other ↦
        (let here = full k c h inside in
          here.inside i (subst (λ x. bit x i ≡ 1) (low.others (word_addr a k c) other) set))
  ]

  full_pos :
      (k c : ℕ) → k < a.nlevels → c < limit a.nframes (suc k) → 0 < filled.1 (word_addr a k c)
  unfolding limit
  full_pos k c h inside =
      let here = full k c h inside in
      bit-pos (filled.1 (word_addr a k c)) 0 (here.set 0 (omega arith) (omega arith))

  words_pos :
      (k c : ℕ) → k < a.nlevels → c < limit a.nframes (suc k) → 0 < a.words (word_addr a k c)
  words_pos k c h inside = elim (ℕ_discrete (filled.0 0) (word_addr a k c)) [
    | yes same ↦
        subst (λ x. 0 < a.words x) same
          (low.pos (subst (λ x. 0 < filled.1 x) (sym same) (full_pos k c h inside)))
    | no other ↦ omega (arith, low.others (word_addr a k c) other, full_pos k c h inside)
  ]

  above_set :
      (k c : ℕ)
      → suc k < a.nlevels
      → c < limit a.nframes (suc k)
      → bit (a.words (word_addr a (suc k) (c / 32))) (c % 32) ≡ 1
  above_set k c h inside =
      let up = limit-up a.nframes (suc k) c inside in
      let here = full (suc k) (c / 32) h up in
      let e : c / 32 * 32 + c % 32 ≡ c = omega arith in
      let other : filled.0 0 ≢ word_addr a (suc k) (c / 32) =
        λ same. (let (z, _) = lowest (suc k) (c / 32) h up same in absurd (omega arith)) in
      subst (λ x. bit x (c % 32) ≡ 1) (sym (low.others (word_addr a (suc k) (c / 32)) other))
        (here.set (c % 32) (omega arith) (omega arith))

  started-IsProper : IsProper a
  started-IsProper = record {
    laid_out = laid;
    some_levels = levels;
    one_chunk =
        (let above = limit-fits a.nframes a.nlevels 0 fits_zero in
          let pos = limit-pos a.nframes a.nlevels (omega arith) in omega arith);
    words_small = words_small;
    in_range = in_range;
    in_region = λ i h. absurd (omega arith);
    apart = λ i k h q. absurd (omega arith);
    taken = λ i h. absurd (omega arith);
  }
    where
      fits_zero : a.nframes ≤ 32 ^ (a.nlevels + 0)
      fits_zero = let e : a.nlevels + 0 ≡ a.nlevels = omega arith in rw e fits

  started-IsIndexed : IsIndexed a
  started-IsIndexed k c h inside =
      ((λ set. words_pos k c (omega arith) inside), (λ pos. above_set k c h inside))

few_levels :
    (nframes l : ℕ) → 32 ≤ nframes → nframes < 2 ^ 19 → Suffices nframes l → (0 < l) × (l ≤ 6)
few_levels nframes zero enough small s = let fits = s.fits in absurd (omega arith)
few_levels nframes (suc l) enough small s = elim s.least [
  | inl one_level ↦ (omega arith, omega arith)
  | inr least ↦ elim (dec_lt 5 l) [
    | no few ↦ (omega arith, omega arith)
    | yes many ↦
        (let e : 6 + (l - 6) ≡ suc l - 1 = omega arith in
          let big : 32 ^ 6 ≤ 32 ^ (suc l - 1) =
            subst (λ x. 32 ^ 6 ≤ 32 ^ x) e (pow_mono 6 (l - 6)) in
          absurd (omega arith))
  ]
]

abbrev frames_of : Region → ℕ
frames_of region = region.end_frame_number - region.start_frame_number

abbrev filled_levels : Region → ℕ → (ℕ → ℕ) → ℕ → (ℕ → ℕ) × (ℕ → ℕ) × ℕ
filled_levels region offset words nlevels =
    filled_from nlevels 0 offset region.start_addr (frames_of region) (λ level. 0) words

abbrev reserved_frames : Region → ℕ → (ℕ → ℕ) → ℕ → ℕ
reserved_frames region offset words nlevels =
    ((filled_levels region offset words nlevels).2 - region.start_addr + 4095) / 4096

abbrev started : Region → ℕ → (ℕ → ℕ) → ℕ → Allocator
started region offset words nlevels = record {
  bitmap_virt_addr = (filled_levels region offset words nlevels).0;
  nframes = frames_of region;
  nlevels = nlevels;
  frame_phys_addr = region.start_addr;
  frame_stack = λ i. 0;
  frame_stack_number = 0;
  words =
      reserve nlevels 0 (filled_levels region offset words nlevels).0
        (reserved_frames region offset words nlevels) (filled_levels region offset words nlevels).1;
}

module _ (virt_addr_add : ℕ → ℕ → Option ℕ) (phys_addr_new : ℕ → Option ℕ) (region : Region)
    (offset : ℕ) (words : ℕ → ℕ) where
  init_region-started :
      (nlevels : ℕ)
      → num_levels_needed (frames_of region) ≡ some nlevels
      → nlevels ≤ 6
      → fill_levels virt_addr_add nlevels 0 offset region.start_addr
          (frames_of region)
          (λ level. 0)
          words
        ≡ some (filled_levels region offset words nlevels)
      → phys_addr_new region.start_addr ≡ some region.start_addr
      → init_region virt_addr_add phys_addr_new region offset words
        ≡ some (started region offset words nlevels)
  unfolding init_region
  init_region-started nlevels found few fills phys =
      let test : ltb 6 nlevels ≡ false = ground arith in
      rw (init_region, found, test, fills, phys) refl

  -- The words that `reserve` leaves.
  reserve-started :
      (nlevels : ℕ)
      → 0 < nlevels
      → reserved_frames region offset words nlevels < 32
      → Reserved
          ((filled_levels region offset words nlevels).0 0)
          (reserved_frames region offset words nlevels)
          (filled_levels region offset words nlevels).1
          (started region offset words nlevels).words
  reserve-started nlevels some_levels few =
      let result = filled_levels region offset words nlevels in
      let r = reserved_frames region offset words nlevels in
      let e : suc (nlevels - 1) ≡ nlevels = omega arith in
      subst (λ n. Reserved (result.0 0) r result.1 (reserve n 0 result.0 r result.1)) e
        (reserve-Reserved (nlevels - 1) r result.0 result.1 few)

  -- For a region of at least 32 frames and less than 2 GiB, and any contents of the memory, where
  -- `PhysAddr::new` and `VirtAddr + u64` accept the addresses of the region, the allocator is set up
  -- without a panic. It has the frames of the region and is in a proper state whose upper bitmaps are
  -- an index of the lower ones; the first frames, as many as the bitmaps need, are taken and hold all
  -- words of the bitmaps, and the frames behind them are free.
  pub init_region-IsProper :
      32 ≤ region.end_frame_number - region.start_frame_number
      → region.end_frame_number - region.start_frame_number < 2 ^ 19
      → region.start_addr + (region.end_frame_number - region.start_frame_number) * 4096 < 2 ^ 64
      → ((x : ℕ) → words x < 2 ^ 32)
      → phys_addr_new region.start_addr ≡ some region.start_addr
      → ((x : ℕ)
          → x ≤ region.start_addr + (region.end_frame_number - region.start_frame_number) * 4096
          → virt_addr_add offset x ≡ some (offset + x))
      → (a : Allocator) × (init_region virt_addr_add phys_addr_new region offset words ≡ some a)
        × (a.nframes ≡ region.end_frame_number - region.start_frame_number)
        × (a.frame_phys_addr ≡ region.start_addr)
        × IsProper a
        × IsIndexed a
        × IsSetAside a offset region.start_addr
  init_region-IsProper enough small high bytes phys add =
      let nframes = frames_of region in
      let start = region.start_addr in
      let (nlevels, found, suffices) = num_levels_needed-Suffices nframes (omega arith) in
      let (some_levels, few) = few_levels nframes nlevels enough small suffices in
      let none_yet : ℕ → ℕ = λ level. 0 in
      let fills = filled_from-Filled nlevels 0 offset start nframes none_yet words bytes in
      let result = filled_levels region offset words nlevels in
      let past = fills.bounded in
      let r = reserved_frames region offset words nlevels in
      let few_frames : r < 32 = omega arith in
      let low = reserve-started nlevels some_levels few_frames in
      let a = started region offset words nlevels in
      let accepted =
        fill_levels-filled_from virt_addr_add nlevels 0 offset start nframes
          (start + nframes * 4096) none_yet words (omega arith) high add in
      (
        a,
        init_region-started nlevels found few accepted phys,
        refl,
        refl,
        started-IsProper a offset start r none_yet words result some_levels enough suffices.fits
            fills refl low refl,
        started-IsIndexed a offset start r none_yet words result some_levels enough suffices.fits
            fills refl low refl,
        started-IsSetAside a offset start r none_yet words result some_levels enough fills refl low
            few_frames refl refl,
      )
