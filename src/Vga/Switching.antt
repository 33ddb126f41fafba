-- ===== src/Vga/Switching.antt =====
-- The switch between two writers, with other threads that run in the middle of it.
use eurali_os.Prelude.{
  ℕ, ◌<◌, ◌≡◌, ◌≢◌, sym, ◌∙◌, ap, subst, arith, false, Bool-cases, Option-cases, inl, inr, none,
  some, length, get_elem?, get_elem?-set, length-set,
}
use eurali_os.Vga.{Geometry, Writer, activate, deactivate}
use eurali_os.Vga.Paint.{Fits, Mirrors}
use eurali_os.Vga.Sequences.{activate-Mirrors}
use eurali_os.Vga.Driver.{
  receiving, switching, Display, locked, unlocked, deactivate_current, finish_switch,
}
use eurali_os.Vga.Sharing.{Sound, same_index, not_both}

module _ (g : Geometry) {C : Type 0} where
  -- No writer is active once the current one is not.
  pub record Quiet (d : Display C) : Type 0 where
    fits : (i : ℕ) (w : Writer) → get_elem? d.writers i ≡ some w → Fits g w
    idle : (i : ℕ) (w : Writer) → get_elem? d.writers i ≡ some w → w.active ≡ false
    known : (n i h : ℕ) → get_elem? d.handlers n ≡ some (i, h) → i < length d.writers

  only_current :
      (d : Display C) (s : Sound g d) (i j : ℕ) (w : Writer)
      → d.active_writer ≡ some i
      → j ≢ i
      → get_elem? d.writers j ≡ some w
      → w.active ≡ false
  only_current d s i j w e ne at = elim (Bool-cases w.active) [
    | inl on ↦ absurd (ne (same_index (s.current j w at on) e))
    | inr off ↦ off
  ]

  deactivate-Quiet :
      (d : Display C) (i : ℕ) (w : Writer)
      → Sound g d
      → d.active_writer ≡ some i
      → get_elem? d.writers i ≡ some w
      → Quiet (unlocked i (deactivate (locked d w)) d)
  unfolding deactivate
  deactivate-Quiet d i w s e at =
      let w' = deactivate (locked d w) in
      let f = s.fits i w at in
      record {
        fits = λ j x e'. elim (get_elem?-set d.writers i w' j x e') [
          | inl (j≡i, x≡w') ↦
              subst (Fits g) (sym x≡w')
                (record { at_row = f.at_row; at_column = f.at_column; whole = f.whole })
          | inr (ne, e'') ↦ s.fits j x e''
        ];
        idle = λ j x e'. elim (get_elem?-set d.writers i w' j x e') [
          | inl (j≡i, x≡w') ↦ ap (λ y. y.active) x≡w'
          | inr (ne, e'') ↦ only_current d s i j x e ne e''
        ];
        known = λ n j handle e'.
            subst (λ l. j < l) (sym (length-set d.writers i w')) (s.known n j handle e');
      }

  none_active :
      (d : Display C)
      → Sound g d
      → ((i : ℕ) (w : Writer) → d.active_writer ≡ some i → get_elem? d.writers i ≢ some w)
      → Quiet d
  none_active d s h = record {
    fits = s.fits;
    idle = λ i w at. elim (Bool-cases w.active) [
      | inl on ↦ absurd (h i w (s.current i w at on) at)
      | inr off ↦ off
    ];
    known = s.known;
  }

  gone :
      (d : Display C) {i j : ℕ} {w : Writer}
      → d.active_writer ≡ some i
      → d.active_writer ≡ some j
      → get_elem? d.writers i ≡ none
      → get_elem? d.writers j ≢ some w
  gone d {i = i} e e' lost at = let same = same_index e e' in cc (ap (get_elem? d.writers) same)

  pub deactivate_current-Quiet : (d : Display C) → Sound g d → Quiet (deactivate_current d)
  unfolding deactivate_current
  deactivate_current-Quiet d s = elim (Option-cases d.active_writer) [
    | inl e ↦
        let same : deactivate_current d ≡ d = ground arith in
        subst Quiet (sym same) (none_active d s (λ i w e' at. cc))
    | inr (i, e) ↦ (elim (Option-cases (get_elem? d.writers i)) [
      | inl e' ↦
          let same : deactivate_current d ≡ d = ground arith in
          subst Quiet (sym same) (none_active d s (λ j w e'' at. absurd (gone d e e'' e' at)))
      | inr (w, at) ↦
          let done : deactivate_current d ≡ unlocked i (deactivate (locked d w)) d = ground arith in
          subst Quiet (sym done) (deactivate-Quiet d i w s e at)
    ])
  ]

  -- The main loop between its two locks.
  pub switching-Sound :
      (d : Display C) (x : ℕ) → Quiet d → Sound g (record d { phase = switching x })
  switching-Sound d x q = record {
    fits = q.fits;
    current = λ i w at on. absurd (not_both on (q.idle i w at));
    shown = λ i w at on. absurd (not_both on (q.idle i w at));
    idle = λ y i w ph at. q.idle i w at;
    known = q.known;
  }

  receiving-Sound : (d : Display C) → Quiet d → Sound g (record d { phase = receiving })
  receiving-Sound d q = record {
    fits = q.fits;
    current = λ i w at on. absurd (not_both on (q.idle i w at));
    shown = λ i w at on. absurd (not_both on (q.idle i w at));
    idle = λ y i w ph at. q.idle i w at;
    known = q.known;
  }

  abbrev switched : ℕ → Writer → Display C → Display C
  switched i w' d = record (unlocked i w' d) { active_writer = some i; phase = receiving }

  activated-Sound :
      (d : Display C) (i : ℕ) (w' : Writer)
      → Quiet d
      → Fits g w'
      → Mirrors g w'
      → Sound g (switched i w' d)
  activated-Sound d i w' q f m = record {
    fits = λ j x e. elim (get_elem?-set d.writers i w' j x e) [
      | inl (j≡i, x≡w') ↦ subst (Fits g) (sym x≡w') f
      | inr (ne, e') ↦ q.fits j x e'
    ];
    current = λ j x e on. elim (get_elem?-set d.writers i w' j x e) [
      | inl (j≡i, x≡w') ↦ ap some (sym j≡i)
      | inr (ne, e') ↦ absurd (not_both on (q.idle j x e'))
    ];
    shown = λ j x e on p lt. elim (get_elem?-set d.writers i w' j x e) [
      | inl (j≡i, x≡w') ↦ m p lt ∙ ap (λ y. y.buffer p) (sym x≡w')
      | inr (ne, e') ↦ absurd (not_both on (q.idle j x e'))
    ];
    idle = λ y j x ph e. cc;
    known =
        λ n j handle e. subst (λ l. j < l) (sym (length-set d.writers i w')) (q.known n j handle e);
  }

  pub finish_switch-Sound :
      (d : Display C) (i : ℕ) → Sound g d → d.phase ≡ switching i → Sound g (finish_switch i d)
  unfolding finish_switch
  finish_switch-Sound d i s ph =
      let q : Quiet d = record {
        fits = s.fits;
        idle = λ j w at. s.idle i j w ph at;
        known = s.known;
      } in
      elim (Option-cases (get_elem? d.writers i)) [
        | inl e ↦
            let done : finish_switch i d ≡ record d { phase = receiving } = ground arith in
            subst (Sound g) (sym done) (receiving-Sound d q)
        | inr (w, at) ↦
            (let f = s.fits i w at in
              let fits : Fits g (locked d w) = record {
                at_row = f.at_row;
                at_column = f.at_column;
                whole = f.whole;
              } in
              let (f', on, m) = activate-Mirrors g (locked d w) fits in
              let done : finish_switch i d ≡ switched i (activate (locked d w)) d = ground arith in
              subst (Sound g) (sym done) (activated-Sound d i (activate (locked d w)) q f' m))
      ]
