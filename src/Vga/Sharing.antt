-- ===== src/Vga/Sharing.antt =====
-- Several writers on one screen: of all writers only the current one writes to it, and the screen shows
-- its text, whatever the clients send and however the threads of the driver take turns.
use mathlib.Core.Option.{some-injective}
use eurali_os.Prelude.{
  ℕ, ◌<◌, ◌≡◌, ◌≢◌, sym, ◌∙◌, ap, subst, arith, Bool, true, false, Bool-cases, inl, inr, Option,
  some, List, length, get_elem?, get_elem?-set, get_elem?-some, length-set,
}
use eurali_os.Vga.{Geometry, Writer}
use eurali_os.Vga.Escapes.{write_string}
use eurali_os.Vga.Paint.{Fits, Shadows}
use eurali_os.Vga.Sequences.{write_string-Fits, write_string-Shadows}
use eurali_os.Vga.Driver.{switching, Display, locked, unlocked, write_locked}

pub same_index : {i j : ℕ} {o : Option ℕ} → o ≡ some i → o ≡ some j → i ≡ j
same_index e e' = some-injective _ _ (sym e ∙ e')

pub not_both : {b : Bool} → b ≡ true → b ≡ false → ⊥
not_both e e' = cc

module _ (g : Geometry) {C : Type 0} where
  -- While a writer is active, it is the current one and the screen shows it; between the old writer and
  -- the new one none is active.
  pub record Sound (d : Display C) : Type 0 where
    pub fits : (i : ℕ) (w : Writer) → get_elem? d.writers i ≡ some w → Fits g w
    pub current :
        (i : ℕ) (w : Writer)
        → get_elem? d.writers i ≡ some w
        → w.active ≡ true
        → d.active_writer ≡ some i
    pub shown :
        (i : ℕ) (w : Writer)
        → get_elem? d.writers i ≡ some w
        → w.active ≡ true
        → (p : ℕ) → p < g.size
        → d.frame p ≡ w.buffer p
    pub idle :
        (x i : ℕ) (w : Writer)
        → d.phase ≡ switching x
        → get_elem? d.writers i ≡ some w
        → w.active ≡ false
    pub known : (n i h : ℕ) → get_elem? d.handlers n ≡ some (i, h) → i < length d.writers

  -- A writer of a sound display that writes.
  written-Sound :
      (d : Display C) (i : ℕ) (w w' : Writer)
      → Sound d
      → get_elem? d.writers i ≡ some w
      → Fits g w'
      → Shadows g (locked d w) w'
      → Sound (unlocked i w' d)
  written-Sound d i w w' s at f h = record {
    fits = λ j x e. elim (get_elem?-set d.writers i w' j x e) [
      | inl (j≡i, x≡w') ↦ subst (Fits g) (sym x≡w') f
      | inr (ne, e') ↦ s.fits j x e'
    ];
    current = λ j x e on. elim (get_elem?-set d.writers i w' j x e) [
      | inl (j≡i, x≡w') ↦ s.current j w (ap (get_elem? d.writers) j≡i ∙ at) (was_on x x≡w' on)
      | inr (ne, e') ↦ s.current j x e' on
    ];
    shown = λ j x e on p lt. elim (get_elem?-set d.writers i w' j x e) [
      | inl (j≡i, x≡w') ↦
          h.shown (was_on x x≡w' on) (s.shown i w at (was_on x x≡w' on)) p lt
          ∙ ap (λ y. y.buffer p) (sym x≡w')
      | inr (ne, e') ↦
          ap (λ fr. fr p) (h.hidden (off ne (s.current j x e' on))) ∙ s.shown j x e' on p lt
    ];
    idle = λ x j y ph e. elim (get_elem?-set d.writers i w' j y e) [
      | inl (j≡i, y≡w') ↦ ap (λ z. z.active) y≡w' ∙ (h.same_active ∙ s.idle x i w ph at)
      | inr (ne, e') ↦ s.idle x j y ph e'
    ];
    known =
        λ n j handle e. subst (λ l. j < l) (sym (length-set d.writers i w')) (s.known n j handle e);
  }
    where
      was_on : (x : Writer) → x ≡ w' → x.active ≡ true → w.active ≡ true
      was_on x e on = sym h.same_active ∙ (ap (λ y. y.active) (sym e) ∙ on)

      off : {j : ℕ} → j ≢ i → d.active_writer ≡ some j → w.active ≡ false
      off ne e = elim (Bool-cases w.active) [
        | inl on ↦ absurd (ne (same_index e (s.current i w at on)))
        | inr o ↦ o
      ]

  write_found :
      (d : Display C) (i : ℕ) (bytes : List ℕ) (w w' : Writer)
      → get_elem? d.writers i ≡ some w
      → write_string g bytes (locked d w) ≡ some w'
      → write_locked g i bytes d ≡ some (unlocked i w' d)
  unfolding write_locked
  write_found d i bytes w w' at e = ground arith

  pub write_locked-Sound :
      (d : Display C) (i : ℕ) (bytes : List ℕ)
      → Sound d
      → i < length d.writers
      → (d' : Display C) × (write_locked g i bytes d ≡ some d') × Sound d'
  unfolding write_locked
  write_locked-Sound d i bytes s lt =
      let (w, at) = get_elem?-some d.writers i lt in
      let f = s.fits i w at in
      let fits : Fits g (locked d w) = record {
        at_row = f.at_row;
        at_column = f.at_column;
        whole = f.whole;
      } in
      let (w', e, f') = write_string-Fits g bytes (locked d w) fits in
      (
        unlocked i w' d,
        write_found d i bytes w w' at e,
        written-Sound d i w w' s at f' (write_string-Shadows g bytes (locked d w) w' fits e),
      )
