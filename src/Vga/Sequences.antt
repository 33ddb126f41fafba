-- ===== src/Vga/Sequences.antt =====
-- `write_string` as a whole: text, control codes and escape sequences, complete or not.
use eurali_os.Vga.{
  set_cursor_position, disable_cursor, call, Geometry, Writer, activate, copy_cells,
}
use eurali_os.Vga.Escapes.{
  command, Mode, text, escape, parameters, intermediates, Next, more, return, continue, within,
  finish, feed, end_of_bytes, write_from, write_string,
}
use eurali_os.Prelude.{
  ℕ, ◌-◌, ◌<◌, ◌≡◌, refl, sym, subst, ◌∙◌, arith, ◌==◌, if◌then◌else◌, Bool, true, false,
  Bool-cases, inl, inr, Option, some, none, List, [], ◌∷◌, ◌++◌,
}
use mathlib.Core.Option.{some-injective}
use eurali_os.Vga.Cells.{copy_cells_at}
use eurali_os.Vga.Paint.{Fits, Keeps, Mirrors, Shadows, Shadows-trans}
use eurali_os.Vga.Bounds.{
  Draws, execute-Draws, line_feed-Keeps, print-Draws, set_column-Keeps, tab-Keeps, unmoved,
}

module _ (g : Geometry) where
  -- One byte: the loop goes on or returns, in a state that is kept.
  data Fed (w : Writer) : Option Next → Type 0 where
    goes_on : (m : Mode) (w' : Writer) → Keeps g w w' → Fed w (some (more m w'))
    returns : (w' : Writer) → Keeps g w w' → Fed w (some (return w'))

  same : (w : Writer) → Fits g w → Keeps g w w
  same w f = unmoved g w w f f.at_row f.at_column refl refl refl refl

  continue-Fed : (m : Mode) (w : Writer) (o : Option Writer) → Draws g w o → Fed w (continue m o)
  continue-Fed m w none (w', e, k) = absurd (ground arith)
  continue-Fed m w (some x) (w', e, k) = goes_on m x (ground arith)

  finish-Fed :
      (sequence : List ℕ) (byte : ℕ) (w : Writer) → Fits g w → Fed w (finish g sequence byte w)
  unfolding finish
  finish-Fed sequence byte w f = elim (Bool-cases (within 0x40 0x7E byte)) [
    | inl final ↦
        rw final (continue-Fed text w _ (execute-Draws g (command (sequence ++ (byte ∷ []))) w f))
    | inr other ↦ rw other (returns w (same w f))
  ]

  if-Fed :
      (b : Bool) (w : Writer) (o o' : Option Next)
      → Fed w o
      → Fed w o'
      → Fed w (if b then o else o')
  if-Fed true w o o' h h' = h
  if-Fed false w o o' h h' = h'

  backspace-Keeps :
      (w : Writer)
      → Fits g w
      → Keeps g w (if w.column == 0 then w else record w { column = w.column - 1 })
  backspace-Keeps w f = elim (Bool-cases (w.column == 0)) [
    | inl first ↦ rw first (same w f)
    | inr further ↦ rw further (set_column-Keeps g w (w.column - 1) f (omega (arith, f.at_column)))
  ]

  feed-Fed : (m : Mode) (byte : ℕ) (w : Writer) → Fits g w → Fed w (feed g m byte w)
  unfolding feed
  feed-Fed text byte w f =
      if-Fed (within 0x20 0x7e byte) w _ _ (continue-Fed text w _ (print-Draws g byte w f)) (
        if-Fed (byte == 0x8) w _ _ (goes_on text _ (backspace-Keeps w f)) (
          if-Fed (byte == 0x9) w _ _ (goes_on text _ (tab-Keeps g w f)) (
            if-Fed (byte == 0xA) w _ _ (goes_on text _ (line_feed-Keeps g w f)) (
              if-Fed (byte == 0xD) w _ _
                (goes_on text _ (set_column-Keeps g w 0 f g.several_columns))
                (if-Fed (byte == 0x1b) w _ _ (goes_on escape w (same w f))
                  (goes_on text w (same w f)))))))
  feed-Fed escape byte w f =
      if-Fed (byte == b'[') w _ _ (goes_on (parameters []) w (same w f)) (goes_on text w (same w f))
  feed-Fed (parameters s) byte w f =
      if-Fed (within 0x30 0x3F byte) w _ _ (goes_on (parameters (s ++ (byte ∷ []))) w (same w f)) (
        if-Fed (within 0x20 0x2F byte) w _ _
          (goes_on (intermediates (s ++ (byte ∷ []))) w (same w f)) (finish-Fed s byte w f))
  feed-Fed (intermediates s) byte w f =
      if-Fed (within 0x20 0x2F byte) w _ _ (goes_on (intermediates (s ++ (byte ∷ []))) w (same w f))
        (finish-Fed s byte w f)

  cursor-Keeps :
      (on : Bool) (w : Writer)
      → Fits g w
      → Keeps g w (if on then call (set_cursor_position w.row w.column) w else w)
  cursor-Keeps true w f = unmoved g w _ f f.at_row f.at_column refl refl refl refl
  cursor-Keeps false w f = same w f

  end_of_bytes-Keeps : (m : Mode) (w : Writer) → Fits g w → Keeps g w (end_of_bytes g m w)
  unfolding end_of_bytes
  end_of_bytes-Keeps text w f = cursor-Keeps w.active w f
  end_of_bytes-Keeps escape w f = cursor-Keeps w.active w f
  end_of_bytes-Keeps (parameters s) w f = same w f
  end_of_bytes-Keeps (intermediates s) w f = same w f

  after_byte :
      (bytes : List ℕ) (w : Writer) (o : Option Next)
      → Fed w o
      → ((m : Mode) (w' : Writer) → Fits g w' → Draws g w' (write_from g m bytes w'))
      → Draws g w (elim o as (λ _. Option Writer) [
        | none ↦ none
        | some (return w') ↦ some w'
        | some (more m' w') ↦ write_from g m' bytes w'
      ])
  after_byte bytes w _ (goes_on m w' (f, s)) rest =
      let (w'', e, (f', t)) = rest m w' f in (w'', e, (f', Shadows-trans g w w' w'' s t))
  after_byte bytes w _ (returns w' k) rest = (w', refl, k)

  write_from-Draws :
      (m : Mode) (bytes : List ℕ) (w : Writer) → Fits g w → Draws g w (write_from g m bytes w)
  unfolding write_from
  write_from-Draws m [] w f = (_, refl, end_of_bytes-Keeps m w f)
  write_from-Draws m (byte ∷ bytes) w f =
      after_byte bytes w (feed g m byte w) (feed-Fed m byte w f)
        (λ m' w' f'. write_from-Draws m' bytes w' f')

  -- Whatever bytes are written, with whatever escape sequences, complete or not: `write_string` does
  -- not index outside the buffer, and the cursor is still on the screen.
  pub write_string-Fits :
      (s : List ℕ) (w : Writer)
      → Fits g w
      → (w' : Writer) × (write_string g s w ≡ some w') × Fits g w'
  unfolding write_string
  write_string-Fits s w f = let (w', e, (f', _)) = write_from-Draws text s w f in (w', e, f')

  -- Writing while the screen shows the buffer leaves the screen showing the buffer; writing to a
  -- writer that is not active leaves video memory as it was; and no cell behind the screen is ever
  -- written.
  pub write_string-Shadows :
      (s : List ℕ) (w w' : Writer) → Fits g w → write_string g s w ≡ some w' → Shadows g w w'
  unfolding write_string
  write_string-Shadows s w w' f e =
      let (w₁, e₁, (_, s₁)) = write_from-Draws text s w f in
      subst (Shadows g w) (some-injective _ _ (sym e₁ ∙ e)) s₁

  pub activate-Mirrors :
      (w : Writer)
      → Fits g w
      → Fits g (activate w) × ((activate w).active ≡ true) × Mirrors g (activate w)
  unfolding activate
  activate-Mirrors w f = by_cursor w.cursor_visible
    where
      copied : Writer
      copied = record w { frame = copy_cells w.buffer_len 0 w.buffer w.frame; active = true }

      shows : (p : ℕ) → p < g.size → copy_cells w.buffer_len 0 w.buffer w.frame p ≡ w.buffer p
      shows p lt =
          let at = copy_cells_at w.buffer_len 0 w.buffer w.frame p in ground (arith, f.whole)

      by_cursor :
          (b : Bool)
          → Fits g (if b then copied else call disable_cursor copied)
            × ((if b then copied else call disable_cursor copied).active ≡ true)
            × Mirrors g (if b then copied else call disable_cursor copied)
      by_cursor true =
          (record { at_row = f.at_row; at_column = f.at_column; whole = f.whole }, refl, shows)
      by_cursor false =
          (record { at_row = f.at_row; at_column = f.at_column; whole = f.whole }, refl, shows)

  -- A writer that is switched to: after `activate`, whatever video memory held and whatever is then
  -- written, the screen shows the writer's buffer, cell by cell.
  pub write_string-activate :
      (s : List ℕ) (w : Writer)
      → Fits g w
      → (w' : Writer) × (write_string g s (activate w) ≡ some w')
        × (w'.active ≡ true)
        × Mirrors g w'
  write_string-activate s w f =
      let (f₁, on, m) = activate-Mirrors w f in
      let (w', e, _) = write_string-Fits s (activate w) f₁ in
      let h = write_string-Shadows s (activate w) w' f₁ e in
      (w', e, h.same_active ∙ on, h.shown on m)
