-- ===== src/Vga/Bounds.antt =====
-- The operations of a writer: the cursor stays on the screen and no index leaves the buffer.
use eurali_os.Vga.{
  ScreenCall, enable_cursor, disable_cursor, call, ScreenCharacter, Geometry, Writer, erase,
  scroll_up, next_row, print, tab, line_feed,
}
use eurali_os.Vga.Escapes.{
  Command, absolute_column, home, erase_below, erase_above, erase_all, clear_right, clear_left,
  clear_line, show_cursor, hide_cursor, default_colors, foreground, background, unknown, execute,
}
use eurali_os.Prelude.{
  ℕ, ◌+◌, ◌-◌, ◌*◌, ◌%◌, ◌≤◌, ◌<◌, ◌≡◌, refl, ◌∙◌, arith, ltb, leb, ◌==◌, if◌then◌else◌, Bool, true,
  false, Bool-cases, inl, inr, Option, some, update,
}
use native.Mathlib.Nat.{mul_comm}
use eurali_os.Vga.Cells.{overwritten, erase_lem}
use eurali_os.Vga.Paint.{
  Fits, Keeps, Shadows, Shadows-trans, moved-Shadows, offset_lem, overwritten-IsPaint, painted,
  painted-Shadows, row_end, scroll_up-IsPaint, update-IsPaint,
}

module _ (g : Geometry) where
  -- The column may stand behind the row here: the caller sets it.
  pub next_row-Shadows :
      (w : Writer)
      → w.row < g.height
      → w.buffer_len ≡ g.size
      → ((next_row g w).row < g.height)
        × ((next_row g w).column ≡ w.column)
        × ((next_row g w).buffer_len ≡ g.size)
        × Shadows g w (next_row g w)
  unfolding next_row
  next_row-Shadows w h l = elim (Bool-cases (w.row + 1 == g.height)) [
    | inl last ↦ rw last (
      omega (arith, g.several_rows),
      refl,
      l,
      Shadows-trans g w (painted g (scroll_up g w.blank) w) _
          (painted-Shadows g (scroll_up g w.blank) (scroll_up-IsPaint g w.blank) w)
          (moved-Shadows g _ _ refl refl refl),
    )
    | inr room ↦ rw room (ground arith, refl, l, moved-Shadows g w _ refl refl refl)
  ]

  -- After the column is set.
  pub at_column-Keeps :
      (w w' : Writer) (column : ℕ)
      → w'.row < g.height
      → column < g.width
      → w'.buffer_len ≡ g.size
      → Shadows g w w'
      → Keeps g w (record w' { column = column })
  at_column-Keeps w w' column h k l s = (
    record { at_row = h; at_column = k; whole = l },
    Shadows-trans g w w' _ s (moved-Shadows g _ _ refl refl refl),
  )

  pub line_feed-Keeps : (w : Writer) → Fits g w → Keeps g w (line_feed g w)
  unfolding line_feed
  line_feed-Keeps w f =
      let (h, _, l, s) = next_row-Shadows w f.at_row f.whole in
      at_column-Keeps w (next_row g w) 0 h g.several_columns l s

  pub set_column-Keeps :
      (w : Writer) (column : ℕ)
      → Fits g w
      → column < g.width
      → Keeps g w (record w { column = column })
  set_column-Keeps w column f h = (
    record { at_row = f.at_row; at_column = h; whole = f.whole },
    moved-Shadows g w _ refl refl refl,
  )

  pub tab-Keeps : (w : Writer) → Fits g w → Keeps g w (tab g w)
  unfolding tab
  tab-Keeps w f =
      let column = w.column + (8 - w.column % 8) in
      let w₁ = record w { column = column } in
      let (h, _, l, s) = next_row-Shadows w₁ f.at_row f.whole in
      elim (Bool-cases (leb g.width column)) [
        | inl over ↦ rw over (
            at_column-Keeps w (next_row g w₁) 0 h g.several_columns l
              (Shadows-trans g w w₁ _ (moved-Shadows g w w₁ refl refl refl) s))
        | inr room ↦ rw room (set_column-Keeps w column f (ground arith))
      ]

  -- The result of an operation that may panic: it does not.
  abbrev pub Draws : Writer → Option Writer → Type 0
  Draws w o = (w' : Writer) × (o ≡ some w') × Keeps g w w'

  pub print-Draws : (byte : ℕ) (w : Writer) → Fits g w → Draws w (print g byte w)
  unfolding print
  print-Draws byte w f =
      let c : ScreenCharacter = record { character = byte; color = w.color } in
      let offset = g.width * w.row + w.column in
      let inside : offset < g.size =
        omega (arith, offset_lem g w.row w.column f.at_row f.at_column, mul_comm g.width w.row) in
      let inside' : ltb offset w.buffer_len ≡ true = ground (arith, f.whole) in
      let p = painted g (λ b. update b offset c) w in
      let drawn = painted-Shadows g (λ b. update b offset c) (update-IsPaint g offset c inside) w in
      let w₁ = record p { column = 0 } in
      let (h, k, l, s) = next_row-Shadows w₁ f.at_row f.whole in
      elim (Bool-cases (w.column + 1 == g.width)) [
        | inl end ↦
            rw (inside', end)
              (
                next_row g w₁,
                refl,
                (
                  record { at_row = h; at_column = omega (arith, g.several_columns); whole = l },
                  Shadows-trans g w p _ drawn
                      (Shadows-trans g p w₁ _ (moved-Shadows g p w₁ refl refl refl) s),
                ),
              )
        | inr room ↦
            rw (inside', room)
              (
                record p { column = w.column + 1 },
                refl,
                at_column-Keeps w p (w.column + 1) f.at_row (ground (arith, f.at_column)) f.whole
                    drawn,
              )
      ]

  pub erase-Draws :
      (base start end : ℕ) (w : Writer)
      → Fits g w
      → base + start + (end - start) ≤ g.size
      → Draws w (erase base start end w)
  erase-Draws base start end w f h = (
    painted g (overwritten (base + start) (end - start) w.blank) w,
    erase_lem base start end w (omega (arith, f.whole)),
    (
      record { at_row = f.at_row; at_column = f.at_column; whole = f.whole },
      painted-Shadows g _ (overwritten-IsPaint g (base + start) (end - start) w.blank h) w,
    ),
  )

  pub unmoved :
      (w w' : Writer)
      → Fits g w
      → w'.row < g.height
      → w'.column < g.width
      → w'.buffer_len ≡ w.buffer_len
      → w'.active ≡ w.active
      → w'.frame ≡ w.frame
      → w'.buffer ≡ w.buffer
      → Keeps g w w'
  unmoved w w' f h k l a e b =
      (record { at_row = h; at_column = k; whole = l ∙ f.whole }, moved-Shadows g w w' a e b)

  pub toggled :
      (on : Bool) (w : Writer) (visible : Bool) (c : ScreenCall)
      → Fits g w
      → Keeps g w (
          if on
          then call c (record w { cursor_visible = visible })
          else record w { cursor_visible = visible })
  toggled true w visible c f = unmoved w _ f f.at_row f.at_column refl refl refl refl
  toggled false w visible c f = unmoved w _ f f.at_row f.at_column refl refl refl refl

  pub execute-Draws : (c : Command) (w : Writer) → Fits g w → Draws w (execute g c w)
  unfolding execute
  execute-Draws absolute_column w f = (_, refl, set_column-Keeps w 0 f g.several_columns)
  execute-Draws home w f =
      (_, refl, unmoved w _ f (omega (arith, g.several_rows)) g.several_columns refl refl refl refl)
  execute-Draws erase_below w f =
      erase-Draws 0 (w.row * g.width + w.column) g.size w f
        (omega (arith, offset_lem g w.row w.column f.at_row f.at_column))
  execute-Draws erase_above w f =
      erase-Draws 0 0 (w.row * g.width + w.column) w f
        (omega (arith, offset_lem g w.row w.column f.at_row f.at_column))
  execute-Draws erase_all w f = erase-Draws 0 0 g.size w f (omega arith)
  execute-Draws clear_right w f =
      erase-Draws (w.row * g.width) w.column g.width w f
        (omega (arith, row_end g w.row f.at_row, f.at_column))
  execute-Draws clear_left w f =
      erase-Draws (w.row * g.width) 0 w.column w f
        (omega (arith, row_end g w.row f.at_row, f.at_column))
  execute-Draws clear_line w f =
      erase-Draws (w.row * g.width) 0 g.width w f (omega (arith, row_end g w.row f.at_row))
  execute-Draws show_cursor w f = (_, refl, toggled w.active w true enable_cursor f)
  execute-Draws hide_cursor w f = (_, refl, toggled w.active w false disable_cursor f)
  execute-Draws default_colors w f =
      (_, refl, unmoved w _ f f.at_row f.at_column refl refl refl refl)
  execute-Draws (foreground c) w f =
      (_, refl, unmoved w _ f f.at_row f.at_column refl refl refl refl)
  execute-Draws (background c) w f =
      (_, refl, unmoved w _ f f.at_row f.at_column refl refl refl refl)
  execute-Draws unknown w f = (_, refl, unmoved w _ f f.at_row f.at_column refl refl refl refl)
