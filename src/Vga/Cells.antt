-- ===== src/Vga/Cells.antt =====
-- The loops over the cells of a screen, each as one equation for the cell at any index.
use eurali_os.Vga.{
  ScreenCharacter, Geometry, Writer, copy_cells, fill, fill_buffer, erase, move_cells, move_rows,
  scroll_up,
}
use eurali_os.Prelude.{
  ℕ, zero, suc, ◌+◌, ◌-◌, ◌*◌, ◌≤◌, ◌≡◌, refl, ap, arith, ltb, leb, ◌&&◌, if◌then◌else◌, some,
  update, fun_ext,
}

-- A map of cells in which the `n` cells from `first` are `c`.
abbrev pub overwritten : ℕ → ℕ → ScreenCharacter → (ℕ → ScreenCharacter) → ℕ → ScreenCharacter
overwritten first n c b p = if leb first p && ltb p (first + n) then c else b p

fill_at :
    (n base col : ℕ) (c : ScreenCharacter) (b : ℕ → ScreenCharacter) (p : ℕ)
    → fill n base col c b p ≡ overwritten (base + col) n c b p
unfolding fill
fill_at zero base col c b p = ground arith
fill_at (suc n) base col c b p =
    ground (arith, fill_at n base (col + 1) c (update b (base + col) c) p)

pub fill_lem :
    (n base col : ℕ) (c : ScreenCharacter) (b : ℕ → ScreenCharacter)
    → fill n base col c b ≡ overwritten (base + col) n c b
fill_lem n base col c b = fun_ext (fill_at n base col c b)

fill_buffer-fill :
    (n base col : ℕ) (w : Writer)
    → base + col + n ≤ w.buffer_len
    → fill_buffer n base col w ≡ some (record w { buffer = fill n base col w.blank w.buffer })
unfolding fill_buffer fill
fill_buffer-fill zero base col w h = refl
fill_buffer-fill (suc n) base col w h = ground (
  arith,
  fill_buffer-fill n base (col + 1) (record w { buffer = update w.buffer (base + col) w.blank }),
)

-- `erase` within the buffer does not panic.
pub erase_lem :
    (base start end : ℕ) (w : Writer)
    → base + start + (end - start) ≤ w.buffer_len
    → erase base start end w
      ≡ some (record w {
        buffer = overwritten (base + start) (end - start) w.blank w.buffer;
        frame =
            if w.active then overwritten (base + start) (end - start) w.blank w.frame else w.frame;
      })
unfolding erase
erase_lem base start end w h =
    let n = end - start in
    let buffered = fill_buffer-fill n base start w h in
    let in_buffer = fill_lem n base start w.blank w.buffer in
    let in_frame = fill_lem n base start w.blank w.frame in ground arith

pub copy_cells_at :
    (n i : ℕ) (from to : ℕ → ScreenCharacter) (p : ℕ)
    → copy_cells n i from to p ≡ (if leb i p && ltb p (i + n) then from p else to p)
unfolding copy_cells
copy_cells_at zero i from to p = ground arith
copy_cells_at (suc n) i from to p =
    ground (arith, copy_cells_at n (i + 1) from (update to i (from i)) p)

module _ (g : Geometry) where
  move_cells_at :
      (n row above col : ℕ) (b : ℕ → ScreenCharacter) (p : ℕ)
      → row * g.width ≡ above + g.width
      → (row - 1) * g.width ≡ above
      → col + n ≤ g.width
      → move_cells g n row col b p
        ≡ (if leb (above + col) p && ltb p (above + col + n) then b (p + g.width) else b p)
  unfolding move_cells
  move_cells_at zero row above col b p e e' h = ground arith
  move_cells_at (suc n) row above col b p e e' h = ground (
    arith,
    move_cells_at n row above (col + 1)
        (update b ((row - 1) * g.width + col) (b (row * g.width + col))) p,
  )

  row_above : (row : ℕ) → 1 ≤ row → row * g.width ≡ (row - 1) * g.width + g.width
  row_above zero h = absurd (omega arith)
  row_above (suc r) h =
      let e : suc r - 1 ≡ r = omega arith in
      let s : suc r * g.width ≡ r * g.width + g.width = grind arith in rw e s

  move_rows_at :
      (n row above : ℕ) (b : ℕ → ScreenCharacter) (p : ℕ)
      → 1 ≤ row
      → (row - 1) * g.width ≡ above
      → move_rows g n row b p
        ≡ (if leb above p && ltb p (above + n * g.width) then b (p + g.width) else b p)
  unfolding move_rows
  move_rows_at zero row above b p h e = ground arith
  move_rows_at (suc n) row above b p h e =
      let b' = move_cells g g.width row 0 b in
      let below : row * g.width ≡ above + g.width = omega (arith, row_above row h) in
      let next : (row + 1 - 1) * g.width ≡ above + g.width =
        omega (arith, below, ap (λ (r : ℕ). r * g.width) (same row)) in
      let total : suc n * g.width ≡ n * g.width + g.width = grind arith in
      let here = move_cells_at g.width row above 0 b p below e (omega arith) in
      let later = move_cells_at g.width row above 0 b (p + g.width) below e (omega arith) in
      ground (arith, move_rows_at n (row + 1) (above + g.width) b' p (omega arith) next)
    where
      same : (r : ℕ) → r + 1 - 1 ≡ r
      same r = omega arith

  pub last_row : g.size ≡ (g.height - 1) * g.width + g.width
  last_row = omega (arith, g.size_lem, row_above g.height (omega (arith, g.several_rows)))

  -- `scroll_up` moves the text of each row to the row above and blanks the lowest one; cells behind
  -- the screen are not touched.
  pub scroll_up_lem :
      (blank : ScreenCharacter) (b : ℕ → ScreenCharacter) (p : ℕ)
      → scroll_up g blank b p ≡ (
          if ltb p ((g.height - 1) * g.width)
          then b (p + g.width)
          else if ltb p g.size
          then blank
          else b p)
  unfolding scroll_up
  scroll_up_lem blank b p =
      let moved = move_rows_at (g.height - 1) 1 0 b p (omega arith) (omega arith) in
      let filled =
        fill_at g.width ((g.height - 1) * g.width) 0 blank (move_rows g (g.height - 1) 1 b) p in
      let total = last_row in ground arith
