-- ===== src/Vga.antt =====
-- vga_driver/src/main.rs: a `Writer`, which renders text with ANSI escape sequences into a buffer in
-- host memory and, while it is active, into video memory too. `none` is a panic, an index out of the
-- bounds of the buffer; video memory is written through a raw pointer, which checks nothing.
pub mod Escapes
pub mod Cells
pub mod Paint
pub mod Bounds
pub mod Sequences
pub mod Driver
pub mod Sharing
pub mod Switching
pub mod Rounds
pub mod Runs
use eurali_os.Prelude.{
  ℕ, zero, suc, ◌+◌, ◌-◌, ◌*◌, ◌%◌, ltb, leb, ◌==◌, if◌then◌else◌, Bool, true, false, ◌&&◌, ◌||◌,
  Option, none, some, List, [], ◌∷◌, ◌++◌, update, codes, same_codes, ◌<◌, ◌≡◌,
}

-- The colours of the vga crate's `Color16` that the driver names.
pub data Color16 : Type 0 where
  black red green yellow blue magenta cyan white : Color16

-- The vga crate's `TextModeColor` and `ScreenCharacter`.
pub record TextModeColor : Type 0 where
  pub foreground : Color16
  pub background : Color16

pub record ScreenCharacter : Type 0 where
  pub character : ℕ
  pub color : TextModeColor

-- The constants of the crate's trait `Screen`; a text screen has several rows and columns.
pub record Geometry : Type 0 where
  pub width : ℕ
  pub height : ℕ
  pub size : ℕ
  pub size_lem : size ≡ height * width
  pub several_rows : 1 < height
  pub several_columns : 0 < width

-- The calls that a writer makes on the device.
pub data ScreenCall : Type 0 where
  set_cursor_position : ℕ → ℕ → ScreenCall
  enable_cursor disable_cursor : ScreenCall

-- `frame` is video memory, behind the pointer of `get_frame_buffer`; `calls` are the calls made on the
-- screen, the last first. The vector `buffer` is a map of its indices, those below `buffer_len`.
pub record Writer : Type 0 where
  pub row : ℕ
  pub column : ℕ
  pub color : TextModeColor
  pub blank : ScreenCharacter
  pub buffer : ℕ → ScreenCharacter
  pub buffer_len : ℕ
  pub active : Bool
  pub cursor_visible : Bool
  pub frame : ℕ → ScreenCharacter
  pub calls : List ScreenCall

abbrev pub default_color : TextModeColor
default_color = record { foreground = black; background = white }

abbrev pub space : ScreenCharacter
space = record { character = 0x20; color = record { foreground = white; background = white } }

abbrev pub call : ScreenCall → Writer → Writer
call c w = record w { calls = c ∷ w.calls }

-- `for i in 0..n { to[i] = from[i] }`
unfoldable pub copy_cells :
    ℕ → ℕ → (ℕ → ScreenCharacter) → (ℕ → ScreenCharacter) → ℕ → ScreenCharacter
copy_cells zero i from to = to
copy_cells (suc rounds) i from to = copy_cells rounds (i + 1) from (update to i (from i))

unfoldable pub activate : Writer → Writer
unfolding copy_cells
activate w =
    let w' = record w { frame = copy_cells w.buffer_len 0 w.buffer w.frame; active = true } in
    if w.cursor_visible then w' else call disable_cursor w'

unfoldable pub deactivate : Writer → Writer
deactivate w = record w { active = false }

-- `for col in col..end { buffer[base + col] = blank }`, with `rounds` to go, through a pointer.
unfoldable pub fill : ℕ → ℕ → ℕ → ScreenCharacter → (ℕ → ScreenCharacter) → ℕ → ScreenCharacter
fill zero base col c b = b
fill (suc rounds) base col c b = fill rounds base (col + 1) c (update b (base + col) c)

-- The same in the vector.
unfoldable pub fill_buffer : ℕ → ℕ → ℕ → Writer → Option Writer
fill_buffer zero base col w = some w
fill_buffer (suc rounds) base col w =
    let rest =
      fill_buffer rounds base (col + 1)
        (record w { buffer = update w.buffer (base + col) w.blank }) in
    if ltb (base + col) w.buffer_len then rest else none

-- The two loops of an erasing sequence, over `start..end`.
unfoldable pub erase : ℕ → ℕ → ℕ → Writer → Option Writer
unfolding fill fill_buffer
erase base start end w = elim (fill_buffer (end - start) base start w) [
  | none ↦ none
  | some w' ↦ some (
      if w.active then record w' { frame = fill (end - start) base start w.blank w'.frame } else w')
]

module _ (g : Geometry) where
  unfoldable pub new_writer : (ℕ → ScreenCharacter) → List ScreenCall → Writer
  new_writer frame calls = record {
    row = 1;
    column = 0;
    color = default_color;
    blank = space;
    buffer = λ p. space;
    buffer_len = g.size;
    active = false;
    cursor_visible = true;
    frame = frame;
    calls = enable_cursor ∷ set_cursor_position 0 1 ∷ calls;
  }

  -- `for col in col..WIDTH`: a character of the row moves up.
  unfoldable pub move_cells : ℕ → ℕ → ℕ → (ℕ → ScreenCharacter) → ℕ → ScreenCharacter
  move_cells zero row col b = b
  move_cells (suc rounds) row col b =
      move_cells rounds row (col + 1)
        (update b ((row - 1) * g.width + col) (b (row * g.width + col)))

  -- `for row in row..HEIGHT`
  unfoldable pub move_rows : ℕ → ℕ → (ℕ → ScreenCharacter) → ℕ → ScreenCharacter
  unfolding move_cells
  move_rows zero row b = b
  move_rows (suc rounds) row b = move_rows rounds (row + 1) (move_cells g.width row 0 b)

  unfoldable pub scroll_up : ScreenCharacter → (ℕ → ScreenCharacter) → ℕ → ScreenCharacter
  unfolding move_rows fill
  scroll_up blank b = fill g.width ((g.height - 1) * g.width) 0 blank (move_rows (g.height - 1) 1 b)

  -- The next row; the text moves up where there is none.
  unfoldable pub next_row : Writer → Writer
  unfolding scroll_up
  next_row w =
      if w.row + 1 == g.height
      then record w {
        buffer = scroll_up w.blank w.buffer;
        frame = if w.active then scroll_up w.blank w.frame else w.frame;
        row = g.height - 1;
      }
      else record w { row = w.row + 1 }

  -- A printable byte.
  unfoldable pub print : ℕ → Writer → Option Writer
  unfolding next_row
  print byte w =
      let c : ScreenCharacter = record { character = byte; color = w.color } in
      let offset = g.width * w.row + w.column in
      let written = record w {
        buffer = update w.buffer offset c;
        frame = if w.active then update w.frame offset c else w.frame;
        column = w.column + 1;
      } in
      if ltb offset w.buffer_len
      then some
          (if w.column + 1 == g.width then next_row (record written { column = 0 }) else written)
      else none

  unfoldable pub tab : Writer → Writer
  unfolding next_row
  tab w =
      let column = w.column + (8 - w.column % 8) in
      if leb g.width column
      then (let w' = next_row (record w { column = column }) in record w' { column = 0 })
      else record w { column = column }

  unfoldable pub line_feed : Writer → Writer
  unfolding next_row
  line_feed w = let w' = next_row w in record w' { column = 0 }
