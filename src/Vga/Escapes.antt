-- ===== src/Vga/Escapes.antt =====
-- vga_driver/src/main.rs: `write_string`, which reads text, control codes and the escape sequences that
-- it knows.
use eurali_os.Prelude.{
  ℕ, ◌+◌, ◌-◌, ◌*◌, leb, ◌==◌, if◌then◌else◌, Bool, true, false, ◌&&◌, ◌||◌, Option, none, some,
  List, [], ◌∷◌, ◌++◌, codes, same_codes,
}
use eurali_os.Vga.{
  Color16, black, red, green, yellow, blue, magenta, cyan, white, Geometry, set_cursor_position,
  enable_cursor, disable_cursor, Writer, default_color, call, erase, print, tab, line_feed,
}

-- The sequences that the driver knows.
pub data Command : Type 0 where
  absolute_column home erase_below erase_above erase_all : Command
  clear_right clear_left clear_line show_cursor hide_cursor default_colors : Command
  foreground background : Color16 → Command
  unknown : Command

-- `match sequence.as_str()`
unfoldable pub command : List ℕ → Command
unfolding same_codes
command s =
    let is : List ℕ → Bool = λ t. same_codes s t in
    if is (codes "G")
    then absolute_column
    else if is (codes "H")
    then home
    else if is (codes "J") || is (codes "0J")
    then erase_below
    else if is (codes "1J")
    then erase_above
    else if is (codes "2J")
    then erase_all
    else if is (codes "K") || is (codes "0K")
    then clear_right
    else if is (codes "1K")
    then clear_left
    else if is (codes "2K")
    then clear_line
    else if is (codes "25l")
    then show_cursor
    else if is (codes "25h")
    then hide_cursor
    else if is (codes "m") || is (codes "0m")
    then default_colors
    else if is (codes "30m")
    then foreground black
    else if is (codes "31m")
    then foreground red
    else if is (codes "32m")
    then foreground green
    else if is (codes "33m")
    then foreground yellow
    else if is (codes "34m")
    then foreground blue
    else if is (codes "35m")
    then foreground magenta
    else if is (codes "36m")
    then foreground cyan
    else if is (codes "37m")
    then foreground white
    else if is (codes "39m")
    then foreground black
    else if is (codes "40m")
    then background black
    else if is (codes "41m")
    then background red
    else if is (codes "42m")
    then background green
    else if is (codes "43m")
    then background yellow
    else if is (codes "44m")
    then background blue
    else if is (codes "45m")
    then background magenta
    else if is (codes "46m")
    then background cyan
    else if is (codes "47m")
    then background white
    else if is (codes "49m")
    then background white
    else unknown

-- What the loop over the bytes waits for: text, the byte after an escape, or the parameter or
-- intermediate bytes of a sequence, with what was read of it.
pub data Mode : Type 0 where
  text escape : Mode
  parameters intermediates : List ℕ → Mode

-- The loop goes on, or `write_string` returns.
pub data Next : Type 0 where
  more : Mode → Writer → Next
  return : Writer → Next

abbrev pub within : ℕ → ℕ → ℕ → Bool
within lo hi b = leb lo b && leb b hi

abbrev pub continue : Mode → Option Writer → Option Next
continue m none = none
continue m (some w) = some (more m w)

module _ (g : Geometry) where
  unfoldable pub execute : Command → Writer → Option Writer
  unfolding erase
  execute absolute_column w = some (record w { column = 0 })
  execute home w = some (record w { column = 0; row = 0 })
  execute erase_below w = erase 0 (w.row * g.width + w.column) g.size w
  execute erase_above w = erase 0 0 (w.row * g.width + w.column) w
  execute erase_all w = erase 0 0 g.size w
  execute clear_right w = erase (w.row * g.width) w.column g.width w
  execute clear_left w = erase (w.row * g.width) 0 w.column w
  execute clear_line w = erase (w.row * g.width) 0 g.width w
  execute show_cursor w =
      let w' = record w { cursor_visible = true } in
      some (if w.active then call enable_cursor w' else w')
  execute hide_cursor w =
      let w' = record w { cursor_visible = false } in
      some (if w.active then call disable_cursor w' else w')
  execute default_colors w = some (record w { color = default_color })
  execute (foreground c) w = some (record w { color = record w.color { foreground = c } })
  execute (background c) w = some (record w { color = record w.color { background = c } })
  execute unknown w = some w

  -- The final byte.
  unfoldable pub finish : List ℕ → ℕ → Writer → Option Next
  unfolding execute command
  finish sequence byte w =
      if within 0x40 0x7E byte
      then continue text (execute (command (sequence ++ (byte ∷ []))) w)
      else some (return w)

  -- One byte.
  unfoldable pub feed : Mode → ℕ → Writer → Option Next
  unfolding print tab line_feed finish
  feed text byte w =
      if within 0x20 0x7e byte
      then continue text (print g byte w)
      else if byte == 0x8
      then some (more text (if w.column == 0 then w else record w { column = w.column - 1 }))
      else if byte == 0x9
      then some (more text (tab g w))
      else if byte == 0xA
      then some (more text (line_feed g w))
      else if byte == 0xD
      then some (more text (record w { column = 0 }))
      else if byte == 0x1b
      then some (more escape w)
      else some (more text w)
  feed escape byte w = if byte == b'[' then some (more (parameters []) w) else some (more text w)
  feed (parameters sequence) byte w =
      if within 0x30 0x3F byte
      then some (more (parameters (sequence ++ (byte ∷ []))) w)
      else if within 0x20 0x2F byte
      then some (more (intermediates (sequence ++ (byte ∷ []))) w)
      else finish sequence byte w
  feed (intermediates sequence) byte w =
      if within 0x20 0x2F byte
      then some (more (intermediates (sequence ++ (byte ∷ []))) w)
      else finish sequence byte w

  -- The end of the bytes: inside a sequence `write_string` returns at once.
  unfoldable pub end_of_bytes : Mode → Writer → Writer
  end_of_bytes (parameters s) w = w
  end_of_bytes (intermediates s) w = w
  end_of_bytes m w = if w.active then call (set_cursor_position w.row w.column) w else w

  unfoldable pub write_from : Mode → List ℕ → Writer → Option Writer
  unfolding feed end_of_bytes
  write_from m [] w = some (end_of_bytes m w)
  write_from m (byte ∷ bytes) w = elim (feed m byte w) [
    | none ↦ none
    | some (return w') ↦ some w'
    | some (more m' w') ↦ write_from m' bytes w'
  ]

  unfoldable pub write_string : List ℕ → Writer → Option Writer
  unfolding write_from
  write_string s w = write_from text s w
