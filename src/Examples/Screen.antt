-- ===== src/Examples/Screen.antt =====
-- Tests of the VGA driver's writer, and its theorems at a concrete screen.
use eurali_os.Prelude.{
  get_elem?, ℕ, ◌≡◌, refl, arith, ◌++◌, Option, none, some, List, [], ◌∷◌, codes,
}
use eurali_os.Vga.{Geometry, Writer, new_writer, activate, space, print, next_row}
use eurali_os.Vga.Escapes.{write_string}
use eurali_os.Vga.Paint.{Fits}
use eurali_os.Vga.Sequences.{write_string-Fits}
use eurali_os.Std.{short}
use eurali_os.Server.{message}
use eurali_os.Vga.Driver.{Display, main_loop, finish_switch, writer_handler}
use eurali_os.Vga.Runs.{
  switched_on, Run, here, then_one, main_turn, switch_turn, handler_turn, Run-shows,
}
use eurali_os.Examples.Servers.{memory_calls}

-- The crate's `Text80x25`, and a screen of four characters.
abbrev text_mode : Geometry
text_mode = record {
  width = 80;
  height = 25;
  size = 2000;
  size_lem = refl;
  several_rows = omega arith;
  several_columns = omega arith;
}

abbrev small : Geometry
small = record {
  width = 2;
  height = 2;
  size = 4;
  size_lem = refl;
  several_rows = omega arith;
  several_columns = omega arith;
}

abbrev fresh : Geometry → Writer
fresh g = new_writer g (λ p. space) []

fresh-Fits : (g : Geometry) → Fits g (fresh g)
unfolding new_writer
fresh-Fits g = record { at_row = g.several_rows; at_column = g.several_columns; whole = refl }

-- Text, a line feed, and a sequence that clears the line and is never finished.
abbrev session : List ℕ
session = codes "login: " ++ (10 ∷ 27 ∷ codes "[2K" ++ (27 ∷ codes "[3"))

write_string-Fits_example :
    (w' : Writer) × (write_string text_mode session (fresh text_mode) ≡ some w') × Fits text_mode w'
write_string-Fits_example =
    write_string-Fits text_mode session (fresh text_mode) (fresh-Fits text_mode)

-- The second row is full, so the text moves up.
abbrev shown : Option Writer → ℕ → ℕ
shown none p = 0
shown (some w) p = (w.buffer p).character

scrolls : shown (write_string small (codes "ab") (fresh small)) 0 ≡ 97
unfolding write_string new_writer print next_row
scrolls = refl

-- A driver whose client opens a writer, switches to it and writes a letter.
abbrev Memory : Type 0
Memory = ℕ → List ℕ

abbrev after : Option (Display Memory) → Display Memory
after none = switched_on (λ p. space) (λ a. [])
after (some d) = d

abbrev switched_on_display : Display Memory
switched_on_display = switched_on (λ p. space) (λ a. [])

abbrev with_writer : Display Memory
with_writer = after (main_loop small memory_calls (message (short 17 0 0)) switched_on_display)

abbrev asked : Display Memory
asked = after (main_loop small memory_calls (message (short 2 0 0)) with_writer)

abbrev shows_writer : Display Memory
shows_writer = finish_switch 0 asked

abbrev with_letter : Display Memory
with_letter = after (writer_handler small memory_calls 0 8 (message (short 3 65 0)) shows_writer)

abbrev writer_of : Option Writer → Writer
writer_of none = fresh small
writer_of (some w) = w

written_letter : Run small memory_calls switched_on_display with_letter
unfolding main_loop finish_switch writer_handler write_string new_writer activate
written_letter =
    then_one
      (then_one
        (then_one (then_one here (main_turn (message (short 17 0 0)) refl refl))
          (main_turn (message (short 2 0 0)) refl refl))
        (switch_turn 0 refl))
      (handler_turn 0 0 8 (message (short 3 65 0)) refl refl)

Run-shows_example :
    (with_letter.active_writer ≡ some 0)
    × (with_letter.frame 2 ≡ (writer_of (get_elem? with_letter.writers 0)).buffer 2)
unfolding main_loop finish_switch writer_handler write_string new_writer activate
Run-shows_example =
    Run-shows small memory_calls 0 2 (writer_of (get_elem? with_letter.writers 0)) written_letter
      refl refl (omega arith)
