-- ===== src/Vga/Runs.antt =====
-- The driver of vga_driver/src/main.rs at work: rounds of the main loop and of the threads that write
-- for the clients, in any order.
use mathlib.Core.Option.{some-injective}
use eurali_os.Prelude.{ℕ, ◌<◌, ◌≡◌, sym, ◌∙◌, subst, true, none, some, [], get_elem?}
use eurali_os.Server.{Calls, Received}
use eurali_os.Vga.{Geometry, Writer, ScreenCharacter}
use eurali_os.Vga.Driver.{receiving, switching, Display, finish_switch, main_loop, writer_handler}
use eurali_os.Vga.Sharing.{Sound}
use eurali_os.Vga.Switching.{finish_switch-Sound}
use eurali_os.Vga.Rounds.{GoesOn, main_loop-Outcome, writer_handler-GoesOn}

-- Before the main loop.
abbrev pub switched_on : {C : Type 0} → (ℕ → ScreenCharacter) → C → Display C
switched_on frame process = record {
  frame = frame;
  screen_calls = [];
  writers = [];
  active_writer = none;
  phase = receiving;
  handlers = [];
  process = process;
  replies = [];
}

module _ (g : Geometry) {C : Type 0} (calls : Calls C) where
  -- One thread takes a turn: the main loop handles a message, or takes the second lock of a switch, or
  -- a thread that writes handles a message. A process that shares memory with the driver may change it.
  pub data Step (d : Display C) : Display C → Type 0 where
    main_turn :
        {d' : Display C} (r : Received)
        → d.phase ≡ receiving
        → main_loop g calls r d ≡ some d'
        → Step d d'
    switch_turn : (i : ℕ) → d.phase ≡ switching i → Step d (finish_switch i d)
    handler_turn :
        {d' : Display C} (n i handle : ℕ) (r : Received)
        → get_elem? d.handlers n ≡ some (i, handle)
        → writer_handler g calls i handle r d ≡ some d'
        → Step d d'
    memory_changes : (p : C) → Step d (record d { process = p })

  pub data Run (d : Display C) : Display C → Type 0 where
    here : Run d d
    then_one : {d' d'' : Display C} → Run d d' → Step d' d'' → Run d d''

  Step-Sound : {d d' : Display C} → Sound g d → Step d d' → Sound g d'
  unfolding GoesOn
  Step-Sound {d = d} s (main_turn {d' = d'} r ph e) = main_loop-Outcome g calls r d s ph d' e
  Step-Sound {d = d} s (switch_turn i ph) = finish_switch-Sound g d i s ph
  Step-Sound {d = d} s (handler_turn {d' = d'} n i handle r at e) =
      let (d'', e', s') = writer_handler-GoesOn g calls i handle r d s (s.known n i handle at) in
      subst (Sound g) (some-injective _ _ (sym e' ∙ e)) s'
  Step-Sound s (memory_changes p) = record {
    fits = s.fits;
    current = s.current;
    shown = s.shown;
    idle = s.idle;
    known = s.known;
  }

  start-Sound : (frame : ℕ → ScreenCharacter) (process : C) → Sound g (switched_on frame process)
  start-Sound frame process = record {
    fits = λ i w e. cc;
    current = λ i w e. absurd (cc e);
    shown = λ i w e. absurd (cc e);
    idle = λ x i w ph e. absurd (cc e);
    known = λ n i h e. absurd (cc e);
  }

  Run-Sound :
      {frame : ℕ → ScreenCharacter} {process : C} {d : Display C}
      → Run (switched_on frame process) d
      → Sound g d
  Run-Sound {frame = frame} {process = process} here = start-Sound frame process
  Run-Sound (then_one r st) = Step-Sound (Run-Sound r) st

  -- However the main loop and the threads that write take turns, and whatever messages the clients
  -- send: a writer that is active is the current one, so there is one at most, and each cell of the
  -- screen shows its text.
  pub Run-shows :
      {frame : ℕ → ScreenCharacter} {process : C} {d : Display C} (i p : ℕ) (w : Writer)
      → Run (switched_on frame process) d
      → get_elem? d.writers i ≡ some w
      → w.active ≡ true
      → p < g.size
      → (d.active_writer ≡ some i) × (d.frame p ≡ w.buffer p)
  Run-shows i p w r at on lt = let s = Run-Sound r in (s.current i w at on, s.shown i w at on p lt)

  -- In each state that such turns lead to, a thread that writes can handle any message: it does not
  -- panic.
  pub Run-goes_on :
      {frame : ℕ → ScreenCharacter} {process : C} {d : Display C} (n i handle : ℕ) (r : Received)
      → Run (switched_on frame process) d
      → get_elem? d.handlers n ≡ some (i, handle)
      → (d' : Display C) × (writer_handler g calls i handle r d ≡ some d')
  unfolding GoesOn
  Run-goes_on {d = d} n i handle r run at =
      let s = Run-Sound run in
      let (d', e, s') = writer_handler-GoesOn g calls i handle r d s (s.known n i handle at) in
      (d', e)
