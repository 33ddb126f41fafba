-- ===== src/Vga/Rounds.antt =====
-- Rounds of the main loop and of the threads that write of vga_driver/src/main.rs keep a display sound.
use mathlib.Core.Option.{some-injective}
use eurali_os.Prelude.{
  ℕ, suc, zero, ◌<◌, ◌≡◌, refl, sym, ◌∙◌, ap, subst, arith, Bool, true, false, inl, inr, Option,
  none, some, List, [], ◌∷◌, ◌++◌, ◌==◌, ◌%◌, ◌^◌, if◌then◌else◌, length, get_elem?,
  get_elem?-append_one, length-append,
}
use eurali_os.State.{Result, ok, err}
use eurali_os.Std.{Message, short, long, value, memory_handle, comm_handle, error}
use eurali_os.Server.{
  Calls, Received, message, failed, msg_comm_handle, msg_write, msg_ok, error_recv_blocking,
}
use eurali_os.Vga.{Geometry, Writer, ScreenCharacter, ScreenCall, new_writer}
use eurali_os.Vga.Paint.{Fits}
use eurali_os.Vga.Driver.{
  receiving, Display, tell, open_writer, main_loop, write_locked, writer_handler,
  deactivate_current, open_readwrite, msg_char, stdin,
}
use eurali_os.Vga.Sharing.{Sound, not_both, write_locked-Sound}
use eurali_os.Vga.Switching.{deactivate_current-Quiet, switching-Sound}

module _ (g : Geometry) {C : Type 0} (calls : Calls C) where
  abbrev pub Outcome : Option (Display C) → Type 0
  Outcome o = (d' : Display C) → o ≡ some d' → Sound g d'

  gives : (d : Display C) → Sound g d → Outcome (some d)
  gives d s x e = subst (Sound g) (some-injective _ _ e) s

  panics : Outcome none
  panics x e = cc

  if-Outcome :
      (b : Bool) (o o' : Option (Display C))
      → Outcome o
      → Outcome o'
      → Outcome (if b then o else o')
  if-Outcome true o o' h h' = h
  if-Outcome false o o' h h' = h'

  -- What is told to clients does not matter for the screen.
  tell-Sound : (handle : ℕ) (m : Message) (d : Display C) → Sound g d → Sound g (tell handle m d)
  tell-Sound handle m d s = record {
    fits = s.fits;
    current = s.current;
    shown = s.shown;
    idle = s.idle;
    known = s.known;
  }

  new-Fits :
      (frame : ℕ → ScreenCharacter) (cs : List ScreenCall)
      → Fits g (new_writer g frame cs) × ((new_writer g frame cs).active ≡ false)
  unfolding new_writer
  new-Fits frame cs =
      (record { at_row = g.several_rows; at_column = g.several_columns; whole = refl }, refl)

  -- A writer more, and perhaps a thread that serves it.
  opened-Sound :
      (d : Display C) (w : Writer) (cs : List ScreenCall) (p : C) (hs : List (ℕ × ℕ))
      (rs : List (ℕ × Message))
      → Sound g d
      → d.phase ≡ receiving
      → Fits g w
      → w.active ≡ false
      → ((n i h : ℕ) → get_elem? hs n ≡ some (i, h) → i < suc (length d.writers))
      → Sound g (record d {
        writers = d.writers ++ (w ∷ []);
        screen_calls = cs;
        process = p;
        handlers = hs;
        replies = rs;
      })
  opened-Sound d w cs p hs rs s ph f off bound = record {
    fits = λ i x e. elim (get_elem?-append_one d.writers w i x e) [
      | inl e' ↦ s.fits i x e'
      | inr w≡x ↦ subst (Fits g) w≡x f
    ];
    current = λ i x e on. elim (get_elem?-append_one d.writers w i x e) [
      | inl e' ↦ s.current i x e' on
      | inr w≡x ↦ absurd (not_both on (ap (λ y. y.active) (sym w≡x) ∙ off))
    ];
    shown = λ i x e on. elim (get_elem?-append_one d.writers w i x e) [
      | inl e' ↦ s.shown i x e' on
      | inr w≡x ↦ absurd (not_both on (ap (λ y. y.active) (sym w≡x) ∙ off))
    ];
    idle = λ y i x ph' e. absurd (cc (ph, ph'));
    known = λ n i h e.
        subst (λ l. i < l) (sym (length-append d.writers (w ∷ []))) (omega (arith, bound n i h e));
  }

  open_writer-Outcome :
      (d : Display C) → Sound g d → d.phase ≡ receiving → Outcome (open_writer g calls d)
  unfolding open_writer
  open_writer-Outcome d s ph = by_pair (calls.new_rendezvous d.process)
    where
      new : Writer
      new = new_writer g d.frame d.screen_calls

      more :
          (r : Result (Unit {0})) (h n i k : ℕ)
          → get_elem?
              (elim r as (λ _. List (ℕ × ℕ)) [
                | err _ ↦ d.handlers
                | ok _ ↦ (length d.writers, h) ∷ d.handlers
              ])
              n
            ≡ some (i, k)
          → i < suc (length d.writers)
      more (err _) h n i k e = omega (arith, s.known n i k e)
      more (ok _) h zero i k e =
          let same = ap (λ q. q.0) (some-injective _ _ e) in omega (arith, same)
      more (ok _) h (suc n) i k e = omega (arith, s.known n i k e)

      by_pair :
          (r : Result (ℕ × ℕ) × C)
          → Outcome (elim (r.0) as (λ _. Option (Display C)) [
            | err _ ↦ none
            | ok (handle, client_handle) ↦ some (record d {
              writers = d.writers ++ (new ∷ []);
              screen_calls = new.calls;
              process = (calls.spawn r.1).1;
              handlers = elim (calls.spawn r.1).0 as (λ _. List (ℕ × ℕ)) [
                | err _ ↦ d.handlers
                | ok _ ↦ (length d.writers, handle) ∷ d.handlers
              ];
              replies =
                  (
                    stdin,
                    long msg_comm_handle (comm_handle client_handle) (value (length d.writers)),
                  )
                  ∷ d.replies;
            })
          ])
      by_pair (err e, p) = panics
      by_pair (ok (h, c), p) = gives _ (
          opened-Sound d new _ _ _ _ s ph (new-Fits d.frame d.screen_calls).0
            (new-Fits d.frame d.screen_calls).1 (more (calls.spawn p).0 h))

  pub main_loop-Outcome :
      (r : Received) (d : Display C)
      → Sound g d
      → d.phase ≡ receiving
      → Outcome (main_loop g calls r d)
  unfolding main_loop
  main_loop-Outcome (message (long tag d2 d3)) d s ph =
      if-Outcome (tag == open_readwrite) _ _ (open_writer-Outcome d s ph) (gives d s)
  main_loop-Outcome (message (short tag d2 d3)) d s ph =
      if-Outcome (tag == open_readwrite) _ _ (open_writer-Outcome d s ph) (
        if-Outcome (tag == msg_write) _ _
          (gives _ (switching-Sound g (deactivate_current d) d2 (deactivate_current-Quiet g d s)))
          (gives d s))
  main_loop-Outcome (failed e) d s ph =
      if-Outcome (e == error_recv_blocking) _ _ (gives _ (tell-Sound stdin _ d s)) (gives d s)

  -- A thread that writes goes on, and the display stays sound.
  unfoldable pub GoesOn : Option (Display C) → Type 0
  GoesOn o = (d' : Display C) × (o ≡ some d') × Sound g d'

  goes_on : (d : Display C) → Sound g d → GoesOn (some d)
  unfolding GoesOn
  goes_on d s = (d, refl, s)

  if-GoesOn :
      (b : Bool) (o o' : Option (Display C)) → GoesOn o → GoesOn o' → GoesOn (if b then o else o')
  if-GoesOn true o o' h h' = h
  if-GoesOn false o o' h h' = h'

  then_tells :
      (handle : ℕ) (m : Message) (o : Option (Display C))
      → GoesOn o
      → GoesOn
          (elim o as (λ _. Option (Display C)) [ none ↦ none | some d' ↦ some (tell handle m d') ])
  unfolding GoesOn
  then_tells handle m none (d', e, s) = cc
  then_tells handle m (some d) (d', e, s) = (
    tell handle m d,
    refl,
    tell-Sound handle m d (subst (Sound g) (sym (some-injective _ _ e)) s),
  )

  write_locked-GoesOn :
      (i : ℕ) (bytes : List ℕ) (d : Display C)
      → Sound g d
      → i < length d.writers
      → GoesOn (write_locked g i bytes d)
  unfolding GoesOn
  write_locked-GoesOn i bytes d s lt = write_locked-Sound g d i bytes s lt

  pub writer_handler-GoesOn :
      (i handle : ℕ) (r : Received) (d : Display C)
      → Sound g d
      → i < length d.writers
      → GoesOn (writer_handler g calls i handle r d)
  unfolding writer_handler
  writer_handler-GoesOn i handle (message (long tag (value length) (memory_handle data_handle))) d s
        lt =
      if-GoesOn (tag == msg_write) _ _
        (then_tells handle (short msg_ok 0 0) _
          (write_locked-GoesOn i (calls.as_slice d.process data_handle length) d s lt))
        (goes_on _ (tell-Sound handle _ d s))
  writer_handler-GoesOn i handle (message (short tag ch d3)) d s lt =
      if-GoesOn (tag == msg_char) _ _ (write_locked-GoesOn i (ch % 2 ^ 8 ∷ []) d s lt)
        (goes_on _ (tell-Sound handle _ d s))
  writer_handler-GoesOn i handle (message (long tag (value v) (value d3))) d s lt =
      goes_on _ (tell-Sound handle _ d s)
  writer_handler-GoesOn i handle (message (long tag (value v) (comm_handle d3))) d s lt =
      goes_on _ (tell-Sound handle _ d s)
  writer_handler-GoesOn i handle (message (long tag (value v) (error d3))) d s lt =
      goes_on _ (tell-Sound handle _ d s)
  writer_handler-GoesOn i handle (message (long tag (memory_handle v) d3)) d s lt =
      goes_on _ (tell-Sound handle _ d s)
  writer_handler-GoesOn i handle (message (long tag (comm_handle v) d3)) d s lt =
      goes_on _ (tell-Sound handle _ d s)
  writer_handler-GoesOn i handle (message (long tag (error v) d3)) d s lt =
      goes_on _ (tell-Sound handle _ d s)
  writer_handler-GoesOn i handle (failed e) d s lt =
      if-GoesOn (e == error_recv_blocking) _ _ (goes_on _ (tell-Sound stdin _ d s)) (goes_on d s)
