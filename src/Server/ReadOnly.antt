-- ===== src/Server/ReadOnly.antt =====
-- Threads that were opened for reading change no file and no directory, nor does any thread that they
-- start.
use mathlib.Core.Path.{subst}
use mathlib.Core.Option.{some-injective}
use eurali_os.Prelude.{
  ℕ, zero, suc, ◌≡◌, refl, sym, ◌∙◌, arith, Bool, true, false, Bool-cases, inl, inr, Option, none,
  some, List, [], ◌∷◌, get_elem?, bit_and, ◌==◌, if◌then◌else◌,
}
use eurali_os.State.{Str, Result, ok, err}
use eurali_os.Std.{Message, short, long, value, memory_handle, comm_handle, error}
use eurali_os.Server.{
  FileSystem, Calls, Service, directory, file_readwrite, file_readonly, World, o_read, o_write,
  has_flag, msg_delete, msg_mkdir, msg_open, msg_query, msg_read, trim_slashes, open_flags_mask,
  o_create, error_notfound, msg_comm_handle, msg_error, error_not_dir, msg_error_invalid_utf8,
}
use eurali_os.Server.Handlers.{
  start, open_file, create_file, open_from, read_file, handle_file_readonly, with_path, open_entry,
  query_directory, handle_directory, serve, reply,
}

abbrev pub IsReadOnly : Service → Type 0
IsReadOnly (directory d h readwrite) = readwrite ≡ false
IsReadOnly (file_readwrite f h) = ⊥
IsReadOnly (file_readonly f h) = Unit

abbrev pub AreReadOnly : List Service → Type 0
AreReadOnly [] = Unit
AreReadOnly (s ∷ ss) = IsReadOnly s × AreReadOnly ss

AreReadOnly-get :
    (ss : List Service) (i : ℕ) (s : Service)
    → AreReadOnly ss
    → get_elem? ss i ≡ some s
    → IsReadOnly s
AreReadOnly-get [] i s h e = cc
AreReadOnly-get (x ∷ ss) zero s h e = subst IsReadOnly (some-injective _ _ e) h.0
AreReadOnly-get (x ∷ ss) (suc i) s h e = AreReadOnly-get ss i s h.1 e

module _ {F C : Type 0} (files : FileSystem F) (calls : Calls C) where
  -- Between two worlds no file and no directory changed, and only threads that read were started.
  record Quiet (w w' : World F C) : Type 0 where
    same_files : w'.fs ≡ w.fs
    readers : AreReadOnly w.started → AreReadOnly w'.started

  same : (w w' : World F C) → w'.fs ≡ w.fs → w'.started ≡ w.started → Quiet w w'
  same w w' e s = record { same_files = e; readers = λ h. subst AreReadOnly (sym s) h }

  Quiet-reply : (m : Message) (w w' : World F C) → Quiet w w' → Quiet w (reply files calls m w')
  Quiet-reply m w w' q = record { same_files = q.same_files; readers = q.readers }

  start-Quiet :
      (service : ℕ → Service) (w : World F C)
      → ((h : ℕ) → IsReadOnly (service h))
      → Quiet w (start files calls service w).1
  unfolding start
  start-Quiet service w ro = by_pair (calls.new_rendezvous w.process)
    where
      by_spawn :
          (h c : ℕ) (r : Result (Unit {0}) × C)
          → Quiet w
              (elim (r.0) as (λ _. Result ℕ × World F C) [
                | err e ↦ (err e, record w { process = r.1 })
                | ok _ ↦ (ok c, record w { process = r.1; started = service h ∷ w.started })
              ]).1
      by_spawn h c (err e, p) = same w _ refl refl
      by_spawn h c (ok _, p) = record { same_files = refl; readers = λ all. (ro h, all) }

      by_pair :
          (r : Result (ℕ × ℕ) × C)
          → Quiet w
              (elim (r.0) as (λ _. Result ℕ × World F C) [
                | err e ↦ (err e, record w { process = r.1 })
                | ok (h, c) ↦ (elim (calls.spawn r.1).0 as (λ _. Result ℕ × World F C) [
                  | err e ↦ (err e, record w { process = (calls.spawn r.1).1 })
                  | ok _ ↦ (
                    ok c,
                    record w { process = (calls.spawn r.1).1; started = service h ∷ w.started },
                  )
                ])
              ]).1
      by_pair (err e, p) = same w _ refl refl
      by_pair (ok (h, c), p) = by_spawn h c (calls.spawn p)

  -- A component with more behind it.
  below-Quiet :
      (dir : ℕ) (key : Str) (rest : List Str) (w : World F C)
      → ((d : ℕ) → Quiet w (open_from files calls d rest o_read w).1)
      → (r : Result ℕ)
      → Quiet w
          (elim r as (λ _. Result ℕ × World F C) [
            | ok subdir ↦ open_from files calls subdir rest o_read w
            | err _ ↦ (elim (files.get_file w.fs dir key) as (λ _. Result ℕ × World F C) [
              | ok file ↦ (err error_not_dir, w)
              | err _ ↦ (err error_notfound, w)
            ])
          ]).1
  below-Quiet dir key rest w deeper (ok subdir) = deeper subdir
  below-Quiet dir key rest w deeper (err e) = by_file (files.get_file w.fs dir key)
    where
      by_file :
          (r : Result ℕ)
          → Quiet w
              (elim r as (λ _. Result ℕ × World F C) [
                | ok file ↦ (err error_not_dir, w)
                | err _ ↦ (err error_notfound, w)
              ]).1
      by_file (ok f) = same w w refl refl
      by_file (err e') = same w w refl refl

  open_from-Quiet :
      (dir : ℕ) (path : List Str) (w : World F C)
      → Quiet w (open_from files calls dir path o_read w).1
  unfolding open_from
  open_from-Quiet dir [] w = same w w refl refl
  open_from-Quiet dir (key ∷ []) w = by_dir (files.get_dir w.fs dir key)
    where
      by_file :
          (r : Result ℕ)
          → Quiet w
              (elim r as (λ _. Result ℕ × World F C) [
                | ok file ↦ open_file files calls file o_read w
                | err _ ↦
                    (if has_flag o_read o_create
                      then create_file files calls dir key w
                      else (err error_notfound, w))
              ]).1
      by_file (ok file) = start-Quiet (λ h. file_readonly file h) w (λ h. tt)
      by_file (err e) = same w w refl refl

      by_dir :
          (r : Result ℕ)
          → Quiet w
              (elim r as (λ _. Result ℕ × World F C) [
                | ok subdir ↦
                    start files calls (λ h. directory subdir h (has_flag o_read o_write)) w
                | err _ ↦ (elim (files.get_file w.fs dir key) as (λ _. Result ℕ × World F C) [
                  | ok file ↦ open_file files calls file o_read w
                  | err _ ↦
                      (if has_flag o_read o_create
                        then create_file files calls dir key w
                        else (err error_notfound, w))
                ])
              ]).1
      by_dir (ok subdir) = start-Quiet (λ h. directory subdir h false) w (λ h. refl)
      by_dir (err e) = by_file (files.get_file w.fs dir key)
  open_from-Quiet dir (key ∷ next ∷ rest) w =
      below-Quiet dir key (next ∷ rest) w (λ d. open_from-Quiet d (next ∷ rest) w)
        (files.get_dir w.fs dir key)

  open_entry-Quiet :
      (dir flags : ℕ) (path : Str) (w : World F C)
      → Quiet w (open_entry files calls dir false flags path w)
  unfolding open_entry
  open_entry-Quiet dir flags path w = elim (Bool-cases (flags == o_read)) [
    | inl reading ↦ rw reading (
        answered (open_from files calls dir (calls.components (trim_slashes path)) o_read w)
          (open_from-Quiet dir (calls.components (trim_slashes path)) w))
    | inr other ↦ rw other (same w _ refl refl)
  ]
    where
      answered :
          (r : Result ℕ × World F C)
          → Quiet w r.1
          → Quiet w (elim (r.0) as (λ _. World F C) [
            | ok handle ↦
                reply files calls (long msg_comm_handle (comm_handle handle) (value 0)) r.1
            | err e ↦ reply files calls (short msg_error e 0) r.1
          ])
      answered (ok h, w') q = Quiet-reply _ w w' q
      answered (err e, w') q = Quiet-reply _ w w' q

  -- The outcome of a handler, where it does not panic.
  abbrev Outcome : World F C → Option (World F C) → Type 0
  Outcome w o = (w' : World F C) → o ≡ some w' → Quiet w w'

  gives : (w w' : World F C) → Quiet w w' → Outcome w (some w')
  gives w w' q x e = subst (Quiet w) (some-injective _ _ e) q

  panics : (w : World F C) → Outcome w none
  panics w x e = cc

  if-Outcome :
      (b : Bool) (w : World F C) (o o' : Option (World F C))
      → Outcome w o
      → Outcome w o'
      → Outcome w (if b then o else o')
  if-Outcome true w o o' h h' = h
  if-Outcome false w o o' h h' = h'

  read_file-Outcome :
      (file first wanted : ℕ) (w : World F C)
      → Outcome w (read_file files calls file first wanted w)
  unfolding read_file
  read_file-Outcome file first wanted w w' e = same w w' (ground arith) (ground arith)

  with_path-Quiet :
      (handle length : ℕ) (f : Str → World F C → World F C) (w : World F C)
      → ((path : Str) → Quiet w (f path w))
      → Quiet w (with_path files calls handle length f w)
  with_path-Quiet handle length f w h =
      by_text (calls.from_utf8 (calls.as_slice w.process handle length))
    where
      by_text :
          (r : Option Str)
          → Quiet w (elim r as (λ _. World F C) [
            | none ↦ reply files calls (short msg_error_invalid_utf8 0 0) w
            | some path ↦ f path w
          ])
      by_text none = same w _ refl refl
      by_text (some path) = h path

  query_directory-Outcome :
      (dir : ℕ) (w : World F C) → Outcome w (query_directory files calls dir w)
  unfolding query_directory
  query_directory-Outcome dir w w' e = same w w' (ground arith) (ground arith)

  directory-Outcome :
      (dir : ℕ) (m : Message) (w : World F C)
      → Outcome w (handle_directory files calls (λ m' w'. w') dir false m w)
  unfolding handle_directory
  directory-Outcome dir (short tag a b) w =
      if-Outcome (tag == msg_query) w _ _ (query_directory-Outcome dir w)
        (gives w w (same w w refl refl))
  directory-Outcome dir (long tag (value length) (memory_handle handle)) w =
      if-Outcome (tag == msg_delete) w _ _ (gives w _ (same w _ refl refl)) (
        if-Outcome (tag == msg_mkdir) w _ _ (gives w _ (same w _ refl refl)) (
          if-Outcome (bit_and tag msg_open == 0) w _ _ (gives w _ (same w _ refl refl)) (
            gives w _ (
              with_path-Quiet handle length
                (open_entry files calls dir false (bit_and tag open_flags_mask)) w
                (λ path. open_entry-Quiet dir (bit_and tag open_flags_mask) path w)))))
  directory-Outcome dir (long tag (value length) (value v)) w = gives w _ (same w _ refl refl)
  directory-Outcome dir (long tag (value length) (comm_handle v)) w = gives w _ (same w _ refl refl)
  directory-Outcome dir (long tag (value length) (error v)) w = gives w _ (same w _ refl refl)
  directory-Outcome dir (long tag (memory_handle x) d3) w = gives w _ (same w _ refl refl)
  directory-Outcome dir (long tag (comm_handle x) d3) w = gives w _ (same w _ refl refl)
  directory-Outcome dir (long tag (error x) d3) w = gives w _ (same w _ refl refl)

  serve-Outcome :
      (s : Service) (m : Message) (w : World F C)
      → IsReadOnly s
      → Outcome w (serve files calls s m w)
  unfolding serve handle_file_readonly
  serve-Outcome (directory d h true) m w ro = absurd (cc ro)
  serve-Outcome (directory d h false) m w ro = directory-Outcome d m w
  serve-Outcome (file_readwrite f h) m w ro = absurd ro
  serve-Outcome (file_readonly f h) (short tag a b) w ro =
      if-Outcome (tag == msg_read) w _ _ (read_file-Outcome f a b w)
        (gives w w (same w w refl refl))
  serve-Outcome (file_readonly f h) (long tag a b) w ro = gives w w (same w w refl refl)

  -- A step of the server: some thread that was started serves some message.
  pub data Step : World F C → World F C → Type 0 where
    serves :
        {w w' : World F C} (i : ℕ) (s : Service) (m : Message)
        → get_elem? w.started i ≡ some s
        → serve files calls s m w ≡ some w'
        → Step w w'

  pub data Run (w : World F C) : World F C → Type 0 where
    here : Run w w
    then_one : {w' w'' : World F C} → Run w w' → Step w' w'' → Run w w''

  Step-Quiet : {w w' : World F C} → AreReadOnly w.started → Step w w' → Quiet w w'
  Step-Quiet {w = w} {w' = w'} h (serves i s m e f) =
      serve-Outcome s m w (AreReadOnly-get w.started i s h e) w' f

  -- As long as only threads that were opened for reading run, whatever messages their clients send and
  -- in whatever order the threads serve them, no file and no directory changes, and the threads that
  -- they start read only too.
  pub Run-AreReadOnly :
      {w w' : World F C}
      → AreReadOnly w.started
      → Run w w'
      → (w'.fs ≡ w.fs) × AreReadOnly w'.started
  Run-AreReadOnly h here = (refl, h)
  Run-AreReadOnly h (then_one r st) =
      let (e, h') = Run-AreReadOnly h r in
      let q = Step-Quiet h' st in (q.same_files ∙ e, q.readers h')
