-- ===== src/Server/Paths.antt =====
-- What `open` finds, against a relation that says where a path leads.
use eurali_os.Prelude.{
  ℕ, ◌≡◌, refl, sym, ◌∙◌, arith, subst, inl, inr, ◌⊎◌, Bool, false, List, [], ◌∷◌, if◌then◌else◌,
}
use eurali_os.State.{Str, Result, ok, err}
use eurali_os.Server.{
  FileSystem, Calls, Service, directory, file_readwrite, file_readonly, World, o_write, o_create,
  o_truncate, has_flag, error_notfound, error_not_dir,
}
use eurali_os.Server.Handlers.{start, open_file, open_from}

pub data Found : Type 0 where
  a_directory a_file : ℕ → Found

-- A path leads through directories to a directory or, where there is none of that name, to a file.
pub data Leads {F : Type 0} (files : FileSystem F) (fs : F) : ℕ → List Str → Found → Type 0 where
  to_directory :
      {dir subdir : ℕ} {key : Str}
      → files.get_dir fs dir key ≡ ok subdir
      → Leads files fs dir (key ∷ []) (a_directory subdir)
  to_file :
      {dir file e : ℕ} {key : Str}
      → files.get_dir fs dir key ≡ err e
      → files.get_file fs dir key ≡ ok file
      → Leads files fs dir (key ∷ []) (a_file file)
  below :
      {dir subdir : ℕ} {key next : Str} {rest : List Str} {found : Found}
      → files.get_dir fs dir key ≡ ok subdir
      → Leads files fs subdir (next ∷ rest) found
      → Leads files fs dir (key ∷ next ∷ rest) found

abbrev pub served : Bool → Found → ℕ → Service
served writes (a_directory d) h = directory d h writes
served writes (a_file f) h = if writes then file_readwrite f h else file_readonly f h

Result-cases : {A : Type 0} (r : Result A) → ((a : A) × (r ≡ ok a)) ⊎ ((e : ℕ) × (r ≡ err e))
Result-cases (ok a) = inl (a, refl)
Result-cases (err e) = inr (e, refl)

no_path :
    {F : Type 0} (files : FileSystem F) (fs : F) (dir : ℕ) (found : Found)
    → ¬ Leads files fs dir [] found
no_path files fs dir found l = elim l [ ]

ok-injective : {A : Type 0} (a b : A) → ok a ≡ ok b → a ≡ b
ok-injective a b e = cc

module _ {F : Type 0} (files : FileSystem F) {fs : F} {dir : ℕ} {key : Str} where
  no_last :
      {found : Found} {x y : ℕ}
      → files.get_dir fs dir key ≡ err x
      → files.get_file fs dir key ≡ err y
      → ¬ Leads files fs dir (key ∷ []) found
  no_last e e' (to_directory g) = cc
  no_last e e' (to_file g g') = cc

  no_below :
      {next : Str} {rest : List Str} {found : Found} {x : ℕ}
      → files.get_dir fs dir key ≡ err x
      → ¬ Leads files fs dir (key ∷ next ∷ rest) found
  no_below e (below g l) = cc

  below_only :
      {next : Str} {rest : List Str} {found : Found} {subdir : ℕ}
      → files.get_dir fs dir key ≡ ok subdir
      → Leads files fs dir (key ∷ next ∷ rest) found
      → Leads files fs subdir (next ∷ rest) found
  below_only e (below {subdir = d} {next = next} {rest = rest} {found = found} g l) =
      subst (λ d'. Leads files fs d' (next ∷ rest) found) (ok-injective _ _ (sym g ∙ e)) l

module _ {F C : Type 0} (files : FileSystem F) (calls : Calls C) where
  -- Either the path leads somewhere, and that is what is opened, or it leads nowhere, and nothing is.
  unfoldable pub Opens : ℕ → List Str → ℕ → World F C → Type 0
  Opens dir path flags w =
      ((found : Found) × (Leads files w.fs dir path found
          × (open_from files calls dir path flags w
              ≡ start files calls (served (has_flag flags o_write) found) w)))
      ⊎ (((found : Found) → ¬ Leads files w.fs dir path found)
          × ((open_from files calls dir path flags w ≡ (err error_notfound, w))
              ⊎ (open_from files calls dir path flags w ≡ (err error_not_dir, w))))

  open_last :
      (dir : ℕ) (key : Str) (flags : ℕ) (w : World F C)
      → has_flag flags o_create ≡ false
      → has_flag flags o_truncate ≡ false
      → Opens dir (key ∷ []) flags w
  unfolding Opens open_from open_file
  open_last dir key flags w no_create no_truncate =
      elim (Result-cases (files.get_dir w.fs dir key)) [
        | inl (d, e) ↦ inl (a_directory d, (to_directory e, ground arith))
        | inr (x, e) ↦ (elim (Result-cases (files.get_file w.fs dir key)) [
          | inl (f, e') ↦ inl (a_file f, (to_file e e', ground arith))
          | inr (y, e') ↦ inr (λ found. no_last files e e', inl (ground arith))
        ])
      ]

  -- The directory behind the first component, with what the rest of the path does there.
  open_below :
      (dir subdir : ℕ) (key next : Str) (rest : List Str) (flags : ℕ) (w : World F C)
      → files.get_dir w.fs dir key ≡ ok subdir
      → Opens subdir (next ∷ rest) flags w
      → Opens dir (key ∷ next ∷ rest) flags w
  unfolding Opens open_from
  open_below dir subdir key next rest flags w e opens =
      let step : open_from files calls dir (key ∷ next ∷ rest) flags w
          ≡ open_from files calls subdir (next ∷ rest) flags w =
        ground arith in
      elim opens [
        | inl (found, (leads, runs)) ↦ inl (found, (below e leads, step ∙ runs))
        | inr (nowhere, answer) ↦ inr (
          λ found l. nowhere found (below_only files e l),
          elim answer [ inl r ↦ inl (step ∙ r) | inr r ↦ inr (step ∙ r) ],
        )
      ]

  not_below :
      (dir x : ℕ) (key next : Str) (rest : List Str) (flags : ℕ) (w : World F C)
      → files.get_dir w.fs dir key ≡ err x
      → Opens dir (key ∷ next ∷ rest) flags w
  unfolding Opens open_from
  not_below dir x key next rest flags w e = inr (
    λ found. no_below files e,
    elim (Result-cases (files.get_file w.fs dir key)) [
      | inl (f, e') ↦ inr (ground arith)
      | inr (y, e') ↦ inl (ground arith)
    ],
  )

  -- `open` without the flags for creation and truncation: where the path leads to a directory or a
  -- file, it starts the thread that serves it, for writing only with that flag; where the path leads
  -- nowhere, it returns NOTFOUND or NOT_DIR and changes nothing.
  pub open_from-Leads :
      (dir : ℕ) (path : List Str) (flags : ℕ) (w : World F C)
      → has_flag flags o_create ≡ false
      → has_flag flags o_truncate ≡ false
      → Opens dir path flags w
  unfolding Opens open_from
  open_from-Leads dir [] flags w no_create no_truncate = inr (no_path files w.fs dir, inl refl)
  open_from-Leads dir (key ∷ []) flags w no_create no_truncate =
      open_last dir key flags w no_create no_truncate
  open_from-Leads dir (key ∷ next ∷ rest) flags w no_create no_truncate =
      elim (Result-cases (files.get_dir w.fs dir key)) [
        | inl (d, e) ↦
            open_below dir d key next rest flags w e
              (open_from-Leads d (next ∷ rest) flags w no_create no_truncate)
        | inr (x, e) ↦ not_below dir x key next rest flags w e
      ]
