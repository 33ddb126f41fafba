-- ===== src/Std/Directories.antt =====
-- euralios_std/src/fs.rs: what a program asks of a directory: `remove_file`, `create_dir`, `File::query` and
-- `read_dir`. `none` is a panic.
use mathlib.Core.List.{map}
use eurali_os.Prelude.{
  ℕ, Option, none, some, Bool, true, false, List, [], ◌∷◌, ◌++◌, ◌==◌, if◌then◌else◌, length, codes,
}
use eurali_os.State.{Str, Result, ok, err}
use eurali_os.Std.{value, memory_handle, Values, sent, refused, rcall}
use eurali_os.Server.{msg_json, msg_query, msg_ok, o_read, msg_delete, msg_mkdir}
use eurali_os.Ramdisk.{error_param}
use eurali_os.Std.Files.{
  close_handle, drop_part, drop_message, from_u8_slice, open_path, no_options, open_flags,
}

-- A directory entry, with `Metadata::is_dir`.
pub record DirEntry : Type 0 where
  pub name : Str
  pub is_dir : Bool

-- `entries.pop()` of a list that is kept from its end: what the iterator gives, in order.
unfoldable pub listed : List DirEntry → List DirEntry → List DirEntry
listed [] given = given
listed (e ∷ es) given = listed es (e ∷ given)

module _ {S : Type 0} (syscall : Values → S → Values × S) (put : ℕ → List ℕ → S → S)
    (as_slice : S → ℕ → ℕ → List ℕ) (address : List ℕ → ℕ) where
  -- `File::rcall` with a name, and what `remove_file` and `create_dir` make of the answer.
  unfoldable pub ask_directory : ℕ → ℕ → List ℕ → S → Option (Result (Unit {0}) × S)
  unfolding from_u8_slice drop_part drop_message close_handle
  ask_directory handle tag bytes s = elim (from_u8_slice syscall put as_slice address bytes s) [
    | none ↦ none
    | some (mem, s') ↦
        (let (answer, s'') =
            rcall syscall handle tag (value (length bytes)) (memory_handle mem) none s' in
          some (elim answer [
            | sent (reply, d2, d3) ↦ (
              if reply == msg_ok then ok tt else err error_param,
              close_handle syscall put as_slice address handle (
                  drop_part syscall put as_slice address d3
                    (drop_part syscall put as_slice address d2 s'')),
            )
            | refused e m ↦ (
              err e,
              close_handle syscall put as_slice address handle
                  (drop_message syscall put as_slice address m s''),
            )
          ]))
  ]

  -- A file or directory of a directory: `parent` and `file_name` are those of the path.
  unfoldable pub ask_parent :
      ℕ → ℕ → Option (List ℕ) → Option (List ℕ) → S → Option (Result (Unit {0}) × S)
  unfolding open_path ask_directory
  ask_parent flags tag (some parent) (some file_name) s =
      elim (open_path syscall put as_slice address parent flags s) [
        | none ↦ none
        | some (err e, s') ↦ some (err e, s')
        | some (ok handle, s') ↦ ask_directory handle tag file_name s'
      ]
  ask_parent flags tag parent file_name s = some (err error_param, s)

  unfoldable pub remove_file :
      Option (List ℕ) → Option (List ℕ) → S → Option (Result (Unit {0}) × S)
  unfolding ask_parent
  remove_file parent file_name s = ask_parent o_read msg_delete parent file_name s

  unfoldable pub create_dir : Option (List ℕ) → Option (List ℕ) → S → Option (Result (Unit {0}) × S)
  unfolding ask_parent open_flags
  create_dir parent file_name s =
      ask_parent (open_flags (record no_options { write = true })) msg_mkdir parent file_name s

-- The crate serde_json reads text as a `Json`; `names` are the names in an array of objects, with `_bad_`
-- where there is none, and `none` where there is no array.
module _ {S Json : Type 0} (syscall : Values → S → Values × S) (put : ℕ → List ℕ → S → S)
    (as_slice : S → ℕ → ℕ → List ℕ) (address : List ℕ → ℕ) (from_utf8 : List ℕ → Option Str)
    (from_str : Str → Option Json) (names : Json → Str → Option (List Str)) where
  -- `File::query`
  unfoldable pub query : ℕ → S → Result Json × S
  unfolding drop_part drop_message
  query handle s =
      let (answer, s') = rcall syscall handle msg_query (value 0) (value 0) none s in
      elim answer [
        | sent (tag, value length, memory_handle mem) ↦
            (let s'' = drop_part syscall put as_slice address (memory_handle mem) s' in
              let parsed : Result Json = elim (from_utf8 (as_slice s' mem length)) [
                | none ↦ err error_param
                | some text ↦ (elim (from_str text) [ none ↦ err error_param | some v ↦ ok v ])
              ] in
              (if tag == msg_json then parsed else err error_param, s''))
        | sent (tag, d2, d3) ↦ (
          err error_param,
          drop_part syscall put as_slice address d3 (drop_part syscall put as_slice address d2 s'),
        )
        | refused e m ↦ (err error_param, drop_message syscall put as_slice address m s')
      ]

  abbrev pub entries_of : Option (List Str) → Bool → List DirEntry
  entries_of none dirs = []
  entries_of (some ns) dirs = map (λ n. record { name = n; is_dir = dirs }) ns

  -- The entries of `read_dir`, as they stand in the vector.
  unfoldable pub read_dir : List ℕ → S → Option (Result (List DirEntry) × S)
  unfolding open_path query close_handle
  read_dir path s = elim (open_path syscall put as_slice address path o_read s) [
    | none ↦ none
    | some (err e, s') ↦ some (err e, s')
    | some (ok handle, s') ↦
        (let (found, s'') = query handle s' in
          some (elim found [
            | err e ↦ (err e, close_handle syscall put as_slice address handle s'')
            | ok v ↦ (
              ok (
                  entries_of (names v (codes "files")) false
                  ++ entries_of (names v (codes "subdirs")) true),
              close_handle syscall put as_slice address handle s'',
            )
          ]))
  ]
