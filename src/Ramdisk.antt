-- ===== src/Ramdisk.antt =====
-- ramdisk/src/main.rs: files as bytes and directories as maps from names to shared objects. It fills
-- the interface of Server.antt.
pub mod Contents
use eurali_os.Prelude.{
  ℕ, zero, suc, ◌+◌, ◌-◌, ◌%◌, ◌^◌, Option, none, some, Bool, true, false, List, [], ◌∷◌, ◌++◌,
  ◌==◌, if◌then◌else◌, ltb, leb, length, take, drop, update, codes, same_codes,
}
use eurali_os.State.{Str, Result, ok, err}
use eurali_os.Server.{FileSystem, error_notfound, error_no_data, trim_slashes}

-- A `BTreeMap` from names: its entries in the order of the names.
abbrev pub Names : Type 0
Names = List (Str × ℕ)

-- An `Arc<RwLock<Directory>>` and an `Arc<RwLock<File>>` are numbers.
pub record Directory : Type 0 where
  pub subdirs : Names
  pub files : Names

pub record Disk : Type 0 where
  pub directories : ℕ → Directory
  pub directory_count : ℕ
  pub contents : ℕ → List ℕ
  pub file_count : ℕ

abbrev pub error_param : ℕ
error_param = 5

abbrev pub error_exists : ℕ
error_exists = 13

-- The order of strings.
unfoldable pub before : Str → Str → Bool
before [] [] = false
before [] (y ∷ ys) = true
before (x ∷ xs) [] = false
before (x ∷ xs) (y ∷ ys) = if x == y then before xs ys else ltb x y

unfoldable pub get : Str → Names → Option ℕ
unfolding same_codes
get name [] = none
get name ((n, i) ∷ rest) = if same_codes name n then some i else get name rest

unfoldable pub insert : Str → ℕ → Names → Names
unfolding same_codes before
insert name i [] = (name, i) ∷ []
insert name i ((n, j) ∷ rest) =
    if same_codes name n
    then (name, i) ∷ rest
    else if before name n
    then (name, i) ∷ ((n, j) ∷ rest)
    else (n, j) ∷ insert name i rest

unfoldable pub remove : Str → Names → Names
unfolding same_codes
remove name [] = []
remove name ((n, i) ∷ rest) = if same_codes name n then rest else (n, i) ∷ remove name rest

unfoldable pub contains_separator : Str → Bool
contains_separator [] = false
contains_separator (c ∷ s) = if c == b'/' then true else contains_separator s

-- `FileLike for File`, on the bytes of a file. `start + buffer.len()` is a sum of machine words.
unfoldable pub read_bytes : List ℕ → ℕ → ℕ → Result (List ℕ)
read_bytes bytes start buffer_len =
    let sum = (start + buffer_len) % 2 ^ 64 in
    let end = if ltb sum (length bytes) then sum else length bytes in
    if leb end start then err error_no_data else ok (take (end - start) (drop start bytes))

unfoldable pub write_bytes : ℕ → ℕ → List ℕ → Disk → Result ℕ × Disk
write_bytes file start buffer d =
    (ok (length buffer), record d { contents = update d.contents file (d.contents file ++ buffer) })

unfoldable pub clear_bytes : ℕ → Disk → Result (Unit {0}) × Disk
clear_bytes file d = (ok tt, record d { contents = update d.contents file [] })

abbrev pub found : Option ℕ → Result ℕ
found none = err error_notfound
found (some i) = ok i

unfoldable pub get_dir : Disk → ℕ → Str → Result ℕ
unfolding get
get_dir d dir name = found (get name (d.directories dir).subdirs)

unfoldable pub get_file : Disk → ℕ → Str → Result ℕ
unfolding get
get_file d dir name = found (get name (d.directories dir).files)

-- The two lists of `query`, with a comma between entries.
unfoldable pub name_list : Names → Str
name_list [] = []
name_list ((n, i) ∷ []) = codes "{\"name\":\"" ++ (n ++ codes "\"}")
name_list ((n, i) ∷ next ∷ rest) =
    codes "{\"name\":\"" ++ (n ++ (codes "\"}" ++ (codes ", " ++ name_list (next ∷ rest))))

-- `format!` of the tags `message::OPEN` and `message::QUERY`.
unfoldable pub query : Disk → ℕ → Str
unfolding name_list
query d dir =
    let directory = d.directories dir in
    codes
      "{\n\"short\": \"Ramdisk directory\",\n\"messages\": [{\"name\": \"open\",\n                 \"tag\": "
    ++ (codes "16"
        ++ (codes "},\n               {\"name\": \"query\",\n                 \"tag\": "
            ++ (codes "7"
                ++ (codes "}],\n\"subdirs\": ["
                    ++ (name_list directory.subdirs
                        ++ (codes "],\n\"files\": ["
                            ++ (name_list directory.files ++ codes "]}")))))))

unfoldable pub make_dir : ℕ → Str → Disk → Result ℕ × Disk
unfolding get insert contains_separator
make_dir dir path d =
    let directory = d.directories dir in
    let new_dir = d.directory_count in
    let entered = record directory { subdirs = insert path new_dir directory.subdirs } in
    let nothing : Directory = record { subdirs = []; files = [] } in
    if contains_separator path then (err error_param, d) else (elim (get path directory.subdirs) [
      | some _ ↦ (err error_exists, d)
      | none ↦ (
        ok new_dir,
        record d {
          directories = update (update d.directories new_dir nothing) dir entered;
          directory_count = new_dir + 1;
        },
      )
    ])

unfoldable pub make_file : ℕ → Str → Disk → Result ℕ × Disk
unfolding insert
make_file dir name d =
    let directory = d.directories dir in
    let new_file = d.file_count in
    (
      ok new_file,
      record d {
        directories =
            update d.directories dir
              (record directory { files = insert name new_file directory.files });
        contents = update d.contents new_file [];
        file_count = new_file + 1;
      },
    )

unfoldable pub remove_file : ℕ → Str → Disk → Result ℕ × Disk
unfolding get remove trim_slashes
remove_file dir path d =
    let directory = d.directories dir in
    let name = trim_slashes path in
    elim (get name directory.files) [
      | none ↦ (err error_notfound, d)
      | some file ↦ (
        ok file,
        record d {
          directories =
              update d.directories dir (record directory { files = remove name directory.files });
        },
      )
    ]

abbrev pub ramdisk : FileSystem Disk
ramdisk = record {
  get_dir = get_dir;
  get_file = get_file;
  query = query;
  make_dir = make_dir;
  make_file = make_file;
  remove_file = remove_file;
  len = λ d file. length (d.contents file);
  read = λ d file start buffer_len. read_bytes (d.contents file) start buffer_len;
  write = write_bytes;
  clear = clear_bytes;
}
