-- ===== src/Mounts.antt =====
-- kernel/src/vfs.rs: the table of mount points. The table is a list of paths with the numbers of
-- their rendezvous. A `str` is its list of characters; `str::len` and `as_bytes` are those of its
-- UTF-8 form.
pub mod Paths
pub mod Open
pub mod Change
use eurali_os.Prelude.{
  ℕ, zero, suc, ◌+◌, ◌-◌, ◌/◌, ◌%◌, ltb, leb, Option, none, some, Bool, true, false, not, ◌&&◌,
  ◌||◌, List, [], ◌∷◌, ◌++◌, length, get_elem?, set, ◌==◌, if◌then◌else◌,
}
use eurali_os.State.{Str}

abbrev pub Mounts : Type 0
Mounts = List (Str × ℕ)

-- `char::len_utf8` and `char::encode_utf8`
unfoldable pub encode_utf8 : ℕ → List ℕ
encode_utf8 c =
    if ltb c 0x80
    then c ∷ []
    else if ltb c 0x800
    then (0xC0 + c / 0x40) ∷ (0x80 + c % 0x40) ∷ []
    else if ltb c 0x10000
    then (0xE0 + c / 0x1000) ∷ (0x80 + c / 0x40 % 0x40) ∷ (0x80 + c % 0x40) ∷ []
    else (0xF0 + c / 0x40000)
      ∷ (0x80 + c / 0x1000 % 0x40)
      ∷ (0x80 + c / 0x40 % 0x40)
      ∷ (0x80 + c % 0x40)
      ∷ []

unfoldable pub as_bytes : Str → List ℕ
as_bytes [] = []
as_bytes (c ∷ s) = encode_utf8 c ++ as_bytes s

abbrev pub byte_len : Str → ℕ
byte_len s = length (as_bytes s)

unfoldable pub starts_with : Str → Str → Bool
starts_with s [] = true
starts_with [] (d ∷ p) = false
starts_with (c ∷ s) (d ∷ p) = c == d && starts_with s p

unfoldable pub str_eq : Str → Str → Bool
str_eq [] [] = true
str_eq [] (d ∷ t) = false
str_eq (c ∷ s) [] = false
str_eq (c ∷ s) (d ∷ t) = c == d && str_eq s t

-- `char::is_whitespace`, the Unicode property White_Space.
unfoldable pub is_whitespace : ℕ → Bool
is_whitespace c =
    (leb 9 c && leb c 13)
    || c == 0x20
    || c == 0x85
    || c == 0xA0
    || c == 0x1680
    || (leb 0x2000 c && leb c 0x200A)
    || c == 0x2028
    || c == 0x2029
    || c == 0x202F
    || c == 0x205F
    || c == 0x3000

unfoldable pub trim_start : (ℕ → Bool) → Str → Str
trim_start p [] = []
trim_start p (c ∷ s) = if p c then trim_start p s else c ∷ s

abbrev keep_head : Bool → ℕ → Str → Str
keep_head drop c [] = if drop then [] else c ∷ []
keep_head drop c (d ∷ s) = c ∷ d ∷ s

unfoldable pub trim_end : (ℕ → Bool) → Str → Str
trim_end p [] = []
trim_end p (c ∷ s) = keep_head (p c) c (trim_end p s)

-- `path.trim().trim_end_matches('/')`
unfoldable pub normalise : Str → Str
unfolding is_whitespace trim_start trim_end
normalise path = trim_end (λ c. c == b'/') (trim_end is_whitespace (trim_start is_whitespace path))

unfoldable pub mount : Mounts → Str → ℕ → Mounts
mount ms path r = ms ++ (normalise path, r) ∷ []

-- `iter().position(|mount_path| mount_path.0 == path)`
unfoldable pub position : Str → Mounts → Option ℕ
position path [] = none
position path ((p, r) ∷ ms) =
    if str_eq p path
    then some 0
    else (elim (position path ms) [ none ↦ none | some i ↦ some (suc i) ])

-- The last element, and all but it.
unfoldable pub split_last : (Str × ℕ) → Mounts → Mounts × (Str × ℕ)
split_last m [] = ([], m)
split_last m (n ∷ ms) = (m ∷ (split_last n ms).0, (split_last n ms).1)

-- `Vec::swap_remove`: the last element takes the place of the one removed.
unfoldable pub swap_remove : Mounts → ℕ → Mounts
unfolding split_last
swap_remove [] i = []
swap_remove (m ∷ ms) i = set (split_last m ms).0 i (split_last m ms).1

-- `none` is `Err(())`.
unfoldable pub umount : Mounts → Str → Option Mounts
unfolding position swap_remove
umount ms path = elim (position path ms) [ none ↦ none | some i ↦ some (swap_remove ms i) ]

-- The tests of `open` on one mount point. The byte index is in range, since it is below the length.
unfoldable pub covers : Str → Str → Bool
covers path m =
    starts_with path m
    && (not (ltb (byte_len m) (byte_len path))
        || (elim (get_elem? (as_bytes path) (byte_len m)) [ none ↦ false | some b ↦ b == b'/' ]))

-- `found` after the mount point `m` at index `i`.
unfoldable pub longer : ℕ → Str → Option (ℕ × ℕ) → Option (ℕ × ℕ)
longer i m none = some (i, byte_len m)
longer i m (some (j, maxlen)) =
    if ltb maxlen (byte_len m) then some (i, byte_len m) else some (j, maxlen)

unfoldable pub scan : Str → ℕ → Option (ℕ × ℕ) → Mounts → Option (ℕ × ℕ)
unfolding covers longer
scan path i found [] = found
scan path i found ((m, r) ∷ ms) =
    scan path (i + 1) (if covers path m then longer i m found else found) ms

unfoldable pub open_mount : Mounts → Str → Option (ℕ × ℕ)
unfolding scan
open_mount ms path = elim (scan path 0 none ms) [
  | none ↦ none
  | some (ind, match_len) ↦ (elim (get_elem? ms ind) [
    | none ↦ none
    | some (m, r) ↦ some (r, match_len)
  ])
]

json_items : Mounts → Str
json_items [] = []
json_items ((p, r) ∷ ms) = b'"' ∷ (p ++ (b'"' ∷ b',' ∷ json_items ms))

unfoldable pub to_json : Mounts → Str
unfolding json_items
to_json ms = b'[' ∷ (json_items ms ++ (b']' ∷ []))
