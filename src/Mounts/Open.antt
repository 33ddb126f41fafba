-- ===== src/Mounts/Open.antt =====
-- `VFS::open` finds the longest mount point above a path.
use native.Mathlib.Nat.{zero-add}
use eurali_os.Prelude.{
  ℕ, zero, suc, ◌+◌, ◌≤◌, ◌≡◌, refl, ap, ◌∙◌, ◌⊎◌, inl, inr, arith, true, Option, none, some, [],
  ◌∷◌, get_elem?, if◌then◌else◌, subst,
}
use eurali_os.State.{Str}
use eurali_os.Mounts.{Mounts, byte_len, covers, longer, scan, open_mount}
use eurali_os.Mounts.Paths.{IsUnder, covers→IsUnder, IsUnder→covers}

-- The result so far is of length `n` at least.
abbrev AtLeast : ℕ → Option (ℕ × ℕ) → Type 0
AtLeast n none = ⊥
AtLeast n (some (i, l)) = n ≤ l

next_found : Str → ℕ → Option (ℕ × ℕ) → Str → Option (ℕ × ℕ)
unfolding longer
next_found path i found m = if covers path m then longer i m found else found

next_found-AtLeast :
    (path : Str) (i n : ℕ) (found : Option (ℕ × ℕ)) (m : Str)
    → AtLeast n found
    → AtLeast n (next_found path i found m)
unfolding next_found
next_found-AtLeast path i n none m h = absurd h
next_found-AtLeast path i n (some (j, l)) m h = ground arith

next_found-covered :
    (path : Str) (i : ℕ) (found : Option (ℕ × ℕ)) (m : Str)
    → covers path m ≡ true
    → AtLeast (byte_len m) (next_found path i found m)
unfolding next_found
next_found-covered path i none m h = rw h (omega arith)
next_found-covered path i (some (j, l)) m h = ground arith

first-covered :
    (path : Str) (i : ℕ) (found : Option (ℕ × ℕ)) (n m : Str) (q r : ℕ)
    → ◌≡◌ {A = Option (Str × ℕ)} (some (n, q)) (some (m, r))
    → covers path m ≡ true
    → AtLeast (byte_len m) (next_found path i found n)
first-covered path i found n m q r e h =
    let same : m ≡ n = cc in
    rw same (next_found-covered path i found n (subst (λ x. covers path x ≡ true) same h))

next_found-Comes :
    (path : Str) (i : ℕ) (found : Option (ℕ × ℕ)) (m : Str)
    → (next_found path i found m ≡ found)
      ⊎ ((next_found path i found m ≡ some (i, byte_len m)) × (covers path m ≡ true))
unfolding next_found
next_found-Comes path i none m = ground arith
next_found-Comes path i (some (j, l)) m = ground arith

-- A result stays or grows.
scan-AtLeast :
    (path : Str) (i n : ℕ) (found : Option (ℕ × ℕ)) (ms : Mounts)
    → AtLeast n found
    → AtLeast n (scan path i found ms)
unfolding scan next_found
scan-AtLeast path i n found [] h = h
scan-AtLeast path i n found ((m, r) ∷ ms) h =
    scan-AtLeast path (i + 1) n (next_found path i found m) ms
      (next_found-AtLeast path i n found m h)

scan-covered :
    (path : Str) (i : ℕ) (found : Option (ℕ × ℕ)) (ms : Mounts) (j : ℕ) (m : Str) (r : ℕ)
    → get_elem? ms j ≡ some (m, r)
    → covers path m ≡ true
    → AtLeast (byte_len m) (scan path i found ms)
unfolding scan next_found
scan-covered path i found [] j m r e h = cc
scan-covered path i found ((n, q) ∷ ms) zero m r e h =
    scan-AtLeast path (i + 1) (byte_len m) (next_found path i found n) ms
      (first-covered path i found n m q r e h)
scan-covered path i found ((n, q) ∷ ms) (suc j) m r e h =
    scan-covered path (i + 1) (next_found path i found n) ms j m r e h

-- Where a result comes from: from before, or from a mount point of the list.
Comes : Str → ℕ → Option (ℕ × ℕ) → Mounts → Option (ℕ × ℕ) → Type 0
Comes path i found ms out =
    (out ≡ found)
    ⊎ ((j : ℕ) × (m : Str) × (r : ℕ) × (out ≡ some (i + j, byte_len m))
        × (get_elem? ms j ≡ some (m, r))
        × (covers path m ≡ true))

scan-Comes :
    (path : Str) (i : ℕ) (found : Option (ℕ × ℕ)) (ms : Mounts)
    → Comes path i found ms (scan path i found ms)
unfolding scan next_found Comes
scan-Comes path i found [] = inl refl
scan-Comes path i found ((n, q) ∷ ms) =
    elim (scan-Comes path (i + 1) (next_found path i found n) ms) [
      | inr (j, m, r, e, at_j, c) ↦
          inr (suc j, m, r, e ∙ ap (λ (x : ℕ). some (x, byte_len m)) (omega arith), at_j, c)
      | inl e ↦ elim (next_found-Comes path i found n) [
        | inl e' ↦ inl (e ∙ e')
        | inr (e', c) ↦
            inr (0, n, q, e ∙ e' ∙ ap (λ (x : ℕ). some (x, byte_len n)) (omega arith), refl, c)
      ]
    ]

-- What `open` promises. It fails exactly where no mount point is the path or a directory above it,
-- and otherwise returns such a mount point of the greatest length in bytes, with that length.
pub data Opens (ms : Mounts) (path : Str) : Option (ℕ × ℕ) → Type 0 where
  not_found :
      ((j : ℕ) (m : Str) (r : ℕ) → get_elem? ms j ≡ some (m, r) → ¬ IsUnder path m)
      → Opens ms path none
  found_at :
      (i : ℕ) (m : Str) (r : ℕ)
      → get_elem? ms i ≡ some (m, r)
      → IsUnder path m
      → ((j : ℕ) (m' : Str) (r' : ℕ)
          → get_elem? ms j ≡ some (m', r')
          → IsUnder path m'
          → byte_len m' ≤ byte_len m)
      → Opens ms path (some (r, byte_len m))

-- `open` returns the longest mount point that is the given path or a directory above it, with its
-- length in bytes; it fails only where there is none. A prefix that ends inside a path component,
-- such as `/dev` for `/device`, does not count.
pub open_mount-Opens : (ms : Mounts) (path : Str) → Opens ms path (open_mount ms path)
unfolding open_mount Comes
open_mount-Opens ms path = elim (scan-Comes path 0 none ms) [
  | inl e ↦
      rw (e, open_mount)
        (not_found (λ j m r at_j u.
          subst (AtLeast (byte_len m)) e
            (scan-covered path 0 none ms j m r at_j (IsUnder→covers path m u))))
  | inr (j, m, r, e, at_j, c) ↦
      rw (e ∙ ap (λ (x : ℕ). some (x, byte_len m)) (zero-add j), open_mount)
        (rw at_j (
          found_at j m r at_j (covers→IsUnder path m c) (λ j' m' r' at_j' u.
            subst (AtLeast (byte_len m')) e
              (scan-covered path 0 none ms j' m' r' at_j' (IsUnder→covers path m' u)))))
]
