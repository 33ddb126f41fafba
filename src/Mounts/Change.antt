-- ===== src/Mounts/Change.antt =====
-- Mounting and unmounting.
use mathlib.Core.List.{Perm}
use mathlib.Core.List.Perm
use eurali_os.Prelude.{
  ℕ, zero, suc, ◌≡◌, refl, ◌∙◌, inl, inr, ◌≢◌, arith, true, Option, none, some, Option-cases, [],
  ◌∷◌, ◌++◌, get_elem?, get_elem?-append_last, get_elem?-append_one, length,
}
use eurali_os.State.{Str}
use eurali_os.Mounts.{
  Mounts, byte_len, mount, normalise, str_eq, position, split_last, swap_remove, umount, open_mount,
}
use eurali_os.Mounts.Paths.{IsUnder}
use eurali_os.Mounts.Open.{Opens, open_mount-Opens, not_found, found_at}

str_eq→eq : (s t : Str) → str_eq s t ≡ true → s ≡ t
unfolding str_eq
str_eq→eq [] [] h = refl
str_eq→eq [] (d ∷ t) h = cc
str_eq→eq (c ∷ s) [] h = cc
str_eq→eq (c ∷ s) (d ∷ t) h = ground (arith, str_eq→eq s t)

str_eq_refl : (s : Str) → str_eq s s ≡ true
unfolding str_eq
str_eq_refl [] = refl
str_eq_refl (c ∷ s) = ground (arith, str_eq_refl s)

-- All but the entry at an index.
abbrev remove : Mounts → ℕ → Mounts
remove [] i = []
remove (m ∷ ms) zero = ms
remove (m ∷ ms) (suc i) = m ∷ remove ms i

split_last-perm :
    (m : Str × ℕ) (ms : Mounts) → Perm ((split_last m ms).1 ∷ (split_last m ms).0) (m ∷ ms)
unfolding split_last
split_last-perm m [] = Perm.refl _
split_last-perm m (n ∷ ms) = Perm.trans (Perm.swap _ _ _) (Perm.cons m (split_last-perm n ms))

-- `swap_remove` leaves the entries that plain removal leaves, in another order.
swap_remove-perm :
    (m : Str × ℕ) (ms : Mounts) (i : ℕ) (x : Str × ℕ)
    → get_elem? (m ∷ ms) i ≡ some x
    → Perm (x ∷ swap_remove (m ∷ ms) i) (m ∷ ms)
unfolding swap_remove split_last
swap_remove-perm m [] zero x e = Perm.cons' (cc) Perm.rfl
swap_remove-perm m [] (suc i) x e = cc
swap_remove-perm m (n ∷ ms) zero x e = Perm.cons' (cc) (split_last-perm n ms)
swap_remove-perm m (n ∷ ms) (suc i) x e =
    Perm.trans (Perm.swap _ _ _) (Perm.cons m (swap_remove-perm n ms i x e))

swap_removed :
    (ms : Mounts) (i : ℕ) (x : Str × ℕ) → get_elem? ms i ≡ some x → Perm (x ∷ swap_remove ms i) ms
swap_removed [] i x e = cc
swap_removed (m ∷ ms) i x e = swap_remove-perm m ms i x e

-- Where `position` finds a path, and what lies before it.
position-some :
    (path : Str) (ms : Mounts) (i : ℕ)
    → position path ms ≡ some i
    → (r : ℕ) × (get_elem? ms i ≡ some (path, r))
unfolding position
position-some path [] i h = cc
position-some path ((p, q) ∷ ms) zero h = (q, ground (arith, str_eq→eq p path))
position-some path ((p, q) ∷ ms) (suc i) h = position-some path ms i (ground arith)

position-none :
    (path : Str) (ms : Mounts) (i r : ℕ) → position path ms ≡ none → get_elem? ms i ≢ some (path, r)
unfolding position
position-none path [] i r h e = cc
position-none path ((p, q) ∷ ms) zero r h e = ground (arith, str_eq_refl path)
position-none path ((p, q) ∷ ms) (suc i) r h e = position-none path ms i r (ground arith) e

-- What `umount` promises: it fails exactly where the path is not mounted, and otherwise takes one
-- mount point of that path away and keeps all others, in some order.
pub data Umounts (ms : Mounts) (path : Str) : Option Mounts → Type 0 where
  not_mounted : ((i r : ℕ) → get_elem? ms i ≢ some (path, r)) → Umounts ms path none
  removed : (r : ℕ) (rest : Mounts) → Perm ((path, r) ∷ rest) ms → Umounts ms path (some rest)

-- Unmounting a path fails exactly where it is not mounted, and otherwise removes one mount point of
-- that path and keeps all other mount points, though not their order.
pub umount-Umounts : (ms : Mounts) (path : Str) → Umounts ms path (umount ms path)
unfolding umount
umount-Umounts ms path = elim (Option-cases (position path ms)) [
  | inl e ↦ rw (e, umount) (not_mounted (λ i r. position-none path ms i r e))
  | inr (i, e) ↦
      (let (r, at_i) = position-some path ms i e in
        rw (e, umount) (removed r (swap_remove ms i) (swap_removed ms i (path, r) at_i)))
]

Opens-none :
    {ms : Mounts} {path : Str} {o : Option (ℕ × ℕ)}
    → Opens ms path o
    → o ≡ none
    → (j : ℕ) (m : Str) (r : ℕ) → get_elem? ms j ≡ some (m, r)
    → ¬ IsUnder path m
Opens-none (not_found h) e = h
Opens-none (found_at i m r at_i u longest) e = cc

-- A mounted path can be opened: if no mount point stands above `path` yet, and `dir`, trimmed of
-- white space and of slashes at its end, is `path` or a directory above it, then after mounting
-- `dir`, `open` returns the new rendezvous and the length of the trimmed path.
pub open_mount-mount :
    (ms : Mounts) (dir path : Str) (r : ℕ)
    → open_mount ms path ≡ none
    → IsUnder path (normalise dir)
    → open_mount (mount ms dir r) path ≡ some (r, byte_len (normalise dir))
unfolding mount
open_mount-mount ms dir path r fresh under =
    opened (open_mount-Opens (ms ++ (normalise dir, r) ∷ []) path) refl
  where
    opened :
        {o : Option (ℕ × ℕ)}
        → Opens (ms ++ (normalise dir, r) ∷ []) path o
        → open_mount (ms ++ (normalise dir, r) ∷ []) path ≡ o
        → open_mount (ms ++ (normalise dir, r) ∷ []) path ≡ some (r, byte_len (normalise dir))
    opened (not_found h) e =
        absurd (h (length ms) (normalise dir) r (get_elem?-append_last ms (normalise dir, r)) under)
    opened (found_at i m r' at_i u longest) e =
        elim (get_elem?-append_one ms (normalise dir, r) i (m, r') at_i) [
          | inl old ↦ absurd (Opens-none (open_mount-Opens ms path) fresh i m r' old u)
          | inr new ↦ e ∙ cc
        ]
