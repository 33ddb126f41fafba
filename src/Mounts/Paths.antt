-- ===== src/Mounts/Paths.antt =====
-- Path prefixes by characters and by bytes.
use mathlib.Core.List.{append-nil, append_assoc}
use eurali_os.Prelude.{
  get_elem?-lt, ℕ, ◌+◌, ◌/◌, ◌<◌, subst, ==_iff, ◌≡◌, refl, sym, ap, ◌∙◌, ◌⊎◌, inl, inr, arith,
  Bool, true, Bool-cases, some, List, [], ◌∷◌, ◌++◌, length, get_elem?, length-append, ltb, ◌==◌,
}
use eurali_os.State.{Str}
use eurali_os.Mounts.{encode_utf8, as_bytes, byte_len, starts_with, covers}

-- The mount point `m` is the path, or one of the directories above it.
abbrev pub IsUnder : Str → Str → Type 0
IsUnder path m = (path ≡ m) ⊎ ((rest : Str) × (path ≡ m ++ (b'/' ∷ rest)))

starts_with→append : (s p : Str) → starts_with s p ≡ true → (rest : Str) × (s ≡ p ++ rest)
unfolding starts_with
starts_with→append s [] h = (s, refl)
starts_with→append [] (d ∷ p) h = cc
starts_with→append (c ∷ s) (d ∷ p) h =
    let (rest, e) = starts_with→append s p (ground arith) in (rest, ground arith)

starts_with-append : (p rest : Str) → starts_with (p ++ rest) p ≡ true
unfolding starts_with
starts_with-append [] rest = refl
starts_with-append (c ∷ p) rest = ground (arith, starts_with-append p rest)

as_bytes-append : (s t : Str) → as_bytes (s ++ t) ≡ as_bytes s ++ as_bytes t
unfolding as_bytes
as_bytes-append [] t = refl
as_bytes-append (c ∷ s) t = rw (as_bytes-append s t, append_assoc)

get_elem?-append : (xs ys : List ℕ) → get_elem? (xs ++ ys) (length xs) ≡ get_elem? ys 0
get_elem?-append [] ys = refl
get_elem?-append (x ∷ xs) ys = get_elem?-append xs ys

-- The first byte of a text is that of `/` only where its first character is `/`.
first_byte :
    (c : ℕ) (s : Str)
    → (b : ℕ) × (get_elem? (as_bytes (c ∷ s)) 0 ≡ some b) × ((b == b'/') ≡ (c == b'/'))
unfolding as_bytes encode_utf8
first_byte c s = elim (Bool-cases (ltb c 0x80)) [
  | inl h ↦ (c, rw h refl, refl)
  | inr h ↦ elim (Bool-cases (ltb c 0x800)) [
    | inl h₂ ↦ (0xC0 + c / 0x40, rw (h, h₂) refl, ground arith)
    | inr h₂ ↦ elim (Bool-cases (ltb c 0x10000)) [
      | inl h₃ ↦ (0xE0 + c / 0x1000, rw (h, h₂, h₃) refl, ground arith)
      | inr h₃ ↦ (0xF0 + c / 0x40000, rw (h, h₂, h₃) refl, ground arith)
    ]
  ]
]

byte_len-cons : (c : ℕ) (s : Str) → 0 < byte_len (c ∷ s)
byte_len-cons c s = let (b, e, _) = first_byte c s in get_elem?-lt (as_bytes (c ∷ s)) 0 b e

abbrev ends_component : Str → Bool
ends_component [] = true
ends_component (c ∷ s) = c == b'/'

byte_len-append : (m rest : Str) → byte_len (m ++ rest) ≡ byte_len m + byte_len rest
byte_len-append m rest =
    ap length (as_bytes-append m rest) ∙ length-append (as_bytes m) (as_bytes rest)

byte_after :
    (m rest : Str) → get_elem? (as_bytes (m ++ rest)) (byte_len m) ≡ get_elem? (as_bytes rest) 0
byte_after m rest =
    ap (λ bs. get_elem? bs (byte_len m)) (as_bytes-append m rest)
    ∙ get_elem?-append (as_bytes m) (as_bytes rest)

covers-append : (m rest : Str) → covers (m ++ rest) m ≡ ends_component rest
unfolding covers
covers-append m [] = rw append-nil (ground (arith, starts_with_self m))
  where
    starts_with_self : (m : Str) → starts_with m m ≡ true
    starts_with_self m = rw append-nil at (starts_with-append m [])
covers-append m (c ∷ s) =
    let (b, e, test) = first_byte c s in
    ground (
      arith,
      starts_with-append m (c ∷ s),
      byte_len-append m (c ∷ s),
      byte_after m (c ∷ s),
      byte_len-cons c s,
      e,
      test,
    )

-- The test of `open` on bytes decides the relation on paths.
pub covers→IsUnder : (path m : Str) → covers path m ≡ true → IsUnder path m
unfolding covers
covers→IsUnder path m h =
    let (rest, e) = starts_with→append path m (ground arith) in
    split rest e (sym (covers-append m rest) ∙ subst (λ p. covers p m ≡ true) e h)
  where
    split : (rest : Str) → path ≡ m ++ rest → ends_component rest ≡ true → IsUnder path m
    split [] e t = inl (e ∙ append-nil m)
    split (c ∷ rest) e t = inr (rest, e ∙ ap (λ d. m ++ (d ∷ rest)) ((==_iff c b'/').0 t))

pub IsUnder→covers : (path m : Str) → IsUnder path m → covers path m ≡ true
IsUnder→covers path m (inl e) =
    rw e (subst (λ p. covers p m ≡ true) (append-nil m) (covers-append m []))
IsUnder→covers path m (inr (rest, e)) = rw e (covers-append m (b'/' ∷ rest))
