-- ===== src/Launch/Parameters.antt =====
-- The kernel does with the parameter string of `exec` what the builder of the library was asked for.
use mathlib.Core.List.{append-nil, append_assoc}
use eurali_os.Prelude.{
  ℕ, zero, suc, ◌+◌, ◌-◌, ◌*◌, ◌/◌, ◌%◌, ◌^◌, ◌<◌, ◌≤◌, ◌≡◌, ◌≢◌, refl, sym, fun_ext, ◌∙◌, ap,
  arith, Option, none, some, true, false, Bool-cases, inl, inr, List, [], ◌∷◌, ◌++◌, leb, ltb, ◌==◌,
}
use eurali_os.State.{Str, Thread, Result, ok, err, Kernel, M, pure}
use eurali_os.Std.Namespace.{digits, to_string, with_mount, without_path}
use eurali_os.Launch.{
  ParamMode, control, removing, number, mounting, read_params, remove_path, mount_path, with_handle,
  and_then, start_mounts, exec_mounts,
}

-- What a program asks of the builder.
pub data Request : Type 0 where
  mounts : ℕ → List ℕ → Request
  removes : List ℕ → Request

-- The builder's calls, one after the other.
abbrev pub build : List ℕ → List Request → List ℕ
build s [] = s
build s (mounts handle path ∷ rs) = build (with_mount handle path s) rs
build s (removes path ∷ rs) = build (without_path path s) rs

-- A path without the byte that ends it in the string.
abbrev pub HasNoColon : List ℕ → Type 0
HasNoColon [] = Unit
HasNoColon (c ∷ cs) = (c ≢ b':') × HasNoColon cs

abbrev pub AreClear : List Request → Type 0
AreClear [] = Unit
AreClear (mounts handle path ∷ rs) = ((handle < 2 ^ 32) × HasNoColon path) × AreClear rs
AreClear (removes path ∷ rs) = HasNoColon path × AreClear rs

-- The string, from left to right.
abbrev encoded : List Request → List ℕ
encoded [] = []
encoded (mounts handle path ∷ rs) =
    b'm' ∷ (to_string handle ++ (b'|' ∷ (path ++ (b':' ∷ encoded rs))))
encoded (removes path ∷ rs) = b'-' ∷ (path ++ (b':' ∷ encoded rs))

build-encoded : (s : List ℕ) (rs : List Request) → build s rs ≡ s ++ encoded rs
unfolding with_mount without_path
build-encoded s [] = sym (append-nil s)
build-encoded s (mounts handle path ∷ rs) =
    build-encoded (with_mount handle path s) rs ∙ simp append_assoc refl
build-encoded s (removes path ∷ rs) =
    build-encoded (without_path path s) rs ∙ simp append_assoc refl

-- The bound of a number with so many digits.
tens : ℕ → ℕ
tens zero = 1
tens (suc n) = 10 * tens n

ten_digits : 2 ^ 32 < tens 10
unfolding tens
ten_digits = omega arith

module _ {Mem : Type 0} (from_utf8 : List ℕ → Option Str) (t : Thread) (v : ℕ) where
  read : ParamMode → List ℕ → M Mem (Result (Unit {0}))
  read = read_params from_utf8 t v

  -- The requests, one after the other.
  pub perform : List Request → M Mem (Result (Unit {0}))
  perform [] = pure (ok tt)
  perform (mounts handle path ∷ rs) =
      with_handle t handle (λ r. and_then (mount_path from_utf8 v r path) (perform rs))
  perform (removes path ∷ rs) = and_then (remove_path from_utf8 v path) (perform rs)

  read_digit :
      (n c : ℕ) (cs : List ℕ)
      → b'0' ≤ c
      → c ≤ b'9'
      → read (number n) (c ∷ cs) ≡ read (number ((n * 10 + (c - b'0')) % 2 ^ 64)) cs
  unfolding read read_params
  read_digit n c cs low high =
      let is_low : leb b'0' c ≡ true = ground arith in
      let is_high : leb c b'9' ≡ true = ground arith in rw (is_low, is_high) refl

  read_digits :
      (fuel n : ℕ) (cs : List ℕ)
      → n < tens fuel
      → n < 2 ^ 32
      → read (number 0) (digits fuel n ++ cs) ≡ read (number n) cs
  unfolding digits tens
  read_digits zero n cs few small =
      let same : 0 ≡ n = omega arith in ap (λ m. read (number m) cs) same
  read_digits (suc fuel) n cs few small = elim (Bool-cases (ltb n 10)) [
    | inl one ↦
        let same : (0 * 10 + (b'0' + n - b'0')) % 2 ^ 64 ≡ n = ground arith in
        rw one (
          read_digit 0 (b'0' + n) cs (ground arith) (ground arith)
          ∙ ap (λ m. read (number m) cs) same)
    | inr more ↦
        let same : (n / 10 * 10 + (b'0' + n % 10 - b'0')) % 2 ^ 64 ≡ n = omega arith in
        rw more (
          ap (read (number 0)) (append_assoc (digits fuel (n / 10)) ((b'0' + n % 10) ∷ []) cs)
          ∙ (read_digits fuel (n / 10) ((b'0' + n % 10) ∷ cs) (omega arith) (omega arith)
              ∙ (read_digit (n / 10) (b'0' + n % 10) cs (omega arith) (omega arith)
                  ∙ ap (λ m. read (number m) cs) same)))
  ]

  read_mounting :
      (r : ℕ) (p q cs : List ℕ)
      → HasNoColon q
      → read (mounting r p) (q ++ b':' ∷ cs)
        ≡ and_then (mount_path from_utf8 v r (p ++ q)) (read control cs)
  unfolding read read_params
  read_mounting r p [] cs h =
      ap (λ x. and_then (mount_path from_utf8 v r x) (read control cs)) (sym (append-nil p))
  read_mounting r p (c ∷ q) cs (ne, h) =
      let other : (c == b':') ≡ false = ground arith in
      rw other (
        read_mounting r (p ++ c ∷ []) q cs h
        ∙ ap (λ x. and_then (mount_path from_utf8 v r x) (read control cs))
            (append_assoc p (c ∷ []) q))

  read_removing :
      (p q cs : List ℕ)
      → HasNoColon q
      → read (removing p) (q ++ b':' ∷ cs)
        ≡ and_then (remove_path from_utf8 v (p ++ q)) (read control cs)
  unfolding read read_params
  read_removing p [] cs h =
      ap (λ x. and_then (remove_path from_utf8 v x) (read control cs)) (sym (append-nil p))
  read_removing p (c ∷ q) cs (ne, h) =
      let other : (c == b':') ≡ false = ground arith in
      rw other (
        read_removing (p ++ c ∷ []) q cs h
        ∙ ap (λ x. and_then (remove_path from_utf8 v x) (read control cs))
            (append_assoc p (c ∷ []) q))

  read_to_string :
      (handle : ℕ) (cs : List ℕ)
      → handle < 2 ^ 32
      → read (number 0) (to_string handle ++ cs) ≡ read (number handle) cs
  unfolding to_string
  read_to_string handle cs small = read_digits 10 handle cs (omega (arith, ten_digits)) small

  read_end : read control [] ≡ pure (ok tt)
  unfolding read read_params
  read_end = refl

  read_m : (cs : List ℕ) → read control (b'm' ∷ cs) ≡ read (number 0) cs
  unfolding read read_params
  read_m cs = refl

  read_minus : (cs : List ℕ) → read control (b'-' ∷ cs) ≡ read (removing []) cs
  unfolding read read_params
  read_minus cs = refl

  read_bar :
      (n : ℕ) (cs : List ℕ)
      → read (number n) (b'|' ∷ cs) ≡ with_handle t n (λ r. read (mounting r []) cs)
  unfolding read read_params
  read_bar n cs = refl

  read_encoded : (rs : List Request) → AreClear rs → read control (encoded rs) ≡ perform rs
  unfolding perform
  read_encoded [] h = read_end
  read_encoded (mounts handle path ∷ rs) ((small, clear), h) =
      let rest = path ++ b':' ∷ encoded rs in
      let mounted : (r : ℕ)
          → read (mounting r []) rest ≡ and_then (mount_path from_utf8 v r path) (perform rs) =
        λ r.
          read_mounting r [] path (encoded rs) clear
          ∙ ap (and_then (mount_path from_utf8 v r path)) (read_encoded rs h) in
      read_m (to_string handle ++ (b'|' ∷ rest))
      ∙ (read_to_string handle (b'|' ∷ rest) small
          ∙ (read_bar handle rest ∙ ap (with_handle t handle) (fun_ext mounted)))
  read_encoded (removes path ∷ rs) (clear, h) =
      read_minus (path ++ b':' ∷ encoded rs)
      ∙ (read_removing [] path (encoded rs) clear
          ∙ ap (and_then (remove_path from_utf8 v path)) (read_encoded rs h))

-- What `exec` does with the first byte of the string and requests.
module _ {Mem : Type 0} (from_utf8 : List ℕ → Option Str) (t : Thread) where
  abbrev started : ℕ → (ℕ → M Mem (Result (Unit {0}))) → M Mem (Result ℕ)
  started c f k = elim (start_mounts t c k) [
    | none ↦ none
    | some (err e, k') ↦ some (err e, k')
    | some (ok v, k') ↦ (elim (f v k') [
      | none ↦ none
      | some (err e, k'') ↦ some (err e, k'')
      | some (ok _, k'') ↦ some (ok v, k'')
    ])
  ]

  abbrev pub requested : ℕ → List Request → M Mem (Result ℕ)
  requested c rs = started c (λ v. perform from_utf8 t v rs)

  exec_mounts-started :
      (c : ℕ) (cs : List ℕ) (k : Kernel Mem)
      → exec_mounts from_utf8 t (c ∷ cs) k ≡ started c (λ v. read_params from_utf8 t v control cs) k
  unfolding exec_mounts
  exec_mounts-started c cs k = refl

  -- The loop of `sys_exec` over the whole string that the builder makes of some requests does these
  -- requests in this order, each one with its handle and path: it starts as the first byte says, and
  -- stops with the error of the first request that fails. This asks that handles have 32 bits and that
  -- no path has a colon, which ends it in the string.
  pub exec_mounts-build :
      (c : ℕ) (rs : List Request) (k : Kernel Mem)
      → AreClear rs
      → exec_mounts from_utf8 t (build (c ∷ []) rs) k ≡ requested c rs k
  unfolding read_params read
  exec_mounts-build c rs k h =
      ap (λ s. exec_mounts from_utf8 t s k) (build-encoded (c ∷ []) rs)
      ∙ (exec_mounts-started c (encoded rs) k
          ∙ ap (λ f. started c f k) (fun_ext (λ v. read_encoded from_utf8 t v rs h)))
