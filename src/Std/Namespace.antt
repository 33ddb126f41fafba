-- ===== src/Std/Namespace.antt =====
-- euralios_std/src/syscalls.rs: the builder `VFS` of the string that names the mount points of a new
-- process, and the registers of `exec`. A string is its bytes.
use eurali_os.Prelude.{
  ℕ, zero, suc, ◌+◌, ◌*◌, ◌/◌, ◌%◌, ◌^◌, List, [], ◌∷◌, ◌++◌, if◌then◌else◌, ltb, codes, bit_or,
  length,
}
use eurali_os.Std.{Values}

-- `to_string` of a handle, a number of 32 bits, which has at most ten digits.
unfoldable pub digits : ℕ → ℕ → List ℕ
digits zero n = []
digits (suc fuel) n =
    let front = digits fuel (n / 10) in
    if ltb n 10 then (b'0' + n) ∷ [] else front ++ (b'0' + n % 10) ∷ []

unfoldable pub to_string : ℕ → List ℕ
unfolding digits
to_string handle = digits 10 handle

abbrev pub new_vfs : List ℕ
new_vfs = codes "N"

abbrev pub shared_vfs : List ℕ
shared_vfs = codes "S"

abbrev pub copy_vfs : List ℕ
copy_vfs = codes "C"

unfoldable pub with_mount : ℕ → List ℕ → List ℕ → List ℕ
unfolding to_string
with_mount handle path s =
    (((s ++ b'm' ∷ []) ++ to_string handle) ++ b'|' ∷ []) ++ path ++ b':' ∷ []

unfoldable pub without_path : List ℕ → List ℕ → List ℕ
without_path path s = (s ++ b'-' ∷ []) ++ path ++ b':' ∷ []

-- The registers of `exec`, for binary and parameters at given addresses.
unfoldable pub exec_values : ℕ → ℕ → ℕ → ℕ → ℕ → List ℕ → ℕ → Values
exec_values bin bin_len flags stdin stdout params param = record {
  ctrl = bit_or (bit_or (bit_or 12 (flags * 2 ^ 8)) (length params * 2 ^ 16)) (bin_len * 2 ^ 32);
  data1 = bin;
  data2 = bit_or (stdin * 2 ^ 32) stdout;
  data3 = param;
}
