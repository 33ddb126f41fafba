-- ===== src/Examples/Tables.antt =====
-- Tests of handle tables and mount points, and their theorems at concrete tables.
use eurali_os.Prelude.{ℕ, ◌≡◌, refl, inr, Option, none, some, List, [], ◌∷◌, arith, codes}
use eurali_os.Mounts.{
  open_mount, mount, umount, normalise, byte_len, as_bytes, encode_utf8, starts_with,
}
use eurali_os.Mounts.Open.{Opens, open_mount-Opens}
use eurali_os.Mounts.Change.{Umounts, umount-Umounts, open_mount-mount}
use eurali_os.State.{empty}
use eurali_os.Examples.{machine, client}
use eurali_os.Std.Namespace.{copy_vfs, with_mount, without_path, to_string}
use eurali_os.Launch.{exec_mounts}
use eurali_os.Launch.Parameters
use eurali_os.Launch.Parameters.{Request, removes, build, HasNoColon, requested, exec_mounts-build}

abbrev mounts : List (List ℕ × ℕ)
mounts = (codes "/dev", 4) ∷ (codes "/dev/nic", 5) ∷ []

open_mount-Opens_example :
    Opens mounts (codes "/dev/nic/mac") (open_mount mounts (codes "/dev/nic/mac"))
open_mount-Opens_example = open_mount-Opens mounts (codes "/dev/nic/mac")

opens_longest : open_mount mounts (codes "/dev/nic/mac") ≡ some (5, 8)
unfolding open_mount as_bytes encode_utf8 starts_with
opens_longest = refl

opens_no_prefix : open_mount mounts (codes "/device") ≡ none
unfolding open_mount as_bytes encode_utf8 starts_with
opens_no_prefix = refl

normalises : normalise (codes "  /ramdisk// ") ≡ codes "/ramdisk"
unfolding normalise
normalises = refl

umount-Umounts_example : Umounts mounts (codes "/dev") (umount mounts (codes "/dev"))
umount-Umounts_example = umount-Umounts mounts (codes "/dev")

open_mount-mount_example :
    open_mount (mount mounts (codes "/ramdisk/") 7) (codes "/ramdisk/file")
    ≡ some (7, byte_len (normalise (codes "/ramdisk/")))
unfolding open_mount as_bytes encode_utf8 starts_with normalise
open_mount-mount_example =
    open_mount-mount mounts (codes "/ramdisk/") (codes "/ramdisk/file") 7 refl
      (inr (codes "file", refl))

abbrev table : List (Option ℕ)
table = some 4 ∷ none ∷ some 5 ∷ []

-- A program gives a channel to its child under a path and takes the path `/tmp` away.
abbrev requests : List Request
requests = Parameters.mounts 1 (codes "/dev") ∷ removes (codes "/tmp") ∷ []

exec_string : build copy_vfs requests ≡ codes "Cm1|/dev:-/tmp:"
unfolding with_mount without_path to_string
exec_string = refl

exec_mounts-build_example :
    exec_mounts some client (build copy_vfs requests) (machine empty)
    ≡ requested some client b'C' requests (machine empty)
exec_mounts-build_example =
    exec_mounts-build some client b'C' requests (machine empty)
      ((omega arith, clear), (clear_tmp, tt))
  where
    clear : HasNoColon (codes "/dev")
    clear = (
      λ e. omega (arith, e),
      (λ e. omega (arith, e), (λ e. omega (arith, e), (λ e. omega (arith, e), tt))),
    )

    clear_tmp : HasNoColon (codes "/tmp")
    clear_tmp = (
      λ e. omega (arith, e),
      (λ e. omega (arith, e), (λ e. omega (arith, e), (λ e. omega (arith, e), tt))),
    )
