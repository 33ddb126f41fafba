-- ===== src/Ramdisk/Contents.antt =====
-- What is written into a file of the ramdisk can be read back.
use mathlib.Core.Path.{subst}
use eurali_os.Prelude.{
  ℕ, ◌+◌, ◌-◌, ◌%◌, ◌^◌, ◌≤◌, ◌<◌, ◌≡◌, ◌≢◌, refl, sym, ap, arith, true, false, Option, none, some,
  List, ◌∷◌, ◌++◌, ◌==◌, if◌then◌else◌, ltb, leb, length, take_all, update, subst, [],
}
use eurali_os.State.{ok}
use eurali_os.Std.{short, long, value, memory_handle}
use eurali_os.Server.{
  Calls, FileSystem, World, file_readwrite, file_readonly, msg_read, msg_write, msg_data, msg_ok,
}
use eurali_os.Server.Handlers.{serve, read_file, handle_file_readwrite, handle_file_readonly}
use eurali_os.Ramdisk.{Disk, ramdisk, read_bytes, write_bytes}

-- A read from the start of a file into a buffer of its size.
read_bytes-all :
    (bytes : List ℕ)
    → length bytes ≢ 0
    → length bytes < 2 ^ 64
    → read_bytes bytes 0 (length bytes) ≡ ok bytes
unfolding read_bytes
read_bytes-all bytes ne small =
    let sum : (0 + length bytes) % 2 ^ 64 ≡ length bytes = omega arith in
    let end : ltb (length bytes) (length bytes) ≡ false = ground arith in
    let some_left : leb (length bytes) 0 ≡ false = ground arith in
    rw (sum, end, some_left) (ap ok (take_all (length bytes - 0) bytes (omega arith)))

-- A read that the server answers with data.
module _ {F C : Type 0} (files : FileSystem F) (calls : Calls C) where
  abbrev after_read : World F C → C → ℕ → List ℕ → World F C
  after_read w p mem bytes = record w {
    replies = long msg_data (value (length bytes)) (memory_handle mem) ∷ w.replies;
    process = calls.put mem bytes p;
  }

  read_file-ok :
      (file first wanted len mem : ℕ) (bytes : List ℕ) (p : C) (w : World F C)
      → (if ltb wanted (files.len w.fs file) then wanted else files.len w.fs file) ≡ len
      → len ≢ 0
      → calls.malloc len w.process ≡ (ok mem, p)
      → files.read w.fs file first len ≡ ok bytes
      → read_file files calls file first wanted w ≡ some (after_read w p mem bytes)
  unfolding read_file
  read_file-ok file first wanted len mem bytes p w size ne allocated done =
      let some_left : (len == 0) ≡ false = ground arith in ground arith

read_file-all :
    {C : Type 0} (calls : Calls C) (file wanted mem : ℕ) (bytes : List ℕ) (p : C) (w : World Disk C)
    → w.fs.contents file ≡ bytes
    → length bytes ≢ 0
    → length bytes < 2 ^ 64
    → length bytes ≤ wanted
    → calls.malloc (length bytes) w.process ≡ (ok mem, p)
    → read_file ramdisk calls file 0 wanted w ≡ some (after_read ramdisk calls w p mem bytes)
read_file-all calls file wanted mem bytes p w holds ne small fits allocated =
    let size : (if ltb wanted (length bytes) then wanted else length bytes) ≡ length bytes =
      ground arith in
    read_file-ok ramdisk calls file 0 wanted (length bytes) mem bytes p w
      (subst (λ b. (if ltb wanted (length b) then wanted else length b) ≡ length bytes) (sym holds)
        size)
      ne allocated
      (subst (λ b. read_bytes b 0 (length bytes) ≡ ok bytes) (sym holds)
        (read_bytes-all bytes ne small))

module _ {C : Type 0} (calls : Calls C)
    (put-as_slice : (p : C) (handle : ℕ) (bytes : List ℕ)
      → calls.as_slice (calls.put handle bytes p) handle (length bytes) ≡ bytes) where
  -- A file's new content after a write.
  abbrev pub written : ℕ → ℕ → ℕ → World Disk C → List ℕ
  written file handle size w = w.fs.contents file ++ calls.as_slice w.process handle size

  abbrev pub write_and_read : ℕ → ℕ → ℕ → ℕ → ℕ → World Disk C → Option (World Disk C)
  write_and_read file h handle size wanted w =
      elim (serve ramdisk calls (file_readwrite file h)
        (long msg_write (value size) (memory_handle handle)) w) [
          | none ↦ none
          | some w' ↦ serve ramdisk calls (file_readonly file h) (short msg_read 0 wanted) w'
        ]

  -- The server appends what is written to what the file holds.
  write_appends-read :
      (file h handle size wanted mem : ℕ) (p : C) (w : World Disk C)
      → length (written file handle size w) ≢ 0
      → length (written file handle size w) < 2 ^ 64
      → length (written file handle size w) ≤ wanted
      → calls.malloc (length (written file handle size w)) w.process ≡ (ok mem, p)
      → (w' : World Disk C) × ((write_and_read file h handle size wanted w ≡ some w')
          × ((w'.replies
                ≡ long msg_data (value (length (written file handle size w))) (memory_handle mem)
                  ∷ short msg_ok (length (calls.as_slice w.process handle size)) 0
                  ∷ w.replies)
              × ((calls.as_slice w'.process mem (length (written file handle size w))
                    ≡ written file handle size w)
                  × (w'.fs.contents file ≡ written file handle size w))))
  unfolding serve handle_file_readwrite handle_file_readonly read_file write_bytes
  write_appends-read file h handle size wanted mem p w ne small fits allocated =
      let bytes = written file handle size w in
      let count = length (calls.as_slice w.process handle size) in
      let changed : Disk = record w.fs { contents = update w.fs.contents file bytes } in
      let w1 : World Disk C = record w {
        fs = changed;
        replies = short msg_ok count 0 ∷ w.replies;
      } in
      let same : (file == file) ≡ true = ground arith in
      let holds : update w.fs.contents file bytes file ≡ bytes = rw same refl in
      (
        after_read ramdisk calls w1 p mem bytes,
        (
          read_file-all calls file wanted mem bytes p w1 holds ne small fits allocated,
          (refl, (put-as_slice p mem bytes, holds)),
        ),
      )

  -- A client that writes some bytes to an empty file and then reads it with a large enough length gets
  -- these bytes back, in memory that the server sent, and the file holds them. This asks that there is
  -- at least one byte and that there are less than 2 ^ 64, that the server gets memory, and that
  -- memory keeps what is put there.
  pub write-read :
      (file h handle size wanted mem : ℕ) (p : C) (w : World Disk C)
      → w.fs.contents file ≡ []
      → length (calls.as_slice w.process handle size) ≢ 0
      → length (calls.as_slice w.process handle size) < 2 ^ 64
      → length (calls.as_slice w.process handle size) ≤ wanted
      → calls.malloc (length (calls.as_slice w.process handle size)) w.process ≡ (ok mem, p)
      → (w' : World Disk C) × ((write_and_read file h handle size wanted w ≡ some w')
          × ((w'.replies
                ≡ long msg_data
                    (value (length (calls.as_slice w.process handle size)))
                    (memory_handle mem)
                  ∷ short msg_ok (length (calls.as_slice w.process handle size)) 0
                  ∷ w.replies)
              × ((calls.as_slice w'.process mem (length (calls.as_slice w.process handle size))
                    ≡ calls.as_slice w.process handle size)
                  × (w'.fs.contents file ≡ calls.as_slice w.process handle size))))
  write-read file h handle size wanted mem p w empty ne small fits allocated =
      let bytes' = calls.as_slice w.process handle size in
      let same : bytes' ≡ written file handle size w = ap (λ held. held ++ bytes') (sym empty) in
      subst
        (λ bytes.
          (w' : World Disk C) × ((write_and_read file h handle size wanted w ≡ some w')
            × ((w'.replies
                  ≡ long msg_data (value (length bytes)) (memory_handle mem)
                    ∷ short msg_ok (length bytes') 0
                    ∷ w.replies)
                × ((calls.as_slice w'.process mem (length bytes) ≡ bytes)
                    × (w'.fs.contents file ≡ bytes)))))
        (sym same)
        (write_appends-read file h handle size wanted mem p w
          (subst (λ bytes. length bytes ≢ 0) same ne)
          (subst (λ bytes. length bytes < 2 ^ 64) same small)
          (subst (λ bytes. length bytes ≤ wanted) same fits)
          (subst (λ bytes. calls.malloc (length bytes) w.process ≡ (ok mem, p)) same allocated))
