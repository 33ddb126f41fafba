-- ===== src/Examples/Servers.antt =====
-- Tests of the library's messages, of the file server and of the ramdisk, and their theorems at
-- concrete messages and files.
use eurali_os.Prelude.{
  ℕ, if◌then◌else◌, ◌==◌, ◌≡◌, refl, inl, arith, some, List, [], ◌∷◌, codes, update, false,
}
use eurali_os.State.{Str, ok}
use eurali_os.Constants.{syscall_send}
use eurali_os.Std.{
  Message, short, long, value, memory_handle, comm_handle, from_values, to_values, call_register,
}
use eurali_os.Std.Encoding.{from_values-to_values}
use eurali_os.Std.Agreement.{Reads, call_register-Reads}
use eurali_os.Server.{
  Calls, World, Service, directory, file_readonly, o_write, msg_open, msg_data, msg_ok,
}
use eurali_os.Server.Handlers.{start, serve}
use eurali_os.Server.ReadOnly.{AreReadOnly, Step, serves, here, then_one, Run-AreReadOnly}
use eurali_os.Server.Paths.{Opens, open_from-Leads}
use eurali_os.Ramdisk.{Disk, ramdisk, get_dir, get_file}
use eurali_os.Ramdisk.Contents.{write_and_read, write-read}
use eurali_os.Examples.{client, one_chunk}

abbrev reply_with_handle : Message
reply_with_handle = long 6 (comm_handle 5) (value 0)

from_values-to_values_example : from_values (to_values reply_with_handle) ≡ reply_with_handle
from_values-to_values_example = from_values-to_values reply_with_handle (omega arith, tt)

call_register-Reads_example :
    Reads one_chunk syscall_send 3 client reply_with_handle
      (call_register syscall_send (to_values reply_with_handle).ctrl 3)
call_register-Reads_example =
    call_register-Reads one_chunk syscall_send 3 client reply_with_handle (inl refl) (refl, refl)

-- Memory of the server: what it holds at each address. A path is given by its characters, and has one
-- component.
abbrev pub memory_calls : Calls (ℕ → List ℕ)
memory_calls = record {
  new_rendezvous = λ m. (ok (8, 9), m);
  spawn = λ m. (ok tt, m);
  malloc = λ size m. (ok 0x7000, m);
  as_slice = λ m handle size. m handle;
  put = λ handle bytes m. update m handle bytes;
  from_utf8 = λ bytes. some bytes;
  as_bytes = λ s. s;
  components = λ path. path ∷ [];
}

-- A directory with the file `log`, which holds "one", and the directory `etc`.
abbrev disk : Disk
disk = record {
  directories = λ d.
      (if d == 0
        then record { subdirs = (codes "etc", 1) ∷ []; files = (codes "log", 0) ∷ [] }
        else record { subdirs = []; files = [] });
  directory_count = 2;
  contents = λ f. if f == 0 then codes "one" else [];
  file_count = 1;
}

-- Threads at work, where the messages' memory holds the text.
abbrev served_world : Str → List Service → World Disk (ℕ → List ℕ)
served_world text threads = record {
  fs = disk;
  process = λ a. text;
  started = threads;
  replies = [];
}

put_back : (m : ℕ → List ℕ) (handle : ℕ) (bytes : List ℕ) → update m handle bytes handle ≡ bytes
put_back m handle bytes = ground arith

-- The same with an empty file.
abbrev empty_file : World Disk (ℕ → List ℕ)
empty_file = record (served_world (codes "two") []) { fs = record disk { contents = λ file. [] } }

write-read_example :
    (w' : World Disk (ℕ → List ℕ)) × ((write_and_read memory_calls put_back 0 8 0x6000 3 100
          empty_file
        ≡ some w')
      × ((w'.replies ≡ long msg_data (value 3) (memory_handle 0x7000) ∷ short msg_ok 3 0 ∷ [])
          × ((w'.process 0x7000 ≡ codes "two") × (w'.fs.contents 0 ≡ codes "two"))))
write-read_example =
    write-read memory_calls put_back 0 8 0x6000 3 100 0x7000 (λ a. codes "two") empty_file refl
      (omega arith) (omega arith) (omega arith) refl

open_from-Leads_example :
    Opens ramdisk memory_calls 0 (codes "log" ∷ []) o_write (served_world (codes " two") [])
open_from-Leads_example =
    open_from-Leads ramdisk memory_calls 0 (codes "log" ∷ []) o_write
      (served_world (codes " two") []) refl refl

abbrev reader : World Disk (ℕ → List ℕ)
reader = served_world (codes "log") (directory 0 8 false ∷ [])

-- The client has opened the file for reading.
abbrev opened : World Disk (ℕ → List ℕ)
opened = record reader {
  started = file_readonly 0 8 ∷ directory 0 8 false ∷ [];
  replies = long 6 (comm_handle 9) (value 0) ∷ [];
}

opens_for_reading : Step ramdisk memory_calls reader opened
unfolding serve start get_dir get_file
opens_for_reading =
    serves 0 (directory 0 8 false) (long msg_open (value 3) (memory_handle 0x6000)) refl refl

Run-AreReadOnly_example : (disk ≡ disk) × AreReadOnly (file_readonly 0 8 ∷ directory 0 8 false ∷ [])
Run-AreReadOnly_example =
    Run-AreReadOnly ramdisk memory_calls {w = reader} {w' = opened} (refl, tt)
      (then_one here opens_for_reading)
