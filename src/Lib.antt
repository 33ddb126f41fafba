-- ===== src/Lib.antt =====
-- EuraliOS: a model of the kernel "Merriwig", of its standard library's messages and file servers, of
-- the ramdisk and of the VGA driver, and what is proved of them.
--
-- The kernel runs user threads, passes messages between them over rendezvous channels, keeps a table
-- of mount points that names channels by paths, and gives out memory in chunks of pages. A thread
-- enters the kernel by a system call or an interrupt; the handler works on the state that all
-- handlers share and ends by a return to the thread or by a switch to another.
--
-- State.antt has that state: the structs of kernel/src/process.rs, kernel/src/message.rs,
-- kernel/src/rendezvous.rs and kernel/src/interrupts.rs, and the record `Kernel` for the statics. What
-- an `Arc<RwLock<T>>` points to is a cell of a store, named by a number; a `Box<Thread>` is a value
-- with one owner. The registers of a thread lie in memory at the address in its field `context`, so
-- two threads with one address share their registers, and the theorems say where that matters. A
-- handler is a function of the state that returns a result and a new state, or `none` where the
-- kernel panics.
--
--   Constants.antt    call numbers, error codes and message bits: kernel/src/syscalls.rs, message.rs
--   Threads.antt      handles and registers of a thread: kernel/src/process.rs
--   Messages.antt     Message::to_values and from_values: kernel/src/message.rs
--   Channels.antt     Rendezvous::send, receive, send_receive, close: kernel/src/rendezvous.rs
--   Mounts.antt       the methods of VFS: kernel/src/vfs.rs
--   Scheduler.antt    run queue, fork, exit: kernel/src/process.rs; handlers: kernel/src/interrupts.rs
--   Syscalls.antt     sys_send, sys_receive, sys_close, sys_yield, sys_await_interrupt and
--                     Arc::strong_count: kernel/src/syscalls.rs
--   Services.antt     the other calls, on handles, mount points and memory: kernel/src/syscalls.rs;
--                     VFS::copy: kernel/src/vfs.rs
--   Launch.antt       sys_exec: kernel/src/syscalls.rs; the string that it reads is made by the builder
--                     in Std/Namespace.antt: euralios_std/src/syscalls.rs
--                     Launch/Loader.antt has new_user_thread behind its header check, and
--                     Launch/Processes.antt new_kernel_thread and what is freed when threads and
--                     processes end: kernel/src/process.rs
--   Frames.antt       the multi-level bitmap of free frames, with its set-up in Frames/Init.antt:
--                     kernel/src/memory/frame_allocator.rs
--   Chunks.antt       the chunk slots of a page table: kernel/src/memory.rs
--   Pages.antt        copying and freeing of page tables, with the stacks of threads in
--                     Pages/Stacks.antt and ranges of pages in Pages/Mapping.antt:
--                     kernel/src/memory.rs, kernel/src/memory/kernel_info.rs
--   Std.antt          messages in registers, send, receive, rcall: euralios_std/src/message.rs,
--                     euralios_std/src/syscalls.rs
--   Std/Files.antt, Std/Directories.antt
--                     OpenOptions, File, read_dir, remove_file, create_dir: euralios_std/src/fs.rs
--   Server.antt       the interfaces of a file server and dispatch_loop; open, handle_file_readwrite,
--                     handle_file_readonly and handle_directory are in Server/Handlers.antt:
--                     euralios_std/src/server.rs
--   Ramdisk.antt      files and directories in memory: ramdisk/src/main.rs
--   Vga.antt          Writer, with write_string in Vga/Escapes.antt, and main and writer_handler in
--                     Vga/Driver.antt: vga_driver/src/main.rs
--   Examples.antt     concrete states; its folder has tests, and each theorem at a concrete input
--
-- The programs meet the kernel in the registers of a call: Std.antt writes them, Messages.antt reads
-- them, and Std/Agreement.antt compares the two. A file server is a list of threads over one store of
-- files; Server.antt takes the store as the interface `FileSystem`, which Ramdisk.antt fills, and the
-- calls of the server as the interface `Calls`.
--
-- The folder of a module has its theorems. Prelude.antt has the shared names and lemmas.
--
-- Numbers are natural numbers; a u64 that the code only stores or compares has no bound here, and
-- shifts and masks are written as the code has them. Loops over lists and fixed ranges are
-- recursions on the list or the number of rounds. `num_levels_needed` and the loop over the bits
-- of a word in `fetch_frame` recur on fuel, 12 and 33. The first suffices for 2 ^ 60 frames,
-- above which the loop of the code does not end, and the second always. The loop of `rcall`
-- recurs on the tries that are left. `write_string` and the loop of `sys_exec` over its parameter
-- string are machines that are fed one byte at a time, so they recur on the bytes.
-- `Arc::strong_count` is the number of references that the kernel's state holds, in process
-- handles, mount points and waiting messages, and one for the local variable. Where `sys_close`
-- drops the last of them, the cell of the Rendezvous becomes empty; what the thread and the
-- message in it own is not followed. `free_pages_rec` and `copy_pages_rec` recur on the level of
-- a table, and visit 512 entries at each.
--
-- Where a program or a region of memory can make a sum or product of 64 bits leave its range
-- (`count_levels`, `fill_levels`, `load_segment`, `page_range`), the wrap is written out, as in the
-- release build that the makefile makes.
--
-- Not modelled: the x86_64 crate, of which the entries of page tables, `VirtAddr::new`,
-- `PhysAddr::new` and the `Mapper` are parameters. The system calls take the memory manager as
-- the interface `MemoryOps`, which Pages/Interface.antt fills, and Launch.antt takes the loader
-- as the parameter `load`, which Launch/Loader.antt defines over those page tables. In
-- Scheduler.antt a thread that exits is only removed; Launch/Processes.antt has what is freed
-- then. Text from user memory is given as the result of `str::from_utf8`, in Launch.antt by the
-- parameter `from_utf8`. A frame allocator is taken as set up from the region that `init`
-- chooses, and the sequences of calls of Frames/Runs.antt have no `return_frame` with a full
-- stack. Left out are hardware access (ports, interrupt controllers, descriptor tables), the
-- object crate that parses ELF files, the heap of the kernel, console output, and the user
-- programs but those above. The `syscall` instruction is a parameter of Std.antt.
-- euralios_std/src/path.rs is a copy of the module of the Rust standard library; its iterator
-- over the components of a path is a parameter of Server.antt, and what it says of a parent and a
-- file name an argument in Std/Directories.antt. Replies of a server are recorded as sent; a
-- reply that fails is only printed by the code.
mod Prelude
mod Constants
mod State
pub mod Threads
pub mod Messages
pub mod Channels
pub mod Mounts
pub mod Scheduler
pub mod Syscalls
pub mod Services
pub mod Frames
pub mod Chunks
pub mod Pages
pub mod Vga
pub mod Std
pub mod Server
pub mod Ramdisk
pub mod Launch
mod Examples
