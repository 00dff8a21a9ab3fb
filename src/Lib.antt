-- ===== src/Lib.antt =====
-- A verification library for Computer OS, a 64-bit operating system in C.
--
-- The program's parts and how they interact. The bootloader hands a memory map to the kernel
-- (src/memmap.c); the page allocator (src/pmm.c) keeps a bitmap of the physical pages that it says
-- are usable. The kernel heap (src/kheap.c) takes pages from the allocator and maps them through
-- the page tables (src/vmm.c); every other part takes its memory from the heap, the scheduler
-- (src/task.c) that of its tasks. The keyboard driver (src/keyboard.c) fills a ring from its
-- interrupt that the shell and the tasks read. The decompressor (src/inflate.c) unpacks the initial
-- file system and gzip files into a buffer of its caller. The virtual file system (src/vfs.c)
-- resolves paths and calls the file system that is mounted there, one of which is in memory
-- (src/ramfs.c); src/tar.c reads an archive from it, unpacks it if it is compressed, and writes its
-- files back through it.
--
-- Modules.
--   Prelude    shared names, tests on numbers as Booleans, lists over the native numbers, words of
--              8 to 64 bits (`u8` to `u64` cut a number to its word), the `int` of C (`ℤ`) with the
--              conversion to it, multisets as lists, checks of all numbers below a bound.
--   Pmm        src/pmm.c. The record `Pmm` holds the file's static variables, `bitmap` the bytes
--              behind `g_bitmap`. `init`, `alloc`, `free`, `mark_used` and the other operations are
--              `pmm_init`, `pmm_alloc`, `pmm_free`, `mark_used`; the passes of `pmm_init` are
--              functions of their own. Bitmap and Count are about the bits, Inv holds the
--              invariant, Alloc, Free, Loops, Init and Boot the operations, Owners runs of calls.
--   Kheap      src/kheap.c. `blocks` is the list of headers in the order of the pointers `next`,
--              each with its address. The record `Pages` is the interface to src/pmm.c and
--              src/vmm.c, over a state of its own. `init`, `grow`, `kmalloc` and `kfree` are
--              `kheap_init`, `kheap_grow`, `kmalloc` and `kfree`. Tiling holds the invariant, Live
--              what a caller sees of an allocation; Fit, Grow, Malloc, Served, Release, Init and
--              Sums are about the operations, Owners is about a client that allocates and frees.
--   Task       src/task.c. The record `Sched` holds the static variables and the memory of the
--              tasks by address, `ready` the circle from its entry on. The operations keep their
--              names; `spawn` is what the three ways to create a task share, `wait_round` a round
--              of the loop of `task_wait_child_ex` up to its `yield`, `resume` the assignment
--              behind it, `adopt` and `signal_raise` the writes of src/loader.c and
--              src/linux_syscall.c. Children has the calls for the children of a task, Queries
--              those that only look. Ring is about the circle, Inv holds the invariant, Exit and
--              Wait the life of a child, Turns the round robin, Counting the totals, Runs the
--              operations in any order.
--   Keyboard   src/keyboard.c. Ring is the buffer as a queue, Keys and Irq are about
--              `keyboard_irq`: the modifiers, and what it adds to the queue. What `tty_intr_char`
--              of src/linux_syscall.c returns is an argument.
--   Clock      src/rtc.c. Calendar is about the day numbers, Zone about `rtc_apply_offset`, Persist
--              about what the chip keeps; `decode` is `rtc_read` behind the ports. An offset is a
--              number of minutes to the east or to the west. No value of the code is negative for
--              dates from year 1 on, so that all are natural numbers; `julian_day` and
--              `calendar_date` are the formulas, and `days_to_jdn` and `jdn_to_ymd` give `none`
--              where a value on the way is no `int`.
--   Inflate    src/inflate.c. Stream is the bit reader, Huffman the decoder of canonical codes,
--              Output the output buffer, Block and Dynamic the compressed blocks, Gzip the
--              container. Run is the outcome of a loop on fuel.
--   Vfs        src/vfs.c. Path is `vfs_resolve`, with Names the specification by names, Reduce the
--              loop as a run over them, and Resolve the results; Mount is the mount table and
--              `route`, with Longest on its loop; Ops are the other functions, with Cwd, Across and
--              Errors on the working directory, on two mounts and on paths that are too long;
--              Window is `vfs_read_at`. The record `Ops` is `vfs_ops_t`, over what the file systems
--              keep; a NULL is `none`.
--   Ramfs      src/ramfs.c, an instance of `Ops`. Contents has what a name holds in the table and
--              what each call does to that; Mounted puts the file system behind src/vfs.c.
--   Tar        src/tar.c. Octal is about numbers, Paths has `join_path` and `mkdir_p`, Process the
--              loop of `tar_process` and, in Load, `tar_load_and_process`; Walk, Ends and Hang are
--              about the end of the loop.
--   Uaccess    src/uaccess.c, and the branch of `vmm_page_fault` of src/vmm.c for a fault within an
--              access. `Memory` says which addresses of a program can be read and written. Range is
--              about the range check, Copies about the two copies, Strings about `strnlen_user`.
--   The modules Tests run the definitions on concrete input, gzip files and an archive included,
--   and apply the theorems there.
--
-- How the code is written down. Static variables are fields of a record that the operations take
-- and return; a pointer into a buffer is an index of a list; -1 and a null pointer are a value of
-- their own or 0, as the callers test them. Arithmetic of unsigned C types is cut to its width
-- where a value may leave it: `u32` and `u64` around sums, products and shifts, and 2 ^ 32 added in
-- front of a subtraction. The results of `inflate_gzip` and `strnlen_user` are converted to `int`
-- as in the code.
--
-- Bounds and fuel. `bs_fill` adds eight bits in each round, so `n` rounds fill `n` bits. The loop
-- of `inflate_block` has one round more than the output has room for bytes: each round that goes on
-- writes one or returns. The loop over the blocks has one round more than the input has bits: each
-- round takes bits away, and behind the input a stored block fails its check. The loop over code
-- lengths has one round more than there are lengths. That the fuel is enough is proved: no result
-- is `out_of_fuel`. The loop of `tar_process` has a round for each block of the archive and two
-- more, which is enough when no size makes a position wrap; else no number of rounds is. All other
-- loops are on the structure of a list or a number.
--
-- Hypotheses. Sizes asked of the heap stay 48 below 2 ^ 32, since `ALIGN8` wraps at the top; the
-- heap is narrower than 2 ^ 32 bytes by a page; firmware regions end below the top of the address
-- space; gzip files are 2 ^ 17 bytes shorter than 2 ^ 32, and the buffer for what is in them has
-- less than 2 ^ 31. Nothing is assumed of the page and
-- mapping calls under the heap: they may fail at any time, and mapped memory is not shared with the
-- list of blocks. What `kmalloc` finds in src/ramfs.c, `vfs_read_at` and src/tar.c is an argument
-- there, and so is what a freed buffer of src/ramfs.c holds. The file systems under src/vfs.c are
-- any record of operations; for a move between two, `Laws` says what the calls do to their files. A negative result of an operation is `none`, whatever its value. A task
-- is spawned at an address at which no other one stands.
--
-- Not modelled: what is printed, assembly, device input and output, and the other parts of the
-- repository (file systems on disk, devices and processes as files, network, page tables, system
-- calls, shell, graphics, user programs).
pub mod Clock
pub mod Inflate
pub mod Keyboard
pub mod Kheap
pub mod Pmm
pub mod Prelude
pub mod Ramfs
pub mod Tar
pub mod Task
pub mod Uaccess
pub mod Vfs
