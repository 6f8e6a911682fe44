-- ===== src/Lib.antt =====
-- The file system of a Pintos kernel, and the library routines below it. A file's bytes reach the disk
-- through four layers: an inode (pintos/src/filesys/inode.c) maps byte positions to sectors and takes
-- its sectors from the free map (pintos/src/filesys/free-map.c), which is a bitmap
-- (pintos/src/lib/kernel/bitmap.c); sectors are read and written through the buffer cache
-- (pintos/src/filesys/buffer.c), which sits on a block device (pintos/src/devices/block.c).
--
-- A call that fails an assertion, or panics, gives `none`; state is passed in and handed out.
--
-- Block models block.c: `Device` is a `struct block` with the sectors of its driver, `block_read` and
--   `block_write` check the sector and the role of the device.
-- Cache models buffer.c: `Cache` holds the blocks, the hand of the clock and the counters over the
--   device. `cache_reset` takes what other threads do between its two critical sections. View says what a cache reads at each sector, Invariant its well-formedness, Evict follows
--   the clock, Refine the reads and writes, Flush the write-back and the reset, and Session runs sequences of calls.
-- Bits has the bits of a native number, and Bitmap models bitmap.c on lists of 32-bit words; Bit is
--   about single bits, Range about runs of bits and Scan about the search.
-- FreeMap models free-map.c. The write of the map to its file is the parameter `write_map`, for it is
--   a write to an inode again; Laws asks of it only that it does not panic on a good state.
-- Store is what the layers above the cache ask of it; Store/Cached is the cache as such a store,
--   Store/Plain the simplest one, Store/Words the layout of 32-bit words in a sector, and
--   Store/Pieces lemmas on lists. Volume puts
--   a store and a free map together.
-- Inode models the on-disk inode of inode.c, with `byte_to_sector` in Lookup and reading and writing in
--   Read; Table and Content state what the pointers and the bytes of a file are, Splice and Patch what a
--   write within a file leaves.
-- Extend models `inode_create`, `inode_extend` and `inode_dealloc`; Alloc and Laws are about growth
--   within the direct pointers, Gaps and Leak about growth and freeing elsewhere.
--
-- Open models the inodes in memory, which all who open a sector share: `OpenInodes` is `open_inodes`
--   with an address for each inode. Write is `inode_write_at`, Inside and Append
--   are about writes within a file and at its end.
-- File models file.c (pintos/src/filesys/file.c) over the open inodes. Directory models directory.c
-- (pintos/src/filesys/directory.c): slots of 20 bytes in an open inode. Names is about the names in
-- them, Lookup about the search, Slots, Add and Enter about a name that is added.
-- Paths models the splitting of paths in filesys.c (pintos/src/filesys/filesys.c). Intq models intq.c
-- (pintos/src/devices/intq.c), the queue between an interrupt handler and threads; Ring is about the
-- order of its bytes.
-- Strings models string.c (pintos/src/lib/string.c) over a memory of bytes; Build has the functions that
--   use the others.
--
-- Threads models thread.c (pintos/src/threads/thread.c): `Kernel` has its variables and the fields of the
--   threads by page, and Queue says what a switch changes.
-- Synch models synch.c (pintos/src/threads/synch.c): `Machine` adds the semaphores, the locks and the
--   condition variables, and where each thread stands in their functions. System has the steps: the
--   thread that runs goes on, calls a function, ends or creates a thread, or the timer preempts it.
--   `thread_create`, `allocate_tid` and `add_to_queue` are the parts of `thread_create` around the lock of
--   the identifiers. Threads do not sleep otherwise, so a run has no calls into intq.c.
--   Invariant says where each thread stands, Moves, Keeps, Sleeps, Switches, Wakes, Runs, Creates,
--   Joins and Ups are about single operations, Resumes about a thread that goes on, Boot about the start
--   and Steps about all; Turns, Locks and Safety
--   are about locks, Shifts, Calls and Fair about the order in which threads run, Progress about the
--   assertions of a switch.
--
-- Loops run on the rounds that are left. The clock of the cache runs on fuel of twice the number of
-- blocks and one more: one turn of the hand clears every use bit, so the second turn ends it. The loops
-- of `inode_read_at` and `inode_write_at` have one round more than there are bytes, for each round
-- copies at least one. The loops over a directory have one round more than it has
-- slots. The loops of `strtok_r` have one round more than the memory has bytes, for each
-- round moves the pointer by one.
--
-- Not modelled: interrupts other than the timer's preemption, processes, the walk along a path and the
-- calls on files, device drivers, the console, and the start of the kernel. Memory allocation is taken
-- to succeed, and lengths of files stay 511 below 2 ^ 31.
pub mod Synch
pub mod Threads
pub mod Strings
pub mod Directory
pub mod Paths
pub mod Intq
pub mod File
pub mod Open
pub mod Prelude
pub mod Bits
pub mod Block
pub mod Cache
pub mod Bitmap
pub mod Store
pub mod FreeMap
pub mod Volume
pub mod Inode
pub mod Extend
