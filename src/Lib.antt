-- ===== src/Lib.antt =====
-- A verification library for the kernel of the os-elephant operating system, as it stands in the
-- directory ch15: the chapters before it hold earlier states of the same files.
--
-- The program. Threads run on one processor. The timer interrupt takes the processor away and
-- `schedule` hands it to the first thread of the ready queue; semaphores and locks block and
-- unblock threads through it. Bitmaps, intrusive lists and the string functions serve every other
-- part: the page allocator, the inode and block maps of a partition, the queue between the keyboard
-- and its readers, the path names of the file system and the shell.
--
-- The files, each with the code it models:
--   Base           numbers, lists and the results of kernel code (ch15/kernel/global.h, stdint.h)
--   Bitmap         ch15/lib/kernel/bitmap.c: the record of the bitmap and the memory behind it
--   KernelList     ch15/lib/kernel/list.c: the store of the links, one pair for each address
--   CString        ch15/lib/string.c: the memory as a function from addresses to bytes
--   Interrupt      ch15/kernel/interrupt.c: the interrupt flag
--   IoQueue        ch15/device/ioqueue.c: one pass of the loop of each operation at a time, with the
--                  holder of the lock around a wait
--   Thread         ch15/thread/thread.c: the ready queue and the states of the threads
--   Thread/Timer   ch15/device/timer.c
--   Thread/Sync    ch15/thread/sync.c: semaphores and locks
--   Thread/Mutex   threads that take and release one lock, with the timer between any two steps; a
--                  step reads or writes one field of the lock, or is a semaphore's operation, which
--                  runs with interrupts off
--   Keyboard       ch15/device/keyboard.c: the table of characters and the handler of one byte
--   Memory         ch15/kernel/memory.c: the pools, the page table and the virtual addresses; in
--                  Memory/Alloc whole pages, in Memory/Init the set-up and the arenas
--   Heap           ch15/kernel/memory.c: memory of any size, sys_malloc and sys_free; in Heap/Refill a new
--                  arena, in Heap/Pop a block from a list, in Heap/Free one that goes back
--   Ide            ch15/device/ide.c: sectors through the ports of a channel; in
--                  Ide/Ports what a drive makes of them, in Ide/Chain the partition tables
--   Fork           ch15/userprog/fork.c: a process and its copy, with the address spaces side by side; in
--                  Fork/Closing a file that both have open
--   Process        ch15/userprog/process.c: the page directory of a process
--   Inode          ch15/fs/inode.c: place and writing of an inode on a disk of bytes
--   Format         ch15/fs/fs.c: the super block of a fresh partition; ch15/fs/file.c: its maps
--   Path           ch15/fs/fs.c: the parser of path names
--   Shell          ch15/shell/shell.c: the parser of a command line
--   Stdio          ch15/lib/stdio.c: formatted output into memory
--   FileIo         ch15/fs/file.c: file_write and file_read; in FileIo/Sound, Grow and Collect the blocks of a
--                  file, in Appends and Reads the loops, in Written and Input the whole calls; in
--                  FileIo/Release inode_release of ch15/fs/inode.c
--   Directory      ch15/fs/dir.c: the entries of a directory in memory and on the disk; in Directory/Lookup the
--                  search, in Inserted an insertion, in Found the two together
--   FileTable      ch15/fs/file.c and ch15/fs/fs.c: the table of open files and that of a process
--
-- How code becomes definitions. A function that changes a structure takes it and returns it. A
-- failed `ASSERT` or a `PANIC` is the outcome `panic`; an access that the code must not make is
-- `fault`. A `uint32_t` is a number below 2 ^ 32 with its wrap-around written out. A result that
-- the callers only compare with -1 or NULL is an option.
--
-- Loops and fuel. A loop over a range or an array recurs on the number of its rounds, which the
-- code fixes. A loop that ends at a mark in memory (the end of a string, the tail of a list, a
-- clear bit) recurs on fuel and comes to `out_of_fuel` without it; the theorems on such a loop
-- state that the code returns once the fuel exceeds the length of the text or of the list, or the
-- number that is printed: these bound the rounds. The loop of `ide_read` and `ide_write` has at
-- most a round for each sector, `partition_scan` goes as deep as a chain is long, and the search of
-- a free list has a round for each block.
--
-- In Ide a drive is known by what its status port answers, which is a parameter, and what the
-- driver does is a log of its ports; Ide/Ports says which sectors a drive moves for a log.
-- Elsewhere the disk is a function from byte addresses to bytes, and `ide_read` and `ide_write`
-- move sectors of it; the layout of a `struct inode` in memory is a parameter. The page allocator's
-- locks are counters of the running thread.
--
-- In Memory the words are those that the addresses show, one for each address: two addresses of one
-- physical page are not tied. In Heap the structures at the start of arenas, the links in free
-- blocks and the words of memory are kept apart, though in memory they share the page, and a
-- `memset` clears all three. In the other parts a buffer that `sys_malloc` gives is a flag that
-- says whether there is one, or its address; `sys_free` of it leaves no trace in the model. What
-- `inode_sync` leaves in its buffer is not kept. A directory entry stands in the memory and on the
-- disk as the 24 bytes of its structure.
--
-- Not modelled: the boot loader and the assembly files (they are not C), console.c, the set-up in
-- `ide_init` with what it prints, the system call stubs, the opening and removing of a directory,
-- `inode_open`, the creation and opening of files, the rest of the shell, and the start and the
-- loading of processes. The increment and the decrement of a lock's count are one step each: no
-- other thread writes the count then.
pub mod Base
pub mod Bitmap
pub mod CString
pub mod Directory
pub mod FileIo
pub mod FileTable
pub mod Fork
pub mod Format
pub mod Heap
pub mod Ide
pub mod Inode
pub mod Interrupt
pub mod IoQueue
pub mod KernelList
pub mod Keyboard
pub mod Memory
pub mod Path
pub mod Process
pub mod Shell
pub mod Stdio
pub mod Thread
