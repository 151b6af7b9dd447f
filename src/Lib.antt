-- ===== src/Lib.antt =====
-- OS/161, a teaching kernel for a simulated MIPS machine: the parts of the kernel and of its C
-- library whose behaviour does not rest on the hardware.
--
-- Files and what they model (paths from the repository's root):
--   Base       what the others share: C arrays as lists, Boolean tests, outcomes (a panic is a
--              value)
--   Memory     os161/lib/libc/memcpy.c and memmove.c: copying within one memory
--   Array      os161/kern/lib/array.c: growable arrays of pointers, which use memmove
--   Queue      os161/kern/lib/queue.c: queues in a ring that doubles, used by the scheduler
--   Bitmap     os161/kern/lib/bitmap.c: bitmaps, used by the file system for its free blocks
--   Scheduler  os161/kern/thread/scheduler.c: the run queue, a Queue
--   Threads    what synch.c uses of the thread system (os161/kern/include/thread.h): an interface
--   Synch      os161/kern/thread/synch.c: semaphores, locks and condition variables, over Threads;
--              the threads that wait on a condition variable stand in a Queue
--   Printf     os161/lib/libc/__printf.c: formatting, for a client that takes the text in pieces
--   Snprintf   os161/lib/libc/snprintf.c: formatting into a buffer, such a client
--   Text       os161/lib/libc: strlen.c, strcmp.c, strchr.c, strrchr.c, strcpy.c, strcat.c, atoi.c
--              and strtok_r.c; atoi reads what Printf writes
--   Uio        os161/kern/userprog/uio.c: transfers within the kernel, which use Memory
--   Hashtable  os161/kern/lib/hashtable.c: the table of the processes, which uses Text for its keys
--   Vfs        os161/kern/fs/vfs/vfslookup.c: getdevice, which cuts a path up, and the grammar of
--              paths
--   Sfs        os161/kern/fs/sfs/sfs_io.c and os161/kern/fs/sfs/sfs_vnode.c: the block mapping
--              (Sfs.Bmap), and file I/O (Sfs.File), which joins it with Uio and Memory
--   Vm         os161/kern/arch/mips/mips/ram.c and dumbvm.c: physical memory, address spaces, and
--              the faults that load the TLB; as_copy uses Memory
--   Kheap      os161/kern/lib/kheap.c: kmalloc and kfree, on pages of Vm
--   Lhd        os161/kern/dev/lamebus/lhd.c: the transfers of the disk's driver, which use Uio; a
--              device of Sfs
--
-- Bounds and fuel. Recursion that the code bounds by a counter recurs on that counter. q_addtail
-- and q_grow call each other: the depth of the calls is an argument, and two calls are proved
-- enough. The doubling loop of q_grow and the idle loop of the scheduler take a bound on their
-- rounds, and running out of it counts as a panic. sfs_rwblock makes eleven tries, as the code
-- does.
--
-- The digits of a number take a slot of their buffer each, and a write before the buffer is a
-- panic. The loops of the string functions end with their memory, and to run off its end is a
-- panic.
--
-- The rounds of uiomove are bounded by the bytes asked for, and one is proved enough for a uio that
-- is set up correctly; uiomovezeros takes as many rounds at most as bytes.
--
-- In Synch, what runs with interrupts off is one step, and threads take steps in any order. The
-- loop of cv_broadcast takes as many rounds as threads wait.
--
-- In Hashtable, what the dummy entry and fresh memory hold is an argument, and so is what a char
-- counts for in arithmetic. To read outside the table, through NULL, or to free the dummy is a
-- panic.
--
-- What is a parameter: sleeping and waking (the thread system's source is not here), whether
-- kmalloc finds memory, what an idle processor is interrupted by, what a disk answers to each try
-- of each transfer, in Lhd the result code of each operation of the disk's card, in Vm.as_copy what
-- the kmalloc and the kfree of the structure do to memory and to the free frames, and in Vfs
-- whether there is a boot file system, whether the current directory has a file system, and what
-- vfs_getcurdir and vfs_getroot return.
--
-- The sizes that Queue and Array ask of kmalloc wrap at 2^32 bytes, as size_t does; an int that
-- overflows is a panic. The loop of array_preallocate takes as many rounds at most as cells are
-- asked for, and they are proved enough for a well-formed array. A lock may be released by any
-- thread, as in the code: the theorem on mutual exclusion has the discipline of the callers as a
-- condition on the run.
--
-- In Sfs.File, a position of the uio and the size of a file are words of 32 bits, which are compared
-- as off_t, with a sign; the theorem on reading asks for positions and a size below 2^31. A try that the device fails moves no data, as in
-- Sfs.Block; the driver of Lhd, when a write fails, has used the uio up.
--
-- In Vm, `& PAGE_FRAME` and `& TLBLO_VALID` are written with remainders. The processor calls
-- vm_fault for a page that no valid entry of the TLB is for: Vm.Coherence.Reachable has that as a
-- condition of a fault. The starting contents of the TLB and its length are any.
--
-- In Kheap, the arrays and intrusive lists of pagerefs are lists of their places. Memory is its
-- words, by address. A theorem on the heap takes the free blocks of each page as a function,
-- `free`, and tells what they are afterwards.
--
-- Not modelled: the other device drivers and traps, which are the hardware's; threads, whose source
-- is absent; the paging of vm1.c and vm2.c, which are drafts over a coremap and page tables that
-- are absent; transfers with user memory, which rest on the machine's handling of faults; the
-- directories and the vnodes of the file system, the VFS beyond the parsing of paths, malloc, which
-- are left for later; random.c, which is BSD's; the programs and tests that run on the kernel.
pub mod Base
pub mod Hashtable
pub mod Vfs
pub mod Lhd
pub mod Memory
pub mod Uio
pub mod Vm
pub mod Kheap
pub mod Array
pub mod Queue
pub mod Bitmap
pub mod Scheduler
pub mod Threads
pub mod Synch
pub mod Sfs
pub mod Printf
pub mod Text
pub mod Snprintf
