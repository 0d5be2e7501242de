-- ===== src/Lib.antt =====
-- A verification library for the Pintos kernel of this repository. Paths below are relative to
-- projmod#3_OS-20211125T213946Z-001/projmod#3_OS/project-module-3-group17_cs301/src/.
--
-- The parts and how they interact. Threads share one processor: threads/thread.c keeps the queue of
-- ready threads and switches between them; threads/synch.c builds semaphores and locks on its calls
-- to block and unblock a thread; devices/intq.c is a queue between interrupt handlers and threads,
-- which blocks them itself. The file system keeps a bitmap of the sectors in use
-- (lib/kernel/bitmap.c under filesys/free-map.c), and filesys/inode.c takes sectors from it for the
-- index of a file; filesys/cache.c stands between it and the block device. Virtual memory
-- keeps such a bitmap of the slots of the swap device (vm/swap.c).
-- userprog/pagedir.c keeps the page tables of the user processes in pages of threads/palloc.c.
-- lib/ustar.c prints the numbers of archive headers by lib/stdio.c.
-- GCC calls lib/arithmetic.c for 64-bit divisions all over the kernel.
--
-- The files, each with the code that it models; the definitions bear the names of the C functions,
-- less the prefix that the module's name already says (`Bitmap.scan` is `bitmap_scan`):
--   Bitmap.antt     lib/kernel/bitmap.c: create, set, mark, reset, flip, test, the operations on
--                   ranges, scan, scan_and_flip. Bits, Range, Scan and Queries prove what they do to
--                   the bits; `Bits.bit` is the abstract view, one Boolean for each index.
--   Cache.antt      filesys/cache.c, and check_sector, block_read and block_write of
--                   devices/block.c. Victim is about the choice of a victim, View about what the
--                   cache shows in each sector, Agree, Fetch, Block, Calls and Flush about the calls.
--   Directory.antt  filesys/directory.c: dir_add, dir_remove, dir_readdir and what they call, on the entries
--                   of a directory, and the openers of the inode that is removed. Names has the map
--                   from names to entries, Add, Remove and Calls the calls on it.
--   Division.antt   lib/arithmetic.c: divl, nlz, udiv64, umod64, sdiv64, smod64 and the routines for
--                   GCC. Leading is about nlz, Estimate about the quotient's correction by one,
--                   Unsigned and Signed about the quotients.
--   File.antt       filesys/file.c and the counts of openers and denials of filesys/inode.c; Denial
--                   has the agreement of the counts with the open files.
--   Frame.antt      vm/frame.c: select_frame_to_evict; Clock is about its passes.
--   FreeMap.antt    filesys/free-map.c: init, allocate, release; proofs in Laws.
--   HashTable.antt  lib/kernel/hash.c, the elements' hash and order being parameters. Sums, Valid, Rehash
--                   and Steps lead to the calls against a finite map, in Calls.
--   Inode.antt      filesys/inode.c: the macro CHECK_ALLOCATE_AND_GET_SECTOR, the two allocations,
--                   and inode_pos_to_real_sector with its direct, indirect and doubly indirect
--                   tables. Route has the arithmetic, Lookup and Again that what was allocated is
--                   found.
--   Intq.antt       devices/intq.c: a round of getc and of putc, wait and signal; Queue has the
--                   abstract queue.
--   Malloc.antt     threads/malloc.c: malloc_init, malloc, free, and the size of calloc. Blocks is about the
--                   blocks of an arena, Calls about a block that is taken and given back.
--   Monitor.antt    threads/synch.c: condition variables; Broadcast is about wake-ups.
--   Pagedir.antt    userprog/pagedir.c and threads/pte.h: lookup_page and the calls on user pages.
--                   Entries, Valid, Map and Create lead to the map from pages to entries; Calls and
--                   Clear are about mapping and clearing.
--   Palloc.antt     threads/palloc.c: palloc_init, palloc_get_multiple, palloc_free_multiple and what
--                   they call, on the bitmaps above. Fill is about memset, Get, Free and Start about
--                   the calls.
--   Printf.antt     lib/stdio.c: format_integer and what it is made of; Args, Parse and Format have the
--                   arguments, parse_conversion, and __vprintf with vsnprintf. Digits, Number, Width,
--                   Buffer, Rest and Ends are about the digits, their reading by atoi, the length of the
--                   output, the buffers, and what the loop prints.
--   Random.antt     lib/random.c: the RC4 generator; Permutation is about its array.
--   Rtc.antt        devices/rtc.c: the time from the registers of the clock; Date compares it with the
--                   calendar.
--   Scheduler.antt  threads/thread.c: next_thread_to_run, thread_schedule_tail, schedule,
--                   thread_block, thread_unblock, thread_yield, the end of thread_exit, and the time
--                   slice of thread_tick. Invariant, Switch and Rounds prove the invariant, the calls
--                   and round robin.
--   Sleep.antt      threads/thread.c: thread_sleep and the wake-ups of thread_tick; Order has the
--                   sorted list of sleepers.
--   Stdlib.antt     lib/stdlib.c: the heap sort (Order, Heap, Count, Sort), binary_search (Search) and
--                   atoi (Number).
--   Strings.antt    lib/string.c: memcpy, memmove, memcmp, memchr (Blocks), strlen, strlcpy and strlcat
--                   (Copies).
--   Swap.antt       vm/swap.c: swap_init, swap_free, swap_out, swap_in; proofs in Laws.
--   Sync.antt       threads/synch.c: semaphores and locks. System is the step relation of threads
--                   that acquire and release one lock in any interleaving; Turn, Exclusion and
--                   Progress prove its invariant and what follows.
--   Ustar.antt      lib/ustar.c: names and headers that are made; Field has the offsets, Parse the
--                   parser. Names, Octal, Numbers, Fields, Header and Made lead to the round trip.
--   Base.antt       C's comparisons, arrays and bits on native numbers. The Tests of each part hold
--                   examples on concrete states.
--
-- Numbers. A machine word is a natural number below its power of two, with the wrap-around written
-- out where the source adds or multiplies words; bit operations are the native ones. `size_t`,
-- `unsigned long` and `block_sector_t` have 32 bits. A thread is a number. Flags of `Option`: `none`
-- is a failed ASSERT, a PANIC, a fault or a trap, unless a definition says otherwise.
--
-- Loops. Each bounded `for` loop is a recursion on the number of rounds that are left, computed from
-- the loop's own bounds, so that no fuel is needed. The loops that wait (sema_down, intq_getc,
-- intq_putc) are modelled round by round: between two rounds other threads run.
--
-- Atomicity. The code turns interrupts off, or holds a lock, around what is one step here; the
-- ASSERTs about the interrupt level and about null pointers, which concern the caller, are left out.
--
-- Parameters. What `malloc` and `bitmap_write` return is an argument (`got_struct`, `storage`, `got`,
-- `written`); so are the locks of cache entries that others hold (`busy`) and what they do to the cache in
-- the middle of a call (`other`), what the variable `is_allowed` of bc_block_write happens to hold, the
-- comparison of a sort or search, and the functions of a hash table, with what they must do as a
-- hypothesis (`Orders`, `Sorted`, `Contract`), what `inode_write_at`, `inode_open` and `dir_open` return to
-- a directory (`written`, `opened`, `child`), and what the page allocator returns to `malloc` (`page`,
-- `pages`). Pagedir.antt takes the pages that palloc_get_page will give as a list. Inode.antt takes the
-- buffer cache as the device itself: a sector that was written is read back.
--
-- Undefined behaviour. Where C leaves open what happens, as for an access outside a table of an inode, a
-- signed overflow in rtc_get_time or vsnprintf, or a close of a freed inode, the result is `none`; the
-- source has no check there.
--
-- Fuel. The victim search of the cache has fuel for eight rounds: an entry without readers
-- and with a free lock gets its second chance in the second at the latest, and is taken in the next;
-- from the seventh on it waits for locks. `heapify` and `binary_search`
-- have one round more than there are elements, since the index grows or the range shrinks in each;
-- `rehash` has one more than the buckets wanted. The choice of a frame, which goes on without a bound,
-- takes its fuel as an argument, and so do `strlen` and `vprintf`, which needs one round more than the
-- format has characters. The digits of a number have fuel for 64 rounds, one for each bit at the most.
--
-- Not modelled: thread creation and priorities, the rest of inode.c (the list of open inodes,
-- reading, writing and growing), the opening of directories and paths, pagedir_create and
-- pagedir_destroy, the rest of vm/frame.c, vm/page.c, system calls, realloc, linked lists, the
-- iterators of hash tables, the read-ahead of the cache, and the searches of lib/string.c: not yet.
-- The wrappers of lib/stdio.c with variable arguments only pass them on.
-- Drivers and the assembly code are I/O and are left out.
pub mod Base
pub mod Bitmap
pub mod Cache
pub mod Directory
pub mod Division
pub mod File
pub mod Frame
pub mod FreeMap
pub mod HashTable
pub mod Inode
pub mod Intq
pub mod Malloc
pub mod Monitor
pub mod Pagedir
pub mod Palloc
pub mod Printf
pub mod Random
pub mod Rtc
pub mod Scheduler
pub mod Sleep
pub mod Stdlib
pub mod Strings
pub mod Swap
pub mod Sync
pub mod Ustar
