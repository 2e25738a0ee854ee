-- ===== src/Lib.antt =====
-- OSDesign: a user-level thread library, its virtual memory and a simple file system, as verified
-- models of the C code.
--
-- The program has three parts. The thread library (my_pthread.c, my_pthread_t.h) keeps the threads
-- in queues (LinkedList.c, LinkedList.h), which a timer and the calls of the threads move. vm.c and
-- vm.h serve `malloc` and `free` from one block of memory, keep the pages of each thread, swap them
-- in when a thread faults and out to a file when memory is full; the thread library reserves its
-- data there and tells it which thread leaves the processor. filesystem/src/sfs.c is a FUSE file
-- system over the blocks of filesystem/src/block.c, apart from the other two.
--
-- Base: numbers, tests, lists, and commands on a state that may fault or run out of rounds.
--
-- LinkedList models LinkedList.c. A heap maps addresses to nodes and to the `my_pthread_t` cells
-- (LinkedList/Memory); `malloc` is an argument that gives the two new blocks. Chain, Queue and its
-- children say what a well-formed list is and what push, pushOrdered and pop make of it;
-- LinkedList/Spec holds the insertion on plain lists that they implement; Oldest is orderByOldest.
-- The priorities and creation times, read through pointers, are functions on the cells' values.
--
-- Pthread models my_pthread.c: a table of threads, the mutexes, the run queue and the running
-- thread. A thread is its index in the table, and the queues are lists of threads, ordered by the
-- insertion of LinkedList/Spec. Each call is a function on this state; `join_wait` and `lock_wait`
-- end where the C code switches its context, and `join_result` is what join does afterwards. What
-- vm.c does for the library is a parameter. Places counts where each thread stands, and its History
-- is the relation of the states that any sequence of ticks and calls leads to; Mutex follows the
-- owner of a mutex along such a sequence, and its Race is the tick between the read and the write of
-- a test; Priority is the tick and the yield; Switch is the switch
-- of the tick once more, on the heap of LinkedList, with the queue that it stands for; Waiting is
-- about how long a thread of the queue waits, Wake about whom the end of a thread wakes, Entry
-- about the function that a thread's context starts with and the result that a join gets. Pages
-- fills the parameter with vm.c: which bytes are guarded when a thread leaves the processor.
--
-- Vm models vm.c: memory as headers and bytes (Memory), the spaces of a list (Space), the swap file
-- (Swap), the pages of the processes (Pages), init (Boot), protection, the fault handler and the
-- entry points (Alloc), and the printing functions as the sequence of their lines (Print).
-- Space/Find, Space/Carve and Space/Free are about the search, the division and the return of a
-- space, Swap/Victim about the page that is moved out, Swap/Fix and Swap/File about the way from one
-- array through the file into another one, Boot/Table and Boot/Shared about the loops of `init`, Boot/Layout about the whole of it,
-- Pages/Restore and Pages/Exchange about the exchange of two pages. Alloc/Table is about the walks
-- along the table of the pages, whose marks they write, Alloc/Guard about `memoryProtect`,
-- Alloc/Load about `loadProcessPages` for a thread with one page, Alloc/Handler about a fault of
-- such a thread, Alloc/Malloc and Alloc/Reserve about `myallocate` for an element and for the page
-- of a new thread, Alloc/First about `init` with the page of the main thread behind it.
--
-- Filesystem models sfs.c over block.c: the disk (Disk), the descriptor of its file (Device), the
-- maps (Reserve, with the Search that both share, Map and Bytes on the data blocks, Inodes), the
-- search along a path (Path, with Round and Resolve, the lookup of one name after another), and
-- directories with the calls of FUSE (Directory, with Entries, Init, Names and Create). Requests is
-- the table of the operations, with the relation of the disks that any sequence of them leads to,
-- while reads and writes begin to fail or work again; Integrity says what may stand in each block,
-- with Short on the names of a path that fit an entry, and Keeps has the rules by which a command
-- keeps a property of the disk. A path is a list of bytes.
--
-- Loops along pointers take a number of rounds, and running out of them is a result of its own. For
-- a list of n nodes n + 1 rounds are enough, for the map of the data blocks, whose 60 blocks come
-- from `sfs_init`, 61; the theorems have these numbers as hypotheses. Integers keep the wrap of
-- their C type where the code computes with them; int values stand as 32-bit patterns, pointers as
-- natural numbers.
--
-- What the code leaves unset is an argument or a field: the `i` of `updateDir`, the rest of the buffer
-- of `sfs_init`, the result of a join, read from a stack that may have changed, and the list that
-- `orderByOldest` does not clear; a tick that orders into a list of other bytes is not followed, and
-- a mount that finds no block for the root counts as a fault. `mprotect` acts on whole pages.
--
-- Not modelled: the signal masks, contexts and the signal handler of the thread library, the texts
-- that are printed, `printSwapF`, `findPageInSwap`, which is compiled out and has a copy of the
-- swap file of its own, `setSIGSEGV`, `sfs_destroy`, which only writes to the log, the command line
-- of sfs.c, its call of `disk_open`, log.c, and the programs under Benchmark and Test.
pub mod Base
pub mod LinkedList
pub mod Pthread
pub mod Vm
pub mod Filesystem
