-- ===== src/Lib.antt =====
-- k_panic models the core of kPanic, a teaching kernel (SWEB) for x86-64 with processes, threads
-- and pipes, and of the C library of its user programs.
--
-- A process (common/source/kernel/UserProcess.cpp) keeps its threads, the values that exited
-- threads left, who waits for whom, its open files and its pipes. The system calls of
-- common/source/kernel/Syscall.cpp act on it; a pipe is a ring of
-- common/include/util/RingBuffer.h. The C library (userspace/libc/src) prints, reads and copies.
--
-- - Base: tests, lists, integers, and maps as association lists, for all other modules.
-- - RingBuffer: common/include/util/RingBuffer.h. `put`, `get`, `clear`; RingBuffer/Queue is what a
--   ring promises; RingBuffer/Refine is about single operations, RingBuffer/Run about sequences of
--   them, and RingBuffer/Transfer about the loops that move whole buffers.
-- - FiFo: common/include/util/FiFo.h. FiFo/Queue is what the buffer promises under each policy of
--   its flags, Refine and Runs compare the two, Count is about countElementsAhead, Monitor has
--   the threads that sleep on its conditions, and Waking follows their wake-ups.
-- - UserProcess: the threads of UserProcess.cpp and the flags of UserThread.cpp: joinThread is
--   `join_thread` up to its sleep and `join_wake` behind it, exitThread `exit_thread`,
--   cancelThread `cancel_thread`, joinDeadlock `join_deadlock`, allocNextFreeTID `next_free`,
--   internalAddNewThread `internal_add_new_thread`, onThreadDestroyed `on_thread_destroyed`.
--   UserProcess/Protocol puts them in any order; UserProcess/WaitGraph and Sleep are about who
--   waits for whom, Join and Wake about the values handed over, Tid, Bounded and Fresh about the
--   numbers of threads, Stack about ASLRStackManager.
-- - ProcessRegistry: common/source/kernel/ProcessRegistry.cpp with waitForPid and waitForAnyPid
--   of UserThread.cpp and waitpid of Syscall.cpp, up to the sleep. ProcessRegistry/Waits is about
--   who waits for whom, Deadlock about checkWaitPidDeadlock, Protocol about processes in any
--   order, Wake and Liveness about who wakes whom, Stops about calls that stop the kernel.
-- - Scheduler: schedule, addNewThread and cleanupDeadThreads of common/source/kernel/Scheduler.cpp
--   over the list of threads, with sleepUntil of UserThread.cpp. The clock is an argument that each
--   call reads once. Scheduler/Choice is about one call of schedule, Scheduler/Fair about the wait
--   of a thread that may run, over any run of calls, Scheduler/Cleanup about the dead threads.
-- - Mutex: acquire and release of common/source/kernel/Mutex.cpp on one mutex, with the list of
--   waiters of Lock.cpp and wake of Scheduler.cpp, cut into atomic pieces that threads take in any
--   order. Mutex/Places is about moves of one thread, Safety and Exclusion about the flag and its
--   holder, Waiting, Leaving and Wakeup about the threads that sleep. The test for circles of locks
--   and the diagnostics are left out.
-- - Descriptor: addLocalFD, getGlobalFD, removeLocalFD, openPipe, readFromPipe, writeToPipe,
--   isPipe of UserProcess.cpp; Descriptor/Fork has what a fork does with the descriptors and
--   pipes of the parent, and the destructor with those of a process; Descriptor/Calls has write,
--   read, close, open and pipe of Syscall.cpp over the file system and terminal as the parameter
--   `Vfs`, whose functions are in common/source/fs.
-- - Bitmap: common/source/util/Bitmap.cpp; Bitmap/Bits is about single bits, Bitmap/Count about
--   their number.
-- - PageManager: reservePages, allocPPN and freePPN of common/source/mm/PageManager.cpp over a
--   Bitmap; the constructor, which reads the boot loader's map of memory, is not modelled.
-- - KernelHeap: allocateMemory and freeMemory of common/source/mm/KernelMemoryManager.cpp, in the
--   configuration of the repository (DYNAMIC_KMM 0), where the heap does not grow.
--   KernelHeap/Tiles is about the segments side by side, Allocate and Free about the two
--   operations, Last about when freeing fails.
-- - CowManager: common/source/kernel/COWManager.cpp, with copyPagesToNewArchMemCOW of
--   arch/x86/64/source/ArchMemory.cpp. CowManager/Sets is about the sets of processes, Shared
--   about the invariant of sharing, Views about what processes see, Fault and Fork about the two
--   operations, and Runs about any sequence of actions of several processes, PageFault about
--   handlePageFault of common/source/mm/PageFaultHandler.cpp. A page table is a function, and a
--   page's bytes are one value.
-- - MinixFsZone: the table of a file's zones, common/source/fs/minixfs/MinixFSZone.cpp, without
--   its reading and writing. MinixFsZone/Tables is about the indirect tables, Lookup about single
--   writes, Append about a file as a list, Freed and Free about freeZones.
-- - MinixStorageManager: the tables of inodes and zones in use,
--   common/source/fs/minixfs/MinixStorageManager.cpp, over Bitmap, and the test in getInode of
--   MinixFSSuperblock.cpp. MinixStorageManager/Search is about the two loops that look for a
--   clear bit, Alloc about allocZone and allocInode, Free about freeZone and freeInode, Disk
--   about what flush writes and the constructor reads. allocZone has fuel for every zone and one
--   turn more; allocInode takes its fuel, since it may run for ever.
-- - KString: memmove, bcopy, memccpy and strncpy of common/source/util/kstring.cpp; KString/Move is
--   about memmove and bcopy, KString/Copy about strncpy.
-- - Libc: userspace/libc/src. Memory and Text are string.c and atoi.c, Number is writeNumber of
--   printf.c, Printf its loop over the format, with the 256 bytes of the buffer and what is
--   written behind them; writeFloat, which works on doubles, is a parameter there. Strtoul is
--   simple_strtoul and simple_strtol of scanf.c.
--
-- A machine number is its bit pattern, a number below the power of two, with its wrap-around
-- written out, and a cut from `size_t` to `int` too; positions in a table or in the heap and the
-- number of the bits that are set stay within the table or the heap and have none. What a lock
-- guards is one function. The switch of threads, spin locks, the levels of the page tables and
-- devices are not modelled, since they rest on the architecture; neither is what the blocks of
-- the heap hold.
--
-- Fuel: checkWaitPidDeadlock has one round for each process, and the loop of joinDeadlock one
-- more than there are entries, which is enough where nobody waits in a circle; allocNextFreeTID
-- has one for each thread, which is enough where its counter does not wrap round in them; the
-- digits of a 64-bit number have 64; the loops of allocPPN have one for each page from the lowest
-- one that may be free; printf has one for each character of the format. ASLRStackManager runs on
-- the list of the values that the time stamp counter gives, and asks for more where all of them
-- are refused.

pub mod Base
pub mod Libc
pub mod RingBuffer
pub mod FiFo
pub mod Bitmap
pub mod PageManager
pub mod KernelHeap
pub mod CowManager
pub mod ProcessRegistry
pub mod MinixFsZone
pub mod MinixStorageManager
pub mod KString
pub mod Scheduler
pub mod Mutex
pub mod Descriptor
pub mod UserProcess
