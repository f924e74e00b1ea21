-- ===== src/Lib.antt =====
-- Verification of the NKU operating system kernel, as it stands in lab8code/lab8, the last stage of the
-- course; paths without a stage are of that one. The kernel is modelled in parts that meet in the records named below.
--
-- LinkedList (libs/list.h): the intrusive doubly linked lists. `Links` holds the `next` and
-- `prev` pointers of all nodes, a node is a number, and each operation is a function on `Links`:
-- `list_add`, `list_del` and the others; `raw_list_add` and `raw_list_del` are `__list_add` and
-- `__list_del`. The abstract view is `IsRing`: which nodes follow a head until it comes back.
--
-- Strings (libs/string.c): strings and blocks over `Memory`, the byte at each address, with a function for
-- each of the source; `strtol` is in Numbers, with `printnum` of libs/printfmt.c, libs/hash.c and libs/rand.c. A loop that ends at a zero byte takes a number of rounds; one
-- more than the string has bytes is enough, and for `printnum` one more than the number.
--
-- Mm.FirstFit (kern/mm/default_pmm.c): the first-fit manager of physical pages. `FreeArea` holds
-- the pages (`struct Page`), the links and `nr_free`; the operations have the names of the source, and
-- their loops are `insert_walk` (by which a block gets its place), `find_fit` (the search), and
-- `reset_reserved` and `reset_freed` (the pages one by one). The loops over the list take a number of
-- rounds and yield `none` when it is used up, as does an assertion that fails; one round more than there
-- are blocks is enough for a search, and two more than there are for an insertion at the end.
-- The abstract view is `IsArea`: a list of disjoint blocks in the order of addresses.
--
-- Mm.Vma (kern/mm/vmm.c): the areas of an address space. `MmStruct` is `struct mm_struct` with its list of
-- areas; `find_vma` looks into the cache and then through the list (`search_list`), and the walk of
-- `insert_vma_struct` is `insert_vma_walk`. Mm.Space is the
-- rest of that file: `user_mem_check` (its loop is `user_mem_from`, for which a round for each byte is
-- enough), the copies between user and kernel, `mm_map`, `dup_mmap` and `exit_mmap`; whether
-- `kmalloc` and `copy_range` succeed is a parameter. `do_pgfault`, over the record `Paging` of the page tables
-- and the swap, and `copy_string` are in Space.Fault. `mm_create` and `mm_destroy` are not modelled.
--
-- Mm.Swap: the page replacement policies over the lists of LinkedList, where a page is its index: FIFO
-- (kern/mm/swap_fifo.c), clock (lab3/kern/mm/swap_clock.c) and LRU (lab3/kern/mm/swap_lru.c). The searches of the latter
-- two take a number of rounds; for the clock one more than there are pages is enough.
--
-- Mm.BestFit (lab2/kern/mm/best_fit_pmm.c): the best-fit manager, over the state of Mm.FirstFit; only its search, `find_best`, is
-- its own. One round more than there are blocks is enough for it.
--
-- Mm.Buddy (lab2/kern/mm/buddy.c): the buddy manager. `FreeBuddy` holds the pages, the links and the
-- counters; the lists of the orders and the pages have their addresses in one `Links`. The loops of `log2` and `floor_pow2`
-- take a number of rounds, for which one more than the size is enough; two are enough for the loop of `buddy_free_pages`.
--
-- Errors (libs/error.h): the error codes, which Mm and Fs share.
--
-- Sched: libs/skew_heap.h is in SkewHeap. kern/schedule/sched.c is in Core, over the record `SchedClass`
-- of a policy (`struct sched_class` of kern/schedule/sched.h) and the laws `SchedLaws` that it has to
-- keep; Stride is the policy of kern/schedule/default_sched_stride.c, and fills these laws in Stride.Laws.
-- The timers of sched.c are in Timer: a list in which each timer counts from the one before.
-- Semaphore is kern/sync/sem.c with the wait queues of kern/sync/wait.c; `down` is in two steps, `down` up
-- to its call of `schedule` and `down_return` behind it. The
-- interrupt flag is not modelled, since each operation runs with interrupts off, nor are
-- `sched_init` and the switch of registers.
--
-- Process (kern/process/proc.c) has `get_pid`, over the identifiers on `proc_list`; its two static variables are
-- `PidState`. The loop from the label `repeat` on is `walks`, and `walk` is one round of it; `max_pid` rounds are enough.
-- Process.Tree is the tree of processes (`cptr`, `yptr`, `optr`, `parent`), with `proc_list` and each list of the hash table
-- given by the processes on it: `set_links`, `remove_links`, `hash_proc`, `unhash_proc` and `find_proc`. Process.Resources
-- counts the references to memory and files (`copy_files`, `copy_mm`, `put_files` and the part of `do_exit` that
-- gives memory back); the lists `dead_mms` and `dead_files` note what was destroyed,
-- `closable` says which tables of files `files_destroy` of Files ends for without a failed assertion, and `files_panic` that it
-- was called for another one, and `Grants` says which allocations
-- succeed. Process.Kernel joins these with the scheduler of Sched: `do_fork`, `do_exit`, `do_wait` and
-- `do_kill`. `do_wait` ends at its call of `schedule`, and `wait_return` is what follows when the process runs again. The loops
-- over the children of a process take a number of rounds; one more than it has children is enough. The registers and the kernel
-- stacks (`copy_thread`, `setup_kstack`), `proc_run`, `do_execve`, `load_icode` and `do_sleep` are not modelled.
--
-- Fs: kern/fs/iobuf.c is in Iobuf, over the memory of Strings. kern/fs/file.c is in File (the open-file
-- table of a process) and File.Ops (`file_open`, `file_close` and the others). They reach a
-- file system through the record `Vfs` of operations on inodes, which may change the whole state, the
-- table included, as other threads do while one waits; `Quiet` says that they leave the table alone. In `file_open` the
-- assertions of the calls of the file systems are fields of `Vfs`, and `OpenReturns` says that they hold; elsewhere these calls
-- return.
-- Files is kern/fs/fs.c over it, where each table begins at its own number; `files_create` is not modelled.
-- Inode has the counts of kern/fs/vfs/inode.c, the names of vfslookup.c, and `vfs_open` and `vfs_close` of
-- vfsfile.c, over the record `InodeOps` of what file systems do, with `InodeLaws` for the references that they hand out
-- and the operations that their nodes have, and `CanOpen` for the counts before an open: each call of an operation has its
-- `inode_check`; `Vfs` is
-- not filled by it, since other threads run there. Stdin is the buffer of kern/fs/devs/dev_stdin.c.
-- kern/fs/sfs/bitmap.c is in Bitmap, where a word of the map is given by its bits.
-- Sfs is the simple file system over one inode: Sfs itself has the transfers of blocks of kern/fs/sfs/sfs_io.c, Sfs.Bmap the
-- map from the blocks of a file to those of the disk, and Sfs.Io `sfs_io_nolock` with `sfs_read` and `sfs_write`, all of
-- kern/fs/sfs/sfs_inode.c. The device is a function that gives the error of a transfer of a block, if there is one; the buffer
-- of the file system and its locks hold nothing between calls and are left out. The directories, the table of inodes and the
-- mounting (kern/fs/sfs/sfs_fs.c) are not modelled.
--
-- A failed assertion, which stops the kernel, is `none`. Machine words are natural numbers with their
-- wrap-around written out, or the bit patterns of signed words.
--
-- The invariant `IsScheduled` of Core.Laws: the run queue holds each runnable process but the current
-- one and `idleproc` once, and nothing else.
--
-- Not modelled are the drivers, the boot and trap code, page tables,
-- the list of devices, system calls, monitors (the bodies of kern/sync/monitor.c only print), user programs, and the earlier stages of the kernel (lab0 to
-- lab5_with_COW) but for the best-fit and buddy managers of lab2 and the policies of lab3, since they are copies of these parts in an earlier state.
pub mod Prelude
pub mod LinkedList
pub mod Strings
pub mod Mm
pub mod Sched
pub mod Fs
pub mod Errors
pub mod Numbers
pub mod Process
