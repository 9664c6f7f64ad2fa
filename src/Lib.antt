-- ===== src/Lib.antt =====
-- Verification of the descriptor, tracing and address space parts of a Linux kernel tree that adds
-- requests to ptrace by which a tracer works on the descriptors and the memory of its tracee.
--
-- Base has the shared names, with the laws of the bits (Base/Bits), runs and their total correctness
-- (Base/Run) and branches (Base/Branch); Errno the return values of the kernel.
--
-- Fd is src/fs/file.c with the inline functions of src/include/linux/fdtable.h and file.h. A table is
-- a record (Fd/Table): the array of files and the three bitmaps are functions of the index, so what
-- lies behind max_fds is unwritten memory, and a new table starts with junk. An operation passes the
-- table and a log of calls along (Fd/Kernel): taking and dropping references to files, allocating
-- and freeing, and the mutex of a file. The record Kernel has what the file uses and does not
-- define: the allocators, the settings, find_next_zero_bit, and `gap`, which is what other threads do
-- while an operation has given up its lock. A BUG_ON that fires is the result `bug`, a loop that uses
-- up its fuel the result `hang`; a theorem with Ends says that a run has neither. `__alloc_fd` has
-- fuel end - max_fds + 1, since each of its rounds but the last makes the table larger; the other
-- loops have one unit for each round that their bounds allow; `__fget_files` has as many as the
-- caller gives, and its theorems ask that one attempt to take a reference succeeds.
-- The sizes in copy_fdtable are words of 32 bits, as in the code, and wrap from 2^29 descriptors on; so
-- a theorem under which a table may grow asks that sysctl_nr_open is at most 2^29 - 64.
--
--   Fd/Alloc, Fd/Expand   alloc_fdmem to expand_files
--   Fd/Slot               __alloc_fd and its helpers, put_unused_fd, fd_install
--   Fd/Close              __close_fd, do_close_on_exec, close_files
--   Fd/Get                __fget_files to get_close_on_exec
--   Fd/Dup                do_dup2 to iterate_fd, with do_dup2_to_remote
--   Fd/Clone              count_open_files and dup_fd
--   Fd/Valid, Fd/Writes   well-formed tables, and the writes that keep them so
--   Fd/Copied, Fd/Grow    a table in a larger one
--   Fd/Search, Fd/Allocate, Fd/Reserve, Fd/Give   how a descriptor is found, reserved and filled
--   Fd/Replace, Fd/Onto   how a chosen descriptor is closed or replaced
--   Fd/Lookup, Fd/Duplicate   how a file is looked up, and dup
--   Fd/Ends, Fd/Refs      total correctness of runs, and references by the log
--
-- Ptrace is src/kernel/ptrace.c. Ptrace/Store has the tables of several tasks, by number, so that two
-- tasks that share a table name the same one; Ptrace/Remote has the requests on descriptors, whose
-- arguments are what copy_from_user brought. Their theorems are in Ptrace/Transfer and Ptrace/Chosen.
-- Ptrace/Memory has the address spaces of several tasks and ptrace_remote_munmap, Ptrace/Protection
-- ptrace_remote_mprotect, and Ptrace/Mapping ptrace_remote_mmap with do_mmap_remote and, of
-- src/mm/util.c, vm_mmap_remote; Ptrace/MapOutcome and Ptrace/RemoteMapped have what that request does.
--
-- Ptrace/Task has the tasks: the fields that tracing uses, with a task's number for its address, and
-- the record Env of what the signal code, the scheduler, the security modules and the other tasks do.
-- The words ptrace, jobctl, state and flags keep their bits.
--
--   Ptrace/Link     __ptrace_link and __ptrace_unlink
--   Ptrace/Attach   __ptrace_may_access, ptrace_attach, ptrace_traceme
--   Ptrace/Check    ptrace_freeze_traced to ptrace_check_attach, ptrace_setoptions
--   Ptrace/Detach   ignoring_children to exit_ptrace
--   Ptrace/Siginfo  ptrace_peek_siginfo, on words of 32 bits; Ptrace/Peek has what it copies
--   Ptrace/Access   __ptrace_may_access: whom it lets through
--   Ptrace/Linked   what it means that the lists of tracees are right, and the unlinking
--   Ptrace/Traced, Ptrace/Attached, Ptrace/Traceme   the link, ptrace_attach and ptrace_traceme
--   Ptrace/Freed, Ptrace/Detached, Ptrace/Exit       the reaping, ptrace_detach and exit_ptrace
--   Ptrace/Frozen, Ptrace/Thawed                     ptrace_check_attach, and the way back
--
-- Mm is src/mm/mmap.c and src/mm/mprotect.c. An address space is the list of its areas, with the
-- counters (Mm/Area); its areas do not overlap, so one goes by its start, and a pointer to an area
-- is the start. The record Outside has what the file does not define: whether an allocation
-- succeeds, what vma_dup_policy and anon_vma_clone give, the huge page sizes and the limits. Calls
-- that leave no trace in the list or the counters go to a log. The theorems speak of mapping_at
-- (Mm/Laid): what an address is mapped to, whatever the areas are.
--
--   Mm/Split        __split_vma, split_vma and the list writes of __vma_adjust for them
--   Mm/Unmap        remove_vma to do_munmap
--   Mm/Merge        vma_merge, and __vma_adjust for it
--   Mm/Count        count_vma_pages_range, may_expand_vm and the limit test of mmap_task_region
--   Mm/Protect      mprotect_fixup
--   Mm/Mprotect     do_mprotect_pkey_task
--   Mm/Region       mmap_task_region with vma_link and accountable_mapping, and __vma_link_list of
--                   src/mm/util.c
--   Mm/Plan         do_task_mmap up to its call of mmap_task_region, with get_task_unmapped_area
--   Mm/TaskMmap     do_task_mmap
--   Mm/Resize       vma_to_resize_task of src/mm/mremap.c
--   Mm/Tree         find_vma, find_vma_links and __vma_link_rb on the tree of areas
--   Mm/Laid, Mm/Cut, Mm/Removed, Mm/Before, Mm/Counted
--                   how areas lie, cutting, taking out, and counting
--   Mm/Looped, Mm/Pages, Mm/Room     what is counted, and the limit
--   Mm/Munmap, Mm/Outcome, Mm/Refined    do_munmap
--   Mm/Searched, Mm/Placed    the searches of the tree
--   Mm/Agrees, Mm/Shapes, Mm/Grown, Mm/Lowered, Mm/Fitting, Mm/Continued, Mm/After, Mm/Merges
--                   vma_merge: what its tests say, its eight cases, and the choice between them
--   Mm/Reflag, Mm/Ranged, Mm/Joined, Mm/Fixed    mprotect_fixup
--   Mm/Stands, Mm/Follow, Mm/Changed, Mm/Rounds, Mm/Loop, Mm/Mprotected    do_mprotect_pkey_task
--   Mm/Vacant, Mm/Cleared, Mm/Settled, Mm/Sets, Mm/Mapped, Mm/Mmap, Mm/MmapRegion
--                   mmap_task_region: free ranges, its loop, its end, the set up for a file, all
--   Mm/Planned, Mm/Permits    what do_task_mmap has checked
--
-- The loop of do_mprotect_pkey_task has as much fuel as its range has pages, since a round passes a
-- page at least; that of mmap_task_region has 2, since do_munmap leaves the range free.
--
-- Machine, Mm/Scene and Ptrace/Scene are a concrete machine, address space and tasks for the examples,
-- which are in Fd/Tests, Ptrace/Tests, Mm/Tests, Mm/Examples and Mm/MapExamples.
--
-- Not modelled: PTRACE_REMOTE_MREMAP with the rest of src/mm/mremap.c, do_brk and the growth of stacks,
-- ptrace_resume and the dispatch of requests, the counts of references to a
-- descriptor table, the page tables, the reverse maps and the colours and gaps of
-- the tree, which bear on no area, and the locks, which are taken to exclude what they are meant to
-- exclude.
pub mod Base
pub mod Errno
pub mod Fd
pub mod Machine
pub mod Mm
pub mod Ptrace
