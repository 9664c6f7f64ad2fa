-- ===== src/Mm.antt =====
-- The address space of a task: src/mm/mmap.c, mprotect.c, mremap.c and util.c.
pub mod Area
pub mod Split
pub mod Unmap
pub mod Laid
pub mod Cut
pub mod Removed
pub mod Before
pub mod Counted
pub mod Munmap
pub mod Refined
pub mod Scene
pub mod Tests
pub mod Examples
pub mod MapExamples
pub mod Tree
pub mod Searched
pub mod Placed
pub mod Merge
pub mod Agrees
pub mod Shapes
pub mod Grown
pub mod Lowered
pub mod Fitting
pub mod Continued
pub mod Merges
pub mod After
pub mod Count
pub mod Pages
pub mod Outcome
pub mod Room
pub mod Looped
pub mod Protect
pub mod Reflag
pub mod Ranged
pub mod Joined
pub mod Fixed
pub mod Mprotect
pub mod Stands
pub mod Follow
pub mod Changed
pub mod Rounds
pub mod Loop
pub mod Region
pub mod Vacant
pub mod Settled
pub mod Cleared
pub mod Sets
pub mod Mapped
pub mod Mmap
pub mod MmapRegion
pub mod Plan
pub mod Planned
pub mod Permits
pub mod TaskMmap
pub mod Resize
pub mod Mprotected
