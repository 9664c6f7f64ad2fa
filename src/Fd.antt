-- ===== src/Fd.antt =====
-- Descriptor tables: src/fs/file.c, src/include/linux/fdtable.h and src/include/linux/file.h.
pub mod Alloc
pub mod Allocate
pub mod Clone
pub mod Close
pub mod Copied
pub mod Dup
pub mod Duplicate
pub mod Ends
pub mod Expand
pub mod Get
pub mod Give
pub mod Grow
pub mod Kernel
pub mod Lookup
pub mod Onto
pub mod Refs
pub mod Replace
pub mod Reserve
pub mod Search
pub mod Slot
pub mod Table
pub mod Tests
pub mod Valid
pub mod Writes
