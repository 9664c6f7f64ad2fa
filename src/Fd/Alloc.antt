-- ===== src/Fd/Alloc.antt =====
-- Allocation and copying of tables: `alloc_fdmem` to `alloc_fdtable` of src/fs/file.c.
use zso_ptrace.Base.{
  ℕ, ◌+◌, ◌-◌, ◌*◌, ◌/◌, ◌%◌, ◌^◌, Bool, false, ◌&&◌, ◌||◌, Option, none, some, ltb, leb,
  if◌then◌else◌,
}
use zso_ptrace.Fd.Table.{File, Bitmap, FdTable, bits_per_byte, bits_per_long}
use zso_ptrace.Fd.Kernel.{Kernel, Cmd, ◌>>◌, pure, call, alloc, free, table, array, bitmaps, bug_on}

-- `sizeof (struct file *)` and `sizeof (long)` on the 64-bit machine
abbrev pub pointer_size : ℕ
pointer_size = 8

abbrev pub long_size : ℕ
long_size = 8

abbrev pub page_size : ℕ
page_size = 4096

-- `PAGE_ALLOC_COSTLY_ORDER` and `L1_CACHE_BYTES`
abbrev pub costly_order : ℕ
costly_order = 3

abbrev pub l1_cache_bytes : ℕ
l1_cache_bytes = 64

-- Arithmetic of `unsigned int`.
abbrev pub uint : ℕ → ℕ
uint n = n % 2 ^ 32

-- `n | (2^6 - 1)`: the low six bits set.
abbrev pub or_low : ℕ → ℕ
or_low n = n / bits_per_long * bits_per_long + (bits_per_long - 1)

-- `BITS_TO_LONGS`, `BITBIT_NR` and `BITBIT_SIZE`
abbrev pub bits_to_longs : ℕ → ℕ
bits_to_longs n = (n + bits_per_long - 1) / bits_per_long

unfoldable pub bitbit_nr : ℕ → ℕ
bitbit_nr nr = bits_to_longs (bits_to_longs nr)

unfoldable pub bitbit_size : ℕ → ℕ
unfolding bitbit_nr
bitbit_size nr = bitbit_nr nr * long_size

-- `memcpy` of `cpy` bytes from `old`, then `memset` to 0 of `set` bytes, over a bitmap `new`.
unfoldable pub copy_bits : (cpy set : ℕ) → (new old : Bitmap) → Bitmap
copy_bits cpy set new old i =
    if ltb i (cpy * bits_per_byte)
    then old i
    else if ltb i ((cpy + set) * bits_per_byte)
    then false
    else new i

unfoldable pub copy_pointers : (cpy set : ℕ) → (new old : ℕ → Option File) → ℕ → Option File
copy_pointers cpy set new old i =
    if ltb i (cpy / pointer_size)
    then old i
    else if ltb i ((cpy + set) / pointer_size)
    then none
    else new i

-- `copy_fd_bitmaps(nfdt, ofdt, count)`
unfoldable pub copy_fd_bitmaps : (new old : FdTable) → ℕ → FdTable
copy_fd_bitmaps new old count =
    let cpy = count / bits_per_byte in
    let set = (new.max_fds - count) / bits_per_byte in
    let cpy' = bitbit_size count in
    let set' = bitbit_size new.max_fds - cpy' in
    record new {
      open_fds = copy_bits cpy set new.open_fds old.open_fds;
      close_on_exec = copy_bits cpy set new.close_on_exec old.close_on_exec;
      full_fds_bits = copy_bits cpy' set' new.full_fds_bits old.full_fds_bits;
    }

-- `copy_fdtable` behind its BUG_ON: the sizes are numbers of 32 bits, which wrap from 2^29 descriptors on.
unfoldable pub copy_slots : (new old : FdTable) → FdTable
copy_slots new old =
    let cpy = uint (old.max_fds * pointer_size) in
    let set = uint ((new.max_fds - old.max_fds) * pointer_size) in
    record new { fd = copy_pointers cpy set new.fd old.fd }

unfoldable pub copy_fdtable : (new old : FdTable) → Cmd FdTable
copy_fdtable new old = do
  bug_on (ltb new.max_fds old.max_fds)
  pure (copy_fd_bitmaps (copy_slots new old) old old.max_fds)

-- `__free_fdtable`
unfoldable pub free_fdtable : Cmd (Unit {0})
free_fdtable = do call (free array); call (free bitmaps); call (free table)

-- The size of the block that holds the three bitmaps.
abbrev pub bitmaps_size : ℕ → ℕ
bitmaps_size nr =
    let bytes = uint (2 * nr) / bits_per_byte + bitbit_size nr in
    if ltb bytes l1_cache_bytes then l1_cache_bytes else bytes

-- `sizeof (struct fdtable)`: five words and the `rcu_head` of two
abbrev pub fdtable_bytes : ℕ
fdtable_bytes = 56

module _ (k : Kernel) where
  unfoldable pub alloc_fdmem : ℕ → Bool
  alloc_fdmem size = (leb size (page_size * 2 ^ costly_order) && k.kmalloc size) || k.vmalloc size

  -- How many descriptors `alloc_fdtable(nr)` makes room for.
  unfoldable pub table_size : ℕ → ℕ
  table_size nr =
      let per_chunk = 1024 / pointer_size in
      let wanted = uint (k.roundup_pow_of_two (uint (nr / per_chunk + 1)) * per_chunk) in
      if ltb k.nr_open_later wanted
      then uint (or_low (uint (k.nr_open_later + 2 ^ 32 - 1)) + 1)
      else wanted

  abbrev pub fresh_table : ℕ → FdTable
  fresh_table nr = record {
    max_fds = nr;
    fd = k.junk_fd;
    close_on_exec = k.junk_bits;
    open_fds = k.junk_bits;
    full_fds_bits = k.junk_bits;
  }

  -- `alloc_fdtable`, from the innermost allocation out: each failure frees what was allocated.
  unfoldable pub alloc_bitmaps : ℕ → Cmd (Option FdTable)
  alloc_bitmaps nr =
      if alloc_fdmem (bitmaps_size nr)
      then (do call (alloc bitmaps); pure (some (fresh_table nr)))
      else (do call (free array); call (free table); pure none)

  unfoldable pub alloc_array : ℕ → Cmd (Option FdTable)
  alloc_array nr =
      if alloc_fdmem (nr * pointer_size)
      then (do call (alloc array); alloc_bitmaps nr)
      else (do call (free table); pure none)

  unfoldable pub alloc_fdtable : ℕ → Cmd (Option FdTable)
  unfolding table_size alloc_array alloc_bitmaps
  alloc_fdtable nr =
      if k.kmalloc fdtable_bytes
      then (do call (alloc table); alloc_array (table_size nr))
      else pure none
