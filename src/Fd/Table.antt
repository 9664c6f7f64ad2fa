-- ===== src/Fd/Table.antt =====
-- The data of the descriptor tables: `struct fdtable` and `struct files_struct` of
-- src/include/linux/fdtable.h and the bit helpers of src/fs/file.c on them. An array and a bitmap
-- are functions of the index: what lies behind `max_fds` is memory that nothing has written.
use zso_ptrace.Base.{
  ℕ, zero, suc, ◌+◌, ◌*◌, ◌/◌, ◌<◌, ◌≡◌, Bool, true, false, ◌&&◌, ◌||◌, Option, none, arith, ltb,
  ◌==◌, if◌then◌else◌,
}

-- The address of a `struct file`; `none` stands for NULL.
abbrev pub File : Type 0
File = ℕ

abbrev pub bits_per_long : ℕ
bits_per_long = 64

abbrev pub bits_per_byte : ℕ
bits_per_byte = 8

-- `NR_OPEN_DEFAULT`
abbrev pub nr_open_default : ℕ
nr_open_default = bits_per_long

abbrev pub Bitmap : Type 0
Bitmap = ℕ → Bool

-- `__set_bit`, `__clear_bit` and `test_bit` on a bitmap in memory.
abbrev pub set_bit : ℕ → Bitmap → Bitmap
set_bit n b i = if i == n then true else b i

abbrev pub clear_bit : ℕ → Bitmap → Bitmap
clear_bit n b i = if i == n then false else b i

-- Whether the `n` bits from `from` on are all set, and whether one of them is.
unfoldable pub all_set : Bitmap → ℕ → ℕ → Bool
all_set b from zero = true
all_set b from (suc n) = b (from + n) && all_set b from n

unfoldable pub any_set : Bitmap → ℕ → ℕ → Bool
any_set b from zero = false
any_set b from (suc n) = b (from + n) || any_set b from n

-- `!~bits[w]` and `bits[w]` as tests.
unfoldable pub word_full : Bitmap → ℕ → Bool
unfolding all_set
word_full b w = all_set b (w * bits_per_long) bits_per_long

unfoldable pub word_nonzero : Bitmap → ℕ → Bool
unfolding any_set
word_nonzero b w = any_set b (w * bits_per_long) bits_per_long

-- A write to an array.
abbrev pub update : ℕ → Option File → (ℕ → Option File) → ℕ → Option File
update n v a i = if i == n then v else a i

pub record FdTable : Type 0 where
  pub max_fds : ℕ
  pub fd : ℕ → Option File
  pub close_on_exec : Bitmap
  pub open_fds : Bitmap
  pub full_fds_bits : Bitmap

-- `embedded` says that `fdt` points to the table `fdtab` inside the structure.
pub record FilesStruct : Type 0 where
  pub count : ℕ
  pub resize_in_progress : Bool
  pub fdt : FdTable
  pub embedded : Bool
  pub next_fd : ℕ

-- `fd_is_open` and `close_on_exec`
unfoldable pub fd_is_open : ℕ → FdTable → Bool
fd_is_open fd t = t.open_fds fd

unfoldable pub close_on_exec : ℕ → FdTable → Bool
close_on_exec fd t = t.close_on_exec fd

-- `__set_close_on_exec`, `__clear_close_on_exec`, `__set_open_fd` and `__clear_open_fd`
unfoldable pub set_close_on_exec_bit : ℕ → FdTable → FdTable
set_close_on_exec_bit fd t = record t { close_on_exec = set_bit fd t.close_on_exec }

unfoldable pub clear_close_on_exec_bit : ℕ → FdTable → FdTable
clear_close_on_exec_bit fd t =
    if t.close_on_exec fd then record t { close_on_exec = clear_bit fd t.close_on_exec } else t

unfoldable pub set_open_fd : ℕ → FdTable → FdTable
set_open_fd fd t =
    let open_fds = set_bit fd t.open_fds in
    let w = fd / bits_per_long in
    if word_full open_fds w
    then record t { open_fds = open_fds; full_fds_bits = set_bit w t.full_fds_bits }
    else record t { open_fds = open_fds }

unfoldable pub clear_open_fd : ℕ → FdTable → FdTable
clear_open_fd fd t = record t {
  open_fds = clear_bit fd t.open_fds;
  full_fds_bits = clear_bit (fd / bits_per_long) t.full_fds_bits;
}

-- `__fcheck_files`: the file behind a descriptor, which is all that a user sees of a table.
unfoldable pub fcheck_files : FilesStruct → ℕ → Option File
fcheck_files s fd = if ltb fd s.fdt.max_fds then s.fdt.fd fd else none

pub all_set_sound :
    (b : Bitmap) (from n i : ℕ) → all_set b from n ≡ true → i < n → b (from + i) ≡ true
unfolding all_set
all_set_sound b from zero i h lt = elim lt [ ]
all_set_sound b from (suc n) i h lt = ground (arith, all_set_sound b from n i)

pub any_set_none :
    (b : Bitmap) (from n i : ℕ) → any_set b from n ≡ false → i < n → b (from + i) ≡ false
unfolding any_set
any_set_none b from zero i h lt = elim lt [ ]
any_set_none b from (suc n) i h lt = ground (arith, any_set_none b from n i)
