-- ===== src/Mm/Area.antt =====
-- The areas of an address space: the parts of `struct vm_area_struct` and `struct mm_struct` that
-- src/mm/mmap.c, mprotect.c and mremap.c decide by, and the flags of src/include/linux/mm.h. The list
-- `mmap` of an address space is a list; since its areas do not overlap, an area goes by its start.
use zso_ptrace.Base.{
  ℕ, ◌+◌, ◌-◌, ◌*◌, ◌/◌, ◌%◌, ◌^◌, Bool, Option, none, some, List, ◌∷◌, bit_and, ◌==◌, ◌!=◌,
  if◌then◌else◌,
}
use zso_ptrace.Base.Run.{Run, done, bug}
use zso_ptrace.Errno.{Errno}

abbrev pub page_size : ℕ
page_size = 4096

-- Numbers of 64 bits.
abbrev pub add64 : ℕ → ℕ → ℕ
add64 a b = (a + b) % 2 ^ 64

abbrev pub sub64 : ℕ → ℕ → ℕ
sub64 a b = (a + 2 ^ 64 - b) % 2 ^ 64

-- `PAGE_ALIGN`, `offset_in_page` as a test, `x >> PAGE_SHIFT`
abbrev pub page_align : ℕ → ℕ
page_align x = (x + 4095) % 2 ^ 64 / 4096 * 4096

abbrev pub offset_in_page : ℕ → Bool
offset_in_page x = x % 4096 != 0

abbrev pub pages : ℕ → ℕ
pages x = x / 4096

-- `word & ~mask` on 64 bits
abbrev pub without : (word mask : ℕ) → ℕ
without word mask = bit_and word (2 ^ 64 - 1 - mask)

-- `word & mask` as a test
abbrev pub has : (word mask : ℕ) → Bool
has word mask = bit_and word mask != 0

abbrev pub vm_write : ℕ
vm_write = 0x2

abbrev pub vm_exec : ℕ
vm_exec = 0x4

abbrev pub vm_shared : ℕ
vm_shared = 0x8

-- `VM_STACK` on a machine whose stacks grow down
abbrev pub vm_stack : ℕ
vm_stack = 0x100

abbrev pub vm_growsdown : ℕ
vm_growsdown = 0x100

-- There is no area that grows up on such a machine: `VM_GROWSUP` is `VM_NONE`.
abbrev pub vm_growsup : ℕ
vm_growsup = 0

abbrev pub vm_mayread : ℕ
vm_mayread = 0x10

abbrev pub vm_maywrite : ℕ
vm_maywrite = 0x20

abbrev pub vm_mayexec : ℕ
vm_mayexec = 0x40

abbrev pub vm_mayshare : ℕ
vm_mayshare = 0x80

abbrev pub vm_denywrite : ℕ
vm_denywrite = 0x800

abbrev pub vm_pfnmap : ℕ
vm_pfnmap = 0x400

abbrev pub vm_locked : ℕ
vm_locked = 0x2000

abbrev pub vm_dontexpand : ℕ
vm_dontexpand = 0x40000

abbrev pub vm_account : ℕ
vm_account = 0x100000

abbrev pub vm_noreserve : ℕ
vm_noreserve = 0x200000

abbrev pub vm_hugetlb : ℕ
vm_hugetlb = 0x400000

-- `VM_SPECIAL`
abbrev pub vm_special : ℕ
vm_special = 0x10044400

abbrev pub vm_softdirty : ℕ
vm_softdirty = 0x8000000

-- `vm_ops` by its two members that are used here.
pub record Vma : Type 0 where
  pub vm_start : ℕ
  pub vm_end : ℕ
  pub vm_flags : ℕ
  pub vm_pgoff : ℕ
  pub vm_file : Option ℕ
  pub anon_vma : Option ℕ
  pub policy : ℕ
  pub userfaultfd : ℕ
  pub has_open : Bool
  pub has_close : Bool

pub record Mm : Type 0 where
  pub mmap : List Vma
  pub map_count : ℕ
  pub locked_vm : ℕ
  pub total_vm : ℕ
  pub exec_vm : ℕ
  pub stack_vm : ℕ
  pub data_vm : ℕ
  pub hiwater_vm : ℕ

-- The calls that leave no trace in these fields.
pub data Event : Type 0 where
  got_file : ℕ → Event
  put_file : ℕ → Event
  opened : Vma → Event
  closed : Vma → Event
  unlinked_anon : Vma → Event
  put_policy : Vma → Event
  freed : Vma → Event
  munlocked : Vma → Event
  unmapped : (start end : ℕ) → Event
  unaccounted : ℕ → Event
  changed_protection : (start end : ℕ) → Event
  populated : (start end : ℕ) → Event
  denied_write : ℕ → Event
  allowed_write : ℕ → Event
  mapped_writable : ℕ → Event
  unmapped_writable : ℕ → Event

pub record MmState : Type 0 where
  pub mm : Mm
  pub log : List Event

abbrev pub Cmd {ℓ} : Type ℓ → Type ℓ
Cmd A = MmState → Run MmState A

abbrev pub pure {ℓ} : {A : Type ℓ} → A → Cmd A
pure a s = done a s

abbrev pub get_mm : Cmd Mm
get_mm s = done s.mm s

abbrev pub put_mm : Mm → Cmd (Unit {0})
put_mm mm s = done tt (record s { mm = mm })

abbrev pub tell : Event → Cmd (Unit {0})
tell e s = done tt (record s { log = e ∷ s.log })

-- A call for the file of an area, if it has one, and one that is made under a test.
abbrev pub log_file : (ℕ → Event) → Option ℕ → List Event → List Event
log_file e none log = log
log_file e (some f) log = e f ∷ log

abbrev pub tell_file : (ℕ → Event) → Option ℕ → Cmd (Unit {0})
tell_file e file s = done tt (record s { log = log_file e file s.log })

abbrev pub tell_if : Bool → Event → Cmd (Unit {0})
tell_if test e s = done tt (record s { log = if test then e ∷ s.log else s.log })

-- `BUG()`
abbrev pub stop {ℓ} : {A : Type ℓ} → Cmd A
stop s = bug

-- What the files use and do not define: whether a new area can be allocated for a split at an
-- address, the results of `vma_dup_policy` and `anon_vma_clone` for it, the size of a huge page of
-- an area, `sysctl_max_map_count` and `TASK_SIZE`.
pub record Outside : Type 0 where
  pub alloc_vma : ℕ → Bool
  pub dup_policy : Vma → ℕ → Option Errno
  pub clone_anon : Vma → ℕ → Option Errno
  pub huge_page_size : Vma → ℕ
  pub max_map_count : ℕ
  pub task_size : ℕ

-- `vma_pages`
unfoldable pub vma_pages : Vma → ℕ
vma_pages v = pages (v.vm_end - v.vm_start)

-- `is_exec_mapping`, `is_stack_mapping` and `is_data_mapping` of src/mm/internal.h
unfoldable pub is_exec_mapping : ℕ → Bool
is_exec_mapping flags = bit_and flags (vm_exec + vm_write + vm_stack) == vm_exec

unfoldable pub is_stack_mapping : ℕ → Bool
is_stack_mapping flags = bit_and flags vm_stack == vm_stack

unfoldable pub is_data_mapping : ℕ → Bool
is_data_mapping flags = bit_and flags (vm_write + vm_shared + vm_stack) == vm_write

-- `vm_stat_account`, for a number of pages that is added by `add64` or taken away by `sub64`
unfoldable pub vm_stat_account : (ℕ → ℕ → ℕ) → (flags npages : ℕ) → Mm → Mm
vm_stat_account change flags npages mm =
    let total = record mm { total_vm = change mm.total_vm npages } in
    if is_exec_mapping flags
    then record total { exec_vm = change mm.exec_vm npages }
    else if is_stack_mapping flags
    then record total { stack_vm = change mm.stack_vm npages }
    else if is_data_mapping flags
    then record total { data_vm = change mm.data_vm npages }
    else total
