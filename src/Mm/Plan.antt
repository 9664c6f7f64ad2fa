-- ===== src/Mm/Plan.antt =====
-- `do_task_mmap` of src/mm/mmap.c up to its call of `mmap_task_region`, with `round_hint_to_min`,
-- `mlock_future_check` and `get_task_unmapped_area`.
use zso_ptrace.Base.{
  ℕ, ◌+◌, ◌-◌, ◌/◌, ◌*◌, Bool, false, not, is_some, ◌&&◌, ◌||◌, Option, none, some, ltb, ◌==◌, ◌!=◌,
  bit_and, bit_or, if◌then◌else◌,
}
use zso_ptrace.Errno.{Errno, eperm, eagain, enomem, eacces, enodev, einval, eoverflow, Ret, ok, err}
use zso_ptrace.Mm.Area.{
  add64, pages, page_align, offset_in_page, has, without, vm_exec, vm_shared, vm_growsdown,
  vm_growsup, vm_mayread, vm_maywrite, vm_mayexec, vm_mayshare, vm_noreserve, vm_locked, Mm,
  Outside,
}
use zso_ptrace.Mm.Mprotect.{prot_read, prot_exec}

abbrev pub prot_write : ℕ
prot_write = 0x2

abbrev pub map_type : ℕ
map_type = 0xf

abbrev pub map_shared : ℕ
map_shared = 0x1

abbrev pub map_private : ℕ
map_private = 0x2

abbrev pub map_fixed : ℕ
map_fixed = 0x10

abbrev pub map_locked : ℕ
map_locked = 0x2000

abbrev pub map_noreserve : ℕ
map_noreserve = 0x4000

-- A chain of tests, each with the error that it gives.
infixl 10 ◌>>=◌
abbrev pub ◌>>=◌ : {A B : Type 0} → Ret A → (A → Ret B) → Ret B
ok a >>= f = f a
err e >>= f = err e

infixr 10 ◌>>◌
abbrev pub ◌>>◌ : {A B : Type 0} → Ret A → Ret B → Ret B
ok a >> r = r
err e >> r = err e

abbrev pub refuse_if : Bool → Errno → Ret (Unit {0})
refuse_if test e = if test then err e else ok tt

abbrev pub refuse : Option Errno → Ret (Unit {0})
refuse none = ok tt
refuse (some e) = err e

-- An open file: `f_mode`, `IS_APPEND`, `locks_verify_locked`, `path_noexec`, `is_file_hugepages` and whether it has
-- the operation `mmap`, with the operation `get_unmapped_area` if it has one.
pub record MapFile : Type 0 where
  pub may_read : Bool
  pub may_write : Bool
  pub append_only : Bool
  pub locked : Bool
  pub noexec : Bool
  pub hugepages : Bool
  pub has_mmap : Bool
  pub get_area : Option (Mm → (addr len pgoff flags : ℕ) → Ret ℕ)

-- What the files, the machine, the task and its limits give: READ_IMPLIES_EXEC of the personality, `mmap_min_addr`,
-- `get_unmapped_area` of the address space and of shmem, `arch_mmap_check`, `security_mmap_addr`,
-- `execute_only_pkey`, `calc_vm_prot_bits`, `calc_vm_flag_bits`, `def_flags`, `can_do_mlock`, RLIMIT_MEMLOCK,
-- CAP_IPC_LOCK and whether overcommit is off.
pub record Calls : Type 0 where
  pub files : ℕ → MapFile
  pub implies_exec : Bool
  pub mmap_min_addr : ℕ
  pub mm_area : Mm → Option ℕ → (addr len pgoff flags : ℕ) → Ret ℕ
  pub shmem_area : Mm → (addr len pgoff flags : ℕ) → Ret ℕ
  pub arch_mmap_check : (addr len flags : ℕ) → Option Errno
  pub mmap_addr : ℕ → Option Errno
  pub execute_only_pkey : Option ℕ
  pub prot_bits : (prot pkey : ℕ) → ℕ
  pub flag_bits : ℕ → ℕ
  pub def_flags : ℕ
  pub can_do_mlock : Bool
  pub rlimit_memlock : ℕ
  pub ipc_lock : Bool
  pub overcommit_never : Bool

-- What `mmap_task_region` is called with.
pub record Plan : Type 0 where
  pub addr : ℕ
  pub len : ℕ
  pub vm_flags : ℕ
  pub pgoff : ℕ

-- The cases of a file.
unfoldable pub private_file : MapFile → (vm_flags : ℕ) → Ret ℕ
private_file f g =
    let h = if f.noexec then without g vm_mayexec else g in
    refuse_if (not f.may_read) eacces
    >> refuse_if (f.noexec && has g vm_exec) eperm
    >> refuse_if (not f.has_mmap) enodev
    >> refuse_if (has h (vm_growsdown + vm_growsup)) einval
    >> ok h

unfoldable pub shared_file : MapFile → (prot vm_flags : ℕ) → Ret ℕ
shared_file f prot g =
    let h = bit_or g (vm_shared + vm_mayshare) in
    refuse_if (has prot prot_write && not f.may_write) eacces
    >> refuse_if (f.append_only && f.may_write) eacces
    >> refuse_if f.locked eagain
    >> private_file f (if f.may_write then h else without h (vm_maywrite + vm_shared))

unfoldable pub file_flags : MapFile → (type prot vm_flags : ℕ) → Ret ℕ
file_flags f type prot g =
    if type == map_shared
    then shared_file f prot g
    else if type == map_private
    then private_file f g
    else err einval

-- The cases without one, with `pgoff`.
unfoldable pub shared_memory : (vm_flags : ℕ) → Ret (ℕ × ℕ)
shared_memory g =
    refuse_if (has g (vm_growsdown + vm_growsup)) einval
    >> ok (bit_or g (vm_shared + vm_mayshare), 0)

unfoldable pub memory_flags : (type addr vm_flags : ℕ) → Ret (ℕ × ℕ)
memory_flags type addr g =
    if type == map_shared
    then shared_memory g
    else if type == map_private
    then ok (g, pages addr)
    else err einval

unfoldable pub round_hint_to_min : Calls → ℕ → ℕ
round_hint_to_min c hint =
    let low = hint / 4096 * 4096 in
    if (low != 0) && ltb low c.mmap_min_addr then page_align c.mmap_min_addr else low

module _ (c : Calls) (out : Outside) (mm : Mm) where
  unfoldable pub mlock_future_check : (vm_flags len : ℕ) → Option Errno
  mlock_future_check flags len =
      if has flags vm_locked
        && ltb (pages c.rlimit_memlock) (add64 (pages len) mm.locked_vm)
        && not c.ipc_lock
      then some eagain
      else none

  -- The area's own choice of an address.
  abbrev pub get_area : (file : Option ℕ) → (addr len pgoff flags : ℕ) → Ret ℕ
  get_area none addr len pgoff flags =
      if has flags map_shared
      then c.shmem_area mm addr len 0 flags
      else c.mm_area mm none addr len pgoff flags
  get_area (some f) addr len pgoff flags = of_file (c.files f).get_area
    where
      of_file : Option (Mm → (addr len pgoff flags : ℕ) → Ret ℕ) → Ret ℕ
      of_file none = c.mm_area mm (some f) addr len pgoff flags
      of_file (some g) = g mm addr len pgoff flags

  abbrev pub checked_area : (len addr : ℕ) → Ret ℕ
  checked_area len addr =
      refuse_if (ltb (out.task_size - len) addr) enomem
      >> refuse_if (offset_in_page addr) einval
      >> refuse (c.mmap_addr addr)
      >> ok addr

  unfoldable pub get_task_unmapped_area : (file : Option ℕ) → (addr len pgoff flags : ℕ) → Ret ℕ
  get_task_unmapped_area file addr len pgoff flags =
      refuse (c.arch_mmap_check addr len flags)
      >> refuse_if (ltb out.task_size len) enomem
      >> (get_area file addr len pgoff flags >>= checked_area len)

  -- VM_NORESERVE
  abbrev pub reserve_flags : (hugepages : Bool) → (flags vm_flags : ℕ) → ℕ
  reserve_flags hugepages flags g =
      if has flags map_noreserve && (not c.overcommit_never || hugepages)
      then bit_or g vm_noreserve
      else g

  -- The switch by type, for a file and without one.
  unfoldable pub typed : (file : Option ℕ) → (addr len prot flags pgoff vm_flags : ℕ) → Ret Plan
  typed none addr len prot flags pgoff g =
      memory_flags (bit_and flags map_type) addr g >>= λ (h, page).
      ok (record { addr = addr; len = len; vm_flags = reserve_flags false flags h; pgoff = page })
  typed (some f) addr len prot flags pgoff g =
      file_flags (c.files f) (bit_and flags map_type) prot g >>= λ h. ok (record {
        addr = addr;
        len = len;
        vm_flags = reserve_flags (c.files f).hugepages flags h;
        pgoff = pgoff;
      })

  abbrev pub pkey_for : (prot : ℕ) → Option ℕ → ℕ
  pkey_for prot none = 0
  pkey_for prot (some key) = if prot == prot_exec then key else 0

  abbrev pub first_flags : (prot flags vm_flags : ℕ) → ℕ
  first_flags prot flags g =
      bit_or
        (bit_or
          (bit_or (bit_or g (c.prot_bits prot (pkey_for prot c.execute_only_pkey)))
            (c.flag_bits flags))
          c.def_flags)
        (vm_mayread + vm_maywrite + vm_mayexec)

  -- With the address that was obtained.
  unfoldable pub plan_at : (file : Option ℕ) → (len prot flags vm_flags pgoff addr : ℕ) → Ret Plan
  plan_at file len prot flags g pgoff addr =
      let word = first_flags prot flags g in
      refuse_if (has flags map_locked && not c.can_do_mlock) eperm
      >> refuse_if (is_some (mlock_future_check word len)) eagain
      >> typed file addr len prot flags pgoff word

  -- PROT_READ that implies PROT_EXEC
  abbrev pub full_prot : (file : Option ℕ) → (prot : ℕ) → ℕ
  full_prot none prot = if has prot prot_read && c.implies_exec then bit_or prot prot_exec else prot
  full_prot (some f) prot =
      if has prot prot_read && c.implies_exec && not (c.files f).noexec
      then bit_or prot prot_exec
      else prot

  unfoldable pub plan : (file : Option ℕ) → (addr len prot flags vm_flags pgoff : ℕ) → Ret Plan
  plan file addr len prot flags g pgoff =
      refuse_if (len == 0) einval
      >> refuse_if (page_align len == 0) enomem
      >> refuse_if (ltb (add64 pgoff (pages (page_align len))) pgoff) eoverflow
      >> refuse_if (ltb out.max_map_count mm.map_count) enomem
      >> (get_task_unmapped_area file
            (if has flags map_fixed then addr else round_hint_to_min c addr) (page_align len) pgoff
            flags
          >>= plan_at file (page_align len) (full_prot file prot) flags g pgoff)
