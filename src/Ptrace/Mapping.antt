-- ===== src/Ptrace/Mapping.antt =====
-- `ptrace_remote_mmap` of src/kernel/ptrace.c with `do_mmap_remote` of src/mm/mmap.c and `vm_mmap_remote` of
-- src/mm/util.c, on the address spaces of several tasks.
use zso_ptrace.Base.{
  ℕ, ◌+◌, ◌-◌, ◌/◌, ◌^◌, Bool, not, ◌&&◌, Option, none, some, ltb, ◌==◌, bit_and, if◌then◌else◌,
}
use zso_ptrace.Base.Run.{◌>>=◌, ◌>>◌, done}
use zso_ptrace.Errno.{Errno, ebadf, efault, eintr, einval, Ret, ok, err}
use zso_ptrace.Mm.Area.{
  add64, pages, page_align, offset_in_page, has, without, got_file, put_file, populated, tell,
  tell_if, Outside,
}
use zso_ptrace.Mm.Protect.{Resources}
use zso_ptrace.Mm.Region.{Mapper}
use zso_ptrace.Mm.Plan.{Calls}
use zso_ptrace.Mm.TaskMmap.{do_task_mmap}
use zso_ptrace.Ptrace.Memory.{Cmd, on}

abbrev pub map_anonymous : ℕ
map_anonymous = 0x20

abbrev pub map_denywrite : ℕ
map_denywrite = 0x800

abbrev pub map_executable : ℕ
map_executable = 0x1000

abbrev pub map_hugetlb : ℕ
map_hugetlb = 0x40000

-- `ALIGN`, for a size that is a power of 2
abbrev pub align : (x size : ℕ) → ℕ
align x size = without (add64 x (size - 1)) (size - 1)

-- `struct ptrace_remote_mmap`
pub record RemoteMmap : Type 0 where
  pub addr : ℕ
  pub length : ℕ
  pub prot : ℕ
  pub flags : ℕ
  pub fd : ℕ
  pub offset : ℕ

-- What a call finds beside the address spaces: the machine, the files and the limits; what `security_mmap_file`,
-- `fget` in the table of the caller, `hstate_file`, `hstate_sizelog` and `hugetlb_file_setup` give; whether a
-- signal kills the caller while it waits for `mmap_sem`, and whether `copy_to_user` brings the address back.
pub record MmapSetting : Type 0 where
  pub out : Outside
  pub res : Resources
  pub mapper : Mapper
  pub calls : Calls
  pub mmap_file : Option ℕ → (prot flags : ℕ) → Option Errno
  pub fget : ℕ → Option ℕ
  pub file_page_size : ℕ → ℕ
  pub sizelog : ℕ → Option ℕ
  pub hugetlb_file_setup : (len size : ℕ) → Ret ℕ
  pub killed : Bool
  pub copied_back : Bool

abbrev pub fail : Errno → Cmd (Ret ℕ)
fail e w = done (err e) w

-- `mm_populate` works on the caller's space; without an address there is nothing to populate.
unfoldable pub populate_caller : (caller : ℕ) → Ret ℕ × ℕ → Cmd (Ret ℕ)
populate_caller caller (err e, n) = fail e
populate_caller caller (ok addr, n) = do
  on caller (tell_if (not (n == 0)) (populated addr (addr + n)))
  λ w. done (ok addr) w

module _ (k : MmapSetting) (caller child : ℕ) where
  unfoldable pub secured_mmap :
      (file : Option ℕ) → (addr len prot flag pgoff : ℕ) → Option Errno → Cmd (Ret ℕ)
  secured_mmap file addr len prot flag pgoff (some e) = fail e
  secured_mmap file addr len prot flag pgoff none = if k.killed then fail eintr else (do
    r ← on child (do_task_mmap k.out k.res k.mapper k.calls file addr len prot flag 0 pgoff)
    populate_caller caller r)

  -- `vm_mmap_remote`
  unfoldable pub vm_mmap_remote : (file : Option ℕ) → (addr len prot flag offset : ℕ) → Cmd (Ret ℕ)
  vm_mmap_remote file addr len prot flag offset =
      if ltb (add64 offset (page_align len)) offset
      then fail einval
      else if offset_in_page offset
      then fail einval
      else secured_mmap file addr len prot flag (pages offset) (k.mmap_file file prot flag)

  -- `out_fput`
  unfoldable pub put_after : (file : ℕ) → Cmd (Ret ℕ) → Cmd (Ret ℕ)
  put_after f act = do r ← act; on caller (tell (put_file f)); λ w. done r w

  abbrev pub kept_flags : ℕ → ℕ
  kept_flags flags = without flags (map_executable + map_denywrite)

  abbrev pub file_len : (file len : ℕ) → ℕ
  file_len f len = if k.mapper.is_file_hugepages f then align len (k.file_page_size f) else len

  unfoldable pub map_opened : (file addr len prot flags offset : ℕ) → Cmd (Ret ℕ)
  map_opened f addr len prot flags offset =
      if has flags map_hugetlb && not (k.mapper.is_file_hugepages f)
      then fail einval
      else vm_mmap_remote (some f) addr (file_len f len) prot (kept_flags flags) offset

  unfoldable pub with_file : Option ℕ → (addr len prot flags offset : ℕ) → Cmd (Ret ℕ)
  with_file none addr len prot flags offset = fail ebadf
  with_file (some f) addr len prot flags offset = do
    on caller (tell (got_file f))
    put_after f (map_opened f addr len prot flags offset)

  unfoldable pub with_setup : Ret ℕ → (addr len prot flags offset : ℕ) → Cmd (Ret ℕ)
  with_setup (err e) addr len prot flags offset = fail e
  with_setup (ok f) addr len prot flags offset =
      put_after f (vm_mmap_remote (some f) addr len prot (kept_flags flags) offset)

  unfoldable pub with_size : Option ℕ → (addr len prot flags offset : ℕ) → Cmd (Ret ℕ)
  with_size none addr len prot flags offset = fail einval
  with_size (some size) addr len prot flags offset =
      with_setup (k.hugetlb_file_setup (align len size) (bit_and (flags / 2 ^ 26) 0x3f)) addr
        (align len size) prot flags offset

  -- `do_mmap_remote`
  unfoldable pub do_mmap_remote : (addr len prot flags fd offset : ℕ) → Cmd (Ret ℕ)
  do_mmap_remote addr len prot flags fd offset =
      if not (has flags map_anonymous)
      then with_file (k.fget fd) addr len prot flags offset
      else if has flags map_hugetlb
      then with_size (k.sizelog (bit_and (flags / 2 ^ 26) 0x3f)) addr len prot flags offset
      else vm_mmap_remote none addr len prot (kept_flags flags) offset

  unfoldable pub copy_back : Ret ℕ → Cmd (Ret ℕ)
  copy_back (err e) = fail e
  copy_back (ok addr) = if k.copied_back then (λ w. done (ok addr) w) else fail efault

  -- `ptrace_remote_mmap`: `args` is what `copy_from_user` brought, and a result is the address that goes back.
  unfoldable pub remote_mmap : Option RemoteMmap → Cmd (Ret ℕ)
  remote_mmap none = fail efault
  remote_mmap (some args) = do
    r ← do_mmap_remote args.addr args.length args.prot args.flags args.fd args.offset
    copy_back r
