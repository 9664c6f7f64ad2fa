-- ===== src/Mm/Mprotect.antt =====
-- `do_mprotect_pkey_task` of src/mm/mprotect.c.
use zso_ptrace.Base.{
  ℕ, zero, suc, ◌+◌, ◌-◌, ◌/◌, Bool, not, ◌&&◌, Option, none, some, List, [], ◌∷◌, ltb, leb, ◌==◌,
  bit_and, bit_or, if◌then◌else◌,
}
use zso_ptrace.Base.Run.{◌>>=◌, hang}
use zso_ptrace.Errno.{Errno, einval, enomem, eacces, eintr, Ret, ok, err}
use zso_ptrace.Mm.Area.{
  add64, pages, page_align, offset_in_page, has, without, vm_mayexec, vm_growsdown, vm_growsup, Vma,
  Cmd, pure, get_mm, Outside,
}
use zso_ptrace.Mm.Split.{find_vma, find_prev}
use zso_ptrace.Mm.Unmap.{behind}
use zso_ptrace.Mm.Protect.{Resources, mprotect_fixup}

-- The protections of the system's interface.
abbrev pub prot_read : ℕ
prot_read = 0x1

abbrev pub prot_exec : ℕ
prot_exec = 0x4

abbrev pub prot_growsdown : ℕ
prot_growsdown = 0x1000000

abbrev pub prot_growsup : ℕ
prot_growsup = 0x2000000

-- `VM_READ | VM_WRITE | VM_EXEC`
abbrev pub vm_access : ℕ
vm_access = 0x7

-- What the machine and the security modules decide: `arch_validate_prot`, `mm_pkey_is_allocated`,
-- `arch_override_mprotect_pkey`, `calc_vm_prot_bits`, `ARCH_VM_PKEY_FLAGS` and `security_file_mprotect`. A key is
-- `none` for -1.
pub record Policy : Type 0 where
  pub validate_prot : ℕ → Bool
  pub pkey_is_allocated : ℕ → Bool
  pub override_pkey : Vma → (prot : ℕ) → Option ℕ → ℕ
  pub prot_bits : (prot pkey : ℕ) → ℕ
  pub pkey_flags : ℕ
  pub file_mprotect : Vma → (reqprot prot : ℕ) → Option Errno

-- `prev->vm_end`
unfoldable pub end_of : (at : ℕ) → List Vma → ℕ
end_of at [] = 0
end_of at (v ∷ l) = if v.vm_start == at then v.vm_end else end_of at l

-- The end of a round: `next` stands for the next one, with its `prev` and its area.
unfoldable pub to_next :
    (next : ℕ → Vma → Cmd (Option Errno)) → (at nstart : ℕ) → List Vma → Cmd (Option Errno)
to_next next at nstart [] = pure (some enomem)
to_next next at nstart (v ∷ l) = if v.vm_start == nstart then next at v else pure (some enomem)

abbrev pub beyond : (nstart other : ℕ) → ℕ
beyond nstart other = if ltb nstart other then other else nstart

unfoldable pub past_fixup :
    (next : ℕ → ℕ → Vma → Cmd (Option Errno)) → (at nstart end : ℕ) → List Vma → Cmd (Option Errno)
past_fixup next at nstart end l =
    if leb end nstart then pure none else to_next (next nstart) at nstart l

unfoldable pub after_fixup :
    (next : ℕ → ℕ → Vma → Cmd (Option Errno)) → (tmp end : ℕ) → Ret ℕ → Cmd (Option Errno)
after_fixup next tmp end (err e) = pure (some e)
after_fixup next tmp end (ok at) = do
  mm ← get_mm
  past_fixup next at (beyond tmp (end_of at mm.mmap)) end (behind (some at) mm.mmap)

-- `prot` in a round, with whether PROT_READ is to imply PROT_EXEC, and `newflags`.
abbrev pub round_prot : (rier : Bool) → (reqprot : ℕ) → Vma → ℕ
round_prot rier reqprot v =
    if rier && has v.vm_flags vm_mayexec then bit_or reqprot prot_exec else reqprot

abbrev pub next_flags : Policy → Option ℕ → (prot : ℕ) → Vma → ℕ
next_flags pol pkey prot v =
    bit_or (pol.prot_bits prot (pol.override_pkey v prot pkey))
      (without v.vm_flags (bit_or vm_access pol.pkey_flags))

-- The test for rights that the MAY bits, four places up, do not grant.
abbrev pub exceeds : ℕ → Bool
exceeds newflags = has (without newflags (newflags / 16)) vm_access

module _ (out : Outside) (res : Resources) (pol : Policy) (rier : Bool) (pkey : Option ℕ)
    (reqprot end : ℕ) where
  unfoldable pub after_security :
      (next : ℕ → ℕ → Vma → Cmd (Option Errno))
      → (prev : Option ℕ) → Vma
      → (nstart newflags : ℕ) → Option Errno
      → Cmd (Option Errno)
  after_security next prev v nstart newflags (some e) = pure (some e)
  after_security next prev v nstart newflags none = do
    r ← mprotect_fixup out res v prev nstart (if ltb end v.vm_end then end else v.vm_end) newflags
    after_fixup next (if ltb end v.vm_end then end else v.vm_end) end r

  unfoldable pub protect_round :
      (next : ℕ → ℕ → Vma → Cmd (Option Errno))
      → (prev : Option ℕ) → (nstart : ℕ) → Vma
      → Cmd (Option Errno)
  protect_round next prev nstart v =
      if exceeds (next_flags pol pkey (round_prot rier reqprot v) v)
      then pure (some eacces)
      else after_security next prev v nstart (next_flags pol pkey (round_prot rier reqprot v) v)
          (pol.file_mprotect v reqprot (round_prot rier reqprot v))

  -- The loop, from an address on that lies in an area.
  unfoldable pub protect_loop :
      (fuel : ℕ) → (prev : Option ℕ) → (nstart : ℕ) → Vma → Cmd (Option Errno)
  protect_loop zero prev nstart v = λ s. hang
  protect_loop (suc fuel) prev nstart v =
      protect_round (λ n at w. protect_loop fuel (some at) n w) prev nstart v

-- The range that the first area and the bits for stacks give.
unfoldable pub choose_range : (grows : ℕ) → Vma → (start end : ℕ) → Ret (ℕ × ℕ)
choose_range grows v start end =
    if has grows prot_growsdown
    then (if leb end v.vm_start
        then err enomem
        else if has v.vm_flags vm_growsdown
        then ok (v.vm_start, end)
        else err einval)
    else if ltb start v.vm_start
    then err enomem
    else if has grows prot_growsup
    then (if has v.vm_flags vm_growsup then ok (start, v.vm_end) else err einval)
    else ok (start, end)

-- `prev` for the first round: the area itself where the range begins inside it.
abbrev pub first_prev : List Vma → Vma → (addr start : ℕ) → Option ℕ
first_prev l v addr start = if ltb v.vm_start start then some v.vm_start else find_prev none l addr

module _ (out : Outside) (res : Resources) (pol : Policy) where
  unfoldable pub protect_chosen :
      (rier : Bool)
      → (pkey : Option ℕ) → (reqprot addr : ℕ) → Vma
      → Ret (ℕ × ℕ)
      → Cmd (Option Errno)
  protect_chosen rier pkey reqprot addr v (err e) = pure (some e)
  protect_chosen rier pkey reqprot addr v (ok (start, end)) = do
    mm ← get_mm
    protect_loop out res pol rier pkey reqprot end (pages (end - start))
        (first_prev mm.mmap v addr start) start v

  unfoldable pub protect_found :
      (rier : Bool)
      → (pkey : Option ℕ) → (reqprot grows start end : ℕ) → Option Vma
      → Cmd (Option Errno)
  protect_found rier pkey reqprot grows start end none = pure (some enomem)
  protect_found rier pkey reqprot grows start end (some v) =
      protect_chosen rier pkey reqprot start v (choose_range grows v start end)

  -- Behind `down_write_killable`.
  unfoldable pub protect_locked :
      (rier : Bool) → (pkey : Option ℕ) → (reqprot grows start end : ℕ) → Cmd (Option Errno)
  protect_locked rier none reqprot grows start end = do
    mm ← get_mm
    protect_found rier none reqprot grows start end (find_vma mm.mmap start)
  protect_locked rier (some key) reqprot grows start end =
      if pol.pkey_is_allocated key
      then (do
        mm ← get_mm
        protect_found rier (some key) reqprot grows start end (find_vma mm.mmap start))
      else pure (some einval)

  -- `do_mprotect_pkey_task`, for a task whose personality has READ_IMPLIES_EXEC or not; `killed` says whether a
  -- signal kills the caller while it waits for `mmap_sem`.
  unfoldable pub do_mprotect_pkey_task :
      (implies_exec killed : Bool) → (start len prot : ℕ) → (pkey : Option ℕ) → Cmd (Option Errno)
  do_mprotect_pkey_task implies_exec killed start len prot pkey =
      let grows = bit_and prot (prot_growsdown + prot_growsup) in
      let reqprot = without prot (prot_growsdown + prot_growsup) in
      let end = add64 start (page_align len) in
      if grows == prot_growsdown + prot_growsup
      then pure (some einval)
      else if offset_in_page start
      then pure (some einval)
      else if len == 0
      then pure none
      else if leb end start
      then pure (some enomem)
      else if not (pol.validate_prot reqprot)
      then pure (some einval)
      else if killed
      then pure (some eintr)
      else protect_locked (implies_exec && has prot prot_read) pkey reqprot grows start end

  -- `mprotect_task`
  unfoldable pub mprotect_task :
      (implies_exec killed : Bool) → (start len prot : ℕ) → Cmd (Option Errno)
  mprotect_task implies_exec killed start len prot =
      do_mprotect_pkey_task implies_exec killed start len prot none
