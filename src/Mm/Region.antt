-- ===== src/Mm/Region.antt =====
-- `mmap_task_region` of src/mm/mmap.c, with `find_vma_links`, `vma_link` and `accountable_mapping`.
use zso_ptrace.Base.{
  ℕ, zero, suc, ◌+◌, Bool, false, not, is_some, ◌&&◌, ◌||◌, Option, none, some, List, [], ◌∷◌, ltb,
  ◌==◌, bit_and, bit_or, if◌then◌else◌,
}
use zso_ptrace.Base.Run.{◌>>=◌, ◌>>◌, hang}
use zso_ptrace.Errno.{Errno, enomem, Ret, ok, err}
use zso_ptrace.Mm.Area.{
  add64, pages, has, without, vm_write, vm_shared, vm_account, vm_noreserve, vm_hugetlb, vm_locked,
  vm_denywrite, vm_special, vm_softdirty, Vma, got_file, put_file, freed, unaccounted, unmapped,
  denied_write, allowed_write, mapped_writable, unmapped_writable, Cmd, pure, get_mm, put_mm, tell,
  tell_if, Outside, vm_stat_account,
}
use zso_ptrace.Mm.Unmap.{do_munmap}
use zso_ptrace.Mm.Merge.{Request}
use zso_ptrace.Mm.Count.{has_room}
use zso_ptrace.Mm.Protect.{Resources, merge_areas}

-- `VM_LOCKED | VM_LOCKONFAULT`
abbrev pub vm_locked_bits : ℕ
vm_locked_bits = 0x82000

-- What the files, the drivers and the allocator give: `is_file_hugepages`, `deny_write_access`,
-- `mapping_map_writable`, the file's `mmap` operation, which may change the area, `shmem_zero_setup`,
-- whether an area can be allocated, and whether an area is the gate of the machine.
pub record Mapper : Type 0 where
  pub is_file_hugepages : ℕ → Bool
  pub deny_write_access : ℕ → Option Errno
  pub map_writable : ℕ → Option Errno
  pub file_mmap : ℕ → Vma → Ret Vma
  pub zero_setup : Vma → Ret Vma
  pub alloc_area : Bool
  pub is_gate : Vma → Bool

-- `find_vma_links` on the list: the start of the area before the range, `none` for ENOMEM.
unfoldable pub find_place : (prev : Option ℕ) → List Vma → (addr end : ℕ) → Option (Option ℕ)
find_place prev [] addr end = some prev
find_place prev (v ∷ l) addr end =
    if ltb addr v.vm_end
    then (if ltb v.vm_start end then none else some prev)
    else find_place (some v.vm_start) l addr end

-- `__vma_link_list`
unfoldable pub link_list : (prev : Option ℕ) → Vma → List Vma → List Vma
link_list none new l = new ∷ l
link_list (some at) new [] = []
link_list (some at) new (v ∷ l) =
    if v.vm_start == at then v ∷ new ∷ l else v ∷ link_list (some at) new l

-- `__vma_link_file`
unfoldable pub link_file : Vma → Option ℕ → Cmd (Unit {0})
link_file new none = pure tt
link_file new (some f) = do
  tell_if (has new.vm_flags vm_denywrite) (denied_write f)
  tell_if (has new.vm_flags vm_shared) (mapped_writable f)

-- `vma_link`
unfoldable pub vma_link : Vma → (prev : Option ℕ) → Cmd (Unit {0})
vma_link new prev = do
  mm ← get_mm
  put_mm (record mm { mmap = link_list prev new mm.mmap })
  link_file new new.vm_file
  after ← get_mm
  put_mm (record after { map_count = after.map_count + 1 })

-- A write to the area that starts at `at`, and a test of it.
unfoldable pub update_area : (Vma → Vma) → (at : ℕ) → List Vma → List Vma
update_area f at [] = []
update_area f at (v ∷ l) = if v.vm_start == at then f v ∷ l else v ∷ update_area f at l

unfoldable pub test_area : (Vma → Bool) → (at : ℕ) → List Vma → Bool
test_area p at [] = false
test_area p at (v ∷ l) = if v.vm_start == at then p v else test_area p at l

abbrev pub new_area : (addr end vm_flags pgoff : ℕ) → Vma
new_area addr end vm_flags pgoff = record {
  vm_start = addr;
  vm_end = end;
  vm_flags = vm_flags;
  vm_pgoff = pgoff;
  vm_file = none;
  anon_vma = none;
  policy = 0;
  userfaultfd = 0;
  has_open = false;
  has_close = false;
}

abbrev pub region_request : (addr end vm_flags pgoff : ℕ) → Option ℕ → Request
region_request addr end vm_flags pgoff file = record {
  addr = addr;
  end = end;
  vm_flags = vm_flags;
  anon_vma = none;
  file = file;
  pgoff = pgoff;
  policy = 0;
  userfaultfd = 0;
}

-- What setting up a new area for its file comes to: the area, or an error before or in the file's `mmap`
-- operation; after the latter nothing is left to uncharge.
pub data Setup : Type 0 where
  made : Vma → Setup
  failed : Errno → Setup
  failed_late : Errno → Setup

module _ (k : Mapper) where
  -- `accountable_mapping`
  unfoldable pub accountable_mapping : Option ℕ → (vm_flags : ℕ) → Bool
  accountable_mapping none flags = bit_and flags (vm_noreserve + vm_shared + vm_write) == vm_write
  accountable_mapping (some f) flags =
      if k.is_file_hugepages f
      then false
      else bit_and flags (vm_noreserve + vm_shared + vm_write) == vm_write

  unfoldable pub after_mmap : (file : ℕ) → Vma → Ret Vma → Cmd Setup
  after_mmap f v (ok w) = pure (made w)
  after_mmap f v (err e) = do
    tell (put_file f)
    tell (unmapped v.vm_start v.vm_end)
    tell_if (has v.vm_flags vm_shared) (unmapped_writable f)
    tell_if (has v.vm_flags vm_denywrite) (allowed_write f)
    pure (failed_late e)

  unfoldable pub call_mmap : (file : ℕ) → Vma → Cmd Setup
  call_mmap f v = do
    tell (got_file f)
    after_mmap f v (k.file_mmap f (record v { vm_file = some f }))

  unfoldable pub after_writable : (file : ℕ) → Vma → Option Errno → Cmd Setup
  after_writable f v (some e) = do
    tell_if (has v.vm_flags vm_denywrite) (allowed_write f)
    pure (failed e)
  after_writable f v none = do tell (mapped_writable f); call_mmap f v

  unfoldable pub make_writable : (file : ℕ) → Vma → Cmd Setup
  make_writable f v =
      if has v.vm_flags vm_shared then after_writable f v (k.map_writable f) else call_mmap f v

  unfoldable pub after_deny : (file : ℕ) → Vma → Option Errno → Cmd Setup
  after_deny f v (some e) = pure (failed e)
  after_deny f v none = do tell (denied_write f); make_writable f v

  unfoldable pub after_zero : Ret Vma → Cmd Setup
  after_zero (ok w) = pure (made w)
  after_zero (err e) = pure (failed e)

  unfoldable pub set_up : (file : Option ℕ) → Vma → Cmd Setup
  set_up none v = if has v.vm_flags vm_shared then after_zero (k.zero_setup v) else pure (made v)
  set_up (some f) v =
      if has v.vm_flags vm_denywrite
      then after_deny f v (k.deny_write_access f)
      else make_writable f v

  -- The temporary denials and writers of the file are given back.
  unfoldable pub release_file : (file : Option ℕ) → (vm_flags : ℕ) → Cmd (Unit {0})
  release_file none flags = pure tt
  release_file (some f) flags = do
    tell_if (has flags vm_shared) (unmapped_writable f)
    tell_if (has flags vm_denywrite) (allowed_write f)

  -- Whether a locked area is one whose pages are not counted as locked.
  abbrev pub unlockable : (vm_flags : ℕ) → Vma → Bool
  unlockable flags v = has flags vm_special || has v.vm_flags vm_hugetlb || k.is_gate v

  abbrev pub settle_flags : (vm_flags : ℕ) → Vma → Vma
  settle_flags flags v = record v {
    vm_flags =
        bit_or
          (if has flags vm_locked && unlockable flags v
            then without v.vm_flags vm_locked_bits
            else v.vm_flags)
          vm_softdirty;
  }

  -- From `out` on, for the area that starts at `at`.
  unfoldable pub finish_region : (at vm_flags len : ℕ) → Cmd (Unit {0})
  finish_region at flags len = do
    mm ← get_mm
    put_mm (vm_stat_account add64 flags (pages len) mm)
    after ← get_mm
    put_mm (record after {
      locked_vm =
          if has flags vm_locked && not (test_area (unlockable flags) at after.mmap)
          then add64 after.locked_vm (pages len)
          else after.locked_vm;
      mmap = update_area (settle_flags flags) at after.mmap;
    })

  unfoldable pub after_setup :
      (prev file : Option ℕ) → (vm_flags len charged : ℕ) → Vma → Setup → Cmd (Ret ℕ)
  after_setup prev file flags len charged v (failed e) = do
    tell (freed v)
    tell_if (not (charged == 0)) (unaccounted charged)
    pure (err e)
  after_setup prev file flags len charged v (failed_late e) = do tell (freed v); pure (err e)
  after_setup prev file flags len charged v (made w) = do
    vma_link w prev
    release_file file (if is_some file then w.vm_flags else flags)
    finish_region w.vm_start (if is_some file then w.vm_flags else flags) len
    pure (ok w.vm_start)

-- The loop that takes out what is mapped in the range.
unfoldable pub after_clear : Cmd (Ret (Option ℕ)) → Option Errno → Cmd (Ret (Option ℕ))
after_clear again (some e) = pure (err enomem)
after_clear again none = again

module _ (out : Outside) where
  unfoldable pub clear_placed :
      Cmd (Ret (Option ℕ)) → (addr len : ℕ) → Option (Option ℕ) → Cmd (Ret (Option ℕ))
  clear_placed again addr len (some prev) = pure (ok prev)
  clear_placed again addr len none = do r ← do_munmap out addr len; after_clear again r

  unfoldable pub clear_range : (fuel addr len : ℕ) → Cmd (Ret (Option ℕ))
  clear_range zero addr len = λ s. hang
  clear_range (suc fuel) addr len = do
    mm ← get_mm
    clear_placed (clear_range fuel addr len) addr len
        (find_place none mm.mmap addr (add64 addr len))

module _ (out : Outside) (res : Resources) (k : Mapper) where
  -- Behind `vma_merge`, with the flags and the pages charged.
  unfoldable pub after_try_merge :
      (prev file : Option ℕ) → (addr len vm_flags pgoff charged : ℕ) → Option ℕ → Cmd (Ret ℕ)
  after_try_merge prev file addr len flags pgoff charged (some at) = do
    finish_region k at flags len
    pure (ok addr)
  after_try_merge prev file addr len flags pgoff charged none =
      if k.alloc_area
      then (do
        r ← set_up k file (new_area addr (add64 addr len) flags pgoff)
        after_setup k prev file flags len charged (new_area addr (add64 addr len) flags pgoff) r)
      else (do tell_if (not (charged == 0)) (unaccounted charged); pure (err enomem))

  unfoldable pub map_charged :
      (prev file : Option ℕ) → (addr len vm_flags pgoff charged : ℕ) → Cmd (Ret ℕ)
  map_charged prev file addr len flags pgoff charged = do
    at ← merge_areas out res prev (region_request addr (add64 addr len) flags pgoff file)
    after_try_merge prev file addr len flags pgoff charged at

  -- The charge for private writable pages.
  unfoldable pub map_cleared : (prev file : Option ℕ) → (addr len vm_flags pgoff : ℕ) → Cmd (Ret ℕ)
  map_cleared prev file addr len flags pgoff =
      if accountable_mapping k file flags
      then (if res.enough_memory (pages len)
          then map_charged prev file addr len (bit_or flags vm_account) pgoff (pages len)
          else pure (err enomem))
      else map_charged prev file addr len flags pgoff 0

  unfoldable pub map_at :
      (file : Option ℕ) → (addr len vm_flags pgoff : ℕ) → Ret (Option ℕ) → Cmd (Ret ℕ)
  map_at file addr len flags pgoff (err e) = pure (err e)
  map_at file addr len flags pgoff (ok prev) = map_cleared prev file addr len flags pgoff

  -- `mmap_task_region`: a second round of the loop finds the range free.
  unfoldable pub mmap_task_region : (file : Option ℕ) → (addr len vm_flags pgoff : ℕ) → Cmd (Ret ℕ)
  mmap_task_region file addr len flags pgoff = do
    mm ← get_mm
    if has_room res.limits mm addr len flags
        then (do r ← clear_range out 2 addr len; map_at file addr len flags pgoff r)
        else pure (err enomem)
