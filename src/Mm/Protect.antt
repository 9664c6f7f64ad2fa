-- ===== src/Mm/Protect.antt =====
-- `mprotect_fixup` of src/mm/mprotect.c, with the call of `vma_merge` of src/mm/mmap.c.
use zso_ptrace.Base.{
  ℕ, ◌+◌, ◌-◌, Bool, true, false, not, ◌&&◌, Option, none, some, List, [], ◌∷◌, ◌==◌, bit_or,
  if◌then◌else◌,
}
use zso_ptrace.Base.Run.{◌>>=◌, ◌>>◌}
use zso_ptrace.Errno.{Errno, enomem, Ret, ok, err}
use zso_ptrace.Mm.Area.{
  add64, sub64, pages, has, vm_write, vm_shared, vm_account, vm_noreserve, vm_hugetlb, vm_locked,
  Vma, Mm, put_file, put_policy, freed, unaccounted, changed_protection, populated, Cmd, pure,
  get_mm, put_mm, tell, tell_file, tell_if, stop, Outside, vm_stat_account,
}
use zso_ptrace.Mm.Split.{split_vma}
use zso_ptrace.Mm.Unmap.{length}
use zso_ptrace.Mm.Laid.{high_piece}
use zso_ptrace.Mm.Merge.{Request, Merged, apart, merged, oops, vma_merge}
use zso_ptrace.Mm.Count.{Limits, may_expand_vm}

-- The areas that `__vma_adjust` frees.
unfoldable pub free_merged : List Vma → Cmd (Unit {0})
free_merged [] = pure tt
free_merged (v ∷ l) = do
  tell_file put_file v.vm_file
  tell (put_policy v)
  tell (freed v)
  free_merged l

-- A call of `vma_merge` on an address space.
unfoldable pub merge_done : Merged → Cmd (Option ℕ)
merge_done apart = pure none
merge_done (merged at l gone) = do
  mm ← get_mm
  put_mm (record mm { mmap = l; map_count = mm.map_count - length gone })
  free_merged gone
  pure (some at)
merge_done oops = stop

-- A write to the flags of the area that starts at `at`.
unfoldable pub set_flags : (at flags : ℕ) → List Vma → List Vma
set_flags at flags [] = []
set_flags at flags (v ∷ l) =
    if v.vm_start == at then record v { vm_flags = flags } ∷ l else v ∷ set_flags at flags l

-- `mprotect_fixup` from `success` on, for the area that starts at `at`.
unfoldable pub protect_area : (at start end oldflags newflags : ℕ) → Cmd (Ret ℕ)
protect_area at start end oldflags newflags = do
  mm ← get_mm
  put_mm (record mm { mmap = set_flags at newflags mm.mmap })
  tell (changed_protection start end)
  tell_if
      (has oldflags vm_locked && not (has oldflags (vm_write + vm_shared)) && has newflags vm_write)
      (populated start end)
  after ← get_mm
  put_mm (
      vm_stat_account add64 newflags (pages (end - start))
        (vm_stat_account sub64 oldflags (pages (end - start)) after))
  pure (ok at)

unfoldable pub after_split : (v : Vma) (start end newflags charged : ℕ) → Option Errno → Cmd (Ret ℕ)
after_split v start end newflags charged (some e) = do tell (unaccounted charged); pure (err e)
after_split v start end newflags charged none = protect_area start start end v.vm_flags newflags

module _ (out : Outside) where
  -- The two splits round the range.
  unfoldable pub split_above : Vma → (end : ℕ) → Cmd (Option Errno)
  split_above v end = if end == v.vm_end then pure none else split_vma out v end false

  unfoldable pub after_below : Vma → (start end : ℕ) → Option Errno → Cmd (Option Errno)
  after_below v start end (some e) = pure (some e)
  after_below v start end none =
      split_above (if start == v.vm_start then v else high_piece v start) end

  unfoldable pub split_range : Vma → (start end : ℕ) → Cmd (Option Errno)
  split_range v start end = do
    r ← if start == v.vm_start then pure none else split_vma out v start true
    after_below v start end r

  unfoldable pub after_merge : (v : Vma) (start end newflags charged : ℕ) → Option ℕ → Cmd (Ret ℕ)
  after_merge v start end newflags charged (some at) = protect_area at start end v.vm_flags newflags
  after_merge v start end newflags charged none = do
    r ← split_range v start end
    after_split v start end newflags charged r

abbrev pub protect_request : Vma → (start end newflags : ℕ) → Request
protect_request v start end newflags = record {
  addr = start;
  end = end;
  vm_flags = newflags;
  anon_vma = v.anon_vma;
  file = v.vm_file;
  pgoff = add64 v.vm_pgoff (pages (start - v.vm_start));
  policy = v.policy;
  userfaultfd = v.userfaultfd;
}

-- What the callers of `vma_merge` use beyond Outside: whether the chain of an area's `anon_vma`s has one
-- link, the limits, and whether `security_vm_enough_memory_mm` lets pages be charged.
pub record Resources : Type 0 where
  pub singular : Vma → Bool
  pub limits : Limits
  pub enough_memory : ℕ → Bool

-- The charge for pages that become writable: the flags to set and the pages charged, `none` for ENOMEM.
unfoldable pub charge_writable : Resources → Mm → (oldflags newflags nrpages : ℕ) → Option (ℕ × ℕ)
charge_writable res mm oldflags newflags nrpages =
    if has newflags vm_write
    then (if not (may_expand_vm res.limits mm newflags nrpages)
          && may_expand_vm res.limits mm oldflags nrpages
        then none
        else if has oldflags (vm_account + vm_write + vm_hugetlb + vm_shared + vm_noreserve)
        then some (newflags, 0)
        else if res.enough_memory nrpages
        then some (bit_or newflags vm_account, nrpages)
        else none)
    else some (newflags, 0)

module _ (out : Outside) (res : Resources) where
  unfoldable pub merge_areas : (prev : Option ℕ) → Request → Cmd (Option ℕ)
  merge_areas prev r = do mm ← get_mm; merge_done (vma_merge out res.singular prev r mm.mmap)

  unfoldable pub protect_charged :
      Vma → (prev : Option ℕ) → (start end : ℕ) → Option (ℕ × ℕ) → Cmd (Ret ℕ)
  protect_charged v prev start end none = pure (err enomem)
  protect_charged v prev start end (some (newflags, charged)) = do
    at ← merge_areas prev (protect_request v start end newflags)
    after_merge out v start end newflags charged at

  -- `mprotect_fixup`: what it leaves in `*pprev`, or its error.
  unfoldable pub mprotect_fixup : Vma → (prev : Option ℕ) → (start end newflags : ℕ) → Cmd (Ret ℕ)
  mprotect_fixup v prev start end newflags =
      if newflags == v.vm_flags then pure (ok v.vm_start) else (do
        mm ← get_mm
        protect_charged v prev start end
            (charge_writable res mm v.vm_flags newflags (pages (end - start))))
