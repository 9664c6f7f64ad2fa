-- ===== src/Mm/Unmap.antt =====
-- `remove_vma_list` to `do_munmap` of src/mm/mmap.c.
use zso_ptrace.Base.{
  ℕ, ◌+◌, ◌-◌, ◌%◌, Bool, true, false, ◌&&◌, ◌||◌, Option, none, some, List, [], ◌∷◌, ◌++◌, ltb,
  leb, ◌==◌, ◌!=◌, if◌then◌else◌,
}
use zso_ptrace.Base.Run.{◌>>=◌, ◌>>◌}
use zso_ptrace.Errno.{Errno, einval, enomem}
use zso_ptrace.Mm.Area.{
  page_align, offset_in_page, add64, sub64, has, vm_locked, vm_account, Vma, put_file, closed,
  put_policy, freed, munlocked, unmapped, unaccounted, Cmd, pure, get_mm, put_mm, tell, tell_file,
  tell_if, stop, Outside, vma_pages, vm_stat_account,
}
use zso_ptrace.Mm.Split.{find_vma, find_prev, split_vma_unchecked}

-- The list behind the area that starts at a number, and up to it: `prev->vm_next`, or `mmap` where
-- there is no `prev`.
unfoldable pub behind : Option ℕ → List Vma → List Vma
behind none l = l
behind (some at) [] = []
behind (some at) (v ∷ l) = if v.vm_start == at then l else behind (some at) l

unfoldable pub up_to : Option ℕ → List Vma → List Vma
up_to none l = []
up_to (some at) [] = []
up_to (some at) (v ∷ l) = if v.vm_start == at then v ∷ [] else v ∷ up_to (some at) l

-- The areas from the head of a list on that start below `end`, and the rest.
unfoldable pub run_below : ℕ → List Vma → List Vma
run_below end [] = []
run_below end (v ∷ l) = if ltb v.vm_start end then v ∷ run_below end l else []

unfoldable pub rest_from : ℕ → List Vma → List Vma
rest_from end [] = []
rest_from end (v ∷ l) = if ltb v.vm_start end then rest_from end l else v ∷ l

-- The loop of `do_munmap` that unlocks, over the areas below `end`.
unfoldable pub munlock_areas : List Vma → Cmd (Unit {0})
munlock_areas [] = pure tt
munlock_areas (v ∷ l) = do
  mm ← get_mm
  if has v.vm_flags vm_locked
      then (do
        put_mm (record mm { locked_vm = sub64 mm.locked_vm (vma_pages v) })
        tell (munlocked v))
      else pure tt
  munlock_areas l

unfoldable pub munlock_range : ℕ → List Vma → Cmd (Unit {0})
munlock_range end l = do
  mm ← get_mm
  if mm.locked_vm == 0 then pure tt else munlock_areas (run_below end l)

-- How many areas `detach_vmas_to_be_unmapped` takes off the list.
unfoldable pub length {ℓ} : {A : Type ℓ} → List A → ℕ
length [] = 0
length (x ∷ l) = zso_ptrace.Base.suc (length l)

-- `detach_vmas_to_be_unmapped`, whose first area is taken off without a test: the areas taken off.
-- The list is counted by `map_count`.
unfoldable pub detach_from : (prev : Option ℕ) → (end : ℕ) → List Vma → Cmd (List Vma)
unfolding up_to run_below rest_from length
detach_from prev end [] = stop
detach_from prev end (v ∷ l) = do
  mm ← get_mm
  put_mm (record mm {
    mmap = up_to prev mm.mmap ++ rest_from end l;
    map_count = mm.map_count - length (v ∷ run_below end l);
  })
  pure (v ∷ run_below end l)

unfoldable pub detach_areas : (prev : Option ℕ) → (end : ℕ) → Cmd (List Vma)
unfolding behind detach_from
detach_areas prev end = do mm ← get_mm; detach_from prev end (behind prev mm.mmap)

-- `remove_vma`
unfoldable pub remove_vma : Vma → Cmd (Unit {0})
remove_vma v = do
  tell_if v.has_close (closed v)
  tell_file put_file v.vm_file
  tell (put_policy v)
  tell (freed v)

-- The loop of `remove_vma_list`, with `nr_accounted`.
unfoldable pub remove_loop : (nr_accounted : ℕ) → List Vma → Cmd ℕ
remove_loop nr [] = pure nr
remove_loop nr (v ∷ l) = do
  mm ← get_mm
  put_mm (vm_stat_account sub64 v.vm_flags (vma_pages v) mm)
  remove_vma v
  remove_loop (if has v.vm_flags vm_account then add64 nr (vma_pages v) else nr) l

-- `remove_vma_list`
unfoldable pub remove_vma_list : List Vma → Cmd (Unit {0})
remove_vma_list l = do
  mm ← get_mm
  put_mm (record mm {
    hiwater_vm = if ltb mm.hiwater_vm mm.total_vm then mm.total_vm else mm.hiwater_vm;
  })
  nr ← remove_loop 0 l
  tell (unaccounted nr)

module _ (out : Outside) where
  -- The first split of `do_munmap`, of the area that `start` may lie inside.
  unfoldable pub split_first : Vma → (start end : ℕ) → Cmd (Option Errno)
  split_first v start end = do
    mm ← get_mm
    if ltb v.vm_start start
        then (if ltb end v.vm_end && leb out.max_map_count mm.map_count
            then pure (some enomem)
            else split_vma_unchecked out v start false)
        else pure none

  -- The second, of the area that `end` may lie inside.
  unfoldable pub split_found : (end : ℕ) → Option Vma → Cmd (Option Errno)
  split_found end none = pure none
  split_found end (some last) =
      if ltb last.vm_start end then split_vma_unchecked out last end true else pure none

  unfoldable pub split_last : (end : ℕ) → Cmd (Option Errno)
  split_last end = do mm ← get_mm; split_found end (find_vma mm.mmap end)

  -- `do_munmap` behind the splits, with the area before the range.
  unfoldable pub unmap_areas : (prev : Option ℕ) → (start end : ℕ) → Cmd (Option Errno)
  unmap_areas prev start end = do
    mm ← get_mm
    munlock_range end (behind prev mm.mmap)
    removed ← detach_areas prev end
    tell (unmapped start end)
    remove_vma_list removed
    pure none

  unfoldable pub after_last :
      (prev : Option ℕ) → (start end : ℕ) → Option Errno → Cmd (Option Errno)
  after_last prev start end (some e) = pure (some e)
  after_last prev start end none = unmap_areas prev start end

  unfoldable pub after_first :
      (prev : Option ℕ) → (start end : ℕ) → Option Errno → Cmd (Option Errno)
  after_first prev start end (some e) = pure (some e)
  after_first prev start end none = do r ← split_last end; after_last prev start end r

  -- `do_munmap` behind the checks of its arguments, with the area that `find_vma` gives.
  unfoldable pub munmap_found : (start end : ℕ) → Option Vma → Cmd (Option Errno)
  munmap_found start end none = pure none
  munmap_found start end (some v) = if leb end v.vm_start then pure none else (do
    mm ← get_mm
    r ← split_first v start end
    after_first (if ltb v.vm_start start then some v.vm_start else find_prev none mm.mmap start)
        start end r)

  unfoldable pub munmap_range : (start end : ℕ) → Cmd (Option Errno)
  munmap_range start end = do mm ← get_mm; munmap_found start end (find_vma mm.mmap start)

  -- `do_munmap`
  unfoldable pub do_munmap : (start len : ℕ) → Cmd (Option Errno)
  do_munmap start len =
      if offset_in_page start || ltb out.task_size start || ltb (out.task_size - start) len
      then pure (some einval)
      else if page_align len == 0
      then pure (some einval)
      else munmap_range start (add64 start (page_align len))
