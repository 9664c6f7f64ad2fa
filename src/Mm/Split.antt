-- ===== src/Mm/Split.antt =====
-- The list of areas, and `__split_vma` and `split_vma` of src/mm/mmap.c.
use zso_ptrace.Base.{
  ℕ, ◌+◌, ◌-◌, ◌%◌, Bool, true, false, ◌&&◌, Option, none, some, List, [], ◌∷◌, ltb, leb, ◌==◌,
  ◌!=◌, if◌then◌else◌,
}
use mathlib.Core.Option.{map}
use zso_ptrace.Base.Run.{◌>>=◌, ◌>>◌}
use zso_ptrace.Errno.{Errno, einval, enomem}
use zso_ptrace.Mm.Area.{
  pages, add64, has, vm_hugetlb, Vma, got_file, opened, put_policy, freed, Cmd, pure, get_mm,
  put_mm, tell, tell_file, tell_if, stop, Outside,
}

-- The first area that ends above an address: what `find_vma` returns. The search of the tree is in
-- Mm/Tree.
unfoldable pub find_vma : List Vma → ℕ → Option Vma
find_vma [] addr = none
find_vma (v ∷ l) addr = if ltb addr v.vm_end then some v else find_vma l addr

-- The start of the area before that one, and of `p` if there is none: its `vm_prev`.
unfoldable pub find_prev : Option ℕ → List Vma → ℕ → Option ℕ
find_prev p [] addr = p
find_prev p (v ∷ l) addr = if ltb addr v.vm_end then p else find_prev (some v.vm_start) l addr

-- The writes of `__vma_adjust` to an area that has an `insert`.
unfoldable pub adjust : (at start end pgoff : ℕ) → List Vma → List Vma
adjust at start end pgoff [] = []
adjust at start end pgoff (v ∷ l) =
    if v.vm_start == at
    then record v { vm_start = start; vm_end = end; vm_pgoff = pgoff } ∷ l
    else v ∷ adjust at start end pgoff l

-- `__insert_vm_struct`: the place that `find_vma_links` finds, `none` for the BUG where the new area
-- overlaps one.
unfoldable pub insert_vma : Vma → List Vma → Option (List Vma)
insert_vma new [] = some (new ∷ [])
insert_vma new (v ∷ l) =
    if ltb new.vm_start v.vm_end
    then (if ltb v.vm_start new.vm_end then none else some (new ∷ v ∷ l))
    else map (λ rest. v ∷ rest) (insert_vma new l)

-- The list after `__vma_adjust` with an `insert`, which cannot fail.
unfoldable pub adjust_insert : (at start end pgoff : ℕ) → Vma → List Vma → Option (List Vma)
unfolding adjust insert_vma
adjust_insert at start end pgoff new l = insert_vma new (adjust at start end pgoff l)

abbrev pub put_areas : Option (List Vma) → Cmd (Unit {0})
put_areas none = stop
put_areas (some l) = do mm ← get_mm; put_mm (record mm { mmap = l; map_count = mm.map_count + 1 })

-- The two pieces: the one that is new, and what the old one becomes.
unfoldable pub new_piece : Vma → (addr : ℕ) → (below : Bool) → Vma
new_piece v addr true = record v { vm_end = addr }
new_piece v addr false = record v {
  vm_start = addr;
  vm_pgoff = add64 v.vm_pgoff (pages (addr - v.vm_start));
}

unfoldable pub split_list : Vma → (addr : ℕ) → (below : Bool) → List Vma → Option (List Vma)
unfolding adjust_insert new_piece
split_list v addr true l =
    adjust_insert v.vm_start addr v.vm_end (add64 v.vm_pgoff (pages (addr - v.vm_start)))
      (new_piece v addr true) l
split_list v addr false l =
    adjust_insert v.vm_start v.vm_start addr v.vm_pgoff (new_piece v addr false) l

-- `get_file` and `vm_ops->open` for the new piece.
unfoldable pub open_piece : Vma → Cmd (Unit {0})
open_piece new = do tell_file got_file new.vm_file; tell_if new.has_open (opened new)

module _ (out : Outside) where
  -- `__split_vma` behind `anon_vma_clone`, behind `vma_dup_policy` and behind the allocation.
  unfoldable pub after_clone : Vma → (addr : ℕ) → (below : Bool) → Option Errno → Cmd (Option Errno)
  after_clone v addr below (some e) = do
    tell (put_policy (new_piece v addr below))
    tell (freed (new_piece v addr below))
    pure (some e)
  after_clone v addr below none = do
    open_piece (new_piece v addr below)
    mm ← get_mm
    put_areas (split_list v addr below mm.mmap)
    pure none

  unfoldable pub after_policy :
      Vma → (addr : ℕ) → (below : Bool) → Option Errno → Cmd (Option Errno)
  after_policy v addr below (some e) = do tell (freed (new_piece v addr below)); pure (some e)
  after_policy v addr below none = after_clone v addr below (out.clone_anon v addr)

  unfoldable pub split_new : Vma → (addr : ℕ) → (below : Bool) → Cmd (Option Errno)
  split_new v addr below = after_policy v addr below (out.dup_policy v addr)

  -- `__split_vma`
  unfoldable pub split_vma_unchecked : Vma → (addr : ℕ) → (below : Bool) → Cmd (Option Errno)
  split_vma_unchecked v addr below =
      if has v.vm_flags vm_hugetlb && (addr % out.huge_page_size v != 0)
      then pure (some einval)
      else if out.alloc_vma addr
      then split_new v addr below
      else pure (some enomem)

  -- `split_vma`
  unfoldable pub split_vma : Vma → (addr : ℕ) → (below : Bool) → Cmd (Option Errno)
  split_vma v addr below = do
    mm ← get_mm
    if leb out.max_map_count mm.map_count
        then pure (some enomem)
        else split_vma_unchecked v addr below
