-- ===== src/Mm/Merge.antt =====
-- `is_mergeable_vma` to `vma_merge` of src/mm/mmap.c, with what `__vma_adjust` does for them: the eight
-- cases of the comment above `vma_merge`.
use zso_ptrace.Base.{
  ℕ, ◌-◌, ◌*◌, Bool, true, false, not, ◌&&◌, ◌||◌, Option, none, some, List, [], ◌∷◌, ltb, leb,
  ◌==◌, bit_or, is_some, is_none, if◌then◌else◌,
}
use zso_ptrace.Mm.Area.{add64, sub64, pages, has, vm_softdirty, vm_special, Vma, Outside, vma_pages}

-- What is to be merged: the arguments of `vma_merge`.
pub record Request : Type 0 where
  pub addr : ℕ
  pub end : ℕ
  pub vm_flags : ℕ
  pub anon_vma : Option ℕ
  pub file : Option ℕ
  pub pgoff : ℕ
  pub policy : ℕ
  pub userfaultfd : ℕ

abbrev pub same_pointer : Option ℕ → Option ℕ → Bool
same_pointer none none = true
same_pointer none (some b) = false
same_pointer (some a) none = false
same_pointer (some a) (some b) = a == b

-- Whether two words of flags differ in VM_SOFTDIRTY at most: `!((a ^ b) & ~VM_SOFTDIRTY)`.
abbrev pub same_flags : ℕ → ℕ → Bool
same_flags a b = bit_or a vm_softdirty == bit_or b vm_softdirty

unfoldable pub is_mergeable_vma : Vma → (file : Option ℕ) → (vm_flags userfaultfd : ℕ) → Bool
is_mergeable_vma v file flags userfaultfd =
    if not (same_flags v.vm_flags flags)
    then false
    else if not (same_pointer v.vm_file file)
    then false
    else if v.has_close
    then false
    else if not (v.userfaultfd == userfaultfd)
    then false
    else true

-- What the result of an attempt is: no merge, or the list after it, with the start of the area that
-- grew and the areas that were freed. `oops` is a read through a null pointer.
pub data Merged : Type 0 where
  apart : Merged
  merged : (at : ℕ) → List Vma → (gone : List Vma) → Merged
  oops : Merged

abbrev pub behind_area : Vma → Merged → Merged
behind_area v apart = apart
behind_area v (merged at l gone) = merged at (v ∷ l) gone
behind_area v oops = oops

-- The area that the range may touch from below: `next`, which is behind `area` if that ends where the
-- range does.
abbrev pub next_area : (end : ℕ) → List Vma → Option Vma
next_area end [] = none
next_area end (area ∷ []) = if area.vm_end == end then none else some area
next_area end (area ∷ next ∷ l) = if area.vm_end == end then some next else some area

module _ (out : Outside) (singular : Vma → Bool) where
  unfoldable pub is_mergeable_anon_vma : (a b : Option ℕ) → Option Vma → Bool
  is_mergeable_anon_vma a b v =
      if (is_none a || is_none b) && elim v [ none ↦ true | some w ↦ singular w ]
      then true
      else same_pointer a b

  unfoldable pub can_vma_merge_before : Vma → Request → (pgoff : ℕ) → Bool
  can_vma_merge_before v r pgoff =
      is_mergeable_vma v r.file r.vm_flags r.userfaultfd
      && is_mergeable_anon_vma r.anon_vma v.anon_vma (some v)
      && (v.vm_pgoff == pgoff)

  unfoldable pub can_vma_merge_after : Vma → Request → Bool
  can_vma_merge_after v r =
      is_mergeable_vma v r.file r.vm_flags r.userfaultfd
      && is_mergeable_anon_vma r.anon_vma v.anon_vma (some v)
      && (add64 v.vm_pgoff (vma_pages v) == r.pgoff)

  -- The import of an `anon_vma`, which may fail: `anon_vma_clone` then leaves the importer without one.
  unfoldable pub import : (importer exporter : Vma) → Option Vma
  import to from =
      if is_some from.anon_vma && is_none to.anon_vma
      then elim (out.clone_anon from to.vm_start) [
        | some e ↦ none
        | none ↦ some (record to { anon_vma = from.anon_vma })
      ]
      else some to

  unfoldable pub grown : (start end pgoff : ℕ) → (rest gone : List Vma) → Option Vma → Merged
  grown start end pgoff rest gone none = apart
  grown start end pgoff rest gone (some v) =
      merged start (record v { vm_start = start; vm_end = end; vm_pgoff = pgoff } ∷ rest) gone

  -- The second pass of case 6, over the area behind the one that is removed.
  unfoldable pub adjust_two : (start pgoff : ℕ) → (v n : Vma) → List Vma → Merged
  adjust_two start pgoff v n [] = oops
  adjust_two start pgoff v n (x ∷ l) =
      grown start x.vm_end pgoff l (n ∷ x ∷ []) (import v (if is_some n.anon_vma then n else x))

  -- Cases 4 and 5: the boundary between an area and the next moves to `end`.
  unfoldable pub boundary_up : (start end pgoff : ℕ) → (v n : Vma) → List Vma → Merged
  boundary_up start end pgoff v n l =
      let adjust = pages (end - n.vm_start) in
      grown start end pgoff
        (record n {
          vm_start = add64 n.vm_start (adjust * 4096);
          vm_pgoff = add64 n.vm_pgoff adjust;
        }
          ∷ l)
        [] (import v n)

  unfoldable pub boundary_down : (start end pgoff : ℕ) → (v n : Vma) → List Vma → Merged
  boundary_down start end pgoff v n l =
      let adjust = pages (v.vm_end - end) in
      behind_area (record v { vm_start = start; vm_end = end; vm_pgoff = pgoff })
        (grown (sub64 n.vm_start (adjust * 4096)) n.vm_end (sub64 n.vm_pgoff adjust) l []
          (import n v))

  -- `__vma_adjust` without an `insert`, for the area `v` before `l`.
  unfoldable pub vma_adjust : (expand start end pgoff : ℕ) → Vma → List Vma → Merged
  vma_adjust expand start end pgoff v [] = grown start end pgoff [] [] (some v)
  vma_adjust expand start end pgoff v (n ∷ l) =
      if leb n.vm_end end
      then (if n.vm_start == expand
          then grown start end pgoff l (v ∷ []) (import n v)
          else if ltb n.vm_end end
          then adjust_two start pgoff v n l
          else grown start n.vm_end pgoff l (n ∷ []) (import v n))
      else if ltb n.vm_start end
      then boundary_up start end pgoff v n l
      else if ltb end v.vm_end
      then boundary_down start end pgoff v n l
      else grown start end pgoff (n ∷ l) [] (some v)

  -- Whether the range can be merged in front of `next`.
  unfoldable pub touches : Request → Option Vma → Bool
  touches r none = false
  touches r (some next) =
      (r.end == next.vm_start)
      && (r.policy == next.policy)
      && can_vma_merge_before next r (add64 r.pgoff (pages (r.end - r.addr)))

  unfoldable pub touches_both : Request → (prev : Vma) → Option Vma → Bool
  touches_both r prev none = false
  touches_both r prev (some next) =
      touches r (some next) && is_mergeable_anon_vma prev.anon_vma next.anon_vma none

  abbrev pub end_of : (end : ℕ) → Option Vma → ℕ
  end_of end none = end
  end_of end (some next) = next.vm_end

  -- Cases 1, 2, 5, 6 and 7: `prev` grows.
  unfoldable pub merge_after : Request → (prev : Vma) → List Vma → Merged
  merge_after r prev l =
      let next = next_area r.end l in
      vma_adjust prev.vm_start prev.vm_start
        (if touches_both r prev next then end_of r.end next else r.end) prev.vm_pgoff prev l

  -- Cases 3 and 8: `area` or the one behind it grows downwards.
  unfoldable pub merge_before : Request → (next : Vma) → List Vma → Merged
  merge_before r next [] = oops
  merge_before r next (area ∷ l) =
      vma_adjust next.vm_start r.addr next.vm_end (sub64 next.vm_pgoff (pages (r.end - r.addr)))
        area l

  -- Case 4: `prev` shrinks and `next` grows over what it leaves.
  unfoldable pub merge_inside : Request → (prev next : Vma) → List Vma → Merged
  merge_inside r prev next l = vma_adjust next.vm_start prev.vm_start r.addr prev.vm_pgoff prev l

  -- The second half of `vma_merge`, where the range does not merge with `prev`.
  unfoldable pub merge_next : Request → (prev next : Option Vma) → List Vma → Merged
  merge_next r prev none l = apart
  merge_next r none (some next) l = if touches r (some next) then merge_before r next l else apart
  merge_next r (some prev) (some next) l =
      if touches r (some next)
      then (if ltb r.addr prev.vm_end
          then merge_inside r prev next l
          else behind_area prev (merge_before r next l))
      else behind_area prev apart

  -- `vma_merge` from `prev` on, and at the head of the list where there is no `prev`.
  unfoldable pub merge_from : Request → (prev : Vma) → List Vma → Merged
  merge_from r prev l =
      if prev.vm_end == r.addr && (prev.policy == r.policy) && can_vma_merge_after prev r
      then merge_after r prev l
      else merge_next r (some prev) (next_area r.end l) l

  unfoldable pub merge_list : (prev : Option ℕ) → Request → List Vma → Merged
  merge_list none r l = merge_next r none (next_area r.end l) l
  merge_list (some at) r [] = oops
  merge_list (some at) r (v ∷ l) =
      if v.vm_start == at then merge_from r v l else behind_area v (merge_list (some at) r l)

  -- `vma_merge`
  unfoldable pub vma_merge : (prev : Option ℕ) → Request → List Vma → Merged
  vma_merge prev r l = if has r.vm_flags vm_special then apart else merge_list prev r l
