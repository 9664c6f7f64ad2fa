-- ===== src/Mm/Refined.antt =====
-- `do_munmap` of src/mm/mmap.c against the abstract view of an address space.
use zso_ptrace.Base.{
  ℕ, ◌+◌, ◌-◌, ◌%◌, ◌^◌, ◌≤◌, ◌<◌, ◌≡◌, refl, sym, subst, ap, ◌∙◌, inl, inr, Bool, true, false,
  ◌||◌, Option, none, some, List, arith, ltb, leb, ◌==◌, if◌then◌else◌, Bool-cases, ltb→lt,
}
use zso_ptrace.Base.Run.{done, Ends, ends, weaken, then-Ends}
use zso_ptrace.Errno.{Errno, einval}
use zso_ptrace.Mm.Area.{page_align, offset_in_page, add64, Vma, MmState, Outside}
use zso_ptrace.Mm.Split.{find_vma, find_prev}
use zso_ptrace.Mm.Unmap.{after_last, after_first, munmap_found, munmap_range, do_munmap}
use zso_ptrace.Mm.Laid.{IsLaid, mapping_at, mapping_at-cut_at, cut_at, cut_at-IsLaid}
use zso_ptrace.Mm.Removed.{
  low, high, last_start, find_prev-low, outside, if_outside, mapping_at-outside, cut_at-IsCut,
  cut_at-keeps_IsCut,
}
use zso_ptrace.Mm.Before.{
  low-cut_at, last_start-cut_at, cut_at_same, IsCut-find, StartsBelow, StartsBelow-find,
  StartsBelow-cut_at,
}
use zso_ptrace.Mm.Pages.{count_none_found, count_found_above, count_vma_pages_range-outside}
use zso_ptrace.Mm.Outcome.{Unmapping, kept, taken, free_below, free_above}
use zso_ptrace.Mm.Counted.{total_pages, IsWell}
use zso_ptrace.Mm.Munmap.{
  Step, refused, cut, split_first-Step, split_last-Step, unmap_areas-outside,
}

module _ (out : Outside) (start end : ℕ) (low_end : start % 4096 ≡ 0) (high_end : end % 4096 ≡ 0)
    (wide : start < end) (top : end < 2 ^ 64) (s : MmState) (w : IsWell s.mm) where
  abbrev l : List Vma
  l = s.mm.mmap

  cut_twice-mapping : (x : ℕ) → mapping_at (cut_at end (cut_at start l)) x ≡ mapping_at l x
  cut_twice-mapping x =
      mapping_at-cut_at end 0 (cut_at start l) x high_end (cut_at-IsLaid start 0 l low_end w.laid)
      ∙ mapping_at-cut_at start 0 l x low_end w.laid

  -- Behind the splits.
  unmap_areas-Unmapping :
      (u : MmState)
      → IsWell u.mm
      → u.mm.mmap ≡ cut_at end (cut_at start l)
      → StartsBelow end (high start u.mm.mmap)
      → (prev : Option ℕ) → prev ≡ last_start none (low start u.mm.mmap)
      → Ends (λ r z. Unmapping out start end s.mm r z.mm) (after_last out prev start end none u)
  unfolding after_last
  unmap_areas-Unmapping u wu areas begins prev is_prev = rw is_prev (
      weaken
        (λ r z (is_none, wz, left). rw is_none (
          taken wz
            (λ x.
              ap (λ k. mapping_at k x) left
              ∙ ap (λ k. mapping_at (outside start end k) x) areas
              ∙ mapping_at-outside start end 0 (cut_at end (cut_at start l)) x
                  (cut_at-IsLaid end 0 (cut_at start l) high_end cut_laid)
                  (cut_at-keeps_IsCut end start 0 (cut_at start l) cut_laid
                    (cut_at-IsCut start 0 l w.laid))
                  (cut_at-IsCut end 0 (cut_at start l) cut_laid)
              ∙ ap (if_outside start end x) (cut_twice-mapping x))
            (omega (
              arith,
              wz.total,
              w.total,
              ap total_pages left,
              ap (λ k. total_pages (outside start end k)) areas,
              count_vma_pages_range-outside start end 0 l low_end high_end top wide w.laid
                  w.bounded,
            ))))
        (unmap_areas-outside out start end u wu begins))
    where
      cut_laid : IsLaid 0 (cut_at start l)
      cut_laid = cut_at-IsLaid start 0 l low_end w.laid

  after_last-Unmapping :
      (u z : MmState) (r : Option Errno)
      → IsWell u.mm
      → u.mm.mmap ≡ cut_at start l
      → StartsBelow end (high start l)
      → (prev : Option ℕ) → prev ≡ last_start none (low start (cut_at start l))
      → Step out s.mm.map_count end u.mm r z.mm
      → Ends (λ r z. Unmapping out start end s.mm r z.mm) (after_last out prev start end r z)
  unfolding after_last
  after_last-Unmapping u z (some e) wu areas begins prev is_prev (refused why same) = ends (
      kept why (subst IsWell (sym same) wu) (λ x.
        ap (λ k. mapping_at k x) (ap (λ k. k.mmap) same ∙ areas)
        ∙ mapping_at-cut_at start 0 l x low_end w.laid))
  after_last-Unmapping u z none wu areas begins prev is_prev (cut wz eq) =
      let both : z.mm.mmap ≡ cut_at end (cut_at start l) = eq ∙ ap (cut_at end) areas in
      unmap_areas-Unmapping z wz both
        (rw both (
          StartsBelow-cut_at start end end (cut_at start l) (omega arith) (omega arith) wide
            (StartsBelow-cut_at start start end l (omega arith) (omega arith) wide begins)))
        prev
        (rw both
          (is_prev ∙ ap (last_start none) (sym (low-cut_at start end (cut_at start l) wide))))

  after_first-Unmapping :
      (u : MmState) (r : Option Errno)
      → StartsBelow end (high start l)
      → (prev : Option ℕ) → prev ≡ last_start none (low start (cut_at start l))
      → Step out s.mm.map_count start s.mm r u.mm
      → Ends (λ r z. Unmapping out start end s.mm r z.mm) (after_first out prev start end r u)
  unfolding after_first
  after_first-Unmapping u (some e) begins prev is_prev (refused why same) =
      ends (kept why (subst IsWell (sym same) w) (λ x. ap (λ k. mapping_at k.mmap x) same))
  after_first-Unmapping u none begins prev is_prev (cut wu eq) =
      then-Ends (split_last-Step out s.mm.map_count end high_end u wu)
        (λ r z step. after_last-Unmapping u z r wu eq begins prev is_prev step)

  prev-Unmapping :
      (v : Vma)
      → find_vma l start ≡ some v
      → (if ltb v.vm_start start then some v.vm_start else find_prev none l start)
        ≡ last_start none (low start (cut_at start l))
  prev-Unmapping v found = elim (Bool-cases (ltb v.vm_start start)) [
    | inl inside ↦
        simp inside (sym (last_start-cut_at none start l v found (ltb→lt v.vm_start start inside)))
    | inr above ↦ simp above (
        find_prev-low none l start
        ∙ ap (λ k. last_start none (low start k))
            (sym (cut_at_same start l (IsCut-find start 0 l v w.laid found (ground arith)))))
  ]

  munmap_found-Unmapping :
      (o : Option Vma)
      → find_vma l start ≡ o
      → Ends (λ r z. Unmapping out start end s.mm r z.mm) (munmap_found out start end o s)
  unfolding munmap_found
  munmap_found-Unmapping none found = ends (
      taken w (λ x. free_above start end 0 x l w.laid found)
        (omega (arith, count_none_found l start end found)))
  munmap_found-Unmapping (some v) found = elim (Bool-cases (leb end v.vm_start)) [
    | inl above ↦ simp above (
        ends (
          taken w (λ x. free_below start end 0 x l v w.laid found (ground arith))
            (omega (arith, count_found_above l start end v found (ground arith)))))
    | inr meets ↦ simp meets (
        then-Ends (split_first-Step out s.mm.map_count start low_end v end s w refl found)
          (λ r u step.
            after_first-Unmapping u r (StartsBelow-find start end l v found (ground arith)) _
              (prev-Unmapping v found) step))
  ]

-- The arguments that `do_munmap` refuses.
abbrev pub bad_range : Outside → (start len : ℕ) → Bool
bad_range out start len =
    offset_in_page start
    || ltb out.task_size start
    || ltb (out.task_size - start) len
    || page_align len == 0

aligned_end :
    (out : Outside) (start len : ℕ)
    → out.task_size + 4096 ≤ 2 ^ 64
    → bad_range out start len ≡ false
    → (start % 4096 ≡ 0)
      × ((start + page_align len) % 4096 ≡ 0)
      × (start < start + page_align len)
      × (add64 start (page_align len) ≡ start + page_align len)
      × (start + page_align len < 2 ^ 64)
aligned_end out start len room good =
    (ground arith, ground arith, ground arith, ground arith, ground arith)

munmap_checks :
    (out : Outside) (start len : ℕ) (s : MmState)
    → bad_range out start len ≡ false
    → do_munmap out start len s ≡ munmap_range out start (add64 start (page_align len)) s
unfolding do_munmap
munmap_checks out start len s good = ground arith

pub do_munmap-Unmapping :
    (out : Outside) (start len : ℕ) (s : MmState)
    → out.task_size + 4096 ≤ 2 ^ 64
    → IsWell s.mm
    → bad_range out start len ≡ false
    → Ends
        (λ r u. Unmapping out start (start + page_align len) s.mm r u.mm)
        (do_munmap out start len s)
unfolding munmap_range
do_munmap-Unmapping out start len s room w good =
    let (low_end, high_end, wide, same, top) = aligned_end out start len room good in
    rw (munmap_checks out start len s good, same)
      (munmap_found-Unmapping out start (start + page_align len) low_end high_end wide top s w
        (find_vma s.mm.mmap start) refl)

pub do_munmap_einval :
    (out : Outside) (start len : ℕ) (s : MmState)
    → bad_range out start len ≡ true
    → do_munmap out start len s ≡ done (some einval) s
unfolding do_munmap
do_munmap_einval out start len s bad = ground arith
