-- ===== src/Mm/Outcome.antt =====
-- How `do_munmap` of src/mm/mmap.c may end, and what it finds where nothing is mapped.
use zso_ptrace.Base.{
  ℕ, ◌+◌, ◌≤◌, ◌≡◌, inl, inr, Option, none, some, List, [], ◌∷◌, arith, ltb, Bool-cases,
}
use zso_ptrace.Errno.{Errno}
use zso_ptrace.Mm.Area.{Outside, Vma, Mm}
use zso_ptrace.Mm.Split.{find_vma}
use zso_ptrace.Mm.Laid.{IsLaid, mapping_at, mapping_below}
use zso_ptrace.Mm.Removed.{if_outside}
use zso_ptrace.Mm.Counted.{IsWell}
use zso_ptrace.Mm.Munmap.{Refusal}
use zso_ptrace.Mm.Count.{count_vma_pages_range}

-- What becomes of an address space `w` when `do_munmap` is to take `[start, end)` out: an error for which there is
-- a reason, and
-- no address is mapped otherwise than before, or success, and nothing is mapped in the range and
-- outside of it everything as before, with as many pages less as `count_vma_pages_range` counts.
pub data Unmapping (out : Outside) (start end : ℕ) (w : Mm) : Option Errno → Mm → Type 0 where
  kept :
      {e : Errno} {n : Mm}
      → Refusal out w.map_count e
      → IsWell n
      → ((x : ℕ) → mapping_at n.mmap x ≡ mapping_at w.mmap x)
      → Unmapping out start end w (some e) n
  taken :
      {n : Mm}
      → IsWell n
      → ((x : ℕ) → mapping_at n.mmap x ≡ if_outside start end x (mapping_at w.mmap x))
      → n.total_vm + count_vma_pages_range w.mmap start end ≡ w.total_vm
      → Unmapping out start end w none n

-- Nothing is mapped between an address and the area that `find_vma` gives for it.
pub free_below :
    (s e lo x : ℕ) (l : List Vma) (v : Vma)
    → IsLaid lo l
    → find_vma l s ≡ some v
    → e ≤ v.vm_start
    → mapping_at l x ≡ if_outside s e x (mapping_at l x)
unfolding find_vma mapping_at
free_below s e lo x [] v laid found above = ground (arith, found)
free_below s e lo x (w ∷ l) v (from, size, a, b, rest) found above =
    elim (Bool-cases (ltb s w.vm_end)) [
      | inr past ↦ ground (arith, free_below s e w.vm_end x l v rest (simp past at found) above)
      | inl here ↦ ground (arith, here, found, mapping_below w.vm_end x l rest)
    ]

pub free_above :
    (s e lo x : ℕ) (l : List Vma)
    → IsLaid lo l
    → find_vma l s ≡ none
    → mapping_at l x ≡ if_outside s e x (mapping_at l x)
unfolding find_vma mapping_at
free_above s e lo x [] laid found = ground arith
free_above s e lo x (w ∷ l) (from, size, a, b, rest) found = elim (Bool-cases (ltb s w.vm_end)) [
  | inr past ↦ ground (arith, free_above s e w.vm_end x l rest (simp past at found))
  | inl here ↦ absurd (ground (arith, here, found))
]
