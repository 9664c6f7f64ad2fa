-- ===== src/Mm/Counted.antt =====
-- The counters of an address space: how `__split_vma` and `do_munmap` of src/mm/mmap.c keep them.
use zso_ptrace.Base.{
  ℕ, ◌+◌, ◌-◌, ◌%◌, ◌^◌, ◌≤◌, ◌<◌, ◌≡◌, refl, ◌∙◌, inl, inr, some, List, [], ◌∷◌, arith, ltb,
  if◌then◌else◌, Bool-cases,
}
use zso_ptrace.Mm.Area.{
  Vma, Mm, MmState, vma_pages, vm_stat_account, sub64, add64, has, vm_account, vm_locked,
}
use zso_ptrace.Base.Run.{Ends, ends, weaken}
use zso_ptrace.Mm.Split.{find_vma}
use zso_ptrace.Mm.Unmap.{length, run_below, rest_from, remove_vma, remove_loop, munlock_areas}
use zso_ptrace.Mm.Laid.{IsLaid, cut_at}
use zso_ptrace.Mm.Removed.{low, high, outside}

unfoldable pub total_pages : List Vma → ℕ
total_pages [] = 0
total_pages (v ∷ l) = vma_pages v + total_pages l

-- The areas lie in order, `map_count` counts them and `total_vm` their pages.
pub record IsWell (mm : Mm) : Type 0 where
  pub laid : IsLaid 0 mm.mmap
  pub counted : mm.map_count ≡ length mm.mmap
  pub total : mm.total_vm ≡ total_pages mm.mmap
  pub bounded : total_pages mm.mmap < 2 ^ 64

pub length-cut_at :
    (a : ℕ) (l : List Vma) (v : Vma)
    → find_vma l a ≡ some v
    → v.vm_start < a
    → length (cut_at a l) ≡ length l + 1
unfolding find_vma cut_at length
length-cut_at a [] v e h = ground (arith, e)
length-cut_at a (w ∷ l) v e h = elim (Bool-cases (ltb a w.vm_end)) [
  | inr past ↦ simp past (omega (arith, length-cut_at a l v (simp past at e) h))
  | inl here ↦ ground (arith, e, here)
]

pub total_pages-cut_at :
    (a lo : ℕ) (l : List Vma)
    → a % 4096 ≡ 0
    → IsLaid lo l
    → total_pages (cut_at a l) ≡ total_pages l
unfolding total_pages cut_at vma_pages
total_pages-cut_at a lo [] al laid = refl
total_pages-cut_at a lo (v ∷ l) al (from, size, s, t, rest) = elim (Bool-cases (ltb a v.vm_end)) [
  | inr past ↦ simp past (omega (arith, total_pages-cut_at a v.vm_end l al rest))
  | inl here ↦ elim (Bool-cases (ltb v.vm_start a)) [
    | inr at_start ↦ simp (here, at_start) refl
    | inl inside ↦ simp (here, inside) (ground arith)
  ]
]

length-rest_from :
    (e : ℕ) (l : List Vma) → length (rest_from e l) + length (run_below e l) ≡ length l
unfolding length rest_from run_below
length-rest_from e [] = refl
length-rest_from e (v ∷ l) = ground (arith, length-rest_from e l)

total_pages-rest_from :
    (e : ℕ) (l : List Vma)
    → total_pages (rest_from e l) + total_pages (run_below e l) ≡ total_pages l
unfolding total_pages rest_from run_below
total_pages-rest_from e [] = refl
total_pages-rest_from e (v ∷ l) = ground (arith, total_pages-rest_from e l)

pub length-outside :
    (s e : ℕ) (l : List Vma) → length (outside s e l) + length (run_below e (high s l)) ≡ length l
unfolding length low high
length-outside s e [] = length-rest_from e []
length-outside s e (v ∷ l) = elim (Bool-cases (ltb s v.vm_end)) [
  | inl stop ↦ simp stop (length-rest_from e (v ∷ l))
  | inr go ↦ simp go (omega (arith, length-outside s e l))
]

pub total_pages-outside :
    (s e : ℕ) (l : List Vma)
    → total_pages (outside s e l) + total_pages (run_below e (high s l)) ≡ total_pages l
unfolding total_pages low high
total_pages-outside s e [] = total_pages-rest_from e []
total_pages-outside s e (v ∷ l) = elim (Bool-cases (ltb s v.vm_end)) [
  | inl stop ↦ simp stop (total_pages-rest_from e (v ∷ l))
  | inr go ↦ simp go (omega (arith, total_pages-outside s e l))
]

-- The same areas and the same count of them, and `n` pages less.
pub record TakesPages (n : ℕ) (mm nn : Mm) : Type 0 where
  pub same_mmap : nn.mmap ≡ mm.mmap
  pub same_count : nn.map_count ≡ mm.map_count
  pub fewer : nn.total_vm ≡ mm.total_vm - n

stat-TakesPages :
    (flags n : ℕ) (mm : Mm)
    → n ≤ mm.total_vm
    → mm.total_vm < 2 ^ 64
    → TakesPages n mm (vm_stat_account sub64 flags n mm)
unfolding vm_stat_account
stat-TakesPages flags n mm le bound = record {
  same_mmap = ground arith;
  same_count = ground arith;
  fewer = ground arith;
}

pub munlock_areas-same :
    (l : List Vma) (s : MmState) → Ends (λ _ u. TakesPages 0 s.mm u.mm) (munlock_areas l s)
unfolding munlock_areas
munlock_areas-same [] s = ends (record { same_mmap = refl; same_count = refl; fewer = omega arith })
munlock_areas-same (v ∷ l) s = elim (Bool-cases (has v.vm_flags vm_locked)) [
  | inl locks ↦ simp locks (
      weaken
        (λ _ u p. record { same_mmap = p.same_mmap; same_count = p.same_count; fewer = p.fewer })
        (munlock_areas-same l _))
  | inr free ↦ simp free (munlock_areas-same l s)
]

pub remove_loop-TakesPages :
    (l : List Vma) (nr : ℕ) (s : MmState)
    → total_pages l ≤ s.mm.total_vm
    → s.mm.total_vm < 2 ^ 64
    → Ends (λ _ u. TakesPages (total_pages l) s.mm u.mm) (remove_loop nr l s)
unfolding remove_loop remove_vma total_pages
remove_loop-TakesPages [] nr s le bound =
    ends (record { same_mmap = refl; same_count = refl; fewer = omega arith })
remove_loop-TakesPages (v ∷ l) nr s le bound =
    let one = stat-TakesPages v.vm_flags (vma_pages v) s.mm (omega arith) bound in
    weaken
      (λ _ u p. record {
        same_mmap = p.same_mmap ∙ one.same_mmap;
        same_count = p.same_count ∙ one.same_count;
        fewer = omega (arith, p.fewer, one.fewer);
      })
      (remove_loop-TakesPages l (if has v.vm_flags vm_account then add64 nr (vma_pages v) else nr) _
        (omega (arith, one.fewer)) (omega (arith, one.fewer)))
