-- ===== src/Mm/Munmap.antt =====
-- `do_munmap` of src/mm/mmap.c takes a range of addresses out of an address space.
use zso_ptrace.Base.{
  ℕ, ◌+◌, ◌-◌, ◌%◌, ◌^◌, ◌≤◌, ◌<◌, ◌≡◌, refl, sym, subst, ap, ◌∙◌, inl, inr, Bool, true, false,
  ◌&&◌, Option, none, some, List, [], ◌∷◌, ◌++◌, arith, ltb, leb, ◌==◌, ◌!=◌, Bool-cases,
  Option-cases, lt→ltb,
}
use zso_ptrace.Base.Run.{Ends, ends, then-Ends}
use zso_ptrace.Errno.{Errno, einval, enomem}
use zso_ptrace.Mm.Area.{has, vm_hugetlb, Vma, Mm, MmState, Outside}
use zso_ptrace.Mm.Split.{
  find_vma, split_vma_unchecked, split_new, after_policy, after_clone, open_piece,
}
use zso_ptrace.Mm.Unmap.{
  behind, up_to, run_below, rest_from, length, munlock_range, detach_areas, detach_from,
  remove_vma_list, split_first, split_last, split_found, unmap_areas,
}
use zso_ptrace.Mm.Laid.{IsLaid, cut_at, cut_at-IsLaid}
use zso_ptrace.Mm.Cut.{split_list-cut_at}
use zso_ptrace.Mm.Removed.{low, high, last_start, behind-high, up_to-low, outside, outside-IsLaid}
use zso_ptrace.Mm.Before.{cut_at_same, IsCut-find, IsCut-none, StartsBelow}
use zso_ptrace.Mm.Counted.{
  IsWell, total_pages, length-cut_at, total_pages-cut_at, length-outside, total_pages-outside,
  TakesPages, munlock_areas-same, remove_loop-TakesPages,
}

-- Why a split may fail, in an address space of `count` areas.
pub data Refusal (out : Outside) (count : ℕ) : Errno → Type 0 where
  in_huge_page :
      (v : Vma) (a : ℕ)
      → (has v.vm_flags vm_hugetlb && (a % out.huge_page_size v != 0)) ≡ true
      → Refusal out count einval
  no_memory : (a : ℕ) → out.alloc_vma a ≡ false → Refusal out count enomem
  no_policy : (v : Vma) (a : ℕ) {e : Errno} → out.dup_policy v a ≡ some e → Refusal out count e
  no_anon : (v : Vma) (a : ℕ) {e : Errno} → out.clone_anon v a ≡ some e → Refusal out count e
  full : leb out.max_map_count count ≡ true → Refusal out count enomem

-- A split at an address, which fails without a change or cuts the list there.
pub data Step (out : Outside) (count a : ℕ) (m : Mm) : Option Errno → Mm → Type 0 where
  refused : {e : Errno} {n : Mm} → Refusal out count e → n ≡ m → Step out count a m (some e) n
  cut : {n : Mm} → IsWell n → n.mmap ≡ cut_at a m.mmap → Step out count a m none n

IsWell-cut_at :
    (m : Mm) (a : ℕ) (v : Vma)
    → IsWell m
    → a % 4096 ≡ 0
    → find_vma m.mmap a ≡ some v
    → v.vm_start < a
    → IsWell (record m { mmap = cut_at a m.mmap; map_count = m.map_count + 1 })
IsWell-cut_at m a v w al found inside = record {
  laid = cut_at-IsLaid a 0 m.mmap al w.laid;
  counted = omega (arith, w.counted, length-cut_at a m.mmap v found inside);
  total = w.total ∙ sym (total_pages-cut_at a 0 m.mmap al w.laid);
  bounded = omega (arith, w.bounded, total_pages-cut_at a 0 m.mmap al w.laid);
}

module _ (out : Outside) (count a : ℕ) (al : a % 4096 ≡ 0) where
  after_clone-Step :
      (v : Vma) (below : Bool) (r : Option Errno) (s : MmState)
      → out.clone_anon v a ≡ r
      → IsWell s.mm
      → find_vma s.mm.mmap a ≡ some v
      → v.vm_start < a
      → Ends (λ r u. Step out count a s.mm r u.mm) (after_clone out v a below r s)
  unfolding after_clone open_piece
  after_clone-Step v below (some e) s got w found inside = ends (refused (no_anon v a got) refl)
  after_clone-Step v below none s got w found inside =
      rw (split_list-cut_at a v inside below 0 s.mm.mmap w.laid found)
        (ends (cut (IsWell-cut_at s.mm a v w al found inside) refl))

  after_policy-Step :
      (v : Vma) (below : Bool) (r : Option Errno) (s : MmState)
      → out.dup_policy v a ≡ r
      → IsWell s.mm
      → find_vma s.mm.mmap a ≡ some v
      → v.vm_start < a
      → Ends (λ r u. Step out count a s.mm r u.mm) (after_policy out v a below r s)
  unfolding after_policy
  after_policy-Step v below (some e) s got w found inside = ends (refused (no_policy v a got) refl)
  after_policy-Step v below none s got w found inside =
      after_clone-Step v below (out.clone_anon v a) s refl w found inside

  pub split-Step :
      (v : Vma) (below : Bool) (s : MmState)
      → IsWell s.mm
      → find_vma s.mm.mmap a ≡ some v
      → v.vm_start < a
      → Ends (λ r u. Step out count a s.mm r u.mm) (split_vma_unchecked out v a below s)
  unfolding split_vma_unchecked split_new
  split-Step v below s w found inside =
      elim (Bool-cases (has v.vm_flags vm_hugetlb && (a % out.huge_page_size v != 0))) [
        | inl bad ↦ simp bad (ends (refused (in_huge_page v a bad) refl))
        | inr good ↦ elim (Bool-cases (out.alloc_vma a)) [
          | inr bad ↦ simp (good, bad) (ends (refused (no_memory a bad) refl))
          | inl free ↦
              simp (good, free)
                (after_policy-Step v below (out.dup_policy v a) s refl w found inside)
        ]
      ]

  -- Where `find_vma` gives no area that begins below the address, the list is cut there.
  uncut-Step :
      (v : Vma) (m : Mm)
      → IsWell m
      → find_vma m.mmap a ≡ some v
      → a ≤ v.vm_start
      → Step out count a m none m
  uncut-Step v m w found above =
      cut w (sym (cut_at_same a m.mmap (IsCut-find a 0 m.mmap v w.laid found above)))

  pub split_first-Step :
      (v : Vma) (end : ℕ) (s : MmState)
      → IsWell s.mm
      → count ≡ s.mm.map_count
      → find_vma s.mm.mmap a ≡ some v
      → Ends (λ r u. Step out count a s.mm r u.mm) (split_first out v a end s)
  unfolding split_first
  split_first-Step v end s w same found = elim (Bool-cases (ltb v.vm_start a)) [
    | inr above ↦ simp above (ends (uncut-Step v s.mm w found (ground arith)))
    | inl inside ↦ elim (Bool-cases (ltb end v.vm_end && leb out.max_map_count s.mm.map_count)) [
      | inl limit ↦ simp (inside, limit) (ends (refused (full (ground (arith, limit, same))) refl))
      | inr room ↦ simp (inside, room) (split-Step v false s w found (ground arith))
    ]
  ]

  pub split_last-Step :
      (s : MmState) → IsWell s.mm → Ends (λ r u. Step out count a s.mm r u.mm) (split_last out a s)
  unfolding split_last split_found
  split_last-Step s w = elim (Option-cases (find_vma s.mm.mmap a)) [
    | inl none_left ↦
        simp none_left
          (ends (cut w (sym (cut_at_same a s.mm.mmap (IsCut-none a 0 s.mm.mmap w.laid none_left)))))
    | inr (v, found) ↦ elim (Bool-cases (ltb v.vm_start a)) [
      | inr above ↦ simp (found, above) (ends (uncut-Step v s.mm w found (ground arith)))
      | inl inside ↦ simp (found, inside) (split-Step v true s w found (ground arith))
    ]
  ]

munlock_range-same :
    (end : ℕ) (l : List Vma) (s : MmState)
    → Ends (λ _ u. TakesPages 0 s.mm u.mm) (munlock_range end l s)
unfolding munlock_range
munlock_range-same end l s = elim (Bool-cases (s.mm.locked_vm == 0)) [
  | inl free ↦
      simp free (ends (record { same_mmap = refl; same_count = refl; fewer = omega arith }))
  | inr locked ↦ simp locked (munlock_areas-same (run_below end l) s)
]

remove_vma_list-TakesPages :
    (l : List Vma) (s : MmState)
    → total_pages l ≤ s.mm.total_vm
    → s.mm.total_vm < 2 ^ 64
    → Ends (λ _ u. TakesPages (total_pages l) s.mm u.mm) (remove_vma_list l s)
unfolding remove_vma_list
remove_vma_list-TakesPages l s le bound =
    then-Ends (remove_loop-TakesPages l 0 _ le bound) (λ nr u p.
      ends (record { same_mmap = p.same_mmap; same_count = p.same_count; fewer = p.fewer }))

detach_from-run_below :
    (prev : Option ℕ) (end : ℕ) (h : List Vma) (s : MmState)
    → StartsBelow end h
    → Ends
        (λ removed u.
          (removed ≡ run_below end h)
          × (u.mm ≡ record s.mm {
            mmap = up_to prev s.mm.mmap ++ rest_from end h;
            map_count = s.mm.map_count - length (run_below end h);
          }))
        (detach_from prev end h s)
unfolding detach_from run_below rest_from
detach_from-run_below prev end [] s begins = absurd begins
detach_from-run_below prev end (v ∷ l) s begins =
    simp (lt→ltb v.vm_start end begins) (ends (refl, refl))

IsWell-outside :
    (start end : ℕ) (m n : Mm)
    → IsWell m
    → n.mmap ≡ outside start end m.mmap
    → n.map_count ≡ m.map_count - length (run_below end (high start m.mmap))
    → n.total_vm ≡ m.total_vm - total_pages (run_below end (high start m.mmap))
    → IsWell n
IsWell-outside start end m n w areas count total =
    let lengths = length-outside start end m.mmap in
    let sums = total_pages-outside start end m.mmap in
    record {
      laid = subst (IsLaid 0) (sym areas) (outside-IsLaid start end 0 m.mmap w.laid);
      counted = rw areas (omega (arith, count, lengths, w.counted));
      total = rw areas (omega (arith, total, sums, w.total));
      bounded = rw areas (omega (arith, sums, w.bounded));
    }

-- The range behind the splits, where the list is cut at both ends and an area begins in it.
pub unmap_areas-outside :
    (out : Outside) (start end : ℕ) (s : MmState)
    → IsWell s.mm
    → StartsBelow end (high start s.mm.mmap)
    → Ends
        (λ r u. (r ≡ none) × IsWell u.mm × (u.mm.mmap ≡ outside start end s.mm.mmap))
        (unmap_areas out (last_start none (low start s.mm.mmap)) start end s)
unfolding unmap_areas detach_areas
unmap_areas-outside out start end s w begins =
    let l : List Vma = s.mm.mmap in
    let prev : Option ℕ = last_start none (low start l) in
    let gone : List Vma = run_below end (high start l) in
    then-Ends (munlock_range-same end (behind prev l) s) (λ _ t p.
      let same_high : behind prev t.mm.mmap ≡ high start l =
        ap (behind prev) p.same_mmap ∙ behind-high start 0 l w.laid in
      rw same_high (
        then-Ends (detach_from-run_below prev end (high start l) t begins)
          (λ removed u (is_gone, after).
            let left : u.mm.mmap ≡ outside start end l =
              ap (λ m. m.mmap) after
              ∙ ap (λ k. up_to prev k ++ rest_from end (high start l)) p.same_mmap
              ∙ ap (λ k. k ++ rest_from end (high start l)) (up_to-low start 0 l w.laid) in
            let count : u.mm.map_count ≡ t.mm.map_count - length gone =
              ap (λ m. m.map_count) after in
            let total : u.mm.total_vm ≡ t.mm.total_vm = ap (λ m. m.total_vm) after in
            then-Ends
              (remove_vma_list-TakesPages removed _
                (rw is_gone
                  (omega (arith, total, p.fewer, w.total, total_pages-outside start end l)))
                (omega (arith, total, p.fewer, w.total, w.bounded)))
              (λ _ z q. ends (
                refl,
                IsWell-outside start end s.mm z.mm w (q.same_mmap ∙ left)
                    (omega (arith, q.same_count, count, p.same_count))
                    (omega (arith, q.fewer, ap total_pages is_gone, total, p.fewer)),
                q.same_mmap ∙ left,
              )))))
