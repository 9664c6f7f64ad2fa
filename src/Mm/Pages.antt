-- ===== src/Mm/Pages.antt =====
-- `count_vma_pages_range` of src/mm/mmap.c counts what `do_munmap` takes out.
use zso_ptrace.Base.{
  ℕ, ◌+◌, ◌%◌, ◌^◌, ◌≤◌, ◌<◌, ◌≡◌, refl, sym, ap, ◌∙◌, inl, inr, true, false, none, some, List, [],
  ◌∷◌, arith, ltb, Bool-cases,
}
use zso_ptrace.Mm.Area.{Vma}
use zso_ptrace.Mm.Unmap.{run_below}
use zso_ptrace.Mm.Laid.{IsLaid, cut_at-IsLaid, cut_at, high_piece}
use zso_ptrace.Mm.Removed.{high, outside}
use zso_ptrace.Mm.Counted.{total_pages, total_pages-outside, total_pages-cut_at}
use zso_ptrace.Mm.Split.{find_vma}
use zso_ptrace.Mm.Count.{count_from, count_vma_pages_range}
use zso_ptrace.Mm.Looped.{from_above}

module _ (e : ℕ) (al : e % 4096 ≡ 0) (fits : e < 2 ^ 64) where
  high-cut_at :
      (s : ℕ) (v : Vma) (l : List Vma)
      → s < e
      → s < v.vm_end
      → high s (cut_at e (v ∷ l)) ≡ cut_at e (v ∷ l)
  unfolding high cut_at
  high-cut_at s v l lt here = elim (Bool-cases (ltb e v.vm_end)) [
    | inr past ↦ simp past (ground arith)
    | inl short ↦ elim (Bool-cases (ltb v.vm_start e)) [
      | inl inside ↦ simp (short, inside) (ground arith)
      | inr above ↦ simp (short, above) (ground arith)
    ]
  ]

  count_from-high_piece :
      (s : ℕ) (v : Vma) (l : List Vma)
      → s < e
      → v.vm_start < s
      → count_from s e (v ∷ l) ≡ count_from s e (high_piece v s ∷ l)
  unfolding count_from
  count_from-high_piece s v l lt inside = ground arith

  -- What the first area of a list does to the range of it that is cut out.
  cut_past :
      (s : ℕ) (v : Vma) (l : List Vma)
      → s < e
      → ltb s v.vm_end ≡ false
      → high s (cut_at e (cut_at s (v ∷ l))) ≡ high s (cut_at e (cut_at s l))
  unfolding high cut_at
  cut_past s v l lt past =
      let beyond : ltb e v.vm_end ≡ false = ground arith in simp past (simp beyond (simp past refl))

  cut_inside :
      (s : ℕ) (v : Vma) (l : List Vma)
      → s < e
      → ltb s v.vm_end ≡ true
      → ltb v.vm_start s ≡ true
      → high s (cut_at e (cut_at s (v ∷ l))) ≡ cut_at e (high_piece v s ∷ l)
  unfolding high cut_at
  cut_inside s v l lt here inside =
      let beyond : ltb e s ≡ false = ground arith in
      let low_out : ltb s s ≡ false = ground arith in
      simp (here, inside)
        (simp beyond (simp low_out (high-cut_at s (high_piece v s) l lt (ground arith))))

  cut_above :
      (s : ℕ) (v : Vma) (l : List Vma)
      → s < e
      → ltb s v.vm_end ≡ true
      → ltb v.vm_start s ≡ false
      → high s (cut_at e (cut_at s (v ∷ l))) ≡ cut_at e (v ∷ l)
  unfolding cut_at
  cut_above s v l lt here above =
      ap (λ m. high s (cut_at e m)) (same s v l here above) ∙ high-cut_at s v l lt (ground arith)
    where
      same :
          (s : ℕ) (v : Vma) (l : List Vma)
          → ltb s v.vm_end ≡ true
          → ltb v.vm_start s ≡ false
          → cut_at s (v ∷ l) ≡ v ∷ l
      same s v l here above = simp (here, above) refl

  count_past :
      (s : ℕ) (v : Vma) (l : List Vma)
      → ltb s v.vm_end ≡ false
      → count_vma_pages_range (v ∷ l) s e ≡ count_vma_pages_range l s e
  unfolding count_vma_pages_range high
  count_past s v l past = simp past refl

  count_here :
      (s : ℕ) (v : Vma) (l : List Vma)
      → ltb s v.vm_end ≡ true
      → count_vma_pages_range (v ∷ l) s e ≡ count_from s e (v ∷ l)
  unfolding count_vma_pages_range high
  count_here s v l here = simp here refl

  count_none :
      (s : ℕ)
      → count_vma_pages_range [] s e ≡ total_pages (run_below e (high s (cut_at e (cut_at s []))))
  unfolding count_vma_pages_range high cut_at run_below total_pages
  count_none s = refl

  pub count_vma_pages_range-run_below :
      (s lo : ℕ) (l : List Vma)
      → s % 4096 ≡ 0
      → s < e
      → IsLaid lo l
      → total_pages (run_below e (high s (cut_at e (cut_at s l)))) < 2 ^ 64
      → count_vma_pages_range l s e ≡ total_pages (run_below e (high s (cut_at e (cut_at s l))))
  count_vma_pages_range-run_below s lo [] sl lt laid bound = count_none s
  count_vma_pages_range-run_below s lo (v ∷ l) sl lt (from, size, a, b, rest) bound =
      elim (Bool-cases (ltb s v.vm_end)) [
        | inr past ↦
            let same = cut_past s v l lt past in
            count_past s v l past
            ∙ count_vma_pages_range-run_below s v.vm_end l sl lt rest
                (omega (arith, bound, ap (λ m. total_pages (run_below e m)) same))
            ∙ ap (λ m. total_pages (run_below e m)) (sym same)
        | inl here ↦ elim (Bool-cases (ltb v.vm_start s)) [
          | inl inside ↦
              let same = ap (λ m. total_pages (run_below e m)) (cut_inside s v l lt here inside) in
              count_here s v l here
              ∙ count_from-high_piece s v l lt (ground arith)
              ∙ from_above e al fits s s (high_piece v s) l (omega arith, ground arith, sl, b, rest)
                  (omega arith) (omega (arith, bound, same))
              ∙ sym same
          | inr above ↦
              let same = ap (λ m. total_pages (run_below e m)) (cut_above s v l lt here above) in
              count_here s v l here
              ∙ from_above e al fits s lo v l (from, size, a, b, rest) (ground arith)
                  (omega (arith, bound, same))
              ∙ sym same
        ]
      ]

pub count_none_found :
    (l : List Vma) (s e : ℕ) → find_vma l s ≡ none → count_vma_pages_range l s e ≡ 0
unfolding find_vma count_vma_pages_range high count_from
count_none_found [] s e found = refl
count_none_found (w ∷ l) s e found = elim (Bool-cases (ltb s w.vm_end)) [
  | inr past ↦ simp past (count_none_found l s e (simp past at found))
  | inl here ↦ absurd (ground (arith, here, found))
]

pub count_found_above :
    (l : List Vma) (s e : ℕ) (v : Vma)
    → find_vma l s ≡ some v
    → e ≤ v.vm_start
    → count_vma_pages_range l s e ≡ 0
unfolding find_vma count_vma_pages_range high count_from
count_found_above [] s e v found above = refl
count_found_above (w ∷ l) s e v found above = elim (Bool-cases (ltb s w.vm_end)) [
  | inr past ↦ simp past (count_found_above l s e v (simp past at found) above)
  | inl here ↦ simp here (ground (arith, here, found))
]

-- The pages outside of the range and those that are counted in it.
pub count_vma_pages_range-outside :
    (s e lo : ℕ) (l : List Vma)
    → s % 4096 ≡ 0
    → e % 4096 ≡ 0
    → e < 2 ^ 64
    → s < e
    → IsLaid lo l
    → total_pages l < 2 ^ 64
    → total_pages (outside s e (cut_at e (cut_at s l))) + count_vma_pages_range l s e
      ≡ total_pages l
count_vma_pages_range-outside s e lo l sl al fits lt laid bound =
    let m = cut_at e (cut_at s l) in
    let sums = total_pages-outside s e m in
    let same =
      total_pages-cut_at e lo (cut_at s l) al (cut_at-IsLaid s lo l sl laid)
      ∙ total_pages-cut_at s lo l sl laid in
    omega (
      arith,
      sums,
      same,
      count_vma_pages_range-run_below e al fits s lo l sl lt laid
          (omega (arith, sums, same, bound)),
    )
