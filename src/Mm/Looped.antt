-- ===== src/Mm/Looped.antt =====
-- The loop of `count_vma_pages_range` in src/mm/mmap.c counts what is taken out behind its first area.
use zso_ptrace.Base.{
  ℕ, ◌+◌, ◌-◌, ◌%◌, ◌^◌, ◌≤◌, ◌<◌, ◌≡◌, refl, sym, ap, ◌∙◌, inl, inr, true, false, List, [], ◌∷◌,
  arith, ltb, leb, Bool-cases,
}
use zso_ptrace.Mm.Area.{add64, pages, Vma, vma_pages}
use zso_ptrace.Mm.Unmap.{run_below}
use zso_ptrace.Mm.Laid.{IsLaid, cut_at}
use zso_ptrace.Mm.Counted.{total_pages}
use zso_ptrace.Mm.Count.{min, max, count_rest, count_from}

pub none_above :
    (e lo : ℕ) (l : List Vma) → IsLaid lo l → e ≤ lo → total_pages (run_below e (cut_at e l)) ≡ 0
unfolding run_below cut_at total_pages
none_above e lo [] laid h = refl
none_above e lo (v ∷ l) (from, size, a, b, rest) h = ground arith

count_rest-stays :
    (e lo nr : ℕ) (l : List Vma) → IsLaid lo l → e ≤ lo → nr < 2 ^ 64 → count_rest e nr l ≡ nr
unfolding count_rest
count_rest-stays e lo nr [] laid h bound = refl
count_rest-stays e lo nr (v ∷ l) (from, size, a, b, rest) h bound =
    elim (Bool-cases (ltb e v.vm_start)) [
      | inl far ↦ simp far refl
      | inr at ↦
          let nothing : add64 nr (pages (min e v.vm_end - v.vm_start)) ≡ nr = ground arith in
          simp at (rw nothing (count_rest-stays e v.vm_end nr l rest (omega arith) bound))
    ]

module _ (e : ℕ) (al : e % 4096 ≡ 0) (fits : e < 2 ^ 64) where
  count_rest-run_below :
      (lo nr : ℕ) (l : List Vma)
      → IsLaid lo l
      → nr + total_pages (run_below e (cut_at e l)) < 2 ^ 64
      → count_rest e nr l ≡ nr + total_pages (run_below e (cut_at e l))
  unfolding count_rest run_below cut_at total_pages vma_pages
  count_rest-run_below lo nr [] laid bound = omega arith
  count_rest-run_below lo nr (v ∷ l) (from, size, a, b, rest) bound =
      elim (Bool-cases (ltb e v.vm_end)) [
        | inr past ↦
            let go : ltb e v.vm_start ≡ false = ground arith in
            let starts : ltb v.vm_start e ≡ true = ground arith in
            let room : nr + (vma_pages v + total_pages (run_below e (cut_at e l))) < 2 ^ 64 =
              simp (past, starts) at bound in
            let wraps : add64 nr (pages (v.vm_end - v.vm_start)) ≡ nr + vma_pages v =
              omega (arith, room) in
            simp (past, go, starts)
              (rw wraps (
                count_rest-run_below v.vm_end (nr + vma_pages v) l rest (omega (arith, room))
                ∙ omega arith))
        | inl here ↦ elim (Bool-cases (ltb v.vm_start e)) [
          | inl inside ↦
              let go : ltb e v.vm_start ≡ false = ground arith in
              let stops : ltb e e ≡ false = ground arith in
              let room : nr + (pages (e - v.vm_start) + 0) < 2 ^ 64 =
                simp (here, inside, stops) at bound in
              let wraps : add64 nr (pages (e - v.vm_start)) ≡ nr + pages (e - v.vm_start) =
                omega (arith, room) in
              simp (here, inside, go, stops)
                (rw wraps (
                  count_rest-stays e v.vm_end (nr + pages (e - v.vm_start)) l rest (ground arith)
                    (omega (arith, room))
                  ∙ omega arith))
          | inr above ↦
              count_rest-stays e v.vm_start nr (v ∷ l) (omega arith, size, a, b, rest)
                (ground arith) (omega arith)
              ∙ simp (here, above) (omega arith)
        ]
      ]

  -- The areas that lie from an address on, of which the first is cut there.
  pub from_above :
      (s lo : ℕ) (v : Vma) (l : List Vma)
      → IsLaid lo (v ∷ l)
      → s ≤ v.vm_start
      → total_pages (run_below e (cut_at e (v ∷ l))) < 2 ^ 64
      → count_from s e (v ∷ l) ≡ total_pages (run_below e (cut_at e (v ∷ l)))
  unfolding count_from
  from_above s lo v l laid above bound = elim (Bool-cases (leb e v.vm_start)) [
    | inl far ↦
        simp far (sym (none_above e v.vm_start (v ∷ l) (from_start v l laid) (ground arith)))
    | inr near ↦
        simp near
          (first near ∙ count_rest-run_below lo 0 (v ∷ l) laid (omega (arith, bound)) ∙ omega arith)
  ]
    where
      from_start : (v : Vma) (l : List Vma) → IsLaid lo (v ∷ l) → IsLaid v.vm_start (v ∷ l)
      from_start v l (from, size, a, b, rest) = (omega arith, size, a, b, rest)

      first :
          leb e v.vm_start ≡ false
          → count_rest e (pages (min e v.vm_end - max s v.vm_start)) l ≡ count_rest e 0 (v ∷ l)
      first near =
          let no_stop : ltb e v.vm_start ≡ false = ground arith in
          let whole : max s v.vm_start ≡ v.vm_start = ground arith in
          let small : add64 0 (pages (min e v.vm_end - v.vm_start))
              ≡ pages (min e v.vm_end - v.vm_start) =
            ground arith in
          rw (no_stop, small) (ap (λ k. count_rest e (pages (min e v.vm_end - k)) l) whole)
