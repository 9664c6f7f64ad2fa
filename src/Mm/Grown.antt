-- ===== src/Mm/Grown.antt =====
-- `vma_merge` of src/mm/mmap.c where `prev` grows: its cases 1, 2, 5, 6 and 7.
use zso_ptrace.Base.{
  ℕ, ◌-◌, ◌*◌, ◌%◌, ◌^◌, ◌≤◌, ◌<◌, ◌≡◌, refl, inl, inr, ◌&&◌, List, [], ◌∷◌, ltb, leb, arith,
  Bool-cases,
}
use zso_ptrace.Mm.Area.{add64, pages, Vma, vma_pages}
use zso_ptrace.Mm.Unmap.{length}
use zso_ptrace.Mm.Laid.{IsLaid}
use zso_ptrace.Mm.Merge.{Request, merged}
use zso_ptrace.Mm.Agrees.{soft_at, soft_below, Fits, Agrees}
use zso_ptrace.Mm.Counted.{total_pages}
use zso_ptrace.Mm.Shapes.{soft_in-above, soft_in-over}

module _ (r : Request) (lo : ℕ) (low_end : r.addr % 4096 ≡ 0) (high_end : r.end % 4096 ≡ 0)
    (wide : r.addr < r.end) (top : r.end ≤ 2 ^ 64) where
  -- `prev` grows over a free range, and over the area behind that.
  pub case_2 :
      (v : Vma) (l : List Vma)
      → Agrees v r
      → add64 v.vm_pgoff (vma_pages v) ≡ r.pgoff
      → v.vm_end ≡ r.addr
      → IsLaid lo (v ∷ l)
      → IsLaid r.end l
      → Fits r lo (v ∷ l) (merged v.vm_start (record v { vm_end = r.end } ∷ l) [])
  unfolding vma_pages length soft_at total_pages
  case_2 v l ag off meets (from, size, s, e, rest) above = (
    (from, omega (arith, meets), s, high_end, above),
    (λ x. elim (Bool-cases (leb r.addr x && ltb x r.end)) [
      | inl inside ↦ ground (
        arith,
        inside,
        meets,
        soft_in-above v r x ag (rw (← meets) off) s low_end (omega (arith, meets)) (ground arith),
      )
      | inr outside ↦ ground (arith, outside, meets, soft_below v.vm_end x l rest)
    ]),
    omega arith,
    ground (arith, meets, soft_below r.end r.addr l above),
    inl (refl, omega (arith, meets, size), omega (arith, meets), ag.same_word, ag.same_file),
  )

  pub case_1 :
      (v n : Vma) (l : List Vma)
      → Agrees v r
      → Agrees n r
      → add64 v.vm_pgoff (vma_pages v) ≡ r.pgoff
      → n.vm_pgoff ≡ add64 r.pgoff (pages (r.end - r.addr))
      → v.vm_end ≡ r.addr
      → r.end ≡ n.vm_start
      → IsLaid lo (v ∷ n ∷ l)
      → Fits r lo (v ∷ n ∷ l) (merged v.vm_start (record v { vm_end = n.vm_end } ∷ l) (n ∷ []))
  unfolding vma_pages length soft_at total_pages
  case_1 v n l ag ah off next meets at (from, size, s, e, (_, n_size, t, f, rest)) =
      let off' : add64 v.vm_pgoff (pages (r.addr - v.vm_start)) ≡ r.pgoff = rw (← meets) off in
      (
        (from, omega (arith, meets, at), s, f, rest),
        (λ x. elim (Bool-cases (leb r.addr x && ltb x r.end)) [
          | inl inside ↦ ground (
            arith,
            inside,
            meets,
            at,
            soft_in-above v r x ag off' s low_end (omega (arith, meets)) (ground arith),
          )
          | inr outside ↦ ground (
            arith,
            outside,
            meets,
            at,
            soft_below n.vm_end x l rest,
            soft_in-over v n r x ag ah off' next at s low_end high_end (omega (arith, meets)) wide,
          )
        ]),
        omega arith,
        ground (arith, meets, at, soft_below n.vm_end r.addr l rest),
        inl (
          refl,
          omega (arith, meets, size),
          omega (arith, meets, at),
          ag.same_word,
          ag.same_file,
        ),
      )

  -- `prev` grows over the area behind it, over that and the next, and over a part of it.
  pub case_7 :
      (v n : Vma) (l : List Vma)
      → Agrees v r
      → add64 v.vm_pgoff (vma_pages v) ≡ r.pgoff
      → v.vm_end ≡ r.addr
      → n.vm_start ≡ r.addr
      → n.vm_end ≡ r.end
      → IsLaid lo (v ∷ n ∷ l)
      → Fits r lo (v ∷ n ∷ l) (merged v.vm_start (record v { vm_end = n.vm_end } ∷ l) (n ∷ []))
  unfolding vma_pages length soft_at total_pages
  case_7 v n l ag off meets from_n to_n (from, size, s, e, (_, n_size, t, f, rest)) =
      let off' : add64 v.vm_pgoff (pages (r.addr - v.vm_start)) ≡ r.pgoff = rw (← meets) off in
      (
        (from, omega (arith, meets, to_n), s, f, rest),
        (λ x. elim (Bool-cases (leb r.addr x && ltb x r.end)) [
          | inl inside ↦ ground (
            arith,
            inside,
            meets,
            to_n,
            soft_in-above v r x ag off' s low_end (omega (arith, meets)) (ground arith),
          )
          | inr outside ↦ ground (arith, outside, meets, from_n, to_n, soft_below n.vm_end x l rest)
        ]),
        omega arith,
        ground (arith, meets, from_n, to_n),
        inl (refl, omega (arith, meets, size), omega (arith, to_n), ag.same_word, ag.same_file),
      )

  pub case_6 :
      (v n y : Vma) (l : List Vma)
      → Agrees v r
      → Agrees y r
      → add64 v.vm_pgoff (vma_pages v) ≡ r.pgoff
      → y.vm_pgoff ≡ add64 r.pgoff (pages (r.end - r.addr))
      → v.vm_end ≡ r.addr
      → n.vm_start ≡ r.addr
      → n.vm_end ≡ r.end
      → r.end ≡ y.vm_start
      → IsLaid lo (v ∷ n ∷ y ∷ l)
      → Fits r lo
          (v ∷ n ∷ y ∷ l)
          (merged v.vm_start (record v { vm_end = y.vm_end } ∷ l) (n ∷ y ∷ []))
  unfolding vma_pages length soft_at total_pages
  case_6 v n y l ag ah off next meets from_n to_n at
        (from, size, s, e, (_, n_size, _, _, (_, y_size, t, f, rest))) =
      let off' : add64 v.vm_pgoff (pages (r.addr - v.vm_start)) ≡ r.pgoff = rw (← meets) off in
      (
        (from, omega (arith, meets, at), s, f, rest),
        (λ x. elim (Bool-cases (leb r.addr x && ltb x r.end)) [
          | inl inside ↦ ground (
            arith,
            inside,
            meets,
            at,
            soft_in-above v r x ag off' s low_end (omega (arith, meets)) (ground arith),
          )
          | inr outside ↦ ground (
            arith,
            outside,
            meets,
            from_n,
            to_n,
            at,
            soft_below y.vm_end x l rest,
            soft_in-over v y r x ag ah off' next at s low_end high_end (omega (arith, meets)) wide,
          )
        ]),
        omega arith,
        ground (arith, meets, from_n, to_n, at),
        inl (refl, omega (arith, meets, size), omega (arith, at), ag.same_word, ag.same_file),
      )

  pub case_5 :
      (v n : Vma) (l : List Vma)
      → Agrees v r
      → add64 v.vm_pgoff (vma_pages v) ≡ r.pgoff
      → v.vm_end ≡ r.addr
      → n.vm_start ≡ r.addr
      → r.end < n.vm_end
      → n.vm_end < 2 ^ 64
      → IsLaid lo (v ∷ n ∷ l)
      → Fits r lo (v ∷ n ∷ l) (
          merged v.vm_start
            (record v { vm_end = r.end }
              ∷ record n {
                vm_start = add64 n.vm_start (pages (r.end - n.vm_start) * 4096);
                vm_pgoff = add64 n.vm_pgoff (pages (r.end - n.vm_start));
              }
              ∷ l)
            [])
  unfolding vma_pages length soft_at total_pages
  case_5 v n l ag off meets from_n to_n bound (from, size, s, e, (_, n_size, t, f, rest)) =
      let off' : add64 v.vm_pgoff (pages (r.addr - v.vm_start)) ≡ r.pgoff = rw (← meets) off in
      let moved : add64 n.vm_start (pages (r.end - n.vm_start) * 4096) ≡ r.end =
        rw from_n (omega arith) in
      rw moved (
        (from, omega (arith, meets), s, high_end, (omega arith, to_n, high_end, f, rest)),
        (λ x. elim (Bool-cases (leb r.addr x && ltb x r.end)) [
          | inl inside ↦ ground (
            arith,
            inside,
            meets,
            soft_in-above v r x ag off' s low_end (omega (arith, meets)) (ground arith),
          )
          | inr outside ↦ ground (arith, outside, meets, from_n)
        ]),
        omega arith,
        ground (arith, meets, from_n),
        inl (refl, omega (arith, meets, size), omega (arith, meets), ag.same_word, ag.same_file),
      )
