-- ===== src/Mm/Lowered.antt =====
-- `vma_merge` of src/mm/mmap.c where the area behind the range grows: its cases 3, 4 and 8.
use zso_ptrace.Base.{
  ℕ, ◌-◌, ◌*◌, ◌%◌, ◌^◌, ◌≤◌, ◌<◌, ◌≡◌, refl, inl, inr, ◌&&◌, List, [], ◌∷◌, ltb, leb, arith,
  Bool-cases,
}
use zso_ptrace.Mm.Area.{add64, sub64, pages, Vma, vma_pages}
use zso_ptrace.Mm.Unmap.{length}
use zso_ptrace.Mm.Laid.{IsLaid}
use zso_ptrace.Mm.Merge.{Request, merged}
use zso_ptrace.Mm.Agrees.{soft_at, soft_below, Fits, Agrees}
use zso_ptrace.Mm.Counted.{total_pages}
use zso_ptrace.Mm.Shapes.{lowered, lowered-requested, lowered-same}

module _ (r : Request) (lo : ℕ) (low_end : r.addr % 4096 ≡ 0) (high_end : r.end % 4096 ≡ 0)
    (wide : r.addr < r.end) (top : r.end ≤ 2 ^ 64) where
  -- The area at the end of a free range grows down over it.
  pub case_3 :
      (n : Vma) (l : List Vma)
      → Agrees n r
      → n.vm_pgoff ≡ add64 r.pgoff (pages (r.end - r.addr))
      → r.end ≡ n.vm_start
      → lo ≤ r.addr
      → IsLaid lo (n ∷ l)
      → Fits r lo (n ∷ l) (merged r.addr (lowered r n ∷ l) [])
  unfolding vma_pages length soft_at total_pages
  case_3 n l ag next at free (from, size, s, e, rest) = (
    (free, omega (arith, at), low_end, e, rest),
    (λ x. elim (Bool-cases (leb r.addr x && ltb x r.end)) [
      | inl inside ↦ ground (
        arith,
        inside,
        at,
        lowered-requested n r x next at low_end high_end wide top ag (ground arith),
      )
      | inr outside ↦
          ground (arith, outside, at, lowered-same n r x next at low_end high_end wide top)
    ]),
    omega arith,
    ground (arith, at, soft_below n.vm_end r.addr l rest),
    inl (refl, omega arith, omega (arith, at, size), ag.same_word, ag.same_file),
  )

  -- It grows over the area that the range is, which is freed.
  pub case_8 :
      (a n : Vma) (l : List Vma)
      → Agrees n r
      → n.vm_pgoff ≡ add64 r.pgoff (pages (r.end - r.addr))
      → a.vm_start ≡ r.addr
      → a.vm_end ≡ r.end
      → r.end ≡ n.vm_start
      → IsLaid lo (a ∷ n ∷ l)
      → Fits r lo (a ∷ n ∷ l) (merged r.addr (lowered r n ∷ l) (a ∷ []))
  unfolding vma_pages length soft_at total_pages
  case_8 a n l ag next from_a to_a at (from, a_size, _, _, (_, size, s, e, rest)) = (
    (omega (arith, from_a), omega (arith, at), low_end, e, rest),
    (λ x. elim (Bool-cases (leb r.addr x && ltb x r.end)) [
      | inl inside ↦ ground (
        arith,
        inside,
        at,
        lowered-requested n r x next at low_end high_end wide top ag (ground arith),
      )
      | inr outside ↦
          ground
            (arith, outside, at, from_a, to_a, lowered-same n r x next at low_end high_end wide top)
    ]),
    omega arith,
    ground (arith, at, from_a, to_a),
    inl (refl, omega arith, omega (arith, at, size), ag.same_word, ag.same_file),
  )

  -- It grows over the end of `prev`.
  pub case_4 :
      (v n : Vma) (l : List Vma)
      → Agrees n r
      → n.vm_pgoff ≡ add64 r.pgoff (pages (r.end - r.addr))
      → v.vm_start < r.addr
      → v.vm_end ≡ r.end
      → r.end ≡ n.vm_start
      → n.vm_start < 2 ^ 64
      → IsLaid lo (v ∷ n ∷ l)
      → Fits r lo (v ∷ n ∷ l) (
          merged
            (sub64 n.vm_start (pages (v.vm_end - r.addr) * 4096))
            (record v { vm_end = r.addr }
              ∷ record n {
                vm_start = sub64 n.vm_start (pages (v.vm_end - r.addr) * 4096);
                vm_pgoff = sub64 n.vm_pgoff (pages (v.vm_end - r.addr));
              }
              ∷ l)
            [])
  unfolding vma_pages length soft_at total_pages
  case_4 v n l ag next above to_v at bound (from, v_size, p, q, (_, size, s, e, rest)) =
      let moved : sub64 n.vm_start (pages (r.end - r.addr) * 4096) ≡ r.addr =
        rw (← at) (omega arith) in
      rw (to_v, moved)
        (
          (from, above, p, low_end, (omega arith, omega (arith, at), low_end, e, rest)),
          (λ x. elim (Bool-cases (leb r.addr x && ltb x r.end)) [
            | inl inside ↦ ground (
              arith,
              inside,
              at,
              lowered-requested n r x next at low_end high_end wide top ag (ground arith),
            )
            | inr outside ↦
                ground
                  (arith, outside, at, to_v, lowered-same n r x next at low_end high_end wide top)
          ]),
          omega arith,
          ground (arith, at, to_v),
          inr (
            omega arith,
            inl (refl, omega arith, omega (arith, at, size), ag.same_word, ag.same_file),
          ),
        )
