-- ===== src/Mm/Continued.antt =====
-- `vma_merge` of src/mm/mmap.c where the range continues `prev`.
use zso_ptrace.Base.{
  ℕ, ◌%◌, ◌^◌, ◌≤◌, ◌<◌, ◌≡◌, Bool, true, false, some, List, [], ◌∷◌, ltb, leb, ◌==◌, arith,
}
use zso_ptrace.Mm.Area.{add64, Vma, Outside, vma_pages}
use zso_ptrace.Mm.Laid.{IsLaid}
use zso_ptrace.Mm.Merge.{Request, import, grown, adjust_two, boundary_up, vma_adjust, touches}
use zso_ptrace.Mm.Agrees.{Fits, Agrees, touches-Agrees, import-IsImport, grown-Fits}
use zso_ptrace.Mm.Grown.{case_1, case_2, case_5, case_6, case_7}

module _ (out : Outside) (singular : Vma → Bool) (r : Request) (low_end : r.addr % 4096 ≡ 0)
    (high_end : r.end % 4096 ≡ 0) (wide : r.addr < r.end) (top : r.end ≤ 2 ^ 64) (lo : ℕ) (v : Vma)
    (ag : Agrees v r) (off : add64 v.vm_pgoff (vma_pages v) ≡ r.pgoff)
    (meets : v.vm_end ≡ r.addr) where
  -- The range ends with the first area behind `prev`.
  pub after_whole :
      (n : Vma) (l : List Vma)
      → n.vm_start ≡ r.addr
      → n.vm_end ≡ r.end
      → IsLaid lo (v ∷ n ∷ l)
      → Fits r lo
          (v ∷ n ∷ l)
          (vma_adjust out singular v.vm_start v.vm_start r.end v.vm_pgoff v (n ∷ l))
  unfolding vma_adjust
  after_whole n l from_n to_n laid =
      let fits : leb n.vm_end r.end ≡ true = ground arith in
      let other : (n.vm_start == v.vm_start) ≡ false = ground (arith, laid) in
      let exact : ltb n.vm_end r.end ≡ false = ground arith in
      simp (fits, other, exact)
        (grown-Fits out singular r lo (v ∷ n ∷ l) v v.vm_start n.vm_end v.vm_pgoff l (n ∷ [])
          (import out singular v n) (import-IsImport out singular v n)
          (case_7 r lo low_end high_end wide top v n l ag off meets from_n to_n laid))

  pub after_two :
      (n y : Vma) (l : List Vma)
      → n.vm_start ≡ r.addr
      → n.vm_end ≡ r.end
      → IsLaid lo (v ∷ n ∷ y ∷ l)
      → touches out singular r (some y) ≡ true
      → Fits r lo
          (v ∷ n ∷ y ∷ l)
          (vma_adjust out singular v.vm_start v.vm_start y.vm_end v.vm_pgoff v (n ∷ y ∷ l))
  unfolding vma_adjust adjust_two
  after_two n y l from_n to_n laid t =
      let (ah, at, next) = touches-Agrees out singular y r t in
      let (_, v_size, _, _, (_, n_size, _, _, (_, y_size, _, _, rest))) = laid in
      let fits : leb n.vm_end y.vm_end ≡ true = ground arith in
      let other : (n.vm_start == v.vm_start) ≡ false = ground arith in
      let more : ltb n.vm_end y.vm_end ≡ true = ground arith in
      simp (fits, other, more)
        (grown-Fits out singular r lo (v ∷ n ∷ y ∷ l) v v.vm_start y.vm_end v.vm_pgoff l
          (n ∷ y ∷ []) (import out singular v _) (import-IsImport out singular v _)
          (case_6 r lo low_end high_end wide top v n y l ag ah off next meets from_n to_n at laid))

  pub after_part :
      (n : Vma) (l : List Vma)
      → n.vm_start ≡ r.addr
      → r.end < n.vm_end
      → n.vm_end < 2 ^ 64
      → IsLaid lo (v ∷ n ∷ l)
      → Fits r lo
          (v ∷ n ∷ l)
          (vma_adjust out singular v.vm_start v.vm_start r.end v.vm_pgoff v (n ∷ l))
  unfolding vma_adjust boundary_up
  after_part n l from_n to_n bound laid =
      let beyond : leb n.vm_end r.end ≡ false = ground arith in
      let inside : ltb n.vm_start r.end ≡ true = ground arith in
      simp (beyond, inside)
        (grown-Fits out singular r lo (v ∷ n ∷ l) v v.vm_start r.end v.vm_pgoff _ []
          (import out singular v n) (import-IsImport out singular v n)
          (case_5 r lo low_end high_end wide top v n l ag off meets from_n to_n bound laid))

  pub after_free :
      (n : Vma) (l : List Vma)
      → r.end ≤ n.vm_start
      → IsLaid lo (v ∷ n ∷ l)
      → Fits r lo
          (v ∷ n ∷ l)
          (vma_adjust out singular v.vm_start v.vm_start r.end v.vm_pgoff v (n ∷ l))
  unfolding vma_adjust grown
  after_free n l above laid =
      let (from, v_size, s, e, (_, n_size, t, f, rest)) = laid in
      let far : leb n.vm_end r.end ≡ false = ground arith in
      let apart_1 : ltb n.vm_start r.end ≡ false = ground arith in
      let larger : ltb r.end v.vm_end ≡ false = ground arith in
      simp (far, apart_1, larger)
        (case_2 r lo low_end high_end wide top v (n ∷ l) ag off meets laid
          (above, n_size, t, f, rest))

  pub after_both :
      (n : Vma) (l : List Vma)
      → r.end ≤ n.vm_start
      → IsLaid lo (v ∷ n ∷ l)
      → touches out singular r (some n) ≡ true
      → Fits r lo
          (v ∷ n ∷ l)
          (vma_adjust out singular v.vm_start v.vm_start n.vm_end v.vm_pgoff v (n ∷ l))
  unfolding vma_adjust
  after_both n l above laid t =
      let (ah, at, next) = touches-Agrees out singular n r t in
      let (_, v_size, _, _, (_, n_size, _, _, rest)) = laid in
      let fits : leb n.vm_end n.vm_end ≡ true = ground arith in
      let other : (n.vm_start == v.vm_start) ≡ false = ground arith in
      let exact : ltb n.vm_end n.vm_end ≡ false = ground arith in
      simp (fits, other, exact)
        (grown-Fits out singular r lo (v ∷ n ∷ l) v v.vm_start n.vm_end v.vm_pgoff l (n ∷ [])
          (import out singular v n) (import-IsImport out singular v n)
          (case_1 r lo low_end high_end wide top v n l ag ah off next meets at laid))

  pub after_last :
      IsLaid lo (v ∷ [])
      → Fits r lo (v ∷ []) (vma_adjust out singular v.vm_start v.vm_start r.end v.vm_pgoff v [])
  unfolding vma_adjust grown
  after_last laid = case_2 r lo low_end high_end wide top v [] ag off meets laid tt
