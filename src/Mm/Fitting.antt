-- ===== src/Mm/Fitting.antt =====
-- `vma_merge` of src/mm/mmap.c does as it is told: the choice between its cases.
use zso_ptrace.Base.{
  ℕ, ◌%◌, ◌^◌, ◌≤◌, ◌<◌, ◌≡◌, inl, inr, Bool, true, false, none, some, List, [], ◌∷◌, ltb, leb,
  ◌==◌, arith, Bool-cases,
}
use zso_ptrace.Mm.Area.{Vma, Outside}
use zso_ptrace.Mm.Laid.{IsLaid}
use zso_ptrace.Mm.Merge.{
  Request, next_area, import, grown, vma_adjust, touches, merge_before, merge_next,
}
use zso_ptrace.Mm.Agrees.{Fits, touches-Agrees, import-IsImport, grown-Fits}
use zso_ptrace.Mm.Lowered.{case_3, case_8}

-- Where a range may lie at the head of a list: before it, or over the beginning of its first area.
abbrev pub StartsFrom : ℕ → List Vma → Type 0
StartsFrom e [] = Unit {0}
StartsFrom e (v ∷ l) = e ≤ v.vm_start

pub data Front (r : Request) : List Vma → Type 0 where
  free : {l : List Vma} → StartsFrom r.end l → Front r l
  over : {a : Vma} {l : List Vma} → a.vm_start ≡ r.addr → r.end ≤ a.vm_end → Front r (a ∷ l)

module _ (out : Outside) (singular : Vma → Bool) (r : Request) (low_end : r.addr % 4096 ≡ 0)
    (high_end : r.end % 4096 ≡ 0) (wide : r.addr < r.end) (top : r.end ≤ 2 ^ 64) where
  pub front_here :
      (lo : ℕ) (a : Vma) (l : List Vma)
      → lo ≤ r.addr
      → IsLaid lo (a ∷ l)
      → touches out singular r (some a) ≡ true
      → Fits r lo (a ∷ l) (merge_before out singular r a (a ∷ l))
  unfolding merge_before vma_adjust grown
  front_here lo a [] from laid t =
      let (ag, at, next) = touches-Agrees out singular a r t in
      case_3 r lo low_end high_end wide top a [] ag next at from laid
  front_here lo a (n ∷ l) from laid t =
      let (ag, at, next) = touches-Agrees out singular a r t in
      let (_, size, _, _, (above, n_size, _, _, rest)) = laid in
      let low_1 : leb n.vm_end a.vm_end ≡ false = ground arith in
      let low_2 : ltb n.vm_start a.vm_end ≡ false = ground arith in
      let low_3 : ltb a.vm_end a.vm_end ≡ false = ground arith in
      simp (low_1, low_2, low_3)
        (case_3 r lo low_end high_end wide top a (n ∷ l) ag next at from laid)

  front_next :
      (lo : ℕ) (a n : Vma) (l : List Vma)
      → a.vm_start ≡ r.addr
      → a.vm_end ≡ r.end
      → IsLaid lo (a ∷ n ∷ l)
      → touches out singular r (some n) ≡ true
      → Fits r lo (a ∷ n ∷ l) (merge_before out singular r n (a ∷ n ∷ l))
  unfolding merge_before vma_adjust
  front_next lo a n l from_a to_a laid t =
      let (ag, at, next) = touches-Agrees out singular n r t in
      let same_end : leb n.vm_end n.vm_end ≡ true = ground arith in
      let same_start : (n.vm_start == n.vm_start) ≡ true = ground arith in
      simp (same_end, same_start)
        (grown-Fits out singular r lo (a ∷ n ∷ l) n r.addr n.vm_end _ l (a ∷ [])
          (import out singular n a) (import-IsImport out singular n a)
          (case_8 r lo low_end high_end wide top a n l ag next from_a to_a at laid))

  -- Without a `prev`.
  pub front-Fits :
      (lo : ℕ) (l : List Vma)
      → lo ≤ r.addr
      → IsLaid lo l
      → Front r l
      → Fits r lo l (merge_next out singular r none (next_area r.end l) l)
  unfolding merge_next
  front-Fits lo [] from laid front = tt
  front-Fits lo (a ∷ []) from laid front = elim (Bool-cases (a.vm_end == r.end)) [
    | inl ends ↦ simp ends tt
    | inr past ↦ simp past (elim (Bool-cases (touches out singular r (some a))) [
      | inr no_touch ↦ simp no_touch tt
      | inl t ↦ simp t (front_here lo a [] from laid t)
    ])
  ]
  front-Fits lo (a ∷ n ∷ l) from laid front = elim (Bool-cases (a.vm_end == r.end)) [
    | inl ends ↦ simp ends (elim (Bool-cases (touches out singular r (some n))) [
      | inr no_touch ↦ simp no_touch tt
      | inl t ↦ simp t (
          front_next lo a n l
            (elim front [ free above ↦ absurd (ground arith) | over at below ↦ at ]) (ground arith)
            laid t)
    ])
    | inr past ↦ simp past (elim (Bool-cases (touches out singular r (some a))) [
      | inr no_touch ↦ simp no_touch tt
      | inl t ↦ simp t (front_here lo a (n ∷ l) from laid t)
    ])
  ]
