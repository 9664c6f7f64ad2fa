-- ===== src/Mm/After.antt =====
-- `vma_merge` of src/mm/mmap.c where the range continues `prev`: which of the cases it is.
use zso_ptrace.Base.{
  ℕ, ◌-◌, ◌%◌, ◌^◌, ◌≤◌, ◌<◌, ◌≡◌, refl, inl, inr, Bool, true, false, none, some, List, [], ◌∷◌,
  ◌==◌, arith, Bool-cases,
}
use zso_ptrace.Mm.Area.{add64, Vma, Outside, vma_pages}
use zso_ptrace.Mm.Laid.{IsLaid}
use zso_ptrace.Mm.Merge.{Request, next_area, touches, touches_both, merge_after}
use zso_ptrace.Mm.Agrees.{Fits, Agrees, and_left, touches-Agrees}
use zso_ptrace.Mm.Fitting.{Front, free, over}
use zso_ptrace.Mm.Searched.{EndsBy}
use zso_ptrace.Mm.Continued.{after_whole, after_two, after_part, after_free, after_both, after_last}

abbrev pub top_address : ℕ
top_address = 2 ^ 64 - 1

module _ (out : Outside) (singular : Vma → Bool) (r : Request) (low_end : r.addr % 4096 ≡ 0)
    (high_end : r.end % 4096 ≡ 0) (wide : r.addr < r.end) (top : r.end ≤ 2 ^ 64) where
  no_both : (v n : Vma) → n.vm_start < r.end → touches_both out singular r v (some n) ≡ false
  unfolding touches_both
  no_both v n inside = elim (Bool-cases (touches_both out singular r v (some n))) [
    | inr e ↦ e
    | inl e ↦
        let (ag, at, next) = touches-Agrees out singular n r (and_left _ _ e) in
        absurd (omega (arith, at, inside))
  ]

  both_none : (v : Vma) → touches_both out singular r v none ≡ false
  unfolding touches_both
  both_none v = refl

  both-touches :
      (v n : Vma)
      → touches_both out singular r v (some n) ≡ true
      → touches out singular r (some n) ≡ true
  unfolding touches_both
  both-touches v n e = and_left _ _ e

  pub next_past :
      (n : Vma) (l : List Vma) → (n.vm_end == r.end) ≡ false → next_area r.end (n ∷ l) ≡ some n
  next_past n [] past = rw past refl
  next_past n (y ∷ l) past = rw past refl

  pub after-Fits :
      (lo : ℕ) (v : Vma) (l : List Vma)
      → Agrees v r
      → add64 v.vm_pgoff (vma_pages v) ≡ r.pgoff
      → v.vm_end ≡ r.addr
      → IsLaid lo (v ∷ l)
      → EndsBy top_address l
      → Front r l
      → Fits r lo (v ∷ l) (merge_after out singular r v l)
  unfolding merge_after
  after-Fits lo v [] ag off meets laid ends front =
      rw (both_none v) (after_last out singular r low_end high_end wide top lo v ag off meets laid)
  after-Fits lo v (n ∷ l) ag off meets laid ends (free above) =
      let past : (n.vm_end == r.end) ≡ false = ground (arith, laid) in
      rw (next_past n l past) (elim (Bool-cases (touches_both out singular r v (some n))) [
        | inl both ↦ rw both (
            after_both out singular r low_end high_end wide top lo v ag off meets n l above laid
              (both-touches v n both))
        | inr single ↦
            rw single
              (after_free out singular r low_end high_end wide top lo v ag off meets n l above laid)
      ])
  after-Fits lo v (n ∷ []) ag off meets laid ends (over from_n below) =
      elim (Bool-cases (n.vm_end == r.end)) [
        | inl exact ↦
            rw (exact, both_none v)
              (after_whole out singular r low_end high_end wide top lo v ag off meets n [] from_n
                (ground arith) laid)
        | inr past ↦
            rw (past, no_both v n (omega (arith, from_n)))
              (after_part out singular r low_end high_end wide top lo v ag off meets n [] from_n
                (ground arith) (ground (arith, ends)) laid)
      ]
  after-Fits lo v (n ∷ y ∷ l) ag off meets laid ends (over from_n below) =
      elim (Bool-cases (n.vm_end == r.end)) [
        | inl exact ↦ rw exact (elim (Bool-cases (touches_both out singular r v (some y))) [
          | inl both ↦ rw both (
              after_two out singular r low_end high_end wide top lo v ag off meets n y l from_n
                (ground arith) laid (both-touches v y both))
          | inr single ↦ rw single (
              after_whole out singular r low_end high_end wide top lo v ag off meets n (y ∷ l)
                from_n (ground arith) laid)
        ])
        | inr past ↦
            rw (past, no_both v n (omega (arith, from_n)))
              (after_part out singular r low_end high_end wide top lo v ag off meets n (y ∷ l)
                from_n (ground arith) (ground (arith, ends)) laid)
      ]
