-- ===== src/Mm/Merges.antt =====
-- `vma_merge` of src/mm/mmap.c, for ranges as its callers give them.
use zso_ptrace.Base.{
  ℕ, ◌%◌, ◌^◌, ◌≤◌, ◌<◌, ◌≡◌, ◌≢◌, refl, inl, inr, Bool, true, false, ◌&&◌, Option, none, some,
  List, [], ◌∷◌, ltb, leb, ◌==◌, arith, Bool-cases,
}
use zso_ptrace.Mm.Area.{has, vm_special, Vma, Outside}
use zso_ptrace.Mm.Unmap.{length}
use zso_ptrace.Mm.Laid.{IsLaid}
use zso_ptrace.Mm.Merge.{
  Request, Merged, apart, merged, oops, behind_area, next_area, can_vma_merge_after, import,
  boundary_down, vma_adjust, touches, merge_inside, merge_next, merge_from, merge_list, vma_merge,
}
use zso_ptrace.Mm.Agrees.{
  soft_at, GrewAt, Fits, and_left, and_right, eq_of, behind_grown-Fits, after-Agrees,
  touches-Agrees, import-IsImport,
}
use zso_ptrace.Mm.Counted.{total_pages}
use zso_ptrace.Mm.Lowered.{case_4}
use zso_ptrace.Mm.Fitting.{Front, front-Fits}
use zso_ptrace.Mm.Searched.{EndsBy}
use zso_ptrace.Mm.After.{top_address, next_past, after-Fits}

-- Where a range may lie that has an area before it: behind that area, or at the end of it.
pub data Placed (r : Request) (v : Vma) (l : List Vma) : Type 0 where
  beyond : v.vm_end ≤ r.addr → Front r l → Placed r v l
  within : v.vm_start < r.addr → r.end ≤ v.vm_end → Placed r v l

-- The same for an area that stands in a list.
pub data PlacedAt (r : Request) (at : ℕ) : List Vma → Type 0 where
  here : {v : Vma} {l : List Vma} → v.vm_start ≡ at → Placed r v l → PlacedAt r at (v ∷ l)
  later :
      {v : Vma} {l : List Vma}
      → v.vm_start ≢ at
      → v.vm_end ≤ r.addr
      → PlacedAt r at l
      → PlacedAt r at (v ∷ l)

abbrev pub IsPlaced : Request → Option ℕ → List Vma → Type 0
IsPlaced r none l = Front r l
IsPlaced r (some at) l = PlacedAt r at l

module _ (out : Outside) (singular : Vma → Bool) (r : Request) (low_end : r.addr % 4096 ≡ 0)
    (high_end : r.end % 4096 ≡ 0) (wide : r.addr < r.end) (top : r.end ≤ 2 ^ 64) where
  grew_from : (lo at : ℕ) (m : List Vma) → IsLaid lo m → GrewAt r at m → lo ≤ at
  grew_from lo at [] laid grew = absurd grew
  grew_from lo at (w ∷ m) (from, size, s, e, rest) (inl (same, low, high, word, file)) =
      omega (arith, same)
  grew_from lo at (w ∷ m) (from, size, s, e, rest) (inr (other, grew)) =
      omega (arith, grew_from w.vm_end at m rest grew)

  behind-Fits :
      (lo : ℕ) (v : Vma) (l : List Vma) (m : Merged)
      → IsLaid lo (v ∷ l)
      → v.vm_end ≤ r.addr
      → Fits r v.vm_end l m
      → Fits r lo (v ∷ l) (behind_area v m)
  unfolding soft_at length total_pages
  behind-Fits lo v l apart laid before fits = tt
  behind-Fits lo v l oops laid before fits = fits
  behind-Fits lo v l (merged at m gone) (from, size, s, e, rest) before
        (now, same, count, more, grew) =
      (
        (from, size, s, e, now),
        (λ x. ground (arith, same x)),
        omega (arith, count),
        ground (arith, more),
        inr (omega (arith, grew_from v.vm_end at m now grew), grew),
      )

  inside-Fits :
      (lo : ℕ) (v n : Vma) (l : List Vma)
      → IsLaid lo (v ∷ n ∷ l)
      → EndsBy top_address (n ∷ l)
      → v.vm_start < r.addr
      → r.end ≤ v.vm_end
      → touches out singular r (some n) ≡ true
      → Fits r lo (v ∷ n ∷ l) (merge_inside out singular r v n (n ∷ l))
  unfolding merge_inside vma_adjust boundary_down
  inside-Fits lo v n l laid ends low_v high_v t =
      let (ag, at, next) = touches-Agrees out singular n r t in
      let (_, v_size, _, _, (above, n_size, _, _, rest)) = laid in
      let far : leb n.vm_end r.addr ≡ false = ground arith in
      let apart_1 : ltb n.vm_start r.addr ≡ false = ground arith in
      let shrinks : ltb r.addr v.vm_end ≡ true = ground arith in
      simp (far, apart_1, shrinks)
        (behind_grown-Fits out singular r lo (v ∷ n ∷ l) (record v { vm_end = r.addr }) n _ n.vm_end
          _ l [] (import out singular n v) (import-IsImport out singular n v)
          (case_4 r lo low_end high_end wide top v n l ag next low_v (omega (arith, at)) at
            (ground (arith, ends)) laid))

  next_behind :
      (v : Vma) (o : Option Vma) (l : List Vma)
      → v.vm_end ≤ r.addr
      → merge_next out singular r (some v) o l ≡ behind_area v (merge_next out singular r none o l)
  unfolding merge_next
  next_behind v none l before = refl
  next_behind v (some n) l before = elim (Bool-cases (touches out singular r (some n))) [
    | inr no_touch ↦ simp no_touch refl
    | inl t ↦
        let beyond_end : ltb r.addr v.vm_end ≡ false = ground arith in simp (t, beyond_end) refl
  ]

  next-Fits :
      (lo : ℕ) (v : Vma) (l : List Vma)
      → IsLaid lo (v ∷ l)
      → EndsBy top_address l
      → Placed r v l
      → Fits r lo (v ∷ l) (merge_next out singular r (some v) (next_area r.end l) l)
  unfolding merge_next
  next-Fits lo v l laid ends (beyond before front) =
      let (from, size, s, e, rest) = laid in
      rw (next_behind v (next_area r.end l) l before) (
        behind-Fits lo v l _ laid before
          (front-Fits out singular r low_end high_end wide top v.vm_end l before rest front))
  next-Fits lo v [] laid ends (within low_v high_v) = tt
  next-Fits lo v (n ∷ l) laid ends (within low_v high_v) =
      let past : (n.vm_end == r.end) ≡ false = ground (arith, laid) in
      rw (next_past out singular r low_end high_end wide top n l past)
        (elim (Bool-cases (touches out singular r (some n))) [
          | inr no_touch ↦ simp no_touch tt
          | inl t ↦
              let shrinks : ltb r.addr v.vm_end ≡ true = ground arith in
              simp (t, shrinks) (inside-Fits lo v n l laid ends low_v high_v t)
        ])

  from-Fits :
      (lo : ℕ) (v : Vma) (l : List Vma)
      → IsLaid lo (v ∷ l)
      → EndsBy top_address l
      → Placed r v l
      → Fits r lo (v ∷ l) (merge_from out singular r v l)
  unfolding merge_from
  from-Fits lo v l laid ends place =
      elim (Bool-cases
        (v.vm_end == r.addr && (v.policy == r.policy) && can_vma_merge_after out singular v r)) [
          | inr not_after ↦ simp not_after (next-Fits lo v l laid ends place)
          | inl is_after ↦
              let meets : v.vm_end ≡ r.addr = eq_of _ _ (and_left _ _ (and_left _ _ is_after)) in
              let (ag, off) = after-Agrees out singular v r (and_right _ _ is_after) in
              simp is_after (
                after-Fits out singular r low_end high_end wide top lo v l ag off meets laid ends
                  (elim place [
                    | beyond before front ↦ front
                    | within low_v high_v ↦ absurd (omega arith)
                  ]))
        ]

  at-Fits :
      (lo at : ℕ) (l : List Vma)
      → IsLaid lo l
      → EndsBy top_address l
      → PlacedAt r at l
      → Fits r lo l (merge_list out singular (some at) r l)
  unfolding merge_list
  at-Fits lo at [] laid ends place = elim place [ ]
  at-Fits lo at (v ∷ l) laid (_, ends) (here same place) =
      let found : (v.vm_start == at) ≡ true = ground arith in
      simp found (from-Fits lo v l laid ends place)
  at-Fits lo at (v ∷ l) laid (_, ends) (later other before place) =
      let (from, size, s, e, rest) = laid in
      let not_found : (v.vm_start == at) ≡ false = ground arith in
      simp not_found (behind-Fits lo v l _ laid before (at-Fits v.vm_end at l rest ends place))

  list-Fits :
      (prev : Option ℕ) (l : List Vma)
      → IsLaid 0 l
      → EndsBy top_address l
      → IsPlaced r prev l
      → Fits r 0 l (merge_list out singular prev r l)
  unfolding merge_list
  list-Fits none l laid ends front =
      front-Fits out singular r low_end high_end wide top 0 l (omega arith) laid front
  list-Fits (some at) l laid ends place = at-Fits 0 at l laid ends place

  -- For a range of pages that is free, is the beginning of the area behind prev or the end of prev
  -- itself, vma_merge reads through no null pointer, and either merges nothing or leaves a list in
  -- order that maps the range as requested and every other address as before, VM_SOFTDIRTY aside,
  -- with as many areas less as it frees and the
  -- pages of the range more if it was free; the area that it gives holds the range.
  pub vma_merge-Fits :
      (prev : Option ℕ) (l : List Vma)
      → IsLaid 0 l
      → EndsBy top_address l
      → IsPlaced r prev l
      → Fits r 0 l (vma_merge out singular prev r l)
  unfolding vma_merge
  vma_merge-Fits prev l laid ends place = elim (Bool-cases (has r.vm_flags vm_special)) [
    | inl special ↦ simp special tt
    | inr plain ↦ simp plain (list-Fits prev l laid ends place)
  ]
