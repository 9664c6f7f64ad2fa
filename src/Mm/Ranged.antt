-- ===== src/Mm/Ranged.antt =====
-- The two splits of `mprotect_fixup` in src/mm/mprotect.c make an area of the range.
use zso_ptrace.Base.{
  ℕ, ◌%◌, ◌≤◌, ◌<◌, ◌≡◌, refl, sym, ap, subst, ◌∙◌, inl, inr, Bool, true, false, Option, none, some,
  List, [], ◌∷◌, ltb, leb, ◌==◌, arith, Bool-cases,
}
use zso_ptrace.Base.Run.{Ends, ends, then-Ends, weaken}
use zso_ptrace.Errno.{Errno}
use zso_ptrace.Mm.Area.{Vma, Mm, MmState, Outside}
use zso_ptrace.Mm.Split.{find_vma, split_vma}
use zso_ptrace.Mm.Laid.{IsLaid, cut_at, high_piece}
use zso_ptrace.Mm.Counted.{IsWell}
use zso_ptrace.Mm.Before.{cut_at_same, IsCut-find}
use zso_ptrace.Mm.Removed.{IsCut, IsCut-above}
use zso_ptrace.Mm.Munmap.{Step, refused, cut, full, split-Step}
use zso_ptrace.Mm.Agrees.{soft_at}
use zso_ptrace.Mm.Protect.{split_above, after_below, split_range}

pub soft_at-cut_at :
    (a lo : ℕ) (l : List Vma) (x : ℕ)
    → a % 4096 ≡ 0
    → IsLaid lo l
    → soft_at (cut_at a l) x ≡ soft_at l x
unfolding soft_at cut_at
soft_at-cut_at a lo [] x al laid = refl
soft_at-cut_at a lo (v ∷ l) x al (from, size, s, e, rest) = elim (Bool-cases (ltb a v.vm_end)) [
  | inr past ↦ simp past (ground (arith, soft_at-cut_at a v.vm_end l x al rest))
  | inl here ↦ elim (Bool-cases (ltb v.vm_start a)) [
    | inr at_start ↦ simp (here, at_start) refl
    | inl inside ↦ simp (here, inside) (ground arith)
  ]
]

find_vma-later :
    (l : List Vma) (s b : ℕ) (v : Vma)
    → find_vma l s ≡ some v
    → s ≤ b
    → b < v.vm_end
    → find_vma l b ≡ some v
unfolding find_vma
find_vma-later [] s b v found le lt = ground (arith, found)
find_vma-later (w ∷ l) s b v found le lt = elim (Bool-cases (ltb s w.vm_end)) [
  | inr past ↦ ground (arith, past, find_vma-later l s b v (simp past at found) le lt)
  | inl here ↦ ground (arith, here, found)
]

some_eq : (v w : Vma) → some w ≡ some v → w ≡ v
some_eq v w e = cc

find_vma-high_piece :
    (l : List Vma) (s b : ℕ) (v : Vma)
    → find_vma l s ≡ some v
    → v.vm_start < s
    → s ≤ b
    → b < v.vm_end
    → find_vma (cut_at s l) b ≡ some (high_piece v s)
unfolding find_vma cut_at
find_vma-high_piece [] s b v found low_v le lt = ground (arith, found)
find_vma-high_piece (w ∷ l) s b v found low_v le lt = elim (Bool-cases (ltb s w.vm_end)) [
  | inr past ↦
      let beyond : ltb b w.vm_end ≡ false = ground arith in
      simp past (simp beyond (find_vma-high_piece l s b v (simp past at found) low_v le lt))
  | inl here ↦
      let same : w ≡ v = some_eq v w (simp here at found) in
      let inside : ltb w.vm_start s ≡ true = ground (arith, same) in
      let above : ltb b s ≡ false = ground arith in
      let within : ltb b w.vm_end ≡ true = ground (arith, same) in
      simp (here, inside) (simp above (simp within (ap (λ k. some (high_piece k s)) same)))
]

IsCut-end :
    (lo s : ℕ) (l : List Vma) (v : Vma) → IsLaid lo l → find_vma l s ≡ some v → IsCut v.vm_end l
unfolding find_vma
IsCut-end lo s [] v laid found = tt
IsCut-end lo s (w ∷ l) v (from, size, a, b, rest) found = elim (Bool-cases (ltb s w.vm_end)) [
  | inr past ↦
      let cut : IsCut v.vm_end l = IsCut-end w.vm_end s l v rest (simp past at found) in
      let above : s < v.vm_end = find_above l (simp past at found) in
      (inl (ground (arith, past)), cut)
  | inl here ↦
      let same : w ≡ v = some_eq v w (simp here at found) in
      (inl (ground (arith, same)), IsCut-above v.vm_end w.vm_end l rest (ground (arith, same)))
]
  where
    find_above : (l : List Vma) → find_vma l s ≡ some v → s < v.vm_end
    find_above [] found = ground (arith, found)
    find_above (w ∷ l) found = elim (Bool-cases (ltb s w.vm_end)) [
      | inr past ↦ find_above l (simp past at found)
      | inl here ↦ ground (arith, here, found)
    ]

-- How the two splits end.
pub data Split (start end : ℕ) (w : Mm) : Option Errno → Mm → Type 0 where
  not_split :
      {e : Errno} {n : Mm}
      → IsWell n
      → ((x : ℕ) → soft_at n.mmap x ≡ soft_at w.mmap x)
      → Split start end w (some e) n
  both_split :
      {n : Mm} → IsWell n → n.mmap ≡ cut_at end (cut_at start w.mmap) → Split start end w none n

module _ (out : Outside) where
  split_vma-Step :
      (a : ℕ) (v : Vma) (below : Bool) (s : MmState)
      → a % 4096 ≡ 0
      → IsWell s.mm
      → find_vma s.mm.mmap a ≡ some v
      → v.vm_start < a
      → Ends (λ r u. Step out s.mm.map_count a s.mm r u.mm) (split_vma out v a below s)
  unfolding split_vma
  split_vma-Step a v below s al w found inside =
      elim (Bool-cases (leb out.max_map_count s.mm.map_count)) [
        | inl limit ↦ simp limit (ends (refused (full limit) refl))
        | inr room ↦ simp room (split-Step out s.mm.map_count a al v below s w found inside)
      ]

  split_above-Step :
      (v : Vma) (b end : ℕ) (s : MmState)
      → end % 4096 ≡ 0
      → IsWell s.mm
      → find_vma s.mm.mmap b ≡ some v
      → v.vm_start ≤ b
      → b < end
      → end ≤ v.vm_end
      → Ends (λ r u. Step out s.mm.map_count end s.mm r u.mm) (split_above out v end s)
  unfolding split_above
  split_above-Step v b end s al w found low lt high = elim (Bool-cases (end == v.vm_end)) [
    | inl whole ↦
        let at_end : end ≡ v.vm_end = ground arith in
        let is_cut : IsCut end s.mm.mmap =
          subst (λ e. IsCut e s.mm.mmap) (sym at_end) (IsCut-end 0 b s.mm.mmap v w.laid found) in
        simp whole (ends (cut w (sym (cut_at_same end s.mm.mmap is_cut))))
    | inr short ↦ simp short (
        split_vma-Step end v false s al w
          (find_vma-later s.mm.mmap b end v found (omega arith) (ground arith)) (omega arith))
  ]

  after_none-Split :
      (v : Vma) (start end : ℕ) (m : Mm) (s : MmState)
      → start % 4096 ≡ 0
      → end % 4096 ≡ 0
      → IsWell m
      → IsWell s.mm
      → s.mm.mmap ≡ cut_at start m.mmap
      → find_vma s.mm.mmap start ≡ some v
      → v.vm_start ≤ start
      → start < end
      → end ≤ v.vm_end
      → Ends (λ r u. Split start end m r u.mm) (split_above out v end s)
  after_none-Split v start end m s al al_end w now same found low lt high =
      weaken (λ r u p. last r u p) (split_above-Step v start end s al_end now found low lt high)
    where
      last :
          (r : Option Errno) (u : MmState)
          → Step out s.mm.map_count end s.mm r u.mm
          → Split start end m r u.mm
      last r u (refused why at) = not_split (subst IsWell (sym at) now) (λ x.
          ap (λ k. soft_at k.mmap x) at
          ∙ ap (λ l. soft_at l x) same
          ∙ soft_at-cut_at start 0 m.mmap x al w.laid)
      last r u (cut is at) = both_split is (at ∙ ap (cut_at end) same)

  pub split_range-Split :
      (v : Vma) (start end : ℕ) (s : MmState)
      → start % 4096 ≡ 0
      → end % 4096 ≡ 0
      → IsWell s.mm
      → find_vma s.mm.mmap start ≡ some v
      → v.vm_start ≤ start
      → start < end
      → end ≤ v.vm_end
      → Ends (λ r u. Split start end s.mm r u.mm) (split_range out v start end s)
  unfolding split_range after_below
  split_range-Split v start end s al al_end w found low lt high =
      elim (Bool-cases (start == v.vm_start)) [
        | inl first ↦
            let is_cut : IsCut start s.mm.mmap =
              IsCut-find start 0 s.mm.mmap v w.laid found (ground arith) in
            simp first (
              after_none-Split v start end s.mm s al al_end w w
                (sym (cut_at_same start s.mm.mmap is_cut)) found low lt high)
        | inr inside ↦ simp inside (
            then-Ends (split_vma-Step start v true s al w found (ground arith))
              (λ r u p. second r u p inside))
      ]
    where
      second :
          (r : Option Errno) (u : MmState)
          → Step out s.mm.map_count start s.mm r u.mm
          → (start == v.vm_start) ≡ false
          → Ends (λ r u. Split start end s.mm r u.mm) (after_below out v start end r u)
      second r u (refused why at) inside =
          ends (not_split (subst IsWell (sym at) w) (λ x. ap (λ k. soft_at k.mmap x) at))
      second r u (cut is at) inside = simp inside (
          after_none-Split (high_piece v start) start end s.mm u al al_end w is at
            (ap (λ l. find_vma l start) at
              ∙ find_vma-high_piece s.mm.mmap start start v found (ground arith) (omega arith)
                  (omega arith))
            (omega arith) lt high)
