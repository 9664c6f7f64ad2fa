-- ===== src/Mm/Cut.antt =====
-- `__split_vma` of src/mm/mmap.c cuts the list of areas, and finding and cutting agree.
use zso_ptrace.Base.{
  ℕ, ◌≤◌, ◌<◌, ◌≡◌, refl, inl, inr, Bool, true, false, some, List, [], ◌∷◌, arith, ltb, ◌==◌,
  Bool-cases, ==_refl,
}
use zso_ptrace.Mm.Area.{Vma}
use zso_ptrace.Mm.Split.{find_vma, adjust, insert_vma, new_piece, split_list}
use zso_ptrace.Mm.Laid.{IsLaid, cut_at, low_piece, high_piece}

pub find_vma_ends : (l : List Vma) (a : ℕ) (v : Vma) → find_vma l a ≡ some v → a < v.vm_end
unfolding find_vma
find_vma_ends [] a v e = ground (arith, e)
find_vma_ends (w ∷ l) a v e = ground (arith, e, find_vma_ends l a v)

pub find_vma_from :
    (lo : ℕ) (l : List Vma) (a : ℕ) (v : Vma)
    → IsLaid lo l
    → find_vma l a ≡ some v
    → lo ≤ v.vm_start
unfolding find_vma
find_vma_from lo [] a v laid e = ground (arith, e)
find_vma_from lo (w ∷ l) a v (from, size, s, t, rest) e =
    ground (arith, e, find_vma_from w.vm_end l a v rest)

insert_front :
    (new : Vma) (l : List Vma)
    → new.vm_start < new.vm_end
    → IsLaid new.vm_end l
    → insert_vma new l ≡ some (new ∷ l)
unfolding insert_vma
insert_front new [] size laid = refl
insert_front new (w ∷ l) size (from, w_size, s, t, rest) = ground arith

insert_later :
    (new w : Vma) (l m : List Vma)
    → w.vm_end ≤ new.vm_start
    → insert_vma new l ≡ some m
    → insert_vma new (w ∷ l) ≡ some (w ∷ m)
unfolding insert_vma
insert_later new w l m past e = ground (arith, e)

some_eq : (v w : Vma) → some w ≡ some v → w ≡ v
some_eq v w e = cc

module _ (a : ℕ) (v : Vma) (inside : v.vm_start < a) where
  split_here :
      (below : Bool) (l : List Vma)
      → a < v.vm_end
      → IsLaid v.vm_end l
      → split_list v a below (v ∷ l) ≡ some (low_piece v a ∷ high_piece v a ∷ l)
  unfolding split_list adjust insert_vma
  split_here true l fits laid = ground arith
  split_here false l fits laid = simp (==_refl v.vm_start) (
      insert_later (high_piece v a) (low_piece v a) l (high_piece v a ∷ l) (ground arith)
        (insert_front (high_piece v a) l fits laid))

  piece_start : (below : Bool) (lo : ℕ) → lo ≤ v.vm_start → lo ≤ (new_piece v a below).vm_start
  unfolding new_piece
  piece_start true lo h = h
  piece_start false lo h = omega arith

  split_later :
      (below : Bool) (w : Vma) (l m : List Vma)
      → w.vm_start < w.vm_end
      → w.vm_end ≤ v.vm_start
      → split_list v a below l ≡ some m
      → split_list v a below (w ∷ l) ≡ some (w ∷ m)
  unfolding split_list adjust
  split_later true w l m size past e =
      simp (other) (insert_later (new_piece v a true) w _ m (piece_start true w.vm_end past) e)
    where
      other : (w.vm_start == v.vm_start) ≡ false
      other = ground arith
  split_later false w l m size past e =
      simp (other) (insert_later (new_piece v a false) w _ m (piece_start false w.vm_end past) e)
    where
      other : (w.vm_start == v.vm_start) ≡ false
      other = ground arith

  -- The two writes of `__split_vma` at an address inside the area that `find_vma` gives for it cut
  -- the list there, and the insertion does not meet its BUG.
  pub split_list-cut_at :
      (below : Bool) (lo : ℕ) (l : List Vma)
      → IsLaid lo l
      → find_vma l a ≡ some v
      → split_list v a below l ≡ some (cut_at a l)
  unfolding find_vma cut_at
  split_list-cut_at below lo [] laid e = ground (arith, e)
  split_list-cut_at below lo (w ∷ l) (from, size, s, t, rest) e =
      elim (Bool-cases (ltb a w.vm_end)) [
        | inl here ↦
            let same : w ≡ v = some_eq v w (simp here at e) in
            rw same (
              simp (outer, inner)
                (split_here below l (ground (arith, here, same)) (rw (← same) rest)))
        | inr past ↦
            let e' : find_vma l a ≡ some v = simp past at e in
            simp past (
              split_later below w l (cut_at a l) size (find_vma_from w.vm_end l a v rest e')
                (split_list-cut_at below w.vm_end l rest e'))
      ]
    where
      inner : ltb v.vm_start a ≡ true
      inner = ground arith

      outer : ltb a v.vm_end ≡ true
      outer = ground (arith, find_vma_ends (w ∷ l) a v e)
