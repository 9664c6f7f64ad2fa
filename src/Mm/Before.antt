-- ===== src/Mm/Before.antt =====
-- Where `do_munmap` of src/mm/mmap.c stands in the list: the area before the range, and that the range
-- begins with an area that is to go.
use zso_ptrace.Base.{
  ℕ, ◌≤◌, ◌<◌, ◌≡◌, refl, inl, inr, true, Option, none, some, List, [], ◌∷◌, arith, ltb, Bool-cases,
}
use zso_ptrace.Mm.Area.{Vma}
use zso_ptrace.Mm.Split.{find_vma}
use zso_ptrace.Mm.Laid.{IsLaid, cut_at}
use zso_ptrace.Mm.Removed.{low, high, last_start, IsCut}

-- A cut above an address changes nothing below it.
pub low-cut_at : (s e : ℕ) (l : List Vma) → s < e → low s (cut_at e l) ≡ low s l
unfolding low cut_at
low-cut_at s e [] h = refl
low-cut_at s e (v ∷ l) h = elim (Bool-cases (ltb e v.vm_end)) [
  | inr past ↦ simp past (ground (arith, low-cut_at s e l h))
  | inl here ↦ elim (Bool-cases (ltb v.vm_start e)) [
    | inr at_start ↦ simp (here, at_start) refl
    | inl inside ↦ simp (here, inside) (ground arith)
  ]
]

-- The lower piece of the area that is cut is the last one below.
pub last_start-cut_at :
    (p : Option ℕ) (s : ℕ) (l : List Vma) (v : Vma)
    → find_vma l s ≡ some v
    → v.vm_start < s
    → last_start p (low s (cut_at s l)) ≡ some v.vm_start
unfolding find_vma low cut_at last_start
last_start-cut_at p s [] v e h = ground (arith, e)
last_start-cut_at p s (w ∷ l) v e h = elim (Bool-cases (ltb s w.vm_end)) [
  | inr past ↦ simp (past, past) (last_start-cut_at (some w.vm_start) s l v (simp past at e) h)
  | inl here ↦ ground (arith, e, here)
]

-- Where no area lies across an address, a cut there changes nothing.
pub cut_at_same : (a : ℕ) (l : List Vma) → IsCut a l → cut_at a l ≡ l
unfolding cut_at
cut_at_same a [] cut = refl
cut_at_same a (v ∷ l) (side, cut) = ground (arith, side, cut_at_same a l cut)

pub IsCut-find :
    (a lo : ℕ) (l : List Vma) (v : Vma)
    → IsLaid lo l
    → find_vma l a ≡ some v
    → a ≤ v.vm_start
    → IsCut a l
unfolding find_vma
IsCut-find a lo [] v laid e h = tt
IsCut-find a lo (w ∷ l) v (from, size, s, t, rest) e h = elim (Bool-cases (ltb a w.vm_end)) [
  | inr past ↦ (inl (ground arith), IsCut-find a w.vm_end l v rest (simp past at e) h)
  | inl here ↦ (inr (ground (arith, e, here)), above a w.vm_end l rest (ground arith))
]
  where
    above : (b lo : ℕ) (l : List Vma) → IsLaid lo l → b ≤ lo → IsCut b l
    above b lo [] laid h = tt
    above b lo (v ∷ l) (from, size, s, e, rest) h =
        (inr (omega arith), above b v.vm_end l rest (omega arith))

pub IsCut-none : (a lo : ℕ) (l : List Vma) → IsLaid lo l → find_vma l a ≡ none → IsCut a l
unfolding find_vma
IsCut-none a lo [] laid e = tt
IsCut-none a lo (w ∷ l) (from, size, s, t, rest) e = elim (Bool-cases (ltb a w.vm_end)) [
  | inr past ↦ (inl (ground arith), IsCut-none a w.vm_end l rest (simp past at e))
  | inl here ↦ absurd (ground (arith, e, here))
]

-- The list begins with an area that starts below an address.
abbrev pub StartsBelow : ℕ → List Vma → Type 0
StartsBelow e [] = ⊥
StartsBelow e (v ∷ l) = v.vm_start < e

pub StartsBelow-find :
    (s e : ℕ) (l : List Vma) (v : Vma)
    → find_vma l s ≡ some v
    → v.vm_start < e
    → StartsBelow e (high s l)
unfolding find_vma high
StartsBelow-find s e [] v f h = ground (arith, f)
StartsBelow-find s e (w ∷ l) v f h = elim (Bool-cases (ltb s w.vm_end)) [
  | inr past ↦ simp past (StartsBelow-find s e l v (simp past at f) h)
  | inl here ↦ simp here (ground (arith, f, here))
]

pub StartsBelow-cut_at :
    (s a e : ℕ) (l : List Vma)
    → s ≤ a
    → a ≤ e
    → s < e
    → StartsBelow e (high s l)
    → StartsBelow e (high s (cut_at a l))
unfolding high cut_at
StartsBelow-cut_at s a e [] sa ae se h = h
StartsBelow-cut_at s a e (v ∷ l) sa ae se h = elim (Bool-cases (ltb a v.vm_end)) [
  | inr past ↦ simp past (elim (Bool-cases (ltb s v.vm_end)) [
    | inr below ↦ simp below (StartsBelow-cut_at s a e l sa ae se (simp below at h))
    | inl above ↦ simp above (simp above at h)
  ])
  | inl here ↦ elim (Bool-cases (ltb v.vm_start a)) [
    | inr at_start ↦ simp (here, at_start) h
    | inl inside ↦
        simp (here, inside)
          (elim (Bool-cases (ltb s a)) [
            | inl strict ↦ simp strict (ground arith)
            | inr same ↦ simp (same, still s a v here sa) (ground arith)
          ])
  ]
]
  where
    still : (s a : ℕ) (v : Vma) → ltb a v.vm_end ≡ true → s ≤ a → ltb s v.vm_end ≡ true
    still s a v here le = ground arith
