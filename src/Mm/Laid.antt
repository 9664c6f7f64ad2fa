-- ===== src/Mm/Laid.antt =====
-- How the areas of an address space lie, and what an address stands for: the abstract view of the list
-- of areas, which forgets where they are cut.
use zso_ptrace.Base.{
  ℕ, ◌+◌, ◌-◌, ◌/◌, ◌%◌, ◌^◌, ◌≤◌, ◌<◌, ◌≡◌, refl, inl, inr, ◌&&◌, Option, none, some, List, [],
  ◌∷◌, arith, ltb, leb, if◌then◌else◌, Bool-cases,
}
use zso_ptrace.Mm.Area.{add64, pages, Vma}

-- Page-aligned areas that are not empty, in the order of their addresses, from `lo` on.
abbrev pub IsLaid : ℕ → List Vma → Type 0
IsLaid lo [] = Unit {0}
IsLaid lo (v ∷ l) =
    (lo ≤ v.vm_start)
    × (v.vm_start < v.vm_end)
    × (v.vm_start % 4096 ≡ 0)
    × (v.vm_end % 4096 ≡ 0)
    × IsLaid v.vm_end l

-- What an address is mapped to: the flags and the file of its area, and the page of that file.
pub record Mapping : Type 0 where
  pub flags : ℕ
  pub file : Option ℕ
  pub page : ℕ

abbrev pub mapping_in : Vma → ℕ → Mapping
mapping_in v a = record {
  flags = v.vm_flags;
  file = v.vm_file;
  page = (v.vm_pgoff + (a - v.vm_start) / 4096) % 2 ^ 64;
}

unfoldable pub mapping_at : List Vma → ℕ → Option Mapping
mapping_at [] a = none
mapping_at (v ∷ l) a =
    if leb v.vm_start a && ltb a v.vm_end then some (mapping_in v a) else mapping_at l a

-- The two pieces of an area, and a list whose area round an address is cut there.
abbrev pub low_piece : Vma → ℕ → Vma
low_piece v a = record v { vm_end = a }

abbrev pub high_piece : Vma → ℕ → Vma
high_piece v a = record v { vm_start = a; vm_pgoff = add64 v.vm_pgoff (pages (a - v.vm_start)) }

unfoldable pub cut_at : ℕ → List Vma → List Vma
cut_at a [] = []
cut_at a (v ∷ l) =
    if ltb a v.vm_end
    then (if ltb v.vm_start a then low_piece v a ∷ high_piece v a ∷ l else v ∷ l)
    else v ∷ cut_at a l

pub IsLaid-from : (lo lo' : ℕ) (l : List Vma) → lo' ≤ lo → IsLaid lo l → IsLaid lo' l
IsLaid-from lo lo' [] h laid = tt
IsLaid-from lo lo' (v ∷ l) h (from, size, a, b, rest) = (omega arith, size, a, b, rest)

pub cut_at-IsLaid : (a lo : ℕ) (l : List Vma) → a % 4096 ≡ 0 → IsLaid lo l → IsLaid lo (cut_at a l)
unfolding cut_at
cut_at-IsLaid a lo [] al laid = tt
cut_at-IsLaid a lo (v ∷ l) al (from, size, s, e, rest) = elim (Bool-cases (ltb a v.vm_end)) [
  | inr past ↦ simp past (from, size, s, e, cut_at-IsLaid a v.vm_end l al rest)
  | inl here ↦ elim (Bool-cases (ltb v.vm_start a)) [
    | inr at_start ↦ simp (here, at_start) (from, size, s, e, rest)
    | inl inside ↦
        simp (here, inside) (from, ground arith, s, al, (omega arith, ground arith, al, e, rest))
  ]
]

-- An address below an area is not in it or behind it.
pub mapping_below : (lo a : ℕ) (l : List Vma) → IsLaid lo l → a < lo → mapping_at l a ≡ none
unfolding mapping_at
mapping_below lo a [] laid h = refl
mapping_below lo a (v ∷ l) (from, size, s, e, rest) h =
    ground (arith, mapping_below v.vm_end a l rest)

-- Cutting changes no mapping.
pub mapping_at-cut_at :
    (a lo : ℕ) (l : List Vma) (x : ℕ)
    → a % 4096 ≡ 0
    → IsLaid lo l
    → mapping_at (cut_at a l) x ≡ mapping_at l x
unfolding mapping_at cut_at
mapping_at-cut_at a lo [] x al laid = refl
mapping_at-cut_at a lo (v ∷ l) x al (from, size, s, e, rest) = elim (Bool-cases (ltb a v.vm_end)) [
  | inr past ↦ simp past (ground (arith, mapping_at-cut_at a v.vm_end l x al rest))
  | inl here ↦ elim (Bool-cases (ltb v.vm_start a)) [
    | inr at_start ↦ simp (here, at_start) refl
    | inl inside ↦ simp (here, inside) (ground arith)
  ]
]
