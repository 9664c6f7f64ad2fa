-- ===== src/Mm/Removed.antt =====
-- The lists of `do_munmap` in src/mm/mmap.c: what stands before and in and behind a range.
use zso_ptrace.Base.{
  ℕ, ◌≤◌, ◌≡◌, refl, subst, ap, inl, inr, ◌⊎◌, false, ◌&&◌, Option, none, some, List, [], ◌∷◌, ◌++◌,
  arith, ltb, leb, ◌==◌, if◌then◌else◌, Bool-cases, ==_refl,
}
use zso_ptrace.Mm.Area.{Vma}
use zso_ptrace.Mm.Split.{find_prev}
use zso_ptrace.Mm.Unmap.{behind, up_to, rest_from}
use zso_ptrace.Mm.Laid.{IsLaid, IsLaid-from, Mapping, mapping_at, mapping_below, cut_at}

-- The areas that end by an address, and those from the first that ends above it on.
unfoldable pub low : ℕ → List Vma → List Vma
low s [] = []
low s (v ∷ l) = if ltb s v.vm_end then [] else v ∷ low s l

unfoldable pub high : ℕ → List Vma → List Vma
high s [] = []
high s (v ∷ l) = if ltb s v.vm_end then v ∷ l else high s l

-- The start of the last area of a list, `p` if it is empty.
unfoldable pub last_start : Option ℕ → List Vma → Option ℕ
last_start p [] = p
last_start p (v ∷ l) = last_start (some v.vm_start) l

pub find_prev-low : (p : Option ℕ) (l : List Vma) (s : ℕ) → find_prev p l s ≡ last_start p (low s l)
unfolding find_prev low last_start
find_prev-low p [] s = refl
find_prev-low p (v ∷ l) s = ground (arith, find_prev-low (some v.vm_start) l s)

last_in :
    (lo : ℕ) (l : List Vma) (s p : ℕ)
    → IsLaid lo l
    → (last_start (some p) (low s l) ≡ some p) × (low s l ≡ [])
      ⊎ ((k : ℕ) × (last_start (some p) (low s l) ≡ some k)
          × (lo ≤ k)
          × (last_start none (low s l) ≡ some k))
unfolding last_start low
last_in lo [] s p laid = inl (refl, refl)
last_in lo (v ∷ l) s p (from, size, a, b, rest) = elim (Bool-cases (ltb s v.vm_end)) [
  | inl stop ↦ simp stop (inl (refl, refl))
  | inr go ↦ simp go (
      inr (elim (last_in v.vm_end l s v.vm_start rest) [
        | inl (e, none_left) ↦ (v.vm_start, e, from, e)
        | inr (k, e, above, e') ↦ (k, e, omega arith, e)
      ]))
]

module _ (s : ℕ) where
  -- The area named by the last start of the low part is where `prev` points.
  pub behind-high :
      (lo : ℕ) (l : List Vma) → IsLaid lo l → behind (last_start none (low s l)) l ≡ high s l
  unfolding behind last_start low high
  behind-high lo [] laid = refl
  behind-high lo (v ∷ l) (from, size, a, b, rest) = elim (Bool-cases (ltb s v.vm_end)) [
    | inl stop ↦ simp stop refl
    | inr go ↦ simp go (elim (last_in v.vm_end l s v.vm_start rest) [
      | inl (e, none_left) ↦
          rw e (simp (==_refl v.vm_start) (rw (← behind-high v.vm_end l rest) (rw none_left refl)))
      | inr (k, e, above, e') ↦ rw e (
          simp (other k above)
            (subst (λ o. behind o l ≡ high s l) e' (behind-high v.vm_end l rest)))
    ])
  ]
    where
      other : (k : ℕ) → v.vm_end ≤ k → (v.vm_start == k) ≡ false
      other k above = ground arith

  pub up_to-low :
      (lo : ℕ) (l : List Vma) → IsLaid lo l → up_to (last_start none (low s l)) l ≡ low s l
  unfolding up_to last_start low
  up_to-low lo [] laid = refl
  up_to-low lo (v ∷ l) (from, size, a, b, rest) = elim (Bool-cases (ltb s v.vm_end)) [
    | inl stop ↦ simp stop refl
    | inr go ↦ simp go (elim (last_in v.vm_end l s v.vm_start rest) [
      | inl (e, none_left) ↦ rw (e, none_left) (simp (==_refl v.vm_start) refl)
      | inr (k, e, above, e') ↦ rw e (
          simp (other k above)
            (ap (λ r. v ∷ r) (subst (λ o. up_to o l ≡ low s l) e' (up_to-low v.vm_end l rest))))
    ])
  ]
    where
      other : (k : ℕ) → v.vm_end ≤ k → (v.vm_start == k) ≡ false
      other k above = ground arith

-- No area lies across an address.
abbrev pub IsCut : ℕ → List Vma → Type 0
IsCut b [] = Unit {0}
IsCut b (v ∷ l) = ((v.vm_end ≤ b) ⊎ (b ≤ v.vm_start)) × IsCut b l

pub IsCut-above : (b lo : ℕ) (l : List Vma) → IsLaid lo l → b ≤ lo → IsCut b l
IsCut-above b lo [] laid h = tt
IsCut-above b lo (v ∷ l) (from, size, s, e, rest) h =
    (inr (omega arith), IsCut-above b v.vm_end l rest (omega arith))

pub cut_at-IsCut : (a lo : ℕ) (l : List Vma) → IsLaid lo l → IsCut a (cut_at a l)
unfolding cut_at
cut_at-IsCut a lo [] laid = tt
cut_at-IsCut a lo (v ∷ l) (from, size, s, e, rest) = elim (Bool-cases (ltb a v.vm_end)) [
  | inr past ↦ simp past (inl (ground arith), cut_at-IsCut a v.vm_end l rest)
  | inl here ↦ elim (Bool-cases (ltb v.vm_start a)) [
    | inr at_start ↦
        simp (here, at_start) (inr (ground arith), IsCut-above a v.vm_end l rest (ground arith))
    | inl inside ↦
        simp (here, inside)
          (inl (omega arith), (inr (omega arith), IsCut-above a v.vm_end l rest (ground arith)))
  ]
]

pub cut_at-keeps_IsCut :
    (a b lo : ℕ) (l : List Vma) → IsLaid lo l → IsCut b l → IsCut b (cut_at a l)
unfolding cut_at
cut_at-keeps_IsCut a b lo [] laid cut = tt
cut_at-keeps_IsCut a b lo (v ∷ l) (from, size, s, e, rest) (side, cut) =
    elim (Bool-cases (ltb a v.vm_end)) [
      | inr past ↦ simp past (side, cut_at-keeps_IsCut a b v.vm_end l rest cut)
      | inl here ↦ elim (Bool-cases (ltb v.vm_start a)) [
        | inr at_start ↦ simp (here, at_start) (side, cut)
        | inl inside ↦
            simp (here, inside)
              (elim side [
                | inl left ↦ (inl (ground arith), (inl left, cut))
                | inr right ↦ (inr right, (inr (ground arith), cut))
              ])
      ]
    ]

rest_from-IsLaid : (e lo : ℕ) (l : List Vma) → IsLaid lo l → IsLaid lo (rest_from e l)
unfolding rest_from
rest_from-IsLaid e lo [] laid = tt
rest_from-IsLaid e lo (v ∷ l) (from, size, s, t, rest) = elim (Bool-cases (ltb v.vm_start e)) [
  | inl inside ↦
      simp inside
        (IsLaid-from v.vm_end lo (rest_from e l) (omega arith) (rest_from-IsLaid e v.vm_end l rest))
  | inr past ↦ simp past (from, size, s, t, rest)
]

-- What `do_munmap` leaves of a list.
abbrev pub outside : (s e : ℕ) → List Vma → List Vma
outside s e l = low s l ++ rest_from e (high s l)

pub outside-IsLaid : (s e lo : ℕ) (l : List Vma) → IsLaid lo l → IsLaid lo (outside s e l)
unfolding low high
outside-IsLaid s e lo [] laid = rest_from-IsLaid e lo [] tt
outside-IsLaid s e lo (v ∷ l) (from, size, a, b, rest) = elim (Bool-cases (ltb s v.vm_end)) [
  | inl stop ↦ simp stop (rest_from-IsLaid e lo (v ∷ l) (from, size, a, b, rest))
  | inr go ↦ simp go (from, size, a, b, outside-IsLaid s e v.vm_end l rest)
]

abbrev pub if_outside : (s e x : ℕ) → Option Mapping → Option Mapping
if_outside s e x o = if leb s x && ltb x e then none else o

mapping_at-rest_from :
    (s e lo : ℕ) (l : List Vma) (x : ℕ)
    → IsLaid lo l
    → IsCut e l
    → s ≤ lo
    → mapping_at (rest_from e l) x ≡ if_outside s e x (mapping_at l x)
unfolding rest_from mapping_at
mapping_at-rest_from s e lo [] x laid cut h = ground arith
mapping_at-rest_from s e lo (v ∷ l) x (from, size, a, b, rest) (side, cut) h =
    elim (Bool-cases (ltb v.vm_start e)) [
      | inl inside ↦
          simp inside (ground (arith, side, mapping_at-rest_from s e v.vm_end l x rest cut))
      | inr past ↦ simp past (ground (arith, mapping_below v.vm_end x l rest))
    ]

-- Behind the two cuts, that is every mapping outside the range and none inside.
pub mapping_at-outside :
    (s e lo : ℕ) (l : List Vma) (x : ℕ)
    → IsLaid lo l
    → IsCut s l
    → IsCut e l
    → mapping_at (outside s e l) x ≡ if_outside s e x (mapping_at l x)
unfolding low high mapping_at
mapping_at-outside s e lo [] x laid c d = mapping_at-rest_from s e s [] x tt tt (omega arith)
mapping_at-outside s e lo (v ∷ l) x (from, size, a, b, rest) (side, c) (side', d) =
    elim (Bool-cases (ltb s v.vm_end)) [
      | inl stop ↦ simp stop (
          mapping_at-rest_from s e v.vm_start (v ∷ l) x (omega arith, size, a, b, rest) (side', d)
            (ground (arith, side)))
      | inr go ↦ simp go (ground (arith, mapping_at-outside s e v.vm_end l x rest c d))
    ]
