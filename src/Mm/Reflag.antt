-- ===== src/Mm/Reflag.antt =====
-- What it means for the addresses of a range that src/mm/mprotect.c sets the flags of an area.
use zso_ptrace.Base.{
  ℕ, suc, ◌≤◌, ◌<◌, ◌≡◌, ◌≢◌, ◌⊎◌, refl, ap, inl, inr, true, false, ◌&&◌, Option, none, some, List,
  [], ◌∷◌, ltb, leb, ◌==◌, bit_or, arith, if◌then◌else◌, Bool-cases,
}
use zso_ptrace.Mm.Area.{vm_softdirty, Vma, vma_pages}
use zso_ptrace.Mm.Split.{find_vma}
use zso_ptrace.Mm.Unmap.{length}
use zso_ptrace.Mm.Laid.{IsLaid, Mapping, cut_at, high_piece}
use zso_ptrace.Mm.Counted.{total_pages}
use zso_ptrace.Mm.Merge.{Request}
use zso_ptrace.Mm.Agrees.{soft_in, soft_at, GrewAt}
use zso_ptrace.Mm.Protect.{set_flags}

-- A mapping with other flags, and that in a range.
abbrev pub reflag : (flags : ℕ) → Option Mapping → Option Mapping
reflag f none = none
reflag f (some m) = some (record m { flags = bit_or f vm_softdirty })

abbrev pub reflag_in : (start end flags x : ℕ) → Option Mapping → Option Mapping
reflag_in start end f x o = if leb start x && ltb x end then reflag f o else o

-- An area is exactly a range.
abbrev pub ExactAt : (start end : ℕ) → List Vma → Type 0
ExactAt s e [] = ⊥
ExactAt s e (w ∷ l) = ((w.vm_start ≡ s) × (w.vm_end ≡ e)) ⊎ ((w.vm_start ≢ s) × ExactAt s e l)

pub set_flags-IsLaid : (at f lo : ℕ) (l : List Vma) → IsLaid lo l → IsLaid lo (set_flags at f l)
unfolding set_flags
set_flags-IsLaid at f lo [] laid = tt
set_flags-IsLaid at f lo (v ∷ l) (from, size, s, e, rest) = elim (Bool-cases (v.vm_start == at)) [
  | inl here ↦ simp here (from, size, s, e, rest)
  | inr other ↦ simp other (from, size, s, e, set_flags-IsLaid at f v.vm_end l rest)
]

pub length-set_flags : (at f : ℕ) (l : List Vma) → length (set_flags at f l) ≡ length l
unfolding set_flags length
length-set_flags at f [] = refl
length-set_flags at f (v ∷ l) = elim (Bool-cases (v.vm_start == at)) [
  | inl here ↦ simp here refl
  | inr other ↦ simp other (ap (λ (n : ℕ). suc n) (length-set_flags at f l))
]

pub total_pages-set_flags :
    (at f : ℕ) (l : List Vma) → total_pages (set_flags at f l) ≡ total_pages l
unfolding set_flags total_pages vma_pages
total_pages-set_flags at f [] = refl
total_pages-set_flags at f (v ∷ l) = elim (Bool-cases (v.vm_start == at)) [
  | inl here ↦ simp here refl
  | inr other ↦ simp other (omega (arith, total_pages-set_flags at f l))
]

-- Flags that differ from those there in VM_SOFTDIRTY at most.
pub set_flags-GrewAt :
    (r : Request) (at x : ℕ) (l : List Vma)
    → GrewAt r at l
    → soft_at (set_flags at r.vm_flags l) x ≡ soft_at l x
unfolding set_flags soft_at
set_flags-GrewAt r at x [] grew = absurd grew
set_flags-GrewAt r at x (v ∷ l) (inl (same, low, high, word, file)) =
    let here : (v.vm_start == at) ≡ true = ground arith in simp here (ground (arith, word))
set_flags-GrewAt r at x (v ∷ l) (inr (differs, grew)) =
    let other : (v.vm_start == at) ≡ false = ground arith in
    simp other (ground (arith, set_flags-GrewAt r at x l grew))

pub set_flags-ExactAt :
    (s e f lo x : ℕ) (l : List Vma)
    → IsLaid lo l
    → ExactAt s e l
    → soft_at (set_flags s f l) x ≡ reflag_in s e f x (soft_at l x)
unfolding set_flags soft_at
set_flags-ExactAt s e f lo x [] laid exact = absurd exact
set_flags-ExactAt s e f lo x (v ∷ l) (from, size, a, b, rest) (inl (same, till)) =
    let here : (v.vm_start == s) ≡ true = ground arith in simp here (ground (arith, till))
set_flags-ExactAt s e f lo x (v ∷ l) (from, size, a, b, rest) (inr (differs, exact)) =
    let other : (v.vm_start == s) ≡ false = ground arith in
    let beyond : v.vm_end ≤ s = starts v.vm_end l rest exact in
    simp other (ground (arith, set_flags-ExactAt s e f v.vm_end x l rest exact))
  where
    starts : (lo : ℕ) (l : List Vma) → IsLaid lo l → ExactAt s e l → lo ≤ s
    starts lo [] laid exact = absurd exact
    starts lo (w ∷ l) (from, size, a, b, rest) (inl (same, till)) = omega (arith, same)
    starts lo (w ∷ l) (from, size, a, b, rest) (inr (differs, exact)) =
        omega (arith, starts w.vm_end l rest exact)

cut_front :
    (s e : ℕ) (w : Vma) (l : List Vma)
    → w.vm_start ≡ s
    → s < e
    → e ≤ w.vm_end
    → ExactAt s e (cut_at e (w ∷ l))
unfolding cut_at
cut_front s e w l at lt le = elim (Bool-cases (ltb e w.vm_end)) [
  | inr whole ↦ simp whole (inl (at, ground arith))
  | inl short ↦
      let starts : ltb w.vm_start e ≡ true = ground arith in simp (short, starts) (inl (at, refl))
]

-- The two cuts make the range an area.
pub cut_twice-ExactAt :
    (s e lo : ℕ) (l : List Vma) (v : Vma)
    → IsLaid lo l
    → find_vma l s ≡ some v
    → v.vm_start ≤ s
    → s < e
    → e ≤ v.vm_end
    → ExactAt s e (cut_at e (cut_at s l))
unfolding find_vma cut_at
cut_twice-ExactAt s e lo [] v laid found low_v lt high_v = ground (arith, found)
cut_twice-ExactAt s e lo (w ∷ l) v (from, size, a, b, rest) found low_v lt high_v =
    elim (Bool-cases (ltb s w.vm_end)) [
      | inr past ↦
          let beyond : ltb e w.vm_end ≡ false = ground arith in
          simp past (
            simp beyond (
              inr (
                ground arith,
                cut_twice-ExactAt s e w.vm_end l v rest (simp past at found) low_v lt high_v,
              )))
      | inl here ↦
          let low_w : w.vm_start ≤ s = ground (arith, here, found) in
          let high_w : e ≤ w.vm_end = ground (arith, here, found) in
          elim (Bool-cases (ltb w.vm_start s)) [
            | inl inside ↦
                let beyond : ltb e s ≡ false = ground arith in
                simp (here, inside)
                  (simp beyond
                    (inr (ground arith, cut_front s e (high_piece w s) l refl lt high_w)))
            | inr above ↦ simp (here, above) (cut_front s e w l (ground arith) lt high_w)
          ]
    ]

-- The addresses of the range in the area that `find_vma` gives for its beginning.
pub soft_at-find :
    (l : List Vma) (s x : ℕ) (v : Vma)
    → find_vma l s ≡ some v
    → v.vm_start ≤ s
    → s ≤ x
    → x < v.vm_end
    → soft_at l x ≡ some (soft_in v x)
unfolding find_vma soft_at
soft_at-find [] s x v found low_v le lt = ground (arith, found)
soft_at-find (w ∷ l) s x v found low_v le lt = elim (Bool-cases (ltb s w.vm_end)) [
  | inr past ↦ ground (arith, past, soft_at-find l s x v (simp past at found) low_v le lt)
  | inl here ↦ ground (arith, here, found)
]
