-- ===== src/Mm/Stands.antt =====
-- The area that holds a range, by its start, as the loop of src/mm/mprotect.c follows it.
use zso_ptrace.Base.{
  ℕ, ◌%◌, ◌≤◌, ◌<◌, ◌≡◌, ◌≢◌, ◌⊎◌, sym, inl, inr, some, List, [], ◌∷◌, ltb, ◌==◌, arith, Bool-cases,
}
use zso_ptrace.Mm.Area.{Vma}
use zso_ptrace.Mm.Split.{find_vma}
use zso_ptrace.Mm.Laid.{IsLaid}
use zso_ptrace.Mm.Merge.{Request}
use zso_ptrace.Mm.Agrees.{soft_in, soft_at, GrewAt}
use zso_ptrace.Mm.Protect.{set_flags}
use zso_ptrace.Mm.Mprotect.{end_of}
use zso_ptrace.Mm.Reflag.{ExactAt}

-- The area that starts at an address holds a range.
abbrev pub HoldsAt : (start end at : ℕ) → List Vma → Type 0
HoldsAt start end at [] = ⊥
HoldsAt start end at (w ∷ l) =
    ((w.vm_start ≡ at) × (w.vm_start ≤ start) × (end ≤ w.vm_end))
    ⊎ ((w.vm_start ≢ at) × HoldsAt start end at l)

pub HoldsAt-set_flags :
    (s e at k f : ℕ) (l : List Vma) → HoldsAt s e at l → HoldsAt s e at (set_flags k f l)
unfolding set_flags
HoldsAt-set_flags s e at k f [] holds = absurd holds
HoldsAt-set_flags s e at k f (w ∷ l) holds = elim (Bool-cases (w.vm_start == k)) [
  | inl here ↦ simp here holds
  | inr other ↦ simp other (elim holds [
    | inl first ↦ inl first
    | inr (differs, rest) ↦ inr (differs, HoldsAt-set_flags s e at k f l rest)
  ])
]

pub GrewAt-HoldsAt :
    (r : Request) (at : ℕ) (l : List Vma) → GrewAt r at l → HoldsAt r.addr r.end at l
GrewAt-HoldsAt r at [] grew = absurd grew
GrewAt-HoldsAt r at (w ∷ l) (inl (same, low, high, word, file)) = inl (same, low, high)
GrewAt-HoldsAt r at (w ∷ l) (inr (differs, rest)) = inr (differs, GrewAt-HoldsAt r at l rest)

pub ExactAt-HoldsAt : (s e : ℕ) (l : List Vma) → ExactAt s e l → HoldsAt s e s l
ExactAt-HoldsAt s e [] exact = absurd exact
ExactAt-HoldsAt s e (w ∷ l) (inl (same, till)) =
    inl (same, omega (arith, same), omega (arith, till))
ExactAt-HoldsAt s e (w ∷ l) (inr (differs, rest)) = inr (differs, ExactAt-HoldsAt s e l rest)

pub find-HoldsAt :
    (s e lo : ℕ) (l : List Vma) (v : Vma)
    → IsLaid lo l
    → find_vma l s ≡ some v
    → v.vm_start ≤ s
    → e ≤ v.vm_end
    → HoldsAt s e v.vm_start l
unfolding find_vma
find-HoldsAt s e lo [] v laid found low high = ground (arith, found)
find-HoldsAt s e lo (w ∷ l) v (from, size, a, b, rest) found low high =
    elim (Bool-cases (ltb s w.vm_end)) [
      | inl here ↦ inl (ground (arith, here, found))
      | inr past ↦
          let below : w.vm_end ≤ v.vm_start = found_from w.vm_end l rest (simp past at found) in
          inr (omega arith, find-HoldsAt s e w.vm_end l v rest (simp past at found) low high)
    ]
  where
    found_from : (lo : ℕ) (l : List Vma) → IsLaid lo l → find_vma l s ≡ some v → lo ≤ v.vm_start
    found_from lo [] laid found = ground (arith, found)
    found_from lo (w ∷ l) (from, size, a, b, rest) found = elim (Bool-cases (ltb s w.vm_end)) [
      | inl here ↦ ground (arith, here, found)
      | inr past ↦ omega (arith, found_from w.vm_end l rest (simp past at found))
    ]

pub find_aligned :
    (lo : ℕ) (l : List Vma) (v : Vma) (a : ℕ)
    → IsLaid lo l
    → find_vma l a ≡ some v
    → v.vm_start % 4096 ≡ 0
unfolding find_vma
find_aligned lo [] v x laid found = ground (arith, found)
find_aligned lo (w ∷ l) v x (from, size, a, b, rest) found = elim (Bool-cases (ltb x w.vm_end)) [
  | inl here ↦ ground (arith, here, found)
  | inr past ↦ find_aligned w.vm_end l v x rest (simp past at found)
]

-- The area that holds a range, with what its addresses are mapped to.
pub record Holder (s e at : ℕ) (l : List Vma) (a : Vma) : Type 0 where
  pub low : a.vm_start ≤ s
  pub high : e ≤ a.vm_end
  pub last : end_of at l ≡ a.vm_end
  pub all : (x : ℕ) → a.vm_start ≤ x → x < a.vm_end → soft_at l x ≡ some (soft_in a x)
  pub from : at ≡ a.vm_start

pub HoldsAt-Holder :
    (s e at lo : ℕ) (l : List Vma)
    → IsLaid lo l
    → s < e
    → HoldsAt s e at l
    → (a : Vma) × (lo ≤ a.vm_start) × Holder s e at l a
unfolding soft_at end_of
HoldsAt-Holder s e at lo [] laid lt holds = absurd holds
HoldsAt-Holder s e at lo (w ∷ l) (from, size, p, q, rest) lt (inl (same, low, high)) = (
  w,
  from,
  record {
    low = low;
    high = high;
    last = ground arith;
    all = λ x ge less. ground arith;
    from = sym same;
  },
)
HoldsAt-Holder s e at lo (w ∷ l) (from, size, p, q, rest) lt (inr (differs, holds)) =
    let (a, above, k) = HoldsAt-Holder s e at w.vm_end l rest lt holds in
    (
      a,
      omega arith,
      record {
        low = k.low;
        high = k.high;
        last = ground (arith, k.last);
        all = λ x ge less. ground (arith, k.all x ge less);
        from = k.from;
      },
    )
