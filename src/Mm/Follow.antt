-- ===== src/Mm/Follow.antt =====
-- Where the rounds of the loop in src/mm/mprotect.c stand: the areas behind and before a range, as
-- `vma_merge` wants them.
use zso_ptrace.Base.{
  ℕ, ◌≤◌, ◌<◌, ◌≡◌, ◌≢◌, ◌⊎◌, refl, ap, subst, inl, inr, true, false, none, some, List, [], ◌∷◌,
  ltb, ◌==◌, arith, Bool-cases,
}
use zso_ptrace.Mm.Area.{Vma}
use zso_ptrace.Mm.Split.{find_vma, find_prev}
use zso_ptrace.Mm.Unmap.{behind}
use zso_ptrace.Mm.Laid.{IsLaid}
use zso_ptrace.Mm.Cut.{find_vma_from}
use zso_ptrace.Mm.Merge.{Request}
use zso_ptrace.Mm.Fitting.{over}
use zso_ptrace.Mm.Merges.{beyond, within, PlacedAt, here, later, IsPlaced}
use zso_ptrace.Mm.Agrees.{soft_at, soft_below}
use zso_ptrace.Mm.Mprotect.{first_prev, end_of}
use zso_ptrace.Mm.Stands.{HoldsAt}

list_head : (v w : Vma) (l k : List Vma) → v ∷ l ≡ w ∷ k → v ≡ w
list_head v w l k e = cc

behind-from :
    (at lo : ℕ) (l : List Vma) (w : Vma) (k : List Vma)
    → IsLaid lo l
    → behind (some at) l ≡ w ∷ k
    → lo ≤ w.vm_start
unfolding behind
behind-from at lo [] w k laid next = ground (arith, next)
behind-from at lo (v ∷ []) w k laid next = ground (arith, next)
behind-from at lo (v ∷ n ∷ l) w k (from, size, p, q, rest) next =
    elim (Bool-cases (v.vm_start == at)) [
      | inl found ↦
          let same : n ≡ w = list_head n w l k (simp found at next) in
          let ge : v.vm_end ≤ w.vm_start = ground (arith, same, rest) in omega arith
      | inr other ↦ omega (arith, behind-from at v.vm_end (n ∷ l) w k rest (simp other at next))
    ]

-- The area behind one that holds a range, as `find_vma` finds it, and where a request at its
-- beginning is placed.
pub record Follows (at : ℕ) (l : List Vma) (w : Vma) : Type 0 where
  pub found : find_vma l w.vm_start ≡ some w
  pub wide : w.vm_start < w.vm_end
  pub place : (r : Request) → r.addr ≡ w.vm_start → r.end ≤ w.vm_end → PlacedAt r at l

first-Follows :
    (at lo : ℕ) (v : Vma) (l : List Vma) (w : Vma) (k : List Vma)
    → IsLaid lo (v ∷ l)
    → v.vm_start ≡ at
    → l ≡ w ∷ k
    → Follows at (v ∷ l) w
unfolding find_vma
first-Follows at lo v [] w k laid same next = ground (arith, next)
first-Follows at lo v (n ∷ l) w k (from, size, p, q, (above, n_size, b, c, rest)) same next =
    let is : n ≡ w = list_head n w l k next in
    record {
      found = ground (arith, is);
      wide = subst (λ z. z.vm_start < z.vm_end) is n_size;
      place = λ r addr end. here same (
          beyond (ground (arith, is, addr))
            (over (ground (arith, is, addr)) (ground (arith, is, end))));
    }

pub behind-Follows :
    (s e at lo : ℕ) (l : List Vma) (w : Vma) (k : List Vma)
    → IsLaid lo l
    → HoldsAt s e at l
    → behind (some at) l ≡ w ∷ k
    → Follows at l w
unfolding find_vma behind
behind-Follows s e at lo [] w k laid holds next = absurd holds
behind-Follows s e at lo (v ∷ l) w k laid (inl (same, low, high)) next =
    let at_v : (v.vm_start == at) ≡ true = ground arith in
    first-Follows at lo v l w k laid same (simp at_v at next)
behind-Follows s e at lo (v ∷ l) w k (from, size, p, q, rest) (inr (differs, holds)) next =
    let past : (v.vm_start == at) ≡ false = ground arith in
    let f : Follows at l w = behind-Follows s e at v.vm_end l w k rest holds (simp past at next) in
    let ge : v.vm_end ≤ w.vm_start = behind-from at v.vm_end l w k rest (simp past at next) in
    record {
      found = ground (arith, f.found);
      wide = f.wide;
      place = λ r addr end. later differs (omega (arith, addr)) (f.place r addr end);
    }

-- No area of a list starts at an address where it might go on.
abbrev pub StartsOff : ℕ → List Vma → Type 0
StartsOff e [] = Unit {0}
StartsOff e (w ∷ l) = w.vm_start ≢ e

off_none : (e : ℕ) (l : List Vma) → IsLaid e l → StartsOff e l → soft_at l e ≡ none
unfolding soft_at
off_none e [] laid off = refl
off_none e (w ∷ l) (from, size, p, q, rest) off = ground (arith, soft_below w.vm_end e l rest)

pub behind-hole :
    (s e at lo : ℕ) (l : List Vma)
    → IsLaid lo l
    → HoldsAt s e at l
    → StartsOff (end_of at l) (behind (some at) l)
    → (lo ≤ end_of at l) × (soft_at l (end_of at l) ≡ none)
unfolding soft_at behind end_of
behind-hole s e at lo [] laid holds off = absurd holds
behind-hole s e at lo (v ∷ l) (from, size, p, q, rest) (inl (same, low, high)) off =
    let at_v : (v.vm_start == at) ≡ true = ground arith in
    simp at_v (omega arith, ground (arith, off_none v.vm_end l rest (simp at_v at off)))
behind-hole s e at lo (v ∷ l) (from, size, p, q, rest) (inr (differs, holds)) off =
    let past : (v.vm_start == at) ≡ false = ground arith in
    let (above, free) = behind-hole s e at v.vm_end l rest holds (simp past at off) in
    simp past (omega arith, ground (arith, free))

-- The first round: inside an area, or at its beginning.
within-PlacedAt :
    (lo s : ℕ) (l : List Vma) (v : Vma) (r : Request)
    → IsLaid lo l
    → find_vma l s ≡ some v
    → v.vm_start < r.addr
    → r.addr ≡ s
    → r.end ≤ v.vm_end
    → (lo ≤ v.vm_start) × PlacedAt r v.vm_start l
unfolding find_vma
within-PlacedAt lo s [] v r laid found low at high = ground (arith, found)
within-PlacedAt lo s (w ∷ l) v r (from, size, p, q, rest) found low at high =
    elim (Bool-cases (ltb s w.vm_end)) [
      | inl ends ↦
          let same : w ≡ v = some_eq (simp ends at found) in
          (
            ground (arith, same),
            here (ap (λ z. z.vm_start) same) (within (ground (arith, same)) (ground (arith, same))),
          )
      | inr past ↦
          let (ge, place) =
            within-PlacedAt w.vm_end s l v r rest (simp past at found) low at high in
          (omega arith, later (omega arith) (ground (arith, past)) place)
    ]
  where
    some_eq : some w ≡ some v → w ≡ v
    some_eq e = cc

PlacedAt-from : (lo at : ℕ) (l : List Vma) (r : Request) → IsLaid lo l → PlacedAt r at l → lo ≤ at
PlacedAt-from lo at [] r laid place = elim place [ ]
PlacedAt-from lo at (v ∷ l) r (from, size, p, q, rest) (here same place) = omega (arith, same)
PlacedAt-from lo at (v ∷ l) r (from, size, p, q, rest) (later other before place) =
    omega (arith, PlacedAt-from v.vm_end at l r rest place)

-- Behind an area there is a `prev`.
prev_some : (p s : ℕ) (l : List Vma) → (k : ℕ) × (find_prev (some p) l s ≡ some k)
unfolding find_prev
prev_some p s [] = (p, refl)
prev_some p s (v ∷ l) = elim (Bool-cases (ltb s v.vm_end)) [
  | inl stop ↦ simp stop (p, refl)
  | inr go ↦ simp go (prev_some v.vm_start s l)
]

behind-IsPlaced :
    (lo s : ℕ) (u : Vma) (l : List Vma) (v : Vma) (r : Request)
    → IsLaid lo (u ∷ l)
    → find_vma l s ≡ some v
    → r.addr ≡ v.vm_start
    → r.end ≤ v.vm_end
    → IsPlaced r (find_prev (some u.vm_start) l s) (u ∷ l)
unfolding find_vma find_prev
behind-IsPlaced lo s u [] v r laid found at high = ground (arith, found)
behind-IsPlaced lo s u (w ∷ l) v r (from, size, p, q, (above, w_size, b, c, rest)) found at high =
    elim (Bool-cases (ltb s w.vm_end)) [
      | inl ends ↦
          let same : w ≡ v = some_eq (simp ends at found) in
          simp ends (
            here refl
              (beyond (ground (arith, same)) (over (ground (arith, same)) (ground (arith, same)))))
      | inr past ↦
          let (k, is) = prev_some w.vm_start s l in
          let place : PlacedAt r k (w ∷ l) =
            subst (λ o. IsPlaced r o (w ∷ l)) is
              (behind-IsPlaced u.vm_end s w l v r (above, w_size, b, c, rest) (simp past at found)
                at high) in
          let ge : u.vm_end ≤ k =
            PlacedAt-from u.vm_end k (w ∷ l) r (above, w_size, b, c, rest) place in
          let at_v : w.vm_end ≤ v.vm_start =
            find_vma_from w.vm_end l s v rest (simp past at found) in
          simp past (rw is (later (omega arith) (omega arith) place))
    ]
  where
    some_eq : some w ≡ some v → w ≡ v
    some_eq e = cc

head-IsPlaced :
    (s : ℕ) (l : List Vma) (v : Vma) (r : Request)
    → IsLaid 0 l
    → find_vma l s ≡ some v
    → r.addr ≡ v.vm_start
    → r.end ≤ v.vm_end
    → IsPlaced r (find_prev none l s) l
unfolding find_vma find_prev
head-IsPlaced s [] v r laid found at high = ground (arith, found)
head-IsPlaced s (w ∷ l) v r laid found at high = elim (Bool-cases (ltb s w.vm_end)) [
  | inl ends ↦
      let same : w ≡ v = some_eq (simp ends at found) in
      simp ends (over (ground (arith, same)) (ground (arith, same)))
  | inr past ↦ simp past (behind-IsPlaced 0 s w l v r laid (simp past at found) at high)
]
  where
    some_eq : some w ≡ some v → w ≡ v
    some_eq e = cc

pub first-IsPlaced :
    (s from : ℕ) (l : List Vma) (v : Vma) (r : Request)
    → IsLaid 0 l
    → find_vma l s ≡ some v
    → (from ≡ s) ⊎ (from ≡ v.vm_start)
    → v.vm_start ≤ from
    → r.addr ≡ from
    → r.end ≤ v.vm_end
    → IsPlaced r (first_prev l v s from) l
first-IsPlaced s from l v r laid found which low at high = elim (Bool-cases (ltb v.vm_start from)) [
  | inl inside ↦
      let at_s : r.addr ≡ s = ground (arith, which, inside) in
      let above : v.vm_start < r.addr = ground (arith, inside) in
      simp inside ((within-PlacedAt 0 s l v r laid found above at_s high).1)
  | inr starts ↦
      let at_v : r.addr ≡ v.vm_start = ground (arith, starts) in
      simp starts (head-IsPlaced s l v r laid found at_v high)
]
