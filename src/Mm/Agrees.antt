-- ===== src/Mm/Agrees.antt =====
-- What `vma_merge` of src/mm/mmap.c checks before it merges, and what an address is mapped to but for
-- VM_SOFTDIRTY, which it does not keep apart.
use zso_ptrace.Base.{
  ℕ, ◌+◌, ◌-◌, ◌/◌, ◌%◌, ◌^◌, ◌<◌, ◌≤◌, ◌≡◌, ◌≢◌, ◌⊎◌, refl, ap, inl, inr, Bool, true, false, ◌&&◌,
  Option, none, some, List, [], ◌∷◌, ltb, leb, ◌==◌, bit_or, arith, is_some, is_none, if◌then◌else◌,
  Bool-cases,
}
use zso_ptrace.Mm.Area.{add64, pages, vm_softdirty, Vma, Outside, vma_pages}
use zso_ptrace.Mm.Unmap.{length}
use zso_ptrace.Mm.Laid.{IsLaid, Mapping}
use zso_ptrace.Mm.Counted.{total_pages}
use zso_ptrace.Mm.Merge.{
  Request, same_pointer, is_mergeable_vma, Merged, apart, merged, oops, behind_area,
  can_vma_merge_before, can_vma_merge_after, import, grown, touches,
}

-- The mapping of an address, its flags with VM_SOFTDIRTY, in an area, in a list and as requested.
abbrev pub soft_in : Vma → ℕ → Mapping
soft_in v a = record {
  flags = bit_or v.vm_flags vm_softdirty;
  file = v.vm_file;
  page = (v.vm_pgoff + (a - v.vm_start) / 4096) % 2 ^ 64;
}

unfoldable pub soft_at : List Vma → ℕ → Option Mapping
soft_at [] a = none
soft_at (v ∷ l) a = if leb v.vm_start a && ltb a v.vm_end then some (soft_in v a) else soft_at l a

abbrev pub requested : Request → ℕ → Mapping
requested r a = record {
  flags = bit_or r.vm_flags vm_softdirty;
  file = r.file;
  page = (r.pgoff + (a - r.addr) / 4096) % 2 ^ 64;
}

abbrev pub if_requested : Request → ℕ → Option Mapping → Option Mapping
if_requested r a o = if leb r.addr a && ltb a r.end then some (requested r a) else o

pub soft_below : (lo a : ℕ) (l : List Vma) → IsLaid lo l → a < lo → soft_at l a ≡ none
unfolding soft_at
soft_below lo a [] laid h = refl
soft_below lo a (v ∷ l) (from, size, s, e, rest) h = ground (arith, soft_below v.vm_end a l rest)

-- An area that starts at an address holds the range, and is what is requested but for VM_SOFTDIRTY.
abbrev pub GrewAt : Request → (at : ℕ) → List Vma → Type 0
GrewAt r at [] = ⊥
GrewAt r at (w ∷ l) =
    ((w.vm_start ≡ at)
      × (w.vm_start ≤ r.addr)
      × (r.end ≤ w.vm_end)
      × (bit_or w.vm_flags vm_softdirty ≡ bit_or r.vm_flags vm_softdirty)
      × (w.vm_file ≡ r.file))
    ⊎ ((w.vm_start ≢ at) × GrewAt r at l)

-- The pages of the range, if nothing is mapped where it begins.
abbrev pub new_pages : Request → Option Mapping → ℕ
new_pages r none = pages (r.end - r.addr)
new_pages r (some m) = 0

-- A merge keeps the areas in order, maps the range as requested and every other address as before,
-- frees the areas by which the list is shorter, adds the pages of the range where it was free, and
-- gives the area that holds the range.
abbrev pub Fits : Request → (lo : ℕ) → List Vma → Merged → Type 0
Fits r lo l apart = Unit {0}
Fits r lo l (merged at m gone) =
    IsLaid lo m
    × ((x : ℕ) → soft_at m x ≡ if_requested r x (soft_at l x))
    × (length m + length gone ≡ length l)
    × (total_pages m ≡ total_pages l + new_pages r (soft_at l r.addr))
    × GrewAt r at m
Fits r lo l oops = ⊥

-- An area that a request agrees with.
pub record Agrees (v : Vma) (r : Request) : Type 0 where
  pub same_word : bit_or v.vm_flags vm_softdirty ≡ bit_or r.vm_flags vm_softdirty
  pub same_file : v.vm_file ≡ r.file

pub pointer_eq : (a b : Option ℕ) → same_pointer a b ≡ true → a ≡ b
pointer_eq none none e = refl
pointer_eq none (some b) e = ground (arith, e)
pointer_eq (some a) none e = ground (arith, e)
pointer_eq (some a) (some b) e = ap some (ground (arith, e))

pub and_left : (a b : Bool) → (a && b) ≡ true → a ≡ true
and_left true b e = refl
and_left false b e = e

pub and_right : (a b : Bool) → (a && b) ≡ true → b ≡ true
and_right true b e = e
and_right false b e = absurd (ground (arith, e))

pub eq_of : (a b : ℕ) → (a == b) ≡ true → a ≡ b
eq_of a b e = ground arith

mergeable-Agrees :
    (v : Vma) (r : Request) → is_mergeable_vma v r.file r.vm_flags r.userfaultfd ≡ true → Agrees v r
unfolding is_mergeable_vma
mergeable-Agrees v r e = record {
  same_word = ground (arith, e);
  same_file = pointer_eq v.vm_file r.file (ground (arith, e));
}

module _ (out : Outside) (singular : Vma → Bool) where
  pub after-Agrees :
      (v : Vma) (r : Request)
      → can_vma_merge_after out singular v r ≡ true
      → Agrees v r × (add64 v.vm_pgoff (vma_pages v) ≡ r.pgoff)
  unfolding can_vma_merge_after
  after-Agrees v r e =
      (mergeable-Agrees v r (and_left _ _ (and_left _ _ e)), eq_of _ _ (and_right _ _ e))

  pub touches-Agrees :
      (v : Vma) (r : Request)
      → touches out singular r (some v) ≡ true
      → Agrees v r × (r.end ≡ v.vm_start) × (v.vm_pgoff ≡ add64 r.pgoff (pages (r.end - r.addr)))
  unfolding can_vma_merge_before touches
  touches-Agrees v r e = (
    mergeable-Agrees v r (and_left _ _ (and_left _ _ (and_right _ _ e))),
    eq_of _ _ (and_left _ _ (and_left _ _ e)),
    eq_of _ _ (and_right _ _ (and_right _ _ e)),
  )

  -- What `import` gives is the importer but for its `anon_vma`.
  abbrev pub IsImport : Vma → Option Vma → Type 0
  IsImport v none = Unit {0}
  IsImport v (some w) = w ≡ record v { anon_vma = w.anon_vma }

  pub import-IsImport : (to from : Vma) → IsImport to (import out singular to from)
  unfolding import
  import-IsImport to from = elim (Bool-cases (is_some from.anon_vma && is_none to.anon_vma)) [
    | inr keep ↦ simp keep refl
    | inl wants ↦
        simp wants
          (elim (out.clone_anon from to.vm_start)
            as (λ o.
              IsImport to
                (elim o [ none ↦ some (record to { anon_vma = from.anon_vma }) | some e ↦ none ])) [
                  | some e ↦ tt
                  | none ↦ refl
                ])
  ]

  pub grown-Fits :
      (r : Request) (lo : ℕ) (old : List Vma) (v : Vma) (start end pgoff : ℕ) (rest gone : List Vma)
      (o : Option Vma)
      → IsImport v o
      → Fits r lo old
          (merged start (record v { vm_start = start; vm_end = end; vm_pgoff = pgoff } ∷ rest) gone)
      → Fits r lo old (grown out singular start end pgoff rest gone o)
  unfolding grown length soft_at total_pages vma_pages
  grown-Fits r lo old v start end pgoff rest gone none is fits = tt
  grown-Fits r lo old v start end pgoff rest gone (some w) is fits = rw is fits

  pub behind_grown-Fits :
      (r : Request) (lo : ℕ) (old : List Vma) (u v : Vma) (start end pgoff : ℕ)
      (rest gone : List Vma) (o : Option Vma)
      → IsImport v o
      → Fits r lo old (
          merged start
            (u ∷ record v { vm_start = start; vm_end = end; vm_pgoff = pgoff } ∷ rest)
            gone)
      → Fits r lo old (behind_area u (grown out singular start end pgoff rest gone o))
  unfolding grown length soft_at total_pages vma_pages
  behind_grown-Fits r lo old u v start end pgoff rest gone none is fits = tt
  behind_grown-Fits r lo old u v start end pgoff rest gone (some w) is fits = rw is fits
