-- ===== src/Mm/Searched.antt =====
-- The searches of the tree of areas in src/mm/mmap.c against the list of its areas.
use zso_ptrace.Base.{
  ℕ, ◌≤◌, ◌<◌, ◌≡◌, refl, sym, subst, ap, ◌∙◌, inl, inr, Option, none, some, List, [], ◌∷◌, ◌++◌,
  arith, ltb, leb, Bool-cases,
}
use mathlib.Core.Option.{or_else}
use zso_ptrace.Mm.Area.{Vma}
use zso_ptrace.Mm.Split.{find_vma}
use zso_ptrace.Mm.Laid.{IsLaid}
use zso_ptrace.Mm.Tree.{Tree, leaf, node, areas, find_in, find_vma_tree}

-- All areas end by an address.
abbrev pub EndsBy : ℕ → List Vma → Type 0
EndsBy b [] = Unit {0}
EndsBy b (v ∷ l) = (v.vm_end ≤ b) × EndsBy b l

-- The areas before, in and behind an area of a list.
pub record Around (lo : ℕ) (l : List Vma) (v : Vma) (r : List Vma) : Type 0 where
  pub before : IsLaid lo l
  pub ended : EndsBy v.vm_start l
  pub wide : v.vm_start < v.vm_end
  pub after : IsLaid v.vm_end r
  pub from : lo ≤ v.vm_start

pub around :
    (lo : ℕ) (l : List Vma) (v : Vma) (r : List Vma) → IsLaid lo (l ++ (v ∷ r)) → Around lo l v r
around lo [] v r (from, size, a, b, rest) = record {
  before = tt;
  ended = tt;
  wide = size;
  after = rest;
  from = from;
}
around lo (w ∷ l) v r (from, size, a, b, rest) =
    let k = around w.vm_end l v r rest in
    record {
      before = (from, size, a, b, k.before);
      ended = (k.from, k.ended);
      wide = k.wide;
      after = k.after;
      from = omega (arith, k.from);
    }

find_vma-past :
    (b : ℕ) (l r : List Vma) (addr : ℕ)
    → EndsBy b l
    → b ≤ addr
    → find_vma (l ++ r) addr ≡ find_vma r addr
unfolding find_vma
find_vma-past b [] r addr ended h = refl
find_vma-past b (w ∷ l) r addr (end, ended) h = ground (arith, find_vma-past b l r addr ended h)

find_vma-before :
    (l : List Vma) (v : Vma) (r : List Vma) (addr : ℕ)
    → addr < v.vm_end
    → find_vma (l ++ (v ∷ r)) addr ≡ or_else (find_vma l addr) (some v)
unfolding find_vma or_else
find_vma-before [] v r addr h = ground arith
find_vma-before (w ∷ l) v r addr h = ground (arith, find_vma-before l v r addr h)

find_vma-skip :
    (v : Vma) (r : List Vma) (addr : ℕ) → v.vm_end ≤ addr → find_vma (v ∷ r) addr ≡ find_vma r addr
unfolding find_vma
find_vma-skip v r addr h = ground arith

find_vma-here :
    (v : Vma) (r : List Vma) (addr : ℕ) → addr < v.vm_end → find_vma (v ∷ r) addr ≡ some v
unfolding find_vma
find_vma-here v r addr h = ground arith

or_else-twice :
    (o : Option Vma) (v : Vma) (vma : Option Vma)
    → or_else o (some v) ≡ or_else (or_else o (some v)) vma
unfolding or_else
or_else-twice none v vma = refl
or_else-twice (some w) v vma = refl

-- The walk down the tree gives the first area that ends above the address.
find_in-list :
    (t : Tree) (lo addr : ℕ) (vma : Option Vma)
    → IsLaid lo (areas t)
    → find_in t addr vma ≡ or_else (find_vma (areas t) addr) vma
unfolding find_in areas find_vma or_else
find_in-list leaf lo addr vma laid = refl
find_in-list (node l v r) lo addr vma laid =
    let k = around lo (areas l) v (areas r) laid in
    elim (Bool-cases (ltb addr v.vm_end)) [
      | inr past ↦ simp past (
          find_in-list r v.vm_end addr vma k.after
          ∙ sym (
              ap (λ o. or_else o vma)
                (find_vma-past v.vm_start (areas l) (v ∷ areas r) addr k.ended
                    (ground (arith, k.wide))
                  ∙ find_vma-skip v (areas r) addr (ground arith))))
      | inl here ↦ elim (Bool-cases (leb v.vm_start addr)) [
        | inl inside ↦
            simp (here, inside)
              (sym (
                ap (λ o. or_else o vma)
                  (find_vma-past v.vm_start (areas l) (v ∷ areas r) addr k.ended (ground arith)
                    ∙ find_vma-here v (areas r) addr (ground arith))))
        | inr below ↦
            simp (here, below)
              (find_in-list l lo addr (some v) k.before
                ∙ or_else-twice (find_vma (areas l) addr) v vma
                ∙ sym (
                    ap (λ o. or_else o vma)
                      (find_vma-before (areas l) v (areas r) addr (ground arith))))
      ]
    ]

-- What the cache may give for an address: nothing, or an area of the address space that contains it.
abbrev pub IsCached : Option Vma → List Vma → ℕ → Type 0
IsCached none l addr = Unit {0}
IsCached (some v) l addr =
    (before : List Vma) × (after : List Vma) × (l ≡ before ++ (v ∷ after))
    × (v.vm_start ≤ addr)
    × (addr < v.vm_end)

or_else-none : (o : Option Vma) → or_else o none ≡ o
unfolding or_else
or_else-none none = refl
or_else-none (some v) = refl

-- On a tree of areas whose order is that of their addresses, with a cache that gives nothing or an
-- area of the tree that contains the address, find_vma gives the first area of the list that ends
-- above the address.
pub find_vma_tree-list :
    (cached : Option Vma) (t : Tree) (lo addr : ℕ)
    → IsCached cached (areas t) addr
    → IsLaid lo (areas t)
    → find_vma_tree cached t addr ≡ find_vma (areas t) addr
unfolding find_vma_tree
find_vma_tree-list none t lo addr cache laid =
    find_in-list t lo addr none laid ∙ or_else-none (find_vma (areas t) addr)
find_vma_tree-list (some v) t lo addr (before, after, same, start, end) laid =
    let k = around lo before v after (subst (IsLaid lo) same laid) in
    sym (
      ap (λ l. find_vma l addr) same
      ∙ find_vma-past v.vm_start before (v ∷ after) addr k.ended start
      ∙ find_vma-here v after addr end)
