-- ===== src/Mm/Placed.antt =====
-- `find_vma_links` and `__vma_link_rb` of src/mm/mmap.c against the insertion into the list of areas.
use zso_ptrace.Base.{
  ℕ, ◌≤◌, ◌<◌, ◌≡◌, refl, sym, ap, ◌∙◌, inl, inr, Option, none, some, List, [], ◌∷◌, ◌++◌, arith,
  ltb, Bool-cases,
}
use mathlib.Core.Option.{map}
use zso_ptrace.Mm.Area.{Vma}
use zso_ptrace.Mm.Split.{insert_vma}
use zso_ptrace.Mm.Laid.{IsLaid}
use zso_ptrace.Mm.Tree.{Tree, leaf, node, areas, left, right, turn, find_vma_links, vma_link_rb}
use zso_ptrace.Mm.Searched.{EndsBy, Around, around}

-- Where a new area goes.
map-id : {A : Type 0} (o : Option A) → map (λ a. a) o ≡ o
map-id none = refl
map-id (some a) = refl

map-map :
    {A B C : Type 0} (f : A → B) (g : B → C) (o : Option A) → map g (map f o) ≡ map (λ a. g (f a)) o
map-map f g none = refl
map-map f g (some a) = refl

insert_vma-next :
    (new w : Vma) (l : List Vma)
    → w.vm_end ≤ new.vm_start
    → insert_vma new (w ∷ l) ≡ map (λ m. w ∷ m) (insert_vma new l)
unfolding insert_vma
insert_vma-next new w l h = ground arith

insert_vma-past :
    (new : Vma) (b : ℕ) (l r : List Vma)
    → EndsBy b l
    → b ≤ new.vm_start
    → insert_vma new (l ++ r) ≡ map (λ m. l ++ m) (insert_vma new r)
insert_vma-past new b [] r ended h = sym (map-id (insert_vma new r))
insert_vma-past new b (w ∷ l) r (end, ended) h =
    insert_vma-next new w (l ++ r) (omega arith)
    ∙ ap (map (λ m. w ∷ m)) (insert_vma-past new b l r ended h)
    ∙ map-map (λ m. l ++ m) (λ m. w ∷ m) (insert_vma new r)

insert_vma-overlap :
    (new : Vma) (lo : ℕ) (l : List Vma) (v : Vma) (r : List Vma)
    → Around lo l v r
    → new.vm_start < v.vm_end
    → v.vm_start < new.vm_end
    → insert_vma new (l ++ (v ∷ r)) ≡ none
unfolding insert_vma
insert_vma-overlap new lo [] v r k a b = ground arith
insert_vma-overlap new lo (w ∷ l) v r k a b = elim (Bool-cases (ltb new.vm_start w.vm_end)) [
  | inl meets ↦ ground (arith, meets, k.ended, k.before)
  | inr past ↦
      let (from, size, p, q, rest) = k.before in
      let (end, ended) = k.ended in
      simp past (
        ap (map (λ m. w ∷ m)) (
          insert_vma-overlap new w.vm_end l v r
            (record { before = rest; ended = ended; wide = k.wide; after = k.after; from = end }) a
            b))
]

insert_vma-before :
    (new : Vma) (l : List Vma) (v : Vma) (r : List Vma)
    → new.vm_start < v.vm_end
    → new.vm_end ≤ v.vm_start
    → insert_vma new (l ++ (v ∷ r)) ≡ map (λ m. m ++ (v ∷ r)) (insert_vma new l)
unfolding insert_vma
insert_vma-before new [] v r a b = ground arith
insert_vma-before new (w ∷ l) v r a b = elim (Bool-cases (ltb new.vm_start w.vm_end)) [
  | inl meets ↦ ground (arith, meets)
  | inr past ↦ simp past (
      ap (map (λ m. w ∷ m)) (insert_vma-before new l v r a b)
      ∙ map-map (λ m. m ++ (v ∷ r)) (λ m. w ∷ m) (insert_vma new l)
      ∙ sym (map-map (λ m. w ∷ m) (λ m. m ++ (v ∷ r)) (insert_vma new l)))
]

-- On a tree of areas in the order of their addresses, find_vma_links refuses a new area exactly
-- when the insertion into the list does, and linking the area at the place it gives yields the
-- list with the area in order.
pub find_vma_links-insert_vma :
    (t : Tree) (new : Vma) (lo : ℕ) (prev : Option Vma)
    → IsLaid lo (areas t)
    → map (λ k. areas (vma_link_rb new t k.link)) (find_vma_links t new.vm_start new.vm_end prev)
      ≡ insert_vma new (areas t)
unfolding find_vma_links vma_link_rb areas insert_vma
find_vma_links-insert_vma leaf new lo prev laid = refl
find_vma_links-insert_vma (node l v r) new lo prev laid =
    let k = around lo (areas l) v (areas r) laid in
    elim (Bool-cases (ltb new.vm_start v.vm_end)) [
      | inr past ↦ simp past (
          map-map (turn right) (λ k. areas (vma_link_rb new (node l v r) k.link))
            (find_vma_links r new.vm_start new.vm_end (some v))
          ∙ sym (
              map-map (λ k. areas (vma_link_rb new r k.link)) (λ m. areas l ++ (v ∷ m))
                (find_vma_links r new.vm_start new.vm_end (some v)))
          ∙ ap (map (λ m. areas l ++ (v ∷ m)))
              (find_vma_links-insert_vma r new v.vm_end (some v) k.after)
          ∙ sym (map-map (λ m. v ∷ m) (λ m. areas l ++ m) (insert_vma new (areas r)))
          ∙ ap (map (λ m. areas l ++ m)) (sym (insert_vma-next new v (areas r) (ground arith)))
          ∙ sym (
              insert_vma-past new v.vm_start (areas l) (v ∷ areas r) k.ended
                (ground (arith, k.wide))))
      | inl meets ↦ elim (Bool-cases (ltb v.vm_start new.vm_end)) [
        | inl overlaps ↦
            simp (meets, overlaps)
              (sym
                (insert_vma-overlap new lo (areas l) v (areas r) k (ground arith) (ground arith)))
        | inr apart ↦
            simp (meets, apart)
              (map-map (turn left) (λ k. areas (vma_link_rb new (node l v r) k.link))
                  (find_vma_links l new.vm_start new.vm_end prev)
                ∙ sym (
                    map-map (λ k. areas (vma_link_rb new l k.link)) (λ m. m ++ (v ∷ areas r))
                      (find_vma_links l new.vm_start new.vm_end prev))
                ∙ ap (map (λ m. m ++ (v ∷ areas r)))
                    (find_vma_links-insert_vma l new lo prev k.before)
                ∙ sym (insert_vma-before new (areas l) v (areas r) (ground arith) (ground arith)))
      ]
    ]
