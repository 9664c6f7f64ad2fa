-- ===== src/Mm/Tree.antt =====
-- The tree of areas in src/mm/mmap.c: `find_vma`, `find_vma_links` and `__vma_link_rb`. The colours
-- and the gaps of the nodes are left out: they bear on the shape of a tree, not on its order.
use zso_ptrace.Base.{ℕ, Option, none, some, List, [], ◌∷◌, ◌++◌, ltb, leb, if◌then◌else◌}
use mathlib.Core.Option.{map}
use zso_ptrace.Mm.Area.{Vma}

pub data Tree : Type 0 where
  leaf : Tree
  node : (rb_left : Tree) → Vma → (rb_right : Tree) → Tree

-- The areas in order.
unfoldable pub areas : Tree → List Vma
areas leaf = []
areas (node l v r) = areas l ++ (v ∷ areas r)

-- The loop of `find_vma`, with the area found so far.
unfoldable pub find_in : Tree → (addr : ℕ) → (vma : Option Vma) → Option Vma
find_in leaf addr vma = vma
find_in (node l v r) addr vma =
    if ltb addr v.vm_end
    then (if leb v.vm_start addr then some v else find_in l addr (some v))
    else find_in r addr vma

-- `find_vma`, with what `vmacache_find` gives.
unfoldable pub find_vma_tree : (cached : Option Vma) → Tree → (addr : ℕ) → Option Vma
unfolding find_in
find_vma_tree (some v) t addr = some v
find_vma_tree none t addr = find_in t addr none

-- The place of a new node: the turns from the root, and the area before it.
pub data Side : Type 0 where
  left : Side
  right : Side

pub record Links : Type 0 where
  pub prev : Option Vma
  pub link : List Side

abbrev pub turn : Side → Links → Links
turn side k = record k { link = side ∷ k.link }

-- `find_vma_links`, `none` for ENOMEM.
unfoldable pub find_vma_links : Tree → (addr end : ℕ) → (prev : Option Vma) → Option Links
find_vma_links leaf addr end prev = some (record { prev = prev; link = [] })
find_vma_links (node l v r) addr end prev =
    if ltb addr v.vm_end
    then (if ltb v.vm_start end then none else map (turn left) (find_vma_links l addr end prev))
    else map (turn right) (find_vma_links r addr end (some v))

-- `__vma_link_rb`
unfoldable pub vma_link_rb : Vma → Tree → List Side → Tree
vma_link_rb new leaf link = node leaf new leaf
vma_link_rb new (node l v r) [] = node l v r
vma_link_rb new (node l v r) (left ∷ link) = node (vma_link_rb new l link) v r
vma_link_rb new (node l v r) (right ∷ link) = node l v (vma_link_rb new r link)
