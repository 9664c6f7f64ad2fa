-- ===== src/Mm/Shapes.antt =====
-- The areas that the cases of `vma_merge` in src/mm/mmap.c stretch, and what they map.
use zso_ptrace.Base.{ℕ, ◌-◌, ◌%◌, ◌^◌, ◌≤◌, ◌<◌, ◌≡◌, refl, sym, ◌∙◌, Option, arith}
use zso_ptrace.Mm.Area.{add64, sub64, pages, Vma}
use zso_ptrace.Mm.Laid.{Mapping}
use zso_ptrace.Mm.Merge.{Request}
use zso_ptrace.Mm.Agrees.{soft_in, requested, Agrees}

mapping_eq :
    (f g : ℕ) (a b : Option ℕ) (p q : ℕ)
    → f ≡ g
    → a ≡ b
    → p ≡ q
    → Path Mapping
        (record { flags = f; file = a; page = p })
        (record { flags = g; file = b; page = q })
mapping_eq f g a b p q e h i = rw (e, h, i) refl

-- An area that reaches the range from below maps it as requested.
pub soft_in-above :
    (v : Vma) (r : Request) (x : ℕ)
    → Agrees v r
    → add64 v.vm_pgoff (pages (r.addr - v.vm_start)) ≡ r.pgoff
    → v.vm_start % 4096 ≡ 0
    → r.addr % 4096 ≡ 0
    → v.vm_start ≤ r.addr
    → r.addr ≤ x
    → soft_in v x ≡ requested r x
soft_in-above v r x ag off sa ra le lx =
    mapping_eq _ _ _ _ _ _ ag.same_word ag.same_file (omega (arith, off))

-- It goes on as the area at the end of the range does, if that agrees with the request too.
pub soft_in-over :
    (v n : Vma) (r : Request) (x : ℕ)
    → Agrees v r
    → Agrees n r
    → add64 v.vm_pgoff (pages (r.addr - v.vm_start)) ≡ r.pgoff
    → n.vm_pgoff ≡ add64 r.pgoff (pages (r.end - r.addr))
    → r.end ≡ n.vm_start
    → v.vm_start % 4096 ≡ 0
    → r.addr % 4096 ≡ 0
    → r.end % 4096 ≡ 0
    → v.vm_start ≤ r.addr
    → r.addr < r.end
    → r.end ≤ x
    → soft_in v x ≡ soft_in n x
soft_in-over v n r x ag ah off next at sa ra ea le lt lx =
    mapping_eq _ _ _ _ _ _ (ag.same_word ∙ sym ah.same_word) (ag.same_file ∙ sym ah.same_file)
      (rw (← at) (omega (arith, off, next)))

-- The area at the end of the range when it has grown down over the range.
abbrev pub lowered : Request → Vma → Vma
lowered r n = record n { vm_start = r.addr; vm_pgoff = sub64 n.vm_pgoff (pages (r.end - r.addr)) }

module _ (n : Vma) (r : Request) (x : ℕ)
    (next : n.vm_pgoff ≡ add64 r.pgoff (pages (r.end - r.addr))) (at : r.end ≡ n.vm_start)
    (ra : r.addr % 4096 ≡ 0) (ea : r.end % 4096 ≡ 0) (lt : r.addr < r.end)
    (top : r.end ≤ 2 ^ 64) where
  pub lowered-requested : Agrees n r → r.addr ≤ x → soft_in (lowered r n) x ≡ requested r x
  lowered-requested ag lx = mapping_eq _ _ _ _ _ _ ag.same_word ag.same_file (omega (arith, next))

  pub lowered-same : r.end ≤ x → soft_in (lowered r n) x ≡ soft_in n x
  lowered-same lx = mapping_eq _ _ _ _ _ _ refl refl (rw (← at) (omega (arith, next)))
