-- ===== src/Mm/Count.antt =====
-- `count_vma_pages_range` and `may_expand_vm` of src/mm/mmap.c.
use zso_ptrace.Base.{
  ℕ, ◌-◌, Bool, true, false, ◌&&◌, List, [], ◌∷◌, ltb, leb, ◌==◌, ◌||◌, if◌then◌else◌,
}
use zso_ptrace.Mm.Area.{add64, sub64, pages, Vma, Mm, is_data_mapping}
use zso_ptrace.Mm.Removed.{high}

abbrev pub min : ℕ → ℕ → ℕ
min a b = if ltb a b then a else b

abbrev pub max : ℕ → ℕ → ℕ
max a b = if ltb a b then b else a

-- The loop, with `nr_pages`.
unfoldable pub count_rest : (end nr_pages : ℕ) → List Vma → ℕ
count_rest end nr_pages [] = nr_pages
count_rest end nr_pages (v ∷ l) =
    if ltb end v.vm_start
    then nr_pages
    else count_rest end (add64 nr_pages (pages (min end v.vm_end - v.vm_start))) l

-- From the area that `find_vma` gives on, with the test of `find_vma_intersection`.
unfoldable pub count_from : (addr end : ℕ) → List Vma → ℕ
unfolding count_rest
count_from addr end [] = 0
count_from addr end (v ∷ l) =
    if leb end v.vm_start
    then 0
    else count_rest end (pages (min end v.vm_end - max addr v.vm_start)) l

-- `count_vma_pages_range`
unfoldable pub count_vma_pages_range : List Vma → (addr end : ℕ) → ℕ
unfolding count_from high
count_vma_pages_range l addr end = count_from addr end (high addr l)

-- The limits that `may_expand_vm` reads: those of the caller, whatever address space it asks about.
pub record Limits : Type 0 where
  pub rlimit_as : ℕ
  pub rlimit_data : ℕ
  pub rlimit_data_max : ℕ
  pub ignore_rlimit_data : Bool

-- `may_expand_vm`
unfoldable pub may_expand_vm : Limits → Mm → (flags npages : ℕ) → Bool
unfolding is_data_mapping
may_expand_vm k mm flags npages =
    if ltb (pages k.rlimit_as) (add64 mm.total_vm npages)
    then false
    else if is_data_mapping flags && ltb (pages k.rlimit_data) (add64 mm.data_vm npages)
    then (if (k.rlimit_data == 0) && leb (add64 mm.data_vm npages) (pages k.rlimit_data_max)
        then true
        else k.ignore_rlimit_data)
    else true

-- The first test of `mmap_task_region`: the limits, for the pages of the range that are not mapped yet
-- where there is no room for all of them.
unfoldable pub has_room : Limits → Mm → (addr len vm_flags : ℕ) → Bool
unfolding may_expand_vm count_vma_pages_range
has_room k mm addr len flags =
    may_expand_vm k mm flags (pages len)
    || may_expand_vm k mm flags
        (sub64 (pages len) (count_vma_pages_range mm.mmap addr (add64 addr len)))
