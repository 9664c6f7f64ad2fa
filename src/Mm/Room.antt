-- ===== src/Mm/Room.antt =====
-- The limit on the size of an address space, where src/mm/mmap.c tests it before it maps a range over
-- what is there.
use zso_ptrace.Base.{ℕ, ◌+◌, ◌^◌, ◌≤◌, ◌<◌, ◌≡◌, ap, inl, inr, true, none, arith, Bool-cases}
use zso_ptrace.Mm.Area.{add64, sub64, pages, Mm, Outside}
use zso_ptrace.Mm.Count.{Limits, may_expand_vm, has_room, count_vma_pages_range}
use zso_ptrace.Mm.Outcome.{Unmapping, taken}

pub may_expand_vm-bound :
    (k : Limits) (mm : Mm) (flags n : ℕ)
    → may_expand_vm k mm flags n ≡ true
    → add64 mm.total_vm n ≤ pages k.rlimit_as
unfolding may_expand_vm
may_expand_vm-bound k mm flags n e = ground (arith, e)

-- Where the test of mmap_task_region for the address space limit lets a range pass and do_munmap
-- takes the range out, the pages that are left and those of the new range are within RLIMIT_AS,
-- for sizes that fit in 64 bits.
pub has_room-bound :
    (k : Limits) (out : Outside) (mm u : Mm) (addr len flags : ℕ)
    → addr + len < 2 ^ 64
    → mm.total_vm + pages len < 2 ^ 64
    → Unmapping out addr (addr + len) mm none u
    → has_room k mm addr len flags ≡ true
    → u.total_vm + pages len ≤ pages k.rlimit_as
unfolding has_room
has_room-bound k out mm u addr len flags fits small (taken w view count) room =
    let n = pages len in
    let c = count_vma_pages_range mm.mmap addr (add64 addr len) in
    let same : add64 addr len ≡ addr + len = omega arith in
    elim (Bool-cases (may_expand_vm k mm flags n)) [
      | inl all ↦ omega (arith, may_expand_vm-bound k mm flags n all)
      | inr less ↦ omega (
        arith,
        may_expand_vm-bound k mm flags (sub64 n c) (simp less at room),
        same,
        ap (count_vma_pages_range mm.mmap addr) same,
      )
    ]
