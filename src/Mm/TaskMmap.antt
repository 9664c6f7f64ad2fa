-- ===== src/Mm/TaskMmap.antt =====
-- `do_task_mmap` of src/mm/mmap.c.
use zso_ptrace.Base.{ℕ, ◌+◌, ◌^◌, ◌≤◌, ◌≡◌, refl, ◌||◌, Option, ◌==◌, bit_and, if◌then◌else◌, arith}
use zso_ptrace.Base.Run.{◌>>=◌, Ends, ends, then-Ends}
use zso_ptrace.Errno.{Errno, Ret, ok, err}
use zso_ptrace.Mm.Area.{has, vm_locked, Mm, MmState, Cmd, pure, get_mm, Outside}
use zso_ptrace.Mm.Counted.{IsWell}
use zso_ptrace.Mm.Searched.{EndsBy}
use zso_ptrace.Mm.After.{top_address}
use zso_ptrace.Mm.Protect.{Resources}
use zso_ptrace.Mm.Region.{Mapper, mmap_task_region}
use zso_ptrace.Mm.Mapped.{Keeps}
use zso_ptrace.Mm.MmapRegion.{Laying, mmap_task_region-Laying}
use zso_ptrace.Mm.Plan.{Calls, Plan, plan}
use zso_ptrace.Mm.Planned.{Sources, Sound, plan-Sound}

abbrev pub map_populate : ℕ
map_populate = 0x8000

abbrev pub map_nonblock : ℕ
map_nonblock = 0x10000

-- `*populate`, by the result.
abbrev pub populate_for : (flags : ℕ) → Plan → Ret ℕ → ℕ
populate_for flags p (err e) = 0
populate_for flags p (ok addr) =
    if has p.vm_flags vm_locked || (bit_and flags (map_populate + map_nonblock) == map_populate)
    then p.len
    else 0

module _ (out : Outside) (res : Resources) (k : Mapper) (c : Calls) where
  unfoldable pub follow_plan : (file : Option ℕ) → (flags : ℕ) → Ret Plan → Cmd (Ret ℕ × ℕ)
  follow_plan file flags (err e) = pure (err e, 0)
  follow_plan file flags (ok p) = do
    r ← mmap_task_region out res k file p.addr p.len p.vm_flags p.pgoff
    pure (r, populate_for flags p r)

  -- `do_task_mmap`: what it returns, and what it leaves in `*populate`.
  unfoldable pub do_task_mmap :
      (file : Option ℕ) → (addr len prot flags vm_flags pgoff : ℕ) → Cmd (Ret ℕ × ℕ)
  do_task_mmap file addr len prot flags g pgoff = do
    mm ← get_mm
    follow_plan file flags (plan c out mm file addr len prot flags g pgoff)

-- How `do_task_mmap` ends.
pub data TaskMapped (out : Outside) (res : Resources) (k : Mapper) (c : Calls) (file : Option ℕ)
    (addr len prot flags pgoff : ℕ) (m : Mm) : Ret ℕ × ℕ → Mm → Type 0 where
  turned_down :
      {e : Errno}
      → plan c out m file addr len prot flags 0 pgoff ≡ err e
      → TaskMapped out res k c file addr len prot flags pgoff m (err e, 0) m
  went_on :
      (p : Plan) {r : Ret ℕ} {n : Mm}
      → plan c out m file addr len prot flags 0 pgoff ≡ ok p
      → Sound out len p
      → Laying out res k file p.addr p.len p.vm_flags p.pgoff m r n
      → TaskMapped out res k c file addr len prot flags pgoff m (r, populate_for flags p r) n

module _ (out : Outside) (res : Resources) (k : Mapper) (c : Calls) (keeps : Keeps k)
    (sources : Sources c 22) (room : out.task_size + 4096 ≤ 2 ^ 64) (file : Option ℕ)
    (addr len prot flags pgoff : ℕ) where
  follow-TaskMapped :
      (o : Ret Plan) (s : MmState)
      → plan c out s.mm file addr len prot flags 0 pgoff ≡ o
      → IsWell s.mm
      → EndsBy top_address s.mm.mmap
      → Ends
          (λ r u. TaskMapped out res k c file addr len prot flags pgoff s.mm r u.mm)
          (follow_plan out res k c file flags o s)
  unfolding follow_plan
  follow-TaskMapped (err e) s is well ended = ends (turned_down is)
  follow-TaskMapped (ok p) s is well ended =
      let sound = plan-Sound c out s.mm file addr len prot flags pgoff p sources is in
      then-Ends
        (mmap_task_region-Laying out res k keeps file p.addr p.len p.vm_flags p.pgoff sound.aligned
          (ground (arith, sound.whole)) sound.long sound.fits room sound.small s well ended)
        (λ r u laid. ends (went_on p is sound laid))

  -- In an address space whose areas are laid out in order, counted right and end below the top,
  -- with drivers that keep the range of the area they set up and no VM_HUGETLB from the
  -- protection, the request or the defaults, do_task_mmap meets no BUG: either a check turns the
  -- call down with its error, without a change, or what it hands to mmap_task_region is a range
  -- of whole pages within TASK_SIZE, the address space is left as mmap_task_region is stated to
  -- leave it, and *populate is the length where the mapping is made and is locked or to be
  -- populated, and 0 otherwise.
  pub do_task_mmap-TaskMapped :
      (s : MmState)
      → IsWell s.mm
      → EndsBy top_address s.mm.mmap
      → Ends
          (λ r u. TaskMapped out res k c file addr len prot flags pgoff s.mm r u.mm)
          (do_task_mmap out res k c file addr len prot flags 0 pgoff s)
  unfolding do_task_mmap
  do_task_mmap-TaskMapped s well ended = follow-TaskMapped _ s refl well ended
