-- ===== src/Mm/MmapRegion.antt =====
-- `mmap_task_region` of src/mm/mmap.c as a whole.
use zso_ptrace.Base.{
  ℕ, ◌+◌, ◌%◌, ◌^◌, ◌≤◌, ◌<◌, ◌≡◌, refl, ap, ◌∙◌, subst, Bool, true, false, ◌&&◌, Option, none,
  some, ltb, leb, ◌!=◌, bit_or, if◌then◌else◌, arith,
}
use zso_ptrace.Base.Bits.{bit_and-bit_or}
use zso_ptrace.Base.Run.{Ends, ends, then-Ends, weaken}
use zso_ptrace.Base.Branch.{if-Ends}
use zso_ptrace.Errno.{Errno, enomem, Ret, ok, err}
use zso_ptrace.Mm.Area.{pages, has, vm_hugetlb, vm_account, Vma, Mm, MmState, Outside}
use zso_ptrace.Mm.Laid.{Mapping}
use zso_ptrace.Mm.Counted.{IsWell}
use zso_ptrace.Mm.Searched.{EndsBy}
use zso_ptrace.Mm.After.{top_address}
use zso_ptrace.Mm.Agrees.{soft_in, soft_at}
use zso_ptrace.Mm.Munmap.{Refusal}
use zso_ptrace.Mm.Count.{has_room}
use zso_ptrace.Mm.Protect.{Resources}
use zso_ptrace.Mm.Changed.{EndsBy-view}
use zso_ptrace.Mm.Region.{
  Mapper, accountable_mapping, settle_flags, map_cleared, map_at, mmap_task_region,
}
use zso_ptrace.Mm.Vacant.{IsFree}
use zso_ptrace.Mm.Cleared.{if_clear, Cleared, uncleared, cleared, clear_range-Cleared}
use zso_ptrace.Mm.Mapped.{Keeps, last_flags, Made, Unmade, Mapped, unmade, mapped}
use zso_ptrace.Mm.Mmap.{map_charged-Mapped}

-- The flags of the new mapping, with the charge.
abbrev pub charged_flags : Mapper → Option ℕ → ℕ → ℕ
charged_flags k file flags =
    if accountable_mapping k file flags then bit_or flags vm_account else flags

-- An address space with a range taken out, and with an area laid over it.
pub record ClearedOut (addr end : ℕ) (m n : Mm) : Type 0 where
  pub well : IsWell n
  pub view : (x : ℕ) → soft_at n.mmap x ≡ if_clear addr end x (soft_at m.mmap x)

-- The memory has the pages that are charged.
abbrev pub Paid : (res : Resources) (k : Mapper) (file : Option ℕ) (len flags : ℕ) → Type 0
Paid res k file len flags =
    accountable_mapping k file flags ≡ true → res.enough_memory (pages len) ≡ true

-- How `mmap_task_region` ends: without room and without memory to clear the range nothing changes; behind
-- that the range is clear where it fails, and holds the new mapping where it does not.
pub data Laying (out : Outside) (res : Resources) (k : Mapper) (file : Option ℕ)
    (addr len flags pgoff : ℕ) (m : Mm) : Ret ℕ → Mm → Type 0 where
  no_room :
      {n : Mm}
      → has_room res.limits m addr len flags ≡ false
      → n ≡ m
      → Laying out res k file addr len flags pgoff m (err enomem) n
  not_cleared :
      {n : Mm} (e : Errno)
      → has_room res.limits m addr len flags ≡ true
      → Refusal out m.map_count e
      → IsWell n
      → ((x : ℕ) → soft_at n.mmap x ≡ soft_at m.mmap x)
      → Laying out res k file addr len flags pgoff m (err enomem) n
  not_charged :
      {n : Mm}
      → has_room res.limits m addr len flags ≡ true
      → res.enough_memory (pages len) ≡ false
      → accountable_mapping k file flags ≡ true
      → ClearedOut addr (addr + len) m n
      → Laying out res k file addr len flags pgoff m (err enomem) n
  not_made :
      {e : Errno} {n : Mm}
      → has_room res.limits m addr len flags ≡ true
      → Paid res k file len flags
      → Unmade k file addr (addr + len) (charged_flags k file flags) pgoff e
      → ClearedOut addr (addr + len) m n
      → Laying out res k file addr len flags pgoff m (err e) n
  made_at :
      {c n : Mm} (w : Vma)
      → has_room res.limits m addr len flags ≡ true
      → Paid res k file len flags
      → ClearedOut addr (addr + len) m c
      → Made k file addr (addr + len) (charged_flags k file flags) pgoff c.map_count n.map_count w
      → (w.vm_start ≡ addr) × (w.vm_end ≡ addr + len)
      → IsWell n
      → ((x : ℕ)
          → soft_at n.mmap x ≡ (
              if leb addr x && ltb x (addr + len)
              then some
                  (soft_in (settle_flags k (last_flags file (charged_flags k file flags) w) w) x)
              else soft_at m.mmap x))
      → Laying out res k file addr len flags pgoff m (ok addr) n

-- Laid over a range that was cleared first.
over_clear :
    (b : Bool) (p q o : Option Mapping)
    → q ≡ (if b then none else o)
    → (if b then p else q) ≡ (if b then p else o)
over_clear true p q o same = refl
over_clear false p q o same = same

none_clear : (b : Bool) (o : Option Mapping) → o ≡ none → (if b then none else o) ≡ none
none_clear true o is = refl
none_clear false o is = is

module _ (out : Outside) (res : Resources) (k : Mapper) (keeps : Keeps k) (file : Option ℕ)
    (addr len flags pgoff : ℕ) (al : addr % 4096 ≡ 0) (al_len : len % 4096 ≡ 0) (long : 0 < len)
    (fits : addr + len ≤ out.task_size) (room : out.task_size + 4096 ≤ 2 ^ 64)
    (small : has flags vm_hugetlb ≡ false) where
  abbrev g : ℕ
  g = charged_flags k file flags

  charged_small : has (bit_or flags vm_account) vm_hugetlb ≡ false
  charged_small = ap (λ (b : ℕ). b != 0) (bit_and-bit_or 20 22 flags (omega arith)) ∙ small

  with_charge : accountable_mapping k file flags ≡ true → bit_or flags vm_account ≡ g
  with_charge counts = rw counts refl

  without_charge : accountable_mapping k file flags ≡ false → flags ≡ g
  without_charge free = rw free refl

  cleared-Laying :
      (m : Mm) (r : Ret ℕ) (n z : Mm)
      → has_room res.limits m addr len flags ≡ true
      → Paid res k file len flags
      → ClearedOut addr (addr + len) m n
      → Mapped k file addr (addr + len) g pgoff n r z
      → Laying out res k file addr len flags pgoff m r z
  cleared-Laying m r n z fits paid c (unmade {e} why same) = not_made fits paid why (rw same c)
  cleared-Laying m r n z fits paid c (mapped w is range well view) =
      made_at w fits paid c is range well
        (λ x. view x ∙ over_clear (leb addr x && ltb x (addr + len)) _ _ _ (c.view x))

  map_cleared-Laying :
      (m : Mm) (q : Option ℕ) (u : MmState)
      → has_room res.limits m addr len flags ≡ true
      → ClearedOut addr (addr + len) m u.mm
      → EndsBy top_address m.mmap
      → IsFree addr (addr + len) q u.mm.mmap
      → Ends
          (λ r z. Laying out res k file addr len flags pgoff m r z.mm)
          (map_cleared out res k q file addr len flags pgoff u)
  unfolding map_cleared
  map_cleared-Laying m q u has_space c ended is_free =
      let top : EndsBy top_address u.mm.mmap =
        EndsBy-view top_address m.mmap u.mm.mmap c.well.laid ended (λ x is.
          c.view x ∙ none_clear (leb addr x && ltb x (addr + len)) (soft_at m.mmap x) is) in
      if-Ends (accountable_mapping k file flags) _ _ u
        (λ counts.
          if-Ends (res.enough_memory (pages len)) _ _ u
            (λ pays.
              weaken
                (λ r z p.
                  cleared-Laying m r u.mm z.mm has_space (λ _. pays) c
                    (subst (λ h. Mapped k file addr (addr + len) h pgoff u.mm r z.mm)
                      (with_charge counts) p))
                (map_charged-Mapped out res k keeps file addr len pgoff al al_len long
                  (omega (arith, fits, room)) q (bit_or flags vm_account) (pages len) u
                  charged_small c.well top is_free))
            (λ poor. ends (not_charged has_space poor counts c)))
        (λ free.
          weaken
            (λ r z p.
              cleared-Laying m r u.mm z.mm has_space
                (λ counts. absurd (ground (arith, free, counts))) c
                (subst (λ h. Mapped k file addr (addr + len) h pgoff u.mm r z.mm)
                  (without_charge free) p))
            (map_charged-Mapped out res k keeps file addr len pgoff al al_len long
              (omega (arith, fits, room)) q flags 0 u small c.well top is_free))

  map_at-Laying :
      (m : Mm) (r : Ret (Option ℕ)) (u : MmState)
      → has_room res.limits m addr len flags ≡ true
      → EndsBy top_address m.mmap
      → Cleared out addr (addr + len) m r u.mm
      → Ends
          (λ r z. Laying out res k file addr len flags pgoff m r z.mm)
          (map_at out res k file addr len flags pgoff r u)
  unfolding map_at
  map_at-Laying m (err e) u has_space ended (uncleared why is well view) =
      ends (not_cleared why has_space is well view)
  map_at-Laying m (ok q) u has_space ended (cleared well view is_free) =
      map_cleared-Laying m q u has_space (record { well = well; view = view }) ended is_free

  -- For a range of whole pages within TASK_SIZE, flags without VM_HUGETLB, drivers that keep the
  -- range of the area they set up and a gate that is no area of the list, in an address space
  -- whose areas are laid out in order, counted right and end below the top, mmap_task_region
  -- meets no BUG and its loop ends. Over the address space limit it is ENOMEM without a change;
  -- where do_munmap fails it is ENOMEM and every address is mapped as before; where the memory
  -- cannot be charged, there is no area or it cannot be set up for its file it is that error with
  -- the range clear; and only where the limit leaves room, the memory has what is charged and
  -- every grant that the file needs is given it gives the start of the range, every address of
  -- the range is mapped as the set up and the flags ask for, in an area that was there or in one
  -- more, and in all cases every other address is mapped as before, VM_SOFTDIRTY aside, and the
  -- areas are laid out and counted right.
  pub mmap_task_region-Laying :
      (s : MmState)
      → IsWell s.mm
      → EndsBy top_address s.mm.mmap
      → Ends
          (λ r z. Laying out res k file addr len flags pgoff s.mm r z.mm)
          (mmap_task_region out res k file addr len flags pgoff s)
  unfolding mmap_task_region
  mmap_task_region-Laying s well ended =
      if-Ends (has_room res.limits s.mm addr len flags) _ _ s
        (λ fits_in.
          then-Ends (clear_range-Cleared out addr len al al_len long fits room s well)
            (λ r u c. map_at-Laying s.mm r u fits_in ended c))
        (λ no. ends (no_room no refl))
