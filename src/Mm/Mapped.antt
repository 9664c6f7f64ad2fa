-- ===== src/Mm/Mapped.antt =====
-- `mmap_task_region` of src/mm/mmap.c behind the loop that clears the range.
use zso_ptrace.Base.{
  ℕ, ◌+◌, ◌%◌, ◌^◌, ◌≤◌, ◌<◌, ◌≡◌, refl, sym, ap, true, ◌∙◌, subst, false, is_some, ◌&&◌, Option,
  some, ltb, leb, if◌then◌else◌, arith,
}
use zso_ptrace.Base.Run.{Ends, ends, then-Ends}
use zso_ptrace.Errno.{Errno, enomem, Ret, ok, err}
use zso_ptrace.Mm.Area.{Vma, Mm, MmState, vma_pages, Outside}
use zso_ptrace.Mm.Laid.{IsLaid, Mapping}
use zso_ptrace.Mm.Counted.{IsWell, total_pages}
use zso_ptrace.Mm.Searched.{EndsBy}
use zso_ptrace.Mm.After.{top_address}
use zso_ptrace.Mm.Agrees.{soft_in, soft_at}
use zso_ptrace.Mm.Protect.{Resources}
use zso_ptrace.Mm.Changed.{none_above, ended_by}
use zso_ptrace.Mm.Region.{
  Mapper, new_area, Setup, made, failed, failed_late, vma_link, link_list, settle_flags,
  after_setup,
}
use zso_ptrace.Mm.Vacant.{IsFree, Linked, IsFree-Linked}
use zso_ptrace.Mm.Settled.{
  total_pages-EndsBy, update-StandsAt, Settles, finish_region-Settles, Settles-IsWell,
}
use zso_ptrace.Mm.Sets.{Sets, plain, zeroed, by_file, link_file-same, release_file-same}

-- A range that is written twice.
over_twice :
    (a e b f x : ℕ) (o p q r : Option Mapping)
    → a ≡ b
    → e ≡ f
    → q ≡ (if leb a x && ltb x e then p else r)
    → (if leb a x && ltb x e then o else q) ≡ (if leb b x && ltb x f then o else r)
over_twice a e b f x o p q r starts stops same = ground arith

-- What the drivers promise: an area that they set up keeps its range, and none is the gate.
pub record Keeps (k : Mapper) : Type 0 where
  pub mmap :
      (f : ℕ) (v w : Vma)
      → k.file_mmap f v ≡ ok w
      → (w.vm_start ≡ v.vm_start) × (w.vm_end ≡ v.vm_end)
  pub zero : (v w : Vma) → k.zero_setup v ≡ ok w → (w.vm_start ≡ v.vm_start) × (w.vm_end ≡ v.vm_end)
  pub gate : (v : Vma) → k.is_gate v ≡ false

-- The flags that the mapping ends up with: those of the area where a file had it set up.
abbrev pub last_flags : Option ℕ → (vm_flags : ℕ) → Vma → ℕ
last_flags file g w = if is_some file then w.vm_flags else g

-- What stands in the range, by the counts of areas before and after: the area as asked for, which another
-- has taken in, or a new one, as the file or the memory behind it made it.
pub data Made (k : Mapper) (file : Option ℕ) (addr end g pgoff before after : ℕ)
    : Vma → Type 0 where
  as_asked :
      after ≤ before
      → Made k file addr end g pgoff before after
          (record (new_area addr end g pgoff) { vm_file = file })
  from_set_up :
      {w : Vma}
      → k.alloc_area ≡ true
      → Sets k file (new_area addr end g pgoff) (made w)
      → after ≡ before + 1
      → Made k file addr end g pgoff before after w

-- Why there is none.
pub data Unmade (k : Mapper) (file : Option ℕ) (addr end g pgoff : ℕ) : Errno → Type 0 where
  no_area : k.alloc_area ≡ false → Unmade k file addr end g pgoff enomem
  not_set_up :
      {e : Errno}
      → k.alloc_area ≡ true
      → Sets k file (new_area addr end g pgoff) (failed e)
      → Unmade k file addr end g pgoff e
  not_set_up_late :
      {e : Errno}
      → k.alloc_area ≡ true
      → Sets k file (new_area addr end g pgoff) (failed_late e)
      → Unmade k file addr end g pgoff e

-- How mapping a free range ends.
pub data Mapped (k : Mapper) (file : Option ℕ) (addr end g pgoff : ℕ) (m : Mm)
    : Ret ℕ → Mm → Type 0 where
  unmade :
      {e : Errno} {n : Mm}
      → Unmade k file addr end g pgoff e
      → n ≡ m
      → Mapped k file addr end g pgoff m (err e) n
  mapped :
      {n : Mm} (w : Vma)
      → Made k file addr end g pgoff m.map_count n.map_count w
      → (w.vm_start ≡ addr) × (w.vm_end ≡ end)
      → IsWell n
      → ((x : ℕ)
          → soft_at n.mmap x ≡ (
              if leb addr x && ltb x end
              then some (soft_in (settle_flags k (last_flags file g w) w) x)
              else soft_at m.mmap x))
      → Mapped k file addr end g pgoff m (ok addr) n

module _ (out : Outside) (res : Resources) (k : Mapper) (keeps : Keeps k) (file : Option ℕ)
    (addr len pgoff : ℕ) (al : addr % 4096 ≡ 0) (al_len : len % 4096 ≡ 0) (long : 0 < len)
    (fits : addr + len < 2 ^ 64) where
  abbrev end : ℕ
  end = addr + len

  -- The range is below the top, so the pages are few.
  pub few_pages :
      (m n : Mm)
      → IsLaid 0 n.mmap
      → EndsBy top_address m.mmap
      → ((x : ℕ) → end ≤ x → soft_at n.mmap x ≡ soft_at m.mmap x)
      → total_pages n.mmap < 2 ^ 64
  few_pages m n laid ended same = omega (
    arith,
    total_pages-EndsBy top_address 0 n.mmap laid
        (ended_by top_address 0 n.mmap laid
          (λ x ge. same x (omega arith) ∙ none_above top_address x m.mmap ended ge))
        (omega arith),
  )

  Sets-range :
      (g : ℕ) (w : Vma)
      → Sets k file (new_area addr end g pgoff) (made w)
      → (w.vm_start ≡ addr) × (w.vm_end ≡ end)
  Sets-range g _ (plain is alone) = (refl, refl)
  Sets-range g _ (zeroed w is shares set) = keeps.zero (new_area addr end g pgoff) w set
  Sets-range g _ (by_file f w is deny write set) = keeps.mmap f _ w set

  -- Linking the area into the list.
  vma_link-Linked :
      (w : Vma) (prev : Option ℕ) (s : MmState)
      → Ends
          (λ _ u.
            (u.mm.mmap ≡ link_list prev w s.mm.mmap)
            × (u.mm.map_count ≡ s.mm.map_count + 1)
            × (u.mm.total_vm ≡ s.mm.total_vm))
          (vma_link w prev s)
  unfolding vma_link
  vma_link-Linked w prev s = then-Ends (link_file-same w w.vm_file _) (λ _ u same. ends (
    ap (λ n. n.mmap) same,
    ap (λ (n : ℕ). n + 1) (ap (λ n. n.map_count) same),
    ap (λ n. n.total_vm) same,
  ))

  settled-Mapped :
      (g : ℕ) (w : Vma) (m u n : Mm)
      → k.alloc_area ≡ true
      → Sets k file (new_area addr end g pgoff) (made w)
      → IsWell m
      → EndsBy top_address m.mmap
      → Linked w 0 m.mmap u.mmap
      → u.map_count ≡ m.map_count + 1
      → u.total_vm ≡ m.total_vm
      → Settles k (last_flags file g w) w.vm_start len u n
      → Mapped k file addr end g pgoff m (ok addr) n
  unfolding vma_pages
  settled-Mapped g w m u n can sets well ended linked count total settles =
      let (starts, stops) = Sets-range g w sets in
      let few : total_pages u.mmap < 2 ^ 64 =
        few_pages m u linked.laid ended (λ x ge. ground (arith, linked.view x, stops)) in
      mapped w (from_set_up can sets (settles.count ∙ count)) (starts, stops)
        (Settles-IsWell k (last_flags file g w) w.vm_start len u n settles linked.laid
          (count ∙ ap (λ (n : ℕ). n + 1) well.counted ∙ sym linked.more)
          (linked.more_pages ∙ omega (arith, starts, stops, well.total, total)) few)
        (λ x.
          ap (λ l. soft_at l x) settles.areas
          ∙ update-StandsAt k (last_flags file g w) w 0 x u.mmap linked.laid linked.stands
          ∙ over_twice w.vm_start w.vm_end addr end x _ _ _ _ starts stops (linked.view x))

  made-Mapped :
      (g charged : ℕ) (v w : Vma) (prev : Option ℕ) (s : MmState)
      → k.alloc_area ≡ true
      → Sets k file (new_area addr end g pgoff) (made w)
      → IsWell s.mm
      → EndsBy top_address s.mm.mmap
      → IsFree addr end prev s.mm.mmap
      → Ends
          (λ r u. Mapped k file addr end g pgoff s.mm r u.mm)
          (after_setup k prev file g len charged v (made w) s)
  unfolding after_setup
  made-Mapped g charged v w prev s can sets well ended is_free =
      let (starts, stops) = Sets-range g w sets in
      let free_w : IsFree w.vm_start w.vm_end prev s.mm.mmap =
        subst (λ a. IsFree a w.vm_end prev s.mm.mmap) (sym starts)
          (subst (λ e. IsFree addr e prev s.mm.mmap) (sym stops) is_free) in
      let linked : Linked w 0 s.mm.mmap (link_list prev w s.mm.mmap) =
        IsFree-Linked w prev s.mm.mmap well.laid (omega (arith, starts, stops))
          (ground (arith, starts, al)) (ground (arith, stops, al, al_len)) free_w in
      then-Ends (vma_link-Linked w prev s) (λ _ a (areas, count, total).
        then-Ends (release_file-same k file (last_flags file g w) a) (λ _ b same.
          then-Ends (finish_region-Settles k (last_flags file g w) w.vm_start len b) (λ _ n settles.
            ends (
              subst (λ a. Mapped k file addr end g pgoff s.mm (ok a) n.mm) (sym starts)
                (settled-Mapped g w s.mm b.mm n.mm can sets well ended
                  (subst (Linked w 0 s.mm.mmap) (sym (ap (λ n. n.mmap) same ∙ areas)) linked)
                  (ap (λ n. n.map_count) same ∙ count) (ap (λ n. n.total_vm) same ∙ total)
                  settles)))))

  pub after_setup-Mapped :
      (g charged : ℕ) (prev : Option ℕ) (m : Mm) (r : Setup) (s : MmState)
      → s.mm ≡ m
      → k.alloc_area ≡ true
      → Sets k file (new_area addr end g pgoff) r
      → IsWell m
      → EndsBy top_address m.mmap
      → IsFree addr end prev m.mmap
      → Ends
          (λ r u. Mapped k file addr end g pgoff m r u.mm)
          (after_setup k prev file g len charged (new_area addr end g pgoff) r s)
  unfolding after_setup
  after_setup-Mapped g charged prev m (failed e) s same can sets well ended is_free =
      ends (unmade (not_set_up can sets) same)
  after_setup-Mapped g charged prev m (failed_late e) s same can sets well ended is_free =
      ends (unmade (not_set_up_late can sets) same)
  after_setup-Mapped g charged prev m (made w) s same can sets well ended is_free =
      subst
        (λ n.
          Ends (λ r u. Mapped k file addr end g pgoff n r u.mm)
            (after_setup k prev file g len charged (new_area addr end g pgoff) (made w) s))
        same
        (made-Mapped g charged (new_area addr end g pgoff) w prev s can sets
          (subst IsWell (sym same) well) (subst (λ n. EndsBy top_address n.mmap) (sym same) ended)
          (subst (λ n. IsFree addr end prev n.mmap) (sym same) is_free))
