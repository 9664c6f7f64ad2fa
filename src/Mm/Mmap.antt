-- ===== src/Mm/Mmap.antt =====
-- `mmap_task_region` of src/mm/mmap.c.
use zso_ptrace.Base.{
  ℕ, ◌+◌, ◌%◌, ◌^◌, ◌<◌, ◌≡◌, refl, sym, ap, ◌∙◌, inl, inr, Bool, true, false, ◌&&◌, Option, none,
  some, ltb, leb, bit_or, if◌then◌else◌, arith, Bool-cases,
}
use zso_ptrace.Base.Run.{Ends, ends, then-Ends}
use zso_ptrace.Base.Branch.{if-Ends}
use zso_ptrace.Errno.{ok}
use zso_ptrace.Mm.Area.{add64, has, vm_special, vm_hugetlb, vm_softdirty, Vma, Mm, MmState, Outside}
use zso_ptrace.Mm.Laid.{Mapping}
use zso_ptrace.Mm.Counted.{IsWell, total_pages}
use zso_ptrace.Mm.Merge.{vma_merge}
use zso_ptrace.Mm.Searched.{EndsBy}
use zso_ptrace.Mm.After.{top_address}
use zso_ptrace.Mm.Agrees.{soft_at, requested, new_pages}
use zso_ptrace.Mm.Protect.{Resources, merge_done, merge_areas}
use zso_ptrace.Mm.Joined.{Joined, not_joined, joined, merge_areas-Joined}
use zso_ptrace.Mm.Region.{
  Mapper, new_area, region_request, settle_flags, after_try_merge, map_charged,
}
use zso_ptrace.Mm.Vacant.{IsFree, IsFree-IsPlaced, IsFree-soft_at}
use zso_ptrace.Mm.Settled.{
  update-GrewAt, grown_plain, grown_word, Settles, finish_region-Settles, Settles-IsWell,
}
use zso_ptrace.Mm.Sets.{set_up-Sets}
use zso_ptrace.Mm.Mapped.{
  Keeps, last_flags, as_asked, no_area, Mapped, unmade, mapped, few_pages, after_setup-Mapped,
}

last_flags-same : (file : Option ℕ) (g : ℕ) (w : Vma) → w.vm_flags ≡ g → last_flags file g w ≡ g
last_flags-same none g w same = refl
last_flags-same (some f) g w same = same

requested_or :
    (b : Bool) (o : Option Mapping) (p q : Mapping)
    → p ≡ q
    → (if b then some p else o) ≡ (if b then some q else o)
requested_or b o p q same = ap (λ r. if b then some r else o) same

module _ (out : Outside) (res : Resources) (k : Mapper) (keeps : Keeps k) (file : Option ℕ)
    (addr len pgoff : ℕ) (al : addr % 4096 ≡ 0) (al_len : len % 4096 ≡ 0) (long : 0 < len)
    (fits : addr + len < 2 ^ 64) where
  abbrev end : ℕ
  end = addr + len

  same_end : add64 addr len ≡ end
  same_end = omega arith

  abbrev asked : ℕ → Vma
  asked g = record (new_area addr end g pgoff) { vm_file = file }

  settled_word :
      (g : ℕ)
      → has g vm_special ≡ false
      → has g vm_hugetlb ≡ false
      → bit_or (settle_flags k (last_flags file g (asked g)) (asked g)).vm_flags vm_softdirty
        ≡ bit_or g vm_softdirty
  settled_word g plain small = rw (last_flags-same file g (asked g) refl) (
      grown_word k g (asked g) (
        grown_plain k g (region_request addr end g pgoff file) (asked g) refl plain small
          (keeps.gate (asked g))))

  grown-Mapped :
      (g at : ℕ) (m u n : Mm)
      → has g vm_special ≡ false
      → has g vm_hugetlb ≡ false
      → IsWell m
      → EndsBy top_address m.mmap
      → soft_at m.mmap addr ≡ none
      → Joined (region_request addr end g pgoff file) m (some at) u
      → Settles k g at len u n
      → Mapped k file addr end g pgoff m (ok addr) n
  grown-Mapped g at m u n plain small well ended is_free
        (joined laid view count total fewer same grew) settles =
      mapped (asked g) (as_asked (omega (arith, fewer, settles.count))) (refl, refl)
        (Settles-IsWell k g at len u n settles laid count
          (total
            ∙ (ap (λ o. total_pages m.mmap + new_pages (region_request addr end g pgoff file) o)
                  is_free
                ∙ omega (arith, same, well.total)))
          (few_pages out res k keeps file addr len pgoff al al_len long fits m u laid ended
            (λ x ge. view x ∙ (ground arith))))
        (λ x.
          ap (λ l. soft_at l x) settles.areas
          ∙ update-GrewAt k g (region_request addr end g pgoff file) at x u.mmap grew plain small
              keeps.gate
          ∙ view x
          ∙ requested_or (leb addr x && ltb x end) (soft_at m.mmap x) _ _ (
              ap
                (λ (b : ℕ). record (requested (region_request addr end g pgoff file) x) {
                  flags = b;
                })
                (sym (settled_word g plain small))))

  special_apart :
      (g : ℕ) (prev : Option ℕ) (s : MmState)
      → has g vm_special ≡ true
      → Ends
          (λ o u. (o ≡ none) × (u.mm ≡ s.mm))
          (merge_areas out res prev (region_request addr end g pgoff file) s)
  unfolding merge_areas vma_merge merge_done
  special_apart g prev s special = simp special (ends (refl, refl))

  unmerged-Mapped :
      (prev : Option ℕ) (g charged : ℕ) (m : Mm) (s : MmState)
      → s.mm ≡ m
      → IsWell m
      → EndsBy top_address m.mmap
      → IsFree addr end prev m.mmap
      → Ends
          (λ r u. Mapped k file addr end g pgoff m r u.mm)
          (after_try_merge out res k prev file addr len g pgoff charged none s)
  unfolding after_try_merge
  unmerged-Mapped prev g charged m s same well ended is_free = rw same_end (
      if-Ends k.alloc_area _ _ s
        (λ can.
          then-Ends (set_up-Sets k (new_area addr end g pgoff) m file s same) (λ r u (sets, kept).
            after_setup-Mapped out res k keeps file addr len pgoff al al_len long fits g charged
              prev m r u kept can sets well ended is_free))
        (λ no. ends (unmade (no_area no) same)))

  merged-Mapped :
      (prev : Option ℕ) (g charged : ℕ) (m : Mm) (o : Option ℕ) (u : MmState)
      → has g vm_special ≡ false
      → has g vm_hugetlb ≡ false
      → IsWell m
      → EndsBy top_address m.mmap
      → IsFree addr end prev m.mmap
      → Joined (region_request addr end g pgoff file) m o u.mm
      → Ends
          (λ r z. Mapped k file addr end g pgoff m r z.mm)
          (after_try_merge out res k prev file addr len g pgoff charged o u)
  merged-Mapped prev g charged m none u plain small well ended is_free (not_joined same) =
      unmerged-Mapped prev g charged m u same well ended is_free
  merged-Mapped prev g charged m (some at) u plain small well ended is_free join =
      unfold after_try_merge in
      then-Ends (finish_region-Settles k g at len u) (λ _ n settles. ends (
        grown-Mapped g at m u.mm n.mm plain small well ended
          (IsFree-soft_at addr end addr prev m.mmap well.laid is_free (omega arith) (omega arith))
          join settles))

  pub map_charged-Mapped :
      (prev : Option ℕ) (g charged : ℕ) (s : MmState)
      → has g vm_hugetlb ≡ false
      → IsWell s.mm
      → EndsBy top_address s.mm.mmap
      → IsFree addr end prev s.mm.mmap
      → Ends
          (λ r u. Mapped k file addr end g pgoff s.mm r u.mm)
          (map_charged out res k prev file addr len g pgoff charged s)
  unfolding map_charged
  map_charged-Mapped prev g charged s small well ended is_free =
      rw same_end (elim (Bool-cases (has g vm_special)) [
        | inl special ↦ then-Ends (special_apart g prev s special) (λ o u (is, same).
            rw is (unmerged-Mapped prev g charged s.mm u same well ended is_free))
        | inr plain ↦
            then-Ends
              (merge_areas-Joined out res prev (region_request addr end g pgoff file) s al
                (ground (arith, al, al_len)) (omega arith) (omega arith) well ended
                (IsFree-IsPlaced (region_request addr end g pgoff file) prev s.mm.mmap (omega arith)
                  is_free))
              (λ o u join.
                merged-Mapped prev g charged s.mm o u plain small well ended is_free join)
      ])
