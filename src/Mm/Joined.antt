-- ===== src/Mm/Joined.antt =====
-- A call of `vma_merge` of src/mm/mmap.c, and `mprotect_fixup` of src/mm/mprotect.c from `success` on, on a whole
-- address space.
use zso_ptrace.Base.{
  ℕ, ◌+◌, ◌-◌, ◌%◌, ◌^◌, ◌≤◌, ◌<◌, ◌≡◌, refl, sym, subst, ◌∙◌, Option, none, some, List, [], ◌∷◌,
  arith,
}
use zso_ptrace.Base.Run.{Ends, ends, then-Ends, weaken}
use zso_ptrace.Errno.{ok}
use zso_ptrace.Mm.Area.{Vma, Mm, MmState, Outside, pages, add64, sub64, vm_stat_account}
use zso_ptrace.Mm.Unmap.{length}
use zso_ptrace.Mm.Laid.{IsLaid}
use zso_ptrace.Mm.Counted.{IsWell, total_pages}
use zso_ptrace.Mm.Merge.{Request, Merged, apart, merged, oops}
use zso_ptrace.Mm.Merges.{IsPlaced, vma_merge-Fits}
use zso_ptrace.Mm.Searched.{EndsBy}
use zso_ptrace.Mm.After.{top_address}
use zso_ptrace.Mm.Agrees.{soft_at, Fits, GrewAt, new_pages, if_requested}
use zso_ptrace.Mm.Protect.{free_merged, merge_done, set_flags, protect_area, Resources, merge_areas}
use zso_ptrace.Mm.Reflag.{set_flags-IsLaid, length-set_flags, total_pages-set_flags}

-- How a call of `vma_merge` leaves an address space.
pub data Joined (r : Request) (m : Mm) : Option ℕ → Mm → Type 0 where
  not_joined : {n : Mm} → n ≡ m → Joined r m none n
  joined :
      {at : ℕ} {n : Mm}
      → IsLaid 0 n.mmap
      → ((x : ℕ) → soft_at n.mmap x ≡ if_requested r x (soft_at m.mmap x))
      → n.map_count ≡ length n.mmap
      → total_pages n.mmap ≡ total_pages m.mmap + new_pages r (soft_at m.mmap r.addr)
      → n.map_count ≤ m.map_count
      → n.total_vm ≡ m.total_vm
      → GrewAt r at n.mmap
      → Joined r m (some at) n

free_merged-same : (l : List Vma) (s : MmState) → Ends (λ _ u. u.mm ≡ s.mm) (free_merged l s)
unfolding free_merged
free_merged-same [] s = ends refl
free_merged-same (v ∷ l) s = weaken (λ _ u e. e) (free_merged-same l _)

merge_done-Joined :
    (r : Request) (m : Merged) (s : MmState)
    → IsWell s.mm
    → Fits r 0 s.mm.mmap m
    → Ends (λ o u. Joined r s.mm o u.mm) (merge_done m s)
unfolding merge_done
merge_done-Joined r apart s w fits = ends (not_joined refl)
merge_done-Joined r oops s w fits = absurd fits
merge_done-Joined r (merged at l gone) s w (laid, view, count, total, grew) =
    then-Ends (free_merged-same gone _) (λ _ u e. ends (
      subst (λ n. Joined r s.mm (some at) n) (sym e)
        (joined laid view (omega (arith, w.counted, count)) total (omega arith) refl grew)))

pub merge_areas-Joined :
    (out : Outside) (res : Resources) (prev : Option ℕ) (r : Request) (s : MmState)
    → r.addr % 4096 ≡ 0
    → r.end % 4096 ≡ 0
    → r.addr < r.end
    → r.end ≤ 2 ^ 64
    → IsWell s.mm
    → EndsBy top_address s.mm.mmap
    → IsPlaced r prev s.mm.mmap
    → Ends (λ o u. Joined r s.mm o u.mm) (merge_areas out res prev r s)
unfolding merge_areas
merge_areas-Joined out res prev r s al al_end wide top w ends_by place =
    merge_done-Joined r _ s w
      (vma_merge-Fits out res.singular r al al_end wide top prev s.mm.mmap w.laid ends_by place)

-- The areas of an address space with other flags in one of them, and the same counters.
pub record Reflagged (at flags : ℕ) (m n : Mm) : Type 0 where
  pub same_areas : n.mmap ≡ set_flags at flags m.mmap
  pub same_count : n.map_count ≡ m.map_count
  pub same_total : n.total_vm ≡ m.total_vm

pub Reflagged-IsWell : (at f : ℕ) (m n : Mm) → Reflagged at f m n → IsWell m → IsWell n
Reflagged-IsWell at f m n k w = record {
  laid = rw k.same_areas (set_flags-IsLaid at f 0 m.mmap w.laid);
  counted = rw k.same_areas (k.same_count ∙ w.counted ∙ sym (length-set_flags at f m.mmap));
  total = rw k.same_areas (k.same_total ∙ w.total ∙ sym (total_pages-set_flags at f m.mmap));
  bounded = rw k.same_areas (rw (total_pages-set_flags at f m.mmap) w.bounded);
}

moved_pages :
    (f g n : ℕ) (m : Mm)
    → m.total_vm < 2 ^ 64
    → n ≤ 2 ^ 64
    → ((vm_stat_account add64 g n (vm_stat_account sub64 f n m)).mmap ≡ m.mmap)
      × ((vm_stat_account add64 g n (vm_stat_account sub64 f n m)).map_count ≡ m.map_count)
      × ((vm_stat_account add64 g n (vm_stat_account sub64 f n m)).total_vm ≡ m.total_vm)
unfolding vm_stat_account
moved_pages f g n m bound small = (ground arith, ground arith, ground arith)

pub protect_area-Reflagged :
    (at start end f g : ℕ) (s : MmState)
    → s.mm.total_vm < 2 ^ 64
    → end ≤ 2 ^ 64
    → Ends (λ r u. (r ≡ ok at) × Reflagged at g s.mm u.mm) (protect_area at start end f g s)
unfolding protect_area
protect_area-Reflagged at start end f g s bound top =
    let (areas, count, total) =
      moved_pages f g (pages (end - start)) (record s.mm { mmap = set_flags at g s.mm.mmap }) bound
        (omega arith) in
    ends (refl, record { same_areas = areas; same_count = count; same_total = total })
