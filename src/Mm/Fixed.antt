-- ===== src/Mm/Fixed.antt =====
-- What `mprotect_fixup` of src/mm/mprotect.c does to the addresses of a child.
use zso_ptrace.Base.{
  ℕ, ◌+◌, ◌-◌, ◌%◌, ◌^◌, ◌≤◌, ◌<◌, ◌≡◌, ◌⊎◌, refl, sym, ap, subst, ◌∙◌, inl, inr, ◌&&◌, Option,
  none, some, List, ltb, leb, ◌==◌, bit_or, arith, Bool-cases,
}
use zso_ptrace.Base.Run.{Ends, ends, then-Ends, weaken}
use zso_ptrace.Errno.{Errno, Ret, ok, err}
use zso_ptrace.Mm.Area.{Vma, Mm, MmState, Outside, pages, vm_account}
use zso_ptrace.Mm.Split.{find_vma}
use zso_ptrace.Mm.Laid.{IsLaid, cut_at, cut_at-IsLaid}
use zso_ptrace.Mm.Counted.{IsWell, total_pages}
use zso_ptrace.Mm.Merge.{Request}
use zso_ptrace.Mm.Merges.{IsPlaced}
use zso_ptrace.Mm.Searched.{EndsBy}
use zso_ptrace.Mm.After.{top_address}
use zso_ptrace.Mm.Agrees.{soft_in, soft_at, new_pages, if_requested}
use zso_ptrace.Mm.Protect.{
  Resources, charge_writable, after_split, after_merge, protect_request, protect_charged,
  mprotect_fixup,
}
use zso_ptrace.Mm.Reflag.{
  reflag_in, ExactAt, set_flags-GrewAt, set_flags-ExactAt, cut_twice-ExactAt, soft_at-find,
}
use zso_ptrace.Mm.Stands.{
  HoldsAt, HoldsAt-set_flags, GrewAt-HoldsAt, ExactAt-HoldsAt, find-HoldsAt, find_aligned,
}
use zso_ptrace.Mm.Ranged.{soft_at-cut_at, Split, not_split, both_split, split_range-Split}
use zso_ptrace.Mm.Joined.{
  Joined, not_joined, joined, merge_areas-Joined, Reflagged, Reflagged-IsWell,
  protect_area-Reflagged,
}

-- How the flags of a range are set, in an address space: not, with every address as before, or so
-- that its addresses have them, those of the rest are as before and one area holds the range.
pub data Fixed (start end flags : ℕ) (m : Mm) : Ret ℕ → Mm → Type 0 where
  not_fixed :
      {e : Errno} {n : Mm}
      → IsWell n
      → ((x : ℕ) → soft_at n.mmap x ≡ soft_at m.mmap x)
      → Fixed start end flags m (err e) n
  fixed :
      {at : ℕ} {n : Mm} (g : ℕ)
      → (g ≡ flags) ⊎ (g ≡ bit_or flags vm_account)
      → IsWell n
      → ((x : ℕ) → soft_at n.mmap x ≡ reflag_in start end g x (soft_at m.mmap x))
      → HoldsAt start end at n.mmap
      → Fixed start end flags m (ok at) n

charge_flags :
    (res : Resources) (m : Mm) (old f n g charged : ℕ)
    → charge_writable res m old f n ≡ some (g, charged)
    → (g ≡ f) ⊎ (g ≡ bit_or f vm_account)
unfolding charge_writable
charge_flags res m old f n g charged got = ground (arith, got)

module _ (out : Outside) (res : Resources) (v : Vma) (start end : ℕ) (al : start % 4096 ≡ 0)
    (al_end : end % 4096 ≡ 0) (low : v.vm_start ≤ start) (wide : start < end)
    (high : end ≤ v.vm_end) where
  requested_flags :
      (g x : ℕ) (l : List Vma)
      → v.vm_start % 4096 ≡ 0
      → find_vma l start ≡ some v
      → if_requested (protect_request v start end g) x (soft_at l x)
        ≡ reflag_in start end g x (soft_at l x)
  requested_flags g x l al_v found = elim (Bool-cases (leb start x && ltb x end)) [
    | inr beside ↦ simp beside refl
    | inl inside ↦
        let ge : start ≤ x = ground (arith, inside) in
        let lt : x < end = ground (arith, inside) in
        simp inside (rw (soft_at-find l start x v found low ge (omega arith)) (ground arith))
  ]

  same_flags :
      (f : ℕ) (l : List Vma)
      → f ≡ v.vm_flags
      → find_vma l start ≡ some v
      → (x : ℕ) → soft_at l x ≡ reflag_in start end f x (soft_at l x)
  same_flags f l same found x = elim (Bool-cases (leb start x && ltb x end)) [
    | inr beside ↦ simp beside refl
    | inl inside ↦
        let ge : start ≤ x = ground (arith, inside) in
        let lt : x < end = ground (arith, inside) in
        simp inside
          (rw (soft_at-find l start x v found low ge (omega arith)) (ground (arith, same)))
  ]

  after_join :
      (f g at : ℕ) (m n u : Mm)
      → (g ≡ f) ⊎ (g ≡ bit_or f vm_account)
      → IsWell m
      → find_vma m.mmap start ≡ some v
      → Joined (protect_request v start end g) m (some at) n
      → Reflagged at g n u
      → Fixed start end f m (ok at) u
  after_join f g at m n u which w found (joined laid view count total fewer same grew) k =
      let r : Request = protect_request v start end g in
      let mapped : soft_at m.mmap start ≡ some (soft_in v start) =
        soft_at-find m.mmap start start v found low (omega arith) (omega arith) in
      let no_more : total_pages n.mmap ≡ total_pages m.mmap =
        total ∙ ap (λ o. total_pages m.mmap + new_pages r o) mapped ∙ omega arith in
      let now : IsWell n = record {
        laid = laid;
        counted = count;
        total = same ∙ w.total ∙ sym no_more;
        bounded = rw no_more w.bounded;
      } in
      fixed g which (Reflagged-IsWell at g n u k now)
        (λ x.
          ap (λ l. soft_at l x) k.same_areas
          ∙ set_flags-GrewAt r at x n.mmap grew
          ∙ view x
          ∙ requested_flags g x m.mmap (find_aligned 0 m.mmap v start w.laid found) found)
        (rw k.same_areas
          (HoldsAt-set_flags start end at at g n.mmap (GrewAt-HoldsAt r at n.mmap grew)))

  behind_split :
      (f g : ℕ) (m n u : Mm)
      → (g ≡ f) ⊎ (g ≡ bit_or f vm_account)
      → IsWell m
      → find_vma m.mmap start ≡ some v
      → IsWell n
      → n.mmap ≡ cut_at end (cut_at start m.mmap)
      → Reflagged start g n u
      → Fixed start end f m (ok start) u
  behind_split f g m n u which w found now cuts k =
      let laid : IsLaid 0 (cut_at start m.mmap) = cut_at-IsLaid start 0 m.mmap al w.laid in
      let exact : ExactAt start end n.mmap =
        rw cuts (cut_twice-ExactAt start end 0 m.mmap v w.laid found low wide high) in
      fixed g which (Reflagged-IsWell start g n u k now)
        (λ x.
          ap (λ l. soft_at l x) k.same_areas
          ∙ set_flags-ExactAt start end g 0 x n.mmap now.laid exact
          ∙ ap (reflag_in start end g x) (
              ap (λ l. soft_at l x) cuts
              ∙ soft_at-cut_at end 0 (cut_at start m.mmap) x al_end laid
              ∙ soft_at-cut_at start 0 m.mmap x al w.laid))
        (rw k.same_areas (
          HoldsAt-set_flags start end start start g n.mmap
            (ExactAt-HoldsAt start end n.mmap exact)))

  after_split-Fixed :
      (f g charged : ℕ) (m : Mm) (r : Option Errno) (u : MmState)
      → (g ≡ f) ⊎ (g ≡ bit_or f vm_account)
      → end ≤ 2 ^ 64
      → IsWell m
      → find_vma m.mmap start ≡ some v
      → Split start end m r u.mm
      → Ends (λ r z. Fixed start end f m r z.mm) (after_split v start end g charged r u)
  unfolding after_split
  after_split-Fixed f g charged m (some e) u which top w found (not_split now same) =
      ends (not_fixed now same)
  after_split-Fixed f g charged m none u which top w found (both_split now cuts) =
      weaken
        (λ r z (is, k).
          subst (λ r. Fixed start end f m r z.mm) (sym is)
            (behind_split f g m u.mm z.mm which w found now cuts k))
        (protect_area-Reflagged start start end v.vm_flags g u (rw now.total now.bounded) top)

  after_merge-Fixed :
      (f g charged : ℕ) (m : Mm) (o : Option ℕ) (u : MmState)
      → (g ≡ f) ⊎ (g ≡ bit_or f vm_account)
      → end ≤ 2 ^ 64
      → IsWell m
      → find_vma m.mmap start ≡ some v
      → Joined (protect_request v start end g) m o u.mm
      → Ends (λ r z. Fixed start end f m r z.mm) (after_merge out v start end g charged o u)
  unfolding after_merge
  after_merge-Fixed f g charged m (some at) u which top w found
        (joined laid view count total fewer same grew) =
      weaken
        (λ r z (is, k).
          subst (λ r. Fixed start end f m r z.mm) (sym is)
            (after_join f g at m u.mm z.mm which w found
              (joined laid view count total fewer same grew) k))
        (protect_area-Reflagged at start end v.vm_flags g u (rw same (rw w.total w.bounded)) top)
  after_merge-Fixed f g charged m none u which top w found (not_joined is) =
      then-Ends
        (split_range-Split out v start end u al al_end (subst IsWell (sym is) w)
          (ap (λ n. find_vma n.mmap start) is ∙ found) low wide high)
        (λ r z p.
          after_split-Fixed f g charged m r z which top w found
            (subst (λ n. Split start end n r z.mm) is p))

  protect_charged-Fixed :
      (f : ℕ) (prev : Option ℕ) (charge : Option (ℕ × ℕ)) (s : MmState)
      → charge_writable res s.mm v.vm_flags f (pages (end - start)) ≡ charge
      → end ≤ 2 ^ 64
      → IsWell s.mm
      → EndsBy top_address s.mm.mmap
      → find_vma s.mm.mmap start ≡ some v
      → ((g : ℕ) → IsPlaced (protect_request v start end g) prev s.mm.mmap)
      → Ends
          (λ r z. Fixed start end f s.mm r z.mm)
          (protect_charged out res v prev start end charge s)
  unfolding protect_charged
  protect_charged-Fixed f prev none s got top w ends_by found place = ends (not_fixed w (λ x. refl))
  protect_charged-Fixed f prev (some (g, charged)) s got top w ends_by found place =
      then-Ends
        (merge_areas-Joined out res prev (protect_request v start end g) s al al_end wide top w
          ends_by (place g))
        (λ o u p.
          after_merge-Fixed f g charged s.mm o u
            (charge_flags res s.mm v.vm_flags f _ g charged got) top w found p)

  pub mprotect_fixup-Fixed :
      (f : ℕ) (prev : Option ℕ) (s : MmState)
      → end ≤ 2 ^ 64
      → IsWell s.mm
      → EndsBy top_address s.mm.mmap
      → find_vma s.mm.mmap start ≡ some v
      → ((g : ℕ) → IsPlaced (protect_request v start end g) prev s.mm.mmap)
      → Ends (λ r z. Fixed start end f s.mm r z.mm) (mprotect_fixup out res v prev start end f s)
  unfolding mprotect_fixup
  mprotect_fixup-Fixed f prev s top w ends_by found place = elim (Bool-cases (f == v.vm_flags)) [
    | inr changes ↦ simp changes (protect_charged-Fixed f prev _ s refl top w ends_by found place)
    | inl stays ↦ simp stays (
        ends (
          fixed f (inl refl) w (same_flags f s.mm.mmap (ground arith) found)
            (find-HoldsAt start end 0 s.mm.mmap v w.laid found low high)))
  ]
