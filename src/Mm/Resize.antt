-- ===== src/Mm/Resize.antt =====
-- `vma_to_resize_task` of src/mm/mremap.c.
use zso_ptrace.Base.{
  ℕ, ◌+◌, ◌-◌, ◌*◌, ◌≤◌, ◌<◌, ◌≡◌, refl, sym, ◌⊎◌, inl, inr, Bool, true, false, not, ◌&&◌, Option,
  none, some, ltb, ◌==◌, if◌then◌else◌, arith, Bool-cases,
}
use zso_ptrace.Errno.{eagain, efault, einval, enomem, Ret, ok, err}
use zso_ptrace.Mm.Area.{
  add64, sub64, pages, has, vm_account, vm_dontexpand, vm_hugetlb, vm_locked, vm_pfnmap, Vma, Mm,
}
use zso_ptrace.Mm.Split.{find_vma}
use zso_ptrace.Mm.Cut.{find_vma_ends}
use zso_ptrace.Mm.Count.{may_expand_vm}
use zso_ptrace.Mm.Protect.{Resources}
use zso_ptrace.Mm.Plan.{◌>>◌, refuse_if}
use zso_ptrace.Mm.Planned.{passes}
use zso_ptrace.Mm.Room.{may_expand_vm-bound}

module _ (res : Resources) (rlimit_memlock : ℕ) (ipc_lock : Bool) (mm : Mm) where
  -- The area, and what is left in `*p`, which is 0 before the call.
  unfoldable pub resize_charged : Vma → (old_len new_len : ℕ) → Ret (Vma × ℕ)
  resize_charged v old_len new_len =
      let charged = pages (sub64 new_len old_len) in
      if has v.vm_flags vm_account
      then refuse_if (not (res.enough_memory charged)) enomem >> ok (v, charged)
      else ok (v, 0)

  abbrev pub locks_too_much : Vma → (old_len new_len : ℕ) → Bool
  locks_too_much v old_len new_len =
      has v.vm_flags vm_locked
      && (ltb rlimit_memlock (add64 (mm.locked_vm * 4096) (sub64 new_len old_len)) && not ipc_lock)

  unfoldable pub resize_area : Vma → (addr old_len new_len : ℕ) → Ret (Vma × ℕ)
  resize_area v addr old_len new_len =
      let pgoff = add64 (pages (addr - v.vm_start)) v.vm_pgoff in
      refuse_if (ltb (add64 pgoff (pages new_len)) pgoff) einval
      >> refuse_if (has v.vm_flags (vm_dontexpand + vm_pfnmap)) efault
      >> refuse_if (locks_too_much v old_len new_len) eagain
      >> refuse_if (not (may_expand_vm res.limits mm v.vm_flags (pages (sub64 new_len old_len))))
          enomem
      >> resize_charged v old_len new_len

  unfoldable pub resize_found : (addr old_len new_len : ℕ) → Option Vma → Ret (Vma × ℕ)
  resize_found addr old_len new_len none = err efault
  resize_found addr old_len new_len (some v) =
      refuse_if (ltb addr v.vm_start) efault
      >> refuse_if (has v.vm_flags vm_hugetlb) einval
      >> refuse_if (ltb (v.vm_end - addr) old_len) efault
      >> (if new_len == old_len then ok (v, 0) else resize_area v addr old_len new_len)

  -- `vma_to_resize_task`
  unfoldable pub vma_to_resize_task : (addr old_len new_len : ℕ) → Ret (Vma × ℕ)
  vma_to_resize_task addr old_len new_len =
      resize_found addr old_len new_len (find_vma mm.mmap addr)

  -- What growing an area by some bytes takes.
  pub record MayGrow (v : Vma) (bytes charged : ℕ) : Type 0 where
    pub expands : has v.vm_flags (vm_dontexpand + vm_pfnmap) ≡ false
    pub locks :
        has v.vm_flags vm_locked ≡ true
        → (add64 (mm.locked_vm * 4096) bytes ≤ rlimit_memlock) ⊎ (ipc_lock ≡ true)
    pub room : add64 mm.total_vm (pages bytes) ≤ pages res.limits.rlimit_as
    pub charge :
        ((has v.vm_flags vm_account ≡ true)
          × (charged ≡ pages bytes)
          × (res.enough_memory charged ≡ true))
        ⊎ ((has v.vm_flags vm_account ≡ false) × (charged ≡ 0))

  pub record Resizable (addr old_len new_len : ℕ) (v : Vma) (charged : ℕ) : Type 0 where
    pub found : find_vma mm.mmap addr ≡ some v
    pub covers : (v.vm_start ≤ addr) × (addr < v.vm_end) × (addr + old_len ≤ v.vm_end)
    pub small : has v.vm_flags vm_hugetlb ≡ false
    pub grows : ((new_len ≡ old_len) × (charged ≡ 0)) ⊎ MayGrow v (sub64 new_len old_len) charged

  resize_charged_lem :
      (v w : Vma) (old_len new_len charged : ℕ)
      → resize_charged v old_len new_len ≡ ok (w, charged)
      → (v ≡ w)
        × (((has v.vm_flags vm_account ≡ true)
              × (charged ≡ pages (sub64 new_len old_len))
              × (res.enough_memory charged ≡ true))
            ⊎ ((has v.vm_flags vm_account ≡ false) × (charged ≡ 0)))
  unfolding resize_charged
  resize_charged_lem v w old_len new_len charged same =
      elim (Bool-cases (has v.vm_flags vm_account)) [
        | inl counts ↦
            let (enough, a) =
              passes (not (res.enough_memory (pages (sub64 new_len old_len)))) enomem _ (w, charged)
                (simp counts at same) in
            let amount : charged ≡ pages (sub64 new_len old_len) = ground (arith, a) in
            (ground (arith, a), inl (counts, amount, rw amount (ground (arith, enough))))
        | inr free ↦ (ground (arith, same, free), inr (free, ground (arith, same, free)))
      ]

  resize_area-MayGrow :
      (v w : Vma) (addr old_len new_len charged : ℕ)
      → resize_area v addr old_len new_len ≡ ok (w, charged)
      → (v ≡ w) × MayGrow v (sub64 new_len old_len) charged
  unfolding resize_area
  resize_area-MayGrow v w addr old_len new_len charged same =
      let (_, a) =
        passes
          (ltb (add64 (add64 (pages (addr - v.vm_start)) v.vm_pgoff) (pages new_len))
            (add64 (pages (addr - v.vm_start)) v.vm_pgoff))
          einval _ (w, charged) same in
      let (plain, b) =
        passes (has v.vm_flags (vm_dontexpand + vm_pfnmap)) efault _ (w, charged) a in
      let (locks, c) = passes (locks_too_much v old_len new_len) eagain _ (w, charged) b in
      let (room, d) =
        passes (not (may_expand_vm res.limits mm v.vm_flags (pages (sub64 new_len old_len)))) enomem
          _ (w, charged) c in
      let (is, charge) = resize_charged_lem v w old_len new_len charged d in
      (
        is,
        record {
          expands = plain;
          locks = λ locked. elim (Bool-cases ipc_lock) [
            | inl may ↦ inr may
            | inr lacks ↦ inl (ground (arith, locks, locked, lacks))
          ];
          room =
              may_expand_vm-bound res.limits mm v.vm_flags (pages (sub64 new_len old_len))
                (ground (arith, room));
          charge = charge;
        },
      )

  resize_found-Resizable :
      (addr old_len new_len charged : ℕ) (o : Option Vma) (w : Vma)
      → find_vma mm.mmap addr ≡ o
      → resize_found addr old_len new_len o ≡ ok (w, charged)
      → Resizable addr old_len new_len w charged
  unfolding resize_found
  resize_found-Resizable addr old_len new_len charged none w is same = absurd (ground (arith, same))
  resize_found-Resizable addr old_len new_len charged (some v) w is same =
      let (above, a) = passes (ltb addr v.vm_start) efault _ (w, charged) same in
      let (small, b) = passes (has v.vm_flags vm_hugetlb) einval _ (w, charged) a in
      let (short, c) = passes (ltb (v.vm_end - addr) old_len) efault _ (w, charged) b in
      let ends_above = find_vma_ends mm.mmap addr v is in
      let resizable : ((new_len ≡ old_len) × (charged ≡ 0))
            ⊎ MayGrow v (sub64 new_len old_len) charged
          → Resizable addr old_len new_len v charged =
        λ grows. record {
          found = is;
          covers = (ground (arith, above), ends_above, ground (arith, short, above, ends_above));
          small = small;
          grows = grows;
        } in
      elim (Bool-cases (new_len == old_len)) [
        | inl equal ↦
            let is_v : v ≡ w = ground (arith, c, equal) in
            rw (sym is_v) (resizable (inl (ground (arith, equal), ground (arith, c, equal))))
        | inr grows ↦
            let (is_v, may) =
              resize_area-MayGrow v w addr old_len new_len charged (simp grows at c) in
            rw (sym is_v) (resizable (inr may))
      ]

  -- vma_to_resize_task gives an area only if find_vma finds it, it is no huge page area, and it
  -- holds the whole old range; and where the lengths differ only if it may expand, its locked
  -- pages with the growth are within RLIMIT_MEMLOCK or the caller has CAP_IPC_LOCK, and the total
  -- with the growth is within RLIMIT_AS; and it charges the pages of the growth, which the memory
  -- has, if the area is accounted, and none otherwise.
  pub vma_to_resize_task-Resizable :
      (addr old_len new_len : ℕ) (v : Vma) (charged : ℕ)
      → vma_to_resize_task addr old_len new_len ≡ ok (v, charged)
      → Resizable addr old_len new_len v charged
  unfolding vma_to_resize_task
  vma_to_resize_task-Resizable addr old_len new_len v charged same =
      resize_found-Resizable addr old_len new_len charged (find_vma mm.mmap addr) v refl same
