-- ===== src/Fd/Copied.antt =====
-- `copy_fdtable` and `copy_fd_bitmaps` of src/fs/file.c: what the larger table holds.
use zso_ptrace.Base.{
  ℕ, ◌*◌, ◌^◌, ◌/◌, ◌%◌, ◌≤◌, ◌<◌, ◌≡◌, refl, ◌∙◌, inl, inr, false, none, arith, ltb, if◌then◌else◌,
  Bool-cases,
}
use zso_ptrace.Fd.Table.{FdTable, FilesStruct, fcheck_files}
use zso_ptrace.Fd.Valid.{IsSummary, IsTrimmed, IsValid, word_full_ext, word_full_empty}
use zso_ptrace.Fd.Alloc.{
  bitbit_nr, bitbit_size, copy_bits, copy_pointers, copy_fd_bitmaps, copy_slots,
}

-- `g` is `f` in a table at least as large, with nothing new in it.
pub record IsLarger (f g : FilesStruct) : Type 0 where
  pub grows : f.fdt.max_fds ≤ g.fdt.max_fds
  pub finds : (i : ℕ) → fcheck_files g i ≡ fcheck_files f i
  pub open_below : (i : ℕ) → i < f.fdt.max_fds → g.fdt.open_fds i ≡ f.fdt.open_fds i
  pub cloexec_below : (i : ℕ) → i < f.fdt.max_fds → g.fdt.close_on_exec i ≡ f.fdt.close_on_exec i
  pub free_above : (i : ℕ) → f.fdt.max_fds ≤ i → i < g.fdt.max_fds → g.fdt.open_fds i ≡ false
  pub cloexec_above :
      (i : ℕ) → f.fdt.max_fds ≤ i → i < g.fdt.max_fds → g.fdt.close_on_exec i ≡ false
  pub same_next : g.next_fd ≡ f.next_fd
  pub same_count : g.count ≡ f.count

pub IsLarger-refl : (f : FilesStruct) → IsLarger f f
IsLarger-refl f = record {
  grows = omega arith;
  finds = λ i. refl;
  open_below = λ i l. refl;
  cloexec_below = λ i l. refl;
  free_above = λ i lo hi. absurd (omega arith);
  cloexec_above = λ i lo hi. absurd (omega arith);
  same_next = refl;
  same_count = refl;
}

pub IsLarger-trans : {f g h : FilesStruct} → IsLarger f g → IsLarger g h → IsLarger f h
IsLarger-trans {f} {g} {h} p q = record {
  grows = omega (arith, p.grows, q.grows);
  finds = λ i. q.finds i ∙ p.finds i;
  open_below = λ i l. ground (arith, p.open_below i, q.open_below i, p.grows);
  cloexec_below = λ i l. ground (arith, p.cloexec_below i, q.cloexec_below i, p.grows);
  free_above = λ i lo hi. elim (Bool-cases (ltb i g.fdt.max_fds)) [
    | inl below ↦ ground (arith, p.free_above i, q.open_below i)
    | inr above ↦ ground (arith, q.free_above i)
  ];
  cloexec_above = λ i lo hi. elim (Bool-cases (ltb i g.fdt.max_fds)) [
    | inl below ↦ ground (arith, p.cloexec_above i, q.cloexec_below i)
    | inr above ↦ ground (arith, q.cloexec_above i)
  ];
  same_next = q.same_next ∙ p.same_next;
  same_count = q.same_count ∙ p.same_count;
}

module _ (new old : FdTable) (grows : old.max_fds ≤ new.max_fds)
    (old_aligned : old.max_fds % 64 ≡ 0) (new_aligned : new.max_fds % 64 ≡ 0)
    (few : new.max_fds < 2 ^ 29) where
  abbrev copied : FdTable
  copied = copy_fd_bitmaps (copy_slots new old) old old.max_fds

  copied_fd :
      (i : ℕ) → i < new.max_fds → copied.fd i ≡ (if ltb i old.max_fds then old.fd i else none)
  unfolding copy_fd_bitmaps copy_slots copy_pointers
  copied_fd i l = ground arith

  copied_open :
      (i : ℕ)
      → i < new.max_fds
      → copied.open_fds i ≡ (if ltb i old.max_fds then old.open_fds i else false)
  unfolding copy_fd_bitmaps copy_slots copy_bits
  copied_open i l = ground arith

  copied_cloexec :
      (i : ℕ)
      → i < new.max_fds
      → copied.close_on_exec i ≡ (if ltb i old.max_fds then old.close_on_exec i else false)
  unfolding copy_fd_bitmaps copy_slots copy_bits
  copied_cloexec i l = ground arith

  copied_full :
      (w : ℕ)
      → w < bitbit_nr new.max_fds * 64
      → copied.full_fds_bits w
        ≡ (if ltb w (bitbit_nr old.max_fds * 64) then old.full_fds_bits w else false)
  unfolding copy_fd_bitmaps copy_slots copy_bits bitbit_size bitbit_nr
  copied_full w l = ground arith

  bitbit_covers : (nr : ℕ) → nr / 64 ≤ bitbit_nr nr * 64
  unfolding bitbit_nr
  bitbit_covers nr = omega arith

  copied_max : copied.max_fds ≡ new.max_fds
  unfolding copy_fd_bitmaps copy_slots
  copied_max = refl

  copied-IsSummary : IsSummary old → IsTrimmed old → IsSummary copied
  copied-IsSummary sum trim w l = elim (Bool-cases (ltb w (old.max_fds / 64))) [
    | inl below ↦ ground (
      arith,
      copied_full w,
      bitbit_covers old.max_fds,
      bitbit_covers new.max_fds,
      copied_max,
      sum w,
      word_full_ext copied.open_fds old.open_fds w (λ i e. ground (arith, copied_open i)),
    )
    | inr above ↦ ground (
      arith,
      copied_full w,
      bitbit_covers new.max_fds,
      trim w,
      copied_open (w * 64),
      word_full_empty copied.open_fds w,
      copied_max,
    )
  ]

  copied-IsTrimmed : IsTrimmed old → IsTrimmed copied
  unfolding copy_fd_bitmaps copy_slots
  copied-IsTrimmed trim w lo hi = ground (arith, copied_full w, trim w)

module _ (new : FdTable) {f : FilesStruct} (v : IsValid f) (grows : f.fdt.max_fds ≤ new.max_fds)
    (new_aligned : new.max_fds % 64 ≡ 0) (few : new.max_fds < 2 ^ 29) where
  abbrev with_copy : FilesStruct
  with_copy = record f {
    fdt = copy_fd_bitmaps (copy_slots new f.fdt) f.fdt f.fdt.max_fds;
    embedded = false;
  }

  -- The copy is well-formed whatever the memory held before.
  pub copy_fdtable-IsValid : IsValid with_copy
  unfolding copy_fd_bitmaps copy_slots
  copy_fdtable-IsValid = record {
    aligned = new_aligned;
    marked = λ i l h. ground (
      arith,
      copied_fd new f.fdt grows v.aligned new_aligned few i,
      copied_open new f.fdt grows v.aligned new_aligned few i,
      v.marked i,
    );
    summary = copied-IsSummary new f.fdt grows v.aligned new_aligned few v.summary v.trimmed;
    trimmed = copied-IsTrimmed new f.fdt grows v.aligned new_aligned few v.trimmed;
    packed = λ i l.
        ground
          (arith, copied_open new f.fdt grows v.aligned new_aligned few i, v.packed i, v.in_range);
    in_range = ground (arith, v.in_range);
  }

  -- It finds the same files under the same numbers.
  pub copy_fdtable-IsLarger : IsLarger f with_copy
  unfolding copy_fd_bitmaps copy_slots fcheck_files
  copy_fdtable-IsLarger = record {
    grows = grows;
    finds = λ i. ground (arith, copied_fd new f.fdt grows v.aligned new_aligned few i);
    open_below = λ i l. ground (arith, copied_open new f.fdt grows v.aligned new_aligned few i);
    cloexec_below =
        λ i l. ground (arith, copied_cloexec new f.fdt grows v.aligned new_aligned few i);
    free_above = λ i lo hi. ground (arith, copied_open new f.fdt grows v.aligned new_aligned few i);
    cloexec_above =
        λ i lo hi. ground (arith, copied_cloexec new f.fdt grows v.aligned new_aligned few i);
    same_next = refl;
    same_count = refl;
  }
