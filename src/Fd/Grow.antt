-- ===== src/Fd/Grow.antt =====
-- `alloc_fdtable`, `expand_fdtable` and `expand_files` of src/fs/file.c: how they end.
use zso_ptrace.Base.{
  ℕ, ◌+◌, ◌*◌, ◌%◌, ◌^◌, ◌≤◌, ◌<◌, ◌≡◌, refl, inl, inr, Bool, true, false, none, some, arith, ltb,
  leb, if◌then◌else◌, Bool-cases, le→ltb, ◌⊎◌, ◌&&◌, List, ◌∷◌,
}
use zso_ptrace.Errno.{Errno, Ret, ok, err, enomem, emfile}
use zso_ptrace.Fd.Table.{FdTable, FilesStruct, fcheck_files}
use zso_ptrace.Fd.Valid.{IsValid}
use zso_ptrace.Fd.Copied.{IsLarger, copy_fdtable-IsValid, copy_fdtable-IsLarger}
use zso_ptrace.Fd.Alloc.{
  alloc_fdmem, table_size, bitmaps_size, alloc_fdtable, alloc_array, alloc_bitmaps, fresh_table,
  pointer_size, fdtable_bytes, free_fdtable, copy_fdtable, copy_fd_bitmaps, copy_slots,
}
use zso_ptrace.Fd.Expand.{replace_table, expand_fdtable, expand_files}
use zso_ptrace.Fd.Refs.{HasSameRefs, HasSameRefs-refl, HasSameRefs-trans, taken, dropped}
use zso_ptrace.Fd.Ends.{Ends, ends, weaken, then-Ends}
use zso_ptrace.Fd.Kernel.{Kernel, FdState, done, Call, alloc, free, table, array, bitmaps}

-- What the other threads may do to a table while its lock is free: anything that keeps it
-- well-formed and, since a resize is in progress, of the same size; and a limit `sysctl_nr_open` below
-- which the 32 bits of `copy_fdtable` suffice.
pub record IsPolite (k : Kernel) : Type 0 where
  pub keeps : (s : FilesStruct) → IsValid s → IsValid (k.gap s)
  pub keeps_size : (s : FilesStruct) → (k.gap s).fdt.max_fds ≡ s.fdt.max_fds
  pub few : k.nr_open_later + 64 ≤ 2 ^ 29

-- How an expansion for descriptor `nr` of a table `f` ends, where `g` is what the others made of it.
pub data Expanded (nr : ℕ) (f g : FilesStruct) : Ret ℕ → FilesStruct → Type 0 where
  enough : {h : FilesStruct} → h ≡ f → nr < f.fdt.max_fds → Expanded nr f g (ok 0) h
  grown :
      {h : FilesStruct}
      → f.fdt.max_fds ≤ nr
      → nr < h.fdt.max_fds
      → IsValid h
      → IsLarger g h
      → h.resize_in_progress ≡ false
      → Expanded nr f g (ok 1) h
  failed :
      {e : Errno} {h : FilesStruct}
      → f.fdt.max_fds ≤ nr
      → (e ≡ enomem) ⊎ (e ≡ emfile)
      → h ≡ record g { resize_in_progress = false }
      → IsValid h
      → Expanded nr f g (err e) h
  refused : {h : FilesStruct} → f.fdt.max_fds ≤ nr → h ≡ f → Expanded nr f g (err emfile) h

-- The flag has no part in either property.
pub flagged-IsValid :
    (b : Bool) {f : FilesStruct} → IsValid f → IsValid (record f { resize_in_progress = b })
flagged-IsValid b v = record {
  aligned = v.aligned;
  marked = v.marked;
  summary = v.summary;
  trimmed = v.trimmed;
  packed = v.packed;
  in_range = v.in_range;
}

pub flagged-IsLarger :
    {b : Bool} {f g : FilesStruct} → IsLarger f g → IsLarger f (record g { resize_in_progress = b })
unfolding fcheck_files
flagged-IsLarger l = record {
  grows = l.grows;
  finds = l.finds;
  open_below = l.open_below;
  cloexec_below = l.cloexec_below;
  free_above = l.free_above;
  cloexec_above = l.cloexec_above;
  same_next = l.same_next;
  same_count = l.same_count;
}

module _ (k : Kernel) where
  -- The size of a new table is a whole number of words.
  table_size_aligned : (nr : ℕ) → table_size k nr % 64 ≡ 0
  unfolding table_size
  table_size_aligned nr = ground arith

  -- Rounding the limit up to whole words passes no power of 2.
  table_size_few : (nr : ℕ) → k.nr_open_later + 64 ≤ 2 ^ 29 → table_size k nr < 2 ^ 29
  unfolding table_size
  table_size_few nr few = ground arith

  abbrev alloc_ok : ℕ → Bool
  alloc_ok nr =
      k.kmalloc fdtable_bytes
      && alloc_fdmem k (table_size k nr * pointer_size)
      && alloc_fdmem k (bitmaps_size (table_size k nr))

  -- `alloc_fdtable` returns a table exactly when its three allocations succeed, and has freed
  -- whatever it allocated otherwise.
  alloc_fdtable-done :
      (nr : ℕ) (s : FdState)
      → (log : List Call) × HasSameRefs s.log log
        × (alloc_fdtable k nr s
            ≡ done
                (if alloc_ok nr then some (fresh_table k (table_size k nr)) else none)
                (record s { log = log }))
  unfolding alloc_fdtable alloc_array alloc_bitmaps taken dropped
  alloc_fdtable-done nr s = (
    alloc_log,
    record { same_taken = λ f. ground arith; same_dropped = λ f. ground arith },
    ground arith,
  )
    where
      alloc_log : List Call
      alloc_log =
          if k.kmalloc fdtable_bytes
          then (if alloc_fdmem k (table_size k nr * pointer_size)
              then (if alloc_fdmem k (bitmaps_size (table_size k nr))
                  then alloc bitmaps ∷ alloc array ∷ alloc table ∷ s.log
                  else free table ∷ free array ∷ alloc array ∷ alloc table ∷ s.log)
              else free table ∷ alloc table ∷ s.log)
          else s.log

  replace_table-done :
      (new : FdTable) (s : FdState)
      → IsValid s.files
      → s.files.fdt.max_fds ≤ new.max_fds
      → new.max_fds % 64 ≡ 0
      → new.max_fds < 2 ^ 29
      → Ends
          (λ r t.
            (r ≡ ok 1)
            × (t.files.fdt.max_fds ≡ new.max_fds)
            × IsValid t.files
            × IsLarger s.files t.files
            × (t.files.resize_in_progress ≡ s.files.resize_in_progress)
            × HasSameRefs s.log t.log)
          (replace_table k new s)
  unfolding replace_table copy_fdtable free_fdtable copy_fd_bitmaps copy_slots taken dropped
  replace_table-done new s v grows aligned few =
      let valid = copy_fdtable-IsValid new v grows aligned few in
      let larger = copy_fdtable-IsLarger new v grows aligned few in
      rw (le→ltb _ _ grows) (elim (Bool-cases s.files.embedded) [
        | inl e ↦ simp e (
            ends (
              refl,
              refl,
              valid,
              larger,
              refl,
              record { same_taken = λ f. refl; same_dropped = λ f. refl },
            ))
        | inr e ↦ simp e (
            ends (
              refl,
              refl,
              valid,
              larger,
              refl,
              record { same_taken = λ f. refl; same_dropped = λ f. refl },
            ))
      ])

  -- What `expand_fdtable` returns once the others have made `g` of the table.
  abbrev Replaced : ℕ → FilesStruct → Ret ℕ → FdState → Type 0
  Replaced nr g r t =
      ((r ≡ ok 1) × (nr < t.files.fdt.max_fds) × IsValid t.files × IsLarger g t.files)
      ⊎ (((r ≡ err enomem) ⊎ (r ≡ err emfile)) × (t.files ≡ g))

  expand_fdtable-Ends :
      (nr : ℕ) (s : FdState)
      → IsPolite k
      → IsValid s.files
      → s.files.fdt.max_fds ≤ nr
      → Ends
          (λ r t. Replaced nr (k.gap s.files) r t × HasSameRefs s.log t.log)
          (expand_fdtable k nr s)
  unfolding expand_fdtable free_fdtable taken dropped
  expand_fdtable-Ends nr s polite v small =
      let (log, refs, e) = alloc_fdtable-done nr s in
      let same = polite.keeps_size s.files in
      let fits : (k.gap s.files).fdt.max_fds ≤ nr = omega arith in
      rw e (elim (Bool-cases (alloc_ok nr)) [
        | inr none_left ↦ simp none_left (ends (inr (inl refl, refl), refs))
        | inl got ↦ simp got (elim (Bool-cases (leb (table_size k nr) nr)) [
          | inl short ↦ simp short (
              ends (
                inr (inr refl, refl),
                record { same_taken = refs.same_taken; same_dropped = refs.same_dropped },
              ))
          | inr long ↦
              simp (long, le→ltb nr (k.gap s.files).fdt.max_fds fits)
                (weaken
                  (λ r t (one, size, valid, larger, _, refs').
                    (inl (one, ground arith, valid, larger), HasSameRefs-trans refs refs'))
                  (replace_table-done (fresh_table k (table_size k nr)) _ (polite.keeps s.files v)
                    (ground arith) (table_size_aligned nr) (table_size_few nr polite.few)))
        ])
      ])

  settled :
      (nr : ℕ) (f : FilesStruct) (t : FdState) {g : FilesStruct} {r : Ret ℕ}
      → f.fdt.max_fds ≤ nr
      → IsValid g
      → Replaced nr g r t
      → Expanded nr f g r (record (t.files) { resize_in_progress = false })
  settled nr f t small valid (inl (e, fits, ok_valid, larger)) =
      rw e (grown small fits (flagged-IsValid false ok_valid) (flagged-IsLarger larger) refl)
  settled nr f t small valid (inr (inl e, same)) =
      rw (e, same) (failed small (inl refl) refl (flagged-IsValid false valid))
  settled nr f t small valid (inr (inr e, same)) =
      rw (e, same) (failed small (inr refl) refl (flagged-IsValid false valid))

  -- With sysctl_nr_open at most 2^29 - 64, whatever the other threads make of a well-formed table
  -- that nobody resizes while it is being replaced, as long as they keep it well-formed and of
  -- its size, expand_files returns, meets no BUG, keeps it well-formed with every file where they
  -- left it, and reports success exactly when the descriptor lies in the table that it leaves
  -- behind; no reference to a file is taken or dropped.
  pub expand_files-Ends :
      (nr : ℕ) (s : FdState)
      → IsPolite k
      → IsValid s.files
      → s.files.resize_in_progress ≡ false
      → Ends
          (λ r t.
            Expanded nr s.files (k.gap (record (s.files) { resize_in_progress = true })) r t.files
            × HasSameRefs s.log t.log)
          (expand_files k nr s)
  unfolding expand_files
  expand_files-Ends nr s polite v idle = elim (Bool-cases (ltb nr s.files.fdt.max_fds)) [
    | inl fits ↦ simp fits (ends (enough refl (ground arith), HasSameRefs-refl s.log))
    | inr small ↦ simp small (elim (Bool-cases (leb k.nr_open nr)) [
      | inl over ↦ simp over (ends (refused (ground arith) refl, HasSameRefs-refl s.log))
      | inr under ↦
          simp (under, idle)
            (then-Ends (expand_fdtable-Ends nr _ polite (flagged-IsValid true v) (ground arith))
              (λ r t (p, refs). ends (
                settled nr s.files t (ground arith) (polite.keeps _ (flagged-IsValid true v)) p,
                refs,
              )))
    ])
  ]
