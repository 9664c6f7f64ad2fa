-- ===== src/Fd/Allocate.antt =====
-- `__alloc_fd` of src/fs/file.c: it ends, and takes the lowest free descriptor.
use zso_ptrace.Base.{
  ℕ, zero, suc, ◌-◌, ◌≤◌, ◌<◌, ◌≡◌, refl, sym, subst, inl, inr, ◌⊎◌, true, false, arith, leb,
  Bool-cases, List,
}
use zso_ptrace.Errno.{Errno, Ret, ok, err, enomem, emfile}
use zso_ptrace.Fd.Table.{FilesStruct}
use zso_ptrace.Fd.Valid.{IsValid}
use zso_ptrace.Fd.Copied.{IsLarger}
use zso_ptrace.Fd.Grow.{IsPolite, Expanded, enough, grown, failed, refused, expand_files-Ends}
use zso_ptrace.Fd.Search.{IsLowest, candidate-IsLowest}
use zso_ptrace.Fd.Slot.{candidate, claim_fd, finish_round, alloc_fd_loop, alloc_fd_in}
use zso_ptrace.Fd.Refs.{HasSameRefs, HasSameRefs-refl, HasSameRefs-trans}
use zso_ptrace.Fd.Ends.{Ends, ends, then-Ends}
use zso_ptrace.Fd.Kernel.{Kernel, FindsZero, FdState, Call, hang}

-- While a call resizes `f`, with the lock free.
abbrev pub resizing : Kernel → FilesStruct → FilesStruct
resizing k f = k.gap (record f { resize_in_progress = true })

-- A fact about tables that survives the others' changes and the growth of the table.
pub record IsStable (k : Kernel) (Q : FilesStruct → Type 0) : Type 0 where
  pub after_growth : (f h : FilesStruct) → Q f → IsLarger (resizing k f) h → Q h
  pub after_failure :
      (f : FilesStruct) → Q f → Q (record (resizing k f) { resize_in_progress = false })

-- How a search from `start` ends: with a descriptor of a table `g` and the writes for it, or with an
-- error number.
pub data Allocated (Q : FilesStruct → Type 0) (start end flags : ℕ)
    : Ret ℕ → FilesStruct → Type 0 where
  taken :
      (g : FilesStruct) {fd : ℕ} {h : FilesStruct}
      → Q g
      → IsValid g
      → g.resize_in_progress ≡ false
      → IsLowest g start fd
      → fd < end
      → fd < g.fdt.max_fds
      → h ≡ claim_fd start fd flags g
      → Allocated Q start end flags (ok fd) h
  none_left :
      {e : Errno} {h : FilesStruct}
      → (e ≡ emfile) ⊎ (e ≡ enomem)
      → Q h
      → IsValid h
      → h.resize_in_progress ≡ false
      → Allocated Q start end flags (err e) h

module _ (k : Kernel) (polite : IsPolite k) (z : FindsZero k) (Q : FilesStruct → Type 0)
    (stable : IsStable k Q) (start end flags : ℕ) (old : List Call) where
  abbrev Outcome : Ret ℕ → FdState → Type 0
  Outcome r t = Allocated Q start end flags r t.files × HasSameRefs old t.log

  round-Outcome :
      (again : FdState → zso_ptrace.Fd.Kernel.Run (Ret ℕ)) (fd : ℕ) (f : FilesStruct) {r : Ret ℕ}
      {h : FilesStruct} (log : List Call)
      → HasSameRefs old log
      → Q f
      → IsValid f
      → f.resize_in_progress ≡ false
      → IsLowest f start fd
      → fd < end
      → ((h : FilesStruct)
          → Q h
          → IsValid h
          → h.resize_in_progress ≡ false
          → f.fdt.max_fds ≤ fd
          → fd < h.fdt.max_fds
          → Ends Outcome (again (record { files = h; log = log })))
      → Expanded fd f (resizing k f) r h
      → Ends Outcome (finish_round again start fd flags r (record { files = h; log = log }))
  unfolding finish_round
  round-Outcome again fd f log refs q v idle low lt rest (enough same fits) =
      rw same (ends (taken f q v idle low lt fits refl, refs))
  round-Outcome again fd f log refs q v idle low lt rest (grown small fits valid larger done) =
      rest _ (stable.after_growth f _ q larger) valid done small fits
  round-Outcome again fd f log refs q v idle low lt rest (failed small reason same valid) = ends (
    none_left (ground (arith, reason)) (subst Q (sym same) (stable.after_failure f q)) valid
        (rw same),
    refs,
  )
  round-Outcome again fd f log refs q v idle low lt rest (refused small same) =
      rw same (ends (none_left (inl refl) q v idle, refs))

  alloc_fd_loop-Outcome :
      (rounds : ℕ) (f : FilesStruct) (log : List Call)
      → end - f.fdt.max_fds < rounds
      → HasSameRefs old log
      → Q f
      → IsValid f
      → f.resize_in_progress ≡ false
      → Ends Outcome (alloc_fd_loop k rounds start end flags (record { files = f; log = log }))
  unfolding alloc_fd_loop
  alloc_fd_loop-Outcome zero f log fuel refs q v idle = elim fuel [ ]
  alloc_fd_loop-Outcome (suc rounds) f log fuel refs q v idle =
      elim (Bool-cases (leb end (candidate k start f))) [
        | inl over ↦ simp over (ends (none_left (inl refl) q v idle, refs))
        | inr under ↦ simp under (
            then-Ends (expand_files-Ends k (candidate k start f) _ polite v idle) (λ r t (p, refs').
              round-Outcome (alloc_fd_loop k rounds start end flags) (candidate k start f) f t.log
                (HasSameRefs-trans refs refs') q v idle (candidate-IsLowest k z f start v)
                (ground arith)
                (λ h q' v' idle' small fits.
                  alloc_fd_loop-Outcome rounds h t.log (ground arith) (HasSameRefs-trans refs refs')
                    q' v' idle')
                p))
      ]

-- The rounds given to `__alloc_fd` are enough.
pub alloc_fd_in-Outcome :
    (k : Kernel)
    → IsPolite k
    → FindsZero k
    → (Q : FilesStruct → Type 0) → IsStable k Q
    → (start end flags : ℕ) (s : FdState) → Q s.files
    → IsValid s.files
    → s.files.resize_in_progress ≡ false
    → Ends
        (λ r t. Allocated Q start end flags r t.files × HasSameRefs s.log t.log)
        (alloc_fd_in k start end flags s)
unfolding alloc_fd_in
alloc_fd_in-Outcome k polite z Q stable start end flags s q v idle =
    alloc_fd_loop-Outcome k polite z Q stable start end flags s.log
      (suc (end - s.files.fdt.max_fds)) s.files s.log (omega arith) (HasSameRefs-refl s.log) q v
      idle
