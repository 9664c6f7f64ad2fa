-- ===== src/Fd/Give.antt =====
-- A file is given a new descriptor: the part that `dup`, `f_dupfd` and the two remote calls share.
use zso_ptrace.Base.{
  ℕ, ◌≤◌, ◌<◌, ◌≡◌, ◌≢◌, ◌⊎◌, true, false, none, some, List, ◌∷◌, ◌==◌, if◌then◌else◌,
}
use zso_ptrace.Errno.{Errno, Ret, ok, err, emfile, enomem}
use zso_ptrace.Fd.Table.{File, FilesStruct, fcheck_files}
use zso_ptrace.Fd.Valid.{IsValid}
use zso_ptrace.Fd.Copied.{IsLarger}
use zso_ptrace.Fd.Refs.{HasSameRefs}
use zso_ptrace.Fd.Slot.{wants_cloexec}
use zso_ptrace.Fd.Ends.{Ends}
use zso_ptrace.Fd.Kernel.{Kernel, FdState, fput, done}

-- `h` is `f` with the file under `fd`, the lowest descriptor from `start` on that was free.
pub record IsGiven (start end flags : ℕ) (file : File) (f : FilesStruct) (fd : ℕ) (h : FilesStruct)
    : Type 0 where
  pub from_start : start ≤ fd
  pub below_end : fd < end
  pub was_free : fcheck_files f fd ≡ none
  pub finds : (i : ℕ) → fcheck_files h i ≡ (if i == fd then some file else fcheck_files f i)
  pub cloexec : h.fdt.close_on_exec fd ≡ wants_cloexec flags
  pub same_cloexec :
      (i : ℕ) → i ≢ fd → i < f.fdt.max_fds → h.fdt.close_on_exec i ≡ f.fdt.close_on_exec i
  pub lowest : (i : ℕ) → start ≤ i → i < fd → h.fdt.open_fds i ≡ true
  pub valid : IsValid h
  pub idle : h.resize_in_progress ≡ false

-- How the attempt ends: with the file under a descriptor and the references as they were, or with
-- every lookup as it was and the one reference that the call held dropped.
pub data Given (start end flags : ℕ) (file : File) (s : FdState) : Ret ℕ → FdState → Type 0 where
  given :
      {fd : ℕ} {t : FdState}
      → IsGiven start end flags file s.files fd t.files
      → HasSameRefs s.log t.log
      → Given start end flags file s (ok fd) t
  not_given :
      {e : Errno} {t : FdState} (log : List zso_ptrace.Fd.Kernel.Call)
      → (e ≡ emfile) ⊎ (e ≡ enomem)
      → IsLarger s.files t.files
      → IsValid t.files
      → HasSameRefs s.log log
      → t.log ≡ fput file ∷ log
      → Given start end flags file s (err e) t
