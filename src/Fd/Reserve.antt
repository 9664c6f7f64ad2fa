-- ===== src/Fd/Reserve.antt =====
-- `__alloc_fd` of src/fs/file.c as its callers see it: the descriptor that they get, and that nothing
-- else changes.
use zso_ptrace.Base.{ℕ, ◌≤◌, ◌<◌, ◌≡◌, ◌≢◌, ◌⊎◌, true, false, none}
use zso_ptrace.Errno.{Ret, ok, err, enomem, emfile}
use zso_ptrace.Fd.Table.{FilesStruct, fcheck_files}
use zso_ptrace.Fd.Copied.{IsLarger}
use zso_ptrace.Fd.Grow.{IsPolite}
use zso_ptrace.Fd.Slot.{wants_cloexec}
use zso_ptrace.Fd.Ends.{Ends}
use zso_ptrace.Fd.Kernel.{Kernel, IsAlone}

-- `fd` is reserved in `h`: it lies in the range asked for, is marked open with the close-on-exec bit
-- asked for, holds no file, and no descriptor from `start` on and below it is free.
pub record IsReserved (start end flags fd : ℕ) (h : FilesStruct) : Type 0 where
  pub from_start : start ≤ fd
  pub below_end : fd < end
  pub in_table : fd < h.fdt.max_fds
  pub marked : h.fdt.open_fds fd ≡ true
  pub vacant : h.fdt.fd fd ≡ none
  pub cloexec : h.fdt.close_on_exec fd ≡ wants_cloexec flags
  pub lowest : (i : ℕ) → start ≤ i → i < fd → h.fdt.open_fds i ≡ true

-- What `__alloc_fd` promises: a reserved descriptor, or one of its two errors.
abbrev pub Reserves : (start end flags : ℕ) → Ret ℕ → FilesStruct → Type 0
Reserves start end flags (ok fd) h = IsReserved start end flags fd h
Reserves start end flags (err e) h = (e ≡ emfile) ⊎ (e ≡ enomem)

pub IsAlone-IsPolite : (k : Kernel) → IsAlone k → IsPolite k
IsAlone-IsPolite k alone = record {
  keeps = λ s v. rw (alone.undisturbed s) v;
  keeps_size = λ s. rw (alone.undisturbed s);
  few = alone.few;
}

-- `h` differs from `f` at most in the bits of descriptor `fd`, which was free, and in its size.
pub record IsReservedIn (f : FilesStruct) (fd : ℕ) (h : FilesStruct) : Type 0 where
  pub grows : f.fdt.max_fds ≤ h.fdt.max_fds
  pub was_free : fd < f.fdt.max_fds → f.fdt.open_fds fd ≡ false
  pub finds : (i : ℕ) → fcheck_files h i ≡ fcheck_files f i
  pub same_open : (i : ℕ) → i ≢ fd → i < f.fdt.max_fds → h.fdt.open_fds i ≡ f.fdt.open_fds i
  pub same_cloexec :
      (i : ℕ) → i ≢ fd → i < f.fdt.max_fds → h.fdt.close_on_exec i ≡ f.fdt.close_on_exec i
  pub same_count : h.count ≡ f.count

-- What a lookup sees of `__alloc_fd`.
abbrev pub Shows : FilesStruct → Ret ℕ → FilesStruct → Type 0
Shows f (ok fd) h = IsReservedIn f fd h
Shows f (err e) h = IsLarger f h
