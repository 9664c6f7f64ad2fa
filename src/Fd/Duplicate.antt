-- ===== src/Fd/Duplicate.antt =====
-- `dup` of src/fs/file.c.
use zso_ptrace.Base.{ℕ, ◌≡◌, none, some, ◌∷◌}
use zso_ptrace.Errno.{Ret, err, ebadf}
use zso_ptrace.Fd.Table.{File, fcheck_files}
use zso_ptrace.Fd.Give.{Given}
use zso_ptrace.Fd.Ends.{Ends}
use zso_ptrace.Fd.Kernel.{Kernel, FdState, get_file}

-- How `dup` ends.
pub data Duplicated (k : Kernel) (fildes : ℕ) (s : FdState) : Ret ℕ → FdState → Type 0 where
  not_open : fcheck_files s.files fildes ≡ none → Duplicated k fildes s (err ebadf) s
  duplicated :
      {r : Ret ℕ} {t : FdState} (file : File)
      → fcheck_files s.files fildes ≡ some file
      → Given 0 k.rlimit_nofile 0 file (record s { log = get_file file ∷ s.log }) r t
      → Duplicated k fildes s r t
