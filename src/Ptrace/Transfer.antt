-- ===== src/Ptrace/Transfer.antt =====
-- `ptrace_dup_to_remote` and `ptrace_dup_from_remote` of src/kernel/ptrace.c: a file crosses from one
-- table to the other.
use zso_ptrace.Base.{ℕ, ◌≡◌, ◌≢◌, ◌⊎◌, true, false, none, some, List, ◌∷◌}
use zso_ptrace.Errno.{Errno, Ret, ok, err, ebadf, einval, emfile, enomem}
use zso_ptrace.Fd.Table.{File, fcheck_files}
use zso_ptrace.Fd.Valid.{IsValid}
use zso_ptrace.Fd.Copied.{IsLarger}
use zso_ptrace.Fd.Refs.{HasSameRefs}
use zso_ptrace.Fd.Give.{IsGiven}
use zso_ptrace.Fd.Get.{masked}
use zso_ptrace.Fd.Dup.{bad_flags}
use zso_ptrace.Fd.Kernel.{Kernel, Call, get_file, fput}
use zso_ptrace.Ptrace.Store.{Store}

-- How the transfer of descriptor `fd` of table `src` into table `dst` ends. Every table but `dst` is
-- as it was.
pub data Transferred (k : Kernel) (src dst fd mask flags : ℕ) (w : Store)
    : Ret ℕ → Store → Type 0 where
  refused : bad_flags flags ≡ true → Transferred k src dst fd mask flags w (err einval) w
  no_file :
      bad_flags flags ≡ false
      → fcheck_files (w.tables src) fd ≡ none
      → Transferred k src dst fd mask flags w (err ebadf) w
  hidden :
      (file : File)
      → bad_flags flags ≡ false
      → fcheck_files (w.tables src) fd ≡ some file
      → masked k mask file ≡ true
      → Transferred k src dst fd mask flags w (err ebadf) w
  moved :
      {n : ℕ} {u : Store} (file : File)
      → bad_flags flags ≡ false
      → fcheck_files (w.tables src) fd ≡ some file
      → masked k mask file ≡ false
      → IsGiven 0 k.rlimit_nofile flags file (w.tables dst) n (u.tables dst)
      → ((j : ℕ) → j ≢ dst → u.tables j ≡ w.tables j)
      → HasSameRefs (get_file file ∷ w.log) u.log
      → Transferred k src dst fd mask flags w (ok n) u
  failed :
      {e : Errno} {u : Store} (file : File) (log : List Call)
      → bad_flags flags ≡ false
      → fcheck_files (w.tables src) fd ≡ some file
      → (e ≡ emfile) ⊎ (e ≡ enomem)
      → IsLarger (w.tables dst) (u.tables dst)
      → IsValid (u.tables dst)
      → ((j : ℕ) → j ≢ dst → u.tables j ≡ w.tables j)
      → HasSameRefs (get_file file ∷ w.log) log
      → u.log ≡ fput file ∷ log
      → Transferred k src dst fd mask flags w (err e) u
