-- ===== src/Fd/Onto.antt =====
-- A file is put under a descriptor of the caller's choice: `dup3` of src/fs/file.c and
-- `do_dup2_to_remote`, which share all but their first tests.
use zso_ptrace.Base.{ℕ, ◌≤◌, ◌<◌, ◌≡◌, ◌⊎◌, true, false, Option, none, some}
use zso_ptrace.Errno.{Errno, Ret, ok, err, ebadf, einval, emfile, enomem}
use zso_ptrace.Fd.Table.{File, FilesStruct}
use zso_ptrace.Fd.Valid.{IsValid}
use zso_ptrace.Fd.Copied.{IsLarger}
use zso_ptrace.Fd.Refs.{HasSameRefs}
use zso_ptrace.Fd.Replace.{Dupped}
use zso_ptrace.Fd.Dup.{bad_flags}
use zso_ptrace.Fd.Ends.{Ends}
use zso_ptrace.Fd.Kernel.{Kernel, FdState}

-- What `expand_files` leaves to its caller.
record Kept (f h : FilesStruct) : Type 0 where
  larger : IsLarger f h
  valid : IsValid h
  idle : h.resize_in_progress ≡ false

abbrev Room : ℕ → Ret ℕ → FilesStruct → Type 0
Room nr (ok n) h = nr < h.fdt.max_fds
Room nr (err e) h = (e ≡ enomem) ⊎ (e ≡ emfile)

-- How the attempt ends, where `found` is the file to put under `fd`. No table but the one of the
-- state changes, and that one only grows unless the file is put in.
pub data PutOnto (found : Option File) (fd flags : ℕ) (s : FdState) : Ret ℕ → FdState → Type 0 where
  no_file :
      {t : FdState}
      → found ≡ none
      → IsLarger s.files t.files
      → IsValid t.files
      → HasSameRefs s.log t.log
      → PutOnto found fd flags s (err ebadf) t
  no_room :
      {e : Errno} {t : FdState} (file : File)
      → found ≡ some file
      → (e ≡ enomem) ⊎ (e ≡ ebadf)
      → IsLarger s.files t.files
      → IsValid t.files
      → HasSameRefs s.log t.log
      → PutOnto found fd flags s (err e) t
  put :
      {r : Ret ℕ} {t : FdState} (file : File) (u : FdState)
      → found ≡ some file
      → IsLarger s.files u.files
      → fd < u.files.fdt.max_fds
      → HasSameRefs s.log u.log
      → Dupped file fd flags u r t
      → PutOnto found fd flags s r t

-- The same behind the first tests, which change nothing.
pub data Chosen (k : Kernel) (found : Option File) (fd flags : ℕ) (s : FdState)
    : Ret ℕ → FdState → Type 0 where
  refused_flags : bad_flags flags ≡ true → Chosen k found fd flags s (err einval) s
  over_limit :
      bad_flags flags ≡ false → k.rlimit_nofile ≤ fd → Chosen k found fd flags s (err ebadf) s
  tried :
      {r : Ret ℕ} {t : FdState}
      → bad_flags flags ≡ false
      → fd < k.rlimit_nofile
      → PutOnto found fd flags s r t
      → Chosen k found fd flags s r t
