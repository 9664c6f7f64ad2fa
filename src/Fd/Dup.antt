-- ===== src/Fd/Dup.antt =====
-- Duplication of descriptors: `do_dup2` to `iterate_fd` of src/fs/file.c. `dup2_to_remote` is the
-- function that this tree adds for PTRACE_DUP2_TO_REMOTE.
use zso_ptrace.Base.{
  ℕ, zero, suc, ◌-◌, ◌^◌, Bool, ◌&&◌, Option, none, some, bit_and, leb, ◌==◌, ◌!=◌, if◌then◌else◌,
  is_none,
}
use zso_ptrace.Errno.{Ret, ok, err, ebadf, einval, ebusy, emfile}
use zso_ptrace.Fd.Table.{File, FdTable, FilesStruct, update, fd_is_open, fcheck_files, set_open_fd}
use zso_ptrace.Fd.Expand.{expand_files}
use zso_ptrace.Fd.Slot.{
  o_cloexec, mark_cloexec, alloc_fd, alloc_fd_in, get_unused_fd_flags, fd_install,
}
use zso_ptrace.Fd.Close.{close_fd}
use zso_ptrace.Fd.Get.{fget_raw}
use zso_ptrace.Fd.Kernel.{
  Kernel, Cmd, ◌>>=◌, ◌>>◌, pure, call, get_file, fput, filp_close, set_files, get_files,
}

-- `(flags & ~O_CLOEXEC) != 0` on 32 bits
unfoldable pub bad_flags : ℕ → Bool
bad_flags flags = bit_and flags (2 ^ 32 - 1 - o_cloexec) != 0

-- The writes of `do_dup2`.
unfoldable pub put_in_slot : (fd flags : ℕ) → File → FilesStruct → FilesStruct
put_in_slot fd flags file files =
    let t : FdTable = record (files.fdt) { fd = update fd (some file) files.fdt.fd } in
    record files { fdt = mark_cloexec flags fd (set_open_fd fd t) }

-- `if (tofree) filp_close(tofree, files)`
abbrev pub close_old : Option File → Cmd (Unit {0})
close_old none = pure tt
close_old (some old) = call (filp_close old)

-- `do_dup2`
unfoldable pub do_dup2 : File → (fd flags : ℕ) → Cmd (Ret ℕ)
do_dup2 file fd flags = do
  files ← get_files
  let tofree = files.fdt.fd fd
  if is_none tofree && fd_is_open fd files.fdt then pure (err ebusy) else (do
    call (get_file file)
    set_files (put_in_slot fd flags file files)
    close_old tofree
    pure (ok fd))

-- The end of `dup3` and of `do_dup2_to_remote`: what `expand_files` returned, and the file that was
-- looked up after it.
unfoldable pub dup_checked : Ret ℕ → Option File → (fd flags : ℕ) → Cmd (Ret ℕ)
dup_checked r none fd flags = pure (err ebadf)
dup_checked (err emfile) (some file) fd flags = pure (err ebadf)
dup_checked (err e) (some file) fd flags = pure (err e)
dup_checked (ok n) (some file) fd flags = do_dup2 file fd flags

module _ (k : Kernel) where
  -- `replace_fd`
  unfoldable pub replace_fd : ℕ → Option File → ℕ → Cmd (Ret ℕ)
  replace_fd fd none flags = close_fd k fd
  replace_fd fd (some file) flags = if leb k.rlimit_nofile fd then pure (err ebadf) else (do
    r ← expand_files k fd
    elim r [ err e ↦ pure (err e) | ok n ↦ do_dup2 file fd flags ])

  -- `do_dup2_to_remote` on the child's table. `mine` gives the caller's table from the child's: the
  -- same one where the two share it.
  unfoldable pub dup2_to_remote :
      (mine : FilesStruct → FilesStruct) → (local_fd remote_fd flags : ℕ) → Cmd (Ret ℕ)
  unfolding bad_flags
  dup2_to_remote mine local_fd remote_fd flags =
      if bad_flags flags
      then pure (err einval)
      else if leb k.rlimit_nofile remote_fd
      then pure (err ebadf)
      else (do
        r ← expand_files k remote_fd
        files ← get_files
        dup_checked r (fcheck_files (mine files) local_fd) remote_fd flags)

  -- `dup3`
  unfoldable pub dup3 : (oldfd newfd flags : ℕ) → Cmd (Ret ℕ)
  unfolding bad_flags
  dup3 oldfd newfd flags =
      if bad_flags flags
      then pure (err einval)
      else if oldfd == newfd
      then pure (err einval)
      else if leb k.rlimit_nofile newfd
      then pure (err ebadf)
      else (do
        r ← expand_files k newfd
        files ← get_files
        dup_checked r (fcheck_files files oldfd) newfd flags)

  -- `dup2`
  unfoldable pub dup2 : (oldfd newfd : ℕ) → Cmd (Ret ℕ)
  unfolding dup3
  dup2 oldfd newfd =
      if newfd == oldfd
      then (do
        files ← get_files
        pure (if is_none (fcheck_files files oldfd) then err ebadf else ok oldfd))
      else dup3 oldfd newfd 0

  -- The end of `dup`, and of the two calls that dup from and to a remote table: install the file
  -- under the number, or drop the reference.
  unfoldable pub install_or_put : File → Ret ℕ → Cmd (Ret ℕ)
  install_or_put file (ok fd) = do fd_install k fd file; pure (ok fd)
  install_or_put file (err e) = do call (fput file); pure (err e)

  -- Those two calls behind their lookup, with the table that they give the file to.
  unfoldable pub give : (end flags : ℕ) → File → Cmd (Ret ℕ)
  unfolding install_or_put
  give end flags file = do r ← alloc_fd_in k 0 end flags; install_or_put file r

  -- `dup`, and what it does with the file that it looked up.
  unfoldable pub dup_found : Option File → Cmd (Ret ℕ)
  dup_found none = pure (err ebadf)
  dup_found (some file) = do r ← get_unused_fd_flags k 0; install_or_put file r

  unfoldable pub dup : (attempts fildes : ℕ) → Cmd (Ret ℕ)
  dup attempts fildes = do found ← fget_raw k attempts fildes; dup_found found

  -- `f_dupfd`
  unfoldable pub f_dupfd : ℕ → File → ℕ → Cmd (Ret ℕ)
  f_dupfd from file flags = if leb k.rlimit_nofile from then pure (err einval) else (do
    r ← alloc_fd k from flags
    elim r [
      | err e ↦ pure (err e)
      | ok fd ↦ do call (get_file file); fd_install k fd file; pure (ok fd)
    ])

-- The loop of `iterate_fd` from `n` on, with so many slots left.
unfoldable pub iterate_loop : (slots n : ℕ) → (File → ℕ → ℕ) → (ℕ → Option File) → ℕ
iterate_loop zero n f fd = 0
iterate_loop (suc slots) n f fd = elim (fd n) [
  | none ↦ iterate_loop slots (suc n) f fd
  | some file ↦ if f file n == 0 then iterate_loop slots (suc n) f fd else f file n
]

-- `iterate_fd`; the result of the callback counts by being 0 or not.
unfoldable pub iterate_fd : Option FilesStruct → ℕ → (File → ℕ → ℕ) → ℕ
unfolding iterate_loop
iterate_fd none n f = 0
iterate_fd (some files) n f = iterate_loop (files.fdt.max_fds - n) n f files.fdt.fd
