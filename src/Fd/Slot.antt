-- ===== src/Fd/Slot.antt =====
-- Descriptors as numbers: `find_next_fd` to `fd_install` of src/fs/file.c.
use zso_ptrace.Base.{
  ℕ, zero, suc, ◌+◌, ◌-◌, ◌*◌, ◌/◌, Bool, none, some, bit_and, ltb, leb, ◌==◌, ◌!=◌, if◌then◌else◌,
  is_some,
}
use zso_ptrace.Errno.{Ret, ok, err, emfile}
use zso_ptrace.Fd.Table.{
  File, FdTable, FilesStruct, bits_per_long, update, set_open_fd, clear_open_fd,
  set_close_on_exec_bit, clear_close_on_exec_bit,
}
use zso_ptrace.Fd.Expand.{expand_files}
use zso_ptrace.Fd.Kernel.{Kernel, Cmd, hang, ◌>>=◌, ◌>>◌, pure, set_files, get_files, bug_on}

-- `O_CLOEXEC` of the 64-bit machine, 02000000
abbrev pub o_cloexec : ℕ
o_cloexec = 0x80000

-- `flags & O_CLOEXEC` as a test
unfoldable pub wants_cloexec : ℕ → Bool
wants_cloexec flags = bit_and flags o_cloexec != 0

-- `__set_close_on_exec` or `__clear_close_on_exec`, by the flags
unfoldable pub mark_cloexec : ℕ → ℕ → FdTable → FdTable
mark_cloexec flags fd t =
    if wants_cloexec flags then set_close_on_exec_bit fd t else clear_close_on_exec_bit fd t

-- The writes of `__alloc_fd` once a number is found.
unfoldable pub claim_fd : (start fd flags : ℕ) → FilesStruct → FilesStruct
claim_fd start fd flags files =
    let t = mark_cloexec flags fd (set_open_fd fd files.fdt) in
    record files {
      fdt = record t { fd = if is_some (t.fd fd) then update fd none t.fd else t.fd };
      next_fd = if leb start files.next_fd then fd + 1 else files.next_fd;
    }

-- The rest of a round of `__alloc_fd`, with what `expand_files` returned; `again` is `goto repeat`.
unfoldable pub finish_round : Cmd (Ret ℕ) → (start fd flags : ℕ) → Ret ℕ → Cmd (Ret ℕ)
finish_round again start fd flags (err e) = pure (err e)
finish_round again start fd flags (ok n) =
    if n == 0
    then (do files ← get_files; set_files (claim_fd start fd flags files); pure (ok fd))
    else again

-- `__put_unused_fd`
unfoldable pub put_unused_fd_in : ℕ → FilesStruct → FilesStruct
put_unused_fd_in fd files = record files {
  fdt = clear_open_fd fd files.fdt;
  next_fd = if ltb fd files.next_fd then fd else files.next_fd;
}

-- `put_unused_fd`
unfoldable pub put_unused_fd : ℕ → Cmd (Unit {0})
put_unused_fd fd = do files ← get_files; set_files (put_unused_fd_in fd files)

module _ (k : Kernel) where
  unfoldable pub find_next_fd : FdTable → ℕ → ℕ
  find_next_fd t start =
      let maxfd = t.max_fds in
      let word =
        k.find_next_zero_bit t.full_fds_bits (maxfd / bits_per_long) (start / bits_per_long) in
      let bitbit = word * bits_per_long in
      if ltb maxfd bitbit
      then maxfd
      else k.find_next_zero_bit t.open_fds maxfd (if ltb start bitbit then bitbit else start)

  -- The number that `__alloc_fd` tries.
  unfoldable pub candidate : ℕ → FilesStruct → ℕ
  candidate start files =
      let fd = if ltb start files.next_fd then files.next_fd else start in
      if ltb fd files.fdt.max_fds then find_next_fd files.fdt fd else fd

  unfoldable pub alloc_fd_loop : ℕ → (start end flags : ℕ) → Cmd (Ret ℕ)
  alloc_fd_loop zero start end flags s = hang
  alloc_fd_loop (suc rounds) start end flags s =
      let fd = candidate start s.files in
      if leb end fd
      then pure (err emfile) s
      else (do
        r ← expand_files k fd
        finish_round (alloc_fd_loop rounds start end flags) start fd flags r)
          s

  -- `__alloc_fd`. The table grows in every round but the last, up to `end`.
  unfoldable pub alloc_fd_in : (start end flags : ℕ) → Cmd (Ret ℕ)
  unfolding alloc_fd_loop
  alloc_fd_in start end flags s = alloc_fd_loop (suc (end - s.files.fdt.max_fds)) start end flags s

  -- `alloc_fd` and `get_unused_fd_flags`
  unfoldable pub alloc_fd : (start flags : ℕ) → Cmd (Ret ℕ)
  unfolding alloc_fd_in
  alloc_fd start flags = alloc_fd_in start k.rlimit_nofile flags

  unfoldable pub get_unused_fd_flags : ℕ → Cmd (Ret ℕ)
  unfolding alloc_fd_in
  get_unused_fd_flags flags = alloc_fd_in 0 k.rlimit_nofile flags

  -- The loop of `__fd_install` that waits for a resize to end.
  unfoldable pub settle : ℕ → Cmd (Unit {0})
  settle zero s = hang
  settle (suc rounds) s =
      if s.files.resize_in_progress
      then (set_files (k.wait_resize s.files) >> settle rounds) s
      else pure tt s

  -- `__fd_install`, which is `fd_install` on the caller's own table
  unfoldable pub fd_install : ℕ → File → Cmd (Unit {0})
  fd_install fd file = do
    settle 2
    files ← get_files
    bug_on (is_some (files.fdt.fd fd))
    set_files
        (record files { fdt = record (files.fdt) { fd = update fd (some file) files.fdt.fd } })
