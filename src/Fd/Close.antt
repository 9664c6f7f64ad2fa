-- ===== src/Fd/Close.antt =====
-- Closing: `__close_fd`, `do_close_on_exec` and `close_files` of src/fs/file.c.
use zso_ptrace.Base.{ℕ, zero, suc, ◌+◌, ◌*◌, ◌/◌, false, none, some, ltb, leb, if◌then◌else◌}
use zso_ptrace.Errno.{Ret, err, ebadf}
use zso_ptrace.Fd.Table.{
  Bitmap, FilesStruct, bits_per_long, update, any_set, word_nonzero, clear_close_on_exec_bit,
}
use zso_ptrace.Fd.Slot.{put_unused_fd_in}
use zso_ptrace.Fd.Kernel.{
  Kernel, Cmd, hang, ◌>>=◌, ◌>>◌, pure, call, filp_close, set_files, get_files,
}

-- `rcu_assign_pointer(fdt->fd[fd], NULL)`, and the `xchg` with NULL of `close_files`.
abbrev pub empty_slot : ℕ → FilesStruct → FilesStruct
empty_slot fd files = record files { fdt = record (files.fdt) { fd = update fd none files.fdt.fd } }

-- What `__close_fd` does to the table: the slot, the close-on-exec bit, the open bit.
unfoldable pub vacate : ℕ → FilesStruct → FilesStruct
vacate fd files =
    let emptied = empty_slot fd files in
    put_unused_fd_in fd (record emptied { fdt = clear_close_on_exec_bit fd emptied.fdt })

-- `fdt->close_on_exec[i] = 0`
abbrev pub clear_word : ℕ → Bitmap → Bitmap
clear_word w b i =
    if leb (w * bits_per_long) i
    then (if ltb i (w * bits_per_long + bits_per_long) then false else b i)
    else b i

module _ (k : Kernel) where
  -- `__close_fd`
  unfoldable pub close_fd : ℕ → Cmd (Ret ℕ)
  close_fd fd = do
    files ← get_files
    if leb files.fdt.max_fds fd then pure (err ebadf) else elim (files.fdt.fd fd) [
      | none ↦ pure (err ebadf)
      | some file ↦ do
        set_files (vacate fd files)
        call (filp_close file)
        pure (k.close_result file)
    ]

  -- The body of the inner loop of `do_close_on_exec`, at a bit that is set. The lock is given up
  -- round `filp_close`.
  unfoldable pub close_one : ℕ → Cmd (Unit {0})
  close_one fd = do
    files ← get_files
    elim (files.fdt.fd fd) [
      | none ↦ pure tt
      | some file ↦ do
        set_files (put_unused_fd_in fd (empty_slot fd files))
        call (filp_close file)
        files ← get_files
        set_files (k.gap files)
    ]

  -- `for ( ; set ; fd++, set >>= 1)`: `n` bits of the word `set` are left.
  unfoldable pub close_word : ℕ → ℕ → Bitmap → Cmd (Unit {0})
  close_word zero fd set s = pure tt s
  close_word (suc n) fd set s =
      if any_set set 0 (suc n)
      then (do if set 0 then close_one fd else pure tt; close_word n (suc fd) (λ j. set (suc j))) s
      else pure tt s

  -- One round of the outer loop, behind its test.
  unfoldable pub close_on_exec_word : ℕ → Cmd (Unit {0})
  unfolding close_word
  close_on_exec_word i = do
    files ← get_files
    let set = files.fdt.close_on_exec
    if word_nonzero set i
        then (do
          set_files (record files {
            fdt = record (files.fdt) { close_on_exec = clear_word i files.fdt.close_on_exec };
          })
          close_word bits_per_long (i * bits_per_long) (λ j. set (i * bits_per_long + j)))
        else pure tt

  unfoldable pub close_on_exec_loop : ℕ → ℕ → Cmd (Unit {0})
  close_on_exec_loop zero i s = hang
  close_on_exec_loop (suc rounds) i s =
      if leb s.files.fdt.max_fds (i * bits_per_long)
      then pure tt s
      else (close_on_exec_word i >> close_on_exec_loop rounds (suc i)) s

  -- `do_close_on_exec`
  unfoldable pub do_close_on_exec : Cmd (Unit {0})
  unfolding close_on_exec_loop
  do_close_on_exec s = close_on_exec_loop (suc (s.files.fdt.max_fds / bits_per_long)) 0 s

-- The body of the inner loop of `close_files`, at a bit that is set.
unfoldable pub drop_slot : ℕ → Cmd (Unit {0})
drop_slot i = do
  files ← get_files
  set_files (empty_slot i files)
  elim (files.fdt.fd i) [ none ↦ pure tt | some file ↦ call (filp_close file) ]

-- `while (set)`: `n` bits of the word `set` are left.
unfoldable pub drop_word : ℕ → ℕ → Bitmap → Cmd (Unit {0})
drop_word zero i set s = pure tt s
drop_word (suc n) i set s =
    if any_set set 0 (suc n)
    then (do if set 0 then drop_slot i else pure tt; drop_word n (suc i) (λ j. set (suc j))) s
    else pure tt s

unfoldable pub close_files_loop : ℕ → ℕ → Cmd (Unit {0})
unfolding drop_word
close_files_loop zero j s = hang
close_files_loop (suc rounds) j s =
    let i = j * bits_per_long in
    let set = s.files.fdt.open_fds in
    if leb s.files.fdt.max_fds i
    then pure tt s
    else (do drop_word bits_per_long i (λ b. set (i + b)); close_files_loop rounds (suc j)) s

-- `close_files`
unfoldable pub close_files : Cmd (Unit {0})
unfolding close_files_loop
close_files s = close_files_loop (suc (s.files.fdt.max_fds / bits_per_long)) 0 s
