-- ===== src/Fd/Expand.antt =====
-- Growth of a table: `expand_fdtable` and `expand_files` of src/fs/file.c. The file lock is held by
-- the caller; where the source gives it up and takes it again, the other threads' changes are made.
use zso_ptrace.Base.{ℕ, zero, suc, true, false, none, some, ltb, leb, if◌then◌else◌}
use zso_ptrace.Errno.{Ret, ok, err, enomem, emfile}
use zso_ptrace.Fd.Table.{FdTable}
use zso_ptrace.Fd.Alloc.{alloc_fdtable, free_fdtable, copy_fdtable}
use zso_ptrace.Fd.Kernel.{Kernel, Cmd, hang, ◌>>=◌, ◌>>◌, pure, set_files, get_files, bug_on}

module _ (k : Kernel) where
  -- The second half of `expand_fdtable`: the new table takes the place of the current one, which is
  -- freed unless it is embedded.
  unfoldable pub replace_table : FdTable → Cmd (Ret ℕ)
  replace_table new = do
    files ← get_files
    copied ← copy_fdtable new files.fdt
    set_files (record files { fdt = copied; embedded = false })
    if files.embedded then pure tt else free_fdtable
    pure (ok 1)

  unfoldable pub expand_fdtable : ℕ → Cmd (Ret ℕ)
  expand_fdtable nr = do
    new ← alloc_fdtable k nr
    files ← get_files
    set_files (k.gap files)
    elim new [
      | none ↦ pure (err enomem)
      | some t ↦
          if leb t.max_fds nr
          then (do free_fdtable; pure (err emfile))
          else (do files ← get_files; bug_on (ltb nr files.fdt.max_fds); replace_table t)
    ]

  -- `expanded` is what the call returns when there is nothing left to do.
  unfoldable pub expand_loop : ℕ → ℕ → ℕ → Cmd (Ret ℕ)
  expand_loop zero nr expanded s = hang
  expand_loop (suc rounds) nr expanded s =
      let files = s.files in
      if ltb nr files.fdt.max_fds
      then pure (ok expanded) s
      else if leb k.nr_open nr
      then pure (err emfile) s
      else if files.resize_in_progress
      then (set_files (k.wait_resize files) >> expand_loop rounds nr 1) s
      else (do
        set_files (record files { resize_in_progress = true })
        r ← expand_fdtable nr
        files ← get_files
        set_files (record files { resize_in_progress = false })
        pure r)
          s

  -- `wait_event` returns when nobody resizes the table, so the second round does not wait.
  unfoldable pub expand_files : ℕ → Cmd (Ret ℕ)
  unfolding expand_loop
  expand_files nr = expand_loop 2 nr 0
