-- ===== src/Fd/Clone.antt =====
-- A copy of a table for a new process: `count_open_files` and `dup_fd` of src/fs/file.c.
use zso_ptrace.Base.{
  ℕ, zero, suc, ◌+◌, ◌-◌, ◌*◌, ◌/◌, Bool, true, false, Option, none, some, ltb, leb, if◌then◌else◌,
}
use zso_ptrace.Errno.{Ret, ok, err, enomem, emfile}
use zso_ptrace.Fd.Table.{
  File, FdTable, FilesStruct, bits_per_long, nr_open_default, update, word_nonzero, clear_open_fd,
}
use zso_ptrace.Fd.Alloc.{copy_fd_bitmaps, alloc_fdtable, free_fdtable}
use zso_ptrace.Fd.Kernel.{
  Kernel, Cmd, hang, ◌>>=◌, ◌>>◌, pure, call, get_file, alloc, free, files, set_files, get_files,
}

-- The loop of `count_open_files`: the last of the first `i` words that is not 0, or 0.
unfoldable pub last_word : (ℕ → Bool) → ℕ → ℕ
last_word nonzero zero = 0
last_word nonzero (suc i) = if nonzero i then i else last_word nonzero i

unfoldable pub count_open_files : FdTable → ℕ
unfolding last_word
count_open_files t =
    (last_word (word_nonzero t.open_fds) (t.max_fds / bits_per_long) + 1) * bits_per_long

-- One round of the loop of `dup_fd` over the slots.
unfoldable pub copy_slot : ℕ → Option File → FdTable → Cmd FdTable
copy_slot p (some f) new = do call (get_file f); pure (record new { fd = update p (some f) new.fd })
copy_slot p none new =
    let cleared = clear_open_fd p new in pure (record cleared { fd = update p none cleared.fd })

-- `for (i = open_files; i != 0; i--)`: `i` slots are left, from `p` on.
unfoldable pub copy_slots_loop : (i p : ℕ) → (ℕ → Option File) → FdTable → Cmd FdTable
unfolding copy_slot
copy_slots_loop zero p old new s = pure new s
copy_slots_loop (suc i) p old new s =
    (do new' ← copy_slot p (old p) new; copy_slots_loop i (suc p) old new') s

-- The `memset` behind the loop.
abbrev pub clear_from : ℕ → FdTable → FdTable
clear_from from t = record t {
  fd = λ i. if leb from i then (if ltb i t.max_fds then none else t.fd i) else t.fd i;
}

module _ (k : Kernel) where
  -- The table inside a `files_struct` that was just allocated.
  abbrev pub embedded_table : FdTable
  embedded_table = record {
    max_fds = nr_open_default;
    fd = k.junk_fd;
    close_on_exec = k.junk_bits;
    open_fds = k.junk_bits;
    full_fds_bits = k.junk_bits;
  }

  -- The loop of `dup_fd` that looks for a large enough table. The lock on the old one is given up.
  unfoldable pub grow_loop : ℕ → FdTable → Bool → Cmd (Ret (FdTable × Bool))
  grow_loop zero new embedded s = hang
  grow_loop (suc rounds) new embedded s =
      let open_files = count_open_files s.files.fdt in
      if leb open_files new.max_fds
      then pure (ok (new, embedded)) s
      else (do
        old ← get_files
        set_files (k.gap old)
        if embedded then pure tt else free_fdtable
        larger ← alloc_fdtable k (open_files - 1)
        elim larger [
          | none ↦ do call (free files); pure (err enomem)
          | some t ↦
              if ltb t.max_fds open_files
              then (do free_fdtable; call (free files); pure (err emfile))
              else grow_loop rounds t false
        ])
          s

  -- The copying half of `dup_fd`.
  unfoldable pub copy_table : FdTable → Cmd FdTable
  unfolding copy_slots_loop
  copy_table new = do
    old ← get_files
    let open_files = count_open_files old.fdt
    copied ← copy_slots_loop open_files 0 old.fdt.fd (copy_fd_bitmaps new old.fdt open_files)
    pure (clear_from open_files copied)

  -- `dup_fd`, with the number of rounds that the old table may force
  unfoldable pub dup_fd : ℕ → Cmd (Ret FilesStruct)
  unfolding grow_loop copy_table
  dup_fd rounds =
      if k.files_cachep
      then (do
        call (alloc files)
        grown ← grow_loop rounds embedded_table true
        elim grown [
          | err e ↦ pure (err e)
          | ok (new, embedded) ↦ do
            t ← copy_table new
            pure (
                ok (record {
                  count = 1;
                  resize_in_progress = false;
                  fdt = t;
                  embedded = embedded;
                  next_fd = 0;
                }))
        ])
      else pure (err enomem)
