-- ===== src/Fd/Get.antt =====
-- Lookup of files: `__fget_files` to `get_close_on_exec` of src/fs/file.c, and the inline functions
-- of src/include/linux/file.h.
use zso_ptrace.Base.{
  ℕ, zero, suc, ◌+◌, ◌*◌, ◌/◌, ◌%◌, Bool, ◌&&◌, Option, none, some, bit_and, ltb, ◌==◌, ◌!=◌,
  if◌then◌else◌,
}
use zso_ptrace.Fd.Table.{
  File, fcheck_files, close_on_exec, set_close_on_exec_bit, clear_close_on_exec_bit,
}
use zso_ptrace.Fd.Kernel.{
  Kernel, Cmd, hang, ◌>>=◌, ◌>>◌, pure, call, get_file, fput, lock_pos, unlock_pos, set_files,
  get_files,
}

-- `FMODE_PATH` and `FMODE_ATOMIC_POS`
abbrev pub fmode_path : ℕ
fmode_path = 0x4000

abbrev pub fmode_atomic_pos : ℕ
fmode_atomic_pos = 0x8000

-- `FDPUT_FPUT` and `FDPUT_POS_UNLOCK`
abbrev pub fdput_fput : ℕ
fdput_fput = 1

abbrev pub fdput_pos_unlock : ℕ
fdput_pos_unlock = 2

-- `v | FDPUT_FPUT` and `v | FDPUT_POS_UNLOCK`
abbrev pub or_fput : ℕ → ℕ
or_fput v = if v % 2 == 0 then v + fdput_fput else v

abbrev pub or_pos_unlock : ℕ → ℕ
or_pos_unlock v = if v / 2 % 2 == 0 then v + fdput_pos_unlock else v

-- A pointer as a number, and back.
abbrev pub word_of : Option File → ℕ
word_of none = 0
word_of (some f) = f

abbrev pub file_of : ℕ → Option File
file_of v = if v == 0 then none else some v

-- `struct fd`
pub record FdRef : Type 0 where
  pub file : Option File
  pub flags : ℕ

-- `__to_fd`: `v & ~3` and `v & 3`.
unfoldable pub to_fd : ℕ → FdRef
to_fd v = record { file = file_of (v / 4 * 4); flags = v % 4 }

-- `fput_light`, whose second argument is a truth value
unfoldable pub fput_light : File → Bool → Cmd (Unit {0})
fput_light file fput_needed = if fput_needed then call (fput file) else pure tt

-- `fput` or `__f_unlock_pos` through a `struct fd`, whose file a caller has tested not to be NULL.
abbrev on_file : (File → Cmd (Unit {0})) → Option File → Cmd (Unit {0})
on_file act none = pure tt
on_file act (some f) = act f

unfoldable pub f_unlock_pos : File → Cmd (Unit {0})
f_unlock_pos f = call (unlock_pos f)

-- `fdput` and `fdput_pos`
unfoldable pub fdput : FdRef → Cmd (Unit {0})
fdput fd = if fd.flags % 2 == 1 then on_file (λ f. call (fput f)) fd.file else pure tt

unfoldable pub fdput_pos : FdRef → Cmd (Unit {0})
unfolding f_unlock_pos
fdput_pos fd = do if fd.flags / 2 % 2 == 1 then on_file f_unlock_pos fd.file else pure tt; fdput fd

module _ (k : Kernel) where
  -- `file->f_mode & mask` as a test
  abbrev pub masked : ℕ → File → Bool
  masked mask f = bit_and (k.f_mode f) mask != 0

  -- The loop of `__fget_files` with so many attempts left. An attempt fails when the last reference
  -- is being dropped; the others have changed the table before the next one.
  unfoldable pub fget_loop : ℕ → (fd mask : ℕ) → Cmd (Option File)
  fget_loop zero fd mask s = hang
  fget_loop (suc attempts) fd mask s = elim (fcheck_files s.files fd) [
    | none ↦ pure none s
    | some f ↦
        if masked mask f
        then pure none s
        else if k.get_file_rcu attempts f
        then (do call (get_file f); pure (some f)) s
        else (set_files (k.gap s.files) >> fget_loop attempts fd mask) s
  ]

  -- `__fget_files`, and `__fget` on the caller's own table
  unfoldable pub fget_in : (attempts fd mask : ℕ) → Cmd (Option File)
  unfolding fget_loop
  fget_in attempts fd mask = fget_loop attempts fd mask

  -- `fget_files`, `fget` and `fget_raw`
  unfoldable pub fget_files : (attempts fd : ℕ) → Cmd (Option File)
  unfolding fget_in
  fget_files attempts fd = fget_in attempts fd fmode_path

  unfoldable pub fget : (attempts fd : ℕ) → Cmd (Option File)
  unfolding fget_in
  fget attempts fd = fget_in attempts fd fmode_path

  unfoldable pub fget_raw : (attempts fd : ℕ) → Cmd (Option File)
  unfolding fget_in
  fget_raw attempts fd = fget_in attempts fd 0

  -- `__fget_light`
  unfoldable pub fget_light : (attempts fd mask : ℕ) → Cmd ℕ
  unfolding fget_in
  fget_light attempts fd mask = do
    files ← get_files
    if files.count == 1
        then elim (fcheck_files files fd) [
          | none ↦ pure 0
          | some f ↦ pure (if masked mask f then 0 else f)
        ]
        else (do
          found ← fget_in attempts fd mask
          elim found [ none ↦ pure 0 | some f ↦ pure (or_fput f) ])

  -- `__fdget` and `__fdget_raw`
  unfoldable pub fdget_word : (attempts fd : ℕ) → Cmd ℕ
  unfolding fget_light
  fdget_word attempts fd = fget_light attempts fd fmode_path

  unfoldable pub fdget_raw_word : (attempts fd : ℕ) → Cmd ℕ
  unfolding fget_light
  fdget_raw_word attempts fd = fget_light attempts fd 0

  -- `__fdget_pos`
  unfoldable pub fdget_pos_word : (attempts fd : ℕ) → Cmd ℕ
  unfolding fdget_word
  fdget_pos_word attempts fd = do
    v ← fdget_word attempts fd
    let file = v / 4 * 4
    if (file != 0) && masked fmode_atomic_pos file && ltb 1 (k.file_count file)
        then (do call (lock_pos file); pure (or_pos_unlock v))
        else pure v

  -- `fdget`, `fdget_raw` and `fdget_pos`
  unfoldable pub fdget : (attempts fd : ℕ) → Cmd FdRef
  unfolding fdget_word to_fd
  fdget attempts fd = do v ← fdget_word attempts fd; pure (to_fd v)

  unfoldable pub fdget_raw : (attempts fd : ℕ) → Cmd FdRef
  unfolding fdget_raw_word to_fd
  fdget_raw attempts fd = do v ← fdget_raw_word attempts fd; pure (to_fd v)

  unfoldable pub fdget_pos : (attempts fd : ℕ) → Cmd FdRef
  unfolding fdget_pos_word to_fd
  fdget_pos attempts fd = do v ← fdget_pos_word attempts fd; pure (to_fd v)

-- `set_close_on_exec` and `get_close_on_exec`
unfoldable pub set_close_on_exec : ℕ → Bool → Cmd (Unit {0})
set_close_on_exec fd flag = do
  files ← get_files
  set_files (record files {
    fdt = if flag then set_close_on_exec_bit fd files.fdt else clear_close_on_exec_bit fd files.fdt;
  })

unfoldable pub get_close_on_exec : ℕ → Cmd Bool
get_close_on_exec fd = do files ← get_files; pure (close_on_exec fd files.fdt)
