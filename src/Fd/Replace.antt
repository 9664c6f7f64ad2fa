-- ===== src/Fd/Replace.antt =====
-- One descriptor changes: `__close_fd`, `do_dup2` and `__fd_install` of src/fs/file.c.
use zso_ptrace.Base.{
  ℕ, ◌<◌, ◌≡◌, refl, inl, inr, Bool, true, false, Option, none, some, ◌∷◌, arith, leb, ◌==◌,
  if◌then◌else◌, Bool-cases, Option-cases,
}
use zso_ptrace.Errno.{Ret, ok, err, ebadf, ebusy}
use zso_ptrace.Fd.Table.{
  File, FilesStruct, update, fcheck_files, fd_is_open, set_open_fd, clear_open_fd,
  set_close_on_exec_bit, clear_close_on_exec_bit,
}
use zso_ptrace.Fd.Valid.{IsValid}
use zso_ptrace.Fd.Writes.{put_in_slot-IsValid, vacate-IsValid, install-IsValid}
use zso_ptrace.Fd.Slot.{mark_cloexec, wants_cloexec, put_unused_fd_in, settle, fd_install}
use zso_ptrace.Fd.Close.{vacate, close_fd}
use zso_ptrace.Fd.Dup.{put_in_slot, do_dup2}
use zso_ptrace.Fd.Ends.{Ends, ends}
use zso_ptrace.Fd.Kernel.{Kernel, FdState, get_file, filp_close, done}

-- `h` is `f` with `v` under descriptor `fd`, which is marked open and close-on-exec as said; all else
-- is as it was.
pub record IsWritten (f : FilesStruct) (fd : ℕ) (v : Option File) (marked cloexec : Bool)
    (h : FilesStruct) : Type 0 where
  pub finds : (i : ℕ) → fcheck_files h i ≡ (if i == fd then v else fcheck_files f i)
  pub opens : (i : ℕ) → h.fdt.open_fds i ≡ (if i == fd then marked else f.fdt.open_fds i)
  pub marks : (i : ℕ) → h.fdt.close_on_exec i ≡ (if i == fd then cloexec else f.fdt.close_on_exec i)
  pub same_size : h.fdt.max_fds ≡ f.fdt.max_fds
  pub same_count : h.count ≡ f.count
  pub same_flag : h.resize_in_progress ≡ f.resize_in_progress

vacate-IsWritten :
    (fd : ℕ) (f : FilesStruct) → fd < f.fdt.max_fds → IsWritten f fd none false false (vacate fd f)
unfolding vacate put_unused_fd_in clear_open_fd clear_close_on_exec_bit fcheck_files
vacate-IsWritten fd f within = record {
  finds = λ i. ground arith;
  opens = λ i. ground arith;
  marks = λ i. ground arith;
  same_size = ground arith;
  same_count = ground arith;
  same_flag = ground arith;
}

put_in_slot-IsWritten :
    (fd flags : ℕ) (file : File) (f : FilesStruct)
    → fd < f.fdt.max_fds
    → IsWritten f fd (some file) true (wants_cloexec flags) (put_in_slot fd flags file f)
unfolding put_in_slot set_open_fd mark_cloexec set_close_on_exec_bit clear_close_on_exec_bit
    fcheck_files
put_in_slot-IsWritten fd flags file f within = record {
  finds = λ i. ground arith;
  opens = λ i. ground arith;
  marks = λ i. ground arith;
  same_size = ground arith;
  same_count = ground arith;
  same_flag = ground arith;
}

-- How `__close_fd` ends.
pub data Closed (k : Kernel) (fd : ℕ) (s : FdState) : Ret ℕ → FdState → Type 0 where
  not_open : fcheck_files s.files fd ≡ none → Closed k fd s (err ebadf) s
  closed :
      {t : FdState} (file : File)
      → fcheck_files s.files fd ≡ some file
      → IsWritten s.files fd none false false t.files
      → IsValid t.files
      → t.log ≡ filp_close file ∷ s.log
      → Closed k fd s (k.close_result file) t

-- `__close_fd` empties the slot of an open descriptor, marks it free and not close-on-exec, hands its
-- file to `filp_close` once and returns what that returns; every other descriptor stays as it is. On
-- a descriptor with no file it returns EBADF and changes nothing.
pub close_fd-Closed :
    (k : Kernel) (fd : ℕ) (s : FdState) → IsValid s.files → Ends (Closed k fd s) (close_fd k fd s)
unfolding close_fd fcheck_files
close_fd-Closed k fd s v = elim (Bool-cases (leb s.files.fdt.max_fds fd)) [
  | inl above ↦ simp above (ends (not_open (ground arith)))
  | inr below ↦ simp below (elim (Option-cases (s.files.fdt.fd fd)) [
    | inl e ↦ simp e (ends (not_open (ground arith)))
    | inr (file, e) ↦ simp e (
        ends (
          closed file (ground arith) (vacate-IsWritten fd s.files (ground arith))
            (vacate-IsValid fd v (ground arith)) refl))
  ])
]

-- How `do_dup2` ends.
pub data Dupped (file : File) (fd flags : ℕ) (s : FdState) : Ret ℕ → FdState → Type 0 where
  busy :
      fcheck_files s.files fd ≡ none
      → s.files.fdt.open_fds fd ≡ true
      → Dupped file fd flags s (err ebusy) s
  filled :
      {t : FdState}
      → fcheck_files s.files fd ≡ none
      → s.files.fdt.open_fds fd ≡ false
      → IsWritten s.files fd (some file) true (wants_cloexec flags) t.files
      → IsValid t.files
      → t.log ≡ get_file file ∷ s.log
      → Dupped file fd flags s (ok fd) t
  replaced :
      {t : FdState} (old : File)
      → fcheck_files s.files fd ≡ some old
      → IsWritten s.files fd (some file) true (wants_cloexec flags) t.files
      → IsValid t.files
      → t.log ≡ filp_close old ∷ get_file file ∷ s.log
      → Dupped file fd flags s (ok fd) t

-- do_dup2 inside a well-formed table: a descriptor that is reserved but has no file is EBUSY
-- without a change, and only such a one; otherwise the file gets one more reference and stands
-- under the descriptor with the close-on-exec bit of the flags, and the file that stood there is
-- closed after that.
pub do_dup2-Dupped :
    (file : File) (fd flags : ℕ) (s : FdState)
    → IsValid s.files
    → fd < s.files.fdt.max_fds
    → Ends (Dupped file fd flags s) (do_dup2 file fd flags s)
unfolding do_dup2 fcheck_files fd_is_open
do_dup2-Dupped file fd flags s v within = elim (Option-cases (s.files.fdt.fd fd)) [
  | inl e ↦ elim (Bool-cases (s.files.fdt.open_fds fd)) [
    | inl taken ↦ simp (e, taken) (ends (busy (ground arith) taken))
    | inr free ↦
        simp (e, free)
          (ends (
            filled (ground arith) free (put_in_slot-IsWritten fd flags file s.files within)
              (put_in_slot-IsValid fd v within flags file) refl))
  ]
  | inr (old, e) ↦ simp e (
      ends (
        replaced old (ground arith) (put_in_slot-IsWritten fd flags file s.files within)
          (put_in_slot-IsValid fd v within flags file) refl))
]

install-IsWritten :
    (fd : ℕ) (file : File) (f : FilesStruct)
    → fd < f.fdt.max_fds
    → f.fdt.open_fds fd ≡ true
    → IsWritten f fd
        (some file)
        true
        (f.fdt.close_on_exec fd)
        (record f { fdt = record (f.fdt) { fd = update fd (some file) f.fdt.fd } })
unfolding fcheck_files
install-IsWritten fd file f within marked = record {
  finds = λ i. ground arith;
  opens = λ i. ground arith;
  marks = λ i. ground arith;
  same_size = refl;
  same_count = refl;
  same_flag = refl;
}

settle-idle :
    (k : Kernel) (s : FdState) → s.files.resize_in_progress ≡ false → settle k 2 s ≡ done tt s
unfolding settle
settle-idle k s idle = simp idle

-- `__fd_install` under a reserved descriptor, while nobody resizes the table: no BUG, and the file
-- stands there.
pub fd_install-IsWritten :
    (k : Kernel) (fd : ℕ) (file : File) (s : FdState)
    → IsValid s.files
    → s.files.resize_in_progress ≡ false
    → fd < s.files.fdt.max_fds
    → s.files.fdt.open_fds fd ≡ true
    → s.files.fdt.fd fd ≡ none
    → Ends
        (λ _ t.
          IsWritten s.files fd (some file) true (s.files.fdt.close_on_exec fd) t.files
          × IsValid t.files
          × (t.log ≡ s.log))
        (fd_install k fd file s)
unfolding fd_install
fd_install-IsWritten k fd file s v idle within marked vacant = rw (settle-idle k s idle) (
    simp vacant (
      ends (
        install-IsWritten fd file s.files within marked,
        install-IsValid fd v within (some file) marked,
        refl,
      )))
