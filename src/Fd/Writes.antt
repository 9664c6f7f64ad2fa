-- ===== src/Fd/Writes.antt =====
-- The writes that the operations of src/fs/file.c make to a table: each keeps it well-formed, and
-- changes what a lookup finds at no descriptor but its own.
use zso_ptrace.Base.{
  ℕ, ◌≤◌, ◌<◌, ◌≡◌, inl, inr, true, false, Option, arith, ◌==◌, if◌then◌else◌, is_some, Bool-cases,
}
use zso_ptrace.Fd.Table.{
  File, Bitmap, FdTable, FilesStruct, update, set_open_fd, clear_open_fd, set_close_on_exec_bit,
  clear_close_on_exec_bit,
}
use zso_ptrace.Fd.Valid.{
  IsSummary, IsMarked, IsValid, set_open_fd-IsSummary, clear_open_fd-IsSummary,
}
use zso_ptrace.Fd.Slot.{mark_cloexec, wants_cloexec, claim_fd, put_unused_fd_in}
use zso_ptrace.Fd.Close.{vacate, empty_slot}
use zso_ptrace.Fd.Dup.{put_in_slot}

-- The fields that a write leaves alone.
pub mark_cloexec_same :
    (flags fd : ℕ) (t : FdTable)
    → ((mark_cloexec flags fd t).max_fds ≡ t.max_fds)
      × ((mark_cloexec flags fd t).open_fds ≡ t.open_fds)
      × ((mark_cloexec flags fd t).full_fds_bits ≡ t.full_fds_bits)
      × ((mark_cloexec flags fd t).fd ≡ t.fd)
unfolding mark_cloexec set_close_on_exec_bit clear_close_on_exec_bit
mark_cloexec_same flags fd t = ground arith

pub set_open_fd_same :
    (fd : ℕ) (t : FdTable)
    → ((set_open_fd fd t).max_fds ≡ t.max_fds)
      × ((set_open_fd fd t).fd ≡ t.fd)
      × ((set_open_fd fd t).open_fds ≡ (λ i. if i == fd then true else t.open_fds i))
unfolding set_open_fd
set_open_fd_same fd t = ground arith

pub mark_cloexec_bit :
    (flags fd : ℕ) (t : FdTable) (i : ℕ)
    → (mark_cloexec flags fd t).close_on_exec i
      ≡ (if i == fd then wants_cloexec flags else t.close_on_exec i)
unfolding mark_cloexec set_close_on_exec_bit clear_close_on_exec_bit
mark_cloexec_bit flags fd t i = ground arith

mark_cloexec-IsSummary :
    (flags fd : ℕ) (t : FdTable) → IsSummary t → IsSummary (mark_cloexec flags fd t)
unfolding mark_cloexec set_close_on_exec_bit clear_close_on_exec_bit
mark_cloexec-IsSummary flags fd t h w l = ground (arith, h w)

module _ (fd : ℕ) {f : FilesStruct} (v : IsValid f) (within : fd < f.fdt.max_fds) where
  claim_fd-IsMarked : (start flags : ℕ) → IsMarked (claim_fd start fd flags f).fdt
  unfolding claim_fd set_open_fd mark_cloexec set_close_on_exec_bit clear_close_on_exec_bit
  claim_fd-IsMarked start flags i l h = ground (arith, v.marked i)

  claim_fd-IsSummary : (start flags : ℕ) → IsSummary (claim_fd start fd flags f).fdt
  unfolding claim_fd
  claim_fd-IsSummary start flags w l =
      mark_cloexec-IsSummary flags fd (set_open_fd fd f.fdt)
        (set_open_fd-IsSummary fd f.fdt v.summary) w l

  claim_fd_packed :
      (start flags : ℕ)
      → ((i : ℕ) → start ≤ i → f.next_fd ≤ i → i < fd → f.fdt.open_fds i ≡ true)
      → (i : ℕ) → i < (claim_fd start fd flags f).next_fd
      → (claim_fd start fd flags f).fdt.open_fds i ≡ true
  unfolding claim_fd set_open_fd mark_cloexec set_close_on_exec_bit clear_close_on_exec_bit
  claim_fd_packed start flags search i l = ground (arith, v.packed i, search i)

  -- A claimed number leaves the table well-formed, if the search passed over no free one.
  pub claim_fd-IsValid :
      (start flags : ℕ)
      → ((i : ℕ) → start ≤ i → f.next_fd ≤ i → i < fd → f.fdt.open_fds i ≡ true)
      → IsValid (claim_fd start fd flags f)
  unfolding claim_fd set_open_fd mark_cloexec set_close_on_exec_bit clear_close_on_exec_bit
  claim_fd-IsValid start flags search = record {
    aligned = ground (arith, v.aligned);
    marked = claim_fd-IsMarked start flags;
    summary = claim_fd-IsSummary start flags;
    trimmed = λ w lo hi. ground (arith, v.trimmed w);
    packed = claim_fd_packed start flags search;
    in_range = ground (arith, v.in_range);
  }

  pub put_in_slot-IsValid : (flags : ℕ) (file : File) → IsValid (put_in_slot fd flags file f)
  unfolding put_in_slot set_open_fd mark_cloexec set_close_on_exec_bit clear_close_on_exec_bit
  put_in_slot-IsValid flags file = record {
    aligned = ground (arith, v.aligned);
    marked = λ i l h. ground (arith, v.marked i);
    summary = mark_cloexec-IsSummary flags fd _ (set_open_fd-IsSummary fd _ v.summary);
    trimmed = λ w lo hi. ground (arith, v.trimmed w);
    packed = λ i l. ground (arith, v.packed i);
    in_range = ground (arith, v.in_range);
  }

  pub put_unused_fd_in-IsValid : is_some (f.fdt.fd fd) ≡ false → IsValid (put_unused_fd_in fd f)
  unfolding put_unused_fd_in clear_open_fd
  put_unused_fd_in-IsValid gone = record {
    aligned = v.aligned;
    marked = λ i l h. ground (arith, v.marked i);
    summary = clear_open_fd-IsSummary fd f.fdt v.summary;
    trimmed = λ w lo hi. ground (arith, v.trimmed w);
    packed = λ i l. ground (arith, v.packed i);
    in_range = ground (arith, v.in_range);
  }

  -- A file may stand under a number that is marked open.
  pub install-IsValid :
      (file : Option File)
      → f.fdt.open_fds fd ≡ true
      → IsValid (record f { fdt = record (f.fdt) { fd = update fd file f.fdt.fd } })
  install-IsValid file taken = record {
    aligned = v.aligned;
    marked = λ i l h. ground (arith, v.marked i);
    summary = v.summary;
    trimmed = v.trimmed;
    packed = v.packed;
    in_range = v.in_range;
  }

empty_slot-IsValid : (fd : ℕ) {f : FilesStruct} → IsValid f → IsValid (empty_slot fd f)
empty_slot-IsValid fd v = record {
  aligned = v.aligned;
  marked = λ i l h. ground (arith, v.marked i);
  summary = v.summary;
  trimmed = v.trimmed;
  packed = v.packed;
  in_range = v.in_range;
}

-- Emptying a slot and giving its number back, as `__close_fd` and `do_close_on_exec` do.
pub close_one_writes-IsValid :
    (fd : ℕ) {f : FilesStruct}
    → IsValid f
    → fd < f.fdt.max_fds
    → IsValid (put_unused_fd_in fd (empty_slot fd f))
close_one_writes-IsValid fd {f} v within =
    put_unused_fd_in-IsValid fd (empty_slot-IsValid fd v) within (ground (arith))

cloexec-IsValid :
    {f : FilesStruct} (b : Bitmap)
    → IsValid f
    → IsValid (record f { fdt = record (f.fdt) { close_on_exec = b } })
cloexec-IsValid b v = record {
  aligned = v.aligned;
  marked = v.marked;
  summary = v.summary;
  trimmed = v.trimmed;
  packed = v.packed;
  in_range = v.in_range;
}

pub vacate-IsValid :
    (fd : ℕ) {f : FilesStruct} → IsValid f → fd < f.fdt.max_fds → IsValid (vacate fd f)
unfolding vacate clear_close_on_exec_bit
vacate-IsValid fd {f} v within = elim (Bool-cases (f.fdt.close_on_exec fd)) [
  | inl set ↦ rw set (close_one_writes-IsValid fd (cloexec-IsValid _ v) within)
  | inr clear ↦ rw clear (close_one_writes-IsValid fd v within)
]
