-- ===== src/Machine.antt =====
-- A concrete machine for the examples: what stands for the code outside this tree, and two tables.
use zso_ptrace.Base.{
  ℕ, zero, suc, ◌+◌, ◌-◌, ◌≤◌, ◌<◌, ◌≡◌, refl, inl, inr, Bool, true, false, Option, none, some,
  arith, leb, if◌then◌else◌, Bool-cases,
}
use zso_ptrace.Errno.{ok}
use zso_ptrace.Fd.Table.{Bitmap, FilesStruct}
use zso_ptrace.Fd.Valid.{IsValid, word_full_empty}
use zso_ptrace.Fd.Writes.{put_in_slot-IsValid}
use zso_ptrace.Fd.Dup.{put_in_slot}
use zso_ptrace.Fd.Reserve.{IsAlone-IsPolite}
use zso_ptrace.Fd.Grow.{IsPolite}
use zso_ptrace.Fd.Lookup.{Succeeds}
use zso_ptrace.Fd.Kernel.{Kernel, FindsZero, IsAlone, FdState}

-- The first clear bit from `from` on, or `from + n`.
unfoldable pub scan : Bitmap → (from n : ℕ) → ℕ
scan b from zero = from
scan b from (suc n) = if b from then scan b (suc from) n else from

scan_at_most : (b : Bitmap) (from n : ℕ) → scan b from n ≤ from + n
unfolding scan
scan_at_most b from zero = omega arith
scan_at_most b from (suc n) = ground (arith, scan_at_most b (suc from) n)

scan_from : (b : Bitmap) (from n : ℕ) → from ≤ scan b from n
unfolding scan
scan_from b from zero = omega arith
scan_from b from (suc n) = ground (arith, scan_from b (suc from) n)

scan_stop : (b : Bitmap) (from n : ℕ) → b from ≡ false → scan b from (suc n) ≡ from
unfolding scan
scan_stop b from n e = simp e

scan_clear : (b : Bitmap) (from n : ℕ) → scan b from n < from + n → b (scan b from n) ≡ false
unfolding scan
scan_clear b from zero lt = absurd (omega arith)
scan_clear b from (suc n) lt = elim (Bool-cases (b from)) [
  | inl e ↦ simp e (scan_clear b (suc from) n (ground arith))
  | inr e ↦ rw (scan_stop b from n e) e
]

scan_skips : (b : Bitmap) (from n i : ℕ) → from ≤ i → i < scan b from n → b i ≡ true
unfolding scan
scan_skips b from zero i lo hi = absurd (omega arith)
scan_skips b from (suc n) i lo hi = ground (arith, scan_skips b (suc from) n i)

abbrev pub machine : Kernel
machine = record {
  kmalloc = λ _. true;
  vmalloc = λ _. true;
  files_cachep = true;
  junk_fd = λ _. none;
  junk_bits = λ _. false;
  nr_open = 1024;
  nr_open_later = 1024;
  rlimit_nofile = 256;
  roundup_pow_of_two = λ n. n;
  find_next_zero_bit = λ b size from. if leb size from then size else scan b from (size - from);
  gap = λ f. f;
  wait_resize = λ f. f;
  close_result = λ _. ok 0;
  f_mode = λ f. 0;
  file_count = λ _. 1;
  get_file_rcu = λ _ _. true;
}

pub machine-FindsZero : FindsZero machine
unfolding scan
machine-FindsZero = record {
  at_most = λ b size from. ground (arith, scan_at_most b from (size - from));
  clear = λ b size from lt. ground (arith, scan_clear b from (size - from));
  from_start = λ b size from lt. ground (arith, scan_from b from (size - from));
  skips = λ b size from i lo hi. ground (arith, scan_skips b from (size - from) i);
}

pub machine-IsAlone : IsAlone machine
machine-IsAlone = record { undisturbed = λ f. refl; few = omega arith }

pub machine-IsPolite : IsPolite machine
machine-IsPolite = IsAlone-IsPolite machine machine-IsAlone

pub machine-Succeeds : Succeeds machine 1
machine-Succeeds = (0, omega arith, λ f. refl)

abbrev pub empty_table : FilesStruct
empty_table = record {
  count = 1;
  resize_in_progress = false;
  fdt = record {
    max_fds = 64;
    fd = λ _. none;
    close_on_exec = λ _. false;
    open_fds = λ _. false;
    full_fds_bits = λ _. false;
  };
  embedded = true;
  next_fd = 0;
}

pub empty_table-IsValid : IsValid empty_table
empty_table-IsValid = record {
  aligned = refl;
  marked = λ i l h. ground arith;
  summary = λ w l. ground (arith, word_full_empty (λ _. false) w refl);
  trimmed = λ w lo hi. refl;
  packed = λ i l. absurd (omega arith);
  in_range = omega arith;
}

-- The table with file 8 under descriptor 3, close-on-exec.
abbrev pub busy_table : FilesStruct
busy_table = put_in_slot 3 0x80000 8 empty_table

pub busy_table-IsValid : IsValid busy_table
busy_table-IsValid = put_in_slot-IsValid 3 empty_table-IsValid (omega arith) 0x80000 8

abbrev pub busy_state : FdState
busy_state = record { files = busy_table; log = zso_ptrace.Base.[] }
