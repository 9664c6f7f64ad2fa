-- ===== src/Fd/Search.antt =====
-- `find_next_fd` of src/fs/file.c and its caller's choice of a start: the lowest free descriptor.
use zso_ptrace.Base.{
  ℕ, ◌*◌, ◌/◌, ◌%◌, ◌≤◌, ◌<◌, ◌≡◌, inl, inr, true, false, arith, ltb, if◌then◌else◌, Bool-cases,
  le→ltb,
}
use zso_ptrace.Fd.Table.{FdTable, FilesStruct}
use zso_ptrace.Fd.Valid.{IsValid, IsSummary, word_full_open}
use zso_ptrace.Fd.Slot.{find_next_fd, candidate}
use zso_ptrace.Fd.Kernel.{Kernel, FindsZero}

-- What `find_next_fd` finds from `start` on: at most `max_fds`, with no free descriptor passed
-- over, and free unless it is `max_fds`.
record IsNextFree (t : FdTable) (start fd : ℕ) : Type 0 where
  at_most : fd ≤ t.max_fds
  from_start : start ≤ fd
  is_free : fd < t.max_fds → t.open_fds fd ≡ false
  passes_none : (i : ℕ) → start ≤ i → i < fd → t.open_fds i ≡ true

-- What `__alloc_fd` tries: no free descriptor from `start` on is passed over, whether or not the
-- table is large enough.
pub record IsLowest (f : FilesStruct) (start fd : ℕ) : Type 0 where
  pub from_start : start ≤ fd
  pub from_next : f.next_fd ≤ fd
  pub is_free : fd < f.fdt.max_fds → f.fdt.open_fds fd ≡ false
  pub passes_none : (i : ℕ) → start ≤ i → i < fd → i < f.fdt.max_fds → f.fdt.open_fds i ≡ true

module _ (k : Kernel) (z : FindsZero k) where
  -- A descriptor in a word that the summary let the search skip.
  skipped_open :
      (t : FdTable) (start i : ℕ)
      → IsSummary t
      → start ≤ i
      → i < k.find_next_zero_bit t.full_fds_bits (t.max_fds / 64) (start / 64) * 64
      → t.open_fds i ≡ true
  skipped_open t start i sum lo hi =
      let at_most = z.at_most t.full_fds_bits (t.max_fds / 64) (start / 64) in
      let full =
        z.skips t.full_fds_bits (t.max_fds / 64) (start / 64) (i / 64) (omega arith)
          (omega arith) in
      word_full_open t.open_fds i (ground (arith, full, sum (i / 64)))

  find_next_fd-IsNextFree :
      (t : FdTable) (start : ℕ)
      → IsSummary t
      → t.max_fds % 64 ≡ 0
      → start < t.max_fds
      → IsNextFree t start (find_next_fd k t start)
  unfolding find_next_fd
  find_next_fd-IsNextFree t start sum aligned within =
      let maxfd = t.max_fds in
      let word = k.find_next_zero_bit t.full_fds_bits (maxfd / 64) (start / 64) in
      let word_le = z.at_most t.full_fds_bits (maxfd / 64) (start / 64) in
      let from = if ltb start (word * 64) then word * 64 else start in
      let small : word * 64 ≤ maxfd = omega arith in
      simp (le→ltb maxfd (word * 64) small) (record {
        at_most = z.at_most t.open_fds maxfd from;
        from_start =
            ground (arith, z.from_start t.open_fds maxfd from, z.at_most t.open_fds maxfd from);
        is_free = z.clear t.open_fds maxfd from;
        passes_none = λ i lo hi. elim (Bool-cases (ltb i (word * 64))) [
          | inl skipped ↦ skipped_open t start i sum lo (ground arith)
          | inr searched ↦ z.skips t.open_fds maxfd from i (ground arith) hi
        ];
      })

  -- In a well-formed table, the number that `__alloc_fd` tries is not below `start` or `next_fd`, is
  -- free if it lies in the table, and passes over no free descriptor from `start` on.
  pub candidate-IsLowest :
      (f : FilesStruct) (start : ℕ) → IsValid f → IsLowest f start (candidate k start f)
  unfolding candidate
  candidate-IsLowest f start v =
      let from = if ltb start f.next_fd then f.next_fd else start in
      elim (Bool-cases (ltb from f.fdt.max_fds)) [
        | inl fits ↦
            let found = find_next_fd-IsNextFree f.fdt from v.summary v.aligned (ground arith) in
            simp fits (record {
              from_start = ground (arith, found.from_start);
              from_next = ground (arith, found.from_start);
              is_free = found.is_free;
              passes_none = λ i lo hi l. ground (arith, v.packed i, found.passes_none i);
            })
        | inr large ↦ simp large (record {
          from_start = ground arith;
          from_next = ground arith;
          is_free = λ l. absurd (ground arith);
          passes_none = λ i lo hi l. ground (arith, v.packed i);
        })
      ]
