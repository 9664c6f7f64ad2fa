-- ===== src/Fd/Lookup.antt =====
-- `__fget_files` of src/fs/file.c and what is built on it: a lookup that takes a reference.
use zso_ptrace.Base.{
  ℕ, zero, suc, ◌<◌, ◌≡◌, refl, inl, inr, true, false, Option, none, some, ◌∷◌, arith, Bool-cases,
  Option-cases,
}
use zso_ptrace.Base.Bits.{bit_and-zero}
use zso_ptrace.Fd.Table.{File, FilesStruct, fcheck_files}
use zso_ptrace.Fd.Get.{masked, fget_loop, fget_in}
use zso_ptrace.Fd.Ends.{Ends, ends, weaken}
use zso_ptrace.Fd.Kernel.{Kernel, FdState, IsAlone, get_file}

-- How a lookup ends: nothing under the number, a file whose mode the mask excludes, or the file with
-- one more reference. The table is left alone.
pub data Found (k : Kernel) (fd mask : ℕ) (s : FdState) : Option File → FdState → Type 0 where
  missing : fcheck_files s.files fd ≡ none → Found k fd mask s none s
  excluded :
      (file : File)
      → fcheck_files s.files fd ≡ some file
      → masked k mask file ≡ true
      → Found k fd mask s none s
  found :
      {t : FdState} (file : File)
      → fcheck_files s.files fd ≡ some file
      → masked k mask file ≡ false
      → t ≡ record s { log = get_file file ∷ s.log }
      → Found k fd mask s (some file) t

-- Some attempt out of so many takes its reference, whatever the file.
abbrev pub Succeeds : Kernel → ℕ → Type 0
Succeeds k attempts = (n : ℕ) × (n < attempts) × ((f : File) → k.get_file_rcu n f ≡ true)

-- The loop of `__fget_files` ends as soon as an attempt to take a reference succeeds, and answers by
-- the table: the file under the number with one more reference, unless its mode is excluded.
pub fget_in-Found :
    (k : Kernel) (attempts fd mask : ℕ) (s : FdState)
    → IsAlone k
    → Succeeds k attempts
    → Ends (Found k fd mask s) (fget_in k attempts fd mask s)
unfolding fget_in
fget_in-Found k zero fd mask s alone (n, lt, ok) = elim lt [ ]
fget_in-Found k (suc attempts) fd mask s alone (n, lt, ok) =
    elim (Option-cases (fcheck_files s.files fd)) [
      | inl e ↦ rw (e, fget_in, fget_loop) (ends (missing e))
      | inr (file, e) ↦
          rw (e, fget_in, fget_loop)
            (elim (Bool-cases (masked k mask file)) [
              | inl out ↦ simp out (ends (excluded file e out))
              | inr in_mode ↦ simp in_mode (elim (Bool-cases (k.get_file_rcu attempts file)) [
                | inl got ↦ simp got (ends (found file e in_mode refl))
                | inr lost ↦
                    simp (lost, alone.undisturbed s.files)
                      (fget_in-Found k attempts fd mask s alone (n, earlier file lost, ok))
              ])
            ])
    ]
  where
    earlier : (file : File) → k.get_file_rcu attempts file ≡ false → n < attempts
    earlier file lost = ground (arith, ok file)

-- The table that a later attempt finds: each attempt before it saw a file in its own table and lost the race
-- for a reference to it.
pub data Later (k : Kernel) (fd : ℕ) : FilesStruct → FilesStruct → Type 0 where
  now : {f : FilesStruct} → Later k fd f f
  retried :
      {f g : FilesStruct} (n : ℕ) (file : File)
      → fcheck_files f fd ≡ some file
      → k.get_file_rcu n file ≡ false
      → Later k fd (k.gap f) g
      → Later k fd f g

-- How a lookup ends whatever the other threads do between its attempts: by the table of its last one.
pub data FoundIn (k : Kernel) (fd mask : ℕ) (s : FdState) : Option File → FdState → Type 0 where
  missing_in :
      (g : FilesStruct)
      → Later k fd s.files g
      → fcheck_files g fd ≡ none
      → FoundIn k fd mask s none (record s { files = g })
  excluded_in :
      (g : FilesStruct) (file : File)
      → Later k fd s.files g
      → fcheck_files g fd ≡ some file
      → masked k mask file ≡ true
      → FoundIn k fd mask s none (record s { files = g })
  found_in :
      (g : FilesStruct) (file : File) (n : ℕ)
      → Later k fd s.files g
      → fcheck_files g fd ≡ some file
      → masked k mask file ≡ false
      → k.get_file_rcu n file ≡ true
      → FoundIn k fd mask s (some file) (record s { files = g; log = get_file file ∷ s.log })

FoundIn-retried :
    (k : Kernel) (fd mask n : ℕ) (s : FdState) (file : File) (o : Option File) (t : FdState)
    → fcheck_files s.files fd ≡ some file
    → k.get_file_rcu n file ≡ false
    → FoundIn k fd mask (record s { files = k.gap s.files }) o t
    → FoundIn k fd mask s o t
FoundIn-retried k fd mask n s file o t e lost (missing_in g later m) =
    missing_in g (retried n file e lost later) m
FoundIn-retried k fd mask n s file o t e lost (excluded_in g f later m x) =
    excluded_in g f (retried n file e lost later) m x
FoundIn-retried k fd mask n s file o t e lost (found_in g f i later m x y) =
    found_in g f i (retried n file e lost later) m x y

-- Where one of the attempts to take a reference succeeds for any file, __fget_files ends,
-- whatever other threads do to the table between the attempts, and answers by the table as the
-- last attempt finds it: the file that stands under the number then, with one more reference, or
-- nothing if none does or its mode is excluded; each attempt before it lost the race for the file
-- that it saw.
pub fget_in-FoundIn :
    (k : Kernel) (attempts fd mask : ℕ) (s : FdState)
    → Succeeds k attempts
    → Ends (FoundIn k fd mask s) (fget_in k attempts fd mask s)
unfolding fget_in
fget_in-FoundIn k zero fd mask s (n, lt, ok) = elim lt [ ]
fget_in-FoundIn k (suc attempts) fd mask s (n, lt, ok) =
    elim (Option-cases (fcheck_files s.files fd)) [
      | inl e ↦ rw (e, fget_in, fget_loop) (ends (missing_in s.files now e))
      | inr (file, e) ↦
          rw (e, fget_in, fget_loop)
            (elim (Bool-cases (masked k mask file)) [
              | inl out ↦ simp out (ends (excluded_in s.files file now e out))
              | inr in_mode ↦ simp in_mode (elim (Bool-cases (k.get_file_rcu attempts file)) [
                | inl got ↦ simp got (ends (found_in s.files file attempts now e in_mode got))
                | inr lost ↦ simp lost (
                    weaken (λ o t p. FoundIn-retried k fd mask attempts s file o t e lost p)
                      (fget_in-FoundIn k attempts fd mask (record s { files = k.gap s.files })
                        (n, ground (arith, lost, ok file), ok)))
              ])
            ])
    ]

-- With an empty mask no file is excluded.
pub masked-zero : (k : Kernel) (file : File) → masked k 0 file ≡ false
masked-zero k file = rw (bit_and-zero (k.f_mode file))
