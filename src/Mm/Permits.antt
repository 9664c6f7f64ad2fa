-- ===== src/Mm/Permits.antt =====
-- `do_task_mmap` of src/mm/mmap.c: the access to a file that a mapping of it gives.
use zso_ptrace.Base.{
  ℕ, ◌+◌, ◌-◌, ◌^◌, ◌≡◌, refl, ap, subst, inl, inr, Bool, true, false, not, is_some, ◌&&◌, some,
  ltb, ◌==◌, ◌!=◌, bit_and, bit_or, if◌then◌else◌, arith, Bool-cases,
}
use zso_ptrace.Base.Bits.{bit, clear_bit_and}
use zso_ptrace.Errno.{eperm, eagain, enomem, eacces, enodev, einval, eoverflow, ok}
use zso_ptrace.Mm.Area.{
  pages, page_align, add64, has, without, vm_exec, vm_shared, vm_growsdown, vm_growsup, vm_maywrite,
  vm_mayexec, vm_mayshare, Mm, Outside,
}
use zso_ptrace.Mm.Plan.{
  prot_write, map_type, map_shared, map_private, map_locked, MapFile, Calls, Plan, private_file,
  shared_file, file_flags, mlock_future_check, reserve_flags, typed, first_flags, plan_at,
  full_prot, plan,
}
use zso_ptrace.Mm.Planned.{
  passes, chained, Clear, Sources, private_file-Clear, reserve-Clear, first-Clear,
}

-- The access that the open file allows, for a mapping of it by a type with some flags.
pub record Permits (f : MapFile) (type g : ℕ) : Type 0 where
  pub readable : f.may_read ≡ true
  pub shared :
      has g vm_shared ≡ true → (f.may_write ≡ true) × (f.append_only ≡ false) × (f.locked ≡ false)
  pub stays_private :
      type ≡ map_shared
      → f.may_write ≡ false
      → (has g vm_shared ≡ false) × (has g vm_maywrite ≡ false)
  pub not_run : f.noexec ≡ true → (has g vm_exec ≡ false) × (has g vm_mayexec ≡ false)

Clear-has : (k g : ℕ) → Clear k g → has g (bit k) ≡ false
Clear-has k g clear = ap (λ (b : ℕ). b != 0) clear

has-Clear : (k g : ℕ) → has g (bit k) ≡ false → Clear k g
has-Clear k g lacks = ground (arith, lacks)

private_file_lem :
    (f : MapFile) (g h : ℕ)
    → private_file f g ≡ ok h
    → (f.may_read ≡ true) × (f.noexec ≡ true → Clear 2 h × Clear 6 h)
unfolding private_file
private_file_lem f g h same =
    let (reads, a) = passes (not f.may_read) eacces _ h same in
    let (runs, b) = passes (f.noexec && has g vm_exec) eperm _ h a in
    let (_, c) = passes (not f.has_mmap) enodev _ h b in
    let (_, d) =
      passes (has (if f.noexec then without g vm_mayexec else g) (vm_growsdown + vm_growsup)) einval
        _ h c in
    (
      ground (arith, reads),
      λ lacks.
          let none_run : has g vm_exec ≡ false = ground (arith, runs, lacks) in
          let is : without g vm_mayexec ≡ h = ground (arith, d, lacks) in
          (
            subst (Clear 2) is (clear_bit_and 2 g _ (inl (has-Clear 2 g none_run))),
            subst (Clear 6) is (clear_bit_and 6 g _ (inr refl)),
          ),
    )

-- A file that is not open for writing, mapped as shared.
read_only :
    (k : ℕ) (f : MapFile) (g : ℕ)
    → Clear k (2 ^ 64 - 1 - (vm_maywrite + vm_shared))
    → f.may_write ≡ false
    → Clear k (
        if f.may_write
        then bit_or g (vm_shared + vm_mayshare)
        else without (bit_or g (vm_shared + vm_mayshare)) (vm_maywrite + vm_shared))
read_only k f g masked lacks = rw lacks (clear_bit_and k _ _ (inr masked))

file_flags-Permits :
    (c : Calls) (out : Outside) (mm : Mm) (huge : Bool) (flags : ℕ) (f : MapFile)
    (type prot g h : ℕ)
    → Clear 3 g
    → file_flags f type prot g ≡ ok h
    → Permits f type (reserve_flags c out mm huge flags h)
unfolding file_flags shared_file
file_flags-Permits c out mm huge flags f type prot g h clear same =
    elim (Bool-cases (type == map_shared)) [
      | inl shared ↦
          let (_, a) =
            passes (has prot prot_write && not f.may_write) eacces _ h (simp shared at same) in
          let (appends, b) = passes (f.append_only && f.may_write) eacces _ h a in
          let (locks, d) = passes f.locked eagain _ h b in
          let (reads, runs) = private_file_lem f _ h d in
          let stays : (f.may_write ≡ false) → Clear 3 h × Clear 5 h = λ lacks. (
            private_file-Clear 3 f _ h (read_only 3 f g refl lacks) d,
            private_file-Clear 5 f _ h (read_only 5 f g refl lacks) d,
          ) in
          record {
            readable = reads;
            shared = λ is. elim (Bool-cases f.may_write) [
              | inl writes ↦ (writes, ground (arith, appends, writes), locks)
              | inr lacks ↦ absurd (
                  ground (
                    arith,
                    is,
                    Clear-has 3 _ (reserve-Clear c out mm 3 huge flags h (stays lacks).0 refl),
                  ))
            ];
            stays_private = λ _ lacks. (
              Clear-has 3 _ (reserve-Clear c out mm 3 huge flags h (stays lacks).0 refl),
              Clear-has 5 _ (reserve-Clear c out mm 5 huge flags h (stays lacks).1 refl),
            );
            not_run = λ lacks. (
              Clear-has 2 _ (reserve-Clear c out mm 2 huge flags h (runs lacks).0 refl),
              Clear-has 6 _ (reserve-Clear c out mm 6 huge flags h (runs lacks).1 refl),
            );
          }
      | inr differs ↦ elim (Bool-cases (type == map_private)) [
        | inl private ↦
            let d : private_file f g ≡ ok h = simp (differs, private) at same in
            let (reads, runs) = private_file_lem f g h d in
            record {
              readable = reads;
              shared = λ is. absurd (
                  ground (
                    arith,
                    is,
                    Clear-has 3 _ (
                        reserve-Clear c out mm 3 huge flags h (private_file-Clear 3 f g h clear d)
                          refl),
                  ));
              stays_private = λ is. absurd (ground (arith, is, differs));
              not_run = λ lacks. (
                Clear-has 2 _ (reserve-Clear c out mm 2 huge flags h (runs lacks).0 refl),
                Clear-has 6 _ (reserve-Clear c out mm 6 huge flags h (runs lacks).1 refl),
              );
            }
        | inr unknown ↦ absurd (ground (arith, same, differs, unknown))
      ]
    ]

-- Where the protection bits, the flag bits and the default flags do not contain VM_SHARED,
-- do_task_mmap maps a file only if it is open for reading; the mapping has VM_SHARED only if the
-- file is open for writing, not append-only and not locked; a MAP_SHARED mapping of a file that
-- is not open for writing has neither VM_SHARED nor VM_MAYWRITE; and a mapping of a file on a
-- noexec mount has neither VM_EXEC nor VM_MAYEXEC.
pub plan-Permits :
    (c : Calls) (out : Outside) (mm : Mm) (f addr len prot flags pgoff : ℕ) (p : Plan)
    → Sources c 3
    → plan c out mm (some f) addr len prot flags 0 pgoff ≡ ok p
    → Permits (c.files f) (bit_and flags map_type) p.vm_flags
unfolding plan plan_at typed
plan-Permits c out mm f addr len prot flags pgoff p sources same =
    let (_, a) = passes (len == 0) einval _ p same in
    let (_, b) = passes (page_align len == 0) enomem _ p a in
    let (_, d) = passes (ltb (add64 pgoff (pages (page_align len))) pgoff) eoverflow _ p b in
    let (_, e) = passes (ltb out.max_map_count mm.map_count) enomem _ p d in
    let word : ℕ = first_flags c out mm (full_prot c out mm (some f) prot) flags 0 in
    let (at, _, g) =
      chained _
        (plan_at c out mm (some f) (page_align len) (full_prot c out mm (some f) prot) flags 0
          pgoff)
        p e in
    let (_, h) = passes (has flags map_locked && not c.can_do_mlock) eperm _ p g in
    let (_, i) =
      passes (is_some (mlock_future_check c out mm word (page_align len))) eagain _ p h in
    let (w, j, l) =
      chained
        (file_flags (c.files f) (bit_and flags map_type) (full_prot c out mm (some f) prot) word) _
        p i in
    let is : reserve_flags c out mm (c.files f).hugepages flags w ≡ p.vm_flags =
      ground (arith, l) in
    subst (Permits (c.files f) (bit_and flags map_type)) is (
      file_flags-Permits c out mm (c.files f).hugepages flags (c.files f) (bit_and flags map_type) _
        word w (first-Clear c out mm 3 (full_prot c out mm (some f) prot) flags 0 sources refl refl)
        j)
