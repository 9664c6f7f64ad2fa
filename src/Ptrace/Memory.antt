-- ===== src/Ptrace/Memory.antt =====
-- `ptrace_remote_munmap` of src/kernel/ptrace.c on the address spaces of several tasks. Tasks that
-- share one name the same number.
use zso_ptrace.Base.{
  ℕ, ◌+◌, ◌^◌, ◌≤◌, ◌≡◌, ◌≢◌, refl, sym, subst, inl, inr, Bool, true, false, Option, none, some,
  arith, ◌==◌, if◌then◌else◌, Bool-cases,
}
use zso_ptrace.Base.Run.{Run, done, bug, hang, Ends, ends, weaken}
use zso_ptrace.Errno.{Errno, efault, eintr, einval}
use zso_ptrace.Mm.Area.{page_align, MmState, Outside}
use zso_ptrace.Mm.Unmap.{do_munmap}
use zso_ptrace.Mm.Counted.{IsWell}
use zso_ptrace.Mm.Outcome.{Unmapping}
use zso_ptrace.Mm.Refined.{bad_range, do_munmap-Unmapping, do_munmap_einval}

pub record Spaces : Type 0 where
  pub space : ℕ → MmState

abbrev pub Cmd {ℓ} : Type ℓ → Type ℓ
Cmd A = Spaces → Run Spaces A

abbrev pub put_space : ℕ → MmState → Spaces → Spaces
put_space i s w = record { space = λ j. if j == i then s else w.space j }

abbrev pub back {ℓ} : {A : Type ℓ} → ℕ → Spaces → Run MmState A → Run Spaces A
back i w (done a s) = done a (put_space i s w)
back i w bug = bug
back i w hang = hang

-- An operation on space `i`.
abbrev pub on {ℓ} : {A : Type ℓ} → ℕ → (MmState → Run MmState A) → Cmd A
on i c w = back i w (c (w.space i))

-- `struct ptrace_remote_munmap`
pub record RemoteMunmap : Type 0 where
  pub addr : ℕ
  pub length : ℕ

-- `ptrace_remote_munmap`: `args` is what `copy_from_user` brought, `killed` whether a signal kills the
-- caller while it waits for `mmap_sem`. `child` is the space of the child.
unfoldable pub remote_munmap :
    Outside → (killed : Bool) → (child : ℕ) → Option RemoteMunmap → Cmd (Option Errno)
remote_munmap out killed child none w = done (some efault) w
remote_munmap out killed child (some args) w =
    if killed then done (some eintr) w else on child (do_munmap out args.addr args.length) w

-- How the request ends for what the arguments say.
pub data Munmapped (out : Outside) (killed : Bool) (child : ℕ) (w : Spaces)
    : Option RemoteMunmap → Option Errno → Spaces → Type 0 where
  faulted : Munmapped out killed child w none (some efault) w
  interrupted :
      {args : RemoteMunmap}
      → killed ≡ true
      → Munmapped out killed child w (some args) (some eintr) w
  refused :
      {args : RemoteMunmap} {u : Spaces}
      → killed ≡ false
      → bad_range out args.addr args.length ≡ true
      → ((i : ℕ) → u.space i ≡ w.space i)
      → Munmapped out killed child w (some args) (some einval) u
  done_there :
      {args : RemoteMunmap} {r : Option Errno} {u : Spaces}
      → killed ≡ false
      → bad_range out args.addr args.length ≡ false
      → Unmapping out args.addr
          (args.addr + page_align args.length)
          (w.space child).mm
          r
          (u.space child).mm
      → ((i : ℕ) → i ≢ child → u.space i ≡ w.space i)
      → Munmapped out killed child w (some args) r u

space_self : (i : ℕ) (s : MmState) (w : Spaces) → (put_space i s w).space i ≡ s
space_self i s w = ground arith

space_other :
    (i : ℕ) (s : MmState) (w : Spaces) (j : ℕ) → j ≢ i → (put_space i s w).space j ≡ w.space j
space_other i s w j ne = ground arith

space_same : (i : ℕ) (w : Spaces) (j : ℕ) → (put_space i (w.space i) w).space j ≡ w.space j
space_same i w j = ground arith

-- An operation on one space tells nothing but of that space.
pub back-Ends :
    {A : Type 0} {P : A → MmState → Type 0} (child : ℕ) (w : Spaces) {r : Run MmState A}
    → Ends P r
    → Ends
        (λ a u. P a (u.space child) × ((i : ℕ) → i ≢ child → u.space i ≡ w.space i))
        (back child w r)
back-Ends {P} child w (ends {a} {s} p) =
    ends (subst (P a) (sym (space_self child s w)) p, space_other child s w)

-- ptrace_remote_munmap gives EFAULT or EINTR without a change where the arguments cannot be read
-- or the caller is killed, EINVAL without a change for a range that is no range of pages within
-- TASK_SIZE, and otherwise takes the range out of the address space of the child, or leaves every
-- mapping there on an error; no other address space changes.
pub remote_munmap-Munmapped :
    (out : Outside) (killed : Bool) (child : ℕ) (args : Option RemoteMunmap) (w : Spaces)
    → out.task_size + 4096 ≤ 2 ^ 64
    → IsWell (w.space child).mm
    → Ends (λ r u. Munmapped out killed child w args r u) (remote_munmap out killed child args w)
unfolding remote_munmap
remote_munmap-Munmapped out killed child none w room well = ends faulted
remote_munmap-Munmapped out true child (some args) w room well = ends (interrupted refl)
remote_munmap-Munmapped out false child (some args) w room well =
    elim (Bool-cases (bad_range out args.addr args.length)) [
      | inl bad ↦
          rw (do_munmap_einval out args.addr args.length (w.space child) bad)
            (ends (refused refl bad (space_same child w)))
      | inr good ↦
          weaken (λ r u (unmapping, others). done_there refl good unmapping others)
            (back-Ends child w
              (do_munmap-Unmapping out args.addr args.length (w.space child) room well good))
    ]
