-- ===== src/Ptrace/Attached.antt =====
-- `ptrace_attach` and `ptrace_traceme` of src/kernel/ptrace.c: who gets to trace whom.
use zso_ptrace.Base.{
  ℕ, ◌-◌, ◌*◌, ◌≡◌, ◌≢◌, ◌⊎◌, refl, sym, ap, subst, inl, inr, Bool, true, false, Option, none, some,
  List, ◌∷◌, arith, ◌==◌, ◌!=◌, if◌then◌else◌, Bool-cases, bit_or,
}
use zso_ptrace.Base.Bits.{le_bit_or}
use zso_ptrace.Errno.{Errno, Ret, ok, err, eperm, eio, erestartnointr}
use zso_ptrace.Ptrace.Task.{
  has, pf_kthread, pt_ptraced, pt_seized, pt_opt_factor, ptrace_o_mask, unlinked, Event, audited,
  World, Env,
}
use zso_ptrace.Ptrace.Linked.{Ends, ends, then-Ends, weaken, IsLinked}
use zso_ptrace.Ptrace.Traced.{
  Traced, Traced-IsLinked, free_unlinked, ptrace_link-Traced, with_word, after_word, before_signal,
}
use zso_ptrace.Ptrace.Attach.{
  attach_flags, attach_locked, attach_out, attach_with, attach_checked, may_access_code,
  mode_attach_realcreds, ptrace_attach,
}

-- How `ptrace_attach` ends once it has the locks.
pub data Locked (target flags : ℕ) (w : World) : Ret ℕ → World → Type 0 where
  exiting : (w.tasks target).exit_state ≢ 0 → Locked target flags w (err eperm) w
  taken : (w.tasks target).ptrace ≢ 0 → Locked target flags w (err eperm) w
  begun :
      {u : World}
      → (w.tasks target).exit_state ≡ 0
      → (w.tasks target).ptrace ≡ 0
      → Traced target w.current flags w u
      → IsLinked u
      → Locked target flags w (ok 0) u

module _ (env : Env) (target : ℕ) (seize : Bool) (flags : ℕ) (w : World) where
  abbrev word_set : ℕ
  word_set = if seize then bit_or flags pt_seized else flags

  word_kept :
      (w.tasks target).entry ≡ unlinked
      → ((with_word target word_set w).tasks target).entry ≡ unlinked
  word_kept free = ground (arith, free)

  linked :
      ((w.tasks target).exit_state != 0) ≡ false
      → ((w.tasks target).ptrace != 0) ≡ false
      → (w.tasks target).entry ≡ unlinked
      → Ends
          (λ r u. (r ≡ ok 0) × Traced target w.current word_set w u)
          (attach_locked env target seize flags w)
  unfolding attach_locked
  linked alive free none_yet =
      simp (alive, free)
        (then-Ends
          (ptrace_link-Traced target w.current (with_word target word_set w) (word_kept none_yet))
          (λ _ u tr. ends (refl, before_signal _ (before_signal _ (after_word tr)))))

  pub attach_locked-Locked :
      IsLinked w
      → word_set ≢ 0
      → Ends (Locked target word_set w) (attach_locked env target seize flags w)
  unfolding attach_locked
  attach_locked-Locked l set = elim (Bool-cases ((w.tasks target).exit_state != 0)) [
    | inl gone ↦ simp gone (ends (exiting (ground arith)))
    | inr alive ↦ elim (Bool-cases ((w.tasks target).ptrace != 0)) [
      | inl traced ↦ simp (alive, traced) (ends (taken (ground arith)))
      | inr free ↦
          weaken
            (λ r u (e, tr). rw e (
              begun (ground arith) (ground arith) tr
                (Traced-IsLinked l (free_unlinked l (ground arith) (ground arith)) set tr)))
            (linked alive free (free_unlinked l (ground arith) (ground arith)))
    ]
  ]

-- The caller may trace the target: it is no kernel thread and of another thread group, and
-- `__ptrace_may_access` allows it.
pub record MayTrace (env : Env) (target : ℕ) (w : World) : Type 0 where
  pub no_kthread : has (w.tasks target).flags pf_kthread ≡ false
  pub other_group : (w.tasks target).tgid ≢ (w.tasks w.current).tgid
  pub allowed : (n : ℕ) × (may_access_code env target mode_attach_realcreds w ≡ ok n)

-- Why it may not, each reason with its error.
pub data Denied (env : Env) (target : ℕ) (w : World) : Errno → Type 0 where
  is_kthread : has (w.tasks target).flags pf_kthread ≡ true → Denied env target w eperm
  own_group : (w.tasks target).tgid ≡ (w.tasks w.current).tgid → Denied env target w eperm
  stopped : env.lock_interrupted ≡ true → Denied env target w erestartnointr
  no_access :
      {e : Errno}
      → may_access_code env target mode_attach_realcreds w ≡ err e
      → Denied env target w e

-- The arguments of PTRACE_SEIZE: no address, and no flags but the options. PTRACE_ATTACH reads none.
abbrev pub other_options : ℕ
other_options = 0xffffffffffffffff - ptrace_o_mask

abbrev pub BadSeize : (seize : Bool) → (addr flags : ℕ) → Type 0
BadSeize seize addr flags = (seize ≡ true) × ((addr ≢ 0) ⊎ (has flags other_options ≡ true))

abbrev pub GoodSeize : (seize : Bool) → (addr flags : ℕ) → Type 0
GoodSeize seize addr flags = seize ≡ true → (addr ≡ 0) × (has flags other_options ≡ false)

-- The word that the tracee gets.
abbrev pub traced_word : (seize : Bool) → (flags : ℕ) → ℕ
traced_word seize flags =
    if seize
    then bit_or (bit_or pt_ptraced (bit_or pt_seized (flags * pt_opt_factor))) pt_seized
    else pt_ptraced

flags_none :
    (seize : Bool) (addr flags : ℕ)
    → attach_flags seize addr flags ≡ none
    → BadSeize seize addr flags
unfolding attach_flags
flags_none false addr flags e = absurd (ground (arith, e))
flags_none true addr flags e = elim (Bool-cases (addr != 0)) [
  | inl set ↦ (refl, inl (ground (arith, set)))
  | inr zero_addr ↦ (refl, inr (ground (arith, e, zero_addr)))
]

flags_some :
    (seize : Bool) (addr flags set : ℕ)
    → attach_flags seize addr flags ≡ some set
    → GoodSeize seize addr flags
      × ((if seize then bit_or set pt_seized else set) ≡ traced_word seize flags)
unfolding attach_flags
flags_some false addr flags set e = (λ is. absurd (ground (arith, is)), ground (arith, e))
flags_some true addr flags set e = elim (Bool-cases (addr != 0)) [
  | inl wrong ↦ absurd (ground (arith, e, wrong))
  | inr zero_addr ↦ elim (Bool-cases (has flags other_options)) [
    | inl wrong ↦ absurd (ground (arith, e, wrong))
    | inr plain ↦
        let is : bit_or pt_ptraced (bit_or pt_seized (flags * pt_opt_factor)) ≡ set =
          ground (arith, e, zero_addr, plain) in
        (λ _. (ground (arith, zero_addr), plain), ap (λ (b : ℕ). bit_or b pt_seized) (sym is))
  ]
]

-- The tasks are as they were.
pub record HasSameTasks (w u : World) : Type 0 where
  pub tasks_kept : u.tasks ≡ w.tasks
  pub current_kept : u.current ≡ w.current

-- How `ptrace_attach` ends.
pub data Attached (env : Env) (target : ℕ) (seize : Bool) (addr flags : ℕ) (w : World)
    : Ret ℕ → World → Type 0 where
  bad_arguments : BadSeize seize addr flags → Attached env target seize addr flags w (err eio) w
  denied :
      {e : Errno} {u : World}
      → GoodSeize seize addr flags
      → Denied env target w e
      → HasSameTasks w u
      → Attached env target seize addr flags w (err e) u
  tried :
      {r : Ret ℕ} {v u : World}
      → GoodSeize seize addr flags
      → env.lock_interrupted ≡ false
      → MayTrace env target w
      → Locked target
          (traced_word seize flags)
          (env.others (record w { log = audited target ∷ w.log }))
          r
          v
      → HasSameTasks v u
      → Attached env target seize addr flags w r u

-- What the other tasks do keeps the lists right.
pub record IsPolite (env : Env) : Type 0 where
  pub keeps : (w : World) → IsLinked w → IsLinked (env.others w)

Ret-cases : (r : Ret ℕ) → ((n : ℕ) × (r ≡ ok n)) ⊎ ((e : Errno) × (r ≡ err e))
Ret-cases (ok n) = inl (n, refl)
Ret-cases (err e) = inr (e, refl)

flags_set :
    (seize : Bool) (addr flags set : ℕ)
    → attach_flags seize addr flags ≡ some set
    → (if seize then bit_or set pt_seized else set) ≢ 0
unfolding attach_flags
flags_set false addr flags set e = ground (arith, e)
flags_set true addr flags set e =
    ground
      (arith, e, le_bit_or 1 (bit_or pt_seized (flags * pt_opt_factor)), le_bit_or set pt_seized)

pub logged-IsLinked :
    {w : World} (log : List Event) → IsLinked w → IsLinked (record w { log = log })
logged-IsLinked log l = record {
  lists = l.lists;
  tracer = l.tracer;
  word = l.word;
  own = l.own;
  reaped = l.reaped;
}

module _ (env : Env) (polite : IsPolite env) (target : ℕ) (seize : Bool) (addr flags set : ℕ)
    (w : World) (l : IsLinked w) where
  right :
      attach_flags seize addr flags ≡ some set
      → GoodSeize seize addr flags
        × ((if seize then bit_or set pt_seized else set) ≡ traced_word seize flags)
  right = flags_some seize addr flags set

  reworded :
      {r : Ret ℕ} {v : World}
      → attach_flags seize addr flags ≡ some set
      → Locked target
          (if seize then bit_or set pt_seized else set)
          (env.others (record w { log = audited target ∷ w.log }))
          r
          v
      → Locked target
          (traced_word seize flags)
          (env.others (record w { log = audited target ∷ w.log }))
          r
          v
  reworded {r} {v} args p =
      subst (λ set. Locked target set (env.others (record w { log = audited target ∷ w.log })) r v)
        (right args).1 p

  out :
      (r : Ret ℕ) (v : World)
      → attach_flags seize addr flags ≡ some set
      → env.lock_interrupted ≡ false
      → MayTrace env target w
      → Locked target
          (if seize then bit_or set pt_seized else set)
          (env.others (record w { log = audited target ∷ w.log }))
          r
          v
      → Ends (Attached env target seize addr flags w) (attach_out env target r v)
  unfolding attach_out
  out (err e) v args go may p = ends (
      tried (right args).0 go may (reworded args p)
        (record { tasks_kept = refl; current_kept = refl }))
  out (ok n) v args go may p = ends (
      tried (right args).0 go may (reworded args p)
        (record { tasks_kept = refl; current_kept = refl }))

  same_access :
      (log : List Event)
      → may_access_code env target mode_attach_realcreds (record w { log = log })
        ≡ may_access_code env target mode_attach_realcreds w
  unfolding may_access_code
  same_access log = refl

  checked :
      attach_flags seize addr flags ≡ some set
      → Ends
          (Attached env target seize addr flags w)
          (attach_checked env target seize set (record w { log = audited target ∷ w.log }))
  unfolding attach_checked
  checked args = elim (Bool-cases (has (w.tasks target).flags pf_kthread)) [
    | inl kernel ↦ simp kernel (ends (denied (right args).0 (is_kthread kernel) same))
    | inr user ↦ elim (Bool-cases ((w.tasks target).tgid == (w.tasks w.current).tgid)) [
      | inl own ↦
          simp (user, own) (ends (denied (right args).0 (own_group (ground (arith, own))) same))
      | inr other ↦ elim (Bool-cases env.lock_interrupted) [
        | inl stop ↦ simp (user, other, stop) (ends (denied (right args).0 (stopped stop) same))
        | inr go ↦ elim (Ret-cases (may_access_code env target mode_attach_realcreds w)) [
          | inl (n, granted) ↦
              simp (user, other, go, same_access (audited target ∷ w.log), granted)
                (then-Ends
                  (attach_locked-Locked env target seize set _
                    (polite.keeps _ (logged-IsLinked (audited target ∷ w.log) l))
                    (flags_set seize addr flags set args))
                  (λ r v p.
                    out r v args go
                      (record {
                        no_kthread = user;
                        other_group = ground arith;
                        allowed = (n, granted);
                      })
                      p))
          | inr (e, refusal) ↦
              simp (user, other, go, same_access (audited target ∷ w.log), refusal)
                (ends (denied (right args).0 (no_access refusal) same))
        ]
      ]
    ]
  ]
    where
      same : HasSameTasks w (record w { log = audited target ∷ w.log })
      same = record { tasks_kept = refl; current_kept = refl }

with_flags :
    (env : Env)
    → IsPolite env
    → (target : ℕ) (seize : Bool) (addr flags : ℕ) (w : World) → IsLinked w
    → (o : Option ℕ) → attach_flags seize addr flags ≡ o
    → Ends (Attached env target seize addr flags w) (attach_with env target seize o w)
unfolding attach_with
with_flags env polite target seize addr flags w l none e =
    ends (bad_arguments (flags_none seize addr flags e))
with_flags env polite target seize addr flags w l (some set) e =
    checked env polite target seize addr flags set w l e

-- ptrace_attach meets no BUG where the lists of tracees are right and the other tasks keep them
-- so. PTRACE_SEIZE with an address or with flags that are no options is EIO; a kernel thread or a
-- task of the caller's thread group is EPERM, a signal while it waits for the guard is
-- ERESTARTNOINTR, and a refusal of __ptrace_may_access is its error, without a change to a task.
-- Only with none of these, and where the target was alive and untraced, it becomes a tracee of
-- the caller with the word for the request and its flags; every other task's tracing and the
-- lists stay right.
pub ptrace_attach-Attached :
    (env : Env) (target : ℕ) (seize : Bool) (addr flags : ℕ) (w : World)
    → IsPolite env
    → IsLinked w
    → Ends (Attached env target seize addr flags w) (ptrace_attach env target seize addr flags w)
unfolding ptrace_attach
ptrace_attach-Attached env target seize addr flags w polite l =
    with_flags env polite target seize addr flags w l (attach_flags seize addr flags) refl
