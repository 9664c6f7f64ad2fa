-- ===== src/Ptrace/Attach.antt =====
-- Who may trace whom: `ptrace_has_cap` to `ptrace_traceme` of src/kernel/ptrace.c.
use zso_ptrace.Base.{
  ℕ, ◌-◌, ◌*◌, Bool, true, false, not, ◌&&◌, ◌||◌, Option, none, some, bit_or, ◌==◌, ◌!=◌,
  if◌then◌else◌,
}
use zso_ptrace.Errno.{Ret, ok, err, eperm, eio, erestartnointr}
use zso_ptrace.Ptrace.Task.{
  has, task_stopped_bit, pf_exiting, pf_kthread, jobctl_trap_stop, jobctl_trapping, pt_ptraced,
  pt_seized, ptrace_o_mask, pt_opt_factor, sigstop, SigState, Cred, Mm, audited, waited_for_trap,
  connector, World, done, Cmd, pure, ◌>>=◌, ◌>>◌, task, the_current, modify, tell, Env, let_others,
}
use zso_ptrace.Ptrace.Link.{ptrace_link}

-- `PTRACE_MODE_NOAUDIT`, `_FSCREDS`, `_REALCREDS` and `_ATTACH_REALCREDS`
abbrev pub mode_noaudit : ℕ
mode_noaudit = 4

abbrev pub mode_fscreds : ℕ
mode_fscreds = 8

abbrev pub mode_realcreds : ℕ
mode_realcreds = 16

abbrev pub mode_attach_realcreds : ℕ
mode_attach_realcreds = 18

-- `SUID_DUMP_USER`
abbrev pub suid_dump_user : ℕ
suid_dump_user = 1

-- All the identities of the target are the caller's.
unfoldable pub same_ids : (uid gid : ℕ) → Cred → Bool
same_ids uid gid t =
    (uid == t.euid)
    && (uid == t.suid)
    && (uid == t.uid)
    && (gid == t.egid)
    && (gid == t.sgid)
    && (gid == t.gid)

-- The flags that `ptrace_attach` sets, or none where PTRACE_SEIZE has wrong arguments.
unfoldable pub attach_flags : (seize : Bool) → (addr flags : ℕ) → Option ℕ
attach_flags false addr flags = some pt_ptraced
attach_flags true addr flags =
    if (addr != 0) || has flags (0xffffffffffffffff - ptrace_o_mask)
    then none
    else some (bit_or pt_ptraced (bit_or pt_seized (flags * pt_opt_factor)))

module _ (env : Env) where
  -- `ptrace_has_cap` of the task `caller`
  unfoldable pub ptrace_has_cap : (caller ns mode : ℕ) → Bool
  ptrace_has_cap caller ns mode =
      if has mode mode_noaudit
      then env.has_ns_capability false caller ns
      else env.has_ns_capability true caller ns

  -- The dumpable check of `__ptrace_may_access`.
  unfoldable pub hides_memory : (caller mode : ℕ) → Option Mm → Bool
  unfolding ptrace_has_cap
  hides_memory caller mode none = false
  hides_memory caller mode (some mm) =
      (mm.dumpable != suid_dump_user) && not (ptrace_has_cap caller mm.mm_user_ns mode)

  -- `__ptrace_may_access`, whose result is 0 or an error
  unfoldable pub may_access_code : (target mode : ℕ) → World → Ret ℕ
  unfolding same_ids ptrace_has_cap hides_memory
  may_access_code target mode w =
      let t = w.tasks target in
      let c = w.tasks w.current in
      let cred = env.cred_of c.cred in
      let tcred = env.cred_of t.cred in
      let fs = has mode mode_fscreds in
      let uid = if fs then cred.fsuid else cred.uid in
      let gid = if fs then cred.fsgid else cred.gid in
      if (if fs then has mode mode_realcreds else not (has mode mode_realcreds))
      then err eperm
      else if t.tgid == c.tgid
      then ok 0
      else if not (same_ids uid gid tcred || ptrace_has_cap w.current tcred.user_ns mode)
      then err eperm
      else if hides_memory w.current mode t.mm
      then err eperm
      else env.access_check target mode

  -- `ptrace_may_access`
  unfoldable pub ptrace_may_access : (target mode : ℕ) → World → Bool
  unfolding may_access_code
  ptrace_may_access target mode w = elim (may_access_code target mode w) [
    | ok n ↦ true
    | err e ↦ false
  ]

  -- A stopped task is set on its way to TRACED.
  unfoldable pub trap_stopped : SigState → SigState
  trap_stopped s =
      if has s.state task_stopped_bit
      then (let (set, pending) = env.set_pending (bit_or jobctl_trap_stop jobctl_trapping) s in
          if set then env.wake_up task_stopped_bit pending else pending)
      else s

  -- The part of `ptrace_attach` under the task list lock, with the flags that it sets.
  unfoldable pub attach_locked : (target : ℕ) → (seize : Bool) → (flags : ℕ) → Cmd (Ret ℕ)
  unfolding ptrace_link trap_stopped
  attach_locked target seize flags = do
    t ← task target
    if t.exit_state != 0 then pure (err eperm) else if t.ptrace != 0 then pure (err eperm) else (do
      modify target (λ t. record t { ptrace = if seize then bit_or flags pt_seized else flags })
      me ← the_current
      ptrace_link target me
      modify target (λ t. record t { sig = if seize then t.sig else env.send_sig sigstop t.sig })
      modify target (λ t. record t { sig = trap_stopped t.sig })
      pure (ok 0))

  -- The end of `ptrace_attach`.
  unfoldable pub attach_out : ℕ → Ret ℕ → Cmd (Ret ℕ)
  attach_out target (err e) = pure (err e)
  attach_out target (ok n) = do tell (waited_for_trap target); tell (connector target); pure (ok n)

  -- `ptrace_attach` behind its tests on the arguments.
  unfoldable pub attach_checked : (target : ℕ) → (seize : Bool) → (flags : ℕ) → Cmd (Ret ℕ)
  attach_checked target seize flags = do
    t ← task target
    me ← the_current
    c ← task me
    if has t.flags pf_kthread
        then pure (err eperm)
        else if t.tgid == c.tgid
        then pure (err eperm)
        else if env.lock_interrupted
        then pure (err erestartnointr)
        else (do
          allowed ← (λ w. done (may_access_code target mode_attach_realcreds w) w)
          elim allowed [
            | err e ↦ pure (err e)
            | ok n ↦ do let_others env; r ← attach_locked target seize flags; attach_out target r
          ])

  -- `ptrace_attach`
  unfoldable pub attach_with : (target : ℕ) → (seize : Bool) → Option ℕ → Cmd (Ret ℕ)
  attach_with target seize none = pure (err eio)
  attach_with target seize (some set) = do tell (audited target); attach_checked target seize set

  unfoldable pub ptrace_attach : (target : ℕ) → (seize : Bool) → (addr flags : ℕ) → Cmd (Ret ℕ)
  unfolding attach_with
  ptrace_attach target seize addr flags = attach_with target seize (attach_flags seize addr flags)

  -- `ptrace_traceme` with what the security modules answered.
  unfoldable pub traceme_with : (me real_parent : ℕ) → Ret ℕ → Cmd (Ret ℕ)
  traceme_with me real_parent (err e) = pure (err e)
  traceme_with me real_parent (ok n) = do
    parent ← task real_parent
    if has parent.flags pf_exiting then pure (ok 0) else (do
      modify me (λ t. record t { ptrace = pt_ptraced })
      ptrace_link me real_parent
      pure (ok 0))

  -- `ptrace_traceme`
  unfoldable pub ptrace_traceme : Cmd (Ret ℕ)
  ptrace_traceme = do
    me ← the_current
    t ← task me
    if t.ptrace != 0
        then pure (err eperm)
        else traceme_with me t.real_parent (env.traceme_check t.parent)
