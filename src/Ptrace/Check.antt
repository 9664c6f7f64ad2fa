-- ===== src/Ptrace/Check.antt =====
-- Requests on a tracee: `ptrace_freeze_traced` to `ptrace_check_attach` and `ptrace_setoptions` of
-- src/kernel/ptrace.c.
use zso_ptrace.Base.{
  ℕ, ◌-◌, ◌*◌, ◌%◌, ◌^◌, Bool, true, false, not, ◌&&◌, ◌||◌, bit_or, ◌==◌, ◌!=◌, if◌then◌else◌,
}
use zso_ptrace.Errno.{Ret, ok, err, esrch, einval, eperm}
use zso_ptrace.Ptrace.Task.{
  has, without, task_traced_bit, task_traced, jobctl_listening, ptrace_o_mask, pt_opt_factor,
  ptrace_o_suspend_seccomp, pt_suspend_seccomp, SigState, Task, warned, Cmd, pure, ◌>>=◌, ◌>>◌,
  task, the_current, modify, tell, Env,
}

-- `ptrace_freeze_traced` on what the signal lock guards: whether it froze the task, and the task.
unfoldable pub freezes : SigState → Bool
freezes s =
    not (has s.jobctl jobctl_listening) && has s.state task_traced_bit && not s.fatal_pending

unfoldable pub ptrace_freeze_traced : ℕ → Cmd Bool
ptrace_freeze_traced child = do
  t ← task child
  if freezes t.sig
      then (do
        modify child (λ t. record t { sig = record (t.sig) { state = task_traced_bit } })
        pure true)
      else pure false

module _ (env : Env) where
  -- `ptrace_unfreeze_traced`
  unfoldable pub ptrace_unfreeze_traced : ℕ → Cmd (Unit {0})
  ptrace_unfreeze_traced child = do
    t ← task child
    me ← the_current
    if t.sig.state != task_traced_bit then pure tt else (do
      if (t.ptrace == 0) || (t.parent != me) then tell warned else pure tt
      modify child (λ t. record t {
        sig =
            if t.sig.fatal_pending
            then env.wake_up_state task_traced_bit t.sig
            else record (t.sig) { state = task_traced };
      }))

  -- The half of `ptrace_check_attach` under the task list lock: whether the child is ready.
  unfoldable pub check_locked : (child : ℕ) → (ignore_state : Bool) → Cmd Bool
  check_locked child ignore_state = do
    t ← task child
    me ← the_current
    if (t.ptrace != 0) && (t.parent == me)
        then (do
          if t.sig.state == task_traced_bit then tell warned else pure tt
          if ignore_state then pure true else ptrace_freeze_traced child)
        else pure false

  -- `ptrace_check_attach`
  unfoldable pub ptrace_check_attach : (child : ℕ) → (ignore_state : Bool) → Cmd (Ret ℕ)
  ptrace_check_attach child ignore_state = do
    ready ← check_locked child ignore_state
    if not ready
        then pure (err esrch)
        else if ignore_state || env.wait_task_inactive child
        then pure (ok 0)
        else (do
          t ← task child
          if t.sig.state == task_traced_bit then tell warned else pure tt
          pure (err esrch))

  -- What `ptrace_setoptions` asks of the caller for PTRACE_O_SUSPEND_SECCOMP.
  unfoldable pub seccomp_refusal : (caller : ℕ) → Task → Ret ℕ
  seccomp_refusal caller c =
      if not env.seccomp_enabled
      then err einval
      else if not env.capable
      then err eperm
      else if not (env.seccomp_disabled caller) || has c.ptrace pt_suspend_seccomp
      then err eperm
      else ok 0

  -- The word that it stores: the flags but the options, and the options.
  unfoldable pub set_options_word : (ptrace options : ℕ) → ℕ
  set_options_word ptrace options =
      bit_or (without (2 ^ 32 - 1) ptrace (ptrace_o_mask * pt_opt_factor))
        (options * pt_opt_factor % 2 ^ 32)

  unfoldable pub store_options : (child options : ℕ) → Ret ℕ → Cmd (Ret ℕ)
  unfolding set_options_word
  store_options child options (err e) = pure (err e)
  store_options child options (ok n) = do
    modify child (λ t. record t { ptrace = set_options_word t.ptrace options })
    pure (ok 0)

  -- `ptrace_setoptions`
  unfoldable pub ptrace_setoptions : (child options : ℕ) → Cmd (Ret ℕ)
  ptrace_setoptions child options =
      if has options (2 ^ 64 - 1 - ptrace_o_mask) then pure (err einval) else (do
        me ← the_current
        c ← task me
        store_options child options
            (if has options ptrace_o_suspend_seccomp then seccomp_refusal me c else ok 0))
