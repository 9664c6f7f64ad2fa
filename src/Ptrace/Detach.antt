-- ===== src/Ptrace/Detach.antt =====
-- The end of tracing: `ignoring_children` to `exit_ptrace` of src/kernel/ptrace.c.
use zso_ptrace.Base.{ℕ, Bool, true, false, not, ◌||◌, List, [], ◌∷◌, leb, ◌==◌, ◌!=◌, if◌then◌else◌}
use zso_ptrace.Errno.{Ret, ok, err, eio}
use zso_ptrace.Ptrace.Task.{
  has, exit_dead, exit_zombie, pt_exitkill, sigkill, to_reap, Task, connector, woke_parent,
  arch_disabled, warned, Cmd, pure, ◌>>=◌, ◌>>◌, task, the_current, modify, reap_list, tell, Env,
}
use zso_ptrace.Ptrace.Link.{ptrace_unlink}

-- `ignoring_children` on the handlers of a task
unfoldable pub ignoring_children : Task → Bool
ignoring_children t = t.sigchld_ignored || t.sa_nocldwait

-- `valid_signal`
unfoldable pub valid_signal : ℕ → Bool
valid_signal sig = leb sig 64

module _ (env : Env) where
  -- Whether a zombie that was untraced is to be reaped.
  unfoldable pub reaps_zombie : (tracer p : ℕ) → Cmd Bool
  reaps_zombie tracer p = do
    t ← task p
    if not t.is_leader then pure true else if not t.group_empty then pure false else (do
      real ← task t.real_parent
      own ← task tracer
      if real.tgid != own.tgid
          then pure (env.notify_parent p)
          else if ignoring_children own
          then (do tell (woke_parent p tracer); pure true)
          else pure false)

  -- `if (dead) p->exit_state = EXIT_DEAD`
  unfoldable pub mark_dead : (p : ℕ) → Bool → Cmd Bool
  mark_dead p false = pure false
  mark_dead p true = do modify p (λ t. record t { exit_state = exit_dead }); pure true

  -- `__ptrace_detach` behind the unlinking.
  unfoldable pub reap_if_zombie : (tracer p : ℕ) → Cmd Bool
  reap_if_zombie tracer p = do
    t ← task p
    if t.exit_state != exit_zombie
        then pure false
        else (do dead ← reaps_zombie tracer p; mark_dead p dead)

  -- `__ptrace_detach`
  unfoldable pub ptrace_detach_task : (tracer p : ℕ) → Cmd Bool
  ptrace_detach_task tracer p = do ptrace_unlink env p; reap_if_zombie tracer p

  -- `ptrace_detach`
  unfoldable pub ptrace_detach : (child data_word : ℕ) → Cmd (Ret ℕ)
  ptrace_detach child data_word = if not (valid_signal data_word) then pure (err eio) else (do
    tell (arch_disabled child)
    t ← task child
    if (t.ptrace == 0) || (t.exit_state != 0) then tell warned else pure tt
    modify child (λ t. record t { exit_code = data_word })
    me ← the_current
    dead ← ptrace_detach_task me child
    tell (connector child)
    pure (ok 0))

  -- The SIGKILL of PTRACE_O_EXITKILL.
  unfoldable pub exit_kill : ℕ → Cmd (Unit {0})
  exit_kill p = do
    t ← task p
    if has t.ptrace pt_exitkill
        then modify p (λ t. record t { sig = env.send_sig sigkill t.sig })
        else pure tt

  -- `list_add(&p->ptrace_entry, dead)`
  unfoldable pub add_dead : (p : ℕ) → Bool → Cmd (Unit {0})
  add_dead p false = pure tt
  add_dead p true = do reap_list (λ dead. p ∷ dead); modify p (λ t. record t { entry = to_reap })

  -- One round of the loop of `exit_ptrace`.
  unfoldable pub exit_one : (tracer p : ℕ) → Cmd (Unit {0})
  exit_one tracer p = do exit_kill p; dead ← ptrace_detach_task tracer p; add_dead p dead

  -- The loop over what is left of the list, whose next entry is read before a round.
  unfoldable pub exit_loop : (tracer : ℕ) → List ℕ → Cmd (Unit {0})
  exit_loop tracer [] w = pure tt w
  exit_loop tracer (p ∷ rest) w = (exit_one tracer p >> exit_loop tracer rest) w

  -- `exit_ptrace`
  unfoldable pub exit_ptrace : ℕ → Cmd (Unit {0})
  unfolding exit_loop
  exit_ptrace tracer w = exit_loop tracer (w.tasks tracer).ptraced w
