-- ===== src/Ptrace/Link.antt =====
-- `__ptrace_link` and `__ptrace_unlink` of src/kernel/ptrace.c.
use zso_ptrace.Base.{
  ℕ, false, not, ◌&&◌, ◌||◌, none, some, List, [], ◌∷◌, bit_or, ◌==◌, ◌!=◌, if◌then◌else◌,
}
use zso_ptrace.Ptrace.Task.{
  has, task_traced_bit, pf_exiting, signal_stop_stopped, jobctl_stop_sigmask, jobctl_stop_pending,
  jobctl_trap_mask, sigstop, Place, unlinked, traced_by, to_reap, is_unlinked, SigState, Task,
  got_cred, Cmd, pure, ◌>>=◌, ◌>>◌, task, modify, reap_list, tell, bug_on, drop_cred, Env,
}

-- `list_del` of an entry that is on the list once.
unfoldable pub remove : ℕ → List ℕ → List ℕ
remove p [] = []
remove p (q ∷ l) = if p == q then l else q ∷ remove p l

-- `list_add` to the `ptraced` list of a task.
unfoldable pub add_entry : (child tracer : ℕ) → Cmd (Unit {0})
add_entry child tracer = do
  modify tracer (λ t. record t { ptraced = child ∷ t.ptraced })
  modify child (λ t. record t { entry = traced_by tracer })

-- `list_del_init`, by the list that the entry is on.
unfoldable pub unhook : ℕ → Place → Cmd (Unit {0})
unfolding remove
unhook child unlinked = pure tt
unhook child (traced_by tracer) = modify tracer (λ t. record t { ptraced = remove child t.ptraced })
unhook child to_reap = reap_list (remove child)

unfoldable pub del_entry : ℕ → Cmd (Unit {0})
unfolding unhook
del_entry child = do
  t ← task child
  unhook child t.entry
  modify child (λ t. record t { entry = unlinked })

-- `__ptrace_link`
unfoldable pub ptrace_link : (child new_parent : ℕ) → Cmd (Unit {0})
unfolding add_entry
ptrace_link child new_parent = do
  t ← task child
  bug_on (not (is_unlinked t.entry))
  add_entry child new_parent
  modify child (λ t. record t { parent = new_parent })
  tracer ← task new_parent
  tell (got_cred tracer.cred)
  modify child (λ t. record t { ptracer_cred = some tracer.cred })

-- A stop signal for a child that has none, and the pending stop.
unfoldable pub reinstate_stop : SigState → SigState
reinstate_stop s =
    let jobctl = bit_or s.jobctl jobctl_stop_pending in
    record s { jobctl = if has jobctl jobctl_stop_sigmask then jobctl else bit_or jobctl sigstop }

module _ (env : Env) where
  -- The part of `__ptrace_unlink` under the lock of the signal handlers.
  unfoldable pub leave_traps : Task → SigState
  unfolding reinstate_stop
  leave_traps t =
      let cleared = env.clear_trapping (env.clear_pending jobctl_trap_mask t.sig) in
      let stops =
        not (has t.flags pf_exiting)
        && (has t.signal_flags signal_stop_stopped || (t.group_stop_count != 0)) in
      let s = if stops then reinstate_stop cleared else cleared in
      if has s.jobctl jobctl_stop_pending || has s.state task_traced_bit
      then env.wake_up task_traced_bit s
      else s

  -- `__ptrace_unlink`
  unfoldable pub ptrace_unlink : ℕ → Cmd (Unit {0})
  unfolding del_entry leave_traps
  ptrace_unlink child = do
    t ← task child
    bug_on (t.ptrace == 0)
    modify child (λ t. record t { syscall_trace = false; parent = t.real_parent })
    del_entry child
    modify child (λ t. record t { ptracer_cred = none })
    drop_cred t.ptracer_cred
    modify child (λ t. record t { ptrace = 0 })
    modify child (λ t. record t { sig = leave_traps t })
