-- ===== src/Ptrace/Frozen.antt =====
-- `ptrace_check_attach` and `ptrace_unfreeze_traced` of src/kernel/ptrace.c: a request gets hold of its
-- tracee, and lets it go.
use zso_ptrace.Base.{ℕ, ◌≡◌, ◌⊎◌, Bool, true, false, ◌&&◌, ◌==◌, ◌!=◌}
use zso_ptrace.Errno.{Ret, ok, err, esrch}
use zso_ptrace.Ptrace.Task.{
  has, task_traced_bit, jobctl_listening, SigState, Task, World, ◌>>=◌, ◌>>◌, put_task, Env,
}

-- Whether `child` is a tracee of the caller.
abbrev pub is_mine : ℕ → World → Bool
is_mine child w = ((w.tasks child).ptrace != 0) && ((w.tasks child).parent == w.current)

abbrev pub with_state : (child state : ℕ) → World → ℕ → Task
with_state child state w =
    put_task w.tasks child
      (record (w.tasks child) { sig = record ((w.tasks child).sig) { state = state } })

-- A task that is traced, does not listen and has no SIGKILL pending, and one that is not such.
pub record CanFreeze (s : SigState) : Type 0 where
  pub traced : has s.state task_traced_bit ≡ true
  pub deaf : has s.jobctl jobctl_listening ≡ false
  pub alive : s.fatal_pending ≡ false

abbrev pub Awake : SigState → Type 0
Awake s =
    (has s.state task_traced_bit ≡ false)
    ⊎ (has s.jobctl jobctl_listening ≡ true)
    ⊎ (s.fatal_pending ≡ true)

-- How the half under the task list lock ends.
data Ready (child : ℕ) (ignore : Bool) (w : World) : Bool → World → Type 0 where
  stranger : is_mine child w ≡ false → Ready child ignore w false w
  in_any_state :
      {u : World}
      → ignore ≡ true
      → is_mine child w ≡ true
      → u.tasks ≡ w.tasks
      → Ready child ignore w true u
  running :
      {u : World}
      → ignore ≡ false
      → is_mine child w ≡ true
      → Awake (w.tasks child).sig
      → u.tasks ≡ w.tasks
      → Ready child ignore w false u
  stopped :
      {u : World}
      → ignore ≡ false
      → is_mine child w ≡ true
      → CanFreeze (w.tasks child).sig
      → u.tasks ≡ with_state child task_traced_bit w
      → Ready child ignore w true u

-- How `ptrace_check_attach` ends.
pub data Checked (env : Env) (child : ℕ) (ignore : Bool) (w : World) : Ret ℕ → World → Type 0 where
  not_mine : is_mine child w ≡ false → Checked env child ignore w (err esrch) w
  any_state :
      {u : World}
      → ignore ≡ true
      → is_mine child w ≡ true
      → u.tasks ≡ w.tasks
      → Checked env child ignore w (ok 0) u
  not_stopped :
      {u : World}
      → ignore ≡ false
      → is_mine child w ≡ true
      → Awake (w.tasks child).sig
      → u.tasks ≡ w.tasks
      → Checked env child ignore w (err esrch) u
  frozen :
      {u : World}
      → ignore ≡ false
      → is_mine child w ≡ true
      → CanFreeze (w.tasks child).sig
      → env.wait_task_inactive child ≡ true
      → u.tasks ≡ with_state child task_traced_bit w
      → Checked env child ignore w (ok 0) u
  lost :
      {u : World}
      → ignore ≡ false
      → is_mine child w ≡ true
      → CanFreeze (w.tasks child).sig
      → env.wait_task_inactive child ≡ false
      → u.tasks ≡ with_state child task_traced_bit w
      → Checked env child ignore w (err esrch) u
