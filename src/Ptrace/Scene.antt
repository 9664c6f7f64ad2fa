-- ===== src/Ptrace/Scene.antt =====
-- A few concrete tasks for the examples: task 1 traces task 2, nobody else is traced.
use zso_ptrace.Base.{ℕ, ◌≡◌, refl, true, false, none, some, [], ◌∷◌, arith, ◌==◌, if◌then◌else◌}
use zso_ptrace.Errno.{ok}
use zso_ptrace.Ptrace.Task.{Task, Env, World, unlinked, traced_by}
use zso_ptrace.Ptrace.Linked.{IsLinked, count}
use zso_ptrace.Ptrace.Attached.{IsPolite}

abbrev pub plain : ℕ → Task
plain i = record {
  flags = 0;
  ptrace = 0;
  sig = record { state = 136; jobctl = 0; fatal_pending = false };
  exit_state = 0;
  exit_code = 0;
  exit_signal = 17;
  syscall_trace = false;
  parent = 0;
  real_parent = 0;
  entry = unlinked;
  ptraced = [];
  cred = i;
  ptracer_cred = none;
  mm = none;
  tgid = i;
  is_leader = true;
  group_empty = true;
  signal_flags = 0;
  group_stop_count = 0;
  sigchld_ignored = false;
  sa_nocldwait = false;
}

abbrev tracing : Task
tracing = record (plain 1) { ptraced = 2 ∷ [] }

abbrev tracee : Task
tracee = record (plain 2) { ptrace = 1; entry = traced_by 1; parent = 1; ptracer_cred = some 1 }

-- Task `current` runs.
abbrev pub scene : ℕ → World
scene current = record {
  tasks = λ i. if i == 1 then tracing else if i == 2 then tracee else plain i;
  current = current;
  dead = [];
  log = [];
}

count_two : (p : ℕ) → count p (2 ∷ []) ≡ (if p == 2 then 1 else 0)
unfolding count
count_two p = ground arith

count_none : (p : ℕ) → count p [] ≡ 0
unfolding count
count_none p = refl

pub scene-IsLinked : (current : ℕ) → IsLinked (scene current)
scene-IsLinked current = record {
  lists = λ t p. ground (arith, count_two p, count_none p);
  tracer = λ t p h. ground arith;
  word = λ p. ground arith;
  own = λ p h. ground arith;
  reaped = λ p h. ground arith;
}

abbrev pub env : Env
env = record {
  clear_pending = λ mask s. s;
  clear_trapping = λ s. s;
  set_pending = λ mask s. (true, s);
  wake_up = λ mask s. record s { state = 0 };
  wake_up_state = λ mask s. record s { state = 0 };
  send_sig = λ sig s. s;
  wait_task_inactive = λ t. true;
  cred_of = λ c. record {
    uid = 7;
    euid = 7;
    suid = 7;
    fsuid = 7;
    gid = 7;
    egid = 7;
    sgid = 7;
    fsgid = 7;
    user_ns = 0;
  };
  has_ns_capability = λ audit t ns. false;
  capable = false;
  seccomp_enabled = true;
  seccomp_disabled = λ t. true;
  access_check = λ t mode. ok 0;
  traceme_check = λ t. ok 0;
  lock_interrupted = false;
  notify_parent = λ t. false;
  others = λ w. w;
}

pub env-IsPolite : IsPolite env
env-IsPolite = record { keeps = λ w l. l }
