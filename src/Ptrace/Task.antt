-- ===== src/Ptrace/Task.antt =====
-- The tasks as src/kernel/ptrace.c sees them: the fields of `struct task_struct` of
-- src/include/linux/sched.h that it uses, its flags, and the state that its functions pass along.
use zso_ptrace.Base.{
  ℕ, ◌-◌, Bool, true, false, Option, none, some, List, ◌∷◌, bit_and, ◌==◌, ◌!=◌, if◌then◌else◌,
}
use zso_ptrace.Errno.{Ret}

-- `word & mask` as a test, and `word & ~mask` on a word of so many bits.
abbrev pub has : (word mask : ℕ) → Bool
has word mask = bit_and word mask != 0

abbrev pub without : (ones word mask : ℕ) → ℕ
without ones word mask = bit_and word (ones - mask)

-- The `state`, `exit_state`, `flags`, `jobctl` and `ptrace` words.
abbrev pub task_stopped_bit : ℕ
task_stopped_bit = 4

abbrev pub task_traced_bit : ℕ
task_traced_bit = 8

abbrev pub task_traced : ℕ
task_traced = 136

abbrev pub exit_dead : ℕ
exit_dead = 16

abbrev pub exit_zombie : ℕ
exit_zombie = 32

abbrev pub pf_exiting : ℕ
pf_exiting = 0x4

abbrev pub pf_kthread : ℕ
pf_kthread = 0x200000

abbrev pub signal_stop_stopped : ℕ
signal_stop_stopped = 1

abbrev pub jobctl_stop_sigmask : ℕ
jobctl_stop_sigmask = 0xffff

abbrev pub jobctl_stop_pending : ℕ
jobctl_stop_pending = 0x20000

abbrev pub jobctl_trap_stop : ℕ
jobctl_trap_stop = 0x80000

abbrev pub jobctl_trap_mask : ℕ
jobctl_trap_mask = 0x180000

abbrev pub jobctl_trapping : ℕ
jobctl_trapping = 0x200000

abbrev pub jobctl_listening : ℕ
jobctl_listening = 0x400000

abbrev pub pt_ptraced : ℕ
pt_ptraced = 1

abbrev pub pt_seized : ℕ
pt_seized = 0x10000

-- `PTRACE_O_MASK` and `PT_OPT_FLAG_SHIFT`, as a factor; `PT_EXITKILL` and `PT_SUSPEND_SECCOMP`.
abbrev pub ptrace_o_mask : ℕ
ptrace_o_mask = 0x3000ff

abbrev pub pt_opt_factor : ℕ
pt_opt_factor = 8

abbrev pub pt_exitkill : ℕ
pt_exitkill = 0x800000

abbrev pub ptrace_o_suspend_seccomp : ℕ
ptrace_o_suspend_seccomp = 0x200000

abbrev pub pt_suspend_seccomp : ℕ
pt_suspend_seccomp = 0x1000000

abbrev pub sigkill : ℕ
sigkill = 9

abbrev pub sigstop : ℕ
sigstop = 19

-- Where the entry of a task is: `list_empty`, on the `ptraced` list of a task, or on the list of
-- those that `exit_ptrace` leaves to be reaped.
pub data Place : Type 0 where
  unlinked : Place
  traced_by : ℕ → Place
  to_reap : Place

-- Whether an entry is on the list of task `t`.
abbrev pub is_at : ℕ → Place → Bool
is_at t unlinked = false
is_at t (traced_by s) = t == s
is_at t to_reap = false

abbrev pub is_unlinked : Place → Bool
is_unlinked unlinked = true
is_unlinked (traced_by s) = false
is_unlinked to_reap = false

-- What `sighand->siglock` guards, and the pending SIGKILL, which the signal code writes too.
pub record SigState : Type 0 where
  pub state : ℕ
  pub jobctl : ℕ
  pub fatal_pending : Bool

pub record Cred : Type 0 where
  pub uid : ℕ
  pub euid : ℕ
  pub suid : ℕ
  pub fsuid : ℕ
  pub gid : ℕ
  pub egid : ℕ
  pub sgid : ℕ
  pub fsgid : ℕ
  pub user_ns : ℕ

pub record Mm : Type 0 where
  pub dumpable : ℕ
  pub mm_user_ns : ℕ

-- `signal_flags` and `group_stop_count` are those of `signal`; `sigchld_ignored` and `sa_nocldwait`
-- are what `sighand` says of SIGCHLD.
pub record Task : Type 0 where
  pub flags : ℕ
  pub ptrace : ℕ
  pub sig : SigState
  pub exit_state : ℕ
  pub exit_code : ℕ
  pub exit_signal : ℕ
  pub syscall_trace : Bool
  pub parent : ℕ
  pub real_parent : ℕ
  pub entry : Place
  pub ptraced : List ℕ
  pub cred : ℕ
  pub ptracer_cred : Option ℕ
  pub mm : Option Mm
  pub tgid : ℕ
  pub is_leader : Bool
  pub group_empty : Bool
  pub signal_flags : ℕ
  pub group_stop_count : ℕ
  pub sigchld_ignored : Bool
  pub sa_nocldwait : Bool

-- The calls that leave no trace in a task.
pub data Event : Type 0 where
  got_cred : ℕ → Event
  put_cred : ℕ → Event
  audited : ℕ → Event
  waited_for_trap : ℕ → Event
  connector : ℕ → Event
  woke_parent : ℕ → ℕ → Event
  arch_disabled : ℕ → Event
  warned : Event

pub record World : Type 0 where
  pub tasks : ℕ → Task
  pub current : ℕ
  pub dead : List ℕ
  pub log : List Event

pub data Run {ℓ} (A : Type ℓ) : Type ℓ where
  done : A → World → Run A
  bug : Run A

abbrev pub Cmd {ℓ} : Type ℓ → Type ℓ
Cmd A = World → Run A

abbrev pub pure {ℓ} : {A : Type ℓ} → A → Cmd A
pure a w = done a w

abbrev pub and_then {ℓ κ} : {A : Type ℓ} {B : Type κ} → Run A → (A → Cmd B) → Run B
and_then (done a w) k = k a w
and_then bug k = bug

infixl 5 ◌>>=◌ ◌>>◌
abbrev pub ◌>>=◌ {ℓ κ} : {A : Type ℓ} {B : Type κ} → Cmd A → (A → Cmd B) → Cmd B
◌>>=◌ m k w = and_then (m w) k

abbrev pub ◌>>◌ {ℓ κ} : {A : Type ℓ} {B : Type κ} → Cmd A → Cmd B → Cmd B
◌>>◌ m k w = and_then (m w) (λ _. k)

abbrev pub task : ℕ → Cmd Task
task i w = done (w.tasks i) w

abbrev pub the_current : Cmd ℕ
the_current w = done w.current w

-- A write to task `i`.
abbrev pub put_task : (ℕ → Task) → ℕ → Task → ℕ → Task
put_task tasks i t j = if j == i then t else tasks j

abbrev pub modify : ℕ → (Task → Task) → Cmd (Unit {0})
modify i f w = done tt (record w { tasks = put_task w.tasks i (f (w.tasks i)) })

-- A write to the list of those that are left to be reaped.
abbrev pub reap_list : (List ℕ → List ℕ) → Cmd (Unit {0})
reap_list f w = done tt (record w { dead = f w.dead })

abbrev pub tell : Event → Cmd (Unit {0})
tell e w = done tt (record w { log = e ∷ w.log })

abbrev pub bug_on : Bool → Cmd (Unit {0})
bug_on true w = bug
bug_on false w = done tt w

-- `put_cred`, which does nothing on NULL
abbrev pub log_put : Option ℕ → List Event → List Event
log_put none log = log
log_put (some c) log = put_cred c ∷ log

abbrev pub drop_cred : Option ℕ → Cmd (Unit {0})
drop_cred c w = done tt (record w { log = log_put c w.log })

-- What src/kernel/ptrace.c uses and does not define. The functions on a SigState are those of the
-- signal code and the scheduler, which write nothing else of a task that is used here;
-- `set_pending` also says whether it did. `others` is what the other tasks do while `ptrace_attach`
-- takes the locks that it needs for the link.
pub record Env : Type 0 where
  pub clear_pending : ℕ → SigState → SigState
  pub clear_trapping : SigState → SigState
  pub set_pending : ℕ → SigState → Bool × SigState
  pub wake_up : ℕ → SigState → SigState
  pub wake_up_state : ℕ → SigState → SigState
  pub send_sig : ℕ → SigState → SigState
  pub wait_task_inactive : ℕ → Bool
  pub cred_of : ℕ → Cred
  pub has_ns_capability : (audit : Bool) → (task ns : ℕ) → Bool
  pub capable : Bool
  pub seccomp_enabled : Bool
  pub seccomp_disabled : ℕ → Bool
  pub access_check : (task mode : ℕ) → Ret ℕ
  pub traceme_check : ℕ → Ret ℕ
  pub lock_interrupted : Bool
  pub notify_parent : ℕ → Bool
  pub others : World → World

abbrev pub let_others : Env → Cmd (Unit {0})
let_others env w = done tt (env.others w)
