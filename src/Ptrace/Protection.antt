-- ===== src/Ptrace/Protection.antt =====
-- `ptrace_remote_mprotect` of src/kernel/ptrace.c on the address spaces of several tasks.
use zso_ptrace.Base.{ℕ, ◌≡◌, ◌≢◌, Bool, Option, none, some}
use zso_ptrace.Base.Run.{done}
use zso_ptrace.Errno.{Errno, efault}
use zso_ptrace.Mm.Area.{Outside}
use zso_ptrace.Mm.Protect.{Resources}
use zso_ptrace.Mm.Mprotect.{Policy, mprotect_task}
use zso_ptrace.Mm.Mprotected.{Mprotected}
use zso_ptrace.Ptrace.Memory.{Spaces, Cmd, on}

-- `struct ptrace_remote_mprotect`
pub record RemoteMprotect : Type 0 where
  pub addr : ℕ
  pub length : ℕ
  pub prot : ℕ

-- What a call finds beside the address spaces: the machine, what it may use, the security modules,
-- and whether the child's personality has READ_IMPLIES_EXEC.
pub record Setting : Type 0 where
  pub out : Outside
  pub res : Resources
  pub pol : Policy
  pub implies_exec : Bool

-- `ptrace_remote_mprotect`: `args` is what `copy_from_user` brought, `killed` whether a signal kills the
-- caller while it waits for `mmap_sem`. `child` is the space of the child.
unfoldable pub remote_mprotect :
    Setting → (killed : Bool) → (child : ℕ) → Option RemoteMprotect → Cmd (Option Errno)
remote_mprotect k killed child none w = done (some efault) w
remote_mprotect k killed child (some args) w =
    on child (mprotect_task k.out k.res k.pol k.implies_exec killed args.addr args.length args.prot)
      w

pub data RemoteMprotected (k : Setting) (killed : Bool) (child : ℕ) (w : Spaces)
    : Option RemoteMprotect → Option Errno → Spaces → Type 0 where
  faulted : RemoteMprotected k killed child w none (some efault) w
  done_there :
      {args : RemoteMprotect} {r : Option Errno} {u : Spaces}
      → Mprotected k.pol k.implies_exec killed args.addr args.length args.prot none
          (w.space child).mm
          r
          (u.space child).mm
      → ((i : ℕ) → i ≢ child → u.space i ≡ w.space i)
      → RemoteMprotected k killed child w (some args) r u
