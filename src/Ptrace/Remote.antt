-- ===== src/Ptrace/Remote.antt =====
-- The requests on descriptors: `ptrace_dup_to_remote` to `ptrace_remote_close` of
-- src/kernel/ptrace.c. `here` is the table of the caller and `there` that of the child; the arguments
-- are what `copy_from_user` brought, `none` where it faulted.
use zso_ptrace.Base.{ℕ, Option, none, some, ◌==◌, if◌then◌else◌}
use zso_ptrace.Errno.{Ret, err, ebadf, efault, einval}
use zso_ptrace.Fd.Table.{File, FilesStruct}
use zso_ptrace.Fd.Kernel.{Kernel}
use zso_ptrace.Fd.Get.{fget_raw, fget_files}
use zso_ptrace.Fd.Close.{close_fd}
use zso_ptrace.Fd.Dup
use zso_ptrace.Fd.Dup.{bad_flags, give}
use zso_ptrace.Ptrace.Store.{Cmd, pure, ◌>>=◌, on}

pub record DupToRemote : Type 0 where
  pub local_fd : ℕ
  pub flags : ℕ

pub record Dup2ToRemote : Type 0 where
  pub local_fd : ℕ
  pub remote_fd : ℕ
  pub flags : ℕ

pub record DupFromRemote : Type 0 where
  pub remote_fd : ℕ
  pub flags : ℕ

pub record RemoteClose : Type 0 where
  pub remote_fd : ℕ

module _ (k : Kernel) (here there : ℕ) where
  -- A file that was looked up, or EBADF.
  unfoldable pub give_to : ℕ → (flags : ℕ) → Option File → Cmd (Ret ℕ)
  give_to i flags none = pure (err ebadf)
  give_to i flags (some file) = on i (give k k.rlimit_nofile flags file)

  -- `ptrace_dup_to_remote`
  unfoldable pub dup_to_remote : (attempts : ℕ) → Option DupToRemote → Cmd (Ret ℕ)
  unfolding give_to
  dup_to_remote attempts none = pure (err efault)
  dup_to_remote attempts (some args) =
      if bad_flags args.flags
      then pure (err einval)
      else (do found ← on here (fget_raw k attempts args.local_fd); give_to there args.flags found)

  -- `ptrace_dup2_to_remote`
  unfoldable pub dup2_to_remote : Option Dup2ToRemote → Cmd (Ret ℕ)
  dup2_to_remote none w = pure (err efault) w
  dup2_to_remote (some args) w =
      let mine = λ (f : FilesStruct). if here == there then f else w.tables here in
      on there (Dup.dup2_to_remote k mine args.local_fd args.remote_fd args.flags) w

  -- `ptrace_dup_from_remote`
  unfoldable pub dup_from_remote : (attempts : ℕ) → Option DupFromRemote → Cmd (Ret ℕ)
  unfolding give_to
  dup_from_remote attempts none = pure (err efault)
  dup_from_remote attempts (some args) = if bad_flags args.flags then pure (err einval) else (do
    found ← on there (fget_files k attempts args.remote_fd)
    give_to here args.flags found)

  -- `ptrace_remote_close`
  unfoldable pub remote_close : Option RemoteClose → Cmd (Ret ℕ)
  remote_close none = pure (err efault)
  remote_close (some args) = on there (close_fd k args.remote_fd)
