-- ===== src/Errno.antt =====
-- Return values of the kernel's functions: a negative error number or a value that is not negative.

pub data Errno : Type 0 where
  eperm esrch eintr eio ebadf eagain enomem eacces efault ebusy enodev einval emfile eoverflow :
      Errno
  erestartnointr : Errno

-- An `int` or `long` that a function returns: `ok n` is `n`, `err e` is `-e`.
pub data Ret {ℓ} (A : Type ℓ) : Type ℓ where
  ok : A → Ret A
  err : Errno → Ret A
