-- ===== src/Ptrace/Siginfo.antt =====
-- `ptrace_peek_siginfo` of src/kernel/ptrace.c: a copy of the signals that are queued for a tracee.
use zso_ptrace.Base.{
  ℕ, zero, suc, ◌+◌, ◌-◌, ◌%◌, ◌^◌, Bool, true, false, Option, none, some, List, [], ◌∷◌, leb, ltb,
  bit_and, ◌!=◌, if◌then◌else◌,
}
use zso_ptrace.Errno.{Ret, ok, err, efault, einval}

-- The contents of a `siginfo_t`.
abbrev pub Info : Type 0
Info = ℕ

-- `struct ptrace_peeksiginfo_args`; `nr` is the word of a signed number.
pub record PeekArgs : Type 0 where
  pub off : ℕ
  pub flags : ℕ
  pub nr : ℕ

abbrev pub peeksiginfo_shared : ℕ
peeksiginfo_shared = 1

-- The first number that is negative as an `s32`.
abbrev pub sign_bit : ℕ
sign_bit = 0x80000000

-- What a round finds in the queue, `none` where it leaves its `info` uninitialised, and the counter
-- after it, a word of 32 bits: it is counted down past every entry.
unfoldable pub search : ℕ → List Info → Option Info × ℕ
search off [] = (none, off)
search zero (q ∷ l) = (some q, 0xffffffff)
search (suc off) (q ∷ l) = search off l

-- What has been copied to the user, and whether the last copy faulted.
pub record Copied : Type 0 where
  pub entries : List (Option Info)
  pub faulted : Bool

abbrev pub add_entry : Option Info → Copied → Copied
add_entry info c = record c { entries = info ∷ c.entries }

-- The loop with `n` rounds left, in round `i`. `queue` is what is pending in a round, `faults` says
-- whether the copy faults and `interrupted` whether a signal is pending for the caller after it.
module _ (queue : ℕ → List Info) (faults interrupted : ℕ → Bool) where
  unfoldable pub peek_loop : (off n i : ℕ) → Copied
  unfolding search
  peek_loop off zero i = record { entries = []; faulted = false }
  peek_loop off (suc n) i =
      let rest = peek_loop off n (suc i) in
      let (info, left) = search ((off + i) % 2 ^ 32) (queue i) in
      if ltb left sign_bit
      then record { entries = []; faulted = false }
      else if faults i
      then record { entries = []; faulted = true }
      else if interrupted i
      then record { entries = info ∷ []; faulted = false }
      else add_entry info rest

unfoldable pub length {ℓ} : {A : Type ℓ} → List A → ℕ
length [] = 0
length (x ∷ l) = suc (length l)

-- The number of copies, or the error of the first.
unfoldable pub peek_result : Copied → Ret ℕ
unfolding length
peek_result c =
    let i = length c.entries in if ltb 0 i then ok i else if c.faulted then err efault else ok 0

-- `ptrace_peek_siginfo`, with the two queues; the arguments are `none` where `copy_from_user` faulted.
unfoldable pub ptrace_peek_siginfo :
    (own shared : ℕ → List Info) (faults interrupted : ℕ → Bool) → Option PeekArgs → Ret ℕ × Copied
ptrace_peek_siginfo own shared faults interrupted none =
    (err efault, record { entries = []; faulted = false })
ptrace_peek_siginfo own shared faults interrupted (some arg) =
    let queue = if bit_and arg.flags peeksiginfo_shared != 0 then shared else own in
    let copied = peek_loop queue faults interrupted arg.off arg.nr 0 in
    if bit_and arg.flags (2 ^ 32 - 1 - peeksiginfo_shared) != 0
    then (err einval, record { entries = []; faulted = false })
    else if leb sign_bit arg.nr
    then (err einval, record { entries = []; faulted = false })
    else (peek_result copied, copied)
