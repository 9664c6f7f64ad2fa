-- ===== src/Ptrace/Traceme.antt =====
-- `ptrace_traceme` of src/kernel/ptrace.c.
use zso_ptrace.Base.{ℕ, ◌≡◌, ◌≢◌, refl, inl, inr, true, false, arith, ◌!=◌, Bool-cases}
use zso_ptrace.Errno.{Errno, Ret, ok, err, eperm}
use zso_ptrace.Ptrace.Task.{has, pf_exiting, pt_ptraced, unlinked, World, Env}
use zso_ptrace.Ptrace.Linked.{Ends, ends, then-Ends, IsLinked}
use zso_ptrace.Ptrace.Traced.{
  Traced, Traced-IsLinked, free_unlinked, ptrace_link-Traced, with_word, after_word,
}
use zso_ptrace.Ptrace.Attach.{ptrace_traceme, traceme_with}

-- How `ptrace_traceme` ends.
pub data Traceme (env : Env) (w : World) : Ret ℕ → World → Type 0 where
  already : (w.tasks w.current).ptrace ≢ 0 → Traceme env w (err eperm) w
  denied :
      {e : Errno}
      → (w.tasks w.current).ptrace ≡ 0
      → env.traceme_check (w.tasks w.current).parent ≡ err e
      → Traceme env w (err e) w
  parent_exits :
      (w.tasks w.current).ptrace ≡ 0
      → (n : ℕ) × (env.traceme_check (w.tasks w.current).parent ≡ ok n)
      → has (w.tasks (w.tasks w.current).real_parent).flags pf_exiting ≡ true
      → Traceme env w (ok 0) w
  begun :
      {u : World}
      → (w.tasks w.current).ptrace ≡ 0
      → (n : ℕ) × (env.traceme_check (w.tasks w.current).parent ≡ ok n)
      → has (w.tasks (w.tasks w.current).real_parent).flags pf_exiting ≡ false
      → Traced w.current (w.tasks w.current).real_parent pt_ptraced w u
      → IsLinked u
      → Traceme env w (ok 0) u

module _ (env : Env) (w : World) (l : IsLinked w) (alive : (w.tasks w.current).exit_state ≡ 0) where
  allowed :
      (w.tasks w.current).ptrace ≡ 0
      → (r : Ret ℕ) → env.traceme_check (w.tasks w.current).parent ≡ r
      → Ends (Traceme env w) (traceme_with env w.current (w.tasks w.current).real_parent r w)
  unfolding traceme_with
  allowed free (err e) asked = ends (denied free asked)
  allowed free (ok n) asked =
      elim (Bool-cases (has (w.tasks (w.tasks w.current).real_parent).flags pf_exiting)) [
        | inl leaving ↦ simp leaving (ends (parent_exits free (n, asked) leaving))
        | inr stays ↦ simp stays (
            then-Ends
              (ptrace_link-Traced w.current (w.tasks w.current).real_parent
                (with_word w.current pt_ptraced w) word_kept)
              (λ _ u tr. ends (
                begun free (n, asked) stays (after_word tr)
                  (Traced-IsLinked l on_none (ground arith) (after_word tr)))))
      ]
    where
      on_none : (w.tasks w.current).entry ≡ unlinked
      on_none = free_unlinked l free alive

      word_kept : ((with_word w.current pt_ptraced w).tasks w.current).entry ≡ unlinked
      word_kept = ground (arith, on_none)

  -- ptrace_traceme of a task that is alive meets no BUG where the lists of tracees are right:
  -- EPERM for a traced task and the error of the security modules for one that they refuse,
  -- without a change; with neither it is 0, and the task becomes a tracee of its real parent
  -- unless that is exiting, which changes nothing; the lists stay right.
  pub ptrace_traceme-Traceme : Ends (Traceme env w) (ptrace_traceme env w)
  unfolding ptrace_traceme
  ptrace_traceme-Traceme = elim (Bool-cases ((w.tasks w.current).ptrace != 0)) [
    | inl traced ↦ simp traced (ends (already (ground arith)))
    | inr free ↦
        simp free (allowed (ground arith) (env.traceme_check (w.tasks w.current).parent) refl)
  ]
