-- ===== src/Ptrace/Detached.antt =====
-- `ptrace_detach` of src/kernel/ptrace.c: a tracer lets one tracee go.
use zso_ptrace.Base.{
  ℕ, List, ◌∷◌, ◌≤◌, ◌<◌, ◌≡◌, refl, inl, inr, Bool, true, false, arith, leb, ◌==◌, ◌!=◌,
  if◌then◌else◌, Bool-cases,
}
use zso_ptrace.Errno.{Ret, ok, err, eio}
use zso_ptrace.Ptrace.Task.{
  Place, unlinked, traced_by, Event, connector, arch_disabled, warned, World, put_task, Env,
}
use zso_ptrace.Ptrace.Link.{remove}
use zso_ptrace.Ptrace.Linked.{
  Ends, ends, then-Ends, weaken, IsLinked, is_traced, Untraced, Untraced-IsLinked,
  ptrace_unlink-Untraced,
}
use zso_ptrace.Ptrace.Freed.{Reaped, reap_if_zombie-Reaped, Reaped-IsLinked}
use zso_ptrace.Ptrace.Attached.{logged-IsLinked}
use zso_ptrace.Ptrace.Detach.{valid_signal, ptrace_detach_task, ptrace_detach}

-- Tracee `child` of the caller is let go, and nobody else's tracing changes.
pub record LetGo (child : ℕ) (w u : World) : Type 0 where
  pub linked : IsLinked u
  pub lists : (u.tasks w.current).ptraced ≡ remove child (w.tasks w.current).ptraced
  pub entries : (j : ℕ) → (u.tasks j).entry ≡ (if j == child then unlinked else (w.tasks j).entry)
  pub words : (j : ℕ) → (u.tasks j).ptrace ≡ (if j == child then 0 else (w.tasks j).ptrace)
  pub parents :
      (j : ℕ)
      → (u.tasks j).parent ≡ (if j == child then (w.tasks j).real_parent else (w.tasks j).parent)

-- How `ptrace_detach` ends.
pub data Detached (child signal : ℕ) (w : World) : Ret ℕ → World → Type 0 where
  bad_signal : 64 < signal → Detached child signal w (err eio) w
  let_go : {u : World} → signal ≤ 64 → LetGo child w u → Detached child signal w (ok 0) u

-- The world in which a task has the exit code and the log is another.
abbrev coded : (child code : ℕ) → List Event → World → World
coded child code log w = record w {
  tasks = put_task w.tasks child (record (w.tasks child) { exit_code = code });
  log = log;
}

coded-IsLinked :
    (child code : ℕ) (log : List Event) (w : World) → IsLinked w → IsLinked (coded child code log w)
coded-IsLinked child code log w l = record {
  lists = λ t q. ground (arith, l.lists t q);
  tracer = λ t q h. ground (arith, l.tracer t q);
  word = λ q. ground (arith, l.word q);
  own = λ q h. ground (arith, l.own q);
  reaped = λ q h. ground (arith, l.reaped q);
}

coded_rest :
    (child code : ℕ) (log : List Event) (w u v : World) (b : Bool)
    → IsLinked w
    → (w.tasks child).entry ≡ traced_by w.current
    → ((coded child code log w).tasks child).entry ≡ traced_by w.current
    → Untraced child w.current (coded child code log w) u
    → Reaped child b u v
    → LetGo child w (record v { log = connector child ∷ v.log })
coded_rest child code log w u v b l at_me at_me' un r =
    let free : (u.tasks child).entry ≡ unlinked = ground (arith, un.entries child) in
    record {
      linked = logged-IsLinked (connector child ∷ v.log) (
          Reaped-IsLinked (Untraced-IsLinked (coded-IsLinked child code log w l) at_me' un) free r);
      lists = ground (arith, r.lists w.current, un.lists w.current);
      entries = λ j. ground (arith, r.entries j, un.entries j);
      words = λ j. ground (arith, r.words j, un.words j);
      parents = λ j. ground (arith, r.parents j, un.parents j);
    }

module _ (env : Env) (child signal : ℕ) (w : World) (l : IsLinked w)
    (at_me : (w.tasks child).entry ≡ traced_by w.current) where
  traced : ((w.tasks child).ptrace == 0) ≡ false
  traced = ground (arith, l.word child, on_list (w.tasks child).entry at_me)
    where
      on_list : (e : Place) → e ≡ traced_by w.current → is_traced e ≡ true
      on_list e h = rw h refl

  entry_kept :
      (log : List Event) → ((coded child signal log w).tasks child).entry ≡ traced_by w.current
  entry_kept log = ground (arith, at_me)

  word_kept : (log : List Event) → (((coded child signal log w).tasks child).ptrace == 0) ≡ false
  word_kept log = ground (arith, traced)

  unlinked_and_reaped :
      (log : List Event)
      → Ends
          (λ _ v. LetGo child w (record v { log = connector child ∷ v.log }))
          (ptrace_detach_task env w.current child (coded child signal log w))
  unfolding ptrace_detach_task
  unlinked_and_reaped log =
      then-Ends (ptrace_unlink-Untraced env child w.current _ (entry_kept log) (word_kept log))
        (λ _ u un.
          weaken (λ b v r. coded_rest child signal log w u v b l at_me (entry_kept log) un r)
            (reap_if_zombie-Reaped env w.current child u))

  -- `ptrace_detach` of a tracee of the caller meets no BUG where the lists of tracees are right. A
  -- number that is no signal is EIO, without a change; otherwise the child is off its tracer's list,
  -- with the word 0 and its real parent back, the tracing of all others is as it was, and the lists
  -- are right again.
  pub ptrace_detach-Detached : Ends (Detached child signal w) (ptrace_detach env child signal w)
  unfolding ptrace_detach valid_signal
  ptrace_detach-Detached = elim (Bool-cases (leb signal 64)) [
    | inr bad ↦ simp bad (ends (bad_signal (ground arith)))
    | inl good ↦ elim (Bool-cases ((w.tasks child).exit_state != 0)) [
      | inl odd ↦
          simp (good, traced, odd)
            (then-Ends (unlinked_and_reaped (warned ∷ arch_disabled child ∷ w.log))
              (λ _ v g. ends (let_go (ground arith) g)))
      | inr plain ↦
          simp (good, traced, plain)
            (then-Ends (unlinked_and_reaped (arch_disabled child ∷ w.log))
              (λ _ v g. ends (let_go (ground arith) g)))
    ]
  ]
