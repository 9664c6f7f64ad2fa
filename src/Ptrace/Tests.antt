-- ===== src/Ptrace/Tests.antt =====
-- The theorems on src/kernel/ptrace.c at concrete stores and tasks.
use zso_ptrace.Base.{
  ◌≡◌, none, some, arith, List, Option, ◌∷◌, true, refl, some, [], ◌==◌, if◌then◌else◌,
}
use zso_ptrace.Machine.{machine, busy_table, empty_table, busy_table-IsValid}
use zso_ptrace.Fd.Onto.{Chosen}
use zso_ptrace.Fd.Replace.{Closed}
use zso_ptrace.Ptrace.Linked as TaskEnds
use zso_ptrace.Ptrace.Siginfo.{Info, length, ptrace_peek_siginfo}
use zso_ptrace.Ptrace.Peek.{quiet, window, ptrace_peek_siginfo-filled, ptrace_peek_siginfo_leak}
use zso_ptrace.Ptrace.Detach.{ptrace_detach}
use zso_ptrace.Ptrace.Detached.{Detached, ptrace_detach-Detached}
use zso_ptrace.Ptrace.Scene.{scene, env, scene-IsLinked, env-IsPolite}
use zso_ptrace.Ptrace.Attach.{ptrace_attach, ptrace_traceme}
use zso_ptrace.Ptrace.Attach.{may_access_code, same_ids, ptrace_has_cap, hides_memory}
use zso_ptrace.Errno.{ok}
use zso_ptrace.Ptrace.Access.{MayAccess, may_access_code-MayAccess}
use zso_ptrace.Ptrace.Attached.{Attached, ptrace_attach-Attached}
use zso_ptrace.Ptrace.Traceme.{Traceme, ptrace_traceme-Traceme}
use zso_ptrace.Ptrace.Task as Task
use zso_ptrace.Ptrace.Check.{ptrace_freeze_traced, ptrace_unfreeze_traced}
use zso_ptrace.Ptrace.Thawed.{IsSame, ptrace_unfreeze_traced-ptrace_freeze_traced}
use zso_ptrace.Ptrace.Detach.{exit_ptrace}
use zso_ptrace.Ptrace.Exit.{Freed, exit_ptrace-Freed}
use zso_ptrace.Ptrace.Store.{Store, Ends, table_of}
use zso_ptrace.Ptrace.Remote.{remote_close}
use zso_ptrace.Ptrace.Chosen.{OnlyAt, remote_close-OnlyAt}

-- Table 0 holds a file, every other table is empty.
abbrev two_tables : Store
two_tables = record { tables = λ i. if i == 0 then busy_table else empty_table; log = [] }

remote_close-OnlyAt_example :
    Ends
      (λ r u. OnlyAt 0 two_tables (Closed machine 3 (table_of 0 two_tables) r) u)
      (remote_close machine 1 0 (some (record { remote_fd = 3 })) two_tables)
remote_close-OnlyAt_example =
    remote_close-OnlyAt machine 1 0 two_tables (record { remote_fd = 3 }) busy_table-IsValid

ptrace_attach-Attached_example :
    TaskEnds.Ends
      (Attached env 5 true 0 0x100000 (scene 1))
      (ptrace_attach env 5 true 0 0x100000 (scene 1))
ptrace_attach-Attached_example =
    ptrace_attach-Attached env 5 true 0 0x100000 (scene 1) env-IsPolite (scene-IsLinked 1)

may_access_lem : may_access_code env 5 18 (scene 1) ≡ ok 0
unfolding may_access_code same_ids ptrace_has_cap hides_memory
may_access_lem = refl

may_access_code-MayAccess_example : MayAccess env 5 18 (scene 1)
may_access_code-MayAccess_example = may_access_code-MayAccess env 5 18 (scene 1) 0 may_access_lem

ptrace_traceme-Traceme_example :
    TaskEnds.Ends (Traceme env (scene 5)) (ptrace_traceme env (scene 5))
ptrace_traceme-Traceme_example = ptrace_traceme-Traceme env (scene 5) (scene-IsLinked 5) refl

exit_ptrace-Freed_example : TaskEnds.Ends (λ _ u. Freed 1 (scene 1) u) (exit_ptrace env 1 (scene 1))
exit_ptrace-Freed_example = exit_ptrace-Freed env 1 (scene 1) (scene-IsLinked 1)

ptrace_peek_siginfo-filled_example :
    ptrace_peek_siginfo
      (λ _. 5 ∷ 6 ∷ 7 ∷ [])
      (λ _. [])
      quiet
      quiet
      (some (record { off = 1; flags = 0; nr = 4 }))
    ≡ window 1 4 (5 ∷ 6 ∷ 7 ∷ [])
ptrace_peek_siginfo-filled_example =
    ptrace_peek_siginfo-filled (5 ∷ 6 ∷ 7 ∷ []) [] (record { off = 1; flags = 0; nr = 4 }) refl
      (omega arith) (omega arith)

ptrace_peek_siginfo_leak_example :
    (rest : List (Option Info)) × ((ptrace_peek_siginfo
        (λ _. [])
        (λ _. [])
        quiet
        quiet
        (some (record { off = 0xffffffff; flags = 0; nr = 1 }))).1.entries
      ≡ none ∷ rest)
unfolding length
ptrace_peek_siginfo_leak_example =
    ptrace_peek_siginfo_leak (λ _. []) (λ _. []) quiet 0xffffffff 0 (omega arith) (omega arith)
      (omega arith)

ptrace_detach-Detached_example :
    TaskEnds.Ends (Detached 2 15 (scene 1)) (ptrace_detach env 2 15 (scene 1))
ptrace_detach-Detached_example = ptrace_detach-Detached env 2 15 (scene 1) (scene-IsLinked 1) refl

ptrace_unfreeze_traced-ptrace_freeze_traced_example :
    TaskEnds.Ends
      (λ _ u. IsSame (scene 1) u)
      (Task.and_then (ptrace_freeze_traced 2 (scene 1)) (λ froze. ptrace_unfreeze_traced env 2))
ptrace_unfreeze_traced-ptrace_freeze_traced_example =
    ptrace_unfreeze_traced-ptrace_freeze_traced env 2 (scene 1) refl refl
