-- ===== src/Ptrace/Thawed.antt =====
-- `ptrace_freeze_traced` and `ptrace_unfreeze_traced` of src/kernel/ptrace.c around a request.
use zso_ptrace.Base.{
  ℕ, ◌≡◌, refl, sym, ap, ◌∙◌, inl, inr, true, false, ◌||◌, ◌==◌, ◌!=◌, arith, Bool-cases, ==_refl,
}
use zso_ptrace.Ptrace.Task.{task_traced_bit, task_traced, SigState, World, Run, ◌>>=◌, Env}
use zso_ptrace.Ptrace.Linked.{Ends, ends}
use zso_ptrace.Ptrace.Check.{freezes, ptrace_freeze_traced, ptrace_unfreeze_traced}
use zso_ptrace.Ptrace.Frozen.{is_mine, with_state}

-- The same tasks and no new event.
pub record IsSame (w u : World) : Type 0 where
  pub same_tasks : (i : ℕ) → u.tasks i ≡ w.tasks i
  pub same_log : u.log ≡ w.log

module _ (env : Env) (child : ℕ) where
  unfreeze_frozen :
      (v : World)
      → is_mine child v ≡ true
      → (v.tasks child).sig.state ≡ task_traced_bit
      → (v.tasks child).sig.fatal_pending ≡ false
      → Ends
          (λ _ u. (u.tasks ≡ with_state child task_traced v) × (u.log ≡ v.log))
          (ptrace_unfreeze_traced env child v)
  unfolding ptrace_unfreeze_traced
  unfreeze_frozen v mine frozen quiet =
      let is_bit : ((v.tasks child).sig.state != task_traced_bit) ≡ false = ground arith in
      let own : (((v.tasks child).ptrace == 0) || ((v.tasks child).parent != v.current)) ≡ false =
        ground arith in
      simp (is_bit, own, quiet) (ends (refl, refl))

  unfreeze_other :
      (v : World)
      → (v.tasks child).sig.state ≡ task_traced
      → Ends (λ _ u. IsSame v u) (ptrace_unfreeze_traced env child v)
  unfolding ptrace_unfreeze_traced
  unfreeze_other v stopped =
      let is_whole : ((v.tasks child).sig.state != task_traced_bit) ≡ true = ground arith in
      simp is_whole (ends (record { same_tasks = λ i. refl; same_log = refl }))

  restored :
      (w : World)
      → (w.tasks child).sig.state ≡ task_traced
      → (i : ℕ)
      → with_state child task_traced (record w { tasks = with_state child task_traced_bit w }) i
        ≡ w.tasks i
  restored w stopped i = elim (Bool-cases (i == child)) [
    | inr other ↦ simp other refl
    | inl same ↦
        let here : i ≡ child = ground arith in
        rw here (
          simp (==_refl child) (
            ap (λ k. record (w.tasks child) { sig = record ((w.tasks child).sig) { state = k } })
              (sym stopped)))
  ]

  thawed :
      (w : World)
      → (w.tasks child).sig.state ≡ task_traced
      → (r : Run (Unit {0}))
      → Ends
          (λ _ u.
            (u.tasks
              ≡ with_state child task_traced
                  (record w { tasks = with_state child task_traced_bit w }))
            × (u.log ≡ w.log))
          r
      → Ends (λ _ u. IsSame w u) r
  thawed w stopped _ (ends (left, same)) =
      ends (record { same_tasks = λ i. ap (λ f. f i) left ∙ restored w stopped i; same_log = same })

  freezes_quiet : (g : SigState) → freezes g ≡ true → g.fatal_pending ≡ false
  unfolding freezes
  freezes_quiet g froze = ground (arith, froze)

  -- For a tracee of the caller in TASK_TRACED, ptrace_freeze_traced and then
  -- ptrace_unfreeze_traced, whether the first froze it or not, give back every task as it was and
  -- warn of nothing.
  pub ptrace_unfreeze_traced-ptrace_freeze_traced :
      (w : World)
      → is_mine child w ≡ true
      → (w.tasks child).sig.state ≡ task_traced
      → Ends
          (λ _ u. IsSame w u)
          ((ptrace_freeze_traced child >>= (λ froze. ptrace_unfreeze_traced env child)) w)
  unfolding ptrace_freeze_traced
  ptrace_unfreeze_traced-ptrace_freeze_traced w mine stopped =
      elim (Bool-cases (freezes (w.tasks child).sig)) [
        | inr moving ↦ simp moving (unfreeze_other w stopped)
        | inl froze ↦ simp froze (
            thawed w stopped _ (
              unfreeze_frozen (record w { tasks = with_state child task_traced_bit w })
                (simp (==_refl child) mine) (simp (==_refl child) refl)
                (simp (==_refl child) (freezes_quiet (w.tasks child).sig froze))))
      ]
