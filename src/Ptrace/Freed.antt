-- ===== src/Ptrace/Freed.antt =====
-- What follows the unlinking in `__ptrace_detach` and `exit_ptrace` of src/kernel/ptrace.c.
use zso_ptrace.Base.{
  ℕ, ◌≡◌, ◌≢◌, refl, inl, inr, Bool, true, false, ◌∷◌, arith, ◌==◌, ◌!=◌, Bool-cases,
}
use zso_ptrace.Ptrace.Task.{
  exit_dead, exit_zombie, Place, unlinked, to_reap, is_at, World, put_task, Env,
}
use zso_ptrace.Ptrace.Linked.{Ends, ends, then-Ends, IsLinked, is_traced}
use zso_ptrace.Ptrace.Detach.{ignoring_children, reaps_zombie, mark_dead, reap_if_zombie}

-- `p` is dead if it is to be reaped; nothing else changes.
pub record Reaped (p : ℕ) (b : Bool) (w u : World) : Type 0 where
  pub entries : (j : ℕ) → (u.tasks j).entry ≡ (w.tasks j).entry
  pub words : (j : ℕ) → (u.tasks j).ptrace ≡ (w.tasks j).ptrace
  pub parents : (j : ℕ) → (u.tasks j).parent ≡ (w.tasks j).parent
  pub real_parents : (j : ℕ) → (u.tasks j).real_parent ≡ (w.tasks j).real_parent
  pub lists : (j : ℕ) → (u.tasks j).ptraced ≡ (w.tasks j).ptraced
  pub exits : (j : ℕ) → j ≢ p → (u.tasks j).exit_state ≡ (w.tasks j).exit_state
  pub is_dead : b ≡ true → (u.tasks p).exit_state ≡ exit_dead
  pub is_kept : b ≡ false → (u.tasks p).exit_state ≡ (w.tasks p).exit_state

kept-Reaped : {p : ℕ} {w u : World} → u.tasks ≡ w.tasks → Reaped p false w u
kept-Reaped same = record {
  entries = λ j. rw same refl;
  words = λ j. rw same refl;
  parents = λ j. rw same refl;
  real_parents = λ j. rw same refl;
  lists = λ j. rw same refl;
  exits = λ j ne. rw same refl;
  is_dead = λ e. ground (arith, e);
  is_kept = λ e. rw same refl;
}

mark_dead-Reaped :
    (env : Env) (p : ℕ) (b : Bool) (w u : World)
    → u.tasks ≡ w.tasks
    → Ends (λ r v. Reaped p r w v) (mark_dead env p b u)
unfolding mark_dead
mark_dead-Reaped env p false w u same = ends (kept-Reaped same)
mark_dead-Reaped env p true w u same = rw same (
    ends (record {
      entries = λ j. ground arith;
      words = λ j. ground arith;
      parents = λ j. ground arith;
      real_parents = λ j. ground arith;
      lists = λ j. ground arith;
      exits = λ j ne. ground arith;
      is_dead = λ e. ground arith;
      is_kept = λ e. ground (arith, e);
    }))

module _ (env : Env) (tracer p : ℕ) (w : World) where
  reaps_zombie-HasSameTasks : Ends (λ b u. u.tasks ≡ w.tasks) (reaps_zombie env tracer p w)
  unfolding reaps_zombie
  reaps_zombie-HasSameTasks = elim (Bool-cases (w.tasks p).is_leader) [
    | inr thread ↦ simp thread (ends refl)
    | inl leader ↦ elim (Bool-cases (w.tasks p).group_empty) [
      | inr full ↦ simp (leader, full) (ends refl)
      | inl empty ↦
          elim (Bool-cases ((w.tasks (w.tasks p).real_parent).tgid != (w.tasks tracer).tgid)) [
            | inl other ↦ simp (leader, empty, other) (ends refl)
            | inr own ↦ elim (Bool-cases (ignoring_children (w.tasks tracer))) [
              | inl ignored ↦ simp (leader, empty, own, ignored) (ends refl)
              | inr waited ↦ simp (leader, empty, own, waited) (ends refl)
            ]
          ]
    ]
  ]

  pub reap_if_zombie-Reaped : Ends (λ b u. Reaped p b w u) (reap_if_zombie env tracer p w)
  unfolding reap_if_zombie
  reap_if_zombie-Reaped = elim (Bool-cases ((w.tasks p).exit_state != exit_zombie)) [
    | inl lives ↦ simp lives (ends (kept-Reaped refl))
    | inr zombie ↦
        simp zombie
          (then-Ends reaps_zombie-HasSameTasks (λ b u same. mark_dead-Reaped env p b w u same))
  ]

-- Reaping keeps the lists right, and so does the move to the list of the dead.
pub Reaped-IsLinked :
    {p : ℕ} {b : Bool} {w u : World}
    → IsLinked w
    → (w.tasks p).entry ≡ unlinked
    → Reaped p b w u
    → IsLinked u
Reaped-IsLinked {p} {b} {w} {u} l free r = record {
  lists = λ s q. rw (r.lists s, r.entries q) (l.lists s q);
  tracer = λ s q h. rw (r.parents q) (ground (arith, l.tracer s q, r.entries q));
  word = λ q. rw (r.entries q, r.words q) (l.word q);
  own = λ q h. rw (r.parents q, r.real_parents q) (ground (arith, r.words q, l.own q));
  reaped = λ q h. elim (Bool-cases (q == p)) [
    | inl here ↦ ground (arith, r.entries q, free)
    | inr other ↦ ground (arith, r.entries q, r.exits q, l.reaped q)
  ];
}

abbrev pub moved : ℕ → World → World
moved p w = record w {
  dead = p ∷ w.dead;
  tasks = put_task w.tasks p (record (w.tasks p) { entry = to_reap });
}

pub moved-IsLinked :
    (p : ℕ) (w : World)
    → IsLinked w
    → (w.tasks p).entry ≡ unlinked
    → (w.tasks p).exit_state ≡ exit_dead
    → IsLinked (moved p w)
moved-IsLinked p w l free is_dead = record {
  lists = λ s q. ground (arith, l.lists s q, at_none s (w.tasks p).entry free);
  tracer = λ s q h. ground (arith, l.tracer s q);
  word = λ q. ground (arith, l.word q, not_traced (w.tasks p).entry free);
  own = λ q h. ground (arith, l.own q);
  reaped = λ q h. ground (arith, l.reaped q);
}
  where
    at_none : (t : ℕ) (e : Place) → e ≡ unlinked → is_at t e ≡ false
    at_none t e h = rw h refl

    not_traced : (e : Place) → e ≡ unlinked → is_traced e ≡ false
    not_traced e h = rw h refl
