-- ===== src/Ptrace/Traced.antt =====
-- How tracing begins: `ptrace_attach` and `ptrace_traceme` of src/kernel/ptrace.c.
use zso_ptrace.Base.{ℕ, ◌≡◌, ◌≢◌, refl, false, ◌∷◌, arith, ◌==◌, if◌then◌else◌}
use zso_ptrace.Ptrace.Task.{Place, unlinked, traced_by, to_reap, is_at, SigState, World, put_task}
use zso_ptrace.Ptrace.Link.{add_entry, ptrace_link}
use zso_ptrace.Ptrace.Linked.{Ends, ends, count, is_traced, is_to_reap, IsLinked}

-- `child` is a tracee of `t` from now on, with the given word; nobody else's tracing changes.
pub record Traced (child t flags : ℕ) (w u : World) : Type 0 where
  pub entries :
      (j : ℕ) → (u.tasks j).entry ≡ (if j == child then traced_by t else (w.tasks j).entry)
  pub words : (j : ℕ) → (u.tasks j).ptrace ≡ (if j == child then flags else (w.tasks j).ptrace)
  pub parents : (j : ℕ) → (u.tasks j).parent ≡ (if j == child then t else (w.tasks j).parent)
  pub real_parents : (j : ℕ) → (u.tasks j).real_parent ≡ (w.tasks j).real_parent
  pub lists :
      (j : ℕ)
      → (u.tasks j).ptraced ≡ (if j == t then child ∷ (w.tasks j).ptraced else (w.tasks j).ptraced)
  pub same_sig : (j : ℕ) → j ≢ child → (u.tasks j).sig ≡ (w.tasks j).sig
  pub same_exit : (j : ℕ) → (u.tasks j).exit_state ≡ (w.tasks j).exit_state
  pub same_current : u.current ≡ w.current
  pub same_dead : u.dead ≡ w.dead

-- A task that is not traced and not dead is on no list.
free_entry : (e : Place) → is_traced e ≡ false → is_to_reap e ≡ false → e ≡ unlinked
free_entry unlinked a b = refl
free_entry (traced_by s) a b = ground arith
free_entry to_reap a b = ground arith

pub free_unlinked :
    {w : World} {p : ℕ}
    → IsLinked w
    → (w.tasks p).ptrace ≡ 0
    → (w.tasks p).exit_state ≡ 0
    → (w.tasks p).entry ≡ unlinked
free_unlinked {w} {p} l word alive =
    free_entry (w.tasks p).entry (ground (arith, l.word p)) (ground (arith, l.reaped p))

at_none : (t : ℕ) (e : Place) → e ≡ unlinked → is_at t e ≡ false
at_none t e h = rw h refl

-- A new tracee keeps the lists right.
pub Traced-IsLinked :
    {child t flags : ℕ} {w u : World}
    → IsLinked w
    → (w.tasks child).entry ≡ unlinked
    → flags ≢ 0
    → Traced child t flags w u
    → IsLinked u
unfolding count
Traced-IsLinked {child} {t} {flags} {w} {u} l free set tr = record {
  lists = λ s p.
      rw (tr.lists s, tr.entries p)
        (ground (arith, l.lists s p, at_none s (w.tasks child).entry free));
  tracer = λ s p h. rw (tr.parents p) (ground (arith, l.tracer s p, tr.entries p));
  word = λ p. rw (tr.entries p, tr.words p) (ground (arith, l.word p));
  own = λ p h. rw (tr.parents p, tr.real_parents p) (ground (arith, tr.words p, l.own p));
  reaped = λ p h. rw (tr.same_exit p) (ground (arith, tr.entries p, l.reaped p));
}

-- `__ptrace_link` of a task that is on no list: no BUG, and the task is a tracee with the word it has.
pub ptrace_link-Traced :
    (child t : ℕ) (w : World)
    → (w.tasks child).entry ≡ unlinked
    → Ends (λ _ u. Traced child t (w.tasks child).ptrace w u) (ptrace_link child t w)
unfolding ptrace_link add_entry
ptrace_link-Traced child t w free = simp free (
    ends (record {
      entries = λ j. ground arith;
      words = λ j. ground arith;
      parents = λ j. ground arith;
      real_parents = λ j. ground arith;
      lists = λ j. ground arith;
      same_sig = λ j ne. ground arith;
      same_exit = λ j. ground arith;
      same_current = refl;
      same_dead = refl;
    }))

-- The world in which a task has a new `ptrace` word.
abbrev pub with_word : (child flags : ℕ) → World → World
with_word child flags w = record w {
  tasks = put_task w.tasks child (record (w.tasks child) { ptrace = flags });
}

-- The word may be written before the link.
pub after_word :
    {child t flags : ℕ} {w u : World}
    → Traced child t ((with_word child flags w).tasks child).ptrace (with_word child flags w) u
    → Traced child t flags w u
after_word {child} {t} {flags} {w} {u} tr = record {
  entries = λ j. ground (arith, tr.entries j);
  words = λ j. ground (arith, tr.words j);
  parents = λ j. ground (arith, tr.parents j);
  real_parents = λ j. ground (arith, tr.real_parents j);
  lists = λ j. ground (arith, tr.lists j);
  same_sig = λ j ne. ground (arith, tr.same_sig j);
  same_exit = λ j. ground (arith, tr.same_exit j);
  same_current = tr.same_current;
  same_dead = tr.same_dead;
}

-- And the signal state of the tracee after it.
pub before_signal :
    {child t flags : ℕ} {w u : World} (s : SigState)
    → Traced child t flags w u
    → Traced child t flags w
        (record u { tasks = put_task u.tasks child (record (u.tasks child) { sig = s }) })
before_signal {child} {t} {flags} {w} {u} s tr = record {
  entries = λ j. ground (arith, tr.entries j);
  words = λ j. ground (arith, tr.words j);
  parents = λ j. ground (arith, tr.parents j);
  real_parents = λ j. ground (arith, tr.real_parents j);
  lists = λ j. ground (arith, tr.lists j);
  same_sig = λ j ne. ground (arith, tr.same_sig j);
  same_exit = λ j. ground (arith, tr.same_exit j);
  same_current = tr.same_current;
  same_dead = tr.same_dead;
}
