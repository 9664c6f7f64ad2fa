-- ===== src/Ptrace/Exit.antt =====
-- `exit_ptrace` of src/kernel/ptrace.c: a tracer that exits lets all its tracees go.
use zso_ptrace.Base.{
  ℕ, suc, ◌≡◌, ◌≢◌, refl, inl, inr, ◌∙◌, Bool, true, false, List, [], ◌∷◌, arith, ◌==◌,
  if◌then◌else◌, Bool-cases, ap,
}
use zso_ptrace.Ptrace.Task.{
  has, pt_exitkill, sigkill, Place, unlinked, traced_by, to_reap, is_at, SigState, World, ◌>>=◌,
  put_task, Env,
}
use zso_ptrace.Ptrace.Link.{remove}
use zso_ptrace.Ptrace.Linked.{
  Ends, ends, then-Ends, weaken, count, IsLinked, is_traced, Untraced, Untraced-IsLinked,
  ptrace_unlink-Untraced,
}
use zso_ptrace.Ptrace.Freed.{Reaped, reap_if_zombie-Reaped, Reaped-IsLinked, moved-IsLinked}
use zso_ptrace.Ptrace.Detach.{
  ptrace_detach_task, exit_kill, add_dead, exit_one, exit_loop, exit_ptrace,
}

-- Tracee `p` of `tracer` is let go, and nobody else's tracing changes.
pub record LetGo (p tracer : ℕ) (w u : World) : Type 0 where
  pub linked : IsLinked u
  pub lists : (u.tasks tracer).ptraced ≡ remove p (w.tasks tracer).ptraced
  pub off_list : is_at tracer (u.tasks p).entry ≡ false
  pub entries : (j : ℕ) → j ≢ p → (u.tasks j).entry ≡ (w.tasks j).entry
  pub words : (j : ℕ) → (u.tasks j).ptrace ≡ (if j == p then 0 else (w.tasks j).ptrace)
  pub parents :
      (j : ℕ)
      → (u.tasks j).parent ≡ (if j == p then (w.tasks j).real_parent else (w.tasks j).parent)
  pub real_parents : (j : ℕ) → (u.tasks j).real_parent ≡ (w.tasks j).real_parent

-- A signal to `p`.
abbrev nudged : ℕ → SigState → World → World
nudged p s w = record w { tasks = put_task w.tasks p (record (w.tasks p) { sig = s }) }

nudged-IsLinked : (p : ℕ) (s : SigState) (w : World) → IsLinked w → IsLinked (nudged p s w)
nudged-IsLinked p s w l = record {
  lists = λ t q. ground (arith, l.lists t q);
  tracer = λ t q h. ground (arith, l.tracer t q);
  word = λ q. ground (arith, l.word q);
  own = λ q h. ground (arith, l.own q);
  reaped = λ q h. ground (arith, l.reaped q);
}

nudged-LetGo :
    {p tracer : ℕ} {w u : World} (s : SigState)
    → LetGo p tracer (nudged p s w) u
    → LetGo p tracer w u
nudged-LetGo {p} {tracer} {w} {u} s g = record {
  linked = g.linked;
  lists = ground (arith, g.lists);
  off_list = g.off_list;
  entries = λ j ne. ground (arith, g.entries j);
  words = λ j. ground (arith, g.words j);
  parents = λ j. ground (arith, g.parents j);
  real_parents = λ j. ground (arith, g.real_parents j);
}

module _ (env : Env) (tracer p : ℕ) where
  after_reaping :
      (w u v : World) (b : Bool)
      → IsLinked w
      → (w.tasks p).entry ≡ traced_by tracer
      → Untraced p tracer w u
      → Reaped p b u v
      → Ends (λ _ x. LetGo p tracer w x) (add_dead env p b v)
  unfolding add_dead
  after_reaping w u v false l at_t un r =
      let free : (u.tasks p).entry ≡ unlinked = ground (arith, un.entries p) in
      ends (record {
        linked = Reaped-IsLinked (Untraced-IsLinked l at_t un) free r;
        lists = ground (arith, r.lists tracer, un.lists tracer);
        off_list = rw (r.entries p, free) refl;
        entries = λ j ne. ground (arith, r.entries j, un.entries j);
        words = λ j. ground (arith, r.words j, un.words j);
        parents = λ j. ground (arith, r.parents j, un.parents j);
        real_parents = λ j. ground (arith, r.real_parents j, un.real_parents j);
      })
  after_reaping w u v true l at_t un r =
      let free : (u.tasks p).entry ≡ unlinked = ground (arith, un.entries p) in
      let free' : (v.tasks p).entry ≡ unlinked = ground (arith, r.entries p, free) in
      ends (record {
        linked =
            moved-IsLinked p v (Reaped-IsLinked (Untraced-IsLinked l at_t un) free r) free'
              (r.is_dead refl);
        lists = ground (arith, r.lists tracer, un.lists tracer);
        off_list = ground arith;
        entries = λ j ne. ground (arith, r.entries j, un.entries j);
        words = λ j. ground (arith, r.words j, un.words j);
        parents = λ j. ground (arith, r.parents j, un.parents j);
        real_parents = λ j. ground (arith, r.real_parents j, un.real_parents j);
      })

  detached :
      (w : World)
      → IsLinked w
      → (w.tasks p).entry ≡ traced_by tracer
      → ((w.tasks p).ptrace == 0) ≡ false
      → Ends (λ _ x. LetGo p tracer w x) ((ptrace_detach_task env tracer p >>= add_dead env p) w)
  unfolding ptrace_detach_task
  detached w l at_t traced =
      then-Ends
        (then-Ends (ptrace_unlink-Untraced env p tracer w at_t traced)
          (λ _ u un. weaken (λ b v r. (u, un, r)) (reap_if_zombie-Reaped env tracer p u)))
        (λ b v q. finish b v q)
    where
      finish :
          (b : Bool) (v : World)
          → (u : World) × Untraced p tracer w u × Reaped p b u v
          → Ends (λ _ x. LetGo p tracer w x) (add_dead env p b v)
      finish b v (u, un, r) = after_reaping w u v b l at_t un r

  word_of :
      (w : World)
      → IsLinked w
      → (w.tasks p).entry ≡ traced_by tracer
      → ((w.tasks p).ptrace == 0) ≡ false
  word_of w l at_t = ground (arith, l.word p, is_on (w.tasks p).entry at_t)
    where
      is_on : (e : Place) → e ≡ traced_by tracer → is_traced e ≡ true
      is_on e h = rw h refl

  exit_one-LetGo :
      (w : World)
      → IsLinked w
      → (w.tasks p).entry ≡ traced_by tracer
      → Ends (λ _ u. LetGo p tracer w u) (exit_one env tracer p w)
  unfolding exit_one exit_kill
  exit_one-LetGo w l at_t =
      let killed = env.send_sig sigkill (w.tasks p).sig in
      let at_t' : ((nudged p killed w).tasks p).entry ≡ traced_by tracer = ground (arith, at_t) in
      elim (Bool-cases (has (w.tasks p).ptrace pt_exitkill)) [
        | inl kill ↦ simp kill (
            weaken (λ _ u g. nudged-LetGo killed g)
              (detached (nudged p killed w) (nudged-IsLinked p killed w l) at_t'
                (word_of (nudged p killed w) (nudged-IsLinked p killed w l) at_t')))
        | inr spare ↦ simp spare (detached w l at_t (word_of w l at_t))
      ]

-- Nobody is a tracee of `tracer` any more: its list is empty, and each of its tracees has the word 0
-- and its real parent back. The tracing of all others is as it was, and the lists are right.
pub record Freed (tracer : ℕ) (w u : World) : Type 0 where
  pub linked : IsLinked u
  pub no_tracees : (u.tasks tracer).ptraced ≡ []
  pub untraced : (j : ℕ) → is_at tracer (w.tasks j).entry ≡ true → (u.tasks j).ptrace ≡ 0
  pub back :
      (j : ℕ) → is_at tracer (w.tasks j).entry ≡ true → (u.tasks j).parent ≡ (w.tasks j).real_parent
  pub same_word :
      (j : ℕ) → is_at tracer (w.tasks j).entry ≡ false → (u.tasks j).ptrace ≡ (w.tasks j).ptrace
  pub same_parent :
      (j : ℕ) → is_at tracer (w.tasks j).entry ≡ false → (u.tasks j).parent ≡ (w.tasks j).parent
  pub same_real : (j : ℕ) → (u.tasks j).real_parent ≡ (w.tasks j).real_parent

at-traced_by : (t : ℕ) (e : Place) → is_at t e ≡ true → e ≡ traced_by t
at-traced_by t unlinked h = ground (arith, h)
at-traced_by t (traced_by s) h = ap traced_by (ground (arith, h))
at-traced_by t to_reap h = ground (arith, h)

-- Who is first on the list is traced by its owner.
first_traced :
    {tracer p : ℕ} {rest : List ℕ} (w : World)
    → IsLinked w
    → (w.tasks tracer).ptraced ≡ p ∷ rest
    → is_at tracer (w.tasks p).entry ≡ true
unfolding count
first_traced {tracer} {p} {rest} w l e = ground (arith, l.lists tracer p, counted)
  where
    counted : count p (w.tasks tracer).ptraced ≡ suc (count p rest)
    counted = rw e (ground arith)

remove_first : (p : ℕ) (rest : List ℕ) → remove p (p ∷ rest) ≡ rest
unfolding remove
remove_first p rest = ground arith

-- With nobody left, nobody is traced.
none_at :
    (tracer : ℕ) (w : World)
    → IsLinked w
    → (w.tasks tracer).ptraced ≡ []
    → (j : ℕ) → is_at tracer (w.tasks j).entry ≡ false
unfolding count
none_at tracer w l e j = ground (arith, l.lists tracer j, counted)
  where
    counted : count j (w.tasks tracer).ptraced ≡ 0
    counted = rw e refl

LetGo-Freed :
    {tracer p : ℕ} {w v u : World}
    → is_at tracer (w.tasks p).entry ≡ true
    → LetGo p tracer w v
    → Freed tracer v u
    → Freed tracer w u
LetGo-Freed {tracer} {p} {w} {v} {u} at_t g f = record {
  linked = f.linked;
  no_tracees = f.no_tracees;
  untraced = λ j h. elim (Bool-cases (j == p)) [
    | inl here ↦ ground (arith, f.same_word p, g.off_list, g.words p)
    | inr other ↦ ground (arith, f.untraced j, g.entries j)
  ];
  back = λ j h. elim (Bool-cases (j == p)) [
    | inl here ↦ ground (arith, f.same_parent p, g.off_list, g.parents p)
    | inr other ↦ ground (arith, f.back j, g.entries j, g.real_parents j)
  ];
  same_word = λ j h. ground (arith, f.same_word j, g.entries j, g.words j);
  same_parent = λ j h. ground (arith, f.same_parent j, g.entries j, g.parents j);
  same_real = λ j. f.same_real j ∙ g.real_parents j;
}

module _ (env : Env) (tracer : ℕ) where
  exit_loop-Freed :
      (l : List ℕ) (w : World)
      → IsLinked w
      → (w.tasks tracer).ptraced ≡ l
      → Ends (λ _ u. Freed tracer w u) (exit_loop env tracer l w)
  unfolding exit_loop
  exit_loop-Freed [] w ok_w e = ends (record {
    linked = ok_w;
    no_tracees = e;
    untraced = λ j h. ground (arith, none_at tracer w ok_w e j);
    back = λ j h. ground (arith, none_at tracer w ok_w e j);
    same_word = λ j h. refl;
    same_parent = λ j h. refl;
    same_real = λ j. refl;
  })
  exit_loop-Freed (p ∷ rest) w ok_w e =
      let first = first_traced w ok_w e in
      then-Ends (exit_one-LetGo env tracer p w ok_w (at-traced_by tracer (w.tasks p).entry first))
        (λ _ v g.
          weaken (λ _ u f. LetGo-Freed first g f)
            (exit_loop-Freed rest v g.linked (g.lists ∙ ap (remove p) e ∙ remove_first p rest)))

  -- `exit_ptrace` meets no BUG where the lists of tracees are right, and lets every tracee go: the
  -- tracer's list is empty, each of its tracees has the word 0 and its real parent back, the tracing
  -- of all others is as it was, and the lists are right again.
  pub exit_ptrace-Freed :
      (w : World) → IsLinked w → Ends (λ _ u. Freed tracer w u) (exit_ptrace env tracer w)
  unfolding exit_ptrace
  exit_ptrace-Freed w l = exit_loop-Freed (w.tasks tracer).ptraced w l refl
