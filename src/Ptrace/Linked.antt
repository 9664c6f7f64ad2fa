-- ===== src/Ptrace/Linked.antt =====
-- Who traces whom: the lists of tracees and the words of the tasks agree, and how `__ptrace_link` and
-- `__ptrace_unlink` of src/kernel/ptrace.c change both.
use zso_ptrace.Base.{
  ℕ, suc, ◌-◌, ◌≡◌, ◌≢◌, refl, Bool, true, false, List, [], ◌∷◌, arith, ◌==◌, ◌!=◌, if◌then◌else◌,
  ==_refl,
}
use zso_ptrace.Ptrace.Task.{
  exit_dead, Place, unlinked, traced_by, to_reap, is_at, World, Run, done, Cmd, and_then, Env,
}
use zso_ptrace.Ptrace.Link.{remove, unhook, del_entry, ptrace_unlink}

pub data Ends {A : Type 0} (P : A → World → Type 0) : Run A → Type 0 where
  ends : {a : A} {w : World} → P a w → Ends P (done a w)

pub then-Ends :
    {A B : Type 0} {P : A → World → Type 0} {Q : B → World → Type 0} {r : Run A} {k : A → Cmd B}
    → Ends P r
    → ((a : A) (w : World) → P a w → Ends Q (k a w))
    → Ends Q (and_then r k)
then-Ends (ends p) rest = rest _ _ p

pub weaken :
    {A : Type 0} {P Q : A → World → Type 0} {r : Run A}
    → ((a : A) (w : World) → P a w → Q a w)
    → Ends P r
    → Ends Q r
weaken f (ends p) = ends (f _ _ p)

-- How often a task is on a list.
unfoldable pub count : ℕ → List ℕ → ℕ
count p [] = 0
count p (q ∷ l) = if p == q then suc (count p l) else count p l

pub count-remove :
    (p q : ℕ) (l : List ℕ) → count p (remove q l) ≡ (if p == q then count p l - 1 else count p l)
unfolding count remove
count-remove p q [] = ground arith
count-remove p q (x ∷ l) = ground (arith, count-remove p q l)

abbrev pub is_traced : Place → Bool
is_traced unlinked = false
is_traced (traced_by s) = true
is_traced to_reap = false

abbrev pub is_to_reap : Place → Bool
is_to_reap unlinked = false
is_to_reap (traced_by s) = false
is_to_reap to_reap = true

-- Every task is once on the list of its tracer, which is its parent, and on no other list; it is on
-- one exactly if its `ptrace` word is not 0; without a tracer its parent is the real one; and what
-- waits to be reaped is dead.
pub record IsLinked (w : World) : Type 0 where
  pub lists : (t p : ℕ) → count p (w.tasks t).ptraced ≡ (if is_at t (w.tasks p).entry then 1 else 0)
  pub tracer : (t p : ℕ) → is_at t (w.tasks p).entry ≡ true → (w.tasks p).parent ≡ t
  pub word : (p : ℕ) → is_traced (w.tasks p).entry ≡ ((w.tasks p).ptrace != 0)
  pub own : (p : ℕ) → (w.tasks p).ptrace ≡ 0 → (w.tasks p).parent ≡ (w.tasks p).real_parent
  pub reaped : (p : ℕ) → is_to_reap (w.tasks p).entry ≡ true → (w.tasks p).exit_state ≡ exit_dead

-- What `__ptrace_unlink` of a tracee of `t` does.
pub record Untraced (child t : ℕ) (w u : World) : Type 0 where
  pub entries : (j : ℕ) → (u.tasks j).entry ≡ (if j == child then unlinked else (w.tasks j).entry)
  pub words : (j : ℕ) → (u.tasks j).ptrace ≡ (if j == child then 0 else (w.tasks j).ptrace)
  pub parents :
      (j : ℕ)
      → (u.tasks j).parent ≡ (if j == child then (w.tasks j).real_parent else (w.tasks j).parent)
  pub real_parents : (j : ℕ) → (u.tasks j).real_parent ≡ (w.tasks j).real_parent
  pub lists :
      (j : ℕ)
      → (u.tasks j).ptraced
        ≡ (if j == t then remove child (w.tasks j).ptraced else (w.tasks j).ptraced)
  pub same_sig : (j : ℕ) → j ≢ child → (u.tasks j).sig ≡ (w.tasks j).sig
  pub same_exit : (j : ℕ) → (u.tasks j).exit_state ≡ (w.tasks j).exit_state
  pub same_current : u.current ≡ w.current
  pub same_dead : u.dead ≡ w.dead

module _ (env : Env) (child t : ℕ) (w : World) where
  pub ptrace_unlink-Untraced :
      (w.tasks child).entry ≡ traced_by t
      → ((w.tasks child).ptrace == 0) ≡ false
      → Ends (λ _ u. Untraced child t w u) (ptrace_unlink env child w)
  unfolding ptrace_unlink del_entry unhook
  ptrace_unlink-Untraced at_t traced =
      simp (traced, ==_refl child, at_t)
        (ends (record {
          entries = λ j. ground arith;
          words = λ j. ground arith;
          parents = λ j. ground arith;
          real_parents = λ j. ground arith;
          lists = λ j. ground arith;
          same_sig = λ j ne. ground arith;
          same_exit = λ j. ground arith;
          same_current = refl;
          same_dead = refl;
        }))

at_other : (t s : ℕ) (e : Place) → e ≡ traced_by t → is_at s e ≡ (s == t)
at_other t s e h = rw h refl

traced_at : (t : ℕ) (e : Place) → e ≡ traced_by t → is_traced e ≡ true
traced_at t e h = rw h refl

-- Unlinking a tracee keeps the lists right.
pub Untraced-IsLinked :
    {child t : ℕ} {w u : World}
    → IsLinked w
    → (w.tasks child).entry ≡ traced_by t
    → Untraced child t w u
    → IsLinked u
Untraced-IsLinked {child} {t} {w} {u} l at_t un = record {
  lists = λ s p.
      rw (un.lists s, un.entries p)
        (ground (
          arith,
          l.lists s p,
          at_other t s (w.tasks child).entry at_t,
          count-remove p child (w.tasks s).ptraced,
        ));
  tracer = λ s p h. rw (un.parents p) (ground (arith, l.tracer s p, un.entries p));
  word = λ p. rw (un.entries p, un.words p) (ground (arith, l.word p));
  own = λ p h. rw (un.parents p, un.real_parents p) (ground (arith, un.words p, l.own p));
  reaped = λ p h. rw (un.same_exit p) (ground (arith, un.entries p, l.reaped p));
}
