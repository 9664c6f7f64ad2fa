-- ===== src/Fd/Ends.antt =====
-- Total correctness of a run: it ends, without a BUG, in a result and a state of which `P` holds.
use zso_ptrace.Base.{◌≡◌}
use zso_ptrace.Fd.Kernel.{FdState, Run, done, Cmd, and_then}

pub data Ends {A : Type 0} (P : A → FdState → Type 0) : Run A → Type 0 where
  ends : {a : A} {s : FdState} → P a s → Ends P (done a s)

module _ {A : Type 0} {P : A → FdState → Type 0} where
  -- The rule for a sequence of two commands.
  pub then-Ends :
      {B : Type 0} {Q : B → FdState → Type 0} {r : Run A} {k : A → Cmd B}
      → Ends P r
      → ((a : A) (s : FdState) → P a s → Ends Q (k a s))
      → Ends Q (and_then r k)
  then-Ends (ends p) rest = rest _ _ p

  -- The rule of consequence.
  pub weaken :
      {Q : A → FdState → Type 0} {r : Run A}
      → ((a : A) (s : FdState) → P a s → Q a s)
      → Ends P r
      → Ends Q r
  weaken f (ends p) = ends (f _ _ p)

  -- Two facts about one run.
  pub both :
      {Q : A → FdState → Type 0} {r : Run A} → Ends P r → Ends Q r → Ends (λ a s. P a s × Q a s) r
  both (ends p) (ends q) = ends (p, q)

  -- The result and the state that a run ends in.
  pub result_of : {r : Run A} → Ends P r → (a : A) × (s : FdState) × (r ≡ done a s) × P a s
  result_of (ends {a} {s} p) = (a, s, zso_ptrace.Base.refl, p)
