-- ===== src/Base/Run.antt =====
-- Runs over a state: total ones, ones that meet a BUG, and ones whose fuel is used up.

pub data Run {ℓ κ} (S : Type ℓ) (A : Type κ) : Type (ℓ ⊔ κ) where
  done : A → S → Run S A
  bug : Run S A
  hang : Run S A

abbrev pub and_then {ℓ κ μ} :
    {S : Type ℓ} {A : Type κ} {B : Type μ} → Run S A → (A → S → Run S B) → Run S B
and_then (done a s) k = k a s
and_then bug k = bug
and_then hang k = hang

infixl 5 ◌>>=◌ ◌>>◌
abbrev pub ◌>>=◌ {ℓ κ μ} :
    {S : Type ℓ} {A : Type κ} {B : Type μ} → (S → Run S A) → (A → S → Run S B) → S → Run S B
◌>>=◌ m k s = and_then (m s) k

abbrev pub ◌>>◌ {ℓ κ μ} :
    {S : Type ℓ} {A : Type κ} {B : Type μ} → (S → Run S A) → (S → Run S B) → S → Run S B
◌>>◌ m k s = and_then (m s) (λ _. k)

-- Total correctness of a run: it ends, without a BUG, in a result and a state of which `P` holds.
pub data Ends {S A : Type 0} (P : A → S → Type 0) : Run S A → Type 0 where
  ends : {a : A} {s : S} → P a s → Ends P (done a s)

pub then-Ends :
    {S A B : Type 0} {P : A → S → Type 0} {Q : B → S → Type 0} {r : Run S A} {k : A → S → Run S B}
    → Ends P r
    → ((a : A) (s : S) → P a s → Ends Q (k a s))
    → Ends Q (and_then r k)
then-Ends (ends p) rest = rest _ _ p

pub weaken :
    {S A : Type 0} {P Q : A → S → Type 0} {r : Run S A}
    → ((a : A) (s : S) → P a s → Q a s)
    → Ends P r
    → Ends Q r
weaken f (ends p) = ends (f _ _ p)
