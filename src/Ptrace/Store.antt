-- ===== src/Ptrace/Store.antt =====
-- The descriptor tables of several tasks, and how an operation of src/fs/file.c runs on one of them.
-- Two tasks that share a table name the same one.
use mathlib.Core.Path.{fun_ext}
use zso_ptrace.Base.{ℕ, List, ◌≡◌, ◌≢◌, ap, ◌==◌, if◌then◌else◌, arith}
use zso_ptrace.Fd.Table.{FilesStruct}
use zso_ptrace.Fd.Kernel.{Call, FdState}
use zso_ptrace.Fd.Kernel as Fd
use zso_ptrace.Fd.Ends as FdEnds

pub record Store : Type 0 where
  pub tables : ℕ → FilesStruct
  pub log : List Call

pub data Run {ℓ} (A : Type ℓ) : Type ℓ where
  done : A → Store → Run A
  bug : Run A
  hang : Run A

abbrev pub Cmd {ℓ} : Type ℓ → Type ℓ
Cmd A = Store → Run A

abbrev pub pure {ℓ} : {A : Type ℓ} → A → Cmd A
pure a w = done a w

abbrev pub and_then {ℓ κ} : {A : Type ℓ} {B : Type κ} → Run A → (A → Cmd B) → Run B
and_then (done a w) k = k a w
and_then bug k = bug
and_then hang k = hang

infixl 5 ◌>>=◌
abbrev pub ◌>>=◌ {ℓ κ} : {A : Type ℓ} {B : Type κ} → Cmd A → (A → Cmd B) → Cmd B
◌>>=◌ m k w = and_then (m w) k

abbrev pub table_of : ℕ → Store → FdState
table_of i w = record { files = w.tables i; log = w.log }

abbrev pub put_table : ℕ → FdState → Store → Store
put_table i s w = record { tables = λ j. if j == i then s.files else w.tables j; log = s.log }

abbrev pub back {ℓ} : {A : Type ℓ} → ℕ → Store → Fd.Run A → Run A
back i w (Fd.done a s) = done a (put_table i s w)
back i w Fd.bug = bug
back i w Fd.hang = hang

-- An operation on table `i`.
abbrev pub on {ℓ} : {A : Type ℓ} → ℕ → Fd.Cmd A → Cmd A
on i c w = back i w (c (table_of i w))

-- Total correctness of a run over the tables.
pub data Ends {A : Type 0} (P : A → Store → Type 0) : Run A → Type 0 where
  ends : {a : A} {w : Store} → P a w → Ends P (done a w)

-- The rule for an operation on one table and what follows it.
pub then-Ends :
    {A B : Type 0} {P : A → FdState → Type 0} {Q : B → Store → Type 0} {r : Fd.Run A} (i : ℕ)
    (w : Store) (k : A → Cmd B)
    → FdEnds.Ends P r
    → ((a : A) (s : FdState) → P a s → Ends Q (k a (put_table i s w)))
    → Ends Q (and_then (back i w r) k)
then-Ends i w k (FdEnds.ends p) rest = rest _ _ p

pub on-Ends :
    {A : Type 0} {P : A → FdState → Type 0} {Q : A → Store → Type 0} {r : Fd.Run A} (i : ℕ)
    (w : Store)
    → FdEnds.Ends P r
    → ((a : A) (s : FdState) → P a s → Q a (put_table i s w))
    → Ends Q (back i w r)
on-Ends i w (FdEnds.ends p) weaken = ends (weaken _ _ p)

-- Putting a table back as it was changes nothing.
pub put_table_same :
    (i : ℕ) (w : Store) (log : List Call)
    → put_table i (record { files = w.tables i; log = log }) w ≡ record w { log = log }
put_table_same i w log = ap (λ t. record w { tables = t; log = log }) (fun_ext (λ j. same j))
  where
    same : (j : ℕ) → (if j == i then w.tables i else w.tables j) ≡ w.tables j
    same j = ground arith

pub put_table_self : (i : ℕ) (s : FdState) (w : Store) → (put_table i s w).tables i ≡ s.files
put_table_self i s w = ground arith

pub put_table_other :
    (i : ℕ) (s : FdState) (w : Store) (j : ℕ) → j ≢ i → (put_table i s w).tables j ≡ w.tables j
put_table_other i s w j ne = ground arith
