-- ===== src/Fd/Refs.antt =====
-- References to files, as the log of calls shows them.
use zso_ptrace.Base.{ℕ, suc, ◌≡◌, refl, ◌∙◌, List, [], ◌∷◌, ◌==◌, if◌then◌else◌}
use zso_ptrace.Fd.Table.{File}
use zso_ptrace.Fd.Kernel.{Call, get_file, fput, filp_close}

-- How often a log takes and drops a reference to a file.
unfoldable pub taken : File → List Call → ℕ
taken f [] = 0
taken f (get_file g ∷ log) = if g == f then suc (taken f log) else taken f log
taken f (_ ∷ log) = taken f log

unfoldable pub dropped : File → List Call → ℕ
dropped f [] = 0
dropped f (fput g ∷ log) = if g == f then suc (dropped f log) else dropped f log
dropped f (filp_close g ∷ log) = if g == f then suc (dropped f log) else dropped f log
dropped f (_ ∷ log) = dropped f log

-- Two logs that take and drop the same references.
pub record HasSameRefs (old new : List Call) : Type 0 where
  pub same_taken : (f : File) → taken f new ≡ taken f old
  pub same_dropped : (f : File) → dropped f new ≡ dropped f old

pub HasSameRefs-refl : (log : List Call) → HasSameRefs log log
HasSameRefs-refl log = record { same_taken = λ f. refl; same_dropped = λ f. refl }

pub HasSameRefs-trans : {a b c : List Call} → HasSameRefs a b → HasSameRefs b c → HasSameRefs a c
HasSameRefs-trans p q = record {
  same_taken = λ f. q.same_taken f ∙ p.same_taken f;
  same_dropped = λ f. q.same_dropped f ∙ p.same_dropped f;
}
