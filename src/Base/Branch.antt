-- ===== src/Base/Branch.antt =====
-- Runs that branch on a test.
use zso_ptrace.Base.{◌≡◌, refl, Bool, true, false, if◌then◌else◌}
use zso_ptrace.Base.Run.{Run, Ends}

pub if-Ends :
    {S A : Type 0} {P : A → S → Type 0} (b : Bool) (x y : S → Run S A) (s : S)
    → (b ≡ true → Ends P (x s))
    → (b ≡ false → Ends P (y s))
    → Ends P ((if b then x else y) s)
if-Ends true x y s then_ends else_ends = then_ends refl
if-Ends false x y s then_ends else_ends = else_ends refl
