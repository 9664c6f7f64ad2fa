-- ===== src/Ptrace/Chosen.antt =====
-- `ptrace_dup2_to_remote` and `ptrace_remote_close` of src/kernel/ptrace.c: one descriptor of the
-- child's choice of number changes, in the child's table.
use zso_ptrace.Base.{ℕ, ◌≡◌, refl, ◌≢◌, subst, some, ◌==◌, if◌then◌else◌}
use zso_ptrace.Fd.Table.{FilesStruct}
use zso_ptrace.Fd.Valid.{IsValid}
use zso_ptrace.Fd.Replace.{Closed, close_fd-Closed}
use zso_ptrace.Fd.Kernel.{Kernel, FdState}
use zso_ptrace.Ptrace.Store.{
  Store, Ends, on-Ends, put_table, put_table_self, put_table_other, table_of,
}
use zso_ptrace.Ptrace.Remote.{remote_close, RemoteClose}

-- Only table `i` changes, and it does as `P` says.
pub record OnlyAt (i : ℕ) (w : Store) (P : FdState → Type 0) (u : Store) : Type 0 where
  pub there_does : P (table_of i u)
  pub others : (j : ℕ) → j ≢ i → u.tables j ≡ w.tables j

put-OnlyAt :
    (i : ℕ) (t : FdState) (w : Store) {P : FdState → Type 0} → P t → OnlyAt i w P (put_table i t w)
put-OnlyAt i t w {P} p = record {
  there_does =
      subst (λ f. P (record { files = f; log = t.log })) (back_again (put_table_self i t w)) p;
  others = put_table_other i t w;
}
  where
    back_again : {f g : FilesStruct} → f ≡ g → g ≡ f
    back_again e = rw e refl

-- The caller's table, as seen from the child's.
abbrev mine_of : (here there : ℕ) → Store → FilesStruct → FilesStruct
mine_of here there w f = if here == there then f else w.tables here

module _ (k : Kernel) (here there : ℕ) (w : Store) where
  -- PTRACE_REMOTE_CLOSE closes `remote_fd` in the child's table as `close` does in one's own: the
  -- file is handed to `filp_close` once, the number is free again, every other number and every
  -- other table is as before; EBADF, and no change, if no file stands there.
  pub remote_close-OnlyAt :
      (args : RemoteClose)
      → IsValid (w.tables there)
      → Ends
          (λ r u. OnlyAt there w (Closed k args.remote_fd (table_of there w) r) u)
          (remote_close k here there (some args) w)
  unfolding remote_close
  remote_close-OnlyAt args v =
      on-Ends there w (close_fd-Closed k args.remote_fd (table_of there w) v)
        (λ r t p. put-OnlyAt there t w p)
