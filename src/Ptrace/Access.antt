-- ===== src/Ptrace/Access.antt =====
-- `__ptrace_may_access` of src/kernel/ptrace.c: whom it lets through.
use zso_ptrace.Base.{
  ℕ, ◌≡◌, ◌⊎◌, refl, inl, inr, Bool, true, false, not, ◌||◌, Option, none, some, ◌==◌,
  if◌then◌else◌, arith, Bool-cases,
}
use zso_ptrace.Errno.{Ret, ok, err, eperm}
use zso_ptrace.Ptrace.Task.{has, Cred, Mm, World, Env}
use zso_ptrace.Ptrace.Attach.{
  mode_fscreds, mode_realcreds, suid_dump_user, same_ids, ptrace_has_cap, hides_memory,
  may_access_code,
}

-- All the identities of a task are one.
pub record IsAll (uid gid : ℕ) (t : Cred) : Type 0 where
  pub uids : (uid ≡ t.uid) × (uid ≡ t.euid) × (uid ≡ t.suid)
  pub gids : (gid ≡ t.gid) × (gid ≡ t.egid) × (gid ≡ t.sgid)

module _ (env : Env) (target mode : ℕ) (w : World) where
  abbrev caller_cred : Cred
  caller_cred = env.cred_of (w.tasks w.current).cred

  abbrev target_cred : Cred
  target_cred = env.cred_of (w.tasks target).cred

  abbrev caller_uid : ℕ
  caller_uid = if has mode mode_fscreds then caller_cred.fsuid else caller_cred.uid

  abbrev caller_gid : ℕ
  caller_gid = if has mode mode_fscreds then caller_cred.fsgid else caller_cred.gid

  -- What lets the caller at a task of another thread group.
  pub record MayReach : Type 0 where
    pub owns :
        IsAll caller_uid caller_gid target_cred
        ⊎ (ptrace_has_cap env w.current target_cred.user_ns mode ≡ true)
    pub dumpable :
        ((w.tasks target).mm ≡ none)
        ⊎ ((m : Mm) × ((w.tasks target).mm ≡ some m)
            × ((m.dumpable ≡ suid_dump_user)
                ⊎ (ptrace_has_cap env w.current m.mm_user_ns mode ≡ true)))
    pub asked : (n : ℕ) × (env.access_check target mode ≡ ok n)

  pub record MayAccess : Type 0 where
    pub one_kind : has mode mode_realcreds ≡ not (has mode mode_fscreds)
    pub reaches : ((w.tasks target).tgid ≡ (w.tasks w.current).tgid) ⊎ MayReach

  same_ids-IsAll : (uid gid : ℕ) (t : Cred) → same_ids uid gid t ≡ true → IsAll uid gid t
  unfolding same_ids
  same_ids-IsAll uid gid t same = record {
    uids = (ground (arith, same), ground (arith, same), ground (arith, same));
    gids = (ground (arith, same), ground (arith, same), ground (arith, same));
  }

  shown :
      (o : Option Mm)
      → hides_memory env w.current mode o ≡ false
      → (o ≡ none)
        ⊎ ((m : Mm) × (o ≡ some m)
            × ((m.dumpable ≡ suid_dump_user)
                ⊎ (ptrace_has_cap env w.current m.mm_user_ns mode ≡ true)))
  unfolding hides_memory
  shown none shows = inl refl
  shown (some m) shows = inr (
    m,
    refl,
    elim (Bool-cases (ptrace_has_cap env w.current m.mm_user_ns mode)) [
      | inl may ↦ inr may
      | inr lacks ↦ inl (ground (arith, shows, lacks))
    ],
  )

  owned :
      (same_ids caller_uid caller_gid target_cred
          || ptrace_has_cap env w.current target_cred.user_ns mode)
        ≡ true
      → IsAll caller_uid caller_gid target_cred
        ⊎ (ptrace_has_cap env w.current target_cred.user_ns mode ≡ true)
  owned may = elim (Bool-cases (same_ids caller_uid caller_gid target_cred)) [
    | inl same ↦ inl (same_ids-IsAll caller_uid caller_gid target_cred same)
    | inr differ ↦ inr (ground (arith, may, differ))
  ]

  -- A test that gives an error was passed.
  past :
      (b : Bool) (r : Ret ℕ) (n : ℕ)
      → (if b then err eperm else r) ≡ ok n
      → (b ≡ false) × (r ≡ ok n)
  past true r n same = absurd (ground (arith, same))
  past false r n same = (refl, same)

  -- __ptrace_may_access lets the caller at a task only with exactly one of PTRACE_MODE_FSCREDS
  -- and PTRACE_MODE_REALCREDS, and unless the two are one thread group only if every user and
  -- group identity of the task is the caller's of that kind or the caller has CAP_SYS_PTRACE in
  -- its namespace, the task has no memory or its memory is dumpable or the caller has the
  -- capability in the memory's namespace, and the security modules agree.
  pub may_access_code-MayAccess : (n : ℕ) → may_access_code env target mode w ≡ ok n → MayAccess
  unfolding may_access_code
  may_access_code-MayAccess n same =
      let (kinds, a) =
        past
          (if has mode mode_fscreds then has mode mode_realcreds else not (has mode mode_realcreds))
          _ n same in
      let one : has mode mode_realcreds ≡ not (has mode mode_fscreds) = ground (arith, kinds) in
      elim (Bool-cases ((w.tasks target).tgid == (w.tasks w.current).tgid)) [
        | inl group ↦ record { one_kind = one; reaches = inl (ground (arith, group)) }
        | inr other ↦
            let (owns, b) =
              past
                (not (
                  same_ids caller_uid caller_gid target_cred
                  || ptrace_has_cap env w.current target_cred.user_ns mode))
                _ n (simp other at a) in
            let (shows, c) = past (hides_memory env w.current mode (w.tasks target).mm) _ n b in
            record {
              one_kind = one;
              reaches = inr (record {
                owns = owned (ground (arith, owns));
                dumpable = shown (w.tasks target).mm shows;
                asked = (n, c);
              });
            }
      ]
