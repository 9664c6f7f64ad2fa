-- ===== src/Mm/Loop.antt =====
-- The loop of `do_mprotect_pkey_task` in src/mm/mprotect.c: all of its rounds.
use zso_ptrace.Base.{
  ℕ, zero, suc, ◌-◌, ◌%◌, ◌^◌, ◌≤◌, ◌<◌, ◌≡◌, refl, inl, inr, Bool, false, Option, none, some, List,
  [], ◌∷◌, ltb, if◌then◌else◌, arith, Bool-cases,
}
use zso_ptrace.Base.Run.{Ends, ends, then-Ends}
use zso_ptrace.Errno.{Errno}
use zso_ptrace.Mm.Area.{pages, Vma, Mm, MmState, Cmd, Outside}
use zso_ptrace.Mm.Split.{find_vma}
use zso_ptrace.Mm.Cut.{find_vma_ends}
use zso_ptrace.Mm.Laid.{IsLaid}
use zso_ptrace.Mm.Searched.{EndsBy}
use zso_ptrace.Mm.After.{top_address}
use zso_ptrace.Mm.Protect.{Resources}
use zso_ptrace.Mm.Mprotect.{
  Policy, round_prot, exceeds, after_security, protect_round, protect_loop,
}
use zso_ptrace.Mm.Fixed.{mprotect_fixup-Fixed}
use zso_ptrace.Mm.Changed.{denied, vetoed, stopped}
use zso_ptrace.Mm.Rounds.{
  Round, End, Goes, flags_of, here_mapped, Reached-EndsBy, after_fixup-Protected,
}

-- Where an area ends, page-aligned.
find_end_aligned :
    (lo : ℕ) (l : List Vma) (v : Vma) (a : ℕ)
    → IsLaid lo l
    → find_vma l a ≡ some v
    → v.vm_end % 4096 ≡ 0
unfolding find_vma
find_end_aligned lo [] v x laid found = ground (arith, found)
find_end_aligned lo (w ∷ l) v x (from, size, a, b, rest) found =
    elim (Bool-cases (ltb x w.vm_end)) [
      | inl here ↦ ground (arith, here, found)
      | inr past ↦ find_end_aligned w.vm_end l v x rest (simp past at found)
    ]

module _ (out : Outside) (res : Resources) (pol : Policy) (rier : Bool) (pkey : Option ℕ)
    (reqprot start end : ℕ) (m : Mm) (top : end ≤ 2 ^ 64) (al_end : end % 4096 ≡ 0)
    (ended : EndsBy top_address m.mmap) where
  -- Those of Rounds.
  abbrev Start : Option ℕ → ℕ → Vma → Mm → Type 0
  Start = Round pol rier pkey reqprot start end m

  abbrev Stop : Option Errno → MmState → Type 0
  Stop = End pol rier pkey reqprot start end m

  abbrev flags : Vma → ℕ
  flags = flags_of pol rier pkey reqprot start end m

  abbrev round_end : Vma → ℕ
  round_end v = if ltb end v.vm_end then end else v.vm_end

  after_security-Protected :
      (next : ℕ → ℕ → Vma → Cmd (Option Errno)) (prev : Option ℕ) (nstart : ℕ) (v : Vma)
      (s : MmState)
      → Goes pol rier pkey reqprot start end m nstart next
      → Start prev nstart v s.mm
      → exceeds (flags v) ≡ false
      → (o : Option Errno) → pol.file_mprotect v reqprot (round_prot rier reqprot v) ≡ o
      → Ends Stop
          (after_security out res pol rier pkey reqprot end next prev v nstart (flags v) o s)
  unfolding after_security
  after_security-Protected next prev nstart v s goes k allowed (some e) asked = ends (
      stopped nstart k.from k.before
        (vetoed v (here_mapped pol rier pkey reqprot start end m prev nstart v s.mm k) asked)
        k.reached)
  after_security-Protected next prev nstart v s goes k allowed none asked =
      let tmp = round_end v in
      let inside : nstart < v.vm_end = find_vma_ends s.mm.mmap nstart v k.found in
      let al_v : v.vm_end % 4096 ≡ 0 =
        find_end_aligned 0 s.mm.mmap v nstart k.reached.well.laid k.found in
      let wide : nstart < tmp = ground (arith, k.before) in
      let high : tmp ≤ v.vm_end = ground arith in
      let le : tmp ≤ end = ground arith in
      let al_tmp : tmp % 4096 ≡ 0 = ground (arith, al_end) in
      then-Ends
        (mprotect_fixup-Fixed out res v nstart tmp k.aligned al_tmp k.low wide high (flags v) prev s
          (omega arith) k.reached.well
          (Reached-EndsBy pol rier pkey reqprot start end m nstart s.mm ended k.reached) k.found
          (λ g. k.place _ refl high))
        (λ r u p.
          after_fixup-Protected pol rier pkey reqprot start end m next prev nstart tmp v s.mm r u
            goes k wide high le (record { allowed = allowed; passed = asked; word = inl refl }) p)

  protect_round-Protected :
      (next : ℕ → ℕ → Vma → Cmd (Option Errno)) (prev : Option ℕ) (nstart : ℕ) (v : Vma)
      (s : MmState)
      → Goes pol rier pkey reqprot start end m nstart next
      → Start prev nstart v s.mm
      → Ends Stop (protect_round out res pol rier pkey reqprot end next prev nstart v s)
  unfolding protect_round
  protect_round-Protected next prev nstart v s goes k = elim (Bool-cases (exceeds (flags v))) [
    | inl exceeds ↦ simp exceeds (
        ends (
          stopped nstart k.from k.before
            (denied v (here_mapped pol rier pkey reqprot start end m prev nstart v s.mm k) exceeds)
            k.reached))
    | inr allowed ↦
        simp allowed (after_security-Protected next prev nstart v s goes k allowed _ refl)
  ]

  -- With a unit of fuel for each page of the range the loop ends.
  pub protect_loop-Protected :
      (fuel : ℕ) (prev : Option ℕ) (nstart : ℕ) (v : Vma) (s : MmState)
      → pages (end - nstart) ≤ fuel
      → Start prev nstart v s.mm
      → Ends Stop (protect_loop out res pol rier pkey reqprot end fuel prev nstart v s)
  unfolding protect_loop
  protect_loop-Protected zero prev nstart v s enough k = absurd (omega (arith, k.before, k.aligned))
  protect_loop-Protected (suc fuel) prev nstart v s enough k =
      protect_round-Protected _ prev nstart v s
        (λ n at w u more next.
          protect_loop-Protected fuel (some at) n w u
            (omega (arith, next.before, next.aligned, k.aligned)) next)
        k
