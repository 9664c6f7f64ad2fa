-- ===== src/Mm/Rounds.antt =====
-- The loop of `do_mprotect_pkey_task` in src/mm/mprotect.c, round by round.
use zso_ptrace.Base.{
  ℕ, ◌%◌, ◌≤◌, ◌<◌, ◌≡◌, refl, sym, ◌∙◌, subst, inl, inr, Bool, ◌&&◌, Option, some, List, [], ◌∷◌,
  ltb, leb, ◌==◌, arith, Bool-cases,
}
use zso_ptrace.Base.Run.{Ends, ends}
use zso_ptrace.Errno.{Errno, Ret, ok, err, enomem}
use zso_ptrace.Mm.Area.{Vma, Mm, MmState, Cmd}
use zso_ptrace.Mm.Split.{find_vma}
use zso_ptrace.Mm.Unmap.{behind}
use zso_ptrace.Mm.Cut.{find_vma_ends}
use zso_ptrace.Mm.Counted.{IsWell}
use zso_ptrace.Mm.Merge.{Request}
use zso_ptrace.Mm.Merges.{IsPlaced}
use zso_ptrace.Mm.Searched.{EndsBy}
use zso_ptrace.Mm.After.{top_address}
use zso_ptrace.Mm.Agrees.{soft_in, soft_at}
use zso_ptrace.Mm.Mprotect.{
  Policy, round_prot, next_flags, end_of, beyond, to_next, past_fixup, after_fixup,
}
use zso_ptrace.Mm.Reflag.{soft_at-find}
use zso_ptrace.Mm.Fixed.{Fixed, not_fixed, fixed}
use zso_ptrace.Mm.Stands.{HoldsAt, HoldsAt-Holder, find_aligned}
use zso_ptrace.Mm.Follow.{Follows, behind-Follows, StartsOff, behind-hole}
use zso_ptrace.Mm.Changed.{
  EndsBy-view, Became, Became-none, Passes, Reached, Reached-fixed, Reached-further, hole, no_room,
  Protected, finished, stopped,
}

module _ (pol : Policy) (rier : Bool) (pkey : Option ℕ) (reqprot start end : ℕ) (m : Mm) where
  -- What holds at the beginning of a round, in the area `v`.
  pub record Round (prev : Option ℕ) (nstart : ℕ) (v : Vma) (s : Mm) : Type 0 where
    pub reached : Reached pol rier pkey reqprot start nstart m s
    pub from : start ≤ nstart
    pub before : nstart < end
    pub aligned : nstart % 4096 ≡ 0
    pub found : find_vma s.mmap nstart ≡ some v
    pub low : v.vm_start ≤ nstart
    pub place : (r : Request) → r.addr ≡ nstart → r.end ≤ v.vm_end → IsPlaced r prev s.mmap

  abbrev pub End : Option Errno → MmState → Type 0
  End r u = Protected pol rier pkey reqprot start m end r u.mm

  -- What the next round may be asked for.
  abbrev pub Goes : (nstart : ℕ) → (ℕ → ℕ → Vma → Cmd (Option Errno)) → Type 0
  Goes nstart next =
      (n at : ℕ) (w : Vma) (u : MmState)
      → nstart < n
      → Round (some at) n w u.mm
      → Ends End (next n at w u)

  abbrev pub flags_of : Vma → ℕ
  flags_of v = next_flags pol pkey (round_prot rier reqprot v) v

  pub here_mapped :
      (prev : Option ℕ) (nstart : ℕ) (v : Vma) (s : Mm)
      → Round prev nstart v s
      → soft_at m.mmap nstart ≡ some (soft_in v nstart)
  here_mapped prev nstart v s k =
      sym (k.reached.outside nstart (inr (omega arith)))
      ∙ soft_at-find s.mmap nstart nstart v k.found k.low (omega arith)
          (find_vma_ends s.mmap nstart v k.found)

  pub Reached-EndsBy :
      (upto : ℕ) (z : Mm)
      → EndsBy top_address m.mmap
      → Reached pol rier pkey reqprot start upto m z
      → EndsBy top_address z.mmap
  Reached-EndsBy upto z ended k = EndsBy-view top_address m.mmap z.mmap k.well.laid ended (λ x free.
      elim (Bool-cases (leb start x && ltb x upto)) [
        | inl now ↦
            Became-none pol rier pkey reqprot _ _
              (k.inside x (ground (arith, now)) (ground (arith, now))) free
        | inr beside ↦ k.outside x (ground (arith, beside)) ∙ free
      ])

  Reached-view :
      (upto : ℕ) (s z : Mm)
      → Reached pol rier pkey reqprot start upto m s
      → IsWell z
      → ((x : ℕ) → soft_at z.mmap x ≡ soft_at s.mmap x)
      → Reached pol rier pkey reqprot start upto m z
  Reached-view upto s z k well view = record {
    well = well;
    inside = λ x ge lt.
        subst (Became pol rier pkey reqprot (soft_at m.mmap x)) (sym (view x)) (k.inside x ge lt);
    outside = λ x side. view x ∙ k.outside x side;
  }

  stop_at_hole :
      (from tmp at : ℕ) (u : MmState)
      → from < tmp
      → start ≤ from
      → tmp ≤ end_of at u.mm.mmap
      → end_of at u.mm.mmap < end
      → HoldsAt from tmp at u.mm.mmap
      → Reached pol rier pkey reqprot start (end_of at u.mm.mmap) m u.mm
      → StartsOff (end_of at u.mm.mmap) (behind (some at) u.mm.mmap)
      → Protected pol rier pkey reqprot start m end (some enomem) u.mm
  stop_at_hole from tmp at u wide first le lt holds k off =
      let (_, free) = behind-hole from tmp at 0 u.mm.mmap k.well.laid holds off in
      stopped (end_of at u.mm.mmap) (omega arith) lt
        (hole (sym (k.outside (end_of at u.mm.mmap) (inr (omega arith))) ∙ free)) k

  to_next-Protected :
      (next : ℕ → ℕ → Vma → Cmd (Option Errno)) (from tmp at : ℕ) (u : MmState)
      → Goes from next
      → from < tmp
      → start ≤ from
      → tmp ≤ end_of at u.mm.mmap
      → end_of at u.mm.mmap < end
      → HoldsAt from tmp at u.mm.mmap
      → Reached pol rier pkey reqprot start (end_of at u.mm.mmap) m u.mm
      → (k : List Vma) → behind (some at) u.mm.mmap ≡ k
      → Ends End (to_next (next (end_of at u.mm.mmap)) at (end_of at u.mm.mmap) k u)
  unfolding to_next
  to_next-Protected next from tmp at u goes wide first le lt holds reached [] is = ends (
      stop_at_hole from tmp at u wide first le lt holds reached
        (subst (StartsOff (end_of at u.mm.mmap)) (sym is) tt))
  to_next-Protected next from tmp at u goes wide first le lt holds reached (w ∷ l) is =
      elim (Bool-cases (w.vm_start == end_of at u.mm.mmap)) [
        | inr off ↦ simp off (
            ends (
              stop_at_hole from tmp at u wide first le lt holds reached
                (subst (StartsOff (end_of at u.mm.mmap)) (sym is) (ground (arith, off)))))
        | inl on ↦
            let starts : w.vm_start ≡ end_of at u.mm.mmap = ground (arith, on) in
            let f : Follows at u.mm.mmap w =
              behind-Follows from tmp at 0 u.mm.mmap w l reached.well.laid holds is in
            let found : find_vma u.mm.mmap (end_of at u.mm.mmap) ≡ some w =
              subst (λ a. find_vma u.mm.mmap a ≡ some w) starts f.found in
            simp on (
              goes (end_of at u.mm.mmap) at w u (omega arith) (record {
                reached = reached;
                from = omega arith;
                before = lt;
                aligned =
                    subst (λ a. a % 4096 ≡ 0) starts
                      (find_aligned 0 u.mm.mmap w (end_of at u.mm.mmap) reached.well.laid found);
                found = found;
                low = omega (arith, starts);
                place = λ r addr till. f.place r (addr ∙ sym starts) till;
              }))
      ]

  past_fixup-Protected :
      (next : ℕ → ℕ → Vma → Cmd (Option Errno)) (from tmp at : ℕ) (u : MmState)
      → Goes from next
      → from < tmp
      → start ≤ from
      → tmp ≤ end_of at u.mm.mmap
      → tmp ≤ end
      → HoldsAt from tmp at u.mm.mmap
      → ((upto : ℕ)
          → tmp ≤ upto
          → upto ≤ end_of at u.mm.mmap
          → Reached pol rier pkey reqprot start upto m u.mm)
      → (k : List Vma) → behind (some at) u.mm.mmap ≡ k
      → Ends End (past_fixup next at (end_of at u.mm.mmap) end k u)
  unfolding past_fixup
  past_fixup-Protected next from tmp at u goes wide first le till holds reached k is =
      elim (Bool-cases (leb end (end_of at u.mm.mmap))) [
        | inl over ↦ simp over (ends (finished (reached end till (ground (arith, over)))))
        | inr more ↦ simp more (
            to_next-Protected next from tmp at u goes wide first le (ground (arith, more)) holds
              (reached (end_of at u.mm.mmap) le (omega arith)) k is)
      ]

  beyond_end : (tmp e : ℕ) → tmp ≤ e → beyond tmp e ≡ e
  beyond_end tmp e le = ground arith

  pub after_fixup-Protected :
      (next : ℕ → ℕ → Vma → Cmd (Option Errno)) (prev : Option ℕ) (nstart tmp : ℕ) (v : Vma)
      (s : Mm) (r : Ret ℕ) (u : MmState)
      → Goes nstart next
      → Round prev nstart v s
      → nstart < tmp
      → tmp ≤ v.vm_end
      → tmp ≤ end
      → Passes pol rier pkey reqprot v (flags_of v)
      → Fixed nstart tmp (flags_of v) s r u.mm
      → Ends End (after_fixup next tmp end r u)
  unfolding after_fixup
  after_fixup-Protected next prev nstart tmp v s (err e) u goes k wide high le passes
        (not_fixed well view) =
      ends (
        stopped nstart k.from k.before (no_room v (here_mapped prev nstart v s k) passes)
          (Reached-view nstart s u.mm k.reached well view))
  after_fixup-Protected next prev nstart tmp v s (ok at) u goes k wide high le passes
        (fixed g word well view holds) =
      let (a, _, h) = HoldsAt-Holder nstart tmp at 0 u.mm.mmap well.laid wide holds in
      let till : tmp ≤ end_of at u.mm.mmap = omega (arith, h.high, h.last) in
      let with_word : Passes pol rier pkey reqprot v g = record {
        allowed = passes.allowed;
        passed = passes.passed;
        word = word;
      } in
      let now : Reached pol rier pkey reqprot start tmp m u.mm =
        Reached-fixed pol rier pkey reqprot start m nstart tmp g v s u.mm k.reached k.from wide high
          k.low k.found with_word well view in
      rw (beyond_end tmp (end_of at u.mm.mmap) till) (
        past_fixup-Protected next nstart tmp at u goes wide k.from till le holds
          (λ upto ge lt.
            Reached-further pol rier pkey reqprot start m nstart tmp upto g at v s u.mm now k.from
              wide ge lt k.low (omega arith) k.found with_word view holds)
          (behind (some at) u.mm.mmap) refl)
