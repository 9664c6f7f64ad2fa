-- ===== src/Mm/Settled.antt =====
-- The end of `mmap_task_region` in src/mm/mmap.c: the counters and the flags of the area.
use zso_ptrace.Base.{
  ℕ, suc, ◌+◌, ◌-◌, ◌*◌, ◌^◌, ◌≤◌, ◌<◌, ◌≡◌, refl, sym, ap, ◌∙◌, subst, inl, inr, true, false, ◌&&◌,
  some, List, [], ◌∷◌, ltb, leb, ◌==◌, bit_or, if◌then◌else◌, arith, Bool-cases, bit_and, ◌!=◌,
  ==_refl,
}
use zso_ptrace.Base.Bits.{bit_and-bit_or, bit_or-twice}
use zso_ptrace.Base.Run.{Ends, ends}
use zso_ptrace.Mm.Area.{
  add64, pages, has, vm_locked, vm_special, vm_hugetlb, vm_softdirty, Vma, Mm, MmState, vma_pages,
  vm_stat_account,
}
use zso_ptrace.Mm.Unmap.{length}
use zso_ptrace.Mm.Laid.{IsLaid}
use zso_ptrace.Mm.Counted.{IsWell, total_pages}
use zso_ptrace.Mm.Merge.{Request}
use zso_ptrace.Mm.Searched.{EndsBy}
use zso_ptrace.Mm.Agrees.{soft_in, soft_at, GrewAt}
use zso_ptrace.Mm.Region.{Mapper, update_area, unlockable, settle_flags, finish_region}
use zso_ptrace.Mm.Vacant.{StandsAt}

-- Areas below an address have no more pages than fit below it.
pub total_pages-EndsBy :
    (b lo : ℕ) (l : List Vma) → IsLaid lo l → EndsBy b l → lo ≤ b → total_pages l * 4096 + lo ≤ b
unfolding total_pages vma_pages
total_pages-EndsBy b lo [] laid ended le = omega arith
total_pages-EndsBy b lo (v ∷ l) (from, size, p, q, rest) (end, ended) le =
    omega (arith, total_pages-EndsBy b v.vm_end l rest ended end)

-- Setting VM_SOFTDIRTY twice, and whether VM_HUGETLB is seen through it.
soft_twice : (f : ℕ) → bit_or (bit_or f vm_softdirty) vm_softdirty ≡ bit_or f vm_softdirty
soft_twice f = bit_or-twice 27 f

module _ (k : Mapper) (flags : ℕ) where
  abbrev f : Vma → Vma
  f = settle_flags k flags

  update-IsLaid : (at lo : ℕ) (l : List Vma) → IsLaid lo l → IsLaid lo (update_area f at l)
  unfolding update_area
  update-IsLaid at lo [] laid = tt
  update-IsLaid at lo (v ∷ l) (from, size, s, e, rest) = elim (Bool-cases (v.vm_start == at)) [
    | inl here ↦ simp here (from, size, s, e, rest)
    | inr other ↦ simp other (from, size, s, e, update-IsLaid at v.vm_end l rest)
  ]

  update-same :
      (at : ℕ) (l : List Vma)
      → (length (update_area f at l) ≡ length l)
        × (total_pages (update_area f at l) ≡ total_pages l)
  unfolding update_area length total_pages vma_pages
  update-same at [] = (refl, refl)
  update-same at (v ∷ l) = elim (Bool-cases (v.vm_start == at)) [
    | inl here ↦ simp here (refl, refl)
    | inr other ↦
        let (a, b) = update-same at l in
        simp other (ap (λ (n : ℕ). suc n) a, ap (λ (n : ℕ). pages (v.vm_end - v.vm_start) + n) b)
  ]

  update_first :
      (w : Vma) (x : ℕ) (l : List Vma)
      → soft_at (update_area f w.vm_start (w ∷ l)) x
        ≡ (if leb w.vm_start x && ltb x w.vm_end then some (soft_in (f w) x) else soft_at (w ∷ l) x)
  unfolding update_area soft_at
  update_first w x l = simp (==_refl w.vm_start) (ground arith)

  -- An area that is linked: its addresses get the settled flags.
  pub update-StandsAt :
      (w : Vma) (lo x : ℕ) (l : List Vma)
      → IsLaid lo l
      → StandsAt w l
      → soft_at (update_area f w.vm_start l) x
        ≡ (if leb w.vm_start x && ltb x w.vm_end then some (soft_in (f w) x) else soft_at l x)
  unfolding update_area soft_at
  update-StandsAt w lo x [] laid stands = absurd stands
  update-StandsAt w lo x (v ∷ l) laid (inl is) =
      subst
        (λ z. soft_at (update_area f w.vm_start (z ∷ l)) x ≡ (
          if leb w.vm_start x && ltb x w.vm_end then some (soft_in (f w) x) else soft_at (z ∷ l) x))
        (sym is) (update_first w x l)
  update-StandsAt w lo x (v ∷ l) (from, size, s, e, rest) (inr (other, stands)) =
      let past : (v.vm_start == w.vm_start) ≡ false = ground arith in
      let beyond : v.vm_end ≤ w.vm_start = starts v.vm_end l rest stands in
      simp past (ground (arith, update-StandsAt w v.vm_end x l rest stands))
    where
      starts : (lo : ℕ) (l : List Vma) → IsLaid lo l → StandsAt w l → lo ≤ w.vm_start
      starts lo [] laid stands = absurd stands
      starts lo (v ∷ l) (from, size, s, e, rest) (inl is) = ground (arith, is)
      starts lo (v ∷ l) (from, size, s, e, rest) (inr (other, stands)) =
          omega (arith, starts v.vm_end l rest stands)

  -- One that has grown: they have them already.
  pub grown_plain :
      (r : Request) (v : Vma)
      → bit_or v.vm_flags vm_softdirty ≡ bit_or r.vm_flags vm_softdirty
      → has flags vm_special ≡ false
      → has r.vm_flags vm_hugetlb ≡ false
      → k.is_gate v ≡ false
      → unlockable k flags v ≡ false
  grown_plain r v word plain small gate =
      let same : bit_and v.vm_flags vm_hugetlb ≡ bit_and r.vm_flags vm_hugetlb =
        sym (bit_and-bit_or 27 22 v.vm_flags (omega arith))
        ∙ ap (λ (b : ℕ). bit_and b vm_hugetlb) word
        ∙ bit_and-bit_or 27 22 r.vm_flags (omega arith) in
      let not_huge : has v.vm_flags vm_hugetlb ≡ false = ap (λ (b : ℕ). b != 0) same ∙ small in
      rw (plain, not_huge, gate)

  pub grown_word :
      (v : Vma)
      → unlockable k flags v ≡ false
      → bit_or (f v).vm_flags vm_softdirty ≡ bit_or v.vm_flags vm_softdirty
  grown_word v plain = elim (Bool-cases (has flags vm_locked)) [
    | inl locks ↦ simp (locks, plain) (soft_twice v.vm_flags)
    | inr free ↦ simp free (soft_twice v.vm_flags)
  ]

  pub update-GrewAt :
      (r : Request) (at x : ℕ) (l : List Vma)
      → GrewAt r at l
      → has flags vm_special ≡ false
      → has r.vm_flags vm_hugetlb ≡ false
      → ((v : Vma) → k.is_gate v ≡ false)
      → soft_at (update_area f at l) x ≡ soft_at l x
  unfolding update_area soft_at
  update-GrewAt r at x [] grew plain small gate = absurd grew
  update-GrewAt r at x (v ∷ l) (inl (same, low, high, word, file)) plain small gate =
      let found : (v.vm_start == at) ≡ true = ground arith in
      let w : bit_or (f v).vm_flags vm_softdirty ≡ bit_or v.vm_flags vm_softdirty =
        grown_word v (grown_plain r v word plain small (gate v)) in
      simp found (rw w)
  update-GrewAt r at x (v ∷ l) (inr (other, grew)) plain small gate =
      let past : (v.vm_start == at) ≡ false = ground arith in
      simp past (ground (arith, update-GrewAt r at x l grew plain small gate))

  -- The pages are counted, and the areas stay where they are.
  pub record Settles (at len : ℕ) (m n : Mm) : Type 0 where
    pub areas : n.mmap ≡ update_area f at m.mmap
    pub count : n.map_count ≡ m.map_count
    pub total : n.total_vm ≡ add64 m.total_vm (pages len)

  pub finish_region-Settles :
      (at len : ℕ) (s : MmState)
      → Ends (λ _ u. Settles at len s.mm u.mm) (finish_region k at flags len s)
  unfolding finish_region vm_stat_account
  finish_region-Settles at len s =
      ends (record { areas = ground arith; count = ground arith; total = ground arith })

  pub Settles-IsWell :
      (at len : ℕ) (m n : Mm)
      → Settles at len m n
      → IsLaid 0 m.mmap
      → m.map_count ≡ length m.mmap
      → total_pages m.mmap ≡ m.total_vm + pages len
      → total_pages m.mmap < 2 ^ 64
      → IsWell n
  Settles-IsWell at len m n k laid count total bound =
      let (lengths, sizes) = update-same at m.mmap in
      record {
        laid = rw k.areas (update-IsLaid at 0 m.mmap laid);
        counted = rw k.areas (k.count ∙ count ∙ sym lengths);
        total = rw k.areas (rw sizes (omega (arith, k.total)));
        bounded = rw k.areas (rw sizes bound);
      }
