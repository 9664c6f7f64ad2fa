-- ===== src/Mm/Cleared.antt =====
-- The loop of `mmap_task_region` in src/mm/mmap.c that takes out what is mapped in the range.
use zso_ptrace.Base.{
  ℕ, ◌+◌, ◌%◌, ◌^◌, ◌≤◌, ◌<◌, ◌≡◌, refl, sym, ap, ◌∙◌, subst, inl, inr, false, ◌&&◌, Option, none,
  some, List, [], ◌∷◌, ltb, leb, bit_or, if◌then◌else◌, arith, Bool-cases,
}
use zso_ptrace.Base.Run.{Ends, ends, then-Ends}
use zso_ptrace.Errno.{Errno, enomem, Ret, ok, err}
use zso_ptrace.Mm.Area.{add64, page_align, vm_softdirty, Vma, Mm, MmState, Outside}
use zso_ptrace.Mm.Unmap.{do_munmap}
use zso_ptrace.Mm.Laid.{Mapping, mapping_at}
use zso_ptrace.Mm.Counted.{IsWell}
use zso_ptrace.Mm.Munmap.{Refusal}
use zso_ptrace.Mm.Outcome.{Unmapping, kept, taken}
use zso_ptrace.Mm.Refined.{bad_range, do_munmap-Unmapping}
use zso_ptrace.Mm.Agrees.{soft_at}
use zso_ptrace.Mm.Region.{find_place, after_clear, clear_placed, clear_range}
use zso_ptrace.Mm.Vacant.{IsFree, IsFree-soft_at, find_place-IsFree, find_place_free}

abbrev pub soften : Option Mapping → Option Mapping
soften none = none
soften (some m) = some (record m { flags = bit_or m.flags vm_softdirty })

pub soft_at-mapping_at : (l : List Vma) (x : ℕ) → soft_at l x ≡ soften (mapping_at l x)
unfolding soft_at mapping_at
soft_at-mapping_at [] x = refl
soft_at-mapping_at (v ∷ l) x = ground (arith, soft_at-mapping_at l x)

-- Nothing in a range, and the rest as it is.
abbrev pub if_clear : (start end x : ℕ) → Option Mapping → Option Mapping
if_clear start end x o = if leb start x && ltb x end then none else o

-- How the loop ends: an error of do_munmap with every address as before, or the range is free and the
-- area before it is known.
pub data Cleared (out : Outside) (addr end : ℕ) (m : Mm) : Ret (Option ℕ) → Mm → Type 0 where
  uncleared :
      {n : Mm} (e : Errno)
      → Refusal out m.map_count e
      → IsWell n
      → ((x : ℕ) → soft_at n.mmap x ≡ soft_at m.mmap x)
      → Cleared out addr end m (err enomem) n
  cleared :
      {q : Option ℕ} {n : Mm}
      → IsWell n
      → ((x : ℕ) → soft_at n.mmap x ≡ if_clear addr end x (soft_at m.mmap x))
      → IsFree addr end q n.mmap
      → Cleared out addr end m (ok q) n

module _ (out : Outside) (addr len : ℕ) (al : addr % 4096 ≡ 0) (al_len : len % 4096 ≡ 0)
    (long : 0 < len) (fits : addr + len ≤ out.task_size)
    (room : out.task_size + 4096 ≤ 2 ^ 64) where
  abbrev end : ℕ
  end = addr + len

  same_end : add64 addr len ≡ end
  same_end = omega arith

  same_len : page_align len ≡ len
  same_len = omega arith

  good : bad_range out addr len ≡ false
  good = ground (arith, same_len)

  free_already :
      (q : Option ℕ) (s : MmState)
      → IsWell s.mm
      → find_place none s.mm.mmap addr end ≡ some q
      → Cleared out addr end s.mm (ok q) s.mm
  free_already q s w place =
      let is_free = find_place-IsFree addr end s.mm.mmap q w.laid place in
      cleared w
        (λ x. elim (Bool-cases (leb addr x && ltb x end)) [
          | inl inside ↦ rw inside (
              IsFree-soft_at addr end x q s.mm.mmap w.laid is_free (ground (arith, inside))
                (ground (arith, inside)))
          | inr beside ↦ rw beside refl
        ])
        is_free

  taken_view :
      (m n : Mm) (x : ℕ)
      → mapping_at n.mmap x ≡ (if leb addr x && ltb x end then none else mapping_at m.mmap x)
      → soft_at n.mmap x ≡ if_clear addr end x (soft_at m.mmap x)
  taken_view m n x same =
      soft_at-mapping_at n.mmap x ∙ ap soften same ∙ elim (Bool-cases (leb addr x && ltb x end)) [
        | inl inside ↦ rw inside refl
        | inr beside ↦ rw beside (sym (soft_at-mapping_at m.mmap x))
      ]

  -- The second round.
  again-Cleared :
      (m : Mm) (u : MmState)
      → IsWell u.mm
      → ((x : ℕ) → soft_at u.mm.mmap x ≡ if_clear addr end x (soft_at m.mmap x))
      → Ends (λ r z. Cleared out addr end m r z.mm) (clear_range out 1 addr len u)
  unfolding clear_range clear_placed
  again-Cleared m u w view =
      let (q, place) =
        find_place_free addr end 0 none u.mm.mmap w.laid (omega arith)
          (λ x ge lt. ground (arith, view x)) in
      rw (same_end, place)
        (ends (cleared w view (find_place-IsFree addr end u.mm.mmap q w.laid place)))

  after_clear-Cleared :
      (m : Mm) (r : Option Errno) (u : MmState)
      → Unmapping out addr end m r u.mm
      → Ends (λ r z. Cleared out addr end m r z.mm) (after_clear (clear_range out 1 addr len) r u)
  unfolding after_clear
  after_clear-Cleared m (some e) u (kept why w same) = ends (
      uncleared e why w (λ x.
        soft_at-mapping_at u.mm.mmap x ∙ ap soften (same x) ∙ sym (soft_at-mapping_at m.mmap x)))
  after_clear-Cleared m none u (taken w view count) =
      again-Cleared m u w (λ x. taken_view m u.mm x (view x))

  placed-Cleared :
      (s : MmState)
      → IsWell s.mm
      → (o : Option (Option ℕ)) → find_place none s.mm.mmap addr end ≡ o
      → Ends
          (λ r z. Cleared out addr end s.mm r z.mm)
          (clear_placed out (clear_range out 1 addr len) addr len o s)
  unfolding clear_placed
  placed-Cleared s w (some q) place = ends (free_already q s w place)
  placed-Cleared s w none busy =
      then-Ends
        (subst
          (λ n. Ends (λ r u. Unmapping out addr (addr + n) s.mm r u.mm) (do_munmap out addr len s))
          same_len (do_munmap-Unmapping out addr len s room w good))
        (λ r u p. after_clear-Cleared s.mm r u p)

  pub clear_range-Cleared :
      (s : MmState)
      → IsWell s.mm
      → Ends (λ r z. Cleared out addr end s.mm r z.mm) (clear_range out 2 addr len s)
  unfolding clear_range
  clear_range-Cleared s w =
      placed-Cleared s w (find_place none s.mm.mmap addr (add64 addr len))
        (ap (find_place none s.mm.mmap addr) (sym same_end))
