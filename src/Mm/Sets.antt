-- ===== src/Mm/Sets.antt =====
-- `mmap_task_region` of src/mm/mmap.c where it sets a new area up for its file.
use zso_ptrace.Base.{ℕ, ◌≡◌, refl, true, false, arith, Option, none, some, ◌∷◌}
use zso_ptrace.Base.Run.{Ends, ends}
use zso_ptrace.Base.Branch.{if-Ends}
use zso_ptrace.Errno.{Errno, Ret, ok, err}
use zso_ptrace.Mm.Area.{has, vm_shared, vm_denywrite, Vma, Mm, MmState, got_file}
use zso_ptrace.Mm.Region.{
  Mapper, Setup, made, failed, failed_late, after_mmap, call_mmap, after_writable, make_writable,
  after_deny, after_zero, set_up, link_file, release_file,
}

-- What the file has to grant before its `mmap` operation.
abbrev pub MayWrite : (k : Mapper) (f : ℕ) (v : Vma) → Type 0
MayWrite k f v = has v.vm_flags vm_shared ≡ true → k.map_writable f ≡ none

abbrev pub MayDeny : (k : Mapper) (f : ℕ) (v : Vma) → Type 0
MayDeny k f v = has v.vm_flags vm_denywrite ≡ true → k.deny_write_access f ≡ none

-- What the area `v` may become.
pub data Sets (k : Mapper) (file : Option ℕ) (v : Vma) : Setup → Type 0 where
  plain : file ≡ none → has v.vm_flags vm_shared ≡ false → Sets k file v (made v)
  zeroed :
      (w : Vma)
      → file ≡ none
      → has v.vm_flags vm_shared ≡ true
      → k.zero_setup v ≡ ok w
      → Sets k file v (made w)
  by_file :
      (f : ℕ) (w : Vma)
      → file ≡ some f
      → MayDeny k f v
      → MayWrite k f v
      → k.file_mmap f (record v { vm_file = some f }) ≡ ok w
      → Sets k file v (made w)
  no_zero :
      {e : Errno}
      → file ≡ none
      → has v.vm_flags vm_shared ≡ true
      → k.zero_setup v ≡ err e
      → Sets k file v (failed e)
  not_denied :
      (f : ℕ) {e : Errno}
      → file ≡ some f
      → has v.vm_flags vm_denywrite ≡ true
      → k.deny_write_access f ≡ some e
      → Sets k file v (failed e)
  not_writable :
      (f : ℕ) {e : Errno}
      → file ≡ some f
      → has v.vm_flags vm_shared ≡ true
      → MayDeny k f v
      → k.map_writable f ≡ some e
      → Sets k file v (failed e)
  not_mapped :
      (f : ℕ) {e : Errno}
      → file ≡ some f
      → MayDeny k f v
      → MayWrite k f v
      → k.file_mmap f (record v { vm_file = some f }) ≡ err e
      → Sets k file v (failed_late e)

module _ (k : Mapper) (v : Vma) (m : Mm) where
  abbrev Done : Option ℕ → Setup → MmState → Type 0
  Done file r u = Sets k file v r × (u.mm ≡ m)

  call-Sets :
      (f : ℕ) (s : MmState)
      → MayDeny k f v
      → MayWrite k f v
      → s.mm ≡ m
      → Ends (Done (some f)) (call_mmap k f v s)
  unfolding call_mmap
  call-Sets f s deny write same = go (k.file_mmap f (record v { vm_file = some f })) refl
    where
      go :
          (r : Ret Vma)
          → k.file_mmap f (record v { vm_file = some f }) ≡ r
          → Ends (Done (some f)) (after_mmap k f v r (record s { log = got_file f ∷ s.log }))
      go (ok w) is = unfold after_mmap in ends (by_file f w refl deny write is, same)
      go (err e) is = unfold after_mmap in ends (not_mapped f refl deny write is, same)

  writable-Sets :
      (f : ℕ) (s : MmState)
      → MayDeny k f v
      → s.mm ≡ m
      → Ends (Done (some f)) (make_writable k f v s)
  unfolding make_writable
  writable-Sets f s deny same =
      if-Ends (has v.vm_flags vm_shared) _ _ s (λ shares. go shares (k.map_writable f) refl)
        (λ alone. call-Sets f s deny (λ shares. absurd (ground (arith, alone, shares))) same)
    where
      go :
          has v.vm_flags vm_shared ≡ true
          → (r : Option Errno) → k.map_writable f ≡ r
          → Ends (Done (some f)) (after_writable k f v r s)
      go shares (some e) is =
          unfold after_writable in ends (not_writable f refl shares deny is, same)
      go shares none is = unfold after_writable in call-Sets f _ deny (λ _. is) same

  file-Sets : (f : ℕ) (s : MmState) → s.mm ≡ m → Ends (Done (some f)) (set_up k (some f) v s)
  unfolding set_up
  file-Sets f s same =
      if-Ends (has v.vm_flags vm_denywrite) _ _ s (λ denies. go denies (k.deny_write_access f) refl)
        (λ lets. writable-Sets f s (λ denies. absurd (ground (arith, lets, denies))) same)
    where
      go :
          has v.vm_flags vm_denywrite ≡ true
          → (r : Option Errno) → k.deny_write_access f ≡ r
          → Ends (Done (some f)) (after_deny k f v r s)
      go denies (some e) is = unfold after_deny in ends (not_denied f refl denies is, same)
      go denies none is = unfold after_deny in writable-Sets f _ (λ _. is) same

  pub set_up-Sets :
      (file : Option ℕ) (s : MmState) → s.mm ≡ m → Ends (Done file) (set_up k file v s)
  set_up-Sets (some f) s same = file-Sets f s same
  set_up-Sets none s same =
      unfold set_up in
      if-Ends (has v.vm_flags vm_shared) _ _ s (λ shares. go shares (k.zero_setup v) refl)
        (λ alone. ends (plain refl alone, same))
    where
      go :
          has v.vm_flags vm_shared ≡ true
          → (r : Ret Vma) → k.zero_setup v ≡ r
          → Ends (Done none) (after_zero k r s)
      go shares (ok w) is = unfold after_zero in ends (zeroed w refl shares is, same)
      go shares (err e) is = unfold after_zero in ends (no_zero refl shares is, same)

-- The counts of a file leave the address space alone.
pub link_file-same :
    (w : Vma) (file : Option ℕ) (s : MmState) → Ends (λ _ u. u.mm ≡ s.mm) (link_file w file s)
unfolding link_file
link_file-same w none s = ends refl
link_file-same w (some f) s = ends refl

pub release_file-same :
    (k : Mapper) (file : Option ℕ) (flags : ℕ) (s : MmState)
    → Ends (λ _ u. u.mm ≡ s.mm) (release_file k file flags s)
unfolding release_file
release_file-same k none flags s = ends refl
release_file-same k (some f) flags s = ends refl
