-- ===== src/Mm/Planned.antt =====
-- `do_task_mmap` of src/mm/mmap.c: what it has checked when it calls `mmap_task_region`.
use zso_ptrace.Base.{
  ℕ, ◌+◌, ◌-◌, ◌%◌, ◌≤◌, ◌<◌, ◌≡◌, refl, ap, subst, inl, inr, Bool, true, false, not, is_some, ◌&&◌,
  ◌||◌, Option, none, some, ltb, ◌==◌, ◌!=◌, bit_and, bit_or, if◌then◌else◌, arith, Bool-cases,
}
use zso_ptrace.Base.Bits.{bit, clear_bit_or, clear_bit_and}
use zso_ptrace.Errno.{Errno, eperm, eagain, enomem, eacces, enodev, einval, eoverflow, Ret, ok, err}
use zso_ptrace.Mm.Area.{
  add64, pages, page_align, offset_in_page, has, without, vm_exec, vm_shared, vm_growsdown,
  vm_growsup, vm_mayread, vm_maywrite, vm_mayexec, vm_mayshare, vm_noreserve, vm_hugetlb, Mm,
  Outside,
}
use zso_ptrace.Mm.Plan.{
  prot_write, map_type, map_shared, map_private, map_fixed, map_locked, map_noreserve, ◌>>=◌, ◌>>◌,
  refuse_if, refuse, MapFile, Calls, Plan, private_file, shared_file, file_flags, shared_memory,
  memory_flags, round_hint_to_min, mlock_future_check, get_area, get_task_unmapped_area,
  reserve_flags, typed, first_flags, plan_at, full_prot, plan,
}

-- A chain that gives a value: every test of it was passed.
pub passes :
    {B : Type 0} (test : Bool) (e : Errno) (r : Ret B) (b : B)
    → (refuse_if test e >> r) ≡ ok b
    → (test ≡ false) × (r ≡ ok b)
passes true e r b same = absurd (ground (arith, same))
passes false e r b same = (refl, same)

passes_refuse :
    {B : Type 0} (o : Option Errno) (r : Ret B) (b : B) → (refuse o >> r) ≡ ok b → r ≡ ok b
passes_refuse none r b same = same
passes_refuse (some e) r b same = absurd (ground (arith, same))

pub chained :
    {A B : Type 0} (r : Ret A) (f : A → Ret B) (b : B)
    → (r >>= f) ≡ ok b
    → (a : A) × (r ≡ ok a) × (f a ≡ ok b)
chained (ok a) f b same = (a, refl, same)
chained (err e) f b same = absurd (ground (arith, same))

-- A bit that is clear where the flags come from.
abbrev pub Clear : ℕ → ℕ → Type 0
Clear k g = bit_and g (bit k) ≡ 0

abbrev pub Sources : Calls → ℕ → Type 0
Sources c k =
    ((prot key : ℕ) → Clear k (c.prot_bits prot key))
    × ((flags : ℕ) → Clear k (c.flag_bits flags))
    × Clear k c.def_flags

pub private_file-Clear :
    (k : ℕ) (f : MapFile) (g h : ℕ) → Clear k g → private_file f g ≡ ok h → Clear k h
unfolding private_file
private_file-Clear k f g h clear same =
    let (_, a) = passes (not f.may_read) eacces _ h same in
    let (_, b) = passes (f.noexec && has g vm_exec) eperm _ h a in
    let (_, c) = passes (not f.has_mmap) enodev _ h b in
    let (_, d) =
      passes (has (if f.noexec then without g vm_mayexec else g) (vm_growsdown + vm_growsup)) einval
        _ h c in
    go f.noexec d
  where
    go : (b : Bool) → ok (if b then without g vm_mayexec else g) ≡ ok h → Clear k h
    go true is =
        let same : without g vm_mayexec ≡ h = ground (arith, is) in
        subst (Clear k) same (clear_bit_and k g _ (inl clear))
    go false is = let same : g ≡ h = ground (arith, is) in subst (Clear k) same clear

file_flags-Clear :
    (k : ℕ) (f : MapFile) (type prot g h : ℕ)
    → Clear k g
    → Clear k (vm_shared + vm_mayshare)
    → file_flags f type prot g ≡ ok h
    → Clear k h
unfolding file_flags shared_file
file_flags-Clear k f type prot g h clear other same = elim (Bool-cases (type == map_shared)) [
  | inl shared ↦
      let (_, a) =
        passes (has prot prot_write && not f.may_write) eacces _ h (simp shared at same) in
      let (_, b) = passes (f.append_only && f.may_write) eacces _ h a in
      let (_, c) = passes f.locked eagain _ h b in private_file-Clear k f _ h (go f.may_write) c
  | inr differs ↦ elim (Bool-cases (type == map_private)) [
    | inl private ↦ private_file-Clear k f g h clear (simp (differs, private) at same)
    | inr unknown ↦ absurd (ground (arith, same, differs, unknown))
  ]
]
  where
    go :
        (b : Bool)
        → Clear k (
            if b
            then bit_or g (vm_shared + vm_mayshare)
            else without (bit_or g (vm_shared + vm_mayshare)) (vm_maywrite + vm_shared))
    go true = clear_bit_or k g _ clear other
    go false = clear_bit_and k _ _ (inl (clear_bit_or k g _ clear other))

memory_flags-Clear :
    (k type addr g h page : ℕ)
    → Clear k g
    → Clear k (vm_shared + vm_mayshare)
    → memory_flags type addr g ≡ ok (h, page)
    → Clear k h
unfolding memory_flags shared_memory
memory_flags-Clear k type addr g h page clear other same = elim (Bool-cases (type == map_shared)) [
  | inl shared ↦
      let (_, a) =
        passes (has g (vm_growsdown + vm_growsup)) einval _ (h, page) (simp shared at same) in
      let is : bit_or g (vm_shared + vm_mayshare) ≡ h = ground (arith, a) in
      subst (Clear k) is (clear_bit_or k g _ clear other)
  | inr differs ↦ elim (Bool-cases (type == map_private)) [
    | inl private ↦
        let is : g ≡ h = ground (arith, same, differs, private) in subst (Clear k) is clear
    | inr unknown ↦ absurd (ground (arith, same, differs, unknown))
  ]
]

pub reserve-Clear :
    (c : Calls) (out : Outside) (mm : Mm) (k : ℕ) (huge : Bool) (flags g : ℕ)
    → Clear k g
    → Clear k vm_noreserve
    → Clear k (reserve_flags c out mm huge flags g)
reserve-Clear c out mm k huge flags g clear other =
    go (has flags map_noreserve && (not c.overcommit_never || huge))
  where
    go : (b : Bool) → Clear k (if b then bit_or g vm_noreserve else g)
    go true = clear_bit_or k g _ clear other
    go false = clear

-- What `mmap_task_region` relies on.
pub record Sound (out : Outside) (len : ℕ) (p : Plan) : Type 0 where
  pub aligned : p.addr % 4096 ≡ 0
  pub whole : p.len ≡ page_align len
  pub long : 0 < p.len
  pub fits : p.addr + p.len ≤ out.task_size
  pub small : has p.vm_flags vm_hugetlb ≡ false

module _ (c : Calls) (out : Outside) (mm : Mm) where
  get_task_unmapped_area_lem :
      (file : Option ℕ) (addr len pgoff flags at : ℕ)
      → get_task_unmapped_area c out mm file addr len pgoff flags ≡ ok at
      → (at + len ≤ out.task_size) × (at % 4096 ≡ 0)
  unfolding get_task_unmapped_area
  get_task_unmapped_area_lem file addr len pgoff flags at same =
      let a = passes_refuse (c.arch_mmap_check addr len flags) _ at same in
      let (few, b) = passes (ltb out.task_size len) enomem _ at a in
      let (x, _, d) = chained (get_area c out mm file addr len pgoff flags) _ at b in
      let (low, e) = passes (ltb (out.task_size - len) x) enomem _ at d in
      let (al, f) = passes (offset_in_page x) einval _ at e in
      let last = passes_refuse (c.mmap_addr x) _ at f in
      let is : x ≡ at = ground (arith, last) in
      (ground (arith, few, low, is), ground (arith, al, is))

  typed_lem :
      (file : Option ℕ) (addr len prot flags pgoff g k : ℕ) (p : Plan)
      → Clear k g
      → Clear k (vm_shared + vm_mayshare)
      → Clear k vm_noreserve
      → typed c out mm file addr len prot flags pgoff g ≡ ok p
      → (p.addr ≡ addr) × (p.len ≡ len) × Clear k p.vm_flags
  unfolding typed
  typed_lem none addr len prot flags pgoff g k p clear other free same =
      let ((h, page), a, b) = chained (memory_flags (bit_and flags map_type) addr g) _ p same in
      let is : record {
        addr = addr;
        len = len;
        vm_flags = reserve_flags c out mm false flags h;
        pgoff = page;
      }
          ≡ p =
        ground (arith, b) in
      subst (λ q. (q.addr ≡ addr) × (q.len ≡ len) × Clear k q.vm_flags) is
        (
          refl,
          refl,
          reserve-Clear c out mm k false flags h
              (memory_flags-Clear k _ addr g h page clear other a) free,
        )
  typed_lem (some f) addr len prot flags pgoff g k p clear other free same =
      let (h, a, b) = chained (file_flags (c.files f) (bit_and flags map_type) prot g) _ p same in
      let is : record {
        addr = addr;
        len = len;
        vm_flags = reserve_flags c out mm (c.files f).hugepages flags h;
        pgoff = pgoff;
      }
          ≡ p =
        ground (arith, b) in
      subst (λ q. (q.addr ≡ addr) × (q.len ≡ len) × Clear k q.vm_flags) is
        (
          refl,
          refl,
          reserve-Clear c out mm k (c.files f).hugepages flags h
              (file_flags-Clear k (c.files f) _ prot g h clear other a) free,
        )

  pub first-Clear :
      (k prot flags g : ℕ)
      → Sources c k
      → Clear k g
      → Clear k (vm_mayread + vm_maywrite + vm_mayexec)
      → Clear k (first_flags c out mm prot flags g)
  first-Clear k prot flags g (prots, bits, defs) clear other =
      clear_bit_or k _ _
        (clear_bit_or k _ _
          (clear_bit_or k _ _ (clear_bit_or k g _ clear (prots prot _)) (bits flags)) defs)
        other

  -- Where the protection bits, the flag bits and the default flags do not contain VM_HUGETLB,
  -- every range that do_task_mmap passes to mmap_task_region starts at a page, has the asked
  -- length rounded up to whole pages, which is not 0, ends within TASK_SIZE, and has flags
  -- without VM_HUGETLB, whatever get_unmapped_area and the offset are.
  pub plan-Sound :
      (file : Option ℕ) (addr len prot flags pgoff : ℕ) (p : Plan)
      → Sources c 22
      → plan c out mm file addr len prot flags 0 pgoff ≡ ok p
      → Sound out len p
  unfolding plan plan_at
  plan-Sound file addr len prot flags pgoff p sources same =
      let (_, a) = passes (len == 0) einval _ p same in
      let (some_len, b) = passes (page_align len == 0) enomem _ p a in
      let (_, d) = passes (ltb (add64 pgoff (pages (page_align len))) pgoff) eoverflow _ p b in
      let (_, e) = passes (ltb out.max_map_count mm.map_count) enomem _ p d in
      let (at, found, f) =
        chained _
          (plan_at c out mm file (page_align len) (full_prot c out mm file prot) flags 0 pgoff) p
          e in
      let (fits, al) =
        get_task_unmapped_area_lem file
          (if has flags map_fixed then addr else round_hint_to_min c addr) (page_align len) pgoff
          flags at found in
      let (_, g) = passes (has flags map_locked && not c.can_do_mlock) eperm _ p f in
      let (_, h) =
        passes
          (is_some (
            mlock_future_check c out mm
              (first_flags c out mm (full_prot c out mm file prot) flags 0) (page_align len)))
          eagain _ p g in
      let (same_addr, same_len, clear) =
        typed_lem file at (page_align len) (full_prot c out mm file prot) flags pgoff _ 22 p
          (first-Clear 22 (full_prot c out mm file prot) flags 0 sources refl refl) refl refl h in
      record {
        aligned = rw same_addr al;
        whole = same_len;
        long = ground (arith, some_len, same_len);
        fits = rw (same_addr, same_len) fits;
        small = ap (λ (b : ℕ). b != 0) clear;
      }
