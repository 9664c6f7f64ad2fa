-- ===== src/Mm/Mprotected.antt =====
-- `do_mprotect_pkey_task` of src/mm/mprotect.c on an address space.
use zso_ptrace.Base.{
  ℕ, ◌+◌, ◌%◌, ◌≤◌, ◌<◌, ◌≡◌, ◌≢◌, Bool, true, false, ◌&&◌, Option, none, some, bit_and,
}
use zso_ptrace.Errno.{Errno, einval, enomem, eintr}
use zso_ptrace.Mm.Area.{add64, page_align, has, without, vm_growsdown, Vma, Mm, MmState, Outside}
use zso_ptrace.Mm.Split.{find_vma}
use zso_ptrace.Mm.Counted.{IsWell}
use zso_ptrace.Mm.Searched.{EndsBy}
use zso_ptrace.Mm.After.{top_address}
use zso_ptrace.Mm.Agrees.{soft_at}
use zso_ptrace.Mm.Protect.{Resources}
use zso_ptrace.Mm.Mprotect.{prot_read, prot_growsdown, prot_growsup, Policy}
use zso_ptrace.Mm.Changed.{Protected}

-- Why a call is refused without a change.
pub data Refusal (pol : Policy) (killed : Bool) (start len prot : ℕ) (pkey : Option ℕ) (m : Mm)
    : Errno → Type 0 where
  both_ways :
      bit_and prot (prot_growsdown + prot_growsup) ≡ prot_growsdown + prot_growsup
      → Refusal pol killed start len prot pkey m einval
  unaligned : start % 4096 ≢ 0 → Refusal pol killed start len prot pkey m einval
  wraps : add64 start (page_align len) ≤ start → Refusal pol killed start len prot pkey m enomem
  bad_prot :
      pol.validate_prot (without prot (prot_growsdown + prot_growsup)) ≡ false
      → Refusal pol killed start len prot pkey m einval
  interrupted : killed ≡ true → Refusal pol killed start len prot pkey m eintr
  no_key :
      (key : ℕ)
      → pkey ≡ some key
      → pol.pkey_is_allocated key ≡ false
      → Refusal pol killed start len prot pkey m einval
  unmapped : soft_at m.mmap start ≡ none → Refusal pol killed start len prot pkey m enomem
  not_down :
      (v : Vma)
      → find_vma m.mmap start ≡ some v
      → has (bit_and prot (prot_growsdown + prot_growsup)) prot_growsdown ≡ true
      → has v.vm_flags vm_growsdown ≡ false
      → Refusal pol killed start len prot pkey m einval
  not_up :
      has (bit_and prot (prot_growsdown + prot_growsup)) prot_growsup ≡ true
      → Refusal pol killed start len prot pkey m einval

-- Where the range begins: as asked, or at the beginning of a stack.
pub data Begins (m : Mm) (start len prot : ℕ) (from : ℕ) : Type 0 where
  as_asked :
      (v : Vma)
      → find_vma m.mmap start ≡ some v
      → v.vm_start ≤ start
      → has (bit_and prot (prot_growsdown + prot_growsup)) prot_growsdown ≡ false
      → has (bit_and prot (prot_growsdown + prot_growsup)) prot_growsup ≡ false
      → from ≡ start
      → Begins m start len prot from
  at_stack :
      (v : Vma)
      → find_vma m.mmap start ≡ some v
      → v.vm_start < add64 start (page_align len)
      → has (bit_and prot (prot_growsdown + prot_growsup)) prot_growsdown ≡ true
      → has v.vm_flags vm_growsdown ≡ true
      → from ≡ v.vm_start
      → Begins m start len prot from

-- No test on the arguments fails.
pub record Accepted (pol : Policy) (killed : Bool) (start len prot : ℕ) (pkey : Option ℕ)
    : Type 0 where
  pub one_way : bit_and prot (prot_growsdown + prot_growsup) ≢ prot_growsdown + prot_growsup
  pub aligned : start % 4096 ≡ 0
  pub long : len ≢ 0
  pub straight : start < add64 start (page_align len)
  pub good_prot : pol.validate_prot (without prot (prot_growsdown + prot_growsup)) ≡ true
  pub waited : killed ≡ false
  pub has_key : (key : ℕ) → pkey ≡ some key → pol.pkey_is_allocated key ≡ true

pub data Mprotected (pol : Policy) (implies_exec killed : Bool) (start len prot : ℕ)
    (pkey : Option ℕ) (m : Mm) : Option Errno → Mm → Type 0 where
  refused :
      {e : Errno} {n : Mm}
      → n ≡ m
      → Refusal pol killed start len prot pkey m e
      → Mprotected pol implies_exec killed start len prot pkey m (some e) n
  empty :
      {n : Mm}
      → n ≡ m
      → bit_and prot (prot_growsdown + prot_growsup) ≢ prot_growsdown + prot_growsup
      → start % 4096 ≡ 0
      → len ≡ 0
      → Mprotected pol implies_exec killed start len prot pkey m none n
  ran :
      {r : Option Errno} {n : Mm} (from : ℕ)
      → Accepted pol killed start len prot pkey
      → Begins m start len prot from
      → Protected pol
          (implies_exec && has prot prot_read)
          pkey
          (without prot (prot_growsdown + prot_growsup))
          from
          m
          (add64 start (page_align len))
          r
          n
      → Mprotected pol implies_exec killed start len prot pkey m r n

module _ (out : Outside) (res : Resources) (pol : Policy) (implies_exec killed : Bool)
    (start len prot : ℕ) (s : MmState) (w : IsWell s.mm)
    (ended : EndsBy top_address s.mm.mmap) where
  abbrev Done : Option ℕ → Option Errno → MmState → Type 0
  Done pkey r u = Mprotected pol implies_exec killed start len prot pkey s.mm r u.mm

  abbrev rier : Bool
  rier = implies_exec && has prot prot_read

  abbrev grows : ℕ
  grows = bit_and prot (prot_growsdown + prot_growsup)

  abbrev reqprot : ℕ
  reqprot = without prot (prot_growsdown + prot_growsup)

  abbrev end : ℕ
  end = add64 start (page_align len)
