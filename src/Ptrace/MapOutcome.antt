-- ===== src/Ptrace/MapOutcome.antt =====
-- How `ptrace_remote_mmap` of src/kernel/ptrace.c, `do_mmap_remote` and `vm_mmap_remote` leave the address spaces.
use zso_ptrace.Base.{
  ℕ, ◌/◌, ◌^◌, ◌≡◌, ◌≢◌, true, false, not, ◌&&◌, ◌||◌, Option, none, some, ltb, bit_and,
}
use zso_ptrace.Errno.{Errno, ebadf, efault, eintr, einval, Ret, ok, err}
use zso_ptrace.Mm.Area.{add64, pages, page_align, offset_in_page, has, Mm}
use zso_ptrace.Mm.TaskMmap.{TaskMapped}
use zso_ptrace.Ptrace.Memory.{Spaces}
use zso_ptrace.Ptrace.Mapping.{
  map_anonymous, map_hugetlb, align, RemoteMmap, MmapSetting, kept_flags, file_len,
}

-- The address spaces without the logs.
abbrev pub mms : Spaces → ℕ → Mm
mms w i = (w.space i).mm

-- How `vm_mmap_remote` leaves the address spaces.
pub data VmMapped (k : MmapSetting) (child : ℕ) (file : Option ℕ) (addr len prot flag offset : ℕ)
    (m : ℕ → Mm) : Ret ℕ → (ℕ → Mm) → Type 0 where
  bad_offset :
      (ltb (add64 offset (page_align len)) offset || offset_in_page offset) ≡ true
      → VmMapped k child file addr len prot flag offset m (err einval) m
  not_allowed :
      {e : Errno}
      → (ltb (add64 offset (page_align len)) offset || offset_in_page offset) ≡ false
      → k.mmap_file file prot flag ≡ some e
      → VmMapped k child file addr len prot flag offset m (err e) m
  interrupted :
      (ltb (add64 offset (page_align len)) offset || offset_in_page offset) ≡ false
      → k.mmap_file file prot flag ≡ none
      → k.killed ≡ true
      → VmMapped k child file addr len prot flag offset m (err eintr) m
  through :
      {r : Ret ℕ} {populate : ℕ} {n : ℕ → Mm}
      → (ltb (add64 offset (page_align len)) offset || offset_in_page offset) ≡ false
      → k.mmap_file file prot flag ≡ none
      → k.killed ≡ false
      → TaskMapped k.out k.res k.mapper k.calls file addr len prot flag
          (pages offset)
          (m child)
          (r, populate)
          (n child)
      → ((i : ℕ) → i ≢ child → n i ≡ m i)
      → VmMapped k child file addr len prot flag offset m r n

-- A request for huge pages without a file.
abbrev pub IsHuge : ℕ → Type 0
IsHuge flags = (has flags map_anonymous ≡ true) × (has flags map_hugetlb ≡ true)

-- How `do_mmap_remote` leaves them.
pub data Requested (k : MmapSetting) (caller child addr len prot flags fd offset : ℕ) (m : ℕ → Mm)
    : Ret ℕ → (ℕ → Mm) → Type 0 where
  no_file :
      has flags map_anonymous ≡ false
      → k.fget fd ≡ none
      → Requested k caller child addr len prot flags fd offset m (err ebadf) m
  not_huge :
      (f : ℕ)
      → has flags map_anonymous ≡ false
      → k.fget fd ≡ some f
      → (has flags map_hugetlb && not (k.mapper.is_file_hugepages f)) ≡ true
      → Requested k caller child addr len prot flags fd offset m (err einval) m
  of_file :
      (f : ℕ) {r : Ret ℕ} {n : ℕ → Mm}
      → has flags map_anonymous ≡ false
      → k.fget fd ≡ some f
      → (has flags map_hugetlb && not (k.mapper.is_file_hugepages f)) ≡ false
      → VmMapped k child
          (some f)
          addr
          (file_len k caller child f len)
          prot
          (kept_flags k caller child flags)
          offset
          m
          r
          n
      → Requested k caller child addr len prot flags fd offset m r n
  no_size :
      IsHuge flags
      → k.sizelog (bit_and (flags / 2 ^ 26) 0x3f) ≡ none
      → Requested k caller child addr len prot flags fd offset m (err einval) m
  not_set_up :
      (size : ℕ) {e : Errno}
      → IsHuge flags
      → k.sizelog (bit_and (flags / 2 ^ 26) 0x3f) ≡ some size
      → k.hugetlb_file_setup (align len size) (bit_and (flags / 2 ^ 26) 0x3f) ≡ err e
      → Requested k caller child addr len prot flags fd offset m (err e) m
  of_huge_pages :
      (f size : ℕ) {r : Ret ℕ} {n : ℕ → Mm}
      → IsHuge flags
      → k.sizelog (bit_and (flags / 2 ^ 26) 0x3f) ≡ some size
      → k.hugetlb_file_setup (align len size) (bit_and (flags / 2 ^ 26) 0x3f) ≡ ok f
      → VmMapped k child
          (some f)
          addr
          (align len size)
          prot
          (kept_flags k caller child flags)
          offset
          m
          r
          n
      → Requested k caller child addr len prot flags fd offset m r n
  of_memory :
      {r : Ret ℕ} {n : ℕ → Mm}
      → has flags map_anonymous ≡ true
      → has flags map_hugetlb ≡ false
      → VmMapped k child none addr len prot (kept_flags k caller child flags) offset m r n
      → Requested k caller child addr len prot flags fd offset m r n

-- And the request.
pub data RemoteMapped (k : MmapSetting) (caller child : ℕ) (m : ℕ → Mm)
    : Option RemoteMmap → Ret ℕ → (ℕ → Mm) → Type 0 where
  faulted : RemoteMapped k caller child m none (err efault) m
  failed_there :
      {args : RemoteMmap} {e : Errno} {n : ℕ → Mm}
      → Requested k caller child args.addr args.length args.prot args.flags args.fd args.offset m
          (err e)
          n
      → RemoteMapped k caller child m (some args) (err e) n
  answered :
      {args : RemoteMmap} {at : ℕ} {n : ℕ → Mm}
      → k.copied_back ≡ true
      → Requested k caller child args.addr args.length args.prot args.flags args.fd args.offset m
          (ok at)
          n
      → RemoteMapped k caller child m (some args) (ok at) n
  unanswered :
      {args : RemoteMmap} {at : ℕ} {n : ℕ → Mm}
      → k.copied_back ≡ false
      → Requested k caller child args.addr args.length args.prot args.flags args.fd args.offset m
          (ok at)
          n
      → RemoteMapped k caller child m (some args) (err efault) n
