-- ===== src/Mm/MapExamples.antt =====
-- Examples for `do_task_mmap` of src/mm/mmap.c, `vma_to_resize_task` of src/mm/mremap.c and `ptrace_remote_mmap` of src/kernel/ptrace.c.
use zso_ptrace.Base.{◌≡◌, refl, inr, true, false, none, some, bit_and, arith}
use zso_ptrace.Base.Bits.{clear_bit_and}
use zso_ptrace.Base.Run.{Ends}
use zso_ptrace.Errno.{ok}
use zso_ptrace.Mm.Area.{is_data_mapping}
use zso_ptrace.Mm.Split.{find_vma}
use zso_ptrace.Mm.Count.{may_expand_vm}
use zso_ptrace.Mm.Resize.{
  vma_to_resize_task, resize_found, resize_area, resize_charged, Resizable,
  vma_to_resize_task-Resizable,
}
use zso_ptrace.Mm.Scene.{heap_area, outside_world, two_areas, two_areas-IsWell}
use zso_ptrace.Mm.Plan.{
  Calls, Plan, plan, get_task_unmapped_area, plan_at, typed, file_flags, shared_file, private_file,
  mlock_future_check, round_hint_to_min,
}
use zso_ptrace.Mm.Planned.{Sources, Sound, plan-Sound}
use zso_ptrace.Mm.Permits.{Permits, plan-Permits}
use zso_ptrace.Mm.Examples.{ample, drivers, drivers-Keeps}
use zso_ptrace.Ptrace.Memory.{Spaces}
use zso_ptrace.Ptrace.Mapping.{RemoteMmap, MmapSetting, remote_mmap}
use zso_ptrace.Ptrace.MapOutcome.{mms, RemoteMapped}
use zso_ptrace.Ptrace.RemoteMapped.{remote_mmap-RemoteMapped}

-- Files that are open for reading and writing, and a machine that takes the hint.
abbrev plain_calls : Calls
plain_calls = record {
  files = λ f. record {
    may_read = true;
    may_write = true;
    append_only = false;
    locked = false;
    noexec = false;
    hugepages = false;
    has_mmap = true;
    get_area = none;
  };
  implies_exec = false;
  mmap_min_addr = 0x10000;
  mm_area = λ m file addr len pgoff flags. ok addr;
  shmem_area = λ m addr len pgoff flags. ok addr;
  arch_mmap_check = λ addr len flags. none;
  mmap_addr = λ addr. none;
  execute_only_pkey = none;
  prot_bits = λ prot key. bit_and prot 0x7;
  flag_bits = λ flags. bit_and flags 0x2100;
  def_flags = 0;
  can_do_mlock = true;
  rlimit_memlock = 0x10000;
  ipc_lock = false;
  overcommit_never = false;
}

without_huge : Sources plain_calls 22
without_huge = (
  λ prot key. clear_bit_and 22 prot 0x7 (inr refl),
  λ flags. clear_bit_and 22 flags 0x2100 (inr refl),
  refl,
)

without_shared : Sources plain_calls 3
without_shared = (
  λ prot key. clear_bit_and 3 prot 0x7 (inr refl),
  λ flags. clear_bit_and 3 flags 0x2100 (inr refl),
  refl,
)

abbrev shared_plan : Plan
shared_plan = record { addr = 0x20000; len = 0x1000; vm_flags = 0xfb; pgoff = 1 }

shared_plan_lem :
    plan plain_calls outside_world two_areas.mm (some 3) 0x20000 0xfff 0x3 0x1 0 1 ≡ ok shared_plan
unfolding plan get_task_unmapped_area plan_at typed file_flags shared_file private_file
    mlock_future_check round_hint_to_min
shared_plan_lem = refl

plan-Sound_example : Sound outside_world 0xfff shared_plan
plan-Sound_example =
    plan-Sound plain_calls outside_world two_areas.mm (some 3) 0x20000 0xfff 0x3 0x1 1 shared_plan
      without_huge shared_plan_lem

plan-Permits_example : Permits (plain_calls.files 3) 0x1 0xfb
plan-Permits_example =
    plan-Permits plain_calls outside_world two_areas.mm 3 0x20000 0xfff 0x3 0x1 1 shared_plan
      without_shared shared_plan_lem

abbrev mmap_setting : MmapSetting
mmap_setting = record {
  out = outside_world;
  res = ample;
  mapper = drivers;
  calls = plain_calls;
  mmap_file = λ file prot flags. none;
  fget = λ fd. some fd;
  file_page_size = λ f. 0x200000;
  sizelog = λ size. none;
  hugetlb_file_setup = λ len size. ok 9;
  killed = false;
  copied_back = true;
}

abbrev spaces : Spaces
spaces = record { space = λ i. two_areas }

abbrev mmap_args : RemoteMmap
mmap_args = record {
  addr = 0x20000;
  length = 0xfff;
  prot = 0x3;
  flags = 0x1;
  fd = 3;
  offset = 0x1000;
}

remote_mmap-RemoteMapped_example :
    Ends
      (λ r u. RemoteMapped mmap_setting 1 7 (mms spaces) (some mmap_args) r (mms u))
      (remote_mmap mmap_setting 1 7 (some mmap_args) spaces)
remote_mmap-RemoteMapped_example =
    remote_mmap-RemoteMapped mmap_setting 1 7 drivers-Keeps without_huge (omega arith)
      (some mmap_args) spaces two_areas-IsWell (omega arith, (omega arith, tt))

grown_heap_lem :
    vma_to_resize_task ample 0x10000 false two_areas.mm 0x1000 0x3000 0x4000 ≡ ok (heap_area, 0)
unfolding vma_to_resize_task resize_found resize_area resize_charged find_vma may_expand_vm
    is_data_mapping
grown_heap_lem = refl

vma_to_resize_task-Resizable_example :
    Resizable ample 0x10000 false two_areas.mm 0x1000 0x3000 0x4000 heap_area 0
vma_to_resize_task-Resizable_example =
    vma_to_resize_task-Resizable ample 0x10000 false two_areas.mm 0x1000 0x3000 0x4000 heap_area 0
      grown_heap_lem
