-- ===== src/Mm/Scene.antt =====
-- A concrete machine and address space for the examples of Mm: what stands for code outside src/mm/mmap.c, and an
-- address space with two areas.
use zso_ptrace.Base.{refl, false, true, none, some, [], ◌∷◌, arith}
use zso_ptrace.Mm.Area.{Vma, MmState, Outside, vma_pages}
use zso_ptrace.Mm.Unmap.{length}
use zso_ptrace.Mm.Counted.{IsWell, total_pages}

abbrev pub outside_world : Outside
outside_world = record {
  alloc_vma = λ at. true;
  dup_policy = λ v at. none;
  clone_anon = λ v at. none;
  huge_page_size = λ v. 0x200000;
  max_map_count = 65530;
  task_size = 0x7fffffff000;
}

-- An area without a file and one of a file, of three pages each.
abbrev pub heap_area : Vma
heap_area = record {
  vm_start = 0x1000;
  vm_end = 0x4000;
  vm_flags = 0x73;
  vm_pgoff = 0;
  vm_file = none;
  anon_vma = none;
  policy = 0;
  userfaultfd = 0;
  has_open = false;
  has_close = false;
}

abbrev pub file_area : Vma
file_area = record heap_area { vm_start = 0x5000; vm_end = 0x8000; vm_pgoff = 7; vm_file = some 3 }

abbrev pub two_areas : MmState
two_areas = record {
  mm = record {
    mmap = heap_area ∷ file_area ∷ [];
    map_count = 2;
    locked_vm = 0;
    total_vm = 6;
    exec_vm = 0;
    stack_vm = 0;
    data_vm = 6;
    hiwater_vm = 0;
  };
  log = [];
}

pub two_areas-IsWell : IsWell two_areas.mm
unfolding length total_pages vma_pages
two_areas-IsWell = record {
  laid = (omega arith, omega arith, refl, refl, (omega arith, omega arith, refl, refl, tt));
  counted = refl;
  total = refl;
  bounded = omega arith;
}
