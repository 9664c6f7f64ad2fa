-- ===== src/Mm/Tests.antt =====
-- Runs of src/mm/mmap.c on an address space of two areas.
use zso_ptrace.Base.{◌≡◌, ◌+◌, ◌≤◌, refl, false, true, none, some, [], ◌∷◌, arith}
use mathlib.Core.Option.{map}
use zso_ptrace.Mm.Laid.{IsLaid, mapping_at}
use zso_ptrace.Mm.Split.{find_vma, insert_vma}
use zso_ptrace.Mm.Tree.{Tree, leaf, node, areas, find_vma_tree, find_vma_links, vma_link_rb}
use zso_ptrace.Mm.Searched.{find_vma_tree-list}
use zso_ptrace.Mm.Placed.{find_vma_links-insert_vma}
use zso_ptrace.Mm.Merge.{Request, vma_merge}
use zso_ptrace.Mm.Agrees.{Fits}
use zso_ptrace.Mm.Fitting.{free}
use zso_ptrace.Mm.Merges.{beyond, here, vma_merge-Fits}
use zso_ptrace.Ptrace.Memory.{remote_munmap, Munmapped, remote_munmap-Munmapped}
use zso_ptrace.Mm.Count.{
  Limits, has_room, may_expand_vm, count_vma_pages_range, count_from, count_rest,
}
use zso_ptrace.Mm.Removed.{high}
use zso_ptrace.Mm.Room.{has_room-bound}
use zso_ptrace.Base.Run.{Ends}
use zso_ptrace.Mm.Area.{Vma, Mm, pages, is_data_mapping, vma_pages}
use zso_ptrace.Mm.Unmap.{length}
use zso_ptrace.Mm.Counted.{total_pages}
use zso_ptrace.Mm.Outcome.{Unmapping, taken}
use zso_ptrace.Mm.Scene.{outside_world, heap_area, file_area, two_areas, two_areas-IsWell}

abbrev two_nodes : Tree
two_nodes = node (node leaf heap_area leaf) file_area leaf

two_nodes-IsLaid : IsLaid 0 (areas two_nodes)
unfolding areas
two_nodes-IsLaid = two_areas-IsWell.laid

find_vma_tree-list_example : find_vma_tree none two_nodes 0x4500 ≡ find_vma (areas two_nodes) 0x4500
find_vma_tree-list_example = find_vma_tree-list none two_nodes 0 0x4500 tt two_nodes-IsLaid

abbrev new_area : Vma
new_area = record heap_area { vm_start = 0x4000; vm_end = 0x5000 }

find_vma_links-insert_vma_example :
    map
      (λ k. areas (vma_link_rb new_area two_nodes k.link))
      (find_vma_links two_nodes 0x4000 0x5000 none)
    ≡ insert_vma new_area (areas two_nodes)
find_vma_links-insert_vma_example =
    find_vma_links-insert_vma two_nodes new_area 0 none two_nodes-IsLaid

-- A page behind the first area, which they continue.
abbrev more_heap : Request
more_heap = record {
  addr = 0x4000;
  end = 0x5000;
  vm_flags = 0x73;
  anon_vma = none;
  file = none;
  pgoff = 3;
  policy = 0;
  userfaultfd = 0;
}

vma_merge-Fits_example :
    Fits more_heap 0 two_areas.mm.mmap
      (vma_merge outside_world (λ v. true) (some 0x1000) more_heap two_areas.mm.mmap)
vma_merge-Fits_example =
    vma_merge-Fits outside_world (λ v. true) more_heap refl refl (omega arith) (omega arith)
      (some 0x1000) two_areas.mm.mmap two_areas-IsWell.laid (omega arith, (omega arith, tt))
      (here refl (beyond (omega arith) (free (omega arith))))

remote_munmap-Munmapped_example :
    Ends
      (λ r u.
        Munmapped outside_world false 7
          (record { space = λ i. two_areas })
          (some (record { addr = 0x2000; length = 0x4000 }))
          r
          u)
      (remote_munmap outside_world false 7
        (some (record { addr = 0x2000; length = 0x4000 }))
        (record { space = λ i. two_areas }))
remote_munmap-Munmapped_example =
    remote_munmap-Munmapped outside_world false 7 (some (record { addr = 0x2000; length = 0x4000 }))
      (record { space = λ i. two_areas }) (omega arith) two_areas-IsWell

-- The address space without its first area, and a limit of six pages.
abbrev file_only : Mm
file_only = record (two_areas.mm) {
  mmap = file_area ∷ [];
  map_count = 1;
  total_vm = 3;
  data_vm = 3;
}

file_only-Unmapping : Unmapping outside_world 0x1000 0x4000 two_areas.mm none file_only
unfolding mapping_at length total_pages vma_pages count_vma_pages_range count_from count_rest high
file_only-Unmapping =
    taken
      (record {
        laid = (omega arith, omega arith, refl, refl, tt);
        counted = refl;
        total = refl;
        bounded = omega arith;
      })
      (λ x. ground arith) refl

abbrev six_pages : Limits
six_pages = record {
  rlimit_as = 0x6000;
  rlimit_data = 0x6000;
  rlimit_data_max = 0x6000;
  ignore_rlimit_data = false;
}

has_room-bound_example : file_only.total_vm + pages 0x3000 ≤ pages six_pages.rlimit_as
unfolding has_room may_expand_vm is_data_mapping count_vma_pages_range count_from count_rest high
has_room-bound_example =
    has_room-bound six_pages outside_world two_areas.mm file_only 0x1000 0x3000 0x3 (omega arith)
      (omega arith) file_only-Unmapping refl
