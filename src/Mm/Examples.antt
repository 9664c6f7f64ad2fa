-- ===== src/Mm/Examples.antt =====
-- Examples for src/mm/mprotect.c, `mmap_task_region` of src/mm/mmap.c and the requests that use them.
use zso_ptrace.Base.{◌≡◌, refl, true, false, none, some, arith}
use zso_ptrace.Base.Run.{Ends}
use zso_ptrace.Errno.{ok}
use zso_ptrace.Mm.Scene.{outside_world, two_areas, two_areas-IsWell}
use zso_ptrace.Mm.Protect.{Resources}
use zso_ptrace.Mm.Mprotect.{Policy}
use zso_ptrace.Mm.Mprotected.{Mprotected}
use zso_ptrace.Mm.Region.{Mapper, mmap_task_region}
use zso_ptrace.Mm.Mapped.{Keeps}
use zso_ptrace.Mm.MmapRegion.{Laying, mmap_task_region-Laying}
use zso_ptrace.Ptrace.Protection.{Setting}

abbrev pub ample : Resources
ample = record {
  singular = λ v. true;
  limits = record {
    rlimit_as = 0x10000000;
    rlimit_data = 0x10000000;
    rlimit_data_max = 0x10000000;
    ignore_rlimit_data = false;
  };
  enough_memory = λ n. true;
}

abbrev lenient : Policy
lenient = record {
  validate_prot = λ prot. true;
  pkey_is_allocated = λ key. false;
  override_pkey = λ v prot key. 0;
  prot_bits = λ prot key. prot;
  pkey_flags = 0;
  file_mprotect = λ v reqprot prot. none;
}

abbrev setting : Setting
setting = record { out = outside_world; res = ample; pol = lenient; implies_exec = false }

abbrev pub drivers : Mapper
drivers = record {
  is_file_hugepages = λ f. false;
  deny_write_access = λ f. none;
  map_writable = λ f. none;
  file_mmap = λ f v. ok v;
  zero_setup = λ v. ok v;
  alloc_area = true;
  is_gate = λ v. false;
}

pub drivers-Keeps : Keeps drivers
drivers-Keeps = record {
  mmap = λ f v w same. let is : v ≡ w = ground (arith, same) in (rw is refl, rw is refl);
  zero = λ v w same. let is : v ≡ w = ground (arith, same) in (rw is refl, rw is refl);
  gate = λ v. refl;
}

mmap_task_region-Laying_example :
    Ends
      (λ r u. Laying outside_world ample drivers (some 3) 0x3000 0x3000 0x73 2 two_areas.mm r u.mm)
      (mmap_task_region outside_world ample drivers (some 3) 0x3000 0x3000 0x73 2 two_areas)
mmap_task_region-Laying_example =
    mmap_task_region-Laying outside_world ample drivers drivers-Keeps (some 3) 0x3000 0x3000 0x73 2
      refl refl (omega arith) (omega arith) (omega arith) refl two_areas two_areas-IsWell
      (omega arith, (omega arith, tt))
