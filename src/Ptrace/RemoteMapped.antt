-- ===== src/Ptrace/RemoteMapped.antt =====
-- What `ptrace_remote_mmap` of src/kernel/ptrace.c does to the address spaces.
use mathlib.Core.Path.{fun_ext}
use zso_ptrace.Base.{
  ℕ, ◌+◌, ◌/◌, ◌^◌, ◌≤◌, ◌≡◌, refl, sym, ap, subst, Bool, true, false, not, ◌&&◌, ◌||◌, Option,
  none, some, ltb, ◌==◌, bit_and, if◌then◌else◌, arith,
}
use zso_ptrace.Base.Run.{Ends, ends, then-Ends, weaken}
use zso_ptrace.Base.Branch.{if-Ends}
use zso_ptrace.Errno.{Errno, einval, Ret, ok, err}
use zso_ptrace.Mm.Area.{
  add64, pages, page_align, offset_in_page, has, got_file, Event, Mm, MmState, tell,
}
use zso_ptrace.Mm.Counted.{IsWell}
use zso_ptrace.Mm.Searched.{EndsBy}
use zso_ptrace.Mm.After.{top_address}
use zso_ptrace.Mm.Mapped.{Keeps}
use zso_ptrace.Mm.Planned.{Sources}
use zso_ptrace.Mm.TaskMmap.{do_task_mmap-TaskMapped}
use zso_ptrace.Ptrace.Memory.{Spaces, Cmd, on, put_space, back-Ends}
use zso_ptrace.Ptrace.Mapping.{
  map_anonymous, map_hugetlb, align, RemoteMmap, MmapSetting, populate_caller, secured_mmap,
  vm_mmap_remote, put_after, kept_flags, file_len, map_opened, with_file, with_setup, with_size,
  do_mmap_remote, copy_back, remote_mmap,
}
use zso_ptrace.Ptrace.MapOutcome.{
  mms, VmMapped, bad_offset, not_allowed, interrupted, through, Requested, no_file, not_huge,
  of_file, no_size, not_set_up, of_huge_pages, of_memory, IsHuge, RemoteMapped, faulted,
  failed_there, answered, unanswered,
}

chosen : (b : Bool) (s t : MmState) → (b ≡ true → s.mm ≡ t.mm) → (if b then s else t).mm ≡ t.mm
chosen true s t same = same refl
chosen false s t same = refl

put_same :
    (i : ℕ) (s : MmState) (w : Spaces) → s.mm ≡ (w.space i).mm → mms (put_space i s w) ≡ mms w
put_same i s w same = fun_ext (λ j.
    chosen (j == i) s (w.space j) (λ is. let here : j ≡ i = ground (arith, is) in rw here same))

tell-same : (i : ℕ) (e : Event) (w : Spaces) → Ends (λ _ u. mms u ≡ mms w) (on i (tell e) w)
tell-same i e w = ends (put_same i _ w refl)

populate-same :
    (caller n : ℕ) (r : Ret ℕ) (w : Spaces)
    → Ends (λ q u. (q ≡ r) × (mms u ≡ mms w)) (populate_caller caller (r, n) w)
unfolding populate_caller
populate-same caller n (err e) w = ends (refl, refl)
populate-same caller n (ok a) w = ends (refl, put_same caller _ w refl)

module _ (k : MmapSetting) (caller child : ℕ) (keeps : Keeps k.mapper)
    (sources : Sources k.calls 22) (room : k.out.task_size + 4096 ≤ 2 ^ 64) where
  secured-VmMapped :
      (file : Option ℕ) (addr len prot flag offset : ℕ) (o : Option Errno) (w : Spaces)
      → (ltb (add64 offset (page_align len)) offset || offset_in_page offset) ≡ false
      → k.mmap_file file prot flag ≡ o
      → IsWell (mms w child)
      → EndsBy top_address (mms w child).mmap
      → Ends
          (λ r u. VmMapped k child file addr len prot flag offset (mms w) r (mms u))
          (secured_mmap k caller child file addr len prot flag (pages offset) o w)
  unfolding secured_mmap
  secured-VmMapped file addr len prot flag offset (some e) w fits is well ended =
      ends (not_allowed fits is)
  secured-VmMapped file addr len prot flag offset none w fits is well ended =
      if-Ends k.killed _ _ w (λ dies. ends (interrupted fits is dies))
        (λ lives.
          then-Ends
            (back-Ends child w (
              do_task_mmap-TaskMapped k.out k.res k.mapper k.calls keeps sources room file addr len
                prot flag (pages offset) (w.space child) well ended))
            (λ (r, n) u (there, others).
              weaken
                (λ q z (same, kept).
                  subst (λ q. VmMapped k child file addr len prot flag offset (mms w) q (mms z))
                    (sym same)
                    (subst (VmMapped k child file addr len prot flag offset (mms w) r) (sym kept)
                      (through fits is lives there (λ i ne. ap (λ s. s.mm) (others i ne)))))
                (populate-same caller n r u)))

  vm_mmap_remote-VmMapped :
      (file : Option ℕ) (addr len prot flag offset : ℕ) (w : Spaces)
      → IsWell (mms w child)
      → EndsBy top_address (mms w child).mmap
      → Ends
          (λ r u. VmMapped k child file addr len prot flag offset (mms w) r (mms u))
          (vm_mmap_remote k caller child file addr len prot flag offset w)
  unfolding vm_mmap_remote
  vm_mmap_remote-VmMapped file addr len prot flag offset w well ended =
      if-Ends (ltb (add64 offset (page_align len)) offset) _ _ w
        (λ wraps. ends (bad_offset (rw wraps refl)))
        (λ straight.
          if-Ends (offset_in_page offset) _ _ w
            (λ inside. ends (bad_offset (rw (straight, inside) refl)))
            (λ at_page.
              secured-VmMapped file addr len prot flag offset _ w (rw (straight, at_page) refl) refl
                well ended))

  put_after-Ends :
      (P : Ret ℕ → (ℕ → Mm) → Type 0) (f : ℕ) (act : Cmd (Ret ℕ)) (w : Spaces)
      → Ends (λ r u. P r (mms u)) (act w)
      → Ends (λ r u. P r (mms u)) (put_after k caller child f act w)
  unfolding put_after
  put_after-Ends P f act w run =
      then-Ends run (λ r u p. ends (subst (P r) (sym (put_same caller _ u refl)) p))

  abbrev Done : (addr len prot flags fd offset : ℕ) → Spaces → Ret ℕ → Spaces → Type 0
  Done addr len prot flags fd offset w r u =
      Requested k caller child addr len prot flags fd offset (mms w) r (mms u)

  map_opened-Requested :
      (f addr len prot flags fd offset : ℕ) (w v : Spaces)
      → mms v ≡ mms w
      → has flags map_anonymous ≡ false
      → k.fget fd ≡ some f
      → IsWell (mms v child)
      → EndsBy top_address (mms v child).mmap
      → Ends
          (Done addr len prot flags fd offset w)
          (map_opened k caller child f addr len prot flags offset v)
  unfolding map_opened
  map_opened-Requested f addr len prot flags fd offset w v same named is well ended =
      if-Ends (has flags map_hugetlb && not (k.mapper.is_file_hugepages f)) _ _ v
        (λ wrong. ends (
          subst (Requested k caller child addr len prot flags fd offset (mms w) (err einval))
            (sym same) (not_huge f named is wrong)))
        (λ right.
          weaken
            (λ r u p. of_file f named is right (
              subst
                (λ m.
                  VmMapped k child (some f) addr (file_len k caller child f len) prot
                    (kept_flags k caller child flags) offset m r (mms u))
                same p))
            (vm_mmap_remote-VmMapped (some f) addr (file_len k caller child f len) prot
              (kept_flags k caller child flags) offset v well ended))

  with_file-Requested :
      (o : Option ℕ) (addr len prot flags fd offset : ℕ) (w : Spaces)
      → has flags map_anonymous ≡ false
      → k.fget fd ≡ o
      → IsWell (mms w child)
      → EndsBy top_address (mms w child).mmap
      → Ends
          (Done addr len prot flags fd offset w)
          (with_file k caller child o addr len prot flags offset w)
  unfolding with_file
  with_file-Requested none addr len prot flags fd offset w named is well ended =
      ends (no_file named is)
  with_file-Requested (some f) addr len prot flags fd offset w named is well ended =
      then-Ends (tell-same caller (got_file f) w) (λ _ v same.
        put_after-Ends (Requested k caller child addr len prot flags fd offset (mms w)) f
          (map_opened k caller child f addr len prot flags offset) v
          (map_opened-Requested f addr len prot flags fd offset w v same named is
            (subst (λ m. IsWell (m child)) (sym same) well)
            (subst (λ m. EndsBy top_address (m child).mmap) (sym same) ended)))

  with_setup-Requested :
      (size addr len prot flags fd offset : ℕ) (o : Ret ℕ) (w : Spaces)
      → IsHuge flags
      → k.sizelog (bit_and (flags / 2 ^ 26) 0x3f) ≡ some size
      → k.hugetlb_file_setup (align len size) (bit_and (flags / 2 ^ 26) 0x3f) ≡ o
      → IsWell (mms w child)
      → EndsBy top_address (mms w child).mmap
      → Ends
          (Done addr len prot flags fd offset w)
          (with_setup k caller child o addr (align len size) prot flags offset w)
  unfolding with_setup
  with_setup-Requested size addr len prot flags fd offset (err e) w huge sized is well ended =
      ends (not_set_up size huge sized is)
  with_setup-Requested size addr len prot flags fd offset (ok f) w huge sized is well ended =
      put_after-Ends (Requested k caller child addr len prot flags fd offset (mms w)) f _ w (
        weaken (λ r u p. of_huge_pages f size huge sized is p)
          (vm_mmap_remote-VmMapped (some f) addr (align len size) prot
            (kept_flags k caller child flags) offset w well ended))

  with_size-Requested :
      (o : Option ℕ) (addr len prot flags fd offset : ℕ) (w : Spaces)
      → IsHuge flags
      → k.sizelog (bit_and (flags / 2 ^ 26) 0x3f) ≡ o
      → IsWell (mms w child)
      → EndsBy top_address (mms w child).mmap
      → Ends
          (Done addr len prot flags fd offset w)
          (with_size k caller child o addr len prot flags offset w)
  unfolding with_size
  with_size-Requested none addr len prot flags fd offset w huge is well ended =
      ends (no_size huge is)
  with_size-Requested (some size) addr len prot flags fd offset w huge is well ended =
      with_setup-Requested size addr len prot flags fd offset _ w huge is refl well ended

  do_mmap_remote-Requested :
      (addr len prot flags fd offset : ℕ) (w : Spaces)
      → IsWell (mms w child)
      → EndsBy top_address (mms w child).mmap
      → Ends
          (Done addr len prot flags fd offset w)
          (do_mmap_remote k caller child addr len prot flags fd offset w)
  unfolding do_mmap_remote
  do_mmap_remote-Requested addr len prot flags fd offset w well ended =
      if-Ends (not (has flags map_anonymous)) _ _ w
        (λ named.
          with_file-Requested _ addr len prot flags fd offset w (ground (arith, named)) refl well
            ended)
        (λ memory.
          if-Ends (has flags map_hugetlb) _ _ w
            (λ large.
              with_size-Requested _ addr len prot flags fd offset w (ground (arith, memory), large)
                refl well ended)
            (λ small.
              weaken (λ r u p. of_memory (ground (arith, memory)) small p)
                (vm_mmap_remote-VmMapped none addr len prot (kept_flags k caller child flags) offset
                  w well ended)))

  copy_back-RemoteMapped :
      (args : RemoteMmap) (r : Ret ℕ) (w u : Spaces)
      → Done args.addr args.length args.prot args.flags args.fd args.offset w r u
      → Ends
          (λ q z. RemoteMapped k caller child (mms w) (some args) q (mms z))
          (copy_back k caller child r u)
  unfolding copy_back
  copy_back-RemoteMapped args (err e) w u p = ends (failed_there p)
  copy_back-RemoteMapped args (ok a) w u p =
      if-Ends k.copied_back _ _ u (λ copies. ends (answered copies p))
        (λ lost. ends (unanswered lost p))

  -- Where the areas of the child are laid out in order, counted right and end below the top, no
  -- flag from the protection, the request or the defaults of the address space is VM_HUGETLB, and
  -- drivers keep the range of the area they set up, ptrace_remote_mmap meets no BUG. EFAULT for
  -- unreadable arguments, EBADF for a descriptor of the caller without a file, EINVAL for huge
  -- pages that the file or the machine does not have and for a bad offset, the error of
  -- hugetlb_file_setup or security_mmap_file, and EINTR leave every address space as it was. With
  -- none of these the child's is left as a check of do_task_mmap that gives an error or a call of
  -- mmap_task_region is stated to leave it, every other is unchanged, and an address that cannot
  -- be copied back is EFAULT with the mapping made.
  pub remote_mmap-RemoteMapped :
      (args : Option RemoteMmap) (w : Spaces)
      → IsWell (mms w child)
      → EndsBy top_address (mms w child).mmap
      → Ends
          (λ r u. RemoteMapped k caller child (mms w) args r (mms u))
          (remote_mmap k caller child args w)
  unfolding remote_mmap
  remote_mmap-RemoteMapped none w well ended = ends faulted
  remote_mmap-RemoteMapped (some args) w well ended =
      then-Ends
        (do_mmap_remote-Requested args.addr args.length args.prot args.flags args.fd args.offset w
          well ended)
        (λ r u p. copy_back-RemoteMapped args r w u p)
