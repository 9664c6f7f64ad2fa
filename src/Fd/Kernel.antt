-- ===== src/Fd/Kernel.antt =====
-- What src/fs/file.c uses and does not define, and the state that its functions pass along: one
-- `files_struct` and the calls that went out, the latest first.
use zso_ptrace.Base.{ℕ, ◌+◌, ◌^◌, ◌≤◌, ◌<◌, ◌≡◌, Bool, true, false, Option, List, ◌∷◌}
use zso_ptrace.Errno.{Ret}
use zso_ptrace.Fd.Table.{File, Bitmap, FilesStruct}

-- The objects that make up a descriptor table and its owner.
pub data Part : Type 0 where
  files : Part
  table : Part
  array : Part
  bitmaps : Part

-- A call to a function outside this tree. `get_file` takes a reference to a file, `fput` and
-- `filp_close` drop one; `alloc` and `free` are the calls to the allocators that succeeded;
-- `lock_pos` and `unlock_pos` are the calls on the mutex `f_pos_lock` of a file.
pub data Call : Type 0 where
  get_file : File → Call
  fput : File → Call
  filp_close : File → Call
  alloc : Part → Call
  free : Part → Call
  lock_pos : File → Call
  unlock_pos : File → Call

pub record FdState : Type 0 where
  pub files : FilesStruct
  pub log : List Call

-- `bug` is a BUG_ON that fires, `hang` a loop that is still running when its fuel is used up.
pub data Run {ℓ} (A : Type ℓ) : Type ℓ where
  done : A → FdState → Run A
  bug : Run A
  hang : Run A

abbrev pub Cmd {ℓ} : Type ℓ → Type ℓ
Cmd A = FdState → Run A

abbrev pub pure {ℓ} : {A : Type ℓ} → A → Cmd A
pure a s = done a s

abbrev pub and_then {ℓ κ} : {A : Type ℓ} {B : Type κ} → Run A → (A → Cmd B) → Run B
and_then (done a s) k = k a s
and_then bug k = bug
and_then hang k = hang

infixl 5 ◌>>=◌ ◌>>◌
abbrev pub ◌>>=◌ {ℓ κ} : {A : Type ℓ} {B : Type κ} → Cmd A → (A → Cmd B) → Cmd B
◌>>=◌ m k s = and_then (m s) k

abbrev pub ◌>>◌ {ℓ κ} : {A : Type ℓ} {B : Type κ} → Cmd A → Cmd B → Cmd B
◌>>◌ m k s = and_then (m s) (λ _. k)

abbrev pub call : Call → Cmd (Unit {0})
call c s = done tt (record s { log = c ∷ s.log })

abbrev pub set_files : FilesStruct → Cmd (Unit {0})
set_files f s = done tt (record s { files = f })

abbrev pub get_files : Cmd FilesStruct
get_files s = done s.files s

-- BUG_ON
abbrev pub bug_on : Bool → Cmd (Unit {0})
bug_on true s = bug
bug_on false s = done tt s

-- The functions, settings and events outside this tree.
-- `kmalloc` and `vmalloc` say whether an allocation of so many bytes succeeds, and `junk_fd` and
-- `junk_bits` what the memory holds that they return; `nr_open` is `sysctl_nr_open` at the check in
-- `expand_files` and `nr_open_later` in `alloc_fdtable`, since an administrator may change it;
-- `gap` is what other threads do to the table while a call has given up its lock, and `wait_resize`
-- what they have done when `wait_event` returns; `close_result` is the return value of `filp_close`,
-- and `f_mode` the mode word and `file_count` the reference count of a file; `get_file_rcu` is its
-- result when so many attempts are left.
pub record Kernel : Type 0 where
  pub kmalloc : ℕ → Bool
  pub vmalloc : ℕ → Bool
  pub files_cachep : Bool
  pub junk_fd : ℕ → Option File
  pub junk_bits : Bitmap
  pub nr_open : ℕ
  pub nr_open_later : ℕ
  pub rlimit_nofile : ℕ
  pub roundup_pow_of_two : ℕ → ℕ
  pub find_next_zero_bit : Bitmap → ℕ → ℕ → ℕ
  pub gap : FilesStruct → FilesStruct
  pub wait_resize : FilesStruct → FilesStruct
  pub close_result : File → Ret ℕ
  pub f_mode : File → ℕ
  pub file_count : File → ℕ
  pub get_file_rcu : ℕ → File → Bool

-- What is documented of `find_next_zero_bit(bits, size, from)`: the first clear bit from `from` on
-- that lies below `size`, or `size`.
pub record FindsZero (k : Kernel) : Type 0 where
  pub at_most : (b : Bitmap) (size from : ℕ) → k.find_next_zero_bit b size from ≤ size
  pub clear :
      (b : Bitmap) (size from : ℕ)
      → k.find_next_zero_bit b size from < size
      → b (k.find_next_zero_bit b size from) ≡ false
  pub from_start :
      (b : Bitmap) (size from : ℕ)
      → k.find_next_zero_bit b size from < size
      → from ≤ k.find_next_zero_bit b size from
  pub skips :
      (b : Bitmap) (size from i : ℕ) → from ≤ i → i < k.find_next_zero_bit b size from → b i ≡ true

-- While a call has given up its lock, nobody else touches the table, and `sysctl_nr_open` is a limit below
-- which the 32 bits of `copy_fdtable` suffice.
pub record IsAlone (k : Kernel) : Type 0 where
  pub undisturbed : (s : FilesStruct) → k.gap s ≡ s
  pub few : k.nr_open_later + 64 ≤ 2 ^ 29
