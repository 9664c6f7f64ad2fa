-- ===== src/Fd/Valid.antt =====
-- Well-formed descriptor tables, and the primitive writes of src/fs/file.c that keep them so.
use zso_ptrace.Base.{
  ℕ, zero, suc, ◌+◌, ◌*◌, ◌/◌, ◌%◌, ◌≤◌, ◌<◌, ◌≡◌, ◌≢◌, refl, inl, inr, true, false, arith, ◌==◌,
  is_some, Bool-cases,
}
use zso_ptrace.Fd.Table.{
  Bitmap, FdTable, FilesStruct, bits_per_long, set_bit, clear_bit, all_set, word_full,
  all_set_sound, set_open_fd, clear_open_fd,
}
use native.Mathlib.Nat.{add-zero}
use zso_ptrace.Fd.Alloc.{bitbit_nr}

-- Every bit of the summary says whether its word of the open bits is full.
abbrev pub IsSummary : FdTable → Type 0
IsSummary t = (w : ℕ) → w < t.max_fds / bits_per_long → t.full_fds_bits w ≡ word_full t.open_fds w

-- Every file stands under a descriptor that is marked open.
abbrev pub IsMarked : FdTable → Type 0
IsMarked t = (i : ℕ) → i < t.max_fds → is_some (t.fd i) ≡ true → t.open_fds i ≡ true

-- The rest of the last word of the summary is clear.
abbrev pub IsTrimmed : FdTable → Type 0
IsTrimmed t =
    (w : ℕ)
    → t.max_fds / bits_per_long ≤ w
    → w < bitbit_nr t.max_fds * bits_per_long
    → t.full_fds_bits w ≡ false

-- `packed` is what `next_fd` is for: no free descriptor lies below it.
pub record IsValid (f : FilesStruct) : Type 0 where
  pub aligned : f.fdt.max_fds % bits_per_long ≡ 0
  pub marked : IsMarked f.fdt
  pub summary : IsSummary f.fdt
  pub trimmed : IsTrimmed f.fdt
  pub packed : (i : ℕ) → i < f.next_fd → f.fdt.open_fds i ≡ true
  pub in_range : f.next_fd ≤ f.fdt.max_fds

-- Two bitmaps that agree on a stretch.
pub all_set_ext :
    (b c : Bitmap) (from n : ℕ)
    → ((i : ℕ) → i < n → b (from + i) ≡ c (from + i))
    → all_set b from n ≡ all_set c from n
unfolding all_set
all_set_ext b c from zero same = refl
all_set_ext b c from (suc n) same =
    ground (arith, same n (omega arith), all_set_ext b c from n (λ i h. same i (omega arith)))

all_set_hole : (b : Bitmap) (from n i : ℕ) → i < n → b (from + i) ≡ false → all_set b from n ≡ false
unfolding all_set
all_set_hole b from zero i h e = elim h [ ]
all_set_hole b from (suc n) i h e = elim (Bool-cases (i == n)) [
  | inl here ↦ ground arith
  | inr other ↦ ground (arith, all_set_hole b from n i)
]

pub word_full_ext :
    (b c : Bitmap) (w : ℕ)
    → ((i : ℕ) → i / bits_per_long ≡ w → b i ≡ c i)
    → word_full b w ≡ word_full c w
unfolding word_full
word_full_ext b c w same =
    all_set_ext b c (w * bits_per_long) bits_per_long
      (λ i h. same (w * bits_per_long + i) (omega arith))

pub word_full_open : (b : Bitmap) (i : ℕ) → word_full b (i / 64) ≡ true → b i ≡ true
unfolding word_full
word_full_open b i h =
    let e : i / 64 * 64 + i % 64 ≡ i = omega arith in
    subst_open e (all_set_sound b (i / 64 * 64) 64 (i % 64) h (omega arith))
  where
    subst_open : {a c : ℕ} → a ≡ c → b a ≡ true → b c ≡ true
    subst_open e h = rw (← e) h

pub word_full_hole : (b : Bitmap) (i : ℕ) → b i ≡ false → word_full b (i / 64) ≡ false
word_full_hole b i h = elim (Bool-cases (word_full b (i / 64))) [
  | inl e ↦ cc (word_full_open b i e)
  | inr e ↦ e
]

pub word_full_empty : (b : Bitmap) (w : ℕ) → b (w * 64) ≡ false → word_full b w ≡ false
unfolding word_full
word_full_empty b w h =
    all_set_hole b (w * 64) 64 0 (omega arith) (ground (arith, add-zero (w * 64)))

all_set_intro :
    (b : Bitmap) (from n : ℕ) → ((i : ℕ) → i < n → b (from + i) ≡ true) → all_set b from n ≡ true
unfolding all_set
all_set_intro b from zero h = refl
all_set_intro b from (suc n) h =
    ground (arith, h n (omega arith), all_set_intro b from n (λ i l. h i (omega arith)))

-- Setting a bit can only fill a word.
word_full-set_bit-true :
    (n : ℕ) (b : Bitmap) (w : ℕ) → word_full b w ≡ true → word_full (set_bit n b) w ≡ true
unfolding word_full
word_full-set_bit-true n b w h =
    all_set_intro (set_bit n b) (w * 64) 64 (λ i l. ground (arith, all_set_sound b (w * 64) 64 i))

pub word_full-set_bit :
    (n : ℕ) (b : Bitmap) (w : ℕ) → word_full (set_bit n b) w ≡ false → word_full b w ≡ false
word_full-set_bit n b w h = elim (Bool-cases (word_full b w)) [
  | inl full ↦ cc (word_full-set_bit-true n b w full)
  | inr e ↦ e
]

pub word_full-set_bit_other :
    (n : ℕ) (b : Bitmap) (w : ℕ) → n / 64 ≢ w → word_full (set_bit n b) w ≡ word_full b w
word_full-set_bit_other n b w h = word_full_ext (set_bit n b) b w (λ i e. ground arith)

pub word_full-clear_bit_other :
    (n : ℕ) (b : Bitmap) (w : ℕ) → n / 64 ≢ w → word_full (clear_bit n b) w ≡ word_full b w
word_full-clear_bit_other n b w h = word_full_ext (clear_bit n b) b w (λ i e. ground arith)

pub set_open_fd-IsSummary : (fd : ℕ) (t : FdTable) → IsSummary t → IsSummary (set_open_fd fd t)
unfolding set_open_fd
set_open_fd-IsSummary fd t h w l = elim (Bool-cases (w == fd / 64)) [
  | inl here ↦
      ground
        (arith, h w, word_full-set_bit fd t.open_fds w, word_full-set_bit fd t.open_fds (fd / 64))
  | inr other ↦ ground (arith, h w, word_full-set_bit_other fd t.open_fds w)
]

pub clear_open_fd-IsSummary : (fd : ℕ) (t : FdTable) → IsSummary t → IsSummary (clear_open_fd fd t)
unfolding clear_open_fd
clear_open_fd-IsSummary fd t h w l = elim (Bool-cases (w == fd / 64)) [
  | inl here ↦ ground (arith, word_full_hole (clear_bit fd t.open_fds) fd)
  | inr other ↦ ground (arith, h w, word_full-clear_bit_other fd t.open_fds w)
]
