-- ===== src/Ptrace/Peek.antt =====
-- What `ptrace_peek_siginfo` of src/kernel/ptrace.c copies.
use zso_ptrace.Base.{
  ℕ, zero, suc, ◌+◌, ◌-◌, ◌%◌, ◌^◌, ◌≤◌, ◌<◌, ◌≡◌, refl, inl, inr, Bool, true, false, Option, none,
  some, List, [], ◌∷◌, arith, leb, ltb, bit_and, ◌!=◌, if◌then◌else◌, Bool-cases, ap,
}
use zso_ptrace.Errno.{Ret, ok}
use zso_ptrace.Ptrace.Siginfo.{
  Info, PeekArgs, peeksiginfo_shared, sign_bit, search, Copied, peek_loop, length, peek_result,
  ptrace_peek_siginfo,
}

unfoldable pub drop {ℓ} : {A : Type ℓ} → ℕ → List A → List A
drop zero l = l
drop (suc n) [] = []
drop (suc n) (x ∷ l) = drop n l

unfoldable pub take {ℓ} : {A : Type ℓ} → ℕ → List A → List A
take zero l = []
take (suc n) [] = []
take (suc n) (x ∷ l) = x ∷ take n l

unfoldable pub filled : List Info → List (Option Info)
filled [] = []
filled (q ∷ l) = some q ∷ filled l

-- What a search from a number that is not negative does, against the queue behind that number.
data Seen (w : ℕ) (l : List Info) : Type 0 where
  past : drop w l ≡ [] → ltb (search w l).1 sign_bit ≡ true → Seen w l
  hit :
      (q : Info) (r : List Info)
      → drop w l ≡ q ∷ r
      → drop (suc w) l ≡ r
      → search w l ≡ (some q, 0xffffffff)
      → Seen w l

seen : (w : ℕ) (l : List Info) → w < sign_bit → Seen w l
unfolding search drop
seen zero [] h = past refl refl
seen (suc w) [] h = past refl (ground arith)
seen zero (q ∷ l) h = hit q l refl refl refl
seen (suc w) (q ∷ l) h = elim (seen w l (omega arith)) [
  | past a b ↦ past a b
  | hit p r a b c ↦ hit p r a b c
]

abbrev pub quiet : ℕ → Bool
quiet i = false

peek_loop-filled :
    (l : List Info) (off n i : ℕ)
    → off + i + n ≤ sign_bit
    → peek_loop (λ _. l) quiet quiet off n i
      ≡ record { entries = filled (take n (drop (off + i) l)); faulted = false }
unfolding peek_loop filled take
peek_loop-filled l off zero i h = refl
peek_loop-filled l off (suc n) i h = elim (seen (off + i) l (omega arith)) [
  | past a b ↦ rw (small, a) (simp b refl)
  | hit q r a b c ↦
      rw (small, a) (simp c (rw (peek_loop-filled l off n (suc i) (omega arith), next, b) refl))
]
  where
    small : (off + i) % 2 ^ 32 ≡ off + i
    small = ground arith

    next : off + suc i ≡ suc (off + i)
    next = ground arith

length-filled : (l : List Info) → length (filled l) ≡ length l
unfolding length filled
length-filled [] = refl
length-filled (q ∷ l) = ap suc (length-filled l)

peek_result-filled :
    (l : List Info) → peek_result (record { entries = filled l; faulted = false }) ≡ ok (length l)
unfolding peek_result
peek_result-filled l = rw (length-filled l) (counted (length l))
  where
    counted : (n : ℕ) → (if ltb 0 n then ok n else ok 0) ≡ ok n
    counted n = ground arith

-- The `nr` entries of a queue from `off` on, and their number.
abbrev pub window : (off nr : ℕ) → List Info → Ret ℕ × Copied
window off nr l = (
  ok (length (take nr (drop off l))),
  record { entries = filled (take nr (drop off l)); faulted = false },
)

abbrev outcome : Copied → Ret ℕ × Copied
outcome c = (peek_result c, c)

-- With good arguments whose last position is below 2^31, a queue that stays as it is, no fault in
-- copying to the user and no signal pending for the caller, PTRACE_PEEKSIGINFO copies the entries
-- of the queue from off on, nr of them or up to the end, each of them initialised, and returns
-- their number.
pub ptrace_peek_siginfo-filled :
    (own shared : List Info) (arg : PeekArgs)
    → (bit_and arg.flags (2 ^ 32 - 1 - peeksiginfo_shared) != 0) ≡ false
    → arg.nr < sign_bit
    → arg.off + arg.nr ≤ sign_bit
    → ptrace_peek_siginfo (λ _. own) (λ _. shared) quiet quiet (some arg)
      ≡ window arg.off arg.nr (if bit_and arg.flags peeksiginfo_shared != 0 then shared else own)
unfolding ptrace_peek_siginfo
ptrace_peek_siginfo-filled own shared arg good small within =
    elim (Bool-cases (bit_and arg.flags peeksiginfo_shared != 0)) [
      | inl yes_shared ↦ simp (good, le_nr, yes_shared) (from shared)
      | inr not_shared ↦ simp (good, le_nr, not_shared) (from own)
    ]
  where
    le_nr : leb sign_bit arg.nr ≡ false
    le_nr = ground arith

    start : arg.off + 0 ≡ arg.off
    start = ground arith

    from :
        (l : List Info)
        → outcome (peek_loop (λ _. l) quiet quiet arg.off arg.nr 0) ≡ window arg.off arg.nr l
    from l =
        rw
          (
            peek_loop-filled l arg.off arg.nr 0 (omega arith),
            start,
            peek_result-filled (take arg.nr (drop arg.off l)),
          )
          refl

search_misses : (l : List Info) (w : ℕ) → sign_bit + length l ≤ w → (search w l).0 ≡ none
unfolding search length
search_misses [] w h = refl
search_misses (q ∷ l) zero h = absurd (omega arith)
search_misses (q ∷ l) (suc w) h = search_misses l w (omega arith)

search_negative :
    (l : List Info) (w : ℕ) → sign_bit + length l ≤ w → ltb (search w l).1 sign_bit ≡ false
unfolding search length
search_negative [] w h = ground arith
search_negative (q ∷ l) zero h = absurd (omega arith)
search_negative (q ∷ l) (suc w) h = search_negative l w (omega arith)

-- With flags 0, at least one entry asked for and no fault in copying to the user, from an offset
-- below 2^32 that is at least 2^31 plus the length of the task's own queue, the first entry that
-- PTRACE_PEEKSIGINFO copies to the user is one that nothing has written.
pub ptrace_peek_siginfo_leak :
    (own shared : ℕ → List Info) (interrupted : ℕ → Bool) (off n : ℕ)
    → sign_bit + length (own 0) ≤ off
    → off < 2 ^ 32
    → n < 0x7fffffff
    → (rest : List (Option Info)) × ((ptrace_peek_siginfo own shared quiet interrupted
          (some (record { off = off; flags = 0; nr = suc n }))).1.entries
        ≡ none ∷ rest)
unfolding ptrace_peek_siginfo peek_loop
ptrace_peek_siginfo_leak own shared interrupted off n neg word small =
    elim (Bool-cases (interrupted 0)) [
      | inl stop ↦ ([], simp (le_nr, whole, still, missed, stop) refl)
      | inr go ↦ (
        (peek_loop own quiet interrupted off n 1).entries,
        simp (le_nr, whole, still, missed, go) refl,
      )
    ]
  where
    le_nr : leb sign_bit (suc n) ≡ false
    le_nr = ground arith

    whole : (off + 0) % 2 ^ 32 ≡ off
    whole = ground arith

    still : ltb (search off (own 0)).1 sign_bit ≡ false
    still = search_negative (own 0) off neg

    missed : (search off (own 0)).0 ≡ none
    missed = search_misses (own 0) off neg
