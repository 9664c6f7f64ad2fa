-- ===== src/Mm/Changed.antt =====
-- The loop of `do_mprotect_pkey_task` in src/mm/mprotect.c: what has become of the addresses it has gone past.
use zso_ptrace.Base.{
  ℕ, ◌-◌, ◌≤◌, ◌<◌, ◌≡◌, ◌⊎◌, refl, sym, ◌∙◌, subst, inl, inr, Bool, true, false, Option, none,
  some, List, [], ◌∷◌, ltb, bit_or, arith, Bool-cases,
}
use zso_ptrace.Errno.{Errno, eacces, enomem}
use zso_ptrace.Mm.Area.{vm_account, vm_softdirty, Vma, Mm}
use zso_ptrace.Mm.Split.{find_vma}
use zso_ptrace.Mm.Unmap.{behind}
use zso_ptrace.Mm.Laid.{IsLaid, Mapping}
use zso_ptrace.Mm.Counted.{IsWell}
use zso_ptrace.Mm.Searched.{EndsBy}
use zso_ptrace.Mm.Agrees.{soft_in, soft_at}
use zso_ptrace.Mm.Mprotect.{Policy, round_prot, next_flags, exceeds, end_of}
use zso_ptrace.Mm.Reflag.{reflag, reflag_in, soft_at-find}
use zso_ptrace.Mm.Stands.{HoldsAt, HoldsAt-Holder}

-- An address space whose areas all end by the top of the addresses, seen by its addresses.
pub none_above : (b x : ℕ) (l : List Vma) → EndsBy b l → b ≤ x → soft_at l x ≡ none
unfolding soft_at
none_above b x [] ended le = refl
none_above b x (v ∷ l) (end, ended) le = ground (arith, none_above b x l ended le)

pub ended_by :
    (b lo : ℕ) (l : List Vma) → IsLaid lo l → ((x : ℕ) → b ≤ x → soft_at l x ≡ none) → EndsBy b l
unfolding soft_at
ended_by b lo [] laid free = tt
ended_by b lo (v ∷ l) (from, size, p, q, rest) free = (
  ground (arith, free (v.vm_end - 1)),
  ended_by b v.vm_end l rest (λ x le. ground (arith, free x le, free (v.vm_end - 1))),
)

pub EndsBy-view :
    (b : ℕ) (l m : List Vma)
    → IsLaid 0 m
    → EndsBy b l
    → ((x : ℕ) → soft_at l x ≡ none → soft_at m x ≡ none)
    → EndsBy b m
EndsBy-view b l m laid ended keeps =
    ended_by b 0 m laid (λ x le. keeps x (none_above b x l ended le))

-- What the loop asks of an area before it sets a word, and the words it may set.
pub record Passes (pol : Policy) (rier : Bool) (pkey : Option ℕ) (reqprot : ℕ) (v : Vma) (g : ℕ)
    : Type 0 where
  pub allowed : exceeds (next_flags pol pkey (round_prot rier reqprot v) v) ≡ false
  pub passed : pol.file_mprotect v reqprot (round_prot rier reqprot v) ≡ none
  pub word :
      (g ≡ next_flags pol pkey (round_prot rier reqprot v) v)
      ⊎ (g ≡ bit_or (next_flags pol pkey (round_prot rier reqprot v) v) vm_account)

-- What becomes of an address: it gets a word for the area that it lay in, or has such a word and keeps it.
pub data Became (pol : Policy) (rier : Bool) (pkey : Option ℕ) (reqprot : ℕ) (o p : Option Mapping)
    : Type 0 where
  changed :
      (v : Vma) (x g : ℕ)
      → Passes pol rier pkey reqprot v g
      → o ≡ some (soft_in v x)
      → p ≡ reflag g o
      → Became pol rier pkey reqprot o p
  same :
      (v : Vma) (k : Mapping) (g : ℕ)
      → Passes pol rier pkey reqprot v g
      → o ≡ some k
      → k.flags ≡ bit_or g vm_softdirty
      → p ≡ o
      → Became pol rier pkey reqprot o p

pub Became-none :
    (pol : Policy) (rier : Bool) (pkey : Option ℕ) (reqprot : ℕ) (o p : Option Mapping)
    → Became pol rier pkey reqprot o p
    → o ≡ none
    → p ≡ none
Became-none pol rier pkey reqprot o p (changed v x g passes old new) free = cc
Became-none pol rier pkey reqprot o p (same v k g passes old word new) free = cc

-- The loop has gone from `start` up to an address.
pub record Reached (pol : Policy) (rier : Bool) (pkey : Option ℕ) (reqprot start upto : ℕ)
    (m n : Mm) : Type 0 where
  pub well : IsWell n
  pub inside :
      (x : ℕ)
      → start ≤ x
      → x < upto
      → Became pol rier pkey reqprot (soft_at m.mmap x) (soft_at n.mmap x)
  pub outside : (x : ℕ) → (x < start) ⊎ (upto ≤ x) → soft_at n.mmap x ≡ soft_at m.mmap x

module _ (pol : Policy) (rier : Bool) (pkey : Option ℕ) (reqprot start : ℕ) (m : Mm) where
  pub Reached-fixed :
      (upto tmp g : ℕ) (v : Vma) (s z : Mm)
      → Reached pol rier pkey reqprot start upto m s
      → start ≤ upto
      → upto < tmp
      → tmp ≤ v.vm_end
      → v.vm_start ≤ upto
      → find_vma s.mmap upto ≡ some v
      → Passes pol rier pkey reqprot v g
      → IsWell z
      → ((x : ℕ) → soft_at z.mmap x ≡ reflag_in upto tmp g x (soft_at s.mmap x))
      → Reached pol rier pkey reqprot start tmp m z
  Reached-fixed upto tmp g v s z k from wide high low found passes wz view = record {
    well = wz;
    inside = λ x ge lt. elim (Bool-cases (ltb x upto)) [
      | inl before ↦
          subst (Became pol rier pkey reqprot (soft_at m.mmap x))
            (sym (ground (arith, before, view x))) (k.inside x ge (ground (arith, before)))
      | inr now ↦
          let at_v : soft_at s.mmap x ≡ some (soft_in v x) =
            soft_at-find s.mmap upto x v found low (ground (arith, now)) (omega arith) in
          let old : soft_at s.mmap x ≡ soft_at m.mmap x = k.outside x (inr (ground (arith, now))) in
          changed v x g passes (sym old ∙ at_v) (ground (arith, now, view x, old))
    ];
    outside = λ x side. ground (
      arith,
      side,
      view x,
      k.outside x (elim side [ inl lt ↦ inl lt | inr ge ↦ inr (omega arith) ]),
    );
  }

  reflag_some :
      (g from upto : ℕ) (k a : Mapping) (o : Option Mapping)
      → o ≡ some a
      → some k ≡ reflag_in from upto g from o
      → from < upto
      → k.flags ≡ bit_or g vm_softdirty
  reflag_some g from upto k a o is e lt = ground (arith, is, e)

  -- The area that holds a range may go on behind it.
  pub Reached-further :
      (from tmp upto g at : ℕ) (v : Vma) (s z : Mm)
      → Reached pol rier pkey reqprot start tmp m z
      → start ≤ from
      → from < tmp
      → tmp ≤ upto
      → upto ≤ end_of at z.mmap
      → v.vm_start ≤ from
      → from < v.vm_end
      → find_vma s.mmap from ≡ some v
      → Passes pol rier pkey reqprot v g
      → ((x : ℕ) → soft_at z.mmap x ≡ reflag_in from tmp g x (soft_at s.mmap x))
      → HoldsAt from tmp at z.mmap
      → Reached pol rier pkey reqprot start upto m z
  Reached-further from tmp upto g at v s z k first wide le till low high found passes view holds =
      let (a, _, h) = HoldsAt-Holder from tmp at 0 z.mmap k.well.laid wide holds in
      let word : (soft_in a from).flags ≡ bit_or g vm_softdirty =
        reflag_some g from tmp (soft_in a from) (soft_in v from) (soft_at s.mmap from)
          (soft_at-find s.mmap from from v found low (omega arith) high)
          (sym (h.all from h.low (omega (arith, h.high))) ∙ view from) wide in
      record {
        well = k.well;
        inside = λ x ge lt. elim (Bool-cases (ltb x tmp)) [
          | inl before ↦ k.inside x ge (ground (arith, before))
          | inr behind ↦
              let old : soft_at z.mmap x ≡ soft_at m.mmap x =
                k.outside x (inr (ground (arith, behind))) in
              let here : soft_at z.mmap x ≡ some (soft_in a x) =
                h.all x (ground (arith, behind, h.low)) (omega (arith, h.last)) in
              same v (soft_in a x) g passes (sym old ∙ here) word old
        ];
        outside =
            λ x side. k.outside x (elim side [ inl lt ↦ inl lt | inr ge ↦ inr (omega arith) ]);
      }

  -- Why the loop stops at an address.
  pub data Reason (at : ℕ) : Errno → Type 0 where
    hole : soft_at m.mmap at ≡ none → Reason at enomem
    denied :
        (v : Vma)
        → soft_at m.mmap at ≡ some (soft_in v at)
        → exceeds (next_flags pol pkey (round_prot rier reqprot v) v) ≡ true
        → Reason at eacces
    vetoed :
        (v : Vma) {e : Errno}
        → soft_at m.mmap at ≡ some (soft_in v at)
        → pol.file_mprotect v reqprot (round_prot rier reqprot v) ≡ some e
        → Reason at e
    no_room :
        (v : Vma) {e : Errno}
        → soft_at m.mmap at ≡ some (soft_in v at)
        → Passes pol rier pkey reqprot v (next_flags pol pkey (round_prot rier reqprot v) v)
        → Reason at e

  pub data Protected (end : ℕ) : Option Errno → Mm → Type 0 where
    finished : {n : Mm} → Reached pol rier pkey reqprot start end m n → Protected end none n
    stopped :
        {e : Errno} {n : Mm} (at : ℕ)
        → start ≤ at
        → at < end
        → Reason at e
        → Reached pol rier pkey reqprot start at m n
        → Protected end (some e) n
