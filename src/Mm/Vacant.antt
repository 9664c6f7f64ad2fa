-- ===== src/Mm/Vacant.antt =====
-- `find_vma_links` and `vma_link` of src/mm/mmap.c on a range that is free.
use zso_ptrace.Base.{
  ℕ, ◌+◌, ◌%◌, ◌≤◌, ◌<◌, ◌≡◌, ◌≢◌, ◌⊎◌, refl, inl, inr, true, false, ◌&&◌, Option, none, some, List,
  [], ◌∷◌, ltb, leb, ◌==◌, if◌then◌else◌, arith, Bool-cases,
}
use zso_ptrace.Mm.Area.{Vma, vma_pages}
use zso_ptrace.Mm.Unmap.{length}
use zso_ptrace.Mm.Laid.{IsLaid}
use zso_ptrace.Mm.Counted.{total_pages}
use zso_ptrace.Mm.Merge.{Request}
use zso_ptrace.Mm.Fitting.{StartsFrom, free}
use zso_ptrace.Mm.Merges.{beyond, PlacedAt, here, later, IsPlaced}
use zso_ptrace.Mm.Agrees.{soft_in, soft_at, soft_below}
use zso_ptrace.Mm.Region.{find_place, link_list}

-- The range lies free behind the area that starts at a number.
abbrev pub FreeAt : (a e at : ℕ) → List Vma → Type 0
FreeAt a e at [] = ⊥
FreeAt a e at (v ∷ l) =
    ((v.vm_start ≡ at) × (v.vm_end ≤ a) × StartsFrom e l)
    ⊎ ((v.vm_start ≢ at) × (v.vm_end ≤ a) × FreeAt a e at l)

abbrev pub IsFree : (a e : ℕ) → Option ℕ → List Vma → Type 0
IsFree a e none l = StartsFrom e l
IsFree a e (some at) l = FreeAt a e at l

FreeAt-from : (a e at lo : ℕ) (l : List Vma) → IsLaid lo l → FreeAt a e at l → lo ≤ at
FreeAt-from a e at lo [] laid is_free = absurd is_free
FreeAt-from a e at lo (v ∷ l) (from, size, p, q, rest) (inl (same, ended, starts)) =
    omega (arith, same)
FreeAt-from a e at lo (v ∷ l) (from, size, p, q, rest) (inr (other, ended, is_free)) =
    omega (arith, FreeAt-from a e at v.vm_end l rest is_free)

behind-FreeAt :
    (a e lo : ℕ) (u : Vma) (l : List Vma) (q : Option ℕ)
    → IsLaid lo (u ∷ l)
    → u.vm_end ≤ a
    → find_place (some u.vm_start) l a e ≡ some q
    → (at : ℕ) × (q ≡ some at) × FreeAt a e at (u ∷ l)
unfolding find_place
behind-FreeAt a e lo u [] q laid ended place =
    (u.vm_start, ground (arith, place), inl (refl, ended, tt))
behind-FreeAt a e lo u (v ∷ l) q (from, size, b, c, rest) ended place =
    elim (Bool-cases (ltb a v.vm_end)) [
      | inl stop ↦
          let starts : e ≤ v.vm_start = ground (arith, place, stop) in
          (u.vm_start, ground (arith, place, stop), inl (refl, ended, starts))
      | inr go ↦
          let (at, is, is_free) =
            behind-FreeAt a e u.vm_end v l q rest (ground (arith, go)) (simp go at place) in
          (
            at,
            is,
            inr (omega (arith, FreeAt-from a e at u.vm_end (v ∷ l) rest is_free), ended, is_free),
          )
    ]

pub find_place-IsFree :
    (a e : ℕ) (l : List Vma) (q : Option ℕ)
    → IsLaid 0 l
    → find_place none l a e ≡ some q
    → IsFree a e q l
unfolding find_place
find_place-IsFree a e [] q laid place = let is : q ≡ none = ground (arith, place) in rw is tt
find_place-IsFree a e (v ∷ l) q laid place = elim (Bool-cases (ltb a v.vm_end)) [
  | inl stop ↦
      let is : q ≡ none = ground (arith, place, stop) in
      let starts : e ≤ v.vm_start = ground (arith, place, stop) in rw is starts
  | inr go ↦
      let (at, is, is_free) =
        behind-FreeAt a e 0 v l q laid (ground (arith, go)) (simp go at place) in
      rw is is_free
]

-- Where nothing is mapped in the range a place is found.
pub find_place_free :
    (a e lo : ℕ) (p : Option ℕ) (l : List Vma)
    → IsLaid lo l
    → a < e
    → ((x : ℕ) → a ≤ x → x < e → soft_at l x ≡ none)
    → (q : Option ℕ) × (find_place p l a e ≡ some q)
unfolding find_place soft_at
find_place_free a e lo p [] laid wide is_free = (p, refl)
find_place_free a e lo p (v ∷ l) (from, size, b, c, rest) wide is_free =
    elim (Bool-cases (ltb a v.vm_end)) [
      | inr go ↦ simp go (
          find_place_free a e v.vm_end (some v.vm_start) l rest wide
            (λ x ge lt. ground (arith, is_free x ge lt, soft_below v.vm_end x l rest)))
      | inl stop ↦ elim (Bool-cases (ltb v.vm_start e)) [
        | inr apart ↦ simp (stop, apart) (p, refl)
        | inl meets ↦ absurd (ground (arith, stop, meets, is_free a, is_free v.vm_start))
      ]
    ]

-- Nothing is mapped in a range that is free.
starts_above :
    (e lo x : ℕ) (l : List Vma) → IsLaid lo l → StartsFrom e l → x < e → soft_at l x ≡ none
unfolding soft_at
starts_above e lo x [] laid starts lt = refl
starts_above e lo x (v ∷ l) (from, size, p, q, rest) starts lt =
    ground (arith, soft_below v.vm_end x l rest)

FreeAt-soft_at :
    (a e at lo x : ℕ) (l : List Vma)
    → IsLaid lo l
    → FreeAt a e at l
    → a ≤ x
    → x < e
    → soft_at l x ≡ none
unfolding soft_at
FreeAt-soft_at a e at lo x [] laid is_free ge lt = refl
FreeAt-soft_at a e at lo x (v ∷ l) (from, size, p, q, rest) (inl (same, ended, starts)) ge lt =
    ground (arith, starts_above e v.vm_end x l rest starts lt)
FreeAt-soft_at a e at lo x (v ∷ l) (from, size, p, q, rest) (inr (other, ended, is_free)) ge lt =
    ground (arith, FreeAt-soft_at a e at v.vm_end x l rest is_free ge lt)

pub IsFree-soft_at :
    (a e x : ℕ) (q : Option ℕ) (l : List Vma)
    → IsLaid 0 l
    → IsFree a e q l
    → a ≤ x
    → x < e
    → soft_at l x ≡ none
IsFree-soft_at a e x none l laid is_free ge lt = starts_above e 0 x l laid is_free lt
IsFree-soft_at a e x (some at) l laid is_free ge lt = FreeAt-soft_at a e at 0 x l laid is_free ge lt

-- A request for the range is placed as `vma_merge` wants it.
FreeAt-PlacedAt :
    (r : Request) (at : ℕ) (l : List Vma)
    → r.addr < r.end
    → FreeAt r.addr r.end at l
    → PlacedAt r at l
FreeAt-PlacedAt r at [] wide is_free = absurd is_free
FreeAt-PlacedAt r at (v ∷ l) wide (inl (same, ended, starts)) =
    here same (beyond ended (free starts))
FreeAt-PlacedAt r at (v ∷ l) wide (inr (other, ended, is_free)) =
    later other ended (FreeAt-PlacedAt r at l wide is_free)

pub IsFree-IsPlaced :
    (r : Request) (q : Option ℕ) (l : List Vma)
    → r.addr < r.end
    → IsFree r.addr r.end q l
    → IsPlaced r q l
IsFree-IsPlaced r none l wide is_free = free is_free
IsFree-IsPlaced r (some at) l wide is_free = FreeAt-PlacedAt r at l wide is_free

-- An area stands in a list, and is the first to start where it does.
abbrev pub StandsAt : Vma → List Vma → Type 0
StandsAt w [] = ⊥
StandsAt w (v ∷ l) = (v ≡ w) ⊎ ((v.vm_start ≢ w.vm_start) × StandsAt w l)

-- What it is to link an area into a list.
pub record Linked (new : Vma) (lo : ℕ) (l m : List Vma) : Type 0 where
  pub laid : IsLaid lo m
  pub more : length m ≡ length l + 1
  pub more_pages : total_pages m ≡ total_pages l + vma_pages new
  pub view :
      (x : ℕ)
      → soft_at m x
        ≡ (if leb new.vm_start x && ltb x new.vm_end then some (soft_in new x) else soft_at l x)
  pub was_free : soft_at l new.vm_start ≡ none
  pub stands : StandsAt new m

front-Linked :
    (new : Vma) (lo : ℕ) (l : List Vma)
    → IsLaid lo l
    → lo ≤ new.vm_start
    → new.vm_start < new.vm_end
    → new.vm_start % 4096 ≡ 0
    → new.vm_end % 4096 ≡ 0
    → StartsFrom new.vm_end l
    → Linked new lo l (new ∷ l)
unfolding length total_pages soft_at
front-Linked new lo l laid from wide al al_end starts = record {
  laid = (from, wide, al, al_end, above l laid starts);
  more = omega arith;
  more_pages = omega arith;
  view = λ x. refl;
  was_free = soft_below new.vm_end new.vm_start l (above l laid starts) wide;
  stands = inl refl;
}
  where
    above : (l : List Vma) → IsLaid lo l → StartsFrom new.vm_end l → IsLaid new.vm_end l
    above [] laid starts = tt
    above (v ∷ l) (f, size, b, c, rest) starts = (starts, size, b, c, rest)

Linked-behind :
    (new v : Vma) (lo : ℕ) (l m : List Vma)
    → IsLaid lo (v ∷ l)
    → v.vm_end ≤ new.vm_start
    → new.vm_start < new.vm_end
    → Linked new v.vm_end l m
    → Linked new lo (v ∷ l) (v ∷ m)
unfolding length total_pages soft_at
Linked-behind new v lo l m (from, size, b, c, rest) ended wide k = record {
  laid = (from, size, b, c, k.laid);
  more = omega (arith, k.more);
  more_pages = omega (arith, k.more_pages);
  view = λ x. ground (arith, k.view x);
  was_free = ground (arith, k.was_free);
  stands = inr (omega arith, k.stands);
}

link-Linked :
    (new : Vma) (at lo : ℕ) (l : List Vma)
    → IsLaid lo l
    → new.vm_start < new.vm_end
    → new.vm_start % 4096 ≡ 0
    → new.vm_end % 4096 ≡ 0
    → FreeAt new.vm_start new.vm_end at l
    → Linked new lo l (link_list (some at) new l)
unfolding link_list
link-Linked new at lo [] laid wide al al_end is_free = absurd is_free
link-Linked new at lo (v ∷ l) laid wide al al_end (inl (same, ended, starts)) =
    let (from, size, b, c, rest) = laid in
    let found : (v.vm_start == at) ≡ true = ground arith in
    simp found (
      Linked-behind new v lo l (new ∷ l) laid ended wide
        (front-Linked new v.vm_end l rest ended wide al al_end starts))
link-Linked new at lo (v ∷ l) laid wide al al_end (inr (other, ended, is_free)) =
    let (from, size, b, c, rest) = laid in
    let past : (v.vm_start == at) ≡ false = ground arith in
    simp past (
      Linked-behind new v lo l _ laid ended wide
        (link-Linked new at v.vm_end l rest wide al al_end is_free))

pub IsFree-Linked :
    (new : Vma) (q : Option ℕ) (l : List Vma)
    → IsLaid 0 l
    → new.vm_start < new.vm_end
    → new.vm_start % 4096 ≡ 0
    → new.vm_end % 4096 ≡ 0
    → IsFree new.vm_start new.vm_end q l
    → Linked new 0 l (link_list q new l)
unfolding link_list
IsFree-Linked new none l laid wide al al_end is_free =
    front-Linked new 0 l laid (omega arith) wide al al_end is_free
IsFree-Linked new (some at) l laid wide al al_end is_free =
    link-Linked new at 0 l laid wide al al_end is_free
