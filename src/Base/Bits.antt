-- ===== src/Base/Bits.antt =====
-- The laws of `&` and `|` at a variable that the proofs use.
use Prim.Native.Nat.{
  ℕ, zero, suc, ◌+◌, ◌*◌, ◌/◌, ◌%◌, ◌≤◌, min, max, bit_and, bit_or, digits, bit_and-bitwise,
  bit_or-bitwise,
}
use mathlib.Core.Path.{◌≡◌, refl, ap, ◌∙◌, sym, subst}
use mathlib.Core.Logic.{◌≢◌, ◌⊎◌, inl, inr}
use native.Mathlib.Omega.{arith}

no_digits : (n a : ℕ) → digits (λ b. zero) min n a 0 ≡ 0
no_digits zero a = refl
no_digits (suc n) zero = refl
no_digits (suc n) (suc a) = omega (arith, no_digits n (suc a / 2))

pub bit_and-zero : (a : ℕ) → bit_and a 0 ≡ 0
bit_and-zero a = bit_and-bitwise a 0 ∙ no_digits a a

le_digits : (n a b : ℕ) → a ≤ n → a ≤ digits (λ b. b) max n a b
le_digits zero a b h = ground arith
le_digits (suc n) zero b h = omega arith
le_digits (suc n) (suc a) b h =
    omega (arith, le_digits n (suc a / 2) (b / 2) (omega arith), le_max (suc a % 2) (b % 2))
  where
    le_max : (x y : ℕ) → x ≤ max x y
    le_max x y = ground arith

-- Setting bits makes no number smaller.
pub le_bit_or : (a b : ℕ) → a ≤ bit_or a b
le_bit_or a b = subst (λ n. a ≤ n) (sym (bit_or-bitwise a b)) (le_digits a a b (omega arith))

-- Enough steps give one result, and a step takes one digit: for any operation on digits.
module _ (z : ℕ → ℕ) (f : ℕ → ℕ → ℕ) where
  enough_digits : (n m a b : ℕ) → a ≤ n → a ≤ m → digits z f n a b ≡ digits z f m a b
  enough_digits zero zero a b p q = refl
  enough_digits zero (suc m) zero b p q = refl
  enough_digits zero (suc m) (suc a) b p q = absurd (omega arith)
  enough_digits (suc n) zero zero b p q = refl
  enough_digits (suc n) zero (suc a) b p q = absurd (omega arith)
  enough_digits (suc n) (suc m) zero b p q = refl
  enough_digits (suc n) (suc m) (suc a) b p q =
      ap (λ (r : ℕ). r * 2 + f (suc a % 2) (b % 2))
        (enough_digits n m (suc a / 2) (b / 2) (omega arith) (omega arith))

  lowest_digit :
      (a b : ℕ)
      → z b ≡ z (b / 2) * 2 + f 0 (b % 2)
      → digits z f a a b ≡ digits z f (a / 2) (a / 2) (b / 2) * 2 + f (a % 2) (b % 2)
  lowest_digit zero b rest = rest
  lowest_digit (suc a) b rest =
      ap (λ (r : ℕ). r * 2 + f (suc a % 2) (b % 2))
        (enough_digits a (suc a / 2) (suc a / 2) (b / 2) (omega arith) (omega arith))

bit_and-lowest : (a b : ℕ) → bit_and a b ≡ bit_and (a / 2) (b / 2) * 2 + min (a % 2) (b % 2)
bit_and-lowest a b =
    bit_and-bitwise a b
    ∙ lowest_digit (λ b. zero) min a b (ground arith)
    ∙ ap (λ (r : ℕ). r * 2 + min (a % 2) (b % 2)) (sym (bit_and-bitwise (a / 2) (b / 2)))

bit_or-lowest : (a b : ℕ) → bit_or a b ≡ bit_or (a / 2) (b / 2) * 2 + max (a % 2) (b % 2)
bit_or-lowest a b =
    bit_or-bitwise a b
    ∙ lowest_digit (λ b. b) max a b (ground arith)
    ∙ ap (λ (r : ℕ). r * 2 + max (a % 2) (b % 2)) (sym (bit_or-bitwise (a / 2) (b / 2)))

-- The word with one bit.
abbrev pub bit : ℕ → ℕ
bit zero = 1
bit (suc k) = bit k + bit k

bit_or-zero : (a : ℕ) → bit_or a 0 ≡ a
bit_or-zero a = bit_or-bitwise a 0 ∙ same a a (omega arith)
  where
    same : (n a : ℕ) → a ≤ n → digits (λ b. b) max n a 0 ≡ a
    same zero a le = omega arith
    same (suc n) zero le = refl
    same (suc n) (suc a) le = ground (arith, same n (suc a / 2))

bit_and-high : (k x : ℕ) → bit_and x (bit (suc k)) ≡ bit_and (x / 2) (bit k) * 2
bit_and-high k x =
    let half : (bit k + bit k) / 2 ≡ bit k = omega arith in
    let even : (bit k + bit k) % 2 ≡ 0 = omega arith in
    bit_and-lowest x (bit k + bit k)
    ∙ ap (λ (b : ℕ). bit_and (x / 2) b * 2 + min (x % 2) ((bit k + bit k) % 2)) half
    ∙ ap (λ (d : ℕ). bit_and (x / 2) (bit k) * 2 + min (x % 2) d) even
    ∙ omega arith

bit_and-one : (x : ℕ) → bit_and x 1 ≡ x % 2
bit_and-one x = omega (arith, bit_and-lowest x 1, bit_and-zero (x / 2))

bit_or-high :
    (j x : ℕ)
    → (bit_or x (bit (suc j)) / 2 ≡ bit_or (x / 2) (bit j)) × (bit_or x (bit (suc j)) % 2 ≡ x % 2)
bit_or-high j x =
    let half : (bit j + bit j) / 2 ≡ bit j = omega arith in
    let parts = bit_or-lowest x (bit j + bit j) in
    let same : bit_or (x / 2) ((bit j + bit j) / 2) ≡ bit_or (x / 2) (bit j) =
      ap (λ (b : ℕ). bit_or (x / 2) b) half in
    (omega arith, omega arith)

bit_or-one : (x : ℕ) → bit_or x 1 / 2 ≡ x / 2
bit_or-one x = omega (arith, bit_or-lowest x 1, bit_or-zero (x / 2))

-- Setting one bit leaves another as it is.
pub bit_and-bit_or : (j k a : ℕ) → j ≢ k → bit_and (bit_or a (bit j)) (bit k) ≡ bit_and a (bit k)
bit_and-bit_or zero zero a differ = absurd (differ refl)
bit_and-bit_or zero (suc k) a differ =
    bit_and-high k (bit_or a 1)
    ∙ ap (λ (x : ℕ). bit_and x (bit k) * 2) (bit_or-one a)
    ∙ sym (bit_and-high k a)
bit_and-bit_or (suc j) zero a differ =
    bit_and-one (bit_or a (bit (suc j))) ∙ (bit_or-high j a).1 ∙ sym (bit_and-one a)
bit_and-bit_or (suc j) (suc k) a differ =
    bit_and-high k (bit_or a (bit (suc j)))
    ∙ ap (λ (x : ℕ). bit_and x (bit k) * 2) ((bit_or-high j a).0)
    ∙ ap (λ (r : ℕ). r * 2) (bit_and-bit_or j k (a / 2) (λ e. differ (ap (λ (n : ℕ). suc n) e)))
    ∙ sym (bit_and-high k a)

-- Setting a bit twice.
pub bit_or-twice : (j a : ℕ) → bit_or (bit_or a (bit j)) (bit j) ≡ bit_or a (bit j)
bit_or-twice zero a = omega (
  arith,
  bit_or-lowest (bit_or a 1) 1,
  bit_or-lowest a 1,
  bit_or-zero (bit_or a 1 / 2),
  bit_or-zero (a / 2),
  bit_or-one a,
)
bit_or-twice (suc j) a =
    let outer = bit_or-high j (bit_or a (bit (suc j))) in
    let inner = bit_or-high j a in
    let halves : bit_or (bit_or a (bit (suc j)) / 2) (bit j) ≡ bit_or (a / 2) (bit j) =
      ap (λ (x : ℕ). bit_or x (bit j)) (inner.0) ∙ bit_or-twice j (a / 2) in
    omega (arith, outer.0, outer.1, inner.0, inner.1, halves)

-- A bit that is clear in both words stays clear, and one that is clear in either is clear in what they
-- have in common.
pub clear_bit_or :
    (k a b : ℕ) → bit_and a (bit k) ≡ 0 → bit_and b (bit k) ≡ 0 → bit_and (bit_or a b) (bit k) ≡ 0
clear_bit_or zero a b p q =
    omega (arith, bit_and-one a, bit_and-one b, bit_and-one (bit_or a b), bit_or-lowest a b)
clear_bit_or (suc k) a b p q =
    let halves : bit_or a b / 2 ≡ bit_or (a / 2) (b / 2) = omega (arith, bit_or-lowest a b) in
    let rest =
      clear_bit_or k (a / 2) (b / 2) (omega (arith, bit_and-high k a))
        (omega (arith, bit_and-high k b)) in
    bit_and-high k (bit_or a b)
    ∙ ap (λ (x : ℕ). bit_and x (bit k) * 2) halves
    ∙ ap (λ (r : ℕ). r * 2) rest

pub clear_bit_and :
    (k a b : ℕ)
    → (bit_and a (bit k) ≡ 0) ⊎ (bit_and b (bit k) ≡ 0)
    → bit_and (bit_and a b) (bit k) ≡ 0
clear_bit_and zero a b p = elim p [
  | inl q ↦ omega (arith, q, bit_and-one a, bit_and-one (bit_and a b), bit_and-lowest a b)
  | inr q ↦ omega (arith, q, bit_and-one b, bit_and-one (bit_and a b), bit_and-lowest a b)
]
clear_bit_and (suc k) a b p =
    let halves : bit_and a b / 2 ≡ bit_and (a / 2) (b / 2) = omega (arith, bit_and-lowest a b) in
    let rest = clear_bit_and k (a / 2) (b / 2) (elim p [
      | inl q ↦ inl (omega (arith, q, bit_and-high k a))
      | inr q ↦ inr (omega (arith, q, bit_and-high k b))
    ]) in
    bit_and-high k (bit_and a b)
    ∙ ap (λ (x : ℕ). bit_and x (bit k) * 2) halves
    ∙ ap (λ (r : ℕ). r * 2) rest
