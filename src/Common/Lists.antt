-- ===== src/Common/Lists.antt =====
-- Lists measured by native numbers, and membership decided by the source's `==`.
use Prim.Native.Nat.{ℕ, zero, suc, ◌+◌}
use mathlib.Core.Path.{◌≡◌, refl}
use mathlib.Core.Bool.{Bool, true, false, not, ◌&&◌, ◌||◌}
use mathlib.Core.List.{List, [], ◌∷◌, ◌++◌}
use mathlib.Core.Option.{Option, none, some}
use native.Mathlib.Omega.{arith}
use m_scale.Common.Tests.{Eq, ◌==◌, if◌then◌else◌}

module _ {ℓ} {A : Type ℓ} where
  abbrev pub length : List A → ℕ
  length [] = 0
  length (x ∷ xs) = suc (length xs)

  abbrev pub get_elem? : List A → ℕ → Option A
  get_elem? [] i = none
  get_elem? (x ∷ xs) zero = some x
  get_elem? (x ∷ xs) (suc i) = get_elem? xs i

  pub length-append : (xs ys : List A) → length (xs ++ ys) ≡ length xs + length ys
  length-append [] ys = omega arith
  length-append (x ∷ xs) ys = omega (arith, length-append xs ys)

  -- A predicate of every entry, by recursion, so that the tactics read it.
  abbrev pub All {κ} : (A → Type κ) → List A → Type κ
  All P [] = Unit
  All P (x ∷ xs) = P x × All P xs

  pub All-append {κ} : (P : A → Type κ) (xs ys : List A) → All P xs → All P ys → All P (xs ++ ys)
  All-append P [] ys h k = k
  All-append P (x ∷ xs) ys h k = (h.0, All-append P xs ys h.1 k)

module _ {ℓ} {A : Type ℓ} ⦃e : Eq A⦄ where
  -- `a in xs`
  abbrev pub contains : List A → A → Bool
  contains [] a = false
  contains (x ∷ xs) a = x == a || contains xs a

  -- `xs.remove(a)` where `a` is there: the first equal entry goes.
  abbrev pub erase : List A → A → List A
  erase [] a = []
  erase (x ∷ xs) a = if x == a then xs else x ∷ erase xs a

  abbrev pub IsDistinct : List A → Type 0
  IsDistinct [] = Unit {0}
  IsDistinct (x ∷ xs) = (contains xs x ≡ false) × IsDistinct xs

  pub beq_refl : (a : A) → (a == a) ≡ true
  beq_refl a = (e.beq_iff a a).1 refl

  pub contains-append :
      (xs ys : List A) (a : A) → contains (xs ++ ys) a ≡ (contains xs a || contains ys a)
  contains-append [] ys a = refl
  contains-append (x ∷ xs) ys a = ground (arith, contains-append xs ys a)

  abbrev pub erase_all : List A → List A → List A
  erase_all xs [] = xs
  erase_all xs (a ∷ gone) = erase_all (erase xs a) gone

  pub contains-erase :
      (xs : List A) (a t : A)
      → IsDistinct xs
      → contains (erase xs a) t ≡ (contains xs t && not (a == t))
  contains-erase [] a t d = refl
  contains-erase (x ∷ xs) a t d =
      ground (arith, e.beq_iff x a, e.beq_iff x t, e.beq_iff a t, contains-erase xs a t)

  pub erase-IsDistinct : (xs : List A) (a : A) → IsDistinct xs → IsDistinct (erase xs a)
  erase-IsDistinct [] a d = tt
  erase-IsDistinct (x ∷ xs) a d = ground (arith, contains-erase xs a x, erase-IsDistinct xs a)

  pub contains-erase_all :
      (xs gone : List A) (t : A)
      → IsDistinct xs
      → contains (erase_all xs gone) t ≡ (contains xs t && not (contains gone t))
  contains-erase_all xs [] t d = ground arith
  contains-erase_all xs (a ∷ gone) t d = ground (
    arith,
    contains-erase xs a t d,
    contains-erase_all (erase xs a) gone t (erase-IsDistinct xs a d),
  )
