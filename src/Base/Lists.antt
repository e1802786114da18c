-- ===== src/Base/Lists.antt =====
-- Lists measured by native numbers, Boolean list tests, and JavaScript's `Set` of identifiers as a
-- list without repetitions, in insertion order.
use Prim.Native.Nat.{ℕ, suc, ◌+◌}
use mathlib.Core.Path.{◌≡◌, refl}
use mathlib.Core.Bool.{Bool, false, not, ◌&&◌, ◌||◌}
use mathlib.Core.Option.{Option, none, some}
use mathlib.Core.List.{List, [], ◌∷◌, ◌++◌}
use native.Mathlib.Omega.{arith}
use virgo_fleet.Base.Tests.{◌==◌, if◌then◌else◌}

module _ {ℓ} {A : Type ℓ} where
  abbrev pub length : List A → ℕ
  length [] = 0
  length (x ∷ xs) = suc (length xs)

  pub length-append : (xs ys : List A) → length (xs ++ ys) ≡ length xs + length ys
  length-append [] ys = omega arith
  length-append (x ∷ xs) ys = omega (arith, length-append xs ys)

  -- `list.filter(test)` and `list.some(test)`
  abbrev pub keep : (A → Bool) → List A → List A
  keep p [] = []
  keep p (x ∷ xs) = if p x then x ∷ keep p xs else keep p xs

  abbrev pub any : (A → Bool) → List A → Bool
  any p [] = false
  any p (x ∷ xs) = p x || any p xs

  abbrev pub All {κ} : (A → Type κ) → List A → Type κ
  All P [] = Unit
  All P (x ∷ xs) = P x × All P xs

  -- `list.find(test)`
  abbrev pub first : (A → Bool) → List A → Option A
  first p [] = none
  first p (x ∷ xs) = if p x then some x else first p xs

  -- A `for … of` loop over a list that changes the state only.
  unfoldable pub each {κ} : {S : Type κ} → (A → S → S) → List A → S → S
  each f [] s = s
  each f (x ∷ xs) s = each f xs (f x s)

  -- What one round keeps, the loop keeps.
  pub each_inv {κ ν} :
      {S : Type κ} (P : S → Type ν) (f : A → S → S)
      → ((x : A) (s : S) → P s → P (f x s))
      → (xs : List A) (s : S) → P s
      → P (each f xs s)
  unfolding each
  each_inv P f h [] s p = p
  each_inv P f h (x ∷ xs) s p = each_inv P f h xs (f x s) (h x s p)

-- `set.has(x)`
abbrev pub has : List ℕ → ℕ → Bool
has [] x = false
has (y ∷ ys) x = y == x || has ys x

-- `set.add(x)`
unfoldable pub add : ℕ → List ℕ → List ℕ
add x ys = if has ys x then ys else ys ++ x ∷ []

-- `set.delete(x)`
unfoldable pub delete : ℕ → List ℕ → List ℕ
delete x [] = []
delete x (y ∷ ys) = if y == x then delete x ys else y ∷ delete x ys

pub has-append : (xs ys : List ℕ) (z : ℕ) → has (xs ++ ys) z ≡ (has xs z || has ys z)
has-append [] ys z = refl
has-append (x ∷ xs) ys z = ground (arith, has-append xs ys z)

pub has-add : (x : ℕ) (ys : List ℕ) (z : ℕ) → has (add x ys) z ≡ (x == z || has ys z)
unfolding add
has-add x ys z = ground (arith, has-append ys (x ∷ []) z, has_same x z ys)
  where
    has_same : (x z : ℕ) (ys : List ℕ) → x ≡ z → has ys x ≡ has ys z
    has_same x z ys e = cc

pub has-delete : (x : ℕ) (ys : List ℕ) (z : ℕ) → has (delete x ys) z ≡ (not (x == z) && has ys z)
unfolding delete
has-delete x [] z = ground arith
has-delete x (y ∷ ys) z = ground (arith, has-delete x ys z)
