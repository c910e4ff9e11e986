-- ===== src/Base/Slots.antt =====
-- Places of a list by number, and a sum over it: what one write changes.
use Prim.Native.Nat.{ℕ, zero, suc, ◌+◌, ◌<◌}
use mathlib.Core.Path.{◌≡◌, refl, ap, subst}
use mathlib.Core.Logic.{◌≢◌}
use mathlib.Core.List.{List, [], ◌∷◌, ◌++◌}
use mathlib.Core.Option.{Option, none, some}
use native.Mathlib.Omega.{arith}
use technicolor_haze_prism.Base.Tests.{or_else}
use technicolor_haze_prism.Base.Lists.{length, All}

module _ {ℓ} {A : Type ℓ} where
  abbrev pub get_elem? : List A → ℕ → Option A
  get_elem? [] n = none
  get_elem? (x ∷ xs) zero = some x
  get_elem? (x ∷ xs) (suc n) = get_elem? xs n

  -- Out of range, nothing changes.
  abbrev pub set : List A → ℕ → A → List A
  set [] n a = []
  set (x ∷ xs) zero a = a ∷ xs
  set (x ∷ xs) (suc n) a = x ∷ set xs n a

  abbrev pub sum_by : (A → ℕ) → List A → ℕ
  sum_by f [] = 0
  sum_by f (x ∷ xs) = f x + sum_by f xs

  pub length-set : (xs : List A) (n : ℕ) (a : A) → length (set xs n a) ≡ length xs
  length-set [] n a = refl
  length-set (x ∷ xs) zero a = refl
  length-set (x ∷ xs) (suc n) a = ap suc (length-set xs n a)

  pub get-set :
      (xs : List A) (n : ℕ) (a old : A)
      → get_elem? xs n ≡ some old
      → get_elem? (set xs n a) n ≡ some a
  get-set [] n a old h = ground (arith, h)
  get-set (x ∷ xs) zero a old h = refl
  get-set (x ∷ xs) (suc n) a old h = get-set xs n a old h

  pub get-set_ne :
      (xs : List A) (m n : ℕ) (a : A) → m ≢ n → get_elem? (set xs m a) n ≡ get_elem? xs n
  get-set_ne [] m n a h = refl
  get-set_ne (x ∷ xs) zero zero a h = ground (arith, h)
  get-set_ne (x ∷ xs) zero (suc n) a h = refl
  get-set_ne (x ∷ xs) (suc m) zero a h = refl
  get-set_ne (x ∷ xs) (suc m) (suc n) a h = get-set_ne xs m n a (λ e. h (ap suc e))

  -- A write moves the sum by what the place held and holds.
  pub sum-set :
      (f : A → ℕ) (xs : List A) (n : ℕ) (a old : A)
      → get_elem? xs n ≡ some old
      → sum_by f (set xs n a) + f old ≡ sum_by f xs + f a
  sum-set f [] n a old h = ground (arith, h)
  sum-set f (x ∷ xs) zero a old h = omega (arith, ap f (ap (λ o. or_else o x) h))
  sum-set f (x ∷ xs) (suc n) a old h = omega (arith, sum-set f xs n a old h)

  pub get-length : (xs : List A) (n : ℕ) → n < length xs → (a : A) × (get_elem? xs n ≡ some a)
  get-length [] n h = ground (arith, h)
  get-length (x ∷ xs) zero h = (x, refl)
  get-length (x ∷ xs) (suc n) h = get-length xs n (omega (arith, h))

  pub get-All :
      (P : A → Type 0) (xs : List A) (n : ℕ) (a : A) → All P xs → get_elem? xs n ≡ some a → P a
  get-All P [] n a h e = ground (arith, e)
  get-All P (x ∷ xs) zero a h e = subst P (ap (λ o. or_else o x) e) h.0
  get-All P (x ∷ xs) (suc n) a h e = get-All P xs n a h.1 e

  pub set-All : (P : A → Type 0) (xs : List A) (n : ℕ) (a : A) → All P xs → P a → All P (set xs n a)
  set-All P [] n a h p = tt
  set-All P (x ∷ xs) zero a h p = (p, h.1)
  set-All P (x ∷ xs) (suc n) a h p = (h.0, set-All P xs n a h.1 p)

  pub append-All : (P : A → Type 0) (xs ys : List A) → All P xs → All P ys → All P (xs ++ ys)
  append-All P [] ys h k = k
  append-All P (x ∷ xs) ys h k = (h.0, append-All P xs ys h.1 k)

  pub map-All : {P Q : A → Type 0} (xs : List A) → ((a : A) → P a → Q a) → All P xs → All Q xs
  map-All [] f h = tt
  map-All (x ∷ xs) f h = (f x h.0, map-All xs f h.1)

  pub sum-append : (f : A → ℕ) (xs ys : List A) → sum_by f (xs ++ ys) ≡ sum_by f xs + sum_by f ys
  sum-append f [] ys = omega arith
  sum-append f (x ∷ xs) ys = omega (arith, sum-append f xs ys)

  pub get-append :
      (xs ys : List A) (n : ℕ) (a : A) → get_elem? xs n ≡ some a → get_elem? (xs ++ ys) n ≡ some a
  get-append [] ys n a h = ground (arith, h)
  get-append (x ∷ xs) ys zero a h = h
  get-append (x ∷ xs) ys (suc n) a h = get-append xs ys n a h
