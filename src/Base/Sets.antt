-- ===== src/Base/Sets.antt =====
-- Python's sets: lists tested by a key's equality. `add` keeps a member single.
use Prim.Native.Nat.{suc, ◌≤◌, ◌<◌}
use mathlib.Core.Path.{◌≡◌}
use mathlib.Core.Bool.{Bool, true, false}
use mathlib.Core.List.{List, [], ◌∷◌}
use native.Mathlib.Omega.{arith}
use technicolor_haze_prism.Base.Tests.{if◌then◌else◌}
use technicolor_haze_prism.Base.Lists.{length}
use technicolor_haze_prism.Base.Keys.{Key, ◌==◌}

module _ {ℓ} {K : Type ℓ} ⦃e : Key K⦄ where
  -- `k in s`
  unfoldable pub member : K → List K → Bool
  member k [] = false
  member k (x ∷ xs) = if x == k then true else member k xs

  -- `s.add(k)`
  unfoldable pub add : K → List K → List K
  unfolding member
  add k xs = if member k xs then xs else k ∷ xs

  -- `s.discard(k)`
  unfoldable pub discard : K → List K → List K
  discard k [] = []
  discard k (x ∷ xs) = let rest = discard k xs in if x == k then rest else x ∷ rest

  -- No member stands twice, so the length is the size of the set.
  abbrev pub Distinct : List K → Type 0
  Distinct [] = Unit
  Distinct (x ∷ xs) = (member x xs ≡ false) × Distinct xs

  pub member-add :
      (k j : K) (xs : List K) → member j (add k xs) ≡ (if k == j then true else member j xs)
  unfolding add
  member-add k j xs = ground (arith, e.same_iff k j)

  pub member-discard :
      (k j : K) (xs : List K) → member j (discard k xs) ≡ (if k == j then false else member j xs)
  unfolding member discard
  member-discard k j [] = ground arith
  member-discard k j (x ∷ xs) =
      ground (arith, e.same_iff k j, e.same_iff x k, e.same_iff x j, member-discard k j xs)

  pub add-Distinct : (k : K) (xs : List K) → Distinct xs → Distinct (add k xs)
  unfolding add
  add-Distinct k xs h = ground arith

  pub discard-Distinct : (k : K) (xs : List K) → Distinct xs → Distinct (discard k xs)
  unfolding discard
  discard-Distinct k [] h = tt
  discard-Distinct k (x ∷ xs) h = ground (arith, discard-Distinct k xs h.1, member-discard k x xs)

  pub length-add : (k : K) (xs : List K) → member k xs ≡ false → length (add k xs) ≡ suc (length xs)
  unfolding add
  length-add k xs h = ground arith

  pub length-discard-le : (k : K) (xs : List K) → length (discard k xs) ≤ length xs
  unfolding discard
  length-discard-le k [] = omega arith
  length-discard-le k (x ∷ xs) = ground (arith, length-discard-le k xs)

  -- Discarding a member shortens the list.
  pub length-discard-lt :
      (k : K) (xs : List K) → member k xs ≡ true → length (discard k xs) < length xs
  unfolding member discard
  length-discard-lt k [] h = absurd (ground arith)
  length-discard-lt k (x ∷ xs) h = ground (arith, length-discard-le k xs, length-discard-lt k xs)
