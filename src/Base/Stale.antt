-- ===== src/Base/Stale.antt =====
-- `stale = [k for k, v in d.items() if p(v)]; for k in stale: del d[k]`, as every cleaning of an
-- index is written.
use mathlib.Core.Path.{◌≡◌, refl}
use mathlib.Core.Bool.{Bool, true, false}
use mathlib.Core.List.{List, [], ◌∷◌}
use mathlib.Core.Option.{Option, none, some}
use native.Mathlib.Omega.{arith}
use technicolor_haze_prism.Base.Tests.{if◌then◌else◌, is_some, Option-cases}
use technicolor_haze_prism.Base.Keys.{Key, same_refl}
use technicolor_haze_prism.Base.Lists.{length, select}
use mathlib.Core.Logic.{inl, inr}
use technicolor_haze_prism.Base.Sets.{member, Distinct}
use technicolor_haze_prism.Base.Dicts.{
  Dict, lookup, erase, IsDict, values, lookup-erase, erase-IsDict, contains-keys, contains-lookup,
}

-- The test of an optional value; None fails.
abbrev pub passes {κ} : {V : Type κ} → (V → Bool) → Option V → Bool
passes p none = false
passes p (some v) = p v

module _ {ℓ κ} {K : Type ℓ} {V : Type κ} ⦃e : Key K⦄ where
  unfoldable pub stale_keys : (V → Bool) → Dict K V → List K
  stale_keys p [] = []
  stale_keys p ((k, v) ∷ d) = let rest = stale_keys p d in if p v then k ∷ rest else rest

  unfoldable pub erase_all : List K → Dict K V → Dict K V
  unfolding erase
  erase_all [] d = d
  erase_all (k ∷ ks) d = erase_all ks (erase k d)

  unfoldable pub drop_where : (V → Bool) → Dict K V → Dict K V
  unfolding stale_keys erase_all
  drop_where p d = erase_all (stale_keys p d) d

  pub member-stale_keys :
      (p : V → Bool) (k : K) (d : Dict K V)
      → IsDict d
      → member k (stale_keys p d) ≡ passes p (lookup k d)
  unfolding stale_keys member lookup
  member-stale_keys p k [] h = refl
  member-stale_keys p k ((j, v) ∷ d) h =
      ground
        (arith, e.same_iff j k, member-stale_keys p k d h.1, contains-keys j d, contains-lookup j d)

  pub lookup-erase_all :
      (k : K) (ks : List K) (d : Dict K V)
      → lookup k (erase_all ks d) ≡ (if member k ks then none else lookup k d)
  unfolding erase_all member
  lookup-erase_all k [] d = refl
  lookup-erase_all k (j ∷ ks) d =
      ground (arith, lookup-erase_all k ks (erase j d), lookup-erase j k d)

  pub erase_all-IsDict : (ks : List K) (d : Dict K V) → IsDict d → IsDict (erase_all ks d)
  unfolding erase_all
  erase_all-IsDict [] d h = h
  erase_all-IsDict (k ∷ ks) d h = erase_all-IsDict ks (erase k d) (erase-IsDict k d h)

  pub lookup-drop_where :
      (p : V → Bool) (k : K) (d : Dict K V)
      → IsDict d
      → lookup k (drop_where p d) ≡ (if passes p (lookup k d) then none else lookup k d)
  unfolding drop_where
  lookup-drop_where p k d h =
      ground (arith, lookup-erase_all k (stale_keys p d) d, member-stale_keys p k d h)

  pub drop_where-IsDict : (p : V → Bool) (d : Dict K V) → IsDict d → IsDict (drop_where p d)
  unfolding drop_where
  drop_where-IsDict p d h = erase_all-IsDict (stale_keys p d) d h

  pub stale_keys-Distinct : (p : V → Bool) (d : Dict K V) → IsDict d → Distinct (stale_keys p d)
  unfolding stale_keys
  stale_keys-Distinct p [] h = tt
  stale_keys-Distinct p ((j, v) ∷ d) h = ground (
    arith,
    stale_keys-Distinct p d h.1,
    member-stale_keys p j d h.1,
    contains-keys j d,
    contains-lookup j d,
  )

  -- As many keys are stale as values pass the test.
  pub length-stale_keys :
      (p : V → Bool) (d : Dict K V) → length (stale_keys p d) ≡ length (select p (values d))
  unfolding stale_keys
  length-stale_keys p [] = refl
  length-stale_keys p ((j, v) ∷ d) = ground (arith, length-stale_keys p d)

  -- Each key is there when its turn to be erased comes.
  abbrev pub Present : List K → Dict K V → Type κ
  Present [] d = Unit
  Present (k ∷ ks) d = ((v : V) × (lookup k d ≡ some v)) × Present ks (erase k d)

  all-Present :
      (ks : List K) (d : Dict K V)
      → Distinct ks
      → ((k : K) → member k ks ≡ true → is_some (lookup k d) ≡ true)
      → Present ks d
  unfolding member
  all-Present [] d h there = tt
  all-Present (k ∷ ks) d h there = (
    elim (Option-cases (lookup k d)) [
      | inl gone ↦ absurd (ground (arith, gone, there k, same_refl k))
      | inr found ↦ found
    ],
    all-Present ks (erase k d) h.1
        (λ j at. ground (arith, at, there j, lookup-erase k j d, h.0, e.same_iff k j)),
  )

  pub stale_keys-Present : (p : V → Bool) (d : Dict K V) → IsDict d → Present (stale_keys p d) d
  stale_keys-Present p d h =
      all-Present (stale_keys p d) d (stale_keys-Distinct p d h)
        (λ k at. ground (arith, at, member-stale_keys p k d h, Option-cases (lookup k d)))
