-- ===== src/Api/Counts.antt =====
-- How many values of a dict pass a test, after the dict changes.
use technicolor_haze_prism.Base.{
  ℕ, ◌+◌, ◌≤◌, ◌≡◌, refl, String, Bool, false, some, List, [], ◌∷◌, Dict, text_key, if◌then◌else◌,
  lookup, insert, erase, erase_all, stale_keys, values, IsDict, length, select, arith,
  contains-keys, contains-lookup, member-stale_keys, lookup-erase_all, erase_all-IsDict,
}

module _ {V : Type 0} (p : V → Bool) where
  abbrev pub holders : Dict String V → ℕ
  holders d = length (select p (values d))

  pub holders-insert-le :
      (k : String) (v : V) (d : Dict String V)
      → holders (insert k v d) ≤ holders d + (if p v then 1 else 0)
  unfolding insert
  holders-insert-le k v [] = ground arith
  holders-insert-le k v ((l, u) ∷ d) = ground (arith, holders-insert-le k v d)

  pub holders-erase-le : (k : String) (d : Dict String V) → holders (erase k d) ≤ holders d
  unfolding erase
  holders-erase-le k [] = omega arith
  holders-erase-le k ((l, u) ∷ d) = ground (arith, holders-erase-le k d)

  pub holders-erase_all-le :
      (ks : List String) (d : Dict String V) → holders (erase_all ks d) ≤ holders d
  unfolding erase_all
  holders-erase_all-le [] d = omega arith
  holders-erase_all-le (k ∷ ks) d =
      omega (arith, holders-erase_all-le ks (erase k d), holders-erase-le k d)

  holders-none :
      (d : Dict String V)
      → IsDict d
      → ((k : String) (v : V) → lookup k d ≡ some v → p v ≡ false)
      → holders d ≡ 0
  unfolding lookup
  holders-none [] h none_pass = refl
  holders-none ((k, v) ∷ d) h none_pass = ground (
    arith,
    none_pass k v (ground (arith, text_key.same_iff k k)),
    holders-none d h.1 (λ l u at.
        none_pass l u
          (ground (arith, at, h.0, text_key.same_iff k l, contains-keys k d, contains-lookup k d))),
  )

  -- The values that pass are gone with their keys.
  pub holders-erase_all-stale_keys :
      (d : Dict String V) → IsDict d → holders (erase_all (stale_keys p d) d) ≡ 0
  holders-erase_all-stale_keys d h =
      holders-none (erase_all (stale_keys p d) d) (erase_all-IsDict (stale_keys p d) d h) (λ k v at.
        ground (arith, at, lookup-erase_all k (stale_keys p d) d, member-stale_keys p k d h))
