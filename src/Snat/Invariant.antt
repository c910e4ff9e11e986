-- ===== src/Snat/Invariant.antt =====
-- The invariant of `SNATState`: the three dicts track the same public IPs, and in each pool the set
-- of ports and the dict of allocations agree.
use technicolor_haze_prism.Base.{
  ℕ, ◌≤◌, ◌<◌, ◌≡◌, refl, ◌⊎◌, inl, inr, String, Bool, true, false, Option, none, some, List, [],
  Dict, lookup, insert, contains, nat_key, text_key, member, length, Distinct, arith, Bool-cases,
  lookup-insert, IsDict, insert-IsDict, if◌then◌else◌, ◌==◌,
}
use technicolor_haze_prism.Snat.{
  port_min, default_pool_size, PortAllocation, SnatState, init, ensure_pool,
}
use technicolor_haze_prism.Snat.Search.{InPool}

pub record PoolInv (size : ℕ) (set : List ℕ) (pool : Dict ℕ PortAllocation) (hint : ℕ)
    : Type 0 where
  pub distinct : Distinct set
  pub fits : length set ≤ size
  pub in_pool : (p : ℕ) → member p set ≡ true → InPool size p
  pub hint_ok : 0 < size → InPool size hint
  pub recorded : (p : ℕ) → contains p pool ≡ member p set
  pub unique : IsDict pool
  pub keyed : (p : ℕ) (a : PortAllocation) → lookup p pool ≡ some a → a.port ≡ p

-- What the three dicts hold for one public IP: nothing, or a sound pool.
abbrev pub Tracked : ℕ → Option (List ℕ) → Option (Dict ℕ PortAllocation) → Option ℕ → Type 0
Tracked size none none none = Unit
Tracked size (some set) (some pool) (some hint) = PoolInv size set pool hint
Tracked size _ _ _ = ⊥

abbrev pub TrackedAt : SnatState → String → Type 0
TrackedAt s ip =
    Tracked s.pool_size (lookup ip s.allocated) (lookup ip s.allocations) (lookup ip s.next_port)

pub record Inv (s : SnatState) : Type 0 where
  pub bounded : s.pool_size ≤ default_pool_size
  pub unique_ips : IsDict s.allocations
  pub tracked : (ip : String) → TrackedAt s ip

-- The dicts hold a pool at this IP.
pub record Holds (s : SnatState) (ip : String) (set : List ℕ) (pool : Dict ℕ PortAllocation)
    (hint : ℕ) : Type 0 where
  pub set_at : lookup ip s.allocated ≡ some set
  pub pool_at : lookup ip s.allocations ≡ some pool
  pub hint_at : lookup ip s.next_port ≡ some hint
  pub sound : PoolInv s.pool_size set pool hint

pub record Untracked (s : SnatState) (ip : String) : Type 0 where
  pub no_set : lookup ip s.allocated ≡ none
  pub no_pool : lookup ip s.allocations ≡ none
  pub no_hint : lookup ip s.next_port ≡ none

abbrev pub IsTracked : SnatState → String → Type 0
IsTracked s ip =
    (set : List ℕ) × (pool : Dict ℕ PortAllocation) × (hint : ℕ) × Holds s ip set pool hint

Tracked-cases :
    (s : SnatState) (ip : String) (a : Option (List ℕ)) (b : Option (Dict ℕ PortAllocation))
    (c : Option ℕ)
    → lookup ip s.allocated ≡ a
    → lookup ip s.allocations ≡ b
    → lookup ip s.next_port ≡ c
    → Tracked s.pool_size a b c
    → Untracked s ip ⊎ IsTracked s ip
Tracked-cases s ip none none none ea eb ec t =
    inl (record { no_set = ea; no_pool = eb; no_hint = ec })
Tracked-cases s ip (some set) (some pool) (some hint) ea eb ec t =
    inr (set, pool, hint, record { set_at = ea; pool_at = eb; hint_at = ec; sound = t })
Tracked-cases s ip none none (some _) ea eb ec t = absurd t
Tracked-cases s ip none (some _) _ ea eb ec t = absurd t
Tracked-cases s ip (some _) none _ ea eb ec t = absurd t
Tracked-cases s ip (some _) (some _) none ea eb ec t = absurd t

-- Each public IP has a sound pool, or none of the dicts knows it.
pub Inv-cases : (s : SnatState) (ip : String) → Inv s → Untracked s ip ⊎ IsTracked s ip
Inv-cases s ip inv = Tracked-cases s ip _ _ _ refl refl refl (inv.tracked ip)

pub init-Inv : (pool_size : ℕ) → Inv (init pool_size)
unfolding init lookup
init-Inv pool_size = record { bounded = omega arith; unique_ips = tt; tracked = λ ip. tt }

-- The state with another pool at one IP.
abbrev pub store : String → List ℕ → Dict ℕ PortAllocation → ℕ → SnatState → SnatState
store ip set pool hint s = record s {
  allocated = insert ip set s.allocated;
  allocations = insert ip pool s.allocations;
  next_port = insert ip hint s.next_port;
}

-- Storing a sound pool keeps the invariant, and the pools of other IPs.
pub store-Inv :
    (s : SnatState) (ip : String) (set : List ℕ) (pool : Dict ℕ PortAllocation) (hint : ℕ)
    → Inv s
    → PoolInv s.pool_size set pool hint
    → Inv (store ip set pool hint s)
store-Inv s ip set pool hint inv sound = record {
  bounded = inv.bounded;
  unique_ips = insert-IsDict ip pool s.allocations inv.unique_ips;
  tracked = at;
}
  where
    at : (j : String) → TrackedAt (store ip set pool hint s) j
    at j =
        rw
          (
            lookup-insert ip j set s.allocated,
            lookup-insert ip j pool s.allocations,
            lookup-insert ip j hint s.next_port,
          )
          (split (ip == j))
      where
        split :
            (b : Bool)
            → Tracked s.pool_size
                (if b then some set else lookup j s.allocated)
                (if b then some pool else lookup j s.allocations)
                (if b then some hint else lookup j s.next_port)
        split true = sound
        split false = inv.tracked j

pub empty-PoolInv : (size : ℕ) → PoolInv size [] [] port_min
unfolding member contains lookup
empty-PoolInv size = record {
  distinct = tt;
  fits = omega arith;
  in_pool = λ p h. absurd (cc);
  hint_ok = λ h. (omega arith, omega arith);
  recorded = λ p. refl;
  unique = tt;
  keyed = λ p a h. absurd (cc);
}

pub ensure_pool-Inv : (s : SnatState) (ip : String) → Inv s → Inv (ensure_pool ip s)
unfolding ensure_pool
ensure_pool-Inv s ip inv = elim (Bool-cases (contains ip s.allocated)) [
  | inl e ↦ rw (e, ensure_pool) inv
  | inr e ↦ rw (e, ensure_pool) (store-Inv s ip [] [] port_min inv (empty-PoolInv s.pool_size))
]
