-- ===== src/Snat/Expiry.antt =====
-- `release_expired`: a sweep over all pools frees the lapsed allocations and no other.
use technicolor_haze_prism.Base.{
  ℕ, ◌+◌, ◌≡◌, refl, inl, inr, String, Bool, true, false, ◌&&◌, Option, none, some, List, [], ◌∷◌,
  Dict, lookup, erase, contains, keys, nat_key, text_key, member, discard, length, Distinct, arith,
  contains-lookup, contains-keys, lookup-insert, lookup-erase, member-discard, same_refl,
  nat_eq_iff, IsDict, ok, if◌then◌else◌, ◌∙◌,
}
use technicolor_haze_prism.Snat.{
  PortAllocation, SnatState, is_expired, expired_ports, release_all, release_expired_ip,
  release_expired_ips, release_expired,
}
use technicolor_haze_prism.Snat.Invariant.{PoolInv, Inv, Holds, IsTracked, Inv-cases}
use technicolor_haze_prism.Snat.Allocate.{is_allocated, details, hint}
use technicolor_haze_prism.Snat.Release.{
  restore, is_allocated-restore, details-restore, restore-Inv, erase-PoolInv,
}

-- Whether an allocation on record, if any, has run out.
abbrev pub lapsed : ℕ → Option PortAllocation → Bool
lapsed now none = false
lapsed now (some a) = is_expired now a

member-expired_ports :
    (now q : ℕ) (pool : Dict ℕ PortAllocation)
    → IsDict pool
    → member q (expired_ports now pool) ≡ lapsed now (lookup q pool)
unfolding expired_ports member lookup
member-expired_ports now q [] h = refl
member-expired_ports now q ((p, a) ∷ pool) h = ground (
  arith,
  nat_eq_iff p q,
  member-expired_ports now q pool h.1,
  contains-keys p pool,
  contains-lookup p pool,
)

member-release_all :
    (q : ℕ) (ps set : List ℕ) (pool : Dict ℕ PortAllocation)
    → member q (release_all ps (set, pool)).0 ≡ (if member q ps then false else member q set)
unfolding release_all member
member-release_all q [] set pool = refl
member-release_all q (p ∷ ps) set pool = ground (
  arith,
  member-release_all q ps (discard p set) (erase p pool),
  member-discard p q set,
  nat_eq_iff p q,
)

lookup-release_all :
    (q : ℕ) (ps set : List ℕ) (pool : Dict ℕ PortAllocation)
    → lookup q (release_all ps (set, pool)).1 ≡ (if member q ps then none else lookup q pool)
unfolding release_all member
lookup-release_all q [] set pool = refl
lookup-release_all q (p ∷ ps) set pool = ground (
  arith,
  lookup-release_all q ps (discard p set) (erase p pool),
  lookup-erase p q pool,
  nat_eq_iff p q,
)

release_all-PoolInv :
    (size : ℕ) (ps set : List ℕ) (pool : Dict ℕ PortAllocation) (n : ℕ)
    → PoolInv size set pool n
    → let (set', pool') = release_all ps (set, pool) in PoolInv size set' pool' n
unfolding release_all
release_all-PoolInv size [] set pool n inv = inv
release_all-PoolInv size (p ∷ ps) set pool n inv =
    release_all-PoolInv size ps (discard p set) (erase p pool) n
      (erase-PoolInv size set pool n p inv)

-- The sweep over the IPs of `ips`, seen port by port.
pub record Sweeps (now : ℕ) (ips : List String) (s t : SnatState) : Type 0 where
  pub kept :
      (j : String) (q : ℕ)
      → is_allocated j q t
        ≡ (if member j ips && lapsed now (details j q s) then false else is_allocated j q s)
  pub on_record :
      (j : String) (q : ℕ)
      → details j q t ≡ (if member j ips && lapsed now (details j q s) then none else details j q s)
  pub same_hint : (j : String) → hint j t ≡ hint j s
  pub same_ips : (j : String) → contains j t.allocations ≡ contains j s.allocations
  pub sound : Inv t

-- The record of one IP, empty where it is not tracked.
abbrev pool_at : String → SnatState → Dict ℕ PortAllocation
pool_at ip s = elim (lookup ip s.allocations) [ none ↦ [] | some pool ↦ pool ]

-- How many ports of the IPs have run out.
pub expired_count : ℕ → List String → SnatState → ℕ
expired_count now [] s = 0
expired_count now (ip ∷ ips) s = length (expired_ports now (pool_at ip s)) + expired_count now ips s

abbrev swept : ℕ → String → List ℕ → Dict ℕ PortAllocation → SnatState → SnatState
swept now ip set pool s =
    let pools = release_all (expired_ports now pool) (set, pool) in restore ip pools.0 pools.1 s

module _ (now : ℕ) (s : SnatState) (ip : String) (set : List ℕ) (pool : Dict ℕ PortAllocation)
    (n : ℕ) (h : Holds s ip set pool n) where
  release_expired_ip-swept :
      release_expired_ip now ip s ≡ (ok (length (expired_ports now pool)), swept now ip set pool s)
  unfolding release_expired_ip
  release_expired_ip-swept = ground arith

  swept-Sweeps : Inv s → Sweeps now (ip ∷ []) s (swept now ip set pool s)
  unfolding member
  swept-Sweeps inv = record {
    kept = λ j q. ground (
      arith,
      is_allocated-restore s ip (release_all (expired_ports now pool) (set, pool)).0
          (release_all (expired_ports now pool) (set, pool)).1 j q,
      member-release_all q (expired_ports now pool) set pool,
      member-expired_ports now q pool h.sound.unique,
      text_key.same_iff ip j,
    );
    on_record = λ j q. ground (
      arith,
      details-restore s ip (release_all (expired_ports now pool) (set, pool)).0
          (release_all (expired_ports now pool) (set, pool)).1 j q,
      lookup-release_all q (expired_ports now pool) set pool,
      member-expired_ports now q pool h.sound.unique,
      text_key.same_iff ip j,
    );
    same_hint = λ j. refl;
    same_ips = λ j. ground (
      arith,
      contains-lookup j (swept now ip set pool s).allocations,
      contains-lookup j s.allocations,
      lookup-insert ip j (release_all (expired_ports now pool) (set, pool)).1 s.allocations,
      text_key.same_iff ip j,
    );
    sound =
        restore-Inv s ip (release_all (expired_ports now pool) (set, pool)).0
          (release_all (expired_ports now pool) (set, pool)).1 n inv h.hint_at
          (release_all-PoolInv s.pool_size (expired_ports now pool) set pool n h.sound);
  }

  expired_count-swept :
      (ips : List String)
      → member ip ips ≡ false
      → expired_count now ips (swept now ip set pool s) ≡ expired_count now ips s
  unfolding expired_count member
  expired_count-swept [] e = refl
  expired_count-swept (j ∷ ips) e = ground (
    arith,
    lookup-insert ip j (release_all (expired_ports now pool) (set, pool)).1 s.allocations,
    text_key.same_iff ip j,
    text_key.same_iff j ip,
    expired_count-swept ips,
  )

Sweeps-cons :
    (now : ℕ) (ip : String) (ips : List String) (s t u : SnatState)
    → Sweeps now (ip ∷ []) s t
    → Sweeps now ips t u
    → Sweeps now (ip ∷ ips) s u
unfolding member
Sweeps-cons now ip ips s t u a b = record {
  kept = λ j q. ground (arith, a.kept j q, a.on_record j q, b.kept j q);
  on_record = λ j q. ground (arith, a.on_record j q, b.on_record j q);
  same_hint = λ j. b.same_hint j ∙ a.same_hint j;
  same_ips = λ j. b.same_ips j ∙ a.same_ips j;
  sound = b.sound;
}

-- Where the allocations dict has the IP, the invariant gives its pool.
held : (s : SnatState) (ip : String) → Inv s → contains ip s.allocations ≡ true → IsTracked s ip
held s ip inv e = elim (Inv-cases s ip inv) [
  | inl u ↦ absurd (ground (arith, contains-lookup ip s.allocations, u.no_pool))
  | inr tracked ↦ tracked
]

abbrev AllTracked : List String → SnatState → Type 0
AllTracked ips s = (j : String) → member j ips ≡ true → contains j s.allocations ≡ true

sweep_loop :
    (now acc : ℕ) (ips : List String) (s : SnatState)
    → Inv s
    → Distinct ips
    → AllTracked ips s
    → (t : SnatState) × (release_expired_ips now acc ips s
        ≡ (ok (acc + expired_count now ips s), t))
      × Sweeps now ips s t
unfolding release_expired_ips expired_count member
sweep_loop now acc [] s inv d all = (
  s,
  ground arith,
  record {
    kept = λ j q. refl;
    on_record = λ j q. refl;
    same_hint = λ j. refl;
    same_ips = λ j. refl;
    sound = inv;
  },
)
sweep_loop now acc (ip ∷ ips) s inv d all =
    let (set, pool, n, h) = held s ip inv (all ip (ground (arith, same_refl ip))) in
    let t : SnatState = swept now ip set pool s in
    let first : Sweeps now (ip ∷ []) s t = swept-Sweeps now s ip set pool n h inv in
    let (u, run, rest) =
      sweep_loop now (acc + length (expired_ports now pool)) ips t first.sound d.1
        (λ j e. first.same_ips j ∙ all j (ground arith)) in
    (
      u,
      ground (
        arith,
        release_expired_ip-swept now s ip set pool n h,
        run,
        expired_count-swept now s ip set pool n h ips d.0,
        h.pool_at,
      ),
      Sweeps-cons now ip ips s t u first rest,
    )

-- `release_expired` raises nothing, frees exactly the ports whose allocation has run out at `now`,
-- on every public IP, leaves all other ports and the hints alone, answers how many were released,
-- and keeps the invariant.
pub release_expired-sweeps :
    (now : ℕ) (s : SnatState)
    → Inv s
    → (t : SnatState) × (release_expired now s ≡ (ok (expired_count now (keys s.allocations) s), t))
      × ((j : String) (q : ℕ)
          → (is_allocated j q t
              ≡ (if lapsed now (details j q s) then false else is_allocated j q s))
            × (details j q t ≡ (if lapsed now (details j q s) then none else details j q s)))
      × ((j : String) → hint j t ≡ hint j s)
      × Inv t
unfolding release_expired
release_expired-sweeps now s inv =
    let (t, run, sweeps) =
      sweep_loop now 0 (keys s.allocations) s inv inv.unique_ips
        (λ j e. contains-keys j s.allocations ∙ e) in
    (
      t,
      ground (arith, run),
      λ j q. (
        ground (
          arith,
          sweeps.kept j q,
          contains-keys j s.allocations,
          contains-lookup j s.allocations,
        ),
        ground (
          arith,
          sweeps.on_record j q,
          contains-keys j s.allocations,
          contains-lookup j s.allocations,
        ),
      ),
      sweeps.same_hint,
      sweeps.sound,
    )
