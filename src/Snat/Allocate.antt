-- ===== src/Snat/Allocate.antt =====
-- `allocate_port`: what is granted, what changes, and when the answer is None.
use technicolor_haze_prism.Base.{
  ℕ, ◌≤◌, ◌<◌, ◌≡◌, refl, ap, subst, subst₂, inl, inr, String, Bool, true, false, ◌&&◌, Option,
  none, some, List, [], Dict, lookup, insert, nat_key, text_key, member, add, length, arith,
  Bool-cases, contains-lookup, lookup-insert, lookup-insert_self, member-add, add-Distinct,
  length-add, nat_eq_iff, Result, ok, if◌then◌else◌, ◌==◌, leb, le→leb, leb→le, not-leb→lt, sym,
  ◌∙◌, insert-IsDict, nat_eq,
}
use technicolor_haze_prism.Snat.{
  port_min, PortAllocation, SnatState, Connection, allocation, search, take_hint,
  find_available_port, ensure_pool, record_allocation, allocate_port,
}
use technicolor_haze_prism.Snat.Search.{
  InPool, Searched, FirstFrom, next_in_circle, search-Searched, search_total,
}
use technicolor_haze_prism.Snat.Invariant.{
  PoolInv, Inv, Holds, Untracked, Inv-cases, store, store-Inv, ensure_pool-Inv, empty-PoolInv,
}

-- The abstract view: which ports of a public IP are allocated, and for whom.
abbrev pub ports : String → SnatState → List ℕ
ports ip s = elim (lookup ip s.allocated) [ none ↦ [] | some set ↦ set ]

abbrev pub is_allocated : String → ℕ → SnatState → Bool
is_allocated ip port s = member port (ports ip s)

abbrev pub used : String → SnatState → ℕ
used ip s = length (ports ip s)

abbrev pub details : String → ℕ → SnatState → Option PortAllocation
details ip port s = elim (lookup ip s.allocations) [ none ↦ none | some pool ↦ lookup port pool ]

-- Where the round-robin search of a public IP begins.
abbrev pub hint : String → SnatState → ℕ
hint ip s = elim (lookup ip s.next_port) [ none ↦ port_min | some n ↦ n ]

abbrev granted :
    SnatState → String → Connection → ℕ → List ℕ → Dict ℕ PortAllocation → ℕ × ℕ → SnatState
granted s ip c now set pool (p, n) = store ip (add p set) (insert p (allocation c now p) pool) n s

module _ (s : SnatState) (ip : String) (set : List ℕ) (pool : Dict ℕ PortAllocation) (n : ℕ)
    (h : Holds s ip set pool n) where
  ensure_pool-tracked : ensure_pool ip s ≡ s
  unfolding ensure_pool
  ensure_pool-tracked = rw (contains-lookup ip s.allocated, h.set_at)

  pub allocate_port-full :
      (c : Connection) (now : ℕ)
      → s.pool_size ≤ length set
      → allocate_port ip c now s ≡ (ok none, s)
  unfolding allocate_port
  allocate_port-full c now full = rw (ensure_pool-tracked, h.set_at, le→leb _ _ full)

  pub allocate_port-room :
      (c : Connection) (now : ℕ) (r : ℕ × ℕ)
      → leb s.pool_size (length set) ≡ false
      → search s.pool_size n set ≡ some r
      → allocate_port ip c now s ≡ (ok (some r.0), granted s ip c now set pool r)
  unfolding allocate_port find_available_port take_hint record_allocation
  allocate_port-room c now r room found = ground (arith, ensure_pool-tracked)

-- A grant keeps the pool sound.
granted-PoolInv :
    (size : ℕ) (set : List ℕ) (pool : Dict ℕ PortAllocation) (n : ℕ) (c : Connection) (now : ℕ)
    (r : ℕ × ℕ)
    → PoolInv size set pool n
    → length set < size
    → Searched size n set r
    → PoolInv size (add r.0 set) (insert r.0 (allocation c now r.0) pool) r.1
granted-PoolInv size set pool n c now (p, m) inv room found = record {
  distinct = add-Distinct p set inv.distinct;
  fits = omega (arith, length-add p set found.free);
  in_pool = λ q h. ground (arith, member-add p q set, nat_eq_iff p q, inv.in_pool q, found.in_pool);
  hint_ok = λ h. ground (arith, found.hint, found.in_pool);
  recorded = λ q. ground (
    arith,
    contains-lookup q (insert p (allocation c now p) pool),
    lookup-insert p q (allocation c now p) pool,
    contains-lookup q pool,
    member-add p q set,
    inv.recorded q,
  );
  unique = insert-IsDict p (allocation c now p) pool inv.unique;
  keyed = λ q a h.
      ground (arith, lookup-insert p q (allocation c now p) pool, nat_eq_iff p q, inv.keyed q a);
}

-- What `allocate_port` does at a tracked IP with room.
pub record Grants (s : SnatState) (ip : String) (c : Connection) (now : ℕ) (t : SnatState)
    (port : ℕ) : Type 0 where
  pub in_pool : InPool s.pool_size port
  pub free : is_allocated ip port s ≡ false
  pub others :
      (j : String) (q : ℕ)
      → is_allocated j q t ≡ (if ip == j && nat_eq port q then true else is_allocated j q s)
  pub recorded :
      (j : String) (q : ℕ)
      → details j q t
        ≡ (if ip == j && nat_eq port q then some (allocation c now port) else details j q s)

is_allocated-store :
    (s : SnatState) (ip : String) (set : List ℕ) (pool : Dict ℕ PortAllocation) (n : ℕ) (j : String)
    (q : ℕ)
    → is_allocated j q (store ip set pool n s)
      ≡ (if ip == j then member q set else is_allocated j q s)
is_allocated-store s ip set pool n j q = ground (arith, lookup-insert ip j set s.allocated)

details-store :
    (s : SnatState) (ip : String) (set : List ℕ) (pool : Dict ℕ PortAllocation) (n : ℕ) (j : String)
    (q : ℕ)
    → details j q (store ip set pool n s) ≡ (if ip == j then lookup q pool else details j q s)
details-store s ip set pool n j q = ground (arith, lookup-insert ip j pool s.allocations)

granted-Grants :
    (s : SnatState) (ip : String) (set : List ℕ) (pool : Dict ℕ PortAllocation) (n : ℕ)
    (c : Connection) (now : ℕ) (r : ℕ × ℕ)
    → Holds s ip set pool n
    → Searched s.pool_size n set r
    → Grants s ip c now (granted s ip c now set pool r) r.0
granted-Grants s ip set pool n c now (p, m) h found = record {
  in_pool = found.in_pool;
  free = ground (arith, found.free);
  others = λ j q. ground (
    arith,
    is_allocated-store s ip (add p set) (insert p (allocation c now p) pool) m j q,
    member-add p q set,
    text_key.same_iff ip j,
  );
  recorded = λ j q. ground (
    arith,
    details-store s ip (add p set) (insert p (allocation c now p) pool) m j q,
    lookup-insert p q (allocation c now p) pool,
    text_key.same_iff ip j,
  );
}

-- The round-robin order: the first free port from the hint on, round the circle.
abbrev pub InTurn : SnatState → String → ℕ → Type 0
InTurn s ip port = FirstFrom s.pool_size (hint ip s) (ports ip s) port

-- All that a successful call does.
pub record Allocates (s : SnatState) (ip : String) (c : Connection) (now : ℕ) : Type 0 where
  pub port : ℕ
  pub after : SnatState
  pub call : allocate_port ip c now s ≡ (ok (some port), after)
  pub grants : Grants s ip c now after port
  pub in_turn : InTurn s ip port
  pub next_hint : hint ip after ≡ next_in_circle s.pool_size port
  pub sound : Inv after

allocate_tracked :
    (s : SnatState) (ip : String) (set : List ℕ) (pool : Dict ℕ PortAllocation) (n : ℕ)
    (c : Connection) (now : ℕ)
    → Inv s
    → Holds s ip set pool n
    → used ip s < s.pool_size
    → Allocates s ip c now
allocate_tracked s ip set pool n c now inv h room =
    let room' : length set < s.pool_size = ground arith in
    let n_ok : InPool s.pool_size n = h.sound.hint_ok (omega arith) in
    let found = search_total s.pool_size n set n_ok room' in
    let ok_search = search-Searched s.pool_size n set n_ok found.0 found.1 in
    record {
      port = found.0.0;
      after = granted s ip c now set pool found.0;
      call = allocate_port-room s ip set pool n h c now found.0 (ground arith) found.1;
      grants = granted-Grants s ip set pool n c now found.0 h ok_search;
      in_turn = ground (arith, ok_search.first);
      next_hint = ground (arith, lookup-insert_self ip found.0.1 s.next_port, ok_search.hint);
      sound =
          store-Inv s ip _ _ _ inv
            (granted-PoolInv s.pool_size set pool n c now found.0 h.sound room' ok_search);
    }

module _ (s : SnatState) (ip : String) (u : Untracked s ip) where
  ensured : ensure_pool ip s ≡ store ip [] [] port_min s
  unfolding ensure_pool
  ensured = ground (arith, contains-lookup ip s.allocated)

  ensure_pool-Holds : Holds (ensure_pool ip s) ip [] [] port_min
  ensure_pool-Holds = rw ensured (record {
    set_at = lookup-insert_self ip [] s.allocated;
    pool_at = lookup-insert_self ip [] s.allocations;
    hint_at = lookup-insert_self ip port_min s.next_port;
    sound = empty-PoolInv s.pool_size;
  })

  -- Tracking an IP allocates nothing.
  ensure_pool-view :
      (j : String) (q : ℕ)
      → (is_allocated j q (ensure_pool ip s) ≡ is_allocated j q s)
        × (details j q (ensure_pool ip s) ≡ details j q s)
  unfolding member lookup
  ensure_pool-view j q = rw ensured (
    ground (arith, is_allocated-store s ip [] [] port_min j q, text_key.same_iff ip j),
    ground (arith, details-store s ip [] [] port_min j q, text_key.same_iff ip j),
  )

  allocate-ensured :
      (c : Connection) (now : ℕ)
      → allocate_port ip c now s ≡ allocate_port ip c now (ensure_pool ip s)
  unfolding allocate_port
  allocate-ensured c now =
      ground (arith, ensure_pool-tracked (ensure_pool ip s) ip [] [] port_min ensure_pool-Holds)

  ensured_size : (ensure_pool ip s).pool_size ≡ s.pool_size
  ensured_size = rw ensured

  ensured_ports : ports ip (ensure_pool ip s) ≡ ports ip s
  ensured_ports = ground (arith, ensured, lookup-insert_self ip [] s.allocated)

  ensured_hint : hint ip (ensure_pool ip s) ≡ hint ip s
  ensured_hint = ground (arith, ensured, lookup-insert_self ip port_min s.next_port)

  ensured-Grants :
      (c : Connection) (now : ℕ) (t : SnatState) (port : ℕ)
      → Grants (ensure_pool ip s) ip c now t port
      → Grants s ip c now t port
  ensured-Grants c now t port g = record {
    in_pool = subst (λ n. InPool n port) ensured_size g.in_pool;
    free = sym (ensure_pool-view ip port).0 ∙ g.free;
    others = λ j q. rw (← (ensure_pool-view j q).0) (g.others j q);
    recorded = λ j q. rw (← (ensure_pool-view j q).1) (g.recorded j q);
  }

  ensured-Allocates : (c : Connection) (now : ℕ) → Inv s → 0 < s.pool_size → Allocates s ip c now
  ensured-Allocates c now inv room = record {
    port = a.port;
    after = a.after;
    call = allocate-ensured c now ∙ a.call;
    grants = ensured-Grants c now a.after a.port a.grants;
    in_turn =
        subst (λ n. FirstFrom n (hint ip s) (ports ip s) a.port) ensured_size
          (subst (λ n. FirstFrom (ensure_pool ip s).pool_size n (ports ip s) a.port) ensured_hint
            (subst
              (λ n. FirstFrom (ensure_pool ip s).pool_size (hint ip (ensure_pool ip s)) n a.port)
              ensured_ports a.in_turn));
    next_hint = a.next_hint ∙ ap (λ n. next_in_circle n a.port) ensured_size;
    sound = a.sound;
  }
    where
      a : Allocates (ensure_pool ip s) ip c now
      a =
          allocate_tracked (ensure_pool ip s) ip [] [] port_min c now (ensure_pool-Inv s ip inv)
            ensure_pool-Holds (ground (arith, ensured_size, ensured_ports, u.no_set))

-- While fewer ports are in use than the pool has, `allocate_port` grants a port of the pool that was
-- free, the first in round-robin order; it records the connection under that port, moves the hint to
-- the next port of the circle, changes nothing for any other port or public IP, raises nothing, and
-- keeps the invariant.
pub allocate_port-Allocates :
    (s : SnatState) (ip : String) (c : Connection) (now : ℕ)
    → Inv s
    → used ip s < s.pool_size
    → Allocates s ip c now
allocate_port-Allocates s ip c now inv room = elim (Inv-cases s ip inv) [
  | inl u ↦ ensured-Allocates s ip u c now inv (omega (arith, room))
  | inr (set, pool, n, h) ↦ allocate_tracked s ip set pool n c now inv h room
]

-- When the pool is full, `allocate_port` answers None, and no port of any public IP changes hands.
pub allocate_port-exhausted :
    (s : SnatState) (ip : String) (c : Connection) (now : ℕ)
    → Inv s
    → s.pool_size ≤ used ip s
    → let (r, t) = allocate_port ip c now s in
      (r ≡ ok none)
      × Inv t
      × ((j : String) (q : ℕ)
          → (is_allocated j q t ≡ is_allocated j q s) × (details j q t ≡ details j q s))
allocate_port-exhausted s ip c now inv full = elim (Inv-cases s ip inv) [
  | inl u ↦
      let e : allocate_port ip c now s ≡ (ok none, ensure_pool ip s) =
        allocate-ensured s ip u c now
        ∙ allocate_port-full (ensure_pool ip s) ip [] [] port_min (ensure_pool-Holds s ip u) c now
            (ground (arith, ensured_size s ip u, u.no_set)) in
      rw e (refl, ensure_pool-Inv s ip inv, ensure_pool-view s ip u)
  | inr (set, pool, n, h) ↦
      rw (allocate_port-full s ip set pool n h c now (ground arith))
        (refl, inv, λ j q. (refl, refl))
]

-- A port that a call returns was granted.
pub allocate-Grants :
    (s : SnatState) (ip : String) (c : Connection) (now port : ℕ) (t : SnatState)
    → Inv s
    → allocate_port ip c now s ≡ (ok (some port), t)
    → Grants s ip c now t port × Inv t
allocate-Grants s ip c now port t inv e = elim (Bool-cases (leb s.pool_size (used ip s))) [
  | inl full ↦
      let no : (allocate_port ip c now s).0 ≡ ok none =
        (allocate_port-exhausted s ip c now inv (leb→le _ _ full)).0 in
      absurd (cc)
  | inr room ↦
      let a : Allocates s ip c now = allocate_port-Allocates s ip c now inv (not-leb→lt _ _ room) in
      let same_result : ◌≡◌ {A = Result (Option ℕ) × SnatState} (ok (some a.port), a.after)
          (ok (some port), t) =
        sym a.call ∙ e in
      let same_port : a.port ≡ port = cc in
      let same_state : a.after ≡ t = ap (λ r. r.1) same_result in
      (subst₂ (Grants s ip c now) same_state same_port a.grants, subst Inv same_state a.sound)
]
