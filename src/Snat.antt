-- ===== src/Snat.antt =====
-- tc-firewall/src/snat_state.py: port pools for masquerade SNAT. The three dicts of `SNATState` are
-- fields; a public IP is a text, a port a number. Times are natural numbers of one unit, so
-- `now - allocated_at >= timeout` is written `allocated_at + timeout ≤ now`.
pub mod Search
pub mod Invariant
pub mod Allocate
pub mod Release
pub mod Expiry
pub mod Stats
pub mod History
mod Tests
use technicolor_haze_prism.Base.{
  ℕ, zero, suc, ◌+◌, ◌-◌, ◌*◌, min, String, Bool, true, false, Option, none, some, List, [], ◌∷◌,
  Dict, lookup, insert, erase, contains, keys, nat_key, text_key, member, add, discard, length, ltb,
  leb, if◌then◌else◌, Action, ok, err, key_error, zero_division, pure, raise, gets, modify,
  or_raise, ◌>>=◌, ◌>>◌, not, map, Result, nat_eq, ◌==◌, ◌&&◌,
}

abbrev pub port_min : ℕ
port_min = 1024

abbrev pub port_max : ℕ
port_max = 65535

abbrev pub default_pool_size : ℕ
default_pool_size = port_max - port_min + 1

pub record PortAllocation : Type 0 where
  pub port : ℕ
  pub src_ip : String
  pub dst_ip : String
  pub dst_port : ℕ
  pub protocol : String
  pub allocated_at : ℕ
  pub timeout : ℕ

pub record SnatState : Type 0 where
  pub pool_size : ℕ
  pub allocated : Dict String (List ℕ)
  pub allocations : Dict String (Dict ℕ PortAllocation)
  pub next_port : Dict String ℕ

-- `SNATState.__init__`; a negative size, which the class does not refuse, is left out.
unfoldable pub init : ℕ → SnatState
init pool_size = record {
  pool_size = min pool_size default_pool_size;
  allocated = [];
  allocations = [];
  next_port = [];
}

-- `while port < port + rounds: if port not in allocated_set: ...; port += 1`
pub first_free : ℕ → ℕ → List ℕ → Option ℕ
first_free zero port allocated_set = none
first_free (suc rounds) port allocated_set =
    let rest = first_free rounds (port + 1) allocated_set in
    if member port allocated_set then rest else some port

-- Both loops of `_find_available_port`: the port found and the new round-robin hint. The first loop
-- tests `port <= effective_max` and the second `port < start`.
unfoldable pub search : ℕ → ℕ → List ℕ → Option (ℕ × ℕ)
unfolding first_free
search pool_size start allocated_set =
    let effective_max = port_min + pool_size - 1 in
    elim (first_free (effective_max + 1 - start) start allocated_set) [
      | some port ↦ some (port, if ltb effective_max (port + 1) then port_min else port + 1)
      | none ↦ elim (first_free (start - port_min) port_min allocated_set) [
        | some port ↦ some (port, port + 1)
        | none ↦ none
      ]
    ]

-- Stores the hint where the search found a port.
pub take_hint : String → Option (ℕ × ℕ) → Action SnatState (Option ℕ)
take_hint public_ip none = pure none
take_hint public_ip (some (port, next)) = do
  modify (λ s. record s { next_port = insert public_ip next s.next_port })
  pure (some port)

pub find_available_port : String → Action SnatState (Option ℕ)
unfolding take_hint
find_available_port public_ip = do
  allocated_set ← or_raise (← gets (λ s. lookup public_ip s.allocated)) key_error
  start ← or_raise (← gets (λ s. lookup public_ip s.next_port)) key_error
  pool_size ← gets (λ s. s.pool_size)
  take_hint public_ip (search pool_size start allocated_set)

-- What a caller of `allocate_port` passes beside the public IP.
pub record Connection : Type 0 where
  pub src_ip : String
  pub dst_ip : String
  pub dst_port : ℕ
  pub protocol : String
  pub timeout : ℕ

abbrev pub allocation : Connection → ℕ → ℕ → PortAllocation
allocation c now port = record {
  port = port;
  src_ip = c.src_ip;
  dst_ip = c.dst_ip;
  dst_port = c.dst_port;
  protocol = c.protocol;
  allocated_at = now;
  timeout = c.timeout;
}

-- "Initialize pool tracking for this public IP if needed"
pub ensure_pool : String → SnatState → SnatState
ensure_pool public_ip s = if contains public_ip s.allocated then s else record s {
  allocated = insert public_ip [] s.allocated;
  allocations = insert public_ip [] s.allocations;
  next_port = insert public_ip port_min s.next_port;
}

-- `allocated_set` is the object in the dict, so adding to it updates the dict.
pub record_allocation : String → List ℕ → PortAllocation → Action SnatState (Option ℕ)
record_allocation public_ip allocated_set a = do
  modify (λ s. record s { allocated = insert public_ip (add a.port allocated_set) s.allocated })
  pool ← or_raise (← gets (λ s. lookup public_ip s.allocations)) key_error
  modify (λ s. record s { allocations = insert public_ip (insert a.port a pool) s.allocations })
  pure (some a.port)

unfoldable pub allocate_port : String → Connection → ℕ → Action SnatState (Option ℕ)
unfolding ensure_pool find_available_port record_allocation
allocate_port public_ip connection now = do
  modify (ensure_pool public_ip)
  allocated_set ← or_raise (← gets (λ s. lookup public_ip s.allocated)) key_error
  pool_size ← gets (λ s. s.pool_size)
  if leb pool_size (length allocated_set) then pure none else do
    found ← find_available_port public_ip
    elim found [
      | none ↦ pure none
      | some port ↦ record_allocation public_ip allocated_set (allocation connection now port)
    ]

unfoldable pub release_port : String → ℕ → Action SnatState Bool
release_port public_ip port = do
  tracked ← gets (λ s. lookup public_ip s.allocated)
  elim tracked [
    | none ↦ pure false
    | some allocated_set ↦ if not (member port allocated_set) then pure false else do
      modify
          (λ s. record s { allocated = insert public_ip (discard port allocated_set) s.allocated })
      pool ← or_raise (← gets (λ s. lookup public_ip s.allocations)) key_error
      modify (λ s. record s { allocations = insert public_ip (erase port pool) s.allocations })
      pure true
  ]

-- `now - alloc.allocated_at >= alloc.timeout`
abbrev pub is_expired : ℕ → PortAllocation → Bool
is_expired now a = leb (a.allocated_at + a.timeout) now

pub expired_ports : ℕ → Dict ℕ PortAllocation → List ℕ
expired_ports now [] = []
expired_ports now ((port, a) ∷ pool) =
    let rest = expired_ports now pool in if is_expired now a then port ∷ rest else rest

-- The loop over `expired_ports`, on the set and the dict of one public IP.
pub release_all : List ℕ → List ℕ × Dict ℕ PortAllocation → List ℕ × Dict ℕ PortAllocation
release_all [] pools = pools
release_all (port ∷ ports) (allocated_set, pool) =
    release_all ports (discard port allocated_set, erase port pool)

-- The outer loop's body for one public IP; returns how many ports were released.
pub release_expired_ip : ℕ → String → Action SnatState ℕ
release_expired_ip now public_ip = do
  pool ← or_raise (← gets (λ s. lookup public_ip s.allocations)) key_error
  allocated_set ← or_raise (← gets (λ s. lookup public_ip s.allocated)) key_error
  let ports = expired_ports now pool
  let pools = release_all ports (allocated_set, pool)
  modify (λ s. record s {
    allocated = insert public_ip pools.0 s.allocated;
    allocations = insert public_ip pools.1 s.allocations;
  })
  pure (length ports)

pub release_expired_ips : ℕ → ℕ → List String → Action SnatState ℕ
release_expired_ips now released [] = pure released
release_expired_ips now released (public_ip ∷ ips) = do
  n ← release_expired_ip now public_ip
  release_expired_ips now (released + n) ips

unfoldable pub release_expired : ℕ → Action SnatState ℕ
unfolding release_expired_ips
release_expired now = do ips ← gets (λ s. keys s.allocations); release_expired_ips now 0 ips

unfoldable pub is_exhausted : String → SnatState → Bool
is_exhausted public_ip s = elim (lookup public_ip s.allocated) [
  | none ↦ false
  | some allocated_set ↦ leb s.pool_size (length allocated_set)
]

pub record PoolStats : Type 0 where
  pub public_ip : String
  pub total_ports : ℕ
  pub used_ports : ℕ
  pub free_ports : ℕ
  pub utilization_pct : ℕ
  pub warning : Bool
  pub exhausted : Bool

-- `percent used size` stands for the float `round(used / size * 100, 2)`, in hundredths of a percent.
-- `util >= 0.80` is the order of the fractions: the float quotient of two such integers is rounded
-- from the exact one, as the literal 0.80 is from 4/5. A pool never uses more than its size, so
-- `self._pool_size - used` is not negative.
module _ (percent : ℕ → ℕ → ℕ) where
  -- The row of one IP.
  pub pool_row : SnatState → String → PoolStats
  pool_row s ip = elim (lookup ip s.allocated) [
    | none ↦ record {
      public_ip = ip;
      total_ports = s.pool_size;
      used_ports = 0;
      free_ports = s.pool_size;
      utilization_pct = 0;
      warning = false;
      exhausted = false;
    }
    | some allocated_set ↦ record {
      public_ip = ip;
      total_ports = s.pool_size;
      used_ports = length allocated_set;
      free_ports = s.pool_size - length allocated_set;
      utilization_pct = if ltb 0 s.pool_size then percent (length allocated_set) s.pool_size else 0;
      warning = ltb 0 s.pool_size && leb (4 * s.pool_size) (5 * length allocated_set);
      exhausted = leb s.pool_size (length allocated_set);
    }
  ]

  -- `[public_ip] if public_ip else list(self._allocated.keys())`: an empty text counts as no IP.
  pub get_pool_stats : Option String → SnatState → List PoolStats
  unfolding pool_row
  get_pool_stats none s = map (pool_row s) (keys s.allocated)
  get_pool_stats (some ip) s =
      if ip == "" then map (pool_row s) (keys s.allocated) else pool_row s ip ∷ []

-- The ratio `len(allocated) / pool_size`, as a pair; a pool of size 0 divides by zero.
pub get_utilization : String → SnatState → Result (ℕ × ℕ)
get_utilization public_ip s = elim (lookup public_ip s.allocated) [
  | none ↦ ok (0, 1)
  | some allocated_set ↦
      if nat_eq s.pool_size 0 then err zero_division else ok (length allocated_set, s.pool_size)
]

-- One call on the manager, as a thread makes it under the lock.
pub data Call : Type 0 where
  allocates : String → Connection → ℕ → Call
  releases : String → ℕ → Call
  expires : ℕ → Call

pub step : Call → SnatState → SnatState
step (allocates ip c now) s = (allocate_port ip c now s).1
step (releases ip port) s = (release_port ip port s).1
step (expires now) s = (release_expired now s).1

pub run : List Call → SnatState → SnatState
run [] s = s
run (c ∷ cs) s = run cs (step c s)
