-- ===== src/Snat/Stats.antt =====
-- `is_exhausted`, `get_utilization` and the rows of `get_pool_stats`, against the allocations.
use technicolor_haze_prism.Base.{
  ℕ, ◌+◌, ◌≤◌, ◌<◌, ◌≡◌, ap, inl, inr, String, true, Option, none, some, List, [], ◌∷◌, keys,
  nat_key, text_key, arith, Bool-cases, ok, if◌then◌else◌, ◌==◌, leb, sym, ◌∙◌,
}
use technicolor_haze_prism.Base.{◌*◌, ◌↔◌, map, leb→le, not-leb→lt}
use technicolor_haze_prism.Snat.{
  SnatState, Connection, allocate_port, is_exhausted, PoolStats, pool_row, get_pool_stats,
}
use technicolor_haze_prism.Snat.Invariant.{Inv, Inv-cases}
use technicolor_haze_prism.Snat.Allocate.{
  used, Allocates, allocate_port-Allocates, allocate_port-exhausted,
}

is_exhausted-used :
    (s : SnatState) (ip : String)
    → 0 < s.pool_size
    → is_exhausted ip s ≡ leb s.pool_size (used ip s)
unfolding is_exhausted
is_exhausted-used s ip h = ground arith

-- With a pool that is not empty, `is_exhausted` tells exactly when `allocate_port` answers None.
pub is_exhausted-allocate_port :
    (s : SnatState) (ip : String) (c : Connection) (now : ℕ)
    → Inv s
    → 0 < s.pool_size
    → (is_exhausted ip s ≡ true) ↔ ((allocate_port ip c now s).0 ≡ ok none)
is_exhausted-allocate_port s ip c now inv pos = (full, refused)
  where
    full : is_exhausted ip s ≡ true → (allocate_port ip c now s).0 ≡ ok none
    full e =
        (allocate_port-exhausted s ip c now inv
          (leb→le _ _ (sym (is_exhausted-used s ip pos) ∙ e))).0

    refused : (allocate_port ip c now s).0 ≡ ok none → is_exhausted ip s ≡ true
    refused e = is_exhausted-used s ip pos ∙ elim (Bool-cases (leb s.pool_size (used ip s))) [
      | inl yes_full ↦ yes_full
      | inr room ↦
          let a : Allocates s ip c now =
            allocate_port-Allocates s ip c now inv (not-leb→lt _ _ room) in
          let granted : (allocate_port ip c now s).0 ≡ ok (some a.port) = ap (λ r. r.0) a.call in
          absurd (cc)
    ]

-- What a row of the statistics must say of a public IP.
pub record RowIsRight (s : SnatState) (ip : String) (row : PoolStats) : Type 0 where
  pub about : row.public_ip ≡ ip
  pub total : row.total_ports ≡ s.pool_size
  pub in_use : row.used_ports ≡ used ip s
  pub adds_up : row.used_ports + row.free_ports ≡ row.total_ports
  pub exhausted_iff : row.exhausted ≡ is_exhausted ip s
  pub warns : 0 < s.pool_size → (row.warning ≡ true) ↔ (4 * row.total_ports ≤ 5 * row.used_ports)

pool_row-RowIsRight :
    (percent : ℕ → ℕ → ℕ) (s : SnatState) (ip : String)
    → Inv s
    → RowIsRight s ip (pool_row percent s ip)
unfolding pool_row is_exhausted
pool_row-RowIsRight percent s ip inv = elim (Inv-cases s ip inv) [
  | inl u ↦ record {
    about = ground (arith, u.no_set);
    total = ground (arith, u.no_set);
    in_use = ground (arith, u.no_set);
    adds_up = ground (arith, u.no_set);
    exhausted_iff = ground (arith, u.no_set);
    warns = λ pos. ground (arith, u.no_set);
  }
  | inr (set, pool, n, h) ↦ record {
    about = ground (arith, h.set_at);
    total = ground (arith, h.set_at);
    in_use = ground (arith, h.set_at);
    adds_up = ground (arith, h.set_at, h.sound.fits);
    exhausted_iff = ground (arith, h.set_at);
    warns = λ pos. ground (arith, h.set_at);
  }
]

-- The rows for the IPs of a list, in its order.
abbrev pub RowsAreRight : SnatState → List String → List PoolStats → Type 0
RowsAreRight s [] [] = Unit
RowsAreRight s (ip ∷ ips) (row ∷ rows) = RowIsRight s ip row × RowsAreRight s ips rows
RowsAreRight s _ _ = ⊥

rows-RowsAreRight :
    (percent : ℕ → ℕ → ℕ) (s : SnatState) (ips : List String)
    → Inv s
    → RowsAreRight s ips (map (pool_row percent s) ips)
rows-RowsAreRight percent s [] inv = tt
rows-RowsAreRight percent s (ip ∷ ips) inv =
    (pool_row-RowIsRight percent s ip inv, rows-RowsAreRight percent s ips inv)

-- The IPs that a query is about: the one named, or all tracked ones.
abbrev pub asked : Option String → SnatState → List String
asked none s = keys s.allocated
asked (some ip) s = if ip == "" then keys s.allocated else ip ∷ []

-- `get_pool_stats` has a row for the IP asked for, or one for each tracked IP in order. In each row
-- the used and the free ports add up to the pool, used ports are those in use, the exhaustion flag is
-- that of `is_exhausted`, and the warning of a pool that is not empty stands from four fifths on.
pub get_pool_stats-RowsAreRight :
    (percent : ℕ → ℕ → ℕ) (s : SnatState) (query : Option String)
    → Inv s
    → RowsAreRight s (asked query s) (get_pool_stats percent query s)
unfolding get_pool_stats
get_pool_stats-RowsAreRight percent s none inv = rows-RowsAreRight percent s (keys s.allocated) inv
get_pool_stats-RowsAreRight percent s (some ip) inv = elim (Bool-cases (ip == "")) [
  | inl e ↦ rw e (rows-RowsAreRight percent s (keys s.allocated) inv)
  | inr e ↦ rw e (pool_row-RowIsRight percent s ip inv, tt)
]
