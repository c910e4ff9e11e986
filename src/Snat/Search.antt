-- ===== src/Snat/Search.antt =====
-- `_find_available_port`: what the two loops find, and that they find a port while one is free.
use technicolor_haze_prism.Base.{
  ℕ, zero, suc, ◌+◌, ◌-◌, ◌⊎◌, nat_eq, Option-cases, subst, ltb, leb, leb→le, not-leb→lt,
  if◌then◌else◌, ◌≤◌, ◌<◌, ◌≡◌, inl, inr, true, false, none, some, List, nat_key, member, discard,
  length, member-discard, length-discard-lt, arith, Bool-cases, nat_eq_iff,
}
use technicolor_haze_prism.Snat.{port_min, first_free, search}

-- Every port from `lo` up to and without `hi` is taken.
abbrev pub Taken : ℕ → ℕ → List ℕ → Type 0
Taken lo hi set = (q : ℕ) → lo ≤ q → q < hi → member q set ≡ true

pub record Found (rounds port : ℕ) (set : List ℕ) (found : ℕ) : Type 0 where
  pub lower : port ≤ found
  pub upper : found < port + rounds
  pub free : member found set ≡ false
  pub first : Taken port found set

first_free-Found :
    (rounds port : ℕ) (set : List ℕ) (found : ℕ)
    → first_free rounds port set ≡ some found
    → Found rounds port set found
unfolding first_free
first_free-Found zero port set found e = ground arith
first_free-Found (suc rounds) port set found e = elim (Bool-cases (member port set)) [
  | inl taken ↦
      let ih = first_free-Found rounds (port + 1) set found (ground arith) in
      record {
        lower = omega (arith, ih.lower);
        upper = omega (arith, ih.upper);
        free = ih.free;
        first = λ q lo hi. first_step q lo hi taken ih.first;
      }
  | inr free ↦
      let e' : port ≡ found = ground arith in
      record {
        lower = omega arith;
        upper = omega arith;
        free = ground arith;
        first = λ q lo hi. absurd (omega arith);
      }
]
  where
    first_step :
        (q : ℕ)
        → port ≤ q
        → q < found
        → member port set ≡ true
        → Taken (port + 1) found set
        → member q set ≡ true
    first_step q lo hi taken rest = ground (arith, nat_eq_iff port q, rest q)

first_free-none :
    (rounds port : ℕ) (set : List ℕ) (q : ℕ)
    → first_free rounds port set ≡ none
    → port ≤ q
    → q < port + rounds
    → member q set ≡ true
unfolding first_free
first_free-none zero port set q e lo hi = absurd (omega arith)
first_free-none (suc rounds) port set q e lo hi =
    ground (arith, nat_eq_iff port q, first_free-none rounds (port + 1) set q)

-- The pigeonhole principle: a set that holds `n` consecutive ports has `n` members at least.
pub Taken-length : (n lo : ℕ) (set : List ℕ) → Taken lo (lo + n) set → n ≤ length set
Taken-length zero lo set h = omega arith
Taken-length (suc n) lo set h = omega (
  arith,
  length-discard-lt lo set (h lo (omega arith) (omega arith)),
  Taken-length n (lo + 1) (discard lo set) others,
)
  where
    others : Taken (lo + 1) (lo + 1 + n) (discard lo set)
    others q l u = ground (arith, member-discard lo q set, h q (omega arith) (omega arith))

abbrev pub InPool : ℕ → ℕ → Type 0
InPool size port = (port_min ≤ port) × (port < port_min + size)

-- The port after `port` in the circle of the pool.
abbrev pub next_in_circle : ℕ → ℕ → ℕ
next_in_circle size port = if nat_eq (port + 1) (port_min + size) then port_min else port + 1

-- The first free port in the circle that begins at `start`.
abbrev pub FirstFrom : ℕ → ℕ → List ℕ → ℕ → Type 0
FirstFrom size start set port =
    ((start ≤ port) × Taken start port set)
    ⊎ ((port < start) × Taken start (port_min + size) set × Taken port_min port set)

pub record Searched (size start : ℕ) (set : List ℕ) (r : ℕ × ℕ) : Type 0 where
  pub in_pool : InPool size r.0
  pub free : member r.0 set ≡ false
  pub first : FirstFrom size start set r.0
  pub hint : r.1 ≡ next_in_circle size r.0

abbrev effective_max : ℕ → ℕ
effective_max size = port_min + size - 1

module _ (size start : ℕ) (set : List ℕ) (in_pool : InPool size start) where
  above :
      (p : ℕ)
      → Found (effective_max size + 1 - start) start set p
      → Searched size start set (p, if ltb (effective_max size) (p + 1) then port_min else p + 1)
  above p f = record {
    in_pool = (omega (arith, f.lower), omega (arith, f.upper));
    free = f.free;
    first = inl (f.lower, f.first);
    hint = ground (arith, f.upper);
  }

  below :
      (p : ℕ)
      → first_free (effective_max size + 1 - start) start set ≡ none
      → Found (start - port_min) port_min set p
      → Searched size start set (p, p + 1)
  below p miss f = record {
    in_pool = (f.lower, omega (arith, f.upper));
    free = f.free;
    first = inr (omega (arith, f.upper), missed, f.first);
    hint = ground (arith, f.upper);
  }
    where
      missed : Taken start (port_min + size) set
      missed q lo hi =
          first_free-none (effective_max size + 1 - start) start set q miss lo (omega arith)

  -- What the search returns is the first free port from `start` on, round the circle.
  pub search-Searched : (r : ℕ × ℕ) → search size start set ≡ some r → Searched size start set r
  unfolding search
  search-Searched r e =
      elim (Option-cases (first_free (effective_max size + 1 - start) start set)) [
        | inr (p, hit) ↦
            let f = first_free-Found (effective_max size + 1 - start) start set p hit in
            subst (Searched size start set) (ground arith) (above p f)
        | inl miss ↦ elim (Option-cases (first_free (start - port_min) port_min set)) [
          | inr (p, hit) ↦
              let f = first_free-Found (start - port_min) port_min set p hit in
              subst (Searched size start set) (ground arith) (below p miss f)
          | inl miss' ↦ absurd (ground arith)
        ]
      ]

  search-none : search size start set ≡ none → Taken port_min (port_min + size) set
  unfolding search
  search-none e q lo hi =
      elim (Option-cases (first_free (effective_max size + 1 - start) start set)) [
        | inr (p, hit) ↦ absurd (ground arith)
        | inl miss ↦ elim (Option-cases (first_free (start - port_min) port_min set)) [
          | inr (p, hit) ↦ absurd (ground arith)
          | inl miss' ↦ elim (Bool-cases (leb start q)) [
            | inl h ↦
                first_free-none (effective_max size + 1 - start) start set q miss (leb→le start q h)
                  (omega arith)
            | inr h ↦
                first_free-none (start - port_min) port_min set q miss' lo
                  (omega (arith, not-leb→lt start q h))
          ]
        ]
      ]

  -- The search finds a port while the pool has room, whatever the set holds.
  pub search_total : length set < size → (r : ℕ × ℕ) × (search size start set ≡ some r)
  search_total room = elim (Option-cases (search size start set)) [
    | inr found ↦ found
    | inl e ↦ absurd (omega (arith, Taken-length size port_min set (search-none e)))
  ]
