-- ===== src/Generator/Balance.antt =====
-- One counter of the traffic generator, in any interleaving of the workers: what the ports have
-- counted is what the aggregate has and what workers hold between their two records.
use technicolor_haze_prism.Base.{
  ℕ, ◌+◌, ◌<◌, ◌≡◌, refl, Bool, true, false, some, List, if◌then◌else◌, nat_key, lookup, length,
  get_elem?, set, get-All, get-length, sum_by, sum-set, arith, Bool-cases, Option-cases, inl, inr,
}
use technicolor_haze_prism.Generator.{
  Generator, Worker, Location, starting, checking, connecting, recorded, waiting, finished, Turn,
  PortStats, Stats, record_attempt, total_attempt, update_object, next, count, turn_of,
}
use technicolor_haze_prism.Generator.Turns.{Bounded, RefersBelow, turn_of-keeps, turned}

-- What a worker holds, where an attempt adds `d` to the counter.
abbrev pub held_at : (Bool → ℕ) → Location → ℕ
held_at d starting = 0
held_at d (checking ps) = 0
held_at d (connecting ps) = 0
held_at d (recorded ps success) = d success
held_at d (waiting ps) = 0
held_at d finished = 0

abbrev pub held : (Bool → ℕ) → Worker → ℕ
held d w = held_at d w.location

-- `f` reads the counter of a port, `t` that of the aggregate.
abbrev pub Balanced : (PortStats → ℕ) → (Stats → ℕ) → (Bool → ℕ) → Generator → Type 0
Balanced f t d g = sum_by f g.objects ≡ t g.stats + sum_by (held d) g.threads

module _ (f : PortStats → ℕ) (t : Stats → ℕ) (d : Bool → ℕ)
    (adds : (b : Bool) (o : PortStats) → f (record_attempt b o) ≡ f o + d b)
    (adds_total : (b : Bool) (s : Stats) → t (total_attempt b s) ≡ t s + d b) where
  next-held :
      (turn : Turn) (g : Generator) (k : ℕ) (l : Location)
      → held_at d (next turn g (record { target = k; location = l }))
        ≡ elim l [ connecting ps ↦ d turn.connected | _ ↦ 0 ]
  unfolding next
  next-held turn g k starting = elim (Option-cases (lookup k g.port_stats)) [
    | inl nothing ↦ rw (next, nothing) refl
    | inr found ↦ rw (next, found.1) refl
  ]
  next-held turn g k (checking ps) = elim (Bool-cases g.stop_event) [
    | inl stopped ↦ rw (next, stopped) refl
    | inr going ↦ rw (next, going) refl
  ]
  next-held turn g k (connecting ps) = refl
  next-held turn g k (recorded ps success) = refl
  next-held turn g k (waiting ps) = pause turn.rested g.stop_event
    where
      pause :
          (rested stopped : Bool)
          → held_at d (if rested then checking ps else if stopped then finished else waiting ps) ≡ 0
      pause true stopped = refl
      pause false true = refl
      pause false false = refl
  next-held turn g k finished = refl

  sum-update_object :
      (ps : ℕ) (b : Bool) (objects : List PortStats)
      → ps < length objects
      → sum_by f (update_object ps (record_attempt b) objects) ≡ sum_by f objects + d b
  unfolding update_object
  sum-update_object ps b objects h =
      let found = get-length objects ps h in
      rw (update_object, found.1)
        (omega
          (arith, sum-set f objects ps (record_attempt b found.0) found.0 found.1, adds b found.0))

  turned-Balanced :
      (i : ℕ) (turn : Turn) (g : Generator) (k : ℕ) (l : Location)
      → get_elem? g.threads i ≡ some (record { target = k; location = l })
      → RefersBelow (length g.objects) l
      → Balanced f t d g
      → Balanced f t d (turned i turn g (record { target = k; location = l }))
  unfolding count
  turned-Balanced i turn g k l e below h = go l e below (next-held turn g k l) (
      sum-set (held d) g.threads i
        (record { target = k; location = next turn g (record { target = k; location = l }) })
        (record { target = k; location = l }) e)
    where
      go :
          (l : Location)
          → get_elem? g.threads i ≡ some (record { target = k; location = l })
          → RefersBelow (length g.objects) l
          → held_at d (next turn g (record { target = k; location = l }))
            ≡ elim l [ connecting ps ↦ d turn.connected | _ ↦ 0 ]
          → sum_by (held d) (
                set g.threads i (record {
                  target = k;
                  location = next turn g (record { target = k; location = l });
                }))
              + held_at d l
            ≡ sum_by (held d) g.threads
              + held_at d (next turn g (record { target = k; location = l }))
          → Balanced f t d (turned i turn g (record { target = k; location = l }))
      go starting e below to moved = omega (arith, to, moved, h)
      go (checking ps) e below to moved = omega (arith, to, moved, h)
      go (connecting ps) e below to moved =
          omega (arith, to, moved, h, sum-update_object ps turn.connected g.objects below)
      go (recorded ps success) e below to moved =
          omega (arith, to, moved, h, adds_total success g.stats)
      go (waiting ps) e below to moved = omega (arith, to, moved, h)
      go finished e below to moved = omega (arith, to, moved, h)

  pub turn_of-Balanced :
      (i : ℕ) (turn : Turn) (g : Generator)
      → Bounded g
      → Balanced f t d g
      → Balanced f t d (turn_of i turn g)
  turn_of-Balanced i turn g bounded h = turn_of-keeps (Balanced f t d) i turn g h (λ w e.
      turned-Balanced i turn g w.target w.location e
        (get-All (λ v. RefersBelow (length g.objects) v.location) g.threads i w bounded.by_threads
          e)
        h)
