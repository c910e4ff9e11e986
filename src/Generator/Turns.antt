-- ===== src/Generator/Turns.antt =====
-- A turn of a worker of the traffic generator, place by place: the references that workers hold stay
-- those of objects that exist.
use technicolor_haze_prism.Base.{
  ℕ, ◌<◌, ◌≡◌, refl, sym, subst, subst₂, Bool, true, false, none, some, List, [], ◌∷◌,
  if◌then◌else◌, Dict, lookup, values, nat_key, length, get_elem?, set, All, get-All, set-All,
  length-set, arith, Bool-cases, Option-cases, inl, inr,
}
use technicolor_haze_prism.Generator.{
  Generator, Worker, Location, starting, checking, connecting, recorded, waiting, finished, Turn,
  PortStats, record_attempt, update_object, next, count, turn_of,
}

pub turn_of-none :
    (i : ℕ) (turn : Turn) (g : Generator) → get_elem? g.threads i ≡ none → turn_of i turn g ≡ g
unfolding turn_of
turn_of-none i turn g e = rw (turn_of, e) refl

abbrev pub turned : ℕ → Turn → Generator → Worker → Generator
turned i turn g w = record (count turn w g) {
  threads = set g.threads i (record w { location = next turn g w });
}

pub turn_of-some :
    (i : ℕ) (turn : Turn) (g : Generator) (w : Worker)
    → get_elem? g.threads i ≡ some w
    → turn_of i turn g ≡ turned i turn g w
unfolding turn_of
turn_of-some i turn g w e = rw (turn_of, e) refl

-- What holds of every state in which a thread has a turn holds after it.
pub turn_of-keeps :
    (P : Generator → Type 0) (i : ℕ) (turn : Turn) (g : Generator)
    → P g
    → ((w : Worker) → get_elem? g.threads i ≡ some w → P (turned i turn g w))
    → P (turn_of i turn g)
turn_of-keeps P i turn g h some_turn = elim (Option-cases (get_elem? g.threads i)) [
  | inl nothing ↦ subst P (sym (turn_of-none i turn g nothing)) h
  | inr found ↦ subst P (sym (turn_of-some i turn g found.0 found.1)) (some_turn found.0 found.1)
]

-- The PortStats object of a location is one of the first `n`.
abbrev pub RefersBelow : ℕ → Location → Type 0
RefersBelow n starting = Unit
RefersBelow n (checking ps) = ps < n
RefersBelow n (connecting ps) = ps < n
RefersBelow n (waiting ps) = ps < n
RefersBelow n (recorded ps success) = ps < n
RefersBelow n finished = Unit

pub record Bounded (g : Generator) : Type 0 where
  pub by_threads : All (λ w. RefersBelow (length g.objects) w.location) g.threads
  pub by_ports : All (λ ps. ps < length g.objects) (values g.port_stats)

lookup-below :
    (n k v : ℕ) (d : Dict ℕ ℕ) → All (λ ps. ps < n) (values d) → lookup k d ≡ some v → v < n
unfolding lookup
lookup-below n k v [] h e = ground (arith, e)
lookup-below n k v ((c, w) ∷ d) h e = ground (arith, lookup-below n k v d h.1, e, h.0)

module _ (turn : Turn) (g : Generator) where
  abbrev Fits : Location → Type 0
  Fits l = RefersBelow (length g.objects) l

  next-RefersBelow :
      (k : ℕ) (l : Location)
      → Fits l
      → All (λ ps. ps < length g.objects) (values g.port_stats)
      → Fits (next turn g (record { target = k; location = l }))
  unfolding next
  next-RefersBelow k starting h ports = elim (Option-cases (lookup k g.port_stats)) [
    | inl nothing ↦ rw (next, nothing) tt
    | inr found ↦
        rw (next, found.1) (lookup-below (length g.objects) k found.0 g.port_stats ports found.1)
  ]
  next-RefersBelow k (checking ps) h ports = elim (Bool-cases g.stop_event) [
    | inl stopped ↦ rw (next, stopped) tt
    | inr going ↦ rw (next, going) h
  ]
  next-RefersBelow k (connecting ps) h ports = h
  next-RefersBelow k (recorded ps success) h ports = h
  next-RefersBelow k (waiting ps) h ports = pause turn.rested g.stop_event
    where
      pause :
          (rested stopped : Bool)
          → Fits (if rested then checking ps else if stopped then finished else waiting ps)
      pause true stopped = h
      pause false true = tt
      pause false false = h
  next-RefersBelow k finished h ports = tt

length-update_object :
    (ps : ℕ) (f : PortStats → PortStats) (objects : List PortStats)
    → length (update_object ps f objects) ≡ length objects
unfolding update_object
length-update_object ps f objects = elim (Option-cases (get_elem? objects ps)) [
  | inl nothing ↦ rw (update_object, nothing) refl
  | inr found ↦ rw (update_object, found.1) (length-set objects ps (f found.0))
]

-- A turn makes no object and drops none.
pub count-objects :
    (turn : Turn) (g : Generator) (k : ℕ) (l : Location)
    → length (count turn (record { target = k; location = l }) g).objects ≡ length g.objects
unfolding count
count-objects turn g k (connecting ps) =
    length-update_object ps (record_attempt turn.connected) g.objects
count-objects turn g k starting = refl
count-objects turn g k (checking ps) = refl
count-objects turn g k (recorded ps success) = refl
count-objects turn g k (waiting ps) = refl
count-objects turn g k finished = refl

pub count-port_stats :
    (turn : Turn) (g : Generator) (k : ℕ) (l : Location)
    → (count turn (record { target = k; location = l }) g).port_stats ≡ g.port_stats
unfolding count
count-port_stats turn g k (connecting ps) = refl
count-port_stats turn g k starting = refl
count-port_stats turn g k (checking ps) = refl
count-port_stats turn g k (recorded ps success) = refl
count-port_stats turn g k (waiting ps) = refl
count-port_stats turn g k finished = refl

pub turn_of-Bounded : (i : ℕ) (turn : Turn) (g : Generator) → Bounded g → Bounded (turn_of i turn g)
turn_of-Bounded i turn g h = turn_of-keeps Bounded i turn g h (λ w e. record {
  by_threads =
      subst
        (λ n.
          All (λ v. RefersBelow n v.location)
            (set g.threads i (record w { location = next turn g w })))
        (sym (count-objects turn g w.target w.location))
        (set-All (λ v. RefersBelow (length g.objects) v.location) g.threads i
          (record w { location = next turn g w }) h.by_threads
          (next-RefersBelow turn g w.target w.location
            (get-All (λ v. RefersBelow (length g.objects) v.location) g.threads i w h.by_threads e)
            h.by_ports));
  by_ports =
      subst₂ (λ n d. All (λ ps. ps < n) (values d)) (sym (count-objects turn g w.target w.location))
        (sym (count-port_stats turn g w.target w.location)) h.by_ports;
})

pub count-stop_event :
    (turn : Turn) (g : Generator) (k : ℕ) (l : Location)
    → (count turn (record { target = k; location = l }) g).stop_event ≡ g.stop_event
unfolding count
count-stop_event turn g k (connecting ps) = refl
count-stop_event turn g k starting = refl
count-stop_event turn g k (checking ps) = refl
count-stop_event turn g k (recorded ps success) = refl
count-stop_event turn g k (waiting ps) = refl
count-stop_event turn g k finished = refl
