-- ===== src/Generator/Drain.antt =====
-- How the workers of the traffic generator end: once the stop event is set, each needs four turns at
-- most.
use technicolor_haze_prism.Base.{
  ℕ, ◌+◌, ◌-◌, ◌≤◌, ◌≡◌, ◌≢◌, refl, sym, ◌∙◌, subst, true, some, List, [], ◌∷◌, if◌then◌else◌,
  nat_key, nat_eq, nat_eq_iff, lookup, get_elem?, get-set, get-set_ne, All, arith, Bool-cases,
  Option-cases, inl, inr,
}
use technicolor_haze_prism.Generator.{
  Generator, Worker, Location, starting, checking, connecting, recorded, waiting, finished, Turn,
  Event, starts, stops, sets_profile, sets_rate, takes_turn, next, turn_of, step, run, set_rate,
}
use technicolor_haze_prism.Generator.Turns.{turn_of-none, turn_of-some, count-stop_event}
use technicolor_haze_prism.Generator.Histories.{
  IsNoStart, set_profile-changes, stop-running, stop-idle,
}

-- The turns that a worker still takes.
abbrev turns_left : Location → ℕ
turns_left finished = 0
turns_left (checking ps) = 1
turns_left starting = 2
turns_left (waiting ps) = 2
turns_left (recorded ps success) = 3
turns_left (connecting ps) = 4

-- How many turns a history gives the thread.
abbrev own_turn : ℕ → Event → ℕ
own_turn i (starts now) = 0
own_turn i stops = 0
own_turn i (sets_profile value) = 0
own_turn i (sets_rate value) = 0
own_turn i (takes_turn j turn) = if nat_eq j i then 1 else 0

abbrev pub own_turns : ℕ → List Event → ℕ
own_turns i [] = 0
own_turns i (e ∷ events) = own_turn i e + own_turns i events

-- The stop event is set and the thread has at most so many turns left.
record Draining (i n : ℕ) (g : Generator) : Type 0 where
  is_set : g.stop_event ≡ true
  worker : Worker
  found : get_elem? g.threads i ≡ some worker
  left : turns_left worker.location ≤ n

next-turns_left :
    (turn : Turn) (g : Generator) (k : ℕ) (l : Location)
    → g.stop_event ≡ true
    → turns_left (next turn g (record { target = k; location = l })) ≤ turns_left l - 1
unfolding next
next-turns_left turn g k starting s = elim (Option-cases (lookup k g.port_stats)) [
  | inl nothing ↦ rw (next, nothing) (omega arith)
  | inr found ↦ rw (next, found.1) (omega arith)
]
next-turns_left turn g k (checking ps) s = rw (next, s) (omega arith)
next-turns_left turn g k (connecting ps) s = omega arith
next-turns_left turn g k (recorded ps success) s = omega arith
next-turns_left turn g k (waiting ps) s = elim (Bool-cases turn.rested) [
  | inl rested ↦ rw (next, rested) (omega arith)
  | inr tired ↦ rw (next, tired, s) (omega arith)
]
next-turns_left turn g k finished s = omega arith

own-Draining :
    (i n : ℕ) (turn : Turn) (g : Generator) → Draining i n g → Draining i (n - 1) (turn_of i turn g)
own-Draining i n turn g h =
    let w = h.worker in
    subst (Draining i (n - 1)) (sym (turn_of-some i turn g w h.found)) (record {
      is_set = count-stop_event turn g w.target w.location ∙ h.is_set;
      worker = record w { location = next turn g w };
      found = get-set g.threads i (record w { location = next turn g w }) w h.found;
      left = omega (arith, next-turns_left turn g w.target w.location h.is_set, h.left);
    })

other-Draining :
    (i j n : ℕ) (turn : Turn) (g : Generator)
    → j ≢ i
    → Draining i n g
    → Draining i n (turn_of j turn g)
other-Draining i j n turn g apart h = elim (Option-cases (get_elem? g.threads j)) [
  | inl nothing ↦ subst (Draining i n) (sym (turn_of-none j turn g nothing)) h
  | inr found ↦
      let w = found.0 in
      subst (Draining i n) (sym (turn_of-some j turn g w found.1)) (record {
        is_set = count-stop_event turn g w.target w.location ∙ h.is_set;
        worker = h.worker;
        found = get-set_ne g.threads j i (record w { location = next turn g w }) apart ∙ h.found;
        left = h.left;
      })
]

step-Draining :
    (i n : ℕ) (e : Event) (g : Generator)
    → IsNoStart e
    → Draining i n g
    → Draining i (n - own_turn i e) (step e g)
unfolding step set_rate
step-Draining i n (starts now) g k h = elim k [ ]
step-Draining i n stops g k h = elim (Bool-cases g.running) [
  | inl running ↦
      subst (Draining i (n - 0)) (sym (stop-running g running))
        (record { is_set = refl; worker = h.worker; found = h.found; left = omega (arith, h.left) })
  | inr idle ↦ subst (Draining i (n - 0)) (sym (stop-idle g idle)) (record {
    is_set = h.is_set;
    worker = h.worker;
    found = h.found;
    left = omega (arith, h.left);
  })
]
step-Draining i n (sets_profile value) g k h =
    subst (Draining i (n - 0)) (sym (set_profile-changes value g).1) (record {
      is_set = h.is_set;
      worker = h.worker;
      found = h.found;
      left = omega (arith, h.left);
    })
step-Draining i n (sets_rate value) g k h = record {
  is_set = h.is_set;
  worker = h.worker;
  found = h.found;
  left = omega (arith, h.left);
}
step-Draining i n (takes_turn j turn) g k h = elim (Bool-cases (nat_eq j i)) [
  | inl same ↦ rw (same) (
      subst (λ m. Draining i (n - 1) (turn_of m turn g)) (sym ((nat_eq_iff j i).0 same))
        (own-Draining i n turn g h))
  | inr apart ↦ rw (apart) (
      subst (λ m. Draining i m (turn_of j turn g)) (omega arith)
        (other-Draining i j n turn g (λ e. ground (arith, apart, e)) h))
]

run-Draining :
    (i n : ℕ) (events : List Event) (g : Generator)
    → All IsNoStart events
    → Draining i n g
    → Draining i (n - own_turns i events) (run events g)
unfolding run
run-Draining i n [] g k h = record {
  is_set = h.is_set;
  worker = h.worker;
  found = h.found;
  left = omega (arith, h.left);
}
run-Draining i n (e ∷ events) g k h =
    subst (λ m. Draining i m (run events (step e g))) (omega arith)
      (run-Draining i (n - own_turn i e) events (step e g) k.1 (step-Draining i n e g k.0 h))

turns_left-most : (l : Location) → turns_left l ≤ 4
turns_left-most starting = omega arith
turns_left-most (checking ps) = omega arith
turns_left-most (connecting ps) = omega arith
turns_left-most (recorded ps success) = omega arith
turns_left-most (waiting ps) = omega arith
turns_left-most finished = omega arith

none_left : (l : Location) → turns_left l ≤ 0 → l ≡ finished
none_left finished h = refl
none_left starting h = ground (arith, h)
none_left (checking ps) h = ground (arith, h)
none_left (connecting ps) h = ground (arith, h)
none_left (recorded ps success) h = ground (arith, h)
none_left (waiting ps) h = ground (arith, h)

-- Once the stop event is set, and as long as there is no start, a worker has ended when it has had
-- four turns, wherever it stood, whatever the others do between and whatever its connections do.
pub run-finished :
    (g : Generator) (i : ℕ) (w : Worker) (events : List Event)
    → g.stop_event ≡ true
    → get_elem? g.threads i ≡ some w
    → All IsNoStart events
    → 4 ≤ own_turns i events
    → (v : Worker) × (get_elem? (run events g).threads i ≡ some v) × (v.location ≡ finished)
run-finished g i w events stopped found calm turns =
    let ended =
      run-Draining i 4 events g calm (record {
        is_set = stopped;
        worker = w;
        found = found;
        left = turns_left-most w.location;
      }) in
    (ended.worker, ended.found, none_left ended.worker.location (omega (arith, ended.left, turns)))
