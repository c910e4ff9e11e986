-- ===== src/Generator/Restart.antt =====
-- What a start of the traffic generator changes, and what it leaves: the threads of an earlier run.
use Prim.Native.Nat.{zero, suc}
use technicolor_haze_prism.Base.{
  ℕ, ◌≡◌, refl, sym, ◌∙◌, subst, Bool, true, false, some, List, [], ◌∷◌, ◌++◌, if◌then◌else◌,
  get_elem?, set, ap, arith, map, get-set, get-append, length, nat_key, insert,
}
use technicolor_haze_prism.Generator.{
  Generator, Worker, Location, finished, connecting, recorded, waiting, checking, starting, Turn,
  Event, starts, stops, takes_turn, next, turn_of, step, run, start, stop, add_port_stats,
  add_workers, profile_ports, new_port_stats,
}
use technicolor_haze_prism.Generator.Turns.{turn_of-some, count-stop_event}
use technicolor_haze_prism.Generator.Histories.{stop-running}

-- The thread `i` is this worker, every other thread is that of the list, and the stop event is as it
-- says.
record Alive (i : ℕ) (w : Worker) (is_set : Bool) (base : List Worker) (g : Generator)
    : Type 0 where
  pub found : get_elem? g.threads i ≡ some w
  pub event : g.stop_event ≡ is_set
  pub threads : g.threads ≡ set base i w

set-set : (xs : List Worker) (i : ℕ) (v w : Worker) → set (set xs i v) i w ≡ set xs i w
set-set [] i v w = refl
set-set (x ∷ xs) zero v w = refl
set-set (x ∷ xs) (suc i) v w = ap (λ l. x ∷ l) (set-set xs i v w)

set-get : (xs : List Worker) (i : ℕ) (w : Worker) → get_elem? xs i ≡ some w → set xs i w ≡ xs
set-get [] i w h = refl
set-get (x ∷ xs) zero w h = ground (arith, h)
set-get (x ∷ xs) (suc i) w h = ap (λ l. x ∷ l) (set-get xs i w h)

-- The threads that a start makes, at their first line.
abbrev pub new_workers : List ℕ → List Worker
new_workers ports = map (λ port. record { target = port; location = starting }) ports

append_nil : (xs : List Worker) → xs ++ [] ≡ xs
append_nil [] = refl
append_nil (x ∷ xs) = ap (λ l. x ∷ l) (append_nil xs)

append_assoc : (xs ys zs : List Worker) → (xs ++ ys) ++ zs ≡ xs ++ (ys ++ zs)
append_assoc [] ys zs = refl
append_assoc (x ∷ xs) ys zs = ap (λ l. x ∷ l) (append_assoc xs ys zs)

-- What a start has done to the threads and the event.
record Grown (base : List Worker) (g : Generator) : Type 0 where
  pub event : g.stop_event ≡ false
  pub threads : g.threads ≡ base

add_port_stats-Grown :
    (base : List Worker) (ports : List ℕ) (g : Generator)
    → Grown base g
    → Grown base (add_port_stats ports g)
unfolding add_port_stats
add_port_stats-Grown base [] g h = h
add_port_stats-Grown base (port ∷ ports) g h =
    add_port_stats-Grown base ports
      (record g {
        objects = g.objects ++ (new_port_stats port ∷ []);
        port_stats = insert port (length g.objects) g.port_stats;
      })
      (record { event = h.event; threads = h.threads })

add_workers-Grown :
    (base : List Worker) (ports : List ℕ) (g : Generator)
    → Grown base g
    → Grown (base ++ new_workers ports) (add_workers ports g)
unfolding add_workers
add_workers-Grown base [] g h = record {
  event = h.event;
  threads = h.threads ∙ sym (append_nil base);
}
add_workers-Grown base (port ∷ ports) g h =
    subst (λ l. Grown l (add_workers (port ∷ ports) g))
      (append_assoc base (record { target = port; location = starting } ∷ []) (new_workers ports))
      (add_workers-Grown (base ++ (record { target = port; location = starting } ∷ [])) ports
        (record g {
          threads = g.threads ++ (record { target = port; location = starting } ∷ []);
          workers = g.workers ++ (length g.threads ∷ []);
        })
        (record {
          event = h.event;
          threads = ap (λ l. l ++ (record { target = port; location = starting } ∷ [])) h.threads;
        }))

-- A start of a generator that does not run clears the event, keeps every thread and adds one for each
-- port of the profile.
start-Grown :
    (now : ℕ) (g : Generator)
    → g.running ≡ false
    → Grown (g.threads ++ new_workers (profile_ports g.profile)) (start now g)
unfolding start
start-Grown now g idle =
    rw (start, idle)
      (add_workers-Grown g.threads (profile_ports g.profile) _ (
        add_port_stats-Grown g.threads (profile_ports g.profile) _
          (record { event = refl; threads = refl })))

Grown-Alive :
    (i : ℕ) (w : Worker) (base : List Worker) (g : Generator)
    → get_elem? base i ≡ some w
    → Grown base g
    → Alive i w false base g
Grown-Alive i w base g found h = record {
  found = subst (λ l. get_elem? l i ≡ some w) (sym h.threads) found;
  event = h.event;
  threads = h.threads ∙ sym (set-get base i w found);
}

turn_of-Alive :
    (i : ℕ) (w : Worker) (b : Bool) (base : List Worker) (turn : Turn) (g : Generator)
    → Alive i w b base g
    → Alive i (record w { location = next turn g w }) b base (turn_of i turn g)
turn_of-Alive i w b base turn g h =
    subst (Alive i (record w { location = next turn g w }) b base)
      (sym (turn_of-some i turn g w h.found))
      (record {
        found = get-set g.threads i (record w { location = next turn g w }) w h.found;
        event = count-stop_event turn g w.target w.location ∙ h.event;
        threads =
            ap (λ l. set l i (record w { location = next turn g w })) h.threads
            ∙ set-set base i w (record w { location = next turn g w });
      })

abbrev pub four_turns : ℕ → Turn → List Event
four_turns i turn =
    takes_turn i turn ∷ takes_turn i turn ∷ takes_turn i turn ∷ takes_turn i turn ∷ []

-- The worker of a target at a place.
abbrev at : ℕ → Location → Worker
at k l = record { target = k; location = l }

next_attempt :
    (i k ps : ℕ) (base : List Worker) (turn : Turn) (g : Generator)
    → turn.rested ≡ true
    → Alive i (record { target = k; location = connecting ps }) false base g
    → Alive i
        (record { target = k; location = connecting ps })
        false
        base
        (run (four_turns i turn) g)
unfolding run step next
next_attempt i k ps base turn g rested h =
    let g1 = turn_of i turn g in
    let g2 = turn_of i turn g1 in
    let g3 = turn_of i turn g2 in
    let h1 = turn_of-Alive i (at k (connecting ps)) false base turn g h in
    let h2 = turn_of-Alive i (at k (recorded ps turn.connected)) false base turn g1 h1 in
    let h3 = turn_of-Alive i (at k (waiting ps)) false base turn g2 h2 in
    let h3b =
      subst
        (λ b.
          Alive i (at k (if b then checking ps else if g2.stop_event then finished else waiting ps))
            false base g3)
        rested h3 in
    let h4 = turn_of-Alive i (at k (checking ps)) false base turn g3 h3b in
    subst
      (λ b. Alive i (at k (if b then finished else connecting ps)) false base (turn_of i turn g3))
      h3b.event h4

-- A worker that is back at its connection, with the stop event clear, beside new threads.
pub record Survives (i : ℕ) (w : Worker) (ports : List ℕ) (before : List Worker) (g : Generator)
    : Type 0 where
  pub found : get_elem? g.threads i ≡ some w
  pub event : g.stop_event ≡ false
  pub threads :
      g.threads ≡ before ++ map (λ port. record { target = port; location = starting }) ports

-- A worker whose connection lasts longer than the `stop` of a running generator is still there after
-- a following start, with the event cleared: four turns later it is at its next connection, every other
-- thread of before stands where it stood, and behind them stands one new thread, at its first line, for
-- each port of the profile.
pub restart-survivor :
    (g : Generator) (i k ps now : ℕ) (turn : Turn)
    → g.running ≡ true
    → get_elem? g.threads i ≡ some (record { target = k; location = connecting ps })
    → turn.rested ≡ true
    → Survives i
        (record { target = k; location = connecting ps })
        (profile_ports g.profile)
        g.threads
        (run (stops ∷ starts now ∷ four_turns i turn) g)
unfolding run step
restart-survivor g i k ps now turn running found rested =
    let w = at k (connecting ps) in
    let base = g.threads ++ new_workers (profile_ports g.profile) in
    let there = get-append g.threads (new_workers (profile_ports g.profile)) i w found in
    let alive = next_attempt i k ps base turn (start now (stop g)) rested (
      subst
        (λ h. Alive i (record { target = k; location = connecting ps }) false base (start now h))
        (sym (stop-running g running))
        (Grown-Alive i (record { target = k; location = connecting ps }) base
          (start now (record g { stop_event = true; running = false; workers = [] })) there
          (start-Grown now (record g { stop_event = true; running = false; workers = [] })
            refl))) in
    record {
      found = alive.found;
      event = alive.event;
      threads = alive.threads ∙ set-get base i w there;
    }
