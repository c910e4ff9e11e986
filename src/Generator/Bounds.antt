-- ===== src/Generator/Bounds.antt =====
-- What the counters and the rate of the traffic generator are in every state that it reaches, starts
-- and restarts included.
use technicolor_haze_prism.Base.{
  ℕ, ◌+◌, ◌*◌, ◌≤◌, ◌≡◌, refl, sym, subst, Bool, true, false, List, [], ◌∷◌, ◌++◌, get_elem?,
  get-All, set-All, append-All, length, nat_key, insert, arith, ℤ, pos, negsuc, All, Bool-cases,
  Option-cases, inl, inr,
}
use technicolor_haze_prism.Generator.{
  Generator, PortStats, Stats, Location, connecting, recorded, waiting, checking, starting,
  finished, Turn, Event, starts, stops, takes_turn, sets_profile, sets_rate, count, step, run, init,
  start, set_rate, clamp_rate, add_port_stats, add_workers, profile_ports, reset, new_port_stats,
  update_object, record_attempt, total_attempt, record_success, record_failure, total_success,
  total_failure, payload_length,
}
use technicolor_haze_prism.Generator.Turns.{turn_of-keeps, turned}
use technicolor_haze_prism.Generator.Histories.{set_profile-changes, stop-running, stop-idle}

-- Every attempt of a port succeeded or failed, and each success sent the payload.
pub record PortAddsUp (o : PortStats) : Type 0 where
  pub attempts : o.attempted ≡ o.succeeded + o.failed
  pub bytes : o.bytes_sent ≡ o.succeeded * payload_length

pub record TotalAddsUp (s : Stats) : Type 0 where
  pub attempts : s.total_attempted ≡ s.total_succeeded + s.total_failed
  pub bytes : s.total_bytes_sent ≡ s.total_succeeded * payload_length

pub record Sound (g : Generator) : Type 0 where
  pub ports : All PortAddsUp g.objects
  pub total : TotalAddsUp g.stats
  pub rate_least : 1 ≤ g.rate_cps
  pub rate_most : g.rate_cps ≤ 100

record_attempt-PortAddsUp :
    (b : Bool) (o : PortStats) → PortAddsUp o → PortAddsUp (record_attempt b o)
unfolding record_attempt record_success record_failure
record_attempt-PortAddsUp true o h = record {
  attempts = omega (arith, h.attempts);
  bytes = omega (arith, h.bytes);
}
record_attempt-PortAddsUp false o h = record {
  attempts = omega (arith, h.attempts);
  bytes = h.bytes;
}

total_attempt-TotalAddsUp : (b : Bool) (s : Stats) → TotalAddsUp s → TotalAddsUp (total_attempt b s)
unfolding total_attempt total_success total_failure
total_attempt-TotalAddsUp true s h = record {
  attempts = omega (arith, h.attempts);
  bytes = omega (arith, h.bytes);
}
total_attempt-TotalAddsUp false s h = record {
  attempts = omega (arith, h.attempts);
  bytes = h.bytes;
}

update_object-PortAddsUp :
    (ps : ℕ) (b : Bool) (objects : List PortStats)
    → All PortAddsUp objects
    → All PortAddsUp (update_object ps (record_attempt b) objects)
unfolding update_object
update_object-PortAddsUp ps b objects h = elim (Option-cases (get_elem? objects ps)) [
  | inl nothing ↦ rw (update_object, nothing) h
  | inr found ↦
      rw (update_object, found.1)
        (set-All PortAddsUp objects ps (record_attempt b found.0) h
          (record_attempt-PortAddsUp b found.0 (get-All PortAddsUp objects ps found.0 h found.1)))
]

turned-Sound :
    (i : ℕ) (turn : Turn) (g : Generator) (k : ℕ) (l : Location)
    → Sound g
    → Sound (turned i turn g (record { target = k; location = l }))
unfolding count
turned-Sound i turn g k (connecting ps) h = record {
  ports = update_object-PortAddsUp ps turn.connected g.objects h.ports;
  total = h.total;
  rate_least = h.rate_least;
  rate_most = h.rate_most;
}
turned-Sound i turn g k (recorded ps b) h = record {
  ports = h.ports;
  total = total_attempt-TotalAddsUp b g.stats h.total;
  rate_least = h.rate_least;
  rate_most = h.rate_most;
}
turned-Sound i turn g k starting h = record {
  ports = h.ports;
  total = h.total;
  rate_least = h.rate_least;
  rate_most = h.rate_most;
}
turned-Sound i turn g k (checking ps) h = record {
  ports = h.ports;
  total = h.total;
  rate_least = h.rate_least;
  rate_most = h.rate_most;
}
turned-Sound i turn g k (waiting ps) h = record {
  ports = h.ports;
  total = h.total;
  rate_least = h.rate_least;
  rate_most = h.rate_most;
}
turned-Sound i turn g k finished h = record {
  ports = h.ports;
  total = h.total;
  rate_least = h.rate_least;
  rate_most = h.rate_most;
}

-- Soundness is of the objects, the totals and the rate alone.
sound :
    (g k : Generator)
    → k.objects ≡ g.objects
    → k.stats ≡ g.stats
    → k.rate_cps ≡ g.rate_cps
    → Sound g
    → Sound k
sound g k o s r h = record {
  ports = subst (All PortAddsUp) (sym o) h.ports;
  total = subst TotalAddsUp (sym s) h.total;
  rate_least = omega (arith, r, h.rate_least);
  rate_most = omega (arith, r, h.rate_most);
}

add_workers-Sound : (ports : List ℕ) (g : Generator) → Sound g → Sound (add_workers ports g)
unfolding add_workers
add_workers-Sound [] g h = h
add_workers-Sound (port ∷ ports) g h =
    add_workers-Sound ports
      (record g {
        threads = g.threads ++ (record { target = port; location = starting } ∷ []);
        workers = g.workers ++ (length g.threads ∷ []);
      })
      (sound g _ refl refl refl h)

add_port_stats-Sound : (ports : List ℕ) (g : Generator) → Sound g → Sound (add_port_stats ports g)
unfolding add_port_stats
add_port_stats-Sound [] g h = h
add_port_stats-Sound (port ∷ ports) g h =
    add_port_stats-Sound ports
      (record g {
        objects = g.objects ++ (new_port_stats port ∷ []);
        port_stats = insert port (length g.objects) g.port_stats;
      })
      (record {
        ports =
            append-All PortAddsUp g.objects (new_port_stats port ∷ []) h.ports
              (record { attempts = omega arith; bytes = omega arith }, tt);
        total = h.total;
        rate_least = h.rate_least;
        rate_most = h.rate_most;
      })

start-Sound : (now : ℕ) (g : Generator) → Sound g → Sound (start now g)
unfolding start reset
start-Sound now g h = elim (Bool-cases g.running) [
  | inl running ↦ rw (start, running) (sound g _ refl refl refl h)
  | inr idle ↦
      rw (start, idle)
        (add_workers-Sound (profile_ports g.profile) _ (
          add_port_stats-Sound (profile_ports g.profile)
            (record g {
              stop_event = false;
              running = true;
              stats = reset now g.stats;
              port_stats = [];
            })
            (record {
              ports = h.ports;
              total = record { attempts = omega arith; bytes = omega arith };
              rate_least = h.rate_least;
              rate_most = h.rate_most;
            })))
]

clamp_rate-range : (v : ℤ) → (1 ≤ clamp_rate v) × (clamp_rate v ≤ 100)
unfolding clamp_rate
clamp_rate-range (pos n) = (omega arith, omega arith)
clamp_rate-range (negsuc n) = (omega arith, omega arith)

step-Sound : (e : Event) (g : Generator) → Sound g → Sound (step e g)
unfolding step set_rate
step-Sound (starts now) g h = start-Sound now g h
step-Sound stops g h = elim (Bool-cases g.running) [
  | inl running ↦ subst Sound (sym (stop-running g running)) (sound g _ refl refl refl h)
  | inr idle ↦ subst Sound (sym (stop-idle g idle)) h
]
step-Sound (sets_profile value) g h =
    subst Sound (sym (set_profile-changes value g).1) (sound g _ refl refl refl h)
step-Sound (sets_rate value) g h = record {
  ports = h.ports;
  total = h.total;
  rate_least = (clamp_rate-range value).0;
  rate_most = (clamp_rate-range value).1;
}
step-Sound (takes_turn i turn) g h =
    turn_of-keeps Sound i turn g h (λ w e. turned-Sound i turn g w.target w.location h)

run-Sound : (events : List Event) (g : Generator) → Sound g → Sound (run events g)
unfolding run
run-Sound [] g h = h
run-Sound (e ∷ events) g h = run-Sound events (step e g) (step-Sound e g h)

-- After any history from a new generator, restarts included: in every PortStats and in the aggregate
-- the attempts are the successes and the failures, and 64 bytes were sent for each success; the rate
-- is between 1 and 100, whatever was asked for.
pub run-init-Sound : (events : List Event) → Sound (run events init)
unfolding init
run-init-Sound events = run-Sound events init (record {
  ports = tt;
  total = record { attempts = omega arith; bytes = omega arith };
  rate_least = omega arith;
  rate_most = omega arith;
})
