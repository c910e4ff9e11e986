-- ===== src/Generator/Counters.antt =====
-- The counters of the traffic generator over a run, in any interleaving of its workers.
use technicolor_haze_prism.Base.{
  ℕ, ◌+◌, ◌<◌, ◌≡◌, refl, sym, ap, ◌∙◌, subst, Bool, true, false, List, [], ◌∷◌, All, arith,
  nat_key, sum_by,
}
use technicolor_haze_prism.Generator.{
  Generator, Profile, http, https, mixed, all_ports, Event, start, run, init, reset, Turn, turn_of,
  Stats, PortStats, per_port, new_port_stats, record_attempt, total_attempt, record_success,
  record_failure, total_success, total_failure, payload_length,
}
use technicolor_haze_prism.Generator.Turns.{Bounded, turn_of-Bounded}
use technicolor_haze_prism.Generator.Balance.{Balanced, held, turn_of-Balanced}
use technicolor_haze_prism.Generator.Histories.{IsNoStart, run-keeps}
use technicolor_haze_prism.Generator.Started.{
  Settings, idle, run-NeverStarted, layout, Laid, turn_of-Laid, per_port-Laid,
}

-- A run of one generator: what holds from its start on.
record OneRun (f : PortStats → ℕ) (t : Stats → ℕ) (d : Bool → ℕ) (g : Generator) : Type 0 where
  laid : Laid g
  bounded : Bounded g
  balanced : Balanced f t d g

start-OneRun :
    (f : PortStats → ℕ) (t : Stats → ℕ) (d : Bool → ℕ)
    → ((port : ℕ) → f (new_port_stats port) ≡ 0)
    → ((now : ℕ) (s : Stats) → t (reset now s) ≡ 0)
    → (now : ℕ) (s : Settings) → OneRun f t d (start now (idle s))
unfolding start idle layout init reset
start-OneRun f t d zero_port zero_total now s = go s.profile
  where
    below_four : All (λ ps. ps < 4) (0 ∷ 1 ∷ 2 ∷ 3 ∷ [])
    below_four = (omega arith, (omega arith, (omega arith, (omega arith, tt))))

    zero_sum :
        f (new_port_stats 80)
          + (f (new_port_stats 443) + (f (new_port_stats 22) + (f (new_port_stats 5432) + 0)))
        ≡ 0
    zero_sum = omega (arith, zero_port 80, zero_port 443, zero_port 22, zero_port 5432)

    go : (p : Profile) → OneRun f t d (start now (idle (record s { profile = p })))
    go http = record {
      laid = record { profile = http; ports = refl; made = refl };
      bounded = record { by_threads = (tt, tt); by_ports = (omega arith, tt) };
      balanced = omega (arith, zero_port 80, zero_total now init.stats);
    }
    go https = record {
      laid = record { profile = https; ports = refl; made = refl };
      bounded = record { by_threads = (tt, tt); by_ports = (omega arith, tt) };
      balanced = omega (arith, zero_port 443, zero_total now init.stats);
    }
    go mixed = record {
      laid = record { profile = mixed; ports = refl; made = refl };
      bounded = record { by_threads = (tt, (tt, (tt, (tt, tt)))); by_ports = below_four };
      balanced = omega (arith, zero_sum, zero_total now init.stats);
    }
    go all_ports = record {
      laid = record { profile = all_ports; ports = refl; made = refl };
      bounded = record { by_threads = (tt, (tt, (tt, (tt, tt)))); by_ports = below_four };
      balanced = omega (arith, zero_sum, zero_total now init.stats);
    }

-- The settings decide nothing of it.
resettled :
    (f : PortStats → ℕ) (t : Stats → ℕ) (d : Bool → ℕ) (g : Generator) (p : Profile) (rate : ℕ)
    (running : Bool) (workers : List ℕ) (stop_event : Bool)
    → OneRun f t d g
    → OneRun f t d (record g {
      profile = p;
      rate_cps = rate;
      running = running;
      workers = workers;
      stop_event = stop_event;
    })
resettled f t d g p rate running workers stop_event h = record {
  laid = record { profile = h.laid.profile; ports = h.laid.ports; made = h.laid.made };
  bounded = record { by_threads = h.bounded.by_threads; by_ports = h.bounded.by_ports };
  balanced = h.balanced;
}

-- The state after a first start and a history without another.
abbrev pub after_start : List Event → ℕ → List Event → Generator
after_start before now after = run after (start now (run before init))

-- What the ports have counted, as `get_stats` lists them, is what the aggregate has and what
-- workers hold.
abbrev pub Shown : (PortStats → ℕ) → (Stats → ℕ) → (Bool → ℕ) → Generator → Type 0
Shown f t d g = sum_by f (per_port g) ≡ t g.stats + sum_by (held d) g.threads

module _ (f : PortStats → ℕ) (t : Stats → ℕ) (d : Bool → ℕ)
    (zero_port : (port : ℕ) → f (new_port_stats port) ≡ 0)
    (zero_total : (now : ℕ) (s : Stats) → t (reset now s) ≡ 0)
    (adds : (b : Bool) (o : PortStats) → f (record_attempt b o) ≡ f o + d b)
    (adds_total : (b : Bool) (s : Stats) → t (total_attempt b s) ≡ t s + d b) where
  turn_of-OneRun :
      (i : ℕ) (turn : Turn) (g : Generator) → OneRun f t d g → OneRun f t d (turn_of i turn g)
  turn_of-OneRun i turn g h = record {
    laid = turn_of-Laid i turn g h.laid;
    bounded = turn_of-Bounded i turn g h.bounded;
    balanced = turn_of-Balanced f t d adds adds_total i turn g h.bounded h.balanced;
  }

  run-OneRun :
      (before after : List Event) (now : ℕ)
      → All IsNoStart before
      → All IsNoStart after
      → OneRun f t d (after_start before now after)
  run-OneRun before after now b a =
      let never = run-NeverStarted before b in
      run-keeps (OneRun f t d) turn_of-OneRun
        (λ p g. resettled f t d g p g.rate_cps g.running g.workers g.stop_event)
        (λ n g. resettled f t d g g.profile n g.running g.workers g.stop_event)
        (λ g h running. resettled f t d g g.profile g.rate_cps false [] true h) after
        (start now (run before init)) a
        (subst (λ g. OneRun f t d (start now g)) (sym never.1)
          (start-OneRun f t d zero_port zero_total now never.0))

  run-Shown :
      (before after : List Event) (now : ℕ)
      → All IsNoStart before
      → All IsNoStart after
      → Shown f t d (after_start before now after)
  run-Shown before after now b a =
      let ended = run-OneRun before after now b a in
      ap (sum_by f) (per_port-Laid (after_start before now after) ended.laid) ∙ ended.balanced

-- What an attempt adds to each counter.
abbrev pub one : Bool → ℕ
one success = 1

abbrev pub if_success : Bool → ℕ
if_success true = 1
if_success false = 0

abbrev pub if_failure : Bool → ℕ
if_failure true = 0
if_failure false = 1

abbrev pub sent : Bool → ℕ
sent true = payload_length
sent false = 0

pub record Accounted (g : Generator) : Type 0 where
  pub attempted : Shown (λ o. o.attempted) (λ s. s.total_attempted) one g
  pub succeeded : Shown (λ o. o.succeeded) (λ s. s.total_succeeded) if_success g
  pub failed : Shown (λ o. o.failed) (λ s. s.total_failed) if_failure g
  pub bytes_sent : Shown (λ o. o.bytes_sent) (λ s. s.total_bytes_sent) sent g

-- After a first start and any history without another start, in any interleaving of the workers,
-- each of the four counters that `get_stats` lists for the ports sums to the aggregate one and what
-- workers hold between the records of an attempt.
pub run-Accounted :
    (before after : List Event) (now : ℕ)
    → All IsNoStart before
    → All IsNoStart after
    → Accounted (after_start before now after)
unfolding record_attempt total_attempt record_success record_failure total_success total_failure
    reset
run-Accounted before after now b a = record {
  attempted =
      run-Shown (λ o. o.attempted) (λ s. s.total_attempted) one (λ port. refl) (λ n s. refl)
        (λ v o. ground arith) (λ v s. ground arith) before after now b a;
  succeeded =
      run-Shown (λ o. o.succeeded) (λ s. s.total_succeeded) if_success (λ port. refl) (λ n s. refl)
        (λ v o. ground arith) (λ v s. ground arith) before after now b a;
  failed =
      run-Shown (λ o. o.failed) (λ s. s.total_failed) if_failure (λ port. refl) (λ n s. refl)
        (λ v o. ground arith) (λ v s. ground arith) before after now b a;
  bytes_sent =
      run-Shown (λ o. o.bytes_sent) (λ s. s.total_bytes_sent) sent (λ port. refl) (λ n s. refl)
        (λ v o. ground arith) (λ v s. ground arith) before after now b a;
}
