-- ===== src/Generator.antt =====
-- traffic-gen/src/generator.py: the traffic generator, its worker threads and their counters. What
-- the threads share is one state; a thread's turn runs it to the next point where another may step
-- in. Sockets are parameters: a turn is told whether the connection succeeds. Clock and pauses are
-- the schedule's choice, so rates of connections per second are not modelled.
pub mod Turns
pub mod Bounds
mod Tests
pub mod Restart
pub mod Drain
pub mod Counters
pub mod Started
pub mod Histories
pub mod Balance
use Prim.Native.Char.{code}
use technicolor_haze_prism.Base.{
  ℕ, zero, suc, ◌+◌, min, max, String, Bool, true, false, ◌&&◌, Option, none, some, List, [], ◌∷◌,
  ◌++◌ as ◌+++◌, map, nat_eq, if◌then◌else◌, Dict, lookup, insert, values, nat_key, length,
  get_elem?, set, lower, ℤ, pos, negsuc,
}

pub data Profile : Type 0 where
  http https mixed all_ports : Profile

pub record PortStats : Type 0 where
  pub port : ℕ
  pub attempted : ℕ
  pub succeeded : ℕ
  pub failed : ℕ
  pub bytes_sent : ℕ

-- `start_time` is in whole seconds.
pub record Stats : Type 0 where
  pub total_attempted : ℕ
  pub total_succeeded : ℕ
  pub total_failed : ℕ
  pub total_bytes_sent : ℕ
  pub start_time : ℕ

abbrev pub new_port_stats : ℕ → PortStats
new_port_stats port = record {
  port = port;
  attempted = 0;
  succeeded = 0;
  failed = 0;
  bytes_sent = 0;
}

-- `record_success` and `record_failure` of PortStats, each in one turn, as they hold its lock.
unfoldable pub record_success : ℕ → PortStats → PortStats
record_success nbytes ps = record ps {
  attempted = ps.attempted + 1;
  succeeded = ps.succeeded + 1;
  bytes_sent = ps.bytes_sent + nbytes;
}

unfoldable pub record_failure : PortStats → PortStats
record_failure ps = record ps { attempted = ps.attempted + 1; failed = ps.failed + 1 }

-- The same of Stats, and its `reset`.
unfoldable pub total_success : ℕ → Stats → Stats
total_success nbytes stats = record stats {
  total_attempted = stats.total_attempted + 1;
  total_succeeded = stats.total_succeeded + 1;
  total_bytes_sent = stats.total_bytes_sent + nbytes;
}

unfoldable pub total_failure : Stats → Stats
total_failure stats = record stats {
  total_attempted = stats.total_attempted + 1;
  total_failed = stats.total_failed + 1;
}

unfoldable pub reset : ℕ → Stats → Stats
reset now stats = record {
  total_attempted = 0;
  total_succeeded = 0;
  total_failed = 0;
  total_bytes_sent = 0;
  start_time = now;
}

-- `PROFILE_PORTS`; every target is TCP.
unfoldable pub profile_ports : Profile → List ℕ
profile_ports http = 80 ∷ []
profile_ports https = 443 ∷ []
profile_ports mixed = 80 ∷ 443 ∷ 22 ∷ 5432 ∷ []
profile_ports all_ports = 80 ∷ 443 ∷ 22 ∷ 5432 ∷ []

-- `len(PAYLOAD)`
abbrev pub payload_length : ℕ
payload_length = 12 + 52

-- Where a worker stands: before its first line; before the test of the stop event; at the connection;
-- between the two records of an attempt; in the pause; at its end. `ps` is its PortStats object.
pub data Location : Type 0 where
  starting : Location
  checking connecting waiting : ℕ → Location
  recorded : ℕ → Bool → Location
  finished : Location

pub record Worker : Type 0 where
  pub target : ℕ
  pub location : Location

-- `objects` are the PortStats objects ever made, and `threads` the threads ever started; `port_stats`
-- and `workers` refer to them by number, as a worker does to its PortStats.
pub record Generator : Type 0 where
  pub stats : Stats
  pub objects : List PortStats
  pub port_stats : Dict ℕ ℕ
  pub running : Bool
  pub profile : Profile
  pub rate_cps : ℕ
  pub threads : List Worker
  pub workers : List ℕ
  pub stop_event : Bool

unfoldable pub init : Generator
init = record {
  stats = record {
    total_attempted = 0;
    total_succeeded = 0;
    total_failed = 0;
    total_bytes_sent = 0;
    start_time = 0;
  };
  objects = [];
  port_stats = [];
  running = false;
  profile = mixed;
  rate_cps = 10;
  threads = [];
  workers = [];
  stop_event = false;
}

-- `text.lower() == part`, for a part that is in lower case.
unfoldable pub equals_lower : String → String → Bool
unfolding lower
equals_lower String.[] String.[] = true
equals_lower String.[] (String.◌∷◌ d text) = false
equals_lower (String.◌∷◌ c part) String.[] = false
equals_lower (String.◌∷◌ c part) (String.◌∷◌ d text) =
    let rest = equals_lower part text in nat_eq (code c) (lower (code d)) && rest

-- `Profile(value.lower())`; none for ValueError.
unfoldable pub find_profile : String → Option Profile
unfolding equals_lower
find_profile value =
    if equals_lower "http" value
    then some http
    else if equals_lower "https" value
    then some https
    else if equals_lower "mixed" value
    then some mixed
    else if equals_lower "all_ports" value
    then some all_ports
    else none

-- The setters of `profile` and of `rate_pps`. A negative rate is below 1.
unfoldable pub set_profile : String → Generator → Generator
unfolding find_profile
set_profile value g = elim (find_profile value) [ none ↦ g | some p ↦ record g { profile = p } ]

clamp_rate : ℤ → ℕ
clamp_rate (pos n) = max 1 (min 100 n)
clamp_rate (negsuc n) = 1

unfoldable pub set_rate : ℤ → Generator → Generator
unfolding clamp_rate
set_rate value g = record g { rate_cps = clamp_rate value }

-- The first loop of `start`: a new PortStats for each port.
unfoldable pub add_port_stats : List ℕ → Generator → Generator
unfolding insert
add_port_stats [] g = g
add_port_stats (port ∷ ports) g = add_port_stats ports (record g {
  objects = g.objects +++ (new_port_stats port ∷ []);
  port_stats = insert port (length g.objects) g.port_stats;
})

-- The second loop: a thread for each port.
unfoldable pub add_workers : List ℕ → Generator → Generator
add_workers [] g = g
add_workers (port ∷ ports) g = add_workers ports (record g {
  threads = g.threads +++ (record { target = port; location = starting } ∷ []);
  workers = g.workers +++ (length g.threads ∷ []);
})

unfoldable pub start : ℕ → Generator → Generator
unfolding reset profile_ports add_port_stats add_workers
start now g =
    if g.running
    then g
    else add_workers (profile_ports g.profile) (
        add_port_stats (profile_ports g.profile) (record g {
          stop_event = false;
          running = true;
          stats = reset now g.stats;
          port_stats = [];
        }))

-- `join` waits two seconds for each worker; whether it ends by then is the schedule's choice.
unfoldable pub stop : Generator → Generator
stop g = if g.running then record g { stop_event = true; running = false; workers = [] } else g

-- What a turn of a worker meets: whether the connection and the sending succeed, and whether the
-- pause is over.
pub record Turn : Type 0 where
  pub connected : Bool
  pub rested : Bool

unfoldable pub record_attempt : Bool → PortStats → PortStats
unfolding record_success record_failure
record_attempt true ps = record_success payload_length ps
record_attempt false ps = record_failure ps

unfoldable pub total_attempt : Bool → Stats → Stats
unfolding total_success total_failure
total_attempt true stats = total_success payload_length stats
total_attempt false stats = total_failure stats

update_object : ℕ → (PortStats → PortStats) → List PortStats → List PortStats
update_object ps f objects = elim (get_elem? objects ps) [
  | none ↦ objects
  | some o ↦ set objects ps (f o)
]

-- Where the worker goes next.
unfoldable pub next : Turn → Generator → Worker → Location
unfolding lookup
next turn g w = elim w.location [
  | starting ↦ elim (lookup w.target g.port_stats) [ none ↦ finished | some ps ↦ checking ps ]
  | checking ps ↦ if g.stop_event then finished else connecting ps
  | connecting ps ↦ recorded ps turn.connected
  | recorded ps success ↦ waiting ps
  | waiting ps ↦ if turn.rested then checking ps else if g.stop_event then finished else waiting ps
  | finished ↦ finished
]

-- What it does to the counters.
unfoldable pub count : Turn → Worker → Generator → Generator
unfolding record_attempt total_attempt update_object
count turn w g = elim w.location [
  | connecting ps ↦ record g {
    objects = update_object ps (record_attempt turn.connected) g.objects;
  }
  | recorded ps success ↦ record g { stats = total_attempt success g.stats }
  | _ ↦ g
]

-- A turn of the thread `i`; a number without a thread has none.
unfoldable pub turn_of : ℕ → Turn → Generator → Generator
unfolding next count
turn_of i turn g = elim (get_elem? g.threads i) [
  | none ↦ g
  | some w ↦ record (count turn w g) {
    threads = set g.threads i (record w { location = next turn g w });
  }
]

-- The objects of these numbers.
unfoldable pub rows : List PortStats → List ℕ → List PortStats
rows objects [] = []
rows objects (ps ∷ rest) = elim (get_elem? objects ps) [
  | none ↦ rows objects rest
  | some o ↦ o ∷ rows objects rest
]

-- `get_stats`: the snapshots of `port_stats.values()`. The other entries are those of the state.
unfoldable pub per_port : Generator → List PortStats
unfolding rows
per_port g = rows g.objects (values g.port_stats)

pub data Event : Type 0 where
  starts : ℕ → Event
  stops : Event
  sets_profile : String → Event
  sets_rate : ℤ → Event
  takes_turn : ℕ → Turn → Event

unfoldable pub step : Event → Generator → Generator
unfolding start stop set_profile set_rate turn_of
step (starts now) g = start now g
step stops g = stop g
step (sets_profile value) g = set_profile value g
step (sets_rate value) g = set_rate value g
step (takes_turn i turn) g = turn_of i turn g

unfoldable pub run : List Event → Generator → Generator
unfolding step
run [] g = g
run (e ∷ events) g = run events (step e g)
