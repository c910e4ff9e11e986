-- ===== src/Ha.antt =====
-- tc-firewall/src/ha.py: one node's role and fencing token. Times are natural numbers of
-- milliseconds on the node's monotonic clock, 0 for "never", as in the source; `gen_file` is what the
-- generation file holds. A call that writes the file takes what the disk does. The file holds a
-- number or none here: the conversions between the number and its text, and numbers that the program
-- does not write, are not modelled. A heartbeat carries what its sender was when it was sent.
pub mod Exchange
pub mod Transition
pub mod Failover
mod Tests
use technicolor_haze_prism.Base.{
  ℕ, ◌+◌, ◌-◌, ◌*◌, ◌/◌, String, Bool, true, false, not, ◌&&◌, Option, none, some, List, [], ◌∷◌,
  text_key, ltb, leb, nat_eq, if◌then◌else◌, ◌==◌, Action, ok, err, value_error, pure, gets, modify,
  or_raise, ◌>>=◌, ◌>>◌, or_else,
}

pub data HaState : Type 0 where
  active standby fencing : HaState

pub HaState-discrete : Discrete HaState
HaState-discrete = hlevel

abbrev pub same_role : HaState → HaState → Bool
same_role active active = true
same_role standby standby = true
same_role fencing fencing = true
same_role _ _ = false

-- `HAState(text)`; a text that names no member raises ValueError.
pub role_of_text : String → Option HaState
role_of_text text =
    if text == "ACTIVE"
    then some active
    else if text == "STANDBY"
    then some standby
    else if text == "FENCING"
    then some fencing
    else none

pub record HaManager : Type 0 where
  pub role : HaState
  pub peer_url : Option String
  pub generation : ℕ
  pub gen_file : Option ℕ
  pub heartbeat_interval_ms : ℕ
  pub heartbeat_timeout_ms : ℕ
  pub last_heartbeat_received : ℕ
  pub peer_generation : ℕ
  pub peer_role : Option HaState
  pub running : Bool
  pub has_flush_callback : Bool
  -- how often the callback was called
  pub flushes : ℕ

-- The number in the file, and 1 where there is no file or no number in it.
pub load_generation : Option ℕ → ℕ
load_generation gen_file = or_else gen_file 1

-- `if peer_url:`, where an empty text counts as none.
has_peer : Option String → Bool
has_peer none = false
has_peer (some url) = not (url == "")

-- `HAManager.__init__`, at a file with this content.
pub init : Option String → ℕ → ℕ → Option ℕ → HaManager
unfolding has_peer load_generation
init peer_url interval timeout gen_file = record {
  role = if has_peer peer_url then standby else active;
  peer_url = peer_url;
  generation = load_generation gen_file;
  gen_file = gen_file;
  heartbeat_interval_ms = interval;
  heartbeat_timeout_ms = timeout;
  last_heartbeat_received = 0;
  peer_generation = 0;
  peer_role = none;
  running = false;
  has_flush_callback = false;
  flushes = 0;
}

-- What the disk does: the file cannot be opened, it is opened, and so emptied, and cannot be written,
-- or the number is written.
pub data Disk : Type 0 where
  unopened emptied written : Disk

-- The number in the file after it.
left_in : Disk → ℕ → Option ℕ → Option ℕ
left_in unopened generation gen_file = gen_file
left_in emptied generation gen_file = none
left_in written generation gen_file = some generation

-- An `OSError` is swallowed.
pub persist_generation : Disk → HaManager → HaManager
unfolding left_in
persist_generation disk m = record m { gen_file = left_in disk m.generation m.gen_file }

pub is_active : HaManager → Bool
is_active m = same_role m.role active

pub missed_heartbeats : ℕ → HaManager → ℕ
missed_heartbeats now m =
    if nat_eq m.last_heartbeat_received 0
    then 0
    else if nat_eq m.heartbeat_interval_ms 0
    then 0
    else (now - m.last_heartbeat_received) / m.heartbeat_interval_ms

pub peer_alive : ℕ → HaManager → Bool
peer_alive now m =
    if nat_eq m.last_heartbeat_received 0
    then false
    else ltb (now - m.last_heartbeat_received) m.heartbeat_timeout_ms

-- The "action" of the answer to a heartbeat.
pub data Resolution : Type 0 where
  no_action peer_must_demote self_demoted fencing_equal_generation : Resolution

-- `_demote`; what the callback raises is swallowed.
pub demote_now : HaManager → HaManager
demote_now m =
    let demoted = record m { role = standby } in
    if m.has_flush_callback then record demoted { flushes = m.flushes + 1 } else demoted

pub resolve_split_brain : ℕ → Action HaManager Resolution
unfolding demote_now
resolve_split_brain peer_generation m =
    if ltb peer_generation m.generation
    then (ok peer_must_demote, m)
    else if ltb m.generation peer_generation
    then (ok self_demoted, demote_now m)
    else (ok fencing_equal_generation, record m { role = fencing })

pub receive_heartbeat : ℕ → ℕ → String → Action HaManager Resolution
unfolding resolve_split_brain role_of_text
receive_heartbeat now peer_generation peer_role = do
  modify (λ m. record m { last_heartbeat_received = now; peer_generation = peer_generation })
  role ← or_raise (role_of_text peer_role) (value_error peer_role)
  modify (λ m. record m { peer_role = some role })
  mine ← gets (λ m. m.role)
  if same_role mine active && same_role role active
      then resolve_split_brain peer_generation
      else pure no_action

pub data PromoteAnswer : Type 0 where
  already_active : ℕ → PromoteAnswer
  promoted : HaState → ℕ → PromoteAnswer

pub promote : Disk → HaManager → PromoteAnswer × HaManager
unfolding persist_generation
promote disk m = if same_role m.role active then (already_active m.generation, m) else (
  promoted m.role (m.generation + 1),
  persist_generation disk (record m { generation = m.generation + 1; role = active }),
)

pub data DemoteAnswer : Type 0 where
  already_standby : ℕ → DemoteAnswer
  demoted : HaState → ℕ → DemoteAnswer

pub demote : HaManager → DemoteAnswer × HaManager
unfolding demote_now
demote m =
    if same_role m.role standby
    then (already_standby m.generation, m)
    else (demoted m.role m.generation, demote_now m)

-- One round of `_heartbeat_monitor` at a time of the clock.
pub monitor_round : ℕ → Disk → HaManager → HaManager
unfolding promote peer_alive
monitor_round now disk m =
    if same_role m.role standby && not (peer_alive now m)
    then (if ltb 0 m.last_heartbeat_received then (promote disk m).1 else m)
    else m

-- What `_heartbeat_sender` posts.
pub record Heartbeat : Type 0 where
  pub generation : ℕ
  pub role : String

pub role_text : HaState → String
role_text active = "ACTIVE"
role_text standby = "STANDBY"
role_text fencing = "FENCING"

pub heartbeat : HaManager → Heartbeat
unfolding role_text
heartbeat m = record { generation = m.generation; role = role_text m.role }

-- The endpoint `ha_heartbeat` of main.py on a body with both keys.
pub ha_heartbeat : ℕ → Heartbeat → Action HaManager Resolution
unfolding receive_heartbeat
ha_heartbeat now h = receive_heartbeat now h.generation h.role

-- `start` creates the tasks only with a peer; `stop` ends them.
pub start : HaManager → HaManager
unfolding has_peer
start m = if has_peer m.peer_url then record m { running = true } else m

pub stop : HaManager → HaManager
stop m = record m { running = false }

pub record Status : Type 0 where
  pub role : HaState
  pub generation : ℕ
  pub peer_url : Option String
  pub alive : Bool
  pub peer_generation : ℕ
  pub peer_role : Option HaState
  pub last_heartbeat_from_peer : ℕ
  pub missed : ℕ
  pub heartbeat_interval_ms : ℕ
  pub heartbeat_timeout_ms : ℕ

pub get_status : ℕ → HaManager → Status
unfolding peer_alive missed_heartbeats
get_status now m = record {
  role = m.role;
  generation = m.generation;
  peer_url = m.peer_url;
  alive = peer_alive now m;
  peer_generation = m.peer_generation;
  peer_role = m.peer_role;
  last_heartbeat_from_peer = m.last_heartbeat_received;
  missed = missed_heartbeats now m;
  heartbeat_interval_ms = m.heartbeat_interval_ms;
  heartbeat_timeout_ms = m.heartbeat_timeout_ms;
}

-- What happens to a node: a heartbeat arrives, the monitor has its round, or an operator promotes
-- or demotes it.
pub data Event : Type 0 where
  heartbeats : ℕ → ℕ → String → Event
  monitors : ℕ → Disk → Event
  promotes : Disk → Event
  demotes : Event

pub step : Event → HaManager → HaManager
step (heartbeats now generation role) m = (receive_heartbeat now generation role m).1
step (monitors now disk) m = monitor_round now disk m
step (promotes disk) m = (promote disk m).1
step demotes m = (demote m).1

pub run : List Event → HaManager → HaManager
run [] m = m
run (e ∷ es) m = run es (step e m)
