-- ===== src/Receiver.antt =====
-- receiver/src/listener.py: the listeners of the traffic receiver, their counters, and how they are
-- started and stopped together. The sockets are a parameter: whether a socket can be made and a bind
-- or a listen succeeds; a thread can always be started. An
-- arrival is one turn of the thread that counts it. Times are whole seconds.
pub mod Calls
pub mod Starting
pub mod Counting
mod Tests
use technicolor_haze_prism.Base.{
  ℕ, ◌+◌, String, Bool, true, false, Option, none, some, List, [], ◌∷◌, ◌++◌, map, text_key,
  if◌then◌else◌, ◌==◌, Action, Result, ok, err, os_error, pure, raise, ◌>>=◌, ◌>>◌, get_elem?, set,
  sum_by,
}

pub record PortStats : Type 0 where
  pub port : ℕ
  pub protocol : String
  pub connections : ℕ
  pub packets : ℕ
  pub bytes_received : ℕ
  pub last_seen : ℕ

unfoldable pub record_traffic : ℕ → Bool → ℕ → PortStats → PortStats
record_traffic nbytes is_new_conn now s = record s {
  packets = s.packets + 1;
  bytes_received = s.bytes_received + nbytes;
  last_seen = now;
  connections = if is_new_conn then s.connections + 1 else s.connections;
}

pub record ListenerConfig : Type 0 where
  pub port : ℕ
  pub protocol : String
  pub bind_ip : String

abbrev pub default_listeners : List ListenerConfig
default_listeners =
    record { port = 80; protocol = "tcp"; bind_ip = "10.0.2.1" }
    ∷ record { port = 443; protocol = "tcp"; bind_ip = "10.0.2.1" }
    ∷ record { port = 5432; protocol = "tcp"; bind_ip = "10.0.2.1" }
    ∷ record { port = 22; protocol = "tcp"; bind_ip = "10.0.2.1" }
    ∷ record { port = 53; protocol = "udp"; bind_ip = "10.0.2.1" }
    ∷ []

-- A TCPPortListener or a UDPPortListener, by its flag; `listening` tells that its socket is open.
pub record Listener : Type 0 where
  pub config : ListenerConfig
  pub is_tcp : Bool
  pub stats : PortStats
  pub listening : Bool
  pub stop_event : Bool

-- `config.protocol == "tcp"` chooses the class, which names its own protocol in the counters.
unfoldable pub new_listener : ListenerConfig → Listener
new_listener c =
    let is_tcp = c.protocol == "tcp" in
    record {
      config = c;
      is_tcp = is_tcp;
      stats = record {
        port = c.port;
        protocol = if is_tcp then "tcp" else "udp";
        connections = 0;
        packets = 0;
        bytes_received = 0;
        last_seen = 0;
      };
      listening = false;
      stop_event = false;
    }

-- What the sockets do: each call tells whether it succeeds, and raises OSError otherwise. `create` is
-- `socket()` with the options set after it.
pub record Sockets (W : Type 0) : Type 0 where
  pub create : Bool → W → Bool × W
  pub bind : Bool → String → ℕ → W → Bool × W
  pub listen : ℕ → W → Bool × W

pub record Receiver : Type 0 where
  pub bind_ip : String
  pub configs : List ListenerConfig
  pub listeners : List Listener
  pub running : Bool
  pub start_time : ℕ

-- `configs or DEFAULT_LISTENERS`
configs_or_default : Option (List ListenerConfig) → List ListenerConfig
configs_or_default none = default_listeners
configs_or_default (some []) = default_listeners
configs_or_default (some (c ∷ configs)) = c ∷ configs

unfoldable pub init : String → Option (List ListenerConfig) → Receiver
unfolding configs_or_default
init bind_ip configs = record {
  bind_ip = bind_ip;
  configs = configs_or_default configs;
  listeners = [];
  running = false;
  start_time = 0;
}

module _ {W : Type 0} (os : Sockets W) where
  call : (W → Bool × W) → Action W (Unit {0})
  call f w = let (done, v) = f w in (if done then ok tt else err os_error, v)

  -- The address of the configuration, or else all interfaces.
  bind_any : Listener → Action W (Unit {0})
  unfolding call
  bind_any l w =
      let (done, v) = os.bind l.is_tcp l.config.bind_ip l.config.port w in
      if done then (ok tt, v) else call (os.bind l.is_tcp "0.0.0.0" l.config.port) v

  -- `start` of a listener; its thread runs from then on.
  unfoldable pub start_listener : Listener → Action W Listener
  unfolding bind_any call
  start_listener l = do
    call (os.create l.is_tcp)
    bind_any l
    if l.is_tcp then call (os.listen l.config.port) else pure tt
    pure (record l { listening = true; stop_event = false })

  -- The loop of `start`: the listeners that are started are appended, also where one raises.
  unfoldable pub start_each : List ListenerConfig → Action (Receiver × W) (Unit {0})
  start_each [] s = (ok tt, s)
  start_each (c ∷ configs) s =
      let (r, w) = start_listener (new_listener (record c { bind_ip = s.0.bind_ip })) s.1 in
      elim r [
        | ok l ↦ start_each configs (record s.0 { listeners = s.0.listeners ++ (l ∷ []) }, w)
        | err x ↦ (err x, (s.0, w))
      ]

  unfoldable pub start : ℕ → Action (Receiver × W) (Unit {0})
  unfolding start_each
  start now s =
      if s.0.running
      then (ok tt, s)
      else (do start_each s.0.configs; (λ t. (ok tt, (record t.0 { running = true }, t.1))))
          (record s.0 { start_time = now; listeners = [] }, s.1)

-- `stop` of a listener closes its socket and waits for its thread.
unfoldable pub stop_listener : Listener → Listener
stop_listener l = record l { stop_event = true; listening = false }

unfoldable pub stop : Receiver → Receiver
unfolding stop_listener
stop r =
    if r.running
    then record r { listeners = map (λ l. stop_listener l) r.listeners; running = false }
    else r

-- What arrives: a TCP connection, a chunk of data on one, or a UDP datagram.
pub data Arrival : Type 0 where
  connection : Arrival
  chunk datagram : ℕ → Arrival

count_arrival : Arrival → ℕ → PortStats → PortStats
unfolding record_traffic
count_arrival connection now s = record_traffic 0 true now s
count_arrival (chunk nbytes) now s = record_traffic nbytes false now s
count_arrival (datagram nbytes) now s = record_traffic nbytes true now s

-- What a thread of the listener gets, it counts. Its loop has tested the stop event before, so what
-- arrives at last may be counted after a stop.
unfoldable pub arrive : ℕ → Arrival → ℕ → Receiver → Receiver
unfolding count_arrival
arrive i a now r = elim (get_elem? r.listeners i) [
  | none ↦ r
  | some l ↦ record r {
    listeners = set r.listeners i (record l { stats = count_arrival a now l.stats });
  }
]

-- The totals of `get_stats`.
pub record Totals : Type 0 where
  pub total_packets : ℕ
  pub total_bytes : ℕ
  pub total_connections : ℕ

unfoldable pub get_stats : Receiver → Totals
get_stats r = record {
  total_packets = sum_by (λ l. l.stats.packets) r.listeners;
  total_bytes = sum_by (λ l. l.stats.bytes_received) r.listeners;
  total_connections = sum_by (λ l. l.stats.connections) r.listeners;
}
