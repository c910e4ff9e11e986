-- ===== src/Receiver/Tests.antt =====
-- Witnesses and runs of the traffic receiver.
use technicolor_haze_prism.Base.{
  ℕ, ◌+◌, ◌≡◌, refl, true, false, none, some, List, [], ◌∷◌, text_key, nat_eq, length, not,
}
use technicolor_haze_prism.Receiver.{
  Sockets, Receiver, init, start, arrive, connection, chunk, datagram, get_stats, new_listener,
  record_traffic, start_listener,
}
use technicolor_haze_prism.Receiver.Starting.{Starting, start-Starting}

-- Every port can be bound but 443.
abbrev once : Sockets (List ℕ)
once = record {
  create = λ tcp taken. (true, taken);
  bind = λ tcp ip port taken. (not (nat_eq port 443), port ∷ taken);
  listen = λ port taken. (true, taken);
}

abbrev two_ports : Receiver
two_ports = init "10.0.2.1" (
    some (
      record { port = 80; protocol = "tcp"; bind_ip = "" }
      ∷ record { port = 443; protocol = "tcp"; bind_ip = "" }
      ∷ []))

start-Starting_example :
    Starting once two_ports (start once 5 (two_ports, [])).0 (start once 5 (two_ports, [])).1.0
unfolding init
start-Starting_example = start-Starting once 5 two_ports [] refl

-- The second port fails: the first listener is up, the receiver does not run.
one_up : length (start once 5 (two_ports, [])).1.0.listeners ≡ 1
unfolding start init start_listener new_listener
one_up = refl

not_running : (start once 5 (two_ports, [])).1.0.running ≡ false
unfolding start init start_listener new_listener
not_running = refl

abbrev all_bind : Sockets ℕ
all_bind = record {
  create = λ tcp w. (true, w);
  bind = λ tcp ip port w. (true, w);
  listen = λ port w. (true, w);
}

abbrev running : Receiver
running = (start all_bind 5 (init "10.0.2.1" none, 0)).1.0

five_up : length running.listeners ≡ 5
unfolding start init start_listener new_listener
five_up = refl

counted :
    get_stats (arrive 4 (datagram 10) 8 (arrive 0 (chunk 64) 7 (arrive 0 connection 6 running)))
    ≡ record { total_packets = 3; total_bytes = 74; total_connections = 2 }
unfolding start init start_listener new_listener arrive record_traffic get_stats
counted = refl

-- A socket that cannot be made is not tried on all interfaces.
abbrev no_socket : Sockets ℕ
no_socket = record {
  create = λ tcp w. (false, w);
  bind = λ tcp ip port w. (true, w + 1);
  listen = λ port w. (true, w);
}

nothing_bound : (start no_socket 5 (two_ports, 0)).1.1 ≡ 0
unfolding start init start_listener new_listener
nothing_bound = refl
