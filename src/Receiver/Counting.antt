-- ===== src/Receiver/Counting.antt =====
-- What an arrival adds to the totals of the traffic receiver.
use technicolor_haze_prism.Base.{ℕ, ◌+◌, ◌≡◌, refl, some, get_elem?, sum-set, arith}
use technicolor_haze_prism.Receiver.{
  Receiver, Listener, PortStats, Arrival, connection, chunk, datagram, count_arrival,
  record_traffic, arrive, get_stats, Totals,
}

abbrev pub bytes_of : Arrival → ℕ
bytes_of connection = 0
bytes_of (chunk nbytes) = nbytes
bytes_of (datagram nbytes) = nbytes

abbrev pub connections_of : Arrival → ℕ
connections_of connection = 1
connections_of (chunk nbytes) = 0
connections_of (datagram nbytes) = 1

-- The totals after an arrival.
pub record Counts (a : Arrival) (before after : Totals) : Type 0 where
  pub packets : after.total_packets ≡ before.total_packets + 1
  pub bytes : after.total_bytes ≡ before.total_bytes + bytes_of a
  pub connections : after.total_connections ≡ before.total_connections + connections_of a

record CountsPort (a : Arrival) (before after : PortStats) : Type 0 where
  packets : after.packets ≡ before.packets + 1
  bytes : after.bytes_received ≡ before.bytes_received + bytes_of a
  connections : after.connections ≡ before.connections + connections_of a

count_arrival-CountsPort :
    (a : Arrival) (now : ℕ) (s : PortStats) → CountsPort a s (count_arrival a now s)
unfolding count_arrival record_traffic
count_arrival-CountsPort connection now s = record {
  packets = refl;
  bytes = refl;
  connections = refl;
}
count_arrival-CountsPort (chunk n) now s = record {
  packets = refl;
  bytes = refl;
  connections = omega arith;
}
count_arrival-CountsPort (datagram n) now s = record {
  packets = refl;
  bytes = refl;
  connections = refl;
}

-- An arrival at one of the listeners adds one packet, its bytes, and one connection unless it is a
-- chunk of data on a connection, to the totals of `get_stats`.
pub arrive-Counts :
    (i : ℕ) (a : Arrival) (now : ℕ) (r : Receiver) (l : Listener)
    → get_elem? r.listeners i ≡ some l
    → Counts a (get_stats r) (get_stats (arrive i a now r))
unfolding arrive get_stats
arrive-Counts i a now r l at =
    let counted = record l { stats = count_arrival a now l.stats } in
    let port = count_arrival-CountsPort a now l.stats in
    rw (arrive, at)
      (record {
        packets =
            omega (arith, sum-set (λ k. k.stats.packets) r.listeners i counted l at, port.packets);
        bytes =
            omega
              (arith, sum-set (λ k. k.stats.bytes_received) r.listeners i counted l at, port.bytes);
        connections = omega (
          arith,
          sum-set (λ k. k.stats.connections) r.listeners i counted l at,
          port.connections,
        );
      })
