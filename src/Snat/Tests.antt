-- ===== src/Snat/Tests.antt =====
-- Tests of the port pools, and the theorems at concrete inputs.
use technicolor_haze_prism.Base.{
  ℕ, ◌*◌, ◌/◌, ◌≤◌, ◌≡◌, refl, ◌↔◌, String, true, false, none, some, List, [], ◌∷◌, lookup, insert,
  erase, contains, keys, nat_key, text_key, member, add, discard, arith, ok, err, zero_division,
  if◌then◌else◌,
}
use technicolor_haze_prism.Snat.{
  port_min, port_max, SnatState, init, Connection, first_free, search, allocate_port, release_port,
  release_expired, expired_ports, release_all, release_expired_ip, is_exhausted, Call, allocates,
  releases, step, run, get_utilization,
}
use technicolor_haze_prism.Snat.Invariant.{Inv, init-Inv}
use technicolor_haze_prism.Snat.Allocate.{
  is_allocated, details, used, hint, Allocates, allocate_port-Allocates,
}
use technicolor_haze_prism.Snat.Release.{ReleaseAnswer, release_port-answer, release-allocate}
use technicolor_haze_prism.Snat.Expiry.{lapsed, expired_count, release_expired-sweeps}
use technicolor_haze_prism.Snat.Stats.{is_exhausted-allocate_port}
use technicolor_haze_prism.Snat.History.{run-init-Inv}

abbrev web : Connection
web = record {
  src_ip = "10.0.0.5";
  dst_ip = "8.8.8.8";
  dst_port = 443;
  protocol = "tcp";
  timeout = 300;
}

abbrev public_ip : String
public_ip = "203.0.113.1"

-- Two grants, a release of the first, a third grant: the hint goes on to 1026.
abbrev three_calls : List Call
three_calls =
    allocates public_ip web 0
    ∷ allocates public_ip web 10
    ∷ releases public_ip 1024
    ∷ allocates public_ip web 20
    ∷ []

third_grant : is_allocated public_ip 1026 (run three_calls (init 3)) ≡ true
unfolding run step init allocate_port release_port search first_free lookup insert contains member
    add discard erase
third_grant = refl

-- Then the circle begins again at the released port.
fourth_grant : (allocate_port public_ip web 30 (run three_calls (init 3))).0 ≡ ok (some 1024)
unfolding run step init allocate_port release_port search first_free lookup insert contains member
    add discard erase
fourth_grant = refl

sweep_at_305 : (release_expired 305 (run three_calls (init 3))).0 ≡ ok 0
unfolding run step init allocate_port release_port release_expired release_expired_ip expired_ports
    release_all search first_free lookup insert contains member add discard erase
sweep_at_305 = refl

sweep_at_310 : (release_expired 310 (run three_calls (init 3))).0 ≡ ok 1
unfolding run step init allocate_port release_port release_expired release_expired_ip expired_ports
    release_all search first_free lookup insert contains member add discard erase
sweep_at_310 = refl

busy-Inv : Inv (run three_calls (init 3))
busy-Inv = (run-init-Inv 3 three_calls).0

allocate_port-Allocates_example : Allocates (init 3) public_ip web 0
unfolding init lookup
allocate_port-Allocates_example =
    allocate_port-Allocates (init 3) public_ip web 0 (init-Inv 3) (omega arith)

-- A pool of two with both ports taken.
abbrev full : SnatState
full = run (allocates public_ip web 0 ∷ allocates public_ip web 1 ∷ []) (init 2)

full-Inv : Inv full
full-Inv = (run-init-Inv 2 (allocates public_ip web 0 ∷ allocates public_ip web 1 ∷ [])).0

release_port-answer_example :
    ReleaseAnswer full public_ip 1025
      (is_allocated public_ip 1025 full)
      (release_port public_ip 1025 full)
release_port-answer_example = release_port-answer full public_ip 1025 full-Inv

release-allocate_example :
    (release_port public_ip 1024 (allocate_port public_ip web 0 (init 3)).1).0 ≡ ok true
unfolding init allocate_port search first_free lookup insert contains member add
release-allocate_example =
    (release-allocate (init 3) public_ip web 0 1024 (allocate_port public_ip web 0 (init 3)).1
      (init-Inv 3) refl).0

release_expired-sweeps_example :
    (t : SnatState) × (release_expired 300 full
      ≡ (ok (expired_count 300 (keys full.allocations) full), t))
    × ((j : String) (q : ℕ)
        → (is_allocated j q t
            ≡ (if lapsed 300 (details j q full) then false else is_allocated j q full))
          × (details j q t ≡ (if lapsed 300 (details j q full) then none else details j q full)))
    × ((j : String) → hint j t ≡ hint j full)
    × Inv t
release_expired-sweeps_example = release_expired-sweeps 300 full full-Inv

is_exhausted-allocate_port_example :
    (is_exhausted public_ip full ≡ true) ↔ ((allocate_port public_ip web 5 full).0 ≡ ok none)
unfolding run step init allocate_port search first_free lookup insert contains member add
is_exhausted-allocate_port_example =
    is_exhausted-allocate_port full public_ip web 5 full-Inv (omega arith)

abbrev truncated_percent : ℕ → ℕ → ℕ
truncated_percent used size = used * 10000 / size

run-init-Inv_example :
    let s = run three_calls (init 100000) in
    Inv s
    × ((ip : String) (port : ℕ)
        → is_allocated ip port s ≡ true
        → (port_min ≤ port) × (port ≤ port_max))
run-init-Inv_example = run-init-Inv 100000 three_calls

-- A pool of size 0 refuses every grant, but is not reported as exhausted before the first call, and
-- its utilization divides by zero after it.
empty_pool :
    (is_exhausted public_ip (init 0) ≡ false)
    × ((allocate_port public_ip web 0 (init 0)).0 ≡ ok none)
    × (get_utilization public_ip (allocate_port public_ip web 0 (init 0)).1 ≡ err zero_division)
unfolding init allocate_port is_exhausted get_utilization lookup insert contains
empty_pool = (refl, refl, refl)
