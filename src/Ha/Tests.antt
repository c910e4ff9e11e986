-- ===== src/Ha/Tests.antt =====
-- Tests of the role machine, and the theorems at concrete nodes.
use technicolor_haze_prism.Base.{◌≡◌, refl, true, false, none, some, List, [], ◌∷◌, arith, text_key}
use technicolor_haze_prism.Ha.{
  written, emptied, active, fencing, HaManager, init, promote, demote, demoted, receive_heartbeat,
  role_of_text, is_active, get_status, start, stop, heartbeat, Event, heartbeats, monitors,
  promotes, step, run, monitor_round, ha_heartbeat,
}
use technicolor_haze_prism.Ha.Exchange.{
  Resolved, deliver, SplitBrain-Resolved, equal_generations_fence,
}
use technicolor_haze_prism.Ha.Transition.{Edge, step-Edge}
use technicolor_haze_prism.Ha.Failover.{took_over, failover_outcome}

-- A node of a fresh pair: both start STANDBY at generation 1.
abbrev fresh : HaManager
fresh = init (some "http://10.0.0.2:8443") 100 300 none

-- The one that the operator has promoted.
abbrev primary : HaManager
primary = (promote written fresh).1

-- A node whose generation file held 7.
abbrev seasoned : HaManager
seasoned = (promote written (init (some "http://10.0.0.1:8443") 100 300 (some 7))).1

single_instance :
    (is_active (init none 100 300 none) ≡ true) × ((start (init none 100 300 none)).running ≡ false)
unfolding init is_active start
single_instance = (refl, refl)

with_peer : ((start fresh).running ≡ true) × ((stop (start fresh)).running ≡ false)
unfolding init start stop
with_peer = (refl, refl)

status_after_250 : (get_status 1250 (deliver 1000 primary fresh)).missed ≡ 2
unfolding init promote get_status receive_heartbeat heartbeat ha_heartbeat
status_after_250 = refl

demotes_primary : (demote primary).0 ≡ demoted active 2
unfolding init promote demote
demotes_primary = refl

SplitBrain-Resolved_example :
    (let a' = deliver 1000 primary seasoned in
      Resolved seasoned primary a' (deliver 1050 a' primary))
    × (let b' = deliver 1000 seasoned primary in
        Resolved seasoned primary (deliver 1050 b' seasoned) b')
unfolding init promote
SplitBrain-Resolved_example =
    SplitBrain-Resolved seasoned primary 1000 1050
      (record { a_active = refl; b_active = refl; a_newer = omega arith })

abbrev seasoned_standby : HaManager
seasoned_standby = init (some "http://10.0.0.1:8443") 100 300 (some 7)

-- A second node whose generation file held 7.
abbrev primary_8 : HaManager
primary_8 = (promote written (init (some "http://10.0.0.2:8443") 100 300 (some 7))).1

equal_generations_fence_example :
    (((deliver 1000 seasoned primary_8).role ≡ fencing)
      × ((deliver 1050 primary_8 seasoned).role ≡ fencing)
      × ((deliver 1000 seasoned primary_8).flushes ≡ 0)
      × ((deliver 1050 primary_8 seasoned).flushes ≡ 0))
    × (let a' = deliver 1000 seasoned primary_8 in
        (a'.role ≡ fencing) × ((deliver 1050 a' seasoned).role ≡ active))
    × (let b' = deliver 1000 primary_8 seasoned in
        (b'.role ≡ fencing) × ((deliver 1050 b' primary_8).role ≡ active))
unfolding init promote
equal_generations_fence_example =
    equal_generations_fence primary_8 seasoned 1000 1050 refl refl refl

step-Edge_example : Edge primary (step (heartbeats 1000 9 "ACTIVE") primary)
step-Edge_example = step-Edge (heartbeats 1000 9 "ACTIVE") primary

abbrev day : List Event
day =
    heartbeats 1000 2 "ACTIVE"
    ∷ monitors 1200 written
    ∷ monitors 1300 written
    ∷ heartbeats 1400 9 "ACTIVE"
    ∷ promotes written
    ∷ []

day_ends : (run day fresh).generation ≡ 3
unfolding init run step receive_heartbeat role_of_text monitor_round promote
day_ends = refl

-- The ordinary failover of a fresh pair: both generations are 2, and the new ACTIVE node is fenced
-- as soon as the old one is heard again.
failover_outcome_example :
    let n = took_over 1000 1300 written primary fresh in
    (n.role ≡ active) × (n.generation ≡ 2) × ((deliver 1400 primary n).role ≡ fencing)
unfolding init promote
failover_outcome_example = failover_outcome primary fresh 1000 1300 1400 written (record {
  a_active = refl;
  b_standby = refl;
  heard_once = omega arith;
  timed_out = omega arith;
})

-- A write that fails after the file was opened loses the number: the next start is at 1 again.
lost : (init none 100 300 (promote emptied seasoned_standby).1.gen_file).generation ≡ 1
unfolding init promote
lost = refl

kept : (init none 100 300 (promote written seasoned_standby).1.gen_file).generation ≡ 8
unfolding init promote
kept = refl
