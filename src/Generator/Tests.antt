-- ===== src/Generator/Tests.antt =====
-- Witnesses and runs of the traffic generator.
use technicolor_haze_prism.Base.{
  ◌≡◌, refl, true, false, some, List, [], ◌∷◌, get_elem?, arith, pos, negsuc, lookup, insert,
}
use technicolor_haze_prism.Generator.{
  profile_ports, Turn, Event, starts, stops, sets_profile, sets_rate, takes_turn, init, run,
  finished, connecting, Worker, next, count, per_port, set_rate, mixed, http, total_attempt,
  equals_lower,
}
use technicolor_haze_prism.Generator.Counters.{Accounted, after_start, run-Accounted}
use technicolor_haze_prism.Generator.Drain.{run-finished}
use technicolor_haze_prism.Generator.Restart.{Survives, restart-survivor, four_turns}
use technicolor_haze_prism.Generator.Bounds.{Sound, run-init-Sound}

abbrev lucky : Turn
lucky = record { connected = true; rested = true }

abbrev blocked : Turn
blocked = record { connected = false; rested = true }

-- Two workers, whose records interleave.
abbrev interleaved : List Event
interleaved =
    takes_turn 0 lucky
    ∷ takes_turn 1 lucky
    ∷ takes_turn 0 lucky
    ∷ takes_turn 1 lucky
    ∷ takes_turn 0 lucky
    ∷ takes_turn 1 blocked
    ∷ takes_turn 1 lucky
    ∷ stops
    ∷ []

abbrev settings : List Event
settings = sets_profile "Mixed" ∷ sets_rate (pos 500) ∷ stops ∷ takes_turn 0 lucky ∷ []

run-Accounted_example : Accounted (after_start settings 7 interleaved)
run-Accounted_example =
    run-Accounted settings interleaved 7 (tt, (tt, (tt, (tt, tt))))
      (tt, (tt, (tt, (tt, (tt, (tt, (tt, (tt, tt))))))))

run-init-Sound_example : Sound (run (starts 1 ∷ sets_rate (negsuc 4) ∷ interleaved) init)
run-init-Sound_example = run-init-Sound (starts 1 ∷ sets_rate (negsuc 4) ∷ interleaved)

abbrev half_way : List Event
half_way = starts 1 ∷ takes_turn 0 lucky ∷ takes_turn 0 lucky ∷ []

run-finished_example :
    (v : Worker) × (get_elem?
        (run
          (takes_turn 0 lucky
            ∷ takes_turn 1 lucky
            ∷ takes_turn 0 blocked
            ∷ takes_turn 0 lucky
            ∷ takes_turn 0 lucky
            ∷ [])
          (run (starts 1 ∷ takes_turn 0 lucky ∷ takes_turn 0 lucky ∷ stops ∷ []) init)).threads
        0
      ≡ some v)
    × (v.location ≡ finished)
unfolding run init next count lookup insert
run-finished_example =
    run-finished (run (starts 1 ∷ takes_turn 0 lucky ∷ takes_turn 0 lucky ∷ stops ∷ []) init) 0
      (record { target = 80; location = connecting 0 })
      (takes_turn 0 lucky
        ∷ takes_turn 1 lucky
        ∷ takes_turn 0 blocked
        ∷ takes_turn 0 lucky
        ∷ takes_turn 0 lucky
        ∷ [])
      refl refl (tt, (tt, (tt, (tt, (tt, tt))))) (omega arith)

restart-survivor_example :
    Survives 0
      (record { target = 80; location = connecting 0 })
      (80 ∷ 443 ∷ 22 ∷ 5432 ∷ [])
      (run half_way init).threads
      (run (stops ∷ starts 9 ∷ four_turns 0 blocked) (run half_way init))
unfolding run init next count lookup insert profile_ports
restart-survivor_example = restart-survivor (run half_way init) 0 80 0 9 blocked refl refl refl

-- After the restart of the survivor its port counts nothing, and the aggregate counts its attempt.
counted_aside :
    (run (stops ∷ starts 9 ∷ four_turns 0 blocked) (run half_way init)).stats.total_attempted ≡ 1
unfolding run init next count lookup insert total_attempt
counted_aside = refl

not_listed :
    per_port (run (stops ∷ starts 9 ∷ four_turns 0 blocked) (run half_way init))
    ≡ record { port = 80; attempted = 0; succeeded = 0; failed = 0; bytes_sent = 0 }
      ∷ record { port = 443; attempted = 0; succeeded = 0; failed = 0; bytes_sent = 0 }
      ∷ record { port = 22; attempted = 0; succeeded = 0; failed = 0; bytes_sent = 0 }
      ∷ record { port = 5432; attempted = 0; succeeded = 0; failed = 0; bytes_sent = 0 }
      ∷ []
unfolding run init next count lookup insert per_port
not_listed = refl

rate_capped : (run (sets_rate (pos 500) ∷ []) init).rate_cps ≡ 100
unfolding run init set_rate
rate_capped = refl

profile_named : (run (sets_profile "HTTP" ∷ []) init).profile ≡ http
unfolding run init equals_lower
profile_named = refl

profile_unknown : (run (sets_profile "ftp" ∷ []) init).profile ≡ mixed
unfolding run init equals_lower
profile_unknown = refl
