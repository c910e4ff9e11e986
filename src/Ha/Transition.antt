-- ===== src/Ha/Transition.antt =====
-- The state machine of one node: every event follows an edge of the role diagram, and the
-- generation counts the promotions.
use technicolor_haze_prism.Base.{
  ℕ, ◌+◌, ◌-◌, ◌≡◌, refl, String, Bool, true, false, ◌&&◌, not, none, List, [], ◌∷◌, arith, ok,
  if◌then◌else◌, Option-cases, ltb, leb, Bool-cases, inl, inr,
}
use technicolor_haze_prism.Ha.{
  Disk, HaState, active, standby, fencing, same_role, HaManager, role_of_text, no_action,
  resolve_split_brain, demote_now, receive_heartbeat, peer_alive, monitor_round, promote, demote,
  persist_generation, Event, heartbeats, monitors, promotes, demotes, step, run,
}
use technicolor_haze_prism.Ha.Exchange.{noted, receive_heartbeat-role, flushed}

-- The edges: a node stays, rises to ACTIVE with the next generation, falls to STANDBY with a flush,
-- or goes from ACTIVE to FENCING.
pub data Edge (m n : HaManager) : Type 0 where
  stays : n.role ≡ m.role → n.generation ≡ m.generation → n.flushes ≡ m.flushes → Edge m n
  rises :
      same_role m.role active ≡ false
      → n.role ≡ active
      → n.generation ≡ m.generation + 1
      → n.flushes ≡ m.flushes
      → Edge m n
  falls :
      same_role m.role standby ≡ false
      → n.role ≡ standby
      → n.generation ≡ m.generation
      → n.flushes ≡ m.flushes + flushed m
      → Edge m n
  fences :
      m.role ≡ active
      → n.role ≡ fencing
      → n.generation ≡ m.generation
      → n.flushes ≡ m.flushes
      → Edge m n

promote-Edge : (disk : Disk) (m : HaManager) → Edge m (promote disk m).1
unfolding promote persist_generation
promote-Edge disk m = elim (Bool-cases (same_role m.role active)) [
  | inl e ↦ stays (ground (arith, e)) (ground (arith, e)) (ground (arith, e))
  | inr e ↦ rises e (ground (arith, e)) (ground (arith, e)) (ground (arith, e))
]

demote-Edge : (m : HaManager) → Edge m (demote m).1
unfolding demote demote_now
demote-Edge m = elim (Bool-cases (same_role m.role standby)) [
  | inl e ↦ stays (ground (arith, e)) (ground (arith, e)) (ground (arith, e))
  | inr e ↦ falls e (ground (arith, e)) (ground (arith, e)) (ground (arith, e))
]

monitor_round-Edge : (now : ℕ) (disk : Disk) (m : HaManager) → Edge m (monitor_round now disk m)
unfolding monitor_round
monitor_round-Edge now disk m =
    elim (Bool-cases (same_role m.role standby && not (peer_alive now m))) [
      | inr e ↦ rw (e, monitor_round) (stays refl refl refl)
      | inl e ↦ elim (Bool-cases (ltb 0 m.last_heartbeat_received)) [
        | inl f ↦ rw (e, f, monitor_round) (promote-Edge disk m)
        | inr f ↦ rw (e, f, monitor_round) (stays refl refl refl)
      ]
    ]

resolve_split_brain-Edge :
    (generation : ℕ) (m : HaManager) → m.role ≡ active → Edge m (resolve_split_brain generation m).1
unfolding resolve_split_brain demote_now
resolve_split_brain-Edge generation m act = elim (Bool-cases (ltb generation m.generation)) [
  | inl e ↦ stays (ground (arith, e)) (ground (arith, e)) (ground (arith, e))
  | inr e ↦ elim (Bool-cases (ltb m.generation generation)) [
    | inl f ↦
        falls (ground arith) (ground (arith, e, f)) (ground (arith, e, f)) (ground (arith, e, f))
    | inr f ↦ fences act (ground (arith, e, f)) (ground (arith, e, f)) (ground (arith, e, f))
  ]
]

noted-Edge :
    (now generation : ℕ) (role : HaState) (m n : HaManager)
    → Edge (noted now generation role m) n
    → Edge m n
noted-Edge now generation role m n (stays a b c) = stays a b c
noted-Edge now generation role m n (rises a b c d) = rises a b c d
noted-Edge now generation role m n (falls a b c d) = falls a b c d
noted-Edge now generation role m n (fences a b c d) = fences a b c d

receive_heartbeat-Edge :
    (now generation : ℕ) (text : String) (m : HaManager)
    → Edge m (receive_heartbeat now generation text m).1
receive_heartbeat-Edge now generation text m = elim (Option-cases (role_of_text text)) [
  | inl e ↦ unknown e
  | inr (role, e) ↦
      rw (receive_heartbeat-role now generation text role m e)
        (known role (same_role m.role active && same_role role active) refl)
]
  where
    unknown : role_of_text text ≡ none → Edge m (receive_heartbeat now generation text m).1
    unknown e =
        unfold receive_heartbeat in
        stays (ground (arith, e)) (ground (arith, e)) (ground (arith, e))

    known :
        (role : HaState) (b : Bool)
        → (same_role m.role active && same_role role active) ≡ b
        → Edge m
            (if b
              then resolve_split_brain generation (noted now generation role m)
              else (ok no_action, noted now generation role m)).1
    known role true e =
        noted-Edge now generation role m _
          (resolve_split_brain-Edge generation (noted now generation role m) (ground arith))
    known role false e = stays refl refl refl

-- Every event, a heartbeat with an unknown role included, follows an edge of the diagram. So no
-- generation ever falls, a node becomes ACTIVE only with a new generation, it enters FENCING only
-- from ACTIVE, and every fall to STANDBY flushes once where a callback is set.
pub step-Edge : (e : Event) (m : HaManager) → Edge m (step e m)
unfolding step
step-Edge (heartbeats now generation text) m = receive_heartbeat-Edge now generation text m
step-Edge (monitors now disk) m = monitor_round-Edge now disk m
step-Edge (promotes disk) m = promote-Edge disk m
step-Edge demotes m = demote-Edge m

-- How often a history takes the node from another role to ACTIVE.
pub promotions : List Event → HaManager → ℕ
promotions [] m = 0
promotions (e ∷ es) m =
    (if not (same_role m.role active) && same_role (step e m).role active then 1 else 0)
    + promotions es (step e m)

Edge-generation :
    (m n : HaManager)
    → Edge m n
    → n.generation
      ≡ m.generation + (if not (same_role m.role active) && same_role n.role active then 1 else 0)
Edge-generation m n (stays a b c) = ground arith
Edge-generation m n (rises a b c d) = ground arith
Edge-generation m n (falls a b c d) = ground arith
Edge-generation m n (fences a b c d) = ground arith

-- The fencing token counts: over any history the generation grows by the number of promotions.
pub generation-run :
    (es : List Event) (m : HaManager) → (run es m).generation ≡ m.generation + promotions es m
unfolding run promotions
generation-run [] m = omega arith
generation-run (e ∷ es) m =
    omega (arith, generation-run es (step e m), Edge-generation m (step e m) (step-Edge e m))

-- The monitor promotes exactly when the node is STANDBY, has heard from its peer, and that was a
-- timeout ago or longer; otherwise it changes nothing.
pub monitor_round-failover :
    (now : ℕ) (disk : Disk) (m : HaManager)
    → let n = monitor_round now disk m in
      if same_role m.role standby
        && ltb 0 m.last_heartbeat_received
        && leb m.heartbeat_timeout_ms (now - m.last_heartbeat_received)
      then (n.role ≡ active) × (n.generation ≡ m.generation + 1)
      else n ≡ m
unfolding monitor_round promote persist_generation peer_alive
monitor_round-failover now disk m = ground arith
