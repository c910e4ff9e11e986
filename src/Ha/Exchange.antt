-- ===== src/Ha/Exchange.antt =====
-- Heartbeats between two nodes: what a node makes of one, and how a split brain ends.
use technicolor_haze_prism.Base.{
  ℕ, ◌+◌, ◌≤◌, ◌<◌, ◌≡◌, refl, sym, String, true, false, ◌&&◌, none, some, text_key, arith, ok, err,
  value_error, if◌then◌else◌,
}
use technicolor_haze_prism.Ha.{
  HaState, active, standby, fencing, same_role, HaManager, role_of_text, role_text, no_action,
  resolve_split_brain, demote_now, receive_heartbeat, heartbeat, ha_heartbeat, peer_alive,
}

-- The role on the wire is read back.
pub role_of_text-role_text : (r : HaState) → role_of_text (role_text r) ≡ some r
unfolding role_of_text role_text
role_of_text-role_text active = refl
role_of_text-role_text standby = refl
role_of_text-role_text fencing = refl

-- The node after it has taken note of the sender, before any resolution.
abbrev pub noted : ℕ → ℕ → HaState → HaManager → HaManager
noted now generation role m = record m {
  last_heartbeat_received = now;
  peer_generation = generation;
  peer_role = some role;
}

-- The answer and the node after a heartbeat whose role is one of the three.
pub receive_heartbeat-role :
    (now generation : ℕ) (text : String) (role : HaState) (m : HaManager)
    → role_of_text text ≡ some role
    → receive_heartbeat now generation text m ≡ (
        if same_role m.role active && same_role role active
        then resolve_split_brain generation (noted now generation role m)
        else (ok no_action, noted now generation role m))
unfolding receive_heartbeat
receive_heartbeat-role now generation text role m e = ground (arith, e)

-- A heartbeat with an unknown role raises ValueError; it changes neither the role nor the
-- generation, but the sender's time and generation are already taken over, so the peer counts as
-- alive until the timeout.
pub receive_heartbeat-unknown :
    (now later generation : ℕ) (text : String) (m : HaManager)
    → role_of_text text ≡ none
    → 0 < now
    → now ≤ later
    → later < now + m.heartbeat_timeout_ms
    → let (r, n) = receive_heartbeat now generation text m in
      (r ≡ err (value_error text))
      × (n.role ≡ m.role)
      × (n.generation ≡ m.generation)
      × (n.peer_role ≡ m.peer_role)
      × (n.peer_generation ≡ generation)
      × (peer_alive later n ≡ true)
unfolding receive_heartbeat peer_alive
receive_heartbeat-unknown now later generation text m e pos le lt =
    let eq : receive_heartbeat now generation text m ≡ (
      err (value_error text),
      record m { last_heartbeat_received = now; peer_generation = generation },
    ) =
      ground (arith, e) in
    rw eq (refl, refl, refl, refl, refl, ground arith)

-- `b`'s heartbeat, as it is when sent, reaches `a` at `a`'s time `now`.
abbrev pub deliver : ℕ → HaManager → HaManager → HaManager
deliver now b a = (ha_heartbeat now (heartbeat b) a).1

pub deliver-eq :
    (now : ℕ) (b a : HaManager)
    → ha_heartbeat now (heartbeat b) a ≡ (
        if same_role a.role active && same_role b.role active
        then resolve_split_brain b.generation (noted now b.generation b.role a)
        else (ok no_action, noted now b.generation b.role a))
unfolding ha_heartbeat heartbeat
deliver-eq now b a =
    receive_heartbeat-role now b.generation (role_text b.role) b.role a
      (role_of_text-role_text b.role)

-- Both nodes believe that they are ACTIVE, and `a` has the higher generation.
pub record SplitBrain (a b : HaManager) : Type 0 where
  pub a_active : a.role ≡ active
  pub b_active : b.role ≡ active
  pub a_newer : b.generation < a.generation

-- How many flushes a demotion makes.
abbrev pub flushed : HaManager → ℕ
flushed m = if m.has_flush_callback then 1 else 0

-- The winner stays ACTIVE, the loser is STANDBY and has flushed its rules; no generation changes.
pub record Resolved (a b a' b' : HaManager) : Type 0 where
  pub winner : a'.role ≡ active
  pub winner_generation : a'.generation ≡ a.generation
  pub winner_flushes : a'.flushes ≡ a.flushes
  pub loser : b'.role ≡ standby
  pub loser_generation : b'.generation ≡ b.generation
  pub loser_flushes : b'.flushes ≡ b.flushes + flushed b

module _ (a b : HaManager) (now : ℕ) (h : SplitBrain a b) where
  reach_winner : deliver now b a ≡ noted now b.generation active a
  unfolding resolve_split_brain
  reach_winner = ground (arith, deliver-eq now b a, h.a_active, h.b_active, h.a_newer)

  reach_loser : deliver now a b ≡ demote_now (noted now a.generation active b)
  unfolding resolve_split_brain
  reach_loser = ground (arith, deliver-eq now a b, h.a_active, h.b_active, h.a_newer)

-- The heartbeat of a node that is not ACTIVE resolves nothing.
reach_quiet :
    (now : ℕ) (b a : HaManager)
    → same_role b.role active ≡ false
    → deliver now b a ≡ noted now b.generation b.role a
unfolding resolve_split_brain
reach_quiet now b a e = ground (arith, deliver-eq now b a, e)

-- A split brain with unequal generations ends after one heartbeat each way, whichever node is
-- reached first: the node with the higher generation stays ACTIVE and flushes nothing, the other is
-- STANDBY and has called its flush callback once, if it has one.
pub SplitBrain-Resolved :
    (a b : HaManager) (now later : ℕ)
    → SplitBrain a b
    → (let a' = deliver now b a in Resolved a b a' (deliver later a' b))
      × (let b' = deliver now a b in Resolved a b (deliver later b' a) b')
unfolding demote_now
SplitBrain-Resolved a b now later h = (winner_first, loser_first)
  where
    winner_first : Resolved a b (deliver now b a) (deliver later (deliver now b a) b)
    winner_first =
        rw
          (
            reach_winner a b now h,
            reach_loser (noted now b.generation active a) b later
                (record { a_active = h.a_active; b_active = h.b_active; a_newer = h.a_newer }),
          )
          (record {
            winner = h.a_active;
            winner_generation = refl;
            winner_flushes = refl;
            loser = ground arith;
            loser_generation = ground arith;
            loser_flushes = ground arith;
          })

    loser_first : Resolved a b (deliver later (deliver now a b) a) (deliver now a b)
    loser_first =
        rw
          (
            reach_loser a b now h,
            reach_quiet later (demote_now (noted now a.generation active b)) a (ground arith),
          )
          (record {
            winner = h.a_active;
            winner_generation = refl;
            winner_flushes = refl;
            loser = ground arith;
            loser_generation = ground arith;
            loser_flushes = ground arith;
          })

-- An ACTIVE node hears an ACTIVE peer of its own generation.
reach_equal :
    (now : ℕ) (b a : HaManager)
    → a.role ≡ active
    → b.role ≡ active
    → a.generation ≡ b.generation
    → ((deliver now b a).role ≡ fencing) × ((deliver now b a).flushes ≡ a.flushes)
unfolding resolve_split_brain
reach_equal now b a ea eb eg =
    let first : deliver now b a ≡ record (noted now b.generation active a) { role = fencing } =
      ground (arith, deliver-eq now b a) in
    rw first (refl, refl)

-- After that, its own heartbeat leaves the peer ACTIVE.
fenced_silent :
    (now later : ℕ) (b a : HaManager)
    → a.role ≡ active
    → b.role ≡ active
    → a.generation ≡ b.generation
    → let a' = deliver now b a in (a'.role ≡ fencing) × ((deliver later a' b).role ≡ active)
fenced_silent now later b a ea eb eg =
    let fenced = (reach_equal now b a ea eb eg).0 in
    let quiet : same_role (deliver now b a).role active ≡ false = (rw fenced refl) in
    (fenced, rw (reach_quiet later (deliver now b a) b quiet) eb)

-- With equal generations a node that hears an ACTIVE peer enters FENCING and flushes nothing. So two
-- ACTIVE nodes whose heartbeats cross, each sent before the other is processed, both enter FENCING;
-- where the second heartbeat is sent after the first was processed, only the node that was reached
-- first enters FENCING and the other stays ACTIVE, whichever of them is first.
pub equal_generations_fence :
    (a b : HaManager) (now later : ℕ)
    → a.role ≡ active
    → b.role ≡ active
    → a.generation ≡ b.generation
    → (((deliver now b a).role ≡ fencing)
        × ((deliver later a b).role ≡ fencing)
        × ((deliver now b a).flushes ≡ a.flushes)
        × ((deliver later a b).flushes ≡ b.flushes))
      × (let a' = deliver now b a in (a'.role ≡ fencing) × ((deliver later a' b).role ≡ active))
      × (let b' = deliver now a b in (b'.role ≡ fencing) × ((deliver later b' a).role ≡ active))
equal_generations_fence a b now later ea eb eg = (
  (
    (reach_equal now b a ea eb eg).0,
    (reach_equal later a b eb ea (sym eg)).0,
    (reach_equal now b a ea eb eg).1,
    (reach_equal later a b eb ea (sym eg)).1,
  ),
  fenced_silent now later b a ea eb eg,
  fenced_silent now later a b eb ea (sym eg),
)
