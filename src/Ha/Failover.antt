-- ===== src/Ha/Failover.antt =====
-- A failover between two nodes, and what happens when the old ACTIVE node comes back.
use technicolor_haze_prism.Base.{ℕ, ◌+◌, ◌≤◌, ◌<◌, ◌≡◌, arith, if◌then◌else◌, leb}
use technicolor_haze_prism.Ha.{
  Disk, active, standby, fencing, HaManager, monitor_round, promote, persist_generation, peer_alive,
  resolve_split_brain, demote_now,
}
use technicolor_haze_prism.Ha.Exchange.{noted, deliver, deliver-eq}

-- `b` stands by for the ACTIVE node `a`; it hears `a` at `heard` and then nothing until `now`, a
-- timeout later or more.
pub record Outage (a b : HaManager) (heard now : ℕ) : Type 0 where
  pub a_active : a.role ≡ active
  pub b_standby : b.role ≡ standby
  pub heard_once : 0 < heard
  pub timed_out : heard + b.heartbeat_timeout_ms ≤ now

-- `b` after the monitor's round at `now`.
abbrev pub took_over : ℕ → ℕ → Disk → HaManager → HaManager → HaManager
took_over heard now disk a b = monitor_round now disk (deliver heard a b)

took_over-active :
    (a b : HaManager) (heard now : ℕ) (disk : Disk)
    → Outage a b heard now
    → let n = took_over heard now disk a b in (n.role ≡ active) × (n.generation ≡ b.generation + 1)
unfolding monitor_round promote persist_generation peer_alive
took_over-active a b heard now disk h =
    let first : deliver heard a b ≡ noted heard a.generation active b =
      ground (arith, deliver-eq heard a b, h.b_standby, h.a_active) in
    rw first (ground (arith, h.b_standby, h.heard_once, h.timed_out))

-- The standby takes over with its own generation plus one, whatever the generation of the peer was.
-- When the old ACTIVE node is heard again, the new one stays ACTIVE only if its generation was not
-- behind before the failover: one behind, it enters FENCING, and further behind it is demoted.
pub failover_outcome :
    (a b : HaManager) (heard now later : ℕ) (disk : Disk)
    → Outage a b heard now
    → let n = took_over heard now disk a b in
      (n.role ≡ active)
      × (n.generation ≡ b.generation + 1)
      × ((deliver later a n).role ≡ (
          if leb a.generation b.generation
          then active
          else if leb a.generation (b.generation + 1)
          then fencing
          else standby))
failover_outcome a b heard now later disk h =
    let (act, gen) = took_over-active a b heard now disk h in (act, gen, back act gen)
  where
    back :
        (took_over heard now disk a b).role ≡ active
        → (took_over heard now disk a b).generation ≡ b.generation + 1
        → (deliver later a (took_over heard now disk a b)).role ≡ (
            if leb a.generation b.generation
            then active
            else if leb a.generation (b.generation + 1)
            then fencing
            else standby)
    back act gen =
        unfold resolve_split_brain demote_now in
        ground (arith, deliver-eq later a (took_over heard now disk a b), h.a_active, act, gen)
