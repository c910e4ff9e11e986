-- ===== src/Snat/History.antt =====
-- Histories of calls on a manager: the invariant holds after each of them.
use technicolor_haze_prism.Base.{
  ℕ, ◌≤◌, ◌≡◌, subst, inl, inr, String, Bool, true, false, List, [], ◌∷◌, nat_key, text_key, member,
  arith, Bool-cases, Result, leb, sym,
}
use technicolor_haze_prism.Snat.{
  port_min, port_max, SnatState, init, Call, allocates, releases, expires, step, run, release_port,
}
use technicolor_haze_prism.Base.{leb→le, not-leb→lt}
use technicolor_haze_prism.Snat.Invariant.{Inv, Inv-cases, init-Inv}
use technicolor_haze_prism.Snat.Allocate.{
  used, is_allocated, Allocates, allocate_port-Allocates, allocate_port-exhausted,
}
use technicolor_haze_prism.Snat.Release.{ReleaseAnswer, release_port-answer}
use technicolor_haze_prism.Snat.Expiry.{release_expired-sweeps}

ReleaseAnswer-Inv :
    (s t : SnatState) (ip : String) (port : ℕ) (b : Bool) (r : Result Bool)
    → Inv s
    → ReleaseAnswer s ip port b (r, t)
    → Inv t
ReleaseAnswer-Inv s t ip port true r inv a = a.1.sound
ReleaseAnswer-Inv s t ip port false r inv a = rw a.1 inv

step-Inv : (c : Call) (s : SnatState) → Inv s → Inv (step c s)
unfolding step
step-Inv (allocates ip c now) s inv = elim (Bool-cases (leb s.pool_size (used ip s))) [
  | inl full ↦ (allocate_port-exhausted s ip c now inv (leb→le _ _ full)).1
  | inr room ↦
      let a : Allocates s ip c now = allocate_port-Allocates s ip c now inv (not-leb→lt _ _ room) in
      subst (λ r. Inv r.1) (sym a.call) a.sound
]
step-Inv (releases ip port) s inv =
    let (r, t) = release_port ip port s in
    ReleaseAnswer-Inv s t ip port (is_allocated ip port s) r inv (release_port-answer s ip port inv)
step-Inv (expires now) s inv =
    let (t, run, _, _, sound) = release_expired-sweeps now s inv in
    subst (λ r. Inv r.1) (sym run) sound

run-Inv : (cs : List Call) (s : SnatState) → Inv s → Inv (run cs s)
unfolding run
run-Inv [] s inv = inv
run-Inv (c ∷ cs) s inv = run-Inv cs (step c s) (step-Inv c s inv)

-- After any history of grants, releases and sweeps on a new manager of any requested size, the three
-- dicts are consistent, and every port in use lies between 1024 and 65535.
pub run-init-Inv :
    (pool_size : ℕ) (cs : List Call)
    → let s = run cs (init pool_size) in
      Inv s
      × ((ip : String) (port : ℕ)
          → is_allocated ip port s ≡ true
          → (port_min ≤ port) × (port ≤ port_max))
unfolding member
run-init-Inv pool_size cs = (inv, in_range)
  where
    inv : Inv (run cs (init pool_size))
    inv = run-Inv cs (init pool_size) (init-Inv pool_size)

    in_range :
        (ip : String) (port : ℕ)
        → is_allocated ip port (run cs (init pool_size)) ≡ true
        → (port_min ≤ port) × (port ≤ port_max)
    in_range ip port e = elim (Inv-cases (run cs (init pool_size)) ip inv) [
      | inl u ↦ absurd (ground arith)
      | inr (set, pool, n, h) ↦
          let ip_set : member port set ≡ true = ground (arith, h.set_at) in
          let (lo, hi) = h.sound.in_pool port ip_set in (lo, omega (arith, inv.bounded))
    ]
