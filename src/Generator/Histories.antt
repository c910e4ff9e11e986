-- ===== src/Generator/Histories.antt =====
-- Histories of the traffic generator: what its calls change, in terms that proofs by history use.
use technicolor_haze_prism.Base.{
  ℕ, ◌≡◌, refl, sym, subst, true, false, List, [], ◌∷◌, All, Bool-cases, Option-cases, inl, inr,
  String,
}
use technicolor_haze_prism.Generator.{
  Generator, Profile, Event, starts, stops, sets_profile, sets_rate, takes_turn, Turn, stop,
  set_profile, set_rate, turn_of, find_profile, step, run,
}

pub set_profile-changes :
    (value : String) (g : Generator)
    → (p : Profile) × (set_profile value g ≡ record g { profile = p })
unfolding set_profile
set_profile-changes value g = elim (Option-cases (find_profile value)) [
  | inl nothing ↦ (g.profile, rw (set_profile, nothing) refl)
  | inr found ↦ (found.0, rw (set_profile, found.1) refl)
]

pub stop-running :
    (g : Generator)
    → g.running ≡ true
    → stop g ≡ record g { stop_event = true; running = false; workers = [] }
unfolding stop
stop-running g h = rw (stop, h) refl

pub stop-idle : (g : Generator) → g.running ≡ false → stop g ≡ g
unfolding stop
stop-idle g h = rw (stop, h) refl

-- No event of the history is a start.
abbrev pub IsNoStart : Event → Type 0
IsNoStart (starts now) = ⊥
IsNoStart stops = Unit
IsNoStart (sets_profile value) = Unit
IsNoStart (sets_rate value) = Unit
IsNoStart (takes_turn i turn) = Unit

-- A property that turns keep, and that does not depend on the settings, holds after a history
-- without a start.
module _ (P : Generator → Type 0)
    (turns : (i : ℕ) (turn : Turn) (g : Generator) → P g → P (turn_of i turn g))
    (profiles : (p : Profile) (g : Generator) → P g → P (record g { profile = p }))
    (rates : (n : ℕ) (g : Generator) → P g → P (record g { rate_cps = n }))
    (stopped : (g : Generator)
      → P g
      → g.running ≡ true
      → P (record g { stop_event = true; running = false; workers = [] })) where
  step-keeps : (e : Event) (g : Generator) → IsNoStart e → P g → P (step e g)
  unfolding step set_rate
  step-keeps (starts now) g n h = elim n [ ]
  step-keeps stops g n h = elim (Bool-cases g.running) [
    | inl running ↦ subst P (sym (stop-running g running)) (stopped g h running)
    | inr idle ↦ subst P (sym (stop-idle g idle)) h
  ]
  step-keeps (sets_profile value) g n h =
      let changed = set_profile-changes value g in subst P (sym changed.1) (profiles changed.0 g h)
  step-keeps (sets_rate value) g n h = rates _ g h
  step-keeps (takes_turn i turn) g n h = turns i turn g h

  pub run-keeps :
      (events : List Event) (g : Generator) → All IsNoStart events → P g → P (run events g)
  unfolding run
  run-keeps [] g n h = h
  run-keeps (e ∷ events) g n h = run-keeps events (step e g) n.1 (step-keeps e g n.0 h)
