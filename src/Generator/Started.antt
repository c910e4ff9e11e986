-- ===== src/Generator/Started.antt =====
-- The traffic generator before its first start, and the objects that a start makes.
use technicolor_haze_prism.Base.{
  ℕ, ◌≡◌, refl, ap, ◌∙◌, List, [], ◌∷◌, All, arith, Dict, values, nat_key, length,
}
use technicolor_haze_prism.Generator.{
  Generator, Profile, http, https, mixed, all_ports, Event, run, init, Turn, turn_of, PortStats,
  per_port, rows,
}
use technicolor_haze_prism.Generator.Turns.{turn_of-keeps, count-objects, count-port_stats}
use technicolor_haze_prism.Generator.Histories.{IsNoStart, run-keeps}

-- A generator that was never started: as it was made, but for its settings.
pub record Settings : Type 0 where
  pub profile : Profile
  pub rate_cps : ℕ

unfoldable pub idle : Settings → Generator
unfolding init
idle s = record init { profile = s.profile; rate_cps = s.rate_cps }

abbrev pub NeverStarted : Generator → Type 0
NeverStarted g = (s : Settings) × (g ≡ idle s)

turn_of-NeverStarted :
    (i : ℕ) (turn : Turn) (g : Generator) → NeverStarted g → NeverStarted (turn_of i turn g)
unfolding idle turn_of init
turn_of-NeverStarted i turn g h = (h.0, ap (turn_of i turn) h.1)

pub run-NeverStarted : (events : List Event) → All IsNoStart events → NeverStarted (run events init)
unfolding idle init
run-NeverStarted events n =
    run-keeps NeverStarted turn_of-NeverStarted
      (λ p g h. (record h.0 { profile = p }, ap (λ (s : Generator). record s { profile = p }) h.1))
      (λ r g h.
        (record h.0 { rate_cps = r }, ap (λ (s : Generator). record s { rate_cps = r }) h.1))
      (λ g h running. ground (arith, running, ap (λ (s : Generator). s.running) h.1)) events init n
      (record { profile = mixed; rate_cps = 10 }, refl)

-- The ports of a profile, each with the number of its object.
unfoldable pub layout : Profile → Dict ℕ ℕ
layout http = (80, 0) ∷ []
layout https = (443, 0) ∷ []
layout mixed = (80, 0) ∷ (443, 1) ∷ (22, 2) ∷ (5432, 3) ∷ []
layout all_ports = (80, 0) ∷ (443, 1) ∷ (22, 2) ∷ (5432, 3) ∷ []

pub record Laid (g : Generator) : Type 0 where
  pub profile : Profile
  pub ports : g.port_stats ≡ layout profile
  pub made : length g.objects ≡ length (layout profile)

pub turn_of-Laid : (i : ℕ) (turn : Turn) (g : Generator) → Laid g → Laid (turn_of i turn g)
turn_of-Laid i turn g h = turn_of-keeps Laid i turn g h (λ w e. record {
  profile = h.profile;
  ports = count-port_stats turn g w.target w.location ∙ h.ports;
  made = count-objects turn g w.target w.location ∙ h.made;
})

one_row : (objects : List PortStats) → length objects ≡ 1 → rows objects (0 ∷ []) ≡ objects
unfolding rows
one_row [] h = ground (arith, h)
one_row (a ∷ []) h = refl
one_row (a ∷ b ∷ rest) h = ground (arith, h)

four_rows :
    (objects : List PortStats) → length objects ≡ 4 → rows objects (0 ∷ 1 ∷ 2 ∷ 3 ∷ []) ≡ objects
unfolding rows
four_rows [] h = ground (arith, h)
four_rows (a ∷ []) h = ground (arith, h)
four_rows (a ∷ b ∷ []) h = ground (arith, h)
four_rows (a ∷ b ∷ c ∷ []) h = ground (arith, h)
four_rows (a ∷ b ∷ c ∷ d ∷ []) h = refl
four_rows (a ∷ b ∷ c ∷ d ∷ e ∷ rest) h = ground (arith, h)

rows-layout :
    (p : Profile) (objects : List PortStats)
    → length objects ≡ length (layout p)
    → rows objects (values (layout p)) ≡ objects
unfolding layout
rows-layout http objects h = one_row objects h
rows-layout https objects h = one_row objects h
rows-layout mixed objects h = four_rows objects h
rows-layout all_ports objects h = four_rows objects h

-- `get_stats` lists every object.
pub per_port-Laid : (g : Generator) → Laid g → per_port g ≡ g.objects
unfolding per_port
per_port-Laid g h =
    ap (λ d. rows g.objects (values d)) h.ports ∙ rows-layout h.profile g.objects h.made
