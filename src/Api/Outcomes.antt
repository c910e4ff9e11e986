-- ===== src/Api/Outcomes.antt =====
-- How the NAT routes may end.
use technicolor_haze_prism.Base.{
  allowed, at_least, below-allowed, ◌≡◌, refl, ap, sym, subst, ◌⊎◌, ◌<◌, inl, inr, String, false,
  some, text_key, Action, Result, ok, err, Exn, http_error, attribute_error, tc_error, os_error,
  key_error, zero_division, value_error, Bool-cases, Option-cases, ◌>>=◌,
}
use technicolor_haze_prism.Tc.{Kernel}
use technicolor_haze_prism.Tenants.{TenantConfig, get_tenant}
use technicolor_haze_prism.Nat.{NatEntry}
use technicolor_haze_prism.Nat.Add.{Request, add_nat, add_nat_atomic}
use technicolor_haze_prism.Rules.{Daemon, Call, get_tenant_id}
use technicolor_haze_prism.Rules.Outcomes.{IsCaller, tenant_answer}
use technicolor_haze_prism.Rules.Routes.{except_tc}
use technicolor_haze_prism.Api.{
  Api, nat_part, with_nat, count_tenant_nat_entries, draw_of, owned_by, track,
}
use technicolor_haze_prism.Api.Routes.{on_daemon, add_nat_for, add_nat_rule}

-- The header's tenant, or a refusal that changes nothing.
pub api_caller :
    {W A : Type 0} (c : Call) (a : Api W) (k : String → Action (Api W) A)
    (P : Result A → Api W → Type 0)
    → ((x : Exn) → P (err x) a)
    → ((tenant_id : String) → IsCaller c tenant_id a.daemon → P (k tenant_id a).0 (k tenant_id a).1)
    → let (r, b) = (on_daemon (get_tenant_id c.header) >>= k) a in P r b
api_caller {W = W} {A = A} c a k P denied granted = by_answer (tenant_answer c a.daemon)
  where
    bound : Result String × Daemon W → Result A × Api W
    bound p = (on_daemon (λ u. p) >>= k) a

    by_answer :
        ((x : Exn) × (get_tenant_id c.header a.daemon ≡ (err x, a.daemon)))
          ⊎ ((tenant_id : String) × (get_tenant_id c.header a.daemon ≡ (ok tenant_id, a.daemon))
              × IsCaller c tenant_id a.daemon)
        → let (r, b) = (on_daemon (get_tenant_id c.header) >>= k) a in P r b
    by_answer (inl (x, e)) = subst (λ p. P p.0 p.1) (sym (ap bound e)) (denied x)
    by_answer (inr (tenant_id, e, who)) =
        subst (λ p. P p.0 p.1) (sym (ap bound e)) (granted tenant_id who)

-- Only the world may differ.
pub record SameApi {W : Type 0} (a b : Api W) : Type 0 where
  pub same_daemon : b.daemon ≡ record a.daemon { world = b.daemon.world }
  pub same_nat : b.nat_db ≡ a.nat_db
  pub same_signatures : b.signature_index ≡ a.signature_index
  pub same_snat : b.snat_state ≡ a.snat_state
  pub same_entries : b.nat_entries_db ≡ a.nat_entries_db

abbrev pub unchanged : {W : Type 0} (a : Api W) → SameApi a a
unchanged a = record {
  same_daemon = refl;
  same_nat = refl;
  same_signatures = refl;
  same_snat = refl;
  same_entries = refl;
}

pub data NatAdding {W : Type 0} (tc : Kernel W) (digest : String → String) (q : Request) (c : Call)
    (a : Api W) (r : Result NatEntry) (b : Api W) : Type 0 where
  refused : (x : Exn) → r ≡ err x → SameApi a b → NatAdding tc digest q c a r b
  adds :
      (tenant_id : String) (config : TenantConfig) (entry : NatEntry)
      → IsCaller c tenant_id a.daemon
      → get_tenant tenant_id a.daemon.tenants ≡ some config
      → count_tenant_nat_entries tenant_id a < allowed config.max_nat_entries
      → (add_nat tc digest q (draw_of c) (nat_part a)).0 ≡ ok entry
      → r ≡ ok (owned_by tenant_id entry)
      → b ≡ track q c tenant_id entry (with_nat (add_nat tc digest q (draw_of c) (nat_part a)).1 a)
      → NatAdding tc digest q c a r b

-- Where TcError is caught, a value was answered, or the call had raised.
pub caught-ok :
    {A : Type 0} (r : Result A) (x : Exn) (v : A) → except_tc r (err x) ≡ ok v → r ≡ ok v
caught-ok (ok u) x v e = e
caught-ok (err (tc_error message)) x v e = absurd (cc)
caught-ok (err os_error) x v e = absurd (cc)
caught-ok (err key_error) x v e = absurd (cc)
caught-ok (err attribute_error) x v e = absurd (cc)
caught-ok (err zero_division) x v e = absurd (cc)
caught-ok (err (value_error message)) x v e = absurd (cc)
caught-ok (err (http_error status)) x v e = absurd (cc)

pub caught-err :
    {A : Type 0} (r : Result A) (x y : Exn) → except_tc r (err x) ≡ err y → (z : Exn) × (r ≡ err z)
caught-err (ok u) x y e = absurd (cc)
caught-err (err z) x y e = (z, refl)

module _ {W : Type 0} (tc : Kernel W) (digest : String → String) (q : Request) (c : Call)
    (a : Api W) where
  add_nat_granted :
      (tenant_id : String) (config : TenantConfig)
      → IsCaller c tenant_id a.daemon
      → get_tenant tenant_id a.daemon.tenants ≡ some config
      → at_least (count_tenant_nat_entries tenant_id a) config.max_nat_entries ≡ false
      → let (r, b) = add_nat_for tc digest q c tenant_id a in NatAdding tc digest q c a r b
  unfolding add_nat_for
  add_nat_granted tenant_id config who at room =
      go (except_tc (add_nat tc digest q (draw_of c) (nat_part a)).0 (err (http_error 500))) refl
    where
      go :
          (x : Result NatEntry)
          → except_tc (add_nat tc digest q (draw_of c) (nat_part a)).0 (err (http_error 500)) ≡ x
          → let (r, b) = add_nat_for tc digest q c tenant_id a in NatAdding tc digest q c a r b
      go (ok entry) e =
          rw (add_nat_for, at, room, e)
            (adds tenant_id config entry who at (below-allowed _ config.max_nat_entries room)
              (caught-ok _ (http_error 500) entry e) refl refl)
      go (err x) e =
          let (z, f) =
            caught-err (add_nat tc digest q (draw_of c) (nat_part a)).0 (http_error 500) x e in
          let same = add_nat_atomic tc digest q (draw_of c) (nat_part a) f in
          rw (add_nat_for, at, room, e)
            (refused x refl (record {
              same_daemon = refl;
              same_nat = same.same_db;
              same_signatures = same.same_index;
              same_snat = same.same_snat;
              same_entries = refl;
            }))

  add_nat_for-NatAdding :
      (tenant_id : String)
      → IsCaller c tenant_id a.daemon
      → let (r, b) = add_nat_for tc digest q c tenant_id a in NatAdding tc digest q c a r b
  unfolding add_nat_for
  add_nat_for-NatAdding tenant_id who =
      elim (Option-cases (get_tenant tenant_id a.daemon.tenants)) [
        | inl unknown ↦ rw (add_nat_for, unknown) (refused attribute_error refl (unchanged a))
        | inr (config, at) ↦
            elim (Bool-cases
              (at_least (count_tenant_nat_entries tenant_id a) config.max_nat_entries)) [
                | inl full ↦
                    rw (add_nat_for, at, full) (refused (http_error 429) refl (unchanged a))
                | inr room ↦ add_nat_granted tenant_id config who at room
              ]
      ]

  -- A NAT request is refused and only the world may differ, or it comes from a registered tenant below
  -- its quota, and the entry that nat_manager answers is given to this tenant.
  pub add_nat_rule-NatAdding :
      let (r, b) = add_nat_rule tc digest q c a in NatAdding tc digest q c a r b
  unfolding add_nat_rule
  add_nat_rule-NatAdding =
      api_caller c a (λ tenant_id. add_nat_for tc digest q c tenant_id) (NatAdding tc digest q c a)
        (λ x. refused x refl (unchanged a)) (λ tenant_id who. add_nat_for-NatAdding tenant_id who)
