-- ===== src/Rules/Outcomes.antt =====
-- How the routes of the rules may end, and what follows for the rules, the quota and the tenants.
use technicolor_haze_prism.Base.{
  allowed, at_least, below-allowed, ◌≡◌, refl, ap, sym, subst, ◌<◌, String, Bool, true, false,
  Option, none, some, text_key, ◌==◌, Action, Result, ok, err, Exn, http_error, attribute_error,
  lookup, arith, Bool-cases, Option-cases, inl, inr, ◌⊎◌, ◌>>=◌,
}
use technicolor_haze_prism.Tc.{Kernel}
use technicolor_haze_prism.Tenants.{TenantConfig, tenant_exists, get_tenant}
use technicolor_haze_prism.Rules.{
  Daemon, Call, FirewallRule, FirewallRuleRequest, belongs, count_tenant_rules, get_tenant_id,
  rule_signature, find_existing_rule, rule_of, store, unstore,
}
use technicolor_haze_prism.Rules.Routes.{
  RuleAnswer, already_exists, created, except_tc, program, unprogram, create, add_for, add_rule,
  delete_for, delete_rule,
}

-- Only the world may differ.
pub record SameRules {W : Type 0} (s t : Daemon W) : Type 0 where
  pub same_rules : t.rules_db ≡ s.rules_db
  pub same_signatures : t.rule_signature_index ≡ s.rule_signature_index
  pub same_keys : t.idempotency_key_index ≡ s.idempotency_key_index
  pub same_tenants : t.tenants ≡ s.tenants
  pub same_audit : t.audit ≡ s.audit

-- Who the header names, if it names a registered tenant.
pub record IsCaller {W : Type 0} (c : Call) (tenant_id : String) (s : Daemon W) : Type 0 where
  pub named : c.header ≡ some tenant_id
  pub given : (tenant_id == "") ≡ false
  pub registered : tenant_exists tenant_id s.tenants ≡ true

pub data Adding {W : Type 0} (digest : String → String) (r : FirewallRuleRequest) (c : Call)
    (s : Daemon W) (a : Result RuleAnswer) (t : Daemon W) : Type 0 where
  refused : (x : Exn) → a ≡ err x → SameRules s t → Adding digest r c s a t
  existing :
      (tenant_id : String) (rule : FirewallRule)
      → IsCaller c tenant_id s
      → find_existing_rule (digest (rule_signature tenant_id r)) r.idempotency_key s ≡ some rule
      → a ≡ ok (already_exists rule)
      → t ≡ s
      → Adding digest r c s a t
  adds :
      (tenant_id : String) (config : TenantConfig) (p : String × String × Bool) (w : W)
      → IsCaller c tenant_id s
      → get_tenant tenant_id s.tenants ≡ some config
      → count_tenant_rules tenant_id s < allowed config.max_rules
      → find_existing_rule (digest (rule_signature tenant_id r)) r.idempotency_key s ≡ none
      → a ≡ ok (created (rule_of tenant_id r c p))
      → t
        ≡ store
            (digest (rule_signature tenant_id r))
            r
            c
            (rule_of tenant_id r c p)
            (record s { world = w })
      → Adding digest r c s a t

abbrev pub same : {W : Type 0} (s : Daemon W) → SameRules s s
same s = record {
  same_rules = refl;
  same_signatures = refl;
  same_keys = refl;
  same_tenants = refl;
  same_audit = refl;
}

pub tenant_answer :
    {W : Type 0} (c : Call) (s : Daemon W)
    → ((x : Exn) × (get_tenant_id c.header s ≡ (err x, s)))
      ⊎ ((tenant_id : String) × (get_tenant_id c.header s ≡ (ok tenant_id, s))
          × IsCaller c tenant_id s)
unfolding get_tenant_id
tenant_answer {W = W} c s = go c.header refl
  where
    go :
        (h : Option String)
        → c.header ≡ h
        → ((x : Exn) × (get_tenant_id {W = W} c.header s ≡ (err x, s)))
          ⊎ ((tenant_id : String) × (get_tenant_id {W = W} c.header s ≡ (ok tenant_id, s))
              × IsCaller c tenant_id s)
    go none e = inl (http_error 400, ground (arith, e))
    go (some tenant_id) e = elim (Bool-cases (tenant_id == "")) [
      | inl empty ↦ inl (http_error 400, ground (arith, e, empty))
      | inr given ↦ elim (Bool-cases (tenant_exists tenant_id s.tenants)) [
        | inl there ↦ inr (
          tenant_id,
          ground (arith, e, given, there),
          record { named = e; given = given; registered = there },
        )
        | inr absent ↦ inl (http_error 403, ground (arith, e, given, absent))
      ]
    ]

-- The header's tenant, or a refusal.
pub caller :
    {W A : Type 0} (c : Call) (s : Daemon W) (k : String → Action (Daemon W) A)
    (P : Result A → Daemon W → Type 0)
    → ((x : Exn) → P (err x) s)
    → ((tenant_id : String) → IsCaller c tenant_id s → P (k tenant_id s).0 (k tenant_id s).1)
    → let (a, t) = (get_tenant_id c.header >>= k) s in P a t
caller {W = W} {A = A} c s k P denied granted = by_answer (tenant_answer c s)
  where
    bound : Result String × Daemon W → Result A × Daemon W
    bound p = ((λ u. p) >>= k) s

    by_answer :
        ((x : Exn) × (get_tenant_id c.header s ≡ (err x, s)))
          ⊎ ((tenant_id : String) × (get_tenant_id c.header s ≡ (ok tenant_id, s))
              × IsCaller c tenant_id s)
        → let (a, t) = (get_tenant_id c.header >>= k) s in P a t
    by_answer (inl (x, e)) = subst (λ p. P p.0 p.1) (sym (ap bound e)) (denied x)
    by_answer (inr (tenant_id, e, who)) =
        subst (λ p. P p.0 p.1) (sym (ap bound e)) (granted tenant_id who)

module _ {W : Type 0} (tc : Kernel W) (digest : String → String) (r : FirewallRuleRequest)
    (c : Call) (s : Daemon W) where
  create-Adding :
      (tenant_id : String) (config : TenantConfig)
      → IsCaller c tenant_id s
      → get_tenant tenant_id s.tenants ≡ some config
      → count_tenant_rules tenant_id s < allowed config.max_rules
      → find_existing_rule (digest (rule_signature tenant_id r)) r.idempotency_key s ≡ none
      → let (a, t) = create tc (digest (rule_signature tenant_id r)) tenant_id r c s in
        Adding digest r c s a t
  unfolding create
  create-Adding tenant_id config who at room new =
      go (except_tc (program tc r s.world).0 (err (http_error 500))) refl
    where
      go :
          (x : Result (String × String × Bool))
          → except_tc (program tc r s.world).0 (err (http_error 500)) ≡ x
          → let (a, t) = create tc (digest (rule_signature tenant_id r)) tenant_id r c s in
            Adding digest r c s a t
      go (ok p) e =
          rw (create, e)
            (adds tenant_id config p (program tc r s.world).1 who at room new refl refl)
      go (err x) e =
          rw (create, e)
            (refused x refl (record {
              same_rules = refl;
              same_signatures = refl;
              same_keys = refl;
              same_tenants = refl;
              same_audit = refl;
            }))

  add_for-Adding :
      (tenant_id : String)
      → IsCaller c tenant_id s
      → let (a, t) = add_for tc digest tenant_id r c s in Adding digest r c s a t
  unfolding add_for
  add_for-Adding tenant_id who =
      elim (Option-cases
        (find_existing_rule (digest (rule_signature tenant_id r)) r.idempotency_key s)) [
          | inr (rule, found) ↦ rw (add_for, found) (existing tenant_id rule who found refl refl)
          | inl new ↦ elim (Option-cases (get_tenant tenant_id s.tenants)) [
            | inl unknown ↦ rw (add_for, new, unknown) (refused attribute_error refl (same s))
            | inr (config, at) ↦
                elim (Bool-cases (at_least (count_tenant_rules tenant_id s) config.max_rules)) [
                  | inl full ↦ rw (add_for, new, at, full) (refused (http_error 429) refl (same s))
                  | inr room ↦
                      rw (add_for, new, at, room)
                        (create-Adding tenant_id config who at
                          (below-allowed _ config.max_rules room) new)
                ]
          ]
        ]

  -- An adding request is refused and only the world may differ, or it is answered with the live rule
  -- that its key or its signature finds and nothing changes, or it is within the quota of a registered
  -- tenant and its rule is stored for that tenant.
  pub add_rule-Adding : let (a, t) = add_rule tc digest r c s in Adding digest r c s a t
  unfolding add_rule
  add_rule-Adding =
      caller c s (λ tenant_id. add_for tc digest tenant_id r c) (Adding digest r c s)
        (λ x. refused x refl (same s)) (λ tenant_id who. add_for-Adding tenant_id who)

pub data Deleting {W : Type 0} (rule_id : String) (c : Call) (s : Daemon W) (a : Result (Unit {0}))
    (t : Daemon W) : Type 0 where
  refused : (x : Exn) → a ≡ err x → SameRules s t → Deleting rule_id c s a t
  deletes :
      (tenant_id : String) (rule : FirewallRule) (w : W)
      → IsCaller c tenant_id s
      → lookup rule_id s.rules_db ≡ some rule
      → belongs tenant_id rule ≡ true
      → a ≡ ok tt
      → t ≡ unstore rule_id c (record s { world = w })
      → Deleting rule_id c s a t

module _ {W : Type 0} (tc : Kernel W) (rule_id : String) (c : Call) (s : Daemon W) where
  delete_owned :
      (tenant_id : String) (rule : FirewallRule)
      → IsCaller c tenant_id s
      → lookup rule_id s.rules_db ≡ some rule
      → belongs tenant_id rule ≡ true
      → let (a, t) = delete_for tc tenant_id rule_id c s in Deleting rule_id c s a t
  unfolding delete_for
  delete_owned tenant_id rule who at own = go (except_tc (unprogram tc rule s.world).0 (ok tt)) refl
    where
      go :
          (x : Result (Unit {0}))
          → except_tc (unprogram tc rule s.world).0 (ok tt) ≡ x
          → let (a, t) = delete_for tc tenant_id rule_id c s in Deleting rule_id c s a t
      go (ok done) e =
          rw (delete_for, at, own, e)
            (deletes tenant_id rule (unprogram tc rule s.world).1 who at own refl refl)
      go (err x) e =
          rw (delete_for, at, own, e)
            (refused x refl (record {
              same_rules = refl;
              same_signatures = refl;
              same_keys = refl;
              same_tenants = refl;
              same_audit = refl;
            }))

  delete_for-Deleting :
      (tenant_id : String)
      → IsCaller c tenant_id s
      → let (a, t) = delete_for tc tenant_id rule_id c s in Deleting rule_id c s a t
  unfolding delete_for
  delete_for-Deleting tenant_id who = elim (Option-cases (lookup rule_id s.rules_db)) [
    | inl unknown ↦ rw (delete_for, unknown) (refused (http_error 404) refl (same s))
    | inr (rule, at) ↦ elim (Bool-cases (belongs tenant_id rule)) [
      | inl own ↦ delete_owned tenant_id rule who at own
      | inr alien ↦ rw (delete_for, at, alien) (refused (http_error 403) refl (same s))
    ]
  ]

  -- A deletion is refused and only the world may differ, or the rule belongs to the registered tenant
  -- that the header names and the state is that of `unstore`, a failure of `tc` notwithstanding.
  pub delete_rule-Deleting : let (a, t) = delete_rule tc rule_id c s in Deleting rule_id c s a t
  unfolding delete_rule
  delete_rule-Deleting =
      caller c s (λ tenant_id. delete_for tc tenant_id rule_id c) (Deleting rule_id c s)
        (λ x. refused x refl (same s)) (λ tenant_id who. delete_for-Deleting tenant_id who)
