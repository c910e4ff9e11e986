-- ===== src/Rules/Routes.antt =====
-- The routes themselves: what `add_rule`, `delete_rule` and `list_rules` of main.py do, in their order.
use technicolor_haze_prism.Base.{
  at_least, ℕ, String, Bool, not, Option, none, some, List, [], ◌∷◌, text_key, if◌then◌else◌, ◌==◌,
  Action, Result, ok, err, http_error, tc_error, attribute_error, pure, gets, ◌>>=◌, ◌>>◌, lookup,
  values, select, erase, member, stale_keys, drop_where, modify, length, key_error,
}
use technicolor_haze_prism.Tc.{
  Kernel, internet_port, client_port, add_allow_rule, add_deny_rule, check_in_hw, remove_rule,
}
use technicolor_haze_prism.Tenants.{get_tenant}
use technicolor_haze_prism.Audit.{log_rules_flushed}
use technicolor_haze_prism.Rules.{
  Daemon, Call, FirewallRule, FirewallRuleRequest, allow, deny, match_of, rule_of, rule_signature,
  belongs, count_tenant_rules, get_tenant_id, find_existing_rule, store, unstore,
}

-- `except TcError`: the answer of a call of tc_manager, where only that error is turned into another.
abbrev pub except_tc : {A : Type 0} → Result A → Result A → Result A
except_tc (ok a) other = ok a
except_tc (err (tc_error message)) other = other
except_tc (err x) other = err x

-- The answer to an adding request: status 200 with an existing rule, or 201 with a new one.
pub data RuleAnswer : Type 0 where
  already_exists created : FirewallRule → RuleAnswer

-- A handle that is set and not empty.
unfoldable pub removal :
    {W : Type 0} (tc : Kernel W) → String → Option String → ℕ → Action W (Unit {0})
removal tc port none priority = pure tt
removal tc port (some handle) priority =
    if handle == "" then pure tt else remove_rule tc port handle priority

module _ {W : Type 0} (tc : Kernel W) where
  -- `if rule_request.action == RuleAction.ALLOW`
  program_handles : FirewallRuleRequest → Action W (String × String)
  program_handles r = elim r.action [
    | allow ↦ add_allow_rule tc (match_of r)
    | deny ↦ add_deny_rule tc (match_of r)
  ]

  -- The body of the `try` of `add_rule`.
  unfoldable pub program : FirewallRuleRequest → Action W (String × String × Bool)
  unfolding program_handles
  program r = do
    handles ← program_handles r
    in_hw ← check_in_hw tc internet_port handles.0 r.priority
    pure (handles.0, handles.1, in_hw)

  -- The body of the `try` of `delete_rule`.
  unfoldable pub unprogram : FirewallRule → Action W (Unit {0})
  unfolding removal
  unprogram rule = do
    removal tc internet_port rule.tc_handle_fwd rule.priority
    removal tc client_port rule.tc_handle_rev rule.priority

  unfoldable pub create :
      String → String → FirewallRuleRequest → Call → Action (Daemon W) RuleAnswer
  create hash tenant_id r c s =
      let (answer, w) = program r s.world in
      let t = record s { world = w } in
      elim (except_tc answer (err (http_error 500))) as (λ _. Result RuleAnswer × Daemon W) [
        | ok programmed ↦ (
          ok (created (rule_of tenant_id r c programmed)),
          store hash r c (rule_of tenant_id r c programmed) t,
        )
        | err x ↦ (err x, t)
      ]

  -- `add_rule` once the tenant is known: the idempotency check, the quota, the commands.
  unfoldable pub add_for :
      (String → String) → String → FirewallRuleRequest → Call → Action (Daemon W) RuleAnswer
  add_for digest tenant_id r c s =
      let hash = digest (rule_signature tenant_id r) in
      elim (find_existing_rule hash r.idempotency_key s) [
        | some rule ↦ (ok (already_exists rule), s)
        | none ↦ elim (get_tenant tenant_id s.tenants) [
          | none ↦ (err attribute_error, s)
          | some config ↦
              if at_least (count_tenant_rules tenant_id s) config.max_rules
              then (err (http_error 429), s)
              else create hash tenant_id r c s
        ]
      ]

  unfoldable pub add_rule :
      (String → String) → FirewallRuleRequest → Call → Action (Daemon W) RuleAnswer
  add_rule digest r c = do tenant_id ← get_tenant_id c.header; add_for digest tenant_id r c

  -- `delete_rule` once the tenant is known.
  unfoldable pub delete_for : String → String → Call → Action (Daemon W) (Unit {0})
  delete_for tenant_id rule_id c s = elim (lookup rule_id s.rules_db) [
    | none ↦ (err (http_error 404), s)
    | some rule ↦
        if not (belongs tenant_id rule)
        then (err (http_error 403), s)
        else let (answer, w) = unprogram rule s.world in
          let t = record s { world = w } in
          elim (except_tc answer (ok tt)) as (λ _. Result (Unit {0}) × Daemon W) [
            | ok done ↦ (ok tt, unstore rule_id c t)
            | err x ↦ (err x, t)
          ]
  ]

  unfoldable pub delete_rule : String → Call → Action (Daemon W) (Unit {0})
  delete_rule rule_id c = do tenant_id ← get_tenant_id c.header; delete_for tenant_id rule_id c

-- `[rid for rid, rule in rules_db.items() if rule.tenant_id == tenant_id]`
unfoldable pub owned_ids : {W : Type 0} → String → Daemon W → List String
unfolding stale_keys
owned_ids tenant_id s = stale_keys (λ rule. belongs tenant_id rule) s.rules_db

-- The indexes without the entries that lead to these rules.
unfoldable pub forget_ids : {W : Type 0} → List String → Daemon W → Daemon W
forget_ids ids s = record s {
  rule_signature_index = drop_where (λ id. member id ids) s.rule_signature_index;
  idempotency_key_index = drop_where (λ id. member id ids) s.idempotency_key_index;
}

module _ {W : Type 0} (tc : Kernel W) where
  -- The loop over the ids of a tenant: each rule is taken from the ports, where a TcError is only
  -- logged, and leaves the store.
  unfoldable pub remove_each : List String → Action (Daemon W) (Unit {0})
  remove_each [] s = (ok tt, s)
  remove_each (rule_id ∷ ids) s = elim (lookup rule_id s.rules_db) [
    | none ↦ (err key_error, s)
    | some rule ↦
        let (answer, w) = unprogram tc rule s.world in
        elim (except_tc answer (ok tt)) as (λ _. Result (Unit {0}) × Daemon W) [
          | ok done ↦ remove_each ids (record s { world = w; rules_db = erase rule_id s.rules_db })
          | err x ↦ (err x, record s { world = w })
        ]
  ]

  -- `flush_rules` once the tenant is known.
  unfoldable pub flush_for : String → Call → Action (Daemon W) ℕ
  flush_for tenant_id c s =
      let ids = owned_ids tenant_id s in
      (do
        remove_each ids
        modify (λ t. forget_ids ids t)
        modify (λ t. record t {
          audit = (log_rules_flushed (length ids) c.source_ip c.timestamp t.audit).1;
        })
        pure (length ids))
        s

  unfoldable pub flush_rules : Call → Action (Daemon W) ℕ
  flush_rules c = do tenant_id ← get_tenant_id c.header; flush_for tenant_id c

unfoldable pub list_rules : {W : Type 0} → Call → Action (Daemon W) (List FirewallRule)
list_rules c = do
  tenant_id ← get_tenant_id c.header
  gets (λ s. select (λ r. belongs tenant_id r) (values s.rules_db))
