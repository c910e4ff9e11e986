-- ===== src/Rules/Tests.antt =====
-- Witnesses and runs of the rule routes, under a kernel that notes the commands.
use technicolor_haze_prism.Base.{
  pos, ◌≡◌, refl, ◌≤◌, max, String, true, false, none, some, List, [], ◌∷◌, text_key, ok, err,
  http_error, lookup, contains, member, after_prefix,
}
use Prim.Native.String.{◌++◌}
use technicolor_haze_prism.Tc.{Completed, check_in_hw, add_allow_rule}
use technicolor_haze_prism.Tc.TwoSided.{Log, recorder}
use technicolor_haze_prism.Tenants.{TenantConfig, config_of, get_tenant, tenant_exists}
use technicolor_haze_prism.Audit.{AuditLogger}
use technicolor_haze_prism.Audit
use technicolor_haze_prism.Rules.{
  Daemon, Call, FirewallRule, FirewallRuleRequest, belongs, count_tenant_rules, rule_of, allow, tcp,
  get_tenant_id, find_existing_rule, keyed_rule, live_rule,
}
use technicolor_haze_prism.Rules.Routes.{
  already_exists, created, add_rule, delete_rule, flush_rules, list_rules, add_for, create, program,
}
use technicolor_haze_prism.Rules.Outcomes.{Adding, add_rule-Adding}
use technicolor_haze_prism.Rules.Deletion.{Deletion, delete_rule-Deletion}
use technicolor_haze_prism.Rules.Flush.{Flushing, flush_rules-Flushing}
use technicolor_haze_prism.Rules.Repeat.{add_rule_idempotent}
use technicolor_haze_prism.Rules.Tenancy.{add_rule-quota, delete_rule_isolates}

abbrev digest : String → String
digest text = "sha:" ++ text

abbrev answers : List String → Log → Completed
answers args log = record { returncode = 0; stdout = "handle 0x1 in_hw"; stderr = "" }

abbrev https : FirewallRuleRequest
https = record {
  src_ip = none;
  dst_ip = some "10.0.0.5";
  src_port = none;
  dst_port = some 443;
  protocol = tcp;
  action = allow;
  priority = 100;
  comment = none;
  idempotency_key = none;
}

abbrev acme_call : Call
acme_call = record {
  header = some "acme";
  source_ip = none;
  id = "fw-1";
  time = 5;
  timestamp = "t";
}

abbrev beta_call : Call
beta_call = record {
  header = some "beta";
  source_ip = none;
  id = "fw-2";
  time = 6;
  timestamp = "u";
}

abbrev acme_rule : FirewallRule
acme_rule = rule_of "acme" https acme_call ("0x1", "0x1", true)

abbrev no_log : AuditLogger
no_log = Audit.init none none 100 10 false

abbrev acme_config : TenantConfig
acme_config = config_of "acme" none (pos 1) (pos 1) 0

abbrev one_rule : Daemon Log
one_rule = record {
  world = [];
  rules_db = ("fw-1", acme_rule) ∷ [];
  rule_signature_index = [];
  idempotency_key_index = [];
  tenants = ("acme", acme_config) ∷ ("beta", config_of "beta" none (pos 1) (pos 1) 0) ∷ [];
  audit = no_log;
}

add_rule-Adding_example :
    Adding digest https beta_call one_rule
      (add_rule (recorder answers) digest https beta_call one_rule).0
      (add_rule (recorder answers) digest https beta_call one_rule).1
add_rule-Adding_example = add_rule-Adding (recorder answers) digest https beta_call one_rule

abbrev indexed : Daemon Log
indexed = record one_rule {
  rule_signature_index = ("sha:a", "fw-1") ∷ ("sha:b", "fw-2") ∷ [];
  idempotency_key_index = ("key-1", "fw-1") ∷ [];
}

delete_rule-Deletion_example :
    Deletion "fw-1" acme_call indexed
      (delete_rule (recorder answers) "fw-1" acme_call indexed).0
      (delete_rule (recorder answers) "fw-1" acme_call indexed).1
unfolding member
delete_rule-Deletion_example =
    delete_rule-Deletion (recorder answers) "fw-1" acme_call indexed (refl, (refl, tt)) (refl, tt)

add_rule-quota_example :
    count_tenant_rules "acme" (add_rule (recorder answers) digest https beta_call one_rule).1
    ≤ max 1 (count_tenant_rules "acme" one_rule)
unfolding lookup get_tenant
add_rule-quota_example =
    add_rule-quota (recorder answers) digest https beta_call one_rule "acme" acme_config refl refl

delete_rule_isolates_example :
    lookup "fw-1" (delete_rule (recorder answers) "fw-1" beta_call one_rule).1.rules_db
    ≡ some acme_rule
unfolding lookup belongs
delete_rule_isolates_example =
    delete_rule_isolates (recorder answers) "fw-1" beta_call one_rule "beta" "fw-1" acme_rule refl
      refl refl

listed : (list_rules acme_call one_rule).0 ≡ ok (acme_rule ∷ [])
unfolding list_rules get_tenant_id tenant_exists contains belongs
listed = refl

full : (add_rule (recorder answers) digest https acme_call one_rule).0 ≡ err (http_error 429)
unfolding add_rule add_for find_existing_rule keyed_rule live_rule get_tenant_id tenant_exists
    contains belongs count_tenant_rules lookup get_tenant
full = refl

abbrev no_rules : Daemon Log
no_rules = record one_rule { rules_db = [] }

accepted : (add_rule (recorder answers) digest https acme_call no_rules).0 ≡ ok (created acme_rule)
unfolding add_rule add_for find_existing_rule keyed_rule live_rule get_tenant_id tenant_exists
    contains belongs count_tenant_rules lookup get_tenant create program add_allow_rule check_in_hw
    after_prefix
accepted = refl

add_rule_idempotent_example :
    add_rule
      (recorder answers)
      digest
      https
      acme_call
      (add_rule (recorder answers) digest https acme_call no_rules).1
    ≡ (
      ok (already_exists acme_rule),
      (add_rule (recorder answers) digest https acme_call no_rules).1,
    )
add_rule_idempotent_example =
    add_rule_idempotent (recorder answers) digest https acme_call acme_call no_rules acme_rule refl
      refl accepted

-- The key of another tenant's request finds that tenant's rule.
abbrev keyed_request : FirewallRuleRequest
keyed_request = record https { idempotency_key = some "k" }

foreign_key :
    (add_rule
      (recorder answers)
      digest
      keyed_request
      beta_call
      (record one_rule { idempotency_key_index = ("k", "fw-1") ∷ [] })).0
    ≡ ok (already_exists acme_rule)
unfolding add_rule add_for find_existing_rule keyed_rule live_rule get_tenant_id tenant_exists
    contains lookup
foreign_key = refl

flush_rules-Flushing_example :
    Flushing "acme" one_rule
      (flush_rules (recorder answers) acme_call one_rule).0
      (flush_rules (recorder answers) acme_call one_rule).1
unfolding get_tenant_id tenant_exists contains member
flush_rules-Flushing_example =
    flush_rules-Flushing (recorder answers) acme_call one_rule "acme" (refl, tt) refl
