-- ===== src/Api/Reports/Tests.antt =====
-- Witnesses and runs of the reports and of the tenant routes.
use technicolor_haze_prism.Base.{
  pos, negsuc, ◌≡◌, refl, String, false, some, none, List, [], ◌∷◌, text_key, ok, err, http_error,
  lookup, contains, insert, occurs_in, after_prefix,
}
use technicolor_haze_prism.Tc.{completed, Kernel, ensure_ingress_qdisc}
use technicolor_haze_prism.Tc.Stats.{get_stats}
use technicolor_haze_prism.Tenants.{TenantConfig, config_of}
use technicolor_haze_prism.Tenants
use technicolor_haze_prism.Audit
use technicolor_haze_prism.Ha
use technicolor_haze_prism.Snat.{init}
use technicolor_haze_prism.Rules.{Daemon}
use technicolor_haze_prism.Rules.{count_tenant_rules}
use technicolor_haze_prism.Api.{count_tenant_nat_entries, Api}
use technicolor_haze_prism.Api.History.{here, then_step, registering, started}
use technicolor_haze_prism.Api.Usage.{InQuota, Reaches-InQuota}
use technicolor_haze_prism.Api.Reports.{
  Usage, register_tenant, list_tenants, get_tenant, health, get_metrics, start_daemon,
  get_ha_manager,
}

abbrev Log : Type 0
Log = List (List String)

-- Every command exits with 0 and prints nothing.
abbrev silent : Kernel Log
silent args log = (completed (record { returncode = 0; stdout = ""; stderr = "" }), args ∷ log)

abbrev daemon : Daemon Log
daemon = record {
  world = [];
  rules_db = [];
  rule_signature_index = [];
  idempotency_key_index = [];
  tenants = [];
  audit = Audit.init none none 100 10 false;
}

abbrev empty : Api Log
empty = started daemon (init 3)

abbrev acme_config : TenantConfig
acme_config = config_of "acme" none (pos 2) (pos 1) 0

abbrev with_acme : Api Log
with_acme = record empty { daemon = record daemon { tenants = ("acme", acme_config) ∷ [] } }

registered : register_tenant "acme" none (pos 2) (pos 1) 0 empty ≡ (ok acme_config, with_acme)
unfolding register_tenant Tenants.register_tenant contains insert
registered = refl

again : register_tenant "acme" none (pos 9) (pos 9) 1 with_acme ≡ (err (http_error 409), with_acme)
unfolding register_tenant Tenants.register_tenant contains
again = refl

digest : String → String
digest text = text

registered_state : Api Log
registered_state = record empty {
  daemon = record daemon { tenants = (Tenants.register_tenant "acme" none (pos 2) (pos 1) 0 []).1 };
}

Reaches-InQuota_example :
    (u : Usage) × (get_tenant "acme" registered_state ≡ (ok u, registered_state))
    × InQuota acme_config u
unfolding registered_state Tenants.register_tenant Tenants.get_tenant contains insert lookup
Reaches-InQuota_example =
    Reaches-InQuota silent digest daemon (init 3) registered_state "acme" acme_config
      (then_step here (registering "acme" none (pos 2) (pos 1) 0)) refl

-- A quota of -1 leaves room for nothing, and -1 remains of it.
abbrev negative_quota : Api Log
negative_quota = record empty {
  daemon = record daemon { tenants = ("acme", config_of "acme" none (negsuc 0) (pos 1) 0) ∷ [] };
}

below_zero_answered :
    (get_tenant "acme" negative_quota).0
    ≡ ok (record {
      config = config_of "acme" none (negsuc 0) (pos 1) 0;
      rules = 0;
      rules_remaining = negsuc 0;
      nat_entries = 0;
      nat_entries_remaining = pos 1;
    })
unfolding get_tenant Tenants.get_tenant lookup count_tenant_rules count_tenant_nat_entries
below_zero_answered = refl

unknown : get_tenant "beta" with_acme ≡ (err (http_error 404), with_acme)
unfolding get_tenant Tenants.get_tenant lookup
unknown = refl

listed : (list_tenants with_acme).0 ≡ ok (acme_config ∷ [], 1)
unfolding list_tenants Tenants.list_tenants
listed = refl

healthy :
    (health 60 empty).0
    ≡ ok (record { uptime_seconds = 60; active_rules = 0; default_policy = "deny-all" })
unfolding health
healthy = refl

-- Both ports lack the qdisc.
qdiscs_added :
    (start_daemon silent "t" empty).1.daemon.world
    ≡ ("qdisc" ∷ "add" ∷ "dev" ∷ "pf0vf3" ∷ "ingress" ∷ [])
      ∷ ("qdisc" ∷ "show" ∷ "dev" ∷ "pf0vf3" ∷ "ingress" ∷ [])
      ∷ ("qdisc" ∷ "add" ∷ "dev" ∷ "pf0vf0" ∷ "ingress" ∷ [])
      ∷ ("qdisc" ∷ "show" ∷ "dev" ∷ "pf0vf0" ∷ "ingress" ∷ [])
      ∷ []
unfolding start_daemon ensure_ingress_qdisc occurs_in
qdiscs_added = refl

no_traffic :
    (get_metrics silent 9 empty).0
    ≡ ok (record {
      total_rules = 0;
      hw_offloaded_rules = 0;
      packets_forwarded = 0;
      packets_dropped = 0;
      bytes_forwarded = 0;
      bytes_dropped = 0;
      uptime_seconds = 9;
      default_policy = "deny-all";
    })
unfolding get_metrics get_stats after_prefix
no_traffic = refl

lone_manager : get_ha_manager (some 4) none ≡ Ha.init none 100 300 (some 4)
unfolding get_ha_manager
lone_manager = refl
