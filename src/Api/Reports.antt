-- ===== src/Api/Reports.antt =====
-- The other routes of main.py: tenants, reports, the audit log, the start and the end of the daemon,
-- and the HA routes. A number of seconds since the start is given with a call that reports it.
mod Tests
use technicolor_haze_prism.Base.{
  ℕ, zero, suc, ◌+◌, ℤ, pos, negsuc, ◌≡◌, String, Bool, true, false, Option, none, some, List, [],
  ◌∷◌, text_key, if◌then◌else◌, Action, Result, ok, err, tc_error, os_error, http_error,
  value_error, key_error, attribute_error, zero_division, pure, gets, ◌>>=◌, ◌>>◌, values, length,
  select,
}
use technicolor_haze_prism.Tc.{Kernel, internet_port, client_port, ensure_ingress_qdisc}
use technicolor_haze_prism.Tc.Stats.{TcRuleStats}
use technicolor_haze_prism.Tc.Stats
use technicolor_haze_prism.Tenants
use technicolor_haze_prism.Tenants.{TenantConfig}
use technicolor_haze_prism.Conntrack
use technicolor_haze_prism.Conntrack.{Session}
use technicolor_haze_prism.Audit
use technicolor_haze_prism.Audit.{AuditEntry}
use technicolor_haze_prism.Ha
use technicolor_haze_prism.Ha.{Disk, HaManager}
use technicolor_haze_prism.Rules.{Daemon, count_tenant_rules}
use technicolor_haze_prism.Api.{Api, count_tenant_nat_entries}
use technicolor_haze_prism.Api.Routes.{on_daemon}

-- `a - b`, which may be negative.
abbrev pub difference : ℕ → ℕ → ℤ
difference a zero = pos a
difference zero (suc b) = negsuc b
difference (suc a) (suc b) = difference a b

infixl 6 ◌-ℤ◌
abbrev pub ◌-ℤ◌ : ℤ → ℕ → ℤ
pos a -ℤ n = difference a n
negsuc a -ℤ n = negsuc (a + n)

-- A ValueError of the registry is answered with status 409.
except_value : Result TenantConfig → Result TenantConfig
except_value (ok config) = ok config
except_value (err (value_error message)) = err (http_error 409)
except_value (err key_error) = err key_error
except_value (err attribute_error) = err attribute_error
except_value (err zero_division) = err zero_division
except_value (err os_error) = err os_error
except_value (err (tc_error message)) = err (tc_error message)
except_value (err (http_error status)) = err (http_error status)

unfoldable pub register_tenant :
    {W : Type 0} → String → Option (List String) → ℤ → ℤ → ℕ → Action (Api W) TenantConfig
unfolding except_value
register_tenant tenant_id public_ips max_rules max_nat_entries now a =
    let (r, tenants) =
      Tenants.register_tenant tenant_id public_ips max_rules max_nat_entries now a.daemon.tenants in
    (except_value r, record a { daemon = record a.daemon { tenants = tenants } })

-- The tenants and how many there are.
unfoldable pub list_tenants : {W : Type 0} → Action (Api W) (List TenantConfig × ℕ)
list_tenants =
    gets
      (λ a. (Tenants.list_tenants a.daemon.tenants, length (Tenants.list_tenants a.daemon.tenants)))

pub record Usage : Type 0 where
  pub config : TenantConfig
  pub rules : ℕ
  pub rules_remaining : ℤ
  pub nat_entries : ℕ
  pub nat_entries_remaining : ℤ

unfoldable pub get_tenant : {W : Type 0} → String → Action (Api W) Usage
get_tenant tenant_id a = elim (Tenants.get_tenant tenant_id a.daemon.tenants) [
  | none ↦ (err (http_error 404), a)
  | some config ↦ (
    ok (record {
      config = config;
      rules = count_tenant_rules tenant_id a.daemon;
      rules_remaining = config.max_rules -ℤ count_tenant_rules tenant_id a.daemon;
      nat_entries = count_tenant_nat_entries tenant_id a;
      nat_entries_remaining = config.max_nat_entries -ℤ count_tenant_nat_entries tenant_id a;
    }),
    a,
  )
]

-- `health`; the only policy that main.py ever has is "deny-all".
pub record Health : Type 0 where
  pub uptime_seconds : ℕ
  pub active_rules : ℕ
  pub default_policy : String

unfoldable pub health : {W : Type 0} → ℕ → Action (Api W) Health
health uptime = gets (λ a. record {
  uptime_seconds = uptime;
  active_rules = length a.daemon.rules_db;
  default_policy = "deny-all";
})

-- `Metrics` of models.py; the dropped packets and bytes are 0 in every answer.
pub record Metrics : Type 0 where
  pub total_rules : ℕ
  pub hw_offloaded_rules : ℕ
  pub packets_forwarded : ℕ
  pub packets_dropped : ℕ
  pub bytes_forwarded : ℕ
  pub bytes_dropped : ℕ
  pub uptime_seconds : ℕ
  pub default_policy : String

-- A call on the world alone.
abbrev pub on_kernel : {W A : Type 0} → Action W A → Action (Api W) A
on_kernel m a =
    let (r, w) = m a.daemon.world in (r, record a { daemon = record a.daemon { world = w } })

-- What `get_topology` tells of a port.
pub record PortReport : Type 0 where
  pub name : String
  pub role : String
  pub rules : ℕ
  pub hw_offloaded : ℕ

abbrev pub port_report : String → String → List TcRuleStats → PortReport
port_report name role rules = record {
  name = name;
  role = role;
  rules = length rules;
  hw_offloaded = length (select (λ r. r.in_hw) rules);
}

module _ {W : Type 0} (tc : Kernel W) where
  unfoldable pub get_metrics : ℕ → Action (Api W) Metrics
  get_metrics uptime = do
    internet_stats ← on_kernel (Stats.get_stats tc internet_port)
    client_stats ← on_kernel (Stats.get_stats tc client_port)
    gets (λ a. record {
      total_rules = length a.daemon.rules_db;
      hw_offloaded_rules = length (select (λ r. r.in_hw) (values a.daemon.rules_db));
      packets_forwarded = internet_stats.packets + client_stats.packets;
      packets_dropped = 0;
      bytes_forwarded = internet_stats.bytes + client_stats.bytes;
      bytes_dropped = 0;
      uptime_seconds = uptime;
      default_policy = "deny-all";
    })

  -- The report of both ports.
  unfoldable pub get_topology : Action (Api W) (PortReport × PortReport)
  get_topology = do
    internet_rules ← on_kernel (Stats.list_rules tc internet_port)
    client_rules ← on_kernel (Stats.list_rules tc client_port)
    pure (
      port_report internet_port "uplink/internet facing" internet_rules,
      port_report client_port "VM/container facing" client_rules,
    )

  -- `lifespan` up to its `yield`: whatever the qdiscs raise is only logged.
  unfoldable pub start_daemon : String → Action (Api W) (Unit {0})
  start_daemon timestamp a =
      let b = record a {
        daemon = record a.daemon { audit = (Audit.log_daemon_start timestamp a.daemon.audit).1 };
      } in
      (
        ok tt,
        (on_kernel (do ensure_ingress_qdisc tc internet_port; ensure_ingress_qdisc tc client_port)
            b).1,
      )

unfoldable pub stop_daemon : {W : Type 0} → String → Action (Api W) (Unit {0})
stop_daemon timestamp a = (
  ok tt,
  record a {
    daemon = record a.daemon { audit = (Audit.log_daemon_stop timestamp a.daemon.audit).1 };
  },
)

-- The sessions and how many there are.
unfoldable pub get_sessions :
    {W : Type 0} → (List String → W → Conntrack.Reply × W) → Action (Api W) (List Session × ℕ)
get_sessions conntrack = do
  sessions ← on_kernel (Conntrack.get_sessions conntrack)
  pure (sessions, length sessions)

unfoldable pub get_audit : {W : Type 0} → ℕ → Action (Api W) (List AuditEntry × ℕ)
get_audit limit =
    gets
      (λ a. (Audit.get_recent limit a.daemon.audit, length (Audit.get_recent limit a.daemon.audit)))

-- `get_ha_manager`: the manager that was made, or one for a single node with the default times, which
-- reads its generation from the file.
unfoldable pub get_ha_manager : Option ℕ → Option HaManager → HaManager
get_ha_manager gen_file none = Ha.init none 100 300 gen_file
get_ha_manager gen_file (some m) = m

-- The HA routes; the manager that they find or make is kept.
unfoldable pub ha_status : ℕ → Option ℕ → Option HaManager → Ha.Status × Option HaManager
ha_status now gen_file s = let m = get_ha_manager gen_file s in (Ha.get_status now m, some m)

unfoldable pub ha_promote : Disk → Option ℕ → Option HaManager → Ha.PromoteAnswer × Option HaManager
ha_promote disk gen_file s =
    let (answer, m) = Ha.promote disk (get_ha_manager gen_file s) in (answer, some m)

unfoldable pub ha_demote : Option ℕ → Option HaManager → Ha.DemoteAnswer × Option HaManager
ha_demote gen_file s = let (answer, m) = Ha.demote (get_ha_manager gen_file s) in (answer, some m)
