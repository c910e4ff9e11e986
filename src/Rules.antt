-- ===== src/Rules.antt =====
-- tc-firewall/src/main.py: the routes of the firewall rules, with the rules, the two idempotency
-- indexes, the tenants, the audit log and the world as one state.
pub mod Routes
pub mod Outcomes
pub mod Deletion
pub mod Tenancy
pub mod Repeat
pub mod Failures
pub mod Flush
mod Tests
use technicolor_haze_prism.Base.{
  ℕ, String, Bool, true, false, not, ◌&&◌, Option, none, some, List, [], ◌∷◌, Dict, text_key,
  if◌then◌else◌, ◌==◌, Action, Result, ok, err, Exn, http_error, tc_error, attribute_error, pure,
  raise, gets, modify, or_raise, ◌>>=◌, ◌>>◌, leb, text_given, text_or_empty, number_or_empty, str,
  join_bars, lookup, insert, erase, contains, values, length, select, drop_where,
}
use technicolor_haze_prism.Tc.{
  Kernel, Match, internet_port, client_port, add_allow_rule, add_deny_rule, check_in_hw,
  remove_rule,
}
use technicolor_haze_prism.Tenants.{Tenants, TenantConfig, tenant_exists, get_tenant}
use technicolor_haze_prism.Audit.{
  AuditLogger, Details, Value, text, number, null, log_rule_created, log_rule_deleted,
}

pub data RuleAction : Type 0 where
  allow deny : RuleAction

pub data Protocol : Type 0 where
  tcp udp icmp any : Protocol

abbrev pub action_value : RuleAction → String
action_value allow = "ALLOW"
action_value deny = "DENY"

abbrev pub protocol_value : Protocol → String
protocol_value tcp = "tcp"
protocol_value udp = "udp"
protocol_value icmp = "icmp"
protocol_value any = "any"

-- `rule_request.protocol.value if rule_request.protocol != Protocol.ANY else "ip"`
abbrev pub proto_str : Protocol → String
proto_str any = "ip"
proto_str tcp = "tcp"
proto_str udp = "udp"
proto_str icmp = "icmp"

pub record FirewallRuleRequest : Type 0 where
  pub src_ip : Option String
  pub dst_ip : Option String
  pub src_port : Option ℕ
  pub dst_port : Option ℕ
  pub protocol : Protocol
  pub action : RuleAction
  pub priority : ℕ
  pub comment : Option String
  pub idempotency_key : Option String

pub record FirewallRule : Type 0 where
  pub id : String
  pub tenant_id : Option String
  pub src_ip : Option String
  pub dst_ip : Option String
  pub src_port : Option ℕ
  pub dst_port : Option ℕ
  pub protocol : Protocol
  pub action : RuleAction
  pub priority : ℕ
  pub comment : Option String
  pub tc_handle_fwd : Option String
  pub tc_handle_rev : Option String
  pub in_hw : Bool
  pub created_at : ℕ
  pub packets_fwd : ℕ
  pub bytes_fwd : ℕ
  pub packets_rev : ℕ
  pub bytes_rev : ℕ

pub record Daemon (W : Type 0) : Type 0 where
  pub world : W
  pub rules_db : Dict String FirewallRule
  pub rule_signature_index : Dict String String
  pub idempotency_key_index : Dict String String
  pub tenants : Tenants
  pub audit : AuditLogger

-- What a call brings and draws: the tenant header, the client's address, the id of a new rule, the
-- time and the time as the audit log writes it.
pub record Call : Type 0 where
  pub header : Option String
  pub source_ip : Option String
  pub id : String
  pub time : ℕ
  pub timestamp : String

-- `rule.tenant_id == tenant_id`
unfoldable pub belongs : String → FirewallRule → Bool
belongs tenant_id rule = elim rule.tenant_id [ none ↦ false | some owner ↦ owner == tenant_id ]

unfoldable pub count_tenant_rules : {W : Type 0} → String → Daemon W → ℕ
unfolding belongs
count_tenant_rules tenant_id s = length (select (λ r. belongs tenant_id r) (values s.rules_db))

unfoldable pub get_tenant_id : {W : Type 0} → Option String → Action (Daemon W) String
unfolding tenant_exists
get_tenant_id none s = (err (http_error 400), s)
get_tenant_id (some tenant_id) s =
    if tenant_id == ""
    then (err (http_error 400), s)
    else if tenant_exists tenant_id s.tenants
    then (ok tenant_id, s)
    else (err (http_error 403), s)

-- The text that `_compute_rule_signature` hashes.
unfoldable pub rule_signature : String → FirewallRuleRequest → String
unfolding join_bars text_or_empty number_or_empty str
rule_signature tenant_id r = join_bars (
    tenant_id
    ∷ text_or_empty r.src_ip
    ∷ text_or_empty r.dst_ip
    ∷ number_or_empty r.src_port
    ∷ number_or_empty r.dst_port
    ∷ protocol_value r.protocol
    ∷ action_value r.action
    ∷ str r.priority
    ∷ [])

-- The rule that an index leads to, if it is live.
unfoldable pub live_rule : {W : Type 0} → Option String → Daemon W → Option FirewallRule
live_rule none s = none
live_rule (some id) s = if id == "" then none else lookup id s.rules_db

-- Of an idempotency key that is given.
unfoldable pub keyed_rule : {W : Type 0} → Option String → Daemon W → Option FirewallRule
keyed_rule none s = none
keyed_rule (some key) s =
    if key == "" then none else live_rule (lookup key s.idempotency_key_index) s

-- `_find_existing_rule` at the hash of the signature.
unfoldable pub find_existing_rule :
    {W : Type 0} → String → Option String → Daemon W → Option FirewallRule
find_existing_rule hash key s = elim (keyed_rule key s) [
  | some rule ↦ some rule
  | none ↦ live_rule (lookup hash s.rule_signature_index) s
]

abbrev pub match_of : FirewallRuleRequest → Match
match_of r = record {
  src_ip = r.src_ip;
  dst_ip = r.dst_ip;
  src_port = r.src_port;
  dst_port = r.dst_port;
  protocol = proto_str r.protocol;
  priority = r.priority;
}

abbrev pub rule_of : String → FirewallRuleRequest → Call → String × String × Bool → FirewallRule
rule_of tenant_id r c (fwd_handle, rev_handle, in_hw) = record {
  id = c.id;
  tenant_id = some tenant_id;
  src_ip = r.src_ip;
  dst_ip = r.dst_ip;
  src_port = r.src_port;
  dst_port = r.dst_port;
  protocol = r.protocol;
  action = r.action;
  priority = r.priority;
  comment = r.comment;
  tc_handle_fwd = some fwd_handle;
  tc_handle_rev = some rev_handle;
  in_hw = in_hw;
  created_at = c.time;
  packets_fwd = 0;
  bytes_fwd = 0;
  packets_rev = 0;
  bytes_rev = 0;
}

text_value : Option String → Value
text_value none = null
text_value (some s) = text s

number_value : Option ℕ → Value
number_value none = null
number_value (some n) = number n

unfoldable pub created_details : FirewallRuleRequest → Details
unfolding text_value number_value
created_details r =
    ("src_ip", text_value r.src_ip)
    ∷ ("dst_ip", text_value r.dst_ip)
    ∷ ("src_port", number_value r.src_port)
    ∷ ("dst_port", number_value r.dst_port)
    ∷ ("protocol", text (protocol_value r.protocol))
    ∷ ("action", text (action_value r.action))
    ∷ ("priority", number r.priority)
    ∷ []

-- The index with the key of the request, if it is given.
unfoldable pub index_key : Option String → String → Dict String String → Dict String String
index_key none id index = index
index_key (some key) id index = if key == "" then index else insert key id index

-- Stores a new rule, indexes it and logs it.
unfoldable pub store :
    {W : Type 0} → String → FirewallRuleRequest → Call → FirewallRule → Daemon W → Daemon W
store hash r c rule s = record s {
  rules_db = insert rule.id rule s.rules_db;
  rule_signature_index = insert hash rule.id s.rule_signature_index;
  idempotency_key_index = index_key r.idempotency_key rule.id s.idempotency_key_index;
  audit = (log_rule_created rule.id (created_details r) c.source_ip c.timestamp s.audit).1;
}

-- Takes a rule out of the indexes and the rules, and logs it.
unfoldable pub unstore : {W : Type 0} → String → Call → Daemon W → Daemon W
unstore rule_id c s = record s {
  rules_db = erase rule_id s.rules_db;
  rule_signature_index = drop_where (λ id. id == rule_id) s.rule_signature_index;
  idempotency_key_index = drop_where (λ id. id == rule_id) s.idempotency_key_index;
  audit = (log_rule_deleted rule_id c.source_ip c.timestamp s.audit).1;
}
