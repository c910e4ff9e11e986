-- ===== src/Audit.antt =====
-- tc-firewall/src/audit.py: the audit log, a file handler and a ring buffer of the newest entries.
-- The file is the list of the entries whose JSON line was given to the handler.
pub mod Recent
mod Tests
use Prim.Native.String.{◌++◌}
use technicolor_haze_prism.Base.{
  ℕ, zero, suc, ◌≡◌, refl, ap, String, Bool, true, false, Option, none, some, List, [], ◌∷◌,
  ◌++◌ as ◌+++◌, if◌then◌else◌, ◌==◌, ltb, length, take, text_given, text_key,
}

abbrev pub maxlen : ℕ
maxlen = 1000

-- A value in the details of an entry.
pub data Value : Type 0 where
  text : String → Value
  number : ℕ → Value
  flag : Bool → Value
  null : Value

abbrev pub Details : Type 0
Details = List (String × Value)

-- The keys of an entry, in their order.
pub record AuditEntry : Type 0 where
  pub timestamp : String
  pub action : String
  pub actor : String
  pub resource_type : String
  pub resource_id : String
  pub details : Details
  pub result : String
  pub source_ip : String

pub record AuditLogger : Type 0 where
  pub log_dir : String
  pub log_file : String
  pub max_bytes : ℕ
  pub backup_count : ℕ
  pub recent_entries : List AuditEntry
  pub file_enabled : Bool
  pub lines : List AuditEntry

text_or : Option String → String → String
text_or none other = other
text_or (some s) other = if s == "" then other else s

-- `__init__` with `_setup_handler`, where `opened` says whether the directory and the handler could be
-- made.
unfoldable pub init : Option String → Option String → ℕ → ℕ → Bool → AuditLogger
unfolding text_or
init log_dir log_file max_bytes backup_count opened = record {
  log_dir = text_or log_dir "/var/log/prism-firewall";
  log_file = text_or log_file "audit.jsonl";
  max_bytes = max_bytes;
  backup_count = backup_count;
  recent_entries = [];
  file_enabled = opened;
  lines = [];
}

-- The arguments of `log`, and the time.
pub record LogCall : Type 0 where
  pub timestamp : String
  pub action : String
  pub resource_type : String
  pub resource_id : String
  pub details : Option Details
  pub result : String
  pub source_ip : Option String
  pub actor : String

details_or_empty : Option Details → Details
details_or_empty none = []
details_or_empty (some details) = details

unfoldable pub entry_of : LogCall → AuditEntry
unfolding text_or details_or_empty
entry_of c = record {
  timestamp = c.timestamp;
  action = c.action;
  actor = c.actor;
  resource_type = c.resource_type;
  resource_id = c.resource_id;
  details = details_or_empty c.details;
  result = c.result;
  source_ip = text_or c.source_ip "unknown";
}

drop_first : {A : Type 0} → List A → List A
drop_first [] = []
drop_first (x ∷ xs) = xs

-- `append` of a deque with this `maxlen`.
unfoldable pub push : {A : Type 0} → ℕ → A → List A → List A
unfolding drop_first
push n x xs =
    let grown = xs +++ (x ∷ []) in if ltb n (length grown) then drop_first grown else grown

unfoldable pub log : LogCall → AuditLogger → AuditEntry × AuditLogger
log c l =
    let entry = entry_of c in
    (
      entry,
      record l {
        recent_entries = push maxlen entry l.recent_entries;
        lines = if l.file_enabled then l.lines +++ (entry ∷ []) else l.lines;
      },
    )

unfoldable pub reverse : {A : Type 0} → List A → List A
reverse [] = []
reverse (x ∷ xs) = reverse xs +++ (x ∷ [])

-- The limit is not negative: the API takes 1 to 1000.
unfoldable pub get_recent : ℕ → AuditLogger → List AuditEntry
unfolding reverse
get_recent limit l = take limit (reverse l.recent_entries)

-- The calls for the common actions: each is a call of `log` with these arguments, at a time.
abbrev pub rule_call : String → String → Option Details → Option String → String → LogCall
rule_call action rule_id details source_ip now = record {
  timestamp = now;
  action = action;
  resource_type = "firewall_rule";
  resource_id = rule_id;
  details = details;
  result = "success";
  source_ip = source_ip;
  actor = "api";
}

abbrev pub nat_call : String → String → Option Details → Option String → String → LogCall
nat_call action rule_id details source_ip now =
    record (rule_call action rule_id details source_ip now) { resource_type = "nat_rule" }

abbrev pub daemon_call : String → String → LogCall
daemon_call action now = record (rule_call action "tc-firewall" none none now) {
  resource_type = "system";
  actor = "system";
}

unfoldable pub log_rule_created :
    String → Details → Option String → String → AuditLogger → AuditEntry × AuditLogger
log_rule_created rule_id details source_ip now =
    log (rule_call "rule.created" rule_id (some details) source_ip now)

unfoldable pub log_rule_deleted :
    String → Option String → String → AuditLogger → AuditEntry × AuditLogger
log_rule_deleted rule_id source_ip now = log (rule_call "rule.deleted" rule_id none source_ip now)

unfoldable pub log_rules_flushed :
    ℕ → Option String → String → AuditLogger → AuditEntry × AuditLogger
log_rules_flushed count source_ip now =
    log (rule_call "rules.flushed" "*" (some (("rules_removed", number count) ∷ [])) source_ip now)

unfoldable pub log_nat_created :
    String → String → Details → Option String → String → AuditLogger → AuditEntry × AuditLogger
log_nat_created nat_type rule_id details source_ip now =
    log (nat_call ("nat." ++ (nat_type ++ "_created")) rule_id (some details) source_ip now)

unfoldable pub log_nat_deleted :
    String → Option String → String → AuditLogger → AuditEntry × AuditLogger
log_nat_deleted rule_id source_ip now = log (nat_call "nat.deleted" rule_id none source_ip now)

unfoldable pub log_nat_flushed : ℕ → Option String → String → AuditLogger → AuditEntry × AuditLogger
log_nat_flushed count source_ip now =
    log (nat_call "nat.flushed" "*" (some (("rules_removed", number count) ∷ [])) source_ip now)

unfoldable pub log_daemon_start : String → AuditLogger → AuditEntry × AuditLogger
log_daemon_start now = log (daemon_call "daemon.started" now)

unfoldable pub log_daemon_stop : String → AuditLogger → AuditEntry × AuditLogger
log_daemon_stop now = log (daemon_call "daemon.stopped" now)
