-- ===== src/Audit/Tests.antt =====
-- Witnesses and runs of the audit log.
use technicolor_haze_prism.Base.{◌≡◌, refl, String, true, none, some, List, [], ◌∷◌, take}
use technicolor_haze_prism.Audit.{
  AuditLogger, LogCall, flag, log, get_recent, init, maxlen, push, entry_of, rule_call, daemon_call,
  log_rule_created, log_rule_deleted, log_rules_flushed, log_nat_created, log_nat_deleted,
  log_nat_flushed, log_daemon_start, log_daemon_stop,
}
use technicolor_haze_prism.Audit.Recent.{log_all, newest_first, get_recent-log_all}

abbrev two_calls : List LogCall
two_calls =
    daemon_call "daemon.started" "t0"
    ∷ rule_call "rule.created" "fw-1" none (some "10.0.0.9") "t1"
    ∷ []

get_recent-log_all_example :
    get_recent 1 (log_all two_calls (init none none 100 10 true))
    ≡ take 1 (take maxlen (newest_first two_calls []))
get_recent-log_all_example = get_recent-log_all none none 100 10 true two_calls 1

third_pushes_out : push {A = String} 2 "c" ("a" ∷ "b" ∷ []) ≡ "b" ∷ "c" ∷ []
unfolding push
third_pushes_out = refl

empty_log : AuditLogger
unfolding init
empty_log = init (some "/tmp") none 100 10 true

actions : (log_daemon_stop "t" (log_daemon_start "t" empty_log).1).0.action ≡ "daemon.stopped"
unfolding log_daemon_stop log_daemon_start log entry_of
actions = refl

rule_actions :
    (log_rule_created "fw-1" (("in_hw", flag true) ∷ []) none "t" empty_log).0.source_ip ≡ "unknown"
unfolding log_rule_created log_rule_deleted log_rules_flushed log entry_of
rule_actions = refl

nat_actions : (log_nat_created "dnat" "nat-1" [] none "t" empty_log).0.action ≡ "nat.dnat_created"
unfolding log_nat_created log_nat_deleted log_nat_flushed log entry_of
nat_actions = refl
