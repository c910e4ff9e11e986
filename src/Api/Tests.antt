-- ===== src/Api/Tests.antt =====
-- Witnesses and runs of the NAT routes and of the deletion of a tenant.
use Prim.Native.String.{◌++◌}
use technicolor_haze_prism.Base.{
  pos, ◌≡◌, refl, arith, String, true, false, none, some, List, [], ◌∷◌, text_key, ok, err,
  http_error, lookup, contains, os_error, insert, after_prefix,
}
use technicolor_haze_prism.Tc.{Completed, Kernel, failed, run_tc, get_last_handle, check_in_hw}
use technicolor_haze_prism.Tc.TwoSided.{Log, recorder}
use technicolor_haze_prism.Tenants.{TenantConfig, config_of, get_tenant, tenant_exists}
use technicolor_haze_prism.Audit
use technicolor_haze_prism.Snat.{SnatState, init}
use technicolor_haze_prism.Nat.{Target, NatEntry}
use technicolor_haze_prism.Nat.Add.{forward, add_nat, IsFresh, request_entry}
use technicolor_haze_prism.Nat.Operations.{
  find_existing_nat, add_port_forward, add_entry, install, on_world, register, remove_nat,
}
use technicolor_haze_prism.Rules.{Daemon, Call, get_tenant_id}
use technicolor_haze_prism.Rules.Outcomes.{IsCaller}
use technicolor_haze_prism.Api.{
  Api, nat_part, draw_of, owned_by, entry_belongs, count_tenant_nat_entries, track,
}
use technicolor_haze_prism.Api.Routes.{
  add_nat_rule, add_nat_for, delete_nat_rule, delete_nat_for, delete_tenant, add_snat_rule,
  add_dnat_rule, add_port_forward_rule, list_nat_rules,
}
use technicolor_haze_prism.Api.Invariant.{Consistent}
use technicolor_haze_prism.Api.Tenancy.{add_nat_rule_takes_over}
use technicolor_haze_prism.Api.Stuck.{delete_nat_rule_stuck}
use technicolor_haze_prism.Api.Teardown.{TenantDeletion, delete_tenant-TenantDeletion}
use technicolor_haze_prism.Api.History.{
  Reaches, here, then_step, adding_nat, started, Reaches-started,
}

abbrev digest : String → String
digest text = "sha:" ++ text

abbrev answers : List String → Log → Completed
answers args log = record { returncode = 0; stdout = "handle 0x1 in_hw"; stderr = "" }

abbrev acme_config : TenantConfig
acme_config = config_of "acme" none (pos 1) (pos 1) 0

abbrev beta_config : TenantConfig
beta_config = config_of "beta" none (pos 1) (pos 1) 0

abbrev daemon : Daemon Log
daemon = record {
  world = [];
  rules_db = [];
  rule_signature_index = [];
  idempotency_key_index = [];
  tenants = ("acme", acme_config) ∷ ("beta", beta_config) ∷ [];
  audit = Audit.init none none 100 10 false;
}

abbrev no_ports : SnatState
no_ports = init 3

abbrev web : Target
web = record {
  public_ip = "203.0.113.1";
  public_port = 80;
  private_ip = "10.0.0.5";
  private_port = 8080;
  protocol = "tcp";
}

abbrev acme_call : Call
acme_call = record {
  header = some "acme";
  source_ip = none;
  id = "nat-1";
  time = 5;
  timestamp = "t";
}

abbrev beta_call : Call
beta_call = record {
  header = some "beta";
  source_ip = none;
  id = "nat-2";
  time = 6;
  timestamp = "u";
}

abbrev empty : Api Log
empty = started daemon no_ports

abbrev tc : Kernel Log
tc = recorder answers

abbrev one_entry : Api Log
one_entry = (add_nat_rule tc digest (forward web) acme_call empty).1

fresh : IsFresh tc digest (draw_of acme_call) (nat_part empty)
unfolding lookup
fresh = (refl, refl)

reached : Reaches tc digest empty one_entry
reached = then_step here (adding_nat (forward web) acme_call fresh)

Reaches-started_example : Consistent digest one_entry
Reaches-started_example = Reaches-started tc digest daemon no_ports one_entry reached

one_entry-Consistent : Consistent digest one_entry
one_entry-Consistent = Reaches-started tc digest daemon no_ports one_entry reached

delete_tenant-TenantDeletion_example :
    TenantDeletion "acme" one_entry
      (delete_tenant tc "acme" one_entry).0
      (delete_tenant tc "acme" one_entry).1
delete_tenant-TenantDeletion_example =
    delete_tenant-TenantDeletion tc "acme" digest one_entry one_entry-Consistent

-- The state after one forward of acme's, written out.
abbrev acme_entry : NatEntry
acme_entry = owned_by "acme" (request_entry (forward web) (draw_of acme_call) true)

abbrev acme_has : Api Log
acme_has = record empty {
  nat_db = ("nat-1", acme_entry) ∷ [];
  signature_index = ("sha:forward|203.0.113.1|80|10.0.0.5|8080|tcp", "nat-1") ∷ [];
  nat_entries_db = ("nat-1", acme_entry) ∷ [];
}

empty-Consistent : Consistent digest empty
empty-Consistent = Reaches-started tc digest daemon no_ports empty here

answered : (add_nat_rule tc digest (forward web) acme_call empty).0 ≡ ok acme_entry
unfolding add_nat_rule add_nat_for add_nat add_port_forward find_existing_nat lookup get_tenant_id
    tenant_exists contains get_tenant count_tenant_nat_entries entry_belongs add_entry install
    on_world run_tc get_last_handle check_in_hw register after_prefix insert
answered = refl

beta-IsCaller : IsCaller beta_call "beta" empty.daemon
unfolding tenant_exists contains
beta-IsCaller = record { named = refl; given = refl; registered = refl }

beta_at : get_tenant "beta" empty.daemon.tenants ≡ some beta_config
unfolding get_tenant lookup
beta_at = refl

beta_has_none : count_tenant_nat_entries "beta" one_entry ≡ 0
unfolding add_nat_rule add_nat_for add_nat add_port_forward find_existing_nat lookup get_tenant_id
    tenant_exists contains get_tenant count_tenant_nat_entries entry_belongs add_entry install
    on_world run_tc get_last_handle check_in_hw register after_prefix insert track
beta_has_none = refl

add_nat_rule_takes_over_example :
    let (r, b) = add_nat_rule tc digest (forward web) beta_call one_entry in
    (r ≡ ok (owned_by "beta" acme_entry))
    × (lookup "nat-1" b.nat_db ≡ some (owned_by "beta" acme_entry))
    × (lookup "nat-1" b.nat_entries_db ≡ some (owned_by "beta" acme_entry))
add_nat_rule_takes_over_example =
    add_nat_rule_takes_over tc digest (forward web) acme_call beta_call empty "beta" beta_config
      acme_entry empty-Consistent fresh answered beta-IsCaller beta_at
      (rw beta_has_none (omega arith))

-- A `tc` that is missing or hangs.
abbrev hangs : Kernel Log
hangs args log = (failed, log)

cut_off : (delete_nat_rule hangs "nat-1" acme_call one_entry).0 ≡ err os_error
unfolding add_nat_rule add_nat_for add_nat add_port_forward find_existing_nat lookup get_tenant_id
    tenant_exists contains get_tenant count_tenant_nat_entries entry_belongs add_entry install
    on_world run_tc get_last_handle check_in_hw register after_prefix insert track delete_nat_rule
    delete_nat_for remove_nat
cut_off = refl

delete_nat_rule_stuck_example :
    let b = (delete_nat_rule hangs "nat-1" acme_call one_entry).1 in
    (lookup "nat-1" b.nat_entries_db ≡ lookup "nat-1" one_entry.nat_entries_db)
    × (contains "nat-1" b.nat_entries_db ≡ true)
    × (lookup "nat-1" b.nat_db ≡ none)
    × (delete_nat_rule tc "nat-1" acme_call b ≡ (err (http_error 500), b))
delete_nat_rule_stuck_example =
    delete_nat_rule_stuck hangs tc "nat-1" acme_call acme_call one_entry refl cut_off

listed : (list_nat_rules acme_call acme_has).0 ≡ ok (acme_entry ∷ [])
unfolding list_nat_rules get_tenant_id tenant_exists contains entry_belongs
listed = refl

same_route :
    add_port_forward_rule tc digest web acme_call empty
    ≡ add_nat_rule tc digest (forward web) acme_call empty
unfolding add_port_forward_rule add_snat_rule add_dnat_rule
same_route = refl
