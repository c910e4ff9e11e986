-- ===== src/Api/History.antt =====
-- The states that the routes of the daemon reach, in any order, with any answers of the kernel.
use technicolor_haze_prism.Base.{
  ℤ, ℕ, String, Option, List, [], text_key, lookup, IsDict, arith, lookup-erase, erase_all-IsDict,
  erase-IsDict, insert-IsDict,
}
use technicolor_haze_prism.Tc.{Kernel}
use technicolor_haze_prism.Nat.Operations.{remove_nat}
use technicolor_haze_prism.Nat.Add.{Request, IsFresh}
use technicolor_haze_prism.Nat.Remove.{remove_nat-Inv}
use technicolor_haze_prism.Snat.{SnatState}
use technicolor_haze_prism.Tenants.{register_tenant}
use technicolor_haze_prism.Rules.{Daemon, Call, FirewallRuleRequest, rule_of, store, unstore}
use technicolor_haze_prism.Rules.Routes.{add_rule, delete_rule, flush_rules, flush_for}
use technicolor_haze_prism.Rules.Outcomes.{
  Adding, Deleting, add_rule-Adding, delete_rule-Deleting, caller,
}
use technicolor_haze_prism.Rules.Flush.{flush_for-rules}
use technicolor_haze_prism.Api.{Api, nat_part, with_nat, draw_of, owned_nat_ids}
use technicolor_haze_prism.Api.Routes.{
  on_daemon, add_nat_rule, delete_nat_rule, flush_nat_rules, flush_nat_for, delete_tenant,
  remove_nat_each,
}
use technicolor_haze_prism.Api.Outcomes.{api_caller}
use technicolor_haze_prism.Api.Deleting.{NatDeleting, delete_nat_rule-NatDeleting}
use technicolor_haze_prism.Api.Loops.{lookup-remove_nat}
use technicolor_haze_prism.Api.Invariant.{Consistent, add_nat_rule-Consistent}
use technicolor_haze_prism.Api.Teardown.{
  daemon-Consistent, each-Consistent, delete_tenant-Consistent,
}

add_rule-IsDict :
    {W : Type 0} (tc : Kernel W) (digest : String → String) (r : FirewallRuleRequest) (c : Call)
    (s : Daemon W)
    → IsDict s.rules_db
    → IsDict (add_rule tc digest r c s).1.rules_db
unfolding store
add_rule-IsDict tc digest r c s unique = by_adding (add_rule-Adding tc digest r c s)
  where
    by_adding :
        Adding digest r c s (add_rule tc digest r c s).0 (add_rule tc digest r c s).1
        → IsDict (add_rule tc digest r c s).1.rules_db
    by_adding (Adding.refused x a same) = rw same.same_rules unique
    by_adding (Adding.existing owner rule who found a t) = rw t unique
    by_adding (Adding.adds owner config p w who known room new a t) =
        rw t (insert-IsDict c.id (rule_of owner r c p) s.rules_db unique)

delete_rule-IsDict :
    {W : Type 0} (tc : Kernel W) (rule_id : String) (c : Call) (s : Daemon W)
    → IsDict s.rules_db
    → IsDict (delete_rule tc rule_id c s).1.rules_db
unfolding unstore
delete_rule-IsDict tc rule_id c s unique = by_deleting (delete_rule-Deleting tc rule_id c s)
  where
    by_deleting :
        Deleting rule_id c s (delete_rule tc rule_id c s).0 (delete_rule tc rule_id c s).1
        → IsDict (delete_rule tc rule_id c s).1.rules_db
    by_deleting (Deleting.refused x a same) = rw same.same_rules unique
    by_deleting (Deleting.deletes owner rule w who found own a t) =
        rw t (erase-IsDict rule_id s.rules_db unique)

flush_rules-IsDict :
    {W : Type 0} (tc : Kernel W) (c : Call) (s : Daemon W)
    → IsDict s.rules_db
    → IsDict (flush_rules tc c s).1.rules_db
unfolding flush_rules
flush_rules-IsDict tc c s unique =
    caller c s (λ tenant_id. flush_for tc tenant_id c) (λ r t. IsDict t.rules_db) (λ x. unique)
      (λ tenant_id who.
        let (gone, left) = flush_for-rules tc tenant_id c s unique in
        rw left (erase_all-IsDict gone s.rules_db unique))

module _ {W : Type 0} (tc : Kernel W) (digest : String → String) where
  -- A removal, with the entry taken out of main.py's dict or left in it.
  removed-Consistent :
      (id : String) (a : Api W)
      → Consistent digest a
      → Consistent digest (with_nat (remove_nat tc id (nat_part a)).1 a)
  removed-Consistent id a good = record {
    nat_Inv = remove_nat-Inv tc digest id (nat_part a) good.nat_Inv;
    tracked = λ other e h.
        ground (arith, h, lookup-remove_nat tc id other (nat_part a), good.tracked other e);
    unique_rules = good.unique_rules;
    unique_entries = good.unique_entries;
  }

  delete_nat_rule-Consistent :
      (rule_id : String) (c : Call) (a : Api W)
      → Consistent digest a
      → Consistent digest (delete_nat_rule tc rule_id c a).1
  delete_nat_rule-Consistent rule_id c a good =
      by_deleting (delete_nat_rule-NatDeleting tc rule_id c a)
    where
      by_deleting :
          NatDeleting tc rule_id c a
            (delete_nat_rule tc rule_id c a).0
            (delete_nat_rule tc rule_id c a).1
          → Consistent digest (delete_nat_rule tc rule_id c a).1
      by_deleting (NatDeleting.refused x r t) = rw t good
      by_deleting (NatDeleting.halfway tenant_id entry x own r t) =
          rw t (removed-Consistent rule_id a good)
      by_deleting (NatDeleting.deletes tenant_id entry own r t) = rw t (record {
        nat_Inv = remove_nat-Inv tc digest rule_id (nat_part a) good.nat_Inv;
        tracked = λ other e h. ground (
          arith,
          h,
          lookup-remove_nat tc rule_id other (nat_part a),
          good.tracked other e,
          lookup-erase rule_id other a.nat_entries_db,
        );
        unique_rules = good.unique_rules;
        unique_entries = erase-IsDict rule_id a.nat_entries_db good.unique_entries;
      })

  flush_nat_rules-Consistent :
      (c : Call) (a : Api W) → Consistent digest a → Consistent digest (flush_nat_rules tc c a).1
  unfolding flush_nat_rules flush_nat_for
  flush_nat_rules-Consistent c a good =
      api_caller c a (λ tenant_id. flush_nat_for tc tenant_id c) (λ r b. Consistent digest b)
        (λ x. good)
        (λ tenant_id who.
          let b = remove_nat_each tc (owned_nat_ids tenant_id a) a in
          let good_b = each-Consistent tc tenant_id digest (owned_nat_ids tenant_id a) a good in
          daemon-Consistent tc tenant_id digest b (record b.daemon { audit = _ })
            good_b.unique_rules good_b)

  -- One route, a registration, or anything that happens in the world between two of them.
  pub data Step (a : Api W) : Api W → Type 0 where
    adding_nat :
        (q : Request) (c : Call)
        → IsFresh tc digest (draw_of c) (nat_part a)
        → Step a (add_nat_rule tc digest q c a).1
    deleting_nat : (rule_id : String) (c : Call) → Step a (delete_nat_rule tc rule_id c a).1
    flushing_nat : (c : Call) → Step a (flush_nat_rules tc c a).1
    adding_rule :
        (r : FirewallRuleRequest) (c : Call) → Step a (on_daemon (add_rule tc digest r c) a).1
    deleting_rule :
        (rule_id : String) (c : Call) → Step a (on_daemon (delete_rule tc rule_id c) a).1
    flushing_rules : (c : Call) → Step a (on_daemon (flush_rules tc c) a).1
    deleting_tenant : (tenant_id : String) → Step a (delete_tenant tc tenant_id a).1
    registering :
        (tenant_id : String) (public_ips : Option (List String)) (max_rules max_nat_entries : ℤ)
        (now : ℕ)
        → Step a (record a {
          daemon = record a.daemon {
            tenants =
                (register_tenant tenant_id public_ips max_rules max_nat_entries now
                  a.daemon.tenants).1;
          };
        })
    elsewhere : (w : W) → Step a (record a { daemon = record a.daemon { world = w } })

  pub data Reaches (a : Api W) : Api W → Type 0 where
    here : Reaches a a
    then_step : {b e : Api W} → Reaches a b → Step b e → Reaches a e

  Step-Consistent : {a b : Api W} → Step a b → Consistent digest a → Consistent digest b
  Step-Consistent {a = a} (adding_nat q c fresh) good =
      add_nat_rule-Consistent tc digest q c a good fresh
  Step-Consistent {a = a} (deleting_nat rule_id c) good =
      delete_nat_rule-Consistent rule_id c a good
  Step-Consistent {a = a} (flushing_nat c) good = flush_nat_rules-Consistent c a good
  Step-Consistent {a = a} (adding_rule r c) good =
      daemon-Consistent tc "" digest a _ (add_rule-IsDict tc digest r c a.daemon good.unique_rules)
        good
  Step-Consistent {a = a} (deleting_rule rule_id c) good =
      daemon-Consistent tc "" digest a _
        (delete_rule-IsDict tc rule_id c a.daemon good.unique_rules) good
  Step-Consistent {a = a} (flushing_rules c) good =
      daemon-Consistent tc "" digest a _ (flush_rules-IsDict tc c a.daemon good.unique_rules) good
  Step-Consistent {a = a} (deleting_tenant tenant_id) good =
      delete_tenant-Consistent tc tenant_id digest a good
  Step-Consistent {a = a} (registering tenant_id public_ips max_rules max_nat_entries now) good =
      daemon-Consistent tc "" digest a _ good.unique_rules good
  Step-Consistent {a = a} (elsewhere w) good =
      daemon-Consistent tc "" digest a _ good.unique_rules good

  pub Reaches-Consistent : {a b : Api W} → Reaches a b → Consistent digest a → Consistent digest b
  Reaches-Consistent here good = good
  Reaches-Consistent (then_step path step) good =
      Step-Consistent step (Reaches-Consistent path good)

-- The daemon as it starts: no rule of either kind.
abbrev pub started : {W : Type 0} → Daemon W → SnatState → Api W
started d ports = record {
  daemon = record d { rules_db = []; rule_signature_index = []; idempotency_key_index = [] };
  nat_db = [];
  signature_index = [];
  snat_state = ports;
  nat_entries_db = [];
}

pub start-Consistent :
    {W : Type 0} (digest : String → String) (d : Daemon W) (ports : SnatState)
    → Consistent digest (started d ports)
unfolding lookup
start-Consistent digest d ports = record {
  nat_Inv = record {
    named = λ id e h. absurd (ground (arith, h));
    indexed = λ id e h. absurd (ground (arith, h));
    live = λ hash id h. absurd (ground (arith, h));
    unique = tt;
    unique_hashes = tt;
  };
  tracked = λ id e h. absurd (ground (arith, h));
  unique_rules = tt;
  unique_entries = tt;
}

-- In every state that the routes of rules, NAT and tenants reach from the start, whatever the kernel
-- answers and however the world changes between the calls, every rule that nat_manager holds is an
-- entry that main.py holds, the NAT rules and their index are inverse to one another, and each id
-- stands once. Each NAT request draws a uuid that is not empty and that no live NAT rule has.
pub Reaches-started :
    {W : Type 0} (tc : Kernel W) (digest : String → String) (d : Daemon W) (ports : SnatState)
    (b : Api W)
    → Reaches tc digest (started d ports) b
    → Consistent digest b
Reaches-started tc digest d ports b path =
    Reaches-Consistent tc digest path (start-Consistent digest d ports)
