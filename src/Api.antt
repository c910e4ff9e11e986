-- ===== src/Api.antt =====
-- tc-firewall/src/main.py: the NAT routes and the deletion of a tenant, where the rules of main.py and
-- those of nat_manager.py meet. An entry of `nat_entries_db` is the object that `nat_db` holds, so a
-- tenant that is written into it is written into both dicts.
pub mod Routes
pub mod Loops
pub mod Outcomes
pub mod Deleting
pub mod Invariant
pub mod Tenancy
pub mod Stuck
pub mod Teardown
pub mod History
pub mod Within
pub mod Shrinking
pub mod Usage
pub mod Counts
pub mod Quotas
pub mod Reports
mod Tests
use technicolor_haze_prism.Base.{
  ℕ, String, Bool, true, false, Option, none, some, List, [], ◌∷◌, Dict, text_key, if◌then◌else◌,
  ◌==◌, Action, Result, ok, err, insert, lookup, values, select, length, stale_keys,
}
use technicolor_haze_prism.Tc.{Kernel}
use technicolor_haze_prism.Snat.{SnatState}
use technicolor_haze_prism.Nat.{NatEntry, NatState, Target, Draw}
use technicolor_haze_prism.Nat.Add.{Request, snat, dnat, forward}
use technicolor_haze_prism.Audit.{Details, text, number, log_nat_created}
use technicolor_haze_prism.Rules.{Daemon, Call}

pub record Api (W : Type 0) : Type 0 where
  pub daemon : Daemon W
  pub nat_db : Dict String NatEntry
  pub signature_index : Dict String String
  pub snat_state : SnatState
  pub nat_entries_db : Dict String NatEntry

-- What nat_manager.py sees of the state.
abbrev pub nat_part : {W : Type 0} → Api W → NatState W
nat_part a = record {
  world = a.daemon.world;
  nat_db = a.nat_db;
  signature_index = a.signature_index;
  snat = a.snat_state;
}

abbrev pub with_nat : {W : Type 0} → NatState W → Api W → Api W
with_nat n a = record {
  daemon = record a.daemon { world = n.world };
  nat_db = n.nat_db;
  signature_index = n.signature_index;
  snat_state = n.snat;
  nat_entries_db = a.nat_entries_db;
}

-- `entry.tenant_id == tenant_id`
unfoldable pub entry_belongs : String → NatEntry → Bool
entry_belongs tenant_id e = elim e.tenant_id [ none ↦ false | some owner ↦ owner == tenant_id ]

unfoldable pub count_tenant_nat_entries : {W : Type 0} → String → Api W → ℕ
unfolding entry_belongs
count_tenant_nat_entries tenant_id a =
    length (select (λ e. entry_belongs tenant_id e) (values a.nat_entries_db))

-- `[nid for nid, entry in nat_entries_db.items() if entry.tenant_id == tenant_id]`
unfoldable pub owned_nat_ids : {W : Type 0} → String → Api W → List String
unfolding stale_keys
owned_nat_ids tenant_id a = stale_keys (λ e. entry_belongs tenant_id e) a.nat_entries_db

abbrev pub draw_of : Call → Draw
draw_of c = record { id = c.id; time = c.time }

abbrev pub request_type : Request → String
request_type (snat private_ip public_ip mode) = "snat"
request_type (dnat t) = "dnat"
request_type (forward t) = "forward"

target_details : Target → Details
target_details t =
    ("public_ip", text t.public_ip)
    ∷ ("public_port", number t.public_port)
    ∷ ("private_ip", text t.private_ip)
    ∷ ("private_port", number t.private_port)
    ∷ ("protocol", text t.protocol)
    ∷ []

unfoldable pub request_details : Request → Details
unfolding target_details
request_details (snat private_ip public_ip mode) =
    ("private_ip", text private_ip) ∷ ("public_ip", text public_ip) ∷ []
request_details (dnat t) = target_details t
request_details (forward t) = target_details t

-- `entry.tenant_id = tenant_id`
abbrev pub owned_by : String → NatEntry → NatEntry
owned_by tenant_id e = record e { tenant_id = some tenant_id }

-- The entry that was added or found is given to the tenant, kept in `nat_entries_db`, and logged.
unfoldable pub track : {W : Type 0} → Request → Call → String → NatEntry → Api W → Api W
track q c tenant_id entry a = record a {
  daemon = record a.daemon {
    audit =
        (log_nat_created (request_type q) entry.id (request_details q) c.source_ip c.timestamp
          a.daemon.audit).1;
  };
  nat_db = insert entry.id (owned_by tenant_id entry) a.nat_db;
  nat_entries_db = insert entry.id (owned_by tenant_id entry) a.nat_entries_db;
}
