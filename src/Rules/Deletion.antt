-- ===== src/Rules/Deletion.antt =====
-- What a deletion request leaves of the rules and of the two indexes, whatever the outcome.
use technicolor_haze_prism.Base.{
  ◌≡◌, refl, String, true, false, none, some, Option, text_key, if◌then◌else◌, ◌==◌, Result, ok,
  err, Exn, lookup, IsDict, arith, lookup-erase, lookup-drop_where,
}
use technicolor_haze_prism.Tc.{Kernel}
use technicolor_haze_prism.Rules.{Daemon, Call, FirewallRule, belongs, unstore}
use technicolor_haze_prism.Rules.Routes.{delete_rule}
use technicolor_haze_prism.Rules.Outcomes.{Deleting, SameRules, IsCaller, delete_rule-Deleting}

-- An index without the entries that lead to an id.
abbrev pub without : String → Option String → Option String
without id none = none
without id (some found) = if found == id then none else some found

-- A rule is gone, every other rule is there, and no entry of an index leads to it.
pub record Unstored {W : Type 0} (rule_id : String) (s t : Daemon W) : Type 0 where
  pub gone : lookup rule_id t.rules_db ≡ none
  pub others : (id : String) → (id == rule_id) ≡ false → lookup id t.rules_db ≡ lookup id s.rules_db
  pub signatures :
      (hash : String)
      → lookup hash t.rule_signature_index ≡ without rule_id (lookup hash s.rule_signature_index)
  pub keys :
      (key : String)
      → lookup key t.idempotency_key_index ≡ without rule_id (lookup key s.idempotency_key_index)
  pub tenants : t.tenants ≡ s.tenants

pub data Deletion {W : Type 0} (rule_id : String) (c : Call) (s : Daemon W) (a : Result (Unit {0}))
    (t : Daemon W) : Type 0 where
  refused : (x : Exn) → a ≡ err x → SameRules s t → Deletion rule_id c s a t
  deletes :
      (tenant_id : String) (rule : FirewallRule)
      → IsCaller c tenant_id s
      → lookup rule_id s.rules_db ≡ some rule
      → belongs tenant_id rule ≡ true
      → a ≡ ok tt
      → Unstored rule_id s t
      → Deletion rule_id c s a t

unstore-Unstored :
    {W : Type 0} (rule_id : String) (c : Call) (s : Daemon W) (w : W)
    → IsDict s.rule_signature_index
    → IsDict s.idempotency_key_index
    → Unstored rule_id s (unstore rule_id c (record s { world = w }))
unfolding unstore
unstore-Unstored rule_id c s w once_signature once_key = record {
  gone = ground (arith, lookup-erase rule_id rule_id s.rules_db, text_key.same_iff rule_id rule_id);
  others = λ id h. ground (
    arith,
    h,
    lookup-erase rule_id id s.rules_db,
    text_key.same_iff rule_id id,
    text_key.same_iff id rule_id,
  );
  signatures = λ hash.
      ground
        (arith, lookup-drop_where (λ id. id == rule_id) hash s.rule_signature_index once_signature);
  keys = λ key.
      ground (arith, lookup-drop_where (λ id. id == rule_id) key s.idempotency_key_index once_key);
  tenants = refl;
}

pub delete_rule-Deletion :
    {W : Type 0} (tc : Kernel W) (rule_id : String) (c : Call) (s : Daemon W)
    → IsDict s.rule_signature_index
    → IsDict s.idempotency_key_index
    → let (a, t) = delete_rule tc rule_id c s in Deletion rule_id c s a t
delete_rule-Deletion tc rule_id c s once_signature once_key =
    by_deleting (delete_rule-Deleting tc rule_id c s)
  where
    by_deleting :
        Deleting rule_id c s (delete_rule tc rule_id c s).0 (delete_rule tc rule_id c s).1
        → Deletion rule_id c s (delete_rule tc rule_id c s).0 (delete_rule tc rule_id c s).1
    by_deleting (Deleting.refused x a same) = refused x a same
    by_deleting (Deleting.deletes tenant_id rule w who at own a t) =
        deletes tenant_id rule who at own a
          (rw t (unstore-Unstored rule_id c s w once_signature once_key))
