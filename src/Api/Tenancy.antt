-- ===== src/Api/Tenancy.antt =====
-- What a NAT request may do to the tenants: the quota holds, but a live rule changes its owner.
use technicolor_haze_prism.Base.{
  allowed, ◌≡◌, refl, ◌≤◌, ◌<◌, ◌+◌, String, Bool, some, [], ◌∷◌, Dict, text_key, if◌then◌else◌, ok,
  Option-cases, inl, inr, lookup, insert, values, select, length, max, arith, lookup-insert_self,
}
use technicolor_haze_prism.Tc.{Kernel}
use technicolor_haze_prism.Tenants.{TenantConfig, get_tenant}
use technicolor_haze_prism.Nat.{NatEntry, NatState, Draw}
use technicolor_haze_prism.Nat.Operations.{find_existing_nat}
use technicolor_haze_prism.Nat.Add.{Request, request_text, add_nat, IsFresh}
use technicolor_haze_prism.Nat.Repeat.{valid-answered, answered-found, add_nat-Inv}
use technicolor_haze_prism.Nat.Invariant.{Inv}
use technicolor_haze_prism.Rules.{Call, get_tenant_id}
use technicolor_haze_prism.Rules.Outcomes.{IsCaller}
use technicolor_haze_prism.Rules.Repeat.{still_known}
use technicolor_haze_prism.Api.{
  Api, nat_part, with_nat, entry_belongs, count_tenant_nat_entries, draw_of, owned_by, track,
}
use technicolor_haze_prism.Api.Routes.{add_nat_for, add_nat_rule}
use technicolor_haze_prism.Api.Invariant.{Consistent}
use technicolor_haze_prism.Api.Outcomes.{NatAdding, add_nat_rule-NatAdding}

-- How many values of a dict pass a test, after one is stored.
select-insert-le :
    {V : Type 0} (p : V → Bool) (k : String) (v : V) (d : Dict String V)
    → length (select p (values (insert k v d)))
      ≤ length (select p (values d)) + (if p v then 1 else 0)
unfolding insert
select-insert-le p k v [] = ground (arith)
select-insert-le p k v ((l, u) ∷ d) = ground (arith, select-insert-le p k v d)

-- A NAT request, whoever makes it and however it ends, keeps every tenant within the larger of the NAT
-- quota of its registration and the number of entries it had.
add_nat_rule-quota :
    {W : Type 0} (tc : Kernel W) (digest : String → String) (q : Request) (c : Call) (a : Api W)
    (tenant_id : String) (config : TenantConfig)
    → get_tenant tenant_id a.daemon.tenants ≡ some config
    → count_tenant_nat_entries tenant_id (add_nat_rule tc digest q c a).1
      ≤ max (allowed config.max_nat_entries) (count_tenant_nat_entries tenant_id a)
unfolding count_tenant_nat_entries track entry_belongs
add_nat_rule-quota tc digest q c a tenant_id config at =
    by_adding (add_nat_rule-NatAdding tc digest q c a)
  where
    by_adding :
        NatAdding tc digest q c a (add_nat_rule tc digest q c a).0 (add_nat_rule tc digest q c a).1
        → count_tenant_nat_entries tenant_id (add_nat_rule tc digest q c a).1
          ≤ max (allowed config.max_nat_entries) (count_tenant_nat_entries tenant_id a)
    by_adding (NatAdding.refused x r same) =
        rw (count_tenant_nat_entries, same.same_entries) (ground (arith))
    by_adding (NatAdding.adds owner other entry who known room answered r t) = rw t (
        ground (
          arith,
          select-insert-le (λ e. entry_belongs tenant_id e) entry.id (owned_by owner entry)
              a.nat_entries_db,
          room,
          known,
          at,
          text_key.same_iff owner tenant_id,
        ))

pub known :
    {W : Type 0} (c : Call) (a : Api W) (tenant_id : String)
    → IsCaller c tenant_id a.daemon
    → get_tenant_id c.header a.daemon ≡ (ok tenant_id, a.daemon)
known c a tenant_id who = still_known c c a.daemon a.daemon tenant_id who refl refl

-- What nat_manager finds under a signature is, once it is given to a tenant, found as the tenant's.
found-track :
    {W : Type 0} (digest : String → String) (hash : String) (q : Request) (c : Call)
    (tenant_id : String) (entry : NatEntry) (n : NatState W) (a : Api W)
    → Inv digest n
    → find_existing_nat hash n ≡ some entry
    → find_existing_nat hash (nat_part (track q c tenant_id entry (with_nat n a)))
      ≡ some (owned_by tenant_id entry)
unfolding find_existing_nat track
found-track digest hash q c tenant_id entry n a inv f =
    elim (Option-cases (lookup hash n.signature_index)) [
      | inl free ↦ absurd (ground (arith, f, free))
      | inr (id, at) ↦ ground (
        arith,
        f,
        at,
        inv.named id entry,
        lookup-insert_self entry.id (owned_by tenant_id entry) n.nat_db,
      )
    ]

-- A valid request of a registered tenant below its quota, for a rule that is live.
take_over :
    {W : Type 0} (tc : Kernel W) (digest : String → String) (q : Request) (c : Call) (a : Api W)
    (d : Draw) (s : NatState W) (tenant_id : String) (config : TenantConfig)
    (first entry : NatEntry)
    → (add_nat tc digest q d s).0 ≡ ok first
    → find_existing_nat (digest (request_text q)) (nat_part a) ≡ some entry
    → IsCaller c tenant_id a.daemon
    → get_tenant tenant_id a.daemon.tenants ≡ some config
    → count_tenant_nat_entries tenant_id a < allowed config.max_nat_entries
    → let (r, b) = add_nat_rule tc digest q c a in
      (r ≡ ok (owned_by tenant_id entry))
      × (lookup entry.id b.nat_db ≡ some (owned_by tenant_id entry))
      × (lookup entry.id b.nat_entries_db ≡ some (owned_by tenant_id entry))
unfolding add_nat_rule add_nat_for track
take_over tc digest q c a d s tenant_id config first entry before live who at room =
    let again = valid-answered tc digest q d (draw_of c) s (nat_part a) first entry before live in
    let caller_known = known c a tenant_id who in
    (
      ground (arith, caller_known, at, room, again),
      ground (
        arith,
        caller_known,
        at,
        room,
        again,
        lookup-insert_self entry.id (owned_by tenant_id entry) a.nat_db,
      ),
      ground (
        arith,
        caller_known,
        at,
        room,
        again,
        lookup-insert_self entry.id (owned_by tenant_id entry) a.nat_entries_db,
      ),
    )

-- Where a tenant's NAT request was answered with an entry, in a consistent state and with a fresh uuid,
-- and any registered tenant that is then below its NAT quota makes the same request after it, the
-- second call is answered with that entry as the second tenant's, and the rule, though the first
-- tenant's, is stored as the second tenant's in both dicts.
pub add_nat_rule_takes_over :
    {W : Type 0} (tc : Kernel W) (digest : String → String) (q : Request) (c d : Call) (a : Api W)
    (tenant_id : String) (config : TenantConfig) (entry : NatEntry)
    → Consistent digest a
    → IsFresh tc digest (draw_of c) (nat_part a)
    → (add_nat_rule tc digest q c a).0 ≡ ok entry
    → IsCaller d tenant_id a.daemon
    → get_tenant tenant_id a.daemon.tenants ≡ some config
    → count_tenant_nat_entries tenant_id (add_nat_rule tc digest q c a).1
      < allowed config.max_nat_entries
    → let (r, b) = add_nat_rule tc digest q d (add_nat_rule tc digest q c a).1 in
      (r ≡ ok (owned_by tenant_id entry))
      × (lookup entry.id b.nat_db ≡ some (owned_by tenant_id entry))
      × (lookup entry.id b.nat_entries_db ≡ some (owned_by tenant_id entry))
unfolding track
add_nat_rule_takes_over {W = W} tc digest q c d a tenant_id config entry good fresh answer who at
      room =
    by_adding (add_nat_rule-NatAdding tc digest q c a)
  where
    by_adding :
        NatAdding tc digest q c a (add_nat_rule tc digest q c a).0 (add_nat_rule tc digest q c a).1
        → let (r, b) = add_nat_rule tc digest q d (add_nat_rule tc digest q c a).1 in
          (r ≡ ok (owned_by tenant_id entry))
          × (lookup entry.id b.nat_db ≡ some (owned_by tenant_id entry))
          × (lookup entry.id b.nat_entries_db ≡ some (owned_by tenant_id entry))
    by_adding (NatAdding.refused x r same) = absurd (cc)
    by_adding (NatAdding.adds owner other base by below left answered r t) =
        let n = (add_nat tc digest q (draw_of c) (nat_part a)).1 in
        let b = (add_nat_rule tc digest q c a).1 in
        let same_tenants : b.daemon.tenants ≡ a.daemon.tenants = (rw t refl) in
        let is_entry : entry ≡ owned_by owner base = ground (arith, r, answer) in
        let inv = add_nat-Inv tc digest q (draw_of c) (nat_part a) good.nat_Inv fresh in
        let found : find_existing_nat (digest (request_text q)) (nat_part b) ≡ some entry =
          (rw (t, is_entry)
            (found-track digest (digest (request_text q)) q c owner base n a inv
              (answered-found tc digest q (draw_of c) (nat_part a) base fresh.1 answered))) in
        take_over tc digest q d b (draw_of c) (nat_part a) tenant_id config base entry answered
          found
          (record {
            named = who.named;
            given = who.given;
            registered = (rw same_tenants who.registered);
          })
          (rw same_tenants at) room
