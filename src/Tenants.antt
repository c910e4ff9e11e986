-- ===== src/Tenants.antt =====
-- tc-firewall/src/tenants.py: the registry of tenants, a dict by tenant id.
mod Tests
use Prim.Native.String.{◌++◌}
use technicolor_haze_prism.Base.{
  ℕ, ℤ, ◌≡◌, refl, ap, String, Bool, true, false, Option, none, some, List, [], ◌∷◌, Dict, text_key,
  if◌then◌else◌, ◌==◌, Action, Result, ok, err, value_error, lookup, contains, insert, erase,
  values, IsDict, lookup-insert, lookup-erase, contains-lookup, insert-IsDict, erase-IsDict,
  is_some, arith, Bool-cases, inl, inr,
}

pub record TenantConfig : Type 0 where
  pub tenant_id : String
  pub public_ips : List String
  pub max_rules : ℤ
  pub max_nat_entries : ℤ
  pub created_at : ℕ

-- `TenantManager._tenants`
abbrev pub Tenants : Type 0
Tenants = Dict String TenantConfig

-- `public_ips or []`
abbrev pub given_ips : Option (List String) → List String
given_ips none = []
given_ips (some ips) = ips

abbrev pub config_of : String → Option (List String) → ℤ → ℤ → ℕ → TenantConfig
config_of tenant_id public_ips max_rules max_nat_entries now = record {
  tenant_id = tenant_id;
  public_ips = given_ips public_ips;
  max_rules = max_rules;
  max_nat_entries = max_nat_entries;
  created_at = now;
}

unfoldable pub register_tenant :
    String → Option (List String) → ℤ → ℤ → ℕ → Action Tenants TenantConfig
register_tenant tenant_id public_ips max_rules max_nat_entries now s =
    if contains tenant_id s
    then (err (value_error ("Tenant '" ++ (tenant_id ++ "' already exists"))), s)
    else (
      ok (config_of tenant_id public_ips max_rules max_nat_entries now),
      insert tenant_id (config_of tenant_id public_ips max_rules max_nat_entries now) s,
    )

unfoldable pub get_tenant : String → Tenants → Option TenantConfig
get_tenant tenant_id s = lookup tenant_id s

unfoldable pub list_tenants : Tenants → List TenantConfig
list_tenants s = values s

unfoldable pub delete_tenant : String → Action Tenants Bool
delete_tenant tenant_id s =
    if contains tenant_id s then (ok true, erase tenant_id s) else (ok false, s)

unfoldable pub tenant_exists : String → Tenants → Bool
tenant_exists tenant_id s = contains tenant_id s

-- One change of the registry.
pub data Change : Type 0 where
  register : String → Option (List String) → ℤ → ℤ → ℕ → Change
  delete : String → Change

unfoldable pub change : Change → Tenants → Tenants
change (register id ips rules nat now) s = (register_tenant id ips rules nat now s).1
change (delete id) s = (delete_tenant id s).1

-- What a client sees of the registry: who is registered, and with what.
unfoldable pub view : Tenants → String → Option TenantConfig
view s id = get_tenant id s

-- The registry as it is promised: a map from ids, where a registration fills a free id only and a
-- deletion frees an id.
unfoldable pub change_view : Change → (String → Option TenantConfig) → String → Option TenantConfig
change_view (register id ips rules nat now) f other =
    if is_some (f id)
    then f other
    else if id == other
    then some (config_of id ips rules nat now)
    else f other
change_view (delete id) f other = if id == other then none else f other

-- Every change of the registry is the change of the map, at every id.
pub change-change_view :
    (c : Change) (s : Tenants) (id : String) → view (change c s) id ≡ change_view c (view s) id
unfolding view change change_view register_tenant delete_tenant get_tenant
change-change_view (register id ips rules nat now) s other = ground (
  arith,
  contains-lookup id s,
  lookup-insert id other (config_of id ips rules nat now) s,
  text_key.same_iff id other,
)
change-change_view (delete id) s other =
    ground (arith, contains-lookup id s, lookup-erase id other s, text_key.same_iff id other)

-- Each tenant is listed once, under its own id.
pub record Inv (s : Tenants) : Type 0 where
  pub unique : IsDict s
  pub named : (id : String) (c : TenantConfig) → lookup id s ≡ some c → c.tenant_id ≡ id

-- Every change keeps the ids unique and each configuration under its own id.
pub change-Inv : (c : Change) (s : Tenants) → Inv s → Inv (change c s)
unfolding change register_tenant delete_tenant
change-Inv (register id ips rules nat now) s inv = elim (Bool-cases (contains id s)) [
  | inl taken ↦ rw (change, register_tenant, taken) inv
  | inr free ↦
      rw (change, register_tenant, free)
        (record {
          unique = insert-IsDict id (config_of id ips rules nat now) s inv.unique;
          named = λ other c h. ground (
            arith,
            lookup-insert id other (config_of id ips rules nat now) s,
            text_key.same_iff id other,
            inv.named other c,
          );
        })
]
change-Inv (delete id) s inv = elim (Bool-cases (contains id s)) [
  | inr unknown ↦ rw (change, delete_tenant, unknown) inv
  | inl known ↦
      rw (change, delete_tenant, known)
        (record {
          unique = erase-IsDict id s inv.unique;
          named = λ other c h. ground (arith, lookup-erase id other s, inv.named other c);
        })
]
