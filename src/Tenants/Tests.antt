-- ===== src/Tenants/Tests.antt =====
-- Witnesses and runs of the tenant registry.
use technicolor_haze_prism.Base.{
  pos, ◌≡◌, refl, false, none, some, [], ◌∷◌, text_key, err, value_error, contains, insert, erase,
}
use technicolor_haze_prism.Tenants.{
  Tenants, config_of, register_tenant, delete_tenant, list_tenants, tenant_exists, delete, change,
  view, change_view, change-change_view,
}

abbrev one_tenant : Tenants
one_tenant = ("acme", config_of "acme" (some ("203.0.113.1" ∷ [])) (pos 100) (pos 50) 7) ∷ []

change-change_view_example :
    view (change (delete "acme") one_tenant) "acme"
    ≡ change_view (delete "acme") (view one_tenant) "acme"
change-change_view_example = change-change_view (delete "acme") one_tenant "acme"

twice :
    (register_tenant "acme" none (pos 1) (pos 1) 8 one_tenant).0
    ≡ err (value_error "Tenant 'acme' already exists")
unfolding register_tenant contains
twice = refl

listed :
    list_tenants (register_tenant "beta" none (pos 1) (pos 2) 8 one_tenant).1
    ≡ config_of "acme" (some ("203.0.113.1" ∷ [])) (pos 100) (pos 50) 7
      ∷ config_of "beta" none (pos 1) (pos 2) 8
      ∷ []
unfolding register_tenant list_tenants contains insert
listed = refl

gone : tenant_exists "acme" (delete_tenant "acme" one_tenant).1 ≡ false
unfolding tenant_exists delete_tenant contains erase
gone = refl
