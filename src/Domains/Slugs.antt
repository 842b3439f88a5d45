-- ===== src/Domains/Slugs.antt =====
-- src/lib/tenancy/resolve.ts over the table that src/lib/domains/service.ts writes: the addresses of
-- slugs.
use lamp_light.Base.{◌≡◌, true, List, [], ◌∷◌, ◌++◌, ◌≢◌, map, All}
use lamp_light.Base.Text.{Text, codes, CaseMap}
use lamp_light.Tenancy.Host.{dotted, apex_name, is_valid_slug}
use lamp_light.Tenancy.Resolve.{
  Tenant, Directory, TenantCache, empty_cache, lookup_tenant_by_slug, lookup_uncached,
}
use lamp_light.Tenancy.Resolve.Sources.{Claimed, lookup_uncached-slug}
use lamp_light.Domains.Rows.{TenantDomain, to_directory_row, Registry}
use lamp_light.Domains.Claimed.{Operation, Circumstances, operated, IsClaimed, operated-AllClaimed}

-- The directory that host resolution reads, over the table.
abbrev pub directory : List Tenant → Registry → Directory
directory tenants reg = record { tenants = tenants; domains = map to_directory_row reg.domains }

abbrev pub new_registry : TenantCache → Registry
new_registry cache = record { domains = []; audit = []; cache = cache }

module _ (cm : CaseMap) (root : Text) where
  All-directory :
      (ds : List TenantDomain)
      → All (IsClaimed cm root) ds
      → All (Claimed cm (directory [] (new_registry empty_cache)) root) (map to_directory_row ds)
  All-directory [] h = tt
  All-directory (d ∷ ds) (h, k) = (h, All-directory ds k)

  -- Where subdomains hang under the apex that claims are checked against, no sequence of domain
  -- operations by any institutes, from an empty table and whatever the provider answers, changes who
  -- answers at the address of a valid slug other than `www`: it is the active institute with that slug.
  pub lookup_uncached-operated :
      (os : List (Circumstances × Operation)) (cache : TenantCache) (tenants : List Tenant)
      (slug : Text)
      → is_valid_slug slug ≡ true
      → slug ≢ codes "www"
      → lookup_uncached cm
          (directory tenants (operated cm root os (new_registry cache)))
          (slug ++ dotted (apex_name cm root))
          root
        ≡ lookup_tenant_by_slug (directory tenants (new_registry cache)) slug
  unfolding lookup_tenant_by_slug
  lookup_uncached-operated os cache tenants slug v w =
      let reg = operated cm root os (new_registry cache) in
      lookup_uncached-slug cm (directory tenants reg) root slug v w
        (All-directory reg.domains (operated-AllClaimed cm root os _ tt))
