-- ===== src/Tests/Domains.antt =====
-- Runs of src/lib/domains.
use lamp_light.Base.{
  ◌≡◌, refl, true, false, ◌&&◌, Option, none, some, List, [], ◌∷◌, ◌++◌, any, find, if◌then◌else◌,
}
use lamp_light.Base.Text.{
  Text, codes, ◌==◌, trim, trim_start, trim_end, is_space, ascii_case_map, starts_with, ends_with,
  index_of, includes, split,
}
use lamp_light.Tenancy.Host.{
  ok, normalize_host, normalize_name, normalize_v6, strip_port, strip_dot, check_host,
  claimable_hostname, claim_normal, claim_shape, apex_name, dotted, is_valid_slug,
}
use lamp_light.Tenancy.Resolve.{
  VerificationStatus, Tenant, TenantStatus, TenantContext, is_live, empty_cache, context,
  lookup_uncached, lookup_tenant_by_slug, resolve_host,
}
use lamp_light.Domains.Rows.{
  CustomHostname, answered, CustomHostnameClient, TenantDomain, is_active, Registry, find_domain,
}
use lamp_light.Domains.Service.{
  refresh_domain, refresh_all_domains, sweep_domains, set_primary_domain, primary_redirect_for,
}
use lamp_light.Domains.Claims.{is_unlinked, sweep_domains-unreleased}
use lamp_light.Domains.Claimed.{Operation, attach, refresh, choose_primary, Circumstances, operated}
use lamp_light.Domains.Slugs.{directory, new_registry, lookup_uncached-operated}
use lamp_light.Domains.Primary.{sent_to, primary_redirect_for-set_primary_domain}
use lamp_light.Domains.Serving.{is_rival, resolve_host-refresh_domain}

abbrev root : Text
root = codes "lamp.example"

abbrev school : Text
school = codes "i1"

abbrev tenant : Tenant
tenant = record {
  id = school;
  slug = codes "school";
  name = codes "School";
  status = TenantStatus.active;
}

abbrev hostname_as : VerificationStatus → CustomHostname
hostname_as status = record {
  id = codes "c1";
  hostname = codes "school.example";
  status = status;
  records = [];
  message = none;
}

abbrev client_saying : VerificationStatus → CustomHostnameClient
client_saying status = record {
  create = λ hostname. answered (hostname_as status);
  get = λ id. answered (hostname_as status);
  remove = λ id. answered tt;
}

-- A claim that lapsed at 10.
abbrev row : VerificationStatus → TenantDomain
row status = record {
  tenant_id = school;
  id = codes "d1";
  hostname = codes "school.example";
  is_primary = false;
  verification_status = status;
  cf_hostname_id = some (codes "c1");
  dns_records = [];
  claim_expires_at = some 10;
  last_error = none;
  verified_at = none;
  created_at = 1;
}

abbrev registry : VerificationStatus → Registry
registry status = record { domains = row status ∷ []; audit = []; cache = empty_cache }

linked :
    any
      (is_unlinked ascii_case_map root (client_saying VerificationStatus.pending) 100 school)
      (registry VerificationStatus.pending).domains
    ≡ false
unfolding ◌==◌
linked = refl

sweep_domains-unreleased_example :
    sweep_domains ascii_case_map root true
      (client_saying VerificationStatus.pending)
      100
      school
      (registry VerificationStatus.pending)
    ≡ (
      some 0,
      (refresh_all_domains ascii_case_map root true
          (client_saying VerificationStatus.pending)
          100
          school
          (registry VerificationStatus.pending)).1,
    )
sweep_domains-unreleased_example =
    sweep_domains-unreleased ascii_case_map root (client_saying VerificationStatus.pending) 100
      school (λ cf. hostname_as VerificationStatus.pending) (λ cf. refl)
      (registry VerificationStatus.pending) linked

live : Circumstances
live = record { configured = true; client = client_saying VerificationStatus.active; now = 100 }

abbrev calls : List (Circumstances × Operation)
calls =
    (
      live,
      attach school (codes "school.lamp.example")
          (record { id = some (codes "d1"); created_at = 1 }),
    )
    ∷ (
      live,
      attach school (codes "school.example") (record { id = some (codes "d2"); created_at = 2 }),
    )
    ∷ (live, refresh school (codes "d2"))
    ∷ (live, choose_primary school (codes "d2"))
    ∷ []

lookup_uncached-operated_example :
    lookup_uncached ascii_case_map
      (directory (tenant ∷ []) (operated ascii_case_map root calls (new_registry empty_cache)))
      (codes "school" ++ dotted (apex_name ascii_case_map root))
      root
    ≡ lookup_tenant_by_slug (directory (tenant ∷ []) (new_registry empty_cache)) (codes "school")
unfolding is_valid_slug
lookup_uncached-operated_example =
    lookup_uncached-operated ascii_case_map root calls empty_cache (tenant ∷ []) (codes "school")
      refl (λ e. cc)

chosen :
    (set_primary_domain ascii_case_map school (codes "d1") (registry VerificationStatus.active)).0
    ≡ true
unfolding set_primary_domain find_domain ◌==◌
chosen = refl

primary_redirect_for-set_primary_domain_example :
    (d : TenantDomain) × (find_domain school (codes "d1") (registry VerificationStatus.active)
      ≡ some d)
    × (is_active d.verification_status ≡ true)
    × ((t : TenantContext) (path : Option Text)
        → primary_redirect_for t path
            (set_primary_domain ascii_case_map school
              (codes "d1")
              (registry VerificationStatus.active)).1
          ≡ (if t.id == school
              then sent_to d.hostname t.host path
              else primary_redirect_for t path (registry VerificationStatus.active)))
primary_redirect_for-set_primary_domain_example =
    primary_redirect_for-set_primary_domain school (codes "d1") ascii_case_map
      (registry VerificationStatus.active) chosen

found :
    find_domain school (codes "d1") (registry VerificationStatus.pending)
    ≡ some (row VerificationStatus.pending)
unfolding find_domain ◌==◌
found = refl

claim :
    claimable_hostname ascii_case_map (codes "school.example") root ≡ ok (codes "school.example")
unfolding claimable_hostname claim_normal claim_shape normalize_host normalize_name normalize_v6
    strip_port strip_dot check_host apex_name split is_valid_slug trim trim_start trim_end is_space
    starts_with ends_with includes index_of ◌==◌
claim = refl

owned : find (λ (u : Tenant). u.id == school && is_live u) (tenant ∷ []) ≡ some tenant
unfolding ◌==◌
owned = refl

unrivalled :
    any (is_rival school (codes "school.example")) (registry VerificationStatus.pending).domains
    ≡ false
unfolding ◌==◌
unrivalled = refl

resolve_host-refresh_domain_example :
    (resolve_host ascii_case_map
      (directory (tenant ∷ []) (
        refresh_domain ascii_case_map root true
          (client_saying VerificationStatus.active)
          100
          school
          (codes "d1")
          (registry VerificationStatus.pending)))
      root
      (codes "school.example")
      101
      102
      (refresh_domain ascii_case_map root true
        (client_saying VerificationStatus.active)
        100
        school
        (codes "d1")
        (registry VerificationStatus.pending)).cache).0
    ≡ some (context tenant (codes "school.example"))
resolve_host-refresh_domain_example =
    resolve_host-refresh_domain ascii_case_map root (client_saying VerificationStatus.active) 100
      school (codes "d1") (registry VerificationStatus.pending) (row VerificationStatus.pending)
      (codes "c1") (hostname_as VerificationStatus.active) (tenant ∷ []) tenant 101 102 found refl
      refl refl refl owned claim unrivalled
