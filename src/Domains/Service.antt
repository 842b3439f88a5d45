-- ===== src/Domains/Service.antt =====
-- src/lib/domains/service.ts: attaching, checking, removing and choosing domains, and the sweep of
-- lapsed claims. Each operation runs alone; `now` is `Date.now()`, `configured` is
-- `customHostnamesConfigured()`. A write that the database refuses is left out.
mod Attach
mod Refresh
unfoldable pub use Attach.*
unfoldable pub use Refresh.*
use lamp_light.Base.{
  ℕ, ◌+◌, ◌*◌, Bool, true, false, not, ◌&&◌, Option, none, some, List, [], ◌∷◌, ◌++◌, filter, any,
  leb, length, if◌then◌else◌,
}
use lamp_light.Base.Text.{Text, codes, ◌==◌, truthy, CaseMap}
use lamp_light.Tenancy.Host.{
  Reason, malformed, platform, ok, refused, claimable_hostname, absolute_url,
}
use lamp_light.Tenancy.Resolve.{VerificationStatus, TenantContext, invalidate_tenant_cache}
use lamp_light.Db.Tables.{update, remove_rows}
use lamp_light.Domains.Rows.{
  CloudflareErrorKind, auth, taken, invalid, unavailable, CustomHostname, Reply, answered,
  cloudflare_error, other_error, CustomHostnameClient, TenantDomain, DomainRecord, to_record,
  is_active, domain_attached, domain_removed, domain_primary_changed, Registry, is_row,
  list_domains, find_domain, find_primary_domain,
}

module _ (cm : CaseMap) (apex : Text) (configured : Bool) (client : CustomHostnameClient)
    (now : ℕ) where
  unfoldable pub delete_domain : Text → Text → TenantDomain → Registry → Registry
  unfolding ◌==◌
  delete_domain tenant id d reg = record reg {
    domains = remove_rows (is_row tenant id) reg.domains;
    audit = reg.audit ++ (tenant, domain_removed id d.hostname) ∷ [];
    cache = invalidate_tenant_cache cm (some d.hostname) reg.cache;
  }

  -- Whether the provider lets go of a hostname: only `unavailable` is thrown on.
  abbrev pub lets_go : Reply (Unit {0}) → Bool
  lets_go (cloudflare_error unavailable message) = false
  lets_go (cloudflare_error auth message) = true
  lets_go (cloudflare_error taken message) = true
  lets_go (cloudflare_error invalid message) = true
  lets_go (answered r) = true
  lets_go other_error = true

  abbrev pub released : TenantDomain → Bool
  released d = elim (truthy d.cf_hostname_id) [
    | none ↦ true
    | some cf ↦ if configured then lets_go (client.remove cf) else true
  ]

  -- `false` is the error that is thrown on.
  unfoldable pub remove_domain : Text → Text → Registry → Bool × Registry
  unfolding find_domain delete_domain
  remove_domain tenant id reg = elim (find_domain tenant id reg) [
    | none ↦ (true, reg)
    | some d ↦ if released d then (true, delete_domain tenant id d reg) else (false, reg)
  ]

  -- `claimExpiresAt.getTime() <= Date.now()`
  abbrev pub is_past : Option ℕ → Bool
  is_past none = false
  is_past (some t) = leb t now

  abbrev pub is_lapsed : TenantDomain → Bool
  is_lapsed d = not (is_active d.verification_status) && is_past d.claim_expires_at

  -- The loop of the release: an error that is thrown ends it.
  unfoldable pub release_each : Text → List TenantDomain → Registry → Bool × Registry
  unfolding remove_domain
  release_each tenant [] reg = (true, reg)
  release_each tenant (d ∷ ds) reg =
      let (gone, reg') = remove_domain tenant d.id reg in
      elim gone [ true ↦ release_each tenant ds reg' | false ↦ (false, reg') ]

  abbrev pub count_if : Bool → ℕ → Option ℕ
  count_if true n = some n
  count_if false n = none

  -- How many were released; `none` where an error is thrown.
  unfoldable pub release_lapsed_claims : Text → Registry → Option ℕ × Registry
  unfolding release_each list_domains
  release_lapsed_claims tenant reg =
      let lapsed = filter is_lapsed (list_domains tenant reg) in
      let (done, reg') = release_each tenant lapsed reg in (count_if done (length lapsed), reg')

  -- The part of the sweep for one institute that is about domains.
  unfoldable pub sweep_domains : Text → Registry → Option ℕ × Registry
  unfolding refresh_all_domains release_lapsed_claims
  sweep_domains tenant reg =
      if configured
      then release_lapsed_claims tenant
          (refresh_all_domains cm apex configured client now tenant reg).1
      else (some 0, reg)

abbrev pub is_other_row : Text → Text → TenantDomain → Bool
is_other_row tenant id d = d.tenant_id == tenant && not (d.id == id)

-- The two updates of `setPrimaryDomain`, in their order.
abbrev pub choose : Text → Text → List TenantDomain → List TenantDomain
choose tenant id domains =
    update (is_row tenant id) (λ d. record d { is_primary = true })
      (update (is_other_row tenant id) (λ d. record d { is_primary = false }) domains)

unfoldable pub set_primary_domain : CaseMap → Text → Text → Registry → Bool × Registry
unfolding ◌==◌ find_domain
set_primary_domain cm tenant id reg = elim (find_domain tenant id reg) [
  | none ↦ (false, reg)
  | some target ↦
      if is_active target.verification_status
      then (
        true,
        record reg {
          domains = choose tenant id reg.domains;
          audit = reg.audit ++ (tenant, domain_primary_changed id target.hostname) ∷ [];
          cache = invalidate_tenant_cache cm none reg.cache;
        },
      )
      else (false, reg)
]

-- src/lib/domains/redirect.ts; the path is the header `x-lamplight-path`.
unfoldable pub primary_redirect_for : TenantContext → Option Text → Registry → Option Text
unfolding ◌==◌ find_primary_domain
primary_redirect_for tenant path reg = elim (find_primary_domain tenant.id reg) [
  | none ↦ none
  | some d ↦
      if d.hostname == tenant.host
      then none
      else elim (truthy path) [ none ↦ none | some target ↦ some (absolute_url d.hostname target) ]
]
