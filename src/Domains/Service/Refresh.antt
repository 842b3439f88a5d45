-- ===== src/Domains/Service/Refresh.antt =====
-- src/lib/domains/service.ts, `refreshDomain`, `refreshAllDomains` and `recordError`.
use lamp_light.Base.{ℕ, ◌+◌, Bool, not, ◌&&◌, none, some, List, [], ◌∷◌, if◌then◌else◌}
use lamp_light.Base.Text.{Text, ◌==◌, truthy, CaseMap}
use lamp_light.Tenancy.Resolve.{VerificationStatus, invalidate_tenant_cache}
use lamp_light.Db.Tables.{update}
use lamp_light.Domains.Rows.{
  auth, taken, invalid, unavailable, CustomHostname, Reply, answered, cloudflare_error, other_error,
  CustomHostnameClient, TenantDomain, is_active, Registry, is_row, list_domains, find_domain,
}
use lamp_light.Domains.Service.Attach.{claim_ttl_ms, explain, unexplained}

-- What the update of a refresh sets.
abbrev pub refreshed : ℕ → CustomHostname → TenantDomain → TenantDomain
refreshed now latest d = record d {
  verification_status = latest.status;
  dns_records = latest.records;
  last_error = latest.message;
  verified_at = if is_active latest.status then some now else none;
  claim_expires_at = if is_active latest.status then none else some (now + claim_ttl_ms);
}

unfoldable pub record_error : Text → Text → Text → Registry → Registry
unfolding ◌==◌
record_error tenant id message reg = record reg {
  domains =
      update (is_row tenant id)
        (λ d. record d {
          verification_status = VerificationStatus.failed;
          last_error = some message;
        })
        reg.domains;
}

module _ (cm : CaseMap) (apex : Text) (configured : Bool) (client : CustomHostnameClient)
    (now : ℕ) where
  -- The write of a refresh, and the cache entry of a domain that went live.
  unfoldable pub save_refresh : Text → Text → TenantDomain → CustomHostname → Registry → Registry
  unfolding ◌==◌
  save_refresh tenant id current latest reg = record reg {
    domains = update (is_row tenant id) (refreshed now latest) reg.domains;
    cache =
        if is_active latest.status && not (is_active current.verification_status)
        then invalidate_tenant_cache cm (some current.hostname) reg.cache
        else reg.cache;
  }

  -- An unreachable provider changes nothing; any other error is recorded.
  abbrev pub after_get : Text → Text → TenantDomain → Reply CustomHostname → Registry → Registry
  after_get tenant id current (answered latest) reg = save_refresh tenant id current latest reg
  after_get tenant id current (cloudflare_error unavailable message) reg = reg
  after_get tenant id current (cloudflare_error auth message) reg =
      record_error tenant id (explain auth message) reg
  after_get tenant id current (cloudflare_error taken message) reg =
      record_error tenant id (explain taken message) reg
  after_get tenant id current (cloudflare_error invalid message) reg =
      record_error tenant id (explain invalid message) reg
  after_get tenant id current other_error reg = record_error tenant id unexplained reg

  -- The registry after a refresh; the answer is the row that `find_domain` then finds.
  unfoldable pub refresh_domain : Text → Text → Registry → Registry
  unfolding find_domain save_refresh record_error
  refresh_domain tenant id reg = elim (find_domain tenant id reg) [
    | none ↦ reg
    | some current ↦ elim (truthy current.cf_hostname_id) [
      | none ↦ reg
      | some cf ↦ if configured then after_get tenant id current (client.get cf) reg else reg
    ]
  ]

  -- The loop: a domain that was active in the list is passed over.
  unfoldable pub refresh_each : Text → List TenantDomain → Registry → Registry
  unfolding refresh_domain
  refresh_each tenant [] reg = reg
  refresh_each tenant (d ∷ ds) reg =
      refresh_each tenant ds
        (if is_active d.verification_status then reg else refresh_domain tenant d.id reg)

  unfoldable pub refresh_all_domains : Text → Registry → List TenantDomain × Registry
  unfolding refresh_each list_domains
  refresh_all_domains tenant reg =
      let reg' = refresh_each tenant (list_domains tenant reg) reg in
      (list_domains tenant reg', reg')
