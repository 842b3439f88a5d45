-- ===== src/Domains/Service/Attach.antt =====
-- src/lib/domains/service.ts, `attachDomain`.
use lamp_light.Base.{
  ℕ, ◌+◌, ◌*◌, Bool, false, not, ◌&&◌, Option, none, some, [], ◌∷◌, ◌++◌, any, if◌then◌else◌,
}
use lamp_light.Base.Text.{Text, codes, ◌==◌, CaseMap}
use lamp_light.Tenancy.Host.{Reason, malformed, platform, ok, refused, claimable_hostname}
use lamp_light.Domains.Rows.{
  CloudflareErrorKind, auth, taken, invalid, unavailable, CustomHostname, Reply, answered,
  cloudflare_error, other_error, CustomHostnameClient, TenantDomain, DomainRecord, to_record,
  domain_attached, Registry, find_domain,
}

abbrev pub claim_ttl_ms : ℕ
claim_ttl_ms = 14 * 24 * 60 * 60 * 1000

pub data AttachResult : Type 0 where
  attached : DomainRecord → AttachResult
  error : Text → AttachResult

-- `explain`, of an error of the provider
abbrev pub explain : CloudflareErrorKind → Text → Text
explain taken message =
    codes
      "That hostname is already managed elsewhere. If it is yours, remove it from the other provider first."
explain auth message = codes "Custom domains are misconfigured on this instance. Ask the operator."
explain unavailable message = codes "Could not reach Cloudflare just now. Try again in a moment."
explain invalid message = codes "Cloudflare would not accept that hostname: " ++ message

-- `explain`, of any other error
abbrev pub unexplained : Text
unexplained = codes "Something went wrong adding that domain."

abbrev pub refusal_message : Text → Reason → Text
refusal_message apex platform =
    codes "Names under " ++ (apex ++ codes " belong to the platform. Use a domain you own.")
refusal_message apex malformed = codes "That does not look like a domain name."

-- The row's id, if the database answers one, and its creation time.
pub record NewRow : Type 0 where
  pub id : Option Text
  pub created_at : ℕ

abbrev pub new_domain : ℕ → Text → Text → CustomHostname → Text → ℕ → TenantDomain
new_domain now tenant hostname created id created_at = record {
  tenant_id = tenant;
  id = id;
  hostname = hostname;
  is_primary = false;
  verification_status = created.status;
  cf_hostname_id = some created.id;
  dns_records = created.records;
  claim_expires_at = some (now + claim_ttl_ms);
  last_error = none;
  verified_at = none;
  created_at = created_at;
}

abbrev pub attach_outcome : Option TenantDomain → AttachResult
attach_outcome none = error (codes "Could not save that domain.")
attach_outcome (some d) = attached (to_record d)

-- The transaction that writes the row and the audit entry; an insert that returns no id wrote no row.
unfoldable pub save_domain :
    ℕ → Text → Text → CustomHostname → NewRow → Registry → AttachResult × Registry
unfolding find_domain
save_domain now tenant hostname created drawn reg = elim drawn.id [
  | none ↦ (
    attach_outcome none,
    record reg { audit = reg.audit ++ (tenant, domain_attached none hostname) ∷ [] },
  )
  | some id ↦
      let reg' = record reg {
        domains = reg.domains ++ new_domain now tenant hostname created id drawn.created_at ∷ [];
        audit = reg.audit ++ (tenant, domain_attached (some id) hostname) ∷ [];
      } in
      (attach_outcome (find_domain tenant id reg'), reg')
]

abbrev pub is_named : Text → Text → TenantDomain → Bool
is_named tenant hostname d = d.tenant_id == tenant && d.hostname == hostname

abbrev pub after_create :
    ℕ → Text → Text → Reply CustomHostname → NewRow → Registry → AttachResult × Registry
after_create now tenant hostname (answered created) drawn reg =
    save_domain now tenant hostname created drawn reg
after_create now tenant hostname (cloudflare_error kind message) drawn reg =
    (error (explain kind message), reg)
after_create now tenant hostname other_error drawn reg = (error unexplained, reg)

module _ (cm : CaseMap) (apex : Text) (configured : Bool) (client : CustomHostnameClient)
    (now : ℕ) where
  unfoldable pub attach_claimed : Text → Text → NewRow → Registry → AttachResult × Registry
  unfolding ◌==◌ save_domain
  attach_claimed tenant hostname drawn reg =
      if any (is_named tenant hostname) reg.domains
      then (error (codes "You have already added that domain."), reg)
      else after_create now tenant hostname (client.create hostname) drawn reg

  unfoldable pub attach_domain : Text → Text → NewRow → Registry → AttachResult × Registry
  unfolding attach_claimed
  attach_domain tenant raw drawn reg =
      if not configured
      then (
        error (codes "Custom domains are not configured on this instance. Ask the operator."),
        reg,
      )
      else elim (claimable_hostname cm raw apex) [
        | refused reason ↦ (error (refusal_message apex reason), reg)
        | ok hostname ↦ attach_claimed tenant hostname drawn reg
      ]
