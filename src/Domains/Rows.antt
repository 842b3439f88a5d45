-- ===== src/Domains/Rows.antt =====
-- The table tenant_domains, its reads in src/db/repositories/domains.ts, and what the provider of
-- custom hostnames (src/lib/cloudflare/custom-hostnames.ts) answers, which is a parameter.
use lamp_light.Base.{ℕ, Bool, true, false, ◌&&◌, Option, none, some, List, filter, find, leb}
use lamp_light.Base.Text.{Text, ◌==◌}
use lamp_light.Db.Queries.{order_by}
use lamp_light.Tenancy.Resolve.{VerificationStatus, Domain, TenantCache}

pub data RecordType : Type 0 where
  cname txt : RecordType

pub data Purpose : Type 0 where
  routing ownership certificate : Purpose

pub record DnsRecord : Type 0 where
  pub kind : RecordType
  pub name : Text
  pub value : Text
  pub purpose : Purpose

pub record CustomHostname : Type 0 where
  pub id : Text
  pub hostname : Text
  pub status : VerificationStatus
  pub records : List DnsRecord
  pub message : Option Text

pub data CloudflareErrorKind : Type 0 where
  auth taken invalid unavailable : CloudflareErrorKind

-- What a call of the provider answers or throws: a CloudflareError, or anything else.
pub data Reply {ℓ} (A : Type ℓ) : Type ℓ where
  answered : A → Reply A
  cloudflare_error : CloudflareErrorKind → Text → Reply A
  other_error : Reply A

-- `CustomHostnameClient`: the answers of the provider during one operation.
pub record CustomHostnameClient : Type 0 where
  pub create : Text → Reply CustomHostname
  pub get : Text → Reply CustomHostname
  pub remove : Text → Reply (Unit {0})

pub record TenantDomain : Type 0 where
  pub tenant_id : Text
  pub id : Text
  pub hostname : Text
  pub is_primary : Bool
  pub verification_status : VerificationStatus
  pub cf_hostname_id : Option Text
  pub dns_records : List DnsRecord
  pub claim_expires_at : Option ℕ
  pub last_error : Option Text
  pub verified_at : Option ℕ
  pub created_at : ℕ

-- The row as host resolution reads it.
abbrev pub to_directory_row : TenantDomain → Domain
to_directory_row d = record {
  tenant_id = d.tenant_id;
  hostname = d.hostname;
  status = d.verification_status;
}

pub record DomainRecord : Type 0 where
  pub id : Text
  pub hostname : Text
  pub is_primary : Bool
  pub status : VerificationStatus
  pub dns_records : List DnsRecord
  pub last_error : Option Text
  pub verified_at : Option ℕ
  pub claim_expires_at : Option ℕ
  pub cf_hostname_id : Option Text

abbrev pub to_record : TenantDomain → DomainRecord
to_record d = record {
  id = d.id;
  hostname = d.hostname;
  is_primary = d.is_primary;
  status = d.verification_status;
  dns_records = d.dns_records;
  last_error = d.last_error;
  verified_at = d.verified_at;
  claim_expires_at = d.claim_expires_at;
  cf_hostname_id = d.cf_hostname_id;
}

abbrev pub to_record? : Option TenantDomain → Option DomainRecord
to_record? none = none
to_record? (some d) = some (to_record d)

abbrev pub is_active : VerificationStatus → Bool
is_active VerificationStatus.active = true
is_active _ = false

-- The audited actions, with the row's id, if there is one, and the hostname.
pub data DomainAction : Type 0 where
  domain_attached : Option Text → Text → DomainAction
  domain_removed domain_primary_changed : Text → Text → DomainAction

-- The table, the audit entries with their institute, and this process's cache of institutes.
pub record Registry : Type 0 where
  pub domains : List TenantDomain
  pub audit : List (Text × DomainAction)
  pub cache : TenantCache

abbrev pub is_row : Text → Text → TenantDomain → Bool
is_row tenant id d = d.tenant_id == tenant && d.id == id

-- The three reads answer the rows, of which `to_record` makes what the source answers.
unfoldable pub list_domains : Text → Registry → List TenantDomain
unfolding ◌==◌
list_domains tenant reg =
    order_by (λ a b. leb a.created_at b.created_at)
      (filter (λ d. d.tenant_id == tenant) reg.domains)

unfoldable pub find_domain : Text → Text → Registry → Option TenantDomain
unfolding ◌==◌
find_domain tenant id reg = find (is_row tenant id) reg.domains

abbrev pub is_primary_row : Text → TenantDomain → Bool
is_primary_row tenant d = d.tenant_id == tenant && (d.is_primary && is_active d.verification_status)

unfoldable pub find_primary_domain : Text → Registry → Option TenantDomain
unfolding ◌==◌
find_primary_domain tenant reg = find (is_primary_row tenant) reg.domains
