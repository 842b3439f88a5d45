-- ===== src/Tests/Provider.antt =====
-- Runs of src/lib/cloudflare/custom-hostnames.ts.
use lamp_light.Base.{◌≡◌, refl, true, false, none, some, [], ◌∷◌}
use lamp_light.Base.Text.{Text, codes, ◌==◌, truthy, ascii_case_map}
use lamp_light.Tenancy.Resolve.{VerificationStatus, empty_cache}
use lamp_light.Domains.Rows.{
  TenantDomain, taken, cloudflare_error, CustomHostnameClient, is_active, Registry, find_domain,
}
use lamp_light.Domains.Service.{save_refresh, refreshed, refresh_domain}
use lamp_light.Domains.Provider.{
  RawHostname, CloudflareRequest, get, Sent, responded, join_messages, classify_errors,
  read_response, derive_status, to_custom_hostname, id_path, create_custom_hostname_client,
}
use lamp_light.Domains.Verified.{Confirms, refresh_domain-Confirms}

abbrev school : Text
school = codes "i1"

abbrev raw : RawHostname
raw = record {
  id = some (codes "c1");
  hostname = some (codes "school.example");
  status = some (codes "active");
  ssl_status = some (codes "active");
  txt_name = none;
  txt_value = none;
  ownership_name = none;
  ownership_value = none;
  validation_error = none;
  verification_error = none;
}

abbrev serving : CloudflareRequest → Sent
serving request = responded 200 (record { success = true; errors = []; result = raw })

abbrev row : TenantDomain
row = record {
  tenant_id = school;
  id = codes "d1";
  hostname = codes "school.example";
  is_primary = false;
  verification_status = VerificationStatus.verifying;
  cf_hostname_id = some (codes "c1");
  dns_records = [];
  claim_expires_at = some 10;
  last_error = none;
  verified_at = none;
  created_at = 1;
}

abbrev registry : Registry
registry = record { domains = row ∷ []; audit = []; cache = empty_cache }

abbrev client : CustomHostnameClient
client = create_custom_hostname_client serving (codes "z") (codes "lamp.example")

found : find_domain school (codes "d1") registry ≡ some row
unfolding find_domain ◌==◌
found = refl

refreshed_row :
    find_domain school (codes "d1") (
      refresh_domain ascii_case_map
        (codes "lamp.example")
        true
        client
        100
        school
        (codes "d1")
        registry)
    ≡ some (refreshed 100 (to_custom_hostname (codes "lamp.example") raw) row)
unfolding find_domain refresh_domain save_refresh create_custom_hostname_client read_response ◌==◌
refreshed_row = refl

went_live :
    is_active
      (refreshed 100 (to_custom_hostname (codes "lamp.example") raw) row).verification_status
    ≡ true
unfolding to_custom_hostname derive_status ◌==◌
went_live = refl

refresh_domain-Confirms_example :
    (cf : Text) × (truthy row.cf_hostname_id ≡ some cf)
    × Confirms (
        serving (record {
          method = get;
          path = id_path serving (codes "z") (codes "lamp.example") cf;
          body = none;
        }))
refresh_domain-Confirms_example =
    refresh_domain-Confirms ascii_case_map (codes "lamp.example") true serving (codes "z")
      (codes "lamp.example") 100 school (codes "d1") registry row
      (refreshed 100 (to_custom_hostname (codes "lamp.example") raw) row) found refl refreshed_row
      went_live

-- The messages of a refusal.
duplicate :
    read_response (
      responded 409 (record {
        success = false;
        errors =
            (some 1406, some (codes "Duplicate"))
            ∷ (none, none)
            ∷ (some 7, some (codes "found"))
            ∷ [];
        result = raw;
      }))
    ≡ cloudflare_error taken (codes "Duplicate; found")
unfolding read_response join_messages classify_errors
duplicate = refl
