-- ===== src/Domains/Provider.antt =====
-- src/lib/cloudflare/custom-hostnames.ts: the client of the provider over a transport, which is a
-- parameter. A value of the answer that is no text is `none`, and so is one that is missing.
use lamp_light.Base.{
  ℕ, Bool, false, not, ◌&&◌, ◌||◌, Option, none, some, List, [], ◌∷◌, ◌++◌, any, leb, nat_eq,
  if◌then◌else◌,
}
use lamp_light.Base.Text.{Text, codes, ◌==◌, truthy}
use lamp_light.Tenancy.Resolve.{VerificationStatus}
use lamp_light.Media.Uploads.{decimal}
use lamp_light.Domains.Rows.{
  cname, txt, Purpose, routing, ownership, certificate, DnsRecord, CustomHostname,
  CloudflareErrorKind, auth, taken, invalid, unavailable, Reply, answered, cloudflare_error,
  other_error, CustomHostnameClient,
}

-- `RawHostname`, with the fields of its parts, and the first message of each kind of error.
pub record RawHostname : Type 0 where
  pub id : Option Text
  pub hostname : Option Text
  pub status : Option Text
  pub ssl_status : Option Text
  pub txt_name : Option Text
  pub txt_value : Option Text
  pub ownership_name : Option Text
  pub ownership_value : Option Text
  pub validation_error : Option Text
  pub verification_error : Option Text

pub record CloudflareEnvelope : Type 0 where
  pub success : Bool
  pub errors : List (Option ℕ × Option Text)
  pub result : RawHostname

pub data Method : Type 0 where
  get post delete : Method

-- The body is the hostname of a new one.
pub record CloudflareRequest : Type 0 where
  pub method : Method
  pub path : Text
  pub body : Option Text

-- A status with an envelope, or what is thrown, as a text.
pub data Sent : Type 0 where
  responded : ℕ → CloudflareEnvelope → Sent
  threw : Text → Sent

-- `errors.map((error) => error.message).filter(Boolean).join('; ')`
unfoldable pub join_messages : List (Option ℕ × Option Text) → Text
join_messages [] = []
join_messages ((code, message) ∷ errors) =
    let rest = join_messages errors in
    elim (truthy message) [
      | none ↦ rest
      | some m ↦ elim rest [ [] ↦ m | c ∷ more ↦ m ++ (codes "; " ++ c ∷ more) ]
    ]

abbrev pub or_rejected : Text → Text
or_rejected [] = codes "Cloudflare rejected the request."
or_rejected (c ∷ message) = c ∷ message

abbrev pub has_code : ℕ → Option ℕ × Option Text → Bool
has_code n (none, message) = false
has_code n (some code, message) = nat_eq code n

-- The kind of the error.
unfoldable pub classify_errors : List (Option ℕ × Option Text) → CloudflareErrorKind
classify_errors errors =
    if any (has_code 1406) errors || any (has_code 1407) errors then taken else invalid

unfoldable pub read_response : Sent → Reply CloudflareEnvelope
unfolding join_messages classify_errors decimal
read_response (threw cause) =
    cloudflare_error unavailable (codes "Cloudflare did not respond: " ++ cause)
read_response (responded status envelope) =
    if nat_eq status 401 || nat_eq status 403
    then cloudflare_error auth
        (codes "Cloudflare rejected the API token. Check CLOUDFLARE_API_TOKEN and its scopes.")
    else if leb 500 status
    then cloudflare_error unavailable
        (codes "Cloudflare returned " ++ (decimal status ++ codes "."))
    else if not envelope.success
    then cloudflare_error (classify_errors envelope.errors)
        (or_rejected (join_messages envelope.errors))
    else answered envelope

abbrev pub text_or : Text → Option Text → Text
text_or d none = d
text_or d (some t) = t

unfoldable pub derive_status : Text → Text → VerificationStatus
unfolding ◌==◌
derive_status host ssl =
    if host == codes "active" && ssl == codes "active"
    then VerificationStatus.active
    else if host == codes "moved" || host == codes "deleted"
    then VerificationStatus.failed
    else if host == codes "pending_validation"
        || (host == codes "pending_deployment"
            || (host == codes "active"
                || (ssl == codes "pending_validation"
                    || (ssl == codes "pending_deployment" || ssl == codes "initializing"))))
    then VerificationStatus.verifying
    else if host == codes "blocked" || ssl == codes "timed_out"
    then VerificationStatus.failed
    else VerificationStatus.pending

unfoldable pub first_message : RawHostname → Option Text
first_message raw = elim (truthy raw.validation_error) [
  | some m ↦ some m
  | none ↦ raw.verification_error
]

-- A record to create, if its name and its value are there.
abbrev pub txt_record : Purpose → Option Text → Option Text → List DnsRecord
txt_record purpose (some name) (some value) =
    record { kind = txt; name = name; value = value; purpose = purpose } ∷ []
txt_record purpose none value = []
txt_record purpose (some name) none = []

unfoldable pub to_custom_hostname : Text → RawHostname → CustomHostname
unfolding derive_status first_message
to_custom_hostname fallback_origin raw = record {
  id = text_or [] raw.id;
  hostname = text_or [] raw.hostname;
  status =
      derive_status (text_or (codes "pending") raw.status)
        (text_or (codes "pending") raw.ssl_status);
  records =
      (record {
        kind = cname;
        name = text_or [] raw.hostname;
        value = fallback_origin;
        purpose = routing;
      }
        ∷ txt_record ownership raw.ownership_name raw.ownership_value)
      ++ txt_record certificate raw.txt_name raw.txt_value;
  message = first_message raw;
}

abbrev pub map_reply : {A B : Type 0} → (A → B) → Reply A → Reply B
map_reply f (answered a) = answered (f a)
map_reply f (cloudflare_error kind message) = cloudflare_error kind message
map_reply f other_error = other_error

module _ (transport : CloudflareRequest → Sent) (zone fallback_origin : Text) where
  abbrev pub base : Text
  base = codes "/zones/" ++ (zone ++ codes "/custom_hostnames")

  abbrev pub id_path : Text → Text
  id_path id = base ++ (codes "/" ++ id)

  unfoldable pub create_custom_hostname_client : CustomHostnameClient
  unfolding read_response to_custom_hostname
  create_custom_hostname_client = record {
    create = λ hostname.
        map_reply (λ e. to_custom_hostname fallback_origin e.result)
          (read_response (transport (record { method = post; path = base; body = some hostname })));
    get = λ id.
        map_reply (λ e. to_custom_hostname fallback_origin e.result)
          (read_response (transport (record { method = get; path = id_path id; body = none })));
    remove = λ id.
        map_reply (λ e. tt)
          (read_response (transport (record { method = delete; path = id_path id; body = none })));
  }
