-- ===== src/Domains/Verified.antt =====
-- src/lib/domains/service.ts over src/lib/cloudflare/custom-hostnames.ts: when a domain goes live.
use lamp_light.Base.{
  ℕ, ◌≡◌, refl, sym, ap, ◌∙◌, inl, inr, Bool, true, false, ◌&&◌, ◌||◌, Option, none, some,
  if◌then◌else◌, leb, nat_eq, arith, Bool-cases, Option-cases, and-eq-true,
}
use lamp_light.Base.Text.{Text, codes, ◌==◌, eq_iff, truthy, CaseMap}
use lamp_light.Tenancy.Resolve.{VerificationStatus}
use lamp_light.Db.Tables.{find-update}
use lamp_light.Domains.Rows.{
  CustomHostname, auth, taken, invalid, unavailable, Reply, answered, cloudflare_error, other_error,
  CustomHostnameClient, TenantDomain, is_active, Registry, is_row, find_domain,
}
use lamp_light.Domains.Service.{refreshed, save_refresh, record_error, after_get, refresh_domain}
use lamp_light.Domains.Provider.{
  RawHostname, CloudflareEnvelope, CloudflareRequest, get, Sent, responded, threw, read_response,
  text_or, derive_status, to_custom_hostname, map_reply, id_path, create_custom_hostname_client,
}

-- The answer of a request is read, and both the hostname and its certificate are active.
abbrev pub Confirms : Sent → Type 0
Confirms sent =
    (status : ℕ) × (e : CloudflareEnvelope) × (sent ≡ responded status e)
    × (e.success ≡ true)
    × (leb 500 status ≡ false)
    × (e.result.status ≡ some (codes "active"))
    × (e.result.ssl_status ≡ some (codes "active"))

derive_status-active :
    (host ssl : Text)
    → is_active (derive_status host ssl) ≡ true
    → (host ≡ codes "active") × (ssl ≡ codes "active")
unfolding derive_status
derive_status-active host ssl e =
    elim (Bool-cases (host == codes "active" && ssl == codes "active")) [
      | inl both ↦
          let (h, s) = and-eq-true (host == codes "active") (ssl == codes "active") both in
          ((eq_iff host (codes "active")).0 h, (eq_iff ssl (codes "active")).0 s)
      | inr other ↦ absurd (ground arith)
    ]

text_or-pending :
    (o : Option Text) → text_or (codes "pending") o ≡ codes "active" → o ≡ some (codes "active")
text_or-pending none e = absurd (ground arith)
text_or-pending (some t) e = ap some e

to_custom_hostname-active :
    (fallback : Text) (raw : RawHostname)
    → is_active (to_custom_hostname fallback raw).status ≡ true
    → (raw.status ≡ some (codes "active")) × (raw.ssl_status ≡ some (codes "active"))
unfolding to_custom_hostname
to_custom_hostname-active fallback raw e =
    let (h, s) =
      derive_status-active (text_or (codes "pending") raw.status)
        (text_or (codes "pending") raw.ssl_status) e in
    (text_or-pending raw.status h, text_or-pending raw.ssl_status s)

read_response-answered :
    (sent : Sent) (fallback : Text) (h : CustomHostname)
    → map_reply (λ e. to_custom_hostname fallback e.result) (read_response sent) ≡ answered h
    → is_active h.status ≡ true
    → Confirms sent
unfolding read_response
read_response-answered (threw cause) fallback h e live = absurd (ground arith)
read_response-answered (responded status envelope) fallback h e live =
    elim (Bool-cases (nat_eq status 401 || nat_eq status 403)) [
      | inl refused ↦ absurd (ground arith)
      | inr let_in ↦ elim (Bool-cases (leb 500 status)) [
        | inl broken ↦ absurd (ground arith)
        | inr served ↦ elim (Bool-cases envelope.success) [
          | inr failed ↦ absurd (ground arith)
          | inl good ↦
              let same : to_custom_hostname fallback envelope.result ≡ h = ground arith in
              let (s, c) =
                to_custom_hostname-active fallback envelope.result
                  (ap (λ (x : CustomHostname). is_active x.status) same ∙ live) in
              (status, envelope, refl, good, served, s, c)
        ]
      ]
    ]

some_same : (x y : TenantDomain) → ◌≡◌ {A = Option TenantDomain} (some x) (some y) → x ≡ y
some_same x y e = ground arith

module _ (cm : CaseMap) (root : Text) (configured : Bool) (client : CustomHostnameClient) (now : ℕ)
    (tenant id : Text) where
  -- The row after an error is not verified.
  record_error-inactive :
      (message : Text) (reg : Registry) (d d' : TenantDomain)
      → find_domain tenant id reg ≡ some d
      → find_domain tenant id (record_error tenant id message reg) ≡ some d'
      → is_active d'.verification_status ≡ false
  unfolding find_domain record_error
  record_error-inactive message reg d d' found after =
      let is =
        find-update (is_row tenant id)
          (λ (x : TenantDomain). record x {
            verification_status = VerificationStatus.failed;
            last_error = some message;
          })
          reg.domains d (λ y h. h) found in
      let same = some_same _ d' (sym is ∙ after) in
      ap (λ (x : TenantDomain). is_active x.verification_status) (sym same)

  after_get-active :
      (r : Reply CustomHostname) (reg : Registry) (d d' : TenantDomain)
      → find_domain tenant id reg ≡ some d
      → is_active d.verification_status ≡ false
      → find_domain tenant id (after_get cm root configured client now tenant id d r reg) ≡ some d'
      → is_active d'.verification_status ≡ true
      → (h : CustomHostname) × (r ≡ answered h) × (is_active h.status ≡ true)
  unfolding find_domain save_refresh
  after_get-active (answered latest) reg d d' found old after live =
      let is =
        find-update (is_row tenant id) (refreshed now latest) reg.domains d (λ y h. h) found in
      let same = some_same (refreshed now latest d) d' (sym is ∙ after) in
      (latest, refl, ap (λ (x : TenantDomain). is_active x.verification_status) same ∙ live)
  after_get-active (cloudflare_error unavailable message) reg d d' found old after live =
      let same = some_same d d' (sym found ∙ after) in
      absurd (cc (old, ap (λ (x : TenantDomain). is_active x.verification_status) same, live))
  after_get-active (cloudflare_error auth message) reg d d' found old after live =
      absurd (cc (record_error-inactive _ reg d d' found after, live))
  after_get-active (cloudflare_error taken message) reg d d' found old after live =
      absurd (cc (record_error-inactive _ reg d d' found after, live))
  after_get-active (cloudflare_error invalid message) reg d d' found old after live =
      absurd (cc (record_error-inactive _ reg d d' found after, live))
  after_get-active other_error reg d d' found old after live =
      absurd (cc (record_error-inactive _ reg d d' found after, live))

  unchanged :
      (reg reg' : Registry) (d d' : TenantDomain)
      → find_domain tenant id reg ≡ some d
      → is_active d.verification_status ≡ false
      → reg' ≡ reg
      → find_domain tenant id reg' ≡ some d'
      → is_active d'.verification_status ≡ false
  unchanged reg reg' d d' found old e after =
      let same = some_same d d' (sym found ∙ ap (find_domain tenant id) (sym e) ∙ after) in
      ap (λ (x : TenantDomain). is_active x.verification_status) (sym same) ∙ old

  refresh_domain-missing :
      (reg : Registry) (d : TenantDomain)
      → find_domain tenant id reg ≡ some d
      → truthy d.cf_hostname_id ≡ none
      → refresh_domain cm root configured client now tenant id reg ≡ reg
  unfolding refresh_domain
  refresh_domain-missing reg d found missing = rw (found, missing, refresh_domain) refl

  refresh_domain-get :
      (reg : Registry) (d : TenantDomain) (cf : Text)
      → find_domain tenant id reg ≡ some d
      → truthy d.cf_hostname_id ≡ some cf
      → refresh_domain cm root configured client now tenant id reg ≡ (
          if configured
          then after_get cm root configured client now tenant id d (client.get cf) reg
          else reg)
  unfolding refresh_domain
  refresh_domain-get reg d cf found is = rw (found, is, refresh_domain) refl

  refresh_domain_asked :
      (reg : Registry) (d d' : TenantDomain)
      → find_domain tenant id reg ≡ some d
      → is_active d.verification_status ≡ false
      → find_domain tenant id (refresh_domain cm root configured client now tenant id reg) ≡ some d'
      → is_active d'.verification_status ≡ true
      → (cf : Text) × (truthy d.cf_hostname_id ≡ some cf)
        × (h : CustomHostname) × (client.get cf ≡ answered h)
        × (is_active h.status ≡ true)
  refresh_domain_asked reg d d' found old after live =
      elim (Option-cases (truthy d.cf_hostname_id)) [
        | inl missing ↦ absurd (
            cc (
              unchanged reg _ d d' found old (refresh_domain-missing reg d found missing) after,
              live,
            ))
        | inr (cf, is) ↦
            let asked = refresh_domain-get reg d cf found is in
            elim (Bool-cases configured) [
              | inr off ↦
                  absurd (cc (unchanged reg _ d d' found old (asked ∙ rw off refl) after, live))
              | inl on ↦
                  let (h, reply, good) =
                    after_get-active (client.get cf) reg d d' found old
                      (ap (find_domain tenant id) (sym (asked ∙ rw on refl)) ∙ after) live in
                  (cf, is, h, reply, good)
            ]
      ]

-- A domain goes live by a refresh only where the provider was asked for it, answered with success, and
-- said that both the hostname and its certificate are active.
pub refresh_domain-Confirms :
    (cm : CaseMap) (root : Text) (configured : Bool) (transport : CloudflareRequest → Sent)
    (zone fallback : Text) (now : ℕ) (tenant id : Text) (reg : Registry) (d d' : TenantDomain)
    → find_domain tenant id reg ≡ some d
    → is_active d.verification_status ≡ false
    → find_domain tenant id (
        refresh_domain cm root configured
          (create_custom_hostname_client transport zone fallback)
          now
          tenant
          id
          reg)
      ≡ some d'
    → is_active d'.verification_status ≡ true
    → (cf : Text) × (truthy d.cf_hostname_id ≡ some cf)
      × Confirms (
          transport
            (record { method = get; path = id_path transport zone fallback cf; body = none }))
unfolding create_custom_hostname_client
refresh_domain-Confirms cm root configured transport zone fallback now tenant id reg d d' found old
      after live =
    let client = create_custom_hostname_client transport zone fallback in
    let (cf, is, h, reply, good) =
      refresh_domain_asked cm root configured client now tenant id reg d d' found old after live in
    (cf, is, read_response-answered _ fallback h reply good)
