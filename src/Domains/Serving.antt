-- ===== src/Domains/Serving.antt =====
-- src/lib/domains/service.ts with src/lib/tenancy/resolve.ts: who answers at a domain once it is
-- verified.
use lamp_light.Base.{
  ℕ, ◌≡◌, refl, ap, ◌∙◌, inl, inr, Bool, true, false, not, ◌&&◌, none, some, List, [], ◌∷◌, map,
  find, any, arith, Bool-cases, Option-cases, and-eq-true,
}
use lamp_light.Base.Text.{Text, ◌==◌, eq_iff, eq_refl, truthy, CaseMap}
use lamp_light.Base.JsMap.{lookup, remove, lookup-remove}
use lamp_light.Cache.{get, delete}
use lamp_light.Cache.Reads.{live, get-live}
use lamp_light.Tenancy.Host.{ok, foreign, normalize_host, classify_host, claimable_hostname}
use lamp_light.Tenancy.Host.Claims.{claimable_hostname-foreign, claimable_hostname-normal}
use lamp_light.Tenancy.Resolve.{
  VerificationStatus, Tenant, Domain, Directory, TenantCache, context, is_live, is_verified, owner,
  find_owner, invalidate_tenant_cache, lookup_uncached, resolve_host,
}
use lamp_light.Tenancy.Resolve.Staleness.{in_context, resolve_host-none}
use lamp_light.Db.Tables.{update}
use lamp_light.Domains.Rows.{
  CustomHostname, answered, CustomHostnameClient, TenantDomain, to_directory_row, is_active,
  Registry, is_row, find_domain,
}
use lamp_light.Domains.Service.{refreshed, save_refresh, refresh_domain}
use lamp_light.Domains.Slugs.{directory}

active-verified :
    (x : TenantDomain) → is_verified (to_directory_row x) ≡ is_active x.verification_status
active-verified x = go x.verification_status
  where
    go :
        (v : VerificationStatus)
        → is_verified (record { tenant_id = x.tenant_id; hostname = x.hostname; status = v })
          ≡ is_active v
    go VerificationStatus.pending = refl
    go VerificationStatus.verifying = refl
    go VerificationStatus.active = refl
    go VerificationStatus.failed = refl

invalidate-get :
    (cm : CaseMap) (h : Text) (now : ℕ) (c : TenantCache)
    → normalize_host cm (some h) ≡ some h
    → (get h now (invalidate_tenant_cache cm (some h) c)).0 ≡ none
unfolding normalize_host
invalidate-get cm [] now c e = cc
invalidate-get cm (a ∷ s) now c e =
    let gone : lookup (a ∷ s) (remove (a ∷ s) c.entries) ≡ none =
      lookup-remove (a ∷ s) (a ∷ s) c.entries ∙ rw (eq_refl (a ∷ s)) refl in
    rw e (get-live (a ∷ s) now (delete (a ∷ s) c) ∙ ap (live now) gone)

-- Another institute has a verified row for the hostname.
abbrev pub is_rival : Text → Text → TenantDomain → Bool
is_rival tenant hostname x =
    x.hostname == hostname && (is_active x.verification_status && not (x.tenant_id == tenant))

module _ (db : Directory) (tenant id : Text) (t : Tenant) (now : ℕ) (latest : CustomHostname) where
  own_owner :
      (x : TenantDomain)
      → find (λ u. u.id == tenant && is_live u) db.tenants ≡ some t
      → (x.tenant_id == tenant) ≡ true
      → owner db (to_directory_row x) ≡ some t
  own_owner x o own = rw ((eq_iff x.tenant_id tenant).0 own) o

  first_owner :
      (host : Text) (r : Domain) (rs : List Domain)
      → owner db r ≡ some t
      → (r.hostname == host && is_verified r) ≡ true
      → find_owner db host (r ∷ rs) ≡ some t
  unfolding find_owner
  first_owner host r rs o h = rw (o, find_owner) (rw h refl)

  same_owner :
      (host : Text) (r : Domain) (rs : List Domain)
      → owner db r ≡ some t
      → find_owner db host rs ≡ some t
      → find_owner db host (r ∷ rs) ≡ some t
  unfolding find_owner
  same_owner host r rs o k = rw (o, find_owner) (ground arith)

  no_owner :
      (host : Text) (r : Domain) (rs : List Domain)
      → (r.hostname == host && is_verified r) ≡ false
      → find_owner db host rs ≡ some t
      → find_owner db host (r ∷ rs) ≡ some t
  unfolding find_owner
  no_owner host r rs h k = elim (Option-cases (owner db r)) [
    | inl absent ↦ rw (absent, find_owner) k
    | inr (u, is) ↦ rw (is, find_owner) (rw h k)
  ]

  find_owner-refreshed :
      (xs : List TenantDomain) (d : TenantDomain)
      → find (λ u. u.id == tenant && is_live u) db.tenants ≡ some t
      → is_active latest.status ≡ true
      → any (is_rival tenant d.hostname) xs ≡ false
      → find (is_row tenant id) xs ≡ some d
      → find_owner db d.hostname
          (map to_directory_row (update (is_row tenant id) (refreshed now latest) xs))
        ≡ some t
  find_owner-refreshed [] d o good rivals found = cc
  find_owner-refreshed (x ∷ xs) d o good rivals found = elim (Bool-cases (is_row tenant id x)) [
    | inl hit ↦
        let same : x ≡ d = ground arith in
        let own = (and-eq-true (x.tenant_id == tenant) (x.id == id) hit).0 in
        let name : (x.hostname == d.hostname) ≡ true =
          (eq_iff x.hostname d.hostname).1 (ap (λ (r : TenantDomain). r.hostname) same) in
        let verified = active-verified (refreshed now latest x) ∙ good in
        rw hit (
          first_owner d.hostname _ _ (own_owner (refreshed now latest x) o own)
            (rw (name, verified) refl))
    | inr miss ↦
        let rest = find_owner-refreshed xs d o good (ground arith) (ground arith) in
        elim (Bool-cases (x.tenant_id == tenant)) [
          | inl own ↦
              rw miss (same_owner d.hostname (to_directory_row x) _ (own_owner x o own) rest)
          | inr away ↦
              let out : (x.hostname == d.hostname && is_active x.verification_status) ≡ false =
                ground arith in
              rw miss (no_owner d.hostname (to_directory_row x) _ (rw (active-verified x) out) rest)
        ]
  ]

module _ (cm : CaseMap) (root : Text) (client : CustomHostnameClient) (now : ℕ)
    (tenant id : Text) where
  lookup-foreign :
      (db : Directory) (host : Text) (h : Text)
      → classify_host cm host root ≡ foreign h
      → lookup_uncached cm db host root ≡ find_owner db host db.domains
  unfolding lookup_uncached
  lookup-foreign db host h e = rw (e, lookup_uncached) refl

  save_refresh-cache :
      (d : TenantDomain) (latest : CustomHostname) (reg : Registry)
      → is_active d.verification_status ≡ false
      → is_active latest.status ≡ true
      → (save_refresh cm root true client now tenant id d latest reg).cache
        ≡ invalidate_tenant_cache cm (some d.hostname) reg.cache
  unfolding save_refresh
  save_refresh-cache d latest reg old good = rw (good, old) refl

  -- When the provider says that a domain that was not verified is, the institute answers at it with the
  -- very next request, whatever the cache held, provided that the institute is active, that the
  -- hostname is one that may be claimed, and that no other institute has verified it.
  pub resolve_host-refresh_domain :
      (reg : Registry) (d : TenantDomain) (cf : Text) (latest : CustomHostname)
      (tenants : List Tenant) (t : Tenant) (asked said : ℕ)
      → find_domain tenant id reg ≡ some d
      → is_active d.verification_status ≡ false
      → truthy d.cf_hostname_id ≡ some cf
      → client.get cf ≡ answered latest
      → is_active latest.status ≡ true
      → find (λ u. u.id == tenant && is_live u) tenants ≡ some t
      → claimable_hostname cm d.hostname root ≡ ok d.hostname
      → any (is_rival tenant d.hostname) reg.domains ≡ false
      → (resolve_host cm
          (directory tenants (refresh_domain cm root true client now tenant id reg))
          root
          d.hostname
          asked
          said
          (refresh_domain cm root true client now tenant id reg).cache).0
        ≡ some (context t d.hostname)
  unfolding refresh_domain find_domain save_refresh
  resolve_host-refresh_domain reg d cf latest tenants t asked said found old is reply good o claim
        rivals =
      let db = directory tenants (save_refresh cm root true client now tenant id d latest reg) in
      let (_, _, _, outside, _, _) =
        claimable_hostname-foreign cm d.hostname root d.hostname claim in
      let gone : (get d.hostname asked
            (save_refresh cm root true client now tenant id d latest reg).cache).0
          ≡ none =
        rw (save_refresh-cache d latest reg old good) (
          invalidate-get cm d.hostname asked reg.cache
            (claimable_hostname-normal cm d.hostname root claim)) in
      rw (found, is, reply, refresh_domain)
        (resolve_host-none cm root (λ w. db) 0 db d.hostname asked said _ gone
          ∙ ap (in_context cm root (λ w. db) 0 d.hostname) (
              lookup-foreign db d.hostname d.hostname outside
              ∙ find_owner-refreshed db tenant id t now latest reg.domains d o good rivals found))
