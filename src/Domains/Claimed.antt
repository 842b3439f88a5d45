-- ===== src/Domains/Claimed.antt =====
-- src/lib/domains/service.ts, and src/lib/tenancy/resolve.ts over its table: which hostnames the
-- operations let into the table.
use lamp_light.Base.{
  ℕ, ◌≡◌, refl, inl, inr, Bool, true, false, not, Option, none, some, List, [], ◌∷◌, any, All,
  if◌then◌else◌, Bool-cases, Option-cases,
}
use lamp_light.Base.Text.{Text, truthy, CaseMap}
use lamp_light.Tenancy.Host.{HostnameClaim, ok, refused, claimable_hostname}
use lamp_light.Db.Tables.{All-update, All-filter, All-append_one}
use lamp_light.Domains.Rows.{
  auth, taken, invalid, unavailable, CustomHostname, Reply, answered, cloudflare_error, other_error,
  CustomHostnameClient, TenantDomain, is_active, Registry, is_row, list_domains, find_domain,
}
use lamp_light.Domains.Service.{
  NewRow, new_domain, save_domain, is_named, after_create, refreshed, record_error, attach_claimed,
  attach_domain, save_refresh, after_get, refresh_domain, refresh_each, refresh_all_domains,
  delete_domain, released, remove_domain, release_each, release_lapsed_claims, is_other_row,
  set_primary_domain,
}

-- An operation, with the institute whose admin calls it.
pub data Operation : Type 0 where
  attach : Text → Text → NewRow → Operation
  refresh : Text → Text → Operation
  refresh_all : Text → Operation
  remove : Text → Text → Operation
  release : Text → Operation
  choose_primary : Text → Text → Operation

-- When it runs, and what the provider answers meanwhile.
pub record Circumstances : Type 0 where
  pub configured : Bool
  pub client : CustomHostnameClient
  pub now : ℕ

module _ (cm : CaseMap) (root : Text) where
  unfoldable pub operate : Circumstances → Operation → Registry → Registry
  operate c (attach tenant raw drawn) reg =
      (attach_domain cm root c.configured c.client c.now tenant raw drawn reg).1
  operate c (refresh tenant id) reg =
      refresh_domain cm root c.configured c.client c.now tenant id reg
  operate c (refresh_all tenant) reg =
      (refresh_all_domains cm root c.configured c.client c.now tenant reg).1
  operate c (remove tenant id) reg =
      (remove_domain cm root c.configured c.client c.now tenant id reg).1
  operate c (release tenant) reg =
      (release_lapsed_claims cm root c.configured c.client c.now tenant reg).1
  operate c (choose_primary tenant id) reg = (set_primary_domain cm tenant id reg).1

  unfoldable pub operated : List (Circumstances × Operation) → Registry → Registry
  unfolding operate
  operated [] reg = reg
  operated ((c, o) ∷ os) reg = operated os (operate c o reg)

  -- `claimableHostname` let the hostname in.
  abbrev pub IsClaimed : TenantDomain → Type 0
  IsClaimed d = (candidate : Text) × (claimable_hostname cm candidate root ≡ ok d.hostname)

  abbrev pub AllClaimed : Registry → Type 0
  AllClaimed reg = All IsClaimed reg.domains

  record_error-AllClaimed :
      (tenant id message : Text) (reg : Registry)
      → AllClaimed reg
      → AllClaimed (record_error tenant id message reg)
  unfolding record_error
  record_error-AllClaimed tenant id message reg h =
      All-update IsClaimed (is_row tenant id) _ (λ x k. k) reg.domains h

  one_of :
      (b : Bool) (r s : Registry) → AllClaimed r → AllClaimed s → AllClaimed (if b then r else s)
  one_of true r s h k = h
  one_of false r s h k = k

  module _ (configured : Bool) (client : CustomHostnameClient) (now : ℕ) where
    attach_claimed-AllClaimed :
        (tenant candidate hostname : Text) (drawn : NewRow) (reg : Registry)
        → claimable_hostname cm candidate root ≡ ok hostname
        → AllClaimed reg
        → AllClaimed (attach_claimed cm root configured client now tenant hostname drawn reg).1
    unfolding attach_claimed save_domain
    attach_claimed-AllClaimed tenant candidate hostname drawn reg e h =
        elim (Bool-cases (any (is_named tenant hostname) reg.domains)) [
          | inl there ↦ rw (there, attach_claimed) h
          | inr new ↦ rw (new, attach_claimed) (created (client.create hostname) drawn.id)
        ]
      where
        created :
            (r : Reply CustomHostname) (id : Option Text)
            → AllClaimed (after_create now tenant hostname r (record drawn { id = id }) reg).1
        created (answered host) none = h
        created (answered host) (some id) =
            All-append_one IsClaimed reg.domains
              (new_domain now tenant hostname host id drawn.created_at) h (candidate, e)
        created (cloudflare_error kind message) id = h
        created other_error id = h

    attach_domain-AllClaimed :
        (tenant raw : Text) (drawn : NewRow) (reg : Registry)
        → AllClaimed reg
        → AllClaimed (attach_domain cm root configured client now tenant raw drawn reg).1
    unfolding attach_domain
    attach_domain-AllClaimed tenant raw drawn reg h = elim (Bool-cases configured) [
      | inr off ↦ rw (off, attach_domain) h
      | inl on ↦ rw on (claimed (claimable_hostname cm raw root) refl)
    ]
      where
        claimed :
            (k : HostnameClaim)
            → claimable_hostname cm raw root ≡ k
            → AllClaimed (attach_domain cm root true client now tenant raw drawn reg).1
        claimed (refused reason) e = rw (e, attach_domain) h
        claimed (ok hostname) e =
            rw (e, attach_domain) (attach_claimed-AllClaimed tenant raw hostname drawn reg e h)

    after_get-AllClaimed :
        (tenant id : Text) (d : TenantDomain) (r : Reply CustomHostname) (reg : Registry)
        → AllClaimed reg
        → AllClaimed (after_get cm root configured client now tenant id d r reg)
    unfolding save_refresh
    after_get-AllClaimed tenant id d (answered latest) reg h =
        All-update IsClaimed (is_row tenant id) (refreshed now latest) (λ x k. k) reg.domains h
    after_get-AllClaimed tenant id d (cloudflare_error unavailable m) reg h = h
    after_get-AllClaimed tenant id d (cloudflare_error auth m) reg h =
        record_error-AllClaimed tenant id _ reg h
    after_get-AllClaimed tenant id d (cloudflare_error taken m) reg h =
        record_error-AllClaimed tenant id _ reg h
    after_get-AllClaimed tenant id d (cloudflare_error invalid m) reg h =
        record_error-AllClaimed tenant id _ reg h
    after_get-AllClaimed tenant id d other_error reg h = record_error-AllClaimed tenant id _ reg h

    refresh_domain-AllClaimed :
        (tenant id : Text) (reg : Registry)
        → AllClaimed reg
        → AllClaimed (refresh_domain cm root configured client now tenant id reg)
    unfolding refresh_domain
    refresh_domain-AllClaimed tenant id reg h = elim (Option-cases (find_domain tenant id reg)) [
      | inl absent ↦ rw (absent, refresh_domain) h
      | inr (d, found) ↦ elim (Option-cases (truthy d.cf_hostname_id)) [
        | inl missing ↦ rw (found, missing, refresh_domain) h
        | inr (cf, is) ↦
            rw (found, is, refresh_domain)
              (one_of configured _ _ (after_get-AllClaimed tenant id d (client.get cf) reg h) h)
      ]
    ]

    refresh_each-AllClaimed :
        (tenant : Text) (ds : List TenantDomain) (reg : Registry)
        → AllClaimed reg
        → AllClaimed (refresh_each cm root configured client now tenant ds reg)
    unfolding refresh_each
    refresh_each-AllClaimed tenant [] reg h = h
    refresh_each-AllClaimed tenant (d ∷ ds) reg h = refresh_each-AllClaimed tenant ds _ (
        one_of (is_active d.verification_status) reg
          (refresh_domain cm root configured client now tenant d.id reg) h
          (refresh_domain-AllClaimed tenant d.id reg h))

    remove_domain-AllClaimed :
        (tenant id : Text) (reg : Registry)
        → AllClaimed reg
        → AllClaimed (remove_domain cm root configured client now tenant id reg).1
    unfolding remove_domain delete_domain
    remove_domain-AllClaimed tenant id reg h = elim (Option-cases (find_domain tenant id reg)) [
      | inl absent ↦ rw (absent, remove_domain) h
      | inr (d, found) ↦ elim (Bool-cases (released cm root configured client now d)) [
        | inl gone ↦
            rw (found, gone, remove_domain)
              (All-filter IsClaimed (λ x. not (is_row tenant id x)) reg.domains h)
        | inr held ↦ rw (found, held, remove_domain) h
      ]
    ]

    release_each-AllClaimed :
        (tenant : Text) (ds : List TenantDomain) (reg : Registry)
        → AllClaimed reg
        → AllClaimed (release_each cm root configured client now tenant ds reg).1
    unfolding release_each
    release_each-AllClaimed tenant [] reg h = h
    release_each-AllClaimed tenant (d ∷ ds) reg h =
        let k = remove_domain-AllClaimed tenant d.id reg h in
        elim (Bool-cases (remove_domain cm root configured client now tenant d.id reg).0) [
          | inl gone ↦ rw (gone, release_each) (release_each-AllClaimed tenant ds _ k)
          | inr held ↦ rw (held, release_each) k
        ]

  set_primary_domain-AllClaimed :
      (tenant id : Text) (reg : Registry)
      → AllClaimed reg
      → AllClaimed (set_primary_domain cm tenant id reg).1
  unfolding set_primary_domain
  set_primary_domain-AllClaimed tenant id reg h = elim (Option-cases (find_domain tenant id reg)) [
    | inl absent ↦ rw (absent, set_primary_domain) h
    | inr (d, found) ↦ elim (Bool-cases (is_active d.verification_status)) [
      | inr other ↦ rw (found, other, set_primary_domain) h
      | inl live ↦
          rw (found, live, set_primary_domain)
            (All-update IsClaimed (is_row tenant id) _ (λ x k. k) _
              (All-update IsClaimed (is_other_row tenant id) _ (λ x k. k) reg.domains h))
    ]
  ]

  operate-AllClaimed :
      (c : Circumstances) (o : Operation) (reg : Registry)
      → AllClaimed reg
      → AllClaimed (operate c o reg)
  unfolding operate refresh_all_domains release_lapsed_claims
  operate-AllClaimed c (attach tenant raw drawn) reg h =
      attach_domain-AllClaimed c.configured c.client c.now tenant raw drawn reg h
  operate-AllClaimed c (refresh tenant id) reg h =
      refresh_domain-AllClaimed c.configured c.client c.now tenant id reg h
  operate-AllClaimed c (refresh_all tenant) reg h =
      refresh_each-AllClaimed c.configured c.client c.now tenant (list_domains tenant reg) reg h
  operate-AllClaimed c (remove tenant id) reg h =
      remove_domain-AllClaimed c.configured c.client c.now tenant id reg h
  operate-AllClaimed c (release tenant) reg h =
      release_each-AllClaimed c.configured c.client c.now tenant _ reg h
  operate-AllClaimed c (choose_primary tenant id) reg h =
      set_primary_domain-AllClaimed tenant id reg h

  pub operated-AllClaimed :
      (os : List (Circumstances × Operation)) (reg : Registry)
      → AllClaimed reg
      → AllClaimed (operated os reg)
  unfolding operated
  operated-AllClaimed [] reg h = h
  operated-AllClaimed ((c, o) ∷ os) reg h =
      operated-AllClaimed os (operate c o reg) (operate-AllClaimed c o reg h)
