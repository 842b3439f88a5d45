-- ===== src/Tenancy/Resolve/Sources.antt =====
-- resolve.ts, `lookupUncached`: by which rows a host resolves.
use lamp_light.Base.{
  ◌≡◌, refl, sym, ap, ◌∙◌, ◌⊎◌, inl, inr, ◌≢◌, Bool, true, false, ◌&&◌, Option, none, some, List,
  [], ◌∷◌, ◌++◌, if◌then◌else◌, find_sound, All, arith, Bool-cases, and-eq-true, Memᴰ,
}
use lamp_light.Base.Text.{Text, codes, ◌==◌, eq_iff, has, CaseMap}
use lamp_light.Tenancy.Host.{
  HostClassification, apex, subdomain, foreign, nonempty, dotted, apex_name, classify_host,
  is_valid_slug, ok, claimable_hostname,
}
use lamp_light.Tenancy.Host.Classify.{
  classify_host-subdomain_sound, classify_host-subdomain_complete,
}
use lamp_light.Tenancy.Host.Claims.{claimable_hostname-foreign, is_valid_slug-no_dot}
use lamp_light.Tenancy.Resolve.{
  Tenant, Domain, Directory, is_live, is_verified, owner, find_owner, lookup_tenant_by_host,
  lookup_tenant_by_slug, or_else_tenant, by_label, lookup_uncached,
}

-- The institute has a verified domain row for the host.
pub record Owns (db : Directory) (t : Tenant) (host : Text) : Type 0 where
  pub domain : Domain
  pub listed : Memᴰ domain db.domains
  pub named : domain.hostname ≡ host
  pub verified : is_verified domain ≡ true
  pub owned : domain.tenant_id ≡ t.id

owner_sound :
    (db : Directory) (d : Domain) (t : Tenant)
    → owner db d ≡ some t
    → Memᴰ t db.tenants × (t.id ≡ d.tenant_id) × (is_live t ≡ true)
owner_sound db d t e =
    let (m, h) = find_sound (λ u. u.id == d.tenant_id && is_live u) db.tenants t e in
    let (same, good) = and-eq-true (t.id == d.tenant_id) (is_live t) h in
    (m, (eq_iff _ _).0 same, good)

-- The rows among `ds` that make the host resolve.
record Found (db : Directory) (t : Tenant) (host : Text) (ds : List Domain) : Type 0 where
  domain : Domain
  listed : Memᴰ domain ds
  named : domain.hostname ≡ host
  verified : is_verified domain ≡ true
  owned : owner db domain ≡ some t

Found-tail :
    {db : Directory} {t : Tenant} {host : Text} {ds : List Domain} (d : Domain)
    → Found db t host ds
    → Found db t host (d ∷ ds)
Found-tail d f = record {
  domain = f.domain;
  listed = Memᴰ.tail f.listed;
  named = f.named;
  verified = f.verified;
  owned = f.owned;
}

-- One step of the search: an active owner and a matching verified row, or the rows behind.
row_cases :
    (o : Option Tenant) (b : Bool) (rest : Option Tenant) (t : Tenant)
    → elim o as (λ _. Option Tenant) [ none ↦ rest | some u ↦ if b then some u else rest ] ≡ some t
    → ((o ≡ some t) × (b ≡ true)) ⊎ (rest ≡ some t)
row_cases none b rest t e = inr e
row_cases (some u) true rest t e = inl (e, refl)
row_cases (some u) false rest t e = inr e

find_owner_sound :
    (db : Directory) (host : Text) (ds : List Domain) (t : Tenant)
    → find_owner db host ds ≡ some t
    → Found db t host ds
unfolding find_owner
find_owner_sound db host [] t e = cc
find_owner_sound db host (d ∷ ds) t e =
    elim (row_cases (owner db d) (d.hostname == host && is_verified d) (find_owner db host ds) t
      e) [
        | inr later ↦ Found-tail d (find_owner_sound db host ds t later)
        | inl (owned, b) ↦
            let (same, good) = and-eq-true (d.hostname == host) (is_verified d) b in
            record {
              domain = d;
              listed = Memᴰ.head refl;
              named = (eq_iff d.hostname host).0 same;
              verified = good;
              owned = owned;
            }
      ]

lookup_by_host_sound :
    (db : Directory) (host : Text) (t : Tenant)
    → lookup_tenant_by_host db host ≡ some t
    → Memᴰ t db.tenants × (is_live t ≡ true) × Owns db t host
lookup_by_host_sound db host t e =
    let f = find_owner_sound db host db.domains t e in
    let (m, same, good) = owner_sound db f.domain t f.owned in
    (
      m,
      good,
      record {
        domain = f.domain;
        listed = f.listed;
        named = f.named;
        verified = f.verified;
        owned = sym same;
      },
    )

lookup_by_slug_sound :
    (db : Directory) (slug : Text) (t : Tenant)
    → lookup_tenant_by_slug db slug ≡ some t
    → Memᴰ t db.tenants × (is_live t ≡ true) × (t.slug ≡ slug)
unfolding lookup_tenant_by_slug
lookup_by_slug_sound db slug t e =
    let (m, h) = find_sound (λ u. u.slug == slug && is_live u) db.tenants t e in
    let (same, good) = and-eq-true (t.slug == slug) (is_live t) h in (m, good, (eq_iff _ _).0 same)

or_else_cases :
    (a b : Option Tenant) (t : Tenant)
    → or_else_tenant a b ≡ some t
    → (a ≡ some t) ⊎ ((a ≡ none) × (b ≡ some t))
or_else_cases none b t e = inr (refl, e)
or_else_cases (some u) b t e = inl e

module _ (cm : CaseMap) (db : Directory) (root : Text) where
  -- By which right an institute answers at a host: a verified domain of its own, or its slug.
  abbrev pub Entitled : Text → Tenant → Type 0
  Entitled host t =
      Owns db t host
      ⊎ ((host ≡ t.slug ++ dotted (apex_name cm root)) × (is_valid_slug t.slug ≡ true))

  -- The lookups that each kind of host allows.
  abbrev by_class : Text → HostClassification → Option Tenant
  by_class host apex = none
  by_class host (subdomain slug) =
      or_else_tenant (lookup_tenant_by_host db host) (by_label db (subdomain slug))
  by_class host (foreign h) = lookup_tenant_by_host db host

  lookup_uncached_lem :
      (host : Text) → lookup_uncached cm db host root ≡ by_class host (classify_host cm host root)
  unfolding lookup_uncached
  lookup_uncached_lem host = ground arith

  by_kind :
      (host : Text) (k : HostClassification) (t : Tenant)
      → classify_host cm host root ≡ k
      → by_class host k ≡ some t
      → Memᴰ t db.tenants × (is_live t ≡ true) × Entitled host t
  by_kind host apex t k e = cc
  by_kind host (foreign h) t k e =
      let (m, good, o) = lookup_by_host_sound db host t e in (m, good, inl o)
  by_kind host (subdomain slug) t k e =
      elim (or_else_cases (lookup_tenant_by_host db host) (by_label db (subdomain slug)) t e) [
        | inl own ↦ let (m, good, o) = lookup_by_host_sound db host t own in (m, good, inl o)
        | inr (_, label) ↦ elim (Bool-cases (is_valid_slug slug)) [
          | inl valid ↦
              let (m, good, same) = lookup_by_slug_sound db slug t (ground arith) in
              let whole = (classify_host-subdomain_sound cm root host slug k).0 in
              (m, good, inr (rw same whole, rw same valid))
          | inr bad ↦ absurd (ground arith)
        ]
      ]

  -- An institute answers at a host only if it is active and either has a verified domain row with
  -- that very hostname, or its own valid slug is the one label in front of the subdomain root.
  pub lookup_uncached_sound :
      (host : Text) (t : Tenant)
      → lookup_uncached cm db host root ≡ some t
      → Memᴰ t db.tenants × (is_live t ≡ true) × Entitled host t
  lookup_uncached_sound host t e =
      by_kind host (classify_host cm host root) t refl (sym (lookup_uncached_lem host) ∙ e)

  -- No row is named `host`.
  abbrev Unlisted : Text → List Domain → Type 0
  Unlisted host = All (λ d. d.hostname ≢ host)

  Unlisted-lookup :
      (host : Text) (ds : List Domain) → Unlisted host ds → find_owner db host ds ≡ none
  unfolding find_owner
  Unlisted-lookup host [] u = refl
  Unlisted-lookup host (d ∷ ds) (n, u) = elim (Bool-cases (d.hostname == host)) [
    | inl same ↦ absurd (n ((eq_iff d.hostname host).0 same))
    | inr other ↦ ground (arith, Unlisted-lookup host ds u)
  ]

  -- Every domain row was let in by `claimableHostname`, whose apex is the subdomain root.
  abbrev pub Claimed : Domain → Type 0
  Claimed d = (candidate : Text) × (claimable_hostname cm candidate root ≡ ok d.hostname)

  Claimed-Unlisted :
      (slug : Text) (ds : List Domain)
      → nonempty slug ≡ true
      → has b'.' slug ≡ false
      → slug ≢ codes "www"
      → All Claimed ds
      → Unlisted (slug ++ dotted (apex_name cm root)) ds
  Claimed-Unlisted slug [] n d w u = tt
  Claimed-Unlisted slug (r ∷ ds) n d w ((candidate, claim), u) = (
    λ e.
        let outside = (claimable_hostname-foreign cm candidate root r.hostname claim).3 in
        let inside = classify_host-subdomain_complete cm root slug n d w in
        cc (outside, inside, ap (λ h. classify_host cm h root) e),
    Claimed-Unlisted slug ds n d w u,
  )

  slug_alone :
      (host slug : Text)
      → is_valid_slug slug ≡ true
      → find_owner db host db.domains ≡ none
      → by_class host (subdomain slug) ≡ lookup_tenant_by_slug db slug
  slug_alone host slug v alone = rw (alone, v) refl

  -- While every domain row was claimed under the apex that subdomains are resolved by, the address
  -- of a slug other than `www` resolves by the slug alone: no claimed domain can take it over.
  pub lookup_uncached-slug :
      (slug : Text)
      → is_valid_slug slug ≡ true
      → slug ≢ codes "www"
      → All Claimed db.domains
      → lookup_uncached cm db (slug ++ dotted (apex_name cm root)) root
        ≡ lookup_tenant_by_slug db slug
  lookup_uncached-slug slug v w u =
      let (d, n) = is_valid_slug-no_dot slug v in
      let host = slug ++ dotted (apex_name cm root) in
      let inside = classify_host-subdomain_complete cm root slug n d w in
      let alone = Unlisted-lookup host db.domains (Claimed-Unlisted slug db.domains n d w u) in
      lookup_uncached_lem host ∙ ap (by_class host) inside ∙ slug_alone host slug v alone
