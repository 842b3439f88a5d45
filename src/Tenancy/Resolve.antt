-- ===== src/Tenancy/Resolve.antt =====
-- src/lib/tenancy/resolve.ts, with the two lookups of src/db/client.ts that it makes: from a Host
-- header to the institute, through a cache of hits and misses. The times are `Date.now()`.
pub mod Sources
pub mod Staleness
use lamp_light.Base.{
  ℕ, Bool, true, false, ◌&&◌, Option, none, some, List, [], ◌∷◌, ◌++◌, if◌then◌else◌, find,
}
use lamp_light.Base.Text.{Text, codes, ◌==◌, truthy, CaseMap}
use lamp_light.Cache.{TtlCache, new, get, set, delete, clear}
use lamp_light.Tenancy.Host.{
  HostClassification, apex, subdomain, foreign, normalize_host, classify_host, is_valid_slug,
}

pub data TenantStatus : Type 0 where
  pending active suspended : TenantStatus

pub data VerificationStatus : Type 0 where
  pending verifying active failed : VerificationStatus

-- The rows of `tenants` and of `tenant_domains` that host resolution reads.
pub record Tenant : Type 0 where
  pub id : Text
  pub slug : Text
  pub name : Text
  pub status : TenantStatus

pub record Domain : Type 0 where
  pub tenant_id : Text
  pub hostname : Text
  pub status : VerificationStatus

pub record Directory : Type 0 where
  pub tenants : List Tenant
  pub domains : List Domain

abbrev pub is_live : Tenant → Bool
is_live t = elim t.status [ TenantStatus.active ↦ true | _ ↦ false ]

abbrev pub is_verified : Domain → Bool
is_verified d = elim d.status [ VerificationStatus.active ↦ true | _ ↦ false ]

-- `resolve_tenant_by_host`: a verified domain of an active institute. Its `lower` changes nothing,
-- since a normalized host is in lower case.
abbrev pub owner : Directory → Domain → Option Tenant
owner db d = find (λ t. t.id == d.tenant_id && is_live t) db.tenants

unfoldable pub find_owner : Directory → Text → List Domain → Option Tenant
unfolding ◌==◌
find_owner db host [] = none
find_owner db host (d ∷ ds) = elim (owner db d) [
  | some t ↦ if d.hostname == host && is_verified d then some t else find_owner db host ds
  | none ↦ find_owner db host ds
]

abbrev pub lookup_tenant_by_host : Directory → Text → Option Tenant
lookup_tenant_by_host db host = find_owner db host db.domains

unfoldable pub lookup_tenant_by_slug : Directory → Text → Option Tenant
unfolding ◌==◌
lookup_tenant_by_slug db slug = find (λ t. t.slug == slug && is_live t) db.tenants

pub record TenantContext : Type 0 where
  pub id : Text
  pub slug : Text
  pub name : Text
  pub host : Text

abbrev pub context : Tenant → Text → TenantContext
context t host = record { id = t.id; slug = t.slug; name = t.name; host = host }

pub data CacheEntry : Type 0 where
  hit : TenantContext → CacheEntry
  miss : CacheEntry

abbrev pub cache_max_entries : ℕ
cache_max_entries = 1000

abbrev pub hit_ttl_ms : ℕ
hit_ttl_ms = 60000

abbrev pub miss_ttl_ms : ℕ
miss_ttl_ms = 5000

abbrev pub TenantCache : Type 0
TenantCache = TtlCache CacheEntry

abbrev pub empty_cache : TenantCache
empty_cache = new cache_max_entries hit_ttl_ms

pub record Env : Type 0 where
  -- `TENANCY_MODE === 'single'`
  pub single : Bool
  pub single_tenant_slug : Option Text
  pub tenant_subdomain_root : Text

-- `byHost`, and if there is none the slug of a subdomain.
abbrev pub or_else_tenant : Option Tenant → Option Tenant → Option Tenant
or_else_tenant none o = o
or_else_tenant (some t) o = some t

abbrev pub by_label : Directory → HostClassification → Option Tenant
by_label db (subdomain slug) = if is_valid_slug slug then lookup_tenant_by_slug db slug else none
by_label db apex = none
by_label db (foreign host) = none

module _ (cm : CaseMap) where
  abbrev pub invalidate_tenant_cache : Option Text → TenantCache → TenantCache
  invalidate_tenant_cache none c = clear c
  invalidate_tenant_cache (some []) c = clear c
  invalidate_tenant_cache (some host) c = elim (normalize_host cm (some host)) [
    | none ↦ c
    | some normalized ↦ delete normalized c
  ]

  unfoldable pub lookup_uncached : Directory → Text → Text → Option Tenant
  unfolding classify_host find_owner lookup_tenant_by_slug is_valid_slug
  lookup_uncached db host root = elim (classify_host cm host root) [
    | apex ↦ none
    | subdomain slug ↦ or_else_tenant (lookup_tenant_by_host db host) (by_label db (subdomain slug))
    | foreign h ↦ lookup_tenant_by_host db host
  ]

  -- What `resolveTenant` writes to the cache and returns after a lookup.
  unfoldable pub remember :
      Text → Option Tenant → ℕ → TenantCache → Option TenantContext × TenantCache
  unfolding set
  remember host none now c = (none, set host miss (some miss_ttl_ms) now c)
  remember host (some t) now c = (some (context t host), set host (hit (context t host)) none now c)

  -- The cache is read at the first time, the directory is read, and the answer is written at the
  -- second.
  unfoldable pub resolve_host :
      Directory → Text → Text → ℕ → ℕ → TenantCache → Option TenantContext × TenantCache
  resolve_host db root host asked answered c =
      let (cached, c') = get host asked c in
      elim cached [
        | some (hit t) ↦ (some t, c')
        | some miss ↦ (none, c')
        | none ↦ remember host (lookup_uncached db host root) answered c'
      ]

  abbrev pub single_key : Text → Text
  single_key slug = codes "single:" ++ slug

  abbrev pub host_or : Option Text → Text → Text
  host_or none d = d
  host_or (some h) d = h

  abbrev pub remember_single :
      Text → Text → Option Tenant → ℕ → TenantCache → Option TenantContext × TenantCache
  remember_single slug host none now c = (none, c)
  remember_single slug host (some t) now c =
      (some (context t host), set (single_key slug) (hit (context t host)) none now c)

  unfoldable pub resolve_single_tenant :
      Directory → Text → Option Text → ℕ → ℕ → TenantCache → Option TenantContext × TenantCache
  resolve_single_tenant db slug raw asked answered c =
      let host = host_or (normalize_host cm raw) slug in
      let (cached, c') = get (single_key slug) asked c in
      elim cached [
        | some (hit t) ↦ (some (record t { host = host }), c')
        | some miss ↦ remember_single slug host (lookup_tenant_by_slug db slug) answered c'
        | none ↦ remember_single slug host (lookup_tenant_by_slug db slug) answered c'
      ]

  unfoldable pub resolve_tenant :
      Env → Directory → Option Text → ℕ → ℕ → TenantCache → Option TenantContext × TenantCache
  resolve_tenant env db raw asked answered c =
      if env.single
      then elim (truthy env.single_tenant_slug) [
        | none ↦ (none, c)
        | some slug ↦ resolve_single_tenant db slug raw asked answered c
      ]
      else elim (normalize_host cm raw) [
        | none ↦ (none, c)
        | some host ↦ resolve_host db env.tenant_subdomain_root host asked answered c
      ]
