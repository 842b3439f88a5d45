-- ===== src/Sweep.antt =====
-- src/app/api/platform/sweep/route.ts: the periodic maintenance of all institutes. The list pairs each
-- active institute with the time at which its turn comes; `secret` is DOMAIN_SWEEP_SECRET.
pub mod Retention
use lamp_light.Base.{
  ℕ, zero, suc, ◌+◌, Bool, true, false, Option, none, some, List, [], ◌∷◌, length, if◌then◌else◌,
}
use lamp_light.Base.Text.{Text, ◌==◌, truthy, CaseMap}
use lamp_light.Db.{Database}
use lamp_light.Auth.Invitations.{InvitationSweepResult, sweep_invitations}
use lamp_light.Domains.Rows.{CustomHostnameClient, TenantDomain, Registry}
use lamp_light.Domains.Service.{refresh_all_domains, release_lapsed_claims}

-- The institutes' tables, and the one of their domains.
pub record Site : Type 0 where
  pub db : Database
  pub registry : Registry

pub record Counts : Type 0 where
  pub refreshed : ℕ
  pub released : ℕ
  pub expired : ℕ
  pub spent : ℕ
  pub failed : ℕ

abbrev pub no_counts : Counts
no_counts = record { refreshed = 0; released = 0; expired = 0; spent = 0; failed = 0 }

pub data SweepAnswer : Type 0 where
  not_found : SweepAnswer
  swept : (tenants : ℕ) → Counts → Bool → SweepAnswer

-- The bytes of two texts are equal where the texts are.
abbrev pub secrets_match : Text → Text → Bool
secrets_match offered expected = offered == expected

-- The release answers how many, or throws.
abbrev pub count_release : Counts → Option ℕ → Counts
count_release n (some k) = record n { released = n.released + k }
count_release n none = record n { failed = n.failed + 1 }

abbrev pub count_invitations : Counts → InvitationSweepResult → Counts
count_invitations n r = record n { expired = n.expired + r.expired; spent = n.spent + r.spent }

module _ (cm : CaseMap) (apex : Text) (configured : Bool) (client : CustomHostnameClient) where
  unfoldable pub sweep_registry : ℕ → Text → Counts → Registry → Counts × Registry
  unfolding refresh_all_domains release_lapsed_claims
  sweep_registry now tenant n reg =
      let (rows, refreshed) = refresh_all_domains cm apex configured client now tenant reg in
      let (released, after) =
        release_lapsed_claims cm apex configured client now tenant refreshed in
      (count_release (record n { refreshed = n.refreshed + length rows }) released, after)

  -- The turn of one institute.
  unfoldable pub sweep_tenant : ℕ → Text → Counts × Site → Counts × Site
  unfolding sweep_invitations sweep_registry
  sweep_tenant now tenant (n, site) =
      let (result, db) = sweep_invitations now tenant site.db in
      let counted = count_invitations n result in
      let (m, reg) = sweep_registry now tenant counted site.registry in
      if configured
      then (m, record { db = db; registry = reg })
      else (counted, record { db = db; registry = site.registry })

  unfoldable pub sweep_each : List (Text × ℕ) → Counts × Site → Counts × Site
  unfolding sweep_tenant
  sweep_each [] s = s
  sweep_each ((tenant, now) ∷ rest) s = sweep_each rest (sweep_tenant now tenant s)

  abbrev pub or_empty : Option Text → Text
  or_empty none = []
  or_empty (some t) = t

  -- `POST`, with the header of the request.
  unfoldable pub post_sweep :
      Option Text → Option Text → List (Text × ℕ) → Site → SweepAnswer × Site
  unfolding sweep_each ◌==◌
  post_sweep secret offered tenants site = elim (truthy secret) [
    | none ↦ (not_found, site)
    | some expected ↦
        let (n, after) = sweep_each tenants (no_counts, site) in
        if secrets_match (or_empty offered) expected
        then (swept (length tenants) n configured, after)
        else (not_found, site)
  ]
