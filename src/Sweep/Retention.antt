-- ===== src/Sweep/Retention.antt =====
-- src/app/api/platform/sweep/route.ts: which invitations are left after a sweep.
use lamp_light.Base.{
  ℕ, ◌+◌, ◌≤◌, ◌≡◌, refl, Bool, true, false, not, Option, none, some, List, [], ◌∷◌, any, filter,
  length, All, arith,
}
use lamp_light.Base.Text.{Text, eq_refl, truthy, CaseMap}
use lamp_light.Db.{Invitation, Database}
use lamp_light.Db.Tables.{any-remove_rows, any-filter_stays}
use lamp_light.Auth.Invitations.{is_expired, is_spent, sweep_invitations}
use lamp_light.Domains.Rows.{CustomHostnameClient}
use lamp_light.Sweep.{
  Site, Counts, no_counts, swept, sweep_registry, sweep_tenant, sweep_each, secrets_match,
  count_release, or_empty, post_sweep,
}

-- No row of the institute is past its time.
abbrev pub IsTidy : Database → Text × ℕ → Type 0
IsTidy db (tenant, now) =
    (any (is_expired now tenant) db.invitations ≡ false)
    × (any (is_spent now tenant) db.invitations ≡ false)

swept_rows :
    (now : ℕ) (tenant : Text) (db : Database)
    → IsTidy (sweep_invitations now tenant db).1 (tenant, now)
unfolding sweep_invitations
swept_rows now tenant db = (
  any-filter_stays (λ i. not (is_spent now tenant i)) (is_expired now tenant) _
      (any-remove_rows (is_expired now tenant) db.invitations),
  any-remove_rows (is_spent now tenant)
      (filter (λ i. not (is_expired now tenant i)) db.invitations),
)

swept_stays :
    (now : ℕ) (tenant : Text) (p : Invitation → Bool) (db : Database)
    → any p db.invitations ≡ false
    → any p (sweep_invitations now tenant db).1.invitations ≡ false
unfolding sweep_invitations
swept_stays now tenant p db h =
    any-filter_stays (λ i. not (is_spent now tenant i)) p _
      (any-filter_stays (λ i. not (is_expired now tenant i)) p db.invitations h)

count_release-failed : (n : Counts) (o : Option ℕ) → (count_release n o).failed ≤ n.failed + 1
count_release-failed n none = omega arith
count_release-failed n (some k) = omega arith

failed_grows :
    (cm : CaseMap) (apex : Text) (configured : Bool) (client : CustomHostnameClient) (now : ℕ)
    (tenant : Text) (s : Counts × Site)
    → (sweep_tenant cm apex configured client now tenant s).0.failed ≤ s.0.failed + 1
unfolding sweep_tenant sweep_registry
failed_grows cm apex true client now tenant s = count_release-failed _ _
failed_grows cm apex false client now tenant s = omega arith

module _ (cm : CaseMap) (apex : Text) (configured : Bool) (client : CustomHostnameClient) where
  sweep_tenant-db :
      (now : ℕ) (tenant : Text) (s : Counts × Site)
      → (sweep_tenant cm apex configured client now tenant s).1.db
        ≡ (sweep_invitations now tenant s.1.db).1
  unfolding sweep_tenant
  sweep_tenant-db now tenant s = ground arith

  sweep_each-stays :
      (p : Invitation → Bool) (ts : List (Text × ℕ)) (s : Counts × Site)
      → any p s.1.db.invitations ≡ false
      → any p (sweep_each cm apex configured client ts s).1.db.invitations ≡ false
  unfolding sweep_each
  sweep_each-stays p [] s h = h
  sweep_each-stays p ((tenant, now) ∷ ts) s h =
      sweep_each-stays p ts _
        (rw (sweep_tenant-db now tenant s) (swept_stays now tenant p s.1.db h))

  sweep_each-IsTidy :
      (ts : List (Text × ℕ)) (s : Counts × Site)
      → All (IsTidy (sweep_each cm apex configured client ts s).1.db) ts
  unfolding sweep_each
  sweep_each-IsTidy [] s = tt
  sweep_each-IsTidy ((tenant, now) ∷ ts) s =
      let (e, p) = swept_rows now tenant s.1.db in
      (
        (
          sweep_each-stays (is_expired now tenant) ts _ (rw (sweep_tenant-db now tenant s) e),
          sweep_each-stays (is_spent now tenant) ts _ (rw (sweep_tenant-db now tenant s) p),
        ),
        sweep_each-IsTidy ts _,
      )

  sweep_each-failed :
      (ts : List (Text × ℕ)) (s : Counts × Site)
      → (sweep_each cm apex configured client ts s).0.failed ≤ s.0.failed + length ts
  unfolding sweep_each
  sweep_each-failed [] s = omega arith
  sweep_each-failed ((tenant, now) ∷ ts) s = omega (
    arith,
    failed_grows cm apex configured client now tenant s,
    sweep_each-failed ts (sweep_tenant cm apex configured client now tenant s),
  )

  -- A sweep that is asked for with the secret takes its turn at every institute, whatever the provider
  -- answers, and also where the turns of others failed: afterwards no institute of the list holds an
  -- unconsumed invitation that had expired, or a consumed one that was beyond its retention, when its
  -- turn came. At most one failure is counted for each institute.
  pub post_sweep-IsTidy :
      (secret offered : Option Text) (expected : Text) (ts : List (Text × ℕ)) (site : Site)
      → truthy secret ≡ some expected
      → or_empty cm apex configured client offered ≡ expected
      → (n : Counts) × ((post_sweep cm apex configured client secret offered ts site).0
          ≡ swept (length ts) n configured)
        × All (IsTidy (post_sweep cm apex configured client secret offered ts site).1.db) ts
        × (n.failed ≤ length ts)
  unfolding post_sweep
  post_sweep-IsTidy secret offered expected ts site e same =
      let done = sweep_each cm apex configured client ts (no_counts, site) in
      let match : secrets_match (or_empty cm apex configured client offered) expected ≡ true =
        rw same (eq_refl expected) in
      (
        done.0,
        rw (e, match, post_sweep) refl,
        rw (e, match, post_sweep) (sweep_each-IsTidy ts (no_counts, site)),
        omega (arith, sweep_each-failed ts (no_counts, site)),
      )
