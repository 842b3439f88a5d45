-- ===== src/Tests/Entitlements.antt =====
-- Runs of src/lib/entitlements.
use lamp_light.Base.{
  ◌≡◌, ◌≢◌, refl, ap, ◌⊎◌, Bool, true, false, ◌||◌, Option, none, some, Memᴰ, any, ltb, ◌&&◌,
}
use lamp_light.Base.Text.{Text, codes, ◌==◌}
use lamp_light.Db.{program, course, Enrollment}
use lamp_light.Db.Isolation.{restrict}
use lamp_light.Db.Queries.{Keyed}
use lamp_light.Db.Entitlements.{find_membership, has_active_entitlement, list_grantable_sources}
use lamp_light.Access.Predicate.{scope_of}
use lamp_light.Entitlements.Grants.{
  granted, GrantRequest, is_same_grant, source_exists, grant_checked, grant_enrollment,
  RevokeRequest, is_target, revoke_enrollment,
}
use lamp_light.Entitlements.Grants.Outcomes.{is_granted, IsGrant, Refusal}
use lamp_light.Entitlements.Grants.Effects.{
  grant_enrollment_cases, grant_enrollment-access, grant_enrollment-already,
}
use lamp_light.Entitlements.Grants.Boundaries.{
  same_grant, grant_enrollment-elsewhere, revoke_enrollment-elsewhere, grant_enrollment-Keyed,
  revoke_enrollment-grant_enrollment,
}
use lamp_light.Tests.Data.{here, there, ana, ben, geometry, rows_here}

abbrev as_listed : Text → Text → Bool
as_listed a b = true

abbrev request : GrantRequest
request = record {
  tenant_id = here;
  actor_user_id = codes "root";
  user_id = ben;
  source_kind = course;
  source_id = geometry;
  expires_at = some 900;
  reason = none;
}

-- The program that is granted already.
abbrev again : GrantRequest
again = record request { user_id = ana; source_kind = program; source_id = codes "p1" }

abbrev revocation : RevokeRequest
revocation = record {
  tenant_id = here;
  actor_user_id = codes "root";
  enrollment_id = codes "e2";
  reason = none;
}

abbrev new_id : Option Text
new_id = some (codes "e2")

is_made : (grant_enrollment as_listed 100 request new_id rows_here).0 ≡ granted (codes "e2")
unfolding grant_enrollment find_membership source_exists list_grantable_sources grant_checked ◌==◌
is_made = refl

grant_enrollment_cases_example :
    ((id : Text) × ((grant_enrollment as_listed 100 request new_id rows_here).0 ≡ granted id)
      × IsGrant as_listed 100 request new_id rows_here id)
    ⊎ (((grant_enrollment as_listed 100 request new_id rows_here).1 ≡ rows_here)
        × Refusal as_listed 100 request new_id rows_here
            (grant_enrollment as_listed 100 request new_id rows_here).0)
grant_enrollment_cases_example = grant_enrollment_cases as_listed 100 request new_id rows_here

grant_enrollment-access_example :
    has_active_entitlement 500
      (scope_of (grant_enrollment as_listed 100 request new_id rows_here).1 here)
      ben
      geometry
    ≡ (has_active_entitlement 500 (scope_of rows_here here) ben geometry
        || (here == here && (ben == ben && (ltb 500 900 && geometry == geometry))))
grant_enrollment-access_example =
    grant_enrollment-access as_listed 100 request new_id rows_here (codes "e2") 500 here ben
      geometry is_made

other_institute : there ≢ here
unfolding ◌==◌
other_institute e = absurd (differ (ap (λ t. t == here) e))
  where
    differ : ¬ (false ≡ true)
    differ x = cc

grant_enrollment-elsewhere_example :
    restrict there (grant_enrollment as_listed 100 request new_id rows_here).1
    ≡ restrict there rows_here
grant_enrollment-elsewhere_example =
    grant_enrollment-elsewhere as_listed 100 request new_id rows_here there other_institute

revoke_enrollment-elsewhere_example :
    restrict there (revoke_enrollment revocation rows_here).1 ≡ restrict there rows_here
revoke_enrollment-elsewhere_example =
    revoke_enrollment-elsewhere revocation rows_here there other_institute

grant_enrollment-Keyed_example :
    Keyed same_grant (grant_enrollment as_listed 100 request new_id rows_here).1.enrollments
grant_enrollment-Keyed_example =
    grant_enrollment-Keyed as_listed 100 request new_id rows_here (tt, tt)

unused : any (is_target here (codes "e2")) rows_here.enrollments ≡ false
unfolding ◌==◌
unused = refl

revoke_enrollment-grant_enrollment_example :
    (revoke_enrollment revocation
      (grant_enrollment as_listed 100 request new_id rows_here).1).1.enrollments
    ≡ rows_here.enrollments
revoke_enrollment-grant_enrollment_example =
    revoke_enrollment-grant_enrollment as_listed 100 request revocation new_id rows_here
      (codes "e2") is_made refl refl unused

abbrev old_row : Enrollment
old_row = record {
  tenant_id = here;
  id = codes "e1";
  user_id = ana;
  source_kind = program;
  source_id = codes "p1";
  expires_at = some 1000;
  granted_by = none;
}

same_row : is_same_grant here ana program (codes "p1") old_row ≡ true
unfolding ◌==◌
same_row = refl

-- At the time 2000 the access has lapsed.
grant_enrollment-already_example :
    ((grant_enrollment as_listed 2000 (record again { expires_at = none }) new_id rows_here).1
      ≡ rows_here)
    × (is_granted
          (grant_enrollment as_listed 2000 (record again { expires_at = none }) new_id rows_here).0
        ≡ false)
grant_enrollment-already_example =
    grant_enrollment-already as_listed 2000 (record again { expires_at = none }) new_id rows_here
      old_row (Memᴰ.head refl) same_row
