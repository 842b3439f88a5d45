-- ===== src/Entitlements/Grants.antt =====
-- src/lib/entitlements/grants.ts: an admin grants or revokes access. A call is one transaction on the
-- tables; `inserted` is the id that the database answers for the new row, if it answers one.
pub mod Rows
pub mod Outcomes
pub mod Effects
pub mod Boundaries
use lamp_light.Base.{
  ℕ, Bool, true, false, not, ◌&&◌, Option, none, some, List, [], ◌∷◌, ◌++◌, leb, if◌then◌else◌,
  find, any, filter, is_some,
}
use lamp_light.Base.Text.{Text, codes, ◌==◌}
use lamp_light.Db.{
  SourceKind, kind_eq, Enrollment, Action, enrollment_granted, enrollment_revoked, Audit, Database,
  Scope,
}
use lamp_light.Db.Entitlements.{
  MembershipRecord, find_membership, GrantableSource, list_grantable_sources,
}

pub data GrantOutcome : Type 0 where
  granted : Text → GrantOutcome
  already : GrantOutcome
  error : Text → GrantOutcome

pub record GrantRequest : Type 0 where
  pub tenant_id : Text
  pub actor_user_id : Text
  pub user_id : Text
  pub source_kind : SourceKind
  pub source_id : Text
  pub expires_at : Option ℕ
  pub reason : Option Text

abbrev pub past_message : Text
past_message = codes "That expiry is in the past, so the grant would do nothing."

abbrev pub stranger_message : Text
stranger_message = codes "That person is not a member of this institute."

abbrev pub missing_message : Text
missing_message = codes "That course or program does not exist here."

abbrev pub unsaved_message : Text
unsaved_message = codes "The grant did not save."

-- `request.expiresAt && request.expiresAt.getTime() <= Date.now()`
abbrev pub in_past : ℕ → Option ℕ → Bool
in_past now none = false
in_past now (some t) = leb t now

-- The `where` of the check for an earlier grant.
abbrev pub is_same_grant : Text → Text → SourceKind → Text → Enrollment → Bool
is_same_grant tenant user kind source e =
    e.tenant_id == tenant
    && (e.user_id == user && (kind_eq e.source_kind kind && e.source_id == source))

abbrev pub new_enrollment : GrantRequest → Text → Enrollment
new_enrollment r id = record {
  tenant_id = r.tenant_id;
  id = id;
  user_id = r.user_id;
  source_kind = r.source_kind;
  source_id = r.source_id;
  expires_at = r.expires_at;
  granted_by = some r.actor_user_id;
}

abbrev pub grant_audit : GrantRequest → Text → Audit
grant_audit r id = record {
  tenant_id = r.tenant_id;
  actor_user_id = r.actor_user_id;
  target_id = id;
  action = enrollment_granted r.user_id r.source_kind r.source_id r.expires_at r.reason;
}

-- The two inserts of a grant that saves.
abbrev pub save_grant : GrantRequest → Text → Database → Database
save_grant r id db = record db {
  enrollments = db.enrollments ++ new_enrollment r id ∷ [];
  audit_log = db.audit_log ++ grant_audit r id ∷ [];
}

-- `returning` gave a row, or nothing was saved.
abbrev pub insert_grant : GrantRequest → Option Text → Database → GrantOutcome × Database
insert_grant r none db = (error unsaved_message, db)
insert_grant r (some id) db = (granted id, save_grant r id db)

module _ (collate : Text → Text → Bool) where
  unfoldable pub source_exists : Scope → SourceKind → Text → Bool
  unfolding ◌==◌ list_grantable_sources
  source_exists s kind id =
      any (λ g. kind_eq g.kind kind && g.id == id) (list_grantable_sources collate s)

  unfoldable pub grant_checked : GrantRequest → Option Text → Database → GrantOutcome × Database
  unfolding ◌==◌
  grant_checked r inserted db =
      if any (is_same_grant r.tenant_id r.user_id r.source_kind r.source_id) db.enrollments
      then (already, db)
      else insert_grant r inserted db

  unfoldable pub grant_enrollment :
      ℕ → GrantRequest → Option Text → Database → GrantOutcome × Database
  grant_enrollment now r inserted db =
      if in_past now r.expires_at
      then (error past_message, db)
      else elim (find_membership (record { tenant_id = r.tenant_id; db = db }) r.user_id) [
        | none ↦ (error stranger_message, db)
        | some m ↦
            if source_exists (record { tenant_id = r.tenant_id; db = db }) r.source_kind r.source_id
            then grant_checked r inserted db
            else (error missing_message, db)
      ]

pub data RevokeOutcome : Type 0 where
  revoked not_found : RevokeOutcome

pub record RevokeRequest : Type 0 where
  pub tenant_id : Text
  pub actor_user_id : Text
  pub enrollment_id : Text
  pub reason : Option Text

abbrev pub is_target : Text → Text → Enrollment → Bool
is_target tenant id e = e.tenant_id == tenant && e.id == id

abbrev pub revoke_audit : RevokeRequest → Enrollment → Audit
revoke_audit r removed = record {
  tenant_id = r.tenant_id;
  actor_user_id = r.actor_user_id;
  target_id = removed.id;
  action =
      enrollment_revoked removed.user_id removed.source_kind removed.source_id
        (is_some removed.granted_by) r.reason;
}

abbrev pub save_revoke : RevokeRequest → Enrollment → Database → Database
save_revoke r removed db = record db {
  enrollments = filter (λ e. not (is_target r.tenant_id r.enrollment_id e)) db.enrollments;
  audit_log = db.audit_log ++ revoke_audit r removed ∷ [];
}

unfoldable pub revoke_enrollment : RevokeRequest → Database → RevokeOutcome × Database
unfolding ◌==◌
revoke_enrollment r db = elim (find (is_target r.tenant_id r.enrollment_id) db.enrollments) [
  | none ↦ (not_found, db)
  | some removed ↦ (revoked, save_revoke r removed db)
]
