-- ===== src/Entitlements/Grants/Outcomes.antt =====
-- grants.ts: what a grant adds to the tables, and why a call grants nothing.
use lamp_light.Base.{
  ℕ, ◌≤◌, ◌≡◌, refl, sym, ap, subst, ◌∙◌, ◌⊎◌, inl, inr, Bool, true, false, Option, none, some, [],
  ◌∷◌, ◌++◌, any, arith, Bool-cases, Option-cases, Memᴰ, All,
}
use lamp_light.Base.Text.{Text}
use lamp_light.Db.{Role, Enrollment, enrollment_granted, Database}
use lamp_light.Db.Entitlements.{MembershipRecord, find_membership}
use lamp_light.Db.Queries.{any_sound}
use lamp_light.Access.Predicate.{scope_of}
use lamp_light.Access.Rows.{Unexpired, IsMember, find_membership_sound}
use lamp_light.Entitlements.Grants.{
  GrantOutcome, granted, already, error, GrantRequest, in_past, is_same_grant, save_grant,
  source_exists, grant_checked, grant_enrollment, past_message, stranger_message, missing_message,
  unsaved_message,
}
use lamp_light.Entitlements.Grants.Rows.{
  Grantable, IsFor, source_exists_sound, in_past-Unexpired, is_same_grant_sound, is_same_grant_none,
}

abbrev pub is_granted : GrantOutcome → Bool
is_granted (granted id) = true
is_granted already = false
is_granted (error message) = false

pub lapsed : (now : ℕ) (t : Option ℕ) → in_past now t ≡ true → (u : ℕ) × (t ≡ some u) × (u ≤ now)
lapsed now none h = cc
lapsed now (some u) h = (u, refl, ground arith)

module _ (collate : Text → Text → Bool) (now : ℕ) (r : GrantRequest) (inserted : Option Text)
    (db : Database) where
  -- What has to hold for a grant to be made, and the two rows that are all it adds to the tables.
  pub record IsGrant (id : Text) : Type 0 where
    pub ahead : Unexpired now r.expires_at
    pub role : Role
    pub member : IsMember (scope_of db r.tenant_id) r.user_id role
    pub source : Grantable db r.tenant_id r.source_id r.source_kind
    pub fresh : All (λ e. ¬ IsFor r.tenant_id r.user_id r.source_kind r.source_id e) db.enrollments
    pub answered : inserted ≡ some id
    pub saved : (grant_enrollment collate now r inserted db).1 ≡ record db {
      enrollments =
          db.enrollments
          ++ record {
            tenant_id = r.tenant_id;
            id = id;
            user_id = r.user_id;
            source_kind = r.source_kind;
            source_id = r.source_id;
            expires_at = r.expires_at;
            granted_by = some r.actor_user_id;
          }
            ∷ [];
      audit_log =
          db.audit_log
          ++ record {
            tenant_id = r.tenant_id;
            actor_user_id = r.actor_user_id;
            target_id = id;
            action = enrollment_granted r.user_id r.source_kind r.source_id r.expires_at r.reason;
          }
            ∷ [];
    }

  -- Why a call grants nothing, and what it answers then.
  pub data Refusal : GrantOutcome → Type 0 where
    past : (t : ℕ) → r.expires_at ≡ some t → t ≤ now → Refusal (error past_message)
    stranger :
        ¬ ((role : Role) × IsMember (scope_of db r.tenant_id) r.user_id role)
        → Refusal (error stranger_message)
    missing : ¬ Grantable db r.tenant_id r.source_id r.source_kind → Refusal (error missing_message)
    again :
        (e : Enrollment)
        → Memᴰ e db.enrollments
        → IsFor r.tenant_id r.user_id r.source_kind r.source_id e
        → Refusal already
    unsaved : inserted ≡ none → Refusal (error unsaved_message)

  abbrev pub Outcome : Type 0
  Outcome =
      ((id : Text) × ((grant_enrollment collate now r inserted db).0 ≡ granted id) × IsGrant id)
      ⊎ (((grant_enrollment collate now r inserted db).1 ≡ db)
          × Refusal (grant_enrollment collate now r inserted db).0)

  pub refusal :
      (x : GrantOutcome)
      → grant_enrollment collate now r inserted db ≡ (x, db)
      → Refusal x
      → Outcome
  refusal x e why = inr (ap (λ p. p.1) e, subst Refusal (sym (ap (λ p. p.0) e)) why)

  pub checked_cases :
      (m : MembershipRecord)
      → in_past now r.expires_at ≡ false
      → find_membership (scope_of db r.tenant_id) r.user_id ≡ some m
      → source_exists collate (scope_of db r.tenant_id) r.source_kind r.source_id ≡ true
      → grant_enrollment collate now r inserted db ≡ grant_checked collate r inserted db
      → Outcome
  unfolding grant_checked
  checked_cases m ahead member there e =
      let same = is_same_grant r.tenant_id r.user_id r.source_kind r.source_id in
      elim (Bool-cases (any same db.enrollments)) [
        | inl held ↦
            let (row, listed, fits) = any_sound same db.enrollments held in
            refusal already (e ∙ rw (held, grant_checked) refl) (
              again row listed
                (is_same_grant_sound r.tenant_id r.user_id r.source_kind r.source_id row fits))
        | inr fresh ↦ elim (Option-cases inserted) [
          | inl lost ↦
              refusal (error unsaved_message) (e ∙ rw (fresh, lost, grant_checked) refl)
                (unsaved lost)
          | inr (id, kept) ↦
              let made : grant_enrollment collate now r inserted db
                  ≡ (granted id, save_grant r id db) =
                e ∙ rw (fresh, kept, grant_checked) refl in
              inl (
                id,
                ap (λ p. p.0) made,
                record {
                  ahead = in_past-Unexpired now r.expires_at ahead;
                  role = m.role;
                  member = find_membership_sound (scope_of db r.tenant_id) r.user_id m member;
                  source =
                      source_exists_sound collate db r.tenant_id r.source_kind r.source_id there;
                  fresh =
                      is_same_grant_none r.tenant_id r.user_id r.source_kind r.source_id
                        db.enrollments fresh;
                  answered = kept;
                  saved = ap (λ p. p.1) made;
                },
              )
        ]
      ]

  pub refused : (x : GrantOutcome) → Refusal x → is_granted x ≡ false
  refused (error m) w = refl
  refused already w = refl
  refused (granted id) w = elim w [ ]
