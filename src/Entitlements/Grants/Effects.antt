-- ===== src/Entitlements/Grants/Effects.antt =====
-- grants.ts: what a grant and a revocation do to access, on every branch.
use lamp_light.Base.{
  ℕ, ◌≡◌, refl, sym, ap, subst, ◌∙◌, ◌⊎◌, inl, inr, Bool, true, false, ◌&&◌, ◌||◌, Option, [], ◌∷◌,
  any, any-append, arith, Bool-cases, Option-cases, Memᴰ, All-mem,
}
use lamp_light.Base.Text.{Text, ◌==◌}
use lamp_light.Db.{Enrollment, Database}
use lamp_light.Db.Entitlements.{find_membership, is_entitlement, has_active_entitlement}
use lamp_light.Access.Predicate.{scope_of}
use lamp_light.Entitlements.Grants.{
  granted, error, GrantRequest, in_past, is_same_grant, new_enrollment, save_grant, source_exists,
  grant_enrollment, past_message, stranger_message, missing_message,
}
use lamp_light.Entitlements.Grants.Outcomes.{
  is_granted, lapsed, IsGrant, Refusal, refusal, checked_cases, refused, past, stranger, missing,
}
use lamp_light.Entitlements.Grants.Rows.{
  IsFor, source_exists_complete, find_membership-none, is_same_grant_sound, reaches, current,
  covers-reaches, not_expired-current,
}

granted-injective : (a b : Text) → granted a ≡ granted b → a ≡ b
granted-injective a b e = ground arith

or_false : (b : Bool) → (b || false) ≡ b
or_false true = refl
or_false false = refl

module _ (collate : Text → Text → Bool) (now : ℕ) (r : GrantRequest) (inserted : Option Text)
    (db : Database) where
  -- A call grants only with an expiry ahead, for a member, of a course or program of the institute,
  -- where no row is for the same grant, and then adds the one enrollment and the one audit row that
  -- are written out and changes nothing else; or it changes nothing at all, and its answer tells
  -- which of these conditions, or the database's own answer, failed.
  pub grant_enrollment_cases :
      ((id : Text) × ((grant_enrollment collate now r inserted db).0 ≡ granted id)
        × IsGrant collate now r inserted db id)
      ⊎ (((grant_enrollment collate now r inserted db).1 ≡ db)
          × Refusal collate now r inserted db (grant_enrollment collate now r inserted db).0)
  unfolding grant_enrollment
  grant_enrollment_cases = elim (Bool-cases (in_past now r.expires_at)) [
    | inl late ↦
        let (t, at, le) = lapsed now r.expires_at late in
        refusal collate now r inserted db (error past_message) (rw (late, grant_enrollment) refl)
          (past t at le)
    | inr ahead ↦ elim (Option-cases (find_membership (scope_of db r.tenant_id) r.user_id)) [
      | inl nobody ↦
          refusal collate now r inserted db (error stranger_message)
            (rw (ahead, nobody, grant_enrollment) refl)
            (stranger (find_membership-none (scope_of db r.tenant_id) r.user_id nobody))
      | inr (m, member) ↦
          elim (Bool-cases
            (source_exists collate (scope_of db r.tenant_id) r.source_kind r.source_id)) [
              | inr nowhere ↦
                  refusal collate now r inserted db (error missing_message)
                    (rw (ahead, member, nowhere, grant_enrollment) refl)
                    (missing (λ g. absurd (
                      cc (
                        nowhere,
                        source_exists_complete collate db r.tenant_id r.source_kind r.source_id g,
                      ))))
              | inl there ↦
                  checked_cases collate now r inserted db m ahead member there
                    (rw (ahead, member, there, grant_enrollment) refl)
            ]
    ]
  ]

-- The access that a grant is to confer: to the person and at the institute that it names.
abbrev conferred : ℕ → Database → Text → Text → Text → GrantRequest → Bool
conferred later db t user course_id r =
    r.tenant_id == t
    && (r.user_id == user
        && (current later r.expires_at && reaches db t course_id r.source_kind r.source_id))

conferred_lem :
    (r : GrantRequest) (id : Text) (db : Database) (later : ℕ) (t user course_id : Text)
    → is_entitlement later (scope_of db t) user course_id (new_enrollment r id)
      ≡ conferred later db t user course_id r
conferred_lem r id db later t user course_id =
    rw
      (
        not_expired-current later (new_enrollment r id),
        covers-reaches (scope_of db t) course_id (new_enrollment r id),
      )
      refl

-- After the two rows of a grant are saved, each person has at each institute exactly the access that they had,
-- and the access that the new row confers: only the granted person at this institute gains.
pub save_grant-access :
    (r : GrantRequest) (id : Text) (db : Database) (later : ℕ) (t user course_id : Text)
    → has_active_entitlement later (scope_of (save_grant r id db) t) user course_id ≡ (
        has_active_entitlement later (scope_of db t) user course_id
        || conferred later db t user course_id r)
unfolding has_active_entitlement
save_grant-access r id db later t user course_id =
    any-append (is_entitlement later (scope_of db t) user course_id) db.enrollments
      (new_enrollment r id ∷ [])
    ∙ ap (λ b. any (is_entitlement later (scope_of db t) user course_id) db.enrollments || b)
        (or_false (is_entitlement later (scope_of db t) user course_id (new_enrollment r id))
          ∙ conferred_lem r id db later t user course_id)

pub granted_saved :
    (collate : Text → Text → Bool) (now : ℕ) (r : GrantRequest) (inserted : Option Text)
    (db : Database) (id : Text)
    → (grant_enrollment collate now r inserted db).0 ≡ granted id
    → IsGrant collate now r inserted db id
granted_saved collate now r inserted db id e =
    elim (grant_enrollment_cases collate now r inserted db) [
      | inl (id', e', g) ↦
          let same : granted id' ≡ granted id = sym e' ∙ e in
          subst (IsGrant collate now r inserted db) (granted-injective id' id same) g
      | inr (_, why) ↦ absurd (cc (ap is_granted e, refused collate now r inserted db _ why))
    ]

-- After a grant that is made, each person has at each institute, at every time, the access that they
-- had, and besides only the granted person gains, only at the institute of the grant and before its
-- expiry: the course that it names, or the courses that the program it names holds there.
pub grant_enrollment-access :
    (collate : Text → Text → Bool) (now : ℕ) (r : GrantRequest) (inserted : Option Text)
    (db : Database) (id : Text) (later : ℕ) (t user course_id : Text)
    → (grant_enrollment collate now r inserted db).0 ≡ granted id
    → has_active_entitlement later
        (scope_of (grant_enrollment collate now r inserted db).1 t)
        user
        course_id
      ≡ (has_active_entitlement later (scope_of db t) user course_id
          || (r.tenant_id == t
              && (r.user_id == user
                  && (current later r.expires_at
                      && reaches db t course_id r.source_kind r.source_id))))
grant_enrollment-access collate now r inserted db id later t user course_id e =
    ap (λ d. has_active_entitlement later (scope_of d t) user course_id)
      (granted_saved collate now r inserted db id e).saved
    ∙ save_grant-access r id db later t user course_id

-- Where the tables hold a row for the same person, kind and source at this institute, the call
-- grants nothing and changes nothing, also when the access of that row has lapsed: it cannot be
-- renewed before the row is revoked.
pub grant_enrollment-already :
    (collate : Text → Text → Bool) (now : ℕ) (r : GrantRequest) (inserted : Option Text)
    (db : Database) (e : Enrollment)
    → Memᴰ e db.enrollments
    → is_same_grant r.tenant_id r.user_id r.source_kind r.source_id e ≡ true
    → ((grant_enrollment collate now r inserted db).1 ≡ db)
      × (is_granted (grant_enrollment collate now r inserted db).0 ≡ false)
grant_enrollment-already collate now r inserted db e m h =
    elim (grant_enrollment_cases collate now r inserted db) [
      | inl (id, made, g) ↦
          let unheld =
            All-mem (λ x. ¬ IsFor r.tenant_id r.user_id r.source_kind r.source_id x) db.enrollments
              g.fresh m in
          absurd (unheld (is_same_grant_sound r.tenant_id r.user_id r.source_kind r.source_id e h))
      | inr (same, why) ↦ (same, refused collate now r inserted db _ why)
    ]
