-- ===== src/Entitlements/Grants/Boundaries.antt =====
-- grants.ts: what a grant and a revocation leave alone, and the unique key that they keep.
use lamp_light.Base.{
  ℕ, ◌≡◌, refl, sym, ap, ap₂, subst, ◌∙◌, ◌≢◌, ◌⊎◌, inl, inr, Bool, true, false, not, Option, none,
  some, find, any, filter, Bool-cases, Option-cases, and-eq-true,
}
use lamp_light.Base.Text.{Text, ◌==◌, eq_iff, eq_refl}
use lamp_light.Db.{Enrollment, Database}
use lamp_light.Db.Queries.{Keyed}
use lamp_light.Db.Tables.{
  filter-append_out, filter-filter_out, filter-Keyed, append-Keyed, find-none-filter, none_found,
  other,
}
use lamp_light.Db.Isolation.{restrict}
use lamp_light.Entitlements.Grants.{
  granted, GrantRequest, is_same_grant, new_enrollment, grant_audit, save_grant, grant_enrollment,
  revoked, not_found, RevokeRequest, is_target, revoke_audit, save_revoke, revoke_enrollment,
}
use lamp_light.Entitlements.Grants.Rows.{is_same_grant_out}
use lamp_light.Entitlements.Grants.Effects.{grant_enrollment_cases, granted_saved}

saved_elsewhere :
    (t : Text) (r : GrantRequest) (id : Text) (db : Database)
    → t ≢ r.tenant_id
    → restrict t (save_grant r id db) ≡ restrict t db
unfolding restrict
saved_elsewhere t r id db n =
    ap₂ (λ e a. record (restrict t db) { enrollments = e; audit_log = a })
      (filter-append_out (λ x. x.tenant_id == t) db.enrollments (new_enrollment r id)
        (other t r.tenant_id n))
      (filter-append_out (λ x. x.tenant_id == t) db.audit_log (grant_audit r id)
        (other t r.tenant_id n))

-- A grant at one institute changes no row of another, whatever its outcome.
pub grant_enrollment-elsewhere :
    (collate : Text → Text → Bool) (now : ℕ) (r : GrantRequest) (inserted : Option Text)
    (db : Database) (t : Text)
    → t ≢ r.tenant_id
    → restrict t (grant_enrollment collate now r inserted db).1 ≡ restrict t db
grant_enrollment-elsewhere collate now r inserted db t n =
    elim (grant_enrollment_cases collate now r inserted db) [
      | inl (id, _, g) ↦ ap (restrict t) g.saved ∙ saved_elsewhere t r id db n
      | inr (same, _) ↦ ap (restrict t) same
    ]

-- Everything that can come of a revocation.
revoke_cases :
    (r : RevokeRequest) (db : Database)
    → ((e : Enrollment) × (find (is_target r.tenant_id r.enrollment_id) db.enrollments ≡ some e)
        × (revoke_enrollment r db ≡ (revoked, save_revoke r e db)))
      ⊎ ((find (is_target r.tenant_id r.enrollment_id) db.enrollments ≡ none)
          × (revoke_enrollment r db ≡ (not_found, db)))
unfolding revoke_enrollment
revoke_cases r db =
    elim (Option-cases (find (is_target r.tenant_id r.enrollment_id) db.enrollments)) [
      | inl absent ↦ inr (absent, rw (absent, revoke_enrollment) refl)
      | inr (e, found) ↦ inl (e, found, rw (found, revoke_enrollment) refl)
    ]

kept_elsewhere :
    (t tenant id : Text)
    → t ≢ tenant
    → (e : Enrollment) → (e.tenant_id == t) ≡ true
    → not (is_target tenant id e) ≡ true
kept_elsewhere t tenant id n e h = elim (Bool-cases (is_target tenant id e)) [
  | inr out ↦ rw out refl
  | inl hit ↦
      let here = (and-eq-true (e.tenant_id == tenant) (e.id == id) hit).0 in
      absurd (n (sym ((eq_iff e.tenant_id t).0 h) ∙ (eq_iff e.tenant_id tenant).0 here))
]

-- A revocation at one institute changes no row of another, also where the id it names is an
-- enrollment of the other institute.
pub revoke_enrollment-elsewhere :
    (r : RevokeRequest) (db : Database) (t : Text)
    → t ≢ r.tenant_id
    → restrict t (revoke_enrollment r db).1 ≡ restrict t db
unfolding restrict
revoke_enrollment-elsewhere r db t n = elim (revoke_cases r db) [
  | inr (_, same) ↦ ap (λ p. restrict t p.1) same
  | inl (e, _, made) ↦
      ap (λ p. restrict t p.1) made
      ∙ ap₂ (λ x a. record (restrict t db) { enrollments = x; audit_log = a })
          (filter-filter_out (λ x. x.tenant_id == t)
            (λ x. not (is_target r.tenant_id r.enrollment_id x))
            (kept_elsewhere t r.tenant_id r.enrollment_id n) db.enrollments)
          (filter-append_out (λ x. x.tenant_id == t) db.audit_log (revoke_audit r e)
            (other t r.tenant_id n))
]

-- `unique (tenant_id, user_id, source_kind, source_id)`
abbrev pub same_grant : Enrollment → Enrollment → Bool
same_grant a b = is_same_grant b.tenant_id b.user_id b.source_kind b.source_id a

-- No call grants the same thing twice: where no two rows of the enrollments are for the same
-- institute, person, kind and source, so it is after every call of a grant.
pub grant_enrollment-Keyed :
    (collate : Text → Text → Bool) (now : ℕ) (r : GrantRequest) (inserted : Option Text)
    (db : Database)
    → Keyed same_grant db.enrollments
    → Keyed same_grant (grant_enrollment collate now r inserted db).1.enrollments
grant_enrollment-Keyed collate now r inserted db k =
    elim (grant_enrollment_cases collate now r inserted db) [
      | inr (same, _) ↦ subst (λ d. Keyed same_grant d.enrollments) (sym same) k
      | inl (id, _, g) ↦
          subst (λ d. Keyed same_grant d.enrollments) (sym g.saved)
            (append-Keyed same_grant db.enrollments (new_enrollment r id) k (
              is_same_grant_out r.tenant_id r.user_id r.source_kind r.source_id db.enrollments
                g.fresh))
    ]

-- So it is after every revocation.
pub revoke_enrollment-Keyed :
    (r : RevokeRequest) (db : Database)
    → Keyed same_grant db.enrollments
    → Keyed same_grant (revoke_enrollment r db).1.enrollments
revoke_enrollment-Keyed r db k = elim (revoke_cases r db) [
  | inr (_, same) ↦ subst (λ p. Keyed same_grant p.1.enrollments) (sym same) k
  | inl (e, _, made) ↦
      subst (λ p. Keyed same_grant p.1.enrollments) (sym made)
        (filter-Keyed same_grant _ db.enrollments k)
]

-- The enrollments after a revocation: those before, without the row that was named.
pub revoke_enrollment-enrollments :
    (r : RevokeRequest) (db : Database)
    → (revoke_enrollment r db).1.enrollments
      ≡ filter (λ e. not (is_target r.tenant_id r.enrollment_id e)) db.enrollments
revoke_enrollment-enrollments r db = elim (revoke_cases r db) [
  | inl (e, _, made) ↦ ap (λ p. p.1.enrollments) made
  | inr (absent, same) ↦
      ap (λ p. p.1.enrollments) same
      ∙ sym (find-none-filter (is_target r.tenant_id r.enrollment_id) db.enrollments absent)
]

-- Revoking an enrollment that was just granted, under an id that no row of the institute had, gives
-- back the enrollments as they were before the grant.
pub revoke_enrollment-grant_enrollment :
    (collate : Text → Text → Bool) (now : ℕ) (g : GrantRequest) (r : RevokeRequest)
    (inserted : Option Text) (db : Database) (id : Text)
    → (grant_enrollment collate now g inserted db).0 ≡ granted id
    → r.tenant_id ≡ g.tenant_id
    → r.enrollment_id ≡ id
    → any (is_target g.tenant_id id) db.enrollments ≡ false
    → (revoke_enrollment r (grant_enrollment collate now g inserted db).1).1.enrollments
      ≡ db.enrollments
revoke_enrollment-grant_enrollment collate now g r inserted db id e same_tenant same_id new_id =
    let saved = (granted_saved collate now g inserted db id e).saved in
    revoke_enrollment-enrollments r _
    ∙ ap₂
        (λ t i.
          filter (λ x. not (is_target t i x))
            (grant_enrollment collate now g inserted db).1.enrollments)
        same_tenant same_id
    ∙ ap (λ d. filter (λ x. not (is_target g.tenant_id id x)) d.enrollments) saved
    ∙ filter-append_out (λ x. not (is_target g.tenant_id id x)) db.enrollments (new_enrollment g id)
        (rw (eq_refl g.tenant_id, eq_refl id) refl)
    ∙ find-none-filter (is_target g.tenant_id id) db.enrollments
        (none_found (is_target g.tenant_id id) db.enrollments new_id)
