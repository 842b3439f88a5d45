-- ===== src/Db/Entitlements.antt =====
-- src/db/repositories/entitlements.ts: the reads behind access decisions and grants.
use lamp_light.Base.{
  ℕ, Bool, true, ◌&&◌, ◌||◌, Option, none, some, List, ◌++◌, map, ltb, find, any, filter,
}
use lamp_light.Base.Text.{Text, ◌==◌}
use lamp_light.Db.{
  Role, SourceKind, program, course, kind_eq, Membership, CourseInstructor, ProgramCourse,
  Enrollment, Scope,
}
use lamp_light.Db.Queries.{order_by}

pub record MembershipRecord : Type 0 where
  pub user_id : Text
  pub role : Role

abbrev pub to_record : Option Membership → Option MembershipRecord
to_record none = none
to_record (some m) = some (record { user_id = m.user_id; role = m.role })

-- The `where` clauses, each over one row.
abbrev pub is_membership : Text → Text → Membership → Bool
is_membership tenant user m = m.tenant_id == tenant && m.user_id == user

abbrev pub is_assignment : Text → Text → Text → CourseInstructor → Bool
is_assignment tenant user course_id r =
    r.tenant_id == tenant && (r.user_id == user && r.course_id == course_id)

abbrev pub is_containment : Text → Text → Text → ProgramCourse → Bool
is_containment tenant program_id course_id r =
    r.tenant_id == tenant && (r.program_id == program_id && r.course_id == course_id)

-- `expires_at is null or expires_at > now()`
abbrev pub not_expired : ℕ → Enrollment → Bool
not_expired now e = elim e.expires_at [ none ↦ true | some t ↦ ltb now t ]

unfoldable pub find_membership : Scope → Text → Option MembershipRecord
unfolding ◌==◌
find_membership s user = to_record (find (is_membership s.tenant_id user) s.db.memberships)

unfoldable pub is_instructor_of : Scope → Text → Text → Bool
unfolding ◌==◌
is_instructor_of s user course_id =
    any (is_assignment s.tenant_id user course_id) s.db.course_instructors

-- `coversCourseDirectly` or `coversCourseViaProgram`
abbrev pub covers : Scope → Text → Enrollment → Bool
covers s course_id e =
    (kind_eq e.source_kind course && e.source_id == course_id)
    || (kind_eq e.source_kind program
        && any (is_containment s.tenant_id e.source_id course_id) s.db.program_courses)

abbrev pub is_entitlement : ℕ → Scope → Text → Text → Enrollment → Bool
is_entitlement now s user course_id e =
    e.tenant_id == s.tenant_id && (e.user_id == user && (not_expired now e && covers s course_id e))

unfoldable pub has_active_entitlement : ℕ → Scope → Text → Text → Bool
unfolding ◌==◌
has_active_entitlement now s user course_id =
    any (is_entitlement now s user course_id) s.db.enrollments

abbrev pub is_users : Text → Text → Enrollment → Bool
is_users tenant user e = e.tenant_id == tenant && e.user_id == user

unfoldable pub list_enrollments : Scope → Text → List Enrollment
unfolding ◌==◌
list_enrollments s user = filter (is_users s.tenant_id user) s.db.enrollments

pub record GrantableSource : Type 0 where
  pub kind : SourceKind
  pub id : Text
  pub title : Text

-- `collate` is the database's order of texts.
module _ (collate : Text → Text → Bool) where
  unfoldable pub list_grantable_sources : Scope → List GrantableSource
  unfolding ◌==◌
  list_grantable_sources s =
      map (λ p. record { kind = program; id = p.id; title = p.title })
        (order_by (λ p q. collate p.title q.title)
          (filter (λ p. p.tenant_id == s.tenant_id) s.db.programs))
      ++ map (λ c. record { kind = course; id = c.id; title = c.title })
          (order_by (λ c d. collate c.title d.title)
            (filter (λ c. c.tenant_id == s.tenant_id) s.db.courses))
