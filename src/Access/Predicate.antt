-- ===== src/Access/Predicate.antt =====
-- src/lib/access/predicate.ts: the one function that decides who may read a lesson. `now` is the
-- database's `now()`.
pub mod Rules
use lamp_light.Base.{ℕ, Bool, true, false, Option, none, some, if◌then◌else◌}
use lamp_light.Base.Text.{Text, truthy}
use lamp_light.Db.{Role, student, instructor, admin, Scope, Database}
use lamp_light.Db.Entitlements.{
  MembershipRecord, find_membership, is_instructor_of, has_active_entitlement,
}
use lamp_light.Db.Lessons.{LessonWithCourse, find_lesson_with_course}

pub record AccessContext : Type 0 where
  pub tenant_id : Text
  -- Nothing for a visitor who is not signed in.
  pub user_id : Option Text

pub data AccessGrant : Type 0 where
  free_preview tenant_admin course_instructor entitlement : AccessGrant

pub data AccessDecision : Type 0 where
  granted : AccessGrant → Text → AccessDecision
  denied : AccessDecision

abbrev pub allowed : AccessDecision → Bool
allowed (granted reason course_id) = true
allowed denied = false

-- The end of the predicate: an entitlement or nothing.
unfoldable pub decide_entitled : ℕ → Scope → Text → Text → AccessDecision
unfolding has_active_entitlement
decide_entitled now s user course_id =
    if has_active_entitlement now s user course_id then granted entitlement course_id else denied

unfoldable pub decide_role : ℕ → Scope → Text → Text → Role → AccessDecision
unfolding decide_entitled is_instructor_of
decide_role now s user course_id admin = granted tenant_admin course_id
decide_role now s user course_id instructor =
    if is_instructor_of s user course_id
    then granted course_instructor course_id
    else decide_entitled now s user course_id
decide_role now s user course_id student = decide_entitled now s user course_id

-- The branches that need an identity.
unfoldable pub decide_member : ℕ → Scope → Text → Text → AccessDecision
unfolding decide_role find_membership
decide_member now s user course_id = elim (find_membership s user) [
  | none ↦ denied
  | some m ↦ decide_role now s user course_id m.role
]

unfoldable pub decide_lesson : ℕ → Scope → Option Text → LessonWithCourse → AccessDecision
unfolding decide_member
decide_lesson now s user l =
    if l.is_free_preview
    then granted free_preview l.course_id
    else elim (truthy user) [ none ↦ denied | some u ↦ decide_member now s u l.course_id ]

unfoldable pub decide_lesson_access : ℕ → Scope → AccessContext → Text → AccessDecision
unfolding decide_lesson find_lesson_with_course
decide_lesson_access now s ctx lesson_id = elim (find_lesson_with_course s lesson_id) [
  | none ↦ denied
  | some l ↦ decide_lesson now s ctx.user_id l
]

-- `getTenantDb(ctx.tenantId).run`: the scope of the context's own institute.
abbrev pub scope_of : Database → Text → Scope
scope_of db tenant = record { tenant_id = tenant; db = db }

unfoldable pub can_access_lesson : ℕ → Database → AccessContext → Text → Bool
unfolding decide_lesson_access
can_access_lesson now db ctx lesson_id =
    allowed (decide_lesson_access now (scope_of db ctx.tenant_id) ctx lesson_id)
