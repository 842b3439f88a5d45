-- ===== src/Access/Authoring.antt =====
-- src/lib/access/authoring.ts: who may change a course, a module or a lesson.
pub mod Rules
use lamp_light.Base.{
  Bool, true, false, ◌&&◌, Option, none, some, List, [], ◌∷◌, if◌then◌else◌, head?, any,
}
use lamp_light.Base.Text.{Text, ◌==◌, truthy}
use lamp_light.Db.{Role, student, instructor, admin, Course, CourseModule, Lesson, Scope, Database}
use lamp_light.Db.Queries.{flat_map}
use lamp_light.Db.Entitlements.{MembershipRecord, find_membership, is_instructor_of}
use lamp_light.Access.Predicate.{scope_of}

pub record AuthorContext : Type 0 where
  pub tenant_id : Text
  pub user_id : Text

pub data AuthorGrant : Type 0 where
  tenant_admin course_instructor : AuthorGrant

pub data AuthorDecision : Type 0 where
  granted : AuthorGrant → AuthorDecision
  denied : AuthorDecision

abbrev pub allowed : AuthorDecision → Bool
allowed (granted reason) = true
allowed denied = false

abbrev pub is_course : Text → Text → Course → Bool
is_course tenant course_id c = c.tenant_id == tenant && c.id == course_id

-- The decision for a member's role.
unfoldable pub decide_author : Scope → Text → Text → Role → AuthorDecision
unfolding is_instructor_of
decide_author s user course_id admin = granted tenant_admin
decide_author s user course_id instructor =
    if is_instructor_of s user course_id then granted course_instructor else denied
decide_author s user course_id student = denied

-- The course has to exist in this institute.
unfoldable pub course_exists : Scope → Text → Bool
unfolding ◌==◌
course_exists s course_id = any (is_course s.tenant_id course_id) s.db.courses

unfoldable pub decide_course_authoring : Scope → AuthorContext → Text → AuthorDecision
decide_course_authoring s ctx course_id =
    if course_exists s course_id
    then elim (find_membership s ctx.user_id) [
      | none ↦ denied
      | some m ↦ decide_author s ctx.user_id course_id m.role
    ]
    else denied

-- `rows[0]?.courseId`, and the decision for that course if there is one.
unfoldable pub decide_found : Scope → AuthorContext → Option Text → AuthorDecision
unfolding decide_course_authoring
decide_found s ctx found = elim (truthy found) [
  | none ↦ denied
  | some course_id ↦ decide_course_authoring s ctx course_id
]

abbrev pub module_course : Text → Text → CourseModule → List Text
module_course tenant module_id m =
    if m.tenant_id == tenant && m.id == module_id then m.course_id ∷ [] else []

unfoldable pub course_of_module : Scope → Text → Option Text
unfolding ◌==◌
course_of_module s module_id = head? (flat_map (module_course s.tenant_id module_id) s.db.modules)

-- The join of `decideLessonAuthoring`: a module of the lesson's own institute.
abbrev pub lesson_module : Lesson → CourseModule → List Text
lesson_module l m =
    if m.tenant_id == l.tenant_id && m.id == l.module_id then m.course_id ∷ [] else []

abbrev pub lesson_course : Scope → Text → Lesson → List Text
lesson_course s lesson_id l =
    if l.tenant_id == s.tenant_id && l.id == lesson_id
    then flat_map (lesson_module l) s.db.modules
    else []

unfoldable pub course_of_lesson : Scope → Text → Option Text
unfolding ◌==◌
course_of_lesson s lesson_id = head? (flat_map (lesson_course s lesson_id) s.db.lessons)

unfoldable pub decide_module_authoring : Scope → AuthorContext → Text → AuthorDecision
unfolding decide_found course_of_module
decide_module_authoring s ctx module_id = decide_found s ctx (course_of_module s module_id)

unfoldable pub decide_lesson_authoring : Scope → AuthorContext → Text → AuthorDecision
unfolding decide_found course_of_lesson
decide_lesson_authoring s ctx lesson_id = decide_found s ctx (course_of_lesson s lesson_id)

unfoldable pub can_author_course : Database → AuthorContext → Text → Bool
unfolding decide_course_authoring
can_author_course db ctx course_id =
    allowed (decide_course_authoring (scope_of db ctx.tenant_id) ctx course_id)
