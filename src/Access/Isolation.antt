-- ===== src/Access/Isolation.antt =====
-- src/lib/access: a decision at one institute and the rows of the others.
use lamp_light.Base.{
  ℕ, ◌≡◌, refl, sym, ap, ◌∙◌, Option, if◌then◌else◌, inl, inr, arith, Option-cases,
}
use lamp_light.Base.Text.{Text, truthy}
use lamp_light.Db.{Role, student, instructor, admin, Scope, Database}
use lamp_light.Db.Entitlements.{find_membership}
use lamp_light.Db.Lessons.{LessonWithCourse, find_lesson_with_course}
use lamp_light.Db.Isolation.{
  restrict, guarded, find_membership-guarded, is_instructor_of-guarded,
  has_active_entitlement-guarded, find_lesson_with_course-guarded, courses-guarded, guarded_agree,
}
use lamp_light.Access.Predicate.{
  AccessContext, granted, denied, entitlement, decide_entitled, decide_role, decide_member,
  decide_lesson, decide_lesson_access, scope_of,
}
use lamp_light.Access.Authoring.{
  AuthorContext, decide_author, course_exists, decide_course_authoring,
}

module _ (now : ℕ) (s : Scope) where
  decide_entitled-guarded :
      (user course_id : Text)
      → decide_entitled now (guarded s) user course_id ≡ decide_entitled now s user course_id
  unfolding decide_entitled
  decide_entitled-guarded user course_id =
      ap (λ b. if b then granted entitlement course_id else denied)
        (has_active_entitlement-guarded s now user course_id)

  decide_role-guarded :
      (user course_id : Text) (role : Role)
      → decide_role now (guarded s) user course_id role ≡ decide_role now s user course_id role
  unfolding decide_role
  decide_role-guarded user course_id admin = refl
  decide_role-guarded user course_id student = decide_entitled-guarded user course_id
  decide_role-guarded user course_id instructor =
      ground
        (arith, is_instructor_of-guarded s user course_id, decide_entitled-guarded user course_id)

  decide_member-guarded :
      (user course_id : Text)
      → decide_member now (guarded s) user course_id ≡ decide_member now s user course_id
  unfolding decide_member
  decide_member-guarded user course_id = elim (Option-cases (find_membership s user)) [
    | inl absent ↦ rw (find_membership-guarded s user, absent, decide_member) refl
    | inr (m, found) ↦
        rw (find_membership-guarded s user, found, decide_member)
          (decide_role-guarded user course_id m.role)
  ]

  decide_lesson-guarded :
      (user : Option Text) (w : LessonWithCourse)
      → decide_lesson now (guarded s) user w ≡ decide_lesson now s user w
  unfolding decide_lesson
  decide_lesson-guarded user w = elim (Option-cases (truthy user)) [
    | inl nobody ↦ rw nobody refl
    | inr (id, signed) ↦ rw signed (ground (arith, decide_member-guarded id w.course_id))
  ]

  decide_lesson_access-guarded :
      (ctx : AccessContext) (lesson_id : Text)
      → decide_lesson_access now (guarded s) ctx lesson_id
        ≡ decide_lesson_access now s ctx lesson_id
  unfolding decide_lesson_access
  decide_lesson_access-guarded ctx lesson_id =
      elim (Option-cases (find_lesson_with_course s lesson_id)) [
        | inl absent ↦
            rw (find_lesson_with_course-guarded s lesson_id, absent, decide_lesson_access) refl
        | inr (w, found) ↦
            rw (find_lesson_with_course-guarded s lesson_id, found, decide_lesson_access)
              (decide_lesson-guarded ctx.user_id w)
      ]

module _ (s : Scope) where
  decide_author-guarded :
      (user course_id : Text) (role : Role)
      → decide_author (guarded s) user course_id role ≡ decide_author s user course_id role
  unfolding decide_author
  decide_author-guarded user course_id admin = refl
  decide_author-guarded user course_id student = refl
  decide_author-guarded user course_id instructor =
      ground (arith, is_instructor_of-guarded s user course_id)

  course_exists-guarded :
      (course_id : Text) → course_exists (guarded s) course_id ≡ course_exists s course_id
  unfolding course_exists guarded
  course_exists-guarded course_id = courses-guarded s course_id

  decide_course_authoring-guarded :
      (ctx : AuthorContext) (course_id : Text)
      → decide_course_authoring (guarded s) ctx course_id ≡ decide_course_authoring s ctx course_id
  unfolding decide_course_authoring
  decide_course_authoring-guarded ctx course_id =
      elim (Option-cases (find_membership s ctx.user_id)) [
        | inl absent ↦
            rw
              (
                course_exists-guarded course_id,
                find_membership-guarded s ctx.user_id,
                absent,
                decide_course_authoring,
              )
              (ground arith)
        | inr (m, found) ↦
            rw
              (
                course_exists-guarded course_id,
                find_membership-guarded s ctx.user_id,
                found,
                decide_course_authoring,
              )
              (ground (arith, decide_author-guarded ctx.user_id course_id m.role))
      ]

-- Who may read a lesson at an institute is settled by the rows of that institute: whatever the
-- other institutes hold, two databases that agree on its rows give the same decision. The filters
-- of the queries alone see to that, with no help from row-level security.
pub decide_lesson_access-isolated :
    (now : ℕ) (t : Text) (a b : Database) (ctx : AccessContext) (lesson_id : Text)
    → restrict t a ≡ restrict t b
    → decide_lesson_access now (scope_of a t) ctx lesson_id
      ≡ decide_lesson_access now (scope_of b t) ctx lesson_id
decide_lesson_access-isolated now t a b ctx lesson_id e =
    sym (decide_lesson_access-guarded now (scope_of a t) ctx lesson_id)
    ∙ ap (λ s. decide_lesson_access now s ctx lesson_id) (guarded_agree t a b e)
    ∙ decide_lesson_access-guarded now (scope_of b t) ctx lesson_id

-- Who may change a course at an institute is settled by the rows of that institute: two databases
-- that agree on its rows give the same decision, whatever the other institutes hold.
pub decide_course_authoring-isolated :
    (t : Text) (a b : Database) (ctx : AuthorContext) (course_id : Text)
    → restrict t a ≡ restrict t b
    → decide_course_authoring (scope_of a t) ctx course_id
      ≡ decide_course_authoring (scope_of b t) ctx course_id
decide_course_authoring-isolated t a b ctx course_id e =
    sym (decide_course_authoring-guarded (scope_of a t) ctx course_id)
    ∙ ap (λ s. decide_course_authoring s ctx course_id) (guarded_agree t a b e)
    ∙ decide_course_authoring-guarded (scope_of b t) ctx course_id
