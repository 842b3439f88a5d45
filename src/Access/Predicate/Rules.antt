-- ===== src/Access/Predicate/Rules.antt =====
-- predicate.ts against its rules, stated over the rows of the tables.
use lamp_light.Base.{
  ℕ, ◌≡◌, refl, sym, ap, subst, ◌∙◌, inl, inr, true, Option, some, arith, Bool-cases, Option-cases,
}
use lamp_light.Base.Text.{Text, truthy}
use lamp_light.Db.{Role, student, instructor, admin, Scope}
use lamp_light.Db.Queries.{Keyed}
use lamp_light.Db.Entitlements.{find_membership, is_instructor_of, has_active_entitlement}
use lamp_light.Db.Lessons.{LessonWithCourse, find_lesson_with_course}
use lamp_light.Access.Predicate.{
  AccessContext, AccessGrant, free_preview, tenant_admin, course_instructor, entitlement, granted,
  allowed, decide_entitled, decide_role, decide_member, decide_lesson, decide_lesson_access,
}
use lamp_light.Access.Rows.Joins.{find_lesson_with_course-Located}
use lamp_light.Access.Rows.{
  Located, IsMember, Teaches, Enrolled, same_member, find_membership_sound,
  find_membership_complete, has_active_entitlement_iff, is_instructor_of_iff,
}

-- Signed in as somebody with a role at the institute.
pub record Standing (s : Scope) (user : Option Text) (role : Role) : Type 0 where
  pub id : Text
  pub signed_in : truthy user ≡ some id
  pub member : IsMember s id role

-- What each reason for access asks of the rows, for a lesson that was located.
abbrev pub Justified : ℕ → Scope → Option Text → LessonWithCourse → AccessGrant → Type 0
Justified now s user w free_preview = w.is_free_preview ≡ true
Justified now s user w tenant_admin = Standing s user admin
Justified now s user w course_instructor =
    (m : Standing s user instructor) × Teaches s m.id w.course_id
Justified now s user w entitlement =
    (role : Role) × (m : Standing s user role) × Enrolled now s m.id w.course_id

granted-injective :
    (r r' : AccessGrant) (c c' : Text) → granted r c ≡ granted r' c' → (r ≡ r') × (c ≡ c')
granted-injective r r' c c' e = (ground arith, ground arith)

module _ (now : ℕ) (s : Scope) where
  -- The reasons that a role and an identity allow, before the session is looked at.
  abbrev Held : Text → Role → Text → AccessGrant → Type 0
  Held user role course_id free_preview = ⊥
  Held user role course_id tenant_admin = role ≡ admin
  Held user role course_id course_instructor = (role ≡ instructor) × Teaches s user course_id
  Held user role course_id entitlement = Enrolled now s user course_id

  concluded :
      (user course_id course : Text) (role : Role) (given reason : AccessGrant)
      → granted given course_id ≡ granted reason course
      → Held user role course_id given
      → (course ≡ course_id) × Held user role course_id reason
  concluded user course_id course role given reason e h =
      let (same, of) = granted-injective given reason course_id course e in
      (sym of, subst (Held user role course_id) same h)

  entitled_sound :
      (user course_id course : Text) (role : Role) (reason : AccessGrant)
      → decide_entitled now s user course_id ≡ granted reason course
      → (course ≡ course_id) × Held user role course_id reason
  unfolding decide_entitled
  entitled_sound user course_id course role reason e =
      elim (Bool-cases (has_active_entitlement now s user course_id)) [
        | inr lapsed ↦ absurd (ground arith)
        | inl active ↦
            concluded user course_id course role entitlement reason (ground arith)
              ((has_active_entitlement_iff now s user course_id).0 active)
      ]

  role_sound :
      (user course_id course : Text) (role : Role) (reason : AccessGrant)
      → decide_role now s user course_id role ≡ granted reason course
      → (course ≡ course_id) × Held user role course_id reason
  unfolding decide_role
  role_sound user course_id course admin reason e =
      concluded user course_id course admin tenant_admin reason e refl
  role_sound user course_id course student reason e =
      entitled_sound user course_id course student reason e
  role_sound user course_id course instructor reason e =
      elim (Bool-cases (is_instructor_of s user course_id)) [
        | inl teaches ↦
            concluded user course_id course instructor course_instructor reason (ground arith)
              (refl, (is_instructor_of_iff s user course_id).0 teaches)
        | inr other ↦ entitled_sound user course_id course instructor reason (ground arith)
      ]

  justify :
      (user : Option Text) (w : LessonWithCourse) (id : Text) (role : Role) (reason : AccessGrant)
      → truthy user ≡ some id
      → IsMember s id role
      → Held id role w.course_id reason
      → Justified now s user w reason
  justify user w id role free_preview signed member h = absurd h
  justify user w id role tenant_admin signed member h = record {
    id = id;
    signed_in = signed;
    member = subst (IsMember s id) h member;
  }
  justify user w id role course_instructor signed member (is, teaches) =
      (record { id = id; signed_in = signed; member = subst (IsMember s id) is member }, teaches)
  justify user w id role entitlement signed member h =
      (role, record { id = id; signed_in = signed; member = member }, h)

  member_sound :
      (user : Option Text) (w : LessonWithCourse) (id course : Text) (reason : AccessGrant)
      → truthy user ≡ some id
      → decide_member now s id w.course_id ≡ granted reason course
      → (course ≡ w.course_id) × Justified now s user w reason
  unfolding decide_member
  member_sound user w id course reason signed e = elim (Option-cases (find_membership s id)) [
    | inl absent ↦ absurd (ground arith)
    | inr (m, found) ↦
        let (same, held) = role_sound id w.course_id course m.role reason (ground arith) in
        (same, justify user w id m.role reason signed (find_membership_sound s id m found) held)
  ]

  lesson_sound :
      (user : Option Text) (w : LessonWithCourse) (course : Text) (reason : AccessGrant)
      → decide_lesson now s user w ≡ granted reason course
      → (course ≡ w.course_id) × Justified now s user w reason
  unfolding decide_lesson
  lesson_sound user w course reason e = elim (Bool-cases w.is_free_preview) [
    | inl preview ↦
        let (same, of) = granted-injective free_preview reason w.course_id course (ground arith) in
        (sym of, subst (Justified now s user w) same preview)
    | inr gated ↦ elim (Option-cases (truthy user)) [
      | inl nobody ↦ absurd (ground arith)
      | inr (id, signed) ↦ member_sound user w id course reason signed (ground arith)
    ]
  ]

  -- Access is granted only for a lesson that hangs under a course of this institute, for that
  -- course, and for a reason that the rows of this institute bear out.
  pub decide_lesson_access_sound :
      (ctx : AccessContext) (lesson_id course : Text) (reason : AccessGrant)
      → decide_lesson_access now s ctx lesson_id ≡ granted reason course
      → (w : LessonWithCourse) × Located s lesson_id w
        × (course ≡ w.course_id)
        × Justified now s ctx.user_id w reason
  unfolding decide_lesson_access
  decide_lesson_access_sound ctx lesson_id course reason e =
      elim (Option-cases (find_lesson_with_course s lesson_id)) [
        | inl absent ↦ absurd (ground arith)
        | inr (w, found) ↦
            let (same, why) = lesson_sound ctx.user_id w course reason (ground arith) in
            (w, find_lesson_with_course-Located s lesson_id w found, same, why)
      ]

  role-entitled :
      (user course_id : Text) (role : Role)
      → Enrolled now s user course_id
      → allowed (decide_role now s user course_id role) ≡ true
  unfolding decide_role
  role-entitled user course_id admin h = refl
  role-entitled user course_id instructor h =
      let active = (has_active_entitlement_iff now s user course_id).1 h in ground arith
  role-entitled user course_id student h =
      let active = (has_active_entitlement_iff now s user course_id).1 h in ground arith

  role-Teaches :
      (user course_id : Text)
      → Teaches s user course_id
      → allowed (decide_role now s user course_id instructor) ≡ true
  unfolding decide_role
  role-Teaches user course_id h =
      let teaches = (is_instructor_of_iff s user course_id).1 h in ground arith

  role-admin : (user course_id : Text) → allowed (decide_role now s user course_id admin) ≡ true
  unfolding decide_role
  role-admin user course_id = refl

  preview_complete :
      (user : Option Text) (w : LessonWithCourse)
      → w.is_free_preview ≡ true
      → allowed (decide_lesson now s user w) ≡ true
  unfolding decide_lesson
  preview_complete user w h = rw h refl

  -- A member whose role is allowed is allowed.
  standing_complete :
      (user : Option Text) (w : LessonWithCourse) (role : Role)
      → Keyed same_member s.db.memberships
      → (m : Standing s user role) → allowed (decide_role now s m.id w.course_id role) ≡ true
      → allowed (decide_lesson now s user w) ≡ true
  unfolding decide_lesson decide_member
  standing_complete user w role k m h =
      let (r, found, same) = find_membership_complete s m.id role k m.member in
      let good : allowed (decide_role now s m.id w.course_id r.role) ≡ true =
        ap (λ x. allowed (decide_role now s m.id w.course_id x)) same ∙ h in
      let decided : allowed (decide_member now s m.id w.course_id) ≡ true =
        rw (found, decide_member) good in
      rw m.signed_in (elim (Bool-cases w.is_free_preview) [
        | inl preview ↦ rw preview refl
        | inr gated ↦ rw gated decided
      ])

  found_lesson :
      (ctx : AccessContext) (lesson_id : Text) (w : LessonWithCourse)
      → find_lesson_with_course s lesson_id ≡ some w
      → decide_lesson_access now s ctx lesson_id ≡ decide_lesson now s ctx.user_id w
  unfolding decide_lesson_access
  found_lesson ctx lesson_id w found = rw (found, decide_lesson_access) refl

  lesson_complete :
      (user : Option Text) (w : LessonWithCourse) (reason : AccessGrant)
      → Keyed same_member s.db.memberships
      → Justified now s user w reason
      → allowed (decide_lesson now s user w) ≡ true
  lesson_complete user w free_preview k h = preview_complete user w h
  lesson_complete user w tenant_admin k m =
      standing_complete user w admin k m (role-admin m.id w.course_id)
  lesson_complete user w course_instructor k (m, t) =
      standing_complete user w instructor k m (role-Teaches m.id w.course_id t)
  lesson_complete user w entitlement k (role, m, e) =
      standing_complete user w role k m (role-entitled m.id w.course_id role e)

  -- A lesson of the institute is readable by everybody whom the rows give a reason, whatever the
  -- reason: no order of the checks shuts somebody out. Memberships are unique.
  pub decide_lesson_access_complete :
      (ctx : AccessContext) (lesson_id : Text) (w : LessonWithCourse) (reason : AccessGrant)
      → find_lesson_with_course s lesson_id ≡ some w
      → Keyed same_member s.db.memberships
      → Justified now s ctx.user_id w reason
      → allowed (decide_lesson_access now s ctx lesson_id) ≡ true
  decide_lesson_access_complete ctx lesson_id w reason found k h =
      ap allowed (found_lesson ctx lesson_id w found) ∙ lesson_complete ctx.user_id w reason k h
