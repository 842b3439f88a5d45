-- ===== src/Access/Rows.antt =====
-- What the reads of src/db/repositories answer, stated over the rows of the tables: which rows make
-- a lesson one of the institute's, a person a member, a teacher of a course, or enrolled in it.
pub mod Joins
use lamp_light.Base.{
  ℕ, ◌<◌, ◌≡◌, refl, sym, ap, ◌∙◌, ◌⊎◌, ◌↔◌, inl, inr, Bool, true, false, ◌&&◌, Option, none, some,
  List, [], ◌∷◌, ◌++◌, if◌then◌else◌, find, any, find_sound, head?, Memᴰ, arith, Bool-cases,
  Option-cases, and-eq-true,
}
use lamp_light.Base.Text.{Text, ◌==◌, eq_iff, eq_refl, eq_join}
use lamp_light.Db.{
  Role, SourceKind, program, course, kind_eq, Membership, Course, CourseModule, Lesson,
  CourseInstructor, ProgramCourse, Enrollment, Scope,
}
use lamp_light.Db.Queries.{flat_map, any_sound, any_complete, Keyed, find-Keyed}
use lamp_light.Db.Entitlements.{
  MembershipRecord, to_record, is_membership, is_assignment, is_containment, not_expired, covers,
  is_entitlement, find_membership, is_instructor_of, has_active_entitlement,
}
use lamp_light.Db.Lessons.{
  LessonWithCourse, joined, course_rows, module_rows, lesson_rows, find_lesson_with_course,
}

-- The lesson hangs under a course of the institute, through rows that are all the institute's own.
pub record Located (s : Scope) (lesson_id : Text) (w : LessonWithCourse) : Type 0 where
  pub lesson : Lesson
  pub parent : CourseModule
  pub course : Course
  pub rows : Memᴰ lesson s.db.lessons × Memᴰ parent s.db.modules × Memᴰ course s.db.courses
  pub tenants :
      (lesson.tenant_id ≡ s.tenant_id)
      × (parent.tenant_id ≡ s.tenant_id)
      × (course.tenant_id ≡ s.tenant_id)
  pub keys :
      (lesson.id ≡ lesson_id) × (parent.id ≡ lesson.module_id) × (course.id ≡ parent.course_id)
  pub fields : w ≡ joined lesson parent course

pub record IsMember (s : Scope) (user : Text) (role : Role) : Type 0 where
  pub row : Membership
  pub listed : Memᴰ row s.db.memberships
  pub tenant : row.tenant_id ≡ s.tenant_id
  pub user_id : row.user_id ≡ user
  pub role_is : row.role ≡ role

pub record Teaches (s : Scope) (user course_id : Text) : Type 0 where
  pub row : CourseInstructor
  pub listed : Memᴰ row s.db.course_instructors
  pub keys : (row.tenant_id ≡ s.tenant_id) × (row.user_id ≡ user) × (row.course_id ≡ course_id)

-- An enrollment covers a course by naming it, or by naming a program that contains it.
pub data Covers (s : Scope) (course_id : Text) (e : Enrollment) : Type 0 where
  direct : e.source_kind ≡ SourceKind.course → e.source_id ≡ course_id → Covers s course_id e
  via_program :
      (r : ProgramCourse)
      → e.source_kind ≡ program
      → Memᴰ r s.db.program_courses
      → r.tenant_id ≡ s.tenant_id
      → r.program_id ≡ e.source_id
      → r.course_id ≡ course_id
      → Covers s course_id e

-- Access that has not lapsed.
abbrev pub Unexpired : ℕ → Option ℕ → Type 0
Unexpired now none = Unit
Unexpired now (some t) = now < t

pub record Enrolled (now : ℕ) (s : Scope) (user course_id : Text) : Type 0 where
  pub row : Enrollment
  pub listed : Memᴰ row s.db.enrollments
  pub keys : (row.tenant_id ≡ s.tenant_id) × (row.user_id ≡ user)
  pub current : Unexpired now row.expires_at
  pub covered : Covers s course_id row

pub kind_eq→≡ : (a b : SourceKind) → kind_eq a b ≡ true → a ≡ b
kind_eq→≡ program program h = refl
kind_eq→≡ course course h = refl
kind_eq→≡ program course h = cc
kind_eq→≡ course program h = cc

pub kind_eq_refl : (a : SourceKind) → kind_eq a a ≡ true
kind_eq_refl program = refl
kind_eq_refl course = refl

Unexpired-of : (now : ℕ) (e : Enrollment) → not_expired now e ≡ true → Unexpired now e.expires_at
Unexpired-of now e h = ground arith

covers_sound :
    (s : Scope) (course_id : Text) (e : Enrollment)
    → covers s course_id e ≡ true
    → Covers s course_id e
covers_sound s course_id e h =
    elim (Bool-cases (kind_eq e.source_kind course && e.source_id == course_id)) [
      | inl first ↦
          let (k, i) =
            and-eq-true (kind_eq e.source_kind course) (e.source_id == course_id) first in
          direct (kind_eq→≡ _ _ k) ((eq_iff _ _).0 i)
      | inr other ↦
          let both : kind_eq e.source_kind program
                && any (is_containment s.tenant_id e.source_id course_id) s.db.program_courses
              ≡ true =
            ground arith in
          let (k, a) = and-eq-true (kind_eq e.source_kind program) _ both in
          let (r, m, c) = any_sound _ s.db.program_courses a in
          let (t, pc) = and-eq-true (r.tenant_id == s.tenant_id) _ c in
          let (p, i) = and-eq-true (r.program_id == e.source_id) (r.course_id == course_id) pc in
          via_program r (kind_eq→≡ _ _ k) m ((eq_iff _ _).0 t) ((eq_iff _ _).0 p) ((eq_iff _ _).0 i)
    ]

covers_complete :
    (s : Scope) (course_id : Text) (e : Enrollment)
    → Covers s course_id e
    → covers s course_id e ≡ true
covers_complete s course_id e (direct k i) = rw (k, i, eq_refl course_id) refl
covers_complete s course_id e (via_program r k m t p i) =
    let contained : any (is_containment s.tenant_id e.source_id course_id) s.db.program_courses
        ≡ true =
      any_complete _ s.db.program_courses r m
        (rw (t, p, i, eq_refl s.tenant_id, eq_refl e.source_id) (eq_refl course_id)) in
    rw (k, contained) refl

-- The query for an active entitlement holds exactly when the rows give one.
pub has_active_entitlement_iff :
    (now : ℕ) (s : Scope) (user course_id : Text)
    → (has_active_entitlement now s user course_id ≡ true) ↔ Enrolled now s user course_id
unfolding has_active_entitlement
has_active_entitlement_iff now s user course_id = (sound, complete)
  where
    sound :
        any (is_entitlement now s user course_id) s.db.enrollments ≡ true
        → Enrolled now s user course_id
    sound h =
        let (e, m, fits) = any_sound _ s.db.enrollments h in
        let (t, rest) = and-eq-true (e.tenant_id == s.tenant_id) _ fits in
        let (u, rest') = and-eq-true (e.user_id == user) _ rest in
        let (n, c) = and-eq-true (not_expired now e) _ rest' in
        record {
          row = e;
          listed = m;
          keys = ((eq_iff _ _).0 t, (eq_iff _ _).0 u);
          current = Unexpired-of now e n;
          covered = covers_sound s course_id e c;
        }

    complete :
        Enrolled now s user course_id
        → any (is_entitlement now s user course_id) s.db.enrollments ≡ true
    complete r = any_complete _ s.db.enrollments r.row r.listed (
        rw (r.keys.0, r.keys.1, eq_refl s.tenant_id, eq_refl user)
          (ground (arith, covers_complete s course_id r.row r.covered, r.current)))

pub is_instructor_of_iff :
    (s : Scope) (user course_id : Text)
    → (is_instructor_of s user course_id ≡ true) ↔ Teaches s user course_id
unfolding is_instructor_of
is_instructor_of_iff s user course_id = (sound, complete)
  where
    sound :
        any (is_assignment s.tenant_id user course_id) s.db.course_instructors ≡ true
        → Teaches s user course_id
    sound h =
        let (r, m, fits) = any_sound _ s.db.course_instructors h in
        let (t, rest) = and-eq-true (r.tenant_id == s.tenant_id) _ fits in
        let (u, c) = and-eq-true (r.user_id == user) (r.course_id == course_id) rest in
        record {
          row = r;
          listed = m;
          keys = ((eq_iff _ _).0 t, (eq_iff _ _).0 u, (eq_iff _ _).0 c);
        }

    complete :
        Teaches s user course_id
        → any (is_assignment s.tenant_id user course_id) s.db.course_instructors ≡ true
    complete r =
        any_complete _ s.db.course_instructors r.row r.listed
          (rw (r.keys.0, r.keys.1, r.keys.2, eq_refl s.tenant_id, eq_refl user) (eq_refl course_id))

pub find_membership_sound :
    (s : Scope) (user : Text) (m : MembershipRecord)
    → find_membership s user ≡ some m
    → IsMember s user m.role
unfolding find_membership
find_membership_sound s user m e =
    elim (Option-cases (find (is_membership s.tenant_id user) s.db.memberships)) [
      | inl absent ↦ absurd (cc (e, ap to_record absent))
      | inr (row, found) ↦
          let (listed, fits) =
            find_sound (is_membership s.tenant_id user) s.db.memberships row found in
          let (t, u) = and-eq-true (row.tenant_id == s.tenant_id) (row.user_id == user) fits in
          let same : to_record (some row) ≡ some m = ap to_record (sym found) ∙ e in
          record {
            row = row;
            listed = listed;
            tenant = (eq_iff _ _).0 t;
            user_id = (eq_iff _ _).0 u;
            role_is = ground arith;
          }
    ]

-- `unique (tenant_id, user_id)`
abbrev pub same_member : Membership → Membership → Bool
same_member a b = a.tenant_id == b.tenant_id && a.user_id == b.user_id

pub find_membership_complete :
    (s : Scope) (user : Text) (role : Role)
    → Keyed same_member s.db.memberships
    → IsMember s user role
    → (m : MembershipRecord) × (find_membership s user ≡ some m) × (m.role ≡ role)
unfolding find_membership
find_membership_complete s user role k r =
    let fits : is_membership s.tenant_id user r.row ≡ true =
      rw (r.tenant, r.user_id, eq_refl s.tenant_id) (eq_refl user) in
    let found =
      find-Keyed same_member (is_membership s.tenant_id user) s.db.memberships r.row same_of k
        r.listed fits in
    (record { user_id = r.row.user_id; role = r.row.role }, ap to_record found, r.role_is)
  where
    same_of :
        (y z : Membership)
        → is_membership s.tenant_id user y ≡ true
        → is_membership s.tenant_id user z ≡ true
        → same_member y z ≡ true
    same_of y z a b =
        let (t, u) = and-eq-true (y.tenant_id == s.tenant_id) (y.user_id == user) a in
        let (t', u') = and-eq-true (z.tenant_id == s.tenant_id) (z.user_id == user) b in
        rw (eq_join y.tenant_id z.tenant_id s.tenant_id t t')
          (eq_join y.user_id z.user_id user u u')
