-- ===== src/Db/Isolation.antt =====
-- Row-level security (drizzle/0001_rls_policies.sql) as a view of the tables, and the repositories'
-- own tenant filters: the reads with the policies in force and without them.
use lamp_light.Base.{
  ℕ, ◌≡◌, refl, ap, fun_ext, ◌∙◌, Bool, true, ◌&&◌, ◌||◌, [], if◌then◌else◌, any, filter, head?,
  leb, and-eq-true,
}
use lamp_light.Base.Text.{Text, ◌==◌}
use lamp_light.Db.{Database, Scope, CourseModule, Lesson, Enrollment, kind_eq, program, course}
use lamp_light.Db.Queries.{
  flat_map, order_by, find-filter, any-filter, filter-filter, flat_map-filter,
}
use lamp_light.Db.Entitlements.{
  to_record, is_membership, is_assignment, is_containment, not_expired, covers, is_entitlement,
  find_membership, is_instructor_of, has_active_entitlement,
}
use lamp_light.Db.Lessons.{
  course_rows, module_rows, lesson_rows, find_lesson_with_course, is_recording,
  list_lesson_resources,
}

-- The rows that the policies of an institute let through.
unfoldable pub restrict : Text → Database → Database
restrict t db = record {
  memberships = filter (λ r. r.tenant_id == t) db.memberships;
  courses = filter (λ r. r.tenant_id == t) db.courses;
  programs = filter (λ r. r.tenant_id == t) db.programs;
  modules = filter (λ r. r.tenant_id == t) db.modules;
  lessons = filter (λ r. r.tenant_id == t) db.lessons;
  course_instructors = filter (λ r. r.tenant_id == t) db.course_instructors;
  program_courses = filter (λ r. r.tenant_id == t) db.program_courses;
  enrollments = filter (λ r. r.tenant_id == t) db.enrollments;
  lesson_resources = filter (λ r. r.tenant_id == t) db.lesson_resources;
  course_resources = filter (λ r. r.tenant_id == t) db.course_resources;
  progress = filter (λ r. r.tenant_id == t) db.progress;
  invitations = filter (λ r. r.tenant_id == t) db.invitations;
  audit_log = filter (λ r. r.tenant_id == t) db.audit_log;
}

-- The scope as the second layer sees it.
unfoldable pub guarded : Scope → Scope
unfolding restrict
guarded s = record { tenant_id = s.tenant_id; db = restrict s.tenant_id s.db }

first_holds : (a b : Bool) → (a && b) ≡ true → a ≡ true
first_holds a b h = (and-eq-true a b h).0

module _ (s : Scope) where
  pub find_membership-guarded :
      (user : Text) → find_membership (guarded s) user ≡ find_membership s user
  unfolding find_membership guarded
  find_membership-guarded user = ap to_record (
      find-filter (is_membership s.tenant_id user) (λ r. r.tenant_id == s.tenant_id)
        (λ r h. first_holds (r.tenant_id == s.tenant_id) _ h) s.db.memberships)

  pub is_instructor_of-guarded :
      (user course_id : Text)
      → is_instructor_of (guarded s) user course_id ≡ is_instructor_of s user course_id
  unfolding is_instructor_of guarded
  is_instructor_of-guarded user course_id =
      any-filter (is_assignment s.tenant_id user course_id) (λ r. r.tenant_id == s.tenant_id)
        (λ r h. first_holds (r.tenant_id == s.tenant_id) _ h) s.db.course_instructors

  covers-guarded :
      (course_id : Text) (e : Enrollment) → covers (guarded s) course_id e ≡ covers s course_id e
  unfolding guarded
  covers-guarded course_id e =
      ap
        (λ b.
          (kind_eq e.source_kind course && e.source_id == course_id)
          || (kind_eq e.source_kind program && b))
        (any-filter (is_containment s.tenant_id e.source_id course_id)
          (λ r. r.tenant_id == s.tenant_id) (λ r h. first_holds (r.tenant_id == s.tenant_id) _ h)
          s.db.program_courses)

  entitlement-guarded :
      (now : ℕ) (user course_id : Text)
      → is_entitlement now (guarded s) user course_id ≡ is_entitlement now s user course_id
  unfolding guarded
  entitlement-guarded now user course_id = fun_ext λ e.
      ap (λ b. e.tenant_id == s.tenant_id && (e.user_id == user && (not_expired now e && b)))
        (covers-guarded course_id e)

  own_enrollments :
      (now : ℕ) (user course_id : Text)
      → any (is_entitlement now s user course_id) (guarded s).db.enrollments
        ≡ any (is_entitlement now s user course_id) s.db.enrollments
  unfolding guarded
  own_enrollments now user course_id =
      any-filter (is_entitlement now s user course_id) (λ r. r.tenant_id == s.tenant_id)
        (λ r h. first_holds (r.tenant_id == s.tenant_id) _ h) s.db.enrollments

  pub has_active_entitlement-guarded :
      (now : ℕ) (user course_id : Text)
      → has_active_entitlement now (guarded s) user course_id
        ≡ has_active_entitlement now s user course_id
  unfolding has_active_entitlement
  has_active_entitlement-guarded now user course_id =
      ap (λ p. any p (guarded s).db.enrollments) (entitlement-guarded now user course_id)
      ∙ own_enrollments now user course_id

  module_rows-guarded :
      (l : Lesson) (m : CourseModule) → module_rows (guarded s) l m ≡ module_rows s l m
  unfolding guarded
  module_rows-guarded l m =
      ap (λ rows. if m.tenant_id == s.tenant_id && m.id == l.module_id then rows else [])
        (flat_map-filter (course_rows s l m) (λ c. c.tenant_id == s.tenant_id) (λ c no. rw no refl)
          s.db.courses)

  lesson_rows-guarded :
      (lesson_id : Text) → lesson_rows (guarded s) lesson_id ≡ lesson_rows s lesson_id
  unfolding guarded
  lesson_rows-guarded lesson_id = fun_ext λ l.
      ap (λ rows. if l.tenant_id == s.tenant_id && l.id == lesson_id then rows else [])
        (ap (λ f. flat_map f (filter (λ m. m.tenant_id == s.tenant_id) s.db.modules))
            (fun_ext (module_rows-guarded l))
          ∙ flat_map-filter (module_rows s l) (λ m. m.tenant_id == s.tenant_id) (λ m no. rw no refl)
              s.db.modules)

  own_lessons :
      (lesson_id : Text)
      → flat_map (lesson_rows s lesson_id) (guarded s).db.lessons
        ≡ flat_map (lesson_rows s lesson_id) s.db.lessons
  unfolding guarded
  own_lessons lesson_id =
      flat_map-filter (lesson_rows s lesson_id) (λ l. l.tenant_id == s.tenant_id)
        (λ l no. rw no refl) s.db.lessons

  pub find_lesson_with_course-guarded :
      (lesson_id : Text)
      → find_lesson_with_course (guarded s) lesson_id ≡ find_lesson_with_course s lesson_id
  unfolding find_lesson_with_course
  find_lesson_with_course-guarded lesson_id = ap head? (
      ap (λ f. flat_map f (guarded s).db.lessons) (lesson_rows-guarded lesson_id)
      ∙ own_lessons lesson_id)

  pub list_lesson_resources-guarded :
      (lesson_id : Text)
      → list_lesson_resources (guarded s) lesson_id ≡ list_lesson_resources s lesson_id
  unfolding list_lesson_resources guarded
  list_lesson_resources-guarded lesson_id = ap (order_by (λ a b. leb a.sort_order b.sort_order)) (
      filter-filter (is_recording s.tenant_id lesson_id) (λ r. r.tenant_id == s.tenant_id)
        (λ r h. first_holds (r.tenant_id == s.tenant_id) _ h) s.db.lesson_resources)

  pub courses-guarded :
      (course_id : Text)
      → any (λ c. c.tenant_id == s.tenant_id && c.id == course_id) (guarded s).db.courses
        ≡ any (λ c. c.tenant_id == s.tenant_id && c.id == course_id) s.db.courses
  unfolding guarded
  courses-guarded course_id =
      any-filter (λ c. c.tenant_id == s.tenant_id && c.id == course_id)
        (λ c. c.tenant_id == s.tenant_id) (λ c h. first_holds (c.tenant_id == s.tenant_id) _ h)
        s.db.courses

pub guarded_agree :
    (t : Text) (a b : Database)
    → restrict t a ≡ restrict t b
    → guarded (record { tenant_id = t; db = a }) ≡ guarded (record { tenant_id = t; db = b })
unfolding guarded
guarded_agree t a b e = ap (λ d. record { tenant_id = t; db = d }) e
