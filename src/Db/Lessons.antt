-- ===== src/Db/Lessons.antt =====
-- src/db/repositories/lessons.ts: a lesson with the course that it hangs under, and its recordings.
use lamp_light.Base.{
  ℕ, Bool, ◌&&◌, Option, List, [], ◌∷◌, leb, if◌then◌else◌, filter, head?, is_some, any,
}
use lamp_light.Base.Text.{Text, ◌==◌}
use lamp_light.Db.{CourseModule, Course, Lesson, LessonResource, Scope}
use lamp_light.Db.Queries.{flat_map, order_by}

pub record LessonWithCourse : Type 0 where
  pub id : Text
  pub title : Text
  pub slug : Text
  pub content_md : Option Text
  pub is_free_preview : Bool
  pub duration_seconds : Option ℕ
  pub module_id : Text
  pub course_id : Text
  pub course_title : Text
  pub course_slug : Text

-- The row of a join, where its parts fit.
abbrev pub joined : Lesson → CourseModule → Course → LessonWithCourse
joined l m c = record {
  id = l.id;
  title = l.title;
  slug = l.slug;
  content_md = l.content_md;
  is_free_preview = l.is_free_preview;
  duration_seconds = l.duration_seconds;
  module_id = l.module_id;
  course_id = m.course_id;
  course_title = c.title;
  course_slug = c.slug;
}

abbrev pub course_rows : Scope → Lesson → CourseModule → Course → List LessonWithCourse
course_rows s l m c =
    if c.tenant_id == s.tenant_id && c.id == m.course_id then joined l m c ∷ [] else []

abbrev pub module_rows : Scope → Lesson → CourseModule → List LessonWithCourse
module_rows s l m =
    if m.tenant_id == s.tenant_id && m.id == l.module_id
    then flat_map (course_rows s l m) s.db.courses
    else []

abbrev pub lesson_rows : Scope → Text → Lesson → List LessonWithCourse
lesson_rows s lesson_id l =
    if l.tenant_id == s.tenant_id && l.id == lesson_id
    then flat_map (module_rows s l) s.db.modules
    else []

unfoldable pub find_lesson_with_course : Scope → Text → Option LessonWithCourse
unfolding ◌==◌
find_lesson_with_course s lesson_id = head? (flat_map (lesson_rows s lesson_id) s.db.lessons)

-- Only recordings whose object is confirmed, which is what a size means.
abbrev pub is_recording : Text → Text → LessonResource → Bool
is_recording tenant lesson_id r =
    r.tenant_id == tenant && (r.lesson_id == lesson_id && is_some r.byte_size)

unfoldable pub list_lesson_resources : Scope → Text → List LessonResource
unfolding ◌==◌
list_lesson_resources s lesson_id =
    order_by (λ a b. leb a.sort_order b.sort_order)
      (filter (is_recording s.tenant_id lesson_id) s.db.lesson_resources)

abbrev pub is_one_of : Text → List Text → LessonResource → Bool
is_one_of tenant ids r = r.tenant_id == tenant && any (λ i. i == r.lesson_id) ids

unfoldable pub list_resources_for_lessons : Scope → List Text → List LessonResource
unfolding ◌==◌
list_resources_for_lessons s [] = []
list_resources_for_lessons s (i ∷ ids) =
    order_by (λ a b. leb a.sort_order b.sort_order)
      (filter (is_one_of s.tenant_id (i ∷ ids)) s.db.lesson_resources)
