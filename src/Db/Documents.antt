-- ===== src/Db/Documents.antt =====
-- src/db/repositories/catalog.ts: the documents of a course.
use lamp_light.Base.{Bool, ◌&&◌, ◌≡◌, true, List, All, leb, filter, filter-All, Memᴰ}
use lamp_light.Base.Text.{Text, ◌==◌}
use lamp_light.Db.{CourseResource, Scope}
use lamp_light.Db.Queries.{order_by, All-order_by}

abbrev pub is_document : Text → Text → CourseResource → Bool
is_document tenant course_id r = r.tenant_id == tenant && r.course_id == course_id

unfoldable pub list_course_resources : Scope → Text → List CourseResource
unfolding ◌==◌
list_course_resources s course_id =
    order_by (λ a b. leb a.sort_order b.sort_order)
      (filter (is_document s.tenant_id course_id) s.db.course_resources)

pub list_course_resources-All :
    (s : Scope) (course_id : Text)
    → All
        (λ r. (is_document s.tenant_id course_id r ≡ true) × Memᴰ r s.db.course_resources)
        (list_course_resources s course_id)
unfolding list_course_resources
list_course_resources-All s course_id =
    All-order_by (λ a b. leb a.sort_order b.sort_order)
      (λ r. (is_document s.tenant_id course_id r ≡ true) × Memᴰ r s.db.course_resources) _
      (filter-All (is_document s.tenant_id course_id) s.db.course_resources)
