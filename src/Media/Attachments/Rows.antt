-- ===== src/Media/Attachments/Rows.antt =====
-- src/lib/media/attachments.ts: the rows of attachments, who may change them, and their keys.
use lamp_light.Base.{ℕ, Bool, true, ◌&&◌, Option, none, some, List, [], ◌∷◌, ◌++◌, find}
use lamp_light.Base.Text.{Text, codes, ◌==◌}
use lamp_light.Db.{pdf, CourseResource, LessonResource, Database}
use lamp_light.Db.Tables.{update, remove_rows}
use lamp_light.Access.Predicate.{scope_of}
use lamp_light.Access.Authoring.{allowed, decide_course_authoring, decide_lesson_authoring}

pub data AttachmentTarget : Type 0 where
  of_course of_lesson : Text → AttachmentTarget

pub record AttachmentContext : Type 0 where
  pub tenant_id : Text
  pub actor_user_id : Text

pub record Reserved : Type 0 where
  pub resource_id : Text
  pub upload_url : Text
  pub content_type : Text

pub data Result {ℓ} (A : Type ℓ) : Type ℓ where
  done : A → Result A
  error : Text → Result A

-- The audited actions, with the target, the id of the row and the size.
pub data AttachmentAction : Type 0 where
  attachment_uploaded : AttachmentTarget → Text → ℕ → AttachmentAction
  attachment_removed : AttachmentTarget → Text → AttachmentAction

-- The tables, the audit entries of attachments with the actor, and the keys deleted in the bucket.
pub record Library : Type 0 where
  pub db : Database
  pub audit : List (Text × Text × AttachmentAction)
  pub deleted : List Text

-- `file`; a title that is missing counts as an empty one.
pub record File : Type 0 where
  pub filename : Text
  pub content_type : Text
  pub byte_size : Option ℕ
  pub title : Text
  pub is_public : Bool

abbrev pub denied_message : Text
denied_message = codes "That is not available to you."

-- `file.title || file.filename`
abbrev pub title_or : Text → Text → Text
title_or [] filename = filename
title_or (c ∷ title) filename = c ∷ title

abbrev pub course_row : Text → Text → Text → Text → File → CourseResource
course_row tenant course_id id key file = record {
  tenant_id = tenant;
  id = id;
  course_id = course_id;
  kind = pdf;
  title = title_or file.title file.filename;
  storage_key = some key;
  url = none;
  filename = some file.filename;
  byte_size = none;
  is_public = file.is_public;
  sort_order = 0;
}

abbrev pub lesson_row : Text → Text → Text → Text → File → LessonResource
lesson_row tenant lesson_id id key file = record {
  tenant_id = tenant;
  id = id;
  lesson_id = lesson_id;
  kind = pdf;
  storage_key = some key;
  filename = some (title_or file.title file.filename);
  is_downloadable = true;
  byte_size = none;
  sort_order = 1;
}

abbrev pub is_course_row : Text → Text → CourseResource → Bool
is_course_row tenant id r = r.tenant_id == tenant && r.id == id

abbrev pub is_lesson_row : Text → Text → LessonResource → Bool
is_lesson_row tenant id r = r.tenant_id == tenant && r.id == id

unfoldable pub may_author : AttachmentContext → AttachmentTarget → Database → Bool
unfolding decide_course_authoring decide_lesson_authoring
may_author ctx (of_course id) db = allowed (
    decide_course_authoring (scope_of db ctx.tenant_id)
      (record { tenant_id = ctx.tenant_id; user_id = ctx.actor_user_id }) id)
may_author ctx (of_lesson id) db = allowed (
    decide_lesson_authoring (scope_of db ctx.tenant_id)
      (record { tenant_id = ctx.tenant_id; user_id = ctx.actor_user_id }) id)

abbrev pub course_key : Option CourseResource → Option (Option Text)
course_key none = none
course_key (some r) = some r.storage_key

abbrev pub lesson_key : Option LessonResource → Option (Option Text)
lesson_key none = none
lesson_key (some r) = some r.storage_key

-- `undefined` is `none`, and the `null` of a link is `some none`.
unfoldable pub find_key : Text → AttachmentTarget → Text → Database → Option (Option Text)
unfolding ◌==◌
find_key tenant (of_course parent) id db =
    course_key (
      find (λ r. r.tenant_id == tenant && (r.id == id && r.course_id == parent))
        db.course_resources)
find_key tenant (of_lesson parent) id db =
    lesson_key (
      find (λ r. r.tenant_id == tenant && (r.id == id && r.lesson_id == parent))
        db.lesson_resources)

unfoldable pub reserve_row : Text → AttachmentTarget → Text → Text → File → Database → Database
reserve_row tenant (of_course parent) id key file db = record db {
  course_resources = db.course_resources ++ course_row tenant parent id key file ∷ [];
}
reserve_row tenant (of_lesson parent) id key file db = record db {
  lesson_resources = db.lesson_resources ++ lesson_row tenant parent id key file ∷ [];
}

unfoldable pub confirm_row : Text → AttachmentTarget → Text → ℕ → Database → Database
unfolding ◌==◌
confirm_row tenant (of_course parent) id size db = record db {
  course_resources =
      update (is_course_row tenant id) (λ r. record r { byte_size = some size })
        db.course_resources;
}
confirm_row tenant (of_lesson parent) id size db = record db {
  lesson_resources =
      update (is_lesson_row tenant id) (λ r. record r { byte_size = some size })
        db.lesson_resources;
}

unfoldable pub remove_row : Text → AttachmentTarget → Text → Database → Database
unfolding ◌==◌
remove_row tenant (of_course parent) id db = record db {
  course_resources = remove_rows (is_course_row tenant id) db.course_resources;
}
remove_row tenant (of_lesson parent) id db = record db {
  lesson_resources = remove_rows (is_lesson_row tenant id) db.lesson_resources;
}
