-- ===== src/Media/Kept.antt =====
-- The rows of src/db/schema that src/lib/media/attachments.ts writes: what holds of them.
use lamp_light.Base.{ℕ, ◌≤◌, ◌≡◌, true, not, Option, none, some, [], ◌∷◌, ◌++◌, All, arith}
use lamp_light.Base.Text.{Text, starts_with}
use lamp_light.Db.{ResourceKind, audio, video, pdf, link, CourseResource, LessonResource}
use lamp_light.Db.Tables.{All-update, All-filter, All-append_one}
use lamp_light.Storage.Keys.{tenant_prefix}
use lamp_light.Storage.Signing.{ok, access_error, ◌>>=◌, assert_key_belongs}
use lamp_light.Media.Uploads.{max_document_bytes}
use lamp_light.Media.Attachments.{
  AttachmentTarget, of_course, of_lesson, File, Library, is_course_row, is_lesson_row, course_row,
  lesson_row, reserve_row, confirm_row, remove_row, delete_object, after_delete, either_way,
}

-- A document that is confirmed is within the limit.
abbrev pub Fits : ResourceKind → Option ℕ → Type 0
Fits pdf (some size) = size ≤ max_document_bytes
Fits pdf none = Unit
Fits audio size = Unit
Fits video size = Unit
Fits link size = Unit

-- The key, if there is one, is under the institute's prefix.
abbrev pub IsOwn : Text → Option Text → Type 0
IsOwn tenant none = Unit
IsOwn tenant (some key) = starts_with (tenant_prefix tenant) key ≡ true

abbrev pub IsKeptCourse : CourseResource → Type 0
IsKeptCourse r = Fits r.kind r.byte_size × IsOwn r.tenant_id r.storage_key

abbrev pub IsKeptLesson : LessonResource → Type 0
IsKeptLesson r = Fits r.kind r.byte_size × IsOwn r.tenant_id r.storage_key

abbrev pub AllKept : Library → Type 0
AllKept lib = All IsKeptCourse lib.db.course_resources × All IsKeptLesson lib.db.lesson_resources

fits : (kind : ResourceKind) (size : ℕ) → size ≤ max_document_bytes → Fits kind (some size)
fits pdf size h = h
fits audio size h = tt
fits video size h = tt
fits link size h = tt

pub as_sized :
    (m n : ℕ)
    → ◌≡◌ {A = Option ℕ} (some m) (some n)
    → n ≤ max_document_bytes
    → m ≤ max_document_bytes
as_sized m n e h = let same : m ≡ n = ground arith in omega arith

pub confirm_row-AllKept :
    (tenant : Text) (target : AttachmentTarget) (id : Text) (size : ℕ) (lib : Library)
    → size ≤ max_document_bytes
    → AllKept lib
    → AllKept (record lib { db = confirm_row tenant target id size lib.db })
unfolding confirm_row
confirm_row-AllKept tenant (of_course parent) id size lib h (c, l) = (
  All-update IsKeptCourse (is_course_row tenant id) _ (λ r k. (fits r.kind size h, k.1))
      lib.db.course_resources c,
  l,
)
confirm_row-AllKept tenant (of_lesson parent) id size lib h (c, l) = (
  c,
  All-update IsKeptLesson (is_lesson_row tenant id) _ (λ r k. (fits r.kind size h, k.1))
      lib.db.lesson_resources l,
)

pub remove_row-AllKept :
    (tenant : Text) (target : AttachmentTarget) (id : Text) (lib : Library)
    → AllKept lib
    → AllKept (record lib { db = remove_row tenant target id lib.db })
unfolding remove_row
remove_row-AllKept tenant (of_course parent) id lib (c, l) =
    (All-filter IsKeptCourse (λ r. not (is_course_row tenant id r)) lib.db.course_resources c, l)
remove_row-AllKept tenant (of_lesson parent) id lib (c, l) =
    (c, All-filter IsKeptLesson (λ r. not (is_lesson_row tenant id r)) lib.db.lesson_resources l)

pub reserve_row-AllKept :
    (tenant : Text) (target : AttachmentTarget) (id key : Text) (file : File) (lib : Library)
    → starts_with (tenant_prefix tenant) key ≡ true
    → AllKept lib
    → AllKept (record lib { db = reserve_row tenant target id key file lib.db })
unfolding reserve_row
reserve_row-AllKept tenant (of_course parent) id key file lib h (c, l) = (
  All-append_one IsKeptCourse lib.db.course_resources (course_row tenant parent id key file) c
      (tt, h),
  l,
)
reserve_row-AllKept tenant (of_lesson parent) id key file lib h (c, l) = (
  c,
  All-append_one IsKeptLesson lib.db.lesson_resources (lesson_row tenant parent id key file) l
      (tt, h),
)

-- A deletion of an object leaves the rows.
pub after_delete-AllKept :
    (message tenant key : Text) (lib : Library)
    → AllKept lib
    → AllKept (after_delete message lib (delete_object tenant key lib)).1
unfolding delete_object
after_delete-AllKept message tenant key lib h =
    elim (assert_key_belongs tenant key)
      as (λ a.
        AllKept
          (after_delete message lib
            (a >>= (λ u. ok (record lib { deleted = lib.deleted ++ key ∷ [] })))).1) [
              | ok u ↦ h
              | access_error ↦ h
            ]

pub either_way-AllKept :
    (tenant key : Text) (lib : Library)
    → AllKept lib
    → AllKept (either_way lib (delete_object tenant key lib))
unfolding delete_object
either_way-AllKept tenant key lib h =
    elim (assert_key_belongs tenant key)
      as (λ a.
        AllKept
          (either_way lib (a >>= (λ u. ok (record lib { deleted = lib.deleted ++ key ∷ [] }))))) [
            | ok u ↦ h
            | access_error ↦ h
          ]
