-- ===== src/Tests/Media.antt =====
-- Runs of src/lib/media.
use lamp_light.Base.{
  ◌≡◌, refl, Bool, true, false, some, List, [], ◌∷◌, ◌++◌, find, any, length, arith,
}
use lamp_light.Base.Text.{
  Text, codes, ◌==◌, starts_with, includes, split, trim, trim_start, trim_end, is_space,
  ascii_case_map,
}
use lamp_light.Db.Entitlements.{find_membership, is_instructor_of}
use lamp_light.Storage.Keys.{
  is_safe, base_from, hyphenate, collapse, strip_front, strip_back, cleaned, sanitize_filename,
  build_object_key, key_belongs_to_tenant,
}
use lamp_light.Storage.Signing.{
  ObjectFacts, StorageSigner, ok, access_error, assert_key_belongs, sign_object_write, stat_object,
}
use lamp_light.Access.Authoring.{
  decide_course_authoring, decide_lesson_authoring, course_exists, decide_author, decide_found,
  course_of_lesson,
}
use lamp_light.Media.Uploads.{
  accepted, document, decimal_from, decimal, format_bytes, check_size, check_type, type_of,
  check_upload,
}
use lamp_light.Media.Attachments.{
  of_course, of_lesson, AttachmentContext, Reserved, done, File, Library, course_row, is_course_row,
  may_author, find_key, reserve_row, object_key, type_text, reserve_attachment, settle,
  delete_object, confirm_attachment,
}
use lamp_light.Media.Kept.{AllKept}
use lamp_light.Media.Sound.{Call, reserve, confirm, remove, called, called-AllKept}
use lamp_light.Media.Confirming.{confirm_attachment-reserve_attachment}
use lamp_light.Tests.Data.{here, ben, geometry, lesson_one, rows_both}

-- What the bucket answers: every object has a hundred bytes, of the given type.
abbrev bucket_of : Text → StorageSigner
bucket_of type = record {
  sign_get = λ r. codes "get";
  sign_put = λ r. codes "put";
  head = λ key. some (record { byte_size = 100; content_type = some type });
}

abbrev facts : ObjectFacts
facts = record { byte_size = 100; content_type = some (codes "application/pdf") }

abbrev teacher : AttachmentContext
teacher = record { tenant_id = here; actor_user_id = ben }

abbrev file : Text → File
file name = record {
  filename = name;
  content_type = codes "Application/PDF; q=1";
  byte_size = some 100;
  title = [];
  is_public = false;
}

abbrev library : Library
library = record { db = rows_both; audit = []; deleted = [] }

type_fine :
    check_upload ascii_case_map document (codes "Application/PDF; q=1") (some 100)
    ≡ accepted (codes "application/pdf")
unfolding check_upload check_type check_size type_of split trim trim_start trim_end is_space ◌==◌
type_fine = refl

-- A size beyond the limit, in the words of the refusal.
sizes :
    format_bytes 27262977 ++ format_bytes 1610612736 ++ format_bytes 1536 ≡ codes "26 MB1.5 GB2 KB"
unfolding format_bytes decimal decimal_from
sizes = refl

abbrev calls : List (Bool × StorageSigner × Call)
calls =
    (
      true,
      bucket_of (codes "application/pdf"),
      reserve 5 (codes "n1") teacher (of_course geometry) (file (codes "notes.pdf")),
    )
    ∷ (true, bucket_of (codes "application/pdf"), confirm teacher (of_course geometry) (codes "n1"))
    ∷ (true, bucket_of (codes "application/pdf"), remove teacher (of_course geometry) (codes "d1"))
    ∷ []

kept : AllKept library
unfolding starts_with
kept = (((omega arith, refl), ((tt, tt), tt)), ((tt, refl), tt))

called-AllKept_example : AllKept (called ascii_case_map calls library)
called-AllKept_example = called-AllKept ascii_case_map calls library kept

new : any (is_course_row here (codes "n1")) rows_both.course_resources ≡ false
unfolding ◌==◌
new = refl

abbrev answer : Reserved
answer = record {
  resource_id = codes "n1";
  upload_url = codes "put";
  content_type = codes "application/pdf";
}

reserved_there :
    (reserve_attachment ascii_case_map true
      (bucket_of (codes "application/pdf"))
      5
      (codes "n1")
      teacher
      (of_course geometry)
      (file (codes "notes.pdf"))
      library).0
    ≡ ok (done answer)
unfolding reserve_attachment check_upload check_type check_size type_of split trim trim_start
    trim_end is_space may_author decide_course_authoring course_exists decide_author
    is_instructor_of find_membership build_object_key sanitize_filename cleaned base_from hyphenate
    is_safe collapse strip_front strip_back sign_object_write assert_key_belongs
    key_belongs_to_tenant includes starts_with ◌==◌
reserved_there = refl

type_there :
    check_upload ascii_case_map document
      (type_text ascii_case_map true (bucket_of (codes "application/pdf")) facts.content_type)
      (some facts.byte_size)
    ≡ accepted (codes "application/pdf")
unfolding check_upload check_type check_size type_of split trim trim_start trim_end is_space ◌==◌
type_there = refl

confirm_attachment-reserve_attachment_example :
    ((confirm_attachment ascii_case_map true
        (bucket_of (codes "application/pdf"))
        teacher
        (of_course geometry)
        (codes "n1")
        (reserve_attachment ascii_case_map true
          (bucket_of (codes "application/pdf"))
          5
          (codes "n1")
          teacher
          (of_course geometry)
          (file (codes "notes.pdf"))
          library).1).0
      ≡ ok (done tt))
    × (find
          (is_course_row here (codes "n1"))
          (confirm_attachment ascii_case_map true
            (bucket_of (codes "application/pdf"))
            teacher
            (of_course geometry)
            (codes "n1")
            (reserve_attachment ascii_case_map true
              (bucket_of (codes "application/pdf"))
              5
              (codes "n1")
              teacher
              (of_course geometry)
              (file (codes "notes.pdf"))
              library).1).1.db.course_resources
        ≡ some
            (record (course_row here geometry
              (codes "n1")
              (object_key ascii_case_map true
                (bucket_of (codes "application/pdf"))
                teacher
                (codes "n1")
                (file (codes "notes.pdf")))
              (file (codes "notes.pdf"))) { byte_size = some 100 }))
confirm_attachment-reserve_attachment_example =
    confirm_attachment-reserve_attachment ascii_case_map (bucket_of (codes "application/pdf")) 5
      (codes "n1") teacher geometry (file (codes "notes.pdf")) library answer facts
      (codes "application/pdf") new reserved_there refl type_there

-- The confirmation of a recording, which is no document, deletes its object; the row stays.
recording_lost :
    (confirm_attachment ascii_case_map true
      (bucket_of (codes "audio/mpeg"))
      teacher
      (of_lesson lesson_one)
      (codes "r1")
      library).1
    ≡ record library { deleted = codes "t/i1/lesson/r1/a.mp3" ∷ [] }
unfolding confirm_attachment settle stat_object delete_object find_key check_upload check_type
    type_of split trim trim_start trim_end is_space may_author decide_lesson_authoring decide_found
    course_of_lesson decide_course_authoring course_exists decide_author is_instructor_of
    find_membership assert_key_belongs key_belongs_to_tenant includes starts_with ◌==◌
recording_lost = refl

-- A name with two dots: the signing throws, and the row stays.
row_stays :
    let after =
      reserve_attachment ascii_case_map true
        (bucket_of (codes "application/pdf"))
        5
        (codes "n1")
        teacher
        (of_course geometry)
        (file (codes "a..pdf"))
        library in
    (after.0 ≡ access_error) × (length after.1.db.course_resources ≡ 3)
unfolding reserve_attachment reserve_row check_upload check_type check_size type_of split trim
    trim_start trim_end is_space may_author decide_course_authoring course_exists decide_author
    is_instructor_of find_membership build_object_key sanitize_filename cleaned base_from hyphenate
    is_safe collapse strip_front strip_back sign_object_write assert_key_belongs
    key_belongs_to_tenant includes starts_with ◌==◌
row_stays = (refl, refl)
