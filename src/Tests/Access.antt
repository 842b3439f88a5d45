-- ===== src/Tests/Access.antt =====
-- Runs of src/lib/access.
use lamp_light.Base.{◌≡◌, ◌↔◌, refl, true, false, none, some, List, [], ◌∷◌, ◌++◌, All, Memᴰ, arith}
use lamp_light.Base.Text.{codes, ◌==◌, starts_with, includes}
use lamp_light.Db.{student, audio, program}
use lamp_light.Db.Queries.{Keyed}
use lamp_light.Db.Isolation.{restrict}
use lamp_light.Db.Entitlements.{find_membership, is_instructor_of, has_active_entitlement}
use lamp_light.Db.Lessons.{LessonWithCourse, find_lesson_with_course, list_lesson_resources}
use lamp_light.Storage.Keys.{key_belongs_to_tenant}
use lamp_light.Storage.Signing.{StorageSigner, ok, assert_key_belongs, sign_object_read}
use lamp_light.Access.Rows.{Located, Enrolled, via_program, same_member}
use lamp_light.Access.Predicate.{
  AccessContext, entitlement, granted, allowed, decide_entitled, decide_role, decide_member,
  decide_lesson, decide_lesson_access, scope_of,
}
use lamp_light.Access.Predicate.Rules.{
  Justified, Standing, decide_lesson_access_sound, decide_lesson_access_complete,
}
use lamp_light.Access.Authoring.{AuthorContext, decide_course_authoring}
use lamp_light.Access.Authoring.Rules.{MayAuthor, decide_course_authoring_iff}
use lamp_light.Access.Isolation.{decide_lesson_access-isolated}
use lamp_light.Access.Media.{
  IssuedMedia, issue_all, resources_for, issue_lesson_media, IsOwn, issue_lesson_media-IsOwn,
}
use lamp_light.Db.Documents.{list_course_resources}
use lamp_light.Access.Documents.{
  IssuedDocument, confirmed_key, issue_document, issue_documents, issue_course_documents, IsOffered,
  issue_course_documents-IsOffered,
}
use lamp_light.Tests.Data.{here, ana, ben, geometry, lesson_one, rows_here, rows_both}

abbrev as_ana : AccessContext
as_ana = record { tenant_id = here; user_id = some ana }

abbrev as_ben : AuthorContext
as_ben = record { tenant_id = here; user_id = ben }

abbrev lesson_here : LessonWithCourse
lesson_here = record {
  id = lesson_one;
  title = codes "Points";
  slug = codes "points";
  content_md = none;
  is_free_preview = false;
  duration_seconds = some 60;
  module_id = codes "m1";
  course_id = geometry;
  course_title = codes "Geometry";
  course_slug = geometry;
}

same_rows : restrict here rows_here ≡ restrict here rows_both
unfolding restrict ◌==◌
same_rows = refl

decide_lesson_access-isolated_example :
    decide_lesson_access 5 (scope_of rows_here here) as_ana lesson_one
    ≡ decide_lesson_access 5 (scope_of rows_both here) as_ana lesson_one
decide_lesson_access-isolated_example =
    decide_lesson_access-isolated 5 here rows_here rows_both as_ana lesson_one same_rows

entitled :
    decide_lesson_access 5 (scope_of rows_both here) as_ana lesson_one
    ≡ granted entitlement geometry
unfolding decide_lesson_access decide_lesson decide_member decide_role decide_entitled
    find_membership is_instructor_of has_active_entitlement find_lesson_with_course ◌==◌
entitled = refl

decide_lesson_access_sound_example :
    (w : LessonWithCourse) × Located (scope_of rows_both here) lesson_one w
    × (geometry ≡ w.course_id)
    × Justified 5 (scope_of rows_both here) (some ana) w entitlement
decide_lesson_access_sound_example =
    decide_lesson_access_sound 5 (scope_of rows_both here) as_ana lesson_one geometry entitlement
      entitled

found : find_lesson_with_course (scope_of rows_both here) lesson_one ≡ some lesson_here
unfolding find_lesson_with_course ◌==◌
found = refl

keyed : Keyed same_member (scope_of rows_both here).db.memberships
unfolding ◌==◌
keyed = ((refl, (refl, tt)), ((refl, tt), (tt, tt)))

abbrev standing : Standing (scope_of rows_both here) (some ana) student
standing = record {
  id = ana;
  signed_in = refl;
  member = record {
    row = record { tenant_id = here; user_id = ana; role = student; profile = [] };
    listed = Memᴰ.tail (Memᴰ.head refl);
    tenant = refl;
    user_id = refl;
    role_is = refl;
  };
}

enrolled : Enrolled 5 (scope_of rows_both here) ana geometry
enrolled = record {
  row = record {
    tenant_id = here;
    id = codes "e1";
    user_id = ana;
    source_kind = program;
    source_id = codes "p1";
    expires_at = some 1000;
    granted_by = none;
  };
  listed = Memᴰ.head refl;
  keys = (refl, refl);
  current = omega arith;
  covered =
      via_program (record { tenant_id = here; program_id = codes "p1"; course_id = geometry }) refl
        (Memᴰ.head refl) refl refl refl;
}

abbrev why : Justified 5 (scope_of rows_both here) (some ana) lesson_here entitlement
why = (student, standing, enrolled)

decide_lesson_access_complete_example :
    allowed (decide_lesson_access 5 (scope_of rows_both here) as_ana lesson_one) ≡ true
decide_lesson_access_complete_example =
    decide_lesson_access_complete 5 (scope_of rows_both here) as_ana lesson_one lesson_here
      entitlement found keyed why

decide_course_authoring_iff_example :
    (lamp_light.Access.Authoring.allowed
        (decide_course_authoring (scope_of rows_both here) as_ben geometry)
      ≡ true)
    ↔ MayAuthor (scope_of rows_both here) ben geometry
decide_course_authoring_iff_example =
    decide_course_authoring_iff (scope_of rows_both here) as_ben geometry keyed

-- The URL is the key behind a fixed origin.
abbrev signer : StorageSigner
signer = record {
  sign_get = λ q. codes "https://bucket/" ++ q.key;
  sign_put = λ q. codes "https://bucket/" ++ q.key;
  head = λ key. none;
}

abbrev media : List IssuedMedia
media =
    record {
      resource_id = codes "r1";
      kind = audio;
      filename = some (codes "a.mp3");
      is_downloadable = true;
      url = codes "https://bucket/t/i1/lesson/r1/a.mp3";
      expires_at = 60005;
    }
    ∷ []

issued_here : issue_lesson_media signer 5 60 rows_both as_ana lesson_one ≡ ok (some media)
unfolding issue_lesson_media resources_for issue_all list_lesson_resources sign_object_read
    assert_key_belongs key_belongs_to_tenant starts_with includes decide_lesson_access decide_lesson
    decide_member decide_role decide_entitled find_membership is_instructor_of
    has_active_entitlement find_lesson_with_course ◌==◌
issued_here = refl

issue_lesson_media-IsOwn_example :
    (allowed (decide_lesson_access 5 (scope_of rows_both here) as_ana lesson_one) ≡ true)
    × All (IsOwn signer 5 60 (scope_of rows_both here) lesson_one) media
issue_lesson_media-IsOwn_example =
    issue_lesson_media-IsOwn signer 5 60 rows_both as_ana lesson_one media issued_here

abbrev documents : List IssuedDocument
documents =
    record {
      resource_id = codes "d1";
      title = codes "plan.pdf";
      is_public = true;
      url = codes "https://bucket/t/i1/lesson/d1/plan.pdf";
    }
    ∷ []

-- A visitor gets the public one of the two.
offered_here : issue_course_documents signer 5 60 rows_both as_ana geometry false ≡ ok documents
unfolding issue_course_documents issue_documents issue_document confirmed_key list_course_resources
    sign_object_read assert_key_belongs key_belongs_to_tenant starts_with includes ◌==◌
offered_here = refl

issue_course_documents-IsOffered_example :
    All (IsOffered signer 5 60 rows_both here geometry false) documents
issue_course_documents-IsOffered_example =
    issue_course_documents-IsOffered signer 5 60 rows_both as_ana geometry false documents
      offered_here
