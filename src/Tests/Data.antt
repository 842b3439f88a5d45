-- ===== src/Tests/Data.antt =====
-- The tables of two institutes.
use lamp_light.Base.{true, false, none, some, [], ◌∷◌}
use lamp_light.Base.Text.{Text, codes}
use lamp_light.Db.{student, instructor, admin, program, audio, pdf, link, Database}

abbrev pub here : Text
here = codes "i1"

abbrev pub there : Text
there = codes "i2"

abbrev pub ana : Text
ana = codes "ana"

abbrev pub ben : Text
ben = codes "ben"

abbrev pub geometry : Text
geometry = codes "geo"

abbrev pub lesson_one : Text
lesson_one = codes "l1"

-- `ana` studies a program that holds the course, `ben` teaches the course.
abbrev pub rows_here : Database
rows_here = record {
  memberships =
      record { tenant_id = here; user_id = ana; role = student; profile = [] }
      ∷ record { tenant_id = here; user_id = ben; role = instructor; profile = [] }
      ∷ [];
  courses =
      record { tenant_id = here; id = geometry; title = codes "Geometry"; slug = geometry } ∷ [];
  programs = record { tenant_id = here; id = codes "p1"; title = codes "Mathematics" } ∷ [];
  modules = record { tenant_id = here; id = codes "m1"; course_id = geometry } ∷ [];
  lessons =
      record {
        tenant_id = here;
        id = lesson_one;
        module_id = codes "m1";
        title = codes "Points";
        slug = codes "points";
        content_md = none;
        is_free_preview = false;
        duration_seconds = some 60;
      }
      ∷ [];
  course_instructors = record { tenant_id = here; user_id = ben; course_id = geometry } ∷ [];
  program_courses = record { tenant_id = here; program_id = codes "p1"; course_id = geometry } ∷ [];
  enrollments =
      record {
        tenant_id = here;
        id = codes "e1";
        user_id = ana;
        source_kind = program;
        source_id = codes "p1";
        expires_at = some 1000;
        granted_by = none;
      }
      ∷ [];
  lesson_resources =
      record {
        tenant_id = here;
        id = codes "r1";
        lesson_id = lesson_one;
        kind = audio;
        storage_key = some (codes "t/i1/lesson/r1/a.mp3");
        filename = some (codes "a.mp3");
        is_downloadable = true;
        byte_size = some 12;
        sort_order = 0;
      }
      ∷ [];
  course_resources =
      record {
        tenant_id = here;
        id = codes "d1";
        course_id = geometry;
        kind = pdf;
        title = [];
        storage_key = some (codes "t/i1/lesson/d1/plan.pdf");
        url = none;
        filename = some (codes "plan.pdf");
        byte_size = some 9;
        is_public = true;
        sort_order = 0;
      }
      ∷ record {
        tenant_id = here;
        id = codes "d2";
        course_id = geometry;
        kind = link;
        title = codes "Reading";
        storage_key = none;
        url = some (codes "https://books");
        filename = none;
        byte_size = some 0;
        is_public = false;
        sort_order = 1;
      }
      ∷ [];
  progress = [];
  invitations = [];
  audit_log = [];
}

-- The same, with an admin at the other institute.
abbrev pub rows_both : Database
rows_both = record rows_here {
  memberships =
      record { tenant_id = there; user_id = ana; role = admin; profile = [] }
      ∷ rows_here.memberships;
}
