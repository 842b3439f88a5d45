-- ===== src/Player.antt =====
-- src/lib/player and the route src/app/api/tenant/lessons/[lessonId]/progress: where a listener got
-- to. A time is in milliseconds and a position in whole seconds; `now` is the database's `now()`,
-- by which access is decided, and `clock` is `new Date()`.
pub mod Stored
pub mod Resuming
use lamp_light.Base.{
  ℕ, ◌*◌, ◌+◌, ◌%◌, suc, Bool, true, false, ◌&&◌, Option, none, some, List, [], ◌∷◌, if◌then◌else◌,
  leb, ltb, nat_eq, find, is_some,
}
use lamp_light.Base.Text.{Text, ◌==◌, truthy}
use lamp_light.Db.{Progress, Scope, Database}
use lamp_light.Access.Predicate.{AccessContext, allowed, decide_lesson_access, scope_of}

-- A value of a request's body, as far as a position is read from it: a finite number is given by its
-- floor, where it is not below zero.
pub data Value : Type 0 where
  no_number not_finite below_zero : Value
  at_least_zero : ℕ → Value

abbrev pub max_position_seconds : ℕ
max_position_seconds = 24 * 60 * 60

-- `Math.max(0, Math.min(MAX_POSITION_SECONDS, Math.floor(value)))`
unfoldable pub clamp_position : Value → Option ℕ
clamp_position no_number = none
clamp_position not_finite = none
clamp_position below_zero = some 0
clamp_position (at_least_zero n) =
    some (if leb max_position_seconds n then max_position_seconds else n)

-- The seconds left at which a position counts as the end, and those before which it is the start.
abbrev pub resume_margin : ℕ
resume_margin = 15

-- `shouldResumeFrom` at whole seconds; a duration of zero counts as none.
unfoldable pub should_resume_from : ℕ → Option ℕ → ℕ
should_resume_from stored none = if ltb stored resume_margin then 0 else stored
should_resume_from stored (some duration) =
    if ltb stored resume_margin
    then 0
    else if nat_eq duration 0
    then stored
    else if leb duration (stored + resume_margin)
    then 0
    else stored

pub record ProgressParams : Type 0 where
  pub user_id : Text
  pub lesson_id : Text
  pub position_seconds : ℕ
  pub completed : Bool

-- The primary key of the table.
abbrev pub is_progress : Text → Text → Text → Progress → Bool
is_progress tenant user lesson p =
    p.tenant_id == tenant && (p.user_id == user && p.lesson_id == lesson)

abbrev pub completed_time : Bool → ℕ → Option ℕ → Option ℕ
completed_time true now old = some now
completed_time false now old = old

-- The row that is inserted, and on a conflict the row that was there, with the columns of `set`.
abbrev pub progress_row : Text → ProgressParams → ℕ → Option ℕ → Progress
progress_row tenant r now old = record {
  tenant_id = tenant;
  user_id = r.user_id;
  lesson_id = r.lesson_id;
  position_seconds = r.position_seconds;
  completed_at = completed_time r.completed now old;
  updated_at = now;
}

unfoldable pub upsert : Text → ProgressParams → ℕ → List Progress → List Progress
upsert tenant r now [] = progress_row tenant r now none ∷ []
upsert tenant r now (p ∷ rest) =
    if is_progress tenant r.user_id r.lesson_id p
    then progress_row tenant r now p.completed_at ∷ rest
    else p ∷ upsert tenant r now rest

unfoldable pub record_progress : Text → ProgressParams → ℕ → Database → Database
unfolding upsert
record_progress tenant r now db = record db { progress = upsert tenant r now db.progress }

pub record LessonProgress : Type 0 where
  pub lesson_id : Text
  pub position_seconds : ℕ
  pub completed_at : Option ℕ

abbrev pub to_progress : Option Progress → Option LessonProgress
to_progress none = none
to_progress (some p) = some (record {
  lesson_id = p.lesson_id;
  position_seconds = p.position_seconds;
  completed_at = p.completed_at;
})

unfoldable pub find_progress : Scope → Text → Text → Option LessonProgress
unfolding ◌==◌
find_progress s user lesson = to_progress (find (is_progress s.tenant_id user lesson) s.db.progress)

-- What was posted: a body that is no JSON, or its two fields; a body that is no object is
-- `fields no_number false`.
pub data Body : Type 0 where
  unreadable : Body
  fields : Value → Bool → Body

abbrev pub read_position : Body → Option ℕ
read_position unreadable = none
read_position (fields position completed) = clamp_position position

abbrev pub read_completed : Body → Bool
read_completed unreadable = false
read_completed (fields position completed) = completed

-- The tenant of the Host header, and the user of the session.
pub record Request : Type 0 where
  pub tenant : Option Text
  pub user : Option Text
  pub lesson_id : Text

abbrev pub context_of : Text → Request → AccessContext
context_of tenant q = record { tenant_id = tenant; user_id = q.user }

pub data Answer : Type 0 where
  not_found bad_request : Answer
  ok : Bool → Answer

-- The transaction of POST.
unfoldable pub store_position : ℕ → ℕ → Text → Request → ℕ → Bool → Database → Answer × Database
store_position now clock tenant q position completed db =
    if allowed (decide_lesson_access now (scope_of db tenant) (context_of tenant q) q.lesson_id)
    then elim (truthy q.user) [
      | none ↦ (ok false, db)
      | some u ↦ (
        ok true,
        record_progress tenant
            (record {
              user_id = u;
              lesson_id = q.lesson_id;
              position_seconds = position;
              completed = completed;
            })
            clock db,
      )
    ]
    else (not_found, db)

unfoldable pub post_progress : ℕ → ℕ → Request → Body → Database → Answer × Database
post_progress now clock q body db = elim q.tenant [
  | none ↦ (not_found, db)
  | some tenant ↦ elim (read_position body) [
    | none ↦ (bad_request, db)
    | some position ↦ store_position now clock tenant q position (read_completed body) db
  ]
]

pub data Resume : Type 0 where
  refused : Resume
  resume : ℕ → Bool → Resume

abbrev pub to_resume : Option LessonProgress → Resume
to_resume none = resume 0 false
to_resume (some p) = resume p.position_seconds (is_some p.completed_at)

unfoldable pub get_progress : ℕ → Request → Database → Resume
get_progress now q db = elim q.tenant [
  | none ↦ refused
  | some tenant ↦
      if allowed (decide_lesson_access now (scope_of db tenant) (context_of tenant q) q.lesson_id)
      then elim (truthy q.user) [
        | none ↦ resume 0 false
        | some u ↦ to_resume (find_progress (scope_of db tenant) u q.lesson_id)
      ]
      else refused
]
