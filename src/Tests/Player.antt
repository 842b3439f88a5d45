-- ===== src/Tests/Player.antt =====
-- Runs of src/lib/player and of the progress route.
use lamp_light.Base.{◌≡◌, refl, true, false, some, List, [], ◌∷◌}
use lamp_light.Base.Text.{◌==◌}
use lamp_light.Db.{Database}
use lamp_light.Access.Predicate.{scope_of}
use lamp_light.Player.{
  at_least_zero, fields, Body, ProgressParams, record_progress, find_progress, Request,
}
use lamp_light.Player.Stored.{
  Completed, find_progress-record_progress, Post, served, served-Completed,
}
use lamp_light.Tests.Data.{here, ana, lesson_one, rows_both}

abbrev finished : ProgressParams
finished = record { user_id = ana; lesson_id = lesson_one; position_seconds = 60; completed = true }

abbrev heard : Database
heard = record rows_both {
  progress =
      record {
        tenant_id = here;
        user_id = ana;
        lesson_id = lesson_one;
        position_seconds = 59;
        completed_at = some 7;
        updated_at = 7;
      }
      ∷ [];
}

abbrev request : Request
request = record { tenant = some here; user = some ana; lesson_id = lesson_one }

abbrev body : Body
body = fields (at_least_zero 20) false

find_progress-record_progress_example :
    find_progress (scope_of (record_progress here finished 9 heard) here) ana lesson_one
    ≡ some (record { lesson_id = lesson_one; position_seconds = 60; completed_at = some 9 })
unfolding ◌==◌
find_progress-record_progress_example =
    find_progress-record_progress here finished 9 heard here ana lesson_one

abbrev rewinding : List Post
rewinding = record { now = 8; clock = 8; request = request; body = body } ∷ []

is_finished : Completed heard here ana lesson_one
unfolding find_progress ◌==◌
is_finished = refl

served-Completed_example : Completed (served rewinding heard) here ana lesson_one
served-Completed_example = served-Completed rewinding heard here ana lesson_one is_finished
