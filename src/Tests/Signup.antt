-- ===== src/Tests/Signup.antt =====
-- Runs of src/lib/signup/questions.ts.
use lamp_light.Base.{◌≡◌, refl, true, false, not, ◌||◌, List, [], ◌∷◌, All, if◌then◌else◌}
use lamp_light.Base.Text.{Text, codes, ◌==◌, trim, trim_start, trim_end, is_space}
use lamp_light.Db.{said, ticked, Answers}
use lamp_light.Signup.{
  select, text, checkbox, SignupQuestion, Raw, raw_text, other, accepted, rejected, put, is_checked,
  text_of, judge_checkbox, judge_text, judge, enter, judge_each, validate_answers,
}
use lamp_light.Signup.Judging.{IsAnswered, has_answer}
use lamp_light.Signup.Fitting.{validate_answers_sound}

abbrev questions : List SignupQuestion
questions =
    record {
      id = codes "year";
      kind = select;
      required = true;
      options = codes "one" ∷ codes "two" ∷ [];
    }
    ∷ record { id = codes "church"; kind = text; required = false; options = [] }
    ∷ record { id = codes "terms"; kind = checkbox; required = true; options = [] }
    ∷ []

submitted : Text → Raw
submitted key =
    if key == codes "year"
    then raw_text (codes " two ")
    else if key == codes "terms"
    then raw_text (codes "on")
    else other

abbrev answers : Answers
answers = (codes "year", said (codes "two")) ∷ (codes "terms", ticked true) ∷ []

fine : validate_answers questions submitted ≡ accepted answers
unfolding validate_answers judge_each judge judge_checkbox judge_text is_checked text_of enter put
    submitted trim trim_start trim_end is_space ◌==◌
fine = refl

validate_answers_sound_example :
    All (IsAnswered questions) answers
    × All (λ q. (not q.required || has_answer answers q) ≡ true) questions
validate_answers_sound_example = validate_answers_sound questions submitted answers fine

-- A box that must be ticked is not, and a choice is not offered.
refused :
    validate_answers questions
      (λ key. if key == codes "terms" then other else raw_text (codes "three"))
    ≡ rejected (
        (codes "year", codes "Choose one of the options.")
        ∷ (codes "terms", codes "This has to be ticked.")
        ∷ [])
unfolding validate_answers judge_each judge judge_checkbox judge_text is_checked text_of enter put
    trim trim_start trim_end is_space ◌==◌
refused = refl
