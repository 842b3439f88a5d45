-- ===== src/Signup.antt =====
-- src/lib/signup/questions.ts, `validateAnswers`: the answers that an institute accepts. The questions
-- are those that `parseQuestions` answers, whose schema library is not modelled.
pub mod Judging
pub mod Fitting
use lamp_light.Base.{
  ℕ, Bool, true, false, not, ◌&&◌, ◌||◌, Option, none, some, List, [], ◌∷◌, any, find, length, ltb,
  if◌then◌else◌,
}
use lamp_light.Base.Text.{Text, codes, ◌==◌, trim}
use lamp_light.Db.{Answer, said, ticked, Answers}

abbrev pub max_answer_length : ℕ
max_answer_length = 2000

pub data QuestionKind : Type 0 where
  text textarea select checkbox : QuestionKind

-- Missing options count as none; the label and the help do not matter here.
pub record SignupQuestion : Type 0 where
  pub id : Text
  pub kind : QuestionKind
  pub required : Bool
  pub options : List Text

-- A submitted value; one that is missing is `other`, like a number or an object.
pub data Raw : Type 0 where
  raw_text : Text → Raw
  raw_bool : Bool → Raw
  other : Raw

pub data AnswerResult : Type 0 where
  accepted : Answers → AnswerResult
  rejected : List (Text × Text) → AnswerResult

-- `record[key] = value`
unfoldable pub put {ℓ} : {A : Type ℓ} → Text → A → List (Text × A) → List (Text × A)
unfolding ◌==◌
put key value [] = (key, value) ∷ []
put key value ((k, v) ∷ entries) =
    if k == key then (k, value) ∷ entries else (k, v) ∷ put key value entries

-- `raw === true || raw === 'true' || raw === 'on'`
unfoldable pub is_checked : Raw → Bool
unfolding ◌==◌
is_checked (raw_bool b) = b
is_checked (raw_text t) = t == codes "true" || t == codes "on"
is_checked other = false

unfoldable pub text_of : Raw → Text
unfolding trim
text_of (raw_text t) = trim t
text_of (raw_bool b) = []
text_of other = []

-- What one question makes of its value: an answer, nothing, or an error.
pub data Verdict : Type 0 where
  keep : Answer → Verdict
  skip : Verdict
  refuse : Text → Verdict

abbrev pub is_select : QuestionKind → Bool
is_select select = true
is_select text = false
is_select textarea = false
is_select checkbox = false

unfoldable pub judge_checkbox : Bool → Bool → Verdict
judge_checkbox required checked =
    if required && not checked
    then refuse (codes "This has to be ticked.")
    else keep (ticked checked)

unfoldable pub judge_text : SignupQuestion → Text → Verdict
unfolding ◌==◌
judge_text q [] = if q.required then refuse (codes "This is required.") else skip
judge_text q (c ∷ t) =
    if ltb max_answer_length (length (c ∷ t))
    then refuse (codes "That answer is too long.")
    else if is_select q.kind && not (any (λ o. o == (c ∷ t)) q.options)
    then refuse (codes "Choose one of the options.")
    else keep (said (c ∷ t))

unfoldable pub judge : SignupQuestion → Raw → Verdict
unfolding judge_checkbox judge_text is_checked text_of
judge q raw = elim q.kind [
  | checkbox ↦ judge_checkbox q.required (is_checked raw)
  | text ↦ judge_text q (text_of raw)
  | textarea ↦ judge_text q (text_of raw)
  | select ↦ judge_text q (text_of raw)
]

-- The answers and the errors so far.
abbrev pub Sheet : Type 0
Sheet = Answers × List (Text × Text)

unfoldable pub enter : SignupQuestion → Verdict → Sheet → Sheet
unfolding put
enter q (keep a) (answers, errors) = (put q.id a answers, errors)
enter q skip (answers, errors) = (answers, errors)
enter q (refuse message) (answers, errors) = (answers, put q.id message errors)

unfoldable pub judge_each : List SignupQuestion → (Text → Raw) → Sheet → Sheet
unfolding judge enter
judge_each [] submitted sheet = sheet
judge_each (q ∷ qs) submitted sheet =
    judge_each qs submitted (enter q (judge q (submitted q.id)) sheet)

abbrev pub concluded : Sheet → AnswerResult
concluded (answers, []) = accepted answers
concluded (answers, e ∷ errors) = rejected (e ∷ errors)

unfoldable pub validate_answers : List SignupQuestion → (Text → Raw) → AnswerResult
unfolding judge_each
validate_answers questions submitted = concluded (judge_each questions submitted ([], []))
