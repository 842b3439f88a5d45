-- ===== src/Signup/Judging.antt =====
-- src/lib/signup/questions.ts: what one question keeps.
use lamp_light.Base.{
  ◌≤◌, ◌≡◌, refl, inl, inr, Bool, true, false, not, ◌&&◌, ◌||◌, List, [], ◌∷◌, any, length, leb,
  All, Memᴰ, arith, Bool-cases,
}
use lamp_light.Base.Text.{Text, ◌==◌, eq_iff, eq_refl}
use lamp_light.Db.{Answer, said, ticked, Answers}
use lamp_light.Signup.{
  QuestionKind, text, textarea, select, checkbox, SignupQuestion, Raw, put, is_checked, text_of,
  keep, skip, is_select, judge_checkbox, judge_text, judge,
}

-- An answer that fits a question: a box that must be ticked is; a text is there and not too long; a
-- choice is one that is offered.
abbrev pub fits_kind : QuestionKind → Bool → List Text → Answer → Bool
fits_kind checkbox required options (ticked b) = not required || b
fits_kind checkbox required options (said t) = false
fits_kind text required options (said t) = leb 1 (length t) && leb (length t) 2000
fits_kind text required options (ticked b) = false
fits_kind textarea required options (said t) = leb 1 (length t) && leb (length t) 2000
fits_kind textarea required options (ticked b) = false
fits_kind select required options (said t) =
    leb 1 (length t) && (leb (length t) 2000 && any (λ o. o == t) options)
fits_kind select required options (ticked b) = false

abbrev pub fits : SignupQuestion → Answer → Bool
fits q a = fits_kind q.kind q.required q.options a

judge_text-keep :
    (q : SignupQuestion) (t : Text) (a : Answer)
    → judge_text q t ≡ keep a
    → (a ≡ said t)
      × (1 ≤ length t)
      × (length t ≤ 2000)
      × ((not (is_select q.kind) || any (λ o. o == t) q.options) ≡ true)
unfolding judge_text
judge_text-keep q [] a e = ground arith
judge_text-keep q (c ∷ t) a e = (ground arith, omega arith, ground arith, ground arith)

judge_text-skip : (q : SignupQuestion) (t : Text) → judge_text q t ≡ skip → q.required ≡ false
unfolding judge_text
judge_text-skip q [] e = ground arith
judge_text-skip q (c ∷ t) e = absurd (ground arith)

judge_checkbox-keep :
    (required checked : Bool) (a : Answer)
    → judge_checkbox required checked ≡ keep a
    → (a ≡ ticked checked) × ((not required || checked) ≡ true)
unfolding judge_checkbox
judge_checkbox-keep required checked a e = (ground arith, ground arith)

-- A text in bounds, as the Boolean test says it.
in_bounds :
    (t : Text) → 1 ≤ length t → length t ≤ 2000 → (leb 1 (length t) && leb (length t) 2000) ≡ true
in_bounds t lo hi = ground arith

pub kind-keep :
    (id : Text) (kind : QuestionKind) (required : Bool) (options : List Text) (raw : Raw)
    (a : Answer)
    → judge (record { id = id; kind = kind; required = required; options = options }) raw ≡ keep a
    → fits_kind kind required options a ≡ true
unfolding judge
kind-keep id checkbox required options raw a e =
    let (is, ticked_right) = judge_checkbox-keep required (is_checked raw) a e in rw is ticked_right
kind-keep id text required options raw a e =
    let (is, lo, hi, o) =
      judge_text-keep (record { id = id; kind = text; required = required; options = options })
        (text_of raw) a e in
    rw is (in_bounds (text_of raw) lo hi)
kind-keep id textarea required options raw a e =
    let (is, lo, hi, o) =
      judge_text-keep (record { id = id; kind = textarea; required = required; options = options })
        (text_of raw) a e in
    rw is (in_bounds (text_of raw) lo hi)
kind-keep id select required options raw a e =
    let (is, lo, hi, o) =
      judge_text-keep (record { id = id; kind = select; required = required; options = options })
        (text_of raw) a e in
    rw is (ground arith)

-- An entry is the answer to one of the questions.
abbrev pub IsAnswered : List SignupQuestion → Text × Answer → Type 0
IsAnswered qs (id, a) = (q : SignupQuestion) × Memᴰ q qs × (q.id ≡ id) × (fits q a ≡ true)

abbrev pub has_answer : Answers → SignupQuestion → Bool
has_answer answers q = any (λ e. e.0 == q.id) answers

pub put-All :
    (P : Text × Answer → Type 0) (id : Text) (a : Answer) (answers : Answers)
    → ((k : Text) → k ≡ id → P (k, a))
    → All P answers
    → All P (put id a answers)
unfolding put
put-All P id a [] p h = (p id refl, tt)
put-All P id a ((k, v) ∷ answers) p (h, hs) = elim (Bool-cases (k == id)) [
  | inl same ↦ rw same (p k ((eq_iff k id).0 same), hs)
  | inr apart ↦ rw apart (h, put-All P id a answers p hs)
]

pub put-any :
    (id key : Text) (a : Answer) (answers : Answers)
    → any (λ e. e.0 == key) answers ≡ true
    → any (λ e. e.0 == key) (put id a answers) ≡ true
unfolding put
put-any id key a [] h = cc
put-any id key a ((k, v) ∷ answers) h = ground (arith, put-any id key a answers)

pub put-there :
    (id : Text) (a : Answer) (answers : Answers) → any (λ e. e.0 == id) (put id a answers) ≡ true
unfolding put
put-there id a [] = ground (arith, eq_refl id)
put-there id a ((k, v) ∷ answers) = ground (arith, put-there id a answers)

pub kind-skip :
    (id : Text) (kind : QuestionKind) (required : Bool) (options : List Text) (raw : Raw)
    → judge (record { id = id; kind = kind; required = required; options = options }) raw ≡ skip
    → required ≡ false
unfolding judge judge_checkbox
kind-skip id checkbox required options raw e = ground arith
kind-skip id text required options raw e =
    judge_text-skip (record { id = id; kind = text; required = required; options = options })
      (text_of raw) e
kind-skip id textarea required options raw e =
    judge_text-skip (record { id = id; kind = textarea; required = required; options = options })
      (text_of raw) e
kind-skip id select required options raw e =
    judge_text-skip (record { id = id; kind = select; required = required; options = options })
      (text_of raw) e
