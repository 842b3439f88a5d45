-- ===== src/Signup/Fitting.antt =====
-- src/lib/signup/questions.ts: accepted answers against the questions.
use lamp_light.Base.{
  ◌≡◌, ◌⊎◌, refl, sym, ap, inl, inr, Bool, true, false, not, ◌||◌, List, [], ◌∷◌, All, Memᴰ, arith,
}
use lamp_light.Base.Text.{Text}
use lamp_light.Db.{Answers}
use lamp_light.Signup.{
  SignupQuestion, Raw, accepted, put, Verdict, keep, skip, refuse, judge, Sheet, enter, judge_each,
  concluded, validate_answers,
}
use lamp_light.Signup.Judging.{
  IsAnswered, has_answer, kind-keep, kind-skip, put-All, put-any, put-there,
}

abbrev is_nil : List (Text × Text) → Bool
is_nil [] = true
is_nil (e ∷ errors) = false

put-nil : (id message : Text) (errors : List (Text × Text)) → is_nil (put id message errors) ≡ false
unfolding put
put-nil id message [] = refl
put-nil id message ((k, v) ∷ errors) = ground arith

-- Errors and answers stay while the loop goes on.
enter-nil :
    (q : SignupQuestion) (v : Verdict) (s : Sheet)
    → is_nil (enter q v s).1 ≡ true
    → is_nil s.1 ≡ true
unfolding enter
enter-nil q (keep a) s h = h
enter-nil q skip s h = h
enter-nil q (refuse message) s h = absurd (cc (put-nil q.id message s.1, h))

judge_each-nil :
    (qs : List SignupQuestion) (submitted : Text → Raw) (s : Sheet)
    → is_nil (judge_each qs submitted s).1 ≡ true
    → is_nil s.1 ≡ true
unfolding judge_each
judge_each-nil [] submitted s h = h
judge_each-nil (q ∷ qs) submitted s h =
    enter-nil q (judge q (submitted q.id)) s (judge_each-nil qs submitted _ h)

enter-any :
    (q : SignupQuestion) (v : Verdict) (s : Sheet) (r : SignupQuestion)
    → has_answer s.0 r ≡ true
    → has_answer (enter q v s).0 r ≡ true
unfolding enter
enter-any q (keep a) s r h = put-any q.id r.id a s.0 h
enter-any q skip s r h = h
enter-any q (refuse message) s r h = h

judge_each-any :
    (qs : List SignupQuestion) (submitted : Text → Raw) (s : Sheet) (r : SignupQuestion)
    → has_answer s.0 r ≡ true
    → has_answer (judge_each qs submitted s).0 r ≡ true
unfolding judge_each
judge_each-any [] submitted s r h = h
judge_each-any (q ∷ qs) submitted s r h =
    judge_each-any qs submitted _ r (enter-any q (judge q (submitted q.id)) s r h)

enter-IsAnswered :
    (qs : List SignupQuestion) (q : SignupQuestion) (raw : Raw) (v : Verdict) (s : Sheet)
    → judge q raw ≡ v
    → Memᴰ q qs
    → All (IsAnswered qs) s.0
    → All (IsAnswered qs) (enter q v s).0
unfolding enter
enter-IsAnswered qs q raw (keep a) s e m h =
    put-All (IsAnswered qs) q.id a s.0
      (λ k same. (q, m, sym same, kind-keep q.id q.kind q.required q.options raw a e)) h
enter-IsAnswered qs q raw skip s e m h = h
enter-IsAnswered qs q raw (refuse message) s e m h = h

judge_each-IsAnswered :
    (all qs : List SignupQuestion) (submitted : Text → Raw) (s : Sheet)
    → ((q : SignupQuestion) → Memᴰ q qs → Memᴰ q all)
    → All (IsAnswered all) s.0
    → All (IsAnswered all) (judge_each qs submitted s).0
unfolding judge_each
judge_each-IsAnswered all [] submitted s sub h = h
judge_each-IsAnswered all (q ∷ qs) submitted s sub h =
    judge_each-IsAnswered all qs submitted _ (λ r m. sub r (Memᴰ.tail m))
      (enter-IsAnswered all q (submitted q.id) (judge q (submitted q.id)) s refl
        (sub q (Memᴰ.head refl)) h)

enter-required :
    (q : SignupQuestion) (raw : Raw) (v : Verdict) (s : Sheet)
    → judge q raw ≡ v
    → is_nil (enter q v s).1 ≡ true
    → (not q.required ≡ true) ⊎ (has_answer (enter q v s).0 q ≡ true)
unfolding enter
enter-required q raw (keep a) s e h = inr (put-there q.id a s.0)
enter-required q raw skip s e h = inl (ap not (kind-skip q.id q.kind q.required q.options raw e))
enter-required q raw (refuse message) s e h = absurd (cc (put-nil q.id message s.1, h))

judge_each-required :
    (qs : List SignupQuestion) (submitted : Text → Raw) (s : Sheet)
    → is_nil (judge_each qs submitted s).1 ≡ true
    → All (λ q. (not q.required || has_answer (judge_each qs submitted s).0 q) ≡ true) qs
unfolding judge_each
judge_each-required [] submitted s h = tt
judge_each-required (q ∷ qs) submitted s h =
    let next = enter q (judge q (submitted q.id)) s in
    (
      elim (enter-required q (submitted q.id) (judge q (submitted q.id)) s refl
          (judge_each-nil qs submitted next h)) [
            | inl free ↦ ground arith
            | inr there ↦ let kept = judge_each-any qs submitted next q there in ground arith
          ],
      judge_each-required qs submitted next h,
    )

concluded-accepted :
    (s : Sheet) (answers : Answers)
    → concluded s ≡ accepted answers
    → (is_nil s.1 ≡ true) × (s.0 ≡ answers)
concluded-accepted (a, []) answers e = (refl, ground arith)
concluded-accepted (a, x ∷ errors) answers e = cc

-- Answers that are accepted hold nothing but answers to the institute's own questions, each of which
-- fits its question, and every required question has one.
pub validate_answers_sound :
    (questions : List SignupQuestion) (submitted : Text → Raw) (answers : Answers)
    → validate_answers questions submitted ≡ accepted answers
    → All (IsAnswered questions) answers
      × All (λ q. (not q.required || has_answer answers q) ≡ true) questions
unfolding validate_answers
validate_answers_sound questions submitted answers e =
    let (clean, same) = concluded-accepted (judge_each questions submitted ([], [])) answers e in
    (
      rw (← same) (judge_each-IsAnswered questions questions submitted ([], []) (λ q m. m) tt),
      rw (← same) (judge_each-required questions submitted ([], []) clean),
    )
