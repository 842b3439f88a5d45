-- ===== src/Player/Stored.antt =====
-- progress.ts and the progress route: what is stored, for whom, and what becomes of a completion.
use lamp_light.Base.{
  ℕ, ◌≤◌, ◌≡◌, refl, sym, ap, subst, ◌∙◌, ◌⊎◌, inl, inr, Bool, true, false, ◌&&◌, Option, none,
  some, List, [], ◌∷◌, if◌then◌else◌, find, is_some, arith, Bool-cases, Option-cases, and-eq-true,
}
use lamp_light.Base.Text.{Text, ◌==◌, eq_iff, eq_join, truthy}
use lamp_light.Db.{Progress, Database}
use lamp_light.Access.Predicate.{allowed, decide_lesson_access, scope_of}
use lamp_light.Player.{
  no_number, not_finite, below_zero, at_least_zero, max_position_seconds, clamp_position,
  ProgressParams, is_progress, completed_time, upsert, record_progress, LessonProgress, to_progress,
  find_progress, Body, unreadable, fields, read_position, read_completed, Request, context_of,
  Answer, not_found, bad_request, ok, store_position, post_progress,
}

abbrev pub completion : Option LessonProgress → Option ℕ
completion none = none
completion (some p) = p.completed_at

-- The keys of two rows are the same.
abbrev same_key : Text → Text → Text → Text → ProgressParams → Bool
same_key t u l tenant r = tenant == t && (r.user_id == u && r.lesson_id == l)

abbrev at_position : ProgressParams → Option ℕ → LessonProgress
at_position r done = record {
  lesson_id = r.lesson_id;
  position_seconds = r.position_seconds;
  completed_at = done;
}

completed_time_lem :
    (done : Bool) (now : ℕ) (old : Option ℕ)
    → completed_time done now old ≡ (if done then some now else old)
completed_time_lem true now old = refl
completed_time_lem false now old = refl

abbrev pub saved : ProgressParams → ℕ → Option ℕ → LessonProgress
saved r now old = record {
  lesson_id = r.lesson_id;
  position_seconds = r.position_seconds;
  completed_at = if r.completed then some now else old;
}

hit_key :
    (tenant : Text) (r : ProgressParams) (p : Progress) (t u l : Text)
    → is_progress tenant r.user_id r.lesson_id p ≡ true
    → is_progress t u l p ≡ same_key t u l tenant r
hit_key tenant r p t u l h =
    let (a, rest) = and-eq-true (p.tenant_id == tenant) _ h in
    let (b, c) = and-eq-true (p.user_id == r.user_id) (p.lesson_id == r.lesson_id) rest in
    rw ((eq_iff _ _).0 a, (eq_iff _ _).0 b, (eq_iff _ _).0 c) refl

other_key :
    (tenant : Text) (r : ProgressParams) (p : Progress) (t u l : Text)
    → is_progress tenant r.user_id r.lesson_id p ≡ false
    → is_progress t u l p ≡ true
    → same_key t u l tenant r ≡ false
other_key tenant r p t u l n h = elim (Bool-cases (same_key t u l tenant r)) [
  | inr apart ↦ apart
  | inl same ↦
      let (a, rest) = and-eq-true (p.tenant_id == t) _ h in
      let (b, c) = and-eq-true (p.user_id == u) (p.lesson_id == l) rest in
      let (a', rest') = and-eq-true (tenant == t) _ same in
      let (b', c') = and-eq-true (r.user_id == u) (r.lesson_id == l) rest' in
      let hit : is_progress tenant r.user_id r.lesson_id p ≡ true =
        rw (eq_join p.tenant_id tenant t a a', eq_join p.user_id r.user_id u b b')
          (eq_join p.lesson_id r.lesson_id l c c') in
      absurd (cc (n, hit))
]

find-upsert :
    (tenant : Text) (r : ProgressParams) (now : ℕ) (ps : List Progress) (t u l : Text)
    → to_progress (find (is_progress t u l) (upsert tenant r now ps)) ≡ (
        if same_key t u l tenant r
        then some (saved r now (completion (to_progress (find (is_progress t u l) ps))))
        else to_progress (find (is_progress t u l) ps))
unfolding upsert
find-upsert tenant r now [] t u l = ground arith
find-upsert tenant r now (p ∷ ps) t u l =
    elim (Bool-cases (is_progress tenant r.user_id r.lesson_id p)) [
      | inl hit ↦ elim (Bool-cases (same_key t u l tenant r)) [
        | inl same ↦
            rw (hit, hit_key tenant r p t u l hit, same)
              (ap (λ x. some (at_position r x)) (completed_time_lem r.completed now p.completed_at))
        | inr apart ↦ rw (hit, hit_key tenant r p t u l hit, apart) refl
      ]
      | inr miss ↦ elim (Bool-cases (is_progress t u l p)) [
        | inl here ↦ rw (miss, here, other_key tenant r p t u l miss here) refl
        | inr later ↦ rw (miss, later) (find-upsert tenant r now ps t u l)
      ]
    ]

-- After a position is written, each person has at each institute and lesson the position that they
-- had, and the person whose it is, at that institute and lesson, the new one; a completion is dated
-- anew by a write that completes and kept by one that does not.
pub find_progress-record_progress :
    (tenant : Text) (r : ProgressParams) (now : ℕ) (db : Database) (t u l : Text)
    → find_progress (scope_of (record_progress tenant r now db) t) u l ≡ (
        if tenant == t && (r.user_id == u && r.lesson_id == l)
        then some (saved r now (completion (find_progress (scope_of db t) u l)))
        else find_progress (scope_of db t) u l)
unfolding find_progress record_progress
find_progress-record_progress tenant r now db t u l = find-upsert tenant r now db.progress t u l

-- Somebody has completed a lesson at an institute.
abbrev pub Completed : Database → Text → Text → Text → Type 0
Completed db t u l = is_some (completion (find_progress (scope_of db t) u l)) ≡ true

completed_kept :
    (o : Option LessonProgress) (r : ProgressParams) (now : ℕ)
    → is_some (completion o) ≡ true
    → is_some (if r.completed then some now else completion o) ≡ true
completed_kept o r now h = elim (Bool-cases r.completed) [
  | inl ended ↦ rw ended refl
  | inr going ↦ rw going h
]

record-Completed :
    (tenant : Text) (r : ProgressParams) (now : ℕ) (db : Database) (t u l : Text)
    → Completed db t u l
    → Completed (record_progress tenant r now db) t u l
record-Completed tenant r now db t u l h =
    rw (find_progress-record_progress tenant r now db t u l)
      (elim (Bool-cases (tenant == t && (r.user_id == u && r.lesson_id == l))) [
        | inl same ↦ rw same (completed_kept (find_progress (scope_of db t) u l) r now h)
        | inr apart ↦ rw apart h
      ])

-- What a write asks for, and what it leaves behind.
pub record IsStored (now clock : ℕ) (q : Request) (body : Body) (db after : Database) : Type 0 where
  pub tenant : Text
  pub user : Text
  pub position : ℕ
  pub at : q.tenant ≡ some tenant
  pub signed_in : truthy q.user ≡ some user
  pub read : read_position body ≡ some position
  pub bounded : position ≤ max_position_seconds
  pub permitted :
      allowed (decide_lesson_access now (scope_of db tenant) (context_of tenant q) q.lesson_id)
      ≡ true
  pub written :
      after
      ≡ record_progress tenant
          (record {
            user_id = user;
            lesson_id = q.lesson_id;
            position_seconds = position;
            completed = read_completed body;
          })
          clock
          db

read_bounded : (body : Body) (n : ℕ) → read_position body ≡ some n → n ≤ max_position_seconds
unfolding clamp_position
read_bounded unreadable n e = cc
read_bounded (fields no_number b) n e = cc
read_bounded (fields not_finite b) n e = cc
read_bounded (fields below_zero b) n e = ground arith
read_bounded (fields (at_least_zero m) b) n e = ground arith

abbrev pub is_stored : Answer → Bool
is_stored not_found = false
is_stored bad_request = false
is_stored (ok stored) = stored

module _ (now clock : ℕ) (q : Request) (body : Body) (db : Database) where
  abbrev Outcome : Type 0
  Outcome =
      ((is_stored (post_progress now clock q body db).0 ≡ true)
        × IsStored now clock q body db (post_progress now clock q body db).1)
      ⊎ ((is_stored (post_progress now clock q body db).0 ≡ false)
          × ((post_progress now clock q body db).1 ≡ db))

  unchanged :
      (x : Answer) → post_progress now clock q body db ≡ (x, db) → is_stored x ≡ false → Outcome
  unchanged x e failed = inr (ap (λ p. is_stored p.0) e ∙ failed, ap (λ p. p.1) e)

  permitted_cases :
      (tenant : Text) (position : ℕ)
      → q.tenant ≡ some tenant
      → read_position body ≡ some position
      → allowed (decide_lesson_access now (scope_of db tenant) (context_of tenant q) q.lesson_id)
        ≡ true
      → post_progress now clock q body db
        ≡ store_position now clock tenant q position (read_completed body) db
      → Outcome
  unfolding store_position
  permitted_cases tenant position host read good e = elim (Option-cases (truthy q.user)) [
    | inl nobody ↦ unchanged (ok false) (e ∙ rw (good, nobody, store_position) refl) refl
    | inr (user, signed) ↦
        let stored : store_position now clock tenant q position (read_completed body) db ≡ (
          ok true,
          record_progress tenant
              (record {
                user_id = user;
                lesson_id = q.lesson_id;
                position_seconds = position;
                completed = read_completed body;
              })
              clock db,
        ) =
          rw (good, signed, store_position) refl in
        inl (
          ap (λ p. is_stored p.0) (e ∙ stored),
          record {
            tenant = tenant;
            user = user;
            position = position;
            at = host;
            signed_in = signed;
            read = read;
            bounded = read_bounded body position read;
            permitted = good;
            written = ap (λ p. p.1) (e ∙ stored);
          },
        )
  ]

  pub post_progress_cases :
      ((is_stored (post_progress now clock q body db).0 ≡ true)
        × IsStored now clock q body db (post_progress now clock q body db).1)
      ⊎ ((is_stored (post_progress now clock q body db).0 ≡ false)
          × ((post_progress now clock q body db).1 ≡ db))
  unfolding post_progress store_position
  post_progress_cases = elim (Option-cases q.tenant) [
    | inl nowhere ↦ unchanged not_found (rw (nowhere, post_progress) refl) refl
    | inr (tenant, host) ↦ elim (Option-cases (read_position body)) [
      | inl garbled ↦ unchanged bad_request (rw (host, garbled, post_progress) refl) refl
      | inr (position, read) ↦
          let stored : post_progress now clock q body db
              ≡ store_position now clock tenant q position (read_completed body) db =
            rw (host, read, post_progress) refl in
          elim (Bool-cases (
            allowed
              (decide_lesson_access now (scope_of db tenant) (context_of tenant q) q.lesson_id))) [
                | inl good ↦ permitted_cases tenant position host read good stored
                | inr refused ↦
                    unchanged not_found (stored ∙ rw (refused, store_position) refl) refl
              ]
    ]
  ]

-- A POST with the times at which it is served.
pub record Post : Type 0 where
  pub now : ℕ
  pub clock : ℕ
  pub request : Request
  pub body : Body

unfoldable pub served : List Post → Database → Database
served [] db = db
served (p ∷ ps) db = served ps (post_progress p.now p.clock p.request p.body db).1

post-Completed :
    (p : Post) (db : Database) (t u l : Text)
    → Completed db t u l
    → Completed (post_progress p.now p.clock p.request p.body db).1 t u l
post-Completed p db t u l h = elim (post_progress_cases p.now p.clock p.request p.body db) [
  | inr (_, same) ↦ subst (λ d. Completed d t u l) (sym same) h
  | inl (_, w) ↦
      subst (λ d. Completed d t u l) (sym w.written)
        (record-Completed w.tenant _ p.clock db t u l h)
]

-- Whatever is posted afterwards, by whomever and in whatever order, a lesson that somebody has
-- completed stays completed.
pub served-Completed :
    (ps : List Post) (db : Database) (t u l : Text)
    → Completed db t u l
    → Completed (served ps db) t u l
unfolding served
served-Completed [] db t u l h = h
served-Completed (p ∷ ps) db t u l h =
    served-Completed ps (post_progress p.now p.clock p.request p.body db).1 t u l
      (post-Completed p db t u l h)
