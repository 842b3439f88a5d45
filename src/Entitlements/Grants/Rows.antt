-- ===== src/Entitlements/Grants/Rows.antt =====
-- grants.ts: what the conditions of a grant and the access it confers mean over the rows of the tables.
use lamp_light.Base.{
  ℕ, ◌≡◌, refl, sym, ap, subst, ◌∙◌, inl, inr, Bool, true, false, ◌&&◌, ◌||◌, Option, none, some,
  List, [], ◌∷◌, map, ltb, any, filter, any-append, All, Memᴰ, arith, Bool-cases, and-eq-true, ap₂,
}
use lamp_light.Base.Text.{Text, ◌==◌, eq_iff, eq_refl}
use lamp_light.Db.{
  Role, SourceKind, program, course, kind_eq, Course, Program, Enrollment, Database, Scope,
}
use lamp_light.Db.Queries.{any_sound, any_complete, find_complete, order_by, any-order_by}
use lamp_light.Db.Tables.{any-filter_and, any-none, All-mono}
use lamp_light.Db.Entitlements.{
  to_record, is_membership, not_expired, covers, find_membership, GrantableSource,
  list_grantable_sources,
}
use lamp_light.Access.Predicate.{scope_of}
use lamp_light.Access.Rows.{Unexpired, IsMember, kind_eq→≡, kind_eq_refl}
use lamp_light.Entitlements.Grants.{in_past, is_same_grant, source_exists}

-- The institute has the course or the program that is named.
pub data Grantable (db : Database) (tenant id : Text) : SourceKind → Type 0 where
  a_program :
      (p : Program)
      → Memᴰ p db.programs
      → p.tenant_id ≡ tenant
      → p.id ≡ id
      → Grantable db tenant id program
  a_course :
      (c : Course)
      → Memᴰ c db.courses
      → c.tenant_id ≡ tenant
      → c.id ≡ id
      → Grantable db tenant id course

-- The row is one for the same institute, person, kind and source.
abbrev pub IsFor : Text → Text → SourceKind → Text → Enrollment → Type 0
IsFor tenant user kind source e =
    (e.tenant_id ≡ tenant) × (e.user_id ≡ user) × (e.source_kind ≡ kind) × (e.source_id ≡ source)

any-map :
    {A : Type 0} {B : Type 0} (p : B → Bool) (f : A → B) (xs : List A)
    → any p (map f xs) ≡ any (λ x. p (f x)) xs
any-map p f [] = refl
any-map p f (x ∷ xs) = ap (λ b. p (f x) || b) (any-map p f xs)

-- What a sorted listing of the rows that a selection takes is searched for.
any-listed :
    {A : Type 0} {B : Type 0} (p : B → Bool) (f : A → B) (le : A → A → Bool) (q : A → Bool)
    (xs : List A)
    → any p (map f (order_by le (filter q xs))) ≡ any (λ x. q x && p (f x)) xs
any-listed p f le q xs =
    any-map p f (order_by le (filter q xs))
    ∙ any-order_by le (λ x. p (f x)) (filter q xs)
    ∙ any-filter_and (λ x. p (f x)) q xs

module _ (collate : Text → Text → Bool) (db : Database) (tenant : Text) where
  abbrev program_hit : SourceKind → Text → Program → Bool
  program_hit kind id p = p.tenant_id == tenant && (kind_eq program kind && p.id == id)

  abbrev course_hit : SourceKind → Text → Course → Bool
  course_hit kind id c = c.tenant_id == tenant && (kind_eq course kind && c.id == id)

  source_exists_lem :
      (kind : SourceKind) (id : Text)
      → source_exists collate (scope_of db tenant) kind id
        ≡ (any (program_hit kind id) db.programs || any (course_hit kind id) db.courses)
  unfolding source_exists list_grantable_sources
  source_exists_lem kind id =
      let fits : GrantableSource → Bool = λ g. kind_eq g.kind kind && g.id == id in
      let as_program : Program → GrantableSource =
        λ p. record { kind = program; id = p.id; title = p.title } in
      let as_course : Course → GrantableSource =
        λ c. record { kind = course; id = c.id; title = c.title } in
      any-append fits
        (map as_program (
          order_by (λ p q. collate p.title q.title)
            (filter (λ p. p.tenant_id == tenant) db.programs)))
        (map as_course (
          order_by (λ c d. collate c.title d.title)
            (filter (λ c. c.tenant_id == tenant) db.courses)))
      ∙ ap₂ (λ a b. a || b)
          (any-listed fits as_program (λ p q. collate p.title q.title) (λ p. p.tenant_id == tenant)
            db.programs)
          (any-listed fits as_course (λ c d. collate c.title d.title) (λ c. c.tenant_id == tenant)
            db.courses)

  pub source_exists_sound :
      (kind : SourceKind) (id : Text)
      → source_exists collate (scope_of db tenant) kind id ≡ true
      → Grantable db tenant id kind
  source_exists_sound kind id e =
      let h = sym (source_exists_lem kind id) ∙ e in
      elim (Bool-cases (any (program_hit kind id) db.programs)) [
        | inl listed ↦
            let (p, m, fits) = any_sound (program_hit kind id) db.programs listed in
            let (t, rest) = and-eq-true (p.tenant_id == tenant) _ fits in
            let (k, i) = and-eq-true (kind_eq program kind) (p.id == id) rest in
            subst (Grantable db tenant id) (kind_eq→≡ program kind k)
              (a_program p m ((eq_iff _ _).0 t) ((eq_iff _ _).0 i))
        | inr unlisted ↦
            let there : any (course_hit kind id) db.courses ≡ true = ground arith in
            let (c, m, fits) = any_sound (course_hit kind id) db.courses there in
            let (t, rest) = and-eq-true (c.tenant_id == tenant) _ fits in
            let (k, i) = and-eq-true (kind_eq course kind) (c.id == id) rest in
            subst (Grantable db tenant id) (kind_eq→≡ course kind k)
              (a_course c m ((eq_iff _ _).0 t) ((eq_iff _ _).0 i))
      ]

  pub source_exists_complete :
      (kind : SourceKind) (id : Text)
      → Grantable db tenant id kind
      → source_exists collate (scope_of db tenant) kind id ≡ true
  source_exists_complete kind id (a_program p m t i) =
      let hit : any (program_hit program id) db.programs ≡ true =
        any_complete (program_hit program id) db.programs p m
          (rw (t, i, eq_refl tenant) (eq_refl id)) in
      source_exists_lem program id ∙ rw hit refl
  source_exists_complete kind id (a_course c m t i) =
      let hit : any (course_hit course id) db.courses ≡ true =
        any_complete (course_hit course id) db.courses c m
          (rw (t, i, eq_refl tenant) (eq_refl id)) in
      let either : (any (program_hit course id) db.programs
            || any (course_hit course id) db.courses)
          ≡ true =
        ground arith in
      source_exists_lem course id ∙ either

-- An expiry that is not in the past is ahead.
pub in_past-Unexpired : (now : ℕ) (t : Option ℕ) → in_past now t ≡ false → Unexpired now t
in_past-Unexpired now none h = tt
in_past-Unexpired now (some t) h = ground arith

-- Somebody who is not found is no member.
pub find_membership-none :
    (s : Scope) (user : Text)
    → find_membership s user ≡ none
    → ¬ ((role : Role) × IsMember s user role)
unfolding find_membership
find_membership-none s user e (role, m) =
    let fits : is_membership s.tenant_id user m.row ≡ true =
      rw (m.tenant, m.user_id, eq_refl s.tenant_id) (eq_refl user) in
    let (row, found, _, _) =
      find_complete (is_membership s.tenant_id user) s.db.memberships m.row m.listed fits in
    cc (e, ap to_record found)

module _ (tenant user : Text) (kind : SourceKind) (source : Text) where
  pub is_same_grant_sound :
      (e : Enrollment)
      → is_same_grant tenant user kind source e ≡ true
      → IsFor tenant user kind source e
  is_same_grant_sound e h =
      let (t, rest) = and-eq-true (e.tenant_id == tenant) _ h in
      let (u, rest') = and-eq-true (e.user_id == user) _ rest in
      let (k, s) = and-eq-true (kind_eq e.source_kind kind) (e.source_id == source) rest' in
      ((eq_iff _ _).0 t, (eq_iff _ _).0 u, kind_eq→≡ _ _ k, (eq_iff _ _).0 s)

  is_same_grant_complete :
      (e : Enrollment)
      → IsFor tenant user kind source e
      → is_same_grant tenant user kind source e ≡ true
  is_same_grant_complete e (t, u, k, s) =
      rw (t, u, k, s, eq_refl tenant, eq_refl user, kind_eq_refl kind) (eq_refl source)

  pub is_same_grant_none :
      (es : List Enrollment)
      → any (is_same_grant tenant user kind source) es ≡ false
      → All (λ e. ¬ IsFor tenant user kind source e) es
  is_same_grant_none es h =
      All-mono (λ e. is_same_grant tenant user kind source e ≡ false)
        (λ e. ¬ IsFor tenant user kind source e) (λ e n f. cc (n, is_same_grant_complete e f)) es
        (any-none (is_same_grant tenant user kind source) es h)

  pub is_same_grant_out :
      (es : List Enrollment)
      → All (λ e. ¬ IsFor tenant user kind source e) es
      → All (λ e. is_same_grant tenant user kind source e ≡ false) es
  is_same_grant_out =
      All-mono (λ e. ¬ IsFor tenant user kind source e)
        (λ e. is_same_grant tenant user kind source e ≡ false)
        (λ e n. elim (Bool-cases (is_same_grant tenant user kind source e)) [
          | inl same ↦ absurd (n (is_same_grant_sound e same))
          | inr apart ↦ apart
        ])

-- The course of a grant, or a program that holds the course at the institute.
abbrev pub reaches : Database → Text → Text → SourceKind → Text → Bool
reaches db tenant course_id course source = source == course_id
reaches db tenant course_id program source =
    any (λ r. r.tenant_id == tenant && (r.program_id == source && r.course_id == course_id))
      db.program_courses

-- A time of expiry that is not there or not reached.
abbrev pub current : ℕ → Option ℕ → Bool
current later none = true
current later (some t) = ltb later t

pub not_expired-current :
    (later : ℕ) (e : Enrollment) → not_expired later e ≡ current later e.expires_at
not_expired-current later e = by_time e.expires_at refl
  where
    by_time : (t : Option ℕ) → e.expires_at ≡ t → not_expired later e ≡ current later t
    by_time none h = rw h refl
    by_time (some t) h = rw h refl

pub covers-reaches :
    (s : Scope) (course_id : Text) (e : Enrollment)
    → covers s course_id e ≡ reaches s.db s.tenant_id course_id e.source_kind e.source_id
covers-reaches s course_id e = by_kind e.source_kind refl
  where
    by_kind :
        (k : SourceKind)
        → e.source_kind ≡ k
        → covers s course_id e ≡ reaches s.db s.tenant_id course_id k e.source_id
    by_kind program h = rw h refl
    by_kind course h = rw h (ground arith)
