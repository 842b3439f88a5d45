-- ===== src/Access/Authoring/Rules.antt =====
-- authoring.ts against its rules, stated over the rows of the tables.
use lamp_light.Base.{
  ◌≡◌, refl, ◌⊎◌, inl, inr, ◌↔◌, true, arith, Bool-cases, Option-cases, and-eq-true, Memᴰ, any,
}
use lamp_light.Base.Text.{Text, ◌==◌, eq_iff, eq_refl}
use lamp_light.Db.{Role, student, instructor, admin, Course, Scope}
use lamp_light.Db.Queries.{Keyed, any_sound, any_complete}
use lamp_light.Db.Entitlements.{find_membership, is_instructor_of}
use lamp_light.Access.Rows.{
  IsMember, Teaches, same_member, find_membership_sound, find_membership_complete,
  is_instructor_of_iff,
}
use lamp_light.Access.Authoring.{
  AuthorContext, allowed, is_course, course_exists, decide_author, decide_course_authoring,
}

-- The course is one of the institute's.
pub record Offers (s : Scope) (course_id : Text) : Type 0 where
  pub row : Course
  pub listed : Memᴰ row s.db.courses
  pub keys : (row.tenant_id ≡ s.tenant_id) × (row.id ≡ course_id)

-- Who may change a course of the institute: its admins, and the instructors assigned to it.
abbrev pub MayAuthor : Scope → Text → Text → Type 0
MayAuthor s user course_id =
    Offers s course_id
    × (IsMember s user admin ⊎ (IsMember s user instructor × Teaches s user course_id))

module _ (s : Scope) where
  Offers-iff : (course_id : Text) → (course_exists s course_id ≡ true) ↔ Offers s course_id
  unfolding course_exists
  Offers-iff course_id = (sound, complete)
    where
      sound : any (is_course s.tenant_id course_id) s.db.courses ≡ true → Offers s course_id
      sound h =
          let (c, m, fits) = any_sound _ s.db.courses h in
          let (t, i) = and-eq-true (c.tenant_id == s.tenant_id) (c.id == course_id) fits in
          record { row = c; listed = m; keys = ((eq_iff _ _).0 t, (eq_iff _ _).0 i) }

      complete : Offers s course_id → any (is_course s.tenant_id course_id) s.db.courses ≡ true
      complete o =
          any_complete _ s.db.courses o.row o.listed
            (rw (o.keys.0, o.keys.1, eq_refl s.tenant_id) (eq_refl course_id))

  author_sound :
      (user course_id : Text) (role : Role)
      → allowed (decide_author s user course_id role) ≡ true
      → IsMember s user role
      → IsMember s user admin ⊎ (IsMember s user instructor × Teaches s user course_id)
  unfolding decide_author
  author_sound user course_id admin h m = inl m
  author_sound user course_id student h m = cc
  author_sound user course_id instructor h m =
      elim (Bool-cases (is_instructor_of s user course_id)) [
        | inl teaches ↦ inr (m, (is_instructor_of_iff s user course_id).0 teaches)
        | inr other ↦ absurd (ground arith)
      ]

  course_sound :
      (ctx : AuthorContext) (course_id : Text)
      → allowed (decide_course_authoring s ctx course_id) ≡ true
      → MayAuthor s ctx.user_id course_id
  unfolding decide_course_authoring
  course_sound ctx course_id h = elim (Bool-cases (course_exists s course_id)) [
    | inr missing ↦ absurd (ground arith)
    | inl there ↦ elim (Option-cases (find_membership s ctx.user_id)) [
      | inl absent ↦ absurd (ground arith)
      | inr (m, found) ↦ (
        (Offers-iff course_id).0 there,
        author_sound ctx.user_id course_id m.role (ground arith)
            (find_membership_sound s ctx.user_id m found),
      )
    ]
  ]

  author_complete :
      (user course_id : Text) (role : Role)
      → (role ≡ admin) ⊎ ((role ≡ instructor) × Teaches s user course_id)
      → allowed (decide_author s user course_id role) ≡ true
  unfolding decide_author
  author_complete user course_id role (inl is) = rw is refl
  author_complete user course_id role (inr (is, t)) =
      rw (is, (is_instructor_of_iff s user course_id).1 t) refl

  member_complete :
      (ctx : AuthorContext) (course_id : Text) (role : Role)
      → Keyed same_member s.db.memberships
      → Offers s course_id
      → IsMember s ctx.user_id role
      → ((r : Role) → r ≡ role → allowed (decide_author s ctx.user_id course_id r) ≡ true)
      → allowed (decide_course_authoring s ctx course_id) ≡ true
  unfolding decide_course_authoring
  member_complete ctx course_id role k o m good =
      let (r, found, same) = find_membership_complete s ctx.user_id role k m in
      rw ((Offers-iff course_id).1 o, found, decide_course_authoring) (good r.role same)

  course_complete :
      (ctx : AuthorContext) (course_id : Text)
      → Keyed same_member s.db.memberships
      → MayAuthor s ctx.user_id course_id
      → allowed (decide_course_authoring s ctx course_id) ≡ true
  course_complete ctx course_id k (o, inl m) =
      member_complete ctx course_id admin k o m
        (λ r is. author_complete ctx.user_id course_id r (inl is))
  course_complete ctx course_id k (o, inr (m, t)) =
      member_complete ctx course_id instructor k o m
        (λ r is. author_complete ctx.user_id course_id r (inr (is, t)))

  -- Where memberships are unique, somebody may change a course exactly when it is a course of this
  -- institute and the person is an admin here, or an instructor here who is assigned to it.
  pub decide_course_authoring_iff :
      (ctx : AuthorContext) (course_id : Text)
      → Keyed same_member s.db.memberships
      → (allowed (decide_course_authoring s ctx course_id) ≡ true)
        ↔ MayAuthor s ctx.user_id course_id
  decide_course_authoring_iff ctx course_id k =
      (course_sound ctx course_id, course_complete ctx course_id k)
