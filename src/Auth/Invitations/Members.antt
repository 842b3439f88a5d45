-- ===== src/Auth/Invitations/Members.antt =====
-- invitations.ts, `completeActivation`: who is a member afterwards, and in which role.
use lamp_light.Base.{
  ℕ, ◌≡◌, refl, inl, inr, Bool, true, false, not, ◌&&◌, Option, none, some, List, [], ◌∷◌, find,
  find_sound, Memᴰ, if◌then◌else◌, arith, Bool-cases, Option-cases, and-eq-true, is_some, ap,
}
use lamp_light.Base.Text.{Text, ◌==◌, eq_iff, eq_join}
use lamp_light.Db.{Role, student, instructor, admin, Membership, Invitation}
use lamp_light.Db.Entitlements.{MembershipRecord, to_record, is_membership, find_membership}
use lamp_light.Access.Predicate.{scope_of}
use lamp_light.Auth.Invitations.{
  Platform, is_claimable, raised, attach_membership, complete_activation,
}

-- An admin stays one, and everybody else gets the role of the invitation.
abbrev pub kept_role : Role → Role → Role
kept_role admin invited = admin
kept_role instructor invited = invited
kept_role student invited = invited

-- The role after an activation, also of somebody who was no member before.
abbrev pub role_after : Option MembershipRecord → Role → Role
role_after none invited = invited
role_after (some m) invited = kept_role m.role invited

raised-kept_role : (r invited : Role) → raised r invited ≡ kept_role r invited
raised-kept_role admin invited = refl
raised-kept_role instructor invited = refl
raised-kept_role student invited = refl

abbrev pub member : Text → Role → MembershipRecord
member user role = record { user_id = user; role = role }

abbrev same_key : Text → Text → Text → Text → Bool
same_key tenant user t u = tenant == t && user == u

hit_key :
    (tenant user t u : Text) (m : Membership)
    → is_membership tenant user m ≡ true
    → is_membership t u m ≡ same_key tenant user t u
hit_key tenant user t u m h =
    let (a, b) = and-eq-true (m.tenant_id == tenant) (m.user_id == user) h in
    rw ((eq_iff _ _).0 a, (eq_iff _ _).0 b) refl

other_key :
    (tenant user t u : Text) (m : Membership)
    → is_membership tenant user m ≡ false
    → is_membership t u m ≡ true
    → same_key tenant user t u ≡ false
other_key tenant user t u m n h = elim (Bool-cases (same_key tenant user t u)) [
  | inr apart ↦ apart
  | inl same ↦
      let (a, b) = and-eq-true (m.tenant_id == t) (m.user_id == u) h in
      let (a', b') = and-eq-true (tenant == t) (user == u) same in
      let hit : is_membership tenant user m ≡ true =
        rw (eq_join m.tenant_id tenant t a a') (eq_join m.user_id user u b b') in
      absurd (cc (n, hit))
]

user_of :
    (tenant user : Text) (m : Membership) → is_membership tenant user m ≡ true → m.user_id ≡ user
user_of tenant user m h =
    (eq_iff _ _).0 (and-eq-true (m.tenant_id == tenant) (m.user_id == user) h).1

find-attach_membership :
    (tenant user t u : Text) (i : Invitation) (ms : List Membership)
    → to_record (find (is_membership t u) (attach_membership tenant user i ms)) ≡ (
        if same_key tenant user t u
        then some (member user (role_after (to_record (find (is_membership t u) ms)) i.role))
        else to_record (find (is_membership t u) ms))
unfolding attach_membership
find-attach_membership tenant user t u i [] = ground arith
find-attach_membership tenant user t u i (m ∷ ms) =
    elim (Bool-cases (is_membership tenant user m)) [
      | inl hit ↦ elim (Bool-cases (same_key tenant user t u)) [
        | inl same ↦
            rw (hit, hit_key tenant user t u m hit, same, user_of tenant user m hit)
              (ap (λ x. some (member user x)) (raised-kept_role m.role i.role))
        | inr apart ↦ rw (hit, hit_key tenant user t u m hit, apart) refl
      ]
      | inr miss ↦ elim (Bool-cases (is_membership t u m)) [
        | inl here ↦ rw (miss, here, other_key tenant user t u m miss here) refl
        | inr later ↦ rw (miss, later) (find-attach_membership tenant user t u i ms)
      ]
    ]

claimable_fields :
    (tenant id : Text) (i : Invitation)
    → is_claimable tenant id i ≡ true
    → (i.tenant_id ≡ tenant) × (i.id ≡ id) × (i.consumed_at ≡ none)
claimable_fields tenant id i h =
    let (t, rest) = and-eq-true (i.tenant_id == tenant) _ h in
    let (same, open_row) = and-eq-true (i.id == id) (not (is_some i.consumed_at)) rest in
    ((eq_iff _ _).0 t, (eq_iff _ _).0 same, ground arith)

-- An activation that succeeds claims an unconsumed invitation of this institute with the given id, and
-- then the account is a member of this institute in the invitation's role, or still an admin if it
-- was one; every other membership, here and elsewhere, is as it was.
pub find_membership-complete_activation :
    (now : ℕ) (tenant id user : Text) (p : Platform)
    → (complete_activation now tenant id user p).0 ≡ true
    → (i : Invitation) × Memᴰ i p.db.invitations
      × ((i.tenant_id ≡ tenant) × (i.id ≡ id) × (i.consumed_at ≡ none))
      × ((t u : Text)
          → find_membership (scope_of (complete_activation now tenant id user p).1.db t) u ≡ (
              if tenant == t && user == u
              then some (member user (role_after (find_membership (scope_of p.db t) u) i.role))
              else find_membership (scope_of p.db t) u))
unfolding complete_activation find_membership
find_membership-complete_activation now tenant id user p e =
    elim (Option-cases (find (is_claimable tenant id) p.db.invitations)) [
      | inl absent ↦ absurd (ground arith)
      | inr (i, found) ↦
          let (listed, good) = find_sound (is_claimable tenant id) p.db.invitations i found in
          (
            i,
            listed,
            claimable_fields tenant id i good,
            λ t u.
                rw (found, complete_activation)
                  (find-attach_membership tenant user t u i p.db.memberships),
          )
    ]
