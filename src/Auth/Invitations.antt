-- ===== src/Auth/Invitations.antt =====
-- src/lib/auth/invitations.ts: signing up writes an invitation and sends a link; following the link
-- makes the account a member. `hash` is the hash of a token, `encode` is `encodeURIComponent`. A call
-- is one transaction: `now` is `Date.now()`, and the token, the id and the creation time of a new row
-- are what the generator and the database answer.
pub mod Single
pub mod Members
pub mod Links
pub mod Pending
pub mod Cooldown
use lamp_light.Base.{
  ℕ, ◌+◌, ◌*◌, Bool, true, false, not, ◌&&◌, Option, none, some, List, [], ◌∷◌, ◌++◌, ltb,
  if◌then◌else◌, find, any, filter, map, is_some, length,
}
use lamp_light.Base.Text.{Text, codes, ◌==◌, trim, CaseMap}
use lamp_light.Db.{Role, student, instructor, admin, Answers, Membership, Invitation, Database}
use lamp_light.Db.Tables.{update, remove_rows}
use lamp_light.Tenancy.Host.{absolute_url}

abbrev pub ttl_ms : ℕ
ttl_ms = 72 * 60 * 60 * 1000

abbrev pub resend_cooldown_ms : ℕ
resend_cooldown_ms = 15 * 60 * 1000

abbrev pub consumed_retention_ms : ℕ
consumed_retention_ms = 90 * 24 * 60 * 60 * 1000

-- `users`, the global table.
pub record User : Type 0 where
  pub id : Text
  pub email : Text
  pub email_verified : Bool
  pub first_name : Text
  pub last_name : Text
  pub name : Text

-- The institutes' tables, and the global one.
pub record Platform : Type 0 where
  pub db : Database
  pub users : List User

-- `Extract<MembershipRole, 'student' | 'admin'>`
pub data InvitationRole : Type 0 where
  as_student as_admin : InvitationRole

abbrev pub to_role : InvitationRole → Role
to_role as_student = student
to_role as_admin = admin

-- Anything unexpected degrades to the least privileged role.
abbrev pub from_role : Role → InvitationRole
from_role admin = as_admin
from_role instructor = as_student
from_role student = as_student

pub record InvitationRequest : Type 0 where
  pub tenant_id : Text
  pub host : Text
  pub email : Text
  pub first_name : Text
  pub last_name : Text
  pub role : InvitationRole
  pub answers : Answers

pub record IssuedInvitation : Type 0 where
  pub url : Text
  pub expires_at : ℕ

-- What a call draws from outside: the token, and the new row's id and creation time.
pub record Draw : Type 0 where
  pub token : Text
  pub id : Text
  pub created_at : ℕ

abbrev pub is_pending : Text → Text → Invitation → Bool
is_pending tenant email i =
    i.tenant_id == tenant && (i.email == email && not (is_some i.consumed_at))

-- `created_at > now - RESEND_COOLDOWN_MS`
abbrev pub is_recent : ℕ → Text → Text → Invitation → Bool
is_recent now tenant email i =
    is_pending tenant email i && ltb now (i.created_at + resend_cooldown_ms)

-- The `where` of the lookup by token: not consumed, not expired.
abbrev pub is_live_token : ℕ → Text → Text → Invitation → Bool
is_live_token now tenant hashed i =
    i.tenant_id == tenant
    && (i.token_hash == hashed && (not (is_some i.consumed_at) && ltb now i.expires_at))

abbrev pub is_claimable : Text → Text → Invitation → Bool
is_claimable tenant id i = i.tenant_id == tenant && (i.id == id && not (is_some i.consumed_at))

abbrev pub activation_path : (Text → Text) → Text → Text
activation_path encode token = codes "/activate?token=" ++ encode token

pub record PendingInvitation : Type 0 where
  pub id : Text
  pub email : Text
  pub first_name : Text
  pub last_name : Text
  pub role : InvitationRole
  pub answers : Answers

abbrev pub to_pending : Invitation → PendingInvitation
to_pending i = record {
  id = i.id;
  email = i.email;
  first_name = i.first_name;
  last_name = i.last_name;
  role = from_role i.role;
  answers = i.answers;
}

-- `request.email.trim().toLowerCase()`
unfoldable pub address : CaseMap → Text → Text
address cm email = cm.lower (trim email)

-- A buffer of other bytes is refused; the bytes of two texts are equal where the texts are.
abbrev pub constant_time_equals : Text → Text → Bool
constant_time_equals a b = a == b

abbrev pub checked : Text → Option Invitation → Option PendingInvitation
checked hashed none = none
checked hashed (some i) =
    if constant_time_equals i.token_hash hashed then some (to_pending i) else none

module _ (cm : CaseMap) (hash encode : Text → Text) where
  abbrev pub new_invitation : ℕ → Draw → InvitationRequest → Invitation
  new_invitation now drawn r = record {
    tenant_id = r.tenant_id;
    id = drawn.id;
    email = address cm r.email;
    first_name = r.first_name;
    last_name = r.last_name;
    answers = r.answers;
    role = to_role r.role;
    token_hash = hash drawn.token;
    expires_at = now + ttl_ms;
    consumed_at = none;
    created_at = drawn.created_at;
  }

  -- The older pending rows of the address go, and the new one is written.
  abbrev pub supersede : ℕ → Draw → InvitationRequest → List Invitation → List Invitation
  supersede now drawn r invitations =
      remove_rows (is_pending r.tenant_id (address cm r.email)) invitations
      ++ new_invitation now drawn r ∷ []

  unfoldable pub issue_invitation :
      ℕ → Draw → InvitationRequest → Database → Option IssuedInvitation × Database
  unfolding ◌==◌
  issue_invitation now drawn r db =
      if any (is_recent now r.tenant_id (address cm r.email)) db.invitations then (none, db) else (
        some (record {
          url = absolute_url r.host (activation_path encode drawn.token);
          expires_at = now + ttl_ms;
        }),
        record db { invitations = supersede now drawn r db.invitations },
      )

unfoldable pub find_pending_invitation :
    (Text → Text) → ℕ → Text → Text → Database → Option PendingInvitation
unfolding ◌==◌
find_pending_invitation hash now tenant [] db = none
find_pending_invitation hash now tenant (c ∷ token) db =
    checked (hash (c ∷ token)) (find (is_live_token now tenant (hash (c ∷ token))) db.invitations)

-- `case when role = 'admin' then role else excluded.role end`
abbrev pub raised : Role → Role → Role
raised admin invited = admin
raised instructor invited = invited
raised student invited = invited

abbrev pub is_member_row : Text → Text → Membership → Bool
is_member_row tenant user m = m.tenant_id == tenant && m.user_id == user

-- The upsert of the membership.
unfoldable pub attach_membership : Text → Text → Invitation → List Membership → List Membership
unfolding ◌==◌
attach_membership tenant user i [] =
    record { tenant_id = tenant; user_id = user; role = i.role; profile = i.answers } ∷ []
attach_membership tenant user i (m ∷ rest) =
    if is_member_row tenant user m
    then record m { role = raised m.role i.role; profile = i.answers } ∷ rest
    else m ∷ attach_membership tenant user i rest

-- `[first, last].filter(Boolean).join(' ').trim()`
abbrev pub join_names : Text → Text → Text
join_names [] l = l
join_names (c ∷ f) [] = c ∷ f
join_names (c ∷ f) (d ∷ l) = (c ∷ f) ++ (codes " " ++ d ∷ l)

abbrev pub or_name : Text → Text → Text
or_name [] old = old
or_name (c ∷ display) old = c ∷ display

unfoldable pub mark_address_proven : Text → Invitation → List User → List User
unfolding ◌==◌ trim
mark_address_proven user i users =
    update (λ u. u.id == user)
      (λ u. record u {
        email_verified = true;
        first_name = i.first_name;
        last_name = i.last_name;
        name = or_name (trim (join_names i.first_name i.last_name)) u.name;
      })
      users

abbrev pub consume : ℕ → Text → Text → List Invitation → List Invitation
consume now tenant id invitations =
    update (is_claimable tenant id) (λ i. record i { consumed_at = some now }) invitations

unfoldable pub complete_activation : ℕ → Text → Text → Text → Platform → Bool × Platform
unfolding ◌==◌
complete_activation now tenant id user p = elim (find (is_claimable tenant id) p.db.invitations) [
  | none ↦ (false, p)
  | some i ↦ (
    true,
    record {
      db = record p.db {
        invitations = consume now tenant id p.db.invitations;
        memberships = attach_membership tenant user i p.db.memberships;
      };
      users = mark_address_proven user i p.users;
    },
  )
]

-- `consumed_at is null and expires_at < now`
abbrev pub is_expired : ℕ → Text → Invitation → Bool
is_expired now tenant i =
    i.tenant_id == tenant && (not (is_some i.consumed_at) && ltb i.expires_at now)

-- `consumed_at < now - CONSUMED_RETENTION_MS`
abbrev pub is_spent : ℕ → Text → Invitation → Bool
is_spent now tenant i =
    i.tenant_id == tenant
    && elim i.consumed_at [ none ↦ false | some t ↦ ltb (t + consumed_retention_ms) now ]

pub record InvitationSweepResult : Type 0 where
  pub expired : ℕ
  pub spent : ℕ

unfoldable pub sweep_invitations : ℕ → Text → Database → InvitationSweepResult × Database
unfolding ◌==◌
sweep_invitations now tenant db =
    let alive = remove_rows (is_expired now tenant) db.invitations in
    (
      record {
        expired = length (filter (is_expired now tenant) db.invitations);
        spent = length (filter (is_spent now tenant) alive);
      },
      record db { invitations = remove_rows (is_spent now tenant) alive },
    )
