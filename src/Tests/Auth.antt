-- ===== src/Tests/Auth.antt =====
-- Runs of src/lib/auth/invitations.ts.
use lamp_light.Base.{
  ◌≡◌, refl, true, false, ◌&&◌, none, some, List, [], ◌∷◌, Memᴰ, if◌then◌else◌, arith, All,
}
use lamp_light.Base.Text.{Text, codes, ◌==◌, ascii_case_map, ends_with, index_of}
use lamp_light.Db.{student, Invitation}
use lamp_light.Db.Entitlements.{find_membership}
use lamp_light.Access.Predicate.{scope_of}
use lamp_light.Auth.Invitations.{
  as_student, Platform, Draw, InvitationRequest, IssuedInvitation, issue_invitation,
  find_pending_invitation, attach_membership, mark_address_proven, complete_activation,
  sweep_invitations,
}
use lamp_light.Auth.Invitations.Single.{
  Call, sweep, issue, complete, served, complete_activation_once,
}
use lamp_light.Auth.Invitations.Pending.{IsSingle, served-IsSingle}
use lamp_light.Auth.Invitations.Links.{
  invited, find_pending_invitation-issue_invitation, find_pending_invitation-sweep_invitations,
}
use lamp_light.Auth.Invitations.Cooldown.{IsBetween, issue_invitation_cooldown}
use lamp_light.Auth.Invitations.Members.{member, role_after, find_membership-complete_activation}
use lamp_light.Tests.Data.{here, ben, rows_both}

-- Stand-ins: a hash that marks the token, and an encoding that keeps it.
abbrev marked : Text → Text
marked t = b'#' ∷ t

abbrev kept : Text → Text
kept t = t

-- `ben`, who teaches here, is invited as a student.
abbrev request : InvitationRequest
request = record {
  tenant_id = here;
  host = codes "i1.example";
  email = codes "Ben@x.org";
  first_name = codes "Ben";
  last_name = [];
  role = as_student;
  answers = [];
}

abbrev drawn : Draw
drawn = record { token = codes "tok"; id = codes "v1"; created_at = 101 }

abbrev redrawn : Draw
redrawn = record { token = codes "tik"; id = codes "v2"; created_at = 400 }

abbrev row : Invitation
row = record {
  tenant_id = here;
  id = codes "v1";
  email = codes "ben@x.org";
  first_name = codes "Ben";
  last_name = [];
  answers = [];
  role = student;
  token_hash = marked (codes "tok");
  expires_at = 1000;
  consumed_at = none;
  created_at = 100;
}

abbrev platform : Platform
platform = record { db = record rows_both { invitations = row ∷ [] }; users = [] }

claimed : (complete_activation 200 here (codes "v1") ben platform).0 ≡ true
unfolding complete_activation ◌==◌
claimed = refl

abbrev calls : List Call
calls = sweep 5000 here ∷ issue 6000 redrawn request ∷ []

fresh : (drawn.id == redrawn.id) ≡ false
unfolding ◌==◌
fresh = refl

fresh_too : (redrawn.id == codes "v1") ≡ false
unfolding ◌==◌
fresh_too = refl

complete_activation_once_example :
    complete_activation 7000 here (codes "v1") (codes "eve") (
      served ascii_case_map marked kept calls
        (complete_activation 200 here (codes "v1") ben platform).1)
    ≡ (
      false,
      served ascii_case_map marked kept calls
          (complete_activation 200 here (codes "v1") ben platform).1,
    )
complete_activation_once_example =
    complete_activation_once ascii_case_map marked kept 200 here (codes "v1") ben platform calls
      7000 (codes "eve") claimed (tt, (fresh_too, tt))

served-IsSingle_example : IsSingle (served ascii_case_map marked kept calls platform)
served-IsSingle_example = served-IsSingle ascii_case_map marked kept calls platform (tt, tt)

abbrev link : IssuedInvitation
link = record { url = codes "https://i1.example/activate?token=tok"; expires_at = 259200100 }

sent : (issue_invitation ascii_case_map marked kept 100 drawn request rows_both).0 ≡ some link
unfolding issue_invitation lamp_light.Tenancy.Host.absolute_url lamp_light.Tenancy.Host.is_local
    lamp_light.Tenancy.Host.strip_port index_of ends_with ◌==◌
sent = refl

find_pending_invitation-issue_invitation_example :
    find_pending_invitation marked 5000 here
      (codes "tok")
      (issue_invitation ascii_case_map marked kept 100 drawn request rows_both).1
    ≡ some (invited ascii_case_map (codes "v1") request)
find_pending_invitation-issue_invitation_example =
    find_pending_invitation-issue_invitation ascii_case_map marked kept 100 5000 drawn request
      rows_both link b't' (codes "ok") refl refl sent

-- In between: a sweep, another request for the same address, and the activation of another row.
abbrev between : List Call
between =
    sweep 200 here ∷ issue 250 redrawn request ∷ complete 260 here (codes "v9") (codes "eve") ∷ []

between-IsBetween : All (IsBetween 300 here (codes "v1")) between
unfolding ◌==◌
between-IsBetween = (omega arith, (omega arith, (refl, tt)))

abbrev rows_then : Platform
rows_then = record { db = rows_both; users = [] }

issue_invitation_cooldown_example :
    issue_invitation ascii_case_map marked kept 300 redrawn request
      (served ascii_case_map marked kept (issue 100 drawn request ∷ between) rows_then).db
    ≡ (none, (served ascii_case_map marked kept (issue 100 drawn request ∷ between) rows_then).db)
issue_invitation_cooldown_example =
    issue_invitation_cooldown ascii_case_map marked kept 100 300 drawn redrawn request request
      rows_then between link sent between-IsBetween (omega arith) (omega arith) refl refl

find_pending_invitation-sweep_invitations_example :
    find_pending_invitation marked 600 here (codes "tok") (sweep_invitations 500 here platform.db).1
    ≡ find_pending_invitation marked 600 here (codes "tok") platform.db
find_pending_invitation-sweep_invitations_example =
    find_pending_invitation-sweep_invitations marked 500 600 here here (codes "tok") platform.db
      (omega arith)

find_membership-complete_activation_example :
    (i : Invitation) × Memᴰ i platform.db.invitations
    × ((i.tenant_id ≡ here) × (i.id ≡ codes "v1") × (i.consumed_at ≡ none))
    × ((t u : Text)
        → find_membership
            (scope_of (complete_activation 200 here (codes "v1") ben platform).1.db t)
            u
          ≡ (if here == t && ben == u
              then some
                  (member ben (role_after (find_membership (scope_of platform.db t) u) i.role))
              else find_membership (scope_of platform.db t) u))
find_membership-complete_activation_example =
    find_membership-complete_activation 200 here (codes "v1") ben platform claimed

-- The teacher is a student afterwards.
demoted :
    find_membership
      (scope_of (complete_activation 200 here (codes "v1") ben platform).1.db here)
      ben
    ≡ some (member ben student)
unfolding complete_activation attach_membership mark_address_proven find_membership ◌==◌
demoted = refl
