-- ===== src/Auth/Invitations/Links.antt =====
-- invitations.ts: which link works, and for how long.
use lamp_light.Base.{
  ℕ, ◌+◌, ◌≤◌, ◌≡◌, refl, ap, ◌∙◌, inl, inr, Bool, false, not, ◌&&◌, none, some, [], ◌∷◌, find, any,
  if◌then◌else◌, ltb, arith, Bool-cases,
}
use lamp_light.Base.Text.{Text, ◌==◌, eq_refl, CaseMap}
use lamp_light.Db.{Invitation, Database}
use lamp_light.Db.Queries.{find-filter}
use lamp_light.Db.Tables.{remove_rows, find-append_none, none_found, any-filter_stays, any_stronger}
use lamp_light.Auth.Invitations.{
  Draw, InvitationRequest, InvitationRole, as_student, as_admin, to_role, from_role,
  IssuedInvitation, PendingInvitation, is_pending, is_recent, is_live_token, is_expired, is_spent,
  address, checked, new_invitation, supersede, issue_invitation, find_pending_invitation,
  sweep_invitations, ttl_ms,
}

-- The row of a token at an institute.
abbrev pub has_token : Text → Text → Invitation → Bool
has_token tenant hashed i = i.tenant_id == tenant && i.token_hash == hashed

-- What the holder of a link is shown.
abbrev pub invited : CaseMap → Text → InvitationRequest → PendingInvitation
invited cm id r = record {
  id = id;
  email = address cm r.email;
  first_name = r.first_name;
  last_name = r.last_name;
  role = r.role;
  answers = r.answers;
}

role_kept : (r : InvitationRole) → from_role (to_role r) ≡ r
role_kept as_student = refl
role_kept as_admin = refl

module _ (cm : CaseMap) (hash encode : Text → Text) where
  issue_saved :
      (now : ℕ) (drawn : Draw) (r : InvitationRequest) (db : Database) (link : IssuedInvitation)
      → (issue_invitation cm hash encode now drawn r db).0 ≡ some link
      → (issue_invitation cm hash encode now drawn r db).1.invitations
        ≡ supersede cm hash encode now drawn r db.invitations
  unfolding issue_invitation
  issue_saved now drawn r db link e =
      elim (Bool-cases (any (is_recent now r.tenant_id (address cm r.email)) db.invitations)) [
        | inl recent ↦ absurd (ground arith)
        | inr clear ↦ rw clear refl
      ]

  new_found :
      (now later : ℕ) (drawn : Draw) (r : InvitationRequest) (hashed : Text)
      → hashed ≡ hash drawn.token
      → checked hashed (
          find
            (is_live_token later r.tenant_id hashed)
            (new_invitation cm hash encode now drawn r ∷ []))
        ≡ (if ltb later (now + ttl_ms) then some (invited cm drawn.id r) else none)
  new_found now later drawn r hashed e =
      rw (e, eq_refl r.tenant_id, eq_refl (hash drawn.token))
        (elim (Bool-cases (ltb later (now + ttl_ms))) [
          | inl early ↦ rw early (rw (eq_refl (hash drawn.token)) (rw (role_kept r.role) refl))
          | inr late ↦ rw late refl
        ])

  lookup_token :
      (later : ℕ) (tenant token : Text) (db : Database) (c : ℕ) (rest : Text)
      → token ≡ c ∷ rest
      → find_pending_invitation hash later tenant token db
        ≡ checked (hash token) (find (is_live_token later tenant (hash token)) db.invitations)
  unfolding find_pending_invitation
  lookup_token later tenant [] db c rest e = absurd (empty_token e)
    where
      empty_token : {c : ℕ} {rest : Text} → ¬ (◌≡◌ {A = Text} [] (c ∷ rest))
      empty_token e = cc
  lookup_token later tenant (d ∷ token) db c rest e = refl

  -- The link of an invitation that was issued works at its institute for three days, and not from
  -- then on; it shows what was asked for, with the address in lower case. No row of the institute
  -- has the hash of the new token before.
  pub find_pending_invitation-issue_invitation :
      (now later : ℕ) (drawn : Draw) (r : InvitationRequest) (db : Database)
      (link : IssuedInvitation) (c : ℕ) (rest : Text)
      → drawn.token ≡ c ∷ rest
      → any (has_token r.tenant_id (hash drawn.token)) db.invitations ≡ false
      → (issue_invitation cm hash encode now drawn r db).0 ≡ some link
      → find_pending_invitation hash later r.tenant_id drawn.token
          (issue_invitation cm hash encode now drawn r db).1
        ≡ (if ltb later (now + ttl_ms) then some (invited cm drawn.id r) else none)
  find_pending_invitation-issue_invitation now later drawn r db link c rest token new e =
      let hashed = hash drawn.token in
      let live = is_live_token later r.tenant_id hashed in
      let older = is_pending r.tenant_id (address cm r.email) in
      let absent : find live (remove_rows older db.invitations) ≡ none =
        none_found live (remove_rows older db.invitations) (
          any_stronger live (has_token r.tenant_id hashed) (λ i h. ground arith)
            (remove_rows older db.invitations)
            (any-filter_stays (λ i. not (older i)) (has_token r.tenant_id hashed) db.invitations
              new)) in
      lookup_token later r.tenant_id drawn.token (issue_invitation cm hash encode now drawn r db).1
        c rest token
      ∙ ap (λ is. checked hashed (find live is)) (issue_saved now drawn r db link e)
      ∙ ap (checked hashed) (
          find-append_none live (remove_rows older db.invitations)
            (new_invitation cm hash encode now drawn r ∷ []) absent)
      ∙ new_found now later drawn r hashed refl

-- A sweep takes away no invitation that a link could still find, then or later, at any institute.
pub find_pending_invitation-sweep_invitations :
    (hash : Text → Text) (now later : ℕ) (tenant t token : Text) (db : Database)
    → now ≤ later
    → find_pending_invitation hash later t token (sweep_invitations now tenant db).1
      ≡ find_pending_invitation hash later t token db
unfolding find_pending_invitation sweep_invitations
find_pending_invitation-sweep_invitations hash now later tenant t [] db le = refl
find_pending_invitation-sweep_invitations hash now later tenant t (c ∷ token) db le =
    let live = is_live_token later t (hash (c ∷ token)) in
    ap (checked (hash (c ∷ token))) (
      find-filter live (λ i. not (is_spent now tenant i)) (λ i h. ground arith)
        (remove_rows (is_expired now tenant) db.invitations)
      ∙ find-filter live (λ i. not (is_expired now tenant i)) (λ i h. ground arith) db.invitations)
