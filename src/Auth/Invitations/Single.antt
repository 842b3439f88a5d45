-- ===== src/Auth/Invitations/Single.antt =====
-- invitations.ts: how often an invitation can be spent, and how many are alive for one address.
use lamp_light.Base.{
  ℕ, ◌≡◌, refl, inl, inr, true, false, not, some, List, [], ◌∷◌, find, any, All, any-append, arith,
  Bool-cases, Option-cases,
}
use lamp_light.Base.Text.{Text, ◌==◌, CaseMap}
use lamp_light.Db.{Invitation}
use lamp_light.Db.Tables.{any-update_out, any-update_stays, any-filter_stays, none_found}
use lamp_light.Auth.Invitations.{
  Platform, Draw, InvitationRequest, is_pending, is_claimable, is_recent, is_expired, is_spent,
  address, issue_invitation, complete_activation, sweep_invitations,
}

-- A call, with its time and what it draws.
pub data Call : Type 0 where
  issue : ℕ → Draw → InvitationRequest → Call
  complete : ℕ → Text → Text → Text → Call
  sweep : ℕ → Text → Call

-- The call gives no new row this id.
abbrev pub IsFresh : Text → Call → Type 0
IsFresh id (issue now drawn r) = (drawn.id == id) ≡ false
IsFresh id (complete now tenant i user) = Unit
IsFresh id (sweep now tenant) = Unit

-- No row of the institute with this id can be claimed.
abbrev IsGone : Text → Text → Platform → Type 0
IsGone tenant id p = any (is_claimable tenant id) p.db.invitations ≡ false

claim_consumed :
    (now : ℕ) (tenant id : Text) (i : Invitation)
    → is_claimable tenant id (record i { consumed_at = some now }) ≡ false
claim_consumed now tenant id i = ground arith

module _ (cm : CaseMap) (hash encode : Text → Text) where
  unfoldable pub serve : Call → Platform → Platform
  serve (issue now drawn r) p = record p {
    db = (issue_invitation cm hash encode now drawn r p.db).1;
  }
  serve (complete now tenant id user) p = (complete_activation now tenant id user p).1
  serve (sweep now tenant) p = record p { db = (sweep_invitations now tenant p.db).1 }

  unfoldable pub served : List Call → Platform → Platform
  unfolding serve
  served [] p = p
  served (c ∷ cs) p = served cs (serve c p)

  issue-IsGone :
      (now : ℕ) (drawn : Draw) (r : InvitationRequest) (tenant id : Text) (p : Platform)
      → (drawn.id == id) ≡ false
      → IsGone tenant id p
      → IsGone tenant id (serve (issue now drawn r) p)
  unfolding serve issue_invitation
  issue-IsGone now drawn r tenant id p new gone =
      elim (Bool-cases (any (is_recent now r.tenant_id (address cm r.email)) p.db.invitations)) [
        | inl recent ↦ rw recent gone
        | inr clear ↦
            let rest =
              any-filter_stays (λ i. not (is_pending r.tenant_id (address cm r.email) i))
                (is_claimable tenant id) p.db.invitations gone in
            rw (clear, any-append, rest, new) (ground arith)
      ]

  complete-IsGone :
      (now : ℕ) (t i user tenant id : Text) (p : Platform)
      → IsGone tenant id p
      → IsGone tenant id (complete_activation now t i user p).1
  unfolding complete_activation
  complete-IsGone now t i user tenant id p gone =
      elim (Option-cases (find (is_claimable t i) p.db.invitations)) [
        | inl absent ↦ rw (absent, complete_activation) gone
        | inr (row, found) ↦
            rw (found, complete_activation)
              (any-update_stays (is_claimable t i) (is_claimable tenant id)
                (λ x. record x { consumed_at = some now })
                (λ x h. absurd (cc (claim_consumed now tenant id x, h))) p.db.invitations gone)
      ]

  sweep-IsGone :
      (now : ℕ) (t tenant id : Text) (p : Platform)
      → IsGone tenant id p
      → IsGone tenant id (serve (sweep now t) p)
  unfolding serve sweep_invitations
  sweep-IsGone now t tenant id p gone =
      any-filter_stays (λ i. not (is_spent now t i)) (is_claimable tenant id) _
        (any-filter_stays (λ i. not (is_expired now t i)) (is_claimable tenant id) p.db.invitations
          gone)

  serve-IsGone :
      (c : Call) (tenant id : Text) (p : Platform)
      → IsFresh id c
      → IsGone tenant id p
      → IsGone tenant id (serve c p)
  unfolding serve
  serve-IsGone (issue now drawn r) tenant id p new gone =
      issue-IsGone now drawn r tenant id p new gone
  serve-IsGone (complete now t i user) tenant id p new gone =
      complete-IsGone now t i user tenant id p gone
  serve-IsGone (sweep now t) tenant id p new gone = sweep-IsGone now t tenant id p gone

  served-IsGone :
      (cs : List Call) (tenant id : Text) (p : Platform)
      → All (IsFresh id) cs
      → IsGone tenant id p
      → IsGone tenant id (served cs p)
  unfolding served
  served-IsGone [] tenant id p new gone = gone
  served-IsGone (c ∷ cs) tenant id p (n, new) gone =
      served-IsGone cs tenant id (serve c p) new (serve-IsGone c tenant id p n gone)

  gone_refused :
      (now : ℕ) (tenant id user : Text) (p : Platform)
      → IsGone tenant id p
      → complete_activation now tenant id user p ≡ (false, p)
  unfolding complete_activation
  gone_refused now tenant id user p gone =
      rw (none_found (is_claimable tenant id) p.db.invitations gone, complete_activation) refl

  claimed-IsGone :
      (now : ℕ) (tenant id user : Text) (p : Platform)
      → (complete_activation now tenant id user p).0 ≡ true
      → IsGone tenant id (complete_activation now tenant id user p).1
  unfolding complete_activation
  claimed-IsGone now tenant id user p e =
      elim (Option-cases (find (is_claimable tenant id) p.db.invitations)) [
        | inl absent ↦ absurd (ground arith)
        | inr (row, found) ↦
            rw (found, complete_activation)
              (any-update_out (is_claimable tenant id) (is_claimable tenant id)
                (λ x. record x { consumed_at = some now }) (λ x h. claim_consumed now tenant id x)
                (λ x h. h) p.db.invitations)
      ]

  -- An invitation is spent once: after an activation that succeeded, and whatever is called then, as
  -- long as no new invitation is given the same id, another activation of it, for whichever account,
  -- is refused and changes nothing.
  pub complete_activation_once :
      (now : ℕ) (tenant id user : Text) (p : Platform) (cs : List Call) (later : ℕ)
      (other_user : Text)
      → (complete_activation now tenant id user p).0 ≡ true
      → All (IsFresh id) cs
      → complete_activation later tenant id other_user
          (served cs (complete_activation now tenant id user p).1)
        ≡ (false, served cs (complete_activation now tenant id user p).1)
  complete_activation_once now tenant id user p cs later other_user e new =
      gone_refused later tenant id other_user _
        (served-IsGone cs tenant id _ new (claimed-IsGone now tenant id user p e))
