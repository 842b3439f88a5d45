-- ===== src/Auth/Invitations/Pending.antt =====
-- invitations.ts: how many links for one address are alive.
use lamp_light.Base.{
  ℕ, ◌≡◌, inl, inr, Bool, false, not, ◌&&◌, some, List, [], ◌∷◌, find, any, is_some, if◌then◌else◌,
  arith, Bool-cases, Option-cases,
}
use lamp_light.Base.Text.{Text, ◌==◌, CaseMap}
use lamp_light.Db.{Invitation}
use lamp_light.Db.Queries.{Keyed}
use lamp_light.Db.Tables.{
  remove_rows, filter-Keyed, append-Keyed, any-none, any-remove_rows, All-mono, map-Keyed,
}
use lamp_light.Auth.Invitations.{
  Platform, Draw, InvitationRequest, is_pending, is_claimable, is_recent, is_expired, is_spent,
  address, new_invitation, issue_invitation, complete_activation, sweep_invitations,
}
use lamp_light.Auth.Invitations.Single.{Call, issue, complete, sweep, serve, served}

-- Both are unconsumed, for the same address at the same institute.
abbrev pub same_pending : Invitation → Invitation → Bool
same_pending a b =
    not (is_some a.consumed_at)
    && (not (is_some b.consumed_at) && (a.tenant_id == b.tenant_id && a.email == b.email))

abbrev pub IsSingle : Platform → Type 0
IsSingle p = Keyed same_pending p.db.invitations

consumed_apart :
    (now : ℕ) (tenant id : Text) (x y : Invitation)
    → same_pending x y ≡ false
    → same_pending
        (if is_claimable tenant id x then record x { consumed_at = some now } else x)
        (if is_claimable tenant id y then record y { consumed_at = some now } else y)
      ≡ false
consumed_apart now tenant id x y h = ground arith

module _ (cm : CaseMap) (hash encode : Text → Text) where
  issue-IsSingle :
      (now : ℕ) (drawn : Draw) (r : InvitationRequest) (p : Platform)
      → IsSingle p
      → IsSingle (serve cm hash encode (issue now drawn r) p)
  unfolding serve issue_invitation
  issue-IsSingle now drawn r p k =
      elim (Bool-cases (any (is_recent now r.tenant_id (address cm r.email)) p.db.invitations)) [
        | inl recent ↦ rw recent k
        | inr clear ↦
            let older = is_pending r.tenant_id (address cm r.email) in
            rw clear (
              append-Keyed same_pending (remove_rows older p.db.invitations)
                (new_invitation cm hash encode now drawn r)
                (filter-Keyed same_pending (λ i. not (older i)) p.db.invitations k)
                (All-mono (λ i. older i ≡ false)
                  (λ i. same_pending i (new_invitation cm hash encode now drawn r) ≡ false)
                  (λ i h. ground arith) (remove_rows older p.db.invitations)
                  (any-none older (remove_rows older p.db.invitations)
                    (any-remove_rows older p.db.invitations))))
      ]

  complete-IsSingle :
      (now : ℕ) (tenant id user : Text) (p : Platform)
      → IsSingle p
      → IsSingle (complete_activation now tenant id user p).1
  unfolding complete_activation
  complete-IsSingle now tenant id user p k =
      elim (Option-cases (find (is_claimable tenant id) p.db.invitations)) [
        | inl absent ↦ rw (absent, complete_activation) k
        | inr (row, found) ↦
            rw (found, complete_activation)
              (map-Keyed same_pending
                (λ x. if is_claimable tenant id x then record x { consumed_at = some now } else x)
                (consumed_apart now tenant id) p.db.invitations k)
      ]

  serve-IsSingle : (c : Call) (p : Platform) → IsSingle p → IsSingle (serve cm hash encode c p)
  unfolding serve sweep_invitations
  serve-IsSingle (issue now drawn r) p k = issue-IsSingle now drawn r p k
  serve-IsSingle (complete now tenant id user) p k = complete-IsSingle now tenant id user p k
  serve-IsSingle (sweep now tenant) p k =
      filter-Keyed same_pending (λ i. not (is_spent now tenant i)) _
        (filter-Keyed same_pending (λ i. not (is_expired now tenant i)) p.db.invitations k)

  -- Where the tables hold at most one unconsumed invitation for an address at an institute, they do so
  -- after whatever is called: a new link takes the place of the older ones.
  pub served-IsSingle :
      (cs : List Call) (p : Platform) → IsSingle p → IsSingle (served cm hash encode cs p)
  unfolding served
  served-IsSingle [] p k = k
  served-IsSingle (c ∷ cs) p k =
      served-IsSingle cs (serve cm hash encode c p) (serve-IsSingle c p k)
