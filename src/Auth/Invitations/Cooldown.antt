-- ===== src/Auth/Invitations/Cooldown.antt =====
-- invitations.ts, `issueInvitation`: for how long no second link is sent to an address.
use lamp_light.Base.{
  ℕ, ◌+◌, ◌<◌, ◌≤◌, ◌≡◌, refl, sym, ap, ◌∙◌, inl, inr, Bool, true, false, not, ◌&&◌, none, some,
  List, [], ◌∷◌, ◌++◌, find, any, filter, All, Memᴰ, arith, Bool-cases, Option-cases, and-eq-true,
}
use lamp_light.Base.Text.{Text, ◌==◌, eq_iff, eq_refl, CaseMap}
use lamp_light.Db.{Invitation}
use lamp_light.Db.Queries.{any_complete}
use lamp_light.Db.Tables.{update}
use lamp_light.Auth.Invitations.{
  Platform, Draw, InvitationRequest, IssuedInvitation, is_pending, is_recent, is_claimable,
  is_expired, is_spent, address, new_invitation, issue_invitation, complete_activation,
  sweep_invitations,
}
use lamp_light.Auth.Invitations.Single.{Call, issue, complete, sweep, serve, served}

module _ {A : Type 0} where
  filter-Memᴰ : (p : A → Bool) (x : A) (xs : List A) → Memᴰ x xs → p x ≡ true → Memᴰ x (filter p xs)
  filter-Memᴰ p x [] m h = elim m [ ]
  filter-Memᴰ p x (y ∷ xs) (Memᴰ.head e) h =
      let fits : p y ≡ true = ap p (sym e) ∙ h in rw fits (Memᴰ.head e)
  filter-Memᴰ p x (y ∷ xs) (Memᴰ.tail m) h = elim (Bool-cases (p y)) [
    | inl kept ↦ rw kept (Memᴰ.tail (filter-Memᴰ p x xs m h))
    | inr gone ↦ rw gone (filter-Memᴰ p x xs m h)
  ]

  append-Memᴰ : (x : A) (xs ys : List A) → Memᴰ x xs → Memᴰ x (xs ++ ys)
  append-Memᴰ x [] ys m = elim m [ ]
  append-Memᴰ x (y ∷ xs) ys (Memᴰ.head e) = Memᴰ.head e
  append-Memᴰ x (y ∷ xs) ys (Memᴰ.tail m) = Memᴰ.tail (append-Memᴰ x xs ys m)

  append_last-Memᴰ : (x : A) (xs : List A) → Memᴰ x (xs ++ x ∷ [])
  append_last-Memᴰ x [] = Memᴰ.head refl
  append_last-Memᴰ x (y ∷ xs) = Memᴰ.tail (append_last-Memᴰ x xs)

  update-Memᴰ :
      (p : A → Bool) (f : A → A) (x : A) (xs : List A)
      → Memᴰ x xs
      → p x ≡ false
      → Memᴰ x (update p f xs)
  update-Memᴰ p f x [] m h = elim m [ ]
  update-Memᴰ p f x (y ∷ xs) (Memᴰ.head e) h =
      let out : p y ≡ false = ap p (sym e) ∙ h in rw out (Memᴰ.head e)
  update-Memᴰ p f x (y ∷ xs) (Memᴰ.tail m) h = Memᴰ.tail (update-Memᴰ p f x xs m h)

-- Between the two calls: nothing is served later than the second one, and nobody spends the
-- invitation of the first one.
abbrev pub IsBetween : ℕ → Text → Text → Call → Type 0
IsBetween later tenant id (issue t drawn r) = t ≤ later
IsBetween later tenant id (complete t at other user) = (at == tenant && other == id) ≡ false
IsBetween later tenant id (sweep t at) = t ≤ later

module _ (cm : CaseMap) (hash encode : Text → Text) (later : ℕ) (row : Invitation) where
  -- The row is young at the time of the second call, unconsumed and not expired.
  record IsYoung : Type 0 where
    pending : row.consumed_at ≡ none
    young : later < row.created_at + 900000
    alive : later ≤ row.expires_at

  recent_found :
      (t : ℕ) (tenant email : Text) (is : List Invitation)
      → IsYoung
      → t ≤ later
      → Memᴰ row is
      → is_pending tenant email row ≡ true
      → any (is_recent t tenant email) is ≡ true
  recent_found t tenant email is y le m h =
      let soon : t < row.created_at + 900000 = omega (arith, le, y.young) in
      any_complete (is_recent t tenant email) is row m (rw h (ground arith))

  issue-Memᴰ :
      (t : ℕ) (drawn : Draw) (r : InvitationRequest) (p : Platform)
      → IsYoung
      → t ≤ later
      → Memᴰ row p.db.invitations
      → Memᴰ row (issue_invitation cm hash encode t drawn r p.db).1.invitations
  unfolding issue_invitation
  issue-Memᴰ t drawn r p y le m =
      let email = address cm r.email in
      elim (Bool-cases (any (is_recent t r.tenant_id email) p.db.invitations)) [
        | inl recent ↦ rw recent m
        | inr clear ↦ elim (Bool-cases (is_pending r.tenant_id email row)) [
          | inl same ↦
              absurd (cc (clear, recent_found t r.tenant_id email p.db.invitations y le m same))
          | inr apart ↦ rw clear (
              append-Memᴰ row _ (new_invitation cm hash encode t drawn r ∷ []) (
                filter-Memᴰ (λ i. not (is_pending r.tenant_id email i)) row p.db.invitations m
                  (rw apart refl)))
        ]
      ]

  complete-Memᴰ :
      (t : ℕ) (tenant id user : Text) (p : Platform)
      → (tenant == row.tenant_id && id == row.id) ≡ false
      → Memᴰ row p.db.invitations
      → Memᴰ row (complete_activation t tenant id user p).1.db.invitations
  unfolding complete_activation
  complete-Memᴰ t tenant id user p n m =
      elim (Option-cases (find (is_claimable tenant id) p.db.invitations)) [
        | inl absent ↦ rw (absent, complete_activation) m
        | inr (i, found) ↦
            rw (found, complete_activation)
              (update-Memᴰ (is_claimable tenant id) (λ x. record x { consumed_at = some t }) row
                p.db.invitations m
                (elim (Bool-cases (is_claimable tenant id row)) [
                  | inr out ↦ out
                  | inl hit ↦
                      let (a, rest) = and-eq-true (row.tenant_id == tenant) _ hit in
                      let b = (and-eq-true (row.id == id) _ rest).0 in
                      let same : (tenant == row.tenant_id && id == row.id) ≡ true =
                        rw
                          (
                            (eq_iff row.tenant_id tenant).0 a,
                            (eq_iff row.id id).0 b,
                            eq_refl tenant,
                          )
                          (eq_refl id) in
                      absurd (cc (n, same))
                ]))
      ]

  serve-Memᴰ :
      (c : Call) (p : Platform)
      → IsYoung
      → IsBetween later row.tenant_id row.id c
      → Memᴰ row p.db.invitations
      → Memᴰ row (serve cm hash encode c p).db.invitations
  unfolding serve sweep_invitations
  serve-Memᴰ (issue t drawn r) p y le m = issue-Memᴰ t drawn r p y le m
  serve-Memᴰ (complete t tenant id user) p y n m = complete-Memᴰ t tenant id user p n m
  serve-Memᴰ (sweep t tenant) p y le m =
      let unspent : not (is_spent t tenant row) ≡ true = rw y.pending (ground arith) in
      let alive : not (is_expired t tenant row) ≡ true = ground (arith, le, y.alive) in
      filter-Memᴰ (λ i. not (is_spent t tenant i)) row _
        (filter-Memᴰ (λ i. not (is_expired t tenant i)) row p.db.invitations m alive) unspent

  served-Memᴰ :
      (cs : List Call) (p : Platform)
      → IsYoung
      → All (IsBetween later row.tenant_id row.id) cs
      → Memᴰ row p.db.invitations
      → Memᴰ row (served cm hash encode cs p).db.invitations
  unfolding served
  served-Memᴰ [] p y between m = m
  served-Memᴰ (c ∷ cs) p y (b, between) m =
      served-Memᴰ cs (serve cm hash encode c p) y between (serve-Memᴰ c p y b m)

module _ (cm : CaseMap) (hash encode : Text → Text) where
  issued-Memᴰ :
      (now : ℕ) (drawn : Draw) (r : InvitationRequest) (p : Platform) (link : IssuedInvitation)
      → (issue_invitation cm hash encode now drawn r p.db).0 ≡ some link
      → Memᴰ
          (new_invitation cm hash encode now drawn r)
          (serve cm hash encode (issue now drawn r) p).db.invitations
  unfolding serve issue_invitation
  issued-Memᴰ now drawn r p link e =
      elim (Bool-cases (any (is_recent now r.tenant_id (address cm r.email)) p.db.invitations)) [
        | inl recent ↦ absurd (ground arith)
        | inr clear ↦ rw clear (append_last-Memᴰ (new_invitation cm hash encode now drawn r) _)
      ]

  -- After a link was issued, and whatever was issued, swept or activated since at times no later
  -- than now, no second one is issued for the same address at the same institute and nothing
  -- changes, as long as less than fifteen minutes have passed since the row of the first was
  -- written and no more than three days since the call that wrote it, and nobody asked in between
  -- to activate that first invitation.
  pub issue_invitation_cooldown :
      (now later : ℕ) (drawn again : Draw) (r s : InvitationRequest) (p : Platform) (cs : List Call)
      (link : IssuedInvitation)
      → (issue_invitation cm hash encode now drawn r p.db).0 ≡ some link
      → All (IsBetween later r.tenant_id drawn.id) cs
      → later < drawn.created_at + 900000
      → later ≤ now + 259200000
      → s.tenant_id ≡ r.tenant_id
      → address cm s.email ≡ address cm r.email
      → issue_invitation cm hash encode later again s
          (served cm hash encode (issue now drawn r ∷ cs) p).db
        ≡ (none, (served cm hash encode (issue now drawn r ∷ cs) p).db)
  unfolding served issue_invitation
  issue_invitation_cooldown now later drawn again r s p cs link e between soon alive same at =
      let row = new_invitation cm hash encode now drawn r in
      let y : IsYoung cm hash encode later row = record {
        pending = refl;
        young = soon;
        alive = alive;
      } in
      let kept =
        served-Memᴰ cm hash encode later row cs (serve cm hash encode (issue now drawn r) p) y
          between (issued-Memᴰ now drawn r p link e) in
      let hit : is_pending s.tenant_id (address cm s.email) row ≡ true =
        rw (same, at, eq_refl r.tenant_id) (ground (arith, eq_refl (address cm r.email))) in
      let found =
        recent_found cm hash encode later row later s.tenant_id (address cm s.email) _ y
          (omega arith) kept hit in
      rw (found, issue_invitation) refl
